-- ===== src/SmartBuffer/Script.antt =====
-- The contract of a buffer: a queue of at most `cap` items that takes writes until it has refused
-- one, and whole scripts of calls against it.
use turbo_stream.Prelude.{
  ℕ, suc, ◌+◌, ◌≤◌, ◌<◌, ◌≡◌, ◌≢◌, refl, ap, ap₂, if_pos, if_neg, sym, ◌∙◌, arith, List, [], ◌∷◌,
  ◌++◌, Bool, true, false, ite, length, ℕ_discrete,
}
use turbo_stream.Prelude.Int.{ℤ, half32}
use turbo_stream.Outside
use turbo_stream.Outside.{States, AreDistinct, Result, ok, err}
use turbo_stream.SmartBuffer.{BufferItem, no_item, SmartBuffer, set_state, reset, write, pop}
use turbo_stream.SmartBuffer.Fifo.{
  push_refines, push-full, pop_refines, pop-empty, reset-Holds, state-Holds, push-sealed,
  write-push,
}
use turbo_stream.SmartBuffer.Stored.{Holds}

pub data Op : Type 0 where
  writes : BufferItem → Op
  pops : Op
  seals : Op
  resets : Op

-- What a caller sees of a call.
pub data Reply : Type 0 where
  wrote : Result (Unit {0}) → Reply
  popped : Result BufferItem → Reply
  done : Reply

-- The abstract buffer: its items, and whether it takes writes.
pub record Queue : Type 0 where
  pub items : List BufferItem
  pub open_ : Bool

module _ (cap_ : ℕ) where
  put : List BufferItem → Bool → BufferItem → Queue × Result (Unit {0})
  put items false x = (record { items = items; open_ = false }, err Outside.read_only)
  put items true x =
      ite (ℕ_discrete (length items) cap_)
        (record { items = items; open_ = false }, err Outside.read_only)
        (record { items = items ++ x ∷ []; open_ = true }, ok tt)

  put-sealed :
      (items : List BufferItem) (x : BufferItem)
      → put items false x ≡ (record { items = items; open_ = false }, err Outside.read_only)
  unfolding put
  put-sealed items x = refl

  put-full :
      (items : List BufferItem) (x : BufferItem)
      → length items ≡ cap_
      → put items true x ≡ (record { items = items; open_ = false }, err Outside.read_only)
  unfolding put
  put-full items x e = if_pos (ℕ_discrete (length items) cap_) e _ _

  put-room :
      (items : List BufferItem) (x : BufferItem)
      → length items ≢ cap_
      → put items true x ≡ (record { items = items ++ x ∷ []; open_ = true }, ok tt)
  unfolding put
  put-room items x ne = if_neg (ℕ_discrete (length items) cap_) ne _ _

  get : List BufferItem → Bool → Queue × Result BufferItem
  get [] o = (record { items = []; open_ = o }, ok no_item)
  get (x ∷ xs) o = (record { items = xs; open_ = o }, ok x)

  abstract_step : Queue → Op → Queue × Reply
  unfolding get
  abstract_step q (writes x) = let (q', r) = put q.items q.open_ x in (q', wrote r)
  abstract_step q pops = let (q', r) = get q.items q.open_ in (q', popped r)
  abstract_step q seals = (record q { open_ = false }, done)
  abstract_step q resets = (record { items = []; open_ = true }, done)

  pub abstract_run : Queue → List Op → List Reply
  unfolding abstract_step
  abstract_run q [] = []
  abstract_run q (o ∷ ops) = let (q', r) = abstract_step q o in r ∷ abstract_run q' ops

module _ (k : States) where
  step : SmartBuffer → Op → SmartBuffer × Reply
  step s (writes x) = let (s', r) = write k s x in (s', wrote r)
  step s pops = let (s', r) = pop k s in (s', popped r)
  step s seals = (set_state k s k.read_only, done)
  step s resets = (reset k s, done)

  pub run : SmartBuffer → List Op → List Reply
  unfolding step
  run s [] = []
  run s (o ∷ ops) = let (s', r) = step s o in r ∷ run s' ops

  -- The state word of a buffer that takes writes, or not.
  abbrev pub state_of : Bool → ℤ
  state_of true = k.write_only
  state_of false = k.read_only

  pub record Refines (cap_ n : ℕ) (s : SmartBuffer) (q : Queue) : Type 0 where
    pub holds : Holds cap_ s n q.items
    pub mode : s.state ≡ state_of q.open_

-- A step of the buffer answers as the queue does, and leaves the buffer holding the queue.
abbrev Agrees : States → ℕ → ℕ → SmartBuffer × Reply → Queue × Reply → Type 0
Agrees k c n (s', r) (q, r') = (r ≡ r') × ((m : ℕ) × (m ≤ suc n) × Refines k c m s' q)

module _ (k : States) (d : AreDistinct k) {c n : ℕ} {s : SmartBuffer} where
  writes-Agrees :
      (x : BufferItem) (items : List BufferItem) (o : Bool)
      → n + length items < half32
      → Holds c s n items
      → s.state ≡ state_of k o
      → Agrees k c n
          (step k s (writes x))
          (abstract_step c (record { items = items; open_ = o }) (writes x))
  unfolding step abstract_step
  writes-Agrees x items false bound v e =
      rw
        (
          write-push k s x (λ f. d.read_ne_closed (sym e ∙ f)),
          push-sealed k s x e,
          put-sealed c items x,
        )
        (refl, (n, omega arith, record { holds = v; mode = e }))
  writes-Agrees x items true bound v e = elim (ℕ_discrete (length items) c) [
    | yes full ↦
        rw
          (
            write-push k s x (λ f. d.open_ne_closed (sym e ∙ f)),
            push-full k v x d.open_ne_read e full,
            put-full c items x full,
          )
          (refl, (n, omega arith, record { holds = state-Holds k v k.read_only; mode = refl }))
    | no free ↦
        let (r, h, m) =
          push_refines k v x bound (λ f. d.open_ne_read (sym e ∙ f)) (omega (arith, v.fits)) in
        rw (write-push k s x (λ f. d.open_ne_closed (sym e ∙ f)), put-room c items x free)
          (ap wrote r, (n, omega arith, record { holds = h; mode = m ∙ e }))
  ]

  pops-Agrees :
      (items : List BufferItem) (o : Bool)
      → n < half32
      → Holds c s n items
      → s.state ≡ state_of k o
      → Agrees k c n (step k s pops) (abstract_step c (record { items = items; open_ = o }) pops)
  unfolding step abstract_step get
  pops-Agrees [] o bound v e =
      rw (pop-empty k v refl) (refl, (n, omega arith, record { holds = v; mode = e }))
  pops-Agrees (x ∷ xs) o bound v e =
      let (r, h, m) = pop_refines k v x xs refl bound in
      (ap popped r, (suc n, omega arith, record { holds = h; mode = m ∙ e }))

  step-Agrees :
      (o : Op) (q : Queue)
      → n + c < half32
      → Refines k c n s q
      → Agrees k c n (step k s o) (abstract_step c q o)
  unfolding step abstract_step set_state
  step-Agrees (writes x) q bound v =
      writes-Agrees x q.items q.open_ (omega (arith, v.holds.fits)) v.holds v.mode
  step-Agrees pops q bound v = pops-Agrees q.items q.open_ (omega arith) v.holds v.mode
  step-Agrees seals q bound v =
      (refl, (n, omega arith, record { holds = state-Holds k v.holds k.read_only; mode = refl }))
  step-Agrees resets q bound v =
      let (h, m) = reset-Holds k c n v.holds in
      (refl, (0, omega arith, record { holds = h; mode = m }))

-- No script of writes, pops, seals and resets tells a buffer that holds a queue from that queue:
-- each call returns what the queue returns, as long as the counter, the capacity and the length of
-- the script add up to 2^31 at most.
pub run-Refines :
    (k : States)
    → AreDistinct k
    → (c n : ℕ) (ops : List Op) {s : SmartBuffer} {q : Queue} → n + c + length ops ≤ half32
    → Refines k c n s q
    → run k s ops ≡ abstract_run c q ops
unfolding run abstract_run
run-Refines k d c n [] bound v = refl
run-Refines k d c n (o ∷ ops) bound v =
    let (r, (m, le, next)) = step-Agrees k d o _ (omega arith) v in
    ap₂ ◌∷◌ r (run-Refines k d c m ops (omega arith) next)
