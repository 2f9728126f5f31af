-- ===== src/Waiters/Signals.antt =====
-- waiters.go: whom `notify` signals. Where every waiter's channel is empty, one round is enough.
use mathlib.Core.List.{
  Perm, Mem, Nodup, Nodup-cons, mem-cons_self, mem-cons_of_mem, mem_of_ne_of_mem, not-mem-nil,
  mem-map_of_mem,
}
use mathlib.Core.List.Perm
use turbo_stream.Prelude.{
  ℕ, zero, suc, ◌-◌, ◌≤◌, ◌<◌, ◌≡◌, ◌≢◌, refl, sym, ap, ap₂, subst, ◌∙◌, arith, Bool, true, false,
  ◌==◌, ◌||◌, none, some, List, [], ◌∷◌, length, map, take, min, set, get_elem?, get_elem?-set_ne,
  lookup, lookup-delete, delete, ℕ_discrete, dec_lt, Bool-cases, Option-cases, inl, inr,
}
use turbo_stream.Prelude.Int.{pos, ltb_ℤ, leb_ℤ}
use turbo_stream.Outside.{ok}
use turbo_stream.Waiters.{
  WaiterManager, Chan, new_chan, send_batch, delete_all, min_of, max_total_waiters, notify_loop,
  ended, notify,
}
use turbo_stream.Waiters.Rounds.{IsOrder}

-- The channels with a signal in each of some.
abbrev pub fill_all : List ℕ → List Chan → List Chan
fill_all [] chans = chans
fill_all (ch ∷ rest) chans = fill_all rest (set chans ch (record { full = true; closed = false }))

-- Channels that are open and empty.
abbrev pub AreEmpty : List ℕ → List Chan → Type 0
AreEmpty chs chans = (ch : ℕ) → Mem ch chs → get_elem? chans ch ≡ some new_chan

send_new :
    (ch : ℕ) (rest : List ℕ) (remaining : ℕ) (chans : List Chan)
    → get_elem? chans ch ≡ some new_chan
    → send_batch (ch ∷ rest) remaining chans
      ≡ send_batch rest (remaining - 1) (set chans ch (record { full = true; closed = false }))
unfolding send_batch
send_new ch rest remaining chans e = rw (e, send_batch) refl

send_batch-take :
    (t : ℕ) (chs : List ℕ) (remaining : ℕ) (chans : List Chan)
    → Nodup chs
    → AreEmpty chs chans
    → send_batch (take t chs) remaining chans
      ≡ ok (remaining - length (take t chs), fill_all (take t chs) chans)
unfolding send_batch
send_batch-take zero chs remaining chans d h = ap (λ (n : ℕ). ok (n, chans)) (omega arith)
send_batch-take (suc t) [] remaining chans d h = ap (λ (n : ℕ). ok (n, chans)) (omega arith)
send_batch-take (suc t) (ch ∷ chs) remaining chans d h =
    let (fresh, rest) = Nodup-cons.0 d in
    send_new ch (take t chs) remaining chans (h ch mem-cons_self)
    ∙ send_batch-take t chs (remaining - 1) (set chans ch (record { full = true; closed = false }))
        rest
        (λ c m.
          get_elem?-set_ne chans ch c _ (λ e. fresh (subst (λ (x : ℕ). Mem x chs) (sym e) m))
          ∙ h c (mem-cons_of_mem _ m))
    ∙ ap
        (λ (n : ℕ).
          ok (n, fill_all (take t chs) (set chans ch (record { full = true; closed = false }))))
        (omega arith)

module _ {ℓ} {A B : Type ℓ} where
  map-take : (f : A → B) (t : ℕ) (l : List A) → map f (take t l) ≡ take t (map f l)
  map-take f zero l = refl
  map-take f (suc t) [] = refl
  map-take f (suc t) (x ∷ l) = ap (λ (r : List B). f x ∷ r) (map-take f t l)

  length-map : (f : A → B) (l : List A) → length (map f l) ≡ length l
  length-map f [] = refl
  length-map f (x ∷ l) = ap suc (length-map f l)

take_all {ℓ} : {A : Type ℓ} (t : ℕ) (l : List A) → length (take t l) < t → take t l ≡ l
take_all zero l h = absurd (omega (arith, h))
take_all (suc t) [] h = refl
take_all (suc t) (x ∷ l) h = ap (λ r. x ∷ r) (take_all t l (omega arith))

some-ne_none : {x : ℕ} → none ≢ some x
some-ne_none e = grind (arith, e)

lookup-delete_all-none :
    (k : ℕ) (ks : List ℕ) (ws : List (ℕ × ℕ))
    → lookup k ws ≡ none
    → lookup k (delete_all ks ws) ≡ none
unfolding delete_all
lookup-delete_all-none k [] ws e = e
lookup-delete_all-none k (i ∷ ks) ws e =
    lookup-delete_all-none k ks (delete i ws) (ground (arith, lookup-delete i k ws, e))

lookup-delete_all :
    (k : ℕ) (ks : List ℕ) (ws : List (ℕ × ℕ)) → Mem k ks → lookup k (delete_all ks ws) ≡ none
unfolding delete_all
lookup-delete_all k [] ws m = absurd (not-mem-nil m)
lookup-delete_all k (i ∷ ks) ws m = elim (ℕ_discrete i k) [
  | yes e ↦ lookup-delete_all-none k ks (delete i ws) (ground (arith, lookup-delete i k ws, e))
  | no ne ↦ lookup-delete_all k ks (delete i ws) (mem_of_ne_of_mem (λ e. ne (sym e)) m)
]

lookup-Mem : (k v : ℕ) (ws : List (ℕ × ℕ)) → lookup k ws ≡ some v → Mem (k, v) ws
unfolding lookup
lookup-Mem k v [] e = absurd (cc)
lookup-Mem k v ((j, w) ∷ ws) e = elim (ℕ_discrete j k) [
  | yes same ↦
      subst (λ (x : ℕ × ℕ). Mem x ((j, w) ∷ ws))
        (ap₂ (λ (a b : ℕ). (a, b)) same (ground (arith, e, same))) mem-cons_self
  | no ne ↦ mem-cons_of_mem _ (lookup-Mem k v ws (ground (arith, e, ne)))
]

lookup-first : (k v : ℕ) (ws : List (ℕ × ℕ)) → lookup k ((k, v) ∷ ws) ≡ some v
unfolding lookup
lookup-first k v ws = ground arith

-- Nothing is left once every waiter of the map was deleted.
all_deleted :
    (l ws left : List (ℕ × ℕ))
    → Perm l ws
    → delete_all (map (λ (e : ℕ × ℕ). e.0) l) ws ≡ left
    → left ≡ []
all_deleted l ws [] p e = refl
all_deleted l ws ((k, v) ∷ left) p e =
    let found = ap (lookup k) e ∙ lookup-first k v left in
    elim (Option-cases (lookup k ws)) [
      | inl n ↦
          absurd (
            some-ne_none (sym (lookup-delete_all-none k (map (λ (x : ℕ × ℕ). x.0) l) ws n) ∙ found))
      | inr (w, n) ↦ absurd (
          some-ne_none (
            sym (
              lookup-delete_all k (map (λ (x : ℕ × ℕ). x.0) l) ws
                (mem-map_of_mem (λ (x : ℕ × ℕ). x.0) ((Perm.mem_iff p).1 (lookup-Mem k w ws n))))
            ∙ found))
    ]

min_of-min : (n : ℕ) → min_of (pos 64) (pos n ∷ pos 1024 ∷ []) ≡ pos (min 64 n)
unfolding min_of ltb_ℤ
min_of-min n = elim (dec_lt n 64) [ yes h ↦ ground arith | no h ↦ ground arith ]

ne_nil-nonzero : (l : List (ℕ × ℕ)) → l ≢ [] → (length l == 0) ≡ false
ne_nil-nonzero [] h = absurd (h refl)
ne_nil-nonzero (x ∷ l) h = ground arith

some_length : (l : List (ℕ × ℕ)) → l ≢ [] → (n : ℕ) × (length l ≡ suc n)
some_length [] h = absurd (h refl)
some_length (x ∷ l) h = (length l, refl)

positive_min : (n : ℕ) → 0 < n → leb_ℤ (pos (min 64 n)) (pos 0) ≡ false
unfolding leb_ℤ
positive_min n h = ground arith

nonzero-ne_nil : (l : List (ℕ × ℕ)) → (length l == 0) ≡ false → l ≢ []
nonzero-ne_nil l h e = grind (arith, h, ap length e)

-- The channels of the waiters differ, are open and are empty.
pub record IsWaiting (w : WaiterManager) : Type 0 where
  pub differ : Nodup (map (λ (e : ℕ × ℕ). e.1) w.ws)
  pub empty : AreEmpty (map (λ (e : ℕ × ℕ). e.1) w.ws) w.chans
  pub open_ : w.closed ≡ false

module _ (iter : List (ℕ × ℕ) → List (ℕ × ℕ)) where
  -- The waiters that a notification of `t` reaches.
  abbrev pub reached : ℕ → WaiterManager → List (ℕ × ℕ)
  reached t w = take t (iter w.ws)

  -- The manager once these are gone and their channels signalled.
  abbrev pub signalled : ℕ → WaiterManager → WaiterManager
  signalled t w = record w {
    ws = delete_all (map (λ (e : ℕ × ℕ). e.0) (reached t w)) w.ws;
    chans = fill_all (map (λ (e : ℕ × ℕ). e.1) (reached t w)) w.chans;
  }

module _ (iter : List (ℕ × ℕ) → List (ℕ × ℕ)) (order : IsOrder iter) where
  none_left :
      (t : ℕ) (w : WaiterManager) → length (reached iter t w) < t → (signalled iter t w).ws ≡ []
  none_left t w few =
      ap (λ (l : List (ℕ × ℕ)). delete_all (map (λ (e : ℕ × ℕ). e.0) l) w.ws)
        (take_all t (iter w.ws) few)
      ∙ all_deleted (iter w.ws) w.ws _ (order w.ws) refl

  left_none :
      (t : ℕ) (w : WaiterManager)
      → (length (signalled iter t w).ws == 0) ≡ false
      → t - length (map (λ (e : ℕ × ℕ). e.1) (reached iter t w)) ≡ 0
  left_none t w h = elim (dec_lt (length (reached iter t w)) t) [
    | yes few ↦ absurd (nonzero-ne_nil (signalled iter t w).ws h (none_left t w few))
    | no many ↦ omega (arith, many, length-map (λ (e : ℕ × ℕ). e.1) (reached iter t w))
  ]

  loop-done :
      (f : ℕ) (deleted : List ℕ) (w : WaiterManager) → notify_loop f iter 0 deleted w ≡ some (ok w)
  unfolding notify_loop
  loop-done zero deleted w = refl
  loop-done (suc f) deleted w = refl

  reached-sent :
      (t : ℕ) (w : WaiterManager)
      → IsWaiting w
      → send_batch (map (λ (e : ℕ × ℕ). e.1) (reached iter t w)) t w.chans
        ≡ ok (t - length (map (λ (e : ℕ × ℕ). e.1) (reached iter t w)), (signalled iter t w).chans)
  reached-sent t w h =
      let same = Perm.map (λ (e : ℕ × ℕ). e.1) (order w.ws) in
      subst (λ (chs : List ℕ). send_batch chs t w.chans ≡ ok (t - length chs, fill_all chs w.chans))
        (sym (map-take (λ (e : ℕ × ℕ). e.1) t (iter w.ws)))
        (send_batch-take t (map (λ (e : ℕ × ℕ). e.1) (iter w.ws)) t w.chans
          (Perm.nodup (Perm.symm same) h.differ) (λ ch m. h.empty ch ((Perm.mem_iff same).0 m)))

  loop-signalled :
      (f t : ℕ) (w : WaiterManager)
      → 0 < t
      → t ≤ 64
      → IsWaiting w
      → notify_loop (suc f) iter t [] w ≡ some (ok (signalled iter t w))
  unfolding notify_loop
  loop-signalled f t w pos_t small h =
      let not_zero : (t == 0) ≡ false = ground arith in
      let one_batch : min max_total_waiters t ≡ t = omega arith in
      elim (Bool-cases (length (signalled iter t w).ws == 0)) [
        | inl z ↦
            rw (not_zero, one_batch, reached-sent t w h, one_batch, z, notify_loop, one_batch) refl
        | inr z ↦
            rw
              (
                not_zero,
                one_batch,
                reached-sent t w h,
                one_batch,
                z,
                left_none t w z,
                notify_loop,
                one_batch,
              )
              (loop-done f _ (signalled iter t w))
      ]

  -- Where somebody waits, each waiter's channel is open, empty and its own, and n bytes of data came,
  -- `notify` returns; it has signalled the first min(64, n) waiters that `range` visits, or all that
  -- there are, and removed them and no other.
  pub notify-IsWaiting :
      (w : WaiterManager) (n : ℕ)
      → IsWaiting w
      → w.ws ≢ []
      → 0 < n
      → notify iter w (pos n) ≡ ok (signalled iter (min 64 n) w)
  unfolding notify
  notify-IsWaiting w n h ne some_data =
      let positive : leb_ℤ (pos (min 64 n)) (pos 0) ≡ false = positive_min n some_data in
      let waits : (length w.ws == 0) ≡ false = ne_nil-nonzero w.ws ne in
      let (rounds, some_rounds) = some_length w.ws ne in
      let slow : (length w.ws == 0 || w.closed) ≡ false =
        ap₂ (λ (a b : Bool). a || b) waits h.open_ in
      rw (slow, min_of-min n, positive, notify)
        (ap ended (
          ap (λ (k : ℕ). notify_loop k iter (min 64 n) [] w) some_rounds
          ∙ loop-signalled rounds (min 64 n) w (omega arith) (omega arith) h))
