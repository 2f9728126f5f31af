-- ===== src/DoubleBuffer/View/Reads.antt =====
-- Reading takes the oldest unread item, from the current buffer or from the pending buffer whose
-- turn it is.
use turbo_stream.Prelude.{
  ℕ, suc, ◌+◌, ◌<◌, ◌≡◌, ◌≢◌, refl, sym, Option, ◌∙◌, ap, subst, arith, false, ◌==◌, some, List, [],
  ◌∷◌, ◌++◌, length, ◌⊎◌, inl, inr,
}
use turbo_stream.Prelude.Int.{ℤ, pos, half32, ltb_ℤ, ==ℤ_of_ne, ==ℤ_of_eq, ◌==ℤ◌}
use turbo_stream.Outside
use turbo_stream.Outside.{Result, ok, err}
use turbo_stream.SmartBuffer.{BufferItem, SmartBuffer}
use turbo_stream.SmartBuffer
use turbo_stream.SmartBuffer.Fifo.{pop_refines, pop-empty}
use turbo_stream.SmartBuffer.Stored.{Holds}
use turbo_stream.DoubleBuffer.{Env, DataChunk, DoubleBuffer}
use turbo_stream.DoubleBuffer.Memory.{memory, holds, Evolves, IsFree, IsKept}
use turbo_stream.DoubleBuffer.Write.{bytes_at}
use turbo_stream.DoubleBuffer.Read.{
  safe_chunk, safe_popped, safe_read, drop_reference, zero_copy_chunk, zero_copy_popped,
  zero_copy_read, found, by_mode, read_by_mode, read_from, read_current,
}
use turbo_stream.DoubleBuffer.View.{IsEnv, Parts, Shows}
use turbo_stream.DoubleBuffer.View.Switches.{keep_heap}
use turbo_stream.DoubleBuffer.View.Same.{Shows-IsSame}
use turbo_stream.DoubleBuffer.View.Chunks.{safe_chunk-Chunks, zero_copy-Chunks}

-- An item that a write makes: its pointer is not nil, its size is not 0.
pub record IsItem (x : BufferItem) : Type 0 where
  pub pointer : x.ptr ≢ 0
  pub bytes : ℕ
  pub sized : x.size ≡ pos (suc bytes)

module _ {T : Type 0} (env : Env T) where
  abbrev pub IsMode : Option ℤ → Type 0
  IsMode o = (o ≡ some env.safe_read) ⊎ (o ≡ some env.zero_copy_read)

  pub keep-IsMode : {o o' : Option ℤ} → o' ≡ o → IsMode o → IsMode o'
  keep-IsMode same m = subst IsMode (sym same) m

module _ {T : Type 0} (env : Env T) (d : DoubleBuffer T) (now : T) where
  -- A mode that `tryRead` knows is registered.
  abbrev pub HasMode : Type 0
  HasMode = IsMode env d.read_mode

  -- The buffer once the item was popped from it.
  abbrev holding : SmartBuffer → DoubleBuffer T
  holding b = record d { current_buffer = some b }

  module _ (b : SmartBuffer) (x : BufferItem) (i : IsItem x) where
    ne_zero : (x.size ==ℤ pos 0) ≡ false
    ne_zero = ==ℤ_of_ne x.size (pos 0) (λ e. ground (arith, i.sized))

    not_neg : ltb_ℤ x.size (pos 0) ≡ false
    unfolding ltb_ℤ
    not_neg = rw i.sized (ground arith)

    not_nil : (x.ptr == 0) ≡ false
    not_nil = ground (arith, i.pointer)

    safe_popped-item :
        safe_popped env d now (b, ok x)
        ≡ ((safe_chunk env (holding b) x now).0, ok (some (safe_chunk env (holding b) x now).1))
    unfolding safe_popped
    safe_popped-item = rw (ne_zero, not_neg, safe_popped)

    zero_copy_popped-item :
        zero_copy_popped env d (b, ok x)
        ≡ (drop_reference env (holding b) x, ok (some (zero_copy_chunk env x)))
    unfolding zero_copy_popped
    zero_copy_popped-item = rw (not_nil, not_neg, zero_copy_popped)

  module _ (b : SmartBuffer) where
    by_mode-safe :
        by_mode env d b now (some env.safe_read)
        ≡ found env (safe_popped env d now (SmartBuffer.pop env.states b))
    unfolding by_mode safe_read
    by_mode-safe = rw (==ℤ_of_eq env.safe_read env.safe_read refl)

    by_mode-zero_copy :
        env.safe_read ≢ env.zero_copy_read
        → by_mode env d b now (some env.zero_copy_read)
          ≡ found env (zero_copy_popped env d (SmartBuffer.pop env.states b))
    unfolding by_mode zero_copy_read
    by_mode-zero_copy ne = rw (
      ==ℤ_of_ne env.zero_copy_read env.safe_read (λ e. ne (sym e)),
      ==ℤ_of_eq env.zero_copy_read env.zero_copy_read refl,
    )

    read_by_mode-eq :
        (m : ℤ) → d.read_mode ≡ some m → read_by_mode env d b now ≡ by_mode env d b now (some m)
    unfolding read_by_mode
    read_by_mode-eq m e = ap (by_mode env d b now) e

    read_current-some :
        d.current_buffer ≡ some b → read_current env d now ≡ read_by_mode env d b now
    unfolding read_current read_from
    read_current-some e = ap (read_from env d now) e

module _ {T : Type 0} (env : Env T) (law : IsEnv env) where
  -- A read returned the item's bytes; what is left unread is shown by the parts.
  pub record ReadsItem (c : ℕ) (d : DoubleBuffer T) (x : BufferItem) (q : Parts)
      (r : DoubleBuffer T × Result DataChunk) : Type 0 where
    pub chunk : DataChunk
    pub succeeds : r.1 ≡ ok chunk
    pub sized : chunk.bytes.1 ≡ x.size
    pub read : bytes_at r.0.store chunk.bytes.0 ≡ bytes_at d.store x.ptr
    pub shows : Shows env law c r.0 q
    pub mode : r.0.read_mode ≡ d.read_mode
    pub sequence : r.0.sequence ≡ d.sequence
    pub evolves : (held : List ℕ) → Evolves (memory d) held (memory r.0) (holds chunk ++ held)
    pub chunk_kept :
        (held : List ℕ)
        → IsFree (memory d) held
        → IsKept (memory d) held x.ptr
        → IsKept (memory r.0) held chunk.bytes.0

  -- The item is popped from the current buffer.
  popped-Shows :
      {c : ℕ} {d : DoubleBuffer T} {p : Parts} (b b' : SmartBuffer) (n : ℕ) (xs : List BufferItem)
      → Shows env law c d p
      → Holds c b' n xs
      → n + length xs < half32
      → Shows env law c (record d { current_buffer = some b' }) (record p { current = xs })
  popped-Shows b b' n xs v h bound = record {
    open_ = v.open_;
    sized = v.sized;
    positive = v.positive;
    small = v.small;
    active_holds = v.active_holds;
    active_mode = v.active_mode;
    passive_fresh = v.passive_fresh;
    pool_fresh = v.pool_fresh;
    current_holds = (n, h, bound);
    heap_holds = keep_heap env law v.heap_holds refl refl refl;
    unpublished_hold = v.unpublished_hold;
  }

  pub read_current-ReadsItem :
      {c : ℕ} {d : DoubleBuffer T} {p : Parts} (v : Shows env law c d p) (now : T) (b : SmartBuffer)
      (x : BufferItem) (xs : List BufferItem) (n : ℕ)
      → HasMode env d now
      → IsItem x
      → d.current_buffer ≡ some b
      → Holds c b n (x ∷ xs)
      → n + length (x ∷ xs) < half32
      → ReadsItem c d x (record p { current = xs }) (read_current env d now)
  unfolding found
  read_current-ReadsItem {c} {d} {p} v now b x xs n (inl m) i e h bound =
      let (r, h', s) = pop_refines env.states h x xs refl (omega arith) in
      let b' = (SmartBuffer.pop env.states b).0 in
      let d' = holding env d now b' in
      let ch = safe_chunk-Chunks env law d' x now in
      let eq =
        read_current-some env d now b e
        ∙ read_by_mode-eq env d now b env.safe_read m
        ∙ by_mode-safe env d now b
        ∙ ap (λ (y : Result BufferItem). found env (safe_popped env d now (b', y))) r
        ∙ ap (found env) (safe_popped-item env d now b' x i) in
      subst (ReadsItem c d x (record p { current = xs })) (sym eq) (record {
        chunk = (safe_chunk env d' x now).1;
        succeeds = refl;
        sized = ch.sized;
        read = ch.read;
        shows = Shows-IsSame env law (popped-Shows b b' (suc n) xs v h' (omega arith)) ch.same;
        mode = ch.same.read_mode;
        sequence = ch.same.sequence;
        evolves = ch.evolves;
        chunk_kept = ch.chunk_kept;
      })
  read_current-ReadsItem {c} {d} {p} v now b x xs n (inr m) i e h bound =
      let (r, h', s) = pop_refines env.states h x xs refl (omega arith) in
      let b' = (SmartBuffer.pop env.states b).0 in
      let d' = holding env d now b' in
      let ch = zero_copy-Chunks env law d' x in
      let eq =
        read_current-some env d now b e
        ∙ read_by_mode-eq env d now b env.zero_copy_read m
        ∙ by_mode-zero_copy env d now b law.modes
        ∙ ap (λ (y : Result BufferItem). found env (zero_copy_popped env d (b', y))) r
        ∙ ap (found env) (zero_copy_popped-item env d now b' x i) in
      subst (ReadsItem c d x (record p { current = xs })) (sym eq) (record {
        chunk = zero_copy_chunk env x;
        succeeds = refl;
        sized = ch.sized;
        read = ch.read;
        shows = Shows-IsSame env law (popped-Shows b b' (suc n) xs v h' (omega arith)) ch.same;
        mode = ch.same.read_mode;
        sequence = ch.same.sequence;
        evolves = ch.evolves;
        chunk_kept = ch.chunk_kept;
      })

  -- A read from a buffer that is empty is ErrRead.
  pub read_current-empty :
      (d : DoubleBuffer T) (now : T) (b : SmartBuffer) {c : ℕ}
      → HasMode env d now
      → d.current_buffer ≡ some b
      → Holds c b 0 []
      → read_current env d now ≡ (holding env d now b, err Outside.read_failed)
  unfolding found safe_popped zero_copy_popped
  read_current-empty d now b (inl m) e h =
      read_current-some env d now b e
      ∙ read_by_mode-eq env d now b env.safe_read m
      ∙ by_mode-safe env d now b
      ∙ ap (λ (y : SmartBuffer × Result BufferItem). found env (safe_popped env d now y))
          (pop-empty env.states h refl)
      ∙ rw (==ℤ_of_eq (pos 0) (pos 0) refl) refl
  read_current-empty d now b (inr m) e h =
      read_current-some env d now b e
      ∙ read_by_mode-eq env d now b env.zero_copy_read m
      ∙ by_mode-zero_copy env d now b law.modes
      ∙ ap (λ (y : SmartBuffer × Result BufferItem). found env (zero_copy_popped env d y))
          (pop-empty env.states h refl)
      ∙ refl
