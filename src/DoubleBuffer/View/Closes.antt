-- ===== src/DoubleBuffer/View/Closes.antt =====
-- What `Close` leaves: an empty heap, all buffers in the pool, and a double buffer that refuses writes.
use mathlib.Core.List.{Perm, perm_middle}
use mathlib.Core.List.Perm
use turbo_stream.Prelude.{
  ℕ, zero, suc, ◌≡◌, ◌≢◌, refl, sym, ap, subst, ◌∙◌, arith, true, false, List, [], ◌∷◌, ◌++◌, map,
  length, length-perm,
}
use turbo_stream.Prelude.Int.{==ℤ_of_eq, ==ℤ_of_ne}
use turbo_stream.Outside
use turbo_stream.Outside.{ok, err}
use turbo_stream.SmartBuffer.{SmartBuffer}
use turbo_stream.MinHeap.{MinHeap}
use turbo_stream.MinHeap.Swaps.{Entry, entries}
use turbo_stream.WrapHeap.Contract.{IsGood, Picks, pick-Picks, length-entries}
use turbo_stream.DoubleBuffer.{Env, DoubleBuffer}
use turbo_stream.DoubleBuffer.Close.{drain_processor, close}
use turbo_stream.DoubleBuffer.Write.{write}
use turbo_stream.DoubleBuffer.View.{IsEnv, Parts, Shows}
use turbo_stream.DoubleBuffer.View.Append.{write-closed}

nonempty : (m : MinHeap) (n : ℕ) → length m ≡ suc n → m ≢ []
nonempty m n e z = omega (arith, e, ap length z)

no_items : (m : MinHeap) → length m ≡ 0 → m ≡ []
no_items [] e = refl
no_items (x ∷ m) e = absurd (omega (arith, e))

module _ {T : Type 0} (env : Env T) (law : IsEnv env) where
  -- The buffers of a heap.
  abbrev pub buffers : MinHeap → List SmartBuffer
  buffers m = map (λ (e : Entry). e.1) (entries m)

  -- The heap was emptied into the pool, and nothing else changed that matters.
  record IsDrained (d e : DoubleBuffer T) : Type 0 where
    empty : e.pending_heap ≡ []
    pooled : Perm e.pool (buffers d.pending_heap ++ d.pool)
    state : e.state ≡ d.state
    stopped : e.stopped ≡ d.stopped

  abbrev drained_one :
      (d : DoubleBuffer T) → Picks env.heap law.heap_law d.pending_heap → DoubleBuffer T
  drained_one d r = record d { pending_heap = r.rest; pool = r.item.buf ∷ d.pool }

  drain-one :
      (n : ℕ) (d : DoubleBuffer T) (r : Picks env.heap law.heap_law d.pending_heap)
      → drain_processor env (suc n) d ≡ drain_processor env n (drained_one d r)
  unfolding drain_processor
  drain-one n d r = rw (r.returns, drain_processor) refl

  pooled-one :
      (d : DoubleBuffer T) (r : Picks env.heap law.heap_law d.pending_heap)
      → Perm (buffers r.rest ++ r.item.buf ∷ d.pool) (buffers d.pending_heap ++ d.pool)
  pooled-one d r =
      Perm.trans (perm_middle (buffers r.rest) d.pool)
        (Perm.append_right d.pool (Perm.symm (Perm.map (λ (e : Entry). e.1) r.same)))

  drain-IsDrained :
      (n : ℕ) (d : DoubleBuffer T)
      → IsGood env.heap law.heap_law d.pending_heap
      → length d.pending_heap ≡ n
      → (e : DoubleBuffer T) × (drain_processor env n d ≡ ok e) × IsDrained d e
  unfolding drain_processor
  drain-IsDrained zero d g len = (
    d,
    refl,
    record {
      empty = no_items d.pending_heap len;
      pooled =
          subst (λ (m : MinHeap). Perm d.pool (buffers m ++ d.pool))
            (sym (no_items d.pending_heap len)) (Perm.refl _);
      state = refl;
      stopped = refl;
    },
  )
  drain-IsDrained (suc n) d g len =
      let r = pick-Picks env.heap law.heap_law d.pending_heap (nonempty d.pending_heap n len) g in
      let (e, returns, h) = drain-IsDrained n (drained_one d r) r.good (
        omega
          (arith, len, length-perm r.same, length-entries d.pending_heap, length-entries r.rest)) in
      (
        e,
        drain-one n d r ∙ returns,
        record {
          empty = h.empty;
          pooled = Perm.trans h.pooled (pooled-one d r);
          state = h.state;
          stopped = h.stopped;
        },
      )

  -- The state that `Close` sets before it drains the heap.
  abbrev closing : DoubleBuffer T → DoubleBuffer T
  closing d = record d {
    state = env.states.closed_state;
    stopped = true;
    pool = d.passive ∷ d.active ∷ d.pool;
  }

  close-closing :
      (d : DoubleBuffer T)
      → d.state ≡ env.states.writing_state
      → d.stopped ≡ false
      → close env d ≡ drain_processor env (length d.pending_heap) (closing d)
  unfolding close
  close-closing d open_ running =
      rw (==ℤ_of_eq d.state env.states.writing_state open_, running, close) refl

  close-again : (d : DoubleBuffer T) → d.state ≡ env.states.closed_state → close env d ≡ ok d
  unfolding close
  close-again d e =
      rw
        (
          ==ℤ_of_ne d.state env.states.writing_state
              (λ z. law.distinct.writing_ne_closed (sym z ∙ e)),
          close,
        )
        refl

  -- `Close` of an open double buffer that was not stopped returns: it empties the heap, puts its buffers
  -- and the active and the passive one into the pool, and sends the stop signal. From then on every write
  -- returns ErrBufferClosed and another `Close` changes nothing.
  pub close-Shows :
      {c : ℕ} {d : DoubleBuffer T} {p : Parts} (v : Shows env law c d p)
      → d.stopped ≡ false
      → (e : DoubleBuffer T) × (close env d ≡ ok e)
        × (e.pending_heap ≡ [])
        × (e.stopped ≡ true)
        × Perm e.pool (buffers d.pending_heap ++ d.passive ∷ d.active ∷ d.pool)
        × ((ptr len_ : ℕ) (now : T) → write env e ptr len_ now ≡ (e, err Outside.buffer_closed))
        × (close env e ≡ ok e)
  close-Shows {d} v running =
      let (e, returns, h) =
        drain-IsDrained (length d.pending_heap) (closing d) v.heap_holds.good refl in
      (
        e,
        close-closing d v.open_ running ∙ returns,
        h.empty,
        h.stopped,
        h.pooled,
        λ ptr len_ now. write-closed env e now ptr len_ h.state,
        close-again e h.state,
      )
