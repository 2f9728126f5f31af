-- ===== src/DoubleBuffer/View/Order.antt =====
-- The goroutines that `switchChannel` starts draw the sequence numbers: what they give when they run
-- in another order than the switches.
use mathlib.Core.List.{Perm}
use mathlib.Core.List.Perm
use turbo_stream.Prelude.{ℕ, suc, ◌+◌, ◌<◌, ◌≡◌, refl, ◌∙◌, ap, arith, some, List, ◌∷◌, get_elem?}
use turbo_stream.Prelude.Int.{ℤ, pos, half64, add_int64, add_int64-one}
use turbo_stream.SmartBuffer.{SmartBuffer}
use turbo_stream.MinHeap.{MinHeapItem}
use turbo_stream.MinHeap.Swaps.{entries}
use turbo_stream.WrapHeap.Contract.{IsGood, push_lem}
use turbo_stream.DoubleBuffer.{Env, DoubleBuffer}
use turbo_stream.DoubleBuffer.Switch.{publish, remove_at}
use turbo_stream.DoubleBuffer.View.{IsEnv}

module _ {T : Type 0} (env : Env T) (law : IsEnv env) where
  -- What publishing the i-th buffer does to the heap and the numbers.
  record Publishes (d : DoubleBuffer T) (i n : ℕ) (b : SmartBuffer) : Type 0 where
    pub good : IsGood env.heap law.heap_law (publish env d i).pending_heap
    pub same :
        Perm (entries (publish env d i).pending_heap) ((pos (suc n), b) ∷ entries d.pending_heap)
    pub numbered : (publish env d i).sequence ≡ pos (suc n)
    pub left : (publish env d i).publishing ≡ remove_at d.publishing i

  publish-Publishes :
      (d : DoubleBuffer T) (i n : ℕ) (b : SmartBuffer)
      → IsGood env.heap law.heap_law d.pending_heap
      → get_elem? d.publishing i ≡ some b
      → d.sequence ≡ pos n
      → n + 1 < half64
      → Publishes d i n b
  unfolding publish
  publish-Publishes d i n b g e q room =
      let item : MinHeapItem = record { sequence = pos (suc n); buf = b; index = pos 0 } in
      let (good, same) = push_lem env.heap law.heap_law d.pending_heap item g in
      let next : add_int64 d.sequence (pos 1) ≡ pos (suc n) =
        ap (λ (z : ℤ). add_int64 z (pos 1)) q
        ∙ add_int64-one n room
        ∙ ap pos {x = n + 1} (omega arith) in
      record {
        good = rw (e, publish, next) good;
        same = rw (e, publish, next) same;
        numbered = rw (e, publish) next;
        left = rw (e, publish) refl;
      }

  -- Where two switched buffers wait to be published, the heap is in order, and the goroutine of the
  -- second runs before that of the first, the buffer that was switched out later gets the lower of
  -- the two new sequence numbers, as long as these stay below 2^63.
  pub publish-publish :
      (d : DoubleBuffer T) (n : ℕ) (a b : SmartBuffer) (rest : List SmartBuffer)
      → IsGood env.heap law.heap_law d.pending_heap
      → d.publishing ≡ a ∷ b ∷ rest
      → d.sequence ≡ pos n
      → n + 2 < half64
      → Perm
          (entries (publish env (publish env d 1) 0).pending_heap)
          ((pos (suc (suc n)), a) ∷ (pos (suc n), b) ∷ entries d.pending_heap)
  unfolding remove_at
  publish-publish d n a b rest g e q room =
      let first =
        publish-Publishes d 1 n b g (ap (λ (bs : List SmartBuffer). get_elem? bs 1) e) q
          (omega arith) in
      let second =
        publish-Publishes (publish env d 1) 0 (suc n) a first.good
          (ap (λ (bs : List SmartBuffer). get_elem? bs 0)
            (first.left ∙ ap (λ (bs : List SmartBuffer). remove_at bs 1) e))
          first.numbered (omega arith) in
      Perm.trans second.same (Perm.cons _ first.same)
