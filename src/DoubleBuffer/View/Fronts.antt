-- ===== src/DoubleBuffer/View/Fronts.antt =====
-- Where the first unread item is: in the current buffer, else on the heap.
use mathlib.Core.List.{Perm}
use turbo_stream.MinHeap.{MinHeap}
use turbo_stream.MinHeap.Swaps.{Entry, entries}
use turbo_stream.SmartBuffer.Stored.{Holds}
use turbo_stream.Prelude.{
  ℕ, ◌+◌, ◌<◌, ◌≡◌, refl, subst, length-perm, arith, Option, none, some, List, [], ◌∷◌, length,
}
use turbo_stream.Prelude.Int.{half32}
use turbo_stream.SmartBuffer.{BufferItem, SmartBuffer}
use turbo_stream.DoubleBuffer.{Env, DoubleBuffer}
use turbo_stream.DoubleBuffer.View.{IsEnv, Parts, Shows, CurrentHolds, Numbered}

Numbered-nil : (c n : ℕ) (es : List Entry) → Numbered c n es [] → es ≡ []
Numbered-nil c n [] h = refl
Numbered-nil c n (e ∷ es) h = absurd h

entries-nil : (heap : MinHeap) → Perm (entries heap) [] → heap ≡ []
entries-nil [] p = refl
entries-nil (x ∷ heap) p = absurd (omega (arith, length-perm p))

module _ {T : Type 0} (env : Env T) (law : IsEnv env) {c : ℕ} {d : DoubleBuffer T} {p : Parts}
    (v : Shows env law c d p) where
  -- Where the view shows no pending buffer, the heap is empty.
  pub heaped-none : p.heaped ≡ [] → d.pending_heap ≡ []
  heaped-none e =
      let h = v.heap_holds in
      let none_left =
        Numbered-nil c h.next h.order
          (subst (λ (ls : List (List BufferItem)). Numbered c h.next h.order ls) e h.numbered) in
      entries-nil d.pending_heap (subst (Perm (entries d.pending_heap)) none_left h.same)

  -- Where items of the current buffer are left, there is one.
  pub current-some :
      (x : BufferItem) (xs : List BufferItem)
      → p.current ≡ x ∷ xs
      → (b : SmartBuffer) × (n : ℕ) × (d.current_buffer ≡ some b)
        × Holds c b n (x ∷ xs)
        × (n + length (x ∷ xs) < half32)
  current-some x xs e =
      go d.current_buffer refl (subst (CurrentHolds c d.current_buffer) e v.current_holds)
    where
      go :
          (o : Option SmartBuffer)
          → d.current_buffer ≡ o
          → CurrentHolds c o (x ∷ xs)
          → (b : SmartBuffer) × (n : ℕ) × (d.current_buffer ≡ some b)
            × Holds c b n (x ∷ xs)
            × (n + length (x ∷ xs) < half32)
      go none eo h = absurd cc
      go (some b) eo (n, h, bound) = (b, n, eo, h, bound)
