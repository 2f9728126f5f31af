-- ===== src/WrapHeap.antt =====
-- min_heap.go: the locked wrapper of the heap. A lock held for the whole call makes the call one
-- step, so the wrapper is the heap.
pub mod Contract
pub mod Selection
mod Tests
use turbo_stream.Prelude.{Option, none, some, [], ◌∷◌}
use turbo_stream.Outside.{Result, ok, panic}
use turbo_stream.MinHeap.{MinHeapItem, MinHeap, HeapPackage}
use turbo_stream.MinHeap

-- `NewWrapHeap`: the call of heap.Init there is on another, empty heap.
abbrev pub new_wrap_heap : MinHeap
new_wrap_heap = []

module _ (h : HeapPackage) where
  unfoldable pub push : MinHeap → MinHeapItem → MinHeap
  push m item = h.heap_push m item

  -- `nil` is `none`.
  unfoldable pub pick : MinHeap → Result (MinHeap × Option MinHeapItem)
  pick [] = ok ([], none)
  pick (x ∷ xs) = elim (h.heap_pop (x ∷ xs)) [
    | none ↦ panic
    | some (rest, item) ↦ ok (rest, some item)
  ]

-- An empty heap has no element 0.
unfoldable pub peek_first : MinHeap → Result MinHeapItem
peek_first [] = panic
peek_first (x ∷ xs) = ok x
