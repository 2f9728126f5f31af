-- ===== src/MinHeap.antt =====
-- min_heap.go: a heap of pending buffers ordered by sequence number. Its locked wrapper is WrapHeap.
-- container/heap is Go's: its functions are parameters, and what its documentation promises of them
-- is `IsHeapPackage`. Items are held by value: each is on one heap, and nobody else writes to it.
pub mod Swaps
pub mod Least
use turbo_stream.Prelude.{
  ℕ, suc, ◌+◌, ◌-◌, ◌<◌, ◌≡◌, Bool, Option, none, some, List, [], ◌∷◌, ◌++◌, length, get_elem?, set,
}
use turbo_stream.Prelude.Int.{ℤ, pos, negsuc, ltb_ℤ}
use turbo_stream.SmartBuffer.{SmartBuffer}

pub record MinHeapItem : Type 0 where
  pub sequence : ℤ
  pub buf : SmartBuffer
  pub index : ℤ

abbrev pub MinHeap : Type 0
MinHeap = List MinHeapItem

unfoldable pub len : MinHeap → ℕ
len m = length m

-- `none` is the panic of an index out of range.
unfoldable pub less : MinHeap → ℕ → ℕ → Option Bool
less m i j = elim (get_elem? m i) [
  | none ↦ none
  | some a ↦ elim (get_elem? m j) [ none ↦ none | some b ↦ some (ltb_ℤ a.sequence b.sequence) ]
]

unfoldable pub swap : MinHeap → ℕ → ℕ → Option MinHeap
swap m i j = elim (get_elem? m i) [
  | none ↦ none
  | some a ↦ elim (get_elem? m j) [
    | none ↦ none
    | some b ↦ some (set (set m i (record b { index = pos i })) j (record a { index = pos j }))
  ]
]

unfoldable pub push : MinHeap → MinHeapItem → MinHeap
push m item = m ++ record item { index = pos (length m) } ∷ []

-- The last item, with what stands before it.
abbrev pub split_last : MinHeap → Option (MinHeap × MinHeapItem)
split_last [] = none
split_last (x ∷ xs) = elim (split_last xs) [ none ↦ some ([], x) | some (ys, y) ↦ some (x ∷ ys, y) ]

unfoldable pub pop : MinHeap → Option (MinHeap × MinHeapItem)
pop m = elim (split_last m) [
  | none ↦ none
  | some (rest, item) ↦ some (rest, record item { index = negsuc 0 })
]

-- heap.Push and heap.Pop at the methods above. heap.Pop of an empty heap panics.
pub record HeapPackage : Type 0 where
  pub heap_push : MinHeap → MinHeapItem → MinHeap
  pub heap_pop : MinHeap → Option (MinHeap × MinHeapItem)
