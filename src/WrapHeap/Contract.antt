-- ===== src/WrapHeap/Contract.antt =====
-- The wrapped heap is a priority queue of buffers, given what container/heap documents.
use mathlib.Core.List.{Perm, perm_append_singleton}
use mathlib.Core.List.Perm
use turbo_stream.Prelude.{
  ℕ, zero, suc, ◌≡◌, ◌≢◌, refl, sym, ap, subst, arith, Option, some, List, [], ◌∷◌, length,
  length-perm,
}
use turbo_stream.Prelude.Int.{negsuc}
use turbo_stream.Outside.{ok}
use turbo_stream.MinHeap.{MinHeapItem, MinHeap, HeapPackage}
use turbo_stream.MinHeap
use turbo_stream.MinHeap.Swaps.{
  Swaps, Indexed, Entry, entry, entries, Swaps-Indexed, Swaps-perm, push-Indexed, entries-push,
  pop-Indexed, pop-perm,
}
pub use turbo_stream.MinHeap.Least.{AllFrom}
use turbo_stream.MinHeap.Least.{IsLeast, IsLeast-AllFrom}
use turbo_stream.WrapHeap.{push, pick, new_wrap_heap}

-- What heap.Pop does to a heap that is in order: calls of `Swap`, after which the last item is a minimum
-- for `Less`, then the call of `Pop` that takes it off.
pub record Pops (IsOrdered : MinHeap → Type 0) (m : MinHeap) (r : Option (MinHeap × MinHeapItem))
    : Type 0 where
  pub moved : MinHeap
  pub rest : MinHeap
  pub item : MinHeapItem
  pub swaps : Swaps m moved
  pub takes : MinHeap.pop moved ≡ some (rest, item)
  pub returns : r ≡ some (rest, item)
  pub least : IsLeast moved rest
  pub ordered : IsOrdered rest

-- The documentation of container/heap, at the methods of `MinHeap`: the package changes the heap through
-- `Swap`, `Push` and `Pop` alone and keeps the heap order, and `Pop` returns a minimum according to
-- `Less`.
pub record IsHeapPackage (h : HeapPackage) : Type 1 where
  pub IsOrdered : MinHeap → Type 0
  pub ordered-empty : IsOrdered []
  pub push_swaps : (m : MinHeap) (x : MinHeapItem) → Swaps (MinHeap.push m x) (h.heap_push m x)
  pub push_ordered : (m : MinHeap) (x : MinHeapItem) → IsOrdered m → IsOrdered (h.heap_push m x)
  pub pop_lem : (m : MinHeap) → m ≢ [] → IsOrdered m → Pops IsOrdered m (h.heap_pop m)

module _ (h : HeapPackage) (p : IsHeapPackage h) where
  -- A heap in order whose items know their places.
  pub record IsGood (m : MinHeap) : Type 0 where
    pub ordered : p.IsOrdered m
    pub indexed : Indexed 0 m

  pub empty-IsGood : IsGood new_wrap_heap
  empty-IsGood = record { ordered = p.ordered-empty; indexed = tt }

  -- `Push` onto a heap in order whose items know their places adds the item and nothing else, and
  -- keeps the order and the places.
  pub push_lem :
      (m : MinHeap) (x : MinHeapItem)
      → IsGood m
      → IsGood (push h m x) × Perm (entries (push h m x)) (entry x ∷ entries m)
  unfolding push
  push_lem m x g = (
    record {
      ordered = p.push_ordered m x g.ordered;
      indexed =
          Swaps-Indexed (MinHeap.push m x) (h.heap_push m x) (p.push_swaps m x)
            (push-Indexed m x g.indexed);
    },
    Perm.trans (Perm.symm (Swaps-perm (MinHeap.push m x) (h.heap_push m x) (p.push_swaps m x)))
        (rw entries-push (perm_append_singleton (entry x) (entries m))),
  )

  -- What `Pick` returns of a heap that is not empty.
  pub record Picks (m : MinHeap) : Type 0 where
    pub rest : MinHeap
    pub item : MinHeapItem
    pub returns : pick h m ≡ ok (rest, some item)
    pub off : item.index ≡ negsuc 0
    pub smallest : AllFrom item.sequence (entries rest)
    pub same : Perm (entries m) (entry item ∷ entries rest)
    pub good : IsGood rest

  -- `Pick` of a heap in order that is not empty takes off an item of smallest sequence number, as long as
  -- container/heap takes off an item that is least by the code's `Less`; it marks the item as on no heap,
  -- and keeps the others, in order and each knowing its place.
  pub pick-Picks : (m : MinHeap) → m ≢ [] → IsGood m → Picks m
  unfolding pick
  pick-Picks [] ne g = absurd (ne refl)
  pick-Picks (x ∷ xs) ne g =
      let r = p.pop_lem (x ∷ xs) ne g.ordered in
      let i =
        pop-Indexed r.moved r.rest r.item r.takes
          (Swaps-Indexed (x ∷ xs) r.moved r.swaps g.indexed) in
      record {
        rest = r.rest;
        item = r.item;
        returns = rw (r.returns, pick);
        off = i.1;
        smallest = IsLeast-AllFrom r.moved r.rest r.item r.takes r.least;
        same =
            Perm.trans (Swaps-perm (x ∷ xs) r.moved r.swaps)
              (pop-perm r.moved r.rest r.item r.takes);
        good = record { ordered = r.ordered; indexed = i.0 };
      }

-- The sequence numbers and buffers that repeated calls of `Pick` hand out; a heap of n items is
-- empty after n calls.
pub drain : HeapPackage → ℕ → MinHeap → List Entry
drain h zero m = []
drain h (suc n) m = elim (pick h m) [ ok (rest, some item) ↦ entry item ∷ drain h n rest | _ ↦ [] ]

drain-suc :
    (h : HeapPackage) (n : ℕ) (m rest : MinHeap) (item : MinHeapItem)
    → pick h m ≡ ok (rest, some item)
    → drain h (suc n) m ≡ entry item ∷ drain h n rest
unfolding drain
drain-suc h n m rest item e = rw (e, drain)

pub length-entries : (m : MinHeap) → length (entries m) ≡ length m
length-entries [] = refl
length-entries (x ∷ xs) = ap suc (length-entries xs)

-- Sequence numbers that never fall.
abbrev pub Rising : List Entry → Type 0
Rising [] = Unit {0}
Rising (e ∷ es) = AllFrom e.0 es × Rising es

-- n calls of `Pick` on a heap in order of n items hand out everything that it held, smallest sequence
-- number first, as long as container/heap takes off an item that is least by the code's `Less`.
pub drain-Rising :
    (h : HeapPackage) (p : IsHeapPackage h) (m : MinHeap) (n : ℕ)
    → IsGood h p m
    → length m ≡ n
    → Rising (drain h n m) × Perm (entries m) (drain h n m)
unfolding drain
drain-Rising h p [] zero g e = (tt, Perm.nil)
drain-Rising h p (x ∷ xs) zero g e = absurd (omega arith)
drain-Rising h p [] (suc n) g e = absurd (omega arith)
drain-Rising h p (x ∷ xs) (suc n) g e =
    let r = pick-Picks h p (x ∷ xs) (λ z. absurd (cc)) g in
    let (up, same) =
      drain-Rising h p r.rest n r.good
        (omega (arith, length-perm r.same, length-entries (x ∷ xs), length-entries r.rest)) in
    subst (λ (es : List Entry). Rising es × Perm (entries (x ∷ xs)) es)
      (sym (drain-suc h n (x ∷ xs) r.rest r.item r.returns))
      ((λ e m. r.smallest e ((Perm.mem_iff same).1 m), up), Perm.trans r.same (Perm.cons _ same))
