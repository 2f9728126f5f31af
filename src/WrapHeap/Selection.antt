-- ===== src/WrapHeap/Selection.antt =====
-- min_heap.go: a heap package that meets the contract of container/heap, so that the theorems about
-- the heap can be applied: `Push` appends, `Pop` moves a smallest item to the end and takes it off.
use mathlib.Core.List.{mem-cons_of_mem, not-mem-nil}
use mathlib.Core.List.Perm
use turbo_stream.Prelude.{
  ℕ, zero, suc, ◌≡◌, ◌≢◌, refl, ap, ◌∙◌, arith, true, false, Option, none, some, List, [], ◌∷◌,
  length, get_elem?, set, if◌then◌else◌, length-set, get_elem?-lt, inl, inr, Bool-cases,
}
use native.Mathlib.Nat.{le_refl}
use turbo_stream.Prelude.Int.{ℤ, pos, negsuc, ltb_ℤ, ◌≤ℤ◌}
use turbo_stream.MinHeap.{MinHeapItem, MinHeap, HeapPackage, split_last, swap}
use turbo_stream.MinHeap
use turbo_stream.MinHeap.Swaps.{Swaps, here, next, Entry, entries, Swaps-perm, pop-perm}
use turbo_stream.MinHeap.Least.{AllFrom-cons, AllFrom-IsLeast}
use turbo_stream.WrapHeap.Contract.{AllFrom, Pops, IsHeapPackage}

ltb_ℤ→le : (a b : ℤ) → ltb_ℤ a b ≡ true → a ≤ℤ b
unfolding ltb_ℤ
ltb_ℤ→le a b h = ground arith

ltb_ℤ→ge : (a b : ℤ) → ltb_ℤ a b ≡ false → b ≤ℤ a
unfolding ltb_ℤ
ltb_ℤ→ge a b h = ground arith

-- A smallest item of a heap, with its place.
abbrev least : MinHeapItem → MinHeap → ℕ × MinHeapItem
least x [] = (0, x)
least x (y ∷ ys) =
    let (k, a) = least y ys in if ltb_ℤ x.sequence a.sequence then (0, x) else (suc k, a)

abbrev pop_swapped : Option MinHeap → Option (MinHeap × MinHeapItem)
pop_swapped none = none
pop_swapped (some m) = MinHeap.pop m

abbrev select : MinHeap → Option (MinHeap × MinHeapItem)
select [] = none
select (x ∷ xs) = pop_swapped (swap (x ∷ xs) (least x xs).0 (length xs))

abbrev pub selection : HeapPackage
selection = record { heap_push = MinHeap.push; heap_pop = select }

AllFrom-le : (n k : ℤ) (es : List Entry) → n ≤ℤ k → AllFrom k es → AllFrom n es
AllFrom-le n k es h a e m = omega (arith, h, a e m)

least-AllFrom :
    (x : MinHeapItem) (xs : MinHeap)
    → (get_elem? (x ∷ xs) (least x xs).0 ≡ some (least x xs).1)
      × AllFrom (least x xs).1.sequence (entries (x ∷ xs))
least-AllFrom x [] =
    (refl, AllFrom-cons x.sequence x [] (le_refl _) (λ e m. absurd (not-mem-nil m)))
least-AllFrom x (y ∷ ys) =
    let (e, a) = least-AllFrom y ys in
    let l = (least y ys).1 in
    elim (Bool-cases (ltb_ℤ x.sequence l.sequence)) [
      | inl t ↦ rw t (
        refl,
        AllFrom-cons x.sequence x (y ∷ ys) (le_refl _) (
            AllFrom-le x.sequence l.sequence (entries (y ∷ ys)) (ltb_ℤ→le x.sequence l.sequence t)
              a),
      )
      | inr f ↦ rw f (e, AllFrom-cons l.sequence x (y ∷ ys) (ltb_ℤ→ge x.sequence l.sequence f) a)
    ]

-- The last item was just written.
split_last-set :
    (xs : MinHeap) (n : ℕ) (v : MinHeapItem)
    → length xs ≡ suc n
    → (ys : MinHeap) × (split_last (set xs n v) ≡ some (ys, v))
split_last-set [] n v h = absurd (omega arith)
split_last-set (x ∷ []) zero v h = ([], refl)
split_last-set (x ∷ []) (suc n) v h = absurd (omega arith)
split_last-set (x ∷ y ∷ xs) zero v h = absurd (omega arith)
split_last-set (x ∷ y ∷ xs) (suc n) v h =
    let (ys, e) = split_last-set (y ∷ xs) n v (omega arith) in (x ∷ ys, rw e refl)

pop-set :
    (xs : MinHeap) (n : ℕ) (v : MinHeapItem)
    → length xs ≡ suc n
    → (ys : MinHeap) × (MinHeap.pop (set xs n v) ≡ some (ys, record v { index = negsuc 0 }))
unfolding MinHeap.pop
pop-set xs n v h = let (ys, e) = split_last-set xs n v h in (ys, rw (e, MinHeap.pop))

swap-some :
    (m : MinHeap) (i j : ℕ) (a b : MinHeapItem)
    → get_elem? m i ≡ some a
    → get_elem? m j ≡ some b
    → swap m i j ≡ some (set (set m i (record b { index = pos i })) j (record a { index = pos j }))
unfolding swap
swap-some m i j a b e f = rw (e, swap, f)

select-swap :
    (x : MinHeapItem) (xs m : MinHeap)
    → swap (x ∷ xs) (least x xs).0 (length xs) ≡ some m
    → select (x ∷ xs) ≡ MinHeap.pop m
select-swap x xs m e = ap pop_swapped e

pub select-Pops : (m : MinHeap) → m ≢ [] → Unit {0} → Pops (λ m. Unit {0}) m (select m)
select-Pops [] ne t = absurd (ne refl)
select-Pops (x ∷ xs) ne t =
    let k = (least x xs).0 in
    let a = (least x xs).1 in
    let (at, from) = least-AllFrom x xs in
    let (b, last) = get_elem?-lt (x ∷ xs) (length xs) (omega arith) in
    let sw = swap-some (x ∷ xs) k (length xs) a b at last in
    let (rest, e) =
      pop-set (set (x ∷ xs) k (record b { index = pos k })) (length xs)
        (record a { index = pos (length xs) })
        (length-set (x ∷ xs) k (record b { index = pos k })) in
    let moved : MinHeap =
      set (set (x ∷ xs) k (record b { index = pos k })) (length xs)
        (record a { index = pos (length xs) }) in
    let swaps : Swaps (x ∷ xs) moved = next k (length xs) here sw in
    let item : MinHeapItem = record a { index = negsuc 0 } in
    let same = Perm.trans (Swaps-perm (x ∷ xs) moved swaps) (pop-perm moved rest item e) in
    record {
      moved = moved;
      rest = rest;
      item = item;
      swaps = swaps;
      takes = e;
      returns = select-swap x xs moved sw ∙ e;
      least =
          AllFrom-IsLeast moved rest item e
            (λ y m. from y ((Perm.mem_iff same).1 (mem-cons_of_mem _ m)));
      ordered = tt;
    }

abbrev pub selection-IsHeapPackage : IsHeapPackage selection
selection-IsHeapPackage = record {
  IsOrdered = λ m. Unit {0};
  ordered-empty = tt;
  push_swaps = λ m x. here;
  push_ordered = λ m x o. tt;
  pop_lem = select-Pops;
}
