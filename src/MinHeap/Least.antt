-- ===== src/MinHeap/Least.antt =====
-- min_heap.go: `Less` and the sequence numbers. The last item of a heap is least for `Less` where no item
-- before it is less than it.
use mathlib.Core.List.{Mem, mem-cons, mem-cons_self, mem-cons_of_mem, not-mem-nil}
use mathlib.Core.Logic.Or
use native.Mathlib.Bridge.{le_prop}
use turbo_stream.Prelude.{
  ℕ, zero, suc, ◌<◌, ◌≡◌, refl, sym, ap, ◌∙◌, subst, arith, false, some, List, [], ◌∷◌, ◌++◌,
  length, get_elem?, get_elem?-lt,
}
use turbo_stream.Prelude.Int.{ℤ, ltb_ℤ, ◌≤ℤ◌}
use turbo_stream.MinHeap.{MinHeapItem, MinHeap, less, pop}
use turbo_stream.MinHeap.Swaps.{Entry, entry, entries, pop-cases}

-- No entry comes before the given sequence number.
abbrev pub AllFrom : ℤ → List Entry → Type 0
AllFrom n es = (e : Entry) → Mem e es → n ≤ℤ e.0

-- Of the items of a heap, the one behind `rest` is a minimum for `Less`.
abbrev pub IsLeast : MinHeap → MinHeap → Type 0
IsLeast m rest = (j : ℕ) → j < length rest → less m j (length rest) ≡ some false

get_elem?-append_lt {ℓ} :
    {A : Type ℓ} (xs : List A) (y a : A) (j : ℕ)
    → get_elem? xs j ≡ some a
    → get_elem? (xs ++ y ∷ []) j ≡ some a
get_elem?-append_lt [] y a j e = absurd cc
get_elem?-append_lt (x ∷ xs) y a zero e = e
get_elem?-append_lt (x ∷ xs) y a (suc j) e = get_elem?-append_lt xs y a j e

get_elem?-append_last {ℓ} :
    {A : Type ℓ} (xs : List A) (y : A) → get_elem? (xs ++ y ∷ []) (length xs) ≡ some y
get_elem?-append_last [] y = refl
get_elem?-append_last (x ∷ xs) y = get_elem?-append_last xs y

less-append :
    (rest : MinHeap) (y a : MinHeapItem) (j : ℕ)
    → get_elem? rest j ≡ some a
    → less (rest ++ y ∷ []) j (length rest) ≡ some (ltb_ℤ a.sequence y.sequence)
unfolding less
less-append rest y a j e =
    rw (get_elem?-append_lt rest y a j e, less, get_elem?-append_last rest y) refl

some_eq {ℓ} : {A : Type ℓ} {a b : A} → some a ≡ some b → a ≡ b
some_eq e = ground (arith, e)

ltb_ℤ-ge : (a b : ℤ) → ltb_ℤ a b ≡ false → b ≤ℤ a
unfolding ltb_ℤ
ltb_ℤ-ge a b h = ground arith

ge-ltb_ℤ : (a b : ℤ) → b ≤ℤ a → ltb_ℤ a b ≡ false
unfolding ltb_ℤ
ge-ltb_ℤ a b h = ground (arith, h)

pub AllFrom-cons :
    (n : ℤ) (x : MinHeapItem) (xs : MinHeap)
    → n ≤ℤ x.sequence
    → AllFrom n (entries xs)
    → AllFrom n (entries (x ∷ xs))
AllFrom-cons n x xs h k e m =
    Or.elim le_prop (mem-cons.0 m) (λ q. subst (λ (y : Entry). n ≤ℤ y.0) (sym q) h) (λ j. k e j)

-- By places.
places-AllFrom :
    (n : ℤ) (xs : MinHeap)
    → ((j : ℕ) (a : MinHeapItem) → get_elem? xs j ≡ some a → n ≤ℤ a.sequence)
    → AllFrom n (entries xs)
places-AllFrom n [] h e m = absurd (not-mem-nil m)
places-AllFrom n (x ∷ xs) h e m =
    AllFrom-cons n x xs (h 0 x refl) (places-AllFrom n xs (λ j a q. h (suc j) a q)) e m

AllFrom-place :
    (n : ℤ) (xs : MinHeap) (j : ℕ) (a : MinHeapItem)
    → AllFrom n (entries xs)
    → get_elem? xs j ≡ some a
    → n ≤ℤ a.sequence
AllFrom-place n [] j a h e = absurd cc
AllFrom-place n (x ∷ xs) zero a h e =
    subst (λ (y : MinHeapItem). n ≤ℤ y.sequence) {x = x} {y = a} (some_eq e)
      (h (entry x) mem-cons_self)
AllFrom-place n (x ∷ xs) (suc j) a h e = AllFrom-place n xs j a (λ y m. h y (mem-cons_of_mem _ m)) e

place-lt {ℓ} : {A : Type ℓ} (xs : List A) (j : ℕ) (a : A) → get_elem? xs j ≡ some a → j < length xs
place-lt [] j a e = absurd cc
place-lt (x ∷ xs) zero a e = omega arith
place-lt (x ∷ xs) (suc j) a e = omega (arith, place-lt xs j a e)

-- Where `Pop` takes an item off that is least for `Less`, no item that is left has a smaller sequence
-- number.
pub IsLeast-AllFrom :
    (m rest : MinHeap) (item : MinHeapItem)
    → pop m ≡ some (rest, item)
    → IsLeast m rest
    → AllFrom item.sequence (entries rest)
IsLeast-AllFrom m rest item e least =
    let (y, whole, off) = pop-cases m rest item e in
    subst (λ (x : MinHeapItem). AllFrom x.sequence (entries rest)) {x = _} {y = item} (sym off)
      (places-AllFrom y.sequence rest (λ j a at. ltb_ℤ-ge a.sequence y.sequence (
        some_eq (
          sym (less-append rest y a j at)
          ∙ ap (λ (h : MinHeap). less h j (length rest)) (sym whole)
          ∙ least j (place-lt rest j a at)))))

-- And the other way round.
pub AllFrom-IsLeast :
    (m rest : MinHeap) (item : MinHeapItem)
    → pop m ≡ some (rest, item)
    → AllFrom item.sequence (entries rest)
    → IsLeast m rest
AllFrom-IsLeast m rest item e from j h =
    let (y, whole, off) = pop-cases m rest item e in
    let (a, at) = get_elem?-lt rest j h in
    ap (λ (x : MinHeap). less x j (length rest)) whole
    ∙ less-append rest y a j at
    ∙ ap some (
        ge-ltb_ℤ a.sequence y.sequence (
          subst (λ (x : MinHeapItem). x.sequence ≤ℤ a.sequence) {x = item} off
            (AllFrom-place item.sequence rest j a from at)))
