-- ===== src/MinHeap/Swaps.antt =====
-- What any sequence of calls of `Swap` keeps: the items, and that each knows its place.
use mathlib.Core.List.{Perm, perm_append_singleton}
use mathlib.Core.List.Perm
use native.Mathlib.Nat.{add-zero}
use turbo_stream.Prelude.{
  ℕ, zero, suc, ◌+◌, ◌≡◌, refl, sym, ap, subst, ◌∙◌, arith, some, List, [], ◌∷◌, ◌++◌, map, length,
  get_elem?, set, Option-cases, inl, inr, ◌⊎◌, map-append,
}
use turbo_stream.Prelude.Int.{ℤ, pos, negsuc}
use turbo_stream.SmartBuffer.{SmartBuffer}
use turbo_stream.MinHeap.{MinHeapItem, MinHeap, swap, push, pop, split_last}

-- One heap is reached from another by calls of `Swap` at indices in range.
pub data Swaps (m : MinHeap) : MinHeap → Type 0 where
  here : Swaps m m
  next : {a b : MinHeap} (i j : ℕ) → Swaps m a → swap a i j ≡ some b → Swaps m b

-- Every item from place n on holds its own place as its index.
abbrev pub Indexed : ℕ → MinHeap → Type 0
Indexed n [] = Unit {0}
Indexed n (x ∷ xs) = (x.index ≡ pos n) × Indexed (suc n) xs

abbrev pub Entry : Type 0
Entry = ℤ × SmartBuffer

abbrev pub entry : MinHeapItem → Entry
entry x = (x.sequence, x.buf)

-- What a heap holds, its order and the indices aside.
abbrev pub entries : MinHeap → List Entry
entries = map entry

module _ {ℓ} {A : Type ℓ} where
  perm_replace :
      (xs : List A) (j : ℕ) (x y : A) → get_elem? xs j ≡ some y → Perm (x ∷ xs) (y ∷ set xs j x)
  perm_replace [] j x y h = cc
  perm_replace (z ∷ zs) zero x y h =
      subst (λ (w : A). Perm (x ∷ z ∷ zs) (w ∷ x ∷ zs)) (cc) (Perm.swap z x zs)
  perm_replace (z ∷ zs) (suc j) x y h =
      Perm.trans (Perm.swap z x zs)
        (Perm.trans (Perm.cons z (perm_replace zs j x y h)) (Perm.swap y z (set zs j x)))

  -- Exchanging two elements is a permutation.
  pub perm_exchange :
      (xs : List A) (i j : ℕ) (a b : A)
      → get_elem? xs i ≡ some a
      → get_elem? xs j ≡ some b
      → Perm xs (set (set xs i b) j a)
  perm_exchange [] i j a b p q = cc
  perm_exchange (x ∷ xs) zero zero a b p q =
      subst (λ (w : A). Perm (x ∷ xs) (w ∷ xs)) (cc) (Perm.refl (x ∷ xs))
  perm_exchange (x ∷ xs) zero (suc j) a b p q =
      subst (λ (w : A). Perm (x ∷ xs) (b ∷ set xs j w)) (cc) (perm_replace xs j x b q)
  perm_exchange (x ∷ xs) (suc i) zero a b p q =
      subst (λ (w : A). Perm (x ∷ xs) (a ∷ set xs i w)) (cc) (perm_replace xs i x a p)
  perm_exchange (x ∷ xs) (suc i) (suc j) a b p q = Perm.cons x (perm_exchange xs i j a b p q)

map-set :
    (m : MinHeap) (i : ℕ) (v : MinHeapItem) → entries (set m i v) ≡ set (entries m) i (entry v)
map-set [] i v = refl
map-set (x ∷ xs) zero v = refl
map-set (x ∷ xs) (suc i) v = ap (◌∷◌ (entry x)) (map-set xs i v)

get_elem?-entries :
    (m : MinHeap) (i : ℕ) (a : MinHeapItem)
    → get_elem? m i ≡ some a
    → get_elem? (entries m) i ≡ some (entry a)
get_elem?-entries [] i a h = cc
get_elem?-entries (x ∷ xs) zero a h = cc
get_elem?-entries (x ∷ xs) (suc i) a h = get_elem?-entries xs i a h

set-Indexed :
    (n : ℕ) (m : MinHeap) (i : ℕ) (v : MinHeapItem)
    → v.index ≡ pos (n + i)
    → Indexed n m
    → Indexed n (set m i v)
set-Indexed n [] i v e h = tt
set-Indexed n (x ∷ xs) zero v e h = (rw add-zero at e, h.1)
set-Indexed n (x ∷ xs) (suc i) v e h =
    (h.0, set-Indexed (suc n) xs i v (e ∙ ap pos {x = n + suc i} (omega arith)) h.1)

-- A call of `Swap` that does not panic exchanges two items and gives each its new place.
swap-cases :
    (m m' : MinHeap) (i j : ℕ)
    → swap m i j ≡ some m'
    → (a : MinHeapItem) × (b : MinHeapItem) × (get_elem? m i ≡ some a)
      × (get_elem? m j ≡ some b)
      × (m' ≡ set (set m i (record b { index = pos i })) j (record a { index = pos j }))
unfolding swap
swap-cases m m' i j e = elim (Option-cases (get_elem? m i)) [
  | inl no_a ↦ absurd (ground arith)
  | inr (a, ha) ↦ elim (Option-cases (get_elem? m j)) [
    | inl no_b ↦ absurd (ground arith)
    | inr (b, hb) ↦ (a, b, ha, hb, ground arith)
  ]
]

swap-Indexed : (m m' : MinHeap) (i j : ℕ) → swap m i j ≡ some m' → Indexed 0 m → Indexed 0 m'
swap-Indexed m m' i j e h =
    let (a, b, ha, hb, eq) = swap-cases m m' i j e in
    subst (Indexed 0) (sym eq) (
      set-Indexed 0 _ j _ (ap pos {x = j} (omega arith))
        (set-Indexed 0 m i _ (ap pos {x = i} (omega arith)) h))

swap-perm : (m m' : MinHeap) (i j : ℕ) → swap m i j ≡ some m' → Perm (entries m) (entries m')
swap-perm m m' i j e =
    let (a, b, ha, hb, eq) = swap-cases m m' i j e in
    rw (eq, map-set, map-set)
      (perm_exchange (entries m) i j (entry a) (entry b) (get_elem?-entries m i a ha)
        (get_elem?-entries m j b hb))

pub Swaps-Indexed : (m m' : MinHeap) → Swaps m m' → Indexed 0 m → Indexed 0 m'
Swaps-Indexed m m' here h = h
Swaps-Indexed m m' (next {a = a} i j s e) h = swap-Indexed a m' i j e (Swaps-Indexed m a s h)

pub Swaps-perm : (m m' : MinHeap) → Swaps m m' → Perm (entries m) (entries m')
Swaps-perm m m' here = Perm.refl _
Swaps-perm m m' (next {a = a} i j s e) = Perm.trans (Swaps-perm m a s) (swap-perm a m' i j e)

-- `Push` puts the item at the end, under its place.
Indexed-append :
    (n : ℕ) (m : MinHeap) (x : MinHeapItem)
    → x.index ≡ pos (n + length m)
    → Indexed n m
    → Indexed n (m ++ x ∷ [])
Indexed-append n [] x e h = (rw add-zero at e, tt)
Indexed-append n (y ∷ ys) x e h =
    (h.0, Indexed-append (suc n) ys x (e ∙ ap pos {x = n + suc (length ys)} (omega arith)) h.1)

pub push-Indexed : (m : MinHeap) (x : MinHeapItem) → Indexed 0 m → Indexed 0 (push m x)
unfolding push
push-Indexed m x h = Indexed-append 0 m _ (ap pos {x = length m} (omega arith)) h

pub entries-push : (m : MinHeap) (x : MinHeapItem) → entries (push m x) ≡ entries m ++ entry x ∷ []
unfolding push
entries-push m x = map-append entry m _

split_last-append : (m : MinHeap) (x : MinHeapItem) → split_last (m ++ x ∷ []) ≡ some (m, x)
split_last-append [] x = refl
split_last-append (y ∷ ys) x = ground (arith, split_last-append ys x)

append-cases : (m : MinHeap) → (m ≡ []) ⊎ ((r : MinHeap) × (x : MinHeapItem) × (m ≡ r ++ x ∷ []))
append-cases [] = inl refl
append-cases (y ∷ ys) = elim (append-cases ys) [
  | inl e ↦ inr ([], y, ap (◌∷◌ y) e)
  | inr (r, x, e) ↦ inr (y ∷ r, x, ap (◌∷◌ y) e)
]

-- `Pop` takes the last item off and marks it as being on no heap.
pub pop-cases :
    (m rest : MinHeap) (x : MinHeapItem)
    → pop m ≡ some (rest, x)
    → (y : MinHeapItem) × (m ≡ rest ++ y ∷ []) × (x ≡ record y { index = negsuc 0 })
unfolding pop
pop-cases m rest x e = elim (append-cases m) [
  | inl n ↦ absurd (ground (arith, ap split_last n))
  | inr (r, y, h) ↦ (
    y,
    ground (arith, ap split_last h, split_last-append r y),
    ground (arith, ap split_last h, split_last-append r y),
  )
]

Indexed-init : (n : ℕ) (m : MinHeap) (x : MinHeapItem) → Indexed n (m ++ x ∷ []) → Indexed n m
Indexed-init n [] x h = tt
Indexed-init n (y ∷ ys) x h = (h.0, Indexed-init (suc n) ys x h.1)

pub pop-Indexed :
    (m rest : MinHeap) (x : MinHeapItem)
    → pop m ≡ some (rest, x)
    → Indexed 0 m
    → Indexed 0 rest × (x.index ≡ negsuc 0)
pop-Indexed m rest x e h =
    let (y, eq, ex) = pop-cases m rest x e in
    (Indexed-init 0 rest y (rw eq at h), ap (λ (z : MinHeapItem). z.index) ex)

pub pop-perm :
    (m rest : MinHeap) (x : MinHeapItem)
    → pop m ≡ some (rest, x)
    → Perm (entries m) (entry x ∷ entries rest)
pop-perm m rest x e =
    let (y, eq, ex) = pop-cases m rest x e in
    rw (eq, ex, map-append entry rest (y ∷ [])) (perm_append_singleton (entry y) (entries rest))
