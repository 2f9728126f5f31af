-- ===== src/LifeCycle/Sweep.antt =====
-- What one run of a `cleanup` loop deletes.
use turbo_stream.Prelude.{
  ℕ, suc, ◌+◌, ◌-◌, ◌≤◌, ◌<◌, ◌≡◌, refl, arith, min, Bool, true, false, ◌==◌, none, some, List, [],
  ◌∷◌, length, lookup, delete, IsMap, count, lookup-delete, delete-IsMap, length-delete,
}
use turbo_stream.LifeCycle.{sweep, max_clean_counts}

-- The entries that a loop has still to visit are entries of the map, no key twice.
pub record IsVisit {ℓ} {V : Type ℓ} (visit m : List (ℕ × V)) : Type ℓ where
  pub once : IsMap visit
  pub present : (k : ℕ) (v : V) → lookup k visit ≡ some v → lookup k m ≡ some v

-- A collection with an element is not empty.
pub ==-suc : (n : ℕ) → (suc n == 0) ≡ false
==-suc n = ground arith

pub sweep-nil {ℓ} :
    {V : Type ℓ} (test : V → Bool) (n : ℕ) (m : List (ℕ × V)) → sweep test [] n m ≡ m
unfolding sweep
sweep-nil test n m = refl

module _ {ℓ} {V : Type ℓ} where
  head-present :
      (k : ℕ) (v : V) (rest m : List (ℕ × V)) → IsVisit ((k, v) ∷ rest) m → lookup k m ≡ some v
  unfolding lookup
  head-present k v rest m h = h.present k v (ground arith)

  tail-IsVisit :
      (k : ℕ) (v : V) (rest m : List (ℕ × V)) → IsVisit ((k, v) ∷ rest) m → IsVisit rest m
  unfolding lookup
  tail-IsVisit k v rest m h = record {
    once = h.once.1;
    present = λ j w e. h.present j w (ground (arith, h.once.0));
  }

  tail-delete-IsVisit :
      (k : ℕ) (v : V) (rest m : List (ℕ × V))
      → IsVisit ((k, v) ∷ rest) m
      → IsVisit rest (delete k m)
  unfolding lookup
  tail-delete-IsVisit k v rest m h = record {
    once = h.once.1;
    present = λ j w e. ground (arith, lookup-delete k j m, h.once.0, h.present j w);
  }

  -- The loop deletes entries that pass the test until it has deleted one more than the limit.
  pub length-sweep :
      (test : V → Bool) (visit : List (ℕ × V)) (n : ℕ) (m : List (ℕ × V))
      → n ≤ max_clean_counts
      → IsMap m
      → IsVisit visit m
      → length (sweep test visit n m) + min (max_clean_counts + 1 - n) (count test visit) ≡ length m
  unfolding sweep
  length-sweep test [] n m le d h = omega arith
  length-sweep test ((k, v) ∷ rest) n m le d h = ground (
    arith,
    length-sweep test rest n m le d (tail-IsVisit k v rest m h),
    length-sweep test rest (n + 1) (delete k m),
    delete-IsMap k m d,
    tail-delete-IsVisit k v rest m h,
    length-delete k v m d (head-present k v rest m h),
  )

  -- It touches no entry that fails the test.
  pub lookup-sweep_keeps :
      (test : V → Bool) (visit : List (ℕ × V)) (n : ℕ) (m : List (ℕ × V)) (j : ℕ) (w : V)
      → IsVisit visit m
      → lookup j m ≡ some w
      → test w ≡ false
      → lookup j (sweep test visit n m) ≡ some w
  unfolding sweep
  lookup-sweep_keeps test [] n m j w h e f = e
  lookup-sweep_keeps test ((k, v) ∷ rest) n m j w h e f = ground (
    arith,
    lookup-sweep_keeps test rest n m j w (tail-IsVisit k v rest m h),
    lookup-sweep_keeps test rest (n + 1) (delete k m) j w (tail-delete-IsVisit k v rest m h),
    lookup-delete k j m,
    head-present k v rest m h,
  )

  -- It adds nothing.
  pub lookup-sweep-none :
      (test : V → Bool) (visit : List (ℕ × V)) (n : ℕ) (m : List (ℕ × V)) (j : ℕ)
      → lookup j m ≡ none
      → lookup j (sweep test visit n m) ≡ none
  unfolding sweep
  lookup-sweep-none test [] n m j e = e
  lookup-sweep-none test ((k, v) ∷ rest) n m j e = ground (
    arith,
    lookup-sweep-none test rest n m j e,
    lookup-sweep-none test rest (n + 1) (delete k m) j,
    lookup-delete k j m,
  )

  count-pos :
      (test : V → Bool) (m : List (ℕ × V)) (j : ℕ) (w : V)
      → lookup j m ≡ some w
      → test w ≡ true
      → 0 < count test m
  unfolding lookup
  count-pos test [] j w e f = cc
  count-pos test ((k, v) ∷ m) j w e f = ground (arith, count-pos test m j w)

  -- Where no more entries pass the test than the limit allows, all of them are deleted.
  pub lookup-sweep_deletes :
      (test : V → Bool) (visit : List (ℕ × V)) (n : ℕ) (m : List (ℕ × V)) (j : ℕ) (w : V)
      → n + count test visit ≤ max_clean_counts + 1
      → lookup j visit ≡ some w
      → test w ≡ true
      → lookup j (sweep test visit n m) ≡ none
  unfolding sweep lookup
  lookup-sweep_deletes test [] n m j w le e f = cc
  lookup-sweep_deletes test ((k, v) ∷ rest) n m j w le e f = ground (
    arith,
    lookup-sweep_deletes test rest n m j w,
    lookup-sweep_deletes test rest (n + 1) (delete k m) j w,
    lookup-sweep-none test rest (n + 1) (delete k m) j,
    lookup-delete k j m,
    count-pos test rest j w,
  )
