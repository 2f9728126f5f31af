-- ===== src/LifeCycle/Manager.antt =====
-- life_cycle.go: the manager of the three pools. `B` is `[]byte`; `New` of the small pool makes the
-- k-th of its arrays.
use turbo_stream.Prelude.{
  ℕ, zero, suc, ◌+◌, ◌<◌, ◌≤◌, ◌≡◌, Option, none, some, List, [], ◌∷◌, length, min,
}
use turbo_stream.Prelude.Int.{ℤ, pos, pos_part}
use turbo_stream.LifeCycle.{
  BigDataEntry, BigDataPool, new_big_data_pool, cleanup_medium, cleanup_big,
}

pub record LifeCycleManager (T B : Type 0) : Type 0 where
  pub small_pool : List B
  pub medium_pool : List (ℕ × T)
  pub big_data_pool : BigDataPool

abbrev pub new_life_cycle_manager : {T B : Type 0} → LifeCycleManager T B
new_life_cycle_manager = record {
  small_pool = [];
  medium_pool = [];
  big_data_pool = new_big_data_pool (pos 0);
}

-- `get` is how the sync.Pool chooses, and `fifth` what `int(float64(capacity) * 0.2)` is.
module _ {B : Type 0} (get : List B → Option (B × List B)) (new : ℕ → B) (fifth : ℤ → ℤ) where
  -- `SmallPool.Put(SmallPool.Get())`, with the number of arrays that were made.
  unfoldable pub put_got : List B × ℕ → List B × ℕ
  put_got (pool, made) = elim (get pool) [
    | none ↦ (new made ∷ pool, made + 1)
    | some (b, rest) ↦ (b ∷ rest, made)
  ]

  unfoldable pub preload_loop : ℕ → List B × ℕ → List B × ℕ
  unfolding put_got
  preload_loop zero s = s
  preload_loop (suc n) s = preload_loop n (put_got s)

  unfoldable pub preload : {T : Type 0} → LifeCycleManager T B → ℕ → ℤ → LifeCycleManager T B × ℕ
  unfolding preload_loop
  preload m made capacity =
      let (pool, made') = preload_loop (pos_part (fifth capacity)) (m.small_pool, made) in
      (record m { small_pool = pool }, made')

  -- The sync package: `Get` takes an item of the pool and removes it, and the pool may drop others.
  abbrev pub Removes : Type 0
  Removes =
      (pool : List B) (b : B) (rest : List B)
      → get pool ≡ some (b, rest)
      → length rest < length pool

  -- From a pool and the number of arrays that were made so far to the later ones, in n rounds.
  record Grows (n : ℕ) (s s' : List B × ℕ) : Type 0 where
    more_made : s.1 ≤ s'.1
    few_made : s'.1 ≤ s.1 + n
    few_kept : length s'.0 + s.1 ≤ length s.0 + s'.1
    some_kept : min 1 (length s.0 + n) ≤ length s'.0

-- `Cleanup`, with the orders in which its two loops visit the entries.
module _ {T B : Type 0} (since : T → T → ℤ) where
  unfoldable pub cleanup :
      LifeCycleManager T B → T → List (ℕ × T) → List (ℕ × BigDataEntry) → LifeCycleManager T B
  cleanup m now medium big = record m {
    medium_pool = cleanup_medium since m.medium_pool now medium;
    big_data_pool = cleanup_big m.big_data_pool big;
  }
