-- ===== src/LifeCycle.antt =====
-- life_cycle.go: the pools that keep written data alive, by size. An address is a number, a Go map
-- an association list. Each method holds its pool's lock, and so is one step. Times are the time
-- package's: `since now t` is what time.Since(t) returns at the time `now`.
pub mod Sweep
pub mod Medium
pub mod Big
pub mod Manager
mod Tests
use turbo_stream.Prelude.{
  ℕ, zero, suc, ◌+◌, ◌*◌, Bool, true, false, if◌then◌else◌, ltb, ◌==◌, Option, none, some, List, [],
  ◌∷◌, length, lookup, insert, delete,
}
use turbo_stream.Prelude.Int.{ℤ, pos, negsuc, ◌==ℤ◌, ltb_ℤ, add_int64, sub_int64}

-- time.Second, in nanoseconds.
abbrev pub second : ℕ
second = 1_000_000_000

abbrev pub medium_pool_ttl : ℤ
medium_pool_ttl = pos (120 * second)

abbrev pub minute : ℤ
minute = pos (60 * second)

abbrev pub max_clean_counts : ℕ
max_clean_counts = 200

-- The loop of both `cleanup` methods, over the entries in the order in which `range` visits them:
-- it deletes those that pass the test, and returns once its counter has passed the limit.
unfoldable pub sweep {ℓ} :
    {V : Type ℓ} → (V → Bool) → List (ℕ × V) → ℕ → List (ℕ × V) → List (ℕ × V)
sweep test [] count m = m
sweep test ((ptr, v) ∷ rest) count m = elim (test v) [
  | false ↦ sweep test rest count m
  | true ↦
      if ltb max_clean_counts (count + 1)
      then delete ptr m
      else sweep test rest (count + 1) (delete ptr m)
]

module _ {T : Type 0} (since : T → T → ℤ) where
  -- The `cache` of a `MediumPool`.
  abbrev pub MediumPool : Type 0
  MediumPool = List (ℕ × T)

  unfoldable pub put_medium : MediumPool → ℕ → T → MediumPool
  put_medium m ptr t = insert ptr t m

  unfoldable pub is_valid : MediumPool → T → ℕ → Bool
  is_valid m now ptr = elim (lookup ptr m) [
    | none ↦ false
    | some t ↦ ltb_ℤ (since now t) medium_pool_ttl
  ]

  unfoldable pub release_medium : MediumPool → ℕ → MediumPool
  release_medium m ptr = delete ptr m

  abbrev pub is_old : T → T → Bool
  is_old now t = ltb_ℤ minute (since now t)

  -- `visit` is the order in which `range` visits the entries.
  unfoldable pub cleanup_medium : MediumPool → T → MediumPool → MediumPool
  cleanup_medium m now visit = if length m == 0 then m else sweep (is_old now) visit 0 m

pub record BigDataEntry : Type 0 where
  pub size : ℤ
  pub owner : ℕ
  pub ref : ℤ

pub record BigDataPool : Type 0 where
  pub pool : List (ℕ × BigDataEntry)
  pub current_size : ℤ
  pub max_size : ℤ

unfoldable pub new_big_data_pool : ℤ → BigDataPool
new_big_data_pool max_size = record { pool = []; current_size = pos 0; max_size = max_size }

abbrev pub is_unused : BigDataEntry → Bool
is_unused bd = bd.ref ==ℤ pos 0

-- `bd.owner = 0` there changes the loop's own copy of the entry.
unfoldable pub cleanup_big : BigDataPool → List (ℕ × BigDataEntry) → BigDataPool
cleanup_big b visit =
    if length b.pool == 0 then b else record b { pool = sweep is_unused visit 0 b.pool }

unfoldable pub put_big : BigDataPool → ℕ → ℤ → BigDataPool
put_big b ptr size = record b {
  current_size = add_int64 b.current_size size;
  pool = insert ptr (record { size = size; owner = ptr; ref = pos 1 }) b.pool;
}

unfoldable pub release_big : BigDataPool → ℕ → BigDataPool
release_big b ptr = elim (lookup ptr b.pool) [
  | none ↦ b
  | some e ↦ record b { pool = insert ptr (record e { ref = sub_int64 e.ref (pos 1) }) b.pool }
]

-- The finalizer that is cleared there was never set. The entry's own fields are a copy's.
unfoldable pub free_big : BigDataPool → ℕ → ℤ → BigDataPool
free_big b ptr size = elim (lookup ptr b.pool) [
  | none ↦ b
  | some e ↦ record b { current_size = sub_int64 b.current_size size; pool = delete ptr b.pool }
]
