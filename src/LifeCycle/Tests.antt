-- ===== src/LifeCycle/Tests.antt =====
-- life_cycle.go: small pools. The clock counts nanoseconds.
use turbo_stream.Prelude.{
  ℕ, ◌+◌, ◌*◌, ◌≡◌, refl, arith, min, true, false, Option, none, some, ◌/◌, List, [], ◌∷◌, length,
  lookup, insert, IsMap, count,
}
use turbo_stream.Prelude.Int.{ℤ, pos, pos_part, sub_ℕ, ltb_ℤ, sub_int64, ◌==ℤ◌}
use turbo_stream.LifeCycle.{
  second, BigDataEntry, BigDataPool, put_medium, is_valid, cleanup_medium, is_old, is_unused,
  put_big, release_big, free_big, cleanup_big,
}
use turbo_stream.LifeCycle.Manager.{LifeCycleManager, new_life_cycle_manager, preload}
use turbo_stream.LifeCycle.Sweep.{IsVisit}
use turbo_stream.LifeCycle.Medium.{cleanup_medium_lem, is_valid-put, cleanup_deletes_valid}
use turbo_stream.LifeCycle.Big.{
  IsAccounted, put_big-IsAccounted, free_big-put_big, cleanup_big_lem, cleanup_big_leaks,
}

abbrev since : ℕ → ℕ → ℤ
since now t = sub_ℕ now t

-- At 100 seconds the object at 1 is 90 seconds old, the one at 2 is 10 seconds old.
abbrev now : ℕ
now = 100 * second

abbrev two : List (ℕ × ℕ)
two = (1, 10 * second) ∷ (2, 90 * second) ∷ []

two-IsMap : IsMap two
unfolding lookup
two-IsMap = (refl, (refl, tt))

two-IsVisit : IsVisit two two
two-IsVisit = record { once = two-IsMap; present = λ k v e. e }

cleanup_medium_lem_example :
    (length (cleanup_medium since two now two) + min 201 (count (is_old since now) two) ≡ 2)
    × ((ptr : ℕ) (t : ℕ)
        → lookup ptr two ≡ some t
        → is_old since now t ≡ false
        → lookup ptr (cleanup_medium since two now two) ≡ some t)
cleanup_medium_lem_example = cleanup_medium_lem since two two now two-IsMap two-IsVisit refl

is_valid-put_example : is_valid since (put_medium since two 3 now) (150 * second) 3 ≡ true
unfolding ltb_ℤ
is_valid-put_example = is_valid-put since two 3 now (150 * second)

cleanup_deletes_valid_example :
    (is_valid since two now 1 ≡ true)
    × (is_valid since (cleanup_medium since two now two) now 1 ≡ false)
unfolding lookup ltb_ℤ
cleanup_deletes_valid_example =
    cleanup_deletes_valid since two two 1 (10 * second) now two-IsVisit refl refl (omega arith) refl
      refl

-- One object of 40,000 bytes.
abbrev one : BigDataPool
one = record {
  pool = (7, record { size = pos 40_000; owner = 7; ref = pos 1 }) ∷ [];
  current_size = pos 40_000;
  max_size = pos 1_000_000;
}

one-IsAccounted : IsAccounted one
unfolding lookup
one-IsAccounted = record { keys = (refl, tt); account = refl; small = omega arith }

put_big-IsAccounted_example : IsAccounted (put_big one 8 (pos 50_000))
unfolding lookup
put_big-IsAccounted_example = put_big-IsAccounted one 8 50_000 one-IsAccounted refl (omega arith)

free_big-put_big_example : free_big (put_big one 8 (pos 50_000)) 8 (pos 50_000) ≡ one
unfolding lookup
free_big-put_big_example = free_big-put_big one 8 50_000 one-IsAccounted refl (omega arith)

one-IsVisit : IsVisit one.pool one.pool
unfolding lookup
one-IsVisit = record { once = (refl, tt); present = λ k v e. e }

cleanup_big_lem_example :
    (length (cleanup_big one one.pool).pool + min 201 (count is_unused one.pool) ≡ 1)
    × ((ptr : ℕ) (e : BigDataEntry)
        → lookup ptr one.pool ≡ some e
        → is_unused e ≡ false
        → lookup ptr (cleanup_big one one.pool).pool ≡ some e)
    × ((cleanup_big one one.pool).current_size ≡ pos 40_000)
cleanup_big_lem_example = cleanup_big_lem one one.pool one-IsVisit.once one-IsVisit refl

-- The pool after the object at 8 was put and released.
abbrev leaking : List (ℕ × BigDataEntry)
leaking =
    (7, record { size = pos 40_000; owner = 7; ref = pos 1 })
    ∷ (8, record { size = pos 50_000; owner = 8; ref = pos 0 })
    ∷ []

leaking-IsVisit : IsVisit leaking leaking
unfolding lookup
leaking-IsVisit = record { once = (refl, (refl, tt)); present = λ k v e. e }

cleanup_big_leaks_example :
    (lookup 8 (cleanup_big (release_big (put_big one 8 (pos 50_000)) 8) leaking).pool ≡ none)
    × ((cleanup_big (release_big (put_big one 8 (pos 50_000)) 8) leaking).current_size ≡ pos 90_000)
unfolding release_big lookup put_big insert sub_int64 ◌==ℤ◌
cleanup_big_leaks_example =
    cleanup_big_leaks one 8 50_000 leaking one-IsAccounted refl (omega arith) leaking-IsVisit refl
      (omega arith) (record { size = pos 50_000; owner = 8; ref = pos 0 }) refl

-- A pool that gives what was put last; the k-th array is the number k.
abbrev take_last : List ℕ → Option (ℕ × List ℕ)
take_last [] = none
take_last (x ∷ xs) = some (x, xs)

-- A fifth, rounded down.
abbrev fifth : ℤ → ℤ
fifth n = pos (pos_part n / 5)

abbrev preloaded : LifeCycleManager ℕ ℕ × ℕ
preloaded = preload take_last (λ k. k) fifth new_life_cycle_manager 0 (pos 100)
