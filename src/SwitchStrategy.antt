-- ===== src/SwitchStrategy.antt =====
-- switch_strategy.go: when the active buffer is to be switched. A time.Duration is its nanoseconds, and
-- `F` is float64 with the operations and the constants of `ts` that the code uses.
pub mod Limits
mod Tests
use turbo_stream.Prelude.{ℕ, zero, suc, Bool, true, false, if◌then◌else◌, ◌≡◌}
use turbo_stream.Prelude.Int.{ℤ, pos, negsuc, ltb_ℤ, leb_ℤ, ◌≤ℤ◌}

pub record Weights (F : Type 0) : Type 0 where
  pub of_int : ℤ → F
  pub add : F → F → F
  pub mul : F → F → F
  pub div : F → F → F
  pub ge : F → F → Bool
  pub time_weight : F
  pub size_weight : F
  pub full_capacity : F

abbrev pub min_buffer_size : ℤ
min_buffer_size = pos 1

-- The interface: the count, the size of the buffer, the time since the last switch and the interval.
pub record SwitchStrategy : Type 0 where
  pub need_switch : ℤ → ℤ → ℤ → ℤ → Bool

module _ {F : Type 0} (f : Weights F) where
  -- The weighted sum of the two factors.
  unfoldable pub combined : ℤ → ℤ → ℤ → ℤ → F
  combined count size elapsed interval =
      let count_factor = f.div (f.of_int count) (f.of_int size) in
      let switch_factor = f.div (f.of_int elapsed) (f.of_int interval) in
      f.add (f.mul f.time_weight switch_factor) (f.mul f.size_weight count_factor)

  unfoldable pub default_at : ℤ → ℤ → ℤ → ℤ → Bool
  default_at count size elapsed interval =
      if leb_ℤ size count
      then true
      else if leb_ℤ interval elapsed
      then true
      else f.ge (combined count size elapsed interval) f.full_capacity

  unfoldable pub default_strategy : SwitchStrategy
  unfolding default_at
  default_strategy = record {
    need_switch = λ count size elapsed interval.
        default_at count (if ltb_ℤ size min_buffer_size then min_buffer_size else size) elapsed
          interval;
  }

unfoldable pub size_only_strategy : SwitchStrategy
size_only_strategy = record { need_switch = λ count size elapsed interval. leb_ℤ size count }

unfoldable pub time_window_only_strategy : SwitchStrategy
time_window_only_strategy = record {
  need_switch = λ count size elapsed interval. leb_ℤ interval elapsed;
}
