-- ===== src/Metrics.antt =====
-- metrics/types.go: the interface between the batch collector and the collector under it, and what
-- both take from other packages. `F` is float64.
pub mod Batch
pub mod Prometheus
use turbo_stream.Prelude.{Bool, ◌≢◌, ◌≡◌, ◌+◌, ℕ, ◌<◌, ◌^◌}
use turbo_stream.Prelude.Int.{ℤ, pos}
use turbo_stream.Outside.{Result, ok, err, panic}

-- `ts.SwitchStatus` and `ts.OperationType`.
pub record Codes : Type 0 where
  pub switch_success : ℤ
  pub switch_failure : ℤ
  pub switch_skip : ℤ
  pub inc_op : ℤ
  pub dec_op : ℤ

-- The codes of each group differ.
pub record AreApart (k : Codes) : Type 0 where
  pub success_ne_skip : k.switch_success ≢ k.switch_skip
  pub success_ne_failure : k.switch_success ≢ k.switch_failure
  pub failure_ne_skip : k.switch_failure ≢ k.switch_skip
  pub inc_ne_dec : k.inc_op ≢ k.dec_op

-- The float64 operations that the code uses.
pub record Floats (F : Type 0) : Type 0 where
  pub of_int : ℤ → F
  pub add : F → F → F
  pub neg : F → F
  pub is_zero : F → Bool

-- Integers up to 2^53 convert and add without rounding.
pub record IsExact {F : Type 0} (f : Floats F) : Type 0 where
  pub add_int :
      (a b : ℕ)
      → a + b < 2 ^ 53
      → f.add (f.of_int (pos a)) (f.of_int (pos b)) ≡ f.of_int (pos (a + b))

-- The interface `Collector`; `M` is the type of collectors, and a method may panic.
pub record Collector (M F : Type 0) : Type 0 where
  pub collect_switcher : M → Bool → M
  pub observe_write : M → F → F → F → Result M
  pub observe_read : M → F → F → F → Result M
  pub alloc_inc : M → F → Result M
  pub observe_async_goroutine : M → ℤ → F → Result M
  pub switch_with_latency : M → ℤ → F → F → Result M
  pub observe_active : M → F → F → Result M

-- A call that panics ends the caller's run.
infixl 5 ◌>>=◌
abbrev pub ◌>>=◌ : {A B : Type 0} → Result A → (A → Result B) → Result B
ok a >>= f = f a
err e >>= f = err e
panic >>= f = panic
