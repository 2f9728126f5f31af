-- ===== src/DoubleBuffer/Options.antt =====
-- double_buffer.go: `NewDoubleBuffer` with its options, and the option `WithMetrics`. `C` is the type of
-- batch collectors, and `new_collector` is `metrics2.NewBatchCollector(metrics2.NewPrometheus())`.
mod Tests
use turbo_stream.Prelude.{Bool, true, false, if◌then◌else◌, ◌≡◌, List, [], ◌∷◌}
use turbo_stream.Prelude.Int.{ℤ, ◌==ℤ◌}
use turbo_stream.Outside
use turbo_stream.Outside.{Result, ok, err, panic}
use turbo_stream.DoubleBuffer.{Env, DoubleBuffer}
use turbo_stream.DoubleBuffer.Close.{new_double_buffer, opened}
use turbo_stream.SmartBuffer.{SmartBuffer, new_smart_buffer}

-- The fields of the double buffer that the options set.
pub record Metering (C : Type 0) : Type 0 where
  pub enable_metrics : Bool
  pub mc : C

-- `ts.CollectorType`: its valid values, and the one for Prometheus.
pub record Collectors : Type 0 where
  pub validate : ℤ → Bool
  pub prometheus_collector : ℤ

-- `*DoubleBuffer`, with the fields of `Metering` beside the others, and an `Options` function on it.
abbrev pub Built : Type 0 → Type 0 → Type 0
Built T C = DoubleBuffer T × Metering C

abbrev pub Opt : Type 0 → Type 0 → Type 0
Opt T C = Built T C → Result (Built T C)

-- The loop over the options, which ends at the first error.
unfoldable pub apply_options : {T C : Type 0} → List (Opt T C) → Built T C → Result (Built T C)
apply_options [] s = ok s
apply_options (opt ∷ opts) s = elim (opt s) [
  | ok s' ↦ apply_options opts s'
  | err e ↦ err e
  | panic ↦ panic
]

-- The collectors of the options are valid.
abbrev pub AllValid : Collectors → List ℤ → Type 0
AllValid k [] = Unit {0}
AllValid k (c ∷ cs) = (k.validate c ≡ true) × AllValid k cs

module _ {T C : Type 0} (k : Collectors) (new_collector : Result C) where
  abbrev pub with_mc : Built T C → Result C → Result (Built T C)
  with_mc (d, m) (ok mc) = ok (d, record m { mc = mc })
  with_mc s (err e) = panic
  with_mc s panic = panic

  unfoldable pub with_metrics : ℤ → Opt T C
  with_metrics collector (d, m) =
      if k.validate collector
      then (let enabled : Built T C = (d, record m { enable_metrics = true }) in
          if collector ==ℤ k.prometheus_collector
          then with_mc enabled new_collector
          else ok enabled)
      else err Outside.invalid_collector

module _ {T C : Type 0} (env : Env T) (k : Collectors) (new_collector : Result C) where
  -- What comes behind the options: a new pool, and two buffers from it.
  unfoldable pub renew : ℤ → Result (Built T C) → Result (Built T C)
  renew size (ok (d, m)) = elim (new_smart_buffer env.states size) [
    | ok b ↦ ok (record d { active = b; passive = b; pool = [] }, m)
    | err e ↦ panic
    | panic ↦ panic
  ]
  renew size (err e) = err e
  renew size panic = panic

  unfoldable pub with_options : ℤ → List (Opt T C) → DoubleBuffer T → Result C → Result (Built T C)
  unfolding apply_options renew
  with_options size opts d (ok mc) =
      renew size (apply_options opts (d, record { enable_metrics = false; mc = mc }))
  with_options size opts d (err e) = panic
  with_options size opts d panic = panic

  -- `NewDoubleBuffer`. What comes before the options makes the double buffer that there is without any.
  unfoldable pub new_with_options : ℤ → T → List (Opt T C) → Result (Built T C)
  unfolding with_options
  new_with_options size now opts = elim (new_double_buffer env size now) [
    | ok d ↦ with_options size opts d new_collector
    | err e ↦ panic
    | panic ↦ panic
  ]

  module _ (mc : C) (made : new_collector ≡ ok mc) (size : ℤ) (now : T) (b : SmartBuffer)
      (makes : new_smart_buffer env.states size ≡ ok b) where
    abbrev built : DoubleBuffer T
    built = opened env b size now

    abbrev off : Metering C
    off = record { enable_metrics = false; mc = mc }
