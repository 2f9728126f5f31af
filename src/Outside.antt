-- ===== src/Outside.antt =====
-- What the code takes from packages that this repository does not hold: the constants of the
-- module's root package (imported as `ts`) and the error values of its package errorx.
use turbo_stream.Prelude.{◌≢◌}
use turbo_stream.Prelude.Int.{ℤ}

-- The state constants of `ts`: those of one buffer and those of the double buffer.
pub record States : Type 0 where
  pub write_only : ℤ
  pub read_only : ℤ
  pub switching : ℤ
  pub writing_state : ℤ
  pub switching_state : ℤ
  pub closed_state : ℤ

-- The constants of each group name different states.
pub record AreDistinct (k : States) : Type 0 where
  pub open_ne_read : k.write_only ≢ k.read_only
  pub open_ne_closed : k.write_only ≢ k.closed_state
  pub open_ne_switching : k.write_only ≢ k.switching
  pub read_ne_switching : k.read_only ≢ k.switching
  pub read_ne_closed : k.read_only ≢ k.closed_state
  pub writing_ne_switching : k.writing_state ≢ k.switching_state
  pub writing_ne_closed : k.writing_state ≢ k.closed_state
  pub switching_ne_closed : k.switching_state ≢ k.closed_state

-- The errors that the code returns: those of errorx, its own, and one of the system.
pub data Error : Type 0 where
  buffer_closed read_only no_buffer wrong_read_mode read_failed : Error
  invalid_read_mode invalid_collector : Error
  queue_closed queue_empty buffer_size timed_out canceled no_memory : Error

-- What a Go function hands back: a value, an error value, or a panic.
pub data Result {ℓ} (A : Type ℓ) : Type ℓ where
  ok : A → Result A
  err : Error → Result A
  panic : Result A
