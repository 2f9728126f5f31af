-- ===== src/DoubleBuffer/System/Tests.antt =====
-- double_buffer.go: a system of capacity 2 with writes, switches, reads and releases.
use turbo_stream.Prelude.{ℕ, ◌≡◌, refl, arith, inl, List, [], ◌∷◌, ◌++◌}
use turbo_stream.Prelude.Int.{pos}
use turbo_stream.Outside.{ok}
use turbo_stream.DoubleBuffer.Samples.{env, env-IsEnv}
use turbo_stream.DoubleBuffer.System.{
  System, Event, writes, switches, publishes, reads, releases, finish, written, run, start,
}
use turbo_stream.DoubleBuffer.View.Refines.{run-delivered, run-finish, step-shown}
use mathlib.Core.List.{Mem}
use turbo_stream.DoubleBuffer.{DataChunk}
use turbo_stream.DoubleBuffer.System.{shown, step}
use turbo_stream.DoubleBuffer.View.Events.{AllFit}

-- The third write finds a full buffer.
abbrev events : List (Event ℕ)
events =
    writes (7 ∷ []) 1
    ∷ writes (8 ∷ 9 ∷ []) 2
    ∷ reads 3
    ∷ writes (5 ∷ []) 4
    ∷ publishes
    ∷ reads 5
    ∷ releases 0
    ∷ reads 6
    ∷ switches 7
    ∷ []

events_fit : AllFit events
events_fit = (
  (omega arith, omega arith),
  (
    (omega arith, omega arith),
    (tt, ((omega arith, omega arith), (tt, (tt, (tt, (tt, (tt, tt))))))),
  ),
)

run-delivered_example :
    (s : System ℕ) × (s' : System ℕ) × (start env 2 (pos 0) 0 ≡ ok s)
    × (run env (λ d. d) s events ≡ ok s')
    × (s'.accepted ≡ written events)
    × (unread : List (List ℕ)) × (written events ≡ s'.delivered ++ unread)
run-delivered_example =
    run-delivered env env-IsEnv 2 (λ d. d) (pos 0) 0 events (omega arith) (omega arith)
      (omega arith) refl (inl refl) events_fit

run-finish_example :
    (s : System ℕ) × (s' : System ℕ) × (start env 2 (pos 0) 0 ≡ ok s)
    × (run env (λ d. d) s (events ++ finish 10 19 8) ≡ ok s')
    × (s'.delivered ≡ written events)
run-finish_example =
    run-finish env env-IsEnv 2 (λ d. d) (pos 0) 0 8 events (omega arith) (omega arith) (omega arith)
      refl (inl refl) events_fit

-- A write of small data while the reader holds a chunk.
step-shown_example :
    (s : System ℕ) × (t : System ℕ) × (t' : System ℕ) × (start env 2 (pos 0) 0 ≡ ok s)
    × (run env (λ d. d) s events ≡ ok t)
    × (step env (λ d. d) t (writes (6 ∷ []) 8) ≡ ok t')
    × ((chunk : DataChunk)
        → Mem chunk t.chunks
        → Mem chunk t'.chunks
        → shown t'.buffer.store chunk ≡ shown t.buffer.store chunk)
step-shown_example =
    step-shown env env-IsEnv 2 (λ d. d) (pos 0) 0 events (writes (6 ∷ []) 8) (omega arith)
      (omega arith) (omega arith) refl (inl refl) events_fit (omega arith, omega arith)
