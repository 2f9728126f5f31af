-- ===== src/DoubleBuffer/System.antt =====
-- double_buffer.go as its callers use it: the events that may happen to a double buffer and what its
-- writers and readers know of it. The goroutines of the switches run in the order of the switches, at any
-- time. A writer hands over a new slice for each call.
mod Tests
use turbo_stream.Prelude.{
  ℕ, ◌+◌, none, some, List, [], ◌∷◌, ◌++◌, length, replicate, take, insert, get_elem?,
}
use turbo_stream.Prelude.Int.{ℤ, pos, pos_part}
use turbo_stream.Outside.{Result, ok, err, panic}
use turbo_stream.DoubleBuffer.{Env, DataChunk, DoubleBuffer}
use turbo_stream.DoubleBuffer.Write.{bytes_at, write}
use turbo_stream.DoubleBuffer.Switch.{switch_channel, publish, remove_at}
use turbo_stream.DoubleBuffer.Read.{try_read, register_read_mode, release}
use turbo_stream.DoubleBuffer.Close.{new_double_buffer}

-- The chunks that a reader holds, and the byte strings that writers had accepted and readers got.
pub record System (T : Type 0) : Type 0 where
  pub buffer : DoubleBuffer T
  pub chunks : List DataChunk
  pub accepted : List (List ℕ)
  pub delivered : List (List ℕ)

-- `publishes` is the goroutine of the switch that is the oldest of those whose goroutine did not run.
pub data Event (T : Type 0) : Type 0 where
  writes : List ℕ → T → Event T
  switches : T → Event T
  publishes : Event T
  reads : T → Event T
  releases : ℕ → Event T

-- What is written in the course of the events.
abbrev pub written_by : {T : Type 0} → Event T → List (List ℕ)
written_by (writes bs now) = bs ∷ []
written_by (switches now) = []
written_by publishes = []
written_by (reads now) = []
written_by (releases i) = []

abbrev pub written : {T : Type 0} → List (Event T) → List (List ℕ)
written [] = []
written (e ∷ es) = written_by e ++ written es

-- A switch, runs of goroutines of switches, and reads.
abbrev pub finish : {T : Type 0} → ℕ → ℕ → T → List (Event T)
finish n m now = switches now ∷ (replicate n publishes ++ replicate m (reads now))

-- The bytes that a chunk shows.
abbrev pub shown : List (ℕ × List ℕ) → DataChunk → List ℕ
shown store chunk = take (pos_part chunk.bytes.1) (bytes_at store chunk.bytes.0)

-- The slice that a writer makes.
abbrev pub offer : {T : Type 0} → DoubleBuffer T → List ℕ → DoubleBuffer T
offer d bs = record d { store = insert d.next_addr bs d.store; next_addr = d.next_addr + 1 }

module _ {T : Type 0} where
  unfoldable pub after_write :
      System T → List ℕ → DoubleBuffer T × Result (Unit {0}) → Result (System T)
  after_write s bs (d, ok u) = ok (record s { buffer = d; accepted = s.accepted ++ bs ∷ [] })
  after_write s bs (d, err e) = ok (record s { buffer = d })
  after_write s bs (d, panic) = panic

  unfoldable pub after_switch : System T → Result (DoubleBuffer T) → Result (System T)
  after_switch s (ok d) = ok (record s { buffer = d })
  after_switch s (err e) = panic
  after_switch s panic = panic

  unfoldable pub after_read : System T → DoubleBuffer T × Result DataChunk → Result (System T)
  after_read s (d, ok chunk) = ok (record s {
    buffer = d;
    chunks = chunk ∷ s.chunks;
    delivered = s.delivered ++ shown d.store chunk ∷ [];
  })
  after_read s (d, err e) = ok (record s { buffer = d })
  after_read s (d, panic) = panic

-- `between` is what happens while `tryRead` sleeps.
module _ {T : Type 0} (env : Env T) (between : DoubleBuffer T → DoubleBuffer T) where
  unfoldable pub step : System T → Event T → Result (System T)
  unfolding after_write after_switch after_read
  step s (writes bs now) =
      after_write s bs (write env (offer s.buffer bs) s.buffer.next_addr (length bs) now)
  step s (switches now) = after_switch s (switch_channel env s.buffer now)
  step s publishes = ok (record s { buffer = publish env s.buffer 0 })
  step s (reads now) = after_read s (try_read env between s.buffer now)
  step s (releases i) = elim (get_elem? s.chunks i) [
    | none ↦ ok s
    | some chunk ↦
        ok (record s { buffer = (release env s.buffer chunk).0; chunks = remove_at s.chunks i })
  ]

  unfoldable pub run : System T → List (Event T) → Result (System T)
  unfolding step
  run s [] = ok s
  run s (e ∷ es) = elim (step s e) [ ok s' ↦ run s' es | err x ↦ panic | panic ↦ panic ]

module _ {T : Type 0} (env : Env T) where
  -- A new double buffer of c items whose reader registered a mode.
  unfoldable pub start : ℕ → ℤ → T → Result (System T)
  start c mode now = elim (new_double_buffer env (pos c) now) [
    | ok d ↦ ok (record {
      buffer = (register_read_mode env d mode).0;
      chunks = [];
      accepted = [];
      delivered = [];
    })
    | err e ↦ panic
    | panic ↦ panic
  ]
