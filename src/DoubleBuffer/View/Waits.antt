-- ===== src/DoubleBuffer/View/Waits.antt =====
-- `BlockingRead` that has to wait: it is served once a switch and the goroutine that it starts made what
-- was written readable.
use turbo_stream.Prelude.{ℕ, ◌≡◌, none, List, [], lookup}
use turbo_stream.Outside
use turbo_stream.Outside.{ok}
use turbo_stream.SmartBuffer.{BufferItem}
use turbo_stream.DoubleBuffer.{Env, DataChunk, DoubleBuffer}
use turbo_stream.DoubleBuffer.Write.{bytes_at}
use turbo_stream.DoubleBuffer.Read.{notified, blocking_read_finish}
use turbo_stream.DoubleBuffer.Memory.{Memory}
use turbo_stream.DoubleBuffer.View.{Parts}

-- Only the active buffer holds items.
abbrev pub only_active : List BufferItem → Parts
only_active xs = record { current = []; heaped = []; unpublished = []; active = xs }

module _ {T : Type 0} (env : Env T) (between : DoubleBuffer T → DoubleBuffer T) (now : T) where
  -- What `BlockingRead` returns once it is woken: the bytes of the item, with its waiter removed.
  abbrev pub Serves : List (ℕ × List ℕ) → DoubleBuffer T → ℕ → BufferItem → Type 0
  Serves store e id x =
      (chunk : DataChunk) × ((blocking_read_finish env between e id notified now).1 ≡ ok chunk)
      × (chunk.bytes.1 ≡ x.size)
      × (bytes_at (blocking_read_finish env between e id notified now).0.store chunk.bytes.0
          ≡ bytes_at store x.ptr)
      × (lookup id (blocking_read_finish env between e id notified now).0.wm.ws ≡ none)
