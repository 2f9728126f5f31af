-- ===== src/DoubleBuffer.antt =====
-- double_buffer.go: the state of a double buffer and what its operations share. Data lives in a
-- store from addresses to bytes: the array that `Write` is given, and the arrays that the code
-- makes. A closure that a `DataChunk` carries is the constructor of the one that the code builds.
pub mod Write
pub mod Switch
pub mod Read
pub mod Close
pub mod Monitor
pub mod Options
pub mod Memory
pub mod System
pub mod View
mod Samples
mod Tests
use turbo_stream.Prelude.{
  ◌*◌, ℕ, zero, suc, ◌+◌, Bool, true, false, if◌then◌else◌, ltb, Option, none, some, List, [], ◌∷◌,
  insert,
}
use turbo_stream.Prelude.Int.{ℤ, pos, negsuc}
use turbo_stream.Outside.{States, Result, ok, err, panic}
use turbo_stream.SmartBuffer.{BufferItem, SmartBuffer, new_smart_buffer}
use turbo_stream.MinHeap.{MinHeap, HeapPackage}
use turbo_stream.LifeCycle.{MediumPool, BigDataPool}
use turbo_stream.Waiters.{WaiterManager}

abbrev pub small_data_threshold : ℤ
small_data_threshold = pos 1024

abbrev pub large_data_threshold : ℤ
large_data_threshold = pos (32 * 1024)

-- A `[]byte` of the small pool: where its array stands, and its capacity.
pub record ByteBuf : Type 0 where
  pub addr : ℕ
  pub cap_ : ℕ

-- What the code gets from other packages: the constants of `ts`, container/heap, the choices of the
-- two sync.Pools, and the clock. `T` is time.Time.
pub record Env (T : Type 0) : Type 0 where
  pub states : States
  pub safe_read : ℤ
  pub zero_copy_read : ℤ
  pub valid_mode : ℤ → Bool
  pub heap : HeapPackage
  pub get_buffer : List SmartBuffer → Option (SmartBuffer × List SmartBuffer)
  pub get_bytes : List ByteBuf → Option (ByteBuf × List ByteBuf)
  pub since : T → T → ℤ

-- The closures that `safeRead` and `zeroCopyRead` hand out as `free`.
pub data Free : Type 0 where
  put_small : ByteBuf → Free
  recycles : ℕ → ℤ → Free
  frees_big : ℕ → ℤ → Free

-- chunk.go: the data as the slice that it is, and the closure, if it was not called yet.
pub record DataChunk : Type 0 where
  pub bytes : ℕ × ℤ
  pub free : Option Free

pub record DoubleBuffer (T : Type 0) : Type 0 where
  pub active : SmartBuffer
  pub passive : SmartBuffer
  pub current_buffer : Option SmartBuffer
  pub stopped : Bool
  pub size : ℤ
  pub count : ℤ
  pub state : ℤ
  pub last_switch : T
  pub pool : List SmartBuffer
  pub sequence : ℤ
  pub current_sequence : ℤ
  pub pending_heap : MinHeap
  pub read_mode : Option ℤ
  pub small_pool : List ByteBuf
  pub medium_pool : List (ℕ × T)
  pub big_data_pool : BigDataPool
  pub wm : WaiterManager
  -- The goroutines that `switchChannel` started and that have not yet pushed their buffer, and those
  -- that have still to notify, each with the size that it read.
  pub publishing : List SmartBuffer
  pub notifying : List ℤ
  -- The store of bytes, and the next address that was never used.
  pub store : List (ℕ × List ℕ)
  pub next_addr : ℕ

abbrev pub initialize_buf_size : ℕ
initialize_buf_size = 512

module _ {T : Type 0} (env : Env T) where
  -- `d.pool.Get()`: `New` makes a buffer of the double buffer's size.
  unfoldable pub get_pooled : DoubleBuffer T → Result (SmartBuffer × List SmartBuffer)
  get_pooled d = elim (env.get_buffer d.pool) [
    | some (b, rest) ↦ ok (b, rest)
    | none ↦ elim (new_smart_buffer env.states d.size) [ ok b ↦ ok (b, d.pool) | _ ↦ panic ]
  ]

  -- `make([]byte, 0, n)`.
  unfoldable pub make_bytes : DoubleBuffer T → ℕ → DoubleBuffer T × ByteBuf
  make_bytes d n =
      (record d { next_addr = d.next_addr + 1 }, record { addr = d.next_addr; cap_ = n })

  -- `d.pm.SmallPool.Get()`, and a new array if its own is too short: n is the size that is wanted.
  unfoldable pub get_small : DoubleBuffer T → ℕ → DoubleBuffer T × ByteBuf
  unfolding make_bytes
  get_small d n =
      let got : DoubleBuffer T × ByteBuf = elim (env.get_bytes d.small_pool) [
        | some (b, rest) ↦ (record d { small_pool = rest }, b)
        | none ↦ make_bytes d initialize_buf_size
      ] in
      if ltb got.1.cap_ n then make_bytes got.0 n else got
