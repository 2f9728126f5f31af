-- ===== src/DoubleBuffer/Write.antt =====
-- double_buffer.go: `Write`.
use turbo_stream.Prelude.{ℕ, if◌then◌else◌, ◌==◌, none, some, List, [], lookup, insert}
use turbo_stream.Prelude.Int.{ℤ, pos, negsuc, half32, wrap, ltb_ℤ, ◌==ℤ◌, add_int32}
use turbo_stream.Outside
use turbo_stream.Outside.{Result, ok, err, panic}
use turbo_stream.SmartBuffer.{BufferItem, SmartBuffer, get_state}
use turbo_stream.SmartBuffer
use turbo_stream.LifeCycle.{put_medium, put_big}
use turbo_stream.DoubleBuffer.{
  Env, DoubleBuffer, get_small, small_data_threshold, large_data_threshold,
}
use turbo_stream.DoubleBuffer.Switch.{switch_channel}

-- The bytes that stand at an address.
abbrev pub bytes_at : List (ℕ × List ℕ) → ℕ → List ℕ
bytes_at store p = elim (lookup p store) [ none ↦ [] | some bs ↦ bs ]

module _ {T : Type 0} (env : Env T) where
  -- Small data is copied. A slice of a negative size panics, and so does `&buf[0]` for size 0.
  unfoldable pub place_small : DoubleBuffer T → ℕ → ℤ → Result (DoubleBuffer T × BufferItem)
  place_small d ptr (negsuc n) = panic
  place_small d ptr (pos n) =
      let (d', buf) = get_small env d n in
      if n == 0
      then panic
      else ok (
        record d' { store = insert buf.addr (bytes_at d'.store ptr) d'.store },
        record { ptr = buf.addr; size = pos n },
      )

  -- The header of the data, and what keeps the data alive, by its size.
  unfoldable pub place : DoubleBuffer T → ℕ → ℤ → T → Result (DoubleBuffer T × BufferItem)
  unfolding place_small
  place d ptr size now =
      if ltb_ℤ size small_data_threshold
      then place_small d ptr size
      else if ltb_ℤ large_data_threshold size
      then ok (
        record d { big_data_pool = put_big d.big_data_pool ptr size },
        record { ptr = ptr; size = size },
      )
      else ok (
        record d { medium_pool = put_medium env.since d.medium_pool ptr now },
        record { ptr = ptr; size = size },
      )

  -- A write to the active buffer, which counts if it succeeds.
  unfoldable pub counted :
      DoubleBuffer T → SmartBuffer × Result (Unit {0}) → DoubleBuffer T × Result (Unit {0})
  counted d (a, ok u) = (record d { active = a; count = add_int32 d.count (pos 1) }, ok tt)
  counted d (a, err e) = (record d { active = a }, err e)
  counted d (a, panic) = (record d { active = a }, panic)

  unfoldable pub write_active : DoubleBuffer T → BufferItem → DoubleBuffer T × Result (Unit {0})
  unfolding counted
  write_active d item = counted d (SmartBuffer.write env.states d.active item)

  unfoldable pub slow_path : DoubleBuffer T → BufferItem → T → DoubleBuffer T × Result (Unit {0})
  slow_path d item now =
      if get_state env.states d.active ==ℤ env.states.read_only
      then elim (switch_channel env d now) [ ok d' ↦ write_active d' item | _ ↦ (d, panic) ]
      else write_active d item

  unfoldable pub after_fast :
      T → BufferItem → DoubleBuffer T × Result (Unit {0}) → DoubleBuffer T × Result (Unit {0})
  after_fast now item (d, ok u) = (d, ok tt)
  after_fast now item (d, err e) = slow_path d item now
  after_fast now item (d, panic) = (d, panic)

  unfoldable pub fast_path : DoubleBuffer T → BufferItem → T → DoubleBuffer T × Result (Unit {0})
  unfolding after_fast
  fast_path d item now =
      if d.state ==ℤ env.states.writing_state
      then after_fast now item (write_active d item)
      else slow_path d item now

  -- `Write(p)` for the slice of `len_` bytes at `ptr`; the size of the item is `int32(len(p))`.
  unfoldable pub write : DoubleBuffer T → ℕ → ℕ → T → DoubleBuffer T × Result (Unit {0})
  write d ptr len_ now =
      if d.state ==ℤ env.states.closed_state
      then (d, err Outside.buffer_closed)
      else elim (place d ptr (wrap half32 (pos len_)) now) [
        | ok (d', item) ↦ fast_path d' item now
        | _ ↦ (d, panic)
      ]
