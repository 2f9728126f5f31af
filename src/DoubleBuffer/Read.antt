-- ===== src/DoubleBuffer/Read.antt =====
-- double_buffer.go: reading, by `tryRead` and the two calls under it, `BlockingRead`, and the
-- release of what was read (chunk.go).
use turbo_stream.Prelude.{
  ℕ, zero, suc, Bool, true, false, ◌||◌, not, ◌⊎◌, inl, inr, if◌then◌else◌, ◌==◌, Option, none,
  some, ◌∷◌, insert,
}
use turbo_stream.Prelude.Int.{ℤ, pos, ltb_ℤ, leb_ℤ, ◌==ℤ◌, add_int64, pos_part}
use turbo_stream.Outside
use turbo_stream.Outside.{Error, Result, ok, err, panic}
use turbo_stream.SmartBuffer.{BufferItem, SmartBuffer}
use turbo_stream.SmartBuffer
use turbo_stream.WrapHeap
use turbo_stream.Waiters
use turbo_stream.LifeCycle.{is_valid, release_medium, release_big, free_big}
use turbo_stream.DoubleBuffer.{
  Env, ByteBuf, Free, put_small, recycles, frees_big, DataChunk, DoubleBuffer, get_small,
  make_bytes, small_data_threshold, large_data_threshold,
}
use turbo_stream.DoubleBuffer.Write.{bytes_at}

-- What ends the wait of `BlockingRead`; a context that is done comes with its `ctx.Err()`.
pub data Wake : Type 0 where
  notified : Wake
  context_done : Error → Wake
  stopped : Wake

abbrev pub max_retries : ℕ
max_retries = 3

module _ {T : Type 0} (env : Env T) where
  -- A mode that is not valid is refused and changes nothing.
  unfoldable pub register_read_mode : DoubleBuffer T → ℤ → DoubleBuffer T × Result (Unit {0})
  register_read_mode d mode =
      if env.valid_mode mode
      then (record d { read_mode = some mode }, ok tt)
      else (d, err Outside.invalid_read_mode)

  unfoldable pub is_some {ℓ} : {A : Type ℓ} → Option A → Bool
  is_some none = false
  is_some (some a) = true

  -- The loop of `pickBufferFromHeap` with the rounds that are left; `between` is what the other
  -- goroutines do while it sleeps.
  unfoldable pub pick_loop :
      (DoubleBuffer T → DoubleBuffer T) → ℕ → DoubleBuffer T → Result (DoubleBuffer T × Bool)
  unfolding is_some
  pick_loop between zero d = ok (d, is_some d.current_buffer)
  pick_loop between (suc n) d = elim (WrapHeap.pick env.heap d.pending_heap) [
    | ok (rest, none) ↦ ok (record d { pending_heap = rest }, false)
    | ok (rest, some item) ↦ elim (item.sequence ==ℤ d.current_sequence) [
      | true ↦ ok (
        record d {
          pending_heap = rest;
          current_buffer = some item.buf;
          current_sequence = add_int64 d.current_sequence (pos 1);
        },
        true,
      )
      | false ↦
          pick_loop between n
            (between (record d { pending_heap = WrapHeap.push env.heap rest item }))
    ]
    | _ ↦ panic
  ]

  abbrev pub create_byte_slice_from_pointer : ℕ → ℤ → ℕ × ℤ
  create_byte_slice_from_pointer ptr size = (ptr, size)

  -- The bytes of that slice are copied to a new array.
  unfoldable pub copy_to : DoubleBuffer T → ByteBuf → BufferItem → DoubleBuffer T
  copy_to d buf item = record d { store = insert buf.addr (bytes_at d.store item.ptr) d.store }

  unfoldable pub small_chunk : DoubleBuffer T → BufferItem → DoubleBuffer T × DataChunk
  unfolding copy_to
  small_chunk d item =
      let (d', buf) = get_small env d (pos_part item.size) in
      (copy_to d' buf item, record { bytes = (buf.addr, item.size); free = some (put_small buf) })

  abbrev pub shared_chunk : BufferItem → DataChunk
  shared_chunk item = record {
    bytes = create_byte_slice_from_pointer item.ptr item.size;
    free = some (recycles item.ptr item.size);
  }

  -- `make([]byte, size)`.
  unfoldable pub copied_chunk : DoubleBuffer T → BufferItem → DoubleBuffer T × DataChunk
  unfolding copy_to make_bytes
  copied_chunk d item =
      let (d', buf) = make_bytes env d (pos_part item.size) in
      (
        copy_to d' buf item,
        record { bytes = (buf.addr, item.size); free = some (recycles item.ptr item.size) },
      )

  -- What `safeRead` makes of the item that it popped.
  unfoldable pub safe_chunk : DoubleBuffer T → BufferItem → T → DoubleBuffer T × DataChunk
  unfolding small_chunk copied_chunk
  safe_chunk d item now =
      if ltb_ℤ item.size small_data_threshold
      then small_chunk d item
      else if ltb_ℤ large_data_threshold item.size
      then (d, shared_chunk item)
      else if is_valid env.since d.medium_pool now item.ptr
      then (d, shared_chunk item)
      else copied_chunk d item

  -- What `safeRead` makes of the buffer and the result that `Pop` left. A slice of a negative size
  -- panics.
  unfoldable pub safe_popped :
      DoubleBuffer T
      → T
      → SmartBuffer × Result BufferItem
      → DoubleBuffer T × Result (Option DataChunk)
  safe_popped d now (cur, ok item) =
      let d' = record d { current_buffer = some cur } in
      if item.size ==ℤ pos 0
      then (d', ok none)
      else if ltb_ℤ item.size (pos 0)
      then (d', panic)
      else ((safe_chunk d' item now).0, ok (some (safe_chunk d' item now).1))
  safe_popped d now (cur, err e) = (record d { current_buffer = some cur }, err e)
  safe_popped d now (cur, panic) = (record d { current_buffer = some cur }, panic)

  -- The buffer pointer is not nil where it is called.
  unfoldable pub safe_read :
      DoubleBuffer T → SmartBuffer → T → DoubleBuffer T × Result (Option DataChunk)
  unfolding safe_popped
  safe_read d cur now = safe_popped d now (SmartBuffer.pop env.states cur)

  -- A read of big data drops the reference that the pool holds.
  unfoldable pub drop_reference : DoubleBuffer T → BufferItem → DoubleBuffer T
  drop_reference d item =
      if ltb_ℤ large_data_threshold item.size
      then record d { big_data_pool = release_big d.big_data_pool item.ptr }
      else d

  abbrev pub zero_copy_chunk : BufferItem → DataChunk
  zero_copy_chunk item = record {
    bytes = create_byte_slice_from_pointer item.ptr item.size;
    free = some (frees_big item.ptr item.size);
  }

  unfoldable pub zero_copy_popped :
      DoubleBuffer T → SmartBuffer × Result BufferItem → DoubleBuffer T × Result (Option DataChunk)
  unfolding drop_reference
  zero_copy_popped d (cur, ok item) =
      let d' = record d { current_buffer = some cur } in
      if item.ptr == 0
      then (d', ok none)
      else if ltb_ℤ item.size (pos 0)
      then (d', panic)
      else (drop_reference d' item, ok (some (zero_copy_chunk item)))
  zero_copy_popped d (cur, err e) = (record d { current_buffer = some cur }, err e)
  zero_copy_popped d (cur, panic) = (record d { current_buffer = some cur }, panic)

  unfoldable pub zero_copy_read :
      DoubleBuffer T → SmartBuffer → DoubleBuffer T × Result (Option DataChunk)
  unfolding zero_copy_popped
  zero_copy_read d cur = zero_copy_popped d (SmartBuffer.pop env.states cur)

  -- A read that found nothing is ErrRead.
  unfoldable pub found :
      DoubleBuffer T × Result (Option DataChunk) → DoubleBuffer T × Result DataChunk
  found (d, ok (some c)) = (d, ok c)
  found (d, ok none) = (d, err Outside.read_failed)
  found (d, err e) = (d, err e)
  found (d, panic) = (d, panic)

  unfoldable pub by_mode :
      DoubleBuffer T → SmartBuffer → T → Option ℤ → DoubleBuffer T × Result DataChunk
  unfolding found
  by_mode d cur now none = (d, panic)
  by_mode d cur now (some mode) =
      if mode ==ℤ env.safe_read
      then found (safe_read d cur now)
      else if mode ==ℤ env.zero_copy_read
      then found (zero_copy_read d cur)
      else (d, err Outside.wrong_read_mode)

  -- The call of `tryRead` by the registered mode. A mode that was never registered is a nil pointer.
  unfoldable pub read_by_mode : DoubleBuffer T → SmartBuffer → T → DoubleBuffer T × Result DataChunk
  unfolding by_mode
  read_by_mode d cur now = by_mode d cur now d.read_mode

  unfoldable pub drop_from : DoubleBuffer T → Option SmartBuffer → DoubleBuffer T
  drop_from d none = d
  drop_from d (some b) = record d {
    current_buffer = none;
    pool = SmartBuffer.reset env.states b ∷ d.pool;
  }

  -- A current buffer that is used up goes back to the pool.
  unfoldable pub drop_current : DoubleBuffer T → DoubleBuffer T
  unfolding drop_from
  drop_current d = drop_from d d.current_buffer

  unfoldable pub has_data : DoubleBuffer T → Bool
  has_data d = elim d.current_buffer [ none ↦ false | some b ↦ not (b.count ==ℤ pos 0) ]

  unfoldable pub read_from :
      DoubleBuffer T → T → Option SmartBuffer → DoubleBuffer T × Result DataChunk
  unfolding read_by_mode
  read_from d now none = (d, panic)
  read_from d now (some cur) = read_by_mode d cur now

  -- The read of a double buffer whose current buffer is settled.
  unfoldable pub read_current : DoubleBuffer T → T → DoubleBuffer T × Result DataChunk
  unfolding read_from
  read_current d now = read_from d now d.current_buffer

  unfoldable pub try_read :
      (DoubleBuffer T → DoubleBuffer T) → DoubleBuffer T → T → DoubleBuffer T × Result DataChunk
  unfolding has_data
  try_read between d now =
      if has_data d
      then read_current d now
      else elim (pick_loop between max_retries (drop_current d)) [
        | ok (d', true) ↦ read_current d' now
        | ok (d', false) ↦ (d', err Outside.no_buffer)
        | _ ↦ (drop_current d, panic)
      ]

  -- `BlockingRead` up to its `select`: a result at once, or the waiter that it registered.
  unfoldable pub blocking_read_start :
      (DoubleBuffer T → DoubleBuffer T)
      → Waiters.PoolGet
      → DoubleBuffer T
      → T
      → DoubleBuffer T × (Result DataChunk ⊎ ℕ)
  blocking_read_start between get d now =
      let (d', r) = try_read between d now in
      elim r [
        | ok c ↦ (d', inl (ok c))
        | err e ↦ let (wm, id, ch) = Waiters.register get d'.wm in (record d' { wm = wm }, inr id)
        | panic ↦ (d', inl panic)
      ]

  -- The rest of it, when the waiter wakes up; `unregister` is deferred.
  unfoldable pub blocking_read_finish :
      (DoubleBuffer T → DoubleBuffer T)
      → DoubleBuffer T
      → ℕ
      → Wake
      → T
      → DoubleBuffer T × Result DataChunk
  blocking_read_finish between d id wake now =
      let after : DoubleBuffer T × Result DataChunk = elim wake [
        | notified ↦ try_read between d now
        | context_done x ↦ (d, err x)
        | stopped ↦ (d, err Outside.buffer_closed)
      ] in
      (record after.0 { wm = Waiters.unregister after.0.wm id }, after.1)

  unfoldable pub recycle : DoubleBuffer T → ℕ → ℤ → DoubleBuffer T
  recycle d ptr size =
      if ptr == 0 || leb_ℤ size (pos 0)
      then d
      else if ltb_ℤ size small_data_threshold
      then d
      else if ltb_ℤ large_data_threshold size
      then record d { big_data_pool = release_big d.big_data_pool ptr }
      else record d { medium_pool = release_medium env.since d.medium_pool ptr }

  -- The closures.
  unfoldable pub run_free : DoubleBuffer T → Free → DoubleBuffer T
  run_free d (put_small b) = record d { small_pool = b ∷ d.small_pool }
  run_free d (recycles ptr size) = recycle d ptr size
  run_free d (frees_big ptr size) = record d { big_data_pool = free_big d.big_data_pool ptr size }

  -- chunk.go: `Release` runs the closure and forgets it.
  unfoldable pub release : DoubleBuffer T → DataChunk → DoubleBuffer T × DataChunk
  release d c = elim c.free [ none ↦ (d, c) | some f ↦ (run_free d f, record c { free = none }) ]
