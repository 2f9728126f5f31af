-- ===== src/DoubleBuffer/Tests.antt =====
-- double_buffer.go: a double buffer of capacity 2 with one pending buffer and a full active one.
use turbo_stream.Prelude.{
  ℕ, ◌≡◌, ◌≢◌, refl, ap, arith, true, false, ◌⊎◌, inl, inr, none, some, List, [], ◌∷◌,
}
use turbo_stream.Prelude.Int.{pos, pos_part}
use mathlib.Core.List.{Perm}
use mathlib.Core.List.Perm
use turbo_stream.MinHeap.Swaps.{entries}
use turbo_stream.Outside
use turbo_stream.Outside.{Result, ok, err, panic}
use turbo_stream.Samples.{states, item_at, other_item}
use turbo_stream.SmartBuffer.{BufferItem, SmartBuffer, fresh_buffer}
use turbo_stream.SmartBuffer.Stored.{Holds}
use turbo_stream.Waiters.{new_waiter_manager}
use turbo_stream.DoubleBuffer.{DoubleBuffer}
use turbo_stream.DoubleBuffer.Switch.{switch_channel, publish}
use turbo_stream.DoubleBuffer.Close.{new_double_buffer, close}
use turbo_stream.DoubleBuffer.Memory.{memory}
use turbo_stream.DoubleBuffer.Write.{write}
use turbo_stream.DoubleBuffer.Read.{try_read}
use turbo_stream.DoubleBuffer.View.{IsFresh, Parts, HeapHolds, Shows, contents}
use turbo_stream.DoubleBuffer.View.Switches.{keep_heap, switch_channel-Shows}
use turbo_stream.DoubleBuffer.View.Append.{Appends, write-Appends, write-closed, write_empty-panics}
use turbo_stream.DoubleBuffer.Samples.{env, env-IsEnv}
use turbo_stream.DoubleBuffer.View.Starts.{nothing, new_double_buffer-Shows}
use turbo_stream.DoubleBuffer.View.Order.{publish-publish}
use turbo_stream.DoubleBuffer.View.Publishes.{publish_first-Shows}
use turbo_stream.DoubleBuffer.View.Reads.{IsItem, ReadsItem}
use turbo_stream.SwitchStrategy.{size_only_strategy}
use turbo_stream.DoubleBuffer.Monitor.{Monitor, tick}
use turbo_stream.DoubleBuffer.View.Closes.{close-Shows}
use turbo_stream.DoubleBuffer.View.Ticks.{says, tick-Shows}
use turbo_stream.DoubleBuffer.View.Takes.{try_read-pending}

abbrev full : SmartBuffer
full = record (fresh_buffer states 2) {
  buf = other_item ∷ item_at ∷ [];
  head = pos 1;
  count = pos 2;
}

full-Holds : Holds 2 full 0 (item_at ∷ other_item ∷ [])
full-Holds = record {
  room = refl;
  small = omega arith;
  sized = refl;
  head_at = refl;
  tail_at = refl;
  counted = refl;
  fits = omega arith;
  stored = (refl, (refl, tt));
}

fresh_buffer-IsFresh : IsFresh states 2 (fresh_buffer states 2)
fresh_buffer-IsFresh = record {
  empty = record {
    room = refl;
    small = omega arith;
    sized = refl;
    head_at = refl;
    tail_at = refl;
    counted = refl;
    fits = omega arith;
    stored = tt;
  };
  takes_writes = refl;
}

abbrev busy : DoubleBuffer ℕ
busy = record {
  active = full;
  passive = fresh_buffer states 2;
  current_buffer = none;
  stopped = false;
  size = pos 2;
  count = pos 2;
  state = states.writing_state;
  last_switch = 0;
  pool = [];
  sequence = pos 1;
  current_sequence = pos 1;
  pending_heap = record { sequence = pos 1; buf = full; index = pos 0 } ∷ [];
  read_mode = some (pos 1);
  small_pool = [];
  medium_pool = [];
  big_data_pool = record { pool = []; current_size = pos 0; max_size = pos 0 };
  wm = new_waiter_manager;
  publishing = [];
  notifying = [];
  store = (100, 1 ∷ 2 ∷ 3 ∷ 4 ∷ 5 ∷ []) ∷ [];
  next_addr = 1000;
}

abbrev two_items : List BufferItem
two_items = item_at ∷ other_item ∷ []

abbrev busy_parts : Parts
busy_parts = record { current = []; heaped = two_items ∷ []; unpublished = []; active = two_items }

busy-HeapHolds : HeapHolds env env-IsEnv 2 busy (two_items ∷ [])
busy-HeapHolds = record {
  good = record { ordered = tt; indexed = (refl, tt) };
  next = 1;
  order = (pos 1, full) ∷ [];
  same = Perm.refl _;
  numbered = (refl, full-Holds, tt);
  current_at = refl;
  last_at = refl;
  from_one = omega arith;
  small = omega arith;
}

busy-Shows : Shows env env-IsEnv 2 busy busy_parts
busy-Shows = record {
  open_ = refl;
  sized = refl;
  positive = omega arith;
  small = omega arith;
  active_holds = full-Holds;
  active_mode = inl refl;
  passive_fresh = fresh_buffer-IsFresh;
  pool_fresh = tt;
  current_holds = refl;
  heap_holds = busy-HeapHolds;
  unpublished_hold = tt;
}

write-Appends_example : Appends env env-IsEnv busy-Shows 100 5 60
write-Appends_example = write-Appends env env-IsEnv busy-Shows 100 5 60 (omega arith) (omega arith)

write-closed_example :
    write env (record busy { state = pos 3 }) 100 5 60
    ≡ (record busy { state = pos 3 }, err Outside.buffer_closed)
write-closed_example = write-closed env (record busy { state = pos 3 }) 60 100 5 refl

write_empty-panics_example : (write env busy 100 0 60).1 ≡ panic
write_empty-panics_example = write_empty-panics env busy 60 100 (λ e. omega (arith, ap pos_part e))

item_at-IsItem : IsItem item_at
item_at-IsItem = record { pointer = omega arith; bytes = 4; sized = refl }

try_read-pending_example :
    ReadsItem env env-IsEnv 2 busy item_at
      (record busy_parts { current = other_item ∷ []; heaped = [] })
      (try_read env (λ d. d) busy 60)
try_read-pending_example =
    try_read-pending env env-IsEnv busy-Shows (λ d. d) 60 item_at (other_item ∷ []) [] (inr refl)
      item_at-IsItem refl refl

-- The pending buffer is the current one.
abbrev reading : DoubleBuffer ℕ
reading = record busy {
  current_buffer = some full;
  pending_heap = [];
  current_sequence = pos 2;
  read_mode = some (pos 0);
}

abbrev reading_parts : Parts
reading_parts = record busy_parts { current = two_items; heaped = [] }

empty-HeapHolds : HeapHolds env env-IsEnv 2 reading []
empty-HeapHolds = record {
  good = record { ordered = tt; indexed = tt };
  next = 2;
  order = [];
  same = Perm.nil;
  numbered = tt;
  current_at = refl;
  last_at = refl;
  from_one = omega arith;
  small = omega arith;
}

reading-Shows : Shows env env-IsEnv 2 reading reading_parts
reading-Shows = record {
  open_ = refl;
  sized = refl;
  positive = omega arith;
  small = omega arith;
  active_holds = full-Holds;
  active_mode = inl refl;
  passive_fresh = fresh_buffer-IsFresh;
  pool_fresh = tt;
  current_holds = (0, full-Holds, omega arith);
  heap_holds = empty-HeapHolds;
  unpublished_hold = tt;
}

-- The current buffer is used up and nothing is pending.
abbrev idle : DoubleBuffer ℕ
idle = record reading { current_buffer = some (fresh_buffer states 2) }

abbrev idle_parts : Parts
idle_parts = record reading_parts { current = [] }

new_double_buffer-Shows_example :
    (d : DoubleBuffer ℕ) × (new_double_buffer env (pos 2) 60 ≡ ok d)
    × Shows env env-IsEnv 2 d nothing
new_double_buffer-Shows_example =
    new_double_buffer-Shows env env-IsEnv 2 60 (omega arith) (omega arith)

-- One switched buffer waits for its goroutine behind the pending one.
abbrev waiting : DoubleBuffer ℕ
waiting = record busy { publishing = full ∷ [] }

abbrev waiting_parts : Parts
waiting_parts = record busy_parts { unpublished = two_items ∷ [] }

waiting-Shows : Shows env env-IsEnv 2 waiting waiting_parts
waiting-Shows = record {
  open_ = refl;
  sized = refl;
  positive = omega arith;
  small = omega arith;
  active_holds = full-Holds;
  active_mode = inl refl;
  passive_fresh = fresh_buffer-IsFresh;
  pool_fresh = tt;
  current_holds = refl;
  heap_holds = keep_heap env env-IsEnv busy-HeapHolds refl refl refl;
  unpublished_hold = (full-Holds, tt);
}

publish_first-Shows_example :
    Shows env env-IsEnv 2
      (publish env waiting 0)
      (record busy_parts { heaped = two_items ∷ two_items ∷ [] })
    × (contents (record busy_parts { heaped = two_items ∷ two_items ∷ [] })
        ≡ contents waiting_parts)
publish_first-Shows_example =
    publish_first-Shows env env-IsEnv waiting-Shows two_items [] 1 refl refl (omega arith)

switch_channel-Shows_example :
    (d' : DoubleBuffer ℕ) × (q : Parts) × (switch_channel env busy 60 ≡ ok d')
    × Shows env env-IsEnv 2 d' q
    × (contents q ≡ contents busy_parts)
    × (q.unpublished ≡ two_items ∷ [])
    × (q.active ≡ [])
    × (memory d' ≡ memory busy)
switch_channel-Shows_example = switch_channel-Shows env env-IsEnv busy-Shows 60

-- Two switched buffers wait for their goroutines.
abbrev racing : DoubleBuffer ℕ
racing = record busy { publishing = full ∷ busy.passive ∷ [] }

publish-publish_example :
    Perm
      (entries (publish env (publish env racing 1) 0).pending_heap)
      ((pos 3, full) ∷ (pos 2, busy.passive) ∷ entries busy.pending_heap)
publish-publish_example =
    publish-publish env env-IsEnv racing 1 full busy.passive [] busy-HeapHolds.good refl refl
      (omega arith)

two_items-filled : two_items ≢ []
two_items-filled e = grind (arith, e)

-- A full buffer is switched.
abbrev monitor : Monitor
monitor = record {
  sw = size_only_strategy;
  time_threshold = pos 10;
  notices = 1;
  configured = pos 20;
}

tick-Shows_example :
    (d' : DoubleBuffer ℕ) × (q : Parts) × ((tick env busy monitor 60).1 ≡ ok d')
    × Shows env env-IsEnv 2 d' q
    × (contents q ≡ contents busy_parts)
    × (d'.store ≡ busy.store)
    × ((tick env busy monitor 60).0.time_threshold ≡ pos 20)
    × ((tick env busy monitor 60).0.notices ≡ 0)
    × ((says env busy monitor 60 ≡ true) × (q.active ≡ []) × (q.unpublished ≡ two_items ∷ [])
        ⊎ (says env busy monitor 60 ≡ false) × (d' ≡ busy))
tick-Shows_example = tick-Shows env env-IsEnv busy-Shows monitor 60

close-Shows_example :
    (e : DoubleBuffer ℕ) × (close env busy ≡ ok e)
    × (e.pending_heap ≡ [])
    × (e.stopped ≡ true)
    × Perm e.pool (full ∷ fresh_buffer states 2 ∷ full ∷ [])
    × ((ptr len_ : ℕ) (now : ℕ) → write env e ptr len_ now ≡ (e, err Outside.buffer_closed))
    × (close env e ≡ ok e)
close-Shows_example = close-Shows env env-IsEnv busy-Shows refl
