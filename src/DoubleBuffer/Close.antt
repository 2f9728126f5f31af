-- ===== src/DoubleBuffer/Close.antt =====
-- double_buffer.go: making a double buffer, and `Close`.
use turbo_stream.Prelude.{ℕ, zero, suc, true, false, if◌then◌else◌, none, some, [], ◌∷◌, length}
use turbo_stream.Prelude.Int.{ℤ, pos, ◌==ℤ◌}
use turbo_stream.Outside.{Result, ok, panic}
use turbo_stream.SmartBuffer.{SmartBuffer, new_smart_buffer}
use turbo_stream.WrapHeap
use turbo_stream.Waiters
use turbo_stream.DoubleBuffer.{Env, DoubleBuffer}

module _ {T : Type 0} (env : Env T) where
  -- The double buffer that `NewDoubleBuffer` fills in around its two buffers.
  abbrev pub opened : SmartBuffer → ℤ → T → DoubleBuffer T
  opened b size now = record {
    active = b;
    passive = b;
    current_buffer = none;
    stopped = false;
    size = size;
    count = pos 0;
    state = env.states.writing_state;
    last_switch = now;
    pool = [];
    sequence = pos 0;
    current_sequence = pos 1;
    pending_heap = WrapHeap.new_wrap_heap;
    read_mode = none;
    small_pool = [];
    medium_pool = [];
    big_data_pool = record { pool = []; current_size = pos 0; max_size = pos 0 };
    wm = Waiters.new_waiter_manager;
    publishing = [];
    notifying = [];
    store = [];
    next_addr = 1;
  }

  -- `NewDoubleBuffer` with no options: the two buffers come from the empty pool, after two that are
  -- made and dropped.
  unfoldable pub new_double_buffer : ℤ → T → Result (DoubleBuffer T)
  new_double_buffer size now = elim (new_smart_buffer env.states size) [
    | ok b ↦ ok (opened b size now)
    | _ ↦ panic
  ]

  -- `drainProcessor`, with as many rounds as there are items.
  unfoldable pub drain_processor : ℕ → DoubleBuffer T → Result (DoubleBuffer T)
  drain_processor zero d = ok d
  drain_processor (suc n) d = elim (WrapHeap.pick env.heap d.pending_heap) [
    | ok (rest, some item) ↦
        drain_processor n (record d { pending_heap = rest; pool = item.buf ∷ d.pool })
    | ok (rest, none) ↦ ok (record d { pending_heap = rest })
    | _ ↦ panic
  ]

  -- `Close`; both background goroutines end on the stop signal, which `wg.Wait` waits for.
  unfoldable pub close : DoubleBuffer T → Result (DoubleBuffer T)
  unfolding drain_processor
  close d =
      if d.state ==ℤ env.states.writing_state
      then if d.stopped
        then panic
        else drain_processor (length d.pending_heap) (record d {
          state = env.states.closed_state;
          stopped = true;
          pool = d.passive ∷ d.active ∷ d.pool;
        })
      else ok d
