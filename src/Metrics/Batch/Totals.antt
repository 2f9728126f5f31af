-- ===== src/Metrics/Batch/Totals.antt =====
-- metrics/batch_collector.go: what callers record, as events, and the totals of a run of events.
use turbo_stream.Prelude.{ℕ, ◌+◌, true, false, List, [], ◌∷◌}
use turbo_stream.Prelude.Int.{pos}
use turbo_stream.Outside.{Result, ok}
use turbo_stream.Metrics.{Codes, Floats, Collector, ◌>>=◌}
use turbo_stream.Metrics.Batch.{
  BatchCollector, record_write, record_read, record_switch, observe_async_worker, record_pool_alloc,
  report,
}

pub data Event : Type 0 where
  wrote : ℕ → Event
  write_failed : Event
  was_read : ℕ → ℕ → Event
  read_failed : Event
  switched : ℕ → Event
  switch_failed : Event
  skipped : Event
  worker_started : Event
  worker_ended : Event
  allocated : Event
  flushed : Event

-- What happened so far.
pub record Totals : Type 0 where
  pub writes : ℕ
  pub write_bytes : ℕ
  pub write_errors : ℕ
  pub reads : ℕ
  pub read_bytes : ℕ
  pub read_errors : ℕ
  pub allocs : ℕ
  pub switches : ℕ
  pub flushes : ℕ

abbrev pub no_totals : Totals
no_totals = record {
  writes = 0;
  write_bytes = 0;
  write_errors = 0;
  reads = 0;
  read_bytes = 0;
  read_errors = 0;
  allocs = 0;
  switches = 0;
  flushes = 0;
}

abbrev pub count_event : Totals → Event → Totals
count_event t (wrote n) = record t { writes = t.writes + 1; write_bytes = t.write_bytes + n }
count_event t write_failed = record t { write_errors = t.write_errors + 1 }
count_event t (was_read c n) = record t { reads = t.reads + c; read_bytes = t.read_bytes + n }
count_event t read_failed = record t { read_errors = t.read_errors + 1 }
count_event t (switched l) = record t { switches = t.switches + 1 }
count_event t switch_failed = t
count_event t skipped = t
count_event t worker_started = t
count_event t worker_ended = t
count_event t allocated = record t { allocs = t.allocs + 1 }
count_event t flushed = record t { flushes = t.flushes + 1 }

abbrev pub count_all : Totals → List Event → Totals
count_all t [] = t
count_all t (e ∷ es) = count_all (count_event t e) es

-- A bound on how much an event raises any total.
abbrev pub weight : Event → ℕ
weight (wrote n) = n + 1
weight (was_read c n) = c + n
weight _ = 1

abbrev pub weights : List Event → ℕ
weights [] = 0
weights (e ∷ es) = weight e + weights es

module _ {M F : Type 0} (k : Codes) (f : Floats F) (c : Collector M F) where
  unfoldable pub step : BatchCollector M → Event → Result (BatchCollector M)
  step b (wrote n) = ok (record_write k f c b (pos n) false)
  step b write_failed = ok (record_write k f c b (pos 0) true)
  step b (was_read count n) = ok (record_read k f c b (pos count) (pos n) false)
  step b read_failed = ok (record_read k f c b (pos 0) (pos 0) true)
  step b (switched l) = ok (record_switch k f c b k.switch_success (pos l))
  step b switch_failed = ok (record_switch k f c b k.switch_failure (pos 0))
  step b skipped = ok (record_switch k f c b k.switch_skip (pos 0))
  step b worker_started = ok (observe_async_worker k f c b k.inc_op)
  step b worker_ended = ok (observe_async_worker k f c b k.dec_op)
  step b allocated = ok (record_pool_alloc k f c b)
  step b flushed = report k f c b

  unfoldable pub run : BatchCollector M → List Event → Result (BatchCollector M)
  unfolding step
  run b [] = ok b
  run b (e ∷ es) = step b e >>= (λ b'. run b' es)
