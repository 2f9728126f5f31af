-- ===== src/Metrics/Batch.antt =====
-- metrics/batch_collector.go: counters that callers raise, and their report to the collector. Each
-- counter is one atomic int64, so a record that raises several is several steps: the model runs a
-- record as a whole.
pub mod Totals
pub mod Reports
mod Tests
use turbo_stream.Prelude.{ℕ, Bool, true, false, if◌then◌else◌, List, [], ◌∷◌}
use turbo_stream.Prelude.Int.{ℤ, pos, ◌==ℤ◌, add_int64}
use turbo_stream.Outside.{Result, ok, err, panic}
use turbo_stream.Workers.{Signal, work}
use turbo_stream.Metrics.{Codes, Floats, Collector, ◌>>=◌}

pub record Write : Type 0 where
  pub write_counts : ℤ
  pub write_sizes : ℤ
  pub write_errors : ℤ
  pub active_channel_data_counts : ℤ
  pub active_channel_data_sizes : ℤ

-- `Reset` stores 0 in each field, as the zero value has.
abbrev pub reset_write : Write
reset_write = record {
  write_counts = pos 0;
  write_sizes = pos 0;
  write_errors = pos 0;
  active_channel_data_counts = pos 0;
  active_channel_data_sizes = pos 0;
}

pub record Read : Type 0 where
  pub read_counts : ℤ
  pub read_sizes : ℤ
  pub read_errors : ℤ

abbrev pub reset_read : Read
reset_read = record { read_counts = pos 0; read_sizes = pos 0; read_errors = pos 0 }

pub record Supporting : Type 0 where
  pub async_worker_inc_counts : ℤ
  pub async_worker_dec_counts : ℤ
  pub pool_alloc : ℤ
  pub switch_counts : ℤ
  pub switch_latency : ℤ
  pub skip_switch_counts : ℤ

abbrev pub reset_supporting : Supporting
reset_supporting = record {
  async_worker_inc_counts = pos 0;
  async_worker_dec_counts = pos 0;
  pool_alloc = pos 0;
  switch_counts = pos 0;
  switch_latency = pos 0;
  skip_switch_counts = pos 0;
}

pub record BatchCollector (M : Type 0) : Type 0 where
  pub w : Write
  pub r : Read
  pub sp : Supporting
  pub mc : M
  pub sem_closed : Bool

module _ {M F : Type 0} (k : Codes) (f : Floats F) (c : Collector M F) where
  unfoldable pub new_batch_collector : M → BatchCollector M
  new_batch_collector mc = record {
    w = reset_write;
    r = reset_read;
    sp = reset_supporting;
    mc = c.collect_switcher mc true;
    sem_closed = false;
  }

  -- `failed` is whether the error is not nil.
  unfoldable pub record_write : BatchCollector M → ℤ → Bool → BatchCollector M
  record_write b size failed =
      if failed
      then record b { w = record b.w { write_errors = add_int64 b.w.write_errors (pos 1) } }
      else record b {
        w = record b.w {
          write_counts = add_int64 b.w.write_counts (pos 1);
          write_sizes = add_int64 b.w.write_sizes size;
          active_channel_data_counts = add_int64 b.w.active_channel_data_counts (pos 1);
          active_channel_data_sizes = add_int64 b.w.active_channel_data_sizes size;
        };
      }

  unfoldable pub record_read : BatchCollector M → ℤ → ℤ → Bool → BatchCollector M
  record_read b count size failed =
      if failed
      then record b { r = record b.r { read_errors = add_int64 b.r.read_errors (pos 1) } }
      else record b {
        r = record b.r {
          read_counts = add_int64 b.r.read_counts count;
          read_sizes = add_int64 b.r.read_sizes size;
        };
      }

  unfoldable pub record_switch : BatchCollector M → ℤ → ℤ → BatchCollector M
  record_switch b status latency_seconds =
      if status ==ℤ k.switch_skip
      then record b {
        sp = record b.sp { skip_switch_counts = add_int64 b.sp.skip_switch_counts (pos 1) };
      }
      else if status ==ℤ k.switch_success
      then record b {
        sp = record b.sp {
          switch_counts = add_int64 b.sp.switch_counts (pos 1);
          switch_latency = latency_seconds;
        };
      }
      else b

  unfoldable pub observe_async_worker : BatchCollector M → ℤ → BatchCollector M
  observe_async_worker b op =
      if op ==ℤ k.inc_op
      then record b {
        sp = record b.sp {
          async_worker_inc_counts = add_int64 b.sp.async_worker_inc_counts (pos 1);
        };
      }
      else record b {
        sp = record b.sp {
          async_worker_dec_counts = add_int64 b.sp.async_worker_dec_counts (pos 1);
        };
      }

  unfoldable pub record_pool_alloc : BatchCollector M → BatchCollector M
  record_pool_alloc b = record b {
    sp = record b.sp { pool_alloc = add_int64 b.sp.pool_alloc (pos 1) };
  }

  -- Closing a closed channel panics.
  unfoldable pub stop : BatchCollector M → Result (BatchCollector M)
  stop b = if b.sem_closed then panic else ok (record b { sem_closed = true })

  -- The calls that `report` makes of the collector, in its order, with the values that it loads.
  unfoldable pub report_to : M → Write → Read → Supporting → Result M
  report_to mc w r sp =
      c.observe_write mc (f.of_int w.write_counts) (f.of_int w.write_sizes)
        (f.of_int w.write_errors)
      >>= (λ m.
          c.observe_active m (f.of_int w.active_channel_data_counts)
            (f.of_int w.active_channel_data_sizes))
      >>= (λ m.
          c.observe_read m (f.of_int r.read_counts) (f.of_int r.read_sizes)
            (f.of_int r.read_errors))
      >>= (λ m. c.observe_async_goroutine m k.inc_op (f.of_int sp.async_worker_inc_counts))
      >>= (λ m. c.observe_async_goroutine m k.dec_op (f.of_int sp.async_worker_dec_counts))
      >>= (λ m. c.alloc_inc m (f.of_int sp.pool_alloc))
      >>= (λ m.
          c.switch_with_latency m k.switch_success (f.of_int sp.switch_counts)
            (f.of_int sp.switch_latency))
      >>= (λ m.
          c.switch_with_latency m k.switch_skip (f.of_int sp.skip_switch_counts) (f.of_int (pos 0)))

  -- `report`, with no record between a load and its reset.
  unfoldable pub report : BatchCollector M → Result (BatchCollector M)
  unfolding report_to
  report b =
      report_to b.mc b.w b.r b.sp
      >>= (λ mc. ok (record b { w = reset_write; r = reset_read; sp = reset_supporting; mc = mc }))

  unfoldable pub flush : BatchCollector M → Result (BatchCollector M)
  unfolding report
  flush b = report b

  -- `asyncWorker`, which `Start` starts. A tick comes with the records since the last one.
  abbrev pub at_tick :
      (BatchCollector M → BatchCollector M) → BatchCollector M → Result (BatchCollector M)
  at_tick others b = report (others b)

  unfoldable pub async_worker :
      BatchCollector M
      → List (Signal (BatchCollector M → BatchCollector M))
      → Result (BatchCollector M)
  unfolding work
  async_worker = work at_tick
