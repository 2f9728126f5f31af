-- ===== src/Metrics/Batch/Reports/Steps.antt =====
-- What each event of a run adds to the batch collector.
use turbo_stream.Prelude.{ℕ, ◌+◌, ◌<◌, ◌^◌, ◌≡◌, refl, sym, subst, arith, Bool-cases, inl, inr}
use turbo_stream.Prelude.Int.{ℤ, pos, add_int64, ==ℤ_of_eq, ==ℤ_of_ne, ◌==ℤ◌}
use turbo_stream.Outside.{ok}
use turbo_stream.Metrics.{Codes, AreApart, Floats, IsExact}
use turbo_stream.Metrics.Prometheus.{Client, IsClient, Prometheus, prometheus_collector}
use turbo_stream.Metrics.Batch.{
  Write, Read, Supporting, BatchCollector, record_write, record_read, record_switch,
  observe_async_worker, record_pool_alloc,
}
use turbo_stream.Metrics.Batch.Totals.{
  Event, wrote, write_failed, was_read, read_failed, switched, switch_failed, skipped,
  worker_started, worker_ended, allocated, flushed, Totals, count_event, weight, step,
}
use turbo_stream.Metrics.Batch.Reports.Split.{Split, Split-keep, Split-raise}
use turbo_stream.Metrics.Batch.Reports.Stages.{Exported}
use turbo_stream.Metrics.Batch.Reports.Tracked.{IsTracked, Tracks, report-Reports}

module _ {F : Type 0} (f : Floats F) {s : ℕ} {t : Totals} {x : Exported F} {w : Write} {r : Read}
    {sp : Supporting} (h : IsTracked f s t x w r sp) (n : ℕ) where
  on_writes :
      {w' : Write} {a b c : ℕ}
      → Split f (s + n) x.writes w'.write_counts a
      → Split f (s + n) x.write_bytes w'.write_sizes b
      → Split f (s + n) x.write_errors w'.write_errors c
      → IsTracked f (s + n) (record t { writes = a; write_bytes = b; write_errors = c }) x w' r sp
  on_writes h1 h2 h3 = record {
    on = h.on;
    writes = h1;
    write_bytes = h2;
    write_errors = h3;
    reads = Split-keep f h.reads n;
    read_bytes = Split-keep f h.read_bytes n;
    read_errors = Split-keep f h.read_errors n;
    allocs = Split-keep f h.allocs n;
    switches = Split-keep f h.switches n;
    skips = h.skips;
    flushes_bound = omega (arith, h.flushes_bound);
  }

  on_reads :
      {r' : Read} {a b c : ℕ}
      → Split f (s + n) x.reads r'.read_counts a
      → Split f (s + n) x.read_bytes r'.read_sizes b
      → Split f (s + n) x.read_errors r'.read_errors c
      → IsTracked f (s + n) (record t { reads = a; read_bytes = b; read_errors = c }) x w r' sp
  on_reads h1 h2 h3 = record {
    on = h.on;
    writes = Split-keep f h.writes n;
    write_bytes = Split-keep f h.write_bytes n;
    write_errors = Split-keep f h.write_errors n;
    reads = h1;
    read_bytes = h2;
    read_errors = h3;
    allocs = Split-keep f h.allocs n;
    switches = Split-keep f h.switches n;
    skips = h.skips;
    flushes_bound = omega (arith, h.flushes_bound);
  }

  on_supporting :
      {sp' : Supporting} {a b : ℕ}
      → Split f (s + n) x.allocs sp'.pool_alloc a
      → Split f (s + n) x.switches sp'.switch_counts b
      → IsTracked f (s + n) (record t { allocs = a; switches = b }) x w r sp'
  on_supporting h1 h2 = record {
    on = h.on;
    writes = Split-keep f h.writes n;
    write_bytes = Split-keep f h.write_bytes n;
    write_errors = Split-keep f h.write_errors n;
    reads = Split-keep f h.reads n;
    read_bytes = Split-keep f h.read_bytes n;
    read_errors = Split-keep f h.read_errors n;
    allocs = h1;
    switches = h2;
    skips = h.skips;
    flushes_bound = omega (arith, h.flushes_bound);
  }

module _ {F : Type 0} (k : Codes) (f : Floats F) (p : Client F) (law : IsClient f p)
    (apart : AreApart k) (exact : IsExact f) where
  record_switch-success :
      (b : BatchCollector (Prometheus p)) (l : ℕ)
      → record_switch k f (prometheus_collector k f p) b k.switch_success (pos l) ≡ record b {
        sp = record b.sp {
          switch_counts = add_int64 b.sp.switch_counts (pos 1);
          switch_latency = pos l;
        };
      }
  unfolding record_switch
  record_switch-success b l = rw (
    ==ℤ_of_ne k.switch_success k.switch_skip apart.success_ne_skip,
    ==ℤ_of_eq k.switch_success k.switch_success refl,
  )

  record_switch-failure :
      (b : BatchCollector (Prometheus p))
      → record_switch k f (prometheus_collector k f p) b k.switch_failure (pos 0) ≡ b
  unfolding record_switch
  record_switch-failure b = rw (
    ==ℤ_of_ne k.switch_failure k.switch_skip apart.failure_ne_skip,
    ==ℤ_of_ne k.switch_failure k.switch_success (λ e. apart.success_ne_failure (sym e)),
  )

  record_switch-skip :
      (b : BatchCollector (Prometheus p))
      → record_switch k f (prometheus_collector k f p) b k.switch_skip (pos 0) ≡ record b {
        sp = record b.sp { skip_switch_counts = add_int64 b.sp.skip_switch_counts (pos 1) };
      }
  unfolding record_switch
  record_switch-skip b = rw (==ℤ_of_eq k.switch_skip k.switch_skip refl)

  -- It changes no counter that is tracked.
  observe_async_worker-same :
      (b : BatchCollector (Prometheus p)) (op : ℤ)
      → (sp : Supporting) × (observe_async_worker k f (prometheus_collector k f p) b op
          ≡ record b { sp = sp })
        × (sp.pool_alloc ≡ b.sp.pool_alloc)
        × (sp.switch_counts ≡ b.sp.switch_counts)
  unfolding observe_async_worker
  observe_async_worker-same b op = elim (Bool-cases (op ==ℤ k.inc_op)) [
    | inl e ↦ (
      record b.sp { async_worker_inc_counts = add_int64 b.sp.async_worker_inc_counts (pos 1) },
      rw e,
      refl,
      refl,
    )
    | inr e ↦ (
      record b.sp { async_worker_dec_counts = add_int64 b.sp.async_worker_dec_counts (pos 1) },
      rw e,
      refl,
      refl,
    )
  ]

  unchanged_by :
      {s : ℕ} {t : Totals} {x : Exported F} {w : Write} {r : Read} {sp : Supporting}
      → IsTracked f s t x w r sp
      → (sp' : Supporting) → sp'.pool_alloc ≡ sp.pool_alloc
      → sp'.switch_counts ≡ sp.switch_counts
      → IsTracked f (s + 1) t x w r sp'
  unchanged_by {s} {t} {x} h sp' h1 h2 =
      on_supporting f h 1
        (subst (λ (z : ℤ). Split f (s + 1) x.allocs z t.allocs) (sym h1) (Split-keep f h.allocs 1))
        (subst (λ (z : ℤ). Split f (s + 1) x.switches z t.switches) (sym h2)
          (Split-keep f h.switches 1))

  unchanged :
      {s : ℕ} {t : Totals} {x : Exported F} {w : Write} {r : Read} {sp : Supporting}
      → IsTracked f s t x w r sp
      → IsTracked f (s + 1) t x w r sp
  unchanged {sp} h = unchanged_by h sp refl refl

  -- An event goes through, and what it adds is tracked.
  pub record Goes (s : ℕ) (t : Totals) (b : BatchCollector (Prometheus p)) (e : Event)
      : Type 0 where
    pub after : BatchCollector (Prometheus p)
    pub returns : step k f (prometheus_collector k f p) b e ≡ ok after
    pub tracked : Tracks k f p law (s + weight e) (count_event t e) after

  pub step-Goes :
      {s : ℕ} {t : Totals} (b : BatchCollector (Prometheus p)) (e : Event)
      → Tracks k f p law s t b
      → s + weight e < 2 ^ 53
      → Goes s t b e
  unfolding step record_write record_read record_pool_alloc
  step-Goes b (wrote n) h room = record {
    after = _;
    returns = refl;
    tracked =
        on_writes f h (n + 1) (Split-raise f h.writes (n + 1) 1 (omega arith) room)
          (Split-raise f h.write_bytes (n + 1) n (omega arith) room)
          (Split-keep f h.write_errors (n + 1));
  }
  step-Goes b write_failed h room = record {
    after = _;
    returns = refl;
    tracked =
        on_writes f h 1 (Split-keep f h.writes 1) (Split-keep f h.write_bytes 1)
          (Split-raise f h.write_errors 1 1 (omega arith) room);
  }
  step-Goes b (was_read c n) h room = record {
    after = _;
    returns = refl;
    tracked =
        on_reads f h (c + n) (Split-raise f h.reads (c + n) c (omega arith) room)
          (Split-raise f h.read_bytes (c + n) n (omega arith) room)
          (Split-keep f h.read_errors (c + n));
  }
  step-Goes b read_failed h room = record {
    after = _;
    returns = refl;
    tracked =
        on_reads f h 1 (Split-keep f h.reads 1) (Split-keep f h.read_bytes 1)
          (Split-raise f h.read_errors 1 1 (omega arith) room);
  }
  step-Goes b allocated h room = record {
    after = _;
    returns = refl;
    tracked =
        on_supporting f h 1 (Split-raise f h.allocs 1 1 (omega arith) room)
          (Split-keep f h.switches 1);
  }
  step-Goes b flushed h room =
      let r = report-Reports k f p law apart exact b h room in
      record { after = r.after; returns = r.returns; tracked = r.tracked }
  step-Goes b (switched l) h room = record {
    after = record_switch k f (prometheus_collector k f p) b k.switch_success (pos l);
    returns = refl;
    tracked = subst (Tracks k f p law _ _) (sym (record_switch-success b l)) (
        on_supporting f h 1 (Split-keep f h.allocs 1)
          (Split-raise f h.switches 1 1 (omega arith) room));
  }
  step-Goes b switch_failed h room = record {
    after = record_switch k f (prometheus_collector k f p) b k.switch_failure (pos 0);
    returns = refl;
    tracked = subst (Tracks k f p law _ _) (sym (record_switch-failure b)) (unchanged h);
  }
  step-Goes b skipped h room = record {
    after = record_switch k f (prometheus_collector k f p) b k.switch_skip (pos 0);
    returns = refl;
    tracked =
        subst (Tracks k f p law _ _) (sym (record_switch-skip b)) (unchanged_by h _ refl refl);
  }
  step-Goes b worker_started h room = record {
    after = _;
    returns = refl;
    tracked =
        let (sp', e, h1, h2) = observe_async_worker-same b k.inc_op in
        subst (Tracks k f p law _ _) (sym e) (unchanged_by h sp' h1 h2);
  }
  step-Goes b worker_ended h room = record {
    after = _;
    returns = refl;
    tracked =
        let (sp', e, h1, h2) = observe_async_worker-same b k.dec_op in
        subst (Tracks k f p law _ _) (sym e) (unchanged_by h sp' h1 h2);
  }
