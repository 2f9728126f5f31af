-- ===== src/Metrics/Batch/Reports/Runs.antt =====
-- Runs of records and reports, from a new batch collector.
use turbo_stream.Prelude.{ℕ, ◌+◌, ◌<◌, ◌^◌, ◌≡◌, refl, ap, subst, ◌∙◌, arith, List, [], ◌∷◌}
use turbo_stream.Prelude.Int.{pos}
use turbo_stream.Outside.{Result, ok}
use turbo_stream.Metrics.{Codes, AreApart, Floats, IsExact, ◌>>=◌}
use turbo_stream.Metrics.Prometheus.{
  Client, IsClient, Prometheus, prometheus_collector, collect_switcher,
}
use turbo_stream.Metrics.Prometheus.Register.{fresh_prometheus}
use turbo_stream.Metrics.Batch.{
  Write, Read, Supporting, BatchCollector, new_batch_collector, report,
}
use turbo_stream.Metrics.Batch.Totals.{
  Event, Totals, no_totals, count_event, count_all, weight, weights, step, run,
}
use turbo_stream.Metrics.Batch.Reports.Split.{Split, Split-done}
use turbo_stream.Metrics.Batch.Reports.Tracked.{Tracks, report-Reports}
use turbo_stream.Metrics.Batch.Reports.Steps.{step-Goes}

module _ {F : Type 0} (k : Codes) (f : Floats F) (p : Client F) (law : IsClient f p)
    (apart : AreApart k) (exact : IsExact f) where
  -- A run goes through, and all that it adds is tracked.
  record RunsTo (s : ℕ) (t : Totals) (b : BatchCollector (Prometheus p)) (es : List Event)
      : Type 0 where
    last : BatchCollector (Prometheus p)
    returns : run k f (prometheus_collector k f p) b es ≡ ok last
    tracked : Tracks k f p law (s + weights es) (count_all t es) last

  run-cons :
      (b b' : BatchCollector (Prometheus p)) (e : Event) (es : List Event)
      → step k f (prometheus_collector k f p) b e ≡ ok b'
      → run k f (prometheus_collector k f p) b (e ∷ es) ≡ run k f (prometheus_collector k f p) b' es
  unfolding run
  run-cons b b' e es r =
      ap
        (λ (x : Result (BatchCollector (Prometheus p))).
          x >>= (λ y. run k f (prometheus_collector k f p) y es))
        r

  run-RunsTo :
      (es : List Event) {s : ℕ} {t : Totals} (b : BatchCollector (Prometheus p))
      → Tracks k f p law s t b
      → s + weights es < 2 ^ 53
      → RunsTo s t b es
  unfolding run
  run-RunsTo [] {s} {t} b h room = record {
    last = b;
    returns = refl;
    tracked = subst (λ (n : ℕ). Tracks k f p law n t b) {x = s} {y = s + 0} (omega arith) h;
  }
  run-RunsTo (e ∷ es) {s} {t} b h room =
      let g = step-Goes k f p law apart exact b e h (omega arith) in
      let r = run-RunsTo es g.after g.tracked (omega arith) in
      record {
        last = r.last;
        returns = run-cons b g.after e es g.returns ∙ r.returns;
        tracked =
            subst (λ (n : ℕ). Tracks k f p law n (count_all (count_event t e) es) r.last)
              {x = s + weight e + weights es} {y = s + (weight e + weights es)} (omega arith)
              r.tracked;
      }

  abbrev new_collector : BatchCollector (Prometheus p)
  new_collector = new_batch_collector k f (prometheus_collector k f p) (fresh_prometheus p)

  Split-new : (v : F) → v ≡ f.of_int (pos 0) → Split f 0 v (pos 0) 0
  Split-new v e = record {
    reported = 0;
    counted = 0;
    value_at = e;
    counter_at = refl;
    sums = omega arith;
    bound = omega arith;
  }

  new_collector-Tracks : Tracks k f p law 0 no_totals new_collector
  unfolding new_batch_collector collect_switcher
  new_collector-Tracks = record {
    on = refl;
    writes = Split-new _ law.new_vec_value;
    write_bytes = Split-new _ law.new_counter_value;
    write_errors = Split-new _ law.new_counter_value;
    reads = Split-new _ law.new_vec_value;
    read_bytes = Split-new _ law.new_counter_value;
    read_errors = Split-new _ law.new_counter_value;
    allocs = Split-new _ law.new_counter_value;
    switches = Split-new _ law.new_counter_value;
    skips = law.new_counter_value;
    flushes_bound = omega arith;
  }

  -- The counters that Prometheus exports, against the totals of a run.
  pub record Exports (t : Totals) (m : Prometheus p) : Type 0 where
    pub writes : p.vec_value m.write_counter ≡ f.of_int (pos t.writes)
    pub write_bytes : p.counter_value m.write_sizes ≡ f.of_int (pos t.write_bytes)
    pub write_errors : p.counter_value m.write_errors ≡ f.of_int (pos t.write_errors)
    pub reads : p.vec_value m.read_counter ≡ f.of_int (pos t.reads)
    pub read_bytes : p.counter_value m.read_sizes ≡ f.of_int (pos t.read_bytes)
    pub read_errors : p.counter_value m.read_errors ≡ f.of_int (pos t.read_errors)
    pub allocs : p.counter_value m.pool_alloc ≡ f.of_int (pos t.allocs)
    pub switches : p.counter_value m.switch_counts ≡ f.of_int (pos t.switches)

  -- After any run of records and reports from a new collector over a new Prometheus, of which all
  -- that it adds to the counters stays below 2^53, a report succeeds, and the counters of writes,
  -- reads, allocations and switches export the totals of the whole run, wherever it reported before.
  pub report-Exports :
      (es : List Event)
      → weights es + 1 < 2 ^ 53
      → (b : BatchCollector (Prometheus p)) × (b' : BatchCollector (Prometheus p)) × (run k f
            (prometheus_collector k f p)
            new_collector
            es
          ≡ ok b)
        × (report k f (prometheus_collector k f p) b ≡ ok b')
        × Exports (count_all no_totals es) b'.mc
  report-Exports es room =
      let r = run-RunsTo es new_collector new_collector-Tracks (omega arith) in
      let g = report-Reports k f p law apart exact r.last r.tracked (omega arith) in
      let h = g.tracked in
      (
        r.last,
        g.after,
        r.returns,
        g.returns,
        record {
          writes = Split-done f h.writes (ap (λ (x : Write). x.write_counts) g.cleared_w);
          write_bytes = Split-done f h.write_bytes (ap (λ (x : Write). x.write_sizes) g.cleared_w);
          write_errors =
              Split-done f h.write_errors (ap (λ (x : Write). x.write_errors) g.cleared_w);
          reads = Split-done f h.reads (ap (λ (x : Read). x.read_counts) g.cleared_r);
          read_bytes = Split-done f h.read_bytes (ap (λ (x : Read). x.read_sizes) g.cleared_r);
          read_errors = Split-done f h.read_errors (ap (λ (x : Read). x.read_errors) g.cleared_r);
          allocs = Split-done f h.allocs (ap (λ (x : Supporting). x.pool_alloc) g.cleared_sp);
          switches =
              Split-done f h.switches (ap (λ (x : Supporting). x.switch_counts) g.cleared_sp);
        },
      )

  -- After any run of records and reports from a new collector over a new Prometheus, of which all
  -- that it adds to the counters stays below 2^53, the counter of skipped switches exports how often
  -- the run reported, however many switches it skipped.
  pub run-skips :
      (es : List Event)
      → weights es < 2 ^ 53
      → (b : BatchCollector (Prometheus p)) × (run k f (prometheus_collector k f p) new_collector es
          ≡ ok b)
        × (p.counter_value b.mc.skip_switch_counts
            ≡ f.of_int (pos (count_all no_totals es).flushes))
  run-skips es room =
      let r = run-RunsTo es new_collector new_collector-Tracks (omega arith) in
      (r.last, r.returns, r.tracked.skips)
