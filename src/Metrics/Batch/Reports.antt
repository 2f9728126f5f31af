-- ===== src/Metrics/Batch/Reports.antt =====
-- Nothing that is recorded is lost or reported twice: the batch collector over Prometheus.
pub mod Split
pub mod Stages
pub mod Tracked
pub mod Steps
pub mod Runs
use turbo_stream.Prelude.{
  ℕ, zero, suc, ◌+◌, ◌≤◌, ◌<◌, ◌^◌, ◌≡◌, ◌≢◌, refl, sym, ap, subst, ◌∙◌, arith, Bool, true, false,
  ◌&&◌, Bool-cases, List, [], ◌∷◌, inl, inr,
}
use turbo_stream.Prelude.Int.{ℤ, pos, add_int64, ==ℤ_of_eq, ==ℤ_of_ne, ◌==ℤ◌}
use turbo_stream.Outside.{Result, ok}
use turbo_stream.Metrics.{Codes, AreApart, Floats, IsExact, Collector, ◌>>=◌}
use turbo_stream.Metrics.Prometheus.{
  Client, IsClient, Prometheus, observe_write, observe_read, alloc_inc, observe_async_goroutine,
  switch_with_latency, observe_active, set_idle, prometheus_collector,
}
use turbo_stream.Metrics.Batch.{
  BatchCollector, reset_write, reset_read, reset_supporting, report_to, report,
}

module _ {F : Type 0} (k : Codes) (f : Floats F) (p : Client F) (law : IsClient f p)
    (m : Prometheus p) (on : m.enabled ≡ true) where
  -- A method succeeded, with these new metrics.
  pub record AddsThree (r : Result (Prometheus p)) (v : p.CounterVec) (s e : p.Counter)
      (set : p.CounterVec → p.Counter → p.Counter → Prometheus p) (i j l : ℕ) : Type 0 where
    pub vec : p.CounterVec
    pub sizes : p.Counter
    pub errors : p.Counter
    pub returns : r ≡ ok (set vec sizes errors)
    pub vec_at : p.vec_value vec ≡ f.add (p.vec_value v) (f.of_int (pos i))
    pub sizes_at : p.counter_value sizes ≡ f.add (p.counter_value s) (f.of_int (pos j))
    pub errors_at : p.counter_value errors ≡ f.add (p.counter_value e) (f.of_int (pos l))

  abbrev pub with_writes : p.CounterVec → p.Counter → p.Counter → Prometheus p
  with_writes v s e = record m { write_counter = v; write_sizes = s; write_errors = e }

  abbrev pub with_reads : p.CounterVec → p.Counter → p.Counter → Prometheus p
  with_reads v s e = record m { read_counter = v; read_sizes = s; read_errors = e }

  pub observe_write-AddsThree :
      (i j l : ℕ)
      → AddsThree
          (observe_write k f p m (f.of_int (pos i)) (f.of_int (pos j)) (f.of_int (pos l)))
          m.write_counter
          m.write_sizes
          m.write_errors
          with_writes
          i
          j
          l
  unfolding observe_write
  observe_write-AddsThree i j l =
      let (v, ev, hv) = law.vec_add_value m.write_counter i in
      let (s, es, hs) = law.add_value m.write_sizes j in
      let (e, ee, he) = law.add_value m.write_errors l in
      record {
        vec = v;
        sizes = s;
        errors = e;
        returns = rw (on, observe_write, ev, es, ee);
        vec_at = hv;
        sizes_at = hs;
        errors_at = he;
      }

  pub observe_read-AddsThree :
      (i j l : ℕ)
      → AddsThree
          (observe_read k f p m (f.of_int (pos i)) (f.of_int (pos j)) (f.of_int (pos l)))
          m.read_counter
          m.read_sizes
          m.read_errors
          with_reads
          i
          j
          l
  unfolding observe_read
  observe_read-AddsThree i j l =
      let (v, ev, hv) = law.vec_add_value m.read_counter i in
      let (s, es, hs) = law.add_value m.read_sizes j in
      let (e, ee, he) = law.add_value m.read_errors l in
      record {
        vec = v;
        sizes = s;
        errors = e;
        returns = rw (on, observe_read, ev, es, ee);
        vec_at = hv;
        sizes_at = hs;
        errors_at = he;
      }

  pub alloc_inc-adds :
      (i : ℕ)
      → (c : p.Counter) × (alloc_inc k f p m (f.of_int (pos i)) ≡ ok (record m { pool_alloc = c }))
        × (p.counter_value c ≡ f.add (p.counter_value m.pool_alloc) (f.of_int (pos i)))
  unfolding alloc_inc
  alloc_inc-adds i = let (c, e, h) = law.add_value m.pool_alloc i in (c, rw (on, alloc_inc, e), h)

  pub switch_with_latency-success :
      (i : ℕ) (ms : F)
      → (c : p.Counter) × (h : p.Histogram) × (switch_with_latency k f p m k.switch_success
            (f.of_int (pos i))
            ms
          ≡ ok (record m { switch_counts = c; switch_latency = h }))
        × (p.counter_value c ≡ f.add (p.counter_value m.switch_counts) (f.of_int (pos i)))
  unfolding switch_with_latency
  switch_with_latency-success i ms =
      let (c, e, h) = law.add_value m.switch_counts i in
      (
        c,
        p.observe m.switch_latency ms,
        rw (on, ==ℤ_of_eq k.switch_success k.switch_success refl, switch_with_latency, e),
        h,
      )

  pub switch_with_latency-skip :
      AreApart k
      → (counts ms : F)
      → switch_with_latency k f p m k.switch_skip counts ms
        ≡ ok (record m { skip_switch_counts = p.counter_inc m.skip_switch_counts })
  unfolding switch_with_latency
  switch_with_latency-skip apart counts ms = rw (
    on,
    ==ℤ_of_ne k.switch_skip k.switch_success (λ e. apart.success_ne_skip (sym e)),
    ==ℤ_of_ne k.switch_skip k.switch_failure (λ e. apart.failure_ne_skip (sym e)),
    ==ℤ_of_eq k.switch_skip k.switch_skip refl,
  )

  pub observe_async_goroutine-ok :
      (op : ℤ) (x : F)
      → (g : p.Gauge) × (observe_async_goroutine k f p m op x ≡ ok (record m { async_workers = g }))
  unfolding observe_async_goroutine
  observe_async_goroutine-ok op x = elim (Bool-cases (op ==ℤ k.inc_op)) [
    | inl e ↦ (p.gauge_add m.async_workers x, rw (on, e))
    | inr e ↦ (p.gauge_add m.async_workers (f.neg x), rw (on, e))
  ]

  pub observe_active-ok :
      (x y : F)
      → (g h : p.Gauge) × (observe_active k f p m x y
          ≡ ok (record m { active_channel_data_counts = g; active_channel_data_sizes = h }))
  unfolding observe_active set_idle
  observe_active-ok x y = elim (Bool-cases (f.is_zero y && f.is_zero x)) [
    | inl e ↦ (
      p.gauge_add (p.gauge_set m.active_channel_data_counts (f.of_int (pos 0))) x,
      p.gauge_add (p.gauge_set m.active_channel_data_sizes (f.of_int (pos 0))) y,
      rw (on, observe_active, set_idle, e) refl,
    )
    | inr e ↦ (
      p.gauge_add m.active_channel_data_counts x,
      p.gauge_add m.active_channel_data_sizes y,
      rw (on, observe_active, set_idle, e) refl,
    )
  ]
