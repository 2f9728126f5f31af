-- ===== src/Metrics/Batch/Reports/Stages.antt =====
-- What Prometheus exports after each call of a report.
use turbo_stream.Prelude.{ℕ, ◌≡◌, refl, ap, subst, ◌∙◌, Bool, true}
use turbo_stream.Prelude.Int.{ℤ, pos}
use turbo_stream.Outside.{Result, ok}
use turbo_stream.Metrics.{Codes, AreApart, Floats, ◌>>=◌}
use turbo_stream.Metrics.Prometheus.{
  Client, IsClient, Prometheus, observe_write, observe_read, alloc_inc, observe_async_goroutine,
  switch_with_latency, observe_active, prometheus_collector,
}
use turbo_stream.Metrics.Batch.{report_to}
use turbo_stream.Metrics.Batch.Reports.{
  observe_write-AddsThree, observe_read-AddsThree, alloc_inc-adds, switch_with_latency-success,
  switch_with_latency-skip, observe_async_goroutine-ok, observe_active-ok,
}

-- The values of the counters, and whether the collector is on.
pub record Exported (F : Type 0) : Type 0 where
  pub on : Bool
  pub writes : F
  pub write_bytes : F
  pub write_errors : F
  pub reads : F
  pub read_bytes : F
  pub read_errors : F
  pub allocs : F
  pub switches : F
  pub skips : F

module _ {F : Type 0} (k : Codes) (f : Floats F) (p : Client F) (law : IsClient f p) where
  abbrev pub exported : Prometheus p → Exported F
  exported m = record {
    on = m.enabled;
    writes = p.vec_value m.write_counter;
    write_bytes = p.counter_value m.write_sizes;
    write_errors = p.counter_value m.write_errors;
    reads = p.vec_value m.read_counter;
    read_bytes = p.counter_value m.read_sizes;
    read_errors = p.counter_value m.read_errors;
    allocs = p.counter_value m.pool_alloc;
    switches = p.counter_value m.switch_counts;
    skips = p.counter_value m.skip_switch_counts;
  }

  -- A call succeeded and left a collector that exports x.
  pub record Stage (r : Result (Prometheus p)) (x : Exported F) : Type 0 where
    pub after : Prometheus p
    pub returns : r ≡ ok after
    pub exports : exported after ≡ x

  bind-Stage :
      {r : Result (Prometheus p)} {g : Prometheus p → Result (Prometheus p)} {x y : Exported F}
      → Stage r x
      → ((m : Prometheus p) → exported m ≡ x → Stage (g m) y)
      → Stage (r >>= g) y
  bind-Stage {g} s next =
      let t = next s.after s.exports in
      record {
        after = t.after;
        returns = ap (λ (r : Result (Prometheus p)). r >>= g) s.returns ∙ t.returns;
        exports = t.exports;
      }

  -- A call from a collector that exports x, where what it exports then depends on that alone.
  from_exported :
      (m : Prometheus p) {x : Exported F} (r : Result (Prometheus p))
      (update : Exported F → Exported F)
      → exported m ≡ x
      → x.on ≡ true
      → (m.enabled ≡ true → Stage r (update (exported m)))
      → Stage r (update x)
  from_exported m r update q on s =
      subst (λ (y : Exported F). Stage r (update y)) q (s (ap (λ (y : Exported F). y.on) q ∙ on))

  abbrev pub add_writes : ℕ → ℕ → ℕ → Exported F → Exported F
  add_writes i j l x = record x {
    writes = f.add x.writes (f.of_int (pos i));
    write_bytes = f.add x.write_bytes (f.of_int (pos j));
    write_errors = f.add x.write_errors (f.of_int (pos l));
  }

  abbrev pub add_reads : ℕ → ℕ → ℕ → Exported F → Exported F
  add_reads i j l x = record x {
    reads = f.add x.reads (f.of_int (pos i));
    read_bytes = f.add x.read_bytes (f.of_int (pos j));
    read_errors = f.add x.read_errors (f.of_int (pos l));
  }

  abbrev pub add_allocs : ℕ → Exported F → Exported F
  add_allocs i x = record x { allocs = f.add x.allocs (f.of_int (pos i)) }

  abbrev pub add_switches : ℕ → Exported F → Exported F
  add_switches i x = record x { switches = f.add x.switches (f.of_int (pos i)) }

  abbrev pub add_skip : Exported F → Exported F
  add_skip x = record x { skips = f.add x.skips (f.of_int (pos 1)) }

  observe_write-Stage :
      (m : Prometheus p) (x : Exported F) (i j l : ℕ)
      → exported m ≡ x
      → x.on ≡ true
      → Stage
          (observe_write k f p m (f.of_int (pos i)) (f.of_int (pos j)) (f.of_int (pos l)))
          (add_writes i j l x)
  observe_write-Stage m x i j l q on = from_exported m _ (add_writes i j l) q on (λ e.
      let a = observe_write-AddsThree k f p law m e i j l in
      record {
        after = _;
        returns = a.returns;
        exports = rw (a.vec_at, a.sizes_at, a.errors_at) refl;
      })

  observe_read-Stage :
      (m : Prometheus p) (x : Exported F) (i j l : ℕ)
      → exported m ≡ x
      → x.on ≡ true
      → Stage
          (observe_read k f p m (f.of_int (pos i)) (f.of_int (pos j)) (f.of_int (pos l)))
          (add_reads i j l x)
  observe_read-Stage m x i j l q on = from_exported m _ (add_reads i j l) q on (λ e.
      let a = observe_read-AddsThree k f p law m e i j l in
      record {
        after = _;
        returns = a.returns;
        exports = rw (a.vec_at, a.sizes_at, a.errors_at) refl;
      })

  alloc_inc-Stage :
      (m : Prometheus p) (x : Exported F) (i : ℕ)
      → exported m ≡ x
      → x.on ≡ true
      → Stage (alloc_inc k f p m (f.of_int (pos i))) (add_allocs i x)
  alloc_inc-Stage m x i q on = from_exported m _ (add_allocs i) q on (λ e.
      let (c, r, h) = alloc_inc-adds k f p law m e i in
      record { after = _; returns = r; exports = rw h refl })

  success-Stage :
      (m : Prometheus p) (x : Exported F) (i : ℕ) (ms : F)
      → exported m ≡ x
      → x.on ≡ true
      → Stage
          (switch_with_latency k f p m k.switch_success (f.of_int (pos i)) ms)
          (add_switches i x)
  success-Stage m x i ms q on = from_exported m _ (add_switches i) q on (λ e.
      let (c, l, r, h) = switch_with_latency-success k f p law m e i ms in
      record { after = _; returns = r; exports = rw h refl })

  skip-Stage :
      AreApart k
      → (m : Prometheus p) (x : Exported F) (counts ms : F) → exported m ≡ x
      → x.on ≡ true
      → Stage (switch_with_latency k f p m k.switch_skip counts ms) (add_skip x)
  skip-Stage apart m x counts ms q on = from_exported m _ add_skip q on (λ e. record {
    after = _;
    returns = switch_with_latency-skip k f p law m e apart counts ms;
    exports = rw (law.inc_value m.skip_switch_counts) refl;
  })

  observe_async_goroutine-Stage :
      (m : Prometheus p) (x : Exported F) (op : ℤ) (y : F)
      → exported m ≡ x
      → x.on ≡ true
      → Stage (observe_async_goroutine k f p m op y) x
  observe_async_goroutine-Stage m x op y q on =
      from_exported m _ (λ z. z) q on
        (λ e.
          let (g, r) = observe_async_goroutine-ok k f p law m e op y in
          record { after = _; returns = r; exports = refl })

  observe_active-Stage :
      (m : Prometheus p) (x : Exported F) (y z : F)
      → exported m ≡ x
      → x.on ≡ true
      → Stage (observe_active k f p m y z) x
  observe_active-Stage m x y z q on =
      from_exported m _ (λ u. u) q on
        (λ e.
          let (g, h, r) = observe_active-ok k f p law m e y z in
          record { after = _; returns = r; exports = refl })

  -- What a report makes of what was exported.
  abbrev pub add_report : (a b c d e g i j : ℕ) → Exported F → Exported F
  add_report a b c d e g i j x =
      add_skip (add_switches j (add_allocs i (add_reads d e g (add_writes a b c x))))

  pub report_to-Stage :
      AreApart k
      → (m : Prometheus p) (x : Exported F) (a b c d e g i j : ℕ) (u v y z n l : ℤ) → exported m ≡ x
      → x.on ≡ true
      → Stage
          (report_to k f
            (prometheus_collector k f p)
            m
            (record {
              write_counts = pos a;
              write_sizes = pos b;
              write_errors = pos c;
              active_channel_data_counts = u;
              active_channel_data_sizes = v;
            })
            (record { read_counts = pos d; read_sizes = pos e; read_errors = pos g })
            (record {
              async_worker_inc_counts = y;
              async_worker_dec_counts = z;
              pool_alloc = pos i;
              switch_counts = pos j;
              switch_latency = l;
              skip_switch_counts = n;
            }))
          (add_report a b c d e g i j x)
  unfolding report_to
  report_to-Stage apart m x a b c d e g i j u v y z n l q on =
      bind-Stage
        (bind-Stage
          (bind-Stage
            (bind-Stage
              (bind-Stage
                (bind-Stage
                  (bind-Stage (observe_write-Stage m x a b c q on)
                    (λ m q. observe_active-Stage m _ (f.of_int u) (f.of_int v) q on))
                  (λ m q. observe_read-Stage m _ d e g q on))
                (λ m q. observe_async_goroutine-Stage m _ k.inc_op (f.of_int y) q on))
              (λ m q. observe_async_goroutine-Stage m _ k.dec_op (f.of_int z) q on))
            (λ m q. alloc_inc-Stage m _ i q on))
          (λ m q. success-Stage m _ j (f.of_int l) q on))
        (λ m q. skip-Stage apart m _ (f.of_int n) (f.of_int (pos 0)) q on)
