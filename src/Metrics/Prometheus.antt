-- ===== src/Metrics/Prometheus.antt =====
-- metrics/prometheus.go: the collector that exports to Prometheus. The client library is a
-- parameter: its metric types, what the code calls of them, and how a scrape reads them.
pub mod Register
use turbo_stream.Prelude.{Bool, true, false, if◌then◌else◌, ◌&&◌, ℕ, ◌≡◌}
use turbo_stream.Prelude.Int.{ℤ, pos, ◌==ℤ◌}
use turbo_stream.Outside.{Result, ok, panic}
use turbo_stream.Metrics.{Codes, Floats, Collector, ◌>>=◌}

-- `vec_add` is `With(Labels{"result": "success"}).Add`. The value of a metric is what it exports.
pub record Client (F : Type 0) : Type 1 where
  pub Counter : Type 0
  pub CounterVec : Type 0
  pub Gauge : Type 0
  pub Histogram : Type 0
  pub new_counter : Counter
  pub new_counter_vec : CounterVec
  pub new_gauge : Gauge
  pub new_histogram : Histogram
  pub counter_add : Counter → F → Result Counter
  pub counter_inc : Counter → Counter
  pub vec_add : CounterVec → F → Result CounterVec
  pub gauge_add : Gauge → F → Gauge
  pub gauge_set : Gauge → F → Gauge
  pub observe : Histogram → F → Histogram
  pub counter_value : Counter → F
  pub vec_value : CounterVec → F

-- The client's documentation: a counter starts at 0, `Add` of a value that is not negative adds it,
-- and `Inc` adds 1.
pub record IsClient {F : Type 0} (f : Floats F) (p : Client F) : Type 0 where
  pub new_counter_value : p.counter_value p.new_counter ≡ f.of_int (pos 0)
  pub new_vec_value : p.vec_value p.new_counter_vec ≡ f.of_int (pos 0)
  pub add_value :
      (c : p.Counter) (n : ℕ)
      → (c' : p.Counter) × (p.counter_add c (f.of_int (pos n)) ≡ ok c')
        × (p.counter_value c' ≡ f.add (p.counter_value c) (f.of_int (pos n)))
  pub inc_value :
      (c : p.Counter)
      → p.counter_value (p.counter_inc c) ≡ f.add (p.counter_value c) (f.of_int (pos 1))
  pub vec_add_value :
      (v : p.CounterVec) (n : ℕ)
      → (v' : p.CounterVec) × (p.vec_add v (f.of_int (pos n)) ≡ ok v')
        × (p.vec_value v' ≡ f.add (p.vec_value v) (f.of_int (pos n)))

pub record Prometheus {F : Type 0} (p : Client F) : Type 0 where
  pub enabled : Bool
  pub write_counter : p.CounterVec
  pub write_sizes : p.Counter
  pub write_errors : p.Counter
  pub read_counter : p.CounterVec
  pub read_sizes : p.Counter
  pub read_errors : p.Counter
  pub switch_counts : p.Counter
  pub switch_latency : p.Histogram
  pub skip_switch_counts : p.Counter
  pub active_channel_data_counts : p.Gauge
  pub active_channel_data_sizes : p.Gauge
  pub async_workers : p.Gauge
  pub pool_alloc : p.Counter

module _ {F : Type 0} (k : Codes) (f : Floats F) (p : Client F) where
  unfoldable pub collect_switcher : Prometheus p → Bool → Prometheus p
  collect_switcher m enable = record m { enabled = enable }

  unfoldable pub observe_write : Prometheus p → F → F → F → Result (Prometheus p)
  observe_write m counts bytes errors =
      if m.enabled
      then (p.vec_add m.write_counter counts >>= (λ v. p.counter_add m.write_sizes bytes >>= (λ s.
          p.counter_add m.write_errors errors
          >>= (λ e. ok (record m { write_counter = v; write_sizes = s; write_errors = e })))))
      else ok m

  unfoldable pub observe_read : Prometheus p → F → F → F → Result (Prometheus p)
  observe_read m counts bytes errors =
      if m.enabled
      then (p.vec_add m.read_counter counts >>= (λ v. p.counter_add m.read_sizes bytes >>= (λ s.
          p.counter_add m.read_errors errors
          >>= (λ e. ok (record m { read_counter = v; read_sizes = s; read_errors = e })))))
      else ok m

  unfoldable pub alloc_inc : Prometheus p → F → Result (Prometheus p)
  alloc_inc m delta =
      if m.enabled
      then p.counter_add m.pool_alloc delta >>= (λ c. ok (record m { pool_alloc = c }))
      else ok m

  unfoldable pub observe_async_goroutine : Prometheus p → ℤ → F → Result (Prometheus p)
  observe_async_goroutine m operation counts =
      if m.enabled
      then (if operation ==ℤ k.inc_op
          then ok (record m { async_workers = p.gauge_add m.async_workers counts })
          else ok (record m { async_workers = p.gauge_add m.async_workers (f.neg counts) }))
      else ok m

  unfoldable pub switch_with_latency : Prometheus p → ℤ → F → F → Result (Prometheus p)
  switch_with_latency m status counts mill_seconds =
      if m.enabled
      then (if status ==ℤ k.switch_success
          then p.counter_add m.switch_counts counts >>= (λ c. ok (record m {
            switch_counts = c;
            switch_latency = p.observe m.switch_latency mill_seconds;
          }))
          else if status ==ℤ k.switch_failure
          then ok m
          else if status ==ℤ k.switch_skip
          then ok (record m { skip_switch_counts = p.counter_inc m.skip_switch_counts })
          else ok m)
      else ok m

  -- The gauges are set to 0 first if there is nothing to add.
  unfoldable pub set_idle : Prometheus p → F → F → Prometheus p
  set_idle m counts size =
      if f.is_zero size && f.is_zero counts
      then record m {
        active_channel_data_counts = p.gauge_set m.active_channel_data_counts (f.of_int (pos 0));
        active_channel_data_sizes = p.gauge_set m.active_channel_data_sizes (f.of_int (pos 0));
      }
      else m

  unfoldable pub observe_active : Prometheus p → F → F → Result (Prometheus p)
  unfolding set_idle
  observe_active m counts size =
      if m.enabled
      then (let set = set_idle m counts size in
          ok (record set {
            active_channel_data_counts = p.gauge_add set.active_channel_data_counts counts;
            active_channel_data_sizes = p.gauge_add set.active_channel_data_sizes size;
          }))
      else ok m

  -- `Prometheus` as a `Collector`.
  abbrev pub prometheus_collector : Collector (Prometheus p) F
  prometheus_collector = record {
    collect_switcher = collect_switcher;
    observe_write = observe_write;
    observe_read = observe_read;
    alloc_inc = alloc_inc;
    observe_async_goroutine = observe_async_goroutine;
    switch_with_latency = switch_with_latency;
    observe_active = observe_active;
  }
