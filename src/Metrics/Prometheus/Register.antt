-- ===== src/Metrics/Prometheus/Register.antt =====
-- metrics/prometheus.go: `NewPrometheus` and `register`. The registry is the client library's.
use Prim.Native.String.{String}
use turbo_stream.Prelude.{false, List, [], ◌∷◌}
use turbo_stream.Outside.{Result, ok}
use turbo_stream.Metrics.{◌>>=◌}
use turbo_stream.Metrics.Prometheus.{Client, Prometheus}

-- `MustRegister` of a metric, by its namespace and its name.
pub record Registries : Type 1 where
  pub Registry : Type 0
  pub new_registry : Registry
  pub must_register : Registry → String → String → Result Registry

abbrev pub namespace : String
namespace = "turbo stream"

-- The names, in the order in which `register` registers them.
abbrev pub metric_names : List String
metric_names =
    "write_counts_total" ∷ "write_sizes_total" ∷ "write_errors_total" ∷ "read_counts_total"
    ∷ "read_metrics_sizes_total" ∷ "read_metrics_errors_total" ∷ "pool_alloc_total"
    ∷ "async_workers" ∷ "switch_counts_total" ∷ "active_channel_data_counts"
    ∷ "active_channel_data_sizes" ∷ "switch_latency" ∷ "skip_switch_counts_total" ∷ []

module _ {F : Type 0} (p : Client F) where
  -- `&Prometheus{}` once `register` has set each field to a new metric.
  abbrev pub fresh_prometheus : Prometheus p
  fresh_prometheus = record {
    enabled = false;
    write_counter = p.new_counter_vec;
    write_sizes = p.new_counter;
    write_errors = p.new_counter;
    read_counter = p.new_counter_vec;
    read_sizes = p.new_counter;
    read_errors = p.new_counter;
    switch_counts = p.new_counter;
    switch_latency = p.new_histogram;
    skip_switch_counts = p.new_counter;
    active_channel_data_counts = p.new_gauge;
    active_channel_data_sizes = p.new_gauge;
    async_workers = p.new_gauge;
    pool_alloc = p.new_counter;
  }

module _ {F : Type 0} (p : Client F) (g : Registries) where
  unfoldable pub register_all : g.Registry → List String → Result g.Registry
  register_all r [] = ok r
  register_all r (n ∷ ns) = g.must_register r namespace n >>= (λ r'. register_all r' ns)

  -- The collector and the registry that `NewPrometheus` stores in `mc` and `registry`.
  unfoldable pub new_prometheus : Result (Prometheus p × g.Registry)
  unfolding register_all
  new_prometheus = register_all g.new_registry metric_names >>= (λ r. ok (fresh_prometheus p, r))
