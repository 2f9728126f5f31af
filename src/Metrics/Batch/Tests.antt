-- ===== src/Metrics/Batch/Tests.antt =====
-- metrics: the collectors over a client whose metrics are integers.
use turbo_stream.Prelude.{ℕ, ◌+◌, ◌≡◌, refl, ap, arith, List, [], ◌∷◌}
use turbo_stream.Prelude.Int.{ℤ, pos, negsuc, pos_part, ◌+ℤ◌, ◌-ℤ◌, leb_ℤ}
use turbo_stream.Outside.{Result, ok, panic}
use turbo_stream.Metrics.{Codes, AreApart, Floats, IsExact}
use turbo_stream.Metrics.Prometheus.{Client, IsClient, Prometheus, prometheus_collector}
use turbo_stream.Metrics.Prometheus.Register.{fresh_prometheus}
use turbo_stream.Metrics.Batch.{BatchCollector, new_batch_collector, report}
use turbo_stream.Metrics.Batch.Totals.{
  Event, wrote, write_failed, was_read, skipped, flushed, allocated, switched, count_all, no_totals,
  run,
}
use turbo_stream.Metrics.Batch.Reports.Runs.{Exports, report-Exports, run-skips}

abbrev codes : Codes
codes = record {
  switch_success = pos 0;
  switch_failure = pos 1;
  switch_skip = pos 2;
  inc_op = pos 0;
  dec_op = pos 1;
}

codes-AreApart : AreApart codes
codes-AreApart = record {
  success_ne_skip = λ e. omega (arith, ap pos_part e);
  success_ne_failure = λ e. omega (arith, ap pos_part e);
  failure_ne_skip = λ e. omega (arith, ap pos_part e);
  inc_ne_dec = λ e. omega (arith, ap pos_part e);
}

abbrev integers : Floats ℤ
integers = record {
  of_int = λ z. z;
  add = ◌+ℤ◌;
  neg = λ z. pos 0 -ℤ z;
  is_zero = λ z. leb_ℤ z (pos 0);
}

add-pos : (a b : ℕ) → pos a +ℤ pos b ≡ pos (a + b)
unfolding ◌+ℤ◌
add-pos a b = ground arith

integers-IsExact : IsExact integers
integers-IsExact = record { add_int = λ a b h. add-pos a b }

abbrev add_to : ℤ → ℤ → Result ℤ
add_to c (pos n) = ok (c +ℤ pos n)
add_to c (negsuc n) = panic

abbrev client : Client ℤ
client = record {
  Counter = ℤ;
  CounterVec = ℤ;
  Gauge = ℤ;
  Histogram = List ℤ;
  new_counter = pos 0;
  new_counter_vec = pos 0;
  new_gauge = pos 0;
  new_histogram = [];
  counter_add = add_to;
  counter_inc = λ c. c +ℤ pos 1;
  vec_add = add_to;
  gauge_add = ◌+ℤ◌;
  gauge_set = λ g x. x;
  observe = λ h x. x ∷ h;
  counter_value = λ c. c;
  vec_value = λ v. v;
}

client-IsClient : IsClient integers client
client-IsClient = record {
  new_counter_value = refl;
  new_vec_value = refl;
  add_value = λ c n. (c +ℤ pos n, refl, refl);
  inc_value = λ c. refl;
  vec_add_value = λ v n. (v +ℤ pos n, refl, refl);
}

abbrev events : List Event
events =
    wrote 10
    ∷ write_failed
    ∷ flushed
    ∷ was_read 2 30
    ∷ wrote 5
    ∷ flushed
    ∷ allocated
    ∷ switched 7
    ∷ []

abbrev start : BatchCollector (Prometheus client)
start =
    new_batch_collector codes integers (prometheus_collector codes integers client)
      (fresh_prometheus client)

report-Exports_example :
    (b : BatchCollector (Prometheus client)) × (b' : BatchCollector (Prometheus client)) × (run
        codes integers
        (prometheus_collector codes integers client)
        start
        events
      ≡ ok b)
    × (report codes integers (prometheus_collector codes integers client) b ≡ ok b')
    × Exports codes integers client client-IsClient codes-AreApart integers-IsExact
        (count_all no_totals events)
        b'.mc
report-Exports_example =
    report-Exports codes integers client client-IsClient codes-AreApart integers-IsExact events
      (omega arith)

-- One switch was skipped and two reports were made: the counter shows 2.
run-skips_example :
    (b : BatchCollector (Prometheus client)) × (run codes integers
        (prometheus_collector codes integers client)
        start
        (skipped ∷ flushed ∷ flushed ∷ [])
      ≡ ok b)
    × (b.mc.skip_switch_counts ≡ pos 2)
run-skips_example =
    run-skips codes integers client client-IsClient codes-AreApart integers-IsExact
      (skipped ∷ flushed ∷ flushed ∷ []) (omega arith)
