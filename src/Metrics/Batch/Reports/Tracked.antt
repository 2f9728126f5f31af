-- ===== src/Metrics/Batch/Reports/Tracked.antt =====
-- A report adds what is counted to what Prometheus exports, and counts from 0 again.
use turbo_stream.Prelude.{ℕ, ◌+◌, ◌≤◌, ◌<◌, ◌^◌, ◌≡◌, refl, sym, ap, subst, ◌∙◌, arith, true}
use turbo_stream.Prelude.Int.{pos}
use turbo_stream.Outside.{ok}
use turbo_stream.Metrics.{Codes, AreApart, Floats, IsExact, Collector}
use turbo_stream.Metrics.Prometheus.{Client, IsClient, Prometheus, prometheus_collector}
use turbo_stream.Metrics.Batch.{
  Write, Read, Supporting, BatchCollector, reset_write, reset_read, reset_supporting, report_to,
  report,
}
use turbo_stream.Metrics.Batch.Totals.{Totals}
use turbo_stream.Metrics.Batch.Reports.Split.{Split, Split-report}
use turbo_stream.Metrics.Batch.Reports.Stages.{Exported, exported, add_report, report_to-Stage}

write_at :
    (w : Write) (a b c : ℕ)
    → w.write_counts ≡ pos a
    → w.write_sizes ≡ pos b
    → w.write_errors ≡ pos c
    → w ≡ record w { write_counts = pos a; write_sizes = pos b; write_errors = pos c }
write_at w a b c e1 e2 e3 = rw (← e1, ← e2, ← e3)

read_at :
    (r : Read) (a b c : ℕ)
    → r.read_counts ≡ pos a
    → r.read_sizes ≡ pos b
    → r.read_errors ≡ pos c
    → r ≡ record { read_counts = pos a; read_sizes = pos b; read_errors = pos c }
read_at r a b c e1 e2 e3 = rw (← e1, ← e2, ← e3)

supporting_at :
    (sp : Supporting) (a b : ℕ)
    → sp.pool_alloc ≡ pos a
    → sp.switch_counts ≡ pos b
    → sp ≡ record sp { pool_alloc = pos a; switch_counts = pos b }
supporting_at sp a b e1 e2 = rw (← e1, ← e2)

module _ {M F : Type 0} (k : Codes) (f : Floats F) (c : Collector M F) where
  report_to-same :
      (mc : M) {w w' : Write} {r r' : Read} {sp sp' : Supporting}
      → w ≡ w'
      → r ≡ r'
      → sp ≡ sp'
      → report_to k f c mc w r sp ≡ report_to k f c mc w' r' sp'
  report_to-same mc e1 e2 e3 = rw (e1, e2, e3)

  report-ok :
      (b : BatchCollector M) (m : M)
      → report_to k f c b.mc b.w b.r b.sp ≡ ok m
      → report k f c b
        ≡ ok (record b { w = reset_write; r = reset_read; sp = reset_supporting; mc = m })
  unfolding report
  report-ok b m e = rw (e, report)

-- Each total is exported or still counted, and the count of skips is that of the reports.
pub record IsTracked {F : Type 0} (f : Floats F) (s : ℕ) (t : Totals) (x : Exported F) (w : Write)
    (r : Read) (sp : Supporting) : Type 0 where
  pub on : x.on ≡ true
  pub writes : Split f s x.writes w.write_counts t.writes
  pub write_bytes : Split f s x.write_bytes w.write_sizes t.write_bytes
  pub write_errors : Split f s x.write_errors w.write_errors t.write_errors
  pub reads : Split f s x.reads r.read_counts t.reads
  pub read_bytes : Split f s x.read_bytes r.read_sizes t.read_bytes
  pub read_errors : Split f s x.read_errors r.read_errors t.read_errors
  pub allocs : Split f s x.allocs sp.pool_alloc t.allocs
  pub switches : Split f s x.switches sp.switch_counts t.switches
  pub skips : x.skips ≡ f.of_int (pos t.flushes)
  pub flushes_bound : t.flushes ≤ s

module _ {F : Type 0} (f : Floats F) (exact : IsExact f) {s : ℕ} {t : Totals} {x : Exported F}
    {w : Write} {r : Read} {sp : Supporting} (h : IsTracked f s t x w r sp) where
  add_report-IsTracked :
      (k : Codes) (p : Client F) (law : IsClient f p)
      → s + 1 < 2 ^ 53
      → IsTracked f
          (s + 1)
          (record t { flushes = t.flushes + 1 })
          (add_report k f p law h.writes.counted h.write_bytes.counted h.write_errors.counted
            h.reads.counted h.read_bytes.counted h.read_errors.counted h.allocs.counted
            h.switches.counted x)
          reset_write
          reset_read
          reset_supporting
  add_report-IsTracked k p law room = record {
    on = h.on;
    writes = Split-report f h.writes exact 1 _ (omega (arith, room)) refl;
    write_bytes = Split-report f h.write_bytes exact 1 _ (omega (arith, room)) refl;
    write_errors = Split-report f h.write_errors exact 1 _ (omega (arith, room)) refl;
    reads = Split-report f h.reads exact 1 _ (omega (arith, room)) refl;
    read_bytes = Split-report f h.read_bytes exact 1 _ (omega (arith, room)) refl;
    read_errors = Split-report f h.read_errors exact 1 _ (omega (arith, room)) refl;
    allocs = Split-report f h.allocs exact 1 _ (omega (arith, room)) refl;
    switches = Split-report f h.switches exact 1 _ (omega (arith, room)) refl;
    skips =
        ap (λ (y : F). f.add y (f.of_int (pos 1))) h.skips
        ∙ exact.add_int t.flushes 1 (omega (arith, room, h.flushes_bound));
    flushes_bound = omega (arith, h.flushes_bound);
  }

module _ {F : Type 0} (k : Codes) (f : Floats F) (p : Client F) (law : IsClient f p) where
  abbrev pub Tracks : ℕ → Totals → BatchCollector (Prometheus p) → Type 0
  Tracks s t b = IsTracked f s t (exported k f p law b.mc) b.w b.r b.sp

  -- What a report leaves.
  pub record Reports (s : ℕ) (t : Totals) (b : BatchCollector (Prometheus p)) : Type 0 where
    pub after : BatchCollector (Prometheus p)
    pub returns : report k f (prometheus_collector k f p) b ≡ ok after
    pub tracked : Tracks (s + 1) (record t { flushes = t.flushes + 1 }) after
    pub cleared_w : after.w ≡ reset_write
    pub cleared_r : after.r ≡ reset_read
    pub cleared_sp : after.sp ≡ reset_supporting

  pub report-Reports :
      AreApart k
      → IsExact f
      → {s : ℕ} {t : Totals} (b : BatchCollector (Prometheus p)) → Tracks s t b
      → s + 1 < 2 ^ 53
      → Reports s t b
  report-Reports apart exact {s} {t} b h room =
      let st =
        report_to-Stage k f p law apart b.mc (exported k f p law b.mc) h.writes.counted
          h.write_bytes.counted h.write_errors.counted h.reads.counted h.read_bytes.counted
          h.read_errors.counted h.allocs.counted h.switches.counted b.w.active_channel_data_counts
          b.w.active_channel_data_sizes b.sp.async_worker_inc_counts b.sp.async_worker_dec_counts
          b.sp.skip_switch_counts b.sp.switch_latency refl h.on in
      record {
        after = record b { w = reset_write; r = reset_read; sp = reset_supporting; mc = st.after };
        returns = report-ok k f (prometheus_collector k f p) b st.after (
            report_to-same k f (prometheus_collector k f p) b.mc
              (write_at b.w h.writes.counted h.write_bytes.counted h.write_errors.counted
                h.writes.counter_at h.write_bytes.counter_at h.write_errors.counter_at)
              (read_at b.r h.reads.counted h.read_bytes.counted h.read_errors.counted
                h.reads.counter_at h.read_bytes.counter_at h.read_errors.counter_at)
              (supporting_at b.sp h.allocs.counted h.switches.counted h.allocs.counter_at
                h.switches.counter_at)
            ∙ st.returns);
        tracked =
            subst
              (λ (x : Exported F).
                IsTracked f (s + 1) (record t { flushes = t.flushes + 1 }) x reset_write reset_read
                  reset_supporting)
              (sym st.exports) (add_report-IsTracked f exact h k p law room);
        cleared_w = refl;
        cleared_r = refl;
        cleared_sp = refl;
      }
