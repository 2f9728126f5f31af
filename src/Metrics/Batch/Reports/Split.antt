-- ===== src/Metrics/Batch/Reports/Split.antt =====
-- A total is split between what was reported and what is still counted.
use turbo_stream.Prelude.{ℕ, ◌+◌, ◌≤◌, ◌<◌, ◌^◌, ◌≡◌, refl, sym, ap, ◌∙◌, arith}
use turbo_stream.Prelude.Int.{ℤ, pos, pos_part, half64, add_int64}
use turbo_stream.Metrics.{Floats, IsExact}

-- The exported value and the counter add up to the total, which is at most s.
pub record Split {F : Type 0} (f : Floats F) (s : ℕ) (value : F) (counter : ℤ) (total : ℕ)
    : Type 0 where
  pub reported : ℕ
  pub counted : ℕ
  pub value_at : value ≡ f.of_int (pos reported)
  pub counter_at : counter ≡ pos counted
  pub sums : reported + counted ≡ total
  pub bound : total ≤ s

module _ {F : Type 0} (f : Floats F) {s : ℕ} {value : F} {counter : ℤ} {total : ℕ}
    (h : Split f s value counter total) where
  pub Split-keep : (w : ℕ) → Split f (s + w) value counter total
  Split-keep w = record {
    reported = h.reported;
    counted = h.counted;
    value_at = h.value_at;
    counter_at = h.counter_at;
    sums = h.sums;
    bound = omega (arith, h.bound);
  }

  add_small : (n c : ℕ) → n + c < half64 → add_int64 (pos c) (pos n) ≡ pos (c + n)
  unfolding add_int64
  add_small n c h = ground arith

  pub Split-raise :
      (w n : ℕ)
      → n ≤ w
      → s + w < 2 ^ 53
      → Split f (s + w) value (add_int64 counter (pos n)) (total + n)
  Split-raise w n le room = record {
    reported = h.reported;
    counted = h.counted + n;
    value_at = h.value_at;
    counter_at =
        ap (λ (z : ℤ). add_int64 z (pos n)) h.counter_at
        ∙ add_small n h.counted (omega (arith, h.sums, h.bound, room));
    sums = omega (arith, h.sums);
    bound = omega (arith, h.bound);
  }

  -- The counter is added to the exported value and reset.
  pub Split-report :
      IsExact f
      → (w : ℕ) (after : F) → s < 2 ^ 53
      → after ≡ f.add value (f.of_int (pos h.counted))
      → Split f (s + w) after (pos 0) total
  Split-report exact w after room e = record {
    reported = h.reported + h.counted;
    counted = 0;
    value_at =
        e
        ∙ ap (λ (x : F). f.add x (f.of_int (pos h.counted))) h.value_at
        ∙ exact.add_int h.reported h.counted (omega (arith, h.sums, h.bound));
    counter_at = refl;
    sums = omega (arith, h.sums);
    bound = omega (arith, h.bound);
  }

  -- Where nothing is counted, the total is exported.
  pub Split-done : counter ≡ pos 0 → value ≡ f.of_int (pos total)
  Split-done e =
      h.value_at
      ∙ ap (λ (n : ℕ). f.of_int (pos n)) {x = h.reported}
          (omega (arith, h.sums, ap pos_part (sym e ∙ h.counter_at)))
