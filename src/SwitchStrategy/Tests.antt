-- ===== src/SwitchStrategy/Tests.antt =====
-- switch_strategy.go: strategies over a float64 that is a number of hundredths.
use native.Mathlib.Nat.{le-div_iff_mul-le, div-mul-le_self}
use turbo_stream.Prelude.{ℕ, suc, ◌+◌, ◌*◌, ◌/◌, ◌≤◌, ◌<◌, ◌≡◌, refl, arith, true, leb, inr}
use turbo_stream.Prelude.Int.{ℤ, pos, negsuc, pos_part, ◌≤ℤ◌, leb_ℤ, ltb_ℤ}
use turbo_stream.SwitchStrategy.{Weights, combined, default_at, default_strategy}
use turbo_stream.SwitchStrategy.Limits.{IsFloat, default_strategy_mono}

abbrev hundredths : Weights ℕ
hundredths = record {
  of_int = λ z. 100 * pos_part z;
  add = λ a b. a + b;
  mul = λ a b. a * b / 100;
  div = λ a b. 100 * a / b;
  ge = λ a b. leb b a;
  time_weight = 40;
  size_weight = 60;
  full_capacity = 85;
}

div_mono : (a b k : ℕ) → 0 < k → a ≤ b → a / k ≤ b / k
div_mono a b k h le = (le-div_iff_mul-le h).1 (omega (arith, div-mul-le_self a k, le))

of_int_mono : (a b : ℤ) → a ≤ℤ b → 100 * pos_part a ≤ 100 * pos_part b
of_int_mono (pos n) (pos m) h = omega arith
of_int_mono (pos n) (negsuc m) h = omega arith
of_int_mono (negsuc n) b h = omega arith

hundredths-IsFloat : IsFloat hundredths
hundredths-IsFloat = record {
  AtMost = λ a b. a ≤ b;
  IsFinite = λ a. Unit {0};
  of_int_finite = λ a h. tt;
  div_finite = λ a n h k. tt;
  time_finite = λ a h. tt;
  size_finite = λ a h. tt;
  of_int_mono = λ a b h k le. of_int_mono a b le;
  add_mono = λ a b c d fin h k. omega (arith, h, k);
  div_mono =
      λ a b n fin k h. div_mono (100 * a) (100 * b) (100 * suc n) (omega arith) (omega (arith, h));
  time_mono = λ a b fin h. omega (arith, h);
  size_mono = λ a b fin h. omega (arith, h);
  ge_mono = λ a b c h e. ground (arith, h, e);
}

-- A full sum at 97 of 100 items and 8 of 10 of the interval.
default_strategy_mono_example :
    (default_strategy hundredths).need_switch (pos 98) (pos 100) (pos 9) (pos 10) ≡ true
unfolding default_strategy default_at combined leb_ℤ ltb_ℤ
default_strategy_mono_example =
    default_strategy_mono hundredths hundredths-IsFloat (pos 97) (pos 98) (pos 8) (pos 9) 99 9
      (
        ((omega arith, omega arith), (omega arith, omega arith)),
        ((omega arith, omega arith), (omega arith, omega arith)),
      )
      (omega arith, omega arith) (omega arith) (omega arith) (inr refl)
