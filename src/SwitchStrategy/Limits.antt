-- ===== src/SwitchStrategy/Limits.antt =====
-- switch_strategy.go: a strategy that says to switch goes on saying so, and the default strategy
-- switches wherever one of the other two does.
use turbo_stream.Prelude.{
  ℕ, zero, suc, ◌≡◌, refl, sym, ap, ◌∙◌, ◌<◌, ◌≤◌, arith, true, if◌then◌else◌, ◌⊎◌, inl, inr,
}
use turbo_stream.Prelude.Int.{
  half64, pos_part, neg_part, ℤ, pos, negsuc, ltb_ℤ, leb_ℤ, ◌≤ℤ◌, leb_ℤ_of_le, le_of_leb_ℤ,
}
use turbo_stream.SwitchStrategy.{
  Weights, min_buffer_size, combined, default_at, default_strategy, size_only_strategy,
  time_window_only_strategy,
}

abbrev pub IsInt64 : ℤ → Type 0
IsInt64 z = (pos_part z < half64) × (neg_part z ≤ half64)

-- What IEEE 754 says of float64, where `AtMost` is its ≤, which no NaN is in: the conversion of an int64,
-- its quotient by a positive one and the products of finite values with the two weights, which are
-- between 0 and 1, are finite and, as a sum of finite values, do not reverse the order.
pub record IsFloat {F : Type 0} (f : Weights F) : Type 1 where
  pub AtMost : F → F → Type 0
  pub IsFinite : F → Type 0
  pub of_int_finite : (a : ℤ) → IsInt64 a → IsFinite (f.of_int a)
  pub div_finite :
      (a : F) (n : ℕ) → IsFinite a → suc n < half64 → IsFinite (f.div a (f.of_int (pos (suc n))))
  pub time_finite : (a : F) → IsFinite a → IsFinite (f.mul f.time_weight a)
  pub size_finite : (a : F) → IsFinite a → IsFinite (f.mul f.size_weight a)
  pub of_int_mono : (a b : ℤ) → IsInt64 a → IsInt64 b → a ≤ℤ b → AtMost (f.of_int a) (f.of_int b)
  pub add_mono :
      (a b c d : F)
      → (IsFinite a × IsFinite b) × (IsFinite c × IsFinite d)
      → AtMost a b
      → AtMost c d
      → AtMost (f.add a c) (f.add b d)
  pub div_mono :
      (a b : F) (n : ℕ)
      → IsFinite a × IsFinite b
      → suc n < half64
      → AtMost a b
      → AtMost (f.div a (f.of_int (pos (suc n)))) (f.div b (f.of_int (pos (suc n))))
  pub time_mono :
      (a b : F)
      → IsFinite a × IsFinite b
      → AtMost a b
      → AtMost (f.mul f.time_weight a) (f.mul f.time_weight b)
  pub size_mono :
      (a b : F)
      → IsFinite a × IsFinite b
      → AtMost a b
      → AtMost (f.mul f.size_weight a) (f.mul f.size_weight b)
  pub ge_mono : (a b c : F) → AtMost a b → f.ge a c ≡ true → f.ge b c ≡ true

leb_ℤ_mono : (a b c : ℤ) → b ≤ℤ c → leb_ℤ a b ≡ true → leb_ℤ a c ≡ true
leb_ℤ_mono a b c h e = leb_ℤ_of_le a c (omega (arith, h, le_of_leb_ℤ a b e))

-- A size below 1 counts as 1.
abbrev at_least_one : ℤ → ℤ
at_least_one size = if ltb_ℤ size min_buffer_size then min_buffer_size else size

at_least_one-suc :
    (size : ℤ)
    → pos_part size < half64
    → (n : ℕ) × (at_least_one size ≡ pos (suc n)) × (suc n < half64)
unfolding ltb_ℤ
at_least_one-suc (pos zero) h = (0, ground arith, omega arith)
at_least_one-suc (pos (suc n)) h = (n, ground arith, h)
at_least_one-suc (negsuc n) h = (0, ground arith, omega arith)

at_least_one-pos : (n : ℕ) → at_least_one (pos (suc n)) ≡ pos (suc n)
unfolding ltb_ℤ
at_least_one-pos n = ground arith

module _ {F : Type 0} (f : Weights F) where
  default_at-cases :
      (count size elapsed interval : ℤ)
      → default_at f count size elapsed interval ≡ true
      → (leb_ℤ size count ≡ true)
        ⊎ ((leb_ℤ interval elapsed ≡ true)
            ⊎ (f.ge (combined f count size elapsed interval) f.full_capacity ≡ true))
  unfolding default_at
  default_at-cases count size elapsed interval e = ground (arith, e)

  default_at-full :
      (count size elapsed interval : ℤ)
      → leb_ℤ size count ≡ true
      → default_at f count size elapsed interval ≡ true
  unfolding default_at
  default_at-full count size elapsed interval e = rw e refl

  default_at-late :
      (count size elapsed interval : ℤ)
      → leb_ℤ interval elapsed ≡ true
      → default_at f count size elapsed interval ≡ true
  unfolding default_at
  default_at-late count size elapsed interval e = ground (arith, e)

  default_at-heavy :
      (count size elapsed interval : ℤ)
      → f.ge (combined f count size elapsed interval) f.full_capacity ≡ true
      → default_at f count size elapsed interval ≡ true
  unfolding default_at
  default_at-heavy count size elapsed interval e = ground (arith, e)

  -- For a buffer of a size of 1 or more, the default strategy says to switch wherever the size-only or
  -- the time-window strategy does, whatever the weights are.
  default_strategy-covers :
      (count elapsed interval : ℤ) (n : ℕ)
      → (size_only_strategy.need_switch count (pos (suc n)) elapsed interval ≡ true)
        ⊎ (time_window_only_strategy.need_switch count (pos (suc n)) elapsed interval ≡ true)
      → (default_strategy f).need_switch count (pos (suc n)) elapsed interval ≡ true
  unfolding default_strategy size_only_strategy time_window_only_strategy
  default_strategy-covers count elapsed interval n (inl full) =
      ap (λ (z : ℤ). default_at f count z elapsed interval) (at_least_one-pos n)
      ∙ default_at-full count _ elapsed interval full
  default_strategy-covers count elapsed interval n (inr late) =
      ap (λ (z : ℤ). default_at f count z elapsed interval) (at_least_one-pos n)
      ∙ default_at-late count _ elapsed interval late

  module _ (law : IsFloat f) where
    -- A factor of the sum: an int64 by a positive one.
    factor :
        (a : ℤ) (n : ℕ)
        → IsInt64 a
        → suc n < half64
        → law.IsFinite (f.div (f.of_int a) (f.of_int (pos (suc n))))
    factor a n h k = law.div_finite _ n (law.of_int_finite a h) k

    factor_mono :
        (a b : ℤ) (n : ℕ)
        → IsInt64 a × IsInt64 b
        → suc n < half64
        → a ≤ℤ b
        → law.AtMost
            (f.div (f.of_int a) (f.of_int (pos (suc n))))
            (f.div (f.of_int b) (f.of_int (pos (suc n))))
    factor_mono a b n (h, k) l le =
        law.div_mono _ _ n (law.of_int_finite a h, law.of_int_finite b k) l
          (law.of_int_mono a b h k le)

    combined_mono :
        (count count' elapsed elapsed' : ℤ) (n m : ℕ)
        → (IsInt64 count × IsInt64 count') × (IsInt64 elapsed × IsInt64 elapsed')
        → (suc n < half64) × (suc m < half64)
        → count ≤ℤ count'
        → elapsed ≤ℤ elapsed'
        → law.AtMost
            (combined f count (pos (suc n)) elapsed (pos (suc m)))
            (combined f count' (pos (suc n)) elapsed' (pos (suc m)))
    unfolding combined
    combined_mono count count' elapsed elapsed' n m ((c, c'), (e, e')) (ln, lm) hc he =
        let t = factor elapsed m e lm in
        let t' = factor elapsed' m e' lm in
        let s = factor count n c ln in
        let s' = factor count' n c' ln in
        law.add_mono _ _ _ _
          ((law.time_finite _ t, law.time_finite _ t'), (law.size_finite _ s, law.size_finite _ s'))
          (law.time_mono _ _ (t, t') (factor_mono elapsed elapsed' m (e, e') lm he))
          (law.size_mono _ _ (s, s') (factor_mono count count' n (c, c') ln hc))

    default_at_mono :
        (count count' elapsed elapsed' : ℤ) (n m : ℕ)
        → (IsInt64 count × IsInt64 count') × (IsInt64 elapsed × IsInt64 elapsed')
        → (suc n < half64) × (suc m < half64)
        → count ≤ℤ count'
        → elapsed ≤ℤ elapsed'
        → default_at f count (pos (suc n)) elapsed (pos (suc m)) ≡ true
        → default_at f count' (pos (suc n)) elapsed' (pos (suc m)) ≡ true
    default_at_mono count count' elapsed elapsed' n m ranges limits hc he e =
        elim (default_at-cases count (pos (suc n)) elapsed (pos (suc m)) e) [
          | inl full ↦
              default_at-full count' _ elapsed' _ (leb_ℤ_mono (pos (suc n)) count count' hc full)
          | inr (inl late) ↦
              default_at-late count' _ elapsed' _
                (leb_ℤ_mono (pos (suc m)) elapsed elapsed' he late)
          | inr (inr heavy) ↦ default_at-heavy count' _ elapsed' _ (
              law.ge_mono _ _ _
                (combined_mono count count' elapsed elapsed' n m ranges limits hc he) heavy)
        ]

    default_strategy-later :
        (count count' size elapsed elapsed' : ℤ) (m : ℕ)
        → (IsInt64 count × IsInt64 count') × (IsInt64 elapsed × IsInt64 elapsed')
        → (pos_part size < half64) × (suc m < half64)
        → count ≤ℤ count'
        → elapsed ≤ℤ elapsed'
        → (default_strategy f).need_switch count size elapsed (pos (suc m)) ≡ true
        → (default_strategy f).need_switch count' size elapsed' (pos (suc m)) ≡ true
    unfolding default_strategy
    default_strategy-later count count' size elapsed elapsed' m ranges (hs, hm) hc he e =
        let (n, eq, hn) = at_least_one-suc size hs in
        ap (λ (z : ℤ). default_at f count' z elapsed' (pos (suc m))) eq
        ∙ default_at_mono count count' elapsed elapsed' n m ranges (hn, hm) hc he
            (sym (ap (λ (z : ℤ). default_at f count z elapsed (pos (suc m))) eq) ∙ e)

    -- For a buffer of a size of 1 or more, a positive interval and counts and times in the range of an
    -- int64: where any of the three strategies says to switch, the default strategy says so then, and with
    -- as many items or more and as late or later.
    pub default_strategy_mono :
        (count count' elapsed elapsed' : ℤ) (n m : ℕ)
        → (IsInt64 count × IsInt64 count') × (IsInt64 elapsed × IsInt64 elapsed')
        → (suc n < half64) × (suc m < half64)
        → count ≤ℤ count'
        → elapsed ≤ℤ elapsed'
        → ((size_only_strategy.need_switch count (pos (suc n)) elapsed (pos (suc m)) ≡ true)
            ⊎ (time_window_only_strategy.need_switch count (pos (suc n)) elapsed (pos (suc m))
                ≡ true))
          ⊎ ((default_strategy f).need_switch count (pos (suc n)) elapsed (pos (suc m)) ≡ true)
        → (default_strategy f).need_switch count' (pos (suc n)) elapsed' (pos (suc m)) ≡ true
    default_strategy_mono count count' elapsed elapsed' n m ranges limits hc he (inl one) =
        default_strategy-later count count' (pos (suc n)) elapsed elapsed' m ranges limits hc he
          (default_strategy-covers count elapsed (pos (suc m)) n one)
    default_strategy_mono count count' elapsed elapsed' n m ranges limits hc he (inr default) =
        default_strategy-later count count' (pos (suc n)) elapsed elapsed' m ranges limits hc he
          default
