-- ===== src/Prelude/Int.antt =====
-- Go's signed integers: ℤ over the native numbers, the truncated remainder, and the wrap-around of
-- int32 and int64.
use turbo_stream.Prelude.{
  true, false, ◌≢◌, refl, ℕ, suc, ◌+◌, ◌-◌, ◌%◌, ◌^◌, ◌≤◌, ◌<◌, ◌≡◌, Bool, arith, ltb, leb, ◌==◌,
  ◌↔◌, if◌then◌else◌,
}

-- `negsuc n` is -(n + 1).
pub data ℤ : Type 0 where
  pos : ℕ → ℤ
  negsuc : ℕ → ℤ

abbrev pub pos_part : ℤ → ℕ
pos_part (pos n) = n
pos_part (negsuc n) = 0

abbrev pub neg_part : ℤ → ℕ
neg_part (pos n) = 0
neg_part (negsuc n) = suc n

-- a - b, as an integer.
abbrev pub sub_ℕ : ℕ → ℕ → ℤ
sub_ℕ a b = if leb b a then pos (a - b) else negsuc (b - a - 1)

infixl 65 ◌+ℤ◌ ◌-ℤ◌
infix 50 ◌≤ℤ◌ ◌==ℤ◌
unfoldable pub ◌+ℤ◌ : ℤ → ℤ → ℤ
a +ℤ b = sub_ℕ (pos_part a + pos_part b) (neg_part a + neg_part b)

unfoldable pub ◌-ℤ◌ : ℤ → ℤ → ℤ
a -ℤ b = sub_ℕ (pos_part a + neg_part b) (neg_part a + pos_part b)

abbrev pub ◌≤ℤ◌ : ℤ → ℤ → Type 0
a ≤ℤ b = pos_part a + neg_part b ≤ pos_part b + neg_part a

unfoldable pub ltb_ℤ : ℤ → ℤ → Bool
ltb_ℤ a b = ltb (pos_part a + neg_part b) (pos_part b + neg_part a)

unfoldable pub leb_ℤ : ℤ → ℤ → Bool
leb_ℤ a b = leb (pos_part a + neg_part b) (pos_part b + neg_part a)

unfoldable pub ◌==ℤ◌ : ℤ → ℤ → Bool
a ==ℤ b = pos_part a + neg_part b == pos_part b + neg_part a

-- `==` on integers decides equality.
pub ==ℤ_iff : (a b : ℤ) → ((a ==ℤ b) ≡ true) ↔ (a ≡ b)
unfolding ◌==ℤ◌
==ℤ_iff a b = ground arith

pub ==ℤ_of_eq : (a b : ℤ) → a ≡ b → (a ==ℤ b) ≡ true
==ℤ_of_eq a b e = (==ℤ_iff a b).1 e

pub ==ℤ_of_ne : (a b : ℤ) → a ≢ b → (a ==ℤ b) ≡ false
unfolding ◌==ℤ◌
==ℤ_of_ne a b h = ground arith

-- The tests at counters that are not negative.
pub leb_ℤ-pos : (a b : ℕ) → leb_ℤ (pos a) (pos b) ≡ leb a b
unfolding leb_ℤ
leb_ℤ-pos a b = ground arith

pub leb_ℤ_of_le : (a b : ℤ) → a ≤ℤ b → leb_ℤ a b ≡ true
unfolding leb_ℤ
leb_ℤ_of_le a b h = ground arith

pub leb_ℤ_of_gt : (a b : ℤ) → ¬ (a ≤ℤ b) → leb_ℤ a b ≡ false
unfolding leb_ℤ
leb_ℤ_of_gt a b h = ground arith

pub le_of_leb_ℤ : (a b : ℤ) → leb_ℤ a b ≡ true → a ≤ℤ b
unfolding leb_ℤ
le_of_leb_ℤ a b h = ground arith

-- Go's `a % b` for `0 < b`: the remainder has the sign of `a`.
unfoldable pub rem : ℤ → ℕ → ℤ
rem (pos n) b = pos (n % b)
rem (negsuc n) b = sub_ℕ 0 (suc n % b)

-- The value that a two's complement integer with `2 * half` values takes at `z`.
unfoldable pub wrap : ℕ → ℤ → ℤ
wrap half (pos n) =
    let w = n % (half + half) in if ltb w half then pos w else negsuc (half + half - 1 - w)
wrap half (negsuc n) =
    let w = n % (half + half) in if ltb w half then negsuc w else pos (half + half - 1 - w)

abbrev pub half32 : ℕ
half32 = 2 ^ 31

abbrev pub half64 : ℕ
half64 = 2 ^ 63

unfoldable pub add_int32 : ℤ → ℤ → ℤ
unfolding ◌+ℤ◌ wrap
add_int32 a b = wrap half32 (a +ℤ b)

unfoldable pub add_int64 : ℤ → ℤ → ℤ
unfolding ◌+ℤ◌ wrap
add_int64 a b = wrap half64 (a +ℤ b)

unfoldable pub sub_int64 : ℤ → ℤ → ℤ
unfolding ◌-ℤ◌ wrap
sub_int64 a b = wrap half64 (a -ℤ b)

-- Counting up does not wrap below the largest value.
pub add_int32-one : (n : ℕ) → n + 1 < half32 → add_int32 (pos n) (pos 1) ≡ pos (n + 1)
unfolding add_int32
add_int32-one n h = ground arith

pub add_int64-one : (n : ℕ) → n + 1 < half64 → add_int64 (pos n) (pos 1) ≡ pos (n + 1)
unfolding add_int64
add_int64-one n h = ground arith

-- Counting down does not wrap.
pub add_int32-neg_one : (n : ℕ) → n < half32 → add_int32 (pos (suc n)) (negsuc 0) ≡ pos n
unfolding add_int32
add_int32-neg_one n h = ground arith

pub wrap_example : add_int32 (pos (half32 - 1)) (pos 1) ≡ negsuc (half32 - 1)
unfolding add_int32
wrap_example = refl
