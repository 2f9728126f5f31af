-- ===== src/SmartBuffer/Ring.antt =====
-- The arithmetic of `calcPos`: the counters of a buffer start at -1, and the slot of the k-th use of
-- a counter.
use native.Mathlib.Nat.{mod-lt, mod-eq_of_lt, mod-eq-sub-mod, mod-add-mod}
use turbo_stream.Prelude.{ℕ, zero, suc, ◌+◌, ◌-◌, ◌%◌, ◌<◌, ◌≡◌, ◌≢◌, refl, ap, ◌∙◌, arith}
use turbo_stream.Prelude.Int.{ℤ, pos, negsuc, half32, add_int32}
use turbo_stream.SmartBuffer.{calc_pos}

-- The counter after k uses.
abbrev pub counter : ℕ → ℤ
counter zero = negsuc 0
counter (suc k) = pos k

-- The slot that the next use takes.
abbrev pub slot : ℕ → ℕ → ℕ
slot cap k = (k + cap - 1) % cap

pub add_int32-counter : (k : ℕ) → k < half32 → add_int32 (counter k) (pos 1) ≡ counter (suc k)
unfolding add_int32
add_int32-counter zero h = refl
add_int32-counter (suc k) h = ground arith

pub slot-lt : (cap k : ℕ) → 0 < cap → slot cap k < cap
slot-lt cap k h = mod-lt _ h

one-mod : (c : ℕ) → 1 % suc (suc c) ≡ 1
one-mod c = mod-eq_of_lt {n = 1} {m = suc (suc c)} (omega arith)

pub calc_pos-counter : (c k : ℕ) → calc_pos (pos (suc c)) (counter k) ≡ pos (slot (suc c) k)
unfolding calc_pos
calc_pos-counter zero zero = refl
calc_pos-counter (suc c) zero = rw (one-mod c) (ground arith)
calc_pos-counter c (suc k) = ground (
  arith,
  mod-lt k {m = suc c} (omega arith),
  mod-eq_of_lt {n = k % suc c} {m = suc c} (mod-lt k {m = suc c} (omega arith)),
  mod-eq-sub-mod {n = suc k + suc c - 1} {m = suc c} (omega arith),
)

-- Different uses that are less than one round apart take different slots.
mod-ne : (m n d : ℕ) → 0 < d → d < m → n % m ≢ (n + d) % m
mod-ne m n d h l e = grind (arith, mod-add-mod n m d, mod-lt)

pub slot-ne : (c k j : ℕ) → k < j → j < k + c → slot c k ≢ slot c j
slot-ne c k j h l e = mod-ne c (k + c - 1) (j - k) (omega arith) (omega arith) (e ∙ shift)
  where
    shift : (j + c - 1) % c ≡ (k + c - 1 + (j - k)) % c
    shift = ap (λ (n : ℕ). n % c) (omega arith)
