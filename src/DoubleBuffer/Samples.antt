-- ===== src/DoubleBuffer/Samples.antt =====
-- Sample constants, pools and clock for the double buffer's tests: both pools give what was put last.
use turbo_stream.Prelude.{ℕ, ◌≡◌, ◌≢◌, ap, arith, true, Option, none, some, List, [], ◌∷◌, ◌++◌}
use turbo_stream.Prelude.Int.{pos, pos_part, sub_ℕ}
use turbo_stream.Samples.{states, states-AreDistinct}
use turbo_stream.WrapHeap.Selection.{selection, selection-IsHeapPackage}
use turbo_stream.DoubleBuffer.{Env}
use turbo_stream.DoubleBuffer.View.{IsEnv}

abbrev pub first_of {ℓ} : {A : Type ℓ} → List A → Option (A × List A)
first_of [] = none
first_of (x ∷ xs) = some (x, xs)

abbrev pub env : Env ℕ
env = record {
  states = states;
  safe_read = pos 0;
  zero_copy_read = pos 1;
  valid_mode = λ m. true;
  heap = selection;
  get_buffer = first_of;
  get_bytes = first_of;
  since = λ now t. sub_ℕ now t;
}

pub first_of-takes {ℓ} :
    {A : Type ℓ} (xs rest : List A) (b : A)
    → first_of xs ≡ some (b, rest)
    → (before : List A) × (after : List A) × (xs ≡ before ++ b ∷ after) × (rest ≡ before ++ after)
first_of-takes [] rest b e = absurd (cc)
first_of-takes (x ∷ xs) rest b e = ([], xs, ground (arith, e), ground (arith, e))

pub modes_differ : pos 0 ≢ pos 1
modes_differ e = omega (arith, ap pos_part e)

abbrev pub env-IsEnv : IsEnv env
env-IsEnv = record {
  distinct = states-AreDistinct;
  modes = modes_differ;
  heap_law = selection-IsHeapPackage;
  pool_law = first_of-takes;
  bytes_law = first_of-takes;
}
