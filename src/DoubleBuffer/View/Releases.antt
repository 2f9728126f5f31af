-- ===== src/DoubleBuffer/View/Releases.antt =====
-- Releasing a chunk (chunk.go): what the closures that reads hand out do to the arrays and the view.
use turbo_stream.Prelude.{ℕ, ◌≡◌, arith, some, List, ◌++◌, Option-cases, inl, inr}
use turbo_stream.Prelude.Int.{ℤ}
use turbo_stream.DoubleBuffer.{Env, DoubleBuffer, DataChunk, Free, put_small, recycles, frees_big}
use turbo_stream.DoubleBuffer.Memory.{
  memory, holds, holds_free, Evolves, Evolves-refl, put_back-Evolves, eq-Evolves,
}
use turbo_stream.DoubleBuffer.Read.{release, run_free, recycle}
use turbo_stream.DoubleBuffer.View.Same.{IsSame}

module _ {T : Type 0} (env : Env T) (d : DoubleBuffer T) where
  recycle-IsSame : (ptr : ℕ) (size : ℤ) → IsSame d (recycle env d ptr size)
  unfolding recycle
  recycle-IsSame ptr size = ground arith

  memory-recycle : (ptr : ℕ) (size : ℤ) → memory (recycle env d ptr size) ≡ memory d
  unfolding recycle
  memory-recycle ptr size = ground arith

  run_free-IsSame : (f : Free) → IsSame d (run_free env d f)
  unfolding run_free
  run_free-IsSame (put_small b) = ground arith
  run_free-IsSame (recycles ptr size) = recycle-IsSame ptr size
  run_free-IsSame (frees_big ptr size) = ground arith

  run_free-Evolves :
      (f : Free) (held : List ℕ)
      → Evolves (memory d) (holds_free (some f) ++ held) (memory (run_free env d f)) held
  unfolding run_free
  run_free-Evolves (put_small b) held = put_back-Evolves (memory d) b held
  run_free-Evolves (recycles ptr size) held = eq-Evolves held (memory-recycle ptr size)
  run_free-Evolves (frees_big ptr size) held = Evolves-refl (memory d) held

  -- Releasing a chunk gives back the array that it holds, and changes nothing that shows.
  pub release-kept :
      (chunk : DataChunk) (held : List ℕ)
      → IsSame d (release env d chunk).0
        × Evolves (memory d) (holds chunk ++ held) (memory (release env d chunk).0) held
  unfolding release
  release-kept chunk held = elim (Option-cases chunk.free) [
    | inl e ↦ rw (e, release) (ground arith, Evolves-refl (memory d) held)
    | inr (f, e) ↦ rw (e, release) (run_free-IsSame f, run_free-Evolves f held)
  ]
