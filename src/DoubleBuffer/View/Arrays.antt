-- ===== src/DoubleBuffer/View/Arrays.antt =====
-- What the operations of the double buffer do to the arrays that it works on.
use turbo_stream.Prelude.{
  ℕ, ◌≡◌, refl, sym, subst, ltb, if◌then◌else◌, Bool-cases, Option-cases, none, some, inl, inr,
  List,
}
use turbo_stream.DoubleBuffer.{
  Env, ByteBuf, DoubleBuffer, get_small, make_bytes, initialize_buf_size,
}
use turbo_stream.DoubleBuffer.Memory.{memory, Takes, make-Takes, pool-Takes, Takes-trans}
use turbo_stream.DoubleBuffer.View.{IsEnv}

module _ {T : Type 0} (env : Env T) (law : IsEnv env) where
  abbrev IsTaken : DoubleBuffer T → DoubleBuffer T × ByteBuf → Type 0
  IsTaken d (e, b) = Takes (memory d) (memory e) b.addr

  make_bytes-Takes : (d : DoubleBuffer T) (n : ℕ) → IsTaken d (make_bytes env d n)
  unfolding make_bytes
  make_bytes-Takes d n = make-Takes (memory d)

  taken : DoubleBuffer T → ByteBuf → List ByteBuf → DoubleBuffer T × ByteBuf
  taken d b rest = (record d { small_pool = rest }, b)

  pooled-Takes :
      (d : DoubleBuffer T) (b : ByteBuf) (rest : List ByteBuf)
      → env.get_bytes d.small_pool ≡ some (b, rest)
      → IsTaken d (taken d b rest)
  unfolding taken
  pooled-Takes d b rest e =
      let (before, after, same, left) = law.bytes_law d.small_pool rest b e in
      subst (λ (bs : List ByteBuf). Takes (memory d) (record (memory d) { small_pool = bs }) b.addr)
        (sym left) (pool-Takes (memory d) before after b same)

  -- An array that is long enough, or else a new one.
  long_enough : ℕ → DoubleBuffer T × ByteBuf → DoubleBuffer T × ByteBuf
  long_enough n got = if ltb got.1.cap_ n then make_bytes env got.0 n else got

  long_enough-Takes :
      (d : DoubleBuffer T) (n : ℕ) (got : DoubleBuffer T × ByteBuf)
      → IsTaken d got
      → IsTaken d (long_enough n got)
  unfolding long_enough
  long_enough-Takes d n got t = elim (Bool-cases (ltb got.1.cap_ n)) [
    | inl e ↦ rw (e, long_enough) (Takes-trans t (make_bytes-Takes got.0 n))
    | inr e ↦ rw (e, long_enough) t
  ]

  get_small-pooled :
      (d : DoubleBuffer T) (n : ℕ) (b : ByteBuf) (rest : List ByteBuf)
      → env.get_bytes d.small_pool ≡ some (b, rest)
      → get_small env d n ≡ long_enough n (taken d b rest)
  unfolding get_small long_enough taken
  get_small-pooled d n b rest e = rw (e, get_small) refl

  get_small-made :
      (d : DoubleBuffer T) (n : ℕ)
      → env.get_bytes d.small_pool ≡ none
      → get_small env d n ≡ long_enough n (make_bytes env d initialize_buf_size)
  unfolding get_small long_enough
  get_small-made d n e = rw (e, get_small) refl

  -- `get_small` takes an array out of the pool or a new one.
  pub get_small-Takes : (d : DoubleBuffer T) (n : ℕ) → IsTaken d (get_small env d n)
  get_small-Takes d n = elim (Option-cases (env.get_bytes d.small_pool)) [
    | inl e ↦
        subst (IsTaken d) (sym (get_small-made d n e))
          (long_enough-Takes d n _ (make_bytes-Takes d initialize_buf_size))
    | inr ((b, rest), e) ↦
        subst (IsTaken d) (sym (get_small-pooled d n b rest e))
          (long_enough-Takes d n _ (pooled-Takes d b rest e))
  ]
