-- ===== src/SmallPool/Sizes.antt =====
-- poolx/small_pool.go: the pool of one size. Its counter is the number of its buffers, which never
-- exceeds its limit.
use turbo_stream.Prelude.{
  ℕ, suc, ◌+◌, ◌≤◌, ◌<◌, ◌≡◌, ◌≢◌, refl, ap, subst, ◌∙◌, arith, List, [], ◌∷◌, ◌++◌, length,
  length-append, ℕ_discrete, dec_lt, ◌⊎◌, inl, inr,
}
use turbo_stream.Prelude.Int.{ℤ, pos, negsuc, half64, add_int64, add_int64-one, leb_ℤ}
use turbo_stream.Outside
use turbo_stream.Outside.{Result, ok, err}
use turbo_stream.DoubleBuffer.{ByteBuf}
use turbo_stream.SmallPool.{Atomics, IsAtomics, SizePool, new_size_pool, alloc_from, alloc, free}

abbrev pub AllOf : ℕ → List ByteBuf → Type 0
AllOf n [] = Unit {0}
AllOf n (b ∷ bs) = (b.cap_ ≡ n) × AllOf n bs

AllOf-append :
    (n : ℕ) (bs : List ByteBuf) (b : ByteBuf) → AllOf n bs → b.cap_ ≡ n → AllOf n (bs ++ b ∷ [])
AllOf-append n [] b h e = (e, tt)
AllOf-append n (x ∷ bs) b h e = (h.0, AllOf-append n bs b h.1 e)

pub record IsCounted {a : Atomics} (p : SizePool a) : Type 0 where
  pub counted : a.load p.count ≡ pos (length p.pool)
  pub bounded : length p.pool ≤ p.max
  pub small : p.max < half64
  pub fits : AllOf p.size p.pool

module _ (a : Atomics) (law : IsAtomics a) where
  pub new_size_pool-IsCounted : (size max : ℕ) → max < half64 → IsCounted (new_size_pool a size max)
  unfolding new_size_pool
  new_size_pool-IsCounted size max h = record {
    counted = law.load-new (pos 0);
    bounded = omega arith;
    small = h;
    fits = tt;
  }

  add_int64-neg_one : (n : ℕ) → n < half64 → add_int64 (pos (suc n)) (negsuc 0) ≡ pos n
  unfolding add_int64
  add_int64-neg_one n h = ground arith

  alloc_from-IsCounted :
      (fresh : ℕ) (p : SizePool a) (bs : List ByteBuf)
      → IsCounted p
      → p.pool ≡ bs
      → IsCounted (alloc_from a fresh p bs).0
        × ((alloc_from a fresh p bs).1.cap_ ≡ p.size)
        × ((alloc_from a fresh p bs).0.size ≡ p.size)
        × ((alloc_from a fresh p bs).0.max ≡ p.max)
  unfolding alloc_from
  alloc_from-IsCounted fresh p [] h e = (h, refl, refl, refl)
  alloc_from-IsCounted fresh p (b ∷ rest) h e =
      let all = subst (AllOf p.size) e h.fits in
      let long : length p.pool ≡ suc (length rest) = ap length e in
      (
        record {
          counted =
              law.load-add p.count (negsuc 0)
              ∙ ap (λ (z : ℤ). add_int64 z (negsuc 0)) (h.counted ∙ ap pos long)
              ∙ add_int64-neg_one (length rest) (omega (arith, long, h.bounded, h.small));
          bounded = omega (arith, long, h.bounded);
          small = h.small;
          fits = all.1;
        },
        all.0,
        refl,
        refl,
      )

  -- `Alloc` of a pool in order gives a buffer of the pool's size and leaves the pool in order.
  pub alloc-IsCounted :
      (fresh : ℕ) (p : SizePool a)
      → IsCounted p
      → IsCounted (alloc a fresh p).0
        × ((alloc a fresh p).1.cap_ ≡ p.size)
        × ((alloc a fresh p).0.size ≡ p.size)
        × ((alloc a fresh p).0.max ≡ p.max)
  unfolding alloc
  alloc-IsCounted fresh p h = alloc_from-IsCounted fresh p p.pool h refl

  kept : SizePool a → ByteBuf → SizePool a
  kept p buf = record p { pool = p.pool ++ buf ∷ []; count = a.add p.count (pos 1) }

  full_test :
      (p : SizePool a)
      → IsCounted p
      → leb_ℤ (pos p.max) (a.load p.count) ≡ leb_ℤ (pos p.max) (pos (length p.pool))
  full_test p h = ap (leb_ℤ (pos p.max)) h.counted

  free-room :
      (p : SizePool a) (buf : ByteBuf)
      → IsCounted p
      → buf.cap_ ≡ p.size
      → length p.pool < p.max
      → free a p buf ≡ (kept p buf, ok tt)
  unfolding free kept leb_ℤ
  free-room p buf h e room = ground (arith, h.counted)

  free-full :
      (p : SizePool a) (buf : ByteBuf)
      → IsCounted p
      → buf.cap_ ≡ p.size
      → p.max ≤ length p.pool
      → free a p buf ≡ (p, ok tt)
  unfolding free leb_ℤ
  free-full p buf h e full = ground (arith, h.counted)

  free-wrong :
      (p : SizePool a) (buf : ByteBuf)
      → buf.cap_ ≢ p.size
      → free a p buf ≡ (p, err Outside.buffer_size)
  unfolding free
  free-wrong p buf h = ground arith

  kept-IsCounted :
      (p : SizePool a) (buf : ByteBuf)
      → IsCounted p
      → buf.cap_ ≡ p.size
      → length p.pool < p.max
      → IsCounted (kept p buf)
  unfolding kept
  kept-IsCounted p buf h e room =
      let long = length-append p.pool (buf ∷ []) in
      record {
        counted =
            law.load-add p.count (pos 1)
            ∙ ap (λ (z : ℤ). add_int64 z (pos 1)) h.counted
            ∙ add_int64-one (length p.pool) (omega (arith, h.small))
            ∙ ap pos {x = length p.pool + 1} (omega (arith, long));
        bounded = omega (arith, long);
        small = h.small;
        fits = AllOf-append p.size p.pool buf h.fits e;
      }

  -- `Free` of any buffer leaves a pool whose counter is its number of buffers, at most its limit, so, with
  -- its size and its limit. It returns ErrBufferSize where the buffer has a wrong size, and no error where it has the pool's.
  pub free-IsCounted :
      (p : SizePool a) (buf : ByteBuf)
      → IsCounted p
      → IsCounted (free a p buf).0
        × ((free a p buf).0.size ≡ p.size)
        × ((free a p buf).0.max ≡ p.max)
        × ((buf.cap_ ≡ p.size) × ((free a p buf).1 ≡ ok tt)
            ⊎ ((buf.cap_ ≢ p.size) × ((free a p buf).1 ≡ err Outside.buffer_size)))
  unfolding kept
  free-IsCounted p buf h = elim (ℕ_discrete buf.cap_ p.size) [
    | no ne ↦ rw (free-wrong p buf ne) (h, refl, refl, inr (ne, refl))
    | yes e ↦ elim (dec_lt (length p.pool) p.max) [
      | yes room ↦
          rw (free-room p buf h e room) (kept-IsCounted p buf h e room, refl, refl, inl (e, refl))
      | no full ↦ rw (free-full p buf h e (omega arith)) (h, refl, refl, inl (e, refl))
    ]
  ]

  -- A buffer of the right size that is freed into an empty pool with a limit of one or more is the one
  -- that the next `Alloc` gives, and leaves the pool empty again.
  alloc-free :
      (fresh : ℕ) (p : SizePool a) (buf : ByteBuf)
      → IsCounted p
      → p.pool ≡ []
      → 0 < p.max
      → buf.cap_ ≡ p.size
      → ((alloc a fresh (free a p buf).0).1 ≡ buf) × ((alloc a fresh (free a p buf).0).0.pool ≡ [])
  unfolding kept alloc alloc_from
  alloc-free fresh p buf h empty room e =
      rw (free-room p buf h e (omega (arith, ap length empty)), empty) (refl, refl)
