-- ===== src/SmallPool/Levels.antt =====
-- poolx/small_pool.go: the pools of all sizes. An allocation takes the smallest size that fits.
use turbo_stream.Prelude.{
  ℕ, ◌+◌, ◌≤◌, ◌<◌, ◌≡◌, refl, sym, ap, subst, ◌∙◌, arith, ◌==◌, Option, some, none, List, [], ◌∷◌,
  lookup, insert, lookup-insert, ℕ_discrete, dec_le, ◌⊎◌, inl, inr, if◌then◌else◌, Bool-cases,
}
use turbo_stream.Prelude.Int.{ℤ, pos, leb_ℤ}
use turbo_stream.Outside.{Result, ok}
use turbo_stream.DoubleBuffer.{ByteBuf}
use turbo_stream.SmallPool.{
  Atomics, IsAtomics, SizePool, SmallPool, new_size_pool, make_pools, new_small_pool, size_levels,
  max_pool_size, alloc, free, alloc_level, alloc_over, small_alloc, free_level, free_over,
  small_free,
}
use turbo_stream.SmallPool.Sizes.{
  IsCounted, new_size_pool-IsCounted, alloc-IsCounted, free-IsCounted,
}

-- The level has a pool of its size, in order.
pub record IsLevel {a : Atomics} (pools : List (ℕ × SizePool a)) (sl : ℕ) : Type 0 where
  pub level : SizePool a
  pub found : lookup sl pools ≡ some level
  pub counted : IsCounted level
  pub sized : level.size ≡ sl

module _ (a : Atomics) (law : IsAtomics a) where
  abbrev pub AreLevels : List (ℕ × SizePool a) → List ℕ → Type 0
  AreLevels pools [] = Unit {0}
  AreLevels pools (sl ∷ sizes) = IsLevel pools sl × AreLevels pools sizes

  -- Every level of the five has its pool.
  pub record IsReady (p : SmallPool a) : Type 0 where
    pub sizes : p.sizes ≡ size_levels
    pub levels : AreLevels p.pools size_levels

  insert-IsLevel :
      (pools : List (ℕ × SizePool a)) (sl k : ℕ) (q : SizePool a)
      → IsCounted q
      → q.size ≡ k
      → IsLevel pools sl
      → IsLevel (insert k q pools) sl
  insert-IsLevel pools sl k q c e h = elim (ℕ_discrete k sl) [
    | yes same ↦ record {
      level = q;
      found = ground (arith, lookup-insert k sl q pools);
      counted = c;
      sized = e ∙ same;
    }
    | no ne ↦ record {
      level = h.level;
      found = ground (arith, lookup-insert k sl q pools, h.found);
      counted = h.counted;
      sized = h.sized;
    }
  ]

  insert-AreLevels :
      (pools : List (ℕ × SizePool a)) (sizes : List ℕ) (k : ℕ) (q : SizePool a)
      → IsCounted q
      → q.size ≡ k
      → AreLevels pools sizes
      → AreLevels (insert k q pools) sizes
  insert-AreLevels pools [] k q c e h = tt
  insert-AreLevels pools (sl ∷ sizes) k q c e h =
      (insert-IsLevel pools sl k q c e h.0, insert-AreLevels pools sizes k q c e h.1)

  insert_new-IsLevel :
      (pools : List (ℕ × SizePool a)) (k : ℕ) (q : SizePool a)
      → IsCounted q
      → q.size ≡ k
      → IsLevel (insert k q pools) k
  insert_new-IsLevel pools k q c e = record {
    level = q;
    found = ground (arith, lookup-insert k k q pools);
    counted = c;
    sized = e;
  }

  -- The first level that fits, as a description of its own.
  abbrev pub first_fit : ℤ → List ℕ → Option ℕ
  first_fit size [] = none
  first_fit size (sl ∷ sizes) = if leb_ℤ size (pos sl) then some sl else first_fit size sizes

  -- What an allocation returns of a level, with the levels in order after it.
  pub record Allocates (r : SmallPool a × Result (Option ByteBuf)) (sl : ℕ) : Type 0 where
    pub buf : ByteBuf
    pub returns : r.1 ≡ ok (some buf)
    pub cap_at : buf.cap_ ≡ sl
    pub ready : IsReady r.0

  alloc_level-found :
      (fresh : ℕ) (p : SmallPool a) (sl : ℕ) (q : SizePool a)
      → alloc_level a fresh p sl (some q) ≡ (
        record p { pools = insert sl (alloc a fresh q).0 p.pools },
        ok (some (alloc a fresh q).1),
      )
  unfolding alloc_level
  alloc_level-found fresh p sl q = refl

  alloc_level-Allocates :
      (fresh : ℕ) (p : SmallPool a) (sl : ℕ)
      → IsReady p
      → IsLevel p.pools sl
      → Allocates (alloc_level a fresh p sl (lookup sl p.pools)) sl
  alloc_level-Allocates fresh p sl h l =
      let (c, cap_at, size_at, max_at) = alloc-IsCounted a law fresh l.level l.counted in
      subst (λ (r : SmallPool a × Result (Option ByteBuf)). Allocates r sl)
        (sym (ap (alloc_level a fresh p sl) l.found ∙ alloc_level-found fresh p sl l.level))
        (record {
          buf = (alloc a fresh l.level).1;
          returns = refl;
          cap_at = cap_at ∙ l.sized;
          ready = record {
            sizes = h.sizes;
            levels = insert-AreLevels p.pools size_levels sl _ c (size_at ∙ l.sized) h.levels;
          };
        })

  -- What an allocation does, by the level that fits.
  abbrev pub Serves : Option ℕ → SmallPool a × Result (Option ByteBuf) → Type 0
  Serves none (p, r) = (r ≡ ok none) × IsReady p
  Serves (some sl) r = Allocates r sl

  alloc_over-Serves :
      (fresh : ℕ) (p : SmallPool a) (size : ℤ) (sizes : List ℕ)
      → IsReady p
      → AreLevels p.pools sizes
      → Serves (first_fit size sizes) (alloc_over a fresh p size sizes)
  unfolding alloc_over
  alloc_over-Serves fresh p size [] h ls = (refl, h)
  alloc_over-Serves fresh p size (sl ∷ sizes) h ls = elim (Bool-cases (leb_ℤ size (pos sl))) [
    | inl e ↦ rw e (alloc_level-Allocates fresh p sl h ls.0)
    | inr e ↦ rw e (alloc_over-Serves fresh p size sizes h ls.1)
  ]

  first_fit-cases :
      (n : ℕ)
      → ((sl : ℕ) × (first_fit (pos n) size_levels ≡ some sl)
          × (n ≤ sl)
          × (sl ≤ n + n + 64)
          × (n ≤ 1024))
        ⊎ ((first_fit (pos n) size_levels ≡ none) × (1024 < n))
  unfolding leb_ℤ
  first_fit-cases n = elim (dec_le n 64) [
    | yes a64 ↦ inl (64, ground arith, a64, omega arith, omega arith)
    | no b64 ↦ elim (dec_le n 128) [
      | yes a128 ↦ inl (128, ground arith, a128, omega arith, omega arith)
      | no b128 ↦ elim (dec_le n 256) [
        | yes a256 ↦ inl (256, ground arith, a256, omega arith, omega arith)
        | no b256 ↦ elim (dec_le n 512) [
          | yes a512 ↦ inl (512, ground arith, a512, omega arith, omega arith)
          | no b512 ↦ elim (dec_le n 1024) [
            | yes a1024 ↦ inl (1024, ground arith, a1024, omega arith, a1024)
            | no b1024 ↦ inr (ground arith, omega arith)
          ]
        ]
      ]
    ]
  ]

  -- An allocation of up to 1024 bytes gives a buffer whose capacity is at least the size and at most
  -- twice the size and 64, and a larger one gives nil. The pools stay in order.
  pub small_alloc-IsReady :
      (fresh : ℕ) (p : SmallPool a) (n : ℕ)
      → IsReady p
      → IsReady (small_alloc a fresh p (pos n)).0
        × ((n ≤ 1024)
              × ((buf : ByteBuf) × ((small_alloc a fresh p (pos n)).1 ≡ ok (some buf))
                  × (n ≤ buf.cap_)
                  × (buf.cap_ ≤ n + n + 64))
            ⊎ (1024 < n) × ((small_alloc a fresh p (pos n)).1 ≡ ok none))
  unfolding small_alloc
  small_alloc-IsReady fresh p n h =
      let serves : Serves (first_fit (pos n) size_levels) (alloc_over a fresh p (pos n) p.sizes) =
        subst
          (λ (sizes : List ℕ).
            Serves (first_fit (pos n) size_levels) (alloc_over a fresh p (pos n) sizes))
          (sym h.sizes) (alloc_over-Serves fresh p (pos n) size_levels h h.levels) in
      elim (first_fit-cases n) [
        | inl (sl, e, low, high, few) ↦
            (let s =
                subst (λ (o : Option ℕ). Serves o (alloc_over a fresh p (pos n) p.sizes)) e
                  serves in
              (
                s.ready,
                inl (few, (s.buf, s.returns, omega (arith, s.cap_at), omega (arith, s.cap_at))),
              ))
        | inr (e, large) ↦
            (let s =
                subst (λ (o : Option ℕ). Serves o (alloc_over a fresh p (pos n) p.sizes)) e
                  serves in
              (s.1, inr (large, s.0)))
      ]

  -- The levels that a pool frees into, whatever it freed before.
  free_level-IsReady :
      (p : SmallPool a) (buf : ByteBuf) (sl : ℕ)
      → IsReady p
      → IsLevel p.pools sl
      → (p' : SmallPool a) × (free_level a p buf sl (lookup sl p.pools) ≡ ok p') × IsReady p'
  unfolding free_level
  free_level-IsReady p buf sl h l =
      let (c, size_at, max_at, r) = free-IsCounted a law l.level buf l.counted in
      (
        record p { pools = insert sl (free a l.level buf).0 p.pools },
        ap (free_level a p buf sl) l.found,
        record {
          sizes = h.sizes;
          levels = insert-AreLevels p.pools size_levels sl _ c (size_at ∙ l.sized) h.levels;
        },
      )

  free_over-IsReady :
      (p : SmallPool a) (buf : ByteBuf) (sizes : List ℕ)
      → IsReady p
      → ((q : SmallPool a) → IsReady q → AreLevels q.pools sizes)
      → (p' : SmallPool a) × (free_over a p buf sizes ≡ ok p') × IsReady p'
  unfolding free_over
  free_over-IsReady p buf [] h all = (p, refl, h)
  free_over-IsReady p buf (sl ∷ sizes) h all = elim (Bool-cases (buf.cap_ == sl)) [
    | inl e ↦
        (let (q, one, ready) = free_level-IsReady p buf sl h (all p h).0 in
          let (p', more, ready') =
            free_over-IsReady q buf sizes ready
              (λ (r : SmallPool a) (hr : IsReady r). (all r hr).1) in
          (p', rw (e, one) more, ready'))
    | inr e ↦
        (let (p', more, ready) =
            free_over-IsReady p buf sizes h (λ (r : SmallPool a) (hr : IsReady r). (all r hr).1) in
          (p', rw e more, ready))
  ]

  -- `Free` of any buffer, of a size of the pool or not, returns without a panic and leaves every level
  -- in order.
  pub small_free-IsReady :
      (p : SmallPool a) (buf : ByteBuf)
      → IsReady p
      → (p' : SmallPool a) × (small_free a p buf ≡ ok p') × IsReady p'
  unfolding small_free
  small_free-IsReady p buf h =
      subst
        (λ (sizes : List ℕ). (p' : SmallPool a) × (free_over a p buf sizes ≡ ok p') × IsReady p')
        (sym h.sizes)
        (free_over-IsReady p buf size_levels h (λ (q : SmallPool a) (hq : IsReady q). hq.levels))

  new_size : (sl : ℕ) → (new_size_pool a sl max_pool_size).size ≡ sl
  unfolding new_size_pool
  new_size sl = refl

  make_pools-AreLevels :
      (sizes done : List ℕ) (pools : List (ℕ × SizePool a))
      → AreLevels pools done
      → AreLevels (make_pools a sizes pools) done × AreLevels (make_pools a sizes pools) sizes
  unfolding make_pools
  make_pools-AreLevels [] done pools h = (h, tt)
  make_pools-AreLevels (sl ∷ sizes) done pools h =
      let q = new_size_pool a sl max_pool_size in
      let c = new_size_pool-IsCounted a law sl max_pool_size (omega arith) in
      let (all, more) = make_pools-AreLevels sizes (sl ∷ done) (insert sl q pools) (
        insert_new-IsLevel pools sl q c (new_size sl),
        insert-AreLevels pools done sl q c (new_size sl) h,
      ) in
      (all.1, (all.0, more))

  pub new_small_pool-IsReady : IsReady (new_small_pool a)
  unfolding new_small_pool
  new_small_pool-IsReady = record {
    sizes = refl;
    levels = (make_pools-AreLevels size_levels [] [] tt).1;
  }
