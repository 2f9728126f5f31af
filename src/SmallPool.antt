-- ===== src/SmallPool.antt =====
-- poolx/small_pool.go: buffers of a few sizes that are kept for reuse. A `[]byte` is where its array
-- stands and its capacity; a buffered channel is the list of what is in it, and a select with a
-- default never blocks. The counter is the repository's atomicx.Int64, which is a parameter.
pub mod Sizes
pub mod Levels
mod Tests
use turbo_stream.Prelude.{
  ℕ, zero, suc, ◌+◌, ◌<◌, ◌≡◌, Bool, true, false, if◌then◌else◌, ltb, leb, ◌==◌, Option, none, some,
  List, [], ◌∷◌, ◌++◌, length, lookup, insert,
}
use turbo_stream.Prelude.Int.{ℤ, pos, negsuc, half64, leb_ℤ, ◌==ℤ◌, add_int64}
use turbo_stream.Outside
use turbo_stream.Outside.{Result, ok, err, panic}
use turbo_stream.DoubleBuffer.{ByteBuf}

-- `NewInt64`, `Add` and `Load` of utils/atomicx.
pub record Atomics : Type 1 where
  pub Int64 : Type 0
  pub new : ℤ → Int64
  pub add : Int64 → ℤ → Int64
  pub load : Int64 → ℤ

-- What their names say: `Load` gives the value that was stored, and `Add` adds to it.
pub record IsAtomics (a : Atomics) : Type 0 where
  pub load-new : (z : ℤ) → a.load (a.new z) ≡ z
  pub load-add : (c : a.Int64) (z : ℤ) → a.load (a.add c z) ≡ add_int64 (a.load c) z

pub record SizePool (a : Atomics) : Type 0 where
  pub size : ℕ
  pub count : a.Int64
  pub pool : List ByteBuf
  pub max : ℕ

module _ (a : Atomics) where
  unfoldable pub new_size_pool : ℕ → ℕ → SizePool a
  new_size_pool size max_size = record {
    size = size;
    max = max_size;
    pool = [];
    count = a.new (pos 0);
  }

  abbrev pub make_buf : ℕ → ℕ → ByteBuf
  make_buf addr size = record { addr = addr; cap_ = size }

  -- `fresh` is the address of the array that `make` gives, where it is called.
  unfoldable pub alloc_from : ℕ → SizePool a → List ByteBuf → SizePool a × ByteBuf
  alloc_from fresh p [] = (p, make_buf fresh p.size)
  alloc_from fresh p (b ∷ rest) = (record p { pool = rest; count = a.add p.count (negsuc 0) }, b)

  unfoldable pub alloc : ℕ → SizePool a → SizePool a × ByteBuf
  unfolding alloc_from
  alloc fresh p = alloc_from fresh p p.pool

  -- The send succeeds while the channel holds fewer than `max` buffers.
  unfoldable pub free : SizePool a → ByteBuf → SizePool a × Result (Unit {0})
  free p buf =
      if buf.cap_ == p.size
      then (if leb_ℤ (pos p.max) (a.load p.count)
          then (p, ok tt)
          else if ltb (length p.pool) p.max
          then (record p { pool = p.pool ++ buf ∷ []; count = a.add p.count (pos 1) }, ok tt)
          else (p, ok tt))
      else (p, err Outside.buffer_size)

abbrev pub size_levels : List ℕ
size_levels = 64 ∷ 128 ∷ 256 ∷ 512 ∷ 1024 ∷ []

abbrev pub max_pool_size : ℕ
max_pool_size = 1024

pub record SmallPool (a : Atomics) : Type 0 where
  pub pools : List (ℕ × SizePool a)
  pub sizes : List ℕ

module _ (a : Atomics) where
  -- The loop over the sizes.
  unfoldable pub make_pools : List ℕ → List (ℕ × SizePool a) → List (ℕ × SizePool a)
  make_pools [] pools = pools
  make_pools (sl ∷ sizes) pools =
      make_pools sizes (insert sl (new_size_pool a sl max_pool_size) pools)

  unfoldable pub new_small_pool : SmallPool a
  unfolding make_pools
  new_small_pool = record { pools = make_pools size_levels []; sizes = size_levels }

  -- `nil` is `none`. A level without a pool is a nil pointer.
  unfoldable pub alloc_level :
      ℕ → SmallPool a → ℕ → Option (SizePool a) → SmallPool a × Result (Option ByteBuf)
  alloc_level fresh p sl none = (p, panic)
  alloc_level fresh p sl (some q) =
      let (q', buf) = alloc a fresh q in (record p { pools = insert sl q' p.pools }, ok (some buf))

  unfoldable pub alloc_over : ℕ → SmallPool a → ℤ → List ℕ → SmallPool a × Result (Option ByteBuf)
  unfolding alloc_level
  alloc_over fresh p size [] = (p, ok none)
  alloc_over fresh p size (sl ∷ sizes) =
      let rest = alloc_over fresh p size sizes in
      if leb_ℤ size (pos sl) then alloc_level fresh p sl (lookup sl p.pools) else rest

  unfoldable pub small_alloc : ℕ → SmallPool a → ℤ → SmallPool a × Result (Option ByteBuf)
  unfolding alloc_over
  small_alloc fresh p size = alloc_over fresh p size p.sizes

  unfoldable pub free_level : SmallPool a → ByteBuf → ℕ → Option (SizePool a) → Result (SmallPool a)
  free_level p buf sl none = panic
  free_level p buf sl (some q) = ok (record p { pools = insert sl (free a q buf).0 p.pools })

  unfoldable pub free_over : SmallPool a → ByteBuf → List ℕ → Result (SmallPool a)
  unfolding free_level
  free_over p buf [] = ok p
  free_over p buf (sl ∷ sizes) =
      if buf.cap_ == sl
      then elim (free_level p buf sl (lookup sl p.pools)) [
        | ok p' ↦ free_over p' buf sizes
        | _ ↦ panic
      ]
      else free_over p buf sizes

  unfoldable pub small_free : SmallPool a → ByteBuf → Result (SmallPool a)
  unfolding free_over
  small_free p buf = free_over p buf p.sizes
