-- ===== src/SmallPool/Tests.antt =====
-- poolx/small_pool.go: pools whose counters are numbers.
use turbo_stream.Prelude.{◌+◌, ◌<◌, ◌≤◌, ◌≡◌, ◌≢◌, refl, arith, some, none, ◌⊎◌}
use turbo_stream.Prelude.Int.{ℤ, pos, add_int64}
use turbo_stream.Outside
use turbo_stream.Outside.{Result, ok, err}
use turbo_stream.DoubleBuffer.{ByteBuf}
use turbo_stream.SmallPool.{
  Atomics, IsAtomics, SizePool, SmallPool, new_size_pool, make_buf, free, new_small_pool,
  small_alloc,
}
use turbo_stream.SmallPool.Sizes.{IsCounted, new_size_pool-IsCounted, free-IsCounted}
use turbo_stream.SmallPool.Levels.{IsReady, new_small_pool-IsReady, small_alloc-IsReady}

abbrev counters : Atomics
counters = record { Int64 = ℤ; new = λ z. z; add = add_int64; load = λ c. c }

counters-IsAtomics : IsAtomics counters
counters-IsAtomics = record { load-new = λ z. refl; load-add = λ c z. refl }

abbrev sixty_four : SizePool counters
sixty_four = new_size_pool counters 64 2

abbrev block : ByteBuf
block = make_buf counters 7 64

sixty_four-IsCounted : IsCounted sixty_four
sixty_four-IsCounted = new_size_pool-IsCounted counters counters-IsAtomics 64 2 (omega arith)

abbrev pools : SmallPool counters
pools = new_small_pool counters

pools-IsReady : IsReady counters counters-IsAtomics pools
pools-IsReady = new_small_pool-IsReady counters counters-IsAtomics

free-IsCounted_example :
    IsCounted (free counters sixty_four block).0
    × ((free counters sixty_four block).0.size ≡ sixty_four.size)
    × ((free counters sixty_four block).0.max ≡ sixty_four.max)
    × ((64 ≡ sixty_four.size) × ((free counters sixty_four block).1 ≡ ok tt)
        ⊎ ((64 ≢ sixty_four.size) × ((free counters sixty_four block).1 ≡ err Outside.buffer_size)))
free-IsCounted_example =
    free-IsCounted counters counters-IsAtomics sixty_four block sixty_four-IsCounted

small_alloc-IsReady_example :
    IsReady counters counters-IsAtomics (small_alloc counters 9 pools (pos 100)).0
    × ((100 ≤ 1024)
          × ((buf : ByteBuf) × ((small_alloc counters 9 pools (pos 100)).1 ≡ ok (some buf))
              × (100 ≤ buf.cap_)
              × (buf.cap_ ≤ 100 + 100 + 64))
        ⊎ (1024 < 100) × ((small_alloc counters 9 pools (pos 100)).1 ≡ ok none))
small_alloc-IsReady_example =
    small_alloc-IsReady counters counters-IsAtomics 9 pools 100 pools-IsReady
