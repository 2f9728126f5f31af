-- ===== src/Slab/Tests.antt =====
-- poolx/slab.go: a chunk of 64 KB in blocks of 32 KB.
use turbo_stream.Prelude.{
  ℕ, zero, suc, ◌+◌, ◌*◌, ◌<◌, ◌≡◌, refl, arith, some, none, [], ◌∷◌, ◌++◌, map, length, replicate,
  get_elem?, true, leb, if◌then◌else◌,
}
use turbo_stream.Prelude.Int.{ℤ, pos, add_int32}
use turbo_stream.Outside
use turbo_stream.Outside.{Result, ok, err}
use turbo_stream.Slab.{
  Counters, SlabAllocator, Chunk, MemoryBlock, new_slab_allocator, init_chunk, init_at, add_block,
  add_blocks,
}
use turbo_stream.Slab.Tiles.{IsMapping, IsTiled, from, init_chunk-IsTiled}
use turbo_stream.Slab.Blocks.{IsCounters, alloc_times, minus, alloc_times-IsTiled}

abbrev counters : Counters
counters = record { Int32 = ℤ; zero32 = pos 0; add = add_int32; load = λ c. c }

counters-IsCounters : IsCounters counters
counters-IsCounters = record { load-zero = refl; load-add = λ c z. refl }

-- Mappings of up to 1 MB stand at 4096.
abbrev mmap : ℕ → Result ℕ
mmap n = if leb n 1048576 then ok 4096 else err Outside.no_memory

mmap-IsMapping : IsMapping mmap
mmap-IsMapping n addr e = grind (arith, e)

abbrev allocator : SlabAllocator
allocator = new_slab_allocator 65536 32768

init_chunk-IsTiled_example :
    (c : Chunk counters) × (init_chunk counters mmap 1 allocator ≡ ok c)
    × (c.start ≡ 4096)
    × (c.size ≡ 65536)
    × IsTiled counters 1 32768 c
unfolding new_slab_allocator
init_chunk-IsTiled_example =
    init_chunk-IsTiled counters mmap 1 4096 allocator mmap-IsMapping (omega arith) (omega arith)
      refl

abbrev block : ℕ → MemoryBlock
block start = record { start = start; size = 32768; is_free = true; chunk = 1 }

-- What `initChunk` gives.
abbrev two_blocks : Chunk counters
two_blocks = record {
  start = 4096;
  size = 65536;
  free_count = pos 0;
  blocks = block 4096 ∷ block 36864 ∷ [];
  free_list = 0 ∷ 1 ∷ [];
  slab = none;
}

two_blocks_made : init_chunk counters mmap 1 allocator ≡ ok two_blocks
unfolding init_chunk init_at add_blocks add_block new_slab_allocator
two_blocks_made = refl

start_at : (i : ℕ) → i < 2 → get_elem? two_blocks.blocks i ≡ some (block (4096 + i * 32768))
start_at zero h = refl
start_at (suc zero) h = refl
start_at (suc (suc i)) h = absurd (omega arith)

two_blocks-IsTiled : IsTiled counters 1 32768 two_blocks
unfolding from
two_blocks-IsTiled = record {
  start_at = start_at;
  inside = λ i h. omega (arith, h);
  rest = omega arith;
  all_free = refl;
  uncounted = refl;
  no_slab = refl;
}

alloc_times-IsTiled_example :
    ((alloc_times counters (length two_blocks.blocks + 1) two_blocks 1).1
      ≡ map (λ i. ok (some i)) (from 0 (length two_blocks.blocks)) ++ replicate 1 (ok none))
    × ((alloc_times counters (length two_blocks.blocks + 1) two_blocks 1).0.free_count
        ≡ minus (length two_blocks.blocks))
alloc_times-IsTiled_example =
    alloc_times-IsTiled counters counters-IsCounters 1 32768 1 two_blocks two_blocks-IsTiled
      (omega arith)
