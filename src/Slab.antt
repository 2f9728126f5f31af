-- ===== src/Slab.antt =====
-- poolx/slab.go: chunks of memory that are cut into blocks. `unix.Mmap` and the repository's
-- atomicx.Int32 are parameters. A chunk is named by a number, for the comparison of its pointer, and a
-- block of a chunk by its place in the chunk's blocks; the sizes are not negative.
pub mod Tiles
pub mod Blocks
mod Tests
use turbo_stream.Prelude.{
  ℕ, zero, suc, ◌+◌, ◌*◌, ◌/◌, ◌%◌, ◌^◌, ◌==◌, Bool, true, false, if◌then◌else◌, Option, none, some,
  List, [], ◌∷◌, ◌++◌, set, get_elem?,
}
use turbo_stream.Prelude.Int.{ℤ, pos, negsuc, ◌==ℤ◌}
use turbo_stream.Outside.{Result, ok, err, panic}

-- The zero value, `Add` and `Load` of the counter.
pub record Counters : Type 1 where
  pub Int32 : Type 0
  pub zero32 : Int32
  pub add : Int32 → ℤ → Int32
  pub load : Int32 → ℤ

-- An element of a container/list whose value is a chunk or, by a mistake, such an element.
pub data Element : Type 0 where
  of_chunk : ℕ → Element
  of_element : Element → Element

pub record SlabAllocator : Type 0 where
  pub block_size : ℕ
  pub chunk_size : ℕ
  pub free_list : List Element
  pub partial_list : List Element
  pub full_list : List Element

unfoldable pub new_slab_allocator : ℕ → ℕ → SlabAllocator
new_slab_allocator chunk_size block_size = record {
  block_size = block_size;
  chunk_size = chunk_size;
  free_list = [];
  partial_list = [];
  full_list = [];
}

-- The nil `element` of every block is left out.
pub record MemoryBlock : Type 0 where
  pub start : ℕ
  pub size : ℕ
  pub is_free : Bool
  pub chunk : ℕ

-- A nil `slab` is `none`.
pub record Chunk (a : Counters) : Type 0 where
  pub start : ℕ
  pub size : ℕ
  pub free_count : a.Int32
  pub blocks : List MemoryBlock
  pub free_list : List ℕ
  pub slab : Option SlabAllocator

module _ (a : Counters) where
  -- One turn of the loop over the blocks, and `n` turns of it from `i` on.
  unfoldable pub add_block : ℕ → ℕ → ℕ → Chunk a → Chunk a
  add_block self block_size i c =
      let block : MemoryBlock = record {
        start = (c.start + i * block_size) % 2 ^ 64;
        size = block_size;
        is_free = true;
        chunk = self;
      } in
      record c { blocks = c.blocks ++ block ∷ []; free_list = c.free_list ++ i ∷ [] }

  unfoldable pub add_blocks : ℕ → ℕ → ℕ → ℕ → Chunk a → Chunk a
  add_blocks self block_size zero i c = c
  add_blocks self block_size (suc n) i c =
      add_blocks self block_size n (suc i) (add_block self block_size i c)

  -- The chunk at the address that `Mmap` gave. The division by a block size of 0 and the first byte of
  -- an empty mapping panic.
  unfoldable pub init_at : ℕ → SlabAllocator → ℕ → Result (Chunk a)
  init_at self s addr =
      if s.block_size == 0
      then panic
      else if s.chunk_size == 0
      then panic
      else ok (
          add_blocks self s.block_size (s.chunk_size / s.block_size) 0 (record {
            start = addr;
            size = s.chunk_size;
            free_count = a.zero32;
            blocks = [];
            free_list = [];
            slab = none;
          }))

  unfoldable pub init_chunk : (ℕ → Result ℕ) → ℕ → SlabAllocator → Result (Chunk a)
  init_chunk mmap self s = elim (mmap s.chunk_size) [
    | ok addr ↦ init_at self s addr
    | err e ↦ err e
    | panic ↦ panic
  ]

-- The search of the partial list for the chunk: the list without it, and the full list with it.
unfoldable pub move_full : ℕ → List Element → List Element → List Element × List Element
move_full self [] full = ([], full)
move_full self (of_element e ∷ rest) full =
    let (kept, full') = move_full self rest full in (of_element e ∷ kept, full')
move_full self (of_chunk c ∷ rest) full =
    let (kept, full') = move_full self rest full in
    if c == self then (rest, full ++ of_element (of_chunk c) ∷ []) else (of_chunk c ∷ kept, full')

unfoldable pub mark_used : Option MemoryBlock → ℕ → List MemoryBlock → List MemoryBlock
mark_used none i blocks = blocks
mark_used (some b) i blocks = set blocks i (record b { is_free = false })

module _ (a : Counters) where
  -- The lock of a nil slab is a nil pointer.
  unfoldable pub retire : ℕ → ℕ → Chunk a → Option SlabAllocator → Chunk a × Result (Option ℕ)
  retire self i c none = (c, panic)
  retire self i c (some s) =
      let (kept, full) = move_full self s.partial_list s.full_list in
      (record c { slab = some (record s { partial_list = kept; full_list = full }) }, ok (some i))

  unfoldable pub alloc_first : ℕ → Chunk a → List ℕ → Chunk a × Result (Option ℕ)
  alloc_first self c [] = (c, ok none)
  alloc_first self c (i ∷ rest) =
      let taken = record c {
        free_list = rest;
        blocks = mark_used (get_elem? c.blocks i) i c.blocks;
        free_count = a.add c.free_count (negsuc 0);
      } in
      if a.load taken.free_count ==ℤ pos 0 then retire self i taken c.slab else (taken, ok (some i))

  unfoldable pub alloc_block : ℕ → Chunk a → Chunk a × Result (Option ℕ)
  unfolding alloc_first
  alloc_block self c = alloc_first self c c.free_list
