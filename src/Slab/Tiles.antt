-- ===== src/Slab/Tiles.antt =====
-- poolx/slab.go: the blocks of a new chunk stand one after the other in its mapping.
use turbo_stream.Prelude.{
  ℕ, zero, suc, ◌+◌, ◌*◌, ◌/◌, ◌%◌, ◌^◌, ◌≤◌, ◌<◌, ◌≡◌, refl, sym, ap, ap₂, ◌∙◌, arith, true, false,
  ◌==◌, Option, none, some, List, [], ◌∷◌, ◌++◌, map, length, get_elem?, append-nil, append_assoc,
}
use native.Mathlib.Nat.{le-div_iff_mul-le, mod-eq_of_lt, lt-div-mul-add}
use turbo_stream.Outside.{Result, ok}
use turbo_stream.Slab.{
  Counters, SlabAllocator, MemoryBlock, Chunk, add_block, add_blocks, init_at, init_chunk,
}

-- `n` numbers from `i` on.
unfoldable pub from : ℕ → ℕ → List ℕ
from i zero = []
from i (suc n) = i ∷ from (suc i) n

pub from-length : (i n : ℕ) → length (from i n) ≡ n
unfolding from
from-length i zero = refl
from-length i (suc n) = ap suc (from-length (suc i) n)

abbrev pub block_at : ℕ → ℕ → ℕ → ℕ → MemoryBlock
block_at self start block_size i = record {
  start = (start + i * block_size) % 2 ^ 64;
  size = block_size;
  is_free = true;
  chunk = self;
}

-- The documented behaviour of a mapping: it lies in the address space.
abbrev pub IsMapping : (ℕ → Result ℕ) → Type 0
IsMapping mmap = (n addr : ℕ) → mmap n ≡ ok addr → addr + n ≤ 2 ^ 64

module _ (a : Counters) where
  abbrev pub new_chunk : ℕ → ℕ → List MemoryBlock → List ℕ → Chunk a
  new_chunk start size blocks places = record {
    start = start;
    size = size;
    free_count = a.zero32;
    blocks = blocks;
    free_list = places;
    slab = none;
  }

  add_blocks-new_chunk :
      (self bs n i start size : ℕ) (blocks : List MemoryBlock) (places : List ℕ)
      → add_blocks a self bs n i (new_chunk start size blocks places)
        ≡ new_chunk start size
            (blocks ++ map (block_at self start bs) (from i n))
            (places ++ from i n)
  unfolding add_blocks add_block from
  add_blocks-new_chunk self bs zero i start size blocks places =
      rw (append-nil blocks, append-nil places) refl
  add_blocks-new_chunk self bs (suc n) i start size blocks places =
      add_blocks-new_chunk self bs n (suc i) start size (blocks ++ block_at self start bs i ∷ [])
        (places ++ i ∷ [])
      ∙ ap₂ (new_chunk start size)
          (append_assoc blocks (block_at self start bs i ∷ [])
            (map (block_at self start bs) (from (suc i) n)))
          (append_assoc places (i ∷ []) (from (suc i) n))

  ==_pos : (n : ℕ) → 0 < n → (n == 0) ≡ false
  ==_pos n h = ground arith

  pub init_at-ok :
      (self addr : ℕ) (s : SlabAllocator)
      → 0 < s.block_size
      → 0 < s.chunk_size
      → init_at a self s addr
        ≡ ok (
            new_chunk addr s.chunk_size
              (map (block_at self addr s.block_size) (from 0 (s.chunk_size / s.block_size)))
              (from 0 (s.chunk_size / s.block_size)))
  unfolding init_at
  init_at-ok self addr s hb hc =
      rw (==_pos s.block_size hb, ==_pos s.chunk_size hc)
        (ap ok (
          add_blocks-new_chunk self s.block_size (s.chunk_size / s.block_size) 0 addr s.chunk_size
            [] []))

  fits : (i b c : ℕ) → 0 < b → i < c / b → i * b + b ≤ c
  fits i b c hb h = omega (arith, (le-div_iff_mul-le {x = suc i} hb).0 h)

  get_elem?-from :
      (f : ℕ → MemoryBlock) (i n j : ℕ) → j < n → get_elem? (map f (from i n)) j ≡ some (f (i + j))
  unfolding from
  get_elem?-from f i zero j h = elim h [ ]
  get_elem?-from f i (suc n) zero h = ap (λ (k : ℕ). some (f k)) (omega arith)
  get_elem?-from f i (suc n) (suc j) h =
      get_elem?-from f (suc i) n j (omega arith) ∙ ap (λ (k : ℕ). some (f k)) (omega arith)

  length-map-from : (f : ℕ → MemoryBlock) (i n : ℕ) → length (map f (from i n)) ≡ n
  unfolding from
  length-map-from f i zero = refl
  length-map-from f i (suc n) = ap suc (length-map-from f (suc i) n)

  abbrev pub placed : ℕ → ℕ → Chunk a → ℕ → MemoryBlock
  placed self bs c i = record { start = c.start + i * bs; size = bs; is_free = true; chunk = self }

  -- The chunk is cut into blocks of the size, from its start on, all free and in the free list in that
  -- order, and less than a block of it is left.
  pub record IsTiled (self : ℕ) (bs : ℕ) (c : Chunk a) : Type 0 where
    pub start_at : (i : ℕ) → i < length c.blocks → get_elem? c.blocks i ≡ some (placed self bs c i)
    pub inside : (i : ℕ) → i < length c.blocks → i * bs + bs ≤ c.size
    pub rest : c.size < length c.blocks * bs + bs
    pub all_free : c.free_list ≡ from 0 (length c.blocks)
    pub uncounted : c.free_count ≡ a.zero32
    pub no_slab : c.slab ≡ none

  block_at-inside :
      (self addr bs i : ℕ)
      → addr + i * bs < 2 ^ 64
      → some (block_at self addr bs (0 + i))
        ≡ some (record { start = addr + i * bs; size = bs; is_free = true; chunk = self })
  block_at-inside self addr bs i h =
      let placed_at : ℕ → Option MemoryBlock =
        λ at. some (record { start = at; size = bs; is_free = true; chunk = self }) in
      ap (λ (j : ℕ). some (block_at self addr bs j)) (omega arith) ∙ ap placed_at (mod-eq_of_lt h)

  tiled :
      (self addr : ℕ) (s : SlabAllocator)
      → 0 < s.block_size
      → addr + s.chunk_size ≤ 2 ^ 64
      → IsTiled self s.block_size (
          new_chunk addr s.chunk_size
            (map (block_at self addr s.block_size) (from 0 (s.chunk_size / s.block_size)))
            (from 0 (s.chunk_size / s.block_size)))
  tiled self addr s hb ha =
      let f = block_at self addr s.block_size in
      let count = s.chunk_size / s.block_size in
      let len : length (map f (from 0 count)) ≡ count = length-map-from f 0 count in
      let in_chunk : (i : ℕ)
          → i < length (map f (from 0 count))
          → i * s.block_size + s.block_size ≤ s.chunk_size =
        λ i h. fits i s.block_size s.chunk_size hb (omega (arith, len, h)) in
      record {
        start_at = λ i h.
            get_elem?-from f 0 count i (omega (arith, len, h))
            ∙ block_at-inside self addr s.block_size i (omega (arith, in_chunk i h, hb, ha));
        inside = in_chunk;
        rest = rw len (lt-div-mul-add hb);
        all_free = ap (from 0) (sym len);
        uncounted = refl;
        no_slab = refl;
      }

  -- Where the mapping succeeds, a new chunk is the whole mapping, cut into blocks that follow each
  -- other without a gap or an overlap.
  pub init_chunk-IsTiled :
      (mmap : ℕ → Result ℕ) (self addr : ℕ) (s : SlabAllocator)
      → IsMapping mmap
      → 0 < s.block_size
      → 0 < s.chunk_size
      → mmap s.chunk_size ≡ ok addr
      → (c : Chunk a) × (init_chunk a mmap self s ≡ ok c)
        × (c.start ≡ addr)
        × (c.size ≡ s.chunk_size)
        × IsTiled self s.block_size c
  unfolding init_chunk
  init_chunk-IsTiled mmap self addr s law hb hc e = (
    _,
    rw (init_chunk, e) (init_at-ok self addr s hb hc),
    refl,
    refl,
    tiled self addr s hb (law s.chunk_size addr e),
  )
