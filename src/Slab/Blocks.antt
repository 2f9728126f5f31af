-- ===== src/Slab/Blocks.antt =====
-- poolx/slab.go: which blocks the allocations of a new chunk give, in which order.
use turbo_stream.Prelude.{
  ℕ, zero, suc, ◌+◌, ◌<◌, ◌≡◌, ◌≢◌, refl, sym, ap, subst, ◌∙◌, arith, Option, none, some, List, [],
  ◌∷◌, ◌++◌, map, length, get_elem?, replicate,
}
use turbo_stream.Prelude.Int.{ℤ, pos, negsuc, add_int32, half32, ==ℤ_of_ne}
use turbo_stream.Outside.{Result, ok}
use turbo_stream.Slab.{Counters, Chunk, alloc_first, alloc_block, mark_used}
use turbo_stream.Slab.Tiles.{IsTiled, from, from-length}

-- What the names say: the zero value holds 0, and `Add` adds to what `Load` gives.
pub record IsCounters (a : Counters) : Type 0 where
  pub load-zero : a.load a.zero32 ≡ pos 0
  pub load-add : (c : a.Int32) (z : ℤ) → a.load (a.add c z) ≡ add_int32 (a.load c) z

-- Minus a number.
abbrev pub minus : ℕ → ℤ
minus zero = pos 0
minus (suc n) = negsuc n

module _ (a : Counters) where
  -- What a number of allocations return, and the chunk after them.
  unfoldable pub alloc_times : ℕ → Chunk a → ℕ → Chunk a × List (Result (Option ℕ))
  alloc_times zero c self = (c, [])
  alloc_times (suc n) c self =
      let (c', r) = alloc_block a self c in let (c'', rs) = alloc_times n c' self in (c'', r ∷ rs)

module _ (a : Counters) (law : IsCounters a) where
  negsuc-ne : (n : ℕ) → negsuc n ≢ pos 0
  negsuc-ne n e = grind (arith, e)

  -- The list of what is free, and a counter that stands `n` below zero.
  record Leaves (c : Chunk a) (free : List ℕ) (n : ℕ) : Type 0 where
    places : c.free_list ≡ free
    below : a.load c.free_count ≡ minus n

  minus-suc : (n : ℕ) → n < half32 → add_int32 (minus n) (negsuc 0) ≡ minus (suc n)
  unfolding add_int32
  minus-suc zero h = ground arith
  minus-suc (suc n) h = ground arith

  abbrev taken : ℕ → List ℕ → Chunk a → Chunk a
  taken i rest c = record c {
    free_list = rest;
    blocks = mark_used (get_elem? c.blocks i) i c.blocks;
    free_count = a.add c.free_count (negsuc 0);
  }

  below-add :
      (c : Chunk a) (n : ℕ)
      → n < half32
      → a.load c.free_count ≡ minus n
      → a.load (a.add c.free_count (negsuc 0)) ≡ minus (suc n)
  below-add c n h e =
      law.load-add c.free_count (negsuc 0)
      ∙ ap (λ (z : ℤ). add_int32 z (negsuc 0)) e
      ∙ minus-suc n h

  alloc_first-taken :
      (self i n : ℕ) (rest : List ℕ) (c : Chunk a)
      → a.load (a.add c.free_count (negsuc 0)) ≡ minus (suc n)
      → alloc_first a self c (i ∷ rest) ≡ (taken i rest c, ok (some i))
  unfolding alloc_first
  alloc_first-taken self i n rest c e = rw (==ℤ_of_ne _ (pos 0) (λ z. negsuc-ne n (sym e ∙ z))) refl

  alloc_block-taken :
      (self i n : ℕ) (rest : List ℕ) (c : Chunk a)
      → n < half32
      → Leaves c (i ∷ rest) n
      → alloc_block a self c ≡ (taken i rest c, ok (some i))
  unfolding alloc_block
  alloc_block-taken self i n rest c h l =
      ap (alloc_first a self c) l.places
      ∙ alloc_first-taken self i n rest c (below-add c n h l.below)

  taken-Leaves :
      (i n : ℕ) (rest : List ℕ) (c : Chunk a)
      → n < half32
      → Leaves c (i ∷ rest) n
      → Leaves (taken i rest c) rest (suc n)
  taken-Leaves i n rest c h l = record { places = refl; below = below-add c n h l.below }

  alloc_block-empty :
      (self : ℕ) (c : Chunk a) → c.free_list ≡ [] → alloc_block a self c ≡ (c, ok none)
  unfolding alloc_block alloc_first
  alloc_block-empty self c e = ap (alloc_first a self c) e

  abbrev given : List ℕ → List (Result (Option ℕ))
  given = map (λ i. ok (some i))

  alloc_times-empty :
      (self m : ℕ) (c : Chunk a)
      → c.free_list ≡ []
      → alloc_times a m c self ≡ (c, replicate m (ok none))
  unfolding alloc_times
  alloc_times-empty self zero c e = refl
  alloc_times-empty self (suc m) c e =
      rw (alloc_block-empty self c e, alloc_times-empty self m c e) refl

  alloc_times-taken :
      (self i n k : ℕ) (rest : List ℕ) (c : Chunk a)
      → n < half32
      → Leaves c (i ∷ rest) n
      → alloc_times a (suc k) c self ≡ (
        (alloc_times a k (taken i rest c) self).0,
        ok (some i) ∷ (alloc_times a k (taken i rest c) self).1,
      )
  unfolding alloc_times
  alloc_times-taken self i n k rest c h l = rw (alloc_block-taken self i n rest c h l) refl

  alloc_times-Leaves :
      (self m n : ℕ) (free : List ℕ) (c : Chunk a)
      → n + length free < half32
      → Leaves c free n
      → ((alloc_times a (length free + m) c self).1 ≡ given free ++ replicate m (ok none))
        × (a.load (alloc_times a (length free + m) c self).0.free_count ≡ minus (n + length free))
  alloc_times-Leaves self m n [] c h l =
      subst
        (λ (k : ℕ).
          ((alloc_times a k c self).1 ≡ replicate m (ok none))
          × (a.load (alloc_times a k c self).0.free_count ≡ minus (n + 0)))
        {x = m} (omega arith)
        (rw (alloc_times-empty self m c l.places) (refl, l.below ∙ ap minus (omega arith)))
  alloc_times-Leaves self m n (i ∷ free) c h l =
      let (returned, counted) =
        alloc_times-Leaves self m (suc n) free (taken i free c) (omega arith)
          (taken-Leaves i n free c (omega arith) l) in
      subst
        (λ (k : ℕ).
          ((alloc_times a k c self).1 ≡ given (i ∷ free) ++ replicate m (ok none))
          × (a.load (alloc_times a k c self).0.free_count ≡ minus (n + suc (length free))))
        {x = suc (length free + m)} (omega arith)
        (rw (alloc_times-taken self i n (length free + m) free c (omega arith) l) (
          ap (λ (rs : List (Result (Option ℕ))). ok (some i) ∷ rs) returned,
          counted ∙ ap minus (omega arith),
        ))

  -- The allocations of a new chunk with fewer than 2 ^ 31 blocks give its blocks from the first to the
  -- last, each once, and nil after that. None of them panics, and none sees the chunk as full: the
  -- counter, which starts at 0 and not at the number of blocks, falls below 0.
  pub alloc_times-IsTiled :
      (self bs m : ℕ) (c : Chunk a)
      → IsTiled a self bs c
      → length c.blocks < half32
      → ((alloc_times a (length c.blocks + m) c self).1
          ≡ map (λ i. ok (some i)) (from 0 (length c.blocks)) ++ replicate m (ok none))
        × (a.load (alloc_times a (length c.blocks + m) c self).0.free_count
            ≡ minus (length c.blocks))
  alloc_times-IsTiled self bs m c t h =
      let n = length c.blocks in
      let len : length (from 0 n) ≡ n = from-length 0 n in
      let (returned, counted) =
        alloc_times-Leaves self m 0 (from 0 n) c (omega (arith, len, h))
          (record { places = t.all_free; below = ap a.load t.uncounted ∙ law.load-zero }) in
      subst
        (λ (k : ℕ).
          ((alloc_times a (k + m) c self).1 ≡ given (from 0 n) ++ replicate m (ok none))
          × (a.load (alloc_times a (k + m) c self).0.free_count ≡ minus k))
        len (returned, counted ∙ ap minus (omega arith))
