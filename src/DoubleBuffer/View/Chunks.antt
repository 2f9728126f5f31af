-- ===== src/DoubleBuffer/View/Chunks.antt =====
-- What one read makes of the item that it popped, in both modes.
use turbo_stream.Prelude.{ℕ, ◌≡◌, refl, ◌∙◌, ap, arith, List, ◌++◌, Bool-cases, inl, inr}
use turbo_stream.Prelude.Int.{pos_part, ltb_ℤ}
use turbo_stream.SmartBuffer.{BufferItem}
use turbo_stream.LifeCycle.{is_valid}
use turbo_stream.DoubleBuffer.{
  Env, DataChunk, DoubleBuffer, get_small, small_data_threshold, large_data_threshold,
}
use turbo_stream.DoubleBuffer.Write.{bytes_at}
use turbo_stream.DoubleBuffer.Read.{
  safe_chunk, small_chunk, shared_chunk, copied_chunk, zero_copy_chunk, drop_reference,
}
use turbo_stream.DoubleBuffer.Memory.{
  IsFree, IsKept, forgotten-IsKept, memory, holds, Evolves, Evolves-refl, Evolves-trans,
  insert-Evolves, forget-Evolves, make-Takes,
}
use turbo_stream.DoubleBuffer.View.{IsEnv}
use turbo_stream.DoubleBuffer.View.Arrays.{get_small-Takes}
use turbo_stream.DoubleBuffer.View.Same.{IsSame, get_small-IsSame, store-get_small, bytes_at-insert}

module _ {T : Type 0} (env : Env T) (law : IsEnv env) (d : DoubleBuffer T) where
  -- The chunk shows the bytes of the item, and nothing else of the view changes.
  pub record Chunks (item : BufferItem) (e : DoubleBuffer T) (chunk : DataChunk) : Type 0 where
    pub same : IsSame d e
    pub sized : chunk.bytes.1 ≡ item.size
    pub read : bytes_at e.store chunk.bytes.0 ≡ bytes_at d.store item.ptr
    pub evolves : (held : List ℕ) → Evolves (memory d) held (memory e) (holds chunk ++ held)
    pub chunk_kept :
        (held : List ℕ)
        → IsFree (memory d) held
        → IsKept (memory d) held item.ptr
        → IsKept (memory e) held chunk.bytes.0

  small-Chunks :
      (item : BufferItem) → Chunks item (small_chunk env d item).0 (small_chunk env d item).1
  unfolding small_chunk
  small-Chunks item =
      let n = pos_part item.size in
      let s = get_small-IsSame env d n in
      record {
        same = record {
          state = s.state;
          size = s.size;
          active = s.active;
          passive = s.passive;
          current_buffer = s.current_buffer;
          pool = s.pool;
          pending_heap = s.pending_heap;
          sequence = s.sequence;
          current_sequence = s.current_sequence;
          publishing = s.publishing;
          read_mode = s.read_mode;
        };
        sized = refl;
        read =
            bytes_at-insert env d (get_small env d n).1.addr _ _
            ∙ ap (λ (m : List (ℕ × List ℕ)). bytes_at m item.ptr) (store-get_small env d n);
        evolves = λ held.
            insert-Evolves held (bytes_at (get_small env d n).0.store item.ptr)
              (get_small-Takes env law d n);
        chunk_kept = λ held f k.
            forgotten-IsKept (memory (small_chunk env d item).0) held (get_small env d n).1.addr (
              (insert-Evolves held (bytes_at (get_small env d n).0.store item.ptr)
                  (get_small-Takes env law d n)).free
                f);
      }

  shared-Chunks : (item : BufferItem) → Chunks item d (shared_chunk env item)
  shared-Chunks item = record {
    same = ground arith;
    sized = refl;
    read = refl;
    evolves = Evolves-refl (memory d);
    chunk_kept = λ held f k. k;
  }

  copied-Chunks :
      (item : BufferItem) → Chunks item (copied_chunk env d item).0 (copied_chunk env d item).1
  unfolding copied_chunk
  copied-Chunks item = record {
    same = ground arith;
    sized = refl;
    read = bytes_at-insert env d d.next_addr _ _;
    evolves = λ held.
        Evolves-trans (insert-Evolves held (bytes_at d.store item.ptr) (make-Takes (memory d)))
          (forget-Evolves (memory (copied_chunk env d item).0) d.next_addr held);
    chunk_kept = λ held f k.
        forgotten-IsKept (memory (copied_chunk env d item).0) held d.next_addr
          ((insert-Evolves held (bytes_at d.store item.ptr) (make-Takes (memory d))).free f);
  }

  abbrev pub IsChunk : BufferItem → DoubleBuffer T × DataChunk → Type 0
  IsChunk item (e, chunk) = Chunks item e chunk

  pub safe_chunk-Chunks : (item : BufferItem) (now : T) → IsChunk item (safe_chunk env d item now)
  unfolding safe_chunk
  safe_chunk-Chunks item now = elim (Bool-cases (ltb_ℤ item.size small_data_threshold)) [
    | inl a ↦ rw (a, safe_chunk) (small-Chunks item)
    | inr a ↦ elim (Bool-cases (ltb_ℤ large_data_threshold item.size)) [
      | inl b ↦ rw (a, b, safe_chunk) (shared-Chunks item)
      | inr b ↦ elim (Bool-cases (is_valid env.since d.medium_pool now item.ptr)) [
        | inl v ↦ rw (a, b, v, safe_chunk) (shared-Chunks item)
        | inr v ↦ rw (a, b, v, safe_chunk) (copied-Chunks item)
      ]
    ]
  ]

  pub zero_copy-Chunks :
      (item : BufferItem) → Chunks item (drop_reference env d item) (zero_copy_chunk env item)
  unfolding drop_reference
  zero_copy-Chunks item = elim (Bool-cases (ltb_ℤ large_data_threshold item.size)) [
    | inl a ↦
        rw (a, drop_reference)
          (record {
            same = ground arith;
            sized = refl;
            read = refl;
            evolves = Evolves-refl (memory d);
            chunk_kept = λ held f k. k;
          })
    | inr a ↦
        rw (a, drop_reference)
          (record {
            same = ground arith;
            sized = refl;
            read = refl;
            evolves = Evolves-refl (memory d);
            chunk_kept = λ held f k. k;
          })
  ]
