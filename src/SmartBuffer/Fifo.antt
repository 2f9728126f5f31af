-- ===== src/SmartBuffer/Fifo.antt =====
-- A buffer refines a bounded first-in first-out queue of its items, as long as its counters have
-- not run past the largest int32.
use turbo_stream.Prelude.{
  ℕ, suc, ◌+◌, ◌<◌, ◌≡◌, ◌≢◌, refl, ap, sym, ◌∙◌, arith, List, [], ◌∷◌, ◌++◌, length, length-append,
  length-set, length-replicate, set, get_elem?-lt, false,
}
use turbo_stream.Prelude.Int.{
  ℤ, pos, half32, add_int32-one, add_int32-neg_one, leb_ℤ, leb_ℤ_of_le, leb_ℤ_of_gt, ==ℤ_of_ne,
  ==ℤ_of_eq,
}
use turbo_stream.Outside
use turbo_stream.Outside.{States, AreDistinct, Result, ok, err}
use turbo_stream.SmartBuffer.{
  BufferItem, no_item, SmartBuffer, store, push, take_slot, pop, new_smart_buffer, reset,
  fresh_buffer, write,
}
use turbo_stream.SmartBuffer.Ring.{counter, slot, add_int32-counter, slot-lt}
use turbo_stream.SmartBuffer.Stored.{
  Holds, Stored-push, Stored-pop, read_slot-eq, calc_pos-slot, Stored-head, Stored-tail,
}

module _ (k : States) {c : ℕ} {s : SmartBuffer} {n : ℕ} {items : List BufferItem}
    (v : Holds c s n items) where
  stored_at : BufferItem → SmartBuffer
  stored_at item = record s {
    head = counter (suc (n + length items));
    buf = set s.buf (slot c (n + length items)) item;
    count = pos (length items + 1);
  }

  store-eq :
      (item : BufferItem)
      → n + length items < half32
      → length items < c
      → store k s item ≡ (stored_at item, ok tt)
  unfolding store stored_at
  store-eq item bound free =
      let p = slot c (n + length items) in
      ground (
        arith,
        calc_pos-slot c (n + length items),
        add_int32-counter (n + length items) bound,
        add_int32-one (length items),
        get_elem?-lt s.buf p,
        slot-lt c (n + length items),
      )

  stored_at-Holds :
      (item : BufferItem) → length items < c → Holds c (stored_at item) n (items ++ item ∷ [])
  unfolding stored_at
  stored_at-Holds item free = record {
    room = v.room;
    small = v.small;
    sized = length-set s.buf (slot c (n + length items)) item ∙ v.sized;
    head_at =
        ap counter {x = suc (n + length items)} (omega (arith, length-append items (item ∷ [])));
    tail_at = v.tail_at;
    counted = ap pos {x = length items + 1} (omega (arith, length-append items (item ∷ [])));
    fits = omega (arith, length-append items (item ∷ []));
    stored = Stored-push s.buf c n items item v.sized free v.stored;
  }

  not_full : length items < c → leb_ℤ s.capacity s.count ≡ false
  not_full free = leb_ℤ_of_gt s.capacity s.count (ground arith)

  push-eq :
      (item : BufferItem)
      → n + length items < half32
      → s.state ≢ k.read_only
      → length items < c
      → push k s item ≡ (stored_at item, ok tt)
  unfolding push
  push-eq item bound open_ free =
      rw (==ℤ_of_ne s.state k.read_only open_, not_full free) (store-eq item bound free)

  -- A push into a buffer with room that is not read-only succeeds, appends its item and keeps the
  -- state, as long as the write counter stays below 2^31.
  pub push_refines :
      (item : BufferItem)
      → n + length items < half32
      → s.state ≢ k.read_only
      → length items < c
      → ((push k s item).1 ≡ ok tt)
        × Holds c (push k s item).0 n (items ++ item ∷ [])
        × ((push k s item).0.state ≡ s.state)
  unfolding stored_at
  push_refines item bound open_ free =
      rw (push-eq item bound open_ free) (refl, stored_at-Holds item free, refl)

  -- The state word plays no part in what the ring holds.
  pub state-Holds : (st : ℤ) → Holds c (record s { state = st }) n items
  state-Holds st = record {
    room = v.room;
    small = v.small;
    sized = v.sized;
    head_at = v.head_at;
    tail_at = v.tail_at;
    counted = v.counted;
    fits = v.fits;
    stored = v.stored;
  }

  -- A push into a full buffer is refused, and closes a buffer open for writing to writers.
  pub push-full :
      (item : BufferItem)
      → k.write_only ≢ k.read_only
      → s.state ≡ k.write_only
      → length items ≡ c
      → push k s item ≡ (record s { state = k.read_only }, err Outside.read_only)
  unfolding push
  push-full item ne open_ full = rw (
    ==ℤ_of_ne s.state k.read_only (λ e. ne (sym open_ ∙ e)),
    leb_ℤ_of_le s.capacity s.count (ground arith),
    ==ℤ_of_eq s.state k.write_only open_,
  )

  popped_at : List BufferItem → SmartBuffer
  popped_at xs = record s {
    tail = counter (suc n);
    buf = set s.buf (slot c n) no_item;
    count = pos (length xs);
  }

  take_slot-eq :
      (x : BufferItem) (xs : List BufferItem)
      → items ≡ x ∷ xs
      → n < half32
      → take_slot k s ≡ (popped_at xs, ok x)
  unfolding take_slot popped_at
  take_slot-eq x xs e bound = ground (
    arith,
    calc_pos-slot c n,
    add_int32-counter n bound,
    add_int32-neg_one (length xs),
    Stored-head s.buf c n e v.stored,
    read_slot-eq 2 s.buf (slot c n) no_item x,
  )

  popped_at-Holds :
      (x : BufferItem) (xs : List BufferItem) → items ≡ x ∷ xs → Holds c (popped_at xs) (suc n) xs
  unfolding popped_at
  popped_at-Holds x xs e = record {
    room = v.room;
    small = v.small;
    sized = length-set s.buf (slot c n) no_item ∙ v.sized;
    head_at = v.head_at ∙ ap counter {x = n + length items} (omega (arith, ap length e));
    tail_at = refl;
    counted = refl;
    fits = omega (arith, ap length e);
    stored =
        Stored-pop s.buf c n xs no_item (omega (arith, ap length e))
          (Stored-tail s.buf c n e v.stored);
  }

  -- A pop of a buffer that holds items returns the oldest, leaves the rest and keeps the state, as
  -- long as the read counter stays below 2^31.
  pub pop_refines :
      (x : BufferItem) (xs : List BufferItem)
      → items ≡ x ∷ xs
      → n < half32
      → ((pop k s).1 ≡ ok x) × Holds c (pop k s).0 (suc n) xs × ((pop k s).0.state ≡ s.state)
  unfolding pop popped_at
  pop_refines x xs e bound =
      rw (==ℤ_of_ne s.count (pos 0) (λ z. ground (arith, ap length e)), take_slot-eq x xs e bound)
        (refl, popped_at-Holds x xs e, refl)

  -- A pop of an empty buffer returns a nil pointer of size 0 and changes nothing.
  pub pop-empty : items ≡ [] → pop k s ≡ (s, ok no_item)
  unfolding pop
  pop-empty e = rw (==ℤ_of_eq s.count (pos 0) (v.counted ∙ ap (λ xs. pos (length xs)) e))

-- A new buffer of a capacity that int32 holds is empty, and so is any buffer once it is reset.
pub new_smart_buffer-Holds :
    (k : States) (c : ℕ)
    → c < half32
    → (s : SmartBuffer) × (new_smart_buffer k (pos c) ≡ ok s)
      × Holds c s 0 []
      × (s.state ≡ k.write_only)
unfolding new_smart_buffer
new_smart_buffer-Holds k c small = (
  fresh_buffer k c,
  refl,
  record {
    room = refl;
    small = small;
    sized = length-replicate c no_item;
    head_at = refl;
    tail_at = refl;
    counted = refl;
    fits = omega arith;
    stored = tt;
  },
  refl,
)

pub reset-Holds :
    (k : States) (c n : ℕ) {s : SmartBuffer} {items : List BufferItem}
    → Holds c s n items
    → Holds c (reset k s) 0 [] × ((reset k s).state ≡ k.write_only)
unfolding reset
reset-Holds k c n v = (
  record {
    room = v.room;
    small = v.small;
    sized = v.sized;
    head_at = refl;
    tail_at = refl;
    counted = refl;
    fits = omega arith;
    stored = tt;
  },
  refl,
)

pub push-sealed :
    (k : States) (s : SmartBuffer) (item : BufferItem)
    → s.state ≡ k.read_only
    → push k s item ≡ (s, err Outside.read_only)
unfolding push
push-sealed k s item e = rw (==ℤ_of_eq s.state k.read_only e)

pub write-push :
    (k : States) (s : SmartBuffer) (item : BufferItem)
    → s.state ≢ k.closed_state
    → write k s item ≡ push k s item
unfolding write
write-push k s item ne = rw (==ℤ_of_ne s.state k.closed_state ne)
