-- ===== src/SmartBuffer.antt =====
-- component/smart_buffer.go: a ring of (pointer, size) pairs with a state word, as one goroutine
-- sees it. A pointer is its address, 0 for nil. An atomic load, store or add is a plain one, and a
-- compare-and-swap of a value just loaded succeeds, so the loops of `Push` and `Pop` end in their
-- first round.
pub mod Ring
pub mod Stored
pub mod Fifo
pub mod Script
mod Tests
use turbo_stream.Prelude.{
  ℕ, zero, suc, ◌+◌, Bool, true, false, if◌then◌else◌, ◌==◌, Option, none, some, List, [], length,
  get_elem?, set, replicate,
}
use turbo_stream.Prelude.Int.{ℤ, pos, negsuc, leb_ℤ, ltb_ℤ, ◌==ℤ◌, ◌+ℤ◌, rem, add_int32}
use turbo_stream.Outside
use turbo_stream.Outside.{States, Result, ok, err, panic}

pub record BufferItem : Type 0 where
  pub ptr : ℕ
  pub size : ℤ

-- `BufferItem{}`
abbrev pub no_item : BufferItem
no_item = record { ptr = 0; size = pos 0 }

-- `sem` is only ever closed: `sem_closed` says whether it is.
pub record SmartBuffer : Type 0 where
  pub buf : List BufferItem
  pub head : ℤ
  pub tail : ℤ
  pub count : ℤ
  pub capacity : ℤ
  pub state : ℤ
  pub sem_closed : Bool

-- A Go slice index: `none` is the panic of an index out of range.
abbrev pub at_index : List BufferItem → ℤ → Option BufferItem
at_index xs (pos i) = get_elem? xs i
at_index xs (negsuc i) = none

abbrev pub set_index : List BufferItem → ℤ → BufferItem → List BufferItem
set_index xs (pos i) v = set xs i v
set_index xs (negsuc i) v = xs

-- `index % s.capacity`, its correction for a negative remainder, and the second `%`.
unfoldable pub calc_pos : ℤ → ℤ → ℤ
unfolding rem ◌+ℤ◌ ltb_ℤ
calc_pos (negsuc c) index = pos 0
calc_pos (pos zero) index = pos 0
calc_pos (pos (suc c)) index =
    let r = rem index (suc c) in rem (if ltb_ℤ r (pos 0) then r +ℤ pos (suc c) else r) (suc c)

-- The loop of `Pop` that reads a slot until its pointer is set, three times at most. It returns the
-- last item read; no other goroutine runs between two reads here.
unfoldable pub read_slot : ℕ → List BufferItem → ℤ → BufferItem → Option BufferItem
read_slot zero buf p item = some item
read_slot (suc n) buf p item = elim (at_index buf p) [
  | none ↦ none
  | some i ↦ if i.ptr == 0 then read_slot n buf p i else some i
]

abbrev pub max_retry : ℕ
max_retry = 3

module _ (k : States) where
  abbrev pub fresh_buffer : ℕ → SmartBuffer
  fresh_buffer c = record {
    buf = replicate c no_item;
    head = negsuc 0;
    tail = negsuc 0;
    count = pos 0;
    capacity = pos c;
    state = k.write_only;
    sem_closed = false;
  }

  -- `make` panics at a negative length.
  unfoldable pub new_smart_buffer : ℤ → Result SmartBuffer
  new_smart_buffer (negsuc c) = panic
  new_smart_buffer (pos c) = ok (fresh_buffer c)

  unfoldable pub set_state : SmartBuffer → ℤ → SmartBuffer
  set_state s st = record s { state = st }

  unfoldable pub get_state : SmartBuffer → ℤ
  get_state s = s.state

  unfoldable pub len : SmartBuffer → ℤ
  len s = s.count

  -- What `Push` does once it has its slot: the loop that waits for the slot to be empty only reads
  -- it, so all it can do is panic at an index out of range, as the store does.
  unfoldable pub store : SmartBuffer → BufferItem → SmartBuffer × Result (Unit {0})
  store s item =
      let s' = record s { head = add_int32 s.head (pos 1) } in
      let p = calc_pos s.capacity s.head in
      elim (at_index s.buf p) [
        | none ↦ (s', panic)
        | some old ↦
            (record s' { buf = set_index s.buf p item; count = add_int32 s.count (pos 1) }, ok tt)
      ]

  unfoldable pub push : SmartBuffer → BufferItem → SmartBuffer × Result (Unit {0})
  push s item =
      if s.state ==ℤ k.read_only
      then (s, err Outside.read_only)
      else if leb_ℤ s.capacity s.count
      then (
        record s { state = if s.state ==ℤ k.write_only then k.read_only else s.state },
        err Outside.read_only,
      )
      else store s item

  unfoldable pub write : SmartBuffer → BufferItem → SmartBuffer × Result (Unit {0})
  write s item = if s.state ==ℤ k.closed_state then (s, err Outside.buffer_closed) else push s item

  -- `Pop` once it has its slot.
  unfoldable pub take_slot : SmartBuffer → SmartBuffer × Result BufferItem
  take_slot s =
      let s' = record s { tail = add_int32 s.tail (pos 1) } in
      let p = calc_pos s.capacity s.tail in
      elim (read_slot max_retry s.buf p no_item) [
        | none ↦ (s', panic)
        | some item ↦ (
          record s' { buf = set_index s.buf p no_item; count = add_int32 s.count (negsuc 0) },
          ok item,
        )
      ]

  -- The pair (nil, 0) is `no_item`.
  unfoldable pub pop : SmartBuffer → SmartBuffer × Result BufferItem
  pop s = if s.count ==ℤ pos 0 then (s, ok no_item) else take_slot s

  -- The receive from `sem` blocks nowhere and takes nothing.
  unfoldable pub reset : SmartBuffer → SmartBuffer
  reset s = record s { state = k.write_only; count = pos 0; head = negsuc 0; tail = negsuc 0 }

  -- Closing a closed channel panics.
  unfoldable pub close : SmartBuffer → SmartBuffer × Result (Unit {0})
  close s = if s.sem_closed then (s, panic) else (record s { sem_closed = true }, ok tt)
