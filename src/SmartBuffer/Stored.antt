-- ===== src/SmartBuffer/Stored.antt =====
-- What a ring holds: its items stand in the slots from its read counter on.
use native.Mathlib.Nat.{add-zero}
use turbo_stream.Prelude.{
  ℕ, zero, suc, ◌+◌, ◌≤◌, ◌<◌, ◌≡◌, ◌≢◌, ap, sym, ◌∙◌, arith, some, List, [], ◌∷◌, ◌++◌, length,
  get_elem?, set, get_elem?-set_self, get_elem?-set_ne,
}
use turbo_stream.Prelude.Int.{pos, half32}
use turbo_stream.SmartBuffer.{BufferItem, SmartBuffer, calc_pos, read_slot}
use turbo_stream.SmartBuffer.Ring.{counter, slot, slot-lt, calc_pos-counter, slot-ne}

-- The slots from the k-th use on hold the items in order.
abbrev pub Stored : List BufferItem → ℕ → ℕ → List BufferItem → Type 0
Stored buf c k [] = Unit {0}
Stored buf c k (x ∷ xs) = (get_elem? buf (slot c k) ≡ some x) × Stored buf c (suc k) xs

-- After `popped` reads the buffer holds `items`, oldest first.
pub record Holds (cap_ : ℕ) (s : SmartBuffer) (popped : ℕ) (items : List BufferItem) : Type 0 where
  pub room : s.capacity ≡ pos cap_
  pub small : cap_ < half32
  pub sized : length s.buf ≡ cap_
  pub head_at : s.head ≡ counter (popped + length items)
  pub tail_at : s.tail ≡ counter popped
  pub counted : s.count ≡ pos (length items)
  pub fits : length items ≤ cap_
  pub stored : Stored s.buf cap_ popped items

-- A write to a slot that is not among those read keeps them.
pub Stored-set :
    (buf : List BufferItem) (c k p : ℕ) (v : BufferItem) (xs : List BufferItem)
    → ((i : ℕ) → k ≤ i → i < k + length xs → slot c i ≢ p)
    → Stored buf c k xs
    → Stored (set buf p v) c k xs
Stored-set buf c k p v [] h st = tt
Stored-set buf c k p v (x ∷ xs) h st = (
  get_elem?-set_ne buf p (slot c k) v (λ e. h k (omega arith) (omega arith) (sym e)) ∙ st.0,
  Stored-set buf c (suc k) p v xs (λ i a b. h i (omega arith) (omega arith)) st.1,
)

pub Stored-append :
    (buf : List BufferItem) (c k : ℕ) (xs : List BufferItem) (y : BufferItem)
    → Stored buf c k xs
    → get_elem? buf (slot c (k + length xs)) ≡ some y
    → Stored buf c k (xs ++ y ∷ [])
Stored-append buf c k [] y st h =
    (ap (λ (n : ℕ). get_elem? buf (slot c n)) (sym (add-zero k)) ∙ h, tt)
Stored-append buf c k (x ∷ xs) y st h = (
  st.0,
  Stored-append buf c (suc k) xs y st.1
      (ap (λ (n : ℕ). get_elem? buf (slot c n)) (omega arith) ∙ h),
)

-- Storing at the head extends the items by the new one.
pub Stored-push :
    (buf : List BufferItem) (c k : ℕ) (xs : List BufferItem) (y : BufferItem)
    → length buf ≡ c
    → length xs < c
    → Stored buf c k xs
    → Stored (set buf (slot c (k + length xs)) y) c k (xs ++ y ∷ [])
Stored-push buf c k xs y e h st =
    Stored-append _ c k xs y
      (Stored-set buf c k (slot c (k + length xs)) y xs
        (λ i a b. slot-ne c i (k + length xs) b (omega arith)) st)
      (get_elem?-set_self buf (slot c (k + length xs)) y
        (omega (arith, slot-lt c (k + length xs) (omega arith))))

-- Clearing the slot at the tail keeps the items behind it.
pub Stored-pop :
    (buf : List BufferItem) (c k : ℕ) (xs : List BufferItem) (y : BufferItem)
    → length xs < c
    → Stored buf c (suc k) xs
    → Stored (set buf (slot c k) y) c (suc k) xs
Stored-pop buf c k xs y h st =
    Stored-set buf c (suc k) (slot c k) y xs
      (λ i a b e. slot-ne c k i (omega arith) (omega arith) (sym e)) st

-- With no other goroutine about, the polling loop reads the slot's item.
pub read_slot-eq :
    (n : ℕ) (buf : List BufferItem) (p : ℕ) (old item : BufferItem)
    → get_elem? buf p ≡ some item
    → read_slot (suc n) buf (pos p) old ≡ some item
unfolding read_slot
read_slot-eq zero buf p old item h = ground arith
read_slot-eq (suc n) buf p old item h = ground (arith, read_slot-eq n buf p item item h)

pub calc_pos-slot : (c k : ℕ) → 0 < c → calc_pos (pos c) (counter k) ≡ pos (slot c k)
calc_pos-slot zero k h = elim h [ ]
calc_pos-slot (suc c) k h = calc_pos-counter c k

pub Stored-head :
    (buf : List BufferItem) (c n : ℕ) {items : List BufferItem} {x : BufferItem}
    {xs : List BufferItem}
    → items ≡ x ∷ xs
    → Stored buf c n items
    → get_elem? buf (slot c n) ≡ some x
Stored-head buf c n e st = (rw e at st).0

pub Stored-tail :
    (buf : List BufferItem) (c n : ℕ) {items : List BufferItem} {x : BufferItem}
    {xs : List BufferItem}
    → items ≡ x ∷ xs
    → Stored buf c n items
    → Stored buf c (suc n) xs
Stored-tail buf c n e st = (rw e at st).1
