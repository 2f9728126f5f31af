-- ===== src/DoubleBuffer/View.antt =====
-- The abstract view of an open double buffer: the items that a reader has still to get, in the order
-- in which it gets them.
pub mod Switches
pub mod Writes
pub mod Arrays
pub mod Same
pub mod Append
pub mod Chunks
pub mod Turns
pub mod Starts
pub mod Publishes
pub mod Order
pub mod Picks
pub mod Takes
pub mod Drains
pub mod Ticks
pub mod Closes
pub mod Waits
pub mod Reads
pub mod Unread
pub mod Safe
pub mod Runs
pub mod Releases
pub mod Fronts
pub mod Deliveries
pub mod Events
pub mod Finishes
pub mod Refines
use mathlib.Core.List.{Perm}
use turbo_stream.Prelude.{
  ℕ, suc, ◌+◌, ◌-◌, ◌<◌, ◌≡◌, ◌≢◌, ◌⊎◌, Option, none, some, List, [], ◌∷◌, ◌++◌, length,
}
use turbo_stream.Prelude.Int.{ℤ, pos, half32, half64}
use turbo_stream.Outside.{States, AreDistinct}
use turbo_stream.SmartBuffer.{BufferItem, SmartBuffer}
use turbo_stream.SmartBuffer.Stored.{Holds}
use turbo_stream.MinHeap.Swaps.{Entry, entries}
use turbo_stream.WrapHeap.Contract.{IsHeapPackage, IsGood}
use turbo_stream.DoubleBuffer.{Env, ByteBuf, DoubleBuffer}

-- What the code relies on in other packages: the constants differ, container/heap keeps its
-- documented contract, and `Get` of a pool takes one of its buffers out.
pub record IsEnv {T : Type 0} (env : Env T) : Type 1 where
  pub distinct : AreDistinct env.states
  pub modes : env.safe_read ≢ env.zero_copy_read
  pub heap_law : IsHeapPackage env.heap
  pub pool_law :
      (xs rest : List SmartBuffer) (b : SmartBuffer)
      → env.get_buffer xs ≡ some (b, rest)
      → (before : List SmartBuffer) × (after : List SmartBuffer) × (xs ≡ before ++ b ∷ after)
        × (rest ≡ before ++ after)
  pub bytes_law :
      (xs rest : List ByteBuf) (b : ByteBuf)
      → env.get_bytes xs ≡ some (b, rest)
      → (before : List ByteBuf) × (after : List ByteBuf) × (xs ≡ before ++ b ∷ after)
        × (rest ≡ before ++ after)

-- A buffer at rest: nothing was read from it since it was made or reset.
pub record IsFresh (k : States) (c : ℕ) (b : SmartBuffer) : Type 0 where
  pub empty : Holds c b 0 []
  pub takes_writes : b.state ≡ k.write_only

abbrev pub AllFresh : States → ℕ → List SmartBuffer → Type 0
AllFresh k c [] = Unit {0}
AllFresh k c (b ∷ bs) = IsFresh k c b × AllFresh k c bs

-- Buffers one by one against the items that they hold.
abbrev pub HoldAll : ℕ → List SmartBuffer → List (List BufferItem) → Type 0
HoldAll c [] [] = Unit {0}
HoldAll c (b ∷ bs) (l ∷ ls) = Holds c b 0 l × HoldAll c bs ls
HoldAll c _ _ = ⊥

-- Buffers with their sequence numbers, from n on.
abbrev pub Numbered : ℕ → ℕ → List Entry → List (List BufferItem) → Type 0
Numbered c n [] [] = Unit {0}
Numbered c n (e ∷ es) (l ∷ ls) = (e.0 ≡ pos n) × Holds c e.1 0 l × Numbered c (suc n) es ls
Numbered c n _ _ = ⊥

abbrev pub concat : List (List BufferItem) → List BufferItem
concat [] = []
concat (l ∷ ls) = l ++ concat ls

-- The parts of the view: what is left of the current buffer, the buffers on the heap by sequence
-- number, those not yet published in the order of their switches, and the active buffer.
pub record Parts : Type 0 where
  pub current : List BufferItem
  pub heaped : List (List BufferItem)
  pub unpublished : List (List BufferItem)
  pub active : List BufferItem

abbrev pub contents : Parts → List BufferItem
contents p = p.current ++ (concat p.heaped ++ (concat p.unpublished ++ p.active))

abbrev pub CurrentHolds : ℕ → Option SmartBuffer → List BufferItem → Type 0
CurrentHolds c none l = l ≡ []
CurrentHolds c (some b) l = (n : ℕ) × Holds c b n l × (n + length l < half32)

-- The pending buffers carry the sequence numbers from the current one on, without a gap.
pub record HeapHolds {T : Type 0} (env : Env T) (law : IsEnv env) (c : ℕ) (d : DoubleBuffer T)
    (ls : List (List BufferItem)) : Type 0 where
  pub good : IsGood env.heap law.heap_law d.pending_heap
  pub next : ℕ
  pub order : List Entry
  pub same : Perm (entries d.pending_heap) order
  pub numbered : Numbered c next order ls
  pub current_at : d.current_sequence ≡ pos next
  pub last_at : d.sequence ≡ pos (next + length ls - 1)
  pub from_one : 0 < next
  pub small : next + length ls < half64

pub record Shows {T : Type 0} (env : Env T) (law : IsEnv env) (c : ℕ) (d : DoubleBuffer T)
    (p : Parts) : Type 0 where
  pub open_ : d.state ≡ env.states.writing_state
  pub sized : d.size ≡ pos c
  pub positive : 0 < c
  pub small : c < half32
  pub active_holds : Holds c d.active 0 p.active
  pub active_mode :
      (d.active.state ≡ env.states.write_only)
      ⊎ ((d.active.state ≡ env.states.read_only) × (length p.active ≡ c))
  pub passive_fresh : IsFresh env.states c d.passive
  pub pool_fresh : AllFresh env.states c d.pool
  pub current_holds : CurrentHolds c d.current_buffer p.current
  pub heap_holds : HeapHolds env law c d p.heaped
  pub unpublished_hold : HoldAll c d.publishing p.unpublished
