-- ===== src/DoubleBuffer/View/Picks.antt =====
-- `pickBufferFromHeap`: dropping a current buffer that is used up, and picking the next.
use mathlib.Core.List.{Perm}
use mathlib.Core.List.Perm
use turbo_stream.Prelude.{
  ℕ, suc, ◌+◌, ◌-◌, ◌≡◌, ◌≢◌, refl, sym, ◌∙◌, ap, subst, arith, true, false, Option, none, some,
  List, [], ◌∷◌, length, length-perm,
}
use turbo_stream.Prelude.Int.{ℤ, pos, add_int64, add_int64-one, ==ℤ_of_eq}
use turbo_stream.Outside.{ok}
use turbo_stream.SmartBuffer.{BufferItem, SmartBuffer}
use turbo_stream.SmartBuffer.Fifo.{reset-Holds}
use turbo_stream.SmartBuffer.Stored.{Holds}
use turbo_stream.MinHeap.{MinHeapItem, MinHeap}
use turbo_stream.MinHeap.Swaps.{Entry, entry, entries}
use turbo_stream.WrapHeap
use turbo_stream.WrapHeap.Contract.{pick-Picks}
use turbo_stream.DoubleBuffer.{Env, DoubleBuffer}
use turbo_stream.DoubleBuffer.Read.{drop_from, pick_loop, max_retries}
use turbo_stream.DoubleBuffer.View.{IsEnv, Parts, CurrentHolds, HeapHolds, Shows, Numbered}
use turbo_stream.DoubleBuffer.View.Switches.{keep_heap}
use turbo_stream.DoubleBuffer.View.Turns.{pick-first}

module _ {T : Type 0} (env : Env T) (law : IsEnv env) {c : ℕ} {d : DoubleBuffer T} {p : Parts}
    (v : Shows env law c d p) where
  -- A current buffer that is used up goes back to the pool, fresh.
  pub dropped-Shows :
      (o : Option SmartBuffer)
      → d.current_buffer ≡ o
      → CurrentHolds c o []
      → Shows env law c (drop_from env d o) (record p { current = [] })
        × ((drop_from env d o).current_buffer ≡ none)
  unfolding drop_from
  dropped-Shows none e h = (
    record {
      open_ = v.open_;
      sized = v.sized;
      positive = v.positive;
      small = v.small;
      active_holds = v.active_holds;
      active_mode = v.active_mode;
      passive_fresh = v.passive_fresh;
      pool_fresh = v.pool_fresh;
      current_holds = subst (λ (o : Option SmartBuffer). CurrentHolds c o []) (sym e) h;
      heap_holds = v.heap_holds;
      unpublished_hold = v.unpublished_hold;
    },
    e,
  )
  dropped-Shows (some b) e (n, h, bound) =
      let (f, m) = reset-Holds env.states c n h in
      (
        record {
          open_ = v.open_;
          sized = v.sized;
          positive = v.positive;
          small = v.small;
          active_holds = v.active_holds;
          active_mode = v.active_mode;
          passive_fresh = v.passive_fresh;
          pool_fresh = (record { empty = f; takes_writes = m }, v.pool_fresh);
          current_holds = refl;
          heap_holds = keep_heap env law v.heap_holds refl refl refl;
          unpublished_hold = v.unpublished_hold;
        },
        refl,
      )

  -- The double buffer after the pick of the first pending buffer.
  unfoldable pub picked : MinHeap → SmartBuffer → DoubleBuffer T
  picked rest b = record d {
    pending_heap = rest;
    current_buffer = some b;
    current_sequence = add_int64 d.current_sequence (pos 1);
  }

  pub pick_loop-picked :
      (between : DoubleBuffer T → DoubleBuffer T) (rest : MinHeap) (item : MinHeapItem)
      → WrapHeap.pick env.heap d.pending_heap ≡ ok (rest, some item)
      → item.sequence ≡ d.current_sequence
      → pick_loop env between max_retries d ≡ ok (picked rest item.buf, true)
  unfolding pick_loop picked
  pick_loop-picked between rest item e q =
      rw (e, pick_loop, ==ℤ_of_eq item.sequence d.current_sequence q)

  pub pick_loop-empty :
      (between : DoubleBuffer T → DoubleBuffer T) (n : ℕ)
      → d.pending_heap ≡ []
      → pick_loop env between (suc n) d ≡ ok (d, false)
  unfolding pick_loop WrapHeap.pick
  pick_loop-empty between n e = rw (e, pick_loop, WrapHeap.pick)

  -- The first pending buffer is the one whose turn it is.
  pub record PicksFirst (l : List BufferItem) (ls : List (List BufferItem)) : Type 0 where
    pub rest : MinHeap
    pub buffer : SmartBuffer
    pub returns :
        (between : DoubleBuffer T → DoubleBuffer T)
        → pick_loop env between max_retries d ≡ ok (picked rest buffer, true)
    pub holds : Holds c buffer 0 l
    pub heap_left : HeapHolds env law c (picked rest buffer) ls

  pub heap-PicksFirst :
      (l : List BufferItem) (ls : List (List BufferItem))
      → HeapHolds env law c d (l ∷ ls)
      → PicksFirst l ls
  unfolding picked
  heap-PicksFirst l ls h = go h.order h.same h.numbered
    where
      go :
          (order : List Entry)
          → Perm (entries d.pending_heap) order
          → Numbered c h.next order (l ∷ ls)
          → PicksFirst l ls
      go [] same num = absurd num
      go (x ∷ es) same num =
          let some_item : d.pending_heap ≢ [] =
            λ z. omega (arith, length-perm same, ap (λ (m : MinHeap). length (entries m)) z) in
          let r = pick-Picks env.heap law.heap_law d.pending_heap some_item h.good in
          let (q, left) =
            pick-first c h.next (entries r.rest) (entry r.item) x es l ls num
              (Perm.trans (Perm.symm r.same) same) r.smallest in
          record {
            rest = r.rest;
            buffer = r.item.buf;
            returns = λ between.
                pick_loop-picked between r.rest r.item r.returns
                  (ap (λ (y : Entry). y.0) q ∙ num.0 ∙ sym h.current_at);
            holds = subst (λ (y : Entry). Holds c y.1 0 l) (sym q) num.1;
            heap_left = record {
              good = r.good;
              next = suc h.next;
              order = es;
              same = left;
              numbered = num.2;
              current_at =
                  ap (λ (z : ℤ). add_int64 z (pos 1)) h.current_at
                  ∙ add_int64-one h.next (omega (arith, h.small))
                  ∙ ap pos {x = h.next + 1} (omega arith);
              last_at = h.last_at ∙ ap pos {x = h.next + length (l ∷ ls) - 1} (omega arith);
              from_one = omega arith;
              small = omega (arith, h.small);
            };
          }
