-- ===== src/DoubleBuffer/View/Publishes.antt =====
-- The goroutines that `switchChannel` starts: run in the order of their switches they move the
-- switched buffers to the heap in that order.
use mathlib.Core.List.{perm_append_singleton}
use mathlib.Core.List.Perm
use turbo_stream.Prelude.{
  ℕ, suc, ◌+◌, ◌-◌, ◌<◌, ◌≡◌, refl, sym, ◌∙◌, ap, subst, arith, List, [], ◌∷◌, ◌++◌, length,
  length-append, append_assoc, get_elem?, none,
}
use turbo_stream.Prelude.Int.{ℤ, pos, pos_part, half64, add_int64, add_int64-one}
use turbo_stream.SmartBuffer.{BufferItem, SmartBuffer}
use turbo_stream.SmartBuffer.Stored.{Holds}
use turbo_stream.MinHeap.{MinHeapItem}
use turbo_stream.MinHeap.Swaps.{Entry, entry}
use turbo_stream.WrapHeap
use turbo_stream.WrapHeap.Contract.{push_lem}
use turbo_stream.DoubleBuffer.{Env, DoubleBuffer}
use turbo_stream.DoubleBuffer.Memory.{memory}
use turbo_stream.DoubleBuffer.Switch.{publish, remove_at}
use turbo_stream.DoubleBuffer.View.{IsEnv, HoldAll, Numbered, Parts, contents, HeapHolds, Shows}
use turbo_stream.DoubleBuffer.View.Switches.{concat-append}

Numbered-append :
    (c n : ℕ) (es : List Entry) (ls : List (List BufferItem)) (x : Entry) (l : List BufferItem)
    → Numbered c n es ls
    → x.0 ≡ pos (n + length ls)
    → Holds c x.1 0 l
    → Numbered c n (es ++ x ∷ []) (ls ++ l ∷ [])
Numbered-append c n [] [] x l h e k = (e ∙ ap pos {x = n + 0} (omega arith), k, tt)
Numbered-append c n [] (l' ∷ ls) x l h e k = absurd h
Numbered-append c n (y ∷ es) [] x l h e k = absurd h
Numbered-append c n (y ∷ es) (l' ∷ ls) x l h e k = (
  h.0,
  h.1,
  Numbered-append c (suc n) es ls x l h.2 (e ∙ ap pos {x = n + suc (length ls)} (omega arith)) k,
)

module _ {T : Type 0} (env : Env T) (law : IsEnv env) {c : ℕ} {d : DoubleBuffer T} {p : Parts}
    (v : Shows env law c d p) where
  abbrev item_of : SmartBuffer → MinHeapItem
  item_of b = record { sequence = add_int64 d.sequence (pos 1); buf = b; index = pos 0 }

  published : SmartBuffer → List SmartBuffer → DoubleBuffer T
  published b bs = record d {
    sequence = add_int64 d.sequence (pos 1);
    pending_heap = WrapHeap.push env.heap d.pending_heap (item_of b);
    publishing = bs;
    notifying = d.notifying ++ b.count ∷ [];
  }

  publish-published :
      (b : SmartBuffer) (bs : List SmartBuffer)
      → d.publishing ≡ b ∷ bs
      → publish env d 0 ≡ published b bs
  unfolding publish published remove_at
  publish-published b bs e = rw (e, publish, e) refl

  next_sequence :
      v.heap_holds.next + length p.heaped + 1 < half64
      → add_int64 d.sequence (pos 1) ≡ pos (v.heap_holds.next + length p.heaped)
  next_sequence bound =
      let h = v.heap_holds in
      ap (λ (z : ℤ). add_int64 z (pos 1)) h.last_at
      ∙ add_int64-one (h.next + length p.heaped - 1) (omega (arith, bound))
      ∙ ap pos {x = h.next + length p.heaped - 1 + 1} (omega (arith, h.from_one))

  published-HeapHolds :
      (b : SmartBuffer) (bs : List SmartBuffer) (l : List BufferItem)
      → Holds c b 0 l
      → v.heap_holds.next + length p.heaped + 1 < half64
      → HeapHolds env law c (published b bs) (p.heaped ++ l ∷ [])
  unfolding published
  published-HeapHolds b bs l k bound =
      let h = v.heap_holds in
      let (good, same) = push_lem env.heap law.heap_law d.pending_heap (item_of b) h.good in
      record {
        good = good;
        next = h.next;
        order = h.order ++ entry (item_of b) ∷ [];
        same = Perm.trans same (
            Perm.trans (Perm.cons _ h.same)
              (Perm.symm (perm_append_singleton (entry (item_of b)) h.order)));
        numbered =
            Numbered-append c h.next h.order p.heaped (entry (item_of b)) l h.numbered
              (next_sequence bound) k;
        current_at = h.current_at;
        last_at =
            next_sequence bound
            ∙ ap pos {x = h.next + length p.heaped}
                (omega (arith, length-append p.heaped (l ∷ [])));
        from_one = h.from_one;
        small = omega (arith, length-append p.heaped (l ∷ []), bound);
      }

  abbrev published_parts : List BufferItem → List (List BufferItem) → Parts
  published_parts l ls = record p { heaped = p.heaped ++ l ∷ []; unpublished = ls }

  published-Shows :
      (b : SmartBuffer) (bs : List SmartBuffer) (l : List BufferItem) (ls : List (List BufferItem))
      → Holds c b 0 l
      → HoldAll c bs ls
      → v.heap_holds.next + length p.heaped + 1 < half64
      → Shows env law c (published b bs) (published_parts l ls)
  unfolding published
  published-Shows b bs l ls k ks bound = record {
    open_ = v.open_;
    sized = v.sized;
    positive = v.positive;
    small = v.small;
    active_holds = v.active_holds;
    active_mode = v.active_mode;
    passive_fresh = v.passive_fresh;
    pool_fresh = v.pool_fresh;
    current_holds = v.current_holds;
    heap_holds = published-HeapHolds b bs l k bound;
    unpublished_hold = ks;
  }

  contents-published_parts :
      (l : List BufferItem) (ls : List (List BufferItem))
      → p.unpublished ≡ l ∷ ls
      → contents (published_parts l ls) ≡ contents p
  contents-published_parts l ls e = rw (e, concat-append p.heaped l) (simp append_assoc)

  -- Publishing the buffer that was switched out first keeps the unread items and their order, and
  -- moves that buffer's items behind those on the heap, as long as its sequence number n + 1 stays below
  -- 2^63 - 1.
  pub publish_first-Shows :
      (l : List BufferItem) (ls : List (List BufferItem)) (n : ℕ)
      → p.unpublished ≡ l ∷ ls
      → d.sequence ≡ pos n
      → n + 2 < half64
      → Shows env law c (publish env d 0) (published_parts l ls)
        × (contents (published_parts l ls) ≡ contents p)
  publish_first-Shows l ls n e at room = (
    go d.publishing refl (subst (HoldAll c d.publishing) e v.unpublished_hold),
    contents-published_parts l ls e,
  )
    where
      bound : v.heap_holds.next + length p.heaped + 1 < half64
      bound =
          omega (arith, room, v.heap_holds.from_one, ap pos_part (sym at ∙ v.heap_holds.last_at))

      go :
          (bs : List SmartBuffer)
          → d.publishing ≡ bs
          → HoldAll c bs (l ∷ ls)
          → Shows env law c (publish env d 0) (published_parts l ls)
      go [] q k = absurd k
      go (b ∷ bs) q k =
          subst (λ (x : DoubleBuffer T). Shows env law c x (published_parts l ls))
            (sym (publish-published b bs q)) (published-Shows b bs l ls k.0 k.1 bound)

module _ {T : Type 0} (env : Env T) (d : DoubleBuffer T) where
  -- Publishing where nothing waits changes nothing.
  pub publish-empty : d.publishing ≡ [] → publish env d 0 ≡ d
  unfolding publish
  publish-empty e =
      let none_waits : get_elem? d.publishing 0 ≡ none =
        ap (λ (bs : List SmartBuffer). get_elem? bs 0) e in
      rw (none_waits, publish) refl

  -- What publishing the first buffer keeps, and the number that it draws.
  pub publish_first-kept :
      (b : SmartBuffer) (bs : List SmartBuffer)
      → d.publishing ≡ b ∷ bs
      → (memory (publish env d 0) ≡ memory d)
        × ((publish env d 0).read_mode ≡ d.read_mode)
        × ((publish env d 0).sequence ≡ add_int64 d.sequence (pos 1))
  unfolding publish
  publish_first-kept b bs e = rw (e, publish) (refl, refl, refl)
