-- ===== src/DoubleBuffer/View/Switches.antt =====
-- A switch loses nothing: what `switchChannel` and `swapChannels` do to the view.
use mathlib.Core.List.{Perm}
use turbo_stream.Prelude.{
  ℕ, ◌≡◌, refl, sym, ap, ◌∙◌, subst, none, some, List, [], ◌∷◌, ◌++◌, append-nil, append_assoc,
  Option-cases, inl, inr,
}
use turbo_stream.Prelude.Int.{pos, ==ℤ_of_eq}
use turbo_stream.Outside.{States, ok}
use turbo_stream.SmartBuffer.{BufferItem, SmartBuffer, set_state, new_smart_buffer}
use turbo_stream.SmartBuffer.Fifo.{state-Holds, new_smart_buffer-Holds}
use turbo_stream.SmartBuffer.Stored.{Holds}
use turbo_stream.MinHeap.{MinHeap}
use turbo_stream.MinHeap.Swaps.{entries}
use turbo_stream.WrapHeap.Contract.{IsGood}
use turbo_stream.DoubleBuffer.Memory.{memory}
use turbo_stream.DoubleBuffer.{Env, DoubleBuffer, get_pooled}
use turbo_stream.DoubleBuffer.Switch.{switch_channel}
use turbo_stream.DoubleBuffer.View.{
  IsEnv, IsFresh, AllFresh, HoldAll, Parts, contents, HeapHolds, Shows, concat,
}

HoldAll-append :
    (c : ℕ) (bs : List SmartBuffer) (ls : List (List BufferItem)) (b : SmartBuffer)
    (l : List BufferItem)
    → HoldAll c bs ls
    → Holds c b 0 l
    → HoldAll c (bs ++ b ∷ []) (ls ++ l ∷ [])
HoldAll-append c [] [] b l h v = (v, tt)
HoldAll-append c [] (x ∷ ls) b l h v = absurd h
HoldAll-append c (a ∷ bs) [] b l h v = absurd h
HoldAll-append c (a ∷ bs) (x ∷ ls) b l h v = (h.0, HoldAll-append c bs ls b l h.1 v)

-- Fresh buffers of which one is taken out.
AllFresh-take :
    (k : States) (c : ℕ) (before after : List SmartBuffer) (b : SmartBuffer)
    → AllFresh k c (before ++ b ∷ after)
    → IsFresh k c b × AllFresh k c (before ++ after)
AllFresh-take k c [] after b h = h
AllFresh-take k c (x ∷ before) after b (f, h) =
    let (g, r) = AllFresh-take k c before after b h in (g, (f, r))

pub concat-append :
    (ls : List (List BufferItem)) (l : List BufferItem) → concat (ls ++ l ∷ []) ≡ concat ls ++ l
concat-append [] l = append-nil l
concat-append (x ∷ ls) l = rw (concat-append ls l) (sym (append_assoc x (concat ls) l))

-- The view of the heap does not depend on the other fields.
pub keep_heap :
    {T : Type 0} (env : Env T) (law : IsEnv env) {c : ℕ} {d e : DoubleBuffer T}
    {ls : List (List BufferItem)}
    → HeapHolds env law c d ls
    → e.pending_heap ≡ d.pending_heap
    → e.sequence ≡ d.sequence
    → e.current_sequence ≡ d.current_sequence
    → HeapHolds env law c e ls
keep_heap env law h p q r = record {
  good = subst (IsGood env.heap law.heap_law) (sym p) h.good;
  next = h.next;
  order = h.order;
  same = subst (λ (m : MinHeap). Perm (entries m) h.order) (sym p) h.same;
  numbered = h.numbered;
  current_at = r ∙ h.current_at;
  last_at = q ∙ h.last_at;
  from_one = h.from_one;
  small = h.small;
}

module _ {T : Type 0} (env : Env T) (law : IsEnv env) {c : ℕ} {d : DoubleBuffer T} {p : Parts}
    (v : Shows env law c d p) where
  -- What the pool hands out is fresh, and so are the others in it.
  pub record Pooled : Type 0 where
    pub buffer : SmartBuffer
    pub rest : List SmartBuffer
    pub returns : get_pooled env d ≡ ok (buffer, rest)
    pub buffer_fresh : IsFresh env.states c buffer
    pub rest_fresh : AllFresh env.states c rest

  get_pooled-made :
      (b : SmartBuffer)
      → env.get_buffer d.pool ≡ none
      → new_smart_buffer env.states d.size ≡ ok b
      → get_pooled env d ≡ ok (b, d.pool)
  unfolding get_pooled
  get_pooled-made b e m = rw (e, get_pooled, m)

  get_pooled-reused :
      (b : SmartBuffer) (rest : List SmartBuffer)
      → env.get_buffer d.pool ≡ some (b, rest)
      → get_pooled env d ≡ ok (b, rest)
  unfolding get_pooled
  get_pooled-reused b rest e = rw (e, get_pooled)

  get_pooled-Pooled : Pooled
  get_pooled-Pooled = elim (Option-cases (env.get_buffer d.pool)) [
    | inl e ↦
        let (b, made, h, m) = new_smart_buffer-Holds env.states c v.small in
        record {
          buffer = b;
          rest = d.pool;
          returns = get_pooled-made b e (ap (new_smart_buffer env.states) v.sized ∙ made);
          buffer_fresh = record { empty = h; takes_writes = m };
          rest_fresh = v.pool_fresh;
        }
    | inr ((b, rest), e) ↦
        let (before, after, same, left) = law.pool_law d.pool rest b e in
        let (fresh, others) =
          AllFresh-take env.states c before after b
            (subst (λ (xs : List SmartBuffer). AllFresh env.states c xs) same v.pool_fresh) in
        record {
          buffer = b;
          rest = rest;
          returns = get_pooled-reused b rest e;
          buffer_fresh = fresh;
          rest_fresh =
              subst (λ (xs : List SmartBuffer). AllFresh env.states c xs) (sym left) others;
        }
  ]

  switched : T → Pooled → DoubleBuffer T
  switched now g = record d {
    active = d.passive;
    passive = g.buffer;
    pool = g.rest;
    count = pos 0;
    last_switch = now;
    state = env.states.writing_state;
    publishing = d.publishing ++ set_state env.states d.active env.states.read_only ∷ [];
  }

  switch_channel-switched : (now : T) (g : Pooled) → switch_channel env d now ≡ ok (switched now g)
  unfolding switch_channel switched
  switch_channel-switched now g =
      rw (==ℤ_of_eq d.state env.states.writing_state v.open_, g.returns, switch_channel)

  abbrev switched_parts : Parts
  switched_parts = record p { unpublished = p.unpublished ++ p.active ∷ []; active = [] }

  switched-Shows : (now : T) (g : Pooled) → Shows env law c (switched now g) switched_parts
  unfolding switched set_state
  switched-Shows now g = record {
    open_ = refl;
    sized = v.sized;
    positive = v.positive;
    small = v.small;
    active_holds = v.passive_fresh.empty;
    active_mode = inl v.passive_fresh.takes_writes;
    passive_fresh = g.buffer_fresh;
    pool_fresh = g.rest_fresh;
    current_holds = v.current_holds;
    heap_holds = keep_heap env law v.heap_holds refl refl refl;
    unpublished_hold =
        HoldAll-append c d.publishing p.unpublished _ p.active v.unpublished_hold
          (state-Holds env.states v.active_holds env.states.read_only);
  }

  pub contents-switched_parts : contents switched_parts ≡ contents p
  contents-switched_parts =
      ap (λ (l : List BufferItem). p.current ++ (concat p.heaped ++ l))
        (append-nil _ ∙ concat-append p.unpublished p.active)

  -- A switch of an open double buffer succeeds, leaves the unread items, their order, the stored
  -- bytes and the arrays in use as they were, puts the active buffer behind those that wait to be published, and leaves an
  -- empty active one.
  pub switch_channel-Shows :
      (now : T)
      → (d' : DoubleBuffer T) × (q : Parts) × (switch_channel env d now ≡ ok d')
        × Shows env law c d' q
        × (contents q ≡ contents p)
        × (q.unpublished ≡ p.unpublished ++ p.active ∷ [])
        × (q.active ≡ [])
        × (memory d' ≡ memory d)
  unfolding switched
  switch_channel-Shows now =
      let g = get_pooled-Pooled in
      (
        switched now g,
        switched_parts,
        switch_channel-switched now g,
        switched-Shows now g,
        contents-switched_parts,
        refl,
        refl,
        refl,
      )

  -- The parts that a switch leaves, and the fields that it keeps.
  pub switch_channel-kept :
      (now : T)
      → (d' : DoubleBuffer T) × (switch_channel env d now ≡ ok d')
        × Shows env law c d'
            (record p { unpublished = p.unpublished ++ p.active ∷ []; active = [] })
        × (d'.sequence ≡ d.sequence)
        × (d'.read_mode ≡ d.read_mode)
        × (memory d' ≡ memory d)
  unfolding switched
  switch_channel-kept now =
      let g = get_pooled-Pooled in
      (switched now g, switch_channel-switched now g, switched-Shows now g, refl, refl, refl)
