-- ===== src/DoubleBuffer/View/Writes.antt =====
-- `Write` once the data is placed loses nothing: what its two paths do to the view.
use turbo_stream.Prelude.{
  ℕ, ◌<◌, ◌≤◌, ◌+◌, length-append, ◌≡◌, refl, sym, ap, ◌∙◌, subst, arith, List, [], ◌∷◌, ◌++◌,
  length, append_assoc, dec_lt, inl, inr, ◌⊎◌,
}
use turbo_stream.Prelude.Int.{ℤ, pos, add_int32, ==ℤ_of_eq}
use turbo_stream.Outside
use turbo_stream.Outside.{States, AreDistinct, Result, ok, err, panic}
use turbo_stream.SmartBuffer.{BufferItem, SmartBuffer, set_state, get_state, new_smart_buffer, push}
use turbo_stream.SmartBuffer
use turbo_stream.SmartBuffer.Fifo.{push_refines, push-full, push-sealed, write-push, state-Holds}
use turbo_stream.DoubleBuffer.{Env, DoubleBuffer}
use turbo_stream.DoubleBuffer.Switch.{switch_channel}
use turbo_stream.DoubleBuffer.Memory.{memory}
use turbo_stream.DoubleBuffer.Write.{write_active, counted, slow_path, fast_path, after_fast}
use turbo_stream.DoubleBuffer.View.{IsEnv, Parts, contents, Shows}
use turbo_stream.DoubleBuffer.View.Switches.{
  keep_heap, switch_channel-kept, contents-switched_parts,
}

module _ {T : Type 0} (env : Env T) (d : DoubleBuffer T) (item : BufferItem) (a : SmartBuffer) where
  write_active-ok :
      SmartBuffer.write env.states d.active item ≡ (a, ok tt)
      → write_active env d item
        ≡ (record d { active = a; count = add_int32 d.count (pos 1) }, ok tt)
  unfolding write_active
  write_active-ok e = ap (counted env d) e

  write_active-err :
      SmartBuffer.write env.states d.active item ≡ (a, err Outside.read_only)
      → write_active env d item ≡ (record d { active = a }, err Outside.read_only)
  unfolding write_active
  write_active-err e = ap (counted env d) e

module _ {T : Type 0} (env : Env T) (law : IsEnv env) {c : ℕ} {d : DoubleBuffer T} {p : Parts}
    (v : Shows env law c d p) where
  written : BufferItem → DoubleBuffer T
  written item = record d {
    active = (push env.states d.active item).0;
    count = add_int32 d.count (pos 1);
  }

  -- The active buffer has room.
  abbrev HasRoom : Type 0
  HasRoom = (d.active.state ≡ env.states.write_only) × (length p.active < c)

  write_active-written :
      (item : BufferItem) → HasRoom → write_active env d item ≡ (written item, ok tt)
  unfolding written
  write_active-written item (open_, room) =
      let (r, h, m) =
        push_refines env.states v.active_holds item (omega (arith, v.small))
          (λ e. law.distinct.open_ne_read (sym open_ ∙ e)) room in
      write_active-ok env d item (push env.states d.active item).0 (
        write-push env.states d.active item (λ e. law.distinct.open_ne_closed (sym open_ ∙ e))
        ∙ ap (λ (x : Result (Unit {0})). ((push env.states d.active item).0, x)) r)

  abbrev written_parts : BufferItem → Parts
  written_parts item = record p { active = p.active ++ item ∷ [] }

  written-Shows :
      (item : BufferItem) → HasRoom → Shows env law c (written item) (written_parts item)
  unfolding written
  written-Shows item (open_, room) =
      let (r, h, m) =
        push_refines env.states v.active_holds item (omega (arith, v.small))
          (λ e. law.distinct.open_ne_read (sym open_ ∙ e)) room in
      record {
        open_ = v.open_;
        sized = v.sized;
        positive = v.positive;
        small = v.small;
        active_holds = h;
        active_mode = inl (m ∙ open_);
        passive_fresh = v.passive_fresh;
        pool_fresh = v.pool_fresh;
        current_holds = v.current_holds;
        heap_holds = keep_heap env law v.heap_holds refl refl refl;
        unpublished_hold = v.unpublished_hold;
      }

  contents-written_parts :
      (item : BufferItem) → contents (written_parts item) ≡ contents p ++ item ∷ []
  contents-written_parts item = simp append_assoc

  sealed : DoubleBuffer T
  sealed = record d { active = set_state env.states d.active env.states.read_only }

  -- Otherwise the active buffer is full.
  no_room : ¬ HasRoom → length p.active ≡ c
  no_room full = elim v.active_mode [
    | inl open_ ↦ elim (dec_lt (length p.active) c) [
      | yes room ↦ absurd (full (open_, room))
      | no h ↦ omega (arith, v.active_holds.fits)
    ]
    | inr (ro, e) ↦ e
  ]

  write-sealed :
      (item : BufferItem)
      → ¬ HasRoom
      → SmartBuffer.write env.states d.active item ≡ (sealed.active, err Outside.read_only)
  unfolding sealed set_state
  write-sealed item full = elim v.active_mode [
    | inl open_ ↦
        write-push env.states d.active item (λ e. law.distinct.open_ne_closed (sym open_ ∙ e))
        ∙ push-full env.states v.active_holds item law.distinct.open_ne_read open_ (no_room full)
    | inr (ro, e) ↦
        write-push env.states d.active item (λ f. law.distinct.read_ne_closed (sym ro ∙ f))
        ∙ push-sealed env.states d.active item ro
        ∙ ap (λ (st : ℤ). (record d.active { state = st }, err Outside.read_only)) ro
  ]

  -- Then the write is refused, and the active buffer is read-only.
  write_active-sealed :
      (item : BufferItem) → ¬ HasRoom → write_active env d item ≡ (sealed, err Outside.read_only)
  unfolding sealed
  write_active-sealed item full = write_active-err env d item _ (write-sealed item full)

  sealed-Shows : ¬ HasRoom → Shows env law c sealed p
  unfolding sealed set_state
  sealed-Shows full = record {
    open_ = v.open_;
    sized = v.sized;
    positive = v.positive;
    small = v.small;
    active_holds = state-Holds env.states v.active_holds env.states.read_only;
    active_mode = inr (refl, no_room full);
    passive_fresh = v.passive_fresh;
    pool_fresh = v.pool_fresh;
    current_holds = v.current_holds;
    heap_holds = keep_heap env law v.heap_holds refl refl refl;
    unpublished_hold = v.unpublished_hold;
  }

  sealed_mode : sealed.active.state ≡ env.states.read_only
  unfolding sealed set_state
  sealed_mode = refl

  dec_room : HasRoom ⊎ ¬ HasRoom
  dec_room = elim v.active_mode [
    | inl open_ ↦ elim (dec_lt (length p.active) c) [
      | yes room ↦ inl (open_, room)
      | no h ↦ inr (λ r. h r.1)
    ]
    | inr (ro, e) ↦ inr (λ r. law.distinct.open_ne_read (sym r.0 ∙ ro))
  ]

-- A write to an open double buffer, by either path, succeeds and puts its item behind all the items
-- that are still unread.
module _ {T : Type 0} (env : Env T) (law : IsEnv env) {c : ℕ} {d : DoubleBuffer T} {p : Parts}
    (v : Shows env law c d p) where
  -- What a successful write leaves.
  pub record WritesTo (item : BufferItem) (r : DoubleBuffer T × Result (Unit {0})) : Type 0 where
    pub parts : Parts
    pub succeeds : r.1 ≡ ok tt
    pub shows : Shows env law c r.0 parts
    pub appended : contents parts ≡ contents p ++ item ∷ []
    pub waits : length parts.unpublished ≤ length p.unpublished + 1
    pub kept : memory r.0 ≡ memory d
    pub sequence : r.0.sequence ≡ d.sequence
    pub mode : r.0.read_mode ≡ d.read_mode

  written-WritesTo :
      (item : BufferItem) → HasRoom env law v → WritesTo item (written env law v item, ok tt)
  unfolding written
  written-WritesTo item room = record {
    parts = written_parts env law v item;
    succeeds = refl;
    shows = written-Shows env law v item room;
    appended = contents-written_parts env law v item;
    waits = omega arith;
    kept = refl;
    sequence = refl;
    mode = refl;
  }

-- Sealing the active buffer does not show in the result.
reseal :
    {T : Type 0} (env : Env T) (law : IsEnv env) {c : ℕ} {d e : DoubleBuffer T} {p : Parts}
    {item : BufferItem} {r : DoubleBuffer T × Result (Unit {0})} (v : Shows env law c d p)
    (w : Shows env law c e p)
    → memory e ≡ memory d
    → e.sequence ≡ d.sequence
    → e.read_mode ≡ d.read_mode
    → WritesTo env law w item r
    → WritesTo env law v item r
reseal env law v w s q m t = record {
  parts = t.parts;
  succeeds = t.succeeds;
  shows = t.shows;
  appended = t.appended;
  waits = t.waits;
  kept = t.kept ∙ s;
  sequence = t.sequence ∙ q;
  mode = t.mode ∙ m;
}

module _ {T : Type 0} (env : Env T) (d : DoubleBuffer T) (item : BufferItem) (now : T) where
  slow_path-switched :
      (e : DoubleBuffer T)
      → d.active.state ≡ env.states.read_only
      → switch_channel env d now ≡ ok e
      → slow_path env d item now ≡ write_active env e item
  unfolding slow_path get_state
  slow_path-switched e ro s = rw (==ℤ_of_eq d.active.state env.states.read_only ro, s, slow_path)

  fast_path-open :
      d.state ≡ env.states.writing_state
      → fast_path env d item now ≡ after_fast env now item (write_active env d item)
  unfolding fast_path
  fast_path-open o = rw (==ℤ_of_eq d.state env.states.writing_state o)

module _ {T : Type 0} (env : Env T) (law : IsEnv env) {c : ℕ} where
  -- A buffer that was just switched has room.
  switched-HasRoom :
      {d : DoubleBuffer T} {p : Parts} (v : Shows env law c d p) → p.active ≡ [] → HasRoom env law v
  switched-HasRoom v e = elim v.active_mode [
    | inl open_ ↦ (open_, omega (arith, ap length e, v.positive))
    | inr (ro, f) ↦ absurd (omega (arith, ap length e, v.positive))
  ]

  slow_path-WritesTo :
      {d : DoubleBuffer T} {p : Parts} (v : Shows env law c d p) (item : BufferItem) (now : T)
      → d.active.state ≡ env.states.read_only
      → WritesTo env law v item (slow_path env d item now)
  unfolding written
  slow_path-WritesTo {d} {p} v item now ro =
      let (e, s, w, sequence, mode, kept) = switch_channel-kept env law v now in
      let room = switched-HasRoom w refl in
      let out =
        slow_path-switched env d item now e ro s ∙ write_active-written env law w item room in
      subst (WritesTo env law v item) (sym out) (record {
        parts = written_parts env law w item;
        succeeds = refl;
        shows = written-Shows env law w item room;
        appended =
            contents-written_parts env law w item
            ∙ ap (λ (l : List BufferItem). l ++ item ∷ []) (contents-switched_parts env law v);
        waits = omega (arith, length-append p.unpublished (p.active ∷ []));
        kept = kept;
        sequence = sequence;
        mode = mode;
      })

  -- A write by the fast path to an open double buffer succeeds, also where the active buffer is
  -- full, and puts its item behind all the unread items.
  pub fast_path-WritesTo :
      {d : DoubleBuffer T} {p : Parts} (v : Shows env law c d p) (item : BufferItem) (now : T)
      → WritesTo env law v item (fast_path env d item now)
  unfolding after_fast sealed
  fast_path-WritesTo {d} v item now = elim (dec_room env law v) [
    | inl room ↦
        subst (WritesTo env law v item)
          (sym (
            fast_path-open env d item now v.open_
            ∙ ap (after_fast env now item) (write_active-written env law v item room)))
          (written-WritesTo env law v item room)
    | inr full ↦
        subst (WritesTo env law v item)
          (sym (
            fast_path-open env d item now v.open_
            ∙ ap (after_fast env now item) (write_active-sealed env law v item full)))
          (reseal env law v (sealed-Shows env law v full) refl refl refl
            (slow_path-WritesTo (sealed-Shows env law v full) item now (sealed_mode env law v)))
  ]
