-- ===== src/DoubleBuffer/View/Append.antt =====
-- `Write` as a whole: an open double buffer takes data of any size from one byte up.
use turbo_stream.Prelude.{
  ℕ, ◌<◌, ◌≤◌, ◌+◌, length, ◌≡◌, ◌≢◌, refl, sym, ◌∙◌, ap, subst, arith, List, [], ◌∷◌, ◌++◌,
}
use turbo_stream.Prelude.Int.{pos, half32, wrap, ==ℤ_of_eq, ==ℤ_of_ne, ltb_ℤ}
use turbo_stream.Outside
use turbo_stream.Outside.{Result, ok, err, panic}
use turbo_stream.SmartBuffer.{BufferItem}
use turbo_stream.DoubleBuffer.{Env, DoubleBuffer}
use turbo_stream.DoubleBuffer.Memory.{
  Memory, memory, IsFree, IsKept, Evolves, Evolves-trans, eq-Evolves,
}
use turbo_stream.DoubleBuffer.Write.{place, place_small, fast_path, write, bytes_at}
use turbo_stream.DoubleBuffer.View.{IsEnv, Parts, contents, Shows}
use turbo_stream.DoubleBuffer.View.Writes.{fast_path-WritesTo}
use turbo_stream.DoubleBuffer.View.Same.{Shows-IsSame, place-Places}

wrap-pos : (n : ℕ) → n < half32 → wrap half32 (pos n) ≡ pos n
unfolding wrap
wrap-pos n h = ground arith

module _ {T : Type 0} (env : Env T) (d : DoubleBuffer T) (now : T) where
  write-placed :
      (ptr len_ : ℕ) (e : DoubleBuffer T) (item : BufferItem)
      → d.state ≢ env.states.closed_state
      → len_ < half32
      → place env d ptr (pos len_) now ≡ ok (e, item)
      → write env d ptr len_ now ≡ fast_path env e item now
  unfolding write
  write-placed ptr len_ e item ne small r =
      rw (==ℤ_of_ne d.state env.states.closed_state ne, wrap-pos len_ small, r, write)

  -- A closed double buffer refuses every write and is left as it was.
  pub write-closed :
      (ptr len_ : ℕ)
      → d.state ≡ env.states.closed_state
      → write env d ptr len_ now ≡ (d, err Outside.buffer_closed)
  unfolding write
  write-closed ptr len_ e = rw (==ℤ_of_eq d.state env.states.closed_state e)

  -- A write of no bytes to a double buffer that is not closed panics.
  pub write_empty-panics :
      (ptr : ℕ) → d.state ≢ env.states.closed_state → (write env d ptr 0 now).1 ≡ panic
  unfolding write place place_small ltb_ℤ
  write_empty-panics ptr ne =
      rw (==ℤ_of_ne d.state env.states.closed_state ne, wrap-pos 0 (omega arith)) refl

module _ {T : Type 0} (env : Env T) (law : IsEnv env) {c : ℕ} {d : DoubleBuffer T} {p : Parts}
    (v : Shows env law c d p) where
  -- What a write of n bytes leaves: a view with one more item, of n bytes, at whose address stand
  -- the bytes that stood at the data's address.
  pub record Appends (ptr n : ℕ) (now : T) : Type 0 where
    pub item : BufferItem
    pub parts : Parts
    pub succeeds : (write env d ptr n now).1 ≡ ok tt
    pub shows : Shows env law c (write env d ptr n now).0 parts
    pub appended : contents parts ≡ contents p ++ item ∷ []
    pub waits : length parts.unpublished ≤ length p.unpublished + 1
    pub sized : item.size ≡ pos n
    pub copied : bytes_at (write env d ptr n now).0.store item.ptr ≡ bytes_at d.store ptr
    pub sequence : (write env d ptr n now).0.sequence ≡ d.sequence
    pub mode : (write env d ptr n now).0.read_mode ≡ d.read_mode
    pub evolves : (held : List ℕ) → Evolves (memory d) held (memory (write env d ptr n now).0) held
    pub item_kept :
        (held : List ℕ)
        → IsFree (memory d) held
        → IsKept (memory d) held ptr
        → IsKept (memory (write env d ptr n now).0) held item.ptr

  -- A write of n bytes, 0 < n < 2^31, to an open double buffer succeeds and appends an item of n
  -- bytes, with the data's bytes at its address, to the items that are still unread, also where the
  -- active buffer is full.
  pub write-Appends : (ptr n : ℕ) (now : T) → 0 < n → n < half32 → Appends ptr n now
  write-Appends ptr n now h small =
      let r = place-Places env law d ptr n now h in
      let w = fast_path-WritesTo env law (Shows-IsSame env law v r.same) r.item now in
      let e =
        write-placed env d now ptr n r.after r.item
          (λ f. law.distinct.writing_ne_closed (sym v.open_ ∙ f)) small r.returns in
      let same = ap (λ (x : DoubleBuffer T × Result (Unit {0})). memory x.0) e ∙ w.kept in
      record {
        item = r.item;
        parts = w.parts;
        succeeds = ap (λ (x : DoubleBuffer T × Result (Unit {0})). x.1) e ∙ w.succeeds;
        shows =
            subst (λ (x : DoubleBuffer T × Result (Unit {0})). Shows env law c x.0 w.parts) (sym e)
              w.shows;
        appended = w.appended;
        waits = w.waits;
        sized = r.sized;
        copied =
            ap (λ (x : DoubleBuffer T × Result (Unit {0})). bytes_at x.0.store r.item.ptr) e
            ∙ ap (λ (m : Memory). bytes_at m.store r.item.ptr) w.kept
            ∙ r.copied;
        sequence =
            ap (λ (x : DoubleBuffer T × Result (Unit {0})). x.0.sequence) e
            ∙ w.sequence
            ∙ r.same.sequence;
        mode =
            ap (λ (x : DoubleBuffer T × Result (Unit {0})). x.0.read_mode) e
            ∙ w.mode
            ∙ r.same.read_mode;
        evolves = λ held. Evolves-trans (r.evolves held) (eq-Evolves held same);
        item_kept = λ held f k.
            subst (λ (m : Memory). IsKept m held r.item.ptr) (sym same) (r.item_kept held f k);
      }
