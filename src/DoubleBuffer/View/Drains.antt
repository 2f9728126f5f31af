-- ===== src/DoubleBuffer/View/Drains.antt =====
-- Reading on: everything that was switched out and published is read, in order.
use turbo_stream.Prelude.{
  ℕ, ◌+◌, ◌<◌, ◌≡◌, ◌≢◌, refl, ap, subst, ◌∙◌, List, [], ◌∷◌, ◌++◌, get_elem?, Option-cases, inl,
  inr,
}
use turbo_stream.Prelude.Int.{pos, half64}
use turbo_stream.Outside.{ok}
use turbo_stream.SmartBuffer.{BufferItem}
use turbo_stream.DoubleBuffer.{Env, DataChunk, DoubleBuffer}
use turbo_stream.DoubleBuffer.Write.{bytes_at}
use turbo_stream.DoubleBuffer.Read.{try_read}
use turbo_stream.DoubleBuffer.Switch.{switch_channel, publish}
use turbo_stream.DoubleBuffer.Memory.{memory}
use turbo_stream.DoubleBuffer.View.{IsEnv, Parts, Shows, concat, contents}
use turbo_stream.DoubleBuffer.View.Starts.{nothing}
use turbo_stream.DoubleBuffer.View.Switches.{concat-append, switch_channel-kept}
use turbo_stream.DoubleBuffer.View.Publishes.{publish_first-Shows}
use turbo_stream.DoubleBuffer.View.Reads.{HasMode, keep-IsMode, IsItem, ReadsItem}
use turbo_stream.DoubleBuffer.View.Fronts.{current-some}
use turbo_stream.DoubleBuffer.View.Takes.{try_read-current, try_read-pending}

abbrev pub AreItems : List BufferItem → Type 0
AreItems [] = Unit {0}
AreItems (x ∷ xs) = IsItem x × AreItems xs

-- Buffers of items, none of them empty.
abbrev pub AreFilled : List (List BufferItem) → Type 0
AreFilled [] = Unit {0}
AreFilled (l ∷ ls) = (l ≢ []) × (AreItems l × AreFilled ls)

module _ {T : Type 0} (env : Env T) (between : DoubleBuffer T → DoubleBuffer T) (now : T) where
  -- A run of successful reads, and the items whose bytes it returns.
  pub data Delivers : DoubleBuffer T → List BufferItem → DoubleBuffer T → Type 0 where
    done : (d : DoubleBuffer T) → Delivers d [] d
    reads :
        {d : DoubleBuffer T} {f : DoubleBuffer T} {x : BufferItem} {xs : List BufferItem}
        (chunk : DataChunk)
        → (try_read env between d now).1 ≡ ok chunk
        → chunk.bytes.1 ≡ x.size
        → bytes_at (try_read env between d now).0.store chunk.bytes.0 ≡ bytes_at d.store x.ptr
        → Delivers (try_read env between d now).0 xs f
        → Delivers d (x ∷ xs) f

  Delivers-append :
      {d e f : DoubleBuffer T} {xs ys : List BufferItem}
      → Delivers d xs e
      → Delivers e ys f
      → Delivers d (xs ++ ys) f
  Delivers-append (done d) r = r
  Delivers-append (reads chunk a b c l) r = reads chunk a b c (Delivers-append l r)

module _ {T : Type 0} (env : Env T) (law : IsEnv env) (between : DoubleBuffer T → DoubleBuffer T)
    (now : T) (c : ℕ) where
  -- The outcome of reading on: all of the items are delivered, and the parts show what is left.
  pub record Drains (d : DoubleBuffer T) (xs : List BufferItem) (q : Parts) : Type 0 where
    pub after : DoubleBuffer T
    pub delivers : Delivers env between now d xs after
    pub shows : Shows env law c after q
    pub mode : after.read_mode ≡ d.read_mode

  reads_first :
      {d : DoubleBuffer T} {x : BufferItem} {xs : List BufferItem} {p q : Parts}
      → ReadsItem env law c d x p (try_read env between d now)
      → Drains (try_read env between d now).0 xs q
      → Drains d (x ∷ xs) q
  reads_first r m = record {
    after = m.after;
    delivers = reads r.chunk r.succeeds r.sized r.read m.delivers;
    shows = m.shows;
    mode = m.mode ∙ r.mode;
  }

  drain_current :
      (xs : List BufferItem) (d : DoubleBuffer T) (p : Parts)
      → Shows env law c d p
      → HasMode env d now
      → AreItems xs
      → p.current ≡ xs
      → Drains d xs (record p { current = [] })
  drain_current [] d p v m i e = record {
    after = d;
    delivers = done d;
    shows = subst (λ (l : List BufferItem). Shows env law c d (record p { current = l })) e v;
    mode = refl;
  }
  drain_current (x ∷ xs) d p v m i e =
      let (b, n, eb, h, bound) = current-some env law v x xs e in
      let r = try_read-current env law v between now b n x xs m i.0 eb h bound in
      reads_first r
        (drain_current xs _ (record p { current = xs }) r.shows (keep-IsMode env r.mode m) i.1 refl)

  -- The reads after each other.
  Drains-append :
      {d : DoubleBuffer T} {xs ys : List BufferItem} {p q : Parts} (l : Drains d xs p)
      → Drains l.after ys q
      → Drains d (xs ++ ys) q
  Drains-append l r = record {
    after = r.after;
    delivers = Delivers-append env between now l.delivers r.delivers;
    shows = r.shows;
    mode = r.mode ∙ l.mode;
  }

  drain_heaped :
      (ls : List (List BufferItem)) (d : DoubleBuffer T) (p : Parts)
      → Shows env law c d p
      → HasMode env d now
      → AreFilled ls
      → p.current ≡ []
      → p.heaped ≡ ls
      → Drains d (concat ls) (record p { current = []; heaped = [] })
  drain_heaped [] d p v m i e q = record {
    after = d;
    delivers = done d;
    shows = rw⁻¹ (e, q) v;
    mode = refl;
  }
  drain_heaped ([] ∷ ls) d p v m i e q = absurd (i.0 refl)
  drain_heaped ((x ∷ xs) ∷ ls) d p v m i e q =
      let (filled, ((item, items), rest)) = i in
      let r = try_read-pending env law v between now x xs ls m item e q in
      let l =
        drain_current xs _ (record p { current = xs; heaped = ls }) r.shows
          (keep-IsMode env r.mode m) items refl in
      reads_first r (
        Drains-append l (
          drain_heaped ls l.after (record p { current = []; heaped = ls }) l.shows
            (keep-IsMode env (l.mode ∙ r.mode) m) rest refl refl))

  -- Where the items of the current buffer and of those on the heap have pointers and sizes, none of the
  -- buffers on the heap is empty, and SafeRead or ZeroCopyRead is registered, as many calls of `tryRead`
  -- as there are items succeed and return their bytes in order; nothing is left but what was not yet
  -- published.
  published-Drains :
      (d : DoubleBuffer T) (p : Parts)
      → Shows env law c d p
      → HasMode env d now
      → AreItems p.current
      → AreFilled p.heaped
      → Drains d (p.current ++ concat p.heaped) (record p { current = []; heaped = [] })
  published-Drains d p v m i f =
      let l = drain_current p.current d p v m i refl in
      Drains-append l (
        drain_heaped p.heaped l.after (record p { current = [] }) l.shows (keep-IsMode env l.mode m)
          f refl refl)

  read_mode-publish : (d : DoubleBuffer T) (i : ℕ) → (publish env d i).read_mode ≡ d.read_mode
  unfolding publish
  read_mode-publish d i = elim (Option-cases (get_elem? d.publishing i)) [
    | inl e ↦ rw (e, publish) refl
    | inr (b, e) ↦ rw (e, publish) refl
  ]

  memory-publish : (d : DoubleBuffer T) (i : ℕ) → memory (publish env d i) ≡ memory d
  unfolding publish
  memory-publish d i = elim (Option-cases (get_elem? d.publishing i)) [
    | inl e ↦ rw (e, publish) refl
    | inr (b, e) ↦ rw (e, publish) refl
  ]

  contents-switched :
      (p : Parts)
      → p.unpublished ≡ []
      → p.current ++ concat (p.heaped ++ p.active ∷ []) ≡ contents p
  contents-switched p e = rw (e, concat-append p.heaped p.active) refl

  -- A switch and the goroutine that it starts make all unread items of an open double buffer readable:
  -- where no other buffer waits to be published, the items have pointers and sizes, no buffer on the heap
  -- and not the active one is empty, the sequence numbers stay below 2^63 - 1 and SafeRead or
  -- ZeroCopyRead is registered, as many calls of `tryRead` as there are unread items succeed, return
  -- their bytes in the order in which they were written, and leave nothing unread. The switch and the
  -- goroutine leave the memory as it was.
  pub switched-Drains :
      (d : DoubleBuffer T) (p : Parts) (n : ℕ)
      → Shows env law c d p
      → HasMode env d now
      → p.unpublished ≡ []
      → AreItems p.current
      → AreFilled (p.heaped ++ p.active ∷ [])
      → d.sequence ≡ pos n
      → n + 2 < half64
      → (d' : DoubleBuffer T) × (switch_channel env d now ≡ ok d')
        × Drains (publish env d' 0) (contents p) nothing
        × (memory (publish env d' 0) ≡ memory d)
  switched-Drains d p n v m none_waits i f at room =
      let (d', returns, w, sequence, mode, same) = switch_channel-kept env law v now in
      let (u, kept) =
        publish_first-Shows env law w p.active [] n
          (ap (λ (ls : List (List BufferItem)). ls ++ p.active ∷ []) none_waits) (sequence ∙ at)
          room in
      (
        d',
        returns,
        subst (λ (xs : List BufferItem). Drains (publish env d' 0) xs nothing)
            (contents-switched p none_waits)
            (published-Drains (publish env d' 0) _ u
              (keep-IsMode env (read_mode-publish d' 0 ∙ mode) m) i f),
        memory-publish d' 0 ∙ same,
      )
