-- ===== src/DoubleBuffer/View/Deliveries.antt =====
-- The reads and releases of a system: each read takes the first of the byte strings that are unread.
use turbo_stream.Prelude.{
  ℕ, ◌+◌, ◌<◌, ◌≡◌, refl, sym, ap, ap₂, subst, ◌∙◌, arith, some, List, [], ◌∷◌, ◌++◌, length, take,
  append_assoc, append-nil, get_elem?,
}
use turbo_stream.Prelude.Int.{ℤ, pos, pos_part, half64}
use turbo_stream.Outside.{Result, ok, err, panic}
use turbo_stream.Outside
use turbo_stream.SmartBuffer.{BufferItem}
use turbo_stream.DoubleBuffer.{Env, DoubleBuffer, DataChunk}
use turbo_stream.DoubleBuffer.Memory.{memory, holds, Evolves-trans, reorder-Evolves}
use turbo_stream.DoubleBuffer.System.{System, shown, after_read}
use turbo_stream.DoubleBuffer.Write.{bytes_at}
use turbo_stream.DoubleBuffer.Switch.{remove_at}
use turbo_stream.DoubleBuffer.Read.{release, try_read}
use turbo_stream.DoubleBuffer.View.{IsEnv, Parts, contents, Shows, concat}
use turbo_stream.DoubleBuffer.View.Same.{Shows-IsSame}
use turbo_stream.DoubleBuffer.View.Reads.{IsItem, keep-IsMode, ReadsItem}
use turbo_stream.DoubleBuffer.View.Takes.{
  try_read-current, try_read-pending, try_read-skips, try_read-none,
}
use turbo_stream.DoubleBuffer.View.Unread.{
  held_by, StandsFor-IsItem, AllStand, AllStand-Evolves, AllStand-first, take-length,
}
use turbo_stream.DoubleBuffer.View.Releases.{release-kept}
use turbo_stream.DoubleBuffer.View.Fronts.{heaped-none, current-some}
use turbo_stream.DoubleBuffer.View.Safe.{held_by-perm, remove_at-perm, release-IsSafe, read-IsSafe}
use turbo_stream.DoubleBuffer.View.Runs.{Works, Goes, same-Goes}

module _ {T : Type 0} (s : System T) (r : DoubleBuffer T × Result DataChunk) where
  after_read-ok :
      (chunk : DataChunk)
      → r.1 ≡ ok chunk
      → after_read s r
        ≡ ok (record s {
          buffer = r.0;
          chunks = chunk ∷ s.chunks;
          delivered = s.delivered ++ shown r.0.store chunk ∷ [];
        })
  unfolding after_read
  after_read-ok chunk e = ap (λ (x : Result DataChunk). after_read s (r.0, x)) e

  after_read-err :
      (e : Outside.Error) → r.1 ≡ err e → after_read s r ≡ ok (record s { buffer = r.0 })
  unfolding after_read
  after_read-err x e = ap (λ (y : Result DataChunk). after_read s (r.0, y)) e

shown_eq :
    (store : List (ℕ × List ℕ)) (chunk : DataChunk) (bs : List ℕ)
    → chunk.bytes.1 ≡ pos (length bs)
    → bytes_at store chunk.bytes.0 ≡ bs
    → shown store chunk ≡ bs
shown_eq store chunk bs sized e =
    ap₂ (λ (n : ℤ) (cs : List ℕ). take (pos_part n) cs) sized e ∙ take-length bs

-- The parts once a read was made: it takes an item, or drops a buffer that held none, or finds nothing.
abbrev pub read_in : Parts → List BufferItem → List (List BufferItem) → Parts
read_in p (x ∷ xs) ls = record p { current = xs }
read_in p [] [] = p
read_in p [] ([] ∷ ls) = record p { current = []; heaped = ls }
read_in p [] ((x ∷ xs) ∷ ls) = record p { current = xs; heaped = ls }

module _ {T : Type 0} (env : Env T) (law : IsEnv env) (c total : ℕ) (limit : total + 1 < half64)
    (between : DoubleBuffer T → DoubleBuffer T) (k : ℕ) (s : System T) (p : Parts)
    (unread : List (List ℕ)) (w : Works env law c total limit k s p unread) where
  -- What the events here come to.
  abbrev pub Leaves : Result (System T) → Parts → Type 0
  Leaves r q = Goes env law c total limit k s r [] q

  pub released-Goes :
      (i : ℕ) (chunk : DataChunk)
      → get_elem? s.chunks i ≡ some chunk
      → Leaves
          (ok (record s { buffer = (release env s.buffer chunk).0; chunks = remove_at s.chunks i }))
          p
  released-Goes i chunk e =
      let held = held_by (remove_at s.chunks i) in
      let (same, evolves) = release-kept env s.buffer chunk held in
      let done =
        Evolves-trans
          (reorder-Evolves (memory s.buffer) (held_by s.chunks) (holds chunk ++ held)
            (held_by-perm (remove_at-perm s.chunks i chunk e)))
          evolves in
      let safe =
        release-IsSafe s.chunks w.safe chunk (remove_at s.chunks i)
          (remove_at-perm s.chunks i chunk e) (λ l. (release-kept env s.buffer chunk l).1) in
      record {
        after = record s { buffer = (release env s.buffer chunk).0; chunks = remove_at s.chunks i };
        unread = unread;
        returns = refl;
        works = record {
          shows = Shows-IsSame env law w.shows same;
          mode = keep-IsMode env same.read_mode w.mode;
          number = w.number;
          numbered = same.sequence ∙ w.numbered;
          room = omega (arith, w.room);
          safe = safe.0;
          stand = AllStand-Evolves done w.safe.free (contents p) unread w.stand;
          balanced = w.balanced;
        };
        accepts = sym (append-nil s.accepted);
        stays = safe.1;
      }

  -- The first unread item was read.
  got-Goes :
      (x : BufferItem) (xs : List BufferItem) (q : Parts) (r : DoubleBuffer T × Result DataChunk)
      → contents p ≡ x ∷ xs
      → contents q ≡ xs
      → q.unpublished ≡ p.unpublished
      → ReadsItem env law c s.buffer x q r
      → Leaves (after_read s r) q
  got-Goes x xs q r e left waits got =
      let held = held_by s.chunks in
      let (bs, rest, first, stands, others) =
        AllStand-first (memory s.buffer) held x xs unread
          (subst (λ (ys : List BufferItem). AllStand (memory s.buffer) held ys unread) e w.stand) in
      let bytes : shown r.0.store got.chunk ≡ bs =
        shown_eq r.0.store got.chunk bs (got.sized ∙ stands.sized) (got.read ∙ stands.bytes) in
      let after : System T = record s {
        buffer = r.0;
        chunks = got.chunk ∷ s.chunks;
        delivered = s.delivered ++ shown r.0.store got.chunk ∷ [];
      } in
      let safe =
        read-IsSafe s.chunks w.safe got.chunk got.evolves
          (got.chunk_kept held w.safe.free stands.kept) in
      record {
        after = after;
        unread = rest;
        returns = after_read-ok s r got.chunk got.succeeds;
        works = record {
          shows = got.shows;
          mode = keep-IsMode env got.mode w.mode;
          number = w.number;
          numbered = got.sequence ∙ w.numbered;
          room = omega (arith, w.room, ap length waits);
          safe = safe.0;
          stand =
              subst
                (λ (ys : List BufferItem). AllStand (memory r.0) (holds got.chunk ++ held) ys rest)
                (sym left) (AllStand-Evolves (got.evolves held) w.safe.free xs rest others);
          balanced =
              w.balanced
              ∙ ap (λ (l : List (List ℕ)). s.delivered ++ l) first
              ∙ ap (λ (l : List ℕ). s.delivered ++ l ∷ rest) (sym bytes)
              ∙ sym (append_assoc s.delivered (shown r.0.store got.chunk ∷ []) rest);
        };
        accepts = sym (append-nil s.accepted);
        stays = safe.1;
      }

  -- Nothing was read, and nothing that is unread is lost.
  missed-Goes :
      (e : Outside.Error) (q : Parts) (r : DoubleBuffer T × Result DataChunk)
      → contents q ≡ contents p
      → q.unpublished ≡ p.unpublished
      → (r.1 ≡ err e)
        × Shows env law c r.0 q
        × (memory r.0 ≡ memory s.buffer)
        × (r.0.read_mode ≡ s.buffer.read_mode)
        × (r.0.sequence ≡ s.buffer.sequence)
      → Leaves (after_read s r) q
  missed-Goes e q r same waits (failed, v, kept, mode, sequence) =
      subst (λ (x : Result (System T)). Leaves x q) (sym (after_read-err s r e failed))
        (same-Goes env law c total limit k k s p unread r.0 q w.number w v same kept mode
          (sequence ∙ w.numbered) (omega (arith, ap length waits)))

  first-IsItem : (x : BufferItem) (xs : List BufferItem) → contents p ≡ x ∷ xs → IsItem x
  first-IsItem x xs e =
      let (bs, rest, first, stands, others) =
        AllStand-first (memory s.buffer) (held_by s.chunks) x xs unread (
          subst (λ (ys : List BufferItem). AllStand (memory s.buffer) (held_by s.chunks) ys unread)
            e w.stand) in
      StandsFor-IsItem (memory s.buffer) (held_by s.chunks) x bs stands

  -- What is behind the items of the current buffer.
  abbrev behind : List (List BufferItem) → List BufferItem
  behind ls = concat ls ++ (concat p.unpublished ++ p.active)

  contents_eq :
      (cur : List BufferItem) (ls : List (List BufferItem))
      → p.current ≡ cur
      → p.heaped ≡ ls
      → contents p ≡ cur ++ behind ls
  contents_eq cur ls e q =
      ap₂ (λ (xs : List BufferItem) (hs : List (List BufferItem)). xs ++ behind hs) e q

  pub reads-Goes :
      (now : T)
      → Leaves (after_read s (try_read env between s.buffer now)) (read_in p p.current p.heaped)
  reads-Goes now = go p.current p.heaped refl refl
    where
      go :
          (cur : List BufferItem) (ls : List (List BufferItem))
          → p.current ≡ cur
          → p.heaped ≡ ls
          → Leaves (after_read s (try_read env between s.buffer now)) (read_in p cur ls)
      go (x ∷ xs) ls e q =
          let left = contents_eq (x ∷ xs) ls e q in
          let (b, n, eb, h, bound) = current-some env law w.shows x xs e in
          got-Goes x (xs ++ behind ls) (record p { current = xs }) _ left
            (ap (λ (hs : List (List BufferItem)). xs ++ behind hs) q) refl
            (try_read-current env law w.shows between now b n x xs w.mode
              (first-IsItem x (xs ++ behind ls) left) eb h bound)
      go [] [] e q =
          missed-Goes Outside.no_buffer p _ refl refl
            (try_read-none env law w.shows between now (heaped-none env law w.shows q) e)
      go [] ([] ∷ ls) e q =
          missed-Goes Outside.read_failed (record p { current = []; heaped = ls }) _
            (sym (contents_eq [] ([] ∷ ls) e q)) refl
            (try_read-skips env law w.shows between now ls w.mode e q)
      go [] ((x ∷ xs) ∷ ls) e q =
          let left =
            contents_eq [] ((x ∷ xs) ∷ ls) e q
            ∙ ap (λ (l : List BufferItem). x ∷ l) (append_assoc xs (concat ls) _) in
          got-Goes x (xs ++ behind ls) (record p { current = xs; heaped = ls }) _ left refl refl
            (try_read-pending env law w.shows between now x xs ls w.mode
              (first-IsItem x (xs ++ behind ls) left) e q)
