-- ===== src/DoubleBuffer/View/Runs.antt =====
-- Any sequence of events of a system: what readers get is what was written, in the order in which it was.
use turbo_stream.Prelude.{
  ℕ, suc, ◌+◌, ◌<◌, ◌≤◌, length-append, ◌≡◌, refl, sym, ap, subst, ◌∙◌, arith, List, [], ◌∷◌, ◌++◌,
  length, append_assoc, append-nil,
}
use turbo_stream.Prelude.Int.{pos, half32, half64, add_int64, add_int64-one}
use turbo_stream.Outside.{Result, ok}
use turbo_stream.SmartBuffer.{BufferItem, SmartBuffer}
use turbo_stream.DoubleBuffer.{Env, DoubleBuffer}
use turbo_stream.DoubleBuffer.Memory.{
  Memory, memory, Evolves, insert-Evolves, make-Takes, Evolves-trans, forget-Evolves,
  forgotten-IsKept,
}
use turbo_stream.DoubleBuffer.System.{System, offer, after_write, after_switch}
use turbo_stream.DoubleBuffer.Switch.{switch_channel, publish}
use turbo_stream.DoubleBuffer.View.Publishes.{
  publish-empty, publish_first-kept, publish_first-Shows,
}
use turbo_stream.DoubleBuffer.Write.{write}
use turbo_stream.DoubleBuffer.View.{IsEnv, Parts, contents, Shows, HoldAll}
use turbo_stream.DoubleBuffer.View.Append.{write-Appends}
use turbo_stream.DoubleBuffer.View.Same.{IsSame, Shows-IsSame, bytes_at-insert}
use turbo_stream.DoubleBuffer.View.Switches.{switch_channel-kept, contents-switched_parts}
use turbo_stream.DoubleBuffer.View.Reads.{IsMode, keep-IsMode}
use turbo_stream.DoubleBuffer.View.Safe.{IsSafe, Stays, event-IsSafe}
use turbo_stream.DoubleBuffer.Memory.{eq-Evolves}
use turbo_stream.DoubleBuffer.View.Unread.{held_by, AllStand, AllStand-Evolves, AllStand-append}

-- The parts once a switch was made.
abbrev pub switch_in : Parts → Parts
switch_in p = record p { unpublished = p.unpublished ++ p.active ∷ []; active = [] }

-- The parts once the goroutine of the oldest switch ran.
abbrev pub publish_in : Parts → List (List BufferItem) → Parts
publish_in p [] = p
publish_in p (l ∷ ls) = record p { heaped = p.heaped ++ l ∷ []; unpublished = ls }

-- `total` bounds the sequence numbers.
module _ {T : Type 0} (env : Env T) (law : IsEnv env) (c : ℕ) (total : ℕ)
    (limit : total + 1 < half64) where
  -- The state of a system in whose course k more switches may be made: `unread` is what was accepted and
  -- not delivered.
  pub record Works (k : ℕ) (s : System T) (p : Parts) (unread : List (List ℕ)) : Type 0 where
    pub shows : Shows env law c s.buffer p
    pub mode : IsMode env s.buffer.read_mode
    pub number : ℕ
    pub numbered : s.buffer.sequence ≡ pos number
    pub room : number + length p.unpublished + k ≤ total
    pub safe : IsSafe (memory s.buffer) s.chunks
    pub stand : AllStand (memory s.buffer) (held_by s.chunks) (contents p) unread
    pub balanced : s.accepted ≡ s.delivered ++ unread

  pub fewer-Works :
      (k : ℕ) (s : System T) (p : Parts) (unread : List (List ℕ))
      → Works (suc k) s p unread
      → Works k s p unread
  fewer-Works k s p unread w = record {
    shows = w.shows;
    mode = w.mode;
    number = w.number;
    numbered = w.numbered;
    room = omega (arith, w.room);
    safe = w.safe;
    stand = w.stand;
    balanced = w.balanced;
  }

  -- The outcome of an event that adds `more` to what was written.
  pub record Goes (k : ℕ) (s : System T) (r : Result (System T)) (more : List (List ℕ)) (q : Parts)
      : Type 0 where
    pub after : System T
    pub unread : List (List ℕ)
    pub returns : r ≡ ok after
    pub works : Works k after q unread
    pub accepts : after.accepted ≡ s.accepted ++ more
    pub stays : Stays (memory s.buffer) (memory after.buffer) s.chunks after.chunks

  -- An event that leaves the unread items, their order and the arrays.
  pub same-Goes :
      (j k : ℕ) (s : System T) (p : Parts) (unread : List (List ℕ)) (d : DoubleBuffer T) (q : Parts)
      (n : ℕ) (w : Works j s p unread)
      → Shows env law c d q
      → contents q ≡ contents p
      → memory d ≡ memory s.buffer
      → d.read_mode ≡ s.buffer.read_mode
      → d.sequence ≡ pos n
      → n + length q.unpublished + k ≤ w.number + length p.unpublished + j
      → Goes k s (ok (record s { buffer = d })) [] q
  same-Goes j k s p unread d q n w v same kept mode at h =
      let held = held_by s.chunks in
      record {
        after = record s { buffer = d };
        unread = unread;
        returns = refl;
        works = record {
          shows = v;
          mode = keep-IsMode env mode w.mode;
          number = n;
          numbered = at;
          room = omega (arith, w.room, h);
          safe = (event-IsSafe s.chunks w.safe (λ held. eq-Evolves held kept)).0;
          stand =
              subst (λ (xs : List BufferItem). AllStand (memory d) held xs unread) (sym same)
                (subst (λ (m : Memory). AllStand m held (contents p) unread) (sym kept) w.stand);
          balanced = w.balanced;
        };
        accepts = sym (append-nil s.accepted);
        stays = (event-IsSafe s.chunks w.safe (λ held. eq-Evolves held kept)).1;
      }

  pub switches-Goes :
      (k : ℕ) (s : System T) (p : Parts) (unread : List (List ℕ)) (now : T)
      → Works (suc k) s p unread
      → Goes k s (after_switch s (switch_channel env s.buffer now)) [] (switch_in p)
  unfolding after_switch
  switches-Goes k s p unread now w =
      let (d, returns, v, sequence, mode, kept) = switch_channel-kept env law w.shows now in
      subst (λ (r : Result (DoubleBuffer T)). Goes k s (after_switch s r) [] (switch_in p))
        (sym returns)
        (same-Goes (suc k) k s p unread d (switch_in p) w.number w v
          (contents-switched_parts env law w.shows) kept mode (sequence ∙ w.numbered)
          (omega (arith, length-append p.unpublished (p.active ∷ []))))

  pub publishes-Goes :
      (k : ℕ) (s : System T) (p : Parts) (unread : List (List ℕ))
      → Works k s p unread
      → Goes k s (ok (record s { buffer = publish env s.buffer 0 })) [] (publish_in p p.unpublished)
  publishes-Goes k s p unread w =
      go s.buffer.publishing p.unpublished refl refl w.shows.unpublished_hold
    where
      go :
          (bs : List SmartBuffer) (ls : List (List BufferItem))
          → s.buffer.publishing ≡ bs
          → p.unpublished ≡ ls
          → HoldAll c bs ls
          → Goes k s (ok (record s { buffer = publish env s.buffer 0 })) [] (publish_in p ls)
      go [] [] e q h =
          subst (λ (d : DoubleBuffer T). Goes k s (ok (record s { buffer = d })) [] p)
            (sym (publish-empty env s.buffer e))
            (same-Goes k k s p unread s.buffer p w.number w w.shows refl refl refl w.numbered
              (omega arith))
      go [] (l ∷ ls) e q h = absurd h
      go (b ∷ bs) [] e q h = absurd h
      go (b ∷ bs) (l ∷ ls) e q h =
          let waits = ap length q in
          let (v, same) =
            publish_first-Shows env law w.shows l ls w.number q w.numbered
              (omega (arith, w.room, waits, limit)) in
          let (kept, mode, sequence) = publish_first-kept env s.buffer b bs e in
          same-Goes k k s p unread (publish env s.buffer 0) (publish_in p (l ∷ ls)) (w.number + 1) w
            v same kept mode
            (sequence
              ∙ ap (λ z. add_int64 z (pos 1)) w.numbered
              ∙ add_int64-one w.number (omega (arith, w.room, waits, limit)))
            (omega (arith, waits))

  offer-IsSame : (d : DoubleBuffer T) (bs : List ℕ) → IsSame d (offer d bs)
  offer-IsSame d bs = ground arith

  offer-Evolves :
      (d : DoubleBuffer T) (bs : List ℕ) (held : List ℕ)
      → Evolves (memory d) held (memory (offer d bs)) (d.next_addr ∷ held)
  offer-Evolves d bs held = insert-Evolves held bs (make-Takes (memory d))

  after_write-ok :
      (s : System T) (bs : List ℕ) (r : DoubleBuffer T × Result (Unit {0}))
      → r.1 ≡ ok tt
      → after_write s bs r ≡ ok (record s { buffer = r.0; accepted = s.accepted ++ bs ∷ [] })
  unfolding after_write
  after_write-ok s bs r e = ap (λ (x : Result (Unit {0})). after_write s bs (r.0, x)) e

  pub writes-Goes :
      (k : ℕ) (s : System T) (p : Parts) (unread : List (List ℕ)) (bs : List ℕ) (now : T)
      → Works (suc k) s p unread
      → 0 < length bs
      → length bs < half32
      → (q : Parts) × Goes k s
          (after_write s bs (write env (offer s.buffer bs) s.buffer.next_addr (length bs) now))
          (bs ∷ [])
          q
  writes-Goes k s p unread bs now w h small =
      let held = held_by s.chunks in
      let v = Shows-IsSame env law w.shows (offer-IsSame s.buffer bs) in
      let a = write-Appends env law v s.buffer.next_addr (length bs) now h small in
      let after = memory (write env (offer s.buffer bs) s.buffer.next_addr (length bs) now).0 in
      let offered = offer-Evolves s.buffer bs held in
      let first = forget-Evolves (memory (offer s.buffer bs)) s.buffer.next_addr held in
      let to_write = Evolves-trans offered first in
      let free = to_write.free w.safe.free in
      let kept =
        forgotten-IsKept (memory (offer s.buffer bs)) held s.buffer.next_addr
          (offered.free w.safe.free) in
      let done = Evolves-trans to_write (a.evolves held) in
      let safe = event-IsSafe s.chunks w.safe (λ l.
        Evolves-trans
          (Evolves-trans (offer-Evolves s.buffer bs l)
            (forget-Evolves (memory (offer s.buffer bs)) s.buffer.next_addr l))
          (a.evolves l)) in
      (
        a.parts,
        record {
          after = record s {
            buffer = (write env (offer s.buffer bs) s.buffer.next_addr (length bs) now).0;
            accepted = s.accepted ++ bs ∷ [];
          };
          unread = unread ++ bs ∷ [];
          returns = after_write-ok s bs _ a.succeeds;
          works = record {
            shows = a.shows;
            mode = keep-IsMode env a.mode w.mode;
            number = w.number;
            numbered = a.sequence ∙ w.numbered;
            room = omega (arith, w.room, a.waits);
            safe = safe.0;
            stand =
                subst (λ (xs : List BufferItem). AllStand after held xs (unread ++ bs ∷ []))
                  (sym a.appended)
                  (AllStand-append after held (contents p) unread a.item bs
                    (AllStand-Evolves done w.safe.free (contents p) unread w.stand)
                    (record {
                      some_bytes = h;
                      sized = a.sized;
                      kept = a.item_kept held free kept;
                      bytes =
                          a.copied
                          ∙ bytes_at-insert env s.buffer s.buffer.next_addr bs s.buffer.store;
                    }));
            balanced =
                ap (λ (l : List (List ℕ)). l ++ bs ∷ []) w.balanced
                ∙ append_assoc s.delivered unread (bs ∷ []);
          };
          accepts = refl;
          stays = safe.1;
        },
      )
