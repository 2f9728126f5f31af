-- ===== src/DoubleBuffer/View/Refines.antt =====
-- A double buffer with its writers and readers is a queue of byte strings, as long as the goroutines of
-- the switches run in the order of the switches: readers get what was written, in the order in which it
-- was written.
use turbo_stream.Prelude.{
  ℕ, ◌+◌, ◌*◌, ◌<◌, ◌≡◌, sym, ap, ◌∙◌, arith, true, List, [], ◌++◌, length, append-nil, ◌⊎◌,
}
use turbo_stream.Prelude.Int.{ℤ, half32, half64}
use turbo_stream.Outside.{ok}
use turbo_stream.DoubleBuffer.{Env, DoubleBuffer}
use turbo_stream.DoubleBuffer.System.{finish, System, Event, written, run, start}
use turbo_stream.DoubleBuffer.View.{IsEnv}
use turbo_stream.DoubleBuffer.View.Starts.{nothing}
use turbo_stream.DoubleBuffer.View.Finishes.{delivered_all, finish-Runs, written-finish}
use mathlib.Core.List.{Mem}
use turbo_stream.Prelude.{take}
use turbo_stream.Prelude.Int.{pos_part}
use turbo_stream.DoubleBuffer.{DataChunk}
use turbo_stream.DoubleBuffer.System.{shown, step}
use turbo_stream.DoubleBuffer.View.Events.{
  Fits, step-Leads, AllFit, length-written, Runs-append, with_events, with_events-eq, run-Runs,
  start-Works,
}

module _ {T : Type 0} (env : Env T) (law : IsEnv env) (c : ℕ)
    (between : DoubleBuffer T → DoubleBuffer T) where
  -- A new double buffer of c items, 0 < c < 2^31, with SafeRead or ZeroCopyRead registered, and its
  -- writers and readers: for any sequence of fewer than 2^63 - 1 events - writes of new slices of 1 to
  -- 2^31 - 1 bytes, switches, runs of the goroutine of the oldest switch whose goroutine did not run yet,
  -- reads, releases of chunks - nothing panics, every write is accepted, and the byte strings that the
  -- reads returned are, in their order, the first of those that were written.
  pub run-delivered :
      (mode : ℤ) (now : T) (es : List (Event T))
      → 0 < c
      → c < half32
      → length es + 1 < half64
      → env.valid_mode mode ≡ true
      → (mode ≡ env.safe_read) ⊎ (mode ≡ env.zero_copy_read)
      → AllFit es
      → (s : System T) × (s' : System T) × (start env c mode now ≡ ok s)
        × (run env between s es ≡ ok s')
        × (s'.accepted ≡ written es)
        × (unread : List (List ℕ)) × (written es ≡ s'.delivered ++ unread)
  run-delivered mode now es positive small room valid known fit =
      let n = length es in
      let (s, made, w, none_yet) =
        start-Works env law c n room between mode now (with_events es 0) positive small
          (omega (arith, with_events-eq es 0)) valid known in
      let r = run-Runs env law c n room between es 0 s nothing [] w fit in
      let all : r.after.accepted ≡ written es =
        r.accepts ∙ ap (λ (l : List (List ℕ)). l ++ written es) none_yet in
      (s, r.after, made, r.returns, all, r.unread, sym all ∙ r.works.balanced)

  -- A new double buffer of c items, 0 < c < 2^31, with SafeRead or ZeroCopyRead registered, of whose n
  -- events, n < 2^63 - 2, the writes are of new slices of 1 to 2^31 - 1 bytes and each run of a goroutine is
  -- that of the oldest switch left: where the events are followed by a switch, n + 1 runs of the goroutine
  -- of the oldest switch left and 2 n + 1 reads, nothing panics and the reads have then delivered exactly
  -- the byte strings that were written, in the order in which they were written.
  pub run-finish :
      (mode : ℤ) (now later : T) (es : List (Event T))
      → 0 < c
      → c < half32
      → length es + 2 < half64
      → env.valid_mode mode ≡ true
      → (mode ≡ env.safe_read) ⊎ (mode ≡ env.zero_copy_read)
      → AllFit es
      → (s : System T) × (s' : System T) × (start env c mode now ≡ ok s)
        × (run env between s (es ++ finish (length es + 1) (2 * length es + 1) later) ≡ ok s')
        × (s'.delivered ≡ written es)
  run-finish mode now later es positive small room valid known fit =
      let n = length es + 1 in
      let limit : n + 1 < half64 = omega (arith, room) in
      let (s, made, w, none_yet) =
        start-Works env law c n limit between mode now (with_events es 1) positive small
          (omega (arith, with_events-eq es 1)) valid known in
      let r = run-Runs env law c n limit between es 1 s nothing [] w fit in
      let all : r.after.accepted ≡ written es =
        r.accepts ∙ ap (λ (l : List (List ℕ)). l ++ written es) none_yet in
      let (t, nothing_left) =
        finish-Runs env law c n limit between n (2 * length es + 1) r.after r.parts r.unread later
          r.works (omega arith) (omega (arith, ap length all, length-written es)) in
      let u =
        Runs-append env law c n limit between 1 0 s es (finish n (2 * length es + 1) later) r t in
      let delivered : t.after.delivered ≡ written es =
        delivered_all env law c n limit between 0 t.after t.parts t.unread t.works nothing_left
        ∙ t.accepts
        ∙ ap (λ (l : List (List ℕ)). r.after.accepted ++ l)
            (written-finish n (2 * length es + 1) later)
        ∙ append-nil r.after.accepted
        ∙ all in
      (s, t.after, made, u.returns, delivered)

  -- A new double buffer of c items, 0 < c < 2^31, with SafeRead or ZeroCopyRead registered, to which n
  -- events happened, n < 2^63 - 2, of which the writes are of new slices of 1 to 2^31 - 1 bytes and each run
  -- of a goroutine is that of the oldest switch left: one more such event succeeds and leaves the bytes that
  -- a chunk shows as they were, for each chunk that the reader holds before and after that event.
  pub step-shown :
      (mode : ℤ) (now : T) (es : List (Event T)) (e : Event T)
      → 0 < c
      → c < half32
      → length es + 2 < half64
      → env.valid_mode mode ≡ true
      → (mode ≡ env.safe_read) ⊎ (mode ≡ env.zero_copy_read)
      → AllFit es
      → Fits e
      → (s : System T) × (t : System T) × (t' : System T) × (start env c mode now ≡ ok s)
        × (run env between s es ≡ ok t)
        × (step env between t e ≡ ok t')
        × ((chunk : DataChunk)
            → Mem chunk t.chunks
            → Mem chunk t'.chunks
            → shown t'.buffer.store chunk ≡ shown t.buffer.store chunk)
  step-shown mode now es e positive small room valid known fit fits =
      let n = length es + 1 in
      let limit : n + 1 < half64 = omega (arith, room) in
      let (s, made, w, none_yet) =
        start-Works env law c n limit between mode now (with_events es 1) positive small
          (omega (arith, with_events-eq es 1)) valid known in
      let r = run-Runs env law c n limit between es 1 s nothing [] w fit in
      let (q, g) = step-Leads env law c n limit between 0 r.after r.parts r.unread e r.works fits in
      (
        s,
        r.after,
        g.after,
        made,
        r.returns,
        g.returns,
        λ chunk i j. ap (λ (bs : List ℕ). take (pos_part chunk.bytes.1) bs) (g.stays chunk i j),
      )
