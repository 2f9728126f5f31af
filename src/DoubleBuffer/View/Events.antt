-- ===== src/DoubleBuffer/View/Events.antt =====
-- What each event and a run of events leave, and what a new system is.
use turbo_stream.Prelude.{
  ℕ, suc, ◌+◌, ◌<◌, ◌≤◌, ◌≡◌, refl, sym, ap, ◌∙◌, arith, true, some, List, [], ◌∷◌, ◌++◌, length,
  append_assoc, append-nil, length-append, length-perm, Option-cases, inl, inr, ◌⊎◌, get_elem?,
}
use turbo_stream.Prelude.Int.{ℤ, pos, half32, half64}
use turbo_stream.Outside.{Result, ok, err, panic}
use turbo_stream.SmartBuffer.{SmartBuffer, new_smart_buffer}
use turbo_stream.SmartBuffer.Fifo.{new_smart_buffer-Holds}
use mathlib.Core.List.{Nodup-nil, not-mem-nil}
use turbo_stream.DoubleBuffer.{Env, DoubleBuffer}
use turbo_stream.DoubleBuffer.System.{
  System, Event, writes, switches, publishes, reads, releases, written_by, written, step, run,
  start,
}
use turbo_stream.DoubleBuffer.Read.{register_read_mode}
use turbo_stream.DoubleBuffer.View.{IsEnv, Parts}
use turbo_stream.DoubleBuffer.View.Starts.{
  nothing, opened_with, opened-Shows, new_double_buffer-opened,
}
use turbo_stream.DoubleBuffer.View.Runs.{
  fewer-Works, switch_in, publish_in, Works, Goes, writes-Goes, switches-Goes, publishes-Goes,
  same-Goes,
}
use turbo_stream.DoubleBuffer.View.Deliveries.{read_in, reads-Goes, released-Goes}

-- Each byte string that is written has from 1 to 2^31 - 1 bytes.
abbrev pub Fits : {T : Type 0} → Event T → Type 0
Fits (writes bs now) = (0 < length bs) × (length bs < half32)
Fits (switches now) = Unit {0}
Fits publishes = Unit {0}
Fits (reads now) = Unit {0}
Fits (releases i) = Unit {0}

abbrev pub AllFit : {T : Type 0} → List (Event T) → Type 0
AllFit [] = Unit {0}
AllFit (e ∷ es) = Fits e × AllFit es

-- Each of the events may make one switch, and k more are to come.
abbrev pub with_events : {T : Type 0} → List (Event T) → ℕ → ℕ
with_events [] k = k
with_events (e ∷ es) k = suc (with_events es k)

pub with_events-eq : {T : Type 0} (es : List (Event T)) (k : ℕ) → with_events es k ≡ length es + k
with_events-eq [] k = omega arith
with_events-eq (e ∷ es) k = omega (arith, with_events-eq es k)

pub written-append :
    {T : Type 0} (es fs : List (Event T)) → written (es ++ fs) ≡ written es ++ written fs
written-append [] fs = refl
written-append (e ∷ es) fs =
    ap (λ (l : List (List ℕ)). written_by e ++ l) (written-append es fs)
    ∙ sym (append_assoc (written_by e) (written es) (written fs))

-- An event writes one byte string at most.
length-written_by : {T : Type 0} (e : Event T) → length (written_by e) ≤ 1
length-written_by (writes bs now) = omega arith
length-written_by (switches now) = omega arith
length-written_by publishes = omega arith
length-written_by (reads now) = omega arith
length-written_by (releases i) = omega arith

pub length-written : {T : Type 0} (es : List (Event T)) → length (written es) ≤ length es
length-written [] = omega arith
length-written (e ∷ es) =
    omega (arith, length-append (written_by e) (written es), length-written es, length-written_by e)

module _ {T : Type 0} (env : Env T) (law : IsEnv env) (c total : ℕ) (limit : total + 1 < half64)
    (between : DoubleBuffer T → DoubleBuffer T) where
  -- What an event leaves.
  abbrev pub Leads : ℕ → System T → Result (System T) → List (List ℕ) → Type 0
  Leads k s r more = (q : Parts) × Goes env law c total limit k s r more q

  pub step-Leads :
      (k : ℕ) (s : System T) (p : Parts) (unread : List (List ℕ)) (e : Event T)
      → Works env law c total limit (suc k) s p unread
      → Fits e
      → Leads k s (step env between s e) (written_by e)
  unfolding step
  step-Leads k s p unread (writes bs now) w (h, small) =
      writes-Goes env law c total limit k s p unread bs now w h small
  step-Leads k s p unread (switches now) w h =
      (switch_in p, switches-Goes env law c total limit k s p unread now w)
  step-Leads k s p unread publishes w h = (
    publish_in p p.unpublished,
    publishes-Goes env law c total limit k s p unread
        (fewer-Works env law c total limit k s p unread w),
  )
  step-Leads k s p unread (reads now) w h = (
    read_in p p.current p.heaped,
    reads-Goes env law c total limit between k s p unread
        (fewer-Works env law c total limit k s p unread w) now,
  )
  step-Leads k s p unread (releases i) w h =
      let w' = fewer-Works env law c total limit k s p unread w in
      elim (Option-cases (get_elem? s.chunks i)) [
        | inl e ↦
            rw (e, step)
              (
                p,
                same-Goes env law c total limit (suc k) k s p unread s.buffer p w.number w w.shows
                    refl refl refl w.numbered (omega arith),
              )
        | inr (chunk, e) ↦
            rw (e, step) (p, released-Goes env law c total limit between k s p unread w' i chunk e)
      ]

  -- The outcome of a run in whose course, and after it, k switches may be made.
  pub record Runs (k : ℕ) (s : System T) (es : List (Event T)) : Type 0 where
    pub after : System T
    pub parts : Parts
    pub unread : List (List ℕ)
    pub returns : run env between s es ≡ ok after
    pub works : Works env law c total limit k after parts unread
    pub accepts : after.accepted ≡ s.accepted ++ written es

  pub run-step :
      (s s' : System T) (e : Event T) (es : List (Event T))
      → step env between s e ≡ ok s'
      → run env between s (e ∷ es) ≡ run env between s' es
  unfolding run
  run-step s s' e es r = rw (r, run) refl

  pub run-nil : (s : System T) → run env between s [] ≡ ok s
  unfolding run
  run-nil s = refl

  abbrev pub no_events :
      (k : ℕ) (s : System T) (p : Parts) (unread : List (List ℕ))
      → Works env law c total limit k s p unread
      → Runs k s []
  no_events k s p unread w = record {
    after = s;
    parts = p;
    unread = unread;
    returns = run-nil s;
    works = w;
    accepts = sym (append-nil s.accepted);
  }

  -- An event, and then others.
  abbrev pub run_first :
      (j k : ℕ) (s : System T) (e : Event T) (es : List (Event T)) (q : Parts)
      (g : Goes env law c total limit j s (step env between s e) (written_by e) q)
      → Runs k g.after es
      → Runs k s (e ∷ es)
  run_first j k s e es q g r = record {
    after = r.after;
    parts = r.parts;
    unread = r.unread;
    returns = run-step s g.after e es g.returns ∙ r.returns;
    works = r.works;
    accepts =
        r.accepts
        ∙ ap (λ (l : List (List ℕ)). l ++ written es) g.accepts
        ∙ append_assoc s.accepted (written_by e) (written es);
  }

  pub run-Runs :
      (es : List (Event T)) (k : ℕ) (s : System T) (p : Parts) (unread : List (List ℕ))
      → Works env law c total limit (with_events es k) s p unread
      → AllFit es
      → Runs k s es
  run-Runs [] k s p unread w h = no_events k s p unread w
  run-Runs (e ∷ es) k s p unread w (h, hs) =
      let (q, g) = step-Leads (with_events es k) s p unread e w h in
      run_first (with_events es k) k s e es q g (run-Runs es k g.after q g.unread g.works hs)

  -- Two runs after each other.
  abbrev pub go_on : List (Event T) → Result (System T) → Result (System T)
  go_on fs (ok s) = run env between s fs
  go_on fs (err e) = panic
  go_on fs panic = panic

  pub run-append :
      (es fs : List (Event T)) (s : System T)
      → run env between s (es ++ fs) ≡ go_on fs (run env between s es)
  unfolding run
  run-append [] fs s = refl
  run-append (e ∷ es) fs s = go (λ s'. run-append es fs s') (step env between s e)
    where
      go :
          ((s' : System T) → run env between s' (es ++ fs) ≡ go_on fs (run env between s' es))
          → (r : Result (System T))
          → elim r [ ok s' ↦ run env between s' (es ++ fs) | err x ↦ panic | panic ↦ panic ]
            ≡ go_on fs (elim r [ ok s' ↦ run env between s' es | err x ↦ panic | panic ↦ panic ])
      go rest (ok s') = rest s'
      go rest (err x) = refl
      go rest panic = refl

  abbrev pub Runs-append :
      (j k : ℕ) (s : System T) (es fs : List (Event T)) (r : Runs j s es)
      → Runs k r.after fs
      → Runs k s (es ++ fs)
  Runs-append j k s es fs r t = record {
    after = t.after;
    parts = t.parts;
    unread = t.unread;
    returns = run-append es fs s ∙ ap (go_on fs) r.returns ∙ t.returns;
    works = t.works;
    accepts =
        t.accepts
        ∙ ap (λ (l : List (List ℕ)). l ++ written fs) r.accepts
        ∙ append_assoc s.accepted (written es) (written fs)
        ∙ ap (λ (l : List (List ℕ)). s.accepted ++ l) (sym (written-append es fs));
  }

  abbrev started : T → SmartBuffer → ℤ → System T
  started now b mode = record {
    buffer = opened_with env law c now b (some mode);
    chunks = [];
    accepted = [];
    delivered = [];
  }

  start-started :
      (mode : ℤ) (now : T) (b : SmartBuffer)
      → env.valid_mode mode ≡ true
      → new_smart_buffer env.states (pos c) ≡ ok b
      → start env c mode now ≡ ok (started now b mode)
  unfolding start register_read_mode
  start-started mode now b valid made =
      rw (new_double_buffer-opened env law c now b made, start, valid) refl

  pub start-Works :
      (mode : ℤ) (now : T) (k : ℕ)
      → 0 < c
      → c < half32
      → k ≤ total
      → env.valid_mode mode ≡ true
      → (mode ≡ env.safe_read) ⊎ (mode ≡ env.zero_copy_read)
      → (s : System T) × (start env c mode now ≡ ok s)
        × Works env law c total limit k s nothing []
        × (s.accepted ≡ [])
  start-Works mode now k positive small room valid known =
      let (b, made, holds, open_) = new_smart_buffer-Holds env.states c small in
      let s = started now b mode in
      (
        s,
        start-started mode now b valid made,
        record {
          shows = opened-Shows env law c now b (some mode) positive small holds open_;
          mode = elim known [ inl e ↦ inl (ap some e) | inr e ↦ inr (ap some e) ];
          number = 0;
          numbered = refl;
          room = omega (arith, room);
          safe = record {
            free = record {
              differ = Nodup-nil;
              low = λ a i. absurd (not-mem-nil i);
              not_nil = λ a i. absurd (not-mem-nil i);
              some_used = omega arith;
            };
            kept = λ chunk others p. absurd (omega (arith, length-perm p));
          };
          stand = tt;
          balanced = refl;
        },
        refl,
      )
