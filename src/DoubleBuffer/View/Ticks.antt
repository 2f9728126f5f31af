-- ===== src/DoubleBuffer/View/Ticks.antt =====
-- What a tick of the monitor leaves of the view.
use turbo_stream.Prelude.{
  true, false, [], ◌∷◌, ◌++◌, ◌≡◌, refl, sym, ◌∙◌, Bool, Bool-cases, inl, inr, ◌⊎◌, ℕ, zero, suc,
  ◌-◌, ◌==◌, if◌then◌else◌, List, arith,
}
use turbo_stream.Prelude.Int.{ℤ}
use turbo_stream.Outside.{ok}
use turbo_stream.DoubleBuffer.{Env, DoubleBuffer}
use turbo_stream.DoubleBuffer.Monitor.{
  Monitor, take_config, need_switch, tick, at_tick, swap_monitor, clean_pools, Cleaning,
  at_cleaning, async_recycle_worker,
}
use turbo_stream.Workers.{Signal, ticks, stops, AllKeep, work-keeps}
use turbo_stream.LifeCycle.{BigDataEntry}
use turbo_stream.DoubleBuffer.View.Same.{IsSame, Shows-IsSame}
use turbo_stream.DoubleBuffer.Memory.{Memory}
use turbo_stream.Prelude.{ap}
use turbo_stream.DoubleBuffer.View.{IsEnv, Parts, Shows, contents}
use turbo_stream.DoubleBuffer.View.Switches.{switch_channel-Shows}

-- The threshold a tick goes by: the configured one if there is a notice of a change, else the one the
-- monitor has.
abbrev pub latest : Monitor → ℤ
latest m = if m.notices == 0 then m.time_threshold else m.configured

take_config-latest :
    (m : Monitor) (n : ℕ)
    → m.notices ≡ n
    → ((take_config m n).time_threshold ≡ latest m) × ((take_config m n).notices ≡ m.notices - 1)
unfolding take_config
take_config-latest m zero e = (ground (arith, e), omega (arith, e))
take_config-latest m (suc n) e = (ground (arith, e), omega (arith, e))

module _ {T : Type 0} (env : Env T) (d : DoubleBuffer T) where
  -- What the strategy of the monitor says of the count, the size, the time since the last switch and
  -- the latest threshold.
  abbrev pub says : Monitor → T → Bool
  says m now = m.sw.need_switch d.count d.size (env.since now d.last_switch) (latest m)

module _ {T : Type 0} (env : Env T) (law : IsEnv env) {c : ℕ} {d : DoubleBuffer T} {p : Parts}
    (v : Shows env law c d p) where
  need_switch-says : (m : Monitor) (now : T) → (need_switch env d m now).1 ≡ says env d m now
  unfolding need_switch
  need_switch-says m now =
      ap (m.sw.need_switch d.count d.size (env.since now d.last_switch))
        (take_config-latest m m.notices refl).0

  tick-takes :
      (m : Monitor) (now : T)
      → ((tick env d m now).0.time_threshold ≡ latest m)
        × ((tick env d m now).0.notices ≡ m.notices - 1)
  unfolding tick need_switch
  tick-takes m now = take_config-latest m m.notices refl

  -- A tick of the monitor of an open double buffer does not panic and keeps the unread items, their
  -- order and the stored bytes. It takes one notice of a changed configuration, if there is one, and
  -- then goes by the configured threshold, from now on. Where the strategy, asked for the count, the
  -- size, the time since the last switch and this threshold in this order, says so, it leaves an empty
  -- active buffer, behind a buffer that waits to be published, and else the double buffer unchanged.
  pub tick-Shows :
      (m : Monitor) (now : T)
      → (d' : DoubleBuffer T) × (q : Parts) × ((tick env d m now).1 ≡ ok d')
        × Shows env law c d' q
        × (contents q ≡ contents p)
        × (d'.store ≡ d.store)
        × ((tick env d m now).0.time_threshold ≡ latest m)
        × ((tick env d m now).0.notices ≡ m.notices - 1)
        × ((says env d m now ≡ true)
              × (q.active ≡ [])
              × (q.unpublished ≡ p.unpublished ++ p.active ∷ [])
            ⊎ (says env d m now ≡ false) × (d' ≡ d))
  unfolding tick
  tick-Shows m now =
      let (t, n) = tick-takes m now in
      let asked = need_switch-says m now in
      elim (Bool-cases (need_switch env d m now).1) [
        | inl e ↦
            (let (d', q, returns, w, kept, waits, empty, same) =
                switch_channel-Shows env law v now in
              (
                d',
                q,
                rw (tick, e) returns,
                w,
                kept,
                ap (λ (m : Memory). m.store) same,
                t,
                n,
                inl (sym asked ∙ e, empty, waits),
              ))
        | inr e ↦ (d, p, rw (tick, e) refl, v, refl, refl, t, n, inr (sym asked ∙ e, refl))
      ]

module _ {T : Type 0} (env : Env T) (law : IsEnv env) (c : ℕ) where
  -- The double buffer is open and shows a view.
  abbrev pub IsOpen : DoubleBuffer T → Type 0
  IsOpen d = (p : Parts) × Shows env law c d p

  -- What the other goroutines do between two ticks keeps it so.
  abbrev pub AllOpen : {S : Type 0} → List (Signal ((DoubleBuffer T → DoubleBuffer T) × S)) → Type 0
  AllOpen [] = Unit {0}
  AllOpen (stops ∷ rest) = AllOpen rest
  AllOpen (ticks (others, s) ∷ rest) =
      ((d : DoubleBuffer T) → IsOpen d → IsOpen (others d)) × AllOpen rest

  -- Then `swapMonitor` never panics and keeps it open too.
  pub swap_monitor-IsOpen :
      (m : Monitor) (d : DoubleBuffer T)
      (signals : List (Signal ((DoubleBuffer T → DoubleBuffer T) × T)))
      → IsOpen d
      → AllOpen signals
      → (m' : Monitor) × (d' : DoubleBuffer T) × (swap_monitor env (m, d) signals ≡ ok (m', d'))
        × IsOpen d'
  unfolding swap_monitor
  swap_monitor-IsOpen m d signals o h =
      let ((m', d'), e, q) =
        work-keeps (at_tick env) (λ (s : Monitor × DoubleBuffer T). IsOpen s.1) signals (m, d) o
          (all signals h) in
      (m', d', e, q)
    where
      all :
          (signals : List (Signal ((DoubleBuffer T → DoubleBuffer T) × T)))
          → AllOpen signals
          → AllKeep (at_tick env) (λ (s : Monitor × DoubleBuffer T). IsOpen s.1) signals
      all [] h = tt
      all (stops ∷ rest) h = all rest h
      all (ticks (others, now) ∷ rest) (h, hs) = (
        λ s o.
            let (p, v) = h s.1 o in
            let (d', q, e, w, kept, same, t, n, cases) = tick-Shows env law v s.0 now in
            (((tick env (others s.1) s.0 now).0, d'), rw e refl, (q, w)),
        all rest hs,
      )

  cleaned-IsSame :
      (d : DoubleBuffer T) (now : T) (medium : List (ℕ × T)) (big : List (ℕ × BigDataEntry))
      → IsSame d (clean_pools env d now medium big)
  unfolding clean_pools
  cleaned-IsSame d now medium big = ground arith

  -- `asyncRecycleWorker` keeps it open.
  pub async_recycle_worker-IsOpen :
      (d : DoubleBuffer T) (signals : List (Signal (Cleaning env)))
      → IsOpen d
      → AllOpen signals
      → (d' : DoubleBuffer T) × (async_recycle_worker env d signals ≡ ok d') × IsOpen d'
  unfolding async_recycle_worker
  async_recycle_worker-IsOpen d signals o h =
      work-keeps (at_cleaning env) IsOpen signals d o (all signals h)
    where
      all :
          (signals : List (Signal (Cleaning env)))
          → AllOpen signals
          → AllKeep (at_cleaning env) IsOpen signals
      all [] h = tt
      all (stops ∷ rest) h = all rest h
      all (ticks (others, (now, (medium, big))) ∷ rest) (h, hs) = (
        λ d o.
            let (p, v) = h d o in
            let e = others d in
            (
              clean_pools env e now (medium e) (big e),
              refl,
              (p, Shows-IsSame env law v (cleaned-IsSame e now (medium e) (big e))),
            ),
        all rest hs,
      )
