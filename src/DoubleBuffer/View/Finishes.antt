-- ===== src/DoubleBuffer/View/Finishes.antt =====
-- After a switch, enough runs of goroutines of switches and enough reads leave nothing unread.
use turbo_stream.Prelude.{
  ℕ, zero, suc, ◌+◌, ◌<◌, ◌≤◌, ◌≡◌, refl, sym, ap, ◌∙◌, arith, List, [], ◌∷◌, ◌++◌, length,
  replicate, append-nil, length-append,
}
use turbo_stream.Prelude.Int.{pos_part, half64}
use turbo_stream.SmartBuffer.{BufferItem}
use turbo_stream.DoubleBuffer.{Env, DoubleBuffer}
use turbo_stream.DoubleBuffer.Memory.{Memory, memory}
use turbo_stream.DoubleBuffer.System.{
  finish, System, Event, switches, publishes, reads, written_by, written, step,
}
use turbo_stream.DoubleBuffer.View.{IsEnv, Parts, contents, concat}
use turbo_stream.DoubleBuffer.View.Unread.{held_by, AllStand}
use turbo_stream.DoubleBuffer.View.Runs.{
  switch_in, switches-Goes, Works, publish_in, publishes-Goes,
}
use turbo_stream.DoubleBuffer.View.Deliveries.{read_in, reads-Goes}
use turbo_stream.DoubleBuffer.View.Events.{written-append, Runs, Runs-append, run_first, no_events}

nil-length {ℓ} : {A : Type ℓ} (xs : List A) → length xs ≤ 0 → xs ≡ []
nil-length [] h = refl
nil-length (x ∷ xs) h = absurd (omega (arith, h))

publish_in-active : (p : Parts) (ls : List (List BufferItem)) → (publish_in p ls).active ≡ p.active
publish_in-active p [] = refl
publish_in-active p (l ∷ ls) = refl

publish_in-waits :
    (p : Parts) (ls : List (List BufferItem)) (n : ℕ)
    → p.unpublished ≡ ls
    → length ls ≤ suc n
    → length (publish_in p ls).unpublished ≤ n
publish_in-waits p [] n e h = omega (arith, ap length e)
publish_in-waits p (l ∷ ls) n e h = omega (arith, h)

-- How many reads the buffers on the heap take: one for each item, and one for a buffer that is empty.
abbrev pub heap_load : List (List BufferItem) → ℕ
heap_load [] = 0
heap_load (l ∷ ls) = suc (length l) + heap_load ls

abbrev pub load : Parts → ℕ
load p = length p.current + heap_load p.heaped

read_in-load :
    (p : Parts) (cur : List BufferItem) (ls : List (List BufferItem)) (n : ℕ)
    → p.current ≡ cur
    → p.heaped ≡ ls
    → length cur + heap_load ls ≤ suc n
    → load (read_in p cur ls) ≤ n
read_in-load p (x ∷ xs) ls n e q h = omega (arith, ap heap_load q, h)
read_in-load p [] [] n e q h = omega (arith, ap length e, ap heap_load q)
read_in-load p [] ([] ∷ ls) n e q h = omega (arith, h)
read_in-load p [] ((x ∷ xs) ∷ ls) n e q h = omega (arith, h)

read_in-kept :
    (p : Parts) (cur : List BufferItem) (ls : List (List BufferItem))
    → ((read_in p cur ls).unpublished ≡ p.unpublished) × ((read_in p cur ls).active ≡ p.active)
read_in-kept p (x ∷ xs) ls = (refl, refl)
read_in-kept p [] [] = (refl, refl)
read_in-kept p [] ([] ∷ ls) = (refl, refl)
read_in-kept p [] ((x ∷ xs) ∷ ls) = (refl, refl)

heap_load-nil : (ls : List (List BufferItem)) → heap_load ls ≤ 0 → ls ≡ []
heap_load-nil [] h = refl
heap_load-nil (l ∷ ls) h = absurd (omega (arith, h))

heap_load-eq : (ls : List (List BufferItem)) → heap_load ls ≡ length (concat ls) + length ls
heap_load-eq [] = omega arith
heap_load-eq (l ∷ ls) = omega (arith, heap_load-eq ls, length-append l (concat ls))

length-AllStand :
    (m : Memory) (held : List ℕ) (xs : List BufferItem) (bss : List (List ℕ))
    → AllStand m held xs bss
    → length xs ≡ length bss
length-AllStand m held [] [] h = refl
length-AllStand m held [] (bs ∷ bss) h = absurd h
length-AllStand m held (x ∷ xs) [] h = absurd h
length-AllStand m held (x ∷ xs) (bs ∷ bss) (h, hs) = ap suc (length-AllStand m held xs bss hs)

-- Events that write nothing.
quiet :
    {T : Type 0} (e : Event T) (n : ℕ) → written_by e ≡ [] → length (written (replicate n e)) ≡ 0
quiet e zero h = refl
quiet e (suc n) h =
    omega (arith, length-append (written_by e) (written (replicate n e)), quiet e n h, ap length h)

pub written-finish : {T : Type 0} (n m : ℕ) (now : T) → written (finish n m now) ≡ []
written-finish {T} n m now =
    let published : Event T = publishes in
    nil-length (written (finish n m now)) (
      omega (
        arith,
        ap length (written-append (replicate n published) (replicate m (reads now))),
        length-append (written (replicate n published)) (written (replicate m (reads now))),
        quiet published n refl,
        quiet (reads now) m refl,
      ))

module _ {T : Type 0} (env : Env T) (law : IsEnv env) (c total : ℕ) (limit : total + 1 < half64)
    (between : DoubleBuffer T → DoubleBuffer T) where
  -- Reads that take everything that is readable: one for each unread item, and one for each switch that
  -- was made.
  load-Works :
      (k : ℕ) (s : System T) (p : Parts) (unread : List (List ℕ))
      → Works env law c total limit k s p unread
      → load p ≤ length unread + total
  load-Works k s p unread w =
      let h = w.shows.heap_holds in
      omega (
        arith,
        heap_load-eq p.heaped,
        length-AllStand (memory s.buffer) (held_by s.chunks) (contents p) unread w.stand,
        length-append p.current (concat p.heaped ++ (concat p.unpublished ++ p.active)),
        length-append (concat p.heaped) (concat p.unpublished ++ p.active),
        ap pos_part (sym w.numbered ∙ h.last_at),
        h.from_one,
        w.room,
      )

  unread-accepted :
      (k : ℕ) (s : System T) (p : Parts) (unread : List (List ℕ))
      → Works env law c total limit k s p unread
      → length unread ≤ length s.accepted
  unread-accepted k s p unread w =
      omega (arith, ap length w.balanced, length-append s.delivered unread)

  pub delivered_all :
      (k : ℕ) (s : System T) (p : Parts) (unread : List (List ℕ))
      → Works env law c total limit k s p unread
      → contents p ≡ []
      → s.delivered ≡ s.accepted
  delivered_all k s p unread w e =
      let none_left = nil-length unread (
        omega (
          arith,
          length-AllStand (memory s.buffer) (held_by s.chunks) (contents p) unread w.stand,
          ap length e,
        )) in
      sym (
        w.balanced
        ∙ ap (λ (l : List (List ℕ)). s.delivered ++ l) none_left
        ∙ append-nil s.delivered)

  -- As many goroutines of switches run as there are buffers to publish, or more.
  pub publish_all :
      (n k : ℕ) (s : System T) (p : Parts) (unread : List (List ℕ))
      → Works env law c total limit k s p unread
      → length p.unpublished ≤ n
      → (r : Runs env law c total limit between k s (replicate n publishes)) × (r.parts.unpublished
          ≡ [])
        × (r.parts.active ≡ p.active)
  unfolding step
  publish_all zero k s p unread w h =
      (no_events env law c total limit between k s p unread w, nil-length p.unpublished h, refl)
  publish_all (suc n) k s p unread w h =
      let g = publishes-Goes env law c total limit k s p unread w in
      let q = publish_in p p.unpublished in
      let (r, e, a) =
        publish_all n k g.after q g.unread g.works (publish_in-waits p p.unpublished n refl h) in
      (
        run_first env law c total limit between k k s publishes (replicate n publishes) q g r,
        e,
        a ∙ publish_in-active p p.unpublished,
      )

  -- As many reads are made as the readable buffers take, or more.
  pub read_all :
      (n k : ℕ) (s : System T) (p : Parts) (unread : List (List ℕ)) (now : T)
      → Works env law c total limit k s p unread
      → load p ≤ n
      → (r : Runs env law c total limit between k s (replicate n (reads now))) × (r.parts.current
          ≡ [])
        × (r.parts.heaped ≡ [])
        × (r.parts.unpublished ≡ p.unpublished)
        × (r.parts.active ≡ p.active)
  unfolding step
  read_all zero k s p unread now w h = (
    no_events env law c total limit between k s p unread w,
    nil-length p.current (omega (arith, h)),
    heap_load-nil p.heaped (omega (arith, h)),
    refl,
    refl,
  )
  read_all (suc n) k s p unread now w h =
      let g = reads-Goes env law c total limit between k s p unread w now in
      let q = read_in p p.current p.heaped in
      let (kept, kept') = read_in-kept p p.current p.heaped in
      let (r, e, f, a, b) =
        read_all n k g.after q g.unread now g.works
          (read_in-load p p.current p.heaped n refl refl h) in
      (
        run_first env law c total limit between k k s (reads now) (replicate n (reads now)) q g r,
        e,
        f,
        a ∙ kept,
        b ∙ kept',
      )

  pub finish-Runs :
      (n m : ℕ) (s : System T) (p : Parts) (unread : List (List ℕ)) (now : T)
      → Works env law c total limit 1 s p unread
      → total ≤ n
      → length s.accepted + total ≤ m
      → (r : Runs env law c total limit between 0 s (finish n m now)) × (contents r.parts ≡ [])
  unfolding step
  finish-Runs n m s p unread now w enough_n enough_m =
      let g = switches-Goes env law c total limit 0 s p unread now w in
      let q = switch_in p in
      let (t, e, a) = publish_all n 0 g.after q g.unread g.works (omega (arith, g.works.room)) in
      let published : Event T = publishes in
      let same_accepted : length t.after.accepted ≡ length s.accepted = omega (
        arith,
        ap length t.accepts,
        length-append g.after.accepted (written (replicate n published)),
        quiet published n refl,
        ap length g.accepts,
        length-append s.accepted [],
      ) in
      let (u, e', f, a', b) = read_all m 0 t.after t.parts t.unread now t.works (
        omega (
          arith,
          load-Works 0 t.after t.parts t.unread t.works,
          unread-accepted 0 t.after t.parts t.unread t.works,
          same_accepted,
          enough_m,
        )) in
      (
        run_first env law c total limit between 0 0 s (switches now) _ q g (
            Runs-append env law c total limit between 0 0 g.after (replicate n publishes)
              (replicate m (reads now)) t u),
        rw (e', f, a' ∙ e, b ∙ a) refl,
      )
