-- ===== src/BufferQueue/Limit.antt =====
-- queue.go: `maxSize`, which holds as far as the eviction policy makes it hold.
use turbo_stream.Prelude.{
  ℕ, ◌+◌, ◌≤◌, ◌<◌, ◌≡◌, ◌≢◌, refl, sym, ap, ◌∙◌, arith, true, false, List, [], ◌∷◌, ◌++◌, length,
  append-nil, append_assoc, length-append, Option, some, none, dec_lt,
}
use turbo_stream.Prelude.Int.{pos, ltb_ℤ, ==ℤ_of_ne}
use turbo_stream.Outside.{Result, ok, err, panic}
use turbo_stream.BufferQueue.{
  QueueItem, EvictContext, EvictPolicy, BufferQueue, push, evict_with, push_back, context,
}
use turbo_stream.BufferQueue.Fifo.{pos-ne, push-room, push_all}

-- A policy that evicts whenever it is asked, and then leaves fewer items than there were.
pub record MakesRoom {P F : Type 0} (policy : EvictPolicy P F) : Type 0 where
  pub wants : (p : P) (ctx : EvictContext F) → (policy.should_evict p ctx).1 ≡ true
  pub drops : (p : P) (q : List QueueItem) → q ≢ [] → length (policy.evict p q).1 < length q

-- A policy that never evicts.
abbrev pub Declines : {P F : Type 0} → EvictPolicy P F → Type 0
Declines {P} {F} policy = (p : P) (ctx : EvictContext F) → (policy.should_evict p ctx).1 ≡ false

module _ {P F : Type 0} (policy : EvictPolicy P F) (zero32 : F) where
  ltb_full : (n m : ℕ) → m ≤ n → ltb_ℤ (pos n) (pos m) ≡ false
  unfolding ltb_ℤ
  ltb_full n m h = ground arith

  push-full :
      (s : BufferQueue P) (x : QueueItem) (m : ℕ)
      → s.state ≡ pos 0
      → s.max_size ≡ pos m
      → m ≤ length s.q
      → push policy zero32 s x
        ≡ push_back policy zero32 x (evict_with policy zero32 s.ep (context policy zero32 none) s)
  unfolding push
  push-full s x m o e h = rw (
    ==ℤ_of_ne s.state (pos 1) (λ z. pos-ne 0 1 (omega arith) (sym o ∙ z)),
    push,
    e,
    ltb_full (length s.q) m h,
  )

  evict_with-wanted :
      (s : BufferQueue P) (p : P) (ctx : EvictContext F)
      → (policy.should_evict p ctx).1 ≡ true
      → (evict_with policy zero32 (some p) ctx s).0.q
        ≡ (policy.evict (policy.should_evict p ctx).0 s.q).1
  unfolding evict_with
  evict_with-wanted s p ctx e = rw (e, evict_with) refl

  evict_with-declined :
      (s : BufferQueue P) (p : P) (ctx : EvictContext F)
      → (policy.should_evict p ctx).1 ≡ false
      → evict_with policy zero32 (some p) ctx s
        ≡ (record s { ep = some (policy.should_evict p ctx).0 }, ok tt)
  unfolding evict_with
  evict_with-declined s p ctx e = rw (e, evict_with) refl

  length-push_back :
      (x : QueueItem) (r : BufferQueue P × Result (Unit {0}))
      → length (push_back policy zero32 x r).0.q ≤ length r.0.q + 1
  unfolding push_back
  length-push_back x (s, ok u) = omega (arith, length-append s.q (x ∷ []))
  length-push_back x (s, err e) = omega arith
  length-push_back x (s, panic) = omega arith

  push_back-panics :
      (s : BufferQueue P) (x : QueueItem) (ctx : EvictContext F)
      → push_back policy zero32 x (evict_with policy zero32 none ctx s) ≡ (s, panic)
  unfolding push_back evict_with
  push_back-panics s x ctx = refl

  full-IsBounded :
      MakesRoom policy
      → (s : BufferQueue P) (x : QueueItem) (o : Option P) → 0 < length s.q
      → length
          (push_back policy zero32 x
            (evict_with policy zero32 o (context policy zero32 none) s)).0.q
        ≤ length s.q
  full-IsBounded law s x none h =
      rw (push_back-panics s x (context policy zero32 none)) (omega arith)
  full-IsBounded law s x (some p) h =
      let ctx = context policy zero32 none in
      let r = evict_with policy zero32 (some p) ctx s in
      let fewer =
        law.drops (policy.should_evict p ctx).0 s.q (λ e. omega (arith, h, ap length e)) in
      omega (
        arith,
        length-push_back x r,
        fewer,
        ap length (evict_with-wanted s p ctx (law.wants p ctx)),
      )

  -- With a policy that evicts an item whenever it is asked, a queue that is open and holds no more
  -- than its limit of one or more holds no more than that after any push.
  pub length-push-le :
      MakesRoom policy
      → (s : BufferQueue P) (x : QueueItem) (m : ℕ) → s.state ≡ pos 0
      → s.max_size ≡ pos m
      → 0 < m
      → length s.q ≤ m
      → length (push policy zero32 s x).0.q ≤ m
  length-push-le law s x m o e some_room h = elim (dec_lt (length s.q) m) [
    | yes free ↦
        rw (push-room policy zero32 s x m o e free) (omega (arith, length-append s.q (x ∷ [])))
    | no full ↦
        rw (push-full s x m o e (omega arith))
          (omega (arith, full-IsBounded law s x s.ep (omega arith)))
  ]

  declined :
      Declines policy
      → (s : BufferQueue P) (x : QueueItem) (p : P) (m : ℕ) → s.state ≡ pos 0
      → s.max_size ≡ pos m
      → s.ep ≡ some p
      → (p' : P) × ((push policy zero32 s x).0 ≡ record s { q = s.q ++ x ∷ []; ep = some p' })
  unfolding push_back
  declined no_room s x p m o e ep = elim (dec_lt (length s.q) m) [
    | yes free ↦ (
      p,
      ap (λ (r : BufferQueue P × Result (Unit {0})). r.0) (push-room policy zero32 s x m o e free)
          ∙ ap (λ (t : Option P). record s { q = s.q ++ x ∷ []; ep = t }) ep,
    )
    | no full ↦
        let ctx = context policy zero32 none in
        (
          (policy.should_evict p ctx).0,
          ap (λ (r : BufferQueue P × Result (Unit {0})). r.0)
              (push-full s x m o e (omega arith)
                ∙ ap
                    (λ (t : Option P). push_back policy zero32 x (evict_with policy zero32 t ctx s))
                    ep
                ∙ ap (push_back policy zero32 x) (evict_with-declined s p ctx (no_room p ctx))),
        )
  ]

  -- With a policy that never evicts, an open queue takes every push, also past its limit.
  pub push_all-declined :
      Declines policy
      → (xs : List QueueItem) (s : BufferQueue P) (p : P) (m : ℕ) → s.state ≡ pos 0
      → s.max_size ≡ pos m
      → s.ep ≡ some p
      → (push_all policy zero32 s xs).q ≡ s.q ++ xs
  unfolding push_all
  push_all-declined no_room [] s p m o e ep = sym (append-nil s.q)
  push_all-declined no_room (x ∷ xs) s p m o e ep =
      let (p', r) = declined no_room s x p m o e ep in
      ap (λ (t : BufferQueue P). (push_all policy zero32 t xs).q) r
      ∙ push_all-declined no_room xs (record s { q = s.q ++ x ∷ []; ep = some p' }) p' m o e refl
      ∙ append_assoc s.q (x ∷ []) xs
