-- ===== src/BufferQueue/Fifo.antt =====
-- queue.go: the order in which `Pick` hands out what `Push` put in, and the closed queue.
use turbo_stream.Prelude.{
  ℕ, zero, suc, ◌+◌, ◌≤◌, ◌<◌, ◌≡◌, ◌≢◌, refl, sym, ap, ◌∙◌, arith, true, List, [], ◌∷◌, ◌++◌,
  length, append-nil, append_assoc, length-append, inl, inr, ◌⊎◌,
}
use turbo_stream.Prelude.Int.{pos, ltb_ℤ, ==ℤ_of_eq, ==ℤ_of_ne}
use turbo_stream.Outside
use turbo_stream.Outside.{Result, ok, err}
use turbo_stream.BufferQueue.{QueueItem, EvictPolicy, BufferQueue, push, pick, pick_from, close}

pub pos-ne : (m n : ℕ) → m ≢ n → pos m ≢ pos n
pos-ne m n h e = h (grind (arith, e))

module _ {P F : Type 0} (policy : EvictPolicy P F) (zero32 : F) where
  -- The queue after pushes, whatever they return, and what a number of picks hand out.
  unfoldable pub push_all : BufferQueue P → List QueueItem → BufferQueue P
  push_all s [] = s
  push_all s (x ∷ xs) = push_all (push policy zero32 s x).0 xs

  collect : BufferQueue P × Result QueueItem → List QueueItem → List QueueItem
  collect (s, ok x) xs = x ∷ xs
  collect (s, r) xs = xs

  pub pick_all : ℕ → BufferQueue P → List QueueItem
  unfolding collect
  pick_all zero s = []
  pick_all (suc n) s = collect (pick policy zero32 s) (pick_all n (pick policy zero32 s).0)

  ltb_room : (n m : ℕ) → n < m → ltb_ℤ (pos n) (pos m) ≡ true
  unfolding ltb_ℤ
  ltb_room n m h = ground arith

  pub push-room :
      (s : BufferQueue P) (x : QueueItem) (m : ℕ)
      → s.state ≡ pos 0
      → s.max_size ≡ pos m
      → length s.q < m
      → push policy zero32 s x ≡ (record s { q = s.q ++ x ∷ [] }, ok tt)
  unfolding push
  push-room s x m o e h = rw (
    ==ℤ_of_ne s.state (pos 1) (λ z. pos-ne 0 1 (omega arith) (sym o ∙ z)),
    push,
    e,
    ltb_room (length s.q) m h,
  )

  push_all-room :
      (xs : List QueueItem) (s : BufferQueue P) (m : ℕ)
      → s.state ≡ pos 0
      → s.max_size ≡ pos m
      → length s.q + length xs ≤ m
      → push_all s xs ≡ record s { q = s.q ++ xs }
  unfolding push_all
  push_all-room [] s m o e h =
      ap (λ (l : List QueueItem). record s { q = l }) (sym (append-nil s.q))
  push_all-room (x ∷ xs) s m o e h =
      ap (λ (r : BufferQueue P × Result (Unit {0})). push_all r.0 xs)
        (push-room s x m o e (omega arith))
      ∙ push_all-room xs (record s { q = s.q ++ x ∷ [] }) m o e
          (omega (arith, length-append s.q (x ∷ [])))
      ∙ ap (λ (l : List QueueItem). record s { q = l }) (append_assoc s.q (x ∷ []) xs)

  pick-open :
      (s : BufferQueue P) → s.state ≡ pos 0 → pick policy zero32 s ≡ pick_from policy zero32 s s.q
  unfolding pick
  pick-open s o = rw (==ℤ_of_ne s.state (pos 1) (λ z. pos-ne 0 1 (omega arith) (sym o ∙ z)))

  pick_all-q :
      (xs : List QueueItem) (s : BufferQueue P)
      → s.state ≡ pos 0
      → s.q ≡ xs
      → pick_all (length xs) s ≡ xs
  unfolding pick_all collect pick_from
  pick_all-q [] s o e = refl
  pick_all-q (x ∷ xs) s o e =
      let r : pick policy zero32 s ≡ (record s { q = xs }, ok x) =
        pick-open s o ∙ ap (pick_from policy zero32 s) e in
      ap (λ (r : BufferQueue P × Result QueueItem). collect r (pick_all (length xs) r.0)) r
      ∙ ap (◌∷◌ x) (pick_all-q xs (record s { q = xs }) o refl)

  -- What is pushed into an open queue with room for it comes out behind what the queue holds, in
  -- order and each once.
  pub pick_all-push_all :
      (s : BufferQueue P) (xs : List QueueItem) (m : ℕ)
      → s.state ≡ pos 0
      → s.max_size ≡ pos m
      → length s.q + length xs ≤ m
      → pick_all (length s.q + length xs) (push_all s xs) ≡ s.q ++ xs
  pick_all-push_all s xs m o e h =
      rw (push_all-room xs s m o e h, ← length-append s.q xs)
        (pick_all-q (s.q ++ xs) (record s { q = s.q ++ xs }) o refl)

  closed-close :
      (s : BufferQueue P)
      → (s.state ≡ pos 0) ⊎ (s.state ≡ pos 1)
      → (close policy zero32 s).state ≡ pos 1
  unfolding close
  closed-close s (inl e) = rw (==ℤ_of_eq s.state (pos 0) e) refl
  closed-close s (inr e) =
      rw (==ℤ_of_ne s.state (pos 0) (λ z. pos-ne 1 0 (omega arith) (sym e ∙ z)), close) e

  push-closed :
      (s : BufferQueue P) (x : QueueItem)
      → s.state ≡ pos 1
      → push policy zero32 s x ≡ (s, err Outside.queue_closed)
  unfolding push
  push-closed s x e = rw (==ℤ_of_eq s.state (pos 1) e)

  pick-closed :
      (s : BufferQueue P) → s.state ≡ pos 1 → pick policy zero32 s ≡ (s, err Outside.queue_closed)
  unfolding pick
  pick-closed s e = rw (==ℤ_of_eq s.state (pos 1) e)

  close-closed : (s : BufferQueue P) → s.state ≡ pos 1 → close policy zero32 s ≡ s
  unfolding close
  close-closed s e = rw (==ℤ_of_ne s.state (pos 0) (λ z. pos-ne 1 0 (omega arith) (sym e ∙ z)))

  -- Once a queue is closed every push and every pick returns ErrQueueClosed and changes nothing, and
  -- closing it again changes nothing.
  pub close_refuses :
      (s : BufferQueue P) (x : QueueItem)
      → (s.state ≡ pos 0) ⊎ (s.state ≡ pos 1)
      → let c = close policy zero32 s in
        (push policy zero32 c x ≡ (c, err Outside.queue_closed))
        × (pick policy zero32 c ≡ (c, err Outside.queue_closed))
        × (close policy zero32 c ≡ c)
  close_refuses s x h =
      let e = closed-close s h in
      let c = close policy zero32 s in (push-closed c x e, pick-closed c e, close-closed c e)
