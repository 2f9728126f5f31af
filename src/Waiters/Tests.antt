-- ===== src/Waiters/Tests.antt =====
-- waiters.go: a manager with one waiter and one channel in its pool.
use turbo_stream.Prelude.{
  ℕ, ◌≡◌, ◌≤◌, refl, arith, false, Option, none, some, List, [], ◌∷◌, lookup,
}
use mathlib.Core.List.Perm
use turbo_stream.Waiters.{WaiterManager, new_chan, register, unregister, notify_loop}
use mathlib.Core.List.{Nodup-cons, Nodup-nil, not-mem-nil, mem_of_ne_of_mem}
use turbo_stream.Prelude.{ap, min, length, get_elem?, ℕ_discrete}
use turbo_stream.Prelude.Int.{pos}
use turbo_stream.Outside.{Result, ok}
use turbo_stream.Waiters.{notify}
use turbo_stream.Waiters.Signals.{AreEmpty, IsWaiting, signalled, notify-IsWaiting}
use turbo_stream.Waiters.Rounds.{notify_loop-ends}
use turbo_stream.Waiters.Registers.{unregister-register}

abbrev first_of : List ℕ → Option (ℕ × List ℕ)
first_of [] = none
first_of (x ∷ xs) = some (x, xs)

abbrev one_waiter : WaiterManager
one_waiter = record {
  ws = (1, 0) ∷ [];
  pool = 1 ∷ [];
  current_id = 1;
  closed = false;
  chans = new_chan ∷ new_chan ∷ [];
}

unregister-register_example :
    (lookup (register first_of one_waiter).1 (register first_of one_waiter).0.ws
      ≡ some (register first_of one_waiter).2)
    × ((unregister (register first_of one_waiter).0 (register first_of one_waiter).1).ws
        ≡ (1, 0) ∷ [])
    × ((unregister (register first_of one_waiter).0 (register first_of one_waiter).1).pool
        ≡ (register first_of one_waiter).2 ∷ (register first_of one_waiter).0.pool)
unfolding lookup
unregister-register_example = unregister-register first_of one_waiter refl

notify_loop-ends_example :
    (r : Result WaiterManager) × ((m : ℕ)
      → 1 ≤ m
      → notify_loop m (λ ws. ws) 3 [] one_waiter ≡ some r)
notify_loop-ends_example =
    notify_loop-ends (λ ws. ws) (λ ws. Perm.refl ws) 1 3 [] one_waiter (omega arith) (omega arith)

one_waiter-empty : AreEmpty (0 ∷ []) one_waiter.chans
one_waiter-empty ch m = elim (ℕ_discrete ch 0) [
  | yes e ↦ ap (get_elem? one_waiter.chans) e
  | no ne ↦ absurd (not-mem-nil (mem_of_ne_of_mem ne m))
]

one_waiter-IsWaiting : IsWaiting one_waiter
one_waiter-IsWaiting = record {
  differ = Nodup-cons.1 (not-mem-nil, Nodup-nil);
  empty = one_waiter-empty;
  open_ = refl;
}

notify-IsWaiting_example :
    notify (λ ws. ws) one_waiter (pos 100) ≡ ok (signalled (λ ws. ws) (min 64 100) one_waiter)
notify-IsWaiting_example =
    notify-IsWaiting (λ ws. ws) (λ ws. Perm.refl ws) one_waiter 100 one_waiter-IsWaiting
      (λ e. omega (arith, ap length e)) (omega arith)
