-- ===== src/Waiters/Rounds.antt =====
-- waiters.go: the loop of `notify` ends. Each of its rounds removes a waiter.
use mathlib.Core.List.{Perm, Mem, mem-cons_self, mem-cons, not-mem-nil}
use mathlib.Core.List.Perm
use mathlib.Core.Logic.Or
use mathlib.Core.HLevel.{⊥_prop}
use turbo_stream.Prelude.{
  ℕ, zero, suc, ◌≤◌, ◌<◌, ◌≡◌, ◌≢◌, refl, sym, ap, subst, arith, true, false, ◌==◌, List, [], ◌∷◌,
  ◌++◌, length, map, take, min, none, lookup, lookup-delete, delete, ℕ_discrete, Bool-cases,
  length-perm, inl, inr, some,
}
use turbo_stream.Outside.{Result, ok, err, panic}
use turbo_stream.Waiters.{
  WaiterManager, Chan, send_batch, delete_all, notify_loop, max_total_waiters,
}

-- `range` visits each entry of a map once, in any order.
abbrev pub IsOrder : (List (ℕ × ℕ) → List (ℕ × ℕ)) → Type 0
IsOrder iter = (ws : List (ℕ × ℕ)) → Perm (iter ws) ws

delete-le : (k : ℕ) (ws : List (ℕ × ℕ)) → length (delete k ws) ≤ length ws
unfolding delete
delete-le k [] = omega arith
delete-le k ((j, v) ∷ ws) = ground (arith, delete-le k ws)

delete_all-le : (ks : List ℕ) (ws : List (ℕ × ℕ)) → length (delete_all ks ws) ≤ length ws
unfolding delete_all
delete_all-le [] ws = omega arith
delete_all-le (k ∷ ks) ws = omega (arith, delete_all-le ks (delete k ws), delete-le k ws)

-- The key is in the map.
abbrev HasKey : ℕ → List (ℕ × ℕ) → Type 0
HasKey k ws = lookup k ws ≢ none

delete-lt : (k : ℕ) (ws : List (ℕ × ℕ)) → HasKey k ws → length (delete k ws) < length ws
unfolding delete lookup
delete-lt k [] h = absurd (h refl)
delete-lt k ((j, v) ∷ ws) h = elim (ℕ_discrete j k) [
  | yes e ↦ ground (arith, e, delete-le k ws)
  | no ne ↦ ground (arith, ne, h, delete-lt k ws)
]

delete-HasKey : (i k : ℕ) (ws : List (ℕ × ℕ)) → i ≢ k → HasKey k ws → HasKey k (delete i ws)
delete-HasKey i k ws ne h e = ground (arith, h, e, lookup-delete i k ws)

delete_all-lt :
    (k : ℕ) (before ks : List ℕ) (ws : List (ℕ × ℕ))
    → HasKey k ws
    → length (delete_all (before ++ k ∷ ks) ws) < length ws
unfolding delete_all
delete_all-lt k [] ks ws h = omega (arith, delete_all-le ks (delete k ws), delete-lt k ws h)
delete_all-lt k (i ∷ before) ks ws h = elim (ℕ_discrete i k) [
  | yes e ↦ omega (
    arith,
    delete_all-le (before ++ k ∷ ks) (delete i ws),
    delete-lt i ws (subst (λ (j : ℕ). HasKey j ws) (sym e) h),
  )
  | no ne ↦
      omega
        (arith, delete_all-lt k before ks (delete i ws) (delete-HasKey i k ws ne h), delete-le i ws)
]

Mem-HasKey : (k v : ℕ) (ws : List (ℕ × ℕ)) → Mem (k, v) ws → HasKey k ws
unfolding lookup
Mem-HasKey k v [] m e = absurd (not-mem-nil m)
Mem-HasKey k v ((j, w) ∷ ws) m e =
    Or.elim ⊥_prop (mem-cons.0 m) (λ q. ground (arith, ap (λ (x : ℕ × ℕ). x.0) q, e))
      (λ r. ground (arith, Mem-HasKey k v ws r, e))

positive : (n : ℕ) → (n == 0) ≡ false → 0 < n
positive n e = ground (arith, e)

-- The entries of a round are its first one and others.
round-first :
    (l ws : List (ℕ × ℕ)) (n : ℕ)
    → Perm l ws
    → 0 < n
    → ws ≢ []
    → (e : ℕ × ℕ) × (es : List (ℕ × ℕ)) × (take n l ≡ e ∷ es) × HasKey e.0 ws
round-first [] [] n p room ne = absurd (ne refl)
round-first [] (x ∷ ws) n p room ne = absurd (omega (arith, length-perm p))
round-first (e ∷ l) ws zero p room ne = absurd (omega (arith, room))
round-first (e ∷ l) ws (suc n) p room ne =
    (e, take n l, refl, Mem-HasKey e.0 e.1 ws ((Perm.mem_iff p).0 mem-cons_self))

round-lt :
    (iter : List (ℕ × ℕ) → List (ℕ × ℕ)) (ws : List (ℕ × ℕ)) (n : ℕ) (before : List ℕ)
    → IsOrder iter
    → 0 < n
    → ws ≢ []
    → length (delete_all (before ++ map (λ (e : ℕ × ℕ). e.0) (take n (iter ws))) ws) < length ws
round-lt iter ws n before order room ne =
    let (e, es, eq, has) = round-first (iter ws) ws n (order ws) room ne in
    rw eq (delete_all-lt e.0 before (map (λ (e : ℕ × ℕ). e.0) es) ws has)

-- What holds of the successors from n on holds from n + 1 on.
from_suc : (P : ℕ → Type 0) (n : ℕ) → ((m : ℕ) → n ≤ m → P (suc m)) → (m : ℕ) → suc n ≤ m → P m
from_suc P n f zero h = absurd (omega (arith, h))
from_suc P n f (suc m) h = f m (omega (arith, h))

module _ (iter : List (ℕ × ℕ) → List (ℕ × ℕ)) (order : IsOrder iter) where
  abbrev batch : ℕ → WaiterManager → List (ℕ × ℕ)
  batch remaining w = take (min max_total_waiters remaining) (iter w.ws)

  abbrev gone : ℕ → List ℕ → WaiterManager → List ℕ
  gone remaining deleted w = deleted ++ map (λ (e : ℕ × ℕ). e.0) (batch remaining w)

  abbrev after : ℕ → List ℕ → WaiterManager → List Chan → WaiterManager
  after remaining deleted w chans = record w {
    ws = delete_all (gone remaining deleted w) w.ws;
    chans = chans;
  }

  abbrev sent : ℕ → WaiterManager → Result (ℕ × List Chan)
  sent remaining w = send_batch (map (λ (e : ℕ × ℕ). e.1) (batch remaining w)) remaining w.chans

  gone-fewer :
      (remaining : ℕ) (deleted : List ℕ) (w : WaiterManager) (n : ℕ)
      → (remaining == 0) ≡ false
      → length w.ws ≤ suc n
      → (length (delete_all (gone remaining deleted w) w.ws) == 0) ≡ false
      → length (delete_all (gone remaining deleted w) w.ws) ≤ n × (0 < n)
  gone-fewer remaining deleted w n some_left h left =
      let ne : w.ws ≢ [] = λ e.
        omega
          (arith, ap length e, positive _ left, delete_all-le (gone remaining deleted w) w.ws) in
      let fewer =
        round-lt iter w.ws (min max_total_waiters remaining) deleted order
          (omega (arith, positive remaining some_left)) ne in
      (omega (arith, fewer, h), omega (arith, fewer, h, positive _ left))

  -- A loop that ended, with the same result for any number of rounds from n on.
  pub record Ends (n remaining : ℕ) (deleted : List ℕ) (w : WaiterManager) : Type 0 where
    pub result : Result WaiterManager
    pub ends : (m : ℕ) → n ≤ m → notify_loop m iter remaining deleted w ≡ some result

  abbrev Gives : ℕ → List ℕ → WaiterManager → Result WaiterManager → ℕ → Type 0
  Gives remaining deleted w r m = notify_loop m iter remaining deleted w ≡ some r

  loop-ended :
      (remaining : ℕ) (deleted : List ℕ) (w : WaiterManager) (m : ℕ)
      → (remaining == 0) ≡ true
      → notify_loop m iter remaining deleted w ≡ some (ok w)
  unfolding notify_loop
  loop-ended remaining deleted w zero e = rw (e, notify_loop) refl
  loop-ended remaining deleted w (suc m) e = rw (e, notify_loop) refl

  -- What a round leaves to do.
  loop-round :
      (n remaining : ℕ) (deleted : List ℕ) (w : WaiterManager) (r : Result (ℕ × List Chan))
      → (remaining == 0) ≡ false
      → sent remaining w ≡ r
      → ((left : ℕ) (chans : List Chan)
          → (length (delete_all (gone remaining deleted w) w.ws) == 0) ≡ false
          → Ends n left (gone remaining deleted w) (after remaining deleted w chans))
      → Ends (suc n) remaining deleted w
  unfolding notify_loop
  loop-round n remaining deleted w (ok (left, chans)) e s next =
      elim (Bool-cases (length (delete_all (gone remaining deleted w) w.ws) == 0)) [
        | inl z ↦ record {
          result = ok (after remaining deleted w chans);
          ends =
              from_suc (Gives remaining deleted w (ok (after remaining deleted w chans))) n
                (λ m h. rw (e, s, z, notify_loop) refl);
        }
        | inr z ↦ record {
          result = (next left chans z).result;
          ends =
              from_suc (Gives remaining deleted w (next left chans z).result) n
                (λ m h. rw (e, s, z, notify_loop) ((next left chans z).ends m h));
        }
      ]
  loop-round n remaining deleted w (err x) e s next = record {
    result = panic;
    ends = from_suc (Gives remaining deleted w panic) n (λ m h. rw (e, s, notify_loop) refl);
  }
  loop-round n remaining deleted w panic e s next = record {
    result = panic;
    ends = from_suc (Gives remaining deleted w panic) n (λ m h. rw (e, s, notify_loop) refl);
  }

  -- Where `range` visits each waiter once, the loop of `notify` ends: it needs no more rounds than there
  -- are waiters, and one if there is none, and gives the same result however many more it may make.
  pub notify_loop-ends :
      (n remaining : ℕ) (deleted : List ℕ) (w : WaiterManager)
      → 0 < n
      → length w.ws ≤ n
      → (r : Result WaiterManager) × ((m : ℕ)
          → n ≤ m
          → notify_loop m iter remaining deleted w ≡ some r)
  notify_loop-ends n remaining deleted w p h =
      let e = loop-Ends n remaining deleted w p h in (e.result, e.ends)
    where
      loop-Ends :
          (n remaining : ℕ) (deleted : List ℕ) (w : WaiterManager)
          → 0 < n
          → length w.ws ≤ n
          → Ends n remaining deleted w
      loop-Ends zero remaining deleted w p h = absurd (omega (arith, p))
      loop-Ends (suc n) remaining deleted w p h = elim (Bool-cases (remaining == 0)) [
        | inl e ↦ record { result = ok w; ends = λ m k. loop-ended remaining deleted w m e }
        | inr e ↦ loop-round n remaining deleted w (sent remaining w) e refl (λ left chans z.
            let (hn, pn) = gone-fewer remaining deleted w n e h z in
            loop-Ends n left (gone remaining deleted w) (after remaining deleted w chans) pn hn)
      ]
