-- ===== src/LifeCycle/Big.antt =====
-- The pool of big objects: its account of the bytes that it keeps alive.
use turbo_stream.Prelude.{
  ℕ, ◌+◌, ◌≤◌, ◌<◌, ◌≡◌, refl, sym, ap, ◌∙◌, arith, min, false, none, some, List, [], ◌∷◌, length,
  lookup, insert, IsMap, count, lookup-insert, insert-IsMap, delete-insert, Option-cases, inl, inr,
}
use turbo_stream.Prelude.Int.{ℤ, pos, half64, ==ℤ_of_eq, add_int64, sub_int64, pos_part}
use turbo_stream.LifeCycle.{
  sweep, BigDataEntry, BigDataPool, put_big, release_big, free_big, cleanup_big, is_unused,
}
use turbo_stream.LifeCycle.Sweep.{
  sweep-nil, IsVisit, length-sweep, lookup-sweep_keeps, lookup-sweep_deletes,
}

-- The bytes of the objects in the pool.
abbrev pub total : List (ℕ × BigDataEntry) → ℕ
total [] = 0
total ((p, e) ∷ m) = pos_part e.size + total m

-- The account is right, and small enough for an int.
pub record IsAccounted (b : BigDataPool) : Type 0 where
  pub keys : IsMap b.pool
  pub account : b.current_size ≡ pos (total b.pool)
  pub small : total b.pool < half64

add_int64-pos : (a b : ℕ) → a + b < half64 → add_int64 (pos a) (pos b) ≡ pos (a + b)
unfolding add_int64
add_int64-pos a b h = ground arith

sub_int64-pos : (a b : ℕ) → a + b < half64 → sub_int64 (pos (a + b)) (pos b) ≡ pos a
unfolding sub_int64
sub_int64-pos a b h = ground arith

total-insert_new :
    (k : ℕ) (e : BigDataEntry) (m : List (ℕ × BigDataEntry))
    → lookup k m ≡ none
    → total (insert k e m) ≡ total m + pos_part e.size
unfolding lookup insert
total-insert_new k e [] h = omega arith
total-insert_new k e ((j, f) ∷ m) h = ground (arith, total-insert_new k e m)

total-insert_same :
    (k : ℕ) (e f : BigDataEntry) (m : List (ℕ × BigDataEntry))
    → lookup k m ≡ some f
    → e.size ≡ f.size
    → total (insert k e m) ≡ total m
unfolding lookup insert
total-insert_same k e f [] h q = cc
total-insert_same k e f ((j, g) ∷ m) h q = ground (arith, total-insert_same k e f m)

-- Put of an address that is new to a pool whose account is right keeps the account right, as long as
-- the sum of all sizes stays below 2^63.
pub put_big-IsAccounted :
    (b : BigDataPool) (ptr n : ℕ)
    → IsAccounted b
    → lookup ptr b.pool ≡ none
    → total b.pool + n < half64
    → IsAccounted (put_big b ptr (pos n))
unfolding put_big
put_big-IsAccounted b ptr n v fresh room =
    let e = total-insert_new ptr (record { size = pos n; owner = ptr; ref = pos 1 }) b.pool fresh in
    record {
      keys = insert-IsMap ptr _ b.pool v.keys;
      account =
          ap (λ (z : ℤ). add_int64 z (pos n)) v.account
          ∙ add_int64-pos (total b.pool) n room
          ∙ ap pos (sym e);
      small = omega (arith, e);
    }

-- Free undoes Put of an address that is new to a pool whose account is right, where the sum of all
-- sizes with the new one is below 2^63.
pub free_big-put_big :
    (b : BigDataPool) (ptr n : ℕ)
    → IsAccounted b
    → lookup ptr b.pool ≡ none
    → total b.pool + n < half64
    → free_big (put_big b ptr (pos n)) ptr (pos n) ≡ b
unfolding put_big free_big
free_big-put_big b ptr n v fresh room = ground (
  arith,
  lookup-insert ptr ptr (record { size = pos n; owner = ptr; ref = pos 1 }) b.pool,
  delete-insert ptr (record { size = pos n; owner = ptr; ref = pos 1 }) b.pool fresh,
  add_int64-pos (total b.pool) n room,
  sub_int64-pos (total b.pool) n room,
)

-- Release of any address keeps the account right.
pub release_big-IsAccounted :
    (b : BigDataPool) (ptr : ℕ) → IsAccounted b → IsAccounted (release_big b ptr)
unfolding release_big
release_big-IsAccounted b ptr v = elim (Option-cases (lookup ptr b.pool)) [
  | inl e ↦ rw (e, release_big) v
  | inr (f, e) ↦
      let t = total-insert_same ptr (record f { ref = sub_int64 f.ref (pos 1) }) f b.pool e refl in
      rw (e, release_big)
        (record {
          keys = insert-IsMap ptr _ b.pool v.keys;
          account = v.account ∙ ap pos (sym t);
          small = omega (arith, t);
        })
]

cleanup_big-sweep :
    (b : BigDataPool) (visit : List (ℕ × BigDataEntry))
    → length visit ≡ length b.pool
    → cleanup_big b visit ≡ record b { pool = sweep is_unused visit 0 b.pool }
unfolding cleanup_big
cleanup_big-sweep b visit e = go b.pool refl visit e
  where
    go :
        (m : List (ℕ × BigDataEntry))
        → b.pool ≡ m
        → (visit : List (ℕ × BigDataEntry)) → length visit ≡ length b.pool
        → cleanup_big b visit ≡ record b { pool = sweep is_unused visit 0 b.pool }
    go [] q [] e = ground (arith, sweep-nil is_unused 0 b.pool)
    go [] q (v ∷ vs) e = absurd (omega (arith, ap length q))
    go (x ∷ xs) q visit e = ground (arith, ap length q)

-- On a pool that holds each key once, with `range` visiting each of its entries once, `cleanup`
-- deletes objects that nobody references, 201 of them or all that there are, keeps every
-- other, and leaves the account as it was.
pub cleanup_big_lem :
    (b : BigDataPool) (visit : List (ℕ × BigDataEntry))
    → IsMap b.pool
    → IsVisit visit b.pool
    → length visit ≡ length b.pool
    → (length (cleanup_big b visit).pool + min 201 (count is_unused visit) ≡ length b.pool)
      × ((ptr : ℕ) (e : BigDataEntry)
          → lookup ptr b.pool ≡ some e
          → is_unused e ≡ false
          → lookup ptr (cleanup_big b visit).pool ≡ some e)
      × ((cleanup_big b visit).current_size ≡ b.current_size)
cleanup_big_lem b visit d h e = rw (cleanup_big-sweep b visit e) (
  length-sweep is_unused visit 0 b.pool (omega arith) d h,
  λ ptr f p q. lookup-sweep_keeps is_unused visit 0 b.pool ptr f h p q,
  refl,
)

used_up : ℕ → ℕ → BigDataEntry
used_up ptr n = record { size = pos n; owner = ptr; ref = pos 0 }

lookup-release_big-put_big :
    (b : BigDataPool) (ptr : ℕ) (n : ℕ)
    → lookup ptr (release_big (put_big b ptr (pos n)) ptr).pool ≡ some (used_up ptr n)
unfolding put_big release_big used_up sub_int64
lookup-release_big-put_big b ptr n = ground (
  arith,
  lookup-insert ptr ptr (record { size = pos n; owner = ptr; ref = pos 1 }) b.pool,
  lookup-insert ptr ptr (record { size = pos n; owner = ptr; ref = pos 0 })
      (insert ptr (record { size = pos n; owner = ptr; ref = pos 1 }) b.pool),
)

current_size-release_big :
    (b : BigDataPool) (ptr : ℕ) → (release_big b ptr).current_size ≡ b.current_size
unfolding release_big
current_size-release_big b ptr = ground arith

current_size-put_big :
    (b : BigDataPool) (ptr n : ℕ)
    → IsAccounted b
    → total b.pool + n < half64
    → (put_big b ptr (pos n)).current_size ≡ pos (total b.pool + n)
unfolding put_big
current_size-put_big b ptr n v room =
    ap (λ (z : ℤ). add_int64 z (pos n)) v.account ∙ add_int64-pos (total b.pool) n room

-- In a pool whose account is right a new object of n bytes that was released once is deleted by a cleanup that visits no more than
-- 201 unused objects, and its bytes stay on the account.
pub cleanup_big_leaks :
    (b : BigDataPool) (ptr n : ℕ) (visit : List (ℕ × BigDataEntry))
    → IsAccounted b
    → lookup ptr b.pool ≡ none
    → total b.pool + n < half64
    → IsVisit visit (release_big (put_big b ptr (pos n)) ptr).pool
    → length visit ≡ length (release_big (put_big b ptr (pos n)) ptr).pool
    → count is_unused visit ≤ 201
    → (e : BigDataEntry) → lookup ptr visit ≡ some e
    → (lookup ptr (cleanup_big (release_big (put_big b ptr (pos n)) ptr) visit).pool ≡ none)
      × ((cleanup_big (release_big (put_big b ptr (pos n)) ptr) visit).current_size
          ≡ pos (total b.pool + n))
unfolding used_up
cleanup_big_leaks b ptr n visit v fresh room h sz few e he =
    rw (cleanup_big-sweep (release_big (put_big b ptr (pos n)) ptr) visit sz) (
      lookup-sweep_deletes is_unused visit 0 _ ptr e (omega arith) he
          (==ℤ_of_eq e.ref (pos 0) unused),
      current_size-release_big (put_big b ptr (pos n)) ptr ∙ current_size-put_big b ptr n v room,
    )
  where
    unused : e.ref ≡ pos 0
    unused = ground (arith, h.present ptr e he, lookup-release_big-put_big b ptr n)
