-- ===== src/LifeCycle/Medium.antt =====
-- The pool of medium objects: what `cleanup` deletes, and what the reader's `IsValid` sees.
use turbo_stream.Prelude.{
  ℕ, ◌+◌, ◌≤◌, ◌≡◌, arith, min, true, false, some, [], ◌∷◌, length, lookup, IsMap, count,
  lookup-insert,
}
use turbo_stream.Prelude.Int.{ℤ, ltb_ℤ}
use turbo_stream.LifeCycle.{
  sweep, MediumPool, put_medium, is_valid, cleanup_medium, is_old, medium_pool_ttl, minute,
}
use turbo_stream.LifeCycle.Sweep.{
  sweep-nil, ==-suc, IsVisit, length-sweep, lookup-sweep_keeps, lookup-sweep_deletes,
}

module _ {T : Type 0} (since : T → T → ℤ) where
  -- The test for an empty cache spares the loop a run that would do nothing.
  cleanup_medium-sweep :
      (m visit : MediumPool since) (now : T)
      → length visit ≡ length m
      → cleanup_medium since m now visit ≡ sweep (is_old since now) visit 0 m
  unfolding cleanup_medium
  cleanup_medium-sweep [] [] now e = ground (arith, sweep-nil (is_old since now) 0 [])
  cleanup_medium-sweep [] (v ∷ vs) now e = absurd (omega arith)
  cleanup_medium-sweep (x ∷ xs) visit now e = rw (==-suc (length xs))

  -- One call of `cleanup` on a cache that holds each key once, with `range` visiting each of its
  -- entries once, deletes entries older than a minute, 201 of them or all that there are, and no
  -- other.
  pub cleanup_medium_lem :
      (m visit : MediumPool since) (now : T)
      → IsMap m
      → IsVisit visit m
      → length visit ≡ length m
      → (length (cleanup_medium since m now visit) + min 201 (count (is_old since now) visit)
          ≡ length m)
        × ((ptr : ℕ) (t : T)
            → lookup ptr m ≡ some t
            → is_old since now t ≡ false
            → lookup ptr (cleanup_medium since m now visit) ≡ some t)
  cleanup_medium_lem m visit now d h e = rw (cleanup_medium-sweep m visit now e) (
    length-sweep (is_old since now) visit 0 m (omega arith) d h,
    λ ptr t p q. lookup-sweep_keeps (is_old since now) visit 0 m ptr t h p q,
  )

  -- An object that was put at a time is valid for two minutes from it, until it is released.
  pub is_valid-put :
      (m : MediumPool since) (ptr : ℕ) (t now : T)
      → is_valid since (put_medium since m ptr t) now ptr ≡ ltb_ℤ (since now t) medium_pool_ttl
  unfolding is_valid put_medium
  is_valid-put m ptr t now = ground (arith, lookup-insert ptr ptr t m)

  -- Between one and two minutes after its Put an object that IsValid accepts is deleted by a
  -- cleanup that visits no more than 201 entries older than a minute, and is refused from then on.
  pub cleanup_deletes_valid :
      (m visit : MediumPool since) (ptr : ℕ) (t now : T)
      → IsVisit visit m
      → length visit ≡ length m
      → lookup ptr visit ≡ some t
      → count (is_old since now) visit ≤ 201
      → ltb_ℤ minute (since now t) ≡ true
      → ltb_ℤ (since now t) medium_pool_ttl ≡ true
      → (is_valid since m now ptr ≡ true)
        × (is_valid since (cleanup_medium since m now visit) now ptr ≡ false)
  unfolding is_valid
  cleanup_deletes_valid m visit ptr t now h e hv few old young = (
    rw (h.present ptr t hv, is_valid) young,
    rw (
      cleanup_medium-sweep m visit now e,
      lookup-sweep_deletes (is_old since now) visit 0 m ptr t (omega arith) hv old,
      is_valid,
    ),
  )
