-- ===== src/Waiters/Registers.antt =====
-- waiters.go: what `register` and `unregister` do to the waiters and the pool of channels.
use turbo_stream.Prelude.{
  ℕ, ◌+◌, ◌%◌, ◌^◌, ◌≡◌, refl, ◌∙◌, ap, arith, none, some, ◌∷◌, lookup, insert, delete,
  lookup-insert, delete-insert, Option-cases, inl, inr,
}
use turbo_stream.Waiters.{WaiterManager, PoolGet, register, unregister}

module _ (get : PoolGet) (w : WaiterManager) where
  -- The id that the next waiter gets.
  abbrev pub next_id : ℕ
  next_id = (w.current_id + 1) % 2 ^ 64

  registered :
      ((register get w).0.ws ≡ insert next_id (register get w).2 w.ws)
      × ((register get w).1 ≡ next_id)
  unfolding register
  registered = elim (Option-cases (get w.pool)) [
    | inl e ↦ rw (e, register) (refl, refl)
    | inr ((ch, pool), e) ↦ rw (e, register) (refl, refl)
  ]

  lookup-register : lookup next_id (register get w).0.ws ≡ some (register get w).2
  lookup-register =
      ap (lookup next_id) registered.0
      ∙ ground (arith, lookup-insert next_id next_id (register get w).2 w.ws)

  unregister-found :
      (v : WaiterManager) (id ch : ℕ)
      → lookup id v.ws ≡ some ch
      → unregister v id ≡ record v { pool = ch ∷ v.pool; ws = delete id v.ws }
  unfolding unregister
  unregister-found v id ch e = rw (e, unregister)

  -- A waiter whose id is free is registered under that id with its channel; unregistering it removes
  -- it alone and puts its channel into the pool.
  pub unregister-register :
      lookup next_id w.ws ≡ none
      → (lookup (register get w).1 (register get w).0.ws ≡ some (register get w).2)
        × ((unregister (register get w).0 (register get w).1).ws ≡ w.ws)
        × ((unregister (register get w).0 (register get w).1).pool
            ≡ (register get w).2 ∷ (register get w).0.pool)
  unregister-register free =
      let (ws, id) = registered in
      let off = unregister-found (register get w).0 next_id (register get w).2 lookup-register in
      rw id (
        lookup-register,
        ap (λ (v : WaiterManager). v.ws) off
            ∙ ap (delete next_id) ws
            ∙ delete-insert next_id (register get w).2 w.ws free,
        ap (λ (v : WaiterManager). v.pool) off,
      )
