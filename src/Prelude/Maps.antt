-- ===== src/Prelude/Maps.antt =====
-- Go maps with number keys, as association lists that hold each key once.
use Prim.Native.Nat.{ℕ, suc, ◌+◌}
use mathlib.Core.Path.{◌≡◌, refl}
use mathlib.Core.Bool.{Bool}
use mathlib.Core.Option.{Option, none, some}
use mathlib.Core.List.{List, [], ◌∷◌}
use native.Mathlib.Omega.{arith}
use turbo_stream.Prelude.Tests.{◌==◌, if◌then◌else◌}
use turbo_stream.Prelude.Lists.{length}

module _ {ℓ} {V : Type ℓ} where
  unfoldable pub lookup : ℕ → List (ℕ × V) → Option V
  lookup key [] = none
  lookup key ((i, w) ∷ rest) = if i == key then some w else lookup key rest

  unfoldable pub delete : ℕ → List (ℕ × V) → List (ℕ × V)
  delete k [] = []
  delete k ((j, v) ∷ m) = let rest = delete k m in if j == k then rest else (j, v) ∷ rest

  -- A new key goes to the end.
  unfoldable pub insert : ℕ → V → List (ℕ × V) → List (ℕ × V)
  insert key v [] = (key, v) ∷ []
  insert key v ((i, w) ∷ rest) = if i == key then (i, v) ∷ rest else (i, w) ∷ insert key v rest

  -- No key stands twice.
  abbrev pub IsMap : List (ℕ × V) → Type ℓ
  IsMap [] = Unit
  IsMap ((k, v) ∷ m) = (lookup k m ≡ none) × IsMap m

  -- How many entries pass a test.
  abbrev pub count : (V → Bool) → List (ℕ × V) → ℕ
  count p [] = 0
  count p ((k, v) ∷ m) = (if p v then 1 else 0) + count p m

  pub lookup-insert :
      (key other : ℕ) (new : V) (kept : List (ℕ × V))
      → lookup other (insert key new kept) ≡ (if key == other then some new else lookup other kept)
  unfolding lookup insert
  lookup-insert key other new [] = refl
  lookup-insert key other new (e ∷ kept) = ground (arith, lookup-insert key other new kept)

  pub lookup-delete :
      (k j : ℕ) (m : List (ℕ × V)) → lookup j (delete k m) ≡ (if k == j then none else lookup j m)
  unfolding lookup delete
  lookup-delete k j [] = ground arith
  lookup-delete k j ((i, w) ∷ m) = ground (arith, lookup-delete k j m)

  pub delete-none : (k : ℕ) (m : List (ℕ × V)) → lookup k m ≡ none → delete k m ≡ m
  unfolding lookup delete
  delete-none k [] h = refl
  delete-none k ((i, w) ∷ m) h = ground (arith, delete-none k m)

  pub insert-IsMap : (k : ℕ) (v : V) (m : List (ℕ × V)) → IsMap m → IsMap (insert k v m)
  unfolding insert lookup
  insert-IsMap k v [] h = (refl, tt)
  insert-IsMap k v ((i, w) ∷ m) h = ground (arith, insert-IsMap k v m h.1, lookup-insert k i v m)

  pub delete-IsMap : (k : ℕ) (m : List (ℕ × V)) → IsMap m → IsMap (delete k m)
  unfolding delete lookup
  delete-IsMap k [] h = tt
  delete-IsMap k ((i, w) ∷ m) h = ground (arith, delete-IsMap k m h.1, lookup-delete k i m)

  pub delete-insert :
      (k : ℕ) (v : V) (m : List (ℕ × V)) → lookup k m ≡ none → delete k (insert k v m) ≡ m
  unfolding lookup insert delete
  delete-insert k v [] h = ground arith
  delete-insert k v ((i, w) ∷ m) h = ground (arith, delete-insert k v m)

  pub count-delete :
      (p : V → Bool) (k : ℕ) (v : V) (m : List (ℕ × V))
      → IsMap m
      → lookup k m ≡ some v
      → count p m ≡ (if p v then 1 else 0) + count p (delete k m)
  unfolding lookup delete
  count-delete p k v [] h e = cc
  count-delete p k v ((i, w) ∷ m) h e = ground (arith, count-delete p k v m h.1, delete-none k m)

  pub length-delete :
      (k : ℕ) (v : V) (m : List (ℕ × V))
      → IsMap m
      → lookup k m ≡ some v
      → length m ≡ suc (length (delete k m))
  unfolding lookup delete
  length-delete k v [] h e = cc
  length-delete k v ((i, w) ∷ m) h e = ground (arith, length-delete k v m h.1, delete-none k m)
