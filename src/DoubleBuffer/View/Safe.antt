-- ===== src/DoubleBuffer/View/Safe.antt =====
-- The chunks that a reader holds: what an event leaves of the bytes that they show.
use mathlib.Core.List.{
  Perm, Permᴰ, Perm-prop, Mem, mem-cons, mem-cons_self, exists_perm_cons_of_mem, perm_append_comm,
}
use mathlib.Core.List.Perm
use mathlib.Core.Logic.{∥∥₁_elim}
use mathlib.Core.Logic.Or
use native.Mathlib.Bridge.{le_prop}
use turbo_stream.Prelude.{
  ℕ, zero, suc, ◌≡◌, sym, subst, arith, some, List, [], ◌∷◌, ◌++◌, get_elem?, append_assoc,
}
use turbo_stream.DoubleBuffer.{DataChunk}
use turbo_stream.DoubleBuffer.Memory.{
  Memory, holds, IsFree, IsKept, Evolves, forget-IsFree, reorder-Evolves,
}
use turbo_stream.DoubleBuffer.Write.{bytes_at}
use turbo_stream.DoubleBuffer.Switch.{remove_at}
use turbo_stream.DoubleBuffer.View.Unread.{held_by}

perm_front : (xs ys zs : List ℕ) → Perm (xs ++ (ys ++ zs)) (ys ++ (xs ++ zs))
perm_front xs ys zs =
    subst (λ (l : List ℕ). Perm (xs ++ (ys ++ zs)) l) (append_assoc ys xs zs)
      (subst (λ (l : List ℕ). Perm l ((ys ++ xs) ++ zs)) (append_assoc xs ys zs)
        (Perm.append_right zs (perm_append_comm xs ys)))

-- The same chunks in another order hold the same arrays.
pub held_by-perm : {xs ys : List DataChunk} → Perm xs ys → Perm (held_by xs) (held_by ys)
held_by-perm p = ∥∥₁_elim p Perm-prop go
  where
    go : {xs ys : List DataChunk} → Permᴰ xs ys → Perm (held_by xs) (held_by ys)
    go Permᴰ.nil = Perm.refl []
    go (Permᴰ.cons {a} {b} {l₁} {l₂} e d) =
        subst (λ (c : DataChunk). Perm (holds a ++ held_by l₁) (holds c ++ held_by l₂)) {x = a}
          {y = b} e (Perm.append_left (holds a) (go d))
    go (Permᴰ.swap {a} {b} {a'} {b'} {l} e q) =
        subst
          (λ (c : DataChunk).
            Perm (holds a ++ (holds b ++ held_by l)) (holds a' ++ (holds c ++ held_by l)))
          {x = a} {y = b'} e
          (subst
            (λ (c : DataChunk).
              Perm (holds a ++ (holds b ++ held_by l)) (holds c ++ (holds a ++ held_by l)))
            {x = b} {y = a'} q (perm_front (holds a) (holds b) (held_by l)))
    go (Permᴰ.trans d d') = Perm.trans (go d) (go d')

module _ {A : Type 0} where
  pub remove_at-perm :
      (xs : List A) (i : ℕ) (x : A) → get_elem? xs i ≡ some x → Perm xs (x ∷ remove_at xs i)
  unfolding remove_at
  remove_at-perm [] i x e = absurd cc
  remove_at-perm (y ∷ xs) zero x e =
      subst (λ (z : A). Perm (y ∷ xs) (z ∷ xs)) {x = y} {y = x} (ground (arith, e)) (Perm.refl _)
  remove_at-perm (y ∷ xs) (suc i) x e =
      Perm.trans (Perm.cons y (remove_at-perm xs i x e)) (Perm.swap x y _)

drop-IsFree : (m : Memory) (xs held : List ℕ) → IsFree m (xs ++ held) → IsFree m held
drop-IsFree m [] held f = f
drop-IsFree m (a ∷ xs) held f = drop-IsFree m xs held (forget-IsFree m (xs ++ held) a f)

-- The array of each chunk is kept as far as the other chunks can tell.
pub record IsSafe (m : Memory) (chunks : List DataChunk) : Type 0 where
  pub free : IsFree m (held_by chunks)
  pub kept :
      (chunk : DataChunk) (others : List DataChunk)
      → Perm chunks (chunk ∷ others)
      → IsKept m (held_by others) chunk.bytes.0

others-IsFree :
    (m : Memory) (chunks : List DataChunk) (chunk : DataChunk) (others : List DataChunk)
    → IsFree m (held_by chunks)
    → Perm chunks (chunk ∷ others)
    → IsFree m (held_by others)
others-IsFree m chunks chunk others f p =
    drop-IsFree m (holds chunk) (held_by others)
      ((reorder-Evolves m (held_by chunks) (held_by (chunk ∷ others)) (held_by-perm p)).free f)

-- The chunks that are held before and after show the same bytes.
abbrev pub Stays : Memory → Memory → List DataChunk → List DataChunk → Type 0
Stays m m' chunks chunks' =
    (chunk : DataChunk)
    → Mem chunk chunks
    → Mem chunk chunks'
    → bytes_at m'.store chunk.bytes.0 ≡ bytes_at m.store chunk.bytes.0

IsKept-prop : (m : Memory) (held : List ℕ) (a : ℕ) → IsProp (IsKept m held a)
IsKept-prop m held a = hlevel (le_prop)

Bytes-set : IsSet (List ℕ)
Bytes-set = hlevel

module _ {m m' : Memory} (chunks : List DataChunk) (s : IsSafe m chunks) where
  -- An event that neither gives a chunk nor takes one back.
  pub event-IsSafe :
      ((held : List ℕ) → Evolves m held m' held) → IsSafe m' chunks × Stays m m' chunks chunks
  event-IsSafe ev = (
    record {
      free = (ev (held_by chunks)).free s.free;
      kept = λ chunk others p.
          (ev (held_by others)).kept chunk.bytes.0 (others-IsFree m chunks chunk others s.free p)
            (s.kept chunk others p);
    },
    λ chunk i j. ∥∥₁_elim (exists_perm_cons_of_mem i) (Bytes-set _ _) (λ (others, p).
        (ev (held_by others)).same chunk.bytes.0 (others-IsFree m chunks chunk others s.free ∣ p ∣₁)
          (s.kept chunk others ∣ p ∣₁)),
  )

  -- A chunk is released.
  module _ (old : DataChunk) (rest : List DataChunk) (p : Perm chunks (old ∷ rest))
      (ev : (held : List ℕ) → Evolves m (holds old ++ held) m' held) where
    behind_old :
        (chunk : DataChunk) (others : List DataChunk)
        → Perm rest (chunk ∷ others)
        → Perm chunks (chunk ∷ (old ∷ others))
    behind_old chunk others q =
        Perm.trans p (Perm.trans (Perm.cons old q) (Perm.swap chunk old others))

    pub release-IsSafe : IsSafe m' rest × Stays m m' chunks rest
    release-IsSafe = (
      record {
        free = (ev (held_by rest)).free (
            (reorder-Evolves m (held_by chunks) (held_by (old ∷ rest)) (held_by-perm p)).free
              s.free);
        kept = λ chunk others q.
            let r = behind_old chunk others q in
            (ev (held_by others)).kept chunk.bytes.0
              (others-IsFree m chunks chunk (old ∷ others) s.free r)
              (s.kept chunk (old ∷ others) r);
      },
      λ chunk i j. ∥∥₁_elim (exists_perm_cons_of_mem j) (Bytes-set _ _) (λ (others, q).
          (ev (held_by others)).same chunk.bytes.0
            (others-IsFree m chunks chunk (old ∷ others) s.free (behind_old chunk others ∣ q ∣₁))
            (s.kept chunk (old ∷ others) (behind_old chunk others ∣ q ∣₁))),
    )

  -- A read makes a chunk.
  module _ (new : DataChunk) (ev : (held : List ℕ) → Evolves m held m' (holds new ++ held))
      (new_kept : IsKept m' (held_by chunks) new.bytes.0) where
    read_free : IsFree m' (held_by (new ∷ chunks))
    read_free = (ev (held_by chunks)).free s.free

    kept_new :
        (others : List DataChunk) → Perm chunks others → IsKept m' (held_by others) new.bytes.0
    kept_new others q =
        (reorder-Evolves m' (held_by chunks) (held_by others) (held_by-perm q)).kept new.bytes.0
          (drop-IsFree m' (holds new) (held_by chunks) read_free) new_kept

    kept_old :
        (chunk : DataChunk) (others o : List DataChunk)
        → Perm chunks (chunk ∷ o)
        → Perm others (new ∷ o)
        → IsKept m' (held_by others) chunk.bytes.0
    kept_old chunk others o q r =
        let f = others-IsFree m chunks chunk o s.free q in
        (reorder-Evolves m' (held_by (new ∷ o)) (held_by others) (held_by-perm (Perm.symm r))).kept
          chunk.bytes.0 ((ev (held_by o)).free f)
          ((ev (held_by o)).kept chunk.bytes.0 f (s.kept chunk o q))

    pub read-IsSafe : IsSafe m' (new ∷ chunks) × Stays m m' chunks (new ∷ chunks)
    read-IsSafe = (
      record {
        free = read_free;
        kept = λ chunk others p.
            Or.elim (IsKept-prop m' (held_by others) chunk.bytes.0)
              (mem-cons.0 ((Perm.mem_iff p).1 mem-cons_self))
              (λ e.
                subst (λ (c : DataChunk). IsKept m' (held_by others) c.bytes.0) {x = new}
                  {y = chunk} (sym e)
                  (kept_new others (
                    Perm.cons_inv (
                      subst (λ (c : DataChunk). Perm (new ∷ chunks) (c ∷ others)) {x = chunk}
                        {y = new} e p))))
              (λ j.
                ∥∥₁_elim (exists_perm_cons_of_mem j) (IsKept-prop m' (held_by others) chunk.bytes.0)
                  (λ (o, q). kept_old chunk others o ∣ q ∣₁ (
                    Perm.cons_inv (
                      Perm.trans (Perm.symm p)
                        (Perm.trans (Perm.cons new ∣ q ∣₁) (Perm.swap chunk new o))))));
      },
      λ chunk i j. ∥∥₁_elim (exists_perm_cons_of_mem i) (Bytes-set _ _) (λ (others, p).
          (ev (held_by others)).same chunk.bytes.0
            (others-IsFree m chunks chunk others s.free ∣ p ∣₁) (s.kept chunk others ∣ p ∣₁)),
    )
