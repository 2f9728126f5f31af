-- ===== src/DoubleBuffer/View/Turns.antt =====
-- Whose turn it is: the smallest sequence number on the heap is the current one.
use mathlib.Core.List.{Perm, Mem, mem-cons_self, mem-cons, not-mem-nil}
use mathlib.Core.List.Perm
use mathlib.Core.Logic.Or
use native.Mathlib.Bridge.{le_prop}
use native.Mathlib.Nat.{le_refl}
use turbo_stream.Prelude.{ℕ, suc, ◌≡◌, sym, ap, subst, arith, List, [], ◌∷◌}
use turbo_stream.Prelude.Int.{pos, pos_part, neg_part, ◌≤ℤ◌}
use turbo_stream.SmartBuffer.{BufferItem}
use turbo_stream.MinHeap.Swaps.{Entry}
use turbo_stream.WrapHeap.Contract.{AllFrom}
use turbo_stream.DoubleBuffer.View.{Numbered}

Entry-set : IsSet Entry
Entry-set = hlevel

-- Numbered buffers carry numbers from the first on.
Numbered-from :
    (c n : ℕ) (es : List Entry) (ls : List (List BufferItem)) (e : Entry)
    → Numbered c n es ls
    → Mem e es
    → pos n ≤ℤ e.0
Numbered-from c n [] ls e h m = absurd (not-mem-nil m)
Numbered-from c n (x ∷ es) [] e h m = absurd h
Numbered-from c n (x ∷ es) (l ∷ ls) e h m =
    Or.elim le_prop (mem-cons.0 m)
      (λ q. subst (λ (y : Entry). pos n ≤ℤ y.0) (sym q) (rw h.0 (le_refl _)))
      (λ k. omega (arith, Numbered-from c (suc n) es ls e h.2 k))

first-eq :
    (c n : ℕ) (rest : List Entry) (item : Entry) (x : Entry) (es : List Entry) (l : List BufferItem)
    (ls : List (List BufferItem))
    → Numbered c n (x ∷ es) (l ∷ ls)
    → Perm (item ∷ rest) (x ∷ es)
    → AllFrom item.0 rest
    → item ≡ x
first-eq c n rest item x es l ls h p least =
    Or.elim (Entry-set item x) (mem-cons.0 ((Perm.mem_iff p).1 mem-cons_self)) (λ q. sym q)
      (λ k.
        Or.elim (Entry-set item x) (mem-cons.0 ((Perm.mem_iff p).0 mem-cons_self)) (λ q. q)
          (λ j. absurd (
            omega (
              arith,
              least x k,
              Numbered-from c (suc n) es ls item h.2 j,
              ap pos_part h.0,
              ap neg_part h.0,
            ))))

-- Of the buffers numbered from n on, the one with the least number is the first.
pub pick-first :
    (c n : ℕ) (rest : List Entry) (item : Entry) (x : Entry) (es : List Entry) (l : List BufferItem)
    (ls : List (List BufferItem))
    → Numbered c n (x ∷ es) (l ∷ ls)
    → Perm (item ∷ rest) (x ∷ es)
    → AllFrom item.0 rest
    → (item ≡ x) × Perm rest es
pick-first c n rest item x es l ls h p least =
    let q = first-eq c n rest item x es l ls h p least in
    (q, Perm.cons_inv (subst (λ (y : Entry). Perm (y ∷ rest) (x ∷ es)) q p))
