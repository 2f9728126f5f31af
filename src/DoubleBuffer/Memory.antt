-- ===== src/DoubleBuffer/Memory.antt =====
-- The arrays that a double buffer works on: the store of bytes, the pool of small arrays, and the
-- addresses that were never used. An array that stands in the pool or is held by a chunk of small data
-- may be written again; one that holds written data may not.
use mathlib.Core.List.{
  Perm, Mem, Nodup, Nodup-cons, perm_middle, mem-cons_self, mem-cons, mem-cons_of_mem,
}
use mathlib.Core.List.Perm
use mathlib.Core.Logic.{◌∨₁◌}
use mathlib.Core.Logic.Or
use mathlib.Core.HLevel.{⊥_prop}
use native.Mathlib.Bridge.{le_prop}
use turbo_stream.Prelude.{
  ℕ, ◌+◌, ◌<◌, ◌≡◌, ◌≢◌, refl, sym, ap, subst, ◌∙◌, arith, List, [], ◌∷◌, ◌++◌, map, insert,
  lookup-insert, Option, none, some,
}
use turbo_stream.DoubleBuffer.{
  ByteBuf, Free, put_small, recycles, frees_big, DataChunk, DoubleBuffer,
}
use turbo_stream.DoubleBuffer.Write.{bytes_at}

pub record Memory : Type 0 where
  pub store : List (ℕ × List ℕ)
  pub small_pool : List ByteBuf
  pub next_addr : ℕ

abbrev pub memory : {T : Type 0} → DoubleBuffer T → Memory
memory d = record { store = d.store; small_pool = d.small_pool; next_addr = d.next_addr }

abbrev pub addresses : List ByteBuf → List ℕ
addresses = map (λ (b : ByteBuf). b.addr)

-- The array that a chunk gives back when it is released.
abbrev pub holds_free : Option Free → List ℕ
holds_free none = []
holds_free (some (put_small b)) = b.addr ∷ []
holds_free (some (recycles ptr size)) = []
holds_free (some (frees_big ptr size)) = []

abbrev pub holds : DataChunk → List ℕ
holds chunk = holds_free chunk.free

-- The addresses that may be written again, `held` by chunks that are not yet released.
abbrev pub reusable : Memory → List ℕ → List ℕ
reusable m held = addresses m.small_pool ++ held

-- They differ and were used before.
pub record IsFree (m : Memory) (held : List ℕ) : Type 0 where
  pub differ : Nodup (reusable m held)
  pub low : (a : ℕ) → Mem a (reusable m held) → a < m.next_addr
  pub not_nil : (a : ℕ) → Mem a (reusable m held) → 0 < a
  pub some_used : 0 < m.next_addr

-- An address whose bytes stay.
pub record IsKept (m : Memory) (held : List ℕ) (q : ℕ) : Type 0 where
  pub not_nil : 0 < q
  pub used : q < m.next_addr
  pub apart : ¬ Mem q (reusable m held)

-- What a step of the program may do to the memory.
pub record Evolves (m : Memory) (held : List ℕ) (m' : Memory) (held' : List ℕ) : Type 0 where
  pub free : IsFree m held → IsFree m' held'
  pub kept : (q : ℕ) → IsFree m held → IsKept m held q → IsKept m' held' q
  pub same : (q : ℕ) → IsFree m held → IsKept m held q → bytes_at m'.store q ≡ bytes_at m.store q

pub Evolves-refl : (m : Memory) (held : List ℕ) → Evolves m held m held
Evolves-refl m held = record { free = λ f. f; kept = λ q f k. k; same = λ q f k. refl }

pub Evolves-trans :
    {m n o : Memory} {held held' held'' : List ℕ}
    → Evolves m held n held'
    → Evolves n held' o held''
    → Evolves m held o held''
Evolves-trans a b = record {
  free = λ f. b.free (a.free f);
  kept = λ q f k. b.kept q (a.free f) (a.kept q f k);
  same = λ q f k. b.same q (a.free f) (a.kept q f k) ∙ a.same q f k;
}

-- An array is taken to be written: one of the pool, or a new one.
pub record Takes (m m' : Memory) (a : ℕ) : Type 0 where
  pub same : m'.store ≡ m.store
  pub free : (held : List ℕ) → IsFree m held → IsFree m' (a ∷ held)
  pub kept : (held : List ℕ) (q : ℕ) → IsFree m held → IsKept m held q → IsKept m' (a ∷ held) q

-- The same arrays may be written, in another order.
module _ {m m' : Memory} {held held' : List ℕ} (p : Perm (reusable m held) (reusable m' held'))
    (e : m'.next_addr ≡ m.next_addr) where
  reorder-IsFree : IsFree m held → IsFree m' held'
  reorder-IsFree f = record {
    differ = Perm.nodup p f.differ;
    low = λ a i. omega (arith, e, f.low a ((Perm.mem_iff p).1 i));
    not_nil = λ a i. f.not_nil a ((Perm.mem_iff p).1 i);
    some_used = omega (arith, e, f.some_used);
  }

  reorder-IsKept : (q : ℕ) → IsKept m held q → IsKept m' held' q
  reorder-IsKept q k = record {
    not_nil = k.not_nil;
    used = omega (arith, e, k.used);
    apart = λ i. k.apart ((Perm.mem_iff p).1 i);
  }

module _ (m : Memory) (held : List ℕ) (a : ℕ) where
  held_first : Perm (reusable m (a ∷ held)) (a ∷ reusable m held)
  held_first = perm_middle (addresses m.small_pool) held

  one_more : (x : ℕ) → Mem x (reusable m held) → Mem x (reusable m (a ∷ held))
  one_more x i = (Perm.mem_iff held_first).1 (mem-cons_of_mem _ i)

  -- An array that is held is held by somebody else from now on.
  pub forget-IsFree : IsFree m (a ∷ held) → IsFree m held
  forget-IsFree f = record {
    differ = (Nodup-cons.0 (Perm.nodup held_first f.differ)).1;
    low = λ x i. f.low x (one_more x i);
    not_nil = λ x i. f.not_nil x (one_more x i);
    some_used = f.some_used;
  }

  pub forget-IsKept : (q : ℕ) → IsKept m (a ∷ held) q → IsKept m held q
  forget-IsKept q k = record {
    not_nil = k.not_nil;
    used = k.used;
    apart = λ i. k.apart (one_more q i);
  }

  -- That array itself is kept, and differs from what was kept.
  pub forgotten-IsKept : IsFree m (a ∷ held) → IsKept m held a
  forgotten-IsKept f =
      let i = (Perm.mem_iff held_first).1 mem-cons_self in
      record {
        not_nil = f.not_nil a i;
        used = f.low a i;
        apart = (Nodup-cons.0 (Perm.nodup held_first f.differ)).0;
      }

  pub IsKept-ne : (q : ℕ) → IsKept m (a ∷ held) q → q ≢ a
  IsKept-ne q k e = k.apart (
      subst (λ (x : ℕ). Mem x (reusable m (a ∷ held))) (sym e)
        ((Perm.mem_iff held_first).1 mem-cons_self))

module _ (m : Memory) where
  abbrev make_next : Memory
  make_next = record m { next_addr = m.next_addr + 1 }

  made_new : (held : List ℕ) → IsFree m held → ¬ Mem m.next_addr (reusable m held)
  made_new held f i = omega (arith, f.low m.next_addr i)

  made_first :
      (held : List ℕ) (x : ℕ)
      → Mem x (reusable make_next (m.next_addr ∷ held))
      → (x ≡ m.next_addr) ∨₁ Mem x (reusable m held)
  made_first held x i = mem-cons.0 ((Perm.mem_iff (held_first m held m.next_addr)).0 i)

  -- `make` takes a new array.
  pub make-Takes : Takes m make_next m.next_addr
  make-Takes = record {
    same = refl;
    free = λ held f. record {
      differ =
          Perm.nodup (Perm.symm (held_first m held m.next_addr))
            (Nodup-cons.1 (made_new held f, f.differ));
      low = λ x i.
          Or.elim le_prop (made_first held x i) (λ e. omega (arith, e))
            (λ j. omega (arith, f.low x j));
      not_nil = λ x i.
          Or.elim le_prop (made_first held x i) (λ e. omega (arith, e, f.some_used))
            (λ j. f.not_nil x j);
      some_used = omega arith;
    };
    kept = λ held q f k. record {
      not_nil = k.not_nil;
      used = omega (arith, k.used);
      apart = λ i.
          Or.elim ⊥_prop (made_first held q i) (λ e. omega (arith, e, k.used)) (λ j. k.apart j);
    };
  }

-- An array out of the pool.
pub pool-Takes :
    (m : Memory) (before after : List ByteBuf) (b : ByteBuf)
    → m.small_pool ≡ before ++ b ∷ after
    → Takes m (record m { small_pool = before ++ after }) b.addr
pool-Takes m before after b e =
    let left = record m { small_pool = before ++ after } in
    let p : Perm m.small_pool (b ∷ (before ++ after)) =
      subst (λ (bs : List ByteBuf). Perm bs (b ∷ (before ++ after))) (sym e)
        (perm_middle before after) in
    let q : (held : List ℕ) → Perm (reusable m held) (reusable left (b.addr ∷ held)) = λ held.
      Perm.trans (Perm.append_right held (Perm.map (λ (x : ByteBuf). x.addr) p))
        (Perm.symm (held_first left held b.addr)) in
    record {
      same = refl;
      free = λ held f. reorder-IsFree (q held) refl f;
      kept = λ held x f k. reorder-IsKept (q held) refl x k;
    }

pub Takes-trans : {m n o : Memory} {a b : ℕ} → Takes m n a → Takes n o b → Takes m o b
Takes-trans {n} {a} s t = record {
  same = t.same ∙ s.same;
  free = λ held f. t.free held (forget-IsFree n held a (s.free held f));
  kept = λ held q f k.
      t.kept held q (forget-IsFree n held a (s.free held f))
        (forget-IsKept n held a q (s.kept held q f k));
}

bytes_at-insert_ne :
    (a q : ℕ) (bs : List ℕ) (store : List (ℕ × List ℕ))
    → q ≢ a
    → bytes_at (insert a bs store) q ≡ bytes_at store q
bytes_at-insert_ne a q bs store ne = ground (arith, lookup-insert a q bs store, ne)

-- Writing the array that was taken.
pub insert-Evolves :
    {m m' : Memory} {a : ℕ} (held : List ℕ) (bs : List ℕ)
    → Takes m m' a
    → Evolves m held (record m' { store = insert a bs m'.store }) (a ∷ held)
insert-Evolves {m} {m'} {a} held bs t = record {
  free = λ f. reorder-IsFree (Perm.refl _) refl (t.free held f);
  kept = λ q f k. reorder-IsKept (Perm.refl _) refl q (t.kept held q f k);
  same = λ q f k.
      bytes_at-insert_ne a q bs m'.store (IsKept-ne m' held a q (t.kept held q f k))
      ∙ ap (λ (store : List (ℕ × List ℕ)). bytes_at store q) t.same;
}

-- What was held by somebody who gives it to the pool.
pub put_back-Evolves :
    (m : Memory) (b : ByteBuf) (held : List ℕ)
    → Evolves m (b.addr ∷ held) (record m { small_pool = b ∷ m.small_pool }) held
put_back-Evolves m b held =
    let p : Perm (reusable m (b.addr ∷ held))
        (reusable (record m { small_pool = b ∷ m.small_pool }) held) =
      held_first m held b.addr in
    record {
      free = λ f. reorder-IsFree p refl f;
      kept = λ q f k. reorder-IsKept p refl q k;
      same = λ q f k. refl;
    }

-- Holders that are known in another order, or forgotten.
pub reorder-Evolves : (m : Memory) (held held' : List ℕ) → Perm held held' → Evolves m held m held'
reorder-Evolves m held held' p =
    let q = Perm.append_left (addresses m.small_pool) p in
    record {
      free = λ f. reorder-IsFree {m = m} {m' = m} q refl f;
      kept = λ x f k. reorder-IsKept {m = m} {m' = m} q refl x k;
      same = λ x f k. refl;
    }

pub forget-Evolves : (m : Memory) (a : ℕ) (held : List ℕ) → Evolves m (a ∷ held) m held
forget-Evolves m a held = record {
  free = λ f. forget-IsFree m held a f;
  kept = λ q f k. forget-IsKept m held a q k;
  same = λ q f k. refl;
}

-- The memory is the same.
pub eq-Evolves : {m m' : Memory} (held : List ℕ) → m' ≡ m → Evolves m held m' held
eq-Evolves {m} {m'} held e =
    subst (λ (x : Memory). Evolves m held x held) (sym e) (Evolves-refl m held)
