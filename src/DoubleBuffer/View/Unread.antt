-- ===== src/DoubleBuffer/View/Unread.antt =====
-- The items that are still unread, against the byte strings that were written, and what the writes,
-- reads and releases of a system leave of that.
use turbo_stream.Prelude.{ℕ, ◌<◌, ◌≡◌, refl, ap, ◌∙◌, arith, List, [], ◌∷◌, ◌++◌, length, take}
use turbo_stream.Prelude.Int.{pos}
use turbo_stream.SmartBuffer.{BufferItem}
use turbo_stream.DoubleBuffer.{DataChunk}
use turbo_stream.DoubleBuffer.Memory.{Memory, holds, IsFree, IsKept, Evolves}
use turbo_stream.DoubleBuffer.Write.{bytes_at}
use turbo_stream.DoubleBuffer.View.Reads.{IsItem}

-- The arrays that the chunks of a reader hold.
abbrev pub held_by : List DataChunk → List ℕ
held_by [] = []
held_by (chunk ∷ chunks) = holds chunk ++ held_by chunks

-- The item stands for the byte string.
pub record StandsFor (m : Memory) (held : List ℕ) (x : BufferItem) (bs : List ℕ) : Type 0 where
  pub some_bytes : 0 < length bs
  pub sized : x.size ≡ pos (length bs)
  pub kept : IsKept m held x.ptr
  pub bytes : bytes_at m.store x.ptr ≡ bs

abbrev pub AllStand : Memory → List ℕ → List BufferItem → List (List ℕ) → Type 0
AllStand m held [] [] = Unit {0}
AllStand m held (x ∷ xs) (bs ∷ bss) = StandsFor m held x bs × AllStand m held xs bss
AllStand m held _ _ = ⊥

module _ {m m' : Memory} {held held' : List ℕ} (e : Evolves m held m' held')
    (f : IsFree m held) where
  pub AllStand-Evolves :
      (xs : List BufferItem) (bss : List (List ℕ))
      → AllStand m held xs bss
      → AllStand m' held' xs bss
  AllStand-Evolves [] [] h = tt
  AllStand-Evolves [] (bs ∷ bss) h = absurd h
  AllStand-Evolves (x ∷ xs) [] h = absurd h
  AllStand-Evolves (x ∷ xs) (bs ∷ bss) (h, hs) = (
    record {
      some_bytes = h.some_bytes;
      sized = h.sized;
      kept = e.kept x.ptr f h.kept;
      bytes = e.same x.ptr f h.kept ∙ h.bytes;
    },
    AllStand-Evolves xs bss hs,
  )

module _ (m : Memory) (held : List ℕ) where
  pub AllStand-append :
      (xs : List BufferItem) (bss : List (List ℕ)) (x : BufferItem) (bs : List ℕ)
      → AllStand m held xs bss
      → StandsFor m held x bs
      → AllStand m held (xs ++ x ∷ []) (bss ++ bs ∷ [])
  AllStand-append [] [] x bs hs h = (h, tt)
  AllStand-append [] (cs ∷ bss) x bs hs h = absurd hs
  AllStand-append (y ∷ xs) [] x bs hs h = absurd hs
  AllStand-append (y ∷ xs) (cs ∷ bss) x bs (g, hs) h = (g, AllStand-append xs bss x bs hs h)

  pub StandsFor-IsItem : (x : BufferItem) (bs : List ℕ) → StandsFor m held x bs → IsItem x
  StandsFor-IsItem x [] h = absurd (omega (arith, h.some_bytes))
  StandsFor-IsItem x (b ∷ bs) h = record {
    pointer = λ e. omega (arith, h.kept.not_nil, e);
    bytes = length bs;
    sized = h.sized;
  }

  -- The first unread item is that of the first byte string.
  pub AllStand-first :
      (x : BufferItem) (xs : List BufferItem) (bss : List (List ℕ))
      → AllStand m held (x ∷ xs) bss
      → (bs : List ℕ) × (rest : List (List ℕ)) × (bss ≡ bs ∷ rest)
        × StandsFor m held x bs
        × AllStand m held xs rest
  AllStand-first x xs [] h = absurd h
  AllStand-first x xs (bs ∷ bss) (h, hs) = (bs, bss, refl, h, hs)

pub take-length {ℓ} : {A : Type ℓ} (xs : List A) → take (length xs) xs ≡ xs
take-length [] = refl
take-length (x ∷ xs) = ap (λ ys. x ∷ ys) (take-length xs)
