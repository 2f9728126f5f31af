-- ===== src/Workers.antt =====
-- The background goroutines of double_buffer.go, queue.go and metrics/batch_collector.go have one loop:
-- a `select` between a ticker and a stop signal.
use turbo_stream.Prelude.{◌≡◌, refl, List, [], ◌∷◌}
use turbo_stream.Outside.{Result, ok, err, panic}

-- What the `select` takes; `S` says what a tick finds.
pub data Signal (S : Type 0) : Type 0 where
  ticks : S → Signal S
  stops : Signal S

module _ {S D : Type 0} (step : S → D → Result D) where
  -- The loop over the signals that it takes. After the last of them it waits.
  unfoldable pub work : D → List (Signal S) → Result D
  work d [] = ok d
  work d (stops ∷ rest) = ok d
  work d (ticks s ∷ rest) = elim (step s d) [ ok d' ↦ work d' rest | err e ↦ err e | panic ↦ panic ]

  -- Where each tick succeeds and keeps a property, so does the loop.
  module _ (Keeps : D → Type 0) where
    abbrev pub Succeeds : Result D → Type 0
    Succeeds r = (d : D) × (r ≡ ok d) × Keeps d

    abbrev pub AllKeep : List (Signal S) → Type 0
    AllKeep [] = Unit {0}
    AllKeep (stops ∷ rest) = AllKeep rest
    AllKeep (ticks s ∷ rest) = ((d : D) → Keeps d → Succeeds (step s d)) × AllKeep rest

    pub work-keeps :
        (signals : List (Signal S)) (d : D) → Keeps d → AllKeep signals → Succeeds (work d signals)
    unfolding work
    work-keeps [] d k h = (d, refl, k)
    work-keeps (stops ∷ rest) d k h = (d, refl, k)
    work-keeps (ticks s ∷ rest) d k (h, hs) =
        let (d', e, k') = h d k in rw (e, work) (work-keeps rest d' k' hs)
