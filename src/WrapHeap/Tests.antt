-- ===== src/WrapHeap/Tests.antt =====
-- min_heap.go: a heap of three buffers, given the heap package of `Selection`.
use mathlib.Core.List.{Perm}
use turbo_stream.Prelude.{◌≡◌, ◌≢◌, refl, ap, arith, none, some, List, [], ◌∷◌, length}
use turbo_stream.Prelude.Int.{pos, negsuc}
use turbo_stream.Outside.{ok}
use turbo_stream.Samples.{states}
use turbo_stream.SmartBuffer.{fresh_buffer}
use turbo_stream.MinHeap.{MinHeapItem, MinHeap}
use turbo_stream.MinHeap.Swaps.{entry, entries}
use turbo_stream.WrapHeap.{push, pick}
use turbo_stream.WrapHeap.Contract.{
  IsGood, push_lem, Picks, pick-Picks, drain, Rising, drain-Rising,
}
use turbo_stream.WrapHeap.Selection.{selection, selection-IsHeapPackage}

abbrev third : MinHeapItem
third = record { sequence = pos 3; buf = fresh_buffer states 2; index = pos 0 }

abbrev first : MinHeapItem
first = record { sequence = pos 1; buf = fresh_buffer states 2; index = pos 1 }

abbrev second : MinHeapItem
second = record { sequence = pos 2; buf = fresh_buffer states 2; index = pos 2 }

abbrev three : MinHeap
three = third ∷ first ∷ second ∷ []

three-IsGood : IsGood selection selection-IsHeapPackage three
three-IsGood = record { ordered = tt; indexed = (refl, (refl, (refl, tt))) }

push_lem_example :
    IsGood selection selection-IsHeapPackage (push selection three first)
    × Perm (entries (push selection three first)) (entry first ∷ entries three)
push_lem_example = push_lem selection selection-IsHeapPackage three first three-IsGood

pick-Picks_example : Picks selection selection-IsHeapPackage three
pick-Picks_example =
    pick-Picks selection selection-IsHeapPackage three (λ e. omega (arith, ap length e))
      three-IsGood

drain-Rising_example :
    Rising (drain selection 3 three) × Perm (entries three) (drain selection 3 three)
drain-Rising_example = drain-Rising selection selection-IsHeapPackage three 3 three-IsGood refl

pick-three :
    pick selection three
    ≡ ok (third ∷ record second { index = pos 1 } ∷ [], some (record first { index = negsuc 0 }))
unfolding pick turbo_stream.MinHeap.swap turbo_stream.Prelude.Int.ltb_ℤ turbo_stream.MinHeap.pop
pick-three = refl
