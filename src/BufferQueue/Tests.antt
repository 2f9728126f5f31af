-- ===== src/BufferQueue/Tests.antt =====
-- queue.go: a queue with a limit of two, under a policy that evicts the oldest item and under one
-- that never does.
use turbo_stream.Prelude.{
  ℕ, ◌<◌, ◌≤◌, ◌≡◌, ◌≢◌, refl, arith, true, false, some, List, [], ◌∷◌, length,
}
use turbo_stream.Prelude.Int.{pos}
use turbo_stream.Samples.{states}
use turbo_stream.SmartBuffer.{fresh_buffer}
use turbo_stream.BufferQueue.{QueueItem, EvictPolicy, BufferQueue, push}
use turbo_stream.BufferQueue.Fifo.{push_all, pick_all, pick_all-push_all}
use turbo_stream.BufferQueue.Limit.{MakesRoom, length-push-le, push_all-declined}

abbrev tail : List QueueItem → List QueueItem
tail [] = []
tail (x ∷ xs) = xs

-- Policies without a state, and a CPU usage that is a number.
abbrev evicts_oldest : EvictPolicy Unit ℕ
evicts_oldest = record { should_evict = λ p ctx. (p, true); evict = λ p q. (p, tail q, pos 1) }

abbrev evicts_nothing : EvictPolicy Unit ℕ
evicts_nothing = record { should_evict = λ p ctx. (p, false); evict = λ p q. (p, q, pos 0) }

length-tail-lt : (q : List QueueItem) → q ≢ [] → length (tail q) < length q
length-tail-lt [] h = absurd (h refl)
length-tail-lt (x ∷ xs) h = omega arith

evicts_oldest-MakesRoom : MakesRoom evicts_oldest
evicts_oldest-MakesRoom = record { wants = λ p ctx. refl; drops = λ p q h. length-tail-lt q h }

abbrev item : ℕ → QueueItem
item n = record { id = pos n; buf = fresh_buffer states 2; push_time = pos 0 }

abbrev two : BufferQueue Unit
two = record {
  q = item 1 ∷ item 2 ∷ [];
  ep = some tt;
  evict_count = pos 0;
  max_size = pos 2;
  enable_auto_evict = false;
  stop_closed = false;
  state = pos 0;
}

abbrev one : BufferQueue Unit
one = record two { q = item 1 ∷ [] }

pick_all-push_all_example :
    pick_all evicts_oldest 0 2 (push_all evicts_oldest 0 one (item 2 ∷ [])) ≡ item 1 ∷ item 2 ∷ []
pick_all-push_all_example =
    pick_all-push_all evicts_oldest 0 one (item 2 ∷ []) 2 refl refl (omega arith)

length-push-le_example : length (push evicts_oldest 0 two (item 3)).0.q ≤ 2
length-push-le_example =
    length-push-le evicts_oldest 0 evicts_oldest-MakesRoom two (item 3) 2 refl refl (omega arith)
      (omega arith)

push_all-declined_example :
    (push_all evicts_nothing 0 two (item 3 ∷ item 4 ∷ [])).q
    ≡ item 1 ∷ item 2 ∷ item 3 ∷ item 4 ∷ []
push_all-declined_example =
    push_all-declined evicts_nothing 0 (λ p ctx. refl) (item 3 ∷ item 4 ∷ []) two tt 2 refl refl
      refl
