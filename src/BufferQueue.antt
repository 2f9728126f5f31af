-- ===== src/BufferQueue.antt =====
-- queue.go and component/queue.go: a queue of buffers with a size that an eviction policy is asked
-- to keep. A container/list is the list of its values. The repository has no policy of its own, so
-- a policy's methods are parameters; they may change the policy and the list that it can reach. Every
-- method that changes the queue holds its lock, and so is one step.
pub mod Fifo
pub mod Limit
mod Tests
use turbo_stream.Prelude.{
  ℕ, suc, ◌+◌, Bool, true, false, if◌then◌else◌, Option, none, some, List, [], ◌∷◌, ◌++◌, length,
}
use turbo_stream.Prelude.Int.{ℤ, pos, ltb_ℤ, ◌==ℤ◌, add_int64}
use turbo_stream.Outside
use turbo_stream.Outside.{Result, ok, err, panic}
use turbo_stream.Workers.{Signal, work}
use turbo_stream.SmartBuffer.{SmartBuffer}

pub record QueueItem : Type 0 where
  pub id : ℤ
  pub buf : SmartBuffer
  pub push_time : ℤ

-- `F` is float32. The list is a pointer, nil for `none`.
pub record EvictContext (F : Type 0) : Type 0 where
  pub queue_size : ℤ
  pub queue : Option (List QueueItem)
  pub current_memory : ℕ
  pub cpu_usage : F
  pub latency_p99 : ℤ

-- The methods that the queue calls of an `EvictPolicy`; `P` is the type of policies.
pub record EvictPolicy (P F : Type 0) : Type 0 where
  pub should_evict : P → EvictContext F → P × Bool
  pub evict : P → List QueueItem → P × List QueueItem × ℤ

pub record BufferQueue (P : Type 0) : Type 0 where
  pub q : List QueueItem
  pub ep : Option P
  pub evict_count : ℤ
  pub max_size : ℤ
  pub enable_auto_evict : Bool
  pub stop_closed : Bool
  pub state : ℤ

module _ {P F : Type 0} (policy : EvictPolicy P F) (zero32 : F) where
  unfoldable pub new_buffer_queue : Option P → ℤ → Bool → BufferQueue P
  new_buffer_queue ep max_size enable_auto_evict = record {
    q = [];
    ep = ep;
    evict_count = pos 0;
    max_size = max_size;
    enable_auto_evict = enable_auto_evict;
    stop_closed = false;
    state = pos 0;
  }

  unfoldable pub len : BufferQueue P → ℕ
  len s = length s.q

  -- `&component.EvictContext{}`, and the context of `autoEvict`.
  abbrev pub context : Option (List QueueItem) → EvictContext F
  context queue = record {
    queue_size = pos 0;
    queue = queue;
    current_memory = 0;
    cpu_usage = zero32;
    latency_p99 = pos 0;
  }

  -- Asking the policy, and its eviction if it wants one. A policy that is nil panics.
  unfoldable pub evict_with :
      Option P → EvictContext F → BufferQueue P → BufferQueue P × Result (Unit {0})
  evict_with none ctx s = (s, panic)
  evict_with (some p) ctx s =
      let (p', wanted) = policy.should_evict p ctx in
      if wanted
      then (let (p'', left, n) = policy.evict p' s.q in
          (record s { ep = some p''; q = left; evict_count = add_int64 s.evict_count n }, ok tt))
      else (record s { ep = some p' }, ok tt)

  unfoldable pub push_back :
      QueueItem → BufferQueue P × Result (Unit {0}) → BufferQueue P × Result (Unit {0})
  push_back item (s, ok u) = (record s { q = s.q ++ item ∷ [] }, ok tt)
  push_back item (s, err e) = (s, err e)
  push_back item (s, panic) = (s, panic)

  unfoldable pub push : BufferQueue P → QueueItem → BufferQueue P × Result (Unit {0})
  unfolding evict_with push_back
  push s item =
      if s.state ==ℤ pos 1
      then (s, err Outside.queue_closed)
      else if ltb_ℤ (pos (length s.q)) s.max_size
      then (record s { q = s.q ++ item ∷ [] }, ok tt)
      else push_back item (evict_with s.ep (context none) s)

  unfoldable pub pick_from : BufferQueue P → List QueueItem → BufferQueue P × Result QueueItem
  pick_from s [] = (s, err Outside.queue_empty)
  pick_from s (x ∷ xs) = (record s { q = xs }, ok x)

  unfoldable pub pick : BufferQueue P → BufferQueue P × Result QueueItem
  unfolding pick_from
  pick s = if s.state ==ℤ pos 1 then (s, err Outside.queue_closed) else pick_from s s.q

  unfoldable pub set_evict_policy : BufferQueue P → Option P → BufferQueue P
  set_evict_policy s ep = record s { ep = ep }

  unfoldable pub reset : BufferQueue P → BufferQueue P
  reset s = record s { evict_count = pos 0; q = [] }

  -- One tick of `autoEvict`; `seen` is the list when the tick read `q.q`, before it took the lock.
  unfoldable pub evict_tick : List QueueItem → BufferQueue P → BufferQueue P × Result (Unit {0})
  unfolding evict_with
  evict_tick seen s = evict_with s.ep (context (some seen)) s

  -- A tick comes with what was done to the queue before it read the list, and from there to its lock.
  abbrev pub at_tick :
      (BufferQueue P → BufferQueue P) × (BufferQueue P → BufferQueue P)
      → BufferQueue P
      → Result (BufferQueue P)
  at_tick (before, since) s =
      let read = before s in
      let (s', r) = evict_tick read.q (since read) in
      elim r [ ok u ↦ ok s' | err e ↦ err e | panic ↦ panic ]

  -- `autoEvict`.
  unfoldable pub auto_evict :
      BufferQueue P
      → List (Signal ((BufferQueue P → BufferQueue P) × (BufferQueue P → BufferQueue P)))
      → Result (BufferQueue P)
  unfolding work evict_tick
  auto_evict = work at_tick

  unfoldable pub close : BufferQueue P → BufferQueue P
  close s = if s.state ==ℤ pos 0 then record s { state = pos 1; stop_closed = true } else s
