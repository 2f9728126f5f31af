-- ===== src/Waiters.antt =====
-- waiters.go: the readers that wait for data. A channel of capacity one is a cell of a store, and a
-- reference to it is its place there. Every method holds the lock, and so is one step. Go's `int` is
-- kept as its bit pattern where it names a waiter.
pub mod Registers
pub mod Rounds
pub mod Signals
mod Tests
use turbo_stream.Prelude.{
  ℕ, zero, suc, ◌+◌, ◌%◌, ◌^◌, Bool, true, false, ◌||◌, if◌then◌else◌, ◌==◌, Option, none, some,
  List, [], ◌∷◌, ◌++◌, ◌-◌, map, length, get_elem?, set, lookup, insert, delete, take, min,
}
use turbo_stream.Prelude.Int.{ℤ, pos, pos_part, ltb_ℤ, leb_ℤ}
use turbo_stream.Outside.{Result, ok, panic}

-- `make(chan struct{}, 1)`: whether its buffer is taken, and whether it is closed.
pub record Chan : Type 0 where
  pub full : Bool
  pub closed : Bool

abbrev pub new_chan : Chan
new_chan = record { full = false; closed = false }

pub record WaiterManager : Type 0 where
  pub ws : List (ℕ × ℕ)
  pub pool : List ℕ
  pub current_id : ℕ
  pub closed : Bool
  pub chans : List Chan

abbrev pub new_waiter_manager : WaiterManager
new_waiter_manager = record { ws = []; pool = []; current_id = 0; closed = false; chans = [] }

-- `pool.Get` of a sync.Pool: one of the channels in it, with the others, or none, where `New` makes
-- one. Which is up to the sync package.
abbrev pub PoolGet : Type 0
PoolGet = List ℕ → Option (ℕ × List ℕ)

unfoldable pub register : PoolGet → WaiterManager → WaiterManager × ℕ × ℕ
register get w =
    let id = (w.current_id + 1) % 2 ^ 64 in
    elim (get w.pool) [
      | some (ch, pool) ↦
          (record w { current_id = id; pool = pool; ws = insert id ch w.ws }, id, ch)
      | none ↦
          let ch = length w.chans in
          (
            record w { current_id = id; ws = insert id ch w.ws; chans = w.chans ++ new_chan ∷ [] },
            id,
            ch,
          )
    ]

unfoldable pub unregister : WaiterManager → ℕ → WaiterManager
unregister w id = elim (lookup id w.ws) [
  | none ↦ w
  | some ch ↦ record w { pool = ch ∷ w.pool; ws = delete id w.ws }
]

-- `_min` of its first argument and the others.
unfoldable pub min_of : ℤ → List ℤ → ℤ
min_of m [] = m
min_of m (v ∷ vs) = min_of (if ltb_ℤ v m then v else m) vs

abbrev pub max_waiters_per_batch : ℕ
max_waiters_per_batch = 64

abbrev pub max_total_waiters : ℕ
max_total_waiters = 1024

-- The sends of a batch, none of which blocks: what is left to notify, and the store. A send on a
-- closed channel panics.
unfoldable pub send_batch : List ℕ → ℕ → List Chan → Result (ℕ × List Chan)
send_batch [] remaining chans = ok (remaining, chans)
send_batch (ch ∷ batch) remaining chans = elim (get_elem? chans ch) [
  | none ↦ panic
  | some c ↦ if c.closed then panic else elim c.full [
    | true ↦ send_batch batch remaining chans
    | false ↦ send_batch batch (remaining - 1) (set chans ch (record c { full = true }))
  ]
]

unfoldable pub delete_all : List ℕ → List (ℕ × ℕ) → List (ℕ × ℕ)
delete_all [] ws = ws
delete_all (id ∷ ids) ws = delete_all ids (delete id ws)

-- The loop of `notify` with the rounds that it may still make, `none` if it needs more; `iter ws` is the
-- order in which `range` visits the map. The map gets smaller in each round, so no two rounds visit the
-- same map.
unfoldable pub notify_loop :
    ℕ → (List (ℕ × ℕ) → List (ℕ × ℕ)) → ℕ → List ℕ → WaiterManager → Option (Result WaiterManager)
notify_loop zero iter remaining should_delete w = elim (remaining == 0) [
  | true ↦ some (ok w)
  | false ↦ none
]
notify_loop (suc fuel) iter remaining should_delete w = elim (remaining == 0) [
  | true ↦ some (ok w)
  | false ↦
      let batch = take (min max_total_waiters remaining) (iter w.ws) in
      let gone = should_delete ++ map (λ (e : ℕ × ℕ). e.0) batch in
      elim (send_batch (map (λ (e : ℕ × ℕ). e.1) batch) remaining w.chans) [
        | ok (left, chans) ↦
            let w' = record w { ws = delete_all gone w.ws; chans = chans } in
            elim (length w'.ws == 0) [
              | true ↦ some (ok w')
              | false ↦ notify_loop fuel iter left gone w'
            ]
        | _ ↦ some panic
      ]
]

-- A loop that does not end counts as a panic.
abbrev pub ended : Option (Result WaiterManager) → Result WaiterManager
ended none = panic
ended (some r) = r

unfoldable pub notify : (List (ℕ × ℕ) → List (ℕ × ℕ)) → WaiterManager → ℤ → Result WaiterManager
notify iter w data_size =
    if length w.ws == 0 || w.closed
    then ok w
    else let total = min_of (pos max_waiters_per_batch) (data_size ∷ pos max_total_waiters ∷ []) in
      if leb_ℤ total (pos 0)
      then ok w
      else ended (notify_loop (length w.ws) iter (pos_part total) [] w)

-- Closing a channel that is closed panics.
unfoldable pub close_all : List (ℕ × ℕ) → List Chan → Result (List Chan)
close_all [] chans = ok chans
close_all ((id, ch) ∷ ws) chans = elim (get_elem? chans ch) [
  | none ↦ panic
  | some c ↦ if c.closed then panic else close_all ws (set chans ch (record c { closed = true }))
]

unfoldable pub close : WaiterManager → Result WaiterManager
close w = elim (close_all w.ws w.chans) [
  | ok chans ↦ ok (record w { closed = true; chans = chans })
  | _ ↦ panic
]
