-- ===== src/DoubleBuffer/Switch.antt =====
-- double_buffer.go: switching the active buffer. `switchChannel` ends by starting a goroutine, which
-- numbers the old buffer, pushes it on the heap and starts another that notifies the readers: these
-- are steps of their own, `publish` and `notify_readers`, that may run at any later time.
use turbo_stream.Prelude.{ℕ, zero, suc, if◌then◌else◌, none, some, List, [], ◌∷◌, ◌++◌, get_elem?}
use turbo_stream.Prelude.Int.{pos, ◌==ℤ◌, add_int64}
use turbo_stream.Outside.{Result, ok, panic}
use turbo_stream.SmartBuffer.{SmartBuffer, set_state}
use turbo_stream.WrapHeap
use turbo_stream.Waiters
use turbo_stream.DoubleBuffer.{Env, DoubleBuffer, get_pooled}

-- The list without its i-th element.
unfoldable pub remove_at {ℓ} : {A : Type ℓ} → List A → ℕ → List A
remove_at [] i = []
remove_at (x ∷ xs) zero = xs
remove_at (x ∷ xs) (suc i) = x ∷ remove_at xs i

module _ {T : Type 0} (env : Env T) where
  -- The active buffer becomes the one to read, the passive one becomes active.
  unfoldable pub swap_channels : DoubleBuffer T → SmartBuffer → DoubleBuffer T × SmartBuffer
  swap_channels d new_buf = (record d { active = d.passive; passive = new_buf }, d.active)

  -- The state word is `SwitchingState` only inside this call, which ends by setting it back.
  unfoldable pub switch_channel : DoubleBuffer T → T → Result (DoubleBuffer T)
  unfolding swap_channels
  switch_channel d now =
      if d.state ==ℤ env.states.writing_state
      then elim (get_pooled env d) [
        | ok (new_buf, pool) ↦
            let sealed = record d {
              active = set_state env.states d.active env.states.read_only;
              pool = pool;
            } in
            let (d', buf) = swap_channels sealed new_buf in
            ok (record d' {
              count = pos 0;
              last_switch = now;
              state = env.states.writing_state;
              publishing = d.publishing ++ buf ∷ [];
            })
        | _ ↦ panic
      ]
      else ok d

  -- The goroutine of the i-th buffer that waits to be published.
  unfoldable pub publish : DoubleBuffer T → ℕ → DoubleBuffer T
  publish d i = elim (get_elem? d.publishing i) [
    | none ↦ d
    | some buf ↦
        let n = add_int64 d.sequence (pos 1) in
        record d {
          sequence = n;
          pending_heap =
              WrapHeap.push env.heap d.pending_heap
                (record { sequence = n; buf = buf; index = pos 0 });
          publishing = remove_at d.publishing i;
          notifying = d.notifying ++ buf.count ∷ [];
        }
  ]

  -- The goroutine of the i-th notification; `iter` is the order in which it visits the waiters.
  unfoldable pub notify_readers :
      (List (ℕ × ℕ) → List (ℕ × ℕ)) → DoubleBuffer T → ℕ → Result (DoubleBuffer T)
  notify_readers iter d i = elim (get_elem? d.notifying i) [
    | none ↦ ok d
    | some n ↦ elim (Waiters.notify iter d.wm n) [
      | ok wm ↦ ok (record d { wm = wm; notifying = remove_at d.notifying i })
      | _ ↦ panic
    ]
  ]
