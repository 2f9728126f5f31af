-- ===== src/DoubleBuffer/Monitor.antt =====
-- double_buffer.go: the two background goroutines. `swapMonitor` asks at each tick whether to switch:
-- `needSwitch` takes a changed configuration and asks the strategy. `asyncRecycleWorker` cleans the life
-- cycle pools.
use turbo_stream.Prelude.{ℕ, zero, suc, Bool, true, false, List}
use turbo_stream.Prelude.Int.{ℤ}
use turbo_stream.Outside.{Result, ok, err, panic}
use turbo_stream.Workers.{Signal, work}
use turbo_stream.LifeCycle.{BigDataEntry}
use turbo_stream.LifeCycle.Manager.{LifeCycleManager, cleanup}
use turbo_stream.DoubleBuffer.{Env, ByteBuf, DoubleBuffer}
use turbo_stream.DoubleBuffer.Switch.{switch_channel}
use turbo_stream.SwitchStrategy.{SwitchStrategy}

-- The fields of the double buffer that only the monitor uses: the strategy, `d.sc.TimeThreshold`, how
-- many notices the channel `d.scNotify` holds, and the threshold that `d.scd.GetConfig` gives.
pub record Monitor : Type 0 where
  pub sw : SwitchStrategy
  pub time_threshold : ℤ
  pub notices : ℕ
  pub configured : ℤ

unfoldable pub take_config : Monitor → ℕ → Monitor
take_config m zero = m
take_config m (suc n) = record m { time_threshold = m.configured; notices = n }

module _ {T : Type 0} (env : Env T) where
  unfoldable pub need_switch : DoubleBuffer T → Monitor → T → Monitor × Bool
  unfolding take_config
  need_switch d m now =
      let m' = take_config m m.notices in
      (m', m.sw.need_switch d.count d.size (env.since now d.last_switch) m'.time_threshold)

  unfoldable pub tick : DoubleBuffer T → Monitor → T → Monitor × Result (DoubleBuffer T)
  unfolding need_switch
  tick d m now =
      let (m', need) = need_switch d m now in
      (m', elim need [ true ↦ switch_channel env d now | false ↦ ok d ])

  -- `swapMonitor`. A tick comes with what the other goroutines did since the last one, and its time.
  abbrev pub at_tick :
      (DoubleBuffer T → DoubleBuffer T) × T
      → Monitor × DoubleBuffer T
      → Result (Monitor × DoubleBuffer T)
  at_tick (others, now) (m, d) =
      let (m', r) = tick (others d) m now in
      elim r [ ok d' ↦ ok (m', d') | err e ↦ err e | panic ↦ panic ]

  unfoldable pub swap_monitor :
      Monitor × DoubleBuffer T
      → List (Signal ((DoubleBuffer T → DoubleBuffer T) × T))
      → Result (Monitor × DoubleBuffer T)
  unfolding tick work
  swap_monitor = work at_tick

  -- `d.pm`: the pools as the manager has them.
  abbrev pub manager : DoubleBuffer T → LifeCycleManager T ByteBuf
  manager d = record {
    small_pool = d.small_pool;
    medium_pool = d.medium_pool;
    big_data_pool = d.big_data_pool;
  }

  -- `d.pm.Cleanup()`, with the orders in which it visits the entries.
  unfoldable pub clean_pools :
      DoubleBuffer T → T → List (ℕ × T) → List (ℕ × BigDataEntry) → DoubleBuffer T
  unfolding cleanup
  clean_pools d now medium big =
      let m = cleanup env.since (manager d) now medium big in
      record d {
        small_pool = m.small_pool;
        medium_pool = m.medium_pool;
        big_data_pool = m.big_data_pool;
      }

  -- `asyncRecycleWorker`. A tick comes with what the other goroutines did, its time and the orders.
  abbrev pub Cleaning : Type 0
  Cleaning =
      (DoubleBuffer T → DoubleBuffer T)
      × (T × ((DoubleBuffer T → List (ℕ × T)) × (DoubleBuffer T → List (ℕ × BigDataEntry))))

  abbrev pub at_cleaning : Cleaning → DoubleBuffer T → Result (DoubleBuffer T)
  at_cleaning (others, (now, (medium, big))) d =
      ok (clean_pools (others d) now (medium (others d)) (big (others d)))

  unfoldable pub async_recycle_worker :
      DoubleBuffer T → List (Signal Cleaning) → Result (DoubleBuffer T)
  unfolding work clean_pools
  async_recycle_worker = work at_cleaning
