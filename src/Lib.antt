-- ===== src/Lib.antt =====
-- TurboStream keeps written data in memory until a reader takes it. Its core is a double buffer:
-- writers fill the active buffer, a switch swaps it for an empty one and hands it to a heap that
-- orders the switched buffers by sequence number, and readers empty the buffers in that order. The
-- bytes stay alive in pools by size, and readers that find nothing wait to be notified.
--
-- Files and code, by path from the repository's root:
-- - Prelude: library names, Boolean tests, lists, Go's integers and maps over the native numbers.
-- - Outside: what the code takes from other packages: the state constants, the errors, results.
-- - SmartBuffer: component/smart_buffer.go. Ring has the arithmetic of calcPos, Stored what
--   the ring holds, Fifo each operation against a list of items, Script whole scripts of calls
--   against an abstract queue.
-- - MinHeap: the heap methods of min_heap.go, and Swaps, what any sequence of Swap calls keeps;
--   Least has an item that is least by Less.
--   WrapHeap: its locked wrapper; Contract has what container/heap documents, in terms of the
--   code's Less and Swap, as a hypothesis on its two functions, and the wrapper's theorems;
--   Selection is a heap package that meets it.
-- - LifeCycle: life_cycle.go. Sweep is the loop of both cleanup methods, Medium and Big the pools,
--   Manager what holds them together.
-- - Workers: the loop of the background goroutines, a select between a ticker and a stop signal.
-- - Waiters: waiters.go; Registers has register and unregister together, Rounds the loop of notify,
--   Signals whom it reaches.
-- - DoubleBuffer: double_buffer.go and chunk.go. Write, Switch, Read and Close have the operations of
--   these names. View has the invariant `Shows` and the unread items in reading order: what is left
--   of the current buffer, the heap by sequence number, the switched buffers that are not published
--   yet, and the active buffer. View/Starts, Switches, Writes, Same, Append, Publishes, Order, Turns,
--   Picks, Chunks, Reads and Takes say what making a double buffer, switching, writing, publishing
--   and reading do, Drains what reading on gives, Ticks what the monitor does, Closes what Close
--   leaves, Waits what a BlockingRead that waits gets. Monitor has the two background goroutines,
--   Options the constructor with its options.
--   System is a double buffer with its writers and readers, as a sequence of events in which the
--   goroutines of the switches run in the order of the switches; Memory has the arrays that may be
--   written again; View/Arrays, Unread, Safe, Runs, Releases, Fronts, Deliveries, Events, Finishes
--   and Refines show that such a system is a queue of byte strings.
-- - SwitchStrategy: switch_strategy.go; Limits compares the three strategies.
-- - BufferQueue: queue.go. Fifo has the order of what comes out, Limit the number of items.
-- - Metrics: metrics/types.go. Batch is metrics/batch_collector.go, with its counters, their totals
--   over a run (Totals) and what its reports export (Reports). Prometheus is metrics/prometheus.go;
--   Register has the registration of its metrics.
-- - SmallPool: poolx/small_pool.go. Sizes has the pool of one size, Levels all of them.
-- - Slab: poolx/slab.go. Tiles has the blocks of a new chunk, Blocks its allocations.
-- - Samples and the Tests modules: concrete states at which the theorems are applied.
--
-- How the code is modelled. A method is a function from the state to the state and its result; a
-- result is a value, an error or a panic. A goroutine that a switch starts is a step of its own
-- (`publish`, `notify_readers`), taken at any later time, in any order; what other goroutines do
-- while `pickBufferFromHeap` sleeps is an argument. Other than there, one call runs at a time: a
-- compare-and-swap of a value just loaded succeeds, and a lock held for a whole call makes it one
-- step. A pointer is an address, 0 for nil, and the bytes stand in a store from addresses to bytes.
-- Integers of 32 and 64 bits wrap around; where a theorem needs a counter below its limit it says so.
--
-- Loops: the retries of `Pop` and `pickBufferFromHeap` have the code's own bound of 3. `notify` has
-- as many rounds as there are waiters, each of which removes one at least; `drainProcessor` as many
-- as there are items on the heap.
--
-- Parameters: container/heap, the choice that sync.Pool makes, the clock, the order in which `range`
-- visits a map, the constants of the root package, the eviction policy, the Prometheus client, the
-- counters of utils/atomicx, mmap and float64, each with its documentation as hypotheses.
--
-- Not modelled: several goroutines inside one call of the ring, of a collector or of a small pool,
-- whole runs in which the goroutine of a later switch overtakes that of an earlier one (View/Order
-- has two such goroutines), the stubs RegisterCallback and BatchRead, the HTTP handler of the
-- metrics, and files that only declare interfaces or call the system (types.go, backpressure.go,
-- buffers, the rest of poolx) or are generated (mocks).
pub mod Prelude
pub mod Outside
pub mod Samples
pub mod SmartBuffer
pub mod MinHeap
pub mod WrapHeap
pub mod LifeCycle
pub mod Waiters
pub mod Workers
pub mod DoubleBuffer
pub mod BufferQueue
pub mod Metrics
pub mod SmallPool
pub mod Slab
pub mod SwitchStrategy
