-- ===== src/Cgo/Service.antt =====
-- The engine of the variant with a C kernel in service: from its construction in go-cgo-impl/main.go on,
-- through order events, changes of the topology and compute cycles, in any order.
pub mod Serving
pub mod Sequences
pub mod Outside
use priority_service_poc.Base.{ℕ, ◌<◌, ◌≡◌, true, Option, length}
use priority_service_poc.Base.Int.{ℤ}
use priority_service_poc.Base.Run.{Run, ok, ◌>>=◌}
use priority_service_poc.Types.{Sizes, CycleStats}
use priority_service_poc.Types.Runtime.{Runtime}
use priority_service_poc.Buffer.{new_double_buffer}
use priority_service_poc.Engine.{Clock}
use priority_service_poc.Cgo.Registry.{OrderStore, purge_expired}
use priority_service_poc.Cgo.Ingest.{KafkaOrderEvent, ingest_order}
use priority_service_poc.Cgo.Pairs.{handle_add_pair, handle_remove_pair}
use priority_service_poc.Cgo.Phase1.{ItemDictUpdate}
use priority_service_poc.Cgo.Phase1.Done.{ModestDeltas}
use priority_service_poc.Cgo.Engine.{
  ComputeEngine, new_compute_engine, handle_order_removed, run_cycle_with_dict,
}
use priority_service_poc.Cgo.Setup.{build_topology}

-- `IngestOrder(evt, engine.Registry, engine.Indexes, engine.Matrix, nowSecs)`
unfoldable pub ingest : Sizes → Runtime → KafkaOrderEvent → ℤ → ComputeEngine → Run ComputeEngine
ingest s rt evt now_secs e =
    ingest_order s rt evt now_secs e.store >>= λ st. ok (record e { store = st })

-- `NewComputeEngine(pairs, NewDoubleBuffer(len(pairs)), topo, numWorkers)` with what the loops before it
-- built.
unfoldable pub start : Sizes → ℤ → Run ComputeEngine
unfolding new_compute_engine build_topology
start s num_workers =
    let (topo, pairs) = build_topology s in
    new_compute_engine s true pairs (new_double_buffer s (length pairs)) topo num_workers

-- The engines that events lead to: each event that ran to its end, an added pair with a row in the matrix
-- or without, and updates whose deltas, over the store that the purge of their cycle leaves, keep every sum
-- in an int32, since C leaves an overflow open.
pub data Reached (s : Sizes) (rt : Runtime) (int_overflow : ℤ → ℤ) : ComputeEngine → Type 0 where
  started :
      (num_workers : ℤ) {e : ComputeEngine}
      → start s num_workers ≡ ok e
      → Reached s rt int_overflow e
  ingested :
      (evt : KafkaOrderEvent) (now_secs : ℤ) {e e' : ComputeEngine}
      → Reached s rt int_overflow e
      → ingest s rt evt now_secs e ≡ ok e'
      → Reached s rt int_overflow e'
  order_removed :
      (order_id : ℕ) {e e' : ComputeEngine}
      → Reached s rt int_overflow e
      → handle_order_removed s e order_id ≡ ok e'
      → Reached s rt int_overflow e'
  pair_added :
      (pps_id bintag_id : ℕ) {e : ComputeEngine}
      → Reached s rt int_overflow e
      → Reached s rt int_overflow (record e { state = handle_add_pair e.state pps_id bintag_id })
  pair_removed :
      (pps_id bintag_id : ℕ) {e : ComputeEngine}
      → Reached s rt int_overflow e
      → Reached s rt int_overflow (record e { state = handle_remove_pair e.state pps_id bintag_id })
  cycled :
      (clock : Clock) (update : Option ItemDictUpdate) {e e' : ComputeEngine} (stats : CycleStats)
      → Reached s rt int_overflow e
      → ((st : OrderStore)
          → purge_expired s e.store clock.now_secs ≡ ok st
          → ModestDeltas s rt st.indexes update)
      → run_cycle_with_dict s rt int_overflow clock update e ≡ ok (e', stats)
      → Reached s rt int_overflow e'
