-- ===== src/Cgo/Engine.antt =====
-- go-cgo-impl/compute.go: ComputeEngine of the variant with a C kernel, its handler of removed orders and
-- a compute cycle. What the other handlers change is in the pairs of the engine.
pub mod Ranked
pub mod Cycle
pub mod Kept
pub mod Served
pub mod Added
use priority_service_poc.Base.{ℕ, List, [], Bool, Option, none, replicate, if◌then◌else◌}
use priority_service_poc.Base.Int.{ℤ, pos, pos_part, geb_ℤ, gtb_ℤ}
use priority_service_poc.Base.Run.{Run, ok, ◌>>=◌}
use priority_service_poc.Types.{Sizes, PairInfo, CycleStats}
use priority_service_poc.Types.Runtime.{Runtime}
use priority_service_poc.Buffer.{ReadBuffer, DoubleBuffer, publish}
use priority_service_poc.Topology.{TopologyState}
use priority_service_poc.Indexes.{new_inverted_indexes}
use priority_service_poc.Registry.{new_order_registry}
use priority_service_poc.Rank.{WorkerScratch, empty_scratch}
use priority_service_poc.Phase2.{rank_all}
use priority_service_poc.Engine.{Clock}
use priority_service_poc.Cgo.Scoring.{new_pps_matrix}
use priority_service_poc.Cgo.Registry.{OrderStore, evict_order, purge_expired}
use priority_service_poc.Cgo.Pairs.{
  PairsState, handle_add_pair, handle_remove_pair, promote_warming_pairs,
}
use priority_service_poc.Cgo.Rank.{rank_pair}
use priority_service_poc.Cgo.Phase1.{ItemDictUpdate, phase1_update}

-- `num_workers` is kept as it was given; the mock client is not part of the state.
pub record ComputeEngine : Type 0 where
  pub store : OrderStore
  pub state : PairsState
  pub db : DoubleBuffer
  pub num_workers : ℤ
  pub scratch : List WorkerScratch

-- `allocated` is whether calloc returns memory for the matrix.
unfoldable pub new_compute_engine :
    Sizes → Bool → List PairInfo → DoubleBuffer → TopologyState → ℤ → Run ComputeEngine
unfolding new_pps_matrix new_order_registry new_inverted_indexes
new_compute_engine s allocated pairs db topo num_workers =
    let nw = if geb_ℤ (pos 0) num_workers then s.num_workers else pos_part num_workers in
    new_pps_matrix s allocated s.num_pps >>= λ matrix. ok (record {
      store = record {
        registry = new_order_registry s;
        indexes = new_inverted_indexes;
        matrix = matrix;
      };
      state = record { topology = topo; pairs = pairs; pending_warmup = [] };
      db = db;
      num_workers = num_workers;
      scratch = replicate nw empty_scratch;
    })

unfoldable pub handle_order_removed : Sizes → ComputeEngine → ℕ → Run ComputeEngine
handle_order_removed s e order_id =
    evict_order s e.store order_id >>= λ st. ok (record e { store = st })

-- The pairs that are ranked are those of the engine; their statuses are not read.
unfoldable pub phase2_rank :
    Sizes
    → Runtime
    → ℤ
    → OrderStore
    → List PairInfo
    → ℤ
    → List WorkerScratch
    → Run (ReadBuffer × List WorkerScratch)
unfolding rank_all rank_pair
phase2_rank s rt num_workers st pairs now_secs bank =
    rank_all s (rank_pair s rt st now_secs) num_workers pairs bank

-- Phase 1 reports its time also without an update.
unfoldable pub cycle_stats : Clock → CycleStats
cycle_stats clock = record {
  phase1_ms = clock.phase1_ms;
  phase2_ms = clock.phase2_ms;
  total_ms = clock.total_ms;
  sla_ok = gtb_ℤ (pos 5_000) clock.total_ms;
}

unfoldable pub run_cycle_with_dict :
    Sizes
    → Runtime
    → (ℤ → ℤ)
    → Clock
    → Option ItemDictUpdate
    → ComputeEngine
    → Run (ComputeEngine × CycleStats)
unfolding publish cycle_stats
run_cycle_with_dict s rt int_overflow clock update e = do
  st ← purge_expired s e.store clock.now_secs
  matrix ← phase1_update s rt int_overflow e.num_workers st.indexes update st.matrix
  let tables : OrderStore = record st { matrix = matrix }
  (buf, bank) ← phase2_rank s rt e.num_workers tables e.state.pairs clock.now_secs e.scratch
  ok (
    record e {
      store = tables;
      scratch = bank;
      db = publish e.db buf;
      state = promote_warming_pairs e.state;
    },
    cycle_stats clock,
  )

unfoldable pub run_cycle :
    Sizes → Runtime → (ℤ → ℤ) → Clock → ComputeEngine → Run (ComputeEngine × CycleStats)
unfolding run_cycle_with_dict
run_cycle s rt int_overflow clock e = run_cycle_with_dict s rt int_overflow clock none e
