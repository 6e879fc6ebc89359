-- ===== src/Engine.antt =====
-- go-pure-impl/compute.go: ComputeEngine, its event handlers and a compute cycle. The pointers that
-- the engine shares with its callers are fields of its state.
pub mod Ready
pub mod Handlers
pub mod Promote
pub mod Cycle
pub mod Served
use priority_service_poc.Base.{
  ℕ, List, [], ◌∷◌, ◌++◌, Option, none, some, Bool, true, replicate, ◌==◌, if◌then◌else◌,
}
use priority_service_poc.Base.Int.{ℤ, pos, pos_part, geb_ℤ, gtb_ℤ}
use priority_service_poc.Base.Run.{Run, ok, ◌>>=◌}
use priority_service_poc.Types.{Sizes, PairInfo, CycleStats, make_pair_key}
use priority_service_poc.Types.Runtime.{Runtime}
use priority_service_poc.Matrix.{new_pps_matrix}
use priority_service_poc.Buffer.{DoubleBuffer, publish}
use priority_service_poc.Topology.{
  PairStatus, TopologyState, get, add_warming_up, activate, remove, is_warming_up,
}
use priority_service_poc.Indexes.{new_inverted_indexes}
use priority_service_poc.Registry.{OrderStore, new_order_registry, evict_order, purge_expired}
use priority_service_poc.Rank.{WorkerScratch, empty_scratch}
use priority_service_poc.Phase1.{ItemDictUpdate, phase1_update}
use priority_service_poc.Phase2.{RankInput, phase2_rank}

-- `num_workers` is kept as it was given; the mock client is not part of the state.
pub record ComputeEngine : Type 0 where
  pub store : OrderStore
  pub pairs : List PairInfo
  pub db : DoubleBuffer
  pub topology : TopologyState
  pub num_workers : ℤ
  pub scratch : List WorkerScratch
  pub pending_warmup : List PairInfo

unfoldable pub new_compute_engine :
    Sizes → List PairInfo → DoubleBuffer → TopologyState → ℤ → ComputeEngine
unfolding new_pps_matrix new_order_registry new_inverted_indexes
new_compute_engine s pairs db topo num_workers =
    let nw = if geb_ℤ (pos 0) num_workers then s.num_workers else pos_part num_workers in
    record {
      store = record {
        registry = new_order_registry s;
        indexes = new_inverted_indexes;
        matrix = new_pps_matrix s s.num_pps;
      };
      pairs = pairs;
      db = db;
      topology = topo;
      num_workers = num_workers;
      scratch = replicate nw empty_scratch;
      pending_warmup = [];
    }

abbrev pub pair_info : ℕ → ℕ → PairInfo
pair_info pps_id bintag_id = record {
  pps_id = pps_id;
  bin_tag_id = bintag_id;
  key = make_pair_key pps_id bintag_id;
}

unfoldable pub handle_add_pair : ComputeEngine → ℕ → ℕ → ComputeEngine
unfolding add_warming_up
handle_add_pair e pps_id bintag_id = record e {
  topology = add_warming_up e.topology pps_id bintag_id;
  pending_warmup = e.pending_warmup ++ pair_info pps_id bintag_id ∷ [];
}

-- The loop that keeps the pairs with another key.
unfoldable pub drop_key : ℕ → List PairInfo → List PairInfo
drop_key key [] = []
drop_key key (p ∷ pairs) = let rest = drop_key key pairs in if p.key == key then rest else p ∷ rest

unfoldable pub handle_remove_pair : ComputeEngine → ℕ → ℕ → ComputeEngine
unfolding remove drop_key
handle_remove_pair e pps_id bintag_id = record e {
  topology = remove e.topology pps_id bintag_id;
  pairs = drop_key (make_pair_key pps_id bintag_id) e.pairs;
}

unfoldable pub handle_order_removed : Sizes → ComputeEngine → ℕ → Run ComputeEngine
unfolding evict_order
handle_order_removed s e order_id =
    evict_order s e.store order_id >>= λ st. ok (record e { store = st })

-- `!ok || status == StatusWarmingUp`
unfoldable pub is_promotable : Option PairStatus → Bool
is_promotable none = true
is_promotable (some status) = is_warming_up status

-- The loop over the pending pairs: the topology, and the pairs that remain.
unfoldable pub promote_pending : List PairInfo → TopologyState → TopologyState × List PairInfo
unfolding is_promotable activate
promote_pending [] topology = (topology, [])
promote_pending (info ∷ pending) topology =
    let promoted = promote_pending pending (activate topology info.pps_id info.bin_tag_id) in
    let kept = promote_pending pending topology in
    if is_promotable (get topology info.key) then promoted else (kept.0, info ∷ kept.1)

unfoldable pub promote_warming_pairs : ComputeEngine → ComputeEngine
unfolding promote_pending
promote_warming_pairs e =
    let r = promote_pending e.pending_warmup e.topology in
    record e { topology = r.0; pending_warmup = r.1 }

-- What the clock reads in a cycle: Unix seconds at the start, and the three durations.
pub record Clock : Type 0 where
  pub now_secs : ℤ
  pub phase1_ms : ℤ
  pub phase2_ms : ℤ
  pub total_ms : ℤ

-- Without an update, Phase 1 reports no time.
unfoldable pub cycle_stats : Clock → Option ItemDictUpdate → CycleStats
cycle_stats clock update = record {
  phase1_ms = elim update [ none ↦ pos 0 | some _ ↦ clock.phase1_ms ];
  phase2_ms = clock.phase2_ms;
  total_ms = clock.total_ms;
  sla_ok = gtb_ℤ (pos 5_000) clock.total_ms;
}

unfoldable pub run_cycle_with_dict :
    Sizes
    → Runtime
    → Clock
    → Option ItemDictUpdate
    → ComputeEngine
    → Run (ComputeEngine × CycleStats)
unfolding purge_expired phase1_update phase2_rank publish promote_warming_pairs cycle_stats
run_cycle_with_dict s rt clock update e = do
  st ← purge_expired s e.store clock.now_secs
  matrix ← phase1_update s rt e.num_workers st.indexes update st.matrix
  let tables : OrderStore = record st { matrix = matrix }
  let input : RankInput = record {
    tables = tables;
    topology = e.topology;
    pairs = e.pairs;
    now_secs = clock.now_secs;
  }
  (buf, bank) ← phase2_rank s rt e.num_workers input e.scratch
  let published : ComputeEngine = record e { store = tables; scratch = bank; db = publish e.db buf }
  ok (promote_warming_pairs published, cycle_stats clock update)

unfoldable pub run_cycle :
    Sizes → Runtime → Clock → ComputeEngine → Run (ComputeEngine × CycleStats)
unfolding run_cycle_with_dict
run_cycle s rt clock e = run_cycle_with_dict s rt clock none e
