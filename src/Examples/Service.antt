-- ===== src/Examples/Service.antt =====
-- The service of the variant with a C kernel from its start through two order events and a cycle.
use priority_service_poc.Base.{
  ℕ, ◌≡◌, refl, sym, List, [], ◌∷◌, ◌++◌, Option, some, none, arith, length,
}
use priority_service_poc.Base.Int.{ℤ, pos, negsuc}
use priority_service_poc.Base.Run.{Run, ok, Returns}
use priority_service_poc.Types.{Sizes, PairInfo, make_pair_key}
use priority_service_poc.Buffer.{new_double_buffer, new_read_buffer}
use priority_service_poc.Topology.{TopologyState, status_active}
use priority_service_poc.Registry.{OrderStore}
use priority_service_poc.Rank.{WorkerScratch, empty_scratch}
use priority_service_poc.Engine.{pair_info}
use priority_service_poc.Server.{GetTopKRequest, effective_k, new_priority_server}
use priority_service_poc.Cgo.Registry.Refinement.{live_store}
use priority_service_poc.Cgo.Ingest.{KafkaOrderEvent}
use priority_service_poc.Cgo.Ingest.Refinement.{ingest_order-refines}
use priority_service_poc.Cgo.Pairs.{get}
use priority_service_poc.Cgo.Server.{get_top_k}
use priority_service_poc.Cgo.Engine.{
  ComputeEngine, run_cycle, run_cycle_with_dict, handle_order_removed,
}
use priority_service_poc.Cgo.Engine.Served.{IsTopReply}
use priority_service_poc.Cgo.Service.{start, ingest, Reached, started, ingested}
use priority_service_poc.Cgo.Setup.Built.{build_topology-IsStarted}
use priority_service_poc.Cgo.Service.Serving.{AllInRows, IsServing}
use priority_service_poc.Base.{◌⊎◌, subst, ◌<◌}
use priority_service_poc.Cgo.Service.Sequences.{
  LacksRow, IsConfigured, Reached-Returns, Reached-replied,
}
use priority_service_poc.Examples.Sorting.{sample_runtime, sort_entries, insert_entry}
use priority_service_poc.Examples.Data.{
  small, no_orders, one_order, two_orders, first_ingested, second_ingested,
}
use priority_service_poc.Examples.Scenario.{sample_clock, sample_stats, pair_lists}
use priority_service_poc.Cgo.Registry.{purge_expired}
use priority_service_poc.Cgo.Engine.Added.{with_pair}
use priority_service_poc.Examples.Heap.{overflow, purged_orders}

small-IsConfigured : IsConfigured small
small-IsConfigured = record {
  some_worker = omega arith;
  some_order = omega arith;
  some_row = omega arith;
  few_rows = omega arith;
  few_tags = omega arith;
}

-- All pairs are active from the start.
abbrev start_topology : TopologyState
start_topology = record {
  val =
      (make_pair_key 1 0, status_active)
      ∷ (make_pair_key 0 0, status_active)
      ∷ (make_pair_key 0 1, status_active)
      ∷ (make_pair_key 1 1, status_active)
      ∷ [];
}

abbrev no_list : List ℤ
no_list = negsuc 0 ∷ negsuc 0 ∷ negsuc 0 ∷ negsuc 0 ∷ negsuc 0 ∷ negsuc 0 ∷ negsuc 0 ∷ negsuc 0 ∷ []

abbrev engine_over : OrderStore → ComputeEngine
engine_over st = record {
  store = live_store st;
  state = record {
    topology = start_topology;
    pairs = pair_info 0 0 ∷ pair_info 0 1 ∷ pair_info 1 0 ∷ pair_info 1 1 ∷ [];
    pending_warmup = [];
  };
  db = record { ptr = record { slots = no_list ++ no_list ++ no_list ++ no_list; num_pairs = 4 } };
  num_workers = pos 2;
  scratch = empty_scratch ∷ empty_scratch ∷ [];
}

service_started : start small (pos 2) ≡ ok (engine_over no_orders)
unfolding start priority_service_poc.Cgo.Pairs.activate new_double_buffer
    priority_service_poc.Base.Int.pos_part priority_service_poc.Base.Dict.insert new_read_buffer
    priority_service_poc.Base.Int.neg_part priority_service_poc.Topology.copy_map
    priority_service_poc.Topology.new_topology_state make_pair_key
service_started = refl

-- The two orders, as events of this variant.
abbrev first_order : KafkaOrderEvent
first_order = record {
  order_id = 0;
  required_qty = 0x4120_0000;
  pbt_deadline = pos 5_000;
  tpids = 7 ∷ [];
  eligible_bin_tags = 1 ∷ [];
  base_score = 0x3f00_0000;
}

abbrev second_order : KafkaOrderEvent
second_order = record {
  order_id = 1;
  required_qty = 0x42c8_0000;
  pbt_deadline = pos 0;
  tpids = 7 ∷ 8 ∷ [];
  eligible_bin_tags = 1 ∷ 2 ∷ [];
  base_score = 0x3e80_0000;
}

first_joined :
    ingest small sample_runtime first_order (pos 1_000) (engine_over no_orders)
    ≡ ok (engine_over one_order)
unfolding ingest
first_joined =
    rw
      (
        ingest_order-refines small sample_runtime first_order (pos 1_000) no_orders refl,
        first_ingested,
      )
      refl

second_joined :
    ingest small sample_runtime second_order (pos 2_000) (engine_over one_order)
    ≡ ok (engine_over two_orders)
unfolding ingest
second_joined =
    rw
      (
        ingest_order-refines small sample_runtime second_order (pos 2_000) one_order refl,
        second_ingested,
      )
      refl

two_orders-Reached : Reached small sample_runtime overflow (engine_over two_orders)
two_orders-Reached =
    ingested second_order (pos 2_000)
      (ingested first_order (pos 1_000) (started (pos 2) service_started) first_joined)
      second_joined

service_rows : AllInRows small (engine_over two_orders)
unfolding priority_service_poc.Cgo.Setup.build_topology
service_rows = (build_topology-IsStarted small (omega arith) (omega arith)).rows

-- One ranked order in each of two lists.
abbrev one_entry : WorkerScratch
one_entry = record {
  heuristic = record { score = pos 25; order_id = pos 1 } ∷ [];
  large = record { score = pos 25; order_id = pos 1 } ∷ [];
  pbt = [];
  critical = [];
}

abbrev served_engine : ComputeEngine
served_engine = record (engine_over purged_orders) {
  db = record {
    ptr = record { slots = no_list ++ pair_lists ++ no_list ++ pair_lists; num_pairs = 4 };
  };
  scratch = one_entry ∷ one_entry ∷ [];
}

-- The first order has expired; the second is ranked for the two pairs of its first bin tag.
service_cycle :
    run_cycle_with_dict small sample_runtime overflow sample_clock none (engine_over two_orders)
    ≡ ok (served_engine, sample_stats)
unfolding run_cycle_with_dict sort_entries insert_entry priority_service_poc.Base.Run.load
    priority_service_poc.Base.Run.store priority_service_poc.Ingest.event_meta
    priority_service_poc.Base.Int.pos_part priority_service_poc.Base.Int.neg_part
    priority_service_poc.Base.Int.wrap64 priority_service_poc.Base.Int.◌-ℤ◌
    priority_service_poc.Base.Dict.lookup_or priority_service_poc.Base.Dict.lookup
    priority_service_poc.Indexes.remove_order priority_service_poc.Indexes.unlink
    priority_service_poc.Indexes.unlink_one priority_service_poc.Indexes.remove_uint32
    priority_service_poc.Base.Dict.insert priority_service_poc.Base.Slices.slice
    priority_service_poc.Base.Dict.delete priority_service_poc.Base.Int.sub_ℕ
    priority_service_poc.Base.Int.wrap32 priority_service_poc.Base.Int.◌+ℤ◌
    priority_service_poc.Base.Slices.splice priority_service_poc.Buffer.list_mut
    priority_service_poc.Buffer.new_read_buffer priority_service_poc.Buffer.publish
    priority_service_poc.Buffer.put_list priority_service_poc.Phase1.clamp_int16
    priority_service_poc.Phase1.div_up priority_service_poc.Phase1.scaled_delta
    priority_service_poc.Phase1.worker_count priority_service_poc.Phase2.ensure_scratch
    priority_service_poc.Phase2.grow_scratch priority_service_poc.Phase2.rank_range
    priority_service_poc.Phase2.run_worker priority_service_poc.Phase2.run_workers
    priority_service_poc.Rank.add_entries priority_service_poc.Rank.copy_ids
    priority_service_poc.Rank.write_list priority_service_poc.Rank.write_lists
    priority_service_poc.Select.median_of_three priority_service_poc.Select.partition_desc
    priority_service_poc.Select.partition_loop priority_service_poc.Select.select_loop
    priority_service_poc.Select.swap priority_service_poc.Types.Float.float_ge
    priority_service_poc.Types.Float.float_mul priority_service_poc.Types.Float.float_to_int32
    priority_service_poc.Types.make_pair_key priority_service_poc.Registry.is_expired
    priority_service_poc.Phase2.rank_all priority_service_poc.Registry.clear_slot
    priority_service_poc.Topology.copy_map priority_service_poc.Cgo.Scoring.c_add
    priority_service_poc.Cgo.Scoring.saturate priority_service_poc.Cgo.Scoring.update_cells
    priority_service_poc.Cgo.Scoring.update_all_scores
    priority_service_poc.Cgo.Scoring.evict_order_scores priority_service_poc.Cgo.Scoring.row
    priority_service_poc.Cgo.Scoring.read_row priority_service_poc.Cgo.Scoring.evict_order
    priority_service_poc.Cgo.Scoring.c_update_row_range priority_service_poc.Cgo.Registry.evict_slot
    priority_service_poc.Cgo.Registry.purge_loop priority_service_poc.Cgo.Registry.purge_expired
    priority_service_poc.Cgo.Rank.quickselect_top_k
    priority_service_poc.Cgo.Rank.quickselect_and_copy priority_service_poc.Cgo.Rank.fill_scratch
    priority_service_poc.Cgo.Rank.rank_pair priority_service_poc.Cgo.Phase1.add_in_range
    priority_service_poc.Cgo.Phase1.add_listed priority_service_poc.Cgo.Phase1.build_delta
    priority_service_poc.Cgo.Phase1.start_workers priority_service_poc.Cgo.Phase1.update_matrix
    priority_service_poc.Cgo.Phase1.phase1_list priority_service_poc.Cgo.Phase1.phase1_update
    priority_service_poc.Cgo.Pairs.load_map priority_service_poc.Cgo.Pairs.copy_map
    priority_service_poc.Cgo.Pairs.activate priority_service_poc.Cgo.Pairs.activate_pending
    priority_service_poc.Cgo.Pairs.promote_warming_pairs priority_service_poc.Cgo.Engine.phase2_rank
    priority_service_poc.Cgo.Engine.cycle_stats priority_service_poc.Types.Float.is_zero
    priority_service_poc.Types.Float.float_sub
service_cycle = refl

Reached-Returns_example :
    Returns (Reached small sample_runtime overflow) (start small (pos 1))
    × IsServing small (engine_over two_orders)
    × Returns
        (Reached small sample_runtime overflow)
        (ingest small sample_runtime second_order (pos 3_000) (engine_over two_orders))
    × Returns
        (Reached small sample_runtime overflow)
        (handle_order_removed small (engine_over two_orders) 1)
    × (LacksRow small (engine_over two_orders)
        ⊎ Returns
            (λ r. Reached small sample_runtime overflow r.0)
            (run_cycle_with_dict small sample_runtime overflow sample_clock none
              (engine_over two_orders)))
Reached-Returns_example =
    Reached-Returns small small-IsConfigured sample_runtime overflow (engine_over two_orders)
      sample_clock none second_order (pos 3_000) 1 (pos 1) two_orders-Reached (omega arith)
      (λ st ran. tt)

abbrev service_request : GetTopKRequest
service_request = record { pps_id = 1; bin_tag_id = 1; k = pos 0 }

Reached-replied_example :
    (tables : OrderStore) × (served_engine.store ≡ live_store tables)
    × Returns (IsTopReply small tables (pos 4_700) (pair_info 1 1) (effective_k small (pos 0))) (
        get_top_k small
          (new_priority_server served_engine.state.topology served_engine.db
            served_engine.state.pairs)
          service_request)
unfolding get make_pair_key priority_service_poc.Base.Dict.lookup
Reached-replied_example =
    Reached-replied small small-IsConfigured sample_runtime overflow (engine_over two_orders)
      served_engine sample_clock none sample_stats service_request 3 (pair_info 1 1) (omega arith)
      two_orders-Reached service_rows (λ st ran. tt) service_cycle refl refl refl

-- The pair of a station that has no row.
abbrev outside_engine : ComputeEngine
outside_engine = with_pair (engine_over two_orders) 99 1
