-- ===== src/Examples/Widened.antt =====
-- The engine of the variant with a C kernel when a pair is added before its cycle.
use priority_service_poc.Base.{
  ℕ, zero, suc, ◌∙◌, ◌+◌, ◌<◌, ◌≡◌, refl, sym, subst, List, [], ◌∷◌, true, false, Option, some,
  none, arith, get_elem?, length, replicate, ◌*◌, ◌++◌,
}
use priority_service_poc.Base.Int.{ℤ, pos, negsuc, pos_parts, negsuc_parts}
use priority_service_poc.Base.Run.{Run, ok, Returns, Returns-at}
use priority_service_poc.Types.{Sizes, make_pair_key, CycleStats}
use priority_service_poc.Topology.{status_active, status_warming_up}
use priority_service_poc.Registry.{OrderStore}
use priority_service_poc.Engine.{pair_info}
use priority_service_poc.Cgo.Phase1.{TpidUpdate, ItemDictUpdate}
use priority_service_poc.Cgo.Engine.{ComputeEngine, run_cycle_with_dict}
use priority_service_poc.Registry.{purge_expired, evict_order}
use priority_service_poc.Ingest.{ingest_order}
use priority_service_poc.Cgo.Registry.{
  evict_order as cgo_evict_order, purge_expired as cgo_purge_expired,
}
use priority_service_poc.Cgo.Pairs.{get}
use priority_service_poc.Cgo.Phase1.{phase1_update}
use priority_service_poc.Cgo.Engine.{phase2_rank}
use priority_service_poc.Cgo.Engine.Added.{with_pair}
use priority_service_poc.Examples.Sorting.{sample_runtime, sort_entries, insert_entry}
use priority_service_poc.Examples.Data.{small}
use priority_service_poc.Examples.Scenario.{sample_clock, sample_stats, pair_lists}
use priority_service_poc.Examples.Heap.{heap_engine, heap_update, overflow, cycled_heap}

-- The pair of the second row and the first bin tag is added before the cycle.
abbrev pub widened_heap : ComputeEngine
widened_heap = record cycled_heap {
  state = record {
    topology = record {
      val =
          (make_pair_key 1 2, status_active)
          ∷ (make_pair_key 0 1, status_active)
          ∷ (make_pair_key 1 1, status_active)
          ∷ [];
    };
    pairs = pair_info 0 1 ∷ pair_info 1 2 ∷ pair_info 1 1 ∷ [];
    pending_warmup = [];
  };
  db = record { ptr = record { slots = pair_lists ++ pair_lists ++ pair_lists; num_pairs = 3 } };
}

pub widened_cycle :
    run_cycle_with_dict small sample_runtime overflow sample_clock
      (some heap_update)
      (with_pair heap_engine 1 1)
    ≡ ok (widened_heap, sample_stats)
unfolding run_cycle_with_dict sort_entries insert_entry priority_service_poc.Base.Run.load
    priority_service_poc.Base.Run.store priority_service_poc.Ingest.event_meta
    priority_service_poc.Base.Int.pos_part priority_service_poc.Base.Int.neg_part
    priority_service_poc.Base.Int.wrap64 priority_service_poc.Base.Int.◌-ℤ◌
    priority_service_poc.Base.Dict.lookup_or priority_service_poc.Base.Dict.lookup
    priority_service_poc.Indexes.remove_order priority_service_poc.Indexes.unlink
    priority_service_poc.Indexes.unlink_one priority_service_poc.Indexes.remove_uint32
    priority_service_poc.Base.Dict.insert priority_service_poc.Base.Slices.slice
    priority_service_poc.Base.Dict.delete priority_service_poc.Base.Int.sub_ℕ
    priority_service_poc.Base.Int.wrap32 priority_service_poc.Base.Int.◌+ℤ◌
    priority_service_poc.Base.Slices.splice priority_service_poc.Buffer.list_mut
    priority_service_poc.Buffer.new_read_buffer priority_service_poc.Buffer.publish
    priority_service_poc.Buffer.put_list priority_service_poc.Phase1.clamp_int16
    priority_service_poc.Phase1.div_up priority_service_poc.Phase1.scaled_delta
    priority_service_poc.Phase1.worker_count priority_service_poc.Phase2.ensure_scratch
    priority_service_poc.Phase2.grow_scratch priority_service_poc.Phase2.rank_range
    priority_service_poc.Phase2.run_worker priority_service_poc.Phase2.run_workers
    priority_service_poc.Rank.add_entries priority_service_poc.Rank.copy_ids
    priority_service_poc.Rank.write_list priority_service_poc.Rank.write_lists
    priority_service_poc.Select.median_of_three priority_service_poc.Select.partition_desc
    priority_service_poc.Select.partition_loop priority_service_poc.Select.select_loop
    priority_service_poc.Select.swap priority_service_poc.Types.Float.float_ge
    priority_service_poc.Types.Float.float_mul priority_service_poc.Types.Float.float_to_int32
    priority_service_poc.Types.make_pair_key priority_service_poc.Registry.is_expired
    priority_service_poc.Phase2.rank_all priority_service_poc.Registry.clear_slot
    priority_service_poc.Topology.copy_map priority_service_poc.Cgo.Scoring.c_add
    priority_service_poc.Cgo.Scoring.saturate priority_service_poc.Cgo.Scoring.update_cells
    priority_service_poc.Cgo.Scoring.update_all_scores
    priority_service_poc.Cgo.Scoring.evict_order_scores priority_service_poc.Cgo.Scoring.row
    priority_service_poc.Cgo.Scoring.read_row priority_service_poc.Cgo.Scoring.evict_order
    priority_service_poc.Cgo.Scoring.c_update_row_range priority_service_poc.Cgo.Registry.evict_slot
    priority_service_poc.Cgo.Registry.purge_loop priority_service_poc.Cgo.Registry.purge_expired
    priority_service_poc.Cgo.Rank.quickselect_top_k
    priority_service_poc.Cgo.Rank.quickselect_and_copy priority_service_poc.Cgo.Rank.fill_scratch
    priority_service_poc.Cgo.Rank.rank_pair priority_service_poc.Cgo.Phase1.add_in_range
    priority_service_poc.Cgo.Phase1.add_listed priority_service_poc.Cgo.Phase1.build_delta
    priority_service_poc.Cgo.Phase1.start_workers priority_service_poc.Cgo.Phase1.update_matrix
    priority_service_poc.Cgo.Phase1.phase1_list priority_service_poc.Cgo.Phase1.phase1_update
    priority_service_poc.Cgo.Pairs.load_map priority_service_poc.Cgo.Pairs.copy_map
    priority_service_poc.Cgo.Pairs.activate priority_service_poc.Cgo.Pairs.activate_pending
    priority_service_poc.Cgo.Pairs.promote_warming_pairs priority_service_poc.Cgo.Engine.phase2_rank
    priority_service_poc.Cgo.Engine.cycle_stats priority_service_poc.Types.Float.is_zero
    priority_service_poc.Types.Float.float_sub priority_service_poc.Cgo.Pairs.handle_add_pair
    priority_service_poc.Cgo.Pairs.has_key priority_service_poc.Cgo.Pairs.add_warming_up
widened_cycle = refl
