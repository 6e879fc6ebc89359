-- ===== src/Examples/Scenario.antt =====
-- An engine over the two orders, and its next cycle.
use priority_service_poc.Indexes.Counts.{count}
use priority_service_poc.Base.Dict.{lookup}
use priority_service_poc.Rank.{WorkerScratch}
use priority_service_poc.Server.Index.{
  KeysDistinct, KeysDistinct-cons, IsUnlisted-cons, IsUnlisted-nil, KeysDistinct-nil,
}
use priority_service_poc.Engine.Handlers.{IsTracked}
use priority_service_poc.Phase1.{ItemDictUpdate}
use priority_service_poc.Base.{
  ℕ, ◌≡◌, refl, List, [], ◌∷◌, true, false, Option, some, none, arith, ◌++◌,
}
use priority_service_poc.Base.Int.{ℤ, pos, negsuc}
use priority_service_poc.Base.Run.{ok, store, load}
use priority_service_poc.Types.{Sizes, OrderMeta, PairInfo, make_pair_key, CycleStats}
use priority_service_poc.Matrix.{PpsMatrix, write_order}
use priority_service_poc.Buffer.{ReadBuffer, DoubleBuffer}
use priority_service_poc.Topology.{TopologyState, status_active, status_warming_up, get}
use priority_service_poc.Indexes.{InvertedIndexes}
use priority_service_poc.Registry.{OrderRegistry, OrderStore, zero_meta}
use priority_service_poc.Ingest.{event_meta}
use priority_service_poc.Engine.{
  ComputeEngine, Clock, pair_info, run_cycle_with_dict, handle_add_pair,
}
use priority_service_poc.Engine.Promote.{AllKeyed, keyed, no_pair}
use priority_service_poc.Registry.Evict.{evicted}
use priority_service_poc.Examples.Sorting.{sample_runtime, sort_entries, insert_entry}
use priority_service_poc.Examples.Data.{small, first_event, second_event, two_orders}

abbrev pub no_lists : ReadBuffer
no_lists = record { slots = []; num_pairs = 0 }

-- The first pair is active, the second warms up.
abbrev pub sample_engine : ComputeEngine
sample_engine = record {
  store = two_orders;
  pairs = pair_info 1 1 ∷ pair_info 2 2 ∷ [];
  db = record { ptr = no_lists };
  topology = record {
    val = (make_pair_key 1 1, status_active) ∷ (make_pair_key 2 2, status_warming_up) ∷ [];
  };
  num_workers = pos 2;
  scratch = [];
  pending_warmup = pair_info 2 2 ∷ [];
}

-- At this time the first order has expired.
abbrev pub sample_clock : Clock
sample_clock = record {
  now_secs = pos 4_700;
  phase1_ms = pos 3;
  phase2_ms = pos 4;
  total_ms = pos 9;
}

-- A delta of 0.25 for the item type 7.
abbrev pub sample_update : ItemDictUpdate
sample_update = record {
  tpid_deltas = record { tpid = 7; score_delta = 0x3e80_0000 } ∷ [];
  timestamp = pos 4_700;
}

-- One ranked order in two lists, and two empty lists.
abbrev pub pair_lists : List ℤ
pair_lists = pos 1 ∷ negsuc 0 ∷ pos 1 ∷ negsuc 0 ∷ negsuc 0 ∷ negsuc 0 ∷ negsuc 0 ∷ negsuc 0 ∷ []

abbrev pub used_scratch : WorkerScratch
used_scratch = record {
  heuristic = record { score = pos 50; order_id = pos 1 } ∷ [];
  large = record { score = pos 50; order_id = pos 1 } ∷ [];
  pbt = [];
  critical = [];
}

abbrev pub cycled_engine : ComputeEngine
cycled_engine = record {
  store = record {
    registry = record {
      meta =
          evicted (event_meta first_event (pos 1_000))
          ∷ event_meta second_event (pos 2_000)
          ∷ zero_meta
          ∷ [];
    };
    indexes = record {
      tpid_to_orders = (7, 1 ∷ []) ∷ (8, 1 ∷ []) ∷ [];
      bin_tag_to_orders = (1, 1 ∷ []) ∷ (2, 1 ∷ []) ∷ [];
      reverse_tpid = (1, 7 ∷ 8 ∷ []) ∷ [];
      reverse_bin_tag = (1, 1 ∷ 2 ∷ []) ∷ [];
    };
    matrix = record { scores = pos 0 ∷ pos 50 ∷ pos 0 ∷ pos 0 ∷ pos 50 ∷ pos 0 ∷ []; num_pps = 2 };
  };
  pairs = pair_info 1 1 ∷ pair_info 2 2 ∷ [];
  db = record { ptr = record { slots = pair_lists ++ pair_lists; num_pairs = 2 } };
  topology = record {
    val = (make_pair_key 2 2, status_active) ∷ (make_pair_key 1 1, status_active) ∷ [];
  };
  num_workers = pos 2;
  scratch = used_scratch ∷ used_scratch ∷ [];
  pending_warmup = [];
}

abbrev pub sample_stats : CycleStats
sample_stats = record { phase1_ms = pos 3; phase2_ms = pos 4; total_ms = pos 9; sla_ok = true }

-- The first order expires, the second has its score raised from 25 to 50 and is ranked for both pairs.
pub sample_cycle :
    run_cycle_with_dict small sample_runtime sample_clock (some sample_update) sample_engine
    ≡ ok (cycled_engine, sample_stats)
unfolding run_cycle_with_dict load store event_meta priority_service_poc.Base.Int.pos_part
    priority_service_poc.Base.Int.neg_part priority_service_poc.Base.Int.wrap64
    priority_service_poc.Base.Int.◌-ℤ◌ priority_service_poc.Matrix.evict_scores
    priority_service_poc.Base.Dict.lookup_or priority_service_poc.Base.Dict.lookup
    priority_service_poc.Indexes.remove_order priority_service_poc.Indexes.unlink
    priority_service_poc.Indexes.unlink_one priority_service_poc.Indexes.remove_uint32
    priority_service_poc.Base.Dict.insert priority_service_poc.Matrix.row
    priority_service_poc.Base.Slices.slice priority_service_poc.Base.Dict.delete
    priority_service_poc.Base.Int.sub_ℕ priority_service_poc.Base.Int.wrap32
    priority_service_poc.Base.Int.◌+ℤ◌ priority_service_poc.Base.Slices.splice
    priority_service_poc.Buffer.list_mut priority_service_poc.Buffer.new_read_buffer
    priority_service_poc.Buffer.publish priority_service_poc.Buffer.put_list
    priority_service_poc.Engine.cycle_stats priority_service_poc.Engine.is_promotable
    priority_service_poc.Engine.promote_pending priority_service_poc.Engine.promote_warming_pairs
    priority_service_poc.Matrix.write_column priority_service_poc.Phase1.add_to_orders
    priority_service_poc.Phase1.apply_delta_from priority_service_poc.Phase1.apply_delta_to_row
    priority_service_poc.Phase1.build_delta priority_service_poc.Phase1.clamp_int16
    priority_service_poc.Phase1.div_up priority_service_poc.Phase1.phase1_update
    priority_service_poc.Phase1.scaled_delta priority_service_poc.Phase1.start_workers
    priority_service_poc.Phase1.update_matrix priority_service_poc.Phase1.update_row
    priority_service_poc.Phase1.update_rows priority_service_poc.Phase1.worker_count
    priority_service_poc.Phase2.ensure_scratch priority_service_poc.Phase2.grow_scratch
    priority_service_poc.Phase2.phase2_rank priority_service_poc.Phase2.rank_range
    priority_service_poc.Phase2.run_worker priority_service_poc.Phase2.run_workers
    priority_service_poc.Rank.add_entries priority_service_poc.Rank.all_active
    priority_service_poc.Rank.copy_ids priority_service_poc.Rank.eligible_orders
    priority_service_poc.Rank.fill_scratch priority_service_poc.Rank.pps_row_idx
    priority_service_poc.Rank.quickselect_and_copy priority_service_poc.Rank.rank_pair
    priority_service_poc.Rank.unless_removed priority_service_poc.Rank.write_list
    priority_service_poc.Rank.write_lists priority_service_poc.Registry.clear_slot
    priority_service_poc.Registry.evict_slot priority_service_poc.Registry.is_expired
    priority_service_poc.Registry.purge_expired priority_service_poc.Registry.purge_loop
    priority_service_poc.Select.median_of_three priority_service_poc.Select.partition_desc
    priority_service_poc.Select.partition_loop priority_service_poc.Select.quickselect_top_k
    priority_service_poc.Select.select_loop priority_service_poc.Select.swap
    priority_service_poc.Topology.activate priority_service_poc.Topology.copy_map
    priority_service_poc.Topology.get priority_service_poc.Types.Float.float_ge
    priority_service_poc.Types.Float.float_mul priority_service_poc.Types.Float.float_to_int32
    priority_service_poc.Types.make_pair_key priority_service_poc.Matrix.write_order sort_entries
    insert_entry
sample_cycle = refl

pub sample_engine-AllKeyed : AllKeyed sample_engine.pending_warmup
sample_engine-AllKeyed = keyed refl no_pair

pub sample_pairs-KeysDistinct : KeysDistinct sample_engine.pairs
unfolding make_pair_key
sample_pairs-KeysDistinct =
    KeysDistinct-cons (pair_info 1 1) (pair_info 2 2 ∷ [])
      (IsUnlisted-cons (pair_info 1 1).key (pair_info 2 2) [] (λ e. absurd (omega arith))
        (IsUnlisted-nil (pair_info 1 1).key))
      (KeysDistinct-cons (pair_info 2 2) [] (IsUnlisted-nil (pair_info 2 2).key) KeysDistinct-nil)

pub sample_engine-IsTracked : IsTracked sample_engine
unfolding get lookup count make_pair_key
sample_engine-IsTracked = record {
  well_keyed = sample_engine-AllKeyed;
  tracked = λ key warm. ground (arith, warm);
}

-- A pair is added before the cycle.
abbrev pub added_engine : ComputeEngine
added_engine = record cycled_engine {
  topology = record {
    val =
        (make_pair_key 2 2, status_active)
        ∷ (make_pair_key 1 1, status_active)
        ∷ (make_pair_key 3 3, status_active)
        ∷ [];
  };
}

pub added_cycle :
    run_cycle_with_dict small sample_runtime sample_clock
      (some sample_update)
      (handle_add_pair sample_engine 3 3)
    ≡ ok (added_engine, sample_stats)
unfolding run_cycle_with_dict load store event_meta priority_service_poc.Base.Int.pos_part
    priority_service_poc.Base.Int.neg_part priority_service_poc.Base.Int.wrap64
    priority_service_poc.Base.Int.◌-ℤ◌ priority_service_poc.Matrix.evict_scores
    priority_service_poc.Base.Dict.lookup_or priority_service_poc.Base.Dict.lookup
    priority_service_poc.Indexes.remove_order priority_service_poc.Indexes.unlink
    priority_service_poc.Indexes.unlink_one priority_service_poc.Indexes.remove_uint32
    priority_service_poc.Base.Dict.insert priority_service_poc.Matrix.row
    priority_service_poc.Base.Slices.slice priority_service_poc.Base.Dict.delete
    priority_service_poc.Base.Int.sub_ℕ priority_service_poc.Base.Int.wrap32
    priority_service_poc.Base.Int.◌+ℤ◌ priority_service_poc.Base.Slices.splice
    priority_service_poc.Buffer.list_mut priority_service_poc.Buffer.new_read_buffer
    priority_service_poc.Buffer.publish priority_service_poc.Buffer.put_list
    priority_service_poc.Engine.cycle_stats priority_service_poc.Engine.is_promotable
    priority_service_poc.Engine.promote_pending priority_service_poc.Engine.promote_warming_pairs
    priority_service_poc.Matrix.write_column priority_service_poc.Phase1.add_to_orders
    priority_service_poc.Phase1.apply_delta_from priority_service_poc.Phase1.apply_delta_to_row
    priority_service_poc.Phase1.build_delta priority_service_poc.Phase1.clamp_int16
    priority_service_poc.Phase1.div_up priority_service_poc.Phase1.phase1_update
    priority_service_poc.Phase1.scaled_delta priority_service_poc.Phase1.start_workers
    priority_service_poc.Phase1.update_matrix priority_service_poc.Phase1.update_row
    priority_service_poc.Phase1.update_rows priority_service_poc.Phase1.worker_count
    priority_service_poc.Phase2.ensure_scratch priority_service_poc.Phase2.grow_scratch
    priority_service_poc.Phase2.phase2_rank priority_service_poc.Phase2.rank_range
    priority_service_poc.Phase2.run_worker priority_service_poc.Phase2.run_workers
    priority_service_poc.Rank.add_entries priority_service_poc.Rank.all_active
    priority_service_poc.Rank.copy_ids priority_service_poc.Rank.eligible_orders
    priority_service_poc.Rank.fill_scratch priority_service_poc.Rank.pps_row_idx
    priority_service_poc.Rank.quickselect_and_copy priority_service_poc.Rank.rank_pair
    priority_service_poc.Rank.unless_removed priority_service_poc.Rank.write_list
    priority_service_poc.Rank.write_lists priority_service_poc.Registry.clear_slot
    priority_service_poc.Registry.evict_slot priority_service_poc.Registry.is_expired
    priority_service_poc.Registry.purge_expired priority_service_poc.Registry.purge_loop
    priority_service_poc.Select.median_of_three priority_service_poc.Select.partition_desc
    priority_service_poc.Select.partition_loop priority_service_poc.Select.quickselect_top_k
    priority_service_poc.Select.select_loop priority_service_poc.Select.swap
    priority_service_poc.Topology.activate priority_service_poc.Topology.copy_map
    priority_service_poc.Topology.get priority_service_poc.Types.Float.float_ge
    priority_service_poc.Types.Float.float_mul priority_service_poc.Types.Float.float_to_int32
    priority_service_poc.Types.make_pair_key priority_service_poc.Matrix.write_order sort_entries
    insert_entry handle_add_pair priority_service_poc.Topology.add_warming_up
added_cycle = refl

pub added_pairs-KeysDistinct : KeysDistinct (sample_engine.pairs ++ pair_info 3 3 ∷ [])
unfolding make_pair_key
added_pairs-KeysDistinct =
    KeysDistinct-cons (pair_info 1 1) (pair_info 2 2 ∷ pair_info 3 3 ∷ [])
      (IsUnlisted-cons (pair_info 1 1).key (pair_info 2 2) (pair_info 3 3 ∷ [])
        (λ e. absurd (omega arith))
        (IsUnlisted-cons (pair_info 1 1).key (pair_info 3 3) [] (λ e. absurd (omega arith))
          (IsUnlisted-nil (pair_info 1 1).key)))
      (KeysDistinct-cons (pair_info 2 2) (pair_info 3 3 ∷ [])
        (IsUnlisted-cons (pair_info 2 2).key (pair_info 3 3) [] (λ e. absurd (omega arith))
          (IsUnlisted-nil (pair_info 2 2).key))
        (KeysDistinct-cons (pair_info 3 3) [] (IsUnlisted-nil (pair_info 3 3).key)
          KeysDistinct-nil))
