-- ===== src/Examples/Heap.antt =====
-- The variant with a C kernel over the two orders: an engine, its next cycle, and the theorems of the
-- variant.
use priority_service_poc.Cgo.Engine.Ranked.{HaveRows}
use priority_service_poc.Base.{
  ℕ, zero, suc, ◌∙◌, ◌+◌, ◌<◌, ◌≡◌, refl, sym, subst, List, [], ◌∷◌, true, false, Option, some,
  none, arith, get_elem?, length, replicate, ◌*◌, ◌++◌,
}
use priority_service_poc.Base.Int.{ℤ, pos, negsuc, pos_parts, negsuc_parts}
use priority_service_poc.Base.Run.{Run, ok, Returns, Returns-at}
use priority_service_poc.Types.{Sizes, make_pair_key, CycleStats}
use priority_service_poc.Topology.{status_active, status_warming_up}
use priority_service_poc.Registry.{OrderStore}
use priority_service_poc.Engine.{pair_info}
use priority_service_poc.Engine.Promote.{keyed, no_pair}
use priority_service_poc.Cgo.Registry.Refinement.{live_store}
use priority_service_poc.Cgo.Scoring.Kernel.{IsShort, Short, All, All-at?}
use priority_service_poc.Cgo.Phase1.{TpidUpdate, ItemDictUpdate}
use priority_service_poc.Cgo.Engine.{ComputeEngine, run_cycle_with_dict}
use priority_service_poc.Cgo.Engine.Cycle.{IsReady}
use priority_service_poc.Registry.{purge_expired, evict_order}
use priority_service_poc.Ingest.{ingest_order}
use priority_service_poc.Cgo.Registry.{
  evict_order as cgo_evict_order, purge_expired as cgo_purge_expired,
}
use priority_service_poc.Cgo.Pairs.{get}
use priority_service_poc.Cgo.Phase1.{phase1_update}
use priority_service_poc.Cgo.Scoring.Kernel.{Modest}
use priority_service_poc.Cgo.Phase1.Delta.{order_delta}
use priority_service_poc.Cgo.Phase1.Done.{ModestDeltas}
use priority_service_poc.Cgo.Engine.{phase2_rank}
use priority_service_poc.Server.Index.{
  KeysDistinct, KeysDistinct-cons, IsUnlisted-cons, IsUnlisted-nil, KeysDistinct-nil,
}
use priority_service_poc.Examples.Sorting.{sample_runtime, sort_entries, insert_entry}
use priority_service_poc.Examples.Data.{small, two_orders, two_orders-IsReady}
use priority_service_poc.Examples.Scenario.{
  no_lists, sample_clock, sample_stats, used_scratch, cycled_engine as pure_cycled,
}

-- The first pair is active, the second warms up.
abbrev pub heap_engine : ComputeEngine
heap_engine = record {
  store = live_store two_orders;
  state = record {
    topology = record {
      val = (make_pair_key 0 1, status_active) ∷ (make_pair_key 1 2, status_warming_up) ∷ [];
    };
    pairs = pair_info 0 1 ∷ pair_info 1 2 ∷ [];
    pending_warmup = pair_info 1 2 ∷ [];
  };
  db = record { ptr = no_lists };
  num_workers = pos 2;
  scratch = [];
}

-- The contribution of the item type 7 rises by 0.25; no order is listed under 9.
abbrev pub heap_update : ItemDictUpdate
heap_update = record {
  updates =
      record { tpid = 7; old_contrib = 0; new_contrib = 0x3e80_0000 }
      ∷ record { tpid = 9; old_contrib = 0; new_contrib = 0x3e80_0000 }
      ∷ [];
}

-- Wrap-around is one thing that a compiled kernel can make of an overflow.
abbrev pub overflow : ℤ → ℤ
overflow v = v

small-Short : (n : ℕ) → n < 100 → Short (pos n)
small-Short n h = omega (arith, h, pos_parts n, pos_parts 32767, negsuc_parts 32767)

pub two_orders-IsShort : IsShort small two_orders.matrix
two_orders-IsShort p o v hp ho e =
    let fifty = small-Short 50 (omega arith) in
    let twenty_five = small-Short 25 (omega arith) in
    let nothing = small-Short 0 (omega arith) in
    let all : All Short two_orders.matrix.scores =
      (fifty, (twenty_five, (nothing, (fifty, (twenty_five, (nothing, tt)))))) in
    All-at? Short two_orders.matrix.scores (p * 3 + o) v all e

pub heap_engine-HaveRows : HaveRows two_orders heap_engine.state.pairs
heap_engine-HaveRows zero pair e =
    let same : pair_info 0 1 ≡ pair = cc in rw (sym same) (omega arith)
heap_engine-HaveRows (suc zero) pair e =
    let same : pair_info 1 2 ≡ pair = cc in rw (sym same) (omega arith)
heap_engine-HaveRows (suc (suc j)) pair e = absurd (cc e)

pub heap_engine-IsReady : IsReady small two_orders heap_engine
heap_engine-IsReady = record {
  alive = refl;
  valid = two_orders-IsReady.valid;
  some_row = omega arith;
  short = two_orders-IsShort;
  have_rows = heap_engine-HaveRows;
  well_keyed = keyed refl no_pair;
}

abbrev pub purged_orders : OrderStore
purged_orders = record {
  registry = pure_cycled.store.registry;
  indexes = pure_cycled.store.indexes;
  matrix = record { scores = pos 0 ∷ pos 25 ∷ pos 0 ∷ pos 0 ∷ pos 25 ∷ pos 0 ∷ []; num_pps = 2 };
}

pub orders_purged : purge_expired small two_orders sample_clock.now_secs ≡ ok purged_orders
unfolding purge_expired priority_service_poc.Base.Run.load priority_service_poc.Ingest.event_meta
    priority_service_poc.Base.Int.pos_part priority_service_poc.Base.Int.neg_part
    priority_service_poc.Base.Int.wrap64 priority_service_poc.Base.Int.◌-ℤ◌
    priority_service_poc.Base.Run.store priority_service_poc.Matrix.evict_scores
    priority_service_poc.Indexes.remove_order priority_service_poc.Indexes.unlink
    priority_service_poc.Base.Dict.delete priority_service_poc.Base.Dict.lookup_or
    priority_service_poc.Base.Dict.lookup priority_service_poc.Indexes.unlink_one
    priority_service_poc.Indexes.remove_uint32 priority_service_poc.Base.Dict.insert
orders_purged = refl

-- The store after the cycle: the score of the second order has risen from 25 to 50.
abbrev pub cycled_orders : OrderStore
cycled_orders = record purged_orders { matrix = pure_cycled.store.matrix }

abbrev pub cycled_heap : ComputeEngine
cycled_heap = record {
  store = live_store cycled_orders;
  state = record {
    topology = record {
      val = (make_pair_key 1 2, status_active) ∷ (make_pair_key 0 1, status_active) ∷ [];
    };
    pairs = pair_info 0 1 ∷ pair_info 1 2 ∷ [];
    pending_warmup = [];
  };
  db = pure_cycled.db;
  num_workers = pos 2;
  scratch = used_scratch ∷ used_scratch ∷ [];
}

pub heap_cycle :
    run_cycle_with_dict small sample_runtime overflow sample_clock (some heap_update) heap_engine
    ≡ ok (cycled_heap, sample_stats)
unfolding run_cycle_with_dict sort_entries insert_entry priority_service_poc.Base.Run.load
    priority_service_poc.Base.Run.store priority_service_poc.Ingest.event_meta
    priority_service_poc.Base.Int.pos_part priority_service_poc.Base.Int.neg_part
    priority_service_poc.Base.Int.wrap64 priority_service_poc.Base.Int.◌-ℤ◌
    priority_service_poc.Base.Dict.lookup_or priority_service_poc.Base.Dict.lookup
    priority_service_poc.Indexes.remove_order priority_service_poc.Indexes.unlink
    priority_service_poc.Indexes.unlink_one priority_service_poc.Indexes.remove_uint32
    priority_service_poc.Base.Dict.insert priority_service_poc.Base.Slices.slice
    priority_service_poc.Base.Dict.delete priority_service_poc.Base.Int.sub_ℕ
    priority_service_poc.Base.Int.wrap32 priority_service_poc.Base.Int.◌+ℤ◌
    priority_service_poc.Base.Slices.splice priority_service_poc.Buffer.list_mut
    priority_service_poc.Buffer.new_read_buffer priority_service_poc.Buffer.publish
    priority_service_poc.Buffer.put_list priority_service_poc.Phase1.clamp_int16
    priority_service_poc.Phase1.div_up priority_service_poc.Phase1.scaled_delta
    priority_service_poc.Phase1.worker_count priority_service_poc.Phase2.ensure_scratch
    priority_service_poc.Phase2.grow_scratch priority_service_poc.Phase2.rank_range
    priority_service_poc.Phase2.run_worker priority_service_poc.Phase2.run_workers
    priority_service_poc.Rank.add_entries priority_service_poc.Rank.copy_ids
    priority_service_poc.Rank.write_list priority_service_poc.Rank.write_lists
    priority_service_poc.Select.median_of_three priority_service_poc.Select.partition_desc
    priority_service_poc.Select.partition_loop priority_service_poc.Select.select_loop
    priority_service_poc.Select.swap priority_service_poc.Types.Float.float_ge
    priority_service_poc.Types.Float.float_mul priority_service_poc.Types.Float.float_to_int32
    priority_service_poc.Types.make_pair_key priority_service_poc.Registry.is_expired
    priority_service_poc.Phase2.rank_all priority_service_poc.Registry.clear_slot
    priority_service_poc.Topology.copy_map priority_service_poc.Cgo.Scoring.c_add
    priority_service_poc.Cgo.Scoring.saturate priority_service_poc.Cgo.Scoring.update_cells
    priority_service_poc.Cgo.Scoring.update_all_scores
    priority_service_poc.Cgo.Scoring.evict_order_scores priority_service_poc.Cgo.Scoring.row
    priority_service_poc.Cgo.Scoring.read_row priority_service_poc.Cgo.Scoring.evict_order
    priority_service_poc.Cgo.Scoring.c_update_row_range priority_service_poc.Cgo.Registry.evict_slot
    priority_service_poc.Cgo.Registry.purge_loop priority_service_poc.Cgo.Registry.purge_expired
    priority_service_poc.Cgo.Rank.quickselect_top_k
    priority_service_poc.Cgo.Rank.quickselect_and_copy priority_service_poc.Cgo.Rank.fill_scratch
    priority_service_poc.Cgo.Rank.rank_pair priority_service_poc.Cgo.Phase1.add_in_range
    priority_service_poc.Cgo.Phase1.add_listed priority_service_poc.Cgo.Phase1.build_delta
    priority_service_poc.Cgo.Phase1.start_workers priority_service_poc.Cgo.Phase1.update_matrix
    priority_service_poc.Cgo.Phase1.phase1_list priority_service_poc.Cgo.Phase1.phase1_update
    priority_service_poc.Cgo.Pairs.load_map priority_service_poc.Cgo.Pairs.copy_map
    priority_service_poc.Cgo.Pairs.activate priority_service_poc.Cgo.Pairs.activate_pending
    priority_service_poc.Cgo.Pairs.promote_warming_pairs priority_service_poc.Cgo.Engine.phase2_rank
    priority_service_poc.Cgo.Engine.cycle_stats priority_service_poc.Types.Float.is_zero
    priority_service_poc.Types.Float.float_sub
heap_cycle = refl

small-Modest : (n : ℕ) → n < 100 → Modest (pos n)
small-Modest n h = omega (arith, h, pos_parts n, pos_parts 2147450880, negsuc_parts 2147450879)

pub heap_update-ModestDeltas :
    ModestDeltas small sample_runtime purged_orders.indexes (some heap_update)
unfolding order_delta priority_service_poc.Types.Float.is_zero
    priority_service_poc.Types.Float.float_sub priority_service_poc.Phase1.Delta.add_times
    priority_service_poc.Indexes.Counts.count priority_service_poc.Base.Dict.lookup_or
    priority_service_poc.Base.Dict.lookup priority_service_poc.Base.Int.wrap32
    priority_service_poc.Base.Int.◌+ℤ◌ priority_service_poc.Phase1.scaled_delta
heap_update-ModestDeltas zero h = small-Modest 0 (omega arith)
heap_update-ModestDeltas (suc zero) h = small-Modest 25 (omega arith)
heap_update-ModestDeltas (suc (suc zero)) h = small-Modest 0 (omega arith)
heap_update-ModestDeltas (suc (suc (suc o))) h = absurd (omega arith)

pub purged-ModestDeltas :
    (st : OrderStore)
    → purge_expired small two_orders sample_clock.now_secs ≡ ok st
    → ModestDeltas small sample_runtime st.indexes (some heap_update)
purged-ModestDeltas st ran =
    let both : ok purged_orders ≡ ok st = sym orders_purged ∙ ran in
    let same : purged_orders ≡ st = cc both in
    subst (λ st. ModestDeltas small sample_runtime st.indexes (some heap_update)) same
      heap_update-ModestDeltas

pub heap_pairs-KeysDistinct : KeysDistinct heap_engine.state.pairs
unfolding make_pair_key
heap_pairs-KeysDistinct =
    KeysDistinct-cons (pair_info 0 1) (pair_info 1 2 ∷ [])
      (IsUnlisted-cons (pair_info 0 1).key (pair_info 1 2) [] (λ e. absurd (omega arith))
        (IsUnlisted-nil (pair_info 0 1).key))
      (KeysDistinct-cons (pair_info 1 2) [] (IsUnlisted-nil (pair_info 1 2).key) KeysDistinct-nil)
