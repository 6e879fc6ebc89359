-- ===== src/Examples/Replies.antt =====
-- The theorems of the variant with a C kernel, applied to the sample engine.
use priority_service_poc.Base.{
  ℕ, zero, suc, ◌∙◌, ◌+◌, ◌<◌, ◌≡◌, refl, sym, subst, List, [], ◌∷◌, true, false, Option, some,
  none, arith, get_elem?, length, replicate, ◌*◌,
}
use priority_service_poc.Base.Int.{pos}
use priority_service_poc.Base.Run.{ok, Returns}
use priority_service_poc.Types.{make_pair_key}
use priority_service_poc.Registry.{OrderStore}
use priority_service_poc.Engine.{pair_info}
use priority_service_poc.Cgo.Registry.Refinement.{live_store}
use priority_service_poc.Cgo.Engine.{run_cycle_with_dict}
use priority_service_poc.Cgo.Engine.Cycle.{IsCycled, run_cycle_with_dict-IsCycled_live}
use priority_service_poc.Registry.{purge_expired, evict_order}
use priority_service_poc.Ingest.{ingest_order}
use priority_service_poc.Cgo.Registry.{
  evict_order as cgo_evict_order, purge_expired as cgo_purge_expired,
}
use priority_service_poc.Cgo.Ingest.{KafkaOrderEvent as CgoEvent, ingest_order as cgo_ingest_order}
use priority_service_poc.Cgo.Ingest.Refinement.{active_event, ingest_order-refines}
use priority_service_poc.Cgo.Registry.Refinement.{live_stores, registry-refines}
use priority_service_poc.Cgo.Server.{get_top_k}
use priority_service_poc.Cgo.Pairs.{get}
use priority_service_poc.Cgo.Phase1.{phase1_update}
use priority_service_poc.Cgo.Scoring.Live.{live}
use priority_service_poc.Cgo.Phase1.Done.{IsPhase1, phase1_update-IsPhase1}
use priority_service_poc.Cgo.Engine.{phase2_rank}
use priority_service_poc.Cgo.Engine.Ranked.{ShowsPair, phase2_rank-AllDone}
use priority_service_poc.Phase2.Pool.{AllDone}
use priority_service_poc.Server.{GetTopKRequest, effective_k, new_priority_server}
use priority_service_poc.Cgo.Engine.Served.{IsTopReply, run_cycle-get_top_k_replied}
use priority_service_poc.Examples.Sorting.{sample_runtime}
use priority_service_poc.Examples.Data.{small, two_orders, two_orders-IsReady}
use priority_service_poc.Examples.Scenario.{sample_clock, sample_stats}
use priority_service_poc.Cgo.Pairs.Listed.{IsNamed}
use priority_service_poc.Base.{get_elem?, suc, zero}
use priority_service_poc.Examples.Heap.{
  heap_engine, heap_update, overflow, two_orders-IsShort, heap_engine-HaveRows, heap_engine-IsReady,
  purged_orders, cycled_heap, heap_cycle, heap_update-ModestDeltas, purged-ModestDeltas,
  heap_pairs-KeysDistinct,
}
use priority_service_poc.Examples.Widened.{widened_heap, widened_cycle}
use priority_service_poc.Cgo.Engine.Added.{with_pair, handle_add_pair-replied}
use priority_service_poc.Cgo.Server.{refused, pair_is_warming_up}
use priority_service_poc.Server.{grpc_unavailable}
use priority_service_poc.Types.{PairInfo}

run_cycle_with_dict-IsCycled_live_example :
    Returns
      (λ r.
        IsCycled small sample_runtime sample_clock (some heap_update) two_orders heap_engine r.0)
      (run_cycle_with_dict small sample_runtime overflow sample_clock
        (some heap_update)
        heap_engine)
run_cycle_with_dict-IsCycled_live_example =
    run_cycle_with_dict-IsCycled_live small sample_runtime overflow sample_clock (some heap_update)
      two_orders heap_engine (omega arith) (omega arith) heap_engine-IsReady purged-ModestDeltas

-- One name of each table for the pair that warmed up.
abbrev heap_request : GetTopKRequest
heap_request = record { pps_id = 1; bin_tag_id = 2; k = pos 1 }

run_cycle-get_top_k_replied_example :
    (tables : OrderStore) × (cycled_heap.store ≡ live_store tables)
    × Returns (IsTopReply small tables (pos 4_700) (pair_info 1 2) (effective_k small (pos 1))) (
        get_top_k small
          (new_priority_server cycled_heap.state.topology cycled_heap.db cycled_heap.state.pairs)
          heap_request)
unfolding get make_pair_key priority_service_poc.Base.Dict.lookup
run_cycle-get_top_k_replied_example =
    run_cycle-get_top_k_replied small sample_runtime overflow sample_clock (some heap_update)
      two_orders heap_engine cycled_heap sample_stats heap_request 1 (pair_info 1 2) (omega arith)
      (omega arith) (omega arith) heap_engine-IsReady purged-ModestDeltas heap_pairs-KeysDistinct
      heap_cycle refl refl refl

registry-refines_example :
    (cgo_evict_order small (live_store two_orders) 1 ≡ live_stores (evict_order small two_orders 1))
    × (cgo_purge_expired small (live_store two_orders) (pos 4_700)
        ≡ live_stores (purge_expired small two_orders (pos 4_700)))
registry-refines_example = registry-refines small two_orders 1 (pos 4_700)

-- The second order again, with other item types.
abbrev changed_event : CgoEvent
changed_event = record {
  order_id = 1;
  required_qty = 0x42c8_0000;
  pbt_deadline = pos 0;
  tpids = 9 ∷ [];
  eligible_bin_tags = 2 ∷ [];
  base_score = 0x3f00_0000;
}

ingest_order-refines_example :
    cgo_ingest_order small sample_runtime changed_event (pos 3_000) (live_store two_orders)
    ≡ live_stores
        (ingest_order small sample_runtime (active_event changed_event) (pos 3_000) two_orders)
ingest_order-refines_example =
    ingest_order-refines small sample_runtime changed_event (pos 3_000) two_orders refl

phase1_update-IsPhase1_example :
    Returns
      (IsPhase1 small sample_runtime purged_orders.indexes (some heap_update) two_orders.matrix)
      (phase1_update small sample_runtime overflow
        (pos 2)
        purged_orders.indexes
        (some heap_update)
        (live two_orders.matrix))
phase1_update-IsPhase1_example =
    phase1_update-IsPhase1 small sample_runtime overflow (pos 2) purged_orders.indexes
      two_orders.matrix (some heap_update) (omega arith) (omega arith) (omega arith)
      two_orders-IsReady.valid.shaped two_orders-IsShort heap_update-ModestDeltas

phase2_rank-AllDone_example :
    Returns
      (λ r. AllDone small heap_engine.state.pairs (ShowsPair small two_orders (pos 2_500)) r.0)
      (phase2_rank small sample_runtime
        (pos 2)
        (live_store two_orders)
        heap_engine.state.pairs
        (pos 2_500)
        [])
phase2_rank-AllDone_example =
    phase2_rank-AllDone small sample_runtime two_orders (pos 2_500) heap_engine.state.pairs
      (record { shaped = two_orders-IsReady.valid.shaped; slots = two_orders-IsReady.valid.slots })
      heap_engine-HaveRows (pos 2) [] (omega arith)

-- A pair of the second row that joins before the cycle.
abbrev added_heap_request : GetTopKRequest
added_heap_request = record { pps_id = 1; bin_tag_id = 1; k = pos 0 }

heap_pairs-IsNamed :
    (j : ℕ) (pair : PairInfo) → get_elem? heap_engine.state.pairs j ≡ some pair → IsNamed pair
heap_pairs-IsNamed zero pair e =
    let same : pair_info 0 1 ≡ pair = cc e in
    rw (← same) (record { named = refl; narrow_pps = omega arith; narrow_tag = omega arith })
heap_pairs-IsNamed (suc zero) pair e =
    let same : pair_info 1 2 ≡ pair = cc e in
    rw (← same) (record { named = refl; narrow_pps = omega arith; narrow_tag = omega arith })
heap_pairs-IsNamed (suc (suc j)) pair e = absurd (cc e)

handle_add_pair-replied_example :
    (get_top_k small
        (new_priority_server
          (with_pair heap_engine 1 1).state.topology
          heap_engine.db
          (with_pair heap_engine 1 1).state.pairs)
        added_heap_request
      ≡ ok (refused grpc_unavailable pair_is_warming_up))
    × (j : ℕ) × (get_elem? widened_heap.state.pairs j ≡ some (pair_info 1 1))
    × (tables : OrderStore) × (widened_heap.store ≡ live_store tables)
    × Returns (IsTopReply small tables (pos 4_700) (pair_info 1 1) (effective_k small (pos 0))) (
        get_top_k small
          (new_priority_server widened_heap.state.topology widened_heap.db widened_heap.state.pairs)
          added_heap_request)
handle_add_pair-replied_example =
    handle_add_pair-replied small sample_runtime overflow sample_clock (some heap_update) two_orders
      heap_engine widened_heap sample_stats added_heap_request (omega arith) (omega arith)
      (omega arith) heap_engine-IsReady (omega arith) (omega arith) (omega arith)
      purged-ModestDeltas heap_pairs-KeysDistinct heap_pairs-IsNamed widened_cycle
