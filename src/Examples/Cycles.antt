-- ===== src/Examples/Cycles.antt =====
-- A cycle of the sample engine, and the requests after it.
use priority_service_poc.Cgo.Server.{replied, get_top_k as cgo_get_top_k}
use priority_service_poc.Cgo.Server.Agreement.{get_top_k_agrees, lists_until_empty}
use priority_service_poc.Server.Answers.{four_lists}
use priority_service_poc.Server.{answered}
use priority_service_poc.Base.{ℕ, ◌≡◌, ◌≢◌, refl, List, [], ◌∷◌, ◌++◌, Option, some, none, arith}
use priority_service_poc.Base.Int.{pos}
use priority_service_poc.Base.Run.{panic, Returns, Returns-at, ok}
use priority_service_poc.Types.{make_pair_key}
use priority_service_poc.Topology.{status_active, status_warming_up, get}
use priority_service_poc.Phase2.{phase2_rank}
use priority_service_poc.Phase2.Workers.{IsRankedBuffer, phase2_rank-IsRankedBuffer}
use priority_service_poc.Server.{
  GetTopKRequest, effective_k, get_top_k, new_priority_server, refresh_pair_index, PriorityServer,
}
use priority_service_poc.Server.Answers.{IsAnswer, get_top_k-IsAnswer}
use priority_service_poc.Engine.{pair_info, run_cycle_with_dict}
use priority_service_poc.Engine.Ready.{IsReady-IsRankable}
use priority_service_poc.Engine.Cycle.{IsCycled, ranked_input, run_cycle_with_dict-IsCycled}
use priority_service_poc.Engine.Served.{
  run_cycle-get_top_k, run_cycle-none_warming, handle_add_pair-panic,
}
use priority_service_poc.Examples.Sorting.{sample_runtime}
use priority_service_poc.Examples.Data.{small, two_orders, two_orders-IsReady}
use priority_service_poc.Examples.Scenario.{
  sample_engine, sample_engine-AllKeyed, sample_engine-IsTracked, sample_pairs-KeysDistinct,
  sample_clock, sample_update, sample_stats, cycled_engine, sample_cycle, added_engine,
  added_pairs-KeysDistinct, added_cycle,
}

abbrev request : GetTopKRequest
request = record { pps_id = 2; bin_tag_id = 2; k = pos 1 }

run_cycle_with_dict-IsCycled_example :
    Returns
      (λ r. IsCycled small sample_runtime sample_clock (some sample_update) sample_engine r.0)
      (run_cycle_with_dict small sample_runtime sample_clock (some sample_update) sample_engine)
run_cycle_with_dict-IsCycled_example =
    run_cycle_with_dict-IsCycled small sample_runtime sample_clock (some sample_update)
      sample_engine (omega arith) two_orders-IsReady sample_engine-AllKeyed

phase2_rank-IsRankedBuffer_example :
    Returns
      (λ r. IsRankedBuffer small (ranked_input sample_engine sample_engine sample_clock) r.0)
      (phase2_rank small sample_runtime
        (pos 2)
        (ranked_input sample_engine sample_engine sample_clock)
        [])
phase2_rank-IsRankedBuffer_example =
    phase2_rank-IsRankedBuffer small sample_runtime (pos 2)
      (ranked_input sample_engine sample_engine sample_clock) [] (omega arith)
      (IsReady-IsRankable small two_orders two_orders-IsReady)

run_cycle-get_top_k_example :
    Returns
      (IsAnswer small
        (ranked_input sample_engine cycled_engine sample_clock)
        (pair_info 2 2)
        (effective_k small (pos 1)))
      (get_top_k small
        (new_priority_server cycled_engine.topology cycled_engine.db cycled_engine.pairs)
        request)
unfolding get priority_service_poc.Base.Dict.lookup make_pair_key
run_cycle-get_top_k_example =
    run_cycle-get_top_k small sample_runtime sample_clock (some sample_update) sample_engine
      cycled_engine sample_stats request 1 (pair_info 2 2) (omega arith) two_orders-IsReady
      sample_engine-AllKeyed sample_pairs-KeysDistinct sample_cycle refl refl refl

run_cycle-none_warming_example :
    get cycled_engine.topology (make_pair_key 2 2) ≢ some status_warming_up
run_cycle-none_warming_example =
    run_cycle-none_warming small sample_runtime sample_clock (some sample_update) sample_engine
      cycled_engine sample_stats (make_pair_key 2 2) (omega arith) two_orders-IsReady
      sample_engine-IsTracked sample_cycle

abbrev added_request : GetTopKRequest
added_request = record { pps_id = 3; bin_tag_id = 3; k = pos 10 }

handle_add_pair-panic_example :
    (get added_engine.topology (make_pair_key 3 3) ≡ some status_active)
    × (get_top_k small
          (new_priority_server added_engine.topology added_engine.db
            (added_engine.pairs ++ pair_info 3 3 ∷ []))
          added_request
        ≡ panic)
handle_add_pair-panic_example =
    handle_add_pair-panic small sample_runtime sample_clock (some sample_update) sample_engine
      added_engine sample_stats added_request (omega arith) (omega arith) two_orders-IsReady
      sample_engine-IsTracked added_pairs-KeysDistinct added_cycle

abbrev stale_server : PriorityServer
stale_server = record { topology = cycled_engine.topology; db = cycled_engine.db; pair_index = [] }

get_top_k-IsAnswer_example :
    Returns
      (IsAnswer small
        (ranked_input sample_engine cycled_engine sample_clock)
        (pair_info 1 1)
        (effective_k small (pos 0)))
      (get_top_k small
        (refresh_pair_index stale_server sample_engine.pairs)
        (record { pps_id = 1; bin_tag_id = 1; k = pos 0 }))
unfolding get priority_service_poc.Base.Dict.lookup make_pair_key
get_top_k-IsAnswer_example =
    get_top_k-IsAnswer small (ranked_input sample_engine cycled_engine sample_clock) stale_server
      (record { pps_id = 1; bin_tag_id = 1; k = pos 0 }) 0 (pair_info 1 1)
      (Returns-at
        (run_cycle_with_dict-IsCycled small sample_runtime sample_clock (some sample_update)
          sample_engine (omega arith) two_orders-IsReady sample_engine-AllKeyed)
        sample_cycle).published
      sample_pairs-KeysDistinct refl refl (λ e. ground (arith, e)) refl

abbrev indexed_server : PriorityServer
indexed_server = record stale_server {
  pair_index = (make_pair_key 1 1, 0) ∷ (make_pair_key 2 2, 1) ∷ [];
}

get_top_k_agrees_example :
    (get_top_k small indexed_server request
      ≡ ok (answered (four_lists small indexed_server.db.ptr 1 (effective_k small request.k))))
    × (cgo_get_top_k small indexed_server request
        ≡ ok (
            replied (
              lists_until_empty
                (four_lists small indexed_server.db.ptr 1 (effective_k small request.k)))))
unfolding get priority_service_poc.Base.Dict.lookup make_pair_key
get_top_k_agrees_example =
    get_top_k_agrees small indexed_server request 1 refl (omega arith) refl refl
