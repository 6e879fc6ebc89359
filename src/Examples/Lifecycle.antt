-- ===== src/Examples/Lifecycle.antt =====
-- The lifecycle of the pairs: the topology, the handlers, the promotion and the refused requests.
use priority_service_poc.Cgo.Registry.{upsert as cgo_upsert, deactivate as cgo_deactivate}
use priority_service_poc.Cgo.Registry.Ranges.{registry-or_keep, or_keep}
use priority_service_poc.Registry.{upsert, deactivate, zero_meta}
use priority_service_poc.Examples.Data.{no_orders}
use priority_service_poc.Cgo.Pairs.{
  PairsState, get as cgo_get, promote_warming_pairs as cgo_promote,
  handle_remove_pair as cgo_remove, handle_add_pair as cgo_add,
}
use priority_service_poc.Cgo.Pairs.Reactivation.{handle_remove_pair-reactivated}
use priority_service_poc.Setup.{Environment, init_from_env}
use priority_service_poc.Setup.Settings.{init_from_env_bounds}
use priority_service_poc.Base.{
  refl, ℕ, ◌≡◌, some, ◌==◌, if◌then◌else◌, none, arith, List, [], false, ◌∷◌,
}
use priority_service_poc.Base.Int.{pos, ◌<ℤ◌, ◌≤ℤ◌}
use priority_service_poc.Base.Run.{ok}
use priority_service_poc.Base.Dict.{lookup}
use priority_service_poc.Types.{make_pair_key}
use priority_service_poc.Topology.{status_warming_up, status_removed, get, status_active}
use priority_service_poc.Topology.{new_topology_state}
use priority_service_poc.Topology.Lifecycle.{adding, activating, removing}
use priority_service_poc.Topology.History.{Write, apply_writes, history, standing}
use priority_service_poc.Server.Refusals.{refusal, get_top_k-refusal}
use priority_service_poc.Server.Answers.{key_of}
use priority_service_poc.Server.{not_found, grpc_not_found, PriorityServer}
use priority_service_poc.Base.{◌↔◌}
use priority_service_poc.Indexes.Counts.{count}
use priority_service_poc.Server.{GetTopKRequest, failed, get_top_k}
use priority_service_poc.Server.Answers.{api_error}
use priority_service_poc.Engine.{handle_add_pair, handle_remove_pair, promote_pending}
use priority_service_poc.Engine.Promote.{keys, promoted_status, leftover, promote_pending_lem}
use priority_service_poc.Engine.Handlers.{IsTracked, handle_add_pair_lem, handle_remove_pair_lem}
use priority_service_poc.Examples.Data.{small}
use priority_service_poc.Examples.Scenario.{
  sample_engine, sample_engine-AllKeyed, sample_engine-IsTracked,
}

promote_pending_lem_example :
    (get (promote_pending sample_engine.pending_warmup sample_engine.topology).0 (make_pair_key 2 2)
      ≡ promoted_status
          (make_pair_key 2 2)
          sample_engine.pending_warmup
          (get sample_engine.topology (make_pair_key 2 2)))
    × (count
          (make_pair_key 2 2)
          (keys (promote_pending sample_engine.pending_warmup sample_engine.topology).1)
        ≡ leftover
            (get sample_engine.topology (make_pair_key 2 2))
            (count (make_pair_key 2 2) (keys sample_engine.pending_warmup)))
promote_pending_lem_example =
    promote_pending_lem sample_engine.pending_warmup sample_engine.topology (make_pair_key 2 2)
      sample_engine-AllKeyed

handle_add_pair_lem_example :
    ((key : ℕ)
      → get (handle_add_pair sample_engine 3 3).topology key ≡ (
          if make_pair_key 3 3 == key
          then some status_warming_up
          else get sample_engine.topology key))
    × IsTracked (handle_add_pair sample_engine 3 3)
    × ((handle_add_pair sample_engine 3 3).pairs ≡ sample_engine.pairs)
handle_add_pair_lem_example = handle_add_pair_lem sample_engine 3 3 sample_engine-IsTracked

handle_remove_pair_lem_example :
    ((key : ℕ)
      → get (handle_remove_pair sample_engine 1 1).topology key ≡ (
          if make_pair_key 1 1 == key then some status_removed else get sample_engine.topology key))
    × IsTracked (handle_remove_pair sample_engine 1 1)
    × ((k : ℕ)
        → count k (keys (handle_remove_pair sample_engine 1 1).pairs)
          ≡ (if make_pair_key 1 1 == k then 0 else count k (keys sample_engine.pairs)))
handle_remove_pair_lem_example = handle_remove_pair_lem sample_engine 1 1 sample_engine-IsTracked

-- The pair (1, 1) was served and removed; (2, 2) still warms up.
abbrev sample_writes : List Write
sample_writes =
    record { event = adding; pps_id = 1; bin_tag_id = 1 }
    ∷ record { event = adding; pps_id = 2; bin_tag_id = 2 }
    ∷ record { event = activating; pps_id = 1; bin_tag_id = 1 }
    ∷ record { event = removing; pps_id = 1; bin_tag_id = 1 }
    ∷ []

abbrev written_server : PriorityServer
written_server = record {
  topology = apply_writes sample_writes new_topology_state;
  db = sample_engine.db;
  pair_index = [];
}

abbrev removed_request : GetTopKRequest
removed_request = record { pps_id = 1; bin_tag_id = 1; k = pos 10 }

get_top_k-refusal_example :
    (refusal removed_request
        (standing false (history (key_of removed_request) sample_writes []))
        (lookup (key_of removed_request) written_server.pair_index)
      ≡ some (api_error grpc_not_found (not_found 1 1)))
    ↔ (get_top_k small written_server removed_request
        ≡ ok (failed (api_error grpc_not_found (not_found 1 1))))
get_top_k-refusal_example =
    get_top_k-refusal small written_server removed_request sample_writes
      (api_error grpc_not_found (not_found 1 1)) refl

-- The history decides: the request is refused.
removed_refused :
    get_top_k small written_server removed_request
    ≡ ok (failed (api_error grpc_not_found (not_found 1 1)))
unfolding history standing refusal make_pair_key
removed_refused =
    (get_top_k-refusal small written_server removed_request sample_writes
        (api_error grpc_not_found (not_found 1 1)) refl).0
      refl

abbrev cgo_pairs : PairsState
cgo_pairs = record {
  topology = sample_engine.topology;
  pairs = sample_engine.pairs;
  pending_warmup = sample_engine.pending_warmup;
}

handle_remove_pair-reactivated_example :
    cgo_get (cgo_promote (cgo_remove (cgo_add cgo_pairs 3 3) 3 3)).topology (make_pair_key 3 3)
    ≡ some status_active
handle_remove_pair-reactivated_example =
    handle_remove_pair-reactivated cgo_pairs 3 3 sample_engine-AllKeyed

abbrev sample_environment : Environment
sample_environment = record {
  num_workers = some (pos 0);
  gomaxprocs = none;
  gcpercent = some (pos 50);
  mem_limit = some (pos 512);
}

init_from_env_bounds_example :
    (pos 0 <ℤ (init_from_env small 8 sample_environment).num_workers_val)
    × (pos 0 <ℤ (init_from_env small 8 sample_environment).go_max_procs)
    × (pos 0 ≤ℤ (init_from_env small 8 sample_environment).mem_limit_mb)
init_from_env_bounds_example = init_from_env_bounds small 8 sample_environment (omega arith)

registry-or_keep_example :
    (cgo_upsert small no_orders.registry zero_meta
      ≡ or_keep (upsert no_orders.registry zero_meta) no_orders.registry)
    × (cgo_deactivate small no_orders.registry 9
        ≡ or_keep (deactivate no_orders.registry 9) no_orders.registry)
registry-or_keep_example = registry-or_keep small no_orders.registry zero_meta 9 refl
