-- ===== src/Server/Refusals.antt =====
-- Which requests GetTopK refuses, from the history of the pair.
use priority_service_poc.Base.{ℕ, ◌≡◌, ◌↔◌, refl, ap, List, [], Option, none, some, false}
use priority_service_poc.Base.Run.{Run, ok, panic, out_of_fuel, ◌>>=◌}
use priority_service_poc.Base.Dict.{lookup}
use priority_service_poc.Types.{Sizes}
use priority_service_poc.Topology.{new_topology_state, get}
use priority_service_poc.Topology.History.{
  Write, apply_writes, history, Standing, never_seen, added_only, added_and_activated, gone,
  standing, status_of, get-apply_writes,
}
use priority_service_poc.Server.{
  GetTopKRequest, GetTopKResponse, ApiError, failed, answered, PriorityServer, not_found,
  pair_warming_up, not_in_pair_index, grpc_not_found, grpc_unavailable, get_top_k, answer_status,
  read_lists, answer_active, load_buffer, effective_k,
}
use priority_service_poc.Server.Answers.{api_error, key_of}

-- The error for a pair: NotFound if it was never added, was removed since, or is not in the index;
-- Unavailable until an activation follows the last time that it was added.
unfoldable pub refusal : GetTopKRequest → Standing → Option ℕ → Option ApiError
refusal req never_seen i = some (api_error grpc_not_found (not_found req.pps_id req.bin_tag_id))
refusal req gone i = some (api_error grpc_not_found (not_found req.pps_id req.bin_tag_id))
refusal req added_only i =
    some (api_error grpc_unavailable (pair_warming_up req.pps_id req.bin_tag_id))
refusal req added_and_activated none =
    some (api_error grpc_not_found (not_in_pair_index req.pps_id req.bin_tag_id))
refusal req added_and_activated (some i) = none

some_failed : {a b : ApiError} → (some a ≡ some b) ↔ (ok (failed a) ≡ ok (failed b))
some_failed = (λ e. ap (λ x. ok (failed x)) (cc e), λ e. cc e)

never_failed :
    (run : Run GetTopKResponse) (err : ApiError)
    → (none ≡ some err) ↔ ((run >>= λ resp. ok (answered resp)) ≡ ok (failed err))
never_failed panic err = (λ e. absurd (cc e), λ e. absurd (cc e))
never_failed out_of_fuel err = (λ e. absurd (cc e), λ e. absurd (cc e))
never_failed (ok resp) err = (λ e. absurd (cc e), λ e. absurd (cc e))

answer_status-refusal :
    (s : Sizes) (srv : PriorityServer) (req : GetTopKRequest) (err : ApiError) (at : Standing)
    → (refusal req at (lookup (key_of req) srv.pair_index) ≡ some err)
      ↔ (answer_status s srv req (key_of req) (status_of at) ≡ ok (failed err))
unfolding answer_status refusal answer_active
answer_status-refusal s srv req err never_seen = some_failed
answer_status-refusal s srv req err added_only = some_failed
answer_status-refusal s srv req err gone = some_failed
answer_status-refusal s srv req err added_and_activated =
    indexed (lookup (key_of req) srv.pair_index)
  where
    indexed :
        (i : Option ℕ)
        → (refusal req added_and_activated i ≡ some err)
          ↔ (answer_active s srv req i ≡ ok (failed err))
    indexed none = some_failed
    indexed (some i) = never_failed (read_lists s (load_buffer srv.db) i (effective_k s req.k)) err

-- After any sequence of writes to a new topology, GetTopK refuses a request with an error exactly if the
-- history of its own pair says so: with NotFound a pair that was never added, or was removed since it was
-- last added, or is active but not in the index, and with Unavailable a pair that no activation followed
-- since it was last added. The writes to other pairs do not matter, and neither does the buffer.
pub get_top_k-refusal :
    (s : Sizes) (srv : PriorityServer) (req : GetTopKRequest) (ws : List Write) (err : ApiError)
    → srv.topology ≡ apply_writes ws new_topology_state
    → (refusal req
          (standing false (history (key_of req) ws []))
          (lookup (key_of req) srv.pair_index)
        ≡ some err)
      ↔ (get_top_k s srv req ≡ ok (failed err))
unfolding get_top_k
get_top_k-refusal s srv req ws err written =
    let at = standing false (history (key_of req) ws []) in
    let status : get srv.topology (key_of req) ≡ status_of at = rw written (
      get-apply_writes ws new_topology_state (key_of req) []
        (unfold get lookup new_topology_state standing in refl)) in
    rw status (answer_status-refusal s srv req err at)
