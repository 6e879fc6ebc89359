-- ===== src/Cgo/Server.antt =====
-- go-cgo-impl/server.go: GetTopK of the variant with a C kernel. The requests, the responses, the server
-- and its index are those of the pure variant; the errors differ, and GetList (go-cgo-impl/types.go) copies a
-- list up to its first empty slot.
pub mod Agreement
use priority_service_poc.Base.{ℕ, zero, suc, List, [], ◌∷◌, ltb, Option, none, some, if◌then◌else◌}
use priority_service_poc.Base.Int.{ℤ, eqb_ℤ}
use priority_service_poc.Base.Run.{Run, ok, load, ◌>>=◌}
use priority_service_poc.Base.Dict.{lookup}
use priority_service_poc.Types.{
  Sizes, make_pair_key, tbl_heuristic, tbl_large, tbl_pbt, tbl_critical,
}
use priority_service_poc.Buffer.{ReadBuffer, list_offset, empty_slot, load_buffer}
use priority_service_poc.Topology.{
  PairStatus, status_active, status_warming_up, status_removed, TopologyState,
}
use priority_service_poc.Server.{
  GetTopKRequest, GetTopKResponse, PriorityServer, effective_k, grpc_not_found, grpc_unavailable,
}
use priority_service_poc.Cgo.Pairs.{get}

pub data ErrorText : Type 0 where
  pair_not_found pair_is_warming_up pair_index_not_refreshed_yet : ErrorText

pub data Reply : Type 0 where
  refused : ℕ → ErrorText → Reply
  replied : GetTopKResponse → Reply

-- The loop of GetList, with the offset of the next slot and the number of rounds left.
unfoldable pub filled_slots : List ℤ → ℕ → ℕ → Run (List ℤ)
filled_slots slots off zero = ok []
filled_slots slots off (suc k) = do
  v ← load slots off
  let rest = filled_slots slots (suc off) k
  if eqb_ℤ v empty_slot then ok [] else (rest >>= λ vs. ok (v ∷ vs))

unfoldable pub get_list : Sizes → ReadBuffer → ℕ → ℕ → ℕ → Run (List ℤ)
unfolding filled_slots
get_list s b pair_idx table k =
    filled_slots b.slots (list_offset s pair_idx table) (if ltb s.top_k k then s.top_k else k)

unfoldable pub view_lists : Sizes → ReadBuffer → ℕ → ℕ → Run GetTopKResponse
unfolding get_list
view_lists s buf pair_idx k = do
  heuristic ← get_list s buf pair_idx tbl_heuristic k
  large ← get_list s buf pair_idx tbl_large k
  pbt ← get_list s buf pair_idx tbl_pbt k
  critical ← get_list s buf pair_idx tbl_critical k
  ok (record { heuristic = heuristic; large = large; pbt = pbt; critical = critical })

-- An active pair that the index does not know yet is unavailable.
unfoldable pub reply_active : Sizes → PriorityServer → GetTopKRequest → Option ℕ → Run Reply
unfolding view_lists load_buffer effective_k
reply_active s srv req none = ok (refused grpc_unavailable pair_index_not_refreshed_yet)
reply_active s srv req (some pair_idx) =
    view_lists s (load_buffer srv.db) pair_idx (effective_k s req.k) >>= λ resp. ok (replied resp)

unfoldable pub reply_status :
    Sizes → PriorityServer → GetTopKRequest → ℕ → Option PairStatus → Run Reply
unfolding reply_active
reply_status s srv req key none = ok (refused grpc_not_found pair_not_found)
reply_status s srv req key (some status_removed) = ok (refused grpc_not_found pair_not_found)
reply_status s srv req key (some status_warming_up) =
    ok (refused grpc_unavailable pair_is_warming_up)
reply_status s srv req key (some status_active) = reply_active s srv req (lookup key srv.pair_index)

unfoldable pub get_top_k : Sizes → PriorityServer → GetTopKRequest → Run Reply
unfolding reply_status get
get_top_k s srv req =
    let key = make_pair_key req.pps_id req.bin_tag_id in
    reply_status s srv req key (get srv.topology key)
