-- ===== src/Server.antt =====
-- go-pure-impl/server.go: PriorityServer, which answers GetTopK from the published buffer.
pub mod Index
pub mod Answers
pub mod Refusals
use priority_service_poc.Base.{
  ℕ, zero, suc, List, [], ◌∷◌, Option, none, some, length, replicate, ◌||◌, if◌then◌else◌,
}
use priority_service_poc.Base.Int.{ℤ, pos, pos_part, geb_ℤ, gtb_ℤ}
use priority_service_poc.Base.Run.{Run, ok, ◌>>=◌}
use priority_service_poc.Base.Dict.{Dict, lookup, insert}
use priority_service_poc.Base.Slices.{splice}
use priority_service_poc.Types.{
  Sizes, PairInfo, make_pair_key, tbl_heuristic, tbl_large, tbl_pbt, tbl_critical,
}
use priority_service_poc.Buffer.{ReadBuffer, DoubleBuffer, get_list, load_buffer}
use priority_service_poc.Topology.{
  TopologyState, PairStatus, status_active, status_warming_up, status_removed, get,
}

abbrev pub grpc_not_found : ℕ
grpc_not_found = 5

abbrev pub grpc_unavailable : ℕ
grpc_unavailable = 14

-- `k` is an int, of any sign.
pub record GetTopKRequest : Type 0 where
  pub pps_id : ℕ
  pub bin_tag_id : ℕ
  pub k : ℤ

pub record GetTopKResponse : Type 0 where
  pub heuristic : List ℤ
  pub large : List ℤ
  pub pbt : List ℤ
  pub critical : List ℤ

-- The texts of the errors, which carry the two identifiers of the request.
pub data Msg : Type 0 where
  not_found pair_warming_up not_in_pair_index : ℕ → ℕ → Msg

pub record ApiError : Type 0 where
  pub code : ℕ
  pub msg : Msg

pub data Answer : Type 0 where
  failed : ApiError → Answer
  answered : GetTopKResponse → Answer

pub record PriorityServer : Type 0 where
  pub topology : TopologyState
  pub db : DoubleBuffer
  pub pair_index : Dict ℕ

-- `for i, p := range pairs { newIndex[p.Key] = i }`, from index `i` on.
unfoldable pub index_pairs : ℕ → List PairInfo → Dict ℕ → Dict ℕ
index_pairs i [] index = index
index_pairs i (p ∷ pairs) index = index_pairs (suc i) pairs (insert p.key i index)

unfoldable pub refresh_pair_index : PriorityServer → List PairInfo → PriorityServer
unfolding index_pairs
refresh_pair_index srv pairs = record srv { pair_index = index_pairs 0 pairs [] }

unfoldable pub new_priority_server : TopologyState → DoubleBuffer → List PairInfo → PriorityServer
unfolding refresh_pair_index
new_priority_server topo db pairs =
    refresh_pair_index (record { topology = topo; db = db; pair_index = [] }) pairs

unfoldable pub effective_k : Sizes → ℤ → ℕ
effective_k s k = if geb_ℤ (pos 0) k || gtb_ℤ k (pos s.top_k) then s.top_k else pos_part k

-- `copy(make([]int32, k), buf.GetList(pairIdx, table, k))`
unfoldable pub copy_list : Sizes → ReadBuffer → ℕ → ℕ → ℕ → Run (List ℤ)
copy_list s buf pair_idx table k =
    get_list s buf pair_idx table k >>= λ list. ok (splice (replicate k (pos 0)) 0 list)

unfoldable pub read_lists : Sizes → ReadBuffer → ℕ → ℕ → Run GetTopKResponse
unfolding copy_list
read_lists s buf pair_idx k = do
  heuristic ← copy_list s buf pair_idx tbl_heuristic k
  large ← copy_list s buf pair_idx tbl_large k
  pbt ← copy_list s buf pair_idx tbl_pbt k
  critical ← copy_list s buf pair_idx tbl_critical k
  ok (record { heuristic = heuristic; large = large; pbt = pbt; critical = critical })

-- The part of GetTopK for an active pair.
unfoldable pub answer_active : Sizes → PriorityServer → GetTopKRequest → Option ℕ → Run Answer
unfolding effective_k read_lists load_buffer
answer_active s srv req none =
    ok
      (failed (record { code = grpc_not_found; msg = not_in_pair_index req.pps_id req.bin_tag_id }))
answer_active s srv req (some pair_idx) =
    read_lists s (load_buffer srv.db) pair_idx (effective_k s req.k) >>= λ resp. ok (answered resp)

unfoldable pub answer_status :
    Sizes → PriorityServer → GetTopKRequest → ℕ → Option PairStatus → Run Answer
unfolding answer_active
answer_status s srv req key none =
    ok (failed (record { code = grpc_not_found; msg = not_found req.pps_id req.bin_tag_id }))
answer_status s srv req key (some status_removed) =
    ok (failed (record { code = grpc_not_found; msg = not_found req.pps_id req.bin_tag_id }))
answer_status s srv req key (some status_warming_up) =
    ok
      (failed (record { code = grpc_unavailable; msg = pair_warming_up req.pps_id req.bin_tag_id }))
answer_status s srv req key (some status_active) =
    answer_active s srv req (lookup key srv.pair_index)

unfoldable pub get_top_k : Sizes → PriorityServer → GetTopKRequest → Run Answer
unfolding answer_status
get_top_k s srv req =
    let key = make_pair_key req.pps_id req.bin_tag_id in
    answer_status s srv req key (get srv.topology key)
