-- ===== src/Cgo/Pairs.antt =====
-- go-cgo-impl/topology.go, and the pairs of the engine in go-cgo-impl/compute.go. The states of the
-- topology and the copy of a map are those of the pure variant; Activate has no condition here.
pub mod Reactivation
pub mod Listed
use priority_service_poc.Base.{
  ℕ, List, [], ◌∷◌, ◌++◌, Bool, true, false, Option, ◌==◌, ◌||◌, if◌then◌else◌,
}
use priority_service_poc.Base.Dict.{Dict, lookup, insert}
use priority_service_poc.Types.{PairInfo, make_pair_key}
use priority_service_poc.Topology.{
  PairStatus, status_active, status_warming_up, status_removed, TopologyState,
  copy_map as copy_entries, is_warming_up,
}

unfoldable pub load_map : TopologyState → Dict PairStatus
load_map t = t.val

unfoldable pub copy_map : TopologyState → Dict PairStatus
unfolding load_map
copy_map t = copy_entries (load_map t)

unfoldable pub get : TopologyState → ℕ → Option PairStatus
unfolding load_map
get t key = lookup key (load_map t)

unfoldable pub add_warming_up : TopologyState → ℕ → ℕ → TopologyState
unfolding copy_map
add_warming_up t pps_id bintag_id = record t {
  val = insert (make_pair_key pps_id bintag_id) status_warming_up (copy_map t);
}

unfoldable pub activate : TopologyState → ℕ → ℕ → TopologyState
unfolding copy_map
activate t pps_id bintag_id = record t {
  val = insert (make_pair_key pps_id bintag_id) status_active (copy_map t);
}

unfoldable pub remove : TopologyState → ℕ → ℕ → TopologyState
unfolding copy_map
remove t pps_id bintag_id = record t {
  val = insert (make_pair_key pps_id bintag_id) status_removed (copy_map t);
}

-- What the handlers and the promotion change of the engine.
pub record PairsState : Type 0 where
  pub topology : TopologyState
  pub pairs : List PairInfo
  pub pending_warmup : List PairInfo

unfoldable pub has_key : ℕ → List PairInfo → Bool
has_key key [] = false
has_key key (p ∷ pairs) = p.key == key || has_key key pairs

-- The pair joins the ranked pairs at once, unless its key is there.
unfoldable pub handle_add_pair : PairsState → ℕ → ℕ → PairsState
unfolding add_warming_up has_key
handle_add_pair e pps_id bintag_id =
    let info : PairInfo = record {
      pps_id = pps_id;
      bin_tag_id = bintag_id;
      key = make_pair_key pps_id bintag_id;
    } in
    record {
      topology = add_warming_up e.topology pps_id bintag_id;
      pairs = if has_key info.key e.pairs then e.pairs else e.pairs ++ info ∷ [];
      pending_warmup = e.pending_warmup ++ info ∷ [];
    }

unfoldable pub without_key : ℕ → List PairInfo → List PairInfo
without_key key [] = []
without_key key (p ∷ pairs) =
    let filtered = without_key key pairs in if p.key == key then filtered else p ∷ filtered

unfoldable pub handle_remove_pair : PairsState → ℕ → ℕ → PairsState
unfolding remove without_key
handle_remove_pair e pps_id bintag_id = record e {
  topology = remove e.topology pps_id bintag_id;
  pairs = without_key (make_pair_key pps_id bintag_id) e.pairs;
}

unfoldable pub activate_pending : List PairInfo → TopologyState → TopologyState
unfolding activate
activate_pending [] t = t
activate_pending (p ∷ pending) t = activate_pending pending (activate t p.pps_id p.bin_tag_id)

unfoldable pub promote_warming_pairs : PairsState → PairsState
unfolding activate_pending
promote_warming_pairs e = record e {
  topology = activate_pending e.pending_warmup e.topology;
  pending_warmup = [];
}
