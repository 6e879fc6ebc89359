-- ===== src/Topology.antt =====
-- go-pure-impl/topology.go: the lifecycle states of the pairs. A state is an immutable map behind an
-- atomic pointer. The writers hold a mutex, so each of them is one step from a map to the next.
pub mod Lifecycle
pub mod History
use mathlib.Core.Option
use priority_service_poc.Base.{
  ℕ, Bool, true, false, List, [], ◌∷◌, Option, none, some, if◌then◌else◌,
}
use priority_service_poc.Base.Dict.{Dict, lookup, lookup_or, insert}
use priority_service_poc.Types.{make_pair_key}

-- In the order of the constants: `status_active` is the zero value.
pub data PairStatus : Type 0 where
  status_active status_warming_up status_removed : PairStatus

abbrev pub is_warming_up : PairStatus → Bool
is_warming_up status_warming_up = true
is_warming_up _ = false

abbrev pub is_removed : PairStatus → Bool
is_removed status_removed = true
is_removed _ = false

pub record TopologyState : Type 0 where
  pub val : Dict PairStatus

unfoldable pub new_topology_state : TopologyState
new_topology_state = record { val = [] }

-- `none` is the result (0, false).
unfoldable pub get : TopologyState → ℕ → Option PairStatus
get t key = lookup key t.val

-- Go leaves the order of the iteration open.
unfoldable pub copy_map : Dict PairStatus → Dict PairStatus
copy_map [] = []
copy_map ((k, v) ∷ src) = insert k v (copy_map src)

unfoldable pub add_warming_up : TopologyState → ℕ → ℕ → TopologyState
add_warming_up t pps_id bintag_id = record t {
  val = insert (make_pair_key pps_id bintag_id) status_warming_up (copy_map t.val);
}

unfoldable pub activate : TopologyState → ℕ → ℕ → TopologyState
activate t pps_id bintag_id =
    if is_warming_up (lookup_or (make_pair_key pps_id bintag_id) status_active t.val)
    then record t { val = insert (make_pair_key pps_id bintag_id) status_active (copy_map t.val) }
    else t

unfoldable pub remove : TopologyState → ℕ → ℕ → TopologyState
remove t pps_id bintag_id = record t {
  val = insert (make_pair_key pps_id bintag_id) status_removed (copy_map t.val);
}

-- The body of the loop over the entries that are left.
unfoldable pub warming_up_keys : Dict PairStatus → List ℕ
warming_up_keys [] = []
warming_up_keys ((k, v) ∷ m) =
    let rest = warming_up_keys m in if is_warming_up v then k ∷ rest else rest

-- `range` gives the entries in the order of the iteration, which Go leaves open.
unfoldable pub warming_up_pairs : (Dict PairStatus → Dict PairStatus) → TopologyState → List ℕ
unfolding warming_up_keys
warming_up_pairs range t = warming_up_keys (range t.val)
