-- ===== src/Topology/Lifecycle.antt =====
-- What each write does to the status of every pair.
use priority_service_poc.Base.{ℕ, ◌≡◌, refl, ◌∙◌, [], ◌∷◌, Option, some, arith, ◌==◌, if◌then◌else◌}
use priority_service_poc.Base.Dict.{Dict, lookup, lookup_or, lookup-insert}
use priority_service_poc.Types.{make_pair_key}
use priority_service_poc.Topology.{
  PairStatus, status_active, status_warming_up, status_removed, TopologyState, get, copy_map,
  add_warming_up, activate, remove,
}

pub lookup-copy_map : (k : ℕ) (m : Dict PairStatus) → lookup k (copy_map m) ≡ lookup k m
unfolding copy_map lookup
lookup-copy_map k [] = refl
lookup-copy_map k ((j, v) ∷ m) =
    ground (arith, lookup-insert j k v (copy_map m), lookup-copy_map k m)

-- The writes of the topology, and the status that each leaves its pair. AddWarmingUp and Remove do not read
-- the old status: a pair that is active or removed warms up again, and an unknown one can be removed.
pub data Event : Type 0 where
  adding activating removing : Event

unfoldable pub next_status : Event → Option PairStatus → Option PairStatus
next_status adding status = some status_warming_up
next_status activating (some status_warming_up) = some status_active
next_status activating status = status
next_status removing status = some status_removed

unfoldable pub apply_event : Event → TopologyState → ℕ → ℕ → TopologyState
apply_event adding t p b = add_warming_up t p b
apply_event activating t p b = activate t p b
apply_event removing t p b = remove t p b

activate-get :
    (t : TopologyState) (p b key : ℕ)
    → get (activate t p b) key
      ≡ (if make_pair_key p b == key then next_status activating (get t key) else get t key)
unfolding get activate next_status lookup_or
activate-get t p b key = ground (
  arith,
  lookup-insert (make_pair_key p b) key status_active (copy_map t.val),
  lookup-copy_map key t.val,
)

-- Each write changes the status of its own pair and leaves every other pair alone.
pub get-apply_event :
    (e : Event) (t : TopologyState) (p b key : ℕ)
    → get (apply_event e t p b) key
      ≡ (if make_pair_key p b == key then next_status e (get t key) else get t key)
unfolding apply_event get add_warming_up remove next_status
get-apply_event adding t p b key =
    lookup-insert (make_pair_key p b) key status_warming_up (copy_map t.val)
    ∙ ground (arith, lookup-copy_map key t.val)
get-apply_event activating t p b key = activate-get t p b key
get-apply_event removing t p b key =
    lookup-insert (make_pair_key p b) key status_removed (copy_map t.val)
    ∙ ground (arith, lookup-copy_map key t.val)
