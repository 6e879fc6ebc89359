-- ===== src/Cgo/Setup.antt =====
-- go-cgo-impl/main.go: the topology and the pairs that the variant with a C kernel starts with.
pub mod Built
use priority_service_poc.Base.{ℕ, zero, suc, List, [], ◌∷◌, ◌++◌}
use priority_service_poc.Types.{Sizes, PairInfo, make_pair_key}
use priority_service_poc.Topology.{TopologyState, new_topology_state}
use priority_service_poc.Cgo.Pairs.{activate}

-- The inner loop over `bt`, with the rounds that are left.
unfoldable pub activate_row :
    ℕ → ℕ → ℕ → TopologyState × List PairInfo → TopologyState × List PairInfo
activate_row pps zero bt r = r
activate_row pps (suc rounds) bt r = activate_row pps rounds (suc bt) (
  activate r.0 pps bt,
  r.1 ++ record { pps_id = pps; bin_tag_id = bt; key = make_pair_key pps bt } ∷ [],
)

-- The outer loop over `pps`.
unfoldable pub activate_rows :
    Sizes → ℕ → ℕ → TopologyState × List PairInfo → TopologyState × List PairInfo
unfolding activate_row
activate_rows s zero pps r = r
activate_rows s (suc rounds) pps r =
    activate_rows s rounds (suc pps) (activate_row pps s.num_bin_tags 0 r)

unfoldable pub build_topology : Sizes → TopologyState × List PairInfo
unfolding activate_rows
build_topology s = activate_rows s s.num_pps 0 (new_topology_state, [])
