-- ===== src/Cgo/Pairs/Reactivation.antt =====
-- What the promotion does to a pair that was removed while it warmed up.
use priority_service_poc.Base.{
  ℕ, ◌+◌, ◌≡◌, refl, ap, ◌∙◌, List, [], ◌∷◌, ◌++◌, Bool, true, Option, some, arith, ltb, ◌==◌,
  ==_refl, if◌then◌else◌,
}
use priority_service_poc.Base.Dict.{lookup-insert}
use priority_service_poc.Types.{PairInfo, make_pair_key}
use priority_service_poc.Topology.{PairStatus, TopologyState, status_active, copy_map}
use priority_service_poc.Topology.Lifecycle.{lookup-copy_map}
use priority_service_poc.Indexes.Counts.{count}
use priority_service_poc.Engine.{pair_info}
use priority_service_poc.Engine.Promote.{keys, AllKeyed, keyed}
use priority_service_poc.Engine.Handlers.{count-added, AllKeyed-append}
use priority_service_poc.Cgo.Pairs.{
  PairsState, get, activate, activate_pending, handle_add_pair, handle_remove_pair,
  promote_warming_pairs, load_map,
}

pub get-activate :
    (t : TopologyState) (p b key : ℕ)
    → get (activate t p b) key
      ≡ (if make_pair_key p b == key then some status_active else get t key)
unfolding activate get load_map
get-activate t p b key =
    lookup-insert (make_pair_key p b) key status_active (copy_map t.val)
    ∙ ground (arith, lookup-copy_map key t.val)

one_more :
    (hit : Bool) (n : ℕ) (o : Option PairStatus)
    → (if ltb 0 n then some status_active else if hit then some status_active else o)
      ≡ (if ltb 0 ((if hit then 1 else 0) + n) then some status_active else o)
one_more hit n o = ground arith

pub activate_pending-get :
    (pending : List PairInfo) (t : TopologyState) (key : ℕ)
    → AllKeyed pending
    → get (activate_pending pending t) key
      ≡ (if ltb 0 (count key (keys pending)) then some status_active else get t key)
unfolding activate_pending count
activate_pending-get [] t key k = refl
activate_pending-get (p ∷ pending) t key (keyed named k) =
    activate_pending-get pending (activate t p.pps_id p.bin_tag_id) key k
    ∙ ap
        (λ (o : Option PairStatus).
          if ltb 0 (count key (keys pending)) then some status_active else o)
        (get-activate t p.pps_id p.bin_tag_id key ∙ rw (← named) refl)
    ∙ one_more (p.key == key) (count key (keys pending)) (get t key)

-- A pair that is added, and removed before the next cycle ends, is active after the promotion of that
-- cycle, whatever its status was before.
pub handle_remove_pair-reactivated :
    (e : PairsState) (p b : ℕ)
    → AllKeyed e.pending_warmup
    → get
        (promote_warming_pairs (handle_remove_pair (handle_add_pair e p b) p b)).topology
        (make_pair_key p b)
      ≡ some status_active
unfolding promote_warming_pairs handle_remove_pair handle_add_pair
handle_remove_pair-reactivated e p b k =
    let key = make_pair_key p b in
    let pending = e.pending_warmup ++ pair_info p b ∷ [] in
    let listed : ltb 0 (count key (keys pending)) ≡ true =
      ground (arith, count-added key p b e.pending_warmup, ==_refl key) in
    activate_pending-get pending _ key (AllKeyed-append e.pending_warmup p b k) ∙ rw listed refl
