-- ===== src/Topology/History.antt =====
-- The status of a pair from the history of its own writes.
use priority_service_poc.Base.{
  ℕ, ◌≡◌, refl, ap, ◌∙◌, List, [], ◌∷◌, Bool, true, false, Option, none, some, ◌==◌, if◌then◌else◌,
}
use priority_service_poc.Types.{make_pair_key}
use priority_service_poc.Topology.{
  PairStatus, status_active, status_warming_up, status_removed, TopologyState, get,
}
use priority_service_poc.Topology.Lifecycle.{
  Event, adding, activating, removing, next_status, apply_event, get-apply_event,
}

pub record Write : Type 0 where
  pub event : Event
  pub pps_id : ℕ
  pub bin_tag_id : ℕ

-- The writes one after the other.
unfoldable pub apply_writes : List Write → TopologyState → TopologyState
unfolding apply_event
apply_writes [] t = t
apply_writes (w ∷ ws) t = apply_writes ws (apply_event w.event t w.pps_id w.bin_tag_id)

-- The writes of one key, the last one first, before those of `past`.
unfoldable pub history : ℕ → List Write → List Event → List Event
history key [] past = past
history key (w ∷ ws) past =
    history key ws (if make_pair_key w.pps_id w.bin_tag_id == key then w.event ∷ past else past)

-- What the last write says that is no activation: nothing, that the pair was added, with an activation
-- after it or without, or that it was removed.
pub data Standing : Type 0 where
  never_seen added_only added_and_activated gone : Standing

unfoldable pub standing : Bool → List Event → Standing
standing activated [] = never_seen
standing activated (activating ∷ past) = standing true past
standing true (adding ∷ past) = added_and_activated
standing false (adding ∷ past) = added_only
standing activated (removing ∷ past) = gone

abbrev pub status_of : Standing → Option PairStatus
status_of never_seen = none
status_of added_only = some status_warming_up
status_of added_and_activated = some status_active
status_of gone = some status_removed

activated_twice :
    (past : List Event)
    → next_status activating (status_of (standing true past)) ≡ status_of (standing true past)
unfolding next_status standing
activated_twice [] = refl
activated_twice (activating ∷ past) = activated_twice past
activated_twice (adding ∷ past) = refl
activated_twice (removing ∷ past) = refl

activated_now :
    (past : List Event)
    → next_status activating (status_of (standing false past)) ≡ status_of (standing true past)
unfolding next_status standing
activated_now [] = refl
activated_now (activating ∷ past) = activated_twice past
activated_now (adding ∷ past) = refl
activated_now (removing ∷ past) = refl

next_standing :
    (e : Event) (past : List Event)
    → next_status e (status_of (standing false past)) ≡ status_of (standing false (e ∷ past))
unfolding next_status standing
next_standing adding past = refl
next_standing activating past = activated_now past
next_standing removing past = refl

pub get-apply_writes :
    (ws : List Write) (t : TopologyState) (key : ℕ) (past : List Event)
    → get t key ≡ status_of (standing false past)
    → get (apply_writes ws t) key ≡ status_of (standing false (history key ws past))
unfolding apply_writes history
get-apply_writes [] t key past e = e
get-apply_writes (w ∷ ws) t key past e =
    let hit = make_pair_key w.pps_id w.bin_tag_id == key in
    get-apply_writes ws (apply_event w.event t w.pps_id w.bin_tag_id) key
      (if hit then w.event ∷ past else past)
      (get-apply_event w.event t w.pps_id w.bin_tag_id key ∙ written hit)
  where
    written :
        (hit : Bool)
        → (if hit then next_status w.event (get t key) else get t key)
          ≡ status_of (standing false (if hit then w.event ∷ past else past))
    written true = ap (next_status w.event) e ∙ next_standing w.event past
    written false = e
