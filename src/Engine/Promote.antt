-- ===== src/Engine/Promote.antt =====
-- promoteWarmingPairs, for each key.
use priority_service_poc.Base.{
  ℕ, ◌+◌, ◌-◌, ◌≡◌, refl, ap, ◌∙◌, inl, inr, List, [], ◌∷◌, Option, none, some, Bool, true, false,
  arith, map, ltb, ◌==◌, if◌then◌else◌, Bool-cases, eq_of_==,
}
use priority_service_poc.Types.{PairInfo, make_pair_key}
use priority_service_poc.Topology.{
  TopologyState, PairStatus, status_active, status_warming_up, status_removed, get, activate,
}
use priority_service_poc.Topology.Lifecycle.{activating, next_status, apply_event, get-apply_event}
use priority_service_poc.Indexes.Counts.{count}
use priority_service_poc.Engine.{is_promotable, promote_pending}

abbrev pub keys : List PairInfo → List ℕ
keys = map λ p. p.key

-- Each key is the one of its pair.
pub data AllKeyed : List PairInfo → Type 0 where
  no_pair : AllKeyed []
  keyed :
      {p : PairInfo} {pairs : List PairInfo}
      → p.key ≡ make_pair_key p.pps_id p.bin_tag_id
      → AllKeyed pairs
      → AllKeyed (p ∷ pairs)

-- How many of the `n` pending entries of a pair are left when a cycle ends, from its status before: none
-- of an unknown pair, all but the one that is promoted of a warming pair, and all of any other.
abbrev pub leftover : Option PairStatus → ℕ → ℕ
leftover none n = 0
leftover (some status_warming_up) n = n - 1
leftover (some status_active) n = n
leftover (some status_removed) n = n

activated :
    (t : TopologyState) (info : PairInfo) (key : ℕ)
    → info.key ≡ make_pair_key info.pps_id info.bin_tag_id
    → get (activate t info.pps_id info.bin_tag_id) key
      ≡ (if info.key == key then next_status activating (get t key) else get t key)
activated t info key named =
    rw named (unfold apply_event in (get-apply_event activating t info.pps_id info.bin_tag_id key))

next_status_twice :
    (o : Option PairStatus)
    → next_status activating (next_status activating o) ≡ next_status activating o
unfolding next_status
next_status_twice none = refl
next_status_twice (some status_active) = refl
next_status_twice (some status_warming_up) = refl
next_status_twice (some status_removed) = refl

next_status_settled :
    (o : Option PairStatus) → is_promotable o ≡ false → next_status activating o ≡ o
unfolding next_status is_promotable
next_status_settled none h = cc
next_status_settled (some status_active) h = refl
next_status_settled (some status_warming_up) h = cc
next_status_settled (some status_removed) h = refl

-- The status of a key after the promotion: activated if a pending pair has the key.
abbrev pub promoted_status : ℕ → List PairInfo → Option PairStatus → Option PairStatus
promoted_status key pending status =
    if ltb 0 (count key (keys pending)) then next_status activating status else status

one_more_promoted :
    (hit : Bool) (n : ℕ) (o : Option PairStatus)
    → (if ltb 0 n
        then next_status activating (if hit then next_status activating o else o)
        else if hit
        then next_status activating o
        else o)
      ≡ (if ltb 0 ((if hit then 1 else 0) + n) then next_status activating o else o)
one_more_promoted hit n o = ground (arith, next_status_twice o)

one_more_settled :
    (hit : Bool) (n : ℕ) (o : Option PairStatus)
    → (hit ≡ true → next_status activating o ≡ o)
    → (if ltb 0 n then next_status activating o else o)
      ≡ (if ltb 0 ((if hit then 1 else 0) + n) then next_status activating o else o)
one_more_settled hit n o settled = ground (arith, settled)

pub promote_pending-get :
    (pending : List PairInfo) (t : TopologyState) (key : ℕ)
    → AllKeyed pending
    → get (promote_pending pending t).0 key ≡ promoted_status key pending (get t key)
unfolding promote_pending count
promote_pending-get [] t key k = refl
promote_pending-get (info ∷ pending) t key (keyed named k) =
    elim (Bool-cases (is_promotable (get t info.key))) [
      | inl go ↦ rw go (
          promote_pending-get pending (activate t info.pps_id info.bin_tag_id) key k
          ∙ ap (promoted_status key pending) (activated t info key named)
          ∙ one_more_promoted (info.key == key) (count key (keys pending)) (get t key))
      | inr stay ↦ rw stay (
          promote_pending-get pending t key k
          ∙ one_more_settled (info.key == key) (count key (keys pending)) (get t key)
              λ hit. rw (← eq_of_== info.key key hit) (next_status_settled (get t info.key) stay))
    ]

leftover_promoted :
    (hit : Bool) (n : ℕ) (o : Option PairStatus)
    → (hit ≡ true → is_promotable o ≡ true)
    → leftover (if hit then next_status activating o else o) n
      ≡ leftover o ((if hit then 1 else 0) + n)
unfolding next_status is_promotable
leftover_promoted false n none h = refl
leftover_promoted false n (some status_active) h = omega arith
leftover_promoted false n (some status_removed) h = omega arith
leftover_promoted false n (some status_warming_up) h = omega arith
leftover_promoted true n none h = refl
leftover_promoted true n (some status_active) h = cc (h refl)
leftover_promoted true n (some status_removed) h = cc (h refl)
leftover_promoted true n (some status_warming_up) h = omega arith

leftover_kept :
    (hit : Bool) (n : ℕ) (o : Option PairStatus)
    → (hit ≡ true → is_promotable o ≡ false)
    → (if hit then 1 else 0) + leftover o n ≡ leftover o ((if hit then 1 else 0) + n)
unfolding is_promotable
leftover_kept false n none h = omega arith
leftover_kept false n (some status_active) h = omega arith
leftover_kept false n (some status_removed) h = omega arith
leftover_kept false n (some status_warming_up) h = omega arith
leftover_kept true n none h = cc (h refl)
leftover_kept true n (some status_active) h = omega arith
leftover_kept true n (some status_removed) h = omega arith
leftover_kept true n (some status_warming_up) h = cc (h refl)

pub promote_pending-leftover :
    (pending : List PairInfo) (t : TopologyState) (key : ℕ)
    → AllKeyed pending
    → count key (keys (promote_pending pending t).1)
      ≡ leftover (get t key) (count key (keys pending))
unfolding promote_pending count
promote_pending-leftover [] t key k = empty (get t key)
  where
    empty : (o : Option PairStatus) → 0 ≡ leftover o 0
    empty none = refl
    empty (some status_active) = refl
    empty (some status_removed) = refl
    empty (some status_warming_up) = refl
promote_pending-leftover (info ∷ pending) t key (keyed named k) =
    elim (Bool-cases (is_promotable (get t info.key))) [
      | inl go ↦ rw go (
          promote_pending-leftover pending (activate t info.pps_id info.bin_tag_id) key k
          ∙ ap (λ (o : Option PairStatus). leftover o (count key (keys pending)))
              (activated t info key named)
          ∙ leftover_promoted (info.key == key) (count key (keys pending)) (get t key)
              λ hit. rw (← eq_of_== info.key key hit) go)
      | inr stay ↦ rw stay (
          ap (λ (n : ℕ). (if info.key == key then 1 else 0) + n)
            (promote_pending-leftover pending t key k)
          ∙ leftover_kept (info.key == key) (count key (keys pending)) (get t key)
              λ hit. rw (← eq_of_== info.key key hit) stay)
    ]

-- promoteWarmingPairs activates exactly the warming pairs that are pending and changes no other status;
-- of the pending entries of a pair, those of an unknown pair are dropped, one of a warming pair is, and
-- those of an active or a removed pair all stay.
pub promote_pending_lem :
    (pending : List PairInfo) (t : TopologyState) (key : ℕ)
    → AllKeyed pending
    → (get (promote_pending pending t).0 key ≡ promoted_status key pending (get t key))
      × (count key (keys (promote_pending pending t).1)
          ≡ leftover (get t key) (count key (keys pending)))
promote_pending_lem pending t key k =
    (promote_pending-get pending t key k, promote_pending-leftover pending t key k)
