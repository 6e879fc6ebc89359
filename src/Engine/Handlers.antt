-- ===== src/Engine/Handlers.antt =====
-- HandleAddPair and HandleRemovePair: what they keep, and what a request sees of them.
use priority_service_poc.Base.{
  ℕ, ◌+◌, ◌<◌, ◌≡◌, refl, sym, ap, ◌∙◌, inl, inr, List, [], ◌∷◌, ◌++◌, some, arith, ◌==◌,
  if◌then◌else◌, Bool-cases,
}
use priority_service_poc.Types.{PairInfo, make_pair_key}
use priority_service_poc.Topology.{status_warming_up, status_removed, get}
use priority_service_poc.Topology.Lifecycle.{
  adding, removing, next_status, apply_event, get-apply_event,
}
use priority_service_poc.Indexes.Counts.{count, count-append}
use priority_service_poc.Engine.{
  ComputeEngine, pair_info, handle_add_pair, handle_remove_pair, drop_key,
}
use priority_service_poc.Engine.Promote.{keys, AllKeyed, no_pair, keyed}

-- The pending pairs have their keys, and every warming pair is pending.
pub record IsTracked (e : ComputeEngine) : Type 0 where
  pub well_keyed : AllKeyed e.pending_warmup
  pub tracked :
      (key : ℕ)
      → get e.topology key ≡ some status_warming_up
      → 0 < count key (keys e.pending_warmup)

pub AllKeyed-append :
    (pending : List PairInfo) (p b : ℕ)
    → AllKeyed pending
    → AllKeyed (pending ++ pair_info p b ∷ [])
AllKeyed-append [] p b no_pair = keyed refl no_pair
AllKeyed-append (q ∷ pending) p b (keyed named k) = keyed named (AllKeyed-append pending p b k)

keys-append : (xs ys : List PairInfo) → keys (xs ++ ys) ≡ keys xs ++ keys ys
keys-append [] ys = refl
keys-append (x ∷ xs) ys = ap (◌∷◌ x.key) (keys-append xs ys)

added :
    (e : ComputeEngine) (p b key : ℕ)
    → get (handle_add_pair e p b).topology key
      ≡ (if make_pair_key p b == key then some status_warming_up else get e.topology key)
unfolding handle_add_pair
added e p b key = unfold apply_event next_status in (get-apply_event adding e.topology p b key)

removed :
    (e : ComputeEngine) (p b key : ℕ)
    → get (handle_remove_pair e p b).topology key
      ≡ (if make_pair_key p b == key then some status_removed else get e.topology key)
unfolding handle_remove_pair
removed e p b key = unfold apply_event next_status in (get-apply_event removing e.topology p b key)

count-drop_key :
    (key k : ℕ) (pairs : List PairInfo)
    → count k (keys (drop_key key pairs)) ≡ (if key == k then 0 else count k (keys pairs))
unfolding drop_key count
count-drop_key key k [] = ground arith
count-drop_key key k (p ∷ pairs) = ground (arith, count-drop_key key k pairs)

pub count-added :
    (key p b : ℕ) (pending : List PairInfo)
    → count key (keys (pending ++ pair_info p b ∷ []))
      ≡ count key (keys pending) + (if make_pair_key p b == key then 1 else 0)
unfolding count
count-added key p b pending =
    ap (count key) (keys-append pending (pair_info p b ∷ []))
    ∙ count-append key (keys pending) (make_pair_key p b ∷ [])
    ∙ omega arith

module _ (e : ComputeEngine) (p b : ℕ) (v : IsTracked e) (key : ℕ) where
  tracked-added :
      get (handle_add_pair e p b).topology key ≡ some status_warming_up
      → 0 < count key (keys (e.pending_warmup ++ pair_info p b ∷ []))
  tracked-added warm = elim (Bool-cases (make_pair_key p b == key)) [
    | inl new ↦ ground (arith, new, count-added key p b e.pending_warmup)
    | inr old ↦
        let still : get e.topology key ≡ some status_warming_up =
          sym (added e p b key ∙ rw old refl) ∙ warm in
        let before = v.tracked key still in
        omega (arith, before, count-added key p b e.pending_warmup)
  ]

  tracked-removed :
      get (handle_remove_pair e p b).topology key ≡ some status_warming_up
      → 0 < count key (keys e.pending_warmup)
  tracked-removed warm = elim (Bool-cases (make_pair_key p b == key)) [
    | inl gone ↦
        let now : get (handle_remove_pair e p b).topology key ≡ some status_removed =
          removed e p b key ∙ rw gone refl in
        cc (sym now ∙ warm)
    | inr old ↦
        let kept : get (handle_remove_pair e p b).topology key ≡ get e.topology key =
          removed e p b key ∙ rw old refl in
        v.tracked key (sym kept ∙ warm)
  ]

-- In an engine in which every warming pair is pending, HandleAddPair makes the pair warm up, whatever its
-- status was, and changes no other status; every warming pair is pending still, and the list of pairs that
-- a cycle ranks is as it was.
pub handle_add_pair_lem :
    (e : ComputeEngine) (p b : ℕ)
    → IsTracked e
    → ((key : ℕ)
        → get (handle_add_pair e p b).topology key
          ≡ (if make_pair_key p b == key then some status_warming_up else get e.topology key))
      × IsTracked (handle_add_pair e p b)
      × ((handle_add_pair e p b).pairs ≡ e.pairs)
unfolding handle_add_pair
handle_add_pair_lem e p b v = (
  added e p b,
  record {
    well_keyed = AllKeyed-append e.pending_warmup p b v.well_keyed;
    tracked = λ key warm. tracked-added e p b v key warm;
  },
  refl,
)

-- In an engine in which every warming pair is pending, HandleRemovePair marks the pair as removed and
-- changes no other status; every warming pair is pending still, and the list of pairs that a cycle ranks
-- holds no pair of that key, and those of any other key as often as before.
pub handle_remove_pair_lem :
    (e : ComputeEngine) (p b : ℕ)
    → IsTracked e
    → ((key : ℕ)
        → get (handle_remove_pair e p b).topology key
          ≡ (if make_pair_key p b == key then some status_removed else get e.topology key))
      × IsTracked (handle_remove_pair e p b)
      × ((k : ℕ)
          → count k (keys (handle_remove_pair e p b).pairs)
            ≡ (if make_pair_key p b == k then 0 else count k (keys e.pairs)))
unfolding handle_remove_pair
handle_remove_pair_lem e p b v = (
  removed e p b,
  record { well_keyed = v.well_keyed; tracked = λ key warm. tracked-removed e p b v key warm },
  λ k. count-drop_key (make_pair_key p b) k e.pairs,
)
