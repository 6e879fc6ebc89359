-- ===== src/Cgo/Setup/Built.antt =====
-- What the two loops build: every pair once, in a row of the matrix and active.
use priority_service_poc.Base.{
  ℕ, zero, suc, ◌+◌, ◌*◌, ◌^◌, ◌≤◌, ◌<◌, ◌≡◌, refl, sym, ap, ◌∙◌, inl, inr, List, [], ◌∷◌, ◌++◌,
  some, arith, length, get_elem?, subst, lt_of_get_elem?,
}
use priority_service_poc.Types.{Sizes, PairInfo, make_pair_key}
use priority_service_poc.Types.{make_pair_key-injective}
use priority_service_poc.Topology.{TopologyState, status_active, new_topology_state}
use priority_service_poc.Engine.{pair_info}
use priority_service_poc.Server.Index.{KeysDistinct}
use priority_service_poc.Cgo.Pairs.{get, activate}
use priority_service_poc.Cgo.Pairs.Listed.{added_cases}
use priority_service_poc.Cgo.Pairs.Reactivation.{get-activate}
use priority_service_poc.Cgo.Setup.{activate_row, activate_rows, build_topology}

-- The pair at position `j` is the one that the loops make in round `j`, and it is active.
pub record IsBuilt (s : Sizes) (t : TopologyState) (j : ℕ) (pair : PairInfo) : Type 0 where
  pub named : pair ≡ pair_info pair.pps_id pair.bin_tag_id
  pub tag : pair.bin_tag_id < s.num_bin_tags
  pub position : j ≡ pair.pps_id * s.num_bin_tags + pair.bin_tag_id
  pub active : get t pair.key ≡ some status_active

abbrev AllBuilt : Sizes → TopologyState × List PairInfo → Type 0
AllBuilt s r = (j : ℕ) (pair : PairInfo) → get_elem? r.1 j ≡ some pair → IsBuilt s r.0 j pair

length-added :
    (pairs : List PairInfo) (p : PairInfo) → length (pairs ++ p ∷ []) ≡ suc (length pairs)
length-added [] p = refl
length-added (x ∷ pairs) p = ap suc (length-added pairs p)

still_active :
    (t : TopologyState) (p b key : ℕ)
    → get t key ≡ some status_active
    → get (activate t p b) key ≡ some status_active
still_active t p b key on = get-activate t p b key ∙ ground (arith, on)

now_active :
    (t : TopologyState) (p b : ℕ) → get (activate t p b) (make_pair_key p b) ≡ some status_active
now_active t p b = get-activate t p b (make_pair_key p b) ∙ ground arith

-- The state of the loops before the round of a pair.
record Before (s : Sizes) (pps bt : ℕ) (r : TopologyState × List PairInfo) : Type 0 where
  built : AllBuilt s r
  count : length r.1 ≡ pps * s.num_bin_tags + bt

module _ (s : Sizes) where
  one_pair :
      (pps bt : ℕ) (r : TopologyState × List PairInfo)
      → bt < s.num_bin_tags
      → Before s pps bt r
      → Before s pps (suc bt) (activate r.0 pps bt, r.1 ++ pair_info pps bt ∷ [])
  one_pair pps bt r inside v = record {
    built = λ j pair at. elim (added_cases r.1 (pair_info pps bt) pair j at) [
      | inl old ↦
          let b = v.built j pair old in
          record {
            named = b.named;
            tag = b.tag;
            position = b.position;
            active = still_active r.0 pps bt pair.key b.active;
          }
      | inr (same, last) ↦ rw (← same) (record {
        named = refl;
        tag = inside;
        position = last ∙ v.count;
        active = now_active r.0 pps bt;
      })
    ];
    count = length-added r.1 (pair_info pps bt) ∙ omega (arith, v.count);
  }

  row_built :
      (pps rounds bt : ℕ) (r : TopologyState × List PairInfo)
      → bt + rounds ≡ s.num_bin_tags
      → Before s pps bt r
      → Before s pps s.num_bin_tags (activate_row pps rounds bt r)
  unfolding activate_row
  row_built pps zero bt r e v =
      let same : bt ≡ s.num_bin_tags = omega arith in subst (λ n. Before s pps n r) same v
  row_built pps (suc rounds) bt r e v =
      row_built pps rounds (suc bt) _ (omega arith) (one_pair pps bt r (omega arith) v)

  rows_built :
      (rounds pps : ℕ) (r : TopologyState × List PairInfo)
      → Before s pps 0 r
      → Before s (pps + rounds) 0 (activate_rows s rounds pps r)
  unfolding activate_rows
  rows_built zero pps r v = subst (λ n. Before s n 0 r) {x = pps} {y = pps + 0} (omega arith) v
  rows_built (suc rounds) pps r v =
      let full = row_built pps s.num_bin_tags 0 r (omega arith) v in
      let next : Before s (suc pps) 0 (activate_row pps s.num_bin_tags 0 r) = record {
        built = full.built;
        count = full.count ∙ omega arith;
      } in
      subst (λ n. Before s n 0 (activate_rows s (suc rounds) pps r)) {x = suc pps + rounds}
        {y = pps + suc rounds} (omega arith) (rows_built rounds (suc pps) _ next)

  all_built : Before s s.num_pps 0 (build_topology s)
  unfolding build_topology
  all_built =
      subst (λ n. Before s n 0 (build_topology s)) {x = 0 + s.num_pps} {y = s.num_pps} (omega arith)
        (rows_built s.num_pps 0 (new_topology_state, [])
          (record { built = λ j pair at. absurd (cc at); count = omega arith }))

below_rows : (n p q o : ℕ) → o < n → p * n + o < q * n → p < q
below_rows n p q o h k = grind arith

-- The pairs and the topology that the service starts with.
pub record IsStarted (s : Sizes) (t : TopologyState) (pairs : List PairInfo) : Type 0 where
  pub size : length pairs ≡ s.num_pps * s.num_bin_tags
  pub distinct : KeysDistinct pairs
  pub rows : (j : ℕ) (pair : PairInfo) → get_elem? pairs j ≡ some pair → pair.pps_id < s.num_pps
  pub active :
      (j : ℕ) (pair : PairInfo)
      → get_elem? pairs j ≡ some pair
      → get t pair.key ≡ some status_active

-- With at most 2^32 stations and bin tags, the loops build a pair for each station and bin tag: all have
-- distinct keys and a row in the matrix, and all are active.
pub build_topology-IsStarted :
    (s : Sizes)
    → s.num_pps ≤ 2 ^ 32
    → s.num_bin_tags ≤ 2 ^ 32
    → IsStarted s (build_topology s).0 (build_topology s).1
build_topology-IsStarted s few_rows few_tags =
    let v = all_built s in
    let row = λ (j : ℕ) (pair : PairInfo) (at : get_elem? (build_topology s).1 j ≡ some pair).
      let b = v.built j pair at in
      let inside : j < length (build_topology s).1 = lt_of_get_elem? (build_topology s).1 j at in
      below_rows s.num_bin_tags pair.pps_id s.num_pps pair.bin_tag_id b.tag
        (omega (arith, inside, v.count, b.position)) in
    record {
      size = v.count ∙ omega arith;
      distinct = λ i j p q ai aj e.
          let b = v.built i p ai in
          let c = v.built j q aj in
          let keys : make_pair_key p.pps_id p.bin_tag_id ≡ make_pair_key q.pps_id q.bin_tag_id =
            sym (ap (λ (x : PairInfo). x.key) b.named) ∙ e ∙ ap (λ (x : PairInfo). x.key) c.named in
          let (rows, tags) =
            make_pair_key-injective p.pps_id p.bin_tag_id q.pps_id q.bin_tag_id
              (omega (arith, row i p ai, few_rows)) (omega (arith, b.tag, few_tags))
              (omega (arith, row j q aj, few_rows)) (omega (arith, c.tag, few_tags)) keys in
          b.position
          ∙ ap (λ (n : ℕ). n * s.num_bin_tags + p.bin_tag_id) rows
          ∙ ap (λ (n : ℕ). q.pps_id * s.num_bin_tags + n) tags
          ∙ sym c.position;
      rows = row;
      active = λ j pair at. (v.built j pair at).active;
    }
