-- ===== src/Rank/Pair.antt =====
-- The body of the loop of Phase 2, for one pair.
use priority_service_poc.Rank.Lists.{quickselect_and_copy-IsRanked}
use native.Mathlib.Nat.{mod-lt}
use mathlib.Core.Path.{fun_ext}
use priority_service_poc.Indexes.Counts.{list_of}
use priority_service_poc.Base.{
  subst, ℕ, suc, ◌+◌, ◌*◌, ◌-◌, ◌%◌, ◌≤◌, ◌<◌, ◌≡◌, ◌≢◌, refl, sym, ◌∙◌, inl, inr, List, [], ◌∷◌,
  ◌||◌, Option, none, some, arith, length, take, drop, leb, ◌==◌, if◌then◌else◌, Bool-cases,
}
use priority_service_poc.Base.Int.{ℤ, ◌+ℤ◌, wrap64}
use priority_service_poc.Base.Run.{ok, Returns, Returns-bind, Returns-mono}
use priority_service_poc.Base.Slices.{slice-ok, length-slice}
use priority_service_poc.Types.{OrderMeta, Sizes, PairInfo, ScoreEntry, critical_cutoff, num_tables}
use priority_service_poc.Types.Runtime.{Runtime}
use priority_service_poc.Matrix.{PpsMatrix, row, IsShaped}
use priority_service_poc.Buffer.{ReadBuffer, IsSized}
use priority_service_poc.Topology.{
  TopologyState, PairStatus, status_active, status_warming_up, status_removed, get,
}
use priority_service_poc.Registry.{OrderStore}
use priority_service_poc.Rank.{
  WorkerScratch, empty_scratch, eligible_orders, pps_row_idx, rank_pair, all_active, unless_removed,
  quickselect_and_copy,
}
use priority_service_poc.Rank.Pass.{
  Table, heuristic, large, pbt, critical, pass, list_for, AllBelow, fill_scratch-pass,
}
use priority_service_poc.Rank.Write.{IsBlank, WroteLists, write_lists-WroteLists}

-- What Phase 2 relies on: array sizes, at least one row, and bin tags that list known orders only.
pub record IsRankable (s : Sizes) (st : OrderStore) : Type 0 where
  pub shaped : IsShaped s st.matrix
  pub rows : 0 < st.matrix.num_pps
  pub slots : length st.registry.meta ≡ s.num_orders
  pub listed : (bin_tag : ℕ) → AllBelow s.num_orders (list_of bin_tag st.indexes.bin_tag_to_orders)

-- The matrix row of a PPS: its identifier less one, or the identifier modulo the number of rows.
unfoldable pub row_index : PpsMatrix → ℕ → ℕ
row_index m pps_id =
    if pps_id == 0 || leb m.num_pps (pps_id - 1) then pps_id % m.num_pps else pps_id - 1

abbrev pub row_of : Sizes → PpsMatrix → ℕ → List ℤ
row_of s m pps_id = take s.num_orders (drop (row_index m pps_id * s.num_orders) m.scores)

-- The entries that a table ranks for a pair.
abbrev pub pair_entries : Sizes → OrderStore → ℤ → PairInfo → Table → List ScoreEntry
pair_entries s st now_secs pair t =
    pass now_secs (wrap64 (now_secs +ℤ critical_cutoff)) t st.registry.meta
      (row_of s st.matrix pair.pps_id) (eligible_orders st pair.bin_tag_id)

row_index-lt : (m : PpsMatrix) (pps_id : ℕ) → 0 < m.num_pps → row_index m pps_id < m.num_pps
unfolding row_index
row_index-lt m pps_id h = ground (arith, mod-lt pps_id h)

pps_row_idx-ok :
    (m : PpsMatrix) (pps_id : ℕ) → 0 < m.num_pps → pps_row_idx m pps_id ≡ ok (row_index m pps_id)
unfolding pps_row_idx row_index
pps_row_idx-ok m pps_id h = ground arith

row_fits :
    (s : Sizes) (m : PpsMatrix) (i : ℕ)
    → IsShaped s m
    → i < m.num_pps
    → i * s.num_orders + s.num_orders ≤ length m.scores
row_fits s m i shaped h = rw shaped (grind arith)

all_active-AllBelow :
    (meta : List OrderMeta) (i n : ℕ) → i + length meta ≤ n → AllBelow n (all_active meta i)
unfolding all_active
all_active-AllBelow [] i n h = tt
all_active-AllBelow (m ∷ meta) i n h = elim (Bool-cases m.active) [
  | inl on ↦ rw on (omega arith, all_active-AllBelow meta (suc i) n (omega arith))
  | inr off ↦ rw off (all_active-AllBelow meta (suc i) n (omega arith))
]

eligible_orders-AllBelow :
    (s : Sizes) (st : OrderStore) (bin_tag : ℕ)
    → IsRankable s st
    → AllBelow (length st.registry.meta) (eligible_orders st bin_tag)
unfolding eligible_orders
eligible_orders-AllBelow s st bin_tag v =
    elim (Bool-cases (length (list_of bin_tag st.indexes.bin_tag_to_orders) == 0)) [
      | inl fallback ↦
          rw fallback
            (all_active-AllBelow st.registry.meta 0 (length st.registry.meta) (omega arith))
      | inr listed ↦ rw (listed, v.slots) (v.listed bin_tag)
    ]

pub list_for-empty : (t : Table) → list_for t empty_scratch ≡ []
list_for-empty heuristic = refl
list_for-empty large = refl
list_for-empty pbt = refl
list_for-empty critical = refl

unless_removed-go {ℓ} :
    {A : Type ℓ} (status : Option PairStatus) (skip go : A)
    → status ≢ some status_removed
    → unless_removed status skip go ≡ go
unfolding unless_removed
unless_removed-go none skip go h = refl
unless_removed-go (some status_active) skip go h = refl
unless_removed-go (some status_warming_up) skip go h = refl
unless_removed-go (some status_removed) skip go h = absurd (h refl)

module _ (s : Sizes) (rt : Runtime) (st : OrderStore) (topology : TopologyState) (now_secs : ℤ)
    (p : ℕ) (pair : PairInfo) (b : ReadBuffer) (sc : WorkerScratch) where
  -- A removed pair is skipped.
  pub rank_pair-removed :
      get topology pair.key ≡ some status_removed
      → rank_pair s rt st topology now_secs p pair b sc ≡ ok (b, sc)
  unfolding rank_pair
  rank_pair-removed e = rw e

  -- Any other pair gets its four rankings, and no other list changes.
  pub rank_pair-WroteLists :
      get topology pair.key ≢ some status_removed
      → IsRankable s st
      → IsSized s b
      → p < b.num_pairs
      → IsBlank s b p
      → Returns
          (λ r. WroteLists s p num_tables (pair_entries s st now_secs pair) b r.0)
          (rank_pair s rt st topology now_secs p pair b sc)
  unfolding rank_pair
  rank_pair-WroteLists here v sized hp blank =
      let idx = row_index st.matrix pair.pps_id in
      let fits = row_fits s st.matrix idx v.shaped (row_index-lt st.matrix pair.pps_id v.rows) in
      let row_ok : row s st.matrix idx ≡ ok (row_of s st.matrix pair.pps_id) =
        unfold row in slice-ok st.matrix.scores (idx * s.num_orders) s.num_orders fits in
      rw
        (
          unless_removed-go (get topology pair.key) _ _ here,
          pps_row_idx-ok st.matrix pair.pps_id v.rows,
          row_ok,
        )
        (Returns-bind
          (fill_scratch-pass now_secs (wrap64 (now_secs +ℤ critical_cutoff)) st.registry.meta
            (row_of s st.matrix pair.pps_id) (eligible_orders st pair.bin_tag_id) empty_scratch
            (eligible_orders-AllBelow s st pair.bin_tag_id v)
            (length-slice st.matrix.scores (idx * s.num_orders) s.num_orders fits ∙ sym v.slots))
          λ sc' filled.
            Returns-mono
              (λ r w.
                subst (λ f. WroteLists s p num_tables f b r.0)
                  (fun_ext λ t. filled t ∙ rw (list_for-empty t)) w)
              (write_lists-WroteLists s (quickselect_and_copy s rt) p b sc'
                (quickselect_and_copy-IsRanked s rt) sized hp blank))
