-- ===== src/Cgo/Rank/Outside.antt =====
-- A pair without a row in the matrix: its first entry is read outside the allocation.
use priority_service_poc.Base.{
  ℕ, zero, suc, ◌+◌, ◌*◌, ◌≤◌, ◌<◌, ◌≡◌, refl, inl, inr, List, [], ◌∷◌, some, true, false, arith,
  length, get_elem?, get_elem?-get_or, leb, ltb, Bool-cases,
}
use priority_service_poc.Base.Int.{ℤ, wrap64, ◌+ℤ◌}
use priority_service_poc.Base.Run.{panic, Never, Never-first, Never-step, load, load-ok}
use priority_service_poc.Cgo.Registry.Ranges.{load-panic}
use priority_service_poc.Types.{Sizes, PairInfo, OrderMeta, critical_cutoff}
use priority_service_poc.Types.Runtime.{Runtime}
use priority_service_poc.Buffer.{ReadBuffer}
use priority_service_poc.Indexes.Counts.{list_of}
use priority_service_poc.Registry.{OrderStore, zero_meta}
use priority_service_poc.Rank.{WorkerScratch, empty_scratch}
use priority_service_poc.Rank.Pass.{meta_of}
use priority_service_poc.Cgo.Scoring.{read_row}
use priority_service_poc.Cgo.Registry.Refinement.{live_store}
use priority_service_poc.Cgo.Rank.{fill_scratch, rank_pair}
use priority_service_poc.Cgo.Rank.Pass.{row_view}
use priority_service_poc.Cgo.Rank.Pair.{IsRankable}

-- An order of the list that is in range and active.
pub record HasActive (s : Sizes) (meta : List OrderMeta) (eligible : List ℕ) : Type 0 where
  pub index : ℕ
  pub order : ℕ
  pub at : get_elem? eligible index ≡ some order
  pub known : order < s.num_orders
  pub active : (meta_of meta order).active ≡ true

read_row-panic :
    (cells : List ℤ) (start n oid : ℕ)
    → length cells ≤ start
    → read_row (row_view cells start n) oid ≡ panic
unfolding read_row
read_row-panic cells start n oid out = elim (Bool-cases (ltb oid n)) [
  | inl inside ↦ rw (inside, load-panic cells (start + oid) (omega arith)) refl
  | inr past ↦ rw past refl
]

module _ (s : Sizes) (now_secs crit_deadline : ℤ) (meta : List OrderMeta) (cells : List ℤ)
    (start : ℕ) (slots : length meta ≡ s.num_orders) (out : length cells ≤ start) where
  fill_scratch-Never :
      (eligible : List ℕ) (sc : WorkerScratch) (index order : ℕ)
      → get_elem? eligible index ≡ some order
      → order < s.num_orders
      → (meta_of meta order).active ≡ true
      → Never (
          fill_scratch s now_secs crit_deadline meta
            (row_view cells start s.num_orders)
            eligible
            sc)
  unfolding fill_scratch
  fill_scratch-Never [] sc index order at inside active = absurd (cc at)
  fill_scratch-Never (oid ∷ eligible) sc zero order at inside active =
      let same : oid ≡ order = cc at in
      let low : leb s.num_orders order ≡ false = ground arith in
      let hit : order < length meta = omega arith in
      rw
        (
          same,
          low,
          load-ok meta order (get_elem?-get_or meta order zero_meta hit),
          active,
          read_row-panic cells start s.num_orders order out,
        )
        (λ r. cc)
  fill_scratch-Never (oid ∷ eligible) sc (suc i) order at inside active =
      elim (Bool-cases (leb s.num_orders oid)) [
        | inl skip ↦ rw skip (fill_scratch-Never eligible sc i order at inside active)
        | inr visit ↦ rw visit (
            Never-step (load meta oid) _ λ m. elim (Bool-cases m.active) [
              | inr off ↦ rw off (fill_scratch-Never eligible sc i order at inside active)
              | inl on ↦ rw (on, read_row-panic cells start s.num_orders oid out) (λ r. cc)
            ])
      ]

pub rank_pair-Never :
    (s : Sizes) (rt : Runtime) (st : OrderStore) (now_secs : ℤ) (p : ℕ) (pair : PairInfo)
    (b : ReadBuffer) (sc : WorkerScratch)
    → IsRankable s st
    → st.matrix.num_pps ≤ pair.pps_id
    → HasActive s st.registry.meta (list_of pair.bin_tag_id st.indexes.bin_tag_to_orders)
    → Never (rank_pair s rt (live_store st) now_secs p pair b sc)
unfolding rank_pair
rank_pair-Never s rt st now_secs p pair b sc v out found =
    let crit = wrap64 (now_secs +ℤ critical_cutoff) in
    let start = pair.pps_id * s.num_orders in
    let eligible = list_of pair.bin_tag_id st.indexes.bin_tag_to_orders in
    let past : length st.matrix.scores ≤ start = rw v.shaped (grind arith) in
    Never-first
      (fill_scratch s now_secs crit st.registry.meta (row_view st.matrix.scores start s.num_orders)
        eligible empty_scratch)
      _
      (fill_scratch-Never s now_secs crit st.registry.meta st.matrix.scores start v.slots past
        eligible empty_scratch found.index found.order found.at found.known found.active)
