-- ===== src/Cgo/Rank/Pair.antt =====
-- What Phase 2 of the cgo variant writes for a pair.
use mathlib.Core.Path.{fun_ext}
use priority_service_poc.Base.{ℕ, ◌+◌, ◌*◌, ◌≤◌, ◌<◌, ◌≡◌, sym, subst, ◌∙◌, List, arith, length}
use priority_service_poc.Base.Int.{ℤ, ◌+ℤ◌, wrap64}
use priority_service_poc.Base.Run.{Returns, Returns-bind, Returns-mono}
use priority_service_poc.Base.Slices.{length-slice}
use priority_service_poc.Types.{Sizes, PairInfo, ScoreEntry, critical_cutoff, num_tables}
use priority_service_poc.Types.Runtime.{Runtime}
use priority_service_poc.Matrix.{PpsMatrix, IsShaped}
use priority_service_poc.Buffer.{ReadBuffer, IsSized}
use priority_service_poc.Indexes.Counts.{list_of}
use priority_service_poc.Registry.{OrderStore}
use priority_service_poc.Rank.{WorkerScratch, empty_scratch}
use priority_service_poc.Rank.Pass.{Table, pass, fill_scratch-pass}
use priority_service_poc.Rank.Pair.{list_for-empty}
use priority_service_poc.Rank.Write.{IsBlank, WroteLists, write_lists-WroteLists}
use priority_service_poc.Phase1.Rows.{row_at}
use priority_service_poc.Cgo.Registry.Refinement.{live_store}
use priority_service_poc.Cgo.Rank.{rank_pair, quickselect_and_copy}
use priority_service_poc.Cgo.Rank.Lists.{quickselect_and_copy-Ranks}
use priority_service_poc.Cgo.Rank.Pass.{known, known-AllBelow, fill_scratch-known}

-- The entries that a table ranks for a pair: of the orders under the bin tag that are in range, with the
-- scores of the row that the identifier of the PPS names.
abbrev pub pair_entries : Sizes → OrderStore → ℤ → PairInfo → Table → List ScoreEntry
pair_entries s st now_secs pair t =
    pass now_secs (wrap64 (now_secs +ℤ critical_cutoff)) t st.registry.meta
      (row_at s st.matrix pair.pps_id)
      (known s.num_orders (list_of pair.bin_tag_id st.indexes.bin_tag_to_orders))

-- What Phase 2 relies on: a slot for each order and a matrix of full rows.
pub record IsRankable (s : Sizes) (st : OrderStore) : Type 0 where
  pub shaped : IsShaped s st.matrix
  pub slots : length st.registry.meta ≡ s.num_orders

row_fits :
    (s : Sizes) (m : PpsMatrix) (i : ℕ)
    → IsShaped s m
    → i < m.num_pps
    → i * s.num_orders + s.num_orders ≤ length m.scores
row_fits s m i shaped h = rw shaped (grind arith)

-- A pair whose row is in the matrix gets its four rankings, and no other list changes.
pub rank_pair-WroteLists :
    (s : Sizes) (rt : Runtime) (st : OrderStore) (now_secs : ℤ) (p : ℕ) (pair : PairInfo)
    (b : ReadBuffer) (sc : WorkerScratch)
    → IsRankable s st
    → pair.pps_id < st.matrix.num_pps
    → IsSized s b
    → p < b.num_pairs
    → IsBlank s b p
    → Returns
        (λ r. WroteLists s p num_tables (pair_entries s st now_secs pair) b r.0)
        (rank_pair s rt (live_store st) now_secs p pair b sc)
unfolding rank_pair
rank_pair-WroteLists s rt st now_secs p pair b sc v has_row sized hp blank =
    let start = pair.pps_id * s.num_orders in
    let crit = wrap64 (now_secs +ℤ critical_cutoff) in
    let eligible = list_of pair.bin_tag_id st.indexes.bin_tag_to_orders in
    let fits = row_fits s st.matrix pair.pps_id v.shaped has_row in
    rw
      (fill_scratch-known s now_secs crit st.registry.meta st.matrix.scores start eligible
        empty_scratch)
      (Returns-bind
        (fill_scratch-pass now_secs crit st.registry.meta (row_at s st.matrix pair.pps_id)
          (known s.num_orders eligible) empty_scratch
          (rw v.slots (known-AllBelow s.num_orders eligible))
          (length-slice st.matrix.scores start s.num_orders fits ∙ sym v.slots))
        λ sc' filled.
          Returns-mono
            (λ r w.
              subst (λ f. WroteLists s p num_tables f b r.0)
                (fun_ext λ t. filled t ∙ rw (list_for-empty t)) w)
            (write_lists-WroteLists s (quickselect_and_copy s rt) p b sc'
              (quickselect_and_copy-Ranks s rt) sized hp blank))
