-- ===== src/Examples/Selection.antt =====
-- Quickselect and the ranked lists, on a few entries.
use priority_service_poc.Base.{
  ℕ, ◌≡◌, refl, List, [], ◌∷◌, Perm, take, replicate, arith, ◌++◌, true,
}
use priority_service_poc.Base.Int.{ℤ, pos, negsuc}
use priority_service_poc.Base.Run.{Run, ok, Returns}
use priority_service_poc.Types.{ScoreEntry}
use priority_service_poc.Buffer.{empty_slot}
use priority_service_poc.Select.{quickselect_top_k, partition_desc}
use priority_service_poc.Select.Segment.{Rearranged}
use priority_service_poc.Select.Partition.{IsPartitioned, partition_desc-IsPartitioned}
use priority_service_poc.Select.TopK.{IsTopK, quickselect_top_k-IsTopK}
use priority_service_poc.Rank.{fill_scratch, quickselect_and_copy, empty_scratch}
use priority_service_poc.Rank.Lists.{IsRanked, quickselect_and_copy-IsRanked}
use priority_service_poc.Rank.Pass.{Table, list_for, pass, fill_scratch-pass}
use priority_service_poc.Cgo.Rank.{quickselect_top_k as cgo_quickselect_top_k}
use priority_service_poc.Cgo.Rank.Lists.{IsSplit, quickselect_top_k-IsSplit}
use priority_service_poc.Examples.Sorting.{sample_runtime}
use priority_service_poc.Examples.Data.{small, two_orders}

abbrev scored : ℕ → ℤ → ScoreEntry
scored id score = record { score = score; order_id = pos id }

abbrev entries : List ScoreEntry
entries = scored 0 (pos 3) ∷ scored 1 (pos 9) ∷ scored 2 (negsuc 4) ∷ scored 3 (pos 7) ∷ []

quickselect_run :
    quickselect_top_k sample_runtime entries 2
    ≡ ok (scored 1 (pos 9) ∷ scored 3 (pos 7) ∷ scored 2 (negsuc 4) ∷ scored 0 (pos 3) ∷ [])
unfolding quickselect_top_k priority_service_poc.Base.Run.load
    priority_service_poc.Base.Int.pos_part priority_service_poc.Base.Int.neg_part
    priority_service_poc.Base.Run.store priority_service_poc.Examples.Sorting.sort_entries
quickselect_run = refl

quickselect_top_k-IsTopK_example :
    Returns
      (λ e'. Perm e' entries × IsTopK 2 entries (take 2 e'))
      (quickselect_top_k sample_runtime entries 2)
quickselect_top_k-IsTopK_example =
    quickselect_top_k-IsTopK sample_runtime entries 2 (omega arith) (omega arith)

quickselect_top_k-IsSplit_example :
    Returns (λ e'. Perm e' entries × IsSplit 2 e') (cgo_quickselect_top_k entries 2)
quickselect_top_k-IsSplit_example = quickselect_top_k-IsSplit entries 2

partition_desc-IsPartitioned_example :
    Returns
      (λ r. IsPartitioned 1 3 r.0 r.1 × Rearranged 1 3 entries r.1)
      (partition_desc entries 1 3)
partition_desc-IsPartitioned_example =
    partition_desc-IsPartitioned entries 1 3 (omega arith) (omega arith)

quickselect_and_copy-IsRanked_example :
    Returns
      (λ r. IsRanked small.top_k entries r.0)
      (quickselect_and_copy small sample_runtime (empty_slot ∷ empty_slot ∷ []) entries)
quickselect_and_copy-IsRanked_example =
    quickselect_and_copy-IsRanked small sample_runtime entries (empty_slot ∷ empty_slot ∷ []) refl

abbrev sample_row : List ℤ
sample_row = pos 50 ∷ pos 25 ∷ pos 0 ∷ []

fill_scratch-pass_example :
    Returns
      (λ sc'.
        (table : Table)
        → list_for table sc'
          ≡ list_for table empty_scratch
            ++ pass (pos 3_000) (pos 4_800) table two_orders.registry.meta sample_row (0 ∷ 1 ∷ []))
      (fill_scratch
        (pos 3_000)
        (pos 4_800)
        two_orders.registry.meta
        sample_row
        (0 ∷ 1 ∷ [])
        empty_scratch)
fill_scratch-pass_example =
    fill_scratch-pass (pos 3_000) (pos 4_800) two_orders.registry.meta sample_row (0 ∷ 1 ∷ [])
      empty_scratch (omega arith, (omega arith, tt)) refl
