-- ===== src/Cgo/Rank.antt =====
-- go-cgo-impl/compute.go: what Phase 2 does for a pair in the variant with a C kernel. The pivots of
-- Quickselect, the scratch, the entries and the buffer are those of the pure variant.
pub mod Lists
pub mod Pass
pub mod Pair
pub mod Outside
use priority_service_poc.Base.{
  ℕ, zero, suc, ◌-◌, List, [], ◌∷◌, ◌++◌, not, ◌||◌, length, take, drop, min, leb, ◌==◌,
  if◌then◌else◌,
}
use priority_service_poc.Base.Int.{ℤ, ◌+ℤ◌, wrap64}
use priority_service_poc.Base.Run.{Run, ok, ◌>>=◌, load}
use priority_service_poc.Base.Dict.{lookup_or}
use priority_service_poc.Types.{Sizes, OrderMeta, PairInfo, ScoreEntry, critical_cutoff}
use priority_service_poc.Types.Runtime.{Runtime}
use priority_service_poc.Buffer.{ReadBuffer}
use priority_service_poc.Select.{select_loop}
use priority_service_poc.Rank.{WorkerScratch, empty_scratch, copy_ids, add_entries, write_lists}
use priority_service_poc.Cgo.Scoring.{RowView, row, read_row}
use priority_service_poc.Cgo.Registry.{OrderStore}

-- The loop brings the entry at index `k`, not `k - 1`, to its place, and nothing is sorted here.
unfoldable pub quickselect_top_k : List ScoreEntry → ℕ → Run (List ScoreEntry)
unfolding select_loop
quickselect_top_k e k =
    let search = select_loop (length e) k 0 (length e - 1) e in
    if k == 0 || length e == 0 then ok e else if leb (length e) k then ok e else search

-- Returns `dst` and `scratch` as the call leaves them.
unfoldable pub quickselect_and_copy :
    Sizes → Runtime → List ℤ → List ScoreEntry → Run (List ℤ × List ScoreEntry)
unfolding copy_ids
quickselect_and_copy s rt dst scratch =
    let k = min (length scratch) s.top_k in
    let fill : Run (List ℤ × List ScoreEntry) = do
      selected ← quickselect_top_k scratch k
      let sorted = rt.sort_desc (take k selected) ++ drop k selected
      dst' ← copy_ids k 0 sorted dst
      ok (dst', sorted)
    in if k == 0 then ok (dst, scratch) else fill

-- The single pass over the eligible orders. An identifier out of range is skipped.
unfoldable pub fill_scratch :
    Sizes → ℤ → ℤ → List OrderMeta → RowView → List ℕ → WorkerScratch → Run WorkerScratch
unfolding add_entries read_row
fill_scratch s now_secs crit_deadline meta pps_row [] sc = ok sc
fill_scratch s now_secs crit_deadline meta pps_row (oid ∷ eligible) sc =
    let skip = fill_scratch s now_secs crit_deadline meta pps_row eligible sc in
    let visit : Run WorkerScratch = do
      m ← load meta oid
      let take_in = read_row pps_row oid >>= λ score.
          fill_scratch s now_secs crit_deadline meta pps_row eligible
            (add_entries now_secs crit_deadline m score oid sc)
      if not m.active then skip else take_in
    in if leb s.num_orders oid then skip else visit

-- The body of a worker's loop for the pair at index `p`: the identifier of the PPS is the row, and the
-- status of the pair is not read.
unfoldable pub rank_pair :
    Sizes
    → Runtime
    → OrderStore
    → ℤ
    → ℕ
    → PairInfo
    → ReadBuffer
    → WorkerScratch
    → Run (ReadBuffer × WorkerScratch)
unfolding row fill_scratch write_lists quickselect_and_copy
rank_pair s rt st now_secs p pair buf sc = do
  pps_row ← row s st.matrix pair.pps_id
  let eligible = lookup_or pair.bin_tag_id [] st.indexes.bin_tag_to_orders
  let crit_deadline = wrap64 (now_secs +ℤ critical_cutoff)
  sc' ← fill_scratch s now_secs crit_deadline st.registry.meta pps_row eligible empty_scratch
  write_lists s (quickselect_and_copy s rt) p buf sc'
