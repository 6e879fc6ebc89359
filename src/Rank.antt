-- ===== src/Rank.antt =====
-- go-pure-impl/compute.go: Phase 2, from the eligible orders of a pair to its four ranked lists.
pub mod Lists
pub mod Pass
pub mod Prefix
pub mod Write
pub mod Pair
use priority_service_poc.Base.{
  ℕ, zero, suc, ◌+◌, ◌-◌, ◌%◌, List, [], ◌∷◌, ◌++◌, Bool, not, ◌&&◌, ◌||◌, Option, none, some,
  length, take, drop, min, ltb, leb, ◌==◌, if◌then◌else◌,
}
use priority_service_poc.Base.Int.{ℤ, pos, ◌+ℤ◌, ◌-ℤ◌, geb_ℤ, gtb_ℤ, wrap32, wrap64}
use priority_service_poc.Base.Run.{Run, ok, panic, ◌>>=◌, load, store}
use priority_service_poc.Base.Dict.{lookup_or}
use priority_service_poc.Types.{
  Sizes, OrderMeta, PairInfo, ScoreEntry, tbl_heuristic, tbl_large, tbl_pbt, tbl_critical,
  critical_cutoff,
}
use priority_service_poc.Types.Float.{float_ge, large_qty_threshold}
use priority_service_poc.Types.Runtime.{Runtime}
use priority_service_poc.Matrix.{PpsMatrix, row}
use priority_service_poc.Buffer.{ReadBuffer, list_mut, put_list}
use priority_service_poc.Topology.{TopologyState, PairStatus, get, is_removed}
use priority_service_poc.Indexes.{InvertedIndexes}
use priority_service_poc.Registry.{OrderStore}
use priority_service_poc.Select.{quickselect_top_k}

pub record WorkerScratch : Type 0 where
  pub heuristic : List ScoreEntry
  pub large : List ScoreEntry
  pub pbt : List ScoreEntry
  pub critical : List ScoreEntry

abbrev pub empty_scratch : WorkerScratch
empty_scratch = record { heuristic = []; large = []; pbt = []; critical = [] }

-- `dst[i] = scratch[i].orderID` for the rounds that are left.
unfoldable pub copy_ids : ℕ → ℕ → List ScoreEntry → List ℤ → Run (List ℤ)
copy_ids zero i scratch dst = ok dst
copy_ids (suc rounds) i scratch dst = do
  x ← load scratch i
  dst' ← store dst i x.order_id
  copy_ids rounds (suc i) scratch dst'

-- Returns `dst` and `scratch` as the call leaves them.
unfoldable pub quickselect_and_copy :
    Sizes → Runtime → List ℤ → List ScoreEntry → Run (List ℤ × List ScoreEntry)
unfolding copy_ids
quickselect_and_copy s rt dst scratch =
    let k = min (length scratch) s.top_k in
    let fill : Run (List ℤ × List ScoreEntry) = do
      selected ← quickselect_top_k rt scratch k
      let sorted =
          if leb (length scratch) k
          then rt.sort_desc (take k selected) ++ drop k selected
          else selected
      dst' ← copy_ids k 0 sorted dst
      ok (dst', sorted)
    in if k == 0 then ok (dst, scratch) else fill

-- One turn of the single pass, for an active order with this score.
unfoldable pub add_entries : ℤ → ℤ → OrderMeta → ℤ → ℕ → WorkerScratch → WorkerScratch
add_entries now_secs crit_deadline m score oid sc =
    let scored : ScoreEntry = record { score = score; order_id = wrap32 (pos oid) } in
    let dl : ScoreEntry = record {
      score = wrap32 (wrap64 (now_secs -ℤ m.pbt_deadline));
      order_id = wrap32 (pos oid);
    } in
    record {
      heuristic = sc.heuristic ++ scored ∷ [];
      large =
          if float_ge m.required_qty large_qty_threshold then sc.large ++ scored ∷ [] else sc.large;
      pbt = if gtb_ℤ m.pbt_deadline (pos 0) then sc.pbt ++ dl ∷ [] else sc.pbt;
      critical =
          if gtb_ℤ m.pbt_deadline (pos 0) && geb_ℤ crit_deadline m.pbt_deadline
          then sc.critical ++ dl ∷ []
          else sc.critical;
    }

-- The single pass over the eligible orders.
unfoldable pub fill_scratch :
    ℤ → ℤ → List OrderMeta → List ℤ → List ℕ → WorkerScratch → Run WorkerScratch
unfolding add_entries
fill_scratch now_secs crit_deadline meta pps_row [] sc = ok sc
fill_scratch now_secs crit_deadline meta pps_row (oid ∷ eligible) sc = do
  m ← load meta oid
  let skip = fill_scratch now_secs crit_deadline meta pps_row eligible sc
  let take_in = load pps_row oid >>= λ score.
      fill_scratch now_secs crit_deadline meta pps_row eligible
        (add_entries now_secs crit_deadline m score oid sc)
  if not m.active then skip else take_in

-- The fallback for a bin tag with no orders: all active ones, by identifier.
unfoldable pub all_active : List OrderMeta → ℕ → List ℕ
all_active [] oid = []
all_active (m ∷ meta) oid =
    let rest = all_active meta (suc oid) in if m.active then oid ∷ rest else rest

unfoldable pub eligible_orders : OrderStore → ℕ → List ℕ
unfolding all_active
eligible_orders st bin_tag_id =
    let listed = lookup_or bin_tag_id [] st.indexes.bin_tag_to_orders in
    if length listed == 0 then all_active st.registry.meta 0 else listed

-- PPS identifiers are 1-based. Go's `%` panics on zero.
unfoldable pub pps_row_idx : PpsMatrix → ℕ → Run ℕ
pps_row_idx m pps_id =
    if pps_id == 0 || leb m.num_pps (pps_id - 1)
    then (if m.num_pps == 0 then panic else ok (pps_id % m.num_pps))
    else ok (pps_id - 1)

-- quickselectAndCopy: `dst` and the scratch as a call leaves them.
abbrev pub SelectAndCopy : Type 0
SelectAndCopy = List ℤ → List ScoreEntry → Run (List ℤ × List ScoreEntry)

-- `select_and_copy(buf.ListMut(p, table), scratch)`: the buffer and the scratch afterwards.
unfoldable pub write_list :
    Sizes
    → SelectAndCopy
    → ℕ
    → ℕ
    → ReadBuffer
    → List ScoreEntry
    → Run (ReadBuffer × List ScoreEntry)
write_list s select_and_copy p table buf scratch = do
  dst ← list_mut s buf p table
  (dst', scratch') ← select_and_copy dst scratch
  ok (put_list s buf p table dst', scratch')

-- The four calls at the end of the loop body.
unfoldable pub write_lists :
    Sizes → SelectAndCopy → ℕ → ReadBuffer → WorkerScratch → Run (ReadBuffer × WorkerScratch)
unfolding write_list
write_lists s select_and_copy p buf sc = do
  (b1, heuristic) ← write_list s select_and_copy p tbl_heuristic buf sc.heuristic
  (b2, large) ← write_list s select_and_copy p tbl_large b1 sc.large
  (b3, pbt) ← write_list s select_and_copy p tbl_pbt b2 sc.pbt
  (b4, critical) ← write_list s select_and_copy p tbl_critical b3 sc.critical
  ok (b4, record { heuristic = heuristic; large = large; pbt = pbt; critical = critical })

-- `if ok && status == StatusRemoved { continue }`, and what follows.
unfoldable pub unless_removed {ℓ} : {A : Type ℓ} → Option PairStatus → A → A → A
unless_removed none skip go = go
unless_removed (some status) skip go = if is_removed status then skip else go

-- The body of a worker's loop for the pair at index `p`. A removed pair is skipped: its lists stay
-- empty and the scratch as it was.
unfoldable pub rank_pair :
    Sizes
    → Runtime
    → OrderStore
    → TopologyState
    → ℤ
    → ℕ
    → PairInfo
    → ReadBuffer
    → WorkerScratch
    → Run (ReadBuffer × WorkerScratch)
unfolding unless_removed eligible_orders pps_row_idx fill_scratch write_lists quickselect_and_copy
rank_pair s rt st topology now_secs p pair buf sc =
    let ranked : Run (ReadBuffer × WorkerScratch) = do
      idx ← pps_row_idx st.matrix pair.pps_id
      pps_row ← row s st.matrix idx
      let eligible = eligible_orders st pair.bin_tag_id
      let crit_deadline = wrap64 (now_secs +ℤ critical_cutoff)
      sc' ← fill_scratch now_secs crit_deadline st.registry.meta pps_row eligible empty_scratch
      write_lists s (quickselect_and_copy s rt) p buf sc'
    in unless_removed (get topology pair.key) (ok (buf, sc)) ranked
