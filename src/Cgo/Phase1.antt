-- ===== src/Cgo/Phase1.antt =====
-- go-cgo-impl/compute.go: Phase 1 of the variant with a C kernel, and the update of go-cgo-impl/mock.go.
-- The goroutines hand disjoint ranges of rows to the kernel and are joined: they run one after the
-- other here.
pub mod Pool
pub mod Delta
pub mod Done
use priority_service_poc.Base.{
  ℕ, zero, suc, ◌+◌, ◌-◌, List, [], ◌∷◌, Option, none, some, replicate, min, ltb, if◌then◌else◌,
}
use priority_service_poc.Base.Int.{ℤ, pos, ◌+ℤ◌, wrap32}
use priority_service_poc.Base.Run.{Run, ok, out_of_fuel, ◌>>=◌, load, store}
use priority_service_poc.Base.Dict.{lookup}
use priority_service_poc.Types.{Sizes}
use priority_service_poc.Types.Float.{Float32, float_sub, is_zero}
use priority_service_poc.Types.Runtime.{Runtime}
use priority_service_poc.Indexes.{InvertedIndexes}
use priority_service_poc.Phase1.{worker_count, div_up, scaled_delta}
use priority_service_poc.Cgo.Scoring.{PpsMatrix, c_update_row_range}

pub record TpidUpdate : Type 0 where
  pub tpid : ℕ
  pub old_contrib : Float32
  pub new_contrib : Float32

pub record ItemDictUpdate : Type 0 where
  pub updates : List TpidUpdate

-- `delta[oid] += d` for each order of one item type that is in range.
unfoldable pub add_in_range : Sizes → ℤ → List ℕ → List ℤ → Run (List ℤ)
add_in_range s d [] delta = ok delta
add_in_range s d (oid ∷ orders) delta =
    let skip = add_in_range s d orders delta in
    let add : Run (List ℤ) = do
      x ← load delta oid
      delta' ← store delta oid (wrap32 (x +ℤ d))
      add_in_range s d orders delta'
    in if ltb oid s.num_orders then add else skip

-- An item type that no order is listed under is skipped.
unfoldable pub add_listed : Sizes → ℤ → Option (List ℕ) → List ℤ → Run (List ℤ)
unfolding add_in_range
add_listed s d none delta = ok delta
add_listed s d (some orders) delta = add_in_range s d orders delta

abbrev pub contribution : TpidUpdate → Float32
contribution u = float_sub u.new_contrib u.old_contrib

-- The loop over the updates: one whose contribution has not changed is skipped.
unfoldable pub build_delta :
    Sizes → Runtime → InvertedIndexes → List TpidUpdate → List ℤ → Run (List ℤ)
unfolding add_listed
build_delta s rt ix [] delta = ok delta
build_delta s rt ix (u ∷ updates) delta =
    let skip = build_delta s rt ix updates delta in
    let add =
      add_listed s (scaled_delta rt (contribution u)) (lookup u.tpid ix.tpid_to_orders) delta
      >>= build_delta s rt ix updates in
    if is_zero (contribution u) then skip else add

-- The loop that starts the goroutines.
unfoldable pub start_workers : Sizes → (ℤ → ℤ) → List ℤ → ℕ → ℕ → ℕ → PpsMatrix → Run PpsMatrix
start_workers s int_overflow delta zero per_worker start m = out_of_fuel
start_workers s int_overflow delta (suc fuel) per_worker start m =
    let end = min (start + per_worker) m.num_pps in
    let next =
      c_update_row_range s int_overflow m start (end - start) delta
      >>= start_workers s int_overflow delta fuel per_worker (start + per_worker) in
    if ltb start m.num_pps then next else ok m

-- Each goroutine has one row at least, so one round more than there are rows is enough.
unfoldable pub update_matrix : Sizes → (ℤ → ℤ) → ℤ → List ℤ → PpsMatrix → Run PpsMatrix
unfolding start_workers
update_matrix s int_overflow num_workers delta m = do
  rows_per_worker ← div_up m.num_pps (worker_count s num_workers m.num_pps)
  start_workers s int_overflow delta (suc m.num_pps) rows_per_worker 0 m

unfoldable pub phase1_list :
    Sizes → Runtime → (ℤ → ℤ) → ℤ → InvertedIndexes → List TpidUpdate → PpsMatrix → Run PpsMatrix
unfolding build_delta update_matrix
phase1_list s rt int_overflow num_workers ix [] m = ok m
phase1_list s rt int_overflow num_workers ix (u ∷ updates) m =
    build_delta s rt ix (u ∷ updates) (replicate s.num_orders (pos 0)) >>= λ delta.
    update_matrix s int_overflow num_workers delta m

unfoldable pub phase1_update :
    Sizes
    → Runtime
    → (ℤ → ℤ)
    → ℤ
    → InvertedIndexes
    → Option ItemDictUpdate
    → PpsMatrix
    → Run PpsMatrix
unfolding phase1_list
phase1_update s rt int_overflow num_workers ix none m = ok m
phase1_update s rt int_overflow num_workers ix (some update) m =
    phase1_list s rt int_overflow num_workers ix update.updates m
