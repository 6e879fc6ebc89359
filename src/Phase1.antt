-- ===== src/Phase1.antt =====
-- go-pure-impl/compute.go: Phase 1, the score update from the item dictionary. The goroutines own
-- disjoint ranges of rows and are joined before the phase returns: they run one after the other here.
pub mod Clamp
pub mod Share
pub mod Delta
pub mod Rows
pub mod Pool
use priority_service_poc.Base.{
  ℕ, zero, suc, ◌+◌, ◌*◌, ◌-◌, ◌/◌, List, [], ◌∷◌, Option, none, some, replicate, min, ltb, ◌==◌,
  if◌then◌else◌,
}
use priority_service_poc.Base.Int.{ℤ, pos, negsuc, pos_part, ◌+ℤ◌, geb_ℤ, gtb_ℤ, wrap32}
use priority_service_poc.Base.Run.{Run, ok, panic, out_of_fuel, ◌>>=◌, load, store}
use priority_service_poc.Base.Slices.{splice}
use priority_service_poc.Base.Dict.{lookup_or}
use priority_service_poc.Types.{Sizes}
use priority_service_poc.Types.Float.{Float32, float_mul, float_to_int32, score_scale}
use priority_service_poc.Types.Runtime.{Runtime}
use priority_service_poc.Matrix.{PpsMatrix, row}
use priority_service_poc.Indexes.{InvertedIndexes}

pub record TpidDelta : Type 0 where
  pub tpid : ℕ
  pub score_delta : Float32

pub record ItemDictUpdate : Type 0 where
  pub tpid_deltas : List TpidDelta
  pub timestamp : ℤ

unfoldable pub clamp_int16 : ℤ → ℤ
clamp_int16 v =
    if gtb_ℤ v (pos 32767) then pos 32767 else if gtb_ℤ (negsuc 32766) v then negsuc 32766 else v

-- The loop over `delta`, from the index `o` on.
unfoldable pub apply_delta_from : ℕ → List ℤ → List ℤ → Run (List ℤ)
unfolding clamp_int16
apply_delta_from o [] cells = ok cells
apply_delta_from o (d ∷ delta) cells = do
  x ← load cells o
  cells' ← store cells o (clamp_int16 (wrap32 (x +ℤ d)))
  apply_delta_from (suc o) delta cells'

unfoldable pub apply_delta_to_row : List ℤ → List ℤ → Run (List ℤ)
unfolding apply_delta_from
apply_delta_to_row cells delta = apply_delta_from 0 delta cells

-- `delta[oid] += d` for each order of one item type.
unfoldable pub add_to_orders : ℤ → List ℕ → List ℤ → Run (List ℤ)
add_to_orders d [] delta = ok delta
add_to_orders d (oid ∷ orders) delta = do
  x ← load delta oid
  delta' ← store delta oid (wrap32 (x +ℤ d))
  add_to_orders d orders delta'

unfoldable pub scaled_delta : Runtime → Float32 → ℤ
unfolding float_mul float_to_int32
scaled_delta rt score_delta = float_to_int32 rt.float_overflow (float_mul score_delta score_scale)

unfoldable pub build_delta : Runtime → InvertedIndexes → List TpidDelta → List ℤ → Run (List ℤ)
unfolding add_to_orders
build_delta rt ix [] delta = ok delta
build_delta rt ix (entry ∷ entries) delta =
    add_to_orders (scaled_delta rt entry.score_delta) (lookup_or entry.tpid [] ix.tpid_to_orders)
      delta
    >>= build_delta rt ix entries

-- `applyDeltaToRow(e.Matrix.Row(p), delta)`, which writes through the slice.
unfoldable pub update_row : Sizes → List ℤ → PpsMatrix → ℕ → Run PpsMatrix
unfolding apply_delta_to_row
update_row s delta m p = do
  cells ← row s m p
  cells' ← apply_delta_to_row cells delta
  ok (record m { scores = splice m.scores (p * s.num_orders) cells' })

-- One goroutine: the rows from `p` on, with the rounds that are left.
unfoldable pub update_rows : Sizes → List ℤ → ℕ → ℕ → PpsMatrix → Run PpsMatrix
unfolding update_row
update_rows s delta zero p m = ok m
update_rows s delta (suc rounds) p m = update_row s delta m p >>= update_rows s delta rounds (suc p)

-- The goroutine pool, limited to the number of work items; a value of at most 0 means the default.
unfoldable pub worker_count : Sizes → ℤ → ℕ → ℕ
worker_count s num_workers items =
    let num_w = if geb_ℤ (pos 0) num_workers then s.num_workers else pos_part num_workers in
    min num_w items

-- `(a + b - 1) / b`, which panics on zero.
unfoldable pub div_up : ℕ → ℕ → Run ℕ
div_up a b = if b == 0 then panic else ok ((a + b - 1) / b)

-- The loop that starts the goroutines.
unfoldable pub start_workers : Sizes → List ℤ → ℕ → ℕ → ℕ → PpsMatrix → Run PpsMatrix
unfolding update_rows
start_workers s delta zero per_worker start m = out_of_fuel
start_workers s delta (suc fuel) per_worker start m =
    let rounds = min (start + per_worker) m.num_pps - start in
    let next =
      update_rows s delta rounds start m
      >>= start_workers s delta fuel per_worker (start + per_worker) in
    if ltb start m.num_pps then next else ok m

-- Each goroutine has one row at least, so one round more than there are rows is enough.
unfoldable pub update_matrix : Sizes → ℤ → List ℤ → PpsMatrix → Run PpsMatrix
unfolding worker_count div_up start_workers
update_matrix s num_workers delta m = do
  rows_per_worker ← div_up m.num_pps (worker_count s num_workers m.num_pps)
  start_workers s delta (suc m.num_pps) rows_per_worker 0 m

unfoldable pub phase1_update :
    Sizes → Runtime → ℤ → InvertedIndexes → Option ItemDictUpdate → PpsMatrix → Run PpsMatrix
unfolding build_delta update_matrix
phase1_update s rt num_workers ix none m = ok m
phase1_update s rt num_workers ix (some update) m =
    build_delta rt ix update.tpid_deltas (replicate s.num_orders (pos 0)) >>= λ delta.
    update_matrix s num_workers delta m
