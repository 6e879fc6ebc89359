-- ===== src/Matrix.antt =====
-- go-pure-impl/types.go: PPSMatrix, a flat array of one row of int16 scores for each PPS.
pub mod Cells
use priority_service_poc.Base.{
  ℕ, zero, suc, ◌+◌, ◌*◌, ◌≡◌, List, replicate, length, leb, if◌then◌else◌,
}
use priority_service_poc.Base.Int.{ℤ, pos}
use priority_service_poc.Base.Run.{Run, ok, ◌>>=◌, store}
use priority_service_poc.Base.Slices.{slice}
use priority_service_poc.Types.{Sizes}

pub record PpsMatrix : Type 0 where
  pub scores : List ℤ
  pub num_pps : ℕ

unfoldable pub new_pps_matrix : Sizes → ℕ → PpsMatrix
new_pps_matrix s num_pps = record {
  scores = replicate (num_pps * s.num_orders) (pos 0);
  num_pps = num_pps;
}

unfoldable pub row : Sizes → PpsMatrix → ℕ → Run (List ℤ)
row s m pps_id = slice m.scores (pps_id * s.num_orders) s.num_orders

-- `for p := p; p < NumPPS; p++ { Data[p*NumOrders+oid] = v }`, with the rounds that are left.
unfoldable pub write_column : Sizes → ℕ → ℕ → ℤ → ℕ → List ℤ → Run (List ℤ)
write_column s zero oid v p cells = ok cells
write_column s (suc rounds) oid v p cells =
    store cells (p * s.num_orders + oid) v >>= write_column s rounds oid v (suc p)

unfoldable pub write_order : Sizes → PpsMatrix → ℕ → ℤ → Run PpsMatrix
unfolding write_column
write_order s m oid v =
    write_column s m.num_pps oid v 0 m.scores >>= λ cells. ok (record m { scores = cells })

unfoldable pub evict_scores : Sizes → PpsMatrix → ℕ → Run PpsMatrix
unfolding write_order
evict_scores s m order_id =
    if leb s.num_orders order_id then ok m else write_order s m order_id (pos 0)

-- The array holds one row for each PPS.
abbrev pub IsShaped : Sizes → PpsMatrix → Type 0
IsShaped s m = length m.scores ≡ m.num_pps * s.num_orders
