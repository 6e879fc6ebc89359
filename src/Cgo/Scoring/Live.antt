-- ===== src/Cgo/Scoring/Live.antt =====
-- As long as the matrix is not freed, the calls of the kernel do what the pure variant does in Go.
use mathlib.Core.Path.{fun_ext}
use priority_service_poc.Base.{
  ℕ, zero, suc, ◌+◌, ◌*◌, ◌≤◌, ◌<◌, ◌≡◌, refl, sym, ap, ◌∙◌, List, some, arith, length, leb, ◌==◌,
  ◌||◌, false, Bool-cases, inl, inr,
}
use priority_service_poc.Base.Int.{ℤ, pos}
use priority_service_poc.Base.Run.{
  Run, ok, panic, out_of_fuel, ◌>>=◌, store, Returns-at, Returns-value,
}
use priority_service_poc.Base.Slices.{splice, slice-ok, length-slice}
use priority_service_poc.Types.{Sizes}
use priority_service_poc.Matrix.{PpsMatrix, IsShaped, row, write_column, write_order, evict_scores}
use priority_service_poc.Phase1.{update_row, update_rows}
use priority_service_poc.Phase1.Rows.{
  updated, row_at, row_inside, update_row-IsUpdated, update_rows-IsUpdated,
  apply_delta_to_row-updated,
}
use priority_service_poc.Cgo.Scoring.{
  PpsMatrix as CgoMatrix, update_all_scores, evict_order_scores, evict_order, c_update_row_range,
}
use priority_service_poc.Cgo.Scoring.Kernel.{
  All, Modest, IsShort, IsShort-row, IsUpdated-IsShort, update_cells-updated,
}

-- The matrix on the C heap with these scores.
abbrev pub live : PpsMatrix → CgoMatrix
live m = record { ptr = some m.scores; num_pps = m.num_pps }

abbrev pub live_run : Run PpsMatrix → Run CgoMatrix
live_run run = run >>= λ m. ok (live m)

evict_order_scores-write_column :
    (s : Sizes) (oid rounds p : ℕ) (cells : List ℤ)
    → evict_order_scores oid s.num_orders rounds p cells ≡ write_column s rounds oid (pos 0) p cells
unfolding evict_order_scores write_column
evict_order_scores-write_column s oid zero p cells = refl
evict_order_scores-write_column s oid (suc rounds) p cells =
    ap (λ (next : List ℤ → Run (List ℤ)). store cells (p * s.num_orders + oid) (pos 0) >>= next)
      (fun_ext λ cells'. evict_order_scores-write_column s oid rounds (suc p) cells')

wrap_scores :
    (n : ℕ) (run : Run (List ℤ))
    → (run >>= λ cells. ok (record { ptr = some cells; num_pps = n }))
      ≡ live_run (run >>= λ cells. ok (record { scores = cells; num_pps = n }))
wrap_scores n panic = refl
wrap_scores n out_of_fuel = refl
wrap_scores n (ok cells) = refl

-- PPSMatrix.EvictOrder.
pub evict_order-live :
    (s : Sizes) (m : PpsMatrix) (oid : ℕ)
    → evict_order s (live m) oid ≡ live_run (evict_scores s m oid)
unfolding evict_order evict_scores write_order
evict_order-live s m oid = elim (Bool-cases (leb s.num_orders oid)) [
  | inl out ↦ rw out refl
  | inr inside ↦
      rw (inside, evict_order_scores-write_column s oid m.num_pps 0 m.scores)
        (wrap_scores m.num_pps (write_column s m.num_pps oid (pos 0) 0 m.scores))
]

module _ (s : Sizes) (delta : List ℤ) (full : length delta ≡ s.num_orders) where
  abbrev moved : PpsMatrix → ℕ → PpsMatrix
  moved m p = record m {
    scores = splice m.scores (p * s.num_orders) (updated (row_at s m p) delta);
  }

  update_row-moved :
      (m : PpsMatrix) (p : ℕ)
      → IsShaped s m
      → p < m.num_pps
      → update_row s delta m p ≡ ok (moved m p)
  unfolding update_row row
  update_row-moved m p shaped h =
      let fits = row_inside s delta full m p shaped h in
      rw
        (
          slice-ok m.scores (p * s.num_orders) s.num_orders fits,
          apply_delta_to_row-updated (row_at s m p) delta
              (full ∙ sym (length-slice m.scores (p * s.num_orders) s.num_orders fits)),
        )
        refl

  module _ (int_overflow : ℤ → ℤ) (modest : All Modest delta) where
    update_all_scores-rows :
        (rounds start p : ℕ) (m : PpsMatrix)
        → IsShaped s m
        → IsShort s m
        → start + p + rounds ≤ m.num_pps
        → update_all_scores int_overflow delta s.num_orders (start * s.num_orders) rounds p m.scores
          ≡ (update_rows s delta rounds (start + p) m >>= λ m'. ok m'.scores)
    unfolding update_all_scores update_rows
    update_all_scores-rows zero start p m shaped short h = refl
    update_all_scores-rows (suc rounds) start p m shaped short h =
        let n = s.num_orders in
        let q = start + p in
        let inside : q < m.num_pps = omega arith in
        let fits = row_inside s delta full m q shaped inside in
        let at : start * n + p * n + 0 ≡ q * n = grind arith in
        let moves = update_row-moved m q shaped inside in
        let u = Returns-at (update_row-IsUpdated s delta full m q shaped inside) moves in
        let next : start + suc p ≡ suc q = omega arith in
        rw
          (
            update_cells-updated int_overflow delta modest (start * n + p * n) n 0 m.scores
                (omega (arith, full)) (omega (arith, at, fits))
                (rw at (IsShort-row s m q short inside)),
            at,
            moves,
            sym next,
          )
          (update_all_scores-rows rounds start (suc p) (moved m q) u.shaped
            (IsUpdated-IsShort s m (moved m q) short u) (omega arith))

    -- The rows that one goroutine of Phase 1 hands to the kernel.
    pub c_update_row_range-live :
        (m : PpsMatrix) (start rounds : ℕ)
        → 0 < s.num_orders
        → IsShaped s m
        → IsShort s m
        → start + rounds ≤ m.num_pps
        → c_update_row_range s int_overflow (live m) start rounds delta
          ≡ live_run (update_rows s delta rounds start m)
    unfolding c_update_row_range update_rows
    c_update_row_range-live m start zero some_order shaped short h = refl
    c_update_row_range-live m start (suc rounds) some_order shaped short h =
        let some_delta : (suc rounds == 0 || length delta == 0) ≡ false = ground (arith, full) in
        let (m', ran, u) =
          Returns-value (update_rows-IsUpdated s delta full (suc rounds) start m shaped h) in
        let here : start + 0 ≡ start = omega arith in
        rw some_delta (
          rw
            (
              update_all_scores-rows (suc rounds) start 0 m shaped short (omega arith),
              here,
              ran,
              u.rows,
            )
            refl)
