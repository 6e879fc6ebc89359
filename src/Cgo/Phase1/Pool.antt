-- ===== src/Cgo/Phase1/Pool.antt =====
-- The goroutine pool of Phase 1 of the cgo variant updates the matrix as that of the pure variant.
use priority_service_poc.Base.{
  ℕ, zero, suc, ◌+◌, ◌-◌, ◌≤◌, ◌<◌, ◌≡◌, refl, inl, inr, List, arith, length, min, ltb, Bool-cases,
  ◌∙◌, sym,
}
use priority_service_poc.Base.Int.{ℤ}
use priority_service_poc.Base.Run.{Returns-value}
use priority_service_poc.Types.{Sizes}
use priority_service_poc.Matrix.{PpsMatrix, IsShaped}
use priority_service_poc.Phase1.{start_workers, update_matrix, div_up, worker_count}
use priority_service_poc.Phase1.Rows.{update_rows-IsUpdated}
use priority_service_poc.Cgo.Scoring.Kernel.{All, Modest, IsShort, IsUpdated-IsShort}
use priority_service_poc.Cgo.Scoring.Live.{live, live_run, c_update_row_range-live}
use priority_service_poc.Cgo.Registry.Refinement.{bind_assoc, bind_cong}
use priority_service_poc.Cgo.Phase1.{
  start_workers as cgo_start_workers, update_matrix as cgo_update_matrix,
}

module _ (s : Sizes) (int_overflow : ℤ → ℤ) (delta : List ℤ) (full : length delta ≡ s.num_orders)
    (modest : All Modest delta) (some_order : 0 < s.num_orders) where
  start_workers-live :
      (fuel per start : ℕ) (m : PpsMatrix)
      → IsShaped s m
      → IsShort s m
      → cgo_start_workers s int_overflow delta fuel per start (live m)
        ≡ live_run (start_workers s delta fuel per start m)
  unfolding cgo_start_workers start_workers
  start_workers-live zero per start m shaped short = refl
  start_workers-live (suc fuel) per start m shaped short = elim (Bool-cases (ltb start m.num_pps)) [
    | inr done ↦ rw done refl
    | inl more ↦
        let rounds = min (start + per) m.num_pps - start in
        let fits : start + rounds ≤ m.num_pps = ground arith in
        let (m1, ran, u) =
          Returns-value (update_rows-IsUpdated s delta full rounds start m shaped fits) in
        rw more (
          rw
            (
              c_update_row_range-live s delta full int_overflow modest m start rounds some_order
                  shaped short fits,
              ran,
            )
            (start_workers-live fuel per (start + per) m1 u.shaped
              (IsUpdated-IsShort s m m1 short u)))
  ]

  -- With scores that are int16 and deltas that keep every sum within an int32, the pool of the cgo
  -- variant, which hands its rows to the kernel, does on a matrix that is not freed what the pool of the
  -- pure variant does, with any number of workers and whatever the kernel makes of an overflow.
  pub update_matrix-live :
      (num_workers : ℤ) (m : PpsMatrix)
      → IsShaped s m
      → IsShort s m
      → cgo_update_matrix s int_overflow num_workers delta (live m)
        ≡ live_run (update_matrix s num_workers delta m)
  unfolding cgo_update_matrix update_matrix
  update_matrix-live num_workers m shaped short =
      let shares = div_up m.num_pps (worker_count s num_workers m.num_pps) in
      bind_cong shares _ _ (λ per. start_workers-live (suc m.num_pps) per 0 m shaped short)
      ∙ sym (bind_assoc shares _ _)
