-- ===== src/Phase1/Pool.antt =====
-- The goroutine pool of Phase 1: its ranges make up the whole matrix.
use priority_service_poc.Base.{
  ℕ, zero, suc, ◌+◌, ◌-◌, ◌≤◌, ◌<◌, ◌≡◌, subst, inl, inr, List, arith, length, min, ltb, Bool-cases,
}
use priority_service_poc.Base.Int.{ℤ}
use priority_service_poc.Base.Run.{Returns, returns, Returns-bind, Returns-mono}
use priority_service_poc.Types.{Sizes}
use priority_service_poc.Matrix.{PpsMatrix, IsShaped}
use priority_service_poc.Phase1.{start_workers, update_matrix, worker_count}
use priority_service_poc.Phase1.Share.{worker_count_bounds, div_up-cover}
use priority_service_poc.Phase1.Rows.{
  IsUpdated, IsUpdated-none, IsUpdated-append, update_rows-IsUpdated,
}

module _ (s : Sizes) (delta : List ℤ) (full : length delta ≡ s.num_orders) where
  start_workers-IsUpdated :
      (fuel per start : ℕ) (m : PpsMatrix)
      → 0 < per
      → 0 < fuel
      → m.num_pps < start + fuel
      → IsShaped s m
      → Returns
          (λ m'. IsUpdated s delta (min start m.num_pps) m.num_pps m m')
          (start_workers s delta fuel per start m)
  unfolding start_workers
  start_workers-IsUpdated zero per start m h g f shaped = absurd (omega arith)
  start_workers-IsUpdated (suc fuel) per start m h g f shaped =
      elim (Bool-cases (ltb start m.num_pps)) [
        | inr done ↦
            let past : m.num_pps ≤ start = ground arith in
            let all : min start m.num_pps ≡ m.num_pps = omega arith in
            rw (done, all) (returns (IsUpdated-none s delta full m.num_pps m shaped))
        | inl more ↦
            let below : start < m.num_pps = ground arith in
            let here : min start m.num_pps ≡ start = omega arith in
            let mid = min (start + per) m.num_pps in
            let reach : start + (mid - start) ≡ mid = omega arith in
            rw (more, here)
              (Returns-bind
                (update_rows-IsUpdated s delta full (mid - start) start m shaped (omega arith))
                λ m1 u.
                  Returns-mono
                    (λ m2 v.
                      IsUpdated-append s delta full {mid = mid} (omega arith) (omega arith)
                        (omega arith) (subst (λ hi. IsUpdated s delta start hi m m1) reach u)
                        (subst (λ n. IsUpdated s delta (min (start + per) n) n m1 m2) u.rows v))
                    (start_workers-IsUpdated fuel per (start + per) m1 h (omega arith)
                      (omega (arith, u.rows)) u.shaped))
      ]

-- For a shaped matrix with one row at least, a delta for each order slot and a service with one
-- goroutine at least, the Phase 1 pool returns, with any number of workers asked for, a matrix of the
-- same shape in which every row is the old row with each score moved by its delta and clamped.
pub update_matrix-IsUpdated :
    (s : Sizes) (num_workers : ℤ) (delta : List ℤ) (m : PpsMatrix)
    → 0 < s.num_workers
    → 0 < m.num_pps
    → IsShaped s m
    → length delta ≡ s.num_orders
    → Returns (λ m'. IsUpdated s delta 0 m.num_pps m m') (update_matrix s num_workers delta m)
unfolding update_matrix
update_matrix-IsUpdated s num_workers delta m some_worker some_row shaped full =
    let (some, most) = worker_count_bounds s num_workers m.num_pps some_worker some_row in
    Returns-bind (div_up-cover m.num_pps (worker_count s num_workers m.num_pps) some some_row)
      λ per q.
        subst
          (λ lo.
            Returns (λ m'. IsUpdated s delta lo m.num_pps m m')
              (start_workers s delta (suc m.num_pps) per 0 m))
          {x = min 0 m.num_pps} {y = 0} (omega arith)
          (start_workers-IsUpdated s delta full (suc m.num_pps) per 0 m q.1 (omega arith)
            (omega arith) shaped)
