-- ===== src/Phase2/Stuck.antt =====
-- Phase 2 does not return if its body does not for one of the pairs.
use priority_service_poc.Base.{
  ℕ, zero, suc, ◌+◌, ◌*◌, ◌-◌, ◌≤◌, ◌<◌, ◌≡◌, ap, inl, inr, List, some, arith, length, get_elem?,
  min, leb, ◌==◌, Bool-cases, lt_of_get_elem?, eq_of_==, false,
}
use native.Mathlib.Decide.{dec_lt}
use priority_service_poc.Base.Int.{ℤ}
use priority_service_poc.Base.Run.{Never, Never-first, Never-step, Returns-value, load, load-ok}
use priority_service_poc.Types.{Sizes, PairInfo}
use priority_service_poc.Buffer.{ReadBuffer, new_read_buffer}
use priority_service_poc.Rank.{WorkerScratch}
use priority_service_poc.Phase1.{worker_count}
use priority_service_poc.Phase1.Share.{worker_count_bounds, div_up-cover}
use priority_service_poc.Phase2.{
  RankOne, rank_range, run_worker, run_workers, ensure_scratch, rank_all,
}

module _ (rank : RankOne) (pairs : List PairInfo) (j : ℕ) (pair : PairInfo)
    (at : get_elem? pairs j ≡ some pair)
    (stuck : (buf : ReadBuffer) (sc : WorkerScratch) → Never (rank j pair buf sc)) where
  rank_range-Never :
      (rounds p : ℕ) (r : ReadBuffer × WorkerScratch)
      → p ≤ j
      → j < p + rounds
      → Never (rank_range rank pairs rounds p r)
  unfolding rank_range
  rank_range-Never zero p r lo hi = absurd (omega arith)
  rank_range-Never (suc rounds) p r lo hi = elim (Bool-cases (p == j)) [
    | inl here ↦
        let same : p ≡ j = eq_of_== p j here in
        rw (same, load-ok pairs j at) (Never-first (rank j pair r.0 r.1) _ (stuck r.0 r.1))
    | inr other ↦ Never-step (load pairs p) _ λ q.
        Never-step (rank p q r.0 r.1) _
          λ r'. rank_range-Never rounds (suc p) r' (ground (arith, other)) (omega arith)
  ]

  run_worker-Never :
      (w start end : ℕ) (state : ReadBuffer × List WorkerScratch)
      → start ≤ j
      → j < end
      → Never (run_worker rank pairs w start end state)
  unfolding run_worker
  run_worker-Never w start end state lo hi = Never-step (load state.1 w) _ λ sc.
      Never-first (rank_range rank pairs (end - start) start (state.0, sc)) _
        (rank_range-Never (end - start) start (state.0, sc) lo (omega arith))

  run_workers-Never :
      (per_worker rounds w : ℕ) (state : ReadBuffer × List WorkerScratch)
      → w * per_worker ≤ j
      → j < (w + rounds) * per_worker
      → Never (run_workers rank pairs per_worker rounds w state)
  unfolding run_workers
  run_workers-Never per zero w state lo hi =
      absurd (omega (arith, hi, ap (λ (t : ℕ). t * per) {x = w + 0} {y = w} (omega arith)))
  run_workers-Never per (suc rounds) w state lo hi =
      let n = length pairs in
      let inside : j < n = lt_of_get_elem? pairs j at in
      let more : leb n (w * per) ≡ false = ground arith in
      let next = run_workers rank pairs per rounds (suc w) in
      rw more (elim (dec_lt j (w * per + per)) [
        | yes here ↦
            Never-first (run_worker rank pairs w (w * per) (min (w * per + per) n) state) next
              (run_worker-Never w (w * per) (min (w * per + per) n) state lo (omega arith))
        | no later ↦
            Never-step (run_worker rank pairs w (w * per) (min (w * per + per) n) state) next
              λ state'. run_workers-Never per rounds (suc w) state' (omega arith) (
                omega (
                  arith,
                  hi,
                  ap (λ (t : ℕ). t * per) {x = w + suc rounds} {y = suc w + rounds} (omega arith),
                ))
      ])

  pub rank_all-Never :
      (s : Sizes) (num_workers : ℤ) (bank : List WorkerScratch)
      → 0 < s.num_workers
      → Never (rank_all s rank num_workers pairs bank)
  unfolding rank_all
  rank_all-Never s num_workers bank pool =
      let n = length pairs in
      let inside : j < n = lt_of_get_elem? pairs j at in
      let some_left : (n == 0) ≡ false = ground arith in
      let (pos_w, most) = worker_count_bounds s num_workers n pool (omega arith) in
      let num_w = worker_count s num_workers n in
      let (per, divided, (cover, pos_per)) =
        Returns-value (div_up-cover n num_w pos_w (omega arith)) in
      rw (some_left, divided)
        (run_workers-Never per num_w 0 (new_read_buffer s n, ensure_scratch num_w bank)
          (omega arith)
          (omega (
            arith,
            inside,
            cover,
            ap (λ (t : ℕ). t * per) {x = 0 + num_w} {y = num_w} (omega arith),
          )))
