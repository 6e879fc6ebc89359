-- ===== src/Phase2/Pool.antt =====
-- Phase 2 finishes every pair once, whatever the number of workers.
use priority_service_poc.Base.{
  ℕ, zero, suc, ◌+◌, ◌*◌, ◌-◌, ◌≤◌, ◌<◌, ◌≡◌, refl, sym, ap, subst, ◌∙◌, inl, inr, List, [], ◌∷◌,
  ◌++◌, some, arith, length, length-append, length-set, get_elem?, get_elem?-some, min, leb, ◌==◌,
  Bool-cases, leb→le, lt_of_get_elem?, eq_of_==,
}
use priority_service_poc.Base.Int.{ℤ}
use priority_service_poc.Base.Run.{Returns, returns, Returns-bind, Returns-mono, load-ok, store-ok}
use priority_service_poc.Types.{Sizes, PairInfo}
use priority_service_poc.Buffer.{ReadBuffer, new_read_buffer, IsSized}
use priority_service_poc.Buffer.Slots.{new_read_buffer-IsSized, new_read_buffer-blank}
use priority_service_poc.Rank.{WorkerScratch, empty_scratch}
use priority_service_poc.Phase1.{worker_count}
use priority_service_poc.Phase1.Share.{worker_count_bounds, div_up-cover}
use priority_service_poc.Phase2.{
  RankOne, run_worker, run_workers, grow_scratch, ensure_scratch, rank_all,
}
use priority_service_poc.Phase2.Range.{PairRanking, Progress, rank_range-Progress}

module _ (s : Sizes) (rank : RankOne) (pairs : List PairInfo) (r : PairRanking s rank pairs) where
  run_worker-Progress :
      (w start end : ℕ) (buf : ReadBuffer) (bank : List WorkerScratch)
      → start ≤ end
      → end ≤ length pairs
      → w < length bank
      → Progress s pairs r.Done start buf
      → Returns
          (λ x. Progress s pairs r.Done end x.0 × (length x.1 ≡ length bank))
          (run_worker rank pairs w start end (buf, bank))
  unfolding run_worker
  run_worker-Progress w start end buf bank h k hw g =
      let (sc, at) = get_elem?-some bank w hw in
      rw (load-ok bank w at) (
        Returns-bind (rank_range-Progress s rank pairs r (end - start) start buf sc (omega arith) g)
          λ (buf', sc') g'. rw (store-ok bank w sc' hw) (
            returns (
              subst (λ n. Progress s pairs r.Done n buf') {x = start + (end - start)} {y = end}
                  (omega arith) g',
              length-set bank w sc',
            )))

  run_workers-Progress :
      (per_worker rounds w : ℕ) (buf : ReadBuffer) (bank : List WorkerScratch)
      → length pairs ≤ (w + rounds) * per_worker
      → w + rounds ≤ length bank
      → Progress s pairs r.Done (min (w * per_worker) (length pairs)) buf
      → Returns
          (λ x. Progress s pairs r.Done (length pairs) x.0)
          (run_workers rank pairs per_worker rounds w (buf, bank))
  unfolding run_workers
  run_workers-Progress per_worker zero w buf bank h k g = returns (
      subst (λ n. Progress s pairs r.Done n buf) {x = min (w * per_worker) (length pairs)}
        {y = length pairs}
        (omega (arith, ap (λ (t : ℕ). t * per_worker) {x = w + 0} {y = w} (omega arith))) g)
  run_workers-Progress per_worker (suc rounds) w buf bank h k g =
      let n = length pairs in
      let lo = w * per_worker in
      elim (Bool-cases (leb n lo)) [
        | inl out ↦
            let past : n ≤ lo = leb→le n lo out in
            rw out (
              returns
                (subst (λ m. Progress s pairs r.Done m buf) {x = min lo n} {y = n} (omega arith) g))
        | inr more ↦
            let before : lo < n = ground arith in
            rw more (
              Returns-bind
                (run_worker-Progress w lo (min (lo + per_worker) n) buf bank (omega arith)
                  (omega arith) (omega arith)
                  (subst (λ m. Progress s pairs r.Done m buf) {x = min lo n} {y = lo} (omega arith)
                    g))
                λ (buf', bank') (g', size).
                  run_workers-Progress per_worker rounds (suc w) buf' bank'
                    (omega (
                      arith,
                      h,
                      ap (λ (t : ℕ). t * per_worker) {x = w + suc rounds} {y = suc w + rounds}
                          (omega arith),
                    ))
                    (omega arith)
                    (subst (λ m. Progress s pairs r.Done m buf') {x = min (lo + per_worker) n}
                      {y = min (suc w * per_worker) n} (omega arith) g'))
      ]

length-grow_scratch :
    (missing : ℕ) (bank : List WorkerScratch)
    → length (grow_scratch missing bank) ≡ length bank + missing
unfolding grow_scratch
length-grow_scratch zero bank = omega arith
length-grow_scratch (suc missing) bank =
    length-grow_scratch missing (bank ++ empty_scratch ∷ [])
    ∙ omega (arith, length-append bank (empty_scratch ∷ []))

ensure_scratch_enough :
    (num_w : ℕ) (bank : List WorkerScratch) → num_w ≤ length (ensure_scratch num_w bank)
unfolding ensure_scratch
ensure_scratch_enough num_w bank = omega (arith, length-grow_scratch (num_w - length bank) bank)

-- Every pair is done.
pub record AllDone (s : Sizes) (pairs : List PairInfo) (Done : ReadBuffer → ℕ → PairInfo → Type 0)
    (buf : ReadBuffer) : Type 0 where
  pub sized : IsSized s buf
  pub num_pairs : buf.num_pairs ≡ length pairs
  pub done : (j : ℕ) (pair : PairInfo) → get_elem? pairs j ≡ some pair → Done buf j pair

module _ (s : Sizes) (pairs : List PairInfo) (Done : ReadBuffer → ℕ → PairInfo → Type 0) where
  new_read_buffer-Progress : Progress s pairs Done 0 (new_read_buffer s (length pairs))
  new_read_buffer-Progress = record {
    sized = new_read_buffer-IsSized s (length pairs);
    num_pairs = unfold new_read_buffer in refl;
    done = λ j pair h. absurd (omega arith);
    ahead = λ j h inside u hu. new_read_buffer-blank s (length pairs) j u inside hu;
  }

  Progress-AllDone :
      {buf : ReadBuffer} → Progress s pairs Done (length pairs) buf → AllDone s pairs Done buf
  Progress-AllDone g = record {
    sized = g.sized;
    num_pairs = g.num_pairs;
    done = λ j pair at. g.done j pair (lt_of_get_elem? pairs j at) at;
  }

-- Phase 2 returns without a panic for any number of workers, with every pair done, if its body
-- finishes a pair.
pub rank_all-AllDone :
    (s : Sizes) (rank : RankOne) (num_workers : ℤ) (pairs : List PairInfo)
    (bank : List WorkerScratch) (r : PairRanking s rank pairs)
    → 0 < s.num_workers
    → Returns (λ x. AllDone s pairs r.Done x.0) (rank_all s rank num_workers pairs bank)
unfolding rank_all
rank_all-AllDone s rank num_workers pairs bank r pool =
    let n = length pairs in
    let blank = new_read_buffer-Progress s pairs r.Done in
    elim (Bool-cases (n == 0)) [
      | inl nothing ↦
          let none_left : n ≡ 0 = eq_of_== n 0 nothing in
          rw nothing (
            returns (
              Progress-AllDone s pairs r.Done (
                subst (λ m. Progress s pairs r.Done m (new_read_buffer s n)) (sym none_left)
                  blank)))
      | inr some_left ↦
          let pos_n : 0 < n = ground arith in
          let (pos_w, most) = worker_count_bounds s num_workers n pool pos_n in
          let num_w = worker_count s num_workers n in
          rw some_left (
            Returns-bind (div_up-cover n num_w pos_w pos_n) λ per (cover, pos_per).
              Returns-mono (λ x g. Progress-AllDone s pairs r.Done g)
                (run_workers-Progress s rank pairs r per num_w 0 (new_read_buffer s n)
                  (ensure_scratch num_w bank)
                  (omega (
                    arith,
                    cover,
                    ap (λ (t : ℕ). t * per) {x = 0 + num_w} {y = num_w} (omega arith),
                  ))
                  (omega (arith, ensure_scratch_enough num_w bank))
                  (subst (λ m. Progress s pairs r.Done m (new_read_buffer s n)) {x = 0}
                    {y = min (0 * per) n} (omega arith) blank)))
    ]
