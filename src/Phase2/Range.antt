-- ===== src/Phase2/Range.antt =====
-- What the loop of one goroutine of Phase 2 has done so far, for any body that ranks one pair.
use native.Mathlib.Decide.{ℕ_discrete}
use priority_service_poc.Base.{
  ℕ, zero, suc, ◌+◌, ◌≤◌, ◌<◌, ◌≡◌, ◌≢◌, sym, ap, subst, ◌∙◌, List, some, arith, length, get_elem?,
  get_elem?-some, lt_of_get_elem?,
}
use priority_service_poc.Base.Run.{Returns, returns, Returns-bind, Returns-mono, load-ok}
use priority_service_poc.Types.{Sizes, PairInfo, num_tables}
use priority_service_poc.Buffer.{ReadBuffer, IsSized}
use priority_service_poc.Buffer.Slots.{list_at}
use priority_service_poc.Rank.{WorkerScratch}
use priority_service_poc.Rank.Write.{IsBlank}
use priority_service_poc.Phase2.{RankOne, rank_range}

-- The pair at index `p` is finished in the new buffer, whose lists of the other pairs are the old ones.
pub record Finished (s : Sizes) (Done : ReadBuffer → ℕ → PairInfo → Type 0) (p : ℕ)
    (pair : PairInfo) (old new : ReadBuffer) : Type 0 where
  pub sized : IsSized s new
  pub pairs : new.num_pairs ≡ old.num_pairs
  pub done : Done new p pair
  pub kept :
      (j u : ℕ) → j < old.num_pairs → u < num_tables → p ≢ j → list_at s new j u ≡ list_at s old j u

-- What the loops ask of a body: `Done buf j pair` says that the lists at index `j` are those of the pair.
pub record PairRanking (s : Sizes) (rank : RankOne) (pairs : List PairInfo) : Type 1 where
  pub Done : ReadBuffer → ℕ → PairInfo → Type 0
  pub done_kept :
      (old new : ReadBuffer) (j : ℕ) (pair : PairInfo)
      → ((u : ℕ) → u < num_tables → list_at s new j u ≡ list_at s old j u)
      → Done old j pair
      → Done new j pair
  pub step :
      (p : ℕ) (pair : PairInfo) (buf : ReadBuffer) (sc : WorkerScratch)
      → get_elem? pairs p ≡ some pair
      → IsSized s buf
      → p < buf.num_pairs
      → IsBlank s buf p
      → Returns (λ r. Finished s Done p pair buf r.0) (rank p pair buf sc)

-- The pairs before `n` are done, the lists of the others are blank.
pub record Progress (s : Sizes) (pairs : List PairInfo) (Done : ReadBuffer → ℕ → PairInfo → Type 0)
    (n : ℕ) (buf : ReadBuffer) : Type 0 where
  pub sized : IsSized s buf
  pub num_pairs : buf.num_pairs ≡ length pairs
  pub done : (j : ℕ) (pair : PairInfo) → j < n → get_elem? pairs j ≡ some pair → Done buf j pair
  pub ahead : (j : ℕ) → n ≤ j → j < length pairs → IsBlank s buf j

same_pair :
    (pairs : List PairInfo) {j p : ℕ} {q pair : PairInfo}
    → j ≡ p
    → get_elem? pairs p ≡ some pair
    → get_elem? pairs j ≡ some q
    → q ≡ pair
same_pair pairs e at atj = cc (ap (get_elem? pairs) e)

module _ (s : Sizes) (rank : RankOne) (pairs : List PairInfo) (r : PairRanking s rank pairs) where
  Progress-suc :
      (p : ℕ) (pair : PairInfo) (old new : ReadBuffer)
      → get_elem? pairs p ≡ some pair
      → Finished s r.Done p pair old new
      → Progress s pairs r.Done p old
      → Progress s pairs r.Done (suc p) new
  Progress-suc p pair old new at f g =
      let kept = λ (j u : ℕ) (hj : j < length pairs) (hu : u < num_tables) (ne : p ≢ j).
        f.kept j u (omega (arith, g.num_pairs)) hu ne in
      record {
        sized = f.sized;
        num_pairs = f.pairs ∙ g.num_pairs;
        done = λ j q hj atj. elim (ℕ_discrete j p) [
          | yes e ↦ rw (same_pair pairs e at atj, e) f.done
          | no ne ↦
              r.done_kept old new j q
                (λ u hu. kept j u (lt_of_get_elem? pairs j atj) hu (λ e. ne (sym e)))
                (g.done j q (omega arith) atj)
        ];
        ahead = λ j hj inside u hu.
            kept j u inside hu (omega arith) ∙ g.ahead j (omega arith) inside u hu;
      }

  pub rank_range-Progress :
      (rounds p : ℕ) (buf : ReadBuffer) (sc : WorkerScratch)
      → p + rounds ≤ length pairs
      → Progress s pairs r.Done p buf
      → Returns
          (λ x. Progress s pairs r.Done (p + rounds) x.0)
          (rank_range rank pairs rounds p (buf, sc))
  unfolding rank_range
  rank_range-Progress zero p buf sc h g =
      returns (subst (λ n. Progress s pairs r.Done n buf) {x = p} {y = p + 0} (omega arith) g)
  rank_range-Progress (suc rounds) p buf sc h g =
      let hp : p < length pairs = omega arith in
      let (pair, at) = get_elem?-some pairs p hp in
      rw (load-ok pairs p at) (
        Returns-bind
          (r.step p pair buf sc at g.sized (omega (arith, g.num_pairs))
            (g.ahead p (omega arith) hp))
          λ (buf', sc') f.
            Returns-mono
              (λ x done.
                subst (λ n. Progress s pairs r.Done n x.0) {x = suc p + rounds} {y = p + suc rounds}
                  (omega arith) done)
              (rank_range-Progress rounds (suc p) buf' sc' (omega arith)
                (Progress-suc p pair buf buf' at f g)))
