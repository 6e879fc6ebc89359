-- ===== src/Phase2/Workers.antt =====
-- What Phase 2 shows of every pair.
use priority_service_poc.Base.{
  ℕ, ◌<◌, ◌≡◌, ◌≢◌, ◌∙◌, ◌⊎◌, inl, inr, List, Option, none, some, arith, length, get_elem?, refl,
}
use priority_service_poc.Base.Int.{ℤ}
use priority_service_poc.Base.Run.{Returns, returns, Returns-mono}
use priority_service_poc.Types.{Sizes, PairInfo, num_tables}
use priority_service_poc.Types.Runtime.{Runtime}
use priority_service_poc.Buffer.{ReadBuffer, IsSized}
use priority_service_poc.Buffer.Slots.{list_at}
use priority_service_poc.Topology.{
  PairStatus, status_active, status_warming_up, status_removed, get,
}
use priority_service_poc.Rank.{WorkerScratch, rank_pair}
use priority_service_poc.Rank.Lists.{IsRanked}
use priority_service_poc.Rank.Pass.{Table, heuristic, large, pbt, critical}
use priority_service_poc.Rank.Write.{tbl, IsBlank}
use priority_service_poc.Rank.Pair.{
  IsRankable, pair_entries, rank_pair-removed, rank_pair-WroteLists,
}
use priority_service_poc.Phase2.{RankInput, phase2_rank, RankOne}
use priority_service_poc.Phase2.Range.{Finished, PairRanking}
use priority_service_poc.Phase2.Pool.{rank_all-AllDone}

-- What the buffer is to show of the pair at index `j`: nothing if it is removed, else its rankings.
pub record ShowsPair (s : Sizes) (input : RankInput) (buf : ReadBuffer) (j : ℕ) (pair : PairInfo)
    : Type 0 where
  pub removed : get input.topology pair.key ≡ some status_removed → IsBlank s buf j
  pub ranked :
      get input.topology pair.key ≢ some status_removed
      → (t : Table)
      → IsRanked s.top_k
          (pair_entries s input.tables input.now_secs pair t)
          (list_at s buf j (tbl t))

is_removed_cases : (o : Option PairStatus) → (o ≡ some status_removed) ⊎ (o ≢ some status_removed)
is_removed_cases none = inr λ e. cc
is_removed_cases (some status_active) = inr λ e. cc
is_removed_cases (some status_warming_up) = inr λ e. cc
is_removed_cases (some status_removed) = inl refl

pub tbl-lt : (t : Table) → tbl t < num_tables
tbl-lt heuristic = omega arith
tbl-lt large = omega arith
tbl-lt pbt = omega arith
tbl-lt critical = omega arith

module _ (s : Sizes) (rt : Runtime) (input : RankInput) where
  abbrev rank_one : RankOne
  rank_one = rank_pair s rt input.tables input.topology input.now_secs

  ShowsPair-kept :
      (old new : ReadBuffer) (j : ℕ) (pair : PairInfo)
      → ((u : ℕ) → u < num_tables → list_at s new j u ≡ list_at s old j u)
      → ShowsPair s input old j pair
      → ShowsPair s input new j pair
  ShowsPair-kept old new j pair same shows = record {
    removed = λ e u hu. same u hu ∙ shows.removed e u hu;
    ranked = λ ne t. rw (same (tbl t) (tbl-lt t)) (shows.ranked ne t);
  }

  rank_pair-Finished :
      (p : ℕ) (pair : PairInfo) (buf : ReadBuffer) (sc : WorkerScratch)
      → IsRankable s input.tables
      → IsSized s buf
      → p < buf.num_pairs
      → IsBlank s buf p
      → Returns (λ r. Finished s (ShowsPair s input) p pair buf r.0) (rank_one p pair buf sc)
  rank_pair-Finished p pair buf sc ready sized hp blank =
      elim (is_removed_cases (get input.topology pair.key)) [
        | inl gone ↦
            rw
              (rank_pair-removed s rt input.tables input.topology input.now_secs p pair buf sc gone)
              (returns (record {
                sized = sized;
                pairs = refl;
                done = record { removed = λ e. blank; ranked = λ ne. absurd (ne gone) };
                kept = λ j u hj hu ne. refl;
              }))
        | inr here ↦
            Returns-mono
              (λ r w. record {
                sized = w.sized;
                pairs = w.pairs;
                done = record {
                  removed = λ gone. absurd (here gone);
                  ranked = λ ne t. w.ranked t (tbl-lt t);
                };
                kept = λ j u hj hu ne. w.kept j u hj hu (inl ne);
              })
              (rank_pair-WroteLists s rt input.tables input.topology input.now_secs p pair buf sc
                here ready sized hp blank)
      ]

  pairs_ranking : IsRankable s input.tables → PairRanking s rank_one input.pairs
  pairs_ranking ready = record {
    Done = ShowsPair s input;
    done_kept = ShowsPair-kept;
    step = λ p pair buf sc at. rank_pair-Finished p pair buf sc ready;
  }

-- What Phase 2 returns.
pub record IsRankedBuffer (s : Sizes) (input : RankInput) (buf : ReadBuffer) : Type 0 where
  pub sized : IsSized s buf
  pub pairs : buf.num_pairs ≡ length input.pairs
  pub shows :
      (j : ℕ) (pair : PairInfo) → get_elem? input.pairs j ≡ some pair → ShowsPair s input buf j pair

-- On a store with full arrays, a row at least and bin tags that list known orders only, in a service with
-- a goroutine at least, Phase 2 returns without a panic, whatever the number of workers, and its buffer
-- shows of every pair the four rankings of its eligible orders, or nothing if the pair is removed.
pub phase2_rank-IsRankedBuffer :
    (s : Sizes) (rt : Runtime) (num_workers : ℤ) (input : RankInput) (bank : List WorkerScratch)
    → 0 < s.num_workers
    → IsRankable s input.tables
    → Returns (λ r. IsRankedBuffer s input r.0) (phase2_rank s rt num_workers input bank)
unfolding phase2_rank pairs_ranking
phase2_rank-IsRankedBuffer s rt num_workers input bank pool ready =
    Returns-mono (λ r all. record { sized = all.sized; pairs = all.num_pairs; shows = all.done })
      (rank_all-AllDone s (rank_one s rt input) num_workers input.pairs bank
        (pairs_ranking s rt input ready) pool)
