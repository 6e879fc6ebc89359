-- ===== src/Cgo/Engine/Ranked.antt =====
-- What Phase 2 of the cgo variant shows of every pair.
use priority_service_poc.Base.{ℕ, ◌<◌, ◌≡◌, inl, List, some, get_elem?}
use priority_service_poc.Base.Int.{ℤ}
use priority_service_poc.Base.Run.{Returns, Returns-mono}
use priority_service_poc.Types.{Sizes, PairInfo}
use priority_service_poc.Types.Runtime.{Runtime}
use priority_service_poc.Buffer.{ReadBuffer}
use priority_service_poc.Buffer.Slots.{list_at}
use priority_service_poc.Registry.{OrderStore}
use priority_service_poc.Rank.{WorkerScratch}
use priority_service_poc.Rank.Lists.{IsRanked}
use priority_service_poc.Rank.Pass.{Table}
use priority_service_poc.Rank.Write.{tbl}
use priority_service_poc.Phase2.Range.{PairRanking}
use priority_service_poc.Phase2.Pool.{AllDone, rank_all-AllDone}
use priority_service_poc.Phase2.Workers.{tbl-lt}
use priority_service_poc.Cgo.Registry.Refinement.{live_store}
use priority_service_poc.Cgo.Rank.{rank_pair}
use priority_service_poc.Cgo.Rank.Pair.{IsRankable, pair_entries, rank_pair-WroteLists}
use priority_service_poc.Cgo.Engine.{phase2_rank}

-- The four lists at index `j` are the rankings of the pair.
abbrev pub ShowsPair : Sizes → OrderStore → ℤ → ReadBuffer → ℕ → PairInfo → Type 0
ShowsPair s st now_secs buf j pair =
    (t : Table) → IsRanked s.top_k (pair_entries s st now_secs pair t) (list_at s buf j (tbl t))

-- Every pair has a row in the matrix.
abbrev pub HaveRows : OrderStore → List PairInfo → Type 0
HaveRows st pairs =
    (j : ℕ) (pair : PairInfo) → get_elem? pairs j ≡ some pair → pair.pps_id < st.matrix.num_pps

module _ (s : Sizes) (rt : Runtime) (st : OrderStore) (now_secs : ℤ) (pairs : List PairInfo)
    (v : IsRankable s st) (rows : HaveRows st pairs) where
  pairs_ranking : PairRanking s (rank_pair s rt (live_store st) now_secs) pairs
  pairs_ranking = record {
    Done = ShowsPair s st now_secs;
    done_kept = λ old new j pair same shows t. rw (same (tbl t) (tbl-lt t)) (shows t);
    step = λ p pair buf sc at sized hp blank.
        Returns-mono
          (λ r w. record {
            sized = w.sized;
            pairs = w.pairs;
            done = λ t. w.ranked t (tbl-lt t);
            kept = λ j u hj hu ne. w.kept j u hj hu (inl ne);
          })
          (rank_pair-WroteLists s rt st now_secs p pair buf sc v (rows p pair at) sized hp blank);
  }

  -- Phase 2 of the cgo variant returns without a panic or undefined behaviour, whatever the number of
  -- workers, if the matrix is not freed and every pair has a row in it: the buffer shows of every pair of
  -- the engine, whatever its status, the four rankings of the orders under its bin tag that are in range.
  pub phase2_rank-AllDone :
      (num_workers : ℤ) (bank : List WorkerScratch)
      → 0 < s.num_workers
      → Returns
          (λ r. AllDone s pairs (ShowsPair s st now_secs) r.0)
          (phase2_rank s rt num_workers (live_store st) pairs now_secs bank)
  unfolding phase2_rank pairs_ranking
  phase2_rank-AllDone num_workers bank pool =
      rank_all-AllDone s (rank_pair s rt (live_store st) now_secs) num_workers pairs bank
        pairs_ranking pool
