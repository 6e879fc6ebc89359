-- ===== src/Phase2.antt =====
-- go-pure-impl/compute.go: Phase 2, the ranking of all pairs. Each goroutine owns a contiguous range
-- of pairs and one entry of the scratch bank, and all are joined before the phase returns: they run
-- one after the other here.
pub mod Range
pub mod Pool
pub mod Stuck
pub mod Workers
use priority_service_poc.Base.{
  ℕ, zero, suc, ◌+◌, ◌*◌, ◌-◌, List, [], ◌∷◌, ◌++◌, length, min, ltb, leb, ◌==◌, if◌then◌else◌,
}
use priority_service_poc.Base.Int.{ℤ}
use priority_service_poc.Base.Run.{Run, ok, ◌>>=◌, load, store}
use priority_service_poc.Types.{Sizes, PairInfo}
use priority_service_poc.Types.Runtime.{Runtime}
use priority_service_poc.Buffer.{ReadBuffer, new_read_buffer}
use priority_service_poc.Topology.{TopologyState}
use priority_service_poc.Registry.{OrderStore}
use priority_service_poc.Rank.{WorkerScratch, empty_scratch, rank_pair}
use priority_service_poc.Phase1.{worker_count, div_up}

-- What the goroutines read.
pub record RankInput : Type 0 where
  pub tables : OrderStore
  pub topology : TopologyState
  pub pairs : List PairInfo
  pub now_secs : ℤ

-- What a goroutine does for the pair at an index: the buffer and its scratch afterwards.
abbrev pub RankOne : Type 0
RankOne = ℕ → PairInfo → ReadBuffer → WorkerScratch → Run (ReadBuffer × WorkerScratch)

-- The loops over the pairs, for any body `rank`.
module _ (rank : RankOne) (pairs : List PairInfo) where
  -- `for p := p; p < end; p++`, with the rounds that are left.
  unfoldable pub rank_range : ℕ → ℕ → ReadBuffer × WorkerScratch → Run (ReadBuffer × WorkerScratch)
  rank_range zero p r = ok r
  rank_range (suc rounds) p r = do
    pair ← load pairs p
    r' ← rank p pair r.0 r.1
    rank_range rounds (suc p) r'

  -- One goroutine, over the pairs from `start` to `end`.
  unfoldable pub run_worker :
      ℕ → ℕ → ℕ → ReadBuffer × List WorkerScratch → Run (ReadBuffer × List WorkerScratch)
  unfolding rank_range
  run_worker worker_id start end (buf, bank) = do
    sc ← load bank worker_id
    (buf', sc') ← rank_range (end - start) start (buf, sc)
    bank' ← store bank worker_id sc'
    ok (buf', bank')

  -- `for w := w; w < numW; w++`, with the rounds that are left; `break` once the pairs run out.
  unfoldable pub run_workers :
      ℕ → ℕ → ℕ → ReadBuffer × List WorkerScratch → Run (ReadBuffer × List WorkerScratch)
  unfolding run_worker
  run_workers per_worker zero w state = ok state
  run_workers per_worker (suc rounds) w state =
      let num_pairs = length pairs in
      let lo = w * per_worker in
      let hi = min (lo + per_worker) num_pairs in
      let next = run_worker w lo hi state >>= run_workers per_worker rounds (suc w) in
      if leb num_pairs lo then ok state else next

-- The loop of ensureScratch appends an entry until there are `num_w`: it runs as often as one is
-- missing.
unfoldable pub grow_scratch : ℕ → List WorkerScratch → List WorkerScratch
grow_scratch zero bank = bank
grow_scratch (suc missing) bank = grow_scratch missing (bank ++ empty_scratch ∷ [])

unfoldable pub ensure_scratch : ℕ → List WorkerScratch → List WorkerScratch
unfolding grow_scratch
ensure_scratch num_w bank = grow_scratch (num_w - length bank) bank

-- phase2Rank around its loop body: the new buffer, and the scratch bank as the goroutines leave it.
unfoldable pub rank_all :
    Sizes → RankOne → ℤ → List PairInfo → List WorkerScratch → Run (ReadBuffer × List WorkerScratch)
unfolding worker_count div_up run_workers ensure_scratch
rank_all s rank num_workers pairs bank =
    let num_pairs = length pairs in
    let buf = new_read_buffer s num_pairs in
    let num_w = worker_count s num_workers num_pairs in
    let ranked : Run (ReadBuffer × List WorkerScratch) = do
      pairs_per_worker ← div_up num_pairs num_w
      run_workers rank pairs pairs_per_worker num_w 0 (buf, ensure_scratch num_w bank)
    in if num_pairs == 0 then ok (buf, bank) else ranked

unfoldable pub phase2_rank :
    Sizes → Runtime → ℤ → RankInput → List WorkerScratch → Run (ReadBuffer × List WorkerScratch)
unfolding rank_all rank_pair
phase2_rank s rt num_workers input bank =
    rank_all s (rank_pair s rt input.tables input.topology input.now_secs) num_workers input.pairs
      bank
