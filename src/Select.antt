-- ===== src/Select.antt =====
-- go-pure-impl/compute.go: Quickselect on a slice of score entries.
pub mod Segment
pub mod Partition
pub mod TopK
use priority_service_poc.Base.{
  ℕ, zero, suc, ◌+◌, ◌-◌, ◌/◌, List, ◌++◌, ◌&&◌, ◌||◌, length, take, drop, ltb, leb, ◌==◌,
  if◌then◌else◌,
}
use priority_service_poc.Base.Int.{ℤ, geb_ℤ}
use priority_service_poc.Base.Run.{Run, ok, out_of_fuel, ◌>>=◌, load, store}
use priority_service_poc.Types.{ScoreEntry}
use priority_service_poc.Types.Runtime.{Runtime}

unfoldable pub median_of_three : List ScoreEntry → ℕ → ℕ → ℕ → Run ℕ
median_of_three e lo mid hi = do
  x ← load e lo
  y ← load e mid
  z ← load e hi
  let a = x.score
  let b = y.score
  let c = z.score
  ok (
      if geb_ℤ a b && geb_ℤ b c || geb_ℤ c b && geb_ℤ b a
      then mid
      else if geb_ℤ b a && geb_ℤ a c || geb_ℤ c a && geb_ℤ a b
      then lo
      else hi)

-- `e[i], e[j] = e[j], e[i]`
unfoldable pub swap : List ScoreEntry → ℕ → ℕ → Run (List ScoreEntry)
swap e i j = do y ← load e j; x ← load e i; e' ← store e i y; store e' j x

-- The loop over `j`, with the rounds that are left. The source's `i` starts at `lo - 1`, which may
-- be -1: `next` is `i + 1`.
unfoldable pub partition_loop : ℤ → ℕ → ℕ → ℕ → List ScoreEntry → Run (ℕ × List ScoreEntry)
partition_loop pivot zero next j e = ok (next, e)
partition_loop pivot (suc rounds) next j e = do
  x ← load e j
  let above = swap e next j >>= partition_loop pivot rounds (suc next) (suc j)
  let below = partition_loop pivot rounds next (suc j) e
  if geb_ℤ x.score pivot then above else below

unfoldable pub partition_desc : List ScoreEntry → ℕ → ℕ → Run (ℕ × List ScoreEntry)
unfolding median_of_three swap partition_loop
partition_desc e lo hi = do
  pivot_idx ← median_of_three e lo (lo + (hi - lo) / 2) hi
  e1 ← swap e pivot_idx hi
  last ← load e1 hi
  (next, e2) ← partition_loop last.score (hi - lo) lo lo e1
  e3 ← swap e2 next hi
  ok (next, e3)

-- The `for lo < hi` loop; `target` is the index that it brings to its sorted place. `hi = p - 1` is
-- reached with `p` above `target` only, so it does not become negative.
unfoldable pub select_loop : ℕ → ℕ → ℕ → ℕ → List ScoreEntry → Run (List ScoreEntry)
select_loop zero target lo hi e = out_of_fuel
select_loop (suc fuel) target lo hi e =
    let narrow = λ (r : ℕ × List ScoreEntry).
      let right = select_loop fuel target (r.0 + 1) hi r.1 in
      let left = select_loop fuel target lo (r.0 - 1) r.1 in
      if r.0 == target then ok r.1 else if ltb r.0 target then right else left in
    let round = partition_desc e lo hi >>= narrow in if ltb lo hi then round else ok e

-- Each round shortens the range, so `length e` rounds are enough.
unfoldable pub quickselect_top_k : Runtime → List ScoreEntry → ℕ → Run (List ScoreEntry)
unfolding select_loop partition_desc
quickselect_top_k rt e k =
    let search = select_loop (length e) (k - 1) 0 (length e - 1) e in
    if leb k 0 || leb (length e) k
    then ok e
    else search >>= λ e'. ok (rt.sort_desc (take k e') ++ drop k e')
