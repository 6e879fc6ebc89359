-- ===== src/Phase1/Share.antt =====
-- How the two phases divide their work: the number of goroutines, and the share of each.
use priority_service_poc.Base.{ℕ, ◌+◌, ◌-◌, ◌*◌, ◌/◌, ◌≤◌, ◌<◌, ◌≡◌, arith, ◌==◌, false}
use priority_service_poc.Base.Int.{ℤ, pos_parts}
use priority_service_poc.Base.Run.{Returns, returns}
use priority_service_poc.Types.{Sizes}
use priority_service_poc.Phase1.{worker_count, div_up}

-- There is a worker if there is an item, and never more workers than items.
pub worker_count_bounds :
    (s : Sizes) (num_workers : ℤ) (items : ℕ)
    → 0 < s.num_workers
    → 0 < items
    → (0 < worker_count s num_workers items) × (worker_count s num_workers items ≤ items)
unfolding worker_count
worker_count_bounds s num_workers items h k = ground (arith, pos_parts 0)

share_covers : (items n : ℕ) → 0 < n → items ≤ n * ((items + n - 1) / n)
share_covers items n h = omega arith

share_pos : (items n : ℕ) → 0 < n → 0 < items → 0 < (items + n - 1) / n
share_pos items n h k = grind (arith, share_covers items n h)

-- `per` items for each of `n` workers cover all `items`.
pub div_up-cover :
    (items n : ℕ)
    → 0 < n
    → 0 < items
    → Returns (λ per. (items ≤ n * per) × (0 < per)) (div_up items n)
unfolding div_up
div_up-cover items n h k =
    let some_workers : (n == 0) ≡ false = ground arith in
    rw some_workers (returns (share_covers items n h, share_pos items n h k))
