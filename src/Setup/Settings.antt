-- ===== src/Setup/Settings.antt =====
-- The settings that every environment leaves in range.
use priority_service_poc.Base.{ℕ, arith, Option, none, some, min, ◌≤◌, ◌*◌}
use priority_service_poc.Base.Int.{ℤ, pos, ◌<ℤ◌, ◌≤ℤ◌, pos_parts}
use priority_service_poc.Types.{Sizes}
use priority_service_poc.Setup.{Environment, init_from_env, if_positive}

if_positive_pos : (v : Option ℤ) (default : ℤ) → pos 0 <ℤ default → pos 0 <ℤ if_positive v default
unfolding if_positive
if_positive_pos none default h = h
if_positive_pos (some n) default h = ground (arith, h)

if_positive_nonneg :
    (v : Option ℤ) (default : ℤ) → pos 0 ≤ℤ default → pos 0 ≤ℤ if_positive v default
unfolding if_positive
if_positive_nonneg none default h = h
if_positive_nonneg (some n) default h = ground (arith, h)

-- On a machine with a core at least and whatever the environment says, the number of workers and the
-- number of threads are positive and the memory limit is not negative.
pub init_from_env_bounds :
    (s : Sizes) (cores : ℕ) (env : Environment)
    → 1 ≤ cores
    → (pos 0 <ℤ (init_from_env s cores env).num_workers_val)
      × (pos 0 <ℤ (init_from_env s cores env).go_max_procs)
      × (pos 0 ≤ℤ (init_from_env s cores env).mem_limit_mb)
unfolding init_from_env
init_from_env_bounds s cores env h = (
  if_positive_pos env.num_workers _ (
      ground (arith, pos_parts 0, pos_parts 1, pos_parts (min (s.num_pps * s.num_bin_tags) cores))),
  if_positive_pos env.gomaxprocs (pos cores) (ground (arith, pos_parts 0, pos_parts cores)),
  if_positive_nonneg env.mem_limit (pos 0) (omega arith),
)
