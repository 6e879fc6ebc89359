-- ===== src/Setup.antt =====
-- go-pure-impl/main.go and config.go: the pairs that the service starts with, and its settings.
pub mod Settings
use priority_service_poc.Base.{
  ℕ, zero, suc, ◌+◌, List, [], ◌∷◌, ◌++◌, Option, none, some, Bool, length, ltb, leb, min, ◌==◌,
  if◌then◌else◌,
}
use priority_service_poc.Base.Int.{ℤ, pos, negsuc, gtb_ℤ}
use priority_service_poc.Types.{Sizes, PairInfo, make_pair_key, pairs_per_pod}

-- The inner loop over `bt`, with the rounds that are left.
unfoldable pub build_row : ℕ → ℕ → ℕ → ℕ → List PairInfo → List PairInfo
build_row num_pairs pps zero bt pairs = pairs
build_row num_pairs pps (suc rounds) bt pairs =
    let next =
      build_row num_pairs pps rounds (suc bt)
        (pairs ++ record { pps_id = pps; bin_tag_id = bt; key = make_pair_key pps bt } ∷ []) in
    if ltb (length pairs) num_pairs then next else pairs

-- The outer loop over `pps`.
unfoldable pub build_rows : Sizes → ℕ → ℕ → ℕ → List PairInfo → List PairInfo
unfolding build_row
build_rows s num_pairs zero pps pairs = pairs
build_rows s num_pairs (suc rounds) pps pairs =
    let next =
      build_rows s num_pairs rounds (suc pps) (build_row num_pairs pps s.num_bin_tags 1 pairs) in
    if ltb (length pairs) num_pairs then next else pairs

unfoldable pub build_pairs : Sizes → ℕ → List PairInfo
unfolding build_rows
build_pairs s num_pairs = build_rows s num_pairs s.num_pps 1 []

pub record ResourceConfig : Type 0 where
  pub num_workers_val : ℤ
  pub go_max_procs : ℤ
  pub gc_percent : ℤ
  pub mem_limit_mb : ℤ

unfoldable pub default_resource_config : Sizes → ℕ → ResourceConfig
default_resource_config s cores =
    let workers = min (pairs_per_pod s) cores in
    record {
      num_workers_val = pos (if ltb workers 1 then 1 else workers);
      go_max_procs = pos cores;
      gc_percent = pos 100;
      mem_limit_mb = pos 0;
    }

-- The four variables as strconv reads them: `none` for one that is empty or does not parse.
pub record Environment : Type 0 where
  pub num_workers : Option ℤ
  pub gomaxprocs : Option ℤ
  pub gcpercent : Option ℤ
  pub mem_limit : Option ℤ

unfoldable pub if_positive : Option ℤ → ℤ → ℤ
if_positive none default = default
if_positive (some n) default = if gtb_ℤ n (pos 0) then n else default

unfoldable pub if_given : Option ℤ → ℤ → ℤ
if_given none default = default
if_given (some n) default = n

unfoldable pub init_from_env : Sizes → ℕ → Environment → ResourceConfig
unfolding default_resource_config if_positive if_given
init_from_env s cores env =
    let cfg = default_resource_config s cores in
    record {
      num_workers_val = if_positive env.num_workers cfg.num_workers_val;
      go_max_procs = if_positive env.gomaxprocs cfg.go_max_procs;
      gc_percent = if_given env.gcpercent cfg.gc_percent;
      mem_limit_mb = if_positive env.mem_limit cfg.mem_limit_mb;
    }
