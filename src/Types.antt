-- ===== src/Types.antt =====
-- go-pure-impl/types.go: the constants, the pair key and the small structs.
mod Key
unfoldable pub use Key.{make_pair_key}
pub use Key.{make_pair_key-injective}
use priority_service_poc.Base.{ℕ, ◌*◌, Bool}
use priority_service_poc.Base.Int.{ℤ, pos}
use priority_service_poc.Types.Float.{Float32}
pub mod Float
pub mod Runtime

-- The constants that give the arrays their size. Every theorem holds for all sizes; the values of
-- the program are `production`.
pub record Sizes : Type 0 where
  pub num_orders : ℕ
  pub num_pps : ℕ
  pub num_bin_tags : ℕ
  pub top_k : ℕ
  pub num_workers : ℕ

abbrev pub production : Sizes
production = record {
  num_orders = 1_000_000;
  num_pps = 200;
  num_bin_tags = 20;
  top_k = 1_000;
  num_workers = 30;
}

abbrev pub pairs_per_pod : Sizes → ℕ
pairs_per_pod s = s.num_pps * s.num_bin_tags

abbrev pub num_tables : ℕ
num_tables = 4

abbrev pub tbl_heuristic : ℕ
tbl_heuristic = 0

abbrev pub tbl_large : ℕ
tbl_large = 1

abbrev pub tbl_pbt : ℕ
tbl_pbt = 2

abbrev pub tbl_critical : ℕ
tbl_critical = 3

abbrev pub critical_cutoff : ℤ
critical_cutoff = pos 1_800

abbrev pub order_ttl_secs : ℤ
order_ttl_secs = pos 3_600

-- `order_id` is a uint32; the times are int64 Unix seconds.
pub record OrderMeta : Type 0 where
  pub order_id : ℕ
  pub required_qty : Float32
  pub pbt_deadline : ℤ
  pub active : Bool
  pub inserted_at_secs : ℤ

pub record PairInfo : Type 0 where
  pub pps_id : ℕ
  pub bin_tag_id : ℕ
  pub key : ℕ

pub record CycleStats : Type 0 where
  pub phase1_ms : ℤ
  pub phase2_ms : ℤ
  pub total_ms : ℤ
  pub sla_ok : Bool

pub record ScoreEntry : Type 0 where
  pub score : ℤ
  pub order_id : ℤ
