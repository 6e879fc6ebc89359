-- ===== src/Cgo/Service/Serving.antt =====
-- The invariant of an engine in service, and that every event keeps it.
use priority_service_poc.Phase1.{scaled_delta}
use priority_service_poc.Base.{
  ℕ, zero, suc, ◌<◌, ◌≡◌, ◌≢◌, refl, sym, ◌∙◌, subst, List, [], ◌∷◌, Bool, true, false, some, arith,
  get_elem?, ◌==◌, if◌then◌else◌, ◌≤◌,
}
use priority_service_poc.Base.Int.{ℤ, pos, pos_parts, negsuc_parts}
use priority_service_poc.Base.Run.{Returns, returns, Returns-value, ok}
use priority_service_poc.Types.{Sizes, PairInfo, make_pair_key}
use priority_service_poc.Types.Runtime.{Runtime}
use priority_service_poc.Matrix.{PpsMatrix}
use priority_service_poc.Matrix.Cells.{HasOrder}
use priority_service_poc.Registry.{OrderStore}
use priority_service_poc.Registry.Evict.{
  IsValid, was_active, ignored, evict_order-IsEvicted, EvictOutcome,
}
use priority_service_poc.Ingest.Orders.{ingest_order-IsIngested}
use priority_service_poc.Phase1.Clamp.{clamp_int16_bounds}
use priority_service_poc.Server.Index.{
  IsUnlisted, KeysDistinct, KeysDistinct-cons, KeysDistinct-nil,
}
use priority_service_poc.Cgo.Scoring.Kernel.{Short, IsShort}
use priority_service_poc.Cgo.Registry.Refinement.{live_store, evict_order-refines}
use priority_service_poc.Cgo.Ingest.{KafkaOrderEvent}
use priority_service_poc.Ingest.{base_i16}
use priority_service_poc.Cgo.Ingest.Refinement.{active_event, ingest_order-refines}
use priority_service_poc.Cgo.Pairs.{without_key, handle_remove_pair}
use priority_service_poc.Cgo.Pairs.Listed.{handle_add_pair-IsListed}
use priority_service_poc.Cgo.Engine.{ComputeEngine, handle_order_removed}
use priority_service_poc.Cgo.Engine.Cycle.{IsReady, value_or_old, zero_Short}
use priority_service_poc.Cgo.Engine.Added.{with_pair}
use priority_service_poc.Cgo.Engine.Kept.{IsLive}
use native.Mathlib.Decide.{dec_lt}
use priority_service_poc.Ingest.Orders.{ingest_order-out_of_range}
use priority_service_poc.Base.Run.{panic, Returns-at}
use priority_service_poc.Engine.Promote.{AllKeyed}
use priority_service_poc.Engine.Handlers.{AllKeyed-append}
use priority_service_poc.Cgo.Pairs.{handle_add_pair}
use priority_service_poc.Cgo.Service.{ingest}

-- An engine with a valid store, whose matrix has all rows, and pairs of distinct keys.
pub record IsServing (s : Sizes) (e : ComputeEngine) : Type 0 where
  pub tables : OrderStore
  pub live : IsLive s tables e
  pub rows : tables.matrix.num_pps ≡ s.num_pps
  pub well_keyed : AllKeyed e.state.pending_warmup
  pub distinct : KeysDistinct e.state.pairs

-- Every pair of the engine has a row in the matrix.
abbrev pub AllInRows : Sizes → ComputeEngine → Type 0
AllInRows s e =
    (j : ℕ) (pair : PairInfo) → get_elem? e.state.pairs j ≡ some pair → pair.pps_id < s.num_pps

-- A serving engine is ready for a cycle if every pair has a row.
pub IsServing-IsReady :
    {s : Sizes} {e : ComputeEngine} (v : IsServing s e) → AllInRows s e → IsReady s v.tables e
IsServing-IsReady v rows = record {
  alive = v.live.alive;
  valid = v.live.valid;
  some_row = v.live.some_row;
  short = v.live.short;
  have_rows = λ j pair at. omega (arith, rows j pair at, v.rows);
  well_keyed = v.well_keyed;
}

with_store-IsServing :
    (s : Sizes) (e : ComputeEngine) (v : IsServing s e) (new : OrderStore)
    → IsValid s new
    → IsShort s new.matrix
    → new.matrix.num_pps ≡ v.tables.matrix.num_pps
    → IsServing s (record e { store = live_store new })
with_store-IsServing s e v new valid short rows = record {
  tables = new;
  live = record {
    alive = refl;
    valid = valid;
    some_row = omega (arith, v.live.some_row, rows);
    short = short;
  };
  rows = rows ∙ v.rows;
  well_keyed = v.well_keyed;
  distinct = v.distinct;
}

HasOrder-IsShort :
    (s : Sizes) (oid : ℕ) (x : ℤ) (old new : PpsMatrix)
    → HasOrder s oid x old new
    → Short x
    → IsShort s old
    → IsShort s new
HasOrder-IsShort s oid x old new has fits short p o v hp ho e =
    let inside : p < old.num_pps = omega (arith, has.same_rows) in
    value_or_old (oid == o) x (has.cells p o inside ho) e fits (short p o v inside ho)

-- The pairs that HandleRemovePair keeps have every property that all had.
without_key-kept :
    (P : PairInfo → Type 0) (key : ℕ) (pairs : List PairInfo)
    → ((j : ℕ) (pair : PairInfo) → get_elem? pairs j ≡ some pair → P pair)
    → (j : ℕ) (pair : PairInfo) → get_elem? (without_key key pairs) j ≡ some pair
    → P pair
unfolding without_key
without_key-kept P key [] h j pair at = absurd (cc at)
without_key-kept P key (p ∷ pairs) h j pair at =
    kept (p.key == key) (λ i. without_key-kept P key pairs (λ i. h (suc i)) i pair) j at
  where
    kept :
        (gone : Bool)
        → ((i : ℕ) → get_elem? (without_key key pairs) i ≡ some pair → P pair)
        → (i : ℕ)
        → get_elem? (if gone then without_key key pairs else p ∷ without_key key pairs) i
          ≡ some pair
        → P pair
    kept true rest i at = rest i at
    kept false rest zero at = let same : p ≡ pair = cc at in subst P same (h 0 p refl)
    kept false rest (suc i) at = rest i at

without_key-KeysDistinct :
    (key : ℕ) (pairs : List PairInfo) → KeysDistinct pairs → KeysDistinct (without_key key pairs)
unfolding without_key
without_key-KeysDistinct key [] h = KeysDistinct-nil
without_key-KeysDistinct key (p ∷ pairs) h =
    let tail : KeysDistinct pairs =
      λ i j x y ax ay e. omega (arith, h (suc i) (suc j) x y ax ay e) in
    kept (p.key == key) (without_key-KeysDistinct key pairs tail)
  where
    new : IsUnlisted p.key (without_key key pairs)
    new j x =
        without_key-kept (λ (y : PairInfo). y.key ≢ p.key) key pairs
          (λ i y at e. absurd (omega (arith, h 0 (suc i) p y refl at (sym e)))) j x

    kept :
        (gone : Bool)
        → KeysDistinct (without_key key pairs)
        → KeysDistinct (if gone then without_key key pairs else p ∷ without_key key pairs)
    kept true rest = rest
    kept false rest = KeysDistinct-cons p (without_key key pairs) new rest

base_i16-Short : (rt : Runtime) (evt : KafkaOrderEvent) → Short (base_i16 rt (active_event evt))
unfolding base_i16
base_i16-Short rt evt =
    let (lo, hi) = clamp_int16_bounds (scaled_delta rt evt.base_score) in
    omega (arith, lo, hi, pos_parts 32767, negsuc_parts 32767, negsuc_parts 32766)

module _ (s : Sizes) (e : ComputeEngine) (v : IsServing s e) where
  -- An event of an order in range keeps the invariant.
  pub ingest-IsServing :
      (rt : Runtime) (evt : KafkaOrderEvent) (now_secs : ℤ)
      → evt.order_id < s.num_orders
      → Returns (IsServing s) (ingest s rt evt now_secs e)
  unfolding ingest
  ingest-IsServing rt evt now_secs inside =
      rw (v.live.alive, ingest_order-refines s rt evt now_secs v.tables v.live.valid.slots)
        (let (new, ran, i) = Returns-value (
            ingest_order-IsIngested s rt (active_event evt) now_secs v.tables v.live.valid
              inside) in
          rw ran (
            returns (
              with_store-IsServing s e v new i.valid
                (HasOrder-IsShort s evt.order_id _ v.tables.matrix new.matrix i.scores
                  (base_i16-Short rt evt) v.live.short)
                i.scores.same_rows)))

  ingest-panic :
      (rt : Runtime) (evt : KafkaOrderEvent) (now_secs : ℤ)
      → s.num_orders ≤ evt.order_id
      → ingest s rt evt now_secs e ≡ panic
  unfolding ingest
  ingest-panic rt evt now_secs out =
      rw
        (
          v.live.alive,
          ingest_order-refines s rt evt now_secs v.tables v.live.valid.slots,
          ingest_order-out_of_range s rt (active_event evt) now_secs v.tables v.live.valid out,
        )
        refl

  -- An event that ran to its end was of an order in range.
  pub ingested-IsServing :
      (rt : Runtime) (evt : KafkaOrderEvent) (now_secs : ℤ) (e' : ComputeEngine)
      → ingest s rt evt now_secs e ≡ ok e'
      → IsServing s e'
  ingested-IsServing rt evt now_secs e' ran = elim (dec_lt evt.order_id s.num_orders) [
    | yes inside ↦ Returns-at (ingest-IsServing rt evt now_secs inside) ran
    | no outside ↦ absurd (cc (sym (ingest-panic rt evt now_secs (omega arith)) ∙ ran))
  ]

  evicted-IsServing :
      {oid : ℕ} (new : OrderStore)
      → EvictOutcome s oid v.tables new
      → IsServing s (record e { store = live_store new })
  evicted-IsServing {oid} new (was_active inside on gone) =
      with_store-IsServing s e v new gone.valid
        (HasOrder-IsShort s oid (pos 0) v.tables.matrix new.matrix gone.scores zero_Short
          v.live.short)
        gone.scores.same_rows
  evicted-IsServing new (ignored why same) =
      rw same (with_store-IsServing s e v v.tables v.live.valid v.live.short refl)

  -- So does an order-removed event.
  pub handle_order_removed-IsServing :
      (oid : ℕ) → Returns (IsServing s) (handle_order_removed s e oid)
  unfolding handle_order_removed
  handle_order_removed-IsServing oid =
      rw (v.live.alive, evict_order-refines s v.tables oid)
        (let (new, ran, outcome) =
            Returns-value (evict_order-IsEvicted s v.tables oid v.live.valid) in
          rw ran (returns (evicted-IsServing new outcome)))

  -- And a pair that is added, with a row in the matrix or without.
  pub with_pair-IsServing : (p b : ℕ) → IsServing s (with_pair e p b)
  with_pair-IsServing p b = record {
    tables = v.tables;
    live = record {
      alive = v.live.alive;
      valid = v.live.valid;
      some_row = v.live.some_row;
      short = v.live.short;
    };
    rows = v.rows;
    well_keyed = unfold handle_add_pair in AllKeyed-append e.state.pending_warmup p b v.well_keyed;
    distinct = (handle_add_pair-IsListed e.state p b v.distinct).1;
  }

  -- And a pair that is removed.
  pub handle_remove_pair-IsServing :
      (p b : ℕ) → IsServing s (record e { state = handle_remove_pair e.state p b })
  unfolding handle_remove_pair
  handle_remove_pair-IsServing p b = record {
    tables = v.tables;
    live = record {
      alive = v.live.alive;
      valid = v.live.valid;
      some_row = v.live.some_row;
      short = v.live.short;
    };
    rows = v.rows;
    well_keyed = v.well_keyed;
    distinct = without_key-KeysDistinct (make_pair_key p b) e.state.pairs v.distinct;
  }
