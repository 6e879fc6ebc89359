-- ===== src/Cgo/Engine/Cycle.antt =====
-- RunCycleWithDict of the cgo variant.
use priority_service_poc.Base.{
  ℕ, ◌<◌, ◌≡◌, refl, [], Option, some, Bool, true, false, arith, ltb, ◌&&◌, if◌then◌else◌, subst,
}
use priority_service_poc.Base.Int.{ℤ, pos, pos_parts, negsuc_parts}
use priority_service_poc.Base.Run.{Returns, returns, Returns-bind, Returns-value, ok}
use priority_service_poc.Types.{Sizes}
use priority_service_poc.Types.Runtime.{Runtime}
use priority_service_poc.Buffer.{publish}
use priority_service_poc.Topology.{status_active}
use priority_service_poc.Indexes.Counts.{count}
use priority_service_poc.Registry.{OrderStore, is_expired, purge_expired}
use priority_service_poc.Registry.Evict.{slot, IsValid}
use priority_service_poc.Registry.Purge.{IsCleaned, purge_expired-IsCleaned}
use priority_service_poc.Phase2.Pool.{AllDone}
use priority_service_poc.Engine.{Clock}
use priority_service_poc.Engine.Promote.{keys, AllKeyed, no_pair}
use priority_service_poc.Cgo.Scoring.Kernel.{Short, IsShort}
use priority_service_poc.Cgo.Registry.Refinement.{live_store, purge_expired-live}
use priority_service_poc.Cgo.Pairs.{get, promote_warming_pairs}
use priority_service_poc.Cgo.Pairs.Reactivation.{activate_pending-get}
use priority_service_poc.Cgo.Phase1.{ItemDictUpdate}
use priority_service_poc.Cgo.Phase1.Done.{Phase1Done, ModestDeltas, phase1_update-IsPhase1}
use priority_service_poc.Cgo.Engine.{ComputeEngine, run_cycle_with_dict}
use priority_service_poc.Cgo.Engine.Ranked.{ShowsPair, HaveRows, phase2_rank-AllDone}

-- An engine whose store is `st` with its matrix on the C heap: a valid store with a row at least and
-- int16 scores, and a row for every pair.
pub record IsReady (s : Sizes) (st : OrderStore) (e : ComputeEngine) : Type 0 where
  pub alive : e.store ≡ live_store st
  pub valid : IsValid s st
  pub some_row : 0 < st.matrix.num_pps
  pub short : IsShort s st.matrix
  pub have_rows : HaveRows st e.state.pairs
  pub well_keyed : AllKeyed e.state.pending_warmup

-- What a cycle does to the engine.
pub record IsCycled (s : Sizes) (rt : Runtime) (clock : Clock) (update : Option ItemDictUpdate)
    (old : OrderStore) (before after : ComputeEngine) : Type 0 where
  pub purged : OrderStore
  pub cleaned :
      IsCleaned s (λ o. ltb o s.num_orders && is_expired clock.now_secs (slot old o)) old purged
  pub tables : OrderStore
  pub registry : tables.registry ≡ purged.registry
  pub indexes : tables.indexes ≡ purged.indexes
  pub scores : Phase1Done s rt purged.indexes purged.matrix tables.matrix update
  pub ready : IsReady s tables after
  pub published : AllDone s before.state.pairs (ShowsPair s tables clock.now_secs) after.db.ptr
  pub pairs : after.state.pairs ≡ before.state.pairs
  pub statuses :
      (key : ℕ)
      → get after.state.topology key ≡ (
          if ltb 0 (count key (keys before.state.pending_warmup))
          then some status_active
          else get before.state.topology key)
  pub pending : after.state.pending_warmup ≡ []

pub zero_Short : Short (pos 0)
zero_Short = omega (arith, pos_parts 0, pos_parts 32767, negsuc_parts 32767)

-- A cell that got the value `new` or kept its own is an int16 if both are.
pub value_or_old :
    (hit : Bool) (new : ℤ) {cell old : Option ℤ} {v : ℤ}
    → cell ≡ (if hit then some new else old)
    → cell ≡ some v
    → Short new
    → (old ≡ some v → Short v)
    → Short v
value_or_old true new {v = v} e f fits h = let same : new ≡ v = cc in subst Short same fits
value_or_old false new e f fits h = h (cc)

pub IsCleaned-IsShort :
    (s : Sizes) (gone : ℕ → Bool) (old new : OrderStore)
    → IsCleaned s gone old new
    → IsShort s old.matrix
    → IsShort s new.matrix
IsCleaned-IsShort s gone old new c short p o v hp ho e =
    let inside : p < old.matrix.num_pps = omega (arith, c.same_rows) in
    value_or_old (gone o) (pos 0) (c.scores p o inside ho) e zero_Short (short p o v inside ho)

-- A cycle of the cgo variant on a ready engine returns without a panic or undefined behaviour, with any
-- number of workers and with an update or without, if the service has a goroutine and an order slot at
-- least and the deltas of the update, over the store that the purge leaves, keep every sum within an
-- int32. It leaves a ready engine with the same pairs, from whose store exactly the expired orders were
-- purged and in which then the scores moved as the update says; it publishes the rankings of all pairs
-- over that store; it makes exactly the pending pairs active, and none is pending afterwards.
pub run_cycle_with_dict-IsCycled_live :
    (s : Sizes) (rt : Runtime) (int_overflow : ℤ → ℤ) (clock : Clock)
    (update : Option ItemDictUpdate) (st : OrderStore) (e : ComputeEngine)
    → 0 < s.num_workers
    → 0 < s.num_orders
    → IsReady s st e
    → ((st' : OrderStore)
        → purge_expired s st clock.now_secs ≡ ok st'
        → ModestDeltas s rt st'.indexes update)
    → Returns
        (λ r. IsCycled s rt clock update st e r.0)
        (run_cycle_with_dict s rt int_overflow clock update e)
unfolding run_cycle_with_dict promote_warming_pairs publish
run_cycle_with_dict-IsCycled_live s rt int_overflow clock update st e pool some_order v modest =
    let (st1, ran, cleaned) = Returns-value (purge_expired-IsCleaned s st clock.now_secs v.valid) in
    let gone = λ (o : ℕ). ltb o s.num_orders && is_expired clock.now_secs (slot st o) in
    let short1 = IsCleaned-IsShort s gone st st1 cleaned v.short in
    let row1 : 0 < st1.matrix.num_pps = omega (arith, cleaned.same_rows, v.some_row) in
    rw (v.alive, purge_expired-live s st clock.now_secs, ran)
      (Returns-bind
        (phase1_update-IsPhase1 s rt int_overflow e.num_workers st1.indexes st1.matrix update pool
          some_order row1 cleaned.valid.shaped short1 (modest st1 ran))
        λ matrix d.
          let st2 : OrderStore = record st1 { matrix = d.matrix } in
          let rows2 : HaveRows st2 e.state.pairs =
            λ j pair at. omega (arith, v.have_rows j pair at, d.rows, cleaned.same_rows) in
          rw d.alive (
            Returns-bind
              (phase2_rank-AllDone s rt st2 clock.now_secs e.state.pairs
                (record { shaped = d.shaped; slots = cleaned.valid.slots }) rows2 e.num_workers
                e.scratch pool)
              λ (buf, bank) done. returns (record {
                purged = st1;
                cleaned = cleaned;
                tables = st2;
                registry = refl;
                indexes = refl;
                scores = d.done;
                ready = record {
                  alive = refl;
                  valid = record {
                    slots = cleaned.valid.slots;
                    shaped = d.shaped;
                    consistent = cleaned.valid.consistent;
                    keyed = cleaned.valid.keyed;
                  };
                  some_row = omega (arith, d.rows, row1);
                  short = d.short;
                  have_rows = rows2;
                  well_keyed = no_pair;
                };
                published = done;
                pairs = refl;
                statuses = λ key.
                    activate_pending-get e.state.pending_warmup e.state.topology key v.well_keyed;
                pending = refl;
              })))
