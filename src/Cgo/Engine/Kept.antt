-- ===== src/Cgo/Engine/Kept.antt =====
-- What a cycle of the cgo variant keeps if it returns, whether or not every pair has a row.
use priority_service_poc.Base.{ℕ, ◌<◌, ◌≡◌, refl, Option, arith, ltb, ◌&&◌, ◌∙◌}
use priority_service_poc.Base.Int.{ℤ}
use priority_service_poc.Base.Run.{Returns-value, ok}
use priority_service_poc.Types.{Sizes}
use priority_service_poc.Types.Runtime.{Runtime}
use priority_service_poc.Buffer.{publish}
use priority_service_poc.Registry.{OrderStore, is_expired, purge_expired}
use priority_service_poc.Registry.Evict.{slot, IsValid}
use priority_service_poc.Registry.Purge.{purge_expired-IsCleaned}
use priority_service_poc.Engine.{Clock}
use priority_service_poc.Cgo.Scoring.Kernel.{IsShort}
use priority_service_poc.Cgo.Registry.Refinement.{live_store, purge_expired-live}
use priority_service_poc.Cgo.Pairs.{promote_warming_pairs}
use priority_service_poc.Cgo.Phase1.{ItemDictUpdate}
use priority_service_poc.Cgo.Phase1.Done.{ModestDeltas, phase1_update-IsPhase1}
use priority_service_poc.Cgo.Engine.{ComputeEngine, run_cycle_with_dict, CycleStats}
use priority_service_poc.Base.Run.{Yields, Yields-ok, Yields-step}
use priority_service_poc.Cgo.Pairs.{PairsState}
use priority_service_poc.Cgo.Engine.{phase2_rank}
use priority_service_poc.Cgo.Engine.Cycle.{IsCleaned-IsShort}

-- A store with its matrix on the C heap, valid and with int16 scores.
pub record IsLive (s : Sizes) (st : OrderStore) (e : ComputeEngine) : Type 0 where
  pub alive : e.store ≡ live_store st
  pub valid : IsValid s st
  pub some_row : 0 < st.matrix.num_pps
  pub short : IsShort s st.matrix

-- The engine after a cycle that returned.
pub record IsCycleKept (s : Sizes) (st : OrderStore) (state : PairsState) (after : ComputeEngine)
    : Type 0 where
  pub tables : OrderStore
  pub live : IsLive s tables after
  pub rows : tables.matrix.num_pps ≡ st.matrix.num_pps
  pub promoted : after.state ≡ promote_warming_pairs state

pub run_cycle_with_dict-IsCycleKept :
    (s : Sizes) (rt : Runtime) (int_overflow : ℤ → ℤ) (clock : Clock)
    (update : Option ItemDictUpdate) (st : OrderStore) (e : ComputeEngine)
    → 0 < s.num_workers
    → 0 < s.num_orders
    → IsLive s st e
    → ((st' : OrderStore)
        → purge_expired s st clock.now_secs ≡ ok st'
        → ModestDeltas s rt st'.indexes update)
    → Yields
        (λ r. IsCycleKept s st e.state r.0)
        (run_cycle_with_dict s rt int_overflow clock update e)
unfolding run_cycle_with_dict publish
run_cycle_with_dict-IsCycleKept s rt int_overflow clock update st e pool some_order v modest =
    let (st1, ran, cleaned) = Returns-value (purge_expired-IsCleaned s st clock.now_secs v.valid) in
    let gone = λ (o : ℕ). ltb o s.num_orders && is_expired clock.now_secs (slot st o) in
    let short1 = IsCleaned-IsShort s gone st st1 cleaned v.short in
    let row1 : 0 < st1.matrix.num_pps = omega (arith, cleaned.same_rows, v.some_row) in
    let (matrix, moved, d) = Returns-value (
      phase1_update-IsPhase1 s rt int_overflow e.num_workers st1.indexes st1.matrix update pool
        some_order row1 cleaned.valid.shaped short1 (modest st1 ran)) in
    let st2 : OrderStore = record st1 { matrix = d.matrix } in
    rw (v.alive, purge_expired-live s st clock.now_secs, ran)
      (rw (moved, d.alive)
        (Yields-step (λ (r : ComputeEngine × CycleStats). IsCycleKept s st e.state r.0)
          (phase2_rank s rt e.num_workers (live_store st2) e.state.pairs clock.now_secs e.scratch)
          λ (buf, bank).
            Yields-ok (λ (r : ComputeEngine × CycleStats). IsCycleKept s st e.state r.0)
              (record {
                tables = st2;
                live = record {
                  alive = refl;
                  valid = record {
                    slots = cleaned.valid.slots;
                    shaped = d.shaped;
                    consistent = cleaned.valid.consistent;
                    keyed = cleaned.valid.keyed;
                  };
                  some_row = omega (arith, d.rows, row1);
                  short = d.short;
                };
                rows = d.rows ∙ cleaned.same_rows;
                promoted = refl;
              })))
