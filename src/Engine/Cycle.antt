-- ===== src/Engine/Cycle.antt =====
-- RunCycleWithDict: the cycle as a whole.
use priority_service_poc.Base.{ℕ, ◌<◌, ◌≡◌, refl, Option, ltb, ◌&&◌}
use priority_service_poc.Base.Run.{Returns, returns, Returns-bind}
use priority_service_poc.Types.{Sizes}
use priority_service_poc.Types.Runtime.{Runtime}
use priority_service_poc.Buffer.{publish}
use priority_service_poc.Topology.{get}
use priority_service_poc.Indexes.Counts.{count}
use priority_service_poc.Registry.{OrderStore, is_expired}
use priority_service_poc.Registry.Evict.{slot}
use priority_service_poc.Registry.Purge.{IsCleaned}
use priority_service_poc.Phase1.{ItemDictUpdate}
use priority_service_poc.Phase1.Delta.{Phase1Done, phase1_update-Phase1Done}
use priority_service_poc.Phase2.{RankInput}
use priority_service_poc.Phase2.Workers.{IsRankedBuffer, phase2_rank-IsRankedBuffer}
use priority_service_poc.Engine.{ComputeEngine, Clock, run_cycle_with_dict, promote_warming_pairs}
use priority_service_poc.Engine.Ready.{
  IsReady, IsReady-IsRankable, IsReady-ListsBelow, IsReady-matrix, purge_expired-IsReady,
}
use priority_service_poc.Engine.Promote.{
  keys, AllKeyed, promoted_status, leftover, promote_pending-get, promote_pending-leftover,
}

-- What Phase 2 of the cycle ranked: the store as the cycle leaves it, and the topology that it began with.
abbrev pub ranked_input : ComputeEngine → ComputeEngine → Clock → RankInput
ranked_input before after clock = record {
  tables = after.store;
  topology = before.topology;
  pairs = before.pairs;
  now_secs = clock.now_secs;
}

-- The order store of the cycle: expired orders are purged, then the scores move.
pub record IsRefreshed (s : Sizes) (rt : Runtime) (clock : Clock) (update : Option ItemDictUpdate)
    (old new : OrderStore) : Type 0 where
  pub purged : OrderStore
  pub cleaned :
      IsCleaned s (λ o. ltb o s.num_orders && is_expired clock.now_secs (slot old o)) old purged
  pub registry : new.registry ≡ purged.registry
  pub indexes : new.indexes ≡ purged.indexes
  pub scores : Phase1Done s rt purged.indexes purged.matrix new.matrix update

-- What a cycle does to the engine.
pub record IsCycled (s : Sizes) (rt : Runtime) (clock : Clock) (update : Option ItemDictUpdate)
    (before after : ComputeEngine) : Type 0 where
  pub ready : IsReady s after.store
  pub store : IsRefreshed s rt clock update before.store after.store
  pub published : IsRankedBuffer s (ranked_input before after clock) after.db.ptr
  pub pairs : after.pairs ≡ before.pairs
  pub statuses :
      (key : ℕ)
      → get after.topology key ≡ promoted_status key before.pending_warmup (get before.topology key)
  pub pending :
      (key : ℕ)
      → count key (keys after.pending_warmup)
        ≡ leftover (get before.topology key) (count key (keys before.pending_warmup))

-- A cycle on a ready engine, in a service with a goroutine at least, returns without a panic, with any
-- number of workers and with an update or without. It leaves a ready store, from which exactly the expired
-- orders were purged and in which then the scores moved as the update says; it publishes the rankings of
-- all pairs, removed ones blank, over that store and the topology from before the promotion; it activates
-- exactly the warming pairs that were pending.
pub run_cycle_with_dict-IsCycled :
    (s : Sizes) (rt : Runtime) (clock : Clock) (update : Option ItemDictUpdate) (e : ComputeEngine)
    → 0 < s.num_workers
    → IsReady s e.store
    → AllKeyed e.pending_warmup
    → Returns (λ r. IsCycled s rt clock update e r.0) (run_cycle_with_dict s rt clock update e)
unfolding run_cycle_with_dict promote_warming_pairs publish
run_cycle_with_dict-IsCycled s rt clock update e pool ready well_keyed =
    Returns-bind (purge_expired-IsReady s e.store clock.now_secs ready) λ st (ready1, cleaned).
      Returns-bind
        (phase1_update-Phase1Done s rt e.num_workers st.indexes update st.matrix pool ready1.rows
          ready1.valid.shaped (IsReady-ListsBelow s st ready1))
        λ matrix (scored, shaped, same_rows).
          let ready2 = IsReady-matrix s st matrix ready1 shaped same_rows in
          Returns-bind
            (phase2_rank-IsRankedBuffer s rt e.num_workers _ e.scratch pool
              (IsReady-IsRankable s _ ready2))
            λ (buf, bank) ranked. returns (record {
              ready = ready2;
              store = record {
                purged = st;
                cleaned = cleaned;
                registry = refl;
                indexes = refl;
                scores = scored;
              };
              published = ranked;
              pairs = refl;
              statuses = λ key. promote_pending-get e.pending_warmup e.topology key well_keyed;
              pending = λ key. promote_pending-leftover e.pending_warmup e.topology key well_keyed;
            })
