-- ===== src/Examples/Tables.antt =====
-- The order store: ingest, eviction, purge and Phase 1.
use priority_service_poc.Base.{ℕ, ◌≡◌, refl, List, [], ◌∷◌, inl, some, arith, ltb, ◌&&◌}
use priority_service_poc.Base.Int.{ℤ, pos, negsuc}
use priority_service_poc.Base.Run.{Returns}
use priority_service_poc.Types.{make_pair_key-injective}
use priority_service_poc.Matrix.{IsShaped}
use priority_service_poc.Buffer.{new_read_buffer, put_list}
use priority_service_poc.Buffer.Slots.{list_at, list_at-put_list_other, new_read_buffer-IsSized}
use priority_service_poc.Indexes.{add_order, remove_order}
use priority_service_poc.Indexes.Links.{
  IsConsistent, Relinked, add_order-IsConsistent, remove_order-IsConsistent,
}
use priority_service_poc.Registry.{evict_order, purge_expired, is_expired}
use priority_service_poc.Registry.Evict.{slot, EvictOutcome, evict_order-IsEvicted}
use priority_service_poc.Registry.Purge.{IsCleaned, purge_expired-IsCleaned}
use priority_service_poc.Ingest.{ingest_order}
use priority_service_poc.Ingest.Orders.{IsIngested, ingest_order-IsIngested}
use priority_service_poc.Phase1.{update_matrix, phase1_update}
use priority_service_poc.Phase1.Rows.{IsUpdated}
use priority_service_poc.Phase1.Pool.{update_matrix-IsUpdated}
use priority_service_poc.Phase1.Delta.{Phase1Done, phase1_update-Phase1Done}
use priority_service_poc.Engine.Ready.{
  IsReady, IsReady-ListsBelow, evict_order-IsReady, ingest_order-IsReady,
}
use priority_service_poc.Examples.Sorting.{sample_runtime}
use priority_service_poc.Examples.Data.{
  small, second_event, one_order, two_orders, one_order-IsReady, two_orders-IsReady,
}
use priority_service_poc.Examples.Scenario.{sample_update}

purge_expired-IsCleaned_example :
    Returns
      (IsCleaned small
        (λ o. ltb o small.num_orders && is_expired (pos 4_700) (slot two_orders o))
        two_orders)
      (purge_expired small two_orders (pos 4_700))
purge_expired-IsCleaned_example =
    purge_expired-IsCleaned small two_orders (pos 4_700) two_orders-IsReady.valid

evict_order-IsEvicted_example :
    Returns (EvictOutcome small 1 two_orders) (evict_order small two_orders 1)
evict_order-IsEvicted_example = evict_order-IsEvicted small two_orders 1 two_orders-IsReady.valid

ingest_order-IsIngested_example :
    Returns
      (IsIngested small sample_runtime second_event (pos 2_000) one_order)
      (ingest_order small sample_runtime second_event (pos 2_000) one_order)
ingest_order-IsIngested_example =
    ingest_order-IsIngested small sample_runtime second_event (pos 2_000) one_order
      one_order-IsReady.valid (omega arith)

ingest_order-IsReady_example :
    Returns (IsReady small) (ingest_order small sample_runtime second_event (pos 2_000) one_order)
ingest_order-IsReady_example =
    ingest_order-IsReady small sample_runtime second_event (pos 2_000) one_order one_order-IsReady
      (omega arith)

evict_order-IsReady_example : Returns (IsReady small) (evict_order small two_orders 0)
evict_order-IsReady_example = evict_order-IsReady small two_orders 0 two_orders-IsReady

-- A list of item types that names one twice.
add_order-IsConsistent_example :
    IsConsistent (add_order two_orders.indexes 1 (8 ∷ 8 ∷ []) (1 ∷ []))
    × Relinked 1
        (8 ∷ 8 ∷ [])
        two_orders.indexes.tpid_to_orders
        (add_order two_orders.indexes 1 (8 ∷ 8 ∷ []) (1 ∷ [])).tpid_to_orders
    × Relinked 1
        (1 ∷ [])
        two_orders.indexes.bin_tag_to_orders
        (add_order two_orders.indexes 1 (8 ∷ 8 ∷ []) (1 ∷ [])).bin_tag_to_orders
add_order-IsConsistent_example =
    add_order-IsConsistent two_orders.indexes 1 (8 ∷ 8 ∷ []) (1 ∷ [])
      two_orders-IsReady.valid.consistent

remove_order-IsConsistent_example :
    IsConsistent (remove_order two_orders.indexes 1)
    × Relinked 1 [] two_orders.indexes.tpid_to_orders
        (remove_order two_orders.indexes 1).tpid_to_orders
    × Relinked 1 [] two_orders.indexes.bin_tag_to_orders
        (remove_order two_orders.indexes 1).bin_tag_to_orders
remove_order-IsConsistent_example =
    remove_order-IsConsistent two_orders.indexes 1 two_orders-IsReady.valid.consistent

abbrev sample_delta : List ℤ
sample_delta = pos 7 ∷ negsuc 99 ∷ pos 40_000 ∷ []

update_matrix-IsUpdated_example :
    Returns
      (λ m'. IsUpdated small sample_delta 0 2 two_orders.matrix m')
      (update_matrix small (pos 2) sample_delta two_orders.matrix)
update_matrix-IsUpdated_example =
    update_matrix-IsUpdated small (pos 2) sample_delta two_orders.matrix (omega arith) (omega arith)
      refl refl

phase1_update-Phase1Done_example :
    Returns
      (λ m'.
        Phase1Done small sample_runtime two_orders.indexes two_orders.matrix m' (some sample_update)
        × IsShaped small m'
        × (m'.num_pps ≡ 2))
      (phase1_update small sample_runtime
        (pos 0)
        two_orders.indexes
        (some sample_update)
        two_orders.matrix)
phase1_update-Phase1Done_example =
    phase1_update-Phase1Done small sample_runtime (pos 0) two_orders.indexes (some sample_update)
      two_orders.matrix (omega arith) (omega arith) refl
      (IsReady-ListsBelow small two_orders two_orders-IsReady)

list_at-put_list_other_example :
    list_at small (put_list small (new_read_buffer small 2) 0 1 (pos 4 ∷ pos 2 ∷ [])) 1 1
    ≡ list_at small (new_read_buffer small 2) 1 1
unfolding new_read_buffer
list_at-put_list_other_example =
    list_at-put_list_other small (new_read_buffer small 2) 0 1 1 1 (pos 4 ∷ pos 2 ∷ [])
      (new_read_buffer-IsSized small 2) (omega arith) (omega arith) (omega arith) refl
      (inl λ e. omega (arith, e))

make_pair_key-injective_example : (◌≡◌ {A = ℕ} 3 3) × (◌≡◌ {A = ℕ} 5 5)
make_pair_key-injective_example =
    make_pair_key-injective 3 5 3 5 (omega arith) (omega arith) (omega arith) (omega arith) refl
