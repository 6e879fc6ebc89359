-- ===== src/Cgo/Registry.antt =====
-- go-cgo-impl/registry.go: the methods of OrderRegistry in the variant with a C kernel, which test the
-- range of the identifier. The registry and the indexes are those of the pure variant; the matrix is on
-- the C heap.
pub mod Ranges
pub mod Refinement
use priority_service_poc.Base.{ℕ, zero, suc, false, not, leb, if◌then◌else◌}
use priority_service_poc.Base.Int.{ℤ, pos}
use priority_service_poc.Base.Run.{Run, ok, load, store, ◌>>=◌}
use priority_service_poc.Types.{Sizes, OrderMeta}
use priority_service_poc.Indexes.{InvertedIndexes, remove_order}
use priority_service_poc.Registry.{OrderRegistry, is_expired}
use priority_service_poc.Cgo.Scoring.{PpsMatrix, evict_order as evict_scores}

unfoldable pub upsert : Sizes → OrderRegistry → OrderMeta → Run OrderRegistry
upsert s r m =
    if leb s.num_orders m.order_id
    then ok r
    else (store r.meta m.order_id m >>= λ meta. ok (record r { meta = meta }))

-- `r.Meta[orderID].Active = false`
unfoldable pub clear_active : OrderRegistry → ℕ → Run OrderRegistry
clear_active r order_id = do
  m ← load r.meta order_id
  meta ← store r.meta order_id (record m { active = false })
  ok (record r { meta = meta })

unfoldable pub deactivate : Sizes → OrderRegistry → ℕ → Run OrderRegistry
unfolding clear_active
deactivate s r order_id = if leb s.num_orders order_id then ok r else clear_active r order_id

-- The registry, the indexes and the matrix, which the methods below take by pointer.
pub record OrderStore : Type 0 where
  pub registry : OrderRegistry
  pub indexes : InvertedIndexes
  pub matrix : PpsMatrix

-- The four statements of an eviction: the slot is `i`, the entries are those of `order_id`.
unfoldable pub evict_slot : Sizes → OrderStore → ℕ → OrderMeta → ℕ → Run OrderStore
evict_slot s st i m order_id = do
  meta ← store st.registry.meta i (record m { active = false; inserted_at_secs = pos 0 })
  matrix ← evict_scores s st.matrix order_id
  ok (record {
    registry = record st.registry { meta = meta };
    indexes = remove_order st.indexes order_id;
    matrix = matrix;
  })

unfoldable pub evict_order : Sizes → OrderStore → ℕ → Run OrderStore
evict_order s st order_id =
    let known = load st.registry.meta order_id >>= λ m.
    if not m.active then ok st else evict_slot s st order_id m order_id in
    if leb s.num_orders order_id then ok st else known

-- The loop over `i`, with the rounds that are left.
unfoldable pub purge_loop : Sizes → ℤ → ℕ → ℕ → OrderStore → Run OrderStore
purge_loop s now_secs zero i st = ok st
purge_loop s now_secs (suc rounds) i st = do
  m ← load st.registry.meta i
  st' ← if is_expired now_secs m then evict_slot s st i m m.order_id else ok st
  purge_loop s now_secs rounds (suc i) st'

unfoldable pub purge_expired : Sizes → OrderStore → ℤ → Run OrderStore
unfolding purge_loop
purge_expired s st now_secs = purge_loop s now_secs s.num_orders 0 st
