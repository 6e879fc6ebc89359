-- ===== src/Registry.antt =====
-- go-pure-impl/registry.go: OrderRegistry, and the evictions that go through the registry, the
-- indexes and the matrix.
pub mod Evict
pub mod Purge
use priority_service_poc.Base.{
  ℕ, zero, suc, List, Bool, true, false, not, ◌&&◌, ◌||◌, replicate, leb, if◌then◌else◌,
}
use priority_service_poc.Base.Int.{ℤ, pos, ◌-ℤ◌, gtb_ℤ, wrap64}
use priority_service_poc.Base.Run.{Run, ok, ◌>>=◌, load, store}
use priority_service_poc.Types.{Sizes, OrderMeta, order_ttl_secs}
use priority_service_poc.Matrix.{PpsMatrix, evict_scores}
use priority_service_poc.Indexes.{InvertedIndexes, remove_order}

-- A fixed array: one slot for each order identifier below NumOrders.
pub record OrderRegistry : Type 0 where
  pub meta : List OrderMeta

abbrev pub zero_meta : OrderMeta
zero_meta = record {
  order_id = 0;
  required_qty = 0;
  pbt_deadline = pos 0;
  active = false;
  inserted_at_secs = pos 0;
}

unfoldable pub new_order_registry : Sizes → OrderRegistry
new_order_registry s = record { meta = replicate s.num_orders zero_meta }

unfoldable pub upsert : OrderRegistry → OrderMeta → Run OrderRegistry
upsert r m = store r.meta m.order_id m >>= λ meta. ok (record r { meta = meta })

unfoldable pub deactivate : OrderRegistry → ℕ → Run OrderRegistry
deactivate r order_id = do
  m ← load r.meta order_id
  meta ← store r.meta order_id (record m { active = false })
  ok (record r { meta = meta })

-- The registry, the indexes and the matrix, which the methods below take by pointer.
pub record OrderStore : Type 0 where
  pub registry : OrderRegistry
  pub indexes : InvertedIndexes
  pub matrix : PpsMatrix

-- The two assignments that mark the slot `i` as evicted.
unfoldable pub clear_slot : OrderRegistry → ℕ → OrderMeta → Run OrderRegistry
clear_slot r i m = do
  meta ← store r.meta i (record m { active = false; inserted_at_secs = pos 0 })
  ok (record r { meta = meta })

-- The four statements that EvictOrder and PurgeExpired share: the slot is `i`, and the entries
-- of `order_id` are cleaned up.
unfoldable pub evict_slot : Sizes → OrderStore → ℕ → OrderMeta → ℕ → Run OrderStore
unfolding clear_slot
evict_slot s st i m order_id = do
  registry ← clear_slot st.registry i m
  matrix ← evict_scores s st.matrix order_id
  ok (record { registry = registry; indexes = remove_order st.indexes order_id; matrix = matrix })

-- `||` reads the slot only if the identifier is in range.
unfoldable pub evict_order : Sizes → OrderStore → ℕ → Run OrderStore
unfolding evict_slot
evict_order s st order_id =
    let known = load st.registry.meta order_id >>= λ m.
    if not m.active then ok st else evict_slot s st order_id m order_id in
    if leb s.num_orders order_id then ok st else known

-- `(nowSecs - m.InsertedAtSecs) > OrderTTLSecs`, among the other conditions.
unfoldable pub is_expired : ℤ → OrderMeta → Bool
is_expired now_secs m =
    m.active
    && gtb_ℤ m.inserted_at_secs (pos 0)
    && gtb_ℤ (wrap64 (now_secs -ℤ m.inserted_at_secs)) order_ttl_secs

-- The loop over `i`, with the rounds that are left.
unfoldable pub purge_loop : Sizes → ℤ → ℕ → ℕ → OrderStore → Run OrderStore
unfolding is_expired evict_slot
purge_loop s now_secs zero i st = ok st
purge_loop s now_secs (suc rounds) i st = do
  m ← load st.registry.meta i
  st' ← if is_expired now_secs m then evict_slot s st i m m.order_id else ok st
  purge_loop s now_secs rounds (suc i) st'

unfoldable pub purge_expired : Sizes → OrderStore → ℤ → Run OrderStore
unfolding purge_loop
purge_expired s st now_secs = purge_loop s now_secs s.num_orders 0 st
