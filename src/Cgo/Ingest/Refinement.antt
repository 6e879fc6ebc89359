-- ===== src/Cgo/Ingest/Refinement.antt =====
-- IngestOrder of the cgo variant refines that of the pure variant.
use native.Mathlib.Decide.{dec_lt}
use priority_service_poc.Base.{
  ℕ, zero, suc, ◌*◌, ◌+◌, ◌<◌, ◌≡◌, refl, sym, ◌∙◌, List, [], ◌∷◌, some, true, false, arith, length,
  ltb, leb, Bool-cases, inl, inr, get_elem?-get_or,
}
use priority_service_poc.Base.Int.{ℤ}
use priority_service_poc.Base.Dict.{Dict, delete}
use priority_service_poc.Base.Run.{Run, ok, panic, out_of_fuel, ◌>>=◌, store, load-ok, store-ok}
use priority_service_poc.Types.{Sizes, OrderMeta}
use priority_service_poc.Types.Runtime.{Runtime}
use priority_service_poc.Matrix.{write_column, write_order}
use priority_service_poc.Indexes.Links.{delete-none}
use priority_service_poc.Cgo.Registry.{upsert as cgo_upsert}
use priority_service_poc.Cgo.Registry.Ranges.{load-panic, store-panic}
use priority_service_poc.Indexes.{InvertedIndexes, remove_order, unlink, add_order}
use priority_service_poc.Registry.{OrderRegistry, OrderStore, upsert, zero_meta}
use priority_service_poc.Ingest.{KafkaOrderEvent, ingest_order}
use priority_service_poc.Cgo.Registry.Refinement.{live_store, live_stores, bind_assoc, bind_cong}
use priority_service_poc.Cgo.Ingest.{
  KafkaOrderEvent as CgoEvent, ingest_order as cgo_ingest_order, write_base_score, remove_if_active,
}

-- The event of the pure variant: its order is active.
abbrev pub active_event : CgoEvent → KafkaOrderEvent
active_event evt = record {
  order_id = evt.order_id;
  required_qty = evt.required_qty;
  pbt_deadline = evt.pbt_deadline;
  base_score = evt.base_score;
  tpids = evt.tpids;
  eligible_bin_tags = evt.eligible_bin_tags;
  active = true;
}

write_base_score-live :
    (s : Sizes) (oid : ℕ) (v : ℤ) (n rounds p : ℕ) (cells : List ℤ)
    → oid < s.num_orders
    → write_base_score s oid v rounds p (record { ptr = some cells; num_pps = n }) ≡ (
        write_column s rounds oid v p cells >>= λ cells'.
        ok (record { ptr = some cells'; num_pps = n }))
unfolding write_base_score write_column
write_base_score-live s oid v n zero p cells h = refl
write_base_score-live s oid v n (suc rounds) p cells h =
    let inside : ltb oid s.num_orders ≡ true = ground arith in
    rw inside (
      bind_assoc (store cells (p * s.num_orders + oid) v) _ _
      ∙ bind_cong (store cells (p * s.num_orders + oid) v) _ _
          (λ cells'. write_base_score-live s oid v n rounds (suc p) cells' h)
      ∙ sym (bind_assoc (store cells (p * s.num_orders + oid) v) _ _))

delete_twice : {V : Type 0} (k : ℕ) (m : Dict V) → delete k (delete k m) ≡ delete k m
unfolding delete
delete_twice k [] = refl
delete_twice k ((j, w) ∷ m) = ground (arith, delete_twice k m)

-- RemoveOrder is idempotent, whatever the maps hold.
pub remove_order_twice :
    (ix : InvertedIndexes) (o : ℕ) → remove_order (remove_order ix o) o ≡ remove_order ix o
unfolding remove_order unlink
remove_order_twice ix o =
    rw
      (
        delete-none o ix.reverse_tpid,
        delete-none o ix.reverse_bin_tag,
        delete_twice o ix.reverse_tpid,
        delete_twice o ix.reverse_bin_tag,
      )
      refl

add_order-remove_if_active :
    (m : OrderMeta) (ix : InvertedIndexes) (o : ℕ) (tpids bin_tags : List ℕ)
    → add_order (remove_if_active m ix o) o tpids bin_tags ≡ add_order ix o tpids bin_tags
unfolding add_order
add_order-remove_if_active m ix o tpids bin_tags = elim (Bool-cases m.active) [
  | inl on ↦ rw (on, remove_order_twice ix o) refl
  | inr off ↦ rw off refl
]

ingested_parts :
    (st : OrderStore) (registry : OrderRegistry) (ix : InvertedIndexes) (run : Run (List ℤ))
    → ((run >>= λ cells. ok (record { ptr = some cells; num_pps = st.matrix.num_pps }))
        >>= λ matrix. ok (record { registry = registry; indexes = ix; matrix = matrix }))
      ≡ live_stores (
          (run >>= λ cells. ok (record { scores = cells; num_pps = st.matrix.num_pps }))
          >>= λ matrix. ok (record { registry = registry; indexes = ix; matrix = matrix }))
ingested_parts st registry ix panic = refl
ingested_parts st registry ix out_of_fuel = refl
ingested_parts st registry ix (ok cells) = refl

-- IngestOrder of the cgo variant, on a registry with a slot for each order and a matrix that is not freed,
-- does for an order of any identifier and status what that of the pure variant does for the same event
-- with an active order: the same registry, indexes and scores, or a panic, which an identifier out of
-- range makes in both.
pub ingest_order-refines :
    (s : Sizes) (rt : Runtime) (evt : CgoEvent) (now_secs : ℤ) (st : OrderStore)
    → length st.registry.meta ≡ s.num_orders
    → cgo_ingest_order s rt evt now_secs (live_store st)
      ≡ live_stores (ingest_order s rt (active_event evt) now_secs st)
unfolding cgo_ingest_order ingest_order write_order upsert cgo_upsert
ingest_order-refines s rt evt now_secs st slots = elim (dec_lt evt.order_id s.num_orders) [
  | yes inside ↦
      let oid = evt.order_id in
      let hit : oid < length st.registry.meta = omega arith in
      let low : leb s.num_orders oid ≡ false = ground arith in
      let known : ltb oid s.num_orders ≡ true = ground arith in
      rw
        (
          load-ok st.registry.meta oid (get_elem?-get_or st.registry.meta oid zero_meta hit),
          low,
          store-ok st.registry.meta oid _ hit,
          known,
          write_base_score-live s oid _ st.matrix.num_pps st.matrix.num_pps 0 st.matrix.scores
              inside,
          add_order-remove_if_active,
        )
        (ingested_parts st _ _ (write_column s st.matrix.num_pps oid _ 0 st.matrix.scores))
  | no outside ↦
      rw
        (
          load-panic st.registry.meta evt.order_id (omega arith),
          store-panic st.registry.meta evt.order_id _ (omega arith),
        )
        refl
]
