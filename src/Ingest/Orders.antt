-- ===== src/Ingest/Orders.antt =====
-- What the store holds of an order after its event.
use priority_service_poc.Base.{
  ℕ, ◌<◌, ◌≡◌, refl, ap, ◌∙◌, inl, inr, true, false, arith, length, length-set, get_or-set, ◌==◌,
  if◌then◌else◌, Bool-cases, eq_of_==, ◌≤◌, ltb,
}
use priority_service_poc.Base.Int.{ℤ}
use priority_service_poc.Base.Run.{panic, Returns, returns, Returns-bind, store-ok, store}
use priority_service_poc.Types.{Sizes, OrderMeta}
use priority_service_poc.Types.Runtime.{Runtime}
use priority_service_poc.Matrix.Cells.{HasOrder, write_order-HasOrder}
use priority_service_poc.Indexes.Links.{Relinked, add_order-IsConsistent}
use priority_service_poc.Registry.{OrderStore, upsert, zero_meta}
use priority_service_poc.Registry.Evict.{IsValid, slot}
use priority_service_poc.Ingest.{KafkaOrderEvent, event_meta, base_i16, ingest_order}

-- The order of the event is in the registry, under exactly its item types and bin tags, with its base
-- score in every row; nothing else changed.
pub record IsIngested (s : Sizes) (rt : Runtime) (evt : KafkaOrderEvent) (now_secs : ℤ)
    (old new : OrderStore) : Type 0 where
  pub valid : IsValid s new
  pub slots :
      (o : ℕ) → slot new o ≡ (if evt.order_id == o then event_meta evt now_secs else slot old o)
  pub tpids : Relinked evt.order_id evt.tpids old.indexes.tpid_to_orders new.indexes.tpid_to_orders
  pub bin_tags :
      Relinked evt.order_id evt.eligible_bin_tags old.indexes.bin_tag_to_orders
        new.indexes.bin_tag_to_orders
  pub scores : HasOrder s evt.order_id (base_i16 rt evt) old.matrix new.matrix

still_keyed :
    (evt : KafkaOrderEvent) (now_secs : ℤ) (m : OrderMeta) (o : ℕ) {m' : OrderMeta}
    → m' ≡ (if evt.order_id == o then event_meta evt now_secs else m)
    → (m.active ≡ true → m.order_id ≡ o)
    → m'.active ≡ true
    → m'.order_id ≡ o
unfolding event_meta
still_keyed evt now_secs m o {m'} e keyed on = elim (Bool-cases (evt.order_id == o)) [
  | inl here ↦
      let now : m' ≡ event_meta evt now_secs = e ∙ rw here refl in
      ap (λ (x : OrderMeta). x.order_id) now ∙ eq_of_== evt.order_id o here
  | inr other ↦ let kept : m' ≡ m = e ∙ rw other refl in rw kept (keyed (rw (← kept) on))
]

-- IngestOrder on a valid store, for an order in range, returns without a panic a valid store that holds
-- the order of the event: its slot is the one of the event with the current time, whatever it held
-- before, it stands under exactly the item types and bin tags of the event and has the clamped base
-- score in every row; every other order keeps its slot, its lists and its scores.
pub ingest_order-IsIngested :
    (s : Sizes) (rt : Runtime) (evt : KafkaOrderEvent) (now_secs : ℤ) (st : OrderStore)
    → IsValid s st
    → evt.order_id < s.num_orders
    → Returns (IsIngested s rt evt now_secs st) (ingest_order s rt evt now_secs st)
unfolding ingest_order upsert event_meta
ingest_order-IsIngested s rt evt now_secs st valid inside =
    let oid = evt.order_id in
    let m = event_meta evt now_secs in
    let hit : oid < length st.registry.meta = omega (arith, valid.slots) in
    let (consistent, tpids, bin_tags) =
      add_order-IsConsistent st.indexes oid evt.tpids evt.eligible_bin_tags valid.consistent in
    let now = λ (o : ℕ). get_or-set st.registry.meta oid o m zero_meta hit in
    rw (store-ok st.registry.meta oid m hit) (
      Returns-bind (write_order-HasOrder s st.matrix oid (base_i16 rt evt) valid.shaped inside)
        λ matrix has. returns (record {
          valid = record {
            slots = length-set st.registry.meta oid m ∙ valid.slots;
            shaped = has.shaped;
            consistent = consistent;
            keyed = λ o. still_keyed evt now_secs (slot st o) o (now o) (valid.keyed o);
          };
          slots = now;
          tpids = tpids;
          bin_tags = bin_tags;
          scores = has;
        }))

-- An order out of range makes IngestOrder panic.
pub ingest_order-out_of_range :
    (s : Sizes) (rt : Runtime) (evt : KafkaOrderEvent) (now_secs : ℤ) (st : OrderStore)
    → IsValid s st
    → s.num_orders ≤ evt.order_id
    → ingest_order s rt evt now_secs st ≡ panic
unfolding ingest_order upsert store event_meta
ingest_order-out_of_range s rt evt now_secs st valid out =
    let miss : ltb evt.order_id (length st.registry.meta) ≡ false = ground (arith, valid.slots) in
    rw miss refl
