-- ===== src/Cgo/Ingest.antt =====
-- go-cgo-impl/mock.go: the order events and IngestOrder of the variant with a C kernel. The pointer to
-- the matrix is not nil.
pub mod Refinement
use priority_service_poc.Base.{ℕ, zero, suc, List, true, ltb, if◌then◌else◌}
use priority_service_poc.Base.Int.{ℤ, pos, negsuc, gtb_ℤ}
use priority_service_poc.Base.Run.{Run, ok, load, ◌>>=◌}
use priority_service_poc.Types.{Sizes, OrderMeta}
use priority_service_poc.Types.Float.{Float32}
use priority_service_poc.Types.Runtime.{Runtime}
use priority_service_poc.Indexes.{InvertedIndexes, add_order, remove_order}
use priority_service_poc.Phase1.{scaled_delta}
use priority_service_poc.Cgo.Scoring.{PpsMatrix, row, write_row}
use priority_service_poc.Cgo.Registry.{OrderStore, upsert}

unfoldable pub clamp_i16 : ℤ → ℤ
clamp_i16 v =
    if gtb_ℤ v (pos 32767) then pos 32767 else if gtb_ℤ (negsuc 32766) v then negsuc 32766 else v

-- An event has no flag here: its order is active.
pub record KafkaOrderEvent : Type 0 where
  pub order_id : ℕ
  pub required_qty : Float32
  pub pbt_deadline : ℤ
  pub tpids : List ℕ
  pub eligible_bin_tags : List ℕ
  pub base_score : Float32

unfoldable pub event_meta : KafkaOrderEvent → ℤ → OrderMeta
event_meta evt now_secs = record {
  order_id = evt.order_id;
  required_qty = evt.required_qty;
  pbt_deadline = evt.pbt_deadline;
  active = true;
  inserted_at_secs = now_secs;
}

-- `clampI16(int32(evt.BaseScore * ScoreScale))`
unfoldable pub base_i16 : Runtime → KafkaOrderEvent → ℤ
unfolding clamp_i16 scaled_delta
base_i16 rt evt = clamp_i16 (scaled_delta rt evt.base_score)

-- `for p := p; p < NumPPS; p++ { row := matrix.Row(p); row[oid] = v }`, with the rounds that are left.
unfoldable pub write_base_score : Sizes → ℕ → ℤ → ℕ → ℕ → PpsMatrix → Run PpsMatrix
unfolding row write_row
write_base_score s oid v zero p m = ok m
write_base_score s oid v (suc rounds) p m = do
  view ← row s m p
  memory ← write_row view oid v
  write_base_score s oid v rounds (suc p) (record m { ptr = memory })

-- `if registry.Meta[evt.OrderID].Active { indexes.RemoveOrder(evt.OrderID) }`
abbrev remove_if_active : OrderMeta → InvertedIndexes → ℕ → InvertedIndexes
remove_if_active m ix order_id = if m.active then remove_order ix order_id else ix

unfoldable pub ingest_order : Sizes → Runtime → KafkaOrderEvent → ℤ → OrderStore → Run OrderStore
unfolding upsert event_meta base_i16
ingest_order s rt evt now_secs st = do
  m ← load st.registry.meta evt.order_id
  registry ← upsert s st.registry (event_meta evt now_secs)
  matrix ←
      if ltb evt.order_id s.num_orders
      then write_base_score s evt.order_id (base_i16 rt evt) st.matrix.num_pps 0 st.matrix
      else ok st.matrix
  ok (record {
    registry = registry;
    indexes =
        add_order (remove_if_active m st.indexes evt.order_id) evt.order_id evt.tpids
          evt.eligible_bin_tags;
    matrix = matrix;
  })
