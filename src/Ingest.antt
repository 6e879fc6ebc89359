-- ===== src/Ingest.antt =====
-- go-pure-impl/mock.go: IngestOrder, which applies an order event to the store.
pub mod Orders
use priority_service_poc.Base.{ℕ, List, Bool}
use priority_service_poc.Base.Int.{ℤ}
use priority_service_poc.Base.Run.{Run, ok, ◌>>=◌}
use priority_service_poc.Types.{Sizes, OrderMeta}
use priority_service_poc.Types.Float.{Float32}
use priority_service_poc.Types.Runtime.{Runtime}
use priority_service_poc.Matrix.{write_order}
use priority_service_poc.Indexes.{add_order}
use priority_service_poc.Registry.{OrderStore, upsert}
use priority_service_poc.Phase1.{clamp_int16, scaled_delta}

pub record KafkaOrderEvent : Type 0 where
  pub order_id : ℕ
  pub required_qty : Float32
  pub pbt_deadline : ℤ
  pub base_score : Float32
  pub tpids : List ℕ
  pub eligible_bin_tags : List ℕ
  pub active : Bool

unfoldable pub event_meta : KafkaOrderEvent → ℤ → OrderMeta
event_meta evt now_secs = record {
  order_id = evt.order_id;
  required_qty = evt.required_qty;
  pbt_deadline = evt.pbt_deadline;
  active = evt.active;
  inserted_at_secs = now_secs;
}

-- `clampInt16(int32(evt.BaseScore * ScoreScale))`
unfoldable pub base_i16 : Runtime → KafkaOrderEvent → ℤ
unfolding clamp_int16 scaled_delta
base_i16 rt evt = clamp_int16 (scaled_delta rt evt.base_score)

unfoldable pub ingest_order : Sizes → Runtime → KafkaOrderEvent → ℤ → OrderStore → Run OrderStore
unfolding upsert event_meta base_i16
ingest_order s rt evt now_secs st = do
  registry ← upsert st.registry (event_meta evt now_secs)
  matrix ← write_order s st.matrix evt.order_id (base_i16 rt evt)
  ok (record {
    registry = registry;
    indexes = add_order st.indexes evt.order_id evt.tpids evt.eligible_bin_tags;
    matrix = matrix;
  })
