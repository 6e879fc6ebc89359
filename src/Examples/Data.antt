-- ===== src/Examples/Data.antt =====
-- A service with three orders, two rows and two pairs.
use priority_service_poc.Base.Dict.{lookup}
use priority_service_poc.Engine.Ready.{IsReady, new_compute_engine-IsReady, ingest_order-IsReady}
use priority_service_poc.Base.{
  ℕ, ◌≡◌, refl, List, [], ◌∷◌, true, false, Option, some, none, arith, ◌++◌,
}
use priority_service_poc.Base.Int.{ℤ, pos, negsuc}
use priority_service_poc.Base.Run.{ok, store, Returns-at}
use priority_service_poc.Types.{Sizes}
use priority_service_poc.Matrix.{write_order}
use priority_service_poc.Indexes.{InvertedIndexes}
use priority_service_poc.Registry.{OrderStore, zero_meta}
use priority_service_poc.Ingest.{KafkaOrderEvent, ingest_order, event_meta}
use priority_service_poc.Engine.{ComputeEngine, Clock, pair_info, run_cycle_with_dict}
use priority_service_poc.Examples.Sorting.{sample_runtime}

abbrev pub small : Sizes
small = record { num_orders = 3; num_pps = 2; num_bin_tags = 2; top_k = 2; num_workers = 2 }

abbrev pub no_orders : OrderStore
no_orders = record {
  registry = record { meta = zero_meta ∷ zero_meta ∷ zero_meta ∷ [] };
  indexes = record {
    tpid_to_orders = [];
    bin_tag_to_orders = [];
    reverse_tpid = [];
    reverse_bin_tag = [];
  };
  matrix = record { scores = pos 0 ∷ pos 0 ∷ pos 0 ∷ pos 0 ∷ pos 0 ∷ pos 0 ∷ []; num_pps = 2 };
}

-- A base score of 0.5, a quantity of 10.
abbrev pub first_event : KafkaOrderEvent
first_event = record {
  order_id = 0;
  required_qty = 0x4120_0000;
  pbt_deadline = pos 5_000;
  base_score = 0x3f00_0000;
  tpids = 7 ∷ [];
  eligible_bin_tags = 1 ∷ [];
  active = true;
}

-- A base score of 0.25 and a quantity of 100, without a deadline.
abbrev pub second_event : KafkaOrderEvent
second_event = record {
  order_id = 1;
  required_qty = 0x42c8_0000;
  pbt_deadline = pos 0;
  base_score = 0x3e80_0000;
  tpids = 7 ∷ 8 ∷ [];
  eligible_bin_tags = 1 ∷ 2 ∷ [];
  active = true;
}

-- The store after the two events, at 1,000 and 2,000 seconds.
abbrev pub one_order : OrderStore
one_order = record {
  registry = record { meta = event_meta first_event (pos 1_000) ∷ zero_meta ∷ zero_meta ∷ [] };
  indexes = record {
    tpid_to_orders = (7, 0 ∷ []) ∷ [];
    bin_tag_to_orders = (1, 0 ∷ []) ∷ [];
    reverse_tpid = (0, 7 ∷ []) ∷ [];
    reverse_bin_tag = (0, 1 ∷ []) ∷ [];
  };
  matrix = record { scores = pos 50 ∷ pos 0 ∷ pos 0 ∷ pos 50 ∷ pos 0 ∷ pos 0 ∷ []; num_pps = 2 };
}

abbrev pub two_orders : OrderStore
two_orders = record {
  registry = record {
    meta =
        event_meta first_event (pos 1_000) ∷ event_meta second_event (pos 2_000) ∷ zero_meta ∷ [];
  };
  indexes = record {
    tpid_to_orders = (7, 0 ∷ 1 ∷ []) ∷ (8, 1 ∷ []) ∷ [];
    bin_tag_to_orders = (1, 0 ∷ 1 ∷ []) ∷ (2, 1 ∷ []) ∷ [];
    reverse_tpid = (0, 7 ∷ []) ∷ (1, 7 ∷ 8 ∷ []) ∷ [];
    reverse_bin_tag = (0, 1 ∷ []) ∷ (1, 1 ∷ 2 ∷ []) ∷ [];
  };
  matrix = record { scores = pos 50 ∷ pos 25 ∷ pos 0 ∷ pos 50 ∷ pos 25 ∷ pos 0 ∷ []; num_pps = 2 };
}

pub first_ingested :
    ingest_order small sample_runtime first_event (pos 1_000) no_orders ≡ ok one_order
unfolding ingest_order store write_order priority_service_poc.Indexes.add_order
    priority_service_poc.Base.Int.pos_part priority_service_poc.Indexes.link
    priority_service_poc.Base.Dict.insert priority_service_poc.Base.Int.neg_part
    priority_service_poc.Indexes.remove_order priority_service_poc.Indexes.unlink
    priority_service_poc.Base.Dict.delete priority_service_poc.Base.Dict.lookup_or
    priority_service_poc.Base.Dict.lookup
first_ingested = refl

pub second_ingested :
    ingest_order small sample_runtime second_event (pos 2_000) one_order ≡ ok two_orders
unfolding ingest_order store write_order priority_service_poc.Indexes.add_order
    priority_service_poc.Base.Int.pos_part priority_service_poc.Indexes.link
    priority_service_poc.Base.Dict.insert priority_service_poc.Base.Int.neg_part
    priority_service_poc.Indexes.remove_order priority_service_poc.Indexes.unlink
    priority_service_poc.Base.Dict.delete priority_service_poc.Base.Dict.lookup_or
    priority_service_poc.Base.Dict.lookup
second_ingested = refl

pub no_orders-IsReady : IsReady small no_orders
unfolding priority_service_poc.Engine.new_compute_engine
no_orders-IsReady =
    new_compute_engine-IsReady small [] (record { ptr = record { slots = []; num_pairs = 0 } })
      (record { val = [] }) (pos 0) (omega arith)

pub one_order-IsReady : IsReady small one_order
one_order-IsReady =
    Returns-at
      (ingest_order-IsReady small sample_runtime first_event (pos 1_000) no_orders no_orders-IsReady
        (omega arith))
      first_ingested

pub two_orders-IsReady : IsReady small two_orders
two_orders-IsReady =
    Returns-at
      (ingest_order-IsReady small sample_runtime second_event (pos 2_000) one_order
        one_order-IsReady (omega arith))
      second_ingested
