-- ===== src/Engine/Ready.antt =====
-- The invariant of the order store that the phases of a cycle rely on.
use priority_service_poc.Engine.{new_compute_engine, PairInfo, DoubleBuffer, TopologyState}
use priority_service_poc.Registry.{new_order_registry, zero_meta}
use priority_service_poc.Matrix.{new_pps_matrix}
use priority_service_poc.Base.Int.{pos}
use priority_service_poc.Base.Dict.{lookup, lookup_or}
use priority_service_poc.Base.{true, false}
use native.Mathlib.Decide.{dec_lt}
use priority_service_poc.Base.{
  ℕ, zero, suc, ◌*◌, ◌≤◌, ◌<◌, ◌≡◌, refl, ap, ◌∙◌, List, [], ◌∷◌, Bool, arith, length-replicate,
  ltb, ◌&&◌, ◌==◌, if◌then◌else◌, subst, false, get_or, sym, replicate,
}
use priority_service_poc.Base.Int.{ℤ}
use priority_service_poc.Base.Run.{Returns, Returns-mono}
use priority_service_poc.Types.{Sizes, OrderMeta}
use priority_service_poc.Types.Runtime.{Runtime}
use priority_service_poc.Matrix.{PpsMatrix, IsShaped}
use priority_service_poc.Indexes.{InvertedIndexes, new_inverted_indexes}
use priority_service_poc.Indexes.Counts.{count, list_of}
use priority_service_poc.Indexes.Links.{new_inverted_indexes-IsConsistent}
use priority_service_poc.Registry.{OrderStore, is_expired, purge_expired, evict_order, zero_meta}
use priority_service_poc.Registry.Evict.{
  was_active, ignored, IsValid, slot, IsEvicted, evict_order-IsEvicted,
}
use priority_service_poc.Registry.Purge.{IsCleaned, purge_expired-IsCleaned}
use priority_service_poc.Ingest.{KafkaOrderEvent, ingest_order}
use priority_service_poc.Ingest.Orders.{ingest_order-IsIngested}
use priority_service_poc.Rank.Pass.{AllBelow}
use priority_service_poc.Rank.Pair.{IsRankable}
use priority_service_poc.Phase1.Delta.{ListsBelow}

-- Only known orders are listed.
abbrev pub ListsKnown : ℕ → InvertedIndexes → Type 0
ListsKnown n ix =
    (k o : ℕ)
    → n ≤ o
    → (count o (list_of k ix.tpid_to_orders) ≡ 0) × (count o (list_of k ix.bin_tag_to_orders) ≡ 0)

-- A valid store with a row at least that lists known orders only.
pub record IsReady (s : Sizes) (st : OrderStore) : Type 0 where
  pub valid : IsValid s st
  pub rows : 0 < st.matrix.num_pps
  pub known : ListsKnown s.num_orders st.indexes

count-AllBelow : (n : ℕ) (l : List ℕ) → ((o : ℕ) → n ≤ o → count o l ≡ 0) → AllBelow n l
unfolding count
count-AllBelow n [] h = tt
count-AllBelow n (x ∷ l) h = (below, count-AllBelow n l λ o big. ground (arith, h o big))
  where
    below : x < n
    below = elim (dec_lt x n) [
      | yes inside ↦ inside
      | no outside ↦ absurd (ground (arith, h x (omega arith)))
    ]

pub IsReady-IsRankable : (s : Sizes) (st : OrderStore) → IsReady s st → IsRankable s st
IsReady-IsRankable s st r = record {
  shaped = r.valid.shaped;
  rows = r.rows;
  slots = r.valid.slots;
  listed = λ k.
      count-AllBelow s.num_orders (list_of k st.indexes.bin_tag_to_orders)
        λ o big. (r.known k o big).1;
}

pub IsReady-ListsBelow :
    (s : Sizes) (st : OrderStore) → IsReady s st → ListsBelow s.num_orders st.indexes
IsReady-ListsBelow s st r k =
    count-AllBelow s.num_orders (list_of k st.indexes.tpid_to_orders) λ o big. (r.known k o big).0

-- Phase 1 changes the matrix only.
pub IsReady-matrix :
    (s : Sizes) (st : OrderStore) (m : PpsMatrix)
    → IsReady s st
    → IsShaped s m
    → m.num_pps ≡ st.matrix.num_pps
    → IsReady s (record st { matrix = m })
IsReady-matrix s st m r shaped same = record {
  valid = record {
    slots = r.valid.slots;
    shaped = shaped;
    consistent = r.valid.consistent;
    keyed = r.valid.keyed;
  };
  rows = rw same r.rows;
  known = r.known;
}

still_none : (b : Bool) {n : ℕ} → n ≡ 0 → (if b then 0 else n) ≡ 0
still_none true h = refl
still_none false h = h

-- A purge keeps the store ready.
pub purge_expired-IsReady :
    (s : Sizes) (st : OrderStore) (now_secs : ℤ)
    → IsReady s st
    → Returns
        (λ st'.
          IsReady s st'
          × IsCleaned s (λ o. ltb o s.num_orders && is_expired now_secs (slot st o)) st st')
        (purge_expired s st now_secs)
purge_expired-IsReady s st now_secs r =
    Returns-mono
      (λ st' c. (
        record {
          valid = c.valid;
          rows = rw c.same_rows r.rows;
          known = λ k o big. (
            (c.tpids k o
                ∙ still_none (ltb o s.num_orders && is_expired now_secs (slot st o))
                    (r.known k o big).0),
            c.bin_tags k o
                ∙ still_none (ltb o s.num_orders && is_expired now_secs (slot st o))
                    (r.known k o big).1,
          );
        },
        c,
      ))
      (purge_expired-IsCleaned s st now_secs r.valid)

IsEvicted-IsReady :
    (s : Sizes) (oid : ℕ) (old new : OrderStore)
    → IsReady s old
    → IsEvicted s oid old new
    → IsReady s new
unfolding count
IsEvicted-IsReady s oid old new r e = record {
  valid = e.valid;
  rows = rw e.scores.same_rows r.rows;
  known = λ k o big. (
    e.tpids k o ∙ still_none (o == oid) (r.known k o big).0,
    e.bin_tags k o ∙ still_none (o == oid) (r.known k o big).1,
  );
}

-- So does an order-removed event, for any identifier.
pub evict_order-IsReady :
    (s : Sizes) (st : OrderStore) (oid : ℕ)
    → IsReady s st
    → Returns (IsReady s) (evict_order s st oid)
evict_order-IsReady s st oid r =
    Returns-mono
      (λ st' outcome. elim outcome [
        | was_active inside on gone ↦ IsEvicted-IsReady s oid st st' r gone
        | ignored why same ↦ subst (IsReady s) (sym same) r
      ])
      (evict_order-IsEvicted s st oid r.valid)

-- And the event of an order in range.
pub ingest_order-IsReady :
    (s : Sizes) (rt : Runtime) (evt : KafkaOrderEvent) (now_secs : ℤ) (st : OrderStore)
    → IsReady s st
    → evt.order_id < s.num_orders
    → Returns (IsReady s) (ingest_order s rt evt now_secs st)
ingest_order-IsReady s rt evt now_secs st r inside =
    Returns-mono
      (λ st' i. record {
        valid = i.valid;
        rows = rw i.scores.same_rows r.rows;
        known = λ k o big.
            let other : (o == evt.order_id) ≡ false = ground arith in
            (
              i.tpids k o ∙ rw other (r.known k o big).0,
              i.bin_tags k o ∙ rw other (r.known k o big).1,
            );
      })
      (ingest_order-IsIngested s rt evt now_secs st r.valid inside)

zero_slot : (n o : ℕ) → get_or (replicate n zero_meta) o zero_meta ≡ zero_meta
zero_slot zero o = refl
zero_slot (suc n) zero = refl
zero_slot (suc n) (suc o) = zero_slot n o

-- A new engine has a ready store.
pub new_compute_engine-IsReady :
    (s : Sizes) (pairs : List PairInfo) (db : DoubleBuffer) (topo : TopologyState) (num_workers : ℤ)
    → 0 < s.num_pps
    → IsReady s (new_compute_engine s pairs db topo num_workers).store
unfolding new_compute_engine new_order_registry new_pps_matrix new_inverted_indexes lookup_or lookup
    count
new_compute_engine-IsReady s pairs db topo num_workers h = record {
  valid = record {
    slots = length-replicate s.num_orders zero_meta;
    shaped = length-replicate (s.num_pps * s.num_orders) (pos 0);
    consistent = unfold new_inverted_indexes in new_inverted_indexes-IsConsistent;
    keyed = λ o on.
        absurd (ground (arith, on, ap (λ (m : OrderMeta). m.active) (zero_slot s.num_orders o)));
  };
  rows = h;
  known = λ k o big. (refl, refl);
}
