-- ===== src/Registry/Evict.antt =====
-- EvictOrder and the clean-up that PurgeExpired shares with it.
use priority_service_poc.Base.{
  ℕ, ◌≤◌, ◌<◌, ◌≡◌, refl, ap, ◌∙◌, ◌⊎◌, inl, inr, [], Bool, true, false, arith, length, length-set,
  get_or, get_elem?-get_or, get_or-set, leb, ◌==◌, if◌then◌else◌, Bool-cases, leb→le,
}
use priority_service_poc.Base.Int.{pos}
use priority_service_poc.Base.Run.{Returns, returns, Returns-bind, load-ok, store-ok, Returns-mono}
use priority_service_poc.Types.{Sizes, OrderMeta}
use priority_service_poc.Matrix.{PpsMatrix, IsShaped, evict_scores}
use priority_service_poc.Matrix.Cells.{zeroed, out_of_range, HasOrder, evict_scores-HasOrder}
use priority_service_poc.Indexes.Links.{IsConsistent, Relinked, remove_order-IsConsistent}
use priority_service_poc.Registry.{zero_meta, OrderStore, clear_slot, evict_slot, evict_order}

-- The entry of the registry.
abbrev pub slot : OrderStore → ℕ → OrderMeta
slot st o = get_or st.registry.meta o zero_meta

-- A store with a slot for each order, a shaped matrix and consistent indexes, in which an active slot
-- holds the order of that number.
pub record IsValid (s : Sizes) (st : OrderStore) : Type 0 where
  pub slots : length st.registry.meta ≡ s.num_orders
  pub shaped : IsShaped s st.matrix
  pub consistent : IsConsistent st.indexes
  pub keyed : (o : ℕ) → (slot st o).active ≡ true → (slot st o).order_id ≡ o

abbrev pub evicted : OrderMeta → OrderMeta
evicted m = record m { active = false; inserted_at_secs = pos 0 }

-- `oid` is gone from the registry, from both indexes and from every row; nothing else changed.
pub record IsEvicted (s : Sizes) (oid : ℕ) (old new : OrderStore) : Type 0 where
  pub valid : IsValid s new
  pub slots : (o : ℕ) → slot new o ≡ (if oid == o then evicted (slot old oid) else slot old o)
  pub tpids : Relinked oid [] old.indexes.tpid_to_orders new.indexes.tpid_to_orders
  pub bin_tags : Relinked oid [] old.indexes.bin_tag_to_orders new.indexes.bin_tag_to_orders
  pub scores : HasOrder s oid (pos 0) old.matrix new.matrix

still_keyed :
    (gone : Bool) (m0 m : OrderMeta) (o : ℕ) {m' : OrderMeta}
    → m' ≡ (if gone then evicted m0 else m)
    → (m.active ≡ true → m.order_id ≡ o)
    → m'.active ≡ true
    → m'.order_id ≡ o
still_keyed true m0 m o e keyed on = absurd (ground (arith, ap (λ (x : OrderMeta). x.active) e, on))
still_keyed false m0 m o e keyed on = rw e (keyed (rw (← e) on))

zeroes :
    (s : Sizes) (m : PpsMatrix) (oid : ℕ)
    → IsShaped s m
    → oid < s.num_orders
    → Returns (HasOrder s oid (pos 0) m) (evict_scores s m oid)
zeroes s m oid shaped inside =
    Returns-mono
      (λ m' outcome. elim outcome [
        | zeroed _ has ↦ has
        | out_of_range outside _ ↦ absurd (omega (arith, outside, inside))
      ])
      (evict_scores-HasOrder s m oid shaped)

module _ (s : Sizes) (st : OrderStore) (valid : IsValid s st) (oid : ℕ)
    (inside : oid < s.num_orders) where
  pub evict_slot-IsEvicted : Returns (IsEvicted s oid st) (evict_slot s st oid (slot st oid) oid)
  unfolding evict_slot clear_slot
  evict_slot-IsEvicted =
      let hit : oid < length st.registry.meta = omega (arith, valid.slots) in
      let (consistent, tpids, bin_tags) =
        remove_order-IsConsistent st.indexes oid valid.consistent in
      rw (store-ok st.registry.meta oid (evicted (slot st oid)) hit) (
        Returns-bind (zeroes s st.matrix oid valid.shaped inside) λ matrix has. returns (record {
          valid = record {
            slots = length-set st.registry.meta oid (evicted (slot st oid)) ∙ valid.slots;
            shaped = has.shaped;
            consistent = consistent;
            keyed = λ o.
                still_keyed (oid == o) (slot st oid) (slot st o) o
                  (get_or-set st.registry.meta oid o (evicted (slot st oid)) zero_meta hit)
                  (valid.keyed o);
          };
          slots = λ o. get_or-set st.registry.meta oid o (evicted (slot st oid)) zero_meta hit;
          tpids = tpids;
          bin_tags = bin_tags;
          scores = has;
        }))

-- What EvictOrder does: it evicts an active order in range, and ignores any other identifier.
pub data EvictOutcome (s : Sizes) (oid : ℕ) (old new : OrderStore) : Type 0 where
  was_active :
      oid < s.num_orders
      → (slot old oid).active ≡ true
      → IsEvicted s oid old new
      → EvictOutcome s oid old new
  ignored :
      (s.num_orders ≤ oid) ⊎ ((slot old oid).active ≡ false)
      → new ≡ old
      → EvictOutcome s oid old new

-- EvictOrder on a valid store returns without a panic, for any identifier. Either the identifier is in
-- range and its slot active: then its slot is inactive afterwards with its insertion time reset, it stands
-- in no list of the indexes and its score is 0 in every row, while every other order keeps its slot, its
-- lists and its scores. Or it is out of range or its slot inactive: then the store is as it was.
pub evict_order-IsEvicted :
    (s : Sizes) (st : OrderStore) (oid : ℕ)
    → IsValid s st
    → Returns (EvictOutcome s oid st) (evict_order s st oid)
unfolding evict_order
evict_order-IsEvicted s st oid valid = elim (Bool-cases (leb s.num_orders oid)) [
  | inl out ↦ rw out (returns (ignored (inl (leb→le s.num_orders oid out)) refl))
  | inr is_inside ↦
      let inside : oid < s.num_orders = ground arith in
      let at = get_elem?-get_or st.registry.meta oid zero_meta (omega (arith, valid.slots)) in
      rw (is_inside, load-ok st.registry.meta oid at)
        (elim (Bool-cases (slot st oid).active) [
          | inr off ↦ rw off (returns (ignored (inr off) refl))
          | inl on ↦ rw on (
              Returns-mono (λ st' e. was_active inside on e)
                (evict_slot-IsEvicted s st valid oid inside))
        ])
]
