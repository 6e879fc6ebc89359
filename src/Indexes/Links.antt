-- ===== src/Indexes/Links.antt =====
-- The forward maps and the reverse maps agree, with multiplicity.
use priority_service_poc.Base.{
  ℕ, ◌≡◌, refl, ◌∙◌, List, [], ◌∷◌, arith, ◌==◌, if◌then◌else◌, eq_of_==, ==_refl,
}
use priority_service_poc.Base.Dict.{Dict, delete, lookup_or, lookup}
use priority_service_poc.Indexes.{
  InvertedIndexes, new_inverted_indexes, unlink, link, record_keys, remove_order, add_order,
}
use priority_service_poc.Indexes.Counts.{
  count, list_of, list_of-insert, list_of-delete, count-unlink, count-link,
}

-- An order stands in the list of a key as often as the key stands in the record of the order.
abbrev pub Agrees : Dict (List ℕ) → Dict (List ℕ) → Type 0
Agrees forward reverse = (k o : ℕ) → count o (list_of k forward) ≡ count k (list_of o reverse)

pub record IsConsistent (ix : InvertedIndexes) : Type 0 where
  pub tpids : Agrees ix.tpid_to_orders ix.reverse_tpid
  pub bin_tags : Agrees ix.bin_tag_to_orders ix.reverse_bin_tag

pub new_inverted_indexes-IsConsistent : IsConsistent new_inverted_indexes
unfolding new_inverted_indexes lookup_or lookup count
new_inverted_indexes-IsConsistent = record { tpids = λ k o. refl; bin_tags = λ k o. refl }

-- Only the entries of `oid` change: it stands in the list of each key as often as in `keys`.
abbrev pub Relinked : ℕ → List ℕ → Dict (List ℕ) → Dict (List ℕ) → Type 0
Relinked oid keys old new =
    (k o : ℕ)
    → count o (list_of k new) ≡ (if o == oid then count k keys else count o (list_of k old))

module _ (oid : ℕ) (forward reverse : Dict (List ℕ)) (agree : Agrees forward reverse) where
  unlink-Relinked : Relinked oid [] forward (unlink oid (list_of oid reverse) forward)
  unfolding count
  unlink-Relinked k o =
      count-unlink oid (list_of oid reverse) forward k o
      ∙ ground (arith, agree k oid, eq_of_== o oid)

  unlink-Agrees : Agrees (unlink oid (list_of oid reverse) forward) (delete oid reverse)
  unfolding count
  unlink-Agrees k o = unlink-Relinked k o ∙ ground (arith, agree k o, list_of-delete oid o reverse)

list_of-record_keys :
    (oid o : ℕ) (keys : List ℕ) (reverse : Dict (List ℕ))
    → list_of oid reverse ≡ []
    → list_of o (record_keys oid keys reverse) ≡ (if oid == o then keys else list_of o reverse)
unfolding record_keys
list_of-record_keys oid o [] reverse e = ground (arith, eq_of_== oid o)
list_of-record_keys oid o (k ∷ ks) reverse e = ground (arith, list_of-insert oid o (k ∷ ks) reverse)

module _ (oid : ℕ) (keys : List ℕ) (forward reverse : Dict (List ℕ)) where
  link-Agrees :
      Agrees forward reverse
      → list_of oid reverse ≡ []
      → Agrees (link oid keys forward) (record_keys oid keys reverse)
  unfolding count
  link-Agrees agree none_yet k o =
      count-link oid keys forward k o
      ∙ ground (
        arith,
        agree k o,
        none_yet,
        list_of-record_keys oid o keys reverse none_yet,
        eq_of_== o oid,
      )

pub delete-none : (oid : ℕ) (reverse : Dict (List ℕ)) → list_of oid (delete oid reverse) ≡ []
delete-none oid reverse = list_of-delete oid oid reverse ∙ rw ==_refl

-- RemoveOrder takes every occurrence of the order out of both indexes, also where a key was given
-- twice, leaves the entries of all other orders, and keeps the maps consistent.
pub remove_order-IsConsistent :
    (ix : InvertedIndexes) (oid : ℕ)
    → IsConsistent ix
    → IsConsistent (remove_order ix oid)
      × Relinked oid [] ix.tpid_to_orders (remove_order ix oid).tpid_to_orders
      × Relinked oid [] ix.bin_tag_to_orders (remove_order ix oid).bin_tag_to_orders
unfolding remove_order
remove_order-IsConsistent ix oid v = (
  record {
    tpids = unlink-Agrees oid ix.tpid_to_orders ix.reverse_tpid v.tpids;
    bin_tags = unlink-Agrees oid ix.bin_tag_to_orders ix.reverse_bin_tag v.bin_tags;
  },
  unlink-Relinked oid ix.tpid_to_orders ix.reverse_tpid v.tpids,
  unlink-Relinked oid ix.bin_tag_to_orders ix.reverse_bin_tag v.bin_tags,
)

-- The forward half of AddOrder, over what RemoveOrder left.
relink :
    (oid : ℕ) (keys : List ℕ) (old gone : Dict (List ℕ))
    → Relinked oid [] old gone
    → Relinked oid keys old (link oid keys gone)
unfolding count
relink oid keys old gone r k o = count-link oid keys gone k o ∙ ground (arith, r k o)

-- AddOrder puts the order under exactly the given keys, as often as they are given and whatever it
-- was listed under before, leaves the entries of all other orders, and keeps the maps consistent.
pub add_order-IsConsistent :
    (ix : InvertedIndexes) (oid : ℕ) (tpids bintag_ids : List ℕ)
    → IsConsistent ix
    → IsConsistent (add_order ix oid tpids bintag_ids)
      × Relinked oid tpids ix.tpid_to_orders (add_order ix oid tpids bintag_ids).tpid_to_orders
      × Relinked oid bintag_ids ix.bin_tag_to_orders
          (add_order ix oid tpids bintag_ids).bin_tag_to_orders
unfolding add_order
add_order-IsConsistent ix oid tpids bintag_ids v =
    let (w, t, b) = remove_order-IsConsistent ix oid v in
    (
      record {
        tpids =
            link-Agrees oid tpids _ _ w.tpids
              (unfold remove_order in delete-none oid ix.reverse_tpid);
        bin_tags =
            link-Agrees oid bintag_ids _ _ w.bin_tags
              (unfold remove_order in delete-none oid ix.reverse_bin_tag);
      },
      relink oid tpids _ _ t,
      relink oid bintag_ids _ _ b,
    )
