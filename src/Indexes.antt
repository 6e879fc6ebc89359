-- ===== src/Indexes.antt =====
-- go-pure-impl/registry.go: InvertedIndexes, from item types and bin tags to order identifiers, with
-- the reverse maps that an eviction uses.
pub mod Counts
pub mod Links
use priority_service_poc.Base.{ℕ, List, [], ◌∷◌, ◌++◌, length, ltb, ◌==◌, if◌then◌else◌}
use priority_service_poc.Base.Dict.{Dict, lookup_or, insert, delete}

pub record InvertedIndexes : Type 0 where
  pub tpid_to_orders : Dict (List ℕ)
  pub bin_tag_to_orders : Dict (List ℕ)
  pub reverse_tpid : Dict (List ℕ)
  pub reverse_bin_tag : Dict (List ℕ)

unfoldable pub new_inverted_indexes : InvertedIndexes
new_inverted_indexes = record {
  tpid_to_orders = [];
  bin_tag_to_orders = [];
  reverse_tpid = [];
  reverse_bin_tag = [];
}

-- The first occurrence only.
unfoldable pub remove_uint32 : List ℕ → ℕ → List ℕ
remove_uint32 [] v = []
remove_uint32 (x ∷ s) v = if x == v then s else x ∷ remove_uint32 s v

-- The body of the loops of RemoveOrder: drop the order from the list of one key.
unfoldable pub unlink_one : ℕ → ℕ → Dict (List ℕ) → Dict (List ℕ)
unlink_one order_id key index =
    let list = remove_uint32 (lookup_or key [] index) order_id in
    if length list == 0 then delete key index else insert key list index

unfoldable pub unlink : ℕ → List ℕ → Dict (List ℕ) → Dict (List ℕ)
unlink order_id [] index = index
unlink order_id (key ∷ keys) index = unlink order_id keys (unlink_one order_id key index)

-- The loops of AddOrder.
unfoldable pub link : ℕ → List ℕ → Dict (List ℕ) → Dict (List ℕ)
link order_id [] index = index
link order_id (key ∷ keys) index =
    link order_id keys (insert key (lookup_or key [] index ++ order_id ∷ []) index)

unfoldable pub remove_order : InvertedIndexes → ℕ → InvertedIndexes
remove_order ix order_id = record {
  tpid_to_orders = unlink order_id (lookup_or order_id [] ix.reverse_tpid) ix.tpid_to_orders;
  bin_tag_to_orders =
      unlink order_id (lookup_or order_id [] ix.reverse_bin_tag) ix.bin_tag_to_orders;
  reverse_tpid = delete order_id ix.reverse_tpid;
  reverse_bin_tag = delete order_id ix.reverse_bin_tag;
}

-- The reverse maps keep a copy of the keys, if there are any.
unfoldable pub record_keys : ℕ → List ℕ → Dict (List ℕ) → Dict (List ℕ)
record_keys order_id keys reverse =
    if ltb 0 (length keys) then insert order_id keys reverse else reverse

unfoldable pub add_order : InvertedIndexes → ℕ → List ℕ → List ℕ → InvertedIndexes
unfolding record_keys
add_order ix0 order_id tpids bintag_ids =
    let ix = remove_order ix0 order_id in
    record {
      tpid_to_orders = link order_id tpids ix.tpid_to_orders;
      bin_tag_to_orders = link order_id bintag_ids ix.bin_tag_to_orders;
      reverse_tpid = record_keys order_id tpids ix.reverse_tpid;
      reverse_bin_tag = record_keys order_id bintag_ids ix.reverse_bin_tag;
    }
