-- ===== src/Indexes/Counts.antt =====
-- How often an order stands in the list of a key, after each loop of the indexes.
use priority_service_poc.Base.{
  ℕ, ◌+◌, ◌-◌, ◌≡◌, refl, ◌∙◌, List, [], ◌∷◌, ◌++◌, arith, length, ◌==◌, if◌then◌else◌, Bool-cases,
  true, inl, eq_of_==, inr,
}
use priority_service_poc.Base.Dict.{Dict, lookup_or, insert, delete, lookup-insert, lookup-delete}
use priority_service_poc.Indexes.{remove_uint32, unlink_one, unlink, link}

unfoldable pub count : ℕ → List ℕ → ℕ
count v [] = 0
count v (x ∷ xs) = (if x == v then 1 else 0) + count v xs

pub count-append : (v : ℕ) (xs ys : List ℕ) → count v (xs ++ ys) ≡ count v xs + count v ys
unfolding count
count-append v [] ys = omega arith
count-append v (x ∷ xs) ys = omega (arith, count-append v xs ys)

count-remove_uint32 :
    (v : ℕ) (xs : List ℕ) (o : ℕ)
    → count o (remove_uint32 xs v) ≡ (if o == v then count o xs - 1 else count o xs)
unfolding count remove_uint32
count-remove_uint32 v [] o = ground arith
count-remove_uint32 v (x ∷ xs) o = ground (arith, count-remove_uint32 v xs o)

-- The list of a key, empty where the map has no entry.
abbrev pub list_of : ℕ → Dict (List ℕ) → List ℕ
list_of key index = lookup_or key [] index

pub list_of-insert :
    (key k : ℕ) (v : List ℕ) (m : Dict (List ℕ))
    → list_of k (insert key v m) ≡ (if key == k then v else list_of k m)
unfolding lookup_or
list_of-insert key k v m = ground (arith, lookup-insert key k v m)

pub list_of-delete :
    (key k : ℕ) (m : Dict (List ℕ))
    → list_of k (delete key m) ≡ (if key == k then [] else list_of k m)
unfolding lookup_or
list_of-delete key k m = ground (arith, lookup-delete key k m)

nil_of_length : (xs : List ℕ) → (length xs == 0) ≡ true → xs ≡ []
nil_of_length [] h = refl
nil_of_length (x ∷ xs) h = absurd (ground arith)

list_of-unlink_one :
    (o key k : ℕ) (m : Dict (List ℕ))
    → list_of k (unlink_one o key m)
      ≡ (if key == k then remove_uint32 (list_of k m) o else list_of k m)
unfolding unlink_one
list_of-unlink_one o key k m = elim (Bool-cases (length (remove_uint32 (list_of key m) o) == 0)) [
  | inl gone ↦ rw gone (
      list_of-delete key k m
      ∙ ground (arith, nil_of_length (remove_uint32 (list_of key m) o) gone, eq_of_== key k))
  | inr kept ↦ rw kept (list_of-insert key k _ m ∙ ground (arith, eq_of_== key k))
]

pub count-unlink :
    (oid : ℕ) (keys : List ℕ) (m : Dict (List ℕ)) (k o : ℕ)
    → count o (list_of k (unlink oid keys m))
      ≡ (if o == oid then count o (list_of k m) - count k keys else count o (list_of k m))
unfolding unlink count
count-unlink oid [] m k o = ground arith
count-unlink oid (key ∷ keys) m k o = ground (
  arith,
  count-unlink oid keys (unlink_one oid key m) k o,
  list_of-unlink_one oid key k m,
  count-remove_uint32 oid (list_of k m) o,
)

pub count-link :
    (oid : ℕ) (keys : List ℕ) (m : Dict (List ℕ)) (k o : ℕ)
    → count o (list_of k (link oid keys m))
      ≡ (if o == oid then count o (list_of k m) + count k keys else count o (list_of k m))
unfolding link count
count-link oid [] m k o = ground arith
count-link oid (key ∷ keys) m k o = ground (
  arith,
  count-link oid keys (insert key (list_of key m ++ oid ∷ []) m) k o,
  list_of-insert key k (list_of key m ++ oid ∷ []) m,
  count-append o (list_of key m) (oid ∷ []),
  eq_of_== key k,
)
