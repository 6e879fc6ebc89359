-- ===== src/Cgo/Pairs/Listed.antt =====
-- The pairs of the cgo engine after HandleAddPair.
use priority_service_poc.Base.{
  ℕ, zero, suc, ◌≡◌, ◌⊎◌, refl, sym, ap, ◌∙◌, inl, inr, List, [], ◌∷◌, ◌++◌, Bool, true, false,
  some, arith, length, get_elem?, ◌==◌, ==_refl, eq_of_==, Bool-cases, if◌then◌else◌, ◌<◌, subst,
  ◌^◌,
}
use priority_service_poc.Types.{PairInfo, make_pair_key, make_pair_key-injective}
use priority_service_poc.Engine.{pair_info}
use priority_service_poc.Server.Index.{IsUnlisted, KeysDistinct}
use priority_service_poc.Cgo.Pairs.{PairsState, has_key, handle_add_pair}

-- The pair at a position after one more at the end.
pub added_cases :
    (pairs : List PairInfo) (p q : PairInfo) (j : ℕ)
    → get_elem? (pairs ++ p ∷ []) j ≡ some q
    → (get_elem? pairs j ≡ some q) ⊎ ((p ≡ q) × (j ≡ length pairs))
added_cases [] p q zero at = inr (cc at, refl)
added_cases [] p q (suc j) at = absurd (cc at)
added_cases (x ∷ pairs) p q zero at = inl at
added_cases (x ∷ pairs) p q (suc j) at = elim (added_cases pairs p q j at) [
  | inl old ↦ inl old
  | inr (same, last) ↦ inr (same, ap suc last)
]

get_elem?-new :
    (pairs : List PairInfo) (p : PairInfo) → get_elem? (pairs ++ p ∷ []) (length pairs) ≡ some p
get_elem?-new [] p = refl
get_elem?-new (x ∷ pairs) p = get_elem?-new pairs p

-- A pair with the key is at a position.
pub record IsListed (key : ℕ) (pairs : List PairInfo) : Type 0 where
  pub index : ℕ
  pub pair : PairInfo
  pub at : get_elem? pairs index ≡ some pair
  pub named : pair.key ≡ key

has_key-IsListed : (key : ℕ) (pairs : List PairInfo) → has_key key pairs ≡ true → IsListed key pairs
unfolding has_key
has_key-IsListed key [] h = absurd (cc h)
has_key-IsListed key (p ∷ pairs) h = elim (Bool-cases (p.key == key)) [
  | inl hit ↦ record { index = 0; pair = p; at = refl; named = eq_of_== p.key key hit }
  | inr miss ↦
      let rest = has_key-IsListed key pairs (ground (arith, h, miss)) in
      record { index = suc rest.index; pair = rest.pair; at = rest.at; named = rest.named }
]

has_key-IsUnlisted :
    (key : ℕ) (pairs : List PairInfo) → has_key key pairs ≡ false → IsUnlisted key pairs
unfolding has_key
has_key-IsUnlisted key [] h j p at e = absurd (cc at)
has_key-IsUnlisted key (x ∷ pairs) h zero p at e =
    let same : x ≡ p = cc at in
    let hit : (x.key == key) ≡ true =
      ap (λ (y : PairInfo). y.key == key) same ∙ rw e (==_refl key) in
    absurd (ground (arith, h, hit))
has_key-IsUnlisted key (x ∷ pairs) h (suc j) p at e =
    has_key-IsUnlisted key pairs (ground (arith, h)) j p at e

KeysDistinct-added :
    (pairs : List PairInfo) (new : PairInfo)
    → IsUnlisted new.key pairs
    → KeysDistinct pairs
    → KeysDistinct (pairs ++ new ∷ [])
KeysDistinct-added pairs new unlisted distinct i j p q ai aj e =
    elim (added_cases pairs new p i ai) [
      | inl old_i ↦ elim (added_cases pairs new q j aj) [
        | inl old_j ↦ distinct i j p q old_i old_j e
        | inr (same, last) ↦
            absurd (unlisted i p old_i (e ∙ ap (λ (x : PairInfo). x.key) (sym same)))
      ]
      | inr (same_i, last_i) ↦ elim (added_cases pairs new q j aj) [
        | inl old_j ↦
            absurd (unlisted j q old_j (sym e ∙ ap (λ (x : PairInfo). x.key) (sym same_i)))
        | inr (same, last) ↦ last_i ∙ sym last
      ]
    ]

module _ (e : PairsState) (p b : ℕ) where
  -- HandleAddPair lists the key once and keeps every pair.
  pub handle_add_pair-IsListed :
      KeysDistinct e.pairs
      → IsListed (make_pair_key p b) (handle_add_pair e p b).pairs
        × KeysDistinct (handle_add_pair e p b).pairs
  unfolding handle_add_pair
  handle_add_pair-IsListed distinct = elim (Bool-cases (has_key (make_pair_key p b) e.pairs)) [
    | inl known ↦ rw known (has_key-IsListed (make_pair_key p b) e.pairs known, distinct)
    | inr new ↦ rw new (
      record {
        index = length e.pairs;
        pair = pair_info p b;
        at = get_elem?-new e.pairs (pair_info p b);
        named = refl;
      },
      KeysDistinct-added e.pairs (pair_info p b)
          (has_key-IsUnlisted (make_pair_key p b) e.pairs new) distinct,
    )
  ]

  -- A property of the old pairs and of the new one holds of all.
  pub handle_add_pair-kept :
      (P : PairInfo → Type 0)
      → P (pair_info p b)
      → ((j : ℕ) (pair : PairInfo) → get_elem? e.pairs j ≡ some pair → P pair)
      → (j : ℕ) (pair : PairInfo) → get_elem? (handle_add_pair e p b).pairs j ≡ some pair
      → P pair
  unfolding handle_add_pair
  handle_add_pair-kept P new old j pair at = either (has_key (make_pair_key p b) e.pairs) at
    where
      either :
          (known : Bool)
          → get_elem? (if known then e.pairs else e.pairs ++ pair_info p b ∷ []) j ≡ some pair
          → P pair
      either true was = old j pair was
      either false added = elim (added_cases e.pairs (pair_info p b) pair j added) [
        | inl was ↦ old j pair was
        | inr (same, last) ↦ subst P same new
      ]

-- The pair has the key of its identifiers, which are of type uint32.
pub record IsNamed (pair : PairInfo) : Type 0 where
  pub named : pair.key ≡ make_pair_key pair.pps_id pair.bin_tag_id
  pub narrow_pps : pair.pps_id < 2 ^ 32
  pub narrow_tag : pair.bin_tag_id < 2 ^ 32

-- Such a pair is found by its key.
pub IsNamed-unique :
    (pair : PairInfo) (p b : ℕ)
    → IsNamed pair
    → p < 2 ^ 32
    → b < 2 ^ 32
    → pair.key ≡ make_pair_key p b
    → pair ≡ pair_info p b
IsNamed-unique pair p b n hp hb e =
    let (same_p, same_b) =
      make_pair_key-injective pair.pps_id pair.bin_tag_id p b n.narrow_pps n.narrow_tag hp hb
        (sym n.named ∙ e) in
    with_parts pair.pps_id pair.bin_tag_id pair.key same_p same_b e
  where
    with_parts :
        (q c k : ℕ)
        → q ≡ p
        → c ≡ b
        → k ≡ make_pair_key p b
        → record { pps_id = q; bin_tag_id = c; key = k } ≡ pair_info p b
    with_parts q c k hq hc hk = rw (hq, hc, hk) refl
