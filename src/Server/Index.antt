-- ===== src/Server/Index.antt =====
-- The pair index: from the key of a pair to its position.
use priority_service_poc.Base.{
  ℕ, zero, suc, ◌+◌, ◌≡◌, ◌≢◌, refl, sym, ap, ◌∙◌, List, [], ◌∷◌, none, some, arith, get_elem?,
  ◌==◌, false, ==_refl,
}
use priority_service_poc.Base.Dict.{Dict, lookup, insert, lookup-insert}
use priority_service_poc.Types.{PairInfo}
use priority_service_poc.Server.{PriorityServer, index_pairs, refresh_pair_index}

-- No pair has the key.
abbrev pub IsUnlisted : ℕ → List PairInfo → Type 0
IsUnlisted key pairs = (j : ℕ) (p : PairInfo) → get_elem? pairs j ≡ some p → p.key ≢ key

-- Pairs at two positions have two keys.
abbrev pub KeysDistinct : List PairInfo → Type 0
KeysDistinct pairs =
    (i j : ℕ) (p q : PairInfo)
    → get_elem? pairs i ≡ some p
    → get_elem? pairs j ≡ some q
    → p.key ≡ q.key
    → i ≡ j

pub IsUnlisted-nil : (key : ℕ) → IsUnlisted key []
IsUnlisted-nil key j p at = cc

pub IsUnlisted-cons :
    (key : ℕ) (q : PairInfo) (pairs : List PairInfo)
    → q.key ≢ key
    → IsUnlisted key pairs
    → IsUnlisted key (q ∷ pairs)
IsUnlisted-cons key q pairs ne rest zero p at e =
    let same : q ≡ p = cc in ne (ap (λ (x : PairInfo). x.key) same ∙ e)
IsUnlisted-cons key q pairs ne rest (suc j) p at e = rest j p at e

pub KeysDistinct-nil : KeysDistinct []
KeysDistinct-nil i j p q at = cc

pub KeysDistinct-cons :
    (p : PairInfo) (pairs : List PairInfo)
    → IsUnlisted p.key pairs
    → KeysDistinct pairs
    → KeysDistinct (p ∷ pairs)
KeysDistinct-cons p pairs new rest zero zero x y ax ay e = refl
KeysDistinct-cons p pairs new rest zero (suc j) x y ax ay e =
    let same : p ≡ x = cc in absurd (new j y ay (sym e ∙ ap (λ (z : PairInfo). z.key) (sym same)))
KeysDistinct-cons p pairs new rest (suc i) zero x y ax ay e =
    let same : p ≡ y = cc in absurd (new i x ax (e ∙ ap (λ (z : PairInfo). z.key) (sym same)))
KeysDistinct-cons p pairs new rest (suc i) (suc j) x y ax ay e = ap suc (rest i j x y ax ay e)

lookup-index_pairs_other :
    (i : ℕ) (pairs : List PairInfo) (index : Dict ℕ) (key : ℕ)
    → IsUnlisted key pairs
    → lookup key (index_pairs i pairs index) ≡ lookup key index
unfolding index_pairs
lookup-index_pairs_other i [] index key h = refl
lookup-index_pairs_other i (p ∷ pairs) index key h =
    let miss : (p.key == key) ≡ false = ground (arith, h 0 p refl) in
    lookup-index_pairs_other (suc i) pairs (insert p.key i index) key (λ j q. h (suc j) q)
    ∙ lookup-insert p.key key i index
    ∙ rw miss refl

lookup-index_pairs :
    (i : ℕ) (pairs : List PairInfo) (index : Dict ℕ) (j : ℕ) (p : PairInfo)
    → KeysDistinct pairs
    → get_elem? pairs j ≡ some p
    → lookup p.key (index_pairs i pairs index) ≡ some (i + j)
unfolding index_pairs
lookup-index_pairs i [] index j p h at = cc
lookup-index_pairs i (q ∷ pairs) index zero p h at =
    let same : q ≡ p = cc in
    let later : IsUnlisted q.key pairs =
      λ a r ar e. absurd (ground (arith, h 0 (suc a) q r refl ar (sym e))) in
    rw (← same) (
      lookup-index_pairs_other (suc i) pairs (insert q.key i index) q.key later
      ∙ lookup-insert q.key q.key i index
      ∙ rw (==_refl q.key) (ap some (omega arith)))
lookup-index_pairs i (q ∷ pairs) index (suc j) p h at =
    lookup-index_pairs (suc i) pairs (insert q.key i index) j p
      (λ a b x y ax by e. omega (arith, h (suc a) (suc b) x y ax by e)) at
    ∙ ap some (omega arith)

-- After RefreshPairIndex with pairs of distinct keys, a listed key leads to the position of its pair and
-- any other key is missing, whatever the index held before.
pub refresh_pair_index-lookup :
    (srv : PriorityServer) (pairs : List PairInfo)
    → KeysDistinct pairs
    → ((j : ℕ) (p : PairInfo)
        → get_elem? pairs j ≡ some p
        → lookup p.key (refresh_pair_index srv pairs).pair_index ≡ some j)
      × ((key : ℕ)
          → IsUnlisted key pairs
          → lookup key (refresh_pair_index srv pairs).pair_index ≡ none)
unfolding refresh_pair_index
refresh_pair_index-lookup srv pairs h = (
  (λ j p at. lookup-index_pairs 0 pairs [] j p h at ∙ ap some (omega arith)),
  λ key unlisted. lookup-index_pairs_other 0 pairs [] key unlisted ∙ unfold lookup in refl,
)
