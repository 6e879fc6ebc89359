-- ===== src/Select/TopK.antt =====
-- quickselectTopK: the loop ends within its fuel, and the front of the slice is the top k in order.
use mathlib.Core.List.{not-mem-nil, forall_mem-cons}
use mathlib.Core.List.Perm
use native.Mathlib.Decide.{dec_lt}
use mathlib.Core.HLevel.{Π_prop}
use native.Mathlib.Bridge.{le_prop}
use priority_service_poc.Base.{
  true, false, ◌||◌, ℕ, zero, suc, ◌+◌, ◌-◌, ◌≤◌, ◌<◌, ◌≡◌, refl, ◌∙◌, ◌⊎◌, inl, inr, List, [], ◌∷◌,
  ◌++◌, Mem, Perm, arith, length, length-perm, length-take, length-drop, take, drop,
  take-append-drop, get_or-take, get_or-drop, min, ltb, leb, ◌==◌, Bool-cases, eq_of_==, ap, subst,
}
use priority_service_poc.Base.Int.{◌≤ℤ◌}
use priority_service_poc.Base.Run.{ok, Returns, returns, Returns-bind, Returns-mono}
use priority_service_poc.Types.{ScoreEntry}
use priority_service_poc.Types.Runtime.{Runtime, IsDescending}
use priority_service_poc.Select.{select_loop, quickselect_top_k}
use priority_service_poc.Select.Segment.{entry, key, no_entry, Rearranged, Rearranged-length}
use priority_service_poc.Select.Partition.{IsPartitioned, partition_desc-IsPartitioned}

-- The scores before `lo` are at least all later ones, those behind `hi` at most all earlier ones.
record Narrowed (lo hi : ℕ) (e : List ScoreEntry) : Type 0 where
  before : (i j : ℕ) → i < lo → lo ≤ j → j < length e → key e j ≤ℤ key e i
  after : (i j : ℕ) → i ≤ hi → hi < j → j < length e → key e j ≤ℤ key e i

-- The entry at `t` stands where it would in a descending slice.
abbrev pub Separated : ℕ → List ScoreEntry → Type 0
Separated t e = (i j : ℕ) → i ≤ t → t ≤ j → i < j → j < length e → key e j ≤ℤ key e i

module _ (lo hi : ℕ) (a b : List ScoreEntry) (inside : hi < length a)
    (r : Rearranged lo hi a b) where
  Narrowed-Rearranged : Narrowed lo hi a → Narrowed lo hi b
  Narrowed-Rearranged n = record {
    before = λ i j below from until. elim (dec_lt hi j) [
      | yes past ↦ ground (
        arith,
        r.outside i (inl below),
        r.outside j (inr past),
        n.before i j below from (omega (arith, Rearranged-length r)),
      )
      | no within ↦
          let (k, from', until', e) = r.inside j from (omega arith) in
          ground (arith, r.outside i (inl below), e, n.before i k below from' (omega arith))
    ];
    after = λ i j upto past until. elim (dec_lt i lo) [
      | yes below ↦ ground (
        arith,
        r.outside i (inl below),
        r.outside j (inr past),
        n.after i j upto past (omega (arith, Rearranged-length r)),
      )
      | no within ↦
          let (k, from', until', e) = r.inside i (omega arith) upto in
          ground (
            arith,
            r.outside j (inr past),
            e,
            n.after k j until' past (omega (arith, Rearranged-length r)),
          )
    ];
  }

module _ (lo hi p : ℕ) (e : List ScoreEntry) (n : Narrowed lo hi e)
    (v : IsPartitioned lo hi p e) where
  Separated-pivot : Separated p e
  Separated-pivot i j ip pj less until = elim (dec_lt i p) [
    | yes left ↦ elim (dec_lt p j) [
      | yes right ↦
          ground (arith, n.before i j, n.after i j, n.before i p, n.after p j, v.high i, v.low j)
      | no here ↦ let same : j ≡ p = omega arith in rw same (ground (arith, v.high i, n.before i p))
    ]
    | no here ↦ let same : i ≡ p = omega arith in rw same (ground (arith, v.low j, n.after p j))
  ]

  narrow_right : Narrowed (p + 1) hi e
  narrow_right = record {
    before =
        λ i j below from until. Separated-pivot i j (omega arith) (omega arith) (omega arith) until;
    after = n.after;
  }

  narrow_left : lo ≤ p - 1 → Narrowed lo (p - 1) e
  narrow_left h = record {
    before = n.before;
    after =
        λ i j upto past until. Separated-pivot i j (omega arith) (omega arith) (omega arith) until;
  }

select_loop-Separated :
    (fuel t lo hi : ℕ) (e : List ScoreEntry)
    → lo ≤ t
    → t ≤ hi
    → hi < length e
    → hi - lo < fuel
    → Narrowed lo hi e
    → Returns (λ e'. Separated t e' × Perm e' e) (select_loop fuel t lo hi e)
unfolding select_loop
select_loop-Separated zero t lo hi e h k inside f n = absurd (omega arith)
select_loop-Separated (suc fuel) t lo hi e h k inside f n = elim (Bool-cases (ltb lo hi)) [
  | inr done ↦
      rw done
        (returns ((λ i j it tj less until. ground (arith, n.before i j, n.after i j)), Perm.refl e))
  | inl more ↦
      let apart : lo < hi = ground arith in
      rw more (
        Returns-bind (partition_desc-IsPartitioned e lo hi (omega arith) inside) λ (p, e') (v, r).
          let n' = Narrowed-Rearranged lo hi e e' inside r n in
          let size = Rearranged-length r in
          elim (Bool-cases (p == t)) [
            | inl hit ↦
                let same : p ≡ t = eq_of_== p t hit in
                rw hit (returns (rw (← same) (Separated-pivot lo hi p e' n' v), r.perm))
            | inr miss ↦ rw miss (elim (Bool-cases (ltb p t)) [
              | inl low ↦
                  let left : p < t = ground arith in
                  rw low (
                    Returns-mono (λ e2 (sep, perm). (sep, Perm.trans perm r.perm))
                      (select_loop-Separated fuel t (p + 1) hi e' (omega arith) k (omega arith)
                        (omega (arith, v.from, v.until)) (narrow_right lo hi p e' n' v)))
              | inr high ↦
                  let right : t < p = ground arith in
                  rw high (
                    Returns-mono (λ e2 (sep, perm). (sep, Perm.trans perm r.perm))
                      (select_loop-Separated fuel t lo (p - 1) e' h (omega arith)
                        (omega (arith, v.from, v.until)) (omega (arith, v.from, v.until))
                        (narrow_left lo hi p e' n' v (omega arith))))
            ])
          ])
]

-- The loop over the whole slice ends within its fuel and brings the entry of its target into place.
pub select_loop_whole :
    (t : ℕ) (e : List ScoreEntry)
    → t < length e
    → Returns (λ e'. Separated t e' × Perm e' e) (select_loop (length e) t 0 (length e - 1) e)
select_loop_whole t e h =
    select_loop-Separated (length e) t 0 (length e - 1) e (omega arith) (omega arith) (omega arith)
      (omega arith)
      (record { before = λ i j h. absurd (omega arith); after = λ i j h p q. absurd (omega arith) })

-- From the entries at each index to the members.
forall_mem {ℓ} :
    (P : ScoreEntry → Type ℓ)
    → ((a : ScoreEntry) → IsProp (P a))
    → (l : List ScoreEntry) → ((i : ℕ) → i < length l → P (entry l i))
    → (a : ScoreEntry) → Mem a l
    → P a
forall_mem P prop [] h = λ a m. absurd (not-mem-nil m)
forall_mem P prop (x ∷ l) h =
    (forall_mem-cons prop).1 (h 0 (omega arith), forall_mem P prop l λ i k. h (suc i) (omega arith))

-- `front` holds the `k` entries of the highest scores, or all if there are fewer, in order.
pub record IsTopK (k : ℕ) (entries front : List ScoreEntry) : Type 0 where
  pub rest : List ScoreEntry
  pub split : Perm (front ++ rest) entries
  pub size : length front ≡ min k (length entries)
  pub descending : IsDescending front
  pub above : (b : ScoreEntry) → Mem b rest → (a : ScoreEntry) → Mem a front → b.score ≤ℤ a.score

module _ (rt : Runtime) (k : ℕ) (e e' : List ScoreEntry) (pos_k : 0 < k) (short : k ≤ length e)
    (perm : Perm e' e) where
  front_above :
      ((i j : ℕ) → i < k → k ≤ j → j < length e' → key e' j ≤ℤ key e' i)
      → (b : ScoreEntry) → Mem b (drop k e')
      → (a : ScoreEntry) → Mem a (take k e')
      → b.score ≤ℤ a.score
  front_above sep =
      let size = length-perm perm in
      forall_mem (λ b. (a : ScoreEntry) → Mem a (take k e') → b.score ≤ℤ a.score)
        (λ b. Π_prop λ a. Π_prop λ m. le_prop) (drop k e')
        λ j hj.
          forall_mem (λ a. (entry (drop k e') j).score ≤ℤ a.score) (λ a. le_prop) (take k e')
            λ i hi.
              let ik : i < k = omega (arith, length-take k e') in
              let jk : k + j < length e' = omega (arith, length-drop k e') in
              rw (get_or-take k e' i no_entry ik, get_or-drop k e' j no_entry)
                (sep i (k + j) ik (omega arith) jk)

  pub sorted_front-IsTopK :
      ((i j : ℕ) → i < k → k ≤ j → j < length e' → key e' j ≤ℤ key e' i)
      → IsTopK k e (rt.sort_desc (take k e'))
  sorted_front-IsTopK sep =
      let sorted = rt.sort_desc-perm (take k e') in
      record {
        rest = drop k e';
        split = Perm.trans (Perm.append_right (drop k e') sorted) (rw (take-append-drop k e') perm);
        size = length-perm sorted ∙ omega (arith, length-take k e', length-perm perm);
        descending = rt.sort_desc-IsDescending (take k e');
        above = λ b mb a ma. front_above sep b mb a ((Perm.mem_iff sorted).0 ma);
      }

pub take_append : (xs ys : List ScoreEntry) → take (length xs) (xs ++ ys) ≡ xs
take_append [] ys = refl
take_append (x ∷ xs) ys = ap (◌∷◌ x) (take_append xs ys)

-- quickselectTopK on more than `k` entries returns, without a panic and within its fuel, a
-- rearrangement whose first `k` entries are the top `k` in descending order.
pub quickselect_top_k-IsTopK :
    (rt : Runtime) (e : List ScoreEntry) (k : ℕ)
    → 0 < k
    → k < length e
    → Returns (λ e'. Perm e' e × IsTopK k e (take k e')) (quickselect_top_k rt e k)
unfolding quickselect_top_k
quickselect_top_k-IsTopK rt e k pos_k more =
    let guard : (leb k 0 || leb (length e) k) ≡ false = ground arith in
    rw guard (
      Returns-bind (select_loop_whole (k - 1) e (omega arith)) λ e' (sep, perm).
        let top =
          sorted_front-IsTopK rt k e e' pos_k (omega arith) perm
            (λ i j ik kj until. sep i j (omega arith) (omega arith) (omega arith) until) in
        let front = rt.sort_desc (take k e') in
        let size : length front ≡ k = top.size ∙ omega arith in
        returns (
          Perm.trans (Perm.append_right (drop k e') (rt.sort_desc-perm (take k e')))
              (rw (take-append-drop k e') perm),
          subst (λ n. IsTopK k e (take n (front ++ drop k e'))) size
              (rw (take_append front (drop k e')) top),
        ))

-- With at most `k` entries, or none asked for, the slice is left alone.
pub quickselect_top_k_short :
    (rt : Runtime) (e : List ScoreEntry) (k : ℕ)
    → (k ≡ 0) ⊎ (length e ≤ k)
    → quickselect_top_k rt e k ≡ ok e
unfolding quickselect_top_k
quickselect_top_k_short rt e k h =
    let guard : (leb k 0 || leb (length e) k) ≡ true = ground arith in rw guard
