-- ===== src/Rank/Lists.antt =====
-- quickselectAndCopy: the list that it writes is the top of the scratch, padded with -1.
use mathlib.Core.List.{Pairwise, not-mem-nil}
use mathlib.Core.List.Perm
use priority_service_poc.Base.{
  ℕ, zero, suc, ◌+◌, ◌-◌, ◌≤◌, ◌<◌, ◌≡◌, refl, sym, ap, ◌∙◌, inl, inr, List, [], ◌∷◌, ◌++◌, map,
  arith, length, length-map, length-perm, length-set, length-append, length-drop, subst, set, take,
  drop, replicate, length-replicate, min, leb, ◌==◌, Bool-cases, eq_of_==, leb→le,
}
use priority_service_poc.Base.Int.{ℤ}
use priority_service_poc.Base.Run.{ok, Returns, returns, Returns-bind, store-ok}
use priority_service_poc.Base.Slices.{splice, splice-set}
use priority_service_poc.Types.{Sizes, ScoreEntry}
use priority_service_poc.Types.Runtime.{Runtime}
use priority_service_poc.Buffer.{empty_slot}
use priority_service_poc.Select.Segment.{entry, load-entry}
use priority_service_poc.Select.TopK.{
  IsTopK, sorted_front-IsTopK, quickselect_top_k-IsTopK, quickselect_top_k_short, take_append,
}
use priority_service_poc.Rank.{copy_ids, quickselect_and_copy}

abbrev pub order_ids : List ScoreEntry → List ℤ
order_ids = map λ x. x.order_id

-- `ids` names the top `k` of `entries` in descending order of score, then -1 up to `k` slots.
pub record IsRanked (k : ℕ) (entries : List ScoreEntry) (ids : List ℤ) : Type 0 where
  pub front : List ScoreEntry
  pub top : IsTopK k entries front
  pub shown : ids ≡ order_ids front ++ replicate (k - length front) empty_slot

take-drop_step :
    (e : List ScoreEntry) (i rounds : ℕ)
    → i < length e
    → take (suc rounds) (drop i e) ≡ entry e i ∷ take rounds (drop (suc i) e)
take-drop_step [] i rounds h = absurd (omega arith)
take-drop_step (x ∷ e) zero rounds h = refl
take-drop_step (x ∷ e) (suc i) rounds h = take-drop_step e i rounds (omega arith)

copy_ids-splice :
    (rounds i : ℕ) (e : List ScoreEntry) (dst : List ℤ)
    → i + rounds ≤ length e
    → i + rounds ≤ length dst
    → copy_ids rounds i e dst ≡ ok (splice dst i (order_ids (take rounds (drop i e))))
unfolding copy_ids splice
copy_ids-splice zero i e dst h k = refl
copy_ids-splice (suc rounds) i e dst h k =
    let v = (entry e i).order_id in
    rw (load-entry e i (omega arith), store-ok dst i v (omega arith))
      (copy_ids-splice rounds (suc i) e (set dst i v) (omega arith)
          (omega (arith, length-set dst i v))
        ∙ ap ok (
            splice-set dst i v (order_ids (take rounds (drop (suc i) e)))
            ∙ ap (λ (l : List ScoreEntry). splice dst i (order_ids l))
                (sym (take-drop_step e i rounds (omega arith)))))

splice-replicate :
    (n : ℕ) (ys : List ℤ) (x : ℤ)
    → length ys ≤ n
    → splice (replicate n x) 0 ys ≡ ys ++ replicate (n - length ys) x
unfolding splice
splice-replicate n [] x h = ap (λ (t : ℕ). replicate t x) {x = n} {y = n - 0} (omega arith)
splice-replicate zero (y ∷ ys) x h = absurd (omega arith)
splice-replicate (suc n) (y ∷ ys) x h =
    ap (◌∷◌ y)
      (splice-replicate n ys x (omega arith) ∙ ap (λ (t : ℕ). ys ++ replicate t x) (omega arith))

module _ (s : Sizes) (e : List ScoreEntry) (dst : List ℤ)
    (blank : dst ≡ replicate s.top_k empty_slot) where
  -- The copy, once the front of the scratch is in place.
  pub copy-IsRanked :
      (sorted : List ScoreEntry) (k : ℕ)
      → k ≡ min (length e) s.top_k
      → length sorted ≡ length e
      → IsTopK s.top_k e (take k sorted)
      → Returns (λ dst'. IsRanked s.top_k e dst') (copy_ids k 0 sorted dst)
  copy-IsRanked sorted k ek size top =
      let front = take k sorted in
      let len : length (order_ids front) ≡ k =
        length-map (λ (x : ScoreEntry). x.order_id) front ∙ top.size ∙ omega arith in
      rw
        (copy_ids-splice k 0 sorted dst (omega arith)
          (rw blank (omega (arith, length-replicate s.top_k empty_slot))))
        (returns (record {
          front = front;
          top = top;
          shown = rw blank (
              splice-replicate s.top_k (order_ids front) empty_slot (omega arith)
              ∙ ap (λ (t : ℕ). order_ids front ++ replicate (s.top_k - t) empty_slot)
                  (len ∙ sym (top.size ∙ omega arith)));
        }))

pub IsTopK-none : (k : ℕ) (e : List ScoreEntry) → min (length e) k ≡ 0 → IsTopK k e []
IsTopK-none k e none_left = record {
  rest = e;
  split = Perm.refl e;
  size = omega arith;
  descending = Pairwise.nil;
  above = λ b mb a ma. absurd (not-mem-nil ma);
}

pub IsTopK-widen :
    (k n : ℕ) (e front : List ScoreEntry)
    → k ≡ min (length e) n
    → IsTopK k e front
    → IsTopK n e front
IsTopK-widen k n e front h top = record {
  rest = top.rest;
  split = top.split;
  size = top.size ∙ omega arith;
  descending = top.descending;
  above = top.above;
}

-- Where the slice is no longer than asked, the second sort of quickselectAndCopy orders all of it.
pub sort_all-IsTopK :
    (rt : Runtime) (e : List ScoreEntry)
    → 0 < length e
    → IsTopK (length e) e (rt.sort_desc (take (length e) e))
sort_all-IsTopK rt e pos_len =
    sorted_front-IsTopK rt (length e) e e pos_len (omega arith) (Perm.refl e)
      λ i j _ past until. absurd (omega arith)

-- quickselectAndCopy, on a list of -1, returns without a panic and writes the ranking of the scratch:
-- the top entries in descending order of score, then -1 in the slots that are left.
pub quickselect_and_copy-IsRanked :
    (s : Sizes) (rt : Runtime) (e : List ScoreEntry) (dst : List ℤ)
    → dst ≡ replicate s.top_k empty_slot
    → Returns (λ r. IsRanked s.top_k e r.0) (quickselect_and_copy s rt dst e)
unfolding quickselect_and_copy
quickselect_and_copy-IsRanked s rt e dst blank =
    let k = min (length e) s.top_k in
    elim (Bool-cases (k == 0)) [
      | inl nothing ↦ rw nothing (
          returns (record {
            front = [];
            top = IsTopK-none s.top_k e (eq_of_== k 0 nothing);
            shown =
                blank
                ∙ ap (λ (t : ℕ). replicate t empty_slot) {x = s.top_k} {y = s.top_k - 0}
                    (omega arith);
          }))
      | inr some_left ↦
          let pos_k : 0 < k = ground arith in
          rw some_left (elim (Bool-cases (leb (length e) k)) [
            | inl short ↦
                let all : length e ≡ k = omega (arith, leb→le (length e) k short) in
                let front = rt.sort_desc (take k e) in
                let top : IsTopK k e front =
                  subst (λ n. IsTopK n e (rt.sort_desc (take n e))) all
                    (sort_all-IsTopK rt e (omega arith)) in
                let size : length front ≡ k = top.size ∙ omega arith in
                let placed : take k (front ++ drop k e) ≡ front =
                  subst (λ n. take n (front ++ drop k e) ≡ front) size
                    (take_append front (drop k e)) in
                rw (quickselect_top_k_short rt e k (inr (omega arith)), short)
                  (Returns-bind
                    (copy-IsRanked s e dst blank (front ++ drop k e) k refl
                      (length-append front (drop k e) ∙ omega (arith, length-drop k e))
                      (rw placed (IsTopK-widen k s.top_k e front refl top)))
                    λ dst' ranked. returns ranked)
            | inr long ↦
                let more : k < length e = ground arith in
                Returns-bind (quickselect_top_k-IsTopK rt e k pos_k more) λ sel (perm, top).
                  rw long (
                    Returns-bind
                      (copy-IsRanked s e dst blank sel k refl (length-perm perm)
                        (IsTopK-widen k s.top_k e _ refl top))
                      λ dst' ranked. returns ranked)
          ])
    ]
