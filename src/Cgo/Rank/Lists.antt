-- ===== src/Cgo/Rank/Lists.antt =====
-- quickselectAndCopy of the cgo variant writes the same ranking.
use mathlib.Core.List.Perm
use priority_service_poc.Base.{
  ℕ, ◌-◌, ◌≤◌, ◌<◌, ◌≡◌, refl, ap, ◌∙◌, ◌||◌, inl, inr, List, [], ◌++◌, Perm, arith, length,
  length-append, length-drop, length-perm, subst, take, drop, replicate, min, leb, ◌==◌, Bool-cases,
  eq_of_==,
}
use priority_service_poc.Base.Int.{◌≤ℤ◌}
use priority_service_poc.Base.Run.{Returns, returns, Returns-bind, Returns-mono}
use priority_service_poc.Types.{Sizes, ScoreEntry}
use priority_service_poc.Types.Runtime.{Runtime}
use priority_service_poc.Buffer.{empty_slot}
use priority_service_poc.Select.Segment.{key}
use priority_service_poc.Select.TopK.{sorted_front-IsTopK, select_loop_whole, take_append}
use priority_service_poc.Rank.Lists.{copy-IsRanked, IsTopK-none, IsTopK-widen}
use priority_service_poc.Rank.Write.{Ranks}
use priority_service_poc.Cgo.Rank.{quickselect_top_k, quickselect_and_copy}

-- No entry after the first `k` has a higher score than one of them.
abbrev pub IsSplit : ℕ → List ScoreEntry → Type 0
IsSplit k e = (i j : ℕ) → i < k → k ≤ j → j < length e → key e j ≤ℤ key e i

-- quickselectTopK of the cgo variant returns within its fuel, for any entries and any number `k`: a
-- rearrangement in which no entry after the first `k` has a higher score than one of them.
pub quickselect_top_k-IsSplit :
    (e : List ScoreEntry) (k : ℕ) → Returns (λ e'. Perm e' e × IsSplit k e') (quickselect_top_k e k)
unfolding quickselect_top_k
quickselect_top_k-IsSplit e k = elim (Bool-cases (k == 0 || length e == 0)) [
  | inl nothing ↦
      rw nothing (returns (Perm.refl e, λ i j hi hj until. absurd (ground (arith, nothing))))
  | inr some_left ↦ rw some_left (elim (Bool-cases (leb (length e) k)) [
    | inl all ↦ rw all (returns (Perm.refl e, λ i j hi hj until. absurd (ground (arith, all))))
    | inr more ↦ rw more (
        Returns-mono
          (λ e' (sep, perm).
            (perm, λ i j hi hj until. sep i j (omega arith) hj (omega arith) until))
          (select_loop_whole k e (ground arith)))
  ])
]

-- quickselectAndCopy, on a list of -1, returns without a panic and writes the ranking of the scratch.
pub quickselect_and_copy-Ranks : (s : Sizes) (rt : Runtime) → Ranks s (quickselect_and_copy s rt)
unfolding quickselect_and_copy
quickselect_and_copy-Ranks s rt e dst blank =
    let k = min (length e) s.top_k in
    elim (Bool-cases (k == 0)) [
      | inl nothing ↦ rw nothing (
          returns (record {
            front = [];
            top = IsTopK-none s.top_k e (eq_of_== k 0 nothing);
            shown =
                blank
                ∙ ap (λ (t : ℕ). replicate t empty_slot) {x = s.top_k} {y = s.top_k - 0}
                    (omega arith);
          }))
      | inr some_left ↦
          let pos_k : 0 < k = ground arith in
          rw some_left (
            Returns-bind (quickselect_top_k-IsSplit e k) λ sel (perm, split).
              let top = sorted_front-IsTopK rt k e sel pos_k (omega arith) perm split in
              let front = rt.sort_desc (take k sel) in
              let size : length front ≡ k = top.size ∙ omega arith in
              let placed : take k (front ++ drop k sel) ≡ front =
                subst (λ n. take n (front ++ drop k sel) ≡ front) size
                  (take_append front (drop k sel)) in
              Returns-bind
                (copy-IsRanked s e dst blank (front ++ drop k sel) k refl
                  (length-append front (drop k sel)
                    ∙ omega (arith, length-drop k sel, length-perm perm))
                  (rw placed (IsTopK-widen k s.top_k e front refl top)))
                λ dst' ranked. returns ranked)
    ]
