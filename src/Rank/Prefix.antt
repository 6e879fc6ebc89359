-- ===== src/Rank/Prefix.antt =====
-- The first slots of a ranking are a ranking: what a request for fewer entries gets.
use mathlib.Core.List.{Pairwise-append, append_assoc, mem-append, mem-append_left}
use mathlib.Core.Logic.Or
use mathlib.Core.Path.{ap₂, subst}
use native.Mathlib.Bridge.{le_prop}
use priority_service_poc.Base.{
  ℕ, zero, suc, ◌-◌, ◌≤◌, ◌≡◌, refl, sym, ap, ◌∙◌, List, [], ◌∷◌, ◌++◌, Perm, Mem, arith, length,
  take, drop, take-append-drop, length-take, length-map, replicate, take-replicate,
}
use priority_service_poc.Base.Int.{ℤ, ◌≤ℤ◌}
use priority_service_poc.Types.{ScoreEntry}
use priority_service_poc.Types.Runtime.{IsDescending}
use priority_service_poc.Buffer.{empty_slot}
use priority_service_poc.Select.TopK.{IsTopK}
use priority_service_poc.Rank.Lists.{order_ids, IsRanked}

take-append {ℓ} :
    {A : Type ℓ} (k : ℕ) (xs ys : List A) → take k (xs ++ ys) ≡ take k xs ++ take (k - length xs) ys
take-append zero xs ys = ap (λ (n : ℕ). take n ys) {x = 0} {y = 0 - length xs} (omega arith)
take-append (suc k) [] ys = ap (λ (n : ℕ). take n ys) {x = suc k} {y = suc k - 0} (omega arith)
take-append (suc k) (x ∷ xs) ys = ap (◌∷◌ x) (
    take-append k xs ys
    ∙ ap (λ (n : ℕ). take k xs ++ take n ys) {x = k - length xs} {y = suc k - suc (length xs)}
        (omega arith))

take-order_ids : (k : ℕ) (xs : List ScoreEntry) → take k (order_ids xs) ≡ order_ids (take k xs)
take-order_ids zero xs = refl
take-order_ids (suc k) [] = refl
take-order_ids (suc k) (x ∷ xs) = ap (◌∷◌ x.order_id) (take-order_ids k xs)

-- Of the `n` best, the first `k` are the `k` best.
IsTopK-take :
    (k n : ℕ) (entries front : List ScoreEntry)
    → k ≤ n
    → IsTopK n entries front
    → IsTopK k entries (take k front)
IsTopK-take k n entries front h top =
    let whole : take k front ++ drop k front ≡ front = take-append-drop k front in
    let (first, _, apart) =
      (Pairwise-append {R = λ a b. b.score ≤ℤ a.score} (λ a b. le_prop) {l₁ = take k front}
          {l₂ = drop k front}).0
        (subst IsDescending (sym whole) top.descending) in
    record {
      rest = drop k front ++ top.rest;
      split =
          subst (λ l. Perm l entries)
            (ap (λ (l : List ScoreEntry). l ++ top.rest) (sym whole)
              ∙ append_assoc (take k front) (drop k front) top.rest)
            top.split;
      size = length-take k front ∙ omega (arith, top.size);
      descending = first;
      above = λ b mb a ma.
          Or.elim le_prop (mem-append.0 mb) (λ late. apart a ma b late)
            λ left. top.above b left a (subst (Mem a) whole (mem-append_left (drop k front) ma));
    }

padding :
    (k n : ℕ) (front : List ScoreEntry)
    → k ≤ n
    → take (k - length (order_ids front)) (replicate (n - length front) empty_slot)
      ≡ replicate (k - length (take k front)) empty_slot
padding k n front h =
    let size : length (order_ids front) ≡ length front =
      length-map (λ (x : ScoreEntry). x.order_id) front in
    take-replicate (k - length (order_ids front)) (n - length front) empty_slot
      (omega (arith, size))
    ∙ ap (λ (c : ℕ). replicate c empty_slot) {x = k - length (order_ids front)}
        {y = k - length (take k front)} (omega (arith, size, length-take k front))

-- The first `k` slots of the ranking of the top `n`, for `k` at most `n`, are the ranking of the top `k`.
pub IsRanked-take :
    (k n : ℕ) (entries : List ScoreEntry) (ids : List ℤ)
    → k ≤ n
    → IsRanked n entries ids
    → IsRanked k entries (take k ids)
IsRanked-take k n entries ids h r = record {
  front = take k r.front;
  top = IsTopK-take k n entries r.front h r.top;
  shown =
      ap (take k) r.shown
      ∙ take-append k (order_ids r.front) _
      ∙ ap₂ (λ (l m : List ℤ). l ++ m) (take-order_ids k r.front) (padding k n r.front h);
}
