-- ===== src/Phase1/Rows.antt =====
-- The rows one goroutine of Phase 1 owns.
use native.Mathlib.Decide.{dec_lt}
use priority_service_poc.Base.{
  ℕ, zero, suc, ◌+◌, ◌*◌, ◌≤◌, ◌<◌, ◌≡◌, refl, sym, ap, subst, ◌∙◌, ◌⊎◌, inl, inr, List, [], ◌∷◌,
  arith, length, length-set, get_or, get_elem?-get_or, set, take, drop, ◌≢◌,
}
use priority_service_poc.Base.Int.{ℤ, pos}
use priority_service_poc.Base.Run.{
  ok, Returns, returns, Returns-bind, Returns-mono, load-ok, store-ok,
}
use priority_service_poc.Base.Slices.{
  splice, slice-ok, length-slice, length-splice, splice-set, splice_whole, splice_past, drop-set,
  drop_step, slice-splice_self, slice-splice_disjoint,
}
use priority_service_poc.Types.{Sizes}
use priority_service_poc.Matrix.{PpsMatrix, row, IsShaped}
use priority_service_poc.Phase1.{apply_delta_from, apply_delta_to_row, update_row, update_rows}
use priority_service_poc.Phase1.Clamp.{new_score}

-- Every score of a row moved by the delta at its index.
unfoldable pub updated : List ℤ → List ℤ → List ℤ
updated [] delta = []
updated (x ∷ cells) [] = x ∷ cells
updated (x ∷ cells) (d ∷ delta) = new_score x d ∷ updated cells delta

length-updated : (cells delta : List ℤ) → length (updated cells delta) ≡ length cells
unfolding updated
length-updated [] delta = refl
length-updated (x ∷ cells) [] = refl
length-updated (x ∷ cells) (d ∷ delta) = ap suc (length-updated cells delta)

apply_delta_from-updated :
    (o : ℕ) (delta cells : List ℤ)
    → o + length delta ≡ length cells
    → apply_delta_from o delta cells ≡ ok (splice cells o (updated (drop o cells) delta))
unfolding apply_delta_from
apply_delta_from-updated o [] cells h =
    ap ok (sym (splice_past cells o (updated (drop o cells) []) (omega arith)))
apply_delta_from-updated o (d ∷ delta) cells h =
    let x = get_or cells o (pos 0) in
    let inside : o < length cells = omega arith in
    let cells' = set cells o (new_score x d) in
    rw
      (
        load-ok cells o (get_elem?-get_or cells o (pos 0) inside),
        store-ok cells o (new_score x d) inside,
      )
      (apply_delta_from-updated (suc o) delta cells'
          (omega (arith, length-set cells o (new_score x d)))
        ∙ ap ok (
            ap (λ (l : List ℤ). splice cells' (suc o) (updated l delta))
              (drop-set cells o (new_score x d))
            ∙ splice-set cells o (new_score x d) (updated (drop (suc o) cells) delta)
            ∙ ap (λ (l : List ℤ). splice cells o l)
                (unfold updated in
                  (sym (
                    ap (λ (l : List ℤ). updated l (d ∷ delta))
                      (drop_step cells o (pos 0) inside))))))

-- applyDeltaToRow, on a row and a delta of one length, returns the row with every score moved.
pub apply_delta_to_row-updated :
    (cells delta : List ℤ)
    → length delta ≡ length cells
    → apply_delta_to_row cells delta ≡ ok (updated cells delta)
unfolding apply_delta_to_row
apply_delta_to_row-updated cells delta h =
    apply_delta_from-updated 0 delta cells (omega arith)
    ∙ ap ok (splice_whole cells (updated cells delta) (length-updated cells delta))

-- The scores of row `q`.
abbrev pub row_at : Sizes → PpsMatrix → ℕ → List ℤ
row_at s m q = take s.num_orders (drop (q * s.num_orders) m.scores)

-- The rows from `lo` to `hi` are updated, and no other.
pub record IsUpdated (s : Sizes) (delta : List ℤ) (lo hi : ℕ) (old new : PpsMatrix) : Type 0 where
  pub shaped : IsShaped s new
  pub rows : new.num_pps ≡ old.num_pps
  pub inside : (q : ℕ) → lo ≤ q → q < hi → row_at s new q ≡ updated (row_at s old q) delta
  pub outside : (q : ℕ) → (q < lo) ⊎ (hi ≤ q) → q < old.num_pps → row_at s new q ≡ row_at s old q

module _ (s : Sizes) (delta : List ℤ) (full : length delta ≡ s.num_orders) where
  pub IsUpdated-none : (lo : ℕ) (m : PpsMatrix) → IsShaped s m → IsUpdated s delta lo lo m m
  IsUpdated-none lo m shaped = record {
    shaped = shaped;
    rows = refl;
    inside = λ q a b. absurd (omega arith);
    outside = λ q h k. refl;
  }

  pub IsUpdated-append :
      {lo mid hi : ℕ} {a b c : PpsMatrix}
      → lo ≤ mid
      → mid ≤ hi
      → hi ≤ a.num_pps
      → IsUpdated s delta lo mid a b
      → IsUpdated s delta mid hi b c
      → IsUpdated s delta lo hi a c
  IsUpdated-append {mid} {a} {b} p q top u v = record {
    shaped = v.shaped;
    rows = v.rows ∙ u.rows;
    inside = λ r low high. elim (dec_lt r mid) [
      | yes left ↦ v.outside r (inl left) (omega (arith, u.rows)) ∙ u.inside r low left
      | no right ↦
          v.inside r (omega arith) high
          ∙ ap (λ (l : List ℤ). updated l delta) (u.outside r (inr (omega arith)) (omega arith))
    ];
    outside = λ r out inside.
        v.outside r (ground (arith, out)) (omega (arith, u.rows))
        ∙ u.outside r (ground (arith, out)) inside;
  }

  pub row_inside :
      (m : PpsMatrix) (p : ℕ)
      → IsShaped s m
      → p < m.num_pps
      → p * s.num_orders + s.num_orders ≤ length m.scores
  row_inside m p shaped h = rw shaped (grind arith)

  rows_apart :
      (p q : ℕ)
      → p ≢ q
      → (q * s.num_orders + s.num_orders ≤ p * s.num_orders)
        ⊎ (p * s.num_orders + s.num_orders ≤ q * s.num_orders)
  rows_apart p q ne = elim (dec_lt q p) [
    | yes below ↦ inl (scaled below)
    | no not_below ↦ inr (scaled (omega arith))
  ]
    where
      scaled : {a b : ℕ} → a < b → a * s.num_orders + s.num_orders ≤ b * s.num_orders
      scaled h = grind arith

  pub update_row-IsUpdated :
      (m : PpsMatrix) (p : ℕ)
      → IsShaped s m
      → p < m.num_pps
      → Returns (λ m'. IsUpdated s delta p (suc p) m m') (update_row s delta m p)
  unfolding update_row row
  update_row-IsUpdated m p shaped h =
      let off = p * s.num_orders in
      let fits = row_inside m p shaped h in
      let cells = row_at s m p in
      let size = length-slice m.scores off s.num_orders fits in
      let size' : length (updated cells delta) ≡ s.num_orders = length-updated cells delta ∙ size in
      rw
        (
          slice-ok m.scores off s.num_orders fits,
          apply_delta_to_row-updated cells delta (full ∙ sym size),
        )
        (returns (record {
          shaped = length-splice m.scores off (updated cells delta) ∙ shaped;
          rows = refl;
          inside = λ q low high.
              let here : q ≡ p = omega arith in
              rw here (
                rw size' at (
                  slice-splice_self m.scores off (updated cells delta)
                    (omega (arith, fits, size'))));
          outside = λ q out inside.
              slice-splice_disjoint m.scores off (updated cells delta) (q * s.num_orders)
                s.num_orders (row_inside m q shaped inside)
                (rw size' (rows_apart p q (ground (arith, out))));
        }))

  pub update_rows-IsUpdated :
      (rounds p : ℕ) (m : PpsMatrix)
      → IsShaped s m
      → p + rounds ≤ m.num_pps
      → Returns (λ m'. IsUpdated s delta p (p + rounds) m m') (update_rows s delta rounds p m)
  unfolding update_rows
  update_rows-IsUpdated zero p m shaped h = returns (
      subst (λ hi. IsUpdated s delta p hi m m) {x = p} {y = p + 0} (omega arith)
        (IsUpdated-none p m shaped))
  update_rows-IsUpdated (suc rounds) p m shaped h =
      Returns-bind (update_row-IsUpdated m p shaped (omega arith)) λ m1 u.
        Returns-mono
          (λ m2 v. IsUpdated-append (omega arith) (omega arith) h u (
            subst (λ hi. IsUpdated s delta (suc p) hi m1 m2) {x = suc p + rounds}
              {y = p + suc rounds} (omega arith) v))
          (update_rows-IsUpdated rounds (suc p) m1 u.shaped (omega (arith, u.rows)))
