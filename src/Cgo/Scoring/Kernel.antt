-- ===== src/Cgo/Scoring/Kernel.antt =====
-- The kernel's loops are those of the pure variant, where no sum overflows.
use native.Mathlib.Decide.{dec_lt}
use priority_service_poc.Base.{
  ℕ, zero, suc, ◌+◌, ◌*◌, ◌-◌, ◌^◌, ◌≤◌, ◌<◌, ◌≡◌, refl, sym, ap, subst, ◌∙◌, List, [], ◌∷◌, some,
  true, ◌&&◌, inl, inr, arith, length, length-set, get_or, get_elem?, get_elem?-get_or,
  get_elem?-take, get_elem?-drop, set, take, drop, lt_of_get_elem?, length-take,
}
use priority_service_poc.Base.Int.{
  ℤ, pos, negsuc, ◌+ℤ◌, ◌≤ℤ◌, geb_ℤ, wrap32, wrap32_fits, pos_parts, negsuc_parts, +ℤ_parts,
}
use priority_service_poc.Base.Run.{ok, load-ok, store-ok}
use priority_service_poc.Base.Slices.{splice, splice-set, drop-set, drop_step}
use priority_service_poc.Types.{Sizes}
use priority_service_poc.Matrix.{PpsMatrix}
use priority_service_poc.Matrix.Cells.{score_at}
use priority_service_poc.Phase1.{clamp_int16}
use priority_service_poc.Phase1.Clamp.{new_score, clamp_int16_bounds}
use priority_service_poc.Phase1.Rows.{updated, row_at, IsUpdated}
use priority_service_poc.Cgo.Scoring.{c_add, saturate, update_cells}

-- The values of an int16_t.
abbrev pub Short : ℤ → Type 0
Short x = (negsuc 32767 ≤ℤ x) × (x ≤ℤ pos 32767)

-- The deltas that keep the sum with an int16_t within an int32_t.
abbrev pub Modest : ℤ → Type 0
Modest d = (negsuc 2147450879 ≤ℤ d) × (d ≤ℤ pos 2147450880)

abbrev pub All : (ℤ → Type 0) → List ℤ → Type 0
All P [] = Unit {0}
All P (x ∷ xs) = P x × All P xs

All-at :
    (P : ℤ → Type 0) (xs : List ℤ) (i : ℕ) (d : ℤ) → i < length xs → All P xs → P (get_or xs i d)
All-at P [] i d h a = absurd (omega arith)
All-at P (x ∷ xs) zero d h a = a.0
All-at P (x ∷ xs) (suc i) d h a = All-at P xs i d (omega arith) a.1

pub All-at? :
    (P : ℤ → Type 0) (xs : List ℤ) (i : ℕ) (v : ℤ) → All P xs → get_elem? xs i ≡ some v → P v
All-at? P [] i v a e = absurd (cc e)
All-at? P (x ∷ xs) zero v a e = subst P (cc e) a.0
All-at? P (x ∷ xs) (suc i) v a e = All-at? P xs i v a.1 e

pub All-of :
    (P : ℤ → Type 0) (xs : List ℤ) → ((i : ℕ) (v : ℤ) → get_elem? xs i ≡ some v → P v) → All P xs
All-of P [] h = tt
All-of P (x ∷ xs) h = (h 0 x refl, All-of P xs λ i v e. h (suc i) v e)

saturate-clamp : (v : ℤ) → saturate v ≡ clamp_int16 v
unfolding saturate clamp_int16
saturate-clamp v = refl

-- The kernel's new value of a cell.
new_cell :
    (int_overflow : ℤ → ℤ) (x d : ℤ)
    → Short x
    → Modest d
    → saturate (c_add int_overflow x d) ≡ new_score x d
unfolding c_add
new_cell int_overflow x d (xl, xh) (dl, dh) =
    let lo : negsuc (2 ^ 31 - 1) ≤ℤ x +ℤ d = omega (
      arith,
      +ℤ_parts x d,
      negsuc_parts 32767,
      negsuc_parts 2147450879,
      negsuc_parts (2 ^ 31 - 1),
    ) in
    let hi : x +ℤ d ≤ℤ pos (2 ^ 31 - 1) =
      omega (arith, +ℤ_parts x d, pos_parts 32767, pos_parts 2147450880, pos_parts (2 ^ 31 - 1)) in
    let fits : (geb_ℤ (x +ℤ d) (negsuc (2 ^ 31 - 1)) && geb_ℤ (pos (2 ^ 31 - 1)) (x +ℤ d)) ≡ true =
      ground arith in
    rw (fits, saturate-clamp (x +ℤ d), wrap32_fits (x +ℤ d) lo hi) refl

module _ (int_overflow : ℤ → ℤ) (delta : List ℤ) (modest : All Modest delta) where
  pub update_cells-updated :
      (base rounds o : ℕ) (cells : List ℤ)
      → o + rounds ≤ length delta
      → base + o + rounds ≤ length cells
      → All Short (take rounds (drop (base + o) cells))
      → update_cells int_overflow delta base rounds o cells
        ≡ ok
            (splice cells (base + o) (updated (take rounds (drop (base + o) cells)) (drop o delta)))
  unfolding update_cells updated splice
  update_cells-updated base zero o cells h k short = refl
  update_cells-updated base (suc rounds) o cells h k short =
      let i = base + o in
      let x = get_or cells i (pos 0) in
      let d = get_or delta o (pos 0) in
      let inside : i < length cells = omega arith in
      let known : o < length delta = omega arith in
      let step = drop_step cells i (pos 0) inside in
      let head : All Short (x ∷ take rounds (drop (suc i) cells)) =
        subst (λ (l : List ℤ). All Short (take (suc rounds) l)) step short in
      let value = new_cell int_overflow x d head.0 (All-at Modest delta o (pos 0) known modest) in
      let cells' = set cells i (new_score x d) in
      let after = drop-set cells i (new_score x d) in
      let next : base + suc o ≡ suc i = omega arith in
      rw
        (
          load-ok cells i (get_elem?-get_or cells i (pos 0) inside),
          load-ok delta o (get_elem?-get_or delta o (pos 0) known),
          value,
          store-ok cells i (new_score x d) inside,
        )
        (update_cells-updated base rounds (suc o) cells' (omega arith)
            (omega (arith, length-set cells i (new_score x d))) (rw (next, after) head.1)
          ∙ rw (next, after)
              (ap ok (
                splice-set cells i (new_score x d)
                  (updated (take rounds (drop (suc i) cells)) (drop (suc o) delta))
                ∙ ap (λ (l : List ℤ). splice cells i l)
                    (sym (
                      ap (λ (l : List ℤ). updated (take (suc rounds) l) (drop o delta)) step
                      ∙ ap (λ (l : List ℤ). updated (x ∷ take rounds (drop (suc i) cells)) l)
                          (drop_step delta o (pos 0) known))))))

-- Every score of the matrix is an int16_t.
abbrev pub IsShort : Sizes → PpsMatrix → Type 0
IsShort s m =
    (p o : ℕ) (v : ℤ) → p < m.num_pps → o < s.num_orders → score_at s m p o ≡ some v → Short v

module _ (s : Sizes) where
  score_at-row_at :
      (m : PpsMatrix) (p o : ℕ) → o < s.num_orders → get_elem? (row_at s m p) o ≡ score_at s m p o
  score_at-row_at m p o h =
      get_elem?-take s.num_orders (drop (p * s.num_orders) m.scores) o h
      ∙ get_elem?-drop (p * s.num_orders) m.scores o

  pub IsShort-row : (m : PpsMatrix) (p : ℕ) → IsShort s m → p < m.num_pps → All Short (row_at s m p)
  IsShort-row m p short h = All-of Short (row_at s m p) λ o v e.
      let inside : o < s.num_orders = omega (
        arith,
        lt_of_get_elem? (row_at s m p) o e,
        length-take s.num_orders (drop (p * s.num_orders) m.scores),
      ) in
      short p o v h inside (sym (score_at-row_at m p o inside) ∙ e)

  new_score-Short : (x d : ℤ) → Short (new_score x d)
  new_score-Short x d =
      let (lo, hi) = clamp_int16_bounds (wrap32 (x +ℤ d)) in
      (omega (arith, lo, negsuc_parts 32766, negsuc_parts 32767), hi)

  updated-Short : (cells delta : List ℤ) → All Short cells → All Short (updated cells delta)
  unfolding updated
  updated-Short [] delta a = tt
  updated-Short (x ∷ cells) [] a = a
  updated-Short (x ∷ cells) (d ∷ delta) a = (new_score-Short x d, updated-Short cells delta a.1)

  -- Phase 1 keeps the scores in range.
  pub IsUpdated-IsShort :
      {delta : List ℤ} {lo hi : ℕ} (old new : PpsMatrix)
      → IsShort s old
      → IsUpdated s delta lo hi old new
      → IsShort s new
  IsUpdated-IsShort {delta} {lo} {hi} old new short u p o v hp ho e =
      let inside : p < old.num_pps = omega (arith, u.rows) in
      let before = IsShort-row old p short inside in
      let now : All Short (row_at s new p) = elim (dec_lt p lo) [
        | yes low ↦ rw (u.outside p (inl low) inside) before
        | no not_low ↦ elim (dec_lt p hi) [
          | yes within ↦
              rw (u.inside p (omega arith) within) (updated-Short (row_at s old p) delta before)
          | no past ↦ rw (u.outside p (inr (omega arith)) inside) before
        ]
      ] in
      All-at? Short (row_at s new p) o v now (score_at-row_at new p o ho ∙ e)
