-- ===== src/Matrix/Cells.antt =====
-- What a write of one order's column does to the cells of the matrix.
use native.Mathlib.Decide.{dec_lt}
use priority_service_poc.Base.{
  ℕ, zero, suc, ◌+◌, ◌*◌, ◌≤◌, ◌<◌, ◌≡◌, refl, ap, ◌∙◌, ◌≢◌, inl, inr, List, Option, some, arith,
  length, get_elem?, set, length-set, get_elem?-set, leb, ◌==◌, if◌then◌else◌, Bool-cases, ==_refl,
  eq_of_==, leb→le,
}
use priority_service_poc.Base.Int.{ℤ, pos}
use priority_service_poc.Base.Run.{store-ok, Returns, returns, Returns-bind, Returns-mono}
use priority_service_poc.Types.{Sizes}
use priority_service_poc.Matrix.{PpsMatrix, write_column, write_order, evict_scores, IsShaped}

-- The score of order `o` in the row of PPS `p`.
abbrev pub score_at : Sizes → PpsMatrix → ℕ → ℕ → Option ℤ
score_at s m p o = get_elem? m.scores (p * s.num_orders + o)

pub cell-lt : (n p q o : ℕ) → p < q → o < n → p * n + o < q * n
cell-lt n p q o h k = grind arith

cell-injective : (n p q o r : ℕ) → o < n → r < n → p * n + o ≡ q * n + r → (p ≡ q) × (o ≡ r)
cell-injective n p q o r h k e = elim (dec_lt p q) [
  | yes below ↦ absurd (omega (arith, cell-lt n p q o below h))
  | no same_or_above ↦ elim (dec_lt q p) [
    | yes above ↦ absurd (omega (arith, cell-lt n q p r above k))
    | no not_below ↦
        let same : p ≡ q = omega arith in (same, omega (arith, ap (λ (t : ℕ). t * n) same))
  ]
]

-- The cells of column `oid` in the rows `p` to `p + rounds - 1` hold `v`, and no other has changed.
record IsWritten (n oid : ℕ) (v : ℤ) (p rounds : ℕ) (old new : List ℤ) : Type 0 where
  size : length new ≡ length old
  written : (q : ℕ) → p ≤ q → q < p + rounds → get_elem? new (q * n + oid) ≡ some v
  kept :
      (j : ℕ)
      → ((q : ℕ) → p ≤ q → q < p + rounds → q * n + oid ≢ j)
      → get_elem? new j ≡ get_elem? old j

module _ (s : Sizes) (oid : ℕ) (v : ℤ) (inside : oid < s.num_orders) where
  write_step-IsWritten :
      (p rounds : ℕ) (old new : List ℤ)
      → p * s.num_orders + oid < length old
      → IsWritten s.num_orders oid v (suc p) rounds (set old (p * s.num_orders + oid) v) new
      → IsWritten s.num_orders oid v p (suc rounds) old new
  write_step-IsWritten p rounds old new h w =
      let at = get_elem?-set old (p * s.num_orders + oid) in
      record {
        size = omega (arith, w.size, length-set old (p * s.num_orders + oid) v);
        written = λ q lo hi. elim (dec_lt p q) [
          | yes later ↦ w.written q later (omega arith)
          | no not_below ↦
              let here : q ≡ p = omega arith in
              rw here (
                w.kept (p * s.num_orders + oid) (λ r rlo rhi e.
                  absurd
                    (omega (arith, (cell-injective s.num_orders r p oid oid inside inside e).0)))
                ∙ at (p * s.num_orders + oid) v h
                ∙ rw ==_refl)
        ];
        kept = λ j apart.
            w.kept j (λ r rlo rhi. apart r (omega arith) (omega arith))
            ∙ ground (arith, at j v h, apart p (omega arith) (omega arith));
      }

  write_column-IsWritten :
      (rounds p : ℕ) (old : List ℤ)
      → (p + rounds) * s.num_orders ≤ length old
      → Returns (IsWritten s.num_orders oid v p rounds old) (write_column s rounds oid v p old)
  unfolding write_column
  write_column-IsWritten zero p old h =
      returns
        (record { size = refl; written = λ q lo hi. absurd (omega arith); kept = λ j _. refl })
  write_column-IsWritten (suc rounds) p old h =
      let cell = p * s.num_orders + oid in
      let fits : cell < length old =
        omega (arith, cell-lt s.num_orders p (p + suc rounds) oid (omega arith) inside) in
      rw (store-ok old cell v fits) (
        Returns-mono (λ new. write_step-IsWritten p rounds old new fits)
          (write_column-IsWritten rounds (suc p) (set old cell v) (
            rw (length-set old cell v) (
              omega (
                arith,
                h,
                ap (λ (t : ℕ). t * s.num_orders) {x = suc p + rounds} {y = p + suc rounds}
                    (omega arith),
              )))))

-- `m` with the score of order `oid` replaced by `v` in every row.
pub record HasOrder (s : Sizes) (oid : ℕ) (v : ℤ) (m m' : PpsMatrix) : Type 0 where
  pub same_rows : m'.num_pps ≡ m.num_pps
  pub shaped : IsShaped s m'
  pub cells :
      (p o : ℕ)
      → p < m.num_pps
      → o < s.num_orders
      → score_at s m' p o ≡ (if oid == o then some v else score_at s m p o)

pub write_order-HasOrder :
    (s : Sizes) (m : PpsMatrix) (oid : ℕ) (v : ℤ)
    → IsShaped s m
    → oid < s.num_orders
    → Returns (HasOrder s oid v m) (write_order s m oid v)
unfolding write_order
write_order-HasOrder s m oid v shaped inside =
    Returns-bind
      (write_column-IsWritten s oid v inside m.num_pps 0 m.scores (
        omega (
          arith,
          shaped,
          ap (λ (t : ℕ). t * s.num_orders) {x = 0 + m.num_pps} {y = m.num_pps} (omega arith),
        )))
      λ new w. returns (record {
        same_rows = refl;
        shaped = w.size ∙ shaped;
        cells = λ p o hp ho. elim (Bool-cases (oid == o)) [
          | inl hit ↦ rw hit (rw (← eq_of_== oid o hit) (w.written p (omega arith) (omega arith)))
          | inr miss ↦ rw miss (
              w.kept (p * s.num_orders + o) λ q lo hi e.
                absurd
                  (ground (arith, miss, (cell-injective s.num_orders q p oid o inside ho e).1)))
        ];
      })

-- What PPSMatrix.EvictOrder does: an order in range loses its score in every row.
pub data ScoresEvicted (s : Sizes) (oid : ℕ) (m m' : PpsMatrix) : Type 0 where
  zeroed : oid < s.num_orders → HasOrder s oid (pos 0) m m' → ScoresEvicted s oid m m'
  out_of_range : s.num_orders ≤ oid → m' ≡ m → ScoresEvicted s oid m m'

-- Evicting an order from a shaped matrix returns without a panic: the score of an order in range is 0 in
-- every row afterwards, and no other score changes; an order out of range leaves the matrix as it was.
pub evict_scores-HasOrder :
    (s : Sizes) (m : PpsMatrix) (oid : ℕ)
    → IsShaped s m
    → Returns (ScoresEvicted s oid m) (evict_scores s m oid)
unfolding evict_scores
evict_scores-HasOrder s m oid shaped = elim (Bool-cases (leb s.num_orders oid)) [
  | inl out ↦ rw out (returns (out_of_range (leb→le s.num_orders oid out) refl))
  | inr inside ↦ rw inside (
      Returns-mono (λ m' w. zeroed (ground arith) w)
        (write_order-HasOrder s m oid (pos 0) shaped (ground arith)))
]
