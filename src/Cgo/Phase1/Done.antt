-- ===== src/Cgo/Phase1/Done.antt =====
-- Phase 1 of the cgo variant as a whole.
use priority_service_poc.Base.{
  ℕ, zero, suc, ◌<◌, ◌≡◌, refl, sym, subst, ap, ◌∙◌, List, [], ◌∷◌, Option, none, some, arith,
  length, length-replicate, replicate, get_elem?, lt_of_get_elem?,
}
use priority_service_poc.Base.Int.{ℤ, pos}
use priority_service_poc.Base.Run.{Returns, returns, Returns-bind}
use priority_service_poc.Types.{Sizes}
use priority_service_poc.Types.Runtime.{Runtime}
use priority_service_poc.Matrix.{PpsMatrix, IsShaped}
use priority_service_poc.Indexes.{InvertedIndexes}
use priority_service_poc.Phase1.Delta.{cell, cell-zero}
use priority_service_poc.Phase1.Rows.{IsUpdated}
use priority_service_poc.Phase1.Pool.{update_matrix-IsUpdated}
use priority_service_poc.Cgo.Scoring.{PpsMatrix as CgoMatrix}
use priority_service_poc.Cgo.Scoring.Kernel.{All, All-of, Modest, IsShort, IsUpdated-IsShort}
use priority_service_poc.Cgo.Scoring.Live.{live}
use priority_service_poc.Cgo.Phase1.{TpidUpdate, ItemDictUpdate, phase1_list, phase1_update}
use priority_service_poc.Cgo.Phase1.Pool.{update_matrix-live}
use priority_service_poc.Cgo.Phase1.Delta.{order_delta, build_delta-Cells}

-- What Phase 1 does to the matrix: nothing without updates, else each score of a row moves by the delta
-- of its order and is clamped.
pub data Phase1Done (s : Sizes) (rt : Runtime) (ix : InvertedIndexes) (old new : PpsMatrix)
    : Option ItemDictUpdate → Type 0 where
  no_update : new ≡ old → Phase1Done s rt ix old new none
  no_changes : new ≡ old → Phase1Done s rt ix old new (some (record { updates = [] }))
  moved :
      {update : ItemDictUpdate} (delta : List ℤ)
      → length delta ≡ s.num_orders
      → ((o : ℕ) → o < s.num_orders → cell delta o ≡ order_delta rt ix update.updates o (pos 0))
      → IsUpdated s delta 0 old.num_pps old new
      → Phase1Done s rt ix old new (some update)

-- The deltas of an update keep the sum with any int16 score within an int32.
abbrev pub ModestDeltas : Sizes → Runtime → InvertedIndexes → Option ItemDictUpdate → Type 0
ModestDeltas s rt ix none = Unit {0}
ModestDeltas s rt ix (some update) =
    (o : ℕ) → o < s.num_orders → Modest (order_delta rt ix update.updates o (pos 0))

-- A matrix on the C heap after Phase 1.
pub record IsPhase1 (s : Sizes) (rt : Runtime) (ix : InvertedIndexes)
    (update : Option ItemDictUpdate) (old : PpsMatrix) (new : CgoMatrix) : Type 0 where
  pub matrix : PpsMatrix
  pub alive : new ≡ live matrix
  pub shaped : IsShaped s matrix
  pub short : IsShort s matrix
  pub rows : matrix.num_pps ≡ old.num_pps
  pub done : Phase1Done s rt ix old matrix update

cell-value : (delta : List ℤ) (o : ℕ) (v : ℤ) → get_elem? delta o ≡ some v → cell delta o ≡ v
cell-value [] o v e = absurd (cc e)
cell-value (x ∷ delta) zero v e = cc e
cell-value (x ∷ delta) (suc o) v e = cell-value delta o v e

module _ (s : Sizes) (rt : Runtime) (int_overflow : ℤ → ℤ) (num_workers : ℤ) (ix : InvertedIndexes)
    (m : PpsMatrix) where
  unmoved :
      (update : Option ItemDictUpdate)
      → Phase1Done s rt ix m m update
      → IsShaped s m
      → IsShort s m
      → IsPhase1 s rt ix update m (live m)
  unmoved update d shaped short = record {
    matrix = m;
    alive = refl;
    shaped = shaped;
    short = short;
    rows = refl;
    done = d;
  }

  phase1_list-IsPhase1 :
      (updates : List TpidUpdate)
      → 0 < s.num_workers
      → 0 < s.num_orders
      → 0 < m.num_pps
      → IsShaped s m
      → IsShort s m
      → ModestDeltas s rt ix (some (record { updates = updates }))
      → Returns
          (IsPhase1 s rt ix (some (record { updates = updates })) m)
          (phase1_list s rt int_overflow num_workers ix updates (live m))
  unfolding phase1_list
  phase1_list-IsPhase1 [] pool some_order some_row shaped short modest =
      returns (unmoved (some (record { updates = [] })) (no_changes refl) shaped short)
  phase1_list-IsPhase1 (u ∷ updates) pool some_order some_row shaped short modest =
      let zeros = replicate s.num_orders (pos 0) in
      Returns-bind
        (build_delta-Cells s rt ix (u ∷ updates) zeros (length-replicate s.num_orders (pos 0)))
        λ delta (size, cells).
          let exact = λ (o : ℕ) (h : o < s.num_orders).
            cells o h
            ∙ ap (λ (x : ℤ). order_delta rt ix (u ∷ updates) o x) (cell-zero s.num_orders o) in
          let bounded : All Modest delta = All-of Modest delta λ o v e.
            let inside : o < s.num_orders = omega (arith, lt_of_get_elem? delta o e, size) in
            subst Modest (sym (exact o inside) ∙ cell-value delta o v e) (modest o inside) in
          rw
            (update_matrix-live s int_overflow delta size bounded some_order num_workers m shaped
              short)
            (Returns-bind (update_matrix-IsUpdated s num_workers delta m pool some_row shaped size)
              λ m' u. returns (record {
                matrix = m';
                alive = refl;
                shaped = u.shaped;
                short = IsUpdated-IsShort s m m' short u;
                rows = u.rows;
                done = moved delta size exact u;
              }))

  -- Phase 1 of the cgo variant returns without a panic or undefined behaviour, with any number of
  -- workers, if the matrix is not freed, is shaped, has a row and int16 scores, the service has a
  -- goroutine and an order slot at least, and the deltas keep every sum within an int32. Without updates
  -- the matrix stays; else each score moves by the delta of its order, which counts every update of a
  -- changed contribution as often as the order is listed under its item type, and is clamped. Orders out
  -- of range that are listed change nothing.
  pub phase1_update-IsPhase1 :
      (update : Option ItemDictUpdate)
      → 0 < s.num_workers
      → 0 < s.num_orders
      → 0 < m.num_pps
      → IsShaped s m
      → IsShort s m
      → ModestDeltas s rt ix update
      → Returns
          (IsPhase1 s rt ix update m)
          (phase1_update s rt int_overflow num_workers ix update (live m))
  unfolding phase1_update
  phase1_update-IsPhase1 none pool some_order some_row shaped short modest =
      returns (unmoved none (no_update refl) shaped short)
  phase1_update-IsPhase1 (some update) pool some_order some_row shaped short modest =
      phase1_list-IsPhase1 update.updates pool some_order some_row shaped short modest
