-- ===== src/Phase1/Delta.antt =====
-- The delta vector of Phase 1, and the whole phase.
use priority_service_poc.Base.{
  ℕ, zero, suc, ◌+◌, ◌<◌, ◌≡◌, refl, ap, ◌∙◌, inl, inr, List, [], ◌∷◌, Option, none, some, arith,
  length, length-set, length-replicate, replicate, get_or, get_elem?-get_or, set, ◌==◌, Bool-cases,
  eq_of_==, get_or-set,
}
use priority_service_poc.Base.Int.{ℤ, pos, ◌+ℤ◌, wrap32}
use priority_service_poc.Base.Run.{Returns, returns, Returns-bind, Returns-mono, load-ok, store-ok}
use priority_service_poc.Types.{Sizes}
use priority_service_poc.Types.Runtime.{Runtime}
use priority_service_poc.Matrix.{PpsMatrix, IsShaped}
use priority_service_poc.Indexes.{InvertedIndexes}
use priority_service_poc.Indexes.Counts.{count, list_of}
use priority_service_poc.Rank.Pass.{AllBelow}
use priority_service_poc.Phase1.{
  TpidDelta, ItemDictUpdate, add_to_orders, scaled_delta, build_delta, phase1_update,
}
use priority_service_poc.Phase1.Rows.{IsUpdated}
use priority_service_poc.Phase1.Pool.{update_matrix-IsUpdated}

-- `d` added `n` times, in int32.
unfoldable pub add_times : ℕ → ℤ → ℤ → ℤ
add_times zero d x = x
add_times (suc n) d x = add_times n d (wrap32 (x +ℤ d))

-- The delta of one order: each entry counts as often as the order is listed under its item type.
pub order_delta : Runtime → InvertedIndexes → List TpidDelta → ℕ → ℤ → ℤ
order_delta rt ix [] o x = x
order_delta rt ix (entry ∷ entries) o x = order_delta rt ix entries o (
    add_times (count o (list_of entry.tpid ix.tpid_to_orders)) (scaled_delta rt entry.score_delta)
      x)

abbrev pub cell : List ℤ → ℕ → ℤ
cell delta o = get_or delta o (pos 0)

pub add_hit :
    (oid o : ℕ) (d : ℤ) (orders : List ℕ) (delta : List ℤ) (v : ℤ)
    → v ≡ wrap32 (cell delta oid +ℤ d)
    → oid < length delta
    → add_times (count o orders) d (cell (set delta oid v) o)
      ≡ add_times (count o (oid ∷ orders)) d (cell delta o)
unfolding count add_times
add_hit oid o d orders delta v e hit = elim (Bool-cases (oid == o)) [
  | inl same ↦
      rw (get_or-set delta oid o v (pos 0) hit, same, e, eq_of_== oid o same)
        (ap (λ (c : ℕ). add_times c d (cell delta o)) {x = suc (count o orders)}
          {y = 1 + count o orders} (omega arith))
  | inr other ↦
      rw (get_or-set delta oid o v (pos 0) hit, other)
        (ap (λ (c : ℕ). add_times c d (cell delta o)) {x = count o orders} {y = 0 + count o orders}
          (omega arith))
]

add_to_orders-cells :
    (d : ℤ) (orders : List ℕ) (n : ℕ) (delta : List ℤ)
    → AllBelow n orders
    → length delta ≡ n
    → Returns
        (λ delta'.
          (length delta' ≡ n)
          × ((o : ℕ) → cell delta' o ≡ add_times (count o orders) d (cell delta o)))
        (add_to_orders d orders delta)
unfolding add_to_orders add_times count
add_to_orders-cells d [] n delta below size = returns (size, λ o. refl)
add_to_orders-cells d (oid ∷ orders) n delta (inside, below) size =
    let hit : oid < length delta = omega arith in
    let v = wrap32 (cell delta oid +ℤ d) in
    rw (load-ok delta oid (get_elem?-get_or delta oid (pos 0) hit), store-ok delta oid v hit)
      (Returns-mono
        (λ delta' (size', cells). (size', λ o. cells o ∙ add_hit oid o d orders delta v refl hit))
        (add_to_orders-cells d orders n (set delta oid v) below (length-set delta oid v ∙ size)))

-- The orders listed under any item type are below the bound.
abbrev pub ListsBelow : ℕ → InvertedIndexes → Type 0
ListsBelow n ix = (tpid : ℕ) → AllBelow n (list_of tpid ix.tpid_to_orders)

build_delta-cells :
    (rt : Runtime) (ix : InvertedIndexes) (entries : List TpidDelta) (n : ℕ) (delta : List ℤ)
    → ListsBelow n ix
    → length delta ≡ n
    → Returns
        (λ delta'.
          (length delta' ≡ n)
          × ((o : ℕ) → cell delta' o ≡ order_delta rt ix entries o (cell delta o)))
        (build_delta rt ix entries delta)
unfolding build_delta order_delta
build_delta-cells rt ix [] n delta below size = returns (size, λ o. refl)
build_delta-cells rt ix (entry ∷ entries) n delta below size =
    Returns-bind
      (add_to_orders-cells (scaled_delta rt entry.score_delta)
        (list_of entry.tpid ix.tpid_to_orders) n delta (below entry.tpid) size)
      λ delta1 (size1, cells1).
        Returns-mono
          (λ delta2 (size2, cells2).
            (size2, λ o. cells2 o ∙ ap (λ (x : ℤ). order_delta rt ix entries o x) (cells1 o)))
          (build_delta-cells rt ix entries n delta1 below size1)

pub cell-zero : (n o : ℕ) → cell (replicate n (pos 0)) o ≡ pos 0
cell-zero zero o = refl
cell-zero (suc n) zero = refl
cell-zero (suc n) (suc o) = cell-zero n o

-- What Phase 1 does to the matrix: nothing without an update, else each score of a row moves by the
-- delta of its order.
pub data Phase1Done (s : Sizes) (rt : Runtime) (ix : InvertedIndexes) (old new : PpsMatrix)
    : Option ItemDictUpdate → Type 0 where
  no_update : new ≡ old → Phase1Done s rt ix old new none
  moved :
      {update : ItemDictUpdate} (delta : List ℤ)
      → length delta ≡ s.num_orders
      → ((o : ℕ) → cell delta o ≡ order_delta rt ix update.tpid_deltas o (pos 0))
      → IsUpdated s delta 0 old.num_pps old new
      → Phase1Done s rt ix old new (some update)

-- Phase 1 returns without a panic if the matrix is shaped, has a row, the service has a goroutine at
-- least and only orders in range are listed. Without an update the matrix stays; else, with any number
-- of workers asked for, each score moves by the delta of its order, which counts every entry of the
-- update as often as the order is listed under its item type, in int32, and is clamped.
pub phase1_update-Phase1Done :
    (s : Sizes) (rt : Runtime) (num_workers : ℤ) (ix : InvertedIndexes)
    (update : Option ItemDictUpdate) (m : PpsMatrix)
    → 0 < s.num_workers
    → 0 < m.num_pps
    → IsShaped s m
    → ListsBelow s.num_orders ix
    → Returns
        (λ m'. Phase1Done s rt ix m m' update × IsShaped s m' × (m'.num_pps ≡ m.num_pps))
        (phase1_update s rt num_workers ix update m)
unfolding phase1_update
phase1_update-Phase1Done s rt num_workers ix none m pool some_row shaped below =
    returns (no_update refl, shaped, refl)
phase1_update-Phase1Done s rt num_workers ix (some update) m pool some_row shaped below =
    Returns-bind
      (build_delta-cells rt ix update.tpid_deltas s.num_orders (replicate s.num_orders (pos 0))
        below (length-replicate s.num_orders (pos 0)))
      λ delta (size, cells).
        Returns-mono
          (λ m' u. (
            moved delta size
                (λ o.
                  cells o
                  ∙ ap (λ (x : ℤ). order_delta rt ix update.tpid_deltas o x)
                      (cell-zero s.num_orders o))
                u,
            u.shaped,
            u.rows,
          ))
          (update_matrix-IsUpdated s num_workers delta m pool some_row shaped size)
