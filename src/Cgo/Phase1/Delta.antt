-- ===== src/Cgo/Phase1/Delta.antt =====
-- The delta vector of Phase 1 of the cgo variant.
use priority_service_poc.Base.{
  ℕ, ◌+◌, ◌<◌, ◌≡◌, refl, sym, ap, ◌∙◌, inl, inr, List, [], ◌∷◌, Option, none, some, true, false,
  arith, length, length-set, get_elem?-get_or, set, ltb, ◌==◌, if◌then◌else◌, Bool-cases,
}
use priority_service_poc.Base.Int.{ℤ, pos, ◌+ℤ◌, wrap32}
use priority_service_poc.Base.Dict.{lookup, lookup_or}
use priority_service_poc.Base.Run.{Returns, returns, Returns-bind, Returns-mono, load-ok, store-ok}
use priority_service_poc.Types.{Sizes}
use priority_service_poc.Types.Float.{is_zero}
use priority_service_poc.Types.Runtime.{Runtime}
use priority_service_poc.Indexes.{InvertedIndexes}
use priority_service_poc.Indexes.Counts.{count, list_of}
use priority_service_poc.Phase1.{scaled_delta}
use priority_service_poc.Phase1.Delta.{add_times, add_hit, cell}
use priority_service_poc.Cgo.Phase1.{
  TpidUpdate, contribution, add_in_range, add_listed, build_delta,
}

-- The delta of one order: an update of a changed contribution counts as often as the order is listed
-- under its item type.
unfoldable pub order_delta : Runtime → InvertedIndexes → List TpidUpdate → ℕ → ℤ → ℤ
order_delta rt ix [] o x = x
order_delta rt ix (u ∷ updates) o x =
    let times = count o (list_of u.tpid ix.tpid_to_orders) in
    let changed = add_times times (scaled_delta rt (contribution u)) x in
    order_delta rt ix updates o (if is_zero (contribution u) then x else changed)

order_delta_unchanged :
    (rt : Runtime) (ix : InvertedIndexes) (u : TpidUpdate) (updates : List TpidUpdate) (o : ℕ)
    (x : ℤ)
    → is_zero (contribution u) ≡ true
    → order_delta rt ix (u ∷ updates) o x ≡ order_delta rt ix updates o x
unfolding order_delta
order_delta_unchanged rt ix u updates o x e = rw e refl

order_delta_changed :
    (rt : Runtime) (ix : InvertedIndexes) (u : TpidUpdate) (updates : List TpidUpdate) (o : ℕ)
    (x : ℤ)
    → is_zero (contribution u) ≡ false
    → order_delta rt ix (u ∷ updates) o x
      ≡ order_delta rt ix updates o (
          add_times
            (count o (list_of u.tpid ix.tpid_to_orders))
            (scaled_delta rt (contribution u))
            x)
unfolding order_delta
order_delta_changed rt ix u updates o x e = rw e refl

-- The cells of the orders in range.
abbrev pub Cells : ℕ → (ℕ → ℤ → ℤ) → List ℤ → List ℤ → Type 0
Cells n f old new = (length new ≡ n) × ((o : ℕ) → o < n → cell new o ≡ f o (cell old o))

module _ (s : Sizes) where
  add_in_range-Cells :
      (d : ℤ) (orders : List ℕ) (delta : List ℤ)
      → length delta ≡ s.num_orders
      → Returns
          (Cells s.num_orders (λ o x. add_times (count o orders) d x) delta)
          (add_in_range s d orders delta)
  unfolding add_in_range add_times count
  add_in_range-Cells d [] delta size = returns (size, λ o h. refl)
  add_in_range-Cells d (oid ∷ orders) delta size = elim (Bool-cases (ltb oid s.num_orders)) [
    | inl inside ↦
        let hit : oid < length delta = ground arith in
        let v = wrap32 (cell delta oid +ℤ d) in
        rw
          (
            inside,
            load-ok delta oid (get_elem?-get_or delta oid (pos 0) hit),
            store-ok delta oid v hit,
          )
          (Returns-mono
            (λ delta' (size', cells).
              (size', λ o h. cells o h ∙ add_hit oid o d orders delta v refl hit))
            (add_in_range-Cells d orders (set delta oid v) (length-set delta oid v ∙ size)))
    | inr outside ↦ rw outside (
        Returns-mono
          (λ delta' (size', cells). (
            size',
            λ o h.
                let other : (oid == o) ≡ false = ground arith in
                cells o h
                ∙ rw other (
                    ap (λ (c : ℕ). add_times c d (cell delta o)) {x = count o orders}
                      {y = 0 + count o orders} (omega arith)),
          ))
          (add_in_range-Cells d orders delta size))
  ]

  add_listed-Cells :
      (d : ℤ) (ix : InvertedIndexes) (tpid : ℕ) (delta : List ℤ)
      → length delta ≡ s.num_orders
      → Returns
          (Cells s.num_orders
            (λ o x. add_times (count o (list_of tpid ix.tpid_to_orders)) d x)
            delta)
          (add_listed s d (lookup tpid ix.tpid_to_orders) delta)
  unfolding lookup_or add_listed count add_times
  add_listed-Cells d ix tpid delta size = listed (lookup tpid ix.tpid_to_orders)
    where
      listed :
          (found : Option (List ℕ))
          → Returns
              (Cells s.num_orders
                (λ o x. add_times (count o (elim found [ none ↦ [] | some l ↦ l ])) d x)
                delta)
              (add_listed s d found delta)
      listed none = returns (size, λ o h. refl)
      listed (some orders) = add_in_range-Cells d orders delta size

  pub build_delta-Cells :
      (rt : Runtime) (ix : InvertedIndexes) (updates : List TpidUpdate) (delta : List ℤ)
      → length delta ≡ s.num_orders
      → Returns
          (Cells s.num_orders (order_delta rt ix updates) delta)
          (build_delta s rt ix updates delta)
  unfolding build_delta
  build_delta-Cells rt ix [] delta size = returns (size, λ o h. unfold order_delta in refl)
  build_delta-Cells rt ix (u ∷ updates) delta size = elim (Bool-cases (is_zero (contribution u))) [
    | inl unchanged ↦ rw unchanged (
        Returns-mono
          (λ delta2 (size2, cells2). (
            size2,
            λ o h.
                cells2 o h ∙ sym (order_delta_unchanged rt ix u updates o (cell delta o) unchanged),
          ))
          (build_delta-Cells rt ix updates delta size))
    | inr changed ↦ rw changed (
        Returns-bind (add_listed-Cells (scaled_delta rt (contribution u)) ix u.tpid delta size)
          λ delta1 (size1, cells1).
            Returns-mono
              (λ delta2 (size2, cells2). (
                size2,
                λ o h.
                    cells2 o h
                    ∙ ap (λ (x : ℤ). order_delta rt ix updates o x) (cells1 o h)
                    ∙ sym (order_delta_changed rt ix u updates o (cell delta o) changed),
              ))
              (build_delta-Cells rt ix updates delta1 size1))
  ]
