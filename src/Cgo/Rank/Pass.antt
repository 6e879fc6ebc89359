-- ===== src/Cgo/Rank/Pass.antt =====
-- The single pass of the cgo variant is that of the pure variant over the identifiers in range.
use priority_service_poc.Base.{
  ℕ, ◌<◌, ◌≡◌, refl, List, [], ◌∷◌, some, true, arith, get_elem?-take, get_elem?-drop, take, drop,
  ltb, leb, if◌then◌else◌, Bool-cases, inl, inr,
}
use priority_service_poc.Base.Int.{ℤ}
use priority_service_poc.Base.Run.{load}
use priority_service_poc.Types.{Sizes, OrderMeta}
use priority_service_poc.Rank.{WorkerScratch, fill_scratch, add_entries}
use priority_service_poc.Rank.Pass.{AllBelow}
use priority_service_poc.Cgo.Scoring.{RowView, read_row}
use priority_service_poc.Cgo.Registry.Refinement.{bind_cong}
use priority_service_poc.Cgo.Rank.{fill_scratch as cgo_fill_scratch}

-- The identifiers below the bound.
unfoldable pub known : ℕ → List ℕ → List ℕ
known n [] = []
known n (oid ∷ oids) = let rest = known n oids in if leb n oid then rest else oid ∷ rest

pub known-AllBelow : (n : ℕ) (oids : List ℕ) → AllBelow n (known n oids)
unfolding known
known-AllBelow n [] = tt
known-AllBelow n (oid ∷ oids) = elim (Bool-cases (leb n oid)) [
  | inl out ↦ rw out (known-AllBelow n oids)
  | inr inside ↦ rw inside (ground arith, known-AllBelow n oids)
]

-- The view of a row that lies within the allocation.
abbrev pub row_view : List ℤ → ℕ → ℕ → RowView
row_view cells start n = record { memory = some cells; start = start; size = n }

read_row-load :
    (cells : List ℤ) (start n oid : ℕ)
    → oid < n
    → read_row (row_view cells start n) oid ≡ load (take n (drop start cells)) oid
unfolding read_row load
read_row-load cells start n oid h =
    let inside : ltb oid n ≡ true = ground arith in
    rw (inside, get_elem?-take n (drop start cells) oid h, get_elem?-drop start cells oid) refl

module _ (s : Sizes) (now_secs crit_deadline : ℤ) (meta : List OrderMeta) (cells : List ℤ)
    (start : ℕ) where
  pub fill_scratch-known :
      (eligible : List ℕ) (sc : WorkerScratch)
      → cgo_fill_scratch s now_secs crit_deadline meta
          (row_view cells start s.num_orders)
          eligible
          sc
        ≡ fill_scratch now_secs crit_deadline meta
            (take s.num_orders (drop start cells))
            (known s.num_orders eligible)
            sc
  unfolding cgo_fill_scratch fill_scratch known
  fill_scratch-known [] sc = refl
  fill_scratch-known (oid ∷ eligible) sc = elim (Bool-cases (leb s.num_orders oid)) [
    | inl out ↦ rw out (fill_scratch-known eligible sc)
    | inr is_inside ↦
        let inside : oid < s.num_orders = ground arith in
        rw is_inside (
          bind_cong (load meta oid) _ _ λ m. elim (Bool-cases m.active) [
            | inr off ↦ rw off (fill_scratch-known eligible sc)
            | inl on ↦
                rw (on, read_row-load cells start s.num_orders oid inside)
                  (bind_cong (load (take s.num_orders (drop start cells)) oid) _ _ λ score.
                    fill_scratch-known eligible (add_entries now_secs crit_deadline m score oid sc))
          ])
  ]
