-- ===== src/Cgo/Registry/Refinement.antt =====
-- The registry of the cgo variant refines that of the pure variant, as long as the matrix is not freed.
use mathlib.Core.Path.{fun_ext}
use priority_service_poc.Base.{
  List, sym, ℕ, zero, suc, ◌≡◌, refl, ap, ◌∙◌, not, Bool, true, false, leb, if◌then◌else◌,
  Bool-cases, inl, inr,
}
use priority_service_poc.Base.Int.{ℤ}
use priority_service_poc.Base.Run.{Run, ok, panic, out_of_fuel, ◌>>=◌, load, store}
use priority_service_poc.Types.{Sizes, OrderMeta}
use priority_service_poc.Matrix.{PpsMatrix, evict_scores}
use priority_service_poc.Indexes.{remove_order}
use priority_service_poc.Registry.{
  OrderStore, is_expired, clear_slot, evict_slot, evict_order, purge_loop, purge_expired,
}
use priority_service_poc.Cgo.Scoring.Live.{live, live_run, evict_order-live}
use priority_service_poc.Cgo.Registry.{
  OrderStore as CgoStore, evict_slot as cgo_evict_slot, evict_order as cgo_evict_order,
  purge_loop as cgo_purge_loop, purge_expired as cgo_purge_expired,
}

-- The store with its matrix on the C heap.
abbrev pub live_store : OrderStore → CgoStore
live_store st = record { registry = st.registry; indexes = st.indexes; matrix = live st.matrix }

abbrev pub live_stores : Run OrderStore → Run CgoStore
live_stores run = run >>= λ st. ok (live_store st)

pub bind_assoc :
    {A B C : Type 0} (run : Run A) (f : A → Run B) (g : B → Run C)
    → ((run >>= f) >>= g) ≡ (run >>= λ a. f a >>= g)
bind_assoc panic f g = refl
bind_assoc out_of_fuel f g = refl
bind_assoc (ok a) f g = refl

pub bind_cong :
    {A B : Type 0} (run : Run A) (f g : A → Run B)
    → ((a : A) → f a ≡ g a)
    → (run >>= f) ≡ (run >>= g)
bind_cong run f g h = ap (λ next. run >>= next) (fun_ext h)

-- Two chains agree up to `live_store` if their first steps and the rests do.
bind_live :
    (run : Run OrderStore) (rest : OrderStore → Run OrderStore) (rest' : CgoStore → Run CgoStore)
    → ((st : OrderStore) → rest' (live_store st) ≡ live_stores (rest st))
    → (live_stores run >>= rest') ≡ live_stores (run >>= rest)
bind_live panic rest rest' h = refl
bind_live out_of_fuel rest rest' h = refl
bind_live (ok st) rest rest' h = h st

evict_parts :
    (st : OrderStore) (oid : ℕ) (metas : Run (List OrderMeta)) (matrices : Run PpsMatrix)
    → (metas >>= λ meta. live_run matrices >>= λ matrix. ok (record {
      registry = record { meta = meta };
      indexes = remove_order st.indexes oid;
      matrix = matrix;
    }))
      ≡ live_stores (
          (metas >>= λ meta. ok (record { meta = meta })) >>= λ registry. matrices >>= λ matrix.
          ok (record {
            registry = registry;
            indexes = remove_order st.indexes oid;
            matrix = matrix;
          }))
evict_parts st oid panic matrices = refl
evict_parts st oid out_of_fuel matrices = refl
evict_parts st oid (ok meta) panic = refl
evict_parts st oid (ok meta) out_of_fuel = refl
evict_parts st oid (ok meta) (ok matrix) = refl

module _ (s : Sizes) where
  evict_slot-live :
      (st : OrderStore) (i : ℕ) (m : OrderMeta) (oid : ℕ)
      → cgo_evict_slot s (live_store st) i m oid ≡ live_stores (evict_slot s st i m oid)
  unfolding cgo_evict_slot evict_slot clear_slot
  evict_slot-live st i m oid =
      rw (evict_order-live s st.matrix oid)
        (evict_parts st oid (store st.registry.meta i _) (evict_scores s st.matrix oid))

  evict_if :
      (test : Bool) (st : OrderStore) (i : ℕ) (m : OrderMeta) (oid : ℕ)
      → (if test then cgo_evict_slot s (live_store st) i m oid else ok (live_store st))
        ≡ live_stores (if test then evict_slot s st i m oid else ok st)
  evict_if true st i m oid = evict_slot-live st i m oid
  evict_if false st i m oid = refl

  purge_loop-live :
      (now_secs : ℤ) (rounds i : ℕ) (st : OrderStore)
      → cgo_purge_loop s now_secs rounds i (live_store st)
        ≡ live_stores (purge_loop s now_secs rounds i st)
  unfolding cgo_purge_loop purge_loop
  purge_loop-live now_secs zero i st = refl
  purge_loop-live now_secs (suc rounds) i st =
      bind_cong (load st.registry.meta i) _ _ (λ m.
        ap (λ run. run >>= cgo_purge_loop s now_secs rounds (suc i))
          (evict_if (is_expired now_secs m) st i m m.order_id)
        ∙ bind_live (if is_expired now_secs m then evict_slot s st i m m.order_id else ok st)
            (purge_loop s now_secs rounds (suc i)) (cgo_purge_loop s now_secs rounds (suc i))
            (purge_loop-live now_secs rounds (suc i)))
      ∙ sym (bind_assoc (load st.registry.meta i) _ _)

  pub purge_expired-live :
      (st : OrderStore) (now_secs : ℤ)
      → cgo_purge_expired s (live_store st) now_secs ≡ live_stores (purge_expired s st now_secs)
  unfolding cgo_purge_expired purge_expired
  purge_expired-live st now_secs = purge_loop-live now_secs s.num_orders 0 st

  evict_unless :
      (test : Bool) (st : OrderStore) (i : ℕ) (m : OrderMeta) (oid : ℕ)
      → (if test then ok (live_store st) else cgo_evict_slot s (live_store st) i m oid)
        ≡ live_stores (if test then ok st else evict_slot s st i m oid)
  evict_unless true st i m oid = refl
  evict_unless false st i m oid = evict_slot-live st i m oid

  pub evict_order-refines :
      (st : OrderStore) (oid : ℕ)
      → cgo_evict_order s (live_store st) oid ≡ live_stores (evict_order s st oid)
  unfolding cgo_evict_order evict_order
  evict_order-refines st oid = elim (Bool-cases (leb s.num_orders oid)) [
    | inl out ↦ rw out refl
    | inr inside ↦ rw inside (
        bind_cong (load st.registry.meta oid) _ _ (λ m. evict_unless (not m.active) st oid m oid)
        ∙ sym (bind_assoc (load st.registry.meta oid) _ _))
  ]

-- On a matrix that is not freed, EvictOrder of any identifier and PurgeExpired at any time do in the
-- cgo variant what they do in the pure variant: the same store, with its matrix on the C heap, or a panic
-- where the pure variant panics.
pub registry-refines :
    (s : Sizes) (st : OrderStore) (oid : ℕ) (now_secs : ℤ)
    → (cgo_evict_order s (live_store st) oid ≡ live_stores (evict_order s st oid))
      × (cgo_purge_expired s (live_store st) now_secs ≡ live_stores (purge_expired s st now_secs))
registry-refines s st oid now_secs =
    (evict_order-refines s st oid, purge_expired-live s st now_secs)
