-- ===== src/Cgo/Registry/Ranges.antt =====
-- The registries of the two Go variants on identifiers in and out of range: Upsert and Deactivate in
-- registry.go of go-pure-impl and of go-cgo-impl.
use priority_service_poc.Base.{
  ℕ, ◌≡◌, ◌≤◌, refl, length, leb, true, false, arith, get_elem?-some, List, ◌∷◌, [], zero, suc,
}
use priority_service_poc.Base.Run.{load-ok, store-ok, Run, ok, panic, out_of_fuel, load, store}
use native.Mathlib.Decide.{dec_lt}
use priority_service_poc.Types.{Sizes, OrderMeta}
use priority_service_poc.Registry.{OrderRegistry, upsert, deactivate}
use priority_service_poc.Cgo.Registry.{
  upsert as cgo_upsert, deactivate as cgo_deactivate, clear_active,
}

-- A panic is replaced by the registry as it was.
abbrev pub or_keep : Run OrderRegistry → OrderRegistry → Run OrderRegistry
or_keep panic r = ok r
or_keep out_of_fuel r = out_of_fuel
or_keep (ok r') r = ok r'

pub store-panic {ℓ} :
    {A : Type ℓ} (xs : List A) (i : ℕ) (v : A) → length xs ≤ i → store xs i v ≡ panic
unfolding store
store-panic xs i v h = ground arith

pub load-panic {ℓ} : {A : Type ℓ} (xs : List A) (i : ℕ) → length xs ≤ i → load xs i ≡ panic
unfolding load
load-panic [] i h = refl
load-panic (x ∷ xs) zero h = absurd (omega arith)
load-panic (x ∷ xs) (suc i) h = load-panic xs i (omega arith)

upsert-or_keep :
    (s : Sizes) (r : OrderRegistry) (m : OrderMeta)
    → length r.meta ≡ s.num_orders
    → cgo_upsert s r m ≡ or_keep (upsert r m) r
unfolding cgo_upsert upsert
upsert-or_keep s r m h = elim (dec_lt m.order_id s.num_orders) [
  | yes below ↦
      let inside : leb s.num_orders m.order_id ≡ false = ground arith in
      rw (inside, store-ok r.meta m.order_id m (omega arith)) refl
  | no above ↦
      let outside : leb s.num_orders m.order_id ≡ true = ground arith in
      rw (outside, store-panic r.meta m.order_id m (omega arith)) refl
]

deactivate-or_keep :
    (s : Sizes) (r : OrderRegistry) (order_id : ℕ)
    → length r.meta ≡ s.num_orders
    → cgo_deactivate s r order_id ≡ or_keep (deactivate r order_id) r
unfolding cgo_deactivate deactivate clear_active
deactivate-or_keep s r order_id h = elim (dec_lt order_id s.num_orders) [
  | yes below ↦
      let inside : leb s.num_orders order_id ≡ false = ground arith in
      let slot = get_elem?-some r.meta order_id (omega arith) in
      rw
        (
          inside,
          load-ok r.meta order_id slot.1,
          store-ok r.meta order_id (record slot.0 { active = false }) (omega arith),
        )
        refl
  | no above ↦
      let outside : leb s.num_orders order_id ≡ true = ground arith in
      rw (outside, load-panic r.meta order_id (omega arith)) refl
]

-- On a registry of `num_orders` slots, Upsert and Deactivate of the cgo variant do what those of the pure
-- variant do, except that they keep the registry as it is where the pure ones panic.
pub registry-or_keep :
    (s : Sizes) (r : OrderRegistry) (m : OrderMeta) (order_id : ℕ)
    → length r.meta ≡ s.num_orders
    → (cgo_upsert s r m ≡ or_keep (upsert r m) r)
      × (cgo_deactivate s r order_id ≡ or_keep (deactivate r order_id) r)
registry-or_keep s r m order_id h = (upsert-or_keep s r m h, deactivate-or_keep s r order_id h)
