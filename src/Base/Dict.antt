-- ===== src/Base/Dict.antt =====
-- Go maps from an integer type, as association lists. `lookup` is `m[k]` with its `ok`, `insert` is
-- `m[k] = v`, and `delete` is the builtin of that name.
use Prim.Native.Nat.{ℕ}
use mathlib.Core.Path.{◌≡◌, refl}
use mathlib.Core.List.{List, [], ◌∷◌}
use mathlib.Core.Option.{Option, none, some}
use native.Mathlib.Omega.{arith}
use priority_service_poc.Base.Tests.{◌==◌, if◌then◌else◌}

abbrev pub Dict {ℓ} : Type ℓ → Type ℓ
Dict V = List (ℕ × V)

module _ {ℓ} {V : Type ℓ} where
  unfoldable pub lookup : ℕ → Dict V → Option V
  lookup k [] = none
  lookup k ((j, v) ∷ m) = if j == k then some v else lookup k m

  -- A missing key reads as the zero value of the type.
  unfoldable pub lookup_or : ℕ → V → Dict V → V
  lookup_or k d m = elim (lookup k m) [ none ↦ d | some v ↦ v ]

  unfoldable pub insert : ℕ → V → Dict V → Dict V
  insert key val [] = (key, val) ∷ []
  insert key val ((other, old) ∷ rest) =
      if other == key then (key, val) ∷ rest else (other, old) ∷ insert key val rest

  unfoldable pub delete : ℕ → Dict V → Dict V
  delete k [] = []
  delete k ((j, w) ∷ m) = let rest = delete k m in if j == k then rest else (j, w) ∷ rest

  pub lookup-insert :
      (key j : ℕ) (val : V) (m : Dict V)
      → lookup j (insert key val m) ≡ (if key == j then some val else lookup j m)
  unfolding lookup insert
  lookup-insert key j val [] = refl
  lookup-insert key j val ((other, old) ∷ rest) = ground (arith, lookup-insert key j val rest)

  pub lookup-delete :
      (k j : ℕ) (m : Dict V) → lookup j (delete k m) ≡ (if k == j then none else lookup j m)
  unfolding lookup delete
  lookup-delete k j [] = ground arith
  lookup-delete k j ((i, w) ∷ m) = ground (arith, lookup-delete k j m)
