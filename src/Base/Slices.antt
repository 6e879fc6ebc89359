-- ===== src/Base/Slices.antt =====
-- Go slices of one backing array: `xs[lo:hi]`, and writes through such a slice.
use Prim.Native.Nat.{ℕ, zero, suc, ◌+◌, ◌≤◌, ◌<◌}
use mathlib.Core.Path.{◌≡◌, refl, sym, ap, ap₂, ◌∙◌}
use mathlib.Core.Logic.{◌⊎◌, inr}
use mathlib.Core.List.{List, [], ◌∷◌}
use mathlib.Core.Option.{none}
use native.Mathlib.Decide.{dec_lt}
use native.Mathlib.Omega.{arith}
use priority_service_poc.Base.Tests.{leb, if◌then◌else◌}
use priority_service_poc.Base.Lists.{
  length, get_elem?, get_or, set, take, drop, length-take, length-drop, get_elem?-take,
  get_elem?-drop,
}
use priority_service_poc.Base.Run.{Run, ok, panic}

module _ {ℓ} {A : Type ℓ} where
  -- `xs[off : off+n]`, which panics past the end of the array.
  unfoldable pub slice : List A → ℕ → ℕ → Run (List A)
  slice xs off n = if leb (off + n) (length xs) then ok (take n (drop off xs)) else panic

  -- What the array holds after the entries from `off` on were overwritten by `ys`; as the builtin
  -- `copy`, it stops at the end of the array.
  unfoldable pub splice : List A → ℕ → List A → List A
  splice xs off [] = xs
  splice [] off (y ∷ ys) = []
  splice (x ∷ xs) zero (y ∷ ys) = y ∷ splice xs zero ys
  splice (x ∷ xs) (suc off) (y ∷ ys) = x ∷ splice xs off (y ∷ ys)

  pub slice-ok :
      (xs : List A) (off n : ℕ) → off + n ≤ length xs → slice xs off n ≡ ok (take n (drop off xs))
  unfolding slice
  slice-ok xs off n h = ground arith

  pub length-splice : (xs : List A) (off : ℕ) (ys : List A) → length (splice xs off ys) ≡ length xs
  unfolding splice
  length-splice xs off [] = refl
  length-splice [] off (y ∷ ys) = refl
  length-splice (x ∷ xs) zero (y ∷ ys) = ap suc (length-splice xs zero ys)
  length-splice (x ∷ xs) (suc off) (y ∷ ys) = ap suc (length-splice xs off (y ∷ ys))

  -- A write in place, then a copy behind it, is one copy.
  pub splice-set :
      (xs : List A) (i : ℕ) (v : A) (vs : List A)
      → splice (set xs i v) (suc i) vs ≡ splice xs i (v ∷ vs)
  unfolding splice
  splice-set [] i v [] = refl
  splice-set [] i v (w ∷ vs) = refl
  splice-set (x ∷ xs) zero v [] = refl
  splice-set (x ∷ xs) zero v (w ∷ vs) = refl
  splice-set (x ∷ xs) (suc i) v [] = ap (◌∷◌ x) (splice-set xs i v [])
  splice-set (x ∷ xs) (suc i) v (w ∷ vs) = ap (◌∷◌ x) (splice-set xs i v (w ∷ vs))

  pub splice_whole : (xs ys : List A) → length ys ≡ length xs → splice xs 0 ys ≡ ys
  unfolding splice
  splice_whole [] [] h = refl
  splice_whole (x ∷ xs) [] h = absurd (omega arith)
  splice_whole [] (y ∷ ys) h = absurd (omega arith)
  splice_whole (x ∷ xs) (y ∷ ys) h = ap (◌∷◌ y) (splice_whole xs ys (omega arith))

  pub splice_past : (xs : List A) (off : ℕ) (ys : List A) → length xs ≤ off → splice xs off ys ≡ xs
  unfolding splice
  splice_past xs off [] h = refl
  splice_past [] off (y ∷ ys) h = refl
  splice_past (x ∷ xs) zero (y ∷ ys) h = absurd (omega arith)
  splice_past (x ∷ xs) (suc off) (y ∷ ys) h = ap (◌∷◌ x) (splice_past xs off (y ∷ ys) (omega arith))

  pub drop-set : (xs : List A) (i : ℕ) (v : A) → drop (suc i) (set xs i v) ≡ drop (suc i) xs
  drop-set [] i v = refl
  drop-set (x ∷ xs) zero v = refl
  drop-set (x ∷ xs) (suc i) v = drop-set xs i v

  pub drop_step :
      (xs : List A) (i : ℕ) (d : A) → i < length xs → drop i xs ≡ get_or xs i d ∷ drop (suc i) xs
  drop_step [] i d h = elim h [ ]
  drop_step (x ∷ xs) zero d h = refl
  drop_step (x ∷ xs) (suc i) d h = drop_step xs i d (omega arith)

  pub get_elem?-splice_inside :
      (xs : List A) (off : ℕ) (ys : List A) (j : ℕ)
      → j < length ys
      → off + length ys ≤ length xs
      → get_elem? (splice xs off ys) (off + j) ≡ get_elem? ys j
  unfolding splice
  get_elem?-splice_inside xs off [] j h fits = elim h [ ]
  get_elem?-splice_inside [] off (y ∷ ys) j h fits = absurd (omega arith)
  get_elem?-splice_inside (x ∷ xs) zero (y ∷ ys) zero h fits = refl
  get_elem?-splice_inside (x ∷ xs) zero (y ∷ ys) (suc j) h fits =
      ap (get_elem? (y ∷ splice xs zero ys)) {x = zero + suc j} {y = suc j} (omega arith)
      ∙ ap (get_elem? (splice xs zero ys)) {x = j} {y = zero + j} (omega arith)
      ∙ get_elem?-splice_inside xs zero ys j (omega arith) (omega arith)
  get_elem?-splice_inside (x ∷ xs) (suc off) (y ∷ ys) j h fits =
      ap (get_elem? (x ∷ splice xs off (y ∷ ys))) {x = suc off + j} {y = suc (off + j)}
        (omega arith)
      ∙ get_elem?-splice_inside xs off (y ∷ ys) j h (omega arith)

  pub get_elem?-splice_outside :
      (xs : List A) (off : ℕ) (ys : List A) (j : ℕ)
      → (j < off) ⊎ (off + length ys ≤ j)
      → get_elem? (splice xs off ys) j ≡ get_elem? xs j
  unfolding splice
  get_elem?-splice_outside xs off [] j h = refl
  get_elem?-splice_outside [] off (y ∷ ys) j h = refl
  get_elem?-splice_outside (x ∷ xs) zero (y ∷ ys) zero h = absurd (omega arith)
  get_elem?-splice_outside (x ∷ xs) zero (y ∷ ys) (suc j) h =
      get_elem?-splice_outside xs zero ys j (inr (omega arith))
  get_elem?-splice_outside (x ∷ xs) (suc off) (y ∷ ys) zero h = refl
  get_elem?-splice_outside (x ∷ xs) (suc off) (y ∷ ys) (suc j) h =
      get_elem?-splice_outside xs off (y ∷ ys) j (omega arith)

  pub List-ext : (xs ys : List A) → ((i : ℕ) → get_elem? xs i ≡ get_elem? ys i) → xs ≡ ys
  List-ext [] [] h = refl
  List-ext [] (y ∷ ys) h = absurd (let e = h 0 in cc)
  List-ext (x ∷ xs) [] h = absurd (let e = h 0 in cc)
  List-ext (x ∷ xs) (y ∷ ys) h = let e = h 0 in ap₂ ◌∷◌ (cc) (List-ext xs ys λ i. h (suc i))

  get_elem?-past : (xs : List A) (i : ℕ) → length xs ≤ i → get_elem? xs i ≡ none
  get_elem?-past [] i h = refl
  get_elem?-past (x ∷ xs) zero h = absurd (omega arith)
  get_elem?-past (x ∷ xs) (suc i) h = get_elem?-past xs i (omega arith)

  -- Lists of one length agree if they agree at every index.
  pub List-ext_lt :
      (xs ys : List A)
      → length xs ≡ length ys
      → ((i : ℕ) → i < length xs → get_elem? xs i ≡ get_elem? ys i)
      → xs ≡ ys
  List-ext_lt xs ys e h = List-ext xs ys λ i. elim (dec_lt i (length xs)) [
    | yes p ↦ h i p
    | no p ↦ get_elem?-past xs i (omega arith) ∙ sym (get_elem?-past ys i (omega arith))
  ]

  pub get_elem?-slice :
      (xs : List A) (off n i : ℕ)
      → i < n
      → get_elem? (take n (drop off xs)) i ≡ get_elem? xs (off + i)
  get_elem?-slice xs off n i h = get_elem?-take n (drop off xs) i h ∙ get_elem?-drop off xs i

  pub length-slice :
      (xs : List A) (off n : ℕ) → off + n ≤ length xs → length (take n (drop off xs)) ≡ n
  length-slice xs off n h = omega (arith, length-take n (drop off xs), length-drop off xs)

  -- Reading back what was written.
  pub slice-splice_self :
      (xs : List A) (off : ℕ) (ys : List A)
      → off + length ys ≤ length xs
      → take (length ys) (drop off (splice xs off ys)) ≡ ys
  slice-splice_self xs off ys h =
      let size =
        length-slice (splice xs off ys) off (length ys) (omega (arith, length-splice xs off ys)) in
      List-ext_lt _ ys size λ i p.
        get_elem?-slice (splice xs off ys) off (length ys) i (omega (arith, size))
        ∙ get_elem?-splice_inside xs off ys i (omega (arith, size)) h

  -- A slice that shares no entry with the write is as before.
  pub slice-splice_disjoint :
      (xs : List A) (off : ℕ) (ys : List A) (at n : ℕ)
      → at + n ≤ length xs
      → (at + n ≤ off) ⊎ (off + length ys ≤ at)
      → take n (drop at (splice xs off ys)) ≡ take n (drop at xs)
  slice-splice_disjoint xs off ys at n fits apart =
      let size = length-slice (splice xs off ys) at n (omega (arith, length-splice xs off ys)) in
      List-ext_lt _ _ (size ∙ sym (length-slice xs at n fits)) λ i p.
        get_elem?-slice (splice xs off ys) at n i (omega (arith, size))
        ∙ get_elem?-splice_outside xs off ys (at + i) (omega (arith, size))
        ∙ sym (get_elem?-slice xs at n i (omega (arith, size)))
