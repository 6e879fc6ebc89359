-- ===== src/Base/Run.antt =====
-- How a piece of Go code ends: it returns, or it panics at an index out of range.
use Prim.Native.Nat.{ℕ, ◌<◌}
use mathlib.Core.Path.{◌≡◌, refl, subst}
use mathlib.Core.List.{List}
use mathlib.Core.Logic.{◌≢◌}
use mathlib.Core.Option.{Option, none, some}
use native.Mathlib.Omega.{arith}
use priority_service_poc.Base.Tests.{ltb, if◌then◌else◌}
use priority_service_poc.Base.Lists.{length, get_elem?, set}

-- `out_of_fuel` is the model's own: a loop that was given too few rounds.
pub data Run {ℓ} (A : Type ℓ) : Type ℓ where
  panic : Run A
  out_of_fuel : Run A
  ok : A → Run A

infixl 5 ◌>>=◌
abbrev pub ◌>>=◌ {ℓ κ} : {A : Type ℓ} {B : Type κ} → Run A → (A → Run B) → Run B
panic >>= next = panic
out_of_fuel >>= next = out_of_fuel
ok value >>= next = next value

abbrev from_option {ℓ} : {A : Type ℓ} → Option A → Run A
from_option (some a) = ok a
from_option none = panic

-- `xs[i]`
unfoldable pub load {ℓ} : {A : Type ℓ} → List A → ℕ → Run A
load xs i = from_option (get_elem? xs i)

-- `xs[i] = v`
unfoldable pub store {ℓ} : {A : Type ℓ} → List A → ℕ → A → Run (List A)
store xs i v = if ltb i (length xs) then ok (set xs i v) else panic

pub load-ok {ℓ} :
    {A : Type ℓ} (xs : List A) (i : ℕ) {a : A} → get_elem? xs i ≡ some a → load xs i ≡ ok a
unfolding load
load-ok xs i e = rw e

pub store-ok {ℓ} :
    {A : Type ℓ} (xs : List A) (i : ℕ) (v : A) → i < length xs → store xs i v ≡ ok (set xs i v)
unfolding store
store-ok xs i v h = ground arith

-- The run returns, with a value that satisfies `Q`.
pub data Returns {ℓ κ} {A : Type ℓ} (Q : A → Type κ) : Run A → Type (ℓ ⊔ κ) where
  returns : {value : A} → Q value → Returns Q (ok value)

module _ {ℓ κ} {A : Type ℓ} {Q : A → Type κ} where
  pub Returns-mono {μ} :
      {R : A → Type μ} {run : Run A}
      → ((value : A) → Q value → R value)
      → Returns Q run
      → Returns R run
  Returns-mono weaken (returns q) = returns (weaken _ q)

  pub Returns-bind {ℓ' κ'} :
      {B : Type ℓ'} {R : B → Type κ'} {run : Run A} {next : A → Run B}
      → Returns Q run
      → ((value : A) → Q value → Returns R (next value))
      → Returns R (run >>= next)
  Returns-bind (returns q) rest = rest _ q

  pub Returns-value : {run : Run A} → Returns Q run → (value : A) × (run ≡ ok value) × Q value
  Returns-value (returns q) = (_, refl, q)

  pub Returns-of_eq : {run : Run A} {value : A} → run ≡ ok value → Q value → Returns Q run
  Returns-of_eq e q = rw e (returns q)

  Returns-ok : {value : A} → Returns Q (ok value) → Q value
  Returns-ok (returns q) = q

  pub Returns-at : {run : Run A} {value : A} → Returns Q run → run ≡ ok value → Q value
  Returns-at h e = Returns-ok (subst (Returns Q) e h)

-- If the run returns, its value satisfies `Q`.
abbrev pub Yields {ℓ κ} : {A : Type ℓ} → (A → Type κ) → Run A → Type (ℓ ⊔ κ)
Yields Q run = (value : _) → run ≡ ok value → Q value

pub Yields-ok {ℓ κ} : {A : Type ℓ} (Q : A → Type κ) {value : A} → Q value → Yields Q (ok value)
Yields-ok Q {value = value} q other e = let same : value ≡ other = cc e in subst Q same q

-- Nothing is known of a step.
pub Yields-step {ℓ κ ℓ'} :
    {A : Type ℓ} {B : Type ℓ'} (R : B → Type κ) (run : Run A) {next : A → Run B}
    → ((value : A) → Yields R (next value))
    → Yields R (run >>= next)
Yields-step R panic rest value e = absurd (cc e)
Yields-step R out_of_fuel rest value e = absurd (cc e)
Yields-step R (ok a) rest value e = rest a value e

-- The run does not return.
abbrev pub Never {ℓ} : {A : Type ℓ} → Run A → Type ℓ
Never run = (value : _) → run ≢ ok value

pub Never-panic {ℓ} : {A : Type ℓ} → Never {A = A} panic
Never-panic value = cc

pub Never-first {ℓ κ} :
    {A : Type ℓ} {B : Type κ} (run : Run A) (next : A → Run B) → Never run → Never (run >>= next)
Never-first panic next h value = cc
Never-first out_of_fuel next h value = cc
Never-first (ok a) next h value = absurd (h a refl)

pub Never-step {ℓ κ} :
    {A : Type ℓ} {B : Type κ} (run : Run A) (next : A → Run B)
    → ((a : A) → Never (next a))
    → Never (run >>= next)
Never-step panic next h value = cc
Never-step out_of_fuel next h value = cc
Never-step (ok a) next h value = h a value
