-- ===== src/Prelude/Outcome.antt =====
-- Computations that may throw: what a function returns, or the exception that leaves it.
use Prim.Native.String.{String}
use mathlib.Core.Path.{◌≡◌, refl}
use mathlib.Core.Option.{Option, none, some}

-- `error` carries the message of a `throw new Error(..)`.
pub data Outcome {ℓ} (A : Type ℓ) : Type ℓ where
  error : String → Outcome A
  ok : A → Outcome A

-- A missing value throws.
abbrev pub or_throw {ℓ} : {A : Type ℓ} → Option A → String → Outcome A
or_throw (some a) message = ok a
or_throw none message = error message

module _ {ℓ κ} {A : Type ℓ} {B : Type κ} where
  infixl 5 ◌>>=◌
  abbrev pub ◌>>=◌ : Outcome A → (A → Outcome B) → Outcome B
  error message >>= next = error message
  ok a >>= next = next a

  -- A computation that returns went through every one of its steps.
  pub >>=-eq-ok :
      (first : Outcome A) (next : A → Outcome B) {b : B}
      → (first >>= next) ≡ ok b
      → (a : A) × (first ≡ ok a) × (next a ≡ ok b)
  >>=-eq-ok (error message) next h = cc
  >>=-eq-ok (ok a) next h = (a, refl, h)

pub ok-injective {ℓ} : {A : Type ℓ} (a b : A) → ok a ≡ ok b → a ≡ b
ok-injective a b h = cc

pub bind_ok {ℓ} : {A : Type ℓ} (first : Outcome A) → (first >>= ok) ≡ first
bind_ok (error message) = refl
bind_ok (ok a) = refl
