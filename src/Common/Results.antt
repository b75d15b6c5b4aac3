-- ===== src/Common/Results.antt =====
-- What a Python function returns, or the exception that it raises, of a type `E` of exceptions.
use mathlib.Core.Path.{◌≡◌, refl}
use mathlib.Core.Logic.{◌⊎◌, inl, inr}
use mathlib.Core.Option.{Option, none, some}

pub data Fallible {ℓ} (E : Type 0) (A : Type ℓ) : Type ℓ where
  err : E → Fallible E A
  ok : A → Fallible E A

module _ {ℓ} {E : Type 0} {A : Type ℓ} where
  -- The code behind a call that may raise.
  infixl 5 ◌>>=◌
  abbrev pub ◌>>=◌ {κ} : {B : Type κ} → Fallible E A → (A → Fallible E B) → Fallible E B
  err x >>= next = err x
  ok a >>= next = next a

  -- A value, or an exception in its absence.
  abbrev pub or_raise : Option A → E → Fallible E A
  or_raise (some a) x = ok a
  or_raise none x = err x

  pub Result-cases : (r : Fallible E A) → ((a : A) × (r ≡ ok a)) ⊎ ((x : E) × (r ≡ err x))
  Result-cases (err x) = inr (x, refl)
  Result-cases (ok a) = inl (a, refl)
