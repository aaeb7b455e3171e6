-- ===== src/Prelude/Outcome.antt =====
-- Go's `(value, error)` results. The errors are those that the modelled code tells apart.
use mathlib.Core.Bool.{Bool, true, false}

pub data Error : Type 0 where
  not_found : Error
  deployment_cancelled : Error
  invalid_argument : Error
  constraint_failed : Error
  name_in_use : Error
  identity_mismatch : Error
  scan_failed : Error

pub data Result {ℓ} (A : Type ℓ) : Type ℓ where
  ok : A → Result A
  err : Error → Result A

-- A call that returns only an error.
abbrev pub Done : Type 0
Done = Result (Unit {0})

abbrev pub done : Done
done = ok tt

infixl 5 ◌>>=◌ ◌>>◌
abbrev pub ◌>>=◌ {ℓ κ} : {A : Type ℓ} {B : Type κ} → Result A → (A → Result B) → Result B
ok a >>= f = f a
err e >>= f = err e

abbrev pub ◌>>◌ {ℓ} : {B : Type ℓ} → Done → Result B → Result B
m >> k = m >>= λ _. k

abbrev pub guard : Bool → Error → Done
guard true e = done
guard false e = err e
