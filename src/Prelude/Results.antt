-- ===== src/Prelude/Results.antt =====
-- Results of fallible Go functions: a value, or an error and nothing else.
use mathlib.Core.Path.{◌≡◌, refl}
use mathlib.Core.Logic.{◌⊎◌, inl, inr}
use mathlib.Core.Bool.{Bool, true, false}
use mathlib.Core.Option.{Option, none, some}

pub data Result {ℓ} (Problem : Type 0) (Value : Type ℓ) : Type ℓ where
  err : Problem → Result Problem Value
  ok : Value → Result Problem Value

-- The next call, unless this one failed: `if err != nil { return err }`.
infixl 5 ◌>>=◌
abbrev pub ◌>>=◌ {ℓ κ} :
    {Problem : Type 0} {Value : Type ℓ} {Next : Type κ}
    → Result Problem Value
    → (Value → Result Problem Next)
    → Result Problem Next
err problem >>= next = err problem
ok value >>= next = next value

-- `if !test { return problem }`
abbrev pub guard : {Problem : Type 0} → Bool → Problem → Result Problem (Unit {0})
guard false problem = err problem
guard true problem = ok tt

-- What follows a check that returns no value.
infixl 5 ◌>>◌
abbrev pub ◌>>◌ {κ} :
    {Problem : Type 0} {Next : Type κ}
    → Result Problem (Unit {0})
    → Result Problem Next
    → Result Problem Next
check >> next = check >>= λ passed. next

-- A missing value is the given error.
abbrev pub or_err {ℓ} : {E : Type 0} {A : Type ℓ} → Option A → E → Result E A
or_err none e = err e
or_err (some a) e = ok a

pub Result-cases {ℓ} :
    {E : Type 0} {A : Type ℓ} (m : Result E A) → ((a : A) × (m ≡ ok a)) ⊎ ((e : E) × (m ≡ err e))
Result-cases (ok a) = inl (a, refl)
Result-cases (err e) = inr (e, refl)
