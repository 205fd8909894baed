-- ===== src/Prelude/Errors.antt =====
-- Python's exceptions as values, and the `do` notation of code that may raise.
use mathlib.Core.Bool.{Bool, true, false}

-- `oserror` stands for a failing file system or database call.
pub data Exn : Type 0 where
  value_error type_error overflow_error struct_error runtime_error oserror future_schema : Exn

pub data Result {ℓ} (A : Type ℓ) : Type ℓ where
  ok : A → Result A
  err : Exn → Result A

-- What follows a call that may raise: nothing, if it did.
module _ {ℓ κ} {B : Type κ} where
  infixl 5 ◌>>=◌ ◌>>◌
  abbrev pub ◌>>=◌ : {A : Type ℓ} → Result A → (A → Result B) → Result B
  err e >>= next = err e
  ok value >>= next = next value

  -- A check that has no value of interest.
  abbrev pub ◌>>◌ : {A : Type ℓ} → Result A → Result B → Result B
  err e >> rest = err e
  ok value >> rest = rest

-- `if not b: raise e`
abbrev pub guard : Bool → Exn → Result (Unit {0})
guard true e = ok tt
guard false e = err e

-- `try: m except Exception: return d`
abbrev pub or_on_error {ℓ} : {A : Type ℓ} → Result A → A → A
or_on_error (ok a) d = a
or_on_error (err e) d = d
