-- ===== src/Prelude/Outcome.antt =====
-- Code that returns, throws or runs into undefined behaviour, and methods that also change state:
-- what was written before a throw stays written.
use mathlib.Core.Path.{◌≡◌}
use mathlib.Core.Option.{Option, none, some}
use net_pixeld.Prelude.Texts.{Text}

-- The exceptions by class; `runtime_error` carries its message.
pub data Exception : Type 0 where
  runtime_error : Text → Exception
  json_error : Exception
  filesystem_error : Exception
  system_error : Exception

-- `crash` is a dereferenced null pointer or the front of an empty deque.
pub data Outcome {ℓ} (A : Type ℓ) : Type ℓ where
  ok : A → Outcome A
  throw : Exception → Outcome A
  crash : Outcome A

infixl 5 ◌>>=◌
abbrev pub ◌>>=◌ {ℓ κ} : {A : Type ℓ} {B : Type κ} → Outcome A → (A → Outcome B) → Outcome B
ok a >>= f = f a
throw x >>= f = throw x
crash >>= f = crash

-- A library call that throws on `none`.
abbrev pub or_throw {ℓ} : {A : Type ℓ} → Exception → Option A → Outcome A
or_throw x none = throw x
or_throw x (some a) = ok a

pub or_throw-ok :
    {A : Type 0} (x : Exception) (o : Option A) (a : A) → or_throw x o ≡ ok a → o ≡ some a
or_throw-ok x none a e = cc
or_throw-ok x (some b) a e = cc
