-- ===== src/Prelude/Exec.antt =====
-- Methods that change state and may throw: what was written before a throw stays written.
use mathlib.Core.Path.{◌≡◌, refl}
use native.Mathlib.Omega.{arith}
use net_pixeld.Prelude.Outcome.{Outcome, ok, throw, crash}

abbrev pub Exec {ℓ κ} : Type ℓ → Type κ → Type (ℓ ⊔ κ)
Exec S A = S → Outcome A × S

-- The rest of a method: an exception keeps the state reached.
abbrev pub continue {ℓ κ} :
    {S : Type ℓ} {A B : Type κ} → Outcome A × S → (A → Exec S B) → Outcome B × S
continue (ok a, s) f = f a s
continue (throw x, s) f = (throw x, s)
continue (crash, s) f = (crash, s)

infixl 5 ◌>>=◌ ◌>>◌
abbrev pub ◌>>=◌ {ℓ κ} : {S : Type ℓ} {A B : Type κ} → Exec S A → (A → Exec S B) → Exec S B
◌>>=◌ m f s = continue (m s) f

abbrev pub ◌>>◌ {ℓ κ} : {S : Type ℓ} {A B : Type κ} → Exec S A → Exec S B → Exec S B
m >> n = m >>= λ _. n

abbrev pub pure {ℓ κ} : {S : Type ℓ} {A : Type κ} → A → Exec S A
pure a s = (ok a, s)

-- A const method, or a computation that leaves the state alone.
abbrev pub reads {ℓ κ} : {S : Type ℓ} {A : Type κ} → (S → Outcome A) → Exec S A
reads f s = (f s, s)

abbrev pub gets {ℓ κ} : {S : Type ℓ} {A : Type κ} → (S → A) → Exec S A
gets f s = (ok (f s), s)

abbrev pub lift {ℓ κ} : {S : Type ℓ} {A : Type κ} → Outcome A → Exec S A
lift r s = (r, s)

abbrev pub modify {ℓ} : {S : Type ℓ} → (S → S) → Exec S (Unit {0})
modify f s = (ok tt, f s)

-- After a step that returned, the rest runs.
pub continue-ok :
    {S A B : Type 0} (r : Outcome A × S) (f : A → Exec S B) (a : A)
    → r.0 ≡ ok a
    → continue r f ≡ f a r.1
continue-ok (ok b, s) f a e = ground (arith, e)
continue-ok (throw x, s) f a e = cc
continue-ok (crash, s) f a e = cc

-- What returned, returned at each step.
pub continue-inv :
    {S A B : Type 0} (r : Outcome A × S) (f : A → Exec S B) (b : B)
    → (continue r f).0 ≡ ok b
    → (a : A) × (r.0 ≡ ok a) × (continue r f ≡ f a r.1)
continue-inv (ok a, s) f b e = (a, refl, refl)
continue-inv (throw x, s) f b e = cc
continue-inv (crash, s) f b e = cc
