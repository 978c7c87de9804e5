-- ===== src/Prelude/Triple.antt =====
-- Pre- and postconditions of methods. A throw has to keep the invariant; of a crash nothing is said.
use mathlib.Core.Path.{◌≡◌, refl}
use mathlib.Core.Bool.{Bool, true, false}
use net_pixeld.Prelude.Tests.{if◌then◌else◌}
use net_pixeld.Prelude.Outcome.{Outcome, ok, throw, crash}
use net_pixeld.Prelude.Exec.{Exec, continue, ◌>>=◌}

module _ {S : Type 0} (Inv : S → Type 0) where
  abbrev pub After : {A : Type 0} → (A → S → Type 0) → Outcome A × S → Type 0
  After Q (ok a, s) = Q a s
  After Q (throw x, s) = Inv s
  After Q (crash, s) = Unit

  pub record Triple {A : Type 0} (P : S → Type 0) (m : Exec S A) (Q : A → S → Type 0) : Type 0 where
    pub at : (s : S) → P s → After Q (m s)

  pub After-state :
      {A : Type 0} (Q : A → S → Type 0) (r : Outcome A) (s : S)
      → Inv s
      → ((a : A) → Q a s)
      → After Q (r, s)
  After-state Q (ok a) s i q = q a
  After-state Q (throw x) s i q = i
  After-state Q crash s i q = tt

  pub After-weaken :
      {A : Type 0} (Q R : A → S → Type 0) (r : Outcome A × S)
      → ((a : A) (s : S) → Q a s → R a s)
      → After Q r
      → After R r
  After-weaken Q R (ok a, s) k h = k a s h
  After-weaken Q R (throw x, s) k h = h
  After-weaken Q R (crash, s) k h = tt

  pub After-continue :
      {A B : Type 0} (Q : A → S → Type 0) (R : B → S → Type 0) (r : Outcome A × S)
      (f : A → Exec S B)
      → After Q r
      → ((a : A) → Triple (Q a) (f a) R)
      → After R (continue r f)
  After-continue Q R (ok a, s) f h k = (k a).at s h
  After-continue Q R (throw x, s) f h k = h
  After-continue Q R (crash, s) f h k = tt

  pub Triple-bind :
      {A B : Type 0} (P : S → Type 0) (Q : A → S → Type 0) (R : B → S → Type 0) (m : Exec S A)
      (f : A → Exec S B)
      → Triple P m Q
      → ((a : A) → Triple (Q a) (f a) R)
      → Triple P (m >>= f) R
  Triple-bind P Q R m f h k = record { at = λ s p. After-continue Q R (m s) f (h.at s p) k }

  pub Triple-if :
      {A : Type 0} (P : S → Type 0) (R : A → S → Type 0) (b : Bool) (m n : Exec S A)
      → (b ≡ true → Triple P m R)
      → (b ≡ false → Triple P n R)
      → Triple P (if b then m else n) R
  Triple-if P R true m n h k = h refl
  Triple-if P R false m n h k = k refl
