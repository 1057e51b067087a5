-- ===== src/Base/Outcome.antt =====
-- What a call that may throw yields. An exception is seen by its message alone.
use mathlib.Core.Path.{◌≡◌, refl}
use mathlib.Core.Logic.{◌⊎◌, inl, inr}
use modular_agentic_system.Base.Strings.{Text}

pub data Outcome (A : Type 0) : Type 0 where
  ok : A → Outcome A
  throws : Text → Outcome A

infixl 5 ◌>>=◌
abbrev pub ◌>>=◌ : {A B : Type 0} → Outcome A → (A → Outcome B) → Outcome B
ok a >>= f = f a
throws m >>= f = throws m

pub Outcome-cases :
    {A : Type 0} (o : Outcome A) → ((a : A) × (o ≡ ok a)) ⊎ ((m : Text) × (o ≡ throws m))
Outcome-cases (ok a) = inl (a, refl)
Outcome-cases (throws m) = inr (m, refl)
