-- ===== src/Admission.antt =====
-- src/kernel/admission.ts: at most one active run for a session.
pub mod Lock
use modular_agentic_system.Base.{
  ℕ, ◌≡◌, refl, Bool, true, false, ◌||◌, List, [], ◌∷◌, ◌++◌, Option, none, some, Text, ◌==◌,
  eq_iff, contains, codes, if◌then◌else◌, arith,
}

pub record AdmissionDecision : Type 0 where
  pub ok : Bool
  pub code : Option Text
  pub retry_after_ms : Option ℕ

-- `active`, a set, in the order of insertion.
pub record Admission : Type 0 where
  pub active : List Text

unfoldable pub empty : Admission
empty = record { active = [] }

unfoldable pub remove : Text → List Text → List Text
remove k [] = []
remove k (x ∷ xs) = if x == k then remove k xs else x ∷ remove k xs

unfoldable pub admit : Text → Admission → Admission × AdmissionDecision
admit session_id a =
    if contains session_id a.active
    then (
      a,
      record { ok = false; code = some (codes "run_already_active"); retry_after_ms = some 500 },
    )
    else (
      record { active = a.active ++ (session_id ∷ []) },
      record { ok = true; code = none; retry_after_ms = none },
    )

unfoldable pub release : Text → Admission → Admission
unfolding remove
release session_id a = record { active = remove session_id a.active }
