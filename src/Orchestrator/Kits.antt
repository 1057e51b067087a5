-- ===== src/Orchestrator/Kits.antt =====
-- Which refs of a run are the harness's own, in src/kernel/orchestrator.ts.
use modular_agentic_system.Base.{
  ◌+◌, ◌≡◌, refl, Bool, not, ◌&&◌, List, [], ◌∷◌, Option, Text, contains, ◌==◌, eq_iff, or_else,
  length, filter, arith, Bool-cases, inl, inr, ap,
}
use modular_agentic_system.Orchestrator.{native_of, external_of}

-- A filter on the refs themselves.
contains-filter :
    (p : Text → Bool) (j : Text) (refs : List Text)
    → contains j (filter p refs) ≡ (contains j refs && p j)
unfolding contains
contains-filter p j [] = refl
contains-filter p j (r ∷ refs) = elim (Bool-cases (r == j)) [
  | inl e ↦
      let same : r ≡ j = (eq_iff r j).0 e in ground (arith, contains-filter p j refs, ap p same)
  | inr e ↦ ground (arith, contains-filter p j refs)
]

length-filter :
    (p : Text → Bool) (refs : List Text)
    → length (filter p refs) + length (filter (λ r. not (p r)) refs) ≡ length refs
length-filter p [] = omega arith
length-filter p (r ∷ refs) = ground (arith, length-filter p refs)

-- Native wins: a requested ref goes to the harness exactly when the harness lists it, and else to the
-- external kit, never to both; no ref is lost and none is added, repeats counted.
pub native_of-external_of :
    (natives : Option (List Text)) (refs : List Text) (j : Text)
    → (contains j (native_of natives refs) ≡ (contains j refs && contains j (or_else natives [])))
      × (contains j (external_of natives refs)
          ≡ (contains j refs && not (contains j (or_else natives []))))
      × (length (native_of natives refs) + length (external_of natives refs) ≡ length refs)
native_of-external_of natives refs j = (
  contains-filter (λ r. contains r (or_else natives [])) j refs,
  contains-filter (λ r. not (contains r (or_else natives []))) j refs,
  length-filter (λ r. contains r (or_else natives [])) refs,
)
