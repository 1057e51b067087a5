-- ===== src/Translator/Nesting.antt =====
-- The names of sub-runs in the streams that apps/next/src/core/kernelTranslator.ts reads.
use modular_agentic_system.Base.{◌≡◌, true, List, [], ◌∷◌, truthy_text}
use modular_agentic_system.Events
use modular_agentic_system.Events.{EngineEvent}

-- No sub-run has an empty name.
abbrev pub IsNamed : List EngineEvent → Type 0
IsNamed [] = Unit {0}
IsNamed (Events.child_started id ∷ evs) = (truthy_text id ≡ true) × IsNamed evs
IsNamed (Events.child_settled id cause ∷ evs) = (truthy_text id ≡ true) × IsNamed evs
IsNamed (_ ∷ evs) = IsNamed evs

pub IsNamed-tail : (ev : EngineEvent) (evs : List EngineEvent) → IsNamed (ev ∷ evs) → IsNamed evs
IsNamed-tail (Events.child_started id) evs n = n.1
IsNamed-tail (Events.child_settled id cause) evs n = n.1
IsNamed-tail _ evs n = n
