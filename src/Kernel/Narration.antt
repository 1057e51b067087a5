-- ===== src/Kernel/Narration.antt =====
-- The log lines of `runMessage` in src/kernel/index.ts and of `ensureWorkspace` in
-- src/kernel/session.ts.
use modular_agentic_system.Base.{
  ℕ, ◌+◌, Bool, true, false, List, [], ◌∷◌, ◌++◌, none, some, Text, codes, if◌then◌else◌, ◌/◌, ◌%◌,
  ◌&&◌, ◌==◌, nat_eq,
}
use modular_agentic_system.Base.Decimal.{decimal}
use modular_agentic_system.Base.Map
use modular_agentic_system.Base.Map.{Map}
use modular_agentic_system.Events.{
  EngineEvent, log, Level, info, severe, Category, TerminalCause, done, error, cancelled,
}
use modular_agentic_system.Session.{SessionConfig, Sessions, crosses_owner, option_eq, identity_of}
use modular_agentic_system.Prewarm.{claim}
use modular_agentic_system.Settlement.{RunResult}

abbrev pub level_of : TerminalCause → Level
level_of error = severe
level_of done = info
level_of cancelled = info

abbrev is_empty : Text → Bool
is_empty [] = true
is_empty (_ ∷ _) = false

strip_zeros : Text → Text
strip_zeros [] = []
strip_zeros (c ∷ cs) =
    let rest = strip_zeros cs in if is_empty rest && nat_eq c 48 then [] else c ∷ rest

abbrev six_digits : ℕ → Text
six_digits n =
    (48 + n / 100000 % 10)
    ∷ (48 + n / 10000 % 10)
    ∷ (48 + n / 1000 % 10)
    ∷ (48 + n / 100 % 10)
    ∷ (48 + n / 10 % 10)
    ∷ (48 + n % 10)
    ∷ []

-- `${cost}` of a number of millionths: a whole part, and a fraction without the zeros at its end.
unfoldable pub cost_text : ℕ → Text
unfolding strip_zeros
cost_text n =
    let whole = decimal (n / 1000000) in
    if nat_eq (n % 1000000) 0
    then whole
    else whole ++ (codes "." ++ strip_zeros (six_digits (n % 1000000)))

-- " · "
abbrev dot : Text
dot = 32 ∷ 183 ∷ 32 ∷ []

abbrev pub started_text : SessionConfig → Text
started_text c =
    codes "run started"
    ++ (dot
        ++ (codes "harness=" ++ (c.harness ++ (dot ++ (codes "environment=" ++ c.environment)))))

abbrev pub ready_text : Text
ready_text = codes "workspace ready" ++ (dot ++ codes "invoking harness")

abbrev pub cause_text : TerminalCause → Text
cause_text done = codes "done"
cause_text error = codes "error"
cause_text cancelled = codes "cancelled"

abbrev pub settled_text : RunResult → Text
settled_text r =
    codes "run settled"
    ++ (dot
        ++ (codes "cause="
            ++ (cause_text r.cause
                ++ (dot
                    ++ (codes "tokens in="
                        ++ (decimal r.usage.input_tokens
                            ++ (codes " out="
                                ++ (decimal r.usage.output_tokens
                                    ++ (dot ++ (codes "cost=$" ++ cost_text r.cost))))))))))

abbrev pub failed_text : Text → Text
failed_text message = codes "run failed during provisioning: " ++ message

-- What the session manager itself says while it finds the workspace; the adapter's own lines are not
-- modelled.
unfoldable pub adoption : SessionConfig → Sessions → List Text
adoption c s = elim (claim (identity_of c) s.warm).1 [
  | none ↦ []
  | some h ↦ codes "adopted pre-warmed sandbox (instant workspace)" ∷ []
]

unfoldable pub narration : SessionConfig → Sessions → List Text
unfolding adoption
narration c s = elim (Map.get c.session_id s.sessions) [
  | none ↦ adoption c s
  | some existing ↦
      if crosses_owner existing c.owner_id
      then []
      else if existing.environment_ref == c.environment
          && option_eq existing.runtime_profile c.runtime_profile
      then (codes "reusing existing " ++ (c.environment ++ codes " workspace for session")) ∷ []
      else adoption c s
]

unfoldable pub logs : Category → Level → ℕ → List Text → List EngineEvent
logs category level at [] = []
logs category level at (m ∷ ms) = log category level m at ∷ logs category level at ms
