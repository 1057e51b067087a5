-- ===== src/Adapter.antt =====
-- src/harnesses/_shared/harnessRuntime.ts: what every harness adapter shares. Events go to `io`, which
-- is the list of those emitted so far.
pub mod Once
pub mod Meter
use modular_agentic_system.Base.{
  ℕ, ◌+◌, ◌-◌, Bool, true, false, List, [], ◌∷◌, ◌++◌, Option, none, some, Text, codes, length,
  take, ltb, max, if◌then◌else◌, truthy, or_else,
}
use modular_agentic_system.Events.{
  EngineEvent, terminal, log, harness, Level, TerminalCause, ErrorInfo,
}

pub record Settler : Type 0 where
  pub settled : Bool
  pub io : List EngineEvent

unfoldable pub create_settler : List EngineEvent → Settler
create_settler io = record { settled = false; io = io }

-- The first cause wins.
unfoldable pub settle : TerminalCause → Option ErrorInfo → Settler → Settler
settle cause error s =
    if s.settled then s else record { settled = true; io = s.io ++ (terminal cause error ∷ []) }

-- An ellipsis, "…", marks what is cut off.
unfoldable pub truncate : Option Text → ℕ → Text
truncate s most =
    let text = or_else s [] in
    if ltb most (length text) then take most text ++ (8230 ∷ []) else text

unfoldable pub harness_log :
    (prefix : Text) → Level → Text → (at : ℕ) → List EngineEvent → List EngineEvent
harness_log prefix level message at io =
    io ++ (log harness level (codes "[" ++ (prefix ++ (codes "] " ++ message))) at ∷ [])

pub record UsageMeter : Type 0 where
  pub input_tokens : ℕ
  pub output_tokens : ℕ

pub record UsageDelta : Type 0 where
  pub input_tokens : ℕ
  pub output_tokens : ℕ

unfoldable pub create_usage_meter : UsageMeter
create_usage_meter = record { input_tokens = 0; output_tokens = 0 }

unfoldable pub add : ℕ → ℕ → UsageMeter → UsageMeter
add delta_input delta_output m = record {
  input_tokens = m.input_tokens + delta_input;
  output_tokens = m.output_tokens + delta_output;
}

-- A difference below 0 counts as 0.
unfoldable pub observe_cumulative : ℕ → ℕ → UsageMeter → UsageMeter × UsageDelta
observe_cumulative next_input next_output m = (
  record {
    input_tokens = max m.input_tokens next_input;
    output_tokens = max m.output_tokens next_output;
  },
  record {
    input_tokens = next_input - m.input_tokens;
    output_tokens = next_output - m.output_tokens;
  },
)
