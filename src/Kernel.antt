-- ===== src/Kernel.antt =====
-- src/kernel/index.ts: the facade. It admits a message, finds its workspace, runs the harness, and
-- lets a router harness hand sub-tasks to other harnesses, up to a depth. Calls run one after another;
-- the clock does not move during a call.
pub mod Delegation
pub mod Narration
pub mod Run
pub mod Brackets
pub mod Nesting
pub mod Overlap
pub mod Lean
pub mod Rollup
pub mod Texts
pub mod Message
pub mod Settles
pub mod Ending
pub mod Serving
use modular_agentic_system.Base.{
  ℕ, zero, suc, ◌+◌, ◌-◌, Bool, true, false, not, List, [], ◌∷◌, ◌++◌, Option, none, some, Text,
  codes, take, truthy, or_else, or_option, if◌then◌else◌, filter,
}
use modular_agentic_system.Base.Decimal.{decimal}
use modular_agentic_system.Base.Map
use modular_agentic_system.Base.Map.{Map}
use modular_agentic_system.Base.Outcome.{Outcome, ok, throws, ◌>>=◌}
use modular_agentic_system.Admission
use modular_agentic_system.Admission.{Admission, AdmissionDecision}
use modular_agentic_system.Environment.{Environment, EnvironmentHandle, files}
use modular_agentic_system.Events.{
  EngineEvent, child_started, child_settled, terminal, log, Level, info, warn, severe, Category,
  kernel, env, TerminalCause, done, error, cancelled, ErrorInfo,
}
use modular_agentic_system.Harness.{
  DelegateRequest, DelegateResult, RunContext, Harness, HarnessEnvCatalog, HarnessEntry,
  EnvironmentEntry,
}
use modular_agentic_system.Orchestrator.{
  Registries, RunArgs, PreviewPort, RunOutcome, Delegated, run_leaf, run_router,
}
use modular_agentic_system.Preview
use modular_agentic_system.Preview.{PreviewRegistry, PreviewState, url_of}
use modular_agentic_system.Registry.{Factory, resolve}
use modular_agentic_system.Session
use modular_agentic_system.Session.{SessionConfig, Sessions, ensure_workspace}
use modular_agentic_system.Settlement.{RunResult}

-- The depth of delegation: the entry agent has depth 0.
abbrev pub max_delegation_depth : ℕ
max_delegation_depth = 2

-- `uuids` counts the calls of `randomUUID` so far, `now` is the time.
pub record Kernel : Type 0 where
  pub admission : Admission
  pub sessions : Sessions
  pub preview : PreviewRegistry
  pub child_sessions : Map (Map Text)
  pub uuids : ℕ
  pub now : ℕ

abbrev pub preview_port : PreviewPort Kernel
preview_port = record { update = λ f k. record k { preview = f k.preview } }

-- `describeTopologies`; a factory that throws is left out.
unfoldable pub harness_entries : Map (Factory Harness) → List HarnessEntry
harness_entries [] = []
harness_entries ((ref, ok h) ∷ m) =
    record {
      ref = ref;
      topologies = h.capabilities.topologies;
      default_topology = h.capabilities.default_topology;
    }
    ∷ harness_entries m
harness_entries ((ref, throws _) ∷ m) = harness_entries m

unfoldable pub environment_entries : Map (Factory Environment) → List EnvironmentEntry
environment_entries [] = []
environment_entries ((ref, ok e) ∷ m) =
    record { ref = ref; hosts_agent_runtime = e.capabilities.hosts_agent_runtime }
    ∷ environment_entries m
environment_entries ((ref, throws _) ∷ m) = environment_entries m

unfoldable pub describe_topologies : Registries → HarnessEnvCatalog
unfolding harness_entries environment_entries
describe_topologies regs = record {
  harnesses = harness_entries regs.harnesses;
  environments = environment_entries regs.environments;
}

-- An owner id that is given is checked against a live session.
unfoldable pub get_preview : Text → Option Text → Kernel → Outcome (Option PreviewState)
get_preview session_id owner_id k =
    if truthy owner_id
    then (Session.get session_id owner_id k.sessions >>= λ h. ok (Preview.get session_id k.preview))
    else ok (Preview.get session_id k.preview)

-- An empty URL counts as none.
abbrev pub url_or_null : Option Text → Option Text
url_or_null none = none
url_or_null (some []) = none
url_or_null (some (c ∷ cs)) = some (c ∷ cs)

unfoldable pub get_preview_url : Text → Option Text → Kernel → Outcome (Option Text)
get_preview_url session_id owner_id k =
    if truthy owner_id
    then (Session.get session_id owner_id k.sessions >>= λ h.
        ok (url_or_null (url_of (Preview.get session_id k.preview))))
    else ok (url_or_null (url_of (Preview.get session_id k.preview)))
