-- ===== src/Harness.antt =====
-- src/types/harness.ts: the harness seam. What a harness does with a run is a tree: it emits events,
-- hands sub-tasks to the delegator and goes on with what comes back, and at last its promise settles.
-- What it does to its environment is not seen by the kernel, but for the events that tell of it.
use modular_agentic_system.Base.{Bool, List, Option, Text, ℕ}
use modular_agentic_system.Events.{
  EngineEvent, TerminalCause, ErrorInfo, ExecutionTopology, HarnessCapabilities,
}
use modular_agentic_system.Registry.{ToolKit}
use modular_agentic_system.Environment.{EnvironmentHandle}

pub record DelegateRequest : Type 0 where
  pub harness : Text
  pub environment : Text
  pub task : Text
  pub topology : Option ExecutionTopology
  pub model : Option Text

pub record DelegateResult : Type 0 where
  pub cause : TerminalCause
  pub final_text : Text
  pub error : Option ErrorInfo

-- `R` is the type of the requests that the harness can delegate: none, without a delegator.
-- `aborted` is what the abort signal reads when the promise has settled.
pub data HarnessRun (R : Type 0) : Type 0 where
  returned : (aborted : Bool) → HarnessRun R
  threw : (message : Text) (aborted : Bool) → HarnessRun R
  emits : EngineEvent → HarnessRun R → HarnessRun R
  delegates : R → (DelegateResult → HarnessRun R) → HarnessRun R

pub record RunTask : Type 0 where
  pub run_id : Text
  pub prompt : Text
  pub model : Option Text
  pub allowed_models : Option (List Text)
  pub topology : ExecutionTopology
  pub tool_refs : List Text
  pub skill_refs : List Text

pub record HarnessEntry : Type 0 where
  pub ref : Text
  pub topologies : List ExecutionTopology
  pub default_topology : ExecutionTopology

pub record EnvironmentEntry : Type 0 where
  pub ref : Text
  pub hosts_agent_runtime : Bool

pub record HarnessEnvCatalog : Type 0 where
  pub harnesses : List HarnessEntry
  pub environments : List EnvironmentEntry

-- The context without the delegator, which is how the run can delegate at all.
pub record RunContext : Type 0 where
  pub depth : ℕ
  pub catalog : HarnessEnvCatalog

-- A harness runs with no context, as a leaf, or with one, as a router.
pub record Harness : Type 0 where
  pub ref : Text
  pub capabilities : HarnessCapabilities
  pub run_leaf : RunTask → EnvironmentHandle → ToolKit → HarnessRun ⊥
  pub run_router : RunContext → RunTask → EnvironmentHandle → ToolKit → HarnessRun DelegateRequest
