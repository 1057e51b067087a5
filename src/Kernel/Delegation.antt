-- ===== src/Kernel/Delegation.antt =====
-- The delegator of src/kernel/index.ts: a router harness runs a sub-task on another harness and
-- environment, in a child session.
use modular_agentic_system.Base.{
  ℕ, zero, suc, ◌-◌, Bool, true, false, not, List, [], ◌∷◌, ◌++◌, Option, none, some, Text, codes,
  take, truthy, or_else, filter,
}
use modular_agentic_system.Base.Decimal.{decimal}
use modular_agentic_system.Base.Map
use modular_agentic_system.Base.Map.{Map}
use modular_agentic_system.Base.Outcome.{Outcome, ok, throws}
use modular_agentic_system.Environment.{EnvironmentHandle, files}
use modular_agentic_system.Events.{EngineEvent, child_started, child_settled, terminal, error}
use modular_agentic_system.Harness.{DelegateRequest, DelegateResult}
use modular_agentic_system.Orchestrator.{Registries, RunArgs, RunOutcome, Delegated, run_router}
use modular_agentic_system.Session.{SessionConfig, ensure_workspace}
use modular_agentic_system.Kernel.{Kernel, max_delegation_depth, preview_port, describe_topologies}

-- Everything but the terminal of a sub-run goes on to the parent.
abbrev pub is_terminal : EngineEvent → Bool
is_terminal (terminal cause why) = true
is_terminal _ = false

abbrev pub child_sink : List EngineEvent → List EngineEvent
child_sink evs = filter (λ ev. not (is_terminal ev)) evs

abbrev pub depth_message : ℕ → Text
depth_message depth =
    codes "delegation depth "
    ++ (decimal depth ++ (codes " exceeds cap " ++ decimal max_delegation_depth))

abbrev pub too_deep : ℕ → DelegateResult
too_deep depth = record {
  cause = error;
  final_text = [];
  error = some (record { code = codes "max_delegation_depth"; message = depth_message depth });
}

abbrev pub failed : Text → DelegateResult
failed message = record {
  cause = error;
  final_text = [];
  error = some (record { code = codes "delegate_failed"; message = message });
}

-- The session of a sub-task: one for each harness and environment under the parent session.
module _ (uuid : ℕ → Text) where
  unfoldable pub child_session : Text → DelegateRequest → Kernel → Kernel × Text
  child_session parent req k =
      let reuse_key = req.harness ++ (codes "::" ++ req.environment) in
      let children = or_else (Map.get parent k.child_sessions) [] in
      let known = Map.get reuse_key children in
      elim (truthy known) [
        | true ↦ (
          record k { child_sessions = Map.set parent children k.child_sessions },
          or_else known [],
        )
        | false ↦
            let id = parent ++ (codes ":sub:" ++ take 8 (uuid k.uuids)) in
            (
              record k {
                child_sessions = Map.set parent (Map.set reuse_key id children) k.child_sessions;
                uuids = suc k.uuids;
              },
              id,
            )
      ]

unfoldable pub child_config : Text → Text → Option Text → DelegateRequest → SessionConfig
child_config session_id run_id owner_id req = record {
  session_id = session_id;
  harness = req.harness;
  environment = req.environment;
  owner_id = owner_id;
  run_id = some run_id;
  source = some (files []);
  runtime_profile = none;
  project_id = none;
  model = req.model;
  topology = req.topology;
  env = none;
  ports = none;
  tool_refs = none;
  skill_refs = none;
  delegation = none;
}

unfoldable pub child_args : Text → Text → DelegateRequest → EnvironmentHandle → RunArgs
child_args session_id run_id req h = record {
  run_id = run_id;
  session_id = session_id;
  harness_ref = req.harness;
  prompt = req.task;
  model = req.model;
  allowed_models = none;
  handle = h;
  topology = req.topology;
  tool_refs = none;
  skill_refs = none;
}

-- `this.sessions.ensureWorkspace(...)` on the kernel's state.
unfoldable pub ensure_in : Registries → SessionConfig → Kernel → Kernel × Outcome EnvironmentHandle
ensure_in regs c k =
    let (s, h) = ensure_workspace regs.environments c k.sessions in (record k { sessions = s }, h)

-- What is left of a sub-run when it has ended or thrown.
unfoldable pub child_end : Text → Kernel → Outcome (RunOutcome Kernel) → Delegated Kernel
child_end run_id k (ok out) = record {
  world = out.world;
  progress =
      child_started run_id ∷ (child_sink out.sink ++ (child_settled run_id out.result.cause ∷ []));
  result = record {
    cause = out.result.cause;
    final_text = out.result.final_text;
    error = out.result.error;
  };
}
child_end run_id k (throws message) = record {
  world = k;
  progress = child_started run_id ∷ child_settled run_id error ∷ [];
  result = failed message;
}

module _ (uuid : ℕ → Text) (regs : Registries) where
  -- `ensureWorkspace` and `orchestrator.run` of a sub-task, where `deeper` is the delegator that
  -- `buildRunContext` makes for it, at depth `depth`.
  unfoldable pub child_run :
      (Text → DelegateRequest → Kernel → Delegated Kernel)
      → (depth : ℕ) → Option Text
      → DelegateRequest
      → (run_id session_id : Text) → Kernel
      → Delegated Kernel
  unfolding ensure_in child_config child_args child_end
  child_run deeper depth owner_id req run_id session_id k =
      let (k', outcome) = ensure_in regs (child_config session_id run_id owner_id req) k in
      elim outcome [
        | throws message ↦ child_end run_id k' (throws message)
        | ok h ↦ child_end run_id k' (
            run_router preview_port regs
              (record { depth = depth; catalog = describe_topologies regs }) (deeper session_id)
              (child_args session_id run_id req h) k')
      ]

  -- The delegator of `buildRunContext` at depth `max_delegation_depth - room`.
  unfoldable pub delegate :
      (room : ℕ) → Option Text → Text → DelegateRequest → Kernel → Delegated Kernel
  delegate zero owner_id parent req k = record {
    world = k;
    progress = [];
    result = too_deep max_delegation_depth;
  }
  delegate (suc room) owner_id parent req k =
      let run_id = uuid k.uuids in
      let (k', session_id) = child_session uuid parent req (record k { uuids = suc k.uuids }) in
      child_run (delegate room owner_id) (max_delegation_depth - room) owner_id req run_id
        session_id k'
