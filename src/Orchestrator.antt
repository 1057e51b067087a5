-- ===== src/Orchestrator.antt =====
-- src/kernel/orchestrator.ts: one run of a harness. Every event goes through the settlement to the
-- caller's sink, and the run settles, whatever the harness does.
pub mod Stream
pub mod World
pub mod Leaf
pub mod Kits
use modular_agentic_system.Base.{
  ℕ, Bool, true, false, not, List, [], ◌∷◌, ◌++◌, Option, none, some, Text, codes, contains, filter,
  or_else, if◌then◌else◌,
}
use modular_agentic_system.Base.Map.{Map}
use modular_agentic_system.Base.Outcome.{Outcome, ok, throws, ◌>>=◌}
use modular_agentic_system.Environment.{EnvironmentHandle, Environment}
use modular_agentic_system.Events.{
  EngineEvent, preview_ready, preview_snapshot_ready, terminal, TerminalCause, done, error,
  cancelled, ErrorInfo, ExecutionTopology, agent_as_tool, agent_in_sandbox, HarnessCapabilities,
}
use modular_agentic_system.Harness.{
  HarnessRun, returned, threw, emits, delegates, DelegateRequest, DelegateResult, RunTask,
  RunContext, Harness,
}
use modular_agentic_system.Preview
use modular_agentic_system.Preview.{PreviewRegistry}
use modular_agentic_system.Registry.{Factory, ToolSpec, SkillSpec, ToolKit, resolve, build_kit}
use modular_agentic_system.Settlement
use modular_agentic_system.Settlement.{Settlement, RunResult, settle, observe}
use modular_agentic_system.Topology.{TopologyDecision, chosen, unsupported, resolve_topology}

pub record Registries : Type 0 where
  pub harnesses : Map (Factory Harness)
  pub environments : Map (Factory Environment)
  pub tools : Map (Factory ToolSpec)
  pub skills : Map (Factory SkillSpec)

abbrev pub default_tool_refs : List Text
default_tool_refs =
    codes "read"
    ∷ codes "write"
    ∷ codes "edit"
    ∷ codes "bash"
    ∷ codes "expose_port"
    ∷ codes "snapshot_preview"
    ∷ codes "webfetch"
    ∷ codes "websearch"
    ∷ codes "browser"
    ∷ []

abbrev pub default_skill_refs : List Text
default_skill_refs = codes "vite-react-app" ∷ codes "visual-qa" ∷ codes "durable-preview" ∷ []

pub record RunArgs : Type 0 where
  pub run_id : Text
  pub session_id : Text
  pub harness_ref : Text
  pub prompt : Text
  pub model : Option Text
  pub allowed_models : Option (List Text)
  pub handle : EnvironmentHandle
  pub topology : Option ExecutionTopology
  pub tool_refs : Option (List Text)
  pub skill_refs : Option (List Text)

-- The state around a run: the orchestrator updates the preview registry that it was built with.
pub record PreviewPort (W : Type 0) : Type 0 where
  pub update : (PreviewRegistry → PreviewRegistry) → W → W

-- A run in progress: its settlement, the state around it, and the events that its sink has had.
pub record Pump (W : Type 0) : Type 0 where
  pub settlement : Settlement
  pub world : W
  pub sink : List EngineEvent

pub record RunOutcome (W : Type 0) : Type 0 where
  pub world : W
  pub sink : List EngineEvent
  pub result : RunResult

-- What a sub-run yields: the state around it, the events of its progress, and its result.
pub record Delegated (W : Type 0) : Type 0 where
  pub world : W
  pub progress : List EngineEvent
  pub result : DelegateResult

-- What the harness left: the pump, the message if it threw, and the abort signal.
pub record Left (W : Type 0) : Type 0 where
  pub pump : Pump W
  pub thrown : Option Text
  pub aborted : Bool

-- The two previews that an event can tell of.
unfoldable pub preview_effect : Text → EngineEvent → PreviewRegistry → PreviewRegistry
preview_effect session_id (preview_ready url port) r =
    Preview.set session_id (record { url = url; port = port; snapshot_id = none }) r
preview_effect session_id (preview_snapshot_ready id count bytes) r =
    Preview.set_snapshot session_id id r
preview_effect session_id _ r = r

module _ {W : Type 0} (port : PreviewPort W) (session_id : Text) where
  -- `io.emit`
  unfoldable pub emit : EngineEvent → Pump W → Pump W
  emit ev p = record {
    settlement = (observe ev p.settlement).0;
    world = port.update (preview_effect session_id ev) p.world;
    sink = p.sink ++ (ev ∷ []);
  }

  unfoldable pub emit_all : List EngineEvent → Pump W → Pump W
  unfolding emit
  emit_all [] p = p
  emit_all (ev ∷ evs) p = emit_all evs (emit ev p)

  -- `await harness.run(...)`. The events of a sub-run reach the harness's `io` in one piece.
  unfoldable pub exec : {R : Type 0} → (R → W → Delegated W) → HarnessRun R → Pump W → Left W
  unfolding emit emit_all
  exec delegate (returned aborted) p = record { pump = p; thrown = none; aborted = aborted }
  exec delegate (threw message aborted) p = record {
    pump = p;
    thrown = some message;
    aborted = aborted;
  }
  exec delegate (emits ev rest) p = exec delegate rest (emit ev p)
  exec delegate (delegates req rest) p =
      let d = delegate req p.world in
      exec delegate (rest d.result) (emit_all d.progress (record p { world = d.world }))

-- A terminal event that the orchestrator makes itself goes to the settlement and to the sink.
unfoldable pub terminate : {W : Type 0} → TerminalCause → Option ErrorInfo → Pump W → Pump W
terminate cause why p = record p {
  settlement = (observe (terminal cause why) p.settlement).0;
  sink = p.sink ++ (terminal cause why ∷ []);
}

unfoldable pub reject : {W : Type 0} → Text → Text → Pump W → RunOutcome W
unfolding terminate
reject code message p =
    let p' = terminate error (some (record { code = code; message = message })) p in
    record { world = p'.world; sink = p'.sink; result = (settle error none p'.settlement).1 }

abbrev pub final_cause : Bool → TerminalCause
final_cause aborted = if aborted then cancelled else done

-- The harness threw: a terminal is made up unless there was one.
unfoldable pub after_throw : {W : Type 0} → Option Text → Pump W → Pump W
unfolding terminate
after_throw none p = p
after_throw (some message) p =
    if p.settlement.settled
    then p
    else terminate error (some (record { code = codes "harness_threw"; message = message })) p

-- The harness returned, and there was no terminal.
unfoldable pub after_silence : {W : Type 0} → Bool → Pump W → Pump W
unfolding terminate
after_silence aborted p = if p.settlement.settled then p else terminate (final_cause aborted) none p

unfoldable pub conclude : {W : Type 0} → Left W → RunOutcome W
unfolding after_throw after_silence
conclude l =
    let p = after_silence l.aborted (after_throw l.thrown l.pump) in
    record {
      world = p.world;
      sink = p.sink;
      result = (settle (final_cause l.aborted) none p.settlement).1;
    }

-- `refs.filter((r) => native.has(r))` and its complement
abbrev pub native_of : Option (List Text) → List Text → List Text
native_of natives refs = filter (λ r. contains r (or_else natives [])) refs

abbrev pub external_of : Option (List Text) → List Text → List Text
external_of natives refs = filter (λ r. not (contains r (or_else natives []))) refs

-- An agent in the sandbox brings its own tools.
abbrev pub defaults_for : ExecutionTopology → List Text → List Text
defaults_for agent_in_sandbox refs = []
defaults_for agent_as_tool refs = refs

unfoldable pub task_of : RunArgs → ExecutionTopology → RunTask
task_of args t = record {
  run_id = args.run_id;
  prompt = args.prompt;
  model = args.model;
  allowed_models = args.allowed_models;
  topology = t;
  tool_refs = or_else args.tool_refs (defaults_for t default_tool_refs);
  skill_refs = or_else args.skill_refs (defaults_for t default_skill_refs);
}

unfoldable pub kit_for : Registries → HarnessCapabilities → RunTask → Outcome ToolKit
kit_for regs caps task =
    build_kit regs.tools regs.skills (external_of caps.native_tools task.tool_refs)
      (external_of caps.native_skills task.skill_refs) (native_of caps.native_tools task.tool_refs)
      (native_of caps.native_skills task.skill_refs)

-- The run of a harness that was resolved; `play` is what its `run` does with the task and the kit.
module _ {W : Type 0} (regs : Registries) (args : RunArgs) where
  unfoldable pub run_harness : Harness → (RunTask → ToolKit → Pump W → Left W) → W → RunOutcome W
  unfolding reject conclude task_of kit_for
  run_harness harness play w =
      let p : Pump W = record { settlement = Settlement.new args.run_id; world = w; sink = [] } in
      elim (resolve_topology harness.capabilities (some args.handle.capabilities) args.topology) [
        | unsupported message ↦ reject (codes "unsupported_topology") message p
        | chosen t ↦ elim (kit_for regs harness.capabilities (task_of args t)) [
          | throws message ↦ reject (codes "unknown_capability_ref") message p
          | ok kit ↦ conclude (play (task_of args t) kit p)
        ]
      ]

-- `run` with no context: the harness is a leaf.
unfoldable pub run_leaf :
    {W : Type 0} → PreviewPort W → Registries → RunArgs → W → Outcome (RunOutcome W)
unfolding run_harness
run_leaf port regs args w = do
  harness ← resolve (codes "harness") args.harness_ref regs.harnesses
  ok (
      run_harness regs args harness
        (λ task kit p.
          exec port args.session_id (λ r w'. absurd r) (harness.run_leaf task args.handle kit) p)
        w)

-- `run` with a context: the harness may delegate.
unfoldable pub run_router :
    {W : Type 0}
    → PreviewPort W
    → Registries
    → RunContext
    → (DelegateRequest → W → Delegated W)
    → RunArgs
    → W
    → Outcome (RunOutcome W)
unfolding run_harness
run_router port regs ctx delegate args w = do
  harness ← resolve (codes "harness") args.harness_ref regs.harnesses
  ok (
      run_harness regs args harness
        (λ task kit p.
          exec port args.session_id delegate (harness.run_router ctx task args.handle kit) p)
        w)
