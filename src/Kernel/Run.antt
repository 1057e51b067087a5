-- ===== src/Kernel/Run.antt =====
-- `runMessage` and `endSession` of src/kernel/index.ts.
use modular_agentic_system.Base.{
  ℕ, suc, true, List, [], ◌∷◌, ◌++◌, Option, none, some, Text, codes, or_else, if◌then◌else◌,
  is_some,
}
use modular_agentic_system.Base.Map
use modular_agentic_system.Base.Map.{Map}
use modular_agentic_system.Base.Outcome.{Outcome, ok, throws}
use modular_agentic_system.Admission
use modular_agentic_system.Admission.{Admission, AdmissionDecision}
use modular_agentic_system.Environment.{EnvironmentHandle}
use modular_agentic_system.Events.{EngineEvent, terminal, log, info, severe, kernel, env, error}
use modular_agentic_system.Orchestrator.{Registries, RunArgs, RunOutcome, run_leaf, run_router}
use modular_agentic_system.Preview
use modular_agentic_system.Preview.{PreviewRegistry, PreviewState, url_of}
use modular_agentic_system.Session
use modular_agentic_system.Session.{
  SessionConfig, Sessions, ensure_workspace, crosses_owner, option_eq, identity_of,
}
use modular_agentic_system.Settlement.{RunResult}
use modular_agentic_system.Kernel.{Kernel, max_delegation_depth, preview_port, describe_topologies}
use modular_agentic_system.Kernel.Delegation.{delegate, ensure_in}
use modular_agentic_system.Kernel.Narration.{
  level_of, started_text, ready_text, settled_text, failed_text, narration, logs,
}

unfoldable pub entry_args : SessionConfig → Text → Text → EnvironmentHandle → RunArgs
entry_args c run_id prompt h = record {
  run_id = run_id;
  session_id = c.session_id;
  harness_ref = c.harness;
  prompt = prompt;
  model = c.model;
  allowed_models = none;
  handle = h;
  topology = c.topology;
  tool_refs = c.tool_refs;
  skill_refs = c.skill_refs;
}

module _ (uuid : ℕ → Text) (regs : Registries) where
  -- The entry agent's run, with the delegator unless delegation is off.
  unfoldable pub entry_run :
      SessionConfig → Text → Text → EnvironmentHandle → Kernel → Outcome (RunOutcome Kernel)
  entry_run c run_id prompt h k =
      if or_else c.delegation true
      then run_router preview_port regs (record { depth = 0; catalog = describe_topologies regs })
          (delegate uuid regs max_delegation_depth c.owner_id c.session_id)
          (entry_args c run_id prompt h) k
      else run_leaf preview_port regs (entry_args c run_id prompt h) k

-- What one message leaves: the state, the events of its sink, and the result.
pub record Handled : Type 0 where
  pub kernel : Kernel
  pub sink : List EngineEvent
  pub result : RunResult

abbrev pub failed_result : Text → Text → Text → RunResult
failed_result run_id code message = record {
  run_id = run_id;
  cause = error;
  final_text = [];
  usage = record { input_tokens = 0; output_tokens = 0 };
  cost = 0;
  error = some (record { code = code; message = message });
}

abbrev pub already_active : Text
already_active = codes "Run already active for session."

unfoldable pub rejected : Text → Option Text → Kernel → Handled
rejected run_id code k = record {
  kernel = k;
  sink =
      terminal error
        (some (record { code = or_else code (codes "rejected"); message = already_active }))
      ∷ [];
  result = failed_result run_id (or_else code (codes "rejected")) already_active;
}

unfoldable pub release_in : Text → Kernel → Kernel
release_in session_id k = record k { admission = Admission.release session_id k.admission }

-- The `catch` of `runMessage`.
unfoldable pub provision_failed : Text → Text → List EngineEvent → Kernel → Handled
provision_failed run_id message before k = record {
  kernel = k;
  sink =
      before
      ++ (log kernel severe (failed_text message) k.now
          ∷ terminal error (some (record { code = codes "provision_failed"; message = message }))
          ∷ []);
  result = failed_result run_id (codes "provision_failed") message;
}

unfoldable pub settled_run : List EngineEvent → RunOutcome Kernel → Handled
settled_run before out = record {
  kernel = out.world;
  sink =
      before
      ++ (out.sink
          ++ (log kernel (level_of out.result.cause) (settled_text out.result) out.world.now ∷ []));
  result = out.result;
}

unfoldable pub draw : SessionConfig → Kernel → Kernel
draw c k = if is_some c.run_id then k else record k { uuids = suc k.uuids }

module _ (uuid : ℕ → Text) (regs : Registries) where
  -- The body of an admitted message, up to the `finally`.
  unfoldable pub message_body : SessionConfig → Text → Text → Kernel → Handled
  unfolding provision_failed settled_run logs narration
  message_body c run_id prompt k =
      let before =
        log kernel info (started_text c) k.now ∷ logs env info k.now (narration c k.sessions) in
      let (k', outcome) = ensure_in regs c k in
      elim outcome [
        | throws message ↦ provision_failed run_id message before k'
        | ok h ↦
            let before' = before ++ (log kernel info ready_text k.now ∷ []) in
            elim (entry_run uuid regs c run_id prompt h k') [
              | throws message ↦ provision_failed run_id message before' k'
              | ok out ↦ settled_run before' out
            ]
      ]

  -- The end of an admitted message: its body, and the lock released.
  unfoldable pub complete : SessionConfig → Text → Text → Kernel → Handled
  unfolding message_body release_in
  complete c run_id prompt k =
      let h = message_body c run_id prompt k in
      record h { kernel = release_in c.session_id h.kernel }

  -- A run id is drawn unless the message has one. An admitted message has the lock from here on.
  unfoldable pub run_message : SessionConfig → Text → Kernel → Handled
  unfolding complete rejected draw
  run_message c prompt k =
      let run_id = or_else c.run_id (uuid k.uuids) in
      let (admission, decision) = Admission.admit c.session_id (draw c k).admission in
      if decision.ok
      then complete c run_id prompt (record (draw c k) { admission = admission })
      else rejected run_id decision.code (draw c k)

-- `sessions.end(id).catch(() => {})`, with no owner.
unfoldable pub end_workspace : Text → Kernel → Kernel
end_workspace session_id k = record k { sessions = (Session.finish session_id none k.sessions).0 }

unfoldable pub clear_preview : Text → Kernel → Kernel
clear_preview session_id k = record k { preview = Preview.clear session_id k.preview }

unfoldable pub end_children : List Text → Kernel → Kernel
unfolding end_workspace clear_preview
end_children [] k = k
end_children (id ∷ ids) k = end_children ids (end_workspace id (clear_preview id k))

unfoldable pub end_session : Text → Kernel → Kernel
unfolding end_workspace clear_preview end_children
end_session session_id k =
    let k₁ = clear_preview session_id k in
    elim (Map.get session_id k₁.child_sessions) [
      | none ↦ end_workspace session_id k₁
      | some children ↦
          let k₂ = end_children (Map.values children) k₁ in
          end_workspace session_id
            (record k₂ { child_sessions = Map.delete session_id k₂.child_sessions })
    ]
