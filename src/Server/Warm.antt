-- ===== src/Server/Warm.antt =====
-- `POST /warm` and `POST /prewarm` of src/server/http.ts: workspaces that are made before the first message.
use modular_agentic_system.Base.{ℕ, Bool, true, false, Option, none, some, Text}
use modular_agentic_system.Base.Outcome.{Outcome, ok, throws}
use modular_agentic_system.Environment.{EnvironmentHandle}
use modular_agentic_system.Kernel.Delegation.{ensure_in}
use modular_agentic_system.Orchestrator.{Registries}
use modular_agentic_system.Prewarm
use modular_agentic_system.Prewarm.Identity.{PrewarmRequest, PrewarmStatus}
use modular_agentic_system.Server.{
  Server, WarmBody, PrewarmBody, session_for, warm_config, runtime_profile_for,
}
use modular_agentic_system.Server.Profile.{ProcessEnv, target_of}

pub record WarmReply : Type 0 where
  pub warmed : Bool
  pub session_id : Text
  pub harness : Text
  pub environment : Text
  pub error_of : Option Text

pub record PrewarmReply : Type 0 where
  pub project_id : Option Text
  pub harness : Text
  pub environment : Text
  pub status : PrewarmStatus

abbrev pub warm_reply : Text → Text → Text → Outcome EnvironmentHandle → WarmReply
warm_reply session_id harness environment (ok h) = record {
  warmed = true;
  session_id = session_id;
  harness = harness;
  environment = environment;
  error_of = none;
}
warm_reply session_id harness environment (throws m) = record {
  warmed = false;
  session_id = session_id;
  harness = harness;
  environment = environment;
  error_of = some m;
}

abbrev pub prewarm_request : PrewarmBody → (owner_id harness environment : Text) → PrewarmRequest
prewarm_request body owner_id harness environment = record {
  identity = record {
    owner_id = some owner_id;
    environment = environment;
    runtime_profile = runtime_profile_for harness environment body.runtime_profile;
    project_id = body.project_id;
    source = body.source;
  };
  env = none;
  ports = body.ports;
}

module _ (uuid : ℕ → Text) (regs : Registries) (env : ProcessEnv) where
  -- `kernel.warmSession`
  unfoldable pub post_warm : WarmBody → (owner_id : Text) → Server → Server × Outcome WarmReply
  unfolding session_for target_of warm_config ensure_in
  post_warm body owner_id s =
      let (s', session_id) = session_for uuid body.session_id owner_id s in
      elim (target_of env body.harness body.environment) [
        | throws m ↦ (s', throws m)
        | ok (harness, environment) ↦
            let (kernel, outcome) =
              ensure_in regs (warm_config body session_id owner_id harness environment) s'.kernel in
            (record s' { kernel = kernel }, ok (warm_reply session_id harness environment outcome))
      ]

module _ (regs : Registries) (env : ProcessEnv) where
  -- `kernel.prewarmProject`, which does not throw.
  unfoldable pub post_prewarm :
      PrewarmBody → (owner_id : Text) → Server → Server × Outcome PrewarmReply
  unfolding target_of Prewarm.ensure
  post_prewarm body owner_id s = elim (target_of env body.harness body.environment) [
    | throws m ↦ (s, throws m)
    | ok (harness, environment) ↦
        let k = s.kernel in
        let (warm, status) =
          Prewarm.ensure regs.environments (prewarm_request body owner_id harness environment)
            body.count k.sessions.warm in
        (
          record s { kernel = record k { sessions = record k.sessions { warm = warm } } },
          ok (record {
            project_id = body.project_id;
            harness = harness;
            environment = environment;
            status = status;
          }),
        )
  ]
