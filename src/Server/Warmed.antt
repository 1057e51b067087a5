-- ===== src/Server/Warmed.antt =====
-- A session that `POST /warm` of src/server/http.ts made ready, and the message that comes to it.
use modular_agentic_system.Base.{
  ◌≢◌, Bool, subst, ℕ, ◌≡◌, refl, sym, ap, ◌∙◌, true, false, some, Text, contains, arith, inl, inr,
  or_else,
}
use modular_agentic_system.Base.Map
use modular_agentic_system.Base.Outcome.{Outcome, ok, throws, Outcome-cases}
use modular_agentic_system.Environment.{EnvironmentHandle}
use modular_agentic_system.Kernel.{Kernel, preview_port}
use modular_agentic_system.Kernel.Delegation.{ensure_in}
use modular_agentic_system.Kernel.Lean.{result_of, admitted, run_message_runs}
use modular_agentic_system.Kernel.Run.{entry_args}
use modular_agentic_system.Orchestrator.{Registries, RunOutcome, run_leaf}
use modular_agentic_system.Memory.{get_session_memory, prompt_with_session_memory}
use modular_agentic_system.Server.{
  draw_uuid, Server, MessageBody, WarmBody, session_for, warm_config, message_config,
}
use modular_agentic_system.Server.Message.{Reply, serve_message, post_message, after_run}
use modular_agentic_system.Server.Profile.{ProcessEnv, target_of}
use modular_agentic_system.Server.Warm.{warm_reply, WarmReply, post_warm}
use modular_agentic_system.Session.{SessionState, SessionConfig, Sessions, ensure_workspace}
use modular_agentic_system.Session.Owner.{IsServed, ensure_workspace-IsServed}

-- A session that serves a request serves any other one of the same session, owner, environment and profile.
served_again :
    (regs : Registries) (a b : SessionConfig) (s s' : Sessions) (h : EnvironmentHandle)
    → IsServed a h s s'
    → b.session_id ≡ a.session_id
    → b.owner_id ≡ a.owner_id
    → b.environment ≡ a.environment
    → b.runtime_profile ≡ a.runtime_profile
    → ensure_workspace regs.environments b s' ≡ (s', ok h)
unfolding ensure_workspace
served_again regs a b s s' h v i o e p =
    rw
      (
        i, v.there, ensure_workspace, o, v.own, e, v.same_environment, p, v.same_profile,
        v.same_handle,
      )
      refl

refused_not_warmed :
    (id harness environment m : Text) (r : WarmReply)
    → warm_reply id harness environment (throws m) ≡ r
    → r.warmed ≢ true
refused_not_warmed id harness environment m r e w = ground arith

abbrev value_or : Outcome WarmReply → WarmReply → WarmReply
value_or (ok r) default = r
value_or (throws m) default = default

module _ (uuid : ℕ → Text) (regs : Registries) (env : ProcessEnv) where
  -- What a `/warm` that succeeded leaves.
  abbrev IsWarmed : WarmBody → Text → Server → WarmReply → Type 0
  IsWarmed body owner_id s r =
      (target_of env body.harness body.environment ≡ ok (r.harness, r.environment))
      × ((before : Sessions) × (h : EnvironmentHandle) × IsServed
            (warm_config body r.session_id owner_id r.harness r.environment) h before
            s.kernel.sessions)

  post_warm-IsWarmed :
      (body : WarmBody) (owner_id : Text) (s s' : Server) (r : WarmReply)
      → post_warm uuid regs env body owner_id s ≡ (s', ok r)
      → r.warmed ≡ true
      → IsWarmed body owner_id s' r
  unfolding post_warm
  post_warm-IsWarmed body owner_id s s' r e w =
      elim (Outcome-cases (target_of env body.harness body.environment)) [
        | inr (m, p) ↦ absurd (ground arith)
        | inl ((harness, environment), p) ↦
            let (s₀, id) = session_for uuid body.session_id owner_id s in
            let c = warm_config body id owner_id harness environment in
            let found = ensure_in regs c s₀.kernel in
            let shape : (
              record s₀ { kernel = found.0 },
              ok (warm_reply id harness environment found.1),
            )
                ≡ (s', ok r) =
              sym (rw (p, post_warm) refl) ∙ e in
            let reply : warm_reply id harness environment found.1 ≡ r =
              ap (λ x. value_or x.1 r) shape in
            elim (Outcome-cases found.1) [
              | inr (m, q) ↦ absurd (
                  refused_not_warmed id harness environment m r
                    (ap (λ o. warm_reply id harness environment o) (sym q) ∙ reply) w)
              | inl (h, q) ↦
                  subst (λ r'. IsWarmed body owner_id s' r')
                    (ap (λ o. warm_reply id harness environment o) (sym q) ∙ reply)
                    (subst
                      (λ s'. IsWarmed body owner_id s' (warm_reply id harness environment (ok h)))
                      (ap (λ x. x.0) shape)
                      (
                        p,
                        (
                          s₀.kernel.sessions,
                          h,
                          unfold ensure_in in
                              ensure_workspace-IsServed regs.environments c s₀.kernel.sessions h q,
                        ),
                      ))
            ]
      ]

  -- The run of a message's harness, alone, on a workspace.
  abbrev pub run_on :
      MessageBody → Text → Server → WarmReply → EnvironmentHandle → Outcome (RunOutcome Kernel)
  run_on m owner_id s r h =
      let run_id = uuid s.kernel.uuids in
      let c = message_config env m r.session_id run_id owner_id r.harness r.environment in
      let prompt =
        prompt_with_session_memory m.prompt (get_session_memory owner_id r.session_id s.memory) in
      run_leaf preview_port regs (entry_args c run_id prompt h)
        (admitted r.session_id (draw_uuid s).kernel)

  -- A message to a session that a `/warm` of the same owner made ready, with the harness, the environment
  -- and the runtime profile of that request, without delegation and with no run of the session active: its
  -- result is that of its harness's run on the handle that the session has since then; and it provisions,
  -- claims and destroys nothing, and no session changes, however the run goes.
  pub message_finds_warmed :
      (database : Bool) (w : WarmBody) (m : MessageBody) (owner_id : Text) (s s' : Server)
      (r : WarmReply)
      → post_warm uuid regs env w owner_id s ≡ (s', ok r)
      → r.warmed ≡ true
      → m.session_id ≡ some r.session_id
      → m.harness ≡ w.harness
      → m.environment ≡ w.environment
      → m.runtime_profile ≡ w.runtime_profile
      → or_else m.delegation false ≡ false
      → contains r.session_id s'.kernel.admission.active ≡ false
      → let posted = post_message uuid regs env database m owner_id s' in
        (posted.0.kernel.sessions ≡ s'.kernel.sessions)
        × ((state : SessionState) × (reply : Reply) × (Map.get r.session_id
                s'.kernel.sessions.sessions
              ≡ some state)
            × (posted.1 ≡ ok reply)
            × (reply.result
                ≡ result_of (uuid s'.kernel.uuids) (run_on m owner_id s' r state.handle)))
  unfolding post_message serve_message after_run session_for message_config warm_config
  message_finds_warmed database w m owner_id s s' r e warmed id harness environment profile lean
        free =
      let (target, (before, h, served)) = post_warm-IsWarmed w owner_id s s' r e warmed in
      let run_id = uuid s'.kernel.uuids in
      let c = message_config env m r.session_id run_id owner_id r.harness r.environment in
      let ready =
        served_again regs (warm_config w r.session_id owner_id r.harness r.environment) c before
          s'.kernel.sessions h served refl refl refl profile in
      let found : target_of env m.harness m.environment ≡ ok (r.harness, r.environment) =
        rw (harness, environment) target in
      let same_session : session_for uuid m.session_id owner_id s' ≡ (s', r.session_id) =
        rw id refl in
      let (keeps, runs) =
        run_message_runs uuid regs c run_id
          (prompt_with_session_memory m.prompt (get_session_memory owner_id r.session_id s'.memory))
          h (draw_uuid s').kernel refl (ap some lean) free ready in
      let run = λ (h' : EnvironmentHandle). result_of run_id (run_on m owner_id s' r h') in
      rw (found, post_message, same_session)
        (keeps, (served.state, _, served.there, refl, runs ∙ ap run (sym served.same_handle)))
