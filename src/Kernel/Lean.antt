-- ===== src/Kernel/Lean.antt =====
-- A message of src/kernel/index.ts that may not delegate, when its session's workspace is there.
use modular_agentic_system.Base.{
  [], ◌∷◌, ◌++◌, codes, ℕ, ◌≡◌, refl, sym, ap, ◌∙◌, false, some, Text, contains, arith, inl, inr,
}
use modular_agentic_system.Base.Outcome.{Outcome, ok, throws, Outcome-cases}
use modular_agentic_system.Admission
use modular_agentic_system.Environment.{EnvironmentHandle}
use modular_agentic_system.Kernel.{Kernel, preview_port}
use modular_agentic_system.Kernel.Delegation.{ensure_in}
use modular_agentic_system.Kernel.Run.{
  failed_result, draw, entry_run, entry_args, message_body, complete, run_message, provision_failed,
  settled_run, release_in,
}
use modular_agentic_system.Orchestrator.{Registries, RunOutcome, run_leaf}
use modular_agentic_system.Orchestrator.World.{run_leaf_keeps}
use modular_agentic_system.Settlement.{RunResult}
use modular_agentic_system.Session.{SessionConfig, ensure_workspace, identity_of}

-- The result of a message, from that of its harness's run.
abbrev pub result_of : Text → Outcome (RunOutcome Kernel) → RunResult
result_of run_id (ok out) = out.result
result_of run_id (throws m) = failed_result run_id (codes "provision_failed") m

module _ (uuid : ℕ → Text) (regs : Registries) (c : SessionConfig) (run_id prompt : Text)
    (h : EnvironmentHandle) where
  -- The entry run of a lean message reaches no workspace but its own.
  entry_run_keeps :
      (k : Kernel) (out : RunOutcome Kernel)
      → c.delegation ≡ some false
      → entry_run uuid regs c run_id prompt h k ≡ ok out
      → out.world.sessions ≡ k.sessions
  unfolding entry_run
  entry_run_keeps k out lean e =
      run_leaf_keeps preview_port (λ (w : Kernel). w.sessions ≡ k.sessions) (λ u w q. q) regs
        (entry_args c run_id prompt h) k out (ground (arith, lean, e)) refl

  message_body_keeps :
      (k : Kernel)
      → c.delegation ≡ some false
      → ensure_workspace regs.environments c k.sessions ≡ (k.sessions, ok h)
      → (message_body uuid regs c run_id prompt k).kernel.sessions ≡ k.sessions
  unfolding message_body provision_failed settled_run
  message_body_keeps k lean ready =
      let found = ensure_in regs c k in
      let e : found.1 ≡ ok h = unfold ensure_in in ap (λ x. x.1) ready in
      let same : found.0.sessions ≡ k.sessions = unfold ensure_in in ap (λ x. x.0) ready in
      elim (Outcome-cases (entry_run uuid regs c run_id prompt h found.0)) [
        | inr (m, f) ↦ rw (e, message_body, f) same
        | inl (out, f) ↦ rw (e, message_body, f) (entry_run_keeps found.0 out lean f ∙ same)
      ]

  message_body_runs :
      (k : Kernel)
      → c.delegation ≡ some false
      → ensure_workspace regs.environments c k.sessions ≡ (k.sessions, ok h)
      → (message_body uuid regs c run_id prompt k).result
        ≡ result_of run_id (run_leaf preview_port regs (entry_args c run_id prompt h) k)
  unfolding message_body provision_failed settled_run
  message_body_runs k lean ready =
      let found = ensure_in regs c k in
      let e : found.1 ≡ ok h = unfold ensure_in in ap (λ x. x.1) ready in
      let world : found.0 ≡ k = unfold ensure_in in ap (λ x. record k { sessions = x.0 }) ready in
      let same : entry_run uuid regs c run_id prompt h found.0
          ≡ run_leaf preview_port regs (entry_args c run_id prompt h) k =
        ap (λ k'. entry_run uuid regs c run_id prompt h k') world
        ∙ (unfold entry_run in rw lean refl) in
      elim (Outcome-cases (entry_run uuid regs c run_id prompt h found.0)) [
        | inr (m, f) ↦ rw (e, message_body, f) (ap (λ o. result_of run_id o) (sym f ∙ same))
        | inl (out, f) ↦ rw (e, message_body, f) (ap (λ o. result_of run_id o) (sym f ∙ same))
      ]

-- A message with the lock free takes it and runs.
abbrev pub admitted : Text → Kernel → Kernel
admitted session_id k = record k {
  admission = record { active = k.admission.active ++ (session_id ∷ []) };
}

module _ (uuid : ℕ → Text) (regs : Registries) (c : SessionConfig) (run_id prompt : Text)
    (h : EnvironmentHandle) (k : Kernel) where
  pub run_message_runs :
      c.run_id ≡ some run_id
      → c.delegation ≡ some false
      → contains c.session_id k.admission.active ≡ false
      → ensure_workspace regs.environments c k.sessions ≡ (k.sessions, ok h)
      → ((run_message uuid regs c prompt k).kernel.sessions ≡ k.sessions)
        × ((run_message uuid regs c prompt k).result
            ≡ result_of run_id (
                run_leaf preview_port regs
                  (entry_args c run_id prompt h)
                  (admitted c.session_id k)))
  unfolding run_message Admission.admit draw complete release_in identity_of ensure_in
      ensure_workspace entry_run entry_args
  run_message_runs named lean free ready =
      rw (named, free)
        (
          message_body_keeps uuid regs c run_id prompt h (admitted c.session_id k) lean ready,
          message_body_runs uuid regs c run_id prompt h (admitted c.session_id k) lean ready,
        )
