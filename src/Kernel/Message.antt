-- ===== src/Kernel/Message.antt =====
-- What `runMessage` of src/kernel/index.ts leaves behind, on every branch.
use modular_agentic_system.Base.{
  ℕ, zero, suc, ◌-◌, ◌≡◌, refl, ap, ◌∙◌, true, false, List, [], ◌∷◌, ◌++◌, Option, Text, eq_iff,
  contains, arith, inl, inr, if_elim, or_else, Bool-cases,
}
use modular_agentic_system.Base.Outcome.{Outcome, ok, throws, Outcome-cases}
use modular_agentic_system.Admission
use modular_agentic_system.Admission.{Admission}
use modular_agentic_system.Admission.Lock.{contains-append, contains-remove}
use modular_agentic_system.Environment.{EnvironmentHandle}
use modular_agentic_system.Harness.{DelegateRequest, RunContext}
use modular_agentic_system.Kernel.{Kernel, max_delegation_depth, preview_port, describe_topologies}
use modular_agentic_system.Kernel.Delegation.{
  child_session, ensure_in, child_config, child_end, child_run, delegate, child_args,
}
use modular_agentic_system.Kernel.Run.{
  draw, entry_run, entry_args, rejected, message_body, complete, run_message, provision_failed,
  settled_run, release_in,
}
use modular_agentic_system.Orchestrator.{Registries, RunOutcome, Delegated, run_router, run_leaf}
use modular_agentic_system.Orchestrator.World.{run_router_keeps, run_leaf_keeps}
use modular_agentic_system.Session.{SessionConfig}

-- The lock that `before` has.
module _ (before : Admission) where
  abbrev Keeps : Kernel → Type 0
  Keeps k = k.admission ≡ before

  child_session-Keeps :
      (uuid : ℕ → Text) (parent : Text) (req : DelegateRequest) (k : Kernel)
      → Keeps k
      → Keeps (child_session uuid parent req k).0
  unfolding child_session
  child_session-Keeps uuid parent req k h = ground arith

  child_end-Keeps :
      (run_id : Text) (k : Kernel) (o : Outcome (RunOutcome Kernel))
      → Keeps k
      → ((out : RunOutcome Kernel) → o ≡ ok out → Keeps out.world)
      → Keeps (child_end run_id k o).world
  unfolding child_end
  child_end-Keeps run_id k (ok out) h g = g out refl
  child_end-Keeps run_id k (throws m) h g = h

  child_run-Keeps :
      (uuid : ℕ → Text) (regs : Registries)
      (deeper : Text → DelegateRequest → Kernel → Delegated Kernel) (depth : ℕ)
      (owner_id : Option Text) (req : DelegateRequest) (run_id session_id : Text) (k : Kernel)
      → ((req' : DelegateRequest) (k' : Kernel)
          → Keeps k'
          → Keeps (deeper session_id req' k').world)
      → Keeps k
      → Keeps (child_run uuid regs deeper depth owner_id req run_id session_id k).world
  unfolding child_run
  child_run-Keeps uuid regs deeper depth owner_id req run_id session_id k g h =
      let found = ensure_in regs (child_config session_id run_id owner_id req) k in
      let kept : Keeps found.0 = unfold ensure_in in h in
      elim (Outcome-cases found.1) [
        | inr (m, e) ↦
            rw (e, child_run)
              (child_end-Keeps run_id found.0 (throws m) kept (λ out f. absurd (ground arith)))
        | inl (a, e) ↦
            let ctx : RunContext = record { depth = depth; catalog = describe_topologies regs } in
            let args = child_args session_id run_id req a in
            rw (e, child_run)
              (child_end-Keeps run_id found.0
                (run_router preview_port regs ctx (deeper session_id) args found.0) kept
                (λ out f.
                  run_router_keeps preview_port Keeps (λ u w q. q) regs ctx (deeper session_id) args
                    found.0 out g f kept))
      ]

  delegate-Keeps :
      (uuid : ℕ → Text) (regs : Registries) (room : ℕ) (owner_id : Option Text) (parent : Text)
      (req : DelegateRequest) (k : Kernel)
      → Keeps k
      → Keeps (delegate uuid regs room owner_id parent req k).world
  unfolding delegate
  delegate-Keeps uuid regs zero owner_id parent req k h = h
  delegate-Keeps uuid regs (suc room) owner_id parent req k h =
      let found = child_session uuid parent req (record k { uuids = suc k.uuids }) in
      child_run-Keeps uuid regs (delegate uuid regs room owner_id) (max_delegation_depth - room)
        owner_id req (uuid k.uuids) found.1 found.0
        (λ req' k' q. delegate-Keeps uuid regs room owner_id found.1 req' k' q)
        (child_session-Keeps uuid parent req (record k { uuids = suc k.uuids }) h)

  entry_run-Keeps :
      (uuid : ℕ → Text) (regs : Registries) (c : SessionConfig) (run_id prompt : Text)
      (a : EnvironmentHandle) (k : Kernel) (out : RunOutcome Kernel)
      → entry_run uuid regs c run_id prompt a k ≡ ok out
      → Keeps k
      → Keeps out.world
  unfolding entry_run
  entry_run-Keeps uuid regs c run_id prompt a k out e h =
      let ctx : RunContext = record { depth = 0; catalog = describe_topologies regs } in
      let delegator = delegate uuid regs max_delegation_depth c.owner_id c.session_id in
      let args = entry_args c run_id prompt a in
      if_elim (λ o. o ≡ ok out → Keeps out.world) (or_else c.delegation true)
        (run_router preview_port regs ctx delegator args k) (run_leaf preview_port regs args k)
        (λ q f.
          run_router_keeps preview_port Keeps (λ u w r. r) regs ctx delegator args k out
            (delegate-Keeps uuid regs max_delegation_depth c.owner_id c.session_id) f h)
        (λ q f. run_leaf_keeps preview_port Keeps (λ u w r. r) regs args k out f h) e

  message_body-Keeps :
      (uuid : ℕ → Text) (regs : Registries) (c : SessionConfig) (run_id prompt : Text) (k : Kernel)
      → Keeps k
      → Keeps (message_body uuid regs c run_id prompt k).kernel
  unfolding message_body provision_failed settled_run
  message_body-Keeps uuid regs c run_id prompt k h =
      let found = ensure_in regs c k in
      let kept : Keeps found.0 = unfold ensure_in in h in
      elim (Outcome-cases found.1) [
        | inr (m, e) ↦ rw (e, message_body) kept
        | inl (a, e) ↦ elim (Outcome-cases (entry_run uuid regs c run_id prompt a found.0)) [
          | inr (m, f) ↦ rw (e, message_body, f) kept
          | inl (out, f) ↦
              rw (e, message_body, f)
                (entry_run-Keeps uuid regs c run_id prompt a found.0 out f kept)
        ]
      ]

draw-admission : (c : SessionConfig) (k : Kernel) → (draw c k).admission ≡ k.admission
unfolding draw
draw-admission c k = ground arith

complete-lock :
    (uuid : ℕ → Text) (regs : Registries) (c : SessionConfig) (run_id prompt : Text) (k : Kernel)
    (active : List Text) (j : Text)
    → contains c.session_id active ≡ false
    → k.admission.active ≡ active ++ (c.session_id ∷ [])
    → contains j (complete uuid regs c run_id prompt k).kernel.admission.active ≡ contains j active
unfolding complete release_in Admission.release
complete-lock uuid regs c run_id prompt k active j free held =
    rw (message_body-Keeps k.admission uuid regs c run_id prompt k refl, complete)
      (ground (
        arith,
        held,
        contains-remove j c.session_id (active ++ (c.session_id ∷ [])),
        contains-append j c.session_id active,
        eq_iff c.session_id j,
      ))

-- A message leaves the lock of every session as it was, on every branch: whether it is rejected, its
-- workspace is not found, its harness is unknown, or the run ends, in whatever way. So the lock that
-- the message takes is always released, and a session that was active before stays active.
pub run_message-lock :
    (uuid : ℕ → Text) (regs : Registries) (c : SessionConfig) (prompt : Text) (k : Kernel)
    (j : Text)
    → contains j (run_message uuid regs c prompt k).kernel.admission.active
      ≡ contains j k.admission.active
unfolding run_message Admission.admit rejected
run_message-lock uuid regs c prompt k j =
    let same = draw-admission c k in
    elim (Bool-cases (contains c.session_id (draw c k).admission.active)) [
      | inl e ↦ rw (e, run_message) (ap (λ (a : Admission). contains j a.active) same)
      | inr e ↦
          rw (e, run_message)
            (complete-lock uuid regs c (or_else c.run_id (uuid k.uuids)) prompt _
                (draw c k).admission.active j e refl
              ∙ ap (λ (a : Admission). contains j a.active) same)
    ]
