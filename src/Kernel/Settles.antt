-- ===== src/Kernel/Settles.antt =====
-- Every message of src/kernel/index.ts ends with a terminal event in its sink.
use modular_agentic_system.Base.{
  ℕ, ◌≡◌, refl, ◌∙◌, true, List, [], ◌∷◌, ◌++◌, Option, some, Text, contains, arith, inl, inr,
  if_elim, or_else, Bool-cases,
}
use modular_agentic_system.Base.Outcome.{ok, Outcome-cases}
use modular_agentic_system.Admission
use modular_agentic_system.Environment.{EnvironmentHandle}
use modular_agentic_system.Events.{
  EngineEvent, log, terminal, TerminalCause, ErrorInfo, Level, info, Category, kernel, env,
}
use modular_agentic_system.Harness.{RunContext}
use modular_agentic_system.Kernel.{Kernel, max_delegation_depth, preview_port, describe_topologies}
use modular_agentic_system.Kernel.Delegation.{ensure_in, delegate}
use modular_agentic_system.Kernel.Narration.{logs, narration, started_text, ready_text}
use modular_agentic_system.Kernel.Run.{
  draw, entry_run, entry_args, Handled, rejected, message_body, complete, run_message,
  provision_failed, settled_run,
}
use modular_agentic_system.Orchestrator.{Registries, RunOutcome, run_router, run_leaf}
use modular_agentic_system.Orchestrator.Stream.{run_router-IsSettled, run_leaf-IsSettled}
use modular_agentic_system.Session.{SessionConfig}
use modular_agentic_system.Settlement.Spec.{first_terminal, terminal_count}

-- The sink has a terminal, and the result has its cause and error.
abbrev pub Settles : Handled → Type 0
Settles h = first_terminal h.sink ≡ some (h.result.cause, h.result.error)

first_terminal-append :
    (xs ys : List EngineEvent)
    → terminal_count xs ≡ 0
    → first_terminal (xs ++ ys) ≡ first_terminal ys
unfolding first_terminal terminal_count
first_terminal-append [] ys h = refl
first_terminal-append (terminal c e ∷ xs) ys h = absurd (omega arith)
first_terminal-append (_ ∷ xs) ys h = first_terminal-append xs ys h

first_terminal_stays :
    (xs ys : List EngineEvent) (t : TerminalCause × Option ErrorInfo)
    → first_terminal xs ≡ some t
    → first_terminal (xs ++ ys) ≡ some t
unfolding first_terminal
first_terminal_stays [] ys t h = absurd (ground arith)
first_terminal_stays (terminal c e ∷ xs) ys t h = h
first_terminal_stays (_ ∷ xs) ys t h = first_terminal_stays xs ys t h

terminal_count-logs :
    (category : Category) (level : Level) (at : ℕ) (ms : List Text)
    → terminal_count (logs category level at ms) ≡ 0
unfolding logs terminal_count
terminal_count-logs category level at [] = refl
terminal_count-logs category level at (m ∷ ms) = terminal_count-logs category level at ms

terminal_count_log :
    (xs : List EngineEvent) (category : Category) (level : Level) (m : Text) (at : ℕ)
    → terminal_count xs ≡ 0
    → terminal_count (xs ++ (log category level m at ∷ [])) ≡ 0
unfolding terminal_count
terminal_count_log [] category level m at h = refl
terminal_count_log (terminal c e ∷ xs) category level m at h = absurd (omega arith)
terminal_count_log (_ ∷ xs) category level m at h = terminal_count_log xs category level m at h

provision_failed-Settles :
    (run_id message : Text) (before : List EngineEvent) (k : Kernel)
    → terminal_count before ≡ 0
    → Settles (provision_failed run_id message before k)
unfolding provision_failed first_terminal
provision_failed-Settles run_id message before k h = first_terminal-append before _ h

settled_run-Settles :
    (before : List EngineEvent) (out : RunOutcome Kernel)
    → terminal_count before ≡ 0
    → first_terminal out.sink ≡ some (out.result.cause, out.result.error)
    → Settles (settled_run before out)
unfolding settled_run
settled_run-Settles before out h g =
    first_terminal-append before _ h ∙ first_terminal_stays out.sink _ _ g

entry_run_settles :
    (uuid : ℕ → Text) (regs : Registries) (c : SessionConfig) (run_id prompt : Text)
    (a : EnvironmentHandle) (k : Kernel) (out : RunOutcome Kernel)
    → entry_run uuid regs c run_id prompt a k ≡ ok out
    → first_terminal out.sink ≡ some (out.result.cause, out.result.error)
unfolding entry_run
entry_run_settles uuid regs c run_id prompt a k out e =
    let ctx : RunContext = record { depth = 0; catalog = describe_topologies regs } in
    let delegator = delegate uuid regs max_delegation_depth c.owner_id c.session_id in
    let args = entry_args c run_id prompt a in
    if_elim (λ o. o ≡ ok out → first_terminal out.sink ≡ some (out.result.cause, out.result.error))
      (or_else c.delegation true) (run_router preview_port regs ctx delegator args k)
      (run_leaf preview_port regs args k)
      (λ q f. (run_router-IsSettled preview_port regs ctx delegator args k out f).terminates)
      (λ q f. (run_leaf-IsSettled preview_port regs args k out f).terminates) e

message_body-Settles :
    (uuid : ℕ → Text) (regs : Registries) (c : SessionConfig) (run_id prompt : Text) (k : Kernel)
    → Settles (message_body uuid regs c run_id prompt k)
unfolding message_body
message_body-Settles uuid regs c run_id prompt k =
    let found = ensure_in regs c k in
    let before =
      log kernel info (started_text c) k.now ∷ logs env info k.now (narration c k.sessions) in
    let quiet : terminal_count before ≡ 0 =
      unfold terminal_count in terminal_count-logs env info k.now (narration c k.sessions) in
    let quiet' = terminal_count_log before kernel info ready_text k.now quiet in
    elim (Outcome-cases found.1) [
      | inr (m, e) ↦ rw (e, message_body) (provision_failed-Settles run_id m before found.0 quiet)
      | inl (a, e) ↦ elim (Outcome-cases (entry_run uuid regs c run_id prompt a found.0)) [
        | inr (m, f) ↦ rw (e, message_body, f) (provision_failed-Settles run_id m _ found.0 quiet')
        | inl (out, f) ↦
            rw (e, message_body, f)
              (settled_run-Settles _ out quiet'
                (entry_run_settles uuid regs c run_id prompt a found.0 out f))
      ]
    ]

-- Every message settles, on every branch: its sink has a terminal event, the first one in the sink
-- bears the cause and the error of the result, whether the message is rejected, its workspace or its
-- harness fails, or the run ends, in whatever way.
pub run_message-Settles :
    (uuid : ℕ → Text) (regs : Registries) (c : SessionConfig) (prompt : Text) (k : Kernel)
    → Settles (run_message uuid regs c prompt k)
unfolding run_message Admission.admit rejected complete
run_message-Settles uuid regs c prompt k =
    elim (Bool-cases (contains c.session_id (draw c k).admission.active)) [
      | inl e ↦ rw (e, run_message) (unfold first_terminal in refl)
      | inr e ↦
          rw (e, run_message)
            (message_body-Settles uuid regs c (or_else c.run_id (uuid k.uuids)) prompt _)
    ]
