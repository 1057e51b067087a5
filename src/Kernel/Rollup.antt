-- ===== src/Kernel/Rollup.antt =====
-- What a sub-run of src/kernel/index.ts adds to the stream of its parent.
use modular_agentic_system.Base.{
  ℕ, zero, suc, ◌+◌, ◌≡◌, refl, sym, ap, ◌∙◌, List, [], ◌∷◌, ◌++◌, Option, Text, arith, inl, inr,
}
use modular_agentic_system.Base.Outcome.{Outcome, ok, throws, Outcome-cases}
use modular_agentic_system.Environment.{EnvironmentHandle}
use modular_agentic_system.Events.{EngineEvent, child_settled, usage_delta, terminal, done}
use modular_agentic_system.Harness.{DelegateRequest}
use modular_agentic_system.Kernel.{Kernel, preview_port, describe_topologies}
use modular_agentic_system.Kernel.Delegation.{
  child_sink, child_session, ensure_in, child_config, child_args, child_end, child_run, delegate,
}
use modular_agentic_system.Orchestrator.{Registries, RunOutcome, Delegated, run_router}
use modular_agentic_system.Orchestrator.Stream.{run_router-IsSettled}
use modular_agentic_system.Settlement.{RunResult}
use modular_agentic_system.Settlement.Spec.{terminal_count, input_total, output_total}

pub terminal_count-append :
    (xs ys : List EngineEvent) → terminal_count (xs ++ ys) ≡ terminal_count xs + terminal_count ys
unfolding terminal_count
terminal_count-append [] ys = omega arith
terminal_count-append (terminal c e ∷ xs) ys = ground (arith, terminal_count-append xs ys)
terminal_count-append (_ ∷ xs) ys = terminal_count-append xs ys

pub input_total-append :
    (xs ys : List EngineEvent) → input_total (xs ++ ys) ≡ input_total xs + input_total ys
unfolding input_total
input_total-append [] ys = omega arith
input_total-append (usage_delta i o ∷ xs) ys = ground (arith, input_total-append xs ys)
input_total-append (_ ∷ xs) ys = input_total-append xs ys

pub output_total-append :
    (xs ys : List EngineEvent) → output_total (xs ++ ys) ≡ output_total xs + output_total ys
unfolding output_total
output_total-append [] ys = omega arith
output_total-append (usage_delta i o ∷ xs) ys = ground (arith, output_total-append xs ys)
output_total-append (_ ∷ xs) ys = output_total-append xs ys

terminal_count-child_sink : (evs : List EngineEvent) → terminal_count (child_sink evs) ≡ 0
unfolding terminal_count
terminal_count-child_sink [] = refl
terminal_count-child_sink (terminal c e ∷ evs) = terminal_count-child_sink evs
terminal_count-child_sink (_ ∷ evs) = terminal_count-child_sink evs

input_total-child_sink : (evs : List EngineEvent) → input_total (child_sink evs) ≡ input_total evs
unfolding input_total
input_total-child_sink [] = refl
input_total-child_sink (usage_delta i o ∷ evs) = ap (λ n. i + n) (input_total-child_sink evs)
input_total-child_sink (_ ∷ evs) = input_total-child_sink evs

output_total-child_sink :
    (evs : List EngineEvent) → output_total (child_sink evs) ≡ output_total evs
unfolding output_total
output_total-child_sink [] = refl
output_total-child_sink (usage_delta i o ∷ evs) = ap (λ n. o + n) (output_total-child_sink evs)
output_total-child_sink (_ ∷ evs) = output_total-child_sink evs

terminal_count-child_end :
    (run_id : Text) (k : Kernel) (o : Outcome (RunOutcome Kernel))
    → terminal_count (child_end run_id k o).progress ≡ 0
unfolding child_end terminal_count
terminal_count-child_end run_id k (throws m) = refl
terminal_count-child_end run_id k (ok out) =
    terminal_count-append (child_sink out.sink) (child_settled run_id out.result.cause ∷ [])
    ∙ ap (λ n. n + 0) (terminal_count-child_sink out.sink)

-- Whatever a sub-task's own run does, and however deep it delegates, what it adds to the stream of its
-- parent has no terminal event: a sub-run never settles its parent.
pub delegate-terminal_count :
    (uuid : ℕ → Text) (regs : Registries) (room : ℕ) (owner_id : Option Text) (parent : Text)
    (req : DelegateRequest) (k : Kernel)
    → terminal_count (delegate uuid regs room owner_id parent req k).progress ≡ 0
unfolding delegate child_run
delegate-terminal_count uuid regs zero owner_id parent req k = unfold terminal_count in refl
delegate-terminal_count uuid regs (suc room) owner_id parent req k =
    let found = child_session uuid parent req (record k { uuids = suc k.uuids }) in
    let run_id = uuid k.uuids in
    let ready = ensure_in regs (child_config found.1 run_id owner_id req) found.0 in
    elim (Outcome-cases ready.1) [
      | inr (m, e) ↦
          rw (e, delegate, child_run) (terminal_count-child_end run_id ready.0 (throws m))
      | inl (h, e) ↦ rw (e, delegate, child_run) (terminal_count-child_end run_id ready.0 _)
    ]

input_total-child_end :
    (run_id : Text) (k : Kernel) (out : RunOutcome Kernel)
    → input_total (child_end run_id k (ok out)).progress ≡ input_total out.sink
unfolding child_end input_total
input_total-child_end run_id k out = ground (
  arith,
  input_total-append (child_sink out.sink) (child_settled run_id out.result.cause ∷ []),
  input_total-child_sink out.sink,
)

output_total-child_end :
    (run_id : Text) (k : Kernel) (out : RunOutcome Kernel)
    → output_total (child_end run_id k (ok out)).progress ≡ output_total out.sink
unfolding child_end output_total
output_total-child_end run_id k out = ground (
  arith,
  output_total-append (child_sink out.sink) (child_settled run_id out.result.cause ∷ []),
  output_total-child_sink out.sink,
)

-- When the workspace of a sub-task is found and its run ends, with whatever delegator under it, the
-- tokens of what it adds to the stream of its parent add up to the usage of the sub-run's own result:
-- no usage is lost and none is counted twice. The result that the parent gets has the cause, the text
-- and the error of the sub-run.
pub child_run_rolls_up :
    (uuid : ℕ → Text) (regs : Registries)
    (deeper : Text → DelegateRequest → Kernel → Delegated Kernel) (depth : ℕ)
    (owner_id : Option Text) (req : DelegateRequest) (run_id session_id : Text) (k : Kernel)
    (h : EnvironmentHandle) (out : RunOutcome Kernel)
    → (ensure_in regs (child_config session_id run_id owner_id req) k).1 ≡ ok h
    → run_router preview_port regs
        (record { depth = depth; catalog = describe_topologies regs })
        (deeper session_id)
        (child_args session_id run_id req h)
        (ensure_in regs (child_config session_id run_id owner_id req) k).0
      ≡ ok out
    → (input_total (child_run uuid regs deeper depth owner_id req run_id session_id k).progress
        ≡ out.result.usage.input_tokens)
      × (output_total (child_run uuid regs deeper depth owner_id req run_id session_id k).progress
          ≡ out.result.usage.output_tokens)
      × ((child_run uuid regs deeper depth owner_id req run_id session_id k).result ≡ record {
        cause = out.result.cause;
        final_text = out.result.final_text;
        error = out.result.error;
      })
unfolding child_run
child_run_rolls_up uuid regs deeper depth owner_id req run_id session_id k h out e f =
    let found = ensure_in regs (child_config session_id run_id owner_id req) k in
    let s =
      run_router-IsSettled preview_port regs _ (deeper session_id)
        (child_args session_id run_id req h) found.0 out f in
    let same = s.summarises done in
    rw (e, child_run, f)
      (
        input_total-child_end run_id found.0 out
            ∙ sym (ap (λ (r : RunResult). r.usage.input_tokens) same),
        output_total-child_end run_id found.0 out
            ∙ sym (ap (λ (r : RunResult). r.usage.output_tokens) same),
        unfold child_end in refl,
      )
