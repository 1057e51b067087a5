-- ===== src/Examples/Messages.antt =====
-- Runs of the theorems on src/kernel/index.ts.
use modular_agentic_system.Base.{
  List, true, false, ◌≡◌, refl, ◌||◌, [], ◌∷◌, ◌++◌, none, some, Text, codes, contains,
  if◌then◌else◌, ◌==◌, arith, Bool-cases, inl, inr, subst,
}
use modular_agentic_system.Base.Map
use modular_agentic_system.Base.Outcome.{ok, throws, Outcome}
use modular_agentic_system.Examples.Fixtures.{
  handle_at, registries, config, idle, args, uuid, errand, speaker, router, says, no_sessions,
}
use modular_agentic_system.Environment.{EnvironmentHandle, provision}
use modular_agentic_system.Events.{
  done, stream_chunk, final_text, terminal, child_started, child_settled,
}
use modular_agentic_system.Kernel.Texts.{child_text_prevails}
use modular_agentic_system.Settlement
use modular_agentic_system.Settlement.{settle, observe_all}
use modular_agentic_system.Settlement.Refine.{summarise}
use modular_agentic_system.Topology.{resolve_topology, hostable_topology}
use modular_agentic_system.Prewarm.{claim}
use modular_agentic_system.Harness.{Harness, RunContext, DelegateRequest}
use modular_agentic_system.Kernel.{Kernel, preview_port, max_delegation_depth, describe_topologies}
use modular_agentic_system.Kernel.Delegation.{
  child_sink, delegate, child_run, child_config, child_args, ensure_in, child_session,
}
use modular_agentic_system.Kernel.Ending.{
  session_at, preview_at, children_at, children_of, end_session_lem,
}
use modular_agentic_system.Kernel.Message.{run_message-lock}
use modular_agentic_system.Kernel.Brackets.{IsNested, IsQuiet}
use modular_agentic_system.Kernel.Overlap.{Call, count_all, overlap, overlapping_delegations_settle}
use modular_agentic_system.Kernel.Nesting.{IsQuietRegistry, delegations-IsNested}
use modular_agentic_system.Kernel.Rollup.{child_run_rolls_up}
use modular_agentic_system.Kernel.Run.{run_message, end_session}
use modular_agentic_system.Kernel.Settles.{Settles, run_message-Settles}
use modular_agentic_system.Orchestrator.{
  RunOutcome, Delegated, run_router, run_harness, kit_for, task_of, exec, conclude,
}
use modular_agentic_system.Registry.{resolve, resolve_all, build_kit}
use modular_agentic_system.Session.{
  SessionState, ensure_workspace, claim_or_provision, provision_fresh, record_session, identity_of,
  spec_of,
}
use modular_agentic_system.Settlement.Spec.{input_total, output_total, last_final}

run_message-lock_example :
    contains
      (codes "s")
      (run_message uuid registries config (codes "build") idle).kernel.admission.active
    ≡ contains (codes "s") idle.admission.active
run_message-lock_example = run_message-lock uuid registries config (codes "build") idle (codes "s")

run_message-Settles_example : Settles (run_message uuid registries config (codes "build") idle)
run_message-Settles_example = run_message-Settles uuid registries config (codes "build") idle

abbrev state : SessionState
state = record {
  handle = handle_at 0;
  environment_ref = codes "local";
  runtime_profile = none;
  owner_id = some (codes "ann");
}

-- A session, a child of it, and a child of that.
abbrev family : Kernel
family = record idle {
  sessions = record no_sessions {
    sessions = (codes "s", state) ∷ (codes "c", state) ∷ (codes "g", state) ∷ [];
  };
  child_sessions =
      (codes "s", (codes "speaker::local", codes "c") ∷ [])
      ∷ (codes "c", (codes "speaker::local", codes "g") ∷ [])
      ∷ [];
}

end_session_lem_example :
    (session_at (codes "c") (end_session (codes "s") family) ≡ (
      if codes "s" == codes "c" || contains (codes "c") (children_of (codes "s") family)
      then none
      else session_at (codes "c") family))
    × (preview_at (codes "c") (end_session (codes "s") family) ≡ (
        if codes "s" == codes "c" || contains (codes "c") (children_of (codes "s") family)
        then none
        else preview_at (codes "c") family))
    × (children_at (codes "c") (end_session (codes "s") family)
        ≡ (if codes "s" == codes "c" then none else children_at (codes "c") family))
end_session_lem_example = end_session_lem (codes "s") (codes "c") family

speaker-IsQuiet : IsQuiet (says {R = DelegateRequest})
speaker-IsQuiet = (tt, (tt, (tt, tt)))

quiet : IsQuietRegistry registries
unfolding resolve Map.get
quiet ref h e ctx task a kit = elim (Bool-cases (codes "speaker" == ref)) [
  | inl p ↦
      let same : speaker ≡ h = ground arith in
      subst (λ (h' : Harness). IsQuiet (h'.run_router ctx task a kit)) same speaker-IsQuiet
  | inr p ↦ elim (Bool-cases (codes "router" == ref)) [
    | inl q ↦
        let same : router ≡ h = ground arith in
        subst (λ (h' : Harness). IsQuiet (h'.run_router ctx task a kit)) same (λ d. speaker-IsQuiet)
    | inr q ↦ absurd (ground arith)
  ]
]

-- What a run gave, for a run that is known to have ended.
abbrev given : Outcome (RunOutcome Kernel) → RunOutcome Kernel → RunOutcome Kernel
given (ok out) fallback = out
given (throws m) fallback = fallback

abbrev nothing : RunOutcome Kernel
nothing = record { world = idle; sink = []; result = summarise (codes "r") done [] }

abbrev context : RunContext
context = record { depth = 0; catalog = describe_topologies registries }

abbrev routed : Outcome (RunOutcome Kernel)
routed =
    run_router preview_port registries context
      (delegate uuid registries max_delegation_depth (some (codes "ann")) (codes "s")) args idle

routed_ends : routed ≡ ok (given routed nothing)
unfolding run_router run_harness resolve_topology hostable_topology resolve Map.get ◌==◌ kit_for
    task_of build_kit resolve_all exec conclude delegate child_session child_run
routed_ends = refl

delegations-IsNested_example : IsNested max_delegation_depth (given routed nothing).sink []
delegations-IsNested_example =
    delegations-IsNested uuid registries (some (codes "ann")) (codes "s")
      (describe_topologies registries) args idle (given routed nothing) quiet routed_ends

-- Two calls at the same time, the second one's events after the first of the first one's.
abbrev two_calls : List Call
two_calls =
    record {
      schedule = true ∷ false ∷ false ∷ [];
      parent = codes "s";
      request = errand;
      kernel = idle;
    }
    ∷ record {
      schedule = [];
      parent = codes "s";
      request = errand;
      kernel = record idle { uuids = 5 };
    }
    ∷ []

overlapping_delegations_settle_example :
    count_all 4 (λ id. true) (overlap uuid registries (some (codes "ann")) two_calls) 0 ≡ some 0
overlapping_delegations_settle_example =
    overlapping_delegations_settle uuid registries (some (codes "ann")) (λ id. true) two_calls quiet

abbrev ready : Kernel × Outcome EnvironmentHandle
ready = ensure_in registries (child_config (codes "c") (codes "q") (some (codes "ann")) errand) idle

found : ready.1 ≡ ok (handle_at 0)
unfolding ensure_in child_config ensure_workspace claim_or_provision provision_fresh claim provision
    resolve Map.get ◌==◌ record_session identity_of spec_of
found = refl

abbrev no_deeper : Text → DelegateRequest → Kernel → Delegated Kernel
no_deeper session_id req k = delegate uuid registries 0 none session_id req k

abbrev sub_context : RunContext
sub_context = record { depth = 1; catalog = describe_topologies registries }

abbrev sub_run : Outcome (RunOutcome Kernel)
sub_run =
    run_router preview_port registries sub_context (no_deeper (codes "c"))
      (child_args (codes "c") (codes "q") errand (handle_at 0)) ready.0

sub_run_ends : sub_run ≡ ok (given sub_run nothing)
unfolding run_router child_args resolve Map.get ◌==◌
sub_run_ends = refl

child_run_rolls_up_example :
    let d =
      child_run uuid registries no_deeper 1
        (some (codes "ann"))
        errand
        (codes "q")
        (codes "c")
        idle in
    let r = (given sub_run nothing).result in
    (input_total d.progress ≡ r.usage.input_tokens)
    × (output_total d.progress ≡ r.usage.output_tokens)
    × (d.result ≡ record { cause = r.cause; final_text = r.final_text; error = r.error })
child_run_rolls_up_example =
    child_run_rolls_up uuid registries no_deeper 1 (some (codes "ann")) errand (codes "q")
      (codes "c") idle (handle_at 0) (given sub_run nothing) found sub_run_ends

-- A parent that says something itself, around a sub-run with a final text.
child_text_prevails_example :
    (settle done none (
      observe_all
        ((stream_chunk (codes "hello") ∷ [])
          ++ (child_started (codes "c")
              ∷ (child_sink (final_text (codes "ok") ∷ terminal done none ∷ [])
                  ++ (child_settled (codes "c") done
                      ∷ stream_chunk (codes "bye")
                      ∷ terminal done none
                      ∷ []))))
        (Settlement.new (codes "r")))).1.final_text
    ≡ codes "ok"
unfolding last_final
child_text_prevails_example =
    child_text_prevails (codes "r") (codes "c") done done (stream_chunk (codes "hello") ∷ [])
      (final_text (codes "ok") ∷ terminal done none ∷ [])
      (stream_chunk (codes "bye") ∷ terminal done none ∷ []) (codes "ok") refl refl refl
