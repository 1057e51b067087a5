-- ===== src/Examples/Streams.antt =====
-- Runs of the theorems on the streams of src/kernel/settlement.ts, src/kernel/orchestrator.ts,
-- src/harnesses/_shared/harnessRuntime.ts and apps/next/src/core/kernelTranslator.ts.
use modular_agentic_system.Base.{
  ℕ, ◌≡◌, ◌≤◌, refl, List, [], ◌∷◌, ◌++◌, none, some, codes, arith, max, ◌==◌,
}
use modular_agentic_system.Base.Map
use modular_agentic_system.Base.Outcome.{ok}
use modular_agentic_system.Adapter.{UsageMeter}
use modular_agentic_system.Events.{
  EngineEvent, stream_chunk, usage_delta, final_text, terminal, child_started, child_settled, done,
  error, cancelled, agent_as_tool,
}
use modular_agentic_system.Examples.Fixtures.{args, registries, speaker, says}
use modular_agentic_system.Harness.{RunContext, DelegateRequest}
use modular_agentic_system.Kernel.Brackets.{read}
use modular_agentic_system.Orchestrator.{
  RunArgs, RunOutcome, PreviewPort, Delegated, run_leaf, run_router, run_harness, task_of, kit_for,
  conclude, exec, emit, emit_all, after_silence, after_throw, terminate, preview_effect,
}
use modular_agentic_system.Orchestrator.Leaf.{run_leaf_stream, emitted, closing}
use modular_agentic_system.Orchestrator.Stream.{IsSettled, run_router-IsSettled}
use modular_agentic_system.Preview.{PreviewRegistry}
use modular_agentic_system.Registry.{resolve, ToolKit, build_kit, resolve_all}
use modular_agentic_system.Settlement
use modular_agentic_system.Settlement.{
  Settlement, RunResult, settle, observe, observe_all, snapshot,
}
use modular_agentic_system.Settlement.Refine.{summarise, settle-summarise}
use modular_agentic_system.Settlement.Spec.{
  terminal_count, input_total, output_total, chunks, last_final, first_terminal,
}
use modular_agentic_system.Topology.{chosen, resolve_topology, hostable_topology}

abbrev talk : List EngineEvent
talk =
    stream_chunk (codes "hi") ∷ terminal cancelled none ∷ usage_delta 3 4 ∷ terminal done none ∷ []

settle-summarise_example :
    (settle error none (observe_all talk (Settlement.new (codes "r")))).1
    ≡ summarise (codes "r") error talk
settle-summarise_example = settle-summarise (codes "r") error talk

-- The state around a run, for a run by itself.
abbrev port : PreviewPort PreviewRegistry
port = record { update = λ f r. f r }

abbrev leaf_args : RunArgs
leaf_args = record args { harness_ref = codes "speaker" }

known : resolve (codes "harness") (codes "speaker") registries.harnesses ≡ ok speaker
unfolding resolve Map.get ◌==◌
known = refl

runnable :
    resolve_topology speaker.capabilities (some leaf_args.handle.capabilities) leaf_args.topology
    ≡ chosen agent_as_tool
unfolding resolve_topology hostable_topology
runnable = refl

abbrev no_kit : ToolKit
no_kit = record { tools = []; skills = []; native_tool_refs = []; native_skill_refs = [] }

built : kit_for registries speaker.capabilities (task_of leaf_args agent_as_tool) ≡ ok no_kit
unfolding kit_for task_of build_kit resolve_all
built = refl

run_leaf_stream_example :
    (out : RunOutcome PreviewRegistry) × (run_leaf port registries leaf_args [] ≡ ok out)
    × (out.sink ≡ emitted says ++ closing says)
    × (terminal_count out.sink ≡ max 1 (terminal_count (emitted says)))
run_leaf_stream_example =
    run_leaf_stream port registries leaf_args [] speaker agent_as_tool no_kit known runnable built

abbrev spoken_events : List EngineEvent
spoken_events =
    stream_chunk (codes "hi") ∷ usage_delta 3 4 ∷ final_text (codes "ok") ∷ terminal done none ∷ []

abbrev outcome : RunOutcome PreviewRegistry
outcome = record {
  world = [];
  sink = spoken_events;
  result = summarise (codes "r") done spoken_events;
}

-- Without delegation, the delegator has nothing to do.
abbrev idle_delegator : DelegateRequest → PreviewRegistry → Delegated PreviewRegistry
idle_delegator req w = record {
  world = w;
  progress = [];
  result = record { cause = done; final_text = []; error = none };
}

abbrev context : RunContext
context = record { depth = 0; catalog = record { harnesses = []; environments = [] } }

ran_router : run_router port registries context idle_delegator args [] ≡ ok outcome
unfolding run_router run_harness resolve_topology hostable_topology resolve Map.get ◌==◌ kit_for
    task_of build_kit resolve_all exec emit emit_all conclude observe settle Settlement.new snapshot
    after_silence after_throw terminate preview_effect input_total output_total chunks last_final
    first_terminal
ran_router = refl

run_router-IsSettled_example :
    IsSettled (codes "r") spoken_events (summarise (codes "r") done spoken_events)
run_router-IsSettled_example =
    run_router-IsSettled port registries context idle_delegator args [] outcome ran_router

abbrev nested : List EngineEvent
nested =
    stream_chunk (codes "a")
    ∷ child_started (codes "c")
    ∷ stream_chunk (codes "x")
    ∷ usage_delta 3 4
    ∷ child_settled (codes "c") done
    ∷ stream_chunk (codes "b")
    ∷ terminal done none
    ∷ []

one_terminal : terminal_count nested ≤ 1
unfolding terminal_count
one_terminal = omega arith

well_nested : read 2 nested [] ≡ some []
unfolding read ◌==◌
well_nested = refl

abbrev meter : UsageMeter
meter = record { input_tokens = 2; output_tokens = 0 }

abbrev readings : List (ℕ × ℕ)
readings = (5, 1) ∷ (4, 3) ∷ []
