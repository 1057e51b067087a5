-- ===== src/Orchestrator/World.antt =====
-- What a run of src/kernel/orchestrator.ts keeps of the state around it.
use modular_agentic_system.Base.{
  ◌≡◌, refl, List, [], ◌∷◌, Option, none, some, Text, codes, arith, inl, inr, if_elim,
}
use modular_agentic_system.Base.Outcome.{ok, Outcome-cases}
use modular_agentic_system.Events.{EngineEvent, error}
use modular_agentic_system.Harness.{
  HarnessRun, returned, threw, emits, delegates, DelegateRequest, RunTask, RunContext, Harness,
}
use modular_agentic_system.Orchestrator.{
  Registries, RunArgs, PreviewPort, Pump, RunOutcome, Delegated, Left, emit, emit_all, exec,
  terminate, reject, final_cause, after_throw, after_silence, conclude, task_of, kit_for,
  run_harness, run_leaf, run_router,
}
use modular_agentic_system.Preview.{PreviewRegistry}
use modular_agentic_system.Registry.{ToolKit, resolve}
use modular_agentic_system.Settlement
use modular_agentic_system.Topology.{chosen, unsupported, resolve_topology, TopologyDecision}

-- `P` is kept by changes of the preview state.
module _ {W : Type 0} (port : PreviewPort W) (P : W → Type 0)
    (keeps : (f : PreviewRegistry → PreviewRegistry) (w : W) → P w → P (port.update f w)) where
  emit_all_keeps :
      (id : Text) (evs : List EngineEvent) (p : Pump W)
      → P p.world
      → P (emit_all port id evs p).world
  unfolding emit_all emit
  emit_all_keeps id [] p h = h
  emit_all_keeps id (ev ∷ evs) p h = emit_all_keeps id evs (emit port id ev p) (keeps _ p.world h)

  exec_keeps :
      {R : Type 0} (id : Text) (delegator : R → W → Delegated W)
      → ((req : R) (w : W) → P w → P (delegator req w).world)
      → (r : HarnessRun R) (p : Pump W) → P p.world
      → P (exec port id delegator r p).pump.world
  unfolding exec emit
  exec_keeps id delegator g (returned aborted) p h = h
  exec_keeps id delegator g (threw message aborted) p h = h
  exec_keeps id delegator g (emits ev rest) p h =
      exec_keeps id delegator g rest (emit port id ev p) (keeps _ p.world h)
  exec_keeps id delegator g (delegates req rest) p h =
      let d = delegator req p.world in
      exec_keeps id delegator g (rest d.result)
        (emit_all port id d.progress (record p { world = d.world }))
        (emit_all_keeps id d.progress (record p { world = d.world }) (g req p.world h))

  conclude_keeps : (l : Left W) → P l.pump.world → P (conclude l).world
  unfolding conclude after_silence after_throw terminate
  conclude_keeps l h =
      if_elim (λ (p : Pump W). P p.world) (after_throw l.thrown l.pump).settlement.settled
        (after_throw l.thrown l.pump)
        (terminate (final_cause l.aborted) none (after_throw l.thrown l.pump))
        (λ q. thrown l.thrown) (λ q. thrown l.thrown)
    where
      thrown : (o : Option Text) → P (after_throw o l.pump).world
      thrown none = h
      thrown (some m) =
          if_elim (λ (p : Pump W). P p.world) l.pump.settlement.settled l.pump
            (terminate error _ l.pump) (λ q. h) (λ q. h)

  run_harness_keeps :
      (regs : Registries) (args : RunArgs) (harness : Harness)
      (play : RunTask → ToolKit → Pump W → Left W) (w : W)
      → ((task : RunTask) (kit : ToolKit) (p : Pump W) → P p.world → P (play task kit p).pump.world)
      → P w
      → P (run_harness regs args harness play w).world
  unfolding run_harness reject terminate
  run_harness_keeps regs args harness play w g h =
      split (resolve_topology harness.capabilities (some args.handle.capabilities) args.topology)
        refl
    where
      fresh : Pump W
      fresh = record { settlement = Settlement.new args.run_id; world = w; sink = [] }

      split :
          (d : TopologyDecision)
          → resolve_topology harness.capabilities (some args.handle.capabilities) args.topology ≡ d
          → P (run_harness regs args harness play w).world
      split (unsupported message) e = rw (e, run_harness) h
      split (chosen t) e =
          elim (Outcome-cases (kit_for regs harness.capabilities (task_of args t))) [
            | inr (m, f) ↦ rw (e, run_harness, f) h
            | inl (kit, f) ↦
                rw (e, run_harness, f)
                  (conclude_keeps (play (task_of args t) kit fresh)
                    (g (task_of args t) kit fresh h))
          ]

  pub run_router_keeps :
      (regs : Registries) (ctx : RunContext) (delegator : DelegateRequest → W → Delegated W)
      (args : RunArgs) (w : W) (out : RunOutcome W)
      → ((req : DelegateRequest) (w' : W) → P w' → P (delegator req w').world)
      → run_router port regs ctx delegator args w ≡ ok out
      → P w
      → P out.world
  unfolding run_router
  run_router_keeps regs ctx delegator args w out g e h =
      elim (Outcome-cases (resolve (codes "harness") args.harness_ref regs.harnesses)) [
        | inr (m, f) ↦ absurd (ground arith)
        | inl (harness, f) ↦
            let play = λ (task : RunTask) (kit : ToolKit) (p : Pump W).
              exec port args.session_id delegator (harness.run_router ctx task args.handle kit) p in
            let same : run_harness regs args harness play w ≡ out = ground arith in
            rw (← same) (
              run_harness_keeps regs args harness play w
                (λ task kit p q.
                  exec_keeps args.session_id delegator g
                    (harness.run_router ctx task args.handle kit) p q)
                h)
      ]

  pub run_leaf_keeps :
      (regs : Registries) (args : RunArgs) (w : W) (out : RunOutcome W)
      → run_leaf port regs args w ≡ ok out
      → P w
      → P out.world
  unfolding run_leaf
  run_leaf_keeps regs args w out e h =
      elim (Outcome-cases (resolve (codes "harness") args.harness_ref regs.harnesses)) [
        | inr (m, f) ↦ absurd (ground arith)
        | inl (harness, f) ↦
            let play = λ (task : RunTask) (kit : ToolKit) (p : Pump W).
              exec port args.session_id (λ r w'. absurd r) (harness.run_leaf task args.handle kit)
                p in
            let same : run_harness regs args harness play w ≡ out = ground arith in
            rw (← same) (
              run_harness_keeps regs args harness play w
                (λ task kit p q.
                  exec_keeps args.session_id (λ r w'. absurd r) (λ r w' q'. absurd r)
                    (harness.run_leaf task args.handle kit) p q)
                h)
      ]
