-- ===== src/Orchestrator/Stream.antt =====
-- What the sink of a run of src/kernel/orchestrator.ts gets, and the result against it.
use modular_agentic_system.Base.{
  ◌≡◌, refl, sym, ap, ◌∙◌, Bool, true, List, [], ◌∷◌, ◌++◌, Option, none, some, Text, codes, arith,
  if_elim, Option-cases, inl, inr,
}
use modular_agentic_system.Base.Outcome.{ok, Outcome-cases}
use modular_agentic_system.Events.{EngineEvent, terminal, TerminalCause, error, ErrorInfo}
use modular_agentic_system.Harness.{
  HarnessRun, returned, threw, emits, delegates, DelegateRequest, RunTask, RunContext, Harness,
}
use modular_agentic_system.Orchestrator.{
  Registries, RunArgs, PreviewPort, Pump, RunOutcome, Delegated, Left, emit, emit_all, exec,
  terminate, reject, final_cause, after_throw, after_silence, conclude, task_of, kit_for,
  run_harness, run_leaf, run_router,
}
use modular_agentic_system.Registry.{ToolKit, resolve}
use modular_agentic_system.Settlement
use modular_agentic_system.Settlement.{Settlement, RunResult, settle, observe, observe_all}
use modular_agentic_system.Settlement.Refine.{
  summarise, observe_all-after, settle-summarise, is_there,
}
use modular_agentic_system.Settlement.Spec.{first_terminal}
use modular_agentic_system.Topology.{chosen, unsupported, resolve_topology, TopologyDecision}

observe_all-append :
    (xs : List EngineEvent) (ev : EngineEvent) (s : Settlement)
    → observe_all (xs ++ (ev ∷ [])) s ≡ (observe ev (observe_all xs s)).0
unfolding observe_all
observe_all-append [] ev s = refl
observe_all-append (x ∷ xs) ev s = observe_all-append xs ev (observe x s).0

-- The result is the summary of the sink, which has a terminal, whose cause and error it bears.
pub record IsSettled (run_id : Text) (sink : List EngineEvent) (r : RunResult) : Type 0 where
  pub terminates : first_terminal sink ≡ some (r.cause, r.error)
  pub summarises : (fallback : TerminalCause) → r ≡ summarise run_id fallback sink

summarise-IsSettled :
    (run_id : Text) (cause : TerminalCause) (evs : List EngineEvent)
    → is_there (first_terminal evs) ≡ true
    → IsSettled run_id evs (summarise run_id cause evs)
summarise-IsSettled run_id cause evs h = elim (Option-cases (first_terminal evs)) [
  | inl e ↦ absurd (ground arith)
  | inr (t, e) ↦ record { terminates = ground arith; summarises = λ f. ground arith }
]

module _ {W : Type 0} (run_id : Text) where
  -- The settlement has seen what the sink has had.
  abbrev pub Tracks : Pump W → Type 0
  Tracks p = p.settlement ≡ observe_all p.sink (Settlement.new run_id)

  emit-Tracks :
      (port : PreviewPort W) (k : Text) (ev : EngineEvent) (p : Pump W)
      → Tracks p
      → Tracks (emit port k ev p)
  unfolding emit
  emit-Tracks port k ev p h = rw h (sym (observe_all-append p.sink ev (Settlement.new run_id)))

  emit_all-Tracks :
      (port : PreviewPort W) (k : Text) (evs : List EngineEvent) (p : Pump W)
      → Tracks p
      → Tracks (emit_all port k evs p)
  unfolding emit_all
  emit_all-Tracks port k [] p h = h
  emit_all-Tracks port k (ev ∷ evs) p h =
      emit_all-Tracks port k evs (emit port k ev p) (emit-Tracks port k ev p h)

  pub exec-Tracks :
      {R : Type 0} (port : PreviewPort W) (k : Text) (delegate : R → W → Delegated W)
      (r : HarnessRun R) (p : Pump W)
      → Tracks p
      → Tracks (exec port k delegate r p).pump
  unfolding exec
  exec-Tracks port k delegate (returned aborted) p h = h
  exec-Tracks port k delegate (threw message aborted) p h = h
  exec-Tracks port k delegate (emits ev rest) p h =
      exec-Tracks port k delegate rest (emit port k ev p) (emit-Tracks port k ev p h)
  exec-Tracks port k delegate (delegates req rest) p h =
      let d = delegate req p.world in
      exec-Tracks port k delegate (rest d.result)
        (emit_all port k d.progress (record p { world = d.world }))
        (emit_all-Tracks port k d.progress (record p { world = d.world }) h)

  terminate-Tracks :
      (cause : TerminalCause) (why : Option ErrorInfo) (p : Pump W)
      → Tracks p
      → Tracks (terminate cause why p)
  unfolding terminate
  terminate-Tracks cause why p h =
      rw h (sym (observe_all-append p.sink (terminal cause why) (Settlement.new run_id)))

  -- A settled pump has had a terminal.
  pub settled-first_terminal :
      (p : Pump W) → Tracks p → p.settlement.settled ≡ is_there (first_terminal p.sink)
  unfolding Settlement.new
  settled-first_terminal p h =
      rw h (ap (λ (s : Settlement). s.settled) (observe_all-after p.sink (Settlement.new run_id)))

  settle-IsSettled :
      (cause : TerminalCause) (p : Pump W)
      → Tracks p
      → p.settlement.settled ≡ true
      → IsSettled run_id p.sink (settle cause none p.settlement).1
  settle-IsSettled cause p h q =
      rw (h, settle-summarise run_id cause p.sink)
        (summarise-IsSettled run_id cause p.sink (sym (settled-first_terminal p h) ∙ q))

  terminate_settles :
      (cause : TerminalCause) (why : Option ErrorInfo) (p : Pump W)
      → (terminate cause why p).settlement.settled ≡ true
  unfolding terminate observe settle
  terminate_settles cause why p = ground arith

  reject-IsSettled :
      (code message : Text) (p : Pump W)
      → Tracks p
      → IsSettled run_id (reject code message p).sink (reject code message p).result
  unfolding reject
  reject-IsSettled code message p h =
      settle-IsSettled error (terminate error (some (record { code = code; message = message })) p)
        (terminate-Tracks error _ p h) (terminate_settles error _ p)

  after_throw-Tracks :
      (thrown : Option Text) (p : Pump W) → Tracks p → Tracks (after_throw thrown p)
  unfolding after_throw
  after_throw-Tracks none p h = h
  after_throw-Tracks (some m) p h =
      if_elim Tracks p.settlement.settled p _ (λ q. h) (λ q. terminate-Tracks error _ p h)

  after_silence_settles :
      (aborted : Bool) (p : Pump W)
      → Tracks p
      → Tracks (after_silence aborted p) × ((after_silence aborted p).settlement.settled ≡ true)
  unfolding after_silence
  after_silence_settles aborted p h =
      if_elim (λ p'. Tracks p' × (p'.settlement.settled ≡ true)) p.settlement.settled p
        (terminate (final_cause aborted) none p) (λ q. (h, q))
        (λ q. (
          terminate-Tracks (final_cause aborted) none p h,
          terminate_settles (final_cause aborted) none p,
        ))

  conclude-IsSettled :
      (l : Left W) → Tracks l.pump → IsSettled run_id (conclude l).sink (conclude l).result
  unfolding conclude
  conclude-IsSettled l h =
      let (t, q) =
        after_silence_settles l.aborted (after_throw l.thrown l.pump)
          (after_throw-Tracks l.thrown l.pump h) in
      settle-IsSettled (final_cause l.aborted)
        (after_silence l.aborted (after_throw l.thrown l.pump)) t q

run_harness-IsSettled :
    {W : Type 0} (regs : Registries) (args : RunArgs) (harness : Harness)
    (play : RunTask → ToolKit → Pump W → Left W) (w : W)
    → ((task : RunTask) (kit : ToolKit) (p : Pump W)
        → Tracks args.run_id p
        → Tracks args.run_id (play task kit p).pump)
    → IsSettled args.run_id
        (run_harness regs args harness play w).sink
        (run_harness regs args harness play w).result
unfolding run_harness
run_harness-IsSettled {W} regs args harness play w keeps =
    split (resolve_topology harness.capabilities (some args.handle.capabilities) args.topology) refl
  where
    fresh : Pump W
    fresh = record { settlement = Settlement.new args.run_id; world = w; sink = [] }

    tracks : Tracks args.run_id fresh
    tracks = unfold observe_all in refl

    split :
        (d : TopologyDecision)
        → resolve_topology harness.capabilities (some args.handle.capabilities) args.topology ≡ d
        → IsSettled args.run_id
            (run_harness regs args harness play w).sink
            (run_harness regs args harness play w).result
    split (unsupported message) e =
        rw (e, run_harness)
          (reject-IsSettled args.run_id (codes "unsupported_topology") message fresh tracks)
    split (chosen t) e = elim (Outcome-cases (kit_for regs harness.capabilities (task_of args t))) [
      | inr (m, f) ↦
          rw (e, run_harness, f)
            (reject-IsSettled args.run_id (codes "unknown_capability_ref") m fresh tracks)
      | inl (kit, f) ↦
          rw (e, run_harness, f)
            (conclude-IsSettled args.run_id (play (task_of args t) kit fresh)
              (keeps (task_of args t) kit fresh tracks))
    ]

-- For every registry, harness, delegator and request, a run that is not refused for an unknown
-- harness settles: its sink has a terminal event, whatever the harness emits, throws or leaves out;
-- the result bears the cause and the error of the first terminal in the sink, and is the summary of
-- the sink (usage, cost and text).
pub run_router-IsSettled :
    {W : Type 0} (port : PreviewPort W) (regs : Registries) (ctx : RunContext)
    (delegate : DelegateRequest → W → Delegated W) (args : RunArgs) (w : W) (out : RunOutcome W)
    → run_router port regs ctx delegate args w ≡ ok out
    → IsSettled args.run_id out.sink out.result
unfolding run_router
run_router-IsSettled port regs ctx delegate args w out e =
    elim (Outcome-cases (resolve (codes "harness") args.harness_ref regs.harnesses)) [
      | inr (m, f) ↦ absurd (ground arith)
      | inl (harness, f) ↦
          let play = λ (task : RunTask) (kit : ToolKit) (p : Pump _).
            exec port args.session_id delegate (harness.run_router ctx task args.handle kit) p in
          let same : run_harness regs args harness play w ≡ out = ground arith in
          rw (← same) (
            run_harness-IsSettled regs args harness play w (λ task kit p h.
              exec-Tracks args.run_id port args.session_id delegate
                (harness.run_router ctx task args.handle kit) p h))
    ]

-- The same for a harness without a delegator.
pub run_leaf-IsSettled :
    {W : Type 0} (port : PreviewPort W) (regs : Registries) (args : RunArgs) (w : W)
    (out : RunOutcome W)
    → run_leaf port regs args w ≡ ok out
    → IsSettled args.run_id out.sink out.result
unfolding run_leaf
run_leaf-IsSettled port regs args w out e =
    elim (Outcome-cases (resolve (codes "harness") args.harness_ref regs.harnesses)) [
      | inr (m, f) ↦ absurd (ground arith)
      | inl (harness, f) ↦
          let play = λ (task : RunTask) (kit : ToolKit) (p : Pump _).
            exec port args.session_id (λ r w'. absurd r) (harness.run_leaf task args.handle kit)
              p in
          let same : run_harness regs args harness play w ≡ out = ground arith in
          rw (← same) (
            run_harness-IsSettled regs args harness play w (λ task kit p h.
              exec-Tracks args.run_id port args.session_id (λ r w'. absurd r)
                (harness.run_leaf task args.handle kit) p h))
    ]
