-- ===== src/Kernel/Nesting.antt =====
-- How the events of sub-runs stand in the stream of src/kernel/index.ts.
use modular_agentic_system.Base.{
  ℕ, zero, suc, ◌+◌, ◌-◌, ◌≤◌, ◌≡◌, refl, ◌∙◌, List, [], ◌∷◌, Option, none, some, Text, codes,
  eq_refl, length, arith, if_elim, inl, inr,
}
use modular_agentic_system.Base.Outcome.{Outcome, ok, throws, Outcome-cases}
use modular_agentic_system.Environment.{EnvironmentHandle}
use modular_agentic_system.Events.{child_settled, terminal, TerminalCause, error, ErrorInfo}
use modular_agentic_system.Harness.{
  HarnessRun, returned, threw, emits, delegates, DelegateRequest, RunTask, RunContext, Harness,
  HarnessEnvCatalog,
}
use modular_agentic_system.Kernel.{Kernel, max_delegation_depth, preview_port}
use modular_agentic_system.Kernel.Delegation.{
  child_sink, child_session, ensure_in, child_config, child_end, child_run, delegate,
}
use modular_agentic_system.Orchestrator.{
  Registries, RunArgs, PreviewPort, Pump, RunOutcome, Delegated, Left, emit, emit_all, exec,
  terminate, reject, final_cause, after_throw, after_silence, conclude, task_of, kit_for,
  run_harness, run_router,
}
use modular_agentic_system.Registry.{ToolKit, resolve}
use modular_agentic_system.Settlement
use modular_agentic_system.Topology.{chosen, unsupported, resolve_topology, TopologyDecision}
use modular_agentic_system.Kernel.Brackets.{
  read, IsQuiet, IsNested, IsNested-append, read-append, read_own, read-child_sink, emit_all-sink,
}

module _ {W : Type 0} (limit : ℕ) (s : List Text) where
  exec-IsNested :
      {R : Type 0} (port : PreviewPort W) (k : Text) (delegator : R → W → Delegated W)
      → ((req : R) (w : W) → IsNested limit (delegator req w).progress s)
      → (r : HarnessRun R) (p : Pump W) → IsQuiet r
      → IsNested limit p.sink s
      → IsNested limit (exec port k delegator r p).pump.sink s
  unfolding exec
  exec-IsNested port k delegator g (returned aborted) p q h = h
  exec-IsNested port k delegator g (threw message aborted) p q h = h
  exec-IsNested port k delegator g (emits ev rest) p q h =
      exec-IsNested port k delegator g rest (emit port k ev p) q.1
        (unfold emit in IsNested-append limit s p.sink (ev ∷ []) h (read_own limit ev s q.0))
  exec-IsNested port k delegator g (delegates req rest) p q h =
      let d = delegator req p.world in
      exec-IsNested port k delegator g (rest d.result)
        (emit_all port k d.progress (record p { world = d.world })) (q d.result)
        (rw (emit_all-sink port k d.progress (record p { world = d.world }))
          (IsNested-append limit s p.sink d.progress h (g req p.world)))

  terminate-IsNested :
      (cause : TerminalCause) (why : Option ErrorInfo) (p : Pump W)
      → IsNested limit p.sink s
      → IsNested limit (terminate cause why p).sink s
  unfolding terminate
  terminate-IsNested cause why p h =
      IsNested-append limit s p.sink (terminal cause why ∷ []) h
        (read_own limit (terminal cause why) s tt)

  conclude-IsNested :
      (l : Left W) → IsNested limit l.pump.sink s → IsNested limit (conclude l).sink s
  unfolding conclude after_silence
  conclude-IsNested l h =
      if_elim (λ (p : Pump W). IsNested limit p.sink s)
        (after_throw l.thrown l.pump).settlement.settled (after_throw l.thrown l.pump) _
        (λ q. thrown l.thrown)
        (λ q.
          terminate-IsNested (final_cause l.aborted) none (after_throw l.thrown l.pump)
            (thrown l.thrown))
    where
      thrown : (o : Option Text) → IsNested limit (after_throw o l.pump).sink s
      thrown none = unfold after_throw in h
      thrown (some m) =
          unfold after_throw in
          if_elim (λ (p : Pump W). IsNested limit p.sink s) l.pump.settlement.settled l.pump _
            (λ q. h) (λ q. terminate-IsNested error _ l.pump h)

  run_harness-IsNested :
      (regs : Registries) (args : RunArgs) (harness : Harness)
      (play : RunTask → ToolKit → Pump W → Left W) (w : W)
      → ((task : RunTask) (kit : ToolKit) (p : Pump W)
          → IsNested limit p.sink s
          → IsNested limit (play task kit p).pump.sink s)
      → IsNested limit (run_harness regs args harness play w).sink s
  unfolding run_harness reject
  run_harness-IsNested regs args harness play w keeps =
      split (resolve_topology harness.capabilities (some args.handle.capabilities) args.topology)
        refl
    where
      fresh : Pump W
      fresh = record { settlement = Settlement.new args.run_id; world = w; sink = [] }

      start : IsNested limit fresh.sink s
      start = unfold read in refl

      split :
          (d : TopologyDecision)
          → resolve_topology harness.capabilities (some args.handle.capabilities) args.topology ≡ d
          → IsNested limit (run_harness regs args harness play w).sink s
      split (unsupported message) e = rw (e, run_harness) (terminate-IsNested error _ fresh start)
      split (chosen t) e =
          elim (Outcome-cases (kit_for regs harness.capabilities (task_of args t))) [
            | inr (m, f) ↦ rw (e, run_harness, f) (terminate-IsNested error _ fresh start)
            | inl (kit, f) ↦
                rw (e, run_harness, f)
                  (conclude-IsNested (play (task_of args t) kit fresh)
                    (keeps (task_of args t) kit fresh start))
          ]

-- Every harness of the registry leaves the events of sub-runs to the delegator.
abbrev pub IsQuietRegistry : Registries → Type 0
IsQuietRegistry regs =
    (ref : Text) (h : Harness)
    → resolve (codes "harness") ref regs.harnesses ≡ ok h
    → (ctx : RunContext) (task : RunTask) (e : EnvironmentHandle) (kit : ToolKit)
    → IsQuiet (h.run_router ctx task e kit)

run_router-IsNested :
    {W : Type 0} (limit : ℕ) (s : List Text) (port : PreviewPort W) (regs : Registries)
    (ctx : RunContext) (delegator : DelegateRequest → W → Delegated W) (args : RunArgs) (w : W)
    (out : RunOutcome W)
    → IsQuietRegistry regs
    → ((req : DelegateRequest) (w' : W) → IsNested limit (delegator req w').progress s)
    → run_router port regs ctx delegator args w ≡ ok out
    → IsNested limit out.sink s
unfolding run_router
run_router-IsNested limit s port regs ctx delegator args w out quiet g e =
    elim (Outcome-cases (resolve (codes "harness") args.harness_ref regs.harnesses)) [
      | inr (m, f) ↦ absurd (ground arith)
      | inl (harness, f) ↦
          let play = λ (task : RunTask) (kit : ToolKit) (p : Pump _).
            exec port args.session_id delegator (harness.run_router ctx task args.handle kit) p in
          let same : run_harness regs args harness play w ≡ out = ground arith in
          rw (← same) (
            run_harness-IsNested limit s regs args harness play w (λ task kit p h.
              exec-IsNested limit s port args.session_id delegator g
                (harness.run_router ctx task args.handle kit) p
                (quiet args.harness_ref harness f ctx task args.handle kit) h))
    ]

child_end-IsNested :
    (limit : ℕ) (s : List Text) (run_id : Text) (k : Kernel) (o : Outcome (RunOutcome Kernel))
    → suc (length s) ≤ limit
    → ((out : RunOutcome Kernel) → o ≡ ok out → IsNested limit out.sink (run_id ∷ s))
    → IsNested limit (child_end run_id k o).progress s
unfolding child_end read
child_end-IsNested limit s run_id k (throws m) room h = ground (arith, eq_refl run_id)
child_end-IsNested limit s run_id k (ok out) room h = ground (
  arith,
  read-append limit (child_sink out.sink) (child_settled run_id out.result.cause ∷ []) (run_id ∷ s)
      (run_id ∷ s) (read-child_sink limit out.sink (run_id ∷ s) ∙ h out refl),
  eq_refl run_id,
)

-- The run of a sub-task under the open runs `s`, when what its own delegator adds is nested.
child_run-IsNested :
    (uuid : ℕ → Text) (regs : Registries) (limit depth : ℕ) (s : List Text)
    (deeper : Text → DelegateRequest → Kernel → Delegated Kernel) (owner_id : Option Text)
    (req : DelegateRequest) (run_id session_id : Text) (k : Kernel)
    → IsQuietRegistry regs
    → suc (length s) ≤ limit
    → ((req' : DelegateRequest) (k' : Kernel)
        → IsNested limit (deeper session_id req' k').progress (run_id ∷ s))
    → IsNested limit (child_run uuid regs deeper depth owner_id req run_id session_id k).progress s
unfolding child_run
child_run-IsNested uuid regs limit depth s deeper owner_id req run_id session_id k quiet room g =
    let found = ensure_in regs (child_config session_id run_id owner_id req) k in
    elim (Outcome-cases found.1) [
      | inr (m, e) ↦
          rw (e, child_run)
            (child_end-IsNested limit s run_id found.0 (throws m) room
              (λ out h. absurd (ground arith)))
      | inl (h, e) ↦
          rw (e, child_run)
            (child_end-IsNested limit s run_id found.0 _ room (λ out f.
              run_router-IsNested limit (run_id ∷ s) preview_port regs _ (deeper session_id) _
                found.0 out quiet g f))
    ]

pub delegate-IsNested :
    (uuid : ℕ → Text) (regs : Registries) (limit room : ℕ) (owner_id : Option Text)
    → IsQuietRegistry regs
    → (s : List Text) (parent : Text) (req : DelegateRequest) (k : Kernel) → length s + room ≤ limit
    → IsNested limit (delegate uuid regs room owner_id parent req k).progress s
unfolding delegate
delegate-IsNested uuid regs limit zero owner_id quiet s parent req k fits = unfold read in refl
delegate-IsNested uuid regs limit (suc room) owner_id quiet s parent req k fits =
    let found = child_session uuid parent req (record k { uuids = suc k.uuids }) in
    child_run-IsNested uuid regs limit (max_delegation_depth - room) s
      (delegate uuid regs room owner_id) owner_id req (uuid k.uuids) found.1 found.0 quiet
      (omega arith)
      (λ req' k'.
        delegate-IsNested uuid regs limit room owner_id quiet (uuid k.uuids ∷ s) found.1 req' k'
          (ground arith))

-- The stream of a router harness's run at depth 0 with the kernel's delegator, when every harness waits for
-- a delegation to end before it goes on (so that none overlap), and no harness of the registry emits events
-- of sub-runs itself: these are well bracketed, each start of a sub-run followed by its end, an end that of
-- the innermost sub-run that is open, nothing left open, and at most `max_delegation_depth` sub-runs open at
-- the same time.
pub delegations-IsNested :
    (uuid : ℕ → Text) (regs : Registries) (owner_id : Option Text) (session_id : Text)
    (catalog : HarnessEnvCatalog) (args : RunArgs) (k : Kernel) (out : RunOutcome Kernel)
    → IsQuietRegistry regs
    → run_router preview_port regs
        (record { depth = 0; catalog = catalog })
        (delegate uuid regs max_delegation_depth owner_id session_id)
        args
        k
      ≡ ok out
    → IsNested max_delegation_depth out.sink []
delegations-IsNested uuid regs owner_id session_id catalog args k out quiet e =
    run_router-IsNested max_delegation_depth [] preview_port regs _ _ args k out quiet
      (λ req k'.
        delegate-IsNested uuid regs max_delegation_depth max_delegation_depth owner_id quiet []
          session_id req k' (ground arith))
      e
