-- ===== src/Orchestrator/Leaf.antt =====
-- The event stream of a leaf run of src/kernel/orchestrator.ts, event by event.
use modular_agentic_system.Base.{
  ◌+◌, ◌≤◌, ◌≡◌, refl, sym, ap, ◌∙◌, max, Bool, true, false, List, [], ◌∷◌, ◌++◌, Option, none,
  some, Text, codes, append-nil, append_assoc, arith, if◌then◌else◌,
}
use modular_agentic_system.Base.Outcome.{ok}
use modular_agentic_system.Events.{EngineEvent, terminal, error, ExecutionTopology}
use modular_agentic_system.Harness.{HarnessRun, returned, threw, emits, delegates, RunTask, Harness}
use modular_agentic_system.Orchestrator.{
  Registries, RunArgs, PreviewPort, Pump, RunOutcome, Delegated, Left, emit, exec, terminate,
  final_cause, after_throw, after_silence, conclude, task_of, kit_for, run_harness, run_leaf,
}
use modular_agentic_system.Orchestrator.Stream.{exec-Tracks, settled-first_terminal}
use modular_agentic_system.Registry.{ToolKit, resolve}
use modular_agentic_system.Settlement
use modular_agentic_system.Settlement.{Settlement, observe, observe_all, settle}
use modular_agentic_system.Settlement.Refine.{is_there}
use modular_agentic_system.Settlement.Spec.{first_terminal, terminal_count}
use modular_agentic_system.Topology.{chosen, resolve_topology}

-- What a leaf emits, whether it throws, and what the abort signal reads at its end.
unfoldable pub emitted : HarnessRun ⊥ → List EngineEvent
emitted (returned aborted) = []
emitted (threw message aborted) = []
emitted (emits ev rest) = ev ∷ emitted rest
emitted (delegates req rest) = absurd req

unfoldable pub thrown_of : HarnessRun ⊥ → Option Text
thrown_of (returned aborted) = none
thrown_of (threw message aborted) = some message
thrown_of (emits ev rest) = thrown_of rest
thrown_of (delegates req rest) = absurd req

unfoldable pub aborted_of : HarnessRun ⊥ → Bool
aborted_of (returned aborted) = aborted
aborted_of (threw message aborted) = aborted
aborted_of (emits ev rest) = aborted_of rest
aborted_of (delegates req rest) = absurd req

-- The terminal for a leaf that emitted none.
abbrev pub made_up : Option Text → Bool → EngineEvent
made_up none aborted = terminal (final_cause aborted) none
made_up (some message) aborted =
    terminal error (some (record { code = codes "harness_threw"; message = message }))

abbrev pub closing : HarnessRun ⊥ → List EngineEvent
closing r =
    if is_there (first_terminal (emitted r)) then [] else made_up (thrown_of r) (aborted_of r) ∷ []

terminal_count-append :
    (xs ys : List EngineEvent) → terminal_count (xs ++ ys) ≡ terminal_count xs + terminal_count ys
unfolding terminal_count
terminal_count-append [] ys = omega arith
terminal_count-append (terminal c e ∷ xs) ys = omega (arith, terminal_count-append xs ys)
terminal_count-append (_ ∷ xs) ys = terminal_count-append xs ys

terminal_count_there :
    (evs : List EngineEvent)
    → (is_there (first_terminal evs) ≡ true → 1 ≤ terminal_count evs)
      × (is_there (first_terminal evs) ≡ false → terminal_count evs ≡ 0)
unfolding terminal_count first_terminal
terminal_count_there [] = ground arith
terminal_count_there (terminal c e ∷ evs) = ground arith
terminal_count_there (_ ∷ evs) = terminal_count_there evs

terminal_count-nil : terminal_count [] ≡ 0
unfolding terminal_count
terminal_count-nil = refl

terminal_count-made_up :
    (o : Option Text) (aborted : Bool) → terminal_count (made_up o aborted ∷ []) ≡ 1
unfolding terminal_count
terminal_count-made_up none aborted = refl
terminal_count-made_up (some m) aborted = refl

module _ {W : Type 0} (port : PreviewPort W) (k : Text) (delegate : ⊥ → W → Delegated W) where
  exec-emitted :
      (r : HarnessRun ⊥) (p : Pump W)
      → let l = exec port k delegate r p in
        (l.pump.sink ≡ p.sink ++ emitted r) × (l.thrown ≡ thrown_of r) × (l.aborted ≡ aborted_of r)
  unfolding exec emitted thrown_of aborted_of
  exec-emitted (returned aborted) p = (sym (append-nil p.sink), refl, refl)
  exec-emitted (threw message aborted) p = (sym (append-nil p.sink), refl, refl)
  exec-emitted (emits ev rest) p =
      let (a, b, c) = exec-emitted rest (emit port k ev p) in
      (a ∙ unfold emit in append_assoc p.sink (ev ∷ []) (emitted rest), b, c)
  exec-emitted (delegates req rest) p = absurd req

sink-closed :
    {W : Type 0} (thrown : Option Text) (aborted : Bool) (p : Pump W)
    → (after_silence aborted (after_throw thrown p)).sink
      ≡ p.sink ++ (if p.settlement.settled then [] else made_up thrown aborted ∷ [])
unfolding after_silence after_throw terminate observe settle
sink-closed none aborted p = ground (arith, append-nil p.sink)
sink-closed (some m) aborted p = ground (arith, append-nil p.sink)

run_harness_chosen :
    {W : Type 0} (regs : Registries) (args : RunArgs) (w : W) (harness : Harness)
    (play : RunTask → ToolKit → Pump W → Left W) (t : ExecutionTopology) (kit : ToolKit)
    → resolve_topology harness.capabilities (some args.handle.capabilities) args.topology ≡ chosen t
    → kit_for regs harness.capabilities (task_of args t) ≡ ok kit
    → run_harness regs args harness play w
      ≡ conclude (
          play
            (task_of args t)
            kit
            (record { settlement = Settlement.new args.run_id; world = w; sink = [] }))
unfolding run_harness
run_harness_chosen regs args w harness play t kit q u = rw (q, run_harness, u)

-- A leaf run of a harness that is known, on a topology that it can have, with a kit that can be
-- built, has an outcome. Its sink gets what the harness emits, in order and unchanged, and after that
-- one terminal if the harness emitted none: `harness_threw` if the harness threw, else `cancelled` or
-- `done` by the abort signal. So the sink gets as many terminals as the harness emits, and at least
-- one.
pub run_leaf_stream :
    {W : Type 0} (port : PreviewPort W) (regs : Registries) (args : RunArgs) (w : W)
    (harness : Harness) (t : ExecutionTopology) (kit : ToolKit)
    → resolve (codes "harness") args.harness_ref regs.harnesses ≡ ok harness
    → resolve_topology harness.capabilities (some args.handle.capabilities) args.topology ≡ chosen t
    → kit_for regs harness.capabilities (task_of args t) ≡ ok kit
    → let r = harness.run_leaf (task_of args t) args.handle kit in
      (out : RunOutcome W) × (run_leaf port regs args w ≡ ok out)
      × (out.sink ≡ emitted r ++ closing r)
      × (terminal_count out.sink ≡ max 1 (terminal_count (emitted r)))
unfolding run_leaf
run_leaf_stream {W} port regs args w harness t kit p q u = (
  conclude left,
  rw p (ap (λ (o : RunOutcome W). ok o) (run_harness_chosen regs args w harness play t kit q u)),
  stream,
  count,
)
  where
    play : RunTask → ToolKit → Pump W → Left W
    play task kit' p' =
        exec port args.session_id (λ req w'. absurd req) (harness.run_leaf task args.handle kit') p'

    r : HarnessRun ⊥
    r = harness.run_leaf (task_of args t) args.handle kit

    fresh : Pump W
    fresh = record { settlement = Settlement.new args.run_id; world = w; sink = [] }

    left : Left W
    left = exec port args.session_id (λ req w'. absurd req) r fresh

    parts :
        (left.pump.sink ≡ emitted r) × (left.thrown ≡ thrown_of r) × (left.aborted ≡ aborted_of r)
    parts = exec-emitted port args.session_id (λ req w'. absurd req) r fresh

    seen : left.pump.settlement.settled ≡ is_there (first_terminal (emitted r))
    seen =
        settled-first_terminal args.run_id left.pump (
          exec-Tracks args.run_id port args.session_id (λ req w'. absurd req) r fresh
            (unfold observe_all in refl))
        ∙ ap (λ (l : List EngineEvent). is_there (first_terminal l)) parts.0

    stream : (conclude left).sink ≡ emitted r ++ closing r
    stream =
        unfold conclude in
        (sink-closed left.thrown left.aborted left.pump ∙ rw (seen, parts.0, parts.1, parts.2) refl)

    count : terminal_count (conclude left).sink ≡ max 1 (terminal_count (emitted r))
    count =
        rw (stream, terminal_count-append (emitted r) (closing r))
          (ground (
            arith,
            terminal_count_there (emitted r),
            terminal_count-made_up (thrown_of r) (aborted_of r),
            terminal_count-nil,
          ))
