-- ===== src/RunReducer/Ends.antt =====
-- apps/next/src/features/chat/lib/runReducer.ts: versions of snapshots, and the end of a run.
use modular_agentic_system.Base.{
  ℕ, ◌≡◌, ◌≤◌, ◌<◌, inl, inr, refl, ap, ◌∙◌, true, false, List, [], ◌∷◌, ◌++◌, some, Text, codes,
  ◌==◌, eq_iff, any, ltb, contains, Bool-cases, Option-cases, arith,
}
use modular_agentic_system.Events.{Fields}
use modular_agentic_system.RunReducer.{
  EventKind, run_snapshot, verification, model_failover_applied, completes, fails, kind_of,
  is_assistant, is_terminal, patch_rows, reduce, reduce_run_event, reduce_all,
}
use modular_agentic_system.RunReducer.Updates.{
  complete_phase, phase_in_progress, shown_status, failover_of, error_code_of,
}
use modular_agentic_system.RunReducer.Calls.{HasSettledCalls, calls_done-HasSettledCalls}
use modular_agentic_system.RunReducer.Payload.{as_record, number_field, at}
use modular_agentic_system.RunReducer.Patches.{patch_rows-active}
use modular_agentic_system.RunReducer.Types.{ChatMessage, RunState, RunStreamEvent}

reduce_version : (k : EventKind) (d : Fields) (s : RunState) → s.version ≤ (reduce k d s).version
unfolding reduce
reduce_version run_snapshot d s = ground arith
reduce_version verification d s = elim (Option-cases (shown_status d)) [
  | inl e ↦ rw (e, reduce) (omega arith)
  | inr (v, e) ↦ rw (e, reduce) (omega arith)
]
reduce_version model_failover_applied d s = elim (Option-cases (failover_of d)) [
  | inl e ↦ rw (e, reduce) (omega arith)
  | inr (v, e) ↦ rw (e, reduce) (omega arith)
]
reduce_version fails d s = elim (Bool-cases (error_code_of d == codes "clarification_required")) [
  | inl e ↦ rw (e, reduce) (omega arith)
  | inr e ↦ rw (e, reduce) (omega arith)
]
reduce_version _ d s = omega arith

reduce_all_version :
    (es : List RunStreamEvent) (s : RunState) → s.version ≤ (reduce_all es s).version
unfolding reduce_all reduce_run_event
reduce_all_version [] s = omega arith
reduce_all_version (ev ∷ es) s = omega (
  arith,
  reduce_version (kind_of ev.event_type) (as_record ev.payload) s,
  reduce_all_version es (reduce (kind_of ev.event_type) (as_record ev.payload) s),
)

-- A snapshot whose version is below one that the state had at any time before is ignored, whatever came
-- since.
pub stale_snapshot_ignored :
    (es : List RunStreamEvent) (s : RunState) (e : RunStreamEvent) (version : ℕ)
    → kind_of e.event_type ≡ run_snapshot
    → number_field (at (as_record e.payload) "version") ≡ some version
    → version < s.version
    → reduce_run_event (reduce_all es s) e ≡ reduce_all es s
unfolding reduce_run_event reduce
stale_snapshot_ignored es s e version k v h =
    let older : ltb version (reduce_all es s).version ≡ true =
      ground (arith, reduce_all_version es s) in
    rw (k, v, older) refl

open_phases :
    (is_terminal (codes "preparing") ≡ false) × (is_terminal (codes "dispatching") ≡ false)
unfolding contains ◌==◌
open_phases = (refl, refl)

not_open :
    (phase name : Text)
    → is_terminal phase ≡ true
    → is_terminal name ≡ false
    → (phase == name) ≡ false
not_open phase name h n = elim (Bool-cases (phase == name)) [
  | inr e ↦ e
  | inl e ↦ cc (ap (λ q. is_terminal q) ((eq_iff phase name).0 e), h, n)
]

pub terminal_not_live : (phase : Text) → is_terminal phase ≡ true → phase_in_progress phase ≡ phase
terminal_not_live phase h =
    rw
      (
        not_open phase (codes "preparing") h open_phases.0,
        not_open phase (codes "dispatching") h open_phases.1,
      )
      refl

-- What the state is when a run completed: not streaming, in the phase that the event gives or, if it gives
-- none, settled by its flag; and no tool call of the active row is left running.
pub complete_settles :
    (s : RunState) (e : RunStreamEvent) (before : List ChatMessage) (m : ChatMessage)
    (after : List ChatMessage)
    → kind_of e.event_type ≡ completes
    → is_assistant m ≡ true
    → any is_assistant after ≡ false
    → s.messages ≡ before ++ m ∷ after
    → let s' = reduce_run_event s e in
      (s'.is_streaming ≡ false)
      × (s'.phase ≡ complete_phase (as_record e.payload))
      × ((m' : ChatMessage) × (s'.messages ≡ before ++ m' ∷ after) × HasSettledCalls m'.tool_calls)
unfolding reduce_run_event reduce
complete_settles s e before m after k a n f = rw k (
  refl,
  refl,
  (
    _,
    ap (patch_rows _) f ∙ patch_rows-active _ before m after a n,
    calls_done-HasSettledCalls m.tool_calls,
  ),
)
