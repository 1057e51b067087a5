-- ===== src/RunReducer/Late.antt =====
-- apps/next/src/features/chat/lib/runReducer.ts: what comes after the end of a run.
use modular_agentic_system.Base.{
  Bool, ◌&&◌, ◌⊎◌, or_else, ◌≡◌, true, false, List, [], ◌∷◌, codes, ◌==◌, ltb,
}
use modular_agentic_system.RunReducer.{
  EventKind, run_snapshot, progress, content_done, permission, human_handoff_requested,
  git_persistence, other, model_failover_applied, completes, fails, kind_of, is_terminal,
}
use modular_agentic_system.RunReducer.Updates.{complete_phase, error_code_of}
use modular_agentic_system.RunReducer.Payload.{as_record, number_field, text_field, at}
use modular_agentic_system.RunReducer.Types.{RunState, RunStreamEvent}

-- Events that end a run: `complete` in a terminal phase, any `error` but a request to clarify, and a
-- snapshot, not stale, of a terminal phase.
abbrev pub IsEnd : RunState → RunStreamEvent → Type 0
IsEnd s e =
    let d = as_record e.payload in
    ((kind_of e.event_type ≡ completes) × (is_terminal (complete_phase d) ≡ true))
    ⊎ (((kind_of e.event_type ≡ fails)
          × ((error_code_of d == codes "clarification_required") ≡ false))
        ⊎ ((kind_of e.event_type ≡ run_snapshot)
            × (ltb (or_else (number_field (at d "version")) s.version) s.version ≡ false)
            × (is_terminal (or_else (text_field (at d "phase")) s.phase) ≡ true)))

-- Kinds of events that neither begin a turn, nor ask, nor verify, nor end a run.
abbrev is_calm : EventKind → Bool
is_calm k = elim k [
  | progress ↦ true
  | content_done ↦ true
  | permission ↦ true
  | model_failover_applied ↦ true
  | human_handoff_requested ↦ true
  | git_persistence ↦ true
  | other ↦ true
  | _ ↦ false
]

abbrev pub are_calm : List RunStreamEvent → Bool
are_calm [] = true
are_calm (e ∷ es) = is_calm (kind_of e.event_type) && are_calm es
