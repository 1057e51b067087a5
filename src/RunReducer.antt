-- ===== src/RunReducer.antt =====
-- apps/next/src/features/chat/lib/runReducer.ts: the events of a run folded into the state that the chat
-- shows. A value that the code casts unread stays what it was.
pub mod Payload
pub mod Types
pub mod Views
pub mod Updates
pub mod Calls
pub mod Patches
pub mod Rows
pub mod Ends
pub mod Late
use modular_agentic_system.Base.{
  ℕ, Bool, true, false, not, ◌&&◌, ◌||◌, List, [], ◌∷◌, ◌++◌, Option, none, some, Text, codes, ◌==◌,
  ltb, contains, any, map, if◌then◌else◌, or_option, or_else, is_some, truthy,
}
use modular_agentic_system.Events.{Json, boolean, Fields}
use modular_agentic_system.RunReducer.Payload
use modular_agentic_system.RunReducer.Payload.{
  as_record, text_field, str, number_field, array_field, present, strings_of, text_of_json, at,
}
use modular_agentic_system.RunReducer.Types.{
  Role, user, assistant, system, tool, RowStatus, pending, streaming, complete, error, CallState,
  running, failed, ToolCallView, TodoView, PendingPermission, RowQuestion, Failover, ChatMessage,
  RunState, RunStreamEvent,
}
use modular_agentic_system.RunReducer.Views.{tool_calls_from, todos_from, merge_tool_calls}
use modular_agentic_system.RunReducer.Updates.{
  on_start, delta_of, on_progress, phase_in_progress, on_question, on_permission, shown_status,
  failover_of, complete_phase, on_complete, error_code_of, on_clarification,
}

abbrev pub terminal_phases : List Text
terminal_phases =
    codes "settled_success"
    ∷ codes "settled_incomplete"
    ∷ codes "settled_error"
    ∷ codes "cancelled"
    ∷ []

abbrev pub is_terminal : Text → Bool
is_terminal phase = contains phase terminal_phases

abbrev pub initial_run_state : RunState
initial_run_state = record {
  run_id = none;
  phase = codes "idle";
  status = codes "ready";
  version = 0;
  is_streaming = false;
  messages = [];
  pending_question = none;
  pending_permission = none;
  error_of = none;
  usage = none;
  rejection = none;
}

-- A row with nothing but what is said of it.
abbrev pub blank_row : Text → Role → Text → RowStatus → Text → ChatMessage
blank_row id role text status created_at = record {
  id = id;
  role = role;
  text = text;
  parts = none;
  status = status;
  created_at = some created_at;
  run_id = none;
  model = none;
  provider = none;
  attachments = none;
  tool_calls = none;
  todo_items = none;
  reasoning = none;
  modified_files = none;
  git_status = none;
  permission = none;
  question = none;
  visual_verification = none;
  failover = none;
  handoff = none;
  error_code = none;
}

pub record Turn : Type 0 where
  pub user_message_id : Text
  pub assistant_message_id : Text
  pub text : Text
  pub run_id : Text
  pub created_at : Text
  pub attachments : Option Json

unfoldable pub start_optimistic_turn : RunState → Turn → RunState
start_optimistic_turn state t = record state {
  phase = codes "dispatching";
  run_id = some t.run_id;
  is_streaming = true;
  messages =
      state.messages
      ++ (record (blank_row t.user_message_id user t.text complete t.created_at) {
        attachments = t.attachments;
      }
          ∷ record (blank_row t.assistant_message_id assistant [] pending t.created_at) {
            run_id = some t.run_id;
          }
          ∷ []);
}

abbrev pub is_assistant : ChatMessage → Bool
is_assistant m = elim m.role [ assistant ↦ true | _ ↦ false ]

-- `patchActive`: the last row of the assistant's is changed, if there is one.
unfoldable pub patch_rows : (ChatMessage → ChatMessage) → List ChatMessage → List ChatMessage
patch_rows patch [] = []
patch_rows patch (m ∷ ms) =
    let rest = patch_rows patch ms in
    if any is_assistant ms then m ∷ rest else if is_assistant m then patch m ∷ ms else m ∷ ms

abbrev pub patch_active : RunState → (ChatMessage → ChatMessage) → RunState
patch_active state patch = record state { messages = patch_rows patch state.messages }

abbrev decide : Text → ChatMessage → ChatMessage
decide action m = elim m.permission [
  | none ↦ m
  | some p ↦ record m { permission = some (record p { decided = some action }) }
]

unfoldable pub mark_permission_decided : RunState → Text → RunState
unfolding patch_rows
mark_permission_decided state action = patch_active state (decide action)

pub data EventKind : Type 0 where
  start run_snapshot progress content_done question permission verification : EventKind
  model_failover_applied completes fails human_handoff_requested git_persistence other : EventKind

unfoldable pub kind_of : Text → EventKind
unfolding ◌==◌
kind_of name =
    if name == codes "start"
    then start
    else if name == codes "run_snapshot"
    then run_snapshot
    else if name == codes "progress"
    then progress
    else if name == codes "content_done"
    then content_done
    else if name == codes "question"
    then question
    else if name == codes "permission"
    then permission
    else if name == codes "verification"
    then verification
    else if name == codes "model_failover_applied"
    then model_failover_applied
    else if name == codes "complete"
    then completes
    else if name == codes "error"
    then fails
    else if name == codes "human_handoff_requested"
    then human_handoff_requested
    else if name == codes "git_persistence"
    then git_persistence
    else other

unfoldable pub reduce : EventKind → Fields → RunState → RunState
unfolding Payload.get patch_rows ◌==◌
reduce start d state =
    let run_id = or_option (text_field (at d "runId")) state.run_id in
    patch_active (record state { phase = codes "preparing"; run_id = run_id; is_streaming = true })
      (on_start run_id d)
reduce run_snapshot d state =
    let version = or_else (number_field (at d "version")) state.version in
    let phase = or_else (text_field (at d "phase")) state.phase in
    if ltb version state.version then state else record state {
      version = version;
      phase = phase;
      run_id = or_option (text_field (at d "runId")) state.run_id;
      is_streaming = if is_terminal phase then false else state.is_streaming;
    }
reduce progress d state = record (patch_active state (on_progress d)) {
  phase = phase_in_progress state.phase;
  is_streaming = true;
}
reduce content_done d state = state
reduce question d state =
    patch_active (record state { phase = codes "waiting_input" }) (on_question d)
reduce permission d state = patch_active state (on_permission d)
reduce verification d state = elim (shown_status d) [
  | none ↦ record state { phase = codes "verifying" }
  | some s ↦
      patch_active (record state { phase = codes "verifying" })
        (λ m. record m { visual_verification = some s })
]
reduce model_failover_applied d state = elim (failover_of d) [
  | none ↦ state
  | some f ↦ patch_active state (λ m. record m { failover = some f })
]
reduce completes d state =
    patch_active (record state { phase = complete_phase d; is_streaming = false }) (on_complete d)
reduce fails d state =
    if error_code_of d == codes "clarification_required"
    then patch_active (record state { phase = codes "waiting_input" }) (on_clarification d)
    else patch_active (record state { phase = codes "settled_error"; is_streaming = false })
        (λ m. record m { status = error; error_code = some (error_code_of d) })
reduce human_handoff_requested d state = patch_active state (λ m. record m {
  handoff = some (or_else (str (at d "status")) (codes "pending_bridge"));
  status = complete;
})
reduce git_persistence d state =
    patch_active state
      (λ m. record m { git_status = or_option (text_field (at d "status")) m.git_status })
reduce other d state = state

unfoldable pub reduce_run_event : RunState → RunStreamEvent → RunState
unfolding reduce kind_of
reduce_run_event state event = reduce (kind_of event.event_type) (as_record event.payload) state

-- The events of a run, in order.
unfoldable pub reduce_all : List RunStreamEvent → RunState → RunState
unfolding reduce_run_event
reduce_all [] state = state
reduce_all (e ∷ es) state = reduce_all es (reduce_run_event state e)
