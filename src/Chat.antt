-- ===== src/Chat.antt =====
-- apps/next/src/features/chat/adapters/streamReducer.ts: the frames of the chat, folded into the parts
-- of the assistant's message and the state of the run. The frames are typed here: a field that is cast
-- to a string is a string, and names of tools have ASCII letters.
pub mod Frame
pub mod Parts
pub mod Tools
pub mod Shown
pub mod Said
pub mod Heard
pub mod Phase
use modular_agentic_system.Base.{
  ℕ, suc, ◌+◌, ◌<◌, Bool, true, false, ◌&&◌, ◌||◌, not, List, [], ◌∷◌, ◌++◌, Option, none, some,
  Text, codes, ◌==◌, ltb, or_else, or_option, any, if◌then◌else◌, truthy_text, is_some,
}
use modular_agentic_system.Base.Map
use modular_agentic_system.Base.Map.{Map}
use modular_agentic_system.Events.{Json, null, string, number}
use modular_agentic_system.Chat.Frame.{
  RunPhase, settled_success, settled_incomplete, settled_error, cancelled, idle, dispatching,
  preparing, streaming, verifying, waiting_children, waiting_input, ChatStatus, submitted, streams,
  ready, fails, StreamFrame, start, run_snapshot, progress, question, permission, complete, usage,
  failure, other, Payload, text, thinking, tool_use, message, unknown, ToolFrame, RawInput, absent,
  fields, value,
}
use modular_agentic_system.Chat.Parts.{
  Part, append_text, append_thinking, settle_thinking, replace_text, error_part,
}
use modular_agentic_system.Chat.Tools.{
  lower, normalize_tool_input, upsert_tool, tool_call_id, output_of, thinks,
}

pub data Role : Type 0 where
  user assistant : Role

pub record ChatMessage : Type 0 where
  pub id : Text
  pub role : Role
  pub parts : List Part

pub record RunError : Type 0 where
  pub message : Text
  pub code : Option Text

pub record RunUsage : Type 0 where
  pub input_tokens : ℕ
  pub output_tokens : ℕ
  pub cost : Option ℕ

-- A pending question or permission is its id.
pub record RunState : Type 0 where
  pub run_id : Option Text
  pub phase : RunPhase
  pub status : ChatStatus
  pub pending_question : Option Text
  pub pending_permission : Option Text
  pub error : Option RunError
  pub usage_of : Option RunUsage

pub record ReducerState : Type 0 where
  pub messages : List ChatMessage
  pub run : RunState

unfoldable pub phase_to_status : RunPhase → ChatStatus
phase_to_status dispatching = submitted
phase_to_status preparing = submitted
phase_to_status streaming = streams
phase_to_status verifying = streams
phase_to_status waiting_children = streams
phase_to_status settled_error = fails
phase_to_status _ = ready

abbrev pub is_terminal_phase : RunPhase → Bool
is_terminal_phase settled_success = true
is_terminal_phase settled_incomplete = true
is_terminal_phase settled_error = true
is_terminal_phase cancelled = true
is_terminal_phase _ = false

abbrev pub assistant_id : Text → Text
assistant_id run_id = codes "assistant-" ++ run_id

unfoldable pub ensure_assistant : Text → List ChatMessage → List ChatMessage
ensure_assistant run_id ms =
    if any (λ (m : ChatMessage). m.id == assistant_id run_id) ms
    then ms
    else ms ++ (record { id = assistant_id run_id; role = assistant; parts = [] } ∷ [])

abbrev pub is_assistant : ChatMessage → Bool
is_assistant m = elim m.role [ user ↦ false | assistant ↦ true ]

-- The last message of the assistant's is changed.
unfoldable pub update_assistant_parts :
    (List Part → List Part) → List ChatMessage → List ChatMessage
update_assistant_parts f [] = []
update_assistant_parts f (m ∷ ms) =
    let rest = update_assistant_parts f ms in
    if any is_assistant ms
    then m ∷ rest
    else if is_assistant m
    then record m { parts = f m.parts } ∷ ms
    else m ∷ ms

-- The last message of all is changed, if it is the assistant's.
unfoldable pub finalize_thinking_on_settle : List ChatMessage → List ChatMessage
unfolding settle_thinking
finalize_thinking_on_settle [] = []
finalize_thinking_on_settle (m ∷ []) =
    if is_assistant m then record m { parts = settle_thinking m.parts } ∷ [] else m ∷ []
finalize_thinking_on_settle (m ∷ n ∷ ms) = m ∷ finalize_thinking_on_settle (n ∷ ms)

abbrev pub is_idle : RunPhase → Bool
is_idle idle = true
is_idle _ = false

-- Live progress, unless the run was idle, leaves the phase.
abbrev pub live : RunState → RunState
live run = record run {
  status = streams;
  phase = if is_idle run.phase then streaming else run.phase;
}

abbrev pub resolved : RunState → RunState
resolved run = record run { pending_permission = none }

unfoldable pub apply_payload : Payload → List ChatMessage → RunState → ReducerState
unfolding update_assistant_parts
apply_payload (text content) ms run = record {
  messages = update_assistant_parts (λ ps. append_text ps content) ms;
  run = live run;
}
apply_payload (thinking content) ms run = record {
  messages = update_assistant_parts (λ ps. append_thinking ps content) ms;
  run = run;
}
apply_payload (tool_use t) ms run = record {
  messages =
      if thinks t.name
      then update_assistant_parts (λ ps. append_thinking ps (or_else t.content [])) ms
      else update_assistant_parts
          (λ ps.
            upsert_tool ps (tool_call_id t) t.name t.tool_state (normalize_tool_input t.raw)
              (output_of t))
          ms;
  run = live run;
}
apply_payload (message full) ms run = record {
  messages =
      if truthy_text full then update_assistant_parts (λ ps. replace_text ps full) ms else ms;
  run = run;
}
apply_payload unknown ms run = record { messages = ms; run = run }

abbrev pub snapshot_error : RunPhase → Option Text → Option RunError → Option RunError
snapshot_error settled_error (some m) before =
    if truthy_text m then some (record { message = m; code = none }) else before
snapshot_error _ m before = before

unfoldable pub apply_frame : Text → StreamFrame → ReducerState → ReducerState
unfolding apply_payload ensure_assistant finalize_thinking_on_settle phase_to_status
apply_frame run_id start s = record {
  messages = ensure_assistant run_id s.messages;
  run = record s.run { run_id = some run_id; phase = streaming; status = streams; error = none };
}
apply_frame run_id (run_snapshot given why) s =
    let phase = or_else given s.run.phase in
    let over = is_terminal_phase phase in
    record {
      messages = if over then finalize_thinking_on_settle s.messages else s.messages;
      run = record s.run {
        phase = phase;
        status = phase_to_status phase;
        error = snapshot_error phase why s.run.error;
        pending_question = if over then none else s.run.pending_question;
      };
    }
apply_frame run_id (progress payload) s =
    apply_payload payload (ensure_assistant run_id s.messages) (resolved s.run)
apply_frame run_id (question pending) s = record s {
  run = record s.run { pending_question = pending; phase = waiting_input; status = ready };
}
apply_frame run_id (permission pending) s = record s {
  run = record s.run { pending_permission = pending; phase = waiting_input; status = ready };
}
apply_frame run_id (complete success phase) s = record {
  messages = finalize_thinking_on_settle s.messages;
  run = record s.run {
    phase = if success then settled_success else settled_error;
    status = if success then ready else fails;
    pending_question = none;
    pending_permission = none;
    error =
        if success
        then s.run.error
        else or_option s.run.error (some (record { message = codes "Run failed"; code = none }));
  };
}
apply_frame run_id (usage i o cost) s = record s {
  run = record s.run {
    usage_of =
        some (record { input_tokens = or_else i 0; output_tokens = or_else o 0; cost = cost });
  };
}
apply_frame run_id (failure why code) s =
    let m = or_else why (codes "Run error") in
    record {
      messages = finalize_thinking_on_settle (
          update_assistant_parts (λ ps. ps ++ (error_part m ∷ []))
            (ensure_assistant run_id s.messages));
      run = record s.run {
        phase = settled_error;
        status = fails;
        pending_question = none;
        pending_permission = none;
        error = some (record { message = m; code = code });
      };
    }
apply_frame run_id other s = s

unfoldable pub apply_frames : Text → List StreamFrame → ReducerState → ReducerState
apply_frames run_id [] s = s
apply_frames run_id (f ∷ fs) s = apply_frames run_id fs (apply_frame run_id f s)
