-- ===== src/Translator.antt =====
-- apps/next/src/core/kernelTranslator.ts: the frames of the kernel, as the frames of the chat. One
-- translator reads one run.
pub mod Wire
pub mod Totals
pub mod Nesting
use modular_agentic_system.Base.{
  ℕ, ◌+◌, Bool, true, false, List, [], ◌∷◌, ◌++◌, Option, none, some, Text, codes, ◌==◌, length,
  truthy, or_else, truthy_text, if◌then◌else◌, is_some, ◌||◌, text_or,
}
use modular_agentic_system.Base.Map
use modular_agentic_system.Base.Map.{Map}
use modular_agentic_system.Events.{Json, array, object, end}
use modular_agentic_system.Translator.Wire.{
  WireError, WireUsage, KernelWireEvent, run_started, settled, stream_chunk, final_text, tool_call,
  tool_result, preview_ready, preview_snapshot_ready, usage_delta, child_started, child_settled,
  log, terminal,
}

pub data ToolState : Type 0 where
  running completed failed : ToolState

-- The child that a tool use belongs to, and how deep that is.
pub record Tag : Type 0 where
  pub child_session_id : Text
  pub depth : Option ℕ

-- A `tool_use` frame; `raw` is the call id with the fields of the input.
pub record ToolUse : Type 0 where
  pub tool : Text
  pub tool_state : ToolState
  pub call_id : Option Text
  pub input : Json
  pub tag : Option Tag
  pub content : Option Text

pub data RunEvent : Type 0 where
  start : (run_id : Option Text) → RunEvent
  text : Text → RunEvent
  message : Text → RunEvent
  tool_use : ToolUse → RunEvent
  usage : (input_tokens output_tokens : ℕ) (cost : Option ℕ) → RunEvent
  failure : (error : Text) (code : Option Text) → RunEvent
  complete : (phase : Text) → RunEvent

-- `child_stack` has the child that was opened last first; `previews` has the URLs handed to
-- `onPreview`, the latest first.
pub record KernelTranslator : Type 0 where
  pub tool_names : Map Text
  pub child_stack : List Text
  pub usage_in : ℕ
  pub usage_out : ℕ
  pub terminal_seen : Bool
  pub previews : List Text

unfoldable pub new : KernelTranslator
new = record {
  tool_names = [];
  child_stack = [];
  usage_in = 0;
  usage_out = 0;
  terminal_seen = false;
  previews = [];
}

abbrev pub tag_of : List Text → Option Tag
tag_of [] = none
tag_of (top ∷ rest) = some (record { child_session_id = top; depth = some (length (top ∷ rest)) })

abbrev pub task_boundary : Text → ToolState → RunEvent
task_boundary child_run_id state = tool_use (record {
  tool = codes "Task";
  tool_state = state;
  call_id = some child_run_id;
  input = object end;
  tag = some (record { child_session_id = child_run_id; depth = none });
  content = none;
})

abbrev message_of : Option WireError → Text
message_of none = codes "Run failed"
message_of (some e) = or_else e.message (codes "Run failed")

abbrev code_of : Option WireError → Option Text
code_of none = none
code_of (some e) = e.code

unfoldable pub settle : Text → Option WireError → RunEvent
settle cause why =
    if cause == codes "error"
    then failure (message_of why) (code_of why)
    else complete
        (if cause == codes "cancelled" then codes "cancelled" else codes "settled_success")

-- An input that is no object has no fields.
abbrev pub args_of : Option Json → Json
args_of (some (object fields)) = object fields
args_of (some (array items)) = array items
args_of _ = object end

-- `lastIndexOf` and `splice`: the latest of that name goes.
unfoldable pub close : Text → List Text → List Text
close id [] = []
close id (x ∷ xs) = if x == id then xs else x ∷ close id xs

abbrev pub tool_state_of : Option Bool → ToolState
tool_state_of none = completed
tool_state_of (some ok) = if ok then completed else failed

abbrev pub known_name : Option Text → Map Text → Text
known_name call_id names =
    text_or (or_else (if truthy call_id then Map.get (or_else call_id []) names else none) [])
      (codes "tool")

abbrev pub set_name : Option Text → Text → Map Text → Map Text
set_name call_id name names =
    if truthy call_id then Map.set (or_else call_id []) name names else names

abbrev input_of : Option WireUsage → Option ℕ
input_of none = none
input_of (some u) = u.input_tokens

abbrev output_of : Option WireUsage → Option ℕ
output_of none = none
output_of (some u) = u.output_tokens

-- The authoritative usage, if the frame has any of it.
unfoldable pub settled_usage : Option WireUsage → Option ℕ → KernelTranslator → List RunEvent
settled_usage u cost s =
    if is_some (input_of u) || is_some (output_of u) || is_some cost
    then usage (or_else (input_of u) s.usage_in) (or_else (output_of u) s.usage_out) cost ∷ []
    else []

-- `app_path` is `/preview/${encodeURIComponent(sessionId)}/app/`.
unfoldable pub translate :
    (app_path : Text) → KernelWireEvent → KernelTranslator → KernelTranslator × List RunEvent
unfolding settle close settled_usage
translate app_path (run_started id) s = (s, start id ∷ [])
translate app_path (stream_chunk t) s = elim s.child_stack [
  | [] ↦ (s, text (or_else t []) ∷ [])
  | _ ∷ _ ↦ (s, [])
]
translate app_path (final_text t) s = elim s.child_stack [
  | [] ↦ (s, message (or_else t []) ∷ [])
  | _ ∷ _ ↦ (s, [])
]
translate app_path (tool_call name args id) s = (
  record s { tool_names = set_name id (or_else name (codes "tool")) s.tool_names },
  tool_use (record {
    tool = or_else name (codes "tool");
    tool_state = running;
    call_id = id;
    input = args_of args;
    tag = tag_of s.child_stack;
    content = none;
  })
      ∷ [],
)
translate app_path (tool_result ok output id) s = (
  s,
  tool_use (record {
    tool = known_name id s.tool_names;
    tool_state = tool_state_of ok;
    call_id = id;
    input = object end;
    tag = tag_of s.child_stack;
    content = output;
  })
      ∷ [],
)
translate app_path (preview_ready url) s =
    (if truthy url then record s { previews = or_else url [] ∷ s.previews } else s, [])
translate app_path preview_snapshot_ready s = (record s { previews = app_path ∷ s.previews }, [])
translate app_path (usage_delta i o) s =
    let usage_in = s.usage_in + or_else i 0 in
    let usage_out = s.usage_out + or_else o 0 in
    (record s { usage_in = usage_in; usage_out = usage_out }, usage usage_in usage_out none ∷ [])
translate app_path (child_started id) s =
    if truthy id
    then (
      record s { child_stack = or_else id [] ∷ s.child_stack },
      task_boundary (or_else id []) running ∷ [],
    )
    else (s, [])
translate app_path (child_settled id cause) s =
    if truthy id
    then (
      record s { child_stack = close (or_else id []) s.child_stack },
      task_boundary (or_else id [])
            (if or_else cause [] == codes "error" then failed else completed)
          ∷ [],
    )
    else (s, [])
translate app_path log s = (s, [])
translate app_path (terminal cause why) s =
    (record s { terminal_seen = true }, settle (or_else cause (codes "done")) why ∷ [])
translate app_path (settled cause u cost why) s = (
  s,
  settled_usage u cost s
      ++ (if s.terminal_seen then [] else settle (or_else cause (codes "done")) why ∷ []),
)

unfoldable pub translate_all :
    (app_path : Text) → List KernelWireEvent → KernelTranslator → KernelTranslator × List RunEvent
unfolding translate
translate_all app_path [] s = (s, [])
translate_all app_path (ev ∷ evs) s =
    let (s', frames) = translate app_path ev s in
    let (s'', frames') = translate_all app_path evs s' in (s'', frames ++ frames')
