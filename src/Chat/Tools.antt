-- ===== src/Chat/Tools.antt =====
-- The tool parts of apps/next/src/features/chat/adapters/streamReducer.ts.
use modular_agentic_system.Base.{
  ℕ, ◌+◌, Bool, true, false, ◌&&◌, ◌||◌, not, List, [], ◌∷◌, ◌++◌, Option, none, some, Text, codes,
  ◌==◌, length, drop, take, or_else, or_option, if◌then◌else◌, truthy, leb, ltb,
}
use modular_agentic_system.Base.Decimal.{decimal}
use modular_agentic_system.Base.Map
use modular_agentic_system.Base.Map.{Map}
use modular_agentic_system.Events.{Json, null, string, number}
use modular_agentic_system.Chat.Frame.{ToolFrame, RawInput, absent, fields, value}
use modular_agentic_system.Chat.Parts.{
  Part, text_part, tool_part, error_part, ToolPart, PartState, input_available, output_available,
  output_error, finalize_streaming_thinking,
}

-- `toLowerCase` of ASCII letters.
unfoldable pub lower : Text → Text
lower [] = []
lower (c ∷ cs) = let rest = lower cs in (if leb 65 c && leb c 90 then c + 32 else c) ∷ rest

abbrev pub starts_with : Text → Text → Bool
starts_with prefix t = take (length prefix) t == prefix

abbrev pub tool_name_map : Map Text
tool_name_map =
    (codes "bash", codes "Bash")
    ∷ (codes "edit", codes "Edit")
    ∷ (codes "write", codes "Write")
    ∷ (codes "read", codes "Read")
    ∷ (codes "grep", codes "Grep")
    ∷ (codes "glob", codes "Glob")
    ∷ (codes "list", codes "Read")
    ∷ (codes "ls", codes "Read")
    ∷ (codes "websearch", codes "WebSearch")
    ∷ (codes "web_search", codes "WebSearch")
    ∷ (codes "webfetch", codes "WebFetch")
    ∷ (codes "web_fetch", codes "WebFetch")
    ∷ (codes "fetch", codes "WebFetch")
    ∷ (codes "task", codes "Task")
    ∷ (codes "agent", codes "Agent")
    ∷ (codes "todowrite", codes "TodoWrite")
    ∷ (codes "todoread", codes "TodoWrite")
    ∷ (codes "planwrite", codes "PlanWrite")
    ∷ (codes "question", codes "Question")
    ∷ (codes "think", codes "Thinking")
    ∷ (codes "thinking", codes "Thinking")
    ∷ []

-- A lone `mcp_` in front goes; a double one stays.
unfoldable pub tool_key : Text → Text
unfolding lower
tool_key name =
    let key = lower name in
    if starts_with (codes "mcp_") key && not (starts_with (codes "mcp__") key)
    then drop 4 key
    else key

unfoldable pub tool_part_type : Text → Text
unfolding tool_key
tool_part_type name = codes "tool-" ++ or_else (Map.get (tool_key name) tool_name_map) name

abbrev pub key_aliases : Map Text
key_aliases =
    (codes "filePath", codes "file_path")
    ∷ (codes "oldString", codes "old_string")
    ∷ (codes "newString", codes "new_string")
    ∷ (codes "filepath", codes "file_path")
    ∷ []

-- An alias of a key, unless the source has the alias itself.
abbrev pub add_alias : Option Text → Json → Map Json → Map Json → Map Json
add_alias none v src out = out
add_alias (some a) v src out = if Map.has a src then out else Map.set a v out

unfoldable pub normalize_each : Map Json → Map Json → Map Json → Map Json
normalize_each src [] out = out
normalize_each src ((k, v) ∷ rest) out = normalize_each src rest (
    if k == codes "_output" then out else add_alias (Map.get k key_aliases) v src (Map.set k v out))

unfoldable pub normalize_tool_input : RawInput → Option (Map Json)
unfolding normalize_each
normalize_tool_input absent = none
normalize_tool_input (value j) = some ((codes "value", j) ∷ [])
normalize_tool_input (fields m) = some (normalize_each m m [])

unfoldable pub tool_state : Option Text → PartState
tool_state s =
    if or_else s [] == codes "completed"
    then output_available
    else if or_else s [] == codes "error"
    then output_error
    else input_available

-- `next[k] = v` for all that is in the other.
unfoldable pub merge : Map Json → Map Json → Map Json
merge before [] = before
merge before ((k, v) ∷ rest) = merge (Map.set k v before) rest

abbrev pub is_empty : Map Json → Bool
is_empty [] = true
is_empty (_ ∷ _) = false

abbrev pub is_at : Text → Part → Bool
is_at id (tool_part t) = t.tool_call_id == id
is_at id (text_part t) = false
is_at id (error_part m) = false

-- Later fields win; an output that is missing leaves the one before.
unfoldable pub merge_part : ToolPart → ToolPart → ToolPart
unfolding merge
merge_part prev part =
    let merged = merge (or_else prev.input []) (or_else part.input []) in
    record part {
      input = if is_empty merged then or_option part.input prev.input else some merged;
      output = or_option part.output prev.output;
    }

abbrev pub absorb : ToolPart → Part → Part
absorb part (tool_part prev) = tool_part (merge_part prev part)
absorb part (text_part t) = text_part t
absorb part (error_part m) = error_part m

-- The first part of that id is merged with.
unfoldable pub put_tool : ToolPart → List Part → List Part
unfolding merge_part
put_tool part [] = tool_part part ∷ []
put_tool part (p ∷ ps) =
    let rest = put_tool part ps in
    if is_at part.tool_call_id p then absorb part p ∷ ps else p ∷ rest

unfoldable pub upsert_tool :
    List Part
    → (tool_call_id : Option Text) → (tool_name : Text) → (runner_state : Option Text)
    → (input : Option (Map Json)) → (output : Option Json) → List Part
unfolding put_tool tool_part_type tool_state
upsert_tool parts id name state input output =
    let settled = finalize_streaming_thinking parts in
    let type_name = tool_part_type name in
    put_tool
      (record {
        type_name = type_name;
        tool_call_id = or_else id (type_name ++ (codes "-" ++ decimal (length settled)));
        state = tool_state state;
        input = input;
        output = output;
      })
      settled

abbrev pub raw_fields : RawInput → Map Json
raw_fields (fields m) = m
raw_fields _ = []

abbrev pub text_of : Option Json → Option Text
text_of (some (string t)) = some t
text_of _ = none

abbrev pub number_of : Option Json → Option ℕ
number_of (some (number n)) = some n
number_of _ = none

abbrev pub raw_text : Text → RawInput → Option Text
raw_text k raw = text_of (Map.get k (raw_fields raw))

unfoldable pub call_id_of : ToolFrame → Option Text
call_id_of t = or_option (raw_text (codes "callID") t.raw) (
    or_option (raw_text (codes "id") t.raw) (
      or_option (raw_text (codes "toolCallId") t.raw)
        (or_option (raw_text (codes "toolCallID") t.raw) t.call_id)))

unfoldable pub is_task : Text → Bool
unfolding lower
is_task name =
    lower name == codes "task" || lower name == codes "agent" || lower name == codes "mcp_task"

unfoldable pub thinks : Text → Bool
unfolding lower
thinks name = lower name == codes "think" || lower name == codes "thinking"

unfoldable pub tool_call_id : ToolFrame → Option Text
unfolding call_id_of is_task
tool_call_id t =
    let child = or_option t.child_session_id (raw_text (codes "childSessionId") t.raw) in
    let depth =
      or_else (or_option t.depth (number_of (Map.get (codes "depth") (raw_fields t.raw)))) 0 in
    if is_task t.name && truthy child
    then child
    else if truthy child && ltb 0 depth
    then some (or_else child [] ++ (codes ":" ++ or_else (call_id_of t) (codes "child")))
    else call_id_of t

abbrev pub not_null : Option Json → Option Json
not_null (some null) = none
not_null j = j

abbrev pub not_empty : Option Json → Option Json
not_empty (some (string [])) = none
not_empty j = j

abbrev pub as_json : Option Text → Option Json
as_json none = none
as_json (some t) = some (string t)

unfoldable pub output_of : ToolFrame → Option Json
output_of t =
    not_empty (or_option (as_json t.content) (Map.get (codes "_output") (raw_fields t.raw)))
