-- ===== src/RunReducer/Views.antt =====
-- What apps/next/src/features/chat/lib/runReducer.ts makes of a payload: tool calls and to-do items.
use modular_agentic_system.Base.{
  List, [], ◌∷◌, Option, none, some, Text, codes, ◌==◌, if◌then◌else◌, or_option, or_else,
}
use modular_agentic_system.Events.{Items, nil, cons, Fields}
use modular_agentic_system.RunReducer.Payload
use modular_agentic_system.RunReducer.Payload.{
  as_record, text_field, str, number_field, array_field, present, strings_of, text_of_json, at,
}
use modular_agentic_system.RunReducer.Types.{
  CallState, running, failed, DelegationState, attempt, child_session, failed_attempt, ToolCallView,
  TodoStatus, TodoView,
}

abbrev pub call_state : Option Text → CallState
call_state none = running
call_state (some s) =
    if s == codes "completed"
    then CallState.completed
    else if s == codes "error"
    then failed
    else running

abbrev pub delegation_of : Option Text → Option DelegationState
delegation_of none = none
delegation_of (some s) =
    if s == codes "attempt"
    then some attempt
    else if s == codes "child_session"
    then some child_session
    else if s == codes "failed_attempt"
    then some failed_attempt
    else none

abbrev call_view : Fields → Option Text → Option Text → Option ToolCallView
call_view raw none t = none
call_view raw (some id) none = none
call_view raw (some id) (some t) = some (record {
  call_id = id;
  tool = t;
  tool_state = call_state (or_option (str (at raw "toolState")) (str (at raw "state")));
  file =
      or_option (str (at raw "file")) (or_option (str (at raw "filePath")) (str (at raw "path")));
  content = or_option (str (at raw "content")) (str (at raw "_output"));
  delegation_state = delegation_of (str (at raw "delegationState"));
})

-- `toToolCall`
unfoldable pub to_tool_call : Fields → Option ToolCallView
unfolding Payload.get ◌==◌
to_tool_call raw =
    call_view raw (or_option (str (at raw "callID")) (str (at raw "id")))
      (or_option (str (at raw "tool")) (or_option (str (at raw "toolName")) (str (at raw "name"))))

-- `{ ...out[i], ...tc }` is `tc`: a view has every key, `undefined` ones included.
unfoldable pub put_call : ToolCallView → List ToolCallView → List ToolCallView
unfolding ◌==◌
put_call tc [] = tc ∷ []
put_call tc (e ∷ out) = if e.call_id == tc.call_id then tc ∷ out else e ∷ put_call tc out

unfoldable pub merge_calls : List ToolCallView → List ToolCallView → List ToolCallView
unfolding put_call
merge_calls out [] = out
merge_calls out (tc ∷ incoming) = merge_calls (put_call tc out) incoming

abbrev pub merge_tool_calls : Option (List ToolCallView) → List ToolCallView → List ToolCallView
merge_tool_calls existing incoming = merge_calls (or_else existing []) incoming

abbrev kept {ℓ} : {A : Type ℓ} → Option A → List A → List A
kept none xs = xs
kept (some x) xs = x ∷ xs

unfoldable pub calls_of : Items → List ToolCallView
unfolding to_tool_call
calls_of nil = []
calls_of (cons v xs) = kept (to_tool_call (as_record (some v))) (calls_of xs)

-- `toolCallsFrom`
unfoldable pub tool_calls_from : Fields → List ToolCallView
unfolding calls_of to_tool_call
tool_calls_from d = elim (array_field (at d "toolCalls")) [
  | some xs ↦ calls_of xs
  | none ↦ kept (to_tool_call d) []
]

abbrev pub todo_status : Option Text → TodoStatus
todo_status none = TodoStatus.pending
todo_status (some s) =
    if s == codes "in_progress"
    then TodoStatus.in_progress
    else if s == codes "completed"
    then TodoStatus.completed
    else if s == codes "cancelled"
    then TodoStatus.cancelled
    else TodoStatus.pending

abbrev todo_of : Fields → Option Text → Option TodoView
todo_of e none = none
todo_of e (some content) =
    some (record { content = content; status = todo_status (text_field (at e "status")) })

unfoldable pub todos_of : Items → List TodoView
unfolding Payload.get ◌==◌
todos_of nil = []
todos_of (cons v xs) =
    let e = as_record (some v) in kept (todo_of e (text_field (at e "content"))) (todos_of xs)

abbrev some_todos : List TodoView → Option (List TodoView)
some_todos [] = none
some_todos (t ∷ ts) = some (t ∷ ts)

-- `todosFrom`
unfoldable pub todos_from : Fields → Option (List TodoView)
unfolding todos_of
todos_from d = elim (or_option (array_field (at d "todoItems")) (array_field (at d "todos"))) [
  | none ↦ none
  | some xs ↦ some_todos (todos_of xs)
]
