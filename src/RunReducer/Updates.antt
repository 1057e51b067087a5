-- ===== src/RunReducer/Updates.antt =====
-- apps/next/src/features/chat/lib/runReducer.ts: what an event of a run does to the active row, and what is
-- read from it for that.
use modular_agentic_system.Base.{
  Bool, true, false, ◌||◌, List, [], ◌∷◌, ◌++◌, Option, none, some, Text, codes, ◌==◌, map,
  if◌then◌else◌, or_option, or_else, truthy,
}
use modular_agentic_system.Events.{Json, boolean, Fields}
use modular_agentic_system.RunReducer.Payload
use modular_agentic_system.RunReducer.Payload.{
  as_record, text_field, str, number_field, array_field, present, strings_of, text_of_json, at,
}
use modular_agentic_system.RunReducer.Types.{
  streaming, complete, error, CallState, running, ToolCallView, Failover, ChatMessage,
}
use modular_agentic_system.RunReducer.Views.{tool_calls_from, todos_from, merge_tool_calls}

abbrev pub on_start : Option Text → Fields → ChatMessage → ChatMessage
on_start run_id d m = record m {
  status = streaming;
  run_id = or_option run_id m.run_id;
  model = or_option (text_field (at d "model")) m.model;
  provider = or_option (text_field (at d "provider")) m.provider;
}

abbrev pub joined_reasoning : Option Text → Option Text → Option Text
joined_reasoning none old = old
joined_reasoning (some r) old = if truthy old then some (or_else old [] ++ (10 ∷ r)) else some r

-- The text that a `progress` event adds.
unfoldable pub delta_of : Fields → Option Text
unfolding Payload.get tool_calls_from
delta_of d =
    or_option (str (at d "delta"))
      (elim (tool_calls_from d) [ [] ↦ str (at d "text") | _ ∷ _ ↦ none ])

abbrev pub calls_after : List ToolCallView → Option (List ToolCallView) → Option (List ToolCallView)
calls_after [] old = old
calls_after (tc ∷ tools) old = some (merge_tool_calls old (tc ∷ tools))

abbrev pub on_progress : Fields → ChatMessage → ChatMessage
on_progress d m = record m {
  status = streaming;
  text = m.text ++ or_else (delta_of d) [];
  tool_calls = calls_after (tool_calls_from d) m.tool_calls;
  todo_items = or_option (todos_from d) m.todo_items;
  reasoning =
      joined_reasoning
        (or_option (str (at d "reasoning"))
          (or_option (str (at d "thinking")) (str (at d "thinkingContent"))))
        m.reasoning;
  modified_files = elim (array_field (at d "modifiedFiles")) [
    | none ↦ m.modified_files
    | some files ↦ some (strings_of files)
  ];
}

abbrev pub phase_in_progress : Text → Text
phase_in_progress phase =
    if phase == codes "preparing" || phase == codes "dispatching" then codes "streaming" else phase

abbrev pub on_question : Fields → ChatMessage → ChatMessage
on_question d m = record m {
  status = streaming;
  question = some (record {
    prompt = or_else (or_option (text_field (at d "prompt")) (text_field (at d "question"))) [];
    options = array_field (at d "options");
  });
}

abbrev pub printed : Option Json → Option Text
printed o = elim (present o) [ none ↦ none | some v ↦ some (text_of_json v) ]

abbrev pub on_permission : Fields → ChatMessage → ChatMessage
on_permission d m = record m {
  permission = some (record {
    permission_id = or_else (printed (at d "permissionId")) [];
    permission_kind =
        or_else (or_option (printed (at d "permissionKind")) (printed (at d "permission")))
          (codes "permission");
    tool_name = str (at d "toolName");
    file_path = str (at d "filePath");
    patterns = elim (array_field (at d "patterns")) [
      | none ↦ none
      | some ps ↦ some (strings_of ps)
    ];
    decided = none;
  });
}

-- The status of a visual verification that is to be shown.
unfoldable pub shown_status : Fields → Option Text
unfolding Payload.get ◌==◌
shown_status d =
    let vv = as_record (
      or_option (present (at d "visualVerification"))
        (at (as_record (at d "metadata")) "visualVerification")) in
    elim (str (at vv "status")) [
      | none ↦ none
      | some s ↦ if s == codes "passed" then none else some s
    ]

unfoldable pub failover_of : Fields → Option Failover
unfolding Payload.get
failover_of d =
    let requested = str (at (as_record (at d "requestedModel")) "model") in
    let actual = str (at (as_record (at d "actualModel")) "model") in
    elim requested [
      | none ↦ none
      | some r ↦ elim actual [
        | none ↦ none
        | some a ↦ some (record {
          requested = r;
          actual = a;
          reason = or_else (str (at d "reason")) (codes "no_healthy_candidate");
        })
      ]
    ]

abbrev pub is_false : Option Json → Bool
is_false (some (boolean false)) = true
is_false _ = false

abbrev pub complete_phase : Fields → Text
complete_phase d =
    or_else (text_field (at d "phase"))
      (if is_false (at d "success") then codes "settled_error" else codes "settled_success")

abbrev pub finalize_call : ToolCallView → ToolCallView
finalize_call tc = elim tc.tool_state [
  | running ↦ record tc { tool_state = CallState.completed }
  | _ ↦ tc
]

abbrev pub calls_done : Option (List ToolCallView) → Option (List ToolCallView)
calls_done none = none
calls_done (some cs) = some (map finalize_call cs)

abbrev pub on_complete : Fields → ChatMessage → ChatMessage
on_complete d m = record m {
  status = if complete_phase d == codes "settled_error" then error else complete;
  git_status = text_field (at (as_record (at d "gitPersistence")) "status");
  tool_calls = calls_done m.tool_calls;
}

abbrev pub error_code_of : Fields → Text
error_code_of d = or_else (text_field (at d "code")) (codes "unknown")

abbrev pub clarification : Option Text → Text
clarification none = codes "Needs clarification"
clarification (some label) = codes "Clarify: " ++ label

abbrev pub on_clarification : Fields → ChatMessage → ChatMessage
on_clarification d m = record m {
  status = streaming;
  question = some (record {
    prompt = clarification (text_field (at (as_record (at d "metadata")) "intent_label"));
    options = none;
  });
}
