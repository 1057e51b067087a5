-- ===== src/Chat/Parts.antt =====
-- The parts of a message, in apps/next/src/features/chat/adapters/streamReducer.ts: text, thoughts and
-- errors.
use modular_agentic_system.Base.{
  ℕ, Bool, true, false, ◌&&◌, not, List, [], ◌∷◌, ◌++◌, Option, none, some, Text, codes, ◌==◌,
  length, filter, or_else, if◌then◌else◌, truthy_text,
}
use modular_agentic_system.Base.Decimal.{decimal}
use modular_agentic_system.Base.Map
use modular_agentic_system.Base.Map.{Map}
use modular_agentic_system.Events.{Json, string}

pub data PartState : Type 0 where
  input_streaming input_available output_available output_error : PartState

pub record ToolPart : Type 0 where
  pub type_name : Text
  pub tool_call_id : Text
  pub state : PartState
  pub input : Option (Map Json)
  pub output : Option Json

pub data Part : Type 0 where
  text_part : Text → Part
  tool_part : ToolPart → Part
  error_part : Text → Part

abbrev pub thinking_type : Text
thinking_type = codes "tool-Thinking"

abbrev pub is_streaming : PartState → Bool
is_streaming input_streaming = true
is_streaming _ = false

abbrev pub is_text : Part → Bool
is_text (text_part t) = true
is_text (tool_part t) = false
is_text (error_part m) = false

-- A thought that still grows is done.
abbrev pub settle_part : Part → Part
settle_part (tool_part t) =
    if t.type_name == thinking_type && is_streaming t.state
    then tool_part (record t { state = output_available })
    else tool_part t
settle_part (text_part t) = text_part t
settle_part (error_part m) = error_part m

-- A change of the last part, where it is a thought that still grows.
unfoldable pub finalize_streaming_thinking : List Part → List Part
finalize_streaming_thinking [] = []
finalize_streaming_thinking (p ∷ []) = settle_part p ∷ []
finalize_streaming_thinking (p ∷ q ∷ ps) = p ∷ finalize_streaming_thinking (q ∷ ps)

-- The parts of `finalizeThinkingOnSettle`.
unfoldable pub settle_thinking : List Part → List Part
settle_thinking [] = []
settle_thinking (p ∷ ps) = settle_part p ∷ settle_thinking ps

-- Text goes to a text part at the end, or makes one.
unfoldable pub add_text : Text → List Part → List Part
add_text t [] = text_part t ∷ []
add_text t (text_part u ∷ []) = text_part (u ++ t) ∷ []
add_text t (tool_part u ∷ []) = tool_part u ∷ text_part t ∷ []
add_text t (error_part u ∷ []) = error_part u ∷ text_part t ∷ []
add_text t (p ∷ q ∷ ps) = p ∷ add_text t (q ∷ ps)

unfoldable pub append_text : List Part → Text → List Part
unfolding finalize_streaming_thinking add_text
append_text parts t =
    if truthy_text t then add_text t (finalize_streaming_thinking parts) else parts

abbrev pub thought_of : Option Json → Text
thought_of (some (string t)) = t
thought_of _ = []

abbrev pub thought_key : Text
thought_key = codes "thought"

abbrev pub new_thought : ℕ → Text → Part
new_thought n t = tool_part (record {
  type_name = thinking_type;
  tool_call_id = codes "thinking-" ++ decimal n;
  state = input_streaming;
  input = some ((thought_key, string t) ∷ []);
  output = none;
})

abbrev pub grown : Text → ToolPart → ToolPart
grown t p =
    let before = or_else p.input [] in
    record p {
      state = input_streaming;
      input =
          some (Map.set thought_key (string (thought_of (Map.get thought_key before) ++ t)) before);
    }

-- A thought goes to a thought at the end, or makes one, named by the count `n` of the parts.
unfoldable pub add_thought : (n : ℕ) → Text → List Part → List Part
add_thought n t [] = new_thought n t ∷ []
add_thought n t (text_part u ∷ []) = text_part u ∷ new_thought n t ∷ []
add_thought n t (error_part u ∷ []) = error_part u ∷ new_thought n t ∷ []
add_thought n t (tool_part p ∷ []) =
    if p.type_name == thinking_type
    then tool_part (grown t p) ∷ []
    else tool_part p ∷ new_thought n t ∷ []
add_thought n t (p ∷ q ∷ ps) = p ∷ add_thought n t (q ∷ ps)

unfoldable pub append_thinking : List Part → Text → List Part
unfolding add_thought
append_thinking parts t = if truthy_text t then add_thought (length parts) t parts else parts

-- A final message takes the place of all text.
unfoldable pub replace_text : List Part → Text → List Part
replace_text parts full = filter (λ p. not (is_text p)) parts ++ (text_part full ∷ [])
