-- ===== src/Chat/Frame.antt =====
-- The frames that apps/next/src/features/chat/adapters/streamReducer.ts reads.
use modular_agentic_system.Base.{ℕ, Bool, Option, Text}
use modular_agentic_system.Base.Map.{Map}
use modular_agentic_system.Events.{Json}

pub data RunPhase : Type 0 where
  idle dispatching preparing streaming verifying waiting_children waiting_input : RunPhase
  settled_success settled_incomplete settled_error cancelled : RunPhase

pub data ChatStatus : Type 0 where
  submitted streams ready fails : ChatStatus

-- The arguments of a tool: none, an object's, or a value that is no object.
pub data RawInput : Type 0 where
  absent : RawInput
  fields : Map Json → RawInput
  value : Json → RawInput

pub record ToolFrame : Type 0 where
  pub name : Text
  pub tool_state : Option Text
  pub raw : RawInput
  pub call_id : Option Text
  pub child_session_id : Option Text
  pub depth : Option ℕ
  pub content : Option Text

pub data Payload : Type 0 where
  text : Text → Payload
  thinking : Text → Payload
  tool_use : ToolFrame → Payload
  message : Text → Payload
  unknown : Payload

pub data StreamFrame : Type 0 where
  start : StreamFrame
  run_snapshot : (phase : Option RunPhase) (why : Option Text) → StreamFrame
  progress : Payload → StreamFrame
  question : (pending : Option Text) → StreamFrame
  permission : (pending : Option Text) → StreamFrame
  complete : (success : Bool) (phase : Option Text) → StreamFrame
  usage : (input_tokens output_tokens cost : Option ℕ) → StreamFrame
  failure : (why code : Option Text) → StreamFrame
  other : StreamFrame
