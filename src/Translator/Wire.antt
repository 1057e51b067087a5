-- ===== src/Translator/Wire.antt =====
-- The frames on the wire: apps/next/src/core/kernelEvents.ts, whose fields may all be missing, and
-- the events of the kernel as they are sent, flat, by src/server/sse.ts.
use modular_agentic_system.Base.{ℕ, Bool, Option, none, some, Text, codes}
use modular_agentic_system.Events
use modular_agentic_system.Events.{
  EngineEvent, ErrorInfo, Json, TerminalCause, done, error, cancelled,
}

-- An error on the wire.
pub record WireError : Type 0 where
  pub code : Option Text
  pub message : Option Text

pub record WireUsage : Type 0 where
  pub input_tokens : Option ℕ
  pub output_tokens : Option ℕ

pub data KernelWireEvent : Type 0 where
  run_started : (run_id : Option Text) → KernelWireEvent
  settled :
      (cause : Option Text) (usage : Option WireUsage) (cost : Option ℕ) (why : Option WireError)
      → KernelWireEvent
  stream_chunk : (text : Option Text) → KernelWireEvent
  final_text : (text : Option Text) → KernelWireEvent
  tool_call : (name : Option Text) (args : Option Json) (call_id : Option Text) → KernelWireEvent
  tool_result : (ok : Option Bool) (output : Option Text) (call_id : Option Text) → KernelWireEvent
  preview_ready : (url : Option Text) → KernelWireEvent
  preview_snapshot_ready : KernelWireEvent
  usage_delta : (input_tokens output_tokens : Option ℕ) → KernelWireEvent
  child_started : (child_run_id : Option Text) → KernelWireEvent
  child_settled : (child_run_id cause : Option Text) → KernelWireEvent
  log : KernelWireEvent
  terminal : (cause : Option Text) (why : Option WireError) → KernelWireEvent

abbrev pub cause_name : TerminalCause → Text
cause_name done = codes "done"
cause_name error = codes "error"
cause_name cancelled = codes "cancelled"

abbrev pub wire_error : Option ErrorInfo → Option WireError
wire_error none = none
wire_error (some e) = some (record { code = some e.code; message = some e.message })

unfoldable pub wire : EngineEvent → KernelWireEvent
wire (Events.stream_chunk t) = stream_chunk (some t)
wire (Events.tool_call name args id) = tool_call (some name) args id
wire (Events.tool_result ok output id) = tool_result (some ok) output id
wire (Events.child_started id) = child_started (some id)
wire (Events.child_settled id cause) = child_settled (some id) (some (cause_name cause))
wire (Events.usage_delta i o) = usage_delta (some i) (some o)
wire (Events.preview_ready url port) = preview_ready (some url)
wire (Events.preview_snapshot_ready id count bytes) = preview_snapshot_ready
wire (Events.final_text t) = final_text (some t)
wire (Events.log category level message at) = log
wire (Events.terminal cause why) = terminal (some (cause_name cause)) (wire_error why)
