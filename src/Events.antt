-- ===== src/Events.antt =====
-- The vocabulary that crosses the seams: src/types/events.ts, and the data of src/types/harness.ts
-- that the kernel reads. Values that the kernel only passes on (`unknown`) are `Json`.
use modular_agentic_system.Base.{ℕ, Bool, List, Option, Text}

mutual
  pub data Json : Type 0 where
    null : Json
    boolean : Bool → Json
    number : ℕ → Json
    string : Text → Json
    array : Items → Json
    object : Fields → Json

  pub data Items : Type 0 where
    nil : Items
    cons : Json → Items → Items

  pub data Fields : Type 0 where
    end : Fields
    field : Text → Json → Fields → Fields

pub data TerminalCause : Type 0 where
  done error cancelled : TerminalCause

pub record ErrorInfo : Type 0 where
  pub code : Text
  pub message : Text

pub data Level : Type 0 where
  info warn severe : Level

pub data Category : Type 0 where
  kernel env harness : Category

pub data EngineEvent : Type 0 where
  stream_chunk : Text → EngineEvent
  tool_call : (name : Text) (args : Option Json) (call_id : Option Text) → EngineEvent
  tool_result : (ok : Bool) (output : Option Text) (call_id : Option Text) → EngineEvent
  child_started : Text → EngineEvent
  child_settled : Text → TerminalCause → EngineEvent
  usage_delta : (input_tokens output_tokens : ℕ) → EngineEvent
  preview_ready : (url : Text) (port : ℕ) → EngineEvent
  preview_snapshot_ready : (snapshot_id : Text) (file_count bytes : ℕ) → EngineEvent
  final_text : Text → EngineEvent
  log : Category → Level → (message : Text) (at : ℕ) → EngineEvent
  terminal : TerminalCause → Option ErrorInfo → EngineEvent

pub data ExecutionTopology : Type 0 where
  agent_as_tool agent_in_sandbox : ExecutionTopology

pub record HarnessCapabilities : Type 0 where
  pub topologies : List ExecutionTopology
  pub default_topology : ExecutionTopology
  pub native_tools : Option (List Text)
  pub native_skills : Option (List Text)
