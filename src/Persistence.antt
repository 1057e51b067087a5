-- ===== src/Persistence.antt =====
-- What is kept of a run: src/server/db/persistence.ts, which folds the stream into the message of the
-- transcript, and src/server/db/runStore.ts, which numbers the events. The database is not modelled:
-- what is handed to it is.
pub mod Content
pub mod Landing
pub mod Sequence
use modular_agentic_system.Base.{
  ℕ, suc, ◌+◌, ◌-◌, Bool, true, false, List, [], ◌∷◌, ◌++◌, Option, none, some, Text, codes, length,
  truthy_text, text_or, or_else, take, nat_eq, if◌then◌else◌,
}
use modular_agentic_system.Base.Decimal.{decimal}
use modular_agentic_system.Base.Map
use modular_agentic_system.Base.Map.{Map}
use modular_agentic_system.Events.{
  Json, EngineEvent, stream_chunk, tool_call, tool_result, final_text, log, terminal, TerminalCause,
  done, error, cancelled, Level, info, warn, severe, ErrorInfo,
}
use modular_agentic_system.Settlement.{RunResult, Usage}

pub data ToolState : Type 0 where
  running completed failed : ToolState

pub record ToolCallAcc : Type 0 where
  pub tool : Text
  pub call_id : Text
  pub tool_state : ToolState
  pub raw : Option Json
  pub content : Option Text
  pub started_at : ℕ

-- `tool_by_call` shares its entries with `tool_calls`: it has their places in that list.
pub record Accumulator : Type 0 where
  pub content_chunks : List (Text × ℕ)
  pub tool_calls : List ToolCallAcc
  pub tool_by_call : Map ℕ
  pub final_text : Text

unfoldable pub new : Accumulator
new = record { content_chunks = []; tool_calls = []; tool_by_call = []; final_text = [] }

-- The part of the model's name before the first slash; an empty name is none.
unfoldable pub before_slash : Text → Text
before_slash [] = []
before_slash (c ∷ cs) = let rest = before_slash cs in if nat_eq c 47 then [] else c ∷ rest

unfoldable pub provider_of : Option Text → Option Text
unfolding before_slash
provider_of none = none
provider_of (some model) = if truthy_text model then some (before_slash model) else none

abbrev pub call_name : ℕ → Text
call_name n = codes "call-" ++ decimal n

abbrev pub state_of : Bool → ToolState
state_of ok = if ok then completed else failed

-- An assignment to the entry at a place.
unfoldable pub update_at : ℕ → (ToolCallAcc → ToolCallAcc) → List ToolCallAcc → List ToolCallAcc
update_at i f [] = []
update_at i f (x ∷ xs) = if nat_eq i 0 then f x ∷ xs else x ∷ update_at (i - 1) f xs

abbrev pub finish_entry : Bool → Option Text → ToolCallAcc → ToolCallAcc
finish_entry ok output entry = record entry { tool_state = state_of ok; content = output }

abbrev pub orphan : Bool → Option Text → Text → ℕ → ToolCallAcc
orphan ok output call_id at = record {
  tool = codes "tool";
  call_id = call_id;
  tool_state = state_of ok;
  raw = none;
  content = output;
  started_at = at;
}

abbrev pub started : Text → Option Json → Text → ℕ → ToolCallAcc
started name args call_id at = record {
  tool = name;
  call_id = call_id;
  tool_state = running;
  raw = args;
  content = none;
  started_at = at;
}

-- The fold of `onEvent`, at a time.
unfoldable pub on_event : (at : ℕ) → EngineEvent → Accumulator → Accumulator
unfolding update_at
on_event at (stream_chunk text) a =
    if truthy_text text
    then record a { content_chunks = a.content_chunks ++ ((text, at) ∷ []) }
    else a
on_event at (EngineEvent.final_text text) a = record a { final_text = text }
on_event at (tool_call name args id) a =
    let call_id = or_else id (call_name (length a.tool_calls)) in
    record a {
      tool_by_call = Map.set call_id (length a.tool_calls) a.tool_by_call;
      tool_calls = a.tool_calls ++ (started name args call_id at ∷ []);
    }
on_event at (tool_result ok output id) a =
    let call_id = or_else id [] in
    elim (Map.get call_id a.tool_by_call) [
      | some i ↦ record a { tool_calls = update_at i (finish_entry ok output) a.tool_calls }
      | none ↦ record a {
        tool_calls =
            a.tool_calls
            ++ (orphan ok output (text_or call_id (call_name (length a.tool_calls))) at ∷ []);
      }
    ]
on_event at _ a = a

unfoldable pub chunk_text : List (Text × ℕ) → Text
chunk_text [] = []
chunk_text ((text, at) ∷ chunks) = text ++ chunk_text chunks

-- The text of the assistant's message.
unfoldable pub content : RunResult → Accumulator → Text
unfolding chunk_text
content result a = text_or result.final_text (text_or a.final_text (chunk_text a.content_chunks))

-- `nextSeq`
unfoldable pub next_seq : Text → Map ℕ → Map ℕ × ℕ
next_seq run_id counters =
    let n = or_else (Map.get run_id counters) 0 + 1 in (Map.set run_id n counters, n)

unfoldable pub level_for : EngineEvent → Level
level_for (terminal error why) = severe
level_for (terminal done why) = info
level_for (terminal cancelled why) = info
level_for (log category level message at) = level
level_for (tool_result ok output id) = if ok then info else warn
level_for _ = info

-- A row of `run_events`.
pub record EventRow : Type 0 where
  pub run_id : Text
  pub level : Level
  pub data_of : EngineEvent
  pub seq : ℕ

unfoldable pub append_run_event : Text → EngineEvent → Map ℕ → Map ℕ × EventRow
unfolding next_seq level_for
append_run_event run_id ev counters =
    let (counters', n) = next_seq run_id counters in
    (counters', record { run_id = run_id; level = level_for ev; data_of = ev; seq = n })

pub data RunStatus : Type 0 where
  failed_run succeeded : RunStatus

pub record RunRow : Type 0 where
  pub status : RunStatus
  pub duration_ms : ℕ
  pub summary : RunResult

abbrev pub status_of : TerminalCause → RunStatus
status_of error = failed_run
status_of done = succeeded
status_of cancelled = succeeded

-- The update of the run's row that was written: after it, the counter goes.
unfoldable pub complete_run : Text → RunResult → (started_at now : ℕ) → Map ℕ → Map ℕ × RunRow
complete_run run_id result started_at now counters = (
  Map.delete run_id counters,
  record { status = status_of result.cause; duration_ms = now - started_at; summary = result },
)
