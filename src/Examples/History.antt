-- ===== src/Examples/History.antt =====
-- Runs of the theorems on src/server/sessionMemory.ts and src/server/db/.
use modular_agentic_system.Base.{
  if◌then◌else◌, refl, false, nat_eq, get_elem?, ◌==◌, ℕ, ◌≡◌, true, List, [], ◌∷◌, none, some,
  Text, codes,
}
use modular_agentic_system.Base.Map
use modular_agentic_system.Events.{
  EngineEvent, stream_chunk, tool_call, tool_result, final_text, terminal, done,
}
use modular_agentic_system.Memory.{SessionMemory, turns_of, last, max_turns, build_summary}
use modular_agentic_system.Memory.Turns
use modular_agentic_system.Memory.Turns.{Update, history, update-replay, key-injective}
use modular_agentic_system.Persistence
use modular_agentic_system.Persistence.{content, on_event, Accumulator, ToolCallAcc, state_of}
use modular_agentic_system.Persistence.Content.{on_events, events_of, content-summarise}
use modular_agentic_system.Persistence.Landing.{result_lands}
use modular_agentic_system.Settlement.{RunResult}
use modular_agentic_system.Settlement.Refine.{summarise}

abbrev result : RunResult
result = summarise (codes "r") done (final_text (codes "ok") ∷ terminal done none ∷ [])

abbrev update : Update
update = record {
  owner_id = codes "ann";
  session_id = codes "s";
  run_id = codes "r";
  prompt = codes "build it";
  result = result;
  now = 7;
}

abbrev memory : SessionMemory
memory = record {
  session_id = codes "s";
  owner_id = codes "ann";
  updated_at = 7;
  turns = [];
  summary = [];
}

abbrev past : List Update
past = update ∷ update ∷ []

update-replay_example :
    (turns_of (Map.get (codes "ann:s") (Turns.replay past))
      ≡ last max_turns (history (codes "ann:s") past))
    × ((m : SessionMemory)
        → Map.get (codes "ann:s") (Turns.replay past) ≡ some m
        → m.summary ≡ build_summary m.turns)
update-replay_example = update-replay (codes "ann:s") past

abbrev events : List (ℕ × EngineEvent)
events =
    (1, stream_chunk (codes "hi"))
    ∷ (2, tool_call (codes "bash") none (some (codes "c1")))
    ∷ (3, tool_result true (some (codes "out")) (some (codes "c1")))
    ∷ (4, terminal done none)
    ∷ []

content-summarise_example :
    content (summarise (codes "r") done (events_of events)) (on_events events Persistence.new)
    ≡ (summarise (codes "r") done (events_of events)).final_text
content-summarise_example = content-summarise (codes "r") done events

-- Two calls under way at the same time.
abbrev meanwhile : List (ℕ × EngineEvent)
meanwhile =
    (2, tool_call (codes "read") none (some (codes "d")))
    ∷ (3, tool_result true (some (codes "text")) (some (codes "d")))
    ∷ []

abbrev called : Accumulator
called =
    on_events meanwhile
      (on_event 1 (tool_call (codes "bash") none (some (codes "c"))) Persistence.new)

elsewhere : (codes "d" == codes "c") ≡ false
unfolding ◌==◌
elsewhere = refl

result_lands_example :
    (entry : ToolCallAcc) × (get_elem? called.tool_calls 0 ≡ some entry)
    × (entry.call_id ≡ codes "c")
    × (entry.tool ≡ codes "bash")
    × ((j : ℕ)
        → get_elem? (on_event 4 (tool_result false none (some (codes "c"))) called).tool_calls j ≡ (
            if nat_eq j 0
            then some (record entry { tool_state = state_of false; content = none })
            else get_elem? called.tool_calls j))
unfolding Persistence.new
result_lands_example =
    result_lands Persistence.new 1 4 (codes "bash") none (codes "c") meanwhile false none
      (elsewhere, (tt, tt))

abbrev appends : List (Text × EngineEvent)
appends =
    (codes "a", stream_chunk (codes "x"))
    ∷ (codes "b", stream_chunk (codes "y"))
    ∷ (codes "a", terminal done none)
    ∷ []
