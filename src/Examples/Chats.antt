-- ===== src/Examples/Chats.antt =====
-- Runs of the theorems on apps/next/src/features/chat/adapters/streamReducer.ts.
use modular_agentic_system.Base.{◌≡◌, refl, true, List, [], ◌∷◌, none, some, codes, map, ◌==◌}
use modular_agentic_system.Chat.{ReducerState, user, assistant, apply_frames}
use modular_agentic_system.Chat.Frame.{settled_success, ready, idle}
use modular_agentic_system.Chat.Heard.{frame_of, heard, apply_frames-heard}
use modular_agentic_system.Chat.Phase.{terminal-phase}
use modular_agentic_system.Chat.Said.{has_id, trailing}
use modular_agentic_system.Chat.Shown.{shown}
use modular_agentic_system.Events.{
  EngineEvent, stream_chunk, child_started, child_settled, terminal, done, cancelled,
}
use modular_agentic_system.Kernel.Brackets.{read}
use modular_agentic_system.Translator
use modular_agentic_system.Translator.{translate, translate_all}
use modular_agentic_system.Translator.Wire.{wire}

abbrev fresh : ReducerState
fresh = record {
  messages =
      record { id = codes "m"; role = user; parts = [] }
      ∷ record { id = codes "assistant-r"; role = assistant; parts = [] }
      ∷ [];
  run = record {
    run_id = some (codes "r");
    phase = idle;
    status = ready;
    pending_question = some (codes "q");
    pending_permission = none;
    error = none;
    usage_of = none;
  };
}

abbrev nested : List EngineEvent
nested =
    stream_chunk (codes "a")
    ∷ child_started (codes "c")
    ∷ stream_chunk (codes "x")
    ∷ child_settled (codes "c") done
    ∷ stream_chunk (codes "b")
    ∷ terminal done none
    ∷ []

well_nested : read 2 nested [] ≡ some []
unfolding read ◌==◌
well_nested = refl

there : has_id (codes "r") fresh.messages ≡ true
unfolding ◌==◌
there = refl

apply_frames-heard_example :
    shown (
      trailing
        (apply_frames
          (codes "r")
          (map frame_of (translate_all [] (map wire nested) Translator.new).1)
          fresh).messages)
    ≡ heard 0 nested (shown (trailing fresh.messages))
unfolding Translator.new
apply_frames-heard_example =
    apply_frames-heard 2 [] (codes "r") nested Translator.new [] fresh (refl, (refl, tt))
      well_nested there refl

terminal-phase_example :
    let run =
      (apply_frames
        (codes "r")
        (map frame_of (translate [] (wire (terminal cancelled none)) Translator.new).1)
        fresh).run in
    (run.phase ≡ settled_success)
    × (run.status ≡ ready)
    × (run.pending_question ≡ none)
    × (run.pending_permission ≡ none)
terminal-phase_example = terminal-phase [] (codes "r") cancelled none Translator.new fresh
