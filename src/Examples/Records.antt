-- ===== src/Examples/Records.antt =====
-- Runs of the theorems on src/server/runHistory.ts.
use modular_agentic_system.Base.{
  ℕ, zero, suc, ◌≡◌, refl, inr, [], ◌∷◌, ◌++◌, List, none, some, codes,
}
use modular_agentic_system.Events.{EngineEvent, stream_chunk, final_text, done}
use modular_agentic_system.Server.Kept.{get_run-finalize, finalize_loses_next}
use modular_agentic_system.Server.RunHistory.{
  RunFile, PersistedRun, Write, unended, written, RunRecorder, finalize, observe_all, get_run,
  parsed,
}
use modular_agentic_system.Settlement.{RunResult}

abbrev fresh_recorder : RunRecorder
fresh_recorder = record {
  events = [];
  preview_url = none;
  sandbox_id = none;
  started_at = 3;
  run_id = codes "r";
  session_id = codes "s";
  harness_ref = codes "speaker";
  env_ref = codes "local";
  model = none;
  prompt = codes "build";
}

abbrev heard : List EngineEvent
heard = stream_chunk (codes "a") ∷ final_text (codes "b") ∷ []

abbrev ended : RunResult
ended = record {
  run_id = codes "r";
  cause = done;
  final_text = codes "b";
  usage = record { input_tokens = 3; output_tokens = 4 };
  cost = 0;
  error = none;
}

abbrev fates : ℕ → Write
fates zero = unended
fates (suc n) = written

abbrev pub no_runs : RunFile
no_runs = record { lines = []; tail = none; appends = 0; fate = fates }

abbrev first_run : RunFile × PersistedRun
first_run = finalize ended 9 (observe_all heard fresh_recorder) no_runs

get_run-finalize_example :
    (get_run (codes "r") first_run.0 ≡ some first_run.1) × (first_run.1.events ≡ [] ++ heard)
unfolding parsed
get_run-finalize_example = get_run-finalize heard fresh_recorder ended 9 no_runs refl

abbrev next_recorder : RunRecorder
next_recorder = record fresh_recorder { run_id = codes "q" }

finalize_loses_next_example :
    let (one, run) = finalize ended 9 fresh_recorder no_runs in
    let (two, run') = finalize ended 11 next_recorder one in
    (get_run (codes "r") one ≡ some run)
    × (get_run (codes "r") two ≡ none)
    × (get_run (codes "q") two ≡ none)
unfolding parsed
finalize_loses_next_example =
    finalize_loses_next fresh_recorder next_recorder ended ended 9 11 no_runs refl refl (inr refl)
      refl
