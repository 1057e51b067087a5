-- ===== src/Server/RunHistory.antt =====
-- src/server/runHistory.ts: the runs that are kept when there is no database. The file is its lines, each a
-- run or one that `JSON.parse` refuses, and what stands after the last newline. A write to it may fail, also
-- part of the way; a read that fails is that of a missing file, with no lines.
use modular_agentic_system.Base.{
  ℕ, suc, ◌-◌, List, [], ◌∷◌, ◌++◌, Option, none, some, Text, ◌==◌, leb, truthy, map, if◌then◌else◌,
}
use modular_agentic_system.Events.{EngineEvent, preview_ready, TerminalCause}
use modular_agentic_system.Settlement.{RunResult}

pub record RunMetadata : Type 0 where
  pub run_id : Text
  pub session_id : Text
  pub timestamp : ℕ
  pub harness_ref : Text
  pub env_ref : Text
  pub model : Option Text
  pub prompt : Text
  pub input_tokens : ℕ
  pub output_tokens : ℕ
  pub cost : ℕ
  pub duration_ms : ℕ
  pub terminal_cause : Option TerminalCause
  pub sandbox_id : Option Text
  pub preview_url : Option Text

pub record PersistedRun : Type 0 where
  pub metadata : RunMetadata
  pub events : List EngineEvent

pub record RunRecorder : Type 0 where
  pub events : List EngineEvent
  pub preview_url : Option Text
  pub sandbox_id : Option Text
  pub started_at : ℕ
  pub run_id : Text
  pub session_id : Text
  pub harness_ref : Text
  pub env_ref : Text
  pub model : Option Text
  pub prompt : Text

abbrev pub preview_after : EngineEvent → Option Text → Option Text
preview_after (preview_ready url port) before = some url
preview_after _ before = before

unfoldable pub observe : EngineEvent → RunRecorder → RunRecorder
observe ev r = record r {
  events = r.events ++ (ev ∷ []);
  preview_url = preview_after ev r.preview_url;
}

unfoldable pub observe_all : List EngineEvent → RunRecorder → RunRecorder
unfolding observe
observe_all [] r = r
observe_all (ev ∷ evs) r = observe_all evs (observe ev r)

unfoldable pub set_sandbox_id : Option Text → RunRecorder → RunRecorder
set_sandbox_id id r = if truthy id then record r { sandbox_id = id } else r

pub data Line : Type 0 where
  parses : PersistedRun → Line
  corrupt : Line

-- How an append of a run's line ends: whole, with nothing written (as when the directory cannot be made),
-- within the JSON text, or with all of it but the newline.
pub data Write : Type 0 where
  written unwritten torn unended : Write

-- `fate` says how each append goes, by its number.
pub record RunFile : Type 0 where
  pub lines : List Line
  pub tail : Option Line
  pub appends : ℕ
  pub fate : ℕ → Write

-- The line that a run's text makes: alone, or behind text that no newline ends. A JSON object's text after
-- a JSON object's text, whole or cut, does not parse.
abbrev pub line_after : Option Line → PersistedRun → Line
line_after none run = parses run
line_after (some before) run = corrupt

unfoldable pub write_line : Write → PersistedRun → RunFile → RunFile
write_line written run file = record file {
  lines = file.lines ++ (line_after file.tail run ∷ []);
  tail = none;
}
write_line unwritten run file = file
write_line torn run file = record file { tail = some corrupt }
write_line unended run file = record file { tail = some (line_after file.tail run) }

-- `appendRun`: a failure is only logged.
unfoldable pub append_run : PersistedRun → RunFile → RunFile
unfolding write_line
append_run run file =
    write_line (file.fate file.appends) run (record file { appends = suc file.appends })

-- The run that is returned, and the file after the write, however it goes.
unfoldable pub finalize : RunResult → (now : ℕ) → RunRecorder → RunFile → RunFile × PersistedRun
unfolding append_run
finalize result now r file =
    let run : PersistedRun = record {
      metadata = record {
        run_id = r.run_id;
        session_id = r.session_id;
        timestamp = r.started_at;
        harness_ref = r.harness_ref;
        env_ref = r.env_ref;
        model = r.model;
        prompt = r.prompt;
        input_tokens = result.usage.input_tokens;
        output_tokens = result.usage.output_tokens;
        cost = result.cost;
        duration_ms = now - r.started_at;
        terminal_cause = some result.cause;
        sandbox_id = r.sandbox_id;
        preview_url = r.preview_url;
      };
      events = r.events;
    } in
    (append_run run file, run)

-- `sort((a, b) => b.timestamp - a.timestamp)` keeps the order of runs of one time.
unfoldable pub insert_run : PersistedRun → List PersistedRun → List PersistedRun
insert_run x [] = x ∷ []
insert_run x (y ∷ ys) =
    let rest = insert_run x ys in
    if leb y.metadata.timestamp x.metadata.timestamp then x ∷ y ∷ ys else y ∷ rest

unfoldable pub newest_first : List PersistedRun → List PersistedRun
unfolding insert_run
newest_first [] = []
newest_first (x ∷ xs) = insert_run x (newest_first xs)

-- The runs of the lines that parse.
unfoldable pub parsed : List Line → List PersistedRun
parsed [] = []
parsed (parses run ∷ ls) = run ∷ parsed ls
parsed (corrupt ∷ ls) = parsed ls

abbrev pub last_line : Option Line → List Line
last_line none = []
last_line (some l) = l ∷ []

unfoldable pub read_all_runs : RunFile → List PersistedRun
unfolding newest_first parsed
read_all_runs file = newest_first (parsed (file.lines ++ last_line file.tail))

unfoldable pub list_run_metadata : RunFile → List RunMetadata
unfolding read_all_runs
list_run_metadata file = map (λ (r : PersistedRun). r.metadata) (read_all_runs file)

unfoldable pub find_run : Text → List PersistedRun → Option PersistedRun
find_run run_id [] = none
find_run run_id (r ∷ rs) =
    let rest = find_run run_id rs in if r.metadata.run_id == run_id then some r else rest

unfoldable pub get_run : Text → RunFile → Option PersistedRun
unfolding find_run read_all_runs
get_run run_id file = find_run run_id (read_all_runs file)
