-- ===== src/Memory.antt =====
-- src/server/sessionMemory.ts: the compact memory of a session, for the prompt of its next turn. The
-- store is the file's `sessions`; reading and writing the file is not modelled.
pub mod Clip
pub mod Turns
use modular_agentic_system.Base.{
  ℕ, suc, ◌+◌, ◌-◌, ◌≤◌, Bool, true, false, ◌||◌, ◌&&◌, List, [], ◌∷◌, ◌++◌, Option, none, some,
  Text, codes, length, take, drop, ltb, leb, nat_eq, if◌then◌else◌, truthy, truthy_text, or_else,
  join,
}
use modular_agentic_system.Base.Decimal.{decimal}
use modular_agentic_system.Base.Map
use modular_agentic_system.Base.Map.{Map}
use modular_agentic_system.Events.{TerminalCause, done, error, cancelled, ErrorInfo}
use modular_agentic_system.Settlement.{RunResult}

abbrev pub max_turns : ℕ
max_turns = 6

abbrev pub max_field : ℕ
max_field = 700

abbrev pub max_prompt_context : ℕ
max_prompt_context = 2400

pub record SessionTurnMemory : Type 0 where
  pub run_id : Text
  pub prompt : Text
  pub outcome : Text
  pub final_text : Option Text
  pub at : ℕ

pub record SessionMemory : Type 0 where
  pub session_id : Text
  pub owner_id : Text
  pub updated_at : ℕ
  pub turns : List SessionTurnMemory
  pub summary : Text

unfoldable pub key : Text → Text → Text
key owner_id session_id = owner_id ++ (codes ":" ++ session_id)

-- What `\s` matches and `trim` takes off.
unfoldable pub is_space : ℕ → Bool
is_space c =
    (leb 9 c && leb c 13)
    || nat_eq c 32
    || nat_eq c 160
    || nat_eq c 5760
    || (leb 8192 c && leb c 8202)
    || nat_eq c 8232
    || nat_eq c 8233
    || nat_eq c 8239
    || nat_eq c 8287
    || nat_eq c 12288
    || nat_eq c 65279

-- `replace(/\s+/g, ' ')`; `within` says that the run of spaces has begun.
unfoldable pub squeeze : (within : Bool) → Text → Text
squeeze within [] = []
squeeze within (c ∷ cs) =
    let after = squeeze true cs in
    let rest = squeeze false cs in
    if is_space c then (if within then after else 32 ∷ after) else c ∷ rest

unfoldable pub trim_start : Text → Text
trim_start [] = []
trim_start (c ∷ cs) = let rest = trim_start cs in if is_space c then rest else c ∷ cs

unfoldable pub trim_end : Text → Text
trim_end [] = []
trim_end (c ∷ cs) =
    let rest = trim_end cs in if is_space c && nat_eq (length rest) 0 then [] else c ∷ rest

unfoldable pub clip : Text → (limit : ℕ) → Text
unfolding squeeze trim_start trim_end
clip value limit =
    let text = trim_end (trim_start (squeeze false value)) in
    if leb (length text) limit then text else trim_end (take (limit - 3) text) ++ codes "..."

abbrev error_suffix : Option ErrorInfo → Text
error_suffix none = []
error_suffix (some e) = if truthy_text e.code then codes ":" ++ e.code else []

unfoldable pub result_outcome : RunResult → Text
result_outcome r = elim r.cause [
  | done ↦ codes "done"
  | error ↦ codes "error" ++ error_suffix r.error
  | cancelled ↦ codes "cancelled"
]

abbrev assistant_bit : Option Text → List Text
assistant_bit t = if truthy t then (codes "Assistant: " ++ or_else t []) ∷ [] else []

-- The turn at a 0-based index.
unfoldable pub turn_line : ℕ → SessionTurnMemory → Text
turn_line index turn = join (codes " | ") (
    (decimal (index + 1) ++ (codes ". User: " ++ turn.prompt))
    ∷ (codes "Outcome: " ++ turn.outcome)
    ∷ assistant_bit turn.final_text)

unfoldable pub turn_lines : ℕ → List SessionTurnMemory → List Text
unfolding turn_line
turn_lines index [] = []
turn_lines index (turn ∷ turns) = turn_line index turn ∷ turn_lines (index + 1) turns

unfoldable pub build_summary : List SessionTurnMemory → Text
unfolding turn_lines
build_summary turns = join (10 ∷ []) (turn_lines 0 turns)

unfoldable pub get_session_memory : Text → Text → Map SessionMemory → Option SessionMemory
unfolding key
get_session_memory owner_id session_id store = Map.get (key owner_id session_id) store

abbrev pub turns_of : Option SessionMemory → List SessionTurnMemory
turns_of none = []
turns_of (some m) = m.turns

-- `slice(-most)`
unfoldable pub last : ℕ → List SessionTurnMemory → List SessionTurnMemory
last most turns = drop (length turns - most) turns

abbrev pub final_of : Text → Option Text
final_of t = if truthy_text t then some (clip t max_field) else none

unfoldable pub turn_of : (run_id prompt : Text) → RunResult → (now : ℕ) → SessionTurnMemory
unfolding clip result_outcome
turn_of run_id prompt result now = record {
  run_id = run_id;
  prompt = clip prompt max_field;
  outcome = result_outcome result;
  final_text = final_of result.final_text;
  at = now;
}

unfoldable pub update_session_memory :
    (owner_id session_id run_id prompt : Text)
    → RunResult
    → (now : ℕ) → Map SessionMemory
    → Map SessionMemory × SessionMemory
unfolding key turn_of last build_summary
update_session_memory owner_id session_id run_id prompt result now store =
    let previous = Map.get (key owner_id session_id) store in
    let turns = last max_turns (turns_of previous ++ (turn_of run_id prompt result now ∷ [])) in
    let memory : SessionMemory = record {
      session_id = session_id;
      owner_id = owner_id;
      updated_at = now;
      turns = turns;
      summary = build_summary turns;
    } in
    (Map.set (key owner_id session_id) memory store, memory)

unfoldable pub prompt_with_session_memory : Text → Option SessionMemory → Text
unfolding clip
prompt_with_session_memory prompt none = prompt
prompt_with_session_memory prompt (some memory) = elim memory.turns [
  | [] ↦ prompt
  | _ ∷ _ ↦ join (10 ∷ []) (
      codes "Previous context for this session:"
      ∷ clip memory.summary max_prompt_context
      ∷ []
      ∷ codes "Current user request:"
      ∷ prompt
      ∷ [])
]
