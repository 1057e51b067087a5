-- ===== src/Settlement.antt =====
-- src/kernel/settlement.ts: the accumulator of one run. Money is counted in units of a millionth
-- of a dollar, the precision that `toFixed(6)` keeps: an input token costs 3 and an output token 15.
pub mod Spec
pub mod Refine
use modular_agentic_system.Base.{
  ℕ, ◌+◌, ◌*◌, Bool, true, false, List, [], ◌∷◌, ◌++◌, Option, none, some, Text, text_or,
  if◌then◌else◌,
}
use modular_agentic_system.Events.{
  EngineEvent, stream_chunk, usage_delta, final_text, terminal, TerminalCause, done, ErrorInfo,
}

pub record Usage : Type 0 where
  pub input_tokens : ℕ
  pub output_tokens : ℕ

pub record RunResult : Type 0 where
  pub run_id : Text
  pub cause : TerminalCause
  pub final_text : Text
  pub usage : Usage
  pub cost : ℕ
  pub error : Option ErrorInfo

abbrev pub price_per_input_token : ℕ
price_per_input_token = 3

abbrev pub price_per_output_token : ℕ
price_per_output_token = 15

pub record Settlement : Type 0 where
  pub run_id : Text
  pub final_text : Text
  pub stream_buffer : Text
  pub input_tokens : ℕ
  pub output_tokens : ℕ
  pub settled : Bool
  pub settled_cause : TerminalCause
  pub settled_error : Option ErrorInfo

unfoldable pub new : Text → Settlement
new run_id = record {
  run_id = run_id;
  final_text = [];
  stream_buffer = [];
  input_tokens = 0;
  output_tokens = 0;
  settled = false;
  settled_cause = done;
  settled_error = none;
}

unfoldable pub snapshot : Settlement → RunResult
snapshot s = record {
  run_id = s.run_id;
  cause = s.settled_cause;
  final_text = text_or s.final_text s.stream_buffer;
  usage = record { input_tokens = s.input_tokens; output_tokens = s.output_tokens };
  cost = s.input_tokens * price_per_input_token + s.output_tokens * price_per_output_token;
  error = s.settled_error;
}

-- The first call records the cause; later calls return what is recorded.
unfoldable pub settle : TerminalCause → Option ErrorInfo → Settlement → Settlement × RunResult
unfolding snapshot
settle cause error s =
    let s' =
      if s.settled
      then s
      else record s { settled = true; settled_cause = cause; settled_error = error } in
    (s', snapshot s')

-- The result is there for a terminal event only.
unfoldable pub observe : EngineEvent → Settlement → Settlement × Option RunResult
unfolding settle
observe (stream_chunk t) s = (record s { stream_buffer = s.stream_buffer ++ t }, none)
observe (final_text t) s = (record s { final_text = t }, none)
observe (usage_delta i o) s =
    (record s { input_tokens = s.input_tokens + i; output_tokens = s.output_tokens + o }, none)
observe (terminal cause error) s = let (s', r) = settle cause error s in (s', some r)
observe _ s = (s, none)

-- The events of a run, folded in order.
unfoldable pub observe_all : List EngineEvent → Settlement → Settlement
observe_all [] s = s
observe_all (ev ∷ evs) s = observe_all evs (observe ev s).0
