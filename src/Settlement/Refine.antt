-- ===== src/Settlement/Refine.antt =====
-- The fold of src/kernel/settlement.ts against the description of its event stream.
use modular_agentic_system.Base.{
  Text, text_or, ◌*◌, ◌+◌, ◌≡◌, Bool, true, false, List, [], ◌∷◌, ◌++◌, Option, none, some, or_else,
  arith, append_assoc, append-nil, if◌then◌else◌,
}
use modular_agentic_system.Events.{
  EngineEvent, stream_chunk, usage_delta, final_text, terminal, TerminalCause, ErrorInfo,
}
use modular_agentic_system.Settlement.{
  snapshot, settle, new, RunResult, price_per_input_token, price_per_output_token, Settlement,
  observe, observe_all,
}
use modular_agentic_system.Settlement.Spec.{
  input_total, output_total, chunks, last_final, first_terminal,
}

abbrev pub cause_of : Option (TerminalCause × Option ErrorInfo) → TerminalCause → TerminalCause
cause_of none d = d
cause_of (some (c, e)) d = c

abbrev pub error_of :
    Option (TerminalCause × Option ErrorInfo) → Option ErrorInfo → Option ErrorInfo
error_of none d = d
error_of (some (c, e)) d = e

abbrev pub is_there : Option (TerminalCause × Option ErrorInfo) → Bool
is_there none = false
is_there (some _) = true

-- What a fold from the state `s` has to reach.
abbrev pub after : List EngineEvent → Settlement → Settlement
after evs s = record {
  run_id = s.run_id;
  final_text = or_else (last_final evs) s.final_text;
  stream_buffer = s.stream_buffer ++ chunks evs;
  input_tokens = s.input_tokens + input_total evs;
  output_tokens = s.output_tokens + output_total evs;
  settled = if s.settled then true else is_there (first_terminal evs);
  settled_cause =
      if s.settled then s.settled_cause else cause_of (first_terminal evs) s.settled_cause;
  settled_error =
      if s.settled then s.settled_error else error_of (first_terminal evs) s.settled_error;
}

pub observe_all-after : (evs : List EngineEvent) (s : Settlement) → observe_all evs s ≡ after evs s
unfolding observe_all observe input_total output_total chunks last_final first_terminal
observe_all-after [] s = ground (arith, append-nil s.stream_buffer)
observe_all-after (stream_chunk t ∷ evs) s = ground (
  arith,
  observe_all-after evs (observe (stream_chunk t) s).0,
  append_assoc s.stream_buffer t (chunks evs),
)
observe_all-after (final_text t ∷ evs) s =
    ground (arith, observe_all-after evs (observe (final_text t) s).0)
observe_all-after (usage_delta i o ∷ evs) s =
    ground (arith, observe_all-after evs (observe (usage_delta i o) s).0)
observe_all-after (terminal c e ∷ evs) s =
    ground (arith, observe_all-after evs (observe (terminal c e) s).0)
observe_all-after (_ ∷ evs) s = observe_all-after evs s

-- The result that the event stream determines, where `fallback` is the cause for want of a terminal.
abbrev pub summarise : Text → TerminalCause → List EngineEvent → RunResult
summarise run_id fallback evs = record {
  run_id = run_id;
  cause = cause_of (first_terminal evs) fallback;
  final_text = text_or (or_else (last_final evs) []) (chunks evs);
  usage = record { input_tokens = input_total evs; output_tokens = output_total evs };
  cost = input_total evs * price_per_input_token + output_total evs * price_per_output_token;
  error = error_of (first_terminal evs) none;
}

-- For every run id, event list and fallback cause: the result that `settle` returns after a new
-- settlement has observed the events is the summary of the event list. The cause and error are those
-- of the first terminal event (the fallback and no error if there is none), the usage is the sum of
-- all usage deltas, also those behind the terminal, and the text is the last final text, or the
-- joined chunks where that is missing or empty.
pub settle-summarise :
    (run_id : Text) (fallback : TerminalCause) (evs : List EngineEvent)
    → (settle fallback none (observe_all evs (new run_id))).1 ≡ summarise run_id fallback evs
unfolding settle snapshot new
settle-summarise run_id fallback evs = ground (arith, observe_all-after evs (new run_id))

-- A settled settlement is not settled anew: from any state that has its cause, every further event
-- and every further `settle` leave the cause and the error as they are.
pub settle-keeps :
    (s : Settlement) (evs : List EngineEvent) (cause : TerminalCause) (error : Option ErrorInfo)
    → s.settled ≡ true
    → let r = (settle cause error (observe_all evs s)).1 in
      (r.cause ≡ s.settled_cause) × (r.error ≡ s.settled_error)
unfolding settle snapshot
settle-keeps s evs cause error h = ground (arith, observe_all-after evs s)
