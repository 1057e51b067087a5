-- ===== src/Chat/Phase.antt =====
-- How the end of a run in the kernel's stream ends it in the chat.
use modular_agentic_system.Base.{◌≡◌, refl, Option, none, Text, map, ◌==◌}
use modular_agentic_system.Chat.{ReducerState, apply_frame, apply_frames}
use modular_agentic_system.Chat.Frame.{
  RunPhase, settled_success, settled_error, ChatStatus, ready, fails,
}
use modular_agentic_system.Chat.Heard.{frame_of}
use modular_agentic_system.Events.{terminal, TerminalCause, done, error, cancelled, ErrorInfo}
use modular_agentic_system.Translator.{KernelTranslator, translate, settle}
use modular_agentic_system.Translator.Wire.{wire}

abbrev pub phase_of : TerminalCause → RunPhase
phase_of error = settled_error
phase_of done = settled_success
phase_of cancelled = settled_success

abbrev pub status_of : TerminalCause → ChatStatus
status_of error = fails
status_of done = ready
status_of cancelled = ready

-- A terminal event of the kernel ends the run in the chat, from any state of the translator and of the
-- chat: no question and no permission is pending, and the phase and the status are those of an error for
-- an error, and of a success for all else; so a run that was cancelled is shown as one that succeeded.
pub terminal-phase :
    (app_path run_id : Text) (cause : TerminalCause) (why : Option ErrorInfo) (s : KernelTranslator)
    (r : ReducerState)
    → let run =
        (apply_frames run_id
          (map frame_of (translate app_path (wire (terminal cause why)) s).1)
          r).run in
      (run.phase ≡ phase_of cause)
      × (run.status ≡ status_of cause)
      × (run.pending_question ≡ none)
      × (run.pending_permission ≡ none)
unfolding translate wire settle frame_of apply_frames apply_frame ◌==◌
terminal-phase app_path run_id error why s r = (refl, refl, refl, refl)
terminal-phase app_path run_id done why s r = (refl, refl, refl, refl)
terminal-phase app_path run_id cancelled why s r = (refl, refl, refl, refl)
