-- ===== src/Server/Message.antt =====
-- `POST /message` of src/server/http.ts: one message, from the request to the frames of the response.
use modular_agentic_system.Base.{
  ℕ, ◌+◌, Bool, ◌&&◌, List, [], ◌∷◌, ◌++◌, Option, none, some, Text, codes, ◌==◌, take, drop, map,
  length, contains, truthy, or_else, if◌then◌else◌,
}
use modular_agentic_system.Base.Map
use modular_agentic_system.Base.Outcome.{Outcome, ok, throws}
use modular_agentic_system.Events.{EngineEvent}
use modular_agentic_system.Kernel.{Kernel}
use modular_agentic_system.Kernel.Narration.{adoption}
use modular_agentic_system.Kernel.Run.{Handled, run_message}
use modular_agentic_system.Memory.{
  get_session_memory, prompt_with_session_memory, update_session_memory,
}
use modular_agentic_system.Orchestrator.{Registries}
use modular_agentic_system.Persistence
use modular_agentic_system.Persistence.{Accumulator, on_event}
use modular_agentic_system.Server.{Server, MessageBody, draw_uuid, session_for, message_config}
use modular_agentic_system.Server.Profile.{ProcessEnv, target_of}
use modular_agentic_system.Server.RunHistory.{RunRecorder, observe_all, finalize}
use modular_agentic_system.Session.{SessionConfig, Sessions, crosses_owner, option_eq}
use modular_agentic_system.Settlement.{RunResult}
use modular_agentic_system.Translator.Wire.{
  KernelWireEvent, run_started, settled, wire, wire_error, cause_name,
}

-- The text of a run's assistant message, if the run has a chat.
pub record Reply : Type 0 where
  pub frames : List KernelWireEvent
  pub result : RunResult
  pub transcript : Option Text

-- The lines that `ensureWorkspace` says before it first waits.
unfoldable pub said_at_once : SessionConfig → Sessions → ℕ
said_at_once c s = elim (Map.get c.session_id s.sessions) [
  | none ↦ length (adoption c s)
  | some existing ↦
      if crosses_owner existing c.owner_id
      then 0
      else if existing.environment_ref == c.environment
          && option_eq existing.runtime_profile c.runtime_profile
      then 1
      else 0
]

-- How many events the sink has had when `runMessage` returns: the terminal of a message that is rejected, or
-- the line that a run starts, and what the search for its workspace says at once.
unfoldable pub head_count : SessionConfig → Kernel → ℕ
unfolding said_at_once
head_count c k =
    if contains c.session_id k.admission.active then 1 else 1 + said_at_once c k.sessions

abbrev pub settled_frame : RunResult → KernelWireEvent
settled_frame r =
    settled (some (cause_name r.cause))
      (some (record {
        input_tokens = some r.usage.input_tokens;
        output_tokens = some r.usage.output_tokens;
      }))
      (some r.cost) (wire_error r.error)

-- The frames of the response.
unfoldable pub frames_of : ℕ → Text → Handled → List KernelWireEvent
frames_of count run_id h =
    map wire (take count h.sink)
    ++ (run_started (some run_id) ∷ (map wire (drop count h.sink) ++ (settled_frame h.result ∷ [])))

unfoldable pub fold_events : (at : ℕ) → List EngineEvent → Accumulator → Accumulator
fold_events at [] a = a
fold_events at (ev ∷ evs) a = fold_events at evs (on_event at ev a)

abbrev pub persists : ProcessEnv → Bool → MessageBody → Bool
persists env database body =
    database && (truthy body.project_id && or_else env.kernel_persist [] == codes "1")

-- The message that the database gets, when a run that it keeps has settled.
unfoldable pub transcript_of : MessageBody → Handled → Option Text
unfolding fold_events Persistence.new Persistence.content
transcript_of body h =
    if truthy body.chat_id
    then some (Persistence.content h.result (fold_events h.kernel.now h.sink Persistence.new))
    else none

abbrev pub recorder : SessionConfig → Text → Text → ℕ → RunRecorder
recorder c run_id prompt started_at = record {
  events = [];
  preview_url = none;
  sandbox_id = none;
  started_at = started_at;
  run_id = run_id;
  session_id = c.session_id;
  harness_ref = c.harness;
  env_ref = c.environment;
  model = c.model;
  prompt = prompt;
}

-- What is done with a run that ended: the session's memory, and the database or the file.
unfoldable pub after_run :
    (kept : Bool)
    → MessageBody
    → (owner_id run_id : Text) → SessionConfig
    → Handled
    → Server
    → Server
unfolding update_session_memory finalize observe_all
after_run kept body owner_id run_id c h s =
    let (memory, _) =
      update_session_memory owner_id c.session_id run_id body.prompt h.result h.kernel.now
        s.memory in
    record {
      kernel = h.kernel;
      memory = memory;
      history =
          if kept
          then s.history
          else (finalize h.result h.kernel.now
              (observe_all h.sink (recorder c run_id body.prompt s.kernel.now)) s.history).0;
    }

module _ (uuid : ℕ → Text) (regs : Registries) (env : ProcessEnv) (database : Bool) where
  -- The run of a message whose configuration is found.
  unfoldable pub serve_message :
      MessageBody → (owner_id run_id : Text) → SessionConfig → Server → Server × Reply
  unfolding after_run frames_of head_count transcript_of
  serve_message body owner_id run_id c s =
      let remembered = get_session_memory owner_id c.session_id s.memory in
      let h =
        run_message uuid regs c (prompt_with_session_memory body.prompt remembered) s.kernel in
      let kept = persists env database body in
      (
        after_run kept body owner_id run_id c h s,
        record {
          frames = frames_of (head_count c s.kernel) run_id h;
          result = h.result;
          transcript = if kept then transcript_of body h else none;
        },
      )

  unfoldable pub post_message : MessageBody → (owner_id : Text) → Server → Server × Outcome Reply
  unfolding serve_message session_for target_of message_config
  post_message body owner_id s =
      let (s₁, session_id) = session_for uuid body.session_id owner_id s in
      let run_id = uuid s₁.kernel.uuids in
      let s₂ = draw_uuid s₁ in
      elim (target_of env body.harness body.environment) [
        | throws m ↦ (s₂, throws m)
        | ok (harness, environment) ↦
            let c = message_config env body session_id run_id owner_id harness environment in
            let (s₃, reply) = serve_message body owner_id run_id c s₂ in (s₃, ok reply)
      ]
