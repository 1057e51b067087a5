-- ===== src/Server/Stream.antt =====
-- What the chat makes of the response of `POST /message` in src/server/http.ts, whose frames go through
-- apps/next/src/core/kernelTranslator.ts and apps/next/src/features/chat/adapters/streamReducer.ts.
use modular_agentic_system.Base.{
  Bool, if◌then◌else◌, ℕ, zero, suc, ◌+◌, ◌≤◌, ◌≡◌, refl, sym, ap, ◌∙◌, true, List, [], ◌∷◌, ◌++◌,
  Option, some, Text, take, drop, map, contains, nat_eq, not, ◌==◌, arith,
}
use modular_agentic_system.Admission
use modular_agentic_system.Chat.{ReducerState, apply_frame, apply_frames}
use modular_agentic_system.Chat.Frame.{streaming, streams}
use modular_agentic_system.Chat.Heard.{frame_of}
use modular_agentic_system.Events.{EngineEvent, terminal, TerminalCause, ErrorInfo}
use modular_agentic_system.Kernel.Rollup.{terminal_count-append}
use modular_agentic_system.Kernel.Run.{run_message, rejected, draw}
use modular_agentic_system.Kernel.Settles.{run_message-Settles}
use modular_agentic_system.Memory.{get_session_memory, prompt_with_session_memory}
use modular_agentic_system.Orchestrator.{Registries}
use modular_agentic_system.Server.{Server, MessageBody}
use modular_agentic_system.Server.Message.{frames_of, head_count, settled_frame, serve_message}
use modular_agentic_system.Server.Profile.{ProcessEnv}
use modular_agentic_system.Session.{SessionConfig}
use modular_agentic_system.Settlement.{RunResult}
use modular_agentic_system.Settlement.Spec.{terminal_count, first_terminal}
use modular_agentic_system.Translator.{
  RunEvent, KernelTranslator, new, translate, translate_all, settle, settled_usage,
}
use modular_agentic_system.Translator.Totals.{
  completions, completions-append, translate_all-append, translate_all-completions,
  closing-completions,
}
use modular_agentic_system.Translator.Wire.{run_started, wire, cause_name}

halves_joined {ℓ} : {A : Type ℓ} (n : ℕ) (xs : List A) → take n xs ++ drop n xs ≡ xs
halves_joined zero xs = refl
halves_joined (suc n) [] = refl
halves_joined (suc n) (x ∷ xs) = ap (λ ys. x ∷ ys) (halves_joined n xs)

-- A terminal that was seen is a terminal that was counted.
counts_terminal :
    (evs : List EngineEvent) (t : TerminalCause × Option ErrorInfo)
    → first_terminal evs ≡ some t
    → 1 ≤ terminal_count evs
unfolding first_terminal terminal_count
counts_terminal [] t h = absurd (ground arith)
counts_terminal (terminal c e ∷ evs) t h = omega arith
counts_terminal (_ ∷ evs) t h = counts_terminal evs t h

-- The translator reads the events before the start of a run, the start, and those after it.
module _ (app_path run_id : Text) (xs ys : List EngineEvent) where
  abbrev before : KernelTranslator × List RunEvent
  before = translate_all app_path (map wire xs) new

  abbrev after : KernelTranslator × List RunEvent
  after = translate_all app_path (map wire ys) before.0

  -- A start says nothing of an end.
  started-completions :
      (r : RunResult)
      → completions
          (translate_all app_path
            (map wire xs ++ (run_started (some run_id) ∷ (map wire ys ++ (settled_frame r ∷ []))))
            new).1
        ≡ terminal_count xs + (terminal_count ys + (if after.0.terminal_seen then 0 else 1))
  unfolding new completions translate_all translate
  started-completions r =
      let closing = settled_frame r ∷ [] in
      let rest = map wire ys ++ closing in
      let (early, seen) = translate_all-completions app_path xs new in
      let (late, seen') = translate_all-completions app_path ys before.0 in
      rw (translate_all-append app_path (map wire xs) (run_started (some run_id) ∷ rest) new) (
        completions-append before.1 _
        ∙ rw (translate_all-append app_path (map wire ys) closing before.0) (
            ap (λ n. completions before.1 + n) (completions-append after.1 _)
            ∙ ground (
              arith,
              early,
              late,
              closing-completions app_path (some (cause_name r.cause)) _ _ _ after.0,
            )))

  started_seen : after.0.terminal_seen ≡ not (nat_eq (terminal_count xs + terminal_count ys) 0)
  unfolding new
  started_seen =
      let (early, seen) = translate_all-completions app_path xs new in
      let (late, seen') = translate_all-completions app_path ys before.0 in
      ground (arith, seen, seen')

module _ (uuid : ℕ → Text) (regs : Registries) (env : ProcessEnv) (database : Bool) where
  -- What the kernel's sink has of a message.
  abbrev pub sink_of : MessageBody → Text → SessionConfig → Server → List EngineEvent
  sink_of body owner_id c s =
      (run_message uuid regs c
        (prompt_with_session_memory body.prompt (get_session_memory owner_id c.session_id s.memory))
        s.kernel).sink

  -- However a message goes, the chat is told that its run is over as often as the kernel's stream has a
  -- terminal event, and that is at least once: neither the frame of the start in the middle of the events
  -- nor the closing frame adds one.
  pub serve_message-completions :
      (app_path owner_id run_id : Text) (body : MessageBody) (c : SessionConfig) (s : Server)
      → let frames = (serve_message uuid regs env database body owner_id run_id c s).1.frames in
        (completions (translate_all app_path frames new).1
          ≡ terminal_count (sink_of body owner_id c s))
        × (1 ≤ terminal_count (sink_of body owner_id c s))
  unfolding serve_message frames_of
  serve_message-completions app_path owner_id run_id body c s =
      let prompt =
        prompt_with_session_memory body.prompt
          (get_session_memory owner_id c.session_id s.memory) in
      let h = run_message uuid regs c prompt s.kernel in
      let n = head_count c s.kernel in
      let some_terminal : 1 ≤ terminal_count h.sink =
        counts_terminal h.sink _ (run_message-Settles uuid regs c prompt s.kernel) in
      let split =
        sym (terminal_count-append (take n h.sink) (drop n h.sink))
        ∙ ap terminal_count (halves_joined n h.sink) in
      (
        started-completions app_path run_id (take n h.sink) (drop n h.sink) h.result
            ∙ ground (
              arith,
              split,
              some_terminal,
              started_seen app_path run_id (take n h.sink) (drop n h.sink),
            ),
        some_terminal,
      )

  -- A message that comes while a run of its session is active is rejected, and the chat shows it as one that
  -- streams, and goes on doing so: its terminal is sent before the frame that starts it.
  pub rejected_message_streams :
      (app_path owner_id run_id shown_id : Text) (body : MessageBody) (c : SessionConfig)
      (s : Server) (r : ReducerState)
      → contains c.session_id s.kernel.admission.active ≡ true
      → c.run_id ≡ some run_id
      → let reply = (serve_message uuid regs env database body owner_id run_id c s).1 in
        let run =
          (apply_frames shown_id
            (map frame_of (translate_all app_path reply.frames new).1)
            r).run in
        (run.phase ≡ streaming) × (run.status ≡ streams)
  unfolding serve_message frames_of head_count run_message Admission.admit rejected draw
      translate_all translate new settle settled_usage frame_of apply_frames apply_frame wire ◌==◌
  rejected_message_streams app_path owner_id run_id shown_id body c s r active given =
      rw (given, active) (refl, refl)
