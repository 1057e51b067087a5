-- ===== src/Chat/Said.antt =====
-- The text that apps/next/src/features/chat/adapters/streamReducer.ts shows for a run, frame by frame.
use modular_agentic_system.Base.{
  ◌≡◌, refl, sym, ap, ◌∙◌, Bool, true, ◌||◌, List, [], ◌∷◌, ◌++◌, Text, codes, ◌==◌, any, arith,
  if◌then◌else◌, if_elim, truthy_text, or_else, Bool-cases, inl, inr,
}
use modular_agentic_system.Chat.{
  ReducerState, ChatMessage, RunState, is_assistant, assistant_id, ensure_assistant,
  update_assistant_parts, finalize_thinking_on_settle, apply_frame, apply_frames, apply_payload,
  is_terminal_phase,
}
use modular_agentic_system.Chat.Frame.{
  StreamFrame, start, run_snapshot, progress, question, permission, complete, usage, failure, other,
  Payload, text, thinking, tool_use, message, unknown,
}
use modular_agentic_system.Chat.Parts.{Part, error_part, append_text, append_thinking, replace_text}
use modular_agentic_system.Chat.Tools.{
  upsert_tool, tool_call_id, normalize_tool_input, output_of, thinks,
}
use modular_agentic_system.Chat.Shown.{
  shown, shown-settle_thinking, shown-append_text, shown-append_thinking, shown-upsert_tool,
  shown-replace_text, shown_error,
}

-- The parts of the assistant's last message.
unfoldable pub trailing : List ChatMessage → List Part
trailing [] = []
trailing (m ∷ ms) =
    let rest = trailing ms in
    if any is_assistant ms then rest else if is_assistant m then m.parts else []

abbrev pub has_id : Text → List ChatMessage → Bool
has_id run_id ms = any (λ (m : ChatMessage). m.id == assistant_id run_id) ms

-- A change of the messages that keeps who they are, and has the trailing text `t`.
record Turns (run_id : Text) (ms ms' : List ChatMessage) (t : Text) : Type 0 where
  same_id : has_id run_id ms' ≡ has_id run_id ms
  same_role : any is_assistant ms' ≡ any is_assistant ms
  says : shown (trailing ms') ≡ t

update_assistant_parts-Turns :
    (run_id : Text) (f : List Part → List Part) (ms : List ChatMessage)
    → any is_assistant ms ≡ true
    → Turns run_id ms (update_assistant_parts f ms) (shown (f (trailing ms)))
unfolding update_assistant_parts trailing
update_assistant_parts-Turns run_id f [] h = absurd (ground arith)
update_assistant_parts-Turns run_id f (m ∷ ms) h = elim (Bool-cases (any is_assistant ms)) [
  | inl e ↦
      let v = update_assistant_parts-Turns run_id f ms e in
      let more : any is_assistant (update_assistant_parts f ms) ≡ true = v.same_role ∙ e in
      rw (e, update_assistant_parts, trailing)
        (record {
          same_id = ground (arith, v.same_id);
          same_role = ground (arith, more, e);
          says = rw (more, trailing) v.says;
        })
  | inr e ↦
      let q : is_assistant m ≡ true = ground arith in
      rw (e, update_assistant_parts, trailing, q)
        (record { same_id = refl; same_role = refl; says = rw (e, trailing, q) refl })
]

finalize_thinking_on_settle-Turns :
    (run_id : Text) (ms : List ChatMessage)
    → Turns run_id ms (finalize_thinking_on_settle ms) (shown (trailing ms))
unfolding finalize_thinking_on_settle trailing
finalize_thinking_on_settle-Turns run_id [] = record {
  same_id = refl;
  same_role = refl;
  says = refl;
}
finalize_thinking_on_settle-Turns run_id (m ∷ []) = elim (Bool-cases (is_assistant m)) [
  | inl q ↦
      rw (q, finalize_thinking_on_settle, trailing)
        (record {
          same_id = refl;
          same_role = refl;
          says = rw (q, trailing) (shown-settle_thinking m.parts);
        })
  | inr q ↦
      rw (q, finalize_thinking_on_settle, trailing)
        (record { same_id = refl; same_role = refl; says = rw (q, trailing) refl })
]
finalize_thinking_on_settle-Turns run_id (m ∷ n ∷ ms) =
    let v = finalize_thinking_on_settle-Turns run_id (n ∷ ms) in
    record {
      same_id = ap (λ b. m.id == assistant_id run_id || b) v.same_id;
      same_role = ap (λ b. is_assistant m || b) v.same_role;
      says = ground (arith, v.says, v.same_role);
    }

Turns-refl : (run_id : Text) (ms : List ChatMessage) → Turns run_id ms ms (shown (trailing ms))
Turns-refl run_id ms = record { same_id = refl; same_role = refl; says = refl }

Turns-trans :
    {run_id : Text} {ms ms' ms'' : List ChatMessage} {t t' : Text}
    → Turns run_id ms ms' t
    → Turns run_id ms' ms'' t'
    → Turns run_id ms ms'' t'
Turns-trans v w = record {
  same_id = w.same_id ∙ v.same_id;
  same_role = w.same_role ∙ v.same_role;
  says = w.says;
}

Turns-says :
    {run_id : Text} {ms ms' : List ChatMessage} {t t' : Text}
    → Turns run_id ms ms' t
    → t ≡ t'
    → Turns run_id ms ms' t'
Turns-says v e = record { same_id = v.same_id; same_role = v.same_role; says = v.says ∙ e }

-- What the frames say: text goes on, a final message takes its place, nothing else counts.
unfoldable pub said : List StreamFrame → Text → Text
said [] t = t
said (progress (text u) ∷ fs) t = said fs (t ++ u)
said (progress (message u) ∷ fs) t = said fs (if truthy_text u then u else t)
said (_ ∷ fs) t = said fs t

apply_payload-Turns :
    (run_id : Text) (p : Payload) (ms : List ChatMessage) (run : RunState)
    → any is_assistant ms ≡ true
    → Turns run_id ms
        (apply_payload p ms run).messages
        (said (progress p ∷ []) (shown (trailing ms)))
unfolding apply_payload said
apply_payload-Turns run_id (text u) ms run h =
    Turns-says (update_assistant_parts-Turns run_id (λ ps. append_text ps u) ms h)
      (shown-append_text (trailing ms) u)
apply_payload-Turns run_id (thinking u) ms run h =
    Turns-says (update_assistant_parts-Turns run_id (λ ps. append_thinking ps u) ms h)
      (shown-append_thinking (trailing ms) u)
apply_payload-Turns run_id (tool_use f) ms run h =
    if_elim (λ ms'. Turns run_id ms ms' (shown (trailing ms))) (thinks f.name) _ _
      (λ e.
        Turns-says
          (update_assistant_parts-Turns run_id (λ ps. append_thinking ps (or_else f.content [])) ms
            h)
          (shown-append_thinking (trailing ms) (or_else f.content [])))
      (λ e.
        Turns-says
          (update_assistant_parts-Turns run_id
            (λ ps.
              upsert_tool ps (tool_call_id f) f.name f.tool_state (normalize_tool_input f.raw)
                (output_of f))
            ms h)
          (shown-upsert_tool (trailing ms) (tool_call_id f) f.name f.tool_state
            (normalize_tool_input f.raw) (output_of f)))
apply_payload-Turns run_id (message []) ms run h = Turns-refl run_id ms
apply_payload-Turns run_id (message (c ∷ cs)) ms run h =
    Turns-says (update_assistant_parts-Turns run_id (λ ps. replace_text ps (c ∷ cs)) ms h)
      (shown-replace_text (trailing ms) (c ∷ cs))
apply_payload-Turns run_id unknown ms run h = Turns-refl run_id ms

ensured :
    (run_id : Text) (ms : List ChatMessage)
    → has_id run_id ms ≡ true
    → ensure_assistant run_id ms ≡ ms
unfolding ensure_assistant
ensured run_id ms h = ground arith

-- One frame.
apply_frame-Turns :
    (run_id : Text) (f : StreamFrame) (s : ReducerState)
    → has_id run_id s.messages ≡ true
    → any is_assistant s.messages ≡ true
    → Turns run_id s.messages
        (apply_frame run_id f s).messages
        (said (f ∷ []) (shown (trailing s.messages)))
unfolding apply_frame said
apply_frame-Turns run_id start s i h =
    rw (ensured run_id s.messages i) (Turns-refl run_id s.messages)
apply_frame-Turns run_id (run_snapshot p why) s i h =
    if_elim (λ ms'. Turns run_id s.messages ms' (shown (trailing s.messages)))
      (is_terminal_phase (or_else p s.run.phase)) _ _
      (λ e. finalize_thinking_on_settle-Turns run_id s.messages) (λ e. Turns-refl run_id s.messages)
apply_frame-Turns run_id (progress p) s i h =
    rw (ensured run_id s.messages i) (apply_payload-Turns run_id p s.messages _ h)
apply_frame-Turns run_id (question p) s i h = Turns-refl run_id s.messages
apply_frame-Turns run_id (permission p) s i h = Turns-refl run_id s.messages
apply_frame-Turns run_id (complete ok p) s i h = finalize_thinking_on_settle-Turns run_id s.messages
apply_frame-Turns run_id (usage a b c) s i h = Turns-refl run_id s.messages
apply_frame-Turns run_id (failure why code) s i h =
    let m = or_else why (codes "Run error") in
    let added =
      Turns-says
        (update_assistant_parts-Turns run_id (λ ps. ps ++ (error_part m ∷ [])) s.messages h)
        (shown_error (trailing s.messages) m) in
    rw (ensured run_id s.messages i) (
      Turns-says
        (Turns-trans added (
          finalize_thinking_on_settle-Turns run_id
            (update_assistant_parts (λ ps. ps ++ (error_part m ∷ [])) s.messages)))
        added.says)
apply_frame-Turns run_id other s i h = Turns-refl run_id s.messages

said-cons :
    (f : StreamFrame) (fs : List StreamFrame) (t : Text)
    → said (f ∷ fs) t ≡ said fs (said (f ∷ []) t)
unfolding said
said-cons (progress (text u)) fs t = refl
said-cons (progress (message u)) fs t = refl
said-cons (progress (thinking u)) fs t = refl
said-cons (progress (tool_use u)) fs t = refl
said-cons (progress unknown) fs t = refl
said-cons start fs t = refl
said-cons (run_snapshot p why) fs t = refl
said-cons (question p) fs t = refl
said-cons (permission p) fs t = refl
said-cons (complete ok p) fs t = refl
said-cons (usage a b c) fs t = refl
said-cons (failure why code) fs t = refl
said-cons other fs t = refl

-- For any frames, applied where the assistant's message for the run is there: the text parts of the
-- assistant's last message, put together, are what the frames say, after the text that was there: each
-- text frame adds its text, and a final message that is not empty takes the place of all text before it;
-- thoughts, tools, questions, errors and the end of the run change no text and lose none.
pub apply_frames-said :
    (run_id : Text) (fs : List StreamFrame) (s : ReducerState)
    → has_id run_id s.messages ≡ true
    → any is_assistant s.messages ≡ true
    → shown (trailing (apply_frames run_id fs s).messages) ≡ said fs (shown (trailing s.messages))
unfolding apply_frames
apply_frames-said run_id [] s i h = unfold said in refl
apply_frames-said run_id (f ∷ fs) s i h =
    let v = apply_frame-Turns run_id f s i h in
    apply_frames-said run_id fs (apply_frame run_id f s) (v.same_id ∙ i) (v.same_role ∙ h)
    ∙ ap (λ t. said fs t) v.says
    ∙ sym (said-cons f fs (shown (trailing s.messages)))
