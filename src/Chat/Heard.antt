-- ===== src/Chat/Heard.antt =====
-- From the events of the kernel to the text in the chat: apps/next/src/core/kernelTranslator.ts and
-- apps/next/src/features/chat/adapters/streamReducer.ts together.
use modular_agentic_system.Base.{
  ℕ, ◌+◌, ◌-◌, ◌≡◌, refl, ap, ◌∙◌, true, List, [], ◌∷◌, ◌++◌, Option, none, some, Text, codes, map,
  length, nat_eq, arith, any, if◌then◌else◌, truthy_text,
}
use modular_agentic_system.Chat.{ReducerState, is_assistant, apply_frames}
use modular_agentic_system.Chat.Frame
use modular_agentic_system.Chat.Frame.{StreamFrame, fields, ToolFrame}
use modular_agentic_system.Chat.Said.{said, has_id, trailing, apply_frames-said}
use modular_agentic_system.Chat.Shown.{shown}
use modular_agentic_system.Events
use modular_agentic_system.Events.{EngineEvent, Json, string, object, Fields, end, field}
use modular_agentic_system.Base.Map
use modular_agentic_system.Base.Map.{Map}
use modular_agentic_system.Kernel.Brackets.{read}
use modular_agentic_system.Translator.{
  RunEvent, start, text, message, tool_use, usage, failure, complete, Tag, ToolState, running,
  completed, failed, KernelTranslator, translate, translate_all, close, settle,
}
use modular_agentic_system.Translator.Nesting.{IsNamed, IsNamed-tail}
use modular_agentic_system.Translator.Wire.{wire}

abbrev pub state_name : ToolState → Text
state_name running = codes "running"
state_name completed = codes "completed"
state_name failed = codes "error"

abbrev pub fields_of : Fields → Map Json
fields_of end = []
fields_of (field k v fs) = Map.set k v (fields_of fs)

abbrev pub input_fields : Json → Map Json
input_fields (object fs) = fields_of fs
input_fields _ = []

abbrev pub call_field : Option Text → Map Json
call_field none = []
call_field (some id) = (codes "callID", string id) ∷ []

abbrev pub merged : Map Json → Map Json → Map Json
merged before [] = before
merged before ((k, v) ∷ rest) = merged (Map.set k v before) rest

abbrev pub child_of : Option Tag → Option Text
child_of none = none
child_of (some tag) = some tag.child_session_id

abbrev pub depth_of : Option Tag → Option ℕ
depth_of none = none
depth_of (some tag) = tag.depth

-- A frame of the translator, as the reducer reads it: `raw` is `{ callID, ...input }`.
unfoldable pub frame_of : RunEvent → StreamFrame
frame_of (start id) = Frame.start
frame_of (text t) = Frame.progress (Frame.text t)
frame_of (message t) = Frame.progress (Frame.message t)
frame_of (tool_use t) = Frame.progress (
    Frame.tool_use (record {
      name = t.tool;
      tool_state = some (state_name t.tool_state);
      raw = fields (merged (call_field t.call_id) (input_fields t.input));
      call_id = none;
      child_session_id = child_of t.tag;
      depth = depth_of t.tag;
      content = t.content;
    }))
frame_of (usage i o cost) = Frame.usage (some i) (some o) cost
frame_of (failure why code) = Frame.failure (some why) code
frame_of (complete phase) = Frame.complete true (some phase)

-- What the agent at the top says, after a text: chunks outside every sub-run go on, and a final text
-- outside every sub-run that is not empty takes the place of all before it.
unfoldable pub heard : (depth : ℕ) → List EngineEvent → Text → Text
heard depth [] t = t
heard depth (Events.stream_chunk u ∷ evs) t = heard depth evs (if nat_eq depth 0 then t ++ u else t)
heard depth (Events.final_text u ∷ evs) t =
    heard depth evs (if nat_eq depth 0 then (if truthy_text u then u else t) else t)
heard depth (Events.child_started id ∷ evs) t = heard (depth + 1) evs t
heard depth (Events.child_settled id cause ∷ evs) t = heard (depth - 1) evs t
heard depth (_ ∷ evs) t = heard depth evs t

said-append : (xs ys : List StreamFrame) (t : Text) → said (xs ++ ys) t ≡ said ys (said xs t)
unfolding said
said-append [] ys t = refl
said-append (Frame.progress (Frame.text u) ∷ xs) ys t = said-append xs ys (t ++ u)
said-append (Frame.progress (Frame.message u) ∷ xs) ys t =
    said-append xs ys (if truthy_text u then u else t)
said-append (Frame.progress (Frame.thinking u) ∷ xs) ys t = said-append xs ys t
said-append (Frame.progress (Frame.tool_use u) ∷ xs) ys t = said-append xs ys t
said-append (Frame.progress Frame.unknown ∷ xs) ys t = said-append xs ys t
said-append (_ ∷ xs) ys t = said-append xs ys t

map-append : (xs ys : List RunEvent) → map frame_of (xs ++ ys) ≡ map frame_of xs ++ map frame_of ys
map-append [] ys = refl
map-append (x ∷ xs) ys = ap (λ fs. frame_of x ∷ fs) (map-append xs ys)

heard_one :
    (limit : ℕ) (app_path : Text) (ev : EngineEvent) (evs : List EngineEvent) (s : KernelTranslator)
    (left : List Text) (t : Text)
    → IsNamed (ev ∷ evs)
    → read limit (ev ∷ evs) s.child_stack ≡ some left
    → (read limit evs (translate app_path (wire ev) s).0.child_stack ≡ some left)
      × (heard
            (length (translate app_path (wire ev) s).0.child_stack)
            evs
            (said (map frame_of (translate app_path (wire ev) s).1) t)
          ≡ heard (length s.child_stack) (ev ∷ evs) t)
unfolding translate wire read said heard close settle frame_of
heard_one limit app_path (Events.stream_chunk u) evs s left t n h = (ground arith, ground arith)
heard_one limit app_path (Events.tool_call name args id) evs s left t n h =
    (ground arith, ground arith)
heard_one limit app_path (Events.tool_result ok output id) evs s left t n h =
    (ground arith, ground arith)
heard_one limit app_path (Events.child_started id) evs s left t n h = (ground arith, ground arith)
heard_one limit app_path (Events.child_settled id cause) evs s left t n h =
    (ground arith, ground arith)
heard_one limit app_path (Events.usage_delta i o) evs s left t n h = (ground arith, ground arith)
heard_one limit app_path (Events.preview_ready url port) evs s left t n h =
    (ground arith, ground arith)
heard_one limit app_path (Events.preview_snapshot_ready id count bytes) evs s left t n h =
    (ground arith, ground arith)
heard_one limit app_path (Events.final_text u) evs s left t n h = (ground arith, ground arith)
heard_one limit app_path (Events.log category level m at) evs s left t n h =
    (ground arith, ground arith)
heard_one limit app_path (Events.terminal cause why) evs s left t n h = (ground arith, ground arith)

said-heard :
    (limit : ℕ) (app_path : Text) (evs : List EngineEvent) (s : KernelTranslator) (left : List Text)
    (t : Text)
    → IsNamed evs
    → read limit evs s.child_stack ≡ some left
    → said (map frame_of (translate_all app_path (map wire evs) s).1) t
      ≡ heard (length s.child_stack) evs t
unfolding translate_all
said-heard limit app_path [] s left t n h = unfold said heard in refl
said-heard limit app_path (ev ∷ evs) s left t n h =
    let (g, one) = heard_one limit app_path ev evs s left t n h in
    let s' = (translate app_path (wire ev) s).0 in
    let now = (translate app_path (wire ev) s).1 in
    let later = (translate_all app_path (map wire evs) s').1 in
    ap (λ fs. said fs t) (map-append now later)
    ∙ said-append (map frame_of now) (map frame_of later) t
    ∙ said-heard limit app_path evs s' left (said (map frame_of now) t) (IsNamed-tail ev evs n) g
    ∙ one

-- For a well nested stream of named sub-runs, translated from a translator whose stack of sub-runs is
-- that of the stream, and its frames applied where the assistant's message for the run is there: the text
-- in the chat, after the text that was there, is what the agent at the top says in the kernel's stream,
-- with nothing of any sub-run.
pub apply_frames-heard :
    (limit : ℕ) (app_path run_id : Text) (evs : List EngineEvent) (s : KernelTranslator)
    (left : List Text) (r : ReducerState)
    → IsNamed evs
    → read limit evs s.child_stack ≡ some left
    → has_id run_id r.messages ≡ true
    → any is_assistant r.messages ≡ true
    → shown (
        trailing
          (apply_frames run_id
            (map frame_of (translate_all app_path (map wire evs) s).1)
            r).messages)
      ≡ heard (length s.child_stack) evs (shown (trailing r.messages))
apply_frames-heard limit app_path run_id evs s left r n h i a =
    apply_frames-said run_id (map frame_of (translate_all app_path (map wire evs) s).1) r i a
    ∙ said-heard limit app_path evs s left (shown (trailing r.messages)) n h
