-- ===== src/RunReducer/Rows.antt =====
-- apps/next/src/features/chat/lib/runReducer.ts: what the events of a run do to the rows.
use modular_agentic_system.Base.{
  ◌≡◌, sym, subst, ap, ◌∙◌, true, false, List, [], ◌∷◌, ◌++◌, append_assoc, append-nil, any,
  if_elim,
}
use modular_agentic_system.RunReducer.{
  kind_of, is_assistant, patch_rows, reduce, reduce_run_event, reduce_all,
}
use modular_agentic_system.RunReducer.Calls.{HasDistinctCalls}
use modular_agentic_system.RunReducer.Payload.{as_record}
use modular_agentic_system.RunReducer.Types.{ChatMessage, RunState, RunStreamEvent}
use modular_agentic_system.RunReducer.Patches.{
  added, patch_rows-active, IsSameRow, said, reduce-Patches, same_row,
}

IsSameRow-trans : (a b c : ChatMessage) → IsSameRow a b → IsSameRow b c → IsSameRow a c
IsSameRow-trans a b c p q = record {
  same_id = q.same_id ∙ p.same_id;
  same_role = q.same_role ∙ p.same_role;
  same_time = q.same_time ∙ p.same_time;
  same_attachments = q.same_attachments ∙ p.same_attachments;
}

still_assistant :
    (m m' : ChatMessage) → IsSameRow m m' → is_assistant m ≡ true → is_assistant m' ≡ true
still_assistant m m' r h = rw (r.same_role) h

-- The events of a run, whatever they are and in any order, change one row: the last of the assistant's.
-- All other rows stay as they are and where they are, and this one keeps its id, its role, its time and
-- its attachments; its text grows by what the progress events say, in their order.
pub reduce_all-rows :
    (es : List RunStreamEvent) (s : RunState) (before : List ChatMessage) (m : ChatMessage)
    (after : List ChatMessage)
    → is_assistant m ≡ true
    → any is_assistant after ≡ false
    → s.messages ≡ before ++ m ∷ after
    → (m' : ChatMessage) × ((reduce_all es s).messages ≡ before ++ m' ∷ after)
      × IsSameRow m m'
      × (m'.text ≡ m.text ++ said es)
unfolding reduce_all reduce_run_event
reduce_all-rows [] s before m after a n e = (m, e, same_row m, sym (append-nil m.text))
reduce_all-rows (ev ∷ es) s before m after a n e =
    let k = kind_of ev.event_type in
    let d = as_record ev.payload in
    let (p, patch, f) = reduce-Patches k d s in
    let r = patch.same m in
    let (m', g, r', t) =
      reduce_all-rows es (reduce k d s) before (p m) after (still_assistant m (p m) r a) n
        (f ∙ ap (patch_rows p) e ∙ patch_rows-active p before m after a n) in
    (
      m',
      g,
      IsSameRow-trans m (p m) m' r r',
      t ∙ ap (λ u. u ++ said es) (patch.adds m) ∙ append_assoc m.text (added k d) (said es),
    )

abbrev pub AllDistinct : List ChatMessage → Type 0
AllDistinct [] = Unit
AllDistinct (m ∷ ms) = HasDistinctCalls m.tool_calls × AllDistinct ms

patch_rows-AllDistinct :
    (p : ChatMessage → ChatMessage) (ms : List ChatMessage)
    → ((m : ChatMessage) → HasDistinctCalls m.tool_calls → HasDistinctCalls (p m).tool_calls)
    → AllDistinct ms
    → AllDistinct (patch_rows p ms)
unfolding patch_rows
patch_rows-AllDistinct p [] k h = tt
patch_rows-AllDistinct p (m ∷ ms) k (h, hs) =
    let rest = patch_rows-AllDistinct p ms k hs in
    if_elim AllDistinct (any is_assistant ms) _ _ (λ _. (h, rest))
      (λ _. if_elim AllDistinct (is_assistant m) _ _ (λ _. (k m h, hs)) (λ _. (h, hs)))

-- Within each row no two tool calls have one id, whatever events come: a state of which this holds, such
-- as one with no calls yet, is taken to such a state.
pub reduce_all-AllDistinct :
    (es : List RunStreamEvent) (s : RunState)
    → AllDistinct s.messages
    → AllDistinct (reduce_all es s).messages
unfolding reduce_all reduce_run_event
reduce_all-AllDistinct [] s h = h
reduce_all-AllDistinct (ev ∷ es) s h =
    let k = kind_of ev.event_type in
    let d = as_record ev.payload in
    let (p, patch, f) = reduce-Patches k d s in
    reduce_all-AllDistinct es (reduce k d s)
      (subst AllDistinct (sym f) (patch_rows-AllDistinct p s.messages patch.distinct h))
