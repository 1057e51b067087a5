-- ===== src/RunReducer/Patches.antt =====
-- apps/next/src/features/chat/lib/runReducer.ts: each event is a change of the active row.
use modular_agentic_system.Base.{
  ◌≡◌, refl, sym, subst, ap, ◌∙◌, true, false, List, [], ◌∷◌, ◌++◌, append-nil, Text, any, ◌==◌,
  codes, or_else, Bool-cases, Option-cases, inl, inr, arith,
}
use modular_agentic_system.Events.{Fields}
use modular_agentic_system.RunReducer.{
  EventKind, start, run_snapshot, progress, content_done, question, permission, verification,
  model_failover_applied, completes, fails, human_handoff_requested, git_persistence, other,
  kind_of, is_assistant, patch_rows, reduce,
}
use modular_agentic_system.RunReducer.Updates.{delta_of, shown_status, failover_of, error_code_of}
use modular_agentic_system.RunReducer.Calls.{
  HasDistinctCalls, calls_after-HasDistinctCalls, calls_done-HasDistinctCalls,
}
use modular_agentic_system.RunReducer.Payload.{as_record}
use modular_agentic_system.RunReducer.Views.{tool_calls_from}
use modular_agentic_system.RunReducer.Types.{ChatMessage, RunState, RunStreamEvent}

patch_rows-nobody :
    (p : ChatMessage → ChatMessage) (ms : List ChatMessage)
    → any is_assistant ms ≡ false
    → patch_rows p ms ≡ ms
unfolding patch_rows
patch_rows-nobody p [] h = refl
patch_rows-nobody p (m ∷ ms) h = ground arith

patch_rows_id : (ms : List ChatMessage) → patch_rows (λ m. m) ms ≡ ms
unfolding patch_rows
patch_rows_id [] = refl
patch_rows_id (m ∷ ms) = ground (arith, patch_rows_id ms)

any-active :
    (before : List ChatMessage) (m : ChatMessage) (after : List ChatMessage)
    → is_assistant m ≡ true
    → any is_assistant (before ++ m ∷ after) ≡ true
any-active [] m after h = rw h refl
any-active (b ∷ before) m after h = ground (arith, any-active before m after h)

pub patch_rows-active :
    (p : ChatMessage → ChatMessage) (before : List ChatMessage) (m : ChatMessage)
    (after : List ChatMessage)
    → is_assistant m ≡ true
    → any is_assistant after ≡ false
    → patch_rows p (before ++ m ∷ after) ≡ before ++ p m ∷ after
unfolding patch_rows
patch_rows-active p [] m after a n = rw (n, a) refl
patch_rows-active p (b ∷ before) m after a n =
    rw (any-active before m after a) (ap (λ ms. b ∷ ms) (patch_rows-active p before m after a n))

-- What no event changes of a row.
pub record IsSameRow (m m' : ChatMessage) : Type 0 where
  pub same_id : m'.id ≡ m.id
  pub same_role : m'.role ≡ m.role
  pub same_time : m'.created_at ≡ m.created_at
  pub same_attachments : m'.attachments ≡ m.attachments

-- What an event adds to the text of the active row.
abbrev pub added : EventKind → Fields → Text
added progress d = or_else (delta_of d) []
added _ d = []

abbrev pub added_by : RunStreamEvent → Text
added_by e = added (kind_of e.event_type) (as_record e.payload)

abbrev pub said : List RunStreamEvent → Text
said [] = []
said (e ∷ es) = added_by e ++ said es

-- A change of one row that leaves it the same row, and adds to its text.
pub record IsPatch (t : Text) (p : ChatMessage → ChatMessage) : Type 0 where
  pub same : (m : ChatMessage) → IsSameRow m (p m)
  pub adds : (m : ChatMessage) → (p m).text ≡ m.text ++ t
  pub distinct :
      (m : ChatMessage) → HasDistinctCalls m.tool_calls → HasDistinctCalls (p m).tool_calls

abbrev pub Patches : EventKind → Fields → RunState → Type 0
Patches k d s =
    (p : ChatMessage → ChatMessage) × IsPatch (added k d) p
    × ((reduce k d s).messages ≡ patch_rows p s.messages)

quiet :
    (p : ChatMessage → ChatMessage)
    → ((m : ChatMessage) → IsSameRow m (p m))
    → ((m : ChatMessage) → (p m).text ≡ m.text)
    → ((m : ChatMessage) → HasDistinctCalls m.tool_calls → HasDistinctCalls (p m).tool_calls)
    → IsPatch [] p
quiet p s t d = record { same = s; adds = λ m. t m ∙ sym (append-nil m.text); distinct = d }

-- As `quiet`, for a change that leaves the calls too.
silent :
    (p : ChatMessage → ChatMessage)
    → ((m : ChatMessage)
        → ((p m).id ≡ m.id)
          × ((p m).role ≡ m.role)
          × ((p m).created_at ≡ m.created_at)
          × ((p m).attachments ≡ m.attachments)
          × ((p m).text ≡ m.text)
          × ((p m).tool_calls ≡ m.tool_calls))
    → IsPatch [] p
silent p k =
    quiet p
      (λ m.
        let (i, r, t, a, _, _) = k m in
        record { same_id = i; same_role = r; same_time = t; same_attachments = a })
      (λ m. let (_, _, _, _, t, _) = k m in t)
      (λ m h. let (_, _, _, _, _, c) = k m in subst HasDistinctCalls (sym c) h)

pub same_row : (m : ChatMessage) → IsSameRow m m
same_row m = record { same_id = refl; same_role = refl; same_time = refl; same_attachments = refl }

nothing :
    (s : RunState)
    → (p : ChatMessage → ChatMessage) × IsPatch [] p × (s.messages ≡ patch_rows p s.messages)
nothing s = (λ m. m, quiet (λ m. m) same_row (λ m. refl) (λ m h. h), sym (patch_rows_id s.messages))

pub reduce-Patches : (k : EventKind) (d : Fields) (s : RunState) → Patches k d s
unfolding reduce
reduce-Patches start d s = (_, silent _ (λ m. (refl, refl, refl, refl, refl, refl)), refl)
reduce-Patches run_snapshot d s = (
  λ m. m,
  quiet (λ m. m) same_row (λ m. refl) (λ m h. h),
  ground (arith, patch_rows_id s.messages),
)
reduce-Patches progress d s = (
  _,
  record {
    same =
        λ m. record { same_id = refl; same_role = refl; same_time = refl; same_attachments = refl };
    adds = λ m. refl;
    distinct = λ m h. calls_after-HasDistinctCalls (tool_calls_from d) m.tool_calls h;
  },
  refl,
)
reduce-Patches content_done d s = nothing s
reduce-Patches question d s = (_, silent _ (λ m. (refl, refl, refl, refl, refl, refl)), refl)
reduce-Patches permission d s = (_, silent _ (λ m. (refl, refl, refl, refl, refl, refl)), refl)
reduce-Patches verification d s = elim (Option-cases (shown_status d)) [
  | inl e ↦ rw (e, reduce) (nothing s)
  | inr (v, e) ↦ rw (e, reduce) (_, silent _ (λ m. (refl, refl, refl, refl, refl, refl)), refl)
]
reduce-Patches model_failover_applied d s = elim (Option-cases (failover_of d)) [
  | inl e ↦ rw (e, reduce) (nothing s)
  | inr (v, e) ↦ rw (e, reduce) (_, silent _ (λ m. (refl, refl, refl, refl, refl, refl)), refl)
]
reduce-Patches completes d s = (
  _,
  quiet _
      (λ m. record { same_id = refl; same_role = refl; same_time = refl; same_attachments = refl })
      (λ m. refl) (λ m h. calls_done-HasDistinctCalls m.tool_calls h),
  refl,
)
reduce-Patches fails d s = elim (Bool-cases (error_code_of d == codes "clarification_required")) [
  | inl e ↦ rw (e, reduce) (_, silent _ (λ m. (refl, refl, refl, refl, refl, refl)), refl)
  | inr e ↦ rw (e, reduce) (_, silent _ (λ m. (refl, refl, refl, refl, refl, refl)), refl)
]
reduce-Patches human_handoff_requested d s =
    (_, silent _ (λ m. (refl, refl, refl, refl, refl, refl)), refl)
reduce-Patches git_persistence d s = (_, silent _ (λ m. (refl, refl, refl, refl, refl, refl)), refl)
reduce-Patches other d s = nothing s
