-- ===== src/Kernel/Ending.antt =====
-- What `endSession` of src/kernel/index.ts takes down, and what it leaves.
use modular_agentic_system.Base.{
  ◌≡◌, refl, ◌||◌, List, [], ◌∷◌, Option, none, Text, ◌==◌, eq_iff, contains, arith, inl, inr,
  if◌then◌else◌, or_else, Option-cases,
}
use modular_agentic_system.Base.Map
use modular_agentic_system.Base.Map.{Map, get-delete}
use modular_agentic_system.Kernel.{Kernel}
use modular_agentic_system.Kernel.Run.{end_workspace, clear_preview, end_children, end_session}
use modular_agentic_system.Preview
use modular_agentic_system.Preview.{PreviewState}
use modular_agentic_system.Session.{Sessions, SessionState, finish, tear_down, crosses_owner}

abbrev pub session_at : Text → Kernel → Option SessionState
session_at j k = Map.get j k.sessions.sessions

abbrev pub preview_at : Text → Kernel → Option PreviewState
preview_at j k = Preview.get j k.preview

abbrev pub children_at : Text → Kernel → Option (Map Text)
children_at j k = Map.get j k.child_sessions

-- The sessions that were opened for sub-tasks of a session's own runs.
abbrev pub children_of : Text → Kernel → List Text
children_of session_id k = Map.values (or_else (children_at session_id k) [])

finish-get :
    (id j : Text) (s : Sessions)
    → Map.get j (finish id none s).0.sessions ≡ (if id == j then none else Map.get j s.sessions)
unfolding finish crosses_owner tear_down
finish-get id j s = elim (Option-cases (Map.get id s.sessions)) [
  | inl e ↦ rw (e, finish) (ground (arith, eq_iff id j))
  | inr (state, e) ↦ rw (e, finish) (ground (arith, get-delete id j s.sessions))
]

-- Both are gone at the given names.
module _ (j : Text) where
  end_workspace-session_at :
      (id : Text) (k : Kernel)
      → session_at j (end_workspace id k) ≡ (if id == j then none else session_at j k)
  unfolding end_workspace
  end_workspace-session_at id k = finish-get id j k.sessions

  clear_preview-preview_at :
      (id : Text) (k : Kernel)
      → preview_at j (clear_preview id k) ≡ (if id == j then none else preview_at j k)
  unfolding clear_preview Preview.clear
  clear_preview-preview_at id k = get-delete id j k.preview

  end_children-at :
      (ids : List Text) (k : Kernel)
      → (session_at j (end_children ids k) ≡ (if contains j ids then none else session_at j k))
        × (preview_at j (end_children ids k) ≡ (if contains j ids then none else preview_at j k))
        × ((end_children ids k).child_sessions ≡ k.child_sessions)
  unfolding end_children contains
  end_children-at [] k = (refl, refl, refl)
  end_children-at (id ∷ ids) k =
      let k' = end_workspace id (clear_preview id k) in
      let (a, b, c) = end_children-at ids k' in
      (
        ground (arith, a, end_workspace-session_at id (clear_preview id k)),
        ground (arith, b, clear_preview-preview_at id k),
        c,
      )

-- `endSession` ends a session and the sessions that were opened for sub-tasks of its own runs, with
-- their previews, and forgets which those were; every other session, preview and record of children
-- stays as it was.
pub end_session_lem :
    (session_id j : Text) (k : Kernel)
    → (session_at j (end_session session_id k) ≡ (
        if session_id == j || contains j (children_of session_id k) then none else session_at j k))
      × (preview_at j (end_session session_id k) ≡ (
          if session_id == j || contains j (children_of session_id k)
          then none
          else preview_at j k))
      × (children_at j (end_session session_id k)
          ≡ (if session_id == j then none else children_at j k))
unfolding end_session contains Preview.clear Map.values
end_session_lem session_id j k = elim (Option-cases (children_at session_id k)) [
  | inl e ↦
      rw (e, end_session)
        (
          ground (arith, finish-get session_id j k.sessions),
          ground (arith, get-delete session_id j k.preview),
          ground (arith, eq_iff session_id j),
        )
  | inr (m, e) ↦
      let k' = clear_preview session_id k in
      let (a, b, c) = end_children-at j (Map.values m) k' in
      rw (e, end_session)
        (
          ground (arith, finish-get session_id j (end_children (Map.values m) k').sessions, a),
          ground (arith, get-delete session_id j k.preview, b),
          ground
              (arith, get-delete session_id j (end_children (Map.values m) k').child_sessions, c),
        )
]
