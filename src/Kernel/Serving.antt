-- ===== src/Kernel/Serving.antt =====
-- `readPreviewFile` of src/kernel/index.ts: the file of a session's durable preview.
use modular_agentic_system.Base.{
  ◌≡◌, refl, sym, ◌∙◌, true, Option, none, some, Text, if◌then◌else◌, truthy, truthy_text, arith,
  Bool-cases, inl, inr,
}
use modular_agentic_system.Base.Map
use modular_agentic_system.Base.Outcome.{Outcome, ok, throws, ◌>>=◌, Outcome-cases}
use modular_agentic_system.Kernel.{Kernel}
use modular_agentic_system.Posix.{join_paths}
use modular_agentic_system.Preview
use modular_agentic_system.Preview.{snapshot_of}
use modular_agentic_system.Session
use modular_agentic_system.Session.{SessionState, crosses_owner, not_found}
use modular_agentic_system.Snapshot.{DiskEntry, ResolvedFile, resolve}
use modular_agentic_system.Snapshot.Contain.{InBase, IsFile, resolve-Inside}

abbrev pub file_of : Text → (Text → DiskEntry) → Option Text → Text → Option ResolvedFile
file_of root look none rel_path = none
file_of root look (some id) rel_path =
    if truthy_text id then resolve root look id rel_path else none

-- `root` is the directory of the snapshot store, and `look` its disk.
unfoldable pub read_preview_file :
    Text → (Text → DiskEntry) → Text → Option Text → Text → Kernel → Outcome (Option ResolvedFile)
read_preview_file root look session_id owner_id rel_path k =
    let found = file_of root look (snapshot_of (Preview.get session_id k.preview)) rel_path in
    if truthy owner_id
    then (Session.get session_id owner_id k.sessions >>= λ _. ok found)
    else ok found

-- A live session that another owner holds.
abbrev pub IsForeign : Text → Option Text → Kernel → Type 0
IsForeign session_id owner_id k =
    (state : SessionState) × (Map.get session_id k.sessions.sessions ≡ some state)
    × (crosses_owner state owner_id ≡ true)

file_of-Inside :
    (root : Text) (look : Text → DiskEntry) (o : Option Text) (rel_path : Text) (f : ResolvedFile)
    → file_of root look o rel_path ≡ some f
    → (id : Text) × (o ≡ some id) × InBase (join_paths root id) f.abs_path × IsFile look f.abs_path
file_of-Inside root look none rel_path f h = cc
file_of-Inside root look (some id) rel_path f h =
    let (a, b) = resolve-Inside root look id rel_path f (ground arith) in (id, refl, a, b)

pub get_foreign :
    (session_id : Text) (owner_id : Option Text) (k : Kernel)
    → IsForeign session_id owner_id k
    → (Session.get session_id owner_id k.sessions ≡ throws not_found) × (truthy owner_id ≡ true)
unfolding Session.get
get_foreign session_id owner_id k (state, e, c) =
    (rw (e, Session.get, c) refl, unfold crosses_owner in ground arith)

module _ (root : Text) (look : Text → DiskEntry) (session_id : Text) (owner_id : Option Text)
    (rel_path : Text) (k : Kernel) where
  found_in :
      (f : ResolvedFile)
      → read_preview_file root look session_id owner_id rel_path k ≡ ok (some f)
      → file_of root look (snapshot_of (Preview.get session_id k.preview)) rel_path ≡ some f
  unfolding read_preview_file
  found_in f h = elim (Bool-cases (truthy owner_id)) [
    | inr t ↦ cc (rw t at h)
    | inl t ↦ elim (Outcome-cases (Session.get session_id owner_id k.sessions)) [
      | inl (_, e) ↦ cc (rw (t, e) at h)
      | inr (m, e) ↦ cc (rw (t, e) at h)
    ]
  ]

  -- An owner who does not hold the live session gets the exception, whatever path is asked for.
  foreign_refused :
      IsForeign session_id owner_id k
      → read_preview_file root look session_id owner_id rel_path k ≡ throws not_found
  unfolding read_preview_file
  foreign_refused foreign = let (e, t) = get_foreign session_id owner_id k foreign in rw (t, e) refl

  -- A file that the kernel serves for a session's preview is a regular file in the directory of the
  -- snapshot that is recorded for this session, whatever path was asked for; and if an owner was given,
  -- no other owner holds the live session.
  pub read_preview_file-Inside :
      (f : ResolvedFile)
      → read_preview_file root look session_id owner_id rel_path k ≡ ok (some f)
      → (¬ IsForeign session_id owner_id k)
        × ((id : Text) × (snapshot_of (Preview.get session_id k.preview) ≡ some id)
            × InBase (join_paths root id) f.abs_path
            × IsFile look f.abs_path)
  read_preview_file-Inside f h = (
    λ foreign. ok_or_not (sym h ∙ foreign_refused foreign),
    file_of-Inside root look (snapshot_of (Preview.get session_id k.preview)) rel_path f
        (found_in f h),
  )
    where
      ok_or_not : {f : ResolvedFile} → ok (some f) ≡ throws not_found → ⊥
      ok_or_not e = cc
