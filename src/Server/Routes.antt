-- ===== src/Server/Routes.antt =====
-- The routes of src/server/http.ts that read: `/preview/:sessionId`, its files, `/memory/:sessionId` and
-- `/history`. An exception other than that of a session's owner is the framework's response 500.
use modular_agentic_system.Base.{
  not, List, ◌||◌, true, Bool, ℕ, ◌≡◌, refl, [], ◌++◌, Option, none, some, Text, codes, truthy,
  or_else, if◌then◌else◌, ◌==◌,
}
use modular_agentic_system.Base.Map
use modular_agentic_system.Base.Map.{Map}
use modular_agentic_system.Base.Outcome.{Outcome, ok, throws, ◌>>=◌}
use modular_agentic_system.Kernel.{Kernel, get_preview, url_or_null}
use modular_agentic_system.Kernel.Serving.{read_preview_file, IsForeign, get_foreign}
use modular_agentic_system.Memory.{SessionMemory, get_session_memory}
use modular_agentic_system.Preview
use modular_agentic_system.Preview.{PreviewState, url_of, snapshot_of}
use modular_agentic_system.Orchestrator.{Registries}
use modular_agentic_system.Server.{Server}
use modular_agentic_system.Server.Auth.{AuthContext}
use modular_agentic_system.Server.RunHistory.{PersistedRun, RunMetadata, list_run_metadata, get_run}
use modular_agentic_system.Session
use modular_agentic_system.Session.{not_found, crosses_owner}
use modular_agentic_system.Snapshot.{DiskEntry, ResolvedFile}

pub data Response (A : Type 0) : Type 0 where
  sends : A → Response A
  fails : (status : ℕ) (message : Text) → Response A

pub record PreviewReply : Type 0 where
  pub url : Option Text
  pub static_url : Option Text

-- `state?.snapshotId ? … : null`
abbrev pub static_of : (origin session_id : Text) → Option Text → Option Text
static_of origin session_id snapshot =
    if truthy snapshot
    then some (origin ++ (codes "/preview/" ++ (session_id ++ codes "/app/")))
    else none

-- The error of a session's owner is told from others by its class.
abbrev pub refused : {A : Type 0} → Text → Outcome A → Response A
refused message (ok a) = sends a
refused message (throws m) = if m == not_found then fails 404 message else fails 500 m

unfoldable pub get_preview_route :
    (origin session_id owner_id : Text) → Kernel → Response PreviewReply
unfolding get_preview
get_preview_route origin session_id owner_id k = refused (codes "session not found") (
    get_preview session_id (some owner_id) k >>= λ state. ok (record {
      url = url_or_null (url_of state);
      static_url = static_of origin session_id (snapshot_of state);
    }))

abbrev file_or_404 : Response (Option ResolvedFile) → Response ResolvedFile
file_or_404 (sends (some f)) = sends f
file_or_404 (sends none) = fails 404 (codes "not found")
file_or_404 (fails status m) = fails status m

-- A file of the durable preview goes to anyone.
unfoldable pub get_app_route :
    (root : Text) (look : Text → DiskEntry) (session_id : Text) (rest : Option Text)
    → Kernel
    → Response ResolvedFile
unfolding read_preview_file
get_app_route root look session_id rest k =
    file_or_404 (
      refused (codes "not found") (read_preview_file root look session_id none (or_else rest []) k))

unfoldable pub get_memory_route : (session_id owner_id : Text) → Server → Option SessionMemory
unfolding get_session_memory
get_memory_route session_id owner_id s = get_session_memory owner_id session_id s.memory

abbrev pub no_token : Text
no_token = codes "history requires a real JWT (RLS-scoped); DEV_NO_AUTH cannot read history"

-- A list of runs, or one run: from the file, or a row of the database.
pub data Kept (F A : Type 0) : Type 0 where
  of_file : F → Kept F A
  of_database : A → Kept F A

-- What the database says under a token is a parameter.
module _ {A : Type 0} (database : Bool) where
  unfoldable pub get_history_route :
      (Text → List A)
      → (user_jwt : Option Text) → Server
      → Response (Kept (List RunMetadata) (List A))
  unfolding list_run_metadata
  get_history_route visible user_jwt s =
      if not database
      then sends (of_file (list_run_metadata s.history))
      else if truthy user_jwt
      then sends (of_database (visible (or_else user_jwt [])))
      else fails 401 no_token

  abbrev found_or_404 :
      {F : Type 0} → Option F → (F → Kept PersistedRun A) → Response (Kept PersistedRun A)
  found_or_404 none from = fails 404 (codes "run not found")
  found_or_404 (some run) from = sends (from run)

  unfoldable pub get_run_route :
      (Text → Text → Option A)
      → (user_jwt : Option Text) (run_id : Text) → Server
      → Response (Kept PersistedRun A)
  unfolding get_run
  get_run_route found user_jwt run_id s =
      if not database
      then found_or_404 (get_run run_id s.history) of_file
      else if truthy user_jwt
      then found_or_404 (found (or_else user_jwt []) run_id) of_database
      else fails 401 no_token

  unfoldable pub get_projects_route : (Text → List A) → (user_jwt : Option Text) → Response (List A)
  get_projects_route visible user_jwt =
      if not database
      then sends []
      else if truthy user_jwt
      then sends (visible (or_else user_jwt []))
      else fails 401 (codes "projects require a real JWT (RLS-scoped)")

  abbrev logged_in : Outcome A → Response A
  logged_in (ok a) = sends a
  logged_in (throws m) = fails 401 (codes "invalid credentials")

  unfoldable pub post_login :
      (Text → Text → Outcome A) → (email password : Option Text) → Response A
  post_login password_login email password =
      if not (truthy email) || not (truthy password)
      then fails 400 (codes "email and password required")
      else if not database
      then fails 501 (codes "Supabase not configured")
      else logged_in (password_login (or_else email []) (or_else password []))

-- What `authPreHandler` refuses does not reach its route.
abbrev pub behind : {A : Type 0} → Outcome AuthContext → (AuthContext → Response A) → Response A
behind (ok a) route = route a
behind (throws m) route = fails 401 m

pub record Health : Type 0 where
  pub ok : Bool
  pub harnesses : List Text
  pub environments : List Text

unfoldable pub get_health : Registries → Health
unfolding Map.keys
get_health regs = record {
  ok = true;
  harnesses = Map.keys regs.harnesses;
  environments = Map.keys regs.environments;
}

-- Of a session id that another owner's live session has, and one that no session and no preview has, the
-- route of a preview says different things: it fails for the first and sends an empty reply for the second.
-- So it tells a caller whether a session of another owner lives.
pub preview_route_tells :
    (origin owner_id foreign_id unknown_id : Text) (k : Kernel)
    → IsForeign foreign_id (some owner_id) k
    → Map.get unknown_id k.sessions.sessions ≡ none
    → Preview.get unknown_id k.preview ≡ none
    → (get_preview_route origin foreign_id owner_id k ≡ fails 404 (codes "session not found"))
      × (get_preview_route origin unknown_id owner_id k
          ≡ sends (record { url = none; static_url = none }))
unfolding get_preview_route get_preview Session.get ◌==◌
preview_route_tells origin owner_id foreign_id unknown_id k foreign no_session no_preview =
    let (refuses, named) = get_foreign foreign_id (some owner_id) k foreign in
    let nobody : Session.get unknown_id (some owner_id) k.sessions ≡ ok none =
      rw (no_session, Session.get) refl in
    let alien : get_preview foreign_id (some owner_id) k ≡ throws not_found =
      rw (named, refuses) refl in
    let empty : get_preview unknown_id (some owner_id) k ≡ ok none =
      rw (named, nobody, no_preview) refl in
    (rw (alien, get_preview_route) refl, rw (empty, get_preview_route) refl)
