-- ===== src/Preview.antt =====
-- src/kernel/preview.ts: the live URL and the durable snapshot of each session.
pub mod Durable
use modular_agentic_system.Base.{
  ℕ, ◌≡◌, refl, ◌≢◌, Bool, true, false, List, [], Option, none, some, Text, ◌==◌, eq_iff, or_option,
  or_else, if◌then◌else◌, arith,
}
use modular_agentic_system.Base.Map
use modular_agentic_system.Base.Map.{Map}

pub record PreviewState : Type 0 where
  pub url : Text
  pub port : ℕ
  pub snapshot_id : Option Text

abbrev pub PreviewRegistry : Type 0
PreviewRegistry = Map PreviewState

abbrev pub snapshot_of : Option PreviewState → Option Text
snapshot_of none = none
snapshot_of (some p) = p.snapshot_id

abbrev pub url_of : Option PreviewState → Option Text
url_of none = none
url_of (some p) = some p.url

abbrev pub port_of : Option PreviewState → Option ℕ
port_of none = none
port_of (some p) = some p.port

-- A later live URL does not erase the snapshot.
unfoldable pub set : Text → PreviewState → PreviewRegistry → PreviewRegistry
set session_id state r =
    let prev = Map.get session_id r in
    Map.set session_id
      (record state { snapshot_id = or_option state.snapshot_id (snapshot_of prev) }) r

unfoldable pub set_snapshot : Text → Text → PreviewRegistry → PreviewRegistry
set_snapshot session_id snapshot_id r =
    let prev = Map.get session_id r in
    Map.set session_id
      (record {
        url = or_else (url_of prev) [];
        port = or_else (port_of prev) 0;
        snapshot_id = some snapshot_id;
      })
      r

abbrev pub get : Text → PreviewRegistry → Option PreviewState
get session_id r = Map.get session_id r

unfoldable pub clear : Text → PreviewRegistry → PreviewRegistry
clear session_id r = Map.delete session_id r
