-- ===== src/Preview/Durable.antt =====
-- The registry of src/kernel/preview.ts against the history of its calls.
use modular_agentic_system.Base.{
  ℕ, ◌≡◌, refl, List, [], ◌∷◌, Option, none, some, Text, ◌==◌, eq_iff, or_else, or_option, arith,
  if◌then◌else◌,
}
use modular_agentic_system.Base.Map
use modular_agentic_system.Preview.{
  PreviewRegistry, snapshot_of, url_of, port_of, set, set_snapshot, clear, get,
}

-- The calls that the kernel makes: a live URL, a captured snapshot, the end of a session.
pub data Call : Type 0 where
  live : (session_id url : Text) (port : ℕ) → Call
  captured : (session_id snapshot_id : Text) → Call
  cleared : Text → Call

unfoldable pub apply : Call → PreviewRegistry → PreviewRegistry
apply (live k url port) r = set k (record { url = url; port = port; snapshot_id = none }) r
apply (captured k snapshot_id) r = set_snapshot k snapshot_id r
apply (cleared k) r = clear k r

-- A history has its latest call first.
unfoldable pub replay : List Call → PreviewRegistry
unfolding apply
replay [] = []
replay (c ∷ past) = apply c (replay past)

-- The latest snapshot since the session was last cleared, whatever live URLs came after it.
unfoldable pub last_snapshot : Text → List Call → Option Text
last_snapshot k [] = none
last_snapshot k (live j url port ∷ past) = last_snapshot k past
last_snapshot k (captured j id ∷ past) = if j == k then some id else last_snapshot k past
last_snapshot k (cleared j ∷ past) = if j == k then none else last_snapshot k past

-- The latest live URL since the session was last cleared, whatever snapshots came after it.
unfoldable pub last_url : Text → List Call → Option Text
last_url k [] = none
last_url k (live j url port ∷ past) = if j == k then some url else last_url k past
last_url k (captured j id ∷ past) = last_url k past
last_url k (cleared j ∷ past) = if j == k then none else last_url k past

-- For every history and session: the snapshot on record is the latest one since the session was
-- cleared; later live URLs do not erase it.
pub snapshot-replay :
    (k : Text) (past : List Call) → snapshot_of (get k (replay past)) ≡ last_snapshot k past
unfolding replay last_snapshot set set_snapshot clear
snapshot-replay k [] = unfold Map.get in refl
snapshot-replay k (live j url port ∷ past) = ground (
  arith,
  snapshot-replay k past,
  eq_iff j k,
  Map.get-set j k
      (record {
        url = url;
        port = port;
        snapshot_id = or_option none (snapshot_of (Map.get j (replay past)));
      })
      (replay past),
)
snapshot-replay k (captured j id ∷ past) = ground (
  arith,
  snapshot-replay k past,
  Map.get-set j k
      (record {
        url = or_else (url_of (Map.get j (replay past))) [];
        port = or_else (port_of (Map.get j (replay past))) 0;
        snapshot_id = some id;
      })
      (replay past),
)
snapshot-replay k (cleared j ∷ past) =
    ground (arith, snapshot-replay k past, Map.get-delete j k (replay past))

-- For every history and session: the URL on record is the latest live one since the session was
-- cleared, and empty if there was none; recording a snapshot does not disturb it.
pub url-replay :
    (k : Text) (past : List Call)
    → or_else (url_of (get k (replay past))) [] ≡ or_else (last_url k past) []
unfolding replay last_url set set_snapshot clear
url-replay k [] = unfold Map.get in refl
url-replay k (live j url port ∷ past) = ground (
  arith,
  url-replay k past,
  eq_iff j k,
  Map.get-set j k
      (record {
        url = url;
        port = port;
        snapshot_id = or_option none (snapshot_of (Map.get j (replay past)));
      })
      (replay past),
)
url-replay k (captured j id ∷ past) = ground (
  arith,
  url-replay k past,
  eq_iff j k,
  Map.get-set j k
      (record {
        url = or_else (url_of (Map.get j (replay past))) [];
        port = or_else (port_of (Map.get j (replay past))) 0;
        snapshot_id = some id;
      })
      (replay past),
)
url-replay k (cleared j ∷ past) =
    ground (arith, url-replay k past, Map.get-delete j k (replay past))
