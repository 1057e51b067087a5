-- ===== src/Server.antt =====
-- src/server/http.ts: the handlers of the server, on what they stand on in src/server/ and src/profiles/.
-- A caller is the owner id that the authentication found. The database and the transport are not modelled:
-- what is handed to them is. A client that goes away in the middle of a run is not modelled.
pub mod Profile
pub mod RunHistory
pub mod Message
pub mod Warm
pub mod Stream
pub mod Warmed
pub mod Defaults
pub mod Kept
pub mod Auth
pub mod Confirmed
pub mod Routes
use modular_agentic_system.Base.{
  ℕ, suc, Bool, List, [], ◌∷◌, ◌++◌, Option, none, some, Text, codes, take, or_else, if◌then◌else◌,
  false, ◌==◌, ◌&&◌,
}
use modular_agentic_system.Base.Map.{Map}
use modular_agentic_system.Environment.{ProvisionSource, files}
use modular_agentic_system.Events.{ExecutionTopology}
use modular_agentic_system.Kernel.{Kernel}
use modular_agentic_system.Memory.{SessionMemory}
use modular_agentic_system.Server.Profile
use modular_agentic_system.Server.Profile.{ProcessEnv, pi_main_profile, has_model_key}
use modular_agentic_system.Server.RunHistory.{RunFile}
use modular_agentic_system.Session.{SessionConfig}

pub record MessageBody : Type 0 where
  pub harness : Option Text
  pub environment : Option Text
  pub prompt : Text
  pub session_id : Option Text
  pub project_id : Option Text
  pub chat_id : Option Text
  pub model : Option Text
  pub topology : Option ExecutionTopology
  pub runtime_profile : Option Text
  pub source : Option ProvisionSource
  pub ports : Option (List ℕ)
  pub tool_refs : Option (List Text)
  pub skill_refs : Option (List Text)
  pub delegation : Option Bool

pub record WarmBody : Type 0 where
  pub session_id : Option Text
  pub harness : Option Text
  pub environment : Option Text
  pub runtime_profile : Option Text
  pub source : Option ProvisionSource
  pub ports : Option (List ℕ)

pub record PrewarmBody : Type 0 where
  pub project_id : Option Text
  pub harness : Option Text
  pub environment : Option Text
  pub runtime_profile : Option Text
  pub source : Option ProvisionSource
  pub ports : Option (List ℕ)
  pub count : Option ℕ

-- What lives as long as the process: the kernel, the memory of the sessions, and the file of the runs.
pub record Server : Type 0 where
  pub kernel : Kernel
  pub memory : Map SessionMemory
  pub history : RunFile

abbrev pub runtime_profile_for : Text → Text → Option Text → Option Text
runtime_profile_for harness environment requested = requested

abbrev pub draw_uuid : Server → Server
draw_uuid s = record s { kernel = record s.kernel { uuids = suc s.kernel.uuids } }

-- `body.sessionId ?? …`: the id of a new session begins with that of its owner.
unfoldable pub session_for : (ℕ → Text) → Option Text → (owner_id : Text) → Server → Server × Text
session_for uuid (some id) owner_id s = (s, id)
session_for uuid none owner_id s =
    (draw_uuid s, take 8 owner_id ++ (codes "-" ++ uuid s.kernel.uuids))

abbrev pub no_files : ProvisionSource
no_files = files []

-- What `/warm` asks of the kernel.
unfoldable pub warm_config : WarmBody → Text → Text → Text → Text → SessionConfig
warm_config body session_id owner_id harness environment = record {
  session_id = session_id;
  harness = harness;
  environment = environment;
  owner_id = some owner_id;
  run_id = none;
  source = some (or_else body.source no_files);
  runtime_profile = runtime_profile_for harness environment body.runtime_profile;
  project_id = none;
  model = none;
  topology = none;
  env = none;
  ports = body.ports;
  tool_refs = none;
  skill_refs = none;
  delegation = none;
}

-- A field that the request leaves open has the profile's value when the harness is the profile's.
abbrev pub profile_or {ℓ} : {A : Type ℓ} → Bool → Option A → Option A → Option A
profile_or applies (some a) default = some a
profile_or applies none default = if applies then default else none

-- What `/message` asks of the kernel.
unfoldable pub message_config :
    ProcessEnv → MessageBody → Text → Text → Text → Text → Text → SessionConfig
message_config env body session_id run_id owner_id harness environment =
    let is_pi = harness == (pi_main_profile env).harness && has_model_key env in
    record {
      session_id = session_id;
      harness = harness;
      environment = environment;
      owner_id = some owner_id;
      run_id = some run_id;
      source = some (or_else body.source no_files);
      runtime_profile = runtime_profile_for harness environment body.runtime_profile;
      project_id = body.project_id;
      model = profile_or is_pi body.model (pi_main_profile env).model;
      topology = body.topology;
      env = none;
      ports = body.ports;
      tool_refs = profile_or is_pi body.tool_refs (pi_main_profile env).tool_refs;
      skill_refs = profile_or is_pi body.skill_refs (pi_main_profile env).skill_refs;
      delegation = some (or_else body.delegation false);
    }
