-- ===== src/Session.antt =====
-- src/kernel/session.ts: one workspace for a session, and who may reach it. A call runs to its end
-- before the next one about the sessions starts.
pub mod Owner
pub mod Loop
pub mod Race
pub mod Accounted
pub mod Conserve
pub mod Bounded
pub mod Thinner
pub mod Capacity
use modular_agentic_system.Base.{
  ℕ, Bool, true, false, not, ◌&&◌, List, [], ◌∷◌, Option, none, some, Text, codes, ◌==◌, truthy,
  or_else, if◌then◌else◌,
}
use modular_agentic_system.Base.Map
use modular_agentic_system.Base.Map.{Map}
use modular_agentic_system.Base.Outcome.{Outcome, ok, throws}
use modular_agentic_system.Environment.{
  ProvisionSource, files, ProvisionSpec, EnvironmentHandle, Environment, Substrate, provision,
  destroy,
}
use modular_agentic_system.Events.{ExecutionTopology}
use modular_agentic_system.Prewarm.{Warm, claim}
use modular_agentic_system.Prewarm.Identity.{PrewarmIdentity}
use modular_agentic_system.Registry.{Factory, resolve}

pub record SessionConfig : Type 0 where
  pub session_id : Text
  pub harness : Text
  pub environment : Text
  pub owner_id : Option Text
  pub run_id : Option Text
  pub source : Option ProvisionSource
  pub runtime_profile : Option Text
  pub project_id : Option Text
  pub model : Option Text
  pub topology : Option ExecutionTopology
  pub env : Option (List (Text × Text))
  pub ports : Option (List ℕ)
  pub tool_refs : Option (List Text)
  pub skill_refs : Option (List Text)
  pub delegation : Option Bool

pub record SessionState : Type 0 where
  pub handle : EnvironmentHandle
  pub environment_ref : Text
  pub runtime_profile : Option Text
  pub owner_id : Option Text

pub record Sessions : Type 0 where
  pub sessions : Map SessionState
  pub warm : Warm

abbrev pub not_found : Text
not_found = codes "session not found"

abbrev pub option_eq : Option Text → Option Text → Bool
option_eq none none = true
option_eq (some a) (some b) = a == b
option_eq none (some b) = false
option_eq (some a) none = false

-- `assertOwner` throws: both sides name an owner, and not the same one.
unfoldable pub crosses_owner : SessionState → Option Text → Bool
crosses_owner state caller =
    truthy caller && (truthy state.owner_id && not (option_eq state.owner_id caller))

unfoldable pub identity_of : SessionConfig → PrewarmIdentity
identity_of c = record {
  owner_id = c.owner_id;
  environment = c.environment;
  runtime_profile = c.runtime_profile;
  project_id = c.project_id;
  source = some (or_else c.source (files []));
}

unfoldable pub spec_of : SessionConfig → ProvisionSpec
spec_of c = record {
  source = or_else c.source (files []);
  runtime_profile = c.runtime_profile;
  env = c.env;
  ports = c.ports;
  labels = [];
}

unfoldable pub record_session : SessionConfig → EnvironmentHandle → Sessions → Sessions
record_session c h s = record s {
  sessions =
      Map.set c.session_id
        (record {
          handle = h;
          environment_ref = c.environment;
          runtime_profile = c.runtime_profile;
          owner_id = c.owner_id;
        })
        s.sessions;
}

unfoldable pub provision_fresh :
    Map (Factory Environment) → SessionConfig → Sessions → Sessions × Outcome EnvironmentHandle
unfolding record_session spec_of
provision_fresh envs c s = elim (resolve (codes "environment") c.environment envs) [
  | throws m ↦ (s, throws m)
  | ok e ↦
      let (substrate, outcome) = provision e (spec_of c) s.warm.substrate in
      elim outcome [
        | throws m ↦ (record s { warm = record s.warm { substrate = substrate } }, throws m)
        | ok h ↦
            (record_session c h (record s { warm = record s.warm { substrate = substrate } }), ok h)
      ]
]

-- A warm handle that fits is adopted; else a new one is provisioned.
unfoldable pub claim_or_provision :
    Map (Factory Environment) → SessionConfig → Sessions → Sessions × Outcome EnvironmentHandle
unfolding identity_of record_session provision_fresh
claim_or_provision envs c s =
    let (warm, claimed) = claim (identity_of c) s.warm in
    elim claimed [
      | some h ↦ (record_session c h (record s { warm = warm }), ok h)
      | none ↦ provision_fresh envs c (record s { warm = warm })
    ]

-- The old workspace is destroyed and forgotten.
unfoldable pub tear_down : Text → SessionState → Sessions → Sessions
tear_down session_id state s = record s {
  sessions = Map.delete session_id s.sessions;
  warm = record s.warm { substrate = destroy state.handle s.warm.substrate };
}

unfoldable pub ensure_workspace :
    Map (Factory Environment) → SessionConfig → Sessions → Sessions × Outcome EnvironmentHandle
unfolding claim_or_provision tear_down crosses_owner
ensure_workspace envs c s = elim (Map.get c.session_id s.sessions) [
  | none ↦ claim_or_provision envs c s
  | some existing ↦
      if crosses_owner existing c.owner_id
      then (s, throws not_found)
      else if existing.environment_ref == c.environment
          && option_eq existing.runtime_profile c.runtime_profile
      then (s, ok existing.handle)
      else claim_or_provision envs c (tear_down c.session_id existing s)
]

unfoldable pub get : Text → Option Text → Sessions → Outcome (Option EnvironmentHandle)
unfolding crosses_owner
get session_id owner_id s = elim (Map.get session_id s.sessions) [
  | none ↦ ok none
  | some state ↦ if crosses_owner state owner_id then throws not_found else ok (some state.handle)
]

unfoldable pub finish : Text → Option Text → Sessions → Sessions × Outcome (Unit {0})
unfolding crosses_owner tear_down
finish session_id owner_id s = elim (Map.get session_id s.sessions) [
  | none ↦ (s, ok tt)
  | some state ↦
      if crosses_owner state owner_id
      then (s, throws not_found)
      else (tear_down session_id state s, ok tt)
]
