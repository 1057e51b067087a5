-- ===== src/Server/Profile.antt =====
-- What the server runs by default: src/profiles/pi.ts and src/harnesses/cli/defaults.ts, and the choice that
-- the handlers of src/server/http.ts make between them.
use modular_agentic_system.Base.{
  Bool, true, false, not, ◌&&◌, ◌||◌, List, [], ◌∷◌, Option, none, some, Text, codes, truthy,
  or_else, or_option, if◌then◌else◌, ◌++◌,
}
use modular_agentic_system.Base.Outcome.{Outcome, ok, throws, ◌>>=◌}
use modular_agentic_system.Events.{ExecutionTopology, agent_as_tool}
use modular_agentic_system.Session.{SessionConfig}

-- What the handlers read of `process.env`.
pub record ProcessEnv : Type 0 where
  pub openrouter_api_key : Option Text
  pub anthropic_api_key : Option Text
  pub openai_api_key : Option Text
  pub pi_model : Option Text
  pub kernel_persist : Option Text

pub record RunProfile : Type 0 where
  pub id : Text
  pub harness : Text
  pub default_topology : ExecutionTopology
  pub environment : Text
  pub tool_refs : Option (List Text)
  pub skill_refs : Option (List Text)
  pub model : Option Text
  pub reason : Text

abbrev pub pi_main_profile : ProcessEnv → RunProfile
pi_main_profile env = record {
  id = codes "pi-main";
  harness = codes "pi";
  default_topology = agent_as_tool;
  environment = codes "local";
  tool_refs =
      some (codes "read" ∷ codes "bash" ∷ codes "edit" ∷ codes "write" ∷ codes "expose_port" ∷ []);
  skill_refs = some [];
  model = some (or_else env.pi_model (codes "openrouter/anthropic/claude-sonnet-4.5"));
  reason = codes "pi-main: PI is the main agent via OpenRouter (agent-as-tool, dual-topology)";
}

-- A session's configuration, some of which may be missing.
pub record PartialConfig : Type 0 where
  pub config : SessionConfig
  pub harness : Option Text
  pub environment : Option Text

unfoldable pub pi_session_config : ProcessEnv → PartialConfig → SessionConfig
pi_session_config env base =
    let profile = pi_main_profile env in
    record base.config {
      harness = or_else base.harness profile.harness;
      environment = or_else base.environment profile.environment;
      topology = or_option base.config.topology (some profile.default_topology);
      model = or_option base.config.model profile.model;
      tool_refs = or_option base.config.tool_refs profile.tool_refs;
      skill_refs = or_option base.config.skill_refs profile.skill_refs;
    }

pub record DefaultSelection : Type 0 where
  pub harness : Text
  pub environment : Text
  pub reason : Text
  pub has_api_key : Bool

abbrev pub recommend_defaults_from_status : (has_api_key : Bool) → DefaultSelection
recommend_defaults_from_status true = record {
  harness = codes "openai-agents";
  environment = codes "docker";
  reason = codes "API key present → openai-agents on docker";
  has_api_key = true;
}
recommend_defaults_from_status false = record {
  harness = codes "none";
  environment = codes "none";
  reason = codes "No API key → no runnable config (set OPENROUTER_API_KEY or OPENAI_API_KEY)";
  has_api_key = false;
}

abbrev pub recommend_defaults : ProcessEnv → DefaultSelection
recommend_defaults env =
    recommend_defaults_from_status (truthy env.openrouter_api_key || truthy env.openai_api_key)

abbrev pub has_model_key : ProcessEnv → Bool
has_model_key env =
    truthy env.openrouter_api_key || truthy env.anthropic_api_key || truthy env.openai_api_key

abbrev pub use_pi_default : ProcessEnv → Option Text → Bool
use_pi_default env harness = not (truthy harness) && has_model_key env

abbrev pub cred_fallback : ProcessEnv → Option Text → Option DefaultSelection
cred_fallback env harness =
    if not (truthy harness) && not (has_model_key env) then some (recommend_defaults env) else none

-- `credFallback!.harness`, and `.environment`: reading a field of `null` throws.
abbrev pub read_field : (DefaultSelection → Text) → Text → Option DefaultSelection → Outcome Text
read_field field name none =
    throws (codes "Cannot read properties of null (reading '" ++ name ++ codes "')")
read_field field name (some d) = ok (field d)

abbrev pub given : Option Text → Outcome Text → Outcome Text
given none default = default
given (some t) default = ok t

-- `body.harness ?? …`
unfoldable pub harness_for : ProcessEnv → Option Text → Outcome Text
harness_for env harness = given harness (
    if use_pi_default env harness
    then ok (pi_main_profile env).harness
    else read_field (λ d. d.harness) (codes "harness") (cred_fallback env harness))

-- `body.environment ?? …`
unfoldable pub environment_for : ProcessEnv → Option Text → Option Text → Outcome Text
environment_for env harness environment = given environment (
    if use_pi_default env harness
    then ok (pi_main_profile env).environment
    else read_field (λ d. d.environment) (codes "environment") (cred_fallback env harness))

-- The harness and the environment of a request, as `/message`, `/warm` and `/prewarm` choose them.
unfoldable pub target_of : ProcessEnv → Option Text → Option Text → Outcome (Text × Text)
unfolding harness_for environment_for
target_of env harness environment =
    harness_for env harness >>= λ h. environment_for env harness environment >>= λ e. ok (h, e)
