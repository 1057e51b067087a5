-- ===== src/Examples/Fixtures.antt =====
-- Small concrete values of the types of src/kernel/ and its neighbours.
use modular_agentic_system.Base.{ℕ, true, false, [], ◌∷◌, none, some, Text, codes}
use modular_agentic_system.Base.Outcome.{ok}
use modular_agentic_system.Environment.{Environment, EnvironmentHandle}
use modular_agentic_system.Events.{
  stream_chunk, usage_delta, final_text, agent_as_tool, HarnessCapabilities,
}
use modular_agentic_system.Harness.{
  DelegateRequest, HarnessRun, returned, emits, delegates, Harness,
}
use modular_agentic_system.Kernel.{Kernel}
use modular_agentic_system.Orchestrator.{Registries, RunArgs}
use modular_agentic_system.Prewarm.Identity.{PrewarmRequest}
use modular_agentic_system.Session.{SessionConfig, Sessions}
use modular_agentic_system.Topology.{EnvironmentCapabilities}

abbrev pub plain_caps : EnvironmentCapabilities
plain_caps = record { hosts_agent_runtime = false; public_ports = true }

abbrev pub sandbox : Environment
sandbox = record {
  ref = codes "local";
  capabilities = plain_caps;
  provision = λ n spec. ok plain_caps;
}

abbrev pub handle_at : ℕ → EnvironmentHandle
handle_at n = record { id = n; capabilities = plain_caps }

abbrev pub harness_caps : HarnessCapabilities
harness_caps = record {
  topologies = agent_as_tool ∷ [];
  default_topology = agent_as_tool;
  native_tools = none;
  native_skills = none;
}

abbrev pub says : {R : Type 0} → HarnessRun R
says =
    emits (stream_chunk (codes "hi"))
      (emits (usage_delta 3 4) (emits (final_text (codes "ok")) (returned false)))

-- A harness that says a few words.
abbrev pub speaker : Harness
speaker = record {
  ref = codes "speaker";
  capabilities = harness_caps;
  run_leaf = λ task e kit. says;
  run_router = λ ctx task e kit. says;
}

abbrev pub errand : DelegateRequest
errand = record {
  harness = codes "speaker";
  environment = codes "local";
  task = codes "go";
  topology = none;
  model = none;
}

-- A harness that hands its task on, and then says a few words.
abbrev pub router : Harness
router = record {
  ref = codes "router";
  capabilities = harness_caps;
  run_leaf = λ task e kit. says;
  run_router = λ ctx task e kit. delegates errand (λ d. says);
}

abbrev pub registries : Registries
registries = record {
  harnesses = (codes "speaker", ok speaker) ∷ (codes "router", ok router) ∷ [];
  environments = (codes "local", ok sandbox) ∷ [];
  tools = [];
  skills = [];
}

-- Ids that do not repeat in the runs below.
abbrev pub uuid : ℕ → Text
uuid n = n ∷ []

abbrev pub config : SessionConfig
config = record {
  session_id = codes "s";
  harness = codes "router";
  environment = codes "local";
  owner_id = some (codes "ann");
  run_id = none;
  source = none;
  runtime_profile = none;
  project_id = some (codes "p");
  model = none;
  topology = none;
  env = none;
  ports = none;
  tool_refs = some [];
  skill_refs = some [];
  delegation = none;
}

abbrev pub args : RunArgs
args = record {
  run_id = codes "r";
  session_id = codes "s";
  harness_ref = codes "router";
  prompt = codes "build";
  model = none;
  allowed_models = none;
  handle = handle_at 0;
  topology = none;
  tool_refs = some [];
  skill_refs = some [];
}

abbrev pub no_sessions : Sessions
no_sessions = record {
  sessions = [];
  warm = record {
    pool = record { ready = []; inflight = []; default_target = 1 };
    jobs = [];
    timers = [];
    substrate = record { made = 0; destroyed = [] };
  };
}

abbrev pub idle : Kernel
idle = record {
  admission = record { active = [] };
  sessions = no_sessions;
  preview = [];
  child_sessions = [];
  uuids = 0;
  now = 7;
}

abbrev pub ann_request : PrewarmRequest
ann_request = record {
  identity = record {
    owner_id = some (codes "ann");
    environment = codes "local";
    runtime_profile = none;
    project_id = some (codes "p");
    source = none;
  };
  env = none;
  ports = none;
}
