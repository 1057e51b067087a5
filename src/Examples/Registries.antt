-- ===== src/Examples/Registries.antt =====
-- Runs of the theorems on src/kernel/admission.ts, src/kernel/capabilities.ts, src/kernel/preview.ts
-- and src/registry/index.ts.
use modular_agentic_system.Base.{◌≡◌, refl, List, [], ◌∷◌, none, some, Text, codes, ◌==◌}
use modular_agentic_system.Base.Map
use modular_agentic_system.Base.Map.{Map}
use modular_agentic_system.Base.Outcome.{ok, throws}
use modular_agentic_system.Admission.Lock
use modular_agentic_system.Admission.Lock.{held, admits, releases, contains-replay, admit-replay}
use modular_agentic_system.Events.{agent_as_tool, agent_in_sandbox, HarnessCapabilities}
use modular_agentic_system.Examples.Fixtures.{plain_caps}
use modular_agentic_system.Preview.Durable
use modular_agentic_system.Preview.Durable.{
  live, captured, cleared, last_snapshot, last_url, snapshot-replay, url-replay,
}
use modular_agentic_system.Registry.{
  Factory, ToolSpec, SkillSpec, ToolKit, resolve, resolve_all, build_kit,
}
use modular_agentic_system.Topology.Choice.{IsRunnable}

abbrev calls : List Lock.Call
calls = releases (codes "b") ∷ admits (codes "a") ∷ admits (codes "b") ∷ []

-- A harness that would rather be in the sandbox.
abbrev both_caps : HarnessCapabilities
both_caps = record {
  topologies = agent_in_sandbox ∷ agent_as_tool ∷ [];
  default_topology = agent_in_sandbox;
  native_tools = none;
  native_skills = none;
}

as_tool-IsRunnable : IsRunnable both_caps (some plain_caps) agent_as_tool
as_tool-IsRunnable = record { declared = refl; hosted = λ q. cc }

abbrev previews : List Durable.Call
previews =
    live (codes "s") (codes "http://b") 2
    ∷ captured (codes "s") (codes "snap")
    ∷ live (codes "s") (codes "http://a") 1
    ∷ []

abbrev bash : ToolSpec
bash = record { ref = codes "bash"; description = codes "runs a command" }

abbrev tools : Map (Factory ToolSpec)
tools = (codes "bash", ok bash) ∷ []

abbrev skills : Map (Factory SkillSpec)
skills = []

abbrev twice : List (Text × Factory ToolSpec)
twice = (codes "bash", ok bash) ∷ (codes "bash", throws (codes "late")) ∷ []

abbrev kit : ToolKit
kit = record { tools = bash ∷ []; skills = []; native_tool_refs = []; native_skill_refs = [] }

built : build_kit tools skills (codes "bash" ∷ []) [] [] [] ≡ ok kit
unfolding build_kit resolve_all resolve Map.get ◌==◌
built = refl
