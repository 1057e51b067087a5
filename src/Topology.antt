-- ===== src/Topology.antt =====
-- src/kernel/capabilities.ts: which of a harness's topologies a run gets on an environment.
pub mod Choice
use modular_agentic_system.Base.{
  ◌≡◌, Bool, true, false, ◌&&◌, ◌||◌, List, [], ◌∷◌, ◌++◌, Option, none, some, Text, codes, join,
  map, find, any, if◌then◌else◌,
}
use modular_agentic_system.Events.{
  ExecutionTopology, agent_as_tool, agent_in_sandbox, HarnessCapabilities,
}

pub record EnvironmentCapabilities : Type 0 where
  pub public_ports : Bool
  pub hosts_agent_runtime : Bool

pub data TopologyDecision : Type 0 where
  chosen : ExecutionTopology → TopologyDecision
  unsupported : (message : Text) → TopologyDecision

abbrev pub same : ExecutionTopology → ExecutionTopology → Bool
same agent_as_tool agent_as_tool = true
same agent_in_sandbox agent_in_sandbox = true
same agent_as_tool agent_in_sandbox = false
same agent_in_sandbox agent_as_tool = false

-- `harness.topologies.includes(t)`
abbrev pub includes : ExecutionTopology → List ExecutionTopology → Bool
includes t ts = any (same t) ts

abbrev pub needs_runtime : ExecutionTopology → Bool
needs_runtime agent_as_tool = false
needs_runtime agent_in_sandbox = true

-- `Boolean(env?.hostsAgentRuntime)`
abbrev pub hosts : Option EnvironmentCapabilities → Bool
hosts none = false
hosts (some e) = e.hosts_agent_runtime

unfoldable pub hostable_topology :
    ExecutionTopology → HarnessCapabilities → Option EnvironmentCapabilities → Bool
hostable_topology t h env =
    if includes t h.topologies then (if needs_runtime t then hosts env else true) else false

abbrev pub topology_name : ExecutionTopology → Text
topology_name agent_as_tool = codes "agent-as-tool"
topology_name agent_in_sandbox = codes "agent-in-sandbox"

-- `topologies.join(', ')`
abbrev pub names : List ExecutionTopology → Text
names ts = join (codes ", ") (map topology_name ts)

abbrev pub refusal : ExecutionTopology → HarnessCapabilities → Text
refusal t h =
    if includes t h.topologies
    then codes "environment cannot host topology \""
      ++ (topology_name t ++ codes "\" (needs hostsAgentRuntime)")
    else codes "harness does not support topology \""
      ++ (topology_name t ++ (codes "\" (supports [" ++ (names h.topologies ++ codes "])")))

unfoldable pub resolve_topology :
    HarnessCapabilities
    → Option EnvironmentCapabilities
    → Option ExecutionTopology
    → TopologyDecision
unfolding hostable_topology
resolve_topology h env (some requested) =
    if hostable_topology requested h env
    then chosen requested
    else unsupported (refusal requested h)
resolve_topology h env none =
    if hostable_topology h.default_topology h env
    then chosen h.default_topology
    else elim (find (λ t. hostable_topology t h env) h.topologies) [
      | some fallback ↦ chosen fallback
      | none ↦ unsupported (
          codes "none of the harness topologies ["
          ++ (names h.topologies ++ codes "] can run on this environment"))
    ]
