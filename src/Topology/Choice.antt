-- ===== src/Topology/Choice.antt =====
-- The choice of src/kernel/capabilities.ts against what the pair of harness and environment can run.

use modular_agentic_system.Base.{
  ◌≡◌, refl, ◌↔◌, Bool, true, List, [], ◌∷◌, Option, none, some, arith, Bool-cases, inl, inr,
  Option-cases, find,
}
use modular_agentic_system.Events.{
  ExecutionTopology, agent_as_tool, agent_in_sandbox, HarnessCapabilities,
}
use modular_agentic_system.Topology.{
  EnvironmentCapabilities, chosen, same, includes, hosts, hostable_topology, resolve_topology,
}

-- The harness declares the topology, and the environment hosts a runtime where that needs one.
pub record IsRunnable (h : HarnessCapabilities) (env : Option EnvironmentCapabilities)
    (t : ExecutionTopology) : Type 0 where
  pub declared : includes t h.topologies ≡ true
  pub hosted : t ≡ agent_in_sandbox → hosts env ≡ true

hostable_iff :
    (t : ExecutionTopology) (h : HarnessCapabilities) (env : Option EnvironmentCapabilities)
    → (hostable_topology t h env ≡ true) ↔ IsRunnable h env t
unfolding hostable_topology
hostable_iff agent_as_tool h env =
    (λ p. record { declared = ground arith; hosted = λ q. cc }, λ r. ground arith)
hostable_iff agent_in_sandbox h env = (
  λ p. record { declared = ground arith; hosted = λ q. ground arith },
  λ r. ground (arith, r.hosted refl),
)

find_sound :
    (p : ExecutionTopology → Bool) (ts : List ExecutionTopology) (t : ExecutionTopology)
    → find p ts ≡ some t
    → p t ≡ true
find_sound p [] t e = cc
find_sound p (x ∷ ts) t e = elim (Bool-cases (p x)) [
  | inl hit ↦ ground arith
  | inr miss ↦ find_sound p ts t (ground arith)
]

same_sound : (t u : ExecutionTopology) → same t u ≡ true → t ≡ u
same_sound agent_as_tool agent_as_tool h = refl
same_sound agent_in_sandbox agent_in_sandbox h = refl
same_sound agent_as_tool agent_in_sandbox h = cc
same_sound agent_in_sandbox agent_as_tool h = cc

find_complete :
    (p : ExecutionTopology → Bool) (ts : List ExecutionTopology) (t : ExecutionTopology)
    → includes t ts ≡ true
    → p t ≡ true
    → (u : ExecutionTopology) × (find p ts ≡ some u)
find_complete p [] t m h = cc
find_complete p (x ∷ ts) t m h = elim (Bool-cases (p x)) [
  | inl hit ↦ (x, ground arith)
  | inr miss ↦ rw miss (find_complete p ts t (ground (arith, same_sound t x)) h)
]

-- Whatever was requested: a topology that is chosen is runnable.
pub resolve_topology-IsRunnable :
    (h : HarnessCapabilities) (env : Option EnvironmentCapabilities)
    (requested : Option ExecutionTopology) (t : ExecutionTopology)
    → resolve_topology h env requested ≡ chosen t
    → IsRunnable h env t
unfolding resolve_topology
resolve_topology-IsRunnable h env (some r) t e = (hostable_iff t h env).0 (ground arith)
resolve_topology-IsRunnable h env none t e =
    (hostable_iff t h env).0 (elim (Bool-cases (hostable_topology h.default_topology h env)) [
      | inl hit ↦ ground arith
      | inr miss ↦
          find_sound (λ u. hostable_topology u h env) h.topologies t
            (elim (Option-cases (find (λ u. hostable_topology u h env) h.topologies)) [
              | inl q ↦ ground (arith)
              | inr (u, q) ↦ ground (arith)
            ])
    ])

-- A request is honoured exactly when it is runnable: it is never replaced by another topology.
pub resolve_topology-requested :
    (h : HarnessCapabilities) (env : Option EnvironmentCapabilities) (r : ExecutionTopology)
    → (resolve_topology h env (some r) ≡ chosen r) ↔ IsRunnable h env r
unfolding resolve_topology
resolve_topology-requested h env r =
    (resolve_topology-IsRunnable h env (some r) r, λ q. rw ((hostable_iff r h env).1 q) refl)

-- With no request, some topology is chosen as soon as one is runnable, and the harness's default is
-- chosen if that is runnable.
pub resolve_topology-unrequested :
    (h : HarnessCapabilities) (env : Option EnvironmentCapabilities) (t : ExecutionTopology)
    → IsRunnable h env t
    → ((u : ExecutionTopology) × (resolve_topology h env none ≡ chosen u))
      × (IsRunnable h env h.default_topology
          → resolve_topology h env none ≡ chosen h.default_topology)
unfolding resolve_topology
resolve_topology-unrequested h env t q = (
  elim (Bool-cases (hostable_topology h.default_topology h env)) [
    | inl hit ↦ (h.default_topology, rw hit)
    | inr miss ↦
        let (u, e) =
          find_complete (λ v. hostable_topology v h env) h.topologies t q.declared
            ((hostable_iff t h env).1 q) in
        (u, rw (miss, e))
  ],
  λ d. rw ((hostable_iff h.default_topology h env).1 d) refl,
)
