-- ===== src/Environment.antt =====
-- src/types/environment.ts: the environment seam. An environment is an adapter behind an interface;
-- here it is what its `provision` yields, which may differ from call to call. The handles that exist
-- are numbered in the order of their making, and a handle is its number and its capabilities.
use modular_agentic_system.Base.{◌≡◌, ℕ, suc, List, [], ◌∷◌, Option, Text}
use modular_agentic_system.Base.Outcome.{Outcome, ok, throws}
use modular_agentic_system.Topology.{EnvironmentCapabilities}

pub record SourceFile : Type 0 where
  pub path : Text
  pub content : Text

pub data ProvisionSource : Type 0 where
  git :
      (url : Text) (revision : Option Text) (depth : Option ℕ) (token : Option Text)
      → ProvisionSource
  files : List SourceFile → ProvisionSource
  cache : Text → ProvisionSource

pub record ProvisionSpec : Type 0 where
  pub source : ProvisionSource
  pub runtime_profile : Option Text
  pub env : Option (List (Text × Text))
  pub ports : Option (List ℕ)
  pub labels : List (Text × Text)

pub record EnvironmentHandle : Type 0 where
  pub id : ℕ
  pub capabilities : EnvironmentCapabilities

pub record Environment : Type 0 where
  pub ref : Text
  pub capabilities : EnvironmentCapabilities
  pub provision : ℕ → ProvisionSpec → Outcome EnvironmentCapabilities

-- All handles made so far, and those destroyed, latest first.
pub record Substrate : Type 0 where
  pub made : ℕ
  pub destroyed : List ℕ

-- `await environment.provision(spec)`: a new handle, or an exception.
unfoldable pub provision :
    Environment → ProvisionSpec → Substrate → Substrate × Outcome EnvironmentHandle
provision e spec s = elim (e.provision s.made spec) [
  | ok caps ↦ (record s { made = suc s.made }, ok (record { id = s.made; capabilities = caps }))
  | throws m ↦ (s, throws m)
]

-- `await handle.destroy().catch(() => {})`
unfoldable pub destroy : EnvironmentHandle → Substrate → Substrate
destroy h s = record s { destroyed = h.id ∷ s.destroyed }

unfoldable pub destroy_each : List EnvironmentHandle → Substrate → Substrate
unfolding destroy
destroy_each [] s = s
destroy_each (h ∷ hs) s = destroy_each hs (destroy h s)

pub provision_throws :
    (e : Environment) (spec : ProvisionSpec) (s : Substrate) (m : Text)
    → e.provision s.made spec ≡ throws m
    → provision e spec s ≡ (s, throws m)
unfolding provision
provision_throws e spec s m h = rw (h, provision)

pub provision_ok :
    (e : Environment) (spec : ProvisionSpec) (s : Substrate) (caps : EnvironmentCapabilities)
    → e.provision s.made spec ≡ ok caps
    → provision e spec s
      ≡ (record s { made = suc s.made }, ok (record { id = s.made; capabilities = caps }))
unfolding provision
provision_ok e spec s caps h = rw (h, provision)
