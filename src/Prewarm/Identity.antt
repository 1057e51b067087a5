-- ===== src/Prewarm/Identity.antt =====
-- src/kernel/prewarmPool.ts: what a warm handle is for, and the key that it stands under.
use modular_agentic_system.Base.{
  ℕ, List, [], ◌∷◌, ◌++◌, Option, none, some, Text, codes, join, truthy, or_else, length,
  if◌then◌else◌,
}
use modular_agentic_system.Base.Decimal.{decimal}
use modular_agentic_system.Environment.{ProvisionSource, git, files, cache}

pub record PrewarmIdentity : Type 0 where
  pub owner_id : Option Text
  pub environment : Text
  pub runtime_profile : Option Text
  pub project_id : Option Text
  pub source : Option ProvisionSource

pub record PrewarmRequest : Type 0 where
  pub identity : PrewarmIdentity
  pub open identity use *
  pub env : Option (List (Text × Text))
  pub ports : Option (List ℕ)

pub record PrewarmStatus : Type 0 where
  pub key : Text
  pub ready : ℕ
  pub provisioning : ℕ
  pub target : ℕ

unfoldable pub source_fingerprint : Option ProvisionSource → Text
source_fingerprint none = codes "none"
source_fingerprint (some (git url revision depth token)) =
    codes "git:" ++ (url ++ (codes "@" ++ or_else revision (codes "HEAD")))
source_fingerprint (some (cache ref)) = codes "cache:" ++ ref
source_fingerprint (some (files fs)) = codes "files:" ++ decimal (length fs)

unfoldable pub prewarm_key : PrewarmIdentity → Text
prewarm_key id =
    let workspace =
      if truthy id.project_id
      then codes "proj:" ++ or_else id.project_id []
      else source_fingerprint id.source in
    join (codes "::") (
      or_else id.owner_id (codes "-")
      ∷ id.environment
      ∷ or_else id.runtime_profile (codes "-")
      ∷ workspace
      ∷ [])
