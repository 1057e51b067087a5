-- ===== src/Prewarm/Key.antt =====
-- The key of src/kernel/prewarmPool.ts tells owners apart.
use modular_agentic_system.Base.{
  ◌≡◌, ◌≢◌, [], ◌∷◌, ◌++◌, Text, codes, join, or_else, truthy, arith, if◌then◌else◌,
}
use modular_agentic_system.Prewarm.Identity.{PrewarmIdentity, prewarm_key, source_fingerprint}

-- The text has no colon.
abbrev pub IsPlain : Text → Type 0
IsPlain [] = Unit {0}
IsPlain (c ∷ cs) = (c ≢ b':') × IsPlain cs

-- A plain text ends at the first colon.
pub plain_prefix :
    (a b r s : Text) → IsPlain a → IsPlain b → a ++ (b':' ∷ r) ≡ b ++ (b':' ∷ s) → (a ≡ b) × (r ≡ s)
plain_prefix [] [] r s p q e = ground arith
plain_prefix [] (y ∷ b) r s p q e = absurd (q.0 (ground arith))
plain_prefix (x ∷ a) [] r s p q e = absurd (p.0 (ground arith))
plain_prefix (x ∷ a) (y ∷ b) r s p q e =
    let (u, v) = plain_prefix a b r s p.1 q.1 (ground arith) in (ground arith, v)

abbrev pub owner_part : PrewarmIdentity → Text
owner_part id = or_else id.owner_id (codes "-")

abbrev pub profile_part : PrewarmIdentity → Text
profile_part id = or_else id.runtime_profile (codes "-")

abbrev pub workspace_part : PrewarmIdentity → Text
workspace_part id =
    if truthy id.project_id
    then codes "proj:" ++ or_else id.project_id []
    else source_fingerprint id.source

pub record IsPlainIdentity (id : PrewarmIdentity) : Type 0 where
  pub owner : IsPlain (owner_part id)
  pub environment : IsPlain id.environment
  pub profile : IsPlain (profile_part id)

-- For two identities whose owner, environment and runtime profile hold no colon: if the keys are
-- equal, then so are the owners, the environments, the profiles (each read as "-" where it is
-- missing) and the workspace parts. A warm handle is looked up by the key alone, so it is found only
-- by a request for its own owner and environment.
pub prewarm_key-injective :
    (a b : PrewarmIdentity)
    → IsPlainIdentity a
    → IsPlainIdentity b
    → prewarm_key a ≡ prewarm_key b
    → (owner_part a ≡ owner_part b)
      × (a.environment ≡ b.environment)
      × (profile_part a ≡ profile_part b)
      × (workspace_part a ≡ workspace_part b)
unfolding prewarm_key join
prewarm_key-injective a b p q e =
    let (o, e₁) = plain_prefix (owner_part a) (owner_part b) _ _ p.owner q.owner e in
    let (v, e₂) =
      plain_prefix a.environment b.environment _ _ p.environment q.environment (tail e₁) in
    let (r, e₃) =
      plain_prefix (profile_part a) (profile_part b) _ _ p.profile q.profile (tail e₂) in
    (o, v, r, tail e₃)
  where
    tail : {r s : Text} → ◌≡◌ {A = Text} (b':' ∷ r) (b':' ∷ s) → r ≡ s
    tail h = cc
