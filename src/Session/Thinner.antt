-- ===== src/Session/Thinner.antt =====
-- The steps that only take handles out of the warm pool of src/kernel/prewarmPool.ts.
use modular_agentic_system.Base.{
  ◌∙◌, ℕ, ◌≤◌, ◌≡◌, refl, ap, ◌&&◌, List, [], ◌∷◌, Option, Text, codes, ◌==◌, eq_iff, length, arith,
  inl, inr, Option-cases, Bool-cases,
}
use modular_agentic_system.Base.Map
use modular_agentic_system.Base.Map.{Map}
use modular_agentic_system.Base.Outcome.{Outcome-cases}
use modular_agentic_system.Environment.{Environment, EnvironmentHandle, Substrate, provision}
use modular_agentic_system.Prewarm.{Warm, have, pending, claim, evict, splice, holds}
use modular_agentic_system.Prewarm.Identity.{PrewarmIdentity, prewarm_key}
use modular_agentic_system.Prewarm.Counts.{ready_at, ready_at-put_back}
use modular_agentic_system.Registry.{Factory, resolve}
use modular_agentic_system.Session.{
  SessionConfig, Sessions, record_session, provision_fresh, claim_or_provision, tear_down,
  ensure_workspace, finish, crosses_owner, option_eq, identity_of, spec_of,
}
use modular_agentic_system.Session.Bounded.{IsBounded}

-- A step that takes handles out of the pool and leaves the provisions alone.
pub record IsThinner (w w' : Warm) : Type 0 where
  pub jobs : w'.jobs ≡ w.jobs
  inflight : w'.pool.inflight ≡ w.pool.inflight
  fewer : (k : Text) → have k w'.pool ≤ have k w.pool
  default_target : w'.pool.default_target ≡ w.pool.default_target

pub IsThinner-IsBounded :
    (limit : ℕ) (w w' : Warm) → IsThinner w w' → IsBounded limit w → IsBounded limit w'
unfolding pending
IsThinner-IsBounded limit w w' t v = record {
  counted = λ k. ground (arith, t.jobs, t.inflight, v.counted k);
  bounded = λ k. ground (arith, t.fewer k, t.inflight, v.bounded k);
  default_bounded = ground (arith, t.default_target, v.default_bounded);
}

length-splice : (n : ℕ) (hs : List EnvironmentHandle) → length (splice n hs) ≤ length hs
unfolding splice
length-splice n [] = omega arith
length-splice n (h ∷ hs) = ground (arith, length-splice n hs)

claim-IsThinner : (id : PrewarmIdentity) (w : Warm) → IsThinner w (claim id w).0
unfolding claim have
claim-IsThinner id w = go (ready_at (prewarm_key id) w.pool.ready) refl
  where
    go :
        (l : List EnvironmentHandle)
        → ready_at (prewarm_key id) w.pool.ready ≡ l
        → IsThinner w (claim id w).0
    go [] e =
        rw (e, claim)
          (record { jobs = refl; inflight = refl; fewer = λ k. omega arith; default_target = refl })
    go (h ∷ rest) e =
        rw (e, claim)
          (record {
            jobs = refl;
            inflight = refl;
            fewer = λ k. ground (
              arith,
              ready_at-put_back (prewarm_key id) k rest w.pool.ready,
              eq_iff (prewarm_key id) k,
              ap length e,
            );
            default_target = refl;
          })

pub evict-IsThinner : (key : Text) (h : EnvironmentHandle) (w : Warm) → IsThinner w (evict key h w)
unfolding evict have
evict-IsThinner key h w = elim (Bool-cases (holds h.id (ready_at key w.pool.ready))) [
  | inl e ↦
      rw (e, evict)
        (record {
          jobs = refl;
          inflight = refl;
          fewer = λ k. ground (
            arith,
            ready_at-put_back key k (splice h.id (ready_at key w.pool.ready)) w.pool.ready,
            eq_iff key k,
            length-splice h.id (ready_at key w.pool.ready),
          );
          default_target = refl;
        })
  | inr e ↦
      rw (e, evict)
        (record { jobs = refl; inflight = refl; fewer = λ k. omega arith; default_target = refl })
]

same-IsThinner : (w : Warm) (sub : Substrate) → IsThinner w (record w { substrate = sub })
unfolding have
same-IsThinner w sub = record {
  jobs = refl;
  inflight = refl;
  fewer = λ k. omega arith;
  default_target = refl;
}

provision_fresh-IsThinner :
    (envs : Map (Factory Environment)) (c : SessionConfig) (s : Sessions)
    → IsThinner s.warm (provision_fresh envs c s).0.warm
unfolding provision_fresh record_session
provision_fresh-IsThinner envs c s =
    elim (Outcome-cases (resolve (codes "environment") c.environment envs)) [
      | inr (m, e) ↦ rw (e, provision_fresh) (same-IsThinner s.warm s.warm.substrate)
      | inl (env, e) ↦ elim (Outcome-cases (provision env (spec_of c) s.warm.substrate).1) [
        | inr (m, f) ↦ rw (e, provision_fresh) (rw f (same-IsThinner s.warm _))
        | inl (h, f) ↦ rw (e, provision_fresh) (rw f (same-IsThinner s.warm _))
      ]
    ]

IsThinner-trans : (u v w : Warm) → IsThinner u v → IsThinner v w → IsThinner u w
IsThinner-trans u v w p q = record {
  jobs = q.jobs ∙ p.jobs;
  inflight = q.inflight ∙ p.inflight;
  fewer = λ k. omega (arith, p.fewer k, q.fewer k);
  default_target = q.default_target ∙ p.default_target;
}

claim_or_provision-IsThinner :
    (envs : Map (Factory Environment)) (c : SessionConfig) (s : Sessions)
    → IsThinner s.warm (claim_or_provision envs c s).0.warm
unfolding claim_or_provision record_session
claim_or_provision-IsThinner envs c s = elim (Option-cases (claim (identity_of c) s.warm).1) [
  | inl e ↦
      rw (e, claim_or_provision)
        (IsThinner-trans s.warm _ _ (claim-IsThinner (identity_of c) s.warm)
          (provision_fresh-IsThinner envs c _))
  | inr (h, e) ↦ rw (e, claim_or_provision) (claim-IsThinner (identity_of c) s.warm)
]

pub ensure_workspace-IsThinner :
    (envs : Map (Factory Environment)) (c : SessionConfig) (s : Sessions)
    → IsThinner s.warm (ensure_workspace envs c s).0.warm
unfolding ensure_workspace tear_down
ensure_workspace-IsThinner envs c s = elim (Option-cases (Map.get c.session_id s.sessions)) [
  | inl e ↦ rw (e, ensure_workspace) (claim_or_provision-IsThinner envs c s)
  | inr (x, e) ↦
      rw (e, ensure_workspace)
        (elim (Bool-cases (crosses_owner x c.owner_id)) [
          | inl p ↦ rw p (same-IsThinner s.warm s.warm.substrate)
          | inr p ↦
              rw p
                (elim (Bool-cases (
                  x.environment_ref == c.environment
                  && option_eq x.runtime_profile c.runtime_profile)) [
                    | inl q ↦ rw q (same-IsThinner s.warm s.warm.substrate)
                    | inr q ↦ rw q (
                        IsThinner-trans s.warm _ _ (same-IsThinner s.warm _)
                          (claim_or_provision-IsThinner envs c _))
                  ])
        ])
]

pub finish-IsThinner :
    (session_id : Text) (owner_id : Option Text) (s : Sessions)
    → IsThinner s.warm (finish session_id owner_id s).0.warm
unfolding finish tear_down
finish-IsThinner session_id owner_id s = elim (Option-cases (Map.get session_id s.sessions)) [
  | inl e ↦ rw (e, finish) (same-IsThinner s.warm s.warm.substrate)
  | inr (x, e) ↦
      rw (e, finish)
        (elim (Bool-cases (crosses_owner x owner_id)) [
          | inl p ↦ rw p (same-IsThinner s.warm s.warm.substrate)
          | inr p ↦ rw p (same-IsThinner s.warm _)
        ])
]
