-- ===== src/Session/Accounted.antt =====
-- Where each handle of src/kernel/session.ts is, and the session manager's own operations.
use modular_agentic_system.Base.{
  ℕ, ◌+◌, ◌≡◌, refl, Option, none, some, Text, codes, ap, arith, Option-cases, Bool-cases, inl, inr,
  ◌==◌, eq_refl, ◌&&◌,
}
use modular_agentic_system.Base.Map
use modular_agentic_system.Base.Map.{Map}
use modular_agentic_system.Base.Outcome.{Outcome-cases}
use modular_agentic_system.Base.Totals.{
  at_option, total, IsDistinct, total-set, total-delete, set-IsDistinct, delete-IsDistinct,
}
use modular_agentic_system.Environment.{
  Environment, EnvironmentHandle, provision_ok, provision_throws, destroy,
}
use modular_agentic_system.Prewarm.{Warm, claim}
use modular_agentic_system.Prewarm.Counts.{one}
use modular_agentic_system.Prewarm.Steps.{IsArmed, stock, exists, claim-stock, claim-IsArmed}
use modular_agentic_system.Registry.{Factory, resolve}
use modular_agentic_system.Session.{
  SessionConfig, SessionState, Sessions, record_session, provision_fresh, claim_or_provision,
  tear_down, ensure_workspace, finish, crosses_owner, option_eq, identity_of, spec_of,
}

abbrev pub in_session : ℕ → SessionState → ℕ
in_session n state = one n state.handle

-- The places of the handle `n`: the pool, the sessions and the destroyed.
abbrev pub places : ℕ → Sessions → ℕ
places n s = stock n s.warm + total (in_session n) s.sessions

-- Every handle that was made is in exactly one place, and each place holds it once.
pub record IsConserved (s : Sessions) : Type 0 where
  pub armed : IsArmed s.warm
  pub distinct : IsDistinct s.sessions
  pub placed : (n : ℕ) → places n s ≡ exists n s.warm.substrate

record_session-IsConserved :
    (c : SessionConfig) (h : EnvironmentHandle) (s : Sessions)
    → Map.get c.session_id s.sessions ≡ none
    → IsArmed s.warm
    → IsDistinct s.sessions
    → ((n : ℕ) → places n s + one n h ≡ exists n s.warm.substrate)
    → IsConserved (record_session c h s)
unfolding record_session
record_session-IsConserved c h s free a d p = record {
  armed = a;
  distinct = set-IsDistinct c.session_id _ s.sessions d;
  placed = λ n. omega (
    arith,
    p n,
    total-set (in_session n) c.session_id
        (record {
          handle = h;
          environment_ref = c.environment;
          runtime_profile = c.runtime_profile;
          owner_id = c.owner_id;
        })
        s.sessions,
    ap (at_option (in_session n)) free,
  );
}

-- A step of the pool that keeps the number of places keeps the conservation.
pub warm-IsConserved :
    (s : Sessions) (w : Warm)
    → IsArmed w
    → ((n : ℕ) → stock n w + exists n s.warm.substrate ≡ stock n s.warm + exists n w.substrate)
    → IsConserved s
    → IsConserved (record s { warm = w })
warm-IsConserved s w a p v = record {
  armed = a;
  distinct = v.distinct;
  placed = λ n. omega (arith, p n, v.placed n);
}

provision_fresh-IsConserved :
    (envs : Map (Factory Environment)) (c : SessionConfig) (s : Sessions)
    → Map.get c.session_id s.sessions ≡ none
    → IsConserved s
    → IsConserved (provision_fresh envs c s).0
unfolding provision_fresh
provision_fresh-IsConserved envs c s free v =
    elim (Outcome-cases (resolve (codes "environment") c.environment envs)) [
      | inr (m, e) ↦ rw (e, provision_fresh) v
      | inl (env, e) ↦ elim (Outcome-cases (env.provision s.warm.substrate.made (spec_of c))) [
        | inr (m, f) ↦
            rw (e, provision_fresh)
              (rw (provision_throws env (spec_of c) s.warm.substrate m f) (
                warm-IsConserved s _ (record { distinct = v.armed.distinct; armed = v.armed.armed })
                  (λ n. ground (arith, provision_throws env (spec_of c) s.warm.substrate m f)) v))
        | inl (caps, f) ↦
            rw (e, provision_fresh)
              (rw (provision_ok env (spec_of c) s.warm.substrate caps f) (
                record_session-IsConserved c _ _ free
                  (record { distinct = v.armed.distinct; armed = v.armed.armed }) v.distinct
                  (λ n.
                    ground
                      (arith, v.placed n, provision_ok env (spec_of c) s.warm.substrate caps f))))
      ]
    ]

claim_or_provision-IsConserved :
    (envs : Map (Factory Environment)) (c : SessionConfig) (s : Sessions)
    → Map.get c.session_id s.sessions ≡ none
    → IsConserved s
    → IsConserved (claim_or_provision envs c s).0
unfolding claim_or_provision
claim_or_provision-IsConserved envs c s free v = go (claim (identity_of c) s.warm).1 refl
  where
    go :
        (o : Option EnvironmentHandle)
        → (claim (identity_of c) s.warm).1 ≡ o
        → IsConserved (claim_or_provision envs c s).0
    go none e =
        rw (e, claim_or_provision)
          (provision_fresh-IsConserved envs c _ free (record {
            armed = claim-IsArmed (identity_of c) s.warm v.armed;
            distinct = v.distinct;
            placed = λ n. ground (arith, v.placed n, claim-stock (identity_of c) s.warm n v.armed);
          }))
    go (some h) e =
        rw (e, claim_or_provision)
          (record_session-IsConserved c h _ free (claim-IsArmed (identity_of c) s.warm v.armed)
            v.distinct
            (λ n. ground (arith, v.placed n, claim-stock (identity_of c) s.warm n v.armed)))

tear_down-IsConserved :
    (session_id : Text) (state : SessionState) (s : Sessions)
    → Map.get session_id s.sessions ≡ some state
    → IsConserved s
    → IsConserved (tear_down session_id state s)
unfolding tear_down destroy
tear_down-IsConserved session_id state s there v = record {
  armed = record { distinct = v.armed.distinct; armed = v.armed.armed };
  distinct = delete-IsDistinct session_id s.sessions v.distinct;
  placed = λ n. omega (
    arith,
    v.placed n,
    total-delete (in_session n) session_id s.sessions v.distinct,
    ap (at_option (in_session n)) there,
  );
}

absent-tear_down :
    (session_id : Text) (state : SessionState) (s : Sessions)
    → Map.get session_id (tear_down session_id state s).sessions ≡ none
unfolding tear_down
absent-tear_down session_id state s =
    ground (arith, Map.get-delete session_id session_id s.sessions, eq_refl session_id)

pub ensure_workspace-IsConserved :
    (envs : Map (Factory Environment)) (c : SessionConfig) (s : Sessions)
    → IsConserved s
    → IsConserved (ensure_workspace envs c s).0
unfolding ensure_workspace
ensure_workspace-IsConserved envs c s v = elim (Option-cases (Map.get c.session_id s.sessions)) [
  | inl e ↦ rw (e, ensure_workspace) (claim_or_provision-IsConserved envs c s e v)
  | inr (x, e) ↦
      rw (e, ensure_workspace)
        (elim (Bool-cases (crosses_owner x c.owner_id)) [
          | inl p ↦ rw p v
          | inr p ↦
              rw p
                (elim (Bool-cases (
                  x.environment_ref == c.environment
                  && option_eq x.runtime_profile c.runtime_profile)) [
                    | inl q ↦ rw q v
                    | inr q ↦ rw q (
                        claim_or_provision-IsConserved envs c _ (absent-tear_down c.session_id x s)
                          (tear_down-IsConserved c.session_id x s e v))
                  ])
        ])
]

pub finish-IsConserved :
    (session_id : Text) (owner_id : Option Text) (s : Sessions)
    → IsConserved s
    → IsConserved (finish session_id owner_id s).0
unfolding finish
finish-IsConserved session_id owner_id s v = elim (Option-cases (Map.get session_id s.sessions)) [
  | inl e ↦ rw (e, finish) v
  | inr (x, e) ↦
      rw (e, finish)
        (elim (Bool-cases (crosses_owner x owner_id)) [
          | inl p ↦ rw p v
          | inr p ↦ rw p (tear_down-IsConserved session_id x s e v)
        ])
]
