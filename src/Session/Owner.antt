-- ===== src/Session/Owner.antt =====
-- Who reaches a workspace of src/kernel/session.ts, and what a workspace request leaves behind.
use modular_agentic_system.Base.{
  ◌≡◌, ◌≢◌, refl, true, false, not, ◌&&◌, Option, none, some, Text, [], ◌∷◌, codes, ◌==◌, eq_iff,
  eq_refl, truthy, arith, Option-cases, Bool-cases, inl, inr,
}
use modular_agentic_system.Base.Map
use modular_agentic_system.Base.Map.{Map}
use modular_agentic_system.Base.Outcome.{ok, throws, Outcome-cases}
use modular_agentic_system.Environment.{Environment, EnvironmentHandle, provision}
use modular_agentic_system.Prewarm.{claim}
use modular_agentic_system.Registry.{Factory, resolve}
use modular_agentic_system.Session.{
  SessionConfig, SessionState, Sessions, record_session, provision_fresh, claim_or_provision,
  tear_down, ensure_workspace, get, finish, crosses_owner, option_eq, identity_of, spec_of,
  not_found,
}

-- For a live session with a non-empty owner id, and a caller with another non-empty owner id: `get`,
-- `ensureWorkspace` and `end` all throw the "session not found" error, and none of them changes
-- anything.
pub other_owner_refused :
    (envs : Map (Factory Environment)) (c : SessionConfig) (s : Sessions) (state : SessionState)
    (owner caller : Text)
    → Map.get c.session_id s.sessions ≡ some state
    → state.owner_id ≡ some owner
    → c.owner_id ≡ some caller
    → owner ≢ []
    → caller ≢ []
    → owner ≢ caller
    → (get c.session_id c.owner_id s ≡ throws not_found)
      × (ensure_workspace envs c s ≡ (s, throws not_found))
      × (finish c.session_id c.owner_id s ≡ (s, throws not_found))
unfolding get ensure_workspace finish
other_owner_refused envs c s state owner caller there owns calls some_owner some_caller other =
    (rw (there, get, crosses), rw (there, ensure_workspace, crosses), rw (there, finish, crosses))
  where
    full : (t : Text) → t ≢ [] → truthy (some t) ≡ true
    full [] h = absurd (h refl)
    full (x ∷ xs) h = refl

    crosses : crosses_owner state c.owner_id ≡ true
    crosses =
        rw (owns, calls)
          (ground (arith, full owner some_owner, full caller some_caller, eq_iff owner caller))

-- The session that a workspace request leaves behind.
pub record IsServed (c : SessionConfig) (h : EnvironmentHandle) (s s' : Sessions) : Type 0 where
  pub state : SessionState
  pub there : Map.get c.session_id s'.sessions ≡ some state
  pub same_handle : state.handle ≡ h
  pub same_environment : (state.environment_ref == c.environment) ≡ true
  pub same_profile : option_eq state.runtime_profile c.runtime_profile ≡ true
  pub own : crosses_owner state c.owner_id ≡ false
  pub others :
      (j : Text) → (c.session_id == j) ≡ false → Map.get j s'.sessions ≡ Map.get j s.sessions

option_eq_refl : (o : Option Text) → option_eq o o ≡ true
option_eq_refl none = refl
option_eq_refl (some t) = eq_refl t

owner_own : (o : Option Text) → truthy o && (truthy o && not (option_eq o o)) ≡ false
owner_own o = ground (arith, option_eq_refl o)

record_session-IsServed :
    (c : SessionConfig) (h : EnvironmentHandle) (s t : Sessions)
    → ((j : Text) → (c.session_id == j) ≡ false → Map.get j t.sessions ≡ Map.get j s.sessions)
    → IsServed c h s (record_session c h t)
unfolding record_session crosses_owner
record_session-IsServed c h s t others = record {
  state = fresh;
  there =
      ground (arith, Map.get-set c.session_id c.session_id fresh t.sessions, eq_refl c.session_id);
  same_handle = refl;
  same_environment = eq_refl c.environment;
  same_profile = option_eq_refl c.runtime_profile;
  own = owner_own c.owner_id;
  others = λ j e. ground (arith, Map.get-set c.session_id j fresh t.sessions, others j e);
}
  where
    fresh : SessionState
    fresh = record {
      handle = h;
      environment_ref = c.environment;
      runtime_profile = c.runtime_profile;
      owner_id = c.owner_id;
    }

provision_fresh-IsServed :
    (envs : Map (Factory Environment)) (c : SessionConfig) (s t : Sessions) (h : EnvironmentHandle)
    → ((j : Text) → (c.session_id == j) ≡ false → Map.get j t.sessions ≡ Map.get j s.sessions)
    → (provision_fresh envs c t).1 ≡ ok h
    → IsServed c h s (provision_fresh envs c t).0
unfolding provision_fresh
provision_fresh-IsServed envs c s t h others e =
    elim (Outcome-cases (resolve (codes "environment") c.environment envs)) [
      | inr (m, p) ↦ absurd (ground arith)
      | inl (env, p) ↦ elim (Outcome-cases (provision env (spec_of c) t.warm.substrate).1) [
        | inr (m, q) ↦ absurd (ground arith)
        | inl (h', q) ↦
            let same : h' ≡ h = ground arith in
            rw (p, provision_fresh) (rw q (rw same (record_session-IsServed c h s _ others)))
      ]
    ]

claim_or_provision-IsServed :
    (envs : Map (Factory Environment)) (c : SessionConfig) (s t : Sessions) (h : EnvironmentHandle)
    → ((j : Text) → (c.session_id == j) ≡ false → Map.get j t.sessions ≡ Map.get j s.sessions)
    → (claim_or_provision envs c t).1 ≡ ok h
    → IsServed c h s (claim_or_provision envs c t).0
unfolding claim_or_provision
claim_or_provision-IsServed envs c s t h others e =
    elim (Option-cases (claim (identity_of c) t.warm).1) [
      | inl p ↦
          rw (p, claim_or_provision) (provision_fresh-IsServed envs c s _ h others (ground arith))
      | inr (h', p) ↦
          let same : h' ≡ h = ground arith in
          rw (p, claim_or_provision) (rw same (record_session-IsServed c h s _ others))
    ]

-- A workspace request that returns a handle leaves a session that has this handle, the requested
-- environment and runtime profile, and an owner that the caller does not cross; every other session
-- is as it was.
pub ensure_workspace-IsServed :
    (envs : Map (Factory Environment)) (c : SessionConfig) (s : Sessions) (h : EnvironmentHandle)
    → (ensure_workspace envs c s).1 ≡ ok h
    → IsServed c h s (ensure_workspace envs c s).0
unfolding ensure_workspace
ensure_workspace-IsServed envs c s h e = elim (Option-cases (Map.get c.session_id s.sessions)) [
  | inl p ↦
      rw (p, ensure_workspace)
        (claim_or_provision-IsServed envs c s s h (λ j q. refl) (ground arith))
  | inr (x, p) ↦ elim (Bool-cases (crosses_owner x c.owner_id)) [
    | inl q ↦ absurd (ground arith)
    | inr q ↦ elim (Bool-cases (x.environment_ref == c.environment)) [
      | inl r ↦ elim (Bool-cases (option_eq x.runtime_profile c.runtime_profile)) [
        | inl r' ↦
            rw (p, ensure_workspace, q, r, r')
              (record {
                state = x;
                there = p;
                same_handle = ground arith;
                same_environment = r;
                same_profile = r';
                own = q;
                others = λ j k. refl;
              })
        | inr r' ↦
            rw (p, ensure_workspace, q, r, r')
              (claim_or_provision-IsServed envs c s _ h (λ j k. gone x j k) (ground arith))
      ]
      | inr r ↦
          rw (p, ensure_workspace, q, r)
            (claim_or_provision-IsServed envs c s _ h (λ j k. gone x j k) (ground arith))
    ]
  ]
]
  where
    gone :
        (x : SessionState) (j : Text)
        → (c.session_id == j) ≡ false
        → Map.get j (tear_down c.session_id x s).sessions ≡ Map.get j s.sessions
    gone x j k = unfold tear_down in ground (arith, Map.get-delete c.session_id j s.sessions)

-- A second request with the same configuration, right after one that returned a handle, returns the
-- same handle and changes nothing: nothing is provisioned, claimed or destroyed.
pub ensure_workspace_again :
    (envs : Map (Factory Environment)) (c : SessionConfig) (s : Sessions) (h : EnvironmentHandle)
    → (ensure_workspace envs c s).1 ≡ ok h
    → let s' = (ensure_workspace envs c s).0 in ensure_workspace envs c s' ≡ (s', ok h)
ensure_workspace_again envs c s h e =
    again (ensure_workspace envs c s).0 (ensure_workspace-IsServed envs c s h e)
  where
    again : (s' : Sessions) → IsServed c h s s' → ensure_workspace envs c s' ≡ (s', ok h)
    again s' v =
        unfold ensure_workspace in
        rw (v.there, ensure_workspace, v.own, v.same_environment, v.same_profile, v.same_handle)
