-- ===== src/Session/Race.antt =====
-- `ensureWorkspace` of src/kernel/session.ts between its awaits: two calls for one session can
-- overlap.
use modular_agentic_system.Base.{
  suc, ◌≡◌, refl, ap, ◌∙◌, ◌&&◌, none, some, codes, ◌==◌, if◌then◌else◌, Option-cases, Bool-cases,
  inl, inr,
}
use modular_agentic_system.Base.Map
use modular_agentic_system.Base.Map.{Map, set-set}
use modular_agentic_system.Base.Outcome.{Outcome, ok, throws, Outcome-cases}
use modular_agentic_system.Environment.{
  EnvironmentHandle, Environment, provision, destroy, provision_ok,
}
use modular_agentic_system.Prewarm.{claim}
use modular_agentic_system.Registry.{Factory, resolve}
use modular_agentic_system.Session.{
  SessionConfig, Sessions, not_found, crosses_owner, option_eq, identity_of, spec_of,
  record_session, provision_fresh, claim_or_provision, tear_down, ensure_workspace,
}
use modular_agentic_system.Topology.{EnvironmentCapabilities}

-- What a call waits for.
pub data Await : Type 0 where
  destruction : Await
  provisioning : Environment → Await

pub data Progress : Type 0 where
  returned : Outcome EnvironmentHandle → Progress
  awaits : Await → Progress

-- From the spec to the call of `provision`, or to the end if a warm handle fits.
unfoldable pub adopt_or_ask :
    Map (Factory Environment) → SessionConfig → Sessions → Sessions × Progress
adopt_or_ask envs c s =
    let (warm, claimed) = claim (identity_of c) s.warm in
    elim claimed [
      | some h ↦ (record_session c h (record s { warm = warm }), returned (ok h))
      | none ↦ elim (resolve (codes "environment") c.environment envs) [
        | throws m ↦ (record s { warm = warm }, returned (throws m))
        | ok e ↦ (record s { warm = warm }, awaits (provisioning e))
      ]
    ]

-- A call up to its first await; the destruction of the old workspace has been asked for.
unfoldable pub begin_ensure :
    Map (Factory Environment) → SessionConfig → Sessions → Sessions × Progress
unfolding adopt_or_ask
begin_ensure envs c s = elim (Map.get c.session_id s.sessions) [
  | none ↦ adopt_or_ask envs c s
  | some existing ↦
      if crosses_owner existing c.owner_id
      then (s, returned (throws not_found))
      else if existing.environment_ref == c.environment
          && option_eq existing.runtime_profile c.runtime_profile
      then (s, returned (ok existing.handle))
      else (
        record s { warm = record s.warm { substrate = destroy existing.handle s.warm.substrate } },
        awaits destruction,
      )
]

-- The call goes on when what it waits for is over.
unfoldable pub resume_ensure :
    Map (Factory Environment) → SessionConfig → Await → Sessions → Sessions × Progress
unfolding adopt_or_ask
resume_ensure envs c destruction s =
    adopt_or_ask envs c (record s { sessions = Map.delete c.session_id s.sessions })
resume_ensure envs c (provisioning e) s =
    let (substrate, outcome) = provision e (spec_of c) s.warm.substrate in
    elim outcome [
      | throws m ↦
          (record s { warm = record s.warm { substrate = substrate } }, returned (throws m))
      | ok h ↦ (
        record_session c h (record s { warm = record s.warm { substrate = substrate } }),
        returned (ok h),
      )
    ]

-- One await that nothing comes between.
unfoldable pub proceed :
    Map (Factory Environment) → SessionConfig → Sessions × Progress → Sessions × Progress
unfolding resume_ensure
proceed envs c (s, returned o) = (s, returned o)
proceed envs c (s, awaits a) = resume_ensure envs c a s

adopt_or_ask_lem :
    (envs : Map (Factory Environment)) (c : SessionConfig) (s : Sessions)
    → proceed envs c (adopt_or_ask envs c s)
      ≡ ((claim_or_provision envs c s).0, returned (claim_or_provision envs c s).1)
unfolding proceed adopt_or_ask resume_ensure claim_or_provision provision_fresh
adopt_or_ask_lem envs c s = elim (Option-cases (claim (identity_of c) s.warm).1) [
  | inr (h, e) ↦ rw (e, adopt_or_ask, claim_or_provision) refl
  | inl e ↦ elim (Outcome-cases (resolve (codes "environment") c.environment envs)) [
    | inr (m, f) ↦ rw (e, adopt_or_ask, claim_or_provision, f, provision_fresh) refl
    | inl (v, f) ↦
        elim (Outcome-cases
          (provision v (spec_of c) (claim (identity_of c) s.warm).0.substrate).1) [
            | inl (h, g) ↦
                rw (e, adopt_or_ask, claim_or_provision, f, provision_fresh, g, resume_ensure) refl
            | inr (m, g) ↦
                rw (e, adopt_or_ask, claim_or_provision, f, provision_fresh, g, resume_ensure) refl
          ]
  ]
]

proceed_again :
    (envs : Map (Factory Environment)) (c : SessionConfig) (s : Sessions)
    (o : Outcome EnvironmentHandle)
    → proceed envs c (s, returned o) ≡ (s, returned o)
unfolding proceed
proceed_again envs c s o = refl

-- A call of `ensureWorkspace` whose two awaits nothing comes between is the call in one step that the
-- model has elsewhere: the same state, and the same handle or exception.
pub ensure_workspace-proceed :
    (envs : Map (Factory Environment)) (c : SessionConfig) (s : Sessions)
    → proceed envs c (proceed envs c (begin_ensure envs c s))
      ≡ ((ensure_workspace envs c s).0, returned (ensure_workspace envs c s).1)
unfolding begin_ensure ensure_workspace tear_down
ensure_workspace-proceed envs c s = elim (Option-cases (Map.get c.session_id s.sessions)) [
  | inl e ↦
      rw (e, begin_ensure, ensure_workspace)
        (ap (λ q. proceed envs c q) (adopt_or_ask_lem envs c s)
          ∙ proceed_again envs c (claim_or_provision envs c s).0 (claim_or_provision envs c s).1)
  | inr (state, e) ↦ elim (Bool-cases (crosses_owner state c.owner_id)) [
    | inl q ↦ rw (e, begin_ensure, ensure_workspace, q) (unfold proceed in refl)
    | inr q ↦
        elim (Bool-cases (
          state.environment_ref == c.environment
          && option_eq state.runtime_profile c.runtime_profile)) [
            | inl r ↦ rw (e, begin_ensure, ensure_workspace, q, r) (unfold proceed in refl)
            | inr r ↦
                rw (e, begin_ensure, ensure_workspace, q, r)
                  (unfold proceed resume_ensure tear_down in
                    adopt_or_ask_lem envs c (tear_down c.session_id state s))
          ]
  ]
]

begin_ensure-asks :
    (envs : Map (Factory Environment)) (c : SessionConfig) (s : Sessions) (e : Environment)
    → Map.get c.session_id s.sessions ≡ none
    → claim (identity_of c) s.warm ≡ (s.warm, none)
    → resolve (codes "environment") c.environment envs ≡ ok e
    → begin_ensure envs c s ≡ (s, awaits (provisioning e))
unfolding begin_ensure adopt_or_ask
begin_ensure-asks envs c s e none_there no_warm known =
    rw (none_there, begin_ensure, adopt_or_ask, ap (λ r. r.1) no_warm, known, ap (λ r. r.0) no_warm)
      refl

resume_ensure-returns :
    (envs : Map (Factory Environment)) (c : SessionConfig) (s : Sessions) (e : Environment)
    (caps : EnvironmentCapabilities)
    → e.provision s.warm.substrate.made (spec_of c) ≡ ok caps
    → proceed envs c (s, awaits (provisioning e)) ≡ (
      record_session c
          (record { id = s.warm.substrate.made; capabilities = caps })
          (record s {
            warm = record s.warm {
              substrate = record s.warm.substrate { made = suc s.warm.substrate.made };
            };
          }),
      returned (ok (record { id = s.warm.substrate.made; capabilities = caps })),
    )
unfolding proceed resume_ensure
resume_ensure-returns envs c s e caps f =
    let made = provision_ok e (spec_of c) s.warm.substrate caps f in
    rw (ap (λ r. r.1) made, resume_ensure, ap (λ r. r.0) made) refl

-- Two calls for a session that has no workspace and finds no warm one overlap: both begin before either
-- gets its sandbox. Then both provision one, the session keeps that of the second, and that of the first
-- is in no session, while nothing destroys it.
pub overlapping_ensures :
    (envs : Map (Factory Environment)) (c : SessionConfig) (s : Sessions) (e : Environment)
    (first second : EnvironmentCapabilities)
    → Map.get c.session_id s.sessions ≡ none
    → claim (identity_of c) s.warm ≡ (s.warm, none)
    → resolve (codes "environment") c.environment envs ≡ ok e
    → e.provision s.warm.substrate.made (spec_of c) ≡ ok first
    → e.provision (suc s.warm.substrate.made) (spec_of c) ≡ ok second
    → let (s₁, p) = begin_ensure envs c s in
      let (s₂, q) = begin_ensure envs c s₁ in
      let (s₃, a) = proceed envs c (s₂, p) in
      let (s₄, b) = proceed envs c (s₃, q) in
      (a ≡ returned (ok (record { id = s.warm.substrate.made; capabilities = first })))
      × (b ≡ returned (ok (record { id = suc s.warm.substrate.made; capabilities = second })))
      × (s₄.sessions
          ≡ Map.set c.session_id
              (record {
                handle = record { id = suc s.warm.substrate.made; capabilities = second };
                environment_ref = c.environment;
                runtime_profile = c.runtime_profile;
                owner_id = c.owner_id;
              })
              s.sessions)
      × (s₄.warm.substrate.destroyed ≡ s.warm.substrate.destroyed)
      × (s₄.warm.pool ≡ s.warm.pool)
unfolding record_session
overlapping_ensures envs c s e first second none_there no_warm known f g =
    let asks = begin_ensure-asks envs c s e none_there no_warm known in
    let s₃ =
      record_session c (record { id = s.warm.substrate.made; capabilities = first })
        (record s {
          warm = record s.warm {
            substrate = record s.warm.substrate { made = suc s.warm.substrate.made };
          };
        }) in
    rw
      (
        asks,
        asks,
        resume_ensure-returns envs c s e first f,
        resume_ensure-returns envs c s₃ e second g,
      )
      (refl, refl, set-set c.session_id _ _ s.sessions, refl, refl)
