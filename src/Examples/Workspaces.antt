-- ===== src/Examples/Workspaces.antt =====
-- Runs of the theorems on src/kernel/session.ts and src/kernel/prewarmPool.ts.
use modular_agentic_system.Base.{◌≡◌, ◌≤◌, refl, List, [], ◌∷◌, none, some, codes, arith, ◌==◌}
use modular_agentic_system.Base.Map
use modular_agentic_system.Base.Outcome.{ok, throws}
use modular_agentic_system.Environment.{provision}
use modular_agentic_system.Examples.Fixtures.{
  plain_caps, sandbox, handle_at, registries, config, no_sessions, ann_request,
}
use modular_agentic_system.Prewarm.{Job, have, warm_spec, claim}
use modular_agentic_system.Prewarm.Identity.{prewarm_key}
use modular_agentic_system.Prewarm.Key.{IsPlainIdentity}
use modular_agentic_system.Registry.{resolve}
use modular_agentic_system.Session
use modular_agentic_system.Session.{
  SessionConfig, SessionState, Sessions, not_found, ensure_workspace, finish, claim_or_provision,
  provision_fresh, record_session, identity_of, spec_of,
}
use modular_agentic_system.Session.Bounded.{IsBounded}
use modular_agentic_system.Session.Capacity.{run_within_capacity, shutdown_leaves_handle}
use modular_agentic_system.Session.Accounted.{IsConserved}
use modular_agentic_system.Session.Conserve.{run_conserves}
use modular_agentic_system.Session.Loop.{
  Input, opens_project, job_ends, timer_fires, shuts_down, wants_workspace, ends_session, run,
  start,
}
use modular_agentic_system.Session.Race.{returned, begin_ensure, proceed, overlapping_ensures}
use modular_agentic_system.Session.Owner.{other_owner_refused}

known : resolve (codes "environment") (codes "local") registries.environments ≡ ok sandbox
unfolding resolve Map.get ◌==◌
known = refl

plain : IsPlainIdentity ann_request.identity
plain = record {
  owner = (omega arith, (omega arith, (omega arith, tt)));
  environment = (omega arith, (omega arith, (omega arith, (omega arith, (omega arith, tt)))));
  profile = (omega arith, tt);
}

abbrev state : SessionState
state = record {
  handle = handle_at 0;
  environment_ref = codes "local";
  runtime_profile = none;
  owner_id = some (codes "bob");
}

abbrev bobs : Sessions
bobs = record no_sessions { sessions = (codes "s", state) ∷ [] }

bobs_there : Map.get config.session_id bobs.sessions ≡ some state
unfolding Map.get ◌==◌
bobs_there = refl

other_owner_refused_example :
    (Session.get (codes "s") (some (codes "ann")) bobs ≡ throws not_found)
    × (ensure_workspace registries.environments config bobs ≡ (bobs, throws not_found))
    × (finish (codes "s") (some (codes "ann")) bobs ≡ (bobs, throws not_found))
other_owner_refused_example =
    other_owner_refused registries.environments config bobs state (codes "bob") (codes "ann")
      bobs_there refl refl (λ e. absurd (ground arith)) (λ e. absurd (ground arith))
      (λ e. absurd (ground arith))

served : (ensure_workspace registries.environments config no_sessions).1 ≡ ok (handle_at 0)
unfolding ensure_workspace claim_or_provision provision_fresh claim provision resolve Map.get ◌==◌
    record_session identity_of spec_of prewarm_key
served = refl

nothing_warm : claim (identity_of config) no_sessions.warm ≡ (no_sessions.warm, none)
unfolding claim Map.get
nothing_warm = refl

nothing_there : Map.get config.session_id no_sessions.sessions ≡ none
unfolding Map.get
nothing_there = refl

overlapping_ensures_example :
    let (s₁, p) = begin_ensure registries.environments config no_sessions in
    let (s₂, q) = begin_ensure registries.environments config s₁ in
    let (s₃, a) = proceed registries.environments config (s₂, p) in
    let (s₄, b) = proceed registries.environments config (s₃, q) in
    (a ≡ returned (ok (handle_at 0)))
    × (b ≡ returned (ok (handle_at 1)))
    × (s₄.sessions
        ≡ Map.set config.session_id
            (record {
              handle = handle_at 1;
              environment_ref = config.environment;
              runtime_profile = config.runtime_profile;
              owner_id = config.owner_id;
            })
            [])
    × (s₄.warm.substrate.destroyed ≡ [])
    × (s₄.warm.pool ≡ no_sessions.warm.pool)
overlapping_ensures_example =
    overlapping_ensures registries.environments config no_sessions sandbox plain_caps plain_caps
      nothing_there nothing_warm known refl refl

abbrev day : List Input
day =
    opens_project ann_request (some 2)
    ∷ job_ends 0
    ∷ wants_workspace config
    ∷ job_ends 0
    ∷ timer_fires 0
    ∷ ends_session (codes "s") none
    ∷ []

run_conserves_example : IsConserved (run registries.environments (day) (start 1))
run_conserves_example = run_conserves registries.environments 1 day

one_two : 1 ≤ 2
one_two = omega arith

two_two : 2 ≤ 2
two_two = omega arith

run_within_capacity_example : IsBounded 2 (run registries.environments day (start 1)).warm
run_within_capacity_example =
    run_within_capacity 2 1 registries.environments day one_two (two_two, tt)

abbrev job : Job
job = record { key = codes "k"; environment = sandbox; spec = warm_spec ann_request }

abbrev busy : Sessions
busy = record no_sessions { warm = record no_sessions.warm { jobs = job ∷ [] } }

shutdown_leaves_handle_example :
    have (codes "k") (run registries.environments (shuts_down ∷ job_ends 0 ∷ []) busy).warm.pool ≡ 1
shutdown_leaves_handle_example =
    shutdown_leaves_handle registries.environments busy job [] plain_caps refl refl
