-- ===== src/Session/Bounded.antt =====
-- Opening projects and background provisions keep the warm pool of src/kernel/prewarmPool.ts within
-- its bounds.
use modular_agentic_system.Base.{
  ℕ, zero, suc, ◌+◌, ◌≤◌, ◌≡◌, List, [], ◌∷◌, ◌++◌, Option, none, some, Text, ◌==◌, eq_iff, or_else,
  length-append, get_elem?, erase_idx, arith, if◌then◌else◌, inl, inr,
}
use modular_agentic_system.Base.Map
use modular_agentic_system.Base.Map.{Map}
use modular_agentic_system.Base.Outcome.{Outcome-cases}
use modular_agentic_system.Environment.{Environment, provision}
use modular_agentic_system.Prewarm.{
  Job, Warm, have, pending, ensure, finish_one, push_ready, job_over, set_inflight,
}
use modular_agentic_system.Prewarm.Identity.{PrewarmRequest, prewarm_key}
use modular_agentic_system.Prewarm.Target.{
  jobs_at, pending-job_over, start_many_lem, environment_of, want,
}
use modular_agentic_system.Registry.{Factory}
use modular_agentic_system.Session.Loop.{
  Input, opens_project, job_ends, timer_fires, shuts_down, wants_workspace, ends_session,
}

-- The background provisions are counted right, and no key has more than `limit` handles that are
-- ready or on their way.
pub record IsBounded (limit : ℕ) (w : Warm) : Type 0 where
  pub counted : (k : Text) → jobs_at k w.jobs ≡ pending k w.pool
  pub bounded : (k : Text) → have k w.pool + pending k w.pool ≤ limit
  pub default_bounded : w.pool.default_target ≤ limit

-- The inputs but for a shutdown, with targets up to the limit.
abbrev pub IsModest : ℕ → List Input → Type 0
IsModest limit [] = Unit {0}
IsModest limit (opens_project req none ∷ is) = IsModest limit is
IsModest limit (opens_project req (some t) ∷ is) = (t ≤ limit) × IsModest limit is
IsModest limit (job_ends i ∷ is) = IsModest limit is
IsModest limit (timer_fires i ∷ is) = IsModest limit is
IsModest limit (shuts_down ∷ is) = ⊥
IsModest limit (wants_workspace c ∷ is) = IsModest limit is
IsModest limit (ends_session k o ∷ is) = IsModest limit is

jobs_at-erase_idx :
    (k : Text) (jobs : List Job) (i : ℕ) (job : Job)
    → get_elem? jobs i ≡ some job
    → jobs_at k jobs ≡ jobs_at k (erase_idx jobs i) + (if job.key == k then 1 else 0)
jobs_at-erase_idx k [] i job h = cc
jobs_at-erase_idx k (x ∷ jobs) zero job h = ground arith
jobs_at-erase_idx k (x ∷ jobs) (suc i) job h = omega (arith, jobs_at-erase_idx k jobs i job h)

module _ (limit : ℕ) (envs : Map (Factory Environment)) (req : PrewarmRequest) (target : Option ℕ)
    (w : Warm) where
  pub ensure-IsBounded :
      or_else target w.pool.default_target ≤ limit
      → IsBounded limit w
      → IsBounded limit (ensure envs req target w).0
  unfolding ensure
  ensure-IsBounded h v = record {
    counted = λ k. ground (
      arith,
      start_many_lem envs (prewarm_key req.identity) k req (want req target w) w,
      v.counted k,
    );
    bounded = λ k. elim (Outcome-cases (environment_of envs req)) [
      | inl (e, p) ↦ ground (
        arith,
        start_many_lem envs (prewarm_key req.identity) k req (want req target w) w,
        v.bounded k,
        p,
        eq_iff (prewarm_key req.identity) k,
      )
      | inr (m, p) ↦ ground (
        arith,
        start_many_lem envs (prewarm_key req.identity) k req (want req target w) w,
        v.bounded k,
        p,
      )
    ];
    default_bounded = ground (
      arith,
      start_many_lem envs (prewarm_key req.identity) (prewarm_key req.identity) req
          (want req target w) w,
      v.default_bounded,
    );
  }

pub finish_one-IsBounded :
    (limit : ℕ) (job : Job) (w : Warm) (i : ℕ)
    → get_elem? w.jobs i ≡ some job
    → IsBounded limit w
    → IsBounded limit (finish_one job (record w { jobs = erase_idx w.jobs i }))
unfolding finish_one push_ready have job_over set_inflight pending
finish_one-IsBounded limit job w i there v =
    elim (Outcome-cases (provision job.environment job.spec w.substrate).1) [
      | inl (h, e) ↦
          rw (e, finish_one)
            (record {
              counted = λ k. ground (
                arith,
                v.counted k,
                jobs_at-erase_idx k w.jobs i job there,
                pending-job_over job.key k w.pool,
              );
              bounded = λ k. ground (
                arith,
                v.counted k,
                v.bounded k,
                jobs_at-erase_idx k w.jobs i job there,
                pending-job_over job.key k w.pool,
                Map.get-set job.key k (or_else (Map.get job.key w.pool.ready) [] ++ (h ∷ []))
                    w.pool.ready,
                length-append (or_else (Map.get job.key w.pool.ready) []) (h ∷ []),
                eq_iff job.key k,
              );
              default_bounded = v.default_bounded;
            })
      | inr (m, e) ↦
          rw (e, finish_one)
            (record {
              counted = λ k. ground (
                arith,
                v.counted k,
                jobs_at-erase_idx k w.jobs i job there,
                pending-job_over job.key k w.pool,
              );
              bounded = λ k. ground (
                arith,
                v.counted k,
                v.bounded k,
                jobs_at-erase_idx k w.jobs i job there,
                pending-job_over job.key k w.pool,
              );
              default_bounded = v.default_bounded;
            })
    ]
