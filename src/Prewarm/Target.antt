-- ===== src/Prewarm/Target.antt =====
-- The bookkeeping of src/kernel/prewarmPool.ts: how far `ensure` fills a key.
use modular_agentic_system.Base.{
  ℕ, zero, suc, ◌+◌, ◌-◌, ◌≡◌, refl, max, List, [], ◌∷◌, ◌++◌, Option, Text, codes, ◌==◌, eq_iff,
  eq_refl, or_else, arith, if◌then◌else◌, inl, inr,
}
use modular_agentic_system.Base.Map
use modular_agentic_system.Base.Map.{Map}
use modular_agentic_system.Base.Outcome.{Outcome, ok, throws, Outcome-cases}
use modular_agentic_system.Environment.{Environment}
use modular_agentic_system.Prewarm.{
  PrewarmPool, Job, Warm, warm_spec, have, pending, set_inflight, job_over, start_one, start_many,
  ensure,
}
use modular_agentic_system.Prewarm.Identity.{PrewarmRequest, prewarm_key}
use modular_agentic_system.Registry.{Factory, resolve}

pub pending-set_inflight :
    (k j : Text) (n : ℕ) (p : PrewarmPool)
    → pending j (set_inflight k n p) ≡ (if k == j then n else pending j p)
unfolding pending set_inflight
pending-set_inflight k j n p = ground (arith, Map.get-set k j n p.inflight)

pub pending-job_over :
    (k j : Text) (p : PrewarmPool)
    → pending j (job_over k p) ≡ (if k == j then pending j p - 1 else pending j p)
unfolding pending job_over set_inflight
pending-job_over k j p =
    ground (arith, Map.get-set k j (or_else (Map.get k p.inflight) 1 - 1) p.inflight, eq_iff k j)

abbrev pub jobs_at : Text → List Job → ℕ
jobs_at k [] = 0
jobs_at k (job ∷ jobs) = (if job.key == k then 1 else 0) + jobs_at k jobs

pub jobs_at-append :
    (k : Text) (xs ys : List Job) → jobs_at k (xs ++ ys) ≡ jobs_at k xs + jobs_at k ys
jobs_at-append k [] ys = omega arith
jobs_at-append k (x ∷ xs) ys = omega (arith, jobs_at-append k xs ys)

-- What `n` starts under the key `k` add to the key `j`.
abbrev pub gained : Outcome Environment → Text → Text → ℕ → ℕ
gained (ok e) k j n = if k == j then n else 0
gained (throws m) k j n = 0

abbrev pub environment_of : Map (Factory Environment) → PrewarmRequest → Outcome Environment
environment_of envs req = resolve (codes "environment") req.environment envs

module _ (envs : Map (Factory Environment)) (k j : Text) (req : PrewarmRequest) where
  start_one_lem :
      (w : Warm)
      → (pending j (start_one envs k req w).pool
          ≡ pending j w.pool + gained (environment_of envs req) k j 1)
        × (have j (start_one envs k req w).pool ≡ have j w.pool)
        × (jobs_at j (start_one envs k req w).jobs
            ≡ jobs_at j w.jobs + gained (environment_of envs req) k j 1)
        × ((start_one envs k req w).pool.default_target ≡ w.pool.default_target)
  unfolding start_one have
  start_one_lem w = elim (Outcome-cases (environment_of envs req)) [
    | inl (e, p) ↦
        rw (p, start_one)
          (
            ground (arith, pending-set_inflight k j (pending k w.pool + 1) w.pool, eq_iff k j),
            refl,
            ground (
              arith,
              jobs_at-append j w.jobs
                  (record { key = k; environment = e; spec = warm_spec req } ∷ []),
            ),
            refl,
          )
    | inr (m, p) ↦
        rw (p, start_one)
          (
            ground (
              arith,
              pending-set_inflight k j (pending k w.pool + 1) w.pool,
              pending-job_over k j (set_inflight k (pending k w.pool + 1) w.pool),
              eq_iff k j,
            ),
            refl,
            omega arith,
            refl,
          )
  ]

  pub start_many_lem :
      (n : ℕ) (w : Warm)
      → (pending j (start_many envs k req n w).pool
          ≡ pending j w.pool + gained (environment_of envs req) k j n)
        × (have j (start_many envs k req n w).pool ≡ have j w.pool)
        × (jobs_at j (start_many envs k req n w).jobs
            ≡ jobs_at j w.jobs + gained (environment_of envs req) k j n)
        × ((start_many envs k req n w).pool.default_target ≡ w.pool.default_target)
  unfolding start_many
  start_many_lem zero w = ground arith
  start_many_lem (suc n) w =
      ground (arith, start_many_lem n (start_one envs k req w), start_one_lem w)

abbrev pub want : PrewarmRequest → Option ℕ → Warm → ℕ
want req target w =
    or_else target w.pool.default_target
    - have (prewarm_key req.identity) w.pool
    - pending (prewarm_key req.identity) w.pool

-- For an environment that the registry knows: after `ensure`, the key has as many handles, ready or
-- on their way, as before or as the target says, whichever is more; the handles that are ready stay
-- as they are, and the status returned is the true one.
pub ensure_fills :
    (envs : Map (Factory Environment)) (req : PrewarmRequest) (target : Option ℕ) (w : Warm)
    (e : Environment)
    → resolve (codes "environment") req.environment envs ≡ ok e
    → let k = prewarm_key req.identity in
      let (w', status) = ensure envs req target w in
      (have k w'.pool + pending k w'.pool
        ≡ max (have k w.pool + pending k w.pool) (or_else target w.pool.default_target))
      × (have k w'.pool ≡ have k w.pool)
      × (status.ready ≡ have k w'.pool)
      × (status.provisioning ≡ pending k w'.pool)
unfolding ensure
ensure_fills envs req target w e p = ground (
  arith,
  start_many_lem envs (prewarm_key req.identity) (prewarm_key req.identity) req (want req target w)
      w,
  eq_refl (prewarm_key req.identity),
)
