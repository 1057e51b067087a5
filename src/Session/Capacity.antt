-- ===== src/Session/Capacity.antt =====
-- How full the warm pool of src/kernel/prewarmPool.ts gets.
use modular_agentic_system.Base.{
  ℕ, ◌≤◌, ◌≡◌, refl, List, [], ◌∷◌, Option, none, some, eq_refl, get_elem?, arith,
}
use modular_agentic_system.Base.Map
use modular_agentic_system.Base.Map.{Map}
use modular_agentic_system.Base.Outcome.{ok}
use modular_agentic_system.Environment.{Environment, provision_ok}
use modular_agentic_system.Topology.{EnvironmentCapabilities}
use modular_agentic_system.Prewarm.{
  Job, Timer, Warm, destroy_all, have, pending, finish_one, push_ready, job_over, set_inflight,
}
use modular_agentic_system.Prewarm.Steps.{destroy_all-stock}
use modular_agentic_system.Registry.{Factory}
use modular_agentic_system.Session.{Sessions}
use modular_agentic_system.Session.Loop.{
  Input, opens_project, job_ends, timer_fires, shuts_down, wants_workspace, ends_session, end_job,
  fire, step, run, start,
}
use modular_agentic_system.Session.Bounded.{
  IsBounded, IsModest, ensure-IsBounded, finish_one-IsBounded,
}
use modular_agentic_system.Session.Thinner.{
  IsThinner-IsBounded, evict-IsThinner, ensure_workspace-IsThinner, finish-IsThinner,
}

end_job-IsBounded :
    (limit : ℕ) (o : Option Job) (i : ℕ) (w : Warm)
    → get_elem? w.jobs i ≡ o
    → IsBounded limit w
    → IsBounded limit (end_job o i w)
unfolding end_job
end_job-IsBounded limit none i w e v = v
end_job-IsBounded limit (some job) i w e v = finish_one-IsBounded limit job w i e v

fire-IsBounded :
    (limit : ℕ) (o : Option Timer) (w : Warm) → IsBounded limit w → IsBounded limit (fire o w)
unfolding fire
fire-IsBounded limit none w v = v
fire-IsBounded limit (some t) w v =
    IsThinner-IsBounded limit w _ (evict-IsThinner t.key t.handle w) v

run-IsBounded :
    (limit : ℕ) (envs : Map (Factory Environment)) (is : List Input) (s : Sessions)
    → IsModest limit is
    → IsBounded limit s.warm
    → IsBounded limit (run envs is s).warm
unfolding run step
run-IsBounded limit envs [] s m v = v
run-IsBounded limit envs (opens_project req none ∷ is) s m v =
    run-IsBounded limit envs is _ m
      (ensure-IsBounded limit envs req none s.warm v.default_bounded v)
run-IsBounded limit envs (opens_project req (some t) ∷ is) s m v =
    run-IsBounded limit envs is _ m.1 (ensure-IsBounded limit envs req (some t) s.warm m.0 v)
run-IsBounded limit envs (job_ends i ∷ is) s m v =
    run-IsBounded limit envs is _ m
      (end_job-IsBounded limit (get_elem? s.warm.jobs i) i s.warm refl v)
run-IsBounded limit envs (timer_fires i ∷ is) s m v =
    run-IsBounded limit envs is _ m (fire-IsBounded limit (get_elem? s.warm.timers i) s.warm v)
run-IsBounded limit envs (shuts_down ∷ is) s m v = absurd m
run-IsBounded limit envs (wants_workspace c ∷ is) s m v =
    run-IsBounded limit envs is _ m
      (IsThinner-IsBounded limit s.warm _ (ensure_workspace-IsThinner envs c s) v)
run-IsBounded limit envs (ends_session k o ∷ is) s m v =
    run-IsBounded limit envs is _ m (IsThinner-IsBounded limit s.warm _ (finish-IsThinner k o s) v)

start-IsBounded : (limit t : ℕ) → t ≤ limit → IsBounded limit (start t).warm
unfolding start have pending Map.get
start-IsBounded limit t h = record {
  counted = λ k. refl;
  bounded = λ k. omega arith;
  default_bounded = h;
}

-- Capacity of the warm pool. For every sequence of inputs from a fresh start that holds no shutdown
-- and whose pool targets, the default among them, are at most `limit`: the number of background
-- provisions is counted right for every key, and no key has more than `limit` handles that are ready
-- or on their way.
pub run_within_capacity :
    (limit target : ℕ) (envs : Map (Factory Environment)) (is : List Input)
    → target ≤ limit
    → IsModest limit is
    → IsBounded limit (run envs is (start target)).warm
run_within_capacity limit target envs is h m =
    run-IsBounded limit envs is (start target) m (start-IsBounded limit target h)

-- A shutdown does not stop the provisions that are in flight: for a pool with a job whose environment
-- goes on to provision a handle, the end of the job after the shutdown leaves a handle ready under the
-- job's key.
pub shutdown_leaves_handle :
    (envs : Map (Factory Environment)) (s : Sessions) (job : Job) (jobs : List Job)
    (caps : EnvironmentCapabilities)
    → s.warm.jobs ≡ job ∷ jobs
    → job.environment.provision s.warm.substrate.made job.spec ≡ ok caps
    → have job.key (run envs (shuts_down ∷ job_ends 0 ∷ []) s).warm.pool ≡ 1
unfolding run step destroy_all finish_one push_ready job_over set_inflight have Map.set Map.get
shutdown_leaves_handle envs s job jobs caps p q = ground (
  arith,
  p,
  eq_refl job.key,
  provision_ok job.environment job.spec (destroy_all s.warm).substrate caps
      (rw ((destroy_all-stock s.warm 0).1) q),
)
