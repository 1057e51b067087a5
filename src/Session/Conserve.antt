-- ===== src/Session/Conserve.antt =====
-- Every handle of src/kernel/session.ts and src/kernel/prewarmPool.ts is accounted for.
use modular_agentic_system.Base.{
  ℕ, ◌≡◌, refl, List, [], ◌∷◌, Option, none, some, arith, get_elem?, erase_idx,
}
use modular_agentic_system.Base.Map
use modular_agentic_system.Base.Map.{Map}
use modular_agentic_system.Environment.{Environment}
use modular_agentic_system.Prewarm.{Job, Timer}
use modular_agentic_system.Prewarm.Steps.{
  ensure-IsUntouched, IsUntouched-IsArmed, finish_one-IsArmed, finish_one-stock, evict-stock,
  evict-IsArmed, destroy_all-stock, destroy_all-IsArmed, tally-get_elem?,
}
use modular_agentic_system.Registry.{Factory}
use modular_agentic_system.Session.{Sessions}
use modular_agentic_system.Session.Loop.{
  Input, opens_project, job_ends, timer_fires, shuts_down, wants_workspace, ends_session, end_job,
  fire, step, run, start,
}
use modular_agentic_system.Session.Accounted.{
  IsConserved, warm-IsConserved, ensure_workspace-IsConserved, finish-IsConserved,
}

end_job-IsConserved :
    (o : Option Job) (i : ℕ) (s : Sessions)
    → IsConserved s
    → IsConserved (record s { warm = end_job o i s.warm })
unfolding end_job
end_job-IsConserved none i s v = v
end_job-IsConserved (some job) i s v =
    warm-IsConserved s _
      (finish_one-IsArmed job _ (record { distinct = v.armed.distinct; armed = v.armed.armed }))
      (λ n. finish_one-stock job (record s.warm { jobs = erase_idx s.warm.jobs i }) n) v

fire-IsConserved :
    (o : Option Timer) (i : ℕ) (s : Sessions)
    → get_elem? s.warm.timers i ≡ o
    → IsConserved s
    → IsConserved (record s { warm = fire o s.warm })
unfolding fire
fire-IsConserved none i s e v = v
fire-IsConserved (some t) i s e v =
    let p = tally-get_elem? s.warm.timers i t e in
    warm-IsConserved s _ (evict-IsArmed t.key t.handle s.warm v.armed p)
      (λ n. ground (arith, evict-stock t.key t.handle s.warm n v.armed p)) v

step-IsConserved :
    (envs : Map (Factory Environment)) (i : Input) (s : Sessions)
    → IsConserved s
    → IsConserved (step envs i s)
unfolding step
step-IsConserved envs (opens_project req target) s v =
    let u = ensure-IsUntouched envs req target s.warm in
    warm-IsConserved s _ (IsUntouched-IsArmed s.warm _ u v.armed)
      (λ n. ground (arith, u.ready, u.substrate)) v
step-IsConserved envs (job_ends i) s v = end_job-IsConserved (get_elem? s.warm.jobs i) i s v
step-IsConserved envs (timer_fires i) s v = fire-IsConserved (get_elem? s.warm.timers i) i s refl v
step-IsConserved envs shuts_down s v =
    warm-IsConserved s _ (destroy_all-IsArmed s.warm v.armed)
      (λ n. ground (arith, destroy_all-stock s.warm n)) v
step-IsConserved envs (wants_workspace c) s v = ensure_workspace-IsConserved envs c s v
step-IsConserved envs (ends_session k o) s v = finish-IsConserved k o s v

start-IsConserved : (t : ℕ) → IsConserved (start t)
unfolding start
start-IsConserved t = record {
  armed = record { distinct = tt; armed = λ k n. unfold Map.get in refl };
  distinct = tt;
  placed = λ n. ground arith;
}

run-IsConserved :
    (envs : Map (Factory Environment)) (is : List Input) (s : Sessions)
    → IsConserved s
    → IsConserved (run envs is s)
unfolding run
run-IsConserved envs [] s v = v
run-IsConserved envs (i ∷ is) s v =
    run-IsConserved envs is (step envs i s) (step-IsConserved envs i s v)

-- Conservation of sandboxes. For all adapters, and for every sequence of inputs from a fresh start
-- (project openings, ends of background provisions, timers, shutdowns, workspace requests and
-- session ends, in any order): each handle that was ever made is in exactly one place, the warm pool,
-- one session or the destroyed, and exactly once; and the armed timers are exactly those of the
-- handles in the pool. So no sandbox is lost, shared by two sessions, in use and in the pool, in use
-- after its destruction, or destroyed twice.
pub run_conserves :
    (envs : Map (Factory Environment)) (target : ℕ) (is : List Input)
    → IsConserved (run envs is (start target))
run_conserves envs target is = run-IsConserved envs is (start target) (start-IsConserved target)
