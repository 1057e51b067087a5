-- ===== src/Session/Loop.antt =====
-- The inputs that reach src/kernel/session.ts and src/kernel/prewarmPool.ts, one at a time: calls of
-- the kernel, and what the event loop delivers (the end of a background provision, a timer).
use modular_agentic_system.Base.{ℕ, List, [], ◌∷◌, Option, none, some, Text, get_elem?, erase_idx}
use modular_agentic_system.Base.Map.{Map}
use modular_agentic_system.Environment.{Environment}
use modular_agentic_system.Prewarm.{Job, Timer, Warm, ensure, finish_one, evict, destroy_all}
use modular_agentic_system.Prewarm.Identity.{PrewarmRequest}
use modular_agentic_system.Registry.{Factory}
use modular_agentic_system.Session.{SessionConfig, Sessions, ensure_workspace, finish}

pub data Input : Type 0 where
  opens_project : PrewarmRequest → Option ℕ → Input
  job_ends : ℕ → Input
  timer_fires : ℕ → Input
  shuts_down : Input
  wants_workspace : SessionConfig → Input
  ends_session : Text → Option Text → Input

unfoldable pub end_job : Option Job → ℕ → Warm → Warm
end_job none i w = w
end_job (some job) i w = finish_one job (record w { jobs = erase_idx w.jobs i })

unfoldable pub fire : Option Timer → Warm → Warm
fire none w = w
fire (some t) w = evict t.key t.handle w

unfoldable pub step : Map (Factory Environment) → Input → Sessions → Sessions
unfolding end_job fire
step envs (opens_project req target) s = record s { warm = (ensure envs req target s.warm).0 }
step envs (job_ends i) s = record s { warm = end_job (get_elem? s.warm.jobs i) i s.warm }
step envs (timer_fires i) s = record s { warm = fire (get_elem? s.warm.timers i) s.warm }
step envs shuts_down s = record s { warm = destroy_all s.warm }
step envs (wants_workspace c) s = (ensure_workspace envs c s).0
step envs (ends_session session_id owner_id) s = (finish session_id owner_id s).0

unfoldable pub run : Map (Factory Environment) → List Input → Sessions → Sessions
run envs [] s = s
run envs (i ∷ is) s = run envs is (step envs i s)

-- Nothing is warm and no session is open.
unfoldable pub start : ℕ → Sessions
start default_target = record {
  sessions = [];
  warm = record {
    pool = record { ready = []; inflight = []; default_target = default_target };
    jobs = [];
    timers = [];
    substrate = record { made = 0; destroyed = [] };
  };
}
