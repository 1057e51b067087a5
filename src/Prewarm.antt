-- ===== src/Prewarm.antt =====
-- src/kernel/prewarmPool.ts: warm handles, kept ready for a project before its first session.
-- `provisionOne` runs in the background: it is a job from its first `await` to its end, and the
-- event loop ends jobs and fires timers in any order.
pub mod Identity
pub mod Key
pub mod Counts
pub mod Steps
pub mod Target
use modular_agentic_system.Base.{
  ℕ, zero, suc, ◌+◌, ◌-◌, Bool, true, false, List, [], ◌∷◌, ◌++◌, Option, none, some, Text, codes,
  ◌==◌, join, truthy, contains, or_else, nat_eq, length, if◌then◌else◌, ◌&&◌,
}
use modular_agentic_system.Base.Decimal.{decimal}
use modular_agentic_system.Base.Map
use modular_agentic_system.Base.Map.{Map}
use modular_agentic_system.Base.Outcome.{Outcome, ok, throws}
use modular_agentic_system.Environment.{
  ProvisionSource, git, files, cache, ProvisionSpec, EnvironmentHandle, Environment, Substrate,
  provision, destroy, destroy_each,
}
use modular_agentic_system.Registry.{Factory, resolve}
use modular_agentic_system.Prewarm.Identity.{
  PrewarmIdentity, PrewarmRequest, PrewarmStatus, source_fingerprint, prewarm_key,
}

-- The identity and the rest of a request are one record; a claim uses the identity alone.
pub record PrewarmPool : Type 0 where
  pub ready : Map (List EnvironmentHandle)
  pub inflight : Map ℕ
  pub default_target : ℕ

-- A background provision between its start and its end.
pub record Job : Type 0 where
  pub key : Text
  pub environment : Environment
  pub spec : ProvisionSpec

-- The timer of a warm handle, to evict it from under its key.
pub record Timer : Type 0 where
  pub key : Text
  pub handle : EnvironmentHandle

-- The pool with what the event loop keeps for it.
pub record Warm : Type 0 where
  pub pool : PrewarmPool
  pub jobs : List Job
  pub timers : List Timer
  pub substrate : Substrate

-- `this.ready.get(key)?.length ?? 0` and `this.inflight.get(key) ?? 0`
unfoldable pub have : Text → PrewarmPool → ℕ
have key p = length (or_else (Map.get key p.ready) [])

unfoldable pub pending : Text → PrewarmPool → ℕ
pending key p = or_else (Map.get key p.inflight) 0

unfoldable pub set_inflight : Text → ℕ → PrewarmPool → PrewarmPool
set_inflight key n p = record p { inflight = Map.set key n p.inflight }

-- The `finally` of `provisionOne`.
unfoldable pub job_over : Text → PrewarmPool → PrewarmPool
unfolding set_inflight
job_over key p = set_inflight key (or_else (Map.get key p.inflight) 1 - 1) p

abbrev pub prewarm_labels : Option Text → List (Text × Text)
prewarm_labels project_id =
    if truthy project_id
    then (codes "prewarm", codes "true") ∷ (codes "projectId", or_else project_id []) ∷ []
    else (codes "prewarm", codes "true") ∷ []

unfoldable pub warm_spec : PrewarmRequest → ProvisionSpec
warm_spec req = record {
  source = or_else req.source (files []);
  runtime_profile = req.runtime_profile;
  env = req.env;
  ports = req.ports;
  labels = prewarm_labels req.project_id;
}

-- `provisionOne` up to its first `await`. An unknown environment ends it at once.
unfoldable pub start_one : Map (Factory Environment) → Text → PrewarmRequest → Warm → Warm
unfolding pending set_inflight job_over
start_one envs key req w =
    let counted = set_inflight key (pending key w.pool + 1) w.pool in
    elim (resolve (codes "environment") req.environment envs) [
      | throws m ↦ record w { pool = job_over key counted }
      | ok e ↦ record w {
        pool = counted;
        jobs = w.jobs ++ (record { key = key; environment = e; spec = warm_spec req } ∷ []);
      }
    ]

unfoldable pub start_many : Map (Factory Environment) → Text → PrewarmRequest → ℕ → Warm → Warm
start_many envs key req zero w = w
start_many envs key req (suc n) w = start_many envs key req n (start_one envs key req w)

unfoldable pub ensure :
    Map (Factory Environment) → PrewarmRequest → Option ℕ → Warm → Warm × PrewarmStatus
unfolding have pending
ensure envs req target w =
    let key = prewarm_key req.identity in
    let goal = or_else target w.pool.default_target in
    let want = goal - have key w.pool - pending key w.pool in
    (
      start_many envs key req want w,
      record {
        key = key;
        ready = have key w.pool;
        provisioning = pending key w.pool + want;
        target = goal;
      },
    )

unfoldable pub push_ready : Text → EnvironmentHandle → PrewarmPool → PrewarmPool
push_ready key h p = record p {
  ready = Map.set key (or_else (Map.get key p.ready) [] ++ (h ∷ [])) p.ready;
}

-- The end of a job: the handle is kept with its timer armed, or the slot stays empty.
unfoldable pub finish_one : Job → Warm → Warm
unfolding push_ready job_over
finish_one job w =
    let (substrate, outcome) = provision job.environment job.spec w.substrate in
    elim outcome [
      | ok h ↦ record w {
        pool = job_over job.key (push_ready job.key h w.pool);
        timers = w.timers ++ (record { key = job.key; handle = h } ∷ []);
        substrate = substrate;
      }
      | throws m ↦ record w { pool = job_over job.key w.pool; substrate = substrate }
    ]

-- The entry is kept for a key as long as it has a handle.
abbrev pub put_back :
    Text → List EnvironmentHandle → Map (List EnvironmentHandle) → Map (List EnvironmentHandle)
put_back key [] m = Map.delete key m
put_back key (h ∷ hs) m = Map.set key (h ∷ hs) m

-- `clearTimeout` of the timer of an entry: the one for this handle under this key.
unfoldable pub clear_timer : Text → ℕ → List Timer → List Timer
clear_timer key n [] = []
clear_timer key n (t ∷ ts) =
    if t.key == key && nat_eq t.handle.id n then ts else t ∷ clear_timer key n ts

unfoldable pub claim : PrewarmIdentity → Warm → Warm × Option EnvironmentHandle
unfolding clear_timer
claim id w =
    let key = prewarm_key id in
    elim (or_else (Map.get key w.pool.ready) []) [
      | [] ↦ (w, none)
      | h ∷ rest ↦ (
        record w {
          pool = record w.pool { ready = put_back key rest w.pool.ready };
          timers = clear_timer key h.id w.timers;
        },
        some h,
      )
    ]

-- `list.findIndex(...)` and `list.splice(idx, 1)`
unfoldable pub splice : ℕ → List EnvironmentHandle → List EnvironmentHandle
splice n [] = []
splice n (h ∷ hs) = if nat_eq h.id n then hs else h ∷ splice n hs

unfoldable pub holds : ℕ → List EnvironmentHandle → Bool
holds n [] = false
holds n (h ∷ hs) = if nat_eq h.id n then true else holds n hs

-- A timer that fires: the handle leaves the pool, if it is there, and is destroyed.
unfoldable pub evict : Text → EnvironmentHandle → Warm → Warm
unfolding clear_timer splice holds
evict key h w =
    let list = or_else (Map.get key w.pool.ready) [] in
    record w {
      pool =
          if holds h.id list
          then record w.pool { ready = put_back key (splice h.id list) w.pool.ready }
          else w.pool;
      timers = clear_timer key h.id w.timers;
      substrate = destroy h w.substrate;
    }

unfoldable pub flat : List (List EnvironmentHandle) → List EnvironmentHandle
flat [] = []
flat (l ∷ ls) = l ++ flat ls

unfoldable pub clear_list : Text → List EnvironmentHandle → List Timer → List Timer
unfolding clear_timer
clear_list key [] ts = ts
clear_list key (h ∷ hs) ts = clear_list key hs (clear_timer key h.id ts)

unfoldable pub clear_entries : Map (List EnvironmentHandle) → List Timer → List Timer
unfolding clear_list
clear_entries [] ts = ts
clear_entries ((key, l) ∷ m) ts = clear_entries m (clear_list key l ts)

unfoldable pub destroy_all : Warm → Warm
unfolding flat clear_entries
destroy_all w =
    let entries = flat (Map.values w.pool.ready) in
    record w {
      pool = record w.pool { ready = []; inflight = [] };
      timers = clear_entries w.pool.ready w.timers;
      substrate = destroy_each entries w.substrate;
    }

-- The keys of both maps, each once.
unfoldable pub union : List Text → List Text → List Text
union [] ys = ys
union (x ∷ xs) ys = if contains x ys then union xs ys else union xs (ys ++ (x ∷ []))

unfoldable pub status_of : PrewarmPool → List Text → List PrewarmStatus
unfolding have pending
status_of p [] = []
status_of p (key ∷ keys) =
    record {
      key = key;
      ready = have key p;
      provisioning = pending key p;
      target = p.default_target;
    }
    ∷ status_of p keys

unfoldable pub stats : PrewarmPool → List PrewarmStatus
unfolding union status_of
stats p = status_of p (union (Map.keys p.inflight) (union (Map.keys p.ready) []))
