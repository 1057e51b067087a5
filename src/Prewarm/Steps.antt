-- ===== src/Prewarm/Steps.antt =====
-- What each step of src/kernel/prewarmPool.ts does to the handles: none is lost and none made up.
use modular_agentic_system.Base.{
  ℕ, zero, suc, ◌+◌, ◌≤◌, ◌≡◌, refl, List, [], ◌∷◌, ◌++◌, Option, some, ap, Text, eq_iff, eq_refl,
  ltb, arith, if◌then◌else◌, inl, inr, get_elem?,
}
use modular_agentic_system.Base.Map
use modular_agentic_system.Base.Map.{Map}
use modular_agentic_system.Base.Outcome.{Outcome-cases}
use modular_agentic_system.Base.Totals.{at_option, IsDistinct, total-set, set-IsDistinct}
use modular_agentic_system.Environment.{
  Environment, EnvironmentHandle, Substrate, provision, destroy,
}
use modular_agentic_system.Prewarm.{
  Job, Timer, Warm, splice, flat, start_one, start_many, ensure, finish_one, push_ready, job_over,
  claim, evict, destroy_all, set_inflight,
}
use modular_agentic_system.Prewarm.Identity.{PrewarmIdentity, PrewarmRequest, prewarm_key}
use modular_agentic_system.Prewarm.Counts.{
  one, count, count_ids, tally, ready_at, pool_count, count-append, tally-append, tally-clear_timer,
  tally-clear_entries, count-splice, holds-count, total-put_back, put_back-IsDistinct,
  ready_at-put_back, count-flat, destroyed-destroy_each,
}
use modular_agentic_system.Registry.{Factory, resolve}

-- Each key has one entry, and the timers that are armed are those of the handles that are ready.
pub record IsArmed (w : Warm) : Type 0 where
  pub distinct : IsDistinct w.pool.ready
  pub armed : (k : Text) (n : ℕ) → tally k n w.timers ≡ count n (ready_at k w.pool.ready)

-- The places of the handle `n` in the pool and among the destroyed.
abbrev pub stock : ℕ → Warm → ℕ
stock n w = pool_count n w.pool + count_ids n w.substrate.destroyed

-- Whether the handle `n` was made.
abbrev pub exists : ℕ → Substrate → ℕ
exists n s = if ltb n s.made then 1 else 0

pub record IsUntouched (w w' : Warm) : Type 0 where
  pub ready : w'.pool.ready ≡ w.pool.ready
  pub timers : w'.timers ≡ w.timers
  pub substrate : w'.substrate ≡ w.substrate

start_one-IsUntouched :
    (envs : Map (Factory Environment)) (key : Text) (req : PrewarmRequest) (w : Warm)
    → IsUntouched w (start_one envs key req w)
unfolding start_one
start_one-IsUntouched envs key req w =
    elim (Outcome-cases (resolve req.environment req.environment envs)) [
      | inl (e, p) ↦ ground arith
      | inr (m, p) ↦ ground arith
    ]

start_many-IsUntouched :
    (envs : Map (Factory Environment)) (key : Text) (req : PrewarmRequest) (n : ℕ) (w : Warm)
    → IsUntouched w (start_many envs key req n w)
unfolding start_many
start_many-IsUntouched envs key req zero w = ground arith
start_many-IsUntouched envs key req (suc n) w = ground (
  arith,
  start_many-IsUntouched envs key req n (start_one envs key req w),
  start_one-IsUntouched envs key req w,
)

pub ensure-IsUntouched :
    (envs : Map (Factory Environment)) (req : PrewarmRequest) (target : Option ℕ) (w : Warm)
    → IsUntouched w (ensure envs req target w).0
unfolding ensure
ensure-IsUntouched envs req target w = start_many-IsUntouched envs _ req _ w

pub IsUntouched-IsArmed : (w w' : Warm) → IsUntouched w w' → IsArmed w → IsArmed w'
IsUntouched-IsArmed w w' u a = record {
  distinct = ground (arith, a.distinct);
  armed = λ k n. ground (arith, a.armed k n);
}

pub finish_one-IsArmed : (job : Job) (w : Warm) → IsArmed w → IsArmed (finish_one job w)
unfolding finish_one push_ready job_over set_inflight
finish_one-IsArmed job w a =
    elim (Outcome-cases (provision job.environment job.spec w.substrate).1) [
      | inl (h, e) ↦
          rw (e, finish_one)
            (record {
              distinct = set-IsDistinct job.key _ w.pool.ready a.distinct;
              armed = λ k n. ground (
                arith,
                a.armed k n,
                tally-append k n w.timers (record { key = job.key; handle = h } ∷ []),
                Map.get-set job.key k (ready_at job.key w.pool.ready ++ (h ∷ [])) w.pool.ready,
                count-append n (ready_at k w.pool.ready) (h ∷ []),
                eq_iff job.key k,
              );
            })
      | inr (m, e) ↦ rw (e, finish_one) (record { distinct = a.distinct; armed = a.armed })
    ]

pub finish_one-stock :
    (job : Job) (w : Warm) (n : ℕ)
    → stock n (finish_one job w) + exists n w.substrate
      ≡ stock n w + exists n (finish_one job w).substrate
unfolding finish_one push_ready job_over set_inflight provision
finish_one-stock job w n =
    elim (Outcome-cases (job.environment.provision w.substrate.made job.spec)) [
      | inl (caps, e) ↦
          rw (e, finish_one)
            (ground (
              arith,
              total-set (count n) job.key
                  (ready_at job.key w.pool.ready
                    ++ (record { id = w.substrate.made; capabilities = caps } ∷ []))
                  w.pool.ready,
              count-append n (ready_at job.key w.pool.ready)
                  (record { id = w.substrate.made; capabilities = caps } ∷ []),
            ))
      | inr (m, e) ↦ ground arith
    ]

-- A claim takes one handle out of the pool and destroys none.
pub claim-stock :
    (id : PrewarmIdentity) (w : Warm) (n : ℕ)
    → IsArmed w
    → (stock n (claim id w).0 + at_option (one n) (claim id w).1 ≡ stock n w)
      × ((claim id w).0.substrate ≡ w.substrate)
unfolding claim
claim-stock id w n a = go (ready_at (prewarm_key id) w.pool.ready) refl
  where
    go :
        (l : List EnvironmentHandle)
        → ready_at (prewarm_key id) w.pool.ready ≡ l
        → (stock n (claim id w).0 + at_option (one n) (claim id w).1 ≡ stock n w)
          × ((claim id w).0.substrate ≡ w.substrate)
    go [] e = rw (e, claim) (omega arith, refl)
    go (h ∷ rest) e =
        rw (e, claim)
          (
            omega (
              arith,
              total-put_back n (prewarm_key id) rest w.pool.ready a.distinct,
              ap (count n) e,
            ),
            refl,
          )

pub claim-IsArmed : (id : PrewarmIdentity) (w : Warm) → IsArmed w → IsArmed (claim id w).0
unfolding claim
claim-IsArmed id w a = go (ready_at (prewarm_key id) w.pool.ready) refl
  where
    go :
        (l : List EnvironmentHandle)
        → ready_at (prewarm_key id) w.pool.ready ≡ l
        → IsArmed (claim id w).0
    go [] e = rw (e, claim) a
    go (h ∷ rest) e =
        rw (e, claim)
          (record {
            distinct = put_back-IsDistinct (prewarm_key id) rest w.pool.ready a.distinct;
            armed = λ k n. ground (
              arith,
              a.armed k n,
              tally-clear_timer k (prewarm_key id) n h.id w.timers,
              ready_at-put_back (prewarm_key id) k rest w.pool.ready,
              eq_iff (prewarm_key id) k,
              ap (count n) e,
            );
          })

-- The timer of a handle that is ready moves it from the pool to the destroyed.
pub evict-stock :
    (key : Text) (h : EnvironmentHandle) (w : Warm) (n : ℕ)
    → IsArmed w
    → 1 ≤ tally key h.id w.timers
    → (stock n (evict key h w) ≡ stock n w) × ((evict key h w).substrate.made ≡ w.substrate.made)
unfolding evict destroy
evict-stock key h w n a p = ground (
  arith,
  a.armed key h.id,
  holds-count h.id (ready_at key w.pool.ready),
  total-put_back n key (splice h.id (ready_at key w.pool.ready)) w.pool.ready a.distinct,
  count-splice n h.id (ready_at key w.pool.ready),
)

pub evict-IsArmed :
    (key : Text) (h : EnvironmentHandle) (w : Warm)
    → IsArmed w
    → 1 ≤ tally key h.id w.timers
    → IsArmed (evict key h w)
unfolding evict
evict-IsArmed key h w a p =
    rw (holds-count h.id (ready_at key w.pool.ready) (omega (arith, a.armed key h.id)), evict)
      (record {
        distinct =
            put_back-IsDistinct key (splice h.id (ready_at key w.pool.ready)) w.pool.ready
              a.distinct;
        armed = λ k n. ground (
          arith,
          a.armed k n,
          tally-clear_timer k key n h.id w.timers,
          ready_at-put_back key k (splice h.id (ready_at key w.pool.ready)) w.pool.ready,
          count-splice n h.id (ready_at key w.pool.ready),
          eq_iff key k,
        );
      })

pub destroy_all-stock :
    (w : Warm) (n : ℕ)
    → (stock n (destroy_all w) ≡ stock n w) × ((destroy_all w).substrate.made ≡ w.substrate.made)
unfolding destroy_all
destroy_all-stock w n = ground (
  arith,
  destroyed-destroy_each n (flat (Map.values w.pool.ready)) w.substrate,
  count-flat n w.pool.ready,
)

pub destroy_all-IsArmed : (w : Warm) → IsArmed w → IsArmed (destroy_all w)
unfolding destroy_all Map.get
destroy_all-IsArmed w a = record {
  distinct = tt;
  armed =
      λ k n. omega (arith, a.armed k n, tally-clear_entries k n w.pool.ready w.timers a.distinct);
}

pub tally-get_elem? :
    (ts : List Timer) (i : ℕ) (t : Timer) → get_elem? ts i ≡ some t → 1 ≤ tally t.key t.handle.id ts
tally-get_elem? [] i t h = cc
tally-get_elem? (x ∷ ts) zero t h = ground (arith, eq_refl t.key)
tally-get_elem? (x ∷ ts) (suc i) t h = ground (arith, tally-get_elem? ts i t h)
