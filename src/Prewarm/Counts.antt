-- ===== src/Prewarm/Counts.antt =====
-- How often a handle stands in the pool of src/kernel/prewarmPool.ts, and the steps of the pool.
use modular_agentic_system.Base.{
  ℕ, ◌+◌, ◌-◌, ◌≤◌, ◌≡◌, refl, true, ◌&&◌, List, [], ◌∷◌, ◌++◌, Text, ◌==◌, eq_iff, or_else, nat_eq,
  arith, if◌then◌else◌,
}
use modular_agentic_system.Base.Map
use modular_agentic_system.Base.Map.{Map}
use modular_agentic_system.Base.Totals.{
  total, IsDistinct, total-set, total-delete, set-IsDistinct, delete-IsDistinct,
}
use modular_agentic_system.Environment.{EnvironmentHandle, Substrate, destroy, destroy_each}
use modular_agentic_system.Prewarm.{
  PrewarmPool, Timer, put_back, clear_timer, clear_list, clear_entries, splice, holds, flat,
}

abbrev pub one : ℕ → EnvironmentHandle → ℕ
one n h = if nat_eq h.id n then 1 else 0

abbrev pub count : ℕ → List EnvironmentHandle → ℕ
count n [] = 0
count n (h ∷ hs) = one n h + count n hs

abbrev pub count_ids : ℕ → List ℕ → ℕ
count_ids n [] = 0
count_ids n (m ∷ ms) = (if nat_eq m n then 1 else 0) + count_ids n ms

-- The timers for the handle `n` under the key `k`.
abbrev pub tally : Text → ℕ → List Timer → ℕ
tally k n [] = 0
tally k n (t ∷ ts) = (if t.key == k && nat_eq t.handle.id n then 1 else 0) + tally k n ts

-- The handles that are ready for a key.
abbrev pub ready_at : Text → Map (List EnvironmentHandle) → List EnvironmentHandle
ready_at k m = or_else (Map.get k m) []

abbrev pub pool_count : ℕ → PrewarmPool → ℕ
pool_count n p = total (count n) p.ready

pub count-append :
    (n : ℕ) (xs ys : List EnvironmentHandle) → count n (xs ++ ys) ≡ count n xs + count n ys
count-append n [] ys = omega arith
count-append n (x ∷ xs) ys = omega (arith, count-append n xs ys)

pub tally-append :
    (k : Text) (n : ℕ) (xs ys : List Timer) → tally k n (xs ++ ys) ≡ tally k n xs + tally k n ys
tally-append k n [] ys = omega arith
tally-append k n (x ∷ xs) ys = omega (arith, tally-append k n xs ys)

pub tally-clear_timer :
    (k j : Text) (n i : ℕ) (ts : List Timer)
    → tally k n (clear_timer j i ts)
      ≡ (if j == k && nat_eq i n then tally k n ts - 1 else tally k n ts)
unfolding clear_timer
tally-clear_timer k j n i [] = ground arith
tally-clear_timer k j n i (t ∷ ts) =
    ground (arith, tally-clear_timer k j n i ts, eq_iff t.key j, eq_iff t.key k, eq_iff j k)

pub tally-clear_list :
    (k j : Text) (n : ℕ) (hs : List EnvironmentHandle) (ts : List Timer)
    → tally k n (clear_list j hs ts) ≡ (if j == k then tally k n ts - count n hs else tally k n ts)
unfolding clear_list
tally-clear_list k j n [] ts = ground arith
tally-clear_list k j n (h ∷ hs) ts =
    ground
      (arith, tally-clear_list k j n hs (clear_timer j h.id ts), tally-clear_timer k j n h.id ts)

pub tally-clear_entries :
    (k : Text) (n : ℕ) (m : Map (List EnvironmentHandle)) (ts : List Timer)
    → IsDistinct m
    → tally k n (clear_entries m ts) ≡ tally k n ts - count n (ready_at k m)
unfolding clear_entries Map.get
tally-clear_entries k n [] ts d = omega arith
tally-clear_entries k n ((j, l) ∷ m) ts d = ground (
  arith,
  tally-clear_entries k n m (clear_list j l ts) d.1,
  tally-clear_list k j n l ts,
  eq_iff j k,
)

pub count-splice :
    (n i : ℕ) (hs : List EnvironmentHandle)
    → count n (splice i hs) ≡ (if nat_eq i n then count n hs - 1 else count n hs)
unfolding splice
count-splice n i [] = ground arith
count-splice n i (h ∷ hs) = ground (arith, count-splice n i hs)

pub holds-count : (n : ℕ) (hs : List EnvironmentHandle) → 1 ≤ count n hs → holds n hs ≡ true
unfolding holds
holds-count n [] h = absurd (omega arith)
holds-count n (x ∷ hs) h = ground (arith, holds-count n hs)

pub total-put_back :
    (n : ℕ) (k : Text) (l : List EnvironmentHandle) (m : Map (List EnvironmentHandle))
    → IsDistinct m
    → total (count n) (put_back k l m) + count n (ready_at k m) ≡ total (count n) m + count n l
total-put_back n k [] m d = ground (arith, total-delete (count n) k m d)
total-put_back n k (h ∷ hs) m d = ground (arith, total-set (count n) k (h ∷ hs) m)

pub put_back-IsDistinct :
    (k : Text) (l : List EnvironmentHandle) (m : Map (List EnvironmentHandle))
    → IsDistinct m
    → IsDistinct (put_back k l m)
put_back-IsDistinct k [] m d = delete-IsDistinct k m d
put_back-IsDistinct k (h ∷ hs) m d = set-IsDistinct k (h ∷ hs) m d

pub ready_at-put_back :
    (k j : Text) (l : List EnvironmentHandle) (m : Map (List EnvironmentHandle))
    → ready_at j (put_back k l m) ≡ (if k == j then l else ready_at j m)
ready_at-put_back k j [] m = ground (arith, Map.get-delete k j m)
ready_at-put_back k j (h ∷ hs) m = ground (arith, Map.get-set k j (h ∷ hs) m)

pub count-flat :
    (n : ℕ) (m : Map (List EnvironmentHandle)) → count n (flat (Map.values m)) ≡ total (count n) m
unfolding flat Map.values
count-flat n [] = refl
count-flat n ((k, l) ∷ m) = omega (arith, count-append n l (flat (Map.values m)), count-flat n m)

pub destroyed-destroy_each :
    (n : ℕ) (hs : List EnvironmentHandle) (s : Substrate)
    → (count_ids n (destroy_each hs s).destroyed ≡ count n hs + count_ids n s.destroyed)
      × ((destroy_each hs s).made ≡ s.made)
unfolding destroy_each destroy
destroyed-destroy_each n [] s = (omega arith, refl)
destroyed-destroy_each n (h ∷ hs) s = ground (arith, destroyed-destroy_each n hs (destroy h s))
