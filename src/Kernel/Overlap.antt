-- ===== src/Kernel/Overlap.antt =====
-- Calls of the delegator of src/kernel/index.ts whose streams interleave in their parent's.
use modular_agentic_system.Base.{
  ℕ, suc, ◌+◌, ◌-◌, ◌*◌, ◌≤◌, ◌≡◌, refl, sym, ap, ◌∙◌, Bool, true, false, List, [], ◌∷◌, Option,
  none, some, Text, ◌==◌, eq_iff, ltb, nat_eq, length, arith, if◌then◌else◌, Option-cases,
  Bool-cases, inl, inr,
}
use modular_agentic_system.Events.{EngineEvent, child_started, child_settled}
use modular_agentic_system.Harness.{DelegateRequest}
use modular_agentic_system.Kernel.{Kernel, max_delegation_depth}
use modular_agentic_system.Kernel.Brackets.{read}
use modular_agentic_system.Kernel.Delegation.{delegate}
use modular_agentic_system.Kernel.Nesting.{IsQuietRegistry, delegate-IsNested}
use modular_agentic_system.Orchestrator.{Registries}

-- The number of open sub-runs that `which` picks, after an event: one may start while fewer than `limit`
-- are open, and one may settle while one is open. `none` means that the event breaks this.
unfoldable pub count_event : ℕ → (Text → Bool) → EngineEvent → ℕ → Option ℕ
count_event limit which (child_started id) n =
    if which id then if ltb n limit then some (suc n) else none else some n
count_event limit which (child_settled id cause) n =
    if which id then if nat_eq n 0 then none else some (n - 1) else some n
count_event limit which _ n = some n

unfoldable pub count_all : ℕ → (Text → Bool) → List EngineEvent → ℕ → Option ℕ
unfolding count_event
count_all limit which [] n = some n
count_all limit which (ev ∷ evs) n = elim (count_event limit which ev n) [
  | none ↦ none
  | some m ↦ count_all limit which evs m
]

-- Two streams interleaved as a schedule says; every interleaving has a schedule.
unfoldable pub merge : List Bool → List EngineEvent → List EngineEvent → List EngineEvent
merge c [] ys = ys
merge [] (x ∷ xs) ys = x ∷ merge [] xs ys
merge (true ∷ c) (x ∷ xs) ys = x ∷ merge c xs ys
merge (false ∷ c) (x ∷ xs) [] = x ∷ xs
merge (false ∷ c) (x ∷ xs) (y ∷ ys) = y ∷ merge c (x ∷ xs) ys

-- A call of the delegator: where its events come among those of the later calls, and the state of the
-- kernel that it finds.
pub record Call : Type 0 where
  pub schedule : List Bool
  pub parent : Text
  pub request : DelegateRequest
  pub kernel : Kernel

module _ (uuid : ℕ → Text) (regs : Registries) (owner_id : Option Text) where
  abbrev pub stream_of : Call → List EngineEvent
  stream_of call =
      (delegate uuid regs max_delegation_depth owner_id call.parent call.request
        call.kernel).progress

  unfoldable pub overlap : List Call → List EngineEvent
  unfolding merge
  overlap [] = []
  overlap (call ∷ calls) = merge call.schedule (stream_of call) (overlap calls)

module _ (which : Text → Bool) where
  count_event-room :
      (l k q : ℕ) (ev : EngineEvent) (n m : ℕ)
      → q ≤ k
      → n ≤ l
      → count_event l which ev n ≡ some m
      → (count_event (l + k) which ev (n + q) ≡ some (m + q)) × (m ≤ l)
  unfolding count_event
  count_event-room l k q (child_started id) n m r s e = ground arith
  count_event-room l k q (child_settled id c) n m r s e = ground arith
  count_event-room l k q _ n m r s e = ground arith

  first_counted :
      (l : ℕ) (ev : EngineEvent) (evs : List EngineEvent) (n m : ℕ)
      → count_all l which (ev ∷ evs) n ≡ some m
      → (n' : ℕ) × (count_event l which ev n ≡ some n') × (count_all l which evs n' ≡ some m)
  unfolding count_all
  first_counted l ev evs n m e = elim (Option-cases (count_event l which ev n)) [
    | inl f ↦ absurd (ground arith)
    | inr (n', f) ↦ (n', f, sym (rw (f, count_all) refl) ∙ e)
  ]

  then_counted :
      (l : ℕ) (ev : EngineEvent) (evs : List EngineEvent) (n n' m : ℕ)
      → count_event l which ev n ≡ some n'
      → count_all l which evs n' ≡ some m
      → count_all l which (ev ∷ evs) n ≡ some m
  unfolding count_all
  then_counted l ev evs n n' m f e = rw (f, count_all) e

  -- Room that other streams use does not disturb.
  count_all-room :
      (l k q : ℕ) (evs : List EngineEvent) (n m : ℕ)
      → q ≤ k
      → n ≤ l
      → count_all l which evs n ≡ some m
      → count_all (l + k) which evs (n + q) ≡ some (m + q)
  count_all-room l k q [] n m r s e = unfold count_all in ground arith
  count_all-room l k q (ev ∷ evs) n m r s e =
      let (n', f, rest) = first_counted l ev evs n m e in
      let (g, s') = count_event-room l k q ev n n' r s f in
      then_counted (l + k) ev evs (n + q) (n' + q) (m + q) g
        (count_all-room l k q evs n' m r s' rest)

  swapped :
      (l k n p m : ℕ) (evs : List EngineEvent)
      → count_all (k + l) which evs (p + n) ≡ some m
      → count_all (l + k) which evs (n + p) ≡ some m
  swapped l k n p m evs e =
      let a : l + k ≡ k + l = omega arith in
      let b : n + p ≡ p + n = omega arith in
      ap (λ w. count_all w which evs (n + p)) a ∙ ap (λ w. count_all (k + l) which evs w) b ∙ e

  -- Streams that keep to their own limits keep, interleaved, to the sum of the limits.
  count_all-merge :
      (l k : ℕ) (c : List Bool) (xs ys : List EngineEvent) (n m p q : ℕ)
      → n ≤ l
      → p ≤ k
      → count_all l which xs n ≡ some m
      → count_all k which ys p ≡ some q
      → count_all (l + k) which (merge c xs ys) (n + p) ≡ some (m + q)
  unfolding merge
  count_all-merge l k c [] ys n m p q r s e f =
      let same : n ≡ m = unfold count_all in ground arith in
      let total : q + n ≡ m + q = omega (arith, same) in
      swapped l k n p (m + q) ys (count_all-room k l n ys p q r s f ∙ ap some total)
  count_all-merge l k [] (x ∷ xs) ys n m p q r s e f =
      let (n', g, rest) = first_counted l x xs n m e in
      let (g', r') = count_event-room l k p x n n' s r g in
      then_counted (l + k) x (merge [] xs ys) (n + p) (n' + p) (m + q) g'
        (count_all-merge l k [] xs ys n' m p q r' s rest f)
  count_all-merge l k (true ∷ c) (x ∷ xs) ys n m p q r s e f =
      let (n', g, rest) = first_counted l x xs n m e in
      let (g', r') = count_event-room l k p x n n' s r g in
      then_counted (l + k) x (merge c xs ys) (n + p) (n' + p) (m + q) g'
        (count_all-merge l k c xs ys n' m p q r' s rest f)
  count_all-merge l k (false ∷ c) (x ∷ xs) [] n m p q r s e f =
      let same : p ≡ q = unfold count_all in ground arith in
      count_all-room l k p (x ∷ xs) n m s r e ∙ ap (λ w. some (m + w)) same
  count_all-merge l k (false ∷ c) (x ∷ xs) (y ∷ ys) n m p q r s e f =
      let (p', g, rest) = first_counted k y ys p q f in
      let (g', s') = count_event-room k l n y p p' r s g in
      swapped l k n p (m + q) (y ∷ merge c (x ∷ xs) ys) (
        then_counted (k + l) y (merge c (x ∷ xs) ys) (p + n) (p' + n) (m + q) g' (
          swapped k l p' n (m + q) (merge c (x ∷ xs) ys)
            (count_all-merge l k c (x ∷ xs) ys n m p' q r s' e rest)))

  count : List Text → ℕ
  count [] = 0
  count (id ∷ ids) = if which id then suc (count ids) else count ids

  count_length : (ids : List Text) → count ids ≤ length ids
  unfolding count
  count_length [] = omega arith
  count_length (id ∷ ids) = ground (arith, count_length ids)

  -- A nested stream keeps to its limit.
  read-count_all :
      (limit : ℕ) (evs : List EngineEvent) (s t : List Text)
      → length s ≤ limit
      → read limit evs s ≡ some t
      → count_all limit which evs (count s) ≡ some (count t)
  unfolding read count count_all count_event
  read-count_all limit [] s t r e = ground arith
  read-count_all limit (child_started id ∷ evs) s t r e = elim (Bool-cases (ltb (length s) limit)) [
    | inr f ↦ absurd (ground arith)
    | inl f ↦ ground (
      arith,
      f,
      count_length s,
      read-count_all limit evs (id ∷ s) t (ground arith) (sym (rw (f, read) refl) ∙ e),
    )
  ]
  read-count_all limit (child_settled id c ∷ evs) [] t r e = absurd (ground arith)
  read-count_all limit (child_settled id c ∷ evs) (top ∷ s) t r e = elim (Bool-cases (top == id)) [
    | inr f ↦ absurd (ground arith)
    | inl f ↦ ground (
      arith,
      ap which ((eq_iff top id).0 f),
      read-count_all limit evs s t (omega (arith, r)) (sym (rw (f, read) refl) ∙ e),
    )
  ]
  read-count_all limit (_ ∷ evs) s t r e = read-count_all limit evs s t r e

-- Calls of the delegator at depth 0 of a run that overlap: each finds the kernel in any state, and their
-- streams are interleaved in any way (within one call, a sub-run waits for its own delegations), when no
-- harness of the registry emits events of sub-runs itself. Of any choice of sub-runs (`which`; those of one
-- id, or all), each settles after a start that has not settled yet, none is left unsettled, and at most
-- `max_delegation_depth` for each call are open at the same time.
pub overlapping_delegations_settle :
    (uuid : ℕ → Text) (regs : Registries) (owner_id : Option Text) (which : Text → Bool)
    (calls : List Call)
    → IsQuietRegistry regs
    → count_all (length calls * max_delegation_depth) which (overlap uuid regs owner_id calls) 0
      ≡ some 0
unfolding overlap
overlapping_delegations_settle uuid regs owner_id which [] quiet = unfold count_all in refl
overlapping_delegations_settle uuid regs owner_id which (call ∷ calls) quiet =
    let nested =
      delegate-IsNested uuid regs max_delegation_depth max_delegation_depth owner_id quiet []
        call.parent call.request call.kernel (ground arith) in
    let room = length calls * max_delegation_depth in
    let more : length (call ∷ calls) * max_delegation_depth ≡ max_delegation_depth + room =
      omega arith in
    let one : count_all max_delegation_depth which (stream_of uuid regs owner_id call) 0 ≡ some 0 =
      unfold count in
      read-count_all which max_delegation_depth (stream_of uuid regs owner_id call) [] []
        (ground arith) nested in
    let rest = overlapping_delegations_settle uuid regs owner_id which calls quiet in
    ap (λ l. count_all l which (overlap uuid regs owner_id (call ∷ calls)) 0) more
    ∙ count_all-merge which max_delegation_depth room call.schedule
        (stream_of uuid regs owner_id call) (overlap uuid regs owner_id calls) 0 0 0 0
        (ground arith) (ground arith) one rest
