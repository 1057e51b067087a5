-- ===== src/Kernel/Brackets.antt =====
-- Well bracketed streams of the sub-runs of src/kernel/index.ts.
use modular_agentic_system.Base.{
  ℕ, ◌≡◌, refl, sym, ◌∙◌, List, [], ◌∷◌, ◌++◌, Option, none, some, append-nil, append_assoc, Text,
  ◌==◌, length, ltb, arith, if◌then◌else◌,
}
use modular_agentic_system.Events.{EngineEvent, child_started, child_settled}
use modular_agentic_system.Harness.{HarnessRun, returned, threw, emits, delegates, DelegateResult}
use modular_agentic_system.Kernel.Delegation.{child_sink}
use modular_agentic_system.Orchestrator.{PreviewPort, Pump, emit, emit_all}

-- Reading a stream with the stack of the sub-runs that are open: a sub-run may start while fewer than
-- `limit` are open, and only the innermost may settle. `none` means that the nesting is broken.
unfoldable pub read : ℕ → List EngineEvent → List Text → Option (List Text)
read limit [] open_runs = some open_runs
read limit (child_started id ∷ evs) open_runs =
    let rest = read limit evs (id ∷ open_runs) in
    if ltb (length open_runs) limit then rest else none
read limit (child_settled id cause ∷ evs) [] = none
read limit (child_settled id cause ∷ evs) (top ∷ open_runs) =
    let rest = read limit evs open_runs in if top == id then rest else none
read limit (_ ∷ evs) open_runs = read limit evs open_runs

-- An event of a harness's own: it does not tell of sub-runs.
abbrev pub IsOwn : EngineEvent → Type 0
IsOwn (child_started id) = ⊥
IsOwn (child_settled id cause) = ⊥
IsOwn _ = Unit {0}

-- The harness leaves the events that tell of sub-runs to the delegator.
abbrev pub IsQuiet : {R : Type 0} → HarnessRun R → Type 0
IsQuiet (returned aborted) = Unit {0}
IsQuiet (threw message aborted) = Unit {0}
IsQuiet (emits ev rest) = IsOwn ev × IsQuiet rest
IsQuiet (delegates req rest) = (d : DelegateResult) → IsQuiet (rest d)

-- Nothing is left open, and nothing is closed that was open before.
abbrev pub IsNested : ℕ → List EngineEvent → List Text → Type 0
IsNested limit evs open_runs = read limit evs open_runs ≡ some open_runs

pub read-append :
    (limit : ℕ) (xs ys : List EngineEvent) (s t : List Text)
    → read limit xs s ≡ some t
    → read limit (xs ++ ys) s ≡ read limit ys t
unfolding read
read-append limit [] ys s t h = ground arith
read-append limit (child_started id ∷ xs) ys s t h =
    ground (arith, read-append limit xs ys (id ∷ s) t)
read-append limit (child_settled id c ∷ xs) ys [] t h = cc
read-append limit (child_settled id c ∷ xs) ys (x ∷ s) t h =
    ground (arith, read-append limit xs ys s t)
read-append limit (_ ∷ xs) ys s t h = read-append limit xs ys s t h

pub read_own :
    (limit : ℕ) (ev : EngineEvent) (s : List Text) → IsOwn ev → read limit (ev ∷ []) s ≡ some s
unfolding read
read_own limit (child_started id) s h = absurd h
read_own limit (child_settled id c) s h = absurd h
read_own limit _ s h = refl

pub read-child_sink :
    (limit : ℕ) (evs : List EngineEvent) (s : List Text)
    → read limit (child_sink evs) s ≡ read limit evs s
unfolding read
read-child_sink limit [] s = refl
read-child_sink limit (child_started id ∷ evs) s =
    ground (arith, read-child_sink limit evs (id ∷ s))
read-child_sink limit (child_settled id c ∷ evs) [] = refl
read-child_sink limit (child_settled id c ∷ evs) (x ∷ s) =
    ground (arith, read-child_sink limit evs s)
read-child_sink limit (_ ∷ evs) s = read-child_sink limit evs s

pub emit_all-sink :
    {W : Type 0} (port : PreviewPort W) (k : Text) (evs : List EngineEvent) (p : Pump W)
    → (emit_all port k evs p).sink ≡ p.sink ++ evs
unfolding emit_all emit
emit_all-sink port k [] p = sym (append-nil p.sink)
emit_all-sink port k (ev ∷ evs) p =
    emit_all-sink port k evs (emit port k ev p) ∙ append_assoc p.sink (ev ∷ []) evs

pub IsNested-append :
    (limit : ℕ) (s : List Text) (xs ys : List EngineEvent)
    → IsNested limit xs s
    → IsNested limit ys s
    → IsNested limit (xs ++ ys) s
IsNested-append limit s xs ys h g = read-append limit xs ys s s h ∙ g
