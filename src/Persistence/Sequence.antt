-- ===== src/Persistence/Sequence.antt =====
-- The numbers that src/server/db/runStore.ts gives to the events of runs.
use modular_agentic_system.Base.{
  ℕ, zero, suc, ◌+◌, ◌≡◌, refl, List, [], ◌∷◌, Text, or_else, ◌==◌, eq_iff, arith, if◌then◌else◌,
  Bool-cases, inl, inr,
}
use modular_agentic_system.Base.Map
use modular_agentic_system.Base.Map.{Map, get-set}
use modular_agentic_system.Events.{EngineEvent}
use modular_agentic_system.Persistence.{EventRow, append_run_event, next_seq}

-- Appends of several runs, as they come, and the rows they write.
unfoldable pub append_all : List (Text × EngineEvent) → Map ℕ → List EventRow
append_all [] counters = []
append_all ((run_id, ev) ∷ calls) counters =
    let (counters', row) = append_run_event run_id ev counters in row ∷ append_all calls counters'

unfoldable pub seqs_of : Text → List EventRow → List ℕ
seqs_of run_id [] = []
seqs_of run_id (row ∷ rows) =
    let rest = seqs_of run_id rows in if row.run_id == run_id then row.seq ∷ rest else rest

unfoldable pub calls_of : Text → List (Text × EngineEvent) → ℕ
calls_of run_id [] = 0
calls_of run_id ((j, ev) ∷ calls) =
    let rest = calls_of run_id calls in if j == run_id then suc rest else rest

-- `n` numbers from `first` on.
unfoldable pub count_from : (first n : ℕ) → List ℕ
count_from first zero = []
count_from first (suc n) = first ∷ count_from (first + 1) n

-- However the events of runs are interleaved, the rows of a run are numbered on from its counter, one by
-- one, with no gap and no number twice; from 1 for a run that has no counter yet.
pub seqs_of-append_all :
    (run_id : Text) (calls : List (Text × EngineEvent)) (counters : Map ℕ)
    → seqs_of run_id (append_all calls counters)
      ≡ count_from (or_else (Map.get run_id counters) 0 + 1) (calls_of run_id calls)
unfolding seqs_of append_all calls_of count_from append_run_event next_seq
seqs_of-append_all run_id [] counters = refl
seqs_of-append_all run_id ((j, ev) ∷ calls) counters =
    let n = or_else (Map.get j counters) 0 + 1 in
    let rest = seqs_of-append_all run_id calls (Map.set j n counters) in
    let g = get-set j run_id n counters in
    elim (Bool-cases (j == run_id)) [
      | inl e ↦ let p : j ≡ run_id = (eq_iff j run_id).0 e in ground (arith, rest, g, p)
      | inr e ↦ ground (arith, rest, g)
    ]
