-- ===== src/Server/Kept.antt =====
-- What the file of src/server/runHistory.ts has of a run that ended, however the writes to it go.
use modular_agentic_system.Base.{
  ◌⊎◌, inl, inr, sym, append-nil, append_assoc, ℕ, ◌≡◌, refl, ◌∙◌, true, false, List, [], ◌∷◌, ◌++◌,
  none, some, Text, ◌==◌, eq_refl, any, arith, Bool, Option, if◌then◌else◌, ap, suc,
}
use modular_agentic_system.Events.{EngineEvent}
use modular_agentic_system.Server.RunHistory.{
  PersistedRun, RunRecorder, RunFile, Line, parses, corrupt, Write, written, unwritten, torn,
  unended, line_after, write_line, append_run, parsed, last_line, read_all_runs, finalize,
  insert_run, newest_first, find_run, get_run, observe_all, observe,
}
use modular_agentic_system.Settlement.{RunResult}

abbrev pub has_id : Text → PersistedRun → Bool
has_id id r = r.metadata.run_id == id

find_run-insert :
    (id : Text) (x : PersistedRun) (rs : List PersistedRun)
    → has_id id x ≡ false
    → find_run id (insert_run x rs) ≡ find_run id rs
unfolding find_run insert_run
find_run-insert id x [] h = rw h refl
find_run-insert id x (r ∷ rs) h = ground (arith, find_run-insert id x rs h)

find_run-insert_it :
    (id : Text) (x : PersistedRun) (rs : List PersistedRun)
    → has_id id x ≡ true
    → find_run id rs ≡ none
    → find_run id (insert_run x rs) ≡ some x
unfolding find_run insert_run
find_run-insert_it id x [] h n = rw h refl
find_run-insert_it id x (r ∷ rs) h n = ground (arith, find_run-insert_it id x rs h)

get_run-newest :
    (id : Text) (x : PersistedRun) (file : List PersistedRun)
    → has_id id x ≡ true
    → any (has_id id) file ≡ false
    → find_run id (newest_first (file ++ (x ∷ []))) ≡ some x
unfolding newest_first
get_run-newest id x [] h n = unfold insert_run find_run in rw h refl
get_run-newest id x (r ∷ file) h n =
    find_run-insert id r (newest_first (file ++ (x ∷ []))) (ground arith)
    ∙ get_run-newest id x file h (ground arith)

-- What recording does not change, and the events that it adds.
observe_all_lem :
    (evs : List EngineEvent) (r : RunRecorder)
    → ((observe_all evs r).events ≡ r.events ++ evs) × ((observe_all evs r).run_id ≡ r.run_id)
unfolding observe_all observe
observe_all_lem [] r = (sym (append-nil r.events), refl)
observe_all_lem (ev ∷ evs) r =
    let (e, i) = observe_all_lem evs (observe ev r) in (e ∙ append_assoc r.events (ev ∷ []) evs, i)

find_run-absent :
    (id : Text) (file : List PersistedRun)
    → any (has_id id) file ≡ false
    → find_run id (newest_first file) ≡ none
unfolding newest_first
find_run-absent id [] n = unfold find_run in refl
find_run-absent id (r ∷ file) n =
    find_run-insert id r (newest_first file) (ground arith) ∙ find_run-absent id file (ground arith)

parsed-append : (xs ys : List Line) → parsed (xs ++ ys) ≡ parsed xs ++ parsed ys
unfolding parsed
parsed-append [] ys = refl
parsed-append (parses r ∷ xs) ys = ap (λ u. r ∷ u) (parsed-append xs ys)
parsed-append (corrupt ∷ xs) ys = parsed-append xs ys

any-append_left :
    (f : PersistedRun → Bool) (xs ys : List PersistedRun)
    → any f (xs ++ ys) ≡ false
    → any f xs ≡ false
any-append_left f [] ys n = refl
any-append_left f (x ∷ xs) ys n = ground (arith, any-append_left f xs ys)

-- Whether a run that is written now can be read: its text is all written, and starts a line.
abbrev pub is_kept : Write → Option Line → Bool
is_kept written none = true
is_kept unended none = true
is_kept _ _ = false

lines_absent :
    (id : Text) (lines : List Line) (tail : Option Line)
    → any (has_id id) (parsed (lines ++ last_line tail)) ≡ false
    → any (has_id id) (parsed lines) ≡ false
lines_absent id lines tail absent =
    any-append_left (has_id id) (parsed lines) (parsed (last_line tail))
      (ap (any (has_id id)) (sym (parsed-append lines (last_line tail))) ∙ absent)

parsed-line :
    (id : Text) (x : PersistedRun) (lines : List Line) (tail : Option Line)
    → has_id id x ≡ true
    → any (has_id id) (parsed lines) ≡ false
    → find_run id (newest_first (parsed (lines ++ (line_after tail x ∷ []))))
      ≡ (if is_kept written tail then some x else none)
unfolding parsed
parsed-line id x lines none it n =
    rw (parsed-append lines (parses x ∷ [])) (get_run-newest id x (parsed lines) it n)
parsed-line id x lines (some before) it n =
    rw (parsed-append lines (corrupt ∷ []), append-nil (parsed lines))
      (find_run-absent id (parsed lines) n)

kept_unended : (tail : Option Line) → is_kept unended tail ≡ is_kept written tail
kept_unended none = refl
kept_unended (some l) = refl

get_run-write :
    (id : Text) (x : PersistedRun) (w : Write) (file : RunFile)
    → has_id id x ≡ true
    → any (has_id id) (parsed (file.lines ++ last_line file.tail)) ≡ false
    → get_run id (write_line w x file) ≡ (if is_kept w file.tail then some x else none)
unfolding get_run read_all_runs write_line
get_run-write id x written file it n =
    rw (append-nil (file.lines ++ (line_after file.tail x ∷ [])))
      (parsed-line id x file.lines file.tail it (lines_absent id file.lines file.tail n))
get_run-write id x unwritten file it n =
    find_run-absent id (parsed (file.lines ++ last_line file.tail)) n
get_run-write id x torn file it n =
    parsed-line id x file.lines (some corrupt) it (lines_absent id file.lines file.tail n)
get_run-write id x unended file it n =
    parsed-line id x file.lines file.tail it (lines_absent id file.lines file.tail n)
    ∙ ap (λ b. if b then some x else none) (sym (kept_unended file.tail))

-- A whole line behind text that no newline ends is lost, and that text with it.
parsed-cut :
    (id : Text) (x y : PersistedRun) (w : Write) (file : RunFile)
    → any (has_id id) (parsed (file.lines ++ last_line file.tail)) ≡ false
    → (w ≡ torn) ⊎ (w ≡ unended)
    → file.fate file.appends ≡ written
    → get_run id (append_run y (write_line w x file)) ≡ none
unfolding get_run read_all_runs append_run write_line parsed
parsed-cut id x y w file n cut next =
    let gone : find_run id (newest_first (parsed (file.lines ++ (corrupt ∷ [])))) ≡ none =
      rw (parsed-append file.lines (corrupt ∷ []), append-nil (parsed file.lines))
        (find_run-absent id (parsed file.lines) (lines_absent id file.lines file.tail n)) in
    elim cut [
      | inl e ↦ rw (e, next, append-nil (file.lines ++ (corrupt ∷ []))) gone
      | inr e ↦ rw (e, next, append-nil (file.lines ++ (corrupt ∷ []))) gone
    ]

-- A run that was recorded and finalized, into a file with no run of its id, is returned with the events that
-- were observed, in their order, however the write goes. It is found again by its id, however the times of
-- the runs compare, exactly if its whole text was written (with or without the newline) and the file ended
-- in a newline before; else no run of its id is found.
pub get_run-finalize :
    (evs : List EngineEvent) (r : RunRecorder) (result : RunResult) (now : ℕ) (file : RunFile)
    → any (has_id r.run_id) (parsed (file.lines ++ last_line file.tail)) ≡ false
    → let (file', run) = finalize result now (observe_all evs r) file in
      (get_run r.run_id file'
        ≡ (if is_kept (file.fate file.appends) file.tail then some run else none))
      × (run.events ≡ r.events ++ evs)
unfolding finalize append_run
get_run-finalize evs r result now file n =
    let (e, i) = observe_all_lem evs r in
    let same : ((observe_all evs r).run_id == r.run_id) ≡ true = rw i (eq_refl r.run_id) in
    (
      get_run-write r.run_id _ (file.fate file.appends) (record file { appends = suc file.appends })
          same n,
      e,
    )

-- When the write of a run is cut short, within its text or before its newline, and the next run is written
-- whole and without an error, then neither of the two is found: also the first, which is found until then
-- if only its newline is missing.
pub finalize_loses_next :
    (r r' : RunRecorder) (result result' : RunResult) (now now' : ℕ) (file : RunFile)
    → any (has_id r.run_id) (parsed (file.lines ++ last_line file.tail)) ≡ false
    → any (has_id r'.run_id) (parsed (file.lines ++ last_line file.tail)) ≡ false
    → (file.fate file.appends ≡ torn) ⊎ (file.fate file.appends ≡ unended)
    → file.fate (suc file.appends) ≡ written
    → let (one, run) = finalize result now r file in
      let (two, run') = finalize result' now' r' one in
      (get_run r.run_id one
        ≡ (if is_kept (file.fate file.appends) file.tail then some run else none))
      × (get_run r.run_id two ≡ none)
      × (get_run r'.run_id two ≡ none)
unfolding finalize append_run
finalize_loses_next r r' result result' now now' file n n' cut next =
    let next_file = record file { appends = suc file.appends } in
    let w = file.fate file.appends in
    (
      get_run-write r.run_id _ w next_file (eq_refl r.run_id) n,
      parsed-cut r.run_id _ _ w next_file n cut next,
      parsed-cut r'.run_id _ _ w next_file n' cut next,
    )
