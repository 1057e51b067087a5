-- ===== src/Persistence/Landing.antt =====
-- Where a tool result of src/server/db/persistence.ts lands: on the entry that its own call made.
use modular_agentic_system.Base.{
  ℕ, zero, suc, ◌-◌, ◌≡◌, refl, ◌∙◌, Bool, false, List, [], ◌∷◌, ◌++◌, Option, none, some, Text,
  or_else, ◌==◌, eq_refl, nat_eq, arith, Bool-cases, inl, inr, length, get_elem?, Option-cases,
  if_elim, if◌then◌else◌, truthy_text,
}
use modular_agentic_system.Base.Map
use modular_agentic_system.Base.Map.{get-set}
use modular_agentic_system.Events.{
  Json, EngineEvent, stream_chunk, tool_call, tool_result, final_text,
}
use modular_agentic_system.Persistence.{
  state_of, Accumulator, ToolCallAcc, on_event, update_at, started, finish_entry,
}
use modular_agentic_system.Persistence.Content.{on_events}

-- A tool call, if the event is one, has an id, and another one.
abbrev pub IsElsewhere : Text → EngineEvent → Type 0
IsElsewhere id (tool_call name args none) = ⊥
IsElsewhere id (tool_call name args (some call)) = (call == id) ≡ false
IsElsewhere id _ = Unit {0}

abbrev pub AreElsewhere : Text → List (ℕ × EngineEvent) → Type 0
AreElsewhere id [] = Unit {0}
AreElsewhere id ((at, ev) ∷ evs) = IsElsewhere id ev × AreElsewhere id evs

get_elem?-append :
    (i : ℕ) (xs ys : List ToolCallAcc) (x : ToolCallAcc)
    → get_elem? xs i ≡ some x
    → get_elem? (xs ++ ys) i ≡ some x
get_elem?-append i [] ys x h = absurd (ground arith)
get_elem?-append zero (y ∷ xs) ys x h = h
get_elem?-append (suc i) (y ∷ xs) ys x h = get_elem?-append i xs ys x h

get_elem?_end :
    (xs : List ToolCallAcc) (x : ToolCallAcc) → get_elem? (xs ++ (x ∷ [])) (length xs) ≡ some x
get_elem?_end [] x = refl
get_elem?_end (y ∷ xs) x = get_elem?_end xs x

abbrev changed : (ToolCallAcc → ToolCallAcc) → Option ToolCallAcc → Option ToolCallAcc
changed f none = none
changed f (some x) = some (f x)

get_elem?-update_at :
    (i j : ℕ) (f : ToolCallAcc → ToolCallAcc) (xs : List ToolCallAcc)
    → get_elem? (update_at i f xs) j
      ≡ (if nat_eq j i then changed f (get_elem? xs j) else get_elem? xs j)
unfolding update_at
get_elem?-update_at i j f [] = ground arith
get_elem?-update_at i zero f (x ∷ xs) = ground arith
get_elem?-update_at i (suc j) f (x ∷ xs) = ground (arith, get_elem?-update_at (i - 1) j f xs)

-- The call of an id made the entry at a place, which the id leads to.
record HasEntry (id name : Text) (i : ℕ) (a : Accumulator) : Type 0 where
  leads : Map.get id a.tool_by_call ≡ some i
  entry : ToolCallAcc
  there : get_elem? a.tool_calls i ≡ some entry
  same_id : entry.call_id ≡ id
  same_tool : entry.tool ≡ name

call-HasEntry :
    (at : ℕ) (name : Text) (args : Option Json) (id : Text) (a : Accumulator)
    → HasEntry id name (length a.tool_calls) (on_event at (tool_call name args (some id)) a)
unfolding on_event
call-HasEntry at name args id a = record {
  leads = ground (arith, get-set id id (length a.tool_calls) a.tool_by_call, eq_refl id);
  entry = started name args id at;
  there = get_elem?_end a.tool_calls (started name args id at);
  same_id = refl;
  same_tool = refl;
}

on_event-HasEntry :
    (id name : Text) (i at : ℕ) (ev : EngineEvent) (a : Accumulator)
    → IsElsewhere id ev
    → HasEntry id name i a
    → HasEntry id name i (on_event at ev a)
unfolding on_event
on_event-HasEntry id name i at (stream_chunk t) a n h =
    if_elim (HasEntry id name i) (truthy_text t) _ a
      (λ q. record {
        leads = h.leads;
        entry = h.entry;
        there = h.there;
        same_id = h.same_id;
        same_tool = h.same_tool;
      })
      (λ q. h)
on_event-HasEntry id name i at (tool_call tool args none) a n h = absurd n
on_event-HasEntry id name i at (tool_call tool args (some call)) a n h = record {
  leads = ground (arith, h.leads, get-set call id (length a.tool_calls) a.tool_by_call);
  entry = h.entry;
  there = get_elem?-append i a.tool_calls _ h.entry h.there;
  same_id = h.same_id;
  same_tool = h.same_tool;
}
on_event-HasEntry id name i at (tool_result ok output call) a n h =
    elim (Option-cases (Map.get (or_else call []) a.tool_by_call)) [
      | inl e ↦
          rw (e, on_event)
            (record {
              leads = h.leads;
              entry = h.entry;
              there = get_elem?-append i a.tool_calls _ h.entry h.there;
              same_id = h.same_id;
              same_tool = h.same_tool;
            })
      | inr (j, e) ↦
          let put = get_elem?-update_at j i (finish_entry ok output) a.tool_calls in
          elim (Bool-cases (nat_eq i j)) [
            | inl q ↦
                rw (e, on_event)
                  (record {
                    leads = h.leads;
                    entry = finish_entry ok output h.entry;
                    there = put ∙ rw (q, h.there) refl;
                    same_id = h.same_id;
                    same_tool = h.same_tool;
                  })
            | inr q ↦
                rw (e, on_event)
                  (record {
                    leads = h.leads;
                    entry = h.entry;
                    there = put ∙ rw q h.there;
                    same_id = h.same_id;
                    same_tool = h.same_tool;
                  })
          ]
    ]
on_event-HasEntry id name i at (final_text t) a n h = record {
  leads = h.leads;
  entry = h.entry;
  there = h.there;
  same_id = h.same_id;
  same_tool = h.same_tool;
}
on_event-HasEntry id name i at _ a n h = h

on_events-HasEntry :
    (id name : Text) (i : ℕ) (evs : List (ℕ × EngineEvent)) (a : Accumulator)
    → AreElsewhere id evs
    → HasEntry id name i a
    → HasEntry id name i (on_events evs a)
unfolding on_events
on_events-HasEntry id name i [] a n h = h
on_events-HasEntry id name i ((at, ev) ∷ evs) a n h =
    on_events-HasEntry id name i evs (on_event at ev a) n.1
      (on_event-HasEntry id name i at ev a n.0 h)

-- A call with an id, then any events in which no call is without an id or has this one, then a result with
-- the id, from any state of the fold: the result lands on the entry that the call made, which has the
-- call's tool and id, and gets the outcome and the output of the result; every other entry, those of calls
-- under way at the same time included, stays as it was, and none is added.
pub result_lands :
    (a : Accumulator) (at at' : ℕ) (name : Text) (args : Option Json) (id : Text)
    (evs : List (ℕ × EngineEvent)) (ok : Bool) (output : Option Text)
    → AreElsewhere id evs
    → let before = on_events evs (on_event at (tool_call name args (some id)) a) in
      let after = on_event at' (tool_result ok output (some id)) before in
      let place = length a.tool_calls in
      (entry : ToolCallAcc) × (get_elem? before.tool_calls place ≡ some entry)
      × (entry.call_id ≡ id)
      × (entry.tool ≡ name)
      × ((j : ℕ)
          → get_elem? after.tool_calls j ≡ (
              if nat_eq j place
              then some (record entry { tool_state = state_of ok; content = output })
              else get_elem? before.tool_calls j))
unfolding on_event
result_lands a at at' name args id evs ok output n =
    let before = on_events evs (on_event at (tool_call name args (some id)) a) in
    let place = length a.tool_calls in
    let h = on_events-HasEntry id name place evs _ n (call-HasEntry at name args id a) in
    let put = λ (j : ℕ). get_elem?-update_at place j (finish_entry ok output) before.tool_calls in
    (
      h.entry,
      h.there,
      h.same_id,
      h.same_tool,
      λ j. rw (h.leads, on_event) (put j ∙ ground (arith, h.there)),
    )
