-- ===== src/Persistence/Content.antt =====
-- The text that src/server/db/persistence.ts keeps, against the result of the run.
use modular_agentic_system.Base.{
  ℕ, ◌≡◌, refl, sym, ap, ◌∙◌, Bool, List, [], ◌∷◌, ◌++◌, Option, Text, text_or, or_else, append-nil,
  append_assoc, arith,
}
use modular_agentic_system.Events.{
  EngineEvent, stream_chunk, tool_call, tool_result, final_text, TerminalCause,
}
use modular_agentic_system.Persistence.{Accumulator, new, on_event, chunk_text, content}
use modular_agentic_system.Settlement.Refine.{summarise}
use modular_agentic_system.Settlement.Spec.{chunks, last_final}

-- The events of a run, each with the time at which it came.
unfoldable pub on_events : List (ℕ × EngineEvent) → Accumulator → Accumulator
on_events [] a = a
on_events ((at, ev) ∷ evs) a = on_events evs (on_event at ev a)

abbrev pub events_of : List (ℕ × EngineEvent) → List EngineEvent
events_of [] = []
events_of ((at, ev) ∷ evs) = ev ∷ events_of evs

chunk_text-append :
    (xs : List (Text × ℕ)) (t : Text) (at : ℕ)
    → chunk_text (xs ++ ((t, at) ∷ [])) ≡ chunk_text xs ++ t
unfolding chunk_text
chunk_text-append [] t at = append-nil t
chunk_text-append ((u, b) ∷ xs) t at =
    ap (λ v. u ++ v) (chunk_text-append xs t at) ∙ sym (append_assoc u (chunk_text xs) t)

-- The text that has been gathered, with what an accumulator had before.
record Gathers (evs : List EngineEvent) (a a' : Accumulator) : Type 0 where
  final : a'.final_text ≡ or_else (last_final evs) a.final_text
  chunked : chunk_text a'.content_chunks ≡ chunk_text a.content_chunks ++ chunks evs

on_result :
    (at : ℕ) (ok : Bool) (output id : Option Text) (a : Accumulator)
    → ((on_event at (tool_result ok output id) a).final_text ≡ a.final_text)
      × ((on_event at (tool_result ok output id) a).content_chunks ≡ a.content_chunks)
unfolding on_event
on_result at ok output id a = (ground arith, ground arith)

on_events-Gathers :
    (evs : List (ℕ × EngineEvent)) (a : Accumulator) → Gathers (events_of evs) a (on_events evs a)
unfolding on_events on_event chunks last_final
on_events-Gathers [] a = record { final = refl; chunked = sym (append-nil _) }
on_events-Gathers ((at, stream_chunk t) ∷ evs) a =
    let g = on_events-Gathers evs (on_event at (stream_chunk t) a) in
    record { final = ground (arith, g.final); chunked = by_text t g }
  where
    by_text :
        (u : Text)
        → Gathers
            (events_of evs)
            (on_event at (stream_chunk u) a)
            (on_events evs (on_event at (stream_chunk u) a))
        → chunk_text (on_events evs (on_event at (stream_chunk u) a)).content_chunks
          ≡ chunk_text a.content_chunks ++ (u ++ chunks (events_of evs))
    by_text [] g = g.chunked
    by_text (c ∷ cs) g =
        g.chunked
        ∙ ap (λ v. v ++ chunks (events_of evs)) (chunk_text-append a.content_chunks (c ∷ cs) at)
        ∙ append_assoc (chunk_text a.content_chunks) (c ∷ cs) (chunks (events_of evs))
on_events-Gathers ((at, final_text t) ∷ evs) a =
    let g = on_events-Gathers evs (on_event at (final_text t) a) in
    record { final = ground (arith, g.final); chunked = g.chunked }
on_events-Gathers ((at, tool_result ok output id) ∷ evs) a =
    let g = on_events-Gathers evs (on_event at (tool_result ok output id) a) in
    let (f, c) = on_result at ok output id a in
    record {
      final = g.final ∙ ap (λ t. or_else (last_final (events_of evs)) t) f;
      chunked = g.chunked ∙ ap (λ t. chunk_text t ++ chunks (events_of evs)) c;
    }
on_events-Gathers ((at, tool_call name args id) ∷ evs) a =
    let g = on_events-Gathers evs (on_event at (tool_call name args id) a) in
    record { final = g.final; chunked = g.chunked }
on_events-Gathers ((at, ev) ∷ evs) a =
    let g = on_events-Gathers evs (on_event at ev a) in
    record { final = g.final; chunked = g.chunked }

-- The text kept for the assistant's message is the final text of the run's result, when the events
-- that were folded are those that the settlement has seen: the two fallbacks of `content` never bring
-- in another text.
pub content-summarise :
    (run_id : Text) (fallback : TerminalCause) (evs : List (ℕ × EngineEvent))
    → content (summarise run_id fallback (events_of evs)) (on_events evs new)
      ≡ (summarise run_id fallback (events_of evs)).final_text
unfolding content new chunk_text
content-summarise run_id fallback evs =
    let g = on_events-Gathers evs new in
    rw (g.final, g.chunked)
      (absorbs (or_else (last_final (events_of evs)) []) (chunks (events_of evs)))
  where
    absorbs : (t u : Text) → text_or (text_or t u) (text_or t u) ≡ text_or t u
    absorbs [] [] = refl
    absorbs [] (c ∷ cs) = refl
    absorbs (c ∷ cs) u = refl
