-- ===== src/Kernel/Texts.antt =====
-- The text of a sub-run in the result of its parent, in src/kernel/index.ts and
-- src/kernel/settlement.ts.
use modular_agentic_system.Base.{
  ◌≡◌, refl, ap, true, List, [], ◌∷◌, ◌++◌, none, some, Text, or_else, or_option, text_or,
  truthy_text, arith,
}
use modular_agentic_system.Events.{
  EngineEvent, child_started, child_settled, final_text, TerminalCause,
}
use modular_agentic_system.Kernel.Delegation.{child_sink}
use modular_agentic_system.Settlement
use modular_agentic_system.Settlement.{settle, observe_all}
use modular_agentic_system.Settlement.Refine.{settle-summarise}
use modular_agentic_system.Settlement.Spec.{last_final, chunks}

last_final-append :
    (xs ys : List EngineEvent) → last_final (xs ++ ys) ≡ or_option (last_final ys) (last_final xs)
unfolding last_final
last_final-append [] ys = ground arith
last_final-append (final_text t ∷ xs) ys = ground (arith, last_final-append xs ys)
last_final-append (_ ∷ xs) ys = last_final-append xs ys

last_final-child_sink : (evs : List EngineEvent) → last_final (child_sink evs) ≡ last_final evs
unfolding last_final
last_final-child_sink [] = refl
last_final-child_sink (final_text t ∷ evs) =
    ap (λ o. some (or_else o t)) (last_final-child_sink evs)
last_final-child_sink (_ ∷ evs) = last_final-child_sink evs

text_or_left : (t u : Text) → truthy_text t ≡ true → text_or t u ≡ t
text_or_left [] u h = absurd (ground arith)
text_or_left (c ∷ cs) u h = refl

-- When a sub-run's last final text is not empty, and no final text comes after the sub-run in the stream
-- of its parent, then the result of the parent has the text of the sub-run, whatever the parent said
-- itself: its own final text before, and its own chunks before and after.
pub child_text_prevails :
    (parent_id child_id : Text) (fallback cause : TerminalCause)
    (before child after : List EngineEvent) (t : Text)
    → last_final child ≡ some t
    → truthy_text t ≡ true
    → last_final after ≡ none
    → (settle fallback none (
        observe_all
          (before
            ++ (child_started child_id
                ∷ (child_sink child ++ (child_settled child_id cause ∷ after))))
          (Settlement.new parent_id))).1.final_text
      ≡ t
child_text_prevails parent_id child_id fallback cause before child after t h q e =
    let stream =
      before
      ++ (child_started child_id ∷ (child_sink child ++ (child_settled child_id cause ∷ after))) in
    let last : last_final stream ≡ some t =
      unfold last_final in
      ground (
        arith,
        last_final-append before
            (child_started child_id ∷ (child_sink child ++ (child_settled child_id cause ∷ after))),
        last_final-append (child_sink child) (child_settled child_id cause ∷ after),
        last_final-child_sink child,
      ) in
    rw (settle-summarise parent_id fallback stream, last) (text_or_left t (chunks stream) q)
