-- ===== src/RunReducer/Calls.antt =====
-- apps/next/src/features/chat/lib/runReducer.ts: the tool calls of a row.
use modular_agentic_system.Base.{
  ◌≡◌, ◌≢◌, sym, subst, List, [], ◌∷◌, Option, none, some, Text, ◌==◌, eq_iff, map, or_else, arith,
  Bool-cases, inl, inr,
}
use modular_agentic_system.RunReducer.Updates.{calls_after, finalize_call, calls_done}
use modular_agentic_system.RunReducer.Types.{ToolCallView, running}
use modular_agentic_system.RunReducer.Views.{put_call, merge_calls}

abbrev Lacks : Text → List ToolCallView → Type 0
Lacks id [] = Unit
Lacks id (c ∷ cs) = (id ≢ c.call_id) × Lacks id cs

abbrev AreDistinct : List ToolCallView → Type 0
AreDistinct [] = Unit
AreDistinct (c ∷ cs) = Lacks c.call_id cs × AreDistinct cs

-- No two calls have one id.
abbrev pub HasDistinctCalls : Option (List ToolCallView) → Type 0
HasDistinctCalls none = Unit
HasDistinctCalls (some cs) = AreDistinct cs

put_call-Lacks :
    (id : Text) (tc : ToolCallView) (out : List ToolCallView)
    → id ≢ tc.call_id
    → Lacks id out
    → Lacks id (put_call tc out)
unfolding put_call
put_call-Lacks id tc [] n h = (n, tt)
put_call-Lacks id tc (e ∷ out) n (m, h) = elim (Bool-cases (e.call_id == tc.call_id)) [
  | inl q ↦ rw q (n, h)
  | inr q ↦ rw q (m, put_call-Lacks id tc out n h)
]

put_call-AreDistinct :
    (tc : ToolCallView) (out : List ToolCallView) → AreDistinct out → AreDistinct (put_call tc out)
unfolding put_call
put_call-AreDistinct tc [] h = (tt, tt)
put_call-AreDistinct tc (e ∷ out) (l, h) = elim (Bool-cases (e.call_id == tc.call_id)) [
  | inl q ↦ rw q (subst (λ id. Lacks id out) ((eq_iff e.call_id tc.call_id).0 q) l, h)
  | inr q ↦ rw q (
    put_call-Lacks e.call_id tc out (ground (arith, eq_iff e.call_id tc.call_id)) l,
    put_call-AreDistinct tc out h,
  )
]

merge_calls-AreDistinct :
    (incoming out : List ToolCallView) → AreDistinct out → AreDistinct (merge_calls out incoming)
unfolding merge_calls
merge_calls-AreDistinct [] out h = h
merge_calls-AreDistinct (tc ∷ incoming) out h =
    merge_calls-AreDistinct incoming (put_call tc out) (put_call-AreDistinct tc out h)

existing-AreDistinct :
    (old : Option (List ToolCallView)) → HasDistinctCalls old → AreDistinct (or_else old [])
existing-AreDistinct none h = tt
existing-AreDistinct (some cs) h = h

pub calls_after-HasDistinctCalls :
    (tools : List ToolCallView) (old : Option (List ToolCallView))
    → HasDistinctCalls old
    → HasDistinctCalls (calls_after tools old)
calls_after-HasDistinctCalls [] old h = h
calls_after-HasDistinctCalls (tc ∷ tools) old h =
    merge_calls-AreDistinct (tc ∷ tools) (or_else old []) (existing-AreDistinct old h)

finalize_call-id : (c : ToolCallView) → (finalize_call c).call_id ≡ c.call_id
finalize_call-id c = ground arith

finalize-Lacks :
    (id : Text) (cs : List ToolCallView) → Lacks id cs → Lacks id (map finalize_call cs)
finalize-Lacks id [] h = tt
finalize-Lacks id (c ∷ cs) (n, h) =
    (subst (λ i. id ≢ i) (sym (finalize_call-id c)) n, finalize-Lacks id cs h)

finalize-AreDistinct :
    (cs : List ToolCallView) → AreDistinct cs → AreDistinct (map finalize_call cs)
finalize-AreDistinct [] h = tt
finalize-AreDistinct (c ∷ cs) (l, h) = (
  subst (λ i. Lacks i (map finalize_call cs)) (sym (finalize_call-id c))
      (finalize-Lacks c.call_id cs l),
  finalize-AreDistinct cs h,
)

pub calls_done-HasDistinctCalls :
    (old : Option (List ToolCallView)) → HasDistinctCalls old → HasDistinctCalls (calls_done old)
calls_done-HasDistinctCalls none h = tt
calls_done-HasDistinctCalls (some cs) h = finalize-AreDistinct cs h

-- The calls that still run.
abbrev pub AreSettled : List ToolCallView → Type 0
AreSettled [] = Unit
AreSettled (c ∷ cs) = (c.tool_state ≢ running) × AreSettled cs

abbrev pub HasSettledCalls : Option (List ToolCallView) → Type 0
HasSettledCalls none = Unit
HasSettledCalls (some cs) = AreSettled cs

finalize_call-settled : (c : ToolCallView) → (finalize_call c).tool_state ≢ running
finalize_call-settled c h = ground arith

finalize-AreSettled : (cs : List ToolCallView) → AreSettled (map finalize_call cs)
finalize-AreSettled [] = tt
finalize-AreSettled (c ∷ cs) = (finalize_call-settled c, finalize-AreSettled cs)

pub calls_done-HasSettledCalls :
    (old : Option (List ToolCallView)) → HasSettledCalls (calls_done old)
calls_done-HasSettledCalls none = tt
calls_done-HasSettledCalls (some cs) = finalize-AreSettled cs
