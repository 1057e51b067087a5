-- ===== src/Translator/Totals.antt =====
-- What a whole stream of the kernel gives in apps/next/src/core/kernelTranslator.ts.
use modular_agentic_system.Base.{
  ℕ, ◌+◌, ◌≡◌, refl, sym, ap, ◌∙◌, List, [], ◌∷◌, ◌++◌, Option, Text, codes, map, arith,
  if◌then◌else◌, nat_eq, or_else, append_assoc, ◌≤◌, ◌||◌, not,
}
use modular_agentic_system.Events
use modular_agentic_system.Events.{EngineEvent}
use modular_agentic_system.Kernel.Delegation.{is_terminal}
use modular_agentic_system.Kernel.Rollup.{
  input_total-append, output_total-append, terminal_count-append,
}
use modular_agentic_system.Settlement.Spec.{input_total, output_total, terminal_count}
use modular_agentic_system.Translator.{
  KernelTranslator, RunEvent, failure, complete, translate, translate_all, new, settle,
  settled_usage,
}
use modular_agentic_system.Translator.Wire.{KernelWireEvent, WireError, WireUsage, settled, wire}

-- How often the chat is told that the run is over.
unfoldable pub completions : List RunEvent → ℕ
completions [] = 0
completions (failure m code ∷ fs) = 1 + completions fs
completions (complete phase ∷ fs) = 1 + completions fs
completions (_ ∷ fs) = completions fs

pub completions-append :
    (xs ys : List RunEvent) → completions (xs ++ ys) ≡ completions xs + completions ys
unfolding completions
completions-append [] ys = omega arith
completions-append (failure m code ∷ fs) ys = ground (arith, completions-append fs ys)
completions-append (complete phase ∷ fs) ys = ground (arith, completions-append fs ys)
completions-append (_ ∷ fs) ys = completions-append fs ys

-- One event: what it adds to the counters, to the completions, and whether it is a terminal.
pub record Step (ev : EngineEvent) (s s' : KernelTranslator) (fs : List RunEvent) : Type 0 where
  pub input : s'.usage_in ≡ s.usage_in + input_total (ev ∷ [])
  pub output : s'.usage_out ≡ s.usage_out + output_total (ev ∷ [])
  pub over : completions fs ≡ terminal_count (ev ∷ [])
  pub seen : s'.terminal_seen ≡ (s.terminal_seen || is_terminal ev)

translate-Step :
    (app_path : Text) (ev : EngineEvent) (s : KernelTranslator)
    → Step ev s (translate app_path (wire ev) s).0 (translate app_path (wire ev) s).1
unfolding translate wire completions terminal_count input_total output_total settle
translate-Step app_path (Events.stream_chunk t) s = record {
  input = ground arith;
  output = ground arith;
  over = ground arith;
  seen = ground arith;
}
translate-Step app_path (Events.tool_call name args id) s = record {
  input = ground arith;
  output = ground arith;
  over = ground arith;
  seen = ground arith;
}
translate-Step app_path (Events.tool_result ok output id) s = record {
  input = ground arith;
  output = ground arith;
  over = ground arith;
  seen = ground arith;
}
translate-Step app_path (Events.child_started id) s = record {
  input = ground arith;
  output = ground arith;
  over = ground arith;
  seen = ground arith;
}
translate-Step app_path (Events.child_settled id cause) s = record {
  input = ground arith;
  output = ground arith;
  over = ground arith;
  seen = ground arith;
}
translate-Step app_path (Events.usage_delta i o) s = record {
  input = ground arith;
  output = ground arith;
  over = ground arith;
  seen = ground arith;
}
translate-Step app_path (Events.preview_ready url port) s = record {
  input = ground arith;
  output = ground arith;
  over = ground arith;
  seen = ground arith;
}
translate-Step app_path (Events.preview_snapshot_ready id count bytes) s = record {
  input = ground arith;
  output = ground arith;
  over = ground arith;
  seen = ground arith;
}
translate-Step app_path (Events.final_text t) s = record {
  input = ground arith;
  output = ground arith;
  over = ground arith;
  seen = ground arith;
}
translate-Step app_path (Events.log category level m at) s = record {
  input = ground arith;
  output = ground arith;
  over = ground arith;
  seen = ground arith;
}
translate-Step app_path (Events.terminal cause why) s = record {
  input = ground arith;
  output = ground arith;
  over = ground arith;
  seen = ground arith;
}

total-cons :
    (ev : EngineEvent) (evs : List EngineEvent)
    → (input_total (ev ∷ evs) ≡ input_total (ev ∷ []) + input_total evs)
      × (output_total (ev ∷ evs) ≡ output_total (ev ∷ []) + output_total evs)
      × (terminal_count (ev ∷ evs) ≡ terminal_count (ev ∷ []) + terminal_count evs)
total-cons ev evs = (
  input_total-append (ev ∷ []) evs,
  output_total-append (ev ∷ []) evs,
  terminal_count-append (ev ∷ []) evs,
)

terminal_count_one : (ev : EngineEvent) → is_terminal ev ≡ not (nat_eq (terminal_count (ev ∷ [])) 0)
unfolding terminal_count
terminal_count_one (Events.terminal cause why) = refl
terminal_count_one _ = refl

-- The counters after the events of a run are the sums of its token counts, from where they were: the
-- chat shows the usage that the settlement of the kernel computes.
pub translate_all-usage :
    (app_path : Text) (evs : List EngineEvent) (s : KernelTranslator)
    → ((translate_all app_path (map wire evs) s).0.usage_in ≡ s.usage_in + input_total evs)
      × ((translate_all app_path (map wire evs) s).0.usage_out ≡ s.usage_out + output_total evs)
unfolding translate_all
translate_all-usage app_path [] s = unfold input_total output_total in (omega arith, omega arith)
translate_all-usage app_path (ev ∷ evs) s =
    let step = translate-Step app_path ev s in
    let (a, b) = translate_all-usage app_path evs (translate app_path (wire ev) s).0 in
    let (i, o, c) = total-cons ev evs in
    (ground (arith, step.input, a, i), ground (arith, step.output, b, o))

-- How often the events of a run end it in the chat, and whether the translator has noticed.
pub translate_all-completions :
    (app_path : Text) (evs : List EngineEvent) (s : KernelTranslator)
    → (completions (translate_all app_path (map wire evs) s).1 ≡ terminal_count evs)
      × ((translate_all app_path (map wire evs) s).0.terminal_seen
          ≡ (s.terminal_seen || not (nat_eq (terminal_count evs) 0)))
unfolding translate_all
translate_all-completions app_path [] s = unfold completions terminal_count in (refl, ground arith)
translate_all-completions app_path (ev ∷ evs) s =
    let step = translate-Step app_path ev s in
    let (f, g) = translate_all-completions app_path evs (translate app_path (wire ev) s).0 in
    let (i, o, c) = total-cons ev evs in
    let more =
      completions-append (translate app_path (wire ev) s).1
        (translate_all app_path (map wire evs) (translate app_path (wire ev) s).0).1 in
    (ground (arith, step.over, f, c, more), ground (arith, step.seen, g, c, terminal_count_one ev))

pub translate_all-append :
    (app_path : Text) (xs ys : List KernelWireEvent) (s : KernelTranslator)
    → translate_all app_path (xs ++ ys) s ≡ (
      (translate_all app_path ys (translate_all app_path xs s).0).0,
      (translate_all app_path xs s).1
          ++ (translate_all app_path ys (translate_all app_path xs s).0).1,
    )
unfolding translate_all
translate_all-append app_path [] ys s = refl
translate_all-append app_path (x ∷ xs) ys s =
    let h = translate_all-append app_path xs ys (translate app_path x s).0 in
    rw h (
      ap
        (λ fs. (
          (translate_all app_path ys (translate_all app_path xs (translate app_path x s).0).0).0,
          fs,
        ))
        (sym (append_assoc (translate app_path x s).1 _ _)))

settle-completions :
    (cause : Text) (why : Option WireError) → completions (settle cause why ∷ []) ≡ 1
unfolding settle completions
settle-completions cause why = ground arith

pub closing-completions :
    (app_path : Text) (cause : Option Text) (u : Option WireUsage) (cost : Option ℕ)
    (why : Option WireError) (s : KernelTranslator)
    → completions (translate_all app_path (settled cause u cost why ∷ []) s).1
      ≡ (if s.terminal_seen then 0 else 1)
unfolding translate_all translate settled_usage completions
closing-completions app_path cause u cost why s =
    ground (arith, settle-completions (or_else cause (codes "done")) why)

-- A run whose events have at most one terminal, and that `settled` closes, is over in the chat exactly
-- once: the closing frame makes up for a terminal that did not come, and adds none if one came.
pub closed_once :
    (app_path : Text) (evs : List EngineEvent) (cause : Option Text) (u : Option WireUsage)
    (cost : Option ℕ) (why : Option WireError)
    → terminal_count evs ≤ 1
    → completions (translate_all app_path (map wire evs ++ (settled cause u cost why ∷ [])) new).1
      ≡ 1
unfolding new
closed_once app_path evs cause u cost why h =
    let (f, g) = translate_all-completions app_path evs new in
    let s = (translate_all app_path (map wire evs) new).0 in
    rw (translate_all-append app_path (map wire evs) (settled cause u cost why ∷ []) new) (
      completions-append (translate_all app_path (map wire evs) new).1 _
      ∙ ground (arith, f, g, closing-completions app_path cause u cost why s))
