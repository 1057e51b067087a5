-- ===== src/Chat/Shown.antt =====
-- The text of the parts of a message, in apps/next/src/features/chat/adapters/streamReducer.ts.
use modular_agentic_system.Base.{
  ℕ, ◌≡◌, refl, sym, ap, ◌∙◌, not, List, [], ◌∷◌, ◌++◌, Option, Text, filter, length, append-nil,
  append_assoc, arith, if_elim,
}
use modular_agentic_system.Base.Map.{Map}
use modular_agentic_system.Events.{Json}
use modular_agentic_system.Chat.Parts.{
  Part, text_part, tool_part, error_part, ToolPart, settle_part, finalize_streaming_thinking,
  settle_thinking, add_text, append_text, add_thought, append_thinking, replace_text, is_text,
}
use modular_agentic_system.Chat.Tools.{put_tool, upsert_tool, is_at, absorb}

-- The text parts, one after another.
unfoldable pub shown : List Part → Text
shown [] = []
shown (text_part t ∷ ps) = t ++ shown ps
shown (_ ∷ ps) = shown ps

shown-append : (xs ys : List Part) → shown (xs ++ ys) ≡ shown xs ++ shown ys
unfolding shown
shown-append [] ys = refl
shown-append (text_part t ∷ xs) ys =
    ap (λ u. t ++ u) (shown-append xs ys) ∙ sym (append_assoc t (shown xs) (shown ys))
shown-append (tool_part t ∷ xs) ys = shown-append xs ys
shown-append (error_part m ∷ xs) ys = shown-append xs ys

shown_part : (p : Part) (ps : List Part) → shown (settle_part p ∷ ps) ≡ shown (p ∷ ps)
unfolding shown
shown_part (text_part t) ps = refl
shown_part (tool_part t) ps = ground arith
shown_part (error_part m) ps = refl

shown_same : (p : Part) (xs ys : List Part) → shown xs ≡ shown ys → shown (p ∷ xs) ≡ shown (p ∷ ys)
unfolding shown
shown_same (text_part t) xs ys h = ap (λ u. t ++ u) h
shown_same (tool_part t) xs ys h = h
shown_same (error_part m) xs ys h = h

shown-finalize_streaming_thinking :
    (ps : List Part) → shown (finalize_streaming_thinking ps) ≡ shown ps
unfolding finalize_streaming_thinking
shown-finalize_streaming_thinking [] = refl
shown-finalize_streaming_thinking (p ∷ []) = shown_part p []
shown-finalize_streaming_thinking (p ∷ q ∷ ps) =
    shown_same p (finalize_streaming_thinking (q ∷ ps)) (q ∷ ps)
      (shown-finalize_streaming_thinking (q ∷ ps))

pub shown-settle_thinking : (ps : List Part) → shown (settle_thinking ps) ≡ shown ps
unfolding settle_thinking
shown-settle_thinking [] = refl
shown-settle_thinking (p ∷ ps) =
    shown_part p (settle_thinking ps)
    ∙ shown_same p (settle_thinking ps) ps (shown-settle_thinking ps)

shown_longer :
    (p : Part) (xs ys : List Part) (t : Text)
    → shown xs ≡ shown ys ++ t
    → shown (p ∷ xs) ≡ shown (p ∷ ys) ++ t
unfolding shown
shown_longer (text_part u) xs ys t h = ap (λ v. u ++ v) h ∙ sym (append_assoc u (shown ys) t)
shown_longer (tool_part u) xs ys t h = h
shown_longer (error_part m) xs ys t h = h

shown-add_text : (t : Text) (ps : List Part) → shown (add_text t ps) ≡ shown ps ++ t
unfolding add_text shown
shown-add_text t [] = append-nil t
shown-add_text t (text_part u ∷ []) = append-nil (u ++ t) ∙ ap (λ v. v ++ t) (sym (append-nil u))
shown-add_text t (tool_part u ∷ []) = append-nil t
shown-add_text t (error_part u ∷ []) = append-nil t
shown-add_text t (p ∷ q ∷ ps) =
    shown_longer p (add_text t (q ∷ ps)) (q ∷ ps) t (shown-add_text t (q ∷ ps))

pub shown-append_text : (ps : List Part) (t : Text) → shown (append_text ps t) ≡ shown ps ++ t
unfolding append_text
shown-append_text ps [] = sym (append-nil (shown ps))
shown-append_text ps (c ∷ cs) =
    shown-add_text (c ∷ cs) (finalize_streaming_thinking ps)
    ∙ ap (λ u. u ++ (c ∷ cs)) (shown-finalize_streaming_thinking ps)

shown-add_thought : (n : ℕ) (t : Text) (ps : List Part) → shown (add_thought n t ps) ≡ shown ps
unfolding add_thought shown
shown-add_thought n t [] = refl
shown-add_thought n t (text_part u ∷ []) = refl
shown-add_thought n t (error_part u ∷ []) = refl
shown-add_thought n t (tool_part p ∷ []) = ground arith
shown-add_thought n t (p ∷ q ∷ ps) =
    shown_same p (add_thought n t (q ∷ ps)) (q ∷ ps) (shown-add_thought n t (q ∷ ps))

pub shown-append_thinking : (ps : List Part) (t : Text) → shown (append_thinking ps t) ≡ shown ps
unfolding append_thinking
shown-append_thinking ps [] = refl
shown-append_thinking ps (c ∷ cs) = shown-add_thought (length ps) (c ∷ cs) ps

shown-absorb :
    (part : ToolPart) (p : Part) (ps : List Part) → shown (absorb part p ∷ ps) ≡ shown (p ∷ ps)
unfolding shown
shown-absorb part (text_part t) ps = refl
shown-absorb part (tool_part t) ps = refl
shown-absorb part (error_part m) ps = refl

shown-put_tool : (part : ToolPart) (ps : List Part) → shown (put_tool part ps) ≡ shown ps
unfolding put_tool
shown-put_tool part [] = unfold shown in refl
shown-put_tool part (p ∷ ps) =
    if_elim (λ qs. shown qs ≡ shown (p ∷ ps)) (is_at part.tool_call_id p) (absorb part p ∷ ps)
      (p ∷ put_tool part ps) (λ e. shown-absorb part p ps)
      (λ e. shown_same p (put_tool part ps) ps (shown-put_tool part ps))

pub shown-upsert_tool :
    (ps : List Part) (id : Option Text) (name : Text) (state : Option Text)
    (input : Option (Map Json)) (output : Option Json)
    → shown (upsert_tool ps id name state input output) ≡ shown ps
unfolding upsert_tool
shown-upsert_tool ps id name state input output =
    shown-put_tool _ (finalize_streaming_thinking ps) ∙ shown-finalize_streaming_thinking ps

shown_without_text : (ps : List Part) → shown (filter (λ p. not (is_text p)) ps) ≡ []
unfolding shown
shown_without_text [] = refl
shown_without_text (text_part t ∷ ps) = shown_without_text ps
shown_without_text (tool_part t ∷ ps) = shown_without_text ps
shown_without_text (error_part t ∷ ps) = shown_without_text ps

pub shown-replace_text : (ps : List Part) (full : Text) → shown (replace_text ps full) ≡ full
unfolding replace_text
shown-replace_text ps full =
    shown-append (filter (λ p. not (is_text p)) ps) (text_part full ∷ [])
    ∙ ap (λ u. u ++ shown (text_part full ∷ [])) (shown_without_text ps)
    ∙ (unfold shown in append-nil full)

pub shown_error : (ps : List Part) (m : Text) → shown (ps ++ (error_part m ∷ [])) ≡ shown ps
unfolding shown
shown_error ps m = shown-append ps (error_part m ∷ []) ∙ append-nil (shown ps)
