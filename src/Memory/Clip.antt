-- ===== src/Memory/Clip.antt =====
-- The sizes that src/server/sessionMemory.ts keeps to.
use modular_agentic_system.Base.{
  ℕ, zero, suc, ◌+◌, ◌-◌, ◌≡◌, ◌≤◌, refl, false, List, [], ◌∷◌, ◌++◌, Option, none, some, Text,
  codes, length, take, leb, arith, length-append, if_elim, join,
}
use modular_agentic_system.Memory.{
  squeeze, trim_start, trim_end, clip, SessionMemory, SessionTurnMemory, prompt_with_session_memory,
  max_prompt_context,
}

length-trim_end : (t : Text) → length (trim_end t) ≤ length t
unfolding trim_end
length-trim_end [] = omega arith
length-trim_end (c ∷ cs) = ground (arith, length-trim_end cs)

length-take : (n : ℕ) (t : Text) → length (take n t) ≤ n
length-take zero t = omega arith
length-take (suc n) [] = omega arith
length-take (suc n) (c ∷ cs) = ground (arith, length-take n cs)

-- A clipped text is no longer than its limit, when the limit has room for the three dots.
pub length-clip : (value : Text) (limit : ℕ) → 3 ≤ limit → length (clip value limit) ≤ limit
unfolding clip
length-clip value limit h =
    let text = trim_end (trim_start (squeeze false value)) in
    if_elim (λ t. length t ≤ limit) (leb (length text) limit) text _ (λ e. ground arith)
      (λ e. ground (
        arith,
        length-append (trim_end (take (limit - 3) text)) (codes "..."),
        length-trim_end (take (limit - 3) text),
        length-take (limit - 3) text,
      ))

-- Whatever the store remembers, a prompt grows by at most 2,459 units: the clipped context of at most
-- 2,400, and the two headings with their line breaks.
pub length-prompt_with_session_memory :
    (prompt : Text) (memory : Option SessionMemory)
    → length (prompt_with_session_memory prompt memory) ≤ length prompt + 2459
unfolding prompt_with_session_memory
length-prompt_with_session_memory prompt none = omega arith
length-prompt_with_session_memory prompt (some memory) = split memory.turns refl
  where
    split :
        (turns : List SessionTurnMemory)
        → memory.turns ≡ turns
        → length (prompt_with_session_memory prompt (some memory)) ≤ length prompt + 2459
    split [] e = rw (e, prompt_with_session_memory) (omega arith)
    split (t ∷ ts) e =
        let context = clip memory.summary max_prompt_context in
        rw (e, prompt_with_session_memory)
          (unfold join in
            ground (
              arith,
              length-append context (10 ∷ 10 ∷ (codes "Current user request:" ++ (10 ∷ prompt))),
              length-clip memory.summary max_prompt_context,
            ))
