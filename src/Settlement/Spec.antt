-- ===== src/Settlement/Spec.antt =====
-- What the result of a run is, said of its event stream alone.
use modular_agentic_system.Base.{ℕ, ◌+◌, List, [], ◌∷◌, ◌++◌, Option, none, some, Text, or_else}
use modular_agentic_system.Events.{
  EngineEvent, stream_chunk, usage_delta, final_text, terminal, TerminalCause, ErrorInfo,
}

unfoldable pub input_total : List EngineEvent → ℕ
input_total [] = 0
input_total (usage_delta i o ∷ evs) = i + input_total evs
input_total (_ ∷ evs) = input_total evs

unfoldable pub output_total : List EngineEvent → ℕ
output_total [] = 0
output_total (usage_delta i o ∷ evs) = o + output_total evs
output_total (_ ∷ evs) = output_total evs

unfoldable pub chunks : List EngineEvent → Text
chunks [] = []
chunks (stream_chunk t ∷ evs) = t ++ chunks evs
chunks (_ ∷ evs) = chunks evs

unfoldable pub last_final : List EngineEvent → Option Text
last_final [] = none
last_final (final_text t ∷ evs) = some (or_else (last_final evs) t)
last_final (_ ∷ evs) = last_final evs

unfoldable pub first_terminal : List EngineEvent → Option (TerminalCause × Option ErrorInfo)
first_terminal [] = none
first_terminal (terminal c e ∷ evs) = some (c, e)
first_terminal (_ ∷ evs) = first_terminal evs

unfoldable pub terminal_count : List EngineEvent → ℕ
terminal_count [] = 0
terminal_count (terminal c e ∷ evs) = 1 + terminal_count evs
terminal_count (_ ∷ evs) = terminal_count evs
