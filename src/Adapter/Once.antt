-- ===== src/Adapter/Once.antt =====
-- The settler of src/harnesses/_shared/harnessRuntime.ts over a sequence of calls.
use modular_agentic_system.Base.{◌≡◌, refl, true, List, [], ◌∷◌, ◌++◌, Option, arith}
use modular_agentic_system.Adapter.{Settler, create_settler, settle}
use modular_agentic_system.Events.{EngineEvent, terminal, TerminalCause, ErrorInfo}

unfoldable pub settle_all : List (TerminalCause × Option ErrorInfo) → Settler → Settler
settle_all [] s = s
settle_all ((cause, error) ∷ calls) s = settle_all calls (settle cause error s)

settled_stays :
    (calls : List (TerminalCause × Option ErrorInfo)) (s : Settler)
    → s.settled ≡ true
    → settle_all calls s ≡ s
unfolding settle_all settle
settled_stays [] s h = refl
settled_stays ((cause, error) ∷ calls) s h = ground (arith, settled_stays calls s)

-- However often an adapter settles, one terminal is emitted, at the end of what was emitted before, and
-- it is that of the first call.
pub settle_all-once :
    (cause : TerminalCause) (error : Option ErrorInfo)
    (calls : List (TerminalCause × Option ErrorInfo)) (io : List EngineEvent)
    → settle_all ((cause, error) ∷ calls) (create_settler io)
      ≡ record { settled = true; io = io ++ (terminal cause error ∷ []) }
unfolding settle_all settle create_settler
settle_all-once cause error calls io =
    settled_stays calls (record { settled = true; io = io ++ (terminal cause error ∷ []) }) refl
