-- ===== src/Examples/RunEvents.antt =====
-- Runs of the theorems on apps/next/src/features/chat/lib/runReducer.ts.
use modular_agentic_system.Base.{ℕ, ◌≡◌, refl, [], ◌∷◌, ◌++◌, none, some, codes, ◌==◌, arith}
use modular_agentic_system.Events.{string, number, object, end, field}
use modular_agentic_system.RunReducer.{
  Turn, initial_run_state, start_optimistic_turn, kind_of, run_snapshot, reduce_run_event,
  reduce_all, blank_row,
}
use modular_agentic_system.RunReducer.Ends.{stale_snapshot_ignored}
use modular_agentic_system.RunReducer.Payload
use modular_agentic_system.RunReducer.Payload.{as_record, at, number_field}
use modular_agentic_system.RunReducer.Patches.{IsSameRow, said}
use modular_agentic_system.RunReducer.Rows.{AllDistinct, reduce_all-rows, reduce_all-AllDistinct}
use modular_agentic_system.RunReducer.Types.{
  user, assistant, pending, complete, ChatMessage, RunState, RunStreamEvent,
}

abbrev turn : Turn
turn = record {
  user_message_id = codes "u1";
  assistant_message_id = codes "a1";
  text = codes "make it";
  run_id = codes "r1";
  created_at = codes "now";
  attachments = none;
}

abbrev sent : RunState
unfolding start_optimistic_turn
sent = start_optimistic_turn initial_run_state turn

abbrev user_row : ChatMessage
user_row = record (blank_row (codes "u1") user (codes "make it") complete (codes "now")) {
  attachments = none;
}

abbrev active_row : ChatMessage
active_row = record (blank_row (codes "a1") assistant [] pending (codes "now")) {
  run_id = some (codes "r1");
}

abbrev says : RunStreamEvent
says = record {
  event_type = codes "progress";
  payload = some (object (field (codes "delta") (string (codes "Done")) end));
}

abbrev calls : RunStreamEvent
calls = record {
  event_type = codes "progress";
  payload = some (
      object (
        field (codes "callID") (string (codes "c1"))
          (field (codes "tool") (string (codes "bash")) end)));
}

abbrev ends : RunStreamEvent
ends = record { event_type = codes "complete"; payload = none }

abbrev names : RunStreamEvent
names = record { event_type = codes "git_persistence"; payload = none }

abbrev snapshot : ℕ → RunStreamEvent
snapshot v = record {
  event_type = codes "run_snapshot";
  payload = some (object (field (codes "version") (number v) end));
}

sent_rows : sent.messages ≡ (user_row ∷ []) ++ active_row ∷ []
unfolding start_optimistic_turn
sent_rows = refl

reduce_all-rows_example :
    (m' : ChatMessage) × ((reduce_all (says ∷ calls ∷ ends ∷ []) sent).messages
      ≡ (user_row ∷ []) ++ m' ∷ [])
    × IsSameRow active_row m'
    × (m'.text ≡ [] ++ said (says ∷ calls ∷ ends ∷ []))
reduce_all-rows_example =
    reduce_all-rows (says ∷ calls ∷ ends ∷ []) sent (user_row ∷ []) active_row [] refl refl
      sent_rows

no_calls_yet : AllDistinct sent.messages
unfolding start_optimistic_turn
no_calls_yet = (tt, (tt, tt))

reduce_all-AllDistinct_example : AllDistinct (reduce_all (calls ∷ calls ∷ ends ∷ []) sent).messages
reduce_all-AllDistinct_example =
    reduce_all-AllDistinct (calls ∷ calls ∷ ends ∷ []) sent no_calls_yet

abbrev at_three : RunState
at_three = record initial_run_state { version = 3 }

snapshot_kind : kind_of (codes "run_snapshot") ≡ run_snapshot
unfolding kind_of ◌==◌
snapshot_kind = refl

stale_snapshot_ignored_example :
    reduce_run_event (reduce_all (says ∷ []) at_three) (snapshot 2)
    ≡ reduce_all (says ∷ []) at_three
stale_snapshot_ignored_example =
    stale_snapshot_ignored (says ∷ []) at_three (snapshot 2) 2 snapshot_kind
      (unfold Payload.get ◌==◌ in refl) (omega arith)
