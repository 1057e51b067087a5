-- ===== src/Examples/Requests.antt =====
-- Runs of the theorems on src/server/.
use modular_agentic_system.Base.{
  ℕ, ◌≡◌, ◌≢◌, ◌≤◌, ◌<◌, refl, true, false, [], ◌∷◌, Option, none, some, Text, codes, map, arith,
  ◌==◌, contains,
}
use modular_agentic_system.Base.Map
use modular_agentic_system.Base.Outcome.{Outcome, ok, throws}
use modular_agentic_system.Chat.{ReducerState, RunState, apply_frames}
use modular_agentic_system.Chat.Frame.{idle as no_phase, ready, streaming, streams}
use modular_agentic_system.Chat.Heard.{frame_of}
use modular_agentic_system.Examples.Fixtures.{
  registries, uuid, idle, config, handle_at, no_sessions,
}
use modular_agentic_system.Kernel.{Kernel}
use modular_agentic_system.Kernel.Lean.{result_of}
use modular_agentic_system.Kernel.Delegation.{ensure_in}
use modular_agentic_system.Prewarm.{claim}
use modular_agentic_system.Environment.{provision}
use modular_agentic_system.Registry.{resolve}
use modular_agentic_system.Server.{Server, MessageBody, WarmBody, PrewarmBody, session_for}
use modular_agentic_system.Server.Auth.{
  DevEnv, AuthContext, get_bearer_token, auth_pre_handler, auth_all, resolve_owner_id, ask_owner,
}
use modular_agentic_system.Server.Confirmed.{IsConfirmed, owner-IsConfirmed}
use modular_agentic_system.Server.Defaults.{null_read, explicit_harness_throws}
use modular_agentic_system.Examples.Records.{no_runs}
use modular_agentic_system.Server.Message.{Reply, serve_message, post_message}
use modular_agentic_system.Server.Profile.{ProcessEnv, target_of, harness_for, environment_for}
use modular_agentic_system.Server.Routes.{get_preview_route, sends, fails, preview_route_tells}
use modular_agentic_system.Server.Stream.{
  sink_of, serve_message-completions, rejected_message_streams,
}
use modular_agentic_system.Server.Warm.{WarmReply, post_warm}
use modular_agentic_system.Server.Warmed.{run_on, message_finds_warmed}
use modular_agentic_system.Session.{
  SessionConfig, SessionState, crosses_owner, ensure_workspace, claim_or_provision, provision_fresh,
  record_session, identity_of, spec_of,
}
use modular_agentic_system.Settlement.Spec.{terminal_count}
use modular_agentic_system.Translator.{new, translate_all}
use modular_agentic_system.Translator.Totals.{completions}

abbrev keys : ProcessEnv
keys = record {
  openrouter_api_key = some (codes "k");
  anthropic_api_key = none;
  openai_api_key = none;
  pi_model = none;
  kernel_persist = none;
}

abbrev start : Server
start = record { kernel = idle; memory = []; history = no_runs }

abbrev post : Option Text → MessageBody
post environment = record {
  harness = some (codes "speaker");
  environment = environment;
  prompt = codes "build";
  session_id = some (codes "s");
  project_id = none;
  chat_id = none;
  model = none;
  topology = none;
  runtime_profile = none;
  source = none;
  ports = none;
  tool_refs = some [];
  skill_refs = some [];
  delegation = none;
}

abbrev warm : Option Text → WarmBody
warm environment = record {
  session_id = some (codes "s");
  harness = some (codes "speaker");
  environment = environment;
  runtime_profile = none;
  source = none;
  ports = none;
}

abbrev prewarm : PrewarmBody
prewarm = record {
  project_id = some (codes "p");
  harness = some (codes "speaker");
  environment = none;
  runtime_profile = none;
  source = none;
  ports = none;
  count = none;
}

named : codes "speaker" ≢ []
named e = ground arith

explicit_harness_throws_example :
    (post_message uuid registries keys false (post none) (codes "ann") start).1 ≡ throws null_read
explicit_harness_throws_example =
    (explicit_harness_throws uuid registries keys false (post none) (warm none) prewarm
      (codes "ann") (codes "speaker") start named refl refl refl refl refl refl).0

abbrev warm_one : Server × Outcome WarmReply
warm_one = post_warm uuid registries keys (warm (some (codes "local"))) (codes "ann") start

abbrev warm_answer : WarmReply
warm_answer = record {
  warmed = true;
  session_id = codes "s";
  harness = codes "speaker";
  environment = codes "local";
  error_of = none;
}

is_warm : warm_one ≡ (warm_one.0, ok warm_answer)
unfolding provision post_warm target_of harness_for environment_for session_for ensure_in
    ensure_workspace claim_or_provision claim provision_fresh resolve Map.get ◌==◌ record_session
    identity_of spec_of
is_warm = refl

is_free : contains (codes "s") warm_one.0.kernel.admission.active ≡ false
unfolding post_warm target_of harness_for environment_for session_for ◌==◌ contains
is_free = refl

message_finds_warmed_example :
    let s = warm_one.0 in
    let posted =
      post_message uuid registries keys false (post (some (codes "local"))) (codes "ann") s in
    (posted.0.kernel.sessions ≡ s.kernel.sessions)
    × ((state : SessionState) × (reply : Reply) × (Map.get (codes "s") s.kernel.sessions.sessions
          ≡ some state)
        × (posted.1 ≡ ok reply)
        × (reply.result
            ≡ result_of (uuid s.kernel.uuids) (
                run_on uuid registries keys
                  (post (some (codes "local")))
                  (codes "ann")
                  s
                  warm_answer
                  state.handle)))
message_finds_warmed_example =
    message_finds_warmed uuid registries keys false (warm (some (codes "local")))
      (post (some (codes "local"))) (codes "ann") start warm_one.0 warm_answer is_warm refl refl
      refl refl refl refl is_free

abbrev page : Text
page = codes "/preview/s/app/"

serve_message-completions_example :
    (completions
        (translate_all page
          (serve_message uuid registries keys false
            (post none)
            (codes "ann")
            (codes "r")
            config
            start).1.frames
          new).1
      ≡ terminal_count (sink_of uuid registries keys false (post none) (codes "ann") config start))
    × (1
        ≤ terminal_count
            (sink_of uuid registries keys false (post none) (codes "ann") config start))
serve_message-completions_example =
    serve_message-completions uuid registries keys false page (codes "ann") (codes "r") (post none)
      config start

abbrev busy : Server
busy = record start { kernel = record idle { admission = record { active = codes "s" ∷ [] } } }

abbrev numbered : SessionConfig
numbered = record config { run_id = some (codes "r") }

abbrev quiet_chat : ReducerState
quiet_chat = record {
  messages = [];
  run = record {
    run_id = none;
    phase = no_phase;
    status = ready;
    pending_question = none;
    pending_permission = none;
    error = none;
    usage_of = none;
  };
}

is_busy : contains (codes "s") busy.kernel.admission.active ≡ true
unfolding contains ◌==◌
is_busy = refl

abbrev shown : RunState
shown =
    (apply_frames (codes "q")
      (map frame_of
        (translate_all page
          (serve_message uuid registries keys false (post none) (codes "ann") (codes "r") numbered
            busy).1.frames
          new).1)
      quiet_chat).run

rejected_message_streams_example : (shown.phase ≡ streaming) × (shown.status ≡ streams)
rejected_message_streams_example =
    rejected_message_streams uuid registries keys false page (codes "ann") (codes "r") (codes "q")
      (post none) numbered busy quiet_chat is_busy refl

abbrev service : ℕ → Text → Outcome Text
service t jwt = ok (codes "u")

abbrev no_dev : DevEnv
no_dev = record { no_auth = none; dev_owner_id = none }

abbrev header : Option Text
header = some (codes "Bearer abc")

abbrev known : AuthContext
known = record { owner_id = codes "u"; user_jwt = some (codes "abc") }

let_in :
    (auth_pre_handler service no_dev header 10 (auth_all service no_dev ((5, header) ∷ []) [])).1
    ≡ ok known
unfolding auth_pre_handler auth_all resolve_owner_id ask_owner get_bearer_token Map.get Map.set ◌==◌
let_in = refl

owner-IsConfirmed_example :
    (get_bearer_token header ≡ some (codes "abc"))
    × ((until : ℕ) × IsConfirmed service no_dev (codes "abc") (codes "u") until × (10 < until))
owner-IsConfirmed_example =
    owner-IsConfirmed service no_dev ((5, header) ∷ []) header 10 known (codes "abc") let_in refl

abbrev of_bob : SessionState
of_bob = record {
  handle = handle_at 0;
  environment_ref = codes "local";
  runtime_profile = none;
  owner_id = some (codes "bob");
}

abbrev bobs : Kernel
bobs = record idle { sessions = record no_sessions { sessions = (codes "b", of_bob) ∷ [] } }

preview_route_tells_example :
    (get_preview_route (codes "http://h") (codes "b") (codes "ann") bobs
      ≡ fails 404 (codes "session not found"))
    × (get_preview_route (codes "http://h") (codes "x") (codes "ann") bobs
        ≡ sends (record { url = none; static_url = none }))
unfolding Map.get ◌==◌ crosses_owner
preview_route_tells_example =
    preview_route_tells (codes "http://h") (codes "ann") (codes "b") (codes "x") bobs
      (of_bob, refl, refl) refl refl
