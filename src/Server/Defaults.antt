-- ===== src/Server/Defaults.antt =====
-- What the handlers of src/server/http.ts run when a request leaves it open.
use modular_agentic_system.Base.{
  ℕ, ◌≡◌, ◌≢◌, refl, Bool, true, [], ◌∷◌, ◌++◌, Option, none, some, Text, codes, truthy,
}
use modular_agentic_system.Base.Outcome.{throws}
use modular_agentic_system.Orchestrator.{Registries}
use modular_agentic_system.Server.{Server, MessageBody, WarmBody, PrewarmBody, session_for}
use modular_agentic_system.Server.Message.{post_message}
use modular_agentic_system.Server.Profile.{ProcessEnv, harness_for, environment_for, target_of}
use modular_agentic_system.Server.Warm.{post_warm, post_prewarm}

abbrev pub null_read : Text
null_read = codes "Cannot read properties of null (reading '" ++ codes "environment" ++ codes "')"

target_of_explicit :
    (env : ProcessEnv) (harness : Text)
    → truthy (some harness) ≡ true
    → target_of env (some harness) none ≡ throws null_read
unfolding target_of harness_for environment_for
target_of_explicit env harness h = rw h refl

full : (t : Text) → t ≢ [] → truthy (some t) ≡ true
full [] h = absurd (h refl)
full (x ∷ xs) h = refl

session_for_keeps :
    (uuid : ℕ → Text) (id : Option Text) (owner_id : Text) (s : Server)
    → let s' = (session_for uuid id owner_id s).0 in
      (s'.kernel.sessions ≡ s.kernel.sessions) × (s'.memory ≡ s.memory) × (s'.history ≡ s.history)
unfolding session_for
session_for_keeps uuid none owner_id s = (refl, refl, refl)
session_for_keeps uuid (some id) owner_id s = (refl, refl, refl)

-- A request that names a harness and no environment throws in each of the three handlers, whatever keys the
-- process has: the fallback for the environment is there only when the harness is left open. No workspace is
-- made, and nothing is remembered or kept.
pub explicit_harness_throws :
    (uuid : ℕ → Text) (regs : Registries) (env : ProcessEnv) (database : Bool) (m : MessageBody)
    (w : WarmBody) (p : PrewarmBody) (owner_id harness : Text) (s : Server)
    → harness ≢ []
    → m.harness ≡ some harness
    → m.environment ≡ none
    → w.harness ≡ some harness
    → w.environment ≡ none
    → p.harness ≡ some harness
    → p.environment ≡ none
    → let posted = post_message uuid regs env database m owner_id s in
      let warmed = post_warm uuid regs env w owner_id s in
      (posted.1 ≡ throws null_read)
      × (warmed.1 ≡ throws null_read)
      × (post_prewarm regs env p owner_id s ≡ (s, throws null_read))
      × (posted.0.kernel.sessions ≡ s.kernel.sessions)
      × (posted.0.memory ≡ s.memory)
      × (posted.0.history ≡ s.history)
      × (warmed.0.kernel.sessions ≡ s.kernel.sessions)
unfolding post_message post_warm post_prewarm
explicit_harness_throws uuid regs env database m w p owner_id harness s some_harness mh me wh we ph
      pe =
    let t = target_of_explicit env harness (full harness some_harness) in
    let posted : target_of env m.harness m.environment ≡ throws null_read = rw (mh, me) t in
    let warmed : target_of env w.harness w.environment ≡ throws null_read = rw (wh, we) t in
    let prewarmed : target_of env p.harness p.environment ≡ throws null_read = rw (ph, pe) t in
    let (a, b, c) = session_for_keeps uuid m.session_id owner_id s in
    let (d, _, _) = session_for_keeps uuid w.session_id owner_id s in
    (
      rw (posted, post_message) refl,
      rw (warmed, post_warm) refl,
      rw (prewarmed, post_prewarm) refl,
      rw (posted, post_message) a,
      rw (posted, post_message) b,
      rw (posted, post_message) c,
      rw (warmed, post_warm) d,
    )
