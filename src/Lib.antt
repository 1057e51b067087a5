-- ===== src/Lib.antt =====
-- A model of the kernel of the modular agentic system, in TypeScript, and of its nearest
-- neighbours, with proofs of what it does. The kernel joins harnesses (agents) and environments
-- (sandboxes), which are adapters behind interfaces.
--
-- How the parts interact. A message comes to the facade (Kernel). Admission lets one run at a
-- time into a session. The session manager (Session) finds the session's workspace: the one it
-- has, a warm one from the pool (Prewarm), or a new one from an environment that the registry
-- (Registry) knows. The orchestrator (Orchestrator) picks a topology (Topology), resolves the
-- tools and skills into a kit, and runs the harness, whose events go through the settlement
-- (Settlement) and the preview state (Preview) to the caller's sink. A router harness may hand
-- sub-tasks to the kernel's delegator, which runs the orchestrator again in a child session, up
-- to a depth. The server (Server) asks the kernel on behalf of an authenticated owner. Outside
-- the kernel, the stream is translated for the chat (Translator, then Chat and RunReducer) and
-- kept (Persistence, Memory). Durable previews are stored and served from disk (Snapshot), and
-- the canvas reads tables (Table).
--
-- The files, and the code that each of them is about:
-- - Events: src/types/events.ts: the vocabulary that crosses the seams.
-- - Settlement: src/kernel/settlement.ts: `observe`, `settle`, `snapshot` of class Settlement;
--   Spec and Refine say what the result is of the events alone.
-- - Admission: src/kernel/admission.ts: `admit`, `release` of class Admission; Lock replays
--   histories of calls.
-- - Topology: src/kernel/capabilities.ts: `hostableTopology`, `resolveTopology`; Choice is about
--   what is chosen.
-- - Preview: src/kernel/preview.ts: class PreviewRegistry; Durable replays histories of calls.
-- - Registry: src/registry/index.ts: `createRegistry`: registration, resolution, `buildKit`;
--   Append and Kit are about them.
-- - Environment: src/types/environment.ts: the environment adapter, a parameter: what its
--   `provision` yields, call by call.
-- - Prewarm: src/kernel/prewarmPool.ts: class PrewarmPool with the jobs and timers that the event
--   loop keeps for it, Identity its keys; Key, Counts, Steps and Target are about it.
-- - Session: src/kernel/session.ts: class SessionManager (`end` is `finish`); Owner, Loop, Race,
--   Accounted, Conserve, Bounded, Thinner and Capacity are about it.
-- - Harness: src/types/harness.ts: the harness adapter, a parameter: what its `run` does with the
--   kernel is a tree of events and delegations.
-- - Orchestrator: src/kernel/orchestrator.ts: `run` of class Orchestrator, with and without a
--   context (`run_router`, `run_leaf`); Stream, World, Leaf and Kits are about it.
-- - Kernel: src/kernel/index.ts: class Kernel: Delegation is `buildRunContext`, Narration and Run
--   are `runMessage` and `endSession`; Brackets, Nesting, Overlap, Rollup, Texts, Message,
--   Settles, Ending, Lean and Serving are about them.
-- - Translator: apps/next/src/core/kernelTranslator.ts: `createKernelTranslator`; Translator/Wire
--   is apps/next/src/core/kernelEvents.ts and the frames of src/server/sse.ts; Totals is about
--   whole streams, and Nesting has the names of the sub-runs in them.
-- - Adapter: src/harnesses/_shared/harnessRuntime.ts: the settler, `truncate` and the usage
--   meter; Once and Meter are about them.
-- - Memory: src/server/sessionMemory.ts: `clip`, `buildSummary`, `updateSessionMemory`,
--   `promptWithSessionMemory`; Clip and Turns are about them.
-- - Persistence: src/server/db/persistence.ts: the fold of `onEvent` and the text of `settle`,
--   with `nextSeq`, `levelFor`, `appendRunEvent` and `completeRun` of src/server/db/runStore.ts;
--   Content, Landing and Sequence are about them.
-- - Chat: apps/next/src/features/chat/adapters/streamReducer.ts: `applyFrame` on typed frames
--   (Frame), with the parts of a message (Parts, Tools); Shown, Said, Heard and Phase are about
--   it, the last two together with the translator.
-- - Table: apps/next/src/features/canvas/lib/fileParsing.ts: tables of separated values; Cells is
--   a printed table told without the code, RoundTrip and Rows are about reading; Language is
--   `languageForPath`.
-- - Snapshot: src/kernel/previewSnapshot.ts: class PreviewSnapshotStore, with the disk as a
--   parameter; Archive and ContentType are parts of it, and Accept, Write, Contain, Hash, Serve
--   and RoundTrip are about it, and Posix with its children is Node's `path`, which it stands on.
-- - RunReducer: apps/next/src/features/chat/lib/runReducer.ts: `initialRunState`,
--   `startOptimisticTurn`, `markPermissionDecided`, `reduceRunEvent`; Types is
--   apps/next/src/features/chat/types.ts, Payload and Views are what is read from an event,
--   Updates is what an event does to a row; Calls, Rows, Ends and Late are about them.
-- - Server: src/server/http.ts: the handlers of `/message`, `/warm`, `/prewarm` and of the routes
--   that read (Message, Warm, Routes); Profile is src/profiles/pi.ts and
--   src/harnesses/cli/defaults.ts, RunHistory is src/server/runHistory.ts, Auth is
--   src/server/auth.ts; Defaults, Warmed, Stream, Kept and Confirmed are about them, Stream up to
--   the state of the chat.
-- - Base and its children are shared helpers: JavaScript's maps as association lists in the order
--   of insertion, strings as lists of UTF-16 code units, exceptions as a sum (Outcome).
-- - Examples has concrete values, and the theorems at them.
--
-- State. Each class is a record of its fields, and each method a function from the state to the
-- new state and the result; an exception is a value of Outcome. A handle is its number in the
-- order of making, and the substrate says which handles were destroyed, so that losing a sandbox
-- or using one twice can be said.
--
-- Bounds. There is no fuel. Loops are structural recursion; the delegation depth is the recursion
-- of `delegate` on the room that is left below MAX_DELEGATION_DEPTH, 2; a harness run is a finite
-- tree. Numbers are natural numbers: token counts and prices are non-negative, and costs are in
-- millionths, so that the two prices, 0.000003 and 0.000015, are 3 and 15 and the source's
-- rounding to six digits is exact.
--
-- What is not modelled. The adapters of harnesses, environments and tools are parameters; so are
-- the log lines of an environment adapter, which pass through the kernel unread. Calls run to
-- their end, one after another, but for Session/Race, where calls of `ensureWorkspace` stop at
-- their awaits, and Kernel/Overlap, where the streams of delegator calls interleave; the pool's
-- background provisions and timers are separate inputs in Session/Loop. A harness waits for a
-- delegation to end before it goes on, but for Kernel/Overlap; each of the calls there is one
-- piece of the kernel's state. The clock stands still during a call of the kernel, and the events
-- of a sub-run reach the parent's harness in one piece. The transport, the database, files and
-- the user interface are outside, but for the parts listed above; a file's update of the session
-- memory is one step that succeeds, while each append to the run history may fail or be cut
-- short. A client that goes away in the middle of a run is outside too.
pub mod Base
pub mod Events
pub mod Settlement
pub mod Admission
pub mod Topology
pub mod Preview
pub mod Registry
pub mod Environment
pub mod Prewarm
pub mod Session
pub mod Harness
pub mod Orchestrator
pub mod Kernel
pub mod Translator
pub mod Adapter
pub mod Memory
pub mod Persistence
pub mod Chat
pub mod Table
pub mod Posix
pub mod Snapshot
pub mod RunReducer
pub mod Examples
pub mod Server
