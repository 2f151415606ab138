-- ===== src/Lib.antt =====
-- The durable run control plane of anastom.
--
-- A run is an event history. The reducer (packages/engine/src/events.ts) rebuilds the materialized
-- state from it and refuses contradictory events; everything else appends events.
--
-- Modules and the code that they model:
--
-- - Prelude: shared notation, results with `do`, lists, dictionaries as association lists.
-- - Json: JSON values (packages/core/src/types.ts).
-- - Canonical: `canonicalJson` (packages/core/src/canonical.ts) over JSON values; `quote` and `before`
--   stand for the language's printing of one text and its order of texts. The digests of the store
--   take their texts as parameters and do not depend on it. Canonical.Order: such an order.
--   Canonical.Reordering: its independence of the order of insertion. Canonical.Tests: concrete values.
-- - Contract: the evidence that events carry (packages/runtime-contract/src/index.ts,
--   packages/engine/src/execution-host.ts, packages/engine/src/command.ts).
-- - Run.State, Run.Event: `RunState` and `RunEventPayload` of packages/engine/src/events.ts.
-- - Run.Guards, Run.Observations, Run.Attempts, Run.Nodes, Run.Lifecycle: its transition families.
--   A `throw` is `err` with one constructor for each message. `structuredClone` and the mutation
--   of the clone are functional updates; a write through the object that `requireNode` returned is
--   `put_node`.
-- - Run.Reducer: `applyRunEvent`, `replayRun`, `materializeEvents` (`apply_run_event`,
--   `replay_run`, `materialize_events`). The compiled event validators are the parameter
--   `accepts`.
-- - Run.Wellformed, Run.Validity, Run.Preservation, Run.Invariant, Run.Frame,
--   Run.Continuity, Run.Graph, Run.RunGraph, Run.History, Run.Extension: what the reducer keeps. Run.Tests: a concrete run.
-- - Workflow.Definition, Workflow.Scheduler: `WorkflowDefinition` (packages/core/src/types.ts) and
--   `findExecutableNodes`, `findReadyNodes` (packages/engine/src/scheduler.ts).
--   Workflow.Selection: what they select. Workflow.Tests: a concrete workflow.
-- - Workflow.Document, Workflow.Search, Workflow.Semantics: the authored document
--   (packages/core/src/types.ts) and `assertSemanticValidity` (packages/core/src/workflow.ts) with
--   its recursive search for cycles. Workflow.Durations, Workflow.Normalization: `normalizeWorkflow`
--   of the same file (Workflow.DurationTexts: what a duration text means), where `read_schema` stands for schema files and the schema compiler, and the
--   source path is already resolved. Workflow.Visits, Workflow.Acyclic, Workflow.Visiting,
--   Workflow.Cycles, Workflow.Validity: what the validation accepts. Workflow.Progress: what it
--   means for the scheduler. Workflow.DocumentTests: a concrete document.
-- - Engine.Persistence: `InMemoryRunPersistence` (packages/engine/src/persistence.ts). Engine.Context:
--   `buildContext` (packages/engine/src/context.ts).
-- - Engine.Actions, Engine.Outside, Engine.Runtime, Engine.Attempt, Engine.Finish, Engine.Tick,
--   Engine.Creation: `WorkflowEngine` (packages/engine/src/engine.ts). A statement of an attempt is a
--   function on `Progress`, the stored runs and the local variables, that returns or throws and
--   keeps what was written. `Outside` holds the runtime, the command executor, the artifact store,
--   the workspace capture, the compiled validators and the printers. The race between an execution
--   and its deadline is an `Execution`: the events before it settles or expires, and how it ends.
--   Engine.Keeping, Engine.Running, Engine.Advancing: what a step keeps. Engine.Committed,
--   Engine.Outcomes: what it decides. Engine.Starting, Engine.Inputs: creation. Engine.Storage: the
--   storage. Engine.Tests: a concrete run.
-- - Protocol.Frames: `encodeFrame`, `decodeFrame` and `FrameDecoder`
--   (packages/execution-host/src/protocol.ts) over lists of bytes; canonical JSON and its parser are
--   the parameter `codec`. Protocol.Splits, Protocol.Draining, Protocol.RoundTrip, Protocol.Limits: what the decoder
--   does with a stream of chunks. Protocol.Readers: `readEndedFrame` and `readInitialFrame` over the
--   events of a stream. Protocol.Tests: a concrete stream.
-- - Store.Types, Store.Checks, Store.Snapshots, Store.Leases, Store.Commits: the durable store
--   (packages/engine/src/durable-store.ts), its records, validators, snapshots and the operations
--   of `InMemoryDurableRunStore` on one run: `acquire_released`, `takeover_expired`, `renew`,
--   `release`, `commit`, `submit_control`. The clock's time is an argument of each call. `Host`
--   holds the compiled validators, the parser of JSON text, SHA-256, `isDeepStrictEqual` on states,
--   and the texts that `canonicalJson` (packages/core/src/canonical.ts) prints for states and events,
--   of which nothing is assumed. Texts that the code compares as digests are compared as texts.
-- - Store.Operations: these operations in any sequence (`perform_all`), without the validation of
--   their inputs, so that what holds of them holds of the validated ones. Store.Steps,
--   Store.Writes, Store.Succession, Store.Fencing, Store.Terms, Store.Tenure,
--   Store.Idempotence, Store.Histories: what they keep. Store.Tests: a concrete stored run.
-- - Store.Runs: the map of all runs, `create_owned`, and each operation behind its validation.
--   Store.Creation: what a creation leaves. Store.Loading: `load` and `snapshotCompatible`.
--   Store.Restoration: what a load answers. Store.Controls: `pendingControls`,
--   where the order of texts is a parameter. Store.Listing: what it returns. Store.CreationTests:
--   a concrete creation.
--
-- - Task.Markdown, Task.Compilation: task files and their workflow (packages/core/src/task.ts);
--   `read_front` stands for the YAML parser and the compiled schema. Task.Tests: a concrete task.
-- - Workspace.Paths: `resolveExistingChild` (packages/path-policy/src/index.ts) over any file system.
--   Workspace.Comparison: `compareWorkspaceCheckpoints` (packages/workspaces/src/checkpoint.ts).
--   Workspace.Output: the output that `LocalCommandExecutor` retains
--   (packages/engine/src/command.ts). Workspace.Tests: concrete values.
--
-- JavaScript objects with text keys are association lists in insertion order (the order of keys
-- that look like integers is not modelled: only the search for the owner of a blocked execution
-- walks the nodes in order and stops at the first). Optional properties are `Option`. Loops of the
-- source are recursions on lists, but for three. The search for cycles (`visit`) runs on one more unit
-- of fuel than the document has nodes, since its path repeats none; the loop of `FrameDecoder.push`
-- (`drain`) on as many as there are bytes, since each round takes at least five; the search for the
-- end of front matter (`find_closing`) on the length of the text, since each round takes a newline.
--
-- Not modelled: run-time checks that a value has its declared type; paths that are not POSIX paths;
-- an observation that fails while the deadline of its attempt expires; the loop of the engine over its
-- steps; the durable coordinator and the SQLite store; file, process, socket and database access, the runtime adapters,
-- the command line and the repository scripts.
pub mod Prelude
pub mod Json
pub mod Contract
pub mod Run
pub mod Canonical
pub mod Engine
pub mod Protocol
pub mod Store
pub mod Task
pub mod Workflow
pub mod Workspace
