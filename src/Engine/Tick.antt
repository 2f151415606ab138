-- ===== src/Engine/Tick.antt =====
-- One step of the engine (packages/engine/src/engine.ts, `tick`).
use Prim.Native.String.{◌++◌ as text_append}
use anastom.Prelude.{
  ℕ, ◌+◌, String, Bool, true, false, ◌&&◌, List, [], ◌∷◌, Option, none, some, Result, ok, err,
  lookup, length, if◌then◌else◌,
}
use anastom.Contract.{FailureCategory, WorkspaceRef, memory_workspace}
use anastom.Run.State.{NodeRunState, RunState, RunStatus}
use anastom.Run.Event.{attempt, attempt_scheduled, attempt_started}
use anastom.Run.Lifecycle.{is_run_status}
use anastom.Workflow.Definition.{Mutation, WorkflowDefinition, WorkflowNode}
use anastom.Workflow.Scheduler.{find_ready_nodes}
use anastom.Workflow.Semantics.{is_command}
use anastom.Engine.Persistence.{PersistedRun, PersistedRuns}
use anastom.Engine.Context.{ContextEnvelope, ExecutionRequest, build_context}
use anastom.Engine.Actions.{
  Action, EngineError, Progress, ◌>>=◌, ◌>>◌, attempt_call, commit_next, context, get_result,
  get_state, get_unsafe_to_retry, load_state, node_missing,
}
use anastom.Engine.Outside.{Outside}
use anastom.Engine.Runtime.{failed_with}
use anastom.Engine.Attempt.{execute_attempt}
use anastom.Engine.Finish.{finish_attempt}

abbrev pub workspace_or_memory : RunState → String → WorkspaceRef
workspace_or_memory s run_id = elim s.workspace [
  | none ↦ memory_workspace (text_append run_id ":memory")
  | some workspace ↦ workspace
]

abbrev allows_mutations : Option Mutation → Bool
allows_mutations (some Mutation.isolated) = true
allows_mutations _ = false

abbrev pub execution_request :
    WorkflowNode → RunState → String → String → ℕ → ContextEnvelope → ExecutionRequest
execution_request n s run_id node_id number envelope = record {
  run_id = run_id;
  workflow_instance_id = s.workflow_instance_id;
  node_id = node_id;
  node_kind = n.kind;
  attempt = number;
  role = n.role;
  workspace = envelope.workspace;
  context = envelope;
  budget = envelope.budget;
  required_output_schema = envelope.required_output_schema;
  allow_mutations = allows_mutations n.mutation;
}

abbrev pub first : List String → Option String
first [] = none
first (i ∷ ids) = some i

module _ (o : Outside) where
  abbrev runtime_for : WorkflowNode → String
  runtime_for n = if o.is_worker && is_command n.kind then "command" else o.runtime_id

  -- `executeAttempt`, which does not throw.
  abbrev pub execute : WorkflowNode → ExecutionRequest → Action (Unit {0})
  execute n request = λ q. (execute_attempt o n request (o.context_json request.context) q, ok tt)

  unfoldable pub run_attempt :
      WorkflowDefinition → WorkflowNode → String → String → ℕ → Action (Unit {0})
  run_attempt w n run_id node_id number = do
    commit_next o.accepts run_id (
        attempt (record { node_id = node_id; change = attempt_scheduled number (runtime_for n) })
        ∷ attempt (record { node_id = node_id; change = attempt_started number })
        ∷ [])
    s ← get_state
    envelope ←
        attempt_call context (build_context w s node_id number (workspace_or_memory s run_id) [])
    execute n (execution_request n s run_id node_id number envelope)
    unsafe_to_retry ← get_unsafe_to_retry
    result ← get_result
    finish_attempt o w n run_id node_id number unsafe_to_retry result

  abbrev pub start_of : PersistedRuns → RunState → Progress
  start_of runs s = record {
    runs = runs;
    state = s;
    result = failed_with FailureCategory.unknown_internal "Attempt did not complete";
    unsafe_to_retry = false;
  }

  abbrev pub left_by :
      Progress × Result EngineError (Unit {0}) → PersistedRuns × Result EngineError RunState
  left_by (q, err e) = (q.runs, err e)
  left_by (q, ok done) = (q.runs, ok q.state)

  abbrev pub tick_node :
      PersistedRuns
      → String
      → WorkflowDefinition
      → RunState
      → String
      → Option WorkflowNode
      → Option NodeRunState
      → PersistedRuns × Result EngineError RunState
  tick_node runs run_id w s node_id (some n) (some r) =
      left_by (run_attempt w n run_id node_id (length r.attempts + 1) (start_of runs s))
  tick_node runs run_id w s node_id _ _ = (runs, err (node_missing node_id))

  abbrev pub tick_ready :
      PersistedRuns
      → String
      → WorkflowDefinition
      → RunState
      → Option String
      → PersistedRuns × Result EngineError RunState
  tick_ready runs run_id w s none = (runs, ok s)
  tick_ready runs run_id w s (some node_id) =
      tick_node runs run_id w s node_id (lookup node_id w.nodes) (lookup node_id s.nodes)

  abbrev pub tick_loaded :
      PersistedRuns
      → String
      → Result EngineError (PersistedRun × RunState)
      → PersistedRuns × Result EngineError RunState
  tick_loaded runs run_id (err e) = (runs, err e)
  tick_loaded runs run_id (ok (run, s)) =
      if is_run_status s RunStatus.running
      then tick_ready runs run_id run.workflow s (first (find_ready_nodes run.workflow s))
      else (runs, ok s)

  -- The stored runs afterwards, and the state or the error.
  unfoldable pub tick : PersistedRuns → String → PersistedRuns × Result EngineError RunState
  unfolding run_attempt
  tick runs run_id = tick_loaded runs run_id (load_state o.accepts runs run_id)
