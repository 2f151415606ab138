-- ===== src/Engine/Attempt.antt =====
-- One attempt and its evidence (packages/engine/src/engine.ts, `executeAttempt`).
use anastom.Prelude.{
  String, Bool, true, false, not, ◌&&◌, ◌||◌, List, [], ◌∷◌, Option, none, some, Result, ok, err,
  if◌then◌else◌,
}
use anastom.Contract.{ArtifactRef, FailureCategory, WorkspaceRef, readonly_workspace}
use anastom.Run.Event.{artifact_produced, command_completed, observation, workspace_observed}
use anastom.Workflow.Definition.{CommandDefinition, WorkflowNode}
use anastom.Workflow.Semantics.{is_agent, is_command}
use anastom.Engine.Context.{ExecutionRequest}
use anastom.Engine.Actions.{
  Action, EngineError, ExecutionResult, Progress, ◌>>=◌, ◌>>◌, attempt_call, commit_next,
  get_result, get_unsafe_to_retry, missing_command, outside, return, set_result, throw, do_if,
}
use anastom.Engine.Outside.{ArtifactWrite, CommandExecution, Content, Outside, WorkspaceCapture}
use anastom.Engine.Runtime.{execute_runtime, failed_with}

abbrev is_readonly : WorkspaceRef → Bool
is_readonly (readonly_workspace _ _ _ _) = true
is_readonly _ = false

abbrev is_nonempty : List String → Bool
is_nonempty [] = false
is_nonempty (x ∷ xs) = true

abbrev is_budget_exhausted : ExecutionResult → Bool
is_budget_exhausted (ExecutionResult.failed failure) = elim failure.category [
  | FailureCategory.budget_exhausted ↦ true
  | _ ↦ false
]
is_budget_exhausted _ = false

module _ (o : Outside) (node : WorkflowNode) (request : ExecutionRequest) where
  abbrev pub record_with :
      Option (ArtifactWrite → Result String ArtifactRef)
      → ArtifactWrite
      → Action (Option ArtifactRef)
  record_with none evidence = return none
  record_with (some write) evidence = do
    artifact ← attempt_call outside (write evidence)
    commit_next o.accepts request.run_id
        (observation (artifact_produced request.node_id request.attempt artifact) ∷ [])
    return (some artifact)

  -- `recordArtifact`: without a store nothing is recorded.
  unfoldable pub record_artifact : String → String → Content → Action (Option ArtifactRef)
  record_artifact artifact_type media_type content = record_with o.write_artifact (record {
    run_id = request.run_id;
    node_id = request.node_id;
    attempt = request.attempt;
    artifact_type = artifact_type;
    media_type = media_type;
    content = content;
  })

  abbrev pub is_worker_command : Bool
  is_worker_command = o.is_worker && is_command node.kind

  abbrev command_result : CommandExecution → ExecutionResult
  command_result x = elim x.failure [
    | none ↦ ExecutionResult.succeeded (o.report_value x.output)
    | some failure ↦ ExecutionResult.failed failure
  ]

  unfoldable pub execute_command : CommandDefinition → Action (Unit {0})
  unfolding record_artifact
  execute_command command = do
    x ← attempt_call outside (o.execute_command command request.workspace)
    out ← record_artifact "stdout" "text/plain" (Content.bytes x.stdout)
    errors ← record_artifact "stderr" "text/plain" (Content.bytes x.stderr)
    report ←
        record_artifact "command-result" "application/json" (Content.text (o.report_json x.output))
    commit_next o.accepts request.run_id
        (observation (command_completed request.node_id request.attempt x.output) ∷ [])
    set_result (command_result x)

  abbrev pub report_output : ExecutionResult → Action (Unit {0})
  report_output (ExecutionResult.succeeded output) = do
    report ← record_artifact "worker-report" "application/json" (Content.text (o.value_json output))
    return tt
  report_output _ = return tt

  unfoldable pub execute_worker : Action (Unit {0})
  unfolding record_artifact execute_runtime
  execute_worker = do
    logs ← execute_runtime o request
    artifact ← record_artifact "logs" "text/plain" (Content.bytes logs)
    result ← get_result
    report_output result

  abbrev pub observe_workspace : WorkspaceCapture → Option ArtifactRef → Action (Unit {0})
  observe_workspace c none = return tt
  observe_workspace c (some diff) = commit_next o.accepts request.run_id (
      observation
        (workspace_observed request.node_id request.attempt c.head_commit c.changed_files diff.id)
      ∷ [])

  abbrev captures : Bool → Bool
  captures unsafe_to_retry = not unsafe_to_retry && (is_agent node.kind || is_worker_command)

  unfoldable pub capture : (WorkspaceRef → Result String WorkspaceCapture) → Action (Unit {0})
  unfolding record_artifact
  capture read = do
    c ← attempt_call outside (read request.workspace)
    do_if (is_readonly request.workspace && is_nonempty c.changed_files)
        (set_result (failed_with FailureCategory.policy_violation "Readonly workspace was mutated"))
    diff ← record_artifact "diff" "text/x-diff" (Content.text c.diff)
    observe_workspace c diff

  abbrev pub capture_if_given :
      Option (WorkspaceRef → Result String WorkspaceCapture) → Action (Unit {0})
  capture_if_given none = return tt
  capture_if_given (some read) = do
    unsafe_to_retry ← get_unsafe_to_retry
    do_if (captures unsafe_to_retry) (capture read)

  abbrev pub execute_given : Option CommandDefinition → Action (Unit {0})
  execute_given none = throw missing_command
  execute_given (some command) = execute_command command

  -- The body of the `try`.
  unfoldable pub try_attempt : String → Action (Unit {0})
  unfolding record_artifact execute_command execute_worker capture
  try_attempt context_bytes = do
    artifact ← record_artifact "context" "application/json" (Content.text context_bytes)
    if is_worker_command then execute_given node.command else execute_worker
    capture_if_given o.capture_workspace

  -- The `catch`: the state stays what was committed.
  abbrev pub caught : Progress × Result EngineError (Unit {0}) → Progress
  caught (q, ok done) = q
  caught (q, err e) =
      if is_budget_exhausted q.result
      then q
      else record q { result = failed_with FailureCategory.unknown_internal (o.message_of e) }

  unfoldable pub execute_attempt : String → Progress → Progress
  unfolding try_attempt
  execute_attempt context_bytes q = caught (try_attempt context_bytes q)
