-- ===== src/Run/Event.antt =====
-- The event vocabulary (packages/engine/src/events.ts, `RunEventPayload` and `RunEvent`), grouped by
-- the families that the source names with `Extract`. Where the source has two members of one type,
-- with and without a property, the property is an `Option`.
use anastom.Prelude.{ℕ, String, List, Option, Dict}
use anastom.Json.{JsonValue}
use anastom.Contract.{
  ArtifactRef, CommandReport, ExecutionFailure, ExecutionPlanRef, PersistedExecutionRef,
  ResultStatus, RuntimeDescriptor, RuntimeEvent, RuntimeNegotiation, WorkspaceCheckpoint,
  WorkspaceDifference, WorkspaceRef,
}
use anastom.Run.State.{
  CancellationOutcome, CleanupCause, CleanupOutcome, OrphanReason, PauseReason, RecoveryBlockReason,
}

pub record Creation : Type 0 where
  pub workflow_instance_id : String
  pub workflow_id : String
  pub workflow_version : String
  pub node_ids : List String
  pub inputs : Dict JsonValue

pub data ObservationEvent : Type 0 where
  workspace_assigned : WorkspaceRef → ObservationEvent
  artifact_produced :
      (node_id : String) → (attempt : ℕ) → (artifact : ArtifactRef) → ObservationEvent
  workspace_observed :
      (node_id : String)
      → (attempt : ℕ) → (head_commit : String) → (changed_files : List String)
      → (diff_artifact_id : String) → ObservationEvent
  command_completed :
      (node_id : String) → (attempt : ℕ) → (output : CommandReport) → ObservationEvent

pub data TimeoutEvent : Type 0 where
  attempt_timeout_requested : (node_id : String) → (attempt : ℕ) → TimeoutEvent
  attempt_cancellation_completed :
      (node_id : String) → (attempt : ℕ) → (outcome : CancellationOutcome) → TimeoutEvent
  late_result_observed : (node_id : String) → (attempt : ℕ) → (status : ResultStatus) → TimeoutEvent

pub data ControlAction : Type 0 where
  pause cancel : ControlAction

pub record CleanupObservation : Type 0 where
  pub node_id : String
  pub attempt : ℕ
  pub execution_id : String
  pub cause : CleanupCause
  pub outcome : CleanupOutcome

pub data OperationalEvent : Type 0 where
  control_request_observed :
      (operation_id : String) → (action : ControlAction) → (recorded_at_ms : ℕ) → OperationalEvent
  execution_cleanup_observed : CleanupObservation → OperationalEvent

pub record Orphaning : Type 0 where
  pub attempt : ℕ
  pub execution_id : String
  pub lost_generation : ℕ
  pub reason : OrphanReason
  pub workspace_observation : WorkspaceCheckpoint
  pub workspace_differences : List WorkspaceDifference
  pub terminal_artifact_id : Option String

-- What happens to an attempt; the event adds the node's identifier.
pub data AttemptChange : Type 0 where
  attempt_scheduled : (attempt : ℕ) → (runtime_id : String) → AttemptChange
  attempt_prepared :
      (attempt : ℕ)
      → (execution : ExecutionPlanRef) → (workspace_checkpoint : WorkspaceCheckpoint)
      → AttemptChange
  attempt_start_authorized : (attempt : ℕ) → (execution : PersistedExecutionRef) → AttemptChange
  attempt_started : (attempt : ℕ) → AttemptChange
  runtime_event_observed : (attempt : ℕ) → (event : RuntimeEvent) → AttemptChange
  attempt_succeeded : (attempt : ℕ) → (output : JsonValue) → AttemptChange
  attempt_failed : (attempt : ℕ) → (failure : ExecutionFailure) → AttemptChange
  attempt_blocked : (attempt : ℕ) → (reason : String) → AttemptChange
  attempt_cancelled : (attempt : ℕ) → (reason : String) → AttemptChange
  attempt_orphaned : Orphaning → AttemptChange

pub record AttemptEvent : Type 0 where
  pub node_id : String
  pub change : AttemptChange

pub data ReadyReason : Type 0 where
  dependencies_satisfied retry resumed recovered : ReadyReason

-- What happens to a node; the event adds its identifier.
pub data NodeChange : Type 0 where
  node_ready : (reason : ReadyReason) → NodeChange
  node_succeeded : NodeChange
  node_failed : (failure : ExecutionFailure) → NodeChange
  node_blocked : (reason : String) → NodeChange
  node_paused : (reason : Option PauseReason) → NodeChange
  node_cancelled : (reason : String) → NodeChange

pub record NodeEvent : Type 0 where
  pub node_id : String
  pub change : NodeChange

pub data RunOutcome : Type 0 where
  succeeded failed : RunOutcome

pub data LifecycleEvent : Type 0 where
  run_paused : (reason : Option PauseReason) → LifecycleEvent
  run_resumed : (operation_id : Option String) → LifecycleEvent
  run_recovery_blocked : (operation_id : String) → (reason : RecoveryBlockReason) → LifecycleEvent
  run_blocked : (reason : String) → LifecycleEvent
  run_cancelled : (operation_id : Option String) → (reason : String) → LifecycleEvent
  run_completed : (outcome : RunOutcome) → LifecycleEvent

pub data RunEventPayload : Type 0 where
  runtime_negotiated : RuntimeNegotiation → RunEventPayload
  runtime_configured : RuntimeDescriptor → RunEventPayload
  run_created : Creation → RunEventPayload
  observation : ObservationEvent → RunEventPayload
  timeout : TimeoutEvent → RunEventPayload
  operational : OperationalEvent → RunEventPayload
  attempt : AttemptEvent → RunEventPayload
  node : NodeEvent → RunEventPayload
  lifecycle : LifecycleEvent → RunEventPayload

pub record RunEvent : Type 0 where
  pub payload : RunEventPayload
  pub run_id : String
  pub sequence : ℕ
