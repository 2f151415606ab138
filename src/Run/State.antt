-- ===== src/Run/State.antt =====
-- The materialized view of a run (packages/engine/src/events.ts, `RunState` and its parts, and
-- `NodeStatus` of packages/core/src/types.ts).
use anastom.Prelude.{ℕ, String, Bool, true, false, List, Option, Dict}
use anastom.Json.{JsonValue}
use anastom.Contract.{
  ArtifactRef, CommandReport, ExecutionFailure, ExecutionPlanRef, PersistedExecutionRef,
  ResultStatus, RuntimeDescriptor, RuntimeMetadata, RuntimeNegotiation, RuntimeUsage,
  WorkspaceCheckpoint, WorkspaceDifference, WorkspaceRef,
}

pub data RunStatus : Type 0 where
  running blocked succeeded failed paused cancelled recovery_blocked : RunStatus

pub data NodeStatus : Type 0 where
  pending ready running blocked succeeded failed paused cancelled : NodeStatus

pub data AttemptStatus : Type 0 where
  scheduled prepared running orphaned blocked succeeded failed cancelled : AttemptStatus

-- `===` on the three enumerations.
abbrev pub run_status_eq : RunStatus → RunStatus → Bool
run_status_eq RunStatus.running RunStatus.running = true
run_status_eq RunStatus.blocked RunStatus.blocked = true
run_status_eq RunStatus.succeeded RunStatus.succeeded = true
run_status_eq RunStatus.failed RunStatus.failed = true
run_status_eq RunStatus.paused RunStatus.paused = true
run_status_eq RunStatus.cancelled RunStatus.cancelled = true
run_status_eq RunStatus.recovery_blocked RunStatus.recovery_blocked = true
run_status_eq _ _ = false

abbrev pub node_status_eq : NodeStatus → NodeStatus → Bool
node_status_eq NodeStatus.pending NodeStatus.pending = true
node_status_eq NodeStatus.ready NodeStatus.ready = true
node_status_eq NodeStatus.running NodeStatus.running = true
node_status_eq NodeStatus.blocked NodeStatus.blocked = true
node_status_eq NodeStatus.succeeded NodeStatus.succeeded = true
node_status_eq NodeStatus.failed NodeStatus.failed = true
node_status_eq NodeStatus.paused NodeStatus.paused = true
node_status_eq NodeStatus.cancelled NodeStatus.cancelled = true
node_status_eq _ _ = false

abbrev pub attempt_status_eq : AttemptStatus → AttemptStatus → Bool
attempt_status_eq AttemptStatus.scheduled AttemptStatus.scheduled = true
attempt_status_eq AttemptStatus.prepared AttemptStatus.prepared = true
attempt_status_eq AttemptStatus.running AttemptStatus.running = true
attempt_status_eq AttemptStatus.orphaned AttemptStatus.orphaned = true
attempt_status_eq AttemptStatus.blocked AttemptStatus.blocked = true
attempt_status_eq AttemptStatus.succeeded AttemptStatus.succeeded = true
attempt_status_eq AttemptStatus.failed AttemptStatus.failed = true
attempt_status_eq AttemptStatus.cancelled AttemptStatus.cancelled = true
attempt_status_eq _ _ = false

pub data BlockDetail : Type 0 where
  invalid_record identity_mismatch boot_mismatch : BlockDetail
  supervisor_unreachable supervisor_lost cleanup_unconfirmed : BlockDetail

pub data RecoveryBlockReason : Type 0 where
  execution_unknown : (execution_id : String) → (detail : BlockDetail) → RecoveryBlockReason
  cleanup_unknown : (execution_id : String) → RecoveryBlockReason

pub data PauseReason : Type 0 where
  operator : (operation_id : String) → PauseReason
  workspace_conflict : (differences : List WorkspaceDifference) → PauseReason
  attempt_budget_exhausted : (node_id : String) → (attempts : ℕ) → PauseReason
  runtime_unavailable : (runtime_id : String) → PauseReason
  policy_violation : (runtime_id : String) → PauseReason

pub data CancellationOutcome : Type 0 where
  succeeded failed unavailable : CancellationOutcome

pub record Timeout : Type 0 where
  pub cancellation : Option CancellationOutcome
  pub late_status : Option ResultStatus

pub data CleanupCause : Type 0 where
  pause cancel timeout recovery : CleanupCause

abbrev pub cleanup_cause_eq : CleanupCause → CleanupCause → Bool
cleanup_cause_eq CleanupCause.pause CleanupCause.pause = true
cleanup_cause_eq CleanupCause.cancel CleanupCause.cancel = true
cleanup_cause_eq CleanupCause.timeout CleanupCause.timeout = true
cleanup_cause_eq CleanupCause.recovery CleanupCause.recovery = true
cleanup_cause_eq _ _ = false

pub data CleanupOutcome : Type 0 where
  confirmed unknown : CleanupOutcome

pub record CleanupRecord : Type 0 where
  pub execution_id : String
  pub cause : CleanupCause
  pub outcome : CleanupOutcome

pub data OrphanReason : Type 0 where
  coordinator_lost launch_interrupted : OrphanReason

pub record Orphan : Type 0 where
  pub execution_id : String
  pub lost_generation : ℕ
  pub reason : OrphanReason
  pub workspace_observation : WorkspaceCheckpoint
  pub workspace_differences : List WorkspaceDifference
  pub terminal_artifact_id : Option String

pub record AttemptState : Type 0 where
  pub number : ℕ
  pub runtime_id : String
  pub status : AttemptStatus
  pub failure : Option ExecutionFailure
  pub identity : Option (List RuntimeMetadata)
  pub usage : Option RuntimeUsage
  pub timeout : Option Timeout
  pub execution_plan : Option ExecutionPlanRef
  pub execution : Option PersistedExecutionRef
  pub workspace_checkpoint : Option WorkspaceCheckpoint
  pub cleanup : Option (List CleanupRecord)
  pub orphan : Option Orphan

pub record NodeRunState : Type 0 where
  pub id : String
  pub status : NodeStatus
  pub attempts : List AttemptState
  pub output : Option JsonValue
  pub failure : Option ExecutionFailure
  pub blocked_reason : Option String
  pub command : Option CommandReport
  pub pause_reason : Option PauseReason

pub record RecoveryBlock : Type 0 where
  pub operation_id : String
  pub reason : RecoveryBlockReason

pub record WorkspaceObservation : Type 0 where
  pub head_commit : String
  pub changed_files : List String
  pub diff_artifact_id : String

pub record RunState : Type 0 where
  pub run_id : String
  pub workflow_instance_id : String
  pub workflow_id : String
  pub workflow_version : String
  pub status : RunStatus
  pub sequence : ℕ
  pub inputs : Dict JsonValue
  pub nodes : Dict NodeRunState
  pub workspace : Option WorkspaceRef
  pub runtime_negotiation : Option RuntimeNegotiation
  pub runtime_descriptor : Option RuntimeDescriptor
  pub pause_reason : Option PauseReason
  pub recovery_block : Option RecoveryBlock
  pub artifacts : Option (List ArtifactRef)
  pub workspace_observation : Option WorkspaceObservation
