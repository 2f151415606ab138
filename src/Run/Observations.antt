-- ===== src/Run/Observations.antt =====
-- `applyObservationEvent`, `applyTimeoutEvent` and `applyOperationalEvent` of
-- packages/engine/src/events.ts. A transition of one node is a function of that node, which `at_node`
-- applies to the run.
use anastom.Prelude.{
  ℕ, String, Bool, true, not, ◌&&◌, List, [], ◌∷◌, ◌++◌, Option, none, some, ok, ◌>>=◌, ◌>>◌, guard,
  or_throw, any, ◌==◌, number_equality, text_equality, if◌then◌else◌,
}
use anastom.Contract.{ArtifactRef, CommandReport, WorkspaceRef}
use anastom.Run.State.{
  AttemptState, AttemptStatus, CleanupRecord, NodeRunState, NodeStatus, RunState, RunStatus,
  Timeout, cleanup_cause_eq, node_status_eq, run_status_eq,
}
use anastom.Run.Event.{
  ObservationEvent, workspace_assigned, artifact_produced, workspace_observed, command_completed,
  TimeoutEvent, attempt_timeout_requested, attempt_cancellation_completed, late_result_observed,
  OperationalEvent, control_request_observed, execution_cleanup_observed, CleanupObservation,
}
use anastom.Run.Guards.{
  TransitionError, Checked, require_node, require_node_status, current_attempt,
  require_current_attempt, put_attempt, at_node, some_artifact, has_artifact_id,
  includes_attempt_status,
}

-- `x !== undefined`, which for objects and enumerated texts is also truthiness.
abbrev pub is_set : {A : Type 0} → Option A → Bool
is_set none = Bool.false
is_set (some a) = true

-- The checks of `ArtifactProduced` on its node: a running attempt, or one about to start.
unfoldable pub check_producing : ℕ → NodeRunState → Checked NodeRunState
check_producing attempt node = do
  require_node_status node (NodeStatus.ready ∷ NodeStatus.running ∷ [])
  current ←
      if node_status_eq node.status NodeStatus.running
      then require_current_attempt node attempt AttemptStatus.running
      else current_attempt node
          (λ a.
            a.number == attempt
            && includes_attempt_status (AttemptStatus.scheduled ∷ AttemptStatus.prepared ∷ [])
                a.status)
          TransitionError.pre_start_artifact
  ok node

abbrev is_producer : RunState → String → ℕ → ArtifactRef → Bool
is_producer s node_id attempt artifact =
    artifact.producer.run_id == s.run_id
    && artifact.producer.node_id == node_id
    && artifact.producer.attempt == attempt

-- `(artifacts ??= []).push(artifact)`.
abbrev push_artifact : Option (List ArtifactRef) → ArtifactRef → Option (List ArtifactRef)
push_artifact none artifact = some (artifact ∷ [])
push_artifact (some artifacts) artifact = some (artifacts ++ artifact ∷ [])

unfoldable pub set_command : ℕ → CommandReport → NodeRunState → Checked NodeRunState
set_command attempt output node = do
  current ← require_current_attempt node attempt AttemptStatus.running
  ok (record node { command = some output })

assign_workspace : RunState → WorkspaceRef → Checked RunState
assign_workspace s workspace = do
  guard (run_status_eq s.status RunStatus.running && not (is_set s.workspace))
      TransitionError.workspace_assigned_twice
  ok (record s { workspace = some workspace })

unfoldable pub apply_observation_event : RunState → ObservationEvent → Checked RunState
unfolding assign_workspace set_command check_producing
apply_observation_event s (workspace_assigned workspace) = assign_workspace s workspace
apply_observation_event s (artifact_produced node_id attempt artifact) = do
  node ← require_node s node_id
  checked ← check_producing attempt node
  guard (is_producer s node_id attempt artifact) TransitionError.producer_mismatch
  ok (record s { artifacts = push_artifact s.artifacts artifact })
apply_observation_event s (workspace_observed node_id attempt head_commit changed_files diff) = do
  node ← require_node s node_id
  current ← require_current_attempt node attempt AttemptStatus.running
  guard (some_artifact s (has_artifact_id (some diff))) TransitionError.diff_missing
  ok (record s {
    workspace_observation = some (record {
      head_commit = head_commit;
      changed_files = changed_files;
      diff_artifact_id = diff;
    });
  })
apply_observation_event s (command_completed node_id attempt output) =
    at_node s node_id (set_command attempt output)

-- The node that a timeout event names.
abbrev pub timeout_node : TimeoutEvent → String
timeout_node (attempt_timeout_requested node_id _) = node_id
timeout_node (attempt_cancellation_completed node_id _ _) = node_id
timeout_node (late_result_observed node_id _ _) = node_id

-- The timeout of an attempt whose cancellation is pending, or has completed with no late result.
abbrev pending_timeout : Option Timeout → Option Timeout
pending_timeout none = none
pending_timeout (some t) = if is_set t.cancellation then none else some t

abbrev completed_timeout : Option Timeout → Option Timeout
completed_timeout none = none
completed_timeout (some t) =
    if is_set t.cancellation && not (is_set t.late_status) then some t else none

unfoldable pub timeout_step : TimeoutEvent → NodeRunState → Checked NodeRunState
timeout_step (attempt_timeout_requested node_id attempt) node = do
  require_node_status node (NodeStatus.running ∷ [])
  current ← require_current_attempt node attempt AttemptStatus.running
  guard (not (is_set current.timeout)) TransitionError.timeout_requested_twice
  ok (
      put_attempt node
        (record current { timeout = some (record { cancellation = none; late_status = none }) }))
timeout_step (attempt_cancellation_completed node_id attempt outcome) node = do
  current ← require_current_attempt node attempt AttemptStatus.running
  t ← or_throw (pending_timeout current.timeout) TransitionError.no_pending_timeout
  ok (
      put_attempt node
        (record current { timeout = some (record t { cancellation = some outcome }) }))
timeout_step (late_result_observed node_id attempt status) node = do
  current ← require_current_attempt node attempt AttemptStatus.running
  t ← or_throw (completed_timeout current.timeout) TransitionError.no_completed_cancellation
  ok (put_attempt node (record current { timeout = some (record t { late_status = some status }) }))

unfoldable pub apply_timeout_event : RunState → TimeoutEvent → Checked RunState
unfolding timeout_step
apply_timeout_event s e = at_node s (timeout_node e) (timeout_step e)

-- `attempt.executionPlan?.executionId === executionId`.
abbrev pub plans_execution : AttemptState → String → Bool
plans_execution a execution_id = elim a.execution_plan [
  | none ↦ Bool.false
  | some p ↦ p.execution_id == execution_id
]

abbrev cleanup_records : Option (List CleanupRecord) → List CleanupRecord
cleanup_records none = []
cleanup_records (some records) = records

-- `(cleanup ??= []).push({ executionId, cause, outcome })`.
abbrev pub pushed_cleanup : CleanupObservation → AttemptState → List CleanupRecord
pushed_cleanup c current =
    cleanup_records current.cleanup
    ++ record { execution_id = c.execution_id; cause = c.cause; outcome = c.outcome } ∷ []

unfoldable pub cleanup_step : CleanupObservation → NodeRunState → Checked NodeRunState
cleanup_step c node = do
  current ←
      current_attempt node
        (λ a.
          a.number == c.attempt
          && includes_attempt_status
              (AttemptStatus.prepared ∷ AttemptStatus.running ∷ AttemptStatus.orphaned ∷ [])
              a.status
          && plans_execution a c.execution_id)
        TransitionError.not_owned_execution
  guard
      (not (
        any (λ r. r.execution_id == c.execution_id && cleanup_cause_eq r.cause c.cause)
          (cleanup_records current.cleanup)))
      TransitionError.cleanup_recorded_twice
  ok (put_attempt node (record current { cleanup = some (pushed_cleanup c current) }))

unfoldable pub apply_operational_event : RunState → OperationalEvent → Checked RunState
unfolding cleanup_step
apply_operational_event s (control_request_observed _ _ _) = ok s
apply_operational_event s (execution_cleanup_observed c) = at_node s c.node_id (cleanup_step c)
