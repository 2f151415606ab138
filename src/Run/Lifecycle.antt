-- ===== src/Run/Lifecycle.antt =====
-- `applyLifecycleEvent` of packages/engine/src/events.ts: transitions of the whole run.
use anastom.Prelude.{
  String, Bool, true, false, not, ◌||◌, ◌&&◌, List, [], ◌∷◌, Option, none, some, ok, ◌>>=◌, ◌>>◌,
  guard, or_throw, any, all, get_last?, values, ◌==◌, text_equality, if◌then◌else◌,
}
use anastom.Run.State.{
  AttemptState, AttemptStatus, CleanupOutcome, CleanupRecord, NodeRunState, NodeStatus, PauseReason,
  RecoveryBlockReason, RunState, RunStatus, execution_unknown, cleanup_unknown, node_status_eq,
  run_status_eq,
}
use anastom.Run.Event.{
  LifecycleEvent, RunOutcome, run_paused, run_resumed, run_recovery_blocked, run_blocked,
  run_cancelled, run_completed,
}
use anastom.Run.Guards.{TransitionError, Checked, includes_node_status}
use anastom.Run.Observations.{is_set, plans_execution}
use anastom.Run.Nodes.{last_is}

-- A guard on the status of the run.
abbrev require_run_status : Bool → Checked (Unit {0})
require_run_status allowed = guard allowed TransitionError.run_status_invalid

abbrev pub is_run_status : RunState → RunStatus → Bool
is_run_status s status = run_status_eq s.status status

abbrev pub is_node_running : NodeRunState → Bool
is_node_running node = node_status_eq node.status NodeStatus.running

abbrev pub is_node_succeeded : NodeRunState → Bool
is_node_succeeded node = node_status_eq node.status NodeStatus.succeeded

abbrev pub is_node_failed : NodeRunState → Bool
is_node_failed node = node_status_eq node.status NodeStatus.failed

abbrev pub is_node_terminal : NodeRunState → Bool
is_node_terminal node =
    includes_node_status (NodeStatus.succeeded ∷ NodeStatus.failed ∷ NodeStatus.cancelled ∷ [])
      node.status

unfoldable pub apply_run_paused : RunState → Option PauseReason → Checked RunState
apply_run_paused s reason = do
  require_run_status (
      is_run_status s RunStatus.running
      || is_set reason && is_run_status s RunStatus.recovery_blocked)
  guard (not (is_set reason && any is_node_running (values s.nodes)))
      TransitionError.nodes_still_running
  ok (elim reason [
    | none ↦ record s { status = RunStatus.paused }
    | some r ↦ record s { status = RunStatus.paused; pause_reason = some r }
  ])

-- An attempt that recovery has not yet made schedulable or paused.
abbrev pub is_unrecovered : NodeRunState → Bool
is_unrecovered node =
    last_is node AttemptStatus.prepared
    || last_is node AttemptStatus.running
    || last_is node AttemptStatus.orphaned
      && not (node_status_eq node.status NodeStatus.ready)
      && not (node_status_eq node.status NodeStatus.paused)

unfoldable pub apply_run_resumed : RunState → Option String → Checked RunState
apply_run_resumed s operation_id = do
  require_run_status (
      is_run_status s RunStatus.paused
      || is_set operation_id && is_run_status s RunStatus.recovery_blocked)
  guard (not (is_run_status s RunStatus.recovery_blocked && any is_unrecovered (values s.nodes)))
      TransitionError.recovery_incomplete
  ok (record s { status = RunStatus.running; pause_reason = none; recovery_block = none })

abbrev pub blocked_execution : RecoveryBlockReason → String
blocked_execution (execution_unknown execution_id _) = execution_id
blocked_execution (cleanup_unknown execution_id) = execution_id

-- The first current attempt that plans the execution, in the order of the nodes.
unfoldable pub find_owner : String → List NodeRunState → Option AttemptState
find_owner execution_id [] = none
find_owner execution_id (node ∷ rest) = elim (get_last? node.attempts) [
  | none ↦ find_owner execution_id rest
  | some a ↦ if plans_execution a execution_id then some a else find_owner execution_id rest
]

abbrev is_unknown : CleanupOutcome → Bool
is_unknown CleanupOutcome.unknown = true
is_unknown CleanupOutcome.confirmed = false

abbrev has_unknown_cleanup : String → Option (List CleanupRecord) → Bool
has_unknown_cleanup execution_id none = false
has_unknown_cleanup execution_id (some records) =
    any (λ r. r.execution_id == execution_id && is_unknown r.outcome) records

abbrev is_cleanup_unknown : RecoveryBlockReason → Bool
is_cleanup_unknown (cleanup_unknown _) = true
is_cleanup_unknown (execution_unknown _ _) = false

unfoldable pub apply_run_recovery_blocked :
    RunState → String → RecoveryBlockReason → Checked RunState
unfolding find_owner
apply_run_recovery_blocked s operation_id reason = do
  require_run_status (
      is_run_status s RunStatus.running
      || is_run_status s RunStatus.paused
      || is_run_status s RunStatus.recovery_blocked)
  owner ←
      or_throw (find_owner (blocked_execution reason) (values s.nodes))
        TransitionError.no_owned_execution
  guard
      (not (is_cleanup_unknown reason)
        || has_unknown_cleanup (blocked_execution reason) owner.cleanup)
      TransitionError.no_unknown_cleanup
  ok (record s {
    status = RunStatus.recovery_blocked;
    recovery_block = some (record { operation_id = operation_id; reason = reason });
  })

unfoldable pub apply_lifecycle_event : RunState → LifecycleEvent → Checked RunState
unfolding apply_run_paused apply_run_resumed apply_run_recovery_blocked
apply_lifecycle_event s (run_paused reason) = apply_run_paused s reason
apply_lifecycle_event s (run_resumed operation_id) = apply_run_resumed s operation_id
apply_lifecycle_event s (run_recovery_blocked operation_id reason) =
    apply_run_recovery_blocked s operation_id reason
apply_lifecycle_event s (run_blocked reason) = do
  require_run_status (is_run_status s RunStatus.running)
  ok (record s { status = RunStatus.blocked })
apply_lifecycle_event s (run_cancelled operation_id reason) = do
  require_run_status (
      is_run_status s RunStatus.running
      || is_run_status s RunStatus.blocked
      || is_run_status s RunStatus.paused
      || is_run_status s RunStatus.recovery_blocked)
  guard (not (is_set operation_id) || all is_node_terminal (values s.nodes))
      TransitionError.nodes_not_cancelled
  ok (record s { status = RunStatus.cancelled })
apply_lifecycle_event s (run_completed RunOutcome.succeeded) = do
  require_run_status (is_run_status s RunStatus.running)
  guard (all is_node_succeeded (values s.nodes)) TransitionError.nodes_not_succeeded
  ok (record s { status = RunStatus.succeeded })
apply_lifecycle_event s (run_completed RunOutcome.failed) = do
  require_run_status (is_run_status s RunStatus.running)
  guard (any is_node_failed (values s.nodes)) TransitionError.no_failed_node
  ok (record s { status = RunStatus.failed })
