-- ===== src/Run/Guards.antt =====
-- The lookups and guards that the transitions share (packages/engine/src/events.ts).
use anastom.Prelude.{
  ℕ, String, Bool, false, not, ◌&&◌, List, Option, none, some, Result, ok, ◌>>=◌, ◌>>◌, guard,
  or_throw, lookup, insert, any, get_last?, set_last, ◌==◌, number_equality, text_equality,
}
use anastom.Contract.{ArtifactRef}
use anastom.Run.State.{
  AttemptState, AttemptStatus, NodeRunState, NodeStatus, RunState, attempt_status_eq,
  node_status_eq,
}

-- One constructor for each message of an `InvalidTransitionError`; `corrupt_event` is the error of
-- `assertRunEvent`.
pub data TransitionError : Type 0 where
  corrupt_event first_event run_mismatch sequence_mismatch repeated_creation : TransitionError
  terminal_run empty_stream empty_transition : TransitionError
  configured_late negotiation_mismatch negotiated_late configuration_mismatch : TransitionError
  unknown_node node_status_invalid not_current_attempt : TransitionError
  workspace_assigned_twice pre_start_artifact producer_mismatch diff_missing : TransitionError
  timeout_requested_twice no_pending_timeout no_completed_cancellation : TransitionError
  not_owned_execution cleanup_recorded_twice : TransitionError
  attempt_number runtime_mismatch needs_authorization usage_twice : TransitionError
  timed_out_succeeds timed_out_fails timed_out_blocks timed_out_cancels : TransitionError
  prepared_evidence prepared_runtime prepared_diff plan_mismatch : TransitionError
  orphan_evidence orphan_terminal orphan_diff : TransitionError
  no_failed_attempt no_orphaned_attempt pause_while_active cancel_while_active : TransitionError
  run_status_invalid nodes_not_cancelled nodes_not_succeeded no_failed_node : TransitionError
  nodes_still_running recovery_incomplete no_owned_execution no_unknown_cleanup : TransitionError

-- `T | throws`.
abbrev pub Checked : Type 0 → Type 0
Checked A = Result TransitionError A

abbrev pub require_node : RunState → String → Checked NodeRunState
require_node s node_id = or_throw (lookup node_id s.nodes) TransitionError.unknown_node

-- `allowed.includes(status)`.
abbrev pub includes_node_status : List NodeStatus → NodeStatus → Bool
includes_node_status allowed st = any (node_status_eq st) allowed

abbrev pub includes_attempt_status : List AttemptStatus → AttemptStatus → Bool
includes_attempt_status allowed st = any (attempt_status_eq st) allowed

abbrev pub require_node_status : NodeRunState → List NodeStatus → Checked (Unit {0})
require_node_status node allowed =
    guard (includes_node_status allowed node.status) TransitionError.node_status_invalid

-- The attempt that `check` accepts as the current one.
abbrev pub current_attempt :
    NodeRunState → (AttemptState → Bool) → TransitionError → Checked AttemptState
current_attempt node check e = do
  current ← or_throw (get_last? node.attempts) e
  guard (check current) e
  ok current

abbrev pub require_current_attempt : NodeRunState → ℕ → AttemptStatus → Checked AttemptState
require_current_attempt node attempt status =
    current_attempt node
      (λ current. current.number == attempt && attempt_status_eq current.status status)
      TransitionError.not_current_attempt

-- A write through the object that `requireCurrentAttempt` returned.
abbrev pub put_attempt : NodeRunState → AttemptState → NodeRunState
put_attempt node attempt = record node { attempts = set_last node.attempts attempt }

-- A write through the object that `requireNode` returned.
abbrev pub put_node : RunState → String → NodeRunState → RunState
put_node s node_id node = record s { nodes = insert node_id node s.nodes }

-- `requireNode`, then statements that check and change the node.
unfoldable pub at_node :
    RunState → String → (NodeRunState → Checked NodeRunState) → Checked RunState
at_node s node_id change = do
  node ← require_node s node_id
  node' ← change node
  ok (put_node s node_id node')

-- A text property that is absent or empty is falsy.
abbrev pub is_truthy : Option String → Bool
is_truthy none = false
is_truthy (some t) = not (t == "")

-- `artifacts?.some(p)`.
abbrev pub some_artifact : RunState → (ArtifactRef → Bool) → Bool
some_artifact s p = elim s.artifacts [ none ↦ false | some artifacts ↦ any p artifacts ]

-- The artifact `id` as produced by the given attempt of this run.
abbrev pub is_produced_by : RunState → String → ℕ → Option String → ArtifactRef → Bool
is_produced_by s node_id attempt none artifact = false
is_produced_by s node_id attempt (some i) artifact =
    artifact.id == i
    && artifact.producer.run_id == s.run_id
    && artifact.producer.node_id == node_id
    && artifact.producer.attempt == attempt

abbrev pub has_artifact_id : Option String → ArtifactRef → Bool
has_artifact_id none artifact = false
has_artifact_id (some i) artifact = artifact.id == i
