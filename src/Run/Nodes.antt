-- ===== src/Run/Nodes.antt =====
-- `applyNodeEvent` of packages/engine/src/events.ts, as a function of the node that the event names.
use anastom.Prelude.{
  Bool, true, false, not, ◌||◌, List, [], ◌∷◌, Option, none, some, ok, ◌>>=◌, ◌>>◌, guard, length,
  get_last?, if◌then◌else◌,
}
use anastom.Run.State.{
  AttemptStatus, NodeRunState, NodeStatus, PauseReason, RunState, attempt_status_eq, node_status_eq,
}
use anastom.Run.Event.{
  NodeChange, NodeEvent, ReadyReason, node_ready, node_succeeded, node_failed, node_blocked,
  node_paused, node_cancelled,
}
use anastom.Run.Guards.{
  TransitionError, Checked, require_node_status, require_current_attempt, at_node,
}

-- The table `allowed` of `NodeReady`.
abbrev ready_from : ReadyReason → List NodeStatus
ready_from ReadyReason.retry = NodeStatus.running ∷ []
ready_from ReadyReason.resumed = NodeStatus.paused ∷ []
ready_from ReadyReason.recovered = NodeStatus.running ∷ []
ready_from ReadyReason.dependencies_satisfied = NodeStatus.pending ∷ []

-- `node.attempts.at(-1)?.status === status`.
abbrev pub last_is : NodeRunState → AttemptStatus → Bool
last_is node status = elim (get_last? node.attempts) [
  | none ↦ false
  | some a ↦ attempt_status_eq a.status status
]

abbrev is_retry : ReadyReason → Bool
is_retry ReadyReason.retry = true
is_retry _ = false

abbrev is_recovered : ReadyReason → Bool
is_recovered ReadyReason.recovered = true
is_recovered _ = false

-- Not running, or stopped: the last attempt is cancelled or orphaned.
abbrev is_stopped : NodeRunState → Bool
is_stopped node =
    not (node_status_eq node.status NodeStatus.running)
    || (last_is node AttemptStatus.cancelled || last_is node AttemptStatus.orphaned)

unfoldable pub pause_step : Option PauseReason → NodeRunState → Checked NodeRunState
pause_step none node = do
  require_node_status node (NodeStatus.pending ∷ NodeStatus.ready ∷ [])
  ok (record node { status = NodeStatus.paused })
pause_step (some reason) node = do
  require_node_status node (NodeStatus.pending ∷ NodeStatus.ready ∷ NodeStatus.running ∷ [])
  guard (is_stopped node) TransitionError.pause_while_active
  ok (record node { pause_reason = some reason; status = NodeStatus.paused })

-- A running node is blocked only with its last attempt.
abbrev blocks_with_attempt : NodeRunState → Checked (Unit {0})
blocks_with_attempt node =
    if node_status_eq node.status NodeStatus.running
    then (do
      current ← require_current_attempt node (length node.attempts) AttemptStatus.blocked
      ok tt)
    else ok tt

unfoldable pub node_step : NodeChange → NodeRunState → Checked NodeRunState
unfolding pause_step
node_step (node_ready reason) node = do
  require_node_status node (ready_from reason)
  guard (not (is_retry reason) || last_is node AttemptStatus.failed)
      TransitionError.no_failed_attempt
  guard (not (is_recovered reason) || last_is node AttemptStatus.orphaned)
      TransitionError.no_orphaned_attempt
  ok (record node { status = NodeStatus.ready; pause_reason = none })
node_step node_succeeded node = do
  require_node_status node (NodeStatus.running ∷ [])
  current ← require_current_attempt node (length node.attempts) AttemptStatus.succeeded
  ok (record node { status = NodeStatus.succeeded })
node_step (node_failed failure) node = do
  require_node_status node (NodeStatus.running ∷ [])
  current ← require_current_attempt node (length node.attempts) AttemptStatus.failed
  ok (record node { status = NodeStatus.failed; failure = some failure })
node_step (node_blocked reason) node = do
  require_node_status node (NodeStatus.pending ∷ NodeStatus.ready ∷ NodeStatus.running ∷ [])
  blocks_with_attempt node
  ok (record node { status = NodeStatus.blocked; blocked_reason = some reason })
node_step (node_paused reason) node = pause_step reason node
node_step (node_cancelled reason) node = do
  require_node_status node (
      NodeStatus.pending ∷ NodeStatus.ready ∷ NodeStatus.running ∷ NodeStatus.blocked
      ∷ NodeStatus.paused ∷ [])
  guard (is_stopped node) TransitionError.cancel_while_active
  ok (record node { status = NodeStatus.cancelled; blocked_reason = some reason })

unfoldable pub apply_node_event : RunState → NodeEvent → Checked RunState
unfolding node_step
apply_node_event s e = at_node s e.node_id (node_step e.change)
