-- ===== src/Run/Wellformed/Nodes.antt =====
-- The transitions of a node, of its timeouts and of its cleanup evidence keep it well-formed.
use anastom.Prelude.{ℕ, true, ◌≡◌, sym, subst, Option, none, some, ok, get_last?, arith}
use anastom.Contract.{CommandReport, ResultStatus, RuntimeDescriptor}
use anastom.Run.State.{CancellationOutcome, Timeout, NodeRunState}
use anastom.Run.Event.{
  NodeChange, ReadyReason, node_ready, node_succeeded, node_failed, node_blocked, node_paused,
  node_cancelled, TimeoutEvent, attempt_timeout_requested, attempt_cancellation_completed,
  late_result_observed, CleanupObservation,
}
use anastom.Run.Observations.{timeout_step, cleanup_step, set_command, pushed_cleanup}
use anastom.Run.Nodes.{node_step}
use anastom.Run.Wellformed.{
  AttemptsValid, NodeValid, agrees, rewritten-NodeValid, status-AttemptsValid,
}

-- A node's own transition keeps the attempts, and its status still agrees with the last of them.
node_step-agrees :
    (c : NodeChange) (node : NodeRunState) {node' : NodeRunState}
    → node_step c node ≡ ok node'
    → agrees node.status (get_last? node.attempts) ≡ true
    → (node'.attempts ≡ node.attempts) × (agrees node'.status (get_last? node.attempts) ≡ true)
unfolding node_step
node_step-agrees (node_ready ReadyReason.retry) node h v = ground arith
node_step-agrees (node_ready ReadyReason.resumed) node h v = ground arith
node_step-agrees (node_ready ReadyReason.recovered) node h v = ground arith
node_step-agrees (node_ready ReadyReason.dependencies_satisfied) node h v = ground arith
node_step-agrees node_succeeded node h v = ground arith
node_step-agrees (node_failed failure) node h v = ground arith
node_step-agrees (node_blocked reason) node h v = ground arith
node_step-agrees (node_paused none) node h v = ground arith
node_step-agrees (node_paused (some reason)) node h v = ground arith
node_step-agrees (node_cancelled reason) node h v = ground arith

pub node_step-NodeValid :
    {d : Option RuntimeDescriptor} (c : NodeChange) (node : NodeRunState) {node' : NodeRunState}
    → node_step c node ≡ ok node'
    → NodeValid d node
    → NodeValid d node'
node_step-NodeValid {d} c node {node'} h v =
    let (same, g) = node_step-agrees c node h v.agreed in
    subst (AttemptsValid d node'.status) (sym same) (status-AttemptsValid v g)

-- The timeout records that the two later timeout events leave.
abbrev pub cancelled_timeout : CancellationOutcome → Option Timeout → Option Timeout
cancelled_timeout outcome none = none
cancelled_timeout outcome (some t) = some (record t { cancellation = some outcome })

abbrev pub late_timeout : ResultStatus → Option Timeout → Option Timeout
late_timeout status none = none
late_timeout status (some t) = some (record t { late_status = some status })

pub timeout_step-NodeValid :
    {d : Option RuntimeDescriptor} (e : TimeoutEvent) (node : NodeRunState) {node' : NodeRunState}
    → timeout_step e node ≡ ok node'
    → NodeValid d node
    → NodeValid d node'
unfolding timeout_step
timeout_step-NodeValid (attempt_timeout_requested _ attempt) node {node'} h =
    rewritten-NodeValid node node'
      (λ a. record a { timeout = some (record { cancellation = none; late_status = none }) })
      (λ e. ground arith) (λ a e p g. ground arith)
timeout_step-NodeValid (attempt_cancellation_completed _ attempt outcome) node {node'} h =
    rewritten-NodeValid node node' (λ a. record a { timeout = cancelled_timeout outcome a.timeout })
      (λ e. ground arith) (λ a e p g. ground arith)
timeout_step-NodeValid (late_result_observed _ attempt status) node {node'} h =
    rewritten-NodeValid node node' (λ a. record a { timeout = late_timeout status a.timeout })
      (λ e. ground arith) (λ a e p g. ground arith)

pub cleanup_step-NodeValid :
    {d : Option RuntimeDescriptor} (c : CleanupObservation) (node : NodeRunState)
    {node' : NodeRunState}
    → cleanup_step c node ≡ ok node'
    → NodeValid d node
    → NodeValid d node'
unfolding cleanup_step
cleanup_step-NodeValid c node {node'} h =
    rewritten-NodeValid node node' (λ a. record a { cleanup = some (pushed_cleanup c a) })
      (λ e. ground arith) (λ a e p g. ground arith)

pub set_command-NodeValid :
    {d : Option RuntimeDescriptor} (attempt : ℕ) (output : CommandReport) (node : NodeRunState)
    {node' : NodeRunState}
    → set_command attempt output node ≡ ok node'
    → NodeValid d node
    → NodeValid d node'
unfolding set_command
set_command-NodeValid attempt output node {node'} h v =
    let e : node'.status ≡ node.status = ground arith in
    let w : node'.attempts ≡ node.attempts = ground arith in rw (e, w) v
