-- ===== src/Run/Preservation.antt =====
-- Every family of transitions of packages/engine/src/events.ts keeps the invariant.
use anastom.Prelude.{false, ◌≡◌, refl, subst, none, some, ok, arith, ok-injective}
use anastom.Contract.{RuntimeNegotiation}
use anastom.Run.State.{RunState}
use anastom.Run.Event.{
  ObservationEvent, workspace_assigned, artifact_produced, workspace_observed, command_completed,
  TimeoutEvent, OperationalEvent, control_request_observed, execution_cleanup_observed,
  AttemptEvent, NodeEvent, LifecycleEvent, run_paused, run_resumed, run_recovery_blocked,
  run_blocked, run_cancelled, run_completed, RunOutcome, RunEventPayload, runtime_negotiated,
  runtime_configured, run_created, observation, timeout, operational, attempt, node, lifecycle,
}
use anastom.Run.Observations.{
  apply_observation_event, apply_timeout_event, apply_operational_event, set_command, timeout_node,
  timeout_step, cleanup_step,
}
use anastom.Run.Attempts.{apply_attempt_event, attempt_step}
use anastom.Run.Nodes.{apply_node_event, node_step}
use anastom.Run.Lifecycle.{apply_lifecycle_event}
use anastom.Run.Reducer.{negotiate_runtime, dispatch, is_terminal}
use anastom.Run.Wellformed.Attempts.{attempt_step-NodeValid}
use anastom.Run.Wellformed.Nodes.{
  node_step-NodeValid, timeout_step-NodeValid, cleanup_step-NodeValid, set_command-NodeValid,
}
use anastom.Run.Validity.{
  RunValid, at_node-RunValid, configure_runtime-RunValid, same_parts-RunValid,
}

pub apply_observation_event-RunValid :
    (s : RunState) (e : ObservationEvent) {s' : RunState}
    → is_terminal s.status ≡ false
    → apply_observation_event s e ≡ ok s'
    → RunValid s
    → RunValid s'
unfolding apply_observation_event
apply_observation_event-RunValid s (workspace_assigned w) {s'} live h v =
    same_parts-RunValid s s' (ground arith) (ground arith) (ground arith) (ground arith) v
apply_observation_event-RunValid s (artifact_produced node_id number artifact) {s'} live h v =
    same_parts-RunValid s s' (ground arith) (ground arith) (ground arith) (ground arith) v
apply_observation_event-RunValid s (workspace_observed node_id number c f d) {s'} live h v =
    same_parts-RunValid s s' (ground arith) (ground arith) (ground arith) (ground arith) v
apply_observation_event-RunValid s (command_completed node_id number output) live h v =
    at_node-RunValid s node_id (set_command number output)
      (λ n n'. set_command-NodeValid number output n) live h v

pub apply_lifecycle_event-RunValid :
    (s : RunState) (e : LifecycleEvent) {s' : RunState}
    → apply_lifecycle_event s e ≡ ok s'
    → RunValid s
    → RunValid s'
unfolding apply_lifecycle_event
apply_lifecycle_event-RunValid s (run_paused none) {s'} h v =
    same_parts-RunValid s s' (ground arith) (ground arith) (ground arith) (ground arith) v
apply_lifecycle_event-RunValid s (run_paused (some r)) {s'} h v =
    same_parts-RunValid s s' (ground arith) (ground arith) (ground arith) (ground arith) v
apply_lifecycle_event-RunValid s (run_resumed operation_id) {s'} h v =
    same_parts-RunValid s s' (ground arith) (ground arith) (ground arith) (ground arith) v
apply_lifecycle_event-RunValid s (run_recovery_blocked operation_id reason) {s'} h v =
    same_parts-RunValid s s' (ground arith) (ground arith) (ground arith) (ground arith) v
apply_lifecycle_event-RunValid s (run_blocked reason) {s'} h v =
    same_parts-RunValid s s' (ground arith) (ground arith) (ground arith) (ground arith) v
apply_lifecycle_event-RunValid s (run_cancelled operation_id reason) {s'} h v =
    same_parts-RunValid s s' (ground arith) (ground arith) (ground arith) (ground arith) v
apply_lifecycle_event-RunValid s (run_completed RunOutcome.succeeded) {s'} h v =
    same_parts-RunValid s s' (ground arith) (ground arith) (ground arith) (ground arith) v
apply_lifecycle_event-RunValid s (run_completed RunOutcome.failed) {s'} h v =
    same_parts-RunValid s s' (ground arith) (ground arith) (ground arith) (ground arith) v

pub negotiate_runtime-RunValid :
    (s : RunState) (n : RuntimeNegotiation) {s' : RunState}
    → negotiate_runtime s n ≡ ok s'
    → RunValid s
    → RunValid s'
unfolding negotiate_runtime
negotiate_runtime-RunValid s n {s'} h v =
    same_parts-RunValid s s' (ground arith) (ground arith) (ground arith) (ground arith) v

pub apply_timeout_event-RunValid :
    (s : RunState) (e : TimeoutEvent) {s' : RunState}
    → is_terminal s.status ≡ false
    → apply_timeout_event s e ≡ ok s'
    → RunValid s
    → RunValid s'
unfolding apply_timeout_event
apply_timeout_event-RunValid s e =
    at_node-RunValid s (timeout_node e) (timeout_step e) (λ n n'. timeout_step-NodeValid e n)

pub apply_operational_event-RunValid :
    (s : RunState) (e : OperationalEvent) {s' : RunState}
    → is_terminal s.status ≡ false
    → apply_operational_event s e ≡ ok s'
    → RunValid s
    → RunValid s'
unfolding apply_operational_event
apply_operational_event-RunValid s (control_request_observed o a r) live h v =
    subst RunValid (ok-injective h) v
apply_operational_event-RunValid s (execution_cleanup_observed c) live h v =
    at_node-RunValid s c.node_id (cleanup_step c) (λ n n'. cleanup_step-NodeValid c n) live h v

pub apply_attempt_event-RunValid :
    (s : RunState) (e : AttemptEvent) {s' : RunState}
    → is_terminal s.status ≡ false
    → apply_attempt_event s e ≡ ok s'
    → RunValid s
    → RunValid s'
unfolding apply_attempt_event
apply_attempt_event-RunValid s e =
    at_node-RunValid s e.node_id (attempt_step s e.node_id e.change)
      (λ n n'. attempt_step-NodeValid s e.node_id n e.change refl)

pub apply_node_event-RunValid :
    (s : RunState) (e : NodeEvent) {s' : RunState}
    → is_terminal s.status ≡ false
    → apply_node_event s e ≡ ok s'
    → RunValid s
    → RunValid s'
unfolding apply_node_event
apply_node_event-RunValid s e =
    at_node-RunValid s e.node_id (node_step e.change) (λ n n'. node_step-NodeValid e.change n)

-- Every dispatched event keeps the invariant of a run that has not ended.
pub dispatch-RunValid :
    (s : RunState) (p : RunEventPayload) {s' : RunState}
    → is_terminal s.status ≡ false
    → dispatch s p ≡ ok s'
    → RunValid s
    → RunValid s'
unfolding dispatch
dispatch-RunValid s (runtime_configured d) live h v = configure_runtime-RunValid s d h v
dispatch-RunValid s (runtime_negotiated n) live h v = negotiate_runtime-RunValid s n h v
dispatch-RunValid s (observation e) live h v = apply_observation_event-RunValid s e live h v
dispatch-RunValid s (timeout e) live h v = apply_timeout_event-RunValid s e live h v
dispatch-RunValid s (operational e) live h v = apply_operational_event-RunValid s e live h v
dispatch-RunValid s (attempt e) live h v = apply_attempt_event-RunValid s e live h v
dispatch-RunValid s (node e) live h v = apply_node_event-RunValid s e live h v
dispatch-RunValid s (lifecycle e) live h v = apply_lifecycle_event-RunValid s e h v
dispatch-RunValid s (run_created c) live h v = cc
