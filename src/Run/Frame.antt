-- ===== src/Run/Frame.antt =====
-- What no event after the first changes (packages/engine/src/events.ts): the identity of the run and
-- of its workflow, its inputs and the set of its nodes.
use anastom.Prelude.{String, ◌≡◌, refl, none, some, ok, keys, keys-insert, arith}
use anastom.Contract.{RuntimeDescriptor, RuntimeNegotiation}
use anastom.Run.State.{NodeRunState, RunState}
use anastom.Run.Event.{
  ObservationEvent, workspace_assigned, artifact_produced, workspace_observed, command_completed,
  OperationalEvent, control_request_observed, execution_cleanup_observed, LifecycleEvent,
  run_paused, run_resumed, run_recovery_blocked, run_blocked, run_cancelled, run_completed,
  RunOutcome, RunEventPayload, runtime_negotiated, runtime_configured, run_created, observation,
  timeout, operational, attempt, node, lifecycle,
}
use anastom.Run.Guards.{Checked, at_node}
use anastom.Run.Observations.{
  apply_observation_event, apply_timeout_event, apply_operational_event, set_command, timeout_node,
  timeout_step, cleanup_step,
}
use anastom.Run.Attempts.{apply_attempt_event, attempt_step}
use anastom.Run.Nodes.{apply_node_event, node_step}
use anastom.Run.Lifecycle.{apply_lifecycle_event}
use anastom.Run.Reducer.{configure_runtime, negotiate_runtime, dispatch}
use anastom.Run.Inversion.{at_node-eq-ok}

pub record SameRun (s s' : RunState) : Type 0 where
  pub run_kept : s'.run_id ≡ s.run_id
  pub instance_kept : s'.workflow_instance_id ≡ s.workflow_instance_id
  pub workflow_kept : s'.workflow_id ≡ s.workflow_id
  pub version_kept : s'.workflow_version ≡ s.workflow_version
  pub sequence_kept : s'.sequence ≡ s.sequence
  pub inputs_kept : s'.inputs ≡ s.inputs
  pub nodes_kept : keys s'.nodes ≡ keys s.nodes

at_node-SameRun :
    (s : RunState) (node_id : String) (change : NodeRunState → Checked NodeRunState) {s' : RunState}
    → at_node s node_id change ≡ ok s'
    → SameRun s s'
at_node-SameRun s node_id change h =
    let (n, n', found, changed, e) = at_node-eq-ok s node_id change h in
    rw e (record {
      run_kept = refl;
      instance_kept = refl;
      workflow_kept = refl;
      version_kept = refl;
      sequence_kept = refl;
      inputs_kept = refl;
      nodes_kept = keys-insert node_id n' s.nodes found;
    })

observation-SameRun :
    (s : RunState) (e : ObservationEvent) {s' : RunState}
    → apply_observation_event s e ≡ ok s'
    → SameRun s s'
unfolding apply_observation_event
observation-SameRun s (workspace_assigned w) h = ground arith
observation-SameRun s (artifact_produced node_id number artifact) h = ground arith
observation-SameRun s (workspace_observed node_id number c f d) h = ground arith
observation-SameRun s (command_completed node_id number output) h =
    at_node-SameRun s node_id (set_command number output) h

operational-SameRun :
    (s : RunState) (e : OperationalEvent) {s' : RunState}
    → apply_operational_event s e ≡ ok s'
    → SameRun s s'
unfolding apply_operational_event
operational-SameRun s (control_request_observed o a r) h = ground arith
operational-SameRun s (execution_cleanup_observed c) h =
    at_node-SameRun s c.node_id (cleanup_step c) h

lifecycle-SameRun :
    (s : RunState) (e : LifecycleEvent) {s' : RunState}
    → apply_lifecycle_event s e ≡ ok s'
    → SameRun s s'
unfolding apply_lifecycle_event
lifecycle-SameRun s (run_paused none) h = ground arith
lifecycle-SameRun s (run_paused (some r)) h = ground arith
lifecycle-SameRun s (run_resumed operation_id) h = ground arith
lifecycle-SameRun s (run_recovery_blocked operation_id reason) h = ground arith
lifecycle-SameRun s (run_blocked reason) h = ground arith
lifecycle-SameRun s (run_cancelled operation_id reason) h = ground arith
lifecycle-SameRun s (run_completed RunOutcome.succeeded) h = ground arith
lifecycle-SameRun s (run_completed RunOutcome.failed) h = ground arith

configure-SameRun :
    (s : RunState) (d : RuntimeDescriptor) {s' : RunState}
    → configure_runtime s d ≡ ok s'
    → SameRun s s'
unfolding configure_runtime
configure-SameRun s d h = ground arith

negotiate-SameRun :
    (s : RunState) (n : RuntimeNegotiation) {s' : RunState}
    → negotiate_runtime s n ≡ ok s'
    → SameRun s s'
unfolding negotiate_runtime
negotiate-SameRun s n h = ground arith

pub dispatch-SameRun :
    (s : RunState) (p : RunEventPayload) {s' : RunState} → dispatch s p ≡ ok s' → SameRun s s'
unfolding dispatch apply_timeout_event apply_attempt_event apply_node_event
dispatch-SameRun s (runtime_configured d) h = configure-SameRun s d h
dispatch-SameRun s (runtime_negotiated n) h = negotiate-SameRun s n h
dispatch-SameRun s (observation e) h = observation-SameRun s e h
dispatch-SameRun s (timeout e) h = at_node-SameRun s (timeout_node e) (timeout_step e) h
dispatch-SameRun s (operational e) h = operational-SameRun s e h
dispatch-SameRun s (attempt e) h = at_node-SameRun s e.node_id (attempt_step s e.node_id e.change) h
dispatch-SameRun s (node e) h = at_node-SameRun s e.node_id (node_step e.change) h
dispatch-SameRun s (lifecycle e) h = lifecycle-SameRun s e h
dispatch-SameRun s (run_created c) h = cc
