-- ===== src/Run/RunGraph.antt =====
-- The abstract state machine of a whole run: which statuses follow which, and how the nodes move
-- (packages/engine/src/events.ts).
use anastom.Prelude.{
  String, Bool, true, false, ◌≡◌, ◌∙◌, refl, ap, none, some, ok, lookup, lookup-insert, arith, inl,
  inr, Bool-cases, ◌==◌, text_equality, eq_iff, if◌then◌else◌,
}
use anastom.Contract.{RuntimeDescriptor, RuntimeNegotiation}
use anastom.Run.State.{NodeRunState, RunState, RunStatus}
use anastom.Run.Event.{
  ObservationEvent, workspace_assigned, artifact_produced, workspace_observed, command_completed,
  OperationalEvent, control_request_observed, execution_cleanup_observed, LifecycleEvent,
  run_paused, run_resumed, run_recovery_blocked, run_blocked, run_cancelled, run_completed,
  RunOutcome, RunEventPayload, runtime_negotiated, runtime_configured, run_created, observation,
  timeout, operational, attempt, node, lifecycle,
}
use anastom.Run.Guards.{Checked, at_node}
use anastom.Run.Observations.{
  apply_observation_event, apply_timeout_event, apply_operational_event, set_command, timeout_node,
  timeout_step, cleanup_step,
}
use anastom.Run.Attempts.{apply_attempt_event, attempt_step}
use anastom.Run.Nodes.{apply_node_event, node_step}
use anastom.Run.Lifecycle.{apply_lifecycle_event}
use anastom.Run.Reducer.{configure_runtime, negotiate_runtime, dispatch}
use anastom.Run.Inversion.{at_node-eq-ok}
use anastom.Run.Graph.{
  Moves, Moves-refl, node_step-Moves, set_command-Moves, timeout_step-Moves, cleanup_step-Moves,
  attempt_step-Moves,
}

-- The edges of the run's state machine, each status with itself included.
abbrev pub run_may_move : RunStatus → RunStatus → Bool
run_may_move RunStatus.running _ = true
run_may_move RunStatus.blocked RunStatus.blocked = true
run_may_move RunStatus.blocked RunStatus.cancelled = true
run_may_move RunStatus.paused RunStatus.paused = true
run_may_move RunStatus.paused RunStatus.running = true
run_may_move RunStatus.paused RunStatus.cancelled = true
run_may_move RunStatus.paused RunStatus.recovery_blocked = true
run_may_move RunStatus.recovery_blocked RunStatus.recovery_blocked = true
run_may_move RunStatus.recovery_blocked RunStatus.running = true
run_may_move RunStatus.recovery_blocked RunStatus.paused = true
run_may_move RunStatus.recovery_blocked RunStatus.cancelled = true
run_may_move RunStatus.succeeded RunStatus.succeeded = true
run_may_move RunStatus.failed RunStatus.failed = true
run_may_move RunStatus.cancelled RunStatus.cancelled = true
run_may_move _ _ = false

run_may_move_refl : (st : RunStatus) → run_may_move st st ≡ true
run_may_move_refl RunStatus.running = refl
run_may_move_refl _ = refl

-- Every node of `s` is a node of `s'`, where it has moved.
abbrev pub NodesMove : RunState → RunState → Type 0
NodesMove s s' =
    (i : String) (n : NodeRunState)
    → lookup i s.nodes ≡ some n
    → (n' : NodeRunState) × (lookup i s'.nodes ≡ some n') × Moves n n'

at_node-NodesMove :
    (s : RunState) (node_id : String) (change : NodeRunState → Checked NodeRunState) {s' : RunState}
    → ((n n' : NodeRunState) → change n ≡ ok n' → Moves n n')
    → at_node s node_id change ≡ ok s'
    → NodesMove s s'
at_node-NodesMove s node_id change {s'} moves h i n found =
    let (m, m', here, changed, e) = at_node-eq-ok s node_id change h in
    let w : lookup i s'.nodes ≡ (if node_id == i then some m' else lookup i s.nodes) =
      ap (λ (t : RunState). lookup i t.nodes) e ∙ lookup-insert node_id i m' s.nodes in
    elim (Bool-cases (node_id == i)) [
      | inl same ↦
          let (hit, _) = eq_iff node_id i in
          (m', rw (w, same), ground (arith, moves m m' changed, hit))
      | inr other ↦ (n, rw (w, other) found, Moves-refl n)
    ]

-- The run's status moves along an edge, and so does each of its nodes.
pub record RunMoves (s s' : RunState) : Type 0 where
  pub run_along : run_may_move s.status s'.status ≡ true
  pub nodes_move : NodesMove s s'

NodesMove-same : (s s' : RunState) → s'.nodes ≡ s.nodes → NodesMove s s'
NodesMove-same s s' e i n found = (n, rw e found, Moves-refl n)

quiet-RunMoves : (s s' : RunState) → s'.nodes ≡ s.nodes → s'.status ≡ s.status → RunMoves s s'
quiet-RunMoves s s' e f = record {
  run_along = rw f (run_may_move_refl s.status);
  nodes_move = NodesMove-same s s' e;
}

at_node-RunMoves :
    (s : RunState) (node_id : String) (change : NodeRunState → Checked NodeRunState) {s' : RunState}
    → ((n n' : NodeRunState) → change n ≡ ok n' → Moves n n')
    → at_node s node_id change ≡ ok s'
    → RunMoves s s'
at_node-RunMoves s node_id change {s'} moves h =
    let (n, n', found, changed, e) = at_node-eq-ok s node_id change h in
    record {
      run_along = rw (ap (λ (t : RunState). t.status) e) (run_may_move_refl s.status);
      nodes_move = at_node-NodesMove s node_id change moves h;
    }

lifecycle-RunMoves :
    (s : RunState) (e : LifecycleEvent) {s' : RunState}
    → apply_lifecycle_event s e ≡ ok s'
    → (run_may_move s.status s'.status ≡ true) × (s'.nodes ≡ s.nodes)
unfolding apply_lifecycle_event
lifecycle-RunMoves s (run_paused none) h = ground arith
lifecycle-RunMoves s (run_paused (some r)) h = ground arith
lifecycle-RunMoves s (run_resumed operation_id) h = ground arith
lifecycle-RunMoves s (run_recovery_blocked operation_id reason) h = ground arith
lifecycle-RunMoves s (run_blocked reason) h = ground arith
lifecycle-RunMoves s (run_cancelled operation_id reason) h = ground arith
lifecycle-RunMoves s (run_completed RunOutcome.succeeded) h = ground arith
lifecycle-RunMoves s (run_completed RunOutcome.failed) h = ground arith

observation-RunMoves :
    (s : RunState) (e : ObservationEvent) {s' : RunState}
    → apply_observation_event s e ≡ ok s'
    → RunMoves s s'
unfolding apply_observation_event
observation-RunMoves s (workspace_assigned w) {s'} h =
    quiet-RunMoves s s' (ground arith) (ground arith)
observation-RunMoves s (artifact_produced node_id number artifact) {s'} h =
    quiet-RunMoves s s' (ground arith) (ground arith)
observation-RunMoves s (workspace_observed node_id number c f d) {s'} h =
    quiet-RunMoves s s' (ground arith) (ground arith)
observation-RunMoves s (command_completed node_id number output) h =
    at_node-RunMoves s node_id (set_command number output)
      (λ n n'. set_command-Moves number output n) h

operational-RunMoves :
    (s : RunState) (e : OperationalEvent) {s' : RunState}
    → apply_operational_event s e ≡ ok s'
    → RunMoves s s'
unfolding apply_operational_event
operational-RunMoves s (control_request_observed o a r) {s'} h =
    quiet-RunMoves s s' (ground arith) (ground arith)
operational-RunMoves s (execution_cleanup_observed c) h =
    at_node-RunMoves s c.node_id (cleanup_step c) (λ n n'. cleanup_step-Moves c n) h

runtime-RunMoves :
    (s : RunState) (p : RuntimeDescriptor) {s' : RunState}
    → configure_runtime s p ≡ ok s'
    → RunMoves s s'
unfolding configure_runtime
runtime-RunMoves s p {s'} h = quiet-RunMoves s s' (ground arith) (ground arith)

negotiation-RunMoves :
    (s : RunState) (p : RuntimeNegotiation) {s' : RunState}
    → negotiate_runtime s p ≡ ok s'
    → RunMoves s s'
unfolding negotiate_runtime
negotiation-RunMoves s p {s'} h = quiet-RunMoves s s' (ground arith) (ground arith)

-- Every event that `applyRunEvent` dispatches moves the status of the run along an edge of the
-- run's state machine. Each node stays a node of the run and its status moves along an edge of the
-- node's state machine. Its attempts stay in their places, each but the last unchanged; the last
-- keeps its number, runtime and usage, its plan and checkpoint once it was prepared, its execution
-- once it was launched, and its status, failure, orphan evidence and identities once it has ended.
pub dispatch-RunMoves :
    (s : RunState) (p : RunEventPayload) {s' : RunState} → dispatch s p ≡ ok s' → RunMoves s s'
unfolding dispatch apply_timeout_event apply_attempt_event apply_node_event
dispatch-RunMoves s (runtime_configured d) h = runtime-RunMoves s d h
dispatch-RunMoves s (runtime_negotiated n) h = negotiation-RunMoves s n h
dispatch-RunMoves s (observation e) h = observation-RunMoves s e h
dispatch-RunMoves s (timeout e) h =
    at_node-RunMoves s (timeout_node e) (timeout_step e) (λ n n'. timeout_step-Moves e n) h
dispatch-RunMoves s (operational e) h = operational-RunMoves s e h
dispatch-RunMoves s (attempt e) h =
    at_node-RunMoves s e.node_id (attempt_step s e.node_id e.change)
      (λ n n'. attempt_step-Moves s e.node_id e.change n) h
dispatch-RunMoves s (node e) h =
    at_node-RunMoves s e.node_id (node_step e.change) (λ n n'. node_step-Moves e.change n) h
dispatch-RunMoves s (lifecycle e) {s'} h =
    let (m, w) = lifecycle-RunMoves s e h in
    record { run_along = m; nodes_move = NodesMove-same s s' w }
dispatch-RunMoves s (run_created c) h = cc
