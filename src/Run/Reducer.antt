-- ===== src/Run/Reducer.antt =====
-- `applyRunEvent`, `replayRun` and `materializeEvents` of packages/engine/src/events.ts.
-- `assertRunEvent` (packages/engine/src/event-validation.ts) runs validators that Ajv compiles; they
-- are the parameter `accepts`, over events that already have the shape of a `RunEvent`.
use anastom.Prelude.{
  ℕ, String, Bool, true, false, not, ◌||◌, ◌+◌, List, [], ◌∷◌, Option, none, some, ok, err, ◌>>=◌,
  ◌>>◌, guard, any, values, Dict, insert, ◌==◌, number_equality, text_equality,
}
use anastom.Contract.{RuntimeDescriptor, RuntimeNegotiation}
use anastom.Run.State.{NodeRunState, NodeStatus, RunState, RunStatus}
use anastom.Run.Event.{
  Creation, RunEvent, RunEventPayload, runtime_negotiated, runtime_configured, run_created,
  observation, timeout, operational, attempt, node, lifecycle,
}
use anastom.Run.Guards.{TransitionError, Checked}
use anastom.Run.Observations.{
  apply_observation_event, apply_timeout_event, apply_operational_event, is_set,
}
use anastom.Run.Attempts.{apply_attempt_event}
use anastom.Run.Nodes.{apply_node_event}
use anastom.Run.Lifecycle.{apply_lifecycle_event}

abbrev pub fresh_node : String → NodeRunState
fresh_node node_id = record {
  id = node_id;
  status = NodeStatus.pending;
  attempts = [];
  output = none;
  failure = none;
  blocked_reason = none;
  command = none;
  pause_reason = none;
}

-- `Object.fromEntries`: a repeated identifier is written again in place.
abbrev pub add_nodes : Dict NodeRunState → List String → Dict NodeRunState
add_nodes m [] = m
add_nodes m (i ∷ ids) = add_nodes (insert i (fresh_node i) m) ids

abbrev pub initial_state : String → Creation → RunState
initial_state run_id c = record {
  run_id = run_id;
  workflow_instance_id = c.workflow_instance_id;
  workflow_id = c.workflow_id;
  workflow_version = c.workflow_version;
  status = RunStatus.running;
  sequence = 1;
  inputs = c.inputs;
  nodes = add_nodes [] c.node_ids;
  workspace = none;
  runtime_negotiation = none;
  runtime_descriptor = none;
  pause_reason = none;
  recovery_block = none;
  artifacts = none;
  workspace_observation = none;
}

-- The first event of a run.
unfoldable pub create_from : RunEvent → RunEventPayload → Checked RunState
create_from e (run_created c) = do
  guard (e.sequence == 1) TransitionError.first_event
  ok (initial_state e.run_id c)
create_from e _ = err TransitionError.first_event

unfoldable pub create_run : RunEvent → Checked RunState
unfolding create_from
create_run e = create_from e e.payload

-- `node.attempts.length` as a condition.
abbrev pub is_nonempty : {A : Type 0} → List A → Bool
is_nonempty [] = false
is_nonempty (x ∷ xs) = true

abbrev pub has_attempts : NodeRunState → Bool
has_attempts n = is_nonempty n.attempts

abbrev agrees_with_negotiation : Option RuntimeNegotiation → String → Bool
agrees_with_negotiation none runtime_id = true
agrees_with_negotiation (some n) runtime_id = n.runtime_id == runtime_id

abbrev agrees_with_descriptor : Option RuntimeDescriptor → String → Bool
agrees_with_descriptor none runtime_id = true
agrees_with_descriptor (some d) runtime_id = d.runtime_id == runtime_id

unfoldable pub configure_runtime : RunState → RuntimeDescriptor → Checked RunState
configure_runtime s descriptor = do
  guard (not (is_set s.runtime_descriptor || any has_attempts (values s.nodes)))
      TransitionError.configured_late
  guard (agrees_with_negotiation s.runtime_negotiation descriptor.runtime_id)
      TransitionError.negotiation_mismatch
  ok (record s { runtime_descriptor = some descriptor })

unfoldable pub negotiate_runtime : RunState → RuntimeNegotiation → Checked RunState
negotiate_runtime s negotiation = do
  guard (not (is_set s.runtime_negotiation || any has_attempts (values s.nodes)))
      TransitionError.negotiated_late
  guard (agrees_with_descriptor s.runtime_descriptor negotiation.runtime_id)
      TransitionError.configuration_mismatch
  ok (record s { runtime_negotiation = some negotiation })

-- The `switch` of `applyRunEvent`.
unfoldable pub dispatch : RunState → RunEventPayload → Checked RunState
unfolding configure_runtime negotiate_runtime
dispatch s (runtime_configured descriptor) = configure_runtime s descriptor
dispatch s (runtime_negotiated negotiation) = negotiate_runtime s negotiation
dispatch s (observation e) = apply_observation_event s e
dispatch s (timeout e) = apply_timeout_event s e
dispatch s (operational e) = apply_operational_event s e
dispatch s (attempt e) = apply_attempt_event s e
dispatch s (node e) = apply_node_event s e
dispatch s (lifecycle e) = apply_lifecycle_event s e
dispatch s (run_created c) = err TransitionError.repeated_creation

abbrev pub is_creation : RunEventPayload → Bool
is_creation (run_created _) = true
is_creation _ = false

abbrev pub is_terminal : RunStatus → Bool
is_terminal RunStatus.succeeded = true
is_terminal RunStatus.failed = true
is_terminal RunStatus.cancelled = true
is_terminal _ = false

-- An event after the first.
unfoldable pub continue_run : RunState → RunEvent → Checked RunState
continue_run current e = do
  guard (e.run_id == current.run_id) TransitionError.run_mismatch
  guard (e.sequence == current.sequence + 1) TransitionError.sequence_mismatch
  guard (not (is_creation e.payload)) TransitionError.repeated_creation
  guard (not (is_terminal current.status)) TransitionError.terminal_run
  dispatch (record current { sequence = e.sequence }) e.payload

-- `(state?.sequence ?? 0) + 1`.
abbrev pub next_sequence : Option RunState → ℕ
next_sequence none = 1
next_sequence (some s) = s.sequence + 1

-- `accepts` stands for the compiled validators.
module _ (accepts : RunEvent → Bool) where
  unfoldable pub apply_run_event : Option RunState → RunEvent → Checked RunState
  unfolding create_run continue_run
  apply_run_event current e = do
    guard (accepts e) TransitionError.corrupt_event
    elim current [ none ↦ create_run e | some s ↦ continue_run s e ]

  -- The loop of `replayRun`, and of any reader that folds a tail of events into a state.
  unfoldable pub fold_events : Option RunState → List RunEvent → Checked (Option RunState)
  fold_events current [] = ok current
  fold_events current (e ∷ es) = do s ← apply_run_event current e; fold_events (some s) es

  -- The empty stream leaves no state.
  unfoldable pub replay_run : List RunEvent → Checked RunState
  replay_run es = do
    folded ← fold_events none es
    elim folded [ none ↦ err TransitionError.empty_stream | some s ↦ ok s ]

  -- The loop of `materializeEvents`: the events appended so far are returned in order.
  unfoldable pub materialize_from :
      Option RunState → String → List RunEventPayload → Checked (List RunEvent × Option RunState)
  materialize_from current run_id [] = ok ([], current)
  materialize_from current run_id (p ∷ ps) =
      let e : RunEvent = record {
        payload = p;
        run_id = run_id;
        sequence = next_sequence current;
      } in
      do
        s ← apply_run_event current e
        rest ← materialize_from (some s) run_id ps
        ok (e ∷ rest.0, rest.1)

  unfoldable pub materialize_events :
      Option RunState → String → List RunEventPayload → Checked (List RunEvent × RunState)
  materialize_events current run_id payloads = do
    made ← materialize_from current run_id payloads
    elim made.1 [ none ↦ err TransitionError.empty_transition | some s ↦ ok (made.0, s) ]
