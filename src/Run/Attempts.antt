-- ===== src/Run/Attempts.antt =====
-- `applyAttemptEvent` and `applyOwnedAttemptEvent` of packages/engine/src/events.ts, as functions of
-- the node that the event names and of the run that they only read.
use anastom.Prelude.{
  ℕ, String, Bool, true, false, not, ◌&&◌, ◌||◌, ◌+◌, List, [], ◌∷◌, ◌++◌, Option, none, some, ok,
  ◌>>=◌, ◌>>◌, guard, length, leb, ◌==◌, number_equality, text_equality,
}
use anastom.Contract.{
  ExecutionFailure, ExecutionKind, ExecutionPlanRef, FailureCategory, PersistedExecutionRef,
  RuntimeDescriptor, RuntimeEvent, RuntimeMetadata, WorkspaceCheckpoint, execution_kind_eq,
  workspace_id,
}
use anastom.Contract
use anastom.Run.State.{
  AttemptState, AttemptStatus, NodeRunState, NodeStatus, Orphan, RunState, Timeout,
}
use anastom.Run.Event.{
  AttemptChange, AttemptEvent, Orphaning, attempt_scheduled, attempt_prepared,
  attempt_start_authorized, attempt_started, runtime_event_observed, attempt_succeeded,
  attempt_failed, attempt_blocked, attempt_cancelled, attempt_orphaned,
}
use anastom.Run.Guards.{
  TransitionError, Checked, require_node_status, current_attempt, require_current_attempt,
  put_attempt, at_node, some_artifact, has_artifact_id, is_produced_by, is_truthy,
  includes_attempt_status,
}
use anastom.Run.Observations.{is_set, plans_execution}

-- `!descriptor || descriptor.runtimeId === runtimeId`, and the form that wants a descriptor.
abbrev allows_runtime : Option RuntimeDescriptor → String → Bool
allows_runtime none runtime_id = true
allows_runtime (some d) runtime_id = d.runtime_id == runtime_id

abbrev names_runtime : Option RuntimeDescriptor → String → Bool
names_runtime none runtime_id = false
names_runtime (some d) runtime_id = d.runtime_id == runtime_id

abbrev pub new_attempt : ℕ → String → AttemptState
new_attempt number runtime_id = record {
  number = number;
  runtime_id = runtime_id;
  status = AttemptStatus.scheduled;
  failure = none;
  identity = none;
  usage = none;
  timeout = none;
  execution_plan = none;
  execution = none;
  workspace_checkpoint = none;
  cleanup = none;
  orphan = none;
}

-- `event.failure.category !== "budget-exhausted"`, negated.
abbrev pub is_budget_failure : ExecutionFailure → Bool
is_budget_failure f = elim f.category [ FailureCategory.budget_exhausted ↦ true | _ ↦ false ]

abbrev pub is_cancelled_timeout : Option Timeout → Bool
is_cancelled_timeout none = false
is_cancelled_timeout (some t) = is_set t.cancellation

-- `(identity ??= []).push(event)`.
abbrev pub identities : AttemptState → RuntimeMetadata → List RuntimeMetadata
identities current m = elim current.identity [ none ↦ m ∷ [] | some earlier ↦ earlier ++ m ∷ [] ]

-- A public observation of the runtime: usage once, identities in order, the rest not kept.
unfoldable pub observe_runtime : AttemptState → RuntimeEvent → Checked AttemptState
observe_runtime current (Contract.usage u) = do
  guard (not (is_set current.usage)) TransitionError.usage_twice
  ok (record current { usage = some u })
observe_runtime current (Contract.metadata m) =
    ok (record current { identity = some (identities current m) })
observe_runtime current _ = ok current

-- `attempt.runtimeId === "command" ? "command" : "runtime"`.
abbrev expected_kind : String → ExecutionKind
expected_kind runtime_id = elim (runtime_id == "command") [
  | true ↦ ExecutionKind.command
  | false ↦ ExecutionKind.runtime
]

abbrev is_in_workspace : RunState → WorkspaceCheckpoint → Bool
is_in_workspace s c = elim s.workspace [ none ↦ true | some w ↦ c.workspace_id == workspace_id w ]

unfoldable pub prepare_step :
    RunState
    → String
    → ℕ
    → ExecutionPlanRef
    → WorkspaceCheckpoint
    → NodeRunState
    → Checked NodeRunState
prepare_step s node_id attempt execution checkpoint node = do
  require_node_status node (NodeStatus.ready ∷ [])
  current ← require_current_attempt node attempt AttemptStatus.scheduled
  guard
      (execution.run_id == s.run_id
        && leb 1 execution.generation
        && is_in_workspace s checkpoint
        && execution_kind_eq execution.kind (expected_kind current.runtime_id))
      TransitionError.prepared_evidence
  guard
      (not (execution_kind_eq (expected_kind current.runtime_id) ExecutionKind.runtime)
        || names_runtime s.runtime_descriptor current.runtime_id)
      TransitionError.prepared_runtime
  guard
      (not (is_truthy checkpoint.diff_artifact_id)
        || some_artifact s (is_produced_by s node_id attempt checkpoint.diff_artifact_id))
      TransitionError.prepared_diff
  ok (
      put_attempt node (record current {
        status = AttemptStatus.prepared;
        execution_plan = some execution;
        workspace_checkpoint = some checkpoint;
      }))

-- The authorized execution repeats its prepared plan.
abbrev pub matches_plan : Option ExecutionPlanRef → PersistedExecutionRef → Bool
matches_plan none e = false
matches_plan (some p) e =
    p.version == e.version
    && p.run_id == e.run_id
    && p.execution_id == e.execution_id
    && execution_kind_eq p.kind e.kind
    && p.generation == e.generation
    && p.plan_digest == e.plan_digest

unfoldable pub authorize_step : ℕ → PersistedExecutionRef → NodeRunState → Checked NodeRunState
authorize_step attempt execution node = do
  require_node_status node (NodeStatus.ready ∷ [])
  current ← require_current_attempt node attempt AttemptStatus.prepared
  guard (matches_plan current.execution_plan execution) TransitionError.plan_mismatch
  ok
      (record (put_attempt node
        (record current { status = AttemptStatus.running; execution = some execution })) {
          status = NodeStatus.running;
        })

abbrev plans_generation : AttemptState → ℕ → Bool
plans_generation a generation = elim a.execution_plan [
  | none ↦ false
  | some p ↦ p.generation == generation
]

-- `...(id ? { terminalArtifactId: id } : {})`.
abbrev truthy_only : Option String → Option String
truthy_only none = none
truthy_only (some t) = elim (t == "") [ true ↦ none | false ↦ some t ]

abbrev pub orphan_of : Orphaning → Orphan
orphan_of o = record {
  execution_id = o.execution_id;
  lost_generation = o.lost_generation;
  reason = o.reason;
  workspace_observation = o.workspace_observation;
  workspace_differences = o.workspace_differences;
  terminal_artifact_id = truthy_only o.terminal_artifact_id;
}

unfoldable pub orphan_step : RunState → String → Orphaning → NodeRunState → Checked NodeRunState
orphan_step s node_id o node = do
  require_node_status node (NodeStatus.ready ∷ NodeStatus.running ∷ [])
  current ←
      current_attempt node
        (λ a.
          a.number == o.attempt
          && includes_attempt_status (AttemptStatus.prepared ∷ AttemptStatus.running ∷ []) a.status
          && plans_execution a o.execution_id
          && plans_generation a o.lost_generation)
        TransitionError.orphan_evidence
  guard
      (not (is_truthy o.terminal_artifact_id)
        || some_artifact s (has_artifact_id o.terminal_artifact_id))
      TransitionError.orphan_terminal
  guard
      (not (is_truthy o.workspace_observation.diff_artifact_id)
        || some_artifact s
            (is_produced_by s node_id o.attempt o.workspace_observation.diff_artifact_id))
      TransitionError.orphan_diff
  ok
      (record (put_attempt node
        (record current { status = AttemptStatus.orphaned; orphan = some (orphan_of o) })) {
          status = NodeStatus.running;
        })

-- The attempt of a running node that may still end by itself.
abbrev running_attempt : NodeRunState → ℕ → Checked AttemptState
running_attempt node attempt = do
  require_node_status node (NodeStatus.running ∷ [])
  require_current_attempt node attempt AttemptStatus.running

unfoldable pub attempt_step :
    RunState → String → AttemptChange → NodeRunState → Checked NodeRunState
unfolding observe_runtime prepare_step authorize_step orphan_step
attempt_step s node_id (attempt_scheduled attempt runtime_id) node = do
  require_node_status node (NodeStatus.ready ∷ [])
  guard (attempt == length node.attempts + 1) TransitionError.attempt_number
  guard (runtime_id == "command" || allows_runtime s.runtime_descriptor runtime_id)
      TransitionError.runtime_mismatch
  ok (record node { attempts = node.attempts ++ new_attempt attempt runtime_id ∷ [] })
attempt_step s node_id (attempt_prepared attempt execution checkpoint) node =
    prepare_step s node_id attempt execution checkpoint node
attempt_step s node_id (attempt_start_authorized attempt execution) node =
    authorize_step attempt execution node
attempt_step s node_id (attempt_started attempt) node = do
  require_node_status node (NodeStatus.ready ∷ [])
  guard (not (is_set s.runtime_descriptor)) TransitionError.needs_authorization
  current ← require_current_attempt node attempt AttemptStatus.scheduled
  ok (record (put_attempt node (record current { status = AttemptStatus.running })) {
    status = NodeStatus.running;
  })
attempt_step s node_id (runtime_event_observed attempt event) node = do
  current ← running_attempt node attempt
  observed ← observe_runtime current event
  ok (put_attempt node observed)
attempt_step s node_id (attempt_succeeded attempt output) node = do
  current ← running_attempt node attempt
  guard (not (is_set current.timeout)) TransitionError.timed_out_succeeds
  ok (record (put_attempt node (record current { status = AttemptStatus.succeeded })) {
    output = some output;
    failure = none;
  })
attempt_step s node_id (attempt_failed attempt failure) node = do
  current ← running_attempt node attempt
  guard
      (not (is_set current.timeout)
        || is_budget_failure failure && is_cancelled_timeout current.timeout)
      TransitionError.timed_out_fails
  ok
      (record (put_attempt node
        (record current { status = AttemptStatus.failed; failure = some failure })) {
          failure = some failure;
        })
attempt_step s node_id (attempt_blocked attempt reason) node = do
  current ← running_attempt node attempt
  guard (not (is_set current.timeout)) TransitionError.timed_out_blocks
  ok (put_attempt node (record current { status = AttemptStatus.blocked }))
attempt_step s node_id (attempt_cancelled attempt reason) node = do
  current ← running_attempt node attempt
  guard (not (is_set current.timeout)) TransitionError.timed_out_cancels
  ok (put_attempt node (record current { status = AttemptStatus.cancelled }))
attempt_step s node_id (attempt_orphaned o) node = orphan_step s node_id o node

unfoldable pub apply_attempt_event : RunState → AttemptEvent → Checked RunState
unfolding attempt_step
apply_attempt_event s e = at_node s e.node_id (attempt_step s e.node_id e.change)
