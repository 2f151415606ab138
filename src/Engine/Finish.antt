-- ===== src/Engine/Finish.antt =====
-- What an attempt decides (packages/engine/src/engine.ts, `verifierFailure`, `blockedNodePayloads` and
-- `finishAttempt`).
use Prim.Native.String.{◌++◌ as text_append}
use anastom.Prelude.{
  ℕ, String, Bool, true, false, not, ◌&&◌, ◌||◌, List, [], ◌∷◌, ◌++◌, map, Option, none, some,
  values, all, ltb, ◌==◌, text_equality, if◌then◌else◌,
}
use anastom.Json.{JsonFields, JsonValue, no_fields, field}
use anastom.Contract.{ExecutionFailure, FailureCategory}
use anastom.Run.State.{NodeRunState, NodeStatus, RunState, node_status_eq}
use anastom.Run.Event.{
  AttemptChange, NodeChange, ReadyReason, RunEventPayload, RunOutcome, attempt, attempt_blocked,
  attempt_cancelled, attempt_failed, attempt_succeeded, lifecycle, node, node_blocked,
  node_cancelled, node_failed, node_ready, node_succeeded, run_blocked, run_cancelled,
  run_completed,
}
use anastom.Run.Lifecycle.{is_node_succeeded}
use anastom.Workflow.Definition.{NodeKind, WorkflowDefinition, WorkflowNode}
use anastom.Workflow.Scheduler.{find_executable_nodes}
use anastom.Engine.Actions.{Action, ExecutionResult, ◌>>=◌, ◌>>◌, commit_next, do_if, get_state}
use anastom.Engine.Outside.{Outside}

-- `output.passed`, the last field of that name.
unfoldable pub passed_of : JsonFields → Option JsonValue
passed_of no_fields = none
passed_of (field k v rest) =
    let later = passed_of rest in
    elim later [ some w ↦ some w | none ↦ if k == "passed" then some v else none ]

abbrev no_passed_field : ExecutionFailure
no_passed_field = record {
  category = FailureCategory.schema_violation;
  message = "Verifier output must contain a boolean passed field";
}

abbrev passed_failure : Option JsonValue → Option ExecutionFailure
passed_failure (some (JsonValue.boolean true)) = none
passed_failure (some (JsonValue.boolean false)) = some (record {
  category = FailureCategory.verification;
  message = "Verifier reported that its checks failed";
})
passed_failure _ = some no_passed_field

unfoldable pub verifier_failure : JsonValue → Option ExecutionFailure
unfolding passed_of
verifier_failure (JsonValue.object fields) = passed_failure (passed_of fields)
verifier_failure _ = some no_passed_field

-- `nodes.filter(p).map(payload)`.
unfoldable pub payloads_where :
    (NodeRunState → Bool) → (String → RunEventPayload) → List NodeRunState → List RunEventPayload
payloads_where p payload [] = []
payloads_where p payload (n ∷ ns) =
    let rest = payloads_where p payload ns in if p n then payload n.id ∷ rest else rest

abbrev pub is_unstarted : String → NodeRunState → Bool
is_unstarted except n =
    not (n.id == except)
    && (node_status_eq n.status NodeStatus.pending || node_status_eq n.status NodeStatus.ready)

abbrev pub of_node : NodeChange → String → RunEventPayload
of_node change i = node (record { node_id = i; change = change })

unfoldable pub blocked_node_payloads : RunState → String → String → List RunEventPayload
unfolding payloads_where
blocked_node_payloads s except reason =
    payloads_where (is_unstarted except) (of_node (node_blocked reason)) (values s.nodes)

abbrev pub is_cancellable : String → NodeRunState → Bool
is_cancellable except n =
    not (node_status_eq n.status NodeStatus.succeeded)
    && not (node_status_eq n.status NodeStatus.failed)
    && not (n.id == except)

unfoldable pub cancelled_node_payloads : RunState → String → String → List RunEventPayload
unfolding payloads_where
cancelled_node_payloads s except reason =
    payloads_where (is_cancellable except) (of_node (node_cancelled reason)) (values s.nodes)

-- `errors.join("; ")`.
unfoldable pub join : List String → String
join [] = ""
join (t ∷ []) = t
join (t ∷ u ∷ ts) = text_append t (text_append "; " (join (u ∷ ts)))

abbrev is_verifier : NodeKind → Bool
is_verifier NodeKind.verifier = true
is_verifier _ = false

module _ (o : Outside) (w : WorkflowDefinition) (n : WorkflowNode) (run_id node_id : String)
    (number : ℕ) where
  abbrev pub of_attempt : AttemptChange → RunEventPayload
  of_attempt change = attempt (record { node_id = node_id; change = change })

  abbrev pub commit_step : List RunEventPayload → Action (Unit {0})
  commit_step ps = commit_next o.accepts run_id ps

  -- What is wrong with the output of an attempt that succeeded.
  abbrev pub output_failure : List String → JsonValue → Option ExecutionFailure
  output_failure [] output = if is_verifier n.kind then verifier_failure output else none
  output_failure (e ∷ es) output = some (record {
    category = FailureCategory.schema_violation;
    message =
        text_append "Output for "
          (text_append node_id (text_append " is invalid: " (join (e ∷ es))));
  })

  unfoldable pub finish_blocked : String → Action (Unit {0})
  unfolding blocked_node_payloads
  finish_blocked reason = do
    s ← get_state
    commit_step (
        of_attempt (attempt_blocked number reason)
        ∷ of_node (node_blocked reason) node_id
        ∷ (blocked_node_payloads s node_id reason ++ lifecycle (run_blocked reason) ∷ []))

  unfoldable pub finish_cancelled : String → Action (Unit {0})
  unfolding cancelled_node_payloads
  finish_cancelled reason = do
    s ← get_state
    commit_step (
        of_attempt (attempt_cancelled number reason)
        ∷ of_node (node_cancelled reason) node_id
        ∷ (cancelled_node_payloads s node_id reason ++ lifecycle (run_cancelled none reason) ∷ []))

  abbrev pub exhausted : Bool → String
  exhausted unsafe_to_retry =
      if unsafe_to_retry
      then "Runtime termination was not confirmed; retry is unsafe"
      else text_append "Node " (
          text_append node_id (
            text_append " exhausted "
              (text_append (o.print_number n.attempt_budget.max_attempts) " attempt(s)")))

  abbrev pub may_retry : Bool → Bool
  may_retry unsafe_to_retry = not unsafe_to_retry && ltb number n.attempt_budget.max_attempts

  unfoldable pub give_up : Bool → ExecutionFailure → Action (Unit {0})
  unfolding blocked_node_payloads
  give_up unsafe_to_retry failure = do
    commit_step (of_node (node_failed failure) node_id ∷ [])
    s ← get_state
    commit_step (
        blocked_node_payloads s node_id (exhausted unsafe_to_retry)
        ++ lifecycle (run_completed RunOutcome.failed) ∷ [])

  unfoldable pub finish_failed : Bool → ExecutionFailure → Action (Unit {0})
  unfolding give_up
  finish_failed unsafe_to_retry failure = do
    commit_step (of_attempt (attempt_failed number failure) ∷ [])
    if may_retry unsafe_to_retry
        then commit_step (of_node (node_ready ReadyReason.retry) node_id ∷ [])
        else give_up unsafe_to_retry failure

  unfoldable pub finish_succeeded : JsonValue → Action (Unit {0})
  finish_succeeded output = do
    commit_step (of_attempt (attempt_succeeded number output) ∷ of_node node_succeeded node_id ∷ [])
    s ← get_state
    commit_step
        (map (of_node (node_ready ReadyReason.dependencies_satisfied)) (find_executable_nodes w s))
    t ← get_state
    do_if (all is_node_succeeded (values t.nodes))
        (commit_step (lifecycle (run_completed RunOutcome.succeeded) ∷ []))

  abbrev pub finish_output : Bool → JsonValue → Option ExecutionFailure → Action (Unit {0})
  finish_output unsafe_to_retry output none = finish_succeeded output
  finish_output unsafe_to_retry output (some failure) = finish_failed unsafe_to_retry failure

  unfoldable pub finish_attempt : Bool → ExecutionResult → Action (Unit {0})
  unfolding finish_blocked finish_cancelled finish_failed finish_succeeded verifier_failure
  finish_attempt unsafe_to_retry (ExecutionResult.blocked reason) = finish_blocked reason
  finish_attempt unsafe_to_retry (ExecutionResult.cancelled reason) = finish_cancelled reason
  finish_attempt unsafe_to_retry (ExecutionResult.failed failure) =
      finish_failed unsafe_to_retry failure
  finish_attempt unsafe_to_retry (ExecutionResult.succeeded output) =
      finish_output unsafe_to_retry output
        (output_failure (o.value_errors n.output.schema output) output)
