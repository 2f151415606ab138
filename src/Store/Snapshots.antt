-- ===== src/Store/Snapshots.antt =====
-- Snapshots and history digests (packages/engine/src/durable-store.ts).
use anastom.Prelude.{
  ℕ, ◌*◌, String, Bool, true, false, ◌&&◌, List, [], ◌∷◌, ok, err, ◌>>=◌, ◌>>◌, guard, keys, leb,
  ltb, ◌==◌, number_equality, text_equality, if◌then◌else◌,
}
use anastom.Run.State.{RunState}
use anastom.Run.Event.{
  RunEvent, RunEventPayload, runtime_negotiated, runtime_configured, run_created, observation,
  timeout, operational, attempt, node, lifecycle, workspace_assigned, artifact_produced,
  workspace_observed, command_completed, attempt_timeout_requested, attempt_cancellation_completed,
  late_result_observed, control_request_observed, execution_cleanup_observed, AttemptChange,
  attempt_scheduled, attempt_prepared, attempt_start_authorized, attempt_started,
  runtime_event_observed, attempt_succeeded, attempt_failed, attempt_blocked, attempt_cancelled,
  attempt_orphaned, NodeChange, node_ready, node_succeeded, node_failed, node_blocked, node_paused,
  node_cancelled, run_paused, run_resumed, run_recovery_blocked, run_blocked, run_cancelled,
  run_completed,
}
use anastom.Run.Guards.{Checked}
use anastom.Run.Reducer.{replay_run}
use anastom.Workflow.Definition.{WorkflowDefinition}
use anastom.Store.Types.{Host, RunSnapshot, Stored, type_error, range_error, invalid_transition}
use anastom.Store.Checks.{codes, is_digest, same_snapshot}

-- The reducer's error, thrown through the store.
abbrev pub rethrow : {A : Type 0} → Checked A → Stored A
rethrow (ok a) = ok a
rethrow (err e) = err (invalid_transition e)

-- `event.type`.
abbrev attempt_change_type : AttemptChange → String
attempt_change_type (attempt_scheduled _ _) = "AttemptScheduled"
attempt_change_type (attempt_prepared _ _ _) = "AttemptPrepared"
attempt_change_type (attempt_start_authorized _ _) = "AttemptStartAuthorized"
attempt_change_type (attempt_started _) = "AttemptStarted"
attempt_change_type (runtime_event_observed _ _) = "RuntimeEventObserved"
attempt_change_type (attempt_succeeded _ _) = "AttemptSucceeded"
attempt_change_type (attempt_failed _ _) = "AttemptFailed"
attempt_change_type (attempt_blocked _ _) = "AttemptBlocked"
attempt_change_type (attempt_cancelled _ _) = "AttemptCancelled"
attempt_change_type (attempt_orphaned _) = "AttemptOrphaned"

abbrev node_change_type : NodeChange → String
node_change_type (node_ready _) = "NodeReady"
node_change_type node_succeeded = "NodeSucceeded"
node_change_type (node_failed _) = "NodeFailed"
node_change_type (node_blocked _) = "NodeBlocked"
node_change_type (node_paused _) = "NodePaused"
node_change_type (node_cancelled _) = "NodeCancelled"

unfoldable pub event_type : RunEventPayload → String
event_type (runtime_negotiated _) = "RuntimeNegotiated"
event_type (runtime_configured _) = "RuntimeConfigured"
event_type (run_created _) = "RunCreated"
event_type (observation (workspace_assigned _)) = "WorkspaceAssigned"
event_type (observation (artifact_produced _ _ _)) = "ArtifactProduced"
event_type (observation (workspace_observed _ _ _ _ _)) = "WorkspaceObserved"
event_type (observation (command_completed _ _ _)) = "CommandCompleted"
event_type (timeout (attempt_timeout_requested _ _)) = "AttemptTimeoutRequested"
event_type (timeout (attempt_cancellation_completed _ _ _)) = "AttemptCancellationCompleted"
event_type (timeout (late_result_observed _ _ _)) = "LateResultObserved"
event_type (operational (control_request_observed _ _ _)) = "ControlRequestObserved"
event_type (operational (execution_cleanup_observed _)) = "ExecutionCleanupObserved"
event_type (attempt e) = attempt_change_type e.change
event_type (node e) = node_change_type e.change
event_type (lifecycle (run_paused _)) = "RunPaused"
event_type (lifecycle (run_resumed _)) = "RunResumed"
event_type (lifecycle (run_recovery_blocked _ _)) = "RunRecoveryBlocked"
event_type (lifecycle (run_blocked _)) = "RunBlocked"
event_type (lifecycle (run_cancelled _ _)) = "RunCancelled"
event_type (lifecycle (run_completed _)) = "RunCompleted"

-- Texts by their code points. The order serves only to compare two lists without regard to order.
unfoldable pub codes_le : List ℕ → List ℕ → Bool
codes_le [] ys = true
codes_le (x ∷ xs) [] = false
codes_le (x ∷ xs) (y ∷ ys) = let rest = codes_le xs ys in if x == y then rest else ltb x y

unfoldable pub insert_sorted : String → List String → List String
unfolding codes codes_le
insert_sorted t [] = t ∷ []
insert_sorted t (u ∷ us) =
    if codes_le (codes t) (codes u) then t ∷ u ∷ us else u ∷ insert_sorted t us

unfoldable pub sort : List String → List String
unfolding insert_sorted
sort [] = []
sort (t ∷ ts) = insert_sorted t (sort ts)

unfoldable pub same_texts : List String → List String → Bool
same_texts [] [] = true
same_texts (t ∷ ts) [] = false
same_texts [] (u ∷ us) = false
same_texts (t ∷ ts) (u ∷ us) = t == u && same_texts ts us

unfoldable pub state_matches_workflow : RunState → WorkflowDefinition → Bool
unfolding sort same_texts
state_matches_workflow s w =
    s.workflow_id == w.id
    && s.workflow_version == w.version
    && same_texts (sort (keys s.nodes)) (sort w.node_order)

unfoldable pub assert_state_matches_workflow : RunState → WorkflowDefinition → Stored (Unit {0})
assert_state_matches_workflow s w = guard (state_matches_workflow s w) type_error

-- Four mebibytes.
abbrev pub run_snapshot_max_bytes : ℕ
run_snapshot_max_bytes = 4 * 1024 * 1024

module _ (host : Host) where
  unfoldable pub empty_event_history_digest : String
  empty_event_history_digest = host.digest_bytes "anastom.dev/event-history/v1alpha1\n"

  unfoldable pub extend_event_history_digest : String → RunEvent → String
  extend_event_history_digest previous e = host.link_digest (record {
    previous = previous;
    run_id = e.run_id;
    sequence = e.sequence;
    event_type = event_type e.payload;
    event_digest = host.digest_bytes (host.event_json e);
  })

  unfoldable pub history_digest : String → List RunEvent → String
  history_digest previous [] = previous
  history_digest previous (e ∷ es) = history_digest (extend_event_history_digest previous e) es

  unfoldable pub create_run_snapshot_from_state :
      WorkflowDefinition → RunState → String → Stored RunSnapshot
  create_run_snapshot_from_state w s prefix_digest = do
    guard (host.accepts_workflow w) type_error
    assert_state_matches_workflow s w
    guard (is_digest prefix_digest) type_error
    let json = host.state_json s
    guard (leb (host.byte_length json) run_snapshot_max_bytes) range_error
    ok (record {
      version = "anastom.dev/run-snapshot/v1alpha1";
      reducer_version = "anastom.dev/run-reducer/v1alpha1";
      run_id = s.run_id;
      definition_digest = host.workflow_digest w;
      sequence = s.sequence;
      state_json = json;
      state_digest = host.digest_bytes json;
      event_prefix_digest = prefix_digest;
    })

  unfoldable pub create_run_snapshot : WorkflowDefinition → List RunEvent → Stored RunSnapshot
  create_run_snapshot w events = do
    guard (host.accepts_workflow w) type_error
    s ← rethrow (replay_run host.accepts_event events)
    assert_state_matches_workflow s w
    create_run_snapshot_from_state w s (history_digest empty_event_history_digest events)

  unfoldable pub assert_run_snapshot :
      RunSnapshot → WorkflowDefinition → List RunEvent → Stored (Unit {0})
  assert_run_snapshot snapshot w events = do
    expected ← create_run_snapshot w events
    guard (same_snapshot snapshot expected) type_error
