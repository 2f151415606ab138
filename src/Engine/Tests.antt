-- ===== src/Engine/Tests.antt =====
-- A run of two nodes that is created and stepped, and the engine's theorems at it.
use anastom.Prelude.{
  String, true, false, ◌≡◌, ◌≢◌, ◌↔◌, refl, List, [], ◌∷◌, ◌++◌, Option, none, some, Result, ok,
  err, lookup, length,
}
use anastom.Json.{JsonValue}
use anastom.Contract.{started}
use anastom.Run.State.{RunState, RunStatus}
use anastom.Run.Event.{RunEvent, attempt, attempt_scheduled, attempt_started}
use anastom.Run.Reducer.{
  replay_run, fold_events, apply_run_event, continue_run, dispatch, materialize_events,
  materialize_from,
}
use anastom.Run.Nodes.{apply_node_event, node_step}
use anastom.Run.Attempts.{apply_attempt_event, attempt_step}
use anastom.Run.Guards.{at_node}
use anastom.Run.History.{IsHistory, replay_run-IsHistory}
use anastom.Run.Tests.{any_event, first_events, half_way, half_way_replayed, last_events}
use anastom.Workflow.Scheduler.{find_executable_nodes, find_ready_nodes, select}
use anastom.Workflow.Tests.{endpoint, step_node}
use anastom.Engine.Persistence.{ConflictError, PersistedRun, PersistedRuns, append, create}
use anastom.Engine.Actions.{
  EngineError, ExecutionResult, Progress, ◌>>=◌, commit, commit_next, attempt_call, conflict, do_if,
  load_state, set_result, set_unsafe_to_retry,
}
use anastom.Engine.Context.{build_context}
use anastom.Engine.Runtime.{execute_runtime}
use anastom.Engine.Attempt.{execute_attempt, record_artifact}
use anastom.Run.Lifecycle.{apply_lifecycle_event}
use anastom.Engine.Outside.{Outside, collected, settled}
use anastom.Engine.Creation.{
  CreateRun, CreationError, create_run, input_errors, validate_inputs, value_issues,
}
use anastom.Engine.Finish.{finish_attempt}
use anastom.Engine.Tick.{start_of, tick}
use anastom.Engine.Starting.{create_run_stores}
use anastom.Engine.Inputs.{IsValidInput, validate_inputs_iff}
use anastom.Engine.Keeping.{Holds}
use anastom.Engine.Advancing.{Advanced, tick-Advanced}
use anastom.Engine.Outcomes.{Decides, finish_attempt-Decides}
use anastom.Engine.Storage.{append-IsHistory, commit_fits}

abbrev any_value : JsonValue → JsonValue → List String
any_value schema value = []

abbrev quiet : Outside
quiet = record {
  is_worker = false;
  runtime_id = "fake";
  run = λ request. record {
    events = started ∷ [];
    ending = settled (collected (ExecutionResult.succeeded JsonValue.null));
  };
  execute_command = λ command workspace. err "no commands";
  write_artifact = none;
  capture_workspace = none;
  accepts = λ e. true;
  accepts_observation = λ e. true;
  value_errors = any_value;
  context_json = λ envelope. "{}";
  event_json = λ e. "{}";
  report_json = λ r. "{}";
  value_json = λ v. "null";
  report_value = λ r. JsonValue.null;
  message_of = λ e. "error";
  encode = λ t. [];
  print_number = λ n. "2";
}

abbrev request : CreateRun
request = record {
  is_worker = false;
  has_artifacts = false;
  run_id = "run-1";
  inputs = [];
  workspace = none;
  negotiate = λ workspace. err "no runtime";
  accepts = λ e. true;
  value_errors = any_value;
}

abbrev no_runs : PersistedRuns
no_runs = []

abbrev created_by : Result CreationError (PersistedRuns × RunState) → PersistedRuns × RunState
created_by (ok made) = made
created_by (err e) = ([], half_way)

-- What creating the run leaves, and the run that is stored then.
unfoldable created : PersistedRuns × RunState
unfolding create_run find_executable_nodes select materialize_events materialize_from
    apply_run_event continue_run dispatch apply_node_event node_step at_node input_errors
    value_issues create
created = created_by (create_run request endpoint [])

created_returned : create_run request endpoint [] ≡ ok created
unfolding created
created_returned = refl

abbrev run_or_empty : Option PersistedRun → PersistedRun
run_or_empty none = record { workflow = endpoint; events = [] }
run_or_empty (some run) = run

unfoldable stored_run : PersistedRun
unfolding created
stored_run = run_or_empty (lookup "run-1" created.0)

run_stored : Holds quiet.accepts "run-1" created.0 stored_run created.1
unfolding stored_run replay_run fold_events
run_stored = (refl, refl)

create_run_stores_example :
    (lookup "run-1" no_runs ≡ none)
    × (validate_inputs any_value endpoint [] ≡ ok tt)
    × ((events : List RunEvent) × Holds request.accepts "run-1" created.0
          (record { workflow = endpoint; events = events })
          created.1)
    × ((j : String) → "run-1" ≢ j → lookup j created.0 ≡ lookup j no_runs)
create_run_stores_example =
    create_run_stores request endpoint [] created.0 created.1 created_returned

validate_inputs_iff_example :
    (validate_inputs any_value endpoint [] ≡ ok tt) ↔ IsValidInput any_value endpoint []
validate_inputs_iff_example = validate_inputs_iff any_value endpoint []

tick-Advanced_example : Advanced quiet "run-1" created.0 stored_run (tick quiet created.0 "run-1")
tick-Advanced_example = tick-Advanced quiet "run-1" created.0 stored_run created.1 run_stored

abbrev status_of : Result EngineError RunState → Option RunStatus
status_of (err e) = none
status_of (ok s) = some s.status

-- Two steps run both nodes and end the run.
two_steps :
    status_of (tick quiet (tick quiet created.0 "run-1").0 "run-1").1 ≡ some RunStatus.succeeded
unfolding created tick load_state execute_attempt execute_runtime record_artifact attempt_call
    set_result set_unsafe_to_retry build_context find_ready_nodes commit_next commit append
    apply_attempt_event attempt_step finish_attempt do_if ◌>>=◌ replay_run fold_events
    apply_lifecycle_event
two_steps = refl

-- The progress behind the start of the first attempt, and behind its end.
unfoldable begun : Progress
unfolding created commit_next commit append apply_attempt_event attempt_step
begun =
    (commit_next quiet.accepts "run-1"
      (attempt (record { node_id = "build"; change = attempt_scheduled 1 "fake" })
        ∷ attempt (record { node_id = "build"; change = attempt_started 1 })
        ∷ [])
      (start_of quiet created.0 created.1)).0

unfoldable ended : Progress
unfolding begun finish_attempt do_if ◌>>=◌
ended =
    (finish_attempt quiet endpoint (step_node "build" []) "run-1" "build" 1 false
      (ExecutionResult.succeeded JsonValue.null) begun).0

ended_returned :
    finish_attempt quiet endpoint
      (step_node "build" [])
      "run-1"
      "build"
      1
      false
      (ExecutionResult.succeeded JsonValue.null)
      begun
    ≡ (ended, ok tt)
unfolding ended ◌>>=◌
ended_returned = refl

finish_attempt-Decides_example :
    Decides quiet endpoint
      (step_node "build" [])
      "run-1"
      "build"
      1
      false
      (ExecutionResult.succeeded JsonValue.null)
      ended.state
finish_attempt-Decides_example =
    finish_attempt-Decides quiet endpoint (step_node "build" []) "run-1" "build" 1 false
      (ExecutionResult.succeeded JsonValue.null) begun ended ended_returned

commit_fits_example : ¬ (
    commit quiet.accepts created.0 "run-1" created.1 []
    ≡ (created.0, err (conflict ConflictError.stale_sequence)))
commit_fits_example =
    commit_fits quiet.accepts created.0 "run-1" stored_run created.1 [] ConflictError.stale_sequence
      created.0 run_stored

abbrev old_run : PersistedRun
old_run = record { workflow = endpoint; events = first_events }

abbrev old_runs : PersistedRuns
old_runs = ("run-1", old_run) ∷ []

abbrev new_runs : PersistedRuns
new_runs = ("run-1", record old_run { events = first_events ++ last_events }) ∷ []

appended : append old_runs "run-1" 10 last_events ≡ ok new_runs
unfolding append
appended = refl

append-IsHistory_example :
    (10 ≡ length first_events)
    × (lookup "run-1" new_runs ≡ some (record old_run { events = first_events ++ last_events }))
    × IsHistory "run-1" 1 (first_events ++ last_events)
unfolding half_way
append-IsHistory_example =
    append-IsHistory old_runs "run-1" old_run 10 last_events new_runs refl
      (replay_run-IsHistory any_event first_events half_way_replayed).0 appended
