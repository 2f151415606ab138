-- ===== src/Run/Tests.antt =====
-- A run of two nodes, its history, and the theorems about the reducer at that history.
use anastom.Prelude.{
  ℕ, ◌+◌, String, Bool, true, ◌≡◌, refl, List, [], ◌∷◌, ◌++◌, map, Result, ok, err,
}
use anastom.Json.{JsonValue}
use anastom.Contract.{FailureCategory}
use anastom.Run.State.{RunState, RunStatus}
use anastom.Run.Event.{
  Creation, ReadyReason, RunEvent, RunEventPayload, RunOutcome, run_created, attempt, node,
  lifecycle, attempt_scheduled, attempt_started, attempt_succeeded, attempt_failed, node_ready,
  node_succeeded, run_completed,
}
use anastom.Run.Guards.{TransitionError}
use anastom.Run.Guards.{at_node}
use anastom.Run.Attempts.{apply_attempt_event}
use anastom.Run.Nodes.{apply_node_event}
use anastom.Run.Lifecycle.{apply_lifecycle_event}
use anastom.Run.Reducer.{
  apply_run_event, dispatch, fold_events, initial_state, materialize_events, materialize_from,
  replay_run,
}
use anastom.Run.Validity.{RunValid}
use anastom.Run.Invariant.{replay_run-RunValid}
use anastom.Run.RunGraph.{RunMoves, dispatch-RunMoves}
use anastom.Run.History.{IsHistory, materialize_events-replay, replay_run-IsHistory}
use anastom.Run.Extension.{Extends, replay_run-Extends, replay_run_terminal}

abbrev pub any_event : RunEvent → Bool
any_event e = true

abbrev creation : Creation
creation = record {
  workflow_instance_id = "run-1:root";
  workflow_id = "endpoint";
  workflow_version = "1";
  node_ids = "build" ∷ "verify" ∷ [];
  inputs = [];
}

abbrev ready : String → RunEventPayload
ready i = node (record { node_id = i; change = node_ready ReadyReason.dependencies_satisfied })

abbrev done : String → RunEventPayload
done i = node (record { node_id = i; change = node_succeeded })

-- One attempt that succeeds.
abbrev works : String → ℕ → List RunEventPayload
works i n =
    attempt (record { node_id = i; change = attempt_scheduled n "fake" })
    ∷ attempt (record { node_id = i; change = attempt_started n })
    ∷ attempt (record { node_id = i; change = attempt_succeeded n JsonValue.null })
    ∷ []

-- One attempt that fails and is retried.
abbrev retries : String → ℕ → List RunEventPayload
retries i n =
    attempt (record { node_id = i; change = attempt_scheduled n "fake" })
    ∷ attempt (record { node_id = i; change = attempt_started n })
    ∷ attempt (record {
      node_id = i;
      change = attempt_failed n (record { category = FailureCategory.tool; message = "exit 1" });
    })
    ∷ node (record { node_id = i; change = node_ready ReadyReason.retry })
    ∷ []

abbrev first_payloads : List RunEventPayload
first_payloads =
    run_created creation
    ∷ ready "build"
    ∷ (retries "build" 1 ++ (works "build" 2 ++ done "build" ∷ []))

abbrev last_payloads : List RunEventPayload
last_payloads =
    ready "verify"
    ∷ (works "verify" 1 ++ done "verify" ∷ lifecycle (run_completed RunOutcome.succeeded) ∷ [])

abbrev stamped : ℕ → List RunEventPayload → List RunEvent
stamped k [] = []
stamped k (p ∷ ps) = record { payload = p; run_id = "run-1"; sequence = k } ∷ stamped (k + 1) ps

abbrev pub first_events : List RunEvent
first_events = stamped 1 first_payloads

abbrev pub last_events : List RunEvent
last_events = stamped 11 last_payloads

abbrev state_of : Result TransitionError RunState → RunState
state_of (ok s) = s
state_of (err x) = initial_state "" creation

-- The states behind the first node, behind the second and at the end of no event.
unfoldable pub half_way : RunState
unfolding replay_run fold_events apply_run_event dispatch apply_node_event apply_attempt_event
    at_node
half_way = state_of (replay_run any_event first_events)

unfoldable pub finished : RunState
unfolding half_way apply_lifecycle_event
finished = state_of (replay_run any_event (first_events ++ last_events))

readied : RunState
unfolding half_way
readied = state_of (dispatch (initial_state "run-1" creation) (ready "build"))

pub half_way_replayed : replay_run any_event first_events ≡ ok half_way
unfolding half_way
half_way_replayed = refl

pub finished_replayed : replay_run any_event (first_events ++ last_events) ≡ ok finished
unfolding finished
finished_replayed = refl

finished_succeeded : finished.status ≡ RunStatus.succeeded
unfolding finished
finished_succeeded = refl

replay_run-RunValid_example : RunValid finished
replay_run-RunValid_example =
    replay_run-RunValid any_event (first_events ++ last_events) finished_replayed

dispatch-RunMoves_example : RunMoves (initial_state "run-1" creation) readied
unfolding readied
dispatch-RunMoves_example =
    dispatch-RunMoves (initial_state "run-1" creation) (ready "build") {s' = readied} refl

replay_run-IsHistory_example : IsHistory half_way.run_id 1 first_events × (half_way.sequence ≡ 10)
replay_run-IsHistory_example = replay_run-IsHistory any_event first_events half_way_replayed

materialize_events-replay_example :
    (replay_run any_event first_events ≡ ok half_way)
    × (map (λ e. e.payload) first_events ≡ first_payloads)
unfolding half_way materialize_events materialize_from
materialize_events-replay_example =
    materialize_events-replay any_event "run-1" first_payloads {es = first_events} {s = half_way}
      refl

replay_run-Extends_example : Extends half_way finished
replay_run-Extends_example =
    replay_run-Extends any_event first_events last_events half_way_replayed finished_replayed

abbrev late_event : RunEvent
late_event = record { payload = ready "build"; run_id = "run-1"; sequence = 17 }

replay_run_terminal_example :
    (x : TransitionError) × (replay_run any_event ((first_events ++ last_events) ++ late_event ∷ [])
      ≡ err x)
unfolding finished
replay_run_terminal_example =
    replay_run_terminal any_event (first_events ++ last_events) late_event [] finished_replayed refl
