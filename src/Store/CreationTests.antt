-- ===== src/Store/CreationTests.antt =====
-- The creation of a concrete run, and its snapshot behind further events.
use anastom.Prelude.{
  ℕ, String, true, false, ◌≡◌, ◌≢◌, List, [], ◌∷◌, none, some, lookup, ok, err, refl, ◌==◌,
  text_equality,
}
use anastom.Run.State.{RunState}
use anastom.Run.Reducer.{apply_run_event, dispatch, fold_events, replay_run}
use anastom.Run.Guards.{at_node}
use anastom.Run.Attempts.{apply_attempt_event}
use anastom.Run.Nodes.{apply_node_event}
use anastom.Run.Validity.{RunValid}
use anastom.Run.Tests.{any_event, first_events, half_way, half_way_replayed}
use anastom.Workflow.Tests.{endpoint}
use anastom.Store.Types.{CreateOwnedRun, Host, MemoryRun, OwnedRunReceipt, Stored}
use anastom.Store.Checks.{
  codes, is_digest, is_identifier, is_identifier_codes, is_local_process_identity, is_safe,
  is_timestamp, is_uuid, matches_each, repeated, same_snapshot,
}
use anastom.Store.Snapshots.{
  assert_run_snapshot, assert_state_matches_workflow, codes_le, create_run_snapshot,
  create_run_snapshot_from_state, empty_event_history_digest, extend_event_history_digest,
  history_digest, insert_sorted, same_texts, sort, state_matches_workflow,
}
use anastom.Store.Leases.{lease_expiry, renew, require_fence, validate_clock}
use anastom.Store.Operations.{Operation, perform, perform_all, renew_lease}
use anastom.Store.Terms.{LeaseValid}
use anastom.Store.Runs.{Runs, create_owned, validate_create_owned_run}
use anastom.Store.Creation.{created_run_lives}
use anastom.Store.Loading.{LoadMode, LoadedRun, load_run}
use anastom.Store.Restoration.{IsBacked, load_answers_replay}
use anastom.Run.Extension.{Extends}

abbrev some_digest : String
some_digest = "sha256:00112233445566778899aabbccddeeff00112233445566778899aabbccddeeff"

abbrev owner_uuid : String
owner_uuid = "123e4567-e89b-42d3-a456-426614174000"

abbrev same_digest_host : Host
same_digest_host = record {
  accepts_event = any_event;
  accepts_workflow = λ w. true;
  event_json = λ e. e.run_id;
  state_json = λ s. s.run_id;
  parse_state = λ t. some half_way;
  same_state = λ a b. a.run_id == b.run_id;
  workflow_digest = λ w. w.id;
  digest_bytes = λ t. some_digest;
  link_digest = λ l. some_digest;
  payload_digest = λ p. some_digest;
  byte_length = λ t. 1;
}

abbrev new_run : CreateOwnedRun
new_run = record {
  run_id = "run-1";
  workflow = endpoint;
  initial_events = first_events;
  owner_id = owner_uuid;
  owner = record {
    version = "anastom.dev/local-process/v1alpha1";
    host_identity_digest = some_digest;
    boot_identity_digest = some_digest;
    pid = 42;
    start_token = "start";
  };
  operation_id = "create-1";
  snapshot = record {
    version = "anastom.dev/run-snapshot/v1alpha1";
    reducer_version = "anastom.dev/run-reducer/v1alpha1";
    run_id = "run-1";
    definition_digest = "endpoint";
    sequence = 10;
    state_json = "run-1";
    state_digest = some_digest;
    event_prefix_digest = some_digest;
  };
}

abbrev created_or_nothing : Stored (OwnedRunReceipt × Runs) → Runs
created_or_nothing (ok (r, runs)) = runs
created_or_nothing (err e) = []

unfoldable created : Runs
unfolding create_owned validate_create_owned_run is_identifier is_identifier_codes codes is_uuid
    matches_each repeated is_local_process_identity is_digest is_safe is_timestamp
    assert_run_snapshot create_run_snapshot create_run_snapshot_from_state history_digest
    extend_event_history_digest empty_event_history_digest same_snapshot
    assert_state_matches_workflow state_matches_workflow sort insert_sorted same_texts codes_le
    validate_clock lease_expiry replay_run fold_events apply_run_event dispatch apply_node_event
    apply_attempt_event at_node
created = created_or_nothing (create_owned same_digest_host [] new_run 1_000)

abbrev answer : OwnedRunReceipt
answer = record {
  lease = record { run_id = "run-1"; owner_id = owner_uuid; generation = 1 };
  mutation = record {
    run_id = "run-1";
    operation_id = "create-1";
    first_sequence = 1;
    last_sequence = 10;
    replayed = false;
  };
}

created_ok : create_owned same_digest_host [] new_run 1_000 ≡ ok (answer, created)
unfolding created
created_ok = refl

abbrev renewed_once : List (ℕ × Operation)
renewed_once = (2_000, renew_lease answer.lease) ∷ []

created_run_lives_example :
    (run : MemoryRun) × (lookup {V = MemoryRun} "run-1" [] ≡ none)
    × (lookup "run-1" created ≡ some run)
    × ((k : String) → k ≢ "run-1" → lookup k created ≡ none)
    × (require_fence run answer.lease 1_000 ≡ ok tt)
    × LeaseValid (perform_all same_digest_host run renewed_once).lease
    × ((s : RunState) × (replay_run any_event (perform_all same_digest_host run renewed_once).events
          ≡ ok s)
        × (state_matches_workflow s endpoint ≡ true)
        × (s.run_id ≡ "run-1")
        × RunValid s)
created_run_lives_example =
    created_run_lives same_digest_host [] new_run 1_000 created_ok renewed_once

abbrev created_run : MemoryRun
created_run = record {
  workflow = endpoint;
  events = first_events;
  lease = record {
    run_id = "run-1";
    owner_id = owner_uuid;
    owner = new_run.owner;
    generation = 1;
    acquired_at_ms = 1_000;
    renewed_at_ms = 1_000;
    expires_at_ms = 16_000;
    released = false;
  };
  mutations = [];
  controls = [];
  snapshots = new_run.snapshot ∷ [];
}

half_way_fits : state_matches_workflow half_way endpoint ≡ true
unfolding created half_way
half_way_fits = refl

snapshot_made :
    create_run_snapshot same_digest_host endpoint
      (perform_all same_digest_host created_run renewed_once).events
    ≡ ok new_run.snapshot
unfolding created perform_all perform renew require_fence
snapshot_made = refl

load_answers_replay_example :
    (l : LoadedRun) × (load_run same_digest_host LoadMode.complete_history
        (perform_all same_digest_host created_run renewed_once)
      ≡ ok l)
    × (replay_run any_event (perform_all same_digest_host created_run renewed_once).events
        ≡ ok l.state)
    × RunValid l.state
    × Extends half_way l.state
    × IsBacked same_digest_host
        (perform_all same_digest_host created_run renewed_once)
        l.state
        l.snapshot_sequence
    × (l.events ≡ some (perform_all same_digest_host created_run renewed_once).events)
load_answers_replay_example =
    load_answers_replay same_digest_host created_run renewed_once half_way LoadMode.complete_history
      half_way_replayed half_way_fits snapshot_made
