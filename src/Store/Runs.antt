-- ===== src/Store/Runs.antt =====
-- The store of all runs (packages/engine/src/durable-store.ts, `InMemoryDurableRunStore`): the map from
-- run identities, creation, and each operation behind its validation. An operation that throws leaves
-- the map as it is, but for `renew`, which returns the map in both cases.
use anastom.Prelude.{
  ℕ, String, Bool, true, false, not, ◌&&◌, [], ◌∷◌, Option, none, some, Dict, lookup, insert, ok,
  err, ◌>>=◌, ◌>>◌, guard, or_throw, length, ◌==◌, text_equality,
}
use anastom.Run.Reducer.{replay_run}
use anastom.Store.Types.{
  AcquireReleasedRun, ControlReceipt, ControlSubmission, CreateOwnedRun, FencedRunMutation, Host,
  MemoryRun, MutationReceipt, OwnedRunReceipt, RunLease, RunLeaseToken, RunStoreErrorCode, Stored,
  TakeoverExpiredRun, run_store_error, type_error,
}
use anastom.Store.Checks.{
  is_identifier, is_local_process_identity, is_nonempty_batch, is_run_lease, is_run_lease_token,
  is_timestamp, is_uuid, validate_acquisition, validate_control_submission, validate_mutation,
}
use anastom.Store.Snapshots.{assert_run_snapshot, assert_state_matches_workflow, rethrow}
use anastom.Store.Leases.{
  acquire_released, lease_expiry, release, renew, takeover_expired, token_for, validate_clock,
}
use anastom.Store.Commits.{commit, mutation_payload, submit_control}

abbrev pub Runs : Type 0
Runs = Dict MemoryRun

unfoldable pub require_run : Runs → String → Stored MemoryRun
require_run runs i = or_throw (lookup i runs) (run_store_error RunStoreErrorCode.not_found)

unfoldable pub inspect_lease : Runs → String → Stored (Option RunLease)
inspect_lease runs i = do
  guard (is_identifier i) type_error
  ok (elim (lookup i runs) [ none ↦ none | some run ↦ some run.lease ])

module _ (host : Host) where
  unfoldable pub validate_create_owned_run : CreateOwnedRun → Stored (Unit {0})
  validate_create_owned_run i = do
    guard
        (is_identifier i.run_id
          && is_uuid i.owner_id
          && is_local_process_identity host i.owner
          && is_identifier i.operation_id
          && host.accepts_workflow i.workflow
          && is_nonempty_batch i.initial_events)
        type_error
    s ← rethrow (replay_run host.accepts_event i.initial_events)
    guard (s.run_id == i.run_id) type_error
    assert_state_matches_workflow s i.workflow
    assert_run_snapshot host i.snapshot i.workflow i.initial_events

  -- The first lease of a run.
  abbrev pub first_lease : CreateOwnedRun → ℕ → ℕ → RunLease
  first_lease i now expires = record {
    run_id = i.run_id;
    owner_id = i.owner_id;
    owner = i.owner;
    generation = 1;
    acquired_at_ms = now;
    renewed_at_ms = now;
    expires_at_ms = expires;
    released = false;
  }

  abbrev pub creation_receipt : CreateOwnedRun → MutationReceipt
  creation_receipt i = record {
    run_id = i.run_id;
    operation_id = i.operation_id;
    first_sequence = 1;
    last_sequence = length i.initial_events;
    replayed = false;
  }

  -- The creation as the mutation whose payload is digested.
  abbrev pub creation_mutation : CreateOwnedRun → RunLease → FencedRunMutation
  creation_mutation i l = record {
    lease = token_for l;
    operation_id = i.operation_id;
    expected_sequence = 0;
    events = i.initial_events;
    snapshot = some i.snapshot;
    handles_control_operation_id = none;
  }

  abbrev pub created_run : CreateOwnedRun → RunLease → MemoryRun
  created_run i l = record {
    workflow = i.workflow;
    events = i.initial_events;
    lease = l;
    mutations =
        (
          i.operation_id,
          record {
            payload_digest = host.payload_digest (mutation_payload (creation_mutation i l));
            receipt = creation_receipt i;
          },
        )
        ∷ [];
    controls = [];
    snapshots = i.snapshot ∷ [];
  }

  abbrev has_run : Runs → String → Bool
  has_run runs i = elim (lookup i runs) [ none ↦ false | some run ↦ true ]

  unfoldable pub create_owned : Runs → CreateOwnedRun → ℕ → Stored (OwnedRunReceipt × Runs)
  create_owned runs i now = do
    validate_create_owned_run i
    guard (not (has_run runs i.run_id)) (run_store_error RunStoreErrorCode.ownership_conflict)
    validate_clock now
    expires ← lease_expiry now
    let l = first_lease i now expires
    ok (
      record { lease = token_for l; mutation = creation_receipt i },
      insert i.run_id (created_run i l) runs,
    )

  unfoldable pub acquire_in : Runs → AcquireReleasedRun → ℕ → Stored (RunLeaseToken × Runs)
  acquire_in runs i now = do
    validate_acquisition host i
    run ← require_run runs i.run_id
    run' ← acquire_released run i now
    ok (token_for run'.lease, insert i.run_id run' runs)

  unfoldable pub takeover_in : Runs → TakeoverExpiredRun → ℕ → Stored (RunLeaseToken × Runs)
  takeover_in runs i now = do
    validate_acquisition host i.acquisition
    guard (is_run_lease host i.observed_lease && is_timestamp i.absence_observed_at_ms) type_error
    run ← require_run runs i.acquisition.run_id
    run' ← takeover_expired run i now
    ok (token_for run'.lease, insert i.acquisition.run_id run' runs)

  abbrev renew_found : Runs → RunLeaseToken → ℕ → Stored MemoryRun → Runs × Stored RunLease
  renew_found runs t now (err e) = (runs, err e)
  renew_found runs t now (ok run) =
      let (run', answer) = renew run t now in (insert t.run_id run' runs, answer)

  unfoldable pub renew_in : Runs → RunLeaseToken → ℕ → Runs × Stored RunLease
  renew_in runs t now =
      renew_found runs t now (guard (is_run_lease_token t) type_error >> require_run runs t.run_id)

  unfoldable pub release_in : Runs → RunLeaseToken → Stored Runs
  release_in runs t = do
    guard (is_run_lease_token t) type_error
    run ← require_run runs t.run_id
    run' ← release run t
    ok (insert t.run_id run' runs)

  unfoldable pub commit_in : Runs → FencedRunMutation → ℕ → Stored (MutationReceipt × Runs)
  commit_in runs i now = do
    validate_mutation i
    run ← require_run runs i.lease.run_id
    answer ← commit host run i now
    ok (answer.0, insert i.lease.run_id answer.1 runs)

  unfoldable pub submit_in : Runs → ControlSubmission → ℕ → Stored (ControlReceipt × Runs)
  submit_in runs i now = do
    validate_control_submission i
    run ← require_run runs i.run_id
    answer ← submit_control run i now
    ok (answer.0, insert i.run_id answer.1 runs)
