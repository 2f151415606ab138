-- ===== src/Store/Commits.antt =====
-- Fenced, idempotent commits and operator controls (packages/engine/src/durable-store.ts).
use anastom.Prelude.{
  ℕ, String, Bool, true, false, not, ◌&&◌, ◌||◌, List, [], ◌∷◌, ◌++◌, Option, none, some, ok, ◌>>=◌,
  ◌>>◌, guard, or_throw, get_last?, insert, lookup, ◌==◌, number_equality, text_equality,
  if◌then◌else◌,
}
use anastom.Run.Event.{
  ControlAction, RunEvent, RunEventPayload, operational, control_request_observed,
}
use anastom.Run.Reducer.{replay_run}
use anastom.Store.Types.{
  ControlReceipt, ControlRequest, ControlSubmission, FencedRunMutation, Host, MemoryControl,
  MemoryMutation, MemoryRun, MutationPayload, MutationReceipt, RunSnapshot, RunStoreErrorCode,
  SnapshotIdentity, Stored, run_store_error,
}
use anastom.Store.Snapshots.{assert_run_snapshot, assert_state_matches_workflow, rethrow}
use anastom.Store.Leases.{require_fence, validate_clock}

abbrev pub control_action_eq : ControlAction → ControlAction → Bool
control_action_eq ControlAction.pause ControlAction.pause = true
control_action_eq ControlAction.cancel ControlAction.cancel = true
control_action_eq _ _ = false

abbrev snapshot_identity : RunSnapshot → SnapshotIdentity
snapshot_identity s = record {
  version = s.version;
  reducer_version = s.reducer_version;
  run_id = s.run_id;
  definition_digest = s.definition_digest;
  sequence = s.sequence;
  state_digest = s.state_digest;
  event_prefix_digest = s.event_prefix_digest;
}

-- What `mutationPayloadDigest` digests.
abbrev pub mutation_payload : FencedRunMutation → MutationPayload
mutation_payload i = record {
  expected_sequence = i.expected_sequence;
  events = i.events;
  snapshot = elim i.snapshot [ none ↦ none | some s ↦ some (snapshot_identity s) ];
  handles_control_operation_id = i.handles_control_operation_id;
}

-- `events.at(-1)?.sequence ?? 0`, and `events[0]!.sequence` of a batch that is not empty.
abbrev pub last_sequence : List RunEvent → ℕ
last_sequence events = elim (get_last? events) [ none ↦ 0 | some e ↦ e.sequence ]

abbrev pub first_sequence : List RunEvent → ℕ
first_sequence [] = 0
first_sequence (e ∷ es) = e.sequence

-- The event is the observation of exactly this control.
abbrev pub observes : MemoryControl → RunEventPayload → Bool
observes c (operational (control_request_observed operation_id action recorded_at_ms)) =
    operation_id == c.operation_id
    && control_action_eq action c.action
    && recorded_at_ms == c.recorded_at_ms
observes c _ = false

unfoldable pub observations : MemoryControl → List RunEvent → List RunEvent
observations c [] = []
observations c (e ∷ es) = if observes c e.payload then e ∷ observations c es else observations c es

-- The only one of a list.
abbrev pub single : List RunEvent → Option RunEvent
single (e ∷ []) = some e
single _ = none

abbrev pub is_pending : MemoryControl → Bool
is_pending c = elim c.acknowledged_sequence [ none ↦ true | some n ↦ false ]

abbrev pub pending_control : Option MemoryControl → Option MemoryControl
pending_control none = none
pending_control (some c) = if is_pending c then some c else none

-- The controls behind the acknowledgement that the mutation asks for.
unfoldable pub acknowledge : MemoryRun → String → List RunEvent → Stored MemoryRun
unfolding observations
acknowledge run operation_id events = do
  c ←
      or_throw (pending_control (lookup operation_id run.controls))
        (run_store_error RunStoreErrorCode.control_conflict)
  e ← or_throw (single (observations c events)) (run_store_error RunStoreErrorCode.control_conflict)
  ok (record run {
    controls =
        insert operation_id (record c { acknowledged_sequence = some e.sequence }) run.controls;
  })

unfoldable pub acknowledge_control : MemoryRun → FencedRunMutation → Stored MemoryRun
unfolding acknowledge
acknowledge_control run i = elim i.handles_control_operation_id [
  | none ↦ ok run
  | some t ↦ if t == "" then ok run else acknowledge run t i.events
]

-- The snapshots of other sequences or reducers, then the new one.
unfoldable pub other_snapshots : RunSnapshot → List RunSnapshot → List RunSnapshot
other_snapshots s [] = []
other_snapshots s (t ∷ ts) =
    if not (t.sequence == s.sequence) || not (t.reducer_version == s.reducer_version)
    then t ∷ other_snapshots s ts
    else other_snapshots s ts

abbrev keep_snapshot : Option RunSnapshot → List RunSnapshot → List RunSnapshot
keep_snapshot none ts = ts
keep_snapshot (some s) ts = other_snapshots s ts ++ s ∷ []

abbrev pub receipt_for : FencedRunMutation → MutationReceipt
receipt_for i = record {
  run_id = i.lease.run_id;
  operation_id = i.operation_id;
  first_sequence = first_sequence i.events;
  last_sequence = last_sequence i.events;
  replayed = false;
}

module _ (host : Host) where
  abbrev pub check_snapshot : MemoryRun → FencedRunMutation → List RunEvent → Stored (Unit {0})
  check_snapshot run i combined = elim i.snapshot [
    | none ↦ ok tt
    | some s ↦ assert_run_snapshot host s run.workflow combined
  ]

  -- The write of an operation that was not committed before.
  unfoldable pub append_batch : MemoryRun → FencedRunMutation → Stored (MutationReceipt × MemoryRun)
  unfolding acknowledge_control
  append_batch run i = do
    guard (last_sequence run.events == i.expected_sequence)
        (run_store_error RunStoreErrorCode.sequence_conflict)
    let combined = run.events ++ i.events
    s ← rethrow (replay_run host.accepts_event combined)
    assert_state_matches_workflow s run.workflow
    check_snapshot run i combined
    acknowledged ← acknowledge_control run i
    ok (
      receipt_for i,
      record acknowledged {
        events = combined;
        snapshots = keep_snapshot i.snapshot run.snapshots;
        mutations =
            insert i.operation_id
              (record {
                payload_digest = host.payload_digest (mutation_payload i);
                receipt = receipt_for i;
              })
              run.mutations;
      },
    )

  -- The answer to an operation that was committed before.
  unfoldable pub replay_receipt :
      MemoryRun → FencedRunMutation → MemoryMutation → Stored (MutationReceipt × MemoryRun)
  replay_receipt run i prior = do
    guard (prior.payload_digest == host.payload_digest (mutation_payload i))
        (run_store_error RunStoreErrorCode.idempotency_conflict)
    ok (record prior.receipt { replayed = true }, run)

  unfoldable pub commit : MemoryRun → FencedRunMutation → ℕ → Stored (MutationReceipt × MemoryRun)
  unfolding append_batch replay_receipt
  commit run i now = do
    validate_clock now
    require_fence run i.lease now
    elim (lookup i.operation_id run.mutations) [
      | none ↦ append_batch run i
      | some prior ↦ replay_receipt run i prior
    ]

abbrev pub control_request : MemoryControl → ControlRequest
control_request c = record { submission = c.submission; recorded_at_ms = c.recorded_at_ms }

unfoldable pub submit_control :
    MemoryRun → ControlSubmission → ℕ → Stored (ControlReceipt × MemoryRun)
submit_control run i now = elim (lookup i.operation_id run.controls) [
  | some prior ↦ (do
    guard (control_action_eq prior.action i.action)
        (run_store_error RunStoreErrorCode.control_conflict)
    ok (record { request = control_request prior; replayed = true }, run))
  | none ↦ (do
    validate_clock now
    let c : MemoryControl = record {
      submission = i;
      recorded_at_ms = now;
      acknowledged_sequence = none;
    }
    ok (
      record { request = control_request c; replayed = false },
      record run { controls = insert i.operation_id c run.controls },
    ))
]
