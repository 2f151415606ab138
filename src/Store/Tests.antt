-- ===== src/Store/Tests.antt =====
-- A stored run and the theorems about the store at it.
use anastom.Prelude.{
  ◌≤◌, length, ℕ, String, Bool, true, false, ◌≡◌, refl, inl, List, [], ◌∷◌, Option, none, some, ok,
  err, arith, eq_iff, ◌==◌, text_equality, lookup,
}
use anastom.Run.State.{RunState}
use anastom.Run.Event.{ControlAction, RunEvent, operational, control_request_observed}
use anastom.Run.Reducer.{apply_run_event, dispatch, fold_events, replay_run}
use anastom.Run.Guards.{at_node}
use anastom.Run.Attempts.{apply_attempt_event}
use anastom.Run.Observations.{apply_operational_event}
use anastom.Run.Nodes.{apply_node_event}
use anastom.Run.Lifecycle.{apply_lifecycle_event}
use anastom.Run.Validity.{RunValid}
use anastom.Run.Extension.{Extends}
use anastom.Run.Tests.{any_event, first_events, half_way, half_way_replayed, last_events}
use anastom.Workflow.Tests.{endpoint}
use anastom.Store.Types.{
  AcquireReleasedRun, FencedRunMutation, Host, LocalProcessIdentity, MemoryControl, MemoryRun,
  MutationReceipt, RunLease, RunLeaseToken, RunStoreErrorCode, Stored, TakeoverExpiredRun,
  run_store_error,
}
use anastom.Store.Checks.{
  assert_control_limit, is_identifier, is_identifier_codes, codes, is_safe, is_timestamp,
}
use anastom.Store.Snapshots.{
  insert_sorted, same_texts, sort, codes_le, state_matches_workflow, assert_state_matches_workflow,
}
use anastom.Store.Leases.{
  acquire_released, lease_expiry, new_lease, next_generation, renew, release, require_fence,
  run_lease_duration_ms, validate_clock,
}
use anastom.Store.Commits.{
  acknowledge, acknowledge_control, append_batch, commit, control_request, is_pending, observations,
}
use anastom.Store.Operations.{
  Operation, acquire, take_over, commit_events, kept_or, perform, perform_all, renew_lease,
  release_lease,
}
use anastom.Store.Fencing.{IsOwnershipConflict, stale_token_refused}
use anastom.Store.Tenure.{Retains, live_lease_survives}
use anastom.Store.Terms.{LeaseValid, perform_all-LeaseValid}
use anastom.Store.Idempotence.{RepliesOrThrows, acknowledged_once, commit_retry, commit_reuse}
use anastom.Store.Histories.{stored_history_replays}
use anastom.Store.Runs.{require_run}
use anastom.Store.Controls.{insert_oldest, list_pending, oldest_first, pending, pending_controls}
use anastom.Store.Listing.{AreOldestFirst, pending_controls_bounded}

-- Digests that keep a part of what they digest.
abbrev plain_host : Host
plain_host = record {
  accepts_event = any_event;
  accepts_workflow = λ w. true;
  event_json = λ e. e.run_id;
  state_json = λ s. s.run_id;
  parse_state = λ t. none;
  same_state = λ a b. a.run_id == b.run_id;
  workflow_digest = λ w. w.id;
  digest_bytes = λ t. t;
  link_digest = λ l. l.previous;
  payload_digest = λ p. elim p.handles_control_operation_id [ none ↦ "" | some t ↦ t ];
  byte_length = λ t. 1;
}

abbrev this_process : LocalProcessIdentity
this_process = record {
  version = "1";
  host_identity_digest = "h";
  boot_identity_digest = "b";
  pid = 42;
  start_token = "t";
}

abbrev lease_of : String → ℕ → Bool → RunLease
lease_of owner generation released = record {
  run_id = "run-1";
  owner_id = owner;
  owner = this_process;
  generation = generation;
  acquired_at_ms = 0;
  renewed_at_ms = 0;
  expires_at_ms = run_lease_duration_ms;
  released = released;
}

abbrev pause_control : MemoryControl
pause_control = record {
  submission = record { run_id = "run-1"; operation_id = "pause-1"; action = ControlAction.pause };
  recorded_at_ms = 50;
  acknowledged_sequence = none;
}

abbrev stored : RunLease → MemoryRun
stored l = record {
  workflow = endpoint;
  events = first_events;
  lease = l;
  mutations = [];
  controls = ("pause-1", pause_control) ∷ [];
  snapshots = [];
}

abbrev owned : MemoryRun
owned = stored (lease_of "first" 1 false)

abbrev abandoned : MemoryRun
abandoned = stored (lease_of "first" 1 true)

abbrev token : String → ℕ → RunLeaseToken
token owner generation = record { run_id = "run-1"; owner_id = owner; generation = generation }

abbrev finishing : Option String → FencedRunMutation
finishing handled = record {
  lease = token "first" 1;
  operation_id = "commit-1";
  expected_sequence = 10;
  events = last_events;
  snapshot = none;
  handles_control_operation_id = handled;
}

abbrev second_owner : AcquireReleasedRun
second_owner = record { run_id = "run-1"; owner_id = "second"; owner = this_process }

abbrev second_takeover : TakeoverExpiredRun
second_takeover = record {
  acquisition = second_owner;
  observed_lease = lease_of "first" 1 false;
  absence_observed_at_ms = 20_000;
}

unfoldable acquired : MemoryRun
unfolding acquire_released validate_clock new_lease next_generation lease_expiry is_timestamp
    is_safe
acquired = kept_or abandoned (acquire_released abandoned second_owner 200)

acquired_ok : acquire_released abandoned second_owner 200 ≡ ok acquired
unfolding acquired is_safe
acquired_ok = refl

clock_ok : is_timestamp 300 ≡ true
unfolding is_timestamp is_safe
clock_ok = refl

abbrev second_renews : List (ℕ × Operation)
second_renews = (300, renew_lease (token "second" 2)) ∷ []

stale_token_refused_example :
    IsOwnershipConflict
      (commit plain_host (perform_all plain_host acquired second_renews) (finishing none) 300)
    × (renew (perform_all plain_host acquired second_renews) (token "first" 1) 300 ≡ (
      perform_all plain_host acquired second_renews,
      err (run_store_error RunStoreErrorCode.ownership_conflict),
    ))
    × IsOwnershipConflict
        (release (perform_all plain_host acquired second_renews) (token "first" 1))
stale_token_refused_example =
    stale_token_refused plain_host abandoned acquired second_owner second_takeover 200
      (inl acquired_ok) second_renews (finishing none) 300 (omega arith) clock_ok

abbrev renewing : List (ℕ × Operation)
renewing = (14_000, renew_lease (token "first" 1)) ∷ (15_000, release_lease (token "first" 1)) ∷ []

owned-LeaseValid : LeaseValid owned.lease
owned-LeaseValid = record {
  acquired_first = omega arith;
  renewed_in_time = omega arith;
  bounded = omega arith;
}

-- The second owner tries to acquire, to take over and to release, and the first owner renews.
abbrev contending : List (ℕ × Operation)
contending =
    (100, acquire second_owner)
    ∷ (200, take_over second_takeover)
    ∷ (300, renew_lease (token "first" 1))
    ∷ (400, release_lease (token "second" 2))
    ∷ []

live_lease_survives_example :
    Retains owned.lease (perform_all plain_host owned contending).lease
    × (require_fence (perform_all plain_host owned contending) (token "first" 1) 14_000 ≡ ok tt)
live_lease_survives_example =
    live_lease_survives plain_host owned contending 14_000 owned-LeaseValid refl
      (omega arith, (omega arith, (omega arith, ((omega arith, refl), tt)))) (omega arith)

perform_all-LeaseValid_example : LeaseValid (perform_all plain_host owned renewing).lease
perform_all-LeaseValid_example = perform_all-LeaseValid plain_host owned renewing owned-LeaseValid

abbrev first_answer : Stored (MutationReceipt × MemoryRun) → MutationReceipt × MemoryRun
first_answer (ok p) = p
first_answer (err e) = (
  record {
    run_id = "";
    operation_id = "";
    first_sequence = 0;
    last_sequence = 0;
    replayed = false;
  },
  owned,
)

unfoldable committed : MutationReceipt × MemoryRun
unfolding commit validate_clock is_timestamp is_safe require_fence append_batch acknowledge_control
    assert_state_matches_workflow state_matches_workflow sort insert_sorted same_texts codes
    codes_le replay_run fold_events apply_run_event dispatch apply_node_event apply_attempt_event
    apply_lifecycle_event at_node
committed = first_answer (commit plain_host owned (finishing none) 100)

committed_ok : commit plain_host owned (finishing none) 100 ≡ ok (committed.0, committed.1)
unfolding committed is_safe
committed_ok = refl

abbrev later_run : MemoryRun
later_run = perform_all plain_host committed.1 ((200, renew_lease (token "first" 1)) ∷ [])

later_fence_ok : require_fence later_run (token "first" 1) 300 ≡ ok tt
unfolding committed perform_all perform renew is_safe lease_expiry
later_fence_ok = refl

commit_retry_example :
    commit plain_host later_run (finishing none) 300
    ≡ ok (record committed.0 { replayed = true }, later_run)
commit_retry_example =
    commit_retry plain_host owned (finishing none) 100 committed_ok
      ((200, renew_lease (token "first" 1)) ∷ []) 300 clock_ok later_fence_ok

commit_reuse_example :
    commit plain_host later_run (finishing (some "pause-1")) 300
    ≡ err (run_store_error RunStoreErrorCode.idempotency_conflict)
commit_reuse_example =
    commit_reuse plain_host owned (finishing none) 100 committed_ok
      ((200, renew_lease (token "first" 1)) ∷ []) (finishing (some "pause-1")) 300 refl
      (λ same. let clash : false ≡ true = (eq_iff "" "pause-1").1 same in cc) clock_ok
      later_fence_ok

abbrev observed_pause : RunEvent
observed_pause = record {
  payload = operational (control_request_observed "pause-1" ControlAction.pause 50);
  run_id = "run-1";
  sequence = 11;
}

-- A commit that acknowledges the pause, and one that tries to do so again.
abbrev pausing : String → ℕ → FencedRunMutation
pausing operation_id expected = record {
  lease = token "first" 1;
  operation_id = operation_id;
  expected_sequence = expected;
  events = observed_pause ∷ [];
  snapshot = none;
  handles_control_operation_id = some "pause-1";
}

unfoldable paused_once : MutationReceipt × MemoryRun
unfolding committed acknowledge observations apply_operational_event
paused_once = first_answer (commit plain_host owned (pausing "commit-2" 10) 100)

paused_once_ok :
    commit plain_host owned (pausing "commit-2" 10) 100 ≡ ok (paused_once.0, paused_once.1)
unfolding paused_once is_safe
paused_once_ok = refl

acknowledged_once_example :
    (c : MemoryControl) × (e : RunEvent) × (lookup "pause-1" owned.controls ≡ some c)
    × (is_pending c ≡ true)
    × (observations c (observed_pause ∷ []) ≡ e ∷ [])
    × (lookup "pause-1" (perform_all plain_host paused_once.1 renewing).controls
        ≡ some (record c { acknowledged_sequence = some e.sequence }))
    × RepliesOrThrows (perform_all plain_host paused_once.1 renewing) (pausing "commit-3" 11) (
        commit plain_host
          (perform_all plain_host paused_once.1 renewing)
          (pausing "commit-3" 11)
          14_500)
acknowledged_once_example =
    acknowledged_once plain_host owned (pausing "commit-2" 10) "pause-1" 100 refl refl refl
      paused_once_ok renewing (pausing "commit-3" 11) 14_500 refl

half_way_matches : state_matches_workflow half_way endpoint ≡ true
unfolding half_way state_matches_workflow sort insert_sorted same_texts codes codes_le
half_way_matches = refl

abbrev committing : List (ℕ × Operation)
committing = (100, commit_events (finishing none)) ∷ renewing

stored_history_replays_example :
    ((perform_all plain_host owned committing).workflow ≡ endpoint)
    × ((s' : RunState) × (replay_run any_event (perform_all plain_host owned committing).events
          ≡ ok s')
        × (state_matches_workflow s' endpoint ≡ true)
        × RunValid s'
        × Extends half_way s')
stored_history_replays_example =
    stored_history_replays plain_host owned committing half_way half_way_replayed half_way_matches

abbrev any_order : String → String → Bool
any_order a b = true

listed_ok :
    pending_controls any_order (("run-1", owned) ∷ []) "run-1" 10
    ≡ ok (control_request pause_control ∷ [])
unfolding pending_controls is_identifier is_identifier_codes codes assert_control_limit is_safe
    require_run list_pending oldest_first insert_oldest pending
listed_ok = refl

pending_controls_bounded_example :
    (length (control_request pause_control ∷ []) ≤ 10)
    × (10 ≤ 100)
    × AreOldestFirst (control_request pause_control ∷ [])
pending_controls_bounded_example =
    pending_controls_bounded any_order (("run-1", owned) ∷ []) "run-1" 10 listed_ok
