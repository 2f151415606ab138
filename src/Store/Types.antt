-- ===== src/Store/Types.antt =====
-- The records of the durable store (packages/engine/src/durable-store.ts).
use anastom.Prelude.{ℕ, String, Bool, List, Option, Dict, Result}
use anastom.Run.State.{RunState}
use anastom.Run.Event.{ControlAction, RunEvent}
use anastom.Run.Guards.{TransitionError}
use anastom.Workflow.Definition.{WorkflowDefinition}

pub record LocalProcessIdentity : Type 0 where
  pub version : String
  pub host_identity_digest : String
  pub boot_identity_digest : String
  pub pid : ℕ
  pub start_token : String

pub record RunLease : Type 0 where
  pub run_id : String
  pub owner_id : String
  pub owner : LocalProcessIdentity
  pub generation : ℕ
  pub acquired_at_ms : ℕ
  pub renewed_at_ms : ℕ
  pub expires_at_ms : ℕ
  pub released : Bool

pub record RunLeaseToken : Type 0 where
  pub run_id : String
  pub owner_id : String
  pub generation : ℕ

pub record RunSnapshot : Type 0 where
  pub version : String
  pub reducer_version : String
  pub run_id : String
  pub definition_digest : String
  pub sequence : ℕ
  pub state_json : String
  pub state_digest : String
  pub event_prefix_digest : String

pub record CreateOwnedRun : Type 0 where
  pub run_id : String
  pub workflow : WorkflowDefinition
  pub initial_events : List RunEvent
  pub owner_id : String
  pub owner : LocalProcessIdentity
  pub operation_id : String
  pub snapshot : RunSnapshot

pub record MutationReceipt : Type 0 where
  pub run_id : String
  pub operation_id : String
  pub first_sequence : ℕ
  pub last_sequence : ℕ
  pub replayed : Bool

pub record OwnedRunReceipt : Type 0 where
  pub lease : RunLeaseToken
  pub mutation : MutationReceipt

pub record AcquireReleasedRun : Type 0 where
  pub run_id : String
  pub owner_id : String
  pub owner : LocalProcessIdentity

-- The owner's absence is an observation whose state is `absent`, at a time.
pub record TakeoverExpiredRun : Type 0 where
  pub acquisition : AcquireReleasedRun
  pub open acquisition use *
  pub observed_lease : RunLease
  pub absence_observed_at_ms : ℕ

pub record FencedRunMutation : Type 0 where
  pub lease : RunLeaseToken
  pub operation_id : String
  pub expected_sequence : ℕ
  pub events : List RunEvent
  pub snapshot : Option RunSnapshot
  pub handles_control_operation_id : Option String

pub record ControlSubmission : Type 0 where
  pub run_id : String
  pub operation_id : String
  pub action : ControlAction

-- A `ControlRequest`, with the acknowledgement of a `MemoryControl`.
pub record MemoryControl : Type 0 where
  pub submission : ControlSubmission
  pub open submission use *
  pub recorded_at_ms : ℕ
  pub acknowledged_sequence : Option ℕ

pub record ControlRequest : Type 0 where
  pub submission : ControlSubmission
  pub open submission use *
  pub recorded_at_ms : ℕ

pub record ControlReceipt : Type 0 where
  pub request : ControlRequest
  pub replayed : Bool

pub record MemoryMutation : Type 0 where
  pub payload_digest : String
  pub receipt : MutationReceipt

pub record MemoryRun : Type 0 where
  pub workflow : WorkflowDefinition
  pub events : List RunEvent
  pub lease : RunLease
  pub mutations : Dict MemoryMutation
  pub controls : Dict MemoryControl
  pub snapshots : List RunSnapshot

pub data RunStoreErrorCode : Type 0 where
  not_found ownership_conflict lease_expired sequence_conflict : RunStoreErrorCode
  idempotency_conflict control_conflict busy corrupt_store : RunStoreErrorCode

-- A `RunStoreError`, a `TypeError`, a `RangeError`, or the reducer's `InvalidTransitionError`.
pub data StoreError : Type 0 where
  run_store_error : RunStoreErrorCode → StoreError
  type_error range_error : StoreError
  invalid_transition : TransitionError → StoreError

abbrev pub Stored : Type 0 → Type 0
Stored A = Result StoreError A

-- The link of the history digest, and what `mutationPayloadDigest` digests: the snapshot without its
-- state text.
pub record HistoryLink : Type 0 where
  pub previous : String
  pub run_id : String
  pub sequence : ℕ
  pub event_type : String
  pub event_digest : String

pub record SnapshotIdentity : Type 0 where
  pub version : String
  pub reducer_version : String
  pub run_id : String
  pub definition_digest : String
  pub sequence : ℕ
  pub state_digest : String
  pub event_prefix_digest : String

pub record MutationPayload : Type 0 where
  pub expected_sequence : ℕ
  pub events : List RunEvent
  pub snapshot : Option SnapshotIdentity
  pub handles_control_operation_id : Option String

-- What the store takes from outside: the compiled validators of events and workflows, JSON text,
-- SHA-256, the byte length of a text, and `isDeepStrictEqual` on states.
pub record Host : Type 0 where
  pub accepts_event : RunEvent → Bool
  pub accepts_workflow : WorkflowDefinition → Bool
  pub event_json : RunEvent → String
  pub state_json : RunState → String
  pub parse_state : String → Option RunState
  pub same_state : RunState → RunState → Bool
  pub workflow_digest : WorkflowDefinition → String
  pub digest_bytes : String → String
  pub link_digest : HistoryLink → String
  pub payload_digest : MutationPayload → String
  pub byte_length : String → ℕ
