-- ===== src/Store/Leases.antt =====
-- Ownership of a run (packages/engine/src/durable-store.ts): acquisition of a released lease, takeover
-- of an expired one, renewal and release. `now` is what the injected clock returns in the call.
use anastom.Prelude.{
  ℕ, ◌+◌, Bool, true, false, not, ◌&&◌, ok, err, ◌>>=◌, ◌>>◌, guard, max, leb, ltb, ◌==◌,
  number_equality, text_equality,
}
use anastom.Store.Types.{
  AcquireReleasedRun, MemoryRun, RunLease, RunLeaseToken, RunStoreErrorCode, Stored,
  TakeoverExpiredRun, type_error, run_store_error,
}
use anastom.Store.Checks.{is_safe, is_timestamp, same_lease}

abbrev pub run_lease_duration_ms : ℕ
run_lease_duration_ms = 15_000

abbrev pub token_for : RunLease → RunLeaseToken
token_for l = record { run_id = l.run_id; owner_id = l.owner_id; generation = l.generation }

unfoldable pub validate_clock : ℕ → Stored (Unit {0})
validate_clock now = guard (is_timestamp now) type_error

unfoldable pub lease_expiry : ℕ → Stored ℕ
lease_expiry now = do
  guard (is_timestamp (now + run_lease_duration_ms)) type_error
  ok (now + run_lease_duration_ms)

unfoldable pub next_generation : ℕ → Stored ℕ
next_generation generation = do
  guard (is_safe (generation + 1)) (run_store_error RunStoreErrorCode.corrupt_store)
  ok (generation + 1)

-- The lease that a new owner gets at `now`.
unfoldable pub new_lease : AcquireReleasedRun → ℕ → ℕ → Stored RunLease
unfolding next_generation lease_expiry
new_lease i generation now = do
  next ← next_generation generation
  expires ← lease_expiry now
  ok (record {
    run_id = i.run_id;
    owner_id = i.owner_id;
    owner = i.owner;
    generation = next;
    acquired_at_ms = now;
    renewed_at_ms = now;
    expires_at_ms = expires;
    released = false;
  })

unfoldable pub acquire_released : MemoryRun → AcquireReleasedRun → ℕ → Stored MemoryRun
unfolding validate_clock new_lease
acquire_released run i now = do
  guard run.lease.released (run_store_error RunStoreErrorCode.ownership_conflict)
  validate_clock now
  lease ← new_lease i run.lease.generation now
  ok (record run { lease = lease })

unfoldable pub takeover_expired : MemoryRun → TakeoverExpiredRun → ℕ → Stored MemoryRun
unfolding validate_clock new_lease
takeover_expired run i now = do
  validate_clock now
  guard (same_lease run.lease i.observed_lease && not run.lease.released)
      (run_store_error RunStoreErrorCode.ownership_conflict)
  guard (leb run.lease.expires_at_ms now) (run_store_error RunStoreErrorCode.ownership_conflict)
  guard (leb run.lease.expires_at_ms i.absence_observed_at_ms && leb i.absence_observed_at_ms now)
      (run_store_error RunStoreErrorCode.ownership_conflict)
  lease ← new_lease i.acquisition run.lease.generation now
  ok (record run { lease = lease })

-- The token names the current owner and generation.
abbrev pub holds : RunLease → RunLeaseToken → Bool
holds l t = l.owner_id == t.owner_id && l.generation == t.generation

unfoldable pub require_fence : MemoryRun → RunLeaseToken → ℕ → Stored (Unit {0})
require_fence run t now = do
  guard (holds run.lease t) (run_store_error RunStoreErrorCode.ownership_conflict)
  guard (not run.lease.released && ltb now run.lease.expires_at_ms)
      (run_store_error RunStoreErrorCode.lease_expired)

-- `renew` writes the renewal time before it computes the expiry, and that write stays if the expiry
-- is out of range; so the run is returned in both cases.
unfoldable pub renew : MemoryRun → RunLeaseToken → ℕ → MemoryRun × Stored RunLease
unfolding validate_clock require_fence lease_expiry
renew run t now = elim (validate_clock now >> require_fence run t now) [
  | err e ↦ (run, err e)
  | ok _ ↦
      let renewed : RunLease = record run.lease {
        renewed_at_ms = max now run.lease.renewed_at_ms;
      } in
      elim (lease_expiry renewed.renewed_at_ms) [
        | err e ↦ (record run { lease = renewed }, err e)
        | ok expires ↦
            let extended : RunLease = record renewed { expires_at_ms = expires } in
            (record run { lease = extended }, ok extended)
      ]
]

unfoldable pub release : MemoryRun → RunLeaseToken → Stored MemoryRun
release run t = do
  guard (holds run.lease t) (run_store_error RunStoreErrorCode.ownership_conflict)
  ok (record run { lease = record run.lease { released = true } })
