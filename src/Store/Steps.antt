-- ===== src/Store/Steps.antt =====
-- What a successful operation on a run has passed and written
-- (packages/engine/src/durable-store.ts).
use anastom.Prelude.{
  ℕ, ◌+◌, ◌≤◌, ◌<◌, max, true, false, ◌≡◌, ok, text_equality, number_equality, eq_iff, arith,
}
use anastom.Store.Types.{AcquireReleasedRun, MemoryRun, RunLease, RunLeaseToken, TakeoverExpiredRun}
use anastom.Store.Leases.{
  acquire_released, lease_expiry, new_lease, next_generation, release, renew, require_fence,
  run_lease_duration_ms, takeover_expired,
}

-- The lease of a new owner.
pub new_lease-eq-ok :
    (i : AcquireReleasedRun) (generation now : ℕ) {l : RunLease}
    → new_lease i generation now ≡ ok l
    → (l.owner_id ≡ i.owner_id)
      × (l.generation ≡ generation + 1)
      × (l.acquired_at_ms ≡ now)
      × (l.renewed_at_ms ≡ now)
      × (l.expires_at_ms ≡ now + run_lease_duration_ms)
      × (l.released ≡ false)
unfolding new_lease next_generation lease_expiry
new_lease-eq-ok i generation now h = ground arith

-- The run differs in its lease alone.
abbrev pub IsLeased : MemoryRun → MemoryRun → Type 0
IsLeased run run' = run' ≡ record run { lease = run'.lease }

pub acquire_released-eq-ok :
    (run : MemoryRun) (i : AcquireReleasedRun) (now : ℕ) {run' : MemoryRun}
    → acquire_released run i now ≡ ok run'
    → IsLeased run run'
      × (new_lease i run.lease.generation now ≡ ok run'.lease)
      × (run.lease.released ≡ true)
unfolding acquire_released
acquire_released-eq-ok run i now h = ground arith

pub takeover_expired-eq-ok :
    (run : MemoryRun) (i : TakeoverExpiredRun) (now : ℕ) {run' : MemoryRun}
    → takeover_expired run i now ≡ ok run'
    → IsLeased run run'
      × (new_lease i.acquisition run.lease.generation now ≡ ok run'.lease)
      × (run.lease.expires_at_ms ≤ i.absence_observed_at_ms)
      × (i.absence_observed_at_ms ≤ now)
      × (run.lease.released ≡ false)
unfolding takeover_expired
takeover_expired-eq-ok run i now h = ground arith

pub release-eq-ok :
    (run : MemoryRun) (t : RunLeaseToken) {run' : MemoryRun}
    → release run t ≡ ok run'
    → (run' ≡ record run { lease = record run.lease { released = true } })
      × (run.lease.owner_id ≡ t.owner_id)
      × (run.lease.generation ≡ t.generation)
unfolding release
release-eq-ok run t h = ground (arith, eq_iff run.lease.owner_id t.owner_id)

pub require_fence-eq-ok :
    (run : MemoryRun) (t : RunLeaseToken) (now : ℕ) {u : Unit {0}}
    → require_fence run t now ≡ ok u
    → (run.lease.owner_id ≡ t.owner_id)
      × (run.lease.generation ≡ t.generation)
      × (run.lease.released ≡ false)
      × (now < run.lease.expires_at_ms)
unfolding require_fence
require_fence-eq-ok run t now h = ground (arith, eq_iff run.lease.owner_id t.owner_id)

-- What a renewal leaves, also one that throws.
pub record Renews (run run' : MemoryRun) : Type 0 where
  pub leased : IsLeased run run'
  pub same_generation : run'.lease.generation ≡ run.lease.generation
  pub same_owner : run'.lease.owner_id ≡ run.lease.owner_id
  pub same_acquisition : run'.lease.acquired_at_ms ≡ run.lease.acquired_at_ms
  pub same_release : run'.lease.released ≡ run.lease.released
  pub renewed_later : run.lease.renewed_at_ms ≤ run'.lease.renewed_at_ms

pub renew-Renews : (run : MemoryRun) (t : RunLeaseToken) (now : ℕ) → Renews run (renew run t now).0
unfolding renew
renew-Renews run t now = record {
  leased = ground arith;
  same_generation = ground arith;
  same_owner = ground arith;
  same_acquisition = ground arith;
  same_release = ground arith;
  renewed_later = ground arith;
}

-- What a renewal that returns a lease has passed and written.
pub renew-eq-ok :
    (run : MemoryRun) (t : RunLeaseToken) (now : ℕ) {l : RunLease}
    → (renew run t now).1 ≡ ok l
    → ((renew run t now).0 ≡ record run { lease = l })
      × (require_fence run t now ≡ ok tt)
      × (l.renewed_at_ms ≡ max now run.lease.renewed_at_ms)
      × (l.expires_at_ms ≡ l.renewed_at_ms + run_lease_duration_ms)
unfolding renew lease_expiry
renew-eq-ok run t now h = ground arith
