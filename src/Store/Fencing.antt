-- ===== src/Store/Fencing.antt =====
-- Ownership of a run by generations (packages/engine/src/durable-store.ts).
use anastom.Prelude.{
  ℕ, ◌≤◌, ◌<◌, true, ◌≡◌, ◌⊎◌, inl, inr, List, ok, err, text_equality, number_equality, arith,
}
use anastom.Store.Types.{
  AcquireReleasedRun, TakeoverExpiredRun, FencedRunMutation, Host, MemoryRun, RunLeaseToken,
  RunStoreErrorCode, run_store_error, Stored,
}
use anastom.Store.Checks.{is_timestamp}
use anastom.Store.Leases.{
  acquire_released, release, renew, require_fence, takeover_expired, validate_clock,
}
use anastom.Store.Commits.{commit}
use anastom.Store.Operations.{Operation, perform_all}
use anastom.Store.Steps.{acquire_released-eq-ok, new_lease-eq-ok, takeover_expired-eq-ok}
use anastom.Store.Succession.{perform_all-Follows}

-- The call fails with an ownership conflict.
abbrev pub IsOwnershipConflict : {A : Type 0} → Stored A → Type 0
IsOwnershipConflict m = m ≡ err (run_store_error RunStoreErrorCode.ownership_conflict)

stale_fence :
    (run : MemoryRun) (t : RunLeaseToken) (now : ℕ)
    → t.generation < run.lease.generation
    → IsOwnershipConflict (require_fence run t now)
unfolding require_fence
stale_fence run t now stale = ground arith

stale_release :
    (run : MemoryRun) (t : RunLeaseToken)
    → t.generation < run.lease.generation
    → IsOwnershipConflict (release run t)
unfolding release
stale_release run t stale = ground arith

stale_renew :
    (run : MemoryRun) (t : RunLeaseToken) (now : ℕ)
    → t.generation < run.lease.generation
    → is_timestamp now ≡ true
    → renew run t now ≡ (run, err (run_store_error RunStoreErrorCode.ownership_conflict))
unfolding renew validate_clock
stale_renew run t now stale clock = let refused : _ = stale_fence run t now stale in ground arith

stale_commit :
    (host : Host) (run : MemoryRun) (i : FencedRunMutation) (now : ℕ)
    → i.lease.generation < run.lease.generation
    → is_timestamp now ≡ true
    → IsOwnershipConflict (commit host run i now)
unfolding commit validate_clock
stale_commit host run i now stale clock =
    let refused : _ = stale_fence run i.lease now stale in ground arith

-- A new owner has a later generation than the lease that it follows.
new_owner_later :
    (run taken : MemoryRun) (i : AcquireReleasedRun) (j : TakeoverExpiredRun) (now : ℕ)
    → (acquire_released run i now ≡ ok taken) ⊎ (takeover_expired run j now ≡ ok taken)
    → run.lease.generation < taken.lease.generation
new_owner_later run taken i j now (inl h) =
    let next =
      (new_lease-eq-ok i run.lease.generation now (acquire_released-eq-ok run i now h).1).1 in
    omega (arith, next)
new_owner_later run taken i j now (inr h) =
    let next =
      (new_lease-eq-ok j.acquisition run.lease.generation now
        (takeover_expired-eq-ok run j now h).1).1 in
    omega (arith, next)

-- Once a run was acquired or taken over, then behind any further operations of any owners a token
-- of the earlier lease or of one before it is refused: release, and at a valid time of the clock
-- commit and renewal fail with an ownership conflict, and the renewal leaves the run as it is.
pub stale_token_refused :
    (host : Host) (run taken : MemoryRun) (i : AcquireReleasedRun) (j : TakeoverExpiredRun)
    (now : ℕ)
    → (acquire_released run i now ≡ ok taken) ⊎ (takeover_expired run j now ≡ ok taken)
    → (os : List (ℕ × Operation)) (m : FencedRunMutation) (later : ℕ)
    → m.lease.generation ≤ run.lease.generation
    → is_timestamp later ≡ true
    → IsOwnershipConflict (commit host (perform_all host taken os) m later)
      × (renew (perform_all host taken os) m.lease later
          ≡ (perform_all host taken os, err (run_store_error RunStoreErrorCode.ownership_conflict)))
      × IsOwnershipConflict (release (perform_all host taken os) m.lease)
stale_token_refused host run taken i j now owned os m later old clock =
    let final = perform_all host taken os in
    let stale : m.lease.generation < final.lease.generation = omega (
      arith,
      old,
      new_owner_later run taken i j now owned,
      (perform_all-Follows host taken os).generation_kept,
    ) in
    (
      stale_commit host final m later stale clock,
      stale_renew final m.lease later stale clock,
      stale_release final m.lease stale,
    )
