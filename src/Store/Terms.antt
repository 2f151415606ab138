-- ===== src/Store/Terms.antt =====
-- The times of a lease (packages/engine/src/durable-store.ts).
use anastom.Prelude.{
  ℕ, ◌+◌, ◌≤◌, ◌<◌, true, ◌≡◌, ◌∙◌, sym, ap, inl, inr, List, [], ◌∷◌, ok, subst, text_equality,
  number_equality, arith, Result-cases,
}
use anastom.Store.Types.{
  AcquireReleasedRun, FencedRunMutation, Host, MemoryRun, RunLease, RunLeaseToken,
}
use anastom.Store.Leases.{
  acquire_released, release, renew, require_fence, takeover_expired, new_lease, lease_expiry,
  run_lease_duration_ms,
}
use anastom.Store.Commits.{commit, submit_control}
use anastom.Store.Operations.{
  Operation, perform, perform_all, acquire, take_over, renew_lease, release_lease, commit_events,
  submit,
}
use anastom.Store.Steps.{
  acquire_released-eq-ok, new_lease-eq-ok, takeover_expired-eq-ok, release-eq-ok,
}
use anastom.Store.Writes.{
  acknowledge_control-Acknowledges, append_batch-eq-ok, commit-eq-ok, submit_control-Submits,
}

-- The times of a lease: it is acquired, renewed at the same time or later, and expires behind the
-- renewal, at most one lease duration later.
pub record LeaseValid (l : RunLease) : Type 0 where
  pub acquired_first : l.acquired_at_ms ≤ l.renewed_at_ms
  pub renewed_in_time : l.renewed_at_ms < l.expires_at_ms
  pub bounded : l.expires_at_ms ≤ l.renewed_at_ms + run_lease_duration_ms

new_lease-LeaseValid :
    (i : AcquireReleasedRun) (generation now : ℕ) {l : RunLease}
    → new_lease i generation now ≡ ok l
    → LeaseValid l
new_lease-LeaseValid i generation now h =
    let (owner, next, acquired, renewed, expires, fresh) = new_lease-eq-ok i generation now h in
    record {
      acquired_first = omega (arith, acquired, renewed);
      renewed_in_time = omega (arith, renewed, expires);
      bounded = omega (arith, renewed, expires);
    }

renew-LeaseValid :
    (run : MemoryRun) (t : RunLeaseToken) (now : ℕ)
    → LeaseValid run.lease
    → LeaseValid (renew run t now).0.lease
unfolding renew require_fence lease_expiry
renew-LeaseValid run t now v =
    let acquired : _ = v.acquired_first in
    let renewed : _ = v.renewed_in_time in
    let bounded : _ = v.bounded in
    record { acquired_first = ground arith; renewed_in_time = ground arith; bounded = ground arith }

released-LeaseValid : (l : RunLease) → LeaseValid l → LeaseValid (record l { released = true })
released-LeaseValid l v = record {
  acquired_first = v.acquired_first;
  renewed_in_time = v.renewed_in_time;
  bounded = v.bounded;
}

module _ (host : Host) where
  pub commit-lease :
      (run : MemoryRun) (i : FencedRunMutation) (now : ℕ) {r : _} {run' : MemoryRun}
      → commit host run i now ≡ ok (r, run')
      → run'.lease ≡ run.lease
  commit-lease run i now {r} {run'} h = elim (commit-eq-ok host run i now h).1 [
    | inl (m, known, same, receipt, kept) ↦ ap (λ q. q.lease) kept
    | inr (new, appended) ↦
        let (a, s, asked, replayed, matches, start, same, grown, flow, lease, controls, written) =
          append_batch-eq-ok host run i appended in
        lease ∙ ap (λ q. q.lease) (acknowledge_control-Acknowledges run i asked).rest_kept
  ]

  pub perform-LeaseValid :
      (run : MemoryRun) (o : ℕ × Operation)
      → LeaseValid run.lease
      → LeaseValid (perform host run o).lease
  unfolding perform
  perform-LeaseValid run (now, acquire i) v = elim (Result-cases (acquire_released run i now)) [
    | inl (run', h) ↦
        rw h
          (new_lease-LeaseValid i run.lease.generation now (acquire_released-eq-ok run i now h).1)
    | inr (e, h) ↦ rw h v
  ]
  perform-LeaseValid run (now, take_over i) v = elim (Result-cases (takeover_expired run i now)) [
    | inl (run', h) ↦ rw h (
        new_lease-LeaseValid i.acquisition run.lease.generation now
          (takeover_expired-eq-ok run i now h).1)
    | inr (e, h) ↦ rw h v
  ]
  perform-LeaseValid run (now, renew_lease t) v = renew-LeaseValid run t now v
  perform-LeaseValid run (now, release_lease t) v = elim (Result-cases (release run t)) [
    | inl (run', h) ↦ rw h (
        subst LeaseValid (sym (ap (λ q. q.lease) (release-eq-ok run t h).0))
          (released-LeaseValid run.lease v))
    | inr (e, h) ↦ rw h v
  ]
  perform-LeaseValid run (now, commit_events i) v = elim (Result-cases (commit host run i now)) [
    | inl ((r, run'), h) ↦ rw h (subst LeaseValid (sym (commit-lease run i now h)) v)
    | inr (e, h) ↦ rw h v
  ]
  perform-LeaseValid run (now, submit i) v = elim (Result-cases (submit_control run i now)) [
    | inl ((r, run'), h) ↦
        let same = ap (λ q. q.lease) (submit_control-Submits run i now h).rest_kept in
        rw h (subst LeaseValid (sym same) v)
    | inr (e, h) ↦ rw h v
  ]

  -- Every sequence of operations, also with a clock that goes back, keeps the times of the lease in
  -- order: acquired, then renewed, then expiring, at most one lease duration behind the renewal.
  pub perform_all-LeaseValid :
      (run : MemoryRun) (os : List (ℕ × Operation))
      → LeaseValid run.lease
      → LeaseValid (perform_all host run os).lease
  unfolding perform_all
  perform_all-LeaseValid run [] v = v
  perform_all-LeaseValid run (o ∷ os) v =
      perform_all-LeaseValid (perform host run o) os (perform-LeaseValid run o v)
