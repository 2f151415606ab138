-- ===== src/Store/Tenure.antt =====
-- How long an owner keeps a run (packages/engine/src/durable-store.ts).
use anastom.Prelude.{
  ℕ, ◌≤◌, ◌<◌, false, ◌≡◌, ◌∙◌, refl, sym, ap, inl, inr, List, [], ◌∷◌, All, ok, subst,
  text_equality, number_equality, eq_iff, arith, Result-cases,
}
use anastom.Store.Types.{Host, MemoryRun, RunLease, RunLeaseToken}
use anastom.Store.Leases.{
  acquire_released, holds, lease_expiry, release, renew, require_fence, takeover_expired, token_for,
}
use anastom.Store.Commits.{commit, submit_control}
use anastom.Store.Operations.{
  Operation, perform, perform_all, acquire, take_over, renew_lease, release_lease, commit_events,
  submit,
}
use anastom.Store.Steps.{
  acquire_released-eq-ok, release-eq-ok, renew-Renews, takeover_expired-eq-ok,
}
use anastom.Store.Terms.{LeaseValid, commit-lease, perform-LeaseValid}
use anastom.Store.Writes.{submit_control-Submits}

-- The operation runs before the lease expires, and it is no release by its owner.
abbrev pub Spares : RunLease → ℕ × Operation → Type 0
Spares l (now, release_lease t) = (now < l.expires_at_ms) × (holds l t ≡ false)
Spares l (now, _) = now < l.expires_at_ms

-- The same owner in the same generation, for at least as long.
pub record Retains (l l' : RunLease) : Type 0 where
  pub same_owner : l'.owner_id ≡ l.owner_id
  pub same_generation : l'.generation ≡ l.generation
  pub unreleased : l'.released ≡ false
  pub as_long : l.expires_at_ms ≤ l'.expires_at_ms

same_lease-Retains : (l m m' : RunLease) → m' ≡ m → Retains l m → Retains l m'
same_lease-Retains l m m' e r = subst (Retains l) (sym e) r

renew-as_long :
    (run : MemoryRun) (t : RunLeaseToken) (now : ℕ)
    → LeaseValid run.lease
    → run.lease.expires_at_ms ≤ (renew run t now).0.lease.expires_at_ms
unfolding renew lease_expiry
renew-as_long run t now v = let bounded : _ = v.bounded in ground arith

release-by_other :
    (l : RunLease) (run : MemoryRun) (t : RunLeaseToken) {run' : MemoryRun}
    → Retains l run.lease
    → holds l t ≡ false
    → release run t ≡ ok run'
    → ⊥
release-by_other l run t r other h =
    let (written, owner, generation) = release-eq-ok run t h in
    ground (arith, r, eq_iff l.owner_id t.owner_id)

module _ (host : Host) where
  perform-Retains :
      (l : RunLease) (run : MemoryRun) (o : ℕ × Operation)
      → LeaseValid run.lease
      → Retains l run.lease
      → Spares l o
      → Retains l (perform host run o).lease
  unfolding perform
  perform-Retains l run (now, acquire i) v r spared =
      elim (Result-cases (acquire_released run i now)) [
        | inl (run', h) ↦
            let was = (acquire_released-eq-ok run i now h).2 in
            let live = r.unreleased in absurd (cc)
        | inr (e, h) ↦ rw h r
      ]
  perform-Retains l run (now, take_over i) v r spared =
      elim (Result-cases (takeover_expired run i now)) [
        | inl (run', h) ↦
            let taken = takeover_expired-eq-ok run i now h in
            absurd (omega (arith, taken.2, taken.3, r.as_long))
        | inr (e, h) ↦ rw h r
      ]
  perform-Retains l run (now, renew_lease t) v r spared =
      let renewed = renew-Renews run t now in
      let longer = renew-as_long run t now v in
      record {
        same_owner = renewed.same_owner ∙ r.same_owner;
        same_generation = renewed.same_generation ∙ r.same_generation;
        unreleased = renewed.same_release ∙ r.unreleased;
        as_long = omega (arith, r.as_long, longer);
      }
  perform-Retains l run (now, release_lease t) v r spared = elim (Result-cases (release run t)) [
    | inl (run', h) ↦ absurd (release-by_other l run t r spared.1 h)
    | inr (e, h) ↦ rw h r
  ]
  perform-Retains l run (now, commit_events i) v r spared =
      elim (Result-cases (commit host run i now)) [
        | inl ((receipt, run'), h) ↦
            rw h (same_lease-Retains l run.lease run'.lease (commit-lease host run i now h) r)
        | inr (e, h) ↦ rw h r
      ]
  perform-Retains l run (now, submit i) v r spared =
      elim (Result-cases (submit_control run i now)) [
        | inl ((receipt, run'), h) ↦
            let same = ap (λ q. q.lease) (submit_control-Submits run i now h).rest_kept in
            rw h (same_lease-Retains l run.lease run'.lease same r)
        | inr (e, h) ↦ rw h r
      ]

  perform_all-Retains :
      (l : RunLease) (run : MemoryRun) (os : List (ℕ × Operation))
      → LeaseValid run.lease
      → Retains l run.lease
      → All (Spares l) os
      → Retains l (perform_all host run os).lease
  unfolding perform_all
  perform_all-Retains l run [] v r spared = r
  perform_all-Retains l run (o ∷ os) v r spared =
      perform_all-Retains l (perform host run o) os (perform-LeaseValid host run o v)
        (perform-Retains l run o v r spared.0) spared.1

  -- An owner is exclusive until its lease expires. From an unreleased lease whose times are in order,
  -- whatever operations of any owners run at times before its expiry, a release by the owner itself
  -- excepted: the run keeps this owner and generation, unreleased and with an expiry that is not
  -- earlier, and the owner's token passes the fence at every time before the expiry.
  pub live_lease_survives :
      (run : MemoryRun) (os : List (ℕ × Operation)) (now : ℕ)
      → LeaseValid run.lease
      → run.lease.released ≡ false
      → All (Spares run.lease) os
      → now < run.lease.expires_at_ms
      → Retains run.lease (perform_all host run os).lease
        × (require_fence (perform_all host run os) (token_for run.lease) now ≡ ok tt)
  unfolding require_fence
  live_lease_survives run os now v live spared early =
      let start : Retains run.lease run.lease = record {
        same_owner = refl;
        same_generation = refl;
        unreleased = live;
        as_long = omega arith;
      } in
      let final = perform_all host run os in
      let r = perform_all-Retains run.lease run os v start spared in
      (r, ground (arith, r, eq_iff final.lease.owner_id run.lease.owner_id))
