-- ===== src/Store/Succession.antt =====
-- What every operation on a run keeps (packages/engine/src/durable-store.ts).
use anastom.Prelude.{
  ℕ, ◌≤◌, String, false, ◌≡◌, ◌∙◌, refl, sym, ap, inl, inr, List, [], ◌∷◌, ◌++◌, none, some, ok,
  lookup, subst, text_equality, number_equality, eq_iff, arith, lookup-insert, Result-cases,
}
use anastom.Run.Event.{RunEvent}
use anastom.Store.Types.{
  AcquireReleasedRun, FencedRunMutation, Host, MemoryControl, MemoryMutation, MemoryRun,
}
use anastom.Store.Leases.{acquire_released, release, renew, takeover_expired, new_lease}
use anastom.Store.Commits.{append_batch, commit, is_pending, mutation_payload, submit_control}
use anastom.Store.Operations.{
  Operation, acquire, take_over, renew_lease, release_lease, commit_events, submit, perform,
  perform_all,
}
use anastom.Store.Steps.{
  IsLeased, acquire_released-eq-ok, new_lease-eq-ok, release-eq-ok, renew-Renews,
  takeover_expired-eq-ok,
}
use anastom.Store.Writes.{
  Submits, acknowledge_control-Acknowledges, append_batch-eq-ok, commit-eq-ok,
  submit_control-Submits,
}

pub record Follows (run run' : MemoryRun) : Type 0 where
  pub generation_kept : run.lease.generation ≤ run'.lease.generation
  pub owner_kept :
      run'.lease.generation ≡ run.lease.generation → run'.lease.owner_id ≡ run.lease.owner_id
  pub workflow_kept : run'.workflow ≡ run.workflow
  pub history_kept : (tail : List RunEvent) × (run'.events ≡ run.events ++ tail)
  pub mutations_kept :
      (k : String) (m : MemoryMutation)
      → lookup k run.mutations ≡ some m
      → lookup k run'.mutations ≡ some m
  pub settled_kept :
      (k : String) (c : MemoryControl)
      → lookup k run.controls ≡ some c
      → is_pending c ≡ false
      → lookup k run'.controls ≡ some c

append_nil : (es : List RunEvent) → es ≡ es ++ []
append_nil [] = refl
append_nil (e ∷ es) = ap (λ rest. e ∷ rest) (append_nil es)

append_assoc : (xs ys zs : List RunEvent) → (xs ++ ys) ++ zs ≡ xs ++ (ys ++ zs)
append_assoc [] ys zs = refl
append_assoc (x ∷ xs) ys zs = ap (λ rest. x ∷ rest) (append_assoc xs ys zs)

pub Follows-refl : (run : MemoryRun) → Follows run run
Follows-refl run = record {
  generation_kept = omega arith;
  owner_kept = λ e. refl;
  workflow_kept = refl;
  history_kept = ([], append_nil run.events);
  mutations_kept = λ k m found. found;
  settled_kept = λ k c found settled. found;
}

pub Follows-trans : (p q r : MemoryRun) → Follows p q → Follows q r → Follows p r
Follows-trans p q r f g =
    let (xs, one) = f.history_kept in
    let (ys, two) = g.history_kept in
    record {
      generation_kept = omega (arith, f.generation_kept, g.generation_kept);
      owner_kept = λ e.
          let middle : q.lease.generation ≡ p.lease.generation =
            omega (arith, f.generation_kept, g.generation_kept) in
          g.owner_kept (e ∙ sym middle) ∙ f.owner_kept middle;
      workflow_kept = g.workflow_kept ∙ f.workflow_kept;
      history_kept = (xs ++ ys, two ∙ ap (λ es. es ++ ys) one ∙ append_assoc p.events xs ys);
      mutations_kept = λ k m found. g.mutations_kept k m (f.mutations_kept k m found);
      settled_kept =
          λ k c found settled. g.settled_kept k c (f.settled_kept k c found settled) settled;
    }

-- An operation on the lease alone.
leased-Follows :
    (run run' : MemoryRun)
    → IsLeased run run'
    → run.lease.generation ≤ run'.lease.generation
    → (run'.lease.generation ≡ run.lease.generation → run'.lease.owner_id ≡ run.lease.owner_id)
    → Follows run run'
leased-Follows run run' leased grows owned = record {
  generation_kept = grows;
  owner_kept = owned;
  workflow_kept = cc;
  history_kept = ([], ap (λ r. r.events) leased ∙ append_nil run.events);
  mutations_kept = λ k m found. cc;
  settled_kept = λ k c found settled. cc;
}

-- A new owner takes the next generation.
new_owner-Follows :
    (run : MemoryRun) (i : AcquireReleasedRun) (now : ℕ) {run' : MemoryRun}
    → IsLeased run run'
    → new_lease i run.lease.generation now ≡ ok run'.lease
    → Follows run run'
new_owner-Follows run i now {run'} leased fresh =
    let next = (new_lease-eq-ok i run.lease.generation now fresh).1 in
    leased-Follows run run' leased (omega (arith, next)) (λ e. ground (arith, next))

release-Follows :
    (run : MemoryRun) (t : _) {run' : MemoryRun} → release run t ≡ ok run' → Follows run run'
release-Follows run t {run'} h =
    let (written, owner, generation) = release-eq-ok run t h in
    let same : run'.lease.generation ≡ run.lease.generation =
      ap (λ r. r.lease.generation) written in
    leased-Follows run run' (cc) (omega (arith, same)) (λ e. ap (λ r. r.lease.owner_id) written)

submit-Follows : (run run' : MemoryRun) → Submits run run' → Follows run run'
submit-Follows run run' s =
    let same : run'.lease ≡ run.lease = ap (λ r. r.lease) s.rest_kept in
    record {
      generation_kept = rw same (omega arith);
      owner_kept = λ e. ap (λ l. l.owner_id) same;
      workflow_kept = ap (λ r. r.workflow) s.rest_kept;
      history_kept = ([], ap (λ r. r.events) s.rest_kept ∙ append_nil run.events);
      mutations_kept = λ k m found. ap (λ r. lookup k r.mutations) s.rest_kept ∙ found;
      settled_kept = λ k c found settled. s.controls_kept k c found;
    }

module _ (host : Host) where
  append_batch-Follows :
      (run : MemoryRun) (i : FencedRunMutation) {r : _} {run' : MemoryRun}
      → lookup i.operation_id run.mutations ≡ none
      → append_batch host run i ≡ ok (r, run')
      → Follows run run'
  append_batch-Follows run i {r} {run'} new h =
      let (a, s, asked, replayed, matches, start, receipt, grown, flow, lease, controls, written) =
        append_batch-eq-ok host run i h in
      let acknowledged = acknowledge_control-Acknowledges run i asked in
      let same_lease : run'.lease ≡ run.lease = lease ∙ ap (λ q. q.lease) acknowledged.rest_kept in
      record {
        generation_kept = rw same_lease (omega arith);
        owner_kept = λ e. ap (λ l. l.owner_id) same_lease;
        workflow_kept = flow ∙ ap (λ q. q.workflow) acknowledged.rest_kept;
        history_kept = (i.events, grown);
        mutations_kept = λ k m found.
            let entry : MemoryMutation = record {
              payload_digest = host.payload_digest (mutation_payload i);
              receipt = r;
            } in
            ap (lookup k) written
            ∙ ground (
              arith,
              eq_iff i.operation_id k,
              lookup-insert i.operation_id k entry run.mutations,
            );
        settled_kept = λ k c found settled.
            ap (lookup k) controls ∙ acknowledged.settled_kept k c found settled;
      }

  commit-Follows :
      (run : MemoryRun) (i : FencedRunMutation) (now : ℕ) {r : _} {run' : MemoryRun}
      → commit host run i now ≡ ok (r, run')
      → Follows run run'
  commit-Follows run i now {r} {run'} h = elim (commit-eq-ok host run i now h).1 [
    | inl (m, known, same, receipt, kept) ↦ subst (Follows run) (sym kept) (Follows-refl run)
    | inr (new, appended) ↦ append_batch-Follows run i new appended
  ]

  -- Every operation.
  pub perform-Follows : (run : MemoryRun) (o : ℕ × Operation) → Follows run (perform host run o)
  unfolding perform
  perform-Follows run (now, acquire i) = elim (Result-cases (acquire_released run i now)) [
    | inl (run', h) ↦
        let (leased, fresh, was) = acquire_released-eq-ok run i now h in
        rw h (new_owner-Follows run i now leased fresh)
    | inr (e, h) ↦ rw h (Follows-refl run)
  ]
  perform-Follows run (now, take_over i) = elim (Result-cases (takeover_expired run i now)) [
    | inl (run', h) ↦
        let taken = takeover_expired-eq-ok run i now h in
        rw h (new_owner-Follows run i.acquisition now taken.0 taken.1)
    | inr (e, h) ↦ rw h (Follows-refl run)
  ]
  perform-Follows run (now, renew_lease t) =
      let renews = renew-Renews run t now in
      let same : _ = renews.same_generation in
      leased-Follows run (renew run t now).0 renews.leased (omega (arith, same))
        (λ e. renews.same_owner)
  perform-Follows run (now, release_lease t) = elim (Result-cases (release run t)) [
    | inl (run', h) ↦ rw h (release-Follows run t h)
    | inr (e, h) ↦ rw h (Follows-refl run)
  ]
  perform-Follows run (now, commit_events i) = elim (Result-cases (commit host run i now)) [
    | inl ((r, run'), h) ↦ rw h (commit-Follows run i now h)
    | inr (e, h) ↦ rw h (Follows-refl run)
  ]
  perform-Follows run (now, submit i) = elim (Result-cases (submit_control run i now)) [
    | inl ((r, run'), h) ↦
        let submitted = submit_control-Submits run i now h in
        rw h (submit-Follows run run' submitted)
    | inr (e, h) ↦ rw h (Follows-refl run)
  ]

  -- Every sequence of operations, of any owners at any times: generations and histories grow, receipts
  -- and acknowledgements stay.
  pub perform_all-Follows :
      (run : MemoryRun) (os : List (ℕ × Operation)) → Follows run (perform_all host run os)
  unfolding perform_all
  perform_all-Follows run [] = Follows-refl run
  perform_all-Follows run (o ∷ os) =
      Follows-trans run (perform host run o) (perform_all host (perform host run o) os)
        (perform-Follows run o) (perform_all-Follows (perform host run o) os)
