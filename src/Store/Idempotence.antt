-- ===== src/Store/Idempotence.antt =====
-- Idempotent commits and controls that are acknowledged once
-- (packages/engine/src/durable-store.ts).
use anastom.Prelude.{
  ℕ, String, true, ◌≡◌, ◌≢◌, ◌∙◌, refl, ap, inl, inr, List, [], ◌∷◌, some, ok, err, lookup, insert,
  text_equality, number_equality, eq_iff, arith, lookup-insert, Result-cases, ◌⊎◌, none, false,
  ◌==◌,
}
use anastom.Run.Event.{RunEvent}
use anastom.Store.Types.{
  FencedRunMutation, Host, MemoryControl, MemoryMutation, MemoryRun, MutationReceipt,
  RunStoreErrorCode, run_store_error, Stored, StoreError,
}
use anastom.Store.Checks.{is_timestamp}
use anastom.Store.Leases.{require_fence, validate_clock}
use anastom.Store.Commits.{
  acknowledge, append_batch, commit, is_pending, mutation_payload, observations, replay_receipt,
}
use anastom.Store.Operations.{Operation, perform_all}
use anastom.Store.Writes.{
  acknowledge-eq-ok, acknowledge_control-handled, append_batch-eq-ok, commit-eq-ok,
}
use anastom.Store.Succession.{perform_all-Follows}

module _ (host : Host) where
  -- A commit leaves the digest of its payload and its receipt under the operation's identity.
  recorded :
      (run : MemoryRun) (i : FencedRunMutation) (now : ℕ) {r : MutationReceipt} {run' : MemoryRun}
      → commit host run i now ≡ ok (r, run')
      → (m : MemoryMutation) × (lookup i.operation_id run'.mutations ≡ some m)
        × (m.payload_digest ≡ host.payload_digest (mutation_payload i))
        × (record m.receipt { replayed = true } ≡ record r { replayed = true })
  recorded run i now {r} {run'} h = elim (commit-eq-ok host run i now h).1 [
    | inl (m, known, same, receipt, kept) ↦
        (m, ap (λ q. lookup i.operation_id q.mutations) kept ∙ known, same, cc)
    | inr (new, appended) ↦
        let (
          a, s, asked, replayed, matches, start, receipt, grown, flow, lease, controls, written,
        ) =
          append_batch-eq-ok host run i appended in
        let entry : MemoryMutation = record {
          payload_digest = host.payload_digest (mutation_payload i);
          receipt = r;
        } in
        let found : lookup i.operation_id (insert i.operation_id entry run.mutations) ≡ some entry =
          ground (
            arith,
            eq_iff i.operation_id i.operation_id,
            lookup-insert i.operation_id i.operation_id entry run.mutations,
          ) in
        (entry, ap (lookup i.operation_id) written ∙ found, refl, refl)
  ]

  -- A committed mutation that is sent again, behind any further operations and at a valid time
  -- of the clock at which its lease is still held, is answered by the receipt of the first time, marked as replayed, and writes nothing.
  pub commit_retry :
      (run : MemoryRun) (i : FencedRunMutation) (now : ℕ) {r : MutationReceipt} {run' : MemoryRun}
      → commit host run i now ≡ ok (r, run')
      → (os : List (ℕ × Operation)) (later : ℕ) → is_timestamp later ≡ true
      → require_fence (perform_all host run' os) i.lease later ≡ ok tt
      → commit host (perform_all host run' os) i later
        ≡ ok (record r { replayed = true }, perform_all host run' os)
  unfolding commit replay_receipt validate_clock
  commit_retry run i now {r} {run'} h os later clock held =
      let (m, found, same, receipt) = recorded run i now h in
      let final = perform_all host run' os in
      let kept : lookup i.operation_id final.mutations ≡ some m =
        (perform_all-Follows host run' os).mutations_kept i.operation_id m found in
      ground (arith, eq_iff m.payload_digest (host.payload_digest (mutation_payload i)))

  -- A mutation that reuses the identity of a committed one for a payload of another digest is
  -- refused as an idempotency conflict, behind any further operations, when it passes the fence at a
  -- valid time of the clock.
  pub commit_reuse :
      (run : MemoryRun) (i : FencedRunMutation) (now : ℕ) {r : MutationReceipt} {run' : MemoryRun}
      → commit host run i now ≡ ok (r, run')
      → (os : List (ℕ × Operation)) (j : FencedRunMutation) (later : ℕ)
      → j.operation_id ≡ i.operation_id
      → host.payload_digest (mutation_payload i) ≢ host.payload_digest (mutation_payload j)
      → is_timestamp later ≡ true
      → require_fence (perform_all host run' os) j.lease later ≡ ok tt
      → commit host (perform_all host run' os) j later
        ≡ err (run_store_error RunStoreErrorCode.idempotency_conflict)
  unfolding commit replay_receipt validate_clock
  commit_reuse run i now {r} {run'} h os j later reused other clock held =
      let (m, found, same, receipt) = recorded run i now h in
      let final = perform_all host run' os in
      let kept : lookup i.operation_id final.mutations ≡ some m =
        (perform_all-Follows host run' os).mutations_kept i.operation_id m found in
      let known : lookup j.operation_id final.mutations ≡ some m =
        ap (λ k. lookup k final.mutations) reused ∙ kept in
      ground (arith, eq_iff m.payload_digest (host.payload_digest (mutation_payload j)))

settled_again :
    (run : MemoryRun) (k : String) (c : MemoryControl) (events : List RunEvent)
    → lookup k run.controls ≡ some c
    → is_pending c ≡ false
    → acknowledge run k events ≡ err (run_store_error RunStoreErrorCode.control_conflict)
unfolding acknowledge
settled_again run k c events found settled = ground arith

-- The commit is answered by the receipt of an operation that was committed before and leaves the run
-- as it is, or it throws.
abbrev pub RepliesOrThrows :
    MemoryRun → FencedRunMutation → Stored (MutationReceipt × MemoryRun) → Type 0
RepliesOrThrows run j m =
    ((prior : MemoryMutation) × (lookup j.operation_id run.mutations ≡ some prior)
      × (m ≡ ok (record prior.receipt { replayed = true }, run)))
    ⊎ ((x : StoreError) × (m ≡ err x))

module _ (host : Host) where
  -- A batch that handles a control stores what the acknowledgement writes.
  append_batch-handled :
      (run : MemoryRun) (i : FencedRunMutation) (k : String) {r : MutationReceipt}
      {run' : MemoryRun}
      → i.handles_control_operation_id ≡ some k
      → (k == "") ≡ false
      → append_batch host run i ≡ ok (r, run')
      → (a : MemoryRun) × (acknowledge run k i.events ≡ ok a) × (run'.controls ≡ a.controls)
  append_batch-handled run i k asked full h =
      let (a, s, taken, replayed, fits, start, receipt, grown, flow, lease, controls, written) =
        append_batch-eq-ok host run i h in
      (a, acknowledge_control-handled run i k asked full taken, controls)

  -- No new operation acknowledges a control that is settled.
  settled-RepliesOrThrows :
      (run : MemoryRun) (j : FencedRunMutation) (k : String) (c : MemoryControl) (now : ℕ)
      → j.handles_control_operation_id ≡ some k
      → (k == "") ≡ false
      → lookup k run.controls ≡ some c
      → is_pending c ≡ false
      → RepliesOrThrows run j (commit host run j now)
  settled-RepliesOrThrows run j k c now asked full found settled =
      elim (Result-cases (commit host run j now)) [
        | inr (x, h) ↦ inr (x, h)
        | inl ((r, run'), h) ↦ elim (commit-eq-ok host run j now h).1 [
          | inl (m, known, same, receipt, kept) ↦ inl (m, known, cc)
          | inr (new, appended) ↦
              let (a, again, controls) = append_batch-handled run j k asked full appended in
              let refused = settled_again run k c j.events found settled in absurd (cc)
        ]
      ]

  -- A new operation that is committed and handles a control: the control was pending and is observed
  -- by exactly one event of its batch; behind any further operations it holds that event's sequence,
  -- and a mutation that handles it again throws, or repeats an operation that was committed before,
  -- which writes nothing.
  pub acknowledged_once :
      (run : MemoryRun) (i : FencedRunMutation) (k : String) (now : ℕ) {r : MutationReceipt}
      {run' : MemoryRun}
      → i.handles_control_operation_id ≡ some k
      → (k == "") ≡ false
      → lookup i.operation_id run.mutations ≡ none
      → commit host run i now ≡ ok (r, run')
      → (os : List (ℕ × Operation)) (j : FencedRunMutation) (later : ℕ)
      → j.handles_control_operation_id ≡ some k
      → (c : MemoryControl) × (e : RunEvent) × (lookup k run.controls ≡ some c)
        × (is_pending c ≡ true)
        × (observations c i.events ≡ e ∷ [])
        × (lookup k (perform_all host run' os).controls
            ≡ some (record c { acknowledged_sequence = some e.sequence }))
        × RepliesOrThrows
            (perform_all host run' os)
            j
            (commit host (perform_all host run' os) j later)
  acknowledged_once run i k now {r} {run'} asked full new h os j later again =
      let appended : append_batch host run i ≡ ok (r, run') =
        elim (commit-eq-ok host run i now h).1 [
          | inl (m, known, same, receipt, kept) ↦ absurd (cc)
          | inr (fresh, done) ↦ done
        ] in
      let (a, taken, controls) = append_batch-handled run i k asked full appended in
      let (c, e, there, pending, seen, acked) = acknowledge-eq-ok run k i.events taken in
      let d : MemoryControl = record c { acknowledged_sequence = some e.sequence } in
      let now_there : lookup k run'.controls ≡ some d =
        ap (lookup k) controls
        ∙ ap (λ q. lookup k q.controls) acked
        ∙ ground (arith, eq_iff k k, lookup-insert k k d run.controls) in
      let final = perform_all host run' os in
      let still : lookup k final.controls ≡ some d =
        (perform_all-Follows host run' os).settled_kept k d now_there refl in
      (
        c,
        e,
        there,
        pending,
        seen,
        still,
        settled-RepliesOrThrows final j k d later again full still refl,
      )
