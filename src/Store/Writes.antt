-- ===== src/Store/Writes.antt =====
-- What a successful commit or control submission has passed and written
-- (packages/engine/src/durable-store.ts).
use anastom.Prelude.{
  ℕ, String, true, false, ◌≡◌, ◌⊎◌, sym, inl, inr, List, ◌++◌, Option, none, some, ok, >>=-eq-ok,
  lookup, insert, ◌==◌, text_equality, number_equality, eq_iff, arith, lookup-insert, Option-cases,
  Bool-cases, ok-injective, or_throw, or_throw-eq-ok, ◌∷◌, [],
}
use anastom.Run.State.{RunState}
use anastom.Run.Event.{RunEvent}
use anastom.Run.Reducer.{replay_run}
use anastom.Store.Types.{
  ControlSubmission, FencedRunMutation, Host, MemoryControl, MemoryMutation, ControlReceipt,
  MemoryRun, MutationReceipt, run_store_error, RunStoreErrorCode,
}
use anastom.Store.Snapshots.{assert_state_matches_workflow, state_matches_workflow}
use anastom.Store.Leases.{require_fence, validate_clock}
use anastom.Store.Commits.{
  acknowledge, acknowledge_control, append_batch, commit, is_pending, last_sequence,
  mutation_payload, observations, receipt_for, replay_receipt, submit_control, single,
  pending_control,
}

-- An acknowledgement changes the controls alone, and no control that is acknowledged.
pub record Acknowledges (run run' : MemoryRun) : Type 0 where
  pub rest_kept : run' ≡ record run { controls = run'.controls }
  pub settled_kept :
      (k : String) (c : MemoryControl)
      → lookup k run.controls ≡ some c
      → is_pending c ≡ false
      → lookup k run'.controls ≡ some c

pending_control-eq-some :
    (o : Option MemoryControl) {c : MemoryControl}
    → pending_control o ≡ some c
    → (o ≡ some c) × (is_pending c ≡ true)
pending_control-eq-some o h = ground arith

single-eq-some : (es : List RunEvent) {e : RunEvent} → single es ≡ some e → es ≡ e ∷ []
single-eq-some (e ∷ []) h = cc
single-eq-some [] h = cc
single-eq-some (e ∷ f ∷ es) h = cc

-- The control was pending, the batch observes it once, and it is acknowledged at that event.
pub acknowledge-eq-ok :
    (run : MemoryRun) (k : String) (events : List RunEvent) {run' : MemoryRun}
    → acknowledge run k events ≡ ok run'
    → (c : MemoryControl) × (e : RunEvent) × (lookup k run.controls ≡ some c)
      × (is_pending c ≡ true)
      × (observations c events ≡ e ∷ [])
      × (run' ≡ record run {
        controls = insert k (record c { acknowledged_sequence = some e.sequence }) run.controls;
      })
unfolding acknowledge
acknowledge-eq-ok run k events h =
    let conflict = run_store_error RunStoreErrorCode.control_conflict in
    let (c, found, h1) =
      >>=-eq-ok (or_throw (pending_control (lookup k run.controls)) conflict) _ h in
    let (e, seen, h2) = >>=-eq-ok (or_throw (single (observations c events)) conflict) _ h1 in
    let (there, pending) =
      pending_control-eq-some (lookup k run.controls) (or_throw-eq-ok _ conflict found) in
    (
      c,
      e,
      there,
      pending,
      single-eq-some (observations c events) (or_throw-eq-ok _ conflict seen),
      sym (ok-injective h2),
    )

acknowledge-Acknowledges :
    (run : MemoryRun) (k : String) (events : List RunEvent) {run' : MemoryRun}
    → acknowledge run k events ≡ ok run'
    → Acknowledges run run'
acknowledge-Acknowledges run k events {run'} h =
    let (c, e, there, pending, seen, written) = acknowledge-eq-ok run k events h in
    record {
      rest_kept = cc;
      settled_kept = λ j d found settled. ground (
        arith,
        eq_iff k j,
        lookup-insert k j (record c { acknowledged_sequence = some e.sequence }) run.controls,
      );
    }

pub acknowledge_control-Acknowledges :
    (run : MemoryRun) (i : FencedRunMutation) {run' : MemoryRun}
    → acknowledge_control run i ≡ ok run'
    → Acknowledges run run'
unfolding acknowledge_control
acknowledge_control-Acknowledges run i {run'} h =
    elim (Option-cases i.handles_control_operation_id) [
      | inl without ↦ record { rest_kept = ground arith; settled_kept = ground arith }
      | inr (k, asked) ↦ elim (Bool-cases (k == "")) [
        | inl empty ↦ record { rest_kept = ground arith; settled_kept = ground arith }
        | inr full ↦ acknowledge-Acknowledges run k i.events (ground arith)
      ]
    ]

pub acknowledge_control-handled :
    (run : MemoryRun) (i : FencedRunMutation) (k : String) {run' : MemoryRun}
    → i.handles_control_operation_id ≡ some k
    → (k == "") ≡ false
    → acknowledge_control run i ≡ ok run'
    → acknowledge run k i.events ≡ ok run'
unfolding acknowledge_control
acknowledge_control-handled run i k asked full h = ground arith

module _ (host : Host) where
  -- A first commit: the batch joins the history, which replays and matches the workflow.
  pub append_batch-eq-ok :
      (run : MemoryRun) (i : FencedRunMutation) {r : MutationReceipt} {run' : MemoryRun}
      → append_batch host run i ≡ ok (r, run')
      → (a : MemoryRun) × (s : RunState) × (acknowledge_control run i ≡ ok a)
        × (replay_run host.accepts_event (run.events ++ i.events) ≡ ok s)
        × (state_matches_workflow s run.workflow ≡ true)
        × (last_sequence run.events ≡ i.expected_sequence)
        × (r ≡ receipt_for i)
        × (run'.events ≡ run.events ++ i.events)
        × (run'.workflow ≡ a.workflow)
        × (run'.lease ≡ a.lease)
        × (run'.controls ≡ a.controls)
        × (run'.mutations
            ≡ insert i.operation_id
                (record { payload_digest = host.payload_digest (mutation_payload i); receipt = r })
                run.mutations)
  unfolding append_batch assert_state_matches_workflow
  append_batch-eq-ok run i h = ground arith

  -- A commit passes the fence; then it answers a known operation, or appends the batch of a new one.
  pub commit-eq-ok :
      (run : MemoryRun) (i : FencedRunMutation) (now : ℕ) {r : MutationReceipt} {run' : MemoryRun}
      → commit host run i now ≡ ok (r, run')
      → (require_fence run i.lease now ≡ ok tt)
        × (((m : MemoryMutation) × (lookup i.operation_id run.mutations ≡ some m)
              × (m.payload_digest ≡ host.payload_digest (mutation_payload i))
              × (r ≡ record m.receipt { replayed = true })
              × (run' ≡ run))
            ⊎ ((lookup i.operation_id run.mutations ≡ none)
                × (append_batch host run i ≡ ok (r, run'))))
  unfolding commit replay_receipt
  commit-eq-ok run i now {r} {run'} h =
      let (u, v, h1) = >>=-eq-ok (validate_clock now) _ h in
      let (w, held, h2) = >>=-eq-ok (require_fence run i.lease now) _ h1 in
      (
        held,
        elim (Option-cases (lookup i.operation_id run.mutations)) [
          | inl new ↦ inr (new, ground arith)
          | inr (m, known) ↦ inl (
            m,
            known,
            ground (arith, eq_iff m.payload_digest (host.payload_digest (mutation_payload i))),
            ground arith,
            ground arith,
          )
        ],
      )

-- A submission keeps the controls that are there, and the rest of the run.
pub record Submits (run run' : MemoryRun) : Type 0 where
  pub rest_kept : run' ≡ record run { controls = run'.controls }
  pub controls_kept :
      (k : String) (c : MemoryControl)
      → lookup k run.controls ≡ some c
      → lookup k run'.controls ≡ some c

pub submit_control-Submits :
    (run : MemoryRun) (i : ControlSubmission) (now : ℕ) {r : ControlReceipt} {run' : MemoryRun}
    → submit_control run i now ≡ ok (r, run')
    → Submits run run'
unfolding submit_control
submit_control-Submits run i now {r} {run'} h =
    elim (Option-cases (lookup i.operation_id run.controls)) [
      | inr (c, known) ↦
          let same : run' ≡ run = ground arith in
          record { rest_kept = cc; controls_kept = λ k d found. cc }
      | inl new ↦
          let c : MemoryControl = record {
            submission = i;
            recorded_at_ms = now;
            acknowledged_sequence = none;
          } in
          let written : run' ≡ record run { controls = insert i.operation_id c run.controls } =
            ground arith in
          record {
            rest_kept = cc;
            controls_kept = λ k d found.
                ground
                  (arith, eq_iff i.operation_id k, lookup-insert i.operation_id k c run.controls);
          }
    ]
