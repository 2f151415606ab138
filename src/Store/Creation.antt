-- ===== src/Store/Creation.antt =====
-- Creation of an owned run (packages/engine/src/durable-store.ts, `createOwned`).
use anastom.Prelude.{
  ℕ, ◌+◌, String, true, ◌≡◌, List, none, some, lookup, insert, ok, ◌>>=◌, ◌>>◌, guard, guard-eq-ok,
  >>=-eq-ok, lookup-insert, eq_iff, arith, ◌==◌, text_equality, number_equality, ◌≢◌, ◌∙◌, ap,
}
use anastom.Run.State.{RunState}
use anastom.Run.Reducer.{replay_run}
use anastom.Run.Validity.{RunValid}
use anastom.Store.Types.{CreateOwnedRun, Host, MemoryRun, OwnedRunReceipt}
use anastom.Store.Snapshots.{
  assert_run_snapshot, assert_state_matches_workflow, rethrow, state_matches_workflow,
}
use anastom.Store.Leases.{lease_expiry, require_fence, validate_clock, run_lease_duration_ms}
use anastom.Store.Operations.{Operation, perform_all}
use anastom.Store.Terms.{LeaseValid, perform_all-LeaseValid}
use anastom.Store.Histories.{stored_history_replays}
use anastom.Store.Runs.{Runs, create_owned, created_run, first_lease, validate_create_owned_run}

module _ (host : Host) where
  validate_create_owned_run-eq-ok :
      (i : CreateOwnedRun) {u : Unit {0}}
      → validate_create_owned_run host i ≡ ok u
      → (s : RunState) × (replay_run host.accepts_event i.initial_events ≡ ok s)
        × (s.run_id ≡ i.run_id)
        × (state_matches_workflow s i.workflow ≡ true)
  unfolding validate_create_owned_run assert_state_matches_workflow
  validate_create_owned_run-eq-ok i h =
      let (valid, h1) =
        guard-eq-ok _ _
          (λ _. rethrow (replay_run host.accepts_event i.initial_events) >>= λ s.
            guard (s.run_id == i.run_id) _
            >> (assert_state_matches_workflow s i.workflow
                >> assert_run_snapshot host i.snapshot i.workflow i.initial_events))
          h in
      let (s, replayed, h2) =
        >>=-eq-ok (rethrow (replay_run host.accepts_event i.initial_events)) _ h1 in
      (s, ground arith, ground (arith, eq_iff s.run_id i.run_id), ground arith)

  create_owned-eq-ok :
      (runs : Runs) (i : CreateOwnedRun) (now : ℕ) {r : OwnedRunReceipt} {runs' : Runs}
      → create_owned host runs i now ≡ ok (r, runs')
      → (validate_create_owned_run host i ≡ ok tt)
        × (lookup i.run_id runs ≡ none)
        × (runs'
            ≡ insert i.run_id
                (created_run host i (first_lease host i now (now + run_lease_duration_ms)))
                runs)
        × (r.lease ≡ record { run_id = i.run_id; owner_id = i.owner_id; generation = 1 })
  unfolding create_owned validate_clock lease_expiry
  create_owned-eq-ok runs i now h = ground arith

  -- A creation that succeeds adds a run under its identity, which no run had, and leaves the other
  -- runs as they are. The returned token passes the fence at once. Whatever operations follow, the
  -- lease keeps its times in order, and the history replays to a consistent state of this run and of
  -- its workflow.
  pub created_run_lives :
      (runs : Runs) (i : CreateOwnedRun) (now : ℕ) {r : OwnedRunReceipt} {runs' : Runs}
      → create_owned host runs i now ≡ ok (r, runs')
      → (os : List (ℕ × Operation))
      → (run : MemoryRun) × (lookup i.run_id runs ≡ none)
        × (lookup i.run_id runs' ≡ some run)
        × ((k : String) → k ≢ i.run_id → lookup k runs' ≡ lookup k runs)
        × (require_fence run r.lease now ≡ ok tt)
        × LeaseValid (perform_all host run os).lease
        × ((s : RunState) × (replay_run host.accepts_event (perform_all host run os).events ≡ ok s)
            × (state_matches_workflow s i.workflow ≡ true)
            × (s.run_id ≡ i.run_id)
            × RunValid s)
  unfolding require_fence
  created_run_lives runs i now {r} {runs'} h os =
      let (valid, absent, written, token) = create_owned-eq-ok runs i now h in
      let (s, replayed, named, matches) = validate_create_owned_run-eq-ok i valid in
      let run = created_run host i (first_lease host i now (now + run_lease_duration_ms)) in
      let (flow, (s', again, fits, consistent, extends)) =
        stored_history_replays host run os s replayed matches in
      (
        run,
        absent,
        ap (lookup i.run_id) written
            ∙ ground (arith, eq_iff i.run_id i.run_id, lookup-insert i.run_id i.run_id run runs),
        λ k other.
            ap (lookup k) written
            ∙ ground (arith, eq_iff i.run_id k, lookup-insert i.run_id k run runs),
        rw token (ground (arith, eq_iff i.owner_id i.owner_id)),
        perform_all-LeaseValid host run os (record {
          acquired_first = omega arith;
          renewed_in_time = omega arith;
          bounded = omega arith;
        }),
        (s', again, fits, extends.run_kept ∙ named, consistent),
      )
