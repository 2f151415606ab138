-- ===== src/Store/Histories.antt =====
-- The history of a stored run (packages/engine/src/durable-store.ts) against the reducer
-- (packages/engine/src/events.ts).
use anastom.Prelude.{ℕ, true, ◌≡◌, ◌∙◌, sym, ap, inl, inr, List, [], ◌∷◌, ok, subst, Result-cases}
use anastom.Run.State.{RunState}
use anastom.Run.Reducer.{replay_run}
use anastom.Run.Validity.{RunValid}
use anastom.Run.Invariant.{replay_run-RunValid}
use anastom.Run.Extension.{Extends, replay_run-Extends}
use anastom.Store.Types.{FencedRunMutation, Host, MemoryRun}
use anastom.Store.Snapshots.{state_matches_workflow}
use anastom.Store.Leases.{acquire_released, release, renew, takeover_expired}
use anastom.Store.Commits.{commit, submit_control}
use anastom.Store.Operations.{
  Operation, perform, perform_all, acquire, take_over, renew_lease, release_lease, commit_events,
  submit,
}
use anastom.Store.Steps.{
  acquire_released-eq-ok, takeover_expired-eq-ok, release-eq-ok, renew-Renews,
}
use anastom.Store.Writes.{
  acknowledge_control-Acknowledges, append_batch-eq-ok, commit-eq-ok, submit_control-Submits,
}
use anastom.Store.Succession.{perform_all-Follows}

module _ (host : Host) where
  -- The history replays to a state of the stored workflow.
  abbrev pub HasState : MemoryRun → Type 0
  HasState run =
      (s : RunState) × (replay_run host.accepts_event run.events ≡ ok s)
      × (state_matches_workflow s run.workflow ≡ true)

  -- An operation that leaves history and workflow.
  unwritten-HasState :
      (run run' : MemoryRun)
      → run'.events ≡ run.events
      → run'.workflow ≡ run.workflow
      → HasState run
      → HasState run'
  unwritten-HasState run run' events flow (s, replayed, matches) = (s, cc, cc)

  commit-HasState :
      (run : MemoryRun) (i : FencedRunMutation) (now : ℕ) {r : _} {run' : MemoryRun}
      → commit host run i now ≡ ok (r, run')
      → HasState run
      → HasState run'
  commit-HasState run i now {r} {run'} h v = elim (commit-eq-ok host run i now h).1 [
    | inl (m, known, same, receipt, kept) ↦ subst HasState (sym kept) v
    | inr (new, appended) ↦
        let (a, s, asked, replayed, matches, start, same, grown, flow, lease, controls, written) =
          append_batch-eq-ok host run i appended in
        let whole : run'.workflow ≡ run.workflow =
          flow ∙ ap (λ q. q.workflow) (acknowledge_control-Acknowledges run i asked).rest_kept in
        (s, cc, cc)
  ]

  pub perform-HasState :
      (run : MemoryRun) (o : ℕ × Operation) → HasState run → HasState (perform host run o)
  unfolding perform
  perform-HasState run (now, acquire i) v = elim (Result-cases (acquire_released run i now)) [
    | inl (run', h) ↦
        let same = (acquire_released-eq-ok run i now h).0 in
        rw h (unwritten-HasState run run' (ap (λ q. q.events) same) (ap (λ q. q.workflow) same) v)
    | inr (e, h) ↦ rw h v
  ]
  perform-HasState run (now, take_over i) v = elim (Result-cases (takeover_expired run i now)) [
    | inl (run', h) ↦
        let same = (takeover_expired-eq-ok run i now h).0 in
        rw h (unwritten-HasState run run' (ap (λ q. q.events) same) (ap (λ q. q.workflow) same) v)
    | inr (e, h) ↦ rw h v
  ]
  perform-HasState run (now, renew_lease t) v =
      let same = (renew-Renews run t now).leased in
      unwritten-HasState run (renew run t now).0 (ap (λ q. q.events) same)
        (ap (λ q. q.workflow) same) v
  perform-HasState run (now, release_lease t) v = elim (Result-cases (release run t)) [
    | inl (run', h) ↦
        let same = (release-eq-ok run t h).0 in
        rw h (unwritten-HasState run run' (ap (λ q. q.events) same) (ap (λ q. q.workflow) same) v)
    | inr (e, h) ↦ rw h v
  ]
  perform-HasState run (now, commit_events i) v = elim (Result-cases (commit host run i now)) [
    | inl ((r, run'), h) ↦ rw h (commit-HasState run i now h v)
    | inr (e, h) ↦ rw h v
  ]
  perform-HasState run (now, submit i) v = elim (Result-cases (submit_control run i now)) [
    | inl ((r, run'), h) ↦
        let same = (submit_control-Submits run i now h).rest_kept in
        rw h (unwritten-HasState run run' (ap (λ q. q.events) same) (ap (λ q. q.workflow) same) v)
    | inr (e, h) ↦ rw h v
  ]

  perform_all-HasState :
      (run : MemoryRun) (os : List (ℕ × Operation))
      → HasState run
      → HasState (perform_all host run os)
  unfolding perform_all
  perform_all-HasState run [] v = v
  perform_all-HasState run (o ∷ os) v =
      perform_all-HasState (perform host run o) os (perform-HasState run o v)

  -- From a stored run whose history replays to a state of its workflow, every sequence of operations
  -- of any owners at any times ends in a run of the same workflow whose history again replays to a
  -- state of that workflow; this state is consistent (RunValid), and it extends the state before.
  pub stored_history_replays :
      (run : MemoryRun) (os : List (ℕ × Operation)) (s : RunState)
      → replay_run host.accepts_event run.events ≡ ok s
      → state_matches_workflow s run.workflow ≡ true
      → ((perform_all host run os).workflow ≡ run.workflow)
        × ((s' : RunState) × (replay_run host.accepts_event (perform_all host run os).events
              ≡ ok s')
            × (state_matches_workflow s' run.workflow ≡ true)
            × RunValid s'
            × Extends s s')
  stored_history_replays run os s replayed matches =
      let follows = perform_all-Follows host run os in
      let (s', again, fits) = perform_all-HasState run os (s, replayed, matches) in
      let (tail, grown) = follows.history_kept in
      (
        follows.workflow_kept,
        (
          s',
          again,
          ap (state_matches_workflow s') (sym follows.workflow_kept) ∙ fits,
          replay_run-RunValid host.accepts_event _ again,
          replay_run-Extends host.accepts_event run.events tail replayed
              (ap (replay_run host.accepts_event) (sym grown) ∙ again),
        ),
      )
