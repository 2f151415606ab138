-- ===== src/Store/Restoration.antt =====
-- What a load answers (packages/engine/src/durable-store.ts, `load`).
use anastom.Prelude.{
  All, ℕ, Bool, true, false, ◌≡◌, ◌∙◌, refl, sym, ap, subst, List, [], ◌∷◌, Option, none, some, ok,
  inl, inr, Bool-cases, leb, if◌then◌else◌, arith, String,
}
use mathlib.Core.List.{Memᴰ}
use anastom.Run.State.{RunState}
use anastom.Run.Event.{RunEvent}
use anastom.Run.Reducer.{replay_run}
use anastom.Run.Validity.{RunValid}
use anastom.Run.Extension.{Extends}
use anastom.Store.Types.{Host, MemoryRun, RunSnapshot}
use anastom.Store.Snapshots.{
  assert_state_matches_workflow, create_run_snapshot, state_matches_workflow,
}
use anastom.Store.Operations.{Operation, perform_all}
use anastom.Store.Histories.{stored_history_replays}
use anastom.Store.Loading.{
  LoadMode, LoadedRun, find_snapshot, insert_latest, latest_first, load_run, loaded_run,
  snapshot_compatible,
}

abbrev pub returned_events : LoadMode → List RunEvent → Option (List RunEvent)
returned_events LoadMode.execution es = none
returned_events LoadMode.complete_history es = some es

module _ (P : RunSnapshot → Type 0) where
  All-insert_latest :
      (s : RunSnapshot) (ts : List RunSnapshot) → P s → All P ts → All P (insert_latest s ts)
  unfolding insert_latest
  All-insert_latest s [] p h = (p, tt)
  All-insert_latest s (t ∷ ts) p h =
      let rest : All P (t ∷ insert_latest s ts) = (h.0, All-insert_latest s ts p h.1) in
      elim (leb t.sequence s.sequence)
        as (λ b. All P (if b then s ∷ t ∷ ts else t ∷ insert_latest s ts)) [
          | true ↦ (p, h)
          | false ↦ rest
        ]

  All-latest_first : (ss : List RunSnapshot) → All P ss → All P (latest_first ss)
  unfolding latest_first
  All-latest_first [] h = tt
  All-latest_first (s ∷ ss) h = All-insert_latest s (latest_first ss) h.0 (All-latest_first ss h.1)

  find_snapshot-eq-some :
      (p : RunSnapshot → Bool) (ss : List RunSnapshot) {u : RunSnapshot}
      → All P ss
      → find_snapshot p ss ≡ some u
      → P u × (p u ≡ true)
  unfolding find_snapshot
  find_snapshot-eq-some p [] h e = cc
  find_snapshot-eq-some p (s ∷ ss) {u} h e = elim (Bool-cases (p s)) [
    | inl passes ↦ let same : s ≡ u = ground arith in (subst P same h.0, ap p (sym same) ∙ passes)
    | inr fails ↦ find_snapshot-eq-some p ss h.1 (ground arith)
  ]

  members_All : (ss : List RunSnapshot) → ((u : RunSnapshot) → Memᴰ u ss → P u) → All P ss
  members_All [] f = tt
  members_All (s ∷ ss) f = (f s (Memᴰ.head refl), members_All ss (λ u m. f u (Memᴰ.tail m)))

module _ (host : Host) where
  -- The snapshot that a load names is stored, and compatible with the history and its state.
  abbrev pub IsBacked : MemoryRun → RunState → Option ℕ → Type 0
  IsBacked run s none = Unit {0}
  IsBacked run s (some k) =
      (u : RunSnapshot) × (u.sequence ≡ k)
      × Memᴰ u run.snapshots
      × (snapshot_compatible host u run.workflow run.events s ≡ true)

  loaded_events :
      (mode : LoadMode) (run : MemoryRun) (s : RunState) (digest : String) (o : Option RunSnapshot)
      → (loaded_run host mode run s digest o).events ≡ returned_events mode run.events
  loaded_events LoadMode.execution run s digest o = refl
  loaded_events LoadMode.complete_history run s digest o = refl

  found-IsBacked :
      (mode : LoadMode) (run : MemoryRun) (s : RunState) (digest : String) (o : Option RunSnapshot)
      → find_snapshot
          (λ t. snapshot_compatible host t run.workflow run.events s)
          (latest_first run.snapshots)
        ≡ o
      → IsBacked run s (loaded_run host mode run s digest o).snapshot_sequence
  found-IsBacked mode run s digest none e = tt
  found-IsBacked mode run s digest (some u) e =
      let stored = members_All (λ v. Memᴰ v run.snapshots) run.snapshots (λ v m. m) in
      let (there, compatible) =
        find_snapshot-eq-some (λ v. Memᴰ v run.snapshots)
          (λ t. snapshot_compatible host t run.workflow run.events s) (latest_first run.snapshots)
          (All-latest_first (λ v. Memᴰ v run.snapshots) run.snapshots stored) e in
      (u, refl, there, compatible)

  -- Behind any operations on a run whose history replays to a state of its workflow, a load answers,
  -- if a snapshot of the whole history can be made. Whatever snapshots are stored, the state is that
  -- of the full replay: it is consistent (RunValid) and extends the state before. The snapshot that
  -- the answer names, if it names one, is stored and compatible with the history and this state; and
  -- the whole history is returned in the mode that asks for it, and only then.
  pub load_answers_replay :
      (run : MemoryRun) (os : List (ℕ × Operation)) (s : RunState) (mode : LoadMode)
      {whole : RunSnapshot}
      → replay_run host.accepts_event run.events ≡ ok s
      → state_matches_workflow s run.workflow ≡ true
      → create_run_snapshot host run.workflow (perform_all host run os).events ≡ ok whole
      → (l : LoadedRun) × (load_run host mode (perform_all host run os) ≡ ok l)
        × (replay_run host.accepts_event (perform_all host run os).events ≡ ok l.state)
        × RunValid l.state
        × Extends s l.state
        × IsBacked (perform_all host run os) l.state l.snapshot_sequence
        × (l.events ≡ returned_events mode (perform_all host run os).events)
  unfolding load_run assert_state_matches_workflow
  load_answers_replay run os s mode {whole} replayed matches made =
      let (flow, (s', again, fits, valid, extends)) =
        stored_history_replays host run os s replayed matches in
      let final = perform_all host run os in
      let fits' : state_matches_workflow s' final.workflow ≡ true =
        ap (state_matches_workflow s') flow ∙ fits in
      let made' : create_run_snapshot host final.workflow final.events ≡ ok whole =
        ap (λ w. create_run_snapshot host w final.events) flow ∙ made in
      let found =
        find_snapshot (λ t. snapshot_compatible host t final.workflow final.events s')
          (latest_first final.snapshots) in
      (
        loaded_run host mode final s' whole.event_prefix_digest found,
        rw (again, fits', made') refl,
        again,
        valid,
        extends,
        found-IsBacked mode final s' whole.event_prefix_digest found refl,
        loaded_events mode final s' whole.event_prefix_digest found,
      )
