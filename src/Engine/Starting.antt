-- ===== src/Engine/Starting.antt =====
-- What a created run leaves (packages/engine/src/engine.ts, `createRun`).
use anastom.Prelude.{
  String, true, false, ◌≡◌, ◌≢◌, ◌∙◌, refl, sym, ap, inl, inr, List, [], ◌∷◌, ◌++◌, none, some,
  Result, ok, err, >>=-eq-ok, ok-injective, Bool-cases, lookup, insert, lookup-insert, arith, ◌==◌,
  text_equality, eq_iff, if◌then◌else◌,
}
use anastom.Run.State.{RunState}
use anastom.Run.Event.{RunEvent}
use anastom.Run.Guards.{TransitionError}
use anastom.Run.Reducer.{materialize_events}
use anastom.Run.History.{materialize_events-replay}
use anastom.Workflow.Definition.{WorkflowDefinition}
use anastom.Workflow.Scheduler.{find_executable_nodes}
use anastom.Engine.Persistence.{ConflictError, PersistedRun, PersistedRuns, create}
use anastom.Engine.Creation.{
  CreateRun, as_conflict, as_transition, create_run, creation_payload, initial_payloads,
  negotiate_worker, validate_inputs,
}
use anastom.Engine.Keeping.{Holds, materialize_events-fold, replay_run-append}

as_transition-eq-ok :
    {A : Type 0} (r : Result TransitionError A) {a : A} → as_transition r ≡ ok a → r ≡ ok a
as_transition-eq-ok (err e) h = cc
as_transition-eq-ok (ok b) h = cc

as_conflict-eq-ok :
    {A : Type 0} (r : Result ConflictError A) {a : A} → as_conflict r ≡ ok a → r ≡ ok a
as_conflict-eq-ok (err e) h = cc
as_conflict-eq-ok (ok b) h = cc

create-eq-ok :
    (runs : PersistedRuns) (run_id : String) (run : PersistedRun) {later : PersistedRuns}
    → create runs run_id run ≡ ok later
    → (lookup run_id runs ≡ none)
      × (lookup run_id later ≡ some run)
      × ((j : String) → run_id ≢ j → lookup j later ≡ lookup j runs)
unfolding create
create-eq-ok runs run_id run {later} h =
    let written : later ≡ insert run_id run runs = ground arith in
    let equal : (run_id == run_id) ≡ true = (eq_iff run_id run_id).1 refl in
    (
      ground arith,
      ap (lookup run_id) written ∙ lookup-insert run_id run_id run runs ∙ rw equal,
      λ j other.
          let differs : (run_id == j) ≡ false = elim (Bool-cases (run_id == j)) [
            | inl same ↦ absurd (other ((eq_iff run_id j).0 same))
            | inr distinct_ids ↦ distinct_ids
          ] in
          ap (lookup j) written ∙ lookup-insert run_id j run runs ∙ rw differs,
    )

module _ (c : CreateRun) (w : WorkflowDefinition) where
  -- A run that is created was not stored before and its inputs are valid; it is then stored with its
  -- workflow and a history that replays to the state that is returned, and no other run has changed.
  pub create_run_stores :
      (runs later : PersistedRuns) (s : RunState)
      → create_run c w runs ≡ ok (later, s)
      → (lookup c.run_id runs ≡ none)
        × (validate_inputs c.value_errors w c.inputs ≡ ok tt)
        × ((events : List RunEvent) × Holds c.accepts c.run_id later
              (record { workflow = w; events = events })
              s)
        × ((j : String) → c.run_id ≢ j → lookup j later ≡ lookup j runs)
  unfolding create_run
  create_run_stores runs later s h =
      let (negotiation, _, h1) =
        >>=-eq-ok (if c.is_worker then negotiate_worker c w c.workspace else ok none) _ h in
      let (done, valid, h2) = >>=-eq-ok (validate_inputs c.value_errors w c.inputs) _ h1 in
      let (created, first, h3) =
        >>=-eq-ok
          (as_transition (materialize_events c.accepts none c.run_id (creation_payload c w ∷ []))) _
          h2 in
      let (initialized, second, h4) =
        >>=-eq-ok
          (as_transition (
            materialize_events c.accepts (some created.1) c.run_id
              (initial_payloads c w negotiation (find_executable_nodes w created.1))))
          _ h3 in
      let run : PersistedRun = record { workflow = w; events = created.0 ++ initialized.0 } in
      let (stored, third, h5) = >>=-eq-ok (as_conflict (create runs c.run_id run)) _ h4 in
      let (fresh, there, others) = create-eq-ok runs c.run_id run (as_conflict-eq-ok _ third) in
      let replayed =
        (materialize_events-replay c.accepts c.run_id (creation_payload c w ∷ []) {es = created.0}
          {s = created.1} (as_transition-eq-ok _ first)).0 in
      let folded =
        materialize_events-fold c.accepts created.1 c.run_id
          (initial_payloads c w negotiation (find_executable_nodes w created.1))
          {es = initialized.0} {s' = initialized.1} (as_transition-eq-ok _ second) in
      let both : (stored, initialized.1) ≡ (later, s) = ok-injective h5 in
      let at : later ≡ stored = ap (λ (x : PersistedRuns × RunState). x.0) (sym both) in
      let is : initialized.1 ≡ s = ap (λ (x : PersistedRuns × RunState). x.1) both in
      (
        fresh,
        valid,
        (
          created.0 ++ initialized.0,
          (
            ap (lookup c.run_id) at ∙ there,
            replay_run-append c.accepts created.0 initialized.0 replayed folded ∙ ap ok is,
          ),
        ),
        λ j other. ap (lookup j) at ∙ others j other,
      )
