-- ===== src/Engine/Keeping.antt =====
-- What the engine's statements keep of the stored history (packages/engine/src/engine.ts).
use anastom.Prelude.{
  ℕ, String, Bool, true, false, ◌≡◌, ◌≢◌, ◌∙◌, refl, sym, ap, inl, inr, List, [], ◌∷◌, ◌++◌, none,
  some, Result, ok, err, lookup, insert, lookup-insert, >>=-eq-ok, Bool-cases, arith, ◌==◌,
  text_equality, eq_iff, if◌then◌else◌,
}
use mathlib.Core.List.{append-nil, append_assoc}
use anastom.Run.State.{RunState}
use anastom.Run.Event.{RunEvent, RunEventPayload}
use anastom.Run.Guards.{TransitionError}
use anastom.Run.Reducer.{fold_events, materialize_events, materialize_from, replay_run}
use anastom.Run.History.{fold_events-append, fold_events-replay, materialize_from-fold}
use anastom.Engine.Persistence.{ConflictError, PersistedRun, PersistedRuns, append}
use anastom.Engine.Actions.{
  Action, EngineError, ExecutionResult, Progress, ◌>>=◌, assign_state, attempt_call, commit,
  commit_next, do_if, get_result, get_state, get_unsafe_to_retry, return, run_after, set_result,
  set_unsafe_to_retry, store_transition, stored, throw,
}

module _ (accepts : RunEvent → Bool) where
  pub materialize_events-fold :
      (s : RunState) (run_id : String) (ps : List RunEventPayload) {es : List RunEvent}
      {s' : RunState}
      → materialize_events accepts (some s) run_id ps ≡ ok (es, s')
      → fold_events accepts (some s) es ≡ ok (some s')
  unfolding materialize_events
  materialize_events-fold s run_id ps {es} {s'} h =
      let (made, now, last) = >>=-eq-ok (materialize_from accepts (some s) run_id ps) _ h in
      let ends : made.1 ≡ some s' = ground arith in
      let same : made.0 ≡ es = ground arith in
      ap (fold_events accepts (some s)) (sym same)
      ∙ (materialize_from-fold accepts (some s) run_id ps {es = made.0} {end = made.1} now).0
      ∙ ap ok ends

  pub replay_run-append :
      (es fs : List RunEvent) {s s' : RunState}
      → replay_run accepts es ≡ ok s
      → fold_events accepts (some s) fs ≡ ok (some s')
      → replay_run accepts (es ++ fs) ≡ ok s'
  unfolding replay_run
  replay_run-append es fs h k =
      rw (fold_events-append accepts none es fs, fold_events-replay accepts es h, k)

module _ (accepts : RunEvent → Bool) (run_id : String) where
  -- The run is stored, and its history replays to the state.
  abbrev pub Holds : PersistedRuns → PersistedRun → RunState → Type 0
  Holds runs p s = (lookup run_id runs ≡ some p) × (replay_run accepts p.events ≡ ok s)

  -- From the run `p` stored in `runs`: what is stored later has the same workflow, its history goes on
  -- behind that of `p` and replays to the state, and no other run has changed.
  pub record Continues (runs : PersistedRuns) (p : PersistedRun) (later : PersistedRuns)
      (s : RunState) : Type 0 where
    pub run : PersistedRun
    pub added : List RunEvent
    pub holds : Holds later run s
    pub same_workflow : run.workflow ≡ p.workflow
    pub appended : run.events ≡ p.events ++ added
    pub others_kept : (j : String) → run_id ≢ j → lookup j later ≡ lookup j runs

  pub Continues-refl :
      (runs : PersistedRuns) (p : PersistedRun) (s : RunState)
      → Holds runs p s
      → Continues runs p runs s
  Continues-refl runs p s h = record {
    run = p;
    added = [];
    holds = h;
    same_workflow = refl;
    appended = sym (append-nil p.events);
    others_kept = λ j other. refl;
  }

  -- What a commit leaves, on both of its results.
  abbrev pub Left :
      PersistedRuns → PersistedRun → RunState → PersistedRuns × Result EngineError RunState → Type 0
  Left runs p s (later, ok s') = Continues runs p later s'
  Left runs p s (later, err e) = Continues runs p later s

  append-Continues :
      (runs : PersistedRuns) (p : PersistedRun) (later : PersistedRuns) (s : RunState)
      (es : List RunEvent) (k : ℕ) {s' : RunState} {next : PersistedRuns}
      → Continues runs p later s
      → fold_events accepts (some s) es ≡ ok (some s')
      → append later run_id k es ≡ ok next
      → Continues runs p next s'
  unfolding append
  append-Continues runs p later s es k {s'} {next} c folds h =
      let written : next ≡ insert run_id (record c.run { events = c.run.events ++ es }) later =
        ground (arith, c.holds.0) in
      let new = record c.run { events = c.run.events ++ es } in
      let equal : (run_id == run_id) ≡ true = (eq_iff run_id run_id).1 refl in
      record {
        run = new;
        added = c.added ++ es;
        holds = (
          ap (lookup run_id) written ∙ lookup-insert run_id run_id new later ∙ rw equal,
          replay_run-append accepts c.run.events es c.holds.1 folds,
        );
        same_workflow = c.same_workflow;
        appended = ap (λ xs. xs ++ es) c.appended ∙ append_assoc p.events c.added es;
        others_kept = λ j other.
            let differs : (run_id == j) ≡ false = elim (Bool-cases (run_id == j)) [
              | inl same ↦ absurd (other ((eq_iff run_id j).0 same))
              | inr distinct_ids ↦ distinct_ids
            ] in
            ap (lookup j) written
            ∙ lookup-insert run_id j new later
            ∙ rw differs (c.others_kept j other);
      }

  stored-Left :
      (runs : PersistedRuns) (p : PersistedRun) (later : PersistedRuns) (s s' : RunState)
      (es : List RunEvent) (r : Result ConflictError PersistedRuns)
      → Continues runs p later s
      → fold_events accepts (some s) es ≡ ok (some s')
      → append later run_id s.sequence es ≡ r
      → Left runs p s (stored accepts s' r later)
  stored-Left runs p later s s' es (err e) c folds h = c
  stored-Left runs p later s s' es (ok next) c folds h =
      append-Continues runs p later s es s.sequence c folds h

  transition-Left :
      (runs : PersistedRuns) (p : PersistedRun) (later : PersistedRuns) (s : RunState)
      (ps : List RunEventPayload) (m : Result TransitionError (List RunEvent × RunState))
      → Continues runs p later s
      → materialize_events accepts (some s) run_id ps ≡ m
      → Left runs p s (store_transition accepts later run_id s m)
  transition-Left runs p later s ps (err e) c h = c
  transition-Left runs p later s ps (ok (es, s')) c h =
      stored-Left runs p later s s' es (append later run_id s.sequence es) c
        (materialize_events-fold accepts s run_id ps h) refl

  pub commit-Left :
      (runs : PersistedRuns) (p : PersistedRun) (later : PersistedRuns) (s : RunState)
      (ps : List RunEventPayload)
      → Continues runs p later s
      → Left runs p s (commit accepts later run_id s ps)
  unfolding commit
  commit-Left runs p later s [] c = c
  commit-Left runs p later s (x ∷ ps) c =
      transition-Left runs p later s (x ∷ ps) (materialize_events accepts (some s) run_id (x ∷ ps))
        c refl

  -- Whether it returns or throws, the action leaves the stored history in step with the state.
  pub record Keeps {A : Type 0} (action : Action A) : Type 0 where
    pub keeps :
        (runs : PersistedRuns) (p : PersistedRun) (q : Progress)
        → Continues runs p q.runs q.state
        → Continues runs p (action q).0.runs (action q).0.state

  run_after-Keeps :
      {A B : Type 0} (runs : PersistedRuns) (p : PersistedRun) (next : A → Action B)
      (r : Progress × Result EngineError A)
      → ((a : A) → Keeps (next a))
      → Continues runs p r.0.runs r.0.state
      → Continues runs p (run_after next r).0.runs (run_after next r).0.state
  run_after-Keeps runs p next (q, err e) k c = c
  run_after-Keeps runs p next (q, ok a) k c = (k a).keeps runs p q c

  pub >>=-Keeps :
      {A B : Type 0} {action : Action A} {next : A → Action B}
      → Keeps action
      → ((a : A) → Keeps (next a))
      → Keeps (action >>= next)
  unfolding ◌>>=◌
  >>=-Keeps {action = action} {next = next} h k = record {
    keeps = λ runs p q c. run_after-Keeps runs p next (action q) k (h.keeps runs p q c);
  }

  pub return-Keeps : {A : Type 0} (a : A) → Keeps (return a)
  return-Keeps a = record { keeps = λ runs p q c. c }

  pub throw-Keeps : {A : Type 0} (e : EngineError) → Keeps {A = A} (throw e)
  throw-Keeps e = record { keeps = λ runs p q c. c }

  pub attempt_call-Keeps :
      {E A : Type 0} (as_error : E → EngineError) (r : Result E A) → Keeps (attempt_call as_error r)
  unfolding attempt_call
  attempt_call-Keeps as_error (err e) = record { keeps = λ runs p q c. c }
  attempt_call-Keeps as_error (ok a) = record { keeps = λ runs p q c. c }

  pub set_result-Keeps : (r : ExecutionResult) → Keeps (set_result r)
  unfolding set_result
  set_result-Keeps r = record { keeps = λ runs p q c. c }

  pub set_unsafe_to_retry-Keeps : (b : Bool) → Keeps (set_unsafe_to_retry b)
  unfolding set_unsafe_to_retry
  set_unsafe_to_retry-Keeps b = record { keeps = λ runs p q c. c }

  pub get_result-Keeps : Keeps get_result
  get_result-Keeps = record { keeps = λ runs p q c. c }

  pub get_state-Keeps : Keeps get_state
  get_state-Keeps = record { keeps = λ runs p q c. c }

  pub get_unsafe_to_retry-Keeps : Keeps get_unsafe_to_retry
  get_unsafe_to_retry-Keeps = record { keeps = λ runs p q c. c }

  pub if-Keeps :
      {A : Type 0} (b : Bool) {x y : Action A} → Keeps x → Keeps y → Keeps (if b then x else y)
  if-Keeps true h k = h
  if-Keeps false h k = k

  pub do_if-Keeps : (b : Bool) {x : Action (Unit {0})} → Keeps x → Keeps (do_if b x)
  unfolding do_if
  do_if-Keeps true h = h
  do_if-Keeps false h = return-Keeps tt

  assign_state-Keeps :
      (runs : PersistedRuns) (p : PersistedRun) (q : Progress)
      (r : PersistedRuns × Result EngineError RunState)
      → Left runs p q.state r
      → Continues runs p (assign_state accepts q r).0.runs (assign_state accepts q r).0.state
  assign_state-Keeps runs p q (later, err e) h = h
  assign_state-Keeps runs p q (later, ok s) h = h

  pub commit_next-Keeps : (ps : List RunEventPayload) → Keeps (commit_next accepts run_id ps)
  unfolding commit_next
  commit_next-Keeps ps = record {
    keeps = λ runs p q c.
        assign_state-Keeps runs p q (commit accepts q.runs run_id q.state ps)
          (commit-Left runs p q.runs q.state ps c);
  }
