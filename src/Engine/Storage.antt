-- ===== src/Engine/Storage.antt =====
-- What the in-memory storage of events keeps (packages/engine/src/persistence.ts), and that the
-- engine's own commits fit it (packages/engine/src/engine.ts, `commit`).
use anastom.Prelude.{
  ℕ, suc, ◌+◌, String, Bool, true, ◌≡◌, ◌∙◌, refl, sym, ap, subst, List, [], ◌∷◌, ◌++◌, Option,
  some, Result, ok, err, >>=-eq-ok, length, lookup, insert, lookup-insert, arith, text_equality,
  number_equality, eq_iff,
}
use anastom.Run.State.{RunState}
use anastom.Run.Event.{RunEvent, RunEventPayload}
use anastom.Run.Guards.{TransitionError}
use anastom.Run.Reducer.{apply_run_event, materialize_events, materialize_from, next_sequence}
use anastom.Run.History.{IsHistory, apply_run_event-stamp, replay_run-IsHistory}
use anastom.Engine.Persistence.{
  ConflictError, PersistedRun, PersistedRuns, actual_sequence, append, are_next,
}
use anastom.Engine.Actions.{commit, conflict, store_transition, stored}
use anastom.Engine.Keeping.{Holds}

are_next-IsHistory :
    (run_id : String) (k : ℕ) (es : List RunEvent)
    → are_next run_id k es ≡ true
    → IsHistory run_id k es
unfolding are_next
are_next-IsHistory run_id k [] h = tt
are_next-IsHistory run_id k (e ∷ es) h = (
  (eq_iff e.run_id run_id).0 (ground arith),
  ground arith,
  are_next-IsHistory run_id (suc k) es (ground arith),
)

IsHistory-are_next :
    (run_id : String) (k : ℕ) (es : List RunEvent)
    → IsHistory run_id k es
    → are_next run_id k es ≡ true
unfolding are_next
IsHistory-are_next run_id k [] h = refl
IsHistory-are_next run_id k (e ∷ es) (own, next, rest) =
    let same = (eq_iff e.run_id run_id).1 own in
    let later = IsHistory-are_next run_id (suc k) es rest in ground arith

-- The last sequence of a history that starts behind `k`.
last_sequence_of :
    (run_id : String) (k : ℕ) (e : RunEvent) (es : List RunEvent)
    → IsHistory run_id (suc k) (e ∷ es)
    → actual_sequence (e ∷ es) ≡ k + length (e ∷ es)
last_sequence_of run_id k e [] (own, next, rest) = ground arith
last_sequence_of run_id k e (f ∷ es) (own, next, rest) =
    omega (arith, last_sequence_of run_id (suc k) f es rest)

actual_sequence_of :
    (run_id : String) (es : List RunEvent) → IsHistory run_id 1 es → actual_sequence es ≡ length es
actual_sequence_of run_id [] h = refl
actual_sequence_of run_id (e ∷ es) h = omega (arith, last_sequence_of run_id 0 e es h)

IsHistory-append :
    (run_id : String) (k : ℕ) (es fs : List RunEvent)
    → IsHistory run_id k es
    → IsHistory run_id (k + length es) fs
    → IsHistory run_id k (es ++ fs)
IsHistory-append run_id k [] fs h j = subst (λ m. IsHistory run_id m fs) (omega arith) j
IsHistory-append run_id k (e ∷ es) fs (own, next, rest) j = (
  own,
  next,
  IsHistory-append run_id (suc k) es fs rest (subst (λ m. IsHistory run_id m fs) (omega arith) j),
)

-- If a stored history has the sequences 1, 2, … of one run and an append is accepted, then it was
-- expected at exactly the stored length, the new events stand behind the old ones, and the sequences
-- still count up from 1 without a gap.
pub append-IsHistory :
    (runs : PersistedRuns) (run_id : String) (run : PersistedRun) (expected : ℕ)
    (events : List RunEvent) (later : PersistedRuns)
    → lookup run_id runs ≡ some run
    → IsHistory run_id 1 run.events
    → append runs run_id expected events ≡ ok later
    → (expected ≡ length run.events)
      × (lookup run_id later ≡ some (record run { events = run.events ++ events }))
      × IsHistory run_id 1 (run.events ++ events)
unfolding append
append-IsHistory runs run_id run expected events later found h accepted =
    let at : actual_sequence run.events ≡ expected = ground (arith, found) in
    let next : are_next run_id (suc expected) events ≡ true = ground (arith, found) in
    let written : later ≡ insert run_id (record run { events = run.events ++ events }) runs =
      ground (arith, found) in
    let counted = actual_sequence_of run_id run.events h in
    let equal = (eq_iff run_id run_id).1 refl in
    let new = record run { events = run.events ++ events } in
    (
      sym at ∙ counted,
      ap (lookup run_id) written ∙ lookup-insert run_id run_id new runs ∙ rw equal,
      IsHistory-append run_id 1 run.events events h (
          subst (λ m. IsHistory run_id m events) (omega (arith, at, counted))
            (are_next-IsHistory run_id (suc expected) events next)),
    )

module _ (accepts : RunEvent → Bool) where
  materialize_from-IsHistory :
      (current : Option RunState) (run_id : String) (ps : List RunEventPayload) {es : List RunEvent}
      {end : Option RunState}
      → materialize_from accepts current run_id ps ≡ ok (es, end)
      → IsHistory run_id (next_sequence current) es
  unfolding materialize_from
  materialize_from-IsHistory current run_id [] {es} h =
      let none_made : es ≡ [] = ground arith in
      subst (IsHistory run_id (next_sequence current)) (sym none_made) tt
  materialize_from-IsHistory current run_id (p ∷ ps) {es} {end} h =
      let e : RunEvent = record {
        payload = p;
        run_id = run_id;
        sequence = next_sequence current;
      } in
      let (s, now, later) = >>=-eq-ok (apply_run_event accepts current e) _ h in
      let (rest, made, last) = >>=-eq-ok (materialize_from accepts (some s) run_id ps) _ later in
      let (next, stamp, _, _) = apply_run_event-stamp accepts current e now in
      let tail = materialize_from-IsHistory (some s) run_id ps {es = rest.0} {end = rest.1} made in
      let split : es ≡ e ∷ rest.0 = ground arith in
      subst (IsHistory run_id (next_sequence current)) (sym split)
        (refl, refl, subst (λ k. IsHistory run_id k rest.0) (omega (arith, stamp)) tail)

  materialize_events-IsHistory :
      (s : RunState) (run_id : String) (ps : List RunEventPayload) {es : List RunEvent}
      {s' : RunState}
      → materialize_events accepts (some s) run_id ps ≡ ok (es, s')
      → IsHistory run_id (s.sequence + 1) es
  unfolding materialize_events
  materialize_events-IsHistory s run_id ps {es} {s'} h =
      let (made, now, last) = >>=-eq-ok (materialize_from accepts (some s) run_id ps) _ h in
      let same : made.0 ≡ es = ground arith in
      subst (IsHistory run_id (s.sequence + 1)) same
        (materialize_from-IsHistory (some s) run_id ps {es = made.0} {end = made.1} now)

  fitting_append :
      (runs : PersistedRuns) (run_id : String) (p : PersistedRun) (s : RunState)
      (es : List RunEvent)
      → Holds accepts run_id runs p s
      → IsHistory run_id (s.sequence + 1) es
      → (later : PersistedRuns) × (append runs run_id s.sequence es ≡ ok later)
  unfolding append
  fitting_append runs run_id p s es (found, replayed) h =
      let (numbered, count) = replay_run-IsHistory accepts p.events replayed in
      let at = actual_sequence_of s.run_id p.events numbered in
      let next = IsHistory-are_next run_id (s.sequence + 1) es h in
      (
        insert run_id (record p { events = p.events ++ es }) runs,
        ground (arith, found, at, count, next),
      )

  transition_fits :
      (runs : PersistedRuns) (run_id : String) (p : PersistedRun) (s : RunState)
      (ps : List RunEventPayload) (m : Result TransitionError (List RunEvent × RunState))
      (e : ConflictError) (later : PersistedRuns)
      → Holds accepts run_id runs p s
      → materialize_events accepts (some s) run_id ps ≡ m
      → ¬ (store_transition accepts runs run_id s m ≡ (later, err (conflict e)))
  transition_fits runs run_id p s ps (err x) e later holds made h =
      absurd (ground (arith, ap (λ r. r.1) h))
  transition_fits runs run_id p s ps (ok (es, s')) e later holds made h =
      let (next, fits) =
        fitting_append runs run_id p s es holds
          (materialize_events-IsHistory s run_id ps {es = es} {s' = s'} made) in
      let returned : stored accepts s' (append runs run_id s.sequence es) runs ≡ (next, ok s') =
        ap (λ r. stored accepts s' r runs) fits in
      absurd (ground (arith, ap (λ r. r.1) (sym returned ∙ h)))

  -- A commit on a stored run never conflicts if the engine's state is what the stored history
  -- replays to: only the reducer can refuse it.
  pub commit_fits :
      (runs : PersistedRuns) (run_id : String) (p : PersistedRun) (s : RunState)
      (ps : List RunEventPayload) (e : ConflictError) (later : PersistedRuns)
      → Holds accepts run_id runs p s
      → ¬ (commit accepts runs run_id s ps ≡ (later, err (conflict e)))
  unfolding commit
  commit_fits runs run_id p s [] e later holds h = absurd (ground (arith, ap (λ r. r.1) h))
  commit_fits runs run_id p s (x ∷ ps) e later holds h =
      transition_fits runs run_id p s (x ∷ ps) (materialize_events accepts (some s) run_id (x ∷ ps))
        e later holds refl h
