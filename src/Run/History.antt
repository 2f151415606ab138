-- ===== src/Run/History.antt =====
-- Histories (packages/engine/src/events.ts, `replayRun` and `materializeEvents`): replaying, splitting
-- and extending them.
use anastom.Prelude.{
  ℕ, suc, ◌+◌, String, Bool, false, ◌≡◌, ◌∙◌, refl, sym, ap, ap₂, subst, inl, inr, Result-cases,
  List, [], ◌∷◌, ◌++◌, map, Option, none, some, ok, ◌>>=◌, guard-eq-ok, >>=-eq-ok, length, arith,
  text_equality, number_equality, eq_iff,
}
use anastom.Run.State.{RunState}
use anastom.Run.Event.{RunEvent, RunEventPayload, run_created}
use anastom.Run.Reducer.{
  apply_run_event, continue_run, create_run, create_from, dispatch, fold_events, is_terminal,
  materialize_events, materialize_from, next_sequence, replay_run,
}
use anastom.Run.Frame.{dispatch-SameRun}

-- What an accepted event after the first has passed.
pub continue_run-eq-ok :
    (s : RunState) (e : RunEvent) {s' : RunState}
    → continue_run s e ≡ ok s'
    → (e.run_id ≡ s.run_id)
      × (e.sequence ≡ s.sequence + 1)
      × (is_terminal s.status ≡ false)
      × (dispatch (record s { sequence = e.sequence }) e.payload ≡ ok s')
unfolding continue_run
continue_run-eq-ok s e h = ground (arith, eq_iff e.run_id s.run_id)

create_from-eq-ok :
    (e : RunEvent) (p : RunEventPayload) {s : RunState}
    → create_from e p ≡ ok s
    → (e.sequence ≡ 1) × (s.sequence ≡ 1) × (s.run_id ≡ e.run_id)
unfolding create_from
create_from-eq-ok e (run_created c) h = ground arith
create_from-eq-ok e _ h = cc

-- The events carry this run's identity and count up from `k`.
abbrev pub IsHistory : String → ℕ → List RunEvent → Type 0
IsHistory run_id k [] = Unit {0}
IsHistory run_id k (e ∷ es) = (e.run_id ≡ run_id) × (e.sequence ≡ k) × IsHistory run_id (suc k) es

-- The run of the state before an event, if there is one.
abbrev IsRunOf : String → Option RunState → Type 0
IsRunOf run_id none = Unit {0}
IsRunOf run_id (some s) = s.run_id ≡ run_id

module _ (accepts : RunEvent → Bool) where
  pub apply_run_event-stamp :
      (current : Option RunState) (e : RunEvent) {s : RunState}
      → apply_run_event accepts current e ≡ ok s
      → (e.sequence ≡ next_sequence current)
        × (s.sequence ≡ e.sequence)
        × (s.run_id ≡ e.run_id)
        × IsRunOf e.run_id current
  unfolding apply_run_event create_run
  apply_run_event-stamp none e h =
      let (one, start, own) =
        create_from-eq-ok e e.payload (guard-eq-ok _ _ (λ _. create_run e) h).1 in
      (one, start ∙ sym one, own, tt)
  apply_run_event-stamp (some s) e h =
      let (own, next, live, moved) =
        continue_run-eq-ok s e (guard-eq-ok _ _ (λ _. continue_run s e) h).1 in
      let same = dispatch-SameRun (record s { sequence = e.sequence }) e.payload moved in
      (next, same.sequence_kept, same.run_kept ∙ sym own, sym own)

  fold_events-IsHistory :
      (current : Option RunState) (es : List RunEvent) (run_id : String) {s : RunState}
      → fold_events accepts current es ≡ ok (some s)
      → s.run_id ≡ run_id
      → IsHistory run_id (next_sequence current) es
        × (s.sequence + 1 ≡ next_sequence current + length es)
        × IsRunOf run_id current
  unfolding fold_events
  fold_events-IsHistory none [] run_id h own = cc
  fold_events-IsHistory (some c) [] run_id {s} h own =
      let e : c ≡ s = ground arith in
      (tt, rw e (omega arith), ap (λ (t : RunState). t.run_id) e ∙ own)
  fold_events-IsHistory current (e ∷ es) run_id {s} h own =
      let (t, now, later) = >>=-eq-ok (apply_run_event accepts current e) _ h in
      let (tail, count, mine) = fold_events-IsHistory (some t) es run_id later own in
      let (next, stamp, kept, before) = apply_run_event-stamp current e now in
      let own_event : e.run_id ≡ run_id = sym kept ∙ mine in
      (
        (own_event, next, subst (λ k. IsHistory run_id k es) (omega arith) tail),
        omega arith,
        subst (λ r. IsRunOf r current) own_event before,
      )

  -- A history that replays carries one run identity and the sequences 1, 2, …, and its state has the
  -- sequence of the last event.
  pub replay_run-IsHistory :
      (es : List RunEvent) {s : RunState}
      → replay_run accepts es ≡ ok s
      → IsHistory s.run_id 1 es × (s.sequence ≡ length es)
  unfolding replay_run
  replay_run-IsHistory es {s} h =
      let (end, folded, e) = >>=-eq-ok (fold_events accepts none es) _ h in
      let same : end ≡ some s = ground arith in
      let (numbered, count, _) =
        fold_events-IsHistory none es s.run_id (folded ∙ ap ok same) refl in
      (numbered, omega arith)

  -- Folding a history in two parts folds the second part into the state of the first, so that a
  -- state kept for a prefix and the tail behind it give what a full replay gives.
  pub fold_events-append :
      (current : Option RunState) (es fs : List RunEvent)
      → fold_events accepts current (es ++ fs)
        ≡ (fold_events accepts current es >>= λ middle. fold_events accepts middle fs)
  unfolding fold_events
  fold_events-append current [] fs = refl
  fold_events-append current (e ∷ es) fs = elim (Result-cases (apply_run_event accepts current e)) [
    | inl (s, now) ↦ rw now (fold_events-append (some s) es fs)
    | inr (x, now) ↦ rw now
  ]

  pub fold_events-replay :
      (es : List RunEvent) {s : RunState}
      → replay_run accepts es ≡ ok s
      → fold_events accepts none es ≡ ok (some s)
  unfolding replay_run
  fold_events-replay es {s} h =
      let (end, folded, e) = >>=-eq-ok (fold_events accepts none es) _ h in
      let same : end ≡ some s = ground arith in folded ∙ ap ok same

  -- Events that `materializeEvents` makes fold back into the state that it returns; they carry the
  -- run's identity, the given payloads and the sequences that follow the current one.
  pub materialize_from-fold :
      (current : Option RunState) (run_id : String) (ps : List RunEventPayload) {es : List RunEvent}
      {end : Option RunState}
      → materialize_from accepts current run_id ps ≡ ok (es, end)
      → (fold_events accepts current es ≡ ok end) × (map (λ e. e.payload) es ≡ ps)
  unfolding materialize_from fold_events
  materialize_from-fold current run_id [] h = (ground arith, ground arith)
  materialize_from-fold current run_id (p ∷ ps) {es} {end} h =
      let e : RunEvent = record {
        payload = p;
        run_id = run_id;
        sequence = next_sequence current;
      } in
      let (s, now, later) = >>=-eq-ok (apply_run_event accepts current e) _ h in
      let (rest, made, last) = >>=-eq-ok (materialize_from accepts (some s) run_id ps) _ later in
      let (folds, payloads) =
        materialize_from-fold (some s) run_id ps {es = rest.0} {end = rest.1} made in
      let split : es ≡ e ∷ rest.0 = ground arith in
      let ends : end ≡ rest.1 = ground arith in
      (rw (split, ends) (rw now folds), rw split (ap (◌∷◌ p) payloads))

  -- What `materializeEvents` makes from nothing replays to the state that it returns.
  pub materialize_events-replay :
      (run_id : String) (ps : List RunEventPayload) {es : List RunEvent} {s : RunState}
      → materialize_events accepts none run_id ps ≡ ok (es, s)
      → (replay_run accepts es ≡ ok s) × (map (λ e. e.payload) es ≡ ps)
  unfolding materialize_events replay_run
  materialize_events-replay run_id ps {es} {s} h =
      let (made, now, last) = >>=-eq-ok (materialize_from accepts none run_id ps) _ h in
      let ends : made.1 ≡ some s = ground arith in
      let same : made.0 ≡ es = ground arith in
      let (folds, payloads) =
        materialize_from-fold none run_id ps {es = es} {end = some s}
          (now ∙ ap₂ (λ a b. ok (a, b)) same ends) in
      (rw folds, payloads)
