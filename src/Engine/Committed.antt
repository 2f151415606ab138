-- ===== src/Engine/Committed.antt =====
-- What a commit that returned did to the state (packages/engine/src/engine.ts, `commit`).
use anastom.Prelude.{
  String, Bool, ◌≡◌, ◌∙◌, refl, ap, subst, List, [], ◌∷◌, ◌++◌, none, some, Result, ok, err,
  >>=-eq-ok, guard-eq-ok, lookup, lookup-insert, arith, text_equality, eq_iff,
}
use anastom.Run.State.{NodeRunState, NodeStatus, RunState, RunStatus}
use anastom.Run.Event.{
  ReadyReason, RunEvent, RunEventPayload, RunOutcome, lifecycle, node, node_ready, node_succeeded,
  run_blocked, run_cancelled, run_completed,
}
use anastom.Run.Guards.{TransitionError, put_node}
use anastom.Run.Inversion.{at_node-eq-ok}
use anastom.Run.Nodes.{apply_node_event, node_step}
use anastom.Run.Lifecycle.{apply_lifecycle_event}
use anastom.Run.Reducer.{
  apply_run_event, dispatch, materialize_events, materialize_from, next_sequence, continue_run,
}
use anastom.Run.History.{continue_run-eq-ok}
use anastom.Run.Extension.{Extends, Extends-refl, fold_events-Extends}
use anastom.Workflow.Selection.{HasStatus}
use anastom.Engine.Persistence.{ConflictError, PersistedRuns, append}
use anastom.Engine.Actions.{
  Action, EngineError, Progress, ◌>>=◌, assign_state, commit, commit_next, get_state, run_after,
  store_transition, stored,
}
use anastom.Engine.Keeping.{materialize_events-fold}

-- The parts of a sequence of statements that returned.
run_after-eq-ok :
    {A B : Type 0} (next : A → Action B) (r : Progress × Result EngineError A) {q : Progress}
    {b : B}
    → run_after next r ≡ (q, ok b)
    → (a : A) × (m : Progress) × (r ≡ (m, ok a)) × (next a m ≡ (q, ok b))
run_after-eq-ok next (m, err e) h = absurd (ground (arith, ap (λ x. x.1) h))
run_after-eq-ok next (m, ok a) h = (a, m, refl, h)

pub >>=-returns :
    {A B : Type 0} (action : Action A) (next : A → Action B) (q : Progress) {q' : Progress} {b : B}
    → (action >>= next) q ≡ (q', ok b)
    → (a : A) × (m : Progress) × (action q ≡ (m, ok a)) × (next a m ≡ (q', ok b))
unfolding ◌>>=◌
>>=-returns action next q h = run_after-eq-ok next (action q) h

pub get_state-returns :
    {B : Type 0} (next : RunState → Action B) (q : Progress) {r : Progress × Result EngineError B}
    → (get_state >>= next) q ≡ r
    → next q.state q ≡ r
unfolding ◌>>=◌
get_state-returns next q h = h

-- The state behind the last of several payloads is what the reducer makes of it.
abbrev pub LastStep : RunEventPayload → RunState → Type 0
LastStep p s' = (t : RunState) × (dispatch t p ≡ ok s')

module _ (accepts : RunEvent → Bool) where
  applied :
      (s : RunState) (e : RunEvent) {t : RunState}
      → apply_run_event accepts (some s) e ≡ ok t
      → LastStep e.payload t
  unfolding apply_run_event
  applied s e h =
      let (_, _, _, moved) = continue_run-eq-ok s e (guard-eq-ok _ _ (λ _. continue_run s e) h).1 in
      (record s { sequence = e.sequence }, moved)

  materialize_from-LastStep :
      (s : RunState) (run_id : String) (ps : List RunEventPayload) (p : RunEventPayload)
      {es : List RunEvent} {s' : RunState}
      → materialize_from accepts (some s) run_id (ps ++ p ∷ []) ≡ ok (es, some s')
      → LastStep p s'
  unfolding materialize_from
  materialize_from-LastStep s run_id [] p {es} {s'} h =
      let e : RunEvent = record {
        payload = p;
        run_id = run_id;
        sequence = next_sequence (some s);
      } in
      let (t, now, later) = >>=-eq-ok (apply_run_event accepts (some s) e) _ h in
      let same : t ≡ s' = ground arith in subst (LastStep p) same (applied s e now)
  materialize_from-LastStep s run_id (x ∷ ps) p {es} {s'} h =
      let e : RunEvent = record {
        payload = x;
        run_id = run_id;
        sequence = next_sequence (some s);
      } in
      let (t, now, later) = >>=-eq-ok (apply_run_event accepts (some s) e) _ h in
      let (rest, made, last) =
        >>=-eq-ok (materialize_from accepts (some t) run_id (ps ++ p ∷ [])) _ later in
      let ends : rest.1 ≡ some s' = ground arith in
      materialize_from-LastStep t run_id ps p {es = rest.0} {s' = s'}
        (made ∙ ap (λ o. ok (rest.0, o)) ends)

  materialize_events-LastStep :
      (s : RunState) (run_id : String) (ps : List RunEventPayload) (p : RunEventPayload)
      {es : List RunEvent} {s' : RunState}
      → materialize_events accepts (some s) run_id (ps ++ p ∷ []) ≡ ok (es, s')
      → LastStep p s'
  unfolding materialize_events
  materialize_events-LastStep s run_id ps p {es} {s'} h =
      let (made, now, last) =
        >>=-eq-ok (materialize_from accepts (some s) run_id (ps ++ p ∷ [])) _ h in
      let ends : made.1 ≡ some s' = ground arith in
      materialize_from-LastStep s run_id ps p {es = made.0} {s' = s'}
        (now ∙ ap (λ o. ok (made.0, o)) ends)

  stored-eq-ok :
      (s : RunState) (r : Result ConflictError PersistedRuns) (runs : PersistedRuns)
      {later : PersistedRuns} {s' : RunState}
      → stored accepts s r runs ≡ (later, ok s')
      → s ≡ s'
  stored-eq-ok s (err e) runs h = absurd (ground (arith, ap (λ x. x.1) h))
  stored-eq-ok s (ok next) runs h = ground (arith, ap (λ x. x.1) h)

  store_transition-eq-ok :
      (runs : PersistedRuns) (run_id : String) (s : RunState)
      (m : Result TransitionError (List RunEvent × RunState)) {later : PersistedRuns}
      {s' : RunState}
      → store_transition accepts runs run_id s m ≡ (later, ok s')
      → (es : List RunEvent) × (m ≡ ok (es, s'))
  store_transition-eq-ok runs run_id s (err e) h = absurd (ground (arith, ap (λ x. x.1) h))
  store_transition-eq-ok runs run_id s (ok (es, t)) {later} {s'} h =
      let same : t ≡ s' =
        stored-eq-ok t (append runs run_id s.sequence es) runs {later = later} {s' = s'} h in
      (es, ap (λ u. ok (es, u)) same)

  commit-LastStep :
      (runs : PersistedRuns) (run_id : String) (s : RunState) (ps : List RunEventPayload)
      (p : RunEventPayload) {later : PersistedRuns} {s' : RunState}
      → commit accepts runs run_id s (ps ++ p ∷ []) ≡ (later, ok s')
      → LastStep p s'
  unfolding commit
  commit-LastStep runs run_id s [] p {later} {s'} h =
      let (es, made) = store_transition-eq-ok runs run_id s _ {later = later} {s' = s'} h in
      materialize_events-LastStep s run_id [] p {es = es} {s' = s'} made
  commit-LastStep runs run_id s (x ∷ ps) p {later} {s'} h =
      let (es, made) = store_transition-eq-ok runs run_id s _ {later = later} {s' = s'} h in
      materialize_events-LastStep s run_id (x ∷ ps) p {es = es} {s' = s'} made

  commit-Extends :
      (runs : PersistedRuns) (run_id : String) (s : RunState) (ps : List RunEventPayload)
      {later : PersistedRuns} {s' : RunState}
      → commit accepts runs run_id s ps ≡ (later, ok s')
      → Extends s s'
  unfolding commit
  commit-Extends runs run_id s [] {later} {s'} h =
      let same : s ≡ s' = ground (arith, ap (λ x. x.1) h) in subst (Extends s) same (Extends-refl s)
  commit-Extends runs run_id s (x ∷ ps) {later} {s'} h =
      let (es, made) = store_transition-eq-ok runs run_id s _ {later = later} {s' = s'} h in
      fold_events-Extends accepts s es (materialize_events-fold accepts s run_id (x ∷ ps) made)

  assign_state-eq-ok :
      (q : Progress) (r : PersistedRuns × Result EngineError RunState) {q' : Progress}
      → assign_state accepts q r ≡ (q', ok tt)
      → r ≡ (q'.runs, ok q'.state)
  assign_state-eq-ok q (runs, err e) h = absurd (ground (arith, ap (λ x. x.1) h))
  assign_state-eq-ok q (runs, ok s) {q'} h = ap (λ x. (x.0.runs, ok x.0.state)) h

  pub commit_next-LastStep :
      (run_id : String) (ps : List RunEventPayload) (p : RunEventPayload) (q : Progress)
      {q' : Progress}
      → commit_next accepts run_id (ps ++ p ∷ []) q ≡ (q', ok tt)
      → LastStep p q'.state
  unfolding commit_next
  commit_next-LastStep run_id ps p q {q'} h =
      commit-LastStep q.runs run_id q.state ps p {later = q'.runs} {s' = q'.state}
        (assign_state-eq-ok q (commit accepts q.runs run_id q.state (ps ++ p ∷ [])) {q' = q'} h)

  pub commit_next-Extends :
      (run_id : String) (ps : List RunEventPayload) (q : Progress) {q' : Progress}
      → commit_next accepts run_id ps q ≡ (q', ok tt)
      → Extends q.state q'.state
  unfolding commit_next
  commit_next-Extends run_id ps q {q'} h =
      commit-Extends q.runs run_id q.state ps {later = q'.runs} {s' = q'.state}
        (assign_state-eq-ok q (commit accepts q.runs run_id q.state ps) {q' = q'} h)

-- What the last events of the engine's batches leave.
pub run_blocked_lem :
    (reason : String) (s' : RunState)
    → LastStep (lifecycle (run_blocked reason)) s'
    → s'.status ≡ RunStatus.blocked
unfolding dispatch apply_lifecycle_event
run_blocked_lem reason s' (t, h) = ground arith

pub run_cancelled_lem :
    (reason : String) (s' : RunState)
    → LastStep (lifecycle (run_cancelled none reason)) s'
    → s'.status ≡ RunStatus.cancelled
unfolding dispatch apply_lifecycle_event
run_cancelled_lem reason s' (t, h) = ground arith

pub run_failed_lem :
    (s' : RunState)
    → LastStep (lifecycle (run_completed RunOutcome.failed)) s'
    → s'.status ≡ RunStatus.failed
unfolding dispatch apply_lifecycle_event
run_failed_lem s' (t, h) = ground arith

written_status :
    (s s' : RunState) (i : String) (n : NodeRunState)
    → s' ≡ put_node s i n
    → HasStatus s' n.status i
written_status s s' i n written = (
  n,
  ap (λ (t : RunState). lookup i t.nodes) written
      ∙ ground (arith, eq_iff i i, lookup-insert i i n s.nodes),
  refl,
)

pub node_ready_lem :
    (i : String) (s' : RunState)
    → LastStep (node (record { node_id = i; change = node_ready ReadyReason.retry })) s'
    → HasStatus s' NodeStatus.ready i
unfolding dispatch apply_node_event node_step
node_ready_lem i s' (t, h) =
    let (n, n', found, changed, written) =
      at_node-eq-ok t i (node_step (node_ready ReadyReason.retry)) h in
    let ready : n'.status ≡ NodeStatus.ready = ground arith in
    subst (λ status. HasStatus s' status i) ready (written_status t s' i n' written)

pub node_succeeded_lem :
    (i : String) (s' : RunState)
    → LastStep (node (record { node_id = i; change = node_succeeded })) s'
    → HasStatus s' NodeStatus.succeeded i
unfolding dispatch apply_node_event node_step
node_succeeded_lem i s' (t, h) =
    let (n, n', found, changed, written) = at_node-eq-ok t i (node_step node_succeeded) h in
    let over : n'.status ≡ NodeStatus.succeeded = ground arith in
    subst (λ status. HasStatus s' status i) over (written_status t s' i n' written)
