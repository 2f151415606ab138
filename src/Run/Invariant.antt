-- ===== src/Run/Invariant.antt =====
-- The invariant of a whole run, kept by every event that the reducer of
-- packages/engine/src/events.ts accepts.
use anastom.Prelude.{
  String, Bool, false, ◌≡◌, refl, subst, List, [], ◌∷◌, Option, none, some, ok, All,
  All-values-insert, values, insert, arith, ok-injective, guard-eq-ok, >>=-eq-ok, Dict,
}
use anastom.Contract.{RuntimeDescriptor}
use anastom.Run.State.{NodeRunState, RunState}
use anastom.Run.Event.{RunEvent, RunEventPayload, run_created, Creation}
use anastom.Run.Reducer.{
  add_nodes, fresh_node, initial_state, create_from, create_run, dispatch, is_terminal,
  continue_run, apply_run_event, fold_events, replay_run,
}
use anastom.Run.Wellformed.{NodeValid}
use anastom.Run.Validity.{RunValid, same_parts-RunValid}
use anastom.Run.Preservation.{dispatch-RunValid}

add_nodes-valid :
    (d : Option RuntimeDescriptor) (m : Dict NodeRunState) (ids : List String)
    → All (NodeValid d) (values m)
    → All (NodeValid d) (values (add_nodes m ids))
add_nodes-valid d m [] v = v
add_nodes-valid d m (i ∷ ids) v = add_nodes-valid d (insert i (fresh_node i) m) ids (
    All-values-insert (NodeValid d) i (fresh_node i) m v
      (record { numbered = tt; settled = tt; each = tt; agreed = refl }))

initial_state-RunValid : (run_id : String) (c : Creation) → RunValid (initial_state run_id c)
initial_state-RunValid run_id c = record {
  nodes_valid = add_nodes-valid none [] c.node_ids tt;
  shown = refl;
  cleared = refl;
}

create_from-RunValid :
    (e : RunEvent) (p : RunEventPayload) {s : RunState} → create_from e p ≡ ok s → RunValid s
unfolding create_from
create_from-RunValid e (run_created c) h =
    subst RunValid (ok-injective (guard-eq-ok _ _ (λ _. ok (initial_state e.run_id c)) h).1)
      (initial_state-RunValid e.run_id c)
create_from-RunValid e _ h = cc

continue_run-RunValid :
    (s : RunState) (e : RunEvent) {s' : RunState}
    → continue_run s e ≡ ok s'
    → RunValid s
    → RunValid s'
unfolding continue_run
continue_run-RunValid s e {s'} h v =
    let live : is_terminal s.status ≡ false = ground arith in
    let moved : dispatch (record s { sequence = e.sequence }) e.payload ≡ ok s' = ground arith in
    dispatch-RunValid (record s { sequence = e.sequence }) e.payload live moved
      (same_parts-RunValid s (record s { sequence = e.sequence }) refl refl v.shown v.cleared v)

-- What holds of the state before an event, if there is one.
abbrev pub IsValid : Option RunState → Type 0
IsValid none = Unit {0}
IsValid (some s) = RunValid s

module _ (accepts : RunEvent → Bool) where
  -- One event on a state with the invariant, or the first event.
  pub apply_run_event-RunValid :
      (current : Option RunState) (e : RunEvent) {s : RunState}
      → apply_run_event accepts current e ≡ ok s
      → IsValid current
      → RunValid s
  unfolding apply_run_event
  apply_run_event-RunValid none e h v =
      create_from-RunValid e e.payload (guard-eq-ok _ _ (λ _. create_run e) h).1
  apply_run_event-RunValid (some s) e h v =
      continue_run-RunValid s e (guard-eq-ok _ _ (λ _. continue_run s e) h).1 v

  fold_events-IsValid :
      (current : Option RunState) (es : List RunEvent) {end : Option RunState}
      → fold_events accepts current es ≡ ok end
      → IsValid current
      → IsValid end
  unfolding fold_events
  fold_events-IsValid current [] h v = subst IsValid (ok-injective h) v
  fold_events-IsValid current (e ∷ es) h v =
      let (s, now, later) = >>=-eq-ok (apply_run_event accepts current e) _ h in
      fold_events-IsValid (some s) es later (apply_run_event-RunValid current e now v)

  -- Every history that replays, whatever the event validators accept, replays to a state that
  -- satisfies the invariant: attempts are numbered from 1, at most the last attempt of a node is
  -- running and the node's status agrees with it, each attempt's execution, timeout and
  -- authorization evidence is consistent, a succeeded run has only succeeded nodes and a failed run
  -- a failed one, and a run that is not paused, cancelled or blocked in recovery keeps no pause or
  -- recovery reason.
  pub replay_run-RunValid :
      (es : List RunEvent) {s : RunState} → replay_run accepts es ≡ ok s → RunValid s
  unfolding replay_run
  replay_run-RunValid es {s} h =
      let (end, folded, e) = >>=-eq-ok (fold_events accepts none es) _ h in
      let same : end ≡ some s = ground arith in
      subst IsValid same (fold_events-IsValid none es folded tt)
