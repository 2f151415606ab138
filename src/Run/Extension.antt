-- ===== src/Run/Extension.antt =====
-- What a longer history keeps of a shorter one (packages/engine/src/events.ts).
use anastom.Prelude.{
  ℕ, String, Bool, true, false, ◌≡◌, ◌∙◌, refl, sym, ap, subst, List, [], ◌∷◌, ◌++◌, none, some, ok,
  err, inl, inr, ◌>>=◌, guard-eq-ok, >>=-eq-ok, Result-cases, lookup, keys, arith,
}
use anastom.Run.State.{NodeRunState, NodeStatus, RunState}
use anastom.Run.Event.{RunEvent}
use anastom.Run.Guards.{TransitionError}
use anastom.Run.Reducer.{apply_run_event, continue_run, fold_events, is_terminal, replay_run}
use anastom.Run.Frame.{SameRun, dispatch-SameRun}
use anastom.Run.Continuity.{Carries, Carries-refl, Carries-trans}
use anastom.Run.Graph.{Moves, may_move}
use anastom.Run.RunGraph.{NodesMove, dispatch-RunMoves}
use anastom.Run.History.{continue_run-eq-ok, fold_events-append, fold_events-replay}

abbrev pub is_final : NodeStatus → Bool
is_final NodeStatus.succeeded = true
is_final NodeStatus.failed = true
is_final NodeStatus.cancelled = true
is_final _ = false

final_stays : (a b : NodeStatus) → is_final a ≡ true → may_move a b ≡ true → b ≡ a
final_stays NodeStatus.succeeded b f m = ground arith
final_stays NodeStatus.failed b f m = ground arith
final_stays NodeStatus.cancelled b f m = ground arith
final_stays _ b f m = cc

-- A node keeps its attempts, of which the last may go on, and its status once that is final.
pub record Outlives (n n' : NodeRunState) : Type 0 where
  pub attempts_kept : Carries n.attempts n'.attempts
  pub final_kept : is_final n.status ≡ true → n'.status ≡ n.status

Moves-Outlives : (m n n' : NodeRunState) → Moves m n → Outlives n n' → Outlives m n'
Moves-Outlives m n n' v o = record {
  attempts_kept = Carries-trans m.attempts n.attempts n'.attempts v.carried o.attempts_kept;
  final_kept = λ f.
      let e : n.status ≡ m.status = final_stays m.status n.status f v.along in
      o.final_kept (rw e f) ∙ e;
}

-- The run keeps its identity, its workflow, its inputs and its nodes.
pub record Extends (s s' : RunState) : Type 0 where
  pub run_kept : s'.run_id ≡ s.run_id
  pub instance_kept : s'.workflow_instance_id ≡ s.workflow_instance_id
  pub workflow_kept : s'.workflow_id ≡ s.workflow_id
  pub version_kept : s'.workflow_version ≡ s.workflow_version
  pub inputs_kept : s'.inputs ≡ s.inputs
  pub keys_kept : keys s'.nodes ≡ keys s.nodes
  pub nodes_outlive :
      (i : String) (n : NodeRunState)
      → lookup i s.nodes ≡ some n
      → (n' : NodeRunState) × (lookup i s'.nodes ≡ some n') × Outlives n n'

pub Extends-refl : (s : RunState) → Extends s s
Extends-refl s = record {
  run_kept = refl;
  instance_kept = refl;
  workflow_kept = refl;
  version_kept = refl;
  inputs_kept = refl;
  keys_kept = refl;
  nodes_outlive = λ i n found.
      (n, found, record { attempts_kept = Carries-refl n.attempts; final_kept = λ f. refl });
}

step-Extends :
    (s : RunState) (k : ℕ) (t u : RunState)
    → SameRun (record s { sequence = k }) t
    → NodesMove s t
    → Extends t u
    → Extends s u
step-Extends s k t u same moves x = record {
  run_kept = x.run_kept ∙ same.run_kept;
  instance_kept = x.instance_kept ∙ same.instance_kept;
  workflow_kept = x.workflow_kept ∙ same.workflow_kept;
  version_kept = x.version_kept ∙ same.version_kept;
  inputs_kept = x.inputs_kept ∙ same.inputs_kept;
  keys_kept = x.keys_kept ∙ same.nodes_kept;
  nodes_outlive = λ i n found.
      let (m, here, along) = moves i n found in
      let (n', there, outlives) = x.nodes_outlive i m here in
      (n', there, Moves-Outlives n m n' along outlives);
}

module _ (accepts : RunEvent → Bool) where
  continued :
      (s : RunState) (e : RunEvent) {t : RunState}
      → apply_run_event accepts (some s) e ≡ ok t
      → continue_run s e ≡ ok t
  unfolding apply_run_event
  continued s e h = (guard-eq-ok _ _ (λ _. continue_run s e) h).1

  pub fold_events-Extends :
      (s : RunState) (es : List RunEvent) {s' : RunState}
      → fold_events accepts (some s) es ≡ ok (some s')
      → Extends s s'
  unfolding fold_events
  fold_events-Extends s [] {s'} h =
      let e : s ≡ s' = ground arith in subst (Extends s) e (Extends-refl s)
  fold_events-Extends s (e ∷ es) {s'} h =
      let (t, now, later) = >>=-eq-ok (apply_run_event accepts (some s) e) _ h in
      let (_, _, _, moved) = continue_run-eq-ok s e (continued s e now) in
      step-Extends s e.sequence t s' (dispatch-SameRun _ e.payload moved)
        (dispatch-RunMoves _ e.payload moved).nodes_move (fold_events-Extends t es later)

  -- A longer history keeps the run's identity, its workflow, its inputs and exactly its nodes. A node
  -- keeps its attempts in their places, each but the last unchanged; the last keeps its number,
  -- runtime and usage, its plan and checkpoint once it was prepared, its execution once it was
  -- launched, and its status, failure, orphan evidence and identities once it has ended. A node
  -- that has succeeded, failed or been cancelled keeps its status.
  pub replay_run-Extends :
      (es fs : List RunEvent) {s s' : RunState}
      → replay_run accepts es ≡ ok s
      → replay_run accepts (es ++ fs) ≡ ok s'
      → Extends s s'
  replay_run-Extends es fs {s} {s'} h k = fold_events-Extends s fs (
      sym
        (ap (λ r. r >>= λ middle. fold_events accepts middle fs) (fold_events-replay accepts es h))
      ∙ sym (fold_events-append accepts none es fs)
      ∙ fold_events-replay accepts (es ++ fs) k)

  -- No history goes on behind a state whose run has succeeded, failed or been cancelled: it does not
  -- replay, whatever the further events are.
  pub replay_run_terminal :
      (es : List RunEvent) (e : RunEvent) (fs : List RunEvent) {s : RunState}
      → replay_run accepts es ≡ ok s
      → is_terminal s.status ≡ true
      → (x : TransitionError) × (replay_run accepts (es ++ e ∷ fs) ≡ err x)
  unfolding replay_run fold_events
  replay_run_terminal es e fs {s} h over =
      elim (Result-cases (apply_run_event accepts (some s) e)) [
        | inl (t, now) ↦
            let (_, _, live, _) = continue_run-eq-ok s e (continued s e now) in absurd (cc)
        | inr (x, now) ↦ (
          x,
          rw (fold_events-append accepts none es (e ∷ fs), fold_events-replay accepts es h, now),
        )
      ]
