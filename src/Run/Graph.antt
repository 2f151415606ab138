-- ===== src/Run/Graph.antt =====
-- The abstract state machines that the reducer of packages/engine/src/events.ts refines: which
-- status of a node, and of a run, may follow which.
use anastom.Prelude.{
  ℕ, String, Bool, true, false, ◌≡◌, refl, sym, subst, none, some, ok, get_last?, set_last, ◌++◌,
  [], ◌∷◌, Option-cases, arith, inl, inr, text_equality,
}
use anastom.Run.State.{AttemptState, AttemptStatus, NodeRunState, NodeStatus, RunState}
use anastom.Run.Event.{
  NodeChange, ReadyReason, node_ready, node_succeeded, node_failed, node_blocked, node_paused,
  node_cancelled, TimeoutEvent, attempt_timeout_requested, attempt_cancellation_completed,
  late_result_observed, AttemptChange, attempt_scheduled, attempt_prepared,
  attempt_start_authorized, attempt_started, runtime_event_observed, attempt_succeeded,
  attempt_failed, attempt_blocked, attempt_cancelled, attempt_orphaned, CleanupObservation,
}
use anastom.Contract
use anastom.Contract.{CommandReport}
use anastom.Run.Continuity.{
  Carries, Carries-append, Carries-refl, Carries-set_last, Continues, Continues-refl,
}
use anastom.Run.Observations.{set_command, timeout_step, cleanup_step, pushed_cleanup}
use anastom.Run.Attempts.{attempt_step, new_attempt, identities, orphan_of}
use anastom.Run.Nodes.{node_step}
use anastom.Run.Wellformed.Nodes.{cancelled_timeout, late_timeout}

-- The edges of the node's state machine, each status with itself included.
abbrev pub may_move : NodeStatus → NodeStatus → Bool
may_move NodeStatus.pending NodeStatus.running = false
may_move NodeStatus.pending NodeStatus.succeeded = false
may_move NodeStatus.pending NodeStatus.failed = false
may_move NodeStatus.pending _ = true
may_move NodeStatus.ready NodeStatus.pending = false
may_move NodeStatus.ready NodeStatus.succeeded = false
may_move NodeStatus.ready NodeStatus.failed = false
may_move NodeStatus.ready _ = true
may_move NodeStatus.running NodeStatus.pending = false
may_move NodeStatus.running _ = true
may_move NodeStatus.blocked NodeStatus.blocked = true
may_move NodeStatus.blocked NodeStatus.cancelled = true
may_move NodeStatus.paused NodeStatus.paused = true
may_move NodeStatus.paused NodeStatus.ready = true
may_move NodeStatus.paused NodeStatus.cancelled = true
may_move NodeStatus.succeeded NodeStatus.succeeded = true
may_move NodeStatus.failed NodeStatus.failed = true
may_move NodeStatus.cancelled NodeStatus.cancelled = true
may_move _ _ = false

-- A node moves along an edge; its attempts stay, where the last of them may go on.
pub record Moves (n n' : NodeRunState) : Type 0 where
  pub along : may_move n.status n'.status ≡ true
  pub carried : Carries n.attempts n'.attempts

pub Moves-refl : (n : NodeRunState) → Moves n n
Moves-refl n = record { along = stays n.status; carried = Carries-refl n.attempts }
  where
    stays : (st : NodeStatus) → may_move st st ≡ true
    stays NodeStatus.pending = refl
    stays _ = refl

same_attempts-Moves :
    (n n' : NodeRunState)
    → n'.attempts ≡ n.attempts
    → may_move n.status n'.status ≡ true
    → Moves n n'
same_attempts-Moves n n' e m = record {
  along = m;
  carried = subst (Carries n.attempts) (sym e) (Carries-refl n.attempts);
}

pub node_step-Moves :
    (c : NodeChange) (n : NodeRunState) {n' : NodeRunState} → node_step c n ≡ ok n' → Moves n n'
unfolding node_step
node_step-Moves (node_ready ReadyReason.retry) n {n'} h =
    same_attempts-Moves n n' (ground arith) (ground arith)
node_step-Moves (node_ready ReadyReason.resumed) n {n'} h =
    same_attempts-Moves n n' (ground arith) (ground arith)
node_step-Moves (node_ready ReadyReason.recovered) n {n'} h =
    same_attempts-Moves n n' (ground arith) (ground arith)
node_step-Moves (node_ready ReadyReason.dependencies_satisfied) n {n'} h =
    same_attempts-Moves n n' (ground arith) (ground arith)
node_step-Moves node_succeeded n {n'} h = same_attempts-Moves n n' (ground arith) (ground arith)
node_step-Moves (node_failed failure) n {n'} h =
    same_attempts-Moves n n' (ground arith) (ground arith)
node_step-Moves (node_blocked reason) n {n'} h =
    same_attempts-Moves n n' (ground arith) (ground arith)
node_step-Moves (node_paused none) n {n'} h = same_attempts-Moves n n' (ground arith) (ground arith)
node_step-Moves (node_paused (some reason)) n {n'} h =
    same_attempts-Moves n n' (ground arith) (ground arith)
node_step-Moves (node_cancelled reason) n {n'} h =
    same_attempts-Moves n n' (ground arith) (ground arith)

pub set_command-Moves :
    (number : ℕ) (output : CommandReport) (n : NodeRunState) {n' : NodeRunState}
    → set_command number output n ≡ ok n'
    → Moves n n'
unfolding set_command
set_command-Moves number output n {n'} h = same_attempts-Moves n n' (ground arith) (ground arith)

-- The last attempt is rewritten in place.
rewritten-Moves :
    (n n' : NodeRunState) (f : AttemptState → AttemptState)
    → (get_last? n.attempts ≡ none → ⊥)
    → ((a : AttemptState)
        → get_last? n.attempts ≡ some a
        → (n'.attempts ≡ set_last n.attempts (f a))
          × (may_move n.status n'.status ≡ true)
          × Continues a (f a))
    → Moves n n'
rewritten-Moves n n' f refused step = elim (Option-cases (get_last? n.attempts)) [
  | inl e ↦ absurd (refused e)
  | inr (a, e) ↦
      let (w, m, on) = step a e in
      record {
        along = m;
        carried = subst (Carries n.attempts) (sym w) (Carries-set_last n.attempts (f a) e on);
      }
]

pub timeout_step-Moves :
    (e : TimeoutEvent) (n : NodeRunState) {n' : NodeRunState}
    → timeout_step e n ≡ ok n'
    → Moves n n'
unfolding timeout_step
timeout_step-Moves (attempt_timeout_requested _ number) n {n'} h =
    rewritten-Moves n n'
      (λ a. record a { timeout = some (record { cancellation = none; late_status = none }) })
      (λ e. ground arith) (λ a e. (ground arith, ground arith, ground arith))
timeout_step-Moves (attempt_cancellation_completed _ number outcome) n {n'} h =
    rewritten-Moves n n' (λ a. record a { timeout = cancelled_timeout outcome a.timeout })
      (λ e. ground arith)
      (λ a e. (ground arith, ground (arith, Moves-refl n), ground (arith, Continues-refl a)))
timeout_step-Moves (late_result_observed _ number status) n {n'} h =
    rewritten-Moves n n' (λ a. record a { timeout = late_timeout status a.timeout })
      (λ e. ground arith)
      (λ a e. (ground arith, ground (arith, Moves-refl n), ground (arith, Continues-refl a)))

pub cleanup_step-Moves :
    (c : CleanupObservation) (n : NodeRunState) {n' : NodeRunState}
    → cleanup_step c n ≡ ok n'
    → Moves n n'
unfolding cleanup_step
cleanup_step-Moves c n {n'} h =
    rewritten-Moves n n' (λ a. record a { cleanup = some (pushed_cleanup c a) }) (λ e. ground arith)
      (λ a e. (ground arith, ground (arith, Moves-refl n), ground (arith, Continues-refl a)))

pub attempt_step-Moves :
    (s : RunState) (node_id : String) (c : AttemptChange) (n : NodeRunState) {n' : NodeRunState}
    → attempt_step s node_id c n ≡ ok n'
    → Moves n n'
unfolding attempt_step
attempt_step-Moves s node_id (attempt_scheduled number runtime_id) n {n'} h =
    let w : n'.attempts ≡ n.attempts ++ new_attempt number runtime_id ∷ [] = ground arith in
    record {
      along = ground arith;
      carried =
          subst (Carries n.attempts) (sym w)
            (Carries-append n.attempts (new_attempt number runtime_id ∷ []));
    }
attempt_step-Moves s node_id (attempt_prepared number execution checkpoint) n {n'} h =
    rewritten-Moves n n'
      (λ a. record a {
        status = AttemptStatus.prepared;
        execution_plan = some execution;
        workspace_checkpoint = some checkpoint;
      })
      (λ e. ground arith) (λ a e. (ground arith, ground arith, ground arith))
attempt_step-Moves s node_id (attempt_start_authorized number execution) n {n'} h =
    rewritten-Moves n n'
      (λ a. record a { status = AttemptStatus.running; execution = some execution })
      (λ e. ground arith) (λ a e. (ground arith, ground arith, ground arith))
attempt_step-Moves s node_id (attempt_started number) n {n'} h =
    rewritten-Moves n n' (λ a. record a { status = AttemptStatus.running }) (λ e. ground arith)
      (λ a e. (ground arith, ground arith, ground arith))
attempt_step-Moves s node_id (runtime_event_observed number (Contract.usage u)) n {n'} h =
    rewritten-Moves n n' (λ a. record a { usage = some u }) (λ e. ground arith)
      (λ a e. (ground arith, ground arith, ground arith))
attempt_step-Moves s node_id (runtime_event_observed number (Contract.metadata m)) n {n'} h =
    rewritten-Moves n n' (λ a. record a { identity = some (identities a m) }) (λ e. ground arith)
      (λ a e. (ground arith, ground arith, ground arith))
attempt_step-Moves s node_id (runtime_event_observed number _) n {n'} h =
    rewritten-Moves n n' (λ a. a) (λ e. ground arith)
      (λ a e. (ground arith, ground arith, Continues-refl a))
attempt_step-Moves s node_id (attempt_succeeded number output) n {n'} h =
    rewritten-Moves n n' (λ a. record a { status = AttemptStatus.succeeded }) (λ e. ground arith)
      (λ a e. (ground arith, ground arith, ground arith))
attempt_step-Moves s node_id (attempt_failed number failure) n {n'} h =
    rewritten-Moves n n' (λ a. record a { status = AttemptStatus.failed; failure = some failure })
      (λ e. ground arith) (λ a e. (ground arith, ground arith, ground arith))
attempt_step-Moves s node_id (attempt_blocked number reason) n {n'} h =
    rewritten-Moves n n' (λ a. record a { status = AttemptStatus.blocked }) (λ e. ground arith)
      (λ a e. (ground arith, ground arith, ground arith))
attempt_step-Moves s node_id (attempt_cancelled number reason) n {n'} h =
    rewritten-Moves n n' (λ a. record a { status = AttemptStatus.cancelled }) (λ e. ground arith)
      (λ a e. (ground arith, ground arith, ground arith))
attempt_step-Moves s node_id (attempt_orphaned o) n {n'} h =
    rewritten-Moves n n'
      (λ a. record a { status = AttemptStatus.orphaned; orphan = some (orphan_of o) })
      (λ e. ground arith) (λ a e. (ground arith, ground arith, ground arith))
