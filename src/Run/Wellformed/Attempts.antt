-- ===== src/Run/Wellformed/Attempts.antt =====
-- The transitions of an attempt keep its node well-formed.
use anastom.Prelude.{ℕ, String, ◌≡◌, subst, [], ◌∷◌, ◌++◌, Option, some, ok, number_equality, arith}
use anastom.Json.{JsonValue}
use anastom.Contract.{
  ExecutionFailure, ExecutionPlanRef, WorkspaceCheckpoint, RuntimeEvent, PersistedExecutionRef,
  RuntimeDescriptor,
}
use anastom.Contract
use anastom.Run.State.{AttemptStatus, NodeRunState, RunState}
use anastom.Run.Event.{
  AttemptChange, Orphaning, attempt_scheduled, attempt_prepared, attempt_start_authorized,
  attempt_started, runtime_event_observed, attempt_succeeded, attempt_failed, attempt_blocked,
  attempt_cancelled, attempt_orphaned,
}
use anastom.Run.Attempts.{
  attempt_step, authorize_step, prepare_step, orphan_step, orphan_of, new_attempt, identities,
}
use anastom.Run.Wellformed.{NodeValid, AttemptsValid, append-AttemptsValid, rewritten-NodeValid}

module _ {d : Option RuntimeDescriptor} (s : RunState) (node_id : String)
    (node : NodeRunState) where
  succeeded-NodeValid :
      (attempt : ℕ) (output : JsonValue) {node' : NodeRunState}
      → attempt_step s node_id (attempt_succeeded attempt output) node ≡ ok node'
      → NodeValid d node
      → NodeValid d node'
  unfolding attempt_step
  succeeded-NodeValid attempt output {node'} h =
      rewritten-NodeValid node node' (λ a. record a { status = AttemptStatus.succeeded })
        (λ e. ground arith) (λ a e p g. ground arith)

  failed-NodeValid :
      (attempt : ℕ) (failure : ExecutionFailure) {node' : NodeRunState}
      → attempt_step s node_id (attempt_failed attempt failure) node ≡ ok node'
      → NodeValid d node
      → NodeValid d node'
  unfolding attempt_step
  failed-NodeValid attempt failure {node'} h =
      rewritten-NodeValid node node'
        (λ a. record a { status = AttemptStatus.failed; failure = some failure })
        (λ e. ground arith) (λ a e p g. ground arith)

  blocked-NodeValid :
      (attempt : ℕ) (reason : String) {node' : NodeRunState}
      → attempt_step s node_id (attempt_blocked attempt reason) node ≡ ok node'
      → NodeValid d node
      → NodeValid d node'
  unfolding attempt_step
  blocked-NodeValid attempt reason {node'} h =
      rewritten-NodeValid node node' (λ a. record a { status = AttemptStatus.blocked })
        (λ e. ground arith) (λ a e p g. ground arith)

  cancelled-NodeValid :
      (attempt : ℕ) (reason : String) {node' : NodeRunState}
      → attempt_step s node_id (attempt_cancelled attempt reason) node ≡ ok node'
      → NodeValid d node
      → NodeValid d node'
  unfolding attempt_step
  cancelled-NodeValid attempt reason {node'} h =
      rewritten-NodeValid node node' (λ a. record a { status = AttemptStatus.cancelled })
        (λ e. ground arith) (λ a e p g. ground arith)

  started-NodeValid :
      (attempt : ℕ) {node' : NodeRunState}
      → s.runtime_descriptor ≡ d
      → attempt_step s node_id (attempt_started attempt) node ≡ ok node'
      → NodeValid d node
      → NodeValid d node'
  unfolding attempt_step
  started-NodeValid attempt {node'} c h =
      rewritten-NodeValid node node' (λ a. record a { status = AttemptStatus.running })
        (λ e. ground arith) (λ a e p g. ground arith)

  authorized-NodeValid :
      (attempt : ℕ) (execution : PersistedExecutionRef) {node' : NodeRunState}
      → authorize_step attempt execution node ≡ ok node'
      → NodeValid d node
      → NodeValid d node'
  unfolding authorize_step
  authorized-NodeValid attempt execution {node'} h =
      rewritten-NodeValid node node'
        (λ a. record a { status = AttemptStatus.running; execution = some execution })
        (λ e. ground arith) (λ a e p g. ground arith)

  prepared-NodeValid :
      (attempt : ℕ) (execution : ExecutionPlanRef) (checkpoint : WorkspaceCheckpoint)
      {node' : NodeRunState}
      → prepare_step s node_id attempt execution checkpoint node ≡ ok node'
      → NodeValid d node
      → NodeValid d node'
  unfolding prepare_step
  prepared-NodeValid attempt execution checkpoint {node'} h =
      rewritten-NodeValid node node'
        (λ a. record a {
          status = AttemptStatus.prepared;
          execution_plan = some execution;
          workspace_checkpoint = some checkpoint;
        })
        (λ e. ground arith) (λ a e p g. ground arith)

  orphaned-NodeValid :
      (o : Orphaning) {node' : NodeRunState}
      → orphan_step s node_id o node ≡ ok node'
      → NodeValid d node
      → NodeValid d node'
  unfolding orphan_step
  orphaned-NodeValid o {node'} h =
      rewritten-NodeValid node node'
        (λ a. record a { status = AttemptStatus.orphaned; orphan = some (orphan_of o) })
        (λ e. ground arith) (λ a e p g. ground arith)

  scheduled-NodeValid :
      (attempt : ℕ) (runtime_id : String) {node' : NodeRunState}
      → attempt_step s node_id (attempt_scheduled attempt runtime_id) node ≡ ok node'
      → NodeValid d node
      → NodeValid d node'
  unfolding attempt_step
  scheduled-NodeValid attempt runtime_id {node'} h v =
      let e : node.attempts ++ new_attempt attempt runtime_id ∷ [] ≡ node'.attempts =
        ground arith in
      subst (AttemptsValid d node'.status) e (
        append-AttemptsValid (new_attempt attempt runtime_id) v (ground arith) (ground arith)
          (ground arith) (ground arith))

  observed-NodeValid :
      (attempt : ℕ) (event : RuntimeEvent) {node' : NodeRunState}
      → attempt_step s node_id (runtime_event_observed attempt event) node ≡ ok node'
      → NodeValid d node
      → NodeValid d node'
  unfolding attempt_step
  observed-NodeValid attempt (Contract.usage u) {node'} h =
      rewritten-NodeValid node node' (λ a. record a { usage = some u }) (λ e. ground arith)
        (λ a e p g. ground arith)
  observed-NodeValid attempt (Contract.metadata m) {node'} h =
      rewritten-NodeValid node node' (λ a. record a { identity = some (identities a m) })
        (λ e. ground arith) (λ a e p g. ground arith)
  observed-NodeValid attempt _ {node'} h =
      rewritten-NodeValid node node' (λ a. a) (λ e. ground arith) (λ a e p g. ground arith)

  -- Every transition of an attempt keeps its node well-formed.
  pub attempt_step-NodeValid :
      (c : AttemptChange) {node' : NodeRunState}
      → s.runtime_descriptor ≡ d
      → attempt_step s node_id c node ≡ ok node'
      → NodeValid d node
      → NodeValid d node'
  unfolding attempt_step
  attempt_step-NodeValid (attempt_scheduled attempt runtime_id) e h =
      scheduled-NodeValid attempt runtime_id h
  attempt_step-NodeValid (attempt_prepared attempt execution checkpoint) e h =
      prepared-NodeValid attempt execution checkpoint h
  attempt_step-NodeValid (attempt_start_authorized attempt execution) e h =
      authorized-NodeValid attempt execution h
  attempt_step-NodeValid (attempt_started attempt) e h = started-NodeValid attempt e h
  attempt_step-NodeValid (runtime_event_observed attempt event) e h =
      observed-NodeValid attempt event h
  attempt_step-NodeValid (attempt_succeeded attempt output) e h =
      succeeded-NodeValid attempt output h
  attempt_step-NodeValid (attempt_failed attempt failure) e h = failed-NodeValid attempt failure h
  attempt_step-NodeValid (attempt_blocked attempt reason) e h = blocked-NodeValid attempt reason h
  attempt_step-NodeValid (attempt_cancelled attempt reason) e h =
      cancelled-NodeValid attempt reason h
  attempt_step-NodeValid (attempt_orphaned o) e h = orphaned-NodeValid o h
