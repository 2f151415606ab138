-- ===== src/Engine/Advancing.antt =====
-- A step of the engine keeps the stored history (packages/engine/src/engine.ts, `finishAttempt` and
-- `tick`).
use anastom.Prelude.{
  ℕ, String, Bool, true, false, ◌≡◌, refl, sym, List, Option, none, some, Result, ok, err, length,
  ◌+◌, arith, subst, if◌then◌else◌,
}
use anastom.Json.{JsonValue}
use anastom.Contract.{ExecutionFailure}
use anastom.Run.State.{NodeRunState, RunState, RunStatus}
use anastom.Run.Event.{RunEventPayload}
use anastom.Run.Lifecycle.{is_run_status}
use anastom.Workflow.Definition.{WorkflowDefinition, WorkflowNode}
use anastom.Workflow.Scheduler.{find_ready_nodes}
use anastom.Engine.Persistence.{PersistedRun, PersistedRuns}
use anastom.Engine.Context.{ExecutionRequest}
use anastom.Engine.Actions.{
  Action, EngineError, ExecutionResult, Progress, ◌>>=◌, context, load_state,
}
use anastom.Engine.Outside.{Outside}
use anastom.Engine.Finish.{
  commit_step, finish_attempt, finish_blocked, finish_cancelled, finish_failed, finish_output,
  finish_succeeded, give_up, may_retry,
}
use anastom.Engine.Tick.{
  execute, first, left_by, run_attempt, start_of, tick, tick_loaded, tick_node, tick_ready,
}
use anastom.Engine.Keeping.{
  >>=-Keeps, Continues, Continues-refl, Holds, Keeps, attempt_call-Keeps, commit_next-Keeps,
  do_if-Keeps, get_result-Keeps, get_state-Keeps, get_unsafe_to_retry-Keeps, if-Keeps,
}
use anastom.Engine.Running.{execute_attempt-InStep}

module _ (o : Outside) (w : WorkflowDefinition) (n : WorkflowNode) (run_id node_id : String)
    (number : ℕ) where
  abbrev KeepsRun : {A : Type 0} → Action A → Type 0
  KeepsRun action = Keeps o.accepts run_id action

  commits : (ps : List RunEventPayload) → KeepsRun (commit_step o w n run_id node_id number ps)
  commits ps = commit_next-Keeps o.accepts run_id ps

  followed :
      {A B : Type 0} {action : Action A} {next : A → Action B}
      → KeepsRun action
      → ((a : A) → KeepsRun (next a))
      → KeepsRun (action >>= next)
  followed h k = >>=-Keeps o.accepts run_id h k

  finish_blocked-Keeps :
      (reason : String) → KeepsRun (finish_blocked o w n run_id node_id number reason)
  unfolding finish_blocked
  finish_blocked-Keeps reason = followed (get_state-Keeps o.accepts run_id) (λ s. commits _)

  finish_cancelled-Keeps :
      (reason : String) → KeepsRun (finish_cancelled o w n run_id node_id number reason)
  unfolding finish_cancelled
  finish_cancelled-Keeps reason = followed (get_state-Keeps o.accepts run_id) (λ s. commits _)

  give_up-Keeps :
      (unsafe_to_retry : Bool) (failure : ExecutionFailure)
      → KeepsRun (give_up o w n run_id node_id number unsafe_to_retry failure)
  unfolding give_up
  give_up-Keeps unsafe_to_retry failure =
      followed (commits _) (λ _. followed (get_state-Keeps o.accepts run_id) (λ s. commits _))

  finish_failed-Keeps :
      (unsafe_to_retry : Bool) (failure : ExecutionFailure)
      → KeepsRun (finish_failed o w n run_id node_id number unsafe_to_retry failure)
  unfolding finish_failed
  finish_failed-Keeps unsafe_to_retry failure = followed (commits _) (λ _.
      if-Keeps o.accepts run_id (may_retry o w n run_id node_id number unsafe_to_retry) (commits _)
        (give_up-Keeps unsafe_to_retry failure))

  finish_succeeded-Keeps :
      (output : JsonValue) → KeepsRun (finish_succeeded o w n run_id node_id number output)
  unfolding finish_succeeded
  finish_succeeded-Keeps output = followed (commits _) (λ _.
      followed (get_state-Keeps o.accepts run_id) (λ s. followed (commits _) (λ _.
        followed (get_state-Keeps o.accepts run_id)
          (λ t. do_if-Keeps o.accepts run_id _ (commits _)))))

  finish_output-Keeps :
      (unsafe_to_retry : Bool) (output : JsonValue) (wrong : Option ExecutionFailure)
      → KeepsRun (finish_output o w n run_id node_id number unsafe_to_retry output wrong)
  finish_output-Keeps unsafe_to_retry output none = finish_succeeded-Keeps output
  finish_output-Keeps unsafe_to_retry output (some failure) =
      finish_failed-Keeps unsafe_to_retry failure

  finish_attempt-Keeps :
      (unsafe_to_retry : Bool) (result : ExecutionResult)
      → KeepsRun (finish_attempt o w n run_id node_id number unsafe_to_retry result)
  unfolding finish_attempt
  finish_attempt-Keeps unsafe_to_retry (ExecutionResult.blocked reason) =
      finish_blocked-Keeps reason
  finish_attempt-Keeps unsafe_to_retry (ExecutionResult.cancelled reason) =
      finish_cancelled-Keeps reason
  finish_attempt-Keeps unsafe_to_retry (ExecutionResult.failed failure) =
      finish_failed-Keeps unsafe_to_retry failure
  finish_attempt-Keeps unsafe_to_retry (ExecutionResult.succeeded output) =
      finish_output-Keeps unsafe_to_retry output _

  execute-Keeps :
      (request : ExecutionRequest) → request.run_id ≡ run_id → KeepsRun (execute o n request)
  execute-Keeps request own =
      subst (λ i. Keeps o.accepts i (execute o n request)) own
        (record {
          keeps = λ runs p q c.
              execute_attempt-InStep o request n (o.context_json request.context) runs p q c;
        })

  run_attempt-Keeps : KeepsRun (run_attempt o w n run_id node_id number)
  unfolding run_attempt
  run_attempt-Keeps = followed (commits _) (λ _. followed (get_state-Keeps o.accepts run_id) (λ s.
      followed (attempt_call-Keeps o.accepts run_id context _) (λ envelope.
        followed (execute-Keeps _ refl) (λ _.
          followed (get_unsafe_to_retry-Keeps o.accepts run_id) (λ unsafe_to_retry.
            followed (get_result-Keeps o.accepts run_id)
              (λ result. finish_attempt-Keeps unsafe_to_retry result))))))

module _ (o : Outside) (run_id : String) where
  -- What is stored afterwards goes on behind the stored run, and its history replays: to the state
  -- that is returned, or to some state where an error is thrown.
  abbrev pub Advanced :
      PersistedRuns → PersistedRun → PersistedRuns × Result EngineError RunState → Type 0
  Advanced runs p (later, ok s) = Continues o.accepts run_id runs p later s
  Advanced runs p (later, err e) = (s : RunState) × Continues o.accepts run_id runs p later s

  left_by-Advanced :
      (runs : PersistedRuns) (p : PersistedRun) (r : Progress × Result EngineError (Unit {0}))
      → Continues o.accepts run_id runs p r.0.runs r.0.state
      → Advanced runs p (left_by o r)
  left_by-Advanced runs p (q, err e) h = (q.state, h)
  left_by-Advanced runs p (q, ok done) h = h

  module _ (runs : PersistedRuns) (p : PersistedRun) (s : RunState)
      (h : Holds o.accepts run_id runs p s) where
    same : Continues o.accepts run_id runs p runs s
    same = Continues-refl o.accepts run_id runs p s h

    load_state-Holds : load_state o.accepts runs run_id ≡ ok (p, s)
    unfolding load_state
    load_state-Holds = ground (arith, h.0, h.1)

    tick_node-Advanced :
        (w : WorkflowDefinition) (node_id : String) (n : Option WorkflowNode)
        (r : Option NodeRunState)
        → Advanced runs p (tick_node o runs run_id w s node_id n r)
    tick_node-Advanced w node_id none r = (s, same)
    tick_node-Advanced w node_id (some n) none = (s, same)
    tick_node-Advanced w node_id (some n) (some r) =
        let number = length r.attempts + 1 in
        left_by-Advanced runs p (run_attempt o w n run_id node_id number (start_of o runs s))
          ((run_attempt-Keeps o w n run_id node_id number).keeps runs p (start_of o runs s) same)

    tick_ready-Advanced :
        (w : WorkflowDefinition) (ready : Option String)
        → Advanced runs p (tick_ready o runs run_id w s ready)
    tick_ready-Advanced w none = same
    tick_ready-Advanced w (some node_id) = tick_node-Advanced w node_id _ _

    tick_running-Advanced :
        (b : Bool) (x : PersistedRuns × Result EngineError RunState)
        → Advanced runs p x
        → Advanced runs p (if b then x else (runs, ok s))
    tick_running-Advanced true x k = k
    tick_running-Advanced false x k = same

    -- Whatever the runtime, the executor, the stores and the validators answer, and whether the step
    -- returns or throws: the stored history of the run only grows at its end and still replays, to
    -- the state that is returned if one is; the workflow and all other runs stay as they are.
    pub tick-Advanced : Advanced runs p (tick o runs run_id)
    unfolding tick
    tick-Advanced =
        subst (λ r. Advanced runs p (tick_loaded o runs run_id r)) (sym load_state-Holds)
          (tick_running-Advanced (is_run_status s RunStatus.running)
            (tick_ready o runs run_id p.workflow s (first (find_ready_nodes p.workflow s)))
            (tick_ready-Advanced p.workflow (first (find_ready_nodes p.workflow s))))
