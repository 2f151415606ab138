-- ===== src/Engine/Running.antt =====
-- Whatever the outside answers, an attempt keeps the stored history (packages/engine/src/engine.ts,
-- `executeRuntime` and `executeAttempt`).
use anastom.Prelude.{
  ℕ, String, Bool, true, false, List, [], ◌∷◌, Option, none, some, Result, ok, err, arith,
}
use anastom.Contract.{ArtifactRef, RuntimeEvent, WorkspaceRef}
use anastom.Run.Event.{RunEventPayload}
use anastom.Workflow.Definition.{CommandDefinition, WorkflowNode}
use anastom.Engine.Persistence.{PersistedRun, PersistedRuns}
use anastom.Engine.Context.{ExecutionRequest}
use anastom.Engine.Actions.{
  Action, EngineError, ExecutionResult, Progress, ◌>>=◌, commit_next, missing_command, outside,
  return, unsettled,
}
use anastom.Engine.Outside.{
  ArtifactWrite, Cancellation, Content, Ending, Outside, StreamEnd, WorkspaceCapture, overdue,
  settled, stream_failed,
}
use anastom.Engine.Runtime.{
  Filter, checked, end_execution, end_observed, execute_runtime, expire, finished, late_result,
  logged, new_filter, observation, observe, observe_next, unless_failed,
}
use anastom.Engine.Attempt.{
  capture, capture_if_given, caught, execute_attempt, execute_command, execute_given,
  execute_worker, is_worker_command, observe_workspace, record_artifact, record_with, report_output,
  try_attempt,
}
use anastom.Engine.Keeping.{
  >>=-Keeps, Continues, Keeps, attempt_call-Keeps, commit_next-Keeps, do_if-Keeps, get_result-Keeps,
  get_unsafe_to_retry-Keeps, if-Keeps, return-Keeps, set_result-Keeps, set_unsafe_to_retry-Keeps,
  throw-Keeps,
}

module _ (o : Outside) (request : ExecutionRequest) where
  abbrev KeepsRun : {A : Type 0} → Action A → Type 0
  KeepsRun action = Keeps o.accepts request.run_id action

  -- The progress is in step with the stored history.
  abbrev InStep : PersistedRuns → PersistedRun → Progress → Type 0
  InStep runs p q = Continues o.accepts request.run_id runs p q.runs q.state

  unless_failed-InStep :
      (runs : PersistedRuns) (p : PersistedRun)
      (rest : List ℕ → Progress → Progress × (List ℕ × Bool)) (before after : List ℕ)
      (r : Progress × Result EngineError (Unit {0}))
      → ((q : Progress) → InStep runs p q → InStep runs p (rest after q).0)
      → InStep runs p r.0
      → InStep runs p (unless_failed o request rest before after r).0
  unless_failed-InStep runs p rest before after (q, err e) k h = h
  unless_failed-InStep runs p rest before after (q, ok done) k h = k q h

  observe_next-InStep :
      (runs : PersistedRuns) (p : PersistedRun)
      (rest : Filter → List ℕ → Progress → Progress × (List ℕ × Bool)) (before after : List ℕ)
      (step : Progress × Result EngineError (Unit {0})) (q : Progress)
      (answer : Option (Bool × Filter))
      → ((g : Filter)
          → (kept : List ℕ) → (r : Progress) → InStep runs p r
          → InStep runs p (rest g kept r).0)
      → InStep runs p step.0
      → InStep runs p q
      → InStep runs p (observe_next o request rest before after step q answer).0
  observe_next-InStep runs p rest before after step q none k h c = c
  observe_next-InStep runs p rest before after step q (some (false, g)) k h c = k g before q c
  observe_next-InStep runs p rest before after step q (some (true, g)) k h c =
      unless_failed-InStep runs p (λ kept. rest g kept) before after step (k g after) h

  observe-InStep :
      (runs : PersistedRuns) (p : PersistedRun) (es : List RuntimeEvent) (f : Filter)
      (logs : List ℕ) (q : Progress)
      → InStep runs p q
      → InStep runs p (observe o request es f logs q).0
  unfolding observe
  observe-InStep runs p [] f logs q h = h
  observe-InStep runs p (e ∷ es) f logs q h =
      observe_next-InStep runs p (λ g kept r. observe o request es g kept r) logs
        (logged o.encode logs e) (observation o request e q) q
        (checked o request (o.accepts_observation e) e f)
        (λ g kept r c. observe-InStep runs p es g kept r c)
        ((commit_next-Keeps o.accepts request.run_id _).keeps runs p q h) h

  commits : (ps : List RunEventPayload) → KeepsRun (commit_next o.accepts request.run_id ps)
  commits ps = commit_next-Keeps o.accepts request.run_id ps

  followed :
      {A B : Type 0} {action : Action A} {next : A → Action B}
      → KeepsRun action
      → ((a : A) → KeepsRun (next a))
      → KeepsRun (action >>= next)
  followed h k = >>=-Keeps o.accepts request.run_id h k

  returns : {A : Type 0} (a : A) → KeepsRun (return a)
  returns a = return-Keeps o.accepts request.run_id a

  finished-Keeps : (end : StreamEnd) → KeepsRun (finished o request end)
  finished-Keeps end =
      followed (set_result-Keeps o.accepts request.run_id _)
        (λ _. set_unsafe_to_retry-Keeps o.accepts request.run_id _)

  late_result-Keeps : (late : Option StreamEnd) → KeepsRun (late_result o request late)
  late_result-Keeps none = returns tt
  late_result-Keeps (some end) = commits _

  expire-Keeps : (c : Cancellation) (late : Option StreamEnd) → KeepsRun (expire o request c late)
  unfolding expire
  expire-Keeps c late = followed (commits _) (λ _. followed (commits _) (λ _.
      followed (late_result-Keeps late) (λ _.
        followed (set_result-Keeps o.accepts request.run_id _)
          (λ _. set_unsafe_to_retry-Keeps o.accepts request.run_id _))))

  end_execution-Keeps : (ending : Ending) → KeepsRun (end_execution o request ending)
  end_execution-Keeps (settled end) = finished-Keeps end
  end_execution-Keeps (overdue c late) =
      if-Keeps o.accepts request.run_id _ (expire-Keeps c late)
        (throw-Keeps o.accepts request.run_id unsettled)

  end_observed-InStep :
      (runs : PersistedRuns) (p : PersistedRun) (ending : Ending) (r : Progress × (List ℕ × Bool))
      → InStep runs p r.0
      → InStep runs p (end_observed o request ending r).0
  end_observed-InStep runs p ending (q, (logs, false)) h =
      (followed (finished-Keeps stream_failed) (λ _. returns logs)).keeps runs p q h
  end_observed-InStep runs p ending (q, (logs, true)) h =
      (followed (end_execution-Keeps ending) (λ _. returns logs)).keeps runs p q h

  execute_runtime-Keeps : KeepsRun (execute_runtime o request)
  unfolding execute_runtime
  execute_runtime-Keeps = record {
    keeps = λ runs p q h.
        end_observed-InStep runs p (o.run request).ending _
          (observe-InStep runs p (o.run request).events new_filter [] q h);
  }

  module _ (node : WorkflowNode) where
    record_with-Keeps :
        (write : Option (ArtifactWrite → Result String ArtifactRef)) (evidence : ArtifactWrite)
        → KeepsRun (record_with o node request write evidence)
    record_with-Keeps none evidence = returns none
    record_with-Keeps (some write) evidence =
        followed (attempt_call-Keeps o.accepts request.run_id outside (write evidence))
          (λ artifact. followed (commits _) (λ _. returns (some artifact)))

    record_artifact-Keeps :
        (artifact_type media_type : String) (content : Content)
        → KeepsRun (record_artifact o node request artifact_type media_type content)
    unfolding record_artifact
    record_artifact-Keeps artifact_type media_type content = record_with-Keeps o.write_artifact _

    execute_command-Keeps :
        (command : CommandDefinition) → KeepsRun (execute_command o node request command)
    unfolding execute_command
    execute_command-Keeps command =
        followed (attempt_call-Keeps o.accepts request.run_id outside _) (λ x.
          followed (record_artifact-Keeps _ _ _) (λ _. followed (record_artifact-Keeps _ _ _) (λ _.
            followed (record_artifact-Keeps _ _ _)
              (λ _. followed (commits _) (λ _. set_result-Keeps o.accepts request.run_id _)))))

    report_output-Keeps : (r : ExecutionResult) → KeepsRun (report_output o node request r)
    report_output-Keeps (ExecutionResult.succeeded output) =
        followed (record_artifact-Keeps _ _ _) (λ _. returns tt)
    report_output-Keeps (ExecutionResult.failed failure) = returns tt
    report_output-Keeps (ExecutionResult.blocked reason) = returns tt
    report_output-Keeps (ExecutionResult.cancelled reason) = returns tt

    execute_worker-Keeps : KeepsRun (execute_worker o node request)
    unfolding execute_worker
    execute_worker-Keeps = followed execute_runtime-Keeps (λ logs.
        followed (record_artifact-Keeps _ _ _)
          (λ _. followed (get_result-Keeps o.accepts request.run_id) (λ r. report_output-Keeps r)))

    observe_workspace-Keeps :
        (c : WorkspaceCapture) (diff : Option ArtifactRef)
        → KeepsRun (observe_workspace o node request c diff)
    observe_workspace-Keeps c none = returns tt
    observe_workspace-Keeps c (some diff) = commits _

    capture-Keeps :
        (read : WorkspaceRef → Result String WorkspaceCapture)
        → KeepsRun (capture o node request read)
    unfolding capture
    capture-Keeps read = followed (attempt_call-Keeps o.accepts request.run_id outside _) (λ c.
        followed
          (do_if-Keeps o.accepts request.run_id _ (set_result-Keeps o.accepts request.run_id _))
          (λ _. followed (record_artifact-Keeps _ _ _) (λ diff. observe_workspace-Keeps c diff)))

    capture_if_given-Keeps :
        (read : Option (WorkspaceRef → Result String WorkspaceCapture))
        → KeepsRun (capture_if_given o node request read)
    capture_if_given-Keeps none = returns tt
    capture_if_given-Keeps (some read) =
        followed (get_unsafe_to_retry-Keeps o.accepts request.run_id)
          (λ _. do_if-Keeps o.accepts request.run_id _ (capture-Keeps read))

    execute_given-Keeps :
        (command : Option CommandDefinition) → KeepsRun (execute_given o node request command)
    execute_given-Keeps none = throw-Keeps o.accepts request.run_id missing_command
    execute_given-Keeps (some command) = execute_command-Keeps command

    try_attempt-Keeps :
        (context_bytes : String) → KeepsRun (try_attempt o node request context_bytes)
    unfolding try_attempt
    try_attempt-Keeps context_bytes = followed (record_artifact-Keeps _ _ _) (λ _.
        followed
          (if-Keeps o.accepts request.run_id (is_worker_command o node request)
            (execute_given-Keeps node.command) execute_worker-Keeps)
          (λ _. capture_if_given-Keeps o.capture_workspace))

    caught-InStep :
        (runs : PersistedRuns) (p : PersistedRun) (r : Progress × Result EngineError (Unit {0}))
        → InStep runs p r.0
        → InStep runs p (caught o node request r)
    caught-InStep runs p (q, ok done) h = h
    caught-InStep runs p (q, err e) h = ground (arith, h)

    pub execute_attempt-InStep :
        (context_bytes : String) (runs : PersistedRuns) (p : PersistedRun) (q : Progress)
        → Continues o.accepts request.run_id runs p q.runs q.state
        → Continues o.accepts request.run_id runs p
            (execute_attempt o node request context_bytes q).runs
            (execute_attempt o node request context_bytes q).state
    unfolding execute_attempt
    execute_attempt-InStep context_bytes runs p q h =
        caught-InStep runs p (try_attempt o node request context_bytes q)
          ((try_attempt-Keeps context_bytes).keeps runs p q h)
