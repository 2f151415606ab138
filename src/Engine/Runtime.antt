-- ===== src/Engine/Runtime.antt =====
-- Observing one runtime execution (packages/engine/src/engine.ts, `RuntimeObservationFilter` and
-- `executeRuntime`).
use anastom.Prelude.{
  ℕ, ◌-◌, String, Bool, true, false, not, ◌&&◌, ◌||◌, List, [], ◌∷◌, ◌++◌, Option, none, some,
  Result, ok, err, any, ltb, take, length, ◌==◌, text_equality, if◌then◌else◌,
}
use anastom.Contract.{FailureCategory, ResultStatus, RuntimeEvent, log, metadata, usage}
use anastom.Run.State.{CancellationOutcome}
use anastom.Run.Event.{
  TimeoutEvent, attempt, attempt_cancellation_completed, attempt_timeout_requested,
  late_result_observed, runtime_event_observed, timeout,
}
use anastom.Engine.Context.{ExecutionRequest}
use anastom.Engine.Actions.{
  Action, EngineError, ExecutionResult, Progress, ◌>>=◌, ◌>>◌, commit_next, return, set_result,
  set_unsafe_to_retry, throw, unsettled,
}
use anastom.Engine.Outside.{
  Cancellation, Ending, Outside, StreamEnd, collected, confirmed, no_answer, no_handle, overdue,
  preflight_failed, rejected, settled, stream_failed,
}

-- The fields `seen` and `usageSeen` of the filter.
pub record Filter : Type 0 where
  pub seen : List String
  pub usage_seen : Bool

abbrev pub new_filter : Filter
new_filter = record { seen = []; usage_seen = false }

abbrev pub is_filtered : RuntimeEvent → Bool
is_filtered (metadata m) = true
is_filtered (usage u) = true
is_filtered _ = false

abbrev pub is_usage : RuntimeEvent → Bool
is_usage (usage u) = true
is_usage _ = false

-- `ResultStatus` of a result.
abbrev pub status_of : ExecutionResult → ResultStatus
status_of (ExecutionResult.succeeded _) = ResultStatus.succeeded
status_of (ExecutionResult.failed _) = ResultStatus.failed
status_of (ExecutionResult.blocked _) = ResultStatus.blocked
status_of (ExecutionResult.cancelled _) = ResultStatus.cancelled

abbrev pub failed_with : FailureCategory → String → ExecutionResult
failed_with category message =
    ExecutionResult.failed (record { category = category; message = message })

abbrev outcome_of : Cancellation → CancellationOutcome
outcome_of no_handle = CancellationOutcome.unavailable
outcome_of confirmed = CancellationOutcome.succeeded
outcome_of rejected = CancellationOutcome.failed
outcome_of no_answer = CancellationOutcome.failed

abbrev is_confirmed : Cancellation → Bool
is_confirmed confirmed = true
is_confirmed _ = false

-- What the operation returns, and whether it caught an error.
abbrev pub end_result : StreamEnd → ExecutionResult
end_result (collected r) = r
end_result (preflight_failed category message) = failed_with category message
end_result stream_failed =
    failed_with FailureCategory.runtime_unavailable
      "Runtime start, stream, or collection failed; check runtime configuration"

abbrev is_errored : StreamEnd → Bool
is_errored (collected r) = false
is_errored _ = true

-- The bytes of the lines that the log keeps, at most 1 MiB.
abbrev pub logged : (String → List ℕ) → List ℕ → RuntimeEvent → List ℕ
logged encode logs (log message dropped) =
    if ltb (length logs) 1_048_576
    then logs ++ take (1_048_576 - length logs) (encode message ++ 10 ∷ [])
    else logs
logged encode logs _ = logs

module _ (o : Outside) where
  -- `accept`: whether the event is observed, or `none` for the error.
  unfoldable pub accept : Filter → RuntimeEvent → Option (Bool × Filter)
  accept f e =
      let key = o.event_json e in
      if not (is_filtered e)
      then some (true, f)
      else if any (λ k. k == key) f.seen
      then some (false, f)
      else if is_usage e && f.usage_seen
      then none
      else some (true, record { seen = key ∷ f.seen; usage_seen = f.usage_seen || is_usage e })

  module _ (request : ExecutionRequest) where
    abbrev pub observation : RuntimeEvent → Action (Unit {0})
    observation e = commit_next o.accepts request.run_id (
        attempt
          (record { node_id = request.node_id; change = runtime_event_observed request.attempt e })
        ∷ [])

    -- An error while an event is observed is caught: the stream is read no further.
    abbrev pub unless_failed :
        (List ℕ → Progress → Progress × (List ℕ × Bool))
        → List ℕ
        → List ℕ
        → Progress × Result EngineError (Unit {0})
        → Progress × (List ℕ × Bool)
    unless_failed rest before after (q, err e) = (q, (before, false))
    unless_failed rest before after (q, ok done) = rest after q

    -- What follows an event by the answer of the filter; `step` is what its observation leaves.
    abbrev pub observe_next :
        (Filter → List ℕ → Progress → Progress × (List ℕ × Bool))
        → List ℕ
        → List ℕ
        → Progress × Result EngineError (Unit {0})
        → Progress
        → Option (Bool × Filter)
        → Progress × (List ℕ × Bool)
    observe_next rest before after step q none = (q, (before, false))
    observe_next rest before after step q (some (false, g)) = rest g before q
    observe_next rest before after step q (some (true, g)) =
        unless_failed (λ kept. rest g kept) before after step

    -- An event that is no valid observation is an error.
    abbrev pub checked : Bool → RuntimeEvent → Filter → Option (Bool × Filter)
    checked true e f = accept f e
    checked false e f = none

    -- The events in order: the log and whether all were observed.
    unfoldable pub observe :
        List RuntimeEvent → Filter → List ℕ → Progress → Progress × (List ℕ × Bool)
    unfolding accept
    observe [] f logs q = (q, (logs, true))
    observe (e ∷ es) f logs q =
        observe_next (λ g kept r. observe es g kept r) logs (logged o.encode logs e)
          (observation e q) q (checked (o.accepts_observation e) e f)

    abbrev pub finished : StreamEnd → Action (Unit {0})
    finished end = do set_result (end_result end); set_unsafe_to_retry (is_errored end)

    abbrev pub timeout_event : TimeoutEvent → Action (Unit {0})
    timeout_event e = commit_next o.accepts request.run_id (timeout e ∷ [])

    abbrev pub late_result : Option StreamEnd → Action (Unit {0})
    late_result none = return tt
    late_result (some end) =
        timeout_event
          (late_result_observed request.node_id request.attempt (status_of (end_result end)))

    abbrev is_late : Option StreamEnd → Bool
    is_late none = false
    is_late (some end) = true

    unfoldable pub expire : Cancellation → Option StreamEnd → Action (Unit {0})
    expire c late = do
      timeout_event (attempt_timeout_requested request.node_id request.attempt)
      timeout_event (attempt_cancellation_completed request.node_id request.attempt (outcome_of c))
      late_result late
      set_result
          (failed_with FailureCategory.budget_exhausted "Attempt exceeded its duration limit")
      set_unsafe_to_retry (not (is_confirmed c) || not (is_late late))

    abbrev has_deadline : Bool
    has_deadline = elim request.budget.max_duration_ms [ none ↦ false | some ms ↦ true ]

    -- Without a deadline the operation is awaited, so that it does not end overdue.
    abbrev pub end_execution : Ending → Action (Unit {0})
    end_execution (settled end) = finished end
    end_execution (overdue c late) = if has_deadline then expire c late else throw unsettled

    abbrev pub end_observed :
        Ending → Progress × (List ℕ × Bool) → Progress × Result EngineError (List ℕ)
    end_observed ending (q, (logs, false)) = (finished stream_failed >>= λ done. return logs) q
    end_observed ending (q, (logs, true)) = (end_execution ending >>= λ done. return logs) q

    -- The log of the execution; the result and `unsafeToRetry` are assigned.
    unfoldable pub execute_runtime : Action (List ℕ)
    unfolding observe expire
    execute_runtime =
        λ q. let x = o.run request in end_observed x.ending (observe x.events new_filter [] q)
