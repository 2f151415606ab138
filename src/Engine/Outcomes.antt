-- ===== src/Engine/Outcomes.antt =====
-- What a finished attempt decides (packages/engine/src/engine.ts, `finishAttempt`).
use anastom.Prelude.{
  ltb, ◌&&◌, not, ℕ, String, Bool, true, false, ◌≡◌, ◌∙◌, refl, ap, subst, [], ◌∷◌, map, Option,
  none, some, Result, ok, all, values, if◌then◌else◌,
}
use anastom.Json.{JsonValue}
use anastom.Contract.{ExecutionFailure}
use anastom.Run.State.{NodeStatus, RunState, RunStatus}
use anastom.Run.Event.{
  ReadyReason, RunOutcome, attempt_blocked, attempt_cancelled, attempt_succeeded, lifecycle,
  node_blocked, node_cancelled, node_ready, node_succeeded, run_blocked, run_cancelled,
  run_completed,
}
use anastom.Run.Extension.{Extends}
use anastom.Run.Lifecycle.{is_node_succeeded}
use anastom.Workflow.Definition.{WorkflowDefinition, WorkflowNode}
use anastom.Workflow.Scheduler.{find_executable_nodes}
use anastom.Workflow.Selection.{HasStatus}
use anastom.Engine.Actions.{EngineError, ExecutionResult, Progress, do_if}
use anastom.Engine.Outside.{Outside}
use anastom.Engine.Finish.{
  blocked_node_payloads, cancelled_node_payloads, commit_step, exhausted, finish_attempt,
  finish_blocked, finish_cancelled, finish_failed, finish_output, finish_succeeded, give_up,
  may_retry, of_attempt, of_node, output_failure,
}
use anastom.Engine.Committed.{
  commit_next-Extends, commit_next-LastStep, node_ready_lem, node_succeeded_lem, get_state-returns,
  >>=-returns, run_blocked_lem, run_cancelled_lem, run_failed_lem,
}

succeeded_stays :
    (s s' : RunState) (i : String)
    → HasStatus s NodeStatus.succeeded i
    → Extends s s'
    → HasStatus s' NodeStatus.succeeded i
succeeded_stays s s' i (n, found, over) x =
    let (n', there, outlives) = x.nodes_outlive i n found in
    (n', there, outlives.final_kept (rw over refl) ∙ over)

module _ (o : Outside) (w : WorkflowDefinition) (n : WorkflowNode) (run_id node_id : String)
    (number : ℕ) where
  -- A failed attempt makes its node ready again, or ends the run as failed.
  abbrev pub Retries : Bool → RunState → Type 0
  Retries true s = HasStatus s NodeStatus.ready node_id
  Retries false s = s.status ≡ RunStatus.failed

  abbrev pub DecidesOutput : Bool → Option ExecutionFailure → RunState → Type 0
  DecidesOutput unsafe_to_retry none s = HasStatus s NodeStatus.succeeded node_id
  DecidesOutput unsafe_to_retry (some failure) s =
      Retries (not unsafe_to_retry && ltb number n.attempt_budget.max_attempts) s

  -- What the result of an attempt decides for the state of the run.
  abbrev pub Decides : Bool → ExecutionResult → RunState → Type 0
  Decides unsafe_to_retry (ExecutionResult.blocked reason) s = s.status ≡ RunStatus.blocked
  Decides unsafe_to_retry (ExecutionResult.cancelled reason) s = s.status ≡ RunStatus.cancelled
  Decides unsafe_to_retry (ExecutionResult.failed failure) s =
      Retries (not unsafe_to_retry && ltb number n.attempt_budget.max_attempts) s
  Decides unsafe_to_retry (ExecutionResult.succeeded output) s =
      DecidesOutput unsafe_to_retry
        (output_failure o w n run_id node_id number (o.value_errors n.output.schema output) output)
        s

  blocked_status :
      (reason : String) (q q' : Progress)
      → finish_blocked o w n run_id node_id number reason q ≡ (q', ok tt)
      → q'.state.status ≡ RunStatus.blocked
  unfolding finish_blocked
  blocked_status reason q q' h = run_blocked_lem reason q'.state (
      commit_next-LastStep o.accepts run_id
        (of_attempt o w n run_id node_id number (attempt_blocked number reason)
          ∷ of_node (node_blocked reason) node_id
          ∷ blocked_node_payloads q.state node_id reason)
        (lifecycle (run_blocked reason)) q {q' = q'} (get_state-returns _ q h))

  cancelled_status :
      (reason : String) (q q' : Progress)
      → finish_cancelled o w n run_id node_id number reason q ≡ (q', ok tt)
      → q'.state.status ≡ RunStatus.cancelled
  unfolding finish_cancelled
  cancelled_status reason q q' h = run_cancelled_lem reason q'.state (
      commit_next-LastStep o.accepts run_id
        (of_attempt o w n run_id node_id number (attempt_cancelled number reason)
          ∷ of_node (node_cancelled reason) node_id
          ∷ cancelled_node_payloads q.state node_id reason)
        (lifecycle (run_cancelled none reason)) q {q' = q'} (get_state-returns _ q h))

  give_up_status :
      (unsafe_to_retry : Bool) (failure : ExecutionFailure) (q q' : Progress)
      → give_up o w n run_id node_id number unsafe_to_retry failure q ≡ (q', ok tt)
      → q'.state.status ≡ RunStatus.failed
  unfolding give_up
  give_up_status unsafe_to_retry failure q q' h =
      let (_, m, first, h1) = >>=-returns _ _ q {q' = q'} h in
      run_failed_lem q'.state (
        commit_next-LastStep o.accepts run_id
          (blocked_node_payloads m.state node_id
            (exhausted o w n run_id node_id number unsafe_to_retry))
          (lifecycle (run_completed RunOutcome.failed)) m {q' = q'} (get_state-returns _ m h1))

  retries :
      (b : Bool) (unsafe_to_retry : Bool) (failure : ExecutionFailure) (q q' : Progress)
      → (if b
            then commit_step o w n run_id node_id number
                (of_node (node_ready ReadyReason.retry) node_id ∷ [])
            else give_up o w n run_id node_id number unsafe_to_retry failure)
          q
        ≡ (q', ok tt)
      → Retries b q'.state
  retries true unsafe_to_retry failure q q' h = node_ready_lem node_id q'.state (
      commit_next-LastStep o.accepts run_id [] (of_node (node_ready ReadyReason.retry) node_id) q
        {q' = q'} h)
  retries false unsafe_to_retry failure q q' h = give_up_status unsafe_to_retry failure q q' h

  failed_status :
      (unsafe_to_retry : Bool) (failure : ExecutionFailure) (q q' : Progress)
      → finish_failed o w n run_id node_id number unsafe_to_retry failure q ≡ (q', ok tt)
      → Retries (may_retry o w n run_id node_id number unsafe_to_retry) q'.state
  unfolding finish_failed
  failed_status unsafe_to_retry failure q q' h =
      let (_, m, first, h1) = >>=-returns _ _ q {q' = q'} h in
      retries (may_retry o w n run_id node_id number unsafe_to_retry) unsafe_to_retry failure m q'
        h1

  done_stays :
      (b : Bool) (q q' : Progress)
      → do_if b
          (commit_step o w n run_id node_id number
            (lifecycle (run_completed RunOutcome.succeeded) ∷ []))
          q
        ≡ (q', ok tt)
      → HasStatus q.state NodeStatus.succeeded node_id
      → HasStatus q'.state NodeStatus.succeeded node_id
  unfolding do_if
  done_stays true q q' h over = succeeded_stays q.state q'.state node_id over (
      commit_next-Extends o.accepts run_id (lifecycle (run_completed RunOutcome.succeeded) ∷ []) q
        {q' = q'} h)
  done_stays false q q' h over =
      subst (λ (s : RunState). HasStatus s NodeStatus.succeeded node_id)
        (ap (λ (x : Progress × Result EngineError (Unit {0})). x.0.state) h) over

  succeeded_status :
      (output : JsonValue) (q q' : Progress)
      → finish_succeeded o w n run_id node_id number output q ≡ (q', ok tt)
      → HasStatus q'.state NodeStatus.succeeded node_id
  unfolding finish_succeeded
  succeeded_status output q q' h =
      let (_, m, first, h1) = >>=-returns _ _ q {q' = q'} h in
      let (_, k, second, h2) = >>=-returns _ _ m {q' = q'} (get_state-returns _ m h1) in
      let over = node_succeeded_lem node_id m.state (
        commit_next-LastStep o.accepts run_id
          (of_attempt o w n run_id node_id number (attempt_succeeded number output) ∷ [])
          (of_node node_succeeded node_id) q {q' = m} first) in
      done_stays (all is_node_succeeded (values k.state.nodes)) k q' (get_state-returns _ k h2) (
        succeeded_stays m.state k.state node_id over (
          commit_next-Extends o.accepts run_id
            (map (of_node (node_ready ReadyReason.dependencies_satisfied))
              (find_executable_nodes w m.state))
            m {q' = k} second))

  output_status :
      (unsafe_to_retry : Bool) (output : JsonValue) (wrong : Option ExecutionFailure)
      (q q' : Progress)
      → finish_output o w n run_id node_id number unsafe_to_retry output wrong q ≡ (q', ok tt)
      → DecidesOutput unsafe_to_retry wrong q'.state
  output_status unsafe_to_retry output none q q' h = succeeded_status output q q' h
  output_status unsafe_to_retry output (some failure) q q' h =
      failed_status unsafe_to_retry failure q q' h

  -- If finishing an attempt returns, then: a blocked result leaves the run blocked and a cancelled one
  -- leaves it cancelled; an output without faults leaves the node succeeded; a failure, or an output
  -- with a fault, leaves the node ready where the attempt may be retried, which takes that retrying is
  -- safe and that attempts are left, and leaves the run failed where it may not.
  pub finish_attempt-Decides :
      (unsafe_to_retry : Bool) (result : ExecutionResult) (q q' : Progress)
      → finish_attempt o w n run_id node_id number unsafe_to_retry result q ≡ (q', ok tt)
      → Decides unsafe_to_retry result q'.state
  unfolding finish_attempt
  finish_attempt-Decides unsafe_to_retry (ExecutionResult.blocked reason) q q' h =
      blocked_status reason q q' h
  finish_attempt-Decides unsafe_to_retry (ExecutionResult.cancelled reason) q q' h =
      cancelled_status reason q q' h
  finish_attempt-Decides unsafe_to_retry (ExecutionResult.failed failure) q q' h =
      failed_status unsafe_to_retry failure q q' h
  finish_attempt-Decides unsafe_to_retry (ExecutionResult.succeeded output) q q' h =
      output_status unsafe_to_retry output _ q q' h
