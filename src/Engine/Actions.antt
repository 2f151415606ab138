-- ===== src/Engine/Actions.antt =====
-- Statements of the engine (packages/engine/src/engine.ts): they may append to the stored histories,
-- assign to the local variables of the caller, and throw, where what was written stays.
use anastom.Prelude.{String, Bool, List, [], ◌∷◌, if◌then◌else◌, none, some, Result, ok, err}
use anastom.Contract.{ExecutionFailure}
use anastom.Json.{JsonValue}
use anastom.Run.State.{RunState}
use anastom.Run.Event.{RunEvent, RunEventPayload}
use anastom.Run.Guards.{TransitionError}
use anastom.Run.Reducer.{materialize_events, replay_run}
use anastom.Engine.Persistence.{ConflictError, PersistedRun, PersistedRuns, append, load}
use anastom.Engine.Context.{ContextError}

-- What the engine's calls throw. `outside` is an error of code that the engine calls.
pub data EngineError : Type 0 where
  transition : TransitionError → EngineError
  conflict : ConflictError → EngineError
  context : ContextError → EngineError
  outside : String → EngineError
  run_not_found node_missing : String → EngineError
  missing_command unsettled : EngineError

-- An `ExecutionResult` (packages/runtime-contract/src/index.ts).
pub data ExecutionResult : Type 0 where
  succeeded : (output : JsonValue) → ExecutionResult
  failed : (failure : ExecutionFailure) → ExecutionResult
  blocked : (reason : String) → ExecutionResult
  cancelled : (reason : String) → ExecutionResult

-- The stored runs, and the variables `state`, `result` and `unsafeToRetry` of one attempt.
pub record Progress : Type 0 where
  pub runs : PersistedRuns
  pub state : RunState
  pub result : ExecutionResult
  pub unsafe_to_retry : Bool

abbrev pub Action : Type 0 → Type 0
Action A = Progress → Progress × Result EngineError A

abbrev pub run_after :
    {A B : Type 0}
    → (A → Action B)
    → Progress × Result EngineError A
    → Progress × Result EngineError B
run_after next (q, err e) = (q, err e)
run_after next (q, ok a) = next a q

infixl 5 ◌>>=◌ ◌>>◌
unfoldable pub ◌>>=◌ : {A B : Type 0} → Action A → (A → Action B) → Action B
◌>>=◌ action next = λ q. run_after next (action q)

abbrev pub ◌>>◌ : {B : Type 0} → Action (Unit {0}) → Action B → Action B
◌>>◌ action rest = action >>= λ done. rest

abbrev pub return : {A : Type 0} → A → Action A
return a = λ q. (q, ok a)

abbrev pub throw : {A : Type 0} → EngineError → Action A
throw e = λ q. (q, err e)

-- The value of a call that may throw and writes nothing.
unfoldable pub attempt_call : {E A : Type 0} → (E → EngineError) → Result E A → Action A
attempt_call as_error (err e) = throw (as_error e)
attempt_call as_error (ok a) = return a

abbrev pub get_state : Action RunState
get_state = λ q. (q, ok q.state)

abbrev pub get_result : Action ExecutionResult
get_result = λ q. (q, ok q.result)

abbrev pub get_unsafe_to_retry : Action Bool
get_unsafe_to_retry = λ q. (q, ok q.unsafe_to_retry)

unfoldable pub set_result : ExecutionResult → Action (Unit {0})
set_result r = λ q. (record q { result = r }, ok tt)

unfoldable pub set_unsafe_to_retry : Bool → Action (Unit {0})
set_unsafe_to_retry b = λ q. (record q { unsafe_to_retry = b }, ok tt)

unfoldable pub do_if : Bool → Action (Unit {0}) → Action (Unit {0})
do_if b action = if b then action else return tt

module _ (accepts : RunEvent → Bool) where
  abbrev pub stored :
      RunState
      → Result ConflictError PersistedRuns
      → PersistedRuns
      → PersistedRuns × Result EngineError RunState
  stored s (err e) runs = (runs, err (conflict e))
  stored s (ok runs') runs = (runs', ok s)

  abbrev pub store_transition :
      PersistedRuns
      → String
      → RunState
      → Result TransitionError (List RunEvent × RunState)
      → PersistedRuns × Result EngineError RunState
  store_transition runs run_id s (err e) = (runs, err (transition e))
  store_transition runs run_id s (ok (events, s')) =
      stored s' (append runs run_id s.sequence events) runs

  -- `commit`.
  unfoldable pub commit :
      PersistedRuns
      → String
      → RunState
      → List RunEventPayload
      → PersistedRuns × Result EngineError RunState
  unfolding append materialize_events
  commit runs run_id s [] = (runs, ok s)
  commit runs run_id s (p ∷ ps) =
      store_transition runs run_id s (materialize_events accepts (some s) run_id (p ∷ ps))

  abbrev pub assign_state :
      Progress
      → PersistedRuns × Result EngineError RunState
      → Progress × Result EngineError (Unit {0})
  assign_state q (runs, err e) = (record q { runs = runs }, err e)
  assign_state q (runs, ok s) = (record q { runs = runs; state = s }, ok tt)

  -- `state = await this.commit(runId, state, payloads)`.
  unfoldable pub commit_next : String → List RunEventPayload → Action (Unit {0})
  unfolding commit
  commit_next run_id ps = λ q. assign_state q (commit q.runs run_id q.state ps)

  -- `loadState`.
  abbrev pub loaded :
      PersistedRun → Result TransitionError RunState → Result EngineError (PersistedRun × RunState)
  loaded run (err e) = err (transition e)
  loaded run (ok s) = ok (run, s)

  unfoldable pub load_state : PersistedRuns → String → Result EngineError (PersistedRun × RunState)
  load_state runs run_id = elim (load runs run_id) [
    | none ↦ err (run_not_found run_id)
    | some run ↦ loaded run (replay_run accepts run.events)
  ]
