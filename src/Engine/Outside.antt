-- ===== src/Engine/Outside.antt =====
-- What the engine calls and does not contain (packages/engine/src/engine.ts, `WorkflowEngineOptions`):
-- the runtime adapter, the command executor, the artifact store, the workspace capture and the
-- compiled validators, as they answer during one run.
use anastom.Prelude.{ℕ, String, Bool, List, Option, Result}
use anastom.Json.{JsonValue}
use anastom.Contract.{
  ArtifactRef, CommandReport, ExecutionFailure, FailureCategory, RuntimeEvent, WorkspaceRef,
}
use anastom.Run.Event.{RunEvent}
use anastom.Workflow.Definition.{CommandDefinition}
use anastom.Engine.Context.{ContextEnvelope, ExecutionRequest}
use anastom.Engine.Actions.{EngineError, ExecutionResult}

-- A text or bytes.
pub data Content : Type 0 where
  text : String → Content
  bytes : List ℕ → Content

pub record ArtifactWrite : Type 0 where
  pub run_id : String
  pub node_id : String
  pub attempt : ℕ
  pub artifact_type : String
  pub media_type : String
  pub content : Content

-- `CommandExecution` (packages/engine/src/command.ts).
pub record CommandExecution : Type 0 where
  pub output : CommandReport
  pub stdout : List ℕ
  pub stderr : List ℕ
  pub failure : Option ExecutionFailure

pub record WorkspaceCapture : Type 0 where
  pub head_commit : String
  pub diff : String
  pub changed_files : List String

-- How starting, streaming and collecting end, behind the events of the stream.
pub data StreamEnd : Type 0 where
  collected : ExecutionResult → StreamEnd
  preflight_failed : FailureCategory → String → StreamEnd
  stream_failed : StreamEnd

-- How the cancellation behind a deadline goes: there is no handle yet, the adapter confirms or
-- rejects, or the grace period ends first.
pub data Cancellation : Type 0 where
  no_handle confirmed rejected no_answer : Cancellation

-- Whether the execution settles before the deadline.
pub data Ending : Type 0 where
  settled : StreamEnd → Ending
  overdue : Cancellation → (late : Option StreamEnd) → Ending

-- The events that the stream delivers before it settles or the deadline passes.
pub record Execution : Type 0 where
  pub events : List RuntimeEvent
  pub ending : Ending

pub record Outside : Type 0 where
  pub is_worker : Bool
  pub runtime_id : String
  pub run : ExecutionRequest → Execution
  pub execute_command : CommandDefinition → WorkspaceRef → Result String CommandExecution
  pub write_artifact : Option (ArtifactWrite → Result String ArtifactRef)
  pub capture_workspace : Option (WorkspaceRef → Result String WorkspaceCapture)
  -- `assertRunEvent`, `assertRuntimeEvent` and the errors of `validateJsonValue`.
  pub accepts : RunEvent → Bool
  pub accepts_observation : RuntimeEvent → Bool
  pub value_errors : JsonValue → JsonValue → List String
  -- Canonical JSON of a context, an event, a report and a value; a report as a JSON value.
  pub context_json : ContextEnvelope → String
  pub event_json : RuntimeEvent → String
  pub report_json : CommandReport → String
  pub value_json : JsonValue → String
  pub report_value : CommandReport → JsonValue
  -- The text of an error, UTF-8 and decimal digits.
  pub message_of : EngineError → String
  pub encode : String → List ℕ
  pub print_number : ℕ → String
