-- ===== src/Workflow/Definition.antt =====
-- `WorkflowDefinition` and its parts (packages/core/src/types.ts). A loaded JSON Schema is kept as the
-- JSON value that it is; the constant `apiVersion` and `kind` are left out.
use anastom.Prelude.{ℕ, String, List, Option, Dict}
use anastom.Json.{JsonValue}

pub data NodeKind : Type 0 where
  agent command gate verifier : NodeKind

pub data Mutation : Type 0 where
  readonly isolated : Mutation

pub record AttemptBudget : Type 0 where
  pub max_attempts : ℕ
  pub max_duration_ms : Option ℕ

pub record ResolvedSchemaReference : Type 0 where
  pub ref : String
  pub schema : JsonValue

pub record CommandDefinition : Type 0 where
  pub argv : List String
  pub cwd : String
  pub max_duration_ms : ℕ
  pub max_output_bytes : ℕ

pub record WorkflowInputDefinition : Type 0 where
  pub reference : ResolvedSchemaReference
  pub id : String

pub record WorkflowNode : Type 0 where
  pub id : String
  pub kind : NodeKind
  pub needs : List String
  pub role : Option String
  pub output : ResolvedSchemaReference
  pub attempt_budget : AttemptBudget
  pub mutation : Option Mutation
  pub command : Option CommandDefinition

pub record WorkflowTask : Type 0 where
  pub objective : String
  pub acceptance_criteria : List String

pub record WorkflowDefinition : Type 0 where
  pub id : String
  pub version : String
  pub source_path : String
  pub inputs : Dict WorkflowInputDefinition
  pub default_attempt_budget : AttemptBudget
  pub node_order : List String
  pub nodes : Dict WorkflowNode
  pub task : Option WorkflowTask
