-- ===== src/Engine/Context.antt =====
-- The explicit context of one attempt (packages/engine/src/context.ts, and `ContextEnvelope` and
-- `ExecutionRequest` of packages/runtime-contract/src/index.ts). Frozen objects and copies are values.
use anastom.Prelude.{
  ℕ, String, Bool, List, [], ◌∷◌, Option, none, some, Result, ok, ◌>>=◌, or_throw, Dict, lookup,
  insert, ◌==◌, text_equality, if◌then◌else◌,
}
use anastom.Json.{JsonValue}
use anastom.Contract.{ArtifactRef, WorkspaceRef}
use anastom.Run.State.{RunState}
use anastom.Workflow.Definition.{
  AttemptBudget, CommandDefinition, Mutation, NodeKind, WorkflowDefinition, WorkflowNode,
}

pub data ContextError : Type 0 where
  unknown_context_node : String → ContextError
  no_structured_output : String → ContextError

pub record ContextTask : Type 0 where
  pub id : String
  pub version : String
  pub objective : String
  pub acceptance_criteria : List String

pub record ContextEnvelope : Type 0 where
  pub run_id : String
  pub workflow_instance_id : String
  pub node_id : String
  pub attempt : ℕ
  pub inputs : Dict JsonValue
  pub dependency_outputs : Dict JsonValue
  pub task : Option ContextTask
  pub role : Option String
  pub workspace : WorkspaceRef
  pub allowed_mutations : Mutation
  pub artifacts : List ArtifactRef
  pub verification : Option CommandDefinition
  pub required_output_schema : JsonValue
  pub budget : AttemptBudget

pub record ExecutionRequest : Type 0 where
  pub run_id : String
  pub workflow_instance_id : String
  pub node_id : String
  pub node_kind : NodeKind
  pub attempt : ℕ
  pub role : Option String
  pub workspace : WorkspaceRef
  pub context : ContextEnvelope
  pub budget : AttemptBudget
  pub required_output_schema : JsonValue
  pub allow_mutations : Bool

abbrev pub output_of : RunState → String → Option JsonValue
output_of s i = elim (lookup i s.nodes) [ none ↦ none | some n ↦ n.output ]

-- `Object.fromEntries(node.needs.map(…))`, with the entries so far.
unfoldable pub dependency_outputs :
    RunState → List String → Dict JsonValue → Result ContextError (Dict JsonValue)
dependency_outputs s [] entries = ok entries
dependency_outputs s (i ∷ ids) entries = do
  output ← or_throw (output_of s i) (no_structured_output i)
  dependency_outputs s ids (insert i output entries)

abbrev context_task : WorkflowDefinition → Option ContextTask
context_task w = elim w.task [
  | none ↦ none
  | some t ↦ some (record {
    id = w.id;
    version = w.version;
    objective = t.objective;
    acceptance_criteria = t.acceptance_criteria;
  })
]

-- An empty role is left out.
abbrev context_role : Option String → Option String
context_role none = none
context_role (some r) = if r == "" then none else some r

abbrev verification_command : Option WorkflowNode → Option CommandDefinition
verification_command none = none
verification_command (some n) = n.command

abbrev mutation_or_readonly : Option Mutation → Mutation
mutation_or_readonly none = Mutation.readonly
mutation_or_readonly (some m) = m

unfoldable pub build_context :
    WorkflowDefinition
    → RunState
    → String
    → ℕ
    → WorkspaceRef
    → List ArtifactRef
    → Result ContextError ContextEnvelope
unfolding dependency_outputs
build_context w s node_id attempt workspace artifacts = do
  n ← or_throw (lookup node_id w.nodes) (unknown_context_node node_id)
  outputs ← dependency_outputs s n.needs []
  ok (record {
    run_id = s.run_id;
    workflow_instance_id = s.workflow_instance_id;
    node_id = node_id;
    attempt = attempt;
    inputs = s.inputs;
    dependency_outputs = outputs;
    task = context_task w;
    role = context_role n.role;
    workspace = workspace;
    allowed_mutations = mutation_or_readonly n.mutation;
    artifacts = artifacts;
    verification = verification_command (lookup "verify" w.nodes);
    required_output_schema = n.output.schema;
    budget = n.attempt_budget;
  })
