-- ===== src/Workflow/Document.antt =====
-- The authored workflow (packages/core/src/types.ts), as the compiled document schema accepts it.
use anastom.Prelude.{ℕ, String, List, [], Option, none, some, Dict, lookup}
use anastom.Workflow.Definition.{Mutation, NodeKind}

pub record AttemptPolicyDocument : Type 0 where
  pub max_attempts : Option ℕ
  pub max_duration : Option String

pub record CommandDocument : Type 0 where
  pub argv : List String
  pub cwd : Option String
  pub max_duration : String
  pub max_output_bytes : Option ℕ

-- `needs` is the empty list where it is absent: every reader of the source writes `node.needs ?? []`.
pub record WorkflowNodeDocument : Type 0 where
  pub kind : NodeKind
  pub needs : List String
  pub role : Option String
  pub output_schema : String
  pub attempt_policy : Option AttemptPolicyDocument
  pub mutation : Option Mutation
  pub command : Option CommandDocument

pub record WorkflowDocument : Type 0 where
  pub id : String
  pub version : String
  pub inputs : Dict String
  pub default_attempt_budget : Option AttemptPolicyDocument
  pub nodes : Dict WorkflowNodeDocument

-- `document.nodes[nodeId]?.needs ?? []`.
abbrev pub needs_of : Dict WorkflowNodeDocument → String → List String
needs_of nodes i = elim (lookup i nodes) [ none ↦ [] | some n ↦ n.needs ]
