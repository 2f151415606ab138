-- ===== src/Task/Compilation.antt =====
-- The workflow of a task (packages/core/src/task.ts, `compileTask`).
use anastom.Prelude.{
  String, false, ◌≡◌, ◌↔◌, inl, inr, List, [], ◌∷◌, Option, none, some, Result, ok, err, Bool-cases,
  arith,
}
use anastom.Json.{JsonValue}
use anastom.Workflow.Definition.{Mutation, NodeKind, WorkflowDefinition}
use anastom.Workflow.Document.{AttemptPolicyDocument, CommandDocument, WorkflowDocument}
use anastom.Workflow.Durations.{NormalizationError}
use anastom.Workflow.Normalization.{normalize_workflow}
use anastom.Workflow.Search.{find_cycles}
use anastom.Workflow.Semantics.{Issue, assert_semantic_validity, cwd_escapes_root}

pub record TaskDocument : Type 0 where
  pub id : String
  pub version : String
  pub role : String
  pub mutation : Mutation
  pub acceptance_criteria : List String
  pub verification : CommandDocument
  pub attempt_policy : Option AttemptPolicyDocument
  pub objective : String

abbrev or_given {ℓ} : {A : Type ℓ} → Option A → A → Option A
or_given none a = some a
or_given (some b) a = some b

-- `{ maxAttempts: 1, maxDuration: "10m", ...task.attemptPolicy }`.
abbrev pub worker_policy : Option AttemptPolicyDocument → AttemptPolicyDocument
worker_policy none = record { max_attempts = some 1; max_duration = some "10m" }
worker_policy (some p) = record {
  max_attempts = or_given p.max_attempts 1;
  max_duration = or_given p.max_duration "10m";
}

module _ (worker_schema_path command_schema_path : String) where
  abbrev pub task_document : TaskDocument → WorkflowDocument
  task_document t = record {
    id = t.id;
    version = t.version;
    inputs = [];
    default_attempt_budget = none;
    nodes =
        (
          "implement",
          record {
            kind = NodeKind.agent;
            needs = [];
            role = some t.role;
            output_schema = worker_schema_path;
            attempt_policy = some (worker_policy t.attempt_policy);
            mutation = some t.mutation;
            command = none;
          },
        )
        ∷ (
          "verify",
          record {
            kind = NodeKind.command;
            needs = "implement" ∷ [];
            role = none;
            output_schema = command_schema_path;
            attempt_policy = none;
            mutation = none;
            command = some t.verification;
          },
        )
        ∷ [];
  }

  abbrev pub with_task : TaskDocument → WorkflowDefinition → WorkflowDefinition
  with_task t w = record w {
    task = some (record { objective = t.objective; acceptance_criteria = t.acceptance_criteria });
  }

  -- What the compilation throws: the issues of the validation, or the error of the normalization.
  -- The validation always returns, so that `none` is no case of the source.
  pub data CompilationError : Type 0 where
    invalid_task : List Issue → CompilationError
    not_normalized : NormalizationError → CompilationError

  abbrev pub compiled :
      TaskDocument
      → Result NormalizationError WorkflowDefinition
      → Result CompilationError WorkflowDefinition
  compiled t (err e) = err (not_normalized e)
  compiled t (ok w) = ok (with_task t w)

  abbrev pub compile_valid :
      (String → String → Option JsonValue)
      → TaskDocument
      → String
      → Result (List Issue) (Unit {0})
      → Result CompilationError WorkflowDefinition
  compile_valid read_schema t source_path (err issues) = err (invalid_task issues)
  compile_valid read_schema t source_path (ok done) =
      compiled t (normalize_workflow read_schema (task_document t) source_path)

  unfoldable pub compile_task :
      (String → String → Option JsonValue)
      → TaskDocument
      → String
      → Option (Result CompilationError WorkflowDefinition)
  compile_task read_schema t source_path = elim (assert_semantic_validity (task_document t)) [
    | none ↦ none
    | some r ↦ some (compile_valid read_schema t source_path r)
  ]

  -- The workflow of a task passes the semantic validation exactly if the directory of its command
  -- stays inside the workspace.
  pub task_document_iff :
      (t : TaskDocument)
      → (assert_semantic_validity (task_document t) ≡ some (ok tt))
        ↔ (cwd_escapes_root t.verification.cwd ≡ false)
  unfolding assert_semantic_validity find_cycles
  task_document_iff t = elim (Bool-cases (cwd_escapes_root t.verification.cwd)) [
    | inl escapes ↦ (λ h. absurd (ground (arith, escapes)), λ h. cc)
    | inr stays ↦ (λ h. stays, λ h. ground (arith, stays))
  ]
