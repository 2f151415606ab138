-- ===== src/Workflow/Normalization.antt =====
-- From the authored workflow to the definition that runs keep (packages/core/src/workflow.ts,
-- `normalizeWorkflow`).
use anastom.Prelude.{
  ℕ, String, Bool, false, ◌&&◌, ◌||◌, List, [], ◌∷◌, Option, none, some, Dict, keys, ok, err, ◌>>=◌,
  ◌>>◌, guard, leb, ◌==◌, number_equality, not,
}
use anastom.Json.{JsonValue}
use anastom.Store.Checks.{codes}
use anastom.Workflow.Definition.{
  AttemptBudget, CommandDefinition, WorkflowDefinition, WorkflowInputDefinition, WorkflowNode,
}
use anastom.Workflow.Document.{CommandDocument, WorkflowDocument, WorkflowNodeDocument}
use anastom.Workflow.Durations.{
  Normalized, NormalizationError, duration_to_milliseconds, normalize_budget,
}

abbrev is_letter : ℕ → Bool
is_letter c = leb b'a' c && leb c b'z' || leb b'A' c && leb c b'Z'

abbrev is_scheme_code : ℕ → Bool
is_scheme_code c = is_letter c || c == b'+' || c == b'.' || c == b'-'

-- `[a-zA-Z+.-]*:` at the front.
unfoldable pub goes_to_colon : List ℕ → Bool
goes_to_colon [] = false
goes_to_colon (c ∷ cs) = c == b':' || is_scheme_code c && goes_to_colon cs

-- `/^[a-zA-Z][a-zA-Z+.-]*:/`.
unfoldable pub is_remote : List ℕ → Bool
unfolding goes_to_colon
is_remote [] = false
is_remote (c ∷ cs) = is_letter c && goes_to_colon cs

-- `read_schema` stands for the file behind a path that is resolved against the workflow's own, and for
-- the schema compiler. It answers the same each time, so that the cache by paths is left out.
module _ (read_schema : String → String → Option JsonValue) where
  unfoldable pub load_schema : String → String → Normalized JsonValue
  unfolding is_remote
  load_schema source_path ref = do
    guard (not (is_remote (codes ref))) (NormalizationError.remote_reference ref)
    elim (read_schema source_path ref) [
      | none ↦ err (NormalizationError.schema_unreadable ref)
      | some schema ↦ ok schema
    ]

  unfoldable pub normalize_inputs : String → Dict String → Normalized (Dict WorkflowInputDefinition)
  normalize_inputs source_path [] = ok []
  normalize_inputs source_path ((i, ref) ∷ rest) = do
    schema ← load_schema source_path ref
    others ← normalize_inputs source_path rest
    ok ((i, record { reference = record { ref = ref; schema = schema }; id = i }) ∷ others)

  abbrev normalize_command : Option CommandDocument → Normalized (Option CommandDefinition)
  normalize_command none = ok none
  normalize_command (some c) = do
    duration ← duration_to_milliseconds c.max_duration
    ok (
        some (record {
          argv = c.argv;
          cwd = elim c.cwd [ none ↦ "." | some d ↦ d ];
          max_duration_ms = duration;
          max_output_bytes = elim c.max_output_bytes [ none ↦ 1_048_576 | some n ↦ n ];
        }))

  unfoldable pub normalize_node :
      String → AttemptBudget → String → WorkflowNodeDocument → Normalized WorkflowNode
  normalize_node source_path default i n = do
    schema ← load_schema source_path n.output_schema
    budget ← normalize_budget n.attempt_policy (some default)
    command ← normalize_command n.command
    ok (record {
      id = i;
      kind = n.kind;
      needs = n.needs;
      role = n.role;
      output = record { ref = n.output_schema; schema = schema };
      attempt_budget = budget;
      mutation = n.mutation;
      command = command;
    })

  unfoldable pub normalize_nodes :
      String → AttemptBudget → Dict WorkflowNodeDocument → Normalized (Dict WorkflowNode)
  normalize_nodes source_path default [] = ok []
  normalize_nodes source_path default ((i, n) ∷ rest) = do
    node ← normalize_node source_path default i n
    others ← normalize_nodes source_path default rest
    ok ((i, node) ∷ others)

  -- The source loads the schemas concurrently: which of several errors is thrown is not fixed there.
  unfoldable pub normalize_workflow : WorkflowDocument → String → Normalized WorkflowDefinition
  normalize_workflow d source_path = do
    default ← normalize_budget d.default_attempt_budget none
    inputs ← normalize_inputs source_path d.inputs
    nodes ← normalize_nodes source_path default d.nodes
    ok (record {
      id = d.id;
      version = d.version;
      source_path = source_path;
      inputs = inputs;
      default_attempt_budget = default;
      node_order = keys d.nodes;
      nodes = nodes;
      task = none;
    })
