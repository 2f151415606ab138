-- ===== src/Workflow/DocumentTests.antt =====
-- A document of two nodes, and the theorems about its validation and its definition.
use anastom.Prelude.{
  String, ◌≡◌, ◌↔◌, ◌++◌, refl, sym, true, subst, inl, inr, List, [], ◌∷◌, Option, none, some,
  Result, ok, err,
}
use mathlib.Core.List.Memᴰ
use mathlib.Core.List.{Memᴰ}
use anastom.Json.{JsonValue}
use anastom.Store.Checks.{codes, is_safe}
use anastom.Run.State.{NodeStatus}
use anastom.Run.Tests.{half_way}
use anastom.Workflow.Definition.{NodeKind, WorkflowDefinition, WorkflowNode}
use anastom.Workflow.Document.{WorkflowDocument, WorkflowNodeDocument}
use anastom.Workflow.Durations.{
  normalize_budget, duration_to_milliseconds, milliseconds, read_digits,
}
use anastom.Workflow.DurationTexts.{
  DurationUnit, decimal, duration_to_milliseconds-decimal, unit_text,
}
use anastom.Workflow.Normalization.{
  goes_to_colon, is_remote, load_schema, normalize_inputs, normalize_node, normalize_nodes,
  normalize_workflow,
}
use anastom.Workflow.Progress.{IsAtRest, validated_workflow_progresses}
use anastom.Workflow.Scheduler.{find_executable_nodes}
use anastom.Workflow.Search.{find_cycles}
use anastom.Workflow.Selection.{HasStatus}
use anastom.Workflow.Semantics.{
  Issue, assert_semantic_validity, dependency_cycle, escapes, role_required, self_need,
  unknown_need,
}
use anastom.Workflow.Validity.{IsValidDocument, semantic_validity_iff, semantic_validity_returns}

abbrev agent : List String → Option String → WorkflowNodeDocument
agent needs role = record {
  kind = NodeKind.agent;
  needs = needs;
  role = role;
  output_schema = "out.json";
  attempt_policy = some (record { max_attempts = some 2; max_duration = some "5m" });
  mutation = none;
  command = none;
}

abbrev authored : WorkflowDocument
authored = record {
  id = "endpoint";
  version = "1";
  inputs = [];
  default_attempt_budget = none;
  nodes =
      ("build", agent [] (some "builder"))
      ∷ ("verify", agent ("build" ∷ []) (some "verifier"))
      ∷ [];
}

-- The nodes need each other, one has no role, and one needs itself and a node that is not there.
abbrev tangled : WorkflowDocument
tangled = record authored {
  nodes =
      ("build", agent ("verify" ∷ []) (some "builder"))
      ∷ ("verify", agent ("build" ∷ "verify" ∷ "lint" ∷ []) none)
      ∷ [];
}

authored_valid : assert_semantic_validity authored ≡ some (ok tt)
unfolding assert_semantic_validity find_cycles escapes
authored_valid = refl

tangled_issues :
    assert_semantic_validity tangled
    ≡ some (
        err (
          role_required "verify"
          ∷ self_need "verify"
          ∷ unknown_need "verify" "lint"
          ∷ dependency_cycle ("build" ∷ "verify" ∷ "build" ∷ [])
          ∷ dependency_cycle ("verify" ∷ "verify" ∷ [])
          ∷ []))
unfolding assert_semantic_validity find_cycles escapes
tangled_issues = refl

outside_refused : escapes (47 ∷ 97 ∷ []) ≡ true
unfolding escapes
outside_refused = refl

semantic_validity_iff_example :
    (assert_semantic_validity authored ≡ some (ok tt)) ↔ IsValidDocument authored
semantic_validity_iff_example = semantic_validity_iff authored

semantic_validity_returns_example :
    (r : Result (List Issue) (Unit {0})) × (assert_semantic_validity tangled ≡ some r)
semantic_validity_returns_example = semantic_validity_returns tangled

abbrev any_schema : String → String → Option JsonValue
any_schema path ref = some JsonValue.null

abbrev compiled_node : String → List String → String → WorkflowNode
compiled_node i needs role = record {
  id = i;
  kind = NodeKind.agent;
  needs = needs;
  role = some role;
  output = record { ref = "out.json"; schema = JsonValue.null };
  attempt_budget = record { max_attempts = 2; max_duration_ms = some 300_000 };
  mutation = none;
  command = none;
}

abbrev compiled : WorkflowDefinition
compiled = record {
  id = "endpoint";
  version = "1";
  source_path = "endpoint.yaml";
  inputs = [];
  default_attempt_budget = record { max_attempts = 1; max_duration_ms = none };
  node_order = "build" ∷ "verify" ∷ [];
  nodes =
      ("build", compiled_node "build" [] "builder")
      ∷ ("verify", compiled_node "verify" ("build" ∷ []) "verifier")
      ∷ [];
  task = none;
}

normalize_workflow-authored : normalize_workflow any_schema authored "endpoint.yaml" ≡ ok compiled
unfolding normalize_workflow normalize_budget duration_to_milliseconds milliseconds read_digits
    normalize_inputs normalize_nodes normalize_node load_schema is_remote goes_to_colon codes
    is_safe
normalize_workflow-authored = refl

half_way_rests : IsAtRest compiled half_way
unfolding half_way
half_way_rests i m = elim (Memᴰ.cases_cons m) [
  | inl one ↦ inr (subst (HasStatus half_way NodeStatus.succeeded) (sym one) (_, refl, refl))
  | inr more ↦ elim (Memᴰ.cases_cons more) [
    | inl two ↦ inl (subst (HasStatus half_way NodeStatus.pending) (sym two) (_, refl, refl))
    | inr no_more ↦ elim no_more [ ]
  ]
]

verify_waits : HasStatus half_way NodeStatus.pending "verify"
unfolding half_way
verify_waits = (_, refl, refl)

validated_workflow_progresses_example :
    (j : String) × Memᴰ j (find_executable_nodes compiled half_way)
validated_workflow_progresses_example =
    validated_workflow_progresses any_schema authored "endpoint.yaml" compiled half_way "verify"
      authored_valid normalize_workflow-authored half_way_rests (Memᴰ.tail (Memᴰ.head refl))
      verify_waits

five_minutes :
    normalize_budget (some (record { max_attempts = none; max_duration = some "5m" })) none
    ≡ ok (record { max_attempts = 1; max_duration_ms = some 300_000 })
unfolding normalize_budget duration_to_milliseconds milliseconds read_digits codes is_safe
five_minutes = refl

five_minutes_written : codes "5m" ≡ decimal 6 5 ++ unit_text DurationUnit.minutes
unfolding codes decimal
five_minutes_written = refl

duration_to_milliseconds-decimal_example : duration_to_milliseconds "5m" ≡ ok 300_000
duration_to_milliseconds-decimal_example =
    duration_to_milliseconds-decimal "5m" 5 DurationUnit.minutes five_minutes_written
