-- ===== src/Workflow/Tests.antt =====
-- A workflow of two nodes, and the theorems about the scheduler at it.
use anastom.Prelude.{
  not, some, ◌==◌, text_equality, String, false, ◌≡◌, refl, List, [], ◌∷◌, none, ok, ◌↔◌,
}
use mathlib.Core.List.{Memᴰ}
use anastom.Json.{JsonValue}
use anastom.Workflow.Definition.{NodeKind, WorkflowDefinition, WorkflowNode}
use anastom.Workflow.Scheduler.{find_executable_nodes, find_ready_nodes, select}
use anastom.Workflow.Selection.{
  HasStatus, IsUnblocked, executable_becomes_ready, find_executable_nodes_iff, ready_event,
}
use anastom.Run.State.{NodeStatus, RunState}
use anastom.Run.Reducer.{apply_run_event, is_terminal}
use anastom.Run.Tests.{any_event, half_way}

abbrev pub step_node : String → List String → WorkflowNode
step_node i needs = record {
  id = i;
  kind = NodeKind.agent;
  needs = needs;
  role = none;
  output = record { ref = "out.json"; schema = JsonValue.null };
  attempt_budget = record { max_attempts = 2; max_duration_ms = none };
  mutation = none;
  command = none;
}

abbrev pub endpoint : WorkflowDefinition
endpoint = record {
  id = "endpoint";
  version = "1";
  source_path = "endpoint.yaml";
  inputs = [];
  default_attempt_budget = record { max_attempts = 1; max_duration_ms = none };
  node_order = "verify" ∷ "build" ∷ [];
  nodes = ("build", step_node "build" []) ∷ ("verify", step_node "verify" ("build" ∷ [])) ∷ [];
  task = none;
}

verify_executable : find_executable_nodes endpoint half_way ≡ "verify" ∷ []
unfolding find_executable_nodes select half_way
verify_executable = refl

verify_selected : Memᴰ "verify" (find_executable_nodes endpoint half_way)
unfolding find_executable_nodes select half_way
verify_selected = Memᴰ.head refl

find_executable_nodes_iff_example : Memᴰ "verify" (find_executable_nodes endpoint half_way) ↔ (
    Memᴰ {A = String} "verify" ("verify" ∷ "build" ∷ [])
    × HasStatus half_way NodeStatus.pending "verify"
    × IsUnblocked endpoint half_way "verify")
find_executable_nodes_iff_example = find_executable_nodes_iff endpoint half_way "verify"

half_way_live : is_terminal half_way.status ≡ false
unfolding half_way
half_way_live = refl

executable_becomes_ready_example :
    (s' : RunState) × (apply_run_event any_event (some half_way) (ready_event half_way "verify")
      ≡ ok s')
    × Memᴰ "verify" (find_ready_nodes endpoint s')
    × (find_executable_nodes endpoint s'
        ≡ select (λ j. not ("verify" == j)) (find_executable_nodes endpoint half_way))
executable_becomes_ready_example =
    executable_becomes_ready any_event endpoint half_way "verify" verify_selected half_way_live refl
