-- ===== src/Workflow/Scheduler.antt =====
-- `findExecutableNodes` and `findReadyNodes` (packages/engine/src/scheduler.ts).
use anastom.Prelude.{
  String, Bool, false, ◌&&◌, List, [], ◌∷◌, Option, none, some, all, lookup, if◌then◌else◌,
}
use anastom.Workflow.Definition.{WorkflowDefinition, WorkflowNode}
use anastom.Run.State.{NodeStatus, RunState, node_status_eq}

-- `state.nodes[id]?.status === status`.
abbrev pub has_status : RunState → NodeStatus → String → Bool
has_status s status i = elim (lookup i s.nodes) [
  | none ↦ false
  | some n ↦ node_status_eq n.status status
]

abbrev pub needs_met : RunState → Option WorkflowNode → Bool
needs_met s none = false
needs_met s (some n) = all (has_status s NodeStatus.succeeded) n.needs

abbrev pub is_executable : WorkflowDefinition → RunState → String → Bool
is_executable w s i = has_status s NodeStatus.pending i && needs_met s (lookup i w.nodes)

-- `ids.filter(p)`.
unfoldable pub select : (String → Bool) → List String → List String
select p [] = []
select p (i ∷ ids) = if p i then i ∷ select p ids else select p ids

unfoldable pub find_executable_nodes : WorkflowDefinition → RunState → List String
find_executable_nodes w s = select (is_executable w s) w.node_order

unfoldable pub find_ready_nodes : WorkflowDefinition → RunState → List String
find_ready_nodes w s = select (has_status s NodeStatus.ready) w.node_order
