-- ===== src/Workflow/Selection.antt =====
-- What the scheduler selects (packages/engine/src/scheduler.ts), and that the reducer
-- (packages/engine/src/events.ts) accepts it.
use anastom.Prelude.{
  not, ◌&&◌, ◌+◌, ◌==◌, number_equality, String, Bool, true, false, ◌≡◌, ◌↔◌, refl, ap, ◌∙◌, List,
  [], ◌∷◌, none, some, all, lookup, inl, inr, Bool-cases, Option-cases, arith, if◌then◌else◌, ok,
  All, eq_iff, lookup-insert, text_equality, subst, sym,
}
use mathlib.Core.List.{Memᴰ}
use anastom.Workflow.Definition.{WorkflowDefinition, WorkflowNode}
use anastom.Workflow.Scheduler.{
  find_executable_nodes, find_ready_nodes, has_status, is_executable, needs_met, select,
}
use anastom.Run.State.{NodeRunState, NodeStatus, RunState, node_status_eq}
use anastom.Run.Event.{ReadyReason, RunEvent, node, node_ready}
use anastom.Run.Guards.{at_node, put_node}
use anastom.Run.Nodes.{apply_node_event, node_step}
use anastom.Run.Reducer.{apply_run_event, dispatch, is_terminal}

abbrev Kept : (String → Bool) → String → List String → Bool → String → Type 0
Kept p i ids b j = Memᴰ i (if b then j ∷ select p ids else select p ids)

first_passes :
    (p : String → Bool) (i j : String) (ids : List String)
    → (Memᴰ i (select p ids) → Memᴰ i ids × (p i ≡ true))
    → p j ≡ true
    → Memᴰ i (j ∷ select p ids)
    → Memᴰ i (j ∷ ids) × (p i ≡ true)
first_passes p i j ids rest passes (Memᴰ.head same) = (Memᴰ.head same, ap p same ∙ passes)
first_passes p i j ids rest passes (Memᴰ.tail m) =
    let (there, also) = rest m in (Memᴰ.tail there, also)

select_passes :
    (p : String → Bool) (i : String) (ids : List String)
    → Memᴰ i (select p ids)
    → Memᴰ i ids × (p i ≡ true)
unfolding select
select_passes p i [] m = elim m [ ]
select_passes p i (j ∷ ids) m = elim (Bool-cases (p j)) [
  | inl passes ↦
      first_passes p i j ids (select_passes p i ids) passes (subst (λ b. Kept p i ids b j) passes m)
  | inr fails ↦
      let (there, passes) = select_passes p i ids (subst (λ b. Kept p i ids b j) fails m) in
      (Memᴰ.tail there, passes)
]

select_kept :
    (p : String → Bool) (i : String) (ids : List String)
    → Memᴰ i ids
    → p i ≡ true
    → Memᴰ i (select p ids)
unfolding select
select_kept p i [] m passes = elim m [ ]
select_kept p i (j ∷ ids) (Memᴰ.head same) passes =
    subst (λ b. Kept p i ids b j) (sym (ap p (sym same) ∙ passes)) (Memᴰ.head same)
select_kept p i (j ∷ ids) (Memᴰ.tail m) passes =
    let rest = select_kept p i ids m passes in
    elim (p j) as (λ b. Kept p i ids b j) [ true ↦ Memᴰ.tail rest | false ↦ rest ]

-- The state of the run has this node in this status.
abbrev pub HasStatus : RunState → NodeStatus → String → Type 0
HasStatus s status i = (n : NodeRunState) × (lookup i s.nodes ≡ some n) × (n.status ≡ status)

node_status_eq_iff : (a b : NodeStatus) → (node_status_eq a b ≡ true) ↔ (a ≡ b)
node_status_eq_iff a b = ground arith

has_status_iff :
    (s : RunState) (status : NodeStatus) (i : String)
    → (has_status s status i ≡ true) ↔ HasStatus s status i
has_status_iff s status i = elim (Option-cases (lookup i s.nodes)) [
  | inl missing ↦ (λ h. ground arith, λ (n, found, same). cc)
  | inr (n, found) ↦ (
    λ h. (n, found, (node_status_eq_iff n.status status).0 (ground arith)),
    λ (m, here, same).
        let equal = (node_status_eq_iff n.status status).1 (ground arith) in ground arith,
  )
]

all_have_status :
    (s : RunState) (status : NodeStatus) (ids : List String)
    → (all (has_status s status) ids ≡ true) ↔ All (HasStatus s status) ids
all_have_status s status [] = (λ h. tt, λ h. refl)
all_have_status s status (i ∷ ids) =
    let (to, from) = has_status_iff s status i in
    let (all_to, all_from) = all_have_status s status ids in
    (
      λ h. (to (ground arith), all_to (ground arith)),
      λ (h, hs). let one = from h in let rest = all_from hs in ground arith,
    )

-- The workflow has the node, and all that it needs has succeeded.
abbrev pub IsUnblocked : WorkflowDefinition → RunState → String → Type 0
IsUnblocked w s i =
    (n : WorkflowNode) × (lookup i w.nodes ≡ some n)
    × All (HasStatus s NodeStatus.succeeded) n.needs

needs_met_iff :
    (w : WorkflowDefinition) (s : RunState) (i : String)
    → (needs_met s (lookup i w.nodes) ≡ true) ↔ IsUnblocked w s i
needs_met_iff w s i = elim (Option-cases (lookup i w.nodes)) [
  | inl missing ↦ (λ h. ground arith, λ (n, found, met). cc)
  | inr (n, found) ↦ (
    λ h. (n, found, (all_have_status s NodeStatus.succeeded n.needs).0 (ground arith)),
    λ (m, here, met).
        let met_all = (all_have_status s NodeStatus.succeeded m.needs).1 met in ground arith,
  )
]

-- The executable nodes are exactly the identities in the authored order that are pending in the run,
-- that the workflow has, and whose needs have all succeeded in the run.
pub find_executable_nodes_iff :
    (w : WorkflowDefinition) (s : RunState) (i : String)
    → Memᴰ i (find_executable_nodes w s)
      ↔ (Memᴰ i w.node_order × HasStatus s NodeStatus.pending i × IsUnblocked w s i)
unfolding find_executable_nodes
find_executable_nodes_iff w s i =
    let (pending_to, pending_from) = has_status_iff s NodeStatus.pending i in
    let (met_to, met_from) = needs_met_iff w s i in
    (
      λ m.
          let (there, passes) = select_passes (is_executable w s) i w.node_order m in
          (there, pending_to (ground arith), met_to (ground arith)),
      λ (there, pending, met).
          let one = pending_from pending in
          let two = met_from met in
          select_kept (is_executable w s) i w.node_order there (ground arith),
    )

-- The node as it is behind the event that makes it ready.
abbrev readied : NodeRunState → NodeRunState
readied n = record n { status = NodeStatus.ready; pause_reason = none }

readied-has_status :
    (s : RunState) (i j : String) (n : NodeRunState) (status : NodeStatus)
    → has_status (put_node s i (readied n)) status j
      ≡ (if i == j then node_status_eq NodeStatus.ready status else has_status s status j)
readied-has_status s i j n status = ground (arith, lookup-insert i j (readied n) s.nodes)

-- No other node was waiting for a node that only becomes ready.
readied-succeeded :
    (s : RunState) (i j : String) (n : NodeRunState)
    → lookup i s.nodes ≡ some n
    → n.status ≡ NodeStatus.pending
    → has_status (put_node s i (readied n)) NodeStatus.succeeded j
      ≡ has_status s NodeStatus.succeeded j
readied-succeeded s i j n found pending =
    ground (arith, eq_iff i j, readied-has_status s i j n NodeStatus.succeeded)

all_same :
    (p q : String → Bool) (ids : List String) → ((j : String) → p j ≡ q j) → all p ids ≡ all q ids
all_same p q [] same = refl
all_same p q (i ∷ ids) same = rw (same i, all_same p q ids same)

readied-is_executable :
    (w : WorkflowDefinition) (s : RunState) (i j : String) (n : NodeRunState)
    → lookup i s.nodes ≡ some n
    → n.status ≡ NodeStatus.pending
    → is_executable w (put_node s i (readied n)) j ≡ (is_executable w s j && not (i == j))
readied-is_executable w s i j n found pending =
    let s' = put_node s i (readied n) in
    let needs : needs_met s' (lookup j w.nodes) ≡ needs_met s (lookup j w.nodes) =
      elim (Option-cases (lookup j w.nodes)) [
        | inl e ↦ rw e
        | inr (m, e) ↦ rw e (
            all_same (has_status s' NodeStatus.succeeded) (has_status s NodeStatus.succeeded)
              m.needs (λ k. readied-succeeded s i k n found pending))
      ] in
    ground (arith, eq_iff i j, readied-has_status s i j n NodeStatus.pending)

select-select :
    (p q r : String → Bool) (ids : List String)
    → ((j : String) → r j ≡ (p j && q j))
    → select r ids ≡ select q (select p ids)
unfolding select
select-select p q r [] same = refl
select-select p q r (i ∷ ids) same = ground (arith, same i, select-select p q r ids same)

-- The next event of the run, which makes this node ready.
abbrev pub ready_event : RunState → String → RunEvent
ready_event s i = record {
  payload = node (record { node_id = i; change = node_ready ReadyReason.dependencies_satisfied });
  run_id = s.run_id;
  sequence = s.sequence + 1;
}

module _ (accepts : RunEvent → Bool) where
  -- In a run that has not ended the reducer applies the next event that makes an executable node
  -- ready, if the validators accept that event; the scheduler then finds the node ready, and the
  -- executable nodes are those from before without it.
  pub executable_becomes_ready :
      (w : WorkflowDefinition) (s : RunState) (i : String)
      → Memᴰ i (find_executable_nodes w s)
      → is_terminal s.status ≡ false
      → accepts (ready_event s i) ≡ true
      → (s' : RunState) × (apply_run_event accepts (some s) (ready_event s i) ≡ ok s')
        × Memᴰ i (find_ready_nodes w s')
        × (find_executable_nodes w s' ≡ select (λ j. not (i == j)) (find_executable_nodes w s))
  unfolding apply_run_event dispatch apply_node_event at_node node_step find_ready_nodes
      find_executable_nodes
  executable_becomes_ready w s i m live accepted =
      let (there, (n, found, pending), unblocked) = (find_executable_nodes_iff w s i).0 m in
      let next = record s { sequence = s.sequence + 1 } in
      let s' = put_node next i (readied n) in
      (
        s',
        ground (arith, eq_iff s.run_id s.run_id),
        select_kept (has_status s' NodeStatus.ready) i w.node_order there
            (ground (arith, eq_iff i i, readied-has_status next i i n NodeStatus.ready)),
        select-select (is_executable w s) (λ j. not (i == j)) (is_executable w s') w.node_order
            (λ j. readied-is_executable w next i j n found pending),
      )
