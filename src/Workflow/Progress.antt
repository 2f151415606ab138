-- ===== src/Workflow/Progress.antt =====
-- A workflow whose document is valid does not get stuck (packages/core/src/workflow.ts,
-- packages/engine/src/scheduler.ts).
use anastom.Prelude.{
  String, true, ◌≡◌, ◌⊎◌, ◌∙◌, refl, sym, ap, subst, inl, inr, Bool-cases, List, [], ◌∷◌, Option,
  none, some, Dict, lookup, keys, ok, >>=-eq-ok, ok-injective, All, arith, ◌==◌, text_equality,
  eq_iff,
}
use mathlib.Core.WellFounded.{Acc}
use mathlib.Core.List.Memᴰ
use mathlib.Core.List.{Memᴰ}
use anastom.Json.{JsonValue}
use anastom.Run.State.{NodeStatus, RunState}
use anastom.Workflow.Definition.{AttemptBudget, WorkflowDefinition, WorkflowNode}
use anastom.Workflow.Document.{WorkflowDocument, WorkflowNodeDocument}
use anastom.Workflow.Search.{has_node}
use anastom.Workflow.Visits.{Depends}
use anastom.Workflow.Visiting.{Mem-has_node}
use anastom.Workflow.Validity.{IsValidDocument, IsValidNode, NeedsOthers, semantic_validity_iff}
use anastom.Workflow.Durations.{normalize_budget}
use anastom.Workflow.Semantics.{assert_semantic_validity}
use anastom.Workflow.Normalization.{
  normalize_inputs, normalize_node, normalize_nodes, normalize_workflow,
}
use anastom.Workflow.Scheduler.{find_executable_nodes}
use anastom.Workflow.Selection.{HasStatus, find_executable_nodes_iff}

-- `i` needs `d` in the definition.
abbrev pub Needs : WorkflowDefinition → String → String → Type 0
Needs w d i = (n : WorkflowNode) × (lookup i w.nodes ≡ some n) × Memᴰ d n.needs

-- The order names nodes of the definition and all that they need, and the needs of each node end.
pub record IsRunnable (w : WorkflowDefinition) : Type 0 where
  pub present :
      (i : String) → Memᴰ i w.node_order → (n : WorkflowNode) × (lookup i w.nodes ≡ some n)
  pub known : (d i : String) → Needs w d i → Memᴰ d w.node_order
  pub grounded : (i : String) → Acc (Needs w) i

-- Each node in the order waits or is done.
abbrev pub IsAtRest : WorkflowDefinition → RunState → Type 0
IsAtRest w s =
    (i : String)
    → Memᴰ i w.node_order
    → HasStatus s NodeStatus.pending i ⊎ HasStatus s NodeStatus.succeeded i

done_or_waiting :
    (w : WorkflowDefinition) (s : RunState) (ids : List String)
    → IsAtRest w s
    → ((d : String) → Memᴰ d ids → Memᴰ d w.node_order)
    → All (HasStatus s NodeStatus.succeeded) ids
      ⊎ ((d : String) × Memᴰ d ids × HasStatus s NodeStatus.pending d)
done_or_waiting w s [] rest inside = inl tt
done_or_waiting w s (d ∷ ds) rest inside = elim (rest d (inside d (Memᴰ.head refl))) [
  | inl waits ↦ inr (d, Memᴰ.head refl, waits)
  | inr done ↦ elim (done_or_waiting w s ds rest (λ e m. inside e (Memᴰ.tail m))) [
    | inl all_done ↦ inl (done, all_done)
    | inr (e, m, waits) ↦ inr (e, Memᴰ.tail m, waits)
  ]
]

-- Where every node waits or is done and one waits, some node is executable.
pub executable_exists :
    (w : WorkflowDefinition) (s : RunState)
    → IsRunnable w
    → IsAtRest w s
    → (i : String) → Acc (Needs w) i
    → Memᴰ i w.node_order
    → HasStatus s NodeStatus.pending i
    → (j : String) × Memᴰ j (find_executable_nodes w s)
executable_exists w s runnable rest i (Acc.intro _ smaller) m waits =
    let (n, found) = runnable.present i m in
    elim (done_or_waiting w s n.needs rest (λ d needed. runnable.known d i (n, found, needed))) [
      | inl done ↦ (i, (find_executable_nodes_iff w s i).1 (m, waits, (n, found, done)))
      | inr (d, needed, pending) ↦
          executable_exists w s runnable rest d (smaller d (n, found, needed))
            (runnable.known d i (n, found, needed)) pending
    ]

keys-lookup :
    {A : Type 0} (m : Dict A) (i : String) → Memᴰ i (keys m) → (a : A) × (lookup i m ≡ some a)
keys-lookup [] i h = elim h [ ]
keys-lookup ((j, a) ∷ m) i h = elim (Bool-cases (j == i)) [
  | inl same ↦ (a, ground arith)
  | inr other ↦ elim (Memᴰ.cases_cons h) [
    | inl e ↦ absurd (ground (arith, (eq_iff j i).1 (sym e)))
    | inr later ↦ let (b, found) = keys-lookup m i later in (b, ground arith)
  ]
]

module _ (read_schema : String → String → Option JsonValue) where
  normalize_node-needs :
      (path : String) (default : AttemptBudget) (i : String) (n : WorkflowNodeDocument)
      {m : WorkflowNode}
      → normalize_node read_schema path default i n ≡ ok m
      → m.needs ≡ n.needs
  unfolding normalize_node
  normalize_node-needs path default i n h = ground arith

  -- The nodes of the definition are those of the document, with the same needs.
  lookup-normalize_nodes :
      (path : String) (default : AttemptBudget) (nodes : Dict WorkflowNodeDocument)
      {out : Dict WorkflowNode} (i : String)
      → normalize_nodes read_schema path default nodes ≡ ok out
      → ((lookup i nodes ≡ none) × (lookup i out ≡ none))
        ⊎ ((n : WorkflowNodeDocument) × (m : WorkflowNode) × (lookup i nodes ≡ some n)
            × (lookup i out ≡ some m)
            × (m.needs ≡ n.needs))
  unfolding normalize_nodes
  lookup-normalize_nodes path default [] i h = inl (refl, cc)
  lookup-normalize_nodes path default ((j, n) ∷ rest) {out} i h =
      let (m, one, h1) = >>=-eq-ok (normalize_node read_schema path default j n) _ h in
      let (others, more, h2) = >>=-eq-ok (normalize_nodes read_schema path default rest) _ h1 in
      let whole : out ≡ (j, m) ∷ others = sym (ok-injective h2) in
      elim (Bool-cases (j == i)) [
        | inl same ↦ inr (
          n,
          m,
          ground arith,
          ap (lookup i) whole ∙ ground arith,
          normalize_node-needs path default j n one,
        )
        | inr other ↦ elim (lookup-normalize_nodes path default rest i more) [
          | inl (out_of, missing) ↦ inl (ground arith, ap (lookup i) whole ∙ ground arith)
          | inr (k, l, found, there, needs) ↦
              inr (k, l, ground arith, ap (lookup i) whole ∙ ground arith, needs)
        ]
      ]

valid_entry :
    (nodes : Dict WorkflowNodeDocument) (entries : Dict WorkflowNodeDocument) (i : String)
    (n : WorkflowNodeDocument)
    → All (IsValidNode nodes) entries
    → lookup i entries ≡ some n
    → NeedsOthers nodes i n.needs
valid_entry nodes [] i n h found = cc
valid_entry nodes ((j, m) ∷ rest) i n h found = elim (Bool-cases (j == i)) [
  | inl same ↦
      let is : j ≡ i = (eq_iff j i).0 same in
      let it : m ≡ n = ground arith in
      subst (λ k. NeedsOthers nodes i k.needs) it
        (subst (λ k. NeedsOthers nodes k m.needs) is h.0.2)
  | inr other ↦ valid_entry nodes rest i n h.1 (ground arith)
]

needs_known :
    (nodes : Dict WorkflowNodeDocument) (i d : String) (ids : List String)
    → NeedsOthers nodes i ids
    → Memᴰ d ids
    → has_node nodes d ≡ true
needs_known nodes i d [] h m = elim m [ ]
needs_known nodes i d (e ∷ ids) h (Memᴰ.head same) = ap (has_node nodes) same ∙ h.0.0
needs_known nodes i d (e ∷ ids) h (Memᴰ.tail m) = needs_known nodes i d ids h.1 m

grounded-Acc :
    (nodes : Dict WorkflowNodeDocument) (w : WorkflowDefinition)
    → ((d i : String) → Needs w d i → Depends nodes d i)
    → (i : String) → Acc (Depends nodes) i
    → Acc (Needs w) i
grounded-Acc nodes w same i (Acc.intro _ smaller) =
    Acc.intro i (λ d needs. grounded-Acc nodes w same d (smaller d (same d i needs)))

module _ (read_schema : String → String → Option JsonValue) where
  normalize_workflow-eq-ok :
      (d : WorkflowDocument) (path : String) {w : WorkflowDefinition}
      → normalize_workflow read_schema d path ≡ ok w
      → (default : AttemptBudget) × (normalize_nodes read_schema path default d.nodes ≡ ok w.nodes)
        × (w.node_order ≡ keys d.nodes)
  unfolding normalize_workflow
  normalize_workflow-eq-ok d path {w} h =
      let (default, one, h1) = >>=-eq-ok (normalize_budget d.default_attempt_budget none) _ h in
      let (inputs, two, h2) = >>=-eq-ok (normalize_inputs read_schema path d.inputs) _ h1 in
      let (nodes, three, h3) = >>=-eq-ok (normalize_nodes read_schema path default d.nodes) _ h2 in
      (
        default,
        three ∙ ap (λ (v : WorkflowDefinition). ok v.nodes) (ok-injective h3),
        ap (λ (v : WorkflowDefinition). v.node_order) (sym (ok-injective h3)),
      )

  pub normalize_workflow-IsRunnable :
      (d : WorkflowDocument) (path : String) {w : WorkflowDefinition}
      → IsValidDocument d
      → normalize_workflow read_schema d path ≡ ok w
      → IsRunnable w
  normalize_workflow-IsRunnable d path {w} v h =
      let (default, made, order) = normalize_workflow-eq-ok d path h in
      let same_needs : (e i : String) → Needs w e i → Depends d.nodes e i =
        λ e i (m, found, needed).
          elim (lookup-normalize_nodes read_schema path default d.nodes i made) [
            | inl (out, missing) ↦ cc
            | inr (n, k, there, here, same) ↦
                let it : k ≡ m = cc in
                let listed : Memᴰ e n.needs =
                  subst (Memᴰ e) (ap (λ (x : WorkflowNode). x.needs) (sym it) ∙ same) needed in
                (
                  subst (Memᴰ e) (ground arith) listed,
                  needs_known d.nodes i e n.needs
                      (valid_entry d.nodes d.nodes i n v.nodes_valid there) listed,
                )
          ] in
      record {
        present = λ i m.
            let (n, there) = keys-lookup d.nodes i (subst (Memᴰ i) order m) in
            elim (lookup-normalize_nodes read_schema path default d.nodes i made) [
              | inl (out, missing) ↦ absurd (ground arith)
              | inr (k, l, found, here, same) ↦ (l, here)
            ];
        known = λ e i needs.
            subst (Memᴰ e) (sym order) (Mem-has_node d.nodes e (same_needs e i needs).1);
        grounded = λ i. grounded-Acc d.nodes w same_needs i (v.acyclic i);
      }

  -- A workflow that was validated and normalized does not get stuck: in any state of a run in which
  -- each node of the workflow waits or has succeeded and one waits, some node is executable.
  pub validated_workflow_progresses :
      (d : WorkflowDocument) (path : String) (w : WorkflowDefinition) (s : RunState) (i : String)
      → assert_semantic_validity d ≡ some (ok tt)
      → normalize_workflow read_schema d path ≡ ok w
      → IsAtRest w s
      → Memᴰ i w.node_order
      → HasStatus s NodeStatus.pending i
      → (j : String) × Memᴰ j (find_executable_nodes w s)
  validated_workflow_progresses d path w s i valid h rest m waits =
      let runnable = normalize_workflow-IsRunnable d path ((semantic_validity_iff d).0 valid) h in
      executable_exists w s runnable rest i (runnable.grounded i) m waits
