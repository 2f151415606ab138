-- ===== src/Workflow/Validity.antt =====
-- What the semantic validation accepts (packages/core/src/workflow.ts).
use anastom.Prelude.{
  append_empty, String, Bool, true, false, not, ◌≡◌, ◌≢◌, ◌↔◌, refl, subst, inl, inr, Bool-cases,
  Option-cases, List, [], ◌∷◌, ◌++◌, map, Option, none, some, Dict, lookup, keys, Result, ok, All,
  arith, ◌==◌, text_equality, eq_iff,
}
use mathlib.Core.WellFounded.{Acc}
use mathlib.Core.List.{Memᴰ}
use anastom.Workflow.Definition.{Mutation, NodeKind}
use anastom.Workflow.Document.{CommandDocument, WorkflowDocument, WorkflowNodeDocument, needs_of}
use anastom.Workflow.Search.{has_node}
use anastom.Workflow.Visits.{Depends}
use anastom.Workflow.Acyclic.{find_cycles-Acc}
use anastom.Workflow.Visiting.{Mem-has_node, find_cycles_returns}
use anastom.Workflow.Cycles.{Acc-no_cycle, IsCycle, find_cycles-IsCycle}
use anastom.Workflow.Semantics.{
  Issue, assert_semantic_validity, cwd_escapes_root, cwd_of, dependency_cycle, distinct,
  field_issues, need_issues, node_issues, self_need, thrown, unknown_need, when,
}

-- The fields belong to the kind of the node.
abbrev pub HasOwnFields :
    NodeKind → Option String → Option Mutation → Option CommandDocument → Type 0
HasOwnFields NodeKind.agent role mutation command = (role ≢ none) × (command ≡ none)
HasOwnFields NodeKind.command role mutation command = (role ≡ none) × (mutation ≡ none)
HasOwnFields NodeKind.gate role mutation command =
    (role ≡ none) × (mutation ≡ none) × (command ≡ none)
HasOwnFields NodeKind.verifier role mutation command =
    (role ≡ none) × (mutation ≡ none) × (command ≡ none)

-- The directory of the command, if there is one, stays inside the workspace.
abbrev pub StaysInside : Option CommandDocument → Type 0
StaysInside command = cwd_escapes_root (cwd_of command) ≡ false

when_empty : (b : Bool) (i : Issue) → (when b i ≡ []) ↔ (b ≡ false)
when_empty true i = (λ h. cc, λ h. cc)
when_empty false i = (λ h. refl, λ h. refl)

field_issues_empty :
    (i : String) (kind : NodeKind) (role : Option String) (mutation : Option Mutation)
    (command : Option CommandDocument)
    → (field_issues i kind role mutation command ≡ [])
      ↔ (HasOwnFields kind role mutation command × StaysInside command)
field_issues_empty i NodeKind.agent role mutation command =
    (λ h. ground arith, λ (f, c). ground arith)
field_issues_empty i NodeKind.command role mutation command =
    (λ h. ground arith, λ (f, c). ground arith)
field_issues_empty i NodeKind.gate role mutation command =
    (λ h. ground arith, λ (f, c). ground arith)
field_issues_empty i NodeKind.verifier role mutation command =
    (λ h. ground arith, λ (f, c). ground arith)

-- What a node needs is there, and it is not the node itself.
abbrev pub NeedsOthers : Dict WorkflowNodeDocument → String → List String → Type 0
NeedsOthers nodes i ids = All (λ d. (has_node nodes d ≡ true) × (d ≢ i)) ids

not-false : (b : Bool) → not b ≡ false → b ≡ true
not-false true h = refl
not-false false h = cc

need_issues_empty :
    (nodes : Dict WorkflowNodeDocument) (i : String) (ids : List String)
    → (need_issues nodes i ids ≡ []) ↔ NeedsOthers nodes i ids
unfolding need_issues
need_issues_empty nodes i [] = (λ h. tt, λ h. refl)
need_issues_empty nodes i (d ∷ ds) =
    let (to, from) = need_issues_empty nodes i ds in
    let (self_to, self_from) = eq_iff d i in
    (
      λ h.
          let unknown = when (not (has_node nodes d)) (unknown_need i d) in
          let self = when (d == i) (self_need i) in
          let (one, more) = (append_empty unknown (self ++ need_issues nodes i ds)).0 h in
          let (two, rest) = (append_empty self (need_issues nodes i ds)).0 more in
          let known = (when_empty (not (has_node nodes d)) (unknown_need i d)).0 one in
          let other : (d == i) ≡ false = (when_empty (d == i) (self_need i)).0 two in
          (
            (
              not-false (has_node nodes d) known,
              λ e. let same : (d == i) ≡ true = self_from e in cc,
            ),
            to rest,
          ),
      λ ((known, other), rest).
          let differs : (d == i) ≡ false = elim (Bool-cases (d == i)) [
            | inl same ↦ absurd (other (self_to same))
            | inr distinct_ids ↦ distinct_ids
          ] in
          let none_left = from rest in ground arith,
    )

abbrev pub IsValidNode : Dict WorkflowNodeDocument → String × WorkflowNodeDocument → Type 0
IsValidNode nodes (i, n) =
    HasOwnFields n.kind n.role n.mutation n.command
    × StaysInside n.command
    × NeedsOthers nodes i n.needs

node_issues_empty :
    (nodes : Dict WorkflowNodeDocument) (entries : List (String × WorkflowNodeDocument))
    → (node_issues nodes entries ≡ []) ↔ All (IsValidNode nodes) entries
unfolding node_issues
node_issues_empty nodes [] = (λ h. tt, λ h. refl)
node_issues_empty nodes ((i, n) ∷ rest) =
    let (fields_to, fields_from) = field_issues_empty i n.kind n.role n.mutation n.command in
    let (needs_to, needs_from) = need_issues_empty nodes i n.needs in
    let (to, from) = node_issues_empty nodes rest in
    (
      λ h.
          let (one, more) = (append_empty _ _).0 h in
          let (two, last) = (append_empty _ _).0 more in
          let (own, inside) = fields_to one in ((own, inside, needs_to two), to last),
      λ ((own, inside, needs), last).
          (append_empty _ _).1
            (fields_from (own, inside), (append_empty _ _).1 (needs_from needs, from last)),
    )

-- A document that the validation should accept: each node has the fields of its kind and needs other
-- nodes of the document, and the needs of each node end, so that there is no cycle.
pub record IsValidDocument (d : WorkflowDocument) : Type 0 where
  pub nodes_valid : All (IsValidNode d.nodes) d.nodes
  pub acyclic : (i : String) → Acc (Depends d.nodes) i

-- The validation returns on every document.
pub semantic_validity_returns :
    (d : WorkflowDocument)
    → (r : Result (List Issue) (Unit {0})) × (assert_semantic_validity d ≡ some r)
unfolding assert_semantic_validity
semantic_validity_returns d =
    let (s, found) = find_cycles_returns d.nodes in
    (thrown (distinct (node_issues d.nodes d.nodes ++ map dependency_cycle s.cycles)), ground arith)

map_empty : (cs : List (List String)) → (map dependency_cycle cs ≡ []) ↔ (cs ≡ [])
map_empty [] = (λ h. refl, λ h. refl)
map_empty (c ∷ cs) = (λ h. cc, λ h. cc)

thrown_empty : (is : List Issue) → (thrown (distinct is) ≡ ok tt) ↔ (is ≡ [])
unfolding distinct
thrown_empty [] = (λ h. refl, λ h. refl)
thrown_empty (i ∷ is) = (λ h. cc, λ h. cc)

-- A node of a document that is not there needs nothing.
everywhere-Acc :
    (nodes : Dict WorkflowNodeDocument)
    → ((i : String) → Memᴰ i (keys nodes) → Acc (Depends nodes) i)
    → (i : String) → Acc (Depends nodes) i
everywhere-Acc nodes inside i = elim (Option-cases (lookup i nodes)) [
  | inl missing ↦
      let no_needs : needs_of nodes i ≡ [] = ground arith in
      Acc.intro i (λ d (needed, known). elim (subst (Memᴰ d) no_needs needed) [ ])
  | inr (n, found) ↦ inside i (Mem-has_node nodes i (ground arith))
]

no_reports :
    (nodes : Dict WorkflowNodeDocument) (cs : List (List String))
    → ((i : String) → Acc (Depends nodes) i)
    → All (IsCycle nodes) cs
    → cs ≡ []
no_reports nodes [] smaller h = refl
no_reports nodes (c ∷ cs) smaller ((i, middle, whole, chain), h) =
    absurd (Acc-no_cycle nodes i middle (smaller i) chain)

-- The validation of a document returns without an error exactly if the document is valid: every node
-- has the fields of its kind, runs its command, if it has one, in a directory that stays inside the
-- workspace, and needs other nodes of the document, and no dependencies form a cycle.
pub semantic_validity_iff :
    (d : WorkflowDocument) → (assert_semantic_validity d ≡ some (ok tt)) ↔ IsValidDocument d
unfolding assert_semantic_validity
semantic_validity_iff d =
    let (s, found) = find_cycles_returns d.nodes in
    let all_issues = node_issues d.nodes d.nodes ++ map dependency_cycle s.cycles in
    let (nodes_to, nodes_from) = node_issues_empty d.nodes d.nodes in
    (
      λ h.
          let clean : all_issues ≡ [] = (thrown_empty all_issues).0 (ground arith) in
          let (one, two) = (append_empty _ _).0 clean in
          record {
            nodes_valid = nodes_to one;
            acyclic =
                everywhere-Acc d.nodes (find_cycles-Acc d.nodes s found ((map_empty _).0 two));
          },
      λ v.
          let no_cycles =
            no_reports d.nodes s.cycles v.acyclic (find_cycles-IsCycle d.nodes s found) in
          let clean : all_issues ≡ [] =
            (append_empty _ _).1 (nodes_from v.nodes_valid, (map_empty _).1 no_cycles) in
          let accepted : thrown (distinct all_issues) ≡ ok tt = (thrown_empty all_issues).1 clean in
          ground arith,
    )
