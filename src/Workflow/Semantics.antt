-- ===== src/Workflow/Semantics.antt =====
-- The semantic validation of an authored workflow (packages/core/src/workflow.ts,
-- `assertSemanticValidity`).
use anastom.Prelude.{
  ℕ, String, Bool, true, false, not, ◌&&◌, ◌||◌, List, [], ◌∷◌, ◌++◌, map, Option, none, some, Dict,
  Result, ok, err, any, ◌==◌, text_equality, number_equality, if◌then◌else◌,
}
use anastom.Store.Checks.{codes}
use anastom.Workflow.Definition.{Mutation, NodeKind}
use anastom.Workflow.Document.{CommandDocument, WorkflowDocument, WorkflowNodeDocument}
use anastom.Workflow.Search.{find_cycles, has_node}

-- One constructor for each message, with what the message names.
pub data Issue : Type 0 where
  role_required role_misplaced mutation_misplaced command_misplaced : String → Issue
  cwd_escapes : String → Issue
  unknown_need : String → String → Issue
  self_need : String → Issue
  dependency_cycle : List String → Issue

abbrev pub is_agent : NodeKind → Bool
is_agent NodeKind.agent = true
is_agent _ = false

abbrev pub is_command : NodeKind → Bool
is_command NodeKind.command = true
is_command _ = false

-- `cwd.split(/[\\/]/)`, over code points.
unfoldable pub split_path : List ℕ → List (List ℕ)
split_path [] = [] ∷ []
split_path (c ∷ cs) =
    let rest = split_path cs in
    if c == b'/' || c == b'\\'
    then [] ∷ rest
    else elim rest [ [] ↦ (c ∷ []) ∷ [] | segment ∷ segments ↦ (c ∷ segment) ∷ segments ]

abbrev is_parent : List ℕ → Bool
is_parent (c ∷ d ∷ []) = c == b'.' && d == b'.'
is_parent _ = false

-- `isAbsolute` on POSIX systems.
abbrev is_absolute : List ℕ → Bool
is_absolute [] = false
is_absolute (c ∷ cs) = c == b'/'

unfoldable pub escapes : List ℕ → Bool
unfolding split_path
escapes cwd = is_absolute cwd || any is_parent (split_path cwd)

abbrev pub when : Bool → Issue → List Issue
when b i = if b then i ∷ [] else []

abbrev is_given {ℓ} : {A : Type ℓ} → Option A → Bool
is_given none = false
is_given (some a) = true

abbrev pub cwd_of : Option CommandDocument → Option String
cwd_of none = none
cwd_of (some c) = c.cwd

abbrev pub cwd_escapes_root : Option String → Bool
cwd_escapes_root none = false
cwd_escapes_root (some t) = escapes (codes t)

abbrev pub field_issues :
    String → NodeKind → Option String → Option Mutation → Option CommandDocument → List Issue
field_issues i kind role mutation command =
    when (is_agent kind && not (is_given role)) (role_required i)
    ++ (when (not (is_agent kind) && is_given role) (role_misplaced i)
        ++ (when (is_given mutation && not (is_agent kind)) (mutation_misplaced i)
            ++ (when (is_given command && not (is_command kind)) (command_misplaced i)
                ++ when (cwd_escapes_root (cwd_of command)) (cwd_escapes i))))

unfoldable pub need_issues : Dict WorkflowNodeDocument → String → List String → List Issue
need_issues nodes i [] = []
need_issues nodes i (d ∷ ds) =
    when (not (has_node nodes d)) (unknown_need i d)
    ++ (when (d == i) (self_need i) ++ need_issues nodes i ds)

unfoldable pub node_issues :
    Dict WorkflowNodeDocument → List (String × WorkflowNodeDocument) → List Issue
unfolding need_issues
node_issues nodes [] = []
node_issues nodes ((i, n) ∷ rest) =
    field_issues i n.kind n.role n.mutation n.command
    ++ (need_issues nodes i n.needs ++ node_issues nodes rest)

abbrev same_path : List String → List String → Bool
same_path [] [] = true
same_path (i ∷ is) (j ∷ js) = i == j && same_path is js
same_path _ _ = false

abbrev same_issue : Issue → Issue → Bool
same_issue (role_required i) (role_required j) = i == j
same_issue (role_misplaced i) (role_misplaced j) = i == j
same_issue (mutation_misplaced i) (mutation_misplaced j) = i == j
same_issue (command_misplaced i) (command_misplaced j) = i == j
same_issue (cwd_escapes i) (cwd_escapes j) = i == j
same_issue (unknown_need i d) (unknown_need j e) = i == j && d == e
same_issue (self_need i) (self_need j) = i == j
same_issue (dependency_cycle p) (dependency_cycle q) = same_path p q
same_issue _ _ = false

-- `[...new Set(issues)]`: each message where it is found first.
abbrev remove_issue : Issue → List Issue → List Issue
remove_issue i [] = []
remove_issue i (j ∷ is) = if same_issue i j then remove_issue i is else j ∷ remove_issue i is

unfoldable pub distinct : List Issue → List Issue
distinct [] = []
distinct (i ∷ is) = i ∷ remove_issue i (distinct is)

-- The validation, which throws all issues. The search always returns: `none` is no case of the source.
unfoldable pub semantic_issues : WorkflowDocument → Option (List Issue)
unfolding node_issues
semantic_issues d = elim (find_cycles d.nodes) [
  | none ↦ none
  | some s ↦ some (node_issues d.nodes d.nodes ++ map dependency_cycle s.cycles)
]

abbrev pub thrown : List Issue → Result (List Issue) (Unit {0})
thrown [] = ok tt
thrown (i ∷ is) = err (i ∷ is)

unfoldable pub assert_semantic_validity : WorkflowDocument → Option (Result (List Issue) (Unit {0}))
unfolding semantic_issues distinct
assert_semantic_validity d = elim (semantic_issues d) [
  | none ↦ none
  | some is ↦ some (thrown (distinct is))
]
