-- ===== src/Workflow/Search.antt =====
-- The search for dependency cycles (packages/core/src/workflow.ts, `visit` in
-- `assertSemanticValidity`).
use anastom.Prelude.{
  ℕ, zero, suc, String, Bool, true, false, List, [], ◌∷◌, ◌++◌, Option, none, some, Dict, lookup,
  keys, any, length, ◌==◌, text_equality, if◌then◌else◌,
}
use anastom.Workflow.Document.{WorkflowNodeDocument, needs_of}

abbrev pub has : List String → String → Bool
has ids i = any (λ j. j == i) ids

-- `Object.hasOwn(document.nodes, id)`.
abbrev pub has_node : Dict WorkflowNodeDocument → String → Bool
has_node nodes i = elim (lookup i nodes) [ none ↦ false | some n ↦ true ]

-- The two sets and the cycles found, each as the identities on its path.
pub record Search : Type 0 where
  pub visiting : List String
  pub visited : List String
  pub cycles : List (List String)

-- `visiting.delete(id)`.
abbrev pub delete : String → List String → List String
delete i [] = []
delete i (j ∷ ids) = if j == i then ids else j ∷ delete i ids

-- `path.slice(path.indexOf(id))`, where the identity is on the path.
abbrev pub slice_from : String → List String → List String
slice_from i [] = []
slice_from i (j ∷ path) = if j == i then j ∷ path else slice_from i path

-- The loop over the dependencies; `none` is a search that ran out of fuel.
unfoldable pub visit_each :
    (String → Search → Option Search) → (String → Bool) → List String → Search → Option Search
visit_each visit known [] s = some s
visit_each visit known (d ∷ ds) s =
    if known d
    then elim (visit d s) [ none ↦ none | some t ↦ visit_each visit known ds t ]
    else visit_each visit known ds s

module _ (nodes : Dict WorkflowNodeDocument) where
  abbrev pub report : List String → String → Search → Search
  report path i s = record s { cycles = s.cycles ++ (slice_from i path ++ i ∷ []) ∷ [] }

  abbrev pub enter : String → Search → Search
  enter i s = record s { visiting = i ∷ s.visiting }

  abbrev pub leave : String → Search → Search
  leave i s = record s { visiting = delete i s.visiting; visited = i ∷ s.visited }

  unfoldable pub visit : ℕ → List String → String → Search → Option Search
  unfolding visit_each
  visit zero path i s = none
  visit (suc fuel) path i s =
      let deeper =
        visit_each (visit fuel (path ++ i ∷ [])) (has_node nodes) (needs_of nodes i) (enter i s) in
      if has s.visiting i
      then some (report path i s)
      else if has s.visited i
      then some s
      else elim deeper [ none ↦ none | some t ↦ some (leave i t) ]

  abbrev pub no_search : Search
  no_search = record { visiting = []; visited = []; cycles = [] }

  -- The loop over all nodes. A path holds no node twice, so that one more than their number is enough
  -- fuel.
  unfoldable pub find_cycles : Option Search
  unfolding visit visit_each
  find_cycles = visit_each (visit (suc (length (keys nodes))) []) (λ i. true) (keys nodes) no_search
