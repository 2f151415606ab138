-- ===== src/Workflow/Visits.antt =====
-- The steps of the search for dependency cycles (packages/core/src/workflow.ts).
use anastom.Prelude.{
  ℕ, suc, String, Bool, true, false, ◌≡◌, ◌⊎◌, sym, inl, inr, Bool-cases, Option-cases, List, [],
  ◌∷◌, ◌++◌, Option, some, Dict, ◌==◌, text_equality, eq_iff, arith,
}
use mathlib.Core.List.{Memᴰ}
use anastom.Workflow.Document.{WorkflowNodeDocument, needs_of}
use anastom.Workflow.Search.{Search, enter, has, has_node, leave, report, visit, visit_each}

pub has-Mem : (ids : List String) (i : String) → has ids i ≡ true → Memᴰ i ids
has-Mem [] i h = cc
has-Mem (j ∷ ids) i h = elim (Bool-cases (j == i)) [
  | inl same ↦ Memᴰ.head (sym ((eq_iff j i).0 same))
  | inr other ↦ Memᴰ.tail (has-Mem ids i (ground arith))
]

pub visit_each_step :
    (f : String → Search → Option Search) (known : String → Bool) (d : String) (ds : List String)
    (s u : Search)
    → visit_each f known (d ∷ ds) s ≡ some u
    → known d ≡ true
    → (t : Search) × (f d s ≡ some t) × (visit_each f known ds t ≡ some u)
unfolding visit_each
visit_each_step f known d ds s u h k = elim (Option-cases (f d s)) [
  | inl out ↦ cc
  | inr (t, e) ↦ (t, e, ground arith)
]

module _ (nodes : Dict WorkflowNodeDocument) where
  -- `d` is a node of the document that `i` needs.
  abbrev pub Depends : String → String → Type 0
  Depends d i = Memᴰ d (needs_of nodes i) × (has_node nodes d ≡ true)

  -- The three ways in which a visit ends.
  pub visit-cases :
      (fuel : ℕ) (path : List String) (i : String) (s u : Search)
      → visit nodes (suc fuel) path i s ≡ some u
      → ((has s.visiting i ≡ true) × (u ≡ report nodes path i s))
        ⊎ (((has s.visited i ≡ true) × (u ≡ s))
            ⊎ ((has s.visiting i ≡ false)
                × ((t : Search) × (visit_each
                        (visit nodes fuel (path ++ i ∷ []))
                        (has_node nodes)
                        (needs_of nodes i)
                        (enter nodes i s)
                      ≡ some t)
                    × (u ≡ leave nodes i t))))
  unfolding visit
  visit-cases fuel path i s u h = elim (Bool-cases (has s.visiting i)) [
    | inl now ↦ inl (now, ground arith)
    | inr free ↦ elim (Bool-cases (has s.visited i)) [
      | inl done ↦ inr (inl (done, ground arith))
      | inr new ↦
          elim (Option-cases (
            visit_each (visit nodes fuel (path ++ i ∷ [])) (has_node nodes) (needs_of nodes i)
              (enter nodes i s))) [
                | inl out ↦ absurd (ground arith)
                | inr (t, deeper) ↦ inr (inr (free, (t, deeper, ground arith)))
              ]
    ]
  ]
