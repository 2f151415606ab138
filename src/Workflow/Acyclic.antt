-- ===== src/Workflow/Acyclic.antt =====
-- The search visits dependencies first, so that a search without a cycle shows that there is none
-- (packages/core/src/workflow.ts).
use anastom.Prelude.{
  ℕ, zero, suc, String, Bool, true, ◌≡◌, ◌∙◌, refl, sym, ap, subst, inl, inr, Bool-cases, List, [],
  ◌∷◌, ◌++◌, Option, some, Dict, keys, length, text_equality, arith,
}
use mathlib.Core.WellFounded.{Acc}
use mathlib.Core.List.Memᴰ
use mathlib.Core.List.{Memᴰ}
use anastom.Workflow.Document.{WorkflowNodeDocument, needs_of}
use anastom.Workflow.Search.{Search, enter, find_cycles, has_node, no_search, visit, visit_each}
use anastom.Workflow.Visits.{Depends, has-Mem, visit-cases, visit_each_step}

no_end : {A : Type 0} (xs : List A) (x : A) → xs ++ x ∷ [] ≡ [] → ⊥
no_end [] x h = cc
no_end (y ∷ xs) x h = cc

-- A search that only adds to the visited nodes, in an order that `Ordered` describes.
module _ (nodes : Dict WorkflowNodeDocument) where
  -- Each node stands before the nodes that it needs.
  abbrev pub Ordered : List String → Type 0
  Ordered [] = Unit {0}
  Ordered (v ∷ vs) = ((d : String) → Depends nodes d v → Memᴰ d vs) × Ordered vs

  pub record Clean (s t : Search) : Type 0 where
    pub before : s.cycles ≡ []
    pub ordered : Ordered s.visited → Ordered t.visited
    pub kept : (v : String) → Memᴰ v s.visited → Memᴰ v t.visited

  abbrev CleanVisit : (String → Search → Option Search) → Type 0
  CleanVisit f =
      (i : String) (s t : Search) → f i s ≡ some t → t.cycles ≡ [] → Clean s t × Memᴰ i t.visited

  Clean-refl : (s : Search) → s.cycles ≡ [] → Clean s s
  Clean-refl s e = record { before = e; ordered = λ o. o; kept = λ v m. m }

  Clean-trans : (s t u : Search) → Clean s t → Clean t u → Clean s u
  Clean-trans s t u c d = record {
    before = c.before;
    ordered = λ o. d.ordered (c.ordered o);
    kept = λ v m. d.kept v (c.kept v m);
  }

  visit_each-Clean :
      (f : String → Search → Option Search) (known : String → Bool) (ds : List String)
      (s u : Search)
      → CleanVisit f
      → visit_each f known ds s ≡ some u
      → u.cycles ≡ []
      → Clean s u × ((d : String) → Memᴰ d ds → known d ≡ true → Memᴰ d u.visited)
  unfolding visit_each
  visit_each-Clean f known [] s u clean h e =
      let same : s ≡ u = cc in
      (subst (Clean s) same (Clean-refl s (ap (λ r. r.cycles) same ∙ e)), λ d m k. elim m [ ])
  visit_each-Clean f known (d ∷ ds) s u clean h e = elim (Bool-cases (known d)) [
    | inl k ↦
        let (t, first, more) = visit_each_step f known d ds s u h k in
        let (rest, all) = visit_each-Clean f known ds t u clean more e in
        let (one, there) = clean d s t first rest.before in
        (
          Clean-trans s t u one rest,
          λ c m kc. elim (Memᴰ.cases_cons m) [
            | inl same ↦ rest.kept c (subst (λ x. Memᴰ x t.visited) (sym same) there)
            | inr later ↦ all c later kc
          ],
        )
    | inr k ↦
        let (rest, all) = visit_each-Clean f known ds s u clean (ground arith) e in
        (rest, λ c m kc. elim (Memᴰ.cases_cons m) [ inl same ↦ cc | inr later ↦ all c later kc ])
  ]

  visit-Clean : (fuel : ℕ) (path : List String) → CleanVisit (visit nodes fuel path)
  unfolding visit
  visit-Clean zero path i s u h e = cc
  visit-Clean (suc fuel) path i s u h e = elim (visit-cases nodes fuel path i s u h) [
    | inl (now, same) ↦ absurd (no_end s.cycles _ (sym (ap (λ r. r.cycles) same) ∙ e))
    | inr (inl (done, same)) ↦ (
      subst (Clean s) (sym same) (Clean-refl s (ap (λ r. r.cycles) (sym same) ∙ e)),
      subst (λ r. Memᴰ i r.visited) (sym same) (has-Mem s.visited i done),
    )
    | inr (inr (free, (t, deeper, same))) ↦
        let (clean, all) =
          visit_each-Clean (visit nodes fuel (path ++ i ∷ [])) (has_node nodes) (needs_of nodes i)
            (enter nodes i s) t (visit-Clean fuel (path ++ i ∷ [])) deeper
            (ap (λ r. r.cycles) (sym same) ∙ e) in
        (
          record {
            before = clean.before;
            ordered = λ o.
                subst (λ r. Ordered r.visited) (sym same)
                  ((λ d (needed, known). all d needed known), clean.ordered o);
            kept = λ v m. subst (λ r. Memᴰ v r.visited) (sym same) (Memᴰ.tail (clean.kept v m));
          },
          subst (λ r. Memᴰ i r.visited) (sym same) (Memᴰ.head refl),
        )
  ]

  -- Where the search of all nodes reports no cycle, each node of the document has all that it needs,
  -- directly or not, in a finite order.
  Ordered-Acc : (vs : List String) → Ordered vs → (i : String) → Memᴰ i vs → Acc (Depends nodes) i
  Ordered-Acc (v ∷ vs) o i (Memᴰ.head same) =
      Acc.intro i (λ d needs. Ordered-Acc vs o.1 d (o.0 d (subst (Depends nodes d) same needs)))
  Ordered-Acc (v ∷ vs) o i (Memᴰ.tail m) = Ordered-Acc vs o.1 i m
  Ordered-Acc [] o i m = elim m [ ]

  pub find_cycles-Acc :
      (t : Search)
      → find_cycles nodes ≡ some t
      → t.cycles ≡ []
      → (i : String) → Memᴰ i (keys nodes)
      → Acc (Depends nodes) i
  unfolding find_cycles
  find_cycles-Acc t h e i m =
      let (clean, all) =
        visit_each-Clean (visit nodes (suc (length (keys nodes))) []) (λ j. true) (keys nodes)
          (no_search nodes) t (visit-Clean (suc (length (keys nodes))) []) h e in
      Ordered-Acc t.visited (clean.ordered tt) i (all i m refl)
