-- ===== src/Workflow/Cycles.antt =====
-- The cycles that the search reports are cycles (packages/core/src/workflow.ts).
use anastom.Prelude.{
  ℕ, zero, suc, String, Bool, true, ◌≡◌, ◌∙◌, refl, sym, ap, subst, inl, inr, Bool-cases, List, [],
  ◌∷◌, ◌++◌, Option, some, Dict, keys, length, ◌==◌, text_equality, eq_iff, arith, All, All-append,
}
use mathlib.Core.WellFounded.{Acc}
use mathlib.Core.List.Memᴰ
use mathlib.Core.List.{Memᴰ, append_assoc}
use anastom.Workflow.Document.{WorkflowNodeDocument, needs_of}
use anastom.Workflow.Search.{
  Search, enter, find_cycles, has, has_node, no_search, slice_from, visit, visit_each,
}
use anastom.Workflow.Visits.{Depends, visit-cases, visit_each_step}
use anastom.Workflow.Visiting.{Keeps, visit-Keeps}

module _ (nodes : Dict WorkflowNodeDocument) where
  -- Each needs the next.
  abbrev pub Chain : List String → Type 0
  Chain [] = Unit {0}
  Chain (x ∷ []) = Unit {0}
  Chain (x ∷ y ∷ rest) = Depends nodes y x × Chain (y ∷ rest)

  -- From a node to itself.
  abbrev pub IsCycle : List String → Type 0
  IsCycle c =
      (i : String) × (middle : List String) × (c ≡ i ∷ (middle ++ i ∷ []))
      × Chain (i ∷ (middle ++ i ∷ []))

  Chain-end :
      (x : String) (xs : List String) (y z : String)
      → Chain (x ∷ (xs ++ y ∷ []))
      → Depends nodes z y
      → Chain (x ∷ (xs ++ y ∷ z ∷ []))
  Chain-end x [] y z c d = (c.0, (d, tt))
  Chain-end x (w ∷ xs) y z c d = (c.0, Chain-end w xs y z c.1 d)

  -- No cycle starts at an accessible node: each turn of the cycle starts at a smaller one.
  pub Acc-no_cycle :
      (x : String) (middle : List String)
      → Acc (Depends nodes) x
      → Chain (x ∷ (middle ++ x ∷ []))
      → ⊥
  Acc-no_cycle x [] (Acc.intro _ smaller) c = Acc-no_cycle x [] (smaller x c.0) c
  Acc-no_cycle x (y ∷ rest) (Acc.intro _ smaller) c =
      Acc-no_cycle y (rest ++ x ∷ []) (smaller y c.0) (
        subst (λ r. Chain (y ∷ r)) (sym (append_assoc rest (x ∷ []) (y ∷ [])))
          (Chain-end y rest x y c.1 c.0))

  Chain-tail : (x : String) (xs : List String) → Chain (x ∷ xs) → Chain xs
  Chain-tail x [] c = tt
  Chain-tail x (y ∷ xs) c = c.1

  -- What the slice of a path and the node give, where the node is on the path.
  slice_from-IsCycle :
      (path : List String) (i : String)
      → Memᴰ i path
      → Chain (path ++ i ∷ [])
      → IsCycle (slice_from i path ++ i ∷ [])
  slice_from-IsCycle [] i m c = elim m [ ]
  slice_from-IsCycle (j ∷ path) i m c = elim (Bool-cases (j == i)) [
    | inl same ↦
        let e : j ≡ i = (eq_iff j i).0 same in
        let start : slice_from i (j ∷ path) ≡ i ∷ path = ground (arith, e) in
        (i, path, ap (λ p. p ++ i ∷ []) start, subst (λ k. Chain (k ∷ (path ++ i ∷ []))) e c)
    | inr other ↦
        let later : slice_from i (j ∷ path) ≡ slice_from i path = ground arith in
        elim (Memᴰ.cases_cons m) [
          | inl same ↦ absurd (ground (arith, (eq_iff j i).1 (sym same)))
          | inr rest ↦
              subst (λ p. IsCycle (p ++ i ∷ [])) (sym later)
                (slice_from-IsCycle path i rest (Chain-tail j (path ++ i ∷ []) c))
        ]
  ]

  -- A search whose visited nodes all stand on a path.
  abbrev On : List String → Search → Type 0
  On path s = (j : String) → has s.visiting j ≡ true → Memᴰ j path

  abbrev CyclesVisit : (String → Search → Option Search) → List String → Type 0
  CyclesVisit f path =
      (i : String) (s t : Search)
      → f i s ≡ some t
      → Chain (path ++ i ∷ [])
      → On path s
      → All IsCycle s.cycles
      → All IsCycle t.cycles

  visit_each_cycles :
      (f : String → Search → Option Search) (known : String → Bool) (path ds : List String)
      (s u : Search)
      → Keeps nodes f
      → CyclesVisit f path
      → ((d : String) → Memᴰ d ds → known d ≡ true → Chain (path ++ d ∷ []))
      → visit_each f known ds s ≡ some u
      → On path s
      → All IsCycle s.cycles
      → All IsCycle u.cycles
  unfolding visit_each
  visit_each_cycles f known path [] s u keeps visits chains h on c =
      let same : s ≡ u = cc in subst (λ (r : Search). All IsCycle r.cycles) same c
  visit_each_cycles f known path (d ∷ ds) s u keeps visits chains h on c =
      elim (Bool-cases (known d)) [
        | inl k ↦
            let (t, first, more) = visit_each_step f known d ds s u h k in
            visit_each_cycles f known path ds t u keeps visits (λ e m. chains e (Memᴰ.tail m)) more
              (λ j now. on j (ap (λ v. has v j) (sym (keeps d s t first)) ∙ now))
              (visits d s t first (chains d (Memᴰ.head refl) k) on c)
        | inr k ↦
            visit_each_cycles f known path ds s u keeps visits (λ e m. chains e (Memᴰ.tail m))
              (ground arith) on c
      ]

  Chain-append :
      (path : List String) (i d : String)
      → Chain (path ++ i ∷ [])
      → Depends nodes d i
      → Chain ((path ++ i ∷ []) ++ d ∷ [])
  Chain-append [] i d c n = (n, tt)
  Chain-append (x ∷ []) i d c n = (c.0, (n, tt))
  Chain-append (x ∷ y ∷ path) i d c n = (c.0, Chain-append (y ∷ path) i d c.1 n)

  visit_cycles : (fuel : ℕ) (path : List String) → CyclesVisit (visit nodes fuel path) path
  unfolding visit
  visit_cycles zero path i s u h chain on c = cc
  visit_cycles (suc fuel) path i s u h chain on c = elim (visit-cases nodes fuel path i s u h) [
    | inl (now, same) ↦
        subst (λ r. All IsCycle r.cycles) (sym same)
          (All-append IsCycle s.cycles ((slice_from i path ++ i ∷ []) ∷ []) c
            (slice_from-IsCycle path i (on i now) chain, tt))
    | inr (inl (done, same)) ↦ subst (λ r. All IsCycle r.cycles) (sym same) c
    | inr (inr (out, (t, deeper, same))) ↦
        subst (λ r. All IsCycle r.cycles) (sym same)
          (visit_each_cycles (visit nodes fuel (path ++ i ∷ [])) (has_node nodes) (path ++ i ∷ [])
            (needs_of nodes i) (enter nodes i s) t (visit-Keeps nodes fuel (path ++ i ∷ []))
            (visit_cycles fuel (path ++ i ∷ []))
            (λ d needed known. Chain-append path i d chain (needed, known)) deeper
            (λ j now. elim (Bool-cases (i == j)) [
              | inl is ↦ Memᴰ.append_right path (Memᴰ.head (sym ((eq_iff i j).0 is)))
              | inr other ↦ Memᴰ.append_left (i ∷ []) (on j (ground arith))
            ])
            c)
  ]

  pub find_cycles-IsCycle : (t : Search) → find_cycles nodes ≡ some t → All IsCycle t.cycles
  unfolding find_cycles
  find_cycles-IsCycle t h =
      visit_each_cycles (visit nodes (suc (length (keys nodes))) []) (λ i. true) [] (keys nodes)
        (no_search nodes) t (visit-Keeps nodes (suc (length (keys nodes))) [])
        (visit_cycles (suc (length (keys nodes))) []) (λ d m k. tt) h (λ j now. cc) tt
