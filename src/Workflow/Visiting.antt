-- ===== src/Workflow/Visiting.antt =====
-- The search returns, and the cycles that it reports are cycles (packages/core/src/workflow.ts).
use anastom.Prelude.{
  ℕ, zero, suc, ◌≤◌, ◌<◌, String, Bool, true, false, ◌≡◌, ◌∙◌, refl, sym, ap, inl, inr, Bool-cases,
  Option-cases, List, [], ◌∷◌, ◌++◌, Option, some, Dict, lookup, keys, length, ◌==◌, text_equality,
  eq_iff, arith, if◌then◌else◌,
}
use mathlib.Core.List.{Memᴰ}
use anastom.Workflow.Document.{WorkflowNodeDocument, needs_of}
use anastom.Workflow.Search.{
  Search, delete, enter, find_cycles, has, has_node, leave, no_search, report, visit, visit_each,
}
use anastom.Workflow.Visits.{visit-cases, visit_each_step}

-- How many of the nodes are not being visited.
abbrev free : List String → List String → ℕ
free [] visiting = 0
free (k ∷ ks) visiting = if has visiting k then free ks visiting else suc (free ks visiting)

free_le : (ks visiting : List String) (i : String) → free ks (i ∷ visiting) ≤ free ks visiting
free_le [] visiting i = omega arith
free_le (k ∷ ks) visiting i = ground (arith, free_le ks visiting i)

free_lt :
    (ks visiting : List String) (i : String)
    → Memᴰ i ks
    → has visiting i ≡ false
    → free ks (i ∷ visiting) < free ks visiting
free_lt [] visiting i m out = elim m [ ]
free_lt (k ∷ ks) visiting i (Memᴰ.head same) out =
    let taken : has visiting k ≡ false = ap (has visiting) (sym same) ∙ out in
    let equal = (eq_iff i k).1 same in ground (arith, free_le ks visiting i)
free_lt (k ∷ ks) visiting i (Memᴰ.tail m) out = ground (arith, free_lt ks visiting i m out)

free-le-length : (ks visiting : List String) → free ks visiting ≤ length ks
free-le-length [] visiting = omega arith
free-le-length (k ∷ ks) visiting = ground (arith, free-le-length ks visiting)

Mem-keys : {A : Type 0} (m : Dict A) (i : String) {a : A} → lookup i m ≡ some a → Memᴰ i (keys m)
Mem-keys [] i h = cc
Mem-keys ((j, b) ∷ m) i {a} h = elim (Bool-cases (j == i)) [
  | inl same ↦ Memᴰ.head (sym ((eq_iff j i).0 same))
  | inr other ↦ Memᴰ.tail (Mem-keys m i {a = a} (ground arith))
]

module _ (nodes : Dict WorkflowNodeDocument) where
  pub Mem-has_node : (i : String) → has_node nodes i ≡ true → Memᴰ i (keys nodes)
  Mem-has_node i h = elim (Option-cases (lookup i nodes)) [
    | inl missing ↦ absurd (ground arith)
    | inr (n, found) ↦ Mem-keys nodes i found
  ]

  delete_entered : (i : String) (ids : List String) → delete i (i ∷ ids) ≡ ids
  delete_entered i ids = ground (arith, eq_iff i i)

  -- A visit gives the nodes being visited back as they were.
  abbrev pub Keeps : (String → Search → Option Search) → Type 0
  Keeps f = (i : String) (s t : Search) → f i s ≡ some t → t.visiting ≡ s.visiting

  pub visit_each-Keeps :
      (f : String → Search → Option Search) (known : String → Bool) (ds : List String)
      (s u : Search)
      → Keeps f
      → visit_each f known ds s ≡ some u
      → u.visiting ≡ s.visiting
  unfolding visit_each
  visit_each-Keeps f known [] s u keeps h = cc
  visit_each-Keeps f known (d ∷ ds) s u keeps h = elim (Bool-cases (known d)) [
    | inl k ↦
        let (t, first, more) = visit_each_step f known d ds s u h k in
        visit_each-Keeps f known ds t u keeps more ∙ keeps d s t first
    | inr k ↦ visit_each-Keeps f known ds s u keeps (ground arith)
  ]

  pub visit-Keeps : (fuel : ℕ) (path : List String) → Keeps (visit nodes fuel path)
  unfolding visit
  visit-Keeps zero path i s u h = cc
  visit-Keeps (suc fuel) path i s u h = elim (visit-cases nodes fuel path i s u h) [
    | inl (now, same) ↦ ap (λ r. r.visiting) same
    | inr (inl (done, same)) ↦ ap (λ r. r.visiting) same
    | inr (inr (out, (t, deeper, same))) ↦
        ap (λ r. r.visiting) same
        ∙ ap (delete i) (
            visit_each-Keeps (visit nodes fuel (path ++ i ∷ [])) (has_node nodes) (needs_of nodes i)
              (enter nodes i s) t (visit-Keeps fuel (path ++ i ∷ [])) deeper)
        ∙ delete_entered i s.visiting
  ]

  -- A visit that has fuel for the nodes that are not being visited returns.
  abbrev Returns : (String → Search → Option Search) → List String → Type 0
  Returns f visiting =
      (i : String) (s : Search)
      → Memᴰ i (keys nodes)
      → s.visiting ≡ visiting
      → (t : Search) × (f i s ≡ some t)

  visit_each-Returns :
      (f : String → Search → Option Search) (known : String → Bool) (visiting ds : List String)
      (s : Search)
      → Keeps f
      → Returns f visiting
      → ((d : String) → Memᴰ d ds → known d ≡ true → Memᴰ d (keys nodes))
      → s.visiting ≡ visiting
      → (t : Search) × (visit_each f known ds s ≡ some t)
  unfolding visit_each
  visit_each-Returns f known visiting [] s keeps returns are same = (s, refl)
  visit_each-Returns f known visiting (d ∷ ds) s keeps returns are same =
      elim (Bool-cases (known d)) [
        | inl k ↦
            let (t, first) = returns d s (are d (Memᴰ.head refl) k) same in
            let (u, more) =
              visit_each-Returns f known visiting ds t keeps returns (λ c m. are c (Memᴰ.tail m))
                (keeps d s t first ∙ same) in
            (u, ground arith)
        | inr k ↦
            let (u, more) =
              visit_each-Returns f known visiting ds s keeps returns (λ c m. are c (Memᴰ.tail m))
                same in
            (u, ground arith)
      ]

  visit-Returns :
      (fuel : ℕ) (path visiting : List String)
      → free (keys nodes) visiting < fuel
      → Returns (visit nodes fuel path) visiting
  unfolding visit
  visit-Returns zero path visiting few i s m same = absurd (omega arith)
  visit-Returns (suc fuel) path visiting few i s m same = elim (Bool-cases (has s.visiting i)) [
    | inl now ↦ (report nodes path i s, ground arith)
    | inr out ↦
        let less : free (keys nodes) (i ∷ visiting) < free (keys nodes) visiting =
          free_lt (keys nodes) visiting i m (ap (λ v. has v i) (sym same) ∙ out) in
        let (t, deeper) =
          visit_each-Returns (visit nodes fuel (path ++ i ∷ [])) (has_node nodes) (i ∷ visiting)
            (needs_of nodes i) (enter nodes i s) (visit-Keeps fuel (path ++ i ∷ []))
            (visit-Returns fuel (path ++ i ∷ []) (i ∷ visiting) (omega arith))
            (λ d needed known. Mem-has_node d known) (ap (λ v. i ∷ v) same) in
        elim (Bool-cases (has s.visited i)) [
          | inl done ↦ (s, ground arith)
          | inr new ↦ (leave nodes i t, ground arith)
        ]
  ]

  -- The search of all nodes returns: the fuel of one more than the number of nodes is enough.
  pub find_cycles_returns : (t : Search) × (find_cycles nodes ≡ some t)
  unfolding find_cycles
  find_cycles_returns =
      visit_each-Returns (visit nodes (suc (length (keys nodes))) []) (λ i. true) [] (keys nodes)
        (no_search nodes) (visit-Keeps (suc (length (keys nodes))) [])
        (visit-Returns (suc (length (keys nodes))) [] []
          (omega (arith, free-le-length (keys nodes) [])))
        (λ d m k. m) refl
