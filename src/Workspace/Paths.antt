-- ===== src/Workspace/Paths.antt =====
-- Children of a trusted root (packages/path-policy/src/index.ts, `resolveExistingChild`). Paths are
-- lists of code points.
use anastom.Prelude.{
  ℕ, Bool, true, false, not, ◌&&◌, ◌||◌, ◌≡◌, ◌⊎◌, refl, sym, subst, inl, inr, List, [], ◌∷◌, ◌++◌,
  Option, none, some, Result, ok, ◌>>=◌, ◌>>◌, guard, or_throw, any, get_last?, Bool-cases,
  Option-cases, ◌==◌, number_equality, nat_beq_iff, arith, if◌then◌else◌,
}

pub data FileType : Type 0 where
  file directory : FileType

-- What `stat` finds.
pub data FileKind : Type 0 where
  regular folder other : FileKind

-- The reason of a `PathPolicyError`, or an error of `realpath` and `stat`.
pub data PathError : Type 0 where
  outside_root invalid wrong_type not_found : PathError

abbrev same_path : List ℕ → List ℕ → Bool
same_path [] [] = true
same_path (c ∷ cs) (d ∷ ds) = c == d && same_path cs ds
same_path _ _ = false

-- `path.startsWith(prefix)`.
unfoldable pub starts_with : List ℕ → List ℕ → Bool
starts_with [] path = true
starts_with (c ∷ cs) [] = false
starts_with (c ∷ cs) (d ∷ ds) = c == d && starts_with cs ds

abbrev is_separator : Option ℕ → Bool
is_separator none = false
is_separator (some c) = c == b'/'

abbrev pub boundary : List ℕ → List ℕ
boundary root = if is_separator (get_last? root) then root else root ++ b'/' ∷ []

abbrev pub is_invalid : List ℕ → Bool
is_invalid [] = true
is_invalid (c ∷ cs) = any (λ d. d == 0) (c ∷ cs)

abbrev is_directory : FileType → Bool
is_directory directory = true
is_directory file = false

abbrev pub has_type : FileKind → FileType → Bool
has_type regular file = true
has_type folder directory = true
has_type _ _ = false

-- `resolve`, and `realpath` and `stat` where they do not throw.
module _ (resolve : List ℕ → List ℕ → List ℕ) (realpath : List ℕ → Option (List ℕ))
    (stat : List ℕ → Option FileKind) where
  abbrev existing : List ℕ → List ℕ → FileType → Result PathError (List ℕ)
  existing root lexical expected = do
    guard (starts_with (boundary root) lexical) outside_root
    canonical ← or_throw (realpath lexical) not_found
    guard (same_path canonical root || starts_with (boundary root) canonical) outside_root
    kind ← or_throw (stat canonical) not_found
    guard (has_type kind expected) wrong_type
    ok canonical

  unfoldable pub resolve_existing_child : List ℕ → List ℕ → FileType → Result PathError (List ℕ)
  unfolding starts_with
  resolve_existing_child root input expected = do
    guard (not (is_invalid input)) invalid
    let lexical = resolve root input
    if same_path lexical root
        then (do guard (is_directory expected) wrong_type; ok root)
        else existing root lexical expected

-- The path is the root, or it continues the root behind a separator.
abbrev pub IsInside : List ℕ → List ℕ → Type 0
IsInside root path = (path ≡ root) ⊎ ((rest : List ℕ) × (path ≡ boundary root ++ rest))

starts_with_lem :
    (front path : List ℕ) → starts_with front path ≡ true → (rest : List ℕ) × (path ≡ front ++ rest)
unfolding starts_with
starts_with_lem [] path h = (path, refl)
starts_with_lem (c ∷ cs) [] h = cc
starts_with_lem (c ∷ cs) (d ∷ ds) h =
    let (rest, e) = starts_with_lem cs ds (ground arith) in
    let same : c ≡ d = (nat_beq_iff c d).0 (ground arith) in (rest, cc)

same_path_lem : (cs ds : List ℕ) → same_path cs ds ≡ true → cs ≡ ds
same_path_lem [] [] h = refl
same_path_lem [] (d ∷ ds) h = cc
same_path_lem (c ∷ cs) [] h = cc
same_path_lem (c ∷ cs) (d ∷ ds) h =
    let rest = same_path_lem cs ds (ground arith) in
    let same : c ≡ d = (nat_beq_iff c d).0 (ground arith) in cc

module _ (resolve : List ℕ → List ℕ → List ℕ) (realpath : List ℕ → Option (List ℕ))
    (stat : List ℕ → Option FileKind) where
  existing-eq-ok :
      (root lexical path : List ℕ) (expected : FileType)
      → existing resolve realpath stat root lexical expected ≡ ok path
      → (kind : FileKind) × (same_path path root || starts_with (boundary root) path ≡ true)
        × (stat path ≡ some kind)
        × (has_type kind expected ≡ true)
  existing-eq-ok root lexical path expected h = elim (Option-cases (realpath lexical)) [
    | inl missing ↦ absurd (ground arith)
    | inr (canonical, real) ↦ elim (Option-cases (stat canonical)) [
      | inl gone ↦ absurd (ground arith)
      | inr (kind, found) ↦
          let same : canonical ≡ path = ground arith in
          let inside : same_path canonical root || starts_with (boundary root) canonical ≡ true =
            ground arith in
          (
            kind,
            subst (λ p. same_path p root || starts_with (boundary root) p ≡ true) same inside,
            subst (λ p. stat p ≡ some kind) same found,
            ground arith,
          )
    ]
  ]

  -- Whatever the file system answers: a path that is returned is the root or lies behind it, and it
  -- has the expected type, where the root itself is returned for a directory; a symbolic link cannot
  -- lead outside.
  pub resolve_existing_child-IsInside :
      (root input path : List ℕ) (expected : FileType)
      → resolve_existing_child resolve realpath stat root input expected ≡ ok path
      → IsInside root path
        × (((path ≡ root) × (expected ≡ directory))
            ⊎ ((kind : FileKind) × (stat path ≡ some kind) × (has_type kind expected ≡ true)))
  unfolding resolve_existing_child
  resolve_existing_child-IsInside root input path expected h =
      elim (Bool-cases (same_path (resolve root input) root)) [
        | inl at_root ↦
            let same : root ≡ path = ground arith in
            let wanted : expected ≡ directory = ground arith in
            (inl (sym same), inl (sym same, wanted))
        | inr below ↦
            let (kind, inside, found, fits) =
              existing-eq-ok root (resolve root input) path expected (ground arith) in
            (
              elim (Bool-cases (same_path path root)) [
                | inl equal ↦ inl (same_path_lem path root equal)
                | inr differs ↦ inr (starts_with_lem (boundary root) path (ground arith))
              ],
              inr (kind, found, fits),
            )
      ]
