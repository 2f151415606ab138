-- ===== src/Task/Markdown.antt =====
-- Task files (packages/core/src/task.ts, `parseTaskMarkdown`), over code points.
use anastom.Prelude.{
  ℕ, zero, suc, ◌+◌, ◌≤◌, ◌≡◌, ◌≢◌, ◌∙◌, refl, ap, inl, inr, Bool, true, false, not, ◌&&◌, List, [],
  ◌∷◌, ◌++◌, Option, none, some, Result, ok, ◌>>=◌, ◌>>◌, guard, or_throw, All, length,
  length-append, Bool-cases, Option-cases, ◌==◌, number_equality, nat_beq_iff, arith, if◌then◌else◌,
}
use mathlib.Core.List.{append_assoc}

-- The messages of a `WorkflowValidationError`; `invalid_fields` are the errors of the compiled schema.
pub data TaskError : Type 0 where
  no_front_matter invalid_yaml invalid_fields empty_objective : TaskError

-- `text.indexOf("\n", cursor)`: the line in front of the first newline, and what follows it.
unfoldable pub next_line : List ℕ → Option (List ℕ × List ℕ)
next_line [] = none
next_line (c ∷ cs) =
    let rest = next_line cs in
    if c == 10
    then some ([], cs)
    else elim rest [ none ↦ none | some (line, after) ↦ some (c ∷ line, after) ]

abbrev pub is_dashes : List ℕ → Bool
is_dashes (a ∷ b ∷ c ∷ []) = a == b'-' && b == b'-' && c == b'-'
is_dashes (a ∷ b ∷ c ∷ d ∷ []) = a == b'-' && b == b'-' && c == b'-' && d == 13
is_dashes _ = false

-- The loop over the lines: the lines in front of the closing delimiter, and what follows it. Each
-- round takes a newline, so that the length of the text is enough fuel.
unfoldable pub find_closing : ℕ → List ℕ → Option (List ℕ × List ℕ)
unfolding next_line
find_closing zero text = none
find_closing (suc fuel) text = elim (next_line text) [
  | none ↦ none
  | some (line, after) ↦
      let more = find_closing fuel after in
      if is_dashes line
      then some ([], after)
      else elim more [ none ↦ none | some (front, body) ↦ some (line ++ 10 ∷ front, body) ]
]

-- A byte order mark in front is dropped.
abbrev pub without_mark : List ℕ → List ℕ
without_mark [] = []
without_mark (c ∷ cs) = if c == 65_279 then cs else c ∷ cs

abbrev pub closed : Option (List ℕ × List ℕ) → Option (List ℕ × List ℕ)
closed none = none
closed (some (line, after)) = if is_dashes line then find_closing (length after) after else none

-- The front matter and the text behind it.
unfoldable pub split_front_matter : List ℕ → Option (List ℕ × List ℕ)
unfolding find_closing
split_front_matter source = closed (next_line (without_mark source))

-- `read_front` stands for the YAML parser and the compiled schema, and `trim` for `String.trim`.
module _ {Front : Type 0} (read_front : List ℕ → Result TaskError Front)
    (trim : List ℕ → List ℕ) where
  abbrev is_blank : List ℕ → Bool
  is_blank [] = true
  is_blank (c ∷ cs) = false

  unfoldable pub parse_task_markdown : List ℕ → Result TaskError (Front × List ℕ)
  unfolding split_front_matter
  parse_task_markdown source = do
    parts ← or_throw (split_front_matter source) TaskError.no_front_matter
    front ← read_front parts.0
    guard (not (is_blank (trim parts.1))) TaskError.empty_objective
    ok (front, trim parts.1)

next_line-length :
    (text : List ℕ) {line after : List ℕ}
    → next_line text ≡ some (line, after)
    → length after + 1 ≤ length text
unfolding next_line
next_line-length [] h = cc
next_line-length (c ∷ cs) {line} {after} h = elim (Bool-cases (c == 10)) [
  | inl newline ↦ let same : cs ≡ after = ground arith in omega (arith, ap length same)
  | inr inner ↦ elim (Option-cases (next_line cs)) [
    | inl none_left ↦ absurd (ground arith)
    | inr ((first, rest), found) ↦
        let same : rest ≡ after = ground arith in
        omega (arith, ap length same, next_line-length cs found)
  ]
]

-- More fuel than there are code points finds the same.
find_closing_enough :
    (fuel more : ℕ) (text : List ℕ)
    → length text ≤ fuel
    → length text ≤ more
    → find_closing fuel text ≡ find_closing more text
unfolding find_closing
find_closing_enough zero zero text h k = refl
find_closing_enough zero (suc more) [] h k = refl
find_closing_enough zero (suc more) (c ∷ cs) h k = absurd (omega arith)
find_closing_enough (suc fuel) zero [] h k = refl
find_closing_enough (suc fuel) zero (c ∷ cs) h k = absurd (omega arith)
find_closing_enough (suc fuel) (suc more) text h k = elim (Option-cases (next_line text)) [
  | inl none_left ↦ ground (arith, none_left)
  | inr ((line, after), found) ↦
      let shorter = next_line-length text found in
      let same =
        find_closing_enough fuel more after (omega (arith, shorter)) (omega (arith, shorter)) in
      ground (arith, found, same)
]

-- Lines, each closed by a newline.
abbrev pub unlines : List (List ℕ) → List ℕ
unlines [] = []
unlines (line ∷ lines) = line ++ 10 ∷ unlines lines

abbrev pub HasNoNewline : List ℕ → Type 0
HasNoNewline line = All (λ c. c ≢ 10) line

next_line-append :
    (line after : List ℕ) → HasNoNewline line → next_line (line ++ 10 ∷ after) ≡ some (line, after)
unfolding next_line
next_line-append [] after h = refl
next_line-append (c ∷ line) after (other, h) =
    let differs : (c == 10) ≡ false = elim (Bool-cases (c == 10)) [
      | inl same ↦ absurd (other ((nat_beq_iff c 10).0 same))
      | inr distinct_codes ↦ distinct_codes
    ] in
    let rest = next_line-append line after h in ground (arith, differs, rest)

-- A line of front matter.
abbrev pub IsInner : List ℕ → Type 0
IsInner line = HasNoNewline line × (is_dashes line ≡ false)

abbrev delimiter : List ℕ
delimiter = b'-' ∷ b'-' ∷ b'-' ∷ []

find_closing-unlines :
    (fuel : ℕ) (lines : List (List ℕ)) (body : List ℕ)
    → All IsInner lines
    → length (unlines lines) + 4 ≤ fuel
    → find_closing fuel (unlines lines ++ b'-' ∷ b'-' ∷ b'-' ∷ 10 ∷ body)
      ≡ some (unlines lines, body)
unfolding find_closing
find_closing-unlines zero lines body h enough = absurd (omega arith)
find_closing-unlines (suc fuel) [] body h enough = refl
find_closing-unlines (suc fuel) (line ∷ lines) body ((whole, inner), h) enough =
    let text = unlines lines ++ b'-' ∷ b'-' ∷ b'-' ∷ 10 ∷ body in
    let split : next_line ((line ++ 10 ∷ unlines lines) ++ b'-' ∷ b'-' ∷ b'-' ∷ 10 ∷ body)
        ≡ some (line, text) =
      ap next_line (append_assoc line (10 ∷ unlines lines) (b'-' ∷ b'-' ∷ b'-' ∷ 10 ∷ body))
      ∙ next_line-append line text whole in
    let rest =
      find_closing-unlines fuel lines body h
        (omega (arith, length-append line (10 ∷ unlines lines))) in
    ground (arith, split, rest, inner)

-- Front matter between its delimiters is split off exactly as it was written, and the text behind it
-- is the body, if no line of the front matter is itself a delimiter; the lines have no newlines.
pub split_front_matter-unlines :
    (lines : List (List ℕ)) (body : List ℕ)
    → All IsInner lines
    → split_front_matter
        (b'-' ∷ b'-' ∷ b'-' ∷ 10 ∷ (unlines lines ++ b'-' ∷ b'-' ∷ b'-' ∷ 10 ∷ body))
      ≡ some (unlines lines, body)
unfolding split_front_matter next_line
split_front_matter-unlines lines body h =
    find_closing-unlines _ lines body h
      (omega (arith, length-append (unlines lines) (b'-' ∷ b'-' ∷ b'-' ∷ 10 ∷ body)))
