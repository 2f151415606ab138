-- ===== src/Workflow/Durations.antt =====
-- Durations and attempt budgets (packages/core/src/workflow.ts, `durationToMilliseconds` and
-- `normalizeBudget`).
use anastom.Prelude.{
  ℕ, ◌+◌, ◌-◌, ◌*◌, String, Bool, ◌&&◌, List, [], ◌∷◌, Option, none, some, Result, ok, ◌>>=◌, ◌>>◌,
  guard, or_throw, leb, ◌==◌, number_equality, if◌then◌else◌,
}
use anastom.Store.Checks.{codes, is_safe}
use anastom.Workflow.Definition.{AttemptBudget}
use anastom.Workflow.Document.{AttemptPolicyDocument}

-- The messages of a `WorkflowValidationError` behind the semantic validation.
pub data NormalizationError : Type 0 where
  invalid_duration duration_range : NormalizationError
  remote_reference schema_unreadable : String → NormalizationError

abbrev pub Normalized : Type 0 → Type 0
Normalized A = Result NormalizationError A

abbrev pub is_digit : ℕ → Bool
is_digit c = leb b'0' c && leb c b'9'

-- `/^(\d+)(ms|s|m|h)$/`: the value of the digits that were read, if there are any, and what follows.
-- The source reads the digits as a floating-point number, which is exact up to the range that is
-- accepted, and stays above it beyond.
unfoldable pub read_digits : Option ℕ → List ℕ → Option ℕ × List ℕ
read_digits value [] = (value, [])
read_digits value (c ∷ cs) =
    let before : ℕ = elim value [ none ↦ 0 | some n ↦ n ] in
    let more = read_digits (some (before * 10 + (c - b'0'))) cs in
    if is_digit c then more else (value, c ∷ cs)

abbrev pub unit_of : List ℕ → Option ℕ
unit_of (c ∷ []) =
    if c == b's'
    then some 1_000
    else if c == b'm'
    then some 60_000
    else if c == b'h'
    then some 3_600_000
    else none
unit_of (c ∷ d ∷ []) = if c == b'm' && d == b's' then some 1 else none
unit_of _ = none

abbrev product : Option ℕ → Option ℕ → Option ℕ
product (some value) (some unit) = some (value * unit)
product _ _ = none

unfoldable pub milliseconds : List ℕ → Option ℕ
unfolding read_digits
milliseconds cs = let (value, rest) = read_digits none cs in product value (unit_of rest)

unfoldable pub duration_to_milliseconds : String → Normalized ℕ
duration_to_milliseconds t = do
  n ← or_throw (milliseconds (codes t)) NormalizationError.invalid_duration
  guard (is_safe n && leb n 2_147_483_647) NormalizationError.duration_range
  ok n

abbrev pub or_else : Option ℕ → ℕ → ℕ
or_else none d = d
or_else (some n) d = n

abbrev policy_attempts : Option AttemptPolicyDocument → Option ℕ
policy_attempts none = none
policy_attempts (some p) = p.max_attempts

abbrev policy_duration : Option AttemptPolicyDocument → Option String
policy_duration none = none
policy_duration (some p) = p.max_duration

abbrev fallback_attempts : Option AttemptBudget → Option ℕ
fallback_attempts none = none
fallback_attempts (some b) = some b.max_attempts

abbrev fallback_duration : Option AttemptBudget → Option ℕ
fallback_duration none = none
fallback_duration (some b) = b.max_duration_ms

abbrev duration_or : Option ℕ → Option String → Normalized (Option ℕ)
duration_or fallback none = ok fallback
duration_or fallback (some t) = do n ← duration_to_milliseconds t; ok (some n)

unfoldable pub normalize_budget :
    Option AttemptPolicyDocument → Option AttemptBudget → Normalized AttemptBudget
normalize_budget policy fallback = do
  duration ← duration_or (fallback_duration fallback) (policy_duration policy)
  ok (record {
    max_attempts = or_else (policy_attempts policy) (or_else (fallback_attempts fallback) 1);
    max_duration_ms = duration;
  })
