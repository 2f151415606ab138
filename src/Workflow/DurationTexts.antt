-- ===== src/Workflow/DurationTexts.antt =====
-- What a duration text means (packages/core/src/workflow.ts, `durationToMilliseconds`).
use anastom.Prelude.{
  ℕ, zero, suc, ◌+◌, ◌-◌, ◌*◌, ◌/◌, ◌%◌, ◌<◌, String, true, ◌≡◌, ◌∙◌, refl, ap, List, [], ◌∷◌, ◌++◌,
  Option, none, some, ok, err, All, All-append, leb, ltb, number_equality, if◌then◌else◌, arith,
  Bool-cases, inl, inr,
}
use anastom.Store.Checks.{codes, is_safe}
use anastom.Workflow.Durations.{
  NormalizationError, duration_to_milliseconds, is_digit, milliseconds, read_digits, unit_of,
}

pub data DurationUnit : Type 0 where
  millis seconds minutes hours : DurationUnit

abbrev pub unit_text : DurationUnit → List ℕ
unit_text DurationUnit.millis = b'm' ∷ b's' ∷ []
unit_text DurationUnit.seconds = b's' ∷ []
unit_text DurationUnit.minutes = b'm' ∷ []
unit_text DurationUnit.hours = b'h' ∷ []

abbrev pub unit_length : DurationUnit → ℕ
unit_length DurationUnit.millis = 1
unit_length DurationUnit.seconds = 1_000
unit_length DurationUnit.minutes = 60 * 1_000
unit_length DurationUnit.hours = 60 * 60 * 1_000

-- The decimal digits of a number, most significant first, with fuel above the number.
unfoldable pub decimal : ℕ → ℕ → List ℕ
decimal zero n = []
decimal (suc f) n =
    let more = decimal f (n / 10) ++ (b'0' + n % 10) ∷ [] in
    if ltb n 10 then (b'0' + n) ∷ [] else more

-- The value of digits behind those that were read.
horner : Option ℕ → List ℕ → Option ℕ
horner value [] = value
horner value (c ∷ cs) = horner (some (elim value [ none ↦ 0 | some n ↦ n ] * 10 + (c - b'0'))) cs

abbrev IsDigit : ℕ → Type 0
IsDigit c = is_digit c ≡ true

read_digits-append :
    (value : Option ℕ) (xs : List ℕ) (u : DurationUnit)
    → All IsDigit xs
    → read_digits value (xs ++ unit_text u) ≡ (horner value xs, unit_text u)
unfolding read_digits horner
read_digits-append value [] DurationUnit.millis h = refl
read_digits-append value [] _ h = refl
read_digits-append value (c ∷ cs) u h =
    let digit : is_digit c ≡ true = h.0 in
    rw digit
      (read_digits-append (some (elim value [ none ↦ 0 | some n ↦ n ] * 10 + (c - b'0'))) cs u h.1)

horner-append :
    (value : Option ℕ) (xs : List ℕ) (c n : ℕ)
    → horner value xs ≡ some n
    → horner value (xs ++ c ∷ []) ≡ some (n * 10 + (c - b'0'))
unfolding horner
horner-append value [] c n h = rw h refl
horner-append value (x ∷ xs) c n h =
    horner-append (some (elim value [ none ↦ 0 | some m ↦ m ] * 10 + (x - b'0'))) xs c n h

decimal-IsDigit : (f n : ℕ) → All IsDigit (decimal f n)
unfolding decimal
decimal-IsDigit zero n = tt
decimal-IsDigit (suc f) n = elim (Bool-cases (ltb n 10)) [
  | inl small ↦ rw small (ground arith, tt)
  | inr large ↦ rw large (
      All-append IsDigit (decimal f (n / 10)) ((b'0' + n % 10) ∷ []) (decimal-IsDigit f (n / 10))
        (ground arith, tt))
]

horner-decimal : (f n : ℕ) → n < f → horner none (decimal f n) ≡ some n
unfolding decimal
horner-decimal zero n h = elim h [ ]
horner-decimal (suc f) n h = elim (Bool-cases (ltb n 10)) [
  | inl small ↦ rw small (unfold horner in ap some (omega arith))
  | inr large ↦ rw large (
      horner-append none (decimal f (n / 10)) (b'0' + n % 10) (n / 10)
        (horner-decimal f (n / 10) (ground arith))
      ∙ ap some (omega arith))
]

unit_of-unit_text : (u : DurationUnit) → unit_of (unit_text u) ≡ some (unit_length u)
unit_of-unit_text DurationUnit.millis = refl
unit_of-unit_text _ = refl

milliseconds-decimal :
    (n : ℕ) (u : DurationUnit)
    → milliseconds (decimal (suc n) n ++ unit_text u) ≡ some (n * unit_length u)
unfolding milliseconds
milliseconds-decimal n u =
    rw
      (
        read_digits-append none (decimal (suc n) n) u (decimal-IsDigit (suc n) n),
        horner-decimal (suc n) n (omega arith),
        unit_of-unit_text u,
      )
      refl

-- A duration that is written as a number in decimal digits and a unit is that many units, in
-- milliseconds, if a timer takes as many (at most 2147483647), and a range error otherwise.
pub duration_to_milliseconds-decimal :
    (t : String) (n : ℕ) (u : DurationUnit)
    → codes t ≡ decimal (suc n) n ++ unit_text u
    → duration_to_milliseconds t ≡ (
        if leb (n * unit_length u) 2_147_483_647
        then ok (n * unit_length u)
        else err NormalizationError.duration_range)
unfolding duration_to_milliseconds is_safe
duration_to_milliseconds-decimal t n u written =
    rw (written, milliseconds-decimal n u) (ground arith)
