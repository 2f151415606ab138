-- ===== src/Engine/Inputs.antt =====
-- What the validation of a run's inputs accepts (packages/engine/src/engine.ts, `validateInputs`).
use anastom.Prelude.{
  append_empty, String, Bool, true, not, ◌≡◌, ◌↔◌, refl, inl, inr, List, [], ◌∷◌, Option, none,
  some, ok, Dict, lookup, keys, All, arith, Bool-cases,
}
use anastom.Json.{JsonValue}
use anastom.Workflow.Definition.{WorkflowDefinition, WorkflowInputDefinition}
use anastom.Workflow.Scheduler.{select}
use anastom.Engine.Creation.{
  InputError, given_issue, has_key, input_errors, missing, thrown_inputs, unknown, unless_empty,
  validate_inputs, value_issue, value_issues,
}

-- Exactly the declared inputs are given, and each has no errors against its schema.
abbrev pub FitsSchema :
    (JsonValue → JsonValue → List String)
    → Option WorkflowInputDefinition
    → Option JsonValue
    → Type 0
FitsSchema value_errors (some definition) (some value) =
    value_errors definition.reference.schema value ≡ []
FitsSchema value_errors _ _ = Unit {0}

pub record IsValidInput (value_errors : JsonValue → JsonValue → List String)
    (w : WorkflowDefinition) (inputs : Dict JsonValue) : Type 0 where
  pub all_given : All (λ i. has_key inputs i ≡ true) (keys w.inputs)
  pub all_declared : All (λ i. has_key w.inputs i ≡ true) (keys inputs)
  pub all_fit :
      All (λ i. FitsSchema value_errors (lookup i w.inputs) (lookup i inputs)) (keys w.inputs)

unless_empty_iff :
    (e : List String → InputError) (ids : List String) → (unless_empty e ids ≡ []) ↔ (ids ≡ [])
unless_empty_iff e [] = (λ h. refl, λ h. refl)
unless_empty_iff e (i ∷ ids) = (λ h. cc, λ h. cc)

select_empty :
    (p : String → Bool) (ids : List String)
    → (select (λ i. not (p i)) ids ≡ []) ↔ All (λ i. p i ≡ true) ids
unfolding select
select_empty p [] = (λ h. tt, λ h. refl)
select_empty p (i ∷ ids) =
    let (to, from) = select_empty p ids in
    elim (Bool-cases (p i)) [
      | inl holds ↦
          (λ h. (holds, to (ground arith)), λ (h, hs). let none_left = from hs in ground arith)
      | inr fails ↦ (λ h. absurd (ground arith), λ (h, hs). cc)
    ]

value_issue_empty :
    (value_errors : JsonValue → JsonValue → List String) (i : String) (es : List String)
    → (value_issue value_errors i es ≡ []) ↔ (es ≡ [])
value_issue_empty value_errors i [] = (λ h. refl, λ h. refl)
value_issue_empty value_errors i (e ∷ es) = (λ h. cc, λ h. cc)

given_issue_empty :
    (value_errors : JsonValue → JsonValue → List String) (i : String)
    (definition : Option WorkflowInputDefinition) (value : Option JsonValue)
    → (given_issue value_errors i definition value ≡ []) ↔ FitsSchema value_errors definition value
given_issue_empty value_errors i none value = (λ h. tt, λ h. refl)
given_issue_empty value_errors i (some definition) none = (λ h. tt, λ h. refl)
given_issue_empty value_errors i (some definition) (some value) = value_issue_empty value_errors i _

value_issues_empty :
    (value_errors : JsonValue → JsonValue → List String) (declared : Dict WorkflowInputDefinition)
    (inputs : Dict JsonValue) (ids : List String)
    → (value_issues value_errors declared inputs ids ≡ [])
      ↔ All (λ i. FitsSchema value_errors (lookup i declared) (lookup i inputs)) ids
unfolding value_issues
value_issues_empty value_errors declared inputs [] = (λ h. tt, λ h. refl)
value_issues_empty value_errors declared inputs (i ∷ ids) =
    let (to, from) = value_issues_empty value_errors declared inputs ids in
    let (one_to, one_from) =
      given_issue_empty value_errors i (lookup i declared) (lookup i inputs) in
    (
      λ h. let (one, rest) = (append_empty _ _).0 h in (one_to one, to rest),
      λ (one, rest). (append_empty _ _).1 (one_from one, from rest),
    )

thrown_inputs_iff :
    (value_errors : JsonValue → JsonValue → List String) (es : List InputError)
    → (thrown_inputs value_errors es ≡ ok tt) ↔ (es ≡ [])
thrown_inputs_iff value_errors [] = (λ h. refl, λ h. refl)
thrown_inputs_iff value_errors (e ∷ es) = (λ h. cc, λ h. cc)

-- The validation of the inputs returns without an error exactly if every declared input is given,
-- every given input is declared, and each of them has no errors against its schema.
pub validate_inputs_iff :
    (value_errors : JsonValue → JsonValue → List String) (w : WorkflowDefinition)
    (inputs : Dict JsonValue)
    → (validate_inputs value_errors w inputs ≡ ok tt) ↔ IsValidInput value_errors w inputs
unfolding validate_inputs input_errors
validate_inputs_iff value_errors w inputs =
    let (given_to, given_from) = select_empty (has_key inputs) (keys w.inputs) in
    let (declared_to, declared_from) = select_empty (has_key w.inputs) (keys inputs) in
    let (fit_to, fit_from) = value_issues_empty value_errors w.inputs inputs (keys w.inputs) in
    (
      λ h.
          let (one, more) = (append_empty _ _).0 ((thrown_inputs_iff value_errors _).0 h) in
          let (two, three) = (append_empty _ _).0 more in
          record {
            all_given = given_to ((unless_empty_iff missing _).0 one);
            all_declared = declared_to ((unless_empty_iff unknown _).0 two);
            all_fit = fit_to three;
          },
      λ v. (thrown_inputs_iff value_errors _).1 (
          (append_empty _ _).1 (
            (unless_empty_iff missing _).1 (given_from v.all_given),
            (append_empty _ _).1
                ((unless_empty_iff unknown _).1 (declared_from v.all_declared), fit_from v.all_fit),
          )),
    )
