-- ===== src/Task/Tests.antt =====
-- A task of one command, and the theorems at it.
use anastom.Prelude.{ℕ, false, ◌≡◌, ◌↔◌, refl, List, [], ◌∷◌, ◌++◌, none, some, ok, arith}
use anastom.Store.Checks.{codes}
use anastom.Workflow.Definition.{Mutation}
use anastom.Workflow.Search.{find_cycles}
use anastom.Workflow.Semantics.{assert_semantic_validity, cwd_escapes_root, escapes}
use anastom.Task.Compilation.{TaskDocument, task_document, task_document_iff}
use anastom.Task.Markdown.{next_line, split_front_matter, split_front_matter-unlines, unlines}

abbrev fix_task : TaskDocument
fix_task = record {
  id = "fix";
  version = "1";
  role = "builder";
  mutation = Mutation.isolated;
  acceptance_criteria = "tests pass" ∷ [];
  verification = record {
    argv = "npm" ∷ "test" ∷ [];
    cwd = some "packages";
    max_duration = "5m";
    max_output_bytes = none;
  };
  attempt_policy = none;
  objective = "Fix the test";
}

fix_task_accepted :
    assert_semantic_validity (task_document "worker" "command" fix_task) ≡ some (ok tt)
unfolding assert_semantic_validity find_cycles escapes codes
fix_task_accepted = refl

task_document_iff_example :
    (assert_semantic_validity (task_document "worker" "command" fix_task) ≡ some (ok tt))
    ↔ (cwd_escapes_root fix_task.verification.cwd ≡ false)
task_document_iff_example = task_document_iff "worker" "command" fix_task

abbrev front_lines : List (List ℕ)
front_lines = (b'a' ∷ []) ∷ (b'-' ∷ b'-' ∷ []) ∷ []

abbrev body_text : List ℕ
body_text = b'b' ∷ 10 ∷ []

split_front_matter-unlines_example :
    split_front_matter
      (b'-' ∷ b'-' ∷ b'-' ∷ 10 ∷ (unlines front_lines ++ b'-' ∷ b'-' ∷ b'-' ∷ 10 ∷ body_text))
    ≡ some (unlines front_lines, body_text)
split_front_matter-unlines_example = split_front_matter-unlines front_lines body_text (
  ((λ h. omega (arith, h), tt), refl),
  (((λ h. omega (arith, h), (λ h. omega (arith, h), tt)), refl), tt),
)

never_closed : split_front_matter (b'-' ∷ b'-' ∷ b'-' ∷ 10 ∷ b'a' ∷ 10 ∷ []) ≡ none
unfolding split_front_matter next_line
never_closed = refl
