-- ===== src/Workspace/Tests.antt =====
-- Concrete paths, checkpoints and command output.
use anastom.Prelude.{
  ℕ, true, ◌≡◌, ◌↔◌, ◌⊎◌, refl, List, [], ◌∷◌, ◌++◌, Option, none, some, ok, err, length, take,
  concat, ltb, any, ◌==◌, number_equality, if◌then◌else◌,
}
use anastom.Contract.{CheckpointOwnership, WorkspaceCheckpoint, WorkspaceDifference}
use anastom.Workspace.Comparison.{
  compare_workspace_checkpoints, compare_workspace_checkpoints_iff, evidence_of, push_differences,
}
use anastom.Workspace.Output.{is_truncated, nothing_retained, retain_all, retain_all_lem}
use anastom.Workspace.Paths.{
  FileKind, IsInside, directory, file, has_type, outside_root, regular, resolve_existing_child,
  resolve_existing_child-IsInside,
}

abbrev ownership : CheckpointOwnership
ownership = record {
  repository_root = "/repo";
  repository_common_directory = "/repo/.git";
  workspace_path = "/work";
  workspace_git_directory = "/repo/.git/worktrees/work";
  branch = "anastom/run-1";
  manifest_digest = "m";
  registration_digest = "r";
}

abbrev checkpoint : WorkspaceCheckpoint
checkpoint = record {
  workspace_id = "w";
  base_commit = "b";
  head_commit = "h";
  diff_digest = "d";
  changed_files = "a.ts" ∷ [];
  ignored_digest = "i";
  ignored_entry_count = 0;
  ignored_byte_count = 0;
  ownership = ownership;
  diff_artifact_id = none;
}

moved_head :
    (compare_workspace_checkpoints checkpoint (record checkpoint { head_commit = "x" })).differences
    ≡ WorkspaceDifference.head_commit ∷ []
unfolding compare_workspace_checkpoints push_differences
moved_head = refl

compare_workspace_checkpoints_iff_example :
    ((compare_workspace_checkpoints checkpoint
        (record checkpoint { diff_artifact_id = some "a" })).matches
      ≡ true)
    ↔ (evidence_of checkpoint ≡ evidence_of (record checkpoint { diff_artifact_id = some "a" }))
compare_workspace_checkpoints_iff_example =
    compare_workspace_checkpoints_iff checkpoint (record checkpoint { diff_artifact_id = some "a" })

-- The root "/r" with the file "/r/f" and a link "/r/l" to "/e".
abbrev join_paths : List ℕ → List ℕ → List ℕ
join_paths root input = root ++ b'/' ∷ input

abbrev follow : List ℕ → Option (List ℕ)
follow path = if any (λ c. c == b'l') path then some (b'/' ∷ b'e' ∷ []) else some path

abbrev trusted_root : List ℕ
trusted_root = b'/' ∷ b'r' ∷ []

abbrev file_path : List ℕ
file_path = b'/' ∷ b'r' ∷ b'/' ∷ b'f' ∷ []

abbrev all_files : List ℕ → Option FileKind
all_files path = some regular

inside_found :
    resolve_existing_child join_paths follow all_files trusted_root (b'f' ∷ []) file ≡ ok file_path
unfolding resolve_existing_child
inside_found = refl

link_refused :
    resolve_existing_child join_paths follow all_files trusted_root (b'l' ∷ []) file
    ≡ err outside_root
unfolding resolve_existing_child
link_refused = refl

resolve_existing_child-IsInside_example :
    IsInside trusted_root file_path
    × (((file_path ≡ trusted_root) × (file ≡ directory))
        ⊎ ((kind : FileKind) × (all_files file_path ≡ some kind) × (has_type kind file ≡ true)))
resolve_existing_child-IsInside_example =
    resolve_existing_child-IsInside join_paths follow all_files trusted_root (b'f' ∷ []) file_path
      file inside_found

abbrev output_chunks : List (List ℕ)
output_chunks = (1 ∷ 2 ∷ []) ∷ (3 ∷ 4 ∷ []) ∷ (5 ∷ []) ∷ []

three_kept : (retain_all 3 nothing_retained output_chunks).chunks ≡ (1 ∷ 2 ∷ []) ∷ (3 ∷ []) ∷ []
unfolding retain_all
three_kept = refl

retain_all_lem_example :
    ((retain_all 3 nothing_retained output_chunks).total ≡ length (concat output_chunks))
    × (concat (retain_all 3 nothing_retained output_chunks).chunks ≡ take 3 (concat output_chunks))
    × (is_truncated (retain_all 3 nothing_retained output_chunks)
        ≡ ltb 3 (length (concat output_chunks)))
retain_all_lem_example = retain_all_lem 3 output_chunks
