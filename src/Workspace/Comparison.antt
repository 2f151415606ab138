-- ===== src/Workspace/Comparison.antt =====
-- Comparing two checkpoints of a workspace (packages/workspaces/src/checkpoint.ts,
-- `compareWorkspaceCheckpoints`). Both are validated, so that they have the one version.
use anastom.Prelude.{
  ℕ, String, Bool, true, false, ◌&&◌, ◌≡◌, ◌↔◌, refl, ap, All, List, [], ◌∷◌, none, ◌==◌,
  text_equality, number_equality, eq_iff, nat_beq_iff, arith, if◌then◌else◌,
}
use anastom.Contract.{WorkspaceCheckpoint, WorkspaceDifference}

pub record WorkspaceComparison : Type 0 where
  pub matches : Bool
  pub differences : List WorkspaceDifference

-- `isDeepStrictEqual` on two arrays of texts.
abbrev pub same_files : List String → List String → Bool
same_files [] [] = true
same_files (f ∷ fs) (g ∷ gs) = f == g && same_files fs gs
same_files _ _ = false

abbrev is_empty : List WorkspaceDifference → Bool
is_empty [] = true
is_empty (d ∷ ds) = false

-- Each call of `pushDifference`: the dimension and whether both agree in it.
abbrev pub dimensions :
    WorkspaceCheckpoint → WorkspaceCheckpoint → List (WorkspaceDifference × Bool)
dimensions a b =
    (WorkspaceDifference.workspace_identity, a.workspace_id == b.workspace_id)
    ∷ (WorkspaceDifference.base_commit, a.base_commit == b.base_commit)
    ∷ (WorkspaceDifference.head_commit, a.head_commit == b.head_commit)
    ∷ (WorkspaceDifference.diff_digest, a.diff_digest == b.diff_digest)
    ∷ (WorkspaceDifference.changed_files, same_files a.changed_files b.changed_files)
    ∷ (
      WorkspaceDifference.ignored_content,
      a.ignored_digest == b.ignored_digest
          && (a.ignored_entry_count == b.ignored_entry_count
              && a.ignored_byte_count == b.ignored_byte_count),
    )
    ∷ (
      WorkspaceDifference.repository,
      a.ownership.repository_root == b.ownership.repository_root
          && a.ownership.repository_common_directory == b.ownership.repository_common_directory,
    )
    ∷ (
      WorkspaceDifference.workspace_path,
      a.ownership.workspace_path == b.ownership.workspace_path
          && a.ownership.workspace_git_directory == b.ownership.workspace_git_directory,
    )
    ∷ (WorkspaceDifference.branch, a.ownership.branch == b.ownership.branch)
    ∷ (
      WorkspaceDifference.ownership_manifest,
      a.ownership.manifest_digest == b.ownership.manifest_digest,
    )
    ∷ (
      WorkspaceDifference.worktree_registration,
      a.ownership.registration_digest == b.ownership.registration_digest,
    )
    ∷ []

-- `pushDifference`, in turn.
unfoldable pub push_differences : List (WorkspaceDifference × Bool) → List WorkspaceDifference
push_differences [] = []
push_differences ((d, matches) ∷ rest) =
    if matches then push_differences rest else d ∷ push_differences rest

unfoldable pub compare_workspace_checkpoints :
    WorkspaceCheckpoint → WorkspaceCheckpoint → WorkspaceComparison
unfolding push_differences
compare_workspace_checkpoints a b =
    let differences = push_differences (dimensions a b) in
    record { matches = is_empty differences; differences = differences }

push_differences_empty :
    (rows : List (WorkspaceDifference × Bool))
    → (push_differences rows ≡ []) ↔ All (λ (row : WorkspaceDifference × Bool). row.1 ≡ true) rows
unfolding push_differences
push_differences_empty [] = (λ h. tt, λ h. refl)
push_differences_empty ((d, true) ∷ rest) =
    let (to, from) = push_differences_empty rest in (λ h. (refl, to h), λ (one, more). from more)
push_differences_empty ((d, false) ∷ rest) = (λ h. cc, λ (one, more). cc)

same_files_iff : (fs gs : List String) → (same_files fs gs ≡ true) ↔ (fs ≡ gs)
same_files_iff [] [] = (λ h. refl, λ h. refl)
same_files_iff [] (g ∷ gs) = (λ h. cc, λ h. cc)
same_files_iff (f ∷ fs) [] = (λ h. cc, λ h. cc)
same_files_iff (f ∷ fs) (g ∷ gs) =
    let (to, from) = same_files_iff fs gs in
    let (one_to, one_from) = eq_iff f g in
    (
      λ h. let e = one_to (ground arith) in let es = to (ground arith) in cc,
      λ h. let e = one_from (cc) in let es = from (cc) in ground arith,
    )

is_empty_iff : (ds : List WorkspaceDifference) → (is_empty ds ≡ true) ↔ (ds ≡ [])
is_empty_iff [] = (λ h. refl, λ h. refl)
is_empty_iff (d ∷ ds) = (λ h. cc, λ h. cc)

-- The checkpoint without the artifact that keeps its diff, which is not compared.
abbrev pub evidence_of : WorkspaceCheckpoint → WorkspaceCheckpoint
evidence_of c = record c { diff_artifact_id = none }

and_iff : (a b : Bool) → (a && b ≡ true) ↔ ((a ≡ true) × (b ≡ true))
and_iff true b = (λ h. (refl, h), λ (one, two). two)
and_iff false b = (λ h. cc, λ (one, two). cc)

same_evidence :
    (a b : WorkspaceCheckpoint)
    → All (λ (row : WorkspaceDifference × Bool). row.1 ≡ true) (dimensions a b)
    → evidence_of a ≡ evidence_of b
same_evidence a b (d1, (d2, (d3, (d4, (d5, (d6, (d7, (d8, (d9, (d10, (d11, done))))))))))) =
    let x = a.ownership in
    let y = b.ownership in
    let (i1, i23) = (and_iff (a.ignored_digest == b.ignored_digest) _).0 d6 in
    let (i2, i3) = (and_iff (a.ignored_entry_count == b.ignored_entry_count) _).0 i23 in
    let (r1, r2) = (and_iff (x.repository_root == y.repository_root) _).0 d7 in
    let (p1, p2) = (and_iff (x.workspace_path == y.workspace_path) _).0 d8 in
    let e1 = (eq_iff a.workspace_id b.workspace_id).0 d1 in
    let e2 = (eq_iff a.base_commit b.base_commit).0 d2 in
    let e3 = (eq_iff a.head_commit b.head_commit).0 d3 in
    let e4 = (eq_iff a.diff_digest b.diff_digest).0 d4 in
    let e5 = (same_files_iff a.changed_files b.changed_files).0 d5 in
    let e6 = (eq_iff a.ignored_digest b.ignored_digest).0 i1 in
    let e7 = (nat_beq_iff a.ignored_entry_count b.ignored_entry_count).0 i2 in
    let e8 = (nat_beq_iff a.ignored_byte_count b.ignored_byte_count).0 i3 in
    let o1 = (eq_iff x.repository_root y.repository_root).0 r1 in
    let o2 = (eq_iff x.repository_common_directory y.repository_common_directory).0 r2 in
    let o3 = (eq_iff x.workspace_path y.workspace_path).0 p1 in
    let o4 = (eq_iff x.workspace_git_directory y.workspace_git_directory).0 p2 in
    let o5 = (eq_iff x.branch y.branch).0 d9 in
    let o6 = (eq_iff x.manifest_digest y.manifest_digest).0 d10 in
    let o7 = (eq_iff x.registration_digest y.registration_digest).0 d11 in cc

same_rows :
    (a b : WorkspaceCheckpoint)
    → evidence_of a ≡ evidence_of b
    → All (λ (row : WorkspaceDifference × Bool). row.1 ≡ true) (dimensions a b)
same_rows a b h =
    let text : (get : WorkspaceCheckpoint → String)
        → get (evidence_of a) ≡ get (evidence_of b)
        → (get (evidence_of a) == get (evidence_of b)) ≡ true =
      λ get e. (eq_iff (get (evidence_of a)) (get (evidence_of b))).1 e in
    let field = λ (get : WorkspaceCheckpoint → String). text get (ap get h) in
    let number = λ (get : WorkspaceCheckpoint → ℕ).
      (nat_beq_iff (get (evidence_of a)) (get (evidence_of b))).1 (ap get h) in
    let files =
      (same_files_iff a.changed_files b.changed_files).1
        (ap (λ (c : WorkspaceCheckpoint). c.changed_files) h) in
    let ignored = (and_iff _ _).1 (
      field (λ c. c.ignored_digest),
      (and_iff _ _).1 (number (λ c. c.ignored_entry_count), number (λ c. c.ignored_byte_count)),
    ) in
    let repository = (and_iff _ _).1 (
      field (λ c. c.ownership.repository_root),
      field (λ c. c.ownership.repository_common_directory),
    ) in
    let path =
      (and_iff _ _).1 (
        field (λ c. c.ownership.workspace_path),
        field (λ c. c.ownership.workspace_git_directory),
      ) in
    (
      field (λ c. c.workspace_id),
      (
        field (λ c. c.base_commit),
        (
          field (λ c. c.head_commit),
          (
            field (λ c. c.diff_digest),
            (
              files,
              (
                ignored,
                (
                  repository,
                  (
                    path,
                    (
                      field (λ c. c.ownership.branch),
                      (
                        field (λ c. c.ownership.manifest_digest),
                        (field (λ c. c.ownership.registration_digest), tt),
                      ),
                    ),
                  ),
                ),
              ),
            ),
          ),
        ),
      ),
    )

-- Two checkpoints match exactly if they agree in everything but the artifact that keeps the diff.
pub compare_workspace_checkpoints_iff :
    (a b : WorkspaceCheckpoint)
    → ((compare_workspace_checkpoints a b).matches ≡ true) ↔ (evidence_of a ≡ evidence_of b)
unfolding compare_workspace_checkpoints
compare_workspace_checkpoints_iff a b =
    let (rows_to, rows_from) = push_differences_empty (dimensions a b) in
    let (empty_to, empty_from) = is_empty_iff (push_differences (dimensions a b)) in
    (λ h. same_evidence a b (rows_to (empty_to h)), λ e. empty_from (rows_from (same_rows a b e)))
