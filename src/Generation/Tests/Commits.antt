-- ===== src/Generation/Tests/Commits.antt =====
-- The commit of a change set that updates one file and creates another in a new directory.
use unified_software_commerc.Prelude.{
  true, false, Option, none, some, [], ◌∷◌, eqb, if◌then◌else◌, ◌≡◌, refl,
}
use unified_software_commerc.Generation.Model.{
  GeneratorError, cause, FileChange, PreparedChangeSet, existing_eq,
}
use unified_software_commerc.Generation.Paths.{
  safe_relative_path, valid_ownership, text_lt, paths_overlap, digest_equal,
}
use unified_software_commerc.Generation.Inspect.{
  verify_prepared_snapshot, inspect_target, locked_files_by_path, owner_in, collides,
  sort_existing_files,
}
use unified_software_commerc.Generation.Target.{sort_changes}
use unified_software_commerc.Generation.Commit.Files.{
  Tree, lookup, put, remove, has_directory, is_empty, drop_directory, workspace_of,
}
use unified_software_commerc.Generation.Commit.{
  Faults, commit, commit_checks, validate_commit_paths, stage_changes, stage_change, backup_of,
  commit_staged, replace_files, ready_to_replace, ensure_directories, parents, validate_target,
  replaced_tree, applied_change, change_by_path, rollback_after_failure, rollback_applied,
  undo_changes, undo_directories, empty_result, verify_files, written, commit_finished,
  commit_prepared, staging_way, cleanup_stage, swept,
}
use unified_software_commerc.Generation.Commit.Laws.{IsKept, unchanged_is_true}
use unified_software_commerc.Generation.Commit.Atomic.{IsAllOrNothing, all_or_nothing}
use unified_software_commerc.Generation.Commit.Staging.{Distinct}
use unified_software_commerc.Generation.Tests.{digest}
use unified_software_commerc.Generation.Tests.Targets.{
  lower, checksum, full, main_change, change_set, request,
}

abbrev no_faults : Faults
no_faults = record {
  staging = λ i. none;
  journal = false;
  before_replace = λ i c. none;
  make_directory = λ d. false;
  replace = λ i. none;
  undo_file = λ p. false;
  undo_directory = λ d. false;
  cleanup = false;
}

-- The rename of the second change fails.
abbrev second_fails : Faults
second_fails = record no_faults { replace = λ i. if eqb i 1 then some (cause 5) else none }

abbrev target : Tree
target = record {
  files =
      ("cmd/main.go", record { bytes = 1 ∷ 2 ∷ []; mode = 493 })
      ∷ ("readme.md", record { bytes = 3 ∷ []; mode = 420 })
      ∷ [];
  directories = "cmd" ∷ [];
}

abbrev new_file : FileChange
new_file = record {
  path = "cmd/new/extra.go";
  ownership = "generated";
  action = "created";
  bytes = 7 ∷ [];
  sha256 = full;
  generated_sha256 = full;
  previous_sha256 = "";
}

abbrev two_changes : PreparedChangeSet
two_changes = record change_set { changes = new_file ∷ main_change ∷ [] }

apart : Distinct two_changes.changes
apart = ((refl, tt), (tt, tt))

-- The commit, with the functions that it calls open.
run : Faults → PreparedChangeSet → Tree → Option GeneratorError
unfolding commit commit_prepared staging_way cleanup_stage swept commit_checks validate_commit_paths
    stage_changes stage_change backup_of commit_staged replace_files ready_to_replace
    ensure_directories parents validate_target replaced_tree applied_change change_by_path
    rollback_after_failure rollback_applied undo_changes undo_directories empty_result verify_files
    written commit_finished verify_prepared_snapshot inspect_target locked_files_by_path owner_in
    collides sort_existing_files sort_changes safe_relative_path valid_ownership text_lt
    paths_overlap digest_equal existing_eq lookup put remove has_directory is_empty drop_directory
    workspace_of
run faults prepared t = (commit faults lower digest checksum request prepared t).problem

unchanged :
    (commit second_fails lower digest checksum request two_changes target).result.target_unchanged
    ≡ true
unfolding run
unchanged = refl

-- The first change was undone.
rolls_back :
    (commit second_fails lower digest checksum request two_changes target).result.rollback_completed
    ≡ true
unfolding run
rolls_back = refl

commits : (commit no_faults lower digest checksum request two_changes target).problem ≡ none
unfolding run
commits = refl

unchanged_is_true_example :
    IsKept request.staging_path
      (commit second_fails lower digest checksum request two_changes target).tree
      target
    × ((commit second_fails lower digest checksum request two_changes
            target).result.staging_cleanup_completed
          ≡ true
        → has_directory request.staging_path
            (commit second_fails lower digest checksum request two_changes target).tree
          ≡ false)
unchanged_is_true_example =
    unchanged_is_true second_fails lower digest checksum request two_changes target apart unchanged

all_or_nothing_example :
    IsAllOrNothing no_faults lower digest checksum request two_changes target
      (commit no_faults lower digest checksum request two_changes target)
all_or_nothing_example =
    all_or_nothing no_faults lower digest checksum request two_changes target (λ path. refl) refl
      apart
