-- ===== src/Generation/Commit.antt =====
-- `Commit` of platform/backend/internal/modules/assembly/generation/commit.go with `rollbackAfterFailure` and
-- `rollbackApplied`. The staging area lies in a directory of its own under the root, apart from the files of the
-- target; a change's staged copy and backup are kept here under the change's path, and the tree holds the staging
-- directory itself, not what lies below it. What can fail outside the program is a record of faults.
pub mod Files
pub mod Undo
pub mod Restore
pub mod Directories
pub mod Staging
pub mod Laws
pub mod Atomic
use Prim.Native.Char.{code}
use Prim.Native.String
use Prim.Native.String.{◌++◌ as ◌<>◌}
use unified_software_commerc.Prelude.{
  ℕ, zero, suc, ◌+◌, String, Bool, true, false, not, ◌&&◌, ◌||◌, Option, none, some, List, [], ◌∷◌,
  ◌++◌, any, all, map, filter, is_some, length, eqb, ◌==◌, if◌then◌else◌, Result, err, ok, ◌>>=◌,
  ◌>>◌, guard, or_err,
}
use unified_software_commerc.Prelude.Slices.{bytes_of}
use unified_software_commerc.Generation.Model.{
  GeneratorError, invalid_input, ownership_conflict, target_unsafe, target_changed, commit_failed,
  rollback_failed, FileChange, PreparedChangeSet, CommitResult, ExistingFile,
}
use unified_software_commerc.Generation.Model as Generator
use unified_software_commerc.Generation.Paths.{
  safe_relative_path, paths_overlap, text_lt, digest_equal,
}
use unified_software_commerc.Generation.Inspect.{verify_prepared_snapshot}
use unified_software_commerc.Generation.Target.{sort_changes}
use unified_software_commerc.Generation.Commit.Files.{
  File, Tree, lookup, remove, put, has_directory, workspace_of, is_empty, drop_directory,
}

-- An operation of the system that fails gives its error; the number counts the changes of a loop.
pub record Faults : Type 0 where
  pub staging : ℕ → Option GeneratorError
  pub journal : Bool
  -- The context is done, or the hook `beforeReplace` fails.
  pub before_replace : ℕ → FileChange → Option GeneratorError
  pub make_directory : String → Bool
  pub replace : ℕ → Option GeneratorError
  pub undo_file : String → Bool
  pub undo_directory : String → Bool
  pub cleanup : Bool

pub record JournalItem : Type 0 where
  pub path : String
  pub bytes : List ℕ
  pub backup : Option (List ℕ)

pub record AppliedChange : Type 0 where
  pub change : FileChange
  pub backup : Option (List ℕ)
  pub mode : ℕ

-- No error, or the one of a fault.
abbrev pub or_none : Option GeneratorError → Result GeneratorError (Unit {0})
or_none none = ok tt
or_none (some problem) = err problem

unfoldable pub valid_action : String → Bool
valid_action action = action == "created" || action == "updated" || action == "unchanged"

unfoldable pub change_by_path : List FileChange → String → Option FileChange
change_by_path [] path = none
change_by_path (change ∷ changes) path =
    let later = change_by_path changes path in if change.path == path then some change else later

-- The directories on the way to a path: the texts before its slashes.
parents_from : String → String → List String
parents_from before String.[] = []
parents_from before (String.◌∷◌ c path) =
    let rest = parents_from (before <> String.◌∷◌ c String.[]) path in
    if eqb (code c) b'/' then before ∷ rest else rest

unfoldable pub parents : String → List String
unfolding parents_from
parents path = parents_from "" path

-- The directories that `createSafeDirectory` makes for the staging where they are missing.
unfoldable pub staging_way : String → List String
staging_way staging_path = parents staging_path ++ staging_path ∷ []

pub record Replaced : Type 0 where
  pub applied : List AppliedChange
  pub created : List String
  pub tree : Tree
  pub problem : Option GeneratorError

pub record Created : Type 0 where
  pub created : List String
  pub tree : Tree
  pub problem : Option GeneratorError

module _ (faults : Faults) where
  -- The loop of `ensureSafeTargetParent` over the directories on the way.
  unfoldable pub ensure_directories : List String → Tree → Created
  ensure_directories [] t = record { created = []; tree = t; problem = none }
  ensure_directories (d ∷ ds) t =
      let here = ensure_directories ds t in
      let made = ensure_directories ds (record t { directories = t.directories ++ d ∷ [] }) in
      if has_directory d t
      then here
      else if is_some (lookup d t.files)
      then record { created = []; tree = t; problem = some target_unsafe }
      else if faults.make_directory d
      then record { created = []; tree = t; problem = some commit_failed }
      else record made { created = d ∷ made.created }

  -- One round of the rollback's first loop; errors are gathered.
  unfoldable pub undo_change : AppliedChange → Tree → Bool × Tree
  undo_change item t =
      if faults.undo_file item.change.path
      then (true, t)
      else if item.change.action == "created"
      then (false, record t { files = remove item.change.path t.files })
      else elim item.backup [
        | none ↦ (true, t)
        | some bytes ↦ (
          false,
          record t {
            files = put item.change.path (record { bytes = bytes; mode = item.mode }) t.files;
          },
        )
      ]

  -- The loop runs from the last change to the first.
  unfoldable pub undo_changes : List AppliedChange → Tree → Bool × Tree
  unfolding undo_change
  undo_changes [] t = (false, t)
  undo_changes (item ∷ items) t =
      let (later_failed, later) = undo_changes items t in
      let (failed, done) = undo_change item later in (later_failed || failed, done)

  -- `os.Remove` of each directory that was made, from the last to the first.
  unfoldable pub undo_directories : List String → Tree → Bool × Tree
  undo_directories [] t = (false, t)
  undo_directories (d ∷ ds) t =
      let (later_failed, later) = undo_directories ds t in
      if faults.undo_directory d || not (is_empty d later)
      then (true, later)
      else (later_failed, record later { directories = drop_directory d later.directories })

  -- `rollbackApplied`
  unfoldable pub rollback_applied : List AppliedChange → List String → Tree → Bool × Tree
  rollback_applied applied created t =
      let (files_failed, restored) = undo_changes applied t in
      let (directories_failed, done) = undo_directories created restored in
      (files_failed || directories_failed, done)

  module _ (lower : String → String) (digest : List ℕ → String) where
    -- The content of the file that a change updates.
    unfoldable pub backup_of : Tree → FileChange → Result GeneratorError (Option (List ℕ))
    backup_of t change =
        if change.action == "updated"
        then (or_err (lookup change.path t.files) commit_failed >>= λ file. ok (some file.bytes))
        else ok none

    -- A change is staged, with a backup of the file that it updates; both files are new.
    unfoldable pub stage_change :
        ℕ → Tree → List JournalItem → FileChange → Result GeneratorError JournalItem
    stage_change i t staged change =
        or_none (faults.staging i)
        >> guard
            (not (any (λ item. item.path == change.path) staged)
              && digest_equal lower (digest change.bytes) change.sha256)
            commit_failed
        >> backup_of t change
        >>= λ backup. ok (record { path = change.path; bytes = change.bytes; backup = backup })

    unfoldable pub stage_changes :
        ℕ → Tree → List JournalItem → List FileChange → Result GeneratorError (List JournalItem)
    stage_changes i t staged [] = ok staged
    stage_changes i t staged (change ∷ changes) =
        let next = stage_change i t staged change >>= λ item.
        stage_changes (i + 1) t (staged ++ item ∷ []) changes in
        if change.action == "unchanged" then stage_changes (i + 1) t staged changes else next

    -- `validateTargetForChange`, for a target that is a file or nothing.
    unfoldable pub validate_target : FileChange → Tree → Result GeneratorError (Unit {0})
    validate_target change t =
        if change.action == "created"
        then guard (not (is_some (lookup change.path t.files)) && not (has_directory change.path t))
            target_changed
        else (or_err (lookup change.path t.files) target_changed >>= λ file.
            guard (digest_equal lower (digest file.bytes) change.previous_sha256) target_changed)

    -- The mode that the new file gets: 0644, or that of the file that is updated.
    unfoldable pub mode_for : JournalItem → Tree → ℕ
    mode_for item t = elim item.backup [
      | none ↦ 420
      | some bytes ↦ elim (lookup item.path t.files) [ none ↦ 420 | some file ↦ file.mode ]
    ]

    unfoldable pub replaced_tree : JournalItem → Tree → Tree
    unfolding mode_for
    replaced_tree item t = record t {
      files = put item.path (record { bytes = item.bytes; mode = mode_for item t }) t.files;
    }

    unfoldable pub applied_change : FileChange → JournalItem → Tree → AppliedChange
    unfolding mode_for
    applied_change change item t = record {
      change = change;
      backup = item.backup;
      mode = mode_for item t;
    }

    -- One round of the second loop up to the rename, which gives the tree with its directories.
    unfoldable pub ready_to_replace : ℕ → FileChange → Tree → Created
    ready_to_replace i change t = elim (faults.before_replace i change) [
      | some problem ↦ record { created = []; tree = t; problem = some problem }
      | none ↦
          let made = ensure_directories (parents change.path) t in
          elim made.problem [
            | some problem ↦ made
            | none ↦ elim (validate_target change made.tree) [
              | err problem ↦ record made { problem = some problem }
              | ok valid ↦ record made { problem = faults.replace i }
            ]
          ]
    ]

    -- The loop over the journal, whose items all have their change, to its end or to its first problem.
    unfoldable pub replace_files : ℕ → List FileChange → List JournalItem → Tree → Replaced
    replace_files i changes [] t = record { applied = []; created = []; tree = t; problem = none }
    replace_files i changes (item ∷ items) t = elim (change_by_path changes item.path) [
      | none ↦ record { applied = []; created = []; tree = t; problem = some commit_failed }
      | some change ↦
          let ready = ready_to_replace i change t in
          let rest = replace_files (i + 1) changes items (replaced_tree item ready.tree) in
          elim ready.problem [
            | some problem ↦ record {
              applied = [];
              created = ready.created;
              tree = ready.tree;
              problem = some problem;
            }
            | none ↦ record rest {
              applied = applied_change change item ready.tree ∷ rest.applied;
              created = ready.created ++ rest.created;
            }
          ]
    ]

    unfoldable pub written : FileChange → Option File → Bool
    written change none = false
    written change (some file) =
        safe_relative_path change.path && digest_equal lower (digest file.bytes) change.sha256

    -- The last loop: each written file has the content of its change.
    unfoldable pub verify_files : List FileChange → Tree → Bool
    verify_files [] t = true
    verify_files (change ∷ changes) t =
        (change.action == "unchanged" || written change (lookup change.path t.files))
        && verify_files changes t

    abbrev pub Outcome : Type 0
    Outcome = record { result : CommitResult; problem : Option GeneratorError; tree : Tree }

    unfoldable pub empty_result : PreparedChangeSet → CommitResult
    empty_result prepared = record {
      files_written = [];
      preserved_files = prepared.preserved;
      staging_cleanup_completed = false;
      atomic_commit_completed = false;
      rollback_attempted = false;
      rollback_completed = false;
      target_unchanged = false;
    }

    -- The unchanged files that the loop of the staging has gathered when it ends.
    unfoldable pub unchanged_staged :
        ℕ → Tree → List JournalItem → List FileChange → List FileChange
    unfolding stage_change
    unchanged_staged i t staged [] = []
    unchanged_staged i t staged (change ∷ changes) =
        let later = unchanged_staged (i + 1) t staged changes in
        if change.action == "unchanged"
        then change ∷ later
        else elim (stage_change i t staged change) [
          | err problem ↦ []
          | ok item ↦ unchanged_staged (i + 1) t (staged ++ item ∷ []) changes
        ]

    -- A failure of the staging: the target was not touched.
    unfoldable pub staging_failed :
        PreparedChangeSet → List FileChange → Tree → GeneratorError → Outcome
    unfolding empty_result
    staging_failed prepared gathered t problem = record {
      result = record (empty_result prepared) {
        files_written = gathered;
        staging_cleanup_completed = not faults.cleanup;
        target_unchanged = true;
      };
      problem = some problem;
      tree = t;
    }

    -- `rollbackAfterFailure`; an error that wraps several is the last of them.
    unfoldable pub rollback_after_failure : PreparedChangeSet → Replaced → Outcome
    unfolding empty_result
    rollback_after_failure prepared replaced =
        let (failed, restored) = rollback_applied replaced.applied replaced.created replaced.tree in
        let attempted =
          not (eqb (length replaced.applied) 0) || not (eqb (length replaced.created) 0) in
        record {
          result = record (empty_result prepared) {
            staging_cleanup_completed = not faults.cleanup;
            rollback_attempted = attempted;
            rollback_completed = attempted && not failed;
            target_unchanged = not failed;
          };
          problem = some (if failed then rollback_failed else commit_failed);
          tree = restored;
        }

    unfoldable pub commit_finished : PreparedChangeSet → List FileChange → Replaced → Outcome
    unfolding empty_result
    commit_finished prepared changes replaced = record {
      result = record (empty_result prepared) {
        files_written =
            filter (λ c. c.action == "unchanged") changes ++ map (λ a. a.change) replaced.applied;
        staging_cleanup_completed = not faults.cleanup;
        atomic_commit_completed = not faults.cleanup;
        target_unchanged = not faults.cleanup && eqb (length replaced.applied) 0;
      };
      problem = if faults.cleanup then some commit_failed else none;
      tree = replaced.tree;
    }

    -- The loops after the staging.
    unfoldable pub commit_staged :
        PreparedChangeSet → List FileChange → List JournalItem → Tree → Outcome
    commit_staged prepared changes journal t =
        let replaced = replace_files 0 changes journal t in
        elim replaced.problem [
          | some problem ↦ rollback_after_failure prepared replaced
          | none ↦
              if verify_files changes replaced.tree
              then commit_finished prepared changes replaced
              else rollback_after_failure prepared replaced
        ]

    unfoldable pub validate_commit_paths : Generator.Request → List FileChange → Bool
    unfolding valid_action
    validate_commit_paths request changes =
        safe_relative_path request.staging_path
        && safe_relative_path request.rollback_point_path
        && not (paths_overlap lower request.staging_path request.rollback_point_path)
        && all
            (λ c.
              valid_action c.action
              && not (paths_overlap lower c.path request.staging_path)
              && not (paths_overlap lower c.path request.rollback_point_path))
            changes

    -- What is tested before the staging.
    unfoldable pub commit_checks :
        (List ExistingFile → String)
        → Generator.Request
        → PreparedChangeSet
        → Tree
        → Result GeneratorError (Unit {0})
    commit_checks checksum request prepared t =
        guard
          (eqb (length prepared.diagnostics) 0
            && (request.operation == "generate" || request.operation == "upgrade"))
          ownership_conflict
        >> verify_prepared_snapshot lower digest checksum (workspace_of t) prepared.snapshot
        >> guard (validate_commit_paths request prepared.changes) invalid_input
        >> guard
            (not (is_some (lookup request.staging_path t.files))
              && not (has_directory request.staging_path t))
            target_unsafe

    -- The staging, and the loops after it.
    unfoldable pub commit_prepared : PreparedChangeSet → Tree → Outcome
    commit_prepared prepared t =
        let changes = sort_changes prepared.changes in
        let gathered = unchanged_staged 0 t [] changes in
        elim (stage_changes 0 t [] changes) [
          | err problem ↦ staging_failed prepared gathered t problem
          | ok journal ↦
              if faults.journal
              then staging_failed prepared gathered t commit_failed
              else commit_staged prepared changes journal t
        ]

    -- `cleanupStage`: `os.RemoveAll` of the staging directory, which every end of the commit calls; the
    -- directories on the way to it stay.
    unfoldable pub cleanup_stage : String → Tree → Tree
    cleanup_stage staging_path t =
        if faults.cleanup
        then t
        else record t { directories = drop_directory staging_path t.directories }

    unfoldable pub swept : String → Outcome → Outcome
    unfolding cleanup_stage
    swept staging_path o = record o { tree = cleanup_stage staging_path o.tree }

    unfoldable pub commit :
        (List ExistingFile → String) → Generator.Request → PreparedChangeSet → Tree → Outcome
    unfolding staging_way
    commit checksum request prepared t = elim (commit_checks checksum request prepared t) [
      | err problem ↦ record { result = empty_result prepared; problem = some problem; tree = t }
      | ok checked ↦
          let made = ensure_directories (staging_way request.staging_path) t in
          let done = swept request.staging_path (commit_prepared prepared made.tree) in
          elim made.problem [
            | some problem ↦ record {
              result = empty_result prepared;
              problem = some problem;
              tree = made.tree;
            }
            | none ↦ done
          ]
    ]
