-- ===== src/Generation/Model.antt =====
-- The data of the generator: platform/backend/internal/modules/assembly/generation/model.go. A checksum is
-- its text; the bytes of a file are a list of numbers. Fields of a request that only the artifacts and
-- the renderer read (the tool, the artifact context, the secrets, the paths to eject) are left out.
use unified_software_commerc.Prelude.{ℕ, String, Bool, ◌&&◌, Option, List, ◌==◌}

pub data GeneratorError : Type 0 where
  invalid_input plan_mismatch target_changed target_unsafe : GeneratorError
  ownership_conflict generated_modified integration_region : GeneratorError
  commit_failed rollback_failed duplicate_output unsafe_relative_path : GeneratorError
  -- The error of a context that is done, or of a test hook, by number.
  cause : ℕ → GeneratorError

pub record MergeSpec : Type 0 where
  pub strategy : String
  pub region_id : String
  pub comment_prefix : String

pub record OutputSpec : Type 0 where
  pub path : String
  pub ownership : String
  pub source_id : String
  pub source_version : String
  pub source_path : String
  pub source_sha256 : String
  pub render_strategy : String
  pub content_type : String
  pub merge : Option MergeSpec

pub record ExistingFile : Type 0 where
  pub path : String
  pub ownership : String
  pub sha256 : String

pub record Determinism : Type 0 where
  pub timezone : String
  pub locale : String
  pub sort_order : String

pub record InputPaths : Type 0 where
  pub blueprint_path : String
  pub plan_path : String
  pub previous_manifest_path : String
  pub previous_lock_path : String

pub record Request : Type 0 where
  pub schema_version : String
  pub request_id : String
  pub operation : String
  pub workspace_ref : String
  pub plan_checksum : String
  pub target_snapshot_checksum : String
  pub inputs : InputPaths
  pub desired_outputs : List OutputSpec
  pub existing_files : List ExistingFile
  pub protected_paths : List String
  pub staging_path : String
  pub rollback_point_path : String
  pub conflict_policy : String
  pub determinism : Determinism

pub record RenderedFile : Type 0 where
  pub spec : OutputSpec
  pub bytes : List ℕ
  pub sha256 : String
  pub generated_sha256 : String

-- The fields of a locked file that the target's preparation reads.
pub record LockedFile : Type 0 where
  pub path : String
  pub ownership : String
  pub sha256 : String
  pub generated_sha256 : String
  pub merge : Option MergeSpec

pub record Diagnostic : Type 0 where
  pub code : String
  pub category : String
  pub message : String
  pub path : String
  pub related_paths : List String
  pub expected_ownership : String
  pub actual_ownership : String
  pub expected_sha256 : String
  pub actual_sha256 : String
  pub retryable : Bool
  pub remediation : List String

pub record TargetSnapshot : Type 0 where
  pub files : List ExistingFile
  pub checksum : String

pub record FileChange : Type 0 where
  pub path : String
  pub ownership : String
  pub action : String
  pub bytes : List ℕ
  pub sha256 : String
  pub generated_sha256 : String
  pub previous_sha256 : String

pub record PreparedChangeSet : Type 0 where
  pub snapshot : TargetSnapshot
  pub changes : List FileChange
  pub preserved : List ExistingFile
  pub diagnostics : List Diagnostic

pub record CommitResult : Type 0 where
  pub files_written : List FileChange
  pub preserved_files : List ExistingFile
  pub staging_cleanup_completed : Bool
  pub atomic_commit_completed : Bool
  pub rollback_attempted : Bool
  pub rollback_completed : Bool
  pub target_unchanged : Bool

-- `*a == *b` on merge specifications.
unfoldable pub merge_eq : MergeSpec → MergeSpec → Bool
merge_eq a b =
    a.strategy == b.strategy && a.region_id == b.region_id && a.comment_prefix == b.comment_prefix

-- `==` on existing files.
unfoldable pub existing_eq : ExistingFile → ExistingFile → Bool
existing_eq a b = a.path == b.path && a.ownership == b.ownership && a.sha256 == b.sha256
