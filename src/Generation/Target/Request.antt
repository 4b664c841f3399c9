-- ===== src/Generation/Target/Request.antt =====
-- `validateFileRequest`, with `validateOutput` and `validDigest` of renderer.go.
use unified_software_commerc.Prelude.{
  String, Bool, true, false, not, ◌&&◌, ◌||◌, Option, none, some, List, [], ◌∷◌, all, length, eqb,
  ◌==◌, Result, ok, ◌>>◌, guard,
}
use unified_software_commerc.Prelude.Text.{stable_code, is_digest}
use unified_software_commerc.Generation.Model.{
  GeneratorError, invalid_input, target_changed, unsafe_relative_path, ExistingFile, MergeSpec,
  OutputSpec, Request, TargetSnapshot, existing_eq,
}
use unified_software_commerc.Generation.Paths.{safe_relative_path, paths_overlap, digest_equal}
use unified_software_commerc.Generation.Inspect.{sort_existing_files}

valid_output_merge : Option MergeSpec → Bool
valid_output_merge none = false
valid_output_merge (some merge) =
    merge.strategy == "generated_region_v1"
    && not (merge.region_id == "")
    && (merge.comment_prefix == "//" || merge.comment_prefix == "#")

no_merge : Option MergeSpec → Bool
no_merge none = true
no_merge (some merge) = false

valid_strategy : OutputSpec → Bool
unfolding valid_output_merge no_merge
valid_strategy output =
    (not (output.ownership == "integration")
      || (output.render_strategy == "generated_region"
          && output.content_type == "text"
          && valid_output_merge output.merge))
    && (output.ownership == "integration" || no_merge output.merge)
    && (not (output.content_type == "binary") || output.render_strategy == "copy")

unfoldable pub validate_output : OutputSpec → Result GeneratorError (Unit {0})
unfolding valid_strategy
validate_output output =
    guard (safe_relative_path output.path && safe_relative_path output.source_path)
      unsafe_relative_path
    >> guard
        ((output.ownership == "generated" || output.ownership == "integration")
          && not (output.source_id == "")
          && not (output.source_version == "")
          && is_digest output.source_sha256
          && valid_strategy output)
        invalid_input

-- The operations that a request may name.
valid_operation : String → Bool
valid_operation operation =
    operation == "generate" || operation == "upgrade" || operation == "validate"

valid_header : Request → Bool
unfolding valid_operation
valid_header request =
    request.schema_version == "1.0.0"
    && request.conflict_policy == "stop"
    && request.determinism.timezone == "UTC"
    && request.determinism.locale == "C"
    && request.determinism.sort_order == "bytewise"
    && stable_code request.request_id
    && stable_code request.workspace_ref
    && is_digest request.plan_checksum
    && is_digest request.target_snapshot_checksum
    && not (request.staging_path == "")
    && not (request.rollback_point_path == "")
    && not (eqb (length request.desired_outputs) 0)
    && valid_operation request.operation

same_list : List ExistingFile → List ExistingFile → Bool
same_list [] [] = true
same_list (a ∷ as') (b ∷ bs) = existing_eq a b && same_list as' bs
same_list as' bs = false

module _ (lower : String → String) where
  valid_paths : Request → Bool
  valid_paths request =
      safe_relative_path request.inputs.blueprint_path
      && safe_relative_path request.inputs.plan_path
      && (not (request.operation == "upgrade")
          || (safe_relative_path request.inputs.previous_manifest_path
              && safe_relative_path request.inputs.previous_lock_path))
      && safe_relative_path request.staging_path
      && safe_relative_path request.rollback_point_path
      && not (paths_overlap lower request.staging_path request.rollback_point_path)

  -- Neither the staging area nor the rollback point.
  unfoldable pub apart_from_staging : Request → String → Bool
  apart_from_staging request path =
      not (paths_overlap lower path request.staging_path)
      && not (paths_overlap lower path request.rollback_point_path)

  matches_snapshot : Request → TargetSnapshot → Bool
  unfolding same_list
  matches_snapshot request snapshot =
      digest_equal lower request.target_snapshot_checksum snapshot.checksum
      && same_list (sort_existing_files request.existing_files) snapshot.files

  unfoldable pub validate_outputs : Request → List OutputSpec → Result GeneratorError (Unit {0})
  validate_outputs request [] = ok tt
  validate_outputs request (output ∷ outputs) =
      validate_output output
      >> guard (apart_from_staging request output.path) invalid_input
      >> validate_outputs request outputs

  unfoldable pub validate_file_request : Request → TargetSnapshot → Result GeneratorError (Unit {0})
  unfolding valid_header valid_paths matches_snapshot
  validate_file_request request snapshot =
      guard (valid_header request && valid_paths request) invalid_input
      >> guard (matches_snapshot request snapshot) target_changed
      >> guard
          (all (λ path. safe_relative_path path && apart_from_staging request path)
            request.protected_paths)
          invalid_input
      >> validate_outputs request request.desired_outputs
