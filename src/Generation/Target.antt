-- ===== src/Generation/Target.antt =====
-- `PrepareTarget` of platform/backend/internal/modules/assembly/generation/target.go: which files a request
-- creates and updates, which it leaves alone, and what stops it. Where it returns an empty change set with an
-- error, the model returns the error alone.
pub mod Changes
pub mod Request
pub mod Baseline
pub mod Safety
pub mod Laws
use unified_software_commerc.Prelude.{
  ℕ, String, Bool, true, false, not, ◌&&◌, ◌||◌, Option, none, some, List, [], ◌∷◌, ◌++◌, find, any,
  filter, is_some, length, eqb, ◌==◌, if◌then◌else◌, Result, err, ok, ◌>>=◌, ◌>>◌, guard,
}
use unified_software_commerc.Generation.Model.{
  GeneratorError, invalid_input, plan_mismatch, duplicate_output, ownership_conflict,
  generated_modified, integration_region, ExistingFile, LockedFile, MergeSpec, OutputSpec,
  RenderedFile, Diagnostic, FileChange, PreparedChangeSet, TargetSnapshot, merge_eq,
}
use unified_software_commerc.Generation.Model as Generator
use unified_software_commerc.Generation.Paths.{paths_overlap, text_lt}
use unified_software_commerc.Generation.Inspect.{
  Workspace, find_locked, find_existing, locked_files_by_path, inspect_target, sort_existing_files,
}
use unified_software_commerc.Generation.Target.Changes.{
  Prepared, ownership_diagnostic, prepare_generated_change, prepare_integration_change,
}
use unified_software_commerc.Generation.Target.Request.{validate_file_request}

merges_equal : Option MergeSpec → Option MergeSpec → Bool
merges_equal none none = true
merges_equal (some a) (some b) = merge_eq a b
merges_equal a b = false

-- `outputSetsEqual` of two lists of one output: their JSON texts are the same if all fields are.
unfoldable pub output_eq : OutputSpec → OutputSpec → Bool
unfolding merges_equal
output_eq a b =
    a.path == b.path
    && a.ownership == b.ownership
    && a.source_id == b.source_id
    && a.source_version == b.source_version
    && a.source_path == b.source_path
    && a.source_sha256 == b.source_sha256
    && a.render_strategy == b.render_strategy
    && a.content_type == b.content_type
    && merges_equal a.merge b.merge

-- A later problem replaces the first one if it is of the two kinds.
unfoldable pub first_error : Option GeneratorError → GeneratorError → GeneratorError
first_error none candidate = candidate
first_error (some current) generated_modified = generated_modified
first_error (some current) integration_region = integration_region
first_error (some current) candidate = current

-- What the loops have gathered.
pub record Progress : Type 0 where
  pub changes : List FileChange
  pub preserved : List ExistingFile
  pub diagnostics : List Diagnostic
  pub first_conflict : Option GeneratorError

unfoldable pub stopped : Progress → Diagnostic → GeneratorError → Progress
stopped p diagnostic problem = record p {
  diagnostics = p.diagnostics ++ diagnostic ∷ [];
  first_conflict = some (first_error p.first_conflict problem);
}

unfoldable pub insert_change : FileChange → List FileChange → List FileChange
insert_change change [] = change ∷ []
insert_change change (other ∷ changes) =
    let behind = insert_change change changes in
    if text_lt other.path change.path then other ∷ behind else change ∷ other ∷ changes

-- `sort.Slice` by path
unfoldable pub sort_changes : List FileChange → List FileChange
unfolding insert_change
sort_changes [] = []
sort_changes (change ∷ changes) = insert_change change (sort_changes changes)

unfoldable pub forked : Option LockedFile → Bool
forked none = false
forked (some baseline) = baseline.ownership == "forked"

abbrev pub owned_by_customer : Option ExistingFile → Bool
owned_by_customer none = false
owned_by_customer (some file) = file.ownership == "custom"

keep_existing : Option ExistingFile → Progress → Progress
keep_existing none p = p
keep_existing (some current) p = record p { preserved = p.preserved ++ current ∷ [] }

-- `if diagnostic != nil` stops the output; otherwise the change is taken, whatever the problem.
unfoldable pub taken : Progress → FileChange → Option Diagnostic → Option GeneratorError → Progress
taken p change none problem = record p { changes = p.changes ++ change ∷ [] }
taken p change (some diagnostic) (some problem) = stopped p diagnostic problem
taken p change (some diagnostic) none = record p { diagnostics = p.diagnostics ++ diagnostic ∷ [] }

unfoldable pub take_change : Prepared → Progress → Progress
unfolding taken
take_change prepared p = taken p prepared.change prepared.diagnostic prepared.problem

unfoldable pub custom_collision : OutputSpec → Diagnostic
custom_collision output =
    ownership_diagnostic "GENERATOR_CUSTOM_COLLISION" output.path output.path output.ownership
      "custom" "output would overwrite an unknown or custom file"

unfoldable pub protected_overlap : OutputSpec → String → Diagnostic
protected_overlap output conflict =
    ownership_diagnostic "GENERATOR_PROTECTED_PATH" output.path conflict output.ownership "custom"
      "output overlaps a protected product path"

unfoldable pub existing_overlap : OutputSpec → ExistingFile → Diagnostic
existing_overlap output conflict =
    ownership_diagnostic "GENERATOR_PATH_OVERLAP" output.path conflict.path output.ownership
      conflict.ownership "output overlaps an existing product path"

unfoldable pub managed_removal : LockedFile → Diagnostic
managed_removal baseline = record {
  code = "GENERATOR_MANAGED_REMOVAL_UNPLANNED";
  category = "ownership";
  message = "a previously managed file is absent from desired outputs";
  path = baseline.path;
  related_paths = [];
  expected_ownership = baseline.ownership;
  actual_ownership = baseline.ownership;
  expected_sha256 = "";
  actual_sha256 = "";
  retryable = false;
  remediation = "create an explicit removal plan before changing the managed file set" ∷ [];
}

snapshot_changed : TargetSnapshot → Generator.Request → Diagnostic
snapshot_changed snapshot request = record {
  code = "GENERATOR_TARGET_SNAPSHOT_CHANGED";
  category = "conflict";
  message = "the target no longer matches the inspected snapshot";
  path = "";
  related_paths = [];
  expected_ownership = "";
  actual_ownership = "";
  expected_sha256 = request.target_snapshot_checksum;
  actual_sha256 = snapshot.checksum;
  retryable = true;
  remediation = "inspect the target again and create a new generator request" ∷ [];
}

module _ (lower : String → String) where
  unfoldable pub overlapping_protected_path : String → List String → Option String
  overlapping_protected_path output protected =
      find (λ path. paths_overlap lower output path) protected

  unfoldable pub is_desired : List OutputSpec → String → Bool
  is_desired outputs path = any (λ o. lower o.path == lower path) outputs

  unfoldable pub is_kept : List OutputSpec → ExistingFile → Bool
  unfolding is_desired
  is_kept outputs file =
      not (is_desired outputs file.path)
      && (file.ownership == "custom" || file.ownership == "forked")

-- `equal_fold` stands for `strings.EqualFold`.
module _ (lower : String → String) (equal_fold : String → String → Bool)
    (digest : List ℕ → String) where
  -- The first existing file that the output overlaps, unless that is the output's own path.
  unfoldable pub overlapping_existing_path : String → List ExistingFile → Option ExistingFile
  overlapping_existing_path output existing =
      elim (find (λ f. paths_overlap lower output f.path) existing) [
        | none ↦ none
        | some file ↦ if equal_fold file.path output then none else some file
      ]

  module _ (workspace : Workspace) (request : Generator.Request) (snapshot : TargetSnapshot)
      (locked : List LockedFile) (rendered : List RenderedFile) where
    -- The switch over the owners.
    unfoldable pub prepare_owned :
        OutputSpec → RenderedFile → Progress → Result GeneratorError Progress
    unfolding forked keep_existing take_change
    prepare_owned output file p =
        let current = find_existing lower (lower output.path) snapshot.files in
        let baseline = find_locked lower (lower output.path) locked in
        if forked baseline
        then ok (keep_existing current p)
        else if owned_by_customer current
        then ok (stopped p (custom_collision output) ownership_conflict)
        else if output.ownership == "generated"
        then ok (take_change (prepare_generated_change lower digest file current baseline) p)
        else if output.ownership == "integration"
        then ok (
            take_change (prepare_integration_change lower digest workspace file current baseline) p)
        else err invalid_input

    -- The paths that the output may not overlap.
    unfoldable pub prepare_apart :
        OutputSpec → RenderedFile → Progress → Result GeneratorError Progress
    unfolding prepare_owned
    prepare_apart output file p =
        elim (overlapping_protected_path lower output.path request.protected_paths) [
          | some conflict ↦ ok (stopped p (protected_overlap output conflict) ownership_conflict)
          | none ↦ elim (overlapping_existing_path output.path snapshot.files) [
            | some conflict ↦ ok (stopped p (existing_overlap output conflict) ownership_conflict)
            | none ↦ prepare_owned output file p
          ]
        ]

    unfoldable pub prepare_output : OutputSpec → Progress → Result GeneratorError Progress
    unfolding prepare_apart
    prepare_output output p = elim (find (λ f. lower f.spec.path == lower output.path) rendered) [
      | none ↦ err plan_mismatch
      | some file ↦ guard (output_eq file.spec output) plan_mismatch >> prepare_apart output file p
    ]

    unfoldable pub prepare_outputs : List OutputSpec → Progress → Result GeneratorError Progress
    prepare_outputs [] p = ok p
    prepare_outputs (output ∷ outputs) p = prepare_output output p >>= prepare_outputs outputs

    -- Managed files that no output names.
    unfoldable pub prepare_removals : List LockedFile → Progress → Progress
    prepare_removals [] p = p
    prepare_removals (baseline ∷ rest) p = prepare_removals rest (
        if (baseline.ownership == "generated" || baseline.ownership == "integration")
          && not (is_desired lower request.desired_outputs baseline.path)
        then stopped p (managed_removal baseline) ownership_conflict
        else p)

    unfoldable pub prepare_finish : Progress → PreparedChangeSet × Option GeneratorError
    prepare_finish p = (
      record {
        snapshot = snapshot;
        changes = sort_changes p.changes;
        preserved =
            sort_existing_files
              (p.preserved ++ filter (is_kept lower request.desired_outputs) snapshot.files);
        diagnostics = p.diagnostics;
      },
      p.first_conflict,
    )

    unfoldable pub prepare_files : Result GeneratorError (PreparedChangeSet × Option GeneratorError)
    unfolding prepare_removals prepare_finish managed_removal
    prepare_files =
        prepare_outputs request.desired_outputs
          (record { changes = []; preserved = []; diagnostics = []; first_conflict = none })
        >>= λ p. ok (prepare_finish (prepare_removals locked p))

  duplicate_rendered : List RenderedFile → Bool
  duplicate_rendered [] = false
  duplicate_rendered (file ∷ files) =
      any (λ f. lower f.spec.path == lower file.spec.path) files || duplicate_rendered files

  unfoldable pub prepare_target :
      (List ExistingFile → String)
      → Workspace
      → Generator.Request
      → List RenderedFile
      → List LockedFile
      → Result GeneratorError (PreparedChangeSet × Option GeneratorError)
  unfolding duplicate_rendered snapshot_changed
  prepare_target checksum workspace request rendered previous =
      inspect_target lower digest checksum workspace previous >>= λ snapshot.
      elim (validate_file_request lower request snapshot) [
        | err problem ↦ ok (
          record {
            snapshot = snapshot;
            changes = [];
            preserved = [];
            diagnostics = snapshot_changed snapshot request ∷ [];
          },
          some problem,
        )
        | ok passed ↦ locked_files_by_path lower previous >>= λ locked.
            guard (not (duplicate_rendered rendered)) duplicate_output
            >> guard (eqb (length rendered) (length request.desired_outputs)) plan_mismatch
            >> prepare_files workspace request snapshot locked rendered
      ]
