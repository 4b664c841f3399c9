-- ===== src/Generation/Target/Changes.antt =====
-- `prepareGeneratedChange`, `prepareIntegrationChange` and their diagnostics.
use unified_software_commerc.Prelude.{
  ℕ, String, Bool, false, not, ◌&&◌, Option, none, some, List, [], ◌∷◌, ◌==◌, if◌then◌else◌, Result,
  err, ok,
}
use unified_software_commerc.Generation.Model.{
  GeneratorError, ownership_conflict, generated_modified, integration_region, target_changed,
  ExistingFile, LockedFile, MergeSpec, RenderedFile, Diagnostic, FileChange, merge_eq,
}
use unified_software_commerc.Generation.Region.{
  MergedRegion, create_integration_file, merge_integration_region,
}
use unified_software_commerc.Generation.Paths.{safe_relative_path, digest_equal}
use unified_software_commerc.Generation.Inspect.{Workspace, read_file}

-- The three values that the two functions return.
pub record Prepared : Type 0 where
  pub change : FileChange
  pub diagnostic : Option Diagnostic
  pub problem : Option GeneratorError

abbrev pub no_change : FileChange
no_change = record {
  path = "";
  ownership = "";
  action = "";
  bytes = [];
  sha256 = "";
  generated_sha256 = "";
  previous_sha256 = "";
}

unfoldable pub ownership_diagnostic :
    String → String → String → String → String → String → Diagnostic
ownership_diagnostic code path related_path expected actual message = record {
  code = code;
  category = "ownership";
  message = message;
  path = path;
  related_paths = related_path ∷ [];
  expected_ownership = expected;
  actual_ownership = actual;
  expected_sha256 = "";
  actual_sha256 = "";
  retryable = false;
  remediation =
      "move product-owned content away from the managed path or create an explicit eject/migration plan"
      ∷ [];
}

unfoldable pub checksum_diagnostic : String → String → String → String → String → Diagnostic
checksum_diagnostic code path expected actual message = record {
  code = code;
  category = "checksum";
  message = message;
  path = path;
  related_paths = [];
  expected_ownership = "";
  actual_ownership = "";
  expected_sha256 = expected;
  actual_sha256 = actual;
  retryable = false;
  remediation = "restore the locked baseline or eject the file before regenerating" ∷ [];
}

abbrev pub refuse_with : Diagnostic → GeneratorError → Prepared
refuse_with diagnostic problem = record {
  change = no_change;
  diagnostic = some diagnostic;
  problem = some problem;
}

abbrev pub change_with : FileChange → Prepared
change_with change = record { change = change; diagnostic = none; problem = none }

abbrev pub locked_as : Option LockedFile → String → Bool
locked_as none ownership = false
locked_as (some baseline) ownership = baseline.ownership == ownership

abbrev pub locked_digest : Option LockedFile → String
locked_digest none = ""
locked_digest (some baseline) = baseline.sha256

abbrev pub locked_generated : Option LockedFile → String
locked_generated none = ""
locked_generated (some baseline) = baseline.generated_sha256

-- `baseline.Merge == nil || file.Merge == nil || *baseline.Merge != *file.Merge`, negated
unfoldable pub same_merge : Option MergeSpec → Option MergeSpec → Bool
same_merge (some a) (some b) = merge_eq a b
same_merge a b = false

abbrev pub locked_merge : Option LockedFile → Option MergeSpec
locked_merge none = none
locked_merge (some baseline) = baseline.merge

module _ (lower : String → String) (digest : List ℕ → String) where
  unfoldable pub prepare_generated_change :
      RenderedFile → Option ExistingFile → Option LockedFile → Prepared
  prepare_generated_change file none none = change_with (record {
    path = file.spec.path;
    ownership = "generated";
    action = "created";
    bytes = file.bytes;
    sha256 = file.sha256;
    generated_sha256 = file.generated_sha256;
    previous_sha256 = "";
  })
  prepare_generated_change file none (some baseline) =
      refuse_with
        (checksum_diagnostic "GENERATOR_MANAGED_FILE_MISSING" file.spec.path baseline.sha256
          (digest []) "locked generated file is missing")
        generated_modified
  prepare_generated_change file (some current) baseline =
      if not (locked_as baseline "generated")
      then refuse_with
          (ownership_diagnostic "GENERATOR_OWNERSHIP_MISMATCH" file.spec.path file.spec.path
            "generated" current.ownership "generated output has no matching lock baseline")
          ownership_conflict
      else if not (digest_equal lower current.sha256 (locked_digest baseline))
      then refuse_with
          (checksum_diagnostic "GENERATOR_GENERATED_MODIFIED" file.spec.path
            (locked_digest baseline) current.sha256
            "generated file was modified after the last lock")
          generated_modified
      else change_with (record {
        path = file.spec.path;
        ownership = "generated";
        action = if digest_equal lower current.sha256 file.sha256 then "unchanged" else "updated";
        bytes = file.bytes;
        sha256 = file.sha256;
        generated_sha256 = file.generated_sha256;
        previous_sha256 = current.sha256;
      })

  -- `readSafeWorkspaceFile` in a workspace that was inspected, where no entry is a link.
  unfoldable pub read_safe_file : Workspace → String → Option (List ℕ)
  read_safe_file workspace path =
      if safe_relative_path path then read_file path workspace.entries else none

  unfoldable pub bytes_or_none : Option (List ℕ) → List ℕ
  bytes_or_none none = []
  bytes_or_none (some content) = content

  -- An error of `createIntegrationFile` comes without a diagnostic.
  unfoldable pub created_integration : RenderedFile → Prepared
  created_integration file = elim (create_integration_file digest file.bytes file.spec.merge) [
    | err e ↦ record { change = no_change; diagnostic = none; problem = some e }
    | ok created ↦ change_with (record {
      path = file.spec.path;
      ownership = "integration";
      action = "created";
      bytes = created.content;
      sha256 = digest created.content;
      generated_sha256 = created.generated_digest;
      previous_sha256 = "";
    })
  ]

  unfoldable pub region_modified : RenderedFile → Option LockedFile → String → Prepared
  region_modified file baseline actual =
      refuse_with
        (checksum_diagnostic "GENERATOR_INTEGRATION_REGION_MODIFIED" file.spec.path
          (locked_generated baseline) actual
          "integration generated region was modified or is structurally invalid")
        integration_region

  unfoldable pub merged_integration :
      RenderedFile
      → ExistingFile
      → Option LockedFile
      → Result GeneratorError MergedRegion
      → Prepared
  unfolding region_modified
  merged_integration file current baseline (err e) = region_modified file baseline ""
  merged_integration file current baseline (ok merged) =
      if not (digest_equal lower merged.current_digest (locked_generated baseline))
      then region_modified file baseline merged.current_digest
      else change_with (record {
        path = file.spec.path;
        ownership = "integration";
        action =
            if digest_equal lower (digest merged.content) current.sha256
            then "unchanged"
            else "updated";
        bytes = merged.content;
        sha256 = digest merged.content;
        generated_sha256 = merged.generated_digest;
        previous_sha256 = current.sha256;
      })

  -- The content that was read is the content that was inspected.
  unfoldable pub still_the_same : Option (List ℕ) → ExistingFile → Bool
  still_the_same none current = false
  still_the_same (some content) current = digest_equal lower (digest content) current.sha256

  unfoldable pub prepare_integration_change :
      Workspace → RenderedFile → Option ExistingFile → Option LockedFile → Prepared
  unfolding created_integration merged_integration bytes_or_none still_the_same
  prepare_integration_change workspace file none none = created_integration file
  prepare_integration_change workspace file none (some baseline) =
      refuse_with
        (checksum_diagnostic "GENERATOR_INTEGRATION_FILE_MISSING" file.spec.path baseline.sha256
          (digest []) "locked integration file is missing")
        integration_region
  prepare_integration_change workspace file (some current) baseline =
      let content = read_safe_file workspace file.spec.path in
      if not
        (locked_as baseline "integration" && same_merge (locked_merge baseline) file.spec.merge)
      then refuse_with
          (ownership_diagnostic "GENERATOR_INTEGRATION_BASELINE_MISSING" file.spec.path
            file.spec.path "integration" current.ownership
            "integration output has no matching generated-region baseline")
          ownership_conflict
      else if not (still_the_same content current)
      then refuse_with
          (checksum_diagnostic "GENERATOR_TARGET_CHANGED" file.spec.path current.sha256
            (digest (bytes_or_none content)) "integration file changed during preparation")
          target_changed
      else merged_integration file current baseline
          (merge_integration_region digest (bytes_or_none content) file.bytes file.spec.merge)
