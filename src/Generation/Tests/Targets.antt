-- ===== src/Generation/Tests/Targets.antt =====
-- The preparation of a target: a generated file that the lock has, next to a file of the customer.
use unified_software_commerc.Prelude.{
  String, Bool, true, none, List, [], ◌∷◌, ◌==◌, ok, ◌≡◌, refl, ap,
}
use unified_software_commerc.Prelude.Text.{stable_code, is_digest}
use unified_software_commerc.Generation.Model.{
  ExistingFile, LockedFile, OutputSpec, RenderedFile, Request, FileChange, PreparedChangeSet,
  existing_eq,
}
use unified_software_commerc.Generation.Paths.{
  safe_relative_path, valid_ownership, text_lt, paths_overlap, digest_equal,
}
use unified_software_commerc.Generation.Inspect.{
  regular, directory, Workspace, inspect_target, locked_files_by_path, owner_in, collides,
  sort_existing_files,
}
use unified_software_commerc.Generation.Target.{
  prepare_target, prepare_files, prepare_outputs, prepare_output, prepare_owned,
  overlapping_protected_path, overlapping_existing_path, is_desired, is_kept, sort_changes,
  output_eq,
}
use unified_software_commerc.Generation.Target.Changes.{prepare_generated_change}
use unified_software_commerc.Generation.Target.Request.{
  validate_file_request, validate_outputs, validate_output, apart_from_staging,
}
use unified_software_commerc.Generation.Target.Baseline.{HasRegion}
use unified_software_commerc.Generation.Target.Laws.{PreparesSafely, prepared_target_is_safe}
use unified_software_commerc.Generation.Tests.{digest}

abbrev pub lower : String → String
lower text = text

abbrev equal_fold : String → String → Bool
equal_fold a b = a == b

abbrev pub full : String
full = digest (1 ∷ [])

abbrev pub checksum : List ExistingFile → String
checksum files = full

abbrev workspace : Workspace
workspace = record {
  root_safe = true;
  entries =
      ("cmd", directory)
      ∷ ("cmd/main.go", regular (1 ∷ 2 ∷ []))
      ∷ ("readme.md", regular (3 ∷ []))
      ∷ [];
}

abbrev pub main_file : ExistingFile
main_file = record { path = "cmd/main.go"; ownership = "generated"; sha256 = full }

abbrev pub readme : ExistingFile
readme = record { path = "readme.md"; ownership = "custom"; sha256 = full }

abbrev lock : List LockedFile
lock =
    (record {
      path = "cmd/main.go";
      ownership = "generated";
      sha256 = full;
      generated_sha256 = full;
      merge = none;
    })
    ∷ []

abbrev main_output : OutputSpec
main_output = record {
  path = "cmd/main.go";
  ownership = "generated";
  source_id = "template.main";
  source_version = "1.0.0";
  source_path = "main.tmpl";
  source_sha256 = full;
  render_strategy = "copy";
  content_type = "text";
  merge = none;
}

abbrev rendered : RenderedFile
rendered = record {
  spec = main_output;
  bytes = [];
  sha256 = digest [];
  generated_sha256 = digest [];
}

abbrev pub request : Request
request = record {
  schema_version = "1.0.0";
  request_id = "request.1";
  operation = "upgrade";
  workspace_ref = "workspace.1";
  plan_checksum = full;
  target_snapshot_checksum = full;
  inputs = record {
    blueprint_path = "blueprint.json";
    plan_path = "plan.json";
    previous_manifest_path = "manifest.json";
    previous_lock_path = "lock.json";
  };
  desired_outputs = main_output ∷ [];
  existing_files = main_file ∷ readme ∷ [];
  protected_paths = "docs" ∷ [];
  staging_path = ".runtime/staging";
  rollback_point_path = ".runtime/rollback";
  conflict_policy = "stop";
  determinism = record { timezone = "UTC"; locale = "C"; sort_order = "bytewise" };
}

abbrev pub main_change : FileChange
main_change = record {
  path = "cmd/main.go";
  ownership = "generated";
  action = "updated";
  bytes = [];
  sha256 = digest [];
  generated_sha256 = digest [];
  previous_sha256 = full;
}

abbrev pub change_set : PreparedChangeSet
change_set = record {
  snapshot = record { files = main_file ∷ readme ∷ []; checksum = full };
  changes = main_change ∷ [];
  preserved = readme ∷ [];
  diagnostics = [];
}

prepares :
    prepare_target lower equal_fold digest checksum workspace request (rendered ∷ []) lock
    ≡ ok (change_set, none)
unfolding prepare_target prepare_files prepare_outputs prepare_output prepare_owned
    overlapping_protected_path overlapping_existing_path is_desired is_kept sort_changes output_eq
    prepare_generated_change validate_file_request validate_outputs validate_output
    apart_from_staging inspect_target locked_files_by_path owner_in collides sort_existing_files
    safe_relative_path valid_ownership text_lt paths_overlap digest_equal stable_code is_digest
    existing_eq
prepares = refl

main_region : HasRegion rendered
main_region integration = absurd (cc (ap (λ o. o == "integration") integration))

prepared_target_is_safe_example :
    PreparesSafely lower equal_fold digest workspace request lock change_set
prepared_target_is_safe_example =
    prepared_target_is_safe lower equal_fold digest workspace request checksum (rendered ∷ []) lock
      change_set (main_region, tt) prepares
