-- ===== src/Generation/Inspect.antt =====
-- `InspectTarget`, `VerifyPreparedSnapshot` and `lockedFilesByPath` of
-- platform/backend/internal/modules/assembly/generation/target.go. A workspace is what the walk of the directory
-- meets below its root, in the order of the walk; a map is the list that fills it.
use unified_software_commerc.Prelude.{
  ℕ, String, Bool, true, false, not, ◌&&◌, Option, none, some, List, [], ◌∷◌, ◌++◌, map, find, any,
  ◌==◌, if◌then◌else◌, Result, err, ok, ◌>>=◌, ◌>>◌, guard,
}
use unified_software_commerc.Generation.Model.{
  GeneratorError, invalid_input, target_unsafe, target_changed, ExistingFile, LockedFile,
  TargetSnapshot, existing_eq,
}
use unified_software_commerc.Generation.Paths.{
  safe_relative_path, valid_ownership, text_lt, digest_equal,
}

-- A link is a link or another entry that `isUnsafeFilesystemEntry` refuses; a device is no regular
-- file and no directory.
pub data Entry : Type 0 where
  regular : List ℕ → Entry
  directory link device : Entry

pub record Workspace : Type 0 where
  -- The root and the directories above it are directories and no links.
  pub root_safe : Bool
  pub entries : List (String × Entry)

abbrev pub file_bytes : Entry → Option (List ℕ)
file_bytes (regular content) = some content
file_bytes entry = none

unfoldable pub read_file : String → List (String × Entry) → Option (List ℕ)
read_file path [] = none
read_file path ((name, entry) ∷ entries) =
    let later = read_file path entries in if name == path then file_bytes entry else later

unfoldable pub insert_existing : ExistingFile → List ExistingFile → List ExistingFile
insert_existing file [] = file ∷ []
insert_existing file (other ∷ files) =
    let behind = insert_existing file files in
    if text_lt other.path file.path then other ∷ behind else file ∷ other ∷ files

-- `sortExistingFiles`
unfoldable pub sort_existing_files : List ExistingFile → List ExistingFile
unfolding insert_existing
sort_existing_files [] = []
sort_existing_files (file ∷ files) = insert_existing file (sort_existing_files files)

module _ (lower : String → String) where
  abbrev pub find_locked : String → List LockedFile → Option LockedFile
  find_locked folded files = find (λ f. lower f.path == folded) files

  abbrev pub find_existing : String → List ExistingFile → Option ExistingFile
  find_existing folded files = find (λ f. lower f.path == folded) files

  locked_valid : LockedFile → Bool
  locked_valid file =
      safe_relative_path file.path && valid_ownership file.ownership && not (file.sha256 == "")

  unfoldable pub locked_files_by_path : List LockedFile → Result GeneratorError (List LockedFile)
  unfolding locked_valid
  locked_files_by_path [] = ok []
  locked_files_by_path (file ∷ files) =
      guard (locked_valid file && not (any (λ f. lower f.path == lower file.path) files))
        invalid_input
      >> locked_files_by_path files
      >>= λ rest. ok (file ∷ rest)

  -- The owner that the lock names, `custom` if it names none, and nothing where the case differs.
  unfoldable pub owner_in : List LockedFile → String → Option String
  owner_in locked path = elim (find_locked (lower path) locked) [
    | none ↦ some "custom"
    | some file ↦ if file.path == path then some file.ownership else none
  ]

  -- Another path that folds to the same text was seen.
  unfoldable pub collides : List ExistingFile → String → Bool
  collides seen path = any (λ f. lower f.path == lower path && not (f.path == path)) seen

  module _ (digest : List ℕ → String) (checksum : List ExistingFile → String) where
    inspect_entry :
        List LockedFile
        → List ExistingFile
        → String × Entry
        → Result GeneratorError (List ExistingFile)
    inspect_entry locked seen (path, link) = err target_unsafe
    inspect_entry locked seen (path, device) = err target_unsafe
    inspect_entry locked seen (path, directory) = ok seen
    inspect_entry locked seen (path, regular content) =
        guard (safe_relative_path path && not (collides seen path)) target_unsafe
        >> elim (owner_in locked path) [
          | none ↦ err target_unsafe
          | some ownership ↦ ok (
              seen ++ (record { path = path; ownership = ownership; sha256 = digest content }) ∷ [])
        ]

    inspect_entries :
        List LockedFile
        → List ExistingFile
        → List (String × Entry)
        → Result GeneratorError (List ExistingFile)
    inspect_entries locked seen [] = ok seen
    inspect_entries locked seen (entry ∷ entries) =
        inspect_entry locked seen entry >>= λ files. inspect_entries locked files entries

    unfoldable pub inspect_target :
        Workspace → List LockedFile → Result GeneratorError TargetSnapshot
    unfolding inspect_entries inspect_entry
    inspect_target workspace previous =
        guard workspace.root_safe target_unsafe >> locked_files_by_path previous >>= λ locked.
        inspect_entries locked [] workspace.entries >>= λ files.
        let sorted = sort_existing_files files in
        ok (record { files = sorted; checksum = checksum sorted })

    -- The lock that `inspectWithKnownOwnership` makes of a snapshot.
    known_owner : ExistingFile → LockedFile
    known_owner file = record {
      path = file.path;
      ownership = file.ownership;
      sha256 = file.sha256;
      generated_sha256 = "";
      merge = none;
    }

    same_snapshot : List ExistingFile → List ExistingFile → Bool
    same_snapshot [] [] = true
    same_snapshot (a ∷ as') (b ∷ bs) = existing_eq a b && same_snapshot as' bs
    same_snapshot as' bs = false

    unfoldable pub verify_prepared_snapshot :
        Workspace → TargetSnapshot → Result GeneratorError (Unit {0})
    unfolding known_owner same_snapshot
    verify_prepared_snapshot workspace expected =
        inspect_target workspace (map known_owner expected.files) >>= λ actual.
        guard
          (same_snapshot actual.files expected.files
            && digest_equal lower actual.checksum expected.checksum)
          target_changed
