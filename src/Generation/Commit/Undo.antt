-- ===== src/Generation/Commit/Undo.antt =====
-- Undoing the applied changes gives the files that were there before.
use unified_software_commerc.Prelude.{
  ℕ, String, true, false, none, some, List, [], ◌∷◌, ◌++◌, ◌==◌, ◌≡◌, ◌⊎◌, refl, sym, ap, ◌∙◌,
  arith, eq_iff, eq_of_==, All, Bool-cases, Option-cases, inl, inr,
}
use unified_software_commerc.Generation.Model.{FileChange}
use unified_software_commerc.Generation.Commit.Files.{File, Tree, lookup, lookup-remove, lookup-put}
use unified_software_commerc.Generation.Commit.{
  Faults, JournalItem, change_by_path, parents, ensure_directories, undo_change, undo_directories,
  validate_target, mode_for, replaced_tree, applied_change, ready_to_replace,
}

abbrev pub SameFiles : Tree → Tree → Type 0
SameFiles t u = (q : String) → lookup q t.files ≡ lookup q u.files

pub change_by_path-path :
    (changes : List FileChange) (path : String) (c : FileChange)
    → change_by_path changes path ≡ some c
    → c.path ≡ path
unfolding change_by_path
change_by_path-path [] path c h = absurd (ground arith)
change_by_path-path (d ∷ changes) path c h = elim (Bool-cases (d.path == path)) [
  | inl here ↦ let e : d ≡ c = ground arith in ap (λ x. x.path) (sym e) ∙ eq_of_== d.path path here
  | inr past ↦ change_by_path-path changes path c (ground arith)
]

-- An item has its change; it has a backup, of the file that is there, exactly if the change
-- creates nothing.
pub record Backed (changes : List FileChange) (t : Tree) (item : JournalItem) : Type 0 where
  pub change : FileChange
  pub found : change_by_path changes item.path ≡ some change
  pub backup_is :
      (((change.action == "created") ≡ true) × (item.backup ≡ none))
      ⊎ (((change.action == "created") ≡ false)
          × ((file : File) × (lookup item.path t.files ≡ some file)
              × (item.backup ≡ some file.bytes)))

-- No two items have one path.
abbrev pub Apart : List JournalItem → Type 0
Apart [] = Unit
Apart (item ∷ items) = All (λ other. (item.path == other.path) ≡ false) items × Apart items

pub Backed-change :
    (changes : List FileChange) (t : Tree) (item : JournalItem) (c : FileChange)
    → change_by_path changes item.path ≡ some c
    → (b : Backed changes t item) → b.change ≡ c
Backed-change changes t item c found b = cc (found, b.found)

module _ (faults : Faults) where
  -- Making directories touches no file.
  pub ensure_directories-files :
      (ds : List String) (t : Tree) → (ensure_directories faults ds t).tree.files ≡ t.files
  unfolding ensure_directories
  ensure_directories-files [] t = refl
  ensure_directories-files (d ∷ ds) t = ground (
    arith,
    ensure_directories-files ds t,
    ensure_directories-files ds (record t { directories = t.directories ++ d ∷ [] }),
  )

  pub undo_directories-files :
      (ds : List String) (t : Tree) → (undo_directories faults ds t).1.files ≡ t.files
  unfolding undo_directories
  undo_directories-files [] t = refl
  undo_directories-files (d ∷ ds) t = ground (arith, undo_directories-files ds t)

  module _ (lower : String → String) (digest : List ℕ → String) where
    pub ready_to_replace-files :
        (i : ℕ) (c : FileChange) (t : Tree)
        → (ready_to_replace faults lower digest i c t).tree.files ≡ t.files
    unfolding ready_to_replace
    ready_to_replace-files i c t = ground (arith, ensure_directories-files (parents c.path) t)

    -- A change that creates a file is ready only where there is none.
    pub ready_to_replace-new :
        (i : ℕ) (c : FileChange) (t : Tree)
        → (c.action == "created") ≡ true
        → (ready_to_replace faults lower digest i c t).problem ≡ none
        → lookup c.path t.files ≡ none
    unfolding ready_to_replace validate_target
    ready_to_replace-new i c t created h = elim (Option-cases (lookup c.path t.files)) [
      | inl none' ↦ none'
      | inr (f, there) ↦
          absurd (
            ground (arith, there, ap (lookup c.path) (ensure_directories-files (parents c.path) t)))
    ]

    -- Undoing one replacement, in a tree with the files that it left.
    pub undo_change-SameFiles :
        (changes : List FileChange) (item : JournalItem) (t ready later : Tree)
        (b : Backed changes t item)
        → SameFiles ready t
        → (((b.change.action == "created") ≡ true) → lookup b.change.path ready.files ≡ none)
        → SameFiles later (replaced_tree faults lower digest item ready)
        → (undo_change faults (applied_change faults lower digest b.change item ready) later).0
          ≡ false
        → SameFiles
            (undo_change faults (applied_change faults lower digest b.change item ready) later).1
            t
    unfolding undo_change replaced_tree applied_change
    undo_change-SameFiles changes item t ready later b same new after h q =
        let path = change_by_path-path changes item.path b.change b.found in
        elim b.backup_is [
          | inl (created, no_backup) ↦ ground (
            arith,
            new created,
            same q,
            after q,
            lookup-remove b.change.path q later.files,
            lookup-put item.path q
                (record { bytes = item.bytes; mode = mode_for faults lower digest item ready })
                ready.files,
            eq_iff b.change.path q,
            eq_iff item.path q,
            path,
          )
          | inr (kept, (file, there, backup)) ↦ ground (
            arith,
            same q,
            same item.path,
            after q,
            there,
            lookup-put b.change.path q (record { bytes = file.bytes; mode = file.mode })
                later.files,
            lookup-put item.path q
                (record { bytes = item.bytes; mode = mode_for faults lower digest item ready })
                ready.files,
            eq_iff b.change.path q,
            eq_iff item.path q,
            path,
          )
        ]

    -- The items that are left are backed after a replacement too.
    pub Backed-replaced :
        (changes : List FileChange) (item other : JournalItem) (t ready : Tree)
        → SameFiles ready t
        → (item.path == other.path) ≡ false
        → Backed changes t other
        → Backed changes (replaced_tree faults lower digest item ready) other
    unfolding replaced_tree
    Backed-replaced changes item other t ready same apart b = record {
      change = b.change;
      found = b.found;
      backup_is = elim b.backup_is [
        | inl created ↦ inl created
        | inr (kept, (file, there, backup)) ↦ inr (
          kept,
          (
            file,
            lookup-put item.path other.path
                  (record { bytes = item.bytes; mode = mode_for faults lower digest item ready })
                  ready.files
                ∙ ground (arith, same other.path),
            backup,
          ),
        )
      ];
    }
