-- ===== src/Generation/Commit/Restore.antt =====
-- Rolling back the loop that replaces files.
use unified_software_commerc.Prelude.{
  ℕ, ◌+◌, String, false, Option, none, some, List, [], ◌∷◌, ◌++◌, ◌==◌, ◌≡◌, sym, ap, ◌∙◌, subst,
  arith, All, Option-cases, inl, inr,
}
use unified_software_commerc.Generation.Model.{GeneratorError, FileChange}
use unified_software_commerc.Generation.Commit.Files.{Tree, lookup}
use unified_software_commerc.Generation.Commit.{
  Faults, JournalItem, AppliedChange, Replaced, change_by_path, undo_change, undo_changes,
  replaced_tree, applied_change, ready_to_replace, replace_files,
}
use unified_software_commerc.Generation.Commit.Undo.{
  SameFiles, Backed, Apart, ready_to_replace-files, ready_to_replace-new, undo_change-SameFiles,
  Backed-replaced,
}

-- From the tree that the loop has left, undoing what it applied gives back the files of a tree.
abbrev pub UndoesTo : Faults → Replaced → Tree → Type 0
UndoesTo faults r t =
    (later : Tree)
    → SameFiles later r.tree
    → (undo_changes faults r.applied later).0 ≡ false
    → SameFiles (undo_changes faults r.applied later).1 t

undo-nil :
    (faults : Faults) (created : List String) (t : Tree) (problem : Option GeneratorError)
    → UndoesTo faults (record { applied = []; created = created; tree = t; problem = problem }) t
unfolding undo_changes
undo-nil faults created t problem later same clean = same

undo-cons :
    (faults : Faults) (r : Replaced) (item : AppliedChange) (created : List String) (t t' : Tree)
    → UndoesTo faults r t'
    → ((later : Tree)
        → SameFiles later t'
        → (undo_change faults item later).0 ≡ false
        → SameFiles (undo_change faults item later).1 t)
    → UndoesTo faults (record r { applied = item ∷ r.applied; created = created }) t
unfolding undo_changes
undo-cons faults r item created t t' rest one later same clean =
    one (undo_changes faults r.applied later).1 (rest later same (ground arith)) (ground arith)

module _ (faults : Faults) (lower : String → String) (digest : List ℕ → String)
    (changes : List FileChange) where
  -- The first round of the loop, by its outcome.
  pub replace-stopped :
      (i : ℕ) (item : JournalItem) (items : List JournalItem) (t : Tree) (c : FileChange)
      (problem : GeneratorError)
      → change_by_path changes item.path ≡ some c
      → (ready_to_replace faults lower digest i c t).problem ≡ some problem
      → replace_files faults lower digest i changes (item ∷ items) t ≡ record {
        applied = [];
        created = (ready_to_replace faults lower digest i c t).created;
        tree = (ready_to_replace faults lower digest i c t).tree;
        problem = some problem;
      }
  unfolding replace_files
  replace-stopped i item items t c problem found stop = ground arith

  abbrev pub next_of : ℕ → JournalItem → List JournalItem → FileChange → Tree → Replaced
  next_of i item items c t =
      replace_files faults lower digest (i + 1) changes items
        (replaced_tree faults lower digest item (ready_to_replace faults lower digest i c t).tree)

  pub replace-went_on :
      (i : ℕ) (item : JournalItem) (items : List JournalItem) (t : Tree) (c : FileChange)
      → change_by_path changes item.path ≡ some c
      → (ready_to_replace faults lower digest i c t).problem ≡ none
      → replace_files faults lower digest i changes (item ∷ items) t
        ≡ record (next_of i item items c t) {
          applied =
              applied_change faults lower digest c item
                (ready_to_replace faults lower digest i c t).tree
              ∷ (next_of i item items c t).applied;
          created =
              (ready_to_replace faults lower digest i c t).created
              ++ (next_of i item items c t).created;
        }
  unfolding replace_files
  replace-went_on i item items t c found go = ground arith

  pub Backed-rest :
      (x : JournalItem) (xs : List JournalItem) (u v : Tree)
      → SameFiles v u
      → All (λ other. (x.path == other.path) ≡ false) xs
      → All (Backed changes u) xs
      → All (Backed changes (replaced_tree faults lower digest x v)) xs
  Backed-rest x [] u v h a k = tt
  Backed-rest x (y ∷ ys) u v h (a, as') (k, ks) =
      (Backed-replaced faults lower digest changes x y u v h a k, Backed-rest x ys u v h as' ks)

  pub replace_files-UndoesTo :
      (i : ℕ) (items : List JournalItem) (t : Tree)
      → All (Backed changes t) items
      → Apart items
      → UndoesTo faults (replace_files faults lower digest i changes items t) t
  unfolding replace_files
  replace_files-UndoesTo i [] t backed apart = undo-nil faults [] t none
  replace_files-UndoesTo i (item ∷ items) t (b, backed) (alone, apart) =
      let ready = ready_to_replace faults lower digest i b.change t in
      let same : SameFiles ready.tree t =
        λ q. ap (lookup q) (ready_to_replace-files faults lower digest i b.change t) in
      let t' = replaced_tree faults lower digest item ready.tree in
      elim (Option-cases ready.problem) [
        | inr (problem, stop) ↦
            subst (λ r. UndoesTo faults r t)
              (sym (replace-stopped i item items t b.change problem b.found stop))
              (λ later left clean q.
                undo-nil faults ready.created ready.tree (some problem) later left clean q ∙ same q)
        | inl go ↦
            subst (λ r. UndoesTo faults r t)
              (sym (replace-went_on i item items t b.change b.found go))
              (undo-cons faults (next_of i item items b.change t)
                (applied_change faults lower digest b.change item ready.tree)
                (ready.created ++ (next_of i item items b.change t).created) t t'
                (replace_files-UndoesTo (i + 1) items t'
                  (Backed-rest item items t ready.tree same alone backed) apart)
                (λ later left clean.
                  undo_change-SameFiles faults lower digest changes item t ready.tree later b same
                    (λ created.
                      same b.change.path
                      ∙ ready_to_replace-new faults lower digest i b.change t created go)
                    left clean))
      ]
