-- ===== src/Generation/Commit/Atomic.antt =====
-- A commit whose undoing does not fail writes every change or changes no file.
use unified_software_commerc.Prelude.{
  ℕ, ◌+◌, String, Bool, true, false, ◌||◌, none, some, List, [], ◌∷◌, ◌==◌, ◌≡◌, ◌≢◌, ◌⊎◌, refl,
  sym, ap, ◌∙◌, subst, arith, eq_iff, eq_refl, All, All-weaken, All-lookup, Bool-cases,
  Option-cases, Result-cases, inl, inr,
}
use unified_software_commerc.Generation.Model.{
  GeneratorError, FileChange, PreparedChangeSet, CommitResult, ExistingFile, commit_failed,
}
use unified_software_commerc.Generation.Model as Generator
use unified_software_commerc.Generation.Paths.{text_lt}
use unified_software_commerc.Generation.Target.{insert_change, sort_changes}
use unified_software_commerc.Generation.Target.Laws.{sort_changes-All}
use unified_software_commerc.Generation.Commit.Files.{File, Tree, lookup, lookup-put}
use unified_software_commerc.Generation.Commit.{
  Faults, JournalItem, Replaced, change_by_path, undo_change, undo_changes, rollback_applied,
  applied_change, replaced_tree, mode_for, ready_to_replace, replace_files, stage_changes,
  verify_files, Outcome, empty_result, staging_failed, rollback_after_failure, commit_finished,
  commit_staged, commit_checks, commit_prepared, validate_commit_paths, ensure_directories,
  staging_way, cleanup_stage, swept, commit,
}
use unified_software_commerc.Generation.Commit.Undo.{
  SameFiles, Backed, Apart, change_by_path-path, undo_directories-files, ensure_directories-files,
  ready_to_replace-files,
}
use unified_software_commerc.Generation.Commit.Restore.{
  replace_files-UndoesTo, replace-stopped, replace-went_on, next_of, Backed-rest,
}
use unified_software_commerc.Generation.Commit.Staging.{Distinct, HasItem}
use unified_software_commerc.Generation.Commit.Laws.{staged_journal, passed_checks}

insert_change-unsort :
    (P : FileChange → Type 0) (c : FileChange) (cs : List FileChange)
    → All P (insert_change c cs)
    → P c × All P cs
unfolding insert_change
insert_change-unsort P c [] h = h
insert_change-unsort P c (d ∷ cs) h = elim (Bool-cases (text_lt d.path c.path)) [
  | inl behind ↦
      let e : insert_change c (d ∷ cs) ≡ d ∷ insert_change c cs = ground arith in
      let (k, rest) = subst (All P) e h in
      let (here, others) = insert_change-unsort P c cs rest in (here, (k, others))
  | inr ahead ↦ let e : insert_change c (d ∷ cs) ≡ c ∷ d ∷ cs = ground arith in subst (All P) e h
]

sort_changes-unsort :
    (P : FileChange → Type 0) (cs : List FileChange) → All P (sort_changes cs) → All P cs
unfolding sort_changes
sort_changes-unsort P [] h = tt
sort_changes-unsort P (c ∷ cs) h =
    let (here, rest) = insert_change-unsort P c (sort_changes cs) h in
    (here, sort_changes-unsort P cs rest)

change_by_path-All :
    (P : FileChange → Type 0) (cs : List FileChange) (path : String) (c : FileChange)
    → All P cs
    → change_by_path cs path ≡ some c
    → P c
unfolding change_by_path
change_by_path-All P [] path c h found = absurd (ground arith)
change_by_path-All P (d ∷ cs) path c (h, hs) found = elim (Bool-cases (d.path == path)) [
  | inl here ↦ let e : d ≡ c = ground arith in subst P e h
  | inr past ↦ change_by_path-All P cs path c hs (ground arith)
]

module _ (faults : Faults) (never : (path : String) → faults.undo_file path ≡ false)
    (lower : String → String) (digest : List ℕ → String) (changes : List FileChange) where
  -- The files that the loop writes, and those that it leaves alone.
  abbrev Wrote : Tree → JournalItem → Type 0
  Wrote u item =
      (mode : ℕ) × (lookup item.path u.files ≡ some (record { bytes = item.bytes; mode = mode }))

  abbrev left : ℕ → List JournalItem → Tree → Replaced
  left i items t = replace_files faults lower digest i changes items t

  -- Undoing does not fail, since every change that creates nothing has a backup.
  undo_changes-clean :
      (i : ℕ) (items : List JournalItem) (t : Tree) (later : Tree)
      → All (Backed changes t) items
      → Apart items
      → (undo_changes faults (left i items t).applied later).0 ≡ false
  unfolding replace_files undo_changes applied_change
  undo_changes-clean i [] t later backed apart = refl
  undo_changes-clean i (item ∷ items) t later (b, backed) (alone, apart) =
      let ready = ready_to_replace faults lower digest i b.change t in
      let same : SameFiles ready.tree t =
        λ q. ap (lookup q) (ready_to_replace-files faults lower digest i b.change t) in
      elim (Option-cases ready.problem) [
        | inr (problem, stop) ↦ ground (
          arith,
          replace-stopped faults lower digest changes i item items t b.change problem b.found stop,
        )
        | inl go ↦
            subst (λ r. (undo_changes faults r.applied later).0 ≡ false)
              (sym (replace-went_on faults lower digest changes i item items t b.change b.found go))
              (one b.change item ready.tree b.backup_is
                (undo_changes faults
                  (next_of faults lower digest changes i item items b.change t).applied later)
                (undo_changes-clean (i + 1) items
                  (replaced_tree faults lower digest item ready.tree) later
                  (Backed-rest faults lower digest changes item items t ready.tree same alone
                    backed)
                  apart))
      ]
    where
      one :
          (c : FileChange) (x : JournalItem) (u : Tree)
          → ((((c.action == "created") ≡ true) × (x.backup ≡ none))
              ⊎ (((c.action == "created") ≡ false)
                  × ((file : File) × (lookup x.path t.files ≡ some file)
                      × (x.backup ≡ some file.bytes))))
          → (r : Bool × Tree) → r.0 ≡ false
          → (r.0 || (undo_change faults (applied_change faults lower digest c x u) r.1).0) ≡ false
      one c x u (inl (created, none')) r clean = ground (arith, never c.path)
      one c x u (inr (kept, (file, there, backup))) r clean = ground (arith, never c.path)

  replaced_other :
      (item : JournalItem) (t : Tree) (q : String)
      → (item.path == q) ≡ false
      → lookup q (replaced_tree faults lower digest item t).files ≡ lookup q t.files
  unfolding replaced_tree
  replaced_other item t q o =
      lookup-put item.path q
        (record { bytes = item.bytes; mode = mode_for faults lower digest item t }) t.files
      ∙ ground arith

  replaced_same :
      (item : JournalItem) (t : Tree)
      → lookup item.path (replaced_tree faults lower digest item t).files
        ≡ some (record { bytes = item.bytes; mode = mode_for faults lower digest item t })
  unfolding replaced_tree
  replaced_same item t =
      lookup-put item.path item.path
        (record { bytes = item.bytes; mode = mode_for faults lower digest item t }) t.files
      ∙ ground (arith, eq_refl item.path)

  replace_files-keeps :
      (i : ℕ) (items : List JournalItem) (t : Tree) (q : String)
      → All (λ item. (item.path == q) ≡ false) items
      → lookup q (left i items t).tree.files ≡ lookup q t.files
  unfolding replace_files
  replace_files-keeps i [] t q other = refl
  replace_files-keeps i (item ∷ items) t q (o, other) =
      elim (Option-cases (change_by_path changes item.path)) [
        | inl none' ↦ ground arith
        | inr (c, found) ↦
            let ready = ready_to_replace faults lower digest i c t in
            let same : lookup q ready.tree.files ≡ lookup q t.files =
              ap (lookup q) (ready_to_replace-files faults lower digest i c t) in
            elim (Option-cases ready.problem) [
              | inr (problem, stop) ↦
                  ap (λ r. lookup q r.tree.files)
                    (replace-stopped faults lower digest changes i item items t c problem found
                      stop)
                  ∙ same
              | inl go ↦
                  ap (λ r. lookup q r.tree.files)
                    (replace-went_on faults lower digest changes i item items t c found go)
                  ∙ replace_files-keeps (i + 1) items
                      (replaced_tree faults lower digest item ready.tree) q other
                  ∙ replaced_other item ready.tree q o
                  ∙ same
            ]
      ]

  replace_files-writes :
      (i : ℕ) (items : List JournalItem) (t : Tree)
      → All (Backed changes t) items
      → Apart items
      → (left i items t).problem ≡ none
      → All (Wrote (left i items t).tree) items
  replace_files-writes i [] t backed apart h = tt
  replace_files-writes i (item ∷ items) t (b, backed) (alone, apart) h =
      let ready = ready_to_replace faults lower digest i b.change t in
      let same : SameFiles ready.tree t =
        λ q. ap (lookup q) (ready_to_replace-files faults lower digest i b.change t) in
      let t' = replaced_tree faults lower digest item ready.tree in
      elim (Option-cases ready.problem) [
        | inr (problem, stop) ↦
            let e =
              replace-stopped faults lower digest changes i item items t b.change problem b.found
                stop in
            absurd (ground (arith, e))
        | inl go ↦
            let e =
              replace-went_on faults lower digest changes i item items t b.change b.found go in
            let rest : (left (i + 1) items t').problem ≡ none = sym (ap (λ r. r.problem) e) ∙ h in
            subst (λ r. All (Wrote r.tree) (item ∷ items)) (sym e)
              (
                (
                  mode_for faults lower digest item ready.tree,
                  replace_files-keeps (i + 1) items t' item.path (
                        All-weaken (λ o. (item.path == o.path) ≡ false)
                          (λ o. (o.path == item.path) ≡ false) items
                          (λ o h'. ground (arith, eq_iff item.path o.path, eq_iff o.path item.path))
                          alone)
                      ∙ replaced_same item ready.tree,
                ),
                replace_files-writes (i + 1) items t'
                    (Backed-rest faults lower digest changes item items t ready.tree same alone
                      backed)
                    apart rest,
              )
      ]

  rolled_back-SameFiles :
      (prepared : PreparedChangeSet) (items : List JournalItem) (t : Tree)
      → All (Backed changes t) items
      → Apart items
      → SameFiles (rollback_after_failure faults lower digest prepared (left 0 items t)).tree t
  unfolding rollback_after_failure rollback_applied
  rolled_back-SameFiles prepared items t backed apart q =
      ap (lookup q) (undo_directories-files faults (left 0 items t).created _)
      ∙ replace_files-UndoesTo faults lower digest changes 0 items t backed apart
          (left 0 items t).tree (λ p. refl)
          (undo_changes-clean 0 items t (left 0 items t).tree backed apart) q

  -- An outcome without a problem in which the items are written, or one with a problem and the files.
  abbrev Settles : Outcome faults lower digest → List JournalItem → Tree → Type 0
  Settles o items t =
      ((o.problem ≡ none) × (o.tree ≡ (left 0 items t).tree) × ((left 0 items t).problem ≡ none))
      ⊎ ((o.problem ≢ none) × SameFiles o.tree t)

  commit_staged-Settles :
      (prepared : PreparedChangeSet) (items : List JournalItem) (t : Tree)
      → faults.cleanup ≡ false
      → All (Backed changes t) items
      → Apart items
      → Settles (commit_staged faults lower digest prepared changes items t) items t
  unfolding commit_staged commit_finished
  commit_staged-Settles prepared items t swept backed apart =
      let back = rollback_after_failure faults lower digest prepared (left 0 items t) in
      let fails : back.problem ≢ none =
        unfold rollback_after_failure in λ h. absurd (ground arith) in
      let restored = rolled_back-SameFiles prepared items t backed apart in
      elim (Option-cases (left 0 items t).problem) [
        | inr (problem, stop) ↦
            let e : back ≡ commit_staged faults lower digest prepared changes items t =
              ground arith in
            subst (λ o. Settles o items t) e (inr (fails, restored))
        | inl go ↦
            elim (Bool-cases (verify_files faults lower digest changes (left 0 items t).tree)) [
              | inr wrong ↦
                  let e : back ≡ commit_staged faults lower digest prepared changes items t =
                    ground arith in
                  subst (λ o. Settles o items t) e (inr (fails, restored))
              | inl verified ↦ inl (ground arith, ground arith, go)
            ]
      ]

-- The file of a change has its bytes.
abbrev pub IsWritten : Tree → FileChange → Type 0
IsWritten u c =
    ((c.action == "unchanged") ≡ true)
    ⊎ ((mode : ℕ) × (lookup c.path u.files ≡ some (record { bytes = c.bytes; mode = mode })))

Backed-elsewhere :
    (changes : List FileChange) (t : Tree) (q : String) (items : List JournalItem)
    → All (λ c. (c.path == q) ≡ false) changes
    → All (Backed changes t) items
    → All (λ item. (item.path == q) ≡ false) items
Backed-elsewhere changes t q [] other h = tt
Backed-elsewhere changes t q (item ∷ items) other (b, h) = (
  subst (λ p. (p == q) ≡ false) (change_by_path-path changes item.path b.change b.found)
      (change_by_path-All (λ c. (c.path == q) ≡ false) changes item.path b.change other b.found),
  Backed-elsewhere changes t q items other h,
)

module _ (faults : Faults) (lower : String → String) (digest : List ℕ → String)
    (checksum : List ExistingFile → String) (request : Generator.Request)
    (prepared : PreparedChangeSet) (t : Tree) where
  HasItem-IsWritten :
      (journal : List JournalItem) (u : Tree) (c : FileChange)
      → All
          (λ item.
            (mode : ℕ) × (lookup item.path u.files
              ≡ some (record { bytes = item.bytes; mode = mode })))
          journal
      → HasItem faults lower digest (sort_changes prepared.changes) t journal c
      → IsWritten u c
  HasItem-IsWritten journal u c wrote (inl same) = inl same
  HasItem-IsWritten journal u c wrote (inr (item, m, path, bytes)) =
      let (mode, e) =
        All-lookup
          (λ (x : JournalItem).
            (mode : ℕ) × (lookup x.path u.files ≡ some (record { bytes = x.bytes; mode = mode })))
          journal wrote m in
      inr (
        mode,
        ap (λ p. lookup p u.files) (sym path)
            ∙ e
            ∙ ap (λ b. some (record { bytes = b; mode = mode })) bytes,
      )

  -- No problem, every change that is not `unchanged` written and every other path left alone; or a
  -- problem, and every file as it was.
  abbrev pub IsAllOrNothing : Outcome faults lower digest → Type 0
  IsAllOrNothing o =
      ((o.problem ≡ none)
        × All (IsWritten o.tree) prepared.changes
        × ((q : String)
            → All (λ c. (c.path == q) ≡ false) prepared.changes
            → lookup q o.tree.files ≡ lookup q t.files))
      ⊎ ((o.problem ≢ none) × SameFiles o.tree t)

  prepared-AllOrNothing :
      ((path : String) → faults.undo_file path ≡ false)
      → faults.cleanup ≡ false
      → Distinct prepared.changes
      → validate_commit_paths faults lower digest request prepared.changes ≡ true
      → IsAllOrNothing (commit_prepared faults lower digest prepared t)
  unfolding commit_prepared staging_failed
  prepared-AllOrNothing never swept' distinct valid =
      let result = commit_prepared faults lower digest prepared t in
      let sorted = sort_changes prepared.changes in
      elim (Result-cases (stage_changes faults lower digest 0 t [] sorted)) [
        | inr (problem, failed) ↦
            let e : result.tree ≡ t = ground arith in
            inr (λ h. absurd (ground arith), λ q. ap (λ u. lookup q u.files) e)
        | inl (journal, staged) ↦ elim (Bool-cases faults.journal) [
          | inl broken ↦
              let e : result.tree ≡ t = ground arith in
              inr (λ h. absurd (ground arith), λ q. ap (λ u. lookup q u.files) e)
          | inr kept ↦
              let (backed, apart, items) =
                staged_journal faults lower digest request prepared t journal distinct valid
                  staged in
              let e : commit_staged faults lower digest prepared sorted journal t ≡ result =
                ground arith in
              elim (subst (λ o. Settles faults never lower digest sorted o journal t) e
                (commit_staged-Settles faults never lower digest sorted prepared journal t swept'
                  backed apart)) [
                    | inr (fails, same) ↦ inr (fails, same)
                    | inl (fine, tree, done) ↦ inl (
                      fine,
                      sort_changes-unsort (IsWritten result.tree) prepared.changes (
                          All-weaken (HasItem faults lower digest sorted t journal)
                            (IsWritten result.tree) sorted
                            (λ c item.
                              subst (λ u. IsWritten u c) (sym tree)
                                (HasItem-IsWritten journal
                                  (replace_files faults lower digest 0 sorted journal t).tree c
                                  (replace_files-writes faults never lower digest sorted 0 journal t
                                    backed apart done)
                                  item))
                            items),
                      λ q other.
                          ap (λ u. lookup q u.files) tree
                          ∙ replace_files-keeps faults never lower digest sorted 0 journal t q (
                              Backed-elsewhere sorted t q journal
                                (sort_changes-All (λ c. (c.path == q) ≡ false) prepared.changes
                                  other)
                                backed),
                    )
                  ]
        ]
      ]

module _ (faults : Faults) (lower : String → String) (digest : List ℕ → String)
    (checksum : List ExistingFile → String) (request : Generator.Request)
    (prepared : PreparedChangeSet) where
  -- The files are what counts, before and after.
  same_files-AllOrNothing :
      (t u : Tree) (o o' : Outcome faults lower digest)
      → u.files ≡ t.files
      → o'.tree.files ≡ o.tree.files
      → o'.problem ≡ o.problem
      → IsAllOrNothing faults lower digest checksum request prepared u o
      → IsAllOrNothing faults lower digest checksum request prepared t o'
  same_files-AllOrNothing t u o o' before after problem (inl (fine, wrote, kept)) = inl (
    problem ∙ fine,
    All-weaken (IsWritten o.tree) (IsWritten o'.tree) prepared.changes (λ c w. written-after c w)
        wrote,
    λ q other. ap (lookup q) after ∙ kept q other ∙ ap (lookup q) before,
  )
    where
      written-after : (c : FileChange) → IsWritten o.tree c → IsWritten o'.tree c
      written-after c (inl same) = inl same
      written-after c (inr (mode, e)) = inr (mode, ap (lookup c.path) after ∙ e)
  same_files-AllOrNothing t u o o' before after problem (inr (fails, same)) =
      inr (λ h. fails (sym problem ∙ h), λ q. ap (lookup q) after ∙ same q ∙ ap (lookup q) before)

  -- Where undoing a change and removing the staging area do not fail, a commit of changes of different
  -- paths either reports no problem, has written the bytes of every change that is not `unchanged`, and
  -- has left every other path as it was; or it reports a problem and every file is as it was.
  pub all_or_nothing :
      (t : Tree)
      → ((path : String) → faults.undo_file path ≡ false)
      → faults.cleanup ≡ false
      → Distinct prepared.changes
      → IsAllOrNothing faults lower digest checksum request prepared t
          (commit faults lower digest checksum request prepared t)
  unfolding commit swept cleanup_stage empty_result
  all_or_nothing t never works distinct =
      let result = commit faults lower digest checksum request prepared t in
      let made = ensure_directories faults (staging_way request.staging_path) t in
      let files : made.tree.files ≡ t.files =
        ensure_directories-files faults (staging_way request.staging_path) t in
      elim (Result-cases (commit_checks faults lower digest checksum request prepared t)) [
        | inr (problem, refused) ↦
            let e : result.tree ≡ t = ground arith in
            inr (λ h. absurd (ground arith), λ q. ap (λ u. lookup q u.files) e)
        | inl (passed, checked) ↦ elim (Option-cases made.problem) [
          | inr (problem, stop) ↦
              let e : result.tree ≡ made.tree = ground arith in
              inr (
                λ h. absurd (ground arith),
                λ q. ap (λ u. lookup q u.files) e ∙ ap (lookup q) files,
              )
          | inl go ↦
              let (valid, absent) =
                passed_checks faults lower digest checksum request prepared t checked in
              same_files-AllOrNothing t made.tree
                (commit_prepared faults lower digest prepared made.tree) result files (ground arith)
                (ground arith)
                (prepared-AllOrNothing faults lower digest checksum request prepared made.tree never
                  works distinct valid)
        ]
      ]
