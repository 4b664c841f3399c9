-- ===== src/Generation/Commit/Laws.antt =====
-- A commit changes all files or none, and says truly when the target is unchanged.
use Prim.Native.String.{◌++◌ as ◌<>◌}
use text.Mathlib.Text.{starts_with}
use unified_software_commerc.Prelude.{
  ℕ, String, true, false, not, ◌&&◌, ◌||◌, eq_refl, none, List, [], ◌∷◌, any, all, length, ◌==◌, ok,
  ◌≡◌, refl, sym, ap, ◌∙◌, subst, arith, eq_of_==, All, Bool-cases, Option-cases, Result-cases, inl,
  inr,
}
use unified_software_commerc.Generation.Model.{
  GeneratorError, FileChange, PreparedChangeSet, CommitResult, ExistingFile, commit_failed,
}
use unified_software_commerc.Generation.Model as Generator
use unified_software_commerc.Generation.Paths.{paths_overlap}
use unified_software_commerc.Generation.Target.{sort_changes}
use unified_software_commerc.Generation.Target.Laws.{sort_changes-All}
use unified_software_commerc.Generation.Commit.Files.{Tree, SameTree, lookup, has_directory}
use unified_software_commerc.Generation.Commit.{
  Faults, JournalItem, Replaced, valid_action, undo_changes, rollback_applied, ready_to_replace,
  ensure_directories, replace_files, stage_changes, verify_files, empty_result, staging_failed,
  rollback_after_failure, commit_finished, commit_staged, validate_commit_paths, commit_checks,
  commit_prepared, staging_way, cleanup_stage, swept, commit,
}
use unified_software_commerc.Generation.Commit.Undo.{
  Backed, Apart, undo_directories-files, ensure_directories-files,
}
use unified_software_commerc.Generation.Commit.Restore.{
  UndoesTo, replace_files-UndoesTo, replace-stopped, replace-went_on,
}
use unified_software_commerc.Generation.Commit.Directories.{
  Made, any-drop_directory, ensure_directories-Made, ensure_directories-within, replace_files-Made,
  undo_changes-directories, undo_directories-clean,
}
use unified_software_commerc.Generation.Commit.Staging.{
  Distinct, sort_changes-Distinct, Distinct-found, HasItem, stage_changes-Backed,
}

-- A tree apart from the staging directory: every file and every directory of the other one, and no
-- directory more than those on the way to the staging directory.
pub record IsKept (staging_path : String) (o t : Tree) : Type 0 where
  pub files :
      (q : String)
      → starts_with q (staging_path <> "/") ≡ false
      → lookup q o.files ≡ lookup q t.files
  pub directories : (q : String) → has_directory q t ≡ true → has_directory q o ≡ true
  pub no_more :
      (q : String)
      → starts_with q (staging_path <> "/") ≡ false
      → has_directory q o ≡ true
      → has_directory q t ≡ false
      → any (λ d. d == q) (staging_way staging_path) ≡ true

true_not_false : ¬ (true ≡ false)
true_not_false e = cc

module _ (faults : Faults) where
  -- A rollback without an error gives back the tree.
  rollback-SameTree :
      (r : Replaced) (t : Tree)
      → UndoesTo faults r t
      → Made r.created t r.tree
      → (rollback_applied faults r.applied r.created r.tree).0 ≡ false
      → SameTree (rollback_applied faults r.applied r.created r.tree).1 t
  unfolding rollback_applied has_directory
  rollback-SameTree r t undoes made clean = record {
    same_files = λ q.
        ap (lookup q) (undo_directories-files faults r.created restored)
        ∙ undoes r.tree (λ p. refl) (ground arith) q;
    same_directories = λ q. ground (
      arith,
      undo_directories-clean faults r.created restored q,
      dirs_same q,
      made.directories_are q,
      new q r.created made.are_new,
    );
  }
    where
      restored : Tree
      restored = (undo_changes faults r.applied r.tree).1

      dirs_same : (q : String) → has_directory q restored ≡ has_directory q r.tree
      dirs_same q =
          ap (λ ds. any (λ d. d == q) ds) (undo_changes-directories faults r.applied r.tree)

      new :
          (q : String) (ds : List String)
          → All (λ d. has_directory d t ≡ false) ds
          → any (λ d. d == q) ds ≡ true
          → has_directory q t ≡ false
      new q [] h k = absurd (ground arith)
      new q (d ∷ ds) (h, hs) k = elim (Bool-cases (d == q)) [
        | inl here ↦ subst (λ x. has_directory x t ≡ false) (eq_of_== d q here) h
        | inr past ↦ new q ds hs (ground arith)
      ]

  module _ (lower : String → String) (digest : List ℕ → String) where
    rollback_after_failure-SameTree :
        (prepared : PreparedChangeSet) (changes : List FileChange) (items : List JournalItem)
        (t : Tree)
        → All (Backed changes t) items
        → Apart items
        → (rollback_after_failure faults lower digest prepared
            (replace_files faults lower digest 0 changes items t)).result.target_unchanged
          ≡ true
        → SameTree
            (rollback_after_failure faults lower digest prepared
              (replace_files faults lower digest 0 changes items t)).tree
            t
    unfolding rollback_after_failure
    rollback_after_failure-SameTree prepared changes items t backed apart h =
        rollback-SameTree (replace_files faults lower digest 0 changes items t) t
          (replace_files-UndoesTo faults lower digest changes 0 items t backed apart)
          (replace_files-Made faults lower digest changes 0 items t) (ground arith)

    -- A loop that ends without a problem and has applied nothing had nothing to apply.
    replace_files-idle :
        (changes : List FileChange) (items : List JournalItem) (t : Tree)
        → All (Backed changes t) items
        → (replace_files faults lower digest 0 changes items t).problem ≡ none
        → length (replace_files faults lower digest 0 changes items t).applied ≡ 0
        → (replace_files faults lower digest 0 changes items t).tree ≡ t
    unfolding replace_files
    replace_files-idle changes [] t backed h none' = refl
    replace_files-idle changes (item ∷ items) t (b, backed) h none' =
        elim (Option-cases (ready_to_replace faults lower digest 0 b.change t).problem) [
          | inr (problem, stop) ↦ absurd (
              ground (
                arith,
                replace-stopped faults lower digest changes 0 item items t b.change problem b.found
                    stop,
              ))
          | inl go ↦ absurd (
              ground (
                arith,
                replace-went_on faults lower digest changes 0 item items t b.change b.found go,
              ))
        ]

    commit_staged-SameTree :
        (prepared : PreparedChangeSet) (changes : List FileChange) (items : List JournalItem)
        (t : Tree)
        → All (Backed changes t) items
        → Apart items
        → (commit_staged faults lower digest prepared changes items t).result.target_unchanged
          ≡ true
        → SameTree (commit_staged faults lower digest prepared changes items t).tree t
    unfolding commit_staged commit_finished
    commit_staged-SameTree prepared changes items t backed apart h =
        let replaced = replace_files faults lower digest 0 changes items t in
        let back = rollback_after_failure faults lower digest prepared replaced in
        elim (Option-cases replaced.problem) [
          | inr (problem, stop) ↦
              let e : back ≡ commit_staged faults lower digest prepared changes items t =
                ground arith in
              subst (λ o. SameTree o.tree t) e
                (rollback_after_failure-SameTree prepared changes items t backed apart
                  (ground arith))
          | inl go ↦ elim (Bool-cases (verify_files faults lower digest changes replaced.tree)) [
            | inr wrong ↦
                let e : back ≡ commit_staged faults lower digest prepared changes items t =
                  ground arith in
                subst (λ o. SameTree o.tree t) e
                  (rollback_after_failure-SameTree prepared changes items t backed apart
                    (ground arith))
            | inl verified ↦
                let e : t ≡ (commit_staged faults lower digest prepared changes items t).tree =
                  sym (replace_files-idle changes items t backed go (ground arith))
                  ∙ ground arith in
                subst (λ u. SameTree u t) e
                  (record { same_files = λ q. refl; same_directories = λ q. refl })
          ]
        ]

    -- What the staging gives for the sorted changes.
    pub staged_journal :
        (request : Generator.Request) (prepared : PreparedChangeSet) (t : Tree)
        (journal : List JournalItem)
        → Distinct prepared.changes
        → validate_commit_paths faults lower digest request prepared.changes ≡ true
        → stage_changes faults lower digest 0 t [] (sort_changes prepared.changes) ≡ ok journal
        → All (Backed (sort_changes prepared.changes) t) journal
          × Apart journal
          × All
              (HasItem faults lower digest (sort_changes prepared.changes) t journal)
              (sort_changes prepared.changes)
    unfolding validate_commit_paths
    staged_journal request prepared t journal distinct checked staged =
        stage_changes-Backed faults lower digest (sort_changes prepared.changes) t 0 [] journal
          (sort_changes prepared.changes)
          (Distinct-found (sort_changes prepared.changes)
            (sort_changes-Distinct prepared.changes distinct))
          (sort_changes-All (λ c. valid_action c.action ≡ true) prepared.changes
            (actions prepared.changes (ground arith)))
          tt tt staged
      where
        actions :
            (cs : List FileChange)
            → all
                (λ c.
                  valid_action c.action
                  && not (paths_overlap lower c.path request.staging_path)
                  && not (paths_overlap lower c.path request.rollback_point_path))
                cs
              ≡ true
            → All (λ c. valid_action c.action ≡ true) cs
        actions [] h = tt
        actions (c ∷ cs) h = (ground arith, actions cs (ground arith))

    commit_prepared-SameTree :
        (request : Generator.Request) (prepared : PreparedChangeSet) (t : Tree)
        → Distinct prepared.changes
        → validate_commit_paths faults lower digest request prepared.changes ≡ true
        → (commit_prepared faults lower digest prepared t).result.target_unchanged ≡ true
        → SameTree (commit_prepared faults lower digest prepared t).tree t
    unfolding commit_prepared staging_failed
    commit_prepared-SameTree request prepared t distinct valid h =
        let same : SameTree t t = record { same_files = λ q. refl; same_directories = λ q. refl } in
        let result = commit_prepared faults lower digest prepared t in
        elim (Result-cases
          (stage_changes faults lower digest 0 t [] (sort_changes prepared.changes))) [
            | inr (problem, failed) ↦
                let e : t ≡ result.tree = ground arith in subst (λ u. SameTree u t) e same
            | inl (journal, staged) ↦ elim (Bool-cases faults.journal) [
              | inl broken ↦
                  let e : t ≡ result.tree = ground arith in subst (λ u. SameTree u t) e same
              | inr written ↦
                  let (backed, apart, items) =
                    staged_journal request prepared t journal distinct valid staged in
                  let e : commit_staged faults lower digest prepared (sort_changes prepared.changes)
                        journal t
                      ≡ result =
                    ground arith in
                  subst (λ o. SameTree o.tree t) e
                    (commit_staged-SameTree prepared (sort_changes prepared.changes) journal t
                      backed apart (ground arith))
            ]
          ]

    cleanup_stage-directories :
        (p q : String) (t : Tree)
        → has_directory q (cleanup_stage faults lower digest p t)
          ≡ (has_directory q t && (faults.cleanup || not (p == q)))
    unfolding cleanup_stage has_directory
    cleanup_stage-directories p q t = ground (arith, any-drop_directory p q t.directories)

    cleanup_stage-files :
        (p : String) (t : Tree) → (cleanup_stage faults lower digest p t).files ≡ t.files
    unfolding cleanup_stage
    cleanup_stage-files p t = ground arith

    -- From the tree with the staging directory back to the one before.
    from_staged :
        (p : String) (u t : Tree)
        → has_directory p t ≡ false
        → SameTree u (ensure_directories faults (staging_way p) t).tree
        → IsKept p (cleanup_stage faults lower digest p u) t
    from_staged p u t absent same =
        let way = staging_way p in
        let made = ensure_directories-Made faults way t in
        record {
          files = λ q out.
              ap (lookup q) (cleanup_stage-files p u)
              ∙ same.same_files q
              ∙ ap (lookup q) (ensure_directories-files faults way t);
          directories = λ q there. ground (
            arith,
            cleanup_stage-directories p q u,
            same.same_directories q,
            made.directories_are q,
            staging_apart q there,
          );
          no_more = λ q out there absent'. ground (
            arith,
            cleanup_stage-directories p q u,
            same.same_directories q,
            made.directories_are q,
            ensure_directories-within faults way t q,
          );
        }
      where
        staging_apart : (q : String) → has_directory q t ≡ true → (p == q) ≡ false
        staging_apart q there = elim (Bool-cases (p == q)) [
          | inr no' ↦ no'
          | inl yes' ↦ absurd (
              true_not_false (
                sym (subst (λ d. has_directory d t ≡ true) (sym (eq_of_== p q yes')) there)
                ∙ absent))
        ]

    pub passed_checks :
        (checksum : List ExistingFile → String) (request : Generator.Request)
        (prepared : PreparedChangeSet) (t : Tree)
        → commit_checks faults lower digest checksum request prepared t ≡ ok tt
        → (validate_commit_paths faults lower digest request prepared.changes ≡ true)
          × (has_directory request.staging_path t ≡ false)
    unfolding commit_checks
    passed_checks checksum request prepared t h = (ground arith, ground arith)

    cleanup_reported :
        (prepared : PreparedChangeSet) (t : Tree)
        → (commit_prepared faults lower digest prepared t).result.staging_cleanup_completed ≡ true
        → faults.cleanup ≡ false
    unfolding commit_prepared staging_failed commit_staged commit_finished rollback_after_failure
    cleanup_reported prepared t h = elim (Bool-cases faults.cleanup) [
      | inr works ↦ works
      | inl fails ↦
          let sorted = sort_changes prepared.changes in
          elim (Result-cases (stage_changes faults lower digest 0 t [] sorted)) [
            | inr (problem, failed) ↦ absurd (ground arith)
            | inl (journal, staged) ↦
                elim (Option-cases (replace_files faults lower digest 0 sorted journal t).problem) [
                  | inr (problem, stop) ↦ absurd (ground arith)
                  | inl go ↦ absurd (ground arith)
                ]
          ]
    ]

    removed :
        (p : String) (t : Tree)
        → faults.cleanup ≡ false
        → (has_directory p t && (faults.cleanup || not (p == p))) ≡ false
    removed p t works = ground (arith, eq_refl p)

    -- A commit of changes of different paths that reports the target as unchanged has, whatever failed on
    -- the way, left every directory and every file outside the staging directory as it was; it may have
    -- made the directories on the way to the staging directory, and no others; and where it reports the
    -- cleanup of the staging as completed, the staging directory is gone.
    pub unchanged_is_true :
        (checksum : List ExistingFile → String) (request : Generator.Request)
        (prepared : PreparedChangeSet) (t : Tree)
        → Distinct prepared.changes
        → (commit faults lower digest checksum request prepared t).result.target_unchanged ≡ true
        → IsKept request.staging_path
            (commit faults lower digest checksum request prepared t).tree
            t
          × ((commit faults lower digest checksum request prepared
                  t).result.staging_cleanup_completed
                ≡ true
              → has_directory request.staging_path
                  (commit faults lower digest checksum request prepared t).tree
                ≡ false)
    unfolding commit swept empty_result
    unchanged_is_true checksum request prepared t distinct h =
        let p = request.staging_path in
        let made = ensure_directories faults (staging_way p) t in
        let inner = commit_prepared faults lower digest prepared made.tree in
        let result = commit faults lower digest checksum request prepared t in
        elim (Result-cases (commit_checks faults lower digest checksum request prepared t)) [
          | inr (problem, refused) ↦ absurd (ground arith)
          | inl (passed, checked) ↦
              let (valid, absent) = passed_checks checksum request prepared t checked in
              elim (Option-cases made.problem) [
                | inr (problem, stop) ↦ absurd (ground arith)
                | inl go ↦
                    let e : cleanup_stage faults lower digest p inner.tree ≡ result.tree =
                      ground arith in
                    let swept' : inner.result.staging_cleanup_completed
                        ≡ result.result.staging_cleanup_completed =
                      ground arith in
                    (
                      subst (λ o. IsKept p o t) e
                          (from_staged p inner.tree t absent (
                            commit_prepared-SameTree request prepared made.tree distinct valid
                              (ground arith))),
                      λ completed.
                          ap (has_directory p) (sym e)
                          ∙ cleanup_stage-directories p p inner.tree
                          ∙ removed p inner.tree
                              (cleanup_reported prepared made.tree (swept' ∙ completed)),
                    )
              ]
        ]
