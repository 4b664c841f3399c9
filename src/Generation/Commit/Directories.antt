-- ===== src/Generation/Commit/Directories.antt =====
-- The directories that a commit makes, and that a rollback without an error removes again.
use unified_software_commerc.Prelude.{
  true, ℕ, ◌+◌, String, Bool, false, not, ◌&&◌, ◌||◌, some, List, [], ◌∷◌, ◌++◌, any, is_some, ◌==◌,
  ◌≡◌, refl, sym, ◌⊎◌, subst, arith, eq_iff, All, All-weaken, All-append, Bool-cases, Option-cases,
  inl, inr,
}
use unified_software_commerc.Generation.Model.{
  GeneratorError, target_unsafe, commit_failed, FileChange,
}
use unified_software_commerc.Generation.Commit.Restore.{replace-stopped, replace-went_on}
use unified_software_commerc.Generation.Commit.Files.{Tree, has_directory, drop_directory, lookup}
use unified_software_commerc.Generation.Commit.{
  Faults, JournalItem, AppliedChange, Replaced, change_by_path, parents, ensure_directories,
  undo_change, undo_changes, undo_directories, replaced_tree, ready_to_replace, replace_files,
}

any-append : (p : String → Bool) (xs ys : List String) → any p (xs ++ ys) ≡ (any p xs || any p ys)
any-append p [] ys = refl
any-append p (x ∷ xs) ys = ground (arith, any-append p xs ys)

pub any-drop_directory :
    (d q : String) (es : List String)
    → any (λ e. e == q) (drop_directory d es) ≡ (any (λ e. e == q) es && not (d == q))
unfolding drop_directory
any-drop_directory d q [] = ground arith
any-drop_directory d q (e ∷ es) =
    ground (arith, any-drop_directory d q es, eq_iff e d, eq_iff e q, eq_iff d q)

-- A tree with directories that another one lacks, and its own.
pub record Made (created : List String) (t t' : Tree) : Type 0 where
  pub directories_are :
      (q : String) → has_directory q t' ≡ (has_directory q t || any (λ d. d == q) created)
  pub are_new : All (λ d. has_directory d t ≡ false) created

Made-nil : (t : Tree) → Made [] t t
Made-nil t = record { directories_are = λ q. ground arith; are_new = tt }

Made-append : (c d : List String) (t u v : Tree) → Made c t u → Made d u v → Made (c ++ d) t v
Made-append c d t u v m n = record {
  directories_are =
      λ q. ground (arith, m.directories_are q, n.directories_are q, any-append (λ x. x == q) c d);
  are_new =
      All-append (λ x. has_directory x t ≡ false) c d m.are_new
        (All-weaken (λ x. has_directory x u ≡ false) (λ x. has_directory x t ≡ false) d
          (λ x new. ground (arith, m.directories_are x)) n.are_new);
}

Made-cons :
    (c : List String) (d : String) (t u : Tree)
    → has_directory d t ≡ false
    → Made c (record t { directories = t.directories ++ d ∷ [] }) u
    → Made (d ∷ c) t u
unfolding has_directory
Made-cons c d t u new m =
    Made-append (d ∷ []) c t (record t { directories = t.directories ++ d ∷ [] }) u
      (record {
        directories_are = λ q. any-append (λ x. x == q) t.directories (d ∷ []);
        are_new = (new, tt);
      })
      m

module _ (faults : Faults) where
  pub ensure_directories-Made :
      (ds : List String) (t : Tree)
      → Made (ensure_directories faults ds t).created t (ensure_directories faults ds t).tree
  unfolding ensure_directories
  ensure_directories-Made [] t = Made-nil t
  ensure_directories-Made (d ∷ ds) t =
      let made =
        ensure_directories faults ds (record t { directories = t.directories ++ d ∷ [] }) in
      elim (Bool-cases (has_directory d t)) [
        | inl there ↦
            let e : ensure_directories faults ds t ≡ ensure_directories faults (d ∷ ds) t =
              ground arith in
            subst (λ r. Made r.created t r.tree) e (ensure_directories-Made ds t)
        | inr missing ↦ elim (Bool-cases (is_some (lookup d t.files))) [
          | inl file ↦
              subst (λ r. Made r.created t r.tree) (stop target_unsafe (ground arith)) (Made-nil t)
          | inr free ↦ elim (Bool-cases (faults.make_directory d)) [
            | inl fails ↦
                subst (λ r. Made r.created t r.tree) (stop commit_failed (ground arith))
                  (Made-nil t)
            | inr makes ↦
                let e : record made { created = d ∷ made.created }
                    ≡ ensure_directories faults (d ∷ ds) t =
                  ground arith in
                subst (λ r. Made r.created t r.tree) e
                  (Made-cons made.created d t made.tree missing (
                    ensure_directories-Made ds
                      (record t { directories = t.directories ++ d ∷ [] })))
          ]
        ]
      ]
    where
      stop :
          (problem : GeneratorError)
          → ensure_directories faults (d ∷ ds) t
            ≡ record { created = []; tree = t; problem = some problem }
          → record { created = []; tree = t; problem = some problem }
            ≡ ensure_directories faults (d ∷ ds) t
      stop problem e = sym e

  -- What is made is on the way.
  pub ensure_directories-within :
      (ds : List String) (t : Tree) (q : String)
      → any (λ d. d == q) (ensure_directories faults ds t).created ≡ true
      → any (λ d. d == q) ds ≡ true
  unfolding ensure_directories
  ensure_directories-within [] t q h = h
  ensure_directories-within (d ∷ ds) t q h = ground (
    arith,
    ensure_directories-within ds t q,
    ensure_directories-within ds (record t { directories = t.directories ++ d ∷ [] }) q,
  )

  pub undo_changes-directories :
      (items : List AppliedChange) (t : Tree)
      → (undo_changes faults items t).1.directories ≡ t.directories
  unfolding undo_changes undo_change
  undo_changes-directories [] t = refl
  undo_changes-directories (item ∷ items) t = ground (arith, undo_changes-directories items t)

  pub undo_directories-clean :
      (ds : List String) (t : Tree) (q : String)
      → (undo_directories faults ds t).0 ≡ false
      → has_directory q (undo_directories faults ds t).1
        ≡ (has_directory q t && not (any (λ d. d == q) ds))
  unfolding undo_directories has_directory
  undo_directories-clean [] t q clean = ground arith
  undo_directories-clean (d ∷ ds) t q clean = ground (
    arith,
    undo_directories-clean ds t q,
    any-drop_directory d q (undo_directories faults ds t).1.directories,
  )

  module _ (lower : String → String) (digest : List ℕ → String) (changes : List FileChange) where
    ready_to_replace-parts :
        (i : ℕ) (c : FileChange) (t : Tree)
        → (((ready_to_replace faults lower digest i c t).created ≡ [])
            × ((ready_to_replace faults lower digest i c t).tree ≡ t))
          ⊎ (((ready_to_replace faults lower digest i c t).created
                ≡ (ensure_directories faults (parents c.path) t).created)
              × ((ready_to_replace faults lower digest i c t).tree
                  ≡ (ensure_directories faults (parents c.path) t).tree))
    unfolding ready_to_replace
    ready_to_replace-parts i c t = elim (Option-cases (faults.before_replace i c)) [
      | inr (problem, e) ↦ inl (ground arith, ground arith)
      | inl none' ↦ inr (ground arith, ground arith)
    ]

    ready_to_replace-Made :
        (i : ℕ) (c : FileChange) (t : Tree)
        → Made
            (ready_to_replace faults lower digest i c t).created
            t
            (ready_to_replace faults lower digest i c t).tree
    ready_to_replace-Made i c t = elim (ready_to_replace-parts i c t) [
      | inl (none', same) ↦
          subst (λ x. Made x t (ready_to_replace faults lower digest i c t).tree) (sym none')
            (subst (Made [] t) (sym same) (Made-nil t))
      | inr (made, tree) ↦
          subst (λ x. Made x t (ready_to_replace faults lower digest i c t).tree) (sym made)
            (subst (Made (ensure_directories faults (parents c.path) t).created t) (sym tree)
              (ensure_directories-Made (parents c.path) t))
    ]

    Made-replaced :
        (x : JournalItem) (u : Tree) (c : List String) (v : Tree)
        → Made c (replaced_tree faults lower digest x u) v
        → Made c u v
    unfolding replaced_tree has_directory
    Made-replaced x u c v m = record { directories_are = m.directories_are; are_new = m.are_new }

    -- The directories that the loop has made are new.
    pub replace_files-Made :
        (i : ℕ) (items : List JournalItem) (t : Tree)
        → Made
            (replace_files faults lower digest i changes items t).created
            t
            (replace_files faults lower digest i changes items t).tree
    replace_files-Made i [] t = unfold replace_files in Made-nil t
    replace_files-Made i (item ∷ items) t = elim (Option-cases (change_by_path changes item.path)) [
      | inl none' ↦
          let e : stopped_at t ≡ replace_files faults lower digest i changes (item ∷ items) t =
            unfold replace_files in ground arith in
          subst (λ r. Made r.created t r.tree) e (Made-nil t)
      | inr (c, found) ↦ elim (Option-cases (ready_to_replace faults lower digest i c t).problem) [
        | inr (problem, stop) ↦
            subst (λ r. Made r.created t r.tree)
              (sym
                (replace-stopped faults lower digest changes i item items t c problem found stop))
              (ready_to_replace-Made i c t)
        | inl go ↦
            subst (λ r. Made r.created t r.tree)
              (sym (replace-went_on faults lower digest changes i item items t c found go))
              (Made-append _ _ t (ready_to_replace faults lower digest i c t).tree _
                (ready_to_replace-Made i c t)
                (Made-replaced item (ready_to_replace faults lower digest i c t).tree _ _
                  (replace_files-Made (i + 1) items _)))
      ]
    ]
      where
        stopped_at : Tree → Replaced
        stopped_at u = record { applied = []; created = []; tree = u; problem = some commit_failed }
