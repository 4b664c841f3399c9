-- ===== src/Generation/Target/Laws.antt =====
-- A target that was prepared without a conflict: what its changes write and what they leave alone.
use unified_software_commerc.Prelude.{
  ℕ, String, Bool, true, false, none, List, [], ◌∷◌, any, ◌==◌, ok, ◌≡◌, ◌≢◌, subst, arith, eq_refl,
  All, All-append, All-filter, All-weaken, Bool-cases, Result-cases, inl, inr,
}
use unified_software_commerc.Generation.Model.{
  GeneratorError, ExistingFile, LockedFile, OutputSpec, RenderedFile, FileChange, PreparedChangeSet,
  TargetSnapshot,
}
use unified_software_commerc.Generation.Model as Generator
use unified_software_commerc.Generation.Paths.{text_lt}
use unified_software_commerc.Generation.Inspect.{
  Workspace, insert_existing, sort_existing_files, locked_files_by_path, inspect_target,
}
use unified_software_commerc.Generation.Target.Request.{validate_file_request}
use unified_software_commerc.Generation.Target.{
  Progress, insert_change, sort_changes, is_desired, is_kept, prepare_outputs, prepare_removals,
  prepare_finish, prepare_files, prepare_target,
}
use unified_software_commerc.Generation.Target.Baseline.{HasRegion}
use unified_software_commerc.Generation.Target.Safety.{
  IsSafe, Kept, prepare_outputs-Holds, prepare_removals-Holds, Kept-Safe,
}

-- Sorting keeps what all elements have.
pub insert_change-All :
    (P : FileChange → Type 0) (c : FileChange) (cs : List FileChange)
    → P c
    → All P cs
    → All P (insert_change c cs)
unfolding insert_change
insert_change-All P c [] h hs = (h, tt)
insert_change-All P c (d ∷ cs) h (k, hs) = elim (Bool-cases (text_lt d.path c.path)) [
  | inl behind ↦
      let e : d ∷ insert_change c cs ≡ insert_change c (d ∷ cs) = ground arith in
      subst (All P) e (k, insert_change-All P c cs h hs)
  | inr ahead ↦
      let e : c ∷ d ∷ cs ≡ insert_change c (d ∷ cs) = ground arith in subst (All P) e (h, (k, hs))
]

pub sort_changes-All :
    (P : FileChange → Type 0) (cs : List FileChange) → All P cs → All P (sort_changes cs)
unfolding sort_changes
sort_changes-All P [] h = tt
sort_changes-All P (c ∷ cs) (h, hs) =
    insert_change-All P c (sort_changes cs) h (sort_changes-All P cs hs)

insert_existing-All :
    (P : ExistingFile → Type 0) (f : ExistingFile) (fs : List ExistingFile)
    → P f
    → All P fs
    → All P (insert_existing f fs)
unfolding insert_existing
insert_existing-All P f [] h hs = (h, tt)
insert_existing-All P f (g ∷ fs) h (k, hs) = elim (Bool-cases (text_lt g.path f.path)) [
  | inl behind ↦
      let e : g ∷ insert_existing f fs ≡ insert_existing f (g ∷ fs) = ground arith in
      subst (All P) e (k, insert_existing-All P f fs h hs)
  | inr ahead ↦
      let e : f ∷ g ∷ fs ≡ insert_existing f (g ∷ fs) = ground arith in subst (All P) e (h, (k, hs))
]

sort_existing_files-All :
    (P : ExistingFile → Type 0) (fs : List ExistingFile) → All P fs → All P (sort_existing_files fs)
unfolding sort_existing_files
sort_existing_files-All P [] h = tt
sort_existing_files-All P (f ∷ fs) (h, hs) =
    insert_existing-All P f (sort_existing_files fs) h (sort_existing_files-All P fs hs)

-- Every output is desired.
outputs_wanted :
    (lower : String → String) (outputs : List OutputSpec)
    → All (λ o. is_desired lower outputs o.path ≡ true) outputs
unfolding is_desired
outputs_wanted lower [] = tt
outputs_wanted lower (o ∷ os) = (
  ground (arith, eq_refl (lower o.path)),
  All-weaken (λ o'. any (λ x. lower x.path == lower o'.path) os ≡ true)
      (λ o'. any (λ x. lower x.path == lower o'.path) (o ∷ os) ≡ true) os (λ o' h. ground arith)
      (outputs_wanted lower os),
)

-- The map of the locked files holds the files of the lock.
locked_files_by_path-same :
    (lower : String → String) (files locked : List LockedFile)
    → locked_files_by_path lower files ≡ ok locked
    → locked ≡ files
unfolding locked_files_by_path
locked_files_by_path-same lower [] locked h = ground arith
locked_files_by_path-same lower (file ∷ files) locked h =
    elim (Result-cases (locked_files_by_path lower files)) [
      | inr (e, failed) ↦ absurd (ground arith)
      | inl (rest, done) ↦ ground (arith, locked_files_by_path-same lower files rest done)
    ]

module _ (lower : String → String) (equal_fold : String → String → Bool) (digest : List ℕ → String)
    (workspace : Workspace) (request : Generator.Request) where
  -- The changes are safe, and write no path of a preserved file.
  abbrev pub PreparesSafely : List LockedFile → PreparedChangeSet → Type 0
  PreparesSafely locked set =
      All (IsSafe lower request set.snapshot.files locked) set.changes
      × All (λ file. All (λ c. lower c.path ≢ lower file.path) set.changes) set.preserved

  prepare_files-safe :
      (snapshot : TargetSnapshot) (locked : List LockedFile) (rendered : List RenderedFile)
      (set : PreparedChangeSet)
      → All HasRegion rendered
      → prepare_files lower equal_fold digest workspace request snapshot locked rendered
        ≡ ok (set, none)
      → PreparesSafely locked set
  unfolding prepare_files prepare_finish is_kept
  prepare_files-safe snapshot locked rendered set regions h =
      elim (Result-cases (
        prepare_outputs lower equal_fold digest workspace request snapshot locked rendered
          request.desired_outputs start)) [
            | inr (e, failed) ↦ absurd (ground arith)
            | inl (q, done) ↦
                let p =
                  prepare_removals lower equal_fold digest workspace request snapshot locked
                    rendered locked q in
                let e : finished p ≡ set = ground arith in
                let clean : p.first_conflict ≡ none = ground arith in
                let (changes, preserved) =
                  prepare_removals-Holds lower equal_fold digest workspace request snapshot locked
                    rendered locked q
                    (prepare_outputs-Holds lower equal_fold digest workspace request snapshot locked
                      rendered request.desired_outputs start q regions
                      (outputs_wanted lower request.desired_outputs) done (λ c. (tt, tt)))
                    clean in
                subst (PreparesSafely locked) e (finished-safe p changes preserved)
          ]
    where
      start : Progress
      start = record { changes = []; preserved = []; diagnostics = []; first_conflict = none }

      finished : Progress → PreparedChangeSet
      finished p =
          (prepare_finish lower equal_fold digest workspace request snapshot locked rendered p).0

      safe : FileChange → Type 0
      safe = IsSafe lower request snapshot.files locked

      keeps : ExistingFile → Type 0
      keeps = Kept lower equal_fold digest workspace request snapshot locked rendered

      is_kept-desired :
          (file : ExistingFile)
          → is_kept lower request.desired_outputs file ≡ true
          → is_desired lower request.desired_outputs file.path ≡ false
      is_kept-desired file k = ground arith

      finished-safe :
          (p : Progress)
          → All safe p.changes
          → All keeps p.preserved
          → PreparesSafely locked (finished p)
      finished-safe p changes preserved =
          let sorted = sort_changes-All safe p.changes changes in
          (
            sorted,
            All-weaken keeps
                (λ file. All (λ c. lower c.path ≢ lower file.path) (sort_changes p.changes)) _
                (λ file k.
                  All-weaken safe (λ c. lower c.path ≢ lower file.path) (sort_changes p.changes)
                    (λ c.
                      Kept-Safe lower equal_fold digest workspace request snapshot locked rendered
                        file c k)
                    sorted)
                (sort_existing_files-All keeps _ (
                  All-append keeps p.preserved _ preserved (
                    All-filter keeps (is_kept lower request.desired_outputs) snapshot.files
                      (λ file k. inr (is_kept-desired file k))))),
          )

  -- Where the rendered integration files have valid regions and the preparation reports no problem: every change
  -- is of a desired path that overlaps no protected path, of no forked and no customer file; it creates
  -- a file that neither the target nor the lock has, or replaces one that the lock has with the same
  -- owner, of the digest that was inspected, and that is as the lock has it if it is generated; and no
  -- change writes a preserved file.
  pub prepared_target_is_safe :
      (checksum : List ExistingFile → String) (rendered : List RenderedFile)
      (previous : List LockedFile) (set : PreparedChangeSet)
      → All HasRegion rendered
      → prepare_target lower equal_fold digest checksum workspace request rendered previous
        ≡ ok (set, none)
      → PreparesSafely previous set
  unfolding prepare_target
  prepared_target_is_safe checksum rendered previous set regions h =
      elim (Result-cases (inspect_target lower digest checksum workspace previous)) [
        | inr (e, failed) ↦ absurd (ground arith)
        | inl (snapshot, seen) ↦
            elim (Result-cases (validate_file_request lower request snapshot)) [
              | inr (e, failed) ↦ absurd (ground arith)
              | inl (passed, valid) ↦ elim (Result-cases (locked_files_by_path lower previous)) [
                | inr (e, failed) ↦ absurd (ground arith)
                | inl (locked, mapped) ↦
                    subst (λ l. PreparesSafely l set)
                      (locked_files_by_path-same lower previous locked mapped)
                      (prepare_files-safe snapshot locked rendered set regions (ground arith))
              ]
            ]
      ]
