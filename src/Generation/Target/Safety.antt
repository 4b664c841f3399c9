-- ===== src/Generation/Target/Safety.antt =====
-- What a change set that was prepared without a conflict may touch.
use unified_software_commerc.Prelude.{
  ℕ, String, Bool, true, false, not, ◌&&◌, ◌||◌, Option, none, some, List, [], ◌∷◌, find, any, ◌==◌,
  if◌then◌else◌, ok, ◌≡◌, ◌≢◌, ◌⊎◌, refl, sym, ◌∙◌, subst, arith, eq_iff, eq_of_==, All, All-append,
  All-find, Bool-cases, Option-cases, Result-cases, inl, inr, find-holds,
}
use unified_software_commerc.Generation.Model.{
  GeneratorError, ownership_conflict, generated_modified, integration_region, ExistingFile,
  LockedFile, OutputSpec, RenderedFile, Diagnostic, FileChange, PreparedChangeSet, TargetSnapshot,
  MergeSpec,
}
use unified_software_commerc.Generation.Model as Generator
use unified_software_commerc.Generation.Inspect.{Workspace, find_locked, find_existing}
use unified_software_commerc.Generation.Target.Changes.{
  prepare_generated_change, prepare_integration_change,
}
use unified_software_commerc.Generation.Target.Baseline.{
  HasRegion, MatchesBaseline, output_eq_parts, prepare_generated_change-MatchesBaseline,
  prepare_integration_change-MatchesBaseline,
}
use unified_software_commerc.Generation.Target.{
  Progress, stopped, taken, take_change, managed_removal, custom_collision, protected_overlap,
  existing_overlap, forked, owned_by_customer, keep_existing, overlapping_protected_path,
  overlapping_existing_path, prepare_owned, prepare_output, prepare_outputs, is_desired,
  prepare_removals,
}

-- The path of a change is one of the outputs', overlaps no protected path, and is of no file that is
-- forked or the product's own; the change is one of what the lock has there.
pub record IsSafe (lower : String → String) (request : Generator.Request)
    (files : List ExistingFile) (locked : List LockedFile) (c : FileChange) : Type 0 where
  pub wanted : is_desired lower request.desired_outputs c.path ≡ true
  pub unprotected : overlapping_protected_path lower c.path request.protected_paths ≡ none
  pub not_forked : forked (find_locked lower (lower c.path) locked) ≡ false
  pub not_custom : owned_by_customer (find_existing lower (lower c.path) files) ≡ false
  pub based :
      MatchesBaseline lower c
        (find_existing lower (lower c.path) files)
        (find_locked lower (lower c.path) locked)

module _ (lower : String → String) (equal_fold : String → String → Bool) (digest : List ℕ → String)
    (workspace : Workspace) (request : Generator.Request) (snapshot : TargetSnapshot)
    (locked : List LockedFile) (rendered : List RenderedFile) where
  abbrev pub Safe : FileChange → Type 0
  Safe = IsSafe lower request snapshot.files locked

  -- Kept because the lock has it as forked, or because no output names it.
  abbrev pub Kept : ExistingFile → Type 0
  Kept file =
      (forked (find_locked lower (lower file.path) locked) ≡ true)
      ⊎ (is_desired lower request.desired_outputs file.path ≡ false)

  -- What has been gathered is safe, if nothing has stopped an output.
  abbrev pub Holds : Progress → Type 0
  Holds p = p.first_conflict ≡ none → All Safe p.changes × All Kept p.preserved

  stopped-Holds : (p : Progress) (d : Diagnostic) (e : GeneratorError) → Holds (stopped p d e)
  unfolding stopped
  stopped-Holds p d e h = absurd (ground arith)

  taken-Holds :
      (p : Progress) (change : FileChange) (d : Option Diagnostic) (e : Option GeneratorError)
      → Holds p
      → (d ≡ none → Safe change)
      → Holds (taken p change d e)
  unfolding taken
  taken-Holds p change none e holds safe clean =
      let (changes, preserved) = holds clean in
      (All-append Safe p.changes (change ∷ []) changes (safe refl, tt), preserved)
  taken-Holds p change (some d) (some e) holds safe clean = stopped-Holds p d e clean
  taken-Holds p change (some d) none holds safe clean = holds clean

  -- A change of an output whose path is free.
  change-Safe :
      (output : OutputSpec) (c : FileChange)
      → c.path ≡ output.path
      → is_desired lower request.desired_outputs output.path ≡ true
      → overlapping_protected_path lower output.path request.protected_paths ≡ none
      → forked (find_locked lower (lower output.path) locked) ≡ false
      → owned_by_customer (find_existing lower (lower output.path) snapshot.files) ≡ false
      → MatchesBaseline lower c
          (find_existing lower (lower output.path) snapshot.files)
          (find_locked lower (lower output.path) locked)
      → Safe c
  change-Safe output c path wanted unprotected not_forked not_custom based = record {
    wanted = subst (λ q. is_desired lower request.desired_outputs q ≡ true) (sym path) wanted;
    unprotected =
        subst (λ q. overlapping_protected_path lower q request.protected_paths ≡ none) (sym path)
          unprotected;
    not_forked =
        subst (λ q. forked (find_locked lower (lower q) locked) ≡ false) (sym path) not_forked;
    not_custom =
        subst (λ q. owned_by_customer (find_existing lower (lower q) snapshot.files) ≡ false)
          (sym path) not_custom;
    based =
        subst
          (λ q.
            MatchesBaseline lower c (find_existing lower (lower q) snapshot.files)
              (find_locked lower (lower q) locked))
          (sym path) based;
  }

  keep_existing-Holds :
      (path : String) (p : Progress) (current : Option ExistingFile)
      → find_existing lower (lower path) snapshot.files ≡ current
      → forked (find_locked lower (lower path) locked) ≡ true
      → Holds p
      → Holds (keep_existing current p)
  unfolding keep_existing
  keep_existing-Holds path p none found is_forked holds clean = holds clean
  keep_existing-Holds path p (some current) found is_forked holds clean =
      let (changes, preserved) = holds clean in
      let folded : lower current.path ≡ lower path = eq_of_== (lower current.path) (lower path) (
        find-holds (λ (f : ExistingFile). lower f.path == lower path) snapshot.files current
          found) in
      (
        changes,
        All-append Kept p.preserved (current ∷ []) preserved (
          inl (subst (λ q. forked (find_locked lower q locked) ≡ true) (sym folded) is_forked),
          tt,
        ),
      )

  -- The switch over the owners, for an output whose path overlaps no protected path.
  prepare_owned-Holds :
      (output : OutputSpec) (file : RenderedFile) (p p' : Progress)
      → HasRegion file
      → file.spec.path ≡ output.path
      → file.spec.ownership ≡ output.ownership
      → is_desired lower request.desired_outputs output.path ≡ true
      → overlapping_protected_path lower output.path request.protected_paths ≡ none
      → prepare_owned lower equal_fold digest workspace request snapshot locked rendered output file
          p
        ≡ ok p'
      → Holds p
      → Holds p'
  unfolding prepare_owned take_change
  prepare_owned-Holds output file p p' region path owner wanted unprotected h holds =
      let current = find_existing lower (lower output.path) snapshot.files in
      let baseline = find_locked lower (lower output.path) locked in
      elim (Bool-cases (forked baseline)) [
        | inl is_forked ↦
            let e : keep_existing current p ≡ p' = ground arith in
            subst Holds e (keep_existing-Holds output.path p current refl is_forked holds)
        | inr not_forked ↦ elim (Bool-cases (owned_by_customer current)) [
          | inl custom ↦
              let e : stopped p (custom_collision output) ownership_conflict ≡ p' = ground arith in
              subst Holds e (stopped-Holds p (custom_collision output) ownership_conflict)
          | inr not_custom ↦ elim (Bool-cases (output.ownership == "generated")) [
            | inl generated ↦
                let change = prepare_generated_change lower digest file current baseline in
                let e : taken p change.change change.diagnostic change.problem ≡ p' =
                  ground arith in
                subst Holds e (
                  taken-Holds p change.change change.diagnostic change.problem holds (λ clean.
                    let (based, same) =
                      prepare_generated_change-MatchesBaseline lower digest file current baseline
                        clean in
                    change-Safe output change.change (same ∙ path) wanted unprotected not_forked
                      not_custom based))
            | inr other ↦
                let change =
                  prepare_integration_change lower digest workspace file current baseline in
                let e : taken p change.change change.diagnostic change.problem ≡ p' =
                  ground arith in
                let integration : output.ownership ≡ "integration" =
                  ground (arith, eq_iff output.ownership "integration") in
                subst Holds e (
                  taken-Holds p change.change change.diagnostic change.problem holds (λ clean.
                    let (based, same) =
                      prepare_integration_change-MatchesBaseline lower digest workspace file current
                        baseline (region (owner ∙ integration)) clean in
                    change-Safe output change.change (same ∙ path) wanted unprotected not_forked
                      not_custom based))
          ]
        ]
      ]

  prepare_output-Holds :
      (output : OutputSpec) (p p' : Progress)
      → All HasRegion rendered
      → is_desired lower request.desired_outputs output.path ≡ true
      → prepare_output lower equal_fold digest workspace request snapshot locked rendered output p
        ≡ ok p'
      → Holds p
      → Holds p'
  unfolding prepare_output
  prepare_output-Holds output p p' regions wanted h holds =
      elim (Option-cases (find (λ f. lower f.spec.path == lower output.path) rendered)) [
        | inl none' ↦ absurd (ground arith)
        | inr (file, found) ↦
            let region : HasRegion file =
              All-find HasRegion (λ f. lower f.spec.path == lower output.path) rendered file regions
                found in
            let path : file.spec.path ≡ output.path =
              ground (arith, output_eq_parts file.spec output) in
            let owner : file.spec.ownership ≡ output.ownership =
              ground (arith, output_eq_parts file.spec output) in
            elim (Option-cases
              (overlapping_protected_path lower output.path request.protected_paths)) [
                | inr (conflict, overlap) ↦
                    let e : stopped p (protected_overlap output conflict) ownership_conflict ≡ p' =
                      ground arith in
                    subst Holds e
                      (stopped-Holds p (protected_overlap output conflict) ownership_conflict)
                | inl free ↦
                    elim (Option-cases (
                      overlapping_existing_path lower equal_fold digest output.path
                        snapshot.files)) [
                          | inr (conflict, overlap) ↦
                              let e : stopped p (existing_overlap output conflict)
                                    ownership_conflict
                                  ≡ p' =
                                ground arith in
                              subst Holds e (
                                stopped-Holds p (existing_overlap output conflict)
                                  ownership_conflict)
                          | inl alone ↦
                              prepare_owned-Holds output file p p' region path owner wanted free
                                (ground arith) holds
                        ]
              ]
      ]

  pub prepare_outputs-Holds :
      (outputs : List OutputSpec) (p p' : Progress)
      → All HasRegion rendered
      → All (λ o. is_desired lower request.desired_outputs o.path ≡ true) outputs
      → prepare_outputs lower equal_fold digest workspace request snapshot locked rendered outputs p
        ≡ ok p'
      → Holds p
      → Holds p'
  unfolding prepare_outputs
  prepare_outputs-Holds [] p p' regions wanted h holds =
      let e : p ≡ p' = ground arith in subst Holds e holds
  prepare_outputs-Holds (output ∷ outputs) p p' regions (here, wanted) h holds =
      elim (Result-cases (
        prepare_output lower equal_fold digest workspace request snapshot locked rendered output
          p)) [
            | inr (e, failed) ↦ absurd (ground arith)
            | inl (q, done) ↦
                prepare_outputs-Holds outputs q p' regions wanted (ground arith)
                  (prepare_output-Holds output p q regions here done holds)
          ]

  pub prepare_removals-Holds :
      (rest : List LockedFile) (p : Progress)
      → Holds p
      → Holds (
          prepare_removals lower equal_fold digest workspace request snapshot locked rendered rest
            p)
  unfolding prepare_removals
  prepare_removals-Holds [] p holds = holds
  prepare_removals-Holds (baseline ∷ rest) p holds =
      prepare_removals-Holds rest _ (elim (Bool-cases removed) [
        | inl unplanned ↦
            let e : stopped p (managed_removal baseline) ownership_conflict ≡ next = ground arith in
            subst Holds e (stopped-Holds p (managed_removal baseline) ownership_conflict)
        | inr planned ↦ let e : p ≡ next = ground arith in subst Holds e holds
      ])
    where
      removed : Bool
      removed =
          (baseline.ownership == "generated" || baseline.ownership == "integration")
          && not (is_desired lower request.desired_outputs baseline.path)

      next : Progress
      next = if removed then stopped p (managed_removal baseline) ownership_conflict else p

  -- A kept file is none that a change writes.
  pub Kept-Safe :
      (file : ExistingFile) (c : FileChange) → Kept file → Safe c → lower c.path ≢ lower file.path
  unfolding is_desired
  Kept-Safe file c (inl is_forked) safe same =
      let e : forked (find_locked lower (lower file.path) locked) ≡ false =
        subst (λ q. forked (find_locked lower q locked) ≡ false) same safe.not_forked in
      cc (sym is_forked ∙ e)
  Kept-Safe file c (inr unwanted) safe same =
      let e : any (λ o. lower o.path == lower file.path) request.desired_outputs ≡ true =
        subst (λ q. any (λ o. lower o.path == q) request.desired_outputs ≡ true) same safe.wanted in
      cc (sym unwanted ∙ e)
