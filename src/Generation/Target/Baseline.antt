-- ===== src/Generation/Target/Baseline.antt =====
-- A change that comes without a diagnostic follows the lock.
use unified_software_commerc.Prelude.{
  ℕ, String, Bool, true, false, Option, none, some, List, ◌==◌, Result, err, ok, ◌≡◌, ◌⊎◌, refl,
  sym, ap, ◌∙◌, subst, arith, eq_iff, Bool-cases, Result-cases, inl, inr,
}
use unified_software_commerc.Generation.Model.{
  GeneratorError, ExistingFile, LockedFile, OutputSpec, RenderedFile, FileChange,
}
use unified_software_commerc.Generation.Paths.{digest_equal}
use unified_software_commerc.Generation.Region.{
  create_integration_file, validate_merge_spec, MergedRegion, merge_integration_region,
}
use unified_software_commerc.Generation.Inspect.{Workspace}
use unified_software_commerc.Generation.Target.Changes.{
  prepare_generated_change, prepare_integration_change, locked_as, locked_digest,
  created_integration, merged_integration, bytes_or_none, read_safe_file,
}
use unified_software_commerc.Generation.Target.{output_eq}

abbrev pub is_ok : {A : Type 0} → Result GeneratorError A → Bool
is_ok (err e) = false
is_ok (ok a) = true

-- The region of an integration file can be created.
abbrev pub HasRegion : RenderedFile → Type 0
HasRegion file =
    file.spec.ownership ≡ "integration" → is_ok (validate_merge_spec file.spec.merge) ≡ true

-- A change of a file that is new, or that is the lock's and, if it is generated, as the lock has it.
abbrev pub MatchesBaseline :
    (String → String) → FileChange → Option ExistingFile → Option LockedFile → Type 0
MatchesBaseline lower c none none = c.action ≡ "created"
MatchesBaseline lower c none (some baseline) = ⊥
MatchesBaseline lower c (some current) baseline =
    (c.previous_sha256 ≡ current.sha256)
    × ((c.action ≡ "updated") ⊎ (c.action ≡ "unchanged"))
    × (locked_as baseline c.ownership ≡ true)
    × (c.ownership ≡ "generated"
        → digest_equal lower current.sha256 (locked_digest baseline) ≡ true)

pub output_eq_parts :
    (a b : OutputSpec) → output_eq a b ≡ true → (a.path ≡ b.path) × (a.ownership ≡ b.ownership)
unfolding output_eq
output_eq_parts a b h = ground (arith, eq_iff a.path b.path, eq_iff a.ownership b.ownership)

not_generated : (owner : String) → owner ≡ "integration" → owner ≡ "generated" → ⊥
not_generated owner e g = cc (ap (λ x. x == "generated") (sym e ∙ g))

-- The diagnostic-free results of the two preparations.
module _ (lower : String → String) (digest : List ℕ → String) where
  pub prepare_generated_change-MatchesBaseline :
      (file : RenderedFile) (current : Option ExistingFile) (baseline : Option LockedFile)
      → (prepare_generated_change lower digest file current baseline).diagnostic ≡ none
      → MatchesBaseline lower
          (prepare_generated_change lower digest file current baseline).change
          current
          baseline
        × ((prepare_generated_change lower digest file current baseline).change.path
            ≡ file.spec.path)
  unfolding prepare_generated_change
  prepare_generated_change-MatchesBaseline file none none h = (refl, refl)
  prepare_generated_change-MatchesBaseline file none (some baseline) h = absurd (ground arith)
  prepare_generated_change-MatchesBaseline file (some current) baseline h =
      elim (Bool-cases (digest_equal lower current.sha256 file.sha256)) [
        | inl same ↦
            ((ground arith, inr (ground arith), ground arith, λ g. ground arith), ground arith)
        | inr other ↦
            ((ground arith, inl (ground arith), ground arith, λ g. ground arith), ground arith)
      ]

  created_integration-MatchesBaseline :
      (file : RenderedFile)
      → is_ok (validate_merge_spec file.spec.merge) ≡ true
      → ((created_integration lower digest file).change.action ≡ "created")
        × ((created_integration lower digest file).change.path ≡ file.spec.path)
  unfolding created_integration create_integration_file
  created_integration-MatchesBaseline file valid =
      elim (Result-cases (validate_merge_spec file.spec.merge)) [
        | inl (m, e) ↦ (ground arith, ground arith)
        | inr (e, f) ↦ absurd (ground arith)
      ]

  merged_integration-MatchesBaseline :
      (file : RenderedFile) (current : ExistingFile) (baseline : Option LockedFile)
      (merged : Result GeneratorError MergedRegion)
      → locked_as baseline "integration" ≡ true
      → (merged_integration lower digest file current baseline merged).diagnostic ≡ none
      → MatchesBaseline lower
          (merged_integration lower digest file current baseline merged).change
          (some current)
          baseline
        × ((merged_integration lower digest file current baseline merged).change.path
            ≡ file.spec.path)
  unfolding merged_integration
  merged_integration-MatchesBaseline file current baseline (err e) mine h = absurd (ground arith)
  merged_integration-MatchesBaseline file current baseline (ok merged) mine h =
      elim (Bool-cases (digest_equal lower (digest merged.content) current.sha256)) [
        | inl same ↦ (
          (
            ground arith,
            inr (ground arith),
            ground arith,
            λ g. absurd (not_generated _ (ground arith) g),
          ),
          ground arith,
        )
        | inr other ↦ (
          (
            ground arith,
            inl (ground arith),
            ground arith,
            λ g. absurd (not_generated _ (ground arith) g),
          ),
          ground arith,
        )
      ]

  pub prepare_integration_change-MatchesBaseline :
      (workspace : Workspace) (file : RenderedFile) (current : Option ExistingFile)
      (baseline : Option LockedFile)
      → is_ok (validate_merge_spec file.spec.merge) ≡ true
      → (prepare_integration_change lower digest workspace file current baseline).diagnostic ≡ none
      → MatchesBaseline lower
          (prepare_integration_change lower digest workspace file current baseline).change
          current
          baseline
        × ((prepare_integration_change lower digest workspace file current baseline).change.path
            ≡ file.spec.path)
  unfolding prepare_integration_change
  prepare_integration_change-MatchesBaseline workspace file none none valid h =
      created_integration-MatchesBaseline file valid
  prepare_integration_change-MatchesBaseline workspace file none (some baseline) valid h =
      absurd (ground arith)
  prepare_integration_change-MatchesBaseline workspace file (some current) baseline valid h =
      let content =
        bytes_or_none lower digest (read_safe_file lower digest workspace file.spec.path) in
      let merged = merge_integration_region digest content file.bytes file.spec.merge in
      let mine : locked_as baseline "integration" ≡ true = ground arith in
      let e : merged_integration lower digest file current baseline merged
          ≡ prepare_integration_change lower digest workspace file (some current) baseline =
        ground arith in
      subst
        (λ p.
          p.diagnostic ≡ none
          → MatchesBaseline lower p.change (some current) baseline
            × (p.change.path ≡ file.spec.path))
        e (merged_integration-MatchesBaseline file current baseline merged mine) h
