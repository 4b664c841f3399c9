-- ===== src/Generation/Region/Laws.antt =====
-- What a merge changes: the body of the region, and nothing around it.
use mathlib.Core.List.{append_assoc}
use unified_software_commerc.Prelude.{
  ℕ, ◌+◌, ◌-◌, String, true, some, List, [], ◌∷◌, ◌++◌, length, length-append, eqb, ok, ◌≡◌, refl,
  sym, ap, ◌∙◌, arith, Bool-cases, Option-cases, inl, inr,
}
use unified_software_commerc.Prelude.Slices.{
  take, drop, count_of, EndsLine, take-append, drop-append,
}
use unified_software_commerc.Generation.Model.{MergeSpec}
use unified_software_commerc.Generation.Region.{
  RegionBounds, valid_merge_spec, validate_merge_spec, begin_marker, end_marker, find_region,
  MergedRegion, merged_region, CreatedFile, create_integration_file, merge_integration_region,
  normalized_region_body, normalize_text, ended,
}
use unified_software_commerc.Generation.Region.Shape.{
  IsLineEnd, StartsLine, file_of, Region, bounds_of, end_marker-line, find_region-Region,
}
use unified_software_commerc.Generation.Region.Found.{find_region-Found}

ended-EndsLine : (value : List ℕ) → EndsLine (ended value)
unfolding ended
ended-EndsLine [] = refl
ended-EndsLine (x ∷ []) = elim (Bool-cases (eqb x 10)) [
  | inl newline ↦ ground arith
  | inr other ↦ ground arith
]
ended-EndsLine (x ∷ y ∷ rest) = ground (arith, ended-EndsLine (y ∷ rest))

normalized_region_body-EndsLine : (value : List ℕ) → EndsLine (normalized_region_body value)
unfolding normalized_region_body
normalized_region_body-EndsLine value = ended-EndsLine (normalize_text value)

-- The three slices of a file around a region.
module _ (spec : MergeSpec) (before nl body after : List ℕ) where
  line_of : List ℕ
  line_of = before ++ (begin_marker spec ++ nl)

  length-line_of : length line_of ≡ length before + length (begin_marker spec) + length nl
  unfolding line_of
  length-line_of = omega (arith, length-append {0})

  at_line : file_of spec before nl body after ≡ line_of ++ (body ++ (end_marker spec ++ after))
  unfolding line_of
  at_line = simp append_assoc

  take-line :
      take
        (length before + length (begin_marker spec) + length nl)
        (file_of spec before nl body after)
      ≡ line_of
  take-line =
      ap (take (length before + length (begin_marker spec) + length nl)) at_line
      ∙ take-append line_of (body ++ (end_marker spec ++ after)) _ (sym length-line_of)

  drop-line :
      drop
        (length before + length (begin_marker spec) + length nl)
        (file_of spec before nl body after)
      ≡ body ++ (end_marker spec ++ after)
  drop-line =
      ap (drop (length before + length (begin_marker spec) + length nl)) at_line
      ∙ drop-append line_of (body ++ (end_marker spec ++ after)) _ (sym length-line_of)

  drop-body :
      drop
        (length before + length (begin_marker spec) + length nl + length body)
        (file_of spec before nl body after)
      ≡ end_marker spec ++ after
  drop-body =
      ap (drop (length before + length (begin_marker spec) + length nl + length body))
        (at_line ∙ sym (append_assoc line_of body (end_marker spec ++ after)))
      ∙ drop-append (line_of ++ body) (end_marker spec ++ after) _
          (omega (arith, length-line_of, length-append line_of body))

module _ (digest : List ℕ → String) (spec : MergeSpec) where
  -- What a merge makes of a file around a region.
  abbrev pub merged_of : List ℕ → List ℕ → List ℕ → List ℕ → List ℕ → MergedRegion
  merged_of before nl body after rendered = record {
    content = file_of spec before nl (normalized_region_body rendered) after;
    current_digest = digest body;
    generated_digest = digest (normalized_region_body rendered);
  }

  merged_region-file_of :
      (before nl body after rendered : List ℕ)
      → merged_region digest
          (file_of spec before nl body after)
          rendered
          (bounds_of spec before nl body)
        ≡ merged_of before nl body after rendered
  unfolding merged_region line_of
  merged_region-file_of before nl body after rendered =
      ground (
        arith,
        take-line spec before nl body after,
        drop-body spec before nl body after,
        slice,
        tidy,
      )
    where
      slice :
          take
            (length before
              + length (begin_marker spec)
              + length nl
              + length body
              - (length before + length (begin_marker spec) + length nl))
            (drop
              (length before + length (begin_marker spec) + length nl)
              (file_of spec before nl body after))
          ≡ body
      slice =
          ap (take _) (drop-line spec before nl body after)
          ∙ take-append body (end_marker spec ++ after) _ (omega arith)

      tidy :
          (before ++ (begin_marker spec ++ nl))
            ++ (normalized_region_body rendered ++ (end_marker spec ++ after))
          ≡ file_of spec before nl (normalized_region_body rendered) after
      tidy = simp append_assoc

  validate_merge_spec-valid :
      valid_merge_spec spec ≡ true → validate_merge_spec (some spec) ≡ ok spec
  unfolding validate_merge_spec
  validate_merge_spec-valid v = ground arith

  -- A merge into a file around a region in which each marker is counted once.
  merge-file_of :
      (before nl body after rendered : List ℕ)
      → valid_merge_spec spec ≡ true
      → EndsLine before
      → IsLineEnd nl
      → EndsLine body
      → StartsLine after
      → count_of (begin_marker spec) (file_of spec before nl body after) ≡ 1
      → count_of (end_marker spec) (file_of spec before nl body after) ≡ 1
      → merge_integration_region digest (file_of spec before nl body after) rendered (some spec)
        ≡ ok (merged_of before nl body after rendered)
  unfolding merge_integration_region
  merge-file_of before nl body after rendered v eb en ey ea once_begin once_end = ground (
    arith,
    validate_merge_spec-valid v,
    find_region-Region spec before nl body after v eb en ey ea once_begin once_end,
    merged_region-file_of before nl body after rendered,
  )

  merge-valid :
      (current rendered : List ℕ) (m : MergedRegion)
      → merge_integration_region digest current rendered (some spec) ≡ ok m
      → (valid_merge_spec spec ≡ true)
        × ((bounds : RegionBounds) × (find_region current spec ≡ some bounds))
  unfolding merge_integration_region validate_merge_spec
  merge-valid current rendered m h = elim (Option-cases (find_region current spec)) [
    | inl none' ↦ absurd (ground arith)
    | inr (bounds, found) ↦ (ground arith, (bounds, found))
  ]

  -- What any merge makes of the region that is found.
  merge-found :
      (current rendered : List ℕ) (bounds : RegionBounds) (r : Region spec current)
      → valid_merge_spec spec ≡ true
      → find_region current spec ≡ some bounds
      → bounds ≡ bounds_of spec r.before r.nl r.body
      → merge_integration_region digest current rendered (some spec)
        ≡ ok (merged_of r.before r.nl r.body r.after rendered)
  unfolding merge_integration_region
  merge-found current rendered bounds r v found same =
      ground (arith, validate_merge_spec-valid v, merged)
    where
      merged :
          merged_region digest current rendered bounds
          ≡ merged_of r.before r.nl r.body r.after rendered
      merged =
          ap (merged_region digest current rendered) same
          ∙ ap (λ c. merged_region digest c rendered (bounds_of spec r.before r.nl r.body)) r.whole
          ∙ merged_region-file_of r.before r.nl r.body r.after rendered

  merge-Region :
      (current rendered : List ℕ) (m : MergedRegion)
      → merge_integration_region digest current rendered (some spec) ≡ ok m
      → (r : Region spec current) × ((other : List ℕ)
          → merge_integration_region digest current other (some spec)
            ≡ ok (merged_of r.before r.nl r.body r.after other))
  merge-Region current rendered m h =
      let (v, (bounds, found)) = merge-valid current rendered m h in
      let (r, same) = find_region-Found spec current bounds (end_marker-line spec v).1 found in
      (r, λ other. merge-found current other bounds r v found same)

  -- A merge that succeeds replaces the body of a region: the file is text that ends a line, the begin
  -- marker, a line ending, a body of whole lines, the end marker and a rest that starts with a line
  -- ending or is empty; in the result the body is the normalized rendering and all else is the same;
  -- the digests are those of the old and of the new body.
  pub merge_replaces_body :
      (current rendered : List ℕ) (m : MergedRegion)
      → merge_integration_region digest current rendered (some spec) ≡ ok m
      → (r : Region spec current) × (m ≡ merged_of r.before r.nl r.body r.after rendered)
  merge_replaces_body current rendered m h =
      let (r, merges) = merge-Region current rendered m h in (r, cc (h, merges rendered))

  -- After a merge into a file whose result has each marker once, a second merge gives the file that it
  -- would have given at once, and reports the digest that the first merge wrote.
  pub merge_again :
      (current first second : List ℕ) (m n : MergedRegion)
      → merge_integration_region digest current first (some spec) ≡ ok m
      → merge_integration_region digest current second (some spec) ≡ ok n
      → count_of (begin_marker spec) m.content ≡ 1
      → count_of (end_marker spec) m.content ≡ 1
      → merge_integration_region digest m.content second (some spec)
        ≡ ok (record n { current_digest = m.generated_digest })
  merge_again current first second m n h k once_begin once_end =
      let (v, found) = merge-valid current first m h in
      let (r, merges) = merge-Region current first m h in
      let em : m ≡ merged_of r.before r.nl r.body r.after first = cc (h, merges first) in
      let en : n ≡ merged_of r.before r.nl r.body r.after second = cc (k, merges second) in
      ap (λ c. merge_integration_region digest c second (some spec)) (ap (λ x. x.content) em)
      ∙ merge-file_of r.before r.nl (normalized_region_body first) r.after second v r.before_ends
          r.nl_is (normalized_region_body-EndsLine first) r.after_starts
          (ap (λ x. count_of (begin_marker spec) x.content) (sym em) ∙ once_begin)
          (ap (λ x. count_of (end_marker spec) x.content) (sym em) ∙ once_end)
      ∙ ground arith

  -- A file that was created, with each marker in it once, is merged into the file that would have been
  -- created, and the digest that the creation reported is the one that the merge finds.
  pub merge_created :
      (first second : List ℕ) (f g : CreatedFile)
      → create_integration_file digest first (some spec) ≡ ok f
      → create_integration_file digest second (some spec) ≡ ok g
      → count_of (begin_marker spec) f.content ≡ 1
      → count_of (end_marker spec) f.content ≡ 1
      → merge_integration_region digest f.content second (some spec)
        ≡ ok (record {
          content = g.content;
          current_digest = f.generated_digest;
          generated_digest = g.generated_digest;
        })
  unfolding create_integration_file validate_merge_spec
  merge_created first second f g h k once_begin once_end =
      let v : valid_merge_spec spec ≡ true = ground arith in
      let ef : f ≡ created first = ground arith in
      ap (λ c. merge_integration_region digest c second (some spec)) (ap (λ x. x.content) ef)
      ∙ merge-file_of [] (10 ∷ []) (normalized_region_body first) (10 ∷ []) second v tt (inl refl)
          (normalized_region_body-EndsLine first) (inl refl)
          (ap (λ x. count_of (begin_marker spec) x.content) (sym ef) ∙ once_begin)
          (ap (λ x. count_of (end_marker spec) x.content) (sym ef) ∙ once_end)
      ∙ ground arith
    where
      created : List ℕ → CreatedFile
      created rendered = record {
        content = file_of spec [] (10 ∷ []) (normalized_region_body rendered) (10 ∷ []);
        generated_digest = digest (normalized_region_body rendered);
      }
