-- ===== src/Generation/Region/Shape.antt =====
-- A file around a region, and that the region is found in it if each marker is counted once.
use mathlib.Core.Path.{ap₂}
use mathlib.Core.List.{append_assoc}
use unified_software_commerc.Prelude.{
  ℕ, ◌+◌, ◌<◌, String, true, some, List, [], ◌∷◌, ◌++◌, length, length-append, ◌==◌, ◌≡◌, ◌≢◌, ◌⊎◌,
  refl, sym, ap, ◌∙◌, subst, arith, eq_iff, All, All-append, Bool-cases, inl, inr,
}
use unified_software_commerc.Prelude.Text.{stable_code-line}
use unified_software_commerc.Prelude.Slices.{
  bytes_of, index_of, count_of, index_of-once, EndsLine, EndsLine-append, get_elem?-EndsLine,
  get_elem?-append,
}
use unified_software_commerc.Generation.Model.{MergeSpec}
use unified_software_commerc.Generation.Region.{
  RegionBounds, valid_merge_spec, begin_marker, end_marker, line_boundary_before,
  line_boundary_after, after_line_ending, find_region, region_between, region_from, byte_is,
}

abbrev pub IsLineEnd : List ℕ → Type 0
IsLineEnd nl = (nl ≡ 10 ∷ []) ⊎ (nl ≡ 13 ∷ 10 ∷ [])

-- Empty, or with a line ending's first byte at its head.
abbrev pub StartsLine : List ℕ → Type 0
StartsLine [] = Unit
StartsLine (x ∷ xs) = (x ≡ 10) ⊎ (x ≡ 13)

-- A file around a region: the text before its line, the line ending of the begin marker, the body,
-- and the text behind the end marker.
abbrev pub file_of : MergeSpec → List ℕ → List ℕ → List ℕ → List ℕ → List ℕ
file_of spec before nl body after =
    before ++ (begin_marker spec ++ (nl ++ (body ++ (end_marker spec ++ after))))

pub record Region (spec : MergeSpec) (current : List ℕ) : Type 0 where
  pub before : List ℕ
  pub nl : List ℕ
  pub body : List ℕ
  pub after : List ℕ
  pub before_ends : EndsLine before
  pub nl_is : IsLineEnd nl
  pub body_ends : EndsLine body
  pub after_starts : StartsLine after
  pub whole : current ≡ file_of spec before nl body after

abbrev pub bounds_of : MergeSpec → List ℕ → List ℕ → List ℕ → RegionBounds
bounds_of spec before nl body = record {
  body_start = length before + length (begin_marker spec) + length nl;
  end_at = length before + length (begin_marker spec) + length nl + length body;
}

-- The markers of a valid specification stand on one line and are not empty.
marker_line :
    (spec : MergeSpec) (tag : String)
    → valid_merge_spec spec ≡ true
    → All (λ x. x ≢ 10) (bytes_of tag)
    → All
        (λ x. x ≢ 10)
        (bytes_of spec.comment_prefix
          ++ (bytes_of tag ++ (bytes_of spec.region_id ++ bytes_of ">")))
unfolding valid_merge_spec
marker_line spec tag v clean =
    All-append (λ x. x ≢ 10) (bytes_of spec.comment_prefix) _ prefix_line
      (All-append (λ x. x ≢ 10) (bytes_of tag) _ clean
        (All-append (λ x. x ≢ 10) (bytes_of spec.region_id) _
          (stable_code-line spec.region_id (ground arith)) (omega arith)))
  where
    prefix_line : All (λ x. x ≢ 10) (bytes_of spec.comment_prefix)
    prefix_line = elim (Bool-cases (spec.comment_prefix == "//")) [
      | inl slashes ↦
          subst (λ p. All (λ x. x ≢ 10) (bytes_of p))
            (sym ((eq_iff spec.comment_prefix "//").0 slashes)) (omega arith)
      | inr hash ↦
          subst (λ p. All (λ x. x ≢ 10) (bytes_of p))
            (sym ((eq_iff spec.comment_prefix "#").0 (ground arith))) (omega arith)
    ]

pub begin_marker-line :
    (spec : MergeSpec)
    → valid_merge_spec spec ≡ true
    → All (λ x. x ≢ 10) (begin_marker spec) × (0 < length (begin_marker spec))
unfolding begin_marker
begin_marker-line spec v =
    (marker_line spec " <platform-generated:" v (omega arith), omega (arith, length-append {0}))

pub end_marker-line :
    (spec : MergeSpec)
    → valid_merge_spec spec ≡ true
    → All (λ x. x ≢ 10) (end_marker spec) × (0 < length (end_marker spec))
unfolding end_marker
end_marker-line spec v =
    (marker_line spec " </platform-generated:" v (omega arith), omega (arith, length-append {0}))

-- The four tests at the markers of a file around a region, and the index behind the first line.
module _ (before rest : List ℕ) where
  line_boundary_before-EndsLine :
      EndsLine before → line_boundary_before (before ++ rest) (length before) ≡ true
  unfolding line_boundary_before byte_is
  line_boundary_before-EndsLine ends = elim_before before ends
    where
      elim_before : (b : List ℕ) → EndsLine b → line_boundary_before (b ++ rest) (length b) ≡ true
      elim_before [] e = ground arith
      elim_before (x ∷ b) e = ground (arith, get_elem?-EndsLine x b rest e)

  line_boundary_after-StartsLine :
      StartsLine rest → line_boundary_after (before ++ rest) (length before) ≡ true
  unfolding line_boundary_after byte_is
  line_boundary_after-StartsLine starts = elim_rest rest starts
    where
      elim_rest :
          (r : List ℕ) → StartsLine r → line_boundary_after (before ++ r) (length before) ≡ true
      elim_rest [] e = ground (arith, length-append before [])
      elim_rest (x ∷ r) (inl e) =
          ground (arith, get_elem?-append before (x ∷ r) 0 (length before) (omega arith))
      elim_rest (x ∷ r) (inr e) =
          ground (arith, get_elem?-append before (x ∷ r) 0 (length before) (omega arith))

  after_line_ending-IsLineEnd :
      (nl : List ℕ)
      → IsLineEnd nl
      → after_line_ending (before ++ (nl ++ rest)) (length before)
        ≡ some (length before + length nl)
  unfolding after_line_ending byte_is
  after_line_ending-IsLineEnd nl (inl e) = rw e (
      ground (
        arith,
        get_elem?-append before (10 ∷ rest) 0 (length before) (omega arith),
        length-append before (10 ∷ rest),
      ))
  after_line_ending-IsLineEnd nl (inr e) = rw e (
      ground (
        arith,
        get_elem?-append before (13 ∷ 10 ∷ rest) 0 (length before) (omega arith),
        length-append before (13 ∷ 10 ∷ rest),
        get_elem?-append before (13 ∷ 10 ∷ rest) 1 (length before + 1) (omega arith),
      ))

line_end-EndsLine :
    (nl body : List ℕ)
    → IsLineEnd nl
    → EndsLine body
    → EndsLine (nl ++ body) × (0 < length (nl ++ body))
line_end-EndsLine nl [] (inl e) ey =
    subst (λ x. EndsLine (x ++ []) × (0 < length (x ++ []))) (sym e) (refl, omega arith)
line_end-EndsLine nl [] (inr e) ey =
    subst (λ x. EndsLine (x ++ []) × (0 < length (x ++ []))) (sym e) (refl, omega arith)
line_end-EndsLine nl (x ∷ body) en ey =
    (EndsLine-append nl (x ∷ body) ey (omega arith), omega (arith, length-append nl (x ∷ body)))

-- The file, split at the end of its first line and at its end marker.
module _ (spec : MergeSpec) (before nl body after : List ℕ) where
  pub head_of : List ℕ
  head_of = before ++ (begin_marker spec ++ (nl ++ body))

  split_line :
      file_of spec before nl body after
      ≡ (before ++ begin_marker spec) ++ (nl ++ (body ++ (end_marker spec ++ after)))
  split_line = simp append_assoc

  pub split_end : file_of spec before nl body after ≡ head_of ++ (end_marker spec ++ after)
  unfolding head_of
  split_end = simp append_assoc

  pub length-head_of :
      length head_of ≡ length before + length (begin_marker spec) + length nl + length body
  unfolding head_of
  length-head_of = omega (arith, length-append {0})

  head_of-EndsLine : IsLineEnd nl → EndsLine body → EndsLine head_of
  unfolding head_of
  head_of-EndsLine en ey =
      let lines = line_end-EndsLine nl body en ey in
      EndsLine-append before _ (EndsLine-append (begin_marker spec) (nl ++ body) lines.0 lines.1)
        (omega (arith, lines.1, length-append {0}))

  module _ (v : valid_merge_spec spec ≡ true) (eb : EndsLine before) (en : IsLineEnd nl)
      (ey : EndsLine body) (ea : StartsLine after) where
    index_of-begin :
        count_of (begin_marker spec) (file_of spec before nl body after) ≡ 1
        → index_of (begin_marker spec) (file_of spec before nl body after) ≡ some (length before)
    unfolding count_of
    index_of-begin once =
        let line = begin_marker-line spec v in
        index_of-once (begin_marker spec) before _ line.1 line.0 eb once

    index_of-end :
        count_of (end_marker spec) (file_of spec before nl body after) ≡ 1
        → index_of (end_marker spec) (file_of spec before nl body after) ≡ some (length head_of)
    unfolding count_of
    index_of-end once =
        let line = end_marker-line spec v in
        ap (index_of (end_marker spec)) split_end
        ∙ index_of-once (end_marker spec) head_of after line.1 line.0 (head_of-EndsLine en ey)
            (ap (count_of (end_marker spec)) (sym split_end) ∙ once)

    at_begin : line_boundary_before (file_of spec before nl body after) (length before) ≡ true
    at_begin = line_boundary_before-EndsLine before _ eb

    behind_begin :
        line_boundary_after
          (file_of spec before nl body after)
          (length before + length (begin_marker spec))
        ≡ true
    behind_begin =
        ap₂ line_boundary_after split_line (sym (length-append before (begin_marker spec)))
        ∙ line_boundary_after-StartsLine (before ++ begin_marker spec)
            (nl ++ (body ++ (end_marker spec ++ after))) (starts nl en)
      where
        starts : (l : List ℕ) → IsLineEnd l → StartsLine (l ++ (body ++ (end_marker spec ++ after)))
        starts l (inl e) =
            subst (λ x. StartsLine (x ++ (body ++ (end_marker spec ++ after)))) (sym e) (inl refl)
        starts l (inr e) =
            subst (λ x. StartsLine (x ++ (body ++ (end_marker spec ++ after)))) (sym e) (inr refl)

    at_end : line_boundary_before (file_of spec before nl body after) (length head_of) ≡ true
    at_end =
        ap (λ c. line_boundary_before c (length head_of)) split_end
        ∙ line_boundary_before-EndsLine head_of _ (head_of-EndsLine en ey)

    behind_end :
        line_boundary_after
          (file_of spec before nl body after)
          (length head_of + length (end_marker spec))
        ≡ true
    behind_end =
        ap₂ line_boundary_after (split_end ∙ sym (append_assoc head_of (end_marker spec) after))
          (sym (length-append head_of (end_marker spec)))
        ∙ line_boundary_after-StartsLine (head_of ++ end_marker spec) after ea

    behind_line :
        after_line_ending
          (file_of spec before nl body after)
          (length before + length (begin_marker spec))
        ≡ some (length before + length (begin_marker spec) + length nl)
    behind_line =
        ap₂ after_line_ending split_line (sym (length-append before (begin_marker spec)))
        ∙ after_line_ending-IsLineEnd (before ++ begin_marker spec) _ nl en
        ∙ ap (λ n. some (n + length nl)) (length-append before (begin_marker spec))

    -- The region of a file in which each marker is counted once is found.
    pub find_region-Region :
        count_of (begin_marker spec) (file_of spec before nl body after) ≡ 1
        → count_of (end_marker spec) (file_of spec before nl body after) ≡ 1
        → find_region (file_of spec before nl body after) spec
          ≡ some (bounds_of spec before nl body)
    unfolding find_region region_between region_from
    find_region-Region once_begin once_end = ground (
      arith,
      index_of-begin once_begin,
      index_of-end once_end,
      at_begin,
      behind_begin,
      at_end,
      behind_end,
      behind_line,
      length-head_of,
      (end_marker-line spec v).1,
      (begin_marker-line spec v).1,
    )
