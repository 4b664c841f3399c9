-- ===== src/Generation/Region/Found.antt =====
-- A region that was found is one: the file is split around it.
use mathlib.Core.Path.{ap₂}
use unified_software_commerc.Prelude.{
  ℕ, zero, suc, ◌+◌, ◌-◌, ◌≤◌, ◌<◌, true, some, List, [], ◌∷◌, ◌++◌, length, eqb, ◌≡◌, refl, sym,
  ap, ◌∙◌, subst, arith, Bool-cases, Option-cases, inl, inr,
}
use unified_software_commerc.Prelude.Slices.{
  take, drop, get_elem?, index_of, index_of-LiesAt, EndsLine, EndsLine-suffix, EndsLine-take,
  take-append-drop, length-take, length-drop, drop-drop, get_elem?-drop, take-add,
}
use unified_software_commerc.Generation.Model.{MergeSpec}
use unified_software_commerc.Generation.Region.{
  RegionBounds, begin_marker, end_marker, line_boundary_before, line_boundary_after,
  after_line_ending, find_region, region_between, region_from, byte_is,
}
use unified_software_commerc.Generation.Region.Shape.{IsLineEnd, StartsLine, Region, bounds_of}

module _ (current : List ℕ) where
  take-EndsLine : (i : ℕ) → line_boundary_before current i ≡ true → EndsLine (take i current)
  unfolding line_boundary_before byte_is
  take-EndsLine zero h = tt
  take-EndsLine (suc i) h = EndsLine-take current i (ground arith)

  drop-StartsLine :
      (i : ℕ)
      → i ≤ length current
      → line_boundary_after current i ≡ true
      → StartsLine (drop i current)
  unfolding line_boundary_after byte_is
  drop-StartsLine i le h =
      starts (drop i current) (length-drop i current) (get_elem?-drop i 0 i current (omega arith))
    where
      starts :
          (r : List ℕ)
          → length r ≡ length current - i
          → get_elem? current i ≡ get_elem? r 0
          → StartsLine r
      starts [] l g = tt
      starts (x ∷ r) l g = elim (Bool-cases (eqb x 10)) [
        | inl newline ↦ inl (ground arith)
        | inr other ↦ inr (ground arith)
      ]

  -- The line ending at an index, and what follows it.
  after_line_ending-drop :
      (i j : ℕ)
      → i < length current
      → after_line_ending current i ≡ some j
      → (nl : List ℕ) × (IsLineEnd nl)
        × (drop i current ≡ nl ++ drop j current)
        × (j ≡ i + length nl)
  unfolding after_line_ending byte_is
  after_line_ending-drop i j lt h = elim (Bool-cases (byte_is (get_elem? current i) 10)) [
    | inl newline ↦ (
      10 ∷ [],
      inl refl,
      one (drop i current)
            (ap (λ o. byte_is o 10) (sym (get_elem?-drop i 0 i current (omega arith))) ∙ newline)
          ∙ ap (λ r. 10 ∷ r) (drop-drop i 1 current ∙ ap (λ k. drop k current) (ground arith)),
      ground arith,
    )
    | inr other ↦ (
      13 ∷ 10 ∷ [],
      inr refl,
      two (drop i current)
            (ap (λ o. byte_is o 13) (sym (get_elem?-drop i 0 i current (omega arith)))
              ∙ ground arith)
            (ap (λ o. byte_is o 10) (sym (get_elem?-drop i 1 (i + 1) current refl)) ∙ ground arith)
          ∙ ap (λ r. 13 ∷ 10 ∷ r) (drop-drop i 2 current ∙ ap (λ k. drop k current) (ground arith)),
      ground arith,
    )
  ]
    where
      one : (r : List ℕ) → byte_is (get_elem? r 0) 10 ≡ true → r ≡ 10 ∷ drop 1 r
      one [] e = absurd (ground arith)
      one (x ∷ r) e = ground arith

      two :
          (r : List ℕ)
          → byte_is (get_elem? r 0) 13 ≡ true
          → byte_is (get_elem? r 1) 10 ≡ true
          → r ≡ 13 ∷ 10 ∷ drop 2 r
      two [] d e = absurd (ground arith)
      two (x ∷ []) d e = absurd (ground arith)
      two (x ∷ y ∷ r) d e = ground arith

after_line_ending-le : (current : List ℕ) (i j : ℕ) → after_line_ending current i ≡ some j → i ≤ j
unfolding after_line_ending
after_line_ending-le current i j h = ground arith

-- A file is split around its region.
abbrev pub Found : MergeSpec → List ℕ → RegionBounds → Type 0
Found spec current bounds =
    (r : Region spec current) × (bounds ≡ bounds_of spec r.before r.nl r.body)

-- The tests that a region that was found has passed.
record Tests (spec : MergeSpec) (current : List ℕ) (bounds : RegionBounds) : Type 0 where
  begin_at : ℕ
  begin_found : index_of (begin_marker spec) current ≡ some begin_at
  end_found : index_of (end_marker spec) current ≡ some bounds.end_at
  at_begin : line_boundary_before current begin_at ≡ true
  at_end : line_boundary_before current bounds.end_at ≡ true
  behind_end : line_boundary_after current (bounds.end_at + length (end_marker spec)) ≡ true
  line_end :
      after_line_ending current (begin_at + length (begin_marker spec)) ≡ some bounds.body_start
  ordered : bounds.body_start ≤ bounds.end_at

region_between-Tests :
    (spec : MergeSpec) (current : List ℕ) (bounds : RegionBounds) (b e : ℕ)
    → index_of (begin_marker spec) current ≡ some b
    → index_of (end_marker spec) current ≡ some e
    → region_between current spec (some b) (some e) ≡ some bounds
    → Tests spec current bounds
unfolding region_between region_from
region_between-Tests spec current bounds b e hb he h =
    elim (Option-cases (after_line_ending current (b + length (begin_marker spec)))) [
      | inl none' ↦ absurd (ground arith)
      | inr (s, behind) ↦
          let start : s ≡ bounds.body_start = ground arith in
          let end' : e ≡ bounds.end_at = ground arith in
          record {
            begin_at = b;
            begin_found = hb;
            end_found = he ∙ ap some end';
            at_begin = ground arith;
            at_end = ground arith;
            behind_end = ground arith;
            line_end = behind ∙ ap some start;
            ordered = ground arith;
          }
    ]

find_region-Tests :
    (spec : MergeSpec) (current : List ℕ) (bounds : RegionBounds)
    → find_region current spec ≡ some bounds
    → Tests spec current bounds
unfolding find_region
find_region-Tests spec current bounds h =
    elim (Option-cases (index_of (begin_marker spec) current)) [
      | inl none' ↦ absurd (ground arith)
      | inr (b, hb) ↦ elim (Option-cases (index_of (end_marker spec) current)) [
        | inl none' ↦ absurd (ground arith)
        | inr (e, he) ↦ region_between-Tests spec current bounds b e hb he (ground arith)
      ]
    ]

module _ (spec : MergeSpec) (current : List ℕ) (bounds : RegionBounds)
    (t : Tests spec current bounds) where
  start_in : t.begin_at + length (begin_marker spec) ≤ length current
  start_in = (index_of-LiesAt (begin_marker spec) current t.begin_at t.begin_found).1

  end_in : bounds.end_at + length (end_marker spec) ≤ length current
  end_in = (index_of-LiesAt (end_marker spec) current bounds.end_at t.end_found).1

  behind_first :
      drop t.begin_at current
      ≡ begin_marker spec ++ drop (t.begin_at + length (begin_marker spec)) current
  behind_first =
      (index_of-LiesAt (begin_marker spec) current t.begin_at t.begin_found).0
      ∙ ap (λ r. begin_marker spec ++ r) (drop-drop t.begin_at _ current)

  behind_last :
      drop bounds.end_at current
      ≡ end_marker spec ++ drop (bounds.end_at + length (end_marker spec)) current
  behind_last =
      (index_of-LiesAt (end_marker spec) current bounds.end_at t.end_found).0
      ∙ ap (λ r. end_marker spec ++ r) (drop-drop bounds.end_at _ current)

  body_found : List ℕ
  body_found = take (bounds.end_at - bounds.body_start) (drop bounds.body_start current)

  behind_body : drop bounds.body_start current ≡ body_found ++ drop bounds.end_at current
  unfolding body_found
  behind_body =
      sym (take-append-drop (bounds.end_at - bounds.body_start) (drop bounds.body_start current))
      ∙ ap (λ r. body_found ++ r)
          (drop-drop bounds.body_start (bounds.end_at - bounds.body_start) current
            ∙ ap (λ k. drop k current) (omega (arith, t.ordered)))

  body_found-EndsLine : EndsLine body_found
  unfolding body_found
  body_found-EndsLine = EndsLine-suffix (take bounds.body_start current) body_found (
      subst EndsLine
        (ap (λ k. take k current) {x = bounds.end_at}
            {y = bounds.body_start + (bounds.end_at - bounds.body_start)} (omega (arith, t.ordered))
          ∙ take-add bounds.body_start (bounds.end_at - bounds.body_start) current)
        (take-EndsLine current bounds.end_at t.at_end))

  length-body_found : length body_found ≡ bounds.end_at - bounds.body_start
  unfolding body_found
  length-body_found =
      length-take (bounds.end_at - bounds.body_start) (drop bounds.body_start current)
        (omega (arith, length-drop bounds.body_start current, end_in))

  length-before : length (take t.begin_at current) ≡ t.begin_at
  length-before = length-take t.begin_at current (omega (arith, start_in))

  module _ (nl : List ℕ) (kind : IsLineEnd nl)
      (line : drop (t.begin_at + length (begin_marker spec)) current
        ≡ nl ++ drop bounds.body_start current)
      (start : bounds.body_start ≡ t.begin_at + length (begin_marker spec) + length nl) where
    up_to_line :
        current
        ≡ take t.begin_at current ++ (begin_marker spec ++ (nl ++ drop bounds.body_start current))
    up_to_line =
        sym (take-append-drop t.begin_at current)
        ∙ ap (λ r. take t.begin_at current ++ r)
            (behind_first ∙ ap (λ r. begin_marker spec ++ r) line)

    region_found : Region spec current
    region_found = record {
      before = take t.begin_at current;
      nl = nl;
      body = body_found;
      after = drop (bounds.end_at + length (end_marker spec)) current;
      before_ends = take-EndsLine current t.begin_at t.at_begin;
      nl_is = kind;
      body_ends = body_found-EndsLine;
      after_starts =
          drop-StartsLine current (bounds.end_at + length (end_marker spec)) end_in t.behind_end;
      whole =
          up_to_line
          ∙ ap (λ r. take t.begin_at current ++ (begin_marker spec ++ (nl ++ r)))
              (behind_body ∙ ap (λ r. body_found ++ r) behind_last);
    }

    bounds-region_found : bounds ≡ bounds_of spec (take t.begin_at current) nl body_found
    bounds-region_found =
        ap₂ (λ s e. record { body_start = s; end_at = e }) (omega (arith, length-before, start))
          (omega (arith, length-before, length-body_found, start, t.ordered))

  Tests-Found : 0 < length (end_marker spec) → Found spec current bounds
  unfolding region_found body_found
  Tests-Found pos =
      let (nl, kind, line, start) =
        after_line_ending-drop current (t.begin_at + length (begin_marker spec)) bounds.body_start
          (omega (arith, end_in, t.ordered, after_line_ending-le current _ _ t.line_end))
          t.line_end in
      (region_found nl kind line start, bounds-region_found nl kind line start)

pub find_region-Found :
    (spec : MergeSpec) (current : List ℕ) (bounds : RegionBounds)
    → 0 < length (end_marker spec)
    → find_region current spec ≡ some bounds
    → Found spec current bounds
find_region-Found spec current bounds pos h =
    Tests-Found spec current bounds (find_region-Tests spec current bounds h) pos
