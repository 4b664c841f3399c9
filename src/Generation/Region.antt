-- ===== src/Generation/Region.antt =====
-- Regions of integration files:
-- platform/backend/internal/modules/assembly/generation/region.go, with `normalizeText` of renderer.go.
-- `digest` stands for `digestBytes`, which is SHA-256.
pub mod Shape
pub mod Found
pub mod Laws
use unified_software_commerc.Prelude.{
  ℕ, ◌+◌, ◌-◌, String, Bool, true, false, not, ◌&&◌, ◌||◌, Option, none, some, List, [], ◌∷◌, ◌++◌,
  length, leb, ltb, eqb, ◌==◌, if◌then◌else◌, Result, err, ok, ◌>>=◌, ◌>>◌, guard,
}
use unified_software_commerc.Prelude.Text.{stable_code}
use unified_software_commerc.Prelude.Slices.{take, drop, get_elem?, bytes_of, index_of, count_of}
use unified_software_commerc.Generation.Model.{
  GeneratorError, invalid_input, integration_region, MergeSpec,
}

-- `bytes.ReplaceAll(value, "\r\n", "\n")`
replace_crlf : List ℕ → List ℕ
replace_crlf [] = []
replace_crlf (x ∷ []) = x ∷ []
replace_crlf (x ∷ y ∷ rest) =
    let one = x ∷ replace_crlf (y ∷ rest) in
    let both = 10 ∷ replace_crlf rest in if eqb x 13 && eqb y 10 then both else one

-- `bytes.ReplaceAll(value, "\r", "\n")`
replace_cr : List ℕ → List ℕ
replace_cr [] = []
replace_cr (x ∷ rest) = (if eqb x 13 then 10 else x) ∷ replace_cr rest

unfoldable pub normalize_text : List ℕ → List ℕ
unfolding replace_crlf replace_cr
normalize_text value = replace_cr (replace_crlf value)

-- The value, with a newline behind it unless it ends with one.
ended : List ℕ → List ℕ
ended [] = 10 ∷ []
ended (x ∷ []) = if eqb x 10 then x ∷ [] else x ∷ 10 ∷ []
ended (x ∷ y ∷ rest) = x ∷ ended (y ∷ rest)

unfoldable pub normalized_region_body : List ℕ → List ℕ
unfolding ended
normalized_region_body value = ended (normalize_text value)

unfoldable pub valid_merge_spec : MergeSpec → Bool
valid_merge_spec merge =
    merge.strategy == "generated_region_v1"
    && stable_code merge.region_id
    && (merge.comment_prefix == "//" || merge.comment_prefix == "#")

unfoldable pub validate_merge_spec : Option MergeSpec → Result GeneratorError MergeSpec
validate_merge_spec none = err invalid_input
validate_merge_spec (some merge) = guard (valid_merge_spec merge) invalid_input >> ok merge

unfoldable pub begin_marker : MergeSpec → List ℕ
begin_marker merge =
    bytes_of merge.comment_prefix
    ++ (bytes_of " <platform-generated:" ++ (bytes_of merge.region_id ++ bytes_of ">"))

unfoldable pub end_marker : MergeSpec → List ℕ
end_marker merge =
    bytes_of merge.comment_prefix
    ++ (bytes_of " </platform-generated:" ++ (bytes_of merge.region_id ++ bytes_of ">"))

byte_is : Option ℕ → ℕ → Bool
byte_is none b = false
byte_is (some x) b = eqb x b

unfoldable pub line_boundary_before : List ℕ → ℕ → Bool
unfolding byte_is
line_boundary_before value index = eqb index 0 || byte_is (get_elem? value (index - 1)) 10

unfoldable pub line_boundary_after : List ℕ → ℕ → Bool
unfolding byte_is
line_boundary_after value index =
    eqb index (length value)
    || byte_is (get_elem? value index) 10
    || byte_is (get_elem? value index) 13

-- The index behind the line ending at `index`.
unfoldable pub after_line_ending : List ℕ → ℕ → Option ℕ
unfolding byte_is
after_line_ending value index =
    if eqb index (length value)
    then some index
    else if byte_is (get_elem? value index) 10
    then some (index + 1)
    else if byte_is (get_elem? value index) 13 && byte_is (get_elem? value (index + 1)) 10
    then some (index + 2)
    else none

-- Where the body of the region starts and ends.
pub record RegionBounds : Type 0 where
  pub body_start : ℕ
  pub end_at : ℕ

-- The body that starts behind the marker's line, if that is not behind the end marker.
region_from : Option ℕ → ℕ → Option RegionBounds
region_from none end_at = none
region_from (some body_start) end_at =
    if leb body_start end_at
    then some (record { body_start = body_start; end_at = end_at })
    else none

-- The tests on the indices of the two markers.
region_between : List ℕ → MergeSpec → Option ℕ → Option ℕ → Option RegionBounds
unfolding region_from
region_between current merge (some begin_at) (some end_at) =
    let behind_begin = begin_at + length (begin_marker merge) in
    if ltb begin_at end_at
      && line_boundary_before current begin_at
      && line_boundary_after current behind_begin
      && line_boundary_before current end_at
      && line_boundary_after current (end_at + length (end_marker merge))
    then region_from (after_line_ending current behind_begin) end_at
    else none
region_between current merge begin_at end_at = none

unfoldable pub find_region : List ℕ → MergeSpec → Option RegionBounds
unfolding region_between
find_region current merge =
    if eqb (count_of (begin_marker merge) current) 1 && eqb (count_of (end_marker merge) current) 1
    then region_between current merge (index_of (begin_marker merge) current)
        (index_of (end_marker merge) current)
    else none

pub record MergedRegion : Type 0 where
  pub content : List ℕ
  pub current_digest : String
  pub generated_digest : String

pub record CreatedFile : Type 0 where
  pub content : List ℕ
  pub generated_digest : String

module _ (digest : List ℕ → String) where
  unfoldable pub create_integration_file :
      List ℕ → Option MergeSpec → Result GeneratorError CreatedFile
  create_integration_file rendered merge = validate_merge_spec merge >>= λ spec.
      let body = normalized_region_body rendered in
      ok (record {
        content = begin_marker spec ++ (10 ∷ (body ++ (end_marker spec ++ (10 ∷ []))));
        generated_digest = digest body;
      })

  merged_region : List ℕ → List ℕ → RegionBounds → MergedRegion
  merged_region current rendered bounds =
      let body = normalized_region_body rendered in
      record {
        content = take bounds.body_start current ++ (body ++ drop bounds.end_at current);
        current_digest =
            digest (take (bounds.end_at - bounds.body_start) (drop bounds.body_start current));
        generated_digest = digest body;
      }

  unfoldable pub merge_integration_region :
      List ℕ → List ℕ → Option MergeSpec → Result GeneratorError MergedRegion
  unfolding merged_region
  merge_integration_region current rendered merge = validate_merge_spec merge >>= λ spec.
      elim (find_region current spec) [
        | none ↦ err integration_region
        | some bounds ↦ ok (merged_region current rendered bounds)
      ]
