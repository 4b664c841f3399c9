-- ===== src/Generation/Tests.antt =====
-- Regions and targets on concrete files.
mod Targets
mod Commits
use unified_software_commerc.Prelude.{ℕ, ◌∷◌, String, List, [], ◌++◌, some, ok, ◌≡◌, refl, arith}
use unified_software_commerc.Prelude.Text.{stable_code}
use unified_software_commerc.Prelude.Slices.{bytes_of, count_of, index_of, count_after}
use unified_software_commerc.Generation.Model.{MergeSpec}
use unified_software_commerc.Generation.Region.{
  MergedRegion, CreatedFile, begin_marker, end_marker, create_integration_file,
  merge_integration_region, validate_merge_spec, valid_merge_spec, normalized_region_body,
  normalize_text, find_region, line_boundary_before, line_boundary_after, after_line_ending,
}
use unified_software_commerc.Generation.Region.Shape.{Region}
use unified_software_commerc.Generation.Region.Laws.{
  merged_of, merge_replaces_body, merge_again, merge_created,
}

abbrev pub digest : List ℕ → String
digest [] = "sha256:00000000000000000000000000000000000000000000000000000000000000e0"
digest (x ∷ xs) = "sha256:00000000000000000000000000000000000000000000000000000000000000a1"

abbrev pub routes : MergeSpec
routes = record { strategy = "generated_region_v1"; region_id = "routes"; comment_prefix = "//" }

abbrev current : List ℕ
current =
    bytes_of "package main"
    ++ (10
        ∷ (bytes_of "// <platform-generated:routes>"
            ++ (13
                ∷ 10
                ∷ (bytes_of "old()"
                    ++ (10
                        ∷ (bytes_of "// </platform-generated:routes>"
                            ++ (10 ∷ bytes_of "func main() {}")))))))

abbrev merged : List ℕ → MergedRegion
merged body = record {
  content =
      bytes_of "package main"
      ++ (10
          ∷ (bytes_of "// <platform-generated:routes>"
              ++ (13
                  ∷ 10
                  ∷ (body
                      ++ (bytes_of "// </platform-generated:routes>"
                          ++ (10 ∷ bytes_of "func main() {}"))))));
  current_digest = digest (111 ∷ []);
  generated_digest = digest (111 ∷ []);
}

abbrev lines_of : String → List ℕ
lines_of text = bytes_of text ++ (10 ∷ [])

merges_first :
    merge_integration_region digest current (bytes_of "new()") (some routes)
    ≡ ok (merged (lines_of "new()"))
unfolding merge_integration_region validate_merge_spec valid_merge_spec stable_code begin_marker
    end_marker find_region count_of index_of normalized_region_body normalize_text
    line_boundary_before line_boundary_after after_line_ending
merges_first = refl

merges_second :
    merge_integration_region digest current (bytes_of "newer()") (some routes)
    ≡ ok (merged (lines_of "newer()"))
unfolding merge_integration_region validate_merge_spec valid_merge_spec stable_code begin_marker
    end_marker find_region count_of index_of normalized_region_body normalize_text
    line_boundary_before line_boundary_after after_line_ending
merges_second = refl

begins_once : count_of (begin_marker routes) (merged (lines_of "new()")).content ≡ 1
unfolding count_of begin_marker
begins_once = refl

ends_once : count_of (end_marker routes) (merged (lines_of "new()")).content ≡ 1
unfolding count_of end_marker
ends_once = refl

merge_replaces_body_example :
    (r : Region routes current) × (merged (lines_of "new()")
      ≡ merged_of digest routes r.before r.nl r.body r.after (bytes_of "new()"))
merge_replaces_body_example =
    merge_replaces_body digest routes current (bytes_of "new()") (merged (lines_of "new()"))
      merges_first

merge_again_example :
    merge_integration_region digest
      (merged (lines_of "new()")).content
      (bytes_of "newer()")
      (some routes)
    ≡ ok (merged (lines_of "newer()"))
merge_again_example =
    merge_again digest routes current (bytes_of "new()") (bytes_of "newer()")
      (merged (lines_of "new()")) (merged (lines_of "newer()")) merges_first merges_second
      begins_once ends_once

abbrev created : String → CreatedFile
created text = record {
  content =
      bytes_of "// <platform-generated:routes>"
      ++ (10 ∷ (bytes_of text ++ (10 ∷ (bytes_of "// </platform-generated:routes>" ++ (10 ∷ [])))));
  generated_digest = digest (111 ∷ []);
}

creates_first :
    create_integration_file digest (bytes_of "new()") (some routes) ≡ ok (created "new()")
unfolding create_integration_file validate_merge_spec valid_merge_spec stable_code begin_marker
    end_marker normalized_region_body normalize_text
creates_first = refl

creates_second :
    create_integration_file digest (bytes_of "newer()") (some routes) ≡ ok (created "newer()")
unfolding create_integration_file validate_merge_spec valid_merge_spec stable_code begin_marker
    end_marker normalized_region_body normalize_text
creates_second = refl

created_begins_once : count_of (begin_marker routes) (created "new()").content ≡ 1
unfolding count_of begin_marker
created_begins_once = refl

created_ends_once : count_of (end_marker routes) (created "new()").content ≡ 1
unfolding count_of end_marker
created_ends_once = refl

merge_created_example :
    merge_integration_region digest (created "new()").content (bytes_of "newer()") (some routes)
    ≡ ok (record {
      content = (created "newer()").content;
      current_digest = (created "new()").generated_digest;
      generated_digest = (created "newer()").generated_digest;
    })
merge_created_example =
    merge_created digest routes (bytes_of "new()") (bytes_of "newer()") (created "new()")
      (created "newer()") creates_first creates_second created_begins_once created_ends_once
