-- ===== src/Assembly/Evidence.antt =====
-- The diagnostics and reports that a run may be updated with: `validateRunEvidence` and
-- `safeRelativeEvidencePath` of platform/backend/internal/modules/assembly/core/service.go.
use Prim.Native.Char.{code}
use Prim.Native.String.{[], ◌∷◌}
use mathlib.Core.List.{List, [], ◌∷◌}
use unified_software_commerc.Prelude.{
  ℕ, ◌+◌, String, Bool, true, false, not, ◌&&◌, ◌||◌, any, all, map, length, eqb, leb, ◌==◌,
  if◌then◌else◌, Result, ok, ◌>>=◌, ◌>>◌, guard,
}
use unified_software_commerc.Prelude.Text.{stable_code, is_digest, len_within, is_lower, is_upper}
use unified_software_commerc.Assembly.Model.{
  AssemblyError, document_invalid, Run, failed, RunDiagnostic, RunReport, status_eq,
}

starts_with : String → String → Bool
starts_with [] s = true
starts_with (p ∷ ps) [] = false
starts_with (p ∷ ps) (c ∷ s) = eqb (code p) (code c) && starts_with ps s

-- `strings.Contains`
contains_text : String → String → Bool
unfolding starts_with
contains_text part [] = starts_with part []
contains_text part (c ∷ s) = starts_with part (c ∷ s) || contains_text part s

-- `strings.TrimPrefix`
trim_prefix : String → String → String
unfolding starts_with
trim_prefix s prefix = if starts_with prefix s then drop_both prefix s else s
  where
    drop_both : String → String → String
    drop_both [] s = s
    drop_both (p ∷ ps) [] = []
    drop_both (p ∷ ps) (c ∷ s) = drop_both ps s

append : String → String → String
append [] t = t
append (c ∷ s) t = c ∷ append s t

-- `strings.ReplaceAll(id, "-", "_")`
underscored : String → String
unfolding append
underscored [] = []
underscored (c ∷ s) =
    let rest = underscored s in if eqb (code c) b'-' then append "_" rest else c ∷ rest

-- `strings.ContainsAny(s, "\r\n\t")`
breaks_line : String → Bool
breaks_line [] = false
breaks_line (c ∷ s) = eqb (code c) 13 || eqb (code c) 10 || eqb (code c) 9 || breaks_line s

-- `drivePathPattern`
drive_path : String → Bool
drive_path [] = false
drive_path (c ∷ []) = false
drive_path (c ∷ d ∷ s) = (is_lower (code c) || is_upper (code c)) && eqb (code d) b':'

unfoldable pub safe_relative_evidence_path : String → Bool
unfolding contains_text starts_with drive_path append
safe_relative_evidence_path value =
    not (value == "")
    && not (contains_text "\\" value)
    && not (starts_with "/" value)
    && not (drive_path value)
    && not (contains_text "/../" (append "/" (append value "/")))

-- The diagnostics that stand for a failure without any.
default_diagnostic : Run → ℕ → String → RunDiagnostic
unfolding trim_prefix underscored append
default_diagnostic run now id = record {
  diagnostic_id = id;
  code = append "assembly." (trim_prefix (underscored id) "diagnostic.");
  severity = "error";
  category = "assembly";
  message = "Assembly step failed; resolve the prerequisite before retrying";
  blocking = true;
  retryable = run.recovery.retryable;
  remediation = "Resolve the reported prerequisite" ∷ "Retry the failed assembly run" ∷ [];
  related_paths = [];
  created_at = now;
}

-- A time that is zero becomes the present.
dated : ℕ → ℕ → ℕ
dated now t = if eqb t 0 then now else t

diagnostic_holds : List String → List String → RunDiagnostic → Bool
diagnostic_holds ids seen d =
    any (λ id. id == d.diagnostic_id) ids
    && not (any (λ id. id == d.diagnostic_id) seen)
    && stable_code d.diagnostic_id
    && stable_code d.code
    && stable_code d.category
    && (d.severity == "info" || d.severity == "warning" || d.severity == "error")
    && len_within 1 500 d.message
    && not (breaks_line d.message)
    && leb (length d.remediation) 20
    && leb (length d.related_paths) 100
    && all (λ item. len_within 1 300 item && not (breaks_line item)) d.remediation

-- The loop over the paths of a diagnostic, with those seen before.
paths_hold : List String → List String → Bool
paths_hold seen [] = true
paths_hold seen (p ∷ rest) =
    not (any (λ q. q == p) seen) && safe_relative_evidence_path p && paths_hold (p ∷ seen) rest

-- The loop over the diagnostics.
check_diagnostics :
    ℕ → List String → List String → List RunDiagnostic → Result AssemblyError (List RunDiagnostic)
unfolding dated diagnostic_holds paths_hold
check_diagnostics now ids seen [] = ok []
check_diagnostics now ids seen (d ∷ rest) =
    guard (diagnostic_holds ids seen d && paths_hold [] d.related_paths) document_invalid
    >> (check_diagnostics now ids (d.diagnostic_id ∷ seen) rest >>= λ checked.
        ok (record d { created_at = dated now d.created_at } ∷ checked))

report_holds : List String → RunReport → Bool
report_holds seen r =
    not (any (λ id. id == r.report_id) seen)
    && stable_code r.report_id
    && stable_code r.report_type
    && (r.status == "passed" || r.status == "failed" || r.status == "partial")
    && len_within 1 500 r.summary
    && not (breaks_line r.summary)
    && (r.checksum == "" || is_digest r.checksum)

check_reports : ℕ → List String → List RunReport → Result AssemblyError (List RunReport)
unfolding dated report_holds
check_reports now seen [] = ok []
check_reports now seen (r ∷ rest) =
    guard (report_holds seen r) document_invalid
    >> (check_reports now (r.report_id ∷ seen) rest >>= λ checked.
        ok (record r { created_at = dated now r.created_at } ∷ checked))

-- The size of a Go map used as a set: how many different texts there are.
unfoldable pub count_distinct : List String → ℕ
count_distinct [] = 0
count_distinct (id ∷ rest) =
    let others = count_distinct rest in if any (λ o. o == id) rest then others else others + 1

unfoldable pub given_diagnostics : Run → List RunDiagnostic → ℕ → List RunDiagnostic
unfolding default_diagnostic
given_diagnostics run diagnostics now =
    if status_eq run.status failed && eqb (length diagnostics) 0
    then map (default_diagnostic run now) run.diagnostic_ids
    else diagnostics

unfoldable pub validate_run_evidence :
    Run
    → List RunDiagnostic
    → List RunReport
    → ℕ
    → Result AssemblyError (List RunDiagnostic × List RunReport)
unfolding check_diagnostics check_reports count_distinct given_diagnostics breaks_line dated
    report_holds
validate_run_evidence run diagnostics reports now =
    let given = given_diagnostics run diagnostics now in
    check_diagnostics now run.diagnostic_ids [] given >>= λ checked.
    guard
      (not (status_eq run.status failed)
        || eqb (length checked) (count_distinct run.diagnostic_ids))
      document_invalid
    >> (check_reports now [] reports >>= λ reported. ok (checked, reported))
