-- ===== src/Assembly/Store/Runs/Changes.antt =====
-- What each write of the repository does to the rows of `assembly_runs`: nothing, one row more, or one
-- row with other columns.
use unified_software_commerc.Prelude.{
  ℕ, String, Bool, true, false, none, some, List, [], ◌∷◌, ◌++◌, find, any, ◌==◌, ◌≡◌, refl, ◌∙◌,
  ok, arith, inl, inr, Option-cases, Bool-cases, Result-cases,
}
use unified_software_commerc.Assembly.Model.{
  Run, RunDiagnostic, RunReport, OutboxEvent, Manifest, GeneratedProjectLock,
}
use unified_software_commerc.Assembly.Store.Rows.{Tables, set_where}
use unified_software_commerc.Assembly.Store.Constraints.{
  run_row_valid, retry_chain_valid, run_clashes, run_update_permitted,
}
use unified_software_commerc.Assembly.Store.Runs.Steps.{upsert_run_steps}
use unified_software_commerc.Assembly.Store.Runs.{
  StartRunRecord, RetryRunRecord, BindProductRecord, UpdateRunRecord, CompleteRunRecord, run_row,
  insert_run, insert_outbox, insert_dispatch, update_row, insert_diagnostic, insert_report,
  insert_run_diagnostics, insert_run_reports, insert_artifacts, bind_plan, bind_unbound, start_run,
  write_retry, retry_run, bind_product, write_binding, update_target, completion_target,
  write_update, write_completion, update_of, completion_of, update_run, complete_run,
  updated_columns, completed_columns, bound_columns, scan_run,
}

-- The columns that no write sets.
pub record RunContract : Type 0 where
  pub run_id : String
  pub plan_id : String
  pub plan_version : ℕ
  pub plan_sha256 : String
  pub idempotency_key_digest : String
  pub output_target_ref : String
  pub root_run_id : String
  pub retry_of_run_id : String
  pub attempt_number : ℕ
  pub created_by : String
  pub created_at : ℕ

abbrev pub contract : Run → RunContract
contract r = record {
  run_id = r.run_id;
  plan_id = r.plan_id;
  plan_version = r.plan_version;
  plan_sha256 = r.plan_sha256;
  idempotency_key_digest = r.idempotency_key_digest;
  output_target_ref = r.output_target_ref;
  root_run_id = r.root_run_id;
  retry_of_run_id = r.retry_of_run_id;
  attempt_number = r.attempt_number;
  created_by = r.created_by;
  created_at = r.created_at;
}

abbrev pub with_id : String → Run → Bool
with_id run_id r = r.run_id == run_id

pub data RunsChange (before after : List Run) : Type 0 where
  unchanged : after ≡ before → RunsChange before after
  added :
      (run : Run)
      → retry_chain_valid before run ≡ true
      → run_row_valid run ≡ true
      → any (run_clashes run) before ≡ false
      → after ≡ before ++ run_row run ∷ []
      → RunsChange before after
  changed :
      (run_id : String) (set : Run → Run) (old : Run)
      → find (with_id run_id) before ≡ some old
      → run_update_permitted old (set old) ≡ true
      → ((r : Run) → contract (set r) ≡ contract r)
      → after ≡ set_where (with_id run_id) set before
      → RunsChange before after

insert_outbox-runs :
    (e : OutboxEvent) (t t' : Tables) → insert_outbox e t ≡ ok t' → t'.runs ≡ t.runs
unfolding insert_outbox
insert_outbox-runs e t t' h = ground arith

insert_dispatch-runs :
    (id : String) (n : ℕ) (t t' : Tables) → insert_dispatch id n t ≡ ok t' → t'.runs ≡ t.runs
unfolding insert_dispatch
insert_dispatch-runs id n t t' h = ground arith

upsert_run_steps-runs : (r : Run) (t t' : Tables) → upsert_run_steps r t ≡ ok t' → t'.runs ≡ t.runs
unfolding upsert_run_steps
upsert_run_steps-runs r t t' h = ground arith

insert_diagnostic-runs :
    (id : String) (d : RunDiagnostic) (t : Tables) → (insert_diagnostic id d t).runs ≡ t.runs
unfolding insert_diagnostic
insert_diagnostic-runs id d t = ground arith

insert_run_diagnostics-runs :
    (id : String) (ds : List RunDiagnostic) (t : Tables)
    → (insert_run_diagnostics id ds t).runs ≡ t.runs
unfolding insert_run_diagnostics
insert_run_diagnostics-runs id [] t = refl
insert_run_diagnostics-runs id (d ∷ ds) t =
    insert_run_diagnostics-runs id ds (insert_diagnostic id d t) ∙ insert_diagnostic-runs id d t

insert_report-runs :
    (id : String) (r : RunReport) (t : Tables) → (insert_report id r t).runs ≡ t.runs
unfolding insert_report
insert_report-runs id r t = ground arith

insert_run_reports-runs :
    (id : String) (rs : List RunReport) (t : Tables) → (insert_run_reports id rs t).runs ≡ t.runs
unfolding insert_run_reports
insert_run_reports-runs id [] t = refl
insert_run_reports-runs id (r ∷ rs) t =
    insert_run_reports-runs id rs (insert_report id r t) ∙ insert_report-runs id r t

insert_artifacts-runs :
    (m : Manifest) (l : GeneratedProjectLock) (t t' : Tables)
    → insert_artifacts m l t ≡ ok t'
    → t'.runs ≡ t.runs
unfolding insert_artifacts
insert_artifacts-runs m l t t' h = ground arith

insert_run-runs :
    (r : Run) (t t' : Tables)
    → insert_run r t ≡ ok t'
    → (t'.runs ≡ t.runs ++ run_row r ∷ [])
      × (retry_chain_valid t.runs r ≡ true)
      × (run_row_valid r ≡ true)
      × (any (run_clashes r) t.runs ≡ false)
unfolding insert_run
insert_run-runs r t t' h = (ground arith, ground arith, ground arith, ground arith)

update_row-none :
    (id : String) (set : Run → Run) (t t' : Tables)
    → find (with_id id) t.runs ≡ none
    → update_row id set t ≡ ok t'
    → t'.runs ≡ t.runs
unfolding update_row
update_row-none id set t t' h k = ground arith

update_row-some :
    (id : String) (set : Run → Run) (t t' : Tables) (old : Run)
    → find (with_id id) t.runs ≡ some old
    → update_row id set t ≡ ok t'
    → (t'.runs ≡ set_where (with_id id) set t.runs) × (run_update_permitted old (set old) ≡ true)
unfolding update_row
update_row-some id set t t' old h k = (ground arith, ground arith)

ruleset keeping = (
  insert_run-runs, insert_outbox-runs, insert_dispatch-runs, upsert_run_steps-runs,
  insert_run_diagnostics-runs, insert_run_reports-runs, insert_artifacts-runs, update_row-none,
  update_row-some,
)

pub start_run-change :
    (r : StartRunRecord) (t t' : Tables) (run : Run)
    → start_run r t ≡ ok (run, t')
    → RunsChange t.runs t'.runs
unfolding start_run
start_run-change r t t' run h =
    let facts : (t'.runs ≡ t.runs ++ run_row r.run ∷ [])
        × (retry_chain_valid t.runs r.run ≡ true)
        × (run_row_valid r.run ≡ true)
        × (any (run_clashes r.run) t.runs ≡ false) =
      grind (arith, keeping) in
    let (after, chain, valid, free) = facts in added r.run chain valid free after

write_retry-change :
    (r : RetryRunRecord) (t t' : Tables) (run : Run)
    → write_retry r t ≡ ok (run, t')
    → RunsChange t.runs t'.runs
unfolding write_retry
write_retry-change r t t' run h =
    let facts : (t'.runs ≡ t.runs ++ run_row r.run ∷ [])
        × (retry_chain_valid t.runs r.run ≡ true)
        × (run_row_valid r.run ≡ true)
        × (any (run_clashes r.run) t.runs ≡ false) =
      grind (arith, keeping) in
    let (after, chain, valid, free) = facts in added r.run chain valid free after

retry_run_writes :
    (r : RetryRunRecord) (t t' : Tables) (run : Run)
    → retry_run r t ≡ ok (run, t')
    → write_retry r t ≡ ok (run, t')
unfolding retry_run scan_run
retry_run_writes r t t' run h = ground arith

pub retry_run-change :
    (r : RetryRunRecord) (t t' : Tables) (run : Run)
    → retry_run r t ≡ ok (run, t')
    → RunsChange t.runs t'.runs
retry_run-change r t t' run h = write_retry-change r t t' run (retry_run_writes r t t' run h)

-- The rows after `UpdateRun`.
pub write_update_runs :
    (r : UpdateRunRecord) (row : Run) (t t' : Tables) (run old : Run)
    → write_update r row t ≡ ok (run, t')
    → find (with_id r.run.run_id) t.runs ≡ some old
    → (t'.runs ≡ set_where (with_id r.run.run_id) (λ o. updated_columns o (update_of r row)) t.runs)
      × (run_update_permitted old (updated_columns old (update_of r row)) ≡ true)
unfolding write_update
write_update_runs r row t t' run old h found = grind (arith, keeping)

write_update-change :
    (r : UpdateRunRecord) (row : Run) (t t' : Tables) (run : Run)
    → write_update r row t ≡ ok (run, t')
    → RunsChange t.runs t'.runs
unfolding write_update
write_update-change r row t t' run h = elim (Option-cases (find (with_id r.run.run_id) t.runs)) [
  | inl none' ↦ unchanged (grind (arith, keeping))
  | inr (old, found) ↦
      let (after, permitted) = write_update_runs r row t t' run old h found in
      changed r.run.run_id (λ o. updated_columns o (update_of r row)) old found permitted
        (λ o. refl) after
]

write_completion-change :
    (r : CompleteRunRecord) (row : Run) (t t' : Tables) (run : Run)
    → write_completion r row t ≡ ok (run, t')
    → RunsChange t.runs t'.runs
unfolding write_completion
write_completion-change r row t t' run h =
    elim (Option-cases (find (with_id r.run.run_id) t.runs)) [
      | inl none' ↦ unchanged (grind (arith, keeping))
      | inr (old, found) ↦
          let facts : (t'.runs
                ≡ set_where (with_id r.run.run_id) (λ o. completed_columns o (completion_of r row))
                    t.runs)
              × (run_update_permitted old (completed_columns old (completion_of r row)) ≡ true) =
            grind (arith, keeping) in
          changed r.run.run_id (λ o. completed_columns o (completion_of r row)) old found facts.1
            (λ o. refl) facts.0
    ]

bind_unbound-change :
    (r : BindProductRecord) (row : Run) (t t' : Tables) (run : Run)
    → bind_unbound r row t ≡ ok (run, t')
    → RunsChange t.runs t'.runs
unfolding bind_unbound bind_plan
bind_unbound-change r row t t' run h = elim (Option-cases (find (with_id row.run_id) t.runs)) [
  | inl none' ↦ unchanged (grind (arith, keeping))
  | inr (old, found) ↦
      let facts : (t'.runs ≡ set_where (with_id row.run_id) (bound_columns r) t.runs)
          × (run_update_permitted old (bound_columns r old) ≡ true) =
        grind (arith, keeping) in
      changed row.run_id (bound_columns r) old found facts.1 (λ o. refl) facts.0
]

pub update_run_writes :
    (r : UpdateRunRecord) (t t' : Tables) (run : Run)
    → update_run r t ≡ ok (run, t')
    → (row : Run) × (find (update_target r) t.runs ≡ some row)
      × (row.version ≡ r.expected_version)
      × (write_update r row t ≡ ok (run, t'))
unfolding update_run
update_run_writes r t t' run h = elim (Option-cases (find (update_target r) t.runs)) [
  | inl none' ↦ absurd (ground arith)
  | inr (row, found) ↦ (row, found, ground arith, ground arith)
]

complete_run_writes :
    (r : CompleteRunRecord) (t t' : Tables) (run : Run)
    → complete_run r t ≡ ok (run, t')
    → (row : Run) × (write_completion r row t ≡ ok (run, t'))
unfolding complete_run
complete_run_writes r t t' run h = elim (Option-cases (find (completion_target r) t.runs)) [
  | inl none' ↦ absurd (ground arith)
  | inr (row, found) ↦ (row, ground arith)
]

write_binding-change :
    (r : BindProductRecord) (row : Run) (t t' : Tables) (run : Run)
    → write_binding r row t ≡ ok (run, t')
    → RunsChange t.runs t'.runs
unfolding write_binding
write_binding-change r row t t' run h = elim (Bool-cases (row.product_id == "")) [
  | inl open' ↦ elim (Result-cases (bind_unbound r row t)) [
    | inl ((run', t''), e) ↦ bind_unbound-change r row t t' run' (ground arith)
    | inr (e', e) ↦ absurd (ground arith)
  ]
  | inr taken ↦ unchanged (ground arith)
]

bind_product_writes :
    (r : BindProductRecord) (t t' : Tables) (run : Run)
    → bind_product r t ≡ ok (run, t')
    → (row : Run) × (write_binding r row t ≡ ok (run, t'))
unfolding bind_product
bind_product_writes r t t' run h = elim (Result-cases (scan_run r.run_id t)) [
  | inl (row, e) ↦ (row, ground arith)
  | inr (e', e) ↦ absurd (ground arith)
]

-- A committed write on runs.
pub data Write (t t' : Tables) : Type 0 where
  started : (r : StartRunRecord) (run : Run) → start_run r t ≡ ok (run, t') → Write t t'
  retried : (r : RetryRunRecord) (run : Run) → retry_run r t ≡ ok (run, t') → Write t t'
  bound : (r : BindProductRecord) (run : Run) → bind_product r t ≡ ok (run, t') → Write t t'
  updated : (r : UpdateRunRecord) (run : Run) → update_run r t ≡ ok (run, t') → Write t t'
  completed : (r : CompleteRunRecord) (run : Run) → complete_run r t ≡ ok (run, t') → Write t t'

pub Write-change : {t t' : Tables} → Write t t' → RunsChange t.runs t'.runs
Write-change {t} {t'} (started r run h) = start_run-change r t t' run h
Write-change {t} {t'} (retried r run h) = retry_run-change r t t' run h
Write-change {t} {t'} (bound r run h) =
    let (row, e) = bind_product_writes r t t' run h in write_binding-change r row t t' run e
Write-change {t} {t'} (updated r run h) =
    let (row, found, version, e) = update_run_writes r t t' run h in
    write_update-change r row t t' run e
Write-change {t} {t'} (completed r run h) =
    let (row, e) = complete_run_writes r t t' run h in write_completion-change r row t t' run e

-- Any number of committed writes.
pub data Writes (t : Tables) : Tables → Type 0 where
  nothing : Writes t t
  more : {t' t'' : Tables} → Writes t t' → Write t' t'' → Writes t t''
