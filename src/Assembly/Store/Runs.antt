-- ===== src/Assembly/Store/Runs.antt =====
-- The writes of the repository on assembly runs: `StartRun`, `RetryRun`, `BindProduct`, `UpdateRun`,
-- `CompleteRun` and what they share, of
-- platform/backend/internal/modules/assembly/postgres/repository.go. Each is a function on the tables,
-- which `exactly_once` runs in a transaction.
pub mod Steps
pub mod Changes
pub mod Contract
pub mod Keys
pub mod Versions
pub mod Retries
use unified_software_commerc.Prelude.{
  ℕ, String, Bool, true, false, not, ◌&&◌, ◌||◌, Option, none, some, List, [], ◌∷◌, ◌++◌, map, find,
  any, eqb, leb, ◌==◌, if◌then◌else◌, Result, ok, err, ◌>>=◌, ◌>>◌, guard, or_err,
}
use unified_software_commerc.Prelude.Int64.{add_one}
use unified_software_commerc.Assembly.Model.{
  AssemblyError, idempotency_conflict, conflict, not_found, version_conflict, constraint_violated,
  Run, RunStep, RunStatus, completed, failed, RunDiagnostic, RunReport, Manifest,
  GeneratedProjectLock, Idempotency, OutboxEvent, Plan, Blueprint, status_eq,
}
use unified_software_commerc.Assembly.Store.Rows.{
  Tables, StepRow, DiagnosticRow, ReportRow, DispatchRow, DispatchState, OutboxRow, set_where,
}
use unified_software_commerc.Assembly.Store.Constraints.{
  run_row_valid, retry_chain_valid, run_clashes, run_update_permitted,
}
use unified_software_commerc.Assembly.Store.Runs.Steps.{upsert_run_steps, load_run_steps}

pub record StartRunRecord : Type 0 where
  pub run : Run
  pub idempotency : Idempotency
  pub event : OutboxEvent

pub record RetryRunRecord : Type 0 where
  pub parent_run : Run
  pub run : Run
  pub expected_version : ℕ
  pub idempotency : Idempotency
  pub event : OutboxEvent

pub record BindProductRecord : Type 0 where
  pub product_id : String
  pub run_id : String
  pub expected_version : ℕ
  pub bound_at : ℕ
  pub idempotency : Idempotency
  pub event : OutboxEvent

pub record UpdateRunRecord : Type 0 where
  pub run : Run
  pub expected_version : ℕ
  pub diagnostics : List RunDiagnostic
  pub reports : List RunReport
  pub idempotency : Idempotency
  pub event : OutboxEvent

pub record CompleteRunRecord : Type 0 where
  pub run : Run
  pub expected_version : ℕ
  pub manifest : Manifest
  pub lock : GeneratedProjectLock
  pub idempotency : Idempotency
  pub event : OutboxEvent

-- `insertOutbox`; an event that is there already violates the primary key.
unfoldable pub insert_outbox : OutboxEvent → Tables → Result AssemblyError Tables
insert_outbox event t =
    guard (not (any (λ row. row.event.event_id == event.event_id) t.outbox)) constraint_violated
    >> ok (record t {
      outbox =
          t.outbox
          ++ record {
            event = event;
            published_at = none;
            attempt_count = 0;
            next_attempt_at = event.occurred_at;
            dead = false;
            last_error = none;
          }
            ∷ [];
    })

-- The columns of a run that are inserted; its steps are rows of their own.
unfoldable pub run_row : Run → Run
run_row run = record run {
  steps = [];
  diagnostics = [];
  reports = [];
  manifest_id = "";
  lock_id = "";
  audit_id = "";
}

-- The `INSERT` into `assembly_runs`, with `mapWriteError` on its error.
unfoldable pub insert_run : Run → Tables → Result AssemblyError Tables
unfolding run_row
insert_run run t =
    guard (retry_chain_valid t.runs run && run_row_valid run) constraint_violated
    >> guard (not (any (run_clashes run) t.runs)) conflict
    >> guard (any (λ p. p.plan_id == run.plan_id) t.plans) constraint_violated
    >> ok (record t { runs = t.runs ++ run_row run ∷ [] })

-- The `INSERT` into `assembly_run_dispatches`.
unfoldable pub insert_dispatch : String → ℕ → Tables → Result AssemblyError Tables
insert_dispatch run_id at_time t =
    guard (not (any (λ d. d.run_id == run_id) t.dispatches)) constraint_violated
    >> ok (record t {
      dispatches =
          t.dispatches
          ++ record {
            run_id = run_id;
            state = DispatchState.pending;
            attempt_count = 0;
            available_at = at_time;
            lease_owner = none;
            lease_until = none;
            last_error_code = none;
            created_at = at_time;
            updated_at = at_time;
          }
            ∷ [];
    })

-- `ORDER BY e.occurred_at DESC LIMIT 1`: of the events of the aggregate, the audit identifier of a
-- latest one, the one inserted first.
latest_event : String → List OutboxRow → Option OutboxEvent
latest_event aggregate_id [] = none
latest_event aggregate_id (row ∷ rows) = later row.event (latest_event aggregate_id rows)
  where
    later : OutboxEvent → Option OutboxEvent → Option OutboxEvent
    later e none = if e.aggregate_id == aggregate_id then some e else none
    later e (some o) =
        if e.aggregate_id == aggregate_id && leb o.occurred_at e.occurred_at then some e else some o

unfoldable pub latest_audit_id : String → Tables → String
unfolding latest_event
latest_audit_id aggregate_id t = elim (latest_event aggregate_id t.outbox) [
  | none ↦ ""
  | some e ↦ e.payload.audit_id
]

-- `scanRun` of `runSelect … WHERE r.run_id=$1`: the row, without its steps.
unfoldable pub scan_run : String → Tables → Result AssemblyError Run
scan_run run_id t = or_err (find (λ r. r.run_id == run_id) t.runs) not_found >>= λ row.
    ok (record row { audit_id = latest_audit_id row.run_id t })

-- `UPDATE assembly.assembly_runs SET … WHERE run_id=$1`: the checks and the trigger, then the row.
unfoldable pub update_row : String → (Run → Run) → Tables → Result AssemblyError Tables
update_row run_id set t = elim (find (λ r. r.run_id == run_id) t.runs) [
  | none ↦ ok t
  | some old ↦
      guard (run_update_permitted old (set old) && run_row_valid (set old)) constraint_violated
      >> ok (record t { runs = set_where (λ r. r.run_id == run_id) set t.runs })
]

unfoldable pub start_run : StartRunRecord → Tables → Result AssemblyError (Run × Tables)
unfolding insert_run insert_outbox insert_dispatch upsert_run_steps
start_run record' t =
    let run = record'.run in
    guard
      (not (run.idempotency_key_digest == "")
        && run.idempotency_key_digest == record'.idempotency.key_digest)
      idempotency_conflict
    >> insert_run run t
    >>= upsert_run_steps run
    >>= insert_outbox record'.event
    >>= insert_dispatch run.run_id run.created_at
    >>= λ t'. ok (run, t')

-- The writes of `RetryRun`.
unfoldable pub write_retry : RetryRunRecord → Tables → Result AssemblyError (Run × Tables)
unfolding insert_run insert_outbox insert_dispatch upsert_run_steps
write_retry record' t =
    let run = record'.run in
    insert_run run t
    >>= upsert_run_steps run
    >>= insert_dispatch run.run_id run.created_at
    >>= insert_outbox record'.event
    >>= λ t'. ok (run, t')

unfoldable pub retry_run : RetryRunRecord → Tables → Result AssemblyError (Run × Tables)
unfolding scan_run write_retry
retry_run record' t =
    let run = record'.run in
    scan_run record'.parent_run.run_id t >>= λ parent.
    guard (eqb parent.version record'.expected_version) version_conflict
    >> guard
        (status_eq parent.status failed
          && parent.recovery.retryable
          && not parent.recovery.rollback_required)
        conflict
    >> guard
        (run.root_run_id == parent.root_run_id
          && run.retry_of_run_id == parent.run_id
          && eqb run.attempt_number (add_one parent.attempt_number))
        conflict
    >> guard
        (not (run.idempotency_key_digest == "")
          && run.idempotency_key_digest == record'.idempotency.key_digest)
        idempotency_conflict
    >> write_retry record' t

-- A column that is NULL takes the product; the blueprint of the plan, and the plan itself.
unfoldable pub bind_plan : String → String → Tables → Tables
bind_plan plan_id product_id t =
    let of_plan = λ (b : Blueprint).
      any
        (λ p.
          p.plan_id == plan_id
          && b.blueprint_id == p.blueprint_id
          && eqb b.revision p.blueprint_revision)
        t.plans in
    record t {
      blueprints =
          set_where (λ b. of_plan b && b.product_id == "")
            (λ b. record b { product_id = product_id }) t.blueprints;
      plans =
          set_where (λ p. p.plan_id == plan_id && p.product_id == "")
            (λ p. record p { product_id = product_id }) t.plans;
    }

-- The columns that `BindProduct` sets.
abbrev pub bound_columns : BindProductRecord → Run → Run
bound_columns record' run = record run {
  product_id = record'.product_id;
  version = add_one run.version;
  updated_at = record'.bound_at;
}

-- The body of `if run.ProductID == ""`.
unfoldable pub bind_unbound : BindProductRecord → Run → Tables → Result AssemblyError (Run × Tables)
unfolding bind_plan update_row insert_outbox
bind_unbound record' run t =
    update_row run.run_id (bound_columns record') (bind_plan run.plan_id record'.product_id t)
    >>= insert_outbox record'.event
    >>= λ t'.
        ok (record (bound_columns record' run) { audit_id = record'.event.payload.audit_id }, t')

-- What `BindProduct` does with the locked row once the checks hold.
unfoldable pub write_binding :
    BindProductRecord → Run → Tables → Result AssemblyError (Run × Tables)
unfolding bind_unbound load_run_steps
write_binding record' run t =
    (if run.product_id == "" then bind_unbound record' run t else ok (run, t)) >>= λ done.
    ok (record (done.0) { steps = load_run_steps (done.0).run_id done.1 }, done.1)

unfoldable pub bind_product : BindProductRecord → Tables → Result AssemblyError (Run × Tables)
unfolding scan_run write_binding
bind_product record' t = scan_run record'.run_id t >>= λ run.
    guard (run.product_id == "" || run.product_id == record'.product_id) conflict
    >> guard (eqb run.version record'.expected_version) version_conflict
    >> write_binding record' run t

-- One round of `insertRunDiagnostics`, `ON CONFLICT DO NOTHING`.
unfoldable pub insert_diagnostic : String → RunDiagnostic → Tables → Tables
insert_diagnostic run_id d t =
    if any (λ row. row.run_id == run_id && row.diagnostic.diagnostic_id == d.diagnostic_id)
      t.diagnostics
    then t
    else record t { diagnostics = t.diagnostics ++ record { run_id = run_id; diagnostic = d } ∷ [] }

unfoldable pub insert_run_diagnostics : String → List RunDiagnostic → Tables → Tables
unfolding insert_diagnostic
insert_run_diagnostics run_id [] t = t
insert_run_diagnostics run_id (d ∷ rest) t =
    insert_run_diagnostics run_id rest (insert_diagnostic run_id d t)

-- One round of `insertRunReports`, `ON CONFLICT DO NOTHING`.
unfoldable pub insert_report : String → RunReport → Tables → Tables
insert_report run_id r t =
    if any (λ row. row.run_id == run_id && row.report.report_id == r.report_id) t.reports
    then t
    else record t { reports = t.reports ++ record { run_id = run_id; report = r } ∷ [] }

unfoldable pub insert_run_reports : String → List RunReport → Tables → Tables
unfolding insert_report
insert_run_reports run_id [] t = t
insert_run_reports run_id (r ∷ rest) t = insert_run_reports run_id rest (insert_report run_id r t)

-- The columns that `UpdateRun` sets.
abbrev pub updated_columns : Run → Run → Run
updated_columns old run = record old {
  version = run.version;
  schema_version = run.schema_version;
  document = run.document;
  document_sha256 = run.document_sha256;
  status = run.status;
  current_step_id = run.current_step_id;
  diagnostic_ids = run.diagnostic_ids;
  recovery = run.recovery;
  updated_at = run.updated_at;
  completed_at = run.completed_at;
}

-- `WHERE run_id=$1 AND ($2='' OR product_id=$2)`
abbrev pub update_target : UpdateRunRecord → Run → Bool
update_target record' r =
    r.run_id == record'.run.run_id
    && (record'.run.product_id == "" || r.product_id == record'.run.product_id)

-- `run := record.Run` with the product and the version of the row.
abbrev pub update_of : UpdateRunRecord → Run → Run
update_of record' row = record (record'.run) {
  product_id = row.product_id;
  version = add_one row.version;
}

-- The writes of `UpdateRun` for the locked row.
unfoldable pub write_update : UpdateRunRecord → Run → Tables → Result AssemblyError (Run × Tables)
unfolding update_row insert_outbox upsert_run_steps insert_run_diagnostics insert_run_reports
write_update record' row t =
    let run = update_of record' row in
    update_row run.run_id (λ old. updated_columns old run) t >>= upsert_run_steps run >>= λ t'.
    insert_outbox record'.event (
      insert_run_reports run.run_id record'.reports
        (insert_run_diagnostics run.run_id record'.diagnostics t'))
    >>= λ t''. ok (record run { diagnostics = record'.diagnostics; reports = record'.reports }, t'')

unfoldable pub update_run : UpdateRunRecord → Tables → Result AssemblyError (Run × Tables)
unfolding write_update
update_run record' t = or_err (find (update_target record') t.runs) not_found >>= λ row.
    guard (eqb row.version record'.expected_version) version_conflict >> write_update record' row t

-- The two `INSERT`s of `CompleteRun`, with `mapWriteError` on their errors.
unfoldable pub insert_artifacts :
    Manifest → GeneratedProjectLock → Tables → Result AssemblyError Tables
insert_artifacts m l t =
    guard
      (not (
        any
          (λ o.
            o.assembly_id == m.assembly_id
            || o.run_id == m.run_id
            || o.manifest_sha256 == m.manifest_sha256)
          t.manifests))
      conflict
    >> guard
        (not (
          any
            (λ o.
              o.lock_id == l.lock_id
              || o.run_id == l.run_id
              || o.assembly_id == l.assembly_id
              || o.lock_sha256 == l.lock_sha256)
            t.locks))
        conflict
    >> ok (record t { manifests = t.manifests ++ m ∷ []; locks = t.locks ++ l ∷ [] })

abbrev pub validation_report : String → ℕ → RunReport
validation_report checksum created_at = record {
  report_id = "report.validation";
  report_type = "assembly_validation";
  status = "passed";
  summary = "Assembly validation and artifact publication completed";
  checksum = checksum;
  created_at = created_at;
}

-- The columns that `CompleteRun` sets.
abbrev pub completed_columns : Run → Run → Run
completed_columns old run = record (updated_columns old run) {
  status = completed;
  manifest_id = run.manifest_id;
  lock_id = run.lock_id;
}

-- `WHERE run_id=$1 AND product_id=$2`
abbrev pub completion_target : CompleteRunRecord → Run → Bool
completion_target record' r =
    r.run_id == record'.run.run_id && r.product_id == record'.run.product_id

-- `run := record.Run` with the version of the row and the identifiers of the artifacts.
abbrev pub completion_of : CompleteRunRecord → Run → Run
completion_of record' row = record (record'.run) {
  version = add_one row.version;
  manifest_id = record'.manifest.assembly_id;
  lock_id = record'.lock.lock_id;
}

-- The writes of `CompleteRun` for the locked row.
unfoldable pub write_completion :
    CompleteRunRecord → Run → Tables → Result AssemblyError (Run × Tables)
unfolding insert_artifacts update_row insert_outbox upsert_run_steps insert_run_reports
write_completion record' row t =
    let run = completion_of record' row in
    let report = validation_report record'.manifest.manifest_sha256 run.updated_at in
    insert_artifacts record'.manifest record'.lock t
    >>= update_row run.run_id (λ old. completed_columns old run)
    >>= upsert_run_steps run
    >>= λ t'.
        insert_outbox record'.event (insert_run_reports run.run_id (report ∷ []) t') >>= λ t''.
        ok (record run { reports = report ∷ [] }, t'')

unfoldable pub complete_run : CompleteRunRecord → Tables → Result AssemblyError (Run × Tables)
unfolding write_completion
complete_run record' t = or_err (find (completion_target record') t.runs) not_found >>= λ row.
    guard (eqb row.version record'.expected_version) version_conflict
    >> write_completion record' row t
