-- ===== src/Assembly/Tests.antt =====
-- Runs, tables and records on which the theorems about the assembly module are tried out.
mod Outbox
mod Machine
mod Runs
mod Commands
use unified_software_commerc.Prelude.{
  ℕ, String, Bool, true, false, Option, none, some, List, [], ◌∷◌, Result, ok, err, ◌==◌,
  if◌then◌else◌,
}
use unified_software_commerc.Assembly.Model.{
  AssemblyError, Run, RunStep, RunStatus, planned, Plan, Idempotency, OutboxEvent, EventPayload,
  RunRecovery, StepStatus, CompensationStatus,
}
use unified_software_commerc.Assembly.Document.{ValidatedDocument, fresh_recovery}
use unified_software_commerc.Assembly.Store.{Codec, Database}
use unified_software_commerc.Assembly.Store.Rows.{Tables}
use unified_software_commerc.Assembly.Store.Runs.{StartRunRecord, UpdateRunRecord}

abbrev pub a_digest : String
a_digest = "sha256:0123456789abcdef0123456789abcdef0123456789abcdef0123456789abcdef"

abbrev pub a_step : String → String → CompensationStatus → RunStep
a_step step_id kind compensation = record {
  step_id = step_id;
  kind = kind;
  status = StepStatus.pending;
  attempt = 0;
  compensation_status = compensation;
  started_at = none;
  finished_at = none;
  diagnostic_ids = [];
}

abbrev pub five_steps : List RunStep
five_steps =
    a_step "step.provision" "provision" CompensationStatus.pending
    ∷ a_step "step.enable-capability" "enable_capability" CompensationStatus.pending
    ∷ a_step "step.generate" "generate" CompensationStatus.pending
    ∷ a_step "step.validate" "validate" CompensationStatus.not_required
    ∷ a_step "step.commit" "commit" CompensationStatus.pending
    ∷ []

abbrev pub a_run : Run
a_run = record {
  run_id = "run_1";
  product_id = "";
  root_run_id = "run_1";
  retry_of_run_id = "";
  attempt_number = 1;
  plan_id = "plan_1";
  plan_version = 2;
  version = 1;
  plan_sha256 = a_digest;
  schema_version = "1.0.0";
  document = "{}";
  document_sha256 = a_digest;
  idempotency_key_digest = a_digest;
  output_target_ref = "web-main";
  status = planned;
  current_step_id = "";
  steps = five_steps;
  diagnostic_ids = [];
  recovery = fresh_recovery;
  diagnostics = [];
  reports = [];
  manifest_id = "";
  lock_id = "";
  created_by = "admin_1";
  created_at = 100;
  updated_at = 100;
  completed_at = none;
  audit_id = "aud_1";
}

abbrev pub a_plan : Plan
a_plan = record {
  plan_id = "plan_1";
  product_id = "";
  blueprint_id = "bp_1";
  blueprint_revision = 1;
  version = 2;
  environment = "test";
  schema_version = "1.0.0";
  document = "{}";
  blueprint_sha256 = a_digest;
  catalog_revision = "r1";
  catalog_snapshot_sha256 = a_digest;
  plan_sha256 = a_digest;
  confirmation_checksum = "";
  executable = true;
  confirmed_at = some 50;
  confirmed_by = "admin_1";
  capabilities = "";
  created_by = "admin_1";
  created_at = 10;
  updated_at = 50;
  audit_id = "";
}

abbrev pub a_validated : ValidatedDocument
a_validated = record {
  schema_name = "assembly-run";
  schema_version = "1.0.0";
  canonical_json = "{}";
  sha256 = a_digest;
}

abbrev pub an_event : String → String → ℕ → OutboxEvent
an_event event_id aggregate_id occurred_at = record {
  event_id = event_id;
  aggregate_id = aggregate_id;
  event_type = "assembly.progressed.v1";
  occurred_at = occurred_at;
  payload = record {
    audit_id = "aud_1";
    occurred_at = occurred_at;
    actor_id = "admin_1";
    permission = "assembly.execute";
    scope_type = "platform";
    scope_id = "";
    product_id = "";
    action = "assembly.progressed";
    target_type = "assembly_run";
    target_id = aggregate_id;
    result = "success";
    reason_code = "";
    trace_id = "trace_1";
    risk_level = "normal";
    redacted_summary = [];
  };
}

abbrev pub a_key : String → Idempotency
a_key operation = record {
  operation = operation;
  actor_id = "admin_1";
  scope_id = "plan_1";
  key_digest = a_digest;
  request_digest = a_digest;
  now = 100;
}

abbrev pub no_runs : Tables
no_runs = record {
  blueprints = [];
  plans = a_plan ∷ [];
  runs = [];
  steps = [];
  diagnostics = [];
  reports = [];
  manifests = [];
  locks = [];
  dispatches = [];
  outbox = [];
}

abbrev pub a_start : StartRunRecord
a_start = record {
  run = a_run;
  idempotency = a_key "assembly.start";
  event = an_event "evt_1" "run_1" 100;
}

abbrev pub an_update : StartRunRecord → String → ℕ → UpdateRunRecord
an_update start event_id at_time = record {
  run = record (start.run) { status = RunStatus.provisioning; updated_at = at_time };
  expected_version = 1;
  diagnostics = [];
  reports = [];
  idempotency = a_key "assembly.update_run";
  event = an_event event_id "run_1" at_time;
}

-- The tables after a write that succeeded.
abbrev pub tables_of : {A : Type 0} → Result AssemblyError (A × Tables) → Tables
tables_of (ok done) = done.1
tables_of (err e) = no_runs

abbrev pub value_of : {A : Type 0} → A → Result AssemblyError (A × Tables) → A
value_of a (ok done) = done.0
value_of a (err e) = a
