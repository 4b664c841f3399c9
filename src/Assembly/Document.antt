-- ===== src/Assembly/Document.antt =====
-- Run documents: how the workflow writes the next one (`nextRunDocument` of
-- platform/backend/internal/workflows/assemblyexecution/service.go), how the core writes the first and
-- the retried one and reads one back (`initialRunDocument`, `retryRunDocument`, `parseRunDocument` of
-- platform/backend/internal/modules/assembly/core/service.go). A document stands for its JSON text.
pub mod Progress
use unified_software_commerc.Prelude.{
  ℕ, String, Bool, true, false, not, ◌&&◌, ◌||◌, Option, none, some, List, [], ◌∷◌, map, any, leb,
  ltb, eqb, ◌==◌, if◌then◌else◌, Result, ok, err,
}
use unified_software_commerc.Prelude.Int64.{add_one}
use unified_software_commerc.Prelude.Text.{is_digest, stable_code, len_within}
use unified_software_commerc.Assembly.Model.{
  AssemblyError, document_invalid, Run, RunStep, RunStatus, planned, StepStatus, pending, running,
  completed, failed, CompensationStatus, not_required, RunRecovery,
}
use unified_software_commerc.Assembly.Transition.{step_status_eq}

-- `runMachineDocument`, and the struct that `parseRunDocument` decodes the same text into.
pub record RunDocument : Type 0 where
  pub schema_version : String
  pub run_id : String
  pub root_run_id : String
  pub retry_of_run_id : String
  pub attempt_number : ℕ
  pub plan_id : String
  pub plan_checksum : String
  pub idempotency_key_digest : String
  pub output_target_ref : String
  pub status : RunStatus
  pub steps : List RunStep
  pub current_step_id : Option String
  pub diagnostic_ids : List String
  pub manifest_path : String
  pub lock_path : String
  pub recovery : RunRecovery
  pub created_at : ℕ
  pub updated_at : ℕ
  pub completed_at : Option ℕ

pub record TransitionSpec : Type 0 where
  pub status : RunStatus
  pub current_step_id : String
  pub running : List String
  pub completed : List String
  pub failed : List String
  pub diagnostic_ids : List String
  pub recovery : RunRecovery
  pub manifest_path : String
  pub lock_path : String
  pub terminal : Bool

abbrev pub contains : List String → String → Bool
contains values value = any (λ item. item == value) values

-- `step.Attempt++` and the start time of a step that was pending.
unfoldable pub start_pending : ℕ → RunStep → RunStep
start_pending now step =
    if step_status_eq step.status pending
    then record step { attempt = add_one step.attempt; started_at = some now }
    else step

-- The `switch` of the loop over the steps, with the values of its three tests first.
unfoldable pub step_case : Bool → Bool → Bool → ℕ → TransitionSpec → RunStep → RunStep
unfolding start_pending
step_case true _ _ now spec step =
    if step_status_eq step.status pending || step_status_eq step.status failed
    then record step { status = running; attempt = add_one step.attempt; started_at = some now }
    else step
step_case false true _ now spec step = record (start_pending now step) {
  status = completed;
  finished_at = some now;
}
step_case false false true now spec step = record (start_pending now step) {
  status = failed;
  diagnostic_ids = spec.diagnostic_ids;
  finished_at = some now;
}
step_case false false false now spec step = step

unfoldable pub next_step : ℕ → TransitionSpec → RunStep → RunStep
unfolding step_case
next_step now spec step =
    step_case (contains spec.running step.step_id) (contains spec.completed step.step_id)
      (contains spec.failed step.step_id) now spec step

max_time : ℕ → ℕ → ℕ
max_time first second = if ltb second first then first else second

unfoldable pub next_run_document : Run → ℕ → TransitionSpec → RunDocument
unfolding max_time
next_run_document run now spec =
    let updated = max_time run.updated_at now in
    record {
      schema_version = "1.0.0";
      run_id = run.run_id;
      root_run_id = run.root_run_id;
      retry_of_run_id = run.retry_of_run_id;
      attempt_number = run.attempt_number;
      plan_id = run.plan_id;
      plan_checksum = run.plan_sha256;
      idempotency_key_digest = run.idempotency_key_digest;
      output_target_ref = run.output_target_ref;
      status = spec.status;
      steps = map (next_step now spec) run.steps;
      current_step_id = if spec.current_step_id == "" then none else some spec.current_step_id;
      diagnostic_ids = spec.diagnostic_ids;
      manifest_path = spec.manifest_path;
      lock_path = spec.lock_path;
      recovery = spec.recovery;
      created_at = run.created_at;
      updated_at = updated;
      completed_at = if spec.terminal then some updated else none;
    }

new_step : String → String → CompensationStatus → RunStep
new_step step_id kind compensation_status = record {
  step_id = step_id;
  kind = kind;
  status = pending;
  attempt = 0;
  compensation_status = compensation_status;
  started_at = none;
  finished_at = none;
  diagnostic_ids = [];
}

unfoldable pub initial_steps : List RunStep
unfolding new_step
initial_steps =
    new_step "step.provision" "provision" CompensationStatus.pending
    ∷ new_step "step.enable-capability" "enable_capability" CompensationStatus.pending
    ∷ new_step "step.generate" "generate" CompensationStatus.pending
    ∷ new_step "step.validate" "validate" not_required
    ∷ new_step "step.commit" "commit" CompensationStatus.pending
    ∷ []

-- The recovery of a run that has not begun.
abbrev pub fresh_recovery : RunRecovery
fresh_recovery = record {
  retryable = true;
  rollback_required = false;
  resume_from_step_id = "step.provision";
}

-- `plan` and `plan_sha256` are the identifier and digest of the confirmed plan.
unfoldable pub initial_run_document : String → String → String → String → String → ℕ → RunDocument
initial_run_document run_id plan_id plan_sha256 key_digest output_target_ref now = record {
  schema_version = "1.0.0";
  run_id = run_id;
  root_run_id = run_id;
  retry_of_run_id = "";
  attempt_number = 1;
  plan_id = plan_id;
  plan_checksum = plan_sha256;
  idempotency_key_digest = key_digest;
  output_target_ref = output_target_ref;
  status = planned;
  steps = initial_steps;
  current_step_id = none;
  diagnostic_ids = [];
  manifest_path = "";
  lock_path = "";
  recovery = fresh_recovery;
  created_at = now;
  updated_at = now;
  completed_at = none;
}

-- A step of the retried run: the parent's, begun anew.
unfoldable pub retry_step : RunStep → RunStep
retry_step step = record step {
  status = pending;
  attempt = 0;
  diagnostic_ids = [];
  started_at = none;
  finished_at = none;
  compensation_status =
      if step.kind == "validate" then not_required else CompensationStatus.pending;
}

-- `decode` is `json.Unmarshal` of the stored document; a text without steps decodes to `none`.
unfoldable pub retry_run_document :
    (String → Option RunDocument) → String → Run → String → ℕ → Result AssemblyError RunDocument
unfolding retry_step
retry_run_document decode run_id parent key_digest now = elim (decode parent.document) [
  | none ↦ err document_invalid
  | some body ↦ ok (record body {
    steps = map retry_step body.steps;
    run_id = run_id;
    root_run_id = parent.root_run_id;
    retry_of_run_id = parent.run_id;
    attempt_number = add_one parent.attempt_number;
    idempotency_key_digest = key_digest;
    status = planned;
    current_step_id = none;
    diagnostic_ids = [];
    recovery = fresh_recovery;
    created_at = now;
    updated_at = now;
    completed_at = none;
    manifest_path = "";
    lock_path = "";
  })
]

-- `ValidatedDocument`
pub record ValidatedDocument : Type 0 where
  pub schema_name : String
  pub schema_version : String
  pub canonical_json : String
  pub sha256 : String

-- The test behind the decoding, negated.
unfoldable pub document_holds : RunDocument → Bool
document_holds body =
    not (body.run_id == "")
    && not (body.plan_id == "")
    && is_digest body.plan_checksum
    && is_digest body.idempotency_key_digest
    && len_within 3 128 body.output_target_ref
    && stable_code body.output_target_ref

-- The run that a document describes.
unfoldable pub run_of_document :
    RunDocument → ValidatedDocument → String → ℕ → String → String → Run
run_of_document body validated product_id plan_version actor_id audit_id = record {
  run_id = body.run_id;
  product_id = product_id;
  root_run_id = if body.root_run_id == "" then body.run_id else body.root_run_id;
  retry_of_run_id = body.retry_of_run_id;
  attempt_number = if eqb body.attempt_number 0 then 1 else body.attempt_number;
  plan_id = body.plan_id;
  plan_version = plan_version;
  version = 1;
  plan_sha256 = body.plan_checksum;
  schema_version = validated.schema_version;
  document = validated.canonical_json;
  document_sha256 = validated.sha256;
  idempotency_key_digest = body.idempotency_key_digest;
  output_target_ref = body.output_target_ref;
  status = body.status;
  current_step_id = elim body.current_step_id [ none ↦ "" | some id ↦ id ];
  steps = body.steps;
  diagnostic_ids = body.diagnostic_ids;
  recovery = body.recovery;
  diagnostics = [];
  reports = [];
  manifest_id = "";
  lock_id = "";
  created_by = actor_id;
  created_at = body.created_at;
  updated_at = body.updated_at;
  completed_at = body.completed_at;
  audit_id = audit_id;
}

unfoldable pub parse_run_document :
    (String → Option RunDocument)
    → ValidatedDocument
    → String
    → ℕ
    → String
    → String
    → Result AssemblyError Run
unfolding document_holds run_of_document
parse_run_document decode validated product_id plan_version actor_id audit_id =
    elim (decode validated.canonical_json) [
      | none ↦ err document_invalid
      | some body ↦
          if document_holds body
          then ok (run_of_document body validated product_id plan_version actor_id audit_id)
          else err document_invalid
    ]
