-- ===== src/Assembly/Model.antt =====
-- The data model of assembly runs: platform/backend/internal/modules/assembly/core/model.go.
-- An instant is a number of nanoseconds, 0 being Go's zero time; JSON documents are their text;
-- 64-bit integers are bit patterns (Prelude.Int64). A status keeps its constants as constructors,
-- and `other` stands for any other text.
use unified_software_commerc.Prelude.{ℕ, String, Bool, true, false, Option, List, ◌==◌}

pub data AssemblyError : Type 0 where
  invalid_command document_invalid not_found conflict version_conflict : AssemblyError
  idempotency_conflict operation_in_progress plan_unavailable plan_not_executable : AssemblyError
  plan_not_confirmed output_target_unavailable invalid_run_transition : AssemblyError
  -- a check, a foreign key or a trigger of the schema that refuses a row
  constraint_violated : AssemblyError
  -- a stored response that is not JSON of the wanted type
  response_unreadable : AssemblyError
  -- an error of the validator, the output target or the identifier generator
  external : ℕ → AssemblyError

pub data RunStatus : Type 0 where
  planned provisioning generating validating completed failed rolling_back rolled_back : RunStatus
  other : String → RunStatus

pub data StepStatus : Type 0 where
  pending running completed failed compensated skipped : StepStatus
  other : String → StepStatus

pub data CompensationStatus : Type 0 where
  not_required pending completed failed : CompensationStatus
  other : String → CompensationStatus

pub record RunStep : Type 0 where
  pub step_id : String
  pub kind : String
  pub status : StepStatus
  pub attempt : ℕ
  pub compensation_status : CompensationStatus
  pub started_at : Option ℕ
  pub finished_at : Option ℕ
  pub diagnostic_ids : List String

pub record RunRecovery : Type 0 where
  pub retryable : Bool
  pub rollback_required : Bool
  pub resume_from_step_id : String

pub record RunDiagnostic : Type 0 where
  pub diagnostic_id : String
  pub code : String
  pub severity : String
  pub category : String
  pub message : String
  pub blocking : Bool
  pub retryable : Bool
  pub remediation : List String
  pub related_paths : List String
  pub created_at : ℕ

pub record RunReport : Type 0 where
  pub report_id : String
  pub report_type : String
  pub status : String
  pub summary : String
  pub checksum : String
  pub created_at : ℕ

pub record Run : Type 0 where
  pub run_id : String
  pub product_id : String
  pub root_run_id : String
  pub retry_of_run_id : String
  pub attempt_number : ℕ
  pub plan_id : String
  pub plan_version : ℕ
  pub version : ℕ
  pub plan_sha256 : String
  pub schema_version : String
  pub document : String
  pub document_sha256 : String
  pub idempotency_key_digest : String
  pub output_target_ref : String
  pub status : RunStatus
  pub current_step_id : String
  pub steps : List RunStep
  pub diagnostic_ids : List String
  pub recovery : RunRecovery
  pub diagnostics : List RunDiagnostic
  pub reports : List RunReport
  pub manifest_id : String
  pub lock_id : String
  pub created_by : String
  pub created_at : ℕ
  pub updated_at : ℕ
  pub completed_at : Option ℕ
  pub audit_id : String

pub record Blueprint : Type 0 where
  pub blueprint_id : String
  pub product_id : String
  pub revision : ℕ
  pub document_version : String
  pub schema_version : String
  pub document : String
  pub content_sha256 : String
  pub created_by : String
  pub created_at : ℕ

-- The fields of a plan that confirming and starting it read or write; `capabilities` is the text of
-- the list.
pub record Plan : Type 0 where
  pub plan_id : String
  pub product_id : String
  pub blueprint_id : String
  pub blueprint_revision : ℕ
  pub version : ℕ
  pub environment : String
  pub schema_version : String
  pub document : String
  pub blueprint_sha256 : String
  pub catalog_revision : String
  pub catalog_snapshot_sha256 : String
  pub plan_sha256 : String
  pub confirmation_checksum : String
  pub executable : Bool
  pub confirmed_at : Option ℕ
  pub confirmed_by : String
  pub capabilities : String
  pub created_by : String
  pub created_at : ℕ
  pub updated_at : ℕ
  pub audit_id : String

pub record Manifest : Type 0 where
  pub assembly_id : String
  pub product_id : String
  pub run_id : String
  pub schema_version : String
  pub document : String
  pub document_sha256 : String
  pub manifest_sha256 : String
  pub created_at : ℕ

pub record GeneratedProjectLock : Type 0 where
  pub lock_id : String
  pub product_id : String
  pub run_id : String
  pub assembly_id : String
  pub schema_version : String
  pub document : String
  pub document_sha256 : String
  pub lock_sha256 : String
  pub created_at : ℕ

pub record Idempotency : Type 0 where
  pub operation : String
  pub actor_id : String
  pub scope_id : String
  pub key_digest : String
  pub request_digest : String
  pub now : ℕ

-- A value of the redacted summary of an audit event.
pub data SummaryValue : Type 0 where
  text : String → SummaryValue
  number : ℕ → SummaryValue
  flag : Bool → SummaryValue
  status_text : RunStatus → SummaryValue

pub record EventPayload : Type 0 where
  pub audit_id : String
  pub occurred_at : ℕ
  pub actor_id : String
  pub permission : String
  pub scope_type : String
  pub scope_id : String
  pub product_id : String
  pub action : String
  pub target_type : String
  pub target_id : String
  pub result : String
  pub reason_code : String
  pub trace_id : String
  pub risk_level : String
  pub redacted_summary : List (String × SummaryValue)

pub record OutboxEvent : Type 0 where
  pub event_id : String
  pub aggregate_id : String
  pub event_type : String
  pub payload : EventPayload
  pub occurred_at : ℕ

-- `==` on run statuses.
unfoldable pub status_eq : RunStatus → RunStatus → Bool
status_eq planned planned = true
status_eq provisioning provisioning = true
status_eq generating generating = true
status_eq validating validating = true
status_eq completed completed = true
status_eq failed failed = true
status_eq rolling_back rolling_back = true
status_eq rolled_back rolled_back = true
status_eq (other a) (other b) = a == b
status_eq _ _ = false
