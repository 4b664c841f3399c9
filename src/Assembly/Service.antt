-- ===== src/Assembly/Service.antt =====
-- The commands of the assembly service on its database: `ConfirmPlan`, `StartAssembly`, `RetryRun`,
-- `BindProduct` and `UpdateRun` of platform/backend/internal/modules/assembly/core/service.go, with
-- `makeIdempotency`, `newAuditAndEventIDs` and `assemblyEvent`. The service is wired completely, so the
-- tests for missing collaborators are left out.
pub mod Laws
use Prim.Native.String.{len}
use unified_software_commerc.Prelude.{
  ℕ, String, Bool, true, false, not, ◌&&◌, ◌||◌, Option, none, some, List, [], ◌∷◌, length, filter,
  ◌^◌, ltb, eqb, leb, is_some, ◌==◌, if◌then◌else◌, Result, ok, err, ◌>>=◌, ◌>>◌, guard, or_err,
}
use unified_software_commerc.Prelude.Int64.{add_one, lt_one}
use unified_software_commerc.Prelude.Text.{is_digest, stable_code, len_within}
use unified_software_commerc.Assembly.Model.{
  AssemblyError, invalid_command, version_conflict, conflict, plan_not_executable,
  plan_not_confirmed, output_target_unavailable, invalid_run_transition, Run, RunStatus, failed,
  Plan, RunDiagnostic, RunReport, Idempotency, OutboxEvent, SummaryValue, text, number, status_text,
  status_eq,
}
use unified_software_commerc.Assembly.Evolution.{digests_equal, validate_run_evolution}
use unified_software_commerc.Assembly.Document.{
  RunDocument, ValidatedDocument, initial_run_document, retry_run_document, parse_run_document,
}
use unified_software_commerc.Assembly.Evidence.{validate_run_evidence}
use unified_software_commerc.Assembly.Store.{Database, Codec, exactly_once}
use unified_software_commerc.Assembly.Store.Rows.{Tables}
use unified_software_commerc.Assembly.Store.Plans.{
  ConfirmPlanRecord, get_plan, get_run, confirm_plan,
}
use unified_software_commerc.Assembly.Store.Runs.{
  StartRunRecord, RetryRunRecord, BindProductRecord, UpdateRunRecord, start_run, retry_run,
  bind_product, update_run,
}

-- The part of a plan document that `planConfirmationChecksum` decodes: the `blocking` flags of its
-- conflicts, the number of its risks, and its confirmation.
pub record PlanConfirmation : Type 0 where
  pub conflicts : List Bool
  pub risks : ℕ
  pub executable : Bool
  pub required : Bool
  pub blocking_conflict_count : ℕ
  pub risk_count : ℕ
  pub statements : List String
  pub summary_checksum : String

-- What the service is given: the validator of documents by their schema, JSON, SHA-256, the generator
-- of identifiers (each prefix is used once in a command), the verifier of output targets, and the
-- clock. `confirmation_digest` is `machinecontract.Digest` of the JSON of a confirmation's counts and
-- statements.
pub record Environment : Type 0 where
  pub validate : String → String → Result AssemblyError ValidatedDocument
  pub encode_document : RunDocument → String
  pub decode_document : String → Option RunDocument
  pub digest : String → String
  pub marshal : List (String × SummaryValue) → String
  pub new_id : String → Result AssemblyError String
  pub output_target_verified : String → String → Bool
  pub decode_confirmation : String → Option PlanConfirmation
  pub confirmation_digest : ℕ → ℕ → List String → Option String
  pub run_codec : Codec Run
  pub plan_codec : Codec Plan
  pub now : ℕ

pub record ConfirmPlanCommand : Type 0 where
  pub plan_id : String
  pub confirmation_checksum : String
  pub actor_id : String
  pub idempotency_key : String
  pub trace_id : String
  pub expected_version : ℕ

pub record StartAssemblyCommand : Type 0 where
  pub plan_id : String
  pub plan_checksum : String
  pub confirmation_checksum : String
  pub output_target_ref : String
  pub actor_id : String
  pub idempotency_key : String
  pub trace_id : String
  pub expected_plan_version : ℕ

pub record RetryRunCommand : Type 0 where
  pub run_id : String
  pub actor_id : String
  pub idempotency_key : String
  pub trace_id : String
  pub expected_version : ℕ

pub record BindProductCommand : Type 0 where
  pub product_id : String
  pub run_id : String
  pub actor_id : String
  pub idempotency_key : String
  pub trace_id : String
  pub expected_version : ℕ

pub record UpdateRunCommand : Type 0 where
  pub run_id : String
  pub actor_id : String
  pub idempotency_key : String
  pub trace_id : String
  pub expected_version : ℕ
  pub document : String
  pub diagnostics : List RunDiagnostic
  pub reports : List RunReport

-- The actor, the key and the trace that every command must name.
abbrev pub attributed : String → String → String → Bool
attributed actor_id idempotency_key trace_id =
    not (actor_id == "") && not (idempotency_key == "") && not (trace_id == "")

module _ (env : Environment) where
  unfoldable pub new_audit_and_event_ids : Result AssemblyError (String × String)
  new_audit_and_event_ids =
      env.new_id "aud_" >>= λ audit_id. env.new_id "evt_" >>= λ event_id. ok (audit_id, event_id)

  unfoldable pub make_idempotency :
      String
      → String
      → String
      → String
      → List (String × SummaryValue)
      → Result AssemblyError Idempotency
  make_idempotency operation actor_id scope_id key request =
      guard
        (not (operation == "")
          && not (actor_id == "")
          && not (scope_id == "")
          && len_within 16 128 key)
        invalid_command
      >> ok (record {
        operation = operation;
        actor_id = actor_id;
        scope_id = scope_id;
        key_digest = env.digest key;
        request_digest = env.digest (env.marshal request);
        now = env.now;
      })

  -- `assemblyEvent`, with the identifiers as a pair and the permission that all these commands need.
  unfoldable pub assembly_event :
      String × String
      → String
      → String
      → String
      → String
      → String
      → String
      → String
      → String
      → List (String × SummaryValue)
      → OutboxEvent
  assembly_event ids event_type action target_type target_id product_id actor_id trace_id risk
        summary =
      record {
        event_id = ids.1;
        aggregate_id = target_id;
        event_type = event_type;
        occurred_at = env.now;
        payload = record {
          audit_id = ids.0;
          occurred_at = env.now;
          actor_id = actor_id;
          permission = "assembly.execute";
          scope_type = if product_id == "" then "platform" else "product";
          scope_id = product_id;
          product_id = product_id;
          action = action;
          target_type = target_type;
          target_id = target_id;
          result = "success";
          reason_code = "";
          trace_id = trace_id;
          risk_level = risk;
          redacted_summary = summary;
        };
      }

  unfoldable pub confirmation_summary_checksum : ℕ → ℕ → List String → Option String
  confirmation_summary_checksum blocking risks statements =
      if leb (2 ^ 63) blocking || leb (2 ^ 63) risks || eqb (length statements) 0
      then none
      else env.confirmation_digest blocking risks statements

  -- The tests of `planConfirmationChecksum` before it computes the digest, negated.
  confirmation_consistent : PlanConfirmation → Bool
  confirmation_consistent body =
      let blocking = length (filter (λ b. b) body.conflicts) in
      is_digest body.summary_checksum
      && body.required
      && eqb body.blocking_conflict_count blocking
      && eqb body.risk_count body.risks
      && not (ltb 0 blocking && body.executable)

  unfoldable pub plan_confirmation_checksum : String → Option String
  unfolding confirmation_summary_checksum confirmation_consistent
  plan_confirmation_checksum document = elim (env.decode_confirmation document) [
    | none ↦ none
    | some body ↦
        if confirmation_consistent body
        then elim (confirmation_summary_checksum body.blocking_conflict_count body.risk_count
            body.statements) [
              | none ↦ none
              | some expected ↦
                  if digests_equal expected body.summary_checksum
                  then some body.summary_checksum
                  else none
            ]
        else none
  ]

  -- `planConfirmationChecksum` against the checksum of the command.
  unfoldable pub confirmation_agrees : Plan → String → Bool
  unfolding plan_confirmation_checksum
  confirmation_agrees plan checksum = elim (plan_confirmation_checksum plan.document) [
    | none ↦ false
    | some expected ↦ digests_equal expected checksum
  ]

  -- What `ConfirmPlan` hands to the repository.
  unfoldable pub prepare_confirm :
      ConfirmPlanCommand → Tables → Result AssemblyError ConfirmPlanRecord
  unfolding new_audit_and_event_ids make_idempotency assembly_event confirmation_agrees
  prepare_confirm command t =
      guard
        (not (command.plan_id == "")
          && is_digest command.confirmation_checksum
          && not (lt_one command.expected_version)
          && attributed command.actor_id command.idempotency_key command.trace_id)
        invalid_command
      >> get_plan "" command.plan_id t
      >>= λ plan.
          guard plan.executable plan_not_executable
          >> guard (confirmation_agrees plan command.confirmation_checksum) conflict
          >> new_audit_and_event_ids
          >>= λ ids.
              make_idempotency "assembly.confirm_plan" command.actor_id plan.plan_id
                command.idempotency_key
                (("PlanSHA256", text plan.plan_sha256)
                  ∷ ("ConfirmationChecksum", text command.confirmation_checksum)
                  ∷ ("ExpectedVersion", number command.expected_version)
                  ∷ [])
              >>= λ idem. ok (record {
                product_id = "";
                plan_id = plan.plan_id;
                confirmed_by = command.actor_id;
                expected_version = command.expected_version;
                confirmed_at = env.now;
                idempotency = idem;
                event =
                    assembly_event ids "assembly.plan_confirmed.v1" "assembly.plan.confirmed"
                      "assembly_plan" plan.plan_id plan.product_id command.actor_id command.trace_id
                      "high"
                      (("plan_sha256", text plan.plan_sha256)
                        ∷ ("expected_version", number command.expected_version)
                        ∷ []);
              })

  -- What `StartAssembly` hands to the repository.
  unfoldable pub prepare_start : StartAssemblyCommand → Tables → Result AssemblyError StartRunRecord
  unfolding new_audit_and_event_ids make_idempotency assembly_event confirmation_agrees
  prepare_start command t =
      guard
        (not (command.plan_id == "")
          && not (lt_one command.expected_plan_version)
          && is_digest command.plan_checksum
          && is_digest command.confirmation_checksum
          && len_within 3 128 command.output_target_ref
          && stable_code command.output_target_ref
          && attributed command.actor_id command.idempotency_key command.trace_id)
        invalid_command
      >> get_plan "" command.plan_id t
      >>= λ plan.
          guard (eqb plan.version command.expected_plan_version) version_conflict
          >> guard (digests_equal plan.plan_sha256 command.plan_checksum) conflict
          >> guard plan.executable plan_not_executable
          >> guard (is_some plan.confirmed_at) plan_not_confirmed
          >> guard (env.output_target_verified plan.environment command.output_target_ref)
              output_target_unavailable
          >> guard (confirmation_agrees plan command.confirmation_checksum) conflict
          >> env.new_id "run_"
          >>= λ run_id.
              env.validate "assembly-run" (
                env.encode_document (
                  initial_run_document run_id plan.plan_id plan.plan_sha256
                    (env.digest command.idempotency_key) command.output_target_ref env.now))
              >>= λ validated. new_audit_and_event_ids >>= λ ids.
                  parse_run_document env.decode_document validated plan.product_id plan.version
                    command.actor_id ids.0
                  >>= λ run.
                      make_idempotency "assembly.start" command.actor_id plan.plan_id
                        command.idempotency_key
                        (("PlanSHA256", text plan.plan_sha256)
                          ∷ ("ConfirmationChecksum", text command.confirmation_checksum)
                          ∷ ("OutputTargetRef", text command.output_target_ref)
                          ∷ ("PlanVersion", number plan.version)
                          ∷ [])
                      >>= λ idem. ok (record {
                        run = run;
                        idempotency = idem;
                        event =
                            assembly_event ids "assembly.started.v1" "assembly.started"
                              "assembly_run" run.run_id run.product_id command.actor_id
                              command.trace_id "high"
                              (("plan_id", text plan.plan_id)
                                ∷ ("plan_sha256", text plan.plan_sha256)
                                ∷ ("output_target_ref", text command.output_target_ref)
                                ∷ []);
                      })

  -- What `RetryRun` hands to the repository.
  unfoldable pub prepare_retry : RetryRunCommand → Tables → Result AssemblyError RetryRunRecord
  unfolding new_audit_and_event_ids make_idempotency assembly_event
  prepare_retry command t =
      guard
        (not (command.run_id == "")
          && not (lt_one command.expected_version)
          && attributed command.actor_id command.idempotency_key command.trace_id)
        invalid_command
      >> get_run "" command.run_id t
      >>= λ parent.
          guard (eqb parent.version command.expected_version) version_conflict
          >> guard
              (status_eq parent.status failed
                && parent.recovery.retryable
                && not parent.recovery.rollback_required)
              conflict
          >> env.new_id "run_"
          >>= λ run_id.
              retry_run_document env.decode_document run_id parent
                (env.digest command.idempotency_key) env.now
              >>= λ document.
                  env.validate "assembly-run" (env.encode_document document) >>= λ validated.
                  new_audit_and_event_ids >>= λ ids.
                  parse_run_document env.decode_document validated parent.product_id
                    parent.plan_version parent.created_by ids.0
                  >>= λ parsed.
                      let run = record parsed {
                        root_run_id = parent.root_run_id;
                        retry_of_run_id = parent.run_id;
                        attempt_number = add_one parent.attempt_number;
                      } in
                      make_idempotency "assembly.retry_run" command.actor_id parent.run_id
                        command.idempotency_key
                        (("ExpectedVersion", number command.expected_version)
                          ∷ ("RootRunID", text parent.root_run_id)
                          ∷ [])
                      >>= λ idem. ok (record {
                        parent_run = parent;
                        run = run;
                        expected_version = command.expected_version;
                        idempotency = idem;
                        event =
                            assembly_event ids "assembly.retried.v1" "assembly.retried"
                              "assembly_run" run.run_id run.product_id command.actor_id
                              command.trace_id "high"
                              (("retry_of_run_id", text parent.run_id)
                                ∷ ("root_run_id", text parent.root_run_id)
                                ∷ ("attempt_number", number run.attempt_number)
                                ∷ []);
                      })

  -- What `BindProduct` hands to the repository.
  unfoldable pub prepare_bind : BindProductCommand → Result AssemblyError BindProductRecord
  unfolding new_audit_and_event_ids make_idempotency assembly_event
  prepare_bind command =
      guard
        (not (command.product_id == "")
          && not (command.run_id == "")
          && not (lt_one command.expected_version)
          && attributed command.actor_id command.idempotency_key command.trace_id)
        invalid_command
      >> new_audit_and_event_ids
      >>= λ ids.
          make_idempotency "assembly.bind_product" command.actor_id command.run_id
            command.idempotency_key
            (("ProductID", text command.product_id)
              ∷ ("ExpectedVersion", number command.expected_version)
              ∷ [])
          >>= λ idem. ok (record {
            product_id = command.product_id;
            run_id = command.run_id;
            expected_version = command.expected_version;
            bound_at = env.now;
            idempotency = idem;
            event =
                assembly_event ids "assembly.product_bound.v1" "assembly.product.bound"
                  "assembly_run" command.run_id command.product_id command.actor_id command.trace_id
                  "high" (("product_id", text command.product_id) ∷ []);
          })

  -- The event of `UpdateRun`, a failure's with its result and reason.
  unfoldable pub update_event : String × String → UpdateRunCommand → Run → OutboxEvent
  unfolding assembly_event
  update_event ids command next =
      let summary =
        ("status", status_text next.status)
        ∷ ("resume_from_step_id", text next.recovery.resume_from_step_id)
        ∷ [] in
      if status_eq next.status failed
      then (let event =
            assembly_event ids "assembly.failed.v1" "assembly.failed" "assembly_run" next.run_id
              next.product_id command.actor_id command.trace_id "high" summary in
          record event {
            payload = record (event.payload) {
              result = "failure";
              reason_code = "assembly.run_failed";
            };
          })
      else assembly_event ids "assembly.progressed.v1" "assembly.progressed" "assembly_run"
          next.run_id next.product_id command.actor_id command.trace_id "normal" summary

  -- What `UpdateRun` hands to the repository.
  unfoldable pub prepare_update : UpdateRunCommand → Tables → Result AssemblyError UpdateRunRecord
  unfolding new_audit_and_event_ids make_idempotency update_event
  prepare_update command t =
      guard
        (not (command.run_id == "")
          && not (lt_one command.expected_version)
          && attributed command.actor_id command.idempotency_key command.trace_id)
        invalid_command
      >> get_run "" command.run_id t
      >>= λ current. env.validate "assembly-run" command.document >>= λ validated.
          new_audit_and_event_ids >>= λ ids.
          parse_run_document env.decode_document validated current.product_id current.plan_version
            command.actor_id ids.0
          >>= λ next.
              validate_run_evolution current next
              >> validate_run_evidence next command.diagnostics command.reports env.now
              >>= λ evidence.
                  make_idempotency "assembly.update_run" command.actor_id current.run_id
                    command.idempotency_key
                    (("DocumentSHA256", text validated.sha256)
                      ∷ ("ExpectedVersion", number command.expected_version)
                      ∷ [])
                  >>= λ idem. ok (record {
                    run = record next { version = add_one current.version };
                    expected_version = command.expected_version;
                    diagnostics = evidence.0;
                    reports = evidence.1;
                    idempotency = idem;
                    event = update_event ids command next;
                  })

  -- An error of the preparation is returned with nothing written.
  abbrev pub prepared :
      {R A : Type 0}
      → Result AssemblyError R
      → (R → Database → Result AssemblyError A × Database)
      → Database
      → Result AssemblyError A × Database
  prepared (ok r) write db = write r db
  prepared (err e) write db = (err e, db)

  -- `confirmed.AuditID = auditID`
  unfoldable pub confirm_plan_command :
      ConfirmPlanCommand → Database → Result AssemblyError Plan × Database
  unfolding prepare_confirm
  confirm_plan_command command db =
      prepared (prepare_confirm command db.tables)
        (λ r db'.
          let done =
            exactly_once env.plan_codec (λ p. p.plan_id) r.idempotency (confirm_plan r) db' in
          (done.0 >>= λ p. ok (record p { audit_id = r.event.payload.audit_id }), done.1))
        db

  unfoldable pub start_assembly :
      StartAssemblyCommand → Database → Result AssemblyError Run × Database
  unfolding prepare_start
  start_assembly command db =
      prepared (prepare_start command db.tables)
        (λ r. exactly_once env.run_codec (λ run. run.run_id) r.idempotency (start_run r)) db

  unfoldable pub retry_run_command :
      RetryRunCommand → Database → Result AssemblyError Run × Database
  unfolding prepare_retry
  retry_run_command command db =
      prepared (prepare_retry command db.tables)
        (λ r. exactly_once env.run_codec (λ run. run.run_id) r.idempotency (retry_run r)) db

  unfoldable pub bind_product_command :
      BindProductCommand → Database → Result AssemblyError Run × Database
  unfolding prepare_bind
  bind_product_command command db =
      prepared (prepare_bind command)
        (λ r. exactly_once env.run_codec (λ run. run.run_id) r.idempotency (bind_product r)) db

  unfoldable pub update_run_command :
      UpdateRunCommand → Database → Result AssemblyError Run × Database
  unfolding prepare_update
  update_run_command command db =
      prepared (prepare_update command db.tables)
        (λ r. exactly_once env.run_codec (λ run. run.run_id) r.idempotency (update_run r)) db
