-- ===== src/Assembly/Tests/Commands.antt =====
-- Commands of the assembly service in a concrete environment.
use unified_software_commerc.Prelude.{
  ℕ, find, String, true, not, ◌&&◌, none, some, [], ◌∷◌, ◌≡◌, ◌≢◌, refl, Result, ok, err, is_some,
  ◌==◌, Memᴰ, ne_of_==,
}
use unified_software_commerc.Prelude.Int64.{add_one, lt_one}
use unified_software_commerc.Prelude.Text.{is_digest, stable_code}
use unified_software_commerc.Assembly.Model.{
  AssemblyError, version_conflict, invalid_run_transition, invalid_command, Run, RunStep,
  generating, StepStatus, CompensationStatus, Plan, status_eq,
}
use unified_software_commerc.Assembly.Transition.{valid_transition}
use unified_software_commerc.Assembly.Transition.Laws.{◌⟶◌}
use unified_software_commerc.Assembly.Evolution.{
  digests_equal, with_defaults, steps_evolve, terminal_status, fields_evolve, completion_matches,
  validate_run_evolution,
}
use unified_software_commerc.Assembly.Evolution.Laws.{SameRun}
use unified_software_commerc.Assembly.Document.{
  RunDocument, initial_run_document, next_run_document, document_holds, parse_run_document,
  run_of_document,
}
use unified_software_commerc.Assembly.Evidence.{
  validate_run_evidence, given_diagnostics, count_distinct,
}
use unified_software_commerc.Assembly.Workflow.{provisioning_started, validation_started}
use unified_software_commerc.Assembly.Store.{Codec, Database, exactly_once, reserve_idempotency}
use unified_software_commerc.Assembly.Store.Rows.{Tables}
use unified_software_commerc.Assembly.Store.Plans.{
  ConfirmPlanRecord, get_plan, get_run, confirm_plan, confirm_unconfirmed, confirm_plan_confirms,
  second_confirmation,
}
use unified_software_commerc.Assembly.Store.Replay.{command_runs_once, no_call, called}
use unified_software_commerc.Assembly.Store.Runs.{
  StartRunRecord, UpdateRunRecord, latest_audit_id, insert_outbox,
}
use unified_software_commerc.Assembly.Store.Runs.Steps.{load_run_steps}
use unified_software_commerc.Assembly.Service.{
  Environment, StartAssemblyCommand, UpdateRunCommand, prepare_start, prepare_update,
  update_run_command, attributed, new_audit_and_event_ids, make_idempotency, assembly_event,
  update_event, confirmation_agrees, plan_confirmation_checksum, confirmation_summary_checksum,
}
use unified_software_commerc.Assembly.Service.Laws.{
  start_needs_confirmed_plan, update_moves_along, update_after_completed_step,
}
use unified_software_commerc.Assembly.Tests.{
  a_run, a_plan, a_digest, a_validated, a_key, an_event, no_runs,
}

abbrev run_codec : Codec Run
run_codec = record { encode = λ run. "{\"run_id\":\"run_1\"}"; decode = λ text'. some a_run }

abbrev plan_codec : Codec Plan
plan_codec = record { encode = λ plan. "{}"; decode = λ text'. some a_plan }

-- Every document decodes to the given one.
abbrev environment : RunDocument → Environment
environment document = record {
  validate = λ name content. ok a_validated;
  encode_document = λ d. "{}";
  decode_document = λ text'. some document;
  digest = λ text'. a_digest;
  marshal = λ request. "{}";
  new_id = λ prefix. ok prefix;
  output_target_verified = λ environment' target. true;
  decode_confirmation = λ text'. some (record {
    conflicts = [];
    risks = 0;
    executable = true;
    required = true;
    blocking_conflict_count = 0;
    risk_count = 0;
    statements = "ready" ∷ [];
    summary_checksum = a_digest;
  });
  confirmation_digest = λ blocking risks statements. some a_digest;
  run_codec = run_codec;
  plan_codec = plan_codec;
  now = 200;
}

abbrev the_key : String
the_key = "0123456789abcdef"

abbrev a_start_command : StartAssemblyCommand
a_start_command = record {
  plan_id = "plan_1";
  plan_checksum = a_digest;
  confirmation_checksum = a_digest;
  output_target_ref = "web-main";
  actor_id = "admin_1";
  idempotency_key = the_key;
  trace_id = "trace_1";
  expected_plan_version = 2;
}

abbrev new_document : RunDocument
new_document = initial_run_document "run_" "plan_1" a_digest a_digest "web-main" 200

abbrev record_of : {R : Type 0} → R → Result AssemblyError R → R
record_of default (ok r) = r
record_of default (err e) = default

abbrev unused_start : StartRunRecord
unused_start = record { run = a_run; idempotency = a_key "none"; event = an_event "none" "none" 0 }

abbrev start_record : StartRunRecord
start_record =
    record_of unused_start (prepare_start (environment new_document) a_start_command no_runs)

prepares_start : prepare_start (environment new_document) a_start_command no_runs ≡ ok start_record
unfolding prepare_start get_plan digests_equal confirmation_agrees plan_confirmation_checksum
    confirmation_summary_checksum new_audit_and_event_ids make_idempotency assembly_event
    parse_run_document document_holds run_of_document initial_run_document is_digest stable_code
    lt_one latest_audit_id
prepares_start = refl

start_needs_confirmed_plan_example :
    (plan : Plan) × (get_plan "" "plan_1" no_runs ≡ ok plan)
    × (plan.version ≡ 2)
    × (plan.plan_sha256 ≡ a_digest)
    × (plan.executable ≡ true)
    × (is_some plan.confirmed_at ≡ true)
    × ((environment new_document).output_target_verified plan.environment "web-main" ≡ true)
    × (confirmation_agrees (environment new_document) plan a_digest ≡ true)
start_needs_confirmed_plan_example =
    start_needs_confirmed_plan (environment new_document) a_start_command no_runs start_record
      prepares_start

-- Tables with the run, its steps left out, and one with a completed step.
abbrev with_run : Run → Tables
with_run run = record no_runs { runs = run ∷ [] }

abbrev bare_run : Run
bare_run = record a_run { steps = []; audit_id = "" }

abbrev first_document : RunDocument
first_document = next_run_document bare_run 200 provisioning_started

abbrev an_update_command : UpdateRunCommand
an_update_command = record {
  run_id = "run_1";
  actor_id = "admin_1";
  idempotency_key = the_key;
  trace_id = "trace_1";
  expected_version = 1;
  document = "{}";
  diagnostics = [];
  reports = [];
}

abbrev unused_update : UpdateRunRecord
unused_update = record {
  run = a_run;
  expected_version = 0;
  diagnostics = [];
  reports = [];
  idempotency = a_key "none";
  event = an_event "none" "none" 0;
}

abbrev update_record : UpdateRunRecord
update_record =
    record_of unused_update
      (prepare_update (environment first_document) an_update_command (with_run bare_run))

prepares_update :
    prepare_update (environment first_document) an_update_command (with_run bare_run)
    ≡ ok update_record
unfolding prepare_update get_run load_run_steps latest_audit_id new_audit_and_event_ids
    make_idempotency update_event assembly_event parse_run_document document_holds run_of_document
    next_run_document provisioning_started is_digest stable_code lt_one add_one
    validate_run_evolution fields_evolve completion_matches terminal_status status_eq
    valid_transition digests_equal with_defaults steps_evolve validate_run_evidence
    given_diagnostics count_distinct
prepares_update = refl

update_moves_along_example :
    (current : Run) × (get_run "" "run_1" (with_run bare_run) ≡ ok current)
    × (update_record.run.version ≡ add_one current.version)
    × SameRun current update_record.run
    × (current.status ⟶ update_record.run.status)
update_moves_along_example =
    update_moves_along (environment first_document) an_update_command (with_run bare_run)
      update_record prepares_update

abbrev done_step : RunStep
done_step = record {
  step_id = "step.provision";
  kind = "provision";
  status = StepStatus.completed;
  attempt = 1;
  compensation_status = CompensationStatus.pending;
  started_at = some 200;
  finished_at = some 300;
  diagnostic_ids = [];
}

abbrev done_run : Run
done_run = record bare_run { status = generating; steps = done_step ∷ [] }

abbrev done_database : Database
done_database = record {
  tables = record (with_run (record done_run { steps = [] })) {
    steps = record { run_id = "run_1"; ordinal = 0; step = done_step } ∷ [];
  };
  receipts = [];
}

abbrev next_document : RunDocument
next_document = next_run_document done_run 400 validation_started

reads_done_run : get_run "" "run_1" done_database.tables ≡ ok done_run
unfolding get_run load_run_steps latest_audit_id
reads_done_run = refl

names_all :
    (not (an_update_command.run_id == "")
      && not (lt_one an_update_command.expected_version)
      && attributed an_update_command.actor_id an_update_command.idempotency_key
          an_update_command.trace_id)
    ≡ true
unfolding lt_one
names_all = refl

fresh_ids : new_audit_and_event_ids (environment next_document) ≡ ok ("aud_", "evt_")
unfolding new_audit_and_event_ids
fresh_ids = refl

next_holds : document_holds next_document ≡ true
unfolding document_holds next_run_document is_digest stable_code
next_holds = refl

update_after_completed_step_example :
    update_run_command (environment next_document) an_update_command done_database
    ≡ (err invalid_run_transition, done_database)
update_after_completed_step_example =
    update_after_completed_step (environment next_document) an_update_command done_database done_run
      400 validation_started a_validated "aud_" "evt_" done_step names_all reads_done_run
      (Memᴰ.head refl) refl refl fresh_ids refl next_holds

abbrev empty_database : Database
empty_database = record { tables = no_runs; receipts = [] }

-- An operation that returns the run and changes nothing.
abbrev returns_run : Tables → Result AssemblyError (Run × Tables)
returns_run t = ok (a_run, t)

abbrev refuses : Tables → Result AssemblyError (Run × Tables)
refuses t = err invalid_command

first_done :
    (exactly_once run_codec
      (λ run. run.run_id)
      (a_key "assembly.start")
      returns_run
      empty_database).0
    ≡ ok a_run
unfolding reserve_idempotency
first_done = refl

text_full : ◌≢◌ {A = String} "{\"run_id\":\"run_1\"}" ""
text_full = ne_of_== "{\"run_id\":\"run_1\"}" "" refl

abbrev after_first : Database
after_first =
    (exactly_once run_codec (λ run. run.run_id) (a_key "assembly.start") returns_run
      empty_database).1

-- Another command comes between.
abbrev after_other : Database
after_other =
    (exactly_once run_codec (λ run. run.run_id) (a_key "assembly.retry") returns_run after_first).1

command_runs_once_example :
    exactly_once run_codec (λ run. run.run_id) (a_key "assembly.start") refuses after_other
    ≡ (ok a_run, after_other)
command_runs_once_example =
    command_runs_once run_codec (λ run. run.run_id) (a_key "assembly.start")
      (a_key "assembly.start") returns_run refuses empty_database after_other a_run refl first_done
      (called {db' = after_first} no_call run_codec (λ run. run.run_id) (a_key "assembly.retry")
        returns_run)
      refl text_full

abbrev a_confirmation : ConfirmPlanRecord
a_confirmation = record {
  product_id = "";
  plan_id = "plan_1";
  confirmed_by = "admin_2";
  expected_version = 2;
  confirmed_at = 300;
  idempotency = a_key "assembly.confirm_plan";
  event = an_event "evt_9" "plan_1" 300;
}

abbrev open_plan : Plan
open_plan = record a_plan { version = 1; confirmed_at = none; confirmed_by = ""; updated_at = 10 }

abbrev open_tables : Tables
open_tables = record no_runs { plans = open_plan ∷ [] }

abbrev open_confirmation : ConfirmPlanRecord
open_confirmation = record a_confirmation { expected_version = 1 }

abbrev confirmed : Result AssemblyError (Plan × Tables)
confirmed = confirm_plan open_confirmation open_tables

abbrev confirmed_plan : Plan
confirmed_plan = record open_plan {
  version = 2;
  confirmed_at = some 300;
  confirmed_by = "admin_2";
  updated_at = 300;
  audit_id = "aud_1";
}

abbrev confirmed_tables : Tables
confirmed_tables = elim confirmed [ ok done ↦ done.1 | err e ↦ open_tables ]

reads_open : get_plan "" "plan_1" open_tables ≡ ok open_plan
unfolding get_plan latest_audit_id
reads_open = refl

confirms : confirm_plan open_confirmation open_tables ≡ ok (confirmed_plan, confirmed_tables)
unfolding confirm_plan confirm_unconfirmed get_plan latest_audit_id insert_outbox add_one
confirms = refl

confirm_plan_confirms_example :
    (open_plan.version ≡ 1)
    × (confirmed_plan ≡ record open_plan {
      version = add_one open_plan.version;
      confirmed_at = some 300;
      confirmed_by = "admin_2";
      updated_at = 300;
      audit_id = confirmed_plan.audit_id;
    })
    × ((stored : Plan) × (get_plan "" "plan_1" confirmed_tables ≡ ok stored)
        × (stored ≡ record confirmed_plan { audit_id = stored.audit_id }))
    × ((id : String)
        → id ≢ "plan_1"
        → find (λ p. p.plan_id == id) confirmed_tables.plans
          ≡ find (λ p. p.plan_id == id) open_tables.plans)
confirm_plan_confirms_example =
    confirm_plan_confirms open_confirmation open_tables confirmed_tables open_plan confirmed_plan
      reads_open refl confirms

second_confirmation_example :
    (◌≡◌ {A = ℕ} 2 1 → confirm_plan a_confirmation confirmed_tables ≡ err version_conflict)
    × (◌≡◌ {A = ℕ} 2 2
        → (stored : Plan) × (confirm_plan a_confirmation confirmed_tables
            ≡ ok (stored, confirmed_tables))
          × (stored ≡ record confirmed_plan { audit_id = stored.audit_id }))
second_confirmation_example =
    second_confirmation open_confirmation a_confirmation open_tables confirmed_tables open_plan
      confirmed_plan reads_open refl confirms refl refl
