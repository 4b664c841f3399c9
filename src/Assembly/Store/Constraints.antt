-- ===== src/Assembly/Store/Constraints.antt =====
-- The checks and triggers on runs and on their steps: platform/backend/migrations/000011_assembly.up.sql
-- and 000012_assembly_recovery.up.sql. The checks that a text is a JSON object are not modelled.
use unified_software_commerc.Prelude.{
  ◌^◌, ◌+◌, String, Bool, true, false, not, ◌&&◌, ◌||◌, none, some, List, find, any, all, ltb, leb,
  eqb, is_some, ◌==◌, if◌then◌else◌, ◌≡◌, ◌≢◌, ◌<◌, arith, eq_iff, eq_of_eqb, lt_of_ltb,
}
use unified_software_commerc.Prelude.Int64.{add_one, lt_one}
use unified_software_commerc.Prelude.Text.{is_digest}
use unified_software_commerc.Assembly.Model.{
  Run, RunStep, RunStatus, planned, provisioning, generating, validating, completed, failed,
  rolling_back, rolled_back, other, StepStatus, pending, running, compensated, skipped,
  CompensationStatus, not_required, status_eq,
}
use unified_software_commerc.Assembly.Transition.{step_status_eq, stable_time}

-- `CHECK (status IN (…))`
known_status : RunStatus → Bool
known_status (other s) = false
known_status _ = true

known_step_status : StepStatus → Bool
known_step_status (other s) = false
known_step_status _ = true

known_compensation : CompensationStatus → Bool
known_compensation (other s) = false
known_compensation _ = true

known_kind : String → Bool
known_kind kind =
    kind == "provision"
    || kind == "enable_capability"
    || kind == "generate"
    || kind == "validate"
    || kind == "commit"
    || kind == "rollback"

-- `assembly_runs_retry_shape_check`; the empty parent stands for NULL.
unfoldable pub retry_shape : Run → Bool
retry_shape run =
    (eqb run.attempt_number 1 && run.retry_of_run_id == "" && run.root_run_id == run.run_id)
    || (not (lt_one run.attempt_number)
        && not (eqb run.attempt_number 1)
        && not (run.retry_of_run_id == "")
        && not (run.root_run_id == run.run_id))

-- The checks on one row of `assembly_runs`.
unfoldable pub run_row_valid : Run → Bool
unfolding known_status
run_row_valid run =
    not (lt_one run.plan_version)
    && not (lt_one run.version)
    && not (lt_one run.attempt_number)
    && is_digest run.plan_sha256
    && is_digest run.document_sha256
    && is_digest run.idempotency_key_digest
    && known_status run.status
    && retry_shape run

-- `validate_run_retry_chain`, before an `INSERT`.
unfoldable pub retry_chain_valid : List Run → Run → Bool
retry_chain_valid runs new =
    if eqb new.attempt_number 1
    then true
    else elim (find (λ r. r.run_id == new.retry_of_run_id) runs) [
      | none ↦ false
      | some parent ↦
          status_eq parent.status failed
          && parent.recovery.retryable
          && not parent.recovery.rollback_required
          && new.root_run_id == parent.root_run_id
          && eqb new.attempt_number (add_one parent.attempt_number)
          && elim (find (λ r. r.run_id == new.root_run_id && eqb r.attempt_number 1) runs) [
            | none ↦ false
            | some root ↦ new.created_by == root.created_by
          ]
    ]

-- The primary key and the unique indexes of `assembly_runs`: two rows that may not stand together.
unfoldable pub run_clashes : Run → Run → Bool
run_clashes new r =
    r.run_id == new.run_id
    || (r.plan_id == new.plan_id && r.idempotency_key_digest == new.idempotency_key_digest)
    || (r.root_run_id == new.root_run_id && eqb r.attempt_number new.attempt_number)
    || (not (new.retry_of_run_id == "") && r.retry_of_run_id == new.retry_of_run_id)

-- The moves that `reject_run_contract_update` allows.
run_moves : RunStatus → RunStatus → Bool
run_moves planned provisioning = true
run_moves planned failed = true
run_moves provisioning generating = true
run_moves provisioning failed = true
run_moves provisioning rolling_back = true
run_moves generating validating = true
run_moves generating failed = true
run_moves generating rolling_back = true
run_moves validating completed = true
run_moves validating failed = true
run_moves validating rolling_back = true
run_moves rolling_back rolled_back = true
run_moves rolling_back failed = true
run_moves _ _ = false

unfoldable pub settled : RunStatus → Bool
unfolding status_eq
settled s = status_eq s completed || status_eq s failed || status_eq s rolled_back

-- A column that is set keeps its value.
kept : String → String → Bool
kept old new = old == "" || new == old

-- The columns that `reject_run_contract_update` fixes.
contract_same : Run → Run → Bool
contract_same old new =
    new.run_id == old.run_id
    && new.plan_id == old.plan_id
    && eqb new.plan_version old.plan_version
    && new.plan_sha256 == old.plan_sha256
    && new.idempotency_key_digest == old.idempotency_key_digest
    && new.output_target_ref == old.output_target_ref
    && new.root_run_id == old.root_run_id
    && new.retry_of_run_id == old.retry_of_run_id
    && eqb new.attempt_number old.attempt_number
    && new.created_by == old.created_by
    && eqb new.created_at old.created_at

-- Its tests on the status and the completion.
status_permitted : Run → Run → Bool
unfolding run_moves settled
status_permitted old new =
    stable_time old.completed_at new.completed_at
    && (settled new.status || not (is_some new.completed_at))
    && (not (status_eq new.status completed)
        || (not (new.manifest_id == "") && not (new.lock_id == "") && is_some new.completed_at))
    && (not (settled new.status) || is_some new.completed_at)
    && (status_eq new.status old.status || run_moves old.status new.status)

-- `reject_run_contract_update`, before an `UPDATE`: the negation of its test.
unfoldable pub run_update_permitted : Run → Run → Bool
unfolding contract_same status_permitted kept
run_update_permitted old new =
    contract_same old new
    && kept old.product_id new.product_id
    && kept old.manifest_id new.manifest_id
    && kept old.lock_id new.lock_id
    && not (settled old.status)
    && eqb new.version (old.version + 1)
    && ltb old.updated_at new.updated_at
    && status_permitted old new

conjuncts :
    (a b c d e f g i : Bool)
    → (a && b && c && d && not e && f && g && i) ≡ true
    → (b ≡ true) × (e ≡ false) × (f ≡ true) × (g ≡ true)
conjuncts a b c d e f g i h = (ground arith, ground arith, ground arith, ground arith)

kept-eq : (old new : String) → kept old new ≡ true → old ≢ "" → new ≡ old
unfolding kept
kept-eq old new h bound = ground (arith, bound, eq_iff old "", eq_iff new old)

-- An `UPDATE` that passes is of an unsettled run, whose product it keeps and whose version it raises.
pub permitted_update :
    (old new : Run)
    → run_update_permitted old new ≡ true
    → (old.product_id ≢ "" → new.product_id ≡ old.product_id)
      × (new.version ≡ old.version + 1)
      × (settled old.status ≡ false)
      × (old.updated_at < new.updated_at)
unfolding run_update_permitted
permitted_update old new h =
    let (product, unsettled, version, later) =
      conjuncts (contract_same old new) (kept old.product_id new.product_id)
        (kept old.manifest_id new.manifest_id) (kept old.lock_id new.lock_id) (settled old.status)
        (eqb new.version (old.version + 1)) (ltb old.updated_at new.updated_at)
        (status_permitted old new) h in
    (
      kept-eq old.product_id new.product_id product,
      eq_of_eqb new.version (old.version + 1) version,
      unsettled,
      lt_of_ltb old.updated_at new.updated_at later,
    )

-- The checks on one row of `assembly_run_steps`; the columns are 32 bits wide.
unfoldable pub step_row_valid : RunStep → Bool
unfolding known_step_status known_compensation known_kind
step_row_valid step =
    known_kind step.kind
    && known_step_status step.status
    && ltb step.attempt (2 ^ 31)
    && known_compensation step.compensation_status

step_moves : StepStatus → StepStatus → Bool
step_moves pending running = true
step_moves pending completed = true
step_moves pending failed = true
step_moves pending compensated = true
step_moves pending skipped = true
step_moves running completed = true
step_moves running failed = true
step_moves running compensated = true
step_moves running skipped = true
step_moves completed compensated = true
step_moves failed compensated = true
step_moves _ _ = false

compensation_moves : CompensationStatus → CompensationStatus → Bool
compensation_moves not_required not_required = true
compensation_moves not_required pending = true
compensation_moves not_required completed = true
compensation_moves not_required failed = true
compensation_moves pending pending = true
compensation_moves pending completed = true
compensation_moves pending failed = true
compensation_moves completed completed = true
compensation_moves failed failed = true
compensation_moves (other a) (other b) = a == b
compensation_moves _ _ = false

-- `reject_run_step_update`, before an `UPDATE` of the columns that `upsertRunSteps` sets.
unfoldable pub step_update_permitted : RunStep → RunStep → Bool
unfolding step_moves compensation_moves
step_update_permitted old new =
    leb old.attempt new.attempt
    && stable_time old.started_at new.started_at
    && stable_time old.finished_at new.finished_at
    && all (λ id. any (λ kept_id. kept_id == id) new.diagnostic_ids) old.diagnostic_ids
    && (step_status_eq new.status old.status || step_moves old.status new.status)
    && compensation_moves old.compensation_status new.compensation_status
