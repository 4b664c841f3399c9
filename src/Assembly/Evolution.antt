-- ===== src/Assembly/Evolution.antt =====
-- How the next document of a run may differ from the stored one: `validateRunEvolution` and
-- `digestsEqual` of platform/backend/internal/modules/assembly/core/service.go.
pub mod Laws
pub mod Steps
use Prim.Native.String.{len}
use unified_software_commerc.Prelude.{
  ℕ, String, Bool, true, false, not, ◌&&◌, ◌||◌, Option, none, some, List, [], ◌∷◌, length, ltb,
  eqb, is_some, ◌==◌, if◌then◌else◌, Result, ok, err,
}
use unified_software_commerc.Prelude.Int64.{lt_one, int_lt}
use unified_software_commerc.Assembly.Model.{
  AssemblyError, invalid_run_transition, Run, RunStep, RunStatus, completed, failed, rolled_back,
  pending, skipped, status_eq,
}
use unified_software_commerc.Assembly.Transition.{
  valid_transition, step_status_eq, valid_step_transition, valid_compensation_transition,
  stable_time,
}

unfoldable pub digests_equal : String → String → Bool
digests_equal left right = if eqb (len left) (len right) then left == right else false

-- The defaults that both documents are given first.
unfoldable pub with_defaults : Run → Run
with_defaults r = record r {
  root_run_id = if r.root_run_id == "" then r.run_id else r.root_run_id;
  attempt_number = if eqb r.attempt_number 0 then 1 else r.attempt_number;
}

-- `after.FinishedAt.Before(*after.StartedAt)` where both are set.
abbrev pub finished_early : Option ℕ → Option ℕ → Bool
finished_early (some started) (some finished) = ltb finished started
finished_early _ _ = false

-- One round of the loop over the steps: the negation of its test.
unfoldable pub step_evolves : RunStep → RunStep → Bool
step_evolves before after =
    before.step_id == after.step_id
    && before.kind == after.kind
    && not (int_lt after.attempt before.attempt)
    && valid_step_transition before.status after.status
    && stable_time before.started_at after.started_at
    && stable_time before.finished_at after.finished_at
    && valid_compensation_transition before.compensation_status after.compensation_status
    && (step_status_eq after.status pending
        || step_status_eq after.status skipped
        || not (lt_one after.attempt))
    && not (finished_early after.started_at after.finished_at)

-- The loop. The lengths were compared before it; a missing `next.Steps[index]` would be a panic.
unfoldable pub steps_evolve : List RunStep → List RunStep → Bool
steps_evolve [] next = true
steps_evolve (before ∷ rest) [] = false
steps_evolve (before ∷ rest) (after ∷ rest') = step_evolves before after && steps_evolve rest rest'

unfoldable pub terminal_status : RunStatus → Bool
terminal_status s = status_eq s completed || status_eq s failed || status_eq s rolled_back

-- The large test over the fields, negated.
unfoldable pub fields_evolve : Run → Run → Bool
fields_evolve current next =
    not (status_eq current.status completed)
    && not (status_eq current.status rolled_back)
    && next.run_id == current.run_id
    && next.plan_id == current.plan_id
    && next.root_run_id == current.root_run_id
    && next.retry_of_run_id == current.retry_of_run_id
    && eqb next.attempt_number current.attempt_number
    && digests_equal next.plan_sha256 current.plan_sha256
    && digests_equal next.idempotency_key_digest current.idempotency_key_digest
    && next.output_target_ref == current.output_target_ref
    && eqb next.created_at current.created_at
    && not (ltb next.updated_at current.updated_at)
    && valid_transition current.status next.status
    && eqb (length next.steps) (length current.steps)

-- `terminal == (next.CompletedAt != nil)`
unfoldable pub completion_matches : Run → Bool
unfolding terminal_status
completion_matches next = elim (terminal_status next.status) [
  | true ↦ is_some next.completed_at
  | false ↦ not (is_some next.completed_at)
]

unfoldable pub validate_run_evolution : Run → Run → Result AssemblyError (Unit {0})
unfolding with_defaults
validate_run_evolution stored document =
    let current = with_defaults stored in
    let next = with_defaults document in
    if not (fields_evolve current next)
    then err invalid_run_transition
    else if not (completion_matches next)
    then err invalid_run_transition
    else if not (steps_evolve current.steps next.steps)
    then err invalid_run_transition
    else ok tt
