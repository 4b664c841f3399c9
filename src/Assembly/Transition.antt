-- ===== src/Assembly/Transition.antt =====
-- The state machines of a run, of its steps and of their compensation: `validTransition`,
-- `validStepTransition`, `validCompensationTransition` and `stableTime` of
-- platform/backend/internal/modules/assembly/core/service.go. A map of maps is written by clauses:
-- a pair that it does not hold is `false`.
pub mod Laws
use unified_software_commerc.Prelude.{
  ℕ, Bool, true, false, not, ◌&&◌, ◌||◌, Option, none, some, eqb, ◌==◌,
}
use unified_software_commerc.Assembly.Model.{
  RunStatus, planned, provisioning, generating, validating, completed, failed, rolling_back,
  rolled_back, other, StepStatus, pending, running, compensated, skipped, CompensationStatus,
  not_required, status_eq,
}

-- The map `allowed` of `validTransition`.
unfoldable pub allowed : RunStatus → RunStatus → Bool
allowed planned provisioning = true
allowed planned failed = true
allowed provisioning generating = true
allowed provisioning failed = true
allowed generating validating = true
allowed generating failed = true
allowed validating completed = true
allowed validating failed = true
allowed failed provisioning = true
allowed failed rolling_back = true
allowed rolling_back rolled_back = true
allowed rolling_back failed = true
allowed _ _ = false

unfoldable pub valid_transition : RunStatus → RunStatus → Bool
unfolding allowed status_eq
valid_transition current next =
    (status_eq current next
      && not (status_eq current completed)
      && not (status_eq current rolled_back))
    || allowed current next

-- `==` on step statuses.
unfoldable pub step_status_eq : StepStatus → StepStatus → Bool
step_status_eq pending pending = true
step_status_eq running running = true
step_status_eq completed completed = true
step_status_eq failed failed = true
step_status_eq compensated compensated = true
step_status_eq skipped skipped = true
step_status_eq (other a) (other b) = a == b
step_status_eq _ _ = false

-- The map `allowed` of `validStepTransition`.
allowed_step : StepStatus → StepStatus → Bool
allowed_step pending running = true
allowed_step pending completed = true
allowed_step pending failed = true
allowed_step pending skipped = true
allowed_step running completed = true
allowed_step running failed = true
allowed_step failed running = true
allowed_step failed compensated = true
allowed_step completed compensated = true
allowed_step _ _ = false

unfoldable pub valid_step_transition : StepStatus → StepStatus → Bool
unfolding allowed_step step_status_eq
valid_step_transition current next = elim (step_status_eq current next) [
  | true ↦
      not (step_status_eq current completed)
      && not (step_status_eq current compensated)
      && not (step_status_eq current skipped)
  | false ↦ allowed_step current next
]

compensation_eq : CompensationStatus → CompensationStatus → Bool
compensation_eq not_required not_required = true
compensation_eq pending pending = true
compensation_eq completed completed = true
compensation_eq failed failed = true
compensation_eq (other a) (other b) = a == b
compensation_eq _ _ = false

allowed_compensation : CompensationStatus → CompensationStatus → Bool
allowed_compensation pending completed = true
allowed_compensation pending failed = true
allowed_compensation failed pending = true
allowed_compensation failed completed = true
allowed_compensation _ _ = false

unfoldable pub valid_compensation_transition : CompensationStatus → CompensationStatus → Bool
unfolding compensation_eq allowed_compensation
valid_compensation_transition current next =
    compensation_eq current next || allowed_compensation current next

-- A time that is set stays as it is.
unfoldable pub stable_time : Option ℕ → Option ℕ → Bool
stable_time none next = true
stable_time (some t) none = false
stable_time (some t) (some u) = eqb t u
