-- ===== src/Assembly/Tests/Machine.antt =====
-- The state machines, the documents and the workflow on a concrete run.
use unified_software_commerc.Prelude.{
  ◌≢◌, String, ◌+◌, ◌≤◌, true, none, some, [], ◌∷◌, ◌≡◌, refl, ok, err, All, arith, Memᴰ,
}
use unified_software_commerc.Assembly.Model.{
  RunStatus, rolled_back, invalid_run_transition, Run, RunStep, planned, provisioning, generating,
  validating, completed, StepStatus, CompensationStatus, status_eq,
}
use unified_software_commerc.Assembly.Transition.{valid_transition}
use unified_software_commerc.Assembly.Transition.Laws.{
  ◌⟶*◌, progress, run_statuses, completed_needs_four,
}
use unified_software_commerc.Assembly.Evolution.{terminal_status, validate_run_evolution}
use unified_software_commerc.Assembly.Evolution.Laws.{
  SameRun, created, accepted, History-keeps_identity,
}
use unified_software_commerc.Assembly.Evolution.Steps.{EachMoves, evolution_moves_steps}
use unified_software_commerc.Assembly.Document.{initial_steps}
use unified_software_commerc.Assembly.Document.Progress.{
  IsOpen, untouched, next_run, next_document_accepted, completed_step_blocks,
}
use unified_software_commerc.Assembly.Workflow.{
  provisioning_started, validation_started, failure, failure_accepted, provisioned, generated,
  workflow_stops_at_generation,
}
use unified_software_commerc.Assembly.Tests.{a_run, a_validated}

four_moves : run_statuses (planned ∷ provisioning ∷ generating ∷ validating ∷ completed ∷ []) ≡ true
unfolding valid_transition
four_moves = refl

completed_needs_four_example : 4 ≤ progress planned + 3 + 1
completed_needs_four_example =
    completed_needs_four planned (provisioning ∷ generating ∷ validating ∷ []) four_moves

step-IsOpen :
    (s : RunStep)
    → s.status ≡ StepStatus.pending
    → s.started_at ≡ none
    → s.finished_at ≡ none
    → s.attempt ≡ 0
    → IsOpen 200 s
step-IsOpen s h k l m = untouched h k l (omega (arith, m))

All-IsOpen : All (IsOpen 200) a_run.steps
All-IsOpen = (
  step-IsOpen _ refl refl refl refl,
  (
    step-IsOpen _ refl refl refl refl,
    (
      step-IsOpen _ refl refl refl refl,
      (step-IsOpen _ refl refl refl refl, (step-IsOpen _ refl refl refl refl, tt)),
    ),
  ),
)

abbrev begun_run : Run
begun_run = next_run a_run 200 provisioning_started a_validated "" "admin_1" "aud_2" 2

begins : valid_transition a_run.status provisioning_started.status ≡ true
unfolding valid_transition provisioning_started
begins = refl

not_final : provisioning_started.terminal ≡ terminal_status provisioning_started.status
unfolding provisioning_started terminal_status status_eq
not_final = refl

begun_accepted : validate_run_evolution a_run begun_run ≡ ok tt
begun_accepted =
    next_document_accepted a_run 200 provisioning_started a_validated "" "admin_1" "aud_2" 2 begins
      not_final All-IsOpen

next_document_accepted_example : validate_run_evolution a_run begun_run ≡ ok tt
next_document_accepted_example =
    next_document_accepted a_run 200 provisioning_started a_validated "" "admin_1" "aud_2" 2 begins
      not_final All-IsOpen

History-keeps_identity_example : SameRun a_run begun_run × (a_run.status ⟶* begun_run.status)
History-keeps_identity_example =
    History-keeps_identity (accepted {s = a_run} {t = begun_run} created begun_accepted)

evolution_moves_steps_example : EachMoves a_run.steps begun_run.steps
evolution_moves_steps_example = evolution_moves_steps a_run begun_run begun_accepted

unfinished : a_run.status ≢ completed
unfinished e = cc

standing : a_run.status ≢ rolled_back
standing e = cc

known : (a : String) → a_run.status ≢ RunStatus.other a
known a e = cc

failure_accepted_example :
    validate_run_evolution a_run (
      next_run a_run 200
        (failure "step.provision" ("diagnostic.product-provisioning" ∷ []) true)
        a_validated
        ""
        "admin_1"
        "aud_2"
        2)
    ≡ ok tt
failure_accepted_example =
    failure_accepted a_run 200 a_validated "" "admin_1" "aud_2" "step.provision" 2
      ("diagnostic.product-provisioning" ∷ []) true unfinished standing known All-IsOpen

abbrev done_step : RunStep
done_step = record {
  step_id = "step.provision";
  kind = "provision";
  status = StepStatus.completed;
  attempt = 1;
  compensation_status = CompensationStatus.pending;
  started_at = some 200;
  finished_at = some 300;
  diagnostic_ids = [];
}

abbrev done_run : Run
done_run = record a_run { status = generating; steps = done_step ∷ [] }

completed_step_blocks_example :
    validate_run_evolution done_run
      (next_run done_run 400 validation_started a_validated "" "admin_1" "aud_3" 2)
    ≡ err invalid_run_transition
completed_step_blocks_example =
    completed_step_blocks done_run 400 validation_started a_validated "" "admin_1" "aud_3" 2
      done_step (Memᴰ.head refl) refl

same_steps : a_run.steps ≡ initial_steps
unfolding initial_steps
same_steps = refl

workflow_stops_at_generation_example :
    (validate_run_evolution a_run
        (provisioned a_run 200 300 400 a_validated a_validated a_validated "" "admin_1" "aud_2" 2)
      ≡ ok tt)
    × (validate_run_evolution
          (provisioned a_run 200 300 400 a_validated a_validated a_validated "" "admin_1" "aud_2" 2)
          (generated a_run 200 300 400 a_validated a_validated a_validated "" "admin_1" "aud_2" 2)
        ≡ ok tt)
    × (validate_run_evolution
          (generated a_run 200 300 400 a_validated a_validated a_validated "" "admin_1" "aud_2" 2)
          (next_run
            (generated a_run 200 300 400 a_validated a_validated a_validated "" "admin_1" "aud_2" 2)
            400
            validation_started
            a_validated
            ""
            "admin_1"
            "aud_2"
            2)
        ≡ err invalid_run_transition)
workflow_stops_at_generation_example =
    workflow_stops_at_generation a_run 200 300 400 a_validated a_validated a_validated "" "admin_1"
      "aud_2" 2 validation_started refl same_steps (omega arith)
