-- ===== src/Assembly/Workflow.antt =====
-- The documents that the workflow writes for a run, in their order: the transitions of `Execute` and
-- `failRunWithEvidence` of platform/backend/internal/workflows/assemblyexecution/service.go.
use unified_software_commerc.Prelude.{
  ℕ, ◌≤◌, String, Bool, true, false, not, List, [], ◌∷◌, map, ◌≡◌, ◌≢◌, refl, arith, All, Memᴰ, ok,
  err, subst, sym,
}
use unified_software_commerc.Prelude.Int64.{add_one, lt_one}
use unified_software_commerc.Assembly.Model.{
  invalid_run_transition, Run, RunStep, StepStatus, RunRecovery, RunStatus, planned, provisioning,
  generating, validating, completed, failed, status_eq,
}
use unified_software_commerc.Assembly.Transition.{valid_transition, step_status_eq}
use unified_software_commerc.Assembly.Evolution.{terminal_status, validate_run_evolution}
use unified_software_commerc.Assembly.Document.{
  TransitionSpec, ValidatedDocument, initial_steps, next_step, start_pending, next_run_document,
  run_of_document, step_case,
}
use unified_software_commerc.Assembly.Document.Progress.{
  IsOpen, untouched, begun, next_run, next_document_accepted, completed_step_blocks,
}

abbrev pub resume_from : String → RunRecovery
resume_from step_id = record {
  retryable = true;
  rollback_required = false;
  resume_from_step_id = step_id;
}

abbrev pub progress_spec : RunStatus → String → List String → List String → TransitionSpec
progress_spec status step_id running' completed' = record {
  status = status;
  current_step_id = step_id;
  running = running';
  completed = completed';
  failed = [];
  diagnostic_ids = [];
  recovery = resume_from step_id;
  manifest_path = "";
  lock_path = "";
  terminal = false;
}

-- `"provisioning-started"`
unfoldable pub provisioning_started : TransitionSpec
provisioning_started = progress_spec provisioning "step.provision" ("step.provision" ∷ []) []

-- `"generation-started"`
unfoldable pub generation_started : TransitionSpec
generation_started =
    progress_spec generating "step.generate" ("step.generate" ∷ [])
      ("step.provision" ∷ "step.enable-capability" ∷ [])

-- `"validation-started"`
unfoldable pub validation_started : TransitionSpec
validation_started =
    progress_spec validating "step.validate" ("step.validate" ∷ []) ("step.generate" ∷ [])

-- The document that `CompleteAssembly` is given.
unfoldable pub completion : String → String → TransitionSpec
completion manifest_path lock_path = record {
  status = completed;
  current_step_id = "";
  running = [];
  completed = "step.validate" ∷ "step.commit" ∷ [];
  failed = [];
  diagnostic_ids = [];
  recovery = record { retryable = false; rollback_required = false; resume_from_step_id = "" };
  manifest_path = manifest_path;
  lock_path = lock_path;
  terminal = true;
}

-- `failRunWithEvidence`
unfoldable pub failure : String → List String → Bool → TransitionSpec
failure step_id diagnostic_ids target_unchanged = record {
  status = failed;
  current_step_id = step_id;
  running = [];
  completed = [];
  failed = step_id ∷ [];
  diagnostic_ids = diagnostic_ids;
  recovery = record {
    retryable = target_unchanged;
    rollback_required = not target_unchanged;
    resume_from_step_id = step_id;
  };
  manifest_path = "";
  lock_path = "";
  terminal = true;
}

failed_follows :
    (s : RunStatus)
    → s ≢ RunStatus.completed
    → s ≢ RunStatus.rolled_back
    → ((a : String) → s ≢ RunStatus.other a)
    → valid_transition s failed ≡ true
unfolding valid_transition
failed_follows (RunStatus.other a) h k l = absurd (l a refl)
failed_follows RunStatus.completed h k l = absurd (h refl)
failed_follows RunStatus.rolled_back h k l = absurd (k refl)
failed_follows _ h k l = refl

-- A run in a status that the program knows and that is not final, neither completed nor rolled back, is
-- accepted as failed, as long as all its steps are open.
pub failure_accepted :
    (run : Run) (now : ℕ) (v : ValidatedDocument) (product_id actor_id audit_id step_id : String)
    (plan_version : ℕ) (diagnostic_ids : List String) (target_unchanged : Bool)
    → run.status ≢ RunStatus.completed
    → run.status ≢ RunStatus.rolled_back
    → ((a : String) → run.status ≢ RunStatus.other a)
    → All (IsOpen now) run.steps
    → validate_run_evolution run (
        next_run run now
          (failure step_id diagnostic_ids target_unchanged)
          v
          product_id
          actor_id
          audit_id
          plan_version)
      ≡ ok tt
unfolding failure terminal_status status_eq
failure_accepted run now v product_id actor_id audit_id step_id plan_version ids unchanged
      unfinished standing known open' =
    next_document_accepted run now (failure step_id ids unchanged) v product_id actor_id audit_id
      plan_version (failed_follows run.status unfinished standing known) refl open'

module _ (run : Run) (first second third : ℕ) (v w x : ValidatedDocument)
    (product_id actor_id audit_id : String) (plan_version : ℕ) where
  -- The run after the first document, and after the second.
  abbrev pub provisioned : Run
  provisioned = next_run run first provisioning_started v product_id actor_id audit_id plan_version

  abbrev pub generated : Run
  generated =
      next_run provisioned second generation_started w product_id actor_id audit_id plan_version

  fresh-IsOpen : run.steps ≡ initial_steps → All (IsOpen first) run.steps
  unfolding initial_steps
  fresh-IsOpen fresh = subst (All (IsOpen first)) (sym fresh) (
    untouched refl refl refl (omega arith),
    (
      untouched refl refl refl (omega arith),
      (
        untouched refl refl refl (omega arith),
        (untouched refl refl refl (omega arith), (untouched refl refl refl (omega arith), tt)),
      ),
    ),
  )

  provisioned-IsOpen :
      run.steps ≡ initial_steps → first ≤ second → All (IsOpen second) provisioned.steps
  unfolding initial_steps next_run_document run_of_document next_step step_case start_pending
      provisioning_started step_status_eq lt_one add_one
  provisioned-IsOpen fresh later =
      subst (λ steps. All (IsOpen second) (map (next_step first provisioning_started) steps))
        (sym fresh)
        (
          begun refl refl later refl refl,
          (
            untouched refl refl refl (omega arith),
            (
              untouched refl refl refl (omega arith),
              (
                untouched refl refl refl (omega arith),
                (untouched refl refl refl (omega arith), tt),
              ),
            ),
          ),
        )

  -- The step of provisioning is completed by then.
  generated_completed :
      run.steps ≡ initial_steps
      → (b : RunStep) × Memᴰ b generated.steps × (b.status ≡ StepStatus.completed)
  unfolding initial_steps next_run_document run_of_document next_step step_case start_pending
      provisioning_started step_status_eq generation_started
  generated_completed fresh =
      subst
        (λ steps.
          (b : RunStep) × Memᴰ b (
            map (next_step second generation_started)
              (map (next_step first provisioning_started) steps))
          × (b.status ≡ StepStatus.completed))
        (sym fresh) (_, Memᴰ.head refl, refl)

  -- The workflow never gets to validation. For a run that has just been planned, with its five steps
  -- pending, the document of provisioning and the next one, of generation, are accepted (at a time not
  -- before the first); every document after those two, be it of progress, completion or failure, is
  -- refused.
  pub workflow_stops_at_generation :
      (spec : TransitionSpec)
      → run.status ≡ planned
      → run.steps ≡ initial_steps
      → first ≤ second
      → (validate_run_evolution run provisioned ≡ ok tt)
        × (validate_run_evolution provisioned generated ≡ ok tt)
        × (validate_run_evolution generated
              (next_run generated third spec x product_id actor_id audit_id plan_version)
            ≡ err invalid_run_transition)
  unfolding valid_transition provisioning_started terminal_status run_of_document next_run_document
      generation_started
  workflow_stops_at_generation spec is_planned fresh later =
      let (b, listed, done) = generated_completed fresh in
      (
        next_document_accepted run first provisioning_started v product_id actor_id audit_id
            plan_version (subst (λ s. valid_transition s provisioning ≡ true) (sym is_planned) refl)
            refl (fresh-IsOpen fresh),
        next_document_accepted provisioned second generation_started w product_id actor_id audit_id
            plan_version refl refl (provisioned-IsOpen fresh later),
        completed_step_blocks generated third spec x product_id actor_id audit_id plan_version b
            listed done,
      )
