-- ===== src/Assembly/Document/Progress.antt =====
-- Which documents that the workflow writes the core accepts.
use unified_software_commerc.Prelude.{
  ℕ, suc, ◌≤◌, ◌<◌, ◌+◌, ◌^◌, String, Bool, true, false, List, [], ◌∷◌, map, length, some, none,
  ◌≡◌, ◌≢◌, ok, err, arith, eq_refl, Memᴰ, refl, ap, All,
}
use unified_software_commerc.Prelude.Int64.{add_one, int_lt, lt_one}
use unified_software_commerc.Assembly.Model.{
  Run, RunStep, StepStatus, CompensationStatus, RunStatus, rolled_back, status_eq, other, completed,
  pending, running, invalid_run_transition,
}
use unified_software_commerc.Assembly.Transition.{
  valid_transition, valid_step_transition, stable_time, step_status_eq,
  valid_compensation_transition,
}
use unified_software_commerc.Assembly.Evolution.{
  with_defaults, digests_equal, step_evolves, steps_evolve, fields_evolve, completion_matches,
  terminal_status, validate_run_evolution,
}
use unified_software_commerc.Assembly.Evolution.Steps.{step_evolves-StepMoves}
use unified_software_commerc.Assembly.Document.{
  TransitionSpec, ValidatedDocument, step_case, next_step, next_run_document, run_of_document,
}

-- A step that the workflow can take up: pending and untouched, or running since a time that is past.
pub data IsOpen (now : ℕ) (s : RunStep) : Type 0 where
  untouched :
      s.status ≡ pending
      → s.started_at ≡ none
      → s.finished_at ≡ none
      → s.attempt + 1 < 2 ^ 63
      → IsOpen now s
  begun :
      {t : ℕ}
      → s.status ≡ running
      → s.started_at ≡ some t
      → t ≤ now
      → s.finished_at ≡ none
      → lt_one s.attempt ≡ false
      → IsOpen now s

attempt_grows :
    (a : ℕ) → a + 1 < 2 ^ 63 → (int_lt (add_one a) a ≡ false) × (lt_one (add_one a) ≡ false)
unfolding add_one int_lt lt_one
attempt_grows a h = (ground arith, ground arith)

attempt_refl : (a : ℕ) → int_lt a a ≡ false
unfolding int_lt
attempt_refl a = ground arith

compensation_refl : (c : CompensationStatus) → valid_compensation_transition c c ≡ true
unfolding valid_compensation_transition
compensation_refl (other a) = rw (eq_refl a)
compensation_refl pending = refl
compensation_refl _ = refl

module _ (now : ℕ) (spec : TransitionSpec) (s : RunStep) where
  step_case-evolves_untouched :
      (r c f : Bool)
      → s.status ≡ StepStatus.pending
      → s.started_at ≡ none
      → s.finished_at ≡ none
      → s.attempt + 1 < 2 ^ 63
      → step_evolves s (step_case r c f now spec s) ≡ true
  unfolding step_evolves step_case step_status_eq valid_step_transition stable_time
  step_case-evolves_untouched r c f p q e a = ground (
    arith,
    attempt_grows s.attempt,
    attempt_refl s.attempt,
    eq_refl s.step_id,
    eq_refl s.kind,
    compensation_refl s.compensation_status,
  )

  step_case-evolves_begun :
      (r c f : Bool) (t : ℕ)
      → s.status ≡ running
      → s.started_at ≡ some t
      → t ≤ now
      → s.finished_at ≡ none
      → lt_one s.attempt ≡ false
      → step_evolves s (step_case r c f now spec s) ≡ true
  unfolding step_evolves step_case step_status_eq valid_step_transition stable_time
  step_case-evolves_begun r c f t p q l e a = ground (
    arith,
    attempt_refl s.attempt,
    eq_refl s.step_id,
    eq_refl s.kind,
    compensation_refl s.compensation_status,
  )

  -- The workflow's step is one that the core accepts.
  next_step-evolves : IsOpen now s → step_evolves s (next_step now spec s) ≡ true
  unfolding next_step
  next_step-evolves (untouched p q r a) = step_case-evolves_untouched _ _ _ p q r a
  next_step-evolves (begun {t} p q l e a) = step_case-evolves_begun _ _ _ t p q l e a

next_steps-evolve :
    (now : ℕ) (spec : TransitionSpec) (steps : List RunStep)
    → All (IsOpen now) steps
    → steps_evolve steps (map (next_step now spec) steps) ≡ true
unfolding steps_evolve
next_steps-evolve now spec [] h = refl
next_steps-evolve now spec (s ∷ steps) (o, h) =
    ground (arith, next_step-evolves now spec s o, next_steps-evolve now spec steps h)

length-next_steps :
    (now : ℕ) (spec : TransitionSpec) (steps : List RunStep)
    → length (map (next_step now spec) steps) ≡ length steps
length-next_steps now spec [] = refl
length-next_steps now spec (s ∷ steps) = ap suc (length-next_steps now spec steps)

digests_equal_refl : (a : String) → digests_equal a a ≡ true
unfolding digests_equal
digests_equal_refl a = ground (arith, eq_refl a)

not_final :
    (s t : RunStatus)
    → valid_transition s t ≡ true
    → (status_eq s completed ≡ false) × (status_eq s rolled_back ≡ false)
unfolding valid_transition
not_final s t h = (ground arith, ground arith)

module _ (run : Run) (now : ℕ) (spec : TransitionSpec) (v : ValidatedDocument)
    (product_id actor_id audit_id : String) (plan_version : ℕ) where
  -- The run that the core reads back from the workflow's next document.
  abbrev pub next_run : Run
  next_run =
      run_of_document (next_run_document run now spec) v product_id plan_version actor_id audit_id

  next_fields :
      valid_transition run.status spec.status ≡ true
      → fields_evolve (with_defaults run) (with_defaults next_run) ≡ true
  unfolding fields_evolve with_defaults next_run_document run_of_document
  next_fields moves = ground (
    arith,
    moves,
    not_final run.status spec.status,
    eq_refl run.run_id,
    eq_refl run.plan_id,
    eq_refl run.root_run_id,
    eq_refl run.retry_of_run_id,
    eq_refl run.output_target_ref,
    digests_equal_refl run.plan_sha256,
    digests_equal_refl run.idempotency_key_digest,
    length-next_steps now spec run.steps,
  )

  -- The workflow's next document is accepted if its status follows, its `terminal` flag agrees with
  -- that status, and every step of the run is open: pending and untouched, or running since a time
  -- that is past.
  pub next_document_accepted :
      valid_transition run.status spec.status ≡ true
      → spec.terminal ≡ terminal_status spec.status
      → All (IsOpen now) run.steps
      → validate_run_evolution run next_run ≡ ok tt
  unfolding validate_run_evolution completion_matches next_run_document run_of_document
      with_defaults
  next_document_accepted moves final open' =
      ground (arith, next_fields moves, next_steps-evolve now spec run.steps open')

  next_step_completed :
      (b : RunStep)
      → b.status ≡ StepStatus.completed
      → (next_step now spec b).status ≢ StepStatus.compensated
  unfolding next_step step_case step_status_eq
  next_step_completed b done e = ground arith

  stuck_among :
      (b : RunStep) (steps : List RunStep)
      → Memᴰ b steps
      → b.status ≡ StepStatus.completed
      → steps_evolve steps (map (next_step now spec) steps) ≡ false
  unfolding steps_evolve
  stuck_among b [] m done = elim m [ ]
  stuck_among b (s ∷ steps) (Memᴰ.head e) done =
      ground (arith, step_evolves-StepMoves s (next_step now spec s), next_step_completed b done)
  stuck_among b (s ∷ steps) (Memᴰ.tail m) done = ground (arith, stuck_among b steps m done)

  -- Once a step of a run is completed, every further document that the workflow writes is refused,
  -- whatever status it moves to: a completed step may not stay completed.
  pub completed_step_blocks :
      (b : RunStep)
      → Memᴰ b run.steps
      → b.status ≡ StepStatus.completed
      → validate_run_evolution run next_run ≡ err invalid_run_transition
  unfolding validate_run_evolution next_run_document run_of_document with_defaults
  completed_step_blocks b m done = ground (arith, stuck_among b run.steps m done)
