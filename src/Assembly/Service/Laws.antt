-- ===== src/Assembly/Service/Laws.antt =====
-- What the commands of the assembly service check before they write.
use unified_software_commerc.Prelude.{
  ℕ, String, true, not, ◌&&◌, some, is_some, ◌==◌, Result, ok, err, ◌≡◌, refl, ◌∙◌, subst, arith,
  Result-cases, inl, inr, Memᴰ,
}
use unified_software_commerc.Prelude.Int64.{add_one, lt_one}
use unified_software_commerc.Assembly.Model.{
  AssemblyError, invalid_run_transition, Run, RunStep, StepStatus, Plan,
}
use unified_software_commerc.Assembly.Evolution.{
  fields_evolve, completion_matches, validate_run_evolution,
}
use unified_software_commerc.Assembly.Evolution.Laws.{
  SameRun, evolution_keeps_identity, digests_equal-eq,
}
use unified_software_commerc.Assembly.Transition.Laws.{◌⟶◌}
use unified_software_commerc.Assembly.Document.{
  TransitionSpec, ValidatedDocument, next_run_document, parse_run_document, document_holds,
}
use unified_software_commerc.Assembly.Document.Progress.{completed_step_blocks}
use unified_software_commerc.Assembly.Store.{Database}
use unified_software_commerc.Assembly.Store.Rows.{Tables}
use unified_software_commerc.Assembly.Store.Plans.{get_plan, get_run}
use unified_software_commerc.Assembly.Store.Runs.{StartRunRecord, UpdateRunRecord}
use unified_software_commerc.Assembly.Service.{
  Environment, StartAssemblyCommand, UpdateRunCommand, attributed, new_audit_and_event_ids,
  confirmation_agrees, prepare_start, prepare_update, update_run_command,
}

module _ (env : Environment) where
  -- A run is started for a stored plan only if the plan has the expected version and digest, is
  -- executable and confirmed, its output target is verified, and its confirmation checksum is the
  -- command's.
  pub start_needs_confirmed_plan :
      (command : StartAssemblyCommand) (t : Tables) (r : StartRunRecord)
      → prepare_start env command t ≡ ok r
      → (plan : Plan) × (get_plan "" command.plan_id t ≡ ok plan)
        × (plan.version ≡ command.expected_plan_version)
        × (plan.plan_sha256 ≡ command.plan_checksum)
        × (plan.executable ≡ true)
        × (is_some plan.confirmed_at ≡ true)
        × (env.output_target_verified plan.environment command.output_target_ref ≡ true)
        × (confirmation_agrees env plan command.confirmation_checksum ≡ true)
  unfolding prepare_start
  start_needs_confirmed_plan command t r h = elim (Result-cases (get_plan "" command.plan_id t)) [
    | inl (plan, e) ↦ (
      plan,
      e,
      ground arith,
      digests_equal-eq plan.plan_sha256 command.plan_checksum (ground arith),
      ground arith,
      ground arith,
      ground arith,
      ground arith,
    )
    | inr (e', e) ↦ absurd (ground arith)
  ]

  -- The run that `UpdateRun` reads from the document of the command.
  abbrev parsed_update :
      UpdateRunCommand → Run → ValidatedDocument → String × String → Result AssemblyError Run
  parsed_update command current v ids =
      parse_run_document env.decode_document v current.product_id current.plan_version
        command.actor_id ids.0

  evolution_version :
      (c n : Run) (v : ℕ)
      → validate_run_evolution c (record n { version = v }) ≡ validate_run_evolution c n
  unfolding validate_run_evolution fields_evolve completion_matches
  evolution_version c n v = refl

  moved :
      (c n written : Run)
      → validate_run_evolution c n ≡ ok tt
      → record n { version = add_one c.version } ≡ written
      → (written.version ≡ add_one c.version) × SameRun c written × (c.status ⟶ written.status)
  moved c n written accepted e =
      let (same, moves) =
        evolution_keeps_identity c (record n { version = add_one c.version })
          (evolution_version c n (add_one c.version) ∙ accepted) in
      subst (λ (w : Run). (w.version ≡ add_one c.version) × SameRun c w × (c.status ⟶ w.status)) e
        (refl, same, moves)

  -- What `UpdateRun` hands to the repository is the run that it read, under the same identity, one version
  -- later, in a status that the diagram lets it move to.
  pub update_moves_along :
      (command : UpdateRunCommand) (t : Tables) (r : UpdateRunRecord)
      → prepare_update env command t ≡ ok r
      → (current : Run) × (get_run "" command.run_id t ≡ ok current)
        × (r.run.version ≡ add_one current.version)
        × SameRun current r.run
        × (current.status ⟶ r.run.status)
  unfolding prepare_update
  update_moves_along command t r h = elim (Result-cases (get_run "" command.run_id t)) [
    | inr (e', e) ↦ absurd (ground arith)
    | inl (current, e) ↦ elim (Result-cases (env.validate "assembly-run" command.document)) [
      | inr (e', k) ↦ absurd (ground arith)
      | inl (v, k) ↦ elim (Result-cases (new_audit_and_event_ids env)) [
        | inr (e', i) ↦ absurd (ground arith)
        | inl (ids, i) ↦ elim (Result-cases (parsed_update command current v ids)) [
          | inr (e', p) ↦ absurd (ground arith)
          | inl (next, p) ↦
              let (version, same, moves) = moved current next r.run (ground arith) (ground arith) in
              (current, e, version, same, moves)
        ]
      ]
    ]
  ]

  module _ (command : UpdateRunCommand) (db : Database) (run : Run) (now : ℕ)
      (spec : TransitionSpec) (v : ValidatedDocument) (audit_id event_id : String)
      (done : RunStep) where
    -- The workflow cannot get past a completed step. An update of a stored run that has a completed step,
    -- with a valid document that decodes to the one that the workflow writes for it, is refused as an
    -- invalid transition whatever status it moves to, and nothing is written.
    pub update_after_completed_step :
        (not (command.run_id == "")
            && not (lt_one command.expected_version)
            && attributed command.actor_id command.idempotency_key command.trace_id)
          ≡ true
        → get_run "" command.run_id db.tables ≡ ok run
        → Memᴰ done run.steps
        → done.status ≡ StepStatus.completed
        → env.validate "assembly-run" command.document ≡ ok v
        → new_audit_and_event_ids env ≡ ok (audit_id, event_id)
        → env.decode_document v.canonical_json ≡ some (next_run_document run now spec)
        → document_holds (next_run_document run now spec) ≡ true
        → update_run_command env command db ≡ (err invalid_run_transition, db)
    unfolding update_run_command prepare_update parse_run_document
    update_after_completed_step given found listed completed valid ids decoded holds =
        let blocked =
          completed_step_blocks run now spec v run.product_id command.actor_id audit_id
            run.plan_version done listed completed in
        ground arith
