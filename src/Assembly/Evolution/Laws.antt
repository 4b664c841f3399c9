-- ===== src/Assembly/Evolution/Laws.antt =====
-- What an accepted change of a run keeps, for one change and for a whole history.
use unified_software_commerc.Prelude.{
  ◌≤◌, String, true, length, ◌≡◌, refl, ◌⊎◌, ok, err, arith, eq_iff, ◌∙◌,
}
use unified_software_commerc.Assembly.Model.{invalid_run_transition, Run}
use unified_software_commerc.Assembly.Transition.Laws.{◌⟶◌, ◌⟶*◌, here, next, valid_transition_iff}
use unified_software_commerc.Assembly.Evolution.{
  digests_equal, with_defaults, steps_evolve, fields_evolve, validate_run_evolution,
}

pub digests_equal-eq : (a b : String) → digests_equal a b ≡ true → a ≡ b
unfolding digests_equal
digests_equal-eq a b h = ground (arith, eq_iff a b)

-- What stays fixed between two documents of one run, and the moves that are made.
pub record SameRun (current next : Run) : Type 0 where
  pub run_id : next.run_id ≡ current.run_id
  pub plan_id : next.plan_id ≡ current.plan_id
  pub root_run_id : (with_defaults next).root_run_id ≡ (with_defaults current).root_run_id
  pub retry_of_run_id : next.retry_of_run_id ≡ current.retry_of_run_id
  pub attempt_number : (with_defaults next).attempt_number ≡ (with_defaults current).attempt_number
  pub plan_sha256 : next.plan_sha256 ≡ current.plan_sha256
  pub key_digest : next.idempotency_key_digest ≡ current.idempotency_key_digest
  pub output_target_ref : next.output_target_ref ≡ current.output_target_ref
  pub created_at : next.created_at ≡ current.created_at
  pub updated_at : current.updated_at ≤ next.updated_at
  pub step_count : length next.steps ≡ length current.steps

accepted_fields :
    (c n : Run)
    → validate_run_evolution c n ≡ ok tt
    → fields_evolve (with_defaults c) (with_defaults n) ≡ true
unfolding validate_run_evolution
accepted_fields c n h = ground arith

pub accepted_steps :
    (c n : Run) → validate_run_evolution c n ≡ ok tt → steps_evolve c.steps n.steps ≡ true
unfolding validate_run_evolution
accepted_steps c n h = ground arith

module _ (c n : Run) (h : fields_evolve (with_defaults c) (with_defaults n) ≡ true) where
  fields_evolve-SameRun : SameRun c n
  unfolding fields_evolve with_defaults
  fields_evolve-SameRun = record {
    run_id = ground (arith, eq_iff n.run_id c.run_id);
    plan_id = ground (arith, eq_iff n.plan_id c.plan_id);
    root_run_id =
        ground (arith, eq_iff (with_defaults n).root_run_id (with_defaults c).root_run_id);
    retry_of_run_id = ground (arith, eq_iff n.retry_of_run_id c.retry_of_run_id);
    attempt_number = ground arith;
    plan_sha256 = ground (arith, digests_equal-eq n.plan_sha256 c.plan_sha256);
    key_digest = ground (arith, digests_equal-eq n.idempotency_key_digest c.idempotency_key_digest);
    output_target_ref = ground (arith, eq_iff n.output_target_ref c.output_target_ref);
    created_at = ground arith;
    updated_at = ground arith;
    step_count = ground arith;
  }

  fields_evolve-⟶ : c.status ⟶ n.status
  unfolding fields_evolve with_defaults
  fields_evolve-⟶ = (valid_transition_iff c.status n.status).0 (ground arith)

-- An accepted document is of the same run and plan, of the same attempt, under the same digests and
-- output target; its creation time is kept, its update time does not fall back, and its status moves
-- along the diagram.
pub evolution_keeps_identity :
    (c n : Run) → validate_run_evolution c n ≡ ok tt → SameRun c n × (c.status ⟶ n.status)
evolution_keeps_identity c n h =
    let fields = accepted_fields c n h in
    (fields_evolve-SameRun c n fields, fields_evolve-⟶ c n fields)

-- The documents that a run has had, each accepted after the one before.
pub data History (r : Run) : Run → Type 0 where
  created : History r r
  accepted : {s t : Run} → History r s → validate_run_evolution s t ≡ ok tt → History r t

SameRun-refl : (r : Run) → SameRun r r
SameRun-refl r = record {
  run_id = refl;
  plan_id = refl;
  root_run_id = refl;
  retry_of_run_id = refl;
  attempt_number = refl;
  plan_sha256 = refl;
  key_digest = refl;
  output_target_ref = refl;
  created_at = refl;
  updated_at = omega arith;
  step_count = refl;
}

SameRun-trans : {r s t : Run} → SameRun r s → SameRun s t → SameRun r t
SameRun-trans a b = record {
  run_id = b.run_id ∙ a.run_id;
  plan_id = b.plan_id ∙ a.plan_id;
  root_run_id = b.root_run_id ∙ a.root_run_id;
  retry_of_run_id = b.retry_of_run_id ∙ a.retry_of_run_id;
  attempt_number = b.attempt_number ∙ a.attempt_number;
  plan_sha256 = b.plan_sha256 ∙ a.plan_sha256;
  key_digest = b.key_digest ∙ a.key_digest;
  output_target_ref = b.output_target_ref ∙ a.output_target_ref;
  created_at = b.created_at ∙ a.created_at;
  updated_at = omega (arith, a.updated_at, b.updated_at);
  step_count = b.step_count ∙ a.step_count;
}

-- Over its whole history, however long, a run keeps its identity, and its statuses form a path of the
-- diagram.
pub History-keeps_identity : {r s : Run} → History r s → SameRun r s × (r.status ⟶* s.status)
History-keeps_identity {r} created = (SameRun-refl r, here)
History-keeps_identity (accepted {s} {t} earlier ok') =
    let (same, moves) = History-keeps_identity earlier in
    let (step, move) = evolution_keeps_identity s t ok' in
    (SameRun-trans same step, next moves move)

-- The only error.
pub accepted_or_refused :
    (c n : Run)
    → (validate_run_evolution c n ≡ ok tt)
      ⊎ (validate_run_evolution c n ≡ err invalid_run_transition)
unfolding validate_run_evolution
accepted_or_refused c n = ground arith
