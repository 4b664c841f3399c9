-- ===== src/Assembly/Store/Plans.antt =====
-- The reads of plans and runs and the confirmation of a plan: `GetPlan`, `GetRun` and `ConfirmPlan` of
-- platform/backend/internal/modules/assembly/postgres/repository.go. A read run has no diagnostics and
-- reports here: none of its readers looks at them.
use unified_software_commerc.Prelude.{
  ℕ, String, Bool, ◌&&◌, ◌||◌, none, some, find, map, List, [], ◌∷◌, eqb, ◌==◌, if◌then◌else◌,
  Result, ok, err, ◌>>=◌, ◌>>◌, guard, or_err, is_some, ◌≡◌, ◌≢◌, refl, sym, ap, ◌∙◌, subst, eq_iff,
  inl, inr, Bool-cases, Option-cases, arith,
}
use unified_software_commerc.Prelude.Int64.{add_one, add_one_differs}
use unified_software_commerc.Assembly.Model.{
  AssemblyError, not_found, version_conflict, Plan, Run, Idempotency, OutboxEvent,
}
use unified_software_commerc.Assembly.Store.Rows.{Tables, set_where}
use unified_software_commerc.Assembly.Store.Runs.{insert_outbox, latest_audit_id}
use unified_software_commerc.Assembly.Store.Runs.Steps.{load_run_steps}

-- `WHERE p.plan_id=$1 AND ($2='' OR p.product_id=$2)`
abbrev pub plan_visible : String → String → Plan → Bool
plan_visible product_id plan_id p =
    p.plan_id == plan_id && (product_id == "" || p.product_id == product_id)

-- `scanPlan`, with the capabilities of the plan.
unfoldable pub get_plan : String → String → Tables → Result AssemblyError Plan
get_plan product_id plan_id t =
    or_err (find (plan_visible product_id plan_id) t.plans) not_found >>= λ p.
    ok (record p { audit_id = latest_audit_id p.plan_id t })

-- `WHERE r.run_id=$1 AND ($2='' OR r.product_id=$2)`
unfoldable pub get_run : String → String → Tables → Result AssemblyError Run
get_run product_id run_id t =
    or_err
      (find (λ r. r.run_id == run_id && (product_id == "" || r.product_id == product_id)) t.runs)
      not_found
    >>= λ row. ok (record row {
      audit_id = latest_audit_id row.run_id t;
      steps = load_run_steps row.run_id t;
    })

pub record ConfirmPlanRecord : Type 0 where
  pub product_id : String
  pub plan_id : String
  pub confirmed_by : String
  pub expected_version : ℕ
  pub confirmed_at : ℕ
  pub idempotency : Idempotency
  pub event : OutboxEvent

-- `UPDATE assembly.assembly_plans SET version=$3,confirmed_at=$4,confirmed_by=$5,updated_at=$4
-- WHERE plan_id=$1 AND version=$2`
abbrev pub confirmed_columns : ConfirmPlanRecord → ℕ → Plan → Plan
confirmed_columns record' version p = record p {
  version = version;
  confirmed_at = some record'.confirmed_at;
  confirmed_by = record'.confirmed_by;
  updated_at = record'.confirmed_at;
}

-- The body of `if p.ConfirmedAt == nil`.
unfoldable pub confirm_unconfirmed :
    ConfirmPlanRecord → Plan → Tables → Result AssemblyError (Plan × Tables)
confirm_unconfirmed record' p t =
    insert_outbox record'.event (record t {
      plans =
          set_where (λ o. o.plan_id == p.plan_id && eqb o.version record'.expected_version)
            (confirmed_columns record' (add_one p.version)) t.plans;
    })
    >>= λ t'. ok (
      record (confirmed_columns record' (add_one p.version) p) {
        audit_id = record'.event.payload.audit_id;
      },
      t',
    )

unfoldable pub confirm_plan : ConfirmPlanRecord → Tables → Result AssemblyError (Plan × Tables)
unfolding get_plan confirm_unconfirmed
confirm_plan record' t = get_plan record'.product_id record'.plan_id t >>= λ p.
    guard (eqb p.version record'.expected_version) version_conflict
    >> (if is_some p.confirmed_at then ok (p, t) else confirm_unconfirmed record' p t)

find-mapped :
    {A : Type 0} (p : A → Bool) (g : A → A) (rows : List A) (a : A)
    → ((x : A) → p (g x) ≡ p x)
    → find p rows ≡ some a
    → find p (map g rows) ≡ some (g a)
find-mapped p g [] a same h = ground arith
find-mapped p g (x ∷ rows) a same h = ground (arith, same x, find-mapped p g rows a same)

-- The row that a query for the plan finds.
read_row :
    (product_id plan_id : String) (t : Tables) (p : Plan)
    → get_plan product_id plan_id t ≡ ok p
    → (row : Plan) × (find (plan_visible product_id plan_id) t.plans ≡ some row)
      × (p ≡ record row { audit_id = latest_audit_id row.plan_id t })
unfolding get_plan
read_row product_id plan_id t p h =
    elim (Option-cases (find (plan_visible product_id plan_id) t.plans)) [
      | inl none' ↦ absurd (ground arith)
      | inr (row, e) ↦ (row, e, ground arith)
    ]

updated_row : ConfirmPlanRecord → Plan → Plan → Plan
updated_row r before o =
    if o.plan_id == before.plan_id && eqb o.version r.expected_version
    then confirmed_columns r (add_one before.version) o
    else o

updated_row-visible :
    (r : ConfirmPlanRecord) (before : Plan) (product_id plan_id : String) (o : Plan)
    → plan_visible product_id plan_id (updated_row r before o) ≡ plan_visible product_id plan_id o
unfolding updated_row
updated_row-visible r before product_id plan_id o =
    elim (Bool-cases (o.plan_id == before.plan_id && eqb o.version r.expected_version)) [
      | inl hit ↦ ground arith
      | inr miss ↦ ground arith
    ]

-- What a confirmation of a plan that was not confirmed writes and returns.
confirmed_tables :
    (r : ConfirmPlanRecord) (t t' : Tables) (before after : Plan)
    → get_plan r.product_id r.plan_id t ≡ ok before
    → before.confirmed_at ≡ none
    → confirm_plan r t ≡ ok (after, t')
    → (before.version ≡ r.expected_version)
      × (t'.plans ≡ map (updated_row r before) t.plans)
      × (after ≡ record (confirmed_columns r (add_one before.version) before) {
        audit_id = after.audit_id;
      })
unfolding confirm_plan confirm_unconfirmed insert_outbox updated_row
confirmed_tables r t t' before after found fresh h = (ground arith, ground arith, ground arith)

updated_row-hit :
    (r : ConfirmPlanRecord) (before row : Plan)
    → before.plan_id ≡ row.plan_id
    → before.version ≡ row.version
    → before.version ≡ r.expected_version
    → updated_row r before row ≡ confirmed_columns r (add_one before.version) row
unfolding updated_row
updated_row-hit r before row same version expected =
    ground (arith, eq_iff row.plan_id before.plan_id)

-- The row as it is read afterwards, against the plan that was returned.
stored_as :
    (r : ConfirmPlanRecord) (row before after : Plan) (earlier later : String)
    → before ≡ record row { audit_id = earlier }
    → after
      ≡ record (confirmed_columns r (add_one before.version) before) { audit_id = after.audit_id }
    → record (confirmed_columns r (add_one before.version) row) { audit_id = later }
      ≡ record after { audit_id = later }
stored_as r row before after earlier later read result =
    ap (λ (p : Plan). record (confirmed_columns r (add_one before.version) p) { audit_id = later })
      (sym (ap (λ (p : Plan). record p { audit_id = row.audit_id }) read))
    ∙ sym (ap (λ (p : Plan). record p { audit_id = later }) result)

other_plans :
    (r : ConfirmPlanRecord) (before : Plan) (id : String) (rows : List Plan)
    → id ≢ before.plan_id
    → find (λ p. p.plan_id == id) (map (updated_row r before) rows)
      ≡ find (λ p. p.plan_id == id) rows
unfolding updated_row
other_plans r before id [] other = refl
other_plans r before id (o ∷ rows) other =
    elim (Bool-cases (o.plan_id == before.plan_id && eqb o.version r.expected_version)) [
      | inl hit ↦ ground (
        arith,
        eq_iff o.plan_id before.plan_id,
        eq_iff o.plan_id id,
        other,
        other_plans r before id rows other,
      )
      | inr miss ↦ ground (arith, other_plans r before id rows other)
    ]

-- A confirmation of a plan that was not confirmed is, if it succeeds, of the expected version. It returns
-- the plan that was read, confirmed by the given actor at the given time with the next version and
-- otherwise as it was, up to the identifier of its audit event; whoever reads the plan afterwards under
-- the same product gets this plan, up to the identifier of its audit event; and no other plan is changed.
pub confirm_plan_confirms :
    (r : ConfirmPlanRecord) (t t' : Tables) (before after : Plan)
    → get_plan r.product_id r.plan_id t ≡ ok before
    → before.confirmed_at ≡ none
    → confirm_plan r t ≡ ok (after, t')
    → (before.version ≡ r.expected_version)
      × (after ≡ record before {
        version = add_one before.version;
        confirmed_at = some r.confirmed_at;
        confirmed_by = r.confirmed_by;
        updated_at = r.confirmed_at;
        audit_id = after.audit_id;
      })
      × ((stored : Plan) × (get_plan r.product_id r.plan_id t' ≡ ok stored)
          × (stored ≡ record after { audit_id = stored.audit_id }))
      × ((id : String)
          → id ≢ before.plan_id
          → find (λ p. p.plan_id == id) t'.plans ≡ find (λ p. p.plan_id == id) t.plans)
unfolding get_plan
confirm_plan_confirms r t t' before after found fresh h =
    let (version, plans, result) = confirmed_tables r t t' before after found fresh h in
    let (row, at_row, read) = read_row r.product_id r.plan_id t before found in
    let hit : updated_row r before row ≡ confirmed_columns r (add_one before.version) row =
      updated_row-hit r before row (ap (λ p. p.plan_id) read) (ap (λ p. p.version) read ∙ refl)
        version in
    let again : find (plan_visible r.product_id r.plan_id) t'.plans
        ≡ some (confirmed_columns r (add_one before.version) row) =
      ap (find (plan_visible r.product_id r.plan_id)) plans
      ∙ find-mapped (plan_visible r.product_id r.plan_id) (updated_row r before) t.plans row
          (updated_row-visible r before r.product_id r.plan_id) at_row
      ∙ ap some hit in
    (
      version,
      result,
      (
        record (confirmed_columns r (add_one before.version) row) {
          audit_id = latest_audit_id row.plan_id t';
        },
        ground (arith, again),
        stored_as r row before after (latest_audit_id row.plan_id t)
            (latest_audit_id row.plan_id t') read result,
      ),
      λ id other. ap (find (λ p. p.plan_id == id)) plans ∙ other_plans r before id t.plans other,
    )

-- A plan is confirmed once. After a plan that was not confirmed has been confirmed, a second confirmation
-- of it that still expects the old version is refused, and one that expects the new version returns the
-- plan as the first one confirmed it, up to the identifier of its audit event, and writes no plan.
pub second_confirmation :
    (r second : ConfirmPlanRecord) (t t' : Tables) (before after : Plan)
    → get_plan r.product_id r.plan_id t ≡ ok before
    → before.confirmed_at ≡ none
    → confirm_plan r t ≡ ok (after, t')
    → second.product_id ≡ r.product_id
    → second.plan_id ≡ r.plan_id
    → (second.expected_version ≡ r.expected_version → confirm_plan second t' ≡ err version_conflict)
      × (second.expected_version ≡ after.version
          → (stored : Plan) × (confirm_plan second t' ≡ ok (stored, t'))
            × (stored ≡ record after { audit_id = stored.audit_id }))
unfolding confirm_plan
second_confirmation r second t t' before after found fresh h product plan =
    let (version, result, (stored, read, same), others) =
      confirm_plan_confirms r t t' before after found fresh h in
    let read' : get_plan second.product_id second.plan_id t' ≡ ok stored =
      subst (λ i. get_plan i second.plan_id t' ≡ ok stored) (sym product)
        (subst (λ i. get_plan r.product_id i t' ≡ ok stored) (sym plan) read) in
    let at_version : stored.version ≡ add_one before.version =
      ap (λ p. p.version) same ∙ ap (λ p. p.version) result in
    let done : stored.confirmed_at ≡ some r.confirmed_at =
      ap (λ p. p.confirmed_at) same ∙ ap (λ p. p.confirmed_at) result in
    let newer : after.version ≡ add_one before.version = ap (λ p. p.version) result in
    (
      λ old. ground (arith, read', at_version, version, old, add_one_differs before.version),
      λ new. (stored, ground (arith, read', done, at_version, newer, new), same),
    )
