-- ===== src/Assembly/Store/Rows.antt =====
-- The tables of the assembly schema and the statements that read and change their rows.
-- The steps, diagnostics and reports of a run are rows of their own; the capability rows of a plan are
-- its `capabilities`.
use unified_software_commerc.Prelude.{
  ℕ, String, Bool, true, false, Option, some, List, [], ◌∷◌, map, find, if◌then◌else◌, ◌≡◌, refl,
  arith,
}
use unified_software_commerc.Assembly.Model.{
  Run, RunStep, RunDiagnostic, RunReport, Plan, Blueprint, Manifest, GeneratedProjectLock,
  OutboxEvent,
}

pub data DispatchState : Type 0 where
  pending leased completed dead : DispatchState

-- A row of `assembly_run_dispatches`.
pub record DispatchRow : Type 0 where
  pub run_id : String
  pub state : DispatchState
  pub attempt_count : ℕ
  pub available_at : ℕ
  pub lease_owner : Option String
  pub lease_until : Option ℕ
  pub last_error_code : Option String
  pub created_at : ℕ
  pub updated_at : ℕ

-- A row of `outbox_events`.
pub record OutboxRow : Type 0 where
  pub event : OutboxEvent
  pub published_at : Option ℕ
  pub attempt_count : ℕ
  pub next_attempt_at : ℕ
  pub dead : Bool
  pub last_error : Option String

-- A row of `assembly_run_steps`.
pub record StepRow : Type 0 where
  pub run_id : String
  pub ordinal : ℕ
  pub step : RunStep

-- A row of `assembly_run_diagnostics`, and one of `assembly_run_reports`.
pub record DiagnosticRow : Type 0 where
  pub run_id : String
  pub diagnostic : RunDiagnostic

pub record ReportRow : Type 0 where
  pub run_id : String
  pub report : RunReport

pub record Tables : Type 0 where
  pub blueprints : List Blueprint
  pub plans : List Plan
  pub runs : List Run
  pub steps : List StepRow
  pub diagnostics : List DiagnosticRow
  pub reports : List ReportRow
  pub manifests : List Manifest
  pub locks : List GeneratedProjectLock
  pub dispatches : List DispatchRow
  pub outbox : List OutboxRow

-- `UPDATE … SET f WHERE p`
abbrev pub set_where {ℓ} : {A : Type ℓ} → (A → Bool) → (A → A) → List A → List A
set_where p f rows = map (λ row. if p row then f row else row) rows

-- A change that leaves the test true is what the query finds afterwards.
pub find-set_where {ℓ} :
    {A : Type ℓ} (p : A → Bool) (f : A → A) (rows : List A) (a : A)
    → find p rows ≡ some a
    → p (f a) ≡ true
    → find p (set_where p f rows) ≡ some (f a)
find-set_where p f [] a h k = ground arith
find-set_where p f (r ∷ rows) a h k = ground (arith, find-set_where p f rows a)

-- A change of other rows, which stay other, does not touch what the query finds.
pub find-set_where_other {ℓ} :
    {A : Type ℓ} (p q : A → Bool) (f : A → A) (rows : List A)
    → ((a : A) → q a ≡ true → (p a ≡ false) × (p (f a) ≡ false))
    → find p (set_where q f rows) ≡ find p rows
find-set_where_other p q f [] apart = refl
find-set_where_other p q f (r ∷ rows) apart =
    ground (arith, apart r, find-set_where_other p q f rows apart)
