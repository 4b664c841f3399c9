-- ===== src/Assembly/Store/Runs/Steps.antt =====
-- The rows of the steps of a run: `upsertRunSteps` and `loadRunSteps` of
-- platform/backend/internal/modules/assembly/postgres/repository.go.
use unified_software_commerc.Prelude.{
  ℕ, ◌+◌, String, Bool, not, ◌&&◌, none, some, List, [], ◌∷◌, ◌++◌, map, find, any, filter, eqb,
  leb, ◌==◌, if◌then◌else◌, Result, ok, ◌>>=◌, ◌>>◌, guard,
}
use unified_software_commerc.Assembly.Model.{AssemblyError, constraint_violated, Run, RunStep}
use unified_software_commerc.Assembly.Store.Rows.{Tables, StepRow, set_where}
use unified_software_commerc.Assembly.Store.Constraints.{step_row_valid, step_update_permitted}

-- `DO UPDATE SET …`: the columns that an existing step takes over.
taken_over : RunStep → RunStep → RunStep
taken_over old new = record old {
  status = new.status;
  attempt = new.attempt;
  compensation_status = new.compensation_status;
  started_at = new.started_at;
  finished_at = new.finished_at;
  diagnostic_ids = new.diagnostic_ids;
}

is_step : String → String → StepRow → Bool
is_step run_id step_id row = row.run_id == run_id && row.step.step_id == step_id

-- `INSERT … ON CONFLICT(run_id,step_id) DO UPDATE`
unfoldable pub upsert_step :
    String → ℕ → RunStep → List StepRow → Result AssemblyError (List StepRow)
unfolding taken_over is_step
upsert_step run_id ordinal step rows =
    guard (step_row_valid step) constraint_violated
    >> elim (find (is_step run_id step.step_id) rows) [
      | some old ↦
          guard (step_update_permitted old.step step) constraint_violated
          >> ok (
              set_where (is_step run_id step.step_id)
                (λ row. record row { step = taken_over row.step step }) rows)
      | none ↦
          guard (not (any (λ row. row.run_id == run_id && eqb row.ordinal ordinal) rows))
            constraint_violated
          >> ok (rows ++ record { run_id = run_id; ordinal = ordinal; step = step } ∷ [])
    ]

-- The loop, from the given index on.
unfoldable pub upsert_from :
    String → ℕ → List RunStep → List StepRow → Result AssemblyError (List StepRow)
unfolding upsert_step
upsert_from run_id index [] rows = ok rows
upsert_from run_id index (step ∷ rest) rows =
    upsert_step run_id index step rows >>= upsert_from run_id (index + 1) rest

unfoldable pub upsert_run_steps : Run → Tables → Result AssemblyError Tables
unfolding upsert_from
upsert_run_steps run t =
    upsert_from run.run_id 0 run.steps t.steps >>= λ rows. ok (record t { steps = rows })

insert_by_ordinal : StepRow → List StepRow → List StepRow
insert_by_ordinal row [] = row ∷ []
insert_by_ordinal row (other ∷ rest) =
    let behind = insert_by_ordinal row rest in
    if leb row.ordinal other.ordinal then row ∷ other ∷ rest else other ∷ behind

sort_by_ordinal : List StepRow → List StepRow
unfolding insert_by_ordinal
sort_by_ordinal [] = []
sort_by_ordinal (row ∷ rest) = insert_by_ordinal row (sort_by_ordinal rest)

-- `SELECT … WHERE run_id=$1 ORDER BY ordinal`
unfoldable pub load_run_steps : String → Tables → List RunStep
unfolding sort_by_ordinal
load_run_steps run_id t =
    map (λ row. row.step) (sort_by_ordinal (filter (λ row. row.run_id == run_id) t.steps))
