-- ===== src/Assembly/Store/Dispatches.antt =====
-- The queue of runs to execute: `ClaimDispatch`, `RenewDispatch`, `CompleteDispatch` and
-- `RequeueDispatch` of platform/backend/internal/modules/assembly/postgres/repository.go, and the worker's
-- `runOne` of platform/backend/internal/workflows/assemblyexecution/worker.go. A row that another
-- transaction has locked is skipped by a claim; transactions are taken one after the other here.
pub mod Leases
use unified_software_commerc.Prelude.{
  ℕ, zero, suc, ◌+◌, ◌*◌, ◌^◌, min, String, Bool, true, false, not, ◌&&◌, ◌||◌, Option, none, some,
  List, [], ◌∷◌, find, any, filter, leb, ltb, eqb, ◌==◌, if◌then◌else◌, Result, ok, err, ◌>>=◌,
  ◌>>◌, guard, or_err,
}
use unified_software_commerc.Prelude.Int64.{lt_one}
use unified_software_commerc.Assembly.Model.{
  AssemblyError, invalid_command, not_found, conflict, Run, RunStatus, completed, failed,
  rolled_back, status_eq,
}
use unified_software_commerc.Assembly.Store.Rows.{
  Tables, DispatchRow, DispatchState, pending, leased, dead, set_where,
}

pub record Dispatch : Type 0 where
  pub run_id : String
  pub root_run_id : String
  pub created_by : String
  pub attempt_count : ℕ

abbrev pub is_leased : DispatchState → Bool
is_leased leased = true
is_leased _ = false

abbrev pub is_pending : DispatchState → Bool
is_pending pending = true
is_pending _ = false

-- `d.lease_until<=$1`; NULL is never true.
lease_over : Option ℕ → ℕ → Bool
lease_over none now = false
lease_over (some until) now = leb until now

-- `WHERE (d.state='pending' AND d.available_at<=$1) OR (d.state='leased' AND d.lease_until<=$1)`
unfoldable pub claimable : ℕ → DispatchRow → Bool
unfolding lease_over
claimable now d =
    (is_pending d.state && leb d.available_at now)
    || (is_leased d.state && lease_over d.lease_until now)

-- The `UPDATE` of `ClaimDispatch`; a lease is a positive `time.Duration`.
claim_row : String → ℕ → ℕ → DispatchRow → DispatchRow
claim_row worker_id now lease d = record d {
  state = leased;
  attempt_count = d.attempt_count + 1;
  lease_owner = some worker_id;
  lease_until = some (now + lease);
  updated_at = now;
}

-- `ORDER BY d.available_at,d.created_at,d.run_id`; `before` is the database's order of texts.
module _ (before : String → String → Bool) where
  comes_first : DispatchRow → DispatchRow → Bool
  comes_first a b =
      ltb a.available_at b.available_at
      || (eqb a.available_at b.available_at
          && (ltb a.created_at b.created_at
              || (eqb a.created_at b.created_at && before a.run_id b.run_id)))

  -- `LIMIT 1`
  first_claimable : ℕ → List DispatchRow → Option DispatchRow
  unfolding comes_first
  first_claimable now [] = none
  first_claimable now (d ∷ rest) =
      let behind = first_claimable now rest in
      if claimable now d
      then (elim behind [ none ↦ some d | some e ↦ if comes_first e d then some e else some d ])
      else behind

  unfoldable pub claim_dispatch : String → ℕ → ℕ → Tables → Result AssemblyError (Dispatch × Tables)
  unfolding first_claimable claim_row
  claim_dispatch worker_id now lease t =
      guard (not (worker_id == "") && not (lt_one lease)) invalid_command
      >> or_err (first_claimable now t.dispatches) not_found
      >>= λ d. or_err (find (λ r. r.run_id == d.run_id) t.runs) not_found >>= λ run. ok (
        record {
          run_id = d.run_id;
          root_run_id = run.root_run_id;
          created_by = run.created_by;
          attempt_count = d.attempt_count + 1;
        },
        record t {
          dispatches =
              set_where (λ o. o.run_id == d.run_id) (claim_row worker_id now lease) t.dispatches;
        },
      )

owner_is : String → Option String → Bool
owner_is worker_id none = false
owner_is worker_id (some owner) = owner == worker_id

lease_open : Option ℕ → ℕ → Bool
lease_open none now = false
lease_open (some until) now = ltb now until

-- `WHERE run_id=$1 AND state='leased' AND lease_owner=$2`
unfoldable pub held_by : String → String → DispatchRow → Bool
unfolding owner_is
held_by run_id worker_id d =
    d.run_id == run_id && is_leased d.state && owner_is worker_id d.lease_owner

-- The statement, and `tag.RowsAffected() != 1`.
unfoldable pub update_one :
    (DispatchRow → Bool) → (DispatchRow → DispatchRow) → Tables → Result AssemblyError Tables
update_one p set t =
    guard (any p t.dispatches) conflict
    >> ok (record t { dispatches = set_where p set t.dispatches })

unfoldable pub renew_dispatch : String → String → ℕ → ℕ → Tables → Result AssemblyError Tables
unfolding update_one lease_open
renew_dispatch run_id worker_id now lease t =
    update_one (λ d. held_by run_id worker_id d && lease_open d.lease_until now)
      (λ d. record d { lease_until = some (now + lease); updated_at = now }) t

unfoldable pub complete_dispatch : String → String → ℕ → Tables → Result AssemblyError Tables
unfolding update_one
complete_dispatch run_id worker_id now t =
    update_one (held_by run_id worker_id)
      (λ d. record d {
        state = DispatchState.completed;
        lease_owner = none;
        lease_until = none;
        last_error_code = none;
        updated_at = now;
      })
      t

unfoldable pub requeue_dispatch :
    String → String → String → ℕ → ℕ → Bool → Tables → Result AssemblyError Tables
unfolding update_one
requeue_dispatch run_id worker_id error_code now available_at is_dead t =
    update_one (held_by run_id worker_id)
      (λ d. record d {
        state = if is_dead then dead else pending;
        available_at = available_at;
        lease_owner = none;
        lease_until = none;
        last_error_code = some error_code;
        updated_at = now;
      })
      t

-- `terminalRun`
unfoldable pub terminal_run : RunStatus → Bool
terminal_run s = status_eq s completed || status_eq s failed || status_eq s rolled_back

-- `time.Duration(1<<min(dispatch.AttemptCount-1, 6)) * time.Second`, in nanoseconds; the shift of a
-- dispatch without an attempt panics, which is `none`.
unfoldable pub requeue_delay : ℕ → Option ℕ
requeue_delay zero = none
requeue_delay (suc attempts) = some (2 ^ min attempts 6 * 1000000000)

-- The end of `runOne`: what the worker does with the dispatch after the execution. `succeeded` says
-- that `Execute` returned no error; the error of the last call is dropped. `none` is the panic.
unfoldable pub finish_dispatch :
    Dispatch → String → RunStatus → Bool → ℕ → Tables → Option (Result AssemblyError Tables)
unfolding terminal_run requeue_delay complete_dispatch requeue_dispatch
finish_dispatch dispatch worker_id status succeeded finished_at t =
    if terminal_run status
    then some (complete_dispatch dispatch.run_id worker_id finished_at t)
    else (elim (requeue_delay dispatch.attempt_count) [
      | none ↦ none
      | some delay ↦ some (
          requeue_dispatch dispatch.run_id worker_id
            (if succeeded
              then "assembly.dispatch_incomplete"
              else "assembly.dispatch_execution_failed")
            finished_at (finished_at + delay) false t)
    ])
