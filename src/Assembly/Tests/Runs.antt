-- ===== src/Assembly/Tests/Runs.antt =====
-- Writes on runs, and the dispatches of runs, on concrete tables.
use unified_software_commerc.Prelude.{
  ℕ, ◌+◌, ◌*◌, ◌<◌, ◌≤◌, min, arith, String, Bool, false, none, some, [], ◌∷◌, ◌++◌, find, ◌≡◌, ◌≢◌,
  ◌⊎◌, refl, ok, err, All, ne_of_==,
}
use unified_software_commerc.Assembly.Model.{conflict, version_conflict, not_found, Run, status_eq}
use unified_software_commerc.Assembly.Transition.{step_status_eq, stable_time}
use unified_software_commerc.Prelude.Int64.{lt_one, add_one}
use unified_software_commerc.Prelude.Text.{is_digest}
use unified_software_commerc.Assembly.Store.Rows.{Tables, DispatchState}
use unified_software_commerc.Assembly.Store.Constraints.{
  run_row_valid, retry_shape, retry_chain_valid, run_clashes, run_update_permitted, settled,
  step_row_valid, step_update_permitted,
}
use unified_software_commerc.Assembly.Store.Runs.{
  start_run, update_run, insert_run, insert_outbox, insert_dispatch, run_row, write_update,
  update_row, insert_run_diagnostics, insert_run_reports,
}
use unified_software_commerc.Assembly.Store.Runs.Steps.{upsert_run_steps, upsert_from, upsert_step}
use unified_software_commerc.Assembly.Store.Runs.Changes.{
  Writes, nothing, more, started, updated, with_id,
}
use unified_software_commerc.Assembly.Store.Runs.Contract.{Keeps, stored_run_kept}
use unified_software_commerc.Assembly.Store.Runs.Keys.{Distinct, Writes-keep-Distinct}
use unified_software_commerc.Assembly.Store.Runs.Retries.{IsChained, Writes-keep_chains}
use unified_software_commerc.Assembly.Store.Runs.Versions.{stale_update_refused}
use unified_software_commerc.Assembly.Store.Dispatches.{
  claim_dispatch, claimable, complete_dispatch, requeue_dispatch, requeue_delay, Dispatch,
}
use unified_software_commerc.Assembly.Store.Dispatches.Leases.{
  claim_excludes, requeue_delay_doubles, no_step, claimed_by,
}
use unified_software_commerc.Assembly.Tests.{
  a_run, a_start, an_update, no_runs, tables_of, value_of,
}

abbrev after_start : Tables
after_start = tables_of (start_run a_start no_runs)

abbrev after_update : Tables
after_update = tables_of (update_run (an_update a_start "evt_2" 200) after_start)

starts : start_run a_start no_runs ≡ ok (a_run, after_start)
unfolding start_run insert_run insert_outbox insert_dispatch upsert_run_steps upsert_from
    upsert_step run_row_valid retry_shape retry_chain_valid run_clashes lt_one is_digest
    step_row_valid
starts = refl

-- The run as the update returns it.
abbrev updated_run : Run
updated_run = value_of a_run (update_run (an_update a_start "evt_2" 200) after_start)

updates : update_run (an_update a_start "evt_2" 200) after_start ≡ ok (updated_run, after_update)
unfolding start_run insert_run insert_outbox insert_dispatch upsert_run_steps upsert_from
    upsert_step run_row_valid retry_shape retry_chain_valid run_clashes lt_one is_digest
    step_row_valid update_run write_update update_row insert_run_diagnostics insert_run_reports
    run_update_permitted step_update_permitted add_one stable_time status_eq step_status_eq settled
    run_row
updates = refl

writes : Writes no_runs after_update
writes =
    more (more nothing (started a_start a_run starts))
      (updated (an_update a_start "evt_2" 200) updated_run updates)

stored : find (with_id "run_1") after_start.runs ≡ some (run_row a_run)
unfolding start_run insert_run insert_outbox insert_dispatch upsert_run_steps upsert_from
    upsert_step run_row_valid retry_shape retry_chain_valid run_clashes lt_one is_digest
    step_row_valid run_row
stored = refl

stored_run_kept_example :
    (new : Run) × (find (with_id "run_1") after_update.runs ≡ some new) × Keeps (run_row a_run) new
stored_run_kept_example =
    stored_run_kept "run_1" (run_row a_run)
      (more nothing (updated (an_update a_start "evt_2" 200) updated_run updates)) stored

Writes-keep-Distinct_example : Distinct after_update.runs
Writes-keep-Distinct_example = Writes-keep-Distinct writes tt

Writes-keep_chains_example : All (IsChained after_update.runs) after_update.runs
Writes-keep_chains_example = Writes-keep_chains writes tt

stale_update_refused_example :
    (update_run (an_update a_start "evt_3" 300) after_update ≡ err version_conflict)
    ⊎ (update_run (an_update a_start "evt_3" 300) after_update ≡ err not_found)
stale_update_refused_example =
    stale_update_refused (an_update a_start "evt_2" 200) (an_update a_start "evt_3" 300) after_start
      after_update updated_run updates refl refl

-- The order of identifiers is of no matter with one dispatch.
abbrev same_order : String → String → Bool
same_order a b = false

abbrev the_dispatch : Dispatch
the_dispatch = record {
  run_id = "run_1";
  root_run_id = "run_1";
  created_by = "admin_1";
  attempt_count = 1;
}

-- A second run waits in the queue.
abbrev two_dispatches : Tables
two_dispatches = record after_start {
  runs = after_start.runs ++ record a_run { run_id = "run_2"; root_run_id = "run_2" } ∷ [];
  dispatches =
      after_start.dispatches
      ++ record {
        run_id = "run_2";
        state = DispatchState.pending;
        attempt_count = 0;
        available_at = 140;
        lease_owner = none;
        lease_until = none;
        last_error_code = none;
        created_at = 140;
        updated_at = 140;
      }
        ∷ [];
}

abbrev claimed_tables : Tables
claimed_tables = tables_of (claim_dispatch same_order "worker_a" 150 60 two_dispatches)

claims :
    claim_dispatch same_order "worker_a" 150 60 two_dispatches ≡ ok (the_dispatch, claimed_tables)
unfolding start_run insert_run insert_outbox insert_dispatch upsert_run_steps upsert_from
    upsert_step run_row_valid retry_shape retry_chain_valid run_clashes lt_one is_digest
    step_row_valid run_row claim_dispatch claimable
claims = refl

abbrev both_claimed : Tables
both_claimed = tables_of (claim_dispatch same_order "worker_b" 160 60 claimed_tables)

abbrev second_dispatch : Dispatch
second_dispatch = record the_dispatch { run_id = "run_2"; root_run_id = "run_2" }

claims_second :
    claim_dispatch same_order "worker_b" 160 60 claimed_tables ≡ ok (second_dispatch, both_claimed)
unfolding start_run insert_run insert_outbox insert_dispatch upsert_run_steps upsert_from
    upsert_step run_row_valid retry_shape retry_chain_valid run_clashes lt_one is_digest
    step_row_valid run_row claim_dispatch claimable
claims_second = refl

other_worker : ◌≢◌ {A = String} "worker_b" "worker_a"
other_worker = ne_of_== "worker_b" "worker_a" refl

early : 160 < 150 + 60
early = omega arith

claim_excludes_example :
    ((at_time : ℕ) → complete_dispatch "run_1" "worker_b" at_time both_claimed ≡ err conflict)
    × ((at_time available_at : ℕ) (code : String) (is_dead : Bool)
        → requeue_dispatch "run_1" "worker_b" code at_time available_at is_dead both_claimed
          ≡ err conflict)
    × ((taker : String) (later length' : ℕ) (next : Dispatch) (t3 : Tables)
        → later < 150 + 60
        → claim_dispatch same_order taker later length' both_claimed ≡ ok (next, t3)
        → next.run_id ≢ "run_1")
claim_excludes_example =
    claim_excludes same_order "worker_a" 150 60 two_dispatches claimed_tables the_dispatch claims
      "worker_b" both_claimed other_worker
      (claimed_by no_step "worker_b" 160 60 second_dispatch early claims_second)

requeue_delay_doubles_example :
    (delay : ℕ) × (requeue_delay 1 ≡ some delay)
    × (1000000000 ≤ delay)
    × (delay ≤ 64000000000)
    × (◌≡◌ {A = ℕ} 1 1 → delay ≡ 1000000000)
    × (requeue_delay 2 ≡ some (min (2 * delay) 64000000000))
requeue_delay_doubles_example =
    requeue_delay_doubles same_order "worker_a" 150 60 two_dispatches claimed_tables the_dispatch
      claims
