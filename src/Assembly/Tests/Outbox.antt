-- ===== src/Assembly/Tests/Outbox.antt =====
-- The outbox on concrete tables.
use unified_software_commerc.Prelude.{
  ℕ, ◌≤◌, String, Bool, false, none, List, [], ◌∷◌, ◌≡◌, refl, ok, All, arith,
}
use unified_software_commerc.Assembly.Store.Rows.{Tables, OutboxRow}
use unified_software_commerc.Assembly.Store.Outbox.{
  ClaimedOutboxEvent, event_due, selected_events, claim_outbox, mark_outbox_published,
  mark_outbox_failed, published_row, failed_row, first_published, dispatch_failure, claimed_event,
  sort_events, insert_event, first_events,
}
use unified_software_commerc.Assembly.Store.Outbox.Delivery.{
  IsOtherEvent, published_never_claimed, tenth_failure_is_last,
}
use unified_software_commerc.Assembly.Tests.{no_runs, an_event}

abbrev before : String → String → Bool
before a b = false

abbrev a_row : String → ℕ → OutboxRow
a_row event_id attempts = record {
  event = an_event event_id "run_1" 100;
  published_at = none;
  attempt_count = attempts;
  next_attempt_at = 100;
  dead = false;
  last_error = none;
}

abbrev two_events : Tables
two_events = record no_runs { outbox = a_row "evt_1" 10 ∷ a_row "evt_2" 0 ∷ [] }

abbrev published : Tables
published = record no_runs { outbox = published_row 200 (a_row "evt_1" 10) ∷ a_row "evt_2" 0 ∷ [] }

abbrev tenth : ClaimedOutboxEvent
tenth = claimed_event (a_row "evt_1" 9)

abbrev failed_tables : Tables
failed_tables = record no_runs {
  outbox = failed_row "timeout" 330000000200 Bool.true (a_row "evt_1" 10) ∷ a_row "evt_2" 0 ∷ [];
}

abbrev after_claim : Tables → OutboxRow → Tables
after_claim t first_row = record t {
  outbox =
      first_row
      ∷ (record (a_row "evt_2" 0) { attempt_count = 1; next_attempt_at = 30000000300 })
      ∷ [];
}

abbrev claimed_second : List ClaimedOutboxEvent
claimed_second = claimed_event (a_row "evt_2" 0) ∷ []

publishes : mark_outbox_published "evt_1" 200 two_events ≡ ok published
unfolding mark_outbox_published published_row first_published
publishes = refl

claims_second :
    claim_outbox before 300 10 published
    ≡ ok (claimed_second, after_claim published (published_row 200 (a_row "evt_1" 10)))
unfolding claim_outbox selected_events event_due published_row first_published claimed_event
    sort_events insert_event first_events
claims_second = refl

fails : dispatch_failure tenth "timeout" 200 two_events ≡ ok failed_tables
unfolding dispatch_failure mark_outbox_failed failed_row claimed_event
fails = refl

claims_after_failure :
    claim_outbox before 300 10 failed_tables
    ≡ ok (
      claimed_second,
      after_claim failed_tables (failed_row "timeout" 330000000200 Bool.true (a_row "evt_1" 10)),
    )
unfolding claim_outbox selected_events event_due failed_row claimed_event sort_events insert_event
    first_events
claims_after_failure = refl

tenth_attempts : 10 ≤ tenth.attempt_count
unfolding claimed_event
tenth_attempts = ground arith

published_never_claimed_example : All (IsOtherEvent "evt_1") claimed_second
published_never_claimed_example =
    published_never_claimed before "evt_1" 200 300 10 two_events published
      (after_claim published (published_row 200 (a_row "evt_1" 10))) claimed_second publishes
      claims_second

tenth_failure_is_last_example : All (IsOtherEvent tenth.event.event_id) claimed_second
tenth_failure_is_last_example =
    tenth_failure_is_last before tenth "timeout" 200 300 10 two_events failed_tables
      (after_claim failed_tables (failed_row "timeout" 330000000200 Bool.true (a_row "evt_1" 10)))
      claimed_second tenth_attempts fails claims_after_failure
