-- ===== src/Assembly/Store/Outbox.antt =====
-- The outbox of the assembly module: `ClaimOutbox`, `MarkOutboxPublished`, `MarkOutboxFailed` of
-- platform/backend/internal/modules/assembly/postgres/repository.go with the checks of core/service.go,
-- and the dispatcher's `fail` of platform/backend/cmd/server/audit_outbox.go.
pub mod Delivery
use Prim.Native.String.{len}
use unified_software_commerc.Prelude.{
  ℕ, zero, suc, ◌+◌, ◌*◌, String, Bool, true, false, not, ◌&&◌, ◌||◌, Option, none, some, List, [],
  ◌∷◌, map, filter, any, leb, ltb, eqb, is_some, ◌==◌, if◌then◌else◌, Result, ok, err, ◌>>=◌, ◌>>◌,
  guard,
}
use unified_software_commerc.Assembly.Model.{AssemblyError, invalid_command, not_found, OutboxEvent}
use unified_software_commerc.Assembly.Store.Rows.{Tables, OutboxRow, set_where}

pub record ClaimedOutboxEvent : Type 0 where
  pub event : OutboxEvent
  pub attempt_count : ℕ

-- `WHERE published_at IS NULL AND dead=FALSE AND next_attempt_at<=$1`
unfoldable pub event_due : ℕ → OutboxRow → Bool
event_due now row = not (is_some row.published_at) && not row.dead && leb row.next_attempt_at now

-- `ORDER BY occurred_at,event_id`; `before` is the database's order of texts.
unfoldable pub insert_event : (String → String → Bool) → OutboxRow → List OutboxRow → List OutboxRow
insert_event before row [] = row ∷ []
insert_event before row (other ∷ rest) =
    let behind = insert_event before row rest in
    if ltb other.event.occurred_at row.event.occurred_at
      || (eqb other.event.occurred_at row.event.occurred_at
          && before other.event.event_id row.event.event_id)
    then other ∷ behind
    else row ∷ other ∷ rest

unfoldable pub sort_events : (String → String → Bool) → List OutboxRow → List OutboxRow
unfolding insert_event
sort_events before [] = []
sort_events before (row ∷ rest) = insert_event before row (sort_events before rest)

-- `LIMIT $2`
unfoldable pub first_events : ℕ → List OutboxRow → List OutboxRow
first_events zero rows = []
first_events (suc n) [] = []
first_events (suc n) (row ∷ rest) = row ∷ first_events n rest

unfoldable pub selected_events : (String → String → Bool) → ℕ → ℕ → Tables → List OutboxRow
unfolding sort_events first_events
selected_events before now limit t =
    first_events limit (sort_events before (filter (event_due now) t.outbox))

unfoldable pub claimed_event : OutboxRow → ClaimedOutboxEvent
claimed_event row = record { event = row.event; attempt_count = row.attempt_count + 1 }

-- A claimed event is put off by 30 seconds. The bounds of the limit are those of the service's
-- `ClaimOutbox`. No other transaction holds a row here, so that `SKIP LOCKED` skips none.
unfoldable pub claim_outbox :
    (String → String → Bool)
    → ℕ
    → ℕ
    → Tables
    → Result AssemblyError (List ClaimedOutboxEvent × Tables)
unfolding selected_events claimed_event
claim_outbox before now limit t =
    let rows = selected_events before now limit t in
    guard (leb 1 limit && leb limit 200) invalid_command
    >> ok (
      map claimed_event rows,
      record t {
        outbox =
            set_where (λ row. any (λ r. r.event.event_id == row.event.event_id) rows)
              (λ row. record row {
                attempt_count = row.attempt_count + 1;
                next_attempt_at = now + 30000000000;
              })
              t.outbox;
      },
    )

-- `COALESCE(published_at,$2)`
unfoldable pub first_published : Option ℕ → ℕ → Option ℕ
first_published none now = some now
first_published (some earlier) now = some earlier

unfoldable pub published_row : ℕ → OutboxRow → OutboxRow
unfolding first_published
published_row now row = record row {
  published_at = first_published row.published_at now;
  last_error = none;
}

-- The first guard, here and below, is the service's; the rest is the repository's.
unfoldable pub mark_outbox_published : String → ℕ → Tables → Result AssemblyError Tables
unfolding published_row
mark_outbox_published event_id now t =
    guard (not (event_id == "")) invalid_command
    >> guard (any (λ row. row.event.event_id == event_id) t.outbox) not_found
    >> ok (record t {
      outbox = set_where (λ row. row.event.event_id == event_id) (published_row now) t.outbox;
    })

unfoldable pub failed_row : String → ℕ → Bool → OutboxRow → OutboxRow
failed_row summary next is_dead row = record row {
  next_attempt_at = next;
  last_error = some summary;
  dead = is_dead;
}

unfoldable pub mark_outbox_failed :
    String → String → ℕ → Bool → Tables → Result AssemblyError Tables
unfolding failed_row
mark_outbox_failed event_id summary next is_dead t =
    guard (not (event_id == "") && not (summary == "") && leb (len summary) 512) invalid_command
    >> guard
        (any (λ row. row.event.event_id == event_id && not (is_some row.published_at)) t.outbox)
        not_found
    >> ok (record t {
      outbox =
          set_where (λ row. row.event.event_id == event_id && not (is_some row.published_at))
            (failed_row summary next is_dead) t.outbox;
    })

-- `fail` of the dispatcher; `cause` is the text of the error. What it returns is only
-- logged.
unfoldable pub dispatch_failure :
    ClaimedOutboxEvent → String → ℕ → Tables → Result AssemblyError Tables
unfolding mark_outbox_failed
dispatch_failure item cause now t =
    mark_outbox_failed item.event.event_id cause (now + (item.attempt_count + 1) * 30000000000)
      (leb 10 item.attempt_count) t
