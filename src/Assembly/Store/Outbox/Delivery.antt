-- ===== src/Assembly/Store/Outbox/Delivery.antt =====
-- When an event of the outbox is not claimed any more.
use unified_software_commerc.Prelude.{
  ℕ, zero, suc, ◌+◌, ◌*◌, ◌≤◌, String, Bool, true, false, not, ◌&&◌, ◌||◌, List, [], ◌∷◌, map,
  filter, leb, ltb, eqb, is_some, ◌==◌, if◌then◌else◌, ok, ◌≡◌, sym, ap, ◌∙◌, subst, arith, All,
  Bool-cases, Option-cases, inl, inr,
}
use unified_software_commerc.Assembly.Store.Rows.{Tables, OutboxRow, set_where}
use unified_software_commerc.Assembly.Store.Outbox.{
  ClaimedOutboxEvent, event_due, insert_event, sort_events, first_events, selected_events,
  claimed_event, claim_outbox, first_published, mark_outbox_published, mark_outbox_failed,
  published_row, failed_row, dispatch_failure,
}

-- Not of the event.
abbrev IsOther : String → OutboxRow → Type 0
IsOther event_id row = (row.event.event_id == event_id) ≡ false

-- Never due again, if it is of the event.
abbrev IsOver : String → OutboxRow → Type 0
IsOver event_id row =
    (row.event.event_id == event_id) ≡ true → (is_some row.published_at || row.dead) ≡ true

over_due :
    (id : String) (now : ℕ) (r : OutboxRow) → IsOver id r → event_due now r ≡ true → IsOther id r
unfolding event_due
over_due id now r over due = elim (Bool-cases (r.event.event_id == id)) [
  | inl same ↦ absurd (clash (over same))
  | inr other ↦ other
]
  where
    clash : (is_some r.published_at || r.dead) ≡ true → ⊥
    clash h = ground arith

filter-All :
    {P Q : OutboxRow → Type 0} (p : OutboxRow → Bool)
    → ((r : OutboxRow) → P r → p r ≡ true → Q r)
    → (rows : List OutboxRow) → All P rows
    → All Q (filter p rows)
filter-All p f [] h = tt
filter-All {Q = Q} p f (row ∷ rows) (pr, h) = elim (Bool-cases (p row)) [
  | inl due ↦
      let e : row ∷ filter p rows ≡ filter p (row ∷ rows) = ground arith in
      subst (All Q) e (f row pr due, filter-All p f rows h)
  | inr idle ↦
      let e : filter p rows ≡ filter p (row ∷ rows) = ground arith in
      subst (All Q) e (filter-All p f rows h)
]

insert_event-All :
    (before : String → String → Bool) (Q : OutboxRow → Type 0) (row : OutboxRow)
    (rows : List OutboxRow)
    → Q row
    → All Q rows
    → All Q (insert_event before row rows)
unfolding insert_event
insert_event-All before Q row [] q h = (q, tt)
insert_event-All before Q row (other ∷ rest) q (o, h) =
    let behind = insert_event-All before Q row rest q h in
    elim (Bool-cases (
      ltb other.event.occurred_at row.event.occurred_at
      || (eqb other.event.occurred_at row.event.occurred_at
          && before other.event.event_id row.event.event_id))) [
            | inl late ↦
                let e : other ∷ insert_event before row rest
                    ≡ insert_event before row (other ∷ rest) =
                  ground arith in
                subst (All Q) e (o, behind)
            | inr early ↦
                let e : row ∷ other ∷ rest ≡ insert_event before row (other ∷ rest) =
                  ground arith in
                subst (All Q) e (q, (o, h))
          ]

sort_events-All :
    (before : String → String → Bool) (Q : OutboxRow → Type 0) (rows : List OutboxRow)
    → All Q rows
    → All Q (sort_events before rows)
unfolding sort_events
sort_events-All before Q [] h = tt
sort_events-All before Q (row ∷ rows) (q, h) =
    insert_event-All before Q row (sort_events before rows) q (sort_events-All before Q rows h)

first_events-All :
    (n : ℕ) (Q : OutboxRow → Type 0) (rows : List OutboxRow)
    → All Q rows
    → All Q (first_events n rows)
unfolding first_events
first_events-All zero Q rows h = tt
first_events-All (suc n) Q [] h = tt
first_events-All (suc n) Q (row ∷ rows) (q, h) = (q, first_events-All n Q rows h)

abbrev pub IsOtherEvent : String → ClaimedOutboxEvent → Type 0
IsOtherEvent event_id item = (item.event.event_id == event_id) ≡ false

map-IsOther :
    (id : String) (rows : List OutboxRow)
    → All (IsOther id) rows
    → All (IsOtherEvent id) (map claimed_event rows)
unfolding claimed_event
map-IsOther id [] h = tt
map-IsOther id (row ∷ rows) (o, h) = (o, map-IsOther id rows h)

claim-IsOther :
    (before : String → String → Bool) (id : String) (now limit : ℕ) (t t' : Tables)
    (items : List ClaimedOutboxEvent)
    → All (IsOver id) t.outbox
    → claim_outbox before now limit t ≡ ok (items, t')
    → All (IsOtherEvent id) items
unfolding claim_outbox selected_events
claim-IsOther before id now limit t t' items over h =
    let e : map claimed_event (selected_events before now limit t) ≡ items = ground arith in
    subst (All (IsOtherEvent id)) e (
      map-IsOther id (selected_events before now limit t) (
        first_events-All limit (IsOther id) _ (
          sort_events-All before (IsOther id) _
            (filter-All (event_due now) (over_due id now) t.outbox over))))

set_where-IsOver :
    (id : String) (p : OutboxRow → Bool) (set : OutboxRow → OutboxRow) (rows : List OutboxRow)
    → ((r : OutboxRow) → p r ≡ true → IsOver id (set r))
    → ((r : OutboxRow) → p r ≡ false → IsOver id r)
    → All (IsOver id) (set_where p set rows)
set_where-IsOver id p set [] f g = tt
set_where-IsOver id p set (r ∷ rows) f g = (
  elim (Bool-cases (p r)) [
    | inl yes' ↦
        let e : set r ≡ (if p r then set r else r) = ground arith in subst (IsOver id) e (f r yes')
    | inr no' ↦
        let e : r ≡ (if p r then set r else r) = ground arith in subst (IsOver id) e (g r no')
  ],
  set_where-IsOver id p set rows f g,
)

published_row-IsOver : (id : String) (now : ℕ) (r : OutboxRow) → IsOver id (published_row now r)
unfolding published_row first_published
published_row-IsOver id now r _ = elim (Option-cases r.published_at) [
  | inl none' ↦ ground arith
  | inr (at, e) ↦ ground arith
]

other-IsOver : (id : String) (r : OutboxRow) → (r.event.event_id == id) ≡ false → IsOver id r
other-IsOver id r no' yes' = absurd (ground arith)

mark_outbox_published-IsOver :
    (id : String) (now : ℕ) (t t' : Tables)
    → mark_outbox_published id now t ≡ ok t'
    → All (IsOver id) t'.outbox
unfolding mark_outbox_published
mark_outbox_published-IsOver id now t t' h =
    let e : set_where (λ row. row.event.event_id == id) (published_row now) t.outbox ≡ t'.outbox =
      ground arith in
    subst (All (IsOver id)) e (
      set_where-IsOver id (λ row. row.event.event_id == id) (published_row now) t.outbox
        (λ r _. published_row-IsOver id now r) (other-IsOver id))

open_event : String → OutboxRow → Bool
open_event id row = row.event.event_id == id && not (is_some row.published_at)

settled_event-IsOver : (id : String) (r : OutboxRow) → open_event id r ≡ false → IsOver id r
unfolding open_event
settled_event-IsOver id r no' yes' = ground arith

failed_row-IsOver :
    (id summary : String) (next : ℕ) (r : OutboxRow) → IsOver id (failed_row summary next true r)
unfolding failed_row
failed_row-IsOver id summary next r _ = ground arith

mark_outbox_failed-IsOver :
    (id summary : String) (next : ℕ) (t t' : Tables)
    → mark_outbox_failed id summary next true t ≡ ok t'
    → All (IsOver id) t'.outbox
unfolding mark_outbox_failed open_event
mark_outbox_failed-IsOver id summary next t t' h =
    let e : set_where (open_event id) (failed_row summary next true) t.outbox ≡ t'.outbox =
      ground arith in
    subst (All (IsOver id)) e (
      set_where-IsOver id (open_event id) (failed_row summary next true) t.outbox
        (λ r _. failed_row-IsOver id summary next r) (settled_event-IsOver id))

-- An event that was marked as published is in no batch of events that is claimed from the tables
-- after it, at whatever time and with whatever limit.
pub published_never_claimed :
    (before : String → String → Bool) (id : String) (now later limit : ℕ) (t t' t'' : Tables)
    (items : List ClaimedOutboxEvent)
    → mark_outbox_published id now t ≡ ok t'
    → claim_outbox before later limit t' ≡ ok (items, t'')
    → All (IsOtherEvent id) items
published_never_claimed before id now later limit t t' t'' items h k =
    claim-IsOther before id later limit t' t'' items (mark_outbox_published-IsOver id now t t' h) k

-- An event whose delivery failed when its count of attempts was at least 10 is, once the failure is
-- recorded, in no batch of events that is claimed from the tables after it.
pub tenth_failure_is_last :
    (before : String → String → Bool) (item : ClaimedOutboxEvent) (cause : String)
    (now later limit : ℕ) (t t' t'' : Tables) (items : List ClaimedOutboxEvent)
    → 10 ≤ item.attempt_count
    → dispatch_failure item cause now t ≡ ok t'
    → claim_outbox before later limit t' ≡ ok (items, t'')
    → All (IsOtherEvent item.event.event_id) items
unfolding dispatch_failure
tenth_failure_is_last before item cause now later limit t t' t'' items ten h k =
    let dead' : leb 10 item.attempt_count ≡ true = ground arith in
    let failed' : mark_outbox_failed item.event.event_id cause
          (now + (item.attempt_count + 1) * 30000000000) true t
        ≡ ok t' =
      ap
        (λ d.
          mark_outbox_failed item.event.event_id cause
            (now + (item.attempt_count + 1) * 30000000000) d t)
        (sym dead')
      ∙ h in
    claim-IsOther before item.event.event_id later limit t' t'' items
      (mark_outbox_failed-IsOver item.event.event_id cause
        (now + (item.attempt_count + 1) * 30000000000) t t' failed')
      k
