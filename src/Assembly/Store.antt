-- ===== src/Assembly/Store.antt =====
-- The database of the assembly module: its tables, transactions and idempotency records
-- (platform/backend/internal/modules/assembly/postgres/repository.go, and the keys of
-- platform/backend/migrations/000011_assembly.up.sql and 000012_assembly_recovery.up.sql).
-- An operation is a function on the tables; `exactly_once` runs it in a transaction of its own, between
-- `reserveIdempotency` and `completeIdempotency`, as every write of the repository does. An error rolls
-- back, so the database is as before. Failures of the connection are not modelled.
pub mod Outbox
pub mod Rows
pub mod Constraints
pub mod Runs
pub mod Plans
pub mod Dispatches
pub mod Replay
use unified_software_commerc.Prelude.{
  ℕ, String, Bool, true, false, not, ◌&&◌, Option, none, some, List, [], ◌∷◌, map, find, ◌==◌,
  if◌then◌else◌, Result, ok, err, ◌>>=◌,
}
use unified_software_commerc.Assembly.Model.{
  AssemblyError, idempotency_conflict, operation_in_progress, response_unreadable, Idempotency,
}
use unified_software_commerc.Assembly.Store.Rows.{Tables, set_where}

pub data ReceiptState : Type 0 where
  pending completed : ReceiptState

-- A row of `idempotency_records`; a missing response is SQL's NULL.
pub record Receipt : Type 0 where
  pub operation : String
  pub actor_id : String
  pub scope_id : String
  pub key_digest : String
  pub request_digest : String
  pub state : ReceiptState
  pub resource_id : Option String
  pub response_json : Option String
  pub created_at : ℕ
  pub updated_at : ℕ

pub record Database : Type 0 where
  pub tables : Tables
  pub receipts : List Receipt

-- How a response becomes the text of a JSONB column, and how that text is read back.
pub record Codec (A : Type 0) : Type 0 where
  pub encode : A → String
  pub decode : String → Option A

-- `WHERE operation=$1 AND actor_id=$2 AND scope_id=$3 AND key_digest=$4`
abbrev pub has_key : Idempotency → Receipt → Bool
has_key key r =
    r.operation == key.operation
    && r.actor_id == key.actor_id
    && r.scope_id == key.scope_id
    && r.key_digest == key.key_digest

pub data Reservation (A : Type 0) : Type 0 where
  replayed : A → Reservation A
  reserved : List Receipt → Reservation A

-- `state != "completed" || len(raw) == 0`, then the decoding.
abbrev pub stored_response : {A : Type 0} → Codec A → Receipt → Result AssemblyError A
stored_response codec r = elim r.state [
  | pending ↦ err operation_in_progress
  | completed ↦ elim r.response_json [
    | none ↦ err operation_in_progress
    | some raw ↦
        if raw == ""
        then err operation_in_progress
        else elim (codec.decode raw) [ none ↦ err response_unreadable | some a ↦ ok a ]
  ]
]

abbrev pub pending_receipt : Idempotency → Receipt
pending_receipt key = record {
  operation = key.operation;
  actor_id = key.actor_id;
  scope_id = key.scope_id;
  key_digest = key.key_digest;
  request_digest = key.request_digest;
  state = pending;
  resource_id = none;
  response_json = none;
  created_at = key.now;
  updated_at = key.now;
}

unfoldable pub reserve_idempotency :
    {A : Type 0} → Codec A → Idempotency → List Receipt → Result AssemblyError (Reservation A)
reserve_idempotency codec key receipts = elim (find (has_key key) receipts) [
  | none ↦ ok (reserved (pending_receipt key ∷ receipts))
  | some r ↦
      if not (r.request_digest == key.request_digest)
      then err idempotency_conflict
      else stored_response codec r >>= λ a. ok (replayed a)
]

-- The `UPDATE` of `completeIdempotency`.
unfoldable pub complete_idempotency : Idempotency → String → String → List Receipt → List Receipt
complete_idempotency key resource_id raw receipts =
    set_where (has_key key)
      (λ r. record r {
        state = completed;
        resource_id = some resource_id;
        response_json = some raw;
        updated_at = key.now;
      })
      receipts

-- `COMMIT`, or the deferred `ROLLBACK`.
abbrev pub transaction :
    {A : Type 0}
    → Database
    → Result AssemblyError (A × Database)
    → Result AssemblyError A × Database
transaction db (ok (a, next)) = (ok a, next)
transaction db (err e) = (err e, db)

abbrev pub exactly_once :
    {A : Type 0}
    → Codec A
    → (A → String)
    → Idempotency
    → (Tables → Result AssemblyError (A × Tables))
    → Database
    → Result AssemblyError A × Database
exactly_once codec resource key body db = transaction db (
    reserve_idempotency codec key db.receipts >>= λ reservation. elim reservation [
      | replayed a ↦ ok (a, db)
      | reserved receipts ↦ body db.tables >>= λ done. ok (
        done.0,
        record {
          tables = done.1;
          receipts = complete_idempotency key (resource done.0) (codec.encode done.0) receipts;
        },
      )
    ])
