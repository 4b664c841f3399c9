-- ===== src/Tenant/Store.antt =====
-- The tables of the tenants: platform/backend/internal/modules/tenant/postgres/repository.go, with the
-- keys of platform/backend/migrations/000009_tenant.up.sql. The advisory locks put transactions one after
-- the other; an error rolls back.
use unified_software_commerc.Prelude.{
  String, Bool, true, not, ◌&&◌, ◌||◌, Option, none, some, List, [], ◌∷◌, ◌++◌, find, any, ◌==◌,
  Result, ok, err, ◌>>=◌, ◌>>◌, guard,
}
use unified_software_commerc.Tenant.Model.{
  TenantError, tenant_code_conflict, tenant_idempotency_conflict, not_replayable, external, Tenant,
  TenantReceiptKey, TenantEvent,
}

-- A row of `distribution_bindings`; no application is SQL's NULL.
pub record DistributionBinding : Type 0 where
  pub product_id : String
  pub application_id : Option String
  pub channel_code : String
  pub proof_subject_digest : String
  pub tenant_id : String
  pub status : String

-- A row of `idempotency_records`.
pub record TenantReceipt : Type 0 where
  pub key : TenantReceiptKey
  pub resource_id : String
  pub completed : Bool
  pub response_json : String

pub record TenantTables : Type 0 where
  pub tenants : List Tenant
  pub bindings : List DistributionBinding
  pub receipts : List TenantReceipt
  pub outbox : List TenantEvent

unfoldable pub find_official : String → TenantTables → Option Tenant
find_official product_id t =
    find (λ v. v.product_id == product_id && v.tenant_type == "official") t.tenants

-- `b.application_id IS NULL OR b.application_id=$4`
binds_application : Option String → String → Bool
binds_application none application_id = true
binds_application (some bound) application_id = bound == application_id

unfoldable pub find_tenant_by_distribution :
    String → String → String → String → TenantTables → Option Tenant
unfolding binds_application
find_tenant_by_distribution product_id application_id channel_code digest t =
    find
      (λ v.
        any
          (λ b.
            b.product_id == v.product_id
            && b.tenant_id == v.tenant_id
            && b.product_id == product_id
            && b.channel_code == channel_code
            && b.proof_subject_digest == digest
            && b.status == "active"
            && binds_application b.application_id application_id)
          t.bindings)
      t.tenants

-- The keys of `product_tenants`: two rows that may not stand together.
unfoldable pub tenant_clashes : Tenant → Tenant → Bool
tenant_clashes new v =
    v.tenant_id == new.tenant_id
    || (v.product_id == new.product_id && v.tenant_code == new.tenant_code)
    || (v.product_id == new.product_id
        && v.tenant_type == "official"
        && new.tenant_type == "official")

-- The columns of a tenant; the audit identifier is none.
unfoldable pub tenant_row : Tenant → Tenant
tenant_row v = record v { audit_id = "" }

unfoldable pub insert_tenant : Tenant → TenantTables → Result TenantError TenantTables
unfolding tenant_row
insert_tenant value t =
    guard (not (any (tenant_clashes value) t.tenants)) tenant_code_conflict
    >> ok (record t { tenants = t.tenants ++ tenant_row value ∷ [] })

unfoldable pub insert_tenant_event : TenantEvent → TenantTables → Result TenantError TenantTables
insert_tenant_event event t =
    guard (not (any (λ e. e.event_id == event.event_id) t.outbox)) (external 0)
    >> ok (record t { outbox = t.outbox ++ event ∷ [] })

unfoldable pub same_receipt : TenantReceiptKey → TenantReceipt → Bool
same_receipt key r =
    r.key.operation == key.operation
    && r.key.actor_id == key.actor_id
    && r.key.scope_id == key.scope_id
    && r.key.key_digest == key.key_digest

module _ (encode : Tenant → String) (decode : String → Option Tenant) where
  -- A receipt that is there: its response, if it is a tenant of the scope.
  replay_receipt : TenantReceiptKey → TenantReceipt → Result TenantError Tenant
  replay_receipt key r =
      guard (r.key.request_digest == key.request_digest) tenant_idempotency_conflict
      >> guard (r.completed && not (r.response_json == "")) not_replayable
      >> (elim (decode r.response_json) [
        | none ↦ err not_replayable
        | some value ↦
            guard (value.product_id == key.scope_id && not (value.tenant_id == "")) not_replayable
            >> ok value
      ])

  unfoldable pub load_receipt : TenantReceiptKey → TenantTables → Result TenantError (Option Tenant)
  unfolding replay_receipt
  load_receipt key t = elim (find (same_receipt key) t.receipts) [
    | none ↦ ok none
    | some r ↦ replay_receipt key r >>= λ value. ok (some value)
  ]

  unfoldable pub save_receipt :
      TenantReceiptKey → Tenant → TenantTables → Result TenantError TenantTables
  save_receipt key value t =
      guard (not (any (same_receipt key) t.receipts)) (external 0)
      >> ok (record t {
        receipts =
            t.receipts
            ++ record {
              key = key;
              resource_id = value.tenant_id;
              completed = true;
              response_json = encode value;
            }
              ∷ [];
      })

  -- The insertion of a tenant with its event and its receipt.
  unfoldable pub add_tenant :
      Tenant
      → TenantReceiptKey
      → TenantEvent
      → TenantTables
      → Result TenantError (Tenant × TenantTables)
  unfolding insert_tenant insert_tenant_event save_receipt
  add_tenant candidate key event t =
      insert_tenant candidate t
      >>= insert_tenant_event event
      >>= save_receipt key candidate
      >>= λ t'. ok (candidate, t')

  -- `EnsureOfficialTenant` of the repository.
  unfoldable pub ensure_official :
      Tenant
      → TenantReceiptKey
      → TenantEvent
      → TenantTables
      → Result TenantError (Tenant × TenantTables)
  unfolding load_receipt find_official save_receipt add_tenant
  ensure_official candidate key event t = load_receipt key t >>= λ replay. elim replay [
    | some value ↦ ok (value, t)
    | none ↦ elim (find_official candidate.product_id t) [
      | some existing ↦ save_receipt key existing t >>= λ t'. ok (existing, t')
      | none ↦ add_tenant candidate key event t
    ]
  ]

  -- `CreateAgentTenant` of the repository.
  unfoldable pub create_agent :
      Tenant
      → TenantReceiptKey
      → TenantEvent
      → TenantTables
      → Result TenantError (Tenant × TenantTables)
  unfolding load_receipt add_tenant
  create_agent candidate key event t = load_receipt key t >>= λ replay. elim replay [
    | some value ↦ ok (value, t)
    | none ↦ add_tenant candidate key event t
  ]
