-- ===== src/Tenant/Model.antt =====
-- Tenants and their records: platform/backend/internal/modules/tenant/tenant.go.
use unified_software_commerc.Prelude.{ℕ, String}

pub data TenantError : Type 0 where
  invalid_tenant_command tenant_not_found tenant_suspended tenant_code_conflict : TenantError
  tenant_idempotency_conflict invalid_tenant_proof resolution_unsupported : TenantError
  -- a stored response that cannot be replayed
  not_replayable : TenantError
  -- an error of the database or of the identifier generator
  external : ℕ → TenantError

pub record Tenant : Type 0 where
  pub tenant_id : String
  pub product_id : String
  pub tenant_code : String
  pub name : String
  pub tenant_type : String
  pub status : String
  pub external_agent_ref : String
  pub context_version : ℕ
  pub created_at : ℕ
  pub updated_at : ℕ
  pub audit_id : String

pub record TenantContext : Type 0 where
  pub product_id : String
  pub tenant_id : String
  pub tenant_type : String
  pub tenant_status : String
  pub resolved_by : String
  pub context_version : ℕ

-- `IdempotencyRecord`
pub record TenantReceiptKey : Type 0 where
  pub operation : String
  pub actor_id : String
  pub scope_id : String
  pub key_digest : String
  pub request_digest : String
  pub created_at : ℕ

-- `OutboxEvent` with the fields of its payload.
pub record TenantEvent : Type 0 where
  pub event_id : String
  pub aggregate_id : String
  pub event_type : String
  pub occurred_at : ℕ
  pub audit_id : String
  pub actor_id : String
  pub permission : String
  pub product_id : String
  pub trace_id : String
  pub tenant_code : String
  pub tenant_type : String
  pub status : String
