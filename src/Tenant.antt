-- ===== src/Tenant.antt =====
-- The tenants of a product: platform/backend/internal/modules/tenant/tenant.go. The commands on the
-- tables stand in Tenant.Store; a command here is trimmed, checked and handed to them.
pub mod Model
pub mod Store
pub mod Laws
mod Tests
use unified_software_commerc.Prelude.{
  ℕ, String, Bool, true, false, not, ◌&&◌, ◌||◌, Option, none, some, List, [], ◌∷◌, ◌==◌,
  if◌then◌else◌, Result, ok, err, ◌>>=◌, ◌>>◌, guard,
}
use unified_software_commerc.Prelude.Text.{trim_space, stable_code, len_within, count_within}
use unified_software_commerc.Tenant.Model.{
  TenantError, invalid_tenant_command, tenant_not_found, tenant_suspended, invalid_tenant_proof,
  resolution_unsupported, Tenant, TenantContext, TenantReceiptKey, TenantEvent,
}
use unified_software_commerc.Tenant.Store.{
  TenantTables, find_official, find_tenant_by_distribution, ensure_official, create_agent,
}

pub record EnsureOfficialTenantCommand : Type 0 where
  pub product_id : String
  pub name : String
  pub actor_id : String
  pub idempotency_key : String
  pub trace_id : String

pub record CreateAgentTenantCommand : Type 0 where
  pub product_id : String
  pub tenant_code : String
  pub name : String
  pub status : String
  pub external_agent_ref : String
  pub actor_id : String
  pub idempotency_key : String
  pub trace_id : String

pub record ResolveTenantContextCommand : Type 0 where
  pub product_id : String
  pub application_id : String
  pub method : String
  pub channel_code : String
  pub proof_subject : String

valid_name : String → Bool
valid_name value = count_within 1 120 value

valid_status : String → Bool
valid_status value = value == "active" || value == "suspended"

valid_idempotency_key : String → Bool
valid_idempotency_key value = len_within 16 128 value

valid_identifier : String → Bool
valid_identifier value = count_within 1 128 value

-- The encoding of a request and of a tenant as JSON, SHA-256 with its prefix, the generator of
-- identifiers, and the digest of a proof, with its prefix.
pub record TenantEnvironment : Type 0 where
  pub marshal : List String → String
  pub digest : String → String
  pub new_id : String → Result TenantError String
  pub proof_digest : String → String
  pub encode_tenant : Tenant → String
  pub decode_tenant : String → Option Tenant
  pub now : ℕ

module _ (env : TenantEnvironment) where
  tenant_event : String → String → Tenant → String → String → TenantEvent
  tenant_event event_id event_type value actor_id trace_id = record {
    event_id = event_id;
    aggregate_id = value.tenant_id;
    event_type = event_type;
    occurred_at = env.now;
    audit_id = value.audit_id;
    actor_id = actor_id;
    permission = "tenant.manage";
    product_id = value.product_id;
    trace_id = trim_space trace_id;
    tenant_code = value.tenant_code;
    tenant_type = value.tenant_type;
    status = value.status;
  }

  new_idempotency_record : String → String → String → String → List String → TenantReceiptKey
  new_idempotency_record operation actor_id scope_id key request = record {
    operation = operation;
    actor_id = actor_id;
    scope_id = scope_id;
    key_digest = env.digest key;
    request_digest = env.digest (env.marshal request);
    created_at = env.now;
  }

  new_tenant : String → String → String → String → String → String → String → String → Tenant
  new_tenant tenant_id product_id tenant_code name tenant_type status external_agent_ref audit_id =
      record {
        tenant_id = tenant_id;
        product_id = product_id;
        tenant_code = tenant_code;
        name = name;
        tenant_type = tenant_type;
        status = status;
        external_agent_ref = external_agent_ref;
        context_version = 1;
        created_at = env.now;
        updated_at = env.now;
        audit_id = audit_id;
      }

  unfoldable pub ensure_official_tenant :
      EnsureOfficialTenantCommand → TenantTables → Result TenantError (Tenant × TenantTables)
  unfolding valid_name valid_idempotency_key valid_identifier tenant_event new_idempotency_record
      new_tenant ensure_official
  ensure_official_tenant command t =
      let product_id = trim_space command.product_id in
      let name = trim_space command.name in
      let actor_id = trim_space command.actor_id in
      let key = trim_space command.idempotency_key in
      guard
        (valid_identifier product_id
          && valid_identifier actor_id
          && valid_name name
          && valid_idempotency_key key)
        invalid_tenant_command
      >> env.new_id "ten_"
      >>= λ tenant_id. env.new_id "audit_" >>= λ audit_id. env.new_id "evt_" >>= λ event_id.
          let value =
            new_tenant tenant_id product_id "official" name "official" "active" "" audit_id in
          ensure_official env.encode_tenant env.decode_tenant value
            (new_idempotency_record "tenant.ensure_official" actor_id product_id key
              (product_id ∷ name ∷ []))
            (tenant_event event_id "tenant.created.v1" value actor_id command.trace_id) t

  unfoldable pub create_agent_tenant :
      CreateAgentTenantCommand → TenantTables → Result TenantError (Tenant × TenantTables)
  unfolding valid_name valid_status valid_idempotency_key valid_identifier tenant_event
      new_idempotency_record new_tenant create_agent
  create_agent_tenant command t =
      let product_id = trim_space command.product_id in
      let code = trim_space command.tenant_code in
      let name = trim_space command.name in
      let status = trim_space command.status in
      let agent_ref = trim_space command.external_agent_ref in
      let actor_id = trim_space command.actor_id in
      let key = trim_space command.idempotency_key in
      guard
        (valid_identifier product_id
          && valid_identifier actor_id
          && stable_code code
          && valid_identifier code
          && not (code == "official")
          && valid_name name
          && valid_status status
          && count_within 0 128 agent_ref
          && valid_idempotency_key key)
        invalid_tenant_command
      >> env.new_id "ten_"
      >>= λ tenant_id. env.new_id "audit_" >>= λ audit_id. env.new_id "evt_" >>= λ event_id.
          let value = new_tenant tenant_id product_id code name "agent" status agent_ref audit_id in
          create_agent env.encode_tenant env.decode_tenant value
            (new_idempotency_record "tenant.create_agent" actor_id product_id key
              (product_id ∷ code ∷ name ∷ status ∷ agent_ref ∷ []))
            (tenant_event event_id "tenant.created.v1" value actor_id command.trace_id) t

  -- The tenant that a proof of distribution selects; one that is not found is an invalid proof.
  resolve_distribution : ResolveTenantContextCommand → TenantTables → Result TenantError Tenant
  unfolding valid_identifier
  resolve_distribution command t =
      let channel_code = trim_space command.channel_code in
      guard
        (stable_code channel_code
          && valid_identifier channel_code
          && not (trim_space command.proof_subject == "")
          && len_within 0 4096 command.proof_subject)
        invalid_tenant_proof
      >> (elim (find_tenant_by_distribution (trim_space command.product_id)
          (trim_space command.application_id) channel_code (env.proof_digest command.proof_subject)
          t) [ none ↦ err invalid_tenant_proof | some value ↦ ok value ])

  -- The `switch` on the method.
  unfoldable pub resolve_tenant :
      ResolveTenantContextCommand → TenantTables → Result TenantError Tenant
  unfolding resolve_distribution
  resolve_tenant command t =
      let distribution = resolve_distribution command t in
      if trim_space command.method == "official_channel"
      then (elim (find_official (trim_space command.product_id) t) [
        | none ↦ err tenant_not_found
        | some value ↦ ok value
      ])
      else if trim_space command.method == "distribution"
      then distribution
      else err resolution_unsupported

  unfoldable pub resolve_tenant_context :
      ResolveTenantContextCommand → TenantTables → Result TenantError TenantContext
  unfolding resolve_tenant valid_identifier
  resolve_tenant_context command t =
      let product_id = trim_space command.product_id in
      let application_id = trim_space command.application_id in
      guard
        (valid_identifier product_id && (application_id == "" || valid_identifier application_id))
        invalid_tenant_command
      >> resolve_tenant command t
      >>= λ value.
          guard (value.product_id == product_id) tenant_not_found
          >> guard (value.status == "active") tenant_suspended
          >> ok (record {
            product_id = value.product_id;
            tenant_id = value.tenant_id;
            tenant_type = value.tenant_type;
            tenant_status = value.status;
            resolved_by = trim_space command.method;
            context_version = value.context_version;
          })
