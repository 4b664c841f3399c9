-- ===== src/Tenant/Tests.antt =====
-- Tenants of a concrete product.
use unified_software_commerc.Prelude.{
  String, Option, none, some, [], ◌∷◌, ◌≡◌, ◌≤◌, length, refl, Result, ok, err,
}
use unified_software_commerc.Prelude.Text.{trim_space}
use unified_software_commerc.Tenant.Model.{
  TenantError, Tenant, TenantContext, TenantReceiptKey, TenantEvent,
}
use unified_software_commerc.Tenant.Store.{
  TenantTables, find_official, tenant_row, insert_tenant, insert_tenant_event, save_receipt,
  load_receipt, add_tenant, ensure_official, same_receipt,
}
use unified_software_commerc.Tenant.{
  TenantEnvironment, ResolveTenantContextCommand, resolve_tenant, resolve_tenant_context,
}
use unified_software_commerc.Tenant.Laws.{
  Separate, no_command, officials_of, ensured, Commands-keep-Separate, official_tenant_stays,
  resolved_tenant_is_active,
}

abbrev a_tenant : Tenant
a_tenant = record {
  tenant_id = "ten_1";
  product_id = "prod_1";
  tenant_code = "official";
  name = "Official";
  tenant_type = "official";
  status = "active";
  external_agent_ref = "";
  context_version = 1;
  created_at = 10;
  updated_at = 10;
  audit_id = "audit_1";
}

abbrev a_receipt_key : String → TenantReceiptKey
a_receipt_key key_digest = record {
  operation = "tenant.ensure_official";
  actor_id = "admin_1";
  scope_id = "prod_1";
  key_digest = key_digest;
  request_digest = "r";
  created_at = 10;
}

abbrev a_tenant_event : TenantEvent
a_tenant_event = record {
  event_id = "evt_1";
  aggregate_id = "ten_1";
  event_type = "tenant.created.v1";
  occurred_at = 10;
  audit_id = "audit_1";
  actor_id = "admin_1";
  permission = "tenant.manage";
  product_id = "prod_1";
  trace_id = "trace_1";
  tenant_code = "official";
  tenant_type = "official";
  status = "active";
}

abbrev encode : Tenant → String
encode v = "{}"

abbrev decode : String → Option Tenant
decode s = some a_tenant

abbrev no_tenants : TenantTables
no_tenants = record { tenants = []; bindings = []; receipts = []; outbox = [] }

abbrev tables_after : TenantTables → Result TenantError (Tenant × TenantTables) → TenantTables
tables_after t (ok done) = done.1
tables_after t (err e) = t

abbrev one_tenant : TenantTables
one_tenant =
    tables_after no_tenants
      (ensure_official encode decode a_tenant (a_receipt_key "k1") a_tenant_event no_tenants)

ensures :
    ensure_official encode decode a_tenant (a_receipt_key "k1") a_tenant_event no_tenants
    ≡ ok (a_tenant, one_tenant)
unfolding ensure_official load_receipt find_official add_tenant insert_tenant insert_tenant_event
    save_receipt
ensures = refl

Commands-keep-Separate_example :
    Separate one_tenant.tenants
    × ((product_id : String) → length (officials_of product_id one_tenant.tenants) ≤ 1)
Commands-keep-Separate_example =
    Commands-keep-Separate encode decode
      (ensured no_command a_tenant (a_receipt_key "k1") a_tenant_event a_tenant ensures) tt

abbrev again_tables : TenantTables
again_tables =
    tables_after one_tenant
      (ensure_official encode decode a_tenant (a_receipt_key "k2") a_tenant_event one_tenant)

unused_key : load_receipt encode decode (a_receipt_key "k2") one_tenant ≡ ok none
unfolding load_receipt same_receipt ensure_official find_official add_tenant insert_tenant
    insert_tenant_event save_receipt
unused_key = refl

ensures_again :
    ensure_official encode decode a_tenant (a_receipt_key "k2") a_tenant_event one_tenant
    ≡ ok (tenant_row a_tenant, again_tables)
unfolding load_receipt same_receipt ensure_official find_official add_tenant insert_tenant
    insert_tenant_event save_receipt tenant_row
ensures_again = refl

no_key : load_receipt encode decode (a_receipt_key "k1") no_tenants ≡ ok none
unfolding load_receipt
no_key = refl

official_tenant_stays_example :
    ((tenant_row a_tenant).tenant_id ≡ a_tenant.tenant_id)
    × (again_tables.tenants ≡ one_tenant.tenants)
    × (again_tables.outbox ≡ one_tenant.outbox)
official_tenant_stays_example =
    official_tenant_stays encode decode a_tenant a_tenant a_tenant (tenant_row a_tenant)
      (a_receipt_key "k1") (a_receipt_key "k2") a_tenant_event a_tenant_event no_tenants one_tenant
      one_tenant again_tables refl no_key ensures no_command refl unused_key ensures_again

abbrev an_environment : TenantEnvironment
an_environment = record {
  marshal = λ request. "{}";
  digest = λ text. "d";
  new_id = λ prefix. ok prefix;
  proof_digest = λ proof. "p";
  encode_tenant = encode;
  decode_tenant = decode;
  now = 20;
}

abbrev a_request : ResolveTenantContextCommand
a_request = record {
  product_id = " prod_1";
  application_id = "";
  method = "official_channel";
  channel_code = "";
  proof_subject = "";
}

abbrev with_tenant : TenantTables
with_tenant = record no_tenants { tenants = a_tenant ∷ [] }

abbrev a_context : TenantContext
a_context = record {
  product_id = "prod_1";
  tenant_id = "ten_1";
  tenant_type = "official";
  tenant_status = "active";
  resolved_by = "official_channel";
  context_version = 1;
}

resolves : resolve_tenant_context an_environment a_request with_tenant ≡ ok a_context
unfolding resolve_tenant_context resolve_tenant find_official trim_space
resolves = refl

resolved_tenant_is_active_example :
    (v : Tenant) × (resolve_tenant an_environment a_request with_tenant ≡ ok v)
    × (v.product_id ≡ trim_space " prod_1")
    × (v.status ≡ "active")
    × ("ten_1" ≡ v.tenant_id)
    × ("prod_1" ≡ v.product_id)
resolved_tenant_is_active_example =
    resolved_tenant_is_active an_environment a_request with_tenant a_context resolves
