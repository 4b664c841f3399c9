-- ===== src/Product/Tests.antt =====
-- A product with one client, whose credential is rotated and who starts a session.
use Prim.Native.String.{◌++◌ as ◌<>◌}
use unified_software_commerc.Prelude.{
  ℕ, String, Bool, true, false, arith, none, some, [], ◌∷◌, map, Result, ok, err, ◌≡◌, ◌≢◌, refl,
  ne_of_==,
}
use unified_software_commerc.Prelude.Text.{trim_prefix, trim_space, stable_code, is_digest}
use unified_software_commerc.Prelude.Int64.{lt_one, add_one}
use unified_software_commerc.AccessControl.Catalog.{sort_strings}
use unified_software_commerc.Product.Model.{
  ProductError, Product, RotateCredentialRecord, ProductEvent, ClientAuthentication,
  ClientCredential, IssuedClientSession,
}
use unified_software_commerc.Product.Checks.{
  valid_environment, normalize_environments, validate_proof_material, valid_period,
}
use unified_software_commerc.Product.Store.{
  ProductTables, insert_product_event, same_claim, claim_receipt, complete_receipt, once,
}
use unified_software_commerc.Product.Store.Provisioning.{
  begin_body, complete_body, provision, get_product, product_row, ready_row, update_product,
  product_clashes,
}
use unified_software_commerc.Product.Store.Credentials.{
  insert_credential, credential_row, credential_clashes, credential_checks, rotate_body,
  revoke_active, revoke_if_active, revoked_row, current_generation, latest_generation, of_client,
  client_exists, update_credential, update_if, is_credential,
}
use unified_software_commerc.Product.Store.Clients.{
  register_body, insert_client, client_clashes, find_environment, context_of,
  composite_context_version, joined_client, active_client, active_credential, ready_product,
  active_environment, valid_at, resolve_client_authentication,
}
use unified_software_commerc.Product.Store.Sessions.{
  create_session, client_may_start, insert_nonce, insert_session, session_checks, session_clashes,
  find_client_session, note_use, name_nonce, named_nonce, used_row, same_nonce,
}
use unified_software_commerc.Product.Service.{
  ProductServices, BeginProvisioningCommand, CompleteProvisioningCommand, identified,
  make_receipt_key, make_product_event, success_payload, valid_beginning, write_begin_provisioning,
  begin_provisioning, write_complete_provisioning, complete_provisioning,
}
use unified_software_commerc.Product.Service.Clients.{
  RegisterClientCommand, RotateClientCredentialCommand, valid_registration, valid_rotation,
  new_client, first_credential, next_credential, write_register_client, register_client,
  write_rotate_client_credential, rotate_client_credential,
}
use unified_software_commerc.Product.Service.Sessions.{
  CreateClientSessionCommand, SessionOutcome, is_replay, deny, denied_event, valid_session_command,
  scope_agrees, new_session, session_event, prepare_session, refuse_session, store_session,
  start_session, create_client_session,
}
use unified_software_commerc.Product.Laws.Commands.{
  ProductCommands, at_first, begun, provisioned, registered, rotated,
}
use unified_software_commerc.Product.Laws.Clients.{
  SoundCredentials, commands-keep-SoundCredentials, nonce_accepted_once,
}
use unified_software_commerc.Product.Laws.Sessions.{rotation_ends_sessions}

abbrev a_sha256 : String
a_sha256 = "sha256:aaaaaaaaaaaaaaaaaaaaaaaaaaaaaaaaaaaaaaaaaaaaaaaaaaaaaaaaaaaaaaaa"

abbrev services : ℕ → String → ProductServices
services now suffix = record {
  now = now;
  new_id = λ prefix. ok (prefix <> suffix);
  issue_token = ok ("token", a_sha256);
  digest = λ s. s;
  marshal = λ fields. "{}";
  marshal_items = λ items. "[]";
  marshal_list = λ values. "[]";
  encode_product = λ v. "{}";
  decode_product = λ s. none;
  encode_client = λ v. "{}";
  decode_client = λ s. none;
  encode_credential = λ v. "{}";
  decode_credential = λ s. none;
  encode_set = λ v. "{}";
  decode_set = λ s. none;
  normalize_policy = λ s. some s;
  verify_client_proof = λ a proof. true;
  resolve_product_capability_change = λ plan. ok plan;
}

abbrev no_products : ProductTables
no_products = record {
  products = [];
  environments = [];
  clients = [];
  credentials = [];
  nonces = [];
  sessions = [];
  capability_sets = [];
  capability_items = [];
  receipts = [];
  outbox = [];
}

abbrev tables_of :
    {A : Type 0} → ProductTables → Result ProductError (A × ProductTables) → ProductTables
tables_of t (err e) = t
tables_of t (ok done) = done.1

abbrev succeeded : {A : Type 0} → Result ProductError (A × ProductTables) → Bool
succeeded (err e) = false
succeeded (ok done) = true

abbrev begins : BeginProvisioningCommand
begins = record {
  product_code = "shop";
  name = "Shop";
  status = "active";
  environments = "test" ∷ [];
  actor_id = "admin_1";
  idempotency_key = "k1";
  trace_id = "trace_1";
}

abbrev completes : CompleteProvisioningCommand
completes = record {
  product_id = "prod_1";
  official_tenant_id = "ten_1";
  actor_id = "admin_1";
  idempotency_key = "k2";
  trace_id = "trace_1";
}

abbrev registers : RegisterClientCommand
registers = record {
  product_id = "prod_1";
  environment = "test";
  proof_type = "ed25519_signature_v1";
  proof_digest = "";
  public_key = "key";
  not_before = 1;
  expires_at = 100;
  actor_id = "admin_1";
  idempotency_key = "k3";
  trace_id = "trace_1";
}

abbrev rotates : RotateClientCredentialCommand
rotates = record {
  product_id = "prod_1";
  client_id = "pcli_3";
  expected_generation = 1;
  proof_type = "ed25519_signature_v1";
  proof_digest = "";
  public_key = "new key";
  not_before = 1;
  expires_at = 100;
  actor_id = "admin_1";
  idempotency_key = "k4";
  trace_id = "trace_1";
}

abbrev starts : CreateClientSessionCommand
starts = record {
  client_id = "pcli_3";
  credential_id = "pcred_4";
  proof = record { proof_type = "ed25519_signature_v1"; value = ""; payload = []; signature = [] };
  request_nonce = "nonce-nonce-nonce";
  client_version = "1.0";
  scope = record {
    product_id = "prod_1";
    environment = "test";
    application_id = "app_1";
    tenant_id = "ten_1";
    application_context_version = 1;
    tenant_context_version = 1;
  };
  ttl = 10;
  trace_id = "trace_1";
}

abbrev tables_1 : ProductTables
tables_1 = tables_of no_products (begin_provisioning (services 10 "1") begins no_products)

abbrev tables_2 : ProductTables
tables_2 = tables_of tables_1 (complete_provisioning (services 11 "2") completes tables_1)

abbrev tables_3 : ProductTables
tables_3 = tables_of tables_2 (register_client (services 12 "3") registers tables_2)

abbrev tables_4 : ProductTables
tables_4 = tables_of tables_3 (rotate_client_credential (services 13 "4") rotates tables_3)

unfoldable writes : Unit {0}
unfolding trim_space stable_code is_digest lt_one add_one sort_strings trim_prefix valid_environment
    normalize_environments validate_proof_material valid_period insert_product_event same_claim
    claim_receipt complete_receipt once begin_body complete_body provision get_product product_row
    ready_row update_product product_clashes insert_credential credential_row credential_clashes
    credential_checks rotate_body revoke_active revoke_if_active revoked_row current_generation
    latest_generation of_client client_exists update_credential update_if is_credential
    register_body insert_client client_clashes find_environment context_of composite_context_version
    joined_client active_client active_credential ready_product active_environment valid_at
    resolve_client_authentication create_session client_may_start insert_nonce insert_session
    session_checks session_clashes note_use name_nonce named_nonce used_row same_nonce identified
    make_receipt_key make_product_event success_payload valid_beginning write_begin_provisioning
    begin_provisioning write_complete_provisioning complete_provisioning valid_registration
    valid_rotation new_client first_credential next_credential write_register_client register_client
    write_rotate_client_credential rotate_client_credential is_replay deny denied_event
    valid_session_command scope_agrees new_session session_event prepare_session refuse_session
    store_session start_session create_client_session
writes = tt

rotates_credential :
    map (λ (c : ClientCredential). c.status) tables_4.credentials ≡ "revoked" ∷ "active" ∷ []
unfolding writes
rotates_credential = refl

succeeds :
    {A : Type 0} (t : ProductTables) (r : Result ProductError (A × ProductTables))
    → succeeded r ≡ true
    → (a : A) × (r ≡ ok (a, tables_of t r))
succeeds t (err e) h = absurd (ground arith)
succeeds t (ok (a, t')) h = (a, refl)

begins_ok :
    (a : Product) × (begin_provisioning (services 10 "1") begins no_products ≡ ok (a, tables_1))
unfolding writes
begins_ok = succeeds no_products (begin_provisioning (services 10 "1") begins no_products) refl

completes_ok :
    (a : Product) × (complete_provisioning (services 11 "2") completes tables_1 ≡ ok (a, tables_2))
unfolding writes
completes_ok = succeeds tables_1 (complete_provisioning (services 11 "2") completes tables_1) refl

registers_ok :
    (a : ClientAuthentication) × (register_client (services 12 "3") registers tables_2
      ≡ ok (a, tables_3))
unfolding writes
registers_ok = succeeds tables_2 (register_client (services 12 "3") registers tables_2) refl

rotates_ok :
    (a : ClientCredential) × (rotate_client_credential (services 13 "4") rotates tables_3
      ≡ ok (a, tables_4))
unfolding writes
rotates_ok = succeeds tables_3 (rotate_client_credential (services 13 "4") rotates tables_3) refl

to_rotation : ProductCommands no_products tables_4
to_rotation =
    rotated
      (registered
        (provisioned (begun at_first (services 10 "1") begins begins_ok.0 begins_ok.1)
          (services 11 "2") completes completes_ok.0 completes_ok.1)
        (services 12 "3") registers registers_ok.0 registers_ok.1)
      (services 13 "4") rotates rotates_ok.0 rotates_ok.1

commands-keep-SoundCredentials_example : SoundCredentials tables_4
commands-keep-SoundCredentials_example = commands-keep-SoundCredentials to_rotation (tt, tt)

abbrev first_session : SessionOutcome
first_session = create_client_session (services 14 "5") starts tables_4

abbrev session_issued : SessionOutcome → Bool
session_issued (ok s, t) = true
session_issued (err e, t) = false

issues :
    (o : SessionOutcome) → session_issued o ≡ true → (s : IssuedClientSession) × (o ≡ (ok s, o.1))
issues (ok s, t) h = (s, refl)
issues (err e, t) h = absurd (ground arith)

starts_ok :
    (s : IssuedClientSession) × (create_client_session (services 14 "5") starts tables_4
      ≡ (ok s, first_session.1))
unfolding writes
starts_ok = issues first_session refl

-- Another service tries the nonce again.
nonce_accepted_once_example :
    create_client_session (services 15 "6") starts first_session.1
    ≢ (ok starts_ok.0, first_session.1)
nonce_accepted_once_example =
    nonce_accepted_once (services 14 "5") (services 15 "6") starts starts tables_4 first_session.1
      first_session.1 first_session.1 starts_ok.0 starts_ok.0 starts_ok.1 at_first refl refl

abbrev rotates_again : RotateCredentialRecord
rotates_again = record {
  product_id = "prod_1";
  client_id = "pcli_3";
  expected_generation = 2;
  credential = record (rotates_ok.0) { credential_id = "pcred_7"; generation = 3 };
  now = 15;
}

abbrev rotation_event : ProductEvent
rotation_event = make_product_event "evt_7" "pcli_3" "product.client_credential_rotated.v1" 15 (
    success_payload "admin_1" "product.application.security.manage" "prod_1"
      "product.client_credential_rotated" "product_client" "pcli_3" "trace_1" "high" [])

abbrev tables_6 : ProductTables
tables_6 = tables_of first_session.1 (rotate_body rotates_again rotation_event first_session.1)

rotates_again_ok :
    (a : ClientCredential) × (rotate_body rotates_again rotation_event first_session.1
      ≡ ok (a, tables_6))
unfolding writes rotates_ok succeeds
rotates_again_ok =
    succeeds first_session.1 (rotate_body rotates_again rotation_event first_session.1) refl

rotation_ends_sessions_example : find_client_session a_sha256 16 tables_6 ≢ ok (starts_ok.0).session
unfolding writes rotates_ok succeeds starts_ok issues
rotation_ends_sessions_example =
    rotation_ends_sessions rotates_again rotation_event first_session.1 tables_6 rotates_again_ok.0
      a_sha256 16 (starts_ok.0).session refl refl refl rotates_again_ok.1 refl refl
      (ne_of_== _ _ refl)
