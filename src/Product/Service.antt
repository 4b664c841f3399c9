-- ===== src/Product/Service.antt =====
-- The commands of platform/backend/internal/modules/product/product.go: what they share, and those on
-- products. Those on clients, sessions and capabilities are the children.
use Prim.Native.String.{◌++◌ as ◌<>◌}
use unified_software_commerc.Prelude.{
  ℕ, String, Bool, not, ◌&&◌, ◌||◌, Option, List, [], ◌∷◌, ◌==◌, if◌then◌else◌, Result, ok, err,
  ◌>>=◌, ◌>>◌, guard,
}
use unified_software_commerc.Prelude.Text.{trim_space, stable_code, len_within, trim_prefix}
use unified_software_commerc.Product.Model.{
  ProductError, invalid_product_command, Product, ClientAuthentication, ClientCredential,
  ClientProof, CapabilityItem, CapabilitySet, TrustedCapabilityChangePlan, ProductReceiptKey,
  SummaryEntry, summary_text, ProductEventPayload, ProductEvent,
}
use unified_software_commerc.Product.Store.{ProductTables, once}
use unified_software_commerc.Product.Store.Provisioning.{begin_body, complete_body}
use unified_software_commerc.Product.Checks.{normalize_environments}
pub mod Clients
pub mod Sessions
pub mod Capabilities

-- What a service is made of besides its tables: the clock, the generators, SHA-256 with its prefix, the
-- encoding as JSON, and the verifiers of plans and proofs.
pub record ProductServices : Type 0 where
  pub now : ℕ
  pub new_id : String → Result ProductError String
  pub issue_token : Result ProductError (String × String)
  pub digest : String → String
  pub marshal : List (String × SummaryEntry) → String
  pub marshal_items : List CapabilityItem → String
  pub marshal_list : List String → String
  pub encode_product : Product → String
  pub decode_product : String → Option Product
  pub encode_client : ClientAuthentication → String
  pub decode_client : String → Option ClientAuthentication
  pub encode_credential : ClientCredential → String
  pub decode_credential : String → Option ClientCredential
  pub encode_set : CapabilitySet → String
  pub decode_set : String → Option CapabilitySet
  pub normalize_policy : String → Option String
  pub verify_client_proof : ClientAuthentication → ClientProof → Bool
  pub resolve_product_capability_change :
      TrustedCapabilityChangePlan → Result ProductError TrustedCapabilityChangePlan

-- `makeEvent`
unfoldable pub make_product_event :
    String → String → String → ℕ → ProductEventPayload → ProductEvent
unfolding trim_prefix
make_product_event event_id aggregate_id event_type occurred_at payload = record {
  event_id = event_id;
  aggregate_id = aggregate_id;
  event_type = event_type;
  payload = record payload {
    audit_id = "audit_" <> trim_prefix event_id "evt_";
    occurred_at = occurred_at;
  };
  occurred_at = occurred_at;
}

-- The payload of a command on a product that succeeded.
unfoldable pub success_payload :
    String
    → String
    → String
    → String
    → String
    → String
    → String
    → String
    → List (String × SummaryEntry)
    → ProductEventPayload
success_payload actor_id permission product_id action target_type target_id trace_id risk_level
      summary =
    record {
      audit_id = "";
      occurred_at = 0;
      actor_id = actor_id;
      permission = permission;
      scope_type = "product";
      scope_id = product_id;
      product_id = product_id;
      tenant_id = "";
      action = action;
      target_type = target_type;
      target_id = target_id;
      result = "success";
      reason_code = "";
      trace_id = trace_id;
      risk_level = risk_level;
      redacted_summary = summary;
    }

pub record BeginProvisioningCommand : Type 0 where
  pub product_code : String
  pub name : String
  pub status : String
  pub environments : List String
  pub actor_id : String
  pub idempotency_key : String
  pub trace_id : String

pub record CompleteProvisioningCommand : Type 0 where
  pub product_id : String
  pub official_tenant_id : String
  pub actor_id : String
  pub idempotency_key : String
  pub trace_id : String

-- Who calls, under which key, in which trace: none may be empty.
unfoldable pub identified : String → String → String → Bool
identified actor_id idempotency_key trace_id =
    not (actor_id == "") && not (idempotency_key == "") && not (trace_id == "")

unfoldable pub valid_beginning : String → String → String → Bool
valid_beginning product_code name status =
    stable_code product_code
    && len_within 1 120 name
    && (status == "active" || status == "suspended")

module _ (env : ProductServices) where
  -- `makeIdempotency`, with the request as its JSON text.
  unfoldable pub make_receipt_key : String → String → String → String → String → ProductReceiptKey
  make_receipt_key operation actor_id scope_id key request = record {
    operation = operation;
    actor_id = actor_id;
    scope_id = scope_id;
    key_digest = env.digest key;
    request_digest = env.digest request;
  }

  unfoldable pub write_begin_provisioning :
      BeginProvisioningCommand
      → List String
      → String
      → String
      → ProductTables
      → Result ProductError (Product × ProductTables)
  unfolding identified make_receipt_key make_product_event success_payload
  write_begin_provisioning command environments product_id event_id t =
      let product_code = trim_space command.product_code in
      let name = trim_space command.name in
      let payload =
        success_payload command.actor_id "product.manage" "" "product.provisioning_started"
          "product" product_id command.trace_id "normal"
          (("product_code", summary_text product_code) ∷ []) in
      once env.encode_product env.decode_product
        (make_receipt_key "product.begin_provisioning" command.actor_id "platform"
          command.idempotency_key
          (env.marshal (
            ("product_code", summary_text product_code)
            ∷ ("name", summary_text name)
            ∷ ("status", summary_text command.status)
            ∷ ("environments", summary_text (env.marshal_list environments))
            ∷ [])))
        (begin_body
          (record {
            product_id = product_id;
            product_code = product_code;
            name = name;
            status = command.status;
            provisioning_state = "pending";
            official_tenant_id = "";
            context_version = 1;
            created_at = env.now;
            updated_at = env.now;
            audit_id = "";
          })
          environments
          (make_product_event event_id product_id "product.provisioning_started.v1" env.now
            (record payload { scope_type = "platform" })))
        t

  unfoldable pub begin_provisioning :
      BeginProvisioningCommand → ProductTables → Result ProductError (Product × ProductTables)
  begin_provisioning command t =
      let product_code = trim_space command.product_code in
      let name = trim_space command.name in
      guard (valid_beginning product_code name command.status) invalid_product_command
      >> normalize_environments command.environments
      >>= λ environments.
          guard (identified command.actor_id command.idempotency_key command.trace_id)
            invalid_product_command
          >> env.new_id "prod_"
          >>= λ product_id. env.new_id "evt_" >>= λ event_id.
              write_begin_provisioning command environments product_id event_id t

  unfoldable pub write_complete_provisioning :
      CompleteProvisioningCommand
      → String
      → ProductTables
      → Result ProductError (Product × ProductTables)
  unfolding identified make_receipt_key make_product_event success_payload
  write_complete_provisioning command event_id t =
      once env.encode_product env.decode_product
        (make_receipt_key "product.complete_provisioning" command.actor_id command.product_id
          command.idempotency_key
          (env.marshal (
            ("ProductID", summary_text command.product_id)
            ∷ ("OfficialTenantID", summary_text command.official_tenant_id)
            ∷ [])))
        (complete_body command.product_id command.official_tenant_id env.now (
          make_product_event event_id command.product_id "product.created.v1" env.now (
            success_payload command.actor_id "product.manage" command.product_id "product.created"
              "product" command.product_id command.trace_id "normal"
              (("official_tenant_id", summary_text command.official_tenant_id) ∷ []))))
        t

  unfoldable pub complete_provisioning :
      CompleteProvisioningCommand → ProductTables → Result ProductError (Product × ProductTables)
  complete_provisioning command t =
      guard
        (not (command.product_id == "")
          && not (command.official_tenant_id == "")
          && identified command.actor_id command.idempotency_key command.trace_id)
        invalid_product_command
      >> env.new_id "evt_"
      >>= λ event_id. write_complete_provisioning command event_id t
