-- ===== src/Product/Service/Clients.antt =====
-- `RegisterClient`, `RotateClientCredential` and `RevokeClientCredential` of
-- platform/backend/internal/modules/product/product.go.
use unified_software_commerc.Prelude.{
  ℕ, String, Bool, not, ◌&&◌, none, [], ◌∷◌, ◌==◌, Result, ◌>>=◌, ◌>>◌, guard,
}
use unified_software_commerc.Prelude.Int64.{add_one, lt_one}
use unified_software_commerc.Product.Model.{
  ProductError, invalid_product_command, Client, ClientCredential, ClientAuthentication,
  ProductEvent, summary_text, summary_number,
}
use unified_software_commerc.Product.Store.{ProductTables, once}
use unified_software_commerc.Product.Store.Credentials.{rotate_body, revoke_body}
use unified_software_commerc.Product.Store.Clients.{register_body}
use unified_software_commerc.Product.Checks.{
  valid_environment, validate_proof_material, valid_period,
}
use unified_software_commerc.Product.Service.{
  ProductServices, make_product_event, success_payload, identified, make_receipt_key,
}

pub record RegisterClientCommand : Type 0 where
  pub product_id : String
  pub environment : String
  pub proof_type : String
  pub proof_digest : String
  pub public_key : String
  pub not_before : ℕ
  pub expires_at : ℕ
  pub actor_id : String
  pub idempotency_key : String
  pub trace_id : String

pub record RotateClientCredentialCommand : Type 0 where
  pub product_id : String
  pub client_id : String
  pub expected_generation : ℕ
  pub proof_type : String
  pub proof_digest : String
  pub public_key : String
  pub not_before : ℕ
  pub expires_at : ℕ
  pub actor_id : String
  pub idempotency_key : String
  pub trace_id : String

pub record RevokeClientCredentialCommand : Type 0 where
  pub product_id : String
  pub client_id : String
  pub credential_id : String
  pub actor_id : String
  pub idempotency_key : String
  pub trace_id : String

unfoldable pub valid_registration : RegisterClientCommand → Bool
valid_registration command =
    not (command.product_id == "")
    && identified command.actor_id command.idempotency_key command.trace_id
    && valid_environment command.environment

unfoldable pub valid_rotation : RotateClientCredentialCommand → Bool
valid_rotation command =
    not (command.product_id == "")
    && not (command.client_id == "")
    && not (lt_one command.expected_generation)
    && identified command.actor_id command.idempotency_key command.trace_id

unfoldable pub valid_revocation : RevokeClientCredentialCommand → Bool
valid_revocation command =
    not (command.product_id == "")
    && not (command.client_id == "")
    && not (command.credential_id == "")
    && identified command.actor_id command.idempotency_key command.trace_id

module _ (env : ProductServices) where
  -- The client that `RegisterClient` builds, and its first credential.
  unfoldable pub new_client : RegisterClientCommand → String → Client
  new_client command client_id = record {
    client_id = client_id;
    product_id = command.product_id;
    environment = command.environment;
    status = "active";
    context_version = 1;
    created_at = env.now;
    updated_at = env.now;
  }

  unfoldable pub first_credential :
      RegisterClientCommand → String → String → ProductEvent → ClientCredential
  first_credential command client_id credential_id event = record {
    credential_id = credential_id;
    client_id = client_id;
    product_id = command.product_id;
    proof_type = command.proof_type;
    proof_digest = command.proof_digest;
    public_key = command.public_key;
    generation = 1;
    status = "active";
    not_before = command.not_before;
    expires_at = command.expires_at;
    revoked_at = none;
    last_used_at = none;
    created_at = env.now;
    audit_id = event.payload.audit_id;
  }

  unfoldable pub write_register_client :
      RegisterClientCommand
      → String
      → String
      → String
      → ProductTables
      → Result ProductError (ClientAuthentication × ProductTables)
  unfolding identified make_receipt_key make_product_event success_payload new_client
      first_credential
  write_register_client command client_id credential_id event_id t =
      let event = make_product_event event_id client_id "product.client_registered.v1" env.now (
        success_payload command.actor_id "product.application.security.manage" command.product_id
          "product.client_registered" "product_client" client_id command.trace_id "high"
          (("credential_id", summary_text credential_id)
            ∷ ("proof_type", summary_text command.proof_type)
            ∷ [])) in
      once env.encode_client env.decode_client
        (make_receipt_key env "product.register_client" command.actor_id command.product_id
          command.idempotency_key
          (env.marshal (
            ("ProductID", summary_text command.product_id)
            ∷ ("Environment", summary_text command.environment)
            ∷ ("ProofType", summary_text command.proof_type)
            ∷ ("ProofDigest", summary_text command.proof_digest)
            ∷ ("PublicKey", summary_text command.public_key)
            ∷ ("NotBefore", summary_number command.not_before)
            ∷ ("ExpiresAt", summary_number command.expires_at)
            ∷ [])))
        (register_body (new_client command client_id)
          (first_credential command client_id credential_id event) event)
        t

  unfoldable pub register_client :
      RegisterClientCommand
      → ProductTables
      → Result ProductError (ClientAuthentication × ProductTables)
  register_client command t =
      guard (valid_registration command) invalid_product_command
      >> validate_proof_material command.proof_type command.proof_digest command.public_key
      >> guard (valid_period command.not_before command.expires_at) invalid_product_command
      >> env.new_id "pcli_"
      >>= λ client_id. env.new_id "pcred_" >>= λ credential_id. env.new_id "evt_" >>= λ event_id.
          write_register_client command client_id credential_id event_id t

  unfoldable pub next_credential :
      RotateClientCredentialCommand → String → ProductEvent → ClientCredential
  unfolding add_one
  next_credential command credential_id event = record {
    credential_id = credential_id;
    client_id = command.client_id;
    product_id = command.product_id;
    proof_type = command.proof_type;
    proof_digest = command.proof_digest;
    public_key = command.public_key;
    generation = add_one command.expected_generation;
    status = "active";
    not_before = command.not_before;
    expires_at = command.expires_at;
    revoked_at = none;
    last_used_at = none;
    created_at = env.now;
    audit_id = event.payload.audit_id;
  }

  unfoldable pub write_rotate_client_credential :
      RotateClientCredentialCommand
      → String
      → String
      → ProductTables
      → Result ProductError (ClientCredential × ProductTables)
  unfolding identified make_receipt_key make_product_event success_payload next_credential lt_one
      add_one
  write_rotate_client_credential command credential_id event_id t =
      let event =
        make_product_event event_id command.client_id "product.client_credential_rotated.v1" env.now
          (success_payload command.actor_id "product.application.security.manage" command.product_id
            "product.client_credential_rotated" "product_client" command.client_id command.trace_id
            "high"
            (("credential_id", summary_text credential_id)
              ∷ ("generation", summary_number (add_one command.expected_generation))
              ∷ [])) in
      once env.encode_credential env.decode_credential
        (make_receipt_key env "product.rotate_client_credential" command.actor_id command.product_id
          command.idempotency_key
          (env.marshal (
            ("ProductID", summary_text command.product_id)
            ∷ ("ClientID", summary_text command.client_id)
            ∷ ("ExpectedGeneration", summary_number command.expected_generation)
            ∷ ("ProofType", summary_text command.proof_type)
            ∷ ("ProofDigest", summary_text command.proof_digest)
            ∷ ("PublicKey", summary_text command.public_key)
            ∷ ("NotBefore", summary_number command.not_before)
            ∷ ("ExpiresAt", summary_number command.expires_at)
            ∷ [])))
        (rotate_body
          (record {
            product_id = command.product_id;
            client_id = command.client_id;
            expected_generation = command.expected_generation;
            credential = next_credential command credential_id event;
            now = env.now;
          })
          event)
        t

  unfoldable pub rotate_client_credential :
      RotateClientCredentialCommand
      → ProductTables
      → Result ProductError (ClientCredential × ProductTables)
  rotate_client_credential command t =
      guard (valid_rotation command) invalid_product_command
      >> validate_proof_material command.proof_type command.proof_digest command.public_key
      >> guard (valid_period command.not_before command.expires_at) invalid_product_command
      >> env.new_id "pcred_"
      >>= λ credential_id. env.new_id "evt_" >>= λ event_id.
          write_rotate_client_credential command credential_id event_id t

  unfoldable pub write_revoke_client_credential :
      RevokeClientCredentialCommand
      → String
      → ProductTables
      → Result ProductError (ClientCredential × ProductTables)
  unfolding identified make_receipt_key make_product_event success_payload
  write_revoke_client_credential command event_id t =
      let event =
        make_product_event event_id command.client_id "product.client_credential_revoked.v1" env.now
          (success_payload command.actor_id "product.application.security.manage" command.product_id
            "product.client_credential_revoked" "product_client" command.client_id command.trace_id
            "high" (("credential_id", summary_text command.credential_id) ∷ [])) in
      once env.encode_credential env.decode_credential
        (make_receipt_key env "product.revoke_client_credential" command.actor_id command.product_id
          command.idempotency_key
          (env.marshal (
            ("ProductID", summary_text command.product_id)
            ∷ ("ClientID", summary_text command.client_id)
            ∷ ("CredentialID", summary_text command.credential_id)
            ∷ [])))
        (revoke_body command.product_id command.client_id command.credential_id env.now event) t

  unfoldable pub revoke_client_credential :
      RevokeClientCredentialCommand
      → ProductTables
      → Result ProductError (ClientCredential × ProductTables)
  revoke_client_credential command t =
      guard (valid_revocation command) invalid_product_command >> env.new_id "evt_" >>= λ event_id.
      write_revoke_client_credential command event_id t
