-- ===== src/Product/Service/Sessions.antt =====
-- `CreateClientSession` with `recordClientSessionDenied`, `FindClientSession` and `RevokeClientSession`
-- of platform/backend/internal/modules/product/product.go. A refused session leaves an event behind, so
-- the command gives its tables in every case.
use Prim.Native.String.{◌++◌ as ◌<>◌}
use unified_software_commerc.Prelude.{
  ℕ, ◌+◌, String, Bool, true, false, not, ◌&&◌, none, [], ◌∷◌, ◌==◌, if◌then◌else◌, Result, ok, err,
  ◌>>=◌, ◌>>◌, guard,
}
use unified_software_commerc.Prelude.Text.{is_digest, len_within}
use unified_software_commerc.Prelude.Int64.{lt_one}
use unified_software_commerc.Product.Model.{
  ProductError, invalid_product_command, client_unavailable, credential_unavailable, nonce_replayed,
  ClientAuthentication, ClientProof, StoredClientSession, IssuedClientSession, ResolvedSessionScope,
  CreateSessionRecord, ProductEvent, summary_text, summary_number,
}
use unified_software_commerc.Product.Store.{ProductTables, insert_product_event}
use unified_software_commerc.Product.Store.Clients.{resolve_client_authentication}
use unified_software_commerc.Product.Store.Sessions as Rows
use unified_software_commerc.Product.Store.Sessions.{create_session}
use unified_software_commerc.Product.Service.{ProductServices, make_product_event, success_payload}

pub record CreateClientSessionCommand : Type 0 where
  pub client_id : String
  pub credential_id : String
  pub proof : ClientProof
  pub request_nonce : String
  pub client_version : String
  pub scope : ResolvedSessionScope
  pub ttl : ℕ
  pub trace_id : String

-- `errors.Is(err, ErrNonceReplayed)`
unfoldable pub is_replay : ProductError → Bool
is_replay nonce_replayed = true
is_replay _ = false

-- A session or an error, and the tables after the command.
abbrev pub SessionOutcome : Type 0
SessionOutcome = Result ProductError IssuedClientSession × ProductTables

module _ (env : ProductServices) where
  unfoldable pub denied_event : CreateClientSessionCommand → String → String → ProductEvent
  unfolding make_product_event success_payload
  denied_event command event_id reason =
      make_product_event event_id command.client_id "client.session_denied.v1" env.now
        (record (success_payload "anonymous_client" "" "" "client.session_denied" "product_client"
          command.client_id command.trace_id "high"
          (("credential_id", summary_text command.credential_id) ∷ [])) {
            scope_type = "";
            result = "denied";
            reason_code = reason;
          })

  -- `recordClientSessionDenied`, and the error that the caller gets.
  unfoldable pub deny :
      CreateClientSessionCommand → String → ProductError → ProductTables → SessionOutcome
  unfolding denied_event insert_product_event
  deny command reason problem t =
      elim (env.new_id "evt_" >>= λ event_id.
      insert_product_event (denied_event command event_id reason) t) [
        | err failure ↦ (err failure, t)
        | ok t' ↦ (err problem, t')
      ]

  unfoldable pub valid_session_command : CreateClientSessionCommand → Bool
  valid_session_command command =
      not (command.client_id == "")
      && not (command.credential_id == "")
      && not (len_within 0 15 command.request_nonce)
      && not (command.client_version == "")
      && not (lt_one command.ttl)
      && not (command.trace_id == "")

  unfoldable pub scope_agrees : CreateClientSessionCommand → ClientAuthentication → Bool
  unfolding lt_one
  scope_agrees command authentication =
      authentication.client.product_id == command.scope.product_id
      && authentication.client.environment == command.scope.environment
      && not (command.scope.application_id == "")
      && not (command.scope.tenant_id == "")
      && not (lt_one command.scope.application_context_version)
      && not (lt_one command.scope.tenant_context_version)

  unfoldable pub new_session :
      CreateClientSessionCommand → ClientAuthentication → String → String → StoredClientSession
  new_session command authentication session_id token_digest = record {
    session_id = session_id;
    token_digest = token_digest;
    product_id = authentication.client.product_id;
    environment = authentication.client.environment;
    application_id = command.scope.application_id;
    tenant_id = command.scope.tenant_id;
    client_id = command.client_id;
    credential_id = command.credential_id;
    client_version = command.client_version;
    product_context_version = authentication.context.context_version;
    application_context_version = command.scope.application_context_version;
    tenant_context_version = command.scope.tenant_context_version;
    created_at = env.now;
    expires_at = env.now + command.ttl;
    revoked_at = none;
  }

  unfoldable pub session_event :
      CreateClientSessionCommand → ClientAuthentication → String → String → ProductEvent
  unfolding make_product_event success_payload
  session_event command authentication session_id event_id =
      make_product_event event_id command.client_id "client.session_created.v1" env.now
        (record (success_payload ("product_client:" <> command.client_id) ""
          authentication.client.product_id "client.session_created" "client_session" session_id
          command.trace_id "normal"
          (("application_id", summary_text command.scope.application_id)
            ∷ ("credential_id", summary_text command.credential_id)
            ∷ [])) {
              scope_type = "tenant";
              scope_id = command.scope.tenant_id;
              tenant_id = command.scope.tenant_id;
            })

  -- The record for the repository, with its token and its event.
  unfoldable pub prepare_session :
      CreateClientSessionCommand
      → ClientAuthentication
      → Result ProductError (CreateSessionRecord × String × ProductEvent)
  unfolding new_session session_event
  prepare_session command authentication = env.new_id "csess_" >>= λ session_id.
      env.new_id "evt_" >>= λ event_id. env.issue_token >>= λ issued.
      guard (not (issued.0 == "") && is_digest issued.1 && not (issued.0 == issued.1))
        invalid_product_command
      >> ok (
        record {
          authentication = authentication;
          session = new_session command authentication session_id issued.1;
          nonce_digest = env.digest command.request_nonce;
          request_digest = env.digest (
              env.marshal (
                ("ClientID", summary_text command.client_id)
                ∷ ("CredentialID", summary_text command.credential_id)
                ∷ ("ClientVersion", summary_text command.client_version)
                ∷ ("ProductID", summary_text command.scope.product_id)
                ∷ ("Environment", summary_text command.scope.environment)
                ∷ ("ApplicationID", summary_text command.scope.application_id)
                ∷ ("TenantID", summary_text command.scope.tenant_id)
                ∷ (
                  "ApplicationContextVersion",
                  summary_number command.scope.application_context_version,
                )
                ∷ ("TenantContextVersion", summary_number command.scope.tenant_context_version)
                ∷ []));
        },
        issued.0,
        session_event command authentication session_id event_id,
      )

  -- The answer to an error of the repository: a replayed nonce is recorded.
  unfoldable pub refuse_session :
      CreateClientSessionCommand → ProductError → ProductTables → SessionOutcome
  unfolding is_replay deny
  refuse_session command problem t =
      let denied = deny command "nonce_replayed" problem t in
      if is_replay problem then denied else (err problem, t)

  unfoldable pub store_session :
      CreateClientSessionCommand
      → CreateSessionRecord
      → String
      → ProductEvent
      → ProductTables
      → SessionOutcome
  unfolding refuse_session
  store_session command r token event t = elim (create_session r event t) [
    | err problem ↦ refuse_session command problem t
    | ok done ↦ (ok (record { session = done.0; token = token }), done.1)
  ]

  unfoldable pub start_session :
      CreateClientSessionCommand → ClientAuthentication → ProductTables → SessionOutcome
  unfolding scope_agrees deny prepare_session store_session
  start_session command authentication t =
      let mismatch = deny command "scope_mismatch" client_unavailable t in
      let unproved = deny command "invalid_proof" credential_unavailable t in
      if not (scope_agrees command authentication)
      then mismatch
      else if not (env.verify_client_proof authentication command.proof)
      then unproved
      else (elim (prepare_session command authentication) [
        | err problem ↦ (err problem, t)
        | ok prepared ↦ store_session command prepared.0 prepared.1 prepared.2 t
      ])

  unfoldable pub create_client_session : CreateClientSessionCommand → ProductTables → SessionOutcome
  unfolding valid_session_command resolve_client_authentication deny start_session
  create_client_session command t =
      if not (valid_session_command command)
      then (err invalid_product_command, t)
      else (elim (resolve_client_authentication command.client_id command.credential_id env.now t) [
        | err problem ↦ deny command "invalid_client" problem t
        | ok authentication ↦ start_session command authentication t
      ])

  unfoldable pub find_session : String → ProductTables → Result ProductError StoredClientSession
  find_session token_digest t =
      guard (not (token_digest == "")) invalid_product_command
      >> Rows.find_client_session token_digest env.now t

  unfoldable pub revoke_session : String → ProductTables → Result ProductError ProductTables
  revoke_session session_id t =
      guard (not (session_id == "")) invalid_product_command
      >> Rows.revoke_client_session session_id env.now t
