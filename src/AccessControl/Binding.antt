-- ===== src/AccessControl/Binding.antt =====
-- Binding an administrator to a scope: `BindAdminScope` and `normalizeBindingScope` of
-- platform/backend/internal/modules/accesscontrol/accesscontrol.go, up to the repository's transaction.
use unified_software_commerc.Prelude.{
  ℕ, String, Bool, true, ◌&&◌, ◌||◌, Option, none, some, eqb, ltb, ◌==◌, if◌then◌else◌, Result, ok,
  err, ◌>>=◌, ◌>>◌, guard,
}
use unified_software_commerc.Prelude.Text.{trim_space, scope_identifier, stable_code, len_within}
use unified_software_commerc.AccessControl.Catalog.{AccessError, invalid_scope_binding}
use unified_software_commerc.AccessControl.{Scope}

-- `first` unless it is empty.
abbrev pub or_text : String → String → String
or_text first second = if first == "" then second else first

abbrev pub product_scope : Scope → Result AccessError Scope
product_scope scope =
    let product_id = or_text scope.product_id scope.id in
    guard
      (scope_identifier product_id
        && scope.tenant_id == ""
        && (scope.id == "" || scope.id == product_id))
      invalid_scope_binding
    >> ok (record {
      scope_type = "product";
      id = product_id;
      product_id = product_id;
      tenant_id = "";
    })

abbrev pub tenant_scope : Scope → Result AccessError Scope
tenant_scope scope =
    let tenant_id = or_text scope.tenant_id scope.id in
    guard
      (scope_identifier scope.product_id
        && scope_identifier tenant_id
        && (scope.id == "" || scope.id == tenant_id))
      invalid_scope_binding
    >> ok (record {
      scope_type = "tenant";
      id = tenant_id;
      product_id = scope.product_id;
      tenant_id = tenant_id;
    })

unfoldable pub normalize_binding_scope : Scope → Result AccessError Scope
normalize_binding_scope scope =
    if scope.scope_type == "platform"
    then err invalid_scope_binding
    else if scope.scope_type == "product"
    then product_scope scope
    else if scope.scope_type == "tenant"
    then tenant_scope scope
    else err invalid_scope_binding

pub record BindAdminScopeCommand : Type 0 where
  pub admin_user_id : String
  pub role_code : String
  pub scope : Scope
  pub effective_from : ℕ
  pub expires_at : Option ℕ
  pub actor_id : String
  pub trace_id : String
  pub idempotency_key : String

pub record AdminScopeBinding : Type 0 where
  pub binding_id : String
  pub admin_user_id : String
  pub role_code : String
  pub scope : Scope
  pub effective_from : ℕ
  pub expires_at : Option ℕ
  pub authorization_version : ℕ
  pub audit_id : String
  pub created_at : ℕ

pub record ScopeBindingIdempotency : Type 0 where
  pub operation : String
  pub actor_id : String
  pub key_digest : String
  pub request_digest : String
  pub now : ℕ

pub record ScopeBindingRecord : Type 0 where
  pub binding : AdminScopeBinding
  pub actor_id : String
  pub trace_id : String
  pub event_id : String
  pub idempotency : ScopeBindingIdempotency

-- `command.ExpiresAt` must come after the start.
abbrev pub ends_after : Option ℕ → ℕ → Bool
ends_after none start = true
ends_after (some end) start = ltb start end

-- `request_digest` is `scopeBindingRequestDigest`, `sha256_hex` the digest of the key.
module _ (new_id : String → Result AccessError String)
    (request_digest : String → String → Scope → ℕ → Option ℕ → Result AccessError String)
    (sha256_hex : String → String) where
  unfoldable pub prepare_binding : BindAdminScopeCommand → ℕ → Result AccessError ScopeBindingRecord
  unfolding normalize_binding_scope
  prepare_binding command now =
      let admin_user_id = trim_space command.admin_user_id in
      let role_code = trim_space command.role_code in
      let actor_id = trim_space command.actor_id in
      let trace_id = trim_space command.trace_id in
      let start = if eqb command.effective_from 0 then now else command.effective_from in
      normalize_binding_scope command.scope >>= λ scope.
      guard
        (scope_identifier admin_user_id
          && stable_code role_code
          && scope_identifier actor_id
          && len_within 1 128 trace_id
          && len_within 16 128 command.idempotency_key)
        invalid_scope_binding
      >> guard (ends_after command.expires_at start) invalid_scope_binding
      >> new_id "scopebind_"
      >>= λ binding_id. new_id "audit_" >>= λ audit_id. new_id "evt_" >>= λ event_id.
          request_digest admin_user_id role_code scope start command.expires_at >>= λ digest.
          ok (record {
            binding = record {
              binding_id = binding_id;
              admin_user_id = admin_user_id;
              role_code = role_code;
              scope = scope;
              effective_from = start;
              expires_at = command.expires_at;
              authorization_version = 0;
              audit_id = audit_id;
              created_at = now;
            };
            actor_id = actor_id;
            trace_id = trace_id;
            event_id = event_id;
            idempotency = record {
              operation = "bind_admin_scope";
              actor_id = actor_id;
              key_digest = sha256_hex command.idempotency_key;
              request_digest = digest;
              now = now;
            };
          })
