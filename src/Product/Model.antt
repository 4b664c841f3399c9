-- ===== src/Product/Model.antt =====
-- Products, their clients, credentials, sessions and capability sets:
-- platform/backend/internal/modules/product/product.go. Integers are Go's `int` and `int64` as bit
-- patterns, times are numbers, the zero time is 0.
use unified_software_commerc.Prelude.{ℕ, String, Bool, Option, List}

pub data ProductError : Type 0 where
  product_not_found product_conflict invalid_product_command : ProductError
  product_idempotency_conflict invalid_provisioning_state product_unavailable : ProductError
  client_unavailable credential_unavailable credential_version_conflict : ProductError
  nonce_replayed session_unavailable capability_version_conflict untrusted_change_plan :
      ProductError
  -- an error of the database, of a generator or of the encoding
  product_fault : ℕ → ProductError

pub record Product : Type 0 where
  pub product_id : String
  pub product_code : String
  pub name : String
  pub status : String
  pub provisioning_state : String
  pub official_tenant_id : String
  pub context_version : ℕ
  pub created_at : ℕ
  pub updated_at : ℕ
  pub audit_id : String

pub record ProductContext : Type 0 where
  pub product_id : String
  pub product_code : String
  pub environment : String
  pub context_version : ℕ

pub record Client : Type 0 where
  pub client_id : String
  pub product_id : String
  pub environment : String
  pub status : String
  pub context_version : ℕ
  pub created_at : ℕ
  pub updated_at : ℕ

pub record ClientCredential : Type 0 where
  pub credential_id : String
  pub client_id : String
  pub product_id : String
  pub proof_type : String
  pub proof_digest : String
  pub public_key : String
  pub generation : ℕ
  pub status : String
  pub not_before : ℕ
  pub expires_at : ℕ
  pub revoked_at : Option ℕ
  pub last_used_at : Option ℕ
  pub created_at : ℕ
  pub audit_id : String

pub record ClientAuthentication : Type 0 where
  pub client : Client
  pub credential : ClientCredential
  pub context : ProductContext

pub record ClientProof : Type 0 where
  pub proof_type : String
  pub value : String
  pub payload : List ℕ
  pub signature : List ℕ

pub record StoredClientSession : Type 0 where
  pub session_id : String
  pub token_digest : String
  pub product_id : String
  pub environment : String
  pub application_id : String
  pub tenant_id : String
  pub client_id : String
  pub credential_id : String
  pub client_version : String
  pub product_context_version : ℕ
  pub application_context_version : ℕ
  pub tenant_context_version : ℕ
  pub created_at : ℕ
  pub expires_at : ℕ
  pub revoked_at : Option ℕ

pub record IssuedClientSession : Type 0 where
  pub session : StoredClientSession
  pub token : String

pub record ResolvedSessionScope : Type 0 where
  pub product_id : String
  pub environment : String
  pub application_id : String
  pub tenant_id : String
  pub application_context_version : ℕ
  pub tenant_context_version : ℕ

pub record CapabilityItem : Type 0 where
  pub capability_id : String
  pub enabled : Bool
  pub policy : String
  pub source_package_id : String
  pub source_package_version : String

pub record CapabilitySet : Type 0 where
  pub capability_set_id : String
  pub product_id : String
  pub version : ℕ
  pub source_plan_id : String
  pub catalog_revision : String
  pub catalog_snapshot_sha256 : String
  pub content_sha256 : String
  pub created_by : String
  pub created_at : ℕ
  pub items : List CapabilityItem
  pub audit_id : String

pub record TrustedCapabilityChangePlan : Type 0 where
  pub product_id : String
  pub source_plan_id : String
  pub catalog_revision : String
  pub catalog_snapshot_sha256 : String
  pub items : List CapabilityItem

-- `Idempotency`
pub record ProductReceiptKey : Type 0 where
  pub operation : String
  pub actor_id : String
  pub scope_id : String
  pub key_digest : String
  pub request_digest : String

-- The values of `RedactedSummary`.
pub data SummaryEntry : Type 0 where
  summary_text : String → SummaryEntry
  summary_number : ℕ → SummaryEntry

-- `EventPayload`
pub record ProductEventPayload : Type 0 where
  pub audit_id : String
  pub occurred_at : ℕ
  pub actor_id : String
  pub permission : String
  pub scope_type : String
  pub scope_id : String
  pub product_id : String
  pub tenant_id : String
  pub action : String
  pub target_type : String
  pub target_id : String
  pub result : String
  pub reason_code : String
  pub trace_id : String
  pub risk_level : String
  pub redacted_summary : List (String × SummaryEntry)

-- `OutboxEvent`
pub record ProductEvent : Type 0 where
  pub event_id : String
  pub aggregate_id : String
  pub event_type : String
  pub payload : ProductEventPayload
  pub occurred_at : ℕ

pub record RotateCredentialRecord : Type 0 where
  pub product_id : String
  pub client_id : String
  pub expected_generation : ℕ
  pub credential : ClientCredential
  pub now : ℕ

pub record CreateSessionRecord : Type 0 where
  pub authentication : ClientAuthentication
  pub session : StoredClientSession
  pub nonce_digest : String
  pub request_digest : String
