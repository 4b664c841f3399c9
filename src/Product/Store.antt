-- ===== src/Product/Store.antt =====
-- The tables of the products: platform/backend/internal/modules/product/postgres/repository.go, with
-- the keys of platform/backend/migrations/000007_product.up.sql. A transaction is one step: it ends
-- with the tables it wrote, or with an error and the tables as they were.
use unified_software_commerc.Prelude.{
  ℕ, String, Bool, not, ◌&&◌, Option, none, some, List, [], ◌∷◌, ◌++◌, map, find, any, ◌==◌,
  if◌then◌else◌, Result, ok, err, ◌>>=◌, ◌>>◌, guard, or_err,
}
use unified_software_commerc.Product.Model.{
  ProductError, product_conflict, product_idempotency_conflict, product_fault, Product, Client,
  ClientCredential, StoredClientSession, CapabilityItem, CapabilitySet, ProductReceiptKey,
  ProductEvent,
}
pub mod Provisioning
pub mod Clients
pub mod Credentials
pub mod Sessions
pub mod Capabilities

-- A row of `product_environments`.
pub record ProductEnvironment : Type 0 where
  pub product_id : String
  pub environment : String
  pub status : String
  pub context_version : ℕ

-- A row of `client_proof_nonces`.
pub record ClientProofNonce : Type 0 where
  pub client_id : String
  pub nonce_digest : String
  pub request_digest : String
  pub session_id : Option String
  pub expires_at : ℕ
  pub created_at : ℕ

-- A row of `product_capability_items`.
pub record CapabilityRow : Type 0 where
  pub capability_set_id : String
  pub product_id : String
  pub item : CapabilityItem

-- A row of `idempotency_records`; a response that is NULL is empty.
pub record ProductReceipt : Type 0 where
  pub key : ProductReceiptKey
  pub state : String
  pub response_json : String

pub record ProductTables : Type 0 where
  pub products : List Product
  pub environments : List ProductEnvironment
  pub clients : List Client
  pub credentials : List ClientCredential
  pub nonces : List ClientProofNonce
  pub sessions : List StoredClientSession
  pub capability_sets : List CapabilitySet
  pub capability_items : List CapabilityRow
  pub receipts : List ProductReceipt
  pub outbox : List ProductEvent

-- `insertOutbox`
unfoldable pub insert_product_event :
    ProductEvent → ProductTables → Result ProductError ProductTables
insert_product_event event t =
    guard (not (any (λ e. e.event_id == event.event_id) t.outbox)) (product_fault 0)
    >> ok (record t { outbox = t.outbox ++ event ∷ [] })

unfoldable pub same_claim : ProductReceiptKey → ProductReceipt → Bool
same_claim key r =
    r.key.operation == key.operation
    && r.key.actor_id == key.actor_id
    && r.key.scope_id == key.scope_id
    && r.key.key_digest == key.key_digest

-- `claimIdempotency`: the response of a receipt that is complete, or a pending receipt.
unfoldable pub claim_receipt :
    ProductReceiptKey
    → List ProductReceipt
    → Result ProductError (Option String × List ProductReceipt)
unfolding same_claim
claim_receipt key receipts = elim (find (same_claim key) receipts) [
  | none ↦ ok (none, receipts ++ record { key = key; state = "pending"; response_json = "" } ∷ [])
  | some r ↦
      guard (r.key.request_digest == key.request_digest) product_idempotency_conflict
      >> guard (r.state == "completed" && not (r.response_json == "")) product_conflict
      >> ok (some r.response_json, receipts)
]

-- `completeIdempotency`
unfoldable pub complete_receipt :
    ProductReceiptKey → String → List ProductReceipt → List ProductReceipt
unfolding same_claim
complete_receipt key response receipts =
    map
      (λ r.
        if same_claim key r then record r { state = "completed"; response_json = response } else r)
      receipts

-- A write under a key: the frame that the commands of the repository share.
unfoldable pub once :
    {A : Type 0}
    → (A → String)
    → (String → Option A)
    → ProductReceiptKey
    → (ProductTables → Result ProductError (A × ProductTables))
    → ProductTables
    → Result ProductError (A × ProductTables)
unfolding claim_receipt complete_receipt
once encode decode key body t = claim_receipt key t.receipts >>= λ claimed. elim claimed.0 [
  | some response ↦ or_err (decode response) (product_fault 1) >>= λ value. ok (value, t)
  | none ↦ body (record t { receipts = claimed.1 }) >>= λ done.
      ok (
        done.0,
        record (done.1) { receipts = complete_receipt key (encode done.0) done.1.receipts },
      )
]
