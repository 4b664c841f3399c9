-- ===== src/Product/Store/Clients.antt =====
-- The clients of a product: `RegisterClient` and `ResolveClientAuthentication` of
-- platform/backend/internal/modules/product/postgres/repository.go.
use unified_software_commerc.Prelude.{
  ℕ, ◌+◌, ◌-◌, ◌%◌, ◌^◌, String, Bool, not, ◌&&◌, [], ◌∷◌, ◌++◌, find, any, ltb, leb, ◌==◌, Result,
  ok, ◌>>=◌, ◌>>◌, guard, or_err,
}
use unified_software_commerc.Product.Model.{
  ProductError, product_not_found, product_conflict, product_unavailable, credential_unavailable,
  Product, ProductContext, Client, ClientCredential, ClientAuthentication, ProductEvent,
}
use unified_software_commerc.Product.Store.{ProductTables, ProductEnvironment, insert_product_event}
use unified_software_commerc.Product.Store.Provisioning.{get_product}
use unified_software_commerc.Product.Store.Credentials.{insert_credential}

-- `compositeContextVersion`
unfoldable pub composite_context_version : ℕ → ℕ → ℕ
composite_context_version product_version environment_version =
    (product_version + environment_version - 1) % 2 ^ 64

unfoldable pub client_clashes : Client → Client → Bool
client_clashes new c = c.client_id == new.client_id

unfoldable pub insert_client : Client → ProductTables → Result ProductError ProductTables
unfolding client_clashes
insert_client client t =
    guard (not (any (client_clashes client) t.clients)) product_conflict
    >> ok
        (record t { clients = t.clients ++ record client { updated_at = client.created_at } ∷ [] })

-- The context that a client of the environment works in.
unfoldable pub context_of : Product → ProductEnvironment → Client → ProductContext
unfolding composite_context_version
context_of product environment client = record {
  product_id = client.product_id;
  product_code = product.product_code;
  environment = client.environment;
  context_version = composite_context_version product.context_version environment.context_version;
}

unfoldable pub find_environment :
    String → String → ProductTables → Result ProductError ProductEnvironment
find_environment product_id environment t =
    or_err (find (λ e. e.product_id == product_id && e.environment == environment) t.environments)
      product_not_found

unfoldable pub register_body :
    Client
    → ClientCredential
    → ProductEvent
    → ProductTables
    → Result ProductError (ClientAuthentication × ProductTables)
unfolding get_product find_environment insert_client insert_credential insert_product_event
    context_of
register_body client credential event t = get_product client.product_id t >>= λ product.
    find_environment client.product_id client.environment t >>= λ environment.
    guard
      (product.status == "active"
        && environment.status == "active"
        && not (product.provisioning_state == "failed"))
      product_unavailable
    >> insert_client client t
    >>= insert_credential credential
    >>= insert_product_event event
    >>= λ t'. ok (
      record {
        client = client;
        credential = credential;
        context = context_of product environment client;
      },
      t',
    )

-- A row of the join of a client with its credential, product and environment.
pub record JoinedClient : Type 0 where
  pub client : Client
  pub credential : ClientCredential
  pub product : Product
  pub environment : ProductEnvironment

unfoldable pub active_client : String → Client → Bool
active_client client_id c = c.client_id == client_id && c.status == "active"

unfoldable pub active_credential : Client → ClientCredential → Bool
active_credential client c =
    c.client_id == client.client_id && c.product_id == client.product_id && c.status == "active"

unfoldable pub ready_product : String → Product → Bool
ready_product product_id p =
    p.product_id == product_id && p.status == "active" && p.provisioning_state == "ready"

unfoldable pub active_environment : String → String → ProductEnvironment → Bool
active_environment product_id environment e =
    e.product_id == product_id && e.environment == environment && e.status == "active"

-- The row that is active throughout: the client, a credential that passes the test, the product and
-- the environment that the client selects.
unfoldable pub joined_client :
    String
    → (ClientCredential → Bool)
    → (Client → String)
    → ProductError
    → ProductTables
    → Result ProductError JoinedClient
unfolding active_client active_credential ready_product active_environment
joined_client client_id test place failure t =
    or_err (find (active_client client_id) t.clients) failure >>= λ client.
    or_err (find (λ c. active_credential client c && test c) t.credentials) failure
    >>= λ credential.
        or_err (find (ready_product client.product_id) t.products) failure >>= λ product.
        or_err (find (active_environment client.product_id (place client)) t.environments) failure
        >>= λ environment. ok (record {
          client = client;
          credential = credential;
          product = product;
          environment = environment;
        })

-- `c.credential_id=$2 AND c.not_before <= $3 AND c.expires_at > $3`
unfoldable pub valid_at : String → ℕ → ClientCredential → Bool
valid_at credential_id now c =
    c.credential_id == credential_id && leb c.not_before now && ltb now c.expires_at

unfoldable pub resolve_client_authentication :
    String → String → ℕ → ProductTables → Result ProductError ClientAuthentication
unfolding valid_at joined_client context_of
resolve_client_authentication client_id credential_id now t =
    joined_client client_id (valid_at credential_id now) (λ c. c.environment) credential_unavailable
      t
    >>= λ row. ok (record {
      client = row.client;
      credential = row.credential;
      context = context_of row.product row.environment row.client;
    })
