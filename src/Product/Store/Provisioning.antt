-- ===== src/Product/Store/Provisioning.antt =====
-- The products themselves: `BeginProvisioning`, `CompleteProvisioning`, `GetProduct`, `ListProducts`
-- of platform/backend/internal/modules/product/postgres/repository.go.
use unified_software_commerc.Prelude.{
  ℕ, ◌+◌, ◌^◌, String, Bool, not, ◌&&◌, ◌||◌, List, [], ◌∷◌, ◌++◌, map, find, any, ltb, ◌==◌,
  if◌then◌else◌, Result, ok, err, ◌>>=◌, ◌>>◌, guard, or_err,
}
use unified_software_commerc.Product.Model.{
  ProductError, product_not_found, product_conflict, invalid_provisioning_state, product_fault,
  Product, ProductEvent,
}
use unified_software_commerc.Product.Store.{ProductTables, ProductEnvironment, insert_product_event}

unfoldable pub product_clashes : Product → Product → Bool
product_clashes new p = p.product_id == new.product_id || p.product_code == new.product_code

-- The columns of a product that begins: it is pending and has no tenant.
unfoldable pub product_row : Product → Product
product_row p = record p {
  provisioning_state = "pending";
  official_tenant_id = "";
  updated_at = p.created_at;
  audit_id = "";
}

insert_environments :
    String → List String → List ProductEnvironment → Result ProductError (List ProductEnvironment)
insert_environments product_id [] rows = ok rows
insert_environments product_id (environment ∷ rest) rows =
    guard (not (any (λ e. e.product_id == product_id && e.environment == environment) rows))
      product_conflict
    >> insert_environments product_id rest (
        rows
        ++ record {
          product_id = product_id;
          environment = environment;
          status = "active";
          context_version = 1;
        }
          ∷ [])

unfoldable pub begin_body :
    Product
    → List String
    → ProductEvent
    → ProductTables
    → Result ProductError (Product × ProductTables)
unfolding product_clashes product_row insert_environments insert_product_event
begin_body product environments event t =
    guard (not (any (product_clashes product) t.products)) product_conflict
    >> insert_environments product.product_id environments t.environments
    >>= λ rows.
        insert_product_event event
          (record t { products = t.products ++ product_row product ∷ []; environments = rows })
        >>= λ t'. ok (product, t')

-- The row after `UPDATE … SET provisioning_state='ready'`.
unfoldable pub ready_row : String → ℕ → Product → Product
ready_row official_tenant_id now p = record p {
  provisioning_state = "ready";
  official_tenant_id = official_tenant_id;
  context_version = p.context_version + 1;
  updated_at = now;
}

unfoldable pub update_product : String → (Product → Product) → List Product → List Product
update_product product_id change products =
    map (λ p. if p.product_id == product_id then change p else p) products

-- The `switch` on the state of the product; a version beyond BIGINT is refused by the database.
unfoldable pub provision :
    String → String → ℕ → Product → List Product → Result ProductError (Product × List Product)
unfolding ready_row update_product
provision product_id official_tenant_id now current products =
    if current.provisioning_state == "pending"
    then guard (ltb (current.context_version + 1) (2 ^ 63)) (product_fault 2)
      >> ok (
        ready_row official_tenant_id now current,
        update_product product_id (ready_row official_tenant_id now) products,
      )
    else if current.provisioning_state == "ready"
    then guard (current.official_tenant_id == official_tenant_id) invalid_provisioning_state
      >> ok (current, products)
    else err invalid_provisioning_state

unfoldable pub get_product : String → ProductTables → Result ProductError Product
get_product product_id t =
    or_err (find (λ p. p.product_id == product_id) t.products) product_not_found

unfoldable pub complete_body :
    String
    → String
    → ℕ
    → ProductEvent
    → ProductTables
    → Result ProductError (Product × ProductTables)
unfolding provision get_product insert_product_event
complete_body product_id official_tenant_id now event t = get_product product_id t >>= λ current.
    provision product_id official_tenant_id now current t.products >>= λ done.
    insert_product_event event (record t { products = done.1 }) >>= λ t'.
    ok (record (done.0) { audit_id = event.payload.audit_id }, t')
