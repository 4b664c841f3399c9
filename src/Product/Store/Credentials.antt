-- ===== src/Product/Store/Credentials.antt =====
-- The credentials of a client: `insertCredential`, `RotateClientCredential` and
-- `RevokeClientCredential` of platform/backend/internal/modules/product/postgres/repository.go.
use unified_software_commerc.Prelude.{
  ℕ, ◌^◌, String, Bool, not, ◌&&◌, ◌||◌, Option, none, some, List, [], ◌∷◌, ◌++◌, map, find, any,
  ltb, eqb, ◌==◌, if◌then◌else◌, Result, ok, ◌>>=◌, ◌>>◌, guard, or_err,
}
use unified_software_commerc.Product.Model.{
  ProductError, product_not_found, product_conflict, credential_version_conflict, product_fault,
  ClientCredential, RotateCredentialRecord, ProductEvent,
}
use unified_software_commerc.Product.Store.{ProductTables, insert_product_event}

unfoldable pub of_client : String → String → ClientCredential → Bool
of_client product_id client_id c = c.product_id == product_id && c.client_id == client_id

-- The keys of `product_client_credentials`.
unfoldable pub credential_clashes : ClientCredential → ClientCredential → Bool
credential_clashes new c =
    c.credential_id == new.credential_id
    || (c.client_id == new.client_id && eqb c.generation new.generation)

-- The checks of the table: an INTEGER above zero, the material of the proof and the period.
unfoldable pub credential_checks : ClientCredential → Bool
credential_checks c =
    not (eqb c.generation 0)
    && ltb c.generation (2 ^ 31)
    && ((c.proof_type == "hmac_sha256_v1" && not (c.proof_digest == "") && c.public_key == "")
        || (c.proof_type == "ed25519_signature_v1"
            && c.proof_digest == ""
            && not (c.public_key == "")))
    && ltb c.not_before c.expires_at

-- The columns of a credential; the audit identifier is none.
unfoldable pub credential_row : ClientCredential → ClientCredential
credential_row c = record c { audit_id = "" }

unfoldable pub insert_credential :
    ClientCredential → ProductTables → Result ProductError ProductTables
unfolding credential_clashes credential_checks credential_row
insert_credential c t =
    guard (credential_checks c) (product_fault 3)
    >> guard (not (any (credential_clashes c) t.credentials)) product_conflict
    >> ok (record t { credentials = t.credentials ++ credential_row c ∷ [] })

later_generation : ℕ → Option ℕ → ℕ
later_generation g none = g
later_generation g (some h) = if ltb g h then h else g

-- `ORDER BY c.generation DESC LIMIT 1`
unfoldable pub latest_generation : String → String → List ClientCredential → Option ℕ
unfolding of_client later_generation
latest_generation product_id client_id [] = none
latest_generation product_id client_id (c ∷ rest) =
    let others = latest_generation product_id client_id rest in
    if of_client product_id client_id c then some (later_generation c.generation others) else others

unfoldable pub revoked_row : ℕ → ClientCredential → ClientCredential
revoked_row now c = record c { status = "revoked"; revoked_at = some now }

unfoldable pub revoke_if_active : String → String → ℕ → ClientCredential → ClientCredential
unfolding of_client revoked_row
revoke_if_active product_id client_id now c =
    if of_client product_id client_id c && c.status == "active" then revoked_row now c else c

-- `UPDATE … SET status='revoked' … AND status='active'`
unfoldable pub revoke_active : String → String → ℕ → List ClientCredential → List ClientCredential
unfolding revoke_if_active
revoke_active product_id client_id now credentials =
    map (revoke_if_active product_id client_id now) credentials

-- The join with `product_clients`.
unfoldable pub client_exists : String → String → ProductTables → Bool
client_exists product_id client_id t =
    any (λ c. c.client_id == client_id && c.product_id == product_id) t.clients

unfoldable pub current_generation : String → String → ProductTables → Result ProductError ℕ
unfolding latest_generation client_exists
current_generation product_id client_id t =
    guard (client_exists product_id client_id t) product_not_found
    >> or_err (latest_generation product_id client_id t.credentials) product_not_found

unfoldable pub rotate_body :
    RotateCredentialRecord
    → ProductEvent
    → ProductTables
    → Result ProductError (ClientCredential × ProductTables)
unfolding current_generation revoke_active insert_credential insert_product_event
rotate_body r event t = current_generation r.product_id r.client_id t >>= λ current.
    guard (eqb current r.expected_generation) credential_version_conflict
    >> insert_credential r.credential
        (record t { credentials = revoke_active r.product_id r.client_id r.now t.credentials })
    >>= insert_product_event event
    >>= λ t'. ok (r.credential, t')

unfoldable pub is_credential : String → String → String → ClientCredential → Bool
is_credential product_id client_id credential_id c =
    c.product_id == product_id && c.client_id == client_id && c.credential_id == credential_id

unfoldable pub update_if :
    String
    → String
    → String
    → (ClientCredential → ClientCredential)
    → ClientCredential
    → ClientCredential
unfolding is_credential
update_if product_id client_id credential_id change c =
    if is_credential product_id client_id credential_id c then change c else c

unfoldable pub update_credential :
    String
    → String
    → String
    → (ClientCredential → ClientCredential)
    → List ClientCredential
    → List ClientCredential
unfolding update_if
update_credential product_id client_id credential_id change credentials =
    map (update_if product_id client_id credential_id change) credentials

-- The credential that is found, revoked unless it was before.
unfoldable pub revoke_found :
    ℕ → ClientCredential → List ClientCredential → ClientCredential × List ClientCredential
unfolding revoked_row update_credential
revoke_found now found credentials = if found.status == "revoked" then (found, credentials) else (
  revoked_row now found,
  update_credential found.product_id found.client_id found.credential_id (revoked_row now)
      credentials,
)

unfoldable pub revoke_body :
    String
    → String
    → String
    → ℕ
    → ProductEvent
    → ProductTables
    → Result ProductError (ClientCredential × ProductTables)
unfolding is_credential revoke_found insert_product_event
revoke_body product_id client_id credential_id now event t =
    or_err (find (is_credential product_id client_id credential_id) t.credentials) product_not_found
    >>= λ found.
        let done = revoke_found now found t.credentials in
        insert_product_event event (record t { credentials = done.1 }) >>= λ t'.
        ok (record (done.0) { audit_id = event.payload.audit_id }, t')
