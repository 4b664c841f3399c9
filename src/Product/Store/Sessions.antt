-- ===== src/Product/Store/Sessions.antt =====
-- The sessions of clients: `CreateClientSession`, `FindClientSessionByTokenDigest` and
-- `RevokeClientSession` of platform/backend/internal/modules/product/postgres/repository.go.
use unified_software_commerc.Prelude.{
  ℕ, String, Bool, true, false, not, ◌&&◌, ◌||◌, none, some, List, [], ◌∷◌, ◌++◌, map, find, any,
  ltb, ◌==◌, if◌then◌else◌, Result, ok, err, ◌>>=◌, ◌>>◌, guard, or_err,
}
use unified_software_commerc.Prelude.Int64.{lt_one}
use unified_software_commerc.Product.Model.{
  ProductError, product_not_found, product_conflict, client_unavailable, nonce_replayed,
  session_unavailable, product_fault, ClientCredential, StoredClientSession, CreateSessionRecord,
  ProductEvent,
}
use unified_software_commerc.Product.Store.{ProductTables, ClientProofNonce, insert_product_event}
use unified_software_commerc.Product.Store.Credentials.{update_credential}
use unified_software_commerc.Product.Store.Clients.{joined_client, valid_at}

unfoldable pub same_nonce : String → String → ClientProofNonce → Bool
same_nonce client_id nonce_digest n = n.client_id == client_id && n.nonce_digest == nonce_digest

-- `INSERT INTO product.client_proof_nonces … ON CONFLICT DO NOTHING`, which must insert a row.
unfoldable pub insert_nonce :
    CreateSessionRecord → ProductTables → Result ProductError ProductTables
unfolding same_nonce
insert_nonce r t =
    guard (not (any (same_nonce r.session.client_id r.nonce_digest) t.nonces)) nonce_replayed
    >> ok (record t {
      nonces =
          t.nonces
          ++ record {
            client_id = r.session.client_id;
            nonce_digest = r.nonce_digest;
            request_digest = r.request_digest;
            session_id = none;
            expires_at = r.session.expires_at;
            created_at = r.session.created_at;
          }
            ∷ [];
    })

unfoldable pub session_clashes : StoredClientSession → StoredClientSession → Bool
session_clashes new s = s.session_id == new.session_id || s.token_digest == new.token_digest

unfoldable pub session_checks : StoredClientSession → Bool
unfolding lt_one
session_checks s =
    not (lt_one s.product_context_version)
    && not (lt_one s.application_context_version)
    && not (lt_one s.tenant_context_version)
    && ltb s.created_at s.expires_at

unfoldable pub insert_session :
    StoredClientSession → ProductTables → Result ProductError ProductTables
unfolding session_clashes session_checks
insert_session s t =
    guard (session_checks s) (product_fault 4)
    >> guard (not (any (session_clashes s) t.sessions)) product_conflict
    >> ok (record t { sessions = t.sessions ++ record s { revoked_at = none } ∷ [] })

unfoldable pub named_nonce : String → ClientProofNonce → ClientProofNonce
named_nonce session_id n = record n { session_id = some session_id }

unfoldable pub name_nonce : String → String → String → List ClientProofNonce → List ClientProofNonce
unfolding same_nonce named_nonce
name_nonce client_id nonce_digest session_id nonces =
    map (λ n. if same_nonce client_id nonce_digest n then named_nonce session_id n else n) nonces

unfoldable pub used_row : ℕ → ClientCredential → ClientCredential
used_row now c = record c { last_used_at = some now }

-- The two updates after the insertion of a session.
unfoldable pub note_use : CreateSessionRecord → ProductTables → ProductTables
unfolding name_nonce used_row update_credential
note_use r t = record t {
  nonces = name_nonce r.session.client_id r.nonce_digest r.session.session_id t.nonces;
  credentials =
      update_credential r.session.product_id r.session.client_id r.session.credential_id
        (used_row r.session.created_at) t.credentials;
}

-- `SELECT EXISTS (…)`
unfoldable pub client_may_start : CreateSessionRecord → ProductTables → Bool
unfolding joined_client valid_at
client_may_start r t =
    elim (joined_client r.authentication.client.client_id
      (valid_at r.authentication.credential.credential_id r.session.created_at) (λ c. c.environment)
      client_unavailable t) [
        | err e ↦ false
        | ok row ↦ row.client.product_id == r.authentication.client.product_id
      ]

unfoldable pub create_session :
    CreateSessionRecord
    → ProductEvent
    → ProductTables
    → Result ProductError (StoredClientSession × ProductTables)
unfolding client_may_start insert_nonce insert_session note_use insert_product_event
create_session r event t =
    guard (client_may_start r t) client_unavailable
    >> insert_nonce r t
    >>= insert_session r.session
    >>= λ t1. insert_product_event event (note_use r t1) >>= λ t2. ok (r.session, t2)

unfoldable pub unexpired_session : String → ℕ → StoredClientSession → Bool
unexpired_session token_digest now s =
    s.token_digest == token_digest
    && (elim s.revoked_at [ none ↦ true | some at ↦ false ])
    && ltb now s.expires_at

unfoldable pub find_client_session :
    String → ℕ → ProductTables → Result ProductError StoredClientSession
unfolding unexpired_session joined_client
find_client_session token_digest now t =
    or_err (find (unexpired_session token_digest now) t.sessions) session_unavailable >>= λ s.
    joined_client s.client_id (λ c. c.credential_id == s.credential_id) (λ c. s.environment)
      session_unavailable t
    >>= λ row. guard (row.client.product_id == s.product_id) session_unavailable >> ok s

-- `COALESCE(revoked_at, $2)`
unfoldable pub end_session : ℕ → StoredClientSession → StoredClientSession
end_session now s = elim s.revoked_at [ none ↦ record s { revoked_at = some now } | some at ↦ s ]

unfoldable pub revoke_client_session :
    String → ℕ → ProductTables → Result ProductError ProductTables
unfolding end_session
revoke_client_session session_id now t =
    guard (any (λ s. s.session_id == session_id) t.sessions) product_not_found
    >> ok (record t {
      sessions = map (λ s. if s.session_id == session_id then end_session now s else s) t.sessions;
    })
