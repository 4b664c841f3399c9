-- ===== src/Product/Laws/Steps.antt =====
-- The tables that committed commands lead to, and what each command does to the rows.
use unified_software_commerc.Prelude.{
  ℕ, String, true, false, Option, none, some, List, [], ◌∷◌, ◌++◌, map, any, find, ◌==◌, Result, ok,
  ◌≡◌, ◌⊎◌, inl, inr, refl, sym, subst, arith, Bool-cases, Option-cases, Result-cases, eq_refl,
}
use unified_software_commerc.Product.Model.{
  ProductError, Product, Client, ClientCredential, ClientAuthentication, StoredClientSession,
  CapabilitySet, RotateCredentialRecord, CreateSessionRecord, ProductReceiptKey, ProductEvent,
}
use unified_software_commerc.Product.Store.{
  ProductTables, ProductReceipt, ClientProofNonce, once, claim_receipt, complete_receipt,
  insert_product_event,
}
use unified_software_commerc.Product.Store.Provisioning.{begin_body, complete_body}
use unified_software_commerc.Product.Store.Credentials.{
  insert_credential, credential_row, rotate_body, revoke_body, revoke_active, revoked_row,
  update_credential, is_credential, revoke_found, update_if, client_exists, current_generation,
}
use unified_software_commerc.Product.Store.Clients.{register_body, insert_client, client_clashes}
use unified_software_commerc.Product.Store.Sessions.{
  create_session, same_nonce, insert_nonce, insert_session, note_use, name_nonce, named_nonce,
  used_row,
}
use unified_software_commerc.Product.Store.Capabilities.{replace_set_body}
use unified_software_commerc.Product.Laws.Credentials.{Keeps, any-append}

-- No nonce is forgotten.
abbrev pub NoncesKept : ProductTables → ProductTables → Type 0
NoncesKept t t' =
    (client_id nonce_digest : String)
    → any (same_nonce client_id nonce_digest) t.nonces ≡ true
    → any (same_nonce client_id nonce_digest) t'.nonces ≡ true

-- What a transaction does to the clients, the credentials and the nonces.
pub data RowsChange (t t' : ProductTables) : Type 0 where
  rows_kept :
      t'.clients ≡ t.clients
      → t'.credentials ≡ t.credentials
      → t'.nonces ≡ t.nonces
      → RowsChange t t'
  client_added :
      (client : Client) (c : ClientCredential)
      → any (client_clashes client) t.clients ≡ false
      → client.client_id ≡ c.client_id
      → t'.clients ≡ t.clients ++ client ∷ []
      → t'.credentials ≡ t.credentials ++ c ∷ []
      → t'.nonces ≡ t.nonces
      → RowsChange t t'
  credential_rotated :
      (product_id client_id : String) (now : ℕ) (c : ClientCredential)
      → client_exists product_id client_id t ≡ true
      → c.product_id ≡ product_id
      → c.client_id ≡ client_id
      → t'.clients ≡ t.clients
      → t'.credentials ≡ revoke_active product_id client_id now t.credentials ++ c ∷ []
      → t'.nonces ≡ t.nonces
      → RowsChange t t'
  credentials_updated :
      (f : ClientCredential → ClientCredential)
      → Keeps f
      → t'.clients ≡ t.clients
      → t'.credentials ≡ map f t.credentials
      → NoncesKept t t'
      → RowsChange t t'

-- A write under a key is a replay, or its body between two writes of the receipts.
pub once-cases :
    {A : Type 0} (encode : A → String) (decode : String → Option A) (key : ProductReceiptKey)
    (body : ProductTables → Result ProductError (A × ProductTables)) (t t' : ProductTables) (a : A)
    → once encode decode key body t ≡ ok (a, t')
    → (t' ≡ t)
      ⊎ ((before after : List ProductReceipt) × (t1 : ProductTables) × (body
              (record t { receipts = before })
            ≡ ok (a, t1))
          × (t' ≡ record t1 { receipts = after }))
unfolding once
once-cases encode decode key body t t' a h = elim (Result-cases (claim_receipt key t.receipts)) [
  | inr (e', e) ↦ absurd (ground arith)
  | inl ((some response, receipts), e) ↦ elim (Option-cases (decode response)) [
    | inl f ↦ absurd (ground arith)
    | inr (value, f) ↦ inl (ground arith)
  ]
  | inl ((none, receipts), e) ↦ elim (Result-cases (body (record t { receipts = receipts }))) [
    | inr (e', f) ↦ absurd (ground arith)
    | inl ((value, t1), f) ↦
        inr (
          receipts,
          complete_receipt key (encode value) t1.receipts,
          t1,
          ground arith,
          ground arith,
        )
  ]
]

pub begin-rows :
    (product : Product) (environments : List String) (event : ProductEvent) (t t' : ProductTables)
    (a : Product)
    → begin_body product environments event t ≡ ok (a, t')
    → RowsChange t t'
unfolding begin_body insert_product_event
begin-rows product environments event t t' a h =
    rows_kept (ground arith) (ground arith) (ground arith)

pub complete-rows :
    (product_id tenant_id : String) (now : ℕ) (event : ProductEvent) (t t' : ProductTables)
    (a : Product)
    → complete_body product_id tenant_id now event t ≡ ok (a, t')
    → RowsChange t t'
unfolding complete_body insert_product_event
complete-rows product_id tenant_id now event t t' a h =
    rows_kept (ground arith) (ground arith) (ground arith)

pub register-rows :
    (client : Client) (c : ClientCredential) (event : ProductEvent) (t t' : ProductTables)
    (a : ClientAuthentication)
    → client.client_id ≡ c.client_id
    → register_body client c event t ≡ ok (a, t')
    → RowsChange t t'
unfolding register_body insert_product_event insert_client insert_credential client_clashes
    credential_row
register-rows client c event t t' a same h =
    client_added (record client { updated_at = client.created_at }) (credential_row c)
      (ground arith) same (ground arith) (ground arith) (ground arith)

pub rotate-rows :
    (r : RotateCredentialRecord) (event : ProductEvent) (t t' : ProductTables)
    (a : ClientCredential)
    → r.credential.product_id ≡ r.product_id
    → r.credential.client_id ≡ r.client_id
    → rotate_body r event t ≡ ok (a, t')
    → RowsChange t t'
unfolding rotate_body insert_product_event insert_credential credential_row current_generation
rotate-rows r event t t' a e e' h =
    credential_rotated r.product_id r.client_id r.now (credential_row r.credential) (ground arith) e
      e' (ground arith) (ground arith) (ground arith)

pub replace-rows :
    (s : CapabilitySet) (v : ℕ) (event : ProductEvent) (t t' : ProductTables) (a : CapabilitySet)
    → replace_set_body s v event t ≡ ok (a, t')
    → RowsChange t t'
unfolding replace_set_body insert_product_event
replace-rows s v event t t' a h = rows_kept (ground arith) (ground arith) (ground arith)

update_if-Keeps :
    (product_id client_id credential_id : String) (change : ClientCredential → ClientCredential)
    → Keeps change
    → Keeps (update_if product_id client_id credential_id change)
unfolding update_if
update_if-Keeps product_id client_id credential_id change k c =
    elim (Bool-cases (is_credential product_id client_id credential_id c)) [
      | inl b ↦
          let same : change c ≡ update_if product_id client_id credential_id change c =
            ground arith in
          subst
            (λ d.
              (d.product_id ≡ c.product_id)
              × (d.client_id ≡ c.client_id)
              × ((d.status ≡ c.status) ⊎ (d.status ≡ "revoked")))
            same (k c)
      | inr b ↦ (ground arith, ground arith, inl (ground arith))
    ]

revoked_row-Keeps : (now : ℕ) → Keeps (revoked_row now)
unfolding revoked_row
revoked_row-Keeps now c = (refl, refl, inr refl)

used_row-Keeps : (now : ℕ) → Keeps (used_row now)
unfolding used_row
used_row-Keeps now c = (refl, refl, inl refl)

pub revoke-rows :
    (product_id client_id credential_id : String) (now : ℕ) (event : ProductEvent)
    (t t' : ProductTables) (a : ClientCredential)
    → revoke_body product_id client_id credential_id now event t ≡ ok (a, t')
    → RowsChange t t'
unfolding revoke_body revoke_found insert_product_event update_credential
revoke-rows product_id client_id credential_id now event t t' a h =
    elim (Option-cases (find (is_credential product_id client_id credential_id) t.credentials)) [
      | inl e ↦ absurd (ground arith)
      | inr (found, e) ↦ elim (Bool-cases (found.status == "revoked")) [
        | inl b ↦ rows_kept (ground arith) (ground arith) (ground arith)
        | inr b ↦
            credentials_updated
              (update_if found.product_id found.client_id found.credential_id (revoked_row now))
              (update_if-Keeps _ _ _ (revoked_row now) (revoked_row-Keeps now)) (ground arith)
              (ground arith)
              (λ c d there.
                let same : t'.nonces ≡ t.nonces = ground arith in
                subst (λ ns. any (same_nonce c d) ns ≡ true) (sym same) there)
      ]
    ]

name_nonce-kept :
    (client_id nonce_digest session_id c d : String) (ns : List ClientProofNonce)
    → any (same_nonce c d) ns ≡ true
    → any (same_nonce c d) (name_nonce client_id nonce_digest session_id ns) ≡ true
unfolding name_nonce same_nonce named_nonce
name_nonce-kept client_id nonce_digest session_id c d [] h = absurd (ground arith)
name_nonce-kept client_id nonce_digest session_id c d (n ∷ ns) h =
    elim (Bool-cases (same_nonce client_id nonce_digest n)) [
      | inl b ↦ ground (arith, name_nonce-kept client_id nonce_digest session_id c d ns)
      | inr b ↦ ground (arith, name_nonce-kept client_id nonce_digest session_id c d ns)
    ]

last-same :
    (c d : String) (ns : List ClientProofNonce) (n : ClientProofNonce)
    → (n.client_id == c) ≡ true
    → (n.nonce_digest == d) ≡ true
    → any (same_nonce c d) (ns ++ n ∷ []) ≡ true
unfolding same_nonce
last-same c d [] n h k = ground arith
last-same c d (m ∷ ns) n h k = ground (arith, last-same c d ns n h k)

-- A session that is stored: its nonce was new, and is there afterwards.
pub session-nonce :
    (r : CreateSessionRecord) (event : ProductEvent) (t t' : ProductTables)
    (s : StoredClientSession)
    → create_session r event t ≡ ok (s, t')
    → (any (same_nonce r.session.client_id r.nonce_digest) t.nonces ≡ false)
      × (any (same_nonce r.session.client_id r.nonce_digest) t'.nonces ≡ true)
unfolding create_session insert_nonce insert_session note_use insert_product_event
session-nonce r event t t' s h =
    let row : ClientProofNonce = record {
      client_id = r.session.client_id;
      nonce_digest = r.nonce_digest;
      request_digest = r.request_digest;
      session_id = none;
      expires_at = r.session.expires_at;
      created_at = r.session.created_at;
    } in
    let after : t'.nonces
        ≡ name_nonce r.session.client_id r.nonce_digest r.session.session_id
            (t.nonces ++ row ∷ []) =
      ground arith in
    (
      ground arith,
      subst (λ ns. any (same_nonce r.session.client_id r.nonce_digest) ns ≡ true) (sym after)
          (name_nonce-kept r.session.client_id r.nonce_digest r.session.session_id
            r.session.client_id r.nonce_digest (t.nonces ++ row ∷ [])
            (last-same r.session.client_id r.nonce_digest t.nonces row (eq_refl r.session.client_id)
              (eq_refl r.nonce_digest))),
    )

pub session-rows :
    (r : CreateSessionRecord) (event : ProductEvent) (t t' : ProductTables)
    (s : StoredClientSession)
    → create_session r event t ≡ ok (s, t')
    → RowsChange t t'
unfolding create_session insert_nonce insert_session note_use insert_product_event update_credential
session-rows r event t t' s h =
    let row : ClientProofNonce = record {
      client_id = r.session.client_id;
      nonce_digest = r.nonce_digest;
      request_digest = r.request_digest;
      session_id = none;
      expires_at = r.session.expires_at;
      created_at = r.session.created_at;
    } in
    let after : t'.nonces
        ≡ name_nonce r.session.client_id r.nonce_digest r.session.session_id
            (t.nonces ++ row ∷ []) =
      ground arith in
    credentials_updated
      (update_if r.session.product_id r.session.client_id r.session.credential_id
        (used_row r.session.created_at))
      (update_if-Keeps _ _ _ (used_row r.session.created_at) (used_row-Keeps r.session.created_at))
      (ground arith) (ground arith)
      (λ c d there.
        subst (λ ns. any (same_nonce c d) ns ≡ true) (sym after)
          (name_nonce-kept r.session.client_id r.nonce_digest r.session.session_id c d
            (t.nonces ++ row ∷ []) (any-append (same_nonce c d) t.nonces (row ∷ []) there)))
