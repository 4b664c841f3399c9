-- ===== src/Product/Laws/Clients.antt =====
-- What any commands keep of the clients: one active credential, and every nonce.
use unified_software_commerc.Prelude.{
  String, true, false, ◌&&◌, List, [], ◌∷◌, ◌++◌, any, ◌==◌, ok, ◌≡◌, ◌≢◌, inl, inr, sym, ◌∙◌,
  subst, arith, All-append, Bool-cases, Result-cases, eq_refl,
}
use unified_software_commerc.Product.Model.{
  ProductError, client_unavailable, credential_unavailable, ClientAuthentication, Client,
  ClientCredential, StoredClientSession, IssuedClientSession, CreateSessionRecord, ProductEvent,
}
use unified_software_commerc.Product.Store.{ProductTables}
use unified_software_commerc.Product.Store.Credentials.{
  client_exists, revoke_active, revoke_if_active,
}
use unified_software_commerc.Product.Store.Clients.{client_clashes, resolve_client_authentication}
use unified_software_commerc.Product.Store.Sessions.{create_session, same_nonce}
use unified_software_commerc.Product.Service.{ProductServices}
use unified_software_commerc.Product.Service.Sessions.{
  CreateClientSessionCommand, is_replay, deny, refuse_session, store_session, prepare_session,
  new_session, start_session, create_client_session, scope_agrees, valid_session_command,
}
use unified_software_commerc.Product.Laws.Credentials.{
  OneActive, Registered, Keeps-OneActive, Keeps-Registered, append-OneActive, more-Registered,
  Registered-apart, revoke_active-apart, revoke_if_active-Keeps,
}
use unified_software_commerc.Product.Laws.Steps.{
  RowsChange, rows_kept, client_added, credential_rotated, credentials_updated, NoncesKept,
  session-nonce,
}
use unified_software_commerc.Product.Laws.Commands.{
  ProductCommands, at_first, begun, provisioned, registered, rotated, revoked, session_tried,
  session_revoked, set_replaced, begin_provisioning-rows, complete_provisioning-rows,
  register_client-rows, rotate_client_credential-rows, revoke_client_credential-rows,
  create_client_session-rows, revoke_session-rows, replace_capability_set-rows,
}

-- Each client has at most one active credential, and each credential a client.
abbrev pub SoundCredentials : ProductTables → Type 0
SoundCredentials t = OneActive t.credentials × Registered t.clients t.credentials

last-Registered :
    (clients : List Client) (k : Client) (c : ClientCredential)
    → k.client_id ≡ c.client_id
    → any (λ x. x.client_id == c.client_id) (clients ++ k ∷ []) ≡ true
last-Registered [] k c e =
    subst (λ i. any (λ x. x.client_id == i) (k ∷ []) ≡ true) e (ground (arith, eq_refl k.client_id))
last-Registered (x ∷ clients) k c e = ground (arith, last-Registered clients k c e)

exists-Registered :
    (clients : List Client) (product_id client_id : String)
    → any (λ c. c.client_id == client_id && c.product_id == product_id) clients ≡ true
    → any (λ c. c.client_id == client_id) clients ≡ true
exists-Registered [] p q h = absurd (ground arith)
exists-Registered (c ∷ rest) p q h = elim (Bool-cases (c.client_id == q)) [
  | inl e ↦ ground arith
  | inr e ↦ ground (arith, exists-Registered rest p q (ground arith))
]

change-Sound : (t t' : ProductTables) → RowsChange t t' → SoundCredentials t → SoundCredentials t'
unfolding client_clashes client_exists revoke_active
change-Sound t t' (rows_kept a b n) (one, reg) = (
  subst OneActive (sym b) one,
  subst (λ cs. Registered cs t'.credentials) (sym a) (subst (Registered t.clients) (sym b) reg),
)
change-Sound t t' (client_added k c free e a b n) (one, reg) = (
  subst OneActive (sym b) (
      append-OneActive c t.credentials
        (Registered-apart c t.clients t.credentials
          (subst (λ i. any (λ x. x.client_id == i) t.clients ≡ false) e free) reg)
        one),
  subst (λ cs. Registered cs t'.credentials) (sym a)
      (subst (Registered (t.clients ++ k ∷ [])) (sym b) (
        All-append _ t.credentials (c ∷ []) (more-Registered t.clients (k ∷ []) t.credentials reg)
          (last-Registered t.clients k c e, tt))),
)
change-Sound t t' (credential_rotated p q now c there e e' a b n) (one, reg) = (
  subst OneActive (sym b) (
      append-OneActive c (revoke_active p q now t.credentials)
        (revoke_active-apart c p q now t.credentials e e')
        (Keeps-OneActive (revoke_if_active p q now) (revoke_if_active-Keeps p q now) t.credentials
          one)),
  subst (λ cs. Registered cs t'.credentials) (sym a)
      (subst (Registered t.clients) (sym b) (
        All-append _ (revoke_active p q now t.credentials) (c ∷ [])
          (Keeps-Registered (revoke_if_active p q now) (revoke_if_active-Keeps p q now) t.clients
            t.credentials reg)
          (
            subst (λ i. any (λ x. x.client_id == i) t.clients ≡ true) (sym e')
                (exists-Registered t.clients p q there),
            tt,
          ))),
)
change-Sound t t' (credentials_updated f k a b n) (one, reg) = (
  subst OneActive (sym b) (Keeps-OneActive f k t.credentials one),
  subst (λ cs. Registered cs t'.credentials) (sym a)
      (subst (Registered t.clients) (sym b) (Keeps-Registered f k t.clients t.credentials reg)),
)

change-nonces : (t t' : ProductTables) → RowsChange t t' → NoncesKept t t'
change-nonces t t' (rows_kept a b n) c d h = subst (λ ns. any (same_nonce c d) ns ≡ true) (sym n) h
change-nonces t t' (client_added k x free e a b n) c d h =
    subst (λ ns. any (same_nonce c d) ns ≡ true) (sym n) h
change-nonces t t' (credential_rotated p q now x there e e' a b n) c d h =
    subst (λ ns. any (same_nonce c d) ns ≡ true) (sym n) h
change-nonces t t' (credentials_updated f k a b n) c d h = n c d h

-- What every change of the rows keeps, the commands keep.
commands-keep :
    (P : ProductTables → Type 0)
    → ((t t' : ProductTables) → RowsChange t t' → P t → P t')
    → {t t' : ProductTables} → ProductCommands t t'
    → P t
    → P t'
commands-keep P step at_first h = h
commands-keep P step {t} {t'} (begun {t' = m} s env command a e) h =
    step m t' (begin_provisioning-rows env command m t' a e) (commands-keep P step s h)
commands-keep P step {t} {t'} (provisioned {t' = m} s env command a e) h =
    step m t' (complete_provisioning-rows env command m t' a e) (commands-keep P step s h)
commands-keep P step {t} {t'} (registered {t' = m} s env command a e) h =
    step m t' (register_client-rows env command m t' a e) (commands-keep P step s h)
commands-keep P step {t} {t'} (rotated {t' = m} s env command a e) h =
    step m t' (rotate_client_credential-rows env command m t' a e) (commands-keep P step s h)
commands-keep P step {t} {t'} (revoked {t' = m} s env command a e) h =
    step m t' (revoke_client_credential-rows env command m t' a e) (commands-keep P step s h)
commands-keep P step (session_tried {t' = m} s env command) h =
    step m (create_client_session env command m).1 (create_client_session-rows env command m)
      (commands-keep P step s h)
commands-keep P step {t} {t'} (session_revoked {t' = m} s env id e) h =
    step m t' (revoke_session-rows env id m t' e) (commands-keep P step s h)
commands-keep P step {t} {t'} (set_replaced {t' = m} s env command a e) h =
    step m t' (replace_capability_set-rows env command m t' a e) (commands-keep P step s h)

-- Through any commands, rotations and registrations among them, no client of a product gets a second
-- active credential, and every credential belongs to a client that is there.
pub commands-keep-SoundCredentials :
    {t t' : ProductTables} → ProductCommands t t' → SoundCredentials t → SoundCredentials t'
commands-keep-SoundCredentials steps h = commands-keep SoundCredentials change-Sound steps h

-- The write behind a session that was issued.
Stored : ProductServices → CreateClientSessionCommand → ProductTables → ProductTables → Type 0
Stored env command t t' =
    (r : CreateSessionRecord) × (event : ProductEvent) × (s : StoredClientSession) × (create_session
        r event t
      ≡ ok (s, t'))
    × (r.nonce_digest ≡ env.digest command.request_nonce)
    × (r.session.client_id ≡ command.client_id)

deny-refuses :
    (env : ProductServices) (command : CreateClientSessionCommand) (reason : String)
    (problem : ProductError) (t t' : ProductTables) (s : IssuedClientSession)
    → deny env command reason problem t ≢ (ok s, t')
unfolding deny
deny-refuses env command reason problem t t' s h = ground arith

store_session-created :
    (env : ProductServices) (command : CreateClientSessionCommand) (r : CreateSessionRecord)
    (token : String) (event : ProductEvent) (t t' : ProductTables) (s : IssuedClientSession)
    → store_session env command r token event t ≡ (ok s, t')
    → (x : StoredClientSession) × (create_session r event t ≡ ok (x, t'))
unfolding store_session refuse_session deny
store_session-created env command r token event t t' s h =
    elim (Result-cases (create_session r event t)) [
      | inr (problem, e) ↦ elim (Bool-cases (is_replay problem)) [
        | inl b ↦ absurd (ground arith)
        | inr b ↦ absurd (ground arith)
      ]
      | inl ((x, after), e) ↦ (x, ground arith)
    ]

prepare_session-fields :
    (env : ProductServices) (command : CreateClientSessionCommand) (a : ClientAuthentication)
    (r : CreateSessionRecord) (token : String) (event : ProductEvent)
    → prepare_session env command a ≡ ok (r, token, event)
    → (r.nonce_digest ≡ env.digest command.request_nonce)
      × (r.session.client_id ≡ command.client_id)
unfolding prepare_session new_session
prepare_session-fields env command a r token event h = (ground arith, ground arith)

start_session-Stored :
    (env : ProductServices) (command : CreateClientSessionCommand) (a : ClientAuthentication)
    (t t' : ProductTables) (s : IssuedClientSession)
    → start_session env command a t ≡ (ok s, t')
    → Stored env command t t'
unfolding start_session Stored
start_session-Stored env command a t t' s h = elim (Bool-cases (scope_agrees env command a)) [
  | inr b ↦
      absurd (deny-refuses env command "scope_mismatch" client_unavailable t t' s (ground arith))
  | inl b ↦ elim (Bool-cases (env.verify_client_proof a command.proof)) [
    | inr b' ↦
        absurd
          (deny-refuses env command "invalid_proof" credential_unavailable t t' s (ground arith))
    | inl b' ↦ elim (Result-cases (prepare_session env command a)) [
      | inr (problem, f) ↦ absurd (ground arith)
      | inl ((r, token, event), f) ↦
          let (x, made) = store_session-created env command r token event t t' s (ground arith) in
          let (digest, client) = prepare_session-fields env command a r token event f in
          (r, event, x, made, digest, client)
    ]
  ]
]

issued-Stored :
    (env : ProductServices) (command : CreateClientSessionCommand) (t t' : ProductTables)
    (s : IssuedClientSession)
    → create_client_session env command t ≡ (ok s, t')
    → Stored env command t t'
unfolding create_client_session
issued-Stored env command t t' s h = elim (Bool-cases (valid_session_command env command)) [
  | inr b ↦ absurd (ground arith)
  | inl b ↦
      elim (Result-cases
        (resolve_client_authentication command.client_id command.credential_id env.now t)) [
          | inr (problem, e) ↦
              absurd (deny-refuses env command "invalid_client" problem t t' s (ground arith))
          | inl (a, e) ↦ start_session-Stored env command a t t' s (ground arith)
        ]
]

-- A nonce is accepted once: when a session was issued to a client, no later command, whatever came
-- between, issues a session to this client for a nonce with the same digest.
pub nonce_accepted_once :
    (env env' : ProductServices) (command command' : CreateClientSessionCommand)
    (t t1 t2 t3 : ProductTables) (s s' : IssuedClientSession)
    → create_client_session env command t ≡ (ok s, t1)
    → ProductCommands t1 t2
    → command'.client_id ≡ command.client_id
    → env'.digest command'.request_nonce ≡ env.digest command.request_nonce
    → create_client_session env' command' t2 ≢ (ok s', t3)
unfolding Stored
nonce_accepted_once env env' command command' t t1 t2 t3 s s' first steps client nonce second =
    let (r, event, x, e, d, c) = issued-Stored env command t t1 s first in
    let (r', event', x', e', d', c') = issued-Stored env' command' t2 t3 s' second in
    let (was_free, taken) = session-nonce r event t t1 x e in
    let (free, then) = session-nonce r' event' t2 t3 x' e' in
    let kept =
      commands-keep (λ u. any (same_nonce r.session.client_id r.nonce_digest) u.nonces ≡ true)
        (λ u u' change. change-nonces u u' change r.session.client_id r.nonce_digest) steps taken in
    let same_client : r.session.client_id ≡ r'.session.client_id = c ∙ sym client ∙ sym c' in
    let same_digest : r.nonce_digest ≡ r'.nonce_digest = d ∙ sym nonce ∙ sym d' in
    let still : any (same_nonce r'.session.client_id r'.nonce_digest) t2.nonces ≡ true =
      subst (λ i. any (same_nonce i r'.nonce_digest) t2.nonces ≡ true) same_client
        (subst (λ i. any (same_nonce r.session.client_id i) t2.nonces ≡ true) same_digest kept) in
    ground arith
