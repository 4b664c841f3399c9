-- ===== src/Product/Laws/Sessions.antt =====
-- A rotation ends the sessions of the credentials before it.
use unified_software_commerc.Prelude.{
  ℕ, String, Bool, true, false, ◌&&◌, some, List, [], ◌∷◌, ◌++◌, find, ◌==◌, ok, ◌≡◌, ◌≢◌, inl, inr,
  sym, ap, ◌∙◌, subst, arith, All, Bool-cases, Option-cases, eq_of_==, eq_refl, find-holds,
}
use unified_software_commerc.Product.Model.{
  Client, ClientCredential, StoredClientSession, RotateCredentialRecord, ProductEvent,
}
use unified_software_commerc.Product.Store.{ProductTables, insert_product_event}
use unified_software_commerc.Product.Store.Credentials.{
  rotate_body, revoke_active, insert_credential, credential_row,
}
use unified_software_commerc.Product.Store.Clients.{joined_client, active_client, active_credential}
use unified_software_commerc.Product.Store.Sessions.{find_client_session, unexpired_session}
use unified_software_commerc.Product.Laws.Credentials.{both_active, revoke_active-apart}

-- The test of a session for its credential.
used_by : Client → StoredClientSession → ClientCredential → Bool
used_by client s c = active_credential client c && c.credential_id == s.credential_id

used_by-apart :
    (client : Client) (s : StoredClientSession) (n : ClientCredential) (cs : List ClientCredential)
    → n.status ≡ "active"
    → n.client_id ≡ client.client_id
    → n.product_id ≡ client.product_id
    → All (λ c. both_active n c ≡ false) cs
    → All (λ c. used_by client s c ≡ false) cs
unfolding used_by active_credential
used_by-apart client s n [] a e e' h = tt
used_by-apart client s n (c ∷ rest) a e e' (p, h) = (
  (elim (Bool-cases (used_by client s c)) [
    | inr b ↦ b
    | inl b ↦
        let same = eq_of_== c.client_id client.client_id (ground arith) in
        let same' = eq_of_== c.product_id client.product_id (ground arith) in
        let one : (n.client_id == c.client_id) ≡ true =
          subst (λ i. (n.client_id == i) ≡ true) (e ∙ sym same) (eq_refl n.client_id) in
        let two : (n.product_id == c.product_id) ≡ true =
          subst (λ i. (n.product_id == i) ≡ true) (e' ∙ sym same') (eq_refl n.product_id) in
        let three : (n.status == "active") ≡ true =
          subst (λ i. (n.status == i) ≡ true) a (eq_refl n.status) in
        absurd (ground arith)
  ]),
  used_by-apart client s n rest a e e' h,
)

find-last :
    {A : Type 0} (p : A → Bool) (xs : List A) (n a : A)
    → All (λ x. p x ≡ false) xs
    → find p (xs ++ n ∷ []) ≡ some a
    → a ≡ n
find-last p [] n a h f = ground arith
find-last p (x ∷ xs) n a (e, h) f = find-last p xs n a h (ground arith)

rotated-credentials :
    (r : RotateCredentialRecord) (event : ProductEvent) (t t' : ProductTables)
    (c : ClientCredential)
    → rotate_body r event t ≡ ok (c, t')
    → t'.credentials
      ≡ revoke_active r.product_id r.client_id r.now t.credentials
        ++ credential_row r.credential ∷ []
unfolding rotate_body insert_credential insert_product_event
rotated-credentials r event t t' c h = ground arith

client-named :
    (client : Client) (s : StoredClientSession)
    → active_client s.client_id client ≡ true
    → client.client_id ≡ s.client_id
unfolding active_client
client-named client s h = eq_of_== client.client_id s.client_id (ground arith)

-- What stands behind a session that is found.
found-client :
    (token_digest : String) (now : ℕ) (t : ProductTables) (s : StoredClientSession)
    → find_client_session token_digest now t ≡ ok s
    → (client : Client) × (c : ClientCredential) × (client.client_id ≡ s.client_id)
      × (client.product_id ≡ s.product_id)
      × (find (used_by client s) t.credentials ≡ some c)
unfolding find_client_session joined_client used_by
found-client token_digest now t s h =
    elim (Option-cases (find (unexpired_session token_digest now) t.sessions)) [
      | inl e ↦ absurd (ground arith)
      | inr (s0, e) ↦ elim (Option-cases (find (active_client s0.client_id) t.clients)) [
        | inl e1 ↦ absurd (ground arith)
        | inr (client, e1) ↦
            elim (Option-cases (
              find (λ c. active_credential client c && c.credential_id == s0.credential_id)
                t.credentials)) [
                  | inl e2 ↦ absurd (ground arith)
                  | inr (c, e2) ↦
                      let which : s0 ≡ s = ground arith in
                      let holds = find-holds (active_client s0.client_id) t.clients client e1 in
                      (
                        client,
                        c,
                        client-named client s0 holds ∙ ground arith,
                        eq_of_== client.product_id s.product_id (ground arith),
                        subst
                            (λ x.
                              find
                                (λ c.
                                  active_credential client c && c.credential_id == x.credential_id)
                                t.credentials
                              ≡ some c)
                            which e2,
                      )
                ]
      ]
    ]

-- A session that is found after a rotation is one of the new credential.
found_session_is_new :
    (r : RotateCredentialRecord) (event : ProductEvent) (t t' : ProductTables)
    (c : ClientCredential) (token_digest : String) (now : ℕ) (s : StoredClientSession)
    → r.credential.status ≡ "active"
    → r.credential.client_id ≡ r.client_id
    → r.credential.product_id ≡ r.product_id
    → rotate_body r event t ≡ ok (c, t')
    → find_client_session token_digest now t' ≡ ok s
    → s.client_id ≡ r.client_id
    → s.product_id ≡ r.product_id
    → s.credential_id ≡ r.credential.credential_id
unfolding used_by credential_row
found_session_is_new r event t t' c token_digest now s a e e' h found client product =
    let (k, d, k1, k2, f) = found-client token_digest now t' s found in
    let cs = revoke_active r.product_id r.client_id r.now t.credentials in
    let n = credential_row r.credential in
    let apart =
      used_by-apart k s n cs a (e ∙ sym client ∙ sym k1) (e' ∙ sym product ∙ sym k2)
        (revoke_active-apart n r.product_id r.client_id r.now t.credentials e' e) in
    let at_end : find (used_by k s) (cs ++ n ∷ []) ≡ some d =
      subst (λ x. find (used_by k s) x ≡ some d) (rotated-credentials r event t t' c h) f in
    let last = find-last (used_by k s) cs n d apart at_end in
    let holds = find-holds (used_by k s) (cs ++ n ∷ []) d at_end in
    let named = eq_of_== d.credential_id s.credential_id (ground arith) in
    sym named ∙ ap (λ x. x.credential_id) last

-- After a rotation that succeeded no session of the client under another credential than the new one is
-- found, at any time and for any token.
pub rotation_ends_sessions :
    (r : RotateCredentialRecord) (event : ProductEvent) (t t' : ProductTables)
    (c : ClientCredential) (token_digest : String) (now : ℕ) (s : StoredClientSession)
    → r.credential.status ≡ "active"
    → r.credential.client_id ≡ r.client_id
    → r.credential.product_id ≡ r.product_id
    → rotate_body r event t ≡ ok (c, t')
    → s.client_id ≡ r.client_id
    → s.product_id ≡ r.product_id
    → s.credential_id ≢ r.credential.credential_id
    → find_client_session token_digest now t' ≢ ok s
rotation_ends_sessions r event t t' c token_digest now s a e e' h client product other found =
    other (found_session_is_new r event t t' c token_digest now s a e e' h found client product)
