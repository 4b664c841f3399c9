-- ===== src/Product/Laws/Commands.antt =====
-- Sequences of the commands of platform/backend/internal/modules/product/product.go, each with its own
-- clock, generators and verifiers.
use unified_software_commerc.Prelude.{
  String, Option, List, Result, ok, ◌≡◌, inl, inr, refl, sym, subst, arith, Bool-cases,
  Result-cases,
}
use unified_software_commerc.Product.Model.{
  ProductError, client_unavailable, credential_unavailable, Product, ClientCredential,
  ClientAuthentication, CapabilitySet, TrustedCapabilityChangePlan, CapabilityItem,
  CreateSessionRecord, ProductEvent, ProductReceiptKey,
}
use unified_software_commerc.Product.Store.{
  ProductTables, ProductReceipt, once, insert_product_event,
}
use unified_software_commerc.Product.Store.Credentials.{client_exists}
use unified_software_commerc.Product.Store.Clients.{resolve_client_authentication}
use unified_software_commerc.Product.Store.Sessions.{create_session, revoke_client_session}
use unified_software_commerc.Product.Checks.{
  normalize_environments, validate_proof_material, normalize_capability_items,
}
use unified_software_commerc.Product.Service.{
  ProductServices, BeginProvisioningCommand, CompleteProvisioningCommand, write_begin_provisioning,
  write_complete_provisioning, begin_provisioning, complete_provisioning,
}
use unified_software_commerc.Product.Service.Clients.{
  RegisterClientCommand, RotateClientCredentialCommand, RevokeClientCredentialCommand, new_client,
  first_credential, next_credential, write_register_client, write_rotate_client_credential,
  write_revoke_client_credential, register_client, rotate_client_credential,
  revoke_client_credential,
}
use unified_software_commerc.Product.Service.Sessions.{
  CreateClientSessionCommand, is_replay, deny, refuse_session, store_session, prepare_session,
  start_session, create_client_session, revoke_session, scope_agrees, valid_session_command,
}
use unified_software_commerc.Product.Service.Capabilities.{
  ReplaceCapabilitySetCommand, trusted_plan, write_replace_capability_set, replace_capability_set,
}
use unified_software_commerc.Product.Laws.Steps.{
  RowsChange, rows_kept, client_added, credential_rotated, credentials_updated, once-cases,
  begin-rows, complete-rows, register-rows, rotate-rows, replace-rows, revoke-rows, session-rows,
}

pub data ProductCommands (t : ProductTables) : ProductTables → Type 0 where
  at_first : ProductCommands t t
  begun :
      {t' t'' : ProductTables}
      → ProductCommands t t'
      → (env : ProductServices) (command : BeginProvisioningCommand) (a : Product)
      → begin_provisioning env command t' ≡ ok (a, t'')
      → ProductCommands t t''
  provisioned :
      {t' t'' : ProductTables}
      → ProductCommands t t'
      → (env : ProductServices) (command : CompleteProvisioningCommand) (a : Product)
      → complete_provisioning env command t' ≡ ok (a, t'')
      → ProductCommands t t''
  registered :
      {t' t'' : ProductTables}
      → ProductCommands t t'
      → (env : ProductServices) (command : RegisterClientCommand) (a : ClientAuthentication)
      → register_client env command t' ≡ ok (a, t'')
      → ProductCommands t t''
  rotated :
      {t' t'' : ProductTables}
      → ProductCommands t t'
      → (env : ProductServices) (command : RotateClientCredentialCommand) (a : ClientCredential)
      → rotate_client_credential env command t' ≡ ok (a, t'')
      → ProductCommands t t''
  revoked :
      {t' t'' : ProductTables}
      → ProductCommands t t'
      → (env : ProductServices) (command : RevokeClientCredentialCommand) (a : ClientCredential)
      → revoke_client_credential env command t' ≡ ok (a, t'')
      → ProductCommands t t''
  session_tried :
      {t' : ProductTables}
      → ProductCommands t t'
      → (env : ProductServices) (command : CreateClientSessionCommand)
      → ProductCommands t (create_client_session env command t').1
  session_revoked :
      {t' t'' : ProductTables}
      → ProductCommands t t'
      → (env : ProductServices) (session_id : String) → revoke_session env session_id t' ≡ ok t''
      → ProductCommands t t''
  set_replaced :
      {t' t'' : ProductTables}
      → ProductCommands t t'
      → (env : ProductServices) (command : ReplaceCapabilitySetCommand) (a : CapabilitySet)
      → replace_capability_set env command t' ≡ ok (a, t'')
      → ProductCommands t t''

-- The receipts are no part of a change of the rows.
again :
    (t t1 : ProductTables) (before after : List ProductReceipt)
    → RowsChange (record t { receipts = before }) t1
    → RowsChange t (record t1 { receipts = after })
unfolding client_exists
again t t1 before after (rows_kept a b c) = rows_kept a b c
again t t1 before after (client_added k d a b e f g) = client_added k d a b e f g
again t t1 before after (credential_rotated p q n c a b e f g i) =
    credential_rotated p q n c a b e f g i
again t t1 before after (credentials_updated f k a b c) = credentials_updated f k a b c

-- A write under a key changes the rows as its body does.
once-rows :
    {A : Type 0} (encode : A → String) (decode : String → Option A) (key : ProductReceiptKey)
    (body : ProductTables → Result ProductError (A × ProductTables)) (t t' : ProductTables) (a : A)
    → once encode decode key body t ≡ ok (a, t')
    → ((before after : ProductTables) → body before ≡ ok (a, after) → RowsChange before after)
    → RowsChange t t'
once-rows encode decode key body t t' a h step = elim (once-cases encode decode key body t t' a h) [
  | inl e ↦ subst (RowsChange t) (sym e) (rows_kept refl refl refl)
  | inr (before, after, t1, run, e) ↦
      subst (RowsChange t) (sym e)
        (again t t1 before after (step (record t { receipts = before }) t1 run))
]

deny-rows :
    (env : ProductServices) (command : CreateClientSessionCommand) (reason : String)
    (problem : ProductError) (t : ProductTables)
    → RowsChange t (deny env command reason problem t).1
unfolding deny insert_product_event
deny-rows env command reason problem t = rows_kept (ground arith) (ground arith) (ground arith)

write_rotate_client_credential-rows :
    (env : ProductServices) (command : RotateClientCredentialCommand)
    (credential_id event_id : String) (t t' : ProductTables) (a : ClientCredential)
    → write_rotate_client_credential env command credential_id event_id t ≡ ok (a, t')
    → RowsChange t t'
unfolding write_rotate_client_credential next_credential
write_rotate_client_credential-rows env command credential_id event_id t t' a h =
    once-rows _ _ _ _ t t' a h (λ before after. rotate-rows _ _ before after a refl refl)

pub rotate_client_credential-rows :
    (env : ProductServices) (command : RotateClientCredentialCommand) (t t' : ProductTables)
    (a : ClientCredential)
    → rotate_client_credential env command t ≡ ok (a, t')
    → RowsChange t t'
unfolding rotate_client_credential
rotate_client_credential-rows env command t t' a h =
    elim (Result-cases
      (validate_proof_material command.proof_type command.proof_digest command.public_key)) [
        | inr (e', e0) ↦ absurd (ground arith)
        | inl (checked, e0) ↦ elim (Result-cases (env.new_id "pcred_")) [
          | inr (e', e) ↦ absurd (ground arith)
          | inl (credential_id, e_cr) ↦ elim (Result-cases (env.new_id "evt_")) [
            | inr (e', e) ↦ absurd (ground arith)
            | inl (event_id, e_ev) ↦
                write_rotate_client_credential-rows env command credential_id event_id t t' a
                  (ground arith)
          ]
        ]
      ]

write_register_client-rows :
    (env : ProductServices) (command : RegisterClientCommand)
    (client_id credential_id event_id : String) (t t' : ProductTables) (a : ClientAuthentication)
    → write_register_client env command client_id credential_id event_id t ≡ ok (a, t')
    → RowsChange t t'
unfolding write_register_client new_client first_credential
write_register_client-rows env command client_id credential_id event_id t t' a h =
    once-rows _ _ _ _ t t' a h (λ before after. register-rows _ _ _ before after a refl)

pub register_client-rows :
    (env : ProductServices) (command : RegisterClientCommand) (t t' : ProductTables)
    (a : ClientAuthentication)
    → register_client env command t ≡ ok (a, t')
    → RowsChange t t'
unfolding register_client
register_client-rows env command t t' a h =
    elim (Result-cases
      (validate_proof_material command.proof_type command.proof_digest command.public_key)) [
        | inr (e', e0) ↦ absurd (ground arith)
        | inl (checked, e0) ↦ elim (Result-cases (env.new_id "pcli_")) [
          | inr (e', e) ↦ absurd (ground arith)
          | inl (client_id, e_cl) ↦ elim (Result-cases (env.new_id "pcred_")) [
            | inr (e', e) ↦ absurd (ground arith)
            | inl (credential_id, e_cr) ↦ elim (Result-cases (env.new_id "evt_")) [
              | inr (e', e) ↦ absurd (ground arith)
              | inl (event_id, e_ev) ↦
                  write_register_client-rows env command client_id credential_id event_id t t' a
                    (ground arith)
            ]
          ]
        ]
      ]

write_revoke_client_credential-rows :
    (env : ProductServices) (command : RevokeClientCredentialCommand) (event_id : String)
    (t t' : ProductTables) (a : ClientCredential)
    → write_revoke_client_credential env command event_id t ≡ ok (a, t')
    → RowsChange t t'
unfolding write_revoke_client_credential
write_revoke_client_credential-rows env command event_id t t' a h =
    once-rows _ _ _ _ t t' a h (λ before after. revoke-rows _ _ _ _ _ before after a)

pub revoke_client_credential-rows :
    (env : ProductServices) (command : RevokeClientCredentialCommand) (t t' : ProductTables)
    (a : ClientCredential)
    → revoke_client_credential env command t ≡ ok (a, t')
    → RowsChange t t'
unfolding revoke_client_credential
revoke_client_credential-rows env command t t' a h = elim (Result-cases (env.new_id "evt_")) [
  | inr (e', e) ↦ absurd (ground arith)
  | inl (event_id, e_ev) ↦
      write_revoke_client_credential-rows env command event_id t t' a (ground arith)
]

write_begin_provisioning-rows :
    (env : ProductServices) (command : BeginProvisioningCommand) (environments : List String)
    (product_id event_id : String) (t t' : ProductTables) (a : Product)
    → write_begin_provisioning env command environments product_id event_id t ≡ ok (a, t')
    → RowsChange t t'
unfolding write_begin_provisioning
write_begin_provisioning-rows env command environments product_id event_id t t' a h =
    once-rows _ _ _ _ t t' a h (λ before after. begin-rows _ _ _ before after a)

pub begin_provisioning-rows :
    (env : ProductServices) (command : BeginProvisioningCommand) (t t' : ProductTables)
    (a : Product)
    → begin_provisioning env command t ≡ ok (a, t')
    → RowsChange t t'
unfolding begin_provisioning
begin_provisioning-rows env command t t' a h =
    elim (Result-cases (normalize_environments command.environments)) [
      | inr (e', e) ↦ absurd (ground arith)
      | inl (environments, e_en) ↦ elim (Result-cases (env.new_id "prod_")) [
        | inr (e', e) ↦ absurd (ground arith)
        | inl (product_id, e_pr) ↦ elim (Result-cases (env.new_id "evt_")) [
          | inr (e', e) ↦ absurd (ground arith)
          | inl (event_id, e_ev) ↦
              write_begin_provisioning-rows env command environments product_id event_id t t' a
                (ground arith)
        ]
      ]
    ]

write_complete_provisioning-rows :
    (env : ProductServices) (command : CompleteProvisioningCommand) (event_id : String)
    (t t' : ProductTables) (a : Product)
    → write_complete_provisioning env command event_id t ≡ ok (a, t')
    → RowsChange t t'
unfolding write_complete_provisioning
write_complete_provisioning-rows env command event_id t t' a h =
    once-rows _ _ _ _ t t' a h (λ before after. complete-rows _ _ _ _ before after a)

pub complete_provisioning-rows :
    (env : ProductServices) (command : CompleteProvisioningCommand) (t t' : ProductTables)
    (a : Product)
    → complete_provisioning env command t ≡ ok (a, t')
    → RowsChange t t'
unfolding complete_provisioning
complete_provisioning-rows env command t t' a h = elim (Result-cases (env.new_id "evt_")) [
  | inr (e', e) ↦ absurd (ground arith)
  | inl (event_id, e_ev) ↦
      write_complete_provisioning-rows env command event_id t t' a (ground arith)
]

write_replace_capability_set-rows :
    (env : ProductServices) (command : ReplaceCapabilitySetCommand)
    (plan : TrustedCapabilityChangePlan) (items : List CapabilityItem) (set_id event_id : String)
    (t t' : ProductTables) (a : CapabilitySet)
    → write_replace_capability_set env command plan items set_id event_id t ≡ ok (a, t')
    → RowsChange t t'
unfolding write_replace_capability_set
write_replace_capability_set-rows env command plan items set_id event_id t t' a h =
    once-rows _ _ _ _ t t' a h (λ before after. replace-rows _ _ _ before after a)

pub replace_capability_set-rows :
    (env : ProductServices) (command : ReplaceCapabilitySetCommand) (t t' : ProductTables)
    (a : CapabilitySet)
    → replace_capability_set env command t ≡ ok (a, t')
    → RowsChange t t'
unfolding replace_capability_set
replace_capability_set-rows env command t t' a h =
    elim (Result-cases (trusted_plan env command.plan)) [
      | inr (e', e) ↦ absurd (ground arith)
      | inl (plan, e_pl) ↦
          elim (Result-cases (normalize_capability_items env.normalize_policy plan.items)) [
            | inr (e', e) ↦ absurd (ground arith)
            | inl (items, e_it) ↦ elim (Result-cases (env.new_id "pcset_")) [
              | inr (e', e) ↦ absurd (ground arith)
              | inl (set_id, e_se) ↦ elim (Result-cases (env.new_id "evt_")) [
                | inr (e', e) ↦ absurd (ground arith)
                | inl (event_id, e_ev) ↦
                    write_replace_capability_set-rows env command plan items set_id event_id t t' a
                      (ground arith)
              ]
            ]
          ]
    ]

pub revoke_session-rows :
    (env : ProductServices) (session_id : String) (t t' : ProductTables)
    → revoke_session env session_id t ≡ ok t'
    → RowsChange t t'
unfolding revoke_session revoke_client_session
revoke_session-rows env session_id t t' h = rows_kept (ground arith) (ground arith) (ground arith)

refuse_session-rows :
    (env : ProductServices) (command : CreateClientSessionCommand) (problem : ProductError)
    (t : ProductTables)
    → RowsChange t (refuse_session env command problem t).1
unfolding refuse_session
refuse_session-rows env command problem t = elim (Bool-cases (is_replay problem)) [
  | inl b ↦
      let same : deny env command "nonce_replayed" problem t
          ≡ refuse_session env command problem t =
        ground arith in
      subst (λ o. RowsChange t o.1) same (deny-rows env command "nonce_replayed" problem t)
  | inr b ↦ rows_kept (ground arith) (ground arith) (ground arith)
]

store_session-rows :
    (env : ProductServices) (command : CreateClientSessionCommand) (r : CreateSessionRecord)
    (token : String) (event : ProductEvent) (t : ProductTables)
    → RowsChange t (store_session env command r token event t).1
unfolding store_session
store_session-rows env command r token event t = elim (Result-cases (create_session r event t)) [
  | inr (problem, e) ↦
      let same : refuse_session env command problem t ≡ store_session env command r token event t =
        ground arith in
      subst (λ o. RowsChange t o.1) same (refuse_session-rows env command problem t)
  | inl ((s, t'), e) ↦
      let same : t' ≡ (store_session env command r token event t).1 = ground arith in
      subst (RowsChange t) same (session-rows r event t t' s e)
]

start_session-rows :
    (env : ProductServices) (command : CreateClientSessionCommand) (a : ClientAuthentication)
    (t : ProductTables)
    → RowsChange t (start_session env command a t).1
unfolding start_session
start_session-rows env command a t = elim (Bool-cases (scope_agrees env command a)) [
  | inr b ↦
      let same : deny env command "scope_mismatch" client_unavailable t
          ≡ start_session env command a t =
        ground arith in
      subst (λ o. RowsChange t o.1) same
        (deny-rows env command "scope_mismatch" client_unavailable t)
  | inl b ↦ elim (Bool-cases (env.verify_client_proof a command.proof)) [
    | inr b' ↦
        let same : deny env command "invalid_proof" credential_unavailable t
            ≡ start_session env command a t =
          ground arith in
        subst (λ o. RowsChange t o.1) same
          (deny-rows env command "invalid_proof" credential_unavailable t)
    | inl b' ↦ elim (Result-cases (prepare_session env command a)) [
      | inr (problem, e) ↦ rows_kept (ground arith) (ground arith) (ground arith)
      | inl ((r, token, event), e) ↦
          let same : store_session env command r token event t ≡ start_session env command a t =
            ground arith in
          subst (λ o. RowsChange t o.1) same (store_session-rows env command r token event t)
    ]
  ]
]

pub create_client_session-rows :
    (env : ProductServices) (command : CreateClientSessionCommand) (t : ProductTables)
    → RowsChange t (create_client_session env command t).1
unfolding create_client_session
create_client_session-rows env command t = elim (Bool-cases (valid_session_command env command)) [
  | inr b ↦ rows_kept (ground arith) (ground arith) (ground arith)
  | inl b ↦
      elim (Result-cases
        (resolve_client_authentication command.client_id command.credential_id env.now t)) [
          | inr (problem, e) ↦
              let same : deny env command "invalid_client" problem t
                  ≡ create_client_session env command t =
                ground arith in
              subst (λ o. RowsChange t o.1) same (deny-rows env command "invalid_client" problem t)
          | inl (a, e) ↦
              let same : start_session env command a t ≡ create_client_session env command t =
                ground arith in
              subst (λ o. RowsChange t o.1) same (start_session-rows env command a t)
        ]
]
