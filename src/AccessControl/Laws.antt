-- ===== src/AccessControl/Laws.antt =====
-- What an authorization rests on, and what a bound scope reaches.
use unified_software_commerc.Prelude.{
  String, true, false, some, find, any, ◌==◌, Result, ok, ◌≡◌, ◌≢◌, ◌⊎◌, ◌↔◌, arith, eq_iff,
  Result-cases, Option-cases, Bool-cases, inl, inr, subst, eq_refl, eq_of_==,
}
use unified_software_commerc.Prelude.Text.{scope_identifier}
use unified_software_commerc.AccessControl.Catalog.{
  AccessError, PermissionCatalog, catalog_contains,
}
use unified_software_commerc.AccessControl.{
  Scope, Snapshot, TargetScope, Decision, scope_matches, resolve_snapshot, authorize_admin,
}
use unified_software_commerc.AccessControl.Binding.{normalize_binding_scope, or_text}

-- An administrator is allowed exactly what the catalog knows, the permissions of the resolved snapshot
-- contain, and one of its scopes, the first that does, matches.
pub authorize_allowed :
    (catalog : PermissionCatalog) (stored : Result AccessError Snapshot) (permission : String)
    (target : TargetScope) (decision : Decision)
    → authorize_admin catalog stored permission target ≡ ok decision
    → (decision.allowed ≡ true) ↔ (
        (snapshot : Snapshot) × (scope : Scope) × (catalog_contains catalog permission ≡ true)
        × (resolve_snapshot catalog stored ≡ ok snapshot)
        × (any (λ p. p == permission) snapshot.permissions ≡ true)
        × (find (λ s. scope_matches s target) snapshot.scopes ≡ some scope)
        × (decision.matched_scope ≡ some scope))
unfolding authorize_admin
authorize_allowed catalog stored permission target decision h = (
  λ yes'. elim (Result-cases (resolve_snapshot catalog stored)) [
    | inr (e', e) ↦ absurd (ground arith)
    | inl (snapshot, e) ↦ elim (Option-cases (find (λ s. scope_matches s target) snapshot.scopes)) [
      | inl none' ↦ absurd (ground arith)
      | inr (scope, found) ↦ (snapshot, scope, ground arith, e, ground arith, found, ground arith)
    ]
  ],
  λ (snapshot, scope, known, e, held, found, matched). ground arith,
)

-- The scopes that come out of the normalization.
data IsBindable : Scope → Type 0 where
  of_product :
      (id : String)
      → scope_identifier id ≡ true
      → IsBindable (record { scope_type = "product"; id = id; product_id = id; tenant_id = "" })
  of_tenant :
      (id product_id : String)
      → scope_identifier id ≡ true
      → scope_identifier product_id ≡ true
      → IsBindable
          (record { scope_type = "tenant"; id = id; product_id = product_id; tenant_id = id })

normal-IsBindable :
    (scope normal : Scope) → normalize_binding_scope scope ≡ ok normal → IsBindable normal
unfolding normalize_binding_scope
normal-IsBindable scope normal h = elim (Bool-cases (scope.scope_type == "platform")) [
  | inl platform ↦ absurd (ground arith)
  | inr p ↦ elim (Bool-cases (scope.scope_type == "product")) [
    | inl product ↦
        let id = or_text scope.product_id scope.id in
        subst IsBindable (ground arith) (of_product id (ground arith))
    | inr q ↦
        let id = or_text scope.tenant_id scope.id in
        subst IsBindable (ground arith)
          (of_tenant id scope.product_id (ground arith) (ground arith))
  ]
]

identifier-full : (id : String) → scope_identifier id ≡ true → (id == "") ≡ false
unfolding scope_identifier
identifier-full id h = elim (Bool-cases (id == "")) [
  | inl blank ↦
      absurd (false_not_true (subst (λ i. scope_identifier i ≡ true) ((eq_iff id "").0 blank) h))
  | inr full ↦ full
]
  where
    false_not_true : ¬ (false ≡ true)
    false_not_true e = cc

identifier-nonempty : (id : String) → scope_identifier id ≡ true → id ≢ ""
identifier-nonempty id h e = ground (arith, identifier-full id h, eq_iff id "")

bindable-stays : (normal : Scope) → IsBindable normal → normalize_binding_scope normal ≡ ok normal
unfolding normalize_binding_scope
bindable-stays normal (of_product id valid) = ground (arith, identifier-full id valid, eq_refl id)
bindable-stays normal (of_tenant id product_id valid valid') =
    ground (arith, identifier-full id valid, eq_refl id)

-- Normalizing a scope that was normalized gives it back.
pub normalize_idempotent :
    (scope normal : Scope)
    → normalize_binding_scope scope ≡ ok normal
    → normalize_binding_scope normal ≡ ok normal
normalize_idempotent scope normal h = bindable-stays normal (normal-IsBindable scope normal h)

bindable-reach :
    (normal : Scope) (target : TargetScope)
    → IsBindable normal
    → scope_matches normal target ≡ true
    → (normal.product_id ≢ "")
      × ((target.product_id ≡ normal.product_id)
          ⊎ ((target.target_type ≡ "product") × (target.id ≡ normal.product_id)))
unfolding scope_matches
bindable-reach normal target (of_product id valid) h = (
  identifier-nonempty id valid,
  elim (Bool-cases (target.product_id == id)) [
    | inl same ↦ inl (eq_of_== target.product_id id same)
    | inr other ↦
        inr (
          eq_of_== target.target_type "product" (ground arith),
          eq_of_== target.id id (ground arith),
        )
  ],
)
bindable-reach normal target (of_tenant id product_id valid valid') h = (
  identifier-nonempty product_id valid',
  inl (eq_of_== target.product_id product_id (ground arith)),
)

-- A scope that can be bound never reaches beyond its product: whatever it matches names the product, or
-- is the product itself.
pub bound_scope_reach :
    (scope normal : Scope) (target : TargetScope)
    → normalize_binding_scope scope ≡ ok normal
    → scope_matches normal target ≡ true
    → (normal.product_id ≢ "")
      × ((target.product_id ≡ normal.product_id)
          ⊎ ((target.target_type ≡ "product") × (target.id ≡ normal.product_id)))
bound_scope_reach scope normal target h matches =
    bindable-reach normal target (normal-IsBindable scope normal h) matches
