-- ===== src/AccessControl/Tests.antt =====
-- Authorizations and scopes on concrete administrators.
use unified_software_commerc.Prelude.{
  true, false, some, [], ◌∷◌, any, find, ◌≡◌, ◌≢◌, ◌⊎◌, ◌↔◌, refl, ok, ◌==◌,
}
use unified_software_commerc.Prelude.Text.{scope_identifier}
use unified_software_commerc.AccessControl.Catalog.{
  PermissionCatalog, PermissionRisk, catalog_contains, validate_required_permissions, sort_strings,
}
use unified_software_commerc.AccessControl.{
  Scope, Snapshot, TargetScope, Decision, scope_matches, resolve_snapshot, authorize_admin,
}
use unified_software_commerc.AccessControl.Binding.{normalize_binding_scope}
use unified_software_commerc.AccessControl.Laws.{
  authorize_allowed, normalize_idempotent, bound_scope_reach,
}

abbrev a_catalog : PermissionCatalog
a_catalog = record {
  version = "1.3.0";
  definitions =
      record {
        code = "product.read";
        description = "Read software product information";
        risk = PermissionRisk.normal;
        grant_to_bootstrap_platform_super_admin = true;
      }
      ∷ [];
}

abbrev given_scope : Scope
given_scope = record { scope_type = "product"; id = "prod_1"; product_id = ""; tenant_id = "" }

abbrev normal_scope : Scope
normal_scope = record {
  scope_type = "product";
  id = "prod_1";
  product_id = "prod_1";
  tenant_id = "";
}

abbrev a_target : TargetScope
a_target = record { target_type = "product"; id = "prod_1"; product_id = ""; tenant_id = "" }

abbrev a_snapshot : Snapshot
a_snapshot = record {
  authorization_version = 1;
  roles = "product.viewer" ∷ [];
  permissions = "product.read" ∷ [];
  scopes = normal_scope ∷ [];
  reauthentication_required = false;
}

abbrev a_decision : Decision
a_decision = record {
  allowed = true;
  matched_scope = some normal_scope;
  reason_code = "";
  reauthentication_required = false;
}

decides : authorize_admin a_catalog (ok a_snapshot) "product.read" a_target ≡ ok a_decision
unfolding authorize_admin resolve_snapshot scope_matches validate_required_permissions sort_strings
decides = refl

authorize_allowed_example : (true ≡ true) ↔ (
    (snapshot : Snapshot) × (scope : Scope) × (catalog_contains a_catalog "product.read" ≡ true)
    × (resolve_snapshot a_catalog (ok a_snapshot) ≡ ok snapshot)
    × (any (λ p. p == "product.read") snapshot.permissions ≡ true)
    × (find (λ s. scope_matches s a_target) snapshot.scopes ≡ some scope)
    × (some normal_scope ≡ some scope))
authorize_allowed_example =
    authorize_allowed a_catalog (ok a_snapshot) "product.read" a_target a_decision decides

normalizes : normalize_binding_scope given_scope ≡ ok normal_scope
unfolding normalize_binding_scope scope_identifier
normalizes = refl

normalize_idempotent_example : normalize_binding_scope normal_scope ≡ ok normal_scope
normalize_idempotent_example = normalize_idempotent given_scope normal_scope normalizes

matches_product : scope_matches normal_scope a_target ≡ true
unfolding scope_matches
matches_product = refl

bound_scope_reach_example :
    (normal_scope.product_id ≢ "")
    × ((a_target.product_id ≡ normal_scope.product_id)
        ⊎ ((a_target.target_type ≡ "product") × (a_target.id ≡ normal_scope.product_id)))
bound_scope_reach_example =
    bound_scope_reach given_scope normal_scope a_target normalizes matches_product
