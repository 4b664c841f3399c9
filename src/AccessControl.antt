-- ===== src/AccessControl.antt =====
-- Who may do what: platform/backend/internal/modules/accesscontrol/accesscontrol.go and catalog.go.
-- The stored snapshot of an administrator comes from the repository, whose tables are not modelled.
pub mod Catalog
pub mod Binding
pub mod Laws
mod Tests
use unified_software_commerc.Prelude.{
  ℕ, String, Bool, true, false, not, ◌&&◌, ◌||◌, Option, none, some, List, [], ◌∷◌, find, any, eqb,
  length, ◌==◌, if◌then◌else◌, Result, ok, err, ◌>>=◌, ◌>>◌, guard,
}
use unified_software_commerc.AccessControl.Catalog.{
  AccessError, no_active_scope, PermissionCatalog, catalog_contains, validate_required_permissions,
  sort_strings,
}

pub record Scope : Type 0 where
  pub scope_type : String
  pub id : String
  pub product_id : String
  pub tenant_id : String

pub record Snapshot : Type 0 where
  pub authorization_version : ℕ
  pub roles : List String
  pub permissions : List String
  pub scopes : List Scope
  pub reauthentication_required : Bool

pub record TargetScope : Type 0 where
  pub target_type : String
  pub id : String
  pub product_id : String
  pub tenant_id : String

pub record Decision : Type 0 where
  pub allowed : Bool
  pub matched_scope : Option Scope
  pub reason_code : String
  pub reauthentication_required : Bool

unfoldable pub scope_matches : Scope → TargetScope → Bool
scope_matches scope target =
    if scope.scope_type == "platform"
    then true
    else if scope.scope_type == "product"
    then target.product_id == scope.product_id
      || (target.target_type == "product" && target.id == scope.id)
    else scope.scope_type == "tenant"
      && target.tenant_id == scope.tenant_id
      && target.product_id == scope.product_id

-- `ResolveAdminAccessSnapshot`, of what the repository returns for the administrator.
unfoldable pub resolve_snapshot :
    PermissionCatalog → Result AccessError Snapshot → Result AccessError Snapshot
resolve_snapshot catalog stored = stored >>= λ snapshot.
    guard (not (eqb (length snapshot.scopes) 0) && not (eqb (length snapshot.permissions) 0))
      no_active_scope
    >> validate_required_permissions catalog snapshot.permissions
    >> ok (record snapshot {
      roles = sort_strings snapshot.roles;
      permissions = sort_strings snapshot.permissions;
    })

abbrev pub refused : String → Decision
refused reason_code = record {
  allowed = false;
  matched_scope = none;
  reason_code = reason_code;
  reauthentication_required = false;
}

unfoldable pub authorize_admin :
    PermissionCatalog
    → Result AccessError Snapshot
    → String
    → TargetScope
    → Result AccessError Decision
unfolding scope_matches resolve_snapshot
authorize_admin catalog stored permission target =
    if not (catalog_contains catalog permission)
    then ok (refused "unknown_permission")
    else (resolve_snapshot catalog stored >>= λ snapshot.
        if not (any (λ p. p == permission) snapshot.permissions)
        then ok (refused "permission_missing")
        else (elim (find (λ scope. scope_matches scope target) snapshot.scopes) [
          | none ↦ ok (refused "scope_mismatch")
          | some scope ↦ ok (record {
            allowed = true;
            matched_scope = some scope;
            reason_code = "";
            reauthentication_required = snapshot.reauthentication_required;
          })
        ]))
