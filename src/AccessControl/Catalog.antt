-- ===== src/AccessControl/Catalog.antt =====
-- The catalog of permissions: platform/backend/internal/modules/accesscontrol/catalog.go.
use Prim.Native.Char.{code}
use Prim.Native.String.{compare, [], ◌∷◌}
use mathlib.Core.List.{List, [], ◌∷◌}
use Prim.Native.Nat.{Ordering}
use unified_software_commerc.Prelude.{
  ℕ, String, Bool, true, false, not, ◌&&◌, ◌||◌, any, eqb, length, ◌==◌, if◌then◌else◌, Result, ok,
  ◌>>◌, guard,
}
use unified_software_commerc.Prelude.Text.{is_lower, is_digit}

pub data AccessError : Type 0 where
  no_active_scope invalid_scope_binding role_not_found scope_binding_conflict : AccessError
  idempotency_conflict operation_in_progress : AccessError
  invalid_permission_catalog unknown_permission : AccessError
  -- an error of the database or of the identifier generator
  external : ℕ → AccessError

pub data PermissionRisk : Type 0 where
  normal high : PermissionRisk
  other : String → PermissionRisk

pub record PermissionDefinition : Type 0 where
  pub code : String
  pub description : String
  pub risk : PermissionRisk
  pub grant_to_bootstrap_platform_super_admin : Bool

-- `byCode` holds the definitions by their codes.
pub record PermissionCatalog : Type 0 where
  pub version : String
  pub definitions : List PermissionDefinition

text_before : String → String → Bool
text_before a b = elim (compare a b) [ Ordering.lt ↦ true | _ ↦ false ]

insert_string : String → List String → List String
unfolding text_before
insert_string s [] = s ∷ []
insert_string s (t ∷ rest) =
    let behind = insert_string s rest in if text_before t s then t ∷ behind else s ∷ t ∷ rest

-- `sort.Strings`; Go's order of bytes is the order of code points.
unfoldable pub sort_strings : List String → List String
unfolding insert_string
sort_strings [] = []
sort_strings (s ∷ rest) = insert_string s (sort_strings rest)

abbrev pub catalog_contains : PermissionCatalog → String → Bool
catalog_contains catalog code = any (λ d. d.code == code) catalog.definitions

-- The loop of `ValidateRequiredPermissions`, with the codes seen before.
required_from : PermissionCatalog → List String → List String → Result AccessError (Unit {0})
required_from catalog seen [] = ok tt
required_from catalog seen (code ∷ rest) =
    guard (not (any (λ s. s == code) seen)) invalid_permission_catalog
    >> guard (catalog_contains catalog code) unknown_permission
    >> required_from catalog (code ∷ seen) rest

unfoldable pub validate_required_permissions :
    PermissionCatalog → List String → Result AccessError (Unit {0})
unfolding required_from
validate_required_permissions catalog codes = required_from catalog [] codes

-- `sort.SliceIsSorted` by code.
codes_sorted : List PermissionDefinition → Bool
unfolding text_before
codes_sorted [] = true
codes_sorted (d ∷ []) = true
codes_sorted (d ∷ e ∷ rest) = not (text_before e.code d.code) && codes_sorted (e ∷ rest)

known_risk : PermissionRisk → Bool
known_risk (other r) = false
known_risk _ = true

code_characters : String → Bool
code_characters [] = true
code_characters (c ∷ s) =
    (is_lower (code c)
      || is_digit (code c)
      || eqb (code c) b'.'
      || eqb (code c) b'_'
      || eqb (code c) b'-')
    && code_characters s

-- `permissionCodePattern`: `^[a-z0-9][a-z0-9._-]*$`
unfoldable pub permission_code : String → Bool
unfolding code_characters
permission_code [] = false
permission_code (c ∷ s) = (is_lower (code c) || is_digit (code c)) && code_characters s

-- The loop over the definitions, with the codes seen before.
definitions_hold : List String → List PermissionDefinition → Bool
unfolding known_risk permission_code
definitions_hold seen [] = true
definitions_hold seen (d ∷ rest) =
    permission_code d.code
    && not (d.description == "")
    && known_risk d.risk
    && not (any (λ s. s == d.code) seen)
    && definitions_hold (d.code ∷ seen) rest

unfoldable pub new_permission_catalog :
    String → List PermissionDefinition → Result AccessError PermissionCatalog
unfolding codes_sorted definitions_hold
new_permission_catalog version definitions =
    guard (not (version == "")) invalid_permission_catalog
    >> guard (not (eqb (length definitions) 0)) invalid_permission_catalog
    >> guard (codes_sorted definitions) invalid_permission_catalog
    >> guard (definitions_hold [] definitions) invalid_permission_catalog
    >> ok (record { version = version; definitions = definitions })
