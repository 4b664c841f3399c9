-- ===== src/Product/Checks.antt =====
-- The tests of commands of platform/backend/internal/modules/product/product.go.
use unified_software_commerc.Prelude.{
  ℕ, String, Bool, true, not, ◌&&◌, ◌||◌, Option, List, [], ◌∷◌, any, ltb, eqb, ◌==◌, if◌then◌else◌,
  Result, ok, err, ◌>>=◌, ◌>>◌, guard, or_err,
}
use unified_software_commerc.Prelude.Text.{trim_space, stable_code, is_digest, len_within}
use unified_software_commerc.AccessControl.Catalog.{sort_strings}
use unified_software_commerc.Product.Model.{ProductError, invalid_product_command, CapabilityItem}
use unified_software_commerc.Product.Store.Capabilities.{sort_items}

unfoldable pub valid_environment : String → Bool
valid_environment value = value == "local" || value == "test" || value == "production"

-- The loop of `normalizeEnvironments`, with the values seen before.
distinct_environments : List String → List String → Bool
unfolding valid_environment
distinct_environments seen [] = true
distinct_environments seen (value ∷ rest) =
    valid_environment value
    && not (any (λ s. s == value) seen)
    && distinct_environments (value ∷ seen) rest

or_default : List String → List String
or_default [] = "local" ∷ "test" ∷ "production" ∷ []
or_default (value ∷ rest) = value ∷ rest

unfoldable pub normalize_environments : List String → Result ProductError (List String)
unfolding distinct_environments or_default sort_strings
normalize_environments values =
    guard (distinct_environments [] (or_default values)) invalid_product_command
    >> ok (sort_strings (or_default values))

unfoldable pub validate_proof_material : String → String → String → Result ProductError (Unit {0})
validate_proof_material proof_type proof_digest public_key =
    if proof_type == "hmac_sha256_v1"
    then guard (is_digest proof_digest && public_key == "") invalid_product_command
    else if proof_type == "ed25519_signature_v1"
    then guard
        (proof_digest == "" && not (trim_space public_key == "") && len_within 0 512 public_key)
        invalid_product_command
    else err invalid_product_command

-- The period of a credential: `NotBefore.IsZero()` and `ExpiresAt.After(NotBefore)`.
unfoldable pub valid_period : ℕ → ℕ → Bool
valid_period not_before expires_at = not (eqb not_before 0) && ltb not_before expires_at

-- `normalize` reads a policy as a JSON object and writes it again.
module _ (normalize : String → Option String) where
  -- The loop of `normalizeCapabilityItems`, with the identifiers seen before.
  normalize_items : List String → List CapabilityItem → Result ProductError (List CapabilityItem)
  normalize_items seen [] = ok []
  normalize_items seen (item ∷ rest) =
      guard
        (stable_code item.capability_id
          && stable_code item.source_package_id
          && not (item.source_package_version == "")
          && not (any (λ s. s == item.capability_id) seen))
        invalid_product_command
      >> or_err (normalize (if item.policy == "" then "{}" else item.policy))
          invalid_product_command
      >>= λ policy. normalize_items (item.capability_id ∷ seen) rest >>= λ others.
          ok (record item { policy = policy } ∷ others)

  unfoldable pub normalize_capability_items :
      List CapabilityItem → Result ProductError (List CapabilityItem)
  unfolding normalize_items sort_items
  normalize_capability_items items = normalize_items [] items >>= λ result. ok (sort_items result)
