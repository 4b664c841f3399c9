-- ===== src/Generation/Paths.antt =====
-- Paths: platform/backend/internal/modules/assembly/machinecontract/path.go and the tests on paths, owners and
-- digests of assembly/generation/target.go. `lower` stands for `strings.ToLower`, which folds all
-- of Unicode.
use Prim.Native.String.{len, compare, ◌++◌ as ◌<>◌}
use Prim.Native.Nat.{Ordering}
use text.Mathlib.Text.{starts_with}
use unified_software_commerc.Prelude.{
  ℕ, ◌-◌, String, Bool, true, false, not, ◌&&◌, ◌||◌, List, [], ◌∷◌, map, any, all, leb, eqb, ◌==◌,
  if◌then◌else◌,
}
use unified_software_commerc.Prelude.Slices.{bytes_of}
use unified_software_commerc.Prelude.Text.{is_lower}

-- Adds a character to the first text.
on_first : List ℕ → List (List ℕ) → List (List ℕ)
on_first part [] = part ∷ []
on_first (x ∷ []) (first ∷ rest) = (x ∷ first) ∷ rest
on_first part rest = part ∷ rest

-- `strings.Split(value, "/")`, on the code points.
segments : List ℕ → List (List ℕ)
unfolding on_first
segments [] = [] ∷ []
segments (x ∷ value) =
    let rest = segments value in if eqb x b'/' then [] ∷ rest else on_first (x ∷ []) rest

last_is : ℕ → List ℕ → Bool
last_is b [] = false
last_is b (x ∷ []) = eqb x b
last_is b (x ∷ y ∷ rest) = last_is b (y ∷ rest)

same_codes : List ℕ → List ℕ → Bool
same_codes [] [] = true
same_codes (x ∷ xs) (y ∷ ys) = eqb x y && same_codes xs ys
same_codes xs ys = false

-- `strings.SplitN(segment, ".", 2)[0]`
base_of : List ℕ → List ℕ
base_of [] = []
base_of (x ∷ rest) = let base = base_of rest in if eqb x b'.' then [] else x ∷ base

-- `strings.ToUpper`, as far as a comparison with a text of A-Z other than I, K and S can tell.
upper_code : ℕ → ℕ
upper_code c = if is_lower c then c - 32 else c

-- `COM1` to `COM9`, and `LPT1` to `LPT9`.
numbered : List ℕ → String → Bool
unfolding same_codes
numbered (a ∷ b ∷ c ∷ d ∷ []) prefix =
    same_codes (a ∷ b ∷ c ∷ []) (bytes_of prefix) && leb b'1' d && leb d b'9'
numbered base prefix = false

reserved_base : List ℕ → Bool
unfolding numbered same_codes
reserved_base base =
    same_codes base (bytes_of "CON")
    || same_codes base (bytes_of "PRN")
    || same_codes base (bytes_of "AUX")
    || same_codes base (bytes_of "NUL")
    || numbered base "COM"
    || numbered base "LPT"

unfoldable pub reserved_windows_name : List ℕ → Bool
unfolding base_of upper_code reserved_base
reserved_windows_name segment = reserved_base (map upper_code (base_of segment))

safe_segment : List ℕ → Bool
unfolding same_codes last_is reserved_windows_name
safe_segment segment =
    not (same_codes segment [])
    && not (same_codes segment (bytes_of "."))
    && not (same_codes segment (bytes_of ".."))
    && not (any (λ c. eqb c b':') segment)
    && not (last_is b'.' segment)
    && not (last_is b' ' segment)
    && not (reserved_windows_name segment)

-- `path.Clean`, and the test for an absolute path, refuse no text that the segments do not refuse: a
-- leading slash makes an empty segment.
unfoldable pub safe_relative_path : String → Bool
unfolding safe_segment segments
safe_relative_path value =
    not (value == "")
    && leb (len value) 1024
    && not (any (λ c. eqb c 0 || eqb c 92) (bytes_of value))
    && all safe_segment (segments (bytes_of value))

unfoldable pub valid_ownership : String → Bool
valid_ownership value =
    value == "generated" || value == "integration" || value == "custom" || value == "forked"

-- `left < right` of Go's texts.
unfoldable pub text_lt : String → String → Bool
text_lt left right = elim (compare left right) [ Ordering.lt ↦ true | _ ↦ false ]

module _ (lower : String → String) where
  unfoldable pub paths_overlap : String → String → Bool
  paths_overlap left right =
      lower left == lower right
      || starts_with (lower left) (lower right <> "/")
      || starts_with (lower right) (lower left <> "/")

  unfoldable pub digest_equal : String → String → Bool
  digest_equal left right = eqb (len left) (len right) && lower left == lower right
