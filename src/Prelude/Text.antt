-- ===== src/Prelude/Text.antt =====
-- Text functions of Go's standard library that the code calls on its identifiers: `strings.TrimSpace`
-- and the two regular expressions for stable codes and scope identifiers. A text is the native
-- `String`; `len` counts its UTF-8 bytes and `count` its runes, as `len` and
-- `utf8.RuneCountInString` do.
use Prim.Native.Nat.{ℕ, zero, suc}
use Prim.Native.Char.{Char, code}
use Prim.Native.String.{String, [], ◌∷◌, len, count}
use mathlib.Core.Bool.{Bool, true, false, ◌&&◌, ◌||◌}
use mathlib.Core.Path.{◌≡◌}
use mathlib.Core.Logic.{◌≢◌}
use native.Mathlib.Omega.{arith}
use unified_software_commerc.Prelude.Tests.{leb, eqb, if◌then◌else◌}
use unified_software_commerc.Prelude.Lists.{All}
use unified_software_commerc.Prelude.Slices.{bytes_of}

-- `unicode.IsSpace`
abbrev pub is_space : ℕ → Bool
is_space c =
    (leb 9 c && leb c 13)
    || eqb c 32
    || eqb c 0x85
    || eqb c 0xa0
    || eqb c 0x1680
    || (leb 0x2000 c && leb c 0x200a)
    || eqb c 0x2028
    || eqb c 0x2029
    || eqb c 0x202f
    || eqb c 0x205f
    || eqb c 0x3000

abbrev pub is_lower : ℕ → Bool
is_lower c = leb b'a' c && leb c b'z'

abbrev pub is_upper : ℕ → Bool
is_upper c = leb b'A' c && leb c b'Z'

abbrev pub is_digit : ℕ → Bool
is_digit c = leb b'0' c && leb c b'9'

trim_left : String → String
trim_left [] = []
trim_left (c ∷ s) = let rest = trim_left s in if is_space (code c) then rest else c ∷ s

-- A space is dropped if nothing but spaces follows it.
trim_right : String → String
trim_right [] = []
trim_right (c ∷ s) = attach c (trim_right s)
  where
    attach : Char → String → String
    attach d [] = if is_space (code d) then [] else d ∷ []
    attach d (e ∷ t) = d ∷ e ∷ t

-- `strings.TrimSpace`
unfoldable pub trim_space : String → String
unfolding trim_left trim_right
trim_space s = trim_right (trim_left s)

-- The rest of `^[a-z][a-z0-9]*(?:[._-][a-z0-9]+)*$` behind its first letter; `open` says that a
-- separator was just read, so that a letter or a digit must follow.
code_tail : Bool → String → Bool
code_tail after_separator [] = if after_separator then false else true
code_tail after_separator (c ∷ s) =
    let in_word = code_tail false s in
    let behind_separator = code_tail true s in
    if is_lower (code c) || is_digit (code c)
    then in_word
    else if after_separator
    then false
    else if eqb (code c) b'.' || eqb (code c) b'_' || eqb (code c) b'-'
    then behind_separator
    else false

-- `stableCodePattern`, `identifierPattern`, `stableRoleCodePattern`
unfoldable pub stable_code : String → Bool
unfolding code_tail
stable_code [] = false
stable_code (c ∷ s) = is_lower (code c) && code_tail false s

code_tail-line :
    (after_separator : Bool) (s : String)
    → code_tail after_separator s ≡ true
    → All (λ x. x ≢ 10) (bytes_of s)
unfolding code_tail
code_tail-line after_separator [] h = tt
code_tail-line after_separator (c ∷ s) h = (
  λ newline. absurd (ground arith),
  ground (arith, code_tail-line true s, code_tail-line false s),
)

-- A stable code stands on one line.
pub stable_code-line : (s : String) → stable_code s ≡ true → All (λ x. x ≢ 10) (bytes_of s)
unfolding stable_code
stable_code-line [] h = tt
stable_code-line (c ∷ s) h =
    (λ newline. absurd (ground arith), code_tail-line false s (ground arith))

scope_char : ℕ → Bool
scope_char c =
    is_lower c || is_upper c || is_digit c || eqb c b'.' || eqb c b'_' || eqb c b':' || eqb c b'-'

-- `{0,127}` of the class, to the end of the text.
scope_tail : ℕ → String → Bool
scope_tail n [] = true
scope_tail zero (c ∷ s) = false
scope_tail (suc n) (c ∷ s) = scope_char (code c) && scope_tail n s

-- `scopeIdentifierPattern`: `^[A-Za-z0-9][A-Za-z0-9._:-]{0,127}$`
unfoldable pub scope_identifier : String → Bool
unfolding scope_char scope_tail
scope_identifier [] = false
scope_identifier (c ∷ s) =
    (is_lower (code c) || is_upper (code c) || is_digit (code c)) && scope_tail 127 s

hex_digits : ℕ → String → Bool
hex_digits zero [] = true
hex_digits zero (c ∷ s) = false
hex_digits (suc n) [] = false
hex_digits (suc n) (c ∷ s) =
    ((leb b'a' (code c) && leb (code c) b'f') || is_digit (code c)) && hex_digits n s

behind : String → String → (String → Bool) → Bool
behind [] s test = test s
behind (p ∷ ps) [] test = false
behind (p ∷ ps) (c ∷ s) test = eqb (code p) (code c) && behind ps s test

-- `digestPattern`: `^sha256:[a-f0-9]{64}$`
unfoldable pub is_digest : String → Bool
unfolding hex_digits behind
is_digest s = behind "sha256:" s (hex_digits 64)

-- `lo <= len(s) && len(s) <= hi`
abbrev pub len_within : ℕ → ℕ → String → Bool
len_within lo hi s = leb lo (len s) && leb (len s) hi

-- `lo <= utf8.RuneCountInString(s) && … <= hi`
abbrev pub count_within : ℕ → ℕ → String → Bool
count_within lo hi s = leb lo (count s) && leb (count s) hi

-- The text behind the prefix, or the whole text.
after_prefix : String → String → String → String
after_prefix whole [] rest = rest
after_prefix whole (p ∷ prefix) [] = whole
after_prefix whole (p ∷ prefix) (c ∷ rest) =
    let others = after_prefix whole prefix rest in if eqb (code p) (code c) then others else whole

-- `strings.TrimPrefix(s, prefix)`
unfoldable pub trim_prefix : String → String → String
unfolding after_prefix
trim_prefix s prefix = after_prefix s prefix s
