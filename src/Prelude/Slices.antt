-- ===== src/Prelude/Slices.antt =====
-- Go's slices of bytes: a byte string is a list of numbers, and `bytes.Index`, `bytes.Count` and
-- slicing are functions on it.
use Prim.Native.Nat.{ℕ, zero, suc, ◌+◌, ◌-◌, ◌≤◌, ◌<◌}
use Prim.Native.Char.{code}
use Prim.Native.String.{String}
use mathlib.Core.Path.{◌≡◌, refl, sym, ap, subst, ◌∙◌}
use mathlib.Core.Bool.{Bool, true, false, ◌&&◌}
use mathlib.Core.Option.{Option, none, some}
use mathlib.Core.List.{List, [], ◌∷◌, ◌++◌}
use native.Mathlib.Omega.{arith}
use mathlib.Core.Logic.{◌≢◌, inl, inr}
use unified_software_commerc.Prelude.Tests.{eqb, if◌then◌else◌, Bool-cases, Option-cases}
use unified_software_commerc.Prelude.Lists.{length, All}

module _ {ℓ} {A : Type ℓ} where
  -- `value[:n]`
  abbrev pub take : ℕ → List A → List A
  take zero xs = []
  take (suc n) [] = []
  take (suc n) (x ∷ xs) = x ∷ take n xs

  -- `value[n:]`
  abbrev pub drop : ℕ → List A → List A
  drop zero xs = xs
  drop (suc n) [] = []
  drop (suc n) (x ∷ xs) = drop n xs

  -- `value[n]`, or nothing past the end.
  abbrev pub get_elem? : List A → ℕ → Option A
  get_elem? [] n = none
  get_elem? (x ∷ xs) zero = some x
  get_elem? (x ∷ xs) (suc n) = get_elem? xs n

  pub take-append : (xs ys : List A) (n : ℕ) → n ≡ length xs → take n (xs ++ ys) ≡ xs
  take-append [] ys zero e = refl
  take-append [] ys (suc n) e = absurd (omega arith)
  take-append (x ∷ xs) ys zero e = absurd (omega arith)
  take-append (x ∷ xs) ys (suc n) e = ap (λ t. x ∷ t) (take-append xs ys n (omega arith))

  pub drop-append : (xs ys : List A) (n : ℕ) → n ≡ length xs → drop n (xs ++ ys) ≡ ys
  drop-append [] ys zero e = refl
  drop-append [] ys (suc n) e = absurd (omega arith)
  drop-append (x ∷ xs) ys zero e = absurd (omega arith)
  drop-append (x ∷ xs) ys (suc n) e = drop-append xs ys n (omega arith)

  pub take-append-drop : (n : ℕ) (xs : List A) → take n xs ++ drop n xs ≡ xs
  take-append-drop zero xs = refl
  take-append-drop (suc n) [] = refl
  take-append-drop (suc n) (x ∷ xs) = ap (λ t. x ∷ t) (take-append-drop n xs)

  take-nil : (n : ℕ) → take n [] ≡ []
  take-nil zero = refl
  take-nil (suc n) = refl

  pub take-add : (m n : ℕ) (xs : List A) → take (m + n) xs ≡ take m xs ++ take n (drop m xs)
  take-add zero n xs = ap (λ k. take k xs) (omega arith)
  take-add (suc m) n [] =
      ap (λ k. take k []) {x = suc m + n} {y = suc (m + n)} (omega arith) ∙ sym (take-nil n)
  take-add (suc m) n (x ∷ xs) =
      ap (λ k. take k (x ∷ xs)) {x = suc m + n} {y = suc (m + n)} (omega arith)
      ∙ ap (λ t. x ∷ t) (take-add m n xs)

  pub length-take : (n : ℕ) (xs : List A) → n ≤ length xs → length (take n xs) ≡ n
  length-take zero xs h = refl
  length-take (suc n) [] h = absurd (omega arith)
  length-take (suc n) (x ∷ xs) h = omega (arith, length-take n xs (omega arith))

  pub length-drop : (n : ℕ) (xs : List A) → length (drop n xs) ≡ length xs - n
  length-drop zero xs = omega arith
  length-drop (suc n) [] = omega arith
  length-drop (suc n) (x ∷ xs) = omega (arith, length-drop n xs)

  drop-nil : (n : ℕ) → drop n [] ≡ []
  drop-nil zero = refl
  drop-nil (suc n) = refl

  pub drop-drop : (m n : ℕ) (xs : List A) → drop n (drop m xs) ≡ drop (m + n) xs
  drop-drop zero n xs = ap (λ k. drop k xs) (omega arith)
  drop-drop (suc m) n [] = drop-nil n ∙ sym (drop-nil (suc m + n))
  drop-drop (suc m) n (x ∷ xs) =
      drop-drop m n xs ∙ ap (λ k. drop k (x ∷ xs)) {x = suc (m + n)} (omega arith)

  pub get_elem?-drop :
      (n k m : ℕ) (xs : List A) → m ≡ n + k → get_elem? xs m ≡ get_elem? (drop n xs) k
  get_elem?-drop zero k m xs e = ap (get_elem? xs) (omega arith)
  get_elem?-drop (suc n) k m [] e = refl
  get_elem?-drop (suc n) k zero (x ∷ xs) e = absurd (omega arith)
  get_elem?-drop (suc n) k (suc m) (x ∷ xs) e = get_elem?-drop n k m xs (omega arith)

  pub get_elem?-append :
      (xs ys : List A) (k n : ℕ) → n ≡ length xs + k → get_elem? (xs ++ ys) n ≡ get_elem? ys k
  get_elem?-append [] ys k n e = ap (get_elem? ys) (omega arith)
  get_elem?-append (x ∷ xs) ys k zero e = absurd (omega arith)
  get_elem?-append (x ∷ xs) ys k (suc n) e = get_elem?-append xs ys k n (omega arith)

-- The bytes of an ASCII text.
abbrev pub bytes_of : String → List ℕ
bytes_of String.[] = []
bytes_of (String.◌∷◌ c s) = code c ∷ bytes_of s

-- `bytes.HasPrefix(value, token)`
abbrev pub has_prefix : List ℕ → List ℕ → Bool
has_prefix [] value = true
has_prefix (t ∷ token) [] = false
has_prefix (t ∷ token) (v ∷ value) = eqb t v && has_prefix token value

one_later : Option ℕ → Option ℕ
one_later none = none
one_later (some i) = some (suc i)

-- `bytes.Index`; nothing stands for its -1.
unfoldable pub index_of : List ℕ → List ℕ → Option ℕ
unfolding one_later
index_of token [] = if has_prefix token [] then some 0 else none
index_of token (v ∷ value) =
    let later = one_later (index_of token value) in
    if has_prefix token (v ∷ value) then some 0 else later

-- `bytes.Count` of a token that is not empty: occurrences that do not overlap. `skip` bytes still
-- belong to the last occurrence.
unfoldable pub count_after : ℕ → List ℕ → List ℕ → ℕ
count_after skip token [] = 0
count_after (suc skip) token (v ∷ value) = count_after skip token value
count_after zero token (v ∷ value) =
    let behind = count_after (length token - 1) token value in
    let later = count_after 0 token value in
    if has_prefix token (v ∷ value) then suc behind else later

unfoldable pub count_of : List ℕ → List ℕ → ℕ
unfolding count_after
count_of token value = count_after 0 token value

pub has_prefix-append : (token value : List ℕ) → has_prefix token (token ++ value) ≡ true
has_prefix-append [] value = refl
has_prefix-append (t ∷ token) value = ground (arith, has_prefix-append token value)

pub has_prefix-drop :
    (token value : List ℕ)
    → has_prefix token value ≡ true
    → value ≡ token ++ drop (length token) value
has_prefix-drop [] value h = refl
has_prefix-drop (t ∷ token) [] h = absurd (ground arith)
has_prefix-drop (t ∷ token) (v ∷ value) h = ground (arith, has_prefix-drop token value)

-- A token lies at an index.
abbrev pub LiesAt : List ℕ → List ℕ → ℕ → Type 0
LiesAt token value i =
    (drop i value ≡ token ++ drop (length token) (drop i value)) × (i + length token ≤ length value)

length-has_prefix :
    (token value : List ℕ) → has_prefix token value ≡ true → length token ≤ length value
length-has_prefix [] value h = omega arith
length-has_prefix (t ∷ token) [] h = absurd (ground arith)
length-has_prefix (t ∷ token) (v ∷ value) h = ground (arith, length-has_prefix token value)

LiesAt-first : (token value : List ℕ) → has_prefix token value ≡ true → LiesAt token value 0
LiesAt-first token value h =
    (has_prefix-drop token value h, omega (arith, length-has_prefix token value h))

LiesAt-later :
    (token value : List ℕ) (v i : ℕ) → LiesAt token value i → LiesAt token (v ∷ value) (suc i)
LiesAt-later token value v i (e, h) = (e, omega arith)

-- An index that was found is one where the token lies.
pub index_of-LiesAt :
    (token value : List ℕ) (i : ℕ) → index_of token value ≡ some i → LiesAt token value i
unfolding index_of
index_of-LiesAt token [] i h = elim (Bool-cases (has_prefix token [])) [
  | inl here ↦
      let e : 0 ≡ i = ground arith in subst (LiesAt token []) e (LiesAt-first token [] here)
  | inr past ↦ absurd (ground arith)
]
index_of-LiesAt token (v ∷ value) i h = elim (Bool-cases (has_prefix token (v ∷ value))) [
  | inl here ↦
      let e : 0 ≡ i = ground arith in
      subst (LiesAt token (v ∷ value)) e (LiesAt-first token (v ∷ value) here)
  | inr past ↦ elim (Option-cases (index_of token value)) [
    | inl none' ↦ absurd (ground arith)
    | inr (j, found) ↦
        let e : suc j ≡ i = ground arith in
        subst (LiesAt token (v ∷ value)) e
          (LiesAt-later token value v j (index_of-LiesAt token value j found))
  ]
]

-- Behind the bytes to be skipped, a token that lies ahead is counted.
count_after-pos :
    (token before after : List ℕ) (skip : ℕ)
    → 0 < length token
    → skip ≤ length before
    → 0 < count_after skip token (before ++ (token ++ after))
unfolding count_after
count_after-pos [] before after skip pos h = absurd (omega arith)
count_after-pos (t ∷ token) [] after zero pos h = ground (arith, has_prefix-append token after)
count_after-pos (t ∷ token) [] after (suc skip) pos h = absurd (omega arith)
count_after-pos (t ∷ token) (b ∷ before) after zero pos h =
    elim (Bool-cases (has_prefix (t ∷ token) (b ∷ (before ++ ((t ∷ token) ++ after))))) [
      | inl here ↦ ground arith
      | inr past ↦ ground (arith, count_after-pos (t ∷ token) before after 0)
    ]
count_after-pos (t ∷ token) (b ∷ before) after (suc skip) pos h =
    ground (arith, count_after-pos (t ∷ token) before after skip)

-- Empty, or with a newline as its last byte.
abbrev pub EndsLine : List ℕ → Type 0
EndsLine [] = Unit
EndsLine (x ∷ []) = x ≡ 10
EndsLine (x ∷ y ∷ xs) = EndsLine (y ∷ xs)

EndsLine-tail : (x : ℕ) (xs : List ℕ) → EndsLine (x ∷ xs) → EndsLine xs
EndsLine-tail x [] h = tt
EndsLine-tail x (y ∷ xs) h = h

-- A token without a newline that starts in the lines before ends before them.
length-in_line :
    (token before after : List ℕ)
    → All (λ x. x ≢ 10) token
    → EndsLine before
    → 0 < length before
    → has_prefix token (before ++ after) ≡ true
    → length token < length before
length-in_line token [] after clean ends pos h = absurd (omega arith)
length-in_line [] (b ∷ before) after clean ends pos h = omega arith
length-in_line (t ∷ token) (b ∷ []) after (other, clean) ends pos h = absurd (other (ground arith))
length-in_line (t ∷ token) (b ∷ c ∷ before) after (other, clean) ends pos h =
    ground (arith, length-in_line token (c ∷ before) after clean ends)

-- A token without a newline that is counted once, and lies at the start of a line, is found there.
pub index_of-once :
    (token before after : List ℕ)
    → 0 < length token
    → All (λ x. x ≢ 10) token
    → EndsLine before
    → count_after 0 token (before ++ (token ++ after)) ≡ 1
    → index_of token (before ++ (token ++ after)) ≡ some (length before)
unfolding count_after index_of
index_of-once [] before after pos clean ends once = absurd (omega arith)
index_of-once (t ∷ token) [] after pos clean ends once =
    ground (arith, has_prefix-append token after)
index_of-once (t ∷ token) (b ∷ before) after pos clean ends once =
    elim (Bool-cases (has_prefix (t ∷ token) (b ∷ (before ++ ((t ∷ token) ++ after))))) [
      | inl here ↦ absurd (
          ground (
            arith,
            count_after-pos (t ∷ token) before after (length token),
            length-in_line (t ∷ token) (b ∷ before) ((t ∷ token) ++ after) clean ends,
          ))
      | inr past ↦
          ground
            (arith, index_of-once (t ∷ token) before after pos clean (EndsLine-tail b before ends))
    ]

pub EndsLine-suffix : (xs ys : List ℕ) → EndsLine (xs ++ ys) → EndsLine ys
EndsLine-suffix [] ys h = h
EndsLine-suffix (x ∷ xs) ys h = EndsLine-suffix xs ys (EndsLine-tail x (xs ++ ys) h)

pub EndsLine-append : (xs ys : List ℕ) → EndsLine ys → 0 < length ys → EndsLine (xs ++ ys)
EndsLine-append [] ys h pos = h
EndsLine-append (x ∷ []) [] h pos = absurd (omega arith)
EndsLine-append (x ∷ []) (y ∷ ys) h pos = h
EndsLine-append (x ∷ z ∷ xs) ys h pos = EndsLine-append (z ∷ xs) ys h pos

-- The byte before the rest, if there is one, is the newline.
pub get_elem?-EndsLine :
    (x : ℕ) (xs ys : List ℕ) → EndsLine (x ∷ xs) → get_elem? ((x ∷ xs) ++ ys) (length xs) ≡ some 10
get_elem?-EndsLine x [] ys h = ap some h
get_elem?-EndsLine x (y ∷ xs) ys h = get_elem?-EndsLine y xs ys h

pub EndsLine-take : (xs : List ℕ) (n : ℕ) → get_elem? xs n ≡ some 10 → EndsLine (take (suc n) xs)
EndsLine-take [] n h = absurd (ground arith)
EndsLine-take (x ∷ xs) zero h = ground arith
EndsLine-take (x ∷ []) (suc n) h = absurd (ground arith)
EndsLine-take (x ∷ y ∷ xs) (suc n) h = EndsLine-take (y ∷ xs) n h
