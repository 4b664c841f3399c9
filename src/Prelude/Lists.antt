-- ===== src/Prelude/Lists.antt =====
-- Lists measured by native numbers, Boolean searches, and predicates on lists.
use Prim.Native.Nat.{ℕ, suc, ◌+◌}
use mathlib.Core.Path.{◌≡◌, subst, sym}
use mathlib.Core.Bool.{Bool, true, false, ◌&&◌, ◌||◌}
use mathlib.Core.Option.{Option, none, some}
use mathlib.Core.List.{List, [], ◌∷◌, ◌++◌, Memᴰ}
use native.Mathlib.Omega.{arith}
use mathlib.Core.Logic.{inl, inr}
use unified_software_commerc.Prelude.Tests.{if◌then◌else◌, Bool-cases}

module _ {ℓ} {A : Type ℓ} where
  abbrev pub length : List A → ℕ
  length [] = 0
  length (x ∷ xs) = suc (length xs)

  abbrev pub any : (A → Bool) → List A → Bool
  any p [] = false
  any p (x ∷ xs) = p x || any p xs

  abbrev pub all : (A → Bool) → List A → Bool
  all p [] = true
  all p (x ∷ xs) = p x && all p xs

  -- The elements that pass the test, in order.
  abbrev pub filter : (A → Bool) → List A → List A
  filter p [] = []
  filter p (x ∷ xs) = let rest = filter p xs in if p x then x ∷ rest else rest

  -- The first element that passes the test.
  abbrev pub find : (A → Bool) → List A → Option A
  find p [] = none
  find p (x ∷ xs) = let rest = find p xs in if p x then some x else rest

  pub length-append : (xs ys : List A) → length (xs ++ ys) ≡ length xs + length ys
  length-append [] ys = omega arith
  length-append (x ∷ xs) ys = omega (arith, length-append xs ys)

module _ {ℓ κ} {A : Type ℓ} (P : A → Type κ) where
  abbrev pub All : List A → Type κ
  All [] = Unit
  All (x ∷ xs) = P x × All xs

  pub All-append : (xs ys : List A) → All xs → All ys → All (xs ++ ys)
  All-append [] ys h k = k
  All-append (x ∷ xs) ys (p, h) k = (p, All-append xs ys h k)

  pub All-lookup : {a : A} (xs : List A) → All xs → Memᴰ a xs → P a
  All-lookup [] h m = elim m [ ]
  All-lookup (x ∷ xs) (p, h) (Memᴰ.head e) = subst P (sym e) p
  All-lookup (x ∷ xs) (p, h) (Memᴰ.tail m) = All-lookup xs h m

pub find-append {ℓ} :
    {A : Type ℓ} (p : A → Bool) (xs ys : List A) (a : A)
    → find p xs ≡ some a
    → find p (xs ++ ys) ≡ some a
find-append p [] ys a h = ground arith
find-append p (x ∷ xs) ys a h = ground (arith, find-append p xs ys a)

-- What is found passes the test.
pub find-holds {ℓ} :
    {A : Type ℓ} (p : A → Bool) (xs : List A) (a : A) → find p xs ≡ some a → p a ≡ true
find-holds p [] a h = ground arith
find-holds p (x ∷ xs) a h = ground (arith, find-holds p xs a)

pub All-weaken {ℓ κ μ} :
    {A : Type ℓ} (P : A → Type κ) (Q : A → Type μ) (xs : List A)
    → ((a : A) → P a → Q a)
    → All P xs
    → All Q xs
All-weaken P Q [] w h = tt
All-weaken P Q (x ∷ xs) w (p, h) = (w x p, All-weaken P Q xs w h)

-- A test that accepts more finds something too.
pub find-weaker {ℓ} :
    {A : Type ℓ} (p q : A → Bool) (xs : List A) (a : A)
    → ((x : A) → p x ≡ true → q x ≡ true)
    → find p xs ≡ some a
    → (b : A) × (find q xs ≡ some b)
find-weaker p q [] a w h = absurd (ground arith)
find-weaker p q (x ∷ xs) a w h = elim (Bool-cases (q x)) [
  | inl yes' ↦ (x, ground arith)
  | inr no' ↦ let (b, e) = find-weaker p q xs a w (ground (arith, w x)) in (b, ground arith)
]

-- What is found has what all elements have.
pub All-find {ℓ κ} :
    {A : Type ℓ} (P : A → Type κ) (p : A → Bool) (xs : List A) (a : A)
    → All P xs
    → find p xs ≡ some a
    → P a
All-find P p [] a h found = absurd (ground arith)
All-find P p (x ∷ xs) a (h, rest) found = elim (Bool-cases (p x)) [
  | inl here ↦ let e : x ≡ a = ground arith in subst P e h
  | inr past ↦ All-find P p xs a rest (ground arith)
]

-- The elements that are kept have what the test tells.
pub All-filter {ℓ κ} :
    {A : Type ℓ} (Q : A → Type κ) (p : A → Bool) (xs : List A)
    → ((a : A) → p a ≡ true → Q a)
    → All Q (filter p xs)
All-filter Q p [] w = tt
All-filter Q p (x ∷ xs) w = elim (Bool-cases (p x)) [
  | inl here ↦
      let e : x ∷ filter p xs ≡ filter p (x ∷ xs) = ground arith in
      subst (All Q) e (w x here, All-filter Q p xs w)
  | inr past ↦
      let e : filter p xs ≡ filter p (x ∷ xs) = ground arith in
      subst (All Q) e (All-filter Q p xs w)
]
