-- ===== src/Product/Laws/Credentials.antt =====
-- At most one credential of a client is active: what the writes to the credentials keep.
use unified_software_commerc.Prelude.{
  ℕ, String, Bool, true, false, ◌&&◌, List, [], ◌∷◌, ◌++◌, map, any, ◌==◌, ◌≡◌, ◌⊎◌, inl, inr, refl,
  sym, ap, subst, arith, All, All-append, Bool-cases, eq_of_==, eq_refl,
}
use unified_software_commerc.Product.Model.{Client, ClientCredential}
use unified_software_commerc.Product.Store.Credentials.{
  of_client, revoked_row, revoke_if_active, revoke_active,
}

abbrev pub both_active : ClientCredential → ClientCredential → Bool
both_active c d =
    c.product_id == d.product_id
    && c.client_id == d.client_id
    && c.status == "active"
    && d.status == "active"

-- No client has two active credentials.
abbrev pub OneActive : List ClientCredential → Type 0
OneActive [] = Unit
OneActive (c ∷ rest) = All (λ d. both_active d c ≡ false) rest × OneActive rest

-- The client of each credential is there.
abbrev pub Registered : List Client → List ClientCredential → Type 0
Registered clients credentials =
    All (λ c. any (λ k. k.client_id == c.client_id) clients ≡ true) credentials

-- A write to a row that keeps the client and activates nothing.
abbrev pub Keeps : (ClientCredential → ClientCredential) → Type 0
Keeps f =
    (c : ClientCredential)
    → ((f c).product_id ≡ c.product_id)
      × ((f c).client_id ≡ c.client_id)
      × (((f c).status ≡ c.status) ⊎ ((f c).status ≡ "revoked"))

inactive :
    (c d : ClientCredential) (s : String)
    → (c.status ≡ s) ⊎ (c.status ≡ "revoked")
    → (s == "active") ≡ false
    → both_active c d ≡ false
inactive c d s (inl e) h = ground (arith, ap (λ x. x == "active") e)
inactive c d s (inr e) h = ground (arith, ap (λ x. x == "active") e)

Keeps-inactive :
    (f : ClientCredential → ClientCredential)
    → Keeps f
    → (c d : ClientCredential) → both_active c d ≡ false
    → both_active (f c) (f d) ≡ false
Keeps-inactive f k c d h =
    let (p, q, r) = k c in
    let (p', q', r') = k d in
    elim r [
      | inr e ↦ inactive (f c) (f d) "revoked" (inr e) refl
      | inl e ↦ elim r' [
        | inr e' ↦ ground (arith, ap (λ x. x == "active") e')
        | inl e' ↦ ground arith
      ]
    ]

Keeps-All :
    (f : ClientCredential → ClientCredential)
    → Keeps f
    → (c : ClientCredential) (rest : List ClientCredential)
    → All (λ d. both_active d c ≡ false) rest
    → All (λ d. both_active d (f c) ≡ false) (map f rest)
Keeps-All f k c [] h = tt
Keeps-All f k c (d ∷ rest) (p, h) = (Keeps-inactive f k d c p, Keeps-All f k c rest h)

pub Keeps-OneActive :
    (f : ClientCredential → ClientCredential)
    → Keeps f
    → (cs : List ClientCredential) → OneActive cs
    → OneActive (map f cs)
Keeps-OneActive f k [] h = tt
Keeps-OneActive f k (c ∷ rest) (p, h) = (Keeps-All f k c rest p, Keeps-OneActive f k rest h)

pub Keeps-Registered :
    (f : ClientCredential → ClientCredential)
    → Keeps f
    → (clients : List Client) (cs : List ClientCredential) → Registered clients cs
    → Registered clients (map f cs)
Keeps-Registered f k clients [] h = tt
Keeps-Registered f k clients (c ∷ rest) (p, h) = (
  subst (λ i. any (λ x. x.client_id == i) clients ≡ true) (sym (k c).1) p,
  Keeps-Registered f k clients rest h,
)

pub append-OneActive :
    (new : ClientCredential) (cs : List ClientCredential)
    → All (λ c. both_active new c ≡ false) cs
    → OneActive cs
    → OneActive (cs ++ new ∷ [])
append-OneActive new [] apart h = (tt, tt)
append-OneActive new (c ∷ rest) (p, apart) (q, h) = (
  All-append (λ d. both_active d c ≡ false) rest (new ∷ []) q (p, tt),
  append-OneActive new rest apart h,
)

pub any-append :
    {A : Type 0} (p : A → Bool) (xs ys : List A) → any p xs ≡ true → any p (xs ++ ys) ≡ true
any-append p [] ys h = absurd (ground arith)
any-append p (x ∷ xs) ys h = elim (Bool-cases (p x)) [
  | inl e ↦ ground arith
  | inr e ↦ ground (arith, any-append p xs ys (ground arith))
]

pub more-Registered :
    (clients more : List Client) (cs : List ClientCredential)
    → Registered clients cs
    → Registered (clients ++ more) cs
more-Registered clients more [] h = tt
more-Registered clients more (c ∷ rest) (p, h) =
    (any-append _ clients more p, more-Registered clients more rest h)

-- A client that is not there has no credential.
pub Registered-apart :
    (new : ClientCredential) (clients : List Client) (cs : List ClientCredential)
    → any (λ k. k.client_id == new.client_id) clients ≡ false
    → Registered clients cs
    → All (λ c. both_active new c ≡ false) cs
Registered-apart new clients [] free h = tt
Registered-apart new clients (c ∷ rest) free (p, h) = (
  (elim (Bool-cases (new.client_id == c.client_id)) [
    | inr e ↦ ground arith
    | inl e ↦
        let same = eq_of_== new.client_id c.client_id e in
        let there = subst (λ i. any (λ k. k.client_id == i) clients ≡ true) (sym same) p in
        absurd (ground arith)
  ]),
  Registered-apart new clients rest free h,
)

of_client-not :
    (new c : ClientCredential) (product_id client_id : String)
    → new.product_id ≡ product_id
    → new.client_id ≡ client_id
    → (of_client product_id client_id c && c.status == "active") ≡ false
    → both_active new c ≡ false
unfolding of_client
of_client-not new c product_id client_id e e' h =
    elim (Bool-cases (new.product_id == c.product_id)) [
      | inr a ↦ ground arith
      | inl a ↦ elim (Bool-cases (new.client_id == c.client_id)) [
        | inr b ↦ ground arith
        | inl b ↦ ground (
          arith,
          eq_of_== new.product_id c.product_id a,
          eq_of_== new.client_id c.client_id b,
          eq_refl product_id,
          eq_refl client_id,
        )
      ]
    ]

revoke_if_active-apart :
    (new c : ClientCredential) (product_id client_id : String) (now : ℕ)
    → new.product_id ≡ product_id
    → new.client_id ≡ client_id
    → both_active new (revoke_if_active product_id client_id now c) ≡ false
unfolding revoke_if_active revoked_row
revoke_if_active-apart new c product_id client_id now e e' =
    elim (Bool-cases (of_client product_id client_id c && c.status == "active")) [
      | inl b ↦
          let same : revoked_row now c ≡ revoke_if_active product_id client_id now c =
            ground arith in
          subst (λ d. both_active new d ≡ false) same (ground arith)
      | inr b ↦
          let same : c ≡ revoke_if_active product_id client_id now c = ground arith in
          subst (λ d. both_active new d ≡ false) same
            (of_client-not new c product_id client_id e e' b)
    ]

-- After the update of a rotation nothing of the client is active.
pub revoke_active-apart :
    (new : ClientCredential) (product_id client_id : String) (now : ℕ) (cs : List ClientCredential)
    → new.product_id ≡ product_id
    → new.client_id ≡ client_id
    → All (λ c. both_active new c ≡ false) (revoke_active product_id client_id now cs)
unfolding revoke_active
revoke_active-apart new product_id client_id now [] e e' = tt
revoke_active-apart new product_id client_id now (c ∷ rest) e e' = (
  revoke_if_active-apart new c product_id client_id now e e',
  revoke_active-apart new product_id client_id now rest e e',
)

pub revoke_if_active-Keeps :
    (product_id client_id : String) (now : ℕ) → Keeps (revoke_if_active product_id client_id now)
unfolding revoke_if_active revoked_row
revoke_if_active-Keeps product_id client_id now c =
    elim (Bool-cases (of_client product_id client_id c && c.status == "active")) [
      | inl b ↦ (ground arith, ground arith, inr (ground arith))
      | inr b ↦ (ground arith, ground arith, inl (ground arith))
    ]
