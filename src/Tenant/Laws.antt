-- ===== src/Tenant/Laws.antt =====
-- How many tenants a product gets, and which one a request is resolved to.
use unified_software_commerc.Prelude.{
  String, Bool, true, false, ◌&&◌, ◌==◌, ◌≤◌, ◌≢◌, Option, none, some, List, [], ◌∷◌, ◌++◌, any,
  find, filter, length, ok, ◌≡◌, inl, inr, refl, sym, ap, ◌∙◌, subst, arith, All, All-append,
  All-weaken, find-append, Bool-cases, Result-cases, Option-cases, eq_of_==, eq_iff, eq_refl,
}
use unified_software_commerc.Prelude.Text.{trim_space}
use unified_software_commerc.Tenant.Model.{Tenant, TenantContext, TenantReceiptKey, TenantEvent}
use unified_software_commerc.Tenant.Store.{
  TenantTables, find_official, tenant_clashes, tenant_row, insert_tenant, insert_tenant_event,
  save_receipt, load_receipt, add_tenant, ensure_official, create_agent,
}
use unified_software_commerc.Tenant.{
  TenantEnvironment, ResolveTenantContextCommand, resolve_tenant, resolve_tenant_context,
}

-- Two tenants have different identifiers, different codes if they are of one product, and are not both
-- official there.
pub record AreSeparate (w v : Tenant) : Type 0 where
  pub identifiers : w.tenant_id ≢ v.tenant_id
  pub codes : w.product_id ≡ v.product_id → w.tenant_code ≢ v.tenant_code
  pub officials :
      w.product_id ≡ v.product_id → w.tenant_type ≡ "official" → v.tenant_type ≢ "official"

-- Any two tenants are separate.
abbrev pub Separate : List Tenant → Type 0
Separate [] = Unit
Separate (v ∷ rest) = All (λ w. AreSeparate w v) rest × Separate rest

-- The official tenants of a product.
abbrev pub officials_of : String → List Tenant → List Tenant
officials_of product_id vs =
    filter (λ v. v.product_id == product_id && v.tenant_type == "official") vs

-- The same by the test of the keys.
abbrev Unclashing : List Tenant → Type 0
Unclashing [] = Unit
Unclashing (v ∷ rest) = All (λ w. tenant_clashes w v ≡ false) rest × Unclashing rest

-- The tenants after a command: as before, or one more that clashes with none.
data TenantsChange (before after : List Tenant) : Type 0 where
  unchanged : after ≡ before → TenantsChange before after
  added :
      (v : Tenant)
      → any (tenant_clashes v) before ≡ false
      → after ≡ before ++ tenant_row v ∷ []
      → TenantsChange before after

row_clashes : (v w : Tenant) → tenant_clashes (tenant_row v) w ≡ tenant_clashes v w
unfolding tenant_clashes tenant_row
row_clashes v w = refl

append-Unclashing :
    (vs : List Tenant) (v : Tenant)
    → any (tenant_clashes v) vs ≡ false
    → Unclashing vs
    → Unclashing (vs ++ tenant_row v ∷ [])
append-Unclashing [] v free h = (tt, tt)
append-Unclashing (w ∷ rest) v free (apart, h) = (
  All-append (λ u. tenant_clashes u w ≡ false) rest _ apart (row_clashes v w ∙ ground arith, tt),
  append-Unclashing rest v (ground arith) h,
)

change-Unclashing :
    (before after : List Tenant) → TenantsChange before after → Unclashing before → Unclashing after
change-Unclashing before after (unchanged e) h = subst Unclashing (sym e) h
change-Unclashing before after (added v free e) h =
    subst Unclashing (sym e) (append-Unclashing before v free h)

separate-clashes : (w v : Tenant) → AreSeparate w v → tenant_clashes w v ≡ false
unfolding tenant_clashes
separate-clashes w v a = ground (
  arith,
  a.identifiers,
  a.codes,
  a.officials,
  eq_iff v.tenant_id w.tenant_id,
  eq_iff v.product_id w.product_id,
  eq_iff v.tenant_code w.tenant_code,
  eq_iff v.tenant_type "official",
  eq_iff w.tenant_type "official",
)

clashes-separate : (w v : Tenant) → tenant_clashes w v ≡ false → AreSeparate w v
unfolding tenant_clashes
clashes-separate w v h = record {
  identifiers = λ e. ground (arith, eq_iff v.tenant_id w.tenant_id);
  codes =
      λ e k. ground (arith, eq_iff v.product_id w.product_id, eq_iff v.tenant_code w.tenant_code);
  officials = λ e k l. ground (
    arith,
    eq_iff v.product_id w.product_id,
    eq_iff v.tenant_type "official",
    eq_iff w.tenant_type "official",
  );
}

Separate-Unclashing : (vs : List Tenant) → Separate vs → Unclashing vs
Separate-Unclashing [] h = tt
Separate-Unclashing (v ∷ rest) (apart, h) = (
  All-weaken (λ w. AreSeparate w v) (λ w. tenant_clashes w v ≡ false) rest
      (λ w a. separate-clashes w v a) apart,
  Separate-Unclashing rest h,
)

Unclashing-Separate : (vs : List Tenant) → Unclashing vs → Separate vs
Unclashing-Separate [] h = tt
Unclashing-Separate (v ∷ rest) (apart, h) = (
  All-weaken (λ w. tenant_clashes w v ≡ false) (λ w. AreSeparate w v) rest
      (λ w a. clashes-separate w v a) apart,
  Unclashing-Separate rest h,
)

-- Separate from an official tenant of the product: none of them is another one.
no_officials :
    (product_id : String) (v : Tenant) (rest : List Tenant)
    → v.product_id ≡ product_id
    → v.tenant_type ≡ "official"
    → All (λ w. AreSeparate w v) rest
    → officials_of product_id rest ≡ []
no_officials product_id v [] e k h = refl
no_officials product_id v (w ∷ rest) e k (a, h) = ground (
  arith,
  a.officials,
  eq_iff w.product_id product_id,
  eq_iff w.tenant_type "official",
  no_officials product_id v rest e k h,
)

one_official :
    (product_id : String) (vs : List Tenant) → Separate vs → length (officials_of product_id vs) ≤ 1
one_official product_id [] h = omega arith
one_official product_id (v ∷ rest) (apart, h) =
    elim (Bool-cases (v.product_id == product_id && v.tenant_type == "official")) [
      | inr no' ↦ ground (arith, one_official product_id rest h)
      | inl yes' ↦
          let none' =
            no_officials product_id v rest (eq_of_== v.product_id product_id (ground arith))
              (eq_of_== v.tenant_type "official" (ground arith)) apart in
          ground (arith, none')
    ]

find-last :
    {A : Type 0} (p : A → Bool) (xs : List A) (n : A)
    → find p xs ≡ none
    → p n ≡ true
    → find p (xs ++ n ∷ []) ≡ some n
find-last p [] n h k = ground arith
find-last p (x ∷ xs) n h k = ground (arith, find-last p xs n)

change-found :
    (before after : List Tenant) (p : Tenant → Bool) (x : Tenant)
    → TenantsChange before after
    → find p before ≡ some x
    → find p after ≡ some x
change-found before after p x (unchanged e) h = subst (λ vs. find p vs ≡ some x) (sym e) h
change-found before after p x (added v free e) h =
    subst (λ vs. find p vs ≡ some x) (sym e) (find-append p before (tenant_row v ∷ []) x h)

module _ (encode : Tenant → String) (decode : String → Option Tenant) where
  add_tenant-tenants :
      (v : Tenant) (key : TenantReceiptKey) (event : TenantEvent) (t t' : TenantTables) (w : Tenant)
      → add_tenant encode decode v key event t ≡ ok (w, t')
      → (any (tenant_clashes v) t.tenants ≡ false) × (t'.tenants ≡ t.tenants ++ tenant_row v ∷ [])
  unfolding add_tenant insert_tenant insert_tenant_event save_receipt
  add_tenant-tenants v key event t t' w h = (ground arith, ground arith)

  added_identifier :
      (v : Tenant) (key : TenantReceiptKey) (event : TenantEvent) (t t' : TenantTables) (w : Tenant)
      → add_tenant encode decode v key event t ≡ ok (w, t')
      → v.tenant_id ≡ w.tenant_id
  unfolding add_tenant insert_tenant insert_tenant_event save_receipt
  added_identifier v key event t t' w h = ground arith

  ensure_official-change :
      (v : Tenant) (key : TenantReceiptKey) (event : TenantEvent) (t t' : TenantTables) (w : Tenant)
      → ensure_official encode decode v key event t ≡ ok (w, t')
      → TenantsChange t.tenants t'.tenants
  unfolding ensure_official save_receipt
  ensure_official-change v key event t t' w h =
      elim (Result-cases (load_receipt encode decode key t)) [
        | inr (e', e) ↦ absurd (ground arith)
        | inl (some value, e) ↦ unchanged (ground arith)
        | inl (none, e) ↦ elim (Option-cases (find_official v.product_id t)) [
          | inr (existing, f) ↦ unchanged (ground arith)
          | inl f ↦
              let (free, after) = add_tenant-tenants v key event t t' w (ground arith) in
              added v free after
        ]
      ]

  create_agent-change :
      (v : Tenant) (key : TenantReceiptKey) (event : TenantEvent) (t t' : TenantTables) (w : Tenant)
      → create_agent encode decode v key event t ≡ ok (w, t')
      → TenantsChange t.tenants t'.tenants
  unfolding create_agent
  create_agent-change v key event t t' w h =
      elim (Result-cases (load_receipt encode decode key t)) [
        | inr (e', e) ↦ absurd (ground arith)
        | inl (some value, e) ↦ unchanged (ground arith)
        | inl (none, e) ↦
            let (free, after) = add_tenant-tenants v key event t t' w (ground arith) in
            added v free after
      ]

  -- The tables that committed commands lead to.
  pub data Commands (t : TenantTables) : TenantTables → Type 0 where
    no_command : Commands t t
    ensured :
        {t' t'' : TenantTables}
        → Commands t t'
        → (v : Tenant) (key : TenantReceiptKey) (event : TenantEvent) (w : Tenant)
        → ensure_official encode decode v key event t' ≡ ok (w, t'')
        → Commands t t''
    agent_created :
        {t' t'' : TenantTables}
        → Commands t t'
        → (v : Tenant) (key : TenantReceiptKey) (event : TenantEvent) (w : Tenant)
        → create_agent encode decode v key event t' ≡ ok (w, t'')
        → Commands t t''

  Commands-Separate :
      {t t' : TenantTables} → Commands t t' → Separate t.tenants → Separate t'.tenants
  Commands-Separate no_command h = h
  Commands-Separate {t} {t'} (ensured {t' = mid} earlier v key event w e) h =
      Unclashing-Separate t'.tenants (
        change-Unclashing mid.tenants t'.tenants (ensure_official-change v key event mid t' w e)
          (Separate-Unclashing mid.tenants (Commands-Separate earlier h)))
  Commands-Separate {t} {t'} (agent_created {t' = mid} earlier v key event w e) h =
      Unclashing-Separate t'.tenants (
        change-Unclashing mid.tenants t'.tenants (create_agent-change v key event mid t' w e)
          (Separate-Unclashing mid.tenants (Commands-Separate earlier h)))

  -- Through any committed commands the tenants stay separate: they have different identifiers, and in one
  -- product different codes. Above all, no product gets more than one official tenant.
  pub Commands-keep-Separate :
      {t t' : TenantTables}
      → Commands t t'
      → Separate t.tenants
      → Separate t'.tenants
        × ((product_id : String) → length (officials_of product_id t'.tenants) ≤ 1)
  Commands-keep-Separate {t} {t'} steps h =
      let after = Commands-Separate steps h in
      (after, λ product_id. one_official product_id t'.tenants after)

  Commands-found :
      {t t' : TenantTables} (p : Tenant → Bool) (x : Tenant)
      → Commands t t'
      → find p t.tenants ≡ some x
      → find p t'.tenants ≡ some x
  Commands-found p x no_command h = h
  Commands-found {t} {t'} p x (ensured {t' = mid} earlier v key event w e) h =
      change-found mid.tenants t'.tenants p x (ensure_official-change v key event mid t' w e)
        (Commands-found p x earlier h)
  Commands-found {t} {t'} p x (agent_created {t' = mid} earlier v key event w e) h =
      change-found mid.tenants t'.tenants p x (create_agent-change v key event mid t' w e)
        (Commands-found p x earlier h)

  -- Ensuring a tenant leaves it behind as the one that is found.
  ensure_official-found :
      (v w : Tenant) (key : TenantReceiptKey) (event : TenantEvent) (t t' : TenantTables)
      → v.tenant_type ≡ "official"
      → load_receipt encode decode key t ≡ ok none
      → ensure_official encode decode v key event t ≡ ok (w, t')
      → (x : Tenant) × (find_official v.product_id t' ≡ some x) × (x.tenant_id ≡ w.tenant_id)
  unfolding ensure_official save_receipt find_official tenant_row
  ensure_official-found v w key event t t' official unused h =
      elim (Option-cases (find_official v.product_id t)) [
        | inr (existing, f) ↦
            let same : t'.tenants ≡ t.tenants = ground arith in
            (
              existing,
              subst
                  (λ vs.
                    find (λ x. x.product_id == v.product_id && x.tenant_type == "official") vs
                    ≡ some existing)
                  (sym same) f,
              ground arith,
            )
        | inl f ↦
            let (free, after) = add_tenant-tenants v key event t t' w (ground arith) in
            (
              tenant_row v,
              subst
                  (λ vs.
                    find (λ x. x.product_id == v.product_id && x.tenant_type == "official") vs
                    ≡ some (tenant_row v))
                  (sym after)
                  (find-last (λ x. x.product_id == v.product_id && x.tenant_type == "official")
                    t.tenants (tenant_row v) f
                    (ground (arith, eq_refl v.product_id, eq_iff v.tenant_type "official"))),
              added_identifier v key event t t' w (ground arith),
            )
      ]

  ensure_official_again :
      (v existing w : Tenant) (key : TenantReceiptKey) (event : TenantEvent) (t t' : TenantTables)
      → load_receipt encode decode key t ≡ ok none
      → find_official v.product_id t ≡ some existing
      → ensure_official encode decode v key event t ≡ ok (w, t')
      → (w ≡ existing) × (t'.tenants ≡ t.tenants) × (t'.outbox ≡ t.outbox)
  unfolding ensure_official save_receipt
  ensure_official_again v existing w key event t t' unused found h =
      (ground arith, ground arith, ground arith)

  -- The official tenant of a product is ensured once. After a call that ensured a candidate whose type
  -- is official, under an unused key, and through any further committed commands, every call for the same
  -- product that succeeds under an unused key, with whatever candidate, returns the same tenant, adds no
  -- tenant and announces none.
  pub official_tenant_stays :
      (v v' w w' : Tenant) (key key' : TenantReceiptKey) (event event' : TenantEvent)
      (t t1 t2 t3 : TenantTables)
      → v.tenant_type ≡ "official"
      → load_receipt encode decode key t ≡ ok none
      → ensure_official encode decode v key event t ≡ ok (w, t1)
      → Commands t1 t2
      → v'.product_id ≡ v.product_id
      → load_receipt encode decode key' t2 ≡ ok none
      → ensure_official encode decode v' key' event' t2 ≡ ok (w', t3)
      → (w'.tenant_id ≡ w.tenant_id) × (t3.tenants ≡ t2.tenants) × (t3.outbox ≡ t2.outbox)
  unfolding find_official
  official_tenant_stays v v' w w' key key' event event' t t1 t2 t3 official unused first steps
        product unused' again =
      let (x, found, same) = ensure_official-found v w key event t t1 official unused first in
      let still =
        Commands-found (λ u. u.product_id == v.product_id && u.tenant_type == "official") x steps
          found in
      let there : find_official v'.product_id t2 ≡ some x =
        subst (λ p. find_official p t2 ≡ some x) (sym product) still in
      let (which, tenants, outbox) =
        ensure_official_again v' x w' key' event' t2 t3 unused' there again in
      (ap (λ u. u.tenant_id) which ∙ same, tenants, outbox)

-- A request is resolved only to an active tenant of the product that it names, and the context is that
-- tenant's.
pub resolved_tenant_is_active :
    (env : TenantEnvironment) (command : ResolveTenantContextCommand) (t : TenantTables)
    (c : TenantContext)
    → resolve_tenant_context env command t ≡ ok c
    → (v : Tenant) × (resolve_tenant env command t ≡ ok v)
      × (v.product_id ≡ trim_space command.product_id)
      × (v.status ≡ "active")
      × (c.tenant_id ≡ v.tenant_id)
      × (c.product_id ≡ v.product_id)
unfolding resolve_tenant_context
resolved_tenant_is_active env command t c h = elim (Result-cases (resolve_tenant env command t)) [
  | inr (e', e) ↦ absurd (ground arith)
  | inl (v, e) ↦ (
    v,
    e,
    eq_of_== v.product_id (trim_space command.product_id) (ground arith),
    eq_of_== v.status "active" (ground arith),
    ground arith,
    ground arith,
  )
]
