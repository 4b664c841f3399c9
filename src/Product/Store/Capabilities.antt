-- ===== src/Product/Store/Capabilities.antt =====
-- The sets of capabilities of a product: `ReplaceCapabilitySet` and `CurrentCapabilitySet` of
-- platform/backend/internal/modules/product/postgres/repository.go.
use Prim.Native.String.{compare}
use Prim.Native.Nat.{Ordering}
use unified_software_commerc.Prelude.{
  ℕ, String, Bool, not, ◌&&◌, ◌||◌, Option, none, some, List, [], ◌∷◌, ◌++◌, map, filter, any, ltb,
  eqb, ◌==◌, if◌then◌else◌, Result, ok, ◌>>=◌, ◌>>◌, guard, or_err,
}
use unified_software_commerc.Prelude.Int64.{add_one, lt_one}
use unified_software_commerc.Product.Model.{
  ProductError, product_not_found, product_unavailable, capability_version_conflict, product_fault,
  CapabilityItem, CapabilitySet, ProductEvent,
}
use unified_software_commerc.Product.Store.{ProductTables, CapabilityRow, insert_product_event}
use unified_software_commerc.Product.Store.Clients.{ready_product}

later_set : CapabilitySet → Option CapabilitySet → CapabilitySet
later_set s none = s
later_set s (some other) = if ltb s.version other.version then other else s

-- `WHERE product_id=$1 ORDER BY version DESC LIMIT 1`
unfoldable pub latest_set : String → List CapabilitySet → Option CapabilitySet
unfolding later_set
latest_set product_id [] = none
latest_set product_id (s ∷ rest) =
    let others = latest_set product_id rest in
    if s.product_id == product_id then some (later_set s others) else others

unfoldable pub current_version : String → List CapabilitySet → ℕ
unfolding latest_set
current_version product_id sets = elim (latest_set product_id sets) [
  | none ↦ 0
  | some s ↦ s.version
]

unfoldable pub set_clashes : CapabilitySet → CapabilitySet → Bool
set_clashes new s =
    s.capability_set_id == new.capability_set_id
    || (s.product_id == new.product_id && eqb s.version new.version)

-- The columns of a set: the items stand in their own table.
unfoldable pub set_row : CapabilitySet → CapabilitySet
set_row s = record s { items = []; audit_id = "" }

unfoldable pub insert_items :
    CapabilitySet
    → List CapabilityItem
    → List CapabilityRow
    → Result ProductError (List CapabilityRow)
insert_items s [] rows = ok rows
insert_items s (item ∷ rest) rows =
    guard
      (not (
        any
          (λ r.
            r.capability_set_id == s.capability_set_id
            && r.item.capability_id == item.capability_id)
          rows))
      (product_fault 5)
    >> insert_items s rest (
        rows
        ++ record {
          capability_set_id = s.capability_set_id;
          product_id = s.product_id;
          item = item;
        }
          ∷ [])

unfoldable pub replace_set_body :
    CapabilitySet
    → ℕ
    → ProductEvent
    → ProductTables
    → Result ProductError (CapabilitySet × ProductTables)
unfolding current_version set_clashes set_row insert_items insert_product_event add_one lt_one
    ready_product
replace_set_body s expected_version event t =
    guard (any (ready_product s.product_id) t.products) product_unavailable
    >> guard (eqb (current_version s.product_id t.capability_sets) expected_version)
        capability_version_conflict
    >> guard (eqb s.version (add_one (current_version s.product_id t.capability_sets)))
        capability_version_conflict
    >> guard (not (lt_one s.version)) (product_fault 6)
    >> guard (not (any (set_clashes s) t.capability_sets)) capability_version_conflict
    >> insert_items s s.items t.capability_items
    >>= λ rows.
        insert_product_event event (record t {
          capability_sets = t.capability_sets ++ set_row s ∷ [];
          capability_items = rows;
        })
        >>= λ t'. ok (s, t')

insert_item : CapabilityItem → List CapabilityItem → List CapabilityItem
insert_item i [] = i ∷ []
insert_item i (j ∷ rest) =
    let behind = insert_item i rest in
    elim (compare j.capability_id i.capability_id) [
      | Ordering.lt ↦ j ∷ behind
      | Ordering.eq ↦ i ∷ j ∷ rest
      | Ordering.gt ↦ i ∷ j ∷ rest
    ]

-- `ORDER BY capability_id`, and `sort.Slice` by it.
unfoldable pub sort_items : List CapabilityItem → List CapabilityItem
unfolding insert_item
sort_items [] = []
sort_items (i ∷ rest) = insert_item i (sort_items rest)

unfoldable pub current_capability_set : String → ProductTables → Result ProductError CapabilitySet
unfolding latest_set sort_items
current_capability_set product_id t =
    or_err (latest_set product_id t.capability_sets) product_not_found >>= λ s. ok (record s {
      items = sort_items (
          map (λ r. r.item)
            (filter
              (λ r. r.capability_set_id == s.capability_set_id && r.product_id == s.product_id)
              t.capability_items));
    })
