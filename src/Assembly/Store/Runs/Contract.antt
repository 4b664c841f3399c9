-- ===== src/Assembly/Store/Runs/Contract.antt =====
-- What no write of the repository, in whatever order the writes are committed, does to a stored run.
use unified_software_commerc.Prelude.{
  ◌≤◌, String, true, false, some, List, find, ◌==◌, ◌≡◌, ◌≢◌, refl, sym, ap, ◌∙◌, subst, arith,
  eq_iff, inl, inr, Bool-cases, find-append, find-holds, eq_of_==,
}
use unified_software_commerc.Assembly.Model.{Run}
use unified_software_commerc.Assembly.Store.Rows.{
  Tables, set_where, find-set_where, find-set_where_other,
}
use unified_software_commerc.Assembly.Store.Constraints.{
  settled, run_update_permitted, permitted_update,
}
use unified_software_commerc.Assembly.Store.Runs.Changes.{
  contract, with_id, RunsChange, unchanged, added, changed, Write-change, Writes, nothing, more,
}

-- A later state of a stored run.
pub record Keeps (old new : Run) : Type 0 where
  pub same_contract : contract new ≡ contract old
  pub product_id : old.product_id ≢ "" → new.product_id ≡ old.product_id
  pub version : old.version ≤ new.version
  pub settled_stays : settled old.status ≡ true → new ≡ old

Keeps-refl : (r : Run) → Keeps r r
Keeps-refl r = record {
  same_contract = refl;
  product_id = λ _. refl;
  version = omega arith;
  settled_stays = λ _. refl;
}

Keeps-trans : (a b c : Run) → Keeps a b → Keeps b c → Keeps a c
Keeps-trans a b c h k = record {
  same_contract = k.same_contract ∙ h.same_contract;
  product_id =
      λ bound. k.product_id (λ e. bound (sym (h.product_id bound) ∙ e)) ∙ h.product_id bound;
  version = omega (arith, h.version, k.version);
  settled_stays = λ s.
      k.settled_stays (subst (λ r. settled r.status ≡ true) (sym (h.settled_stays s)) s)
      ∙ h.settled_stays s;
}

permitted-Keeps :
    (old new : Run)
    → run_update_permitted old new ≡ true
    → contract new ≡ contract old
    → Keeps old new
permitted-Keeps old new h same =
    let (product, version, unsettled, later) = permitted_update old new h in
    record {
      same_contract = same;
      product_id = product;
      version = omega (arith, version);
      settled_stays = λ s. absurd (ground (arith, unsettled, s));
    }

-- A row with one identifier has no other, before and after the change.
other_id :
    (id run_id : String) (set : Run → Run)
    → (run_id == id) ≡ false
    → ((r : Run) → (set r).run_id ≡ r.run_id)
    → (a : Run) → with_id run_id a ≡ true
    → (with_id id a ≡ false) × (with_id id (set a) ≡ false)
other_id id run_id set apart same a h =
    let differs : with_id id a ≡ false =
      ground (arith, eq_iff a.run_id run_id, eq_iff a.run_id id, eq_iff run_id id) in
    (differs, subst (λ i. (i == id) ≡ false) (sym (same a)) differs)

row_of :
    (i j : String) (runs : List Run) (a b : Run)
    → i ≡ j
    → find (with_id i) runs ≡ some a
    → find (with_id j) runs ≡ some b
    → a ≡ b
row_of i j runs a b e h k = some-injective (sym h ∙ ap (λ id. find (with_id id) runs) e ∙ k)
  where
    some-injective : {x y : Run} → some x ≡ some y → x ≡ y
    some-injective p = cc

pub change-Keeps :
    (before after : List Run) (id : String) (old : Run)
    → RunsChange before after
    → find (with_id id) before ≡ some old
    → (new : Run) × (find (with_id id) after ≡ some new) × Keeps old new
change-Keeps before after id old (unchanged e) found =
    (old, subst (λ runs. find (with_id id) runs ≡ some old) (sym e) found, Keeps-refl old)
change-Keeps before after id old (added run chain valid free e) found = (
  old,
  subst (λ runs. find (with_id id) runs ≡ some old) (sym e)
      (find-append (with_id id) before _ old found),
  Keeps-refl old,
)
change-Keeps before after id old (changed run_id set o found' permitted same e) found =
    elim (Bool-cases (run_id == id)) [
      | inl equal ↦
          let same_row : o ≡ old =
            row_of run_id id before o old (eq_of_== run_id id equal) found' found in
          (
            set old,
            subst (λ runs. find (with_id id) runs ≡ some (set old)) (sym e)
                (subst (λ i. find (with_id id) (set_where (with_id i) set before) ≡ some (set old))
                  (sym (eq_of_== run_id id equal))
                  (find-set_where (with_id id) set before old found (
                    subst (λ i. (i == id) ≡ true) (sym (ap (λ c. c.run_id) (same old)))
                      (find-holds (with_id id) before old found)))),
            permitted-Keeps old (set old)
                (subst (λ r. run_update_permitted r (set r) ≡ true) same_row permitted) (same old),
          )
      | inr apart ↦ (
        old,
        subst (λ runs. find (with_id id) runs ≡ some old) (sym e)
            (find-set_where_other (with_id id) (with_id run_id) set before
                (other_id id run_id set apart (λ r. ap (λ c. c.run_id) (same r)))
              ∙ found),
        Keeps-refl old,
      )
    ]

-- A stored run is found again after any committed writes on runs (starting, retrying, binding a product,
-- updating, completing), under the same identity and contract; a bound product stays, the version
-- does not fall, and a run that is completed, failed or rolled back is not changed at all.
pub stored_run_kept :
    {t t' : Tables} (id : String) (old : Run)
    → Writes t t'
    → find (with_id id) t.runs ≡ some old
    → (new : Run) × (find (with_id id) t'.runs ≡ some new) × Keeps old new
stored_run_kept id old nothing found = (old, found, Keeps-refl old)
stored_run_kept {t} id old (more {t'} {t''} earlier last) found =
    let (mid, found', kept) = stored_run_kept id old earlier found in
    let (new, found'', kept') = change-Keeps t'.runs t''.runs id mid (Write-change last) found' in
    (new, found'', Keeps-trans old mid new kept kept')
