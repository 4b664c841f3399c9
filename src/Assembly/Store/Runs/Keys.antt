-- ===== src/Assembly/Store/Runs/Keys.antt =====
-- The rows of `assembly_runs` against one another: their keys.
use unified_software_commerc.Prelude.{
  Bool, false, not, ◌&&◌, ◌||◌, List, [], ◌∷◌, ◌++◌, any, eqb, ◌==◌, ◌≡◌, ◌≢◌, eq_iff, All-weaken,
  refl, sym, ap, ◌∙◌, subst, arith, if◌then◌else◌, inl, inr, Bool-cases, All, All-append,
}
use unified_software_commerc.Assembly.Model.{Run}
use unified_software_commerc.Assembly.Store.Rows.{Tables, set_where}
use unified_software_commerc.Assembly.Store.Constraints.{run_clashes}
use unified_software_commerc.Assembly.Store.Runs.{run_row}
use unified_software_commerc.Assembly.Store.Runs.Changes.{
  RunContract, contract, with_id, RunsChange, unchanged, added, changed, Write-change, Writes,
  nothing, more,
}

-- What the keys are for: two rows are of different runs, of different keys if their plan is the same, of
-- different attempts if their root is the same, and, where one of them is a retry, of different parents.
pub record AreApart (s r : Run) : Type 0 where
  pub runs : s.run_id ≢ r.run_id
  pub plan_keys : s.plan_id ≡ r.plan_id → s.idempotency_key_digest ≢ r.idempotency_key_digest
  pub attempts : s.root_run_id ≡ r.root_run_id → s.attempt_number ≢ r.attempt_number
  pub parents : s.retry_of_run_id ≢ "" → s.retry_of_run_id ≢ r.retry_of_run_id

-- Any two rows are apart.
abbrev pub Distinct : List Run → Type 0
Distinct [] = Unit
Distinct (r ∷ rest) = All (λ s. AreApart s r) rest × Distinct rest

-- The same by the test of the indexes.
abbrev Unclashing : List Run → Type 0
Unclashing [] = Unit
Unclashing (r ∷ rest) = All (λ s. run_clashes s r ≡ false) rest × Unclashing rest

-- Only the contract matters.
clashes-contract :
    (a a' b b' : Run)
    → contract a' ≡ contract a
    → contract b' ≡ contract b
    → run_clashes a' b' ≡ run_clashes a b
unfolding run_clashes
clashes-contract a a' b b' h k =
    let clash : RunContract → RunContract → Bool = λ n r.
      r.run_id == n.run_id
      || (r.plan_id == n.plan_id && r.idempotency_key_digest == n.idempotency_key_digest)
      || (r.root_run_id == n.root_run_id && eqb r.attempt_number n.attempt_number)
      || (not (n.retry_of_run_id == "") && r.retry_of_run_id == n.retry_of_run_id) in
    ap (λ c. clash c (contract b')) h ∙ ap (λ c. clash (contract a) c) k

module _ (p : Run → Bool) (set : Run → Run) (same : (r : Run) → contract (set r) ≡ contract r) where
  same_row : (r : Run) → contract (if p r then set r else r) ≡ contract r
  same_row r = elim (Bool-cases (p r)) [ inl yes' ↦ rw (yes', same r) | inr no' ↦ rw (no') ]

  set_where-apart :
      (r r' : Run) (rest : List Run)
      → contract r' ≡ contract r
      → All (λ s. run_clashes s r ≡ false) rest
      → All (λ s. run_clashes s r' ≡ false) (set_where p set rest)
  set_where-apart r r' [] e h = tt
  set_where-apart r r' (s ∷ rest) e (free, h) =
      (clashes-contract s _ r r' (same_row s) e ∙ free, set_where-apart r r' rest e h)

  set_where-Unclashing : (runs : List Run) → Unclashing runs → Unclashing (set_where p set runs)
  set_where-Unclashing [] h = tt
  set_where-Unclashing (r ∷ rest) (free, h) =
      (set_where-apart r _ rest (same_row r) free, set_where-Unclashing rest h)

append-Unclashing :
    (runs : List Run) (run : Run)
    → any (run_clashes run) runs ≡ false
    → Unclashing runs
    → Unclashing (runs ++ run_row run ∷ [])
unfolding run_row
append-Unclashing [] run free h = (tt, tt)
append-Unclashing (r ∷ rest) run free (apart, h) = (
  All-append (λ s. run_clashes s r ≡ false) rest _ apart
      (clashes-contract run (run_row run) r r refl refl ∙ ground arith, tt),
  append-Unclashing rest run (ground arith) h,
)

change-Unclashing :
    (before after : List Run) → RunsChange before after → Unclashing before → Unclashing after
change-Unclashing before after (unchanged e) h = subst Unclashing (sym e) h
change-Unclashing before after (added run chain valid free e) h =
    subst Unclashing (sym e) (append-Unclashing before run free h)
change-Unclashing before after (changed id set old found permitted same e) h =
    subst Unclashing (sym e) (set_where-Unclashing (with_id id) set same before h)

AreApart-clash : (s r : Run) → AreApart s r → run_clashes s r ≡ false
unfolding run_clashes
AreApart-clash s r a = ground (
  arith,
  a.runs,
  a.plan_keys,
  a.attempts,
  a.parents,
  eq_iff r.run_id s.run_id,
  eq_iff r.plan_id s.plan_id,
  eq_iff r.idempotency_key_digest s.idempotency_key_digest,
  eq_iff r.root_run_id s.root_run_id,
  eq_iff s.retry_of_run_id "",
  eq_iff r.retry_of_run_id s.retry_of_run_id,
)

clash-AreApart : (s r : Run) → run_clashes s r ≡ false → AreApart s r
unfolding run_clashes
clash-AreApart s r h = record {
  runs = λ e. ground (arith, eq_iff r.run_id s.run_id);
  plan_keys = λ e k.
      ground (
        arith,
        eq_iff r.plan_id s.plan_id,
        eq_iff r.idempotency_key_digest s.idempotency_key_digest,
      );
  attempts = λ e k. ground (arith, eq_iff r.root_run_id s.root_run_id);
  parents = λ given e.
      ground
        (arith, given, eq_iff s.retry_of_run_id "", eq_iff r.retry_of_run_id s.retry_of_run_id);
}

Distinct-Unclashing : (runs : List Run) → Distinct runs → Unclashing runs
Distinct-Unclashing [] h = tt
Distinct-Unclashing (r ∷ rest) (apart, h) = (
  All-weaken (λ s. AreApart s r) (λ s. run_clashes s r ≡ false) rest (λ s a. AreApart-clash s r a)
      apart,
  Distinct-Unclashing rest h,
)

Unclashing-Distinct : (runs : List Run) → Unclashing runs → Distinct runs
Unclashing-Distinct [] h = tt
Unclashing-Distinct (r ∷ rest) (apart, h) = (
  All-weaken (λ s. run_clashes s r ≡ false) (λ s. AreApart s r) rest (λ s a. clash-AreApart s r a)
      apart,
  Unclashing-Distinct rest h,
)

-- The keys of the runs stay distinct through any committed writes: one run for an identifier, one for a
-- plan with a key, one for an attempt of a root, and one retry at most of a run.
pub Writes-keep-Distinct : {t t' : Tables} → Writes t t' → Distinct t.runs → Distinct t'.runs
Writes-keep-Distinct nothing h = h
Writes-keep-Distinct {t} (more {t'} {t''} earlier last) h = Unclashing-Distinct t''.runs (
    change-Unclashing t'.runs t''.runs (Write-change last)
      (Distinct-Unclashing t'.runs (Writes-keep-Distinct earlier h)))
