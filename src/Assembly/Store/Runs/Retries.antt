-- ===== src/Assembly/Store/Runs/Retries.antt =====
-- The chains of retried runs in `assembly_runs`.
use unified_software_commerc.Prelude.{
  Bool, true, false, some, List, [], ◌∷◌, find, eqb, ◌≡◌, refl, sym, ap, ◌∙◌, subst, arith, eq_iff,
  inl, inr, Bool-cases, Option-cases, All, All-append, All-weaken,
}
use unified_software_commerc.Prelude.Int64.{add_one}
use unified_software_commerc.Assembly.Model.{Run, RunStatus, failed, status_eq}
use unified_software_commerc.Assembly.Store.Rows.{Tables, set_where}
use unified_software_commerc.Assembly.Store.Constraints.{retry_chain_valid, settled}
use unified_software_commerc.Assembly.Store.Runs.{run_row}
use unified_software_commerc.Assembly.Store.Runs.Changes.{
  contract, with_id, RunsChange, unchanged, added, changed, Write-change, Writes, nothing, more,
}
use unified_software_commerc.Assembly.Store.Runs.Contract.{change-Keeps}

-- A first attempt, or the next attempt of a stored failed run that may be retried, under its root.
pub data IsChained (runs : List Run) (r : Run) : Type 0 where
  first : r.attempt_number ≡ 1 → IsChained runs r
  again :
      (parent : Run)
      → find (with_id r.retry_of_run_id) runs ≡ some parent
      → parent.status ≡ failed
      → parent.recovery.retryable ≡ true
      → parent.recovery.rollback_required ≡ false
      → r.root_run_id ≡ parent.root_run_id
      → r.attempt_number ≡ add_one parent.attempt_number
      → IsChained runs r

failed-settled : (s : RunStatus) → s ≡ failed → settled s ≡ true
unfolding settled status_eq
failed-settled s e = ground arith

failed-eq : (s : RunStatus) → status_eq s failed ≡ true → s ≡ failed
unfolding status_eq
failed-eq failed h = refl
failed-eq _ h = cc

chain-IsChained :
    (runs : List Run) (r : Run) → retry_chain_valid runs r ≡ true → IsChained runs (run_row r)
unfolding retry_chain_valid run_row
chain-IsChained runs r h = elim (Bool-cases (eqb r.attempt_number 1)) [
  | inl one ↦ first (ground arith)
  | inr later ↦ elim (Option-cases (find (with_id r.retry_of_run_id) runs)) [
    | inl none' ↦ absurd (ground arith)
    | inr (parent, found) ↦
        again parent found (failed-eq parent.status (ground arith)) (ground arith) (ground arith)
          (ground (arith, eq_iff r.root_run_id parent.root_run_id)) (ground arith)
  ]
]

-- A chain holds after a change: its parents are settled.
module _ (before after : List Run) (change : RunsChange before after) where
  IsChained-later :
      (r r' : Run) → contract r' ≡ contract r → IsChained before r → IsChained after r'
  IsChained-later r r' same (first one) = first (ap (λ c. c.attempt_number) same ∙ one)
  IsChained-later r r' same (again parent found f retryable clean root attempt) =
      let (parent', found', kept) =
        change-Keeps before after r.retry_of_run_id parent change found in
      let stays = kept.settled_stays (failed-settled parent.status f) in
      again parent
        (subst (λ id. find (with_id id) after ≡ some parent)
          (sym (ap (λ c. c.retry_of_run_id) same)) (found' ∙ ap some stays))
        f retryable clean (ap (λ c. c.root_run_id) same ∙ root)
        (ap (λ c. c.attempt_number) same ∙ attempt)

  set_where-IsChained :
      (p : Run → Bool) (set : Run → Run) (runs : List Run)
      → ((r : Run) → contract (set r) ≡ contract r)
      → All (IsChained before) runs
      → All (IsChained after) (set_where p set runs)
  set_where-IsChained p set [] same h = tt
  set_where-IsChained p set (r ∷ runs) same (c, h) = (
    IsChained-later r _
        (elim (Bool-cases (p r)) [ inl yes' ↦ rw (yes', same r) | inr no' ↦ rw (no') ]) c,
    set_where-IsChained p set runs same h,
  )

change-IsChained :
    (before after : List Run)
    → RunsChange before after
    → All (IsChained before) before
    → All (IsChained after) after
change-IsChained before after (unchanged e) h = subst (λ runs. All (IsChained runs) runs) (sym e) h
change-IsChained before after (added run chain valid free e) h =
    subst (All (IsChained after)) (sym e) (
      All-append (IsChained after) before (run_row run ∷ [])
        (All-weaken (IsChained before) (IsChained after) before
          (λ r c. IsChained-later before after (added run chain valid free e) r r refl c) h)
        (
          IsChained-later before after (added run chain valid free e) (run_row run) (run_row run)
              refl (chain-IsChained before run chain),
          tt,
        ))
change-IsChained before after (changed id set old found permitted same e) h =
    subst (All (IsChained after)) (sym e) (
      set_where-IsChained before after (changed id set old found permitted same e) (with_id id) set
        before same h)

-- Through any committed writes, every stored run is a first attempt or follows, under the same root and
-- with the next attempt number, a stored run that failed, may be retried and needs no rollback.
pub Writes-keep_chains :
    {t t' : Tables} → Writes t t' → All (IsChained t.runs) t.runs → All (IsChained t'.runs) t'.runs
Writes-keep_chains nothing h = h
Writes-keep_chains {t} (more {t'} {t''} earlier last) h =
    change-IsChained t'.runs t''.runs (Write-change last) (Writes-keep_chains earlier h)
