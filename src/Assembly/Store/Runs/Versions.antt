-- ===== src/Assembly/Store/Runs/Versions.antt =====
-- Optimistic concurrency on runs: of two writers that have read the same version, one succeeds.
use unified_software_commerc.Prelude.{
  ℕ, String, Bool, true, some, List, [], ◌∷◌, find, ◌==◌, ◌≡◌, ◌≢◌, refl, sym, ◌∙◌, subst, arith,
  inl, inr, ◌⊎◌, Bool-cases, Option-cases, ok, err, find-weaker,
}
use unified_software_commerc.Prelude.Int64.{add_one, add_one_differs}
use unified_software_commerc.Assembly.Model.{version_conflict, not_found, Run}
use unified_software_commerc.Assembly.Store.Rows.{Tables, set_where}
use unified_software_commerc.Assembly.Store.Runs.{
  UpdateRunRecord, update_run, update_target, update_of, updated_columns,
}
use unified_software_commerc.Assembly.Store.Runs.Changes.{
  with_id, update_run_writes, write_update_runs,
}

-- Every row that the query can find after a write has a version of its own.
set_where-version :
    (q : Run → Bool) (id : String) (set : Run → Run) (v : ℕ) (rows : List Run) (row : Run)
    → ((r : Run) → q r ≡ true → with_id id r ≡ true)
    → ((r : Run) → with_id id (set r) ≡ with_id id r)
    → ((r : Run) → (set r).version ≡ v)
    → find q (set_where (with_id id) set rows) ≡ some row
    → row.version ≡ v
set_where-version q id set v [] row only same sets found = ground arith
set_where-version q id set v (r ∷ rows) row only same sets found =
    elim (Bool-cases (with_id id r)) [
      | inl yes' ↦ elim (Bool-cases (q (set r))) [
        | inl hit ↦
            let first : some (set r) ≡ some row = ground arith in
            let same_row : set r ≡ row = cc in subst (λ (x : Run). x.version ≡ v) same_row (sets r)
        | inr miss ↦ set_where-version q id set v rows row only same sets (ground arith)
      ]
      | inr no' ↦ set_where-version q id set v rows row only same sets (ground (arith, only r))
    ]

version_mismatch-update :
    (r : UpdateRunRecord) (t : Tables)
    → ((row : Run) → find (update_target r) t.runs ≡ some row → row.version ≢ r.expected_version)
    → (update_run r t ≡ err version_conflict) ⊎ (update_run r t ≡ err not_found)
unfolding update_run
version_mismatch-update r t h = elim (Option-cases (find (update_target r) t.runs)) [
  | inl none' ↦ inr (ground arith)
  | inr (row, found) ↦
      let differs : row.version ≢ r.expected_version = h row found in inl (ground arith)
]

-- After an update that expected a version, every other update of the run that expects the same version is
-- refused: no update is lost.
pub stale_update_refused :
    (r s : UpdateRunRecord) (t t' : Tables) (run : Run)
    → update_run r t ≡ ok (run, t')
    → s.run.run_id ≡ r.run.run_id
    → s.expected_version ≡ r.expected_version
    → (update_run s t' ≡ err version_conflict) ⊎ (update_run s t' ≡ err not_found)
stale_update_refused r s t t' run h same_run same_version =
    let (row, found, version, written) = update_run_writes r t t' run h in
    let (old, found') =
      find-weaker (update_target r) (with_id r.run.run_id) t.runs row (λ x e. ground arith) found in
    let (after, permitted) = write_update_runs r row t t' run old written found' in
    version_mismatch-update s t' (λ now found''. λ e. add_one_differs row.version (
      sym (
        set_where-version (update_target s) r.run.run_id (λ o. updated_columns o (update_of r row))
          (add_one row.version) t.runs now
          (λ x k. subst (λ i. (x.run_id == i) ≡ true) same_run (ground arith)) (λ x. refl)
          (λ x. refl) (subst (λ runs. find (update_target s) runs ≡ some now) after found''))
      ∙ e
      ∙ same_version
      ∙ sym version))
