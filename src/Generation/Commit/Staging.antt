-- ===== src/Generation/Commit/Staging.antt =====
-- What the staging has tested: the items of the journal have backups, and no two have one path.
use unified_software_commerc.Prelude.{
  ℕ, ◌+◌, String, true, false, some, List, [], ◌∷◌, ◌++◌, any, ◌==◌, ok, ◌≡◌, ◌⊎◌, refl, sym, ap,
  ◌∙◌, subst, arith, eq_iff, eq_refl, eq_of_==, All, All-weaken, All-append, Bool-cases,
  Option-cases, Result-cases, inl, inr, Memᴰ,
}
use unified_software_commerc.Generation.Model.{FileChange}
use unified_software_commerc.Generation.Paths.{text_lt}
use unified_software_commerc.Generation.Target.{insert_change, sort_changes}
use unified_software_commerc.Generation.Target.Laws.{insert_change-All, sort_changes-All}
use unified_software_commerc.Generation.Commit.Files.{Tree, lookup}
use unified_software_commerc.Generation.Commit.{
  Faults, JournalItem, change_by_path, valid_action, stage_change, stage_changes, backup_of,
}
use unified_software_commerc.Generation.Commit.Undo.{Backed, Apart}

-- No two changes have one path.
abbrev pub Distinct : List FileChange → Type 0
Distinct [] = Unit
Distinct (c ∷ cs) = All (λ d. (c.path == d.path) ≡ false) cs × Distinct cs

insert_change-Distinct :
    (c : FileChange) (cs : List FileChange)
    → All (λ d. (c.path == d.path) ≡ false) cs
    → Distinct cs
    → Distinct (insert_change c cs)
unfolding insert_change
insert_change-Distinct c [] alone distinct = (tt, tt)
insert_change-Distinct c (d ∷ cs) (other, alone) (first, distinct) =
    elim (Bool-cases (text_lt d.path c.path)) [
      | inl behind ↦
          let e : d ∷ insert_change c cs ≡ insert_change c (d ∷ cs) = ground arith in
          subst Distinct e (
            insert_change-All (λ x. (d.path == x.path) ≡ false) c cs
                (ground (arith, eq_iff c.path d.path, eq_iff d.path c.path)) first,
            insert_change-Distinct c cs alone distinct,
          )
      | inr ahead ↦
          let e : c ∷ d ∷ cs ≡ insert_change c (d ∷ cs) = ground arith in
          subst Distinct e ((other, alone), (first, distinct))
    ]

pub sort_changes-Distinct : (cs : List FileChange) → Distinct cs → Distinct (sort_changes cs)
unfolding sort_changes
sort_changes-Distinct [] distinct = tt
sort_changes-Distinct (c ∷ cs) (alone, distinct) =
    insert_change-Distinct c (sort_changes cs)
      (sort_changes-All (λ d. (c.path == d.path) ≡ false) cs alone)
      (sort_changes-Distinct cs distinct)

All-both :
    (P Q : FileChange → Type 0) (cs : List FileChange)
    → All P cs
    → All Q cs
    → All (λ c. P c × Q c) cs
All-both P Q [] h k = tt
All-both P Q (c ∷ cs) (h, hs) (k, ks) = ((h, k), All-both P Q cs hs ks)

-- Each of several changes with different paths is found by its path.
pub Distinct-found :
    (cs : List FileChange) → Distinct cs → All (λ c. change_by_path cs c.path ≡ some c) cs
unfolding change_by_path
Distinct-found [] distinct = tt
Distinct-found (c ∷ cs) (alone, distinct) = (
  ground (arith, eq_refl c.path),
  All-weaken (λ d. ((c.path == d.path) ≡ false) × (change_by_path cs d.path ≡ some d))
      (λ d. change_by_path (c ∷ cs) d.path ≡ some d) cs (λ d h. ground (arith, h.0, h.1))
      (All-both (λ d. (c.path == d.path) ≡ false) (λ d. change_by_path cs d.path ≡ some d) cs alone
        (Distinct-found cs distinct)),
)

Apart-snoc :
    (items : List JournalItem) (x : JournalItem)
    → any (λ item. item.path == x.path) items ≡ false
    → Apart items
    → Apart (items ++ x ∷ [])
Apart-snoc [] x alone apart = (tt, tt)
Apart-snoc (item ∷ items) x alone (first, apart) = (
  All-append (λ o. (item.path == o.path) ≡ false) items (x ∷ []) first (ground arith, tt),
  Apart-snoc items x (ground arith) apart,
)

updated_creates_nothing :
    (action : String) → (action == "updated") ≡ true → (action == "created") ≡ false
updated_creates_nothing action h =
    subst (λ a. (a == "created") ≡ false) (sym (eq_of_== action "updated" h)) refl

Memᴰ-left : (xs ys : List JournalItem) (x : JournalItem) → Memᴰ x xs → Memᴰ x (xs ++ ys)
Memᴰ-left [] ys x m = elim m [ ]
Memᴰ-left (z ∷ xs) ys x (Memᴰ.head e) = Memᴰ.head e
Memᴰ-left (z ∷ xs) ys x (Memᴰ.tail m) = Memᴰ.tail (Memᴰ-left xs ys x m)

Memᴰ-right : (xs ys : List JournalItem) (x : JournalItem) → Memᴰ x ys → Memᴰ x (xs ++ ys)
Memᴰ-right [] ys x m = m
Memᴰ-right (z ∷ xs) ys x m = Memᴰ.tail (Memᴰ-right xs ys x m)

module _ (faults : Faults) (lower : String → String) (digest : List ℕ → String)
    (changes : List FileChange) (t : Tree) where
  -- A staged item of its change.
  stage_change-parts :
      (i : ℕ) (staged : List JournalItem) (c : FileChange) (item : JournalItem)
      → stage_change faults lower digest i t staged c ≡ ok item
      → (item.path ≡ c.path)
        × (item.bytes ≡ c.bytes)
        × (any (λ x. x.path == c.path) staged ≡ false)
        × (backup_of faults lower digest t c ≡ ok item.backup)
  unfolding stage_change
  stage_change-parts i staged c item h = elim (Option-cases (faults.staging i)) [
    | inr (e, fails) ↦ absurd (ground arith)
    | inl none' ↦ elim (Result-cases (backup_of faults lower digest t c)) [
      | inr (e, failed) ↦ absurd (ground arith)
      | inl (backup, done) ↦ (ground arith, ground arith, ground arith, ground arith)
    ]
  ]

  stage_change-Backed :
      (i : ℕ) (staged : List JournalItem) (c : FileChange) (item : JournalItem)
      → change_by_path changes c.path ≡ some c
      → valid_action c.action ≡ true
      → (c.action == "unchanged") ≡ false
      → stage_change faults lower digest i t staged c ≡ ok item
      → Backed changes t item
  unfolding backup_of valid_action
  stage_change-Backed i staged c item found valid changed h =
      let (path, bytes, alone, backup) = stage_change-parts i staged c item h in
      let here : change_by_path changes item.path ≡ some c =
        ap (change_by_path changes) path ∙ found in
      elim (Bool-cases (c.action == "updated")) [
        | inr other ↦ record {
          change = c;
          found = here;
          backup_is = inl (ground arith, ground arith);
        }
        | inl updated ↦ elim (Option-cases (lookup c.path t.files)) [
          | inl none' ↦ absurd (ground arith)
          | inr (file, there) ↦ record {
            change = c;
            found = here;
            backup_is = inr (
              updated_creates_nothing c.action updated,
              (file, ap (λ p. lookup p t.files) path ∙ there, ground arith),
            );
          }
        ]
      ]

  -- A change that is not left as it is has an item with its path and bytes.
  abbrev pub HasItem : List JournalItem → FileChange → Type 0
  HasItem journal c =
      ((c.action == "unchanged") ≡ true)
      ⊎ ((item : JournalItem) × (Memᴰ item journal) × (item.path ≡ c.path) × (item.bytes ≡ c.bytes))

  -- What was staged before stays in the journal.
  stage_changes-keeps :
      (i : ℕ) (staged journal : List JournalItem) (cs : List FileChange) (item : JournalItem)
      → stage_changes faults lower digest i t staged cs ≡ ok journal
      → Memᴰ item staged
      → Memᴰ item journal
  unfolding stage_changes
  stage_changes-keeps i staged journal [] item h m =
      let e : staged ≡ journal = ground arith in subst (Memᴰ item) e m
  stage_changes-keeps i staged journal (c ∷ cs) item h m =
      elim (Bool-cases (c.action == "unchanged")) [
        | inl same ↦ stage_changes-keeps (i + 1) staged journal cs item (ground arith) m
        | inr changed ↦ elim (Result-cases (stage_change faults lower digest i t staged c)) [
          | inr (e, failed) ↦ absurd (ground arith)
          | inl (new, done) ↦
              stage_changes-keeps (i + 1) (staged ++ new ∷ []) journal cs item (ground arith)
                (Memᴰ-left staged (new ∷ []) item m)
        ]
      ]

  pub stage_changes-Backed :
      (i : ℕ) (staged journal : List JournalItem) (cs : List FileChange)
      → All (λ c. change_by_path changes c.path ≡ some c) cs
      → All (λ c. valid_action c.action ≡ true) cs
      → All (Backed changes t) staged
      → Apart staged
      → stage_changes faults lower digest i t staged cs ≡ ok journal
      → All (Backed changes t) journal × Apart journal × All (HasItem journal) cs
  unfolding stage_changes
  stage_changes-Backed i staged journal [] found valid backed apart h =
      let e : staged ≡ journal = ground arith in
      subst (λ j. All (Backed changes t) j × Apart j × Unit {0}) e (backed, apart, tt)
  stage_changes-Backed i staged journal (c ∷ cs) (here, found) (valid', valid) backed apart h =
      elim (Bool-cases (c.action == "unchanged")) [
        | inl same ↦
            let (b, a, items) =
              stage_changes-Backed (i + 1) staged journal cs found valid backed apart
                (ground arith) in
            (b, a, (inl same, items))
        | inr changed ↦ elim (Result-cases (stage_change faults lower digest i t staged c)) [
          | inr (e, failed) ↦ absurd (ground arith)
          | inl (new, done) ↦
              let (path, bytes, alone, backup) = stage_change-parts i staged c new done in
              let rest : stage_changes faults lower digest (i + 1) t (staged ++ new ∷ []) cs
                  ≡ ok journal =
                ground arith in
              let (b, a, items) =
                stage_changes-Backed (i + 1) (staged ++ new ∷ []) journal cs found valid
                  (All-append (Backed changes t) staged (new ∷ []) backed
                    (stage_change-Backed i staged c new here valid' changed done, tt))
                  (Apart-snoc staged new (ap (λ p. any (λ x. x.path == p) staged) path ∙ alone)
                    apart)
                  rest in
              (
                b,
                a,
                (
                  inr (
                    new,
                    stage_changes-keeps (i + 1) (staged ++ new ∷ []) journal cs new rest
                        (Memᴰ-right staged (new ∷ []) new (Memᴰ.head refl)),
                    path,
                    bytes,
                  ),
                  items,
                ),
              )
        ]
      ]
