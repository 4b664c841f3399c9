-- ===== src/Assembly/Store/Dispatches/Leases.antt =====
-- Who may act on a claimed dispatch, and when.
use unified_software_commerc.Prelude.{
  ℕ, zero, suc, ◌+◌, ◌*◌, ◌^◌, ◌≤◌, ◌<◌, min, String, Bool, true, false, some, List, [], ◌∷◌, any,
  ◌==◌, if◌then◌else◌, ok, err, ◌≡◌, ◌≢◌, refl, sym, ap, ◌∙◌, subst, arith, eq_iff, inl, inr,
  Option-cases, Bool-cases, All, ◌⊎◌,
}
use unified_software_commerc.Assembly.Model.{conflict}
use unified_software_commerc.Assembly.Store.Rows.{Tables, DispatchRow, leased, set_where}
use unified_software_commerc.Assembly.Store.Dispatches.{
  Dispatch, renew_dispatch, claimable, first_claimable, claim_row, claim_dispatch, held_by,
  update_one, complete_dispatch, requeue_dispatch, requeue_delay, lease_over, owner_is,
}

true_not_false : ¬ (true ≡ false)
true_not_false e = cc

-- The row of a run, if it is one, is leased to the worker until then.
pub record IsLeased (run_id worker_id : String) (until : ℕ) (d : DispatchRow) : Type 0 where
  pub state : (d.run_id == run_id) ≡ true → d.state ≡ leased
  pub owner : (d.run_id == run_id) ≡ true → d.lease_owner ≡ some worker_id
  pub lease_until : (d.run_id == run_id) ≡ true → d.lease_until ≡ some until

module _ (run_id worker_id : String) (now lease : ℕ) where
  claimed_row :
      (d : DispatchRow)
      → IsLeased run_id worker_id
          (now + lease)
          (if d.run_id == run_id then claim_row worker_id now lease d else d)
  unfolding claim_row
  claimed_row d = record {
    state = λ e. ground arith;
    owner = λ e. ground arith;
    lease_until = λ e. ground arith;
  }

  claimed_rows :
      (rows : List DispatchRow)
      → All
          (IsLeased run_id worker_id (now + lease))
          (set_where (λ o. o.run_id == run_id) (claim_row worker_id now lease) rows)
  claimed_rows [] = tt
  claimed_rows (d ∷ rows) = (claimed_row d, claimed_rows rows)

module _ (run_id worker_id : String) (until : ℕ) where
  leased-held_by :
      (other : String) (d : DispatchRow)
      → other ≢ worker_id
      → IsLeased run_id worker_id until d
      → held_by run_id other d ≡ false
  unfolding held_by owner_is
  leased-held_by other d differs l = ground (arith, differs, l.owner, eq_iff worker_id other)

  held_by-elsewhere :
      (run other : String) (d : DispatchRow)
      → (other ≢ worker_id) ⊎ (run ≢ run_id)
      → IsLeased run_id worker_id until d
      → held_by run other d ≡ true
      → (d.run_id == run_id) ≡ false
  unfolding held_by owner_is
  held_by-elsewhere run other d (inl differs) l h =
      ground (arith, differs, l.owner, eq_iff worker_id other)
  held_by-elsewhere run other d (inr differs) l h =
      ground (arith, differs, eq_iff d.run_id run, eq_iff d.run_id run_id)

  -- A write to rows of other runs, which keeps their runs.
  set_where-IsLeased :
      (p : DispatchRow → Bool) (set : DispatchRow → DispatchRow)
      → ((d : DispatchRow) → (set d).run_id ≡ d.run_id)
      → ((d : DispatchRow)
          → IsLeased run_id worker_id until d
          → p d ≡ true
          → (d.run_id == run_id) ≡ false)
      → (rows : List DispatchRow) → All (IsLeased run_id worker_id until) rows
      → All (IsLeased run_id worker_id until) (set_where p set rows)
  set_where-IsLeased p set same apart [] h = tt
  set_where-IsLeased p set same apart (d ∷ rows) (l, h) = (
    (elim (Bool-cases (p d)) [
      | inr no' ↦
          let e : d ≡ (if p d then set d else d) = ground arith in
          subst (IsLeased run_id worker_id until) e l
      | inl yes' ↦
          let e : set d ≡ (if p d then set d else d) = ground arith in
          let other : ((set d).run_id == run_id) ≡ false =
            subst (λ r. (r == run_id) ≡ false) (sym (same d)) (apart d l yes') in
          subst (IsLeased run_id worker_id until) e (record {
            state = λ k. absurd (true_not_false (sym k ∙ other));
            owner = λ k. absurd (true_not_false (sym k ∙ other));
            lease_until = λ k. absurd (true_not_false (sym k ∙ other));
          })
    ]),
    set_where-IsLeased p set same apart rows h,
  )

  update_one-IsLeased :
      (p : DispatchRow → Bool) (set : DispatchRow → DispatchRow)
      → ((d : DispatchRow) → (set d).run_id ≡ d.run_id)
      → ((d : DispatchRow)
          → IsLeased run_id worker_id until d
          → p d ≡ true
          → (d.run_id == run_id) ≡ false)
      → (t t' : Tables) → update_one p set t ≡ ok t'
      → All (IsLeased run_id worker_id until) t.dispatches
      → All (IsLeased run_id worker_id until) t'.dispatches
  unfolding update_one
  update_one-IsLeased p set same apart t t' e h =
      let after : t'.dispatches ≡ set_where p set t.dispatches = ground arith in
      subst (All (IsLeased run_id worker_id until)) (sym after)
        (set_where-IsLeased p set same apart t.dispatches h)

  leased-nobody_else :
      (other : String) (rows : List DispatchRow)
      → other ≢ worker_id
      → All (IsLeased run_id worker_id until) rows
      → any (held_by run_id other) rows ≡ false
  leased-nobody_else other [] differs h = refl
  leased-nobody_else other (d ∷ rows) differs (l, h) =
      ground (arith, leased-held_by other d differs l, leased-nobody_else other rows differs h)

  leased-claimable :
      (now : ℕ) (d : DispatchRow)
      → now < until
      → IsLeased run_id worker_id until d
      → claimable now d ≡ true
      → (d.run_id == run_id) ≡ false
  unfolding claimable lease_over
  leased-claimable now d early l h = ground (arith, l.state, l.lease_until)

  leased-not_first :
      (before : String → String → Bool) (now : ℕ) (rows : List DispatchRow) (d : DispatchRow)
      → now < until
      → All (IsLeased run_id worker_id until) rows
      → first_claimable before now rows ≡ some d
      → (d.run_id == run_id) ≡ false
  unfolding first_claimable
  leased-not_first before now [] d early h e = ground arith
  leased-not_first before now (r ∷ rows) d early (l, h) e =
      let this : claimable now r ≡ true → (r.run_id == run_id) ≡ false =
        leased-claimable now r early l in
      elim (Option-cases (first_claimable before now rows)) [
        | inl none' ↦ ground (arith, this)
        | inr (b, found) ↦
            let behind : (b.run_id == run_id) ≡ false =
              leased-not_first before now rows b early h found in
            ground (arith, this, behind)
      ]

update_one_nobody :
    (p : DispatchRow → Bool) (set : DispatchRow → DispatchRow) (t : Tables)
    → any p t.dispatches ≡ false
    → update_one p set t ≡ err conflict
unfolding update_one
update_one_nobody p set t h = ground arith

claimed :
    (before : String → String → Bool) (worker_id : String) (now lease : ℕ) (t t' : Tables)
    (d : Dispatch)
    → claim_dispatch before worker_id now lease t ≡ ok (d, t')
    → (t'.dispatches
        ≡ set_where (λ o. o.run_id == d.run_id) (claim_row worker_id now lease) t.dispatches)
unfolding claim_dispatch
claimed before worker_id now lease t t' d h = ground arith

claimed_from :
    (before : String → String → Bool) (worker_id : String) (now lease : ℕ) (t t' : Tables)
    (d : Dispatch)
    → claim_dispatch before worker_id now lease t ≡ ok (d, t')
    → (row : DispatchRow) × (first_claimable before now t.dispatches ≡ some row)
      × (row.run_id ≡ d.run_id)
unfolding claim_dispatch
claimed_from before worker_id now lease t t' d h =
    elim (Option-cases (first_claimable before now t.dispatches)) [
      | inl none' ↦ absurd (ground arith)
      | inr (row, found) ↦ (row, found, ground arith)
    ]

-- What other workers do to the queue before a lease is over: they claim, and they renew, complete or
-- requeue. The holder may do so too, for other runs.
pub data Elsewhere (before : String → String → Bool) (run_id worker_id : String) (until : ℕ)
    (t : Tables) : Tables → Type 0 where
  no_step : Elsewhere before run_id worker_id until t t
  claimed_by :
      {t1 t2 : Tables}
      → Elsewhere before run_id worker_id until t t1
      → (taker : String) (later length' : ℕ) (next : Dispatch) → later < until
      → claim_dispatch before taker later length' t1 ≡ ok (next, t2)
      → Elsewhere before run_id worker_id until t t2
  renewed_by :
      {t1 t2 : Tables}
      → Elsewhere before run_id worker_id until t t1
      → (run other : String) (at_time length' : ℕ) → (other ≢ worker_id) ⊎ (run ≢ run_id)
      → renew_dispatch run other at_time length' t1 ≡ ok t2
      → Elsewhere before run_id worker_id until t t2
  completed_by :
      {t1 t2 : Tables}
      → Elsewhere before run_id worker_id until t t1
      → (run other : String) (at_time : ℕ) → (other ≢ worker_id) ⊎ (run ≢ run_id)
      → complete_dispatch run other at_time t1 ≡ ok t2
      → Elsewhere before run_id worker_id until t t2
  requeued_by :
      {t1 t2 : Tables}
      → Elsewhere before run_id worker_id until t t1
      → (run other code : String) (at_time available_at : ℕ) (is_dead : Bool)
      → (other ≢ worker_id) ⊎ (run ≢ run_id)
      → requeue_dispatch run other code at_time available_at is_dead t1 ≡ ok t2
      → Elsewhere before run_id worker_id until t t2

module _ (before : String → String → Bool) (run_id worker_id : String) (until : ℕ) where
  claim-elsewhere :
      (taker : String) (later length' : ℕ) (next : Dispatch) (t t' : Tables)
      → later < until
      → claim_dispatch before taker later length' t ≡ ok (next, t')
      → All (IsLeased run_id worker_id until) t.dispatches
      → (next.run_id == run_id) ≡ false
  claim-elsewhere taker later length' next t t' early e h =
      let (row, found, same) = claimed_from before taker later length' t t' next e in
      subst (λ r. (r == run_id) ≡ false) same
        (leased-not_first run_id worker_id until before later t.dispatches row early h found)

  claim-IsLeased :
      (taker : String) (later length' : ℕ) (next : Dispatch) (t t' : Tables)
      → later < until
      → claim_dispatch before taker later length' t ≡ ok (next, t')
      → All (IsLeased run_id worker_id until) t.dispatches
      → All (IsLeased run_id worker_id until) t'.dispatches
  unfolding claim_row
  claim-IsLeased taker later length' next t t' early e h =
      let other = claim-elsewhere taker later length' next t t' early e h in
      subst (All (IsLeased run_id worker_id until))
        (sym (claimed before taker later length' t t' next e))
        (set_where-IsLeased run_id worker_id until (λ o. o.run_id == next.run_id)
          (claim_row taker later length') (λ d. refl)
          (λ d l hit. ground (arith, other, eq_iff d.run_id next.run_id)) t.dispatches h)

  Elsewhere-IsLeased :
      {t t' : Tables}
      → Elsewhere before run_id worker_id until t t'
      → All (IsLeased run_id worker_id until) t.dispatches
      → All (IsLeased run_id worker_id until) t'.dispatches
  unfolding renew_dispatch complete_dispatch requeue_dispatch
  Elsewhere-IsLeased no_step h = h
  Elsewhere-IsLeased {t} {t'} (claimed_by {t1} s taker later length' next early e) h =
      claim-IsLeased taker later length' next t1 t' early e (Elsewhere-IsLeased s h)
  Elsewhere-IsLeased {t} {t'} (renewed_by {t1} s run other at_time length' differs e) h =
      update_one-IsLeased run_id worker_id until _ _ (λ d. refl)
        (λ d l hit. held_by-elsewhere run_id worker_id until run other d differs l (ground arith))
        t1 t' e (Elsewhere-IsLeased s h)
  Elsewhere-IsLeased {t} {t'} (completed_by {t1} s run other at_time differs e) h =
      update_one-IsLeased run_id worker_id until _ _ (λ d. refl)
        (λ d l hit. held_by-elsewhere run_id worker_id until run other d differs l hit) t1 t' e
        (Elsewhere-IsLeased s h)
  Elsewhere-IsLeased {t} {t'}
        (requeued_by {t1} s run other code at_time available_at is_dead differs e) h =
      update_one-IsLeased run_id worker_id until _ _ (λ d. refl)
        (λ d l hit. held_by-elsewhere run_id worker_id until run other d differs l hit) t1 t' e
        (Elsewhere-IsLeased s h)

module _ (before : String → String → Bool) (worker_id : String) (now lease : ℕ) (t t' : Tables)
    (d : Dispatch) (claim : claim_dispatch before worker_id now lease t ≡ ok (d, t')) where
  rows-IsLeased : All (IsLeased d.run_id worker_id (now + lease)) t'.dispatches
  rows-IsLeased =
      subst (All (IsLeased d.run_id worker_id (now + lease)))
        (sym (claimed before worker_id now lease t t' d claim))
        (claimed_rows d.run_id worker_id now lease t.dispatches)

  -- A worker that has claimed a dispatch has it alone. Through any claims before the lease is over, and
  -- any renewals, completions and requeues by other workers or for other runs, it stays so: no other
  -- worker can complete or requeue the dispatch, and until the lease is over no worker at all can claim
  -- its run again.
  pub claim_excludes :
      (other : String) (t2 : Tables)
      → other ≢ worker_id
      → Elsewhere before d.run_id worker_id (now + lease) t' t2
      → ((at_time : ℕ) → complete_dispatch d.run_id other at_time t2 ≡ err conflict)
        × ((at_time available_at : ℕ) (code : String) (is_dead : Bool)
            → requeue_dispatch d.run_id other code at_time available_at is_dead t2 ≡ err conflict)
        × ((taker : String) (later length' : ℕ) (next : Dispatch) (t3 : Tables)
            → later < now + lease
            → claim_dispatch before taker later length' t2 ≡ ok (next, t3)
            → next.run_id ≢ d.run_id)
  unfolding complete_dispatch requeue_dispatch
  claim_excludes other t2 differs steps =
      let rows = Elsewhere-IsLeased before d.run_id worker_id (now + lease) steps rows-IsLeased in
      let nobody =
        leased-nobody_else d.run_id worker_id (now + lease) other t2.dispatches differs rows in
      (
        λ at_time. update_one_nobody _ _ t2 nobody,
        λ at_time available_at code is_dead. update_one_nobody _ _ t2 nobody,
        λ taker later length' next t3 early again.
            let apart =
              claim-elsewhere before d.run_id worker_id (now + lease) taker later length' next t2 t3
                early again rows in
            λ e. true_not_false (sym ((eq_iff next.run_id d.run_id).1 e) ∙ apart),
      )

late_power : (n : ℕ) → 6 ≤ n → 2 ^ min n 6 ≡ 64
late_power n h = ap (λ k. 2 ^ k) (min_six n h)
  where
    min_six : (n : ℕ) → 6 ≤ n → min n 6 ≡ 6
    min_six n h = omega arith

abbrev Doubles : ℕ → Type 0
Doubles n = (1 ≤ 2 ^ min n 6) × (2 ^ min n 6 ≤ 64) × (2 ^ min (suc n) 6 ≡ min (2 * 2 ^ min n 6) 64)

power_steps : (n : ℕ) → Doubles n
power_steps zero = (omega arith, omega arith, refl)
power_steps (suc zero) = (omega arith, omega arith, refl)
power_steps (suc (suc zero)) = (omega arith, omega arith, refl)
power_steps (suc (suc (suc zero))) = (omega arith, omega arith, refl)
power_steps (suc (suc (suc (suc zero)))) = (omega arith, omega arith, refl)
power_steps (suc (suc (suc (suc (suc zero))))) = (omega arith, omega arith, refl)
power_steps (suc (suc (suc (suc (suc (suc n)))))) =
    let this = late_power (suc (suc (suc (suc (suc (suc n)))))) (omega arith) in
    let next = late_power (suc (suc (suc (suc (suc (suc (suc n))))))) (omega arith) in
    (omega (arith, this), omega (arith, this), omega (arith, this, next))

claim_counts :
    (before : String → String → Bool) (worker_id : String) (now lease : ℕ) (t t' : Tables)
    (d : Dispatch)
    → claim_dispatch before worker_id now lease t ≡ ok (d, t')
    → (n : ℕ) × (d.attempt_count ≡ suc n)
unfolding claim_dispatch
claim_counts before worker_id now lease t t' d h =
    elim (Option-cases (first_claimable before now t.dispatches)) [
      | inl none' ↦ absurd (ground arith)
      | inr (row, found) ↦ (row.attempt_count, ground arith)
    ]

delay_after :
    (n : ℕ)
    → (delay : ℕ) × (requeue_delay (suc n) ≡ some delay)
      × (1000000000 ≤ delay)
      × (delay ≤ 64000000000)
      × (suc n ≡ 1 → delay ≡ 1000000000)
      × (requeue_delay (suc (suc n)) ≡ some (min (2 * delay) 64000000000))
unfolding requeue_delay
delay_after n =
    let (low, high, next) = power_steps n in
    (
      2 ^ min n 6 * 1000000000,
      refl,
      omega (arith, low),
      omega (arith, high),
      λ e. ap (λ k. 2 ^ min k 6 * 1000000000) (first n e),
      ap some (omega (arith, next)),
    )
  where
    first : (n : ℕ) → suc n ≡ 1 → n ≡ 0
    first n e = omega arith

-- A dispatch that was claimed can be requeued: its delay exists, it is one second after the first
-- attempt, it doubles with each further attempt up to 64 seconds, and there it stays.
pub requeue_delay_doubles :
    (before : String → String → Bool) (worker_id : String) (now lease : ℕ) (t t' : Tables)
    (d : Dispatch)
    → claim_dispatch before worker_id now lease t ≡ ok (d, t')
    → (delay : ℕ) × (requeue_delay d.attempt_count ≡ some delay)
      × (1000000000 ≤ delay)
      × (delay ≤ 64000000000)
      × (d.attempt_count ≡ 1 → delay ≡ 1000000000)
      × (requeue_delay (suc d.attempt_count) ≡ some (min (2 * delay) 64000000000))
requeue_delay_doubles before worker_id now lease t t' d h =
    let (n, counted) = claim_counts before worker_id now lease t t' d h in
    subst
      (λ c.
        (delay : ℕ) × (requeue_delay c ≡ some delay)
        × (1000000000 ≤ delay)
        × (delay ≤ 64000000000)
        × (c ≡ 1 → delay ≡ 1000000000)
        × (requeue_delay (suc c) ≡ some (min (2 * delay) 64000000000)))
      (sym counted) (delay_after n)
