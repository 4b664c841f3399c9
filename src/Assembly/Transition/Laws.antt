-- ===== src/Assembly/Transition/Laws.antt =====
-- The state machine of run statuses as a relation, and what it never leaves.
use unified_software_commerc.Prelude.{
  ℕ, ◌+◌, ◌≤◌, ◌&&◌, Bool, List, [], ◌∷◌, ◌++◌, length, inl, inr, Bool-cases, true, false, ap,
  subst, ◌≡◌, refl, ◌≢◌, ◌↔◌, ◌⊎◌, arith, eq_iff, eq_refl,
}
use unified_software_commerc.Assembly.Model.{
  RunStatus, planned, provisioning, generating, validating, completed, failed, rolling_back,
  rolled_back, other, status_eq,
}
use unified_software_commerc.Assembly.Transition.{valid_transition}

-- The diagram of a run: progress, failure, recovery, and staying in a status that is not final.
infix 40 ◌⟶◌ ◌⟶*◌
pub data ◌⟶◌ : RunStatus → RunStatus → Type 0 where
  provision : planned ⟶ provisioning
  generate : provisioning ⟶ generating
  validate : generating ⟶ validating
  complete : validating ⟶ completed
  fail_planned : planned ⟶ failed
  fail_provisioning : provisioning ⟶ failed
  fail_generating : generating ⟶ failed
  fail_validating : validating ⟶ failed
  resume : failed ⟶ provisioning
  roll_back : failed ⟶ rolling_back
  rolled : rolling_back ⟶ rolled_back
  fail_rolling_back : rolling_back ⟶ failed
  stay : {s : RunStatus} → s ≢ completed → s ≢ rolled_back → s ⟶ s

pub data ◌⟶*◌ (s : RunStatus) : RunStatus → Type 0 where
  here : s ⟶* s
  next : {t u : RunStatus} → s ⟶* t → t ⟶ u → s ⟶* u

ruleset edges = (
  provision, generate, validate, complete, fail_planned, fail_provisioning, fail_generating,
  fail_validating, resume, roll_back, rolled, fail_rolling_back, stay,
)

status_eq_refl : (s : RunStatus) → status_eq s s ≡ true
unfolding status_eq
status_eq_refl (other a) = eq_refl a
status_eq_refl planned = refl
status_eq_refl _ = refl

valid_transition_sound : (s t : RunStatus) → valid_transition s t ≡ true → s ⟶ t
unfolding valid_transition
valid_transition_sound (other a) (other b) h =
    subst (λ t. other a ⟶ t) (ap other ((eq_iff a b).0 (ground arith))) (stay (cc) (cc))
valid_transition_sound planned t h = grind (arith, edges)
valid_transition_sound _ t h = grind (arith, edges)

valid_transition_stay :
    (s : RunStatus) → s ≢ completed → s ≢ rolled_back → valid_transition s s ≡ true
unfolding valid_transition
valid_transition_stay (other a) h k = rw (eq_refl a)
valid_transition_stay completed h k = absurd (h refl)
valid_transition_stay rolled_back h k = absurd (k refl)
valid_transition_stay _ h k = refl

valid_transition_complete : {s t : RunStatus} → s ⟶ t → valid_transition s t ≡ true
unfolding valid_transition
valid_transition_complete (stay {s} h k) = valid_transition_stay s h k
valid_transition_complete provision = refl
valid_transition_complete _ = refl

-- The test and the moves as a relation.
pub valid_transition_iff : (s t : RunStatus) → (valid_transition s t ≡ true) ↔ (s ⟶ t)
valid_transition_iff s t = (valid_transition_sound s t, valid_transition_complete)

-- A completed or rolled-back run.
abbrev pub IsFinal : RunStatus → Type 0
IsFinal s = (s ≡ completed) ⊎ (s ≡ rolled_back)

not-IsFinal-⟶ : {s t : RunStatus} → s ⟶ t → ¬ IsFinal s
not-IsFinal-⟶ (stay h k) (inl e) = h e
not-IsFinal-⟶ (stay h k) (inr e) = k e
not-IsFinal-⟶ provision f = ground arith
not-IsFinal-⟶ _ f = ground arith

-- No status at all, not even its own, follows a completed or a rolled-back run.
pub final_refuses : (s t : RunStatus) → IsFinal s → valid_transition s t ≡ false
final_refuses s t f = elim (Bool-cases (valid_transition s t)) [
  | inl yes' ↦ absurd (not-IsFinal-⟶ (valid_transition_sound s t yes') f)
  | inr no' ↦ no'
]

-- How far a run has come: each move forward raises it by one at most.
abbrev pub progress : RunStatus → ℕ
progress planned = 0
progress provisioning = 1
progress generating = 2
progress validating = 3
progress completed = 4
progress _ = 0

progress-⟶ : {s t : RunStatus} → s ⟶ t → progress t ≤ progress s + 1
progress-⟶ (stay h k) = omega arith
progress-⟶ provision = omega arith
progress-⟶ _ = omega arith

-- A run gets back to `planned` from no other status.
planned_only_start : {s t : RunStatus} → s ⟶ t → t ≡ planned → s ≡ planned
planned_only_start (stay h k) e = e
planned_only_start provision e = ground arith
planned_only_start _ e = ground arith

abbrev pub run_statuses : List RunStatus → Bool
run_statuses [] = true
run_statuses (s ∷ []) = true
run_statuses (s ∷ t ∷ rest) = valid_transition s t && run_statuses (t ∷ rest)

-- Where each move from a status along a path of statuses to `completed` is accepted, the number of
-- the moves and the progress of the first status (from 0 of `planned` up to 4 of `completed`, and 0
-- of the statuses aside) are together at least 4: from `planned` it takes four moves.
pub completed_needs_four :
    (s : RunStatus) (path : List RunStatus)
    → run_statuses (s ∷ path ++ completed ∷ []) ≡ true
    → 4 ≤ progress s + length path + 1
completed_needs_four s [] h =
    omega (arith, progress-⟶ (valid_transition_sound s completed (ground arith)))
completed_needs_four s (t ∷ path) h = omega (
  arith,
  progress-⟶ (valid_transition_sound s t (ground arith)),
  completed_needs_four t path (ground arith),
)
