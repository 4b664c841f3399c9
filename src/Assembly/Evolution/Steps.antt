-- ===== src/Assembly/Evolution/Steps.antt =====
-- What an accepted change of a run does to each of its steps.
use unified_software_commerc.Prelude.{
  ℕ, true, false, List, [], ◌∷◌, some, ◌≡◌, ◌≢◌, ok, err, arith, eq_iff, Memᴰ, subst, sym, refl,
  inl, inr,
}
use unified_software_commerc.Prelude.Int64.{int_lt}
use unified_software_commerc.Assembly.Model.{
  Run, RunStep, completed, compensated, skipped, invalid_run_transition,
}
use unified_software_commerc.Assembly.Transition.{valid_step_transition, stable_time}
use unified_software_commerc.Assembly.Evolution.{step_evolves, steps_evolve, validate_run_evolution}
use unified_software_commerc.Assembly.Evolution.Laws.{accepted_steps, accepted_or_refused}

-- How one step moves.
pub record StepMoves (before after : RunStep) : Type 0 where
  pub step_id : before.step_id ≡ after.step_id
  pub kind : before.kind ≡ after.kind
  pub attempt : int_lt after.attempt before.attempt ≡ false
  pub started_at : {t : ℕ} → before.started_at ≡ some t → after.started_at ≡ some t
  pub finished_at : {t : ℕ} → before.finished_at ≡ some t → after.finished_at ≡ some t
  pub done : before.status ≡ completed → after.status ≡ compensated
  pub settled : before.status ≢ compensated
  pub kept : before.status ≢ skipped

pub step_evolves-StepMoves : (b a : RunStep) → step_evolves b a ≡ true → StepMoves b a
unfolding step_evolves valid_step_transition stable_time
step_evolves-StepMoves b a h = record {
  step_id = ground (arith, eq_iff b.step_id a.step_id);
  kind = ground (arith, eq_iff b.kind a.kind);
  attempt = ground arith;
  started_at = ground arith;
  finished_at = ground arith;
  done = ground arith;
  settled = ground arith;
  kept = ground arith;
}

-- Two lists of steps, step by step.
abbrev pub EachMoves : List RunStep → List RunStep → Type 0
EachMoves [] next = Unit
EachMoves (b ∷ bs) [] = ⊥
EachMoves (b ∷ bs) (a ∷ as') = StepMoves b a × EachMoves bs as'

steps_evolve-EachMoves : (bs as' : List RunStep) → steps_evolve bs as' ≡ true → EachMoves bs as'
unfolding steps_evolve
steps_evolve-EachMoves [] as' h = tt
steps_evolve-EachMoves (b ∷ bs) [] h = cc
steps_evolve-EachMoves (b ∷ bs) (a ∷ as') h =
    (step_evolves-StepMoves b a (ground arith), steps_evolve-EachMoves bs as' (ground arith))

-- In an accepted document every step keeps its identifier and kind, its attempts do not fall, a time
-- that was set stays, a completed step becomes compensated, and no step was compensated or skipped
-- before.
pub evolution_moves_steps :
    (c n : Run) → validate_run_evolution c n ≡ ok tt → EachMoves c.steps n.steps
evolution_moves_steps c n h = steps_evolve-EachMoves c.steps n.steps (accepted_steps c n h)

partner :
    {b : RunStep} (bs as' : List RunStep)
    → EachMoves bs as'
    → Memᴰ b bs
    → (a : RunStep) × Memᴰ a as' × StepMoves b a
partner [] as' h m = elim m [ ]
partner (b ∷ bs) [] h m = absurd h
partner (b ∷ bs) (a ∷ as') (move, h) (Memᴰ.head e) =
    (a, Memᴰ.head refl, subst (λ s. StepMoves s a) (sym e) move)
partner (b ∷ bs) (a ∷ as') (move, h) (Memᴰ.tail m) =
    let (a', listed, move') = partner bs as' h m in (a', Memᴰ.tail listed, move')

-- A document in which a completed step is still completed, or anything but compensated, is refused.
pub completed_step_is_stuck :
    (c n : Run) (b : RunStep)
    → Memᴰ b c.steps
    → b.status ≡ completed
    → ((a : RunStep) → Memᴰ a n.steps → a.step_id ≡ b.step_id → a.status ≢ compensated)
    → validate_run_evolution c n ≡ err invalid_run_transition
completed_step_is_stuck c n b m done others = elim (accepted_or_refused c n) [
  | inl accepted ↦
      let (a, listed, move) = partner c.steps n.steps (evolution_moves_steps c n accepted) m in
      absurd (others a listed (sym move.step_id) (move.done done))
  | inr refused ↦ refused
]
