-- ===== src/Installer/Outcome.antt =====
-- How an install ends.
use mathlib.Core.List.{append_assoc, append-nil}
use site_foundry.Installer.Rounds.{Mark, trace, passed_marks, failed_marks, Round, attempt_lem}
use site_foundry.Installer.Pipeline.{attempt, run_steps}
use site_foundry.Installer.State.{InstallStep, index, failed, Site, Services, World}
use site_foundry.Effects.{Result, ok, Act, pure, continue, ◌>>=◌}
use site_foundry.Prelude.{
  ◌≡◌, refl, sym, ap, ◌∙◌, ◌⊎◌, inl, inr, Bool, true, false, List, [], ◌∷◌, ◌++◌, ltb,
  if◌then◌else◌,
}

-- The events of the steps that an install from `from` runs, if all succeed.
abbrev pub expected : InstallStep → List InstallStep → List Mark
expected from [] = []
expected from (step ∷ steps) =
    let rest = expected from steps in
    if ltb (index step) (index from) then rest else passed_marks step ++ rest

-- A property of what a test leads to.
pub branch_lem :
    {W A : Type 0} (Q : Result A × W → Type 0) (b : Bool) (m n : Act W A) (w : W)
    → (b ≡ true → Q (m w))
    → (b ≡ false → Q (n w))
    → Q ((if b then m else n) w)
branch_lem Q true m n w p q = p refl
branch_lem Q false m n w p q = q refl

module _ (services : Services) where
  open services use {Outside}

  -- The loop: all the steps succeed, or the first to fail is recorded and none runs after it.
  abbrev pub Loop :
      InstallStep → List InstallStep → World Outside → Result Bool × World Outside → Type 0
  Loop from steps w (r, w') =
      ((r ≡ ok true) × (trace w'.events ≡ trace w.events ++ expected from steps))
      ⊎ ((before : List InstallStep) × (step : InstallStep) × (after : List InstallStep) × (steps
            ≡ before ++ step ∷ after)
          × (r ≡ ok false)
          × (w'.site.install_status ≡ failed)
          × (trace w'.events ≡ trace w.events ++ (expected from before ++ failed_marks step)))

  -- A step before `from` is passed over.
  skip_lem :
      (from step : InstallStep) (steps : List InstallStep) (w : World Outside)
      (out : Result Bool × World Outside)
      → ltb (index step) (index from) ≡ true
      → Loop from steps w out
      → Loop from (step ∷ steps) w out
  skip_lem from step steps w (r, w') early (inl (all_ok, t)) = inl (all_ok, rw early t)
  skip_lem from step steps w (r, w') early (inr (before, s, after, split, stopped, st, t)) = inr (
    step ∷ before,
    s,
    after,
    ap (λ (l : List InstallStep). step ∷ l) split,
    stopped,
    st,
    rw early t,
  )

  -- A step that succeeds goes before the rest.
  next_lem :
      (from step : InstallStep) (steps : List InstallStep) (w w1 : World Outside)
      (out : Result Bool × World Outside)
      → ltb (index step) (index from) ≡ false
      → trace w1.events ≡ trace w.events ++ passed_marks step
      → Loop from steps w1 out
      → Loop from (step ∷ steps) w out
  next_lem from step steps w w1 (r, w') due t1 (inl (all_ok, t)) = inl (
    all_ok,
    rw due (
        t
        ∙ ap (λ (l : List Mark). l ++ expected from steps) t1
        ∙ append_assoc (trace w.events) (passed_marks step) (expected from steps)),
  )
  next_lem from step steps w w1 (r, w') due t1 (inr (before, s, after, split, stopped, st, t)) =
      inr (
        step ∷ before,
        s,
        after,
        ap (λ (l : List InstallStep). step ∷ l) split,
        stopped,
        st,
        rw due (
            t
            ∙ ap (λ (l : List Mark). l ++ (expected from before ++ failed_marks s)) t1
            ∙ append_assoc (trace w.events) (passed_marks step)
                (expected from before ++ failed_marks s)),
      )

  -- The state after a round, and the rest of the loop from there.
  round_lem :
      (from : InstallStep) (site : Site) (step : InstallStep) (steps : List InstallStep)
      (w : World Outside) (out : Result Bool × World Outside)
      → ltb (index step) (index from) ≡ false
      → Round services step w out
      → ((w1 : World Outside) → Loop from steps w1 (run_steps services from site steps w1))
      → Loop from (step ∷ steps) w (
          continue out.0
            (λ passed. if passed then run_steps services from site steps else pure false)
            out.1)
  unfolding pure
  round_lem from site step steps w (r, w1) due (inl (all_ok, a, b, t)) rest =
      rw all_ok
        (next_lem from step steps w w1 (run_steps services from site steps w1) due t (rest w1))
  round_lem from site step steps w (r, w1) due (inr (stopped, a, b, t)) rest =
      rw stopped (inr ([], step, steps, refl, refl, a, t))

  pub run_steps_lem :
      (from : InstallStep) (site : Site) (steps : List InstallStep) (w : World Outside)
      → Loop from steps w (run_steps services from site steps w)
  unfolding run_steps ◌>>=◌
  run_steps_lem from site [] w = inl (refl, sym (append-nil (trace w.events)))
  run_steps_lem from site (step ∷ steps) w =
      branch_lem (Loop from (step ∷ steps) w) (ltb (index step) (index from)) _ _ w
        (λ early.
          skip_lem from step steps w (run_steps services from site steps w) early
            (run_steps_lem from site steps w))
        (λ due.
          round_lem from site step steps w (attempt services site step w) due
            (attempt_lem services site step w) (run_steps_lem from site steps))
