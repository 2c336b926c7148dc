-- ===== src/Installer/Rounds.antt =====
-- What one round of the install does, and what all of them do.
use mathlib.Core.List.{append_assoc}
use site_foundry.Installer.Frame.{Same, Same-runner}
use site_foundry.Installer.Pipeline.{
  set_install_status, record_event, emit, fail_step, runner, succeed, abandon, begin_step, attempt,
}
use site_foundry.Installer.State.{
  InstallStep, failed, at_step, Site, EventStep, install, EventStatus, start, succeeded, fail,
  DeployEvent, Services, Store, World, update,
}
use site_foundry.Effects.{Result, ok, err, recover, continue, ◌>>=◌}
use site_foundry.Ssl.{building}
use site_foundry.Prelude.{◌≡◌, refl, ap, ◌∙◌, ◌⊎◌, inl, inr, Bool, true, false, List, [], ◌∷◌, ◌++◌}
use site_foundry.Text.{Text}

abbrev pub Mark : Type 0
Mark = EventStep × EventStatus

-- The events without their outputs.
abbrev pub trace : List DeployEvent → List Mark
trace [] = []
trace (e ∷ es) = (e.step, e.status) ∷ trace es

pub trace-append : (xs ys : List DeployEvent) → trace (xs ++ ys) ≡ trace xs ++ trace ys
trace-append [] ys = refl
trace-append (x ∷ xs) ys = ap (λ (t : List Mark). (x.step, x.status) ∷ t) (trace-append xs ys)

-- The events of a step that succeeds, and of one that fails.
abbrev pub passed_marks : InstallStep → List Mark
passed_marks step = (install step, start) ∷ (install step, succeeded) ∷ []

abbrev pub failed_marks : InstallStep → List Mark
failed_marks step = (install step, start) ∷ (install step, fail) ∷ []

grow :
    (old now : List DeployEvent) (e : DeployEvent) (m : Mark)
    → trace now ≡ trace old ++ m ∷ []
    → trace (now ++ e ∷ []) ≡ trace old ++ m ∷ (e.step, e.status) ∷ []
grow old now e m h =
    trace-append now (e ∷ [])
    ∙ ap (λ (t : List Mark). t ++ (e.step, e.status) ∷ []) h
    ∙ append_assoc (trace old) (m ∷ []) ((e.step, e.status) ∷ [])

module _ (services : Services) where
  open services use {Outside}

  -- A round succeeds and records it, or it marks the install as failed and records that.
  abbrev pub Round : InstallStep → World Outside → Result Bool × World Outside → Type 0
  Round step w (r, w') =
      ((r ≡ ok true)
        × (w'.site.install_status ≡ at_step step)
        × (w'.site.status ≡ building)
        × (trace w'.events ≡ trace w.events ++ passed_marks step))
      ⊎ ((r ≡ ok false)
          × (w'.site.install_status ≡ failed)
          × (w'.site.status ≡ building)
          × (trace w'.events ≡ trace w.events ++ failed_marks step))

  -- The end of a round, from the result of the step and the state that it leaves.
  settle_lem :
      (step : InstallStep) (w : World Outside) (s : Store) (r : Result Text) (w' : World Outside)
      → trace s.events ≡ trace w.events ++ (install step, start) ∷ []
      → s.site.install_status ≡ at_step step
      → s.site.status ≡ building
      → Same services s w'
      → Round step w (recover (abandon services step) (continue r (succeed services step) w'))
  unfolding succeed abandon fail_step record_event set_install_status emit update ◌>>=◌
  settle_lem step w s (ok detail) w' t a b (es, bs, rs, st, ss, id) =
      inl (refl, st ∙ a, ss ∙ b, grow w.events w'.events _ (install step, start) (ap trace es ∙ t))
  settle_lem step w s (err e) w' t a b (es, bs, rs, st, ss, id) =
      inr (refl, refl, ss ∙ b, grow w.events w'.events _ (install step, start) (ap trace es ∙ t))

  pub attempt_lem :
      (site : Site) (step : InstallStep) (w : World Outside)
      → Round step w (attempt services site step w)
  unfolding attempt update ◌>>=◌
  attempt_lem site step w =
      let w1 = (begin_step services step w).1 in
      let ran = runner services site step w1 in
      settle_lem step w w1.store ran.0 ran.1 (trace-append w.events _) refl refl
        ((Same-runner services w1.store site step).at w1 (refl, refl, refl, refl, refl, refl))
