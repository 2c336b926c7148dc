-- ===== src/Installer/Running.antt =====
-- The set of running sites, and the operations that take a place in it.
use site_foundry.Installer.Execute.{Ending, execute_lem}
use site_foundry.Installer.Outcome.{branch_lem}
use site_foundry.Installer.Frame.{Same-deploy_files, Same-restore_last_build, Same-runner}
use site_foundry.Installer.Pipeline.{
  set_install_status, record_event, emit, fail_step, runner, succeed, abandon, attempt, run_steps,
  check_preflight, open_session, close_session, remove_running, go_live, run_on_server, execute,
  run,
}
use site_foundry.Installer.Entry.{write_rebuilt, rebuild_session, rebuild_on, rebuild_files}
use site_foundry.Installer.Steps.{step_deploy_files, restore_last_build}
use site_foundry.Installer.State.{
  InstallStep, InstallStatus, Site, EventStep, EventStatus, Services, Store, World, on_store, call,
  update,
}
use site_foundry.Effects.{Result, ok, Act, ◌>>=◌}
use site_foundry.Effects.Keeps.{Keeps, Keeps-pure, Keeps-if, Keeps-bind, keeps_rules}
use site_foundry.Prelude.{
  ◌≡◌, refl, ap, ◌∙◌, ◌⊎◌, inl, inr, true, false, not, Option, List, [], ◌∷◌, arith, Bool-cases,
  keep, any,
}
use site_foundry.Text.{Text, text_eq, text_eq_iff, text_eq_refl}

remove_lem :
    (id : Text) (ids : List Text)
    → any (text_eq id) ids ≡ false
    → keep (λ r. not (text_eq r id)) ids ≡ ids
remove_lem id [] h = refl
remove_lem id (r ∷ rest) h = ground (arith, remove_lem id rest, text_eq_iff r id, text_eq_iff id r)

remove_cons :
    (id : Text) (ids : List Text)
    → any (text_eq id) ids ≡ false
    → keep (λ r. not (text_eq r id)) (id ∷ ids) ≡ ids
remove_cons id ids h = rw (text_eq_refl id) (remove_lem id ids h)

module _ (services : Services) where
  open services use {Outside, parse_url, connect}

  -- The running set and the site's identity.
  abbrev pub HasRunning : List Text → World Outside → Type 0
  HasRunning ids w = w.running ≡ ids

  module _ (ids : List Text) where
    HasRunning-call : {A : Type 0} (m : Act Outside A) → Keeps (HasRunning ids) (call m)
    unfolding call
    HasRunning-call m = record { at = λ w h. h }

    HasRunning-update :
        (f : Store → Store)
        → ((w : World Outside) → HasRunning ids w → HasRunning ids (on_store f w))
        → Keeps (HasRunning ids) (update f)
    unfolding update
    HasRunning-update f kf = record { at = kf }

    -- What leaves the observer's view alone leaves the running set alone.
    HasRunning-runner :
        (site : Site) (step : InstallStep) → Keeps (HasRunning ids) (runner services site step)
    HasRunning-runner site step = record {
      at = λ w h.
          ((Same-runner services w.store site step).at w (refl, refl, refl, refl, refl, refl)).2
          ∙ h;
    }

    HasRunning-restore : Keeps (HasRunning ids) (restore_last_build services)
    HasRunning-restore = record {
      at = λ w h.
          ((Same-restore_last_build services w.store).at w (refl, refl, refl, refl, refl, refl)).2
          ∙ h;
    }

    HasRunning-deploy : (site : Site) → Keeps (HasRunning ids) (step_deploy_files services site)
    HasRunning-deploy site = HasRunning-runner' site
      where
        HasRunning-runner' :
            (site : Site) → Keeps (HasRunning ids) (step_deploy_files services site)
        HasRunning-runner' site = record {
          at = λ w h.
              ((Same-deploy_files services w.store site).at w
                (refl, refl, refl, refl, refl, refl)).2
              ∙ h;
        }

    ruleset running_rules = (keeps_rules, HasRunning-call, HasRunning-update)

    HasRunning-set : (st : InstallStatus) → Keeps (HasRunning ids) (set_install_status services st)
    unfolding set_install_status
    HasRunning-set st = search running_rules

    HasRunning-emit :
        (step : EventStep) (st : EventStatus) (detail : Option Text)
        → Keeps (HasRunning ids) (emit services step st detail)
    unfolding emit
    HasRunning-emit step st detail = search running_rules

    HasRunning-record :
        (step : EventStep) (st : EventStatus) (output : Text)
        → Keeps (HasRunning ids) (record_event services step st output)
    unfolding record_event
    HasRunning-record step st output = search running_rules

    ruleset event_rules = (running_rules, HasRunning-set, HasRunning-emit, HasRunning-record)

    HasRunning-fail :
        (step : InstallStep) (detail : Text)
        → Keeps (HasRunning ids) (fail_step services step detail)
    unfolding fail_step
    HasRunning-fail step detail = search event_rules

    HasRunning-attempt :
        (site : Site) (step : InstallStep) → Keeps (HasRunning ids) (attempt services site step)
    unfolding attempt succeed abandon
    HasRunning-attempt site step = search (event_rules, HasRunning-fail, HasRunning-runner) depth 12

    HasRunning-steps :
        (from : InstallStep) (site : Site) (steps : List InstallStep)
        → Keeps (HasRunning ids) (run_steps services from site steps)
    unfolding run_steps
    HasRunning-steps from site [] = search running_rules
    HasRunning-steps from site (step ∷ steps) =
        let later = HasRunning-steps from site steps in
        Keeps-if _ _ _ later (
          Keeps-bind _ _ (HasRunning-attempt site step)
            (λ passed. Keeps-if _ _ _ later (Keeps-pure _)))

    HasRunning-go_live : (site : Site) → Keeps (HasRunning ids) (go_live services site)
    unfolding go_live
    HasRunning-go_live site = search event_rules

    HasRunning-preflight :
        (from : InstallStep) (site : Site)
        → Keeps (HasRunning ids) (check_preflight services from site)
    unfolding check_preflight
    HasRunning-preflight from site = search (event_rules, HasRunning-fail) depth 12

    HasRunning-session : (site : Site) → Keeps (HasRunning ids) (open_session services site)
    unfolding open_session
    HasRunning-session site = search (event_rules, HasRunning-fail) depth 12

    HasRunning-server :
        (from : InstallStep) (site : Site)
        → Keeps (HasRunning ids) (run_on_server services from site)
    unfolding run_on_server
    HasRunning-server from site =
        search (event_rules, HasRunning-restore, HasRunning-steps, HasRunning-go_live) depth 12

    HasRunning-close :
        (w : World Outside) → HasRunning ids w → HasRunning ids (close_session services w)
    unfolding close_session
    HasRunning-close w h = h

    HasRunning-execute : (from : InstallStep) → Keeps (HasRunning ids) (execute services from)
    unfolding execute
    HasRunning-execute from =
        search
          (
            event_rules, HasRunning-preflight, HasRunning-session, HasRunning-server,
            HasRunning-close,
          )
          depth 14

    HasRunning-rebuild_on : (site : Site) → Keeps (HasRunning ids) (rebuild_on services site)
    unfolding rebuild_on rebuild_session write_rebuilt
    HasRunning-rebuild_on site = search (event_rules, HasRunning-deploy, HasRunning-close) depth 16

  -- A rebuild leaves the running set as it was.
  pub rebuild_files-running : (w : World Outside) → (rebuild_files services w).1.running ≡ w.running
  unfolding rebuild_files remove_running update ◌>>=◌
  rebuild_files-running w = elim (Bool-cases (any (text_eq w.site.id) w.running)) [
    | inl busy ↦ rw busy refl
    | inr free ↦ rw free (
        ap (keep (λ r. not (text_eq r w.site.id))) (
          (HasRunning-rebuild_on (w.site.id ∷ w.running) w.site).at
            (on_store (λ s. record s { running = w.site.id ∷ s.running }) w) refl)
        ∙ remove_cons w.site.id w.running free)
  ]

  -- After `run`, whether it was refused, returned or threw, the running set is what it was before.
  pub run-running :
      (from : InstallStep) (w : World Outside) → (run services from w).1.running ≡ w.running
  unfolding run emit update ◌>>=◌
  run-running from w =
      branch_lem (λ out. out.1.running ≡ w.running) (any (text_eq w.site.id) w.running) _ _ w
        (λ busy. refl)
        (λ free.
          ap (keep (λ r. not (text_eq r w.site.id))) (
            (HasRunning-execute (w.site.id ∷ w.running) from).at
              (on_store (λ s. record s { running = w.site.id ∷ s.running }) w) refl)
          ∙ remove_cons w.site.id w.running free)

  -- What a refused `run` leaves: everything but the bus as it was.
  abbrev pub Refused : World Outside → Result (Unit {0}) × World Outside → Type 0
  Refused w (r, w') =
      (r ≡ ok tt)
      × (w'.outside ≡ w.outside)
      × (w'.site ≡ w.site)
      × (w'.events ≡ w.events)
      × (w'.builds ≡ w.builds)
      × (w'.running ≡ w.running)
      × (w'.context ≡ w.context)

  abbrev pub RunOutcome : InstallStep → World Outside → Result (Unit {0}) × World Outside → Type 0
  RunOutcome from w p =
      ((any (text_eq w.site.id) w.running ≡ true) × Refused w p)
      ⊎ ((any (text_eq w.site.id) w.running ≡ false) × Ending services from w.events p)

  run_busy :
      (from : InstallStep) (w : World Outside)
      → any (text_eq w.site.id) w.running ≡ true
      → Refused w (run services from w)
  unfolding run emit update ◌>>=◌
  run_busy from w busy = rw busy (refl, refl, refl, refl, refl, refl, refl)

  run_free :
      (from : InstallStep) (w : World Outside)
      → any (text_eq w.site.id) w.running ≡ false
      → Ending services from w.events (run services from w)
  unfolding run update ◌>>=◌
  run_free from w free =
      rw free
        (execute_lem services from (on_store (λ s. record s { running = w.site.id ∷ s.running }) w))

  -- `run` while an install of the site is running changes nothing but the bus; otherwise it ends as
  -- `execute` does: live with every server step recorded as passed, failed, or by an exception that
  -- leaves the site queued with nothing recorded.
  pub run_lem : (from : InstallStep) (w : World Outside) → RunOutcome from w (run services from w)
  run_lem from w = elim (Bool-cases (any (text_eq w.site.id) w.running)) [
    | inl busy ↦ inl (busy, run_busy from w busy)
    | inr free ↦ inr (free, run_free from w free)
  ]
