-- ===== src/Installer/Pipeline.antt =====
-- The pipeline of InstallerService: `run` with `execute`, of
-- apps/api/src/installer/installer.service.ts.
use site_foundry.Installer.Steps.{
  Action, step_create_user, step_deploy_files, step_configure_nginx, step_issue_ssl,
  restore_last_build, step_verify_tracking, step_final_verify,
}
use site_foundry.Installer.State.{
  InstallStep, preflight, creating_user, deploying_files, configuring_nginx, issuing_ssl,
  injecting_tracking, verifying, index, InstallStatus, queued, failed, live, at_step, Site,
  EventStep, install, live_event, queued_event, EventStatus, start, succeeded, fail, done, skipped,
  no_context, Services, World, on_store, call, update, edit_site, output_tail,
}
use site_foundry.Preflight.{PreflightError, PreflightInput, run_preflight}
use site_foundry.Effects.{Exception, pure, lift, gets, catch, finally, ◌>>=◌, ◌>>◌}
use site_foundry.Ssl.{building, published}
use site_foundry.Prelude.{
  Bool, true, false, ◌&&◌, not, Option, none, some, List, [], ◌∷◌, ◌++◌, ltb, if◌then◌else◌,
  is_some, length, keep, any,
}
use site_foundry.Text.{Text, txt, text_eq, is_empty, show, join}

-- `steps` of `execute`
abbrev pub server_steps : List InstallStep
server_steps =
    creating_user ∷ deploying_files ∷ configuring_nginx ∷ issuing_ssl ∷ injecting_tracking
    ∷ verifying ∷ []

-- `installStatus !== 'failed' && installStatus !== 'live'`
abbrev is_under_way : InstallStatus → Bool
is_under_way failed = false
is_under_way live = false
is_under_way _ = true

abbrev is_issuing : InstallStep → Bool
is_issuing issuing_ssl = true
is_issuing _ = false

abbrev some_text : Text → Option Text
some_text [] = none
some_text (c ∷ s) = some (c ∷ s)

module _ (services : Services) where
  open services use {
    Outside, parse_url, connect, close, now, sanitize_for_log, to_iso, exec, parse_date,
  }

  unfoldable pub set_install_status : InstallStatus → Action services (Unit {0})
  set_install_status st = update (
      edit_site (λ s. record s {
        install_status = st;
        status = if is_under_way st then building else s.status;
      }))

  -- `recordEvent`; the summary of the command is the name of the step.
  unfoldable pub record_event : EventStep → EventStatus → Text → Action services (Unit {0})
  record_event step status output = update (λ s. record s {
    events =
        s.events
        ++ record {
          step = step;
          status = status;
          output_tail =
              if is_empty output then none else some (output_tail sanitize_for_log output 500);
        }
          ∷ [];
  })

  -- the event on the progress bus, without its title, a text for display
  unfoldable pub emit : EventStep → EventStatus → Option Text → Action services (Unit {0})
  emit step status detail = update (λ s. record s {
    bus = s.bus ++ record { step = step; status = status; detail = detail } ∷ [];
  })

  unfoldable pub fail_step : InstallStep → Text → Action services (Unit {0})
  fail_step step detail = do
    record_event (install step) fail detail
    set_install_status failed
    emit (install step) fail (some (output_tail sanitize_for_log detail 800))

  unfoldable pub runner : Site → InstallStep → Action services Text
  runner site preflight = pure []
  runner site creating_user = step_create_user services site
  runner site deploying_files = step_deploy_files services site
  runner site configuring_nginx = step_configure_nginx services site
  runner site issuing_ssl = step_issue_ssl services site
  runner site injecting_tracking = step_verify_tracking services site
  runner site verifying = step_final_verify services site

  -- the status that a finished step is shown with
  abbrev shown : InstallStep → Text → EventStatus
  shown step detail =
      if is_issuing step && text_eq detail (txt "skipped") then skipped else succeeded

  -- the end of the `try` block, and its `catch`
  unfoldable pub succeed : InstallStep → Text → Action services Bool
  succeed step detail = do
    record_event (install step) succeeded detail
    emit (install step) (shown step detail) (some detail)
    pure true

  unfoldable pub abandon : InstallStep → Exception → Action services Bool
  abandon step e = do fail_step step (sanitize_for_log e.message); pure false

  unfoldable pub begin_step : InstallStep → Action services (Unit {0})
  unfolding set_install_status emit record_event
  begin_step step = do
    set_install_status (at_step step)
    emit (install step) start none
    record_event (install step) start []

  -- One round of the loop of `execute`; `false` is its `return`.
  unfoldable pub attempt : Site → InstallStep → Action services Bool
  unfolding begin_step
  attempt site step = do
    begin_step step
    catch (do detail ← runner site step; succeed step detail) (abandon step)

  unfoldable pub run_steps : InstallStep → Site → List InstallStep → Action services Bool
  run_steps from site [] = pure true
  run_steps from site (step ∷ steps) =
      let rest = run_steps from site steps in
      if ltb (index step) (index from)
      then rest
      else (do passed ← attempt site step; if passed then rest else pure false)

  pub input_of : Site → PreflightInput
  input_of site = record {
    params = site.params;
    destination_url = site.destination_url;
    template_category = site.category;
    param_schema = site.param_schema;
    extra_allowed_hosts = site.extra_allowed_hosts;
  }

  pub error_lines : List PreflightError → List Text
  error_lines [] = []
  error_lines (e ∷ es) = (e.field ++ (txt ": " ++ e.message)) ∷ error_lines es

  -- The pre-flight block; `false` is its `return`.
  unfoldable pub check_preflight : InstallStep → Site → Action services Bool
  unfolding input_of error_lines
  check_preflight from site = if ltb 0 (index from) then pure true else (do
    emit (install preflight) start none
    result ← lift (run_preflight parse_url (input_of site))
    if result.ok then (do emit (install preflight) succeeded none; pure true) else (do
      fail_step preflight (
          show (length result.errors)
          ++ (txt " validation error(s): " ++ join (txt "; ") (error_lines result.errors)))
      pure false))

  -- Opening the session; `false` is the `return` of the failure.
  unfoldable pub open_session : Site → Action services Bool
  open_session site =
      catch (do call (connect site); pure true)
        (λ e. do
          fail_step creating_user (txt "SSH connection failed: " ++ sanitize_for_log e.message)
          pure false)

  unfoldable pub close_session : World Outside → World Outside
  close_session w = record { store = w.store; outside = close w.outside }

  unfoldable pub go_live : Site → Action services (Unit {0})
  go_live site = do
    t ← gets (λ w. now w.outside)
    update (λ s.
        edit_site
          (λ site'. record site' {
            install_status = live;
            status = published;
            published_at = some t;
            last_verified_at = some t;
            last_build_id =
                if is_some s.context.build_id then s.context.build_id else site'.last_build_id;
          })
          s)
    emit live_event done none

  unfoldable pub run_on_server : InstallStep → Site → Action services (Unit {0})
  run_on_server from site = do
    if ltb (index deploying_files) (index from) then restore_last_build services else pure tt
    finished ← run_steps from site server_steps
    if finished then go_live site else pure tt

  -- `execute`, for a site whose row the tenant sees
  unfoldable pub execute : InstallStep → Action services (Unit {0})
  execute from = do
    site ← gets (λ w. w.site)
    update (λ s. record s { context = no_context })
    set_install_status queued
    passed ← check_preflight from site
    if passed
        then (do
          connected ← open_session site
          if connected then finally (run_on_server from site) close_session else pure tt)
        else pure tt

  unfoldable pub remove_running : Text → World Outside → World Outside
  remove_running id =
      on_store (λ s. record s { running = keep (λ r. not (text_eq r id)) s.running })

  -- `run`
  unfoldable pub run : InstallStep → Action services (Unit {0})
  unfolding remove_running
  run from = do
    id ← gets (λ w. w.site.id)
    busy ← gets (λ w. any (text_eq id) w.running)
    if busy
        then emit queued_event fail (some (txt "An install is already running for this site"))
        else (do
          update (λ s. record s { running = id ∷ s.running })
          finally (execute from) (remove_running id))
