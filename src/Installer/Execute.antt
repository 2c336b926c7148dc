-- ===== src/Installer/Execute.antt =====
-- The three ways in which `execute` ends, and the two of `run`.
use site_foundry.Installer.Outcome.{expected, branch_lem, Loop, run_steps_lem}
use site_foundry.Installer.Rounds.{trace}
use site_foundry.Installer.Frame.{Same, Same-restore_last_build}
use site_foundry.Installer.Pipeline.{
  server_steps, set_install_status, record_event, emit, fail_step, run_steps, input_of, error_lines,
  check_preflight, open_session, close_session, go_live, run_on_server, execute,
}
use site_foundry.Installer.Steps.{Action, restore_last_build}
use site_foundry.Installer.State.{
  InstallStep, preflight, creating_user, deploying_files, index, queued, failed, live, Site,
  install, start, succeeded, DeployEvent, no_context, Services, Store, World, on_store, call,
  update, edit_site,
}
use site_foundry.Preflight.{PreflightResult, run_preflight}
use site_foundry.Effects.{Exception, Result, ok, err, pure, recover, finally, continue, ◌>>=◌, ◌>>◌}
use site_foundry.Effects.Keeps.{Keeps, Keeps-pure}
use site_foundry.Ssl.{building, published}
use site_foundry.Prelude.{
  ◌≡◌, refl, ap, ◌∙◌, ◌⊎◌, inl, inr, Bool, true, false, none, List, ◌++◌, ltb, if◌then◌else◌,
  length,
}
use site_foundry.Text.{txt, show, join}

module _ (services : Services) where
  open services use {Outside, parse_url, connect}

  -- Nothing is recorded yet, and the install is queued.
  abbrev pub IsQueued : List DeployEvent → World Outside → Type 0
  IsQueued events w =
      (w.events ≡ events) × (w.site.install_status ≡ queued) × (w.site.status ≡ building)

  -- Live with every step recorded; or failed; or an exception, which leaves the install queued
  -- and nothing recorded.
  abbrev pub Ending : InstallStep → List DeployEvent → Result (Unit {0}) × World Outside → Type 0
  Ending from events (r, w) =
      ((r ≡ ok tt)
        × (w.site.install_status ≡ live)
        × (w.site.status ≡ published)
        × (trace w.events ≡ trace events ++ expected from server_steps))
      ⊎ ((r ≡ ok tt) × (w.site.install_status ≡ failed))
      ⊎ ((e : Exception) × (r ≡ err e) × IsQueued events w)

  -- A phase before the steps: it passes, or fails the install, or throws.
  abbrev pub Phase : List DeployEvent → Result Bool × World Outside → Type 0
  Phase events (r, w) =
      ((r ≡ ok true) × IsQueued events w)
      ⊎ ((r ≡ ok false) × (w.site.install_status ≡ failed))
      ⊎ ((e : Exception) × (r ≡ err e) × IsQueued events w)

  report_lem :
      (events : List DeployEvent) (result : Result PreflightResult) (w : World Outside)
      → IsQueued events w
      → Phase events (
          continue result
            (λ found.
              if found.ok
              then (emit services (install preflight) succeeded none >> pure true)
              else (fail_step services preflight (
                    show (length found.errors)
                    ++ (txt " validation error(s): "
                        ++ join (txt "; ") (error_lines services found.errors)))
                  >> pure false))
            w)
  unfolding emit fail_step record_event set_install_status update ◌>>=◌
  report_lem events (err e) w q = inr (inr (e, refl, q))
  report_lem events (ok found) w q =
      branch_lem (Phase events) found.ok _ _ w (λ good. inl (refl, q))
        (λ bad. inr (inl (refl, refl)))

  check_preflight_lem :
      (from : InstallStep) (site : Site) (events : List DeployEvent) (w : World Outside)
      → IsQueued events w
      → Phase events (check_preflight services from site w)
  unfolding check_preflight emit update ◌>>=◌
  check_preflight_lem from site events w q =
      branch_lem (Phase events) (ltb 0 (index from)) _ _ w (λ later. inl (refl, q))
        (λ first.
          report_lem events (run_preflight parse_url (input_of services site))
            (emit services (install preflight) start none w).1 q)

  connected_lem :
      (events : List DeployEvent) (r : Result (Unit {0})) (w : World Outside)
      → IsQueued events w
      → Phase events (
          recover
            (λ e.
              fail_step services creating_user
                (txt "SSH connection failed: " ++ services.sanitize_for_log e.message)
              >> pure false)
            (continue r (λ _. pure true) w))
  unfolding fail_step record_event set_install_status emit update ◌>>=◌
  connected_lem events (ok tt) w q = inl (refl, q)
  connected_lem events (err e) w q = inr (inl (refl, refl))

  open_session_lem :
      (site : Site) (events : List DeployEvent) (w : World Outside)
      → IsQueued events w
      → Phase events (open_session services site w)
  unfolding open_session call ◌>>=◌
  open_session_lem site events w q =
      connected_lem events (connect site w.outside).0
        (record { store = w.store; outside = (connect site w.outside).1 }) q

  finished_lem :
      (from : InstallStep) (site : Site) (events : List DeployEvent) (w : World Outside)
      (out : Result Bool × World Outside)
      → w.events ≡ events
      → Loop services from server_steps w out
      → Ending from events
          (continue out.0 (λ finished. if finished then go_live services site else pure tt) out.1)
  unfolding go_live emit update ◌>>=◌
  finished_lem from site events w (r, w') same (inl (all_ok, t)) = rw all_ok (
      inl (
        refl,
        refl,
        refl,
        t ∙ ap (λ (l : List DeployEvent). trace l ++ expected from server_steps) same,
      ))
  finished_lem from site events w (r, w') same (inr (before, step, after, split, stopped, st, t)) =
      rw stopped (inr (inl (refl, st)))

  restored_lem :
      (from : InstallStep) (site : Site) (events : List DeployEvent) (r : Result (Unit {0}))
      (w : World Outside)
      → IsQueued events w
      → Ending from events (
          continue r
            (λ _. run_steps services from site server_steps >>= λ finished.
              if finished then go_live services site else pure tt)
            w)
  unfolding ◌>>=◌
  restored_lem from site events (err e) w q = inr (inr (e, refl, q))
  restored_lem from site events (ok tt) w (same, st, ss) =
      finished_lem from site events w (run_steps services from site server_steps w) same
        (run_steps_lem services from site server_steps w)

  Same-restore :
      (b : Bool) (s : Store)
      → Keeps (Same services s) (if b then restore_last_build services else pure tt)
  Same-restore true s = Same-restore_last_build services s
  Same-restore false s = Keeps-pure tt

  run_on_server_lem :
      (from : InstallStep) (site : Site) (events : List DeployEvent) (w : World Outside)
      → IsQueued events w
      → Ending from events (run_on_server services from site w)
  unfolding run_on_server ◌>>=◌
  run_on_server_lem from site events w (es, st, ss) =
      let first : Action services (Unit {0}) =
        if ltb (index deploying_files) (index from) then restore_last_build services else pure tt in
      let (es', bs', rs', st', ss', id') =
        (Same-restore (ltb (index deploying_files) (index from)) w.store).at w
          (refl, refl, refl, refl, refl, refl) in
      restored_lem from site events (first w).0 (first w).1 (es' ∙ es, st' ∙ st, ss' ∙ ss)

  -- A phase, and what follows it if it passes.
  then_lem :
      (from : InstallStep) (events : List DeployEvent) (out : Result Bool × World Outside)
      (rest : Action services (Unit {0}))
      → Phase events out
      → ((w : World Outside) → IsQueued events w → Ending from events (rest w))
      → Ending from events (continue out.0 (λ passed. if passed then rest else pure tt) out.1)
  unfolding ◌>>=◌
  then_lem from events (r, w) rest (inl (passed, q)) next = rw passed (next w q)
  then_lem from events (r, w) rest (inr (inl (stopped, st))) next =
      rw stopped (inr (inl (refl, st)))
  then_lem from events (r, w) rest (inr (inr (e, thrown', q))) next =
      rw thrown' (inr (inr (e, refl, q)))

  serve : InstallStep → Site → Action services (Unit {0})
  serve from site = do
    connected ← open_session services site
    if connected
        then finally (run_on_server services from site) (close_session services)
        else pure tt

  serve_lem :
      (from : InstallStep) (site : Site) (events : List DeployEvent) (w : World Outside)
      → IsQueued events w
      → Ending from events (serve from site w)
  unfolding serve close_session ◌>>=◌
  serve_lem from site events w q =
      then_lem from events (open_session services site w)
        (finally (run_on_server services from site) (close_session services))
        (open_session_lem site events w q) (λ w1 q1. run_on_server_lem from site events w1 q1)

  -- An install, from any state of the panel and its surroundings and from any step, ends in one of
  -- three ways: it returns with the site live and published, and has recorded a start and a success
  -- for each server step from the given one on, in order, and nothing else; or it returns with the
  -- install failed; or it throws, and then it has recorded nothing and the site stays queued.
  pub execute_lem :
      (from : InstallStep) (w : World Outside) → Ending from w.events (execute services from w)
  unfolding execute set_install_status serve update ◌>>=◌
  execute_lem from w =
      let begun : World Outside =
        on_store
          (λ s.
            edit_site (λ site. record site { install_status = queued; status = building })
              (record s { context = no_context }))
          w in
      then_lem from w.events (check_preflight services from w.site begun) (serve from w.site)
        (check_preflight_lem from w.site w.events begun (refl, refl, refl))
        (λ w1 q1. serve_lem from w.site w.events w1 q1)
