-- ===== src/Installer/Entry.antt =====
-- The other entry points of InstallerService: `rollback`, `rebuildFiles` and `renewSsl`, of
-- apps/api/src/installer/installer.service.ts.
use site_foundry.Installer.Pipeline.{record_event, emit, close_session, remove_running}
use site_foundry.Installer.Steps.{Action, deploy_artifact, step_deploy_files, read_expiry}
use site_foundry.Installer.State.{
  deploying_files, Site, success, Build, install, rollback_event, renew_ssl_event, start, succeeded,
  fail, done, no_context, Services, call, update, edit_site, output_tail,
}
use site_foundry.Installer.Commands.{renew_command}
use site_foundry.Effects.{
  not_found, plain, err, pure, lift, throw, gets, require, catch, finally, ◌>>=◌, ◌>>◌,
}
use site_foundry.Ssl.{active, renewal_failed}
use site_foundry.Prelude.{
  ℕ, Option, none, some, List, [], ◌∷◌, ◌++◌, ◌==◌, if◌then◌else◌, is_some, any,
}
use site_foundry.Text.{Text, txt, text_eq, is_empty}

module _ (services : Services) where
  open services use {Outside, connect, now, sanitize_for_log, to_iso, exec}

  unfoldable pub find_build : Text → List Build → Option Build
  find_build id [] = none
  find_build id (b ∷ bs) =
      let rest = find_build id bs in
      if text_eq b.id id then (elim b.status [ success ↦ some b | _ ↦ rest ]) else rest

  -- the `try` block of `rollback`, with its `catch` and `finally`
  unfoldable pub swap_to : Site → Text → Text → Action services (Unit {0})
  swap_to site build_id key =
      finally
        (catch
          (do
            deploy_artifact services site build_id key
            update (edit_site (λ s. record s { last_build_id = some build_id }))
            record_event services rollback_event succeeded (txt "to build " ++ build_id)
            emit services rollback_event done none)
          (λ e. do
            record_event services rollback_event fail e.message
            emit services rollback_event fail (some (sanitize_for_log e.message))
            lift (err e)))
        (close_session services)

  -- `rollback`, once the artifact of the build is found
  unfoldable pub roll_to : Site → Text → Text → Action services (Unit {0})
  roll_to site build_id key = do
    emit services rollback_event start none
    call (connect site)
    swap_to site build_id key

  -- `rollback`
  unfoldable pub rollback : Text → Action services (Unit {0})
  unfolding find_build
  rollback build_id = do
    site ← gets (λ w. w.site)
    found ← gets (λ w. find_build build_id w.builds)
    build ← require found not_found (txt "Build not found or has no artifact")
    key ← require build.artifact_path not_found (txt "Build not found or has no artifact")
    roll_to site build_id key

  -- the writes of `rebuildFiles` after the step
  unfoldable pub write_rebuilt : Text → Action services Text
  write_rebuilt detail = do
    t ← gets (λ w. now w.outside)
    update (λ s.
        edit_site
          (λ site. record site {
            last_verified_at = some t;
            last_build_id =
                if is_some s.context.build_id then s.context.build_id else site.last_build_id;
          })
          s)
    record_event services (install deploying_files) succeeded (txt "auto-rebuild: " ++ detail)
    pure detail

  -- the inner `try` block of `rebuildFiles`
  unfoldable pub rebuild_session : Site → Action services Text
  rebuild_session site = do
    update (λ s. record s { context = no_context })
    detail ← step_deploy_files services site
    write_rebuilt detail

  -- the outer `try` block of `rebuildFiles`
  unfoldable pub rebuild_on : Site → Action services Text
  rebuild_on site = do call (connect site); finally (rebuild_session site) (close_session services)

  -- `rebuildFiles`
  unfoldable pub rebuild_files : Action services Text
  rebuild_files = do
    site ← gets (λ w. w.site)
    busy ← gets (λ w. any (text_eq w.site.id) w.running)
    if busy then throw plain (txt "An install or rebuild is already running for this site") else (do
      update (λ s. record s { running = site.id ∷ s.running })
      finally (rebuild_on site) (remove_running services site.id))

  abbrev renewed_text : Option ℕ → Text
  renewed_text none = txt "renewed"
  renewed_text (some t) = txt "valid until " ++ to_iso t

  -- `renewSsl`
  unfoldable pub renew_ssl : Action services (Option ℕ)
  renew_ssl = do
    site ← gets (λ w. w.site)
    call (connect site)
    finally
        (do
          result ← call (exec (renew_command site.domain) 300000)
          if result.code == 0 then pure tt else do
            update (edit_site (λ s. record s { ssl_status = renewal_failed }))
            throw plain (
                txt "certbot renew failed: "
                ++ output_tail sanitize_for_log
                    (if is_empty result.stderr then result.stdout else result.stderr) 500)
          expires ← read_expiry services site
          update (edit_site (λ s. record s { ssl_status = active; ssl_expires_at = expires }))
          record_event services renew_ssl_event succeeded (renewed_text expires)
          pure expires)
        (close_session services)
