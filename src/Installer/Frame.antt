-- ===== src/Installer/Frame.antt =====
-- What a step leaves alone: the events, the bus, the running set, the status of the install and of
-- the site, and the identity of the site.
use site_foundry.Installer.Pipeline.{runner}
use site_foundry.Installer.Steps.{
  run_command, step_create_user, deploy_artifact, take_id, step_deploy_files, step_configure_nginx,
  read_expiry, install_renewal_hook, step_issue_ssl, restore_last_build, step_verify_tracking,
  check_claims, check_pages, step_final_verify,
}
use site_foundry.Installer.State.{
  InstallStep, preflight, creating_user, deploying_files, configuring_nginx, issuing_ssl,
  injecting_tracking, verifying, Site, Services, Store, World, on_store, call, update,
}
use site_foundry.Json.{Json}
use site_foundry.Effects.{Act, guard}
use site_foundry.Effects.Keeps.{Keeps, Keeps-guard, Keeps-bind, keeps_rules}
use site_foundry.Prelude.{ℕ, ◌≡◌, List, [], ◌∷◌}
use site_foundry.Text.{Text}

module _ (services : Services) where
  open services use {Outside}

  -- What an observer of the install sees of the store.
  abbrev pub Same : Store → World Outside → Type 0
  Same s w =
      (w.events ≡ s.events)
      × (w.bus ≡ s.bus)
      × (w.running ≡ s.running)
      × (w.site.install_status ≡ s.site.install_status)
      × (w.site.status ≡ s.site.status)
      × (w.site.id ≡ s.site.id)

  module _ (s : Store) where
    Same-call : {A : Type 0} (m : Act Outside A) → Keeps (Same s) (call m)
    unfolding call
    Same-call m = record { at = λ w h. h }

    Same-update :
        (f : Store → Store)
        → ((w : World Outside) → Same s w → Same s (on_store f w))
        → Keeps (Same s) (update f)
    unfolding update
    Same-update f kf = record { at = kf }

    ruleset frame_rules = (keeps_rules, Same-call, Same-update)

    Same-run_command :
        (command : Text) (timeout : ℕ) (message : Text → Text)
        → Keeps (Same s) (run_command services command timeout message)
    unfolding run_command
    Same-run_command command timeout message = search frame_rules

    Same-create_user : (site : Site) → Keeps (Same s) (step_create_user services site)
    unfolding step_create_user
    Same-create_user site = search (frame_rules, Same-run_command)

    pub Same-deploy_artifact :
        (site : Site) (build_id key : Text)
        → Keeps (Same s) (deploy_artifact services site build_id key)
    unfolding deploy_artifact
    Same-deploy_artifact site build_id key = search (frame_rules, Same-run_command)

    Same-take_id : Keeps (Same s) (take_id services)
    unfolding step_deploy_files
    Same-take_id = record { at = λ w h. h }

    pub Same-deploy_files : (site : Site) → Keeps (Same s) (step_deploy_files services site)
    unfolding step_deploy_files
    Same-deploy_files site = search (frame_rules, Same-take_id, Same-deploy_artifact) depth 14

    Same-configure_nginx : (site : Site) → Keeps (Same s) (step_configure_nginx services site)
    unfolding step_configure_nginx
    Same-configure_nginx site = search (frame_rules, Same-run_command)

    Same-read_expiry : (site : Site) → Keeps (Same s) (read_expiry services site)
    unfolding read_expiry
    Same-read_expiry site = search frame_rules

    Same-renewal_hook : (site : Site) → Keeps (Same s) (install_renewal_hook services site)
    unfolding install_renewal_hook
    Same-renewal_hook site = search frame_rules

    Same-issue_ssl : (site : Site) → Keeps (Same s) (step_issue_ssl services site)
    unfolding step_issue_ssl
    Same-issue_ssl site = search (frame_rules, Same-read_expiry, Same-renewal_hook) depth 12

    pub Same-restore_last_build : Keeps (Same s) (restore_last_build services)
    unfolding restore_last_build
    Same-restore_last_build = search frame_rules depth 10

    Same-verify_tracking : (site : Site) → Keeps (Same s) (step_verify_tracking services site)
    unfolding step_verify_tracking
    Same-verify_tracking site = search (frame_rules, Same-restore_last_build) depth 10

    Same-check_claims :
        (html : Text) (claims : List Json) → Keeps (Same s) (check_claims services html claims)
    unfolding step_final_verify
    Same-check_claims html [] = search frame_rules
    Same-check_claims html (claim ∷ claims) =
        Keeps-bind (guard _ _ _) _ (Keeps-guard _ _ _) (λ _. Same-check_claims html claims)

    Same-check_pages :
        (site : Site) (pages : List Text) → Keeps (Same s) (check_pages services site pages)
    unfolding step_final_verify
    Same-check_pages site [] = search frame_rules
    Same-check_pages site (page ∷ pages) =
        Keeps-bind (call _) _ (Same-call _)
          (λ res. Keeps-bind (guard _ _ _) _ (Keeps-guard _ _ _) (λ _. Same-check_pages site pages))

    Same-final_verify : (site : Site) → Keeps (Same s) (step_final_verify services site)
    unfolding step_final_verify
    Same-final_verify site = search (frame_rules, Same-check_claims, Same-check_pages) depth 10

    -- A step leaves what an observer sees as it was, whether it succeeds or throws.
    pub Same-runner :
        (site : Site) (step : InstallStep) → Keeps (Same s) (runner services site step)
    unfolding runner
    Same-runner site preflight = search frame_rules
    Same-runner site creating_user = Same-create_user site
    Same-runner site deploying_files = Same-deploy_files site
    Same-runner site configuring_nginx = Same-configure_nginx site
    Same-runner site issuing_ssl = Same-issue_ssl site
    Same-runner site injecting_tracking = Same-verify_tracking site
    Same-runner site verifying = Same-final_verify site
