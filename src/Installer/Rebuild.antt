-- ===== src/Installer/Rebuild.antt =====
-- `rebuildFiles`, which the nightly sweep and the client's editor call on live sites: the row of the
-- site after it.
use site_foundry.Installer.State.{Site, no_context, Services, Store, World, on_store, call, update}
use site_foundry.Installer.Entry.{write_rebuilt, rebuild_session, rebuild_on, rebuild_files}
use site_foundry.Installer.Pipeline.{record_event, close_session, remove_running}
use site_foundry.Installer.Steps.{Action, run_command, deploy_artifact, take_id, step_deploy_files}
use site_foundry.Effects.{Result, ok, err, Act, continue, ◌>>=◌}
use site_foundry.Effects.Keeps.{Keeps, keeps_rules}
use site_foundry.Prelude.{
  ℕ, ◌≡◌, refl, ap, ◌∙◌, inl, inr, Option, some, ◌∷◌, if◌then◌else◌, Bool-cases, is_some, any,
}
use site_foundry.Text.{Text, text_eq}

module _ (services : Services) where
  open services use {Outside}

  abbrev HasSite : Site → World Outside → Type 0
  HasSite site w = w.site ≡ site

  module _ (site : Site) where
    HasSite-call : {A : Type 0} (m : Act Outside A) → Keeps (HasSite site) (call m)
    unfolding call
    HasSite-call m = record { at = λ w h. h }

    HasSite-update :
        (f : Store → Store)
        → ((w : World Outside) → HasSite site w → HasSite site (on_store f w))
        → Keeps (HasSite site) (update f)
    unfolding update
    HasSite-update f kf = record { at = kf }

    ruleset site_rules = (keeps_rules, HasSite-call, HasSite-update)

    HasSite-run_command :
        (command : Text) (timeout : ℕ) (message : Text → Text)
        → Keeps (HasSite site) (run_command services command timeout message)
    unfolding run_command
    HasSite-run_command command timeout message = search site_rules

    HasSite-deploy_artifact :
        (s : Site) (build_id key : Text)
        → Keeps (HasSite site) (deploy_artifact services s build_id key)
    unfolding deploy_artifact
    HasSite-deploy_artifact s build_id key = search (site_rules, HasSite-run_command)

    HasSite-take_id : Keeps (HasSite site) (take_id services)
    unfolding step_deploy_files
    HasSite-take_id = record { at = λ w h. h }

    HasSite-deploy_files : (s : Site) → Keeps (HasSite site) (step_deploy_files services s)
    unfolding step_deploy_files
    HasSite-deploy_files s = search (site_rules, HasSite-take_id, HasSite-deploy_artifact) depth 14

    -- How a rebuild ends: it throws and the row is as it was, or it returns and of the row only the
    -- time of the last check and the last build may differ.
    abbrev pub RebuiltRow : Result Text × World Outside → Type 0
    RebuiltRow (err e, w) = w.site ≡ site
    RebuiltRow (ok detail, w) =
        (t : ℕ) × (build : Option Text) × (w.site
          ≡ record site { last_verified_at = some t; last_build_id = build })

    continue_lem :
        {A : Type 0} (p : Result A × World Outside) (f : A → Action services Text)
        → HasSite site p.1
        → ((a : A) (w : World Outside) → HasSite site w → RebuiltRow (f a w))
        → RebuiltRow (continue p.0 f p.1)
    continue_lem (ok a, w) f h k = k a w h
    continue_lem (err e, w) f h k = h

    -- A `finally` that leaves the row
    finally_lem :
        (p : Result Text × World Outside) (f : World Outside → World Outside)
        → ((w : World Outside) → (f w).site ≡ w.site)
        → RebuiltRow p
        → RebuiltRow (p.0, f p.1)
    finally_lem (ok detail, w) f same (t, build, h) = (t, build, same w ∙ h)
    finally_lem (err e, w) f same h = same w ∙ h

    write_rebuilt_lem :
        (detail : Text) (w : World Outside)
        → HasSite site w
        → RebuiltRow (write_rebuilt services detail w)
    unfolding write_rebuilt record_event update ◌>>=◌
    write_rebuilt_lem detail w h = (
      _,
      (if is_some w.context.build_id then w.context.build_id else w.site.last_build_id),
      ap
          (λ (s : Site). record s {
            last_verified_at = some (services.now w.outside);
            last_build_id =
                if is_some w.context.build_id then w.context.build_id else w.site.last_build_id;
          })
          h,
    )

    rebuild_session_lem :
        (s : Site) (w : World Outside) → HasSite site w → RebuiltRow (rebuild_session services s w)
    unfolding rebuild_session update ◌>>=◌
    rebuild_session_lem s w h =
        let w' = on_store (λ (x : Store). record x { context = no_context }) w in
        continue_lem (step_deploy_files services s w') (write_rebuilt services)
          ((HasSite-deploy_files s).at w' h) write_rebuilt_lem

    rebuild_on_lem :
        (s : Site) (w : World Outside) → HasSite site w → RebuiltRow (rebuild_on services s w)
    unfolding rebuild_on close_session ◌>>=◌
    rebuild_on_lem s w h =
        continue_lem (call (services.connect s) w) _ ((HasSite-call (services.connect s)).at w h)
          (λ u w' h'.
            finally_lem (rebuild_session services s w') (close_session services) (λ x. refl)
              (rebuild_session_lem s w' h'))

  -- A files-only rebuild that is refused or fails, at any point, leaves the whole row of the site as
  -- it was. One that returns has set the time of the last check and may have set the last build; all
  -- else of the row, such as the status of the install and of the site, the certificate, the
  -- document root and the parameters, is after it what it was before.
  pub rebuild_files_lem : (w : World Outside) → RebuiltRow w.site (rebuild_files services w)
  unfolding rebuild_files remove_running update ◌>>=◌
  rebuild_files_lem w = elim (Bool-cases (any (text_eq w.site.id) w.running)) [
    | inl busy ↦ rw busy refl
    | inr free ↦
        let w' = on_store (λ (s : Store). record s { running = w.site.id ∷ s.running }) w in
        rw free (
          finally_lem w.site (rebuild_on services w.site w') (remove_running services w.site.id)
            (λ x. refl) (rebuild_on_lem w.site w.site w' refl))
  ]
