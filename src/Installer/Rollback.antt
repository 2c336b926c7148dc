-- ===== src/Installer/Rollback.antt =====
-- `rollback` and `rebuildFiles`: what they change, on success and on failure.
use site_foundry.Installer.Entry.{find_build, swap_to, roll_to, rollback}
use site_foundry.Installer.Pipeline.{record_event, emit, close_session}
use site_foundry.Installer.Steps.{Action, run_command, deploy_artifact}
use site_foundry.Installer.State.{
  Site, Build, rollback_event, start, succeeded, fail, done, Services, World, call, update,
  edit_site,
}
use site_foundry.Effects.{
  not_found, Exception, Result, ok, err, Act, lift, require, recover, continue, ◌>>=◌, ◌>>◌,
}
use site_foundry.Effects.Keeps.{Keeps, keeps_rules}
use site_foundry.Prelude.{ℕ, ◌≡◌, refl, ap, ◌⊎◌, inl, inr, Option, none, some, ◌++◌}
use site_foundry.Text.{Text, txt}

module _ (services : Services) where
  open services use {Outside, connect}

  abbrev IsSite : Site → World Outside → Type 0
  IsSite site w = w.site ≡ site

  module _ (site : Site) where
    IsSite-call : {A : Type 0} (m : Act Outside A) → Keeps (IsSite site) (call m)
    unfolding call
    IsSite-call m = record { at = λ w h. h }

    ruleset site_rules = (keeps_rules, IsSite-call)

    IsSite-run_command :
        (command : Text) (timeout : ℕ) (message : Text → Text)
        → Keeps (IsSite site) (run_command services command timeout message)
    unfolding run_command
    IsSite-run_command command timeout message = search site_rules

    IsSite-deploy_artifact :
        (s : Site) (build_id key : Text)
        → Keeps (IsSite site) (deploy_artifact services s build_id key)
    unfolding deploy_artifact
    IsSite-deploy_artifact s build_id key = search (site_rules, IsSite-run_command)

  -- A rollback that succeeds changes of the site's row the last build alone; one that throws
  -- leaves the row as it was.
  abbrev pub Rolled : Text → Site → Result (Unit {0}) × World Outside → Type 0
  Rolled build_id site (r, w) =
      ((r ≡ ok tt) × (w.site ≡ record site { last_build_id = some build_id }))
      ⊎ ((e : Exception) × (r ≡ err e) × (w.site ≡ site))

  deployed_lem :
      (build_id : Text) (site : Site) (r : Result (Unit {0})) (w : World Outside)
      → IsSite site w
      → Rolled build_id site (
          recover
            (λ e.
              record_event services rollback_event fail e.message
              >> emit services rollback_event fail (some (services.sanitize_for_log e.message))
              >> lift (err e))
            (continue r
              (λ _.
                update (edit_site (λ s. record s { last_build_id = some build_id }))
                >> record_event services rollback_event succeeded (txt "to build " ++ build_id)
                >> emit services rollback_event done none)
              w))
  unfolding record_event emit update ◌>>=◌
  deployed_lem build_id site (ok tt) w h =
      inl (refl, ap (λ (s : Site). record s { last_build_id = some build_id }) h)
  deployed_lem build_id site (err e) w h = inr (e, refl, h)

  key_lem :
      (build_id : Text) (site : Site) (found : Option Build) (w : World Outside)
      (body : Text → Action services (Unit {0}))
      → IsSite site w
      → ((key : Text) → Rolled build_id site (body key w))
      → Rolled build_id site (
          (require found not_found (txt "Build not found or has no artifact") >>= λ build.
          require build.artifact_path not_found (txt "Build not found or has no artifact") >>= body)
            w)
  unfolding ◌>>=◌
  key_lem build_id site none w body h k = inr (_, refl, h)
  key_lem build_id site (some b) w body h k = go b.artifact_path
    where
      go :
          (path : Option Text)
          → Rolled build_id site (
              continue
                (require {W = World Outside} path not_found
                  (txt "Build not found or has no artifact")
                  w).0
                body
                (require {W = World Outside} path not_found
                  (txt "Build not found or has no artifact")
                  w).1)
      go none = inr (_, refl, h)
      go (some key) = k key

  connected_lem :
      (build_id : Text) (site : Site) (r : Result (Unit {0})) (w : World Outside)
      (body : Action services (Unit {0}))
      → IsSite site w
      → ((w : World Outside) → IsSite site w → Rolled build_id site (body w))
      → Rolled build_id site (continue r (λ _. body) w)
  connected_lem build_id site (ok tt) w body h k = k w h
  connected_lem build_id site (err e) w body h k = inr (e, refl, h)

  swap_to_lem :
      (build_id key : Text) (site : Site) (w : World Outside)
      → IsSite site w
      → Rolled build_id site (swap_to services site build_id key w)
  unfolding swap_to close_session ◌>>=◌ record_event emit update
  swap_to_lem build_id key site w h =
      let swapped = deploy_artifact services site build_id key w in
      deployed_lem build_id site swapped.0 swapped.1
        ((IsSite-deploy_artifact site site build_id key).at w h)

  roll_to_lem :
      (build_id key : Text) (site : Site) (w : World Outside)
      → IsSite site w
      → Rolled build_id site (roll_to services site build_id key w)
  unfolding roll_to emit update call ◌>>=◌
  roll_to_lem build_id key site w h =
      let begun = (emit services rollback_event start none w).1 in
      let opened : World Outside = record {
        store = begun.store;
        outside = (connect site w.outside).1;
      } in
      connected_lem build_id site (connect site w.outside).0 opened
        (swap_to services site build_id key) h (swap_to_lem build_id key site)

  -- A rollback either returns, and has changed nothing of the site's row but the last build, which
  -- is now the given one; or it throws, and the row is as it was.
  pub rollback_lem :
      (build_id : Text) (w : World Outside) → Rolled build_id w.site (rollback services build_id w)
  unfolding rollback ◌>>=◌
  rollback_lem build_id w =
      key_lem build_id w.site (find_build services build_id w.builds) w
        (roll_to services w.site build_id) refl (λ key. roll_to_lem build_id key w.site w refl)
