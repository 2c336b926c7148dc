-- ===== src/AutoRebuild/Fleet.antt =====
-- The sweep over the installer's own `rebuildFiles`: the rows of all sites, each with what the
-- installer keeps of it, and what the sites share. A build's `createdAt` is a function of its id.
use site_foundry.AutoRebuild.{LiveSite, Panel, World as Sweeping, sweep}
use site_foundry.AutoRebuild.Sweep.{Apart, IsDistinct, due_ids, sweep-attempts}
use site_foundry.Installer.State.{World, InstallStatus, live, Build, Services, Store}
use site_foundry.Installer.Entry.{rebuild_files}
use site_foundry.Installer.Running.{rebuild_files-running}
use site_foundry.Installer.Steps.{last_success}
use site_foundry.Effects.{not_found, plain, Result, ok, thrown, Act, bind}
use site_foundry.Prelude.{
  ℕ, ◌≤◌, ◌++◌, length, ap, ◌≡◌, refl, ◌≢◌, inl, inr, Bool, true, false, ◌&&◌, Option, none, some,
  List, [], ◌∷◌, map, arith, Option-cases, keep, any, find, edit_first,
}
use site_foundry.Text.{Text, txt, text_eq, text_eq_iff}

-- A row of a site, with its builds and events
pub record Row : Type 0 where
  pub id : Text
  pub tenant_id : Text
  pub domain : Text
  pub store : Store

pub record Fleet (O : Type 0) : Type 0 where
  pub rows : List Row
  pub running : List Text
  pub newest_search : Option ℕ
  pub outside : O

abbrev pub has_id : Text → Row → Bool
has_id id r = text_eq r.id id

abbrev pub is_seen : Text → Text → Row → Bool
is_seen tenant id r = text_eq r.tenant_id tenant && text_eq r.id id

abbrev is_live : InstallStatus → Bool
is_live live = true
is_live _ = false

abbrev live_site : Row → LiveSite
live_site r = record { id = r.id; tenant_id = r.tenant_id; domain = r.domain }

-- `findMany` of the live sites
abbrev pub live_sites_of : {O : Type 0} → Fleet O → List LiveSite
live_sites_of f = map live_site (keep (λ (r : Row). is_live r.store.site.install_status) f.rows)

module _ (services : Services) (created_at : Text → ℕ) where
  open services use {Outside}

  abbrev built_at : Option Build → Option ℕ
  built_at none = none
  built_at (some b) = some (created_at b.id)

  abbrev last_built : Option Row → Option ℕ
  last_built none = none
  last_built (some r) = built_at (last_success r.store.builds)

  -- The world of one site
  abbrev pub world_of_row : Row → Fleet Outside → World Outside
  world_of_row r f = record { store = record r.store { running = f.running }; outside = f.outside }

  -- What a rebuild of a site leaves of the fleet
  abbrev written :
      Text → Text → Fleet Outside → Result Text × World Outside → Result (Unit {0}) × Fleet Outside
  written tenant id f (r, w) = (
    bind r (λ detail. ok tt),
    record f {
      rows = edit_first (is_seen tenant id) (λ row. record row { store = w.store }) f.rows;
      running = w.running;
      outside = w.outside;
    },
  )

  -- no row: the site may be running all the same
  abbrev refused : Bool → Fleet Outside → Result (Unit {0}) × Fleet Outside
  refused true f = (thrown plain (txt "An install or rebuild is already running for this site"), f)
  refused false f = (thrown not_found (txt "Site not found"), f)

  -- `rebuildFiles` of a site that the tenant may not see, or sees; the set of running sites is read
  -- before the row.
  unfoldable pub rebuild_site : Text → Text → Act (Fleet Outside) (Unit {0})
  rebuild_site tenant id f = elim (find (is_seen tenant id) f.rows) [
    | none ↦ refused (any (text_eq id) f.running) f
    | some r ↦ written tenant id f (rebuild_files services (world_of_row r f))
  ]

  -- What the sweep asks of the panel
  abbrev pub fleet_panel : Panel
  fleet_panel = record {
    State = Fleet Outside;
    newest_search = λ f. f.newest_search;
    live_sites =
        λ f. map live_site (keep (λ (r : Row). is_live r.store.site.install_status) f.rows);
    is_running = λ id f. any (text_eq id) f.running;
    last_success = λ id f. last_built (find (has_id id) f.rows);
    rebuild_files = rebuild_site;
  }

  find_other :
      (tenant id other : Text) (s : Store) (rows : List Row)
      → other ≢ id
      → find (has_id other) (edit_first (is_seen tenant id) (λ r. record r { store = s }) rows)
        ≡ find (has_id other) rows
  find_other tenant id other s [] h = refl
  find_other tenant id other s (r ∷ rows) h =
      grind
        (arith, find_other tenant id other s rows h, text_eq_iff r.id id, text_eq_iff r.id other)

  built_same :
      (tenant id other : Text) (f : Fleet Outside) (p : Result Text × World Outside)
      → other ≢ id
      → p.1.running ≡ f.running
      → (any (text_eq other) (written tenant id f p).1.running ≡ any (text_eq other) f.running)
        × (last_built (find (has_id other) (written tenant id f p).1.rows)
            ≡ last_built (find (has_id other) f.rows))
  built_same tenant id other f (r, w) h same =
      (ap (any (text_eq other)) same, ap last_built (find_other tenant id other w.store f.rows h))

  not_seen : (busy : Bool) (f : Fleet Outside) → (refused busy f).1 ≡ f
  not_seen true f = refl
  not_seen false f = refl

  -- A rebuild of one site, whether it returns or throws, leaves whether any other site is running
  -- and when it was last built.
  rebuild_site_lem :
      (tenant id other : Text) (f : Fleet Outside)
      → other ≢ id
      → (any (text_eq other) (rebuild_site tenant id f).1.running ≡ any (text_eq other) f.running)
        × (last_built (find (has_id other) (rebuild_site tenant id f).1.rows)
            ≡ last_built (find (has_id other) f.rows))
  unfolding rebuild_site
  rebuild_site_lem tenant id other f h = elim (Option-cases (find (is_seen tenant id) f.rows)) [
    | inl missing ↦
        let same = not_seen (any (text_eq id) f.running) f in
        rw (rebuild_site, missing)
          (
            ap (λ (g : Fleet Outside). any (text_eq other) g.running) same,
            ap (λ (g : Fleet Outside). last_built (find (has_id other) g.rows)) same,
          )
    | inr (r, found) ↦
        rw (rebuild_site, found)
          (built_same tenant id other f (rebuild_files services (world_of_row r f)) h
            (rebuild_files-running services (world_of_row r f)))
  ]

  fleet_panel-Apart : Apart fleet_panel
  fleet_panel-Apart tenant id other f h = rebuild_site_lem tenant id other f h

  -- The nightly sweep over the panel's sites, with the installer's own `rebuildFiles`, once a
  -- search is stored and if the live sites have different ids. It returns; it starts a rebuild of
  -- exactly the sites that are live, not running and without a successful build since the newest
  -- search, as things stand when it begins, each once and in their order, whether or not the
  -- rebuilds before succeed; and it reports no more rebuilt than considered.
  pub sweep_fleet-attempts :
      (newest : ℕ) (w : Sweeping (Fleet Outside))
      → w.state.newest_search ≡ some newest
      → IsDistinct (live_sites_of w.state)
      → ((sweep fleet_panel w).1.attempts
          ≡ w.attempts ++ due_ids fleet_panel newest (live_sites_of w.state) w.state)
        × ((sweep fleet_panel w).0.considered ≡ length (live_sites_of w.state))
        × ((sweep fleet_panel w).0.rebuilt ≤ (sweep fleet_panel w).0.considered)
  sweep_fleet-attempts newest w h distinct =
      sweep-attempts fleet_panel fleet_panel-Apart newest w h distinct
