-- ===== src/AutoRebuild/Tests.antt =====
-- A sweep over three sites, of which the first fails to rebuild and the second is running.
use site_foundry.AutoRebuild.{LiveSite, Panel, World, is_due, rebuild_one, visit, visit_all, sweep}
use site_foundry.Effects.{plain, ok, thrown}
use site_foundry.Prelude.{ℕ, suc, ◌≡◌, refl, none, some, List, [], ◌∷◌, if◌then◌else◌}
use site_foundry.Text.{Text, text_eq}

abbrev live : Text → LiveSite
live id = record { id = id; tenant_id = []; domain = id }

abbrev sites : List LiveSite
sites = live (1 ∷ []) ∷ live (2 ∷ []) ∷ live (3 ∷ []) ∷ []

abbrev panel : Panel
panel = record {
  State = ℕ;
  newest_search = λ s. some 10;
  live_sites = λ s. sites;
  is_running = λ id s. text_eq id (2 ∷ []);
  last_success = λ id s. if text_eq id (3 ∷ []) then some 4 else none;
  rebuild_files =
      λ tenant id s. if text_eq id (1 ∷ []) then (thrown plain [], suc s) else (ok tt, suc s);
}

abbrev world : World ℕ
world = record { state = 0; attempts = [] }

sweep_test :
    ((sweep panel world).1.attempts ≡ (1 ∷ []) ∷ (3 ∷ []) ∷ [])
    × ((sweep panel world).0.rebuilt ≡ 1)
unfolding sweep visit_all visit is_due rebuild_one text_eq
sweep_test = (refl, refl)
