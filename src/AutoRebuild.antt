-- ===== src/AutoRebuild.antt =====
-- The nightly rebuild, apps/api/src/installer/auto-rebuild.service.ts, over what it asks of the
-- database and of the installer. The state is the caller's; `attempts` are the sites whose rebuild
-- was started.
pub mod Sweep
pub mod Fleet
mod Tests
use site_foundry.Effects.{Result, ok, err, Act}
use site_foundry.Prelude.{
  ℕ, suc, Bool, true, ◌&&◌, ◌||◌, not, Option, none, some, List, [], ◌∷◌, ◌++◌, ltb, if◌then◌else◌,
  length,
}
use site_foundry.Text.{Text}

pub record LiveSite : Type 0 where
  pub id : Text
  pub tenant_id : Text
  pub domain : Text

-- The reads of the sweep, and `rebuildFiles` of the installer
pub record Panel : Type 1 where
  pub State : Type 0
  pub newest_search : State → Option ℕ
  pub live_sites : State → List LiveSite
  pub is_running : Text → State → Bool
  pub last_success : Text → State → Option ℕ
  pub rebuild_files : Text → Text → Act State (Unit {0})

pub record World (S : Type 0) : Type 0 where
  pub state : S
  pub attempts : List Text

pub record Report : Type 0 where
  pub considered : ℕ
  pub rebuilt : ℕ

-- `!lastBuild || newest.fetchedAt > lastBuild.createdAt`
abbrev pub is_stale : ℕ → Option ℕ → Bool
is_stale newest none = true
is_stale newest (some built) = ltb built newest

module _ (panel : Panel) where
  open panel use {State, newest_search, live_sites, is_running, last_success, rebuild_files}

  -- A site that the loop does not skip
  unfoldable pub is_due : ℕ → LiveSite → State → Bool
  is_due newest site s = not (is_running site.id s) && is_stale newest (last_success site.id s)

  abbrev settle : List Text → ℕ → Result (Unit {0}) × State → ℕ × World State
  settle attempts rebuilt (ok u, s) = (suc rebuilt, record { state = s; attempts = attempts })
  settle attempts rebuilt (err e, s) = (rebuilt, record { state = s; attempts = attempts })

  -- the `try` block of the loop, with its `catch`
  unfoldable pub rebuild_one : LiveSite → ℕ → World State → ℕ × World State
  rebuild_one site rebuilt w =
      settle (w.attempts ++ site.id ∷ []) rebuilt (rebuild_files site.tenant_id site.id w.state)

  -- the body of the loop
  unfoldable pub visit : ℕ → LiveSite → ℕ → World State → ℕ × World State
  visit newest site rebuilt w =
      if is_due newest site w.state then rebuild_one site rebuilt w else (rebuilt, w)

  unfoldable pub visit_all : ℕ → List LiveSite → ℕ → World State → ℕ × World State
  visit_all newest [] rebuilt w = (rebuilt, w)
  visit_all newest (site ∷ sites) rebuilt w =
      let (rebuilt', w') = visit newest site rebuilt w in visit_all newest sites rebuilt' w'

  abbrev reported : ℕ → ℕ × World State → Report × World State
  reported considered (rebuilt, w) = (record { considered = considered; rebuilt = rebuilt }, w)

  -- `sweep`
  unfoldable pub sweep : World State → Report × World State
  sweep w = elim (newest_search w.state) [
    | none ↦ (record { considered = 0; rebuilt = 0 }, w)
    | some newest ↦
        reported (length (live_sites w.state)) (visit_all newest (live_sites w.state) 0 w)
  ]

  -- `nightly`, in a process that is a worker or not, and with the sweep enabled or not
  unfoldable pub nightly : Bool → Bool → World State → World State
  nightly is_worker enabled w = if is_worker || not enabled then w else (sweep w).1
