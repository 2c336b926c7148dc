-- ===== src/Installer/State.antt =====
-- The state that InstallerService of apps/api/src/installer/installer.service.ts works on: the row
-- of the site, its builds and deploy events, the progress bus, the set of running sites, the local
-- variables of an install (`InstallContext`), and all that lies outside the panel's database.
-- The database's own failures, and other writers between two awaits, are not modelled.
use site_foundry.Effects.{Result, ok, Act}
use site_foundry.Json.{Json}
use site_foundry.Web.{UrlParser}
use site_foundry.Ssl.{SslStatus, SiteStatus}
use site_foundry.Prelude.{ℕ, Bool, Option, none, List, ltb, if◌then◌else◌, length}
use site_foundry.Text.{Text, slice_last}

-- `INSTALL_STEPS`
pub data InstallStep : Type 0 where
  preflight creating_user deploying_files configuring_nginx issuing_ssl : InstallStep
  injecting_tracking verifying : InstallStep

-- `INSTALL_STEPS.indexOf(step)`
abbrev pub index : InstallStep → ℕ
index preflight = 0
index creating_user = 1
index deploying_files = 2
index configuring_nginx = 3
index issuing_ssl = 4
index injecting_tracking = 5
index verifying = 6

-- `installStatus`; `not_installed` is the source's 'draft'.
pub data InstallStatus : Type 0 where
  not_installed queued failed live : InstallStatus
  at_step : InstallStep → InstallStatus

pub record Site : Type 0 where
  pub id : Text
  pub server_id : Text
  pub domain : Text
  pub extra_domains : List Text
  pub category : Text
  pub repo_path : Text
  pub param_schema : Json
  pub params : Json
  pub destination_url : Text
  pub extra_allowed_hosts : List Text
  pub tracking : Json
  pub site_system_user : Option Text
  pub document_root : Option Text
  pub install_status : InstallStatus
  pub status : SiteStatus
  pub ssl_status : SslStatus
  pub ssl_expires_at : Option ℕ
  pub published_at : Option ℕ
  pub last_verified_at : Option ℕ
  pub last_build_id : Option Text

pub data BuildStatus : Type 0 where
  build_running success build_failed : BuildStatus

pub record Build : Type 0 where
  pub id : Text
  pub status : BuildStatus
  pub artifact_path : Option Text
  pub log : Text

-- The names under which events are recorded.
pub data EventStep : Type 0 where
  install : InstallStep → EventStep
  rollback_event renew_ssl_event live_event queued_event : EventStep

pub data EventStatus : Type 0 where
  start succeeded fail done skipped : EventStatus

pub record DeployEvent : Type 0 where
  pub step : EventStep
  pub status : EventStatus
  pub output_tail : Option Text

pub record InstallEvent : Type 0 where
  pub step : EventStep
  pub status : EventStatus
  pub detail : Option Text

-- The mutable fields of `InstallContext`
pub record Context : Type 0 where
  pub dist_dir : Option Text
  pub build_id : Option Text
  pub artifact_key : Option Text

abbrev pub no_context : Context
no_context = record { dist_dir = none; build_id = none; artifact_key = none }

pub record ExecResult : Type 0 where
  pub code : ℕ
  pub stdout : Text
  pub stderr : Text

pub record BuildOutput : Type 0 where
  pub dist_dir : Text
  pub artifact_key : Text
  pub duration_ms : ℕ
  pub log : Text

pub record Response : Type 0 where
  pub status : ℕ
  pub body : Text

-- The services that the installer calls, and the world that they act on: the vault and the SSH
-- session, the build service, `fetch`, the clock, the database's new ids, and the settings.
pub record Services : Type 1 where
  pub Outside : Type 0
  pub parse_url : UrlParser
  pub connect : Site → Act Outside (Unit {0})
  pub exec : Text → ℕ → Act Outside ExecResult
  pub upload_file : Text → Text → Act Outside (Unit {0})
  pub run_build : Text → Site → Act Outside BuildOutput
  pub restore_dist : Text → Text → Act Outside Text
  pub zip_folder : Text → Text → Act Outside (Unit {0})
  pub verify_dist : Text → Site → Act Outside (List Text)
  pub fetch : Text → Act Outside Response
  pub new_id : Outside → Text × Outside
  pub close : Outside → Outside
  pub now : Outside → ℕ
  pub parse_date : Text → Option ℕ
  pub to_iso : ℕ → Text
  pub to_base64 : Text → Text
  pub sanitize_for_log : Text → Text
  pub skip_ssl : Bool
  pub certbot_email : Text
  pub panel_url : Text
  pub internal_secret : Text

-- What the next definitions read and write besides the outside world.
pub record Store : Type 0 where
  pub site : Site
  pub builds : List Build
  pub events : List DeployEvent
  pub bus : List InstallEvent
  pub running : List Text
  pub context : Context

pub record World (O : Type 0) : Type 0 where
  pub store : Store
  pub open store use *
  pub outside : O

module _ {O : Type 0} where
  -- Writes to the store.
  abbrev pub on_store : (Store → Store) → World O → World O
  on_store f w = record { store = f w.store; outside = w.outside }

  -- Calls to the outside.
  abbrev carry : {A : Type 0} → Store → Result A × O → Result A × World O
  carry s (r, o) = (r, record { store = s; outside = o })

  unfoldable pub call : {A : Type 0} → Act O A → Act (World O) A
  call m w = carry w.store (m w.outside)

  unfoldable pub update : (Store → Store) → Act (World O) (Unit {0})
  update f w = (ok tt, on_store f w)

abbrev pub edit_site : (Site → Site) → Store → Store
edit_site f s = record s { site = f s.site }

-- `output.slice(-max)` of the sanitised text
unfoldable pub output_tail : (Text → Text) → Text → ℕ → Text
unfolding slice_last
output_tail sanitize output max =
    let clean = sanitize output in if ltb max (length clean) then slice_last max clean else clean
