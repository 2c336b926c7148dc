-- ===== src/Installer/Tests.antt =====
-- The installer against a small world, and the theorems at inputs that meet their hypotheses.
use site_foundry.Installer.Rebuild.{RebuiltRow, rebuild_files_lem}
use site_foundry.Installer.Rollback.{Rolled, rollback_lem}
use site_foundry.Installer.Running.{run-running, RunOutcome, run_lem}
use site_foundry.Installer.Execute.{Ending, execute_lem}
use site_foundry.Installer.Rounds.{trace, passed_marks, failed_marks}
use site_foundry.Installer.Entry.{find_build, swap_to, roll_to, rollback, rebuild_files}
use site_foundry.Installer.Pipeline.{
  set_install_status, record_event, emit, fail_step, runner, succeed, abandon, begin_step, attempt,
  run_steps, check_preflight, open_session, close_session, go_live, run_on_server, execute, run,
}
use site_foundry.Installer.Steps.{
  strip_slash, run_command, step_create_user, deploy_artifact, step_deploy_files,
  step_configure_nginx, read_expiry, install_renewal_hook, step_issue_ssl, restore_last_build,
  step_verify_tracking, step_final_verify,
}
use site_foundry.Installer.State.{
  success, preflight, creating_user, deploying_files, configuring_nginx, not_installed, live, Site,
  no_context, ExecResult, Services, World, call, update, output_tail,
}
use site_foundry.AutoRebuild.{sweep, World as Sweeping}
use site_foundry.AutoRebuild.Sweep.{due_ids}
use site_foundry.AutoRebuild.Fleet.{Row, Fleet, fleet_panel, live_sites_of, sweep_fleet-attempts}
use site_foundry.Json.{null, prop}
use site_foundry.Effects.{ok, Act, ◌>>=◌}
use site_foundry.Ssl.{not_issued, draft}
use site_foundry.Prelude.{
  ℕ, suc, ◌≤◌, ◌≡◌, refl, false, none, some, [], ◌∷◌, ◌++◌, ltb, if◌then◌else◌,
}
use site_foundry.Text.{Text, txt, text_eq, show}

installer : Unit {0}
unfolding execute run rollback roll_to swap_to rebuild_files attempt run_steps runner
    check_preflight open_session run_on_server close_session go_live fail_step succeed abandon
    set_install_status record_event emit call update begin_step restore_last_build step_create_user
    step_deploy_files step_configure_nginx step_issue_ssl step_verify_tracking step_final_verify
    deploy_artifact run_command read_expiry install_renewal_hook output_tail text_eq txt ◌>>=◌
installer = tt

-- A server on which every command succeeds until the given number of them has been run.
abbrev exec_at : ℕ → Act ℕ ExecResult
exec_at limit n =
    (ok (record { code = if ltb n limit then 0 else 1; stdout = []; stderr = [] }), suc n)

abbrev world_of : ℕ → Services
world_of limit = record {
  Outside = ℕ;
  parse_url = λ s. none;
  connect = λ site n. (ok tt, n);
  exec = λ command timeout. exec_at limit;
  upload_file = λ a b n. (ok tt, n);
  run_build = λ id site n.
      (ok (record { dist_dir = []; artifact_key = id; duration_ms = 1200; log = [] }), n);
  restore_dist = λ a b n. (ok [], n);
  zip_folder = λ a b n. (ok tt, n);
  verify_dist = λ a site n. (ok [], n);
  fetch = λ url n. (ok (record { status = 200; body = [] }), n);
  new_id = λ n. (show n, n);
  close = λ n. n;
  now = λ n. n;
  parse_date = λ t. none;
  to_iso = λ t. [];
  to_base64 = λ t. t;
  sanitize_for_log = λ t. t;
  skip_ssl = false;
  certbot_email = [];
  panel_url = [];
  internal_secret = [];
}

abbrev shop : Site
shop = record {
  id = txt "s1";
  server_id = txt "v1";
  domain = txt "shop.test";
  extra_domains = [];
  category = txt "lead_page";
  repo_path = [];
  param_schema = null;
  params = null;
  destination_url = [];
  extra_allowed_hosts = [];
  tracking = null;
  site_system_user = none;
  document_root = none;
  install_status = not_installed;
  status = draft;
  ssl_status = not_issued;
  ssl_expires_at = none;
  published_at = none;
  last_verified_at = none;
  last_build_id = none;
}

abbrev before_install : World ℕ
before_install = record {
  store = record {
    site = shop;
    builds = [];
    events = [];
    bus = [];
    running = [];
    context = no_context;
  };
  outside = 0;
}

resumed_live : (execute (world_of 100) creating_user before_install).1.site.install_status ≡ live
unfolding installer strip_slash prop
resumed_live = refl

nginx_fails :
    trace (execute (world_of 2) creating_user before_install).1.events
    ≡ passed_marks creating_user ++ (passed_marks deploying_files ++ failed_marks configuring_nginx)
unfolding installer
nginx_fails = refl

execute_lem_example :
    Ending (world_of 100) creating_user [] (execute (world_of 100) creating_user before_install)
execute_lem_example = execute_lem (world_of 100) creating_user before_install

run-running_example : (run (world_of 2) creating_user before_install).1.running ≡ []
run-running_example = run-running (world_of 2) creating_user before_install

abbrev during_install : World ℕ
during_install = record before_install {
  store = record before_install.store { running = txt "s1" ∷ [] };
}

run_lem_example :
    RunOutcome
      (world_of 2)
      creating_user
      before_install
      (run (world_of 2) creating_user before_install)
run_lem_example = run_lem (world_of 2) creating_user before_install

run_busy_test : (run (world_of 2) preflight during_install).1.outside ≡ 0
unfolding installer
run_busy_test = refl

-- A site with a build that can be rolled back to
abbrev with_build : World ℕ
with_build = record before_install {
  store = record before_install.store {
    builds =
        record { id = txt "b1"; status = success; artifact_path = some (txt "k1"); log = [] } ∷ [];
  };
}

rolled_back : (rollback (world_of 100) (txt "b1") with_build).1.site.last_build_id ≡ some (txt "b1")
unfolding installer strip_slash find_build
rolled_back = refl

rollback_lem_example :
    Rolled (world_of 100) (txt "b1") shop (rollback (world_of 100) (txt "b1") with_build)
rollback_lem_example = rollback_lem (world_of 100) (txt "b1") with_build

rebuild_files_lem_example :
    RebuiltRow (world_of 100) before_install.site (rebuild_files (world_of 100) before_install)
rebuild_files_lem_example = rebuild_files_lem (world_of 100) before_install

abbrev row : Text → Row
row id = record {
  id = id;
  tenant_id = [];
  domain = id;
  store = record before_install.store { site = record shop { install_status = live } };
}

-- Two live sites; an install of the second is running.
abbrev fleet : Fleet ℕ
fleet = record {
  rows = row (1 ∷ []) ∷ row (2 ∷ []) ∷ [];
  running = (2 ∷ []) ∷ [];
  newest_search = some 10;
  outside = 0;
}

abbrev sweeping : Sweeping (Fleet ℕ)
sweeping = record { state = fleet; attempts = [] }

due_test :
    due_ids (fleet_panel (world_of 100) (λ id. 0)) 10 (live_sites_of fleet) fleet ≡ (1 ∷ []) ∷ []
unfolding text_eq
due_test = refl

sweep_fleet-attempts_example :
    ((sweep (fleet_panel (world_of 100) (λ id. 0)) sweeping).1.attempts
      ≡ [] ++ due_ids (fleet_panel (world_of 100) (λ id. 0)) 10 (live_sites_of fleet) fleet)
    × ((sweep (fleet_panel (world_of 100) (λ id. 0)) sweeping).0.considered ≡ 2)
    × ((sweep (fleet_panel (world_of 100) (λ id. 0)) sweeping).0.rebuilt
        ≤ (sweep (fleet_panel (world_of 100) (λ id. 0)) sweeping).0.considered)
sweep_fleet-attempts_example =
    sweep_fleet-attempts (world_of 100) (λ id. 0) 10 sweeping refl (((λ h. cc), tt), (tt, tt))
