-- ===== src/Installer/Steps.antt =====
-- The steps of the install, `stepCreateUser` to `stepFinalVerify` of
-- apps/api/src/installer/installer.service.ts, with `deployArtifact`, `restoreLastBuild` and
-- `installRenewalHook`. `site` is the row as it was read when the operation began.
use site_foundry.Installer.State.{
  Site, BuildStatus, build_running, success, build_failed, Build, Context, ExecResult, Services,
  World, call, update, edit_site, output_tail,
}
use site_foundry.Installer.Commands.{
  system_user_for, site_paths, concat, generate_vhost, create_user_command, swap_command,
  nginx_command, certbot_command, enddate_command, not_after, hook_script, hook_command,
}
use site_foundry.Effects.{
  plain, ok, err, Act, pure, lift, throw, gets, require, catch, guard, ◌>>=◌, ◌>>◌,
}
use site_foundry.Json.{Json, prop, is_truthy, array_of, to_string}
use site_foundry.Web.{to_lower_case}
use site_foundry.Ssl.{SslStatus, not_issued, issuing, active}
use site_foundry.Preflight.{needs_disclosure}
use site_foundry.Prelude.{
  ℕ, ◌+◌, ◌/◌, ◌%◌, Bool, true, false, ◌||◌, not, Option, none, some, List, [], ◌∷◌, ◌++◌, ◌==◌,
  if◌then◌else◌, or_else, is_some, length, take,
}
use site_foundry.Text.{Text, txt, text_eq, is_empty, trim, includes, show, join}

abbrev set_build : Text → (Build → Build) → List Build → List Build
set_build id f [] = []
set_build id f (b ∷ bs) = (if text_eq b.id id then f b else b) ∷ set_build id f bs

abbrev is_success : BuildStatus → Bool
is_success success = true
is_success _ = false

-- `findFirst` in descending order of creation; the list holds the newest build first.
abbrev pub last_success : List Build → Option Build
last_success [] = none
last_success (b ∷ bs) = if is_success b.status then some b else last_success bs

-- `Math.round(ms / 100) / 10`, printed
show_tenths : ℕ → Text
show_tenths n = if n % 10 == 0 then show (n / 10) else show (n / 10) ++ (txt "." ++ show (n % 10))

-- `s.replace(/\/$/, '')`
unfoldable pub strip_slash : Text → Text
strip_slash [] = []
strip_slash (c ∷ []) = if c == b'/' then [] else c ∷ []
strip_slash (c ∷ d ∷ s) = c ∷ strip_slash (d ∷ s)

-- `stderr || stdout`
abbrev output_of : ExecResult → Text
output_of r = if is_empty r.stderr then r.stdout else r.stderr

module _ (services : Services) where
  open services use {
    Outside, exec, upload_file, run_build, restore_dist, zip_folder, verify_dist, fetch, new_id,
    parse_date, to_iso, to_base64, sanitize_for_log, skip_ssl, certbot_email, panel_url,
    internal_secret,
  }

  abbrev pub Action : Type 0 → Type 0
  Action A = Act (World Outside) A

  -- `sudoHint`
  unfoldable pub sudo_hint : Text → Text
  sudo_hint output =
      let lower = to_lower_case output in
      if includes lower (txt "sudo: a password is required") || includes lower (txt "sudo: no tty")
      then txt "The deploy user needs passwordless sudo (see server provisioning docs)"
      else output_tail sanitize_for_log output 500

  -- A command, and the exception for a code that is not 0.
  unfoldable pub run_command : Text → ℕ → (Text → Text) → Action (Unit {0})
  run_command command timeout message = do
    result ← call (exec command timeout)
    guard (result.code == 0) plain (message (output_of result))

  abbrev pub user_of : Site → Text
  user_of site = or_else site.site_system_user (system_user_for site.id)

  unfoldable pub step_create_user : Site → Action Text
  step_create_user site = do
    let user = system_user_for site.id
    let paths = site_paths user site.id
    run_command (create_user_command user paths) 60000 sudo_hint
    update (
        edit_site (λ s. record s {
          site_system_user = some user;
          document_root = some paths.document_root;
        }))
    pure (concat (txt "user " ∷ user ∷ txt ", docroot " ∷ paths.document_root ∷ []))

  unfoldable pub deploy_artifact : Site → Text → Text → Action (Unit {0})
  deploy_artifact site build_id artifact_key = do
    let paths = site_paths (user_of site) site.id
    let remote_zip = concat (txt "/tmp/sf-" ∷ build_id ∷ txt ".zip" ∷ [])
    dist ← call (restore_dist build_id artifact_key)
    call (zip_folder build_id dist)
    call (upload_file build_id remote_zip)
    run_command
        (swap_command (user_of site) (concat (paths.releases_dir ∷ txt "/" ∷ build_id ∷ []))
          paths.document_root remote_zip)
        180000 sudo_hint

  -- The new build's row gets its id from the database.
  pub take_id : Action Text
  take_id w = let (id, o) = new_id w.outside in (ok id, record { store = w.store; outside = o })

  set_context : (Context → Context) → Action (Unit {0})
  set_context f = update (λ s. record s { context = f s.context })

  unfoldable pub step_deploy_files : Site → Action Text
  unfolding show_tenths take_id set_context
  step_deploy_files site = do
    id ← take_id
    update (λ s. record s {
      builds =
          record { id = id; status = build_running; artifact_path = none; log = [] } ∷ s.builds;
    })
    set_context (λ c. record c { build_id = some id })
    output ← catch (call (run_build id site)) (λ e. do
      update (λ s. record s {
        builds =
            set_build id
              (λ b. record b {
                status = build_failed;
                log = output_tail sanitize_for_log e.message 4000;
              })
              s.builds;
      })
      lift (err e))
    set_context
        (λ c. record c { dist_dir = some output.dist_dir; artifact_key = some output.artifact_key })
    update (λ s. record s {
      builds =
          set_build id
            (λ b. record b {
              status = success;
              artifact_path = some output.artifact_key;
              log = output_tail sanitize_for_log output.log 4000;
            })
            s.builds;
    })
    deploy_artifact site id output.artifact_key
    pure (
        concat (
          txt "build "
          ∷ take 8 id
          ∷ txt " deployed ("
          ∷ show_tenths ((output.duration_ms + 50) / 100)
          ∷ txt "s build)"
          ∷ []))

  unfoldable pub step_configure_nginx : Site → Action Text
  step_configure_nginx site = do
    let user = user_of site
    let paths = site_paths user site.id
    let vhost = generate_vhost user site.domain site.extra_domains paths.document_root
    run_command (nginx_command (to_base64 vhost) paths) 60000
        (λ output. txt "nginx config test failed: " ++ output_tail sanitize_for_log output 500)
    pure (txt "vhost " ++ paths.vhost_available)

  set_ssl : SslStatus → Action (Unit {0})
  set_ssl status = update (edit_site (λ s. record s { ssl_status = status }))

  -- The expiry that the certificate states, if it states one.
  abbrev expiry_of : Text → Option ℕ
  expiry_of stdout = elim (not_after stdout) [ none ↦ none | some t ↦ parse_date (trim t) ]

  unfoldable pub read_expiry : Site → Action (Option ℕ)
  read_expiry site = do
    result ← call (exec (enddate_command site.domain) 30000)
    pure (expiry_of result.stdout)

  unfoldable pub install_renewal_hook : Site → Action (Unit {0})
  install_renewal_hook site =
      let url = strip_slash panel_url in
      let script = hook_script site.id site.domain url internal_secret in
      if is_empty url || is_empty internal_secret
      then pure tt
      else do result ← call (exec (hook_command site.id (to_base64 script)) 60000); pure tt

  abbrev email_of : Site → Text
  email_of site =
      let contact = prop (prop site.params (txt "trust")) (txt "contact_email") in
      if not (is_empty certbot_email)
      then certbot_email
      else if is_truthy contact
      then to_string contact
      else txt "admin@example.com"

  abbrev issued_text : Option ℕ → Text
  issued_text none = txt "issued"
  issued_text (some t) = txt "valid until " ++ take 10 (to_iso t)

  issue_certificate : Site → Action Text
  unfolding set_ssl
  issue_certificate site = do
    set_ssl issuing
    result ← call (exec (certbot_command site.domain site.extra_domains (email_of site)) 300000)
    if result.code == 0 then pure tt else do
      set_ssl not_issued
      throw plain (txt "certbot failed: " ++ output_tail sanitize_for_log (output_of result) 500)
    expires ← read_expiry site
    update (edit_site (λ s. record s { ssl_status = active; ssl_expires_at = expires }))
    install_renewal_hook site
    pure (issued_text expires)

  unfoldable pub step_issue_ssl : Site → Action Text
  unfolding issue_certificate set_ssl
  step_issue_ssl site =
      if skip_ssl then (do set_ssl not_issued; pure (txt "skipped")) else issue_certificate site

  unfoldable pub restore_last_build : Action (Unit {0})
  restore_last_build = do
    found ← gets (λ w. last_success w.builds)
    last ←
        require found plain (txt "No successful build to resume from — retry from the build step")
    key ←
        require last.artifact_path plain
          (txt "No successful build to resume from — retry from the build step")
    update (λ s. record s {
      context = record s.context { build_id = some last.id; artifact_key = some key };
    })
    dist ← call (restore_dist last.id key)
    update (λ s. record s { context = record s.context { dist_dir = some dist } })

  abbrev dist_of : Option Text → Text
  dist_of none = []
  dist_of (some d) = d

  unfoldable pub step_verify_tracking : Site → Action Text
  step_verify_tracking site = do
    dist ← gets (λ w. w.context.dist_dir)
    if is_some dist then pure tt else restore_last_build
    dist' ← gets (λ w. w.context.dist_dir)
    missing ← call (verify_dist (dist_of dist') site)
    guard (length missing == 0) plain
        (txt "Tracking/claims verification failed: " ++ join (txt "; ") missing)
    pure (txt "all tags and claims verified in HTML")

  abbrev address_of : Site → Text → Text
  address_of site path =
      concat ((if skip_ssl then txt "http" else txt "https") ∷ txt "://" ∷ site.domain ∷ path ∷ [])

  pub check_claims : Text → List Json → Action (Unit {0})
  check_claims html [] = pure tt
  check_claims html (claim ∷ claims) = do
    guard (includes html (to_string claim)) plain
        (concat (txt "Live page missing ad claim: \"" ∷ to_string claim ∷ txt "\"" ∷ []))
    check_claims html claims

  pub check_pages : Site → List Text → Action (Unit {0})
  check_pages site [] = pure tt
  check_pages site (page ∷ pages) = do
    res ← call (fetch (address_of site page))
    guard (res.status == 200) plain
        (concat (txt "Legal page " ∷ page ∷ txt " returned HTTP " ∷ show res.status ∷ []))
    check_pages site pages

  abbrev legal_pages : Site → List Text
  legal_pages site =
      txt "/privacy/"
      ∷ txt "/terms/"
      ∷ txt "/contact/"
      ∷ (if needs_disclosure site.category then txt "/disclosure/" ∷ [] else [])

  unfoldable pub step_final_verify : Site → Action Text
  unfolding check_claims check_pages
  step_final_verify site = do
    home ← call (fetch (address_of site (txt "/")))
    guard (home.status == 200) plain
        (concat (address_of site (txt "/") ∷ txt " returned HTTP " ∷ show home.status ∷ []))
    check_claims home.body (array_of (prop site.params (txt "ad_claims")))
    check_pages site (legal_pages site)
    pure (txt "HTTPS 200, claims on live page, legal pages 200")
