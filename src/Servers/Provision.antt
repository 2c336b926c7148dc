-- ===== src/Servers/Provision.antt =====
-- `provisionBase` of apps/api/src/servers/servers.service.ts and its handler in
-- servers.controller.ts. What the generator yields, and what the handler writes, is appended to
-- `stream`; the consumer is taken to read to the end.
use site_foundry.Servers.{
  ServerStatus, provisioning_base, ready, unreachable, error, Server, EventStatus, start, passed,
  fail, done, ProvisionEvent, Session, ExecResult, Services, World, call, change, Action,
  edit_server, find_server,
}
use site_foundry.Servers.Ssh.{
  Attempt, opened, mismatch, failed, close_session, friendly_ssh_error, open_session,
}
use site_foundry.Servers.Steps.{ProvisionStep, build_provision_steps}
use site_foundry.Users.{is_viewer, AuthUser}
use site_foundry.Effects.{forbidden, Result, ok, err, pure, catch, finally, guard, ◌>>=◌, ◌>>◌}
use site_foundry.Json.{Json}
use site_foundry.Web.{to_lower_case}
use site_foundry.Installer.State.{output_tail}
use site_foundry.Prelude.{
  Bool, true, false, ◌||◌, not, Option, none, some, List, [], ◌∷◌, ◌++◌, ◌==◌, if◌then◌else◌, take,
}
use site_foundry.Text.{Text, txt, is_empty, includes}

-- `/sudo: a password is required|sudo: no tty/i`
abbrev lacks_sudo : Text → Bool
lacks_sudo output =
    includes (to_lower_case output) (txt "sudo: a password is required")
    || includes (to_lower_case output) (txt "sudo: no tty")

unfoldable pub provision_failure_hint : (Text → Text) → Text → Text
provision_failure_hint sanitize output =
    if lacks_sudo output
    then txt "The deploy user needs passwordless sudo. On the server run: "
      ++ txt "echo \"<user> ALL=(ALL) NOPASSWD:ALL\" > /etc/sudoers.d/sitefoundry"
    else output_tail sanitize output 500

-- `result.stderr || result.stdout`
abbrev shown_output : ExecResult → Text
shown_output r = if is_empty r.stderr then r.stdout else r.stderr

-- `result.code === 0`
abbrev pub is_success : ExecResult → Bool
is_success r = elim r.code [ none ↦ false | some n ↦ n == 0 ]

abbrev pub event : ProvisionStep → EventStatus → Option Text → ProvisionEvent
event step status detail = record {
  step = step.key;
  title = step.title;
  status = status;
  detail = detail;
}

abbrev pub complete_event : ProvisionEvent
complete_event = record {
  step = txt "complete";
  title = txt "Base provisioning complete";
  status = done;
  detail = some (txt "Server is site-ready");
}

abbrev pub connect_failed : Text → ProvisionEvent
connect_failed detail = record {
  step = txt "connect";
  title = txt "Connecting via SSH";
  status = fail;
  detail = some detail;
}

module _ (services : Services) where
  open services use {Outside, exec, probe_facts, sanitize_for_log, app_base_url}

  unfoldable pub emit : ProvisionEvent → Action services (Unit {0})
  emit e = change (λ s. record s { stream = s.stream ++ e ∷ [] })

  unfoldable pub set_status : Text → Text → ServerStatus → Action services (Unit {0})
  set_status tenant id status = change (edit_server tenant id (λ s. record s { status = status }))

  unfoldable pub record_deploy_event :
      Text → Text → ProvisionStep → EventStatus → Text → Action services (Unit {0})
  record_deploy_event tenant id step status output = change (λ s. record s {
    events =
        s.events
        ++ record {
          tenant_id = tenant;
          server_id = id;
          step = step.key;
          status = status;
          command_summary = take 500 (sanitize_for_log step.command);
          output_tail =
              if is_empty output then none else some (output_tail sanitize_for_log output 500);
        }
          ∷ [];
  })

  -- What a step leaves when it failed, with the output to record and the detail to show; the value
  -- says that the loop ends.
  unfoldable pub fail_step : Text → Text → ProvisionStep → Text → Text → Action services Bool
  fail_step tenant id step output detail = do
    record_deploy_event tenant id step fail output
    set_status tenant id error
    emit (event step fail (some detail))
    pure false

  unfoldable pub pass_step : Text → Text → ProvisionStep → ExecResult → Action services Bool
  pass_step tenant id step r = do
    record_deploy_event tenant id step passed r.stdout
    emit (event step passed none)
    pure true

  unfoldable pub judge : Text → Text → ProvisionStep → Result ExecResult → Action services Bool
  judge tenant id step (err e) = fail_step tenant id step e.message (sanitize_for_log e.message)
  judge tenant id step (ok r) =
      if is_success r
      then pass_step tenant id step r
      else fail_step tenant id step (shown_output r)
          (provision_failure_hint sanitize_for_log (shown_output r))

  abbrev keep_result : {A : Type 0} → Result A × World Outside → Result (Result A) × World Outside
  keep_result (r, w) = (ok r, w)

  -- `try { result = await … } catch`, with both ends as a value
  unfoldable pub attempt : {A : Type 0} → Action services A → Action services (Result A)
  attempt m w = keep_result (m w)

  -- the body of the loop
  unfoldable pub run_step : Text → Text → Session → ProvisionStep → Action services Bool
  run_step tenant id session step = do
    emit (event step start none)
    record_deploy_event tenant id step start []
    result ← attempt (call (exec session step.command 300000))
    judge tenant id step result

  unfoldable pub run_steps : Text → Text → Session → List ProvisionStep → Action services Bool
  run_steps tenant id session [] = pure true
  run_steps tenant id session (step ∷ steps) = do
    going ← run_step tenant id session step
    if going then run_steps tenant id session steps else pure false

  -- The second probe: its session is closed only if the probe does not throw.
  unfoldable pub probe_again : Server → Attempt → Action services Json
  probe_again server (opened session) =
      catch (do facts ← call (probe_facts session); change close_session; pure facts)
        (λ e. pure server.facts)
  probe_again server _ = pure server.facts

  unfoldable pub complete : Text → Server → Action services (Unit {0})
  complete tenant server = do
    again ← open_session services server server.host_key
    facts ← probe_again server again
    change (
        edit_server tenant server.id
          (λ s. record s { base_provisioned = true; status = ready; facts = facts }))
    emit complete_event

  unfoldable pub refuse : Text → Server → Text → Action services (Unit {0})
  refuse tenant server detail = do
    set_status tenant server.id unreachable
    emit (connect_failed detail)

  -- `provisionBase`, once the first session is tried
  unfoldable pub provision_on : Text → Server → Attempt → Action services (Unit {0})
  provision_on tenant server (opened session) = do
    all_passed ←
        finally (run_steps tenant server.id session (build_provision_steps app_base_url))
          (λ w. record { store = close_session w.store; outside = w.outside })
    if all_passed then complete tenant server else pure tt
  provision_on tenant server (mismatch message) = refuse tenant server message
  provision_on tenant server (failed message) =
      refuse tenant server (friendly_ssh_error sanitize_for_log message)

  unfoldable pub provision_base : AuthUser → Text → Action services (Unit {0})
  provision_base user id = do
    server ← find_server user.tenant_id id
    set_status user.tenant_id id provisioning_base
    first ← open_session services server server.host_key
    provision_on user.tenant_id server first

  -- The handler writes an exception of the generator as one more event.
  unfoldable pub handle_provision : AuthUser → Text → Action services (Unit {0})
  handle_provision user id = do
    guard (not (is_viewer user.role)) forbidden (txt "Viewers cannot modify servers")
    catch (provision_base user id) (λ e. emit (record {
      step = txt "internal";
      title = txt "Provisioning";
      status = fail;
      detail = some e.message;
    }))
