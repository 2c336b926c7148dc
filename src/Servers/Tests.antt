-- ===== src/Servers/Tests.antt =====
-- A server with a pinned key, an SSH library that asks the host verifier, and the theorems at that
-- input.
use site_foundry.Servers.{
  ssh_key, pending, Credential, Server, Target, SshAuth, Handshake, established, broken, Services,
  World, call, change, is_row, find_server,
}
use site_foundry.Users.{builder, AuthUser}
use site_foundry.Servers.Ssh.{host_verifier, conclude, enter, connect, open_session}
use site_foundry.Servers.Opening.{AsksVerifier}
use site_foundry.Servers.HostKey.{test_connection-host_key}
use site_foundry.Servers.Steps.{build_provision_steps}
use site_foundry.Servers.Connection.{TestedView, test_connection}
use site_foundry.Servers.Provision.{
  emit, set_status, record_deploy_event, pass_step, judge, attempt, run_step, run_steps,
  probe_again, complete, provision_on, provision_base, handle_provision,
}
use site_foundry.Servers.Provisioned.{Outcome, provision_base_lem}
use site_foundry.Servers.Stream.{IsClosed, handle_provision-IsClosed}
use site_foundry.Effects.{ok, catch, finally, ◌>>=◌}
use site_foundry.Json.{obj, end}
use site_foundry.Prelude.{
  ℕ, suc, ◌≡◌, refl, Bool, false, none, some, [], ◌∷◌, arith, if◌then◌else◌, length, find,
}
use site_foundry.Text.{Text, txt, text_eq, is_empty, show}

-- A host that shows one key, and whose commands all pass.
abbrev dial_test : Target → SshAuth → (Text → Bool) → ℕ → Handshake × ℕ
dial_test target auth verifier o = (
  if verifier (txt "K") then established o (txt "K") else broken (txt "K") (txt "refused"),
  suc o,
)

abbrev services : Services
services = record {
  Outside = ℕ;
  dial = dial_test;
  exec = λ session command t o. (ok (record { code = some 0; stdout = []; stderr = [] }), suc o);
  probe_facts = λ session o. (ok (obj end), o);
  encrypt = λ s o. (ok (record { ciphertext = s; dek_wrapped = []; iv = []; auth_tag = [] }), o);
  decrypt = λ e o. (ok e.ciphertext, o);
  ssh_fingerprint = λ s. some s;
  new_id = λ o. (show o, suc o);
  now = λ o. o;
  sanitize_for_log = λ s. s;
  app_base_url = txt "https://panel.test";
}

services-AsksVerifier : AsksVerifier services
services-AsksVerifier target auth verifier o n key h = ground arith

abbrev server : Server
server = record {
  id = txt "s";
  tenant_id = txt "t";
  name = txt "Web";
  host = txt "web.test";
  port = 22;
  ssh_username = txt "deploy";
  auth_type = ssh_key;
  credential_id = txt "c";
  provider = none;
  os = none;
  os_version = none;
  base_provisioned = false;
  status = pending;
  last_checked_at = none;
  facts = obj end;
  host_key = some (txt "K");
  notes = none;
}

abbrev credential : Credential
credential = record {
  id = txt "c";
  tenant_id = txt "t";
  kind = ssh_key;
  label = txt "SSH for Web";
  secret = record { ciphertext = txt "key"; dek_wrapped = []; iv = []; auth_tag = [] };
  fingerprint = none;
  created_by = txt "u";
  last_used_at = none;
  rotated_at = none;
}

abbrev world : World ℕ
world = record {
  store = record {
    servers = server ∷ [];
    credentials = credential ∷ [];
    events = [];
    audit = [];
    sessions = 0;
    stream = [];
  };
  outside = 7;
}

abbrev user : AuthUser
user = record { user_id = txt "u"; tenant_id = txt "t"; email = []; role = builder }

server_found : find (is_row (txt "t") (txt "s")) world.servers ≡ some server
unfolding text_eq txt
server_found = refl

pin_given : is_empty (txt "K") ≡ false
unfolding txt
pin_given = refl

test_connection-host_key_example :
    (v : TestedView) × (w' : World ℕ) × (after : Server) × (test_connection services user
        (txt "s")
        world
      ≡ (ok v, w'))
    × (w'.sessions ≡ 0)
    × (find (is_row (txt "t") (txt "s")) w'.servers ≡ some after)
    × (after.host_key ≡ some (txt "K"))
test_connection-host_key_example =
    test_connection-host_key services services-AsksVerifier user (txt "s") (txt "K") world server
      server_found refl pin_given

provision_base_lem_example :
    Outcome services (txt "t") server world (provision_base services user (txt "s") world)
provision_base_lem_example = provision_base_lem services user (txt "s") world server server_found

handle_provision-IsClosed_example :
    IsClosed (handle_provision services user (txt "s") world).1.stream
handle_provision-IsClosed_example = handle_provision-IsClosed services user (txt "s") world refl

-- The whole run
provision_test :
    ((handle_provision services user (txt "s") world).1.sessions ≡ 0)
    × (length (handle_provision services user (txt "s") world).1.stream ≡ 21)
unfolding handle_provision provision_base find_server set_status open_session connect conclude
    host_verifier enter provision_on run_steps run_step record_deploy_event attempt call judge
    pass_step finally complete probe_again catch change emit text_eq txt build_provision_steps ◌>>=◌
provision_test = (refl, refl)
