-- ===== src/Servers/Connection.antt =====
-- `testConnection` and `repinHostKey` of apps/api/src/servers/servers.service.ts, and `create`,
-- which ends with a connection test.
use site_foundry.Servers.{
  ServerStatus, connected, ready, unreachable, error, Server, Session, Services, call, change,
  Action, edit_server, edit_credential, find_server,
}
use site_foundry.Servers.Ssh.{
  Attempt, opened, mismatch, failed, close_session, friendly_ssh_error, open_session,
}
use site_foundry.Servers.Service.{
  CreateServerDto, ServerView, is_given, show_server, audit, create_row,
}
use site_foundry.Users.{AuthUser}
use site_foundry.Effects.{bad_request, pure, throw, gets, catch, finally, ◌>>=◌, ◌>>◌}
use site_foundry.Json.{Json, null, str, obj, end, member, prop}
use site_foundry.Prelude.{ℕ, Bool, true, false, ◌&&◌, Option, none, some, ◌++◌, if◌then◌else◌}
use site_foundry.Text.{Text, txt}

-- What a test found, for the row
pub record Checked : Type 0 where
  pub status : ServerStatus
  pub facts : Json
  pub host_key : Option Text
  pub error : Option Text

-- A server as it is shown, with `last_error` where a test set it
pub record TestedView : Type 0 where
  pub view : ServerView
  pub last_error : Option Text

abbrev text_field : Json → Text → Option Text
text_field facts key = elim (prop facts key) [ str s ↦ some s | _ ↦ none ]

-- `{ os: facts.os, osVersion: facts.os_version }`, if there is an `os`; a missing version is not
-- written.
unfoldable pub with_os : Json → Server → Server
with_os facts s =
    if is_given (text_field facts (txt "os"))
    then record s {
      os = text_field facts (txt "os");
      os_version = elim (text_field facts (txt "os_version")) [
        | none ↦ s.os_version
        | some v ↦ some v
      ];
    }
    else s

abbrev pub is_connected : ServerStatus → Bool
is_connected connected = true
is_connected _ = false

abbrev pub status_after : Server → ServerStatus → ServerStatus
status_after s found = if s.base_provisioned && is_connected found then ready else found

-- the row that `testConnection` writes
unfoldable pub tested : Server → Checked → ℕ → Server → Server
unfolding with_os
tested server c time s =
    let written : Server = record s {
      status = status_after server c.status;
      facts = c.facts;
      host_key = c.host_key;
      last_checked_at = some time;
    } in
    if is_connected c.status then with_os c.facts written else written

-- the row that `repinHostKey` writes
unfoldable pub repinned : Server → Text → Json → ℕ → Server → Server
repinned server key facts time s = record s {
  host_key = some key;
  status = if server.base_provisioned then ready else connected;
  facts = facts;
  last_checked_at = some time;
}

abbrev key_json : Option Text → Json
key_json none = null
key_json (some k) = str k

module _ (services : Services) where
  open services use {Outside, probe_facts, now, sanitize_for_log}

  abbrev friendly : Text → Text
  friendly = friendly_ssh_error sanitize_for_log

  -- the `try` block of `testConnection` on an open session, with its `finally`
  unfoldable pub probe : Server → Session → Action services Checked
  probe server session =
      finally
        (catch
          (do
            facts ← call (probe_facts session)
            pure (record {
              status = connected;
              facts = facts;
              host_key = some session.host_key;
              error = none;
            }))
          (λ e. pure (record {
            status = unreachable;
            facts = server.facts;
            host_key = some session.host_key;
            error = some (friendly e.message);
          })))
        (λ w. record { store = close_session w.store; outside = w.outside })

  unfoldable pub check : Server → Attempt → Action services Checked
  check server (opened session) = probe server session
  check server (mismatch message) = pure (record {
    status = error;
    facts = server.facts;
    host_key = server.host_key;
    error = some message;
  })
  check server (failed message) = pure (record {
    status = unreachable;
    facts = server.facts;
    host_key = server.host_key;
    error = some (friendly message);
  })

  -- the transaction of `testConnection`
  unfoldable pub write_tested : AuthUser → Server → Checked → Action services (Unit {0})
  write_tested user server c = do
    time ← gets (λ w. now w.outside)
    change (
        edit_credential user.tenant_id server.credential_id
          (λ r. record r { last_used_at = some time }))
    change (edit_server user.tenant_id server.id (tested server c time))

  -- `testConnection`, once the connection is checked
  unfoldable pub finish_test : AuthUser → Server → Checked → Action services TestedView
  finish_test user server c = do
    write_tested user server c
    view ← show_server services user.tenant_id server.id
    pure (record { view = view; last_error = if is_given c.error then c.error else none })

  -- `testConnection`, once the server is found
  unfoldable pub test_found : AuthUser → Server → Action services TestedView
  test_found user server = do
    attempt ← open_session services server server.host_key
    c ← check server attempt
    finish_test user server c

  unfoldable pub test_connection : AuthUser → Text → Action services TestedView
  test_connection user id = do server ← find_server user.tenant_id id; test_found user server

  unfoldable pub create : AuthUser → CreateServerDto → Action services TestedView
  create user dto = do id ← create_row services user dto; test_connection user id

  -- the refresh of the facts, which may fail, and the closing of the session
  unfoldable pub refresh_facts : Server → Session → Action services Json
  refresh_facts server session =
      finally (catch (call (probe_facts session)) (λ e. pure server.facts))
        (λ w. record { store = close_session w.store; outside = w.outside })

  -- the transaction of `repinHostKey`
  unfoldable pub write_repinned : AuthUser → Server → Text → Json → Action services (Unit {0})
  write_repinned user server key facts = do
    time ← gets (λ w. now w.outside)
    change (edit_server user.tenant_id server.id (repinned server key facts time))
    audit services user (txt "server.repin_host_key") server.id null (
        obj (
          member (txt "old_host_key") (key_json server.host_key)
            (member (txt "new_host_key") (str key) end)))

  -- `repinHostKey`, once the facts are refreshed
  unfoldable pub finish_repin : AuthUser → Server → Text → Json → Action services ServerView
  finish_repin user server key facts = do
    write_repinned user server key facts
    show_server services user.tenant_id server.id

  -- `repinHostKey`, once an attempt is made with the pin ignored
  unfoldable pub repin : AuthUser → Server → Attempt → Action services ServerView
  repin user server (opened session) = do
    facts ← refresh_facts server session
    finish_repin user server session.host_key facts
  repin user server (mismatch message) = throw bad_request (txt "Could not re-pin: " ++ message)
  repin user server (failed message) =
      throw bad_request (txt "Could not re-pin: " ++ friendly message)

  unfoldable pub repin_host_key : AuthUser → Text → Action services ServerView
  repin_host_key user id = do
    server ← find_server user.tenant_id id
    attempt ← open_session services server none
    repin user server attempt
