-- ===== src/Servers/Ssh.antt =====
-- The opening of sessions: `SshService.connect` of apps/api/src/servers/ssh.service.ts over the
-- handshake of the SSH library, and `openSession` with its error texts of servers.service.ts.
use site_foundry.Servers.{
  is_ssh_key, Server, Session, Target, SshAuth, Handshake, established, broken, Services, Store,
  World, call, Action, is_credential,
}
use site_foundry.Effects.{type_error, Result, ok, pure, gets, require, catch, ◌>>=◌}
use site_foundry.Web.{to_lower_case}
use site_foundry.Prelude.{
  suc, ◌-◌, Bool, true, ◌&&◌, ◌||◌, not, Option, none, some, [], ◌++◌, if◌then◌else◌, or_else, find,
}
use site_foundry.Text.{Text, txt, text_eq, is_empty, includes}

-- What became of an attempt to open a session.
pub data Attempt : Type 0 where
  opened : Session → Attempt
  mismatch : Text → Attempt
  failed : Text → Attempt

-- `!pinned || pinned === key`
unfoldable pub host_verifier : Option Text → Text → Bool
host_verifier none key = true
host_verifier (some pin) key = is_empty pin || text_eq pin key

-- the message of `HostKeyMismatchError`
unfoldable pub mismatch_message : Text → Text → Text
mismatch_message expected actual =
    txt "SSH host key mismatch — expected "
    ++ (expected
        ++ (txt ", got "
            ++ (actual
                ++ txt
                    ". Possible MITM or server reinstall; rotate the pinned key if this is expected.")))

-- `connect`, once the handshake has ended
unfoldable pub conclude : Option Text → Handshake → Attempt
conclude pin (established n key) = opened (record { connection = n; host_key = key })
conclude pin (broken observed message) =
    if not (host_verifier pin observed) && not (is_empty observed)
    then mismatch (mismatch_message (or_else pin []) observed)
    else failed message

-- The session counts as open from here.
unfoldable pub enter : Attempt → Store → Store
enter (opened session) s = record s { sessions = suc s.sessions }
enter _ s = s

abbrev pub close_session : Store → Store
close_session s = record s { sessions = s.sessions - 1 }

-- `friendlySshError`, for an error that is no mismatch
unfoldable pub friendly_ssh_error : (Text → Text) → Text → Text
friendly_ssh_error sanitize msg =
    if includes msg (txt "ENOTFOUND") || includes msg (txt "EAI_AGAIN")
    then txt "Host not found — check the hostname/IP."
    else if includes msg (txt "ECONNREFUSED")
    then txt "Connection refused — is sshd running on that port?"
    else if includes (to_lower_case msg) (txt "etimedout")
        || includes (to_lower_case msg) (txt "timed out")
    then txt "Connection timed out — host unreachable or firewalled."
    else if includes (to_lower_case msg) (txt "authentication")
    then txt "Authentication rejected — check username and key/password."
    else sanitize msg

module _ (services : Services) where
  open services use {Outside, dial, decrypt}

  abbrev settle : Option Text → Store → Handshake × Outside → Result Attempt × World Outside
  settle pin s (h, o) =
      (ok (conclude pin h), record { store = enter (conclude pin h) s; outside = o })

  -- `connect`
  unfoldable pub connect : Target → SshAuth → Action services Attempt
  unfolding conclude host_verifier enter
  connect target auth w =
      settle target.pinned_host_key w.store
        (dial target auth (host_verifier target.pinned_host_key) w.outside)

  abbrev auth_of : Server → Text → SshAuth
  auth_of server plaintext = record {
    username = server.ssh_username;
    private_key = if is_ssh_key server.auth_type then some plaintext else none;
    password = if is_ssh_key server.auth_type then none else some plaintext;
  }

  -- `openSession`; an exception of the vault is a failed attempt, as every caller takes it.
  unfoldable pub open_session : Server → Option Text → Action services Attempt
  open_session server pin =
      catch
        (do
          found ←
              gets (λ w. find (is_credential server.tenant_id server.credential_id) w.credentials)
          credential ← require found type_error (txt "Cannot read properties of null")
          plaintext ← call (decrypt credential.secret)
          connect (record { host = server.host; port = server.port; pinned_host_key = pin })
              (auth_of server plaintext))
        (λ e. pure (failed e.message))
