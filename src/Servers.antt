-- ===== src/Servers.antt =====
-- Servers of a tenant and their base provisioning, apps/api/src/servers: the rows, and the world that
-- the operations act on. Row-level security shows a user the rows of the user's tenant; a database
-- call on a row that was found is taken to succeed. The vault, the SSH library, the reading of
-- facts (facts.ts), the log sanitiser, the clock and new ids are parameters.
pub mod Ssh
pub mod Steps
pub mod Service
pub mod Connection
pub mod Provision
pub mod Opening
pub mod Pinning
pub mod HostKey
pub mod Repin
pub mod Transcript
pub mod Ending
pub mod Provisioned
mod Stream
mod Tests
use site_foundry.Users.{AuditEntry, audit}
use site_foundry.Effects.{not_found, Result, ok, Act, gets, require, ◌>>=◌, ◌>>◌}
use site_foundry.Json.{Json}
use site_foundry.Prelude.{ℕ, ◌*◌, Bool, true, false, ◌&&◌, Option, List, find, edit_first}
use site_foundry.Text.{Text, txt, text_eq}

pub data AuthType : Type 0 where
  ssh_key password : AuthType

abbrev pub is_ssh_key : AuthType → Bool
is_ssh_key ssh_key = true
is_ssh_key password = false

pub data ServerStatus : Type 0 where
  pending connected provisioning_base ready unreachable error : ServerStatus

-- What the vault gives for a secret.
pub record Encrypted : Type 0 where
  pub ciphertext : Text
  pub dek_wrapped : Text
  pub iv : Text
  pub auth_tag : Text

pub record Credential : Type 0 where
  pub id : Text
  pub tenant_id : Text
  pub kind : AuthType
  pub label : Text
  pub secret : Encrypted
  pub fingerprint : Option Text
  pub created_by : Text
  pub last_used_at : Option ℕ
  pub rotated_at : Option ℕ

pub record Server : Type 0 where
  pub id : Text
  pub tenant_id : Text
  pub name : Text
  pub host : Text
  pub port : ℕ
  pub ssh_username : Text
  pub auth_type : AuthType
  pub credential_id : Text
  pub provider : Option Text
  pub os : Option Text
  pub os_version : Option Text
  pub base_provisioned : Bool
  pub status : ServerStatus
  pub last_checked_at : Option ℕ
  pub facts : Json
  pub host_key : Option Text
  pub notes : Option Text

pub data EventStatus : Type 0 where
  start passed fail done : EventStatus

pub record DeployEvent : Type 0 where
  pub tenant_id : Text
  pub server_id : Text
  pub step : Text
  pub status : EventStatus
  pub command_summary : Text
  pub output_tail : Option Text

pub record ProvisionEvent : Type 0 where
  pub step : Text
  pub title : Text
  pub status : EventStatus
  pub detail : Option Text

-- An open session, with the host key that the handshake showed.
pub record Session : Type 0 where
  pub connection : ℕ
  pub host_key : Text

-- The exit code is missing when a signal ended the command.
pub record ExecResult : Type 0 where
  pub code : Option ℕ
  pub stdout : Text
  pub stderr : Text

pub record Target : Type 0 where
  pub host : Text
  pub port : ℕ
  pub pinned_host_key : Option Text

pub record SshAuth : Type 0 where
  pub username : Text
  pub private_key : Option Text
  pub password : Option Text

-- How a handshake ends: ready, with the number of the connection and the host key; or broken, with
-- the key that was shown (empty if none was) and a message.
pub data Handshake : Type 0 where
  established : ℕ → Text → Handshake
  broken : Text → Text → Handshake

pub record Services : Type 1 where
  pub Outside : Type 0
  pub dial : Target → SshAuth → (Text → Bool) → Outside → Handshake × Outside
  pub exec : Session → Text → ℕ → Act Outside ExecResult
  pub probe_facts : Session → Act Outside Json
  pub encrypt : Text → Act Outside Encrypted
  pub decrypt : Encrypted → Act Outside Text
  pub ssh_fingerprint : Text → Option Text
  pub new_id : Outside → Text × Outside
  pub now : Outside → ℕ
  pub sanitize_for_log : Text → Text
  pub app_base_url : Text

-- `sessions` counts the sessions that are open, and `stream` is what was yielded.
pub record Store : Type 0 where
  pub servers : List Server
  pub credentials : List Credential
  pub events : List DeployEvent
  pub audit : List AuditEntry
  pub sessions : ℕ
  pub stream : List ProvisionEvent

pub record World (O : Type 0) : Type 0 where
  pub store : Store
  pub open store use *
  pub outside : O

module _ {O : Type 0} where
  abbrev carry : {A : Type 0} → Store → Result A × O → Result A × World O
  carry s (r, o) = (r, record { store = s; outside = o })

  -- A call of a service
  unfoldable pub call : {A : Type 0} → Act O A → Act (World O) A
  call m w = carry w.store (m w.outside)

  unfoldable pub change : (Store → Store) → Act (World O) (Unit {0})
  change f w = (ok tt, record { store = f w.store; outside = w.outside })

abbrev pub Action : Services → Type 0 → Type 0
Action services A = Act (World services.Outside) A

abbrev pub is_row : Text → Text → Server → Bool
is_row tenant id s = text_eq s.tenant_id tenant && text_eq s.id id

abbrev pub is_credential : Text → Text → Credential → Bool
is_credential tenant id c = text_eq c.tenant_id tenant && text_eq c.id id

-- `server.update` and `credential.update`
abbrev pub edit_server : Text → Text → (Server → Server) → Store → Store
edit_server tenant id f s = record s { servers = edit_first (is_row tenant id) f s.servers }

abbrev pub edit_credential : Text → Text → (Credential → Credential) → Store → Store
edit_credential tenant id f s = record s {
  credentials = edit_first (is_credential tenant id) f s.credentials;
}

-- `server.findFirst`, with the exception for a missing row
unfoldable pub find_server : {O : Type 0} → Text → Text → Act (World O) Server
find_server tenant id = do
  found ← gets (λ w. find (is_row tenant id) w.servers)
  require found not_found (txt "Server not found")
