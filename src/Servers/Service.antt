-- ===== src/Servers/Service.antt =====
-- The operations on server rows of apps/api/src/servers/servers.service.ts that open no session:
-- `create` up to its connection test, `list`, `get`, `update`, `remove` and `rotateCredential`.
use site_foundry.Servers.{
  AuthType, ssh_key, password, is_ssh_key, ServerStatus, pending, Encrypted, Credential, Server,
  Services, Store, World, call, change, Action, is_row, is_credential, edit_server, edit_credential,
  find_server,
}
use site_foundry.Users.{AuthUser}
use site_foundry.Effects.{bad_request, Result, ok, pure, gets, guard, ◌>>=◌, ◌>>◌}
use site_foundry.Json.{Json, null, str, obj, end, member}
use site_foundry.Prelude.{
  ℕ, Bool, false, ◌||◌, not, Option, none, some, List, [], ◌∷◌, ◌++◌, map, or_else, keep, find,
  remove_first,
}
use site_foundry.Text.{Text, txt, text_eq, is_empty}

pub record CreateServerDto : Type 0 where
  pub name : Text
  pub host : Text
  pub port : Option ℕ
  pub ssh_username : Text
  pub auth_type : AuthType
  pub private_key : Option Text
  pub password : Option Text
  pub provider : Option Text
  pub notes : Option Text

-- A field is missing, `null`, or a text.
pub record UpdateServerDto : Type 0 where
  pub name : Option Text
  pub provider : Option (Option Text)
  pub notes : Option (Option Text)

pub record RotateCredentialDto : Type 0 where
  pub auth_type : AuthType
  pub private_key : Option Text
  pub password : Option Text

-- What every endpoint shows of a server.
pub record ServerView : Type 0 where
  pub id : Text
  pub name : Text
  pub host : Text
  pub port : ℕ
  pub ssh_username : Text
  pub auth_type : AuthType
  pub credential_fingerprint : Option Text
  pub provider : Option Text
  pub os : Option Text
  pub os_version : Option Text
  pub base_provisioned : Bool
  pub status : ServerStatus
  pub last_checked_at : Option ℕ
  pub facts : Json
  pub notes : Option Text

-- `row.credential?.fingerprint ?? null`
abbrev fingerprint_of : Option Credential → Option Text
fingerprint_of none = none
fingerprint_of (some c) = c.fingerprint

-- `toView` of a row with its credential
unfoldable pub to_view : List Credential → Server → ServerView
to_view credentials s = record {
  id = s.id;
  name = s.name;
  host = s.host;
  port = s.port;
  ssh_username = s.ssh_username;
  auth_type = s.auth_type;
  credential_fingerprint =
      fingerprint_of (find (is_credential s.tenant_id s.credential_id) credentials);
  provider = s.provider;
  os = s.os;
  os_version = s.os_version;
  base_provisioned = s.base_provisioned;
  status = s.status;
  last_checked_at = s.last_checked_at;
  facts = s.facts;
  notes = s.notes;
}

-- `!!text`
abbrev pub is_given : Option Text → Bool
is_given none = false
is_given (some s) = not (is_empty s)

-- The key or the password that goes with the type
abbrev pub secret_for : AuthType → Option Text → Option Text → Option Text
secret_for ssh_key key word = key
secret_for password key word = word

module _ (services : Services) where
  open services use {Outside, encrypt, ssh_fingerprint, new_id, now}

  -- The row as it now stands, shown
  unfoldable pub show_server : Text → Text → Action services ServerView
  show_server tenant id = do
    server ← find_server tenant id
    gets (λ w. to_view w.credentials server)

  unfoldable pub audit : AuthUser → Text → Text → Json → Json → Action services (Unit {0})
  audit user action id before after = change (λ s. record s {
    audit =
        s.audit
        ++ record {
          tenant_id = user.tenant_id;
          user_id = user.user_id;
          action = action;
          entity_type = txt "server";
          entity_id = id;
          before = before;
          after = after;
        }
          ∷ [];
  })

  abbrev take : Text × Outside → Store → Result Text × World Outside
  take (id, o) s = (ok id, record { store = s; outside = o })

  -- The id that the database gives a new row
  unfoldable pub take_id : Action services Text
  take_id w = take (new_id w.outside) w.store

  -- the rows that `create` inserts
  abbrev pub credential_of :
      AuthUser → CreateServerDto → Encrypted → Option Text → Text → Credential
  credential_of user dto secret fingerprint id = record {
    id = id;
    tenant_id = user.tenant_id;
    kind = dto.auth_type;
    label = txt "SSH for " ++ dto.name;
    secret = secret;
    fingerprint = fingerprint;
    created_by = user.user_id;
    last_used_at = none;
    rotated_at = none;
  }

  abbrev pub server_of : AuthUser → CreateServerDto → Text → Text → Server
  server_of user dto credential_id id = record {
    id = id;
    tenant_id = user.tenant_id;
    name = dto.name;
    host = dto.host;
    port = or_else dto.port 22;
    ssh_username = dto.ssh_username;
    auth_type = dto.auth_type;
    credential_id = credential_id;
    provider = dto.provider;
    os = none;
    os_version = none;
    base_provisioned = false;
    status = pending;
    last_checked_at = none;
    facts = obj end;
    host_key = none;
    notes = dto.notes;
  }

  -- the transaction of `create`
  unfoldable pub insert_server :
      AuthUser → CreateServerDto → Encrypted → Option Text → Action services Text
  insert_server user dto secret fingerprint = do
    credential_id ← take_id
    change (λ s. record s {
      credentials = s.credentials ++ credential_of user dto secret fingerprint credential_id ∷ [];
    })
    id ← take_id
    change (λ s. record s { servers = s.servers ++ server_of user dto credential_id id ∷ [] })
    audit user (txt "server.create") id null
        (obj (member (txt "name") (str dto.name) (member (txt "host") (str dto.host) end)))
    pure id

  abbrev missing_secret : AuthType → Text
  missing_secret ssh_key = txt "private_key required for auth_type ssh_key"
  missing_secret password = txt "password required for auth_type password"

  abbrev unparseable : Text
  unparseable = txt "private_key is not a parseable SSH private key (OpenSSH or PEM format)"

  -- The fingerprint of a key; a password has none.
  abbrev pub fingerprint_for : AuthType → Text → Option Text
  fingerprint_for ssh_key secret = ssh_fingerprint secret
  fingerprint_for password secret = none

  -- `type !== 'ssh_key' || fingerprint`
  abbrev pub is_parseable : AuthType → Text → Bool
  is_parseable kind secret = not (is_ssh_key kind) || is_given (fingerprint_for kind secret)

  -- `create`, without the connection test that it ends with; its value is the new id.
  unfoldable pub create_row : AuthUser → CreateServerDto → Action services Text
  create_row user dto = do
    let secret = secret_for dto.auth_type dto.private_key dto.password
    guard (is_given secret) bad_request (missing_secret dto.auth_type)
    guard (is_parseable dto.auth_type (or_else secret [])) bad_request unparseable
    encrypted ← call (encrypt (or_else secret []))
    insert_server user dto encrypted (fingerprint_for dto.auth_type (or_else secret []))

  -- `list`, in the order of creation
  unfoldable pub list : AuthUser → Action services (List ServerView)
  list user = gets (λ w.
      map (to_view w.credentials)
        (keep (λ (s : Server). text_eq s.tenant_id user.tenant_id) w.servers))

  unfoldable pub get : AuthUser → Text → Action services ServerView
  get user id = show_server user.tenant_id id

  abbrev pub edited : UpdateServerDto → Server → Server
  edited dto s = record s {
    name = or_else dto.name s.name;
    notes = or_else dto.notes s.notes;
    provider = or_else dto.provider s.provider;
  }

  abbrev text_or_null : Option Text → Json
  text_or_null none = null
  text_or_null (some s) = str s

  abbrev labels : Server → Json
  labels s = obj (
      member (txt "name") (str s.name) (
        member (txt "notes") (text_or_null s.notes)
          (member (txt "provider") (text_or_null s.provider) end)))

  unfoldable pub update : AuthUser → Text → UpdateServerDto → Action services ServerView
  update user id dto = do
    before ← find_server user.tenant_id id
    change (edit_server user.tenant_id id (edited dto))
    audit user (txt "server.update") id (labels before) (labels (edited dto before))
    gets (λ w. to_view w.credentials (edited dto before))

  unfoldable pub remove : AuthUser → Text → Action services (Unit {0})
  remove user id = do
    server ← find_server user.tenant_id id
    change (λ s. record s { servers = remove_first (is_row user.tenant_id id) s.servers })
    change (λ s. record s {
      credentials = remove_first (is_credential user.tenant_id server.credential_id) s.credentials;
    })
    audit user (txt "server.delete") id
        (obj (member (txt "name") (str server.name) (member (txt "host") (str server.host) end)))
        null

  abbrev pub rotated : RotateCredentialDto → Encrypted → Option Text → ℕ → Credential → Credential
  rotated dto secret fingerprint time c = record c {
    kind = dto.auth_type;
    secret = secret;
    fingerprint = fingerprint;
    rotated_at = some time;
  }

  -- the transaction of `rotateCredential`
  unfoldable pub write_credential :
      AuthUser → Text → RotateCredentialDto → Encrypted → Option Text → Action services (Unit {0})
  write_credential user id dto secret fingerprint = do
    server ← find_server user.tenant_id id
    time ← gets (λ w. now w.outside)
    change
        (edit_credential user.tenant_id server.credential_id (rotated dto secret fingerprint time))
    change (edit_server user.tenant_id id (λ s. record s { auth_type = dto.auth_type }))
    audit user (txt "credential.rotate") id null
        (obj (member (txt "fingerprint") (text_or_null fingerprint) end))

  unfoldable pub rotate_credential :
      AuthUser → Text → RotateCredentialDto → Action services (Option Text)
  rotate_credential user id dto = do
    let secret = secret_for dto.auth_type dto.private_key dto.password
    guard (is_given secret) bad_request (txt "key or password required")
    guard (is_parseable dto.auth_type (or_else secret [])) bad_request
        (txt "private_key is not a parseable SSH key")
    encrypted ← call (encrypt (or_else secret []))
    let fingerprint = fingerprint_for dto.auth_type (or_else secret [])
    write_credential user id dto encrypted fingerprint
    pure fingerprint
