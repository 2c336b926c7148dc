-- ===== src/Clients.antt =====
-- The clients of a tenant, apps/api/src/clients/clients.service.ts with its requests (dto.ts). A
-- tenant sees its own rows; a new client stands first, as the list shows it. The id that the
-- database gives a new row is an argument. Of a site there is what these operations read.
mod Attached
mod Tests
use site_foundry.Users.{AuthUser}
use site_foundry.Ssl.{SiteStatus}
use site_foundry.Effects.{
  not_found, conflict, plain, Act, pure, gets, require, transaction, modify, guard, ◌>>=◌, ◌>>◌,
}
use site_foundry.Prelude.{
  ℕ, Bool, true, false, ◌&&◌, ◌||◌, not, Option, none, some, List, [], ◌∷◌, ◌++◌, map, leb, keep,
  find, edit_first, remove_first, count,
}
use site_foundry.Text.{Text, txt, text_eq, show}

-- A field of a request that may be missing or `null`
pub data Field : Type 0 where
  absent cleared : Field
  given : Text → Field

-- The columns that may be empty
pub record Details : Type 0 where
  pub contact_name : Option Text
  pub email : Option Text
  pub phone : Option Text
  pub company : Option Text
  pub gstin : Option Text
  pub address : Option Text
  pub city : Option Text
  pub state : Option Text
  pub website_url : Option Text
  pub notes : Option Text

pub record Client : Type 0 where
  pub id : Text
  pub tenant_id : Text
  pub name : Text
  pub details : Details
  pub country : Text
  pub status : Text

pub record DetailsDto : Type 0 where
  pub contact_name : Field
  pub email : Field
  pub phone : Field
  pub company : Field
  pub gstin : Field
  pub address : Field
  pub city : Field
  pub state : Field
  pub website_url : Field
  pub notes : Field

pub record CreateClientDto : Type 0 where
  pub name : Text
  pub details : DetailsDto
  pub country : Field

pub record UpdateClientDto : Type 0 where
  pub name : Field
  pub details : DetailsDto
  pub country : Field
  pub status : Field

pub record Site : Type 0 where
  pub id : Text
  pub tenant_id : Text
  pub client_id : Text
  pub name : Text
  pub domain : Text
  pub status : SiteStatus

-- What an entry of the audit log says of the client
pub data Recorded : Type 0 where
  nothing : Recorded
  named : Text → Recorded
  whole : Client → Recorded

pub record AuditEntry : Type 0 where
  pub tenant_id : Text
  pub user_id : Text
  pub action : Text
  pub entity_id : Text
  pub before : Recorded
  pub after : Recorded

pub record Db : Type 0 where
  pub clients : List Client
  pub sites : List Site
  pub audit : List AuditEntry

abbrev pub in_tenant : Text → Client → Bool
in_tenant tenant c = text_eq c.tenant_id tenant

abbrev pub is_row : Text → Text → Client → Bool
is_row tenant id c = in_tenant tenant c && text_eq c.id id

-- The sites of a client that the tenant sees
abbrev pub is_site_of : Text → Text → Site → Bool
is_site_of tenant id s = text_eq s.tenant_id tenant && text_eq s.client_id id

-- A column after a write: an absent field leaves it.
abbrev pub write : Field → Option Text → Option Text
write absent old = old
write cleared old = none
write (given v) old = some v

-- A column that may not be empty
abbrev pub write_required : Field → Text → Text
write_required (given v) old = v
write_required _ old = old

-- The database client refuses `null` for such a column.
abbrev pub is_cleared : Field → Bool
is_cleared cleared = true
is_cleared _ = false

unfoldable pub write_details : DetailsDto → Details → Details
write_details d old = record {
  contact_name = write d.contact_name old.contact_name;
  email = write d.email old.email;
  phone = write d.phone old.phone;
  company = write d.company old.company;
  gstin = write d.gstin old.gstin;
  address = write d.address old.address;
  city = write d.city old.city;
  state = write d.state old.state;
  website_url = write d.website_url old.website_url;
  notes = write d.notes old.notes;
}

abbrev no_details : Details
no_details = record {
  contact_name = none;
  email = none;
  phone = none;
  company = none;
  gstin = none;
  address = none;
  city = none;
  state = none;
  website_url = none;
  notes = none;
}

unfoldable pub audit : AuthUser → Text → Text → Recorded → Recorded → Act Db (Unit {0})
audit user action id before after = modify (λ db. record db {
  audit =
      db.audit
      ++ record {
        tenant_id = user.tenant_id;
        user_id = user.user_id;
        action = action;
        entity_id = id;
        before = before;
        after = after;
      }
        ∷ [];
})

-- `list`, each client with the number of its sites
unfoldable pub list : AuthUser → Act Db (List (Client × ℕ))
list user = gets (λ db.
    map (λ (c : Client). (c, count (is_site_of user.tenant_id c.id) db.sites))
      (keep (in_tenant user.tenant_id) db.clients))

-- The row, or the exception for a missing one
unfoldable pub find_client : AuthUser → Text → Act Db Client
find_client user id = do
  found ← gets (λ db. find (is_row user.tenant_id id) db.clients)
  require found not_found (txt "Client not found")

-- `get`: the client and its sites
unfoldable pub get : AuthUser → Text → Act Db (Client × List Site)
get user id = do
  client ← find_client user id
  gets (λ db. (client, keep (is_site_of user.tenant_id id) db.sites))

abbrev refuse_null : Bool → Act Db (Unit {0})
refuse_null b = guard (not b) plain (txt "Argument must not be null")

abbrev pub client_of : AuthUser → CreateClientDto → Text → Client
client_of user dto id = record {
  id = id;
  tenant_id = user.tenant_id;
  name = dto.name;
  details = write_details dto.details no_details;
  country = write_required dto.country (txt "US");
  status = txt "active";
}

unfoldable pub create : AuthUser → CreateClientDto → Text → Act Db Client
create user dto id = transaction (do
  refuse_null (is_cleared dto.country)
  modify (λ db. record db { clients = client_of user dto id ∷ db.clients })
  audit user (txt "client.create") id nothing (named dto.name)
  pure (client_of user dto id))

abbrev pub updated : UpdateClientDto → Client → Client
updated dto c = record c {
  name = write_required dto.name c.name;
  details = write_details dto.details c.details;
  country = write_required dto.country c.country;
  status = write_required dto.status c.status;
}

unfoldable pub update : AuthUser → Text → UpdateClientDto → Act Db Client
update user id dto = transaction (do
  before ← find_client user id
  refuse_null (is_cleared dto.name || is_cleared dto.country || is_cleared dto.status)
  modify
      (λ db. record db { clients = edit_first (is_row user.tenant_id id) (updated dto) db.clients })
  audit user (txt "client.update") id (whole before) (whole (updated dto before))
  pure (updated dto before))

unfoldable pub many_sites : ℕ → Text
many_sites n = txt "Client has " ++ (show n ++ txt " site(s) — archive or delete them first")

-- `remove`, once the row is found
unfoldable pub remove_found : AuthUser → Text → Client → Act Db (Unit {0})
remove_found user id client = do
  sites ← gets (λ db. count (is_site_of user.tenant_id id) db.sites)
  guard (leb sites 0) conflict (many_sites sites)
  modify (λ db. record db { clients = remove_first (is_row user.tenant_id id) db.clients })
  audit user (txt "client.delete") id (named client.name) nothing

unfoldable pub remove : AuthUser → Text → Act Db (Unit {0})
remove user id = transaction (do client ← find_client user id; remove_found user id client)
