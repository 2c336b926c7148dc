-- ===== src/Clients/Tests.antt =====
-- A client with a site: its removal is refused, and that of a client without one is not.
use site_foundry.Clients.{Details, Client, Site, Db, audit, find_client, remove_found, remove}
use site_foundry.Clients.Attached.{
  Attached, Request, remove_request, serve, serve_all, IsAttached, serve_all-IsAttached,
}
use site_foundry.Users.{admin, AuthUser}
use site_foundry.Ssl.{published}
use site_foundry.Effects.{◌>>=◌}
use site_foundry.Prelude.{◌≡◌, refl, none, List, [], ◌∷◌}
use site_foundry.Text.{Text, text_eq}

abbrev no_details : Details
no_details = record {
  contact_name = none;
  email = none;
  phone = none;
  company = none;
  gstin = none;
  address = none;
  city = none;
  state = none;
  website_url = none;
  notes = none;
}

abbrev client : Text → Client
client id = record {
  id = id;
  tenant_id = 7 ∷ [];
  name = 3 ∷ [];
  details = no_details;
  country = 4 ∷ [];
  status = 5 ∷ [];
}

abbrev site : Site
site = record {
  id = 1 ∷ [];
  tenant_id = 7 ∷ [];
  client_id = 2 ∷ [];
  name = [];
  domain = [];
  status = published;
}

abbrev user : AuthUser
user = record { user_id = 8 ∷ []; tenant_id = 7 ∷ []; email = []; role = admin }

abbrev db : Db
db = record { clients = client (2 ∷ []) ∷ client (6 ∷ []) ∷ []; sites = site ∷ []; audit = [] }

abbrev requests : List Request
requests = remove_request user (2 ∷ []) ∷ remove_request user (6 ∷ []) ∷ []

removed_test : (serve_all requests db).clients ≡ client (2 ∷ []) ∷ []
unfolding serve_all serve remove remove_found find_client audit text_eq ◌>>=◌
removed_test = refl

db-Attached : Attached db.clients db.sites
unfolding text_eq
db-Attached = (refl, tt)

serve_all-IsAttached_example : IsAttached db.sites (serve_all requests db)
serve_all-IsAttached_example = serve_all-IsAttached requests db db-Attached
