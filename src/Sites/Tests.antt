-- ===== src/Sites/Tests.antt =====
-- Two tenants with a client and a server each, and the theorem at sites that they ask for.
use site_foundry.Sites.Owned.{
  Request, create_request, archive_request, serve, serve_all, IsOwned, serve_all-IsOwned,
}
use site_foundry.Sites.Service.{
  log, site_of, refuse_existing, add_site, insert_site, create, archive,
}
use site_foundry.Sites.Rows.{Owner, Template, Site, CreateSiteDto, Tables}
use site_foundry.Json.{null}
use site_foundry.Effects.{◌>>=◌}
use site_foundry.Web.{to_lower_case}
use site_foundry.Users.{builder, AuthUser}
use site_foundry.Ssl.{SiteStatus, archived}
use site_foundry.Prelude.{String, ◌≡◌, refl, true, none, List, [], ◌∷◌, map}
use site_foundry.Text.{Text, txt, text_eq}

owner : String → String → Owner
owner id tenant = record { id = txt id; tenant_id = txt tenant }

abbrev stock : Template
stock = record {
  id = txt "p";
  tenant_id = none;
  active = true;
  version = txt "1";
  category = txt "prelander";
  param_schema = null;
}

abbrev no_sites : Tables
no_sites = record {
  sites = [];
  clients = owner "c1" "t" ∷ owner "c2" "s" ∷ [];
  servers = owner "v1" "t" ∷ owner "v2" "s" ∷ [];
  templates = stock ∷ [];
  audit = [];
}

member_of : String → AuthUser
member_of tenant = record { user_id = txt "a"; tenant_id = txt tenant; email = []; role = builder }

wanted : String → String → CreateSiteDto
wanted client domain = record {
  name = txt domain;
  client_id = txt client;
  server_id = txt "v1";
  template_id = txt "p";
  domain = txt domain;
  extra_domains = none;
  extra_allowed_hosts = none;
  destination_url = [];
  params = null;
  tracking = none;
  notes = none;
}

-- The second asks for another tenant's client, and the third for a domain that is taken.
abbrev requests : List Request
requests =
    create_request (member_of "t") (wanted "c1" "shop.test") (txt "1")
    ∷ create_request (member_of "t") (wanted "c2" "more.test") (txt "2")
    ∷ create_request (member_of "t") (wanted "c1" "shop.test") (txt "3")
    ∷ archive_request (member_of "t") (txt "1")
    ∷ []

one_site :
    map {B = Text × SiteStatus} (λ (s : Site). (s.id, s.status)) (serve_all requests no_sites).sites
    ≡ (txt "1", archived) ∷ []
unfolding owner member_of wanted serve_all serve create insert_site refuse_existing add_site archive
    log site_of txt text_eq to_lower_case ◌>>=◌
one_site = refl

serve_all-IsOwned_example : IsOwned (serve_all requests no_sites)
serve_all-IsOwned_example = serve_all-IsOwned requests no_sites (record { each = tt })
