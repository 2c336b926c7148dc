-- ===== src/Sites/Service.antt =====
-- The operations of apps/api/src/sites/sites.service.ts. Row-level security shows a user the rows of
-- the user's tenant, and the templates that are the tenant's or nobody's. A new row gets its id and
-- its defaults from the database, which also refuses a domain that any tenant has.
use site_foundry.Sites.Rows.{
  Owner, Template, Tracking, Site, TrackingDto, CreateSiteDto, UpdateSiteDto, Tables,
}
use site_foundry.Json.{Json, null, str, obj, end, member}
use site_foundry.Effects.{
  bad_request, not_found, conflict, type_error, Act, pure, lift, throw, gets, require, transaction,
  modify, guard, ◌>>=◌, ◌>>◌,
}
use site_foundry.Web.{UrlParser, to_lower_case}
use site_foundry.Users.{AuthUser}
use site_foundry.Ssl.{draft, archived}
use site_foundry.Preflight.{PreflightResult, run_preflight}
use site_foundry.Prelude.{
  Bool, true, false, ◌&&◌, not, Option, none, some, List, [], ◌∷◌, ◌++◌, map, if◌then◌else◌,
  or_else, any, find, edit_first,
}
use site_foundry.Text.{Text, txt, text_eq, is_empty}

abbrev pub is_own : Text → Text → Owner → Bool
is_own tenant id o = text_eq o.tenant_id tenant && text_eq o.id id

abbrev pub is_row : Text → Text → Site → Bool
is_row tenant id s = text_eq s.tenant_id tenant && text_eq s.id id

abbrev pub is_seen : Text → Option Text → Bool
is_seen tenant none = true
is_seen tenant (some t) = text_eq t tenant

abbrev pub is_usable : Text → Text → Template → Bool
is_usable tenant id t = is_seen tenant t.tenant_id && text_eq t.id id && t.active

-- `v !== undefined ? v || null : …`
abbrev edit_text : Option (Option Text) → Option Text → Option Text
edit_text none old = old
edit_text (some none) old = none
edit_text (some (some v)) old = if is_empty v then none else some v

-- `trackingColumns`, as it changes the columns
pub tracking_columns : Option TrackingDto → Tracking → Tracking
tracking_columns none old = old
tracking_columns (some t) old = record {
  ga4_id = edit_text t.ga4_id old.ga4_id;
  meta_pixel_id = edit_text t.meta_pixel_id old.meta_pixel_id;
  google_ads_tag = or_else t.google_ads_tag old.google_ads_tag;
  bing_uet_tag = edit_text t.bing_uet_tag old.bing_uet_tag;
  pushvault_property_key = edit_text t.pushvault_property_key old.pushvault_property_key;
}

abbrev no_tracking : Tracking
no_tracking = record {
  ga4_id = none;
  meta_pixel_id = none;
  google_ads_tag = null;
  bing_uet_tag = none;
  pushvault_property_key = none;
}

abbrev lowered : Option (List Text) → List Text → List Text
lowered none old = old
lowered (some hosts) old = map to_lower_case hosts

unfoldable pub log : AuthUser → Text → Text → Json → Json → Act Tables (Unit {0})
log user action id before after = modify (λ db. record db {
  audit =
      db.audit
      ++ record {
        tenant_id = user.tenant_id;
        user_id = user.user_id;
        action = action;
        entity_type = txt "site";
        entity_id = id;
        before = before;
        after = after;
      }
        ∷ [];
})

-- the row that `create` inserts
unfoldable pub site_of : AuthUser → CreateSiteDto → Template → Text → Site
unfolding tracking_columns
site_of user dto template id = record {
  id = id;
  tenant_id = user.tenant_id;
  name = dto.name;
  client_id = dto.client_id;
  server_id = dto.server_id;
  template_id = dto.template_id;
  template_version = template.version;
  domain = to_lower_case dto.domain;
  extra_domains = lowered dto.extra_domains [];
  extra_allowed_hosts = lowered dto.extra_allowed_hosts [];
  destination_url = dto.destination_url;
  params = dto.params;
  tracking = tracking_columns dto.tracking no_tracking;
  notes = dto.notes;
  ssl_auto_renew = true;
  status = draft;
}

abbrev name_and_domain : Site → Json
name_and_domain s =
    obj (member (txt "name") (str s.name) (member (txt "domain") (str s.domain) end))

unfoldable pub refuse_existing : Text → Option Site → Act Tables (Unit {0})
refuse_existing domain none = pure tt
refuse_existing domain (some s) =
    throw conflict
      (txt "Domain " ++ (domain ++ (txt " is already used by site \"" ++ (s.name ++ txt "\""))))

unfoldable pub add_site : AuthUser → CreateSiteDto → Template → Text → Act Tables Site
add_site user dto template id = do
  modify (λ db. record db { sites = db.sites ++ site_of user dto template id ∷ [] })
  log user (txt "site.create") id null (name_and_domain (site_of user dto template id))
  pure (site_of user dto template id)

-- `create`, once its references are found
unfoldable pub insert_site : AuthUser → CreateSiteDto → Template → Text → Act Tables Site
insert_site user dto template id = do
  existing ← gets (λ db.
      find (λ (s : Site). text_eq s.tenant_id user.tenant_id && text_eq s.domain dto.domain)
        db.sites)
  refuse_existing dto.domain existing
  taken ← gets (λ db. any (λ (s : Site). text_eq s.domain (to_lower_case dto.domain)) db.sites)
  guard (not taken) conflict (txt "Domain " ++ (dto.domain ++ txt " is already in use"))
  add_site user dto template id

unfoldable pub create : AuthUser → CreateSiteDto → Text → Act Tables Site
create user dto id = transaction (do
  found_client ← gets (λ db. find (is_own user.tenant_id dto.client_id) db.clients)
  client ← require found_client bad_request (txt "client_id: client not found")
  found_server ← gets (λ db. find (is_own user.tenant_id dto.server_id) db.servers)
  server ← require found_server bad_request (txt "server_id: server not found")
  found ← gets (λ db. find (is_usable user.tenant_id dto.template_id) db.templates)
  template ← require found bad_request (txt "template_id: template not found or deprecated")
  insert_site user dto template id)

-- the columns that `update` writes, without the template's
unfoldable pub edited : UpdateSiteDto → Site → Site
unfolding tracking_columns
edited dto s = record s {
  name = or_else dto.name s.name;
  params = or_else dto.params s.params;
  destination_url = or_else dto.destination_url s.destination_url;
  extra_domains = lowered dto.extra_domains s.extra_domains;
  extra_allowed_hosts = lowered dto.extra_allowed_hosts s.extra_allowed_hosts;
  ssl_auto_renew = or_else dto.ssl_auto_renew s.ssl_auto_renew;
  notes = or_else dto.notes s.notes;
  tracking = tracking_columns dto.tracking s.tracking;
}

abbrev pub with_template : Option Template → Site → Site
with_template none s = s
with_template (some t) s = record s { template_id = t.id; template_version = t.version }

-- `dto.template_id && dto.template_id !== before.templateId`
abbrev pub changed_template : Option Text → Text → Bool
changed_template none old = false
changed_template (some id) old = not (is_empty id) && not (text_eq id old)

-- the template to change to, if any
unfoldable pub template_change : AuthUser → Option Text → Site → Act Tables (Option Template)
template_change user wanted before =
    if changed_template wanted before.template_id
    then (do
      found ← gets (λ db. find (is_usable user.tenant_id (or_else wanted [])) db.templates)
      template ← require found bad_request (txt "template_id: template not found or deprecated")
      pure (some template))
    else pure none

abbrev shown : Site → Json
shown s =
    obj (member (txt "params") s.params (member (txt "destinationUrl") (str s.destination_url) end))

-- `update`, once the row and the template are found
unfoldable pub write_site :
    AuthUser → Text → UpdateSiteDto → Site → Option Template → Act Tables Site
write_site user id dto before template = do
  modify (λ db. record db {
    sites =
        edit_first (is_row user.tenant_id id) (λ s. with_template template (edited dto s)) db.sites;
  })
  log user (txt "site.update") id (shown before) (shown (edited dto before))
  pure (with_template template (edited dto before))

unfoldable pub update : AuthUser → Text → UpdateSiteDto → Act Tables Site
update user id dto = transaction (do
  found ← gets (λ db. find (is_row user.tenant_id id) db.sites)
  before ← require found not_found (txt "Site not found")
  template ← template_change user dto.template_id before
  write_site user id dto before template)

unfoldable pub archive : AuthUser → Text → Act Tables (Unit {0})
archive user id = transaction (do
  found ← gets (λ db. find (is_row user.tenant_id id) db.sites)
  site ← require found not_found (txt "Site not found")
  modify (λ db. record db {
    sites = edit_first (is_row user.tenant_id id) (λ s. record s { status = archived }) db.sites;
  }))

-- `validate`, which reads the site with its template
unfoldable pub validate : UrlParser → AuthUser → Text → Act Tables PreflightResult
validate parse user id = do
  found ← gets (λ db. find (is_row user.tenant_id id) db.sites)
  site ← require found not_found (txt "Site not found")
  found_template ← gets (λ db. find (λ (t : Template). text_eq t.id site.template_id) db.templates)
  template ← require found_template type_error (txt "Cannot read properties of null")
  lift (
      run_preflight parse (record {
        params = site.params;
        destination_url = site.destination_url;
        template_category = template.category;
        param_schema = template.param_schema;
        extra_allowed_hosts = site.extra_allowed_hosts;
      }))
