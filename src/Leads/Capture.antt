-- ===== src/Leads/Capture.antt =====
-- LeadsService over the tables it uses, apps/api/src/leads/leads.service.ts: `capture`, `list`,
-- `exportCsv` and `setWebhook`. The salted hash of an address, the URL parser and the mode of the
-- process are parameters. A delivery that `capture` starts and does not wait for is an entry of
-- `outbox`; `testWebhook` and the delivery stand in Webhook.antt. The times of the rows are texts of
-- `toISOString`, in their order.

use mathlib.Core.List.{reverse}
use site_foundry.Leads.Csv.{LeadRow, to_csv}
use site_foundry.Leads.Fields.{FieldMap, sanitize_fields, pick_utm}
use site_foundry.Json.{Json, null, bool, num, str, obj, end, member}
use site_foundry.Effects.{
  bad_request, not_found, Result, ok, thrown, Act, pure, lift, gets, require, modify, guard, ◌>>=◌,
  ◌>>◌,
}
use site_foundry.Web.{Url, UrlParser}
use site_foundry.Users.{AuthUser}
use site_foundry.Ssl.{SiteStatus, archived}
use site_foundry.Prelude.{
  Bool, true, false, ◌&&◌, ◌||◌, not, Option, none, some, List, [], ◌∷◌, ◌++◌, map, if◌then◌else◌,
  length, take, keep, find, edit_first,
}
use site_foundry.Text.{Text, txt, text_eq, is_empty}

pub record Site : Type 0 where
  pub id : Text
  pub tenant_id : Text
  pub name : Text
  pub domain : Text
  pub status : SiteStatus
  pub lead_webhook_url : Option Text

pub record Lead : Type 0 where
  pub id : Text
  pub tenant_id : Text
  pub site_id : Text
  pub fields : FieldMap
  pub consent : Bool
  pub source_utm : Option FieldMap
  pub ip_hash : Option Text
  pub at : Text

-- `LeadWebhookPayload`, whose consent is always true
pub record Payload : Type 0 where
  pub site_id : Text
  pub site_name : Text
  pub site_domain : Text
  pub lead_id : Text
  pub fields : FieldMap
  pub source_utm : Option FieldMap
  pub at : Text

-- An entry of the audit log about a site
pub record Entry : Type 0 where
  pub tenant_id : Text
  pub user_id : Text
  pub action : Text
  pub site_id : Text
  pub after : Json

pub record Tables : Type 0 where
  pub sites : List Site
  pub leads : List Lead
  pub audit : List Entry
  pub outbox : List (Text × Payload)

-- The argument of `capture`, with the id and the time that the database gives a new row.
pub record Input : Type 0 where
  pub site_key : Text
  pub fields : Json
  pub consent : Json
  pub utm : Option FieldMap
  pub ip : Option Text
  pub row_id : Text
  pub row_at : Text

-- `consent !== true`
abbrev pub is_true : Json → Bool
is_true (bool b) = b
is_true _ = false

abbrev pub has_none : FieldMap → Bool
has_none [] = true
has_none (f ∷ fs) = false

abbrev pub is_archived : SiteStatus → Bool
is_archived archived = true
is_archived _ = false

-- A value that the source tests as a condition: the empty text counts as missing.
abbrev pub given : Option Text → Option Text
given none = none
given (some s) = if is_empty s then none else some s

-- the row that the tenant sees
abbrev pub is_own : Text → Text → Site → Bool
is_own tenant id s = text_eq s.tenant_id tenant && text_eq s.id id

unfoldable pub assert_site : Text → Text → Act Tables Site
assert_site tenant id = do
  found ← gets (λ db. find (is_own tenant id) db.sites)
  require found not_found (txt "Site not found")

pub payload_of : Site → Lead → Payload
payload_of site lead = record {
  site_id = site.id;
  site_name = site.name;
  site_domain = site.domain;
  lead_id = lead.id;
  fields = lead.fields;
  source_utm = lead.source_utm;
  at = lead.at;
}

module _ (hash_ip : Text → Text) where
  unfoldable pub lead_of : Input → Site → Lead
  lead_of input site = record {
    id = input.row_id;
    tenant_id = site.tenant_id;
    site_id = site.id;
    fields = sanitize_fields input.fields;
    consent = true;
    source_utm = pick_utm input.utm;
    ip_hash = elim (given input.ip) [ none ↦ none | some ip ↦ some (hash_ip ip) ];
    at = input.row_at;
  }

  abbrev queue : Site → Lead → List (Text × Payload)
  queue site lead = elim (given site.lead_webhook_url) [
    | none ↦ []
    | some url ↦ (url, payload_of site lead) ∷ []
  ]

  -- `capture`, once the site is found
  unfoldable pub store_lead : Input → Site → Act Tables (Unit {0})
  unfolding lead_of payload_of
  store_lead input site =
      if is_archived site.status
      then pure tt
      else modify (λ db. record db {
        leads = db.leads ++ lead_of input site ∷ [];
        outbox = db.outbox ++ queue site (lead_of input site);
      })

  abbrev pub store_if_found : Input → Option Site → Act Tables (Unit {0})
  store_if_found input none = pure tt
  store_if_found input (some site) = store_lead input site

  unfoldable pub capture : Input → Act Tables (Unit {0})
  capture input = do
    guard (is_true input.consent) bad_request (txt "Consent is required to submit this form")
    guard (not (has_none (sanitize_fields input.fields))) bad_request
        (txt "At least one field is required")
    found ← gets (λ db. find (λ s. text_eq s.id input.site_key) db.sites)
    store_if_found input found

-- `list`: the newest 500 leads of the site
unfoldable pub list : AuthUser → Text → Act Tables (List Lead)
list user site_id = do
  site ← assert_site user.tenant_id site_id
  gets (λ db. take 500 (
      reverse
        (keep (λ l. text_eq l.tenant_id user.tenant_id && text_eq l.site_id site_id) db.leads)))

abbrev row_of : Lead → LeadRow
row_of l = record { at = l.at; fields = l.fields; source_utm = l.source_utm }

-- `exportCsv`
unfoldable pub export_csv : AuthUser → Text → Act Tables Text
export_csv user site_id = do
  site ← assert_site user.tenant_id site_id
  rows ←
      gets
        (λ db. keep (λ l. text_eq l.tenant_id user.tenant_id && text_eq l.site_id site_id) db.leads)
  modify (λ db. record db {
    audit =
        db.audit
        ++ record {
          tenant_id = user.tenant_id;
          user_id = user.user_id;
          action = txt "leads.export";
          site_id = site_id;
          after = obj (
              member (txt "count") (num (length rows))
                (member (txt "domain") (str site.domain) end));
        }
          ∷ [];
  })
  pure (to_csv (map row_of rows))

abbrev url_json : Option Text → Json
url_json none = null
url_json (some url) = str url

-- `['localhost', '127.0.0.1', '::1'].includes(hostname)`
pub is_local : Text → Bool
is_local host =
    text_eq host (txt "localhost") || text_eq host (txt "127.0.0.1") || text_eq host (txt "::1")

module _ (parse_url : UrlParser) (dev_mode : Bool) where
  -- the conditions of `validateWebhookUrl` on a parsed URL
  unfoldable pub is_allowed : Url → Bool
  is_allowed u = text_eq u.protocol (txt "https:") || dev_mode && is_local u.hostname

  abbrev pub check_url : Option Url → Result (Unit {0})
  check_url none = thrown bad_request (txt "Webhook URL is not a valid URL")
  check_url (some u) =
      if is_allowed u then ok tt else thrown bad_request (txt "Webhook URL must be HTTPS")

  unfoldable pub validate_webhook_url : Text → Result (Unit {0})
  unfolding is_allowed is_local
  validate_webhook_url url = check_url (parse_url url)

  abbrev pub validate_given : Option Text → Result (Unit {0})
  validate_given none = ok tt
  validate_given (some url) = validate_webhook_url url

  -- `setWebhook`
  unfoldable pub set_webhook : AuthUser → Text → Option Text → Act Tables (Unit {0})
  set_webhook user site_id url = do
    lift (validate_given (given url))
    site ← assert_site user.tenant_id site_id
    modify (λ db. record db {
      sites =
          edit_first (is_own user.tenant_id site_id) (λ s. record s { lead_webhook_url = url })
            db.sites;
      audit =
          db.audit
          ++ record {
            tenant_id = user.tenant_id;
            user_id = user.user_id;
            action = txt "leads.webhook_set";
            site_id = site_id;
            after = obj (member (txt "url") (url_json url) end);
          }
            ∷ [];
    })
