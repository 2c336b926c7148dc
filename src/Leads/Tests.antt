-- ===== src/Leads/Tests.antt =====
-- A submitted form, an exported line and a delivery, and the theorems at inputs that meet their
-- hypotheses.
use site_foundry.Leads.Sound.{
  Request, form_request, webhook_request, IsSound, serve, serve_all, serve_all-IsSound,
}
use site_foundry.Leads.Bounds.{IsField, sanitize_fields-IsField}
use site_foundry.Leads.Webhook.{deliver_webhook, answer, retried, deliver_webhook_lem}
use site_foundry.Leads.Csv.Parse.{parse_csv}
use site_foundry.Leads.Csv.Export.{parse_csv-to_csv}
use site_foundry.Leads.Capture.{
  Site, Payload, Tables, Input, assert_site, lead_of, store_lead, capture, is_allowed,
  validate_webhook_url, set_webhook,
}
use site_foundry.Leads.Csv.{
  field_keys, header, to_csv, LeadRow, double_quotes, escape, values, line,
}
use site_foundry.Leads.Fields.{
  read, put, field_key, set_field, add_field, add_fields, sanitize_fields,
}
use site_foundry.Json.{Json, bool, str, obj, end, member, to_string}
use site_foundry.Effects.{ok, Act, ◌>>=◌}
use site_foundry.Web.{UrlParser}
use site_foundry.Users.{admin, AuthUser}
use site_foundry.Ssl.{published}
use site_foundry.Prelude.{
  ℕ, suc, ◌≤◌, ◌≡◌, refl, true, false, none, some, List, [], ◌∷◌, map, ◌==◌, if◌then◌else◌, length,
  All,
}
use site_foundry.Text.{Text, txt, text_eq, join}

abbrev shop : Site
shop = record {
  id = txt "s1";
  tenant_id = txt "t";
  name = txt "Shop";
  domain = txt "shop.test";
  status = published;
  lead_webhook_url = none;
}

abbrev tables : Tables
tables = record { sites = shop ∷ []; leads = []; audit = []; outbox = [] }

abbrev form : Json
form = obj (member (txt "na me") (str (txt "Ada")) (member (txt "!") (str (txt "x")) end))

abbrev input : Input
input = record {
  site_key = txt "s1";
  fields = form;
  consent = bool true;
  utm = none;
  ip = none;
  row_id = txt "l1";
  row_at = txt "t1";
}

abbrev owner : AuthUser
owner = record { user_id = txt "a"; tenant_id = txt "t"; email = []; role = admin }

abbrev parser : UrlParser
parser s =
    if text_eq s (txt "h") then some (record { protocol = txt "https:"; hostname = s }) else none

abbrev requests : List Request
requests = webhook_request owner (txt "s1") (some (txt "h")) ∷ form_request input ∷ []

kept_fields : sanitize_fields form ≡ (txt "name", txt "Ada") ∷ []
unfolding sanitize_fields add_fields add_field field_key set_field put to_string txt text_eq
kept_fields = refl

delivered :
    map (λ (d : Text × Payload). d.0) (serve_all parser false (λ s. s) requests tables).outbox
    ≡ txt "h" ∷ []
unfolding serve_all serve capture set_webhook validate_webhook_url assert_site store_lead lead_of
    is_allowed sanitize_fields add_fields add_field field_key set_field put to_string txt text_eq
    ◌>>=◌
delivered = refl

-- The one form that was sent
abbrev Sent : Input → Type 0
Sent i = i ≡ input

serve_all-IsSound_example :
    IsSound Sent parser false (serve_all parser false (λ s. s) requests tables)
serve_all-IsSound_example =
    serve_all-IsSound Sent parser false (λ s. s) requests tables (tt, (refl, tt))
      (record { leads = tt; sites = (tt, tt); outbox = tt })

sanitize_fields-IsField_example :
    (length (sanitize_fields form) ≤ 12) × All IsField (sanitize_fields form)
sanitize_fields-IsField_example = sanitize_fields-IsField form

abbrev row : LeadRow
row = record { at = txt "t1"; fields = (txt "name", txt "a\",b") ∷ []; source_utm = none }

line_test : line (txt "name" ∷ []) row ≡ txt "t1,\"a\"\",b\",,,"
unfolding line values read escape double_quotes join txt text_eq
line_test = refl

parse_csv-to_csv_example :
    parse_csv (to_csv (row ∷ []))
    ≡ header (field_keys (row ∷ [])) ∷ (txt "t1" ∷ values (field_keys (row ∷ [])) row) ∷ []
unfolding txt
parse_csv-to_csv_example = parse_csv-to_csv (row ∷ []) ((refl, (refl, tt)), tt)

-- A server that fails once.
abbrev flaky : Text → Payload → Act ℕ ℕ
flaky url payload n = (ok (if n == 0 then 500 else 204), suc n)

abbrev sample : Payload
sample = record {
  site_id = [];
  site_name = [];
  site_domain = [];
  lead_id = [];
  fields = [];
  source_utm = none;
  at = [];
}

deliver_webhook_lem_example : deliver_webhook flaky (λ n. n) (some (txt "h")) sample 0 ≡ (
  ok (retried flaky (λ n. n) (txt "h") sample (false, 1)).0,
  (retried flaky (λ n. n) (txt "h") sample (false, 1)).1,
)
unfolding txt answer
deliver_webhook_lem_example = deliver_webhook_lem flaky (λ n. n) (txt "h") sample 0 refl
