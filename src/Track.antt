-- ===== src/Track.antt =====
-- The beacon of deployed sites, apps/api/src/analytics/track.controller.ts with `recordVisit` of
-- analytics.service.ts. The parser of JSON, the URL parser, the clock and the mode of the process
-- are parameters. An id is a primary key, so `findUnique` is the first row with it.
mod Sound
mod Tests
use site_foundry.Json.{Json, str, arr, obj, prop, is_null, default_to, to_string}
use site_foundry.Effects.{
  bad_request, forbidden, type_error, Result, ok, thrown, Act, pure, lift, throw, gets, modify,
  guard, ◌>>=◌, ◌>>◌,
}
use site_foundry.RateLimiter.{track_limits, Buckets, allow}
use site_foundry.Web.{UrlParser, to_lower_case}
use site_foundry.Ssl.{SiteStatus, archived}
use site_foundry.Prelude.{
  ℕ, String, Bool, true, false, ◌&&◌, ◌||◌, not, Option, none, some, List, [], ◌∷◌, ◌++◌,
  if◌then◌else◌, or_else, take, any, find,
}
use site_foundry.Text.{Text, txt, text_eq, is_empty, includes}

abbrev pub event_names : List Text
event_names =
    txt "pageview"
    ∷ txt "search"
    ∷ txt "cta_click"
    ∷ txt "outbound_click"
    ∷ txt "push_prompt_shown"
    ∷ txt "push_subscribed"
    ∷ txt "lead_submit"
    ∷ []

pub record Site : Type 0 where
  pub id : Text
  pub tenant_id : Text
  pub domain : Text
  pub extra_domains : List Text
  pub status : SiteStatus

pub record Visit : Type 0 where
  pub tenant_id : Text
  pub site_id : Text
  pub event : Text
  pub session_id : Option Text
  pub utm_source : Option Text
  pub utm_medium : Option Text
  pub utm_campaign : Option Text
  pub utm_content : Option Text
  pub utm_term : Option Text
  pub referrer : Option Text
  pub path : Option Text
  pub device : Text
  pub browser : Text
  pub meta : Option Json

pub record Tables : Type 0 where
  pub sites : List Site
  pub visits : List Visit
  pub buckets : Buckets

-- What the handler reads of a request
pub record Beacon : Type 0 where
  pub body : Option Json
  pub ip : Option Text
  pub origin : Option Text
  pub user_agent : Text

-- What is a parameter
pub record Platform : Type 0 where
  pub parse_json : Text → Option Json
  pub parse_url : UrlParser
  pub is_production : Bool

-- `str`
unfoldable pub text_of : Json → ℕ → Option Text
text_of (str s) max = if is_empty s then none else some (take max s)
text_of _ max = none

-- `typeof v === 'string' ? v.slice(0, 64) : undefined`
abbrev session_of : Json → Option Text
session_of (str s) = some (take 64 s)
session_of _ = none

-- `typeof v === 'object' ? v : undefined`, which `null ?? undefined` drops when stored
abbrev meta_of : Json → Option Json
meta_of (obj fs) = some (obj fs)
meta_of (arr vs) = some (arr vs)
meta_of _ = none

abbrev mentions : Text → String → Bool
mentions agent name = includes (to_lower_case agent) (txt name)

pub device_of : Text → Text
device_of agent =
    if mentions agent "mobile" || mentions agent "android" || mentions agent "iphone"
    then txt "mobile"
    else if mentions agent "ipad" || mentions agent "tablet"
    then txt "tablet"
    else txt "desktop"

pub browser_of : Text → Text
browser_of agent =
    if mentions agent "edg/"
    then txt "edge"
    else if mentions agent "chrome"
    then txt "chrome"
    else if mentions agent "safari"
    then txt "safari"
    else if mentions agent "firefox"
    then txt "firefox"
    else txt "other"

abbrev pub is_archived : SiteStatus → Bool
is_archived archived = true
is_archived _ = false

-- `String(body[key] ?? '')`
abbrev string_of : Json → Text → Text
string_of body key = to_string (default_to (prop body key) (str []))

unfoldable pub visit_of : Site → Json → Text → Text → Visit
unfolding text_of
visit_of site body event agent = record {
  tenant_id = site.tenant_id;
  site_id = site.id;
  event = event;
  session_id = session_of (prop body (txt "session_id"));
  utm_source = text_of (prop body (txt "utm_source")) 200;
  utm_medium = text_of (prop body (txt "utm_medium")) 200;
  utm_campaign = text_of (prop body (txt "utm_campaign")) 200;
  utm_content = text_of (prop body (txt "utm_content")) 200;
  utm_term = text_of (prop body (txt "utm_term")) 200;
  referrer = text_of (prop body (txt "referrer")) 500;
  path = text_of (prop body (txt "path")) 300;
  device = device_of agent;
  browser = browser_of agent;
  meta = meta_of (prop body (txt "meta"));
}

unfoldable pub record_visit : Visit → Act Tables (Unit {0})
record_visit v = modify (λ db. record db { visits = db.visits ++ v ∷ [] })

-- `parseBody`
unfoldable pub parse_body : Platform → Option Json → Result Json
parse_body p (some (str s)) = elim (p.parse_json s) [
  | none ↦ thrown bad_request (txt "Body must be JSON")
  | some v ↦ ok v
]
parse_body p (some (obj fs)) = ok (obj fs)
parse_body p (some (arr vs)) = ok (arr vs)
parse_body p _ = thrown bad_request (txt "Empty body")

-- `new Set([site.domain, ...site.extraDomains].map(lower)).has(host)`
abbrev pub is_domain_of : Site → Text → Bool
is_domain_of site host =
    any (λ d. text_eq (to_lower_case d) host) (site.domain ∷ site.extra_domains)

-- The test of the origin, in production
unfoldable pub check_origin : Platform → Site → Option Text → Act Tables (Unit {0})
check_origin p site none = pure tt
check_origin p site (some origin) =
    if is_empty origin || not p.is_production then pure tt else elim (p.parse_url origin) [
      | none ↦ throw forbidden (txt "Bad origin")
      | some u ↦
          guard (is_domain_of site (to_lower_case u.hostname)) forbidden
            (txt "Origin not allowed for this site")
    ]

-- `track`, once the site is found
unfoldable pub track_site : Platform → Beacon → Json → Text → Site → Act Tables (Unit {0})
track_site p b body event site =
    if is_archived site.status
    then pure tt
    else (do check_origin p site b.origin; record_visit (visit_of site body event b.user_agent))

unfoldable pub track_found : Platform → Beacon → Json → Text → Option Site → Act Tables (Unit {0})
track_found p b body event none = pure tt
track_found p b body event (some site) = track_site p b body event site

-- `sessionId || req.ip || 'anon'`
abbrev caller : Option Text → Option Text → Text
caller session ip =
    if is_empty (or_else session [])
    then if is_empty (or_else ip []) then txt "anon" else or_else ip []
    else or_else session []

-- the call of the limiter
unfoldable pub admit : Text → ℕ → Act Tables Bool
admit key now db =
    let (admitted, b) = allow track_limits key now db.buckets in
    (ok admitted, record db { buckets = b })

-- `track`, once the limiter has answered
unfoldable pub track_event : Platform → Beacon → Json → Text → Text → Bool → Act Tables (Unit {0})
track_event p b body key event false = pure tt
track_event p b body key event true = do
  found ← gets (λ db. find (λ (s : Site). text_eq s.id key) db.sites)
  track_found p b body event found

-- `track`, once the key and the event are accepted
unfoldable pub track_valid : Platform → Beacon → ℕ → Json → Text → Text → Act Tables (Unit {0})
track_valid p b now body key event = do
  admitted ← admit (caller (session_of (prop body (txt "session_id"))) b.ip) now
  track_event p b body key event admitted

-- `!siteKey || !EVENTS.has(event)`, negated
abbrev pub is_valid : Text → Text → Bool
is_valid key event = not (is_empty key) && any (text_eq event) event_names

-- `track`, once the body is parsed
unfoldable pub track_body : Platform → Beacon → ℕ → Json → Act Tables (Unit {0})
track_body p b now body = do
  guard (not (is_null body)) type_error (txt "Cannot read properties of null")
  guard (is_valid (string_of body (txt "site_key")) (string_of body (txt "event"))) bad_request
      (txt "site_key and a valid event are required")
  track_valid p b now body (string_of body (txt "site_key")) (string_of body (txt "event"))

unfoldable pub track : Platform → Beacon → ℕ → Act Tables (Unit {0})
track p b now = do body ← lift (parse_body p b.body); track_body p b now body
