-- ===== src/Track/Tests.antt =====
-- A beacon from a deployed site, and the theorem at that input.
use site_foundry.Track.{
  Site, Tables, Beacon, Platform, record_visit, parse_body, check_origin, track_site, track_found,
  admit, track_event, track_valid, track_body, track,
}
use site_foundry.Track.Sound.{Leaves, track-Leaves}
use site_foundry.Json.{str, obj, end, member, prop, to_string}
use site_foundry.Effects.{◌>>=◌}
use site_foundry.RateLimiter.{get, recent, allow}
use site_foundry.Web.{UrlParser, to_lower_case}
use site_foundry.Ssl.{published}
use site_foundry.Prelude.{◌≡◌, refl, true, none, some, [], ◌∷◌, if◌then◌else◌, length}
use site_foundry.Text.{Text, txt, text_eq}

abbrev parser : UrlParser
parser s =
    if text_eq s (txt "https://Shop.test")
    then some (record { protocol = txt "https:"; hostname = txt "Shop.test" })
    else none

abbrev platform : Platform
platform = record { parse_json = λ s. none; parse_url = parser; is_production = true }

abbrev shop : Site
shop = record {
  id = txt "s1";
  tenant_id = txt "t";
  domain = txt "shop.test";
  extra_domains = [];
  status = published;
}

abbrev tables : Tables
tables = record { sites = shop ∷ []; visits = []; buckets = [] }

abbrev beacon : Text → Beacon
beacon origin = record {
  body = some (
      obj (
        member (txt "site_key") (str (txt "s1"))
          (member (txt "event") (str (txt "pageview")) (member (txt "path") (str (txt "/")) end))));
  ip = none;
  origin = some origin;
  user_agent = txt "Firefox on Android";
}

-- The visit is recorded from the origin of the site, and from no other.
track_test :
    (length (track platform (beacon (txt "https://Shop.test")) 5 tables).1.visits ≡ 1)
    × (length (track platform (beacon (txt "https://evil.test")) 5 tables).1.visits ≡ 0)
unfolding track track_body track_valid track_event track_found track_site check_origin record_visit
    admit allow parse_body to_string prop txt text_eq to_lower_case ◌>>=◌ recent get
track_test = (refl, refl)

track-Leaves_example :
    Leaves platform
      (beacon (txt "https://Shop.test"))
      tables
      (track platform (beacon (txt "https://Shop.test")) 5 tables).1
track-Leaves_example = track-Leaves platform (beacon (txt "https://Shop.test")) 5 tables
