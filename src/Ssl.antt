-- ===== src/Ssl.antt =====
-- The certificate monitor, apps/api/src/ssl/ssl-monitor.service.ts. A `Date` is its whole number of
-- milliseconds since 1970. `sweep` returns the alerts that the source writes to its log.
pub mod Levels
pub mod Alerts
pub mod Sweep
mod Tests
use site_foundry.Prelude.{
  ℕ, ◌-◌, ◌/◌, Bool, true, false, ◌&&◌, Option, none, some, List, [], ◌∷◌, map, ltb, leb,
  if◌then◌else◌, keep,
}
use site_foundry.Text.{Text}

-- `Math.floor` of a quotient may lie below 0: `negsuc n` is -(n + 1).
pub data ℤ : Type 0 where
  pos : ℕ → ℤ
  negsuc : ℕ → ℤ

-- `sslStatus`; `not_issued` is the source's 'none'.
pub data SslStatus : Type 0 where
  not_issued issuing active renewal_failed expired : SslStatus

-- `status` of a site
pub data SiteStatus : Type 0 where
  draft building published paused archived : SiteStatus

pub data SslAlertLevel : Type 0 where
  level_expired level_renewal_failed critical warning notice : SslAlertLevel

pub record SiteCert : Type 0 where
  pub id : Text
  pub name : Text
  pub domain : Text
  pub status : SiteStatus
  pub ssl_status : SslStatus
  pub ssl_expires_at : Option ℕ

pub record SslAlert : Type 0 where
  pub site_id : Text
  pub name : Text
  pub domain : Text
  pub ssl_status : SslStatus
  pub ssl_expires_at : Option ℕ
  pub days_left : Option ℤ
  pub level : SslAlertLevel

abbrev pub day_ms : ℕ
day_ms = 86400000

-- `Math.floor((expires - now) / 86_400_000)`
unfoldable pub days_between : ℕ → ℕ → ℤ
days_between expires now =
    if leb now expires
    then pos ((expires - now) / day_ms)
    else negsuc ((now - expires - 1) / day_ms)

abbrev pub level_of : ℤ → Option SslAlertLevel
level_of (negsuc n) = some level_expired
level_of (pos n) =
    if leb n 1
    then some critical
    else if leb n 7
    then some warning
    else if leb n 14
    then some notice
    else none

-- The tests on the days that are left; the level comes with them.
abbrev pub with_days : ℤ → Option SslAlertLevel → Option (SslAlertLevel × Option ℤ)
with_days days none = none
with_days days (some level) = some (level, some days)

unfoldable pub classify_ssl : SslStatus → Option ℕ → ℕ → Option (SslAlertLevel × Option ℤ)
unfolding days_between
classify_ssl renewal_failed expires now = some (level_renewal_failed, none)
classify_ssl not_issued expires now = none
classify_ssl status none now = none
classify_ssl status (some e) now = with_days (days_between e now) (level_of (days_between e now))

abbrev alert_of : SiteCert → SslAlertLevel × Option ℤ → SslAlert
alert_of s (level, days) = record {
  site_id = s.id;
  name = s.name;
  domain = s.domain;
  ssl_status = s.ssl_status;
  ssl_expires_at = s.ssl_expires_at;
  days_left = days;
  level = level;
}

abbrev pub add_alert : SiteCert → Option (SslAlertLevel × Option ℤ) → List SslAlert → List SslAlert
add_alert s none alerts = alerts
add_alert s (some result) alerts = alert_of s result ∷ alerts

-- The loop of `classifyMany`
pub alerts_of : ℕ → List SiteCert → List SslAlert
alerts_of now [] = []
alerts_of now (s ∷ sites) =
    add_alert s (classify_ssl s.ssl_status s.ssl_expires_at now) (alerts_of now sites)

-- `order.indexOf(level)`
abbrev pub rank : SslAlertLevel → ℕ
rank level_expired = 0
rank level_renewal_failed = 1
rank critical = 2
rank warning = 3
rank notice = 4

-- `Array.prototype.sort` is stable: equal ranks keep their order.
pub insert_alert : SslAlert → List SslAlert → List SslAlert
insert_alert a [] = a ∷ []
insert_alert a (b ∷ bs) =
    let later = insert_alert a bs in
    if leb (rank a.level) (rank b.level) then a ∷ b ∷ bs else b ∷ later

pub sort_alerts : List SslAlert → List SslAlert
unfolding insert_alert
sort_alerts [] = []
sort_alerts (a ∷ as') = insert_alert a (sort_alerts as')

unfoldable pub classify_many : ℕ → List SiteCert → List SslAlert
unfolding sort_alerts alerts_of
classify_many now sites = sort_alerts (alerts_of now sites)

abbrev pub is_listed : SiteStatus → Bool
is_listed published = true
is_listed paused = true
is_listed _ = false

-- `collectAll`, and `alertsFor` over the sites that the tenant sees
unfoldable pub collect_all : ℕ → List SiteCert → List SslAlert
unfolding classify_many
collect_all now sites = classify_many now (keep (λ s. is_listed s.status) sites)

abbrev is_past : Option ℕ → ℕ → Bool
is_past none now = false
is_past (some e) now = ltb e now

abbrev is_active : SslStatus → Bool
is_active active = true
is_active _ = false

-- `updateMany` of `sweep`: one row
abbrev pub flip : ℕ → SiteCert → SiteCert
flip now s =
    if is_active s.ssl_status && is_past s.ssl_expires_at now
    then record s { ssl_status = expired }
    else s

-- The clock is read for the update, and again for the alerts.
unfoldable pub sweep : ℕ → ℕ → List SiteCert → List SiteCert × List SslAlert
unfolding collect_all
sweep now later sites = (map (flip now) sites, collect_all later (map (flip now) sites))
