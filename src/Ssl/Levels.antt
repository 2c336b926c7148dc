-- ===== src/Ssl/Levels.antt =====
-- The levels in milliseconds.
use site_foundry.Ssl.{
  ℤ, SslStatus, not_issued, issuing, active, renewal_failed, SslAlertLevel, level_expired,
  level_renewal_failed, critical, warning, notice, day_ms, days_between, level_of, classify_ssl,
}
use site_foundry.Prelude.{ℕ, ◌+◌, ◌*◌, ◌≡◌, refl, Option, none, some, arith, ltb, if◌then◌else◌}

-- The level by the instant of expiry: past, or less than 2, 8 or 15 days away.
abbrev pub expected_level : SslStatus → Option ℕ → ℕ → Option SslAlertLevel
expected_level renewal_failed e now = some level_renewal_failed
expected_level not_issued e now = none
expected_level status none now = none
expected_level status (some e) now =
    if ltb e now
    then some level_expired
    else if ltb e (now + 2 * day_ms)
    then some critical
    else if ltb e (now + 8 * day_ms)
    then some warning
    else if ltb e (now + 15 * day_ms)
    then some notice
    else none

abbrev pub level_only : Option (SslAlertLevel × Option ℤ) → Option SslAlertLevel
level_only none = none
level_only (some (level, days)) = some level

pub level_of_days : (e now : ℕ) → level_of (days_between e now) ≡ expected_level active (some e) now
unfolding days_between
level_of_days e now = ground arith

-- `classifySsl` gives the level of the window in which the expiry lies, for every status, expiry
-- and time: 'expired' before now, 'critical' under 2 days, 'warning' under 8, 'notice' under 15.
pub classify_ssl_lem :
    (status : SslStatus) (expires : Option ℕ) (now : ℕ)
    → level_only (classify_ssl status expires now) ≡ expected_level status expires now
unfolding classify_ssl
classify_ssl_lem renewal_failed e now = refl
classify_ssl_lem not_issued e now = refl
classify_ssl_lem issuing none now = refl
classify_ssl_lem _ none now = refl
classify_ssl_lem _ (some e) now = ground (arith, level_of_days e now)
