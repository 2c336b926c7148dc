-- ===== src/Ssl/Tests.antt =====
-- The monitor at concrete certificates, and the theorems at inputs.
use mathlib.Core.List.{Perm}
use site_foundry.Ssl.{
  negsuc, SslStatus, active, renewal_failed, published, SslAlertLevel, level_expired,
  level_renewal_failed, critical, SiteCert, SslAlert, days_between, classify_ssl, classify_many,
  sweep,
}
use site_foundry.Ssl.Levels.{level_only, classify_ssl_lem}
use site_foundry.Ssl.Alerts.{IsSorted, expected_alerts, classify_many_lem}
use site_foundry.Ssl.Sweep.{IsCurrent, sweep-IsCurrent}
use site_foundry.Prelude.{ℕ, ◌≡◌, refl, Option, none, some, List, [], ◌∷◌, All}
use site_foundry.Text.{txt}

abbrev cert : SslStatus → Option ℕ → SiteCert
cert status expires = record {
  id = txt "s1";
  name = txt "Shop";
  domain = txt "shop.example";
  status = published;
  ssl_status = status;
  ssl_expires_at = expires;
}

abbrev certs : List SiteCert
certs =
    cert active (some 86400000)
    ∷ cert active (some 10)
    ∷ cert renewal_failed none
    ∷ cert active none
    ∷ []

abbrev levels : List SslAlert → List SslAlertLevel
levels [] = []
levels (a ∷ rest) = a.level ∷ levels rest

levels-sweep :
    levels (sweep 1000 2000 certs).1 ≡ level_expired ∷ level_renewal_failed ∷ critical ∷ []
unfolding sweep classify_ssl
levels-sweep = refl

days_test : days_between 0 1 ≡ negsuc 0
unfolding days_between
days_test = refl

classify_ssl_lem_example : level_only (classify_ssl active (some 86400000) 1000) ≡ some critical
classify_ssl_lem_example = classify_ssl_lem active (some 86400000) 1000

classify_many_lem_example :
    IsSorted (classify_many 1000 certs)
    × Perm (classify_many 1000 certs) (expected_alerts 1000 certs)
classify_many_lem_example = classify_many_lem 1000 certs

sweep-IsCurrent_example : All (IsCurrent 1000) (sweep 1000 2000 certs).0
sweep-IsCurrent_example = sweep-IsCurrent 1000 2000 certs
