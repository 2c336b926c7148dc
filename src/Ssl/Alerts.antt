-- ===== src/Ssl/Alerts.antt =====
-- The alerts against a description of their own: which sites have one, what it says, and how urgent
-- it is.
use mathlib.Core.List.{Perm}
use mathlib.Core.List.Perm
use site_foundry.Ssl.{
  ℤ, SslStatus, not_issued, issuing, renewal_failed, SslAlertLevel, level_expired,
  level_renewal_failed, critical, warning, notice, SiteCert, SslAlert, days_between, level_of,
  with_days, classify_ssl, add_alert, alerts_of, rank, insert_alert, sort_alerts, classify_many,
}
use site_foundry.Ssl.Levels.{expected_level, level_of_days}
use site_foundry.Prelude.{
  ℕ, ◌+◌, ◌≤◌, ◌≡◌, refl, ap, subst, ◌∙◌, inl, inr, Option, none, some, List, [], ◌∷◌, arith, leb,
  leb→le, Bool-cases, All,
}

-- How urgent an alert is, an expired certificate most of all
abbrev pub urgency : SslAlertLevel → ℕ
urgency level_expired = 5
urgency level_renewal_failed = 4
urgency critical = 3
urgency warning = 2
urgency notice = 1

-- No later alert is more urgent.
abbrev pub IsSorted : List SslAlert → Type 0
IsSorted [] = Unit
IsSorted (a ∷ rest) = All (λ b. urgency b.level ≤ urgency a.level) rest × IsSorted rest

-- The whole days that are left, for an alert that counts them
abbrev pub days_of : SslStatus → Option ℕ → ℕ → Option ℤ
days_of renewal_failed e now = none
days_of status none now = none
days_of status (some e) now = some (days_between e now)

-- One alert for each site whose certificate has a level, in the order of the sites
abbrev pub expected_alerts : ℕ → List SiteCert → List SslAlert
expected_alerts now [] = []
expected_alerts now (s ∷ sites) =
    let rest = expected_alerts now sites in
    elim (expected_level s.ssl_status s.ssl_expires_at now) [
      | none ↦ rest
      | some level ↦
          record {
            site_id = s.id;
            name = s.name;
            domain = s.domain;
            ssl_status = s.ssl_status;
            ssl_expires_at = s.ssl_expires_at;
            days_left = days_of s.ssl_status s.ssl_expires_at now;
            level = level;
          }
          ∷ rest
    ]

-- A result with the days of the site
abbrev timed : Option ℤ → Option SslAlertLevel → Option (SslAlertLevel × Option ℤ)
timed days none = none
timed days (some level) = some (level, days)

with_days_lem : (d : ℤ) (o : Option SslAlertLevel) → with_days d o ≡ timed (some d) o
with_days_lem d none = refl
with_days_lem d (some level) = refl

classify_ssl_full :
    (status : SslStatus) (e : Option ℕ) (now : ℕ)
    → classify_ssl status e now ≡ timed (days_of status e now) (expected_level status e now)
unfolding classify_ssl
classify_ssl_full renewal_failed e now = refl
classify_ssl_full not_issued e now = refl
classify_ssl_full issuing none now = refl
classify_ssl_full _ none now = refl
classify_ssl_full _ (some e) now =
    with_days_lem (days_between e now) (level_of (days_between e now))
    ∙ ap (timed (some (days_between e now))) (level_of_days e now)

alerts_of_lem : (now : ℕ) (sites : List SiteCert) → alerts_of now sites ≡ expected_alerts now sites
unfolding alerts_of
alerts_of_lem now [] = refl
alerts_of_lem now (s ∷ sites) =
    ap (λ r. add_alert s r (alerts_of now sites))
      (classify_ssl_full s.ssl_status s.ssl_expires_at now)
    ∙ ap
        (add_alert s (
          timed (days_of s.ssl_status s.ssl_expires_at now)
            (expected_level s.ssl_status s.ssl_expires_at now)))
        (alerts_of_lem now sites)
    ∙ added s (days_of s.ssl_status s.ssl_expires_at now) _
  where
    added :
        (s : SiteCert) (days : Option ℤ) (level : Option SslAlertLevel)
        → add_alert s (timed days level) (expected_alerts now sites) ≡ (elim level [
          | none ↦ expected_alerts now sites
          | some l ↦
              record {
                site_id = s.id;
                name = s.name;
                domain = s.domain;
                ssl_status = s.ssl_status;
                ssl_expires_at = s.ssl_expires_at;
                days_left = days;
                level = l;
              }
              ∷ expected_alerts now sites
        ])
    added s days none = refl
    added s days (some l) = refl

rank-urgency : (l : SslAlertLevel) → rank l + urgency l ≡ 5
rank-urgency level_expired = refl
rank-urgency level_renewal_failed = refl
rank-urgency critical = refl
rank-urgency warning = refl
rank-urgency notice = refl

-- Sorted by the code's own ranks
abbrev IsRanked : List SslAlert → Type 0
IsRanked [] = Unit
IsRanked (a ∷ rest) = All (λ b. rank a.level ≤ rank b.level) rest × IsRanked rest

All-insert_alert :
    (n : ℕ) (a : SslAlert) (rest : List SslAlert)
    → n ≤ rank a.level
    → All (λ b. n ≤ rank b.level) rest
    → All (λ b. n ≤ rank b.level) (insert_alert a rest)
unfolding insert_alert
All-insert_alert n a [] le h = (le, tt)
All-insert_alert n a (b ∷ bs) le (p, h) = ground (arith, All-insert_alert n a bs le h)

All-weaken :
    (n m : ℕ) (rest : List SslAlert)
    → n ≤ m
    → All (λ b. m ≤ rank b.level) rest
    → All (λ b. n ≤ rank b.level) rest
All-weaken n m [] le h = tt
All-weaken n m (b ∷ bs) le (p, h) = (omega arith, All-weaken n m bs le h)

insert_alert-IsRanked :
    (a : SslAlert) (rest : List SslAlert) → IsRanked rest → IsRanked (insert_alert a rest)
unfolding insert_alert
insert_alert-IsRanked a [] h = (tt, tt)
insert_alert-IsRanked a (b ∷ bs) (p, h) = elim (Bool-cases (leb (rank a.level) (rank b.level))) [
  | inl first ↦ rw first (
    ((leb→le _ _ first), All-weaken (rank a.level) (rank b.level) bs (leb→le _ _ first) p),
    (p, h),
  )
  | inr later ↦
      rw later (All-insert_alert (rank b.level) a bs (ground arith) p, insert_alert-IsRanked a bs h)
]

sort_alerts-IsRanked : (alerts : List SslAlert) → IsRanked (sort_alerts alerts)
unfolding sort_alerts
sort_alerts-IsRanked [] = tt
sort_alerts-IsRanked (a ∷ rest) =
    insert_alert-IsRanked a (sort_alerts rest) (sort_alerts-IsRanked rest)

insert_alert-perm : (a : SslAlert) (rest : List SslAlert) → Perm (insert_alert a rest) (a ∷ rest)
unfolding insert_alert
insert_alert-perm a [] = Perm.refl _
insert_alert-perm a (b ∷ bs) = elim (Bool-cases (leb (rank a.level) (rank b.level))) [
  | inl first ↦ rw first (Perm.refl _)
  | inr later ↦ rw later (Perm.trans (Perm.cons b (insert_alert-perm a bs)) (Perm.swap a b bs))
]

sort_alerts-perm : (alerts : List SslAlert) → Perm (sort_alerts alerts) alerts
unfolding sort_alerts
sort_alerts-perm [] = Perm.refl _
sort_alerts-perm (a ∷ rest) =
    Perm.trans (insert_alert-perm a (sort_alerts rest)) (Perm.cons a (sort_alerts-perm rest))

All-urgency :
    (a : SslAlert) (rest : List SslAlert)
    → All (λ b. rank a.level ≤ rank b.level) rest
    → All (λ b. urgency b.level ≤ urgency a.level) rest
All-urgency a [] h = tt
All-urgency a (b ∷ bs) (le, h) =
    (omega (arith, rank-urgency a.level, rank-urgency b.level), All-urgency a bs h)

IsRanked-IsSorted : (alerts : List SslAlert) → IsRanked alerts → IsSorted alerts
IsRanked-IsSorted [] h = tt
IsRanked-IsSorted (a ∷ rest) (p, h) = (All-urgency a rest p, IsRanked-IsSorted rest h)

-- `classifyMany` returns the alerts most urgent first, from 'expired' over 'renewal_failed',
-- 'critical' and 'warning' to 'notice'. They are one for each site whose renewal failed, or whose
-- certificate has expired or expires in less than 15 days, with the site's columns, the level of the
-- window in which the expiry lies and, unless the renewal failed, the whole days left; no other site
-- has one.
pub classify_many_lem :
    (now : ℕ) (sites : List SiteCert)
    → IsSorted (classify_many now sites)
      × Perm (classify_many now sites) (expected_alerts now sites)
unfolding classify_many
classify_many_lem now sites = (
  IsRanked-IsSorted _ (sort_alerts-IsRanked (alerts_of now sites)),
  subst (Perm (sort_alerts (alerts_of now sites))) (alerts_of_lem now sites)
      (sort_alerts-perm (alerts_of now sites)),
)
