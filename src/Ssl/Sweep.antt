-- ===== src/Ssl/Sweep.antt =====
-- The daily sweep.
use site_foundry.Ssl.{active, SiteCert, classify_ssl, flip, sweep}
use site_foundry.Prelude.{ℕ, ◌≤◌, ◌≡◌, refl, some, List, [], ◌∷◌, map, arith, All}

-- The certificate is marked active and has not expired, or is not marked active.
abbrev pub IsCurrent : ℕ → SiteCert → Type 0
IsCurrent now s = s.ssl_status ≡ active → (e : ℕ) → s.ssl_expires_at ≡ some e → now ≤ e

flip-IsCurrent : (now : ℕ) (s : SiteCert) → IsCurrent now (flip now s)
flip-IsCurrent now s act e due = ground arith

-- After a sweep no certificate that is marked active has expired before the time of the sweep.
pub sweep-IsCurrent :
    (now later : ℕ) (sites : List SiteCert) → All (IsCurrent now) (sweep now later sites).0
unfolding sweep
sweep-IsCurrent now later [] = tt
sweep-IsCurrent now later (s ∷ sites) = (flip-IsCurrent now s, sweep-IsCurrent now later sites)

flip_idem : (now : ℕ) (s : SiteCert) → flip now (flip now s) ≡ flip now s
flip_idem now s = ground arith

-- A second sweep at the same times changes no site and logs the same alerts.
pub sweep_idem :
    (now later : ℕ) (sites : List SiteCert)
    → sweep now later (sweep now later sites).0 ≡ sweep now later sites
unfolding sweep
sweep_idem now later sites = rw (again sites) refl
  where
    again : (sites : List SiteCert) → map (flip now) (map (flip now) sites) ≡ map (flip now) sites
    again [] = refl
    again (s ∷ rest) = cc (flip_idem now s, again rest)

-- The sweep decides nothing that the alerts would not: a site has the same level before and after,
-- whatever its status was, at any time from the sweep on.
pub classify_ssl-flip :
    (now later : ℕ) (s : SiteCert)
    → classify_ssl (flip now s).ssl_status (flip now s).ssl_expires_at later
      ≡ classify_ssl s.ssl_status s.ssl_expires_at later
unfolding classify_ssl
classify_ssl-flip now later s = ground arith
