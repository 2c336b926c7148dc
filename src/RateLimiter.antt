-- ===== src/RateLimiter.antt =====
-- The sliding-window limiters of the public endpoints: `SessionRateLimiter` of
-- apps/api/src/analytics/track.controller.ts and the `IpRateLimiter` of leads.controller.ts,
-- content.controller.ts and public-search.controller.ts. Times are the milliseconds of
-- `Date.now()`; a `Map` is its list of entries, in order of insertion.
pub mod Window
pub mod Bounds
mod Keys
mod Tests
use site_foundry.Prelude.{
  ℕ, ◌+◌, Bool, true, false, Option, none, some, List, [], ◌∷◌, ◌++◌, ltb, leb, if◌then◌else◌,
  or_else, length, keep,
}
use site_foundry.Text.{Text, text_eq}

-- The default arguments of `allow`, and the number of keys past which the table is emptied.
pub record Limits : Type 0 where
  pub limit : ℕ
  pub window_ms : ℕ
  pub max_keys : ℕ

abbrev pub track_limits : Limits
track_limits = record { limit = 60; window_ms = 60000; max_keys = 10000 }

abbrev pub lead_limits : Limits
lead_limits = record { limit = 5; window_ms = 60000; max_keys = 10000 }

abbrev pub content_limits : Limits
content_limits = record { limit = 12; window_ms = 60000; max_keys = 20000 }

abbrev pub search_limits : Limits
search_limits = record { limit = 15; window_ms = 60000; max_keys = 20000 }

abbrev pub Buckets : Type 0
Buckets = List (Text × List ℕ)

-- `buckets.get(key)`
unfoldable pub get : Text → Buckets → Option (List ℕ)
get key [] = none
get key ((k, hits) ∷ rest) = if text_eq k key then some hits else get key rest

-- `buckets.set(key, hits)`
unfoldable pub set : Text → List ℕ → Buckets → Buckets
set key hits [] = (key, hits) ∷ []
set key hits ((k, old) ∷ rest) =
    let later = set key hits rest in if text_eq k key then (k, hits) ∷ rest else (k, old) ∷ later

-- `now - t < windowMs`, where `t` may also lie after `now`
abbrev pub is_recent : ℕ → ℕ → ℕ → Bool
is_recent now window t = ltb now (t + window)

-- The hits of the key that are still in the window.
unfoldable pub recent : Limits → Text → ℕ → Buckets → List ℕ
recent c key now b = keep (is_recent now c.window_ms) (or_else (get key b) [])

unfoldable pub allow : Limits → Text → ℕ → Buckets → Bool × Buckets
allow c key now b =
    let hits = recent c key now b in
    let grown = set key (hits ++ now ∷ []) b in
    if leb c.limit (length hits)
    then (false, set key hits b)
    else (true, if ltb c.max_keys (length grown) then [] else grown)

-- A sequence of calls, and what each was answered.
pub record Call : Type 0 where
  pub key : Text
  pub at : ℕ

unfoldable pub run : Limits → Buckets → List Call → List (Call × Bool)
run c b [] = []
run c b (call ∷ calls) =
    let (admitted, b') = allow c call.key call.at b in (call, admitted) ∷ run c b' calls
