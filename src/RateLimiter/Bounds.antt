-- ===== src/RateLimiter/Bounds.antt =====
-- The memory of a limiter: the keys that it holds, and the hits under each.
use site_foundry.RateLimiter.{Limits, Buckets, get, set, recent, allow, Call}
use site_foundry.RateLimiter.Window.{length-recent}
use site_foundry.Prelude.{
  ℕ, ◌+◌, ◌≤◌, ◌<◌, ◌≡◌, refl, inl, inr, Bool, true, false, List, [], ◌∷◌, ◌++◌, arith, ltb, leb,
  if◌then◌else◌, Bool-cases, or_else, is_some, length, length-append, All,
}
use site_foundry.Text.{Text}

-- The table after a sequence of calls.
abbrev pub after : Limits → Buckets → List Call → Buckets
after c b [] = b
after c b (call ∷ calls) = after c (allow c call.key call.at b).1 calls

pub record IsBounded (c : Limits) (b : Buckets) : Type 0 where
  pub keys : length b ≤ c.max_keys
  pub hits : All (λ e. length e.1 ≤ c.limit) b

length-set :
    (key : Text) (hits : List ℕ) (b : Buckets)
    → length (set key hits b) ≡ length b + (if is_some (get key b) then 0 else 1)
unfolding get set
length-set key hits [] = refl
length-set key hits ((k, old) ∷ rest) = ground (arith, length-set key hits rest)

All-set :
    (n : ℕ) (key : Text) (hits : List ℕ) (b : Buckets)
    → length hits ≤ n
    → All (λ e. length e.1 ≤ n) b
    → All (λ e. length e.1 ≤ n) (set key hits b)
unfolding set
All-set n key hits [] le h = (le, tt)
All-set n key hits ((k, old) ∷ rest) le (p, h) = ground (arith, All-set n key hits rest le h)

length-get :
    (n : ℕ) (key : Text) (b : Buckets)
    → All (λ e. length e.1 ≤ n) b
    → length (or_else (get key b) []) ≤ n
unfolding get
length-get n key [] h = omega arith
length-get n key ((k, old) ∷ rest) (p, h) = ground (arith, length-get n key rest h)

All-if :
    (n : ℕ) (emptied : Bool) (b : Buckets)
    → All (λ e. length e.1 ≤ n) b
    → All (λ e. length e.1 ≤ n) (if emptied then [] else b)
All-if n true b h = tt
All-if n false b h = h

-- A refused call adds no key: only a key that is held has hits.
get-eq-some_of_recent :
    (c : Limits) (key : Text) (now : ℕ) (b : Buckets)
    → 0 < length (recent c key now b)
    → is_some (get key b) ≡ true
get-eq-some_of_recent c key now b h = ground (arith, length-recent c key now b)

allow-IsBounded :
    (c : Limits) (key : Text) (now : ℕ) (b : Buckets)
    → 0 < c.limit
    → IsBounded c b
    → IsBounded c (allow c key now b).1
unfolding allow
allow-IsBounded c key now b pos h = record {
  keys = ground (arith, length-set key (recent c key now b) b, get-eq-some_of_recent c key now b);
  hits = elim (Bool-cases (leb c.limit (length (recent c key now b)))) [
    | inl full ↦ rw full (
        All-set c.limit key (recent c key now b) b (omega (arith, length-recent c key now b, held))
          h.hits)
    | inr free ↦ rw free (
        All-if c.limit (ltb c.max_keys (length (set key (recent c key now b ++ now ∷ []) b)))
          (set key (recent c key now b ++ now ∷ []) b)
          (All-set c.limit key (recent c key now b ++ now ∷ []) b
            (ground (arith, length-append (recent c key now b) (now ∷ []))) h.hits))
  ];
}
  where
    held : length (or_else (get key b) []) ≤ c.limit
    held = length-get c.limit key b h.hits

-- From an empty table, whatever the calls, a limiter never holds more than `max_keys` keys, nor
-- more than `limit` hits under one of them, if the limit is positive.
pub after-IsBounded :
    (c : Limits) (calls : List Call) → 0 < c.limit → IsBounded c (after c [] calls)
after-IsBounded c calls pos = go calls [] (record { keys = omega arith; hits = tt })
  where
    go : (calls : List Call) (b : Buckets) → IsBounded c b → IsBounded c (after c b calls)
    go [] b h = h
    go (call ∷ calls) b h =
        go calls (allow c call.key call.at b).1 (allow-IsBounded c call.key call.at b pos h)
