-- ===== src/Discovery/Visitors.antt =====
-- What a visitor's search answers.
use site_foundry.Discovery.Search.{
  Row, Settings, Cache, DiscoveryResponse, PublicResponse, is_match, nothing, normal_query,
  resolve_key, monthly_usage, search_shopping, public_miss, public_from, public_search,
}
use site_foundry.Effects.{Result, ok, err, pure, recover, continue, ◌>>=◌}
use site_foundry.Prelude.{
  ℕ, ◌≡◌, refl, inl, inr, false, ◌||◌, Option, none, some, ltb, leb, Bool-cases, length, find,
}
use site_foundry.Text.{Text, is_empty}

module _ (settings : Settings) where
  open settings use {Outside, monthly_cap}

  -- A search that returns, whatever the API does.
  abbrev pub Returns : Result PublicResponse × Cache Outside → Type 0
  Returns p = (answer : PublicResponse) × (p.0 ≡ ok answer)

  caught_lem :
      (r : Result DiscoveryResponse) (c : Cache Outside)
      → Returns (
          recover {A = PublicResponse}
            (λ e. pure nothing)
            (continue r
              (λ found. pure (record { results = found.results; cached = false; capped = false }))
              c))
  unfolding ◌>>=◌
  caught_lem (ok found) c = (_, refl)
  caught_lem (err e) c = (_, refl)

  miss_lem : (q gl : Text) (now : ℕ) (c : Cache Outside) → Returns (public_miss settings q gl now c)
  unfolding public_miss ◌>>=◌
  miss_lem q gl now c = elim (Bool-cases (leb monthly_cap (monthly_usage settings now c.rows))) [
    | inl spent ↦ rw spent (_, refl)
    | inr left ↦
        rw left (
          caught_lem (search_shopping settings q gl now c).0
            (search_shopping settings q gl now c).1)
  ]

  from_lem :
      (q gl : Text) (now : ℕ) (hit : Option Row) (c : Cache Outside)
      → Returns (public_from settings q gl now hit c)
  unfolding ◌>>=◌
  from_lem q gl now none c = miss_lem q gl now c
  from_lem q gl now (some r) c = (_, refl)

  -- A visitor's search always returns an answer: no failure of the API, nor a malformed answer of
  -- it, is an exception.
  pub public_search-Returns :
      (query gl : Text) (now : ℕ) (c : Cache Outside)
      → Returns (public_search settings query gl now c)
  unfolding public_search ◌>>=◌
  public_search-Returns query gl now c =
      elim (Bool-cases (ltb (length (normal_query query)) 2 || is_empty (resolve_key settings))) [
        | inl idle ↦ rw idle (_, refl)
        | inr asked ↦ rw asked (
            from_lem (normal_query query) gl now
              (find (is_match (normal_query query) gl now) c.rows) c)
      ]
