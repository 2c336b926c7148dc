-- ===== src/Discovery/Again.antt =====
-- A search that is asked again.
use site_foundry.Discovery.Search.{
  Row, Settings, Cache, DiscoveryResponse, ttl_ms, is_match, normal_query, resolve_key, ask,
  store_results, search_api, search_from, search_query, search_shopping,
}
use site_foundry.Discovery.Product.{DiscoveredProduct, normalize_shopping_results}
use site_foundry.Json.{Json}
use site_foundry.Effects.{Result, ok, err, lift, continue, ◌>>=◌}
use site_foundry.Prelude.{
  ℕ, ◌+◌, ◌≤◌, ◌≡◌, refl, subst, inl, inr, true, false, Option, none, some, List, arith, leb,
  Bool-cases, length, find,
}
use site_foundry.Text.{Text, text_eq_refl, is_empty}

module _ (settings : Settings) where
  open settings use {Outside}

  -- What the same search at a later time gives, after an answer that came from the API: the same
  -- products, from the cache, and nothing is changed or asked of the API.
  abbrev Again : Text → Text → ℕ → Result DiscoveryResponse × Cache Outside → Type 0
  Again q gl later (err e, c) = Unit
  Again q gl later (ok found, c) =
      found.cached ≡ false
      → (again : DiscoveryResponse) × (search_query settings q gl later c ≡ (ok again, c))
        × (again.cached ≡ true)
        × (again.results ≡ found.results)

  module _ (q gl : Text) (now later : ℕ) (soon : later ≤ now + ttl_ms)
      (long : leb 2 (length q) ≡ true) (keyed : is_empty (resolve_key settings) ≡ false) where
    match_lem :
        (results : List DiscoveredProduct)
        → is_match q gl later (record { query = q; gl = gl; fetched_at = now; results = results })
          ≡ true
    match_lem results = rw (text_eq_refl q, text_eq_refl gl) (ground arith)

    stored_lem :
        (r : Result (List DiscoveredProduct)) (c : Cache Outside)
        → Again q gl later (continue r (store_results settings q gl now) c)
    unfolding store_results search_query ◌>>=◌
    stored_lem (err e) c = tt
    stored_lem (ok results) c = λ fresh. rw (long, keyed, match_lem results) (_, refl, refl, refl)

    normalized_lem :
        (r : Result Json) (c : Cache Outside)
        → Again q gl later (
            continue r
              (λ raw. lift (normalize_shopping_results raw) >>= store_results settings q gl now)
              c)
    unfolding ◌>>=◌
    normalized_lem (ok raw) c = stored_lem (normalize_shopping_results raw) c
    normalized_lem (err e) c = tt

    search_from_lem :
        (hit : Option Row) (c : Cache Outside)
        → Again q gl later (search_from settings (resolve_key settings) q gl now hit c)
    unfolding search_api ◌>>=◌
    search_from_lem none c =
        normalized_lem (ask settings (resolve_key settings) q gl c).0
          (ask settings (resolve_key settings) q gl c).1
    search_from_lem (some r) c = λ fresh. absurd (cc)

  search_query_lem :
      (q gl : Text) (now later : ℕ) (c : Cache Outside)
      → later ≤ now + ttl_ms
      → Again q gl later (search_query settings q gl now c)
  unfolding search_query ◌>>=◌
  search_query_lem q gl now later c soon = elim (Bool-cases (leb 2 (length q))) [
    | inr short ↦ rw short tt
    | inl long ↦ elim (Bool-cases (is_empty (resolve_key settings))) [
      | inl keyless ↦ rw (long, keyless) tt
      | inr keyed ↦
          rw (long, keyed)
            (search_from_lem q gl now later soon long keyed (find (is_match q gl now) c.rows) c)
    ]
  ]

  -- After a search that was answered by the API, the same search within seven days is answered from
  -- the cache, with the same products; it changes nothing and asks nothing of the API.
  pub search_shopping-search_shopping :
      (query gl : Text) (now later : ℕ) (c c' : Cache Outside) (found : DiscoveryResponse)
      → search_shopping settings query gl now c ≡ (ok found, c')
      → found.cached ≡ false
      → later ≤ now + ttl_ms
      → (again : DiscoveryResponse) × (search_shopping settings query gl later c' ≡ (ok again, c'))
        × (again.cached ≡ true)
        × (again.results ≡ found.results)
  unfolding search_shopping
  search_shopping-search_shopping query gl now later c c' found e paid soon =
      subst (Again (normal_query query) gl later) e
        (search_query_lem (normal_query query) gl now later c soon) paid
