-- ===== src/Discovery/Cap.antt =====
-- The budget of the paid API under the searches of visitors.
use site_foundry.Discovery.Search.{
  Row, Settings, Cache, DiscoveryResponse, PublicResponse, is_match, nothing, normal_query,
  usage_since, call_out, resolve_key, monthly_usage, ask, store_results, search_api, search_from,
  search_query, search_shopping, public_miss, public_from, public_search,
}
use site_foundry.Discovery.Product.{DiscoveredProduct, normalize_shopping_results}
use site_foundry.Json.{Json}
use site_foundry.Effects.{Kind, Result, ok, err, Act, pure, lift, recover, guard, continue, ◌>>=◌}
use site_foundry.Effects.Keeps.{Keeps, keeps_rules}
use site_foundry.Prelude.{
  ℕ, ◌≤◌, ◌<◌, ◌≡◌, refl, ap, subst, ◌∙◌, ◌⊎◌, inl, inr, Bool, true, false, ◌||◌, not, Option, none,
  some, List, [], ◌∷◌, arith, ltb, leb, Bool-cases, length, find, All,
}
use site_foundry.Text.{Text, is_empty}

-- A search of a visitor.
pub record Visit : Type 0 where
  pub query : Text
  pub gl : Text
  pub at : ℕ

module _ (settings : Settings) where
  open settings use {Outside, month_start, monthly_cap}

  unfoldable pub serve_visits : List Visit → Cache Outside → Cache Outside
  serve_visits [] c = c
  serve_visits (v ∷ vs) c = serve_visits vs (public_search settings v.query v.gl v.at c).1

  -- The cache is as it was, or has one row more.
  abbrev Step : List Row → Cache Outside → Type 0
  Step rows c = (c.rows ≡ rows) ⊎ ((r : Row) × (c.rows ≡ r ∷ rows))

  abbrev HasRows : List Row → Cache Outside → Type 0
  HasRows rows c = c.rows ≡ rows

  HasRows-call :
      (rows : List Row) {A : Type 0} (m : Act Outside A)
      → Keeps (HasRows rows) (call_out settings m)
  unfolding call_out
  HasRows-call rows m = record { at = λ c h. h }

  HasRows-ask : (rows : List Row) (key q gl : Text) → Keeps (HasRows rows) (ask settings key q gl)
  unfolding ask
  HasRows-ask rows key q gl = search (keeps_rules, HasRows-call)

  module _ (rows : List Row) (q gl : Text) (now : ℕ) where
    stored_lem :
        (r : Result (List DiscoveredProduct)) (c : Cache Outside)
        → HasRows rows c
        → Step rows (continue r (store_results settings q gl now) c).1
    unfolding store_results ◌>>=◌
    stored_lem (ok results) c h =
        let row : Row = record { query = q; gl = gl; fetched_at = now; results = results } in
        inr (row, ap (λ rs. row ∷ rs) h)
    stored_lem (err e) c h = inl h

    normalized_lem :
        (r : Result Json) (c : Cache Outside)
        → HasRows rows c
        → Step rows
            (continue r
              (λ raw. lift (normalize_shopping_results raw) >>= store_results settings q gl now)
              c).1
    unfolding ◌>>=◌
    normalized_lem (ok raw) c h = stored_lem (normalize_shopping_results raw) c h
    normalized_lem (err e) c h = inl h

    search_from_lem :
        (key : Text) (hit : Option Row) (c : Cache Outside)
        → HasRows rows c
        → Step rows (search_from settings key q gl now hit c).1
    unfolding search_api ◌>>=◌
    search_from_lem key none c h =
        normalized_lem (ask settings key q gl c).0 (ask settings key q gl c).1
          ((HasRows-ask rows key q gl).at c h)
    search_from_lem key (some r) c h = inl h

    guarded_lem :
        {A : Type 0} (b : Bool) (k : Kind) (message : Text) (rest : Act (Cache Outside) A)
        (c : Cache Outside)
        → HasRows rows c
        → Step rows (rest c).1
        → Step rows ((guard b k message >>= λ _. rest) c).1
    unfolding ◌>>=◌
    guarded_lem true k message rest c h step = step
    guarded_lem false k message rest c h step = inl h

    search_query_lem :
        (c : Cache Outside) → HasRows rows c → Step rows (search_query settings q gl now c).1
    unfolding search_query ◌>>=◌
    search_query_lem c h = guarded_lem (leb 2 (length q)) _ _ _ c h (
        guarded_lem (not (is_empty (resolve_key settings))) _ _ _ c h
          (search_from_lem (resolve_key settings) (find (is_match q gl now) c.rows) c h))

    kept_or_capped :
        (r : Result DiscoveryResponse) (c : Cache Outside)
        → Step rows c
        → Step rows
            (recover {A = PublicResponse}
              (λ e. pure nothing)
              (continue r
                (λ found. pure (record { results = found.results; cached = false; capped = false }))
                c)).1
    unfolding ◌>>=◌
    kept_or_capped (ok found) c step = step
    kept_or_capped (err e) c step = step

  -- The cache is as it was, or has one row more and was below the cap.
  abbrev Paid : ℕ → List Row → Cache Outside → Type 0
  Paid now rows c =
      (c.rows ≡ rows)
      ⊎ ((r : Row) × (c.rows ≡ r ∷ rows) × (monthly_usage settings now rows < monthly_cap))

  public_miss_lem :
      (q gl : Text) (now : ℕ) (c : Cache Outside)
      → Paid now c.rows (public_miss settings q gl now c).1
  unfolding public_miss search_shopping ◌>>=◌
  public_miss_lem q gl now c =
      elim (Bool-cases (leb monthly_cap (monthly_usage settings now c.rows))) [
        | inl spent ↦ rw spent (inl refl)
        | inr left ↦ rw left (paid _ left (searched (normal_query q)))
      ]
    where
      searched :
          (query : Text)
          → Step c.rows
              (recover {A = PublicResponse}
                (λ e. pure nothing)
                (continue
                  (search_query settings query gl now c).0
                  (λ found.
                    pure (record { results = found.results; cached = false; capped = false }))
                  (search_query settings query gl now c).1)).1
      searched query =
          kept_or_capped c.rows query gl now _ _ (search_query_lem c.rows query gl now c refl)

      paid :
          (rows : List Row)
          → leb monthly_cap (monthly_usage settings now c.rows) ≡ false
          → (rows ≡ c.rows) ⊎ ((r : Row) × (rows ≡ r ∷ c.rows))
          → (rows ≡ c.rows)
            ⊎ ((r : Row) × (rows ≡ r ∷ c.rows) × (monthly_usage settings now c.rows < monthly_cap))
      paid rows left (inl same) = inl same
      paid rows left (inr (r, grown)) = inr (r, grown, ground arith)

  public_from_lem :
      (q gl : Text) (now : ℕ) (hit : Option Row) (c : Cache Outside)
      → Paid now c.rows (public_from settings q gl now hit c).1
  unfolding ◌>>=◌
  public_from_lem q gl now none c = public_miss_lem q gl now c
  public_from_lem q gl now (some r) c = inl refl

  public_search_lem :
      (query gl : Text) (now : ℕ) (c : Cache Outside)
      → Paid now c.rows (public_search settings query gl now c).1
  unfolding public_search ◌>>=◌
  public_search_lem query gl now c =
      elim (Bool-cases (ltb (length (normal_query query)) 2 || is_empty (resolve_key settings))) [
        | inl idle ↦ rw idle (inl refl)
        | inr asked ↦ rw asked (
            public_from_lem (normal_query query) gl now
              (find (is_match (normal_query query) gl now) c.rows) c)
      ]

  Paid-le :
      (start now : ℕ) (rows : List Row) (c : Cache Outside)
      → month_start now ≡ start
      → Paid now rows c
      → usage_since start rows ≤ monthly_cap
      → usage_since start c.rows ≤ monthly_cap
  Paid-le start now rows c same (inl kept) h = rw kept h
  Paid-le start now rows c same (inr (r, grown, below)) h =
      let less : usage_since start rows < monthly_cap =
        subst (λ s. usage_since s rows < monthly_cap) same below in
      rw grown (ground arith)

  -- However often visitors search within a month, the searches of the API that are stored in it stay
  -- within the monthly cap, if they were before. (A request whose answer is not stored is not among
  -- them.)
  pub serve_visits-le_cap :
      (start : ℕ) (visits : List Visit) (c : Cache Outside)
      → All (λ (v : Visit). month_start v.at ≡ start) visits
      → usage_since start c.rows ≤ monthly_cap
      → usage_since start (serve_visits visits c).rows ≤ monthly_cap
  unfolding serve_visits
  serve_visits-le_cap start [] c same h = h
  serve_visits-le_cap start (v ∷ vs) c (now, later) h =
      let c' = (public_search settings v.query v.gl v.at c).1 in
      serve_visits-le_cap start vs c' later
        (Paid-le start v.at c.rows c' now (public_search_lem v.query v.gl v.at c) h)

  public_from_spent :
      (q gl : Text) (now : ℕ) (hit : Option Row) (c : Cache Outside)
      → leb monthly_cap (monthly_usage settings now c.rows) ≡ true
      → (public_from settings q gl now hit c).1 ≡ c
  unfolding public_miss ◌>>=◌
  public_from_spent q gl now none c spent = rw spent refl
  public_from_spent q gl now (some r) c spent = refl

  public_search_spent :
      (query gl : Text) (now : ℕ) (c : Cache Outside)
      → leb monthly_cap (monthly_usage settings now c.rows) ≡ true
      → (public_search settings query gl now c).1 ≡ c
  unfolding public_search ◌>>=◌
  public_search_spent query gl now c spent =
      elim (Bool-cases (ltb (length (normal_query query)) 2 || is_empty (resolve_key settings))) [
        | inl idle ↦ rw idle refl
        | inr asked ↦ rw asked (
            public_from_spent (normal_query query) gl now
              (find (is_match (normal_query query) gl now) c.rows) c spent)
      ]

  -- Once the searches stored in a month reach the monthly cap, visitors who search in it, however
  -- often, change nothing in the cache and reach nothing outside the panel: no request to the API is
  -- made, and none is paid for.
  pub serve_visits_spent :
      (start : ℕ) (visits : List Visit) (c : Cache Outside)
      → All (λ (v : Visit). month_start v.at ≡ start) visits
      → monthly_cap ≤ usage_since start c.rows
      → serve_visits visits c ≡ c
  unfolding serve_visits
  serve_visits_spent start [] c same h = refl
  serve_visits_spent start (v ∷ vs) c (now, later) h =
      let spent : leb monthly_cap (monthly_usage settings v.at c.rows) ≡ true =
        rw now (ground (arith, h)) in
      ap (serve_visits vs) (public_search_spent v.query v.gl v.at c spent)
      ∙ serve_visits_spent start vs c later h
