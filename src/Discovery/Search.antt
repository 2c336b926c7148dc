-- ===== src/Discovery/Search.antt =====
-- DiscoveryService, apps/api/src/discovery/discovery.service.ts. A row of the cache is of the one
-- engine that the service writes, and the rows stand newest first. An operation reads the clock
-- once, in milliseconds. The API, the start of the month and the text of a time are parameters; a
-- credit is spent by each request to the API.
use site_foundry.Discovery.Product.{DiscoveredProduct, normalize_shopping_results}
use site_foundry.Json.{Json, str, prop, is_null, default_to, is_truthy, to_string}
use site_foundry.Effects.{
  bad_request, unavailable, plain, type_error, Result, ok, thrown, Act, pure, lift, throw, gets,
  catch, modify, guard, ◌>>=◌, ◌>>◌,
}
use site_foundry.Web.{to_lower_case}
use site_foundry.Prelude.{
  ℕ, ◌+◌, ◌*◌, Bool, true, false, ◌&&◌, ◌||◌, not, Option, none, some, List, [], ◌∷◌, ◌++◌, ltb,
  leb, if◌then◌else◌, or_else, length, take, find, count,
}
use site_foundry.Text.{Text, txt, text_eq, is_empty, trim, show}

pub record Row : Type 0 where
  pub query : Text
  pub gl : Text
  pub fetched_at : ℕ
  pub results : List DiscoveredProduct

pub record Answer : Type 0 where
  pub status : ℕ
  pub raw : Json

-- What the service reads from its surroundings; the configured values are the two keys and the cap.
pub record Settings : Type 1 where
  pub Outside : Type 0
  pub fetch : Text → Text → Text → Act Outside Answer
  pub month_start : ℕ → ℕ
  pub to_iso : ℕ → Text
  pub db_key : Option Text
  pub env_key : Text
  pub monthly_cap : ℕ

pub record Cache (O : Type 0) : Type 0 where
  pub rows : List Row
  pub outside : O

pub record DiscoveryResponse : Type 0 where
  pub query : Text
  pub gl : Text
  pub cached : Bool
  pub fetched_at : Text
  pub results : List DiscoveredProduct
  pub api_searches_this_month : ℕ

pub record PublicResponse : Type 0 where
  pub results : List DiscoveredProduct
  pub cached : Bool
  pub capped : Bool

abbrev pub ttl_ms : ℕ
ttl_ms = 7 * 24 * 3600 * 1000

-- `fetchedAt >= now - ttl`
abbrev pub is_fresh : ℕ → Row → Bool
is_fresh now r = leb now (r.fetched_at + ttl_ms)

abbrev pub is_match : Text → Text → ℕ → Row → Bool
is_match q gl now r = (text_eq r.query q && text_eq r.gl gl) && is_fresh now r

abbrev pub nothing : PublicResponse
nothing = record { results = []; cached = false; capped = false }

-- `query.trim().toLowerCase()`
unfoldable pub normal_query : Text → Text
normal_query query = to_lower_case (trim query)

abbrev is_answered : ℕ → Bool
is_answered status = leb 200 status && ltb status 300

abbrev error_of : Answer → Json
error_of a = default_to (prop a.raw (txt "error")) (str (txt "SerpApi HTTP " ++ show a.status))

-- `res.ok` and no error in the answer, or the exception
unfoldable pub accepted : Answer → Result Json
accepted a =
    if is_null a.raw
    then thrown type_error (txt "Cannot read properties of null (reading 'error')")
    else if is_answered a.status && not (is_truthy (prop a.raw (txt "error")))
    then ok a.raw
    else thrown plain (to_string (error_of a))

abbrev pub usage_since : ℕ → List Row → ℕ
usage_since start rows = count (λ (r : Row). leb start r.fetched_at) rows

module _ (settings : Settings) where
  open settings use {Outside, month_start, to_iso, monthly_cap}

  abbrev on_outside : {A : Type 0} → List Row → Result A × Outside → Result A × Cache Outside
  on_outside rows (r, o) = (r, record { rows = rows; outside = o })

  unfoldable pub call_out : {A : Type 0} → Act Outside A → Act (Cache Outside) A
  call_out m c = on_outside c.rows (m c.outside)

  -- `resolveKey`
  unfoldable pub resolve_key : Text
  resolve_key =
      let stored = or_else settings.db_key [] in
      trim (if is_empty stored then settings.env_key else stored)

  abbrev pub monthly_usage : ℕ → List Row → ℕ
  monthly_usage now rows = usage_since (month_start now) rows

  -- the request, and its `catch`
  unfoldable pub ask : Text → Text → Text → Act (Cache Outside) Json
  unfolding accepted
  ask key q gl =
      catch (do answer ← call_out (settings.fetch key q gl); lift (accepted answer))
        (λ e. throw unavailable (txt "Product search failed: " ++ take 200 e.message))

  unfoldable pub store_results :
      Text → Text → ℕ → List DiscoveredProduct → Act (Cache Outside) DiscoveryResponse
  store_results q gl now results = do
    modify (λ c. record c {
      rows = record { query = q; gl = gl; fetched_at = now; results = results } ∷ c.rows;
    })
    usage ← gets (λ c. monthly_usage now c.rows)
    pure (record {
      query = q;
      gl = gl;
      cached = false;
      fetched_at = to_iso now;
      results = results;
      api_searches_this_month = usage;
    })

  -- the part of `search` after the cache has been missed
  unfoldable pub search_api : Text → Text → Text → ℕ → Act (Cache Outside) DiscoveryResponse
  search_api key q gl now = do
    raw ← ask key q gl
    results ← lift (normalize_shopping_results raw)
    store_results q gl now results

  abbrev pub from_row : Text → Text → Row → ℕ → DiscoveryResponse
  from_row q gl r usage = record {
    query = q;
    gl = gl;
    cached = true;
    fetched_at = to_iso r.fetched_at;
    results = r.results;
    api_searches_this_month = usage;
  }

  abbrev pub search_from :
      Text → Text → Text → ℕ → Option Row → Act (Cache Outside) DiscoveryResponse
  search_from key q gl now none = search_api key q gl now
  search_from key q gl now (some r) = gets (λ c. from_row q gl r (monthly_usage now c.rows))

  -- `search`, for a query that is trimmed and in lower case
  unfoldable pub search_query : Text → Text → ℕ → Act (Cache Outside) DiscoveryResponse
  search_query q gl now = do
    guard (leb 2 (length q)) bad_request (txt "Query too short")
    guard (not (is_empty resolve_key)) unavailable
        (txt "Product discovery is not configured — set the SerpApi key in Settings → Integrations")
    hit ← gets (λ c. find (is_match q gl now) c.rows)
    search_from resolve_key q gl now hit

  -- `search`
  unfoldable pub search_shopping : Text → Text → ℕ → Act (Cache Outside) DiscoveryResponse
  unfolding normal_query
  search_shopping query gl now = search_query (normal_query query) gl now

  -- the end of `publicSearch`: the cap, and the search whose failure is an empty answer
  unfoldable pub public_miss : Text → Text → ℕ → Act (Cache Outside) PublicResponse
  public_miss q gl now = do
    usage ← gets (λ c. monthly_usage now c.rows)
    if leb monthly_cap usage
        then pure (record nothing { capped = true })
        else catch
            (do
              found ← search_shopping q gl now
              pure (record { results = found.results; cached = false; capped = false }))
            (λ e. pure nothing)

  abbrev pub public_from : Text → Text → ℕ → Option Row → Act (Cache Outside) PublicResponse
  public_from q gl now none = public_miss q gl now
  public_from q gl now (some r) =
      pure (record { results = r.results; cached = true; capped = false })

  unfoldable pub public_search : Text → Text → ℕ → Act (Cache Outside) PublicResponse
  public_search query gl now =
      if ltb (length (normal_query query)) 2 || is_empty resolve_key then pure nothing else (do
        hit ← gets (λ c. find (is_match (normal_query query) gl now) c.rows)
        public_from (normal_query query) gl now hit)
