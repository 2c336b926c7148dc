-- ===== src/Discovery/Tests.antt =====
-- A cap of two searches, and the theorems at inputs that meet their hypotheses.
use site_foundry.Discovery.Visitors.{Returns, public_search-Returns}
use site_foundry.Discovery.Again.{search_shopping-search_shopping}
use site_foundry.Discovery.Cap.{Visit, serve_visits, serve_visits-le_cap, serve_visits_spent}
use site_foundry.Discovery.Featured.{
  fresh_rows, product_key, collect, featured, Category, title_case, row_products, collect_rows,
  categories,
}
use site_foundry.Discovery.Search.{
  Row, Settings, Cache, DiscoveryResponse, normal_query, accepted, usage_since, call_out,
  resolve_key, ask, store_results, search_api, search_query, search_shopping, public_miss,
  public_search,
}
use site_foundry.Discovery.Product.{DiscoveredProduct, products_of, normalize_shopping_results}
use site_foundry.Json.{Json, str, arr, obj, nil, cons, end, member, prop, to_string}
use site_foundry.Effects.{Result, ok, err, ◌>>=◌}
use site_foundry.Web.{to_lower_case}
use site_foundry.Prelude.{
  ℕ, suc, ◌≤◌, String, ◌≡◌, refl, true, none, List, [], ◌∷◌, map, arith, length,
}
use site_foundry.Text.{Text, txt, text_eq, trim, includes, show}

abbrev answer : Json
answer = obj (
    member (txt "shopping_results")
      (arr (
        cons
          (obj (member (txt "title") (str (txt "Lamp")) (member (txt "link") (str (txt "u")) end)))
          nil))
      end)

abbrev settings : Settings
settings = record {
  Outside = ℕ;
  fetch = λ q gl key n. (ok (record { status = 200; raw = answer }), suc n);
  month_start = λ now. 0;
  to_iso = show;
  db_key = none;
  env_key = txt "k";
  monthly_cap = 2;
}

abbrev empty_cache : Cache ℕ
empty_cache = record { rows = []; outside = 0 }

visit : String → ℕ → Visit
visit q t = record { query = txt q; gl = txt "us"; at = t }

abbrev visits : List Visit
visits = visit "lamp" 1 ∷ visit " Lamp" 2 ∷ visit "sofa" 3 ∷ visit "desk" 4 ∷ []

opened : Unit {0}
unfolding visit serve_visits public_search public_miss search_shopping search_query search_api ask
    store_results call_out resolve_key accepted normal_query to_lower_case
    normalize_shopping_results products_of prop to_string includes trim txt text_eq ◌>>=◌
opened = tt

-- The second visit is answered by the cache, and the fourth is capped.
spent_two : (serve_visits settings visits empty_cache).outside ≡ 2
unfolding opened
spent_two = refl

serve_visits-le_cap_example : usage_since 0 (serve_visits settings visits empty_cache).rows ≤ 2
serve_visits-le_cap_example =
    serve_visits-le_cap settings 0 visits empty_cache (refl, (refl, (refl, (refl, tt))))
      (omega arith)

abbrev stored : Text → Row
stored query = record { query = query; gl = []; fetched_at = 1; results = [] }

abbrev full_cache : Cache ℕ
full_cache = record { rows = stored (1 ∷ 2 ∷ []) ∷ stored (3 ∷ 4 ∷ []) ∷ []; outside = 2 }

serve_visits_spent_example : serve_visits settings visits full_cache ≡ full_cache
serve_visits_spent_example =
    serve_visits_spent settings 0 visits full_cache (refl, (refl, (refl, (refl, tt)))) (omega arith)

abbrev first_search : Result DiscoveryResponse × Cache ℕ
first_search = search_shopping settings (txt "lamp") (txt "us") 1 empty_cache

response_of : Result DiscoveryResponse → DiscoveryResponse
response_of (ok found) = found
response_of (err e) = record {
  query = [];
  gl = [];
  cached = true;
  fetched_at = [];
  results = [];
  api_searches_this_month = 0;
}

search_shopping-search_shopping_example :
    (again : DiscoveryResponse) × (search_shopping settings (txt "lamp") (txt "us") 5 first_search.1
      ≡ (ok again, first_search.1))
    × (again.cached ≡ true)
    × (again.results ≡ (response_of first_search.0).results)
unfolding opened response_of
search_shopping-search_shopping_example =
    search_shopping-search_shopping settings (txt "lamp") (txt "us") 1 5 empty_cache first_search.1
      (response_of first_search.0) refl refl (omega arith)

public_search-Returns_example :
    Returns settings (public_search settings (txt "lamp") (txt "us") 1 empty_cache)
public_search-Returns_example = public_search-Returns settings (txt "lamp") (txt "us") 1 empty_cache

lamp : DiscoveredProduct
lamp = record {
  title = txt "Lamp";
  link = str (txt "u");
  store_name = none;
  price = none;
  extracted_price = none;
  compare_price = none;
  rating = none;
  review_count = none;
  delivery_time = none;
  shipping_cost = none;
  image_url = none;
  badge = none;
}

row : String → Row
row q = record { query = txt q; gl = txt "us"; fetched_at = 1; results = lamp ∷ lamp ∷ [] }

shown_once : length (featured 3 5 (row "a" ∷ row "b" ∷ [])) ≡ 1
unfolding opened row lamp featured collect fresh_rows product_key
shown_once = refl

titles :
    map (λ (c : Category). c.title) (categories 3 2 5 (row "red lamp" ∷ row "a" ∷ []))
    ≡ txt "Red Lamp" ∷ txt "A" ∷ []
unfolding opened row lamp categories collect_rows fresh_rows title_case row_products
titles = refl
