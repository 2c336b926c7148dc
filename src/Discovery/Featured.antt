-- ===== src/Discovery/Featured.antt =====
-- What the home page of a site shows from the cache: `featured` and `categories` of
-- apps/api/src/discovery/discovery.service.ts. The loops return the products they push; the number
-- that were pushed before is an argument.
use site_foundry.Discovery.Search.{Row, is_fresh}
use site_foundry.Discovery.Product.{DiscoveredProduct}
use site_foundry.Json.{is_truthy}
use site_foundry.Web.{to_lower_case}
use site_foundry.Prelude.{
  ℕ, suc, ◌-◌, Bool, true, false, ◌&&◌, ◌||◌, not, List, [], ◌∷◌, ◌++◌, leb, ◌==◌, if◌then◌else◌,
  take, keep, any,
}
use site_foundry.Text.{Text, text_eq, is_empty}

-- `p.link`, as a condition
abbrev pub has_link : DiscoveredProduct → Bool
has_link p = is_truthy p.link

-- the rows of the last days, newest first
unfoldable pub fresh_rows : ℕ → ℕ → List Row → List Row
fresh_rows n now rows = take n (keep (is_fresh now) rows)

-- `(p.title || '').toLowerCase().slice(0, 60)`
unfoldable pub product_key : DiscoveredProduct → Text
product_key p = take 60 (to_lower_case p.title)

abbrev pub is_skipped : List Text → DiscoveredProduct → Bool
is_skipped seen p =
    is_empty (product_key p) || not (has_link p) || any (text_eq (product_key p)) seen

abbrev pub all_results : List Row → List DiscoveredProduct
all_results [] = []
all_results (r ∷ rs) = r.results ++ all_results rs

-- The loop of `featured` over the products of all rows
unfoldable pub collect : ℕ → ℕ → List Text → List DiscoveredProduct → List DiscoveredProduct
collect limit n seen [] = []
collect limit n seen (p ∷ ps) = elim (is_skipped seen p) [
  | true ↦ collect limit n seen ps
  | false ↦ p ∷ elim (leb limit (suc n)) [
    | true ↦ []
    | false ↦ collect limit (suc n) (product_key p ∷ seen) ps
  ]
]

unfoldable pub featured : ℕ → ℕ → List Row → List DiscoveredProduct
unfolding collect
featured limit now rows = collect limit 0 [] (all_results (fresh_rows 40 now rows))

pub record Category : Type 0 where
  pub query : Text
  pub title : Text
  pub products : List DiscoveredProduct

abbrev is_word_unit : ℕ → Bool
is_word_unit c =
    (leb b'a' c && leb c b'z')
    || (leb b'A' c && leb c b'Z')
    || (leb b'0' c && leb c b'9')
    || c == b'_'

abbrev upper_unit : ℕ → ℕ
upper_unit c = if leb b'a' c && leb c b'z' then c - 32 else c

-- `replace(/\b\w/g, …)`: the first unit of each word becomes a capital; the flag says whether the
-- unit before is one of a word.
unfoldable pub title_case : Bool → Text → Text
title_case inside [] = []
title_case inside (c ∷ s) = (if inside then c else upper_unit c) ∷ title_case (is_word_unit c) s

unfoldable pub row_products : ℕ → Row → List DiscoveredProduct
row_products per_cat r = take per_cat (keep (λ p. not (is_empty p.title) && has_link p) r.results)

abbrev pub is_nil : List DiscoveredProduct → Bool
is_nil [] = true
is_nil (p ∷ ps) = false

abbrev pub category_of : ℕ → Row → Category
category_of per_cat r = record {
  query = r.query;
  title = title_case false r.query;
  products = row_products per_cat r;
}

-- The loop of `categories`
unfoldable pub collect_rows : ℕ → ℕ → ℕ → List Text → List Row → List Category
collect_rows limit per_cat n seen [] = []
collect_rows limit per_cat n seen (r ∷ rs) = elim (any (text_eq r.query) seen) [
  | true ↦ collect_rows limit per_cat n seen rs
  | false ↦ elim (is_nil (row_products per_cat r)) [
    | true ↦ collect_rows limit per_cat n (r.query ∷ seen) rs
    | false ↦ category_of per_cat r ∷ elim (leb limit (suc n)) [
      | true ↦ []
      | false ↦ collect_rows limit per_cat (suc n) (r.query ∷ seen) rs
    ]
  ]
]

unfoldable pub categories : ℕ → ℕ → ℕ → List Row → List Category
unfolding collect_rows
categories limit per_cat now rows = collect_rows limit per_cat 0 [] (fresh_rows 60 now rows)
