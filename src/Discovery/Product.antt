-- ===== src/Discovery/Product.antt =====
-- The products of a search answer, apps/api/src/discovery/normalize.ts.
use site_foundry.Json.{
  Json, null, num, str, items, prop, default_to, is_truthy, array_of, to_string,
}
use site_foundry.Effects.{type_error, Result, ok, thrown, bind}
use site_foundry.Web.{to_lower_case}
use site_foundry.Prelude.{
  ℕ, Bool, false, ◌&&◌, not, Option, none, some, List, [], ◌∷◌, leb, if◌then◌else◌, length, take,
}
use site_foundry.Text.{Text, txt, is_empty, includes}

pub record DiscoveredProduct : Type 0 where
  pub title : Text
  pub link : Json
  pub store_name : Option Text
  pub price : Option Text
  pub extracted_price : Option ℕ
  pub compare_price : Option Text
  pub rating : Option ℕ
  pub review_count : Option ℕ
  pub delivery_time : Option Text
  pub shipping_cost : Option Text
  pub image_url : Option Text
  pub badge : Option Text

-- `v ? String(v) : null`
abbrev text_of : Json → Option Text
text_of v = if is_truthy v then some (to_string v) else none

-- `typeof v === 'number' ? v : null`, and the same for a text
abbrev number_of : Json → Option ℕ
number_of (num n) = some n
number_of _ = none

abbrev string_of : Json → Option Text
string_of (str s) = some s
string_of _ = none

abbrev badge_of : Json → Option Text
badge_of (str s) = if not (is_empty s) && leb (length s) 40 then some s else none
badge_of _ = none

-- `/free/i.test(delivery)`
abbrev is_free : Option Text → Bool
is_free none = false
is_free (some s) = includes (to_lower_case s) (txt "free")

product_of : Json → Json → DiscoveredProduct
product_of item link = record {
  title = take 200 (to_string (prop item (txt "title")));
  link = link;
  store_name =
      if is_truthy (prop item (txt "source"))
      then some (take 120 (to_string (prop item (txt "source"))))
      else none;
  price = text_of (prop item (txt "price"));
  extracted_price = number_of (prop item (txt "extracted_price"));
  compare_price = text_of (prop item (txt "old_price"));
  rating = number_of (prop item (txt "rating"));
  review_count = number_of (prop item (txt "reviews"));
  delivery_time = string_of (prop item (txt "delivery"));
  shipping_cost =
      if is_free (string_of (prop item (txt "delivery"))) then some (txt "Free delivery") else none;
  image_url = text_of (prop item (txt "thumbnail"));
  badge = badge_of (prop item (txt "tag"));
}

-- The products of the items; a property of a `null` item is an exception.
unfoldable pub products_of : List Json → Result (List DiscoveredProduct)
unfolding product_of
products_of [] = ok []
products_of (null ∷ items) = thrown type_error (txt "Cannot read properties of null")
products_of (item ∷ items) =
    let link = default_to (prop item (txt "link")) (prop item (txt "product_link")) in
    bind (products_of items) λ later. ok (
      if is_truthy (prop item (txt "title")) && is_truthy link
      then product_of item link ∷ later
      else later)

unfoldable pub normalize_shopping_results : Json → Result (List DiscoveredProduct)
unfolding products_of
normalize_shopping_results raw = products_of (array_of (prop raw (txt "shopping_results")))
