-- ===== src/Catalog.antt =====
-- The product pages of a built site, templates/stock/src/lib/catalog.js: slugs, the index of
-- products with one page each, and related products. `toLowerCase().normalize('NFKD')` is a
-- parameter; a product or a category is the JSON value that the build staged.
pub mod Slug
mod Paths
mod Pages
mod Related
mod Tests
use site_foundry.Catalog.Slug.{product_slug, category_slug_of}
use site_foundry.Effects.{type_error, Result, ok, thrown}
use site_foundry.Json.{Json, prop, is_null, is_truthy, array_of, entries}
use site_foundry.Prelude.{
  ℕ, Bool, ◌&&◌, not, Option, none, some, List, [], ◌∷◌, ◌++◌, leb, if◌then◌else◌, length, take,
  keep, any, find,
}
use site_foundry.Text.{Text, txt, text_eq}

pub record Entry : Type 0 where
  pub product : Json
  pub slug : Text
  pub category_slug : Text
  pub category_title : Json

pub record Category : Type 0 where
  pub title : Json
  pub query : Json
  pub slug : Text
  pub products : List Entry

-- `catalogCategories` and `catalogProducts`
pub record Catalog : Type 0 where
  pub categories : List Category
  pub products : List Entry

-- `productBySlug` and `productMap.get`
unfoldable pub find_entry : Text → List Entry → Option Entry
find_entry slug entries = find (λ (e : Entry). text_eq e.slug slug) entries

-- `categoryBySlug`
unfoldable pub find_category : Text → List Category → Option Category
find_category slug cats = find (λ (c : Category). text_eq c.slug slug) cats

-- `p && p.title && p.link`
abbrev pub is_listed : Json → Bool
is_listed p = is_truthy p && is_truthy (prop p (txt "title")) && is_truthy (prop p (txt "link"))

-- The file and its categories are not `null`, whose properties cannot be read.
abbrev pub is_staged : Json → Bool
is_staged raw = not (is_null raw) && not (any is_null (array_of (prop raw (txt "categories"))))

module _ (lower_normal : Text → Text) where
  -- the entry of a product in its category, and the index with it
  unfoldable pub add_product : Text → Json → Json → List Entry → Entry × List Entry
  add_product category_slug category_title p index =
      let slug = product_slug lower_normal p in
      let fresh : Entry = record {
        product = p;
        slug = slug;
        category_slug = category_slug;
        category_title = category_title;
      } in
      elim (find_entry slug index) [
        | none ↦ (fresh, index ++ fresh ∷ [])
        | some entry ↦ (entry, index)
      ]

  -- the inner loop: the entries of a category, and the index
  unfoldable pub add_products : Text → Json → List Json → List Entry → List Entry × List Entry
  add_products category_slug category_title [] index = ([], index)
  add_products category_slug category_title (p ∷ ps) index =
      let (entry, index') = add_product category_slug category_title p index in
      let (entries, index'') = add_products category_slug category_title ps index' in
      (entry ∷ entries, index'')

  abbrev with_category : Json → List Entry → List Category → List Category
  with_category c [] cats = cats
  with_category c (e ∷ es) cats =
      record {
        title = prop c (txt "title");
        query = prop c (txt "query");
        slug = category_slug_of lower_normal c;
        products = e ∷ es;
      }
      ∷ cats

  -- the outer loop, from an index on; a category with no product is left out.
  unfoldable pub add_categories : List Json → List Entry → List Category × List Entry
  add_categories [] index = ([], index)
  add_categories (c ∷ cs) index =
      let (entries, index') =
        add_products (category_slug_of lower_normal c) (prop c (txt "title"))
          (keep is_listed (array_of (prop c (txt "products")))) index in
      let (cats, index'') = add_categories cs index' in (with_category c entries cats, index'')

  -- The module's tables
  unfoldable pub tables : Json → Catalog
  tables raw =
      let (cats, index) = add_categories (array_of (prop raw (txt "categories"))) [] in
      record { categories = cats; products = index }

  -- The module, from the parsed file
  unfoldable pub catalog : Json → Result Catalog
  catalog raw =
      if is_staged raw
      then ok (tables raw)
      else thrown type_error (txt "Cannot read properties of null")

abbrev pub products_of : Option Category → List Entry
products_of none = []
products_of (some c) = c.products

abbrev pub is_other : Text → Entry → Bool
is_other slug p = not (text_eq p.slug slug)

-- `relatedTo`
unfoldable pub related_to : Catalog → Entry → ℕ → List Entry
related_to c entry n =
    let same =
      keep (is_other entry.slug) (products_of (find_category entry.category_slug c.categories)) in
    let extra =
      keep
        (λ (p : Entry).
          is_other entry.slug p && not (any (λ (q : Entry). text_eq q.slug p.slug) same))
        c.products in
    if leb n (length same) then take n same else take n (same ++ extra)
