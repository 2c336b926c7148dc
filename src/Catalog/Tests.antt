-- ===== src/Catalog/Tests.antt =====
-- A catalog with one product in two categories, and the theorems at it.
use site_foundry.Catalog.{Catalog, is_staged, catalog}
use site_foundry.Catalog.Slug.{
  dashed, trim_start_dashes, trim_end_dashes, djb2, base36, short_hash, slugify, product_slug,
}
use site_foundry.Effects.{ok}
use site_foundry.Json.{Json, str, arr, obj, nil, cons, end, member, lookup, prop, to_string}
use site_foundry.Prelude.{◌≤◌, String, ◌≡◌, refl, true, length, all, All}
use site_foundry.Text.{Text, txt, text_eq}
use site_foundry.Catalog.Pages.{HasOnePage, HasPages, catalog-HasPages}
use site_foundry.Catalog.Paths.{is_path_unit, product_slug_lem}

-- An identity in place of the platform's normalisation
abbrev lower_normal : Text → Text
lower_normal s = s

abbrev phone : Json
phone = obj (
    member (txt "title") (str (txt "phone 5"))
      (member (txt "link") (str (txt "https://a.test")) end))

abbrev category : String → Json
category title =
    obj
      (member (txt "title") (str (txt title)) (member (txt "products") (arr (cons phone nil)) end))

abbrev raw : Json
raw =
    obj
      (member (txt "categories") (arr (cons (category "phones") (cons (category "tech") nil))) end)

product_slug_test : length (product_slug lower_normal phone) ≡ 14
unfolding txt text_eq product_slug slugify short_hash dashed trim_start_dashes trim_end_dashes djb2
    base36 prop to_string
product_slug_test = refl

product_slug_lem_example :
    (all is_path_unit (product_slug lower_normal phone) ≡ true)
    × (2 ≤ length (product_slug lower_normal phone))
    × (length (product_slug lower_normal phone) ≤ 67)
product_slug_lem_example = product_slug_lem lower_normal phone

raw_staged : is_staged raw ≡ true
unfolding prop lookup text_eq txt
raw_staged = refl

catalog-HasPages_example :
    (c : Catalog) × (catalog lower_normal raw ≡ ok c)
    × HasOnePage c.products
    × All (HasPages c.products) c.categories
catalog-HasPages_example = catalog-HasPages lower_normal raw raw_staged
