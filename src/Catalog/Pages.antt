-- ===== src/Catalog/Pages.antt =====
-- The index of product pages, and the way from the categories to it.
use mathlib.Core.List.{append_assoc, append-nil}
use site_foundry.Catalog.{
  Entry, Category, Catalog, find_entry, is_listed, is_staged, add_product, add_products,
  with_category, add_categories, tables, catalog,
}
use site_foundry.Catalog.Slug.{product_slug, category_slug_of}
use site_foundry.Effects.{ok}
use site_foundry.Json.{Json, prop, array_of, entries}
use site_foundry.Prelude.{
  ◌≤◌, ◌≡◌, refl, sym, ap, subst, ◌∙◌, inl, inr, true, none, some, List, [], ◌∷◌, ◌++◌, arith,
  Bool-cases, Option-cases, keep, count, count-append, find-holds, All,
}
use site_foundry.Text.{Text, txt, text_eq, text_eq_iff, text_eq_refl}

-- No two pages have one slug.
abbrev pub HasOnePage : List Entry → Type 0
HasOnePage entries = (slug : Text) → count (λ (e : Entry). text_eq e.slug slug) entries ≤ 1

-- The entry is the page of its slug.
abbrev pub IsPage : List Entry → Entry → Type 0
IsPage index e = find_entry e.slug index ≡ some e

find_entry-append :
    (slug : Text) (xs ys : List Entry) (e : Entry)
    → find_entry slug xs ≡ some e
    → find_entry slug (xs ++ ys) ≡ some e
unfolding find_entry
find_entry-append slug [] ys e h = absurd (cc)
find_entry-append slug (x ∷ xs) ys e h = grind (arith, find_entry-append slug xs ys e)

find_entry-last :
    (slug : Text) (xs : List Entry) (e : Entry)
    → find_entry slug xs ≡ none
    → text_eq e.slug slug ≡ true
    → find_entry slug (xs ++ e ∷ []) ≡ some e
unfolding find_entry
find_entry-last slug [] e h k = rw k refl
find_entry-last slug (x ∷ xs) e h k = grind (arith, find_entry-last slug xs e)

count_missing :
    (slug : Text) (xs : List Entry)
    → find_entry slug xs ≡ none
    → count (λ (e : Entry). text_eq e.slug slug) xs ≡ 0
unfolding find_entry
count_missing slug [] h = refl
count_missing slug (x ∷ xs) h = grind (arith, count_missing slug xs)

find_entry-slug :
    (slug : Text) (xs : List Entry) (e : Entry) → find_entry slug xs ≡ some e → e.slug ≡ slug
unfolding find_entry
find_entry-slug slug xs e h =
    (text_eq_iff e.slug slug).0 (find-holds (λ (x : Entry). text_eq x.slug slug) xs e h)

HasOnePage-last :
    (xs : List Entry) (e : Entry)
    → find_entry e.slug xs ≡ none
    → HasOnePage xs
    → HasOnePage (xs ++ e ∷ [])
HasOnePage-last xs e h each slug =
    let total = count-append (λ (x : Entry). text_eq x.slug slug) xs (e ∷ []) in
    elim (Bool-cases (text_eq e.slug slug)) [
      | inl same ↦
          let gone =
            count_missing slug xs
              (subst (λ s. find_entry s xs ≡ none) ((text_eq_iff e.slug slug).0 same) h) in
          ground arith
      | inr other ↦ ground (arith, each slug)
    ]

-- A list that continues another
abbrev pub Extends : List Entry → List Entry → Type 0
Extends xs ys = (zs : List Entry) × (ys ≡ xs ++ zs)

IsPage-Extends : (xs ys : List Entry) (e : Entry) → Extends xs ys → IsPage xs e → IsPage ys e
IsPage-Extends xs ys e (zs, same) h =
    subst (λ l. find_entry e.slug l ≡ some e) (sym same) (find_entry-append e.slug xs zs e h)

All-Extends :
    (xs ys : List Entry)
    → Extends xs ys
    → (es : List Entry) → All (IsPage xs) es
    → All (IsPage ys) es
All-Extends xs ys x [] h = tt
All-Extends xs ys x (e ∷ es) (h, hs) = (IsPage-Extends xs ys e x h, All-Extends xs ys x es hs)

Extends-refl : (xs : List Entry) → Extends xs xs
Extends-refl xs = ([], sym (append-nil xs))

Extends-trans : (xs ys zs : List Entry) → Extends xs ys → Extends ys zs → Extends xs zs
Extends-trans xs ys zs (p, e) (q, f) = (p ++ q, f ∙ ap (λ l. l ++ q) e ∙ append_assoc xs p q)

-- What a step gives: pages for its entries, in an index that continues the old one.
pub record Grows (index entries after : List Entry) : Type 0 where
  pub pages : All (IsPage after) entries
  pub one_page : HasOnePage after
  pub extends : Extends index after

-- The products of a category have their pages.
abbrev pub HasPages : List Entry → Category → Type 0
HasPages index c = All (IsPage index) c.products

module _ (lower_normal : Text → Text) where
  add_product-Grows :
      (category_slug : Text) (title p : Json) (index : List Entry)
      → HasOnePage index
      → Grows index
          ((add_product lower_normal category_slug title p index).0 ∷ [])
          (add_product lower_normal category_slug title p index).1
  unfolding add_product
  add_product-Grows category_slug title p index h =
      let slug = product_slug lower_normal p in
      elim (Option-cases (find_entry slug index)) [
        | inl missing ↦
            rw (add_product, missing)
              (record {
                pages = (find_entry-last slug index _ missing (text_eq_refl slug), tt);
                one_page = HasOnePage-last index _ missing h;
                extends = (_, refl);
              })
        | inr (e, found) ↦
            rw (add_product, found)
              (record {
                pages = (
                  subst (λ s. find_entry s index ≡ some e)
                      (sym (find_entry-slug slug index e found)) found,
                  tt,
                );
                one_page = h;
                extends = Extends-refl index;
              })
      ]

  add_products-Grows :
      (category_slug : Text) (title : Json) (ps : List Json) (index : List Entry)
      → HasOnePage index
      → Grows index
          (add_products lower_normal category_slug title ps index).0
          (add_products lower_normal category_slug title ps index).1
  unfolding add_products
  add_products-Grows category_slug title [] index h = record {
    pages = tt;
    one_page = h;
    extends = Extends-refl index;
  }
  add_products-Grows category_slug title (p ∷ ps) index h =
      let first = add_product-Grows category_slug title p index h in
      let later =
        add_products-Grows category_slug title ps
          (add_product lower_normal category_slug title p index).1 first.one_page in
      record {
        pages = (IsPage-Extends _ _ _ later.extends first.pages.0, later.pages);
        one_page = later.one_page;
        extends = Extends-trans index _ _ first.extends later.extends;
      }

  with_category-HasPages :
      (c : Json) (entries index : List Entry) (cats : List Category)
      → All (IsPage index) entries
      → All (HasPages index) cats
      → All (HasPages index) (with_category lower_normal c entries cats)
  with_category-HasPages c [] index cats h k = k
  with_category-HasPages c (e ∷ es) index cats h k = (h, k)

  -- What the outer loop gives
  record Builds (index : List Entry) (r : List Category × List Entry) : Type 0 where
    pages : All (HasPages r.1) r.0
    one_page : HasOnePage r.1
    extends : Extends index r.1

  add_categories-Builds :
      (cs : List Json) (index : List Entry)
      → HasOnePage index
      → Builds index (add_categories lower_normal cs index)
  unfolding add_categories
  add_categories-Builds [] index h = record {
    pages = tt;
    one_page = h;
    extends = Extends-refl index;
  }
  add_categories-Builds (c ∷ cs) index h =
      let here =
        add_products-Grows (category_slug_of lower_normal c) (prop c (txt "title"))
          (keep is_listed (array_of (prop c (txt "products")))) index h in
      let later = add_categories-Builds cs _ here.one_page in
      record {
        pages =
            with_category-HasPages c _ _ _ (All-Extends _ _ later.extends _ here.pages) later.pages;
        one_page = later.one_page;
        extends = Extends-trans index _ _ here.extends later.extends;
      }

  -- When neither the staged file nor one of its categories is null, the catalog is built, no two of
  -- its product pages have one slug, and every product of every category is the page of its slug.
  pub catalog-HasPages :
      (raw : Json)
      → is_staged raw ≡ true
      → (c : Catalog) × (catalog lower_normal raw ≡ ok c)
        × HasOnePage c.products
        × All (HasPages c.products) c.categories
  unfolding catalog tables
  catalog-HasPages raw staged =
      let built =
        add_categories-Builds (array_of (prop raw (txt "categories"))) [] (λ slug. omega arith) in
      (tables lower_normal raw, rw staged refl, built.one_page, built.pages)
