-- ===== src/Catalog/Slug.antt =====
-- `slugify`, `shortHash`, `productSlug` and `categorySlugOf` of
-- templates/stock/src/lib/catalog.js.
use site_foundry.Json.{Json, prop, is_truthy, to_string}
use site_foundry.Prelude.{
  ℕ, zero, suc, ◌+◌, ◌*◌, ◌/◌, ◌%◌, ◌^◌, Bool, true, false, ◌&&◌, ◌||◌, [], ◌∷◌, ◌++◌, ltb, leb,
  ◌==◌, if◌then◌else◌, take,
}
use site_foundry.Text.{Text, txt, is_empty}

-- `[a-z0-9]`
abbrev pub is_slug_unit : ℕ → Bool
is_slug_unit c = (leb b'a' c && leb c b'z') || (leb b'0' c && leb c b'9')

-- `.replace(/[^a-z0-9]+/g, '-')`; the flag says that the unit before was replaced.
unfoldable pub dashed : Bool → Text → Text
dashed after [] = []
dashed after (c ∷ s) =
    let inside = dashed true s in
    let later = dashed false s in
    if is_slug_unit c then c ∷ later else if after then inside else b'-' ∷ inside

-- `.replace(/^-+|-+$/g, '')`
unfoldable pub trim_start_dashes : Text → Text
trim_start_dashes [] = []
trim_start_dashes (c ∷ s) = let rest = trim_start_dashes s in if c == b'-' then rest else c ∷ s

unfoldable pub trim_end_dashes : Text → Text
trim_end_dashes [] = []
trim_end_dashes (c ∷ s) =
    let rest = trim_end_dashes s in if is_empty rest && c == b'-' then [] else c ∷ rest

-- `String(s || '')`
abbrev pub string_or_empty : Json → Text
string_or_empty v = if is_truthy v then to_string v else []

abbrev pub or_item : Text → Text
or_item [] = txt "item"
or_item (c ∷ s) = c ∷ s

-- djb2; `>>> 0` takes the sum modulo 2^32, and so does `<< 5` within it.
unfoldable pub djb2 : ℕ → Text → ℕ
djb2 h [] = h
djb2 h (c ∷ s) = djb2 ((h * 32 + h + c) % 2 ^ 32) s

abbrev pub digit36 : ℕ → ℕ
digit36 d = if ltb d 10 then 48 + d else 87 + d

-- `h.toString(36)`; a number below 2^32 has at most 7 digits.
unfoldable pub base36 : ℕ → ℕ → Text
base36 zero n = []
base36 (suc f) n =
    let front = base36 f (n / 36) in
    if ltb n 36 then digit36 n ∷ [] else front ++ digit36 (n % 36) ∷ []

-- `shortHash`
unfoldable pub short_hash : Json → Text
unfolding djb2 base36
short_hash v = take 6 (base36 7 (djb2 5381 (string_or_empty v)))

-- `a || b`
abbrev pub or_json : Json → Json → Json
or_json a b = if is_truthy a then a else b

module _ (lower_normal : Text → Text) where
  unfoldable pub slugify : Json → Text
  unfolding dashed trim_start_dashes trim_end_dashes
  slugify v = or_item (
      take 60
        (trim_end_dashes (trim_start_dashes (dashed false (lower_normal (string_or_empty v))))))

  unfoldable pub product_slug : Json → Text
  unfolding slugify short_hash
  product_slug p =
      slugify (prop p (txt "title"))
      ++ b'-' ∷ short_hash (or_json (prop p (txt "link")) (prop p (txt "title")))

  unfoldable pub category_slug_of : Json → Text
  unfolding slugify
  category_slug_of c = slugify (or_json (prop c (txt "query")) (prop c (txt "title")))
