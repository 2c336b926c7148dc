-- ===== src/Catalog/Paths.antt =====
-- What the paths of the pages are made of.
use site_foundry.Catalog.Slug.{
  is_slug_unit, dashed, trim_start_dashes, trim_end_dashes, string_or_empty, or_item, djb2, digit36,
  base36, short_hash, or_json, slugify, product_slug,
}
use site_foundry.Json.{Json, prop}
use site_foundry.Prelude.{
  ℕ, zero, suc, ◌/◌, ◌%◌, ◌≤◌, ◌<◌, ◌≡◌, refl, inl, inr, Bool, true, false, ◌||◌, [], ◌∷◌, ◌++◌,
  arith, ltb, ◌==◌, ltb→lt, Bool-cases, length, take, all, length-append, length-take,
}
use site_foundry.Text.{Text, txt}

-- A unit of the path of a page
abbrev pub is_path_unit : ℕ → Bool
is_path_unit c = is_slug_unit c || c == b'-'

all-take : (n : ℕ) (s : Text) → all is_path_unit s ≡ true → all is_path_unit (take n s) ≡ true
all-take zero s h = refl
all-take (suc n) [] h = refl
all-take (suc n) (c ∷ s) h = ground (arith, all-take n s)

all-append :
    (s t : Text)
    → all is_path_unit s ≡ true
    → all is_path_unit t ≡ true
    → all is_path_unit (s ++ t) ≡ true
all-append [] t h k = k
all-append (c ∷ s) t h k = ground (arith, all-append s t)

all-dashed : (b : Bool) (s : Text) → all is_path_unit (dashed b s) ≡ true
unfolding dashed
all-dashed b [] = refl
all-dashed b (c ∷ s) = ground (arith, all-dashed true s, all-dashed false s)

all-trim_start_dashes :
    (s : Text) → all is_path_unit s ≡ true → all is_path_unit (trim_start_dashes s) ≡ true
unfolding trim_start_dashes
all-trim_start_dashes [] h = refl
all-trim_start_dashes (c ∷ s) h = ground (arith, all-trim_start_dashes s)

all-trim_end_dashes :
    (s : Text) → all is_path_unit s ≡ true → all is_path_unit (trim_end_dashes s) ≡ true
unfolding trim_end_dashes
all-trim_end_dashes [] h = refl
all-trim_end_dashes (c ∷ s) h = ground (arith, all-trim_end_dashes s)

or_item_lem :
    (s : Text)
    → all is_path_unit s ≡ true
    → length s ≤ 60
    → (all is_path_unit (or_item s) ≡ true) × (length (or_item s) ≤ 60) × (1 ≤ length (or_item s))
unfolding txt
or_item_lem [] h k = (refl, omega arith, omega arith)
or_item_lem (c ∷ s) h k = (h, k, omega arith)

slugify_lem :
    (lower_normal : Text → Text) (v : Json)
    → (all is_path_unit (slugify lower_normal v) ≡ true)
      × (length (slugify lower_normal v) ≤ 60)
      × (1 ≤ length (slugify lower_normal v))
unfolding slugify
slugify_lem lower_normal v =
    let a = dashed false (lower_normal (string_or_empty v)) in
    let b = trim_start_dashes a in
    let c = trim_end_dashes b in
    or_item_lem (take 60 c)
      (all-take 60 c (
        all-trim_end_dashes b
          (all-trim_start_dashes a (all-dashed false (lower_normal (string_or_empty v))))))
      (length-take 60 c)

digit36_unit : (d : ℕ) → d < 36 → is_path_unit (digit36 d) ≡ true
digit36_unit d h = ground arith

all-base36 : (f n : ℕ) → all is_path_unit (base36 f n) ≡ true
unfolding base36
all-base36 zero n = refl
all-base36 (suc f) n = elim (Bool-cases (ltb n 36)) [
  | inl small ↦ rw small (rw (digit36_unit n (ltb→lt n 36 small)) refl)
  | inr large ↦ rw large (
      all-append (base36 f (n / 36)) _ (all-base36 f (n / 36))
        (rw (digit36_unit (n % 36) (omega arith)) refl))
]

all-short_hash : (v : Json) → (all is_path_unit (short_hash v) ≡ true) × (length (short_hash v) ≤ 6)
unfolding short_hash
all-short_hash v =
    let digits = base36 7 (djb2 5381 (string_or_empty v)) in
    (all-take 6 digits (all-base36 7 (djb2 5381 (string_or_empty v))), length-take 6 digits)

-- The path of a product page is made of small letters, digits and dashes, and has 2 to 67 units.
pub product_slug_lem :
    (lower_normal : Text → Text) (p : Json)
    → (all is_path_unit (product_slug lower_normal p) ≡ true)
      × (2 ≤ length (product_slug lower_normal p))
      × (length (product_slug lower_normal p) ≤ 67)
unfolding product_slug
product_slug_lem lower_normal p =
    let title = slugify lower_normal (prop p (txt "title")) in
    let hash = short_hash (or_json (prop p (txt "link")) (prop p (txt "title"))) in
    let (units, short, given) = slugify_lem lower_normal (prop p (txt "title")) in
    let (digits, few) = all-short_hash (or_json (prop p (txt "link")) (prop p (txt "title"))) in
    let dash : all is_path_unit (b'-' ∷ hash) ≡ true = digits in
    let total = length-append title (b'-' ∷ hash) in
    (all-append title (b'-' ∷ hash) units dash, omega arith, omega arith)
