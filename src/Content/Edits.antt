-- ===== src/Content/Edits.antt =====
-- Which edits are accepted: `ALLOWED_PATHS` and `sanitizeEdits` of
-- apps/api/src/content/content.service.ts. No class of the patterns holds a dot, so a path is
-- matched by its parts.
use site_foundry.Content.Path.{parts, is_digit, all_digits}
use site_foundry.Leads.Fields.{FieldMap, put}
use site_foundry.Json.{Json, obj, fields, is_null, to_string}
use site_foundry.Prelude.{
  ℕ, suc, ◌≤◌, ◌≡◌, inl, inr, Bool, true, false, ◌&&◌, ◌||◌, not, List, [], ◌∷◌, arith, leb, ◌==◌,
  if◌then◌else◌, Bool-cases, length, take, any, all, length-take, All,
}
use site_foundry.Text.{Text, txt, text_eq, is_space, trim}

abbrev pub max_len : ℕ
max_len = 4000

abbrev pub max_edits : ℕ
max_edits = 300

abbrev one_of : List Text → Text → Bool
one_of names s = any (text_eq s) names

unfoldable pub brand_fields : List Text
brand_fields = txt "business_name" ∷ txt "primary_color" ∷ txt "secondary_color" ∷ []

unfoldable pub hero_fields : List Text
hero_fields = txt "headline" ∷ txt "subheadline" ∷ txt "cta_text" ∷ []

unfoldable pub seo_fields : List Text
seo_fields = txt "page_title" ∷ txt "meta_description" ∷ []

unfoldable pub trust_fields : List Text
trust_fields = txt "business_name" ∷ txt "contact_email" ∷ txt "contact_phone" ∷ txt "address" ∷ []

unfoldable pub retailer_fields : List Text
retailer_fields =
    txt "phone"
    ∷ txt "hours"
    ∷ txt "tagline"
    ∷ txt "description"
    ∷ txt "hq"
    ∷ txt "founded"
    ∷ txt "category"
    ∷ []

-- `\d{1,2}`
abbrev is_claim_index : Text → Bool
is_claim_index s = all_digits s && leb (length s) 2

-- `[a-z0-9-]{1,60}`
abbrev is_slug_unit : ℕ → Bool
is_slug_unit c = (leb b'a' c && leb c b'z') || is_digit c || c == b'-'

abbrev is_slug : Text → Bool
is_slug s = leb 1 (length s) && leb (length s) 60 && all is_slug_unit s

-- the patterns of two parts
unfoldable pub is_pair : Text → Text → Bool
unfolding all_digits
is_pair block field =
    (text_eq block (txt "brand") && one_of brand_fields field)
    || (text_eq block (txt "hero") && one_of hero_fields field)
    || (text_eq block (txt "seo") && one_of seo_fields field)
    || (text_eq block (txt "trust") && one_of trust_fields field)
    || (text_eq block (txt "ad_claims") && is_claim_index field)

unfoldable pub is_allowed_parts : List Text → Bool
is_allowed_parts (a ∷ b ∷ []) = is_pair a b
is_allowed_parts (a ∷ b ∷ c ∷ []) =
    text_eq a (txt "retailers") && is_slug b && one_of retailer_fields c
is_allowed_parts _ = false

unfoldable pub is_allowed : Text → Bool
is_allowed path = is_allowed_parts (parts path)

-- `s.replace(/\s+/g, ' ')`; the flag says that the unit before was white space.
unfoldable pub collapse : Bool → Text → Text
unfolding is_space
collapse after [] = []
collapse after (c ∷ s) =
    let inside = collapse true s in
    let later = collapse false s in
    if is_space c then (if after then inside else b' ' ∷ inside) else c ∷ later

unfoldable pub clean : Json → Text
unfolding collapse
clean v = take max_len (trim (collapse false (to_string v)))

-- The loop of `sanitizeEdits`, from `n` accepted edits on
unfoldable pub accept_edits : ℕ → List (Text × Json) → FieldMap → FieldMap
accept_edits n [] out = out
accept_edits n ((path, v) ∷ rest) out = elim (leb max_edits n) [
  | true ↦ out
  | false ↦ elim (is_null v || not (is_allowed path)) [
    | true ↦ accept_edits n rest out
    | false ↦ accept_edits (suc n) rest (put path (clean v) out)
  ]
]

unfoldable pub sanitize_edits : Json → FieldMap
unfolding accept_edits
sanitize_edits (obj fs) = accept_edits 0 (fields fs) []
sanitize_edits _ = []

-- An edit that may be written.
pub record IsEdit (e : Text × Text) : Type 0 where
  pub allowed : is_allowed e.0 ≡ true
  pub short : length e.1 ≤ max_len

put-IsEdit : (k v : Text) (m : FieldMap) → IsEdit (k, v) → All IsEdit m → All IsEdit (put k v m)
unfolding put
put-IsEdit k v [] h hs = (h, tt)
put-IsEdit k v ((j, u) ∷ rest) h (g, hs) = elim (Bool-cases (text_eq j k)) [
  | inl same ↦ rw same (record { allowed = g.allowed; short = h.short }, hs)
  | inr other ↦ rw other (g, put-IsEdit k v rest h hs)
]

length-put : (k v : Text) (m : FieldMap) → length (put k v m) ≤ suc (length m)
unfolding put
length-put k v [] = omega arith
length-put k v ((j, u) ∷ rest) = grind (arith, length-put k v rest)

length-clean : (v : Json) → length (clean v) ≤ max_len
unfolding clean
length-clean v = length-take max_len (trim (collapse false (to_string v)))

accept_edits_lem :
    (n : ℕ) (entries : List (Text × Json)) (out : FieldMap)
    → length out ≤ n
    → n ≤ max_edits
    → All IsEdit out
    → (length (accept_edits n entries out) ≤ max_edits) × All IsEdit (accept_edits n entries out)
unfolding accept_edits
accept_edits_lem n [] out few within each = (omega arith, each)
accept_edits_lem n ((path, v) ∷ rest) out few within each = elim (Bool-cases (leb max_edits n)) [
  | inl full ↦ rw (accept_edits, full) (omega arith, each)
  | inr room ↦ elim (Bool-cases (is_null v || not (is_allowed path))) [
    | inl dropped ↦ rw (accept_edits, room, dropped) (accept_edits_lem n rest out few within each)
    | inr kept ↦
        let edit : IsEdit (path, clean v) = record {
          allowed = ground arith;
          short = length-clean v;
        } in
        rw (accept_edits, room, kept)
          (accept_edits_lem (suc n) rest (put path (clean v) out)
            (omega (arith, length-put path (clean v) out)) (ground arith)
            (put-IsEdit path (clean v) out edit each))
  ]
]

-- Of any submitted value at most 300 edits are accepted, each at an allowed path and with a value
-- of at most 4000 units.
pub sanitize_edits-IsEdit :
    (raw : Json) → (length (sanitize_edits raw) ≤ max_edits) × All IsEdit (sanitize_edits raw)
unfolding sanitize_edits
sanitize_edits-IsEdit (obj fs) = accept_edits_lem 0 (fields fs) [] (omega arith) (omega arith) tt
sanitize_edits-IsEdit _ = (omega arith, tt)
