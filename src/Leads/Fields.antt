-- ===== src/Leads/Fields.antt =====
-- What of a submitted form is kept: `sanitizeFields` and `pickUtm` of
-- apps/api/src/leads/leads.service.ts. An object is its list of entries, in order of insertion; the
-- order that an engine gives to keys that are numbers is not modelled.
use site_foundry.Json.{Json, obj, fields, is_null, to_string}
use site_foundry.Prelude.{
  ℕ, Bool, ◌&&◌, ◌||◌, Option, none, some, List, [], ◌∷◌, leb, ◌==◌, if◌then◌else◌, or_else, take,
  keep,
}
use site_foundry.Text.{Text, txt, text_eq, is_empty}

abbrev pub max_fields : ℕ
max_fields = 12

abbrev pub max_value_len : ℕ
max_value_len = 500

abbrev pub FieldMap : Type 0
FieldMap = List (Text × Text)

-- `m[k]`
unfoldable pub read : Text → FieldMap → Option Text
read k [] = none
read k ((j, v) ∷ rest) = if text_eq j k then some v else read k rest

-- `m[k] = v`
unfoldable pub put : Text → Text → FieldMap → FieldMap
put k v [] = (k, v) ∷ []
put k v ((j, u) ∷ rest) =
    let later = put k v rest in if text_eq j k then (j, v) ∷ rest else (j, u) ∷ later

-- The units of `[\w-]`
abbrev pub is_key_unit : ℕ → Bool
is_key_unit c =
    (leb b'a' c && leb c b'z')
    || (leb b'A' c && leb c b'Z')
    || (leb b'0' c && leb c b'9')
    || c == b'_'
    || c == b'-'

-- `key.replace(/[^\w-]/g, '').slice(0, 40)`
unfoldable pub field_key : Text → Text
field_key key = take 40 (keep is_key_unit key)

-- `out[k] = …`; a text assigned to `__proto__` is no entry.
unfoldable pub set_field : Text → Text → FieldMap → FieldMap
unfolding put
set_field k v out = if text_eq k (txt "__proto__") then out else put k v out

-- The body of the loop of `sanitizeFields`, and the loop
unfoldable pub add_field : Text → Json → FieldMap → FieldMap
add_field key value out =
    if is_empty (field_key key) || is_null value
    then out
    else set_field (field_key key) (take max_value_len (to_string value)) out

unfoldable pub add_fields : List (Text × Json) → FieldMap → FieldMap
unfolding add_field field_key set_field
add_fields [] out = out
add_fields ((key, value) ∷ rest) out = add_fields rest (add_field key value out)

unfoldable pub sanitize_fields : Json → FieldMap
unfolding add_fields
sanitize_fields (obj fs) = add_fields (take max_fields (fields fs)) []
sanitize_fields _ = []

abbrev pub utm_keys : List Text
utm_keys = txt "source" ∷ txt "medium" ∷ txt "campaign" ∷ txt "content" ∷ txt "term" ∷ []

pub pick : List Text → FieldMap → FieldMap
unfolding read
pick [] utm = []
pick (key ∷ keys) utm =
    let later = pick keys utm in
    let v = or_else (read key utm) [] in if is_empty v then later else (key, take 200 v) ∷ later

abbrev pub some_fields : FieldMap → Option FieldMap
some_fields [] = none
some_fields (f ∷ fs) = some (f ∷ fs)

unfoldable pub pick_utm : Option FieldMap → Option FieldMap
unfolding pick
pick_utm none = none
pick_utm (some utm) = some_fields (pick utm_keys utm)
