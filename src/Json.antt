-- ===== src/Json.antt =====
-- The parsed JSON that the source reads by property, such as a site's `params`. A missing property
-- reads as `null`: the source tells `null` and `undefined` apart nowhere. Numbers are the
-- non-negative whole ones. The keys of an object are distinct, in the order of `Object.entries`.
use site_foundry.Effects.{type_error, Result, ok, thrown}
use site_foundry.Prelude.{
  ℕ, suc, ◌≡◌, refl, Bool, true, false, not, List, [], ◌∷◌, ◌++◌, arith, ◌==◌, if◌then◌else◌,
}
use site_foundry.Text.{Text, txt, text_eq, is_empty, trim, show}

mutual
  pub data Json : Type 0 where
    null : Json
    bool : Bool → Json
    num : ℕ → Json
    str : Text → Json
    arr : Items → Json
    obj : Fields → Json

  pub data Items : Type 0 where
    nil : Items
    cons : Json → Items → Items

  pub data Fields : Type 0 where
    end : Fields
    member : Text → Json → Fields → Fields

abbrev pub items : Items → List Json
items nil = []
items (cons v vs) = v ∷ items vs

abbrev pub fields : Fields → List (Text × Json)
fields end = []
fields (member k v fs) = (k, v) ∷ fields fs

unfoldable pub lookup : Text → List (Text × Json) → Json
lookup k [] = null
lookup k ((j, v) ∷ rest) = if text_eq j k then v else lookup k rest

-- `v?.[k]`: `null` has no properties, and the built-in ones of other values are not read.
unfoldable pub prop : Json → Text → Json
unfolding lookup
prop (obj fs) k = lookup k (fields fs)
prop _ k = null

abbrev pub is_null : Json → Bool
is_null null = true
is_null _ = false

-- `v ?? d`
abbrev pub default_to : Json → Json → Json
default_to null d = d
default_to v d = v

abbrev pub is_truthy : Json → Bool
is_truthy null = false
is_truthy (bool b) = b
is_truthy (num n) = not (n == 0)
is_truthy (str s) = not (is_empty s)
is_truthy _ = true

-- `Array.isArray(v) ? v : []`
abbrev pub array_of : Json → List Json
array_of (arr vs) = items vs
array_of _ = []

abbrev pub is_array : Json → Bool
is_array (arr vs) = true
is_array _ = false

abbrev pub is_str : Json → Text → Bool
is_str (str s) t = text_eq s t
is_str _ t = false

indexed : ℕ → List Json → List (Text × Json)
indexed i [] = []
indexed i (v ∷ vs) = (show i, v) ∷ indexed (suc i) vs

-- `Object.entries(v)`; the entries of a text are its characters, and no reader finds a property
-- in one.
unfoldable pub entries : Json → List (Text × Json)
unfolding indexed
entries (obj fs) = fields fs
entries (arr vs) = indexed 0 (items vs)
entries _ = []

-- `String(v)`
unfoldable mutual
  unfolding txt

  pub to_string : Json → Text
  to_string null = txt "null"
  to_string (bool true) = txt "true"
  to_string (bool false) = txt "false"
  to_string (num n) = show n
  to_string (str s) = s
  to_string (arr vs) = elements vs
  to_string (obj fs) = txt "[object Object]"

  -- `join(',')`, in which `null` is the empty text
  pub elements : Items → Text
  elements nil = []
  elements (cons v nil) = element v
  elements (cons v (cons w vs)) = element v ++ (txt "," ++ elements (cons w vs))

  pub element : Json → Text
  element null = []
  element (bool true) = txt "true"
  element (bool false) = txt "false"
  element (num n) = show n
  element (str s) = s
  element (arr vs) = elements vs
  element (obj fs) = txt "[object Object]"

-- `v?.trim()`, and `(v ?? '').trim()`: only a text has the method.
unfoldable pub trimmed : Json → Result Text
trimmed null = ok []
trimmed (str s) = ok (trim s)
trimmed _ = thrown type_error (txt "trim is not a function")

-- A text that is not blank.
pub record IsFilled (v : Json) : Type 0 where
  pub value : Text
  pub is_text : v ≡ str value
  pub not_blank : is_empty (trim value) ≡ false

pub IsFilled-of_trimmed : (v : Json) (s : Text) → trimmed v ≡ ok s → is_empty s ≡ false → IsFilled v
unfolding trimmed
IsFilled-of_trimmed null s h e = absurd (ground arith)
IsFilled-of_trimmed (str t) s h e = record { value = t; is_text = refl; not_blank = ground arith }
IsFilled-of_trimmed _ s h e = absurd (cc)

pub trimmed_of_IsFilled : {v : Json} (f : IsFilled v) → trimmed v ≡ ok (trim f.value)
unfolding trimmed
trimmed_of_IsFilled f = rw f.is_text refl
