-- ===== src/Leads/Csv.antt =====
-- The text of the CSV export: `exportCsv` of apps/api/src/leads/leads.service.ts, from the rows on.
-- A field map is read by its own keys; those that every object inherits are not modelled.
pub mod Parse
pub mod Export
use site_foundry.Leads.Fields.{FieldMap, read}
use site_foundry.Json.{fields}
use site_foundry.Prelude.{
  ℕ, Bool, ◌||◌, Option, List, [], ◌∷◌, ◌++◌, map, ◌==◌, if◌then◌else◌, or_else, any,
}
use site_foundry.Text.{Text, txt, text_eq, join}

-- A row of the query: the time of submission is the text of `toISOString`.
pub record LeadRow : Type 0 where
  pub at : Text
  pub fields : FieldMap
  pub source_utm : Option FieldMap

-- `/[",\n]/`
abbrev pub is_special : ℕ → Bool
is_special c = c == b'"' || c == b',' || c == 10

-- `s.replace(/"/g, '""')`
unfoldable pub double_quotes : Text → Text
double_quotes [] = []
double_quotes (c ∷ s) =
    let later = double_quotes s in if c == b'"' then b'"' ∷ b'"' ∷ later else c ∷ later

unfoldable pub escape : Text → Text
escape s = if any is_special s then b'"' ∷ (double_quotes s ++ b'"' ∷ []) else s

-- `escape(v)` for a value that may be missing
abbrev cell : Option Text → Text
cell v = escape (or_else v [])

-- The distinct elements, in the order of their first occurrence: `[...new Set(…)]`
abbrev add_new : Text → List Text → List Text
add_new k ks = if any (text_eq k) ks then ks else ks ++ k ∷ []

add_all : List Text → List Text → List Text
add_all [] seen = seen
add_all (k ∷ ks) seen = add_all ks (add_new k seen)

keys_of : List LeadRow → List Text → List Text
keys_of [] seen = seen
keys_of (l ∷ ls) seen = keys_of ls (add_all (map (λ (f : Text × Text). f.0) l.fields) seen)

unfoldable pub field_keys : List LeadRow → List Text
unfolding keys_of add_all
field_keys leads = keys_of leads []

-- The values of a row, as they are before they are escaped.
unfoldable pub values : List Text → LeadRow → List Text
values keys l =
    let utm = or_else l.source_utm [] in
    map (λ k. or_else (read k l.fields) []) keys
    ++ or_else (read (txt "source") utm) []
      ∷ or_else (read (txt "medium") utm) []
      ∷ or_else (read (txt "campaign") utm) []
      ∷ []

unfoldable pub line : List Text → LeadRow → Text
unfolding values
line keys l = join (txt ",") (l.at ∷ map escape (values keys l))

pub header : List Text → List Text
header keys =
    txt "submitted_at" ∷ (keys ++ txt "utm_source" ∷ txt "utm_medium" ∷ txt "utm_campaign" ∷ [])

unfoldable pub to_csv : List LeadRow → Text
unfolding line field_keys header
to_csv leads =
    let keys = field_keys leads in
    join (txt "\r\n") (join (txt ",") (header keys) ∷ map (line keys) leads) ++ txt "\r\n"
