-- ===== src/Preflight/Schema.antt =====
-- The walk over the template's JSON schema, the last block of `runPreflight`. It reads the errors
-- found so far, so that a field is not reported as missing twice.
pub mod Complete
use site_foundry.Json.{
  Json, num, str, obj, end, prop, is_null, default_to, array_of, is_array, is_str, entries,
  to_string,
}
use site_foundry.Prelude.{
  Bool, false, ◌&&◌, ◌||◌, not, List, [], ◌∷◌, ◌++◌, ltb, ◌==◌, if◌then◌else◌, length, any,
}
use site_foundry.Text.{Text, txt, text_eq, is_empty, trim, show}

pub record PreflightError : Type 0 where
  pub field : Text
  pub message : Text

abbrev pub has_error : Text → List PreflightError → Bool
has_error field errors = any (λ (e : PreflightError). text_eq e.field field) errors

abbrev dotted : Text → Text → Text
dotted a b = a ++ (txt "." ++ b)

-- `value === undefined || value === null || String(value).trim() === ''`
abbrev is_missing : Json → Bool
is_missing v = is_null v || is_empty (trim (to_string v))

-- `blockSchema.properties?.[name]?.title ?? name`
abbrev title_of : Json → Text → Json → Text
title_of block_schema name fallback =
    to_string
      (default_to (prop (prop (prop block_schema (txt "properties")) name) (txt "title")) fallback)

-- the loop over `blockSchema.required`
required_errors : Text → Json → Json → List Json → List PreflightError → List PreflightError
required_errors key block_schema block [] errors = errors
required_errors key block_schema block (name ∷ names) errors =
    let field = dotted key (to_string name) in
    required_errors key block_schema block names (
      if not (has_error field errors) && is_missing (prop block (to_string name))
      then errors
        ++ record {
          field = field;
          message = title_of block_schema (to_string name) name ++ txt " is required";
        }
          ∷ []
      else errors)

-- `max && typeof value === 'string' && value.length > max`, for a `maxLength` that is a number.
abbrev is_too_long : Json → Json → Bool
is_too_long (num max) (str s) = not (max == 0) && ltb max (length s)
is_too_long _ _ = false

abbrev units : Json → Text
units (str s) = show (length s)
units _ = []

-- the loop over the `maxLength` of the fields; a `maxLength` that is no number, which JavaScript would
-- coerce, is taken as none
length_errors : Text → Json → List (Text × Json) → List PreflightError → List PreflightError
length_errors key block [] errors = errors
length_errors key block ((name, schema) ∷ rest) errors =
    let max = prop schema (txt "maxLength") in
    let value = prop block name in
    length_errors key block rest (
      if is_too_long max value
      then errors
        ++ record {
          field = dotted key name;
          message =
              to_string (default_to (prop schema (txt "title")) (str name))
              ++ (txt " is "
                  ++ (units value ++ (txt " chars (maximum " ++ (to_string max ++ txt ")"))));
        }
          ∷ []
      else errors)

-- one block of the schema; the `continue` leaves the errors as they are
abbrev block_errors : Json → Text → Json → List PreflightError → List PreflightError
block_errors params key schema errors =
    if is_str (prop schema (txt "type")) (txt "object") && is_array (prop schema (txt "required"))
    then length_errors key (default_to (prop params key) (obj end))
        (entries (prop schema (txt "properties")))
        (required_errors key schema (default_to (prop params key) (obj end))
          (array_of (prop schema (txt "required"))) errors)
    else errors

walk : Json → List (Text × Json) → List PreflightError → List PreflightError
unfolding required_errors length_errors
walk params [] errors = errors
walk params ((key, schema) ∷ rest) errors = walk params rest (block_errors params key schema errors)

unfoldable pub schema_errors : Json → Json → List PreflightError → List PreflightError
unfolding walk
schema_errors params schema errors = walk params (entries (prop schema (txt "properties"))) errors
