-- ===== src/Preflight/Schema/Complete.antt =====
-- When the walk over the schema finds nothing.
use site_foundry.Preflight.Schema.{
  PreflightError, is_missing, required_errors, is_too_long, length_errors, block_errors, walk,
  schema_errors,
}
use site_foundry.Json.{
  Json, obj, end, prop, default_to, array_of, is_array, is_str, entries, to_string,
}
use site_foundry.Prelude.{
  ◌≡◌, refl, inl, inr, Bool, true, false, ◌&&◌, not, List, [], ◌∷◌, ◌++◌, if◌then◌else◌, Bool-cases,
  All,
}
use site_foundry.Text.{Text, txt}

append_ne_nil : (xs : List PreflightError) (e : PreflightError) → xs ++ e ∷ [] ≡ [] → ⊥
append_ne_nil [] e h = cc
append_ne_nil (x ∷ xs) e h = cc

abbrev pub IsGiven : Json → Json → Type 0
IsGiven block name = is_missing (prop block (to_string name)) ≡ false

abbrev pub IsShort : Json → Text × Json → Type 0
IsShort block (name, schema) = is_too_long (prop schema (txt "maxLength")) (prop block name) ≡ false

-- The test fails on an empty list of errors only by the second half.
given_of :
    (missing : Bool) (e : PreflightError)
    → (if not false && missing then [] ++ e ∷ [] else []) ≡ []
    → missing ≡ false
given_of true e h = cc
given_of false e h = refl

short_of :
    (long : Bool) (e : PreflightError) → (if long then [] ++ e ∷ [] else []) ≡ [] → long ≡ false
short_of true e h = cc
short_of false e h = refl

grown_of :
    (b : Bool) (errors : List PreflightError) (e : PreflightError)
    → (if b then errors ++ e ∷ [] else errors) ≡ []
    → errors ≡ []
grown_of true errors e h = absurd (append_ne_nil errors e h)
grown_of false errors e h = h

required_lem :
    (key : Text) (schema block : Json) (names : List Json) (errors : List PreflightError)
    → required_errors key schema block names errors ≡ []
    → (errors ≡ []) × All (IsGiven block) names
unfolding required_errors
required_lem key schema block [] errors h = (h, tt)
required_lem key schema block (name ∷ names) errors h =
    let (here, later) = required_lem key schema block names _ h in
    let empty = grown_of _ errors _ here in (empty, (given_of _ _ (rw empty at here), later))

length_lem :
    (key : Text) (block : Json) (schemas : List (Text × Json)) (errors : List PreflightError)
    → length_errors key block schemas errors ≡ []
    → (errors ≡ []) × All (IsShort block) schemas
unfolding length_errors
length_lem key block [] errors h = (h, tt)
length_lem key block ((name, schema) ∷ rest) errors h =
    let (here, later) = length_lem key block rest _ h in
    let empty = grown_of _ errors _ here in (empty, (short_of _ _ (rw empty at here), later))

-- A block of the schema that is an object with required fields is met by the block of the
-- parameters: no required field is missing, and no text is longer than its `maxLength`.
abbrev pub IsMet : Json → Text × Json → Type 0
IsMet params (key, schema) =
    is_str (prop schema (txt "type")) (txt "object") && is_array (prop schema (txt "required"))
      ≡ true
    → All (IsGiven (default_to (prop params key) (obj end)))
        (array_of (prop schema (txt "required")))
      × All (IsShort (default_to (prop params key) (obj end)))
          (entries (prop schema (txt "properties")))

block_lem :
    (params : Json) (key : Text) (schema : Json) (errors : List PreflightError)
    → block_errors params key schema errors ≡ []
    → (errors ≡ []) × IsMet params (key, schema)
block_lem params key schema errors h =
    elim (Bool-cases (
      is_str (prop schema (txt "type")) (txt "object")
      && is_array (prop schema (txt "required")))) [
        | inl checked ↦
            let (e1, short) = length_lem key _ _ _ (rw checked at h) in
            let (e2, given) = required_lem key schema _ _ errors e1 in (e2, λ _. (given, short))
        | inr skipped ↦ (rw skipped at h, λ on. absurd (cc (skipped, on)))
      ]

walk_lem :
    (params : Json) (blocks : List (Text × Json)) (errors : List PreflightError)
    → walk params blocks errors ≡ []
    → (errors ≡ []) × All (IsMet params) blocks
unfolding walk
walk_lem params [] errors h = (h, tt)
walk_lem params ((key, schema) ∷ rest) errors h =
    let (here, later) = walk_lem params rest _ h in
    let (empty, met) = block_lem params key schema errors here in (empty, (met, later))

pub schema_errors_lem :
    (params schema : Json) (errors : List PreflightError)
    → schema_errors params schema errors ≡ []
    → (errors ≡ []) × All (IsMet params) (entries (prop schema (txt "properties")))
unfolding schema_errors
schema_errors_lem params schema errors h =
    walk_lem params (entries (prop schema (txt "properties"))) errors h
