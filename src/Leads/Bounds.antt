-- ===== src/Leads/Bounds.antt =====
-- The sizes of what is kept of a form.
use site_foundry.Leads.Fields.{
  max_fields, max_value_len, FieldMap, put, is_key_unit, field_key, set_field, add_field,
  add_fields, sanitize_fields,
}
use site_foundry.Json.{Json, obj, fields, is_null, to_string}
use site_foundry.Prelude.{
  ℕ, zero, suc, ◌+◌, ◌≤◌, ◌≡◌, refl, sym, subst, inl, inr, Bool, true, false, ◌||◌, List, [], ◌∷◌,
  arith, Bool-cases, length, take, keep, all, length-take, All,
}
use site_foundry.Text.{Text, txt, text_eq, text_eq_iff, is_empty}

-- An entry that may be stored: its key has 1 to 40 units, each a letter, a digit, `_` or `-`, and
-- its value at most 500.
pub record IsField (f : Text × Text) : Type 0 where
  pub named : 1 ≤ length f.0
  pub short_key : length f.0 ≤ 40
  pub plain_key : all is_key_unit f.0 ≡ true
  pub short_value : length f.1 ≤ max_value_len

all-take : (p : ℕ → Bool) (n : ℕ) (s : Text) → all p s ≡ true → all p (take n s) ≡ true
all-take p zero s h = refl
all-take p (suc n) [] h = refl
all-take p (suc n) (c ∷ s) h = grind (arith, all-take p n s)

all-keep : (p : ℕ → Bool) (s : Text) → all p (keep p s) ≡ true
all-keep p [] = refl
all-keep p (c ∷ s) = grind (arith, all-keep p s)

length-put : (k v : Text) (m : FieldMap) → length (put k v m) ≤ suc (length m)
unfolding put
length-put k v [] = omega arith
length-put k v ((j, u) ∷ rest) = grind (arith, length-put k v rest)

put-IsField : (k v : Text) (m : FieldMap) → IsField (k, v) → All IsField m → All IsField (put k v m)
unfolding put
put-IsField k v [] h hs = (h, tt)
put-IsField k v ((j, u) ∷ rest) h (g, hs) = elim (Bool-cases (text_eq j k)) [
  | inl same ↦ rw same (subst (λ x. IsField (x, v)) (sym ((text_eq_iff j k).0 same)) h, hs)
  | inr other ↦ rw other (g, put-IsField k v rest h hs)
]

abbrev Grown : FieldMap → ℕ → FieldMap → Type 0
Grown m n out = (length out ≤ length m + n) × All IsField out

set_field_lem :
    (k v : Text) (m : FieldMap) → IsField (k, v) → All IsField m → Grown m 1 (set_field k v m)
unfolding set_field
set_field_lem k v m h hs = elim (Bool-cases (text_eq k (txt "__proto__"))) [
  | inl proto ↦ rw proto (omega arith, hs)
  | inr named ↦ rw named (omega (arith, length-put k v m), put-IsField k v m h hs)
]

value_lem :
    (key : Text) (v : Text)
    → is_empty (field_key key) ≡ false
    → IsField (field_key key, take max_value_len v)
unfolding field_key
value_lem key v h = record {
  named = nonempty (take 40 (keep is_key_unit key)) h;
  short_key = length-take 40 (keep is_key_unit key);
  plain_key = all-take is_key_unit 40 (keep is_key_unit key) (all-keep is_key_unit key);
  short_value = length-take max_value_len v;
}
  where
    nonempty : (s : Text) → is_empty s ≡ false → 1 ≤ length s
    nonempty [] h = absurd (cc)
    nonempty (c ∷ s) h = omega arith

add_field_lem :
    (key : Text) (value : Json) (m : FieldMap) → All IsField m → Grown m 1 (add_field key value m)
unfolding add_field
add_field_lem key value m hs = elim (Bool-cases (is_empty (field_key key) || is_null value)) [
  | inl skipped ↦ rw skipped (omega arith, hs)
  | inr kept ↦ rw kept (
      set_field_lem (field_key key) (take max_value_len (to_string value)) m
        (value_lem key (to_string value) (ground arith)) hs)
]

add_fields_lem :
    (entries : List (Text × Json)) (m : FieldMap)
    → All IsField m
    → Grown m (length entries) (add_fields entries m)
unfolding add_fields
add_fields_lem [] m hs = (omega arith, hs)
add_fields_lem ((key, value) ∷ rest) m hs =
    let (one, valid) = add_field_lem key value m hs in
    let (few, each) = add_fields_lem rest (add_field key value m) valid in (omega arith, each)

-- Of any submitted value at most 12 entries are kept; each key has 1 to 40 units that are letters,
-- digits, `_` or `-`, and each value at most 500 units.
pub sanitize_fields-IsField :
    (raw : Json) → (length (sanitize_fields raw) ≤ max_fields) × All IsField (sanitize_fields raw)
unfolding sanitize_fields
sanitize_fields-IsField (obj fs) =
    let (few, each) = add_fields_lem (take max_fields (fields fs)) [] tt in
    (omega (arith, length-take max_fields (fields fs)), each)
sanitize_fields-IsField _ = (omega arith, tt)
