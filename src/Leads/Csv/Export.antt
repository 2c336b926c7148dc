-- ===== src/Leads/Csv/Export.antt =====
-- The export read back by the reader of Parse.antt.
use site_foundry.Leads.Csv.{
  LeadRow, add_new, add_all, keys_of, field_keys, values, line, header, to_csv, escape,
}
use site_foundry.Leads.Csv.Parse.{IsPlain, parse_csv, record_text, records_lem}
use site_foundry.Leads.Fields.{FieldMap}
use site_foundry.Prelude.{
  All, All-append, All-last, [], ◌≡◌, refl, sym, ap, subst, ◌∙◌, inl, inr, List, ◌∷◌, ◌++◌, map,
  if◌then◌else◌, Bool-cases, any,
}
use site_foundry.Text.{text_eq, Text, txt, join}

plain_escape : (s : Text) → IsPlain s → escape s ≡ s
unfolding escape
plain_escape s h = rw h refl

plain_all : (ks : List Text) → All IsPlain ks → map escape ks ≡ ks
plain_all [] h = refl
plain_all (k ∷ ks) (h, hs) =
    ap (λ t. t ∷ map escape ks) (plain_escape k h) ∙ ap (◌∷◌ k) (plain_all ks hs)

-- The time and the field names of a row need no quotes.
abbrev pub IsPlainRow : LeadRow → Type 0
IsPlainRow l = IsPlain l.at × All (λ (f : Text × Text). IsPlain f.0) l.fields

add_new-IsPlain :
    (k : Text) (seen : List Text) → IsPlain k → All IsPlain seen → All IsPlain (add_new k seen)
add_new-IsPlain k seen h hs = elim (Bool-cases (any (text_eq k) seen)) [
  | inl old ↦ subst (λ b. All IsPlain (if b then seen else seen ++ k ∷ [])) (sym old) hs
  | inr new ↦
      subst (λ b. All IsPlain (if b then seen else seen ++ k ∷ [])) (sym new)
        (All-last _ seen k hs h)
]

add_all-IsPlain :
    (fields : FieldMap) (seen : List Text)
    → All (λ (f : Text × Text). IsPlain f.0) fields
    → All IsPlain seen
    → All IsPlain (add_all (map (λ (f : Text × Text). f.0) fields) seen)
unfolding add_all
add_all-IsPlain [] seen h k = k
add_all-IsPlain ((key, v) ∷ fields) seen (h, hs) k =
    add_all-IsPlain fields (add_new key seen) hs (add_new-IsPlain key seen h k)

keys_of-IsPlain :
    (leads : List LeadRow) (seen : List Text)
    → All IsPlainRow leads
    → All IsPlain seen
    → All IsPlain (keys_of leads seen)
unfolding keys_of
keys_of-IsPlain [] seen h k = k
keys_of-IsPlain (l ∷ leads) seen (h, hs) k =
    keys_of-IsPlain leads _ hs (add_all-IsPlain l.fields seen h.1 k)

-- The columns after the first
abbrev columns : List Text → List Text
columns keys = keys ++ txt "utm_source" ∷ txt "utm_medium" ∷ txt "utm_campaign" ∷ []

header-plain :
    (keys : List Text)
    → All IsPlain keys
    → record_text (txt "submitted_at", columns keys) ≡ join (txt ",") (header keys)
unfolding header txt
header-plain keys h =
    ap (join (txt ","))
      (plain_all (header keys) (refl, All-append _ keys _ h (refl, (refl, (refl, tt)))))

lines_lem :
    (keys : List Text) (leads : List LeadRow)
    → All IsPlainRow leads
    → map (line keys) leads ≡ map (λ (l : LeadRow). record_text (l.at, values keys l)) leads
unfolding line
lines_lem keys [] h = refl
lines_lem keys (l ∷ leads) (h, hs) =
    ap (λ t. join (txt ",") (t ∷ map escape (values keys l)) ∷ map (line keys) leads)
      (sym (plain_escape l.at h.0))
    ∙ ap (λ rest. record_text (l.at, values keys l) ∷ rest) (lines_lem keys leads hs)

map-map :
    {A B C : Type 0} (f : B → C) (g : A → B) (xs : List A)
    → map f (map g xs) ≡ map (λ x. f (g x)) xs
map-map f g [] = refl
map-map f g (x ∷ xs) = ap (λ rest. f (g x) ∷ rest) (map-map f g xs)

-- The whole export reads back, as the header and one record for each lead, in order: the time of
-- the lead and the lead's values, one for each key and UTM column, whatever quotes, commas and line
-- feeds the values hold, if no time and no key holds one. The reader takes a carriage return that no
-- line feed follows as a unit like any other.
pub parse_csv-to_csv :
    (leads : List LeadRow)
    → All IsPlainRow leads
    → parse_csv (to_csv leads)
      ≡ header (field_keys leads) ∷ map (λ (l : LeadRow). l.at ∷ values (field_keys leads) l) leads
unfolding to_csv field_keys header
parse_csv-to_csv leads h =
    let keys = field_keys leads in
    let plain_keys = keys_of-IsPlain leads [] h tt in
    let row_of : LeadRow → Text × List Text = λ l. (l.at, values keys l) in
    ap (λ t. parse_csv (join (txt "\r\n") t ++ txt "\r\n"))
      (ap (λ hd. hd ∷ map (line keys) leads) (sym (header-plain keys plain_keys))
        ∙ ap (λ rest. record_text (txt "submitted_at", columns keys) ∷ rest)
            (lines_lem keys leads h ∙ sym (map-map record_text row_of leads)))
    ∙ records_lem (txt "submitted_at", columns keys) (map row_of leads)
    ∙ ap (λ rest. header keys ∷ rest) (map-map _ row_of leads)
