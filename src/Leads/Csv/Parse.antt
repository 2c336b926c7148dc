-- ===== src/Leads/Csv/Parse.antt =====
-- A reader of CSV files, by the rules of RFC 4180, applied to the export.
use mathlib.Core.List.{append_assoc}
use site_foundry.Leads.Csv.{is_special, double_quotes, escape}
use site_foundry.Prelude.{
  [], ℕ, ◌≡◌, refl, sym, ap, subst, ◌∙◌, inl, inr, false, ◌||◌, List, ◌∷◌, ◌++◌, map, arith, ◌==◌,
  if◌then◌else◌, Bool-cases, any,
}
use site_foundry.Text.{Text, txt, join}

-- Where the reader stands: at the start of a record or of a field, in a plain field, in a quoted
-- one, after a quote in a quoted one, or after a carriage return outside quotes.
data Place : Type 0 where
  fresh start plain quoted closing after_return : Place

abbrev Rows : Type 0
Rows = List (List Text)

-- Before the first unit of a field; at the end of one; at the end of a record.
abbrev push_field : ℕ → List Text → List Text
push_field c [] = (c ∷ []) ∷ []
push_field c (f ∷ fs) = (c ∷ f) ∷ fs

abbrev push : ℕ → Rows → Rows
push c [] = ((c ∷ []) ∷ []) ∷ []
push c (r ∷ rs) = push_field c r ∷ rs

abbrev next_field : Rows → Rows
next_field [] = ([] ∷ []) ∷ []
next_field (r ∷ rs) = ([] ∷ r) ∷ rs

abbrev end_record : Rows → Rows
end_record rs = ([] ∷ []) ∷ rs

-- A unit outside quotes: `read` is the rest of the text, read from a place.
abbrev outside : ℕ → (Place → Rows) → Rows
outside c read =
    if c == b','
    then next_field (read start)
    else if c == 10
    then end_record (read fresh)
    else if c == 13
    then read after_return
    else push c (read plain)

abbrev act : Place → ℕ → (Place → Rows) → Rows
act fresh c read = if c == b'"' then read quoted else outside c read
act start c read = if c == b'"' then read quoted else outside c read
act plain c read = outside c read
act quoted c read = if c == b'"' then read closing else push c (read quoted)
act closing c read = if c == b'"' then push c (read quoted) else outside c read
act after_return c read = if c == 10 then end_record (read fresh) else push 13 (outside c read)

abbrev finish : Place → Rows
finish fresh = []
finish after_return = push 13 (end_record [])
finish _ = end_record []

parse : Place → Text → Rows
parse place [] = finish place
parse place (c ∷ s) = act place c (λ p. parse p s)

-- The records of a file: outside quotes a comma ends a field, and a line feed, with the carriage
-- return before it if there is one, ends a record; two quotes inside quotes are one.
pub parse_csv : Text → List (List Text)
parse_csv s = parse fresh s

-- No quote, comma or line feed
abbrev pub IsPlain : Text → Type 0
IsPlain s = any (λ c. c == b'"' || c == b',' || c == 10) s ≡ false

abbrev push_all : Text → Rows → Rows
push_all [] rs = rs
push_all (c ∷ s) rs = push c (push_all s rs)

push_all_lem : (s : Text) (fs : List Text) (rs : Rows) → push_all s (([] ∷ fs) ∷ rs) ≡ (s ∷ fs) ∷ rs
push_all_lem [] fs rs = refl
push_all_lem (c ∷ s) fs rs = ap (push c) (push_all_lem s fs rs)

quoted_lem :
    (s rest : Text)
    → parse quoted (double_quotes s ++ b'"' ∷ rest) ≡ push_all s (parse closing rest)
unfolding parse double_quotes
quoted_lem [] rest = refl
quoted_lem (c ∷ s) rest = elim (Bool-cases (c == b'"')) [
  | inl quote ↦ grind (arith, quoted_lem s rest)
  | inr other ↦ grind (arith, quoted_lem s rest)
]

-- A text that ends a field wherever the reader stands outside quotes.
record Ends (rest : Text) (rs : Rows) : Type 0 where
  in_plain : parse plain rest ≡ rs
  in_start : parse start rest ≡ rs
  in_closing : parse closing rest ≡ rs
  returned : parse after_return rest ≡ push 13 rs

plain_lem :
    (s rest : Text) (rs : Rows)
    → IsPlain s
    → Ends rest rs
    → (parse plain (s ++ rest) ≡ push_all s rs)
      × (parse after_return (s ++ rest) ≡ push 13 (push_all s rs))
unfolding parse
plain_lem [] rest rs h e = (e.in_plain, e.returned)
plain_lem (c ∷ s) rest rs h e =
    let ih = plain_lem s rest rs (ground (arith, h)) e in
    let ih_plain = ih.0 in
    let ih_returned = ih.1 in
    let no_comma : (c == b',') ≡ false = ground (arith, h) in
    let no_feed : (c == 10) ≡ false = ground (arith, h) in
    elim (Bool-cases (c == 13)) [
      | inl return ↦
          let here : c ≡ 13 = ground (arith, return) in
          let later : parse after_return (s ++ rest) ≡ push c (push_all s rs) =
            subst (λ d. parse after_return (s ++ rest) ≡ push d (push_all s rs)) (sym here)
              ih_returned in
          rw (no_comma, no_feed, return) (later, ap (push 13) later)
      | inr other ↦
          rw (no_comma, no_feed, other)
            (ap (push c) ih_plain, ap (λ r. push 13 (push c r)) ih_plain)
    ]

Ends-comma : (t : Text) → Ends (b',' ∷ t) (next_field (parse start t))
unfolding parse
Ends-comma t = record { in_plain = refl; in_start = refl; in_closing = refl; returned = refl }

Ends-return : (t : Text) → Ends (13 ∷ 10 ∷ t) (end_record (parse fresh t))
unfolding parse
Ends-return t = record { in_plain = refl; in_start = refl; in_closing = refl; returned = refl }

bare_lem :
    (s rest : Text) (rs : Rows) → IsPlain s → Ends rest rs → parse start (s ++ rest) ≡ push_all s rs
unfolding parse
bare_lem [] rest rs h e = e.in_start
bare_lem (c ∷ s) rest rs h e =
    let no_quote : (c == b'"') ≡ false = ground (arith, h) in
    let as_plain = (plain_lem (c ∷ s) rest rs h e).0 in rw no_quote as_plain

escape_lem :
    (s rest : Text) (rs : Rows) → Ends rest rs → parse start (escape s ++ rest) ≡ push_all s rs
unfolding escape parse
escape_lem s rest rs e = elim (Bool-cases (any is_special s)) [
  | inl special ↦
      rw (special, append_assoc (double_quotes s) (b'"' ∷ []) rest)
        (quoted_lem s rest ∙ ap (push_all s) e.in_closing)
  | inr simple ↦ rw simple (bare_lem s rest rs simple e)
]

-- The text of a record, all of whose fields are escaped
abbrev pub record_text : Text × List Text → Text
record_text (f, fs) = join (txt ",") (escape f ∷ map escape fs)

fields_lem :
    (f : Text) (fs : List Text) (t : Text)
    → parse start (record_text (f, fs) ++ 13 ∷ 10 ∷ t) ≡ (f ∷ fs) ∷ parse fresh t
unfolding txt join
fields_lem f [] t = escape_lem f (13 ∷ 10 ∷ t) _ (Ends-return t) ∙ push_all_lem f [] (parse fresh t)
fields_lem f (g ∷ gs) t =
    ap (parse start) (append_assoc (escape f) (b',' ∷ record_text (g, gs)) (13 ∷ 10 ∷ t))
    ∙ escape_lem f (b',' ∷ (record_text (g, gs) ++ 13 ∷ 10 ∷ t)) _ (Ends-comma _)
    ∙ ap (λ rs. push_all f (next_field rs)) (fields_lem g gs t)
    ∙ push_all_lem f (g ∷ gs) (parse fresh t)

fresh_start : (s t : Text) → parse fresh (s ++ 13 ∷ t) ≡ parse start (s ++ 13 ∷ t)
unfolding parse
fresh_start [] t = refl
fresh_start (c ∷ s) t = refl

records_fresh :
    (r : Text × List Text) (rs : List (Text × List Text))
    → parse fresh (join (txt "\r\n") (record_text r ∷ map record_text rs) ++ txt "\r\n")
      ≡ (r.0 ∷ r.1) ∷ map (λ (q : Text × List Text). q.0 ∷ q.1) rs
unfolding txt join parse
records_fresh (f, fs) [] = fresh_start (record_text (f, fs)) (10 ∷ []) ∙ fields_lem f fs []
records_fresh (f, fs) (q ∷ qs) =
    ap (parse fresh) (
      append_assoc (record_text (f, fs)) (13 ∷ 10 ∷ join (13 ∷ 10 ∷ []) (map record_text (q ∷ qs)))
        (13 ∷ 10 ∷ []))
    ∙ fresh_start (record_text (f, fs)) _
    ∙ fields_lem f fs _
    ∙ ap (λ rs. (f ∷ fs) ∷ rs) (records_fresh q qs)

-- Records that are not empty read back.
pub records_lem :
    (r : Text × List Text) (rs : List (Text × List Text))
    → parse_csv (join (txt "\r\n") (record_text r ∷ map record_text rs) ++ txt "\r\n")
      ≡ (r.0 ∷ r.1) ∷ map (λ (q : Text × List Text). q.0 ∷ q.1) rs
unfolding parse_csv
records_lem r rs = records_fresh r rs
