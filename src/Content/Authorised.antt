-- ===== src/Content/Authorised.antt =====
-- Who may save edits.
use site_foundry.Content.Edits.{sanitize_edits}
use site_foundry.Content.Service.{
  Site, Db, Saved, is_set, safe_equal, is_live, write_edits, save_accepted, save_authorised,
  save_found, save_edits,
}
use site_foundry.Leads.Fields.{FieldMap}
use site_foundry.Json.{Json}
use site_foundry.Effects.{forbidden, Result, ok, thrown, pure, ◌>>=◌}
use site_foundry.Prelude.{
  ◌≡◌, refl, sym, ap, ◌∙◌, ◌⊎◌, inl, inr, true, false, ◌&&◌, not, Option, none, some, [], ◌∷◌,
  arith, Bool-cases, Option-cases, or_else, find,
}
use site_foundry.Text.{Text, text_eq, text_eq_iff, is_empty}

-- The action threw a refusal and wrote nothing.
abbrev pub IsRefused : Result Saved × Db → Db → Type 0
IsRefused r db = (message : Text) × (r ≡ (thrown forbidden message, db))

-- The action returned.
abbrev pub IsAnswered : Result Saved × Db → Type 0
IsAnswered r = (s : Saved) × (r.0 ≡ ok s)

write_edits-IsAnswered :
    (site : Site) (edits : FieldMap) (db : Db) → IsAnswered (write_edits site edits db)
unfolding write_edits ◌>>=◌
write_edits-IsAnswered site edits db = elim (Bool-cases (is_live site.install_status)) [
  | inl started ↦ rw started (_, refl)
  | inr idle ↦ rw idle (_, refl)
]

save_accepted-IsAnswered :
    (site : Site) (edits : FieldMap) (db : Db) → IsAnswered (save_accepted site edits db)
unfolding save_accepted pure
save_accepted-IsAnswered site [] db = (_, refl)
save_accepted-IsAnswered site (e ∷ es) db = write_edits-IsAnswered site (e ∷ es) db

safe_equal-eq : (a b : Text) → safe_equal a b ≡ true → a ≡ b
unfolding safe_equal
safe_equal-eq a b h = ground (arith, text_eq_iff a b)

save_authorised_lem :
    (site : Site) (key edit_key : Text) (raw : Json) (db : Db)
    → IsRefused (save_authorised site key edit_key raw db) db
      ⊎ ((key ≡ edit_key)
          × (is_empty edit_key ≡ false)
          × IsAnswered (save_authorised site key edit_key raw db))
unfolding save_authorised ◌>>=◌
save_authorised_lem site key edit_key raw db =
    elim (Bool-cases (not (is_empty edit_key) && safe_equal edit_key key)) [
      | inl good ↦ inr (
        sym (safe_equal-eq edit_key key (ground arith)),
        ground arith,
        rw good (save_accepted-IsAnswered site (sanitize_edits raw) db),
      )
      | inr bad ↦ rw bad (inl (_, refl))
    ]

is_set-some : (key : Option Text) → is_set key ≡ true → key ≡ some (or_else key [])
is_set-some none h = absurd (cc)
is_set-some (some k) h = refl

save_found_lem :
    (site : Site) (edit_key : Text) (raw : Json) (db : Db)
    → IsRefused (save_found site edit_key raw db) db
      ⊎ ((site.content_edit_key ≡ some edit_key)
          × (is_empty edit_key ≡ false)
          × IsAnswered (save_found site edit_key raw db))
unfolding save_found ◌>>=◌
save_found_lem site edit_key raw db = elim (Bool-cases (is_set site.content_edit_key)) [
  | inl on ↦
      rw on (elim (save_authorised_lem site (or_else site.content_edit_key []) edit_key raw db) [
        | inl refused ↦ inl refused
        | inr (same, given, answered) ↦
            inr (is_set-some site.content_edit_key on ∙ ap some same, given, answered)
      ])
  | inr off ↦ rw off (inl (_, refl))
]

-- A save is refused and writes nothing, or the site exists, the caller gave the site's editing key,
-- which is not empty, and the save returns.
pub save_edits_lem :
    (site_key edit_key : Text) (raw : Json) (db : Db)
    → IsRefused (save_edits site_key edit_key raw db) db
      ⊎ ((site : Site) × (find (λ (s : Site). text_eq s.id site_key) db.sites ≡ some site)
          × (site.content_edit_key ≡ some edit_key)
          × (is_empty edit_key ≡ false)
          × IsAnswered (save_edits site_key edit_key raw db))
unfolding save_edits ◌>>=◌
save_edits_lem site_key edit_key raw db =
    elim (Option-cases (find (λ (s : Site). text_eq s.id site_key) db.sites)) [
      | inl missing ↦ rw missing (inl (_, refl))
      | inr (site, found) ↦ rw found (elim (save_found_lem site edit_key raw db) [
        | inl refused ↦ inl refused
        | inr (same, given, answered) ↦ inr (site, refl, same, given, answered)
      ])
    ]
