-- ===== src/Content/Protected.antt =====
-- The parameters of a site and the paths that are open to edits.
use site_foundry.Content.Path.{split_dots, child, set_at}
use site_foundry.Content.Edits.{
  is_pair, is_allowed_parts, is_allowed, sanitize_edits, IsEdit, sanitize_edits-IsEdit,
}
use site_foundry.Content.Service.{
  Site, Db, container_of, set_all, written, is_live, write_edits, save_accepted, save_authorised,
  save_found, save_edits,
}
use site_foundry.Content.Frame.{read_path, Diverge, read_path-set_path}
use site_foundry.Leads.Fields.{FieldMap}
use site_foundry.Json.{Json, str, arr, obj, lookup}
use site_foundry.Effects.{pure, ◌>>=◌}
use site_foundry.Effects.Cases.{after_guard}
use site_foundry.Prelude.{
  ◌≡◌, refl, sym, ap, subst, ◌∙◌, ◌≢◌, ◌⊎◌, inl, inr, Bool, true, false, List, [], ◌∷◌, arith,
  Bool-cases, Option-cases, any, find, edit_first, All,
}
use site_foundry.Text.{Text, txt, text_eq, text_eq_iff}

abbrev pub blocks : List Text
blocks = txt "brand" ∷ txt "hero" ∷ txt "seo" ∷ txt "trust" ∷ txt "ad_claims" ∷ txt "retailers" ∷ []

pub is_block : Text → Bool
is_block a = any (text_eq a) blocks

-- A path, by its parts, that no edit reaches.
abbrev pub IsProtected : List Text → Type 0
IsProtected [] = ⊥
IsProtected (a ∷ []) = is_block a ≡ false
IsProtected (a ∷ b ∷ q) =
    (is_block a ≡ false) ⊎ ((is_pair a b ≡ false) × (text_eq a (txt "retailers") ≡ false))

allowed_block : (x : Text) (p : List Text) → is_allowed_parts (x ∷ p) ≡ true → is_block x ≡ true
unfolding is_allowed_parts is_block is_pair
allowed_block x [] h = cc
allowed_block x (y ∷ []) h = ground arith
allowed_block x (y ∷ z ∷ []) h = ground arith
allowed_block x (y ∷ z ∷ w ∷ p) h = cc

not_block :
    (x a : Text) (p : List Text) → is_allowed_parts (x ∷ p) ≡ true → is_block a ≡ false → x ≢ a
not_block x a p h n e = cc (allowed_block x p h, n, ap is_block e)

-- Two parts that begin an allowed path, in a block that is not `retailers`
allowed_pair :
    (x : Text) (p : List Text)
    → is_allowed_parts (x ∷ p) ≡ true
    → text_eq x (txt "retailers") ≡ false
    → (y : Text) × (p ≡ y ∷ []) × (is_pair x y ≡ true)
unfolding is_allowed_parts
allowed_pair x [] h n = absurd (cc)
allowed_pair x (y ∷ []) h n = (y, refl, h)
allowed_pair x (y ∷ z ∷ []) h n = absurd (ground arith)
allowed_pair x (y ∷ z ∷ w ∷ p) h n = absurd (cc)

diverges_pair :
    (x a b : Text) (p q : List Text)
    → is_allowed_parts (x ∷ p) ≡ true
    → is_pair a b ≡ false
    → text_eq a (txt "retailers") ≡ false
    → x ≡ a
    → Diverge p (b ∷ q)
diverges_pair x a b p q h n r e =
    let (y, only, pair) =
      allowed_pair x p h (subst (λ t. text_eq t (txt "retailers") ≡ false) (sym e) r) in
    subst (λ t. Diverge t (b ∷ q)) (sym only)
      (inl (λ same. cc (pair, n, ap (λ t. is_pair t y) e, ap (is_pair a) same)))

-- An allowed path parts from every protected one.
pub allowed-Diverge :
    (x a : Text) (p q : List Text)
    → is_allowed_parts (x ∷ p) ≡ true
    → IsProtected (a ∷ q)
    → Diverge (x ∷ p) (a ∷ q)
allowed-Diverge x a p [] h n = inl (not_block x a p h n)
allowed-Diverge x a p (b ∷ q) h (inl n) = inl (not_block x a p h n)
allowed-Diverge x a p (b ∷ q) h (inr (n, r)) = elim (Bool-cases (text_eq x a)) [
  | inl same ↦ let e = (text_eq_iff x a).0 same in inr (e, diverges_pair x a b p q h n r e)
  | inr other ↦ inl (λ e. cc (other, (text_eq_iff x a).1 e))
]

read_path-set_at :
    (path : Text) (v c : Json) (q : List Text)
    → is_allowed path ≡ true
    → IsProtected q
    → read_path q (set_at path v c) ≡ read_path q c
unfolding set_at is_allowed
read_path-set_at path v c [] h n = absurd n
read_path-set_at path v c (a ∷ q) h n =
    let (first, rest) = split_dots path in
    read_path-set_path first a rest q v c (allowed-Diverge first a rest q h n)

read_path-set_all :
    (edits : FieldMap) (c : Json) (q : List Text)
    → All IsEdit edits
    → IsProtected q
    → read_path q (set_all edits c) ≡ read_path q c
unfolding set_all
read_path-set_all [] c q h n = refl
read_path-set_all ((path, v) ∷ rest) c q (h, hs) n =
    read_path-set_all rest (set_at path (str v) c) q hs n
    ∙ read_path-set_at path (str v) c q h.allowed n

read_path-container_of :
    (c : Json) (q : List Text) → IsProtected q → read_path q (container_of c) ≡ read_path q c
unfolding read_path child lookup
read_path-container_of c [] n = absurd n
read_path-container_of (obj fs) (a ∷ q) n = refl
read_path-container_of (arr vs) (a ∷ q) n = refl
read_path-container_of _ (a ∷ q) n = refl

-- A row and what became of it: only the parameters may differ, and no protected path of them.
pub record IsKept (before after : Site) : Type 0 where
  pub same_id : after.id ≡ before.id
  pub same_tenant : after.tenant_id ≡ before.tenant_id
  pub same_key : after.content_edit_key ≡ before.content_edit_key
  pub same_status : after.install_status ≡ before.install_status
  pub protected :
      (q : List Text) → IsProtected q → read_path q after.params ≡ read_path q before.params

IsKept-refl : (s : Site) → IsKept s s
IsKept-refl s = record {
  same_id = refl;
  same_tenant = refl;
  same_key = refl;
  same_status = refl;
  protected = λ q n. refl;
}

written-IsKept : (edits : FieldMap) (s : Site) → All IsEdit edits → IsKept s (written edits s)
written-IsKept edits s h = record {
  same_id = refl;
  same_tenant = refl;
  same_key = refl;
  same_status = refl;
  protected = λ q n.
      read_path-set_all edits (container_of s.params) q h n ∙ read_path-container_of s.params q n;
}

-- Row by row
abbrev pub Rows : List Site → List Site → Type 0
Rows [] [] = Unit
Rows (s ∷ ss) (t ∷ ts) = IsKept s t × Rows ss ts
Rows _ _ = ⊥

Rows-refl : (ss : List Site) → Rows ss ss
Rows-refl [] = tt
Rows-refl (s ∷ ss) = (IsKept-refl s, Rows-refl ss)

Rows-edit_first :
    (p : Site → Bool) (f : Site → Site)
    → ((s : Site) → IsKept s (f s))
    → (ss : List Site) → Rows ss (edit_first p f ss)
Rows-edit_first p f h [] = tt
Rows-edit_first p f h (s ∷ ss) = elim (Bool-cases (p s)) [
  | inl here ↦ rw here (h s, Rows-refl ss)
  | inr there ↦ rw there (IsKept-refl s, Rows-edit_first p f h ss)
]

abbrev RowsOf : Db → Db → Type 0
RowsOf before after = Rows before.sites after.sites

write_edits-RowsOf :
    (site : Site) (edits : FieldMap) (db : Db)
    → All IsEdit edits
    → RowsOf db (write_edits site edits db).1
unfolding write_edits ◌>>=◌
write_edits-RowsOf site edits db h = elim (Bool-cases (is_live site.install_status)) [
  | inl yes' ↦ rw yes' (Rows-edit_first _ (written edits) (λ s. written-IsKept edits s h) db.sites)
  | inr no' ↦ rw no' (Rows-edit_first _ (written edits) (λ s. written-IsKept edits s h) db.sites)
]

save_accepted-RowsOf :
    (site : Site) (edits : FieldMap) (db : Db)
    → All IsEdit edits
    → RowsOf db (save_accepted site edits db).1
unfolding save_accepted pure
save_accepted-RowsOf site [] db h = Rows-refl db.sites
save_accepted-RowsOf site (e ∷ es) db h = write_edits-RowsOf site (e ∷ es) db h

save_authorised-RowsOf :
    (site : Site) (key edit_key : Text) (raw : Json) (db : Db)
    → RowsOf db (save_authorised site key edit_key raw db).1
unfolding save_authorised
save_authorised-RowsOf site key edit_key raw db =
    after_guard (RowsOf db) db (Rows-refl db.sites) _ _ _ _
      (save_accepted-RowsOf site (sanitize_edits raw) db (sanitize_edits-IsEdit raw).1)

save_found-RowsOf :
    (site : Site) (edit_key : Text) (raw : Json) (db : Db)
    → RowsOf db (save_found site edit_key raw db).1
unfolding save_found
save_found-RowsOf site edit_key raw db =
    after_guard (RowsOf db) db (Rows-refl db.sites) _ _ _ _
      (save_authorised-RowsOf site _ edit_key raw db)

-- Whatever a deployed site submits, with whatever key, every site keeps its id, tenant, editing key
-- and install status, and its parameters read the same at every path that no edit may reach: in
-- every block but brand, hero, seo, trust, ad_claims and retailers, and at every property of the
-- first five that is not on the list of the allowed paths.
pub save_edits-IsKept :
    (site_key edit_key : Text) (raw : Json) (db : Db)
    → Rows db.sites (save_edits site_key edit_key raw db).1.sites
unfolding save_edits ◌>>=◌
save_edits-IsKept site_key edit_key raw db =
    elim (Option-cases (find (λ (s : Site). text_eq s.id site_key) db.sites)) [
      | inl missing ↦ rw missing (Rows-refl db.sites)
      | inr (s, found) ↦ rw found (save_found-RowsOf s edit_key raw db)
    ]
