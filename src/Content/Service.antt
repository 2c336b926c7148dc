-- ===== src/Content/Service.antt =====
-- ContentService, apps/api/src/content/content.service.ts: keys for editing, and the saving of
-- edits. A new key is a parameter. A rebuild that a save starts and does not wait
-- for is an entry of `started`. The keys are ASCII, so the bytes that `safeEqual` compares are the
-- units.
use site_foundry.Content.Path.{set_at}
use site_foundry.Content.Edits.{sanitize_edits}
use site_foundry.Leads.Fields.{FieldMap}
use site_foundry.Json.{Json, str, arr, obj, end}
use site_foundry.Effects.{
  forbidden, not_found, Act, pure, gets, require, modify, guard, ◌>>=◌, ◌>>◌,
}
use site_foundry.Installer.State.{InstallStatus, live}
use site_foundry.Prelude.{
  ℕ, Bool, true, false, ◌&&◌, not, Option, none, some, List, [], ◌∷◌, ◌++◌, ◌==◌, if◌then◌else◌,
  or_else, length, any, find, edit_first,
}
use site_foundry.Text.{Text, txt, text_eq, is_empty}

pub record Site : Type 0 where
  pub id : Text
  pub tenant_id : Text
  pub content_edit_key : Option Text
  pub params : Json
  pub install_status : InstallStatus

pub record Db : Type 0 where
  pub sites : List Site
  pub started : List (Text × Text)

pub record KeyStatus : Type 0 where
  pub enabled : Bool
  pub edit_key : Option Text

pub record Saved : Type 0 where
  pub saved : ℕ
  pub publishing : Bool

abbrev pub is_row : Text → Text → Site → Bool
is_row tenant id s = text_eq s.tenant_id tenant && text_eq s.id id

-- `!!key`
abbrev pub is_set : Option Text → Bool
is_set none = false
is_set (some s) = not (is_empty s)

-- `updateMany` with a key, or with `null`
abbrev write_key : Text → Text → Option Text → Db → Db
write_key tenant id key db = record db {
  sites = edit_first (is_row tenant id) (λ s. record s { content_edit_key = key }) db.sites;
}

unfoldable pub generate_key : Text → Text → Text → Act Db Text
generate_key tenant id key = do
  matched ← gets (λ db. any (is_row tenant id) db.sites)
  modify (write_key tenant id (some key))
  guard matched not_found (txt "Site not found")
  pure key

unfoldable pub disable_key : Text → Text → Act Db (Unit {0})
disable_key tenant id = modify (write_key tenant id none)

unfoldable pub ensure_key : Text → Text → Text → Act Db Text
ensure_key tenant id key = do
  found ← gets (λ db. find (is_row tenant id) db.sites)
  site ← require found not_found (txt "Site not found")
  if is_set site.content_edit_key
      then pure (or_else site.content_edit_key [])
      else generate_key tenant id key

unfoldable pub key_status : Text → Text → Act Db KeyStatus
key_status tenant id = do
  found ← gets (λ db. find (is_row tenant id) db.sites)
  site ← require found not_found (txt "Site not found")
  pure (record { enabled = is_set site.content_edit_key; edit_key = site.content_edit_key })

unfoldable pub safe_equal : Text → Text → Bool
safe_equal a b = length a == length b && text_eq a b

-- `site.params && typeof site.params === 'object' ? … : {}`
abbrev pub container_of : Json → Json
container_of (obj fs) = obj fs
container_of (arr vs) = arr vs
container_of _ = obj end

-- `for (const path of paths) setPath(params, path, edits[path])`
unfoldable pub set_all : FieldMap → Json → Json
set_all [] params = params
set_all ((path, v) ∷ rest) params = set_all rest (set_at path (str v) params)

-- the row that `saveEdits` updates
abbrev pub written : FieldMap → Site → Site
written edits s = record s { params = set_all edits (container_of s.params) }

abbrev pub is_live : InstallStatus → Bool
is_live live = true
is_live _ = false

-- the entry for `rebuildFiles`
abbrev start_rebuild : Site → Db → Db
start_rebuild site db = record db { started = db.started ++ (site.tenant_id, site.id) ∷ [] }

-- `saveEdits`, once the key is checked and edits are accepted
unfoldable pub write_edits : Site → FieldMap → Act Db Saved
write_edits site edits = do
  modify (λ db. record db {
    sites = edit_first (λ (s : Site). text_eq s.id site.id) (written edits) db.sites;
  })
  if is_live site.install_status then modify (start_rebuild site) else pure tt
  pure (record { saved = length edits; publishing = is_live site.install_status })

abbrev none_saved : Saved
none_saved = record { saved = 0; publishing = false }

abbrev disabled_message : Text
disabled_message = txt "Editing is not enabled for this site"

abbrev wrong_message : Text
wrong_message = txt "Invalid edit key"

-- `saveEdits`, once the edits are sanitized
unfoldable pub save_accepted : Site → FieldMap → Act Db Saved
save_accepted site [] = pure none_saved
save_accepted site (e ∷ es) = write_edits site (e ∷ es)

-- `saveEdits`, once the site is found with its key
unfoldable pub save_authorised : Site → Text → Text → Json → Act Db Saved
save_authorised site key edit_key raw = do
  guard (not (is_empty edit_key) && safe_equal edit_key key) forbidden wrong_message
  save_accepted site (sanitize_edits raw)

-- `saveEdits`, once the site is found
unfoldable pub save_found : Site → Text → Json → Act Db Saved
save_found site edit_key raw = do
  guard (is_set site.content_edit_key) forbidden disabled_message
  save_authorised site (or_else site.content_edit_key []) edit_key raw

unfoldable pub save_edits : Text → Text → Json → Act Db Saved
save_edits site_key edit_key raw = do
  found ← gets (λ db. find (λ (s : Site). text_eq s.id site_key) db.sites)
  site ← require found forbidden disabled_message
  save_found site edit_key raw
