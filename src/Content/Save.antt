-- ===== src/Content/Save.antt =====
-- The public handler of apps/api/src/content/content.controller.ts with its limiter, and the
-- handlers for the keys, which a viewer may not use. The clock and the parser of JSON are
-- parameters.
use site_foundry.Content.Service.{
  Db, KeyStatus, Saved, generate_key, disable_key, ensure_key, key_status, save_edits,
}
use site_foundry.Json.{Json, str, arr, obj, end, prop, is_null, default_to, to_string}
use site_foundry.Effects.{
  bad_request, forbidden, type_error, Result, ok, err, thrown, Act, lift, guard, ◌>>=◌, ◌>>◌,
}
use site_foundry.RateLimiter.{content_limits, Buckets, allow}
use site_foundry.Users.{is_viewer, AuthUser}
use site_foundry.Prelude.{ℕ, ◌&&◌, not, Option, none, some, [], ◌∷◌, if◌then◌else◌, or_else}
use site_foundry.Text.{Text, txt, is_empty}

pub record Server : Type 0 where
  pub db : Db
  pub buckets : Buckets

-- What `save` answers
pub data Answer : Type 0 where
  rate_limited : Answer
  accepted : Saved → Answer

-- `parseBody`
unfoldable pub parse_body : (Text → Option Json) → Json → Result Json
parse_body parse (obj fs) = ok (obj fs)
parse_body parse (arr vs) = ok (arr vs)
parse_body parse (str []) = ok (obj end)
parse_body parse (str (c ∷ s)) = elim (parse (c ∷ s)) [
  | none ↦ thrown bad_request (txt "Invalid JSON body")
  | some v ↦ ok v
]
parse_body parse _ = ok (obj end)

-- `String(body[key] ?? '')`; a property of `null` is a `TypeError`.
abbrev pub text_of : Json → Text → Text
text_of body key = to_string (default_to (prop body key) (str []))

unfoldable pub save_body : Json → Act Db Saved
save_body body = do
  guard (not (is_null body)) type_error (txt "Cannot read properties of null")
  guard
      (not (is_empty (text_of body (txt "site_key")))
        && not (is_empty (text_of body (txt "edit_key"))))
      bad_request (txt "site_key and edit_key are required")
  save_edits (text_of body (txt "site_key")) (text_of body (txt "edit_key"))
      (prop body (txt "edits"))

-- `save`, past the limiter
unfoldable pub save_raw : (Text → Option Json) → Json → Act Db Saved
save_raw parse raw = do body ← lift (parse_body parse raw); save_body body

abbrev answered : Result Saved × Db → Buckets → Result Answer × Server
answered (ok s, db) b = (ok (accepted s), record { db = db; buckets = b })
answered (err e, db) b = (err e, record { db = db; buckets = b })

-- `req.ip ?? 'anon'`
abbrev pub caller : Option Text → Text
caller ip = or_else ip (txt "anon")

unfoldable pub save : (Text → Option Json) → Option Text → ℕ → Json → Act Server Answer
save parse ip now raw w =
    let (admitted, b) = allow content_limits (caller ip) now w.buckets in
    if admitted
    then answered (save_raw parse raw w.db) b
    else (ok rate_limited, record w { buckets = b })

unfoldable pub require_builder : AuthUser → Act Db (Unit {0})
require_builder user =
    guard (not (is_viewer user.role)) forbidden (txt "Viewers cannot change site settings")

-- `generate`, `ensure`, `status` and `disable` of the controller
unfoldable pub generate : AuthUser → Text → Text → Act Db Text
generate user id key = do require_builder user; generate_key user.tenant_id id key

unfoldable pub ensure : AuthUser → Text → Text → Act Db Text
ensure user id key = do require_builder user; ensure_key user.tenant_id id key

unfoldable pub status : AuthUser → Text → Act Db KeyStatus
status user id = key_status user.tenant_id id

unfoldable pub disable : AuthUser → Text → Act Db (Unit {0})
disable user id = do require_builder user; disable_key user.tenant_id id
