-- ===== src/Auth.antt =====
-- Sign-in, apps/api/src/auth: `login`, `changePassword` and `refresh` of auth.service.ts with
-- `issueTokens`, and the guard of jwt.guard.ts. The token library, the password hash and the clock
-- are parameters; the claims of a token are those that `issueTokens` signs.
mod Tokens
mod Passwords
mod Tests
use site_foundry.Users.{Role, AuthUser}
use site_foundry.Effects.{
  unauthorized, plain, Result, ok, thrown, Act, bind, pure, gets, require, modify, guard, ◌>>=◌,
  ◌>>◌,
}
use site_foundry.Web.{to_lower_case}
use site_foundry.Prelude.{
  ℕ, Bool, true, false, ◌&&◌, not, Option, none, some, List, [], leb, if◌then◌else◌, or_else,
  length, drop, any, find, edit_first,
}
use site_foundry.Text.{Text, txt, text_eq, is_empty, starts_with}

pub data TokenType : Type 0 where
  access refresh_type : TokenType

abbrev is_access : TokenType → Bool
is_access access = true
is_access refresh_type = false

-- What is signed
pub record Claims : Type 0 where
  pub sub : Text
  pub tenant_id : Text
  pub email : Text
  pub role : Role
  pub type : TokenType

pub record User : Type 0 where
  pub id : Text
  pub tenant_id : Text
  pub email : Text
  pub password_hash : Text
  pub role : Role
  pub last_login_at : Option ℕ

pub record TokenPair : Type 0 where
  pub access_token : Text
  pub refresh_token : Text
  pub user : AuthUser

-- The token library, with times in seconds: `sign claims lifetime now`, and `verify token now`,
-- where `none` is the exception for a token that is wrong or expired; and bcrypt.
pub record Crypto : Type 0 where
  pub sign : Claims → ℕ → ℕ → Text
  pub verify : Text → ℕ → Option Claims
  pub hash : Text → Text
  pub compare_hash : Text → Text → Bool

abbrev pub Db : Type 0
Db = List User

abbrev pub by_email : Text → User → Bool
by_email email u = text_eq u.email email

abbrev pub by_id : Text → User → Bool
by_id id u = text_eq u.id id

abbrev pub is_row : Text → Text → User → Bool
is_row tenant id u = text_eq u.tenant_id tenant && text_eq u.id id

-- `find` with the exception for a missing row
abbrev look_up : (User → Bool) → Text → Act Db User
look_up p message = do found ← gets (find p); require found unauthorized message

module _ (crypto : Crypto) where
  open crypto use {sign, verify, hash, compare_hash}

  abbrev pub claims_of : User → TokenType → Claims
  claims_of u type = record {
    sub = u.id;
    tenant_id = u.tenant_id;
    email = u.email;
    role = u.role;
    type = type;
  }

  -- `issueTokens`
  unfoldable pub issue_tokens : User → ℕ → TokenPair
  issue_tokens u now = record {
    access_token = sign (claims_of u access) 3600 now;
    refresh_token = sign (claims_of u refresh_type) 604800 now;
    user = record { user_id = u.id; tenant_id = u.tenant_id; email = u.email; role = u.role };
  }

  -- `login`, once the user is found
  unfoldable pub login_found : User → Text → ℕ → Act Db TokenPair
  login_found u password now = do
    guard (compare_hash password u.password_hash) unauthorized (txt "Invalid email or password")
    modify (edit_first (is_row u.tenant_id u.id) (λ r. record r { last_login_at = some now }))
    pure (issue_tokens u now)

  unfoldable pub login : Text → Text → ℕ → Act Db TokenPair
  login email password now = do
    u ← look_up (by_email (to_lower_case email)) (txt "Invalid email or password")
    login_found u password now

  abbrev with_password : Text → User → User
  with_password password r = record r { password_hash = hash password }

  -- `changePassword`, once the user is found; the row must be one that the tenant sees.
  unfoldable pub change_found : User → Text → Text → Text → Text → Act Db (Unit {0})
  change_found u id tenant current new = do
    guard (compare_hash current u.password_hash) unauthorized (txt "Current password is incorrect")
    seen ← gets (any (is_row tenant id))
    guard seen plain (txt "Record to update not found")
    modify (edit_first (is_row tenant id) (with_password new))

  unfoldable pub change_password : Text → Text → Text → Text → Act Db (Unit {0})
  change_password id tenant current new = do
    guard (leb 8 (length new)) unauthorized (txt "New password must be at least 8 characters")
    u ← look_up (by_id id) (txt "Current password is incorrect")
    change_found u id tenant current new

  unfoldable pub refresh : Text → ℕ → Act Db TokenPair
  refresh token now = do
    let payload = verify token now
    claims ← require payload unauthorized (txt "Invalid refresh token")
    guard (not (is_access claims.type)) unauthorized (txt "Not a refresh token")
    u ← look_up (is_row claims.tenant_id claims.sub) (txt "User no longer exists")
    pure (issue_tokens u now)

  -- `header?.startsWith('Bearer ') ? header.slice(7) : undefined`
  unfoldable pub bearer_token : Option Text → Option Text
  bearer_token none = none
  bearer_token (some header) =
      if starts_with header (txt "Bearer ") then some (drop 7 header) else none

  abbrev identity : Claims → AuthUser
  identity c = record { user_id = c.sub; tenant_id = c.tenant_id; email = c.email; role = c.role }

  -- the `try` block of `canActivate`, whose `catch` answers for every exception in it
  unfoldable pub check_token : Text → ℕ → Result AuthUser
  check_token token now = elim (verify token now) [
    | none ↦ thrown unauthorized (txt "Invalid or expired token")
    | some c ↦
        if is_access c.type
        then ok (identity c)
        else thrown unauthorized (txt "Invalid or expired token")
  ]

  abbrev pub is_given : Option Text → Bool
  is_given none = false
  is_given (some s) = not (is_empty s)

  -- `canActivate`: a public handler is served with no user.
  unfoldable pub can_activate : Bool → Option Text → ℕ → Result (Option AuthUser)
  can_activate true header now = ok none
  can_activate false header now =
      if is_given (bearer_token header)
      then bind (check_token (or_else (bearer_token header) []) now) (λ u. ok (some u))
      else thrown unauthorized (txt "Missing bearer token")
