-- ===== src/Users.antt =====
-- The users of a tenant, apps/api/src/settings/users.controller.ts. Row-level security shows the
-- actor the rows of the actor's tenant; an update or a delete by id is of one row. The password
-- hash is a parameter, and so is the id that the database gives a new row.
mod Admins
mod Isolation
mod Tests
use site_foundry.Effects.{
  bad_request, forbidden, not_found, Act, pure, gets, require, transaction, modify, guard, ◌>>=◌,
  ◌>>◌,
}
use site_foundry.Json.{Json, null, bool, str, obj, end, member}
use site_foundry.Web.{to_lower_case}
use site_foundry.Prelude.{
  Bool, true, false, ◌&&◌, not, Option, none, some, List, [], ◌∷◌, ◌++◌, leb, if◌then◌else◌,
  or_else, keep, any, find, edit_first, remove_first, count,
}
use site_foundry.Text.{Text, txt, text_eq, is_empty}

-- `role`; the validators of the requests admit no other.
pub data Role : Type 0 where
  admin builder viewer : Role

abbrev pub is_admin : Role → Bool
is_admin admin = true
is_admin _ = false

abbrev pub is_viewer : Role → Bool
is_viewer viewer = true
is_viewer _ = false

pub role_name : Role → Text
role_name admin = txt "admin"
role_name builder = txt "builder"
role_name viewer = txt "viewer"

-- The actor of a request
pub record AuthUser : Type 0 where
  pub user_id : Text
  pub tenant_id : Text
  pub email : Text
  pub role : Role

pub record User : Type 0 where
  pub id : Text
  pub tenant_id : Text
  pub email : Text
  pub password_hash : Text
  pub role : Role

pub record AuditEntry : Type 0 where
  pub tenant_id : Text
  pub user_id : Text
  pub action : Text
  pub entity_type : Text
  pub entity_id : Text
  pub before : Json
  pub after : Json

pub record Db : Type 0 where
  pub users : List User
  pub audit : List AuditEntry

pub record CreateUserDto : Type 0 where
  pub email : Text
  pub password : Text
  pub role : Role

pub record UpdateUserDto : Type 0 where
  pub role : Option Role
  pub password : Option Text

-- The rows that the tenant sees, and of these the one with an id.
abbrev pub in_tenant : Text → User → Bool
in_tenant tenant u = text_eq u.tenant_id tenant

abbrev pub is_row : Text → Text → User → Bool
is_row tenant id u = in_tenant tenant u && text_eq u.id id

abbrev pub is_admin_of : Text → User → Bool
is_admin_of tenant u = in_tenant tenant u && is_admin u.role

unfoldable pub require_admin : AuthUser → Act Db (Unit {0})
require_admin actor = guard (is_admin actor.role) forbidden (txt "Only admins can manage users")

unfoldable pub assert_not_last_admin : Text → Act Db (Unit {0})
assert_not_last_admin tenant = do
  admins ← gets (λ db. count (is_admin_of tenant) db.users)
  guard (not (leb admins 1)) bad_request (txt "Cannot remove the last admin")

unfoldable pub audit : AuthUser → Text → Text → Json → Json → Act Db (Unit {0})
audit actor action id before after = modify (λ db. record db {
  audit =
      db.audit
      ++ record {
        tenant_id = actor.tenant_id;
        user_id = actor.user_id;
        action = action;
        entity_type = txt "user";
        entity_id = id;
        before = before;
        after = after;
      }
        ∷ [];
})

-- `list`, without the selection of columns; the rows stand in the order of their creation.
unfoldable pub list : AuthUser → Act Db (List User)
list actor = do require_admin actor; gets (λ db. keep (in_tenant actor.tenant_id) db.users)

abbrev one : Text → Json → Json
one k v = obj (member k v end)

abbrev two : Text → Json → Text → Json → Json
two k v l w = obj (member k v (member l w end))

-- `dto.role && dto.role !== 'admin' && target.role === 'admin'`
abbrev pub demotes : Option Role → Role → Bool
demotes (some r) role = not (is_admin r) && is_admin role
demotes none role = false

-- `!!dto.password`
abbrev pub is_given : Option Text → Bool
is_given none = false
is_given (some s) = not (is_empty s)

module _ (hash : Text → Text) where
  unfoldable pub create : AuthUser → CreateUserDto → Text → Act Db User
  create actor dto id = do
    require_admin actor
    existing ← gets (λ db. any (λ u. text_eq u.email (to_lower_case dto.email)) db.users)
    guard (not existing) bad_request (txt "A user with that email already exists")
    let created : User = record {
      id = id;
      tenant_id = actor.tenant_id;
      email = to_lower_case dto.email;
      password_hash = hash dto.password;
      role = dto.role;
    }
    transaction (do
      modify (λ db. record db { users = db.users ++ created ∷ [] })
      audit actor (txt "user.create") id null
          (two (txt "email") (str created.email) (txt "role") (str (role_name dto.role)))
      pure created)

  -- the row that `update` writes
  abbrev pub updated : UpdateUserDto → User → User
  updated dto u = record u {
    role = or_else dto.role u.role;
    password_hash =
        if is_given dto.password then hash (or_else dto.password []) else u.password_hash;
  }

  -- `update`, once the row is found
  unfoldable pub update_found : AuthUser → Text → UpdateUserDto → User → Act Db User
  update_found actor id dto target = do
    if demotes dto.role target.role then assert_not_last_admin actor.tenant_id else pure tt
    modify
        (λ db. record db { users = edit_first (is_row actor.tenant_id id) (updated dto) db.users })
    audit actor (txt "user.update") id (one (txt "role") (str (role_name target.role))) (
        two (txt "role") (str (role_name (updated dto target).role)) (txt "password_changed")
          (bool (is_given dto.password)))
    pure (updated dto target)

  unfoldable pub update : AuthUser → Text → UpdateUserDto → Act Db User
  update actor id dto = do
    require_admin actor
    transaction (do
      found ← gets (λ db. find (is_row actor.tenant_id id) db.users)
      target ← require found not_found (txt "User not found")
      update_found actor id dto target)

-- `remove`, once the row is found
unfoldable pub remove_found : AuthUser → Text → User → Act Db (Unit {0})
remove_found actor id target = do
  if is_admin target.role then assert_not_last_admin actor.tenant_id else pure tt
  modify (λ db. record db { users = remove_first (is_row actor.tenant_id id) db.users })
  audit actor (txt "user.delete") id
      (two (txt "email") (str target.email) (txt "role") (str (role_name target.role))) null

unfoldable pub remove : AuthUser → Text → Act Db (Unit {0})
remove actor id = do
  require_admin actor
  guard (not (text_eq id actor.user_id)) bad_request (txt "You cannot delete your own account")
  transaction (do
    found ← gets (λ db. find (is_row actor.tenant_id id) db.users)
    target ← require found not_found (txt "User not found")
    remove_found actor id target)
