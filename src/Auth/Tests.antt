-- ===== src/Auth/Tests.antt =====
-- A sign-in and a change of password with a toy token library, and the theorems at that input.
use site_foundry.Auth.{
  TokenType, access, refresh_type, Claims, User, TokenPair, Crypto, Db, by_email, is_row,
  issue_tokens, login_found, login, change_found, change_password,
}
use site_foundry.Auth.Tokens.{IsSound, IsGoodFor, login-IsGoodFor}
use site_foundry.Auth.Passwords.{login-change_password}
use site_foundry.Users.{Role, admin, builder, viewer}
use site_foundry.Effects.{ok, ◌>>=◌}
use site_foundry.Web.{to_lower_case}
use site_foundry.Prelude.{
  ℕ, ◌+◌, ◌≡◌, refl, ap, Option, none, some, [], ◌∷◌, ◌++◌, arith, ltb, ◌==◌, if◌then◌else◌, lt→ltb,
  length, take, drop, find,
}
use site_foundry.Text.{Text, txt, text_eq, text_eq_refl}

abbrev type_unit : TokenType → ℕ
type_unit access = 1
type_unit refresh_type = 0

abbrev type_of : ℕ → TokenType
type_of n = if n == 1 then access else refresh_type

abbrev role_unit : Role → ℕ
role_unit admin = 0
role_unit builder = 1
role_unit viewer = 2

abbrev role_of : ℕ → Role
role_of n = if n == 0 then admin else if n == 1 then builder else viewer

-- A token is its time of expiry and the claims, each text but the last after its length.
abbrev written : Claims → Text
written c =
    type_unit c.type
    ∷ role_unit c.role
    ∷ length c.sub
    ∷ (c.sub ++ (length c.tenant_id ∷ (c.tenant_id ++ c.email)))

abbrev read_tenant : ℕ → ℕ → Text → Text → Option Claims
read_tenant type role sub [] = none
read_tenant type role sub (n ∷ rest) = some (record {
  sub = sub;
  tenant_id = take n rest;
  email = drop n rest;
  role = role_of role;
  type = type_of type;
})

abbrev read_claims : Text → Option Claims
read_claims (type ∷ role ∷ n ∷ rest) = read_tenant type role (take n rest) (drop n rest)
read_claims _ = none

abbrev read_token : Text → ℕ → Option Claims
read_token [] now = none
read_token (expiry ∷ rest) now = let c = read_claims rest in if ltb now expiry then c else none

abbrev crypto : Crypto
crypto = record {
  sign = λ c lifetime t. (t + lifetime) ∷ written c;
  verify = read_token;
  hash = λ s. s;
  compare_hash = text_eq;
}

take-append : (xs ys : Text) → take (length xs) (xs ++ ys) ≡ xs
take-append [] ys = refl
take-append (x ∷ xs) ys = ap (λ l. x ∷ l) (take-append xs ys)

drop-append : (xs ys : Text) → drop (length xs) (xs ++ ys) ≡ ys
drop-append [] ys = refl
drop-append (x ∷ xs) ys = drop-append xs ys

type_of-type_unit : (t : TokenType) → type_of (type_unit t) ≡ t
type_of-type_unit access = refl
type_of-type_unit refresh_type = refl

role_of-role_unit : (r : Role) → role_of (role_unit r) ≡ r
role_of-role_unit admin = refl
role_of-role_unit builder = refl
role_of-role_unit viewer = refl

read_claims-written : (c : Claims) → read_claims (written c) ≡ some c
read_claims-written c =
    rw
      (
        take-append c.sub (length c.tenant_id ∷ (c.tenant_id ++ c.email)),
        drop-append c.sub (length c.tenant_id ∷ (c.tenant_id ++ c.email)),
        take-append c.tenant_id c.email,
        drop-append c.tenant_id c.email,
        type_of-type_unit c.type,
        role_of-role_unit c.role,
      )
      refl

crypto-IsSound : IsSound crypto
crypto-IsSound = record {
  verify-sign = λ c lifetime t now h. rw (lt→ltb now (t + lifetime) h) (read_claims-written c);
  verify_expired = λ c lifetime t now h. ground arith;
  sign_given = λ c lifetime t. refl;
}

abbrev user : User
user = record {
  id = 5 ∷ [];
  tenant_id = 6 ∷ [];
  email = txt "a@b.test";
  password_hash = txt "old password";
  role = admin;
  last_login_at = none;
}

abbrev pair : TokenPair
pair = issue_tokens crypto user 1000

abbrev signed_in : Db
signed_in = record user { last_login_at = some 1000 } ∷ []

login_test :
    login crypto (txt "A@b.test") (txt "old password") 1000 (user ∷ []) ≡ (ok pair, signed_in)
unfolding login login_found txt text_eq to_lower_case ◌>>=◌
login_test = refl

login-IsGoodFor_example : IsGoodFor crypto pair 1000 2000 signed_in
login-IsGoodFor_example =
    login-IsGoodFor crypto crypto-IsSound (txt "A@b.test") (txt "old password") 1000 pair
      (user ∷ []) signed_in login_test 2000 signed_in

abbrev changed_rows : Db
changed_rows = record user { password_hash = txt "new password" } ∷ []

change_test :
    change_password crypto (5 ∷ []) (6 ∷ []) (txt "old password") (txt "new password") (user ∷ [])
    ≡ (ok tt, changed_rows)
unfolding change_password change_found txt text_eq ◌>>=◌
change_test = refl

found_by_email : find (by_email (to_lower_case (txt "A@b.test"))) (user ∷ []) ≡ some user
unfolding txt text_eq to_lower_case
found_by_email = refl

found_by_row : find (is_row (6 ∷ []) (5 ∷ [])) (user ∷ []) ≡ some user
unfolding text_eq
found_by_row = refl

login-change_password_example :
    (login crypto (txt "A@b.test") (txt "new password") 1000 changed_rows).0
    ≡ ok (issue_tokens crypto (record user { password_hash = txt "new password" }) 1000)
login-change_password_example =
    login-change_password crypto (5 ∷ []) (6 ∷ []) (txt "A@b.test") (txt "old password")
      (txt "new password") 1000 (user ∷ []) changed_rows user text_eq_refl found_by_email
      found_by_row change_test
