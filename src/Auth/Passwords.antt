-- ===== src/Auth/Passwords.antt =====
-- Sign-in after a change of password.
use site_foundry.Auth.{
  User, Crypto, Db, by_email, by_id, is_row, issue_tokens, login_found, login, change_found,
  change_password,
}
use site_foundry.Effects.{ok, ◌>>=◌}
use site_foundry.Web.{to_lower_case}
use site_foundry.Prelude.{
  ℕ, ◌≡◌, refl, ap, ◌∙◌, inl, inr, Bool, true, some, List, [], ◌∷◌, arith, leb, Bool-cases,
  Option-cases, length, any, find, edit_first, find-holds,
}
use site_foundry.Text.{Text}

find-edit_first_also :
    (q p : User → Bool) (f : User → User) (xs : List User) (x : User)
    → find q xs ≡ some x
    → find p xs ≡ some x
    → q (f x) ≡ true
    → find q (edit_first p f xs) ≡ some (f x)
find-edit_first_also q p f [] x h k e = absurd (cc)
find-edit_first_also q p f (y ∷ xs) x h k e =
    grind (arith, find-edit_first_also q p f xs x, find-holds q xs x, find-holds p xs x)

any-find : (p : User → Bool) (xs : List User) (x : User) → find p xs ≡ some x → any p xs ≡ true
any-find p [] x h = absurd (cc)
any-find p (y ∷ xs) x h = grind (arith, any-find p xs x)

module _ (crypto : Crypto) where
  open crypto use {hash, compare_hash}

  -- A row after the change
  abbrev changed : Text → User → User
  changed new u = record u { password_hash = hash new }

  change_password_lem :
      (id tenant current new : Text) (db db' : Db) (u : User)
      → find (is_row tenant id) db ≡ some u
      → change_password crypto id tenant current new db ≡ (ok tt, db')
      → db' ≡ edit_first (is_row tenant id) (changed new) db
  unfolding change_password change_found ◌>>=◌
  change_password_lem id tenant current new db db' u seen h =
      elim (Bool-cases (leb 8 (length new))) [
        | inl long ↦ elim (Option-cases (find (by_id id) db)) [
          | inl missing ↦ absurd (ground arith)
          | inr (v, found) ↦ elim (Bool-cases (compare_hash current v.password_hash)) [
            | inl right ↦ ground (arith, any-find (is_row tenant id) db u)
            | inr wrong ↦ absurd (ground arith)
          ]
        ]
        | inr short ↦ absurd (ground arith)
      ]

  login_changed :
      (email new : Text) (now : ℕ) (u : User) (db : Db)
      → find (by_email (to_lower_case email)) db ≡ some u
      → compare_hash new u.password_hash ≡ true
      → (login crypto email new now db).0 ≡ ok (issue_tokens crypto u now)
  unfolding login login_found ◌>>=◌
  login_changed email new now u db found right = rw (found, right) refl

  -- After a successful change of the password of a user, whose row is the one with this email and
  -- the one with this id, a sign-in with the email and the new password succeeds, with tokens for
  -- that user; where the hash of a password compares with it.
  pub login-change_password :
      (id tenant email current new : Text) (now : ℕ) (db db' : Db) (u : User)
      → ((s : Text) → compare_hash s (hash s) ≡ true)
      → find (by_email (to_lower_case email)) db ≡ some u
      → find (is_row tenant id) db ≡ some u
      → change_password crypto id tenant current new db ≡ (ok tt, db')
      → (login crypto email new now db').0 ≡ ok (issue_tokens crypto (changed new u) now)
  login-change_password id tenant email current new now db db' u sound one row h =
      let written = change_password_lem id tenant current new db db' u row h in
      login_changed email new now (changed new u) db'
        (ap (find (by_email (to_lower_case email))) written
          ∙ find-edit_first_also (by_email (to_lower_case email)) (is_row tenant id) (changed new)
              db u one row (find-holds (by_email (to_lower_case email)) db u one))
        (sound new)
