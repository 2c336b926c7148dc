-- ===== src/Auth/Tokens.antt =====
-- What the tokens of a sign-in are good for.
use site_foundry.Auth.{
  access, refresh_type, is_access, Claims, User, TokenPair, Crypto, Db, by_email, claims_of,
  issue_tokens, login_found, login, refresh, bearer_token, identity, check_token, can_activate,
}
use site_foundry.Users.{AuthUser}
use site_foundry.Effects.{unauthorized, Result, ok, thrown, ◌>>=◌}
use site_foundry.Web.{to_lower_case}
use site_foundry.Prelude.{
  ℕ, ◌+◌, ◌≤◌, ◌<◌, ◌≡◌, refl, sym, subst, ◌⊎◌, inl, inr, true, false, Option, none, some, ◌++◌,
  arith, leb, if◌then◌else◌, Bool-cases, Option-cases, find,
}
use site_foundry.Text.{Text, txt, is_empty, starts_with}

-- What the token library documents: a token verifies until it expires, and gives the claims that
-- were signed; it is never empty.
pub record IsSound (crypto : Crypto) : Type 0 where
  pub verify-sign :
      (c : Claims) (lifetime t now : ℕ)
      → now < t + lifetime
      → crypto.verify (crypto.sign c lifetime t) now ≡ some c
  pub verify_expired :
      (c : Claims) (lifetime t now : ℕ)
      → t + lifetime ≤ now
      → crypto.verify (crypto.sign c lifetime t) now ≡ none
  pub sign_given : (c : Claims) (lifetime t : ℕ) → is_empty (crypto.sign c lifetime t) ≡ false

-- An `authorization` header
abbrev pub bearer : Text → Option Text
bearer token = some (txt "Bearer " ++ token)

le_or_lt : (a b : ℕ) → (a ≤ b) ⊎ (b < a)
le_or_lt a b = elim (Bool-cases (leb a b)) [
  | inl h ↦ inl (ground arith)
  | inr h ↦ inr (ground arith)
]

module _ (crypto : Crypto) where
  open crypto use {sign, verify}

  bearer_token-bearer : (token : Text) → bearer_token crypto (bearer token) ≡ some token
  unfolding bearer_token starts_with txt
  bearer_token-bearer token = refl

  abbrev refused : Result (Option AuthUser)
  refused = thrown unauthorized (txt "Invalid or expired token")

  activation_refused :
      (token : Text) (now : ℕ)
      → is_empty token ≡ false
      → verify token now ≡ none
      → can_activate crypto false (bearer token) now ≡ refused
  unfolding can_activate check_token
  activation_refused token now given h = rw (bearer_token-bearer token, given, check_token, h) refl

  can_activate_access :
      (token : Text) (now : ℕ) (c : Claims)
      → is_empty token ≡ false
      → verify token now ≡ some c
      → can_activate crypto false (bearer token) now
        ≡ (if is_access c.type then ok (some (identity crypto c)) else refused)
  unfolding can_activate check_token
  can_activate_access token now c given h = elim (Bool-cases (is_access c.type)) [
    | inl yes' ↦ rw (bearer_token-bearer token, given, check_token, h, yes') refl
    | inr no' ↦ rw (bearer_token-bearer token, given, check_token, h, no') refl
  ]

  refresh_access :
      (token : Text) (now : ℕ) (c : Claims) (db : Db)
      → verify token now ≡ some c
      → is_access c.type ≡ true
      → refresh crypto token now db ≡ (thrown unauthorized (txt "Not a refresh token"), db)
  unfolding refresh ◌>>=◌
  refresh_access token now c db h a = rw (h, a) refl

  login_found_lem :
      (u : User) (password : Text) (t : ℕ) (pair : TokenPair) (db db' : Db)
      → login_found crypto u password t db ≡ (ok pair, db')
      → pair ≡ issue_tokens crypto u t
  unfolding login_found ◌>>=◌
  login_found_lem u password t pair db db' h = ground arith

  -- What a pair of tokens is good for at a time
  pub record IsGoodFor (pair : TokenPair) (t now : ℕ) (db : Db) : Type 0 where
    pub admitted :
        now < t + 3600
        → can_activate crypto false (bearer pair.access_token) now ≡ ok (some pair.user)
    pub expired :
        t + 3600 ≤ now → can_activate crypto false (bearer pair.access_token) now ≡ refused
    pub not_for_requests : can_activate crypto false (bearer pair.refresh_token) now ≡ refused
    pub not_for_refresh :
        now < t + 3600
        → refresh crypto pair.access_token now db
          ≡ (thrown unauthorized (txt "Not a refresh token"), db)

  module _ (sound : IsSound crypto) where
    issue_tokens-IsGoodFor :
        (u : User) (t now : ℕ) (db : Db) → IsGoodFor (issue_tokens crypto u t) t now db
    unfolding issue_tokens
    issue_tokens-IsGoodFor u t now db = record {
      admitted = λ h.
          can_activate_access _ now (claims_of crypto u access) (sound.sign_given _ _ _)
            (sound.verify-sign _ _ _ _ h);
      expired =
          λ h. activation_refused _ now (sound.sign_given _ _ _) (sound.verify_expired _ _ _ _ h);
      not_for_requests = elim (le_or_lt (t + 604800) now) [
        | inl late ↦
            activation_refused _ now (sound.sign_given _ _ _) (sound.verify_expired _ _ _ _ late)
        | inr early ↦
            can_activate_access _ now (claims_of crypto u refresh_type) (sound.sign_given _ _ _)
              (sound.verify-sign _ _ _ _ early)
      ];
      not_for_refresh = λ h.
          refresh_access _ now (claims_of crypto u access) db (sound.verify-sign _ _ _ _ h) refl;
    }

    login_lem :
        (email password : Text) (t : ℕ) (pair : TokenPair) (db db' : Db)
        → login crypto email password t db ≡ (ok pair, db')
        → (u : User) × (pair ≡ issue_tokens crypto u t)
    unfolding login ◌>>=◌
    login_lem email password t pair db db' h =
        elim (Option-cases (find (by_email (to_lower_case email)) db)) [
          | inl missing ↦ absurd (ground arith)
          | inr (u, found) ↦ (u, login_found_lem u password t pair db db' (rw found at h))
        ]

    -- The tokens of a sign-in: until an hour has passed the access token is admitted as the user
    -- that the sign-in answered with, and after it no longer; the refresh token is admitted to no
    -- handler, and the access token is no refresh token.
    pub login-IsGoodFor :
        (email password : Text) (t : ℕ) (pair : TokenPair) (db db' : Db)
        → login crypto email password t db ≡ (ok pair, db')
        → (now : ℕ) (later : Db) → IsGoodFor pair t now later
    login-IsGoodFor email password t pair db db' h now later =
        let (u, same) = login_lem email password t pair db db' h in
        subst (λ p. IsGoodFor p t now later) (sym same) (issue_tokens-IsGoodFor u t now later)
