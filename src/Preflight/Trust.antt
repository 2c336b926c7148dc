-- ===== src/Preflight/Trust.antt =====
-- When the blocks of the gate that read texts find nothing.
use site_foundry.Preflight.{PreflightError, is_email, unless, trust_errors}
use site_foundry.Json.{Json, null, str, prop, trimmed, IsFilled, IsFilled-of_trimmed}
use site_foundry.Effects.{ok, bind-eq-ok, ok-injective}
use site_foundry.Prelude.{
  ◌≡◌, refl, Bool, true, false, not, List, [], ◌∷◌, ◌++◌, arith, if◌then◌else◌,
}
use site_foundry.Text.{Text, txt, is_empty, trim}

module _ {ℓ} {A : Type ℓ} where
  pub nil_of_append : (xs ys : List A) → xs ++ ys ≡ [] → (xs ≡ []) × (ys ≡ [])
  nil_of_append [] ys h = (refl, h)
  nil_of_append (x ∷ xs) ys h = cc

pub unless_nil : (b : Bool) (e : PreflightError) → unless b e ≡ [] → b ≡ true
unless_nil true e h = refl
unless_nil false e h = cc

-- The contact e-mail of a site is set, and is one by `EMAIL_RE`.
pub record IsMail (v : Json) : Type 0 where
  pub filled : IsFilled v
  pub mail : is_email (trim filled.value) ≡ true

pub record HasTrust (trust : Json) : Type 0 where
  pub name : IsFilled (prop trust (txt "business_name"))
  pub email : IsMail (prop trust (txt "contact_email"))
  pub phone : IsFilled (prop trust (txt "contact_phone"))
  pub address : IsFilled (prop trust (txt "address"))

IsMail-of_trimmed :
    (v : Json) (s : Text) → trimmed v ≡ ok s → is_empty s ≡ false → is_email s ≡ true → IsMail v
unfolding trimmed
IsMail-of_trimmed null s h e m = absurd (ground arith)
IsMail-of_trimmed (str t) s h e m = record {
  filled = record { value = t; is_text = refl; not_blank = ground arith };
  mail = ground arith;
}
IsMail-of_trimmed _ s h e m = absurd (cc)

mail_nil :
    (empty mail : Bool) (a b : PreflightError)
    → (if empty then a ∷ [] else unless mail b) ≡ []
    → (empty ≡ false) × (mail ≡ true)
mail_nil true mail a b h = cc
mail_nil false mail a b h = (refl, unless_nil mail b h)

not_eq : {b : Bool} → not b ≡ true → b ≡ false
not_eq h = ground arith

pub HasTrust-of_nil : (trust : Json) → trust_errors trust ≡ ok [] → HasTrust trust
unfolding trust_errors
HasTrust-of_nil trust h =
    let (name, e1, h1) = bind-eq-ok (trimmed (prop trust (txt "business_name"))) _ h in
    let (email, e2, h2) = bind-eq-ok (trimmed (prop trust (txt "contact_email"))) _ h1 in
    let (phone, e3, h3) = bind-eq-ok (trimmed (prop trust (txt "contact_phone"))) _ h2 in
    let (address, e4, h4) = bind-eq-ok (trimmed (prop trust (txt "address"))) _ h3 in
    let (no_name, r1) = nil_of_append _ _ (ok-injective h4) in
    let (no_mail, r2) = nil_of_append _ _ r1 in
    let (no_phone, no_address) = nil_of_append _ _ r2 in
    let (filled, mail) = mail_nil (is_empty email) (is_email email) _ _ no_mail in
    record {
      name = IsFilled-of_trimmed _ name e1 (not_eq (unless_nil _ _ no_name));
      email = IsMail-of_trimmed _ email e2 filled mail;
      phone = IsFilled-of_trimmed _ phone e3 (not_eq (unless_nil _ _ no_phone));
      address = IsFilled-of_trimmed _ address e4 (not_eq (unless_nil _ _ no_address));
    }
