-- ===== src/Preflight/Gate.antt =====
-- When the blocks of the gate on links, products, claims and legal texts find nothing.
use site_foundry.Preflight.{
  is_host, needs_disclosure, disclosure_errors, legal_errors, Hosts, host_errors, check_outbound,
  offer_errors, product_errors, products_errors, is_claim, claim_errors,
}
use site_foundry.Preflight.Trust.{nil_of_append, unless_nil}
use site_foundry.Json.{Json, null, str, prop, array_of, trimmed, IsFilled, IsFilled-of_trimmed}
use site_foundry.Effects.{ok, bind-eq-ok, ok-injective}
use site_foundry.Web.{UrlParser, host_of, is_https}
use site_foundry.Prelude.{
  ℕ, suc, ◌≤◌, ◌≡◌, refl, ap, ◌∙◌, ◌⊎◌, inl, inr, Bool, true, false, not, some, List, [], ◌∷◌,
  arith, ltb, Bool-cases, length, any, All,
}
use site_foundry.Text.{Text, txt, text_eq, text_eq_iff, is_empty, trim}

abbrev pub IsMember : Text → List Text → Type 0
IsMember h [] = ⊥
IsMember h (x ∷ xs) = (h ≡ x) ⊎ IsMember h xs

IsMember-of_any : (h : Text) (xs : List Text) → any (text_eq h) xs ≡ true → IsMember h xs
IsMember-of_any h [] p = absurd (cc)
IsMember-of_any h (x ∷ xs) p = elim (Bool-cases (text_eq h x)) [
  | inl same ↦ inl ((text_eq_iff h x).0 same)
  | inr other ↦ inr (IsMember-of_any h xs (rw other at p))
]

-- A link is an HTTPS URL whose host, if it has one, is the destination's or a declared one.
pub record IsLink (parse : UrlParser) (hosts : Hosts) (v : Json) : Type 0 where
  pub url : Text
  pub is_text : v ≡ str url
  pub https : is_https parse url ≡ true
  pub inside :
      (h : Text) → host_of parse url ≡ some h → is_empty h ≡ false → IsMember h hosts.allowed

pub record IsOffer (parse : UrlParser) (hosts : Hosts) (offer : Json) : Type 0 where
  pub store : IsFilled (prop offer (txt "store_name"))
  pub link : IsLink parse hosts (prop offer (txt "target_url"))

pub record IsProduct (parse : UrlParser) (hosts : Hosts) (product : Json) : Type 0 where
  pub link : IsLink parse hosts (prop product (txt "target_url"))
  pub offers : All (IsOffer parse hosts) (array_of (prop product (txt "offers")))
  pub few_offers : length (array_of (prop product (txt "offers"))) ≤ 6

pub not_eq : {b : Bool} → not b ≡ true → b ≡ false
not_eq h = ground arith

module _ (parse : UrlParser) (hosts : Hosts) (declared : is_host hosts.dest ≡ true) where
  off_destination_lem :
      (at h : Text)
      → host_errors parse hosts at (some h) ≡ []
      → is_empty h ≡ false
      → IsMember h hosts.allowed
  unfolding check_outbound
  off_destination_lem at h e filled =
      IsMember-of_any h hosts.allowed (ground (arith, unless_nil _ _ e))

  IsLink-of_nil :
      (at : Text) (v : Json) (label : Text)
      → check_outbound parse hosts at v label ≡ []
      → IsLink parse hosts v
  unfolding check_outbound
  IsLink-of_nil at (str url) label e = record {
    url = url;
    is_text = refl;
    https = ground arith;
    inside = λ h found filled. off_destination_lem at h (ground arith) filled;
  }
  IsLink-of_nil at _ label e = absurd (cc)

  IsOffer-of_nil :
      (i j : ℕ) (offers : List Json)
      → offer_errors parse hosts i j offers ≡ ok []
      → All (IsOffer parse hosts) offers
  unfolding products_errors
  IsOffer-of_nil i j [] e = tt
  IsOffer-of_nil i j (offer ∷ offers) e =
      let (store, e1, h1) = bind-eq-ok (trimmed (prop offer (txt "store_name"))) _ e in
      let (later, e2, h2) = bind-eq-ok (offer_errors parse hosts i (suc j) offers) _ h1 in
      let (no_store, r1) = nil_of_append _ _ (ok-injective h2) in
      let (no_link, no_later) = nil_of_append _ _ r1 in
      (
        record {
          store = IsFilled-of_trimmed _ store e1 (not_eq (unless_nil _ _ no_store));
          link = IsLink-of_nil _ _ _ no_link;
        },
        IsOffer-of_nil i (suc j) offers (e2 ∙ ap ok no_later),
      )

  IsProduct-of_nil :
      (i : ℕ) (products : List Json)
      → product_errors parse hosts i products ≡ ok []
      → All (IsProduct parse hosts) products
  unfolding products_errors
  IsProduct-of_nil i [] e = tt
  IsProduct-of_nil i (product ∷ products) e =
      let offers = array_of (prop product (txt "offers")) in
      let (errors, e1, h1) = bind-eq-ok (offer_errors parse hosts i 0 offers) _ e in
      let (later, e2, h2) = bind-eq-ok (product_errors parse hosts (suc i) products) _ h1 in
      let (no_link, r1) = nil_of_append _ _ (ok-injective h2) in
      let (no_errors, r2) = nil_of_append _ _ r1 in
      let (few, no_later) = nil_of_append _ _ r2 in
      (
        record {
          link = IsLink-of_nil _ _ _ no_link;
          offers = IsOffer-of_nil i 0 offers (e1 ∙ ap ok no_errors);
          few_offers = few_of (length offers) (unless_nil _ _ few);
        },
        IsProduct-of_nil (suc i) products (e2 ∙ ap ok no_later),
      )
    where
      few_of : (n : ℕ) → not (ltb 6 n) ≡ true → n ≤ 6
      few_of n h = ground arith

  pub products_lem :
      (products : List Json)
      → products_errors parse hosts products ≡ ok []
      → All (IsProduct parse hosts) products × (length products ≤ 12)
  unfolding products_errors
  products_lem products e =
      let (errors, e1, h1) = bind-eq-ok (product_errors parse hosts 0 products) _ e in
      let (no_errors, few) = nil_of_append _ _ (ok-injective h1) in
      (
        IsProduct-of_nil 0 products (e1 ∙ ap ok no_errors),
        few_of (length products) (unless_nil _ _ few),
      )
    where
      few_of : (n : ℕ) → not (ltb 12 n) ≡ true → n ≤ 12
      few_of n h = ground arith

pub claims_lem :
    (i : ℕ) (claims : List Json)
    → claim_errors i claims ≡ []
    → All (λ claim. is_claim claim ≡ true) claims
unfolding claim_errors
claims_lem i [] e = tt
claims_lem i (claim ∷ claims) e =
    let (here, later) = nil_of_append _ _ e in
    (unless_nil _ _ here, claims_lem (suc i) claims later)

-- A text of at least 100 units once trimmed.
pub record IsLong (v : Json) : Type 0 where
  pub value : Text
  pub is_text : v ≡ str value
  pub long : 100 ≤ length (trim value)

pub record HasLegal (category : Text) (legal : Json) : Type 0 where
  pub privacy : IsLong (prop legal (txt "privacy_policy_md"))
  pub terms : IsFilled (prop legal (txt "terms_md"))
  pub disclosure :
      needs_disclosure category ≡ true → IsFilled (prop legal (txt "affiliate_disclosure_md"))

IsLong-of_trimmed : (v : Json) (s : Text) → trimmed v ≡ ok s → 100 ≤ length s → IsLong v
unfolding trimmed
IsLong-of_trimmed null s h le = absurd (ground arith)
IsLong-of_trimmed (str t) s h le = record { value = t; is_text = refl; long = ground arith }
IsLong-of_trimmed _ s h le = absurd (cc)

disclosure_lem :
    (category : Text) (legal : Json)
    → disclosure_errors category legal ≡ ok []
    → needs_disclosure category ≡ true
    → IsFilled (prop legal (txt "affiliate_disclosure_md"))
unfolding legal_errors
disclosure_lem category legal e needed =
    let (text, e1, h1) =
      bind-eq-ok (trimmed (prop legal (txt "affiliate_disclosure_md"))) _ (rw needed at e) in
    IsFilled-of_trimmed _ text e1 (not_eq (unless_nil _ _ (ok-injective h1)))

pub HasLegal-of_nil :
    (category : Text) (legal : Json) → legal_errors category legal ≡ ok [] → HasLegal category legal
unfolding legal_errors
HasLegal-of_nil category legal e =
    let (privacy, e1, h1) = bind-eq-ok (trimmed (prop legal (txt "privacy_policy_md"))) _ e in
    let (terms, e2, h2) = bind-eq-ok (trimmed (prop legal (txt "terms_md"))) _ h1 in
    let (disclosure, e3, h3) = bind-eq-ok (disclosure_errors category legal) _ h2 in
    let (long, r1) = nil_of_append _ _ (ok-injective h3) in
    let (filled, no_disclosure) = nil_of_append _ _ r1 in
    record {
      privacy = IsLong-of_trimmed _ privacy e1 (long_of (length privacy) (unless_nil _ _ long));
      terms = IsFilled-of_trimmed _ terms e2 (not_eq (unless_nil _ _ filled));
      disclosure = disclosure_lem category legal (e3 ∙ ap ok no_disclosure);
    }
  where
    long_of : (n : ℕ) → not (ltb n 100) ≡ true → 100 ≤ n
    long_of n h = ground arith
