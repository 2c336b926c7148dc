-- ===== src/Preflight/Compliance.antt =====
-- What it means that a site passes the gate.
use site_foundry.Preflight.{
  PreflightError, schema_errors, PreflightResult, PreflightInput, is_host, destination_errors,
  trust_errors, legal_errors, products_errors, is_claim, has_none, hosts_of, block, param_errors,
  run_preflight,
}
use site_foundry.Preflight.Schema.Complete.{IsMet, schema_errors_lem}
use site_foundry.Preflight.Trust.{nil_of_append, unless_nil, HasTrust, HasTrust-of_nil}
use site_foundry.Preflight.Gate.{IsProduct, products_lem, claims_lem, HasLegal, HasLegal-of_nil}
use site_foundry.Json.{prop, array_of, entries}
use site_foundry.Effects.{ok, bind-eq-ok, ok-injective}
use site_foundry.Web.{UrlParser, host_of, is_https}
use site_foundry.Prelude.{
  ◌≤◌, ◌≡◌, refl, ap, ◌∙◌, inl, inr, true, List, [], ◌∷◌, Bool-cases, length, All,
}
use site_foundry.Text.{Text, txt}

pub record IsCompliant (parse : UrlParser) (input : PreflightInput) : Type 0 where
  pub destination : is_host (host_of parse input.destination_url) ≡ true
  pub secure : is_https parse input.destination_url ≡ true
  pub trust : HasTrust (block parse input (txt "trust"))
  pub legal : HasLegal input.template_category (block parse input (txt "legal"))
  pub products :
      All (IsProduct parse (hosts_of parse input)) (array_of (prop input.params (txt "products")))
  pub few_products : length (array_of (prop input.params (txt "products"))) ≤ 12
  pub claims : All (λ claim. is_claim claim ≡ true) (array_of (prop input.params (txt "ad_claims")))
  pub schema : All (IsMet input.params) (entries (prop input.param_schema (txt "properties")))

destination_lem :
    (parse : UrlParser) (url : Text)
    → destination_errors parse url ≡ []
    → (is_host (host_of parse url) ≡ true) × (is_https parse url ≡ true)
unfolding destination_errors
destination_lem parse url h = elim (Bool-cases (is_host (host_of parse url))) [
  | inl found ↦ (found, unless_nil _ _ (rw found at h))
  | inr missing ↦ absurd (cc (rw missing at h))
]

nil_of_has_none : (errors : List PreflightError) → has_none errors ≡ true → errors ≡ []
nil_of_has_none [] h = refl
nil_of_has_none (e ∷ es) h = absurd (cc)

IsCompliant-of_nil :
    (parse : UrlParser) (input : PreflightInput) (found : List PreflightError)
    → param_errors parse input ≡ ok found
    → schema_errors input.params input.param_schema found ≡ []
    → IsCompliant parse input
unfolding param_errors
IsCompliant-of_nil parse input found e h =
    let (no_found, met) = schema_errors_lem input.params input.param_schema found h in
    let (trust, e1, h1) =
      bind-eq-ok (trust_errors (block parse input (txt "trust"))) _ (e ∙ ap ok no_found) in
    let (legal, e2, h2) =
      bind-eq-ok (legal_errors input.template_category (block parse input (txt "legal"))) _ h1 in
    let (products, e3, h3) =
      bind-eq-ok
        (products_errors parse (hosts_of parse input)
          (array_of (prop input.params (txt "products"))))
        _ h2 in
    let (no_destination, r1) = nil_of_append _ _ (ok-injective h3) in
    let (no_trust, r2) = nil_of_append _ _ r1 in
    let (no_legal, r3) = nil_of_append _ _ r2 in
    let (no_products, no_claims) = nil_of_append _ _ r3 in
    let (host, secure) = destination_lem parse input.destination_url no_destination in
    let (each, few) = products_lem parse (hosts_of parse input) host _ (e3 ∙ ap ok no_products) in
    record {
      destination = host;
      secure = secure;
      trust = HasTrust-of_nil _ (e1 ∙ ap ok no_trust);
      legal = HasLegal-of_nil input.template_category _ (e2 ∙ ap ok no_legal);
      products = each;
      few_products = few;
      claims = claims_lem 0 _ no_claims;
      schema = met;
    }

-- If `runPreflight` reports a site as ok, then the site is compliant: an HTTPS destination with a
-- host, the contact data and a valid e-mail, a privacy policy of 100 units, terms, a disclosure
-- where the category needs one, at most 12 products of at most 6 offers, every product and offer
-- link an HTTPS URL whose host, if not empty, is the destination's or declared, claims that are not
-- blank, and every required or length-limited field of the template's schema met.
pub run_preflight-IsCompliant :
    (parse : UrlParser) (input : PreflightInput) (r : PreflightResult)
    → run_preflight parse input ≡ ok r
    → r.ok ≡ true
    → IsCompliant parse input
unfolding run_preflight
run_preflight-IsCompliant parse input r e passed =
    let (found, e1, h1) = bind-eq-ok (param_errors parse input) _ e in
    IsCompliant-of_nil parse input found e1
      (nil_of_has_none _ (ap (λ (x : PreflightResult). x.ok) (ok-injective h1) ∙ passed))
