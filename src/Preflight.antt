-- ===== src/Preflight.antt =====
-- The compliance gate, `runPreflight` of apps/api/src/sites/preflight.ts. Each block of the function
-- is a definition of its own that returns the errors which the block appends, in order; `err` is
-- the `TypeError` of a `trim` on what is no text.
pub mod Schema
pub mod Gate
pub mod Trust
pub mod Compliance
mod Tests
pub use Schema.{PreflightError, has_error}
unfoldable pub use Schema.{schema_errors}
use site_foundry.Json.{Json, str, obj, end, prop, default_to, array_of, trimmed}
use site_foundry.Effects.{Result, ok, bind}
use site_foundry.Web.{UrlParser, normal_host, host_of, is_https}
use site_foundry.Preflight.Schema.{PreflightError, schema_errors}
use site_foundry.Prelude.{
  ℕ, suc, Bool, true, false, ◌&&◌, ◌||◌, not, Option, none, some, List, [], ◌∷◌, ◌++◌, map, ltb,
  ◌==◌, if◌then◌else◌, length, keep, any, all,
}
use site_foundry.Text.{Text, txt, text_eq, is_empty, is_space, trim, show, join}

abbrev pub issue : Text → Text → PreflightError
issue at message = record { field = at; message = message }

pub record PreflightResult : Type 0 where
  pub ok : Bool
  pub errors : List PreflightError
  pub pending_build_checks : List Text

pub record PreflightInput : Type 0 where
  pub params : Json
  pub destination_url : Text
  pub template_category : Text
  pub param_schema : Json
  pub extra_allowed_hosts : List Text

-- `EMAIL_RE`: one `@` between units that are neither white space nor `@`, and after it a dot with
-- something on both sides.
abbrev is_plain_unit : ℕ → Bool
is_plain_unit c = not (is_space c) && not (c == b'@')

has_inner_dot : Text → Bool
has_inner_dot (c ∷ d ∷ s) = c == b'.' || has_inner_dot (d ∷ s)
has_inner_dot _ = false

is_mail_host : Text → Bool
is_mail_host [] = false
is_mail_host (c ∷ s) = all is_plain_unit (c ∷ s) && has_inner_dot s

mail_after : Bool → Text → Bool
mail_after started [] = false
mail_after started (c ∷ s) =
    let rest = mail_after true s in
    if c == b'@' then started && is_mail_host s else not (is_space c) && rest

unfoldable pub is_email : Text → Bool
unfolding has_inner_dot is_mail_host mail_after is_space
is_email s = mail_after false s

-- The errors of a test that fails.
abbrev pub unless : Bool → PreflightError → List PreflightError
unless true e = []
unless false e = e ∷ []

abbrev pub is_host : Option Text → Bool
is_host none = false
is_host (some h) = not (is_empty h)

module _ (parse : UrlParser) where
  unfoldable pub destination_errors : Text → List PreflightError
  destination_errors url =
      if not (is_host (host_of parse url))
      then issue (txt "destination_url") (txt "Destination store URL is not a valid URL") ∷ []
      else unless (is_https parse url)
          (issue (txt "destination_url") (txt "Destination store URL must be HTTPS"))

-- The members of the set that are not the destination's host.
abbrev pub extra_hosts : List Text → List Text
extra_hosts hosts = keep (λ h. not (is_empty h)) (map normal_host hosts)

-- The elements of `new Set(…)`, in the order of their first occurrence
abbrev pub unique : List Text → List Text
unique [] = []
unique (h ∷ hs) = h ∷ keep (λ k. not (text_eq k h)) (unique hs)

abbrev listed_hosts : Option Text → List Text → List Text
listed_hosts none extra = extra_hosts extra
listed_hosts (some h) extra = if is_empty h then extra_hosts extra else h ∷ extra_hosts extra

abbrev pub allowed_hosts : Option Text → List Text → List Text
allowed_hosts dest extra = unique (listed_hosts dest extra)

-- trust & contact
unfoldable pub trust_errors : Json → Result (List PreflightError)
trust_errors trust = bind (trimmed (prop trust (txt "business_name"))) λ name.
    bind (trimmed (prop trust (txt "contact_email"))) λ email.
      bind (trimmed (prop trust (txt "contact_phone"))) λ phone.
        bind (trimmed (prop trust (txt "address"))) λ address. ok (
          unless (not (is_empty name))
            (issue (txt "trust.business_name") (txt "Business name is required"))
          ++ ((if is_empty email
                then issue (txt "trust.contact_email") (txt "Contact email is required") ∷ []
                else unless (is_email email) (
                    issue (txt "trust.contact_email")
                      (txt "Contact email is not a valid email address")))
              ++ (unless (not (is_empty phone))
                    (issue (txt "trust.contact_phone") (txt "Contact phone is required"))
                  ++ unless (not (is_empty address))
                      (issue (txt "trust.address") (txt "Physical address is required")))))

abbrev pub needs_disclosure : Text → Bool
needs_disclosure category =
    text_eq category (txt "prelander") || text_eq category (txt "comparison")

privacy_message : ℕ → Text
privacy_message n =
    if n == 0
    then txt "Privacy policy is required"
    else txt "Privacy policy too short (" ++ (show n ++ txt " chars, minimum 100)")

disclosure_errors : Text → Json → Result (List PreflightError)
disclosure_errors category legal =
    if needs_disclosure category
    then bind (trimmed (prop legal (txt "affiliate_disclosure_md"))) (λ text. ok (
        unless (not (is_empty text)) (
          issue (txt "legal.affiliate_disclosure_md")
            (txt "Affiliate/ad disclosure is required for " ++ (category ++ txt " templates")))))
    else ok []

unfoldable pub legal_errors : Text → Json → Result (List PreflightError)
unfolding privacy_message disclosure_errors
legal_errors category legal = bind (trimmed (prop legal (txt "privacy_policy_md"))) λ privacy.
    bind (trimmed (prop legal (txt "terms_md"))) λ terms.
      bind (disclosure_errors category legal) λ disclosure. ok (
        unless (not (ltb (length privacy) 100))
          (issue (txt "legal.privacy_policy_md") (privacy_message (length privacy)))
        ++ (unless (not (is_empty terms))
              (issue (txt "legal.terms_md") (txt "Terms & conditions are required"))
            ++ disclosure))

-- outbound links; `allowed` and `dest` are those of the destination
pub record Hosts : Type 0 where
  pub dest : Option Text
  pub allowed : List Text

module _ (parse : UrlParser) where
  off_destination : Hosts → Text → Text → List PreflightError
  off_destination hosts field host =
      unless (is_empty host || not (is_host hosts.dest) || any (text_eq host) hosts.allowed) (
        issue field (
          txt "Outbound link goes off-destination ("
          ++ (host ++ (txt ") — allowed stores: " ++ join (txt ", ") hosts.allowed))))

  host_errors : Hosts → Text → Option Text → List PreflightError
  host_errors hosts field none = []
  host_errors hosts field (some host) = off_destination hosts field host

  unfoldable pub check_outbound : Hosts → Text → Json → Text → List PreflightError
  unfolding off_destination host_errors
  check_outbound hosts field (str url) label =
      if is_empty url
      then issue field (label ++ txt " is required") ∷ []
      else if not (is_https parse url)
      then issue field (label ++ txt " must be HTTPS") ∷ []
      else host_errors hosts field (host_of parse url)
  check_outbound hosts field _ label = issue field (label ++ txt " is required") ∷ []

  abbrev offer_path : ℕ → ℕ → Text → Text
  offer_path i j name =
      txt "products[" ++ (show i ++ (txt "].offers[" ++ (show j ++ (txt "]." ++ name))))

  offer_errors : Hosts → ℕ → ℕ → List Json → Result (List PreflightError)
  offer_errors hosts i j [] = ok []
  offer_errors hosts i j (offer ∷ offers) = bind (trimmed (prop offer (txt "store_name"))) λ store.
      bind (offer_errors hosts i (suc j) offers) λ later. ok (
        unless (not (is_empty store))
          (issue (offer_path i j (txt "store_name")) (txt "Offer store name is required"))
        ++ (check_outbound hosts (offer_path i j (txt "target_url")) (prop offer (txt "target_url"))
              (txt "Offer link")
            ++ later))

  product_errors : Hosts → ℕ → List Json → Result (List PreflightError)
  unfolding offer_errors
  product_errors hosts i [] = ok []
  product_errors hosts i (product ∷ products) =
      let offers = array_of (prop product (txt "offers")) in
      bind (offer_errors hosts i 0 offers) λ errors.
        bind (product_errors hosts (suc i) products) λ later. ok (
          check_outbound hosts (txt "products[" ++ (show i ++ txt "].target_url"))
            (prop product (txt "target_url")) (txt "Product link")
          ++ (errors
              ++ (unless (not (ltb 6 (length offers))) (
                    issue (txt "products[" ++ (show i ++ txt "].offers"))
                      (txt "Maximum 6 offers per product"))
                  ++ later)))

  unfoldable pub products_errors : Hosts → List Json → Result (List PreflightError)
  unfolding product_errors
  products_errors hosts products = bind (product_errors hosts 0 products) λ errors. ok (
      errors
      ++ unless (not (ltb 12 (length products)))
          (issue (txt "products") (txt "Maximum 12 products")))

-- `typeof claim === 'string' && claim.trim()`
abbrev pub is_claim : Json → Bool
is_claim (str s) = not (is_empty (trim s))
is_claim _ = false

unfoldable pub claim_errors : ℕ → List Json → List PreflightError
claim_errors i [] = []
claim_errors i (claim ∷ claims) =
    unless (is_claim claim)
      (issue (txt "ad_claims[" ++ (show i ++ txt "]")) (txt "Ad claim must be a non-empty string"))
    ++ claim_errors (suc i) claims

abbrev pub pending_checks : List Text
pending_checks =
    txt "Ad claims literally present in rendered HTML"
    ∷ txt "All image URLs return HTTP 200"
    ∷ txt "No blocking pop-up gates on page load"
    ∷ txt "Lighthouse performance score >= 90"
    ∷ []

abbrev pub has_none : List PreflightError → Bool
has_none [] = true
has_none (e ∷ es) = false

module _ (parse : UrlParser) where
  abbrev pub hosts_of : PreflightInput → Hosts
  hosts_of input = record {
    dest = host_of parse input.destination_url;
    allowed = allowed_hosts (host_of parse input.destination_url) input.extra_allowed_hosts;
  }

  abbrev pub block : PreflightInput → Text → Json
  block input name = default_to (prop input.params name) (obj end)

  unfoldable pub param_errors : PreflightInput → Result (List PreflightError)
  param_errors input = bind (trust_errors (block input (txt "trust"))) λ trust.
      bind (legal_errors input.template_category (block input (txt "legal"))) λ legal.
        bind
          (products_errors parse (hosts_of input) (array_of (prop input.params (txt "products"))))
          λ products. ok (
            destination_errors parse input.destination_url
            ++ (trust
                ++ (legal
                    ++ (products
                        ++ claim_errors 0 (array_of (prop input.params (txt "ad_claims")))))))

  unfoldable pub run_preflight : PreflightInput → Result PreflightResult
  unfolding param_errors
  run_preflight input = bind (param_errors input) λ found.
      let errors = schema_errors input.params input.param_schema found in
      ok (record { ok = has_none errors; errors = errors; pending_build_checks = pending_checks })
