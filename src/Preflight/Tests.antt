-- ===== src/Preflight/Tests.antt =====
-- The gate at concrete parameters.
use site_foundry.Preflight.{
  schema_errors, PreflightResult, PreflightInput, is_email, destination_errors, trust_errors,
  legal_errors, check_outbound, products_errors, claim_errors, pending_checks, run_preflight,
}
use site_foundry.Preflight.Compliance.{IsCompliant, run_preflight-IsCompliant}
use site_foundry.Json.{
  Json, null, str, arr, obj, nil, cons, Fields, end, member, prop, entries, to_string, trimmed,
}
use site_foundry.Effects.{Result, ok, err}
use site_foundry.Web.{UrlParser, normal_host, host_of, is_https}
use site_foundry.Prelude.{
  ℕ, zero, suc, String, ◌≡◌, refl, Bool, true, false, none, some, [], ◌∷◌, if◌then◌else◌,
}
use site_foundry.Text.{Text, txt, text_eq, trim, show, join}

preflight : Unit {0}
unfolding run_preflight schema_errors trust_errors legal_errors products_errors claim_errors
    check_outbound destination_errors host_of is_https normal_host is_email trimmed trim prop
    text_eq txt show join entries to_string
preflight = tt

-- A parser that knows two addresses.
abbrev parser : UrlParser
parser s =
    if text_eq s (txt "https://www.Shop.test/a")
    then some (record { protocol = txt "https:"; hostname = txt "www.shop.test" })
    else if text_eq s (txt "https://evil.test/")
    then some (record { protocol = txt "https:"; hostname = txt "evil.test" })
    else none

repeat : ℕ → Text
repeat zero = []
repeat (suc n) = b'x' ∷ repeat n

abbrev filled : String → Text → Fields → Fields
filled key value rest = member (txt key) (str value) rest

abbrev offered : String → Json
offered url = obj (
    filled "target_url" (txt url) (
      member (txt "offers")
        (arr
          (cons (obj (filled "store_name" (txt "Shop") (filled "target_url" (txt url) end))) nil))
        end))

abbrev params : String → Json
params url = obj (
    member (txt "trust")
      (obj (
        filled "business_name" (txt "Ann") (
          filled "contact_email" (txt " a@b.co ")
            (filled "contact_phone" (txt "1") (filled "address" (txt "x") end)))))
      (member (txt "legal")
        (obj (filled "privacy_policy_md" (repeat 100) (filled "terms_md" (txt "t") end)))
        (member (txt "products") (arr (cons (offered url) nil))
          (member (txt "ad_claims") (arr (cons (str (txt "best")) nil)) end))))

abbrev input : String → PreflightInput
input url = record {
  params = params url;
  destination_url = txt "https://www.Shop.test/a";
  template_category = txt "ecom_showcase";
  param_schema = null;
  extra_allowed_hosts = [];
}

abbrev passes : Result PreflightResult → Bool
passes (ok r) = r.ok
passes (err e) = false

passes_test : passes (run_preflight parser (input "https://www.Shop.test/a")) ≡ true
unfolding preflight repeat
passes_test = refl

off_test : passes (run_preflight parser (input "https://evil.test/")) ≡ false
unfolding preflight repeat
off_test = refl

abbrev clean : PreflightResult
clean = record { ok = true; errors = []; pending_build_checks = pending_checks }

clean_run : run_preflight parser (input "https://www.Shop.test/a") ≡ ok clean
unfolding preflight repeat
clean_run = refl

run_preflight-IsCompliant_example : IsCompliant parser (input "https://www.Shop.test/a")
run_preflight-IsCompliant_example =
    run_preflight-IsCompliant parser (input "https://www.Shop.test/a") clean clean_run refl
