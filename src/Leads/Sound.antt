-- ===== src/Leads/Sound.antt =====
-- What the tables of the leads hold, whatever is submitted by visitors and set by users.
use site_foundry.Leads.Bounds.{IsField, sanitize_fields-IsField}
use site_foundry.Leads.Capture.{
  Site, Lead, Payload, Entry, Tables, Input, is_true, has_none, is_archived, given, is_own,
  assert_site, lead_of, store_lead, store_if_found, capture, is_allowed, check_url,
  validate_webhook_url, validate_given, set_webhook,
}
use site_foundry.Leads.Fields.{max_fields, sanitize_fields}
use site_foundry.Effects.{
  bad_request, not_found, Exception, Result, ok, err, thrown, require, modify, continue, ◌>>=◌,
}
use site_foundry.Web.{Url, UrlParser}
use site_foundry.Users.{AuthUser}
use site_foundry.Json.{Json, null, bool, num, str, arr, obj}
use site_foundry.Prelude.{
  ◌≤◌, ◌≡◌, refl, sym, ap, ◌∙◌, ◌≢◌, ◌⊎◌, inl, inr, Bool, true, false, Option, none, some, List, [],
  ◌∷◌, ◌++◌, if◌then◌else◌, Bool-cases, length, find, edit_first, find-holds, All, All-append,
  All-last, All-edit_first, All-find,
}
use site_foundry.Text.{Text, txt, text_eq, text_eq_iff}

-- A request to the service: a form, or a change of a webhook.
pub data Request : Type 0 where
  form_request : Input → Request
  webhook_request : AuthUser → Text → Option Text → Request

-- A form behind a lead: its consent is the value true, and its key names the lead's site.
pub record IsSource (l : Lead) (input : Input) : Type 0 where
  pub agreed : input.consent ≡ bool true
  pub same_site : l.site_id ≡ input.site_key
  pub same_row : l.id ≡ input.row_id

-- A stored lead, when `Submitted` are the forms that visitors sent: it stems from one of them that
-- gives consent, says so, and has 1 to 12 entries that may be stored.
pub record IsLawful (Submitted : Input → Type 0) (l : Lead) : Type 0 where
  pub source : (input : Input) × Submitted input × IsSource l input
  pub with_consent : l.consent ≡ true
  pub some_field : has_none l.fields ≡ false
  pub few_fields : length l.fields ≤ max_fields
  pub each_field : All IsField l.fields

-- The form of a request is one that was sent.
abbrev pub IsSent : (Input → Type 0) → Request → Type 0
IsSent Submitted (form_request input) = Submitted input
IsSent Submitted (webhook_request user id url) = Unit

agreed_lem : (v : Json) → is_true v ≡ true → v ≡ bool true
agreed_lem (bool b) h = ap bool h
agreed_lem null h = absurd (cc)
agreed_lem (num n) h = absurd (cc)
agreed_lem (str s) h = absurd (cc)
agreed_lem (arr vs) h = absurd (cc)
agreed_lem (obj fs) h = absurd (cc)

module _ (parse_url : UrlParser) (dev_mode : Bool) (hash_ip : Text → Text) where
  unfoldable pub serve : Request → Tables → Tables
  serve (form_request input) db = (capture hash_ip input db).1
  serve (webhook_request user id url) db = (set_webhook parse_url dev_mode user id url db).1

  unfoldable pub serve_all : List Request → Tables → Tables
  serve_all [] db = db
  serve_all (r ∷ rs) db = serve_all rs (serve r db)

module _ (Submitted : Input → Type 0) (parse_url : UrlParser) (dev_mode : Bool) where
  -- The URL parses, and is HTTPS or, in development, local.
  pub IsSafeUrl : Text → Type 0
  IsSafeUrl url = (u : Url) × (parse_url url ≡ some u) × (is_allowed parse_url dev_mode u ≡ true)

  abbrev pub IsSafe : Option Text → Type 0
  IsSafe none = Unit
  IsSafe (some url) = IsSafeUrl url

  abbrev pub IsSafeSite : Site → Type 0
  IsSafeSite s = IsSafe (given s.lead_webhook_url)

  -- Every lead is lawful, and every webhook that is set, or that a delivery goes to, is safe.
  pub record IsSound (db : Tables) : Type 0 where
    pub leads : All (IsLawful Submitted) db.leads
    pub sites : All IsSafeSite db.sites
    pub outbox : All (λ (d : Text × Payload). IsSafeUrl d.0) db.outbox

  module _ (hash_ip : Text → Text) where
    -- The form was sent, with consent.
    abbrev Asked : Input → Type 0
    Asked input = Submitted input × (is_true input.consent ≡ true)

    lead_of-IsLawful :
        (input : Input) (site : Site)
        → Asked input
        → has_none (sanitize_fields input.fields) ≡ false
        → site.id ≡ input.site_key
        → IsLawful Submitted (lead_of hash_ip input site)
    unfolding lead_of
    lead_of-IsLawful input site asked h same = record {
      source = (
        input,
        asked.0,
        record { agreed = agreed_lem input.consent asked.1; same_site = same; same_row = refl },
      );
      with_consent = refl;
      some_field = h;
      few_fields = (sanitize_fields-IsField input.fields).0;
      each_field = (sanitize_fields-IsField input.fields).1;
    }

    queued_lem :
        (hook : Option Text) (p : Payload)
        → IsSafe hook
        → All
            (λ (d : Text × Payload). IsSafeUrl d.0)
            (elim hook [ none ↦ [] | some url ↦ (url, p) ∷ [] ])
    queued_lem none p safe = tt
    queued_lem (some url) p safe = (safe, tt)

    store_lem :
        (input : Input) (site : Site) (db : Tables)
        → Asked input
        → has_none (sanitize_fields input.fields) ≡ false
        → site.id ≡ input.site_key
        → IsSafeSite site
        → IsSound db
        → IsSound (store_lead hash_ip input site db).1
    unfolding store_lead ◌>>=◌
    store_lem input site db asked h same safe sound = elim (Bool-cases (is_archived site.status)) [
      | inl old ↦ rw old sound
      | inr used ↦ rw used (record {
        leads = All-last _ db.leads _ sound.leads (lead_of-IsLawful input site asked h same);
        sites = sound.sites;
        outbox =
            All-append _ db.outbox _ sound.outbox (queued_lem (given site.lead_webhook_url) _ safe);
      })
    ]

    found_lem :
        (input : Input) (found : Option Site) (db : Tables)
        → Asked input
        → has_none (sanitize_fields input.fields) ≡ false
        → ((site : Site) → found ≡ some site → (site.id ≡ input.site_key) × IsSafeSite site)
        → IsSound db
        → IsSound (store_if_found hash_ip input found db).1
    unfolding ◌>>=◌
    found_lem input none db asked h safe sound = sound
    found_lem input (some site) db asked h safe sound =
        let (same, secure) = safe site refl in store_lem input site db asked h same secure sound

    capture_lem :
        (input : Input) (db : Tables)
        → Submitted input
        → IsSound db
        → IsSound (capture hash_ip input db).1
    unfolding capture ◌>>=◌
    capture_lem input db sent sound = elim (Bool-cases (is_true input.consent)) [
      | inr refused ↦ rw refused sound
      | inl agreed ↦ elim (Bool-cases (has_none (sanitize_fields input.fields))) [
        | inl empty ↦ rw (agreed, empty) sound
        | inr filled ↦
            rw (agreed, filled)
              (found_lem input (find (λ s. text_eq s.id input.site_key) db.sites) db (sent, agreed)
                filled
                (λ site e. (
                  (text_eq_iff site.id input.site_key).0
                      (find-holds (λ (s : Site). text_eq s.id input.site_key) db.sites site e),
                  All-find IsSafeSite _ db.sites site sound.sites e,
                ))
                sound)
      ]
    ]

    checked_lem :
        (found : Option Url)
        → check_url parse_url dev_mode found ≡ ok tt
        → (u : Url) × (found ≡ some u) × (is_allowed parse_url dev_mode u ≡ true)
    checked_lem none h = absurd (cc)
    checked_lem (some u) h = elim (Bool-cases (is_allowed parse_url dev_mode u)) [
      | inl good ↦ (u, refl, good)
      | inr bad ↦ absurd (refused-ne-ok (sym (ap refuse bad) ∙ h))
    ]
      where
        refuse : Bool → Result (Unit {0})
        refuse b = if b then ok tt else thrown bad_request (txt "Webhook URL must be HTTPS")

        refused-ne-ok : refuse false ≢ ok tt
        refused-ne-ok e = cc

    validated_lem :
        (hook : Option Text) → validate_given parse_url dev_mode hook ≡ ok tt → IsSafe hook
    unfolding validate_webhook_url IsSafeUrl
    validated_lem none h = tt
    validated_lem (some url) h = checked_lem (parse_url url) h

    valid_or_refused : (r : Result (Unit {0})) → ((e : Exception) × (r ≡ err e)) ⊎ (r ≡ ok tt)
    valid_or_refused (ok u) = inr refl
    valid_or_refused (err e) = inl (e, refl)

    hooked_lem :
        (user : AuthUser) (id : Text) (url : Option Text) (entry : Entry) (r : Result Site)
        (db : Tables)
        → IsSafe (given url)
        → IsSound db
        → IsSound
            (continue r
              (λ _. modify (λ (w : Tables). record w {
                sites =
                    edit_first
                      (is_own user.tenant_id id)
                      (λ s. record s { lead_webhook_url = url })
                      w.sites;
                audit = w.audit ++ entry ∷ [];
              }))
              db).1
    unfolding ◌>>=◌
    hooked_lem user id url entry (ok site) db safe sound = record {
      leads = sound.leads;
      sites =
          All-edit_first IsSafeSite (is_own user.tenant_id id)
            (λ s. record s { lead_webhook_url = url }) (λ s e h. safe) db.sites sound.sites;
      outbox = sound.outbox;
    }
    hooked_lem user id url entry (err e) db safe sound = sound

    assert_site_same : (tenant id : Text) (db : Tables) → (assert_site tenant id db).1 ≡ db
    unfolding assert_site ◌>>=◌
    assert_site_same tenant id db = go (find (is_own tenant id) db.sites)
      where
        go : (found : Option Site) → (require found not_found (txt "Site not found") db).1 ≡ db
        go none = refl
        go (some site) = refl

    set_webhook_lem :
        (user : AuthUser) (id : Text) (url : Option Text) (db : Tables)
        → IsSound db
        → IsSound (set_webhook parse_url dev_mode user id url db).1
    unfolding set_webhook ◌>>=◌
    set_webhook_lem user id url db sound =
        elim (valid_or_refused (validate_given parse_url dev_mode (given url))) [
          | inl (e, refused) ↦ rw refused sound
          | inr valid ↦
              rw (valid, assert_site_same user.tenant_id id db)
                (hooked_lem user id url _ (assert_site user.tenant_id id db).0 db
                  (validated_lem (given url) valid) sound)
        ]

    serve_lem :
        (r : Request) (db : Tables)
        → IsSent Submitted r
        → IsSound db
        → IsSound (serve parse_url dev_mode hash_ip r db)
    unfolding serve
    serve_lem (form_request input) db sent sound = capture_lem input db sent sound
    serve_lem (webhook_request user id url) db sent sound = set_webhook_lem user id url db sound

    -- Let `Submitted` be the forms that visitors ever sent. Any sequence of such forms and of
    -- webhook changes, accepted or refused, keeps the tables sound: every stored lead stems from a
    -- submitted form whose consent is true and whose key names the lead's site, and has 1 to 12
    -- bounded entries; every webhook that a site has is HTTPS, or local in development, and so is
    -- every URL a lead is delivered to.
    pub serve_all-IsSound :
        (requests : List Request) (db : Tables)
        → All (IsSent Submitted) requests
        → IsSound db
        → IsSound (serve_all parse_url dev_mode hash_ip requests db)
    unfolding serve_all
    serve_all-IsSound [] db sent sound = sound
    serve_all-IsSound (r ∷ rs) db (sent, later) sound =
        serve_all-IsSound rs (serve parse_url dev_mode hash_ip r db) later
          (serve_lem r db sent sound)
