-- ===== src/Track/Sound.antt =====
-- What a beacon may leave in the tables.
use site_foundry.Track.{
  event_names, Site, Visit, Tables, Beacon, Platform, text_of, session_of, is_archived, string_of,
  visit_of, record_visit, parse_body, is_domain_of, check_origin, track_site, track_found, admit,
  track_event, track_valid, is_valid, track_body, track,
}
use site_foundry.Json.{Json, str, prop, is_null}
use site_foundry.Effects.{Exception, Result, ok, err, pure, lift, throw, modify, guard, ◌>>=◌}
use site_foundry.Web.{Url, to_lower_case}
use site_foundry.Prelude.{
  ℕ, ◌≤◌, ◌≡◌, refl, sym, ap, ◌⊎◌, inl, inr, Bool, true, false, ◌||◌, not, Option, none, some, List,
  [], ◌∷◌, ◌++◌, arith, Bool-cases, Option-cases, length, any, find, length-take,
}
use site_foundry.Text.{Text, txt, text_eq, is_empty}

abbrev pub IsShort : Option Text → ℕ → Type 0
IsShort none n = Unit
IsShort (some s) n = length s ≤ n

pub record IsBounded (v : Visit) : Type 0 where
  pub session : IsShort v.session_id 64
  pub utm_source : IsShort v.utm_source 200
  pub utm_medium : IsShort v.utm_medium 200
  pub utm_campaign : IsShort v.utm_campaign 200
  pub utm_content : IsShort v.utm_content 200
  pub utm_term : IsShort v.utm_term 200
  pub referrer : IsShort v.referrer 500
  pub path : IsShort v.path 300

-- The origin is one that the handler admits: there is none, or the process is not in production, or
-- its host is a domain of the site.
abbrev pub IsAdmitted : Platform → Site → Option Text → Type 0
IsAdmitted p site none = Unit
IsAdmitted p site (some origin) =
    (is_empty origin || not p.is_production ≡ true)
    ⊎ ((u : Url) × (p.parse_url origin ≡ some u)
        × (is_domain_of site (to_lower_case u.hostname) ≡ true))

pub record IsRecorded (p : Platform) (b : Beacon) (sites : List Site) (site : Site) (v : Visit)
    : Type 0 where
  pub key : Text
  pub found : find (λ (s : Site). text_eq s.id key) sites ≡ some site
  pub live : is_archived site.status ≡ false
  pub admitted : IsAdmitted p site b.origin
  pub same_site : v.site_id ≡ site.id
  pub same_tenant : v.tenant_id ≡ site.tenant_id
  pub known : any (text_eq v.event) event_names ≡ true
  pub bounded : IsBounded v

-- The tables before and after
abbrev pub Leaves : Platform → Beacon → Tables → Tables → Type 0
Leaves p b db db' =
    (db'.sites ≡ db.sites)
    × ((db'.visits ≡ db.visits)
        ⊎ ((site : Site) × (v : Visit) × (db'.visits ≡ db.visits ++ v ∷ [])
            × IsRecorded p b db.sites site v))

text_of-IsShort : (v : Json) (max : ℕ) → IsShort (text_of v max) max
unfolding text_of
text_of-IsShort (str s) max = elim (Bool-cases (is_empty s)) [
  | inl e ↦ rw e tt
  | inr e ↦ rw e (length-take max s)
]
text_of-IsShort _ max = tt

session_of-IsShort : (v : Json) → IsShort (session_of v) 64
session_of-IsShort (str s) = length-take 64 s
session_of-IsShort _ = tt

visit_of-IsBounded :
    (site : Site) (body : Json) (event agent : Text) → IsBounded (visit_of site body event agent)
unfolding visit_of
visit_of-IsBounded site body event agent = record {
  session = session_of-IsShort (prop body (txt "session_id"));
  utm_source = text_of-IsShort (prop body (txt "utm_source")) 200;
  utm_medium = text_of-IsShort (prop body (txt "utm_medium")) 200;
  utm_campaign = text_of-IsShort (prop body (txt "utm_campaign")) 200;
  utm_content = text_of-IsShort (prop body (txt "utm_content")) 200;
  utm_term = text_of-IsShort (prop body (txt "utm_term")) 200;
  referrer = text_of-IsShort (prop body (txt "referrer")) 500;
  path = text_of-IsShort (prop body (txt "path")) 300;
}

module _ (p : Platform) (b : Beacon) where
  -- `check_origin` refuses and writes nothing, or admits the origin.
  check_origin_lem :
      (site : Site) (origin : Option Text) (db : Tables)
      → ((e : Exception) × (check_origin p site origin db ≡ (err e, db)))
        ⊎ ((check_origin p site origin db ≡ (ok tt, db)) × IsAdmitted p site origin)
  unfolding check_origin pure throw guard
  check_origin_lem site none db = inr (refl, tt)
  check_origin_lem site (some origin) db =
      elim (Bool-cases (is_empty origin || not p.is_production)) [
        | inl free ↦ rw free (inr (refl, inl refl))
        | inr held ↦ elim (Option-cases (p.parse_url origin)) [
          | inl bad ↦ rw (held, bad) (inl (_, refl))
          | inr (u, e) ↦ elim (Bool-cases (is_domain_of site (to_lower_case u.hostname))) [
            | inl mine ↦ rw (held, e, mine) (inr (refl, inr (u, refl, mine)))
            | inr other ↦ rw (held, e, other) (inl (_, refl))
          ]
        ]
      ]

  -- `w` is a state of the tables with the sites and visits of `db`.
  abbrev SameRows : Tables → Tables → Type 0
  SameRows db w = (w.sites ≡ db.sites) × (w.visits ≡ db.visits)

  abbrev site_with : Text → List Site → Option Site
  site_with key sites = find (λ (s : Site). text_eq s.id key) sites

  recorded :
      (body : Json) (event key : Text) (site : Site) (db w : Tables)
      → SameRows db w
      → site_with key db.sites ≡ some site
      → is_archived site.status ≡ false
      → IsAdmitted p site b.origin
      → any (text_eq event) event_names ≡ true
      → Leaves p b db (record_visit (visit_of site body event b.user_agent) w).1
  unfolding record_visit modify visit_of
  recorded body event key site db w (same, old) found live admitted known = (
    same,
    inr (
      site,
      visit_of site body event b.user_agent,
      ap (λ l. l ++ visit_of site body event b.user_agent ∷ []) old,
      record {
        key = key;
        found = found;
        live = live;
        admitted = admitted;
        same_site = refl;
        same_tenant = refl;
        known = known;
        bounded = visit_of-IsBounded site body event b.user_agent;
      },
    ),
  )

  track_site-Leaves :
      (body : Json) (event key : Text) (site : Site) (db w : Tables)
      → SameRows db w
      → site_with key db.sites ≡ some site
      → any (text_eq event) event_names ≡ true
      → Leaves p b db (track_site p b body event site w).1
  unfolding track_site pure ◌>>=◌
  track_site-Leaves body event key site db w (same, old) found known =
      elim (Bool-cases (is_archived site.status)) [
        | inl gone ↦ rw gone (same, inl old)
        | inr live ↦ elim (check_origin_lem site b.origin w) [
          | inl (e, refused) ↦ rw (live, refused) (same, inl old)
          | inr (passed, admitted) ↦
              rw (live, passed)
                (recorded body event key site db w (same, old) found live admitted known)
        ]
      ]

  track_found-Leaves :
      (body : Json) (event key : Text) (site : Option Site) (db w : Tables)
      → SameRows db w
      → site_with key db.sites ≡ site
      → any (text_eq event) event_names ≡ true
      → Leaves p b db (track_found p b body event site w).1
  unfolding track_found pure
  track_found-Leaves body event key none db w (same, old) found known = (same, inl old)
  track_found-Leaves body event key (some site) db w rows found known =
      track_site-Leaves body event key site db w rows found known

  track_event-Leaves :
      (body : Json) (event key : Text) (admitted : Bool) (db w : Tables)
      → SameRows db w
      → any (text_eq event) event_names ≡ true
      → Leaves p b db (track_event p b body key event admitted w).1
  unfolding track_event pure ◌>>=◌
  track_event-Leaves body event key false db w (same, old) known = (same, inl old)
  track_event-Leaves body event key true db w rows known =
      track_found-Leaves body event key (site_with key w.sites) db w rows
        (ap (site_with key) (sym rows.0)) known

  track_valid-Leaves :
      (now : ℕ) (body : Json) (event key : Text) (db : Tables)
      → any (text_eq event) event_names ≡ true
      → Leaves p b db (track_valid p b now body key event db).1
  unfolding track_valid admit ◌>>=◌
  track_valid-Leaves now body event key db known =
      track_event-Leaves body event key _ db _ (refl, refl) known

  track_body-Leaves :
      (now : ℕ) (body : Json) (db : Tables) → Leaves p b db (track_body p b now body db).1
  unfolding track_body ◌>>=◌
  track_body-Leaves now body db = elim (Bool-cases (is_null body)) [
    | inl nothing ↦ rw nothing (refl, inl refl)
    | inr there ↦
        let key = string_of body (txt "site_key") in
        let event = string_of body (txt "event") in
        elim (Bool-cases (is_valid key event)) [
          | inl valid ↦ rw (there, valid) (track_valid-Leaves now body event key db (ground arith))
          | inr bad ↦ rw (there, bad) (refl, inl refl)
        ]
  ]

  parsed-Leaves :
      (now : ℕ) (body : Result Json) (db : Tables)
      → Leaves p b db ((lift body >>= λ v. track_body p b now v) db).1
  unfolding lift ◌>>=◌
  parsed-Leaves now (ok v) db = track_body-Leaves now v db
  parsed-Leaves now (err e) db = (refl, inl refl)

  -- A beacon leaves the sites, and the visits as they were or with one more visit at their end. That
  -- visit is of one of the seven events, at a site that was found and is not archived, under the
  -- site's tenant, its texts within the bounds of the handler; and the origin was admitted: none was
  -- sent, or the process is not in production, or its host is a domain of the site.
  pub track-Leaves : (now : ℕ) (db : Tables) → Leaves p b db (track p b now db).1
  unfolding track
  track-Leaves now db = parsed-Leaves now (parse_body p b.body) db
