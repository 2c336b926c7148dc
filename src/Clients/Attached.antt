-- ===== src/Clients/Attached.antt =====
-- The sites and their clients under requests about clients.
use site_foundry.Clients.{
  Client, CreateClientDto, UpdateClientDto, Site, Recorded, Db, is_row, is_site_of, audit,
  find_client, create, updated, update, remove_found, remove,
}
use site_foundry.Users.{AuthUser}
use site_foundry.Effects.{modify, ◌>>=◌}
use site_foundry.Effects.Keeps.{Keeps, keeps_rules}
use site_foundry.Prelude.{
  ◌≡◌, refl, ◌∙◌, inl, inr, Bool, true, false, ◌&&◌, List, [], ◌∷◌, arith, leb, Bool-cases, any,
  edit_first, remove_first, count, All,
}
use site_foundry.Text.{Text, text_eq, text_eq_iff}

-- The client of a site, of the site's tenant
abbrev pub is_client_of : Site → Client → Bool
is_client_of s c = text_eq c.tenant_id s.tenant_id && text_eq c.id s.client_id

-- Every site has its client.
abbrev pub Attached : List Client → List Site → Type 0
Attached clients sites = All (λ (s : Site). any (is_client_of s) clients ≡ true) sites

pub data Request : Type 0 where
  create_request : AuthUser → CreateClientDto → Text → Request
  update_request : AuthUser → Text → UpdateClientDto → Request
  remove_request : AuthUser → Text → Request

unfoldable pub serve : Request → Db → Db
unfolding create update remove
serve (create_request user dto id) db = (create user dto id db).1
serve (update_request user id dto) db = (update user id dto db).1
serve (remove_request user id) db = (remove user id db).1

unfoldable pub serve_all : List Request → Db → Db
serve_all [] db = db
serve_all (r ∷ rs) db = serve_all rs (serve r db)

-- The sites are the given ones, and they have their clients.
pub record IsAttached (sites : List Site) (db : Db) : Type 0 where
  pub same : db.sites ≡ sites
  pub attached : Attached db.clients db.sites

Attached-cons :
    (c : Client) (clients : List Client) (sites : List Site)
    → Attached clients sites
    → Attached (c ∷ clients) sites
Attached-cons c clients [] h = tt
Attached-cons c clients (s ∷ sites) (h, hs) = (ground (arith, h), Attached-cons c clients sites hs)

any-edit_first :
    (p q : Client → Bool) (f : Client → Client)
    → ((c : Client) → p (f c) ≡ p c)
    → (clients : List Client) → any p (edit_first q f clients) ≡ any p clients
any-edit_first p q f same [] = refl
any-edit_first p q f same (c ∷ cs) =
    let here = same c in ground (arith, any-edit_first p q f same cs)

any-remove_first :
    (p q : Client → Bool)
    → ((c : Client) → p c ≡ true → q c ≡ false)
    → (clients : List Client) → any p clients ≡ true
    → any p (remove_first q clients) ≡ true
any-remove_first p q apart [] h = absurd (cc)
any-remove_first p q apart (c ∷ cs) h =
    let here = apart c in ground (arith, any-remove_first p q apart cs)

Attached-edit_first :
    (tenant id : Text) (dto : UpdateClientDto) (clients : List Client) (sites : List Site)
    → Attached clients sites
    → Attached (edit_first (is_row tenant id) (updated dto) clients) sites
Attached-edit_first tenant id dto clients [] h = tt
Attached-edit_first tenant id dto clients (s ∷ sites) (h, hs) = (
  any-edit_first (is_client_of s) (is_row tenant id) (updated dto) (λ c. refl) clients ∙ h,
  Attached-edit_first tenant id dto clients sites hs,
)

-- The client of a site that is not counted is another one.
is_row-other :
    (tenant id : Text) (s : Site) (c : Client)
    → is_site_of tenant id s ≡ false
    → is_client_of s c ≡ true
    → is_row tenant id c ≡ false
is_row-other tenant id s c h k =
    grind (arith, text_eq_iff c.tenant_id s.tenant_id, text_eq_iff c.id s.client_id)

Attached-remove_first :
    (tenant id : Text) (clients : List Client) (sites : List Site)
    → count (is_site_of tenant id) sites ≡ 0
    → Attached clients sites
    → Attached (remove_first (is_row tenant id) clients) sites
Attached-remove_first tenant id clients [] none_left h = tt
Attached-remove_first tenant id clients (s ∷ sites) none_left (h, hs) =
    elim (Bool-cases (is_site_of tenant id s)) [
      | inl its_own ↦ absurd (ground arith)
      | inr other ↦ (
        any-remove_first (is_client_of s) (is_row tenant id)
            (λ c k. is_row-other tenant id s c other k) clients h,
        Attached-remove_first tenant id clients sites (ground arith) hs,
      )
    ]

module _ (sites : List Site) where
  audit-IsAttached :
      (user : AuthUser) (action id : Text) (before after : Recorded)
      → Keeps (IsAttached sites) (audit user action id before after)
  unfolding audit ◌>>=◌
  audit-IsAttached user action id before after = record {
    at = λ db h. record { same = h.same; attached = h.attached };
  }

  add-IsAttached :
      (c : Client)
      → Keeps (IsAttached sites) (modify (λ (db : Db). record db { clients = c ∷ db.clients }))
  unfolding ◌>>=◌
  add-IsAttached c = record {
    at =
        λ db h. record { same = h.same; attached = Attached-cons c db.clients db.sites h.attached };
  }

  edit-IsAttached :
      (tenant id : Text) (dto : UpdateClientDto)
      → Keeps (IsAttached sites) (
          modify (λ (db : Db). record db {
            clients = edit_first (is_row tenant id) (updated dto) db.clients;
          }))
  unfolding ◌>>=◌
  edit-IsAttached tenant id dto = record {
    at = λ db h. record {
      same = h.same;
      attached = Attached-edit_first tenant id dto db.clients db.sites h.attached;
    };
  }

  find-IsAttached : (user : AuthUser) (id : Text) → Keeps (IsAttached sites) (find_client user id)
  unfolding find_client
  find-IsAttached user id = search keeps_rules

  ruleset attached_rules =
      (keeps_rules, audit-IsAttached, add-IsAttached, edit-IsAttached, find-IsAttached)

  create-IsAttached :
      (user : AuthUser) (dto : CreateClientDto) (id : Text)
      → Keeps (IsAttached sites) (create user dto id)
  unfolding create
  create-IsAttached user dto id = search attached_rules depth 12

  update-IsAttached :
      (user : AuthUser) (id : Text) (dto : UpdateClientDto)
      → Keeps (IsAttached sites) (update user id dto)
  unfolding update
  update-IsAttached user id dto = search attached_rules depth 12

  remove_found-IsAttached :
      (user : AuthUser) (id : Text) (client : Client)
      → Keeps (IsAttached sites) (remove_found user id client)
  unfolding remove_found audit ◌>>=◌
  remove_found-IsAttached user id client = record {
    at = λ db h. elim (Bool-cases (leb (count (is_site_of user.tenant_id id) db.sites) 0)) [
      | inl free ↦ rw free (record {
        same = h.same;
        attached =
            Attached-remove_first user.tenant_id id db.clients db.sites (ground (arith, free))
              h.attached;
      })
      | inr in_use ↦ rw in_use h
    ];
  }

  remove-IsAttached : (user : AuthUser) (id : Text) → Keeps (IsAttached sites) (remove user id)
  unfolding remove
  remove-IsAttached user id = search (attached_rules, remove_found-IsAttached) depth 12

  serve-IsAttached : (r : Request) (db : Db) → IsAttached sites db → IsAttached sites (serve r db)
  unfolding serve
  serve-IsAttached (create_request user dto id) db h = (create-IsAttached user dto id).at db h
  serve-IsAttached (update_request user id dto) db h = (update-IsAttached user id dto).at db h
  serve-IsAttached (remove_request user id) db h = (remove-IsAttached user id).at db h

  all_served :
      (rs : List Request) (db : Db) → IsAttached sites db → IsAttached sites (serve_all rs db)
  unfolding serve_all
  all_served [] db h = h
  all_served (r ∷ rs) db h = all_served rs (serve r db) (serve-IsAttached r db h)

-- Any sequence of requests about clients, of any tenants, leaves the sites as they are, and when
-- each of them had a client of its tenant, it still has one.
pub serve_all-IsAttached :
    (rs : List Request) (db : Db)
    → Attached db.clients db.sites
    → IsAttached db.sites (serve_all rs db)
serve_all-IsAttached rs db h = all_served db.sites rs db (record { same = refl; attached = h })
