-- ===== src/Sites/Owned.antt =====
-- The tenants of the rows that a site refers to.
use site_foundry.Sites.Service.{
  is_own, is_row, is_seen, is_usable, log, site_of, refuse_existing, add_site, insert_site, create,
  edited, with_template, changed_template, template_change, write_site, update, archive,
}
use site_foundry.Sites.Rows.{Owner, Template, Site, CreateSiteDto, UpdateSiteDto, Tables}
use site_foundry.Effects.{bad_request, conflict, Act, pure, require, ◌>>=◌, ◌>>◌}
use site_foundry.Effects.Cases.{after_guard, after_commit, after_require}
use site_foundry.Web.{to_lower_case}
use site_foundry.Users.{AuthUser}
use site_foundry.Ssl.{archived}
use site_foundry.Prelude.{
  ◌≡◌, refl, sym, subst, inl, inr, Bool, true, ◌&&◌, not, Option, none, some, List, [], ◌∷◌, arith,
  Bool-cases, or_else, any, find, find-holds, All, All-last, All-edit_first,
}
use site_foundry.Text.{Text, txt, text_eq, text_eq_iff, text_eq_refl}

pub data Request : Type 0 where
  create_request : AuthUser → CreateSiteDto → Text → Request
  update_request : AuthUser → Text → UpdateSiteDto → Request
  archive_request : AuthUser → Text → Request

unfoldable pub serve : Request → Tables → Tables
serve (create_request user dto id) db = (create user dto id db).1
serve (update_request user id dto) db = (update user id dto db).1
serve (archive_request user id) db = (archive user id db).1

unfoldable pub serve_all : List Request → Tables → Tables
serve_all [] db = db
serve_all (r ∷ rs) db = serve_all rs (serve r db)

-- The site's client and server are of its tenant, and its template is one that the tenant sees.
pub record IsOwnSite (clients servers : List Owner) (templates : List Template) (s : Site)
    : Type 0 where
  pub client : any (is_own s.tenant_id s.client_id) clients ≡ true
  pub server : any (is_own s.tenant_id s.server_id) servers ≡ true
  pub template :
      any
        (λ (t : Template). is_seen s.tenant_id t.tenant_id && text_eq t.id s.template_id)
        templates
      ≡ true

pub record IsOwned (db : Tables) : Type 0 where
  pub each : All (IsOwnSite db.clients db.servers db.templates) db.sites

any_of_found :
    {A : Type 0} (p q : A → Bool) (xs : List A) (x : A)
    → find p xs ≡ some x
    → q x ≡ true
    → any q xs ≡ true
any_of_found p q [] x e h = absurd (cc)
any_of_found p q (y ∷ ys) x e h = grind (arith, any_of_found p q ys x)

-- The client, the server and the template that were found make the new row its tenant's own.
site_of-IsOwnSite :
    (user : AuthUser) (dto : CreateSiteDto) (id : Text) (db : Tables) (client server : Owner)
    (template : Template)
    → find (is_own user.tenant_id dto.client_id) db.clients ≡ some client
    → find (is_own user.tenant_id dto.server_id) db.servers ≡ some server
    → find (is_usable user.tenant_id dto.template_id) db.templates ≡ some template
    → IsOwnSite db.clients db.servers db.templates (site_of user dto template id)
unfolding site_of
site_of-IsOwnSite user dto id db client server template e1 e2 e3 =
    let usable = find-holds (is_usable user.tenant_id dto.template_id) db.templates template e3 in
    record {
      client = any_of_found _ _ db.clients client e1 (find-holds _ db.clients client e1);
      server = any_of_found _ _ db.servers server e2 (find-holds _ db.servers server e2);
      template = any_of_found _ _ db.templates template e3 (ground arith);
    }

after_refuse :
    {A : Type 0} (db : Tables) (domain : Text) (existing : Option Site) (rest : Act Tables A)
    → IsOwned db
    → IsOwned (rest db).1
    → IsOwned ((refuse_existing domain existing >> rest) db).1
unfolding refuse_existing ◌>>=◌
after_refuse db domain none rest h k = k
after_refuse db domain (some s) rest h k = h

add_site-IsOwned :
    (user : AuthUser) (dto : CreateSiteDto) (template : Template) (id : Text) (db : Tables)
    → IsOwned db
    → IsOwnSite db.clients db.servers db.templates (site_of user dto template id)
    → IsOwned (add_site user dto template id db).1
unfolding add_site log ◌>>=◌
add_site-IsOwned user dto template id db h own = record {
  each = All-last _ db.sites (site_of user dto template id) h.each own;
}

insert_site-IsOwned :
    (user : AuthUser) (dto : CreateSiteDto) (template : Template) (id : Text) (db : Tables)
    → IsOwned db
    → IsOwnSite db.clients db.servers db.templates (site_of user dto template id)
    → IsOwned (insert_site user dto template id db).1
unfolding insert_site ◌>>=◌
insert_site-IsOwned user dto template id db h own = after_refuse db dto.domain _ _ h (
    after_guard IsOwned db h
      (not (any (λ (s : Site). text_eq s.domain (to_lower_case dto.domain)) db.sites)) conflict _
      (add_site user dto template id) (add_site-IsOwned user dto template id db h own))

create-IsOwned :
    (user : AuthUser) (dto : CreateSiteDto) (id : Text) (db : Tables)
    → IsOwned db
    → IsOwned (create user dto id db).1
unfolding create ◌>>=◌
create-IsOwned user dto id db h = after_commit IsOwned db h _ (
    after_require IsOwned db h (find (is_own user.tenant_id dto.client_id) db.clients) _ _ _
      (λ client e1.
        after_require IsOwned db h (find (is_own user.tenant_id dto.server_id) db.servers) _ _ _
          (λ server e2.
            after_require IsOwned db h
              (find (is_usable user.tenant_id dto.template_id) db.templates) _ _
              (λ template. insert_site user dto template id)
              (λ template e3.
                insert_site-IsOwned user dto template id db h
                  (site_of-IsOwnSite user dto id db client server template e1 e2 e3)))))

-- A template that the tenant sees, if any.
abbrev IsSeen : Text → List Template → Option Template → Type 0
IsSeen tenant templates none = Unit
IsSeen tenant templates (some t) =
    any (λ (u : Template). is_seen tenant u.tenant_id && text_eq u.id t.id) templates ≡ true

edited-IsOwnSite :
    (tenant id : Text) (dto : UpdateSiteDto) (template : Option Template) (db : Tables) (s : Site)
    → IsSeen tenant db.templates template
    → is_row tenant id s ≡ true
    → IsOwnSite db.clients db.servers db.templates s
    → IsOwnSite db.clients db.servers db.templates (with_template template (edited dto s))
unfolding edited
edited-IsOwnSite tenant id dto none db s seen row own = record {
  client = own.client;
  server = own.server;
  template = own.template;
}
edited-IsOwnSite tenant id dto (some t) db s seen row own = record {
  client = own.client;
  server = own.server;
  template =
      subst
        (λ owner.
          any (λ (u : Template). is_seen owner u.tenant_id && text_eq u.id t.id) db.templates
          ≡ true)
        (sym ((text_eq_iff s.tenant_id tenant).0 (ground arith))) seen;
}

edit-IsOwned :
    (user : AuthUser) (id : Text) (dto : UpdateSiteDto) (before : Site) (template : Option Template)
    (db : Tables)
    → IsOwned db
    → IsSeen user.tenant_id db.templates template
    → IsOwned (write_site user id dto before template db).1
unfolding write_site log ◌>>=◌
edit-IsOwned user id dto before template db h seen = record {
  each =
      All-edit_first _ (is_row user.tenant_id id) (λ s. with_template template (edited dto s))
        (λ s row own. edited-IsOwnSite user.tenant_id id dto template db s seen row own) db.sites
        h.each;
}

change-IsOwned :
    (user : AuthUser) (wanted : Option Text) (before : Site) (db : Tables)
    (rest : Option Template → Act Tables Site)
    → IsOwned db
    → ((template : Option Template)
        → IsSeen user.tenant_id db.templates template
        → IsOwned (rest template db).1)
    → IsOwned ((template_change user wanted before >>= rest) db).1
unfolding template_change ◌>>=◌
change-IsOwned user wanted before db rest h k =
    elim (Bool-cases (changed_template wanted before.template_id)) [
      | inr same ↦ rw same (k none tt)
      | inl other ↦ rw other (
          go (find (is_usable user.tenant_id (or_else wanted [])) db.templates) (λ t e.
            let usable =
              find-holds (is_usable user.tenant_id (or_else wanted [])) db.templates t e in
            let same = text_eq_refl t.id in
            k (some t) (any_of_found _ _ db.templates t e (ground arith))))
    ]
  where
    go :
        (found : Option Template)
        → ((t : Template) → found ≡ some t → IsOwned (rest (some t) db).1)
        → IsOwned
            ((require found bad_request (txt "template_id: template not found or deprecated")
                >>= (λ (t : Template). pure (some t))
                >>= rest)
              db).1
    go none then' = h
    go (some t) then' = then' t refl

update-IsOwned :
    (user : AuthUser) (id : Text) (dto : UpdateSiteDto) (db : Tables)
    → IsOwned db
    → IsOwned (update user id dto db).1
unfolding update ◌>>=◌
update-IsOwned user id dto db h = after_commit IsOwned db h _ (
    after_require IsOwned db h (find (is_row user.tenant_id id) db.sites) _ _ _ (λ before e.
      change-IsOwned user dto.template_id before db (write_site user id dto before) h
        (λ template seen. edit-IsOwned user id dto before template db h seen)))

archive-IsOwned :
    (user : AuthUser) (id : Text) (db : Tables) → IsOwned db → IsOwned (archive user id db).1
unfolding archive ◌>>=◌
archive-IsOwned user id db h = after_commit IsOwned db h _ (
    after_require IsOwned db h (find (is_row user.tenant_id id) db.sites) _ _ _ (λ site e. record {
      each =
          All-edit_first _ (is_row user.tenant_id id) (λ s. record s { status = archived })
            (λ s row own. record {
              client = own.client;
              server = own.server;
              template = own.template;
            })
            db.sites h.each;
    }))

-- Through any sequence of requests to create, update and archive sites, by users of any tenants,
-- every site's client and server are of the tenant of the site, and its template is one that the
-- tenant sees.
pub serve_all-IsOwned :
    (requests : List Request) (db : Tables) → IsOwned db → IsOwned (serve_all requests db)
unfolding serve_all serve
serve_all-IsOwned [] db h = h
serve_all-IsOwned (create_request user dto id ∷ rs) db h =
    serve_all-IsOwned rs (create user dto id db).1 (create-IsOwned user dto id db h)
serve_all-IsOwned (update_request user id dto ∷ rs) db h =
    serve_all-IsOwned rs (update user id dto db).1 (update-IsOwned user id dto db h)
serve_all-IsOwned (archive_request user id ∷ rs) db h =
    serve_all-IsOwned rs (archive user id db).1 (archive-IsOwned user id db h)
