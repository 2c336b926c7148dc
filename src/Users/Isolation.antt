-- ===== src/Users/Isolation.antt =====
-- The rows of other tenants, and actors who are no admins.
use site_foundry.Users.{
  is_admin, AuthUser, User, AuditEntry, Db, CreateUserDto, UpdateUserDto, in_tenant, is_row,
  require_admin, assert_not_last_admin, audit, create, updated, update_found, update, remove_found,
  remove,
}
use site_foundry.Users.Admins.{Request, create_request, update_request, remove_request, serve}
use site_foundry.Effects.{modify, ◌>>=◌}
use site_foundry.Effects.Keeps.{Keeps, Keeps-bind, keeps_rules}
use site_foundry.Json.{Json}
use site_foundry.Prelude.{
  ◌≡◌, refl, ap, ◌∙◌, Bool, true, false, not, List, [], ◌∷◌, ◌++◌, arith, keep, edit_first,
  remove_first,
}
use site_foundry.Text.{Text, text_eq, text_eq_refl}

abbrev pub actor_of : Request → AuthUser
actor_of (create_request actor dto id) = actor
actor_of (update_request actor id dto) = actor
actor_of (remove_request actor id) = actor

-- The users of the other tenants, and the entries of their audit logs.
pub others : Text → Db → List User × List AuditEntry
others tenant db = (
  keep (λ u. not (in_tenant tenant u)) db.users,
  keep (λ (a : AuditEntry). not (text_eq a.tenant_id tenant)) db.audit,
)

module _ {A : Type 0} (q p : A → Bool) (hidden : (x : A) → p x ≡ true → q x ≡ false) where
  keep-edit_first :
      (f : A → A)
      → ((x : A) → q (f x) ≡ q x)
      → (xs : List A) → keep q (edit_first p f xs) ≡ keep q xs
  keep-edit_first f same [] = refl
  keep-edit_first f same (x ∷ xs) = grind (arith, keep-edit_first f same xs, hidden x, same x)

  keep-remove_first : (xs : List A) → keep q (remove_first p xs) ≡ keep q xs
  keep-remove_first [] = refl
  keep-remove_first (x ∷ xs) = grind (arith, keep-remove_first xs, hidden x)

keep-last :
    {A : Type 0} (q : A → Bool) (xs : List A) (x : A)
    → q x ≡ false
    → keep q (xs ++ x ∷ []) ≡ keep q xs
keep-last q [] x h = rw h refl
keep-last q (y ∷ xs) x h = grind (arith, keep-last q xs x h)

module _ (actor : AuthUser) (seen : List User × List AuditEntry) where
  abbrev IsApart : Db → Type 0
  IsApart db = others actor.tenant_id db ≡ seen

  hidden_lem :
      (id : Text) (u : User)
      → is_row actor.tenant_id id u ≡ true
      → not (in_tenant actor.tenant_id u) ≡ false
  hidden_lem id u h = ground arith

  audit-IsApart :
      (action id : Text) (before after : Json) → Keeps IsApart (audit actor action id before after)
  unfolding audit ◌>>=◌ others
  audit-IsApart action id before after = record {
    at = λ db h.
        ap (λ entries. (keep (λ (u : User). not (in_tenant actor.tenant_id u)) db.users, entries))
          (keep-last (λ (a : AuditEntry). not (text_eq a.tenant_id actor.tenant_id)) db.audit _
            (ap not (text_eq_refl actor.tenant_id)))
        ∙ h;
  }

  users-IsApart :
      (f : List User → List User)
      → ((users : List User)
          → keep (λ u. not (in_tenant actor.tenant_id u)) (f users)
            ≡ keep (λ u. not (in_tenant actor.tenant_id u)) users)
      → Keeps IsApart (modify (λ (db : Db). record db { users = f db.users }))
  unfolding ◌>>=◌ others
  users-IsApart f same = record {
    at = λ db h.
        ap
          (λ users.
            (users, keep (λ (a : AuditEntry). not (text_eq a.tenant_id actor.tenant_id)) db.audit))
          (same db.users)
        ∙ h;
  }

  assert-IsApart : (t : Text) → Keeps IsApart (assert_not_last_admin t)
  unfolding assert_not_last_admin
  assert-IsApart t = search keeps_rules

  require-IsApart : Keeps IsApart (require_admin actor)
  unfolding require_admin
  require-IsApart = search keeps_rules

  ruleset apart_rules = (keeps_rules, audit-IsApart, assert-IsApart, require-IsApart)

  edit-IsApart :
      (id : Text) (f : User → User)
      → ((u : User) → (f u).tenant_id ≡ u.tenant_id)
      → Keeps IsApart (
          modify
            (λ (db : Db). record db { users = edit_first (is_row actor.tenant_id id) f db.users }))
  edit-IsApart id f same = users-IsApart (edit_first (is_row actor.tenant_id id) f) (
      keep-edit_first _ _ (hidden_lem id) f
        (λ u. ap (λ t. not (text_eq t actor.tenant_id)) (same u)))

  delete-IsApart :
      (id : Text)
      → Keeps IsApart (
          modify
            (λ (db : Db). record db { users = remove_first (is_row actor.tenant_id id) db.users }))
  delete-IsApart id =
      users-IsApart (remove_first (is_row actor.tenant_id id))
        (keep-remove_first _ _ (hidden_lem id))

  add-IsApart :
      (u : User)
      → u.tenant_id ≡ actor.tenant_id
      → Keeps IsApart (modify (λ (db : Db). record db { users = db.users ++ u ∷ [] }))
  add-IsApart u here =
      users-IsApart (λ users. users ++ u ∷ [])
        (λ users.
          keep-last (λ u. not (in_tenant actor.tenant_id u)) users u
            (ap (λ t. not (text_eq t actor.tenant_id)) here
              ∙ ap not (text_eq_refl actor.tenant_id)))

  update_found-IsApart :
      (hash : Text → Text) (id : Text) (dto : UpdateUserDto) (target : User)
      → Keeps IsApart (update_found hash actor id dto target)
  unfolding update_found
  update_found-IsApart hash id dto target = Keeps-bind _ _ (search apart_rules) (λ _.
      Keeps-bind _ _ (edit-IsApart id (updated hash dto) (λ u. refl)) (λ _. search apart_rules))

  remove_found-IsApart : (id : Text) (target : User) → Keeps IsApart (remove_found actor id target)
  unfolding remove_found
  remove_found-IsApart id target = search (apart_rules, delete-IsApart) depth 12

  create-IsApart :
      (hash : Text → Text) (dto : CreateUserDto) (id : Text)
      → Keeps IsApart (create hash actor dto id)
  unfolding create
  create-IsApart hash dto id = search (apart_rules, add-IsApart) depth 12

  update-IsApart :
      (hash : Text → Text) (id : Text) (dto : UpdateUserDto)
      → Keeps IsApart (update hash actor id dto)
  unfolding update
  update-IsApart hash id dto = search (apart_rules, update_found-IsApart) depth 12

  remove-IsApart : (id : Text) → Keeps IsApart (remove actor id)
  unfolding remove
  remove-IsApart id = search (apart_rules, remove_found-IsApart) depth 12

-- A request changes neither the users of the other tenants nor their audit entries, whatever it
-- asks for and whether it succeeds or fails.
pub serve-others :
    (hash : Text → Text) (r : Request) (db : Db)
    → others (actor_of r).tenant_id (serve hash r db) ≡ others (actor_of r).tenant_id db
unfolding serve
serve-others hash (create_request actor dto id) db = (create-IsApart actor _ hash dto id).at db refl
serve-others hash (update_request actor id dto) db = (update-IsApart actor _ hash id dto).at db refl
serve-others hash (remove_request actor id) db = (remove-IsApart actor _ id).at db refl

-- A request of an actor who is no admin changes nothing.
pub serve_unprivileged :
    (hash : Text → Text) (r : Request) (db : Db)
    → is_admin (actor_of r).role ≡ false
    → serve hash r db ≡ db
unfolding serve create update remove require_admin ◌>>=◌
serve_unprivileged hash (create_request actor dto id) db h = rw (serve, h) refl
serve_unprivileged hash (update_request actor id dto) db h = rw (serve, h) refl
serve_unprivileged hash (remove_request actor id) db h = rw (serve, h) refl
