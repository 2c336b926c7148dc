-- ===== src/Users/Admins.antt =====
-- The admins of a tenant under requests.
use site_foundry.Users.{
  is_admin, AuthUser, User, Db, CreateUserDto, UpdateUserDto, is_row, is_admin_of, require_admin,
  assert_not_last_admin, audit, demotes, create, updated, update_found, update, remove_found,
  remove,
}
use site_foundry.Effects.{
  Kind, bad_request, not_found, Exception, Result, ok, err, Act, pure, require, commit, guard,
  ◌>>=◌, ◌>>◌,
}
use site_foundry.Web.{to_lower_case}
use site_foundry.Prelude.{
  ◌≤◌, ◌≡◌, refl, sym, ap, ◌∙◌, ◌⊎◌, inl, inr, Bool, true, false, not, Option, none, some, List, [],
  ◌∷◌, arith, leb, if◌then◌else◌, Bool-cases, any, find, edit_first, remove_first, count,
  count-append, find-holds, count-edit_first, count-remove_first,
}
use site_foundry.Text.{Text, txt, text_eq, text_eq_iff}

-- A request to the controller; the text of a creation is the id that the row is given.
pub data Request : Type 0 where
  create_request : AuthUser → CreateUserDto → Text → Request
  update_request : AuthUser → Text → UpdateUserDto → Request
  remove_request : AuthUser → Text → Request

-- There is an admin in the tenant.
abbrev pub HasAdmin : Text → Db → Type 0
HasAdmin tenant db = 1 ≤ count (is_admin_of tenant) db.users

same_tenant : (a b c : Text) → text_eq a b ≡ true → text_eq a c ≡ true → b ≡ c
same_tenant a b c e f = sym ((text_eq_iff a b).0 e) ∙ (text_eq_iff a c).0 f

abbrev last_admin : Exception
last_admin = record { kind = bad_request; message = txt "Cannot remove the last admin" }

-- An assertion fails and changes nothing, or passes where there are two admins.
assert_lem :
    (tenant : Text) (db : Db)
    → (assert_not_last_admin tenant db ≡ (err last_admin, db))
      ⊎ ((assert_not_last_admin tenant db ≡ (ok tt, db))
          × (2 ≤ count (is_admin_of tenant) db.users))
unfolding assert_not_last_admin ◌>>=◌
assert_lem tenant db = elim (Bool-cases (leb (count (is_admin_of tenant) db.users) 1)) [
  | inl few ↦ inl (rw few refl)
  | inr many ↦ inr (rw many refl, ground arith)
]

module _ {A : Type 0} (t : Text) (db : Db) (h : HasAdmin t db) where
  guarded_lem :
      (b : Bool) (k : Kind) (message : Text) (rest : Act Db A)
      → HasAdmin t (rest db).1
      → HasAdmin t ((guard b k message >>= λ _. rest) db).1
  unfolding ◌>>=◌
  guarded_lem true k message rest then' = then'
  guarded_lem false k message rest then' = h

  commit_lem : (r : Result A × Db) → HasAdmin t r.1 → HasAdmin t (commit db r).1
  commit_lem (ok a, db') k = k
  commit_lem (err e, db') k = h

  found_lem :
      (found : Option User) (k : User → Act Db A)
      → ((u : User) → found ≡ some u → HasAdmin t (k u db).1)
      → HasAdmin t ((require found not_found (txt "User not found") >>= k) db).1
  unfolding ◌>>=◌
  found_lem none k then' = h
  found_lem (some u) k then' = then' u refl

-- What is written after the assertion keeps an admin in the tenant.
asserted_lem :
    {A : Type 0} (t tenant : Text) (needed : Bool) (db : Db) (rest : Act Db A)
    → HasAdmin t db
    → ((needed ≡ true → 2 ≤ count (is_admin_of tenant) db.users) → HasAdmin t (rest db).1)
    → HasAdmin t (((if needed then assert_not_last_admin tenant else pure tt) >> rest) db).1
unfolding ◌>>=◌
asserted_lem t tenant false db rest h k = k (λ e. absurd (cc))
asserted_lem t tenant true db rest h k = elim (assert_lem tenant db) [
  | inl refused ↦ rw refused h
  | inr (passed, many) ↦ rw passed (k (λ e. many))
]

module _ (t tenant id : Text) where
  -- The row that is found is one of the actor's tenant.
  belongs :
      (users : List User) (target : User)
      → find (is_row tenant id) users ≡ some target
      → text_eq target.tenant_id t ≡ true
      → tenant ≡ t
  belongs users target e here =
      let row = find-holds (is_row tenant id) users target e in
      same_tenant target.tenant_id tenant t (ground arith) here

  edit_lem :
      (hash : Text → Text) (dto : UpdateUserDto) (users : List User) (target : User)
      → find (is_row tenant id) users ≡ some target
      → (demotes dto.role target.role ≡ true → 2 ≤ count (is_admin_of tenant) users)
      → 1 ≤ count (is_admin_of t) users
      → 1 ≤ count (is_admin_of t) (edit_first (is_row tenant id) (updated hash dto) users)
  edit_lem hash dto users target e many h =
      let counted =
        count-edit_first (is_admin_of t) (is_row tenant id) (updated hash dto) users target e in
      elim (Bool-cases (text_eq target.tenant_id t)) [
        | inl here ↦
            let same = ap (λ x. count (is_admin_of x) users) (belongs users target e here) in
            grind arith
        | inr there ↦ grind arith
      ]

  remove_lem :
      (users : List User) (target : User)
      → find (is_row tenant id) users ≡ some target
      → (is_admin target.role ≡ true → 2 ≤ count (is_admin_of tenant) users)
      → 1 ≤ count (is_admin_of t) users
      → 1 ≤ count (is_admin_of t) (remove_first (is_row tenant id) users)
  remove_lem users target e many h =
      let counted = count-remove_first (is_admin_of t) (is_row tenant id) users target e in
      elim (Bool-cases (text_eq target.tenant_id t)) [
        | inl here ↦
            let same = ap (λ x. count (is_admin_of x) users) (belongs users target e here) in
            grind arith
        | inr there ↦ grind arith
      ]

module _ (hash : Text → Text) where
  -- `create`, `update` and `remove` as they change the database
  unfoldable pub serve : Request → Db → Db
  serve (create_request actor dto id) db = (create hash actor dto id db).1
  serve (update_request actor id dto) db = (update hash actor id dto db).1
  serve (remove_request actor id) db = (remove actor id db).1

  unfoldable pub serve_all : List Request → Db → Db
  serve_all [] db = db
  serve_all (r ∷ rs) db = serve_all rs (serve r db)

  module _ (t : Text) where
    update_found-HasAdmin :
        (actor : AuthUser) (id : Text) (dto : UpdateUserDto) (target : User) (db : Db)
        → find (is_row actor.tenant_id id) db.users ≡ some target
        → HasAdmin t db
        → HasAdmin t (update_found hash actor id dto target db).1
    unfolding update_found audit ◌>>=◌
    update_found-HasAdmin actor id dto target db e h =
        asserted_lem t actor.tenant_id (demotes dto.role target.role) db _ h
          (λ many. edit_lem t actor.tenant_id id hash dto db.users target e many h)

    remove_found-HasAdmin :
        (actor : AuthUser) (id : Text) (target : User) (db : Db)
        → find (is_row actor.tenant_id id) db.users ≡ some target
        → HasAdmin t db
        → HasAdmin t (remove_found actor id target db).1
    unfolding remove_found audit ◌>>=◌
    remove_found-HasAdmin actor id target db e h =
        asserted_lem t actor.tenant_id (is_admin target.role) db _ h
          (λ many. remove_lem t actor.tenant_id id db.users target e many h)

    create-HasAdmin :
        (actor : AuthUser) (dto : CreateUserDto) (id : Text) (db : Db)
        → HasAdmin t db
        → HasAdmin t (create hash actor dto id db).1
    unfolding create require_admin audit ◌>>=◌
    create-HasAdmin actor dto id db h = guarded_lem t db h (is_admin actor.role) _ _ _ (
        guarded_lem t db h (not (any (λ u. text_eq u.email (to_lower_case dto.email)) db.users)) _ _
          _ (omega (arith, count-append (is_admin_of t) db.users, h)))

    update-HasAdmin :
        (actor : AuthUser) (id : Text) (dto : UpdateUserDto) (db : Db)
        → HasAdmin t db
        → HasAdmin t (update hash actor id dto db).1
    unfolding update require_admin ◌>>=◌
    update-HasAdmin actor id dto db h = guarded_lem t db h (is_admin actor.role) _ _ _ (
        commit_lem t db h _ (
          found_lem t db h (find (is_row actor.tenant_id id) db.users)
            (update_found hash actor id dto)
            (λ target e. update_found-HasAdmin actor id dto target db e h)))

    remove-HasAdmin :
        (actor : AuthUser) (id : Text) (db : Db) → HasAdmin t db → HasAdmin t (remove actor id db).1
    unfolding remove require_admin ◌>>=◌
    remove-HasAdmin actor id db h = guarded_lem t db h (is_admin actor.role) _ _ _ (
        guarded_lem t db h (not (text_eq id actor.user_id)) _ _ _ (
          commit_lem t db h _ (
            found_lem t db h (find (is_row actor.tenant_id id) db.users) (remove_found actor id)
              (λ target e. remove_found-HasAdmin actor id target db e h))))

    serve-HasAdmin : (r : Request) (db : Db) → HasAdmin t db → HasAdmin t (serve r db)
    unfolding serve
    serve-HasAdmin (create_request actor dto id) db h = create-HasAdmin actor dto id db h
    serve-HasAdmin (update_request actor id dto) db h = update-HasAdmin actor id dto db h
    serve-HasAdmin (remove_request actor id) db h = remove-HasAdmin actor id db h

    -- A tenant that has an admin still has one after any sequence of requests to create, update
    -- and delete users, whoever sends them and whether they succeed or fail.
    pub serve_all-HasAdmin :
        (requests : List Request) (db : Db) → HasAdmin t db → HasAdmin t (serve_all requests db)
    unfolding serve_all
    serve_all-HasAdmin [] db h = h
    serve_all-HasAdmin (r ∷ rs) db h = serve_all-HasAdmin rs (serve r db) (serve-HasAdmin r db h)
