-- ===== src/Users/Tests.antt =====
-- A tenant with two admins, and the theorems at inputs that meet their hypotheses.
use site_foundry.Users.{
  Role, admin, viewer, AuthUser, User, Db, UpdateUserDto, require_admin, assert_not_last_admin,
  audit, update_found, update, remove_found, remove,
}
use site_foundry.Users.Admins.{
  Request, update_request, remove_request, HasAdmin, serve, serve_all, serve_all-HasAdmin,
}
use site_foundry.Users.Isolation.{others, serve-others}
use site_foundry.Effects.{◌>>=◌}
use site_foundry.Prelude.{String, ◌≡◌, refl, none, some, List, [], ◌∷◌, map, arith}
use site_foundry.Text.{txt, text_eq}

user : String → String → Role → User
user id tenant role = record {
  id = txt id;
  tenant_id = txt tenant;
  email = txt id;
  password_hash = [];
  role = role;
}

abbrev two_admins : Db
two_admins = record {
  users = user "a" "t" admin ∷ user "x" "s" admin ∷ user "b" "t" admin ∷ [];
  audit = [];
}

abbrev actor_a : AuthUser
actor_a = record { user_id = txt "a"; tenant_id = txt "t"; email = []; role = admin }

abbrev viewer_b : AuthUser
viewer_b = record { user_id = txt "b"; tenant_id = txt "t"; email = []; role = viewer }

abbrev demote_a : UpdateUserDto
demote_a = record { role = some viewer; password = none }

abbrev requests : List Request
requests =
    remove_request actor_a (txt "b")
    ∷ update_request actor_a (txt "a") demote_a
    ∷ remove_request actor_a (txt "x")
    ∷ []

-- The second admin goes, the first may not be demoted, and the other tenant's is not found.
last_admin_stays :
    map (λ (u : User). u.id) (serve_all (λ s. s) requests two_admins).users ≡ txt "a" ∷ txt "x" ∷ []
unfolding user serve_all serve update update_found remove remove_found require_admin
    assert_not_last_admin audit txt text_eq ◌>>=◌
last_admin_stays = refl

serve_all-HasAdmin_example : HasAdmin (txt "t") (serve_all (λ s. s) requests two_admins)
unfolding user txt text_eq
serve_all-HasAdmin_example = serve_all-HasAdmin (λ s. s) (txt "t") requests two_admins (omega arith)

serve-others_example :
    others (txt "t") (serve (λ s. s) (remove_request actor_a (txt "b")) two_admins)
    ≡ others (txt "t") two_admins
serve-others_example = serve-others (λ s. s) (remove_request actor_a (txt "b")) two_admins
